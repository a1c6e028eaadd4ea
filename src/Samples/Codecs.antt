-- ===== src/Samples/Codecs.antt =====
-- Small codecs, for the concrete runs of the tests: one entry for a number, and a length or a tag
-- before what varies.
use mathlib.Core.List.{append_assoc}
use tuxedo.Base.{
  ℕ, zero, suc, Bytes, List, [], ◌∷◌, ◌++◌, Option, none, some, length, ◌≡◌, refl, ap, ◌∙◌,
}
use tuxedo.Codec.{Codec}

abbrev decode_number : Bytes → Option (ℕ × Bytes)
decode_number [] = none
decode_number (n ∷ rest) = some (n, rest)

abbrev pub numbers : Codec ℕ
numbers = record { encode = λ n. n ∷ []; decode = decode_number; decode-encode = λ n rest. refl }

-- `f` after a decoder.
abbrev map_decoded : {A B : Type 0} → (A → B) → Option (A × Bytes) → Option (B × Bytes)
map_decoded f none = none
map_decoded f (some (a, rest)) = some (f a, rest)

abbrev pub through :
    {A B : Type 0} (c : Codec A) (to : B → A) (from : A → B) → ((b : B) → from (to b) ≡ b) → Codec B
through c to from back = record {
  encode = λ b. c.encode (to b);
  decode = λ d. map_decoded from (c.decode d);
  decode-encode = λ b rest.
      ap (map_decoded from) (c.decode-encode (to b) rest) ∙ ap (λ x. some (x, rest)) (back b);
}

abbrev decode_second : {A B : Type 0} → Codec B → Option (A × Bytes) → Option ((A × B) × Bytes)
decode_second c none = none
decode_second c (some (a, rest)) = map_decoded (λ b. (a, b)) (c.decode rest)

abbrev pub pairs : {A B : Type 0} → Codec A → Codec B → Codec (A × B)
pairs a b = record {
  encode = λ p. a.encode p.0 ++ b.encode p.1;
  decode = λ d. decode_second b (a.decode d);
  decode-encode = λ p rest.
      ap (λ d. decode_second b (a.decode d)) (append_assoc (a.encode p.0) (b.encode p.1) rest)
      ∙ ap (decode_second b) (a.decode-encode p.0 (b.encode p.1 ++ rest))
      ∙ ap (map_decoded (λ x. (p.0, x))) (b.decode-encode p.1 rest);
}

module _ {A : Type 0} (c : Codec A) where
  abbrev encode_all : List A → Bytes
  encode_all [] = []
  encode_all (x ∷ xs) = c.encode x ++ encode_all xs

  abbrev add_decoded : A → Option (List A × Bytes) → Option (List A × Bytes)
  add_decoded x none = none
  add_decoded x (some (xs, rest)) = some (x ∷ xs, rest)

  abbrev decode_many : ℕ → Bytes → Option (List A × Bytes)
  decode_many zero d = some ([], d)
  decode_many (suc n) d = elim (c.decode d) [
    | none ↦ none
    | some (x, rest) ↦ add_decoded x (decode_many n rest)
  ]

  abbrev decode_counted : Bytes → Option (List A × Bytes)
  decode_counted [] = none
  decode_counted (n ∷ d) = decode_many n d

  pub decode_many_lem :
      (xs : List A) (rest : Bytes)
      → decode_many (length xs) (encode_all xs ++ rest) ≡ some (xs, rest)
  decode_many_lem [] rest = refl
  decode_many_lem (x ∷ xs) rest = rw (
    append_assoc (c.encode x) (encode_all xs) rest,
    c.decode-encode x (encode_all xs ++ rest),
    decode_many_lem xs rest,
  )

  abbrev pub lists : Codec (List A)
  lists = record {
    encode = λ xs. length xs ∷ encode_all xs;
    decode = decode_counted;
    decode-encode = decode_many_lem;
  }

abbrev pub bytes : Codec Bytes
bytes = lists numbers

abbrev pub units : Codec (Unit {0})
units = record { encode = λ u. []; decode = λ d. some (tt, d); decode-encode = λ u rest. refl }
