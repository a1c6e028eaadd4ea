-- ===== src/Wallet/Arguments/Tests.antt =====
-- A concrete run of the command line's parsers (wallet/src/main.rs), with a small `hex`.
use Prim.Native.Nat.{◌/◌}
use tuxedo.Base.{
  ℕ, ◌+◌, ◌-◌, ◌*◌, ◌%◌, ◌<◌, ltb, Bool, true, ◌&&◌, Bytes, [], ◌∷◌, ◌++◌, length, Option, some,
  none, ok, if◌then◌else◌, All, Bool-cases, inl, inr, ◌≡◌, refl, ap, ap₂, ◌∙◌, arith,
}
use tuxedo.Wallet.Arguments.{
  IsHexDigit, IsByte, HexApi, output_ref_from_string, h256_from_string, number_of, prefix,
  from_string-encode,
}
use tuxedo.Samples.Chain.{refs, coin_ref}

abbrev digit : ℕ → ℕ
digit n = if ltb n 10 then 48 + n else 87 + n

abbrev value : ℕ → ℕ
value c = if ltb c 58 then c - 48 else c - 87

abbrev encode : Bytes → Bytes
encode [] = []
encode (b ∷ bs) = digit (b / 16 % 16) ∷ digit (b % 16) ∷ encode bs

abbrev decode : Bytes → Option Bytes
decode [] = some []
decode (c ∷ []) = none
decode (c ∷ d ∷ s) =
    let rest = decode s in
    elim rest [ none ↦ none | some bs ↦ some ((value c * 16 + value d) ∷ bs) ]

value-digit : (n : ℕ) → n < 16 → value (digit n) ≡ n
value-digit n l = ground arith

byte_back : (b : ℕ) → IsByte b → value (digit (b / 16 % 16)) * 16 + value (digit (b % 16)) ≡ b
byte_back b l =
    let hi : b / 16 % 16 < 16 = omega arith in
    let lo : b % 16 < 16 = omega arith in
    let whole : b / 16 % 16 * 16 + b % 16 ≡ b = omega arith in
    ap₂ (λ x y. x * 16 + y) (value-digit (b / 16 % 16) hi) (value-digit (b % 16) lo) ∙ whole

digit-IsHexDigit : (n : ℕ) → n < 16 → IsHexDigit (digit n)
digit-IsHexDigit n l = elim (Bool-cases (ltb n 10)) [
  | inl small ↦ rw small (inl (omega arith, ground arith))
  | inr large ↦ rw large (inr (ground arith, omega arith))
]

decode-encode : (bs : Bytes) → All IsByte bs → decode (encode bs) ≡ some bs
decode-encode [] h = refl
decode-encode (b ∷ bs) (h, hs) = rw (decode-encode bs hs) (ap (λ n. some (n ∷ bs)) (byte_back b h))

length-encode : (bs : Bytes) → length (encode bs) ≡ length bs + length bs
length-encode [] = refl
length-encode (b ∷ bs) = omega (arith, length-encode bs)

encode-digits : (bs : Bytes) → All IsHexDigit (encode bs)
encode-digits [] = tt
encode-digits (b ∷ bs) = (
  digit-IsHexDigit (b / 16 % 16) (omega arith),
  (digit-IsHexDigit (b % 16) (omega arith), encode-digits bs),
)

abbrev hex : HexApi
hex = record {
  encode = encode;
  decode = decode;
  decode-encode = decode-encode;
  length-encode = length-encode;
  encode-digits = encode-digits;
}

abbrev public_key : Bytes
public_key =
    1 ∷ 2 ∷ 3 ∷ 4 ∷ 5 ∷ 6 ∷ 7 ∷ 8 ∷ 1 ∷ 2 ∷ 3 ∷ 4 ∷ 5 ∷ 6 ∷ 7 ∷ 8 ∷ 1 ∷ 2 ∷ 3 ∷ 4 ∷ 5 ∷ 6 ∷ 7 ∷ 8
    ∷ 1 ∷ 2 ∷ 3 ∷ 4 ∷ 5 ∷ 6 ∷ 7 ∷ 255 ∷ []

abbrev all_below : Bytes → Bool
all_below [] = true
all_below (b ∷ bs) = ltb b 256 && all_below bs

-- Every entry is a byte.
bytes_of : (bs : Bytes) → all_below bs ≡ true → All IsByte bs
bytes_of [] h = tt
bytes_of (b ∷ bs) h = (ground arith, bytes_of bs (ground arith))

from_string_example :
    (output_ref_from_string hex refs (hex.encode (refs.encode coin_ref)) ≡ ok coin_ref)
    × (output_ref_from_string hex refs (prefix ++ hex.encode (refs.encode coin_ref)) ≡ ok coin_ref)
    × (h256_from_string hex (hex.encode public_key) ≡ ok (number_of 0 public_key))
    × (h256_from_string hex (prefix ++ hex.encode public_key) ≡ ok (number_of 0 public_key))
from_string_example =
    from_string-encode hex refs coin_ref public_key (omega arith)
      (bytes_of (refs.encode coin_ref) refl) refl (bytes_of public_key refl)
