-- ===== src/Codec.antt =====
-- The SCALE codec of a type (parity_scale_codec's `Encode` and `Decode`, third party).
-- `decode` reads one value from the front of its input and leaves the rest, as `Decode::decode`
-- does on a `&mut &[u8]`. Numbers that the source's type cannot hold do not occur; the model's
-- codec extends the real one to them by entries above 255.
use tuxedo.Base.{Bytes, ◌≡◌, ◌++◌, [], Option, none, some, ap, sym, ◌∙◌}
use mathlib.Core.List.{append-nil}

pub record Codec (A : Type 0) : Type 0 where
  pub encode : A → Bytes
  pub decode : Bytes → Option (A × Bytes)
  pub decode-encode : (a : A) (rest : Bytes) → decode (encode a ++ rest) ≡ some (a, rest)

-- `T::decode(&mut &d[..]).ok()`: the bytes after the value are ignored.
abbrev first {ℓ κ} : {A : Type ℓ} {B : Type κ} → Option (A × B) → Option A
first none = none
first (some (a, b)) = some a

abbrev pub read : {A : Type 0} → Codec A → Bytes → Option A
read c d = first (c.decode d)

module _ {A : Type 0} (c : Codec A) where
  pub read-encode_append : (a : A) (rest : Bytes) → read c (c.encode a ++ rest) ≡ some a
  read-encode_append a rest = ap first (c.decode-encode a rest)

  pub read-encode : (a : A) → read c (c.encode a) ≡ some a
  read-encode a = ap (read c) (sym (append-nil (c.encode a))) ∙ read-encode_append a []

  pub encode_injective : (a b : A) → c.encode a ≡ c.encode b → a ≡ b
  encode_injective a b e = cc (read-encode a, read-encode b, ap (read c) e)
