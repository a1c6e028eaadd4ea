-- ===== src/Wallet/Arguments.antt =====
-- wallet/src/main.rs: how the wallet reads keys and output references from its command line. A
-- string is its UTF-8 bytes.
mod Tests
use tuxedo.Base.{
  ℕ, suc, zero, ◌+◌, ◌*◌, ◌<◌, ◌≤◌, ◌⊎◌, inl, inr, ltb, leb, ◌==◌, Bytes, Bool, ◌&&◌, true, false,
  List, [], ◌∷◌, ◌++◌, length, Option, some, none, Outcome, ok, err, panic, ok_or, ◌>>=◌,
  if◌then◌else◌, All, ◌≡◌, refl, ap, arith,
}
use tuxedo.Codec.{Codec, read, read-encode}
use tuxedo.Types.{OutputRef}

-- '0' to '9' and 'a' to 'f'.
abbrev pub IsHexDigit : ℕ → Type 0
IsHexDigit c = ((48 ≤ c) × (c < 58)) ⊎ ((97 ≤ c) × (c < 103))

abbrev pub IsByte : ℕ → Type 0
IsByte b = b < 256

-- The crate `hex`: two digits for every byte.
pub record HexApi : Type 0 where
  pub encode : Bytes → Bytes
  pub decode : Bytes → Option Bytes
  pub decode-encode : (bs : Bytes) → All IsByte bs → decode (encode bs) ≡ some bs
  pub length-encode : (bs : Bytes) → length (encode bs) ≡ length bs + length bs
  pub encode-digits : (bs : Bytes) → All IsHexDigit (encode bs)

-- `clap::error::ErrorKind::ValueValidation`
pub data ArgumentError : Type 0 where
  value_validation : ArgumentError

-- A byte in the middle of a character, where a slice of a string panics.
abbrev pub is_continuation : ℕ → Bool
is_continuation c = leb 128 c && ltb c 192

unfoldable pub strip_0x_prefix : Bytes → Outcome ArgumentError Bytes
strip_0x_prefix [] = panic
strip_0x_prefix (a ∷ []) = panic
strip_0x_prefix (a ∷ b ∷ []) = if a == b'0' && b == b'x' then ok [] else ok (a ∷ b ∷ [])
strip_0x_prefix (a ∷ b ∷ c ∷ s) =
    if is_continuation c
    then panic
    else if a == b'0' && b == b'x'
    then ok (c ∷ s)
    else ok (a ∷ b ∷ c ∷ s)

-- `H256::from`, after `acc`: the number that the bytes spell.
unfoldable pub number_of : ℕ → Bytes → ℕ
number_of acc [] = acc
number_of acc (b ∷ bs) = number_of (acc * 256 + b) bs

module _ (hex : HexApi) where
  -- `decode_to_slice` refuses a string of another length than 64.
  unfoldable pub h256_from_string : Bytes → Outcome ArgumentError ℕ
  h256_from_string s = do
    digits ← strip_0x_prefix s
    bytes ← ok_or (hex.decode digits) ArgumentError.value_validation
    if length bytes == 32 then ok (number_of 0 bytes) else err ArgumentError.value_validation

  unfoldable pub output_ref_from_string : Codec OutputRef → Bytes → Outcome ArgumentError OutputRef
  output_ref_from_string refs s = do
    digits ← strip_0x_prefix s
    bytes ← ok_or (hex.decode digits) ArgumentError.value_validation
    ok_or (read refs bytes) ArgumentError.value_validation

abbrev pub prefix : Bytes
prefix = b'0' ∷ b'x' ∷ []

not_inside : (c : ℕ) → IsHexDigit c → is_continuation c ≡ false
not_inside c (inl (l, u)) = ground arith
not_inside c (inr (l, u)) = ground arith

not_x : (c : ℕ) → IsHexDigit c → (c == b'x') ≡ false
not_x c (inl (l, u)) = ground arith
not_x c (inr (l, u)) = ground arith

not_prefix : (a b : ℕ) → IsHexDigit b → a == b'0' && b == b'x' ≡ false
not_prefix a b d = let e = not_x b d in ground arith

-- Digits are left alone, and are what is left of them after the prefix.
strip-digits :
    (s : Bytes)
    → All IsHexDigit s
    → 1 < length s
    → (strip_0x_prefix s ≡ ok s) × (strip_0x_prefix (prefix ++ s) ≡ ok s)
unfolding strip_0x_prefix
strip-digits [] d l = absurd (omega arith)
strip-digits (a ∷ []) d l = absurd (omega arith)
strip-digits (a ∷ b ∷ []) (da, (db, _)) l = (rw (not_prefix a b db) refl, rw (not_inside a da) refl)
strip-digits (a ∷ b ∷ c ∷ s) (da, (db, (dc, _))) l =
    (rw (not_inside c dc, not_prefix a b db) refl, rw (not_inside a da) refl)

module _ (hex : HexApi) (refs : Codec OutputRef) where
  -- The hexadecimal digits of an encoded output reference, with or without 0x in front, are parsed
  -- as the reference, if it has an encoding of bytes that is not empty; and those of 32 bytes as
  -- the number that they spell.
  pub from_string-encode :
      (r : OutputRef) (key : Bytes)
      → 0 < length (refs.encode r)
      → All IsByte (refs.encode r)
      → length key ≡ 32
      → All IsByte key
      → (output_ref_from_string hex refs (hex.encode (refs.encode r)) ≡ ok r)
        × (output_ref_from_string hex refs (prefix ++ hex.encode (refs.encode r)) ≡ ok r)
        × (h256_from_string hex (hex.encode key) ≡ ok (number_of 0 key))
        × (h256_from_string hex (prefix ++ hex.encode key) ≡ ok (number_of 0 key))
  unfolding output_ref_from_string h256_from_string
  from_string-encode r key some_bytes bytes size key_bytes =
      let of_ref =
        strip-digits (hex.encode (refs.encode r)) (hex.encode-digits (refs.encode r))
          (omega (arith, hex.length-encode (refs.encode r))) in
      let of_key =
        strip-digits (hex.encode key) (hex.encode-digits key)
          (omega (arith, hex.length-encode key)) in
      let whole : (length key == 32) ≡ true = ground arith in
      (
        rw (of_ref.0, hex.decode-encode (refs.encode r) bytes, read-encode refs r) refl,
        rw (of_ref.1, hex.decode-encode (refs.encode r) bytes, read-encode refs r) refl,
        rw (of_key.0, hex.decode-encode key key_bytes, whole) refl,
        rw (of_key.1, hex.decode-encode key key_bytes, whole) refl,
      )
