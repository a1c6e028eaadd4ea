-- ===== src/Types/Encoding.antt =====
-- The hand-written `Encode` and `Decode` of `Transaction` (tuxedo-core/src/types.rs).
use mathlib.Core.List.{append_assoc}
use tuxedo.Base.{
  ℕ, ◌+◌, ◌%◌, ◌^◌, ◌<◌, ◌≡◌, sym, ◌∙◌, ap, Bytes, List, ◌++◌, Option, none, some, length,
  length-append, arith,
}
use tuxedo.Codec.{Codec, read, read-encode}
use tuxedo.Types.{OutputRef, Input, Output, Transaction}

-- The codecs of the parts, which `parity_scale_codec` derives, and `Compact<u32>`.
pub record TransactionCodecs (V C : Type 0) : Type 0 where
  pub compact : Codec ℕ
  pub inputs : Codec (List Input)
  pub peeks : Codec (List OutputRef)
  pub outputs : Codec (List (Output V))
  pub checker : Codec C

infixl 5 ◌>>=◌
abbrev ◌>>=◌ {ℓ κ} : {A : Type ℓ} {B : Type κ} → Option A → (A → Option B) → Option B
none >>= f = none
some a >>= f = f a

module _ {V C : Type 0} (codecs : TransactionCodecs V C) where
  -- The four parts, in the order in which they are written.
  unfoldable pub body : Transaction V C → Bytes
  body tx =
      codecs.inputs.encode tx.inputs
      ++ (codecs.peeks.encode tx.peeks
          ++ (codecs.outputs.encode tx.outputs ++ codecs.checker.encode tx.checker))

  pub total_len : Transaction V C → ℕ
  total_len tx =
      (length (codecs.inputs.encode tx.inputs)
        + length (codecs.outputs.encode tx.outputs)
        + length (codecs.peeks.encode tx.peeks)
        + length (codecs.checker.encode tx.checker))
      % 2 ^ 32

  -- `Transaction::encode_to`
  unfoldable pub encode_transaction : Transaction V C → Bytes
  unfolding body total_len
  encode_transaction tx = codecs.compact.encode (total_len tx) ++ body tx

  -- `Transaction::decode`: the length is skipped.
  unfoldable pub decode_transaction : Bytes → Option (Transaction V C × Bytes)
  decode_transaction d = codecs.compact.decode d >>= λ (n : ℕ × Bytes).
      codecs.inputs.decode n.1 >>= λ (i : List Input × Bytes).
      codecs.peeks.decode i.1 >>= λ (p : List OutputRef × Bytes).
      codecs.outputs.decode p.1 >>= λ (o : List (Output V) × Bytes).
      codecs.checker.decode o.1 >>= λ (c : C × Bytes).
      some (record { inputs = i.0; peeks = p.0; outputs = o.0; checker = c.0 }, c.1)

  -- Decoding an encoded transaction gives it back and leaves the bytes that follow it.
  pub decode-encode_transaction :
      (tx : Transaction V C) (rest : Bytes)
      → decode_transaction (encode_transaction tx ++ rest) ≡ some (tx, rest)
  unfolding decode_transaction encode_transaction
  decode-encode_transaction tx rest = simp (
    append_assoc, codecs.compact.decode-encode, codecs.inputs.decode-encode,
    codecs.peeks.decode-encode, codecs.outputs.decode-encode, codecs.checker.decode-encode,
  )

  abbrev pub transaction_codec : Codec (Transaction V C)
  transaction_codec = record {
    encode = encode_transaction;
    decode = decode_transaction;
    decode-encode = decode-encode_transaction;
  }

  length-body : (tx : Transaction V C) → length (body tx) < 2 ^ 32 → total_len tx ≡ length (body tx)
  unfolding body total_len
  length-body tx h =
      let i = codecs.inputs.encode tx.inputs in
      let p = codecs.peeks.encode tx.peeks in
      let o = codecs.outputs.encode tx.outputs in
      let c = codecs.checker.encode tx.checker in
      omega (arith, length-append i (p ++ (o ++ c)), length-append p (o ++ c), length-append o c)

  -- Where the compact length and the bytes are how a byte vector is encoded, and the four parts are
  -- shorter than 2 ^ 32 bytes, an encoded transaction reads as the opaque byte vector of its parts.
  read-encode_transaction :
      (vec : Codec Bytes) (tx : Transaction V C)
      → vec.encode (body tx) ≡ codecs.compact.encode (length (body tx)) ++ body tx
      → length (body tx) < 2 ^ 32
      → read vec (encode_transaction tx) ≡ some (body tx)
  unfolding encode_transaction
  read-encode_transaction vec tx h fits =
      rw (length-body tx fits) (ap (read vec) (sym h) ∙ read-encode vec (body tx))
