-- ===== src/Executive/Runtime.antt =====
-- What an `Executive<V, C>` (tuxedo-core/src/executive.rs) is built over: the host, the codecs, and
-- the runtime's verifier and constraint checker.
use tuxedo.Base.{ℕ, Bytes, ◌≡◌, List, [], ◌∷◌, ◌≢◌, refl, length, bytes_eq, ne_of_bytes_eq}
use tuxedo.Codec.{Codec}
use tuxedo.Host.{StorageApi}
use tuxedo.Types.{OutputRef, Input, Output, Transaction}
use tuxedo.Types.Encoding.{TransactionCodecs, encode_transaction}
use tuxedo.Verifier.{Verifier}
use tuxedo.ConstraintChecker.{ConstraintChecker}

-- sp_runtime's `generic::Header`.
pub record Header : Type 0 where
  pub parent_hash : ℕ
  pub number : ℕ
  pub state_root : ℕ
  pub extrinsics_root : ℕ
  pub digest : Bytes

-- sp_runtime's `generic::Block`.
pub record Block (V C : Type 0) : Type 0 where
  pub header : Header
  pub extrinsics : List (Transaction V C)

-- An `OutputRef` is encoded by the 32 bytes of its hash and the 4 of its index.
pub record Runtime (S V R C E : Type 0) : Type 0 where
  pub storage : StorageApi S
  pub blake2_256 : Bytes → ℕ
  pub ordered_trie_root : List Bytes → ℕ
  pub output_refs : Codec OutputRef
  pub inputs : Codec Input
  pub outputs : Codec (Output V)
  pub transactions : TransactionCodecs V C
  pub bytes : Codec Bytes
  pub block_numbers : Codec ℕ
  pub headers : Codec Header
  pub extrinsics : Codec (List Bytes)
  pub verifier : Verifier V R
  pub checker : ConstraintChecker S C E
  pub length-output_ref : (r : OutputRef) → length (output_refs.encode r) ≡ 36

-- `HEADER_KEY`, `HEIGHT_KEY` and `EXTRINSIC_KEY` (tuxedo-core/src/lib.rs).
abbrev pub header_key : Bytes
header_key = b'h' ∷ b'e' ∷ b'a' ∷ b'd' ∷ b'e' ∷ b'r' ∷ []

abbrev pub height_key : Bytes
height_key = b'h' ∷ b'e' ∷ b'i' ∷ b'g' ∷ b'h' ∷ b't' ∷ []

abbrev pub extrinsic_key : Bytes
extrinsic_key = b'e' ∷ b'x' ∷ b't' ∷ b'r' ∷ b'i' ∷ b'n' ∷ b's' ∷ b'i' ∷ b'c' ∷ b's' ∷ []

pub height-ne-header : height_key ≢ header_key
unfolding bytes_eq
height-ne-header = ne_of_bytes_eq height_key header_key refl

pub height-ne-extrinsic : height_key ≢ extrinsic_key
unfolding bytes_eq
height-ne-extrinsic = ne_of_bytes_eq height_key extrinsic_key refl

pub header-ne-extrinsic : header_key ≢ extrinsic_key
unfolding bytes_eq
header-ne-extrinsic = ne_of_bytes_eq header_key extrinsic_key refl

module _ {S V R C E : Type 0} (rt : Runtime S V R C E) where
  abbrev pub encode_tx : Transaction V C → Bytes
  encode_tx tx = encode_transaction rt.transactions tx

  -- `BlakeTwo256::hash_of(&transaction.encode())`: `hash_of` encodes the byte vector once more.
  unfoldable pub tx_hash_of : Transaction V C → ℕ
  tx_hash_of tx = rt.blake2_256 (rt.bytes.encode (encode_tx tx))
