-- ===== src/Wallet.antt =====
-- wallet/src/sync.rs, with `apply_transaction` of wallet/src/money.rs and of wallet/src/timestamp.rs:
-- the wallet's database of blocks and owned outputs. A failure of sled itself is left out,
-- and so is what an operation that ends in an error has written before it.
pub mod Blocks
pub mod Kept
pub mod Moves
pub mod Outputs
pub mod Queries
pub mod Reorg
pub mod Selection
pub mod Spending
pub mod Sync
pub mod Arguments
pub mod Balances
mod Tests
use tuxedo.Base.{
  ℕ, zero, suc, ◌+◌, ◌-◌, ◌%◌, ◌^◌, ◌==◌, ltb, Bytes, Bool, List, [], ◌∷◌, ◌++◌, length, Option,
  none, some, Outcome, ok, err, ok_or, map_err, ◌>>=◌, ◌>>◌, bytes_eq, if◌then◌else◌, ◌≡◌,
}
use tuxedo.Codec.{Codec, read}
use tuxedo.DynamicTyping.{DynamicTypingError, UtxoData, extract}
use tuxedo.Types.{OutputRef, Input, Output, Transaction}
use tuxedo.Types.Encoding.{TransactionCodecs, encode_transaction, decode_transaction}
use tuxedo.Money.{Coin}
use tuxedo.Timestamp.{Timestamp}
use tuxedo.Executive.Validation.{new_ref}

-- A sled `Tree`, third party: a map from keys to values.
pub record TreeApi (T : Type 0) : Type 0 where
  pub get : T → Bytes → Option Bytes
  pub insert : T → Bytes → Bytes → T
  pub remove : T → Bytes → T
  pub len : T → ℕ
  pub iter : T → List (Bytes × Bytes)
  pub get-insert :
      (t : T) (k v j : Bytes) → get (insert t k v) j ≡ (if bytes_eq k j then some v else get t j)
  pub get-remove :
      (t : T) (k j : Bytes) → get (remove t k) j ≡ (if bytes_eq k j then none else get t j)
  pub len-insert : (t : T) (k v : Bytes) → get t k ≡ none → len (insert t k v) ≡ suc (len t)
  pub len-remove : (t : T) (k v : Bytes) → get t k ≡ some v → suc (len (remove t k)) ≡ len t

-- The tables.
pub record Db (T : Type 0) : Type 0 where
  pub block_hashes : T
  pub blocks : T
  pub unspent : T
  pub spent : T
  pub timestamp : T

pub data WalletError : Type 0 where
  bad_payload bad_entry bad_verifier bad_transaction : WalletError
  uninitialized inconsistent corrupted : WalletError

-- tuxedo-core's `OpaqueBlock`: its extrinsics are their encodings.
pub record OpaqueBlock : Type 0 where
  pub number : ℕ
  pub extrinsics : List Bytes

-- What the wallet is built over: the codecs, the hash, the runtime's verifier with its
-- `Sr25519Signature` variant, and the filter of the outputs that the wallet owns.
pub record Wallet (T V C : Type 0) : Type 0 where
  pub trees : TreeApi T
  pub refs : Codec OutputRef
  pub owned : Codec (ℕ × ℕ)
  pub numbers : Codec ℕ
  pub times : Codec ℕ
  pub hashes : Codec ℕ
  pub opaque_blocks : Codec OpaqueBlock
  pub transactions : TransactionCodecs V C
  pub bytes : Codec Bytes
  pub blake2_256 : Bytes → ℕ
  pub coin_data : UtxoData Coin
  pub timestamp_data : UtxoData Timestamp
  pub signature_owner : V → Option ℕ
  pub filter : V → Bool

module _ {T V C : Type 0} (w : Wallet T V C) where
  unfoldable pub add_unspent_output : Db T → OutputRef → ℕ → ℕ → Db T
  add_unspent_output db output_ref owner_pubkey amount = record db {
    unspent =
        w.trees.insert db.unspent (w.refs.encode output_ref)
          (w.owned.encode (owner_pubkey, amount));
  }

  unfoldable pub remove_unspent_output : Db T → OutputRef → Db T
  remove_unspent_output db output_ref = record db {
    unspent = w.trees.remove db.unspent (w.refs.encode output_ref);
  }

  -- The body that `spend_output` and `unspend_output` share: an entry is taken out of one table,
  -- decoded, and put into the other.
  unfoldable pub move_entry : T → T → OutputRef → Outcome WalletError (T × T)
  move_entry from to output_ref = elim (w.trees.get from (w.refs.encode output_ref)) [
    | none ↦ ok (from, to)
    | some ivec ↦ do
      entry ← ok_or (read w.owned ivec) WalletError.bad_entry
      ok (
        w.trees.remove from (w.refs.encode output_ref),
        w.trees.insert to (w.refs.encode output_ref) (w.owned.encode entry),
      )
  ]

  -- The loops over the inputs, on the two tables.
  unfoldable pub move_all : T → T → List Input → Outcome WalletError (T × T)
  move_all from to [] = ok (from, to)
  move_all from to (i ∷ is) = do
    moved ← move_entry from to i.output_ref
    move_all moved.0 moved.1 is

  -- `spend_output` on every input.
  unfoldable pub spend_inputs : Db T → List Input → Outcome WalletError (Db T)
  spend_inputs db inputs = do
    moved ← move_all db.unspent db.spent inputs
    ok (record db { unspent = moved.0; spent = moved.1 })

  -- `unspend_output` on every input.
  unfoldable pub unspend_inputs : Db T → List Input → Outcome WalletError (Db T)
  unspend_inputs db inputs = do
    moved ← move_all db.spent db.unspent inputs
    ok (record db { spent = moved.0; unspent = moved.1 })

  -- `money::apply_transaction`
  unfoldable pub apply_coin : Db T → ℕ → ℕ → Output V → Outcome WalletError (Db T)
  apply_coin db tx_hash index output = do
    coin ←
        map_err (λ (e : DynamicTypingError). WalletError.bad_payload)
          (extract w.coin_data output.payload)
    owner_pubkey ← ok_or (w.signature_owner output.verifier) WalletError.bad_verifier
    ok (add_unspent_output db (new_ref tx_hash index) owner_pubkey coin.value)

  -- `timestamp::apply_transaction`
  unfoldable pub apply_timestamp : Db T → Output V → Outcome WalletError (Db T)
  apply_timestamp db output = do
    timestamp ←
        map_err (λ (e : DynamicTypingError). WalletError.bad_payload)
          (extract w.timestamp_data output.payload)
    ok (record db {
      timestamp = w.trees.insert db.timestamp (0 ∷ []) (w.times.encode timestamp.time);
    })

  -- One round of the loop over the outputs.
  unfoldable pub apply_output : Db T → ℕ → ℕ → Output V → Outcome WalletError (Db T)
  apply_output db tx_hash index output =
      if bytes_eq output.payload.type_id w.coin_data.own_type_id
      then (if w.filter output.verifier then apply_coin db tx_hash index output else ok db)
      else if bytes_eq output.payload.type_id w.timestamp_data.own_type_id
      then apply_timestamp db output
      else ok db

  unfoldable pub apply_outputs : Db T → ℕ → ℕ → List (Output V) → Outcome WalletError (Db T)
  apply_outputs db tx_hash index [] = ok db
  apply_outputs db tx_hash index (o ∷ os) = do
    applied ← apply_output db tx_hash index o
    apply_outputs applied tx_hash (index + 1) os

  -- `BlakeTwo256::hash_of` of a byte vector.
  abbrev pub hash_of : Bytes → ℕ
  hash_of encoded = w.blake2_256 (w.bytes.encode encoded)

  -- `Transaction::decode(&mut &encoded[..])`
  abbrev pub decoded : Bytes → Outcome WalletError (Transaction V C × Bytes)
  decoded encoded = ok_or (decode_transaction w.transactions encoded) WalletError.bad_transaction

  -- `apply_transaction`, at the encoding of the opaque extrinsic.
  unfoldable pub apply_transaction : Db T → Bytes → Outcome WalletError (Db T)
  apply_transaction db encoded_extrinsic = do
    tx ← decoded encoded_extrinsic
    db1 ← apply_outputs db (hash_of encoded_extrinsic) 0 tx.0.outputs
    spend_inputs db1 tx.0.inputs

  -- `for i in 0..tx.outputs.len()`, from `index` on with `count` rounds left.
  unfoldable pub remove_outputs : Db T → ℕ → ℕ → ℕ → Db T
  remove_outputs db tx_hash zero index = db
  remove_outputs db tx_hash (suc count) index =
      remove_outputs (remove_unspent_output db (new_ref tx_hash index)) tx_hash count (index + 1)

  -- `unapply_transaction`; the hash is that of the decoded transaction, encoded again.
  unfoldable pub unapply_transaction : Db T → Bytes → Outcome WalletError (Db T)
  unapply_transaction db opaque_tx = do
    tx ← decoded opaque_tx
    db1 ← unspend_inputs db tx.0.inputs
    let tx_hash = hash_of (encode_transaction w.transactions tx.0)
    ok (remove_outputs db1 tx_hash (length tx.0.outputs) 0)

  unfoldable pub apply_transactions : Db T → List Bytes → Outcome WalletError (Db T)
  apply_transactions db [] = ok db
  apply_transactions db (x ∷ xs) = do
    applied ← apply_transaction db x
    apply_transactions applied xs

  -- `apply_block`
  unfoldable pub apply_block : Db T → OpaqueBlock → ℕ → Outcome WalletError (Db T)
  apply_block db b block_hash =
      apply_transactions
        (record db {
          block_hashes =
              w.trees.insert db.block_hashes (w.numbers.encode b.number)
                (w.hashes.encode block_hash);
          blocks = w.trees.insert db.blocks (w.hashes.encode block_hash) (w.opaque_blocks.encode b);
        })
        b.extrinsics

  -- The loop of `unapply_highest_block`: the last transaction first.
  unfoldable pub unapply_transactions : Db T → List Bytes → Outcome WalletError (Db T)
  unapply_transactions db [] = ok db
  unapply_transactions db (x ∷ xs) = do
    later ← unapply_transactions db xs
    unapply_transaction later x

  -- `height`; the number of blocks is cast to a `u32`.
  unfoldable pub height : Db T → Option ℕ
  height db =
      let num_blocks = w.trees.len db.block_hashes in
      if num_blocks == 0 then none else some ((num_blocks % 2 ^ 32 + (2 ^ 32 - 1)) % 2 ^ 32)

  -- `unapply_highest_block`
  unfoldable pub unapply_highest_block : Db T → Outcome WalletError (Db T)
  unapply_highest_block db = do
    best ← ok_or (height db) WalletError.uninitialized
    hash_ivec ← ok_or (w.trees.get db.block_hashes (w.numbers.encode best)) WalletError.inconsistent
    hash ← ok_or (read w.hashes hash_ivec) WalletError.bad_entry
    block_ivec ← ok_or (w.trees.get db.blocks (w.hashes.encode hash)) WalletError.corrupted
    block ← ok_or (read w.opaque_blocks block_ivec) WalletError.bad_entry
    unapply_transactions
        (record db {
          block_hashes = w.trees.remove db.block_hashes (w.numbers.encode best);
          blocks = w.trees.remove db.blocks (w.hashes.encode hash);
        })
        block.extrinsics
