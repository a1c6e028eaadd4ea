-- ===== src/Wallet/Sync.antt =====
-- wallet/src/sync.rs: opening the database and keeping it in step with the node (`open_db` and
-- `synchronize_helper`). The two `while` loops take the number of rounds that they may run.
pub mod Heights
mod Panics
pub mod Agreement
pub mod Opening
mod Tests
use tuxedo.Base.{
  ℕ, zero, suc, ◌+◌, ◌-◌, ◌%◌, ◌^◌, ◌==◌, Bool, true, false, Option, none, some, Outcome, ok, err,
  ok_or, expect, map_err, ◌>>=◌, if◌then◌else◌,
}
use tuxedo.Codec.{read}
use tuxedo.Wallet.{Db, Wallet, WalletError, OpaqueBlock, height, apply_block, unapply_highest_block}
use tuxedo.Wallet.Queries.{get_block_hash}

-- The node at the other end of the RPC connection, which answers by one chain as long as a
-- synchronization lasts: `node_get_block_hash` and `node_get_block`.
pub record Node : Type 0 where
  pub block_hash : ℕ → Option ℕ
  pub block : ℕ → Option OpaqueBlock

-- `different_genesis` is `open_db`'s own error; `still_running` says that a loop is not over after
-- its rounds.
pub data SyncError : Type 0 where
  failed : WalletError → SyncError
  different_genesis still_running : SyncError

-- `Some(wallet_hash) == node_hash`
abbrev pub is_hash : ℕ → Option ℕ → Bool
is_hash wallet_hash none = false
is_hash wallet_hash (some node_hash) = wallet_hash == node_hash

module _ {T V C : Type 0} (w : Wallet T V C) where
  -- `get_block_hash(db, height)?.expect(..)`
  unfoldable pub expect_block_hash : Db T → ℕ → Outcome SyncError ℕ
  expect_block_hash db best = do
    found ← map_err SyncError.failed (get_block_hash w db best)
    expect found

  -- `open_db`, at the trees of the database that sled opened.
  unfoldable pub open_db : Db T → ℕ → OpaqueBlock → Outcome SyncError (Db T)
  open_db db expected_genesis_hash expected_genesis_block = elim (height w db) [
    | some best ↦ do
      wallet_genesis_ivec ← expect (w.trees.get db.block_hashes (w.numbers.encode 0))
      wallet_genesis_hash ←
          ok_or (read w.hashes wallet_genesis_ivec) (SyncError.failed WalletError.bad_entry)
      if expected_genesis_hash == wallet_genesis_hash
          then ok db
          else err SyncError.different_genesis
    | none ↦ ok (record db {
      block_hashes =
          w.trees.insert db.block_hashes (w.numbers.encode 0)
            (w.hashes.encode expected_genesis_hash);
      blocks =
          w.trees.insert db.blocks (w.hashes.encode expected_genesis_hash)
            (w.opaque_blocks.encode expected_genesis_block);
    })
  ]

  module _ (node : Node) where
    -- The loop that reverts the wallet's blocks down to one that the node knows, whose height it
    -- gives back. Below height zero the `u32` wraps around.
    unfoldable pub roll_back : ℕ → Db T → ℕ → ℕ → Outcome SyncError (Db T × ℕ)
    roll_back zero db best wallet_hash = err SyncError.still_running
    roll_back (suc rounds) db best wallet_hash = elim (is_hash wallet_hash (node.block_hash best)) [
      | true ↦ ok (db, best)
      | false ↦ do
        reverted ← map_err SyncError.failed (unapply_highest_block w db)
        let lower = (best + (2 ^ 32 - 1)) % 2 ^ 32
        hash ← expect_block_hash reverted lower
        roll_back rounds reverted lower hash
    ]

    -- The loop that applies the node's blocks from a height on.
    unfoldable pub catch_up : ℕ → Db T → ℕ → Outcome SyncError (Db T)
    catch_up zero db next = err SyncError.still_running
    catch_up (suc rounds) db next = elim (node.block_hash next) [
      | none ↦ ok db
      | some hash ↦ do
        block ← expect (node.block hash)
        applied ← map_err SyncError.failed (apply_block w db block hash)
        catch_up rounds applied ((next + 1) % 2 ^ 32)
    ]

    -- `synchronize_helper`
    unfoldable pub synchronize : ℕ → Db T → Outcome SyncError (Db T)
    synchronize rounds db = do
      best ← ok_or (height w db) (SyncError.failed WalletError.uninitialized)
      wallet_hash ← expect_block_hash db best
      common ← roll_back rounds db best wallet_hash
      catch_up rounds common.0 ((common.1 + 1) % 2 ^ 32)
