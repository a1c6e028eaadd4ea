-- ===== src/Wallet/Sync/Opening.antt =====
-- Opening the wallet's database (`open_db` of wallet/src/sync.rs).
use tuxedo.Base.{
  some_injective, ℕ, suc, ◌==◌, ◌<◌, ◌^◌, Option-cases, inl, inr, ok_injective, none, some, ◌≡◌,
  refl, ok, err, arith, if◌then◌else◌,
}
use tuxedo.Codec.{read}
use tuxedo.Wallet.{Db, Wallet, OpaqueBlock, height}
use tuxedo.Wallet.Queries.{get_block_hash}
use tuxedo.Wallet.Sync.{SyncError, open_db}
use tuxedo.Wallet.Sync.Heights.{HasBlocks, height_lem, insert-HasBlocks, stored_of_found}

module _ {T V C : Type 0} (w : Wallet T V C) where
  height-none : (db : Db T) → HasBlocks w db 0 → height w db ≡ none
  unfolding height
  height-none db h = ground (arith, h.counted)

  open_db-fresh :
      (db : Db T) (hash : ℕ) (block : OpaqueBlock)
      → HasBlocks w db 0
      → (opened : Db T) × (open_db w db hash block ≡ ok opened)
        × HasBlocks w opened 1
        × (get_block_hash w opened 0 ≡ ok (some hash))
  unfolding open_db
  open_db-fresh db hash block h =
      let opened : Db T = record db {
        block_hashes = w.trees.insert db.block_hashes (w.numbers.encode 0) (w.hashes.encode hash);
        blocks = w.trees.insert db.blocks (w.hashes.encode hash) (w.opaque_blocks.encode block);
      } in
      let (one, found, _) = insert-HasBlocks w db opened hash 0 h refl in
      (opened, rw (height-none db h, open_db), one, found)

  open_db-used :
      (db : Db T) (n genesis hash : ℕ) (block : OpaqueBlock)
      → n < 2 ^ 32
      → HasBlocks w db (suc n)
      → get_block_hash w db 0 ≡ ok (some genesis)
      → open_db w db hash block
        ≡ (if hash == genesis then ok db else err SyncError.different_genesis)
  unfolding open_db get_block_hash
  open_db-used db n genesis hash block lt h found =
      let (v, there) = stored_of_found w db 0 genesis found in
      let top = height_lem w db n h lt in
      elim (Option-cases (read w.hashes v)) [
        | inl bad ↦ cc (rw (there, bad, get_block_hash) at found)
        | inr (g, good) ↦
            let same : g ≡ genesis =
              some_injective (ok_injective (rw (there, good, get_block_hash) at found)) in
            rw (top, there, good, same, open_db)
      ]

  -- Opening a database without blocks stores the expected genesis block as the only one; opening
  -- the result again gives it back unchanged for the same genesis hash, and fails for any other.
  open_db_lem :
      (db : Db T) (genesis : ℕ) (block : OpaqueBlock)
      → HasBlocks w db 0
      → (opened : Db T) × (open_db w db genesis block ≡ ok opened)
        × HasBlocks w opened 1
        × ((hash : ℕ) (other : OpaqueBlock)
            → open_db w opened hash other
              ≡ (if hash == genesis then ok opened else err SyncError.different_genesis))
  open_db_lem db genesis block h =
      let (opened, e, one, found) = open_db-fresh db genesis block h in
      (
        opened,
        e,
        one,
        λ hash other. open_db-used opened 0 genesis hash other (omega arith) one found,
      )
