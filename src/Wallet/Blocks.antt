-- ===== src/Wallet/Blocks.antt =====
-- The transactions of a block, applied in order and unapplied in the reverse order
-- (wallet/src/sync.rs).
use tuxedo.Base.{
  ℕ, none, some, arith, ◌∙◌, bytes_eq_self, eq_of_bytes_eq, Bytes, List, [], ◌∷◌, ◌≡◌, refl, sym,
  ap, subst, ok,
}
use tuxedo.Codec.{read-encode}
use tuxedo.Types.{Transaction}
use tuxedo.Types.Encoding.{encode_transaction}
use tuxedo.Wallet.{
  Db, Wallet, OpaqueBlock, height, apply_block, unapply_highest_block, apply_transaction,
  apply_transactions, unapply_transactions,
}
use tuxedo.Wallet.Kept.{apply_transactions-IsKept, unapply_transactions-IsKept}
use tuxedo.Wallet.Reorg.{IsSame, IsSound, IsNew, unapply-apply_transaction}

module _ {T V C : Type 0} (w : Wallet T V C) where
  abbrev pub encoded : List (Transaction V C) → List Bytes
  encoded [] = []
  encoded (tx ∷ txs) = encode_transaction w.transactions tx ∷ encoded txs

  -- The transactions are applied one after the other, each of them new to the tables.
  abbrev pub IsApplied : Db T → List (Transaction V C) → Db T → Type 0
  IsApplied db [] last = db ≡ last
  IsApplied db (tx ∷ txs) last =
      IsNew w db tx
      × ((next : Db T) × (apply_transaction w db (encode_transaction w.transactions tx) ≡ ok next)
          × IsApplied next txs last)

  -- The transactions are applied in a row, and can be unapplied in the reverse order where the
  -- tables hold the same as they left them.
  unapply-apply_transactions :
      (db last dbx : Db T) (txs : List (Transaction V C))
      → IsSound w db
      → IsApplied db txs last
      → IsSame w dbx last
      → (apply_transactions w db (encoded txs) ≡ ok last)
        × ((back : Db T) × (unapply_transactions w dbx (encoded txs) ≡ ok back) × IsSame w back db)
  unfolding apply_transactions unapply_transactions
  unapply-apply_transactions db last dbx [] sound e same =
      (ap ok e, (dbx, refl, subst (λ x. IsSame w dbx x) (sym e) same))
  unapply-apply_transactions db last dbx (tx ∷ txs) sound (new, (next, e, h)) same =
      let (sound1, _) =
        unapply-apply_transaction w db next next tx sound new e (λ k. refl, λ k. refl) in
      let (all, (mid, f, same1)) = unapply-apply_transactions next last dbx txs sound1 h same in
      let (_, (back, g, same2)) = unapply-apply_transaction w db next mid tx sound new e same1 in
      (rw (e, all), (back, rw (f, g), same2))

  inserted : (t : T) (k v : Bytes) → w.trees.get (w.trees.insert t k v) k ≡ some v
  inserted t k v = rw (w.trees.get-insert t k v k, bytes_eq_self k)

  -- An entry that is put where there is none and then removed leaves no trace.
  removed :
      (t : T) (k v : Bytes)
      → w.trees.get t k ≡ none
      → (j : Bytes) → w.trees.get (w.trees.remove (w.trees.insert t k v) k) j ≡ w.trees.get t j
  removed t k v absent j = ground (
    arith,
    w.trees.get-remove (w.trees.insert t k v) k j,
    w.trees.get-insert t k v j,
    eq_of_bytes_eq k j,
    absent,
  )

  -- The database when a block's transactions are about to be applied.
  abbrev pub noted : Db T → OpaqueBlock → ℕ → Db T
  noted db b block_hash = record db {
    block_hashes =
        w.trees.insert db.block_hashes (w.numbers.encode b.number) (w.hashes.encode block_hash);
    blocks = w.trees.insert db.blocks (w.hashes.encode block_hash) (w.opaque_blocks.encode b);
  }

  -- The database when the block's transactions are about to be unapplied.
  abbrev forgotten : Db T → ℕ → ℕ → Db T
  forgotten db best hash = record db {
    block_hashes = w.trees.remove db.block_hashes (w.numbers.encode best);
    blocks = w.trees.remove db.blocks (w.hashes.encode hash);
  }

  unapplied :
      (last : Db T) (b : OpaqueBlock) (block_hash : ℕ)
      → height w last ≡ some b.number
      → w.trees.get last.block_hashes (w.numbers.encode b.number)
        ≡ some (w.hashes.encode block_hash)
      → w.trees.get last.blocks (w.hashes.encode block_hash) ≡ some (w.opaque_blocks.encode b)
      → unapply_highest_block w last
        ≡ unapply_transactions w (forgotten last b.number block_hash) b.extrinsics
  unfolding unapply_highest_block
  unapplied last b block_hash top there stored =
      rw (top, there, read-encode w.hashes block_hash, stored, read-encode w.opaque_blocks b)

  -- The four tables hold the same under every key.
  abbrev pub IsRestored : Db T → Db T → Type 0
  IsRestored a b =
      IsSame w a b
      × ((k : Bytes) → w.trees.get a.block_hashes k ≡ w.trees.get b.block_hashes k)
      × ((k : Bytes) → w.trees.get a.blocks k ≡ w.trees.get b.blocks k)

  -- Where the entries of the unspent and the spent table are encodings, the block's number and hash
  -- are not in the tables of blocks, its transactions are applied one after the other (each with
  -- outputs that are not yet unspent and inputs that are not yet spent), and the block is then the
  -- highest, the wallet applies the block and can unapply it again, and the four tables then hold
  -- the same under every key as before.
  pub unapply_highest_block-apply_block :
      (db last : Db T) (number block_hash : ℕ) (txs : List (Transaction V C))
      → IsSound w db
      → IsApplied
          (noted db (record { number = number; extrinsics = encoded txs }) block_hash)
          txs
          last
      → w.trees.get db.block_hashes (w.numbers.encode number) ≡ none
      → w.trees.get db.blocks (w.hashes.encode block_hash) ≡ none
      → height w last ≡ some number
      → (apply_block w db (record { number = number; extrinsics = encoded txs }) block_hash
          ≡ ok last)
        × ((back : Db T) × (unapply_highest_block w last ≡ ok back) × IsRestored back db)
  unfolding apply_block
  unapply_highest_block-apply_block db last number block_hash txs sound h no_hash no_block top =
      let b : OpaqueBlock = record { number = number; extrinsics = encoded txs } in
      let start = noted db b block_hash in
      let gone = forgotten last number block_hash in
      let (all, (back, e, same)) =
        unapply-apply_transactions start last gone txs sound h (λ k. refl, λ k. refl) in
      let (hs, bs) = apply_transactions-IsKept w start last (encoded txs) all in
      let (hs', bs') = unapply_transactions-IsKept w gone back (encoded txs) e in
      let key = w.numbers.encode number in
      let block_key = w.hashes.encode block_hash in
      let there =
        ap (λ t. w.trees.get t key) (sym hs)
        ∙ inserted db.block_hashes key (w.hashes.encode block_hash) in
      let stored =
        ap (λ t. w.trees.get t block_key) (sym bs)
        ∙ inserted db.blocks block_key (w.opaque_blocks.encode b) in
      (
        all,
        (
          back,
          unapplied last b block_hash top there stored ∙ e,
          (
            same,
            λ k.
                ap (λ t. w.trees.get t k) (sym hs' ∙ ap (λ t. w.trees.remove t key) (sym hs))
                ∙ removed db.block_hashes key (w.hashes.encode block_hash) no_hash k,
            λ k.
                ap (λ t. w.trees.get t k) (sym bs' ∙ ap (λ t. w.trees.remove t block_key) (sym bs))
                ∙ removed db.blocks block_key (w.opaque_blocks.encode b) no_block k,
          ),
        ),
      )
