-- ===== src/Wallet/Sync/Heights.antt =====
-- The table of block hashes while the wallet is synchronized (wallet/src/sync.rs).
use tuxedo.Base.{
  some_injective, ℕ, ◌^◌, ◌<◌, ◌≤◌, ◌==◌, true, false, suc, none, some, ◌≡◌, sym, ap, ◌∙◌, ok,
  ok_or, arith, >>=-eq-ok, ok_or-eq-ok, Bytes, Option-cases, bytes_eq, eq_of_bytes_eq,
  bytes_eq_self, Bool-cases, inl, inr, ◌⊎◌, ◌≢◌, ==_iff, if◌then◌else◌,
}
use tuxedo.Codec.{read, read-encode, encode_injective}
use tuxedo.Wallet.{Db, Wallet, OpaqueBlock, height, apply_block, unapply_highest_block}
use tuxedo.Wallet.Queries.{get_block_hash}
use tuxedo.Wallet.Kept.{apply_transactions-IsKept, unapply_transactions-IsKept}

pub ℕ-cases : (a b : ℕ) → (a ≡ b) ⊎ (a ≢ b)
ℕ-cases a b = elim (Bool-cases (a == b)) [
  | inl e ↦ inl (omega (arith, (==_iff a b).0 e))
  | inr e ↦ inr (λ q. cc (e, (==_iff a b).1 q))
]

module _ {T V C : Type 0} (w : Wallet T V C) where
  -- The table holds hashes of the blocks 0 to n - 1 and no others.
  pub record HasBlocks (db : Db T) (n : ℕ) : Type 0 where
    pub counted : w.trees.len db.block_hashes ≡ n
    pub filled : (k : ℕ) → k < n → (x : ℕ) × (get_block_hash w db k ≡ ok (some x))
    pub empty : (k : ℕ) → n ≤ k → w.trees.get db.block_hashes (w.numbers.encode k) ≡ none

  pub height_lem : (db : Db T) (n : ℕ) → HasBlocks db (suc n) → n < 2 ^ 32 → height w db ≡ some n
  unfolding height
  height_lem db n h lt = ground (arith, h.counted)

  numbers_apart : (j k : ℕ) → bytes_eq (w.numbers.encode j) (w.numbers.encode k) ≡ true → j ≡ k
  numbers_apart j k e = encode_injective w.numbers j k (eq_of_bytes_eq _ _ e)

  get_block_hash_same :
      (db db1 : Db T) (k : ℕ)
      → w.trees.get db1.block_hashes (w.numbers.encode k)
        ≡ w.trees.get db.block_hashes (w.numbers.encode k)
      → get_block_hash w db1 k ≡ get_block_hash w db k
  unfolding get_block_hash
  get_block_hash_same db db1 k e = rw (e, get_block_hash)

  get_block_hash_stored :
      (db : Db T) (k x : ℕ)
      → w.trees.get db.block_hashes (w.numbers.encode k) ≡ some (w.hashes.encode x)
      → get_block_hash w db k ≡ ok (some x)
  unfolding get_block_hash
  get_block_hash_stored db k x e = rw (e, read-encode w.hashes x, get_block_hash)

  get_block_hash_absent :
      (db : Db T) (k : ℕ)
      → w.trees.get db.block_hashes (w.numbers.encode k) ≡ none
      → get_block_hash w db k ≡ ok none
  unfolding get_block_hash
  get_block_hash_absent db k e = rw (e, get_block_hash)

  pub stored_of_found :
      (db : Db T) (k x : ℕ)
      → get_block_hash w db k ≡ ok (some x)
      → (v : Bytes) × (w.trees.get db.block_hashes (w.numbers.encode k) ≡ some v)
  stored_of_found db k x e =
      elim (Option-cases (w.trees.get db.block_hashes (w.numbers.encode k))) [
        | inl gone ↦ cc (e, get_block_hash_absent db k gone)
        | inr found ↦ found
      ]

  -- Numbers that differ have keys that differ.
  apart : (j k : ℕ) → j ≢ k → bytes_eq (w.numbers.encode j) (w.numbers.encode k) ≡ false
  apart j k n = elim (Bool-cases (bytes_eq (w.numbers.encode j) (w.numbers.encode k))) [
    | inl e ↦ absurd (n (numbers_apart j k e))
    | inr e ↦ e
  ]

  -- Where the next hash is put into the table, nothing else changes.
  pub insert-HasBlocks :
      (db db1 : Db T) (hash n : ℕ)
      → HasBlocks db n
      → db1.block_hashes
        ≡ w.trees.insert db.block_hashes (w.numbers.encode n) (w.hashes.encode hash)
      → HasBlocks db1 (suc n)
        × (get_block_hash w db1 n ≡ ok (some hash))
        × ((k : ℕ) → k < n → get_block_hash w db1 k ≡ get_block_hash w db k)
  insert-HasBlocks db db1 hash n h table =
      let key = w.numbers.encode n in
      let value = w.hashes.encode hash in
      let got : (j : ℕ)
          → w.trees.get db1.block_hashes (w.numbers.encode j) ≡ (
              if bytes_eq key (w.numbers.encode j)
              then some value
              else w.trees.get db.block_hashes (w.numbers.encode j)) =
        λ j.
          ap (λ t. w.trees.get t (w.numbers.encode j)) table
          ∙ w.trees.get-insert db.block_hashes key value (w.numbers.encode j) in
      let here = get_block_hash_stored db1 n hash (got n ∙ rw (bytes_eq_self key)) in
      let below = λ (k : ℕ) (lt : k < n).
        get_block_hash_same db db1 k (got k ∙ rw (apart n k (λ q. absurd (omega arith)))) in
      (
        record {
          counted =
              ap w.trees.len table
              ∙ w.trees.len-insert db.block_hashes key value (h.empty n (omega arith))
              ∙ ap suc h.counted;
          filled = λ k lt. elim (ℕ-cases k n) [
            | inl q ↦ (hash, ap (get_block_hash w db1) q ∙ here)
            | inr q ↦ let (x, p) = h.filled k (omega (arith, q)) in (x, below k (omega arith) ∙ p)
          ];
          empty =
              λ k le. got k ∙ rw (apart n k (λ q. absurd (omega arith))) (h.empty k (omega arith));
        },
        here,
        below,
      )

  pub apply_block-HasBlocks :
      (db db1 : Db T) (b : OpaqueBlock) (hash n : ℕ)
      → b.number ≡ n
      → HasBlocks db n
      → apply_block w db b hash ≡ ok db1
      → HasBlocks db1 (suc n)
        × (get_block_hash w db1 n ≡ ok (some hash))
        × ((k : ℕ) → k < n → get_block_hash w db1 k ≡ get_block_hash w db k)
  unfolding apply_block
  apply_block-HasBlocks db db1 b hash n same h e =
      let (kept, _) = apply_transactions-IsKept w _ db1 b.extrinsics e in
      insert-HasBlocks db db1 hash n h (
        sym kept
        ∙ ap (λ m. w.trees.insert db.block_hashes (w.numbers.encode m) (w.hashes.encode hash)) same)

  unapply_highest_block-inversion :
      (db db1 : Db T) (best : ℕ)
      → height w db ≡ some best
      → unapply_highest_block w db ≡ ok db1
      → db1.block_hashes ≡ w.trees.remove db.block_hashes (w.numbers.encode best)
  unfolding unapply_highest_block
  unapply_highest_block-inversion db db1 best top e =
      let (found, e1, h1) = >>=-eq-ok (ok_or (height w db) _) _ e in
      let same : found ≡ best = some_injective (sym (ok_or-eq-ok _ _ e1) ∙ top) in
      let (hash_ivec, e2, h2) =
        >>=-eq-ok (ok_or (w.trees.get db.block_hashes (w.numbers.encode found)) _) _ h1 in
      let (hash, e3, h3) = >>=-eq-ok (ok_or (read w.hashes hash_ivec) _) _ h2 in
      let (block_ivec, e4, h4) =
        >>=-eq-ok (ok_or (w.trees.get db.blocks (w.hashes.encode hash)) _) _ h3 in
      let (block, e5, h5) = >>=-eq-ok (ok_or (read w.opaque_blocks block_ivec) _) _ h4 in
      let (kept, _) = unapply_transactions-IsKept w _ db1 block.extrinsics h5 in
      sym kept ∙ ap (λ m. w.trees.remove db.block_hashes (w.numbers.encode m)) same

  -- Where the highest block is unapplied, its hash is taken from the table and nothing else changes.
  pub unapply_highest_block-HasBlocks :
      (db db1 : Db T) (n : ℕ)
      → n < 2 ^ 32
      → HasBlocks db (suc n)
      → unapply_highest_block w db ≡ ok db1
      → HasBlocks db1 n × ((k : ℕ) → k < n → get_block_hash w db1 k ≡ get_block_hash w db k)
  unapply_highest_block-HasBlocks db db1 n lt h e =
      let key = w.numbers.encode n in
      let table = unapply_highest_block-inversion db db1 n (height_lem db n h lt) e in
      let got : (j : ℕ)
          → w.trees.get db1.block_hashes (w.numbers.encode j) ≡ (
              if bytes_eq key (w.numbers.encode j)
              then none
              else w.trees.get db.block_hashes (w.numbers.encode j)) =
        λ j.
          ap (λ t. w.trees.get t (w.numbers.encode j)) table
          ∙ w.trees.get-remove db.block_hashes key (w.numbers.encode j) in
      let below = λ (k : ℕ) (less : k < n).
        get_block_hash_same db db1 k (got k ∙ rw (apart n k (λ q. absurd (omega arith)))) in
      (
        record {
          counted =
              let (x, p) = h.filled n (omega arith) in
              let (v, q) = stored_of_found db n x p in
              let fewer = w.trees.len-remove db.block_hashes key v q in
              ap w.trees.len table ∙ omega (arith, fewer, h.counted);
          filled = λ k less. let (x, p) = h.filled k (omega arith) in (x, below k less ∙ p);
          empty = λ k le. elim (ℕ-cases k n) [
            | inl q ↦ got k ∙ rw (q, bytes_eq_self key)
            | inr q ↦ got k ∙ rw (apart n k (λ r. q (sym r))) (h.empty k (omega (arith, q)))
          ];
        },
        below,
      )
