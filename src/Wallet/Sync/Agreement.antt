-- ===== src/Wallet/Sync/Agreement.antt =====
-- What a synchronization of the wallet comes to (wallet/src/sync.rs).
use tuxedo.Base.{
  ℕ, zero, suc, ◌+◌, ◌-◌, ◌%◌, ◌^◌, ◌<◌, ◌≤◌, true, Option, none, some, Option-cases, ◌≡◌, refl,
  sym, subst, ◌∙◌, Outcome, ok, err, panic, expect, ◌>>=◌, ltb, Outcome-cases, arith, ==_iff,
  Bool-cases, inl, inr,
}
use tuxedo.Wallet.{Db, Wallet, OpaqueBlock, apply_block, unapply_highest_block}
use tuxedo.Wallet.Queries.{get_block_hash}
use tuxedo.Wallet.Sync.{
  Node, SyncError, is_hash, expect_block_hash, roll_back, catch_up, synchronize,
}
use tuxedo.Wallet.Sync.Panics.{apply_block-Runs, unapply_highest_block-Runs}
use tuxedo.Wallet.Sync.Heights.{
  ℕ-cases, HasBlocks, height_lem, apply_block-HasBlocks, unapply_highest_block-HasBlocks,
}

-- The node's chain has this many blocks. It answers with the block whose hash it gave, and the
-- numbers in their headers are their heights.
pub record Serves (node : Node) (total : ℕ) : Type 0 where
  pub known : (k : ℕ) → k < total → (x : ℕ) × (node.block_hash k ≡ some x)
  pub unknown : (k : ℕ) → total ≤ k → node.block_hash k ≡ none
  pub served :
      (k x : ℕ)
      → node.block_hash k ≡ some x
      → (b : OpaqueBlock) × (node.block x ≡ some b) × (b.number ≡ k)

module _ {T V C : Type 0} (w : Wallet T V C) (node : Node) where
  -- The wallet and the node have the same block at this height.
  abbrev pub Agrees : Db T → ℕ → Type 0
  Agrees db k = (x : ℕ) × (node.block_hash k ≡ some x) × (get_block_hash w db k ≡ ok (some x))

  -- A loop is over: with a result that satisfies `P` or with a failure of one of its steps, and
  -- without a panic.
  abbrev pub Ends : {A : Type 0} → (A → Type 0) → Outcome SyncError A → Type 0
  Ends P (ok a) = P a
  Ends P (err (SyncError.failed e)) = Unit
  Ends P (err SyncError.different_genesis) = ⊥
  Ends P (err SyncError.still_running) = ⊥
  Ends P panic = ⊥

  -- The wallet is back at a block of the node's, and has kept what is below.
  abbrev RolledBack : Db T → ℕ → Db T × ℕ → Type 0
  RolledBack db best (back, common) =
      HasBlocks w back (suc common)
      × (common ≤ best)
      × Agrees back common
      × ((k : ℕ) → k ≤ common → get_block_hash w back k ≡ get_block_hash w db k)

  -- The wallet has the node's blocks.
  abbrev pub InStep : ℕ → Db T → Type 0
  InStep total db = HasBlocks w db total × ((k : ℕ) → k < total → Agrees db k)

  is_hash_iff : (x : ℕ) (o : Option ℕ) → is_hash x o ≡ true → o ≡ some x
  is_hash_iff x none h = cc
  is_hash_iff x (some y) h = ground (arith, ==_iff x y)

  same_hash : (x y : ℕ) (o : Option ℕ) → o ≡ some y → x ≡ y → is_hash x o ≡ true
  same_hash x y none h e = cc
  same_hash x y (some z) h e = ground (arith, ==_iff x z)

  lower_lem : (b : ℕ) → suc b < 2 ^ 32 → (suc b + (2 ^ 32 - 1)) % 2 ^ 32 ≡ b
  lower_lem b h = omega arith

  expect_block_hash_lem :
      (db : Db T) (k : ℕ) (o : Option ℕ)
      → get_block_hash w db k ≡ ok o
      → expect_block_hash w db k ≡ expect o
  unfolding expect_block_hash
  expect_block_hash_lem db k o e = rw e

  Ends-bind :
      {A B : Type 0} (P : A → Type 0) (Q : B → Type 0) (o : Outcome SyncError A)
      (k : A → Outcome SyncError B)
      → Ends P o
      → ((a : A) → P a → Ends Q (k a))
      → Ends Q (o >>= k)
  Ends-bind P Q (ok a) k h f = f a h
  Ends-bind P Q (err (SyncError.failed e)) k h f = tt
  Ends-bind P Q (err SyncError.different_genesis) k h f = h
  Ends-bind P Q (err SyncError.still_running) k h f = h
  Ends-bind P Q panic k h f = h

  -- What a roll back keeps from one height down, it keeps from the height above.
  widen :
      (db back : Db T) (b : ℕ) (o : Outcome SyncError (Db T × ℕ))
      → ((k : ℕ) → k ≤ b → get_block_hash w back k ≡ get_block_hash w db k)
      → Ends (RolledBack back b) o
      → Ends (RolledBack db (suc b)) o
  widen db back b (ok (last, common)) kept (h, le, agrees, same) =
      (h, omega arith, agrees, λ k lt. same k lt ∙ kept k (omega arith))
  widen db back b (err (SyncError.failed e)) kept h = tt
  widen db back b (err SyncError.different_genesis) kept h = h
  widen db back b (err SyncError.still_running) kept h = h
  widen db back b panic kept h = h

  end :
      (next total : ℕ)
      → Serves node total
      → next ≤ total
      → node.block_hash next ≡ none
      → next ≡ total
  end next total serves le gone = elim (ℕ-cases next total) [
    | inl e ↦ e
    | inr n ↦ let (x, there) = serves.known next (omega (arith, n)) in cc (there, gone)
  ]

  more_left :
      (next total x : ℕ)
      → Serves node total
      → next ≤ total
      → node.block_hash next ≡ some x
      → next < total
  more_left next total x serves le there = elim (ℕ-cases next total) [
    | inl e ↦ cc (there, serves.unknown next (omega arith))
    | inr n ↦ omega (arith, n)
  ]

  more_at : (k total x : ℕ) → Serves node total → node.block_hash k ≡ some x → k < total
  more_at k total x serves there = elim (Bool-cases (ltb k total)) [
    | inl lt ↦ ground arith
    | inr ge ↦ cc (there, serves.unknown k (ground arith))
  ]

  roll_back-Ends :
      (rounds : ℕ) (db : Db T) (best wallet_hash : ℕ)
      → best < rounds
      → best < 2 ^ 32
      → HasBlocks w db (suc best)
      → get_block_hash w db best ≡ ok (some wallet_hash)
      → Agrees db 0
      → Ends (RolledBack db best) (roll_back w node rounds db best wallet_hash)
  unfolding roll_back
  roll_back-Ends zero db best x r lt h e genesis = absurd (omega arith)
  roll_back-Ends (suc rounds) db zero x r lt h e (y, there, stored) =
      let agreed : is_hash x (node.block_hash 0) ≡ true = same_hash x y _ there (cc (e, stored)) in
      rw (agreed, roll_back) (h, omega arith, (x, is_hash_iff x _ agreed, e), λ k le. refl)
  roll_back-Ends (suc rounds) db (suc b) x r lt h e (z, origin, stored) =
      elim (Bool-cases (is_hash x (node.block_hash (suc b)))) [
        | inl same ↦
            rw (same, roll_back) (h, omega arith, (x, is_hash_iff x _ same, e), λ k le. refl)
        | inr other ↦ elim (Outcome-cases (unapply_highest_block w db)) [
          | inl (back, q) ↦
              let (h1, kept) = unapply_highest_block-HasBlocks w db back (suc b) lt h q in
              let (y, p) = h1.filled b (omega arith) in
              let there = expect_block_hash_lem back b (some y) p in
              let later =
                roll_back-Ends rounds back b y (omega arith) (omega arith) h1 p
                  (z, origin, kept 0 (omega arith) ∙ stored) in
              rw (other, q, lower_lem b lt, there, roll_back)
                (widen db back b (roll_back w node rounds back b y) (λ k le. kept k (omega arith))
                  later)
          | inr (inl (f, q)) ↦ rw (other, q, roll_back) tt
          | inr (inr q) ↦ absurd (unapply_highest_block-Runs w db q)
        ]
      ]

  catch_up-Ends :
      (rounds : ℕ) (db : Db T) (next total : ℕ)
      → total < 2 ^ 32
      → Serves node total
      → next ≤ total
      → total < next + rounds
      → InStep next db
      → Ends (InStep total) (catch_up w node rounds db next)
  unfolding catch_up
  catch_up-Ends zero db next total lt serves le r step = absurd (omega arith)
  catch_up-Ends (suc rounds) db next total lt serves le r (h, agrees) =
      elim (Option-cases (node.block_hash next)) [
        | inl gone ↦
            rw (gone, catch_up)
              (subst (λ n. InStep n db) (end next total serves le gone) (h, agrees))
        | inr (x, there) ↦
            let (b, got, numbered) = serves.served next x there in
            elim (Outcome-cases (apply_block w db b x)) [
              | inl (db1, q) ↦
                  let (h1, new, kept) = apply_block-HasBlocks w db db1 b x next numbered h q in
                  let more : next < total = more_left next total x serves le there in
                  let succ : (next + 1) % 2 ^ 32 ≡ suc next = omega arith in
                  let later =
                    catch_up-Ends rounds db1 (suc next) total lt serves (omega arith) (omega arith)
                      (
                        h1,
                        λ k less. elim (ℕ-cases k next) [
                          | inl e ↦ subst (Agrees db1) (sym e) (x, there, new)
                          | inr n ↦
                              let (y, p, g) = agrees k (omega (arith, n)) in
                              (y, p, kept k (omega (arith, n)) ∙ g)
                        ],
                      ) in
                  rw (there, got, q, succ, catch_up) later
              | inr (inl (f, q)) ↦ rw (there, got, q, catch_up) tt
              | inr (inr q) ↦ absurd (apply_block-Runs w db b x q)
            ]
      ]

  -- Against a node that answers with a block for every hash of its chain, whose blocks are numbered
  -- by their heights, with a wallet whose tables hold its blocks, that has the node's genesis block
  -- and parts from the node's chain at one height only, the synchronization ends within as many
  -- rounds as the node has blocks, and more than the wallet's best height: it does not run on and
  -- it does not panic. If it returns, the wallet's highest block is the node's, with the same hash
  -- at every height; otherwise it stops with an error of applying or unapplying a block.
  pub synchronize-Ends :
      (rounds : ℕ) (db : Db T) (best total : ℕ)
      → best < 2 ^ 32
      → total < 2 ^ 32
      → best < rounds
      → total ≤ rounds
      → HasBlocks w db (suc best)
      → Serves node total
      → Agrees db 0
      → ((j k : ℕ) → j ≤ k → Agrees db k → Agrees db j)
      → Ends (InStep total) (synchronize w node rounds db)
  unfolding synchronize
  synchronize-Ends rounds db best total lt lt' r r' h serves genesis past =
      let (x, e) = h.filled best (omega arith) in
      let there = expect_block_hash_lem db best (some x) e in
      let back = roll_back-Ends rounds db best x r lt h e genesis in
      rw (height_lem w db best h lt, there, synchronize)
        (Ends-bind (RolledBack db best) (InStep total) (roll_back w node rounds db best x)
          (λ common. catch_up w node rounds common.0 ((common.1 + 1) % 2 ^ 32)) back
          (λ (last, common) (h1, le, (y, p, g), same).
            let more : suc common ≤ total = more_at common total y serves p in
            let succ : (common + 1) % 2 ^ 32 ≡ suc common = omega arith in
            rw succ (
              catch_up-Ends rounds last (suc common) total lt' serves more (omega arith) (
                h1,
                λ k less.
                    let (z, q, old) =
                      past k common (omega arith) (y, p, sym (same common (omega arith)) ∙ g) in
                    (z, q, same k (omega arith) ∙ old),
              ))))
