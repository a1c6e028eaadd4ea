-- ===== src/Wallet/Sync/Tests.antt =====
-- Concrete runs of the wallet's synchronization (wallet/src/sync.rs).
use tuxedo.Base.{
  ℕ, zero, suc, ◌<◌, ◌≤◌, [], Option, none, some, ◌≡◌, refl, sym, some_injective, ok, arith,
  bytes_eq, if◌then◌else◌, ◌==◌,
}
use tuxedo.Wallet.{
  Db, OpaqueBlock, apply_block, apply_transactions, unapply_highest_block, unapply_transactions,
  height,
}
use tuxedo.Wallet.Queries.{get_block_hash}
use tuxedo.Wallet.Sync.{Node, synchronize, roll_back, catch_up, expect_block_hash}
use tuxedo.Wallet.Sync.Heights.{HasBlocks, insert-HasBlocks}
use tuxedo.Wallet.Sync.Agreement.{Serves, Agrees, Ends, InStep, synchronize-Ends}
use tuxedo.Wallet.Tests.{wallet}
use tuxedo.Samples.Trees.{Tree, trees}

abbrev no_blocks : Db Tree
no_blocks = record { block_hashes = []; blocks = []; unspent = []; spent = []; timestamp = [] }

no_blocks-HasBlocks : HasBlocks wallet no_blocks 0
no_blocks-HasBlocks = record {
  counted = refl;
  filled = λ k lt. absurd (omega arith);
  empty = λ k le. refl;
}

abbrev block_at : ℕ → OpaqueBlock
block_at n = record { number = n; extrinsics = [] }

abbrev hash_at : ℕ → Option ℕ
hash_at zero = some 5
hash_at (suc zero) = some 6
hash_at (suc (suc zero)) = some 8
hash_at (suc (suc (suc k))) = none

abbrev block_with : ℕ → Option OpaqueBlock
block_with x =
    if x == 5
    then some (block_at 0)
    else if x == 6
    then some (block_at 1)
    else if x == 8
    then some (block_at 2)
    else none

-- The node has the blocks 5, 6 and 8.
abbrev node : Node
node = record { block_hash = hash_at; block = block_with }

node_known : (k : ℕ) → k < 3 → (x : ℕ) × (hash_at k ≡ some x)
node_known zero lt = (5, refl)
node_known (suc zero) lt = (6, refl)
node_known (suc (suc zero)) lt = (8, refl)
node_known (suc (suc (suc k))) lt = absurd (omega arith)

node_unknown : (k : ℕ) → 3 ≤ k → hash_at k ≡ none
node_unknown zero le = absurd (omega arith)
node_unknown (suc zero) le = absurd (omega arith)
node_unknown (suc (suc zero)) le = absurd (omega arith)
node_unknown (suc (suc (suc k))) le = refl

node_served :
    (k x : ℕ) → hash_at k ≡ some x → (b : OpaqueBlock) × (block_with x ≡ some b) × (b.number ≡ k)
node_served zero x h = (block_at 0, let e : x ≡ 5 = some_injective (sym h) in rw e refl, refl)
node_served (suc zero) x h = (block_at 1, let e : x ≡ 6 = some_injective (sym h) in rw e refl, refl)
node_served (suc (suc zero)) x h =
    (block_at 2, let e : x ≡ 8 = some_injective (sym h) in rw e refl, refl)
node_served (suc (suc (suc k))) x h = cc

node-Serves : Serves node 3
node-Serves = record { known = node_known; unknown = node_unknown; served = node_served }

abbrev with_block : Db Tree → ℕ → ℕ → Db Tree
with_block db n hash = record db {
  block_hashes = trees.insert db.block_hashes (wallet.numbers.encode n) (wallet.hashes.encode hash);
  blocks =
      trees.insert db.blocks (wallet.hashes.encode hash) (wallet.opaque_blocks.encode (block_at n));
}

abbrev genesis_only : Db Tree
genesis_only = with_block no_blocks 0 5

-- The wallet has the blocks 5 and 7: a reorganization is ahead.
abbrev stale : Db Tree
stale = with_block genesis_only 1 7

stale-HasBlocks : HasBlocks wallet stale 2
stale-HasBlocks =
    (insert-HasBlocks wallet genesis_only stale 7 1
      (insert-HasBlocks wallet no_blocks genesis_only 5 0 no_blocks-HasBlocks refl).0 refl).0

genesis_shared : Agrees wallet node stale 0
unfolding get_block_hash bytes_eq
genesis_shared = (5, refl, refl)

past : (j k : ℕ) → j ≤ k → Agrees wallet node stale k → Agrees wallet node stale j
unfolding get_block_hash bytes_eq
past zero zero le a = a
past j (suc zero) le (x, e, f) = cc (e, f)
past j (suc (suc zero)) le (x, e, f) = cc (e, f)
past j (suc (suc (suc k))) le (x, e, f) = cc (e, f)
past (suc j) zero le a = absurd (omega arith)

synchronize_example : Ends wallet node (InStep wallet node 3) (synchronize wallet node 3 stale)
synchronize_example =
    synchronize-Ends wallet node 3 stale 1 3 (omega arith) (omega arith) (omega arith) (omega arith)
      stale-HasBlocks node-Serves genesis_shared past

-- The run itself.
synchronized : synchronize wallet node 3 stale ≡ ok (with_block (with_block genesis_only 1 6) 2 8)
unfolding synchronize roll_back catch_up expect_block_hash get_block_hash unapply_highest_block
    unapply_transactions apply_block apply_transactions height bytes_eq
synchronized = refl
