-- ===== src/Wallet/Tests.antt =====
-- Concrete runs of the wallet (wallet/src/sync.rs) on the sample chain.
use tuxedo.Base.{
  ℕ, Bytes, true, false, List, [], ◌∷◌, none, some, ◌≡◌, refl, ap, ok, bytes_eq, eq_of_bytes_eq,
  Bool-cases, inl, inr, Distinct, arith,
}
use tuxedo.Codec.{Codec}
use tuxedo.DynamicTyping.{into_dynamic, extract}
use tuxedo.Types.{OutputRef}
use tuxedo.Types.Encoding.{encode_transaction, decode_transaction}
use tuxedo.Verifier.{TestVerifier}
use tuxedo.Money.{MoneyConstraintChecker, coin_data}
use tuxedo.Timestamp.{timestamp_data}
use tuxedo.Executive.Validation.{new_ref}
use tuxedo.Wallet.{
  Db, Wallet, OpaqueBlock, apply_block, unapply_highest_block, height, apply_transaction,
  add_unspent_output, move_entry, move_all, spend_inputs, apply_coin, apply_output, apply_outputs,
  hash_of,
}
use tuxedo.Wallet.Moves.{IsCanonical, insert-IsCanonical}
use tuxedo.Wallet.Reorg.{creates, IsNew}
use tuxedo.Wallet.Blocks.{encoded, noted, IsRestored, unapply_highest_block-apply_block}
use tuxedo.Samples.{hash}
use tuxedo.Samples.Pieces.{timestamps}
use tuxedo.Wallet.Balances.{get_balances, owners, balance_of, total_for, get_balances-totals}
use tuxedo.Samples.Codecs.{numbers, bytes, pairs, lists, through}
use tuxedo.Samples.Chain.{chain, coins, refs, coin_ref, spending}
use tuxedo.Samples.Trees.{Tree, trees}

abbrev pub opaque_blocks : Codec OpaqueBlock
opaque_blocks =
    through (pairs numbers (lists bytes)) (λ (b : OpaqueBlock). (b.number, b.extrinsics))
      (λ (p : ℕ × List Bytes). record { number = p.0; extrinsics = p.1 })
      (λ (b : OpaqueBlock). refl)

-- A wallet that owns everything, as the key 42.
abbrev pub wallet : Wallet Tree TestVerifier MoneyConstraintChecker
wallet = record {
  trees = trees;
  refs = refs;
  owned = pairs numbers numbers;
  numbers = numbers;
  times = numbers;
  hashes = numbers;
  opaque_blocks = opaque_blocks;
  transactions = chain.transactions;
  bytes = bytes;
  blake2_256 = hash;
  coin_data = coin_data coins 0;
  timestamp_data = timestamp_data timestamps;
  signature_owner = λ v. some 42;
  filter = λ v. true;
}

abbrev key : Bytes
key = refs.encode coin_ref

-- The coin of 9 is unspent.
abbrev before : Db Tree
before = record {
  block_hashes = [];
  blocks = [];
  unspent = trees.insert [] key (42 ∷ 9 ∷ []);
  spent = [];
  timestamp = [];
}

abbrev new_key : ℕ → Bytes
new_key index =
    refs.encode (new_ref (hash_of wallet (encode_transaction chain.transactions spending)) index)

-- The coin of 9 is spent, for those of 6 and 2.
abbrev after : Db Tree
after = record before {
  unspent =
      trees.remove
        (trees.insert (trees.insert before.unspent (new_key 0) (42 ∷ 6 ∷ [])) (new_key 1)
          (42 ∷ 2 ∷ []))
        key;
  spent = trees.insert [] key (42 ∷ 9 ∷ []);
}

-- The block of the one transaction is number 0, and its hash is 5.
abbrev block : OpaqueBlock
block = record { number = 0; extrinsics = encoded wallet (spending ∷ []) }

abbrev synced : Db Tree
synced = record after {
  block_hashes = (noted wallet before block 5).block_hashes;
  blocks = (noted wallet before block 5).blocks;
}

applied :
    apply_transaction wallet
      (noted wallet before block 5)
      (encode_transaction chain.transactions spending)
    ≡ ok synced
unfolding apply_transaction apply_outputs apply_output apply_coin add_unspent_output spend_inputs
    move_all move_entry encode_transaction decode_transaction into_dynamic extract bytes_eq new_ref
applied = refl

nothing : IsCanonical wallet []
nothing k d e = cc

canonical : IsCanonical wallet before.unspent
canonical = insert-IsCanonical wallet [] key (42, 9) nothing

not_made : creates wallet spending key ≡ false
unfolding encode_transaction into_dynamic bytes_eq new_ref
not_made = refl

fresh : (k : Bytes) → creates wallet spending k ≡ true → trees.get before.unspent k ≡ none
fresh k made = elim (Bool-cases (bytes_eq key k)) [
  | inl same ↦ cc (made, not_made, ap (creates wallet spending) (eq_of_bytes_eq key k same))
  | inr other ↦ rw other
]

new : IsNew wallet (noted wallet before block 5) spending
new = (fresh, λ k u. refl)

top : height wallet synced ≡ some 0
unfolding height
top = refl

reorg_example :
    (apply_block wallet before block 5 ≡ ok synced)
    × ((back : Db Tree) × (unapply_highest_block wallet synced ≡ ok back)
        × IsRestored wallet back before)
reorg_example =
    unapply_highest_block-apply_block wallet before synced 0 5 (spending ∷ []) (canonical, nothing)
      (new, (synced, applied, refl)) refl refl top

abbrev new_coin : OutputRef
new_coin = new_ref (hash_of wallet (encode_transaction chain.transactions spending)) 0

abbrev two_coins : Db Tree
two_coins = record before {
  unspent = (key, 42 ∷ 9 ∷ []) ∷ (refs.encode new_coin, 42 ∷ 6 ∷ []) ∷ [];
}

balances_example :
    (bs : List (ℕ × ℕ)) × (get_balances wallet two_coins ≡ ok bs)
    × Distinct (owners bs)
    × ((o : ℕ) → balance_of bs o ≡ total_for o ((42, 9) ∷ (42, 6) ∷ []))
balances_example =
    get_balances-totals wallet two_coins ((42, 9) ∷ (42, 6) ∷ []) (refl, (refl, tt)) (omega arith)
