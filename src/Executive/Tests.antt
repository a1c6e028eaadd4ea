-- ===== src/Executive/Tests.antt =====
-- Concrete runs of the executive (tuxedo-core/src/executive.rs) on the sample chain: a coin is
-- spent, another is minted, and a block of both is authored and imported.
use tuxedo.Base.{
  length, ◌≤◌, ◌^◌, ◌⊎◌, some, ℕ, zero, suc, ◌<◌, ◌≡◌, ◌≢◌, refl, ok, none, some, true, false,
  arith, Bytes, [], ◌∷◌, bytes_eq, set_of,
}
use tuxedo.DynamicTyping.{into_dynamic, extract}
use tuxedo.Types.Encoding.{encode_transaction}
use tuxedo.UtxoSet.{peek_utxo, consume_utxo, store_utxo}
use tuxedo.ConstraintChecker.{of_simple}
use tuxedo.Types.{Transaction}
use tuxedo.Verifier.{TestVerifier, verify_test}
use tuxedo.Money.{
  MoneyConstraintChecker, check_money, check_spend, check_mint, check_minted, add_inputs,
  add_outputs, extract_value, priority_of, mint,
}
use tuxedo.Executive.Runtime.{encode_tx, tx_hash_of, header_key, extrinsic_key}
use tuxedo.Executive.Validation.{
  peek, strip, strip_inputs, new_ref, payloads, block_height, has_duplicates, redeem, check_input,
  gather_inputs, gather_peeks, check_new_outputs, add_found, provided_tags, check_constraints,
  validate_tuxedo_transaction,
}
use tuxedo.Executive.Application.{
  consume_inputs, store_outputs, update_storage, apply_tuxedo_transaction,
}
use tuxedo.Executive.Blocks.{
  open_block, note_extrinsic, stored_extrinsics, apply_extrinsic, close_block, execute_extrinsic,
  execute_extrinsics, execute_block,
}
use tuxedo.Executive.Validity.{IsExecutable, apply_tuxedo_transaction_iff}
use tuxedo.Executive.Ledger.{spends, step_ledger, apply-step_ledger, not_applied_twice}
use tuxedo.Executive.History.{Reach, CreatedBy, not_spent_later, peek-CreatedBy}
use tuxedo.Executive.Frame.{IsLocal}
use tuxedo.Executive.Authoring.{author}
use tuxedo.Executive.Inherents.{InherentsFirst, execute_block-InherentsFirst}
use tuxedo.Executive.Agreement.{execute_block-authored}
use tuxedo.Executive.DoubleSpend.{doubled, doubled-applied}
use tuxedo.Samples.{Storage}
use tuxedo.Samples.Chain.{
  chain, funded, spending, minting, header, sealed, block, owner, coin_ref, coin_output,
}

-- The storages after the spending, and after both.
abbrev spent : Storage
spent = update_storage chain funded spending

abbrev minted : Storage
minted = update_storage chain spent minting

spending_applied : apply_tuxedo_transaction chain funded spending ≡ ok spent
unfolding apply_tuxedo_transaction update_storage consume_inputs store_outputs
    validate_tuxedo_transaction check_constraints has_duplicates gather_inputs check_input redeem
    block_height gather_peeks check_new_outputs add_found strip strip_inputs new_ref payloads
    provided_tags tx_hash_of encode_transaction peek_utxo consume_utxo store_utxo into_dynamic
    extract bytes_eq set_of of_simple check_money check_spend check_mint check_minted add_inputs
    add_outputs extract_value priority_of mint verify_test
spending_applied = refl

minting_applied : apply_tuxedo_transaction chain spent minting ≡ ok minted
unfolding apply_tuxedo_transaction update_storage consume_inputs store_outputs
    validate_tuxedo_transaction check_constraints has_duplicates gather_inputs check_input redeem
    block_height gather_peeks check_new_outputs add_found strip strip_inputs new_ref payloads
    provided_tags tx_hash_of encode_transaction peek_utxo consume_utxo store_utxo into_dynamic
    extract bytes_eq set_of of_simple check_money check_spend check_mint check_minted add_inputs
    add_outputs extract_value priority_of mint verify_test
minting_applied = refl

apply_example : IsExecutable chain funded spending × (spent ≡ update_storage chain funded spending)
apply_example = (apply_tuxedo_transaction_iff chain funded spent spending).0 spending_applied

step_ledger_example :
    peek chain spent ≡ step_ledger (tx_hash_of chain spending) spending (peek chain funded)
step_ledger_example = apply-step_ledger chain funded spent spending (omega arith) spending_applied

applied_twice_example : apply_tuxedo_transaction chain spent spending ≢ ok funded
applied_twice_example =
    not_applied_twice chain funded spent funded spending (omega arith) (omega arith)
      spending_applied

other_hash : coin_ref.tx_hash ≢ tx_hash_of chain spending
unfolding apply_tuxedo_transaction update_storage consume_inputs store_outputs
    validate_tuxedo_transaction check_constraints has_duplicates gather_inputs check_input redeem
    block_height gather_peeks check_new_outputs add_found strip strip_inputs new_ref payloads
    provided_tags tx_hash_of encode_transaction peek_utxo consume_utxo store_utxo into_dynamic
    extract bytes_eq set_of of_simple check_money check_spend check_mint check_minted add_inputs
    add_outputs extract_value priority_of mint verify_test
other_hash e = omega (arith, e)

coin_spent : spends spending.inputs coin_ref ≡ true
unfolding spends
coin_spent = refl

-- The minting comes in between, and a minting of three coins later.
abbrev minting_more : Transaction TestVerifier MoneyConstraintChecker
minting_more = record minting { outputs = coin_output 1 ∷ coin_output 2 ∷ coin_output 3 ∷ [] }

abbrev minted_more : Storage
minted_more = update_storage chain minted minting_more

minting_more_applied : apply_tuxedo_transaction chain minted minting_more ≡ ok minted_more
unfolding apply_tuxedo_transaction update_storage consume_inputs store_outputs
    validate_tuxedo_transaction check_constraints has_duplicates gather_inputs check_input redeem
    block_height gather_peeks check_new_outputs add_found strip strip_inputs new_ref payloads
    provided_tags tx_hash_of encode_transaction peek_utxo consume_utxo store_utxo into_dynamic
    extract bytes_eq set_of of_simple check_money check_spend check_mint check_minted add_inputs
    add_outputs extract_value priority_of mint verify_test
minting_more_applied = refl

minting_size : length minting.outputs ≤ 2 ^ 32
unfolding mint
minting_size = omega arith

minting_hash : coin_ref.tx_hash ≢ tx_hash_of chain minting
unfolding apply_tuxedo_transaction update_storage consume_inputs store_outputs
    validate_tuxedo_transaction check_constraints has_duplicates gather_inputs check_input redeem
    block_height gather_peeks check_new_outputs add_found strip strip_inputs new_ref payloads
    provided_tags tx_hash_of encode_transaction peek_utxo consume_utxo store_utxo into_dynamic
    extract bytes_eq set_of of_simple check_money check_spend check_mint check_minted add_inputs
    add_outputs extract_value priority_of mint verify_test
minting_hash e = omega (arith, e)

spent_later_example : spends minting_more.inputs coin_ref ≡ false
spent_later_example =
    not_spent_later chain funded spent minted minted_more spending minting_more coin_ref
      (omega arith) other_hash spending_applied coin_spent
      (Reach.next minting Reach.here minting_size minting_applied) (minting_hash, tt)
      minting_more_applied

minted_there : peek chain minted (new_ref (tx_hash_of chain minting) 0) ≡ some (coin_output 4)
unfolding apply_tuxedo_transaction update_storage consume_inputs store_outputs
    validate_tuxedo_transaction check_constraints has_duplicates gather_inputs check_input redeem
    block_height gather_peeks check_new_outputs add_found strip strip_inputs new_ref payloads
    provided_tags tx_hash_of encode_transaction peek_utxo consume_utxo store_utxo into_dynamic
    extract bytes_eq set_of of_simple check_money check_spend check_mint check_minted add_inputs
    add_outputs extract_value priority_of mint verify_test
minted_there = refl

created_example :
    CreatedBy chain (minting ∷ spending ∷ []) (new_ref (tx_hash_of chain minting) 0) (coin_output 4)
    ⊎ (peek chain funded (new_ref (tx_hash_of chain minting) 0) ≡ some (coin_output 4))
created_example =
    peek-CreatedBy chain
      (Reach.next minting (Reach.next spending Reach.here (omega arith) spending_applied)
        minting_size minting_applied)
      (new_ref (tx_hash_of chain minting) 0) (coin_output 4) minted_there

-- The storage of an importer after the block, that of the author before closing it, and after.
abbrev imported : Storage
imported =
    chain.storage.clear
      (update_storage chain (update_storage chain (open_block chain funded sealed) spending)
        minting)
      header_key

abbrev first_noted : Storage
first_noted = note_extrinsic chain (open_block chain funded header) spending

abbrev second_noted : Storage
second_noted = note_extrinsic chain (update_storage chain first_noted spending) minting

abbrev filled : Storage
filled = update_storage chain second_noted minting

abbrev closed : Storage
closed = chain.storage.clear (chain.storage.clear filled header_key) extrinsic_key

block_executed : execute_block chain funded block ≡ ok imported
unfolding apply_tuxedo_transaction update_storage consume_inputs store_outputs
    validate_tuxedo_transaction check_constraints has_duplicates gather_inputs check_input redeem
    block_height gather_peeks check_new_outputs add_found strip strip_inputs new_ref payloads
    provided_tags tx_hash_of encode_transaction peek_utxo consume_utxo store_utxo into_dynamic
    extract bytes_eq set_of of_simple check_money check_spend check_mint check_minted add_inputs
    add_outputs extract_value priority_of mint verify_test open_block note_extrinsic
    stored_extrinsics apply_extrinsic close_block execute_extrinsic execute_extrinsics execute_block
    author
block_executed = refl

inherents_first_example : InherentsFirst chain block.extrinsics
inherents_first_example = execute_block-InherentsFirst chain funded imported block block_executed

local : IsLocal chain
unfolding of_simple
local s t same c inputs evicted peeks outputs = refl

in_order : InherentsFirst chain (spending ∷ minting ∷ [])
unfolding of_simple
in_order = ([], spending ∷ minting ∷ [], refl, tt, (refl, (refl, tt)))

block_authored : author chain (open_block chain funded header) (spending ∷ minting ∷ []) ≡ ok filled
unfolding apply_tuxedo_transaction update_storage consume_inputs store_outputs
    validate_tuxedo_transaction check_constraints has_duplicates gather_inputs check_input redeem
    block_height gather_peeks check_new_outputs add_found strip strip_inputs new_ref payloads
    provided_tags tx_hash_of encode_transaction peek_utxo consume_utxo store_utxo into_dynamic
    extract bytes_eq set_of of_simple check_money check_spend check_mint check_minted add_inputs
    add_outputs extract_value priority_of mint verify_test open_block note_extrinsic
    stored_extrinsics apply_extrinsic close_block execute_extrinsic execute_extrinsics execute_block
    author
block_authored = refl

block_closed : close_block chain filled ≡ ok (sealed, closed)
unfolding apply_tuxedo_transaction update_storage consume_inputs store_outputs
    validate_tuxedo_transaction check_constraints has_duplicates gather_inputs check_input redeem
    block_height gather_peeks check_new_outputs add_found strip strip_inputs new_ref payloads
    provided_tags tx_hash_of encode_transaction peek_utxo consume_utxo store_utxo into_dynamic
    extract bytes_eq set_of of_simple check_money check_spend check_mint check_minted add_inputs
    add_outputs extract_value priority_of mint verify_test open_block note_extrinsic
    stored_extrinsics apply_extrinsic close_block execute_extrinsic execute_extrinsics execute_block
    author
block_closed = refl

no_extrinsics_yet : chain.storage.get funded extrinsic_key ≡ none
unfolding bytes_eq
no_extrinsics_yet = refl

agreement_example :
    (t : Storage) × (execute_block chain funded
        (record { header = sealed; extrinsics = spending ∷ minting ∷ [] })
      ≡ ok t)
    × ((k : Bytes) → chain.storage.get t k ≡ chain.storage.get closed k)
agreement_example =
    execute_block-authored chain funded filled closed header sealed (spending ∷ minting ∷ []) local
      in_order no_extrinsics_yet block_authored block_closed

-- The same coin of 9 twice, for one of 18.
abbrev twice : Transaction TestVerifier MoneyConstraintChecker
twice = doubled chain coin_ref tt (coin_output 18 ∷ []) MoneyConstraintChecker.spend

twice_fresh : (i : ℕ) → i < 1 → peek chain funded (new_ref (tx_hash_of chain twice) i) ≡ none
unfolding new_ref tx_hash_of encode_transaction peek_utxo into_dynamic bytes_eq
twice_fresh zero less = refl
twice_fresh (suc i) less = absurd (omega arith)

funded_coin : peek chain funded coin_ref ≡ some (coin_output 9)
unfolding peek_utxo into_dynamic bytes_eq
funded_coin = refl

funded_height : block_height chain funded ≡ ok 5
unfolding block_height bytes_eq
funded_height = refl

twice_opened : chain.verifier.verify owner (encode_tx chain (strip twice)) 5 tt ≡ some true
unfolding verify_test
twice_opened = refl

twice_accepted :
    chain.checker.check funded MoneyConstraintChecker.spend
      ((coin_output 9).payload ∷ (coin_output 9).payload ∷ [])
      []
      []
      (payloads (coin_output 18 ∷ []))
    ≡ ok 0
unfolding of_simple payloads into_dynamic extract bytes_eq check_money check_spend add_inputs
    add_outputs extract_value priority_of
twice_accepted = refl

doubled_example :
    apply_tuxedo_transaction chain funded twice ≡ ok (update_storage chain funded twice)
doubled_example =
    doubled-applied chain funded coin_ref tt (coin_output 18 ∷ []) MoneyConstraintChecker.spend
      (coin_output 9) 5 0 funded_coin funded_height twice_opened twice_fresh twice_accepted
