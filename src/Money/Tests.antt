-- ===== src/Money/Tests.antt =====
-- Concrete runs of the money piece (wardrobe/money/src/lib.rs).
use tuxedo.Base.{
  ℕ, ◌+◌, ◌≡◌, refl, ok, none, some, true, arith, List, [], ◌∷◌, bytes_eq, set_of, length, ◌≤◌, ◌^◌,
}
use tuxedo.DynamicTyping.{DynamicallyTypedData, into_dynamic, extract}
use tuxedo.DynamicTyping.Laws.{extract-into_dynamic}
use tuxedo.Types.{OutputRef, Output, Transaction}
use tuxedo.Types.Encoding.{encode_transaction}
use tuxedo.UtxoSet.{peek_utxo, consume_utxo, store_utxo}
use tuxedo.ConstraintChecker.{of_simple}
use tuxedo.Verifier.{TestVerifier, verify_test}
use tuxedo.Executive.Runtime.{encode_tx, tx_hash_of}
use tuxedo.Executive.Validation.{
  peek, strip, strip_inputs, new_ref, payloads, block_height, has_duplicates, redeem, check_input,
  gather_inputs, gather_peeks, check_new_outputs, add_found, provided_tags, check_constraints,
  validate_tuxedo_transaction,
}
use tuxedo.Executive.Application.{
  consume_inputs, store_outputs, update_storage, apply_tuxedo_transaction,
}
use tuxedo.Executive.History.{Reach}
use tuxedo.Money.{
  MoneyConstraintChecker, coin_data, check_money, check_spend, check_mint, check_minted, add_inputs,
  add_outputs, extract_value, priority_of, mint,
}
use tuxedo.Money.Chain.{IsWorth, Reach-IsWorth}
use tuxedo.Money.Spending.{check_money_spend_iff}
use tuxedo.Money.Doubling.{coin, doubled_spend, money_doubled}
use tuxedo.Samples.{Storage, empty}
use tuxedo.Samples.Chain.{chain, funded, coins, owner, coin_ref, coin_output, minting}

holds : (v : ℕ) → extract (coin_data coins 0) (coin coins 0 v) ≡ ok (record { value = v })
holds v = extract-into_dynamic (coin_data coins 0) (record { value = v })

-- Coins of 7 and 5 for one of 10: two are burned.
spend_example :
    check_money coins 0 MoneyConstraintChecker.spend
      (coin coins 0 7 ∷ coin coins 0 5 ∷ [])
      []
      []
      (coin coins 0 10 ∷ [])
    ≡ ok 2
spend_example =
    (check_money_spend_iff coins 0 (coin coins 0 7 ∷ coin coins 0 5 ∷ []) [] []
        (coin coins 0 10 ∷ []) 2).1
      (record {
        nothing_evicted = refl;
        something_consumed = λ e. cc (e);
        consumed = 7 ∷ 5 ∷ [];
        created = 10 ∷ [];
        inputs_hold = (holds 7, (holds 5, tt));
        outputs_hold = (holds 10, tt);
        no_overflow = omega arith;
        created_positive = (omega arith, tt);
        not_more = omega arith;
        burned = refl;
      })

is_money :
    (s : Storage) (c : MoneyConstraintChecker) (i e p o : List DynamicallyTypedData)
    → chain.checker.check s c i e p o ≡ check_money coins 0 c i e p o
unfolding of_simple
is_money s c i e p o = refl

abbrev doubling : Transaction TestVerifier MoneyConstraintChecker
doubling = doubled_spend chain coins 0 coin_ref tt owner (9 + 9)

there : peek chain funded coin_ref ≡ some (record { payload = coin coins 0 9; verifier = owner })
unfolding peek_utxo into_dynamic bytes_eq
there = refl

at_height : block_height chain funded ≡ ok 5
unfolding block_height bytes_eq
at_height = refl

opened : chain.verifier.verify owner (encode_tx chain (strip doubling)) 5 tt ≡ some true
unfolding verify_test
opened = refl

fresh : peek chain funded (new_ref (tx_hash_of chain doubling) 0) ≡ none
unfolding new_ref tx_hash_of encode_transaction peek_utxo into_dynamic bytes_eq
fresh = refl

money_doubled_example :
    apply_tuxedo_transaction chain funded doubling ≡ ok (update_storage chain funded doubling)
money_doubled_example =
    money_doubled chain coins 0 is_money funded coin_ref tt owner 9 5 (omega arith) (omega arith)
      there at_height opened fresh

-- A chain that starts with nothing, and one coin of 4 that is minted on it.
abbrev minted : Storage
minted = update_storage chain empty minting

minting_applied : apply_tuxedo_transaction chain empty minting ≡ ok minted
unfolding apply_tuxedo_transaction update_storage consume_inputs store_outputs
    validate_tuxedo_transaction check_constraints has_duplicates gather_inputs check_input redeem
    block_height gather_peeks check_new_outputs add_found strip strip_inputs new_ref payloads
    provided_tags tx_hash_of encode_transaction peek_utxo consume_utxo store_utxo into_dynamic
    extract bytes_eq set_of of_simple check_money check_spend check_mint check_minted add_inputs
    add_outputs extract_value priority_of mint verify_test
minting_applied = refl

minted_there : peek chain minted (new_ref (tx_hash_of chain minting) 0) ≡ some (coin_output 4)
unfolding apply_tuxedo_transaction update_storage consume_inputs store_outputs
    validate_tuxedo_transaction check_constraints has_duplicates gather_inputs check_input redeem
    block_height gather_peeks check_new_outputs add_found strip strip_inputs new_ref payloads
    provided_tags tx_hash_of encode_transaction peek_utxo consume_utxo store_utxo into_dynamic
    extract bytes_eq set_of of_simple check_money check_spend check_mint check_minted add_inputs
    add_outputs extract_value priority_of mint verify_test
minted_there = refl

minting_size : length minting.outputs ≤ 2 ^ 32
unfolding mint
minting_size = omega arith

nothing_there :
    (r : OutputRef) (o : Output TestVerifier) → peek chain empty r ≡ some o → IsWorth coins 0 o
unfolding peek_utxo
nothing_there r o e = cc e

coins_stay_example : IsWorth coins 0 (coin_output 4)
coins_stay_example =
    Reach-IsWorth coins 0 chain is_money
      (Reach.next minting Reach.here minting_size minting_applied) nothing_there
      (new_ref (tx_hash_of chain minting) 0) (coin_output 4) minted_there
