-- ===== src/Money/Doubling.antt =====
-- Money out of nothing (wardrobe/money/src/lib.rs under tuxedo-core/src/executive.rs): a coin that
-- is spent twice in one transaction counts twice.
use tuxedo.Base.{
  ℕ, ◌+◌, ◌<◌, ◌^◌, ◌≡◌, refl, true, List, [], ◌∷◌, some, none, arith, ok, length, ◌∙◌,
}
use tuxedo.Codec.{Codec}
use tuxedo.DynamicTyping.{DynamicallyTypedData, into_dynamic}
use tuxedo.DynamicTyping.Laws.{extract-into_dynamic}
use tuxedo.Types.{OutputRef, Output, Transaction}
use tuxedo.Money.{Coin, coin_data, MoneyConstraintChecker, MoneyError, check_money}
use tuxedo.Money.Spending.{check_money_spend_iff}
use tuxedo.Executive.Runtime.{Runtime, encode_tx, tx_hash_of}
use tuxedo.Executive.Validation.{strip, new_ref, payloads, peek, block_height}
use tuxedo.Executive.Application.{update_storage, apply_tuxedo_transaction}
use tuxedo.Executive.DoubleSpend.{doubled, doubled-applied}

only_zero : (i : ℕ) → i < 1 → i ≡ 0
only_zero i less = omega arith

module _ (codec : Codec Coin) (id : ℕ) where
  abbrev pub coin : ℕ → DynamicallyTypedData
  coin v = into_dynamic (coin_data codec id) (record { value = v })

  -- Two coins of one value may be spent for one of twice the value.
  double_coin :
      (v : ℕ)
      → 0 < v
      → v + v < 2 ^ 128
      → check_money codec id MoneyConstraintChecker.spend
          (coin v ∷ coin v ∷ [])
          []
          []
          (coin (v + v) ∷ [])
        ≡ ok 0
  double_coin v pos fits =
      let holds = λ (w : ℕ). extract-into_dynamic (coin_data codec id) (record { value = w }) in
      (check_money_spend_iff codec id (coin v ∷ coin v ∷ []) [] [] (coin (v + v) ∷ []) 0).1
        (record {
          nothing_evicted = refl;
          something_consumed = λ e. cc (e);
          consumed = v ∷ v ∷ [];
          created = (v + v) ∷ [];
          inputs_hold = (holds v, (holds v, tt));
          outputs_hold = (holds (v + v), tt);
          no_overflow = omega arith;
          created_positive = (omega arith, tt);
          not_more = omega arith;
          burned = omega arith;
        })

module _ {S V R : Type 0} (rt : Runtime S V R MoneyConstraintChecker MoneyError)
    (codec : Codec Coin) (id : ℕ) where
  -- The spend that names `r` twice and creates one coin of the value `v`.
  abbrev pub doubled_spend : OutputRef → R → V → ℕ → Transaction V MoneyConstraintChecker
  doubled_spend r redeemer owner v =
      doubled rt r redeemer (record { payload = coin codec id v; verifier = owner } ∷ [])
        MoneyConstraintChecker.spend

  -- In a runtime whose checker is the money piece's, the owner of an unspent coin of a positive
  -- value v, v + v below 2 ^ 128, turns it into a coin of v + v by a transaction that names the
  -- coin twice, if a block height is stored, the verifier accepts its redeemer and the output
  -- reference is not in use.
  pub money_doubled :
      ((s : S) (c : MoneyConstraintChecker) (i e p o : List DynamicallyTypedData)
        → rt.checker.check s c i e p o ≡ check_money codec id c i e p o)
      → (s : S) (r : OutputRef) (redeemer : R) (owner : V) (v height : ℕ) → 0 < v
      → v + v < 2 ^ 128
      → peek rt s r ≡ some (record { payload = coin codec id v; verifier = owner })
      → block_height rt s ≡ ok height
      → rt.verifier.verify owner
          (encode_tx rt (strip (doubled_spend r redeemer owner (v + v))))
          height
          redeemer
        ≡ some true
      → peek rt s (new_ref (tx_hash_of rt (doubled_spend r redeemer owner (v + v))) 0) ≡ none
      → apply_tuxedo_transaction rt s (doubled_spend r redeemer owner (v + v))
        ≡ ok (update_storage rt s (doubled_spend r redeemer owner (v + v)))
  unfolding payloads
  money_doubled is_money s r redeemer owner v height pos fits there h accepted free =
      let outputs : List (Output V) =
        record { payload = coin codec id (v + v); verifier = owner } ∷ [] in
      let fresh : (i : ℕ)
          → i < length outputs
          → peek rt s (new_ref (tx_hash_of rt (doubled_spend r redeemer owner (v + v))) i) ≡ none =
        λ i less. rw (only_zero i less) free in
      doubled-applied rt s r redeemer outputs MoneyConstraintChecker.spend
        (record { payload = coin codec id v; verifier = owner }) height 0 there h accepted fresh
        (is_money s MoneyConstraintChecker.spend _ [] [] _ ∙ double_coin codec id v pos fits)
