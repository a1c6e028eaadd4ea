-- ===== src/Wallet/Spending/Accepted.antt =====
-- What the wallet builds is accepted by the money checker (wallet/src/money.rs).
use tuxedo.Base.{
  ℕ, ◌+◌, ◌-◌, ◌%◌, ◌^◌, ◌<◌, ◌≤◌, List, [], ◌∷◌, ◌++◌, Bytes, some, ok, ◌≡◌, refl, ap, ◌∙◌, subst,
  arith, inl, inr, sum, All,
}
use tuxedo.Codec.{Codec}
use tuxedo.DynamicTyping.{DynamicallyTypedData, extract, into_dynamic}
use tuxedo.DynamicTyping.Laws.{extract-into_dynamic}
use tuxedo.Types.{redemption, Input, Output, Transaction}
use tuxedo.Types.Encoding.{encode_transaction}
use tuxedo.Executive.Validation.{payloads}
use tuxedo.Money.{Coin, coin_data, check_money, spend}
use tuxedo.Money.Spending.{IsSpend, check_money_spend_iff}
use tuxedo.Money.Spending.Totals.{HoldCoins}
use tuxedo.TemplateRuntime.{OuterVerifier, OuterVerifierRedeemer}
use tuxedo.Wallet.{Db, Wallet}
use tuxedo.Wallet.Queries.{get_arbitrary_unspent_set}
use tuxedo.Wallet.Selection.{
  Owned, amounts, refs_of, Holds, IsEnough, get_arbitrary_unspent_set_lem,
}
use tuxedo.Wallet.Spending.Repeated.{below-ltb}
use tuxedo.Wallet.Spending.{
  SpendArgs, Services, template_inputs, new_outputs, template, total_of, named_total,
  all_input_refs, check_in_storage, redeemer_for, sign_inputs, spend_coins,
}

abbrev values : List Owned → List ℕ
values [] = []
values (x ∷ xs) = x.1 ∷ values xs

sum-values : (xs : List Owned) → sum (values xs) ≡ amounts xs
sum-values [] = refl
sum-values (x ∷ xs) = ap (λ (n : ℕ). x.1 + n) (sum-values xs)

amounts-append : (xs ys : List Owned) → amounts (xs ++ ys) ≡ amounts xs + amounts ys
amounts-append [] ys = omega arith
amounts-append (x ∷ xs) ys = omega (arith, amounts-append xs ys)

pub All-front : (P : Owned → Type 0) (xs ys : List Owned) → All P (xs ++ ys) → All P xs
All-front P [] ys h = tt
All-front P (x ∷ xs) ys h = (h.0, All-front P xs ys h.1)

pub total_of-sum :
    (t : ℕ) (costs : List ℕ) → t + sum costs < 2 ^ 128 → total_of t costs ≡ t + sum costs
unfolding total_of
total_of-sum t [] h = omega arith
total_of-sum t (a ∷ costs) h =
    let small : (t + a) % 2 ^ 128 ≡ t + a = omega arith in
    rw small (total_of-sum (t + a) costs (omega arith) ∙ omega arith)

nothing_held :
    (codec : Codec Coin) (ds : List DynamicallyTypedData) (vs : List ℕ)
    → ds ≡ []
    → HoldCoins codec 0 ds vs
    → 0 < sum vs
    → ⊥
nothing_held codec [] [] q h lt = omega arith
nothing_held codec [] (v ∷ vs) q h lt = h
nothing_held codec (d ∷ ds) vs q h lt = cc q

module _ {T C : Type 0} (w : Wallet T OuterVerifier C) (services : Services C)
    (coins : Codec Coin) where
  -- The node has this owned output costs a coin of the same amount, under a key of the keystore.
  abbrev pub IsSpendable : Owned → Type 0
  IsSpendable x =
      (utxo : Output OuterVerifier) × (key : ℕ) × (services.fetch_storage x.0 ≡ some utxo)
      × (extract (coin_data coins 0) utxo.payload ≡ ok (record { value = x.1 }))
      × (utxo.verifier ≡ OuterVerifier.sr25519_signature (record { owner_pubkey = key }))
      × ((n : ℕ) (message : Bytes)
          → (signature : Bytes) × (services.sign n key message ≡ some signature))

  -- The payloads of the outputs that the inputs name, costs the node has them.
  abbrev pub InputData : List Input → List DynamicallyTypedData → Type 0
  InputData [] [] = Unit
  InputData [] (d ∷ ds) = ⊥
  InputData (i ∷ is) [] = ⊥
  InputData (i ∷ is) (d ∷ ds) =
      ((utxo : Output OuterVerifier) × (services.fetch_storage i.output_ref ≡ some utxo)
        × (utxo.payload ≡ d))
      × InputData is ds

  pub chosen_of :
      (db : Db T) (target : ℕ) (xs : List Owned)
      → Holds w (w.trees.iter db.unspent) xs
      → amounts xs < 2 ^ 128
      → target ≤ amounts xs
      → IsEnough w target 0 xs (get_arbitrary_unspent_set w db target)
  chosen_of db target xs holds fits reach =
      elim (get_arbitrary_unspent_set_lem w db target xs holds fits) [
        | inl (le, enough) ↦ enough
        | inr (less, none_found) ↦ absurd (omega arith)
      ]

  module _ (same : w.coin_data ≡ coin_data coins 0) where
    check_in_storage-spendable :
        (xs : List Owned) → All IsSpendable xs → check_in_storage w services (refs_of xs) ≡ ok tt
    unfolding check_in_storage
    check_in_storage-spendable [] h = refl
    check_in_storage-spendable (x ∷ xs) ((utxo, key, there, coin, _, _), h) =
        let read = ap (λ u. extract u utxo.payload) same ∙ coin in
        rw (there, read) (check_in_storage-spendable xs h)

    sign_inputs-spendable :
        (n : ℕ) (message : Bytes) (xs : List Owned)
        → All IsSpendable xs
        → (signed : List Input) × (ds : List DynamicallyTypedData) × (sign_inputs w services n
              message
              (template_inputs (refs_of xs))
            ≡ ok signed)
          × InputData signed ds
          × HoldCoins coins 0 ds (values xs)
    unfolding sign_inputs template_inputs redeemer_for
    sign_inputs-spendable n message [] h = ([], [], refl, tt, tt)
    sign_inputs-spendable n message (x ∷ xs) ((utxo, key, there, coin, locked, signs), h) =
        let (signature, signed) = signs n message in
        let (more, ds, e, named, hold) = sign_inputs-spendable (n + 1) message xs h in
        (
          record {
            output_ref = x.0;
            redeemer =
                redemption (services.redeemers.encode (OuterVerifierRedeemer.signature signature));
          }
              ∷ more,
          utxo.payload ∷ ds,
          rw (there, locked, signed, e),
          ((utxo, there, refl), named),
          (coin, hold),
        )

    new_outputs-HoldCoins :
        (recipient : ℕ) (costs : List ℕ)
        → HoldCoins coins 0 (payloads (new_outputs w services recipient costs)) costs
    unfolding new_outputs payloads
    new_outputs-HoldCoins recipient [] = tt
    new_outputs-HoldCoins recipient (a ∷ costs) = (
      ap (λ u. extract (coin_data coins 0) (into_dynamic u (record { value = a }))) same
          ∙ extract-into_dynamic (coin_data coins 0) (record { value = a }),
      new_outputs-HoldCoins recipient costs,
    )

    -- Where the unspent table lists owned coins that add up to less than 2 ^ 128, the node has them
    -- and the keystore signs for their owners, a spend that names no input, of positive amounts
    -- that together are positive and not more than that, is built, and the money checker accepts
    -- the data of the outputs that its inputs name with those that it creates.
    pub spend_coins-accepted :
        (db : Db T) (recipient : ℕ) (costs : List ℕ) (xs : List Owned)
        → Holds w (w.trees.iter db.unspent) xs
        → amounts xs < 2 ^ 128
        → All IsSpendable xs
        → All (λ (a : ℕ). 0 < a) costs
        → 0 < sum costs
        → sum costs ≤ amounts xs
        → (tx : Transaction OuterVerifier C) × (ds : List DynamicallyTypedData) × (priority : ℕ)
          × (spend_coins w services db
                (record { input = []; recipient = recipient; output_amount = costs })
              ≡ ok tx)
          × InputData tx.inputs ds
          × (check_money coins 0 spend ds [] [] (payloads tx.outputs) ≡ ok priority)
    unfolding spend_coins named_total all_input_refs
    spend_coins-accepted db recipient costs xs holds fits spendable positive worth reach =
        let args : SpendArgs = record {
          input = [];
          recipient = recipient;
          output_amount = costs;
        } in
        let total : total_of 0 costs ≡ sum costs =
          omega (arith, total_of-sum 0 costs (omega arith)) in
        let whole_target : sum costs - 0 ≡ sum costs = omega arith in
        let (chosen, rest, split, result, enough) = chosen_of db (sum costs) xs holds fits reach in
        let ok_chosen =
          All-front IsSpendable chosen rest (subst (All IsSpendable) split spendable) in
        let message =
          encode_transaction w.transactions (template w services (refs_of chosen) args) in
        let (signed, ds, e, named, hold) = sign_inputs-spendable 0 message chosen ok_chosen in
        let whole : amounts xs ≡ amounts chosen + amounts rest =
          ap amounts split ∙ amounts-append chosen rest in
        let value = sum-values chosen in
        let accepted : IsSpend coins 0 ds [] (payloads (new_outputs w services recipient costs)) _ =
          record {
            nothing_evicted = refl;
            something_consumed = λ q. nothing_held coins ds (values chosen) q hold (omega arith);
            consumed = values chosen;
            created = costs;
            inputs_hold = hold;
            outputs_hold = new_outputs-HoldCoins recipient costs;
            no_overflow = omega arith;
            created_positive = positive;
            not_more = omega arith;
            burned = refl;
          } in
        (
          record (template w services (refs_of chosen) args) { inputs = signed },
          ds,
          _,
          rw (
            total,
            below-ltb 0 (sum costs) worth,
            whole_target,
            result,
            check_in_storage-spendable chosen ok_chosen,
            e,
          ),
          named,
          (check_money_spend_iff coins 0 ds [] []
                (payloads (new_outputs w services recipient costs)) _).1
              accepted,
        )
