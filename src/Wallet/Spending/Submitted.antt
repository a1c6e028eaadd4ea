-- ===== src/Wallet/Spending/Submitted.antt =====
-- What the wallet builds is applied by the node (wallet/src/money.rs with
-- tuxedo-core/src/executive.rs and tuxedo-template-runtime/src/lib.rs).
use tuxedo.Base.{
  ℕ, true, ◌-◌, ◌^◌, ◌<◌, ◌≤◌, List, [], ◌∷◌, ◌++◌, Bytes, some, none, ok, ok_injective, >>=-eq-ok,
  ◌≡◌, ◌≢◌, refl, sym, ap, ◌∙◌, subst, arith, sum, All, All-imp, Distinct, length,
}
use tuxedo.Codec.{Codec, read, read-encode}
use tuxedo.Host.{Crypto}
use tuxedo.DynamicTyping.{DynamicallyTypedData}
use tuxedo.Types.{OutputRef, Input, Transaction}
use tuxedo.Types.Encoding.{encode_transaction}
use tuxedo.Executive.Runtime.{Runtime, encode_tx, tx_hash_of}
use tuxedo.Executive.Validation.{peek, block_height, strip_inputs, strip, new_ref, payloads}
use tuxedo.Executive.Application.{update_storage, apply_tuxedo_transaction}
use tuxedo.Executive.Facts.{RedeemerOk, Present, InputOk, payloads_at, redeemed_refs, evicted_refs}
use tuxedo.Executive.Validity.{IsExecutable, apply_tuxedo_transaction_iff}
use tuxedo.Money.{Coin, coin_data, check_money, spend}
use tuxedo.TemplateRuntime.{
  OuterVerifier, OuterVerifierRedeemer, OuterConstraintChecker, outer_verifier,
}
use tuxedo.Wallet.{Db, Wallet}
use tuxedo.Wallet.Selection.{Owned, amounts, refs_of, Holds}
use tuxedo.Wallet.Spending.{
  SpendArgs, Services, template_inputs, template, total_of, named_total, all_input_refs,
  check_in_storage, sign_inputs, spend_coins,
}
use tuxedo.Wallet.Spending.Repeated.{below-ltb}
use tuxedo.Wallet.Spending.Signing.{Signs, Opens, sign_inputs-Opens, spend_coins-Opens}
use tuxedo.Wallet.Spending.Accepted.{
  IsSpendable, InputData, chosen_of, total_of-sum, spend_coins-accepted,
}

abbrev named : List Input → List OutputRef
named [] = []
named (i ∷ is) = i.output_ref ∷ named is

named-strip : (is : List Input) → named (strip_inputs is) ≡ named is
unfolding strip_inputs
named-strip [] = refl
named-strip (i ∷ is) = ap (◌∷◌ i.output_ref) (named-strip is)

named-template : (rs : List OutputRef) → named (template_inputs rs) ≡ rs
unfolding template_inputs
named-template [] = refl
named-template (r ∷ rs) = ap (◌∷◌ r) (named-template rs)

All-ne-named :
    (i : Input) (is : List Input)
    → All (λ (r : OutputRef). i.output_ref ≢ r) (named is)
    → All (λ (j : Input). i ≢ j) is
All-ne-named i [] h = tt
All-ne-named i (j ∷ is) h = (λ e. h.0 (ap (λ (x : Input). x.output_ref) e), All-ne-named i is h.1)

Distinct-named : (is : List Input) → Distinct (named is) → Distinct is
Distinct-named [] h = tt
Distinct-named (i ∷ is) h = (All-ne-named i is h.0, Distinct-named is h.1)

All-ne-front :
    (r : OutputRef) (xs ys : List Owned)
    → All (λ (q : OutputRef). r ≢ q) (refs_of (xs ++ ys))
    → All (λ (q : OutputRef). r ≢ q) (refs_of xs)
All-ne-front r [] ys h = tt
All-ne-front r (x ∷ xs) ys h = (h.0, All-ne-front r xs ys h.1)

Distinct-front : (xs ys : List Owned) → Distinct (refs_of (xs ++ ys)) → Distinct (refs_of xs)
Distinct-front [] ys h = tt
Distinct-front (x ∷ xs) ys h = (All-ne-front x.0 xs ys h.0, Distinct-front xs ys h.1)

module _ {S T C E : Type 0} (w : Wallet T OuterVerifier C) (services : Services C)
    (coins : Codec Coin) (crypto : Crypto) (rt : Runtime S OuterVerifier OuterVerifierRedeemer C E)
    (s : S) where
  -- The node runs the template runtime's verifier and money checker at the storage `s`, which the
  -- wallet asks for outputs, and both sides encode alike.
  pub record IsNode : Type 0 where
    pub verifier : rt.verifier ≡ outer_verifier crypto services.redeemers
    pub transactions : w.transactions ≡ rt.transactions
    pub coin_data : w.coin_data ≡ coin_data coins 0
    pub fetches : (r : OutputRef) → services.fetch_storage r ≡ peek rt s r
    pub checks :
        (inputs outputs : List DynamicallyTypedData) (priority : ℕ)
        → check_money coins 0 spend inputs [] [] outputs ≡ ok priority
        → rt.checker.check s
            (services.into (OuterConstraintChecker.money spend))
            inputs
            []
            []
            outputs
          ≡ ok priority

  module _ (node : IsNode) where
    Opens-InputOk :
        (message : Bytes) (height : ℕ) (i : Input)
        → block_height rt s ≡ ok height
        → Opens w services crypto message height i
        → InputOk rt s message i
    Opens-InputOk message height i at (utxo, r, there, redeemer, opens) =
        let decoded : read rt.verifier.redeemer_codec (services.redeemers.encode r) ≡ some r =
          ap (λ x. read x.redeemer_codec (services.redeemers.encode r)) node.verifier
          ∙ read-encode services.redeemers r in
        let asked : rt.verifier.verify utxo.verifier message height r ≡ some true =
          ap (λ x. x.verify utxo.verifier message height r) node.verifier ∙ opens in
        (
          utxo,
          sym (node.fetches i.output_ref) ∙ there,
          subst (RedeemerOk rt s message utxo) (sym redeemer) (r, height, decoded, at, asked),
        )

    gathered :
        (message : Bytes) (height : ℕ) (is : List Input) (ds : List DynamicallyTypedData)
        → All (Opens w services crypto message height) is
        → InputData w services coins is ds
        → (payloads_at rt s (redeemed_refs rt is) ≡ ds) × (evicted_refs rt is ≡ [])
    unfolding payloads_at redeemed_refs evicted_refs
    gathered message height [] [] h d = (refl, refl)
    gathered message height [] (d ∷ ds) h a = absurd a
    gathered message height (i ∷ is) [] h a = absurd a
    gathered message height (i ∷ is) (d ∷ ds) ((_, _, _, redeemer, _), h)
          ((utxo, there, same), rest) =
        let (inputs, evicted) = gathered message height is ds h rest in
        let present : peek rt s i.output_ref ≡ some utxo =
          sym (node.fetches i.output_ref) ∙ there in
        (rw (redeemer, present, inputs, same) refl, rw redeemer evicted)

    -- What the wallet builds has different inputs, no peeks and the checker of a spend.
    built-Distinct :
        (db : Db T) (recipient : ℕ) (costs : List ℕ) (xs : List Owned)
        (tx : Transaction OuterVerifier C) (height : ℕ)
        → Signs w services crypto
        → Holds w (w.trees.iter db.unspent) xs
        → amounts xs < 2 ^ 128
        → Distinct (refs_of xs)
        → 0 < sum costs
        → sum costs ≤ amounts xs
        → spend_coins w services db
            (record { input = []; recipient = recipient; output_amount = costs })
          ≡ ok tx
        → Distinct tx.inputs
          × (tx.peeks ≡ [])
          × (tx.checker ≡ services.into (OuterConstraintChecker.money spend))
    unfolding spend_coins named_total all_input_refs
    built-Distinct db recipient costs xs tx height signs holds fits distinct worth reach built =
        let args : SpendArgs = record {
          input = [];
          recipient = recipient;
          output_amount = costs;
        } in
        let total : total_of 0 costs ≡ sum costs =
          omega (arith, total_of-sum 0 costs (omega arith)) in
        let whole_target : sum costs - 0 ≡ sum costs = omega arith in
        let (chosen, rest, split, result, enough) =
          chosen_of w services coins db (sum costs) xs holds fits reach in
        let h = rw (total, below-ltb 0 (sum costs) worth, whole_target, result) at built in
        let (u, e1, h1) = >>=-eq-ok (check_in_storage w services (refs_of chosen)) _ h in
        let unsigned = template w services (refs_of chosen) args in
        let message = encode_transaction w.transactions unsigned in
        let (signed, e2, h2) = >>=-eq-ok (sign_inputs w services 0 message unsigned.inputs) _ h1 in
        let (opens, same) =
          sign_inputs-Opens w services crypto 0 message unsigned.inputs signed height signs e2 in
        let names : named signed ≡ refs_of chosen =
          sym (named-strip signed)
          ∙ ap named same
          ∙ named-strip unsigned.inputs
          ∙ named-template (refs_of chosen) in
        let front =
          Distinct-front chosen rest (subst (λ ys. Distinct (refs_of ys)) split distinct) in
        let made = ok_injective h2 in
        (
          subst Distinct (ap (λ (x : Transaction OuterVerifier C). x.inputs) made)
              (Distinct-named signed (subst Distinct (sym names) front)),
          sym (ap (λ (x : Transaction OuterVerifier C). x.peeks) made),
          sym (ap (λ (x : Transaction OuterVerifier C). x.checker) made),
        )

    -- Where a node runs the template runtime's verifier and the money checker, a block height is
    -- stored, the unspent table lists different owned coins that add up to less than 2 ^ 128, the
    -- node has them, and the keystore signs for their owners with signatures of the message, the
    -- node applies every transaction that the wallet builds for positive amounts, together positive
    -- and not more than that, without named inputs, if the new outputs' references are not in use.
    pub spend_coins-applied :
        (db : Db T) (recipient : ℕ) (costs : List ℕ) (xs : List Owned)
        (tx : Transaction OuterVerifier C) (height : ℕ)
        → block_height rt s ≡ ok height
        → Signs w services crypto
        → Holds w (w.trees.iter db.unspent) xs
        → amounts xs < 2 ^ 128
        → Distinct (refs_of xs)
        → All (IsSpendable w services coins) xs
        → All (λ (a : ℕ). 0 < a) costs
        → 0 < sum costs
        → sum costs ≤ amounts xs
        → spend_coins w services db
            (record { input = []; recipient = recipient; output_amount = costs })
          ≡ ok tx
        → ((i : ℕ) → i < length tx.outputs → peek rt s (new_ref (tx_hash_of rt tx) i) ≡ none)
        → apply_tuxedo_transaction rt s tx ≡ ok (update_storage rt s tx)
    unfolding payloads_at
    spend_coins-applied db recipient costs xs tx height at signs holds fits distinct spendable
          positive worth reach built new =
        let args : SpendArgs = record {
          input = [];
          recipient = recipient;
          output_amount = costs;
        } in
        let (apart, no_peeks, checker) =
          built-Distinct db recipient costs xs tx height signs holds fits distinct worth reach
            built in
        let (tx', ds, priority, e, data', accepted) =
          spend_coins-accepted w services coins node.coin_data db recipient costs xs holds fits
            spendable positive worth reach in
        let same : tx' ≡ tx = ok_injective (sym e ∙ built) in
        let message : encode_transaction w.transactions (strip tx) ≡ encode_tx rt (strip tx) =
          ap (λ c. encode_transaction c (strip tx)) node.transactions in
        let opens =
          subst (λ m. All (Opens w services crypto m height) tx.inputs) message
            (spend_coins-Opens w services crypto db args tx height signs built) in
        let (inputs, evicted) = gathered (encode_tx rt (strip tx)) height tx.inputs ds opens (
          subst (λ (x : Transaction OuterVerifier C). InputData w services coins x.inputs ds) same
            data') in
        let checked = node.checks ds (payloads tx.outputs) priority (
          subst
            (λ (x : Transaction OuterVerifier C).
              check_money coins 0 spend ds [] [] (payloads x.outputs) ≡ ok priority)
            same accepted) in
        let executable : IsExecutable rt s tx = record {
          inputs_distinct = apart;
          inputs_ok =
              All-imp (λ (i : Input) o. Opens-InputOk (encode_tx rt (strip tx)) height i at o)
                tx.inputs opens;
          peeks_present = subst (All (Present rt s)) (sym no_peeks) tt;
          outputs_new = new;
          constraints = (priority, rw (inputs, evicted, no_peeks, checker) checked);
        } in
        (apply_tuxedo_transaction_iff rt s (update_storage rt s tx) tx).1 (executable, refl)
