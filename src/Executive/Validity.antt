-- ===== src/Executive/Validity.antt =====
-- When a transaction is applied (tuxedo-core/src/executive.rs): the checks of
-- `validate_tuxedo_transaction` and `apply_tuxedo_transaction` against a declarative account.

use tuxedo.Base.{
  ℕ, ◌<◌, Bytes, List, [], ◌∷◌, ◌++◌, ◌≡◌, refl, sym, ◌∙◌, ◌↔◌, true, false, arith, length, All,
  Distinct, Outcome, ok, is_empty, is_empty_iff, if◌then◌else◌, ok_injective, >>=-eq-ok,
  ensure-eq-ok, map_err-eq-ok, map_err, Bool-cases, inl, inr, none, subst, ◌^◌, ◌-◌,
}
use tuxedo.DynamicTyping.{DynamicallyTypedData}
use tuxedo.Types.{Transaction, UtxoError}
use tuxedo.Executive.Runtime.{Runtime, encode_tx, tx_hash_of}
use tuxedo.Executive.Validation.{
  Gathered, ValidTransaction, strip, new_ref, payloads, peek, has_duplicates, gather_inputs,
  gather_peeks, check_new_outputs, provided_tags, valid, check_constraints,
  validate_tuxedo_transaction,
}
use tuxedo.Executive.Application.{update_storage, apply_tuxedo_transaction}
use tuxedo.Executive.Facts.{
  InputOk, Present, payloads_at, redeemed_refs, evicted_refs, all_gathered, has_duplicates_iff,
  gather_inputs-ok, gather_inputs-inversion, gather_peeks-data, gather_peeks_iff,
  check_new_outputs_iff,
}

append_eq_nil {ℓ} : {A : Type ℓ} (xs ys : List A) → xs ++ ys ≡ [] → (xs ≡ []) × (ys ≡ [])
append_eq_nil [] ys h = (refl, h)
append_eq_nil (x ∷ xs) ys h = cc

-- A validation that requires nothing missed nothing.
nothing_missing :
    {E : Type 0} (xs ys : List Bytes) {v : ValidTransaction} (provides : List Bytes)
    (accepted : Outcome E ValidTransaction)
    → (if is_empty (xs ++ ys)
        then accepted
        else ok (record {
          requires = xs ++ ys;
          provides = provides;
          priority = 0;
          longevity = 2 ^ 64 - 1;
          propagate = true;
        }))
      ≡ ok v
    → v.requires ≡ []
    → is_empty (xs ++ ys) ≡ true
nothing_missing xs ys provides accepted h r = elim (Bool-cases (is_empty (xs ++ ys))) [
  | inl e ↦ e
  | inr n ↦ ground arith
]

module _ {S V R C E : Type 0} (rt : Runtime S V R C E) where
  -- No input stands twice, every input is there and opens or is evicted, every peek is there, no
  -- output is there yet, and the constraint checker accepts the data.
  pub record IsExecutable (s : S) (tx : Transaction V C) : Type 0 where
    pub inputs_distinct : Distinct tx.inputs
    pub inputs_ok : All (InputOk rt s (encode_tx rt (strip tx))) tx.inputs
    pub peeks_present : All (Present rt s) tx.peeks
    pub outputs_new :
        (i : ℕ) → i < length tx.outputs → peek rt s (new_ref (tx_hash_of rt tx) i) ≡ none
    pub constraints :
        (priority : ℕ) × (rt.checker.check s tx.checker
            (payloads_at rt s (redeemed_refs rt tx.inputs))
            (payloads_at rt s (evicted_refs rt tx.inputs))
            (payloads_at rt s tx.peeks)
            (payloads tx.outputs)
          ≡ ok priority)

  -- `validate_tuxedo_transaction` finds nothing missing in an executable transaction.
  pub validate-IsExecutable :
      (s : S) (tx : Transaction V C)
      → IsExecutable s tx
      → validate_tuxedo_transaction rt s tx
        ≡ ok (valid rt [] (provided_tags rt (tx_hash_of rt tx) (length tx.outputs) 0))
  unfolding validate_tuxedo_transaction check_constraints
  validate-IsExecutable s tx x =
      let (priority, e) = x.constraints in
      rw (
        (has_duplicates_iff rt tx.inputs).1 x.inputs_distinct,
        gather_inputs-ok rt s (encode_tx rt (strip tx)) tx.inputs x.inputs_ok,
        (check_new_outputs_iff rt s (tx_hash_of rt tx) (length tx.outputs) 0).1
            (λ j l u. x.outputs_new j (omega arith)),
        (gather_peeks_iff rt s tx.peeks).1 x.peeks_present,
        gather_peeks-data rt s tx.peeks,
        e,
      )

  accepted_gathered :
      (s : S) (tx : Transaction V C) (stripped : Bytes) (g : Gathered) (priority : ℕ)
      → gather_inputs rt s stripped tx.inputs ≡ ok g
      → All (InputOk rt s stripped) tx.inputs
      → check_constraints rt s tx g (gather_peeks rt s tx.peeks).0 ≡ ok priority
      → rt.checker.check s tx.checker
          (payloads_at rt s (redeemed_refs rt tx.inputs))
          (payloads_at rt s (evicted_refs rt tx.inputs))
          (payloads_at rt s tx.peeks)
          (payloads tx.outputs)
        ≡ ok priority
  unfolding check_constraints
  accepted_gathered s tx stripped g priority e inputs_ok accepted =
      let same : g ≡ all_gathered rt s tx.inputs =
        ok_injective (sym e ∙ gather_inputs-ok rt s stripped tx.inputs inputs_ok) in
      let moved =
        subst
          (λ (p : Gathered × List DynamicallyTypedData).
            map_err UtxoError.constraint_checker_error (
              rt.checker.check s tx.checker p.0.input_data p.0.evicted_input_data p.1
                (payloads tx.outputs))
            ≡ ok priority)
          (λ i. (same i, gather_peeks-data rt s tx.peeks i)) accepted in
      map_err-eq-ok UtxoError.constraint_checker_error _ moved

  -- And conversely: what passes with nothing missing is executable.
  pub IsExecutable-validate :
      (s : S) (tx : Transaction V C) (v : ValidTransaction)
      → validate_tuxedo_transaction rt s tx ≡ ok v
      → v.requires ≡ []
      → IsExecutable s tx
  unfolding validate_tuxedo_transaction
  IsExecutable-validate s tx v h r =
      let (e1, h1) = ensure-eq-ok (if has_duplicates rt tx.inputs then false else true) _ _ h in
      let (g, e2, h2) = >>=-eq-ok (gather_inputs rt s (encode_tx rt (strip tx)) tx.inputs) _ h1 in
      let (u, e3, h3) =
        >>=-eq-ok (check_new_outputs rt s (tx_hash_of rt tx) (length tx.outputs) 0) _ h2 in
      let none_missing = nothing_missing g.missing_inputs (gather_peeks rt s tx.peeks).1 _ _ h3 r in
      let (p, e4, h4) =
        >>=-eq-ok (check_constraints rt s tx g (gather_peeks rt s tx.peeks).0) _
          (rw none_missing at h3) in
      let (no_inputs, no_peeks) = append_eq_nil _ _ (is_empty_iff _ none_missing) in
      let inputs_ok =
        gather_inputs-inversion rt s (encode_tx rt (strip tx)) tx.inputs g e2 no_inputs in
      record {
        inputs_distinct = (has_duplicates_iff rt tx.inputs).0 (ground arith);
        inputs_ok = inputs_ok;
        peeks_present = (gather_peeks_iff rt s tx.peeks).0 no_peeks;
        outputs_new = λ i l.
            (check_new_outputs_iff rt s (tx_hash_of rt tx) (length tx.outputs) 0).0 e3 i
              (omega arith) (omega arith);
        constraints = (p, accepted_gathered s tx (encode_tx rt (strip tx)) g p e2 inputs_ok e4);
      }

  -- Applying a transaction succeeds exactly if it is executable (inputs distinct, present and
  -- opened by their verifiers or evicted; peeks present; no new output there yet; the constraint
  -- checker accepts the data), and the storage is then the updated one.
  pub apply_tuxedo_transaction_iff :
      (s t : S) (tx : Transaction V C)
      → (apply_tuxedo_transaction rt s tx ≡ ok t)
        ↔ (IsExecutable s tx × (t ≡ update_storage rt s tx))
  unfolding apply_tuxedo_transaction
  apply_tuxedo_transaction_iff s t tx = (
    λ h.
        let (v, e1, h1) = >>=-eq-ok (validate_tuxedo_transaction rt s tx) _ h in
        let (e2, h2) = ensure-eq-ok (is_empty v.requires) _ _ h1 in
        (IsExecutable-validate s tx v e1 (is_empty_iff _ e2), cc (h2)),
    λ p. rw (validate-IsExecutable s tx p.0, p.1),
  )
