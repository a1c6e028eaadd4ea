-- ===== src/Executive/Writes.antt =====
-- The execution of blocks (tuxedo-core/src/executive.rs) where the constraint checker writes to the
-- storage when it accepts, as the parachain piece and the runtime upgrade piece do. The writes come
-- after the last check of a transaction and before its inputs are consumed.
use mathlib.Core.Path.{fun_ext}
use tuxedo.Base.{
  Bool, false, ◌&&◌, ◌||◌, not, is_empty, List, [], ◌∷◌, map, ◌==◌, Outcome, ok, err, panic, ◌>>=◌,
  ◌>>◌, ensure, assert, if◌then◌else◌, >>=-eq-ok, ensure-eq-ok, is_empty_iff, ok_injective, ◌≡◌,
  refl, sym, ap, ◌∙◌, arith, Outcome-cases, inl, inr,
}
use tuxedo.DynamicTyping.{DynamicallyTypedData}
use tuxedo.Types.{Transaction, UtxoError}
use tuxedo.Executive.Runtime.{Runtime, Block, header_key, encode_tx}
use tuxedo.Executive.Validation.{
  strip, payloads, gather_inputs, gather_peeks, validate_tuxedo_transaction,
}
use tuxedo.Executive.Facts.{
  payloads_at, redeemed_refs, evicted_refs, gather_inputs-ok, gather_peeks-data,
}
use tuxedo.Executive.Application.{update_storage, apply_tuxedo_transaction}
use tuxedo.Executive.Blocks.{open_block, execute_extrinsic, execute_extrinsics, execute_block}
use tuxedo.Executive.Validity.{IsExecutable, IsExecutable-validate}

-- A runtime and the storage that its checker leaves when it accepts this data.
pub record WritingRuntime (S V R C E : Type 0) : Type 0 where
  pub core : Runtime S V R C E
  pub check_writes :
      S → C → (input_data evicted_input_data peek_data output_data : List DynamicallyTypedData) → S

module _ {S V R C E : Type 0} (rt : WritingRuntime S V R C E) where
  -- What the call of the checker in `validate_tuxedo_transaction` leaves, at the data it is given.
  unfoldable pub checker_writes : S → Transaction V C → S
  checker_writes s tx = elim (gather_inputs rt.core s (encode_tx rt.core (strip tx)) tx.inputs) [
    | ok gathered ↦
        rt.check_writes s tx.checker gathered.input_data gathered.evicted_input_data
          (gather_peeks rt.core s tx.peeks).0 (payloads tx.outputs)
    | err e ↦ s
    | panic ↦ s
  ]

  -- `apply_tuxedo_transaction`
  unfoldable pub apply_with_writes : S → Transaction V C → Outcome (UtxoError E) S
  apply_with_writes s tx = do
    valid_transaction ← validate_tuxedo_transaction rt.core s tx
    ensure (is_empty valid_transaction.requires) UtxoError.missing_input
    ok (update_storage rt.core (checker_writes s tx) tx)

  -- One round of the loop of `execute_block`.
  unfoldable pub execute_extrinsic_with_writes :
      S → Bool → Transaction V C → Outcome (Unit {0}) (S × Bool)
  execute_extrinsic_with_writes s finished tx =
      let inherent = rt.core.checker.is_inherent tx.checker in
      if inherent && finished then panic else elim (apply_with_writes s tx) [
        | ok t ↦ ok (t, finished || not inherent)
        | err e ↦ panic
        | panic ↦ panic
      ]

  unfoldable pub execute_extrinsics_with_writes :
      S → Bool → List (Transaction V C) → Outcome (Unit {0}) S
  execute_extrinsics_with_writes s finished [] = ok s
  execute_extrinsics_with_writes s finished (tx ∷ txs) =
      execute_extrinsic_with_writes s finished tx >>= λ (r : S × Bool).
      execute_extrinsics_with_writes r.0 r.1 txs

  -- `execute_block`
  unfoldable pub execute_block_with_writes : S → Block V C → Outcome (Unit {0}) S
  execute_block_with_writes s block = do
    let s1 = open_block rt.core s block.header
    s2 ← execute_extrinsics_with_writes s1 false block.extrinsics
    let s3 = rt.core.storage.clear s2 header_key
    assert (block.header.state_root == rt.core.storage.root s3)
    assert (
        block.header.extrinsics_root
        == rt.core.ordered_trie_root (map (encode_tx rt.core) block.extrinsics))
    ok s3

  -- The data of a transaction whose inputs and peeks are there.
  abbrev pub writes_of : S → Transaction V C → S
  writes_of s tx =
      rt.check_writes s tx.checker (payloads_at rt.core s (redeemed_refs rt.core tx.inputs))
        (payloads_at rt.core s (evicted_refs rt.core tx.inputs)) (payloads_at rt.core s tx.peeks)
        (payloads tx.outputs)

  checker_writes_lem :
      (s : S) (tx : Transaction V C)
      → IsExecutable rt.core s tx
      → checker_writes s tx ≡ writes_of s tx
  unfolding checker_writes
  checker_writes_lem s tx x = rw (
    gather_inputs-ok rt.core s (encode_tx rt.core (strip tx)) tx.inputs x.inputs_ok,
    gather_peeks-data rt.core s tx.peeks,
    checker_writes,
  )

  pub apply_with_writes-inversion :
      (s t : S) (tx : Transaction V C)
      → apply_with_writes s tx ≡ ok t
      → IsExecutable rt.core s tx × (t ≡ update_storage rt.core (writes_of s tx) tx)
  unfolding apply_with_writes
  apply_with_writes-inversion s t tx h =
      let (v, e1, h1) = >>=-eq-ok (validate_tuxedo_transaction rt.core s tx) _ h in
      let (e2, h2) = ensure-eq-ok (is_empty v.requires) _ _ h1 in
      let x = IsExecutable-validate rt.core s tx v e1 (is_empty_iff _ e2) in
      (x, sym (ok_injective h2) ∙ ap (λ u. update_storage rt.core u tx) (checker_writes_lem s tx x))

  pub execute_extrinsic_with_writes-inversion :
      (s : S) (finished : Bool) (tx : Transaction V C) (r : S × Bool)
      → execute_extrinsic_with_writes s finished tx ≡ ok r
      → apply_with_writes s tx ≡ ok r.0
  unfolding execute_extrinsic_with_writes
  execute_extrinsic_with_writes-inversion s finished tx r h = ground arith

  -- The checker writes nothing.
  abbrev IsReadOnly : Type 0
  IsReadOnly =
      (s : S) (c : C) (inputs evicted peeks outputs : List DynamicallyTypedData)
      → rt.check_writes s c inputs evicted peeks outputs ≡ s

  checker_writes_nothing : (s : S) (tx : Transaction V C) → IsReadOnly → checker_writes s tx ≡ s
  unfolding checker_writes
  checker_writes_nothing s tx still =
      elim (Outcome-cases (gather_inputs rt.core s (encode_tx rt.core (strip tx)) tx.inputs)) [
        | inl (g, e) ↦ rw (e, checker_writes) (still s tx.checker _ _ _ _)
        | inr (inl (f, e)) ↦ rw (e, checker_writes)
        | inr (inr e) ↦ rw (e, checker_writes)
      ]

  apply_read_only :
      (s : S) (tx : Transaction V C)
      → IsReadOnly
      → apply_with_writes s tx ≡ apply_tuxedo_transaction rt.core s tx
  unfolding apply_with_writes apply_tuxedo_transaction
  apply_read_only s tx still =
      rw (checker_writes_nothing s tx still, apply_with_writes, apply_tuxedo_transaction)

  execute_extrinsics_read_only :
      (txs : List (Transaction V C)) (s : S) (finished : Bool)
      → IsReadOnly
      → execute_extrinsics_with_writes s finished txs ≡ execute_extrinsics rt.core s finished txs
  unfolding execute_extrinsics_with_writes execute_extrinsics execute_extrinsic_with_writes
      execute_extrinsic
  execute_extrinsics_read_only [] s finished still = refl
  execute_extrinsics_read_only (tx ∷ txs) s finished still =
      let later : (λ (r : S × Bool). execute_extrinsics_with_writes r.0 r.1 txs)
          ≡ (λ (r : S × Bool). execute_extrinsics rt.core r.0 r.1 txs) =
        fun_ext λ r. execute_extrinsics_read_only txs r.0 r.1 still in
      rw (apply_read_only s tx still, later) refl

  -- With a checker that writes nothing this is the execution of Blocks.
  execute_block_read_only :
      (s : S) (block : Block V C)
      → IsReadOnly
      → execute_block_with_writes s block ≡ execute_block rt.core s block
  unfolding execute_block_with_writes execute_block
  execute_block_read_only s block still =
      let extrinsics =
        execute_extrinsics_read_only block.extrinsics (open_block rt.core s block.header) false
          still in
      rw extrinsics refl
