-- ===== src/Inherents.antt =====
-- tuxedo-core/src/inherents.rs: inherents of a piece, one in every block.
pub mod ExactlyOne
use tuxedo.Base.{
  ℕ, Bytes, Bool, true, List, [], ◌∷◌, map, length, get_elem?, is_empty, ltb, Option, Outcome, ok,
  panic, expect, ◌>>=◌, ◌>>◌, if◌then◌else◌,
}
use tuxedo.Types.{Transaction}
use tuxedo.ConstraintChecker.{Check, ConstraintChecker, InherentInterface}

-- The errors that the code puts into a `CheckInherentsResult`.
pub data InherentError : Type 0 where
  found_zero found_multiple too_far_in_future : InherentError

-- sp_inherents' `CheckInherentsResult` as a type `L`, third party: `put_error` may refuse.
pub record InherentResults (L : Type 0) : Type 0 where
  pub put_error : L → Bytes → InherentError → Option L

-- The trait `InherentHooks`, for a verifier type `V`.
pub record InherentHooks (S V C D L : Type 0) : Type 0 where
  pub create_inherent : S → D → Transaction V C × ℕ → Outcome (Unit {0}) (Transaction V C)
  pub check_inherent : D → Transaction V C → L → Outcome (Unit {0}) L
  pub genesis_transactions : Outcome (Unit {0}) (List (Transaction V C))

pub record InherentAdapter (C : Type 0) : Type 0 where
  pub inner : C

module _ {V C : Type 0} where
  unfoldable pub wrap_transaction : Transaction V C → Transaction V (InherentAdapter C)
  wrap_transaction unwrapped = record {
    inputs = unwrapped.inputs;
    peeks = unwrapped.peeks;
    outputs = unwrapped.outputs;
    checker = record { inner = unwrapped.checker };
  }

  unfoldable pub unwrap_transaction : Transaction V (InherentAdapter C) → Transaction V C
  unwrap_transaction wrapped = record {
    inputs = wrapped.inputs;
    peeks = wrapped.peeks;
    outputs = wrapped.outputs;
    checker = wrapped.checker.inner;
  }

-- `check` and `is_inherent` of `ConstraintChecker for InherentAdapter<C>`.
unfoldable pub adapter_checker :
    {S C E : Type 0} → Check S C E → ConstraintChecker S (InherentAdapter C) E
adapter_checker simple_check = record {
  check = λ s c inputs evicted peeks outputs. simple_check s c.inner inputs evicted peeks outputs;
  is_inherent = λ c. true;
}

-- The identifier under which the adapter puts its errors: `*b"12345678"`.
abbrev pub adapter_identifier : Bytes
adapter_identifier = b'1' ∷ b'2' ∷ b'3' ∷ b'4' ∷ b'5' ∷ b'6' ∷ b'7' ∷ b'8' ∷ []

module _ {S V C D L : Type 0} (results_api : InherentResults L)
    (hooks : InherentHooks S V C D L) where
  -- `InherentAdapter::create_inherents`
  unfoldable pub create_inherents :
      S
      → D
      → List (Transaction V (InherentAdapter C) × ℕ)
      → Outcome (Unit {0}) (List (Transaction V (InherentAdapter C)))
  create_inherents s authoring_inherent_data previous_inherents =
      if ltb 1 (length previous_inherents) then panic else do
        previous ← expect (get_elem? previous_inherents 0)
        current_inherent ←
            hooks.create_inherent s authoring_inherent_data
              (unwrap_transaction previous.0, previous.1)
        ok (wrap_transaction current_inherent ∷ [])

  -- `InherentAdapter::check_inherents`
  unfoldable pub check_inherents :
      D → List (Transaction V (InherentAdapter C)) → L → Outcome (Unit {0}) L
  check_inherents importing_inherent_data inherents results =
      if is_empty inherents
      then expect (results_api.put_error results adapter_identifier InherentError.found_zero)
      else if ltb 1 (length inherents)
      then expect (results_api.put_error results adapter_identifier InherentError.found_multiple)
      else do
        inherent ← expect (get_elem? inherents 0)
        hooks.check_inherent importing_inherent_data (unwrap_transaction inherent) results

  -- `InherentAdapter::genesis_transactions`
  unfoldable pub genesis_transactions :
      Outcome (Unit {0}) (List (Transaction V (InherentAdapter C)))
  genesis_transactions = do
    transactions ← hooks.genesis_transactions
    ok (map wrap_transaction transactions)

  -- The three hooks of `ConstraintChecker for InherentAdapter<C>`.
  abbrev pub adapter_inherents : InherentInterface S V (InherentAdapter C) D L
  adapter_inherents = record {
    create_inherents = create_inherents;
    check_inherents = check_inherents;
    genesis_transactions = genesis_transactions;
  }
