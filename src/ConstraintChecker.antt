-- ===== src/ConstraintChecker.antt =====
-- tuxedo-core/src/constraint_checker.rs: what decides whether a transaction as a whole is valid.
use tuxedo.Base.{ℕ, Bool, true, false, List, [], Outcome, ok, panic, is_empty}
use tuxedo.DynamicTyping.{DynamicallyTypedData}
use tuxedo.Types.{Transaction}

-- `check` of both traits, at the checker type `C` with the error `E`: the data of the redeemed
-- inputs, the evicted inputs, the peeks and the outputs. It reads the storage `S` (pieces ask for
-- the block height); what a piece writes to it is in Executive.Writes.
abbrev pub Check : (S C E : Type 0) → Type 0
Check S C E =
    S
    → C
    → (input_data evicted_input_data peek_data output_data : List DynamicallyTypedData)
    → Outcome E ℕ

-- The part of the trait `ConstraintChecker` that the execution of transactions uses.
pub record ConstraintChecker (S C E : Type 0) : Type 0 where
  pub check : Check S C E
  pub is_inherent : C → Bool

-- The rest of the trait: the hooks for inherents, at the storage `S`, the verifier type `V`, the
-- inherent data `D` and the result `L` of inherent checks, which `check_inherents` changes. An `err`
-- is never returned: what may go wrong in a hook is a panic.
pub record InherentInterface (S V C D L : Type 0) : Type 0 where
  pub create_inherents :
      S → D → List (Transaction V C × ℕ) → Outcome (Unit {0}) (List (Transaction V C))
  pub check_inherents : D → List (Transaction V C) → L → Outcome (Unit {0}) L
  pub genesis_transactions : Outcome (Unit {0}) (List (Transaction V C))

-- The blanket implementation for every `SimpleConstraintChecker`.
module _ {S C E : Type 0} (simple_check : Check S C E) where
  unfoldable pub of_simple : ConstraintChecker S C E
  of_simple = record { check = simple_check; is_inherent = λ c. false }

unfoldable pub simple_inherents : {S V C D L : Type 0} → InherentInterface S V C D L
simple_inherents = record {
  create_inherents = λ s d previous. ok [];
  check_inherents =
      λ d inherents results. elim (is_empty inherents) [ true ↦ ok results | false ↦ panic ];
  genesis_transactions = ok [];
}

-- `TestConstraintChecker` and its `check`.
pub record TestConstraintChecker : Type 0 where
  pub checks : Bool
  pub inherent : Bool
