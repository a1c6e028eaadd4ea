-- ===== src/Aggregator.antt =====
-- tuxedo-core/aggregator/src/lib.rs: what `#[tuxedo_verifier]` and `#[tuxedo_constraint_checker]`
-- generate for an enum of two variants, such as the `ParachainConstraintChecker` of
-- tuxedo-parachain-core/parachainify/src/lib.rs. For an enum of more variants the generated matches
-- have more arms, and the generated methods more blocks, of the same form.
pub mod Pieces
pub mod Redeemers
mod Tests
use tuxedo.Base.{
  ℕ, Bytes, Bool, true, false, List, [], ◌∷◌, ◌++◌, map, Option, none, some, Option-cases, Outcome,
  ok, err, panic, map_err, ◌>>=◌, if◌then◌else◌,
}
use tuxedo.Codec.{Codec}
use tuxedo.Types.{Transaction, transform}
use tuxedo.Verifier.{Verifier}
use tuxedo.ConstraintChecker.{ConstraintChecker, InherentInterface}

-- The enum. The same shape serves as the aggregate verifier, redeemer, checker and error.
pub data Aggregate (A B : Type 0) : Type 0 where
  first : A → Aggregate A B
  second : B → Aggregate A B

module _ {A B : Type 0} where
  -- The `From` implementations that unwrap: a panic at another variant.
  unfoldable pub from_first : Aggregate A B → Outcome (Unit {0}) A
  from_first (Aggregate.first a) = ok a
  from_first (Aggregate.second b) = panic

  unfoldable pub from_second : Aggregate A B → Outcome (Unit {0}) B
  from_second (Aggregate.first a) = panic
  from_second (Aggregate.second b) = ok b

  -- `as_first` and `as_second` of the aggregate redeemer.
  unfoldable pub as_first : Aggregate A B → Option A
  as_first (Aggregate.first a) = some a
  as_first (Aggregate.second b) = none

  unfoldable pub as_second : Aggregate A B → Option B
  as_second (Aggregate.first a) = none
  as_second (Aggregate.second b) = some b

-- `Option::map` into the first variant.
abbrev pub map_first : {A B : Type 0} → Option A → Option (Aggregate A B)
map_first none = none
map_first (some a) = some (Aggregate.first a)

module _ {V W R Q : Type 0} (v : Verifier V R) (w : Verifier W Q)
    (redeemers : Codec (Aggregate R Q)) where
  -- `verify` of the aggregate: the redeemer's variant is expected to be the verifier's.
  unfoldable pub verify_aggregate : Aggregate V W → Bytes → ℕ → Aggregate R Q → Option Bool
  verify_aggregate (Aggregate.first inner) simplified_tx block_number redeemer =
      elim (as_first redeemer) [
        | none ↦ none
        | some r ↦ v.verify inner simplified_tx block_number r
      ]
  verify_aggregate (Aggregate.second inner) simplified_tx block_number redeemer =
      elim (as_second redeemer) [
        | none ↦ none
        | some r ↦ w.verify inner simplified_tx block_number r
      ]

  abbrev pub aggregate_verifier : Verifier (Aggregate V W) (Aggregate R Q)
  aggregate_verifier = record {
    verify = verify_aggregate;
    new_unspendable = map_first v.new_unspendable;
    redeemer_codec = redeemers;
  }

module _ {S C D E F : Type 0} (c : ConstraintChecker S C E) (d : ConstraintChecker S D F) where
  -- `check` and `is_inherent` of the aggregate.
  unfoldable pub aggregate_checker : ConstraintChecker S (Aggregate C D) (Aggregate E F)
  aggregate_checker = record {
    check = λ s checker inputs evicted peeks outputs. elim checker [
      | first inner ↦ map_err Aggregate.first (c.check s inner inputs evicted peeks outputs)
      | second inner ↦ map_err Aggregate.second (d.check s inner inputs evicted peeks outputs)
    ];
    is_inherent = λ checker. elim checker [
      | first inner ↦ c.is_inherent inner
      | second inner ↦ d.is_inherent inner
    ];
  }

module _ {V C D : Type 0} where
  -- The transactions of one piece, unwrapped: `filter_map` with `transform`.
  unfoldable pub of_first : List (Transaction V (Aggregate C D)) → List (Transaction V C)
  of_first [] = []
  of_first (tx ∷ txs) = elim tx.checker [
    | first inner ↦ transform (λ _. inner) tx ∷ of_first txs
    | second inner ↦ of_first txs
  ]

  unfoldable pub of_second : List (Transaction V (Aggregate C D)) → List (Transaction V D)
  of_second [] = []
  of_second (tx ∷ txs) = elim tx.checker [
    | first inner ↦ of_second txs
    | second inner ↦ transform (λ _. inner) tx ∷ of_second txs
  ]

  -- The same, with the hashes.
  unfoldable pub previous_of_first :
      List (Transaction V (Aggregate C D) × ℕ) → List (Transaction V C × ℕ)
  previous_of_first [] = []
  previous_of_first (p ∷ ps) = elim p.0.checker [
    | first inner ↦ (transform (λ _. inner) p.0, p.1) ∷ previous_of_first ps
    | second inner ↦ previous_of_first ps
  ]

  unfoldable pub previous_of_second :
      List (Transaction V (Aggregate C D) × ℕ) → List (Transaction V D × ℕ)
  previous_of_second [] = []
  previous_of_second (p ∷ ps) = elim p.0.checker [
    | first inner ↦ previous_of_second ps
    | second inner ↦ (transform (λ _. inner) p.0, p.1) ∷ previous_of_second ps
  ]

  abbrev pub wrap_first : Transaction V C → Transaction V (Aggregate C D)
  wrap_first tx = transform Aggregate.first tx

  abbrev pub wrap_second : Transaction V D → Transaction V (Aggregate C D)
  wrap_second tx = transform Aggregate.second tx

-- `fatal_error` is that of sp_inherents' `CheckInherentsResult`.
module _ {S V C D I L : Type 0} (fatal_error : L → Bool) (c : InherentInterface S V C I L)
    (d : InherentInterface S V D I L) where
  -- `create_inherents` of the aggregate.
  unfoldable pub create_all :
      S
      → I
      → List (Transaction V (Aggregate C D) × ℕ)
      → Outcome (Unit {0}) (List (Transaction V (Aggregate C D)))
  create_all s authoring_inherent_data previous_inherents = do
    inherents ← c.create_inherents s authoring_inherent_data (previous_of_first previous_inherents)
    more ← d.create_inherents s authoring_inherent_data (previous_of_second previous_inherents)
    ok (map wrap_first inherents ++ map wrap_second more)

  -- `check_inherents` of the aggregate: a fatal error ends it.
  unfoldable pub check_all : I → List (Transaction V (Aggregate C D)) → L → Outcome (Unit {0}) L
  check_all importing_inherent_data inherents result = do
    checked ← c.check_inherents importing_inherent_data (of_first inherents) result
    if fatal_error checked
        then ok checked
        else d.check_inherents importing_inherent_data (of_second inherents) checked

  -- `genesis_transactions` of the aggregate.
  unfoldable pub genesis_all : Outcome (Unit {0}) (List (Transaction V (Aggregate C D)))
  genesis_all = do
    transactions ← c.genesis_transactions
    more ← d.genesis_transactions
    ok (map wrap_first transactions ++ map wrap_second more)

  abbrev pub aggregate_inherents : InherentInterface S V (Aggregate C D) I L
  aggregate_inherents = record {
    create_inherents = create_all;
    check_inherents = check_all;
    genesis_transactions = genesis_all;
  }
