-- ===== src/Types.antt =====
-- tuxedo-core/src/types.rs: the types that all parts of a Tuxedo runtime share.
-- An `H256` is the number that its bytes spell.
pub mod Encoding
mod Tests
use tuxedo.Base.{ℕ, Bytes, List, [], Bool, true, false, Option, none, some, if◌then◌else◌}
use tuxedo.DynamicTyping.{DynamicallyTypedData}

pub record OutputRef : Type 0 where
  pub tx_hash : ℕ
  pub index : ℕ

pub data RedemptionStrategy : Type 0 where
  redemption : Bytes → RedemptionStrategy
  eviction : RedemptionStrategy

-- `RedemptionStrategy::default`
abbrev pub default_redeemer : RedemptionStrategy
default_redeemer = RedemptionStrategy.redemption []

pub record Input : Type 0 where
  pub output_ref : OutputRef
  pub redeemer : RedemptionStrategy

pub record Output (V : Type 0) : Type 0 where
  pub payload : DynamicallyTypedData
  pub verifier : V

pub record Transaction (V C : Type 0) : Type 0 where
  pub inputs : List Input
  pub peeks : List OutputRef
  pub outputs : List (Output V)
  pub checker : C

-- `Transaction::transform`, at the conversion `into : C → D`.
unfoldable pub transform : {V C D : Type 0} → (C → D) → Transaction V C → Transaction V D
transform into tx = record {
  inputs = tx.inputs;
  peeks = tx.peeks;
  outputs = tx.outputs;
  checker = into tx.checker;
}

-- `Extrinsic::is_signed`, given the checker's `is_inherent`.
unfoldable pub is_signed : {V C : Type 0} → (C → Bool) → Transaction V C → Option Bool
is_signed is_inherent tx = if is_inherent tx.checker then some false else none

pub data UtxoError (E : Type 0) : Type 0 where
  duplicate_input : UtxoError E
  pre_existing_output : UtxoError E
  constraint_checker_error : E → UtxoError E
  verifier_error : UtxoError E
  missing_input : UtxoError E

-- The cases of sp_runtime's `InvalidTransaction` that the code names.
pub data InvalidTransaction : Type 0 where
  call future bad_proof : InvalidTransaction
  custom : ℕ → InvalidTransaction

-- `From<UtxoError> for InvalidTransaction`
unfoldable pub to_invalid : {E : Type 0} → UtxoError E → InvalidTransaction
to_invalid UtxoError.duplicate_input = InvalidTransaction.custom 255
to_invalid UtxoError.pre_existing_output = InvalidTransaction.custom 254
to_invalid (UtxoError.constraint_checker_error e) = InvalidTransaction.custom 0
to_invalid UtxoError.verifier_error = InvalidTransaction.bad_proof
to_invalid UtxoError.missing_input = InvalidTransaction.future
