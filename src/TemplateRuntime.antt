-- ===== src/TemplateRuntime.antt =====
-- tuxedo-template-runtime/src/lib.rs: the aggregate verifier and the aggregate constraint checker,
-- with what `#[tuxedo_verifier]` and `#[tuxedo_constraint_checker]` of
-- tuxedo-core/aggregator/src/lib.rs generate for them.
pub mod Confinement
pub mod Genesis
mod Tests
use tuxedo.Base.{ℕ, Bytes, Bool, true, false, List, Option, none, some, Outcome, ok, map_err, ◌>>=◌}
use tuxedo.Codec.{Codec}
use tuxedo.Host.{StorageApi, Crypto}
use tuxedo.DynamicTyping.{DynamicallyTypedData}
use tuxedo.Verifier.{Verifier, UpForGrabs, verify_up_for_grabs}
use tuxedo.Verifier.SimpleSignature.{Sr25519Signature, verify_sr25519}
use tuxedo.Verifier.MultiSignature.{ThresholdMultiSignature, SignatureAndIndex, verify_multi}
use tuxedo.Money.{MoneyConstraintChecker, MoneyError, Coin, check_money}
use tuxedo.Kitties.{FreeKittyConstraintChecker, KittyError, KittyData, check_free_kitty}
use tuxedo.Amoeba.{AmoebaError, AmoebaDetails, check_mitosis, check_death, check_creation}
use tuxedo.Poe.{PoeError, ClaimData, check_claim, check_revoke, check_dispute}
use tuxedo.Timestamp.{
  Timestamp, TimestampError, TimestampConfig, SetTimestamp, default_config, check_set_timestamp,
}
use tuxedo.RuntimeUpgrade.{RuntimeRef, RuntimeUpgrade, UpgradeError, check_upgrade}
use tuxedo.Inherents.{InherentAdapter}

pub data OuterVerifier : Type 0 where
  sr25519_signature : Sr25519Signature → OuterVerifier
  up_for_grabs : UpForGrabs → OuterVerifier
  threshold_multi_signature : ThresholdMultiSignature → OuterVerifier

-- The generated redeemer type, and its `as_..` methods.
pub data OuterVerifierRedeemer : Type 0 where
  signature : Bytes → OuterVerifierRedeemer
  nothing : Unit {0} → OuterVerifierRedeemer
  signatures : List SignatureAndIndex → OuterVerifierRedeemer

unfoldable pub as_sr25519_signature : OuterVerifierRedeemer → Option Bytes
as_sr25519_signature (OuterVerifierRedeemer.signature inner) = some inner
as_sr25519_signature (OuterVerifierRedeemer.nothing inner) = none
as_sr25519_signature (OuterVerifierRedeemer.signatures inner) = none

unfoldable pub as_up_for_grabs : OuterVerifierRedeemer → Option (Unit {0})
as_up_for_grabs (OuterVerifierRedeemer.signature inner) = none
as_up_for_grabs (OuterVerifierRedeemer.nothing inner) = some inner
as_up_for_grabs (OuterVerifierRedeemer.signatures inner) = none

unfoldable pub as_threshold_multi_signature :
    OuterVerifierRedeemer → Option (List SignatureAndIndex)
as_threshold_multi_signature (OuterVerifierRedeemer.signature inner) = none
as_threshold_multi_signature (OuterVerifierRedeemer.nothing inner) = none
as_threshold_multi_signature (OuterVerifierRedeemer.signatures inner) = some inner

-- `redeemer.as_..().expect(..)`, where a panic is `none`.
abbrev pub with_redeemer : {R : Type 0} → Option R → (R → Option Bool) → Option Bool
with_redeemer none verify = none
with_redeemer (some r) verify = verify r

-- `Verifier for OuterVerifier`: `verify` and `new_unspendable`, which is that of the first variant.
unfoldable pub verify_outer :
    Crypto → OuterVerifier → Bytes → ℕ → OuterVerifierRedeemer → Option Bool
verify_outer crypto (OuterVerifier.sr25519_signature inner) simplified_tx block_number redeemer =
    with_redeemer (as_sr25519_signature redeemer)
      (verify_sr25519 crypto inner simplified_tx block_number)
verify_outer crypto (OuterVerifier.up_for_grabs inner) simplified_tx block_number redeemer =
    with_redeemer (as_up_for_grabs redeemer) (verify_up_for_grabs inner simplified_tx block_number)
verify_outer crypto (OuterVerifier.threshold_multi_signature inner) simplified_tx block_number
      redeemer =
    with_redeemer (as_threshold_multi_signature redeemer)
      (verify_multi crypto inner simplified_tx block_number)

abbrev pub unspendable_outer : Option OuterVerifier
unspendable_outer = some (OuterVerifier.sr25519_signature (record { owner_pubkey = 0 }))

abbrev pub outer_verifier :
    Crypto → Codec OuterVerifierRedeemer → Verifier OuterVerifier OuterVerifierRedeemer
outer_verifier crypto redeemers = record {
  verify = verify_outer crypto;
  new_unspendable = unspendable_outer;
  redeemer_codec = redeemers;
}

pub data OuterConstraintChecker : Type 0 where
  money : MoneyConstraintChecker → OuterConstraintChecker
  free_kitty : FreeKittyConstraintChecker → OuterConstraintChecker
  amoeba_mitosis amoeba_death amoeba_creation : OuterConstraintChecker
  poe_claim poe_revoke poe_dispute : OuterConstraintChecker
  set_timestamp : InherentAdapter SetTimestamp → OuterConstraintChecker
  runtime_upgrade : RuntimeUpgrade → OuterConstraintChecker

-- The generated error type.
pub data OuterConstraintCheckerError : Type 0 where
  money_error : MoneyError → OuterConstraintCheckerError
  kitty_error : KittyError → OuterConstraintCheckerError
  amoeba_error : AmoebaError → OuterConstraintCheckerError
  poe_error : PoeError → OuterConstraintCheckerError
  timestamp_error : TimestampError → OuterConstraintCheckerError
  upgrade_error : UpgradeError → OuterConstraintCheckerError

-- What the pieces are built over: the host, the codecs, and `Executive::block_height`.
pub record Pieces (S : Type 0) : Type 0 where
  pub storage : StorageApi S
  pub blake2_256 : Bytes → ℕ
  pub encode_parents : ℕ → ℕ → ℕ → ℕ → Bytes
  pub block_height : S → ℕ
  pub coins : Codec Coin
  pub kitties : Codec KittyData
  pub amoebas : Codec AmoebaDetails
  pub claims : Codec ClaimData
  pub timestamps : Codec Timestamp
  pub runtime_refs : Codec RuntimeRef

-- A check that leaves the storage alone.
abbrev pub reading :
    {S E : Type 0}
    → (E → OuterConstraintCheckerError)
    → S
    → Outcome E ℕ
    → Outcome OuterConstraintCheckerError (ℕ × S)
reading error s checked = map_err error checked >>= λ priority. ok (priority, s)

module _ {S : Type 0} (pieces : Pieces S) where
  -- `OuterConstraintChecker::check`, with the storage that it leaves: an upgrade writes to it.
  unfoldable pub check_outer :
      S
      → OuterConstraintChecker
      → (inputs evicted_inputs peeks outputs : List DynamicallyTypedData)
      → Outcome OuterConstraintCheckerError (ℕ × S)
  check_outer s (OuterConstraintChecker.money inner) inputs evicted_inputs peeks outputs =
      reading OuterConstraintCheckerError.money_error s
        (check_money pieces.coins 0 inner inputs evicted_inputs peeks outputs)
  check_outer s (OuterConstraintChecker.free_kitty inner) inputs evicted_inputs peeks outputs =
      reading OuterConstraintCheckerError.kitty_error s (
        check_free_kitty pieces.blake2_256 pieces.encode_parents pieces.kitties inputs
          evicted_inputs peeks outputs)
  check_outer s OuterConstraintChecker.amoeba_mitosis inputs evicted_inputs peeks outputs =
      reading OuterConstraintCheckerError.amoeba_error s
        (check_mitosis pieces.amoebas inputs evicted_inputs peeks outputs)
  check_outer s OuterConstraintChecker.amoeba_death inputs evicted_inputs peeks outputs =
      reading OuterConstraintCheckerError.amoeba_error s
        (check_death pieces.amoebas inputs evicted_inputs peeks outputs)
  check_outer s OuterConstraintChecker.amoeba_creation inputs evicted_inputs peeks outputs =
      reading OuterConstraintCheckerError.amoeba_error s
        (check_creation pieces.amoebas inputs evicted_inputs peeks outputs)
  check_outer s OuterConstraintChecker.poe_claim inputs evicted_inputs peeks outputs =
      reading OuterConstraintCheckerError.poe_error s
        (check_claim pieces.claims (pieces.block_height s) inputs evicted_inputs peeks outputs)
  check_outer s OuterConstraintChecker.poe_revoke inputs evicted_inputs peeks outputs =
      reading OuterConstraintCheckerError.poe_error s
        (check_revoke pieces.claims inputs evicted_inputs peeks outputs)
  check_outer s OuterConstraintChecker.poe_dispute inputs evicted_inputs peeks outputs =
      reading OuterConstraintCheckerError.poe_error s
        (check_dispute pieces.claims inputs evicted_inputs peeks outputs)
  check_outer s (OuterConstraintChecker.set_timestamp adapter) inputs evicted_inputs peeks outputs =
      reading OuterConstraintCheckerError.timestamp_error s (
        check_set_timestamp (default_config pieces.block_height) pieces.timestamps s inputs
          evicted_inputs peeks outputs)
  check_outer s (OuterConstraintChecker.runtime_upgrade inner) inputs evicted_inputs peeks outputs =
      map_err OuterConstraintCheckerError.upgrade_error (
        check_upgrade pieces.storage pieces.blake2_256 pieces.runtime_refs s inner inputs
          evicted_inputs peeks outputs)

-- `OuterConstraintChecker::is_inherent`
unfoldable pub is_inherent_outer : OuterConstraintChecker → Bool
is_inherent_outer (OuterConstraintChecker.set_timestamp adapter) = true
is_inherent_outer (OuterConstraintChecker.money inner) = false
is_inherent_outer (OuterConstraintChecker.free_kitty inner) = false
is_inherent_outer OuterConstraintChecker.amoeba_mitosis = false
is_inherent_outer OuterConstraintChecker.amoeba_death = false
is_inherent_outer OuterConstraintChecker.amoeba_creation = false
is_inherent_outer OuterConstraintChecker.poe_claim = false
is_inherent_outer OuterConstraintChecker.poe_revoke = false
is_inherent_outer OuterConstraintChecker.poe_dispute = false
is_inherent_outer (OuterConstraintChecker.runtime_upgrade inner) = false
