-- ===== src/Verifier.antt =====
-- tuxedo-core/src/verifier.rs: what decides whether one input may be consumed.
pub mod SimpleSignature
pub mod Htlc
pub mod MultiSignature
mod Tests
use tuxedo.Base.{ℕ, Bytes, Bool, true, false, Option, none, some}
use tuxedo.Codec.{Codec}

-- The trait `Verifier`, at the verifier type `V` and its `Redeemer` type `R`. The answer `none` is
-- a panic of `verify`.
pub record Verifier (V R : Type 0) : Type 0 where
  pub verify : V → Bytes → ℕ → R → Option Bool
  pub new_unspendable : Option V
  pub redeemer_codec : Codec R

-- The trait's default for `new_unspendable`.
abbrev pub no_unspendable : {V : Type 0} → Option V
no_unspendable = none

pub data UpForGrabs : Type 0 where
  up_for_grabs : UpForGrabs

unfoldable pub verify_up_for_grabs : UpForGrabs → Bytes → ℕ → Unit {0} → Option Bool
verify_up_for_grabs v simplified_tx block_height redeemer = some true

pub data Unspendable : Type 0 where
  unspendable : Unspendable

unfoldable pub verify_unspendable : Unspendable → Bytes → ℕ → Unit {0} → Option Bool
verify_unspendable v simplified_tx block_height redeemer = some false

pub record TestVerifier : Type 0 where
  pub verifies : Bool

unfoldable pub verify_test : TestVerifier → Bytes → ℕ → Unit {0} → Option Bool
verify_test v simplified_tx block_height redeemer = some v.verifies

module _ (unit_codec : Codec (Unit {0})) where
  abbrev pub up_for_grabs_verifier : Verifier UpForGrabs (Unit {0})
  up_for_grabs_verifier = record {
    verify = verify_up_for_grabs;
    new_unspendable = no_unspendable;
    redeemer_codec = unit_codec;
  }

  abbrev pub unspendable_verifier : Verifier Unspendable (Unit {0})
  unspendable_verifier = record {
    verify = verify_unspendable;
    new_unspendable = some Unspendable.unspendable;
    redeemer_codec = unit_codec;
  }

  abbrev pub test_verifier : Verifier TestVerifier (Unit {0})
  test_verifier = record {
    verify = verify_test;
    new_unspendable = some (record { verifies = false });
    redeemer_codec = unit_codec;
  }
