-- ===== src/Verifier/Tests.antt =====
-- Concrete runs of the verifiers (tuxedo-core/src/verifier.rs and its modules). In the sample
-- cryptography a signature is good if it is the key.
use tuxedo.Base.{ℕ, Bytes, ◌≡◌, refl, none, some, true, arith, List, [], ◌∷◌, length}
use tuxedo.Host.{Crypto}
use tuxedo.Samples.{crypto}
use tuxedo.Verifier.Htlc.{HashTimeLockContract, HtlcSpendPath, verify_htlc, verify_htlc_iff}
use tuxedo.Verifier.MultiSignature.{
  ThresholdMultiSignature, SignatureAndIndex, InRange, verify_multi,
}
use tuxedo.Verifier.MultiSignature.Acceptance.{
  IsWellFormed, verify_multi_iff, verify_multi_panics_iff,
}

-- Two of the three keys 10, 20 and 30.
abbrev two_of_three : ThresholdMultiSignature
two_of_three = record { threshold = 2; signatories = 10 ∷ 20 ∷ 30 ∷ [] }

-- Signatures that are no signatures.
abbrev forged : List SignatureAndIndex
forged = record { signature = []; index = 1 } ∷ record { signature = []; index = 0 } ∷ []

forged-IsWellFormed : IsWellFormed two_of_three forged
forged-IsWellFormed = record {
  signatories_distinct = (
    ((λ e. omega (arith, e)), ((λ e. omega (arith, e)), tt)),
    (((λ e. omega (arith, e)), tt), (tt, tt)),
  );
  threshold_met = omega arith;
  indices_below = (omega arith, (omega arith, tt));
  indices_distinct = (((λ e. omega (arith, e)), tt), (tt, tt));
}

forged_example : verify_multi crypto two_of_three [] 0 forged ≡ some true
forged_example =
    (verify_multi_iff crypto two_of_three [] 0 forged).1
      (forged-IsWellFormed, (omega arith, (omega arith, tt)))

-- What `new_unspendable` returns.
abbrev unspendable : ThresholdMultiSignature
unspendable = record { threshold = 1; signatories = [] }

abbrev one_signature : List SignatureAndIndex
one_signature = record { signature = []; index = 0 } ∷ []

past_the_end : ¬ InRange (length unspendable.signatories) one_signature
past_the_end h = omega (arith, h.0)

panics_example : verify_multi crypto unspendable [] 0 one_signature ≡ none
panics_example = (verify_multi_panics_iff crypto unspendable [] 0 one_signature).1 (
  record {
    signatories_distinct = tt;
    threshold_met = omega arith;
    indices_below = (omega arith, tt);
    indices_distinct = (tt, tt);
  },
  past_the_end,
)

abbrev signed : List SignatureAndIndex
signed = record { signature = 20 ∷ []; index = 1 } ∷ record { signature = 10 ∷ []; index = 0 } ∷ []

-- A secret of two bytes, the recipient 10, and the refunder 20 from height 100 on.
abbrev contract : HashTimeLockContract
contract = record {
  hash_lock = 2;
  recipient_pubkey = 10;
  claim_period_end = 100;
  refunder_pubkey = 20;
}

claim_htlc_example :
    verify_htlc crypto contract [] 5 (HtlcSpendPath.claim (7 ∷ 8 ∷ []) (10 ∷ [])) ≡ some true
unfolding tuxedo.Verifier.Htlc.verify_hash_lock
claim_htlc_example =
    (verify_htlc_iff crypto contract [] 5 (HtlcSpendPath.claim (7 ∷ 8 ∷ []) (10 ∷ []))).1
      (refl, refl)

refundable : verify_htlc crypto contract [] 100 (HtlcSpendPath.refund (20 ∷ [])) ≡ some true
unfolding verify_htlc
refundable = refl

-- A hash that tells all keys apart: the first byte.
abbrev first_byte : Bytes → ℕ
first_byte [] = 0
first_byte (b ∷ bs) = b

abbrev first_byte_crypto : Crypto
first_byte_crypto = record crypto { blake2_256 = first_byte }
