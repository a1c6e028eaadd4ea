-- ===== src/Aggregator/Redeemers.antt =====
-- A redeemer of another variant than the verifier's (tuxedo-core/aggregator/src/lib.rs, through
-- `validate_transaction` of tuxedo-core/src/executive.rs).
use tuxedo.Base.{ℕ, Bytes, false, List, ◌∷◌, none, some, ok, panic, ◌≡◌, refl, ap, ◌∙◌}
use tuxedo.Codec.{Codec, read, read-encode}
use tuxedo.Types.{redemption, Input, Output, Transaction}
use tuxedo.Verifier.{Verifier}
use tuxedo.Executive.Runtime.{Runtime, encode_tx}
use tuxedo.Executive.Validation.{
  peek, block_height, has_duplicates, redeem, check_input, gather_inputs, strip,
  validate_tuxedo_transaction, validate_transaction,
}
use tuxedo.Aggregator.{Aggregate, verify_aggregate, aggregate_verifier, as_first, as_second}

-- The two are of different variants.
abbrev pub Mismatch : {V W R Q : Type 0} → Aggregate V W → Aggregate R Q → Type 0
Mismatch (Aggregate.first v) (Aggregate.first r) = ⊥
Mismatch (Aggregate.first v) (Aggregate.second q) = Unit
Mismatch (Aggregate.second w) (Aggregate.first r) = Unit
Mismatch (Aggregate.second w) (Aggregate.second q) = ⊥

module _ {V W R Q : Type 0} (v : Verifier V R) (w : Verifier W Q)
    (redeemers : Codec (Aggregate R Q)) where
  verify-Mismatch :
      (a : Aggregate V W) (tx : Bytes) (height : ℕ) (r : Aggregate R Q)
      → Mismatch a r
      → verify_aggregate v w redeemers a tx height r ≡ none
  unfolding verify_aggregate as_first as_second
  verify-Mismatch (Aggregate.first a) tx height (Aggregate.first r) m = absurd m
  verify-Mismatch (Aggregate.first a) tx height (Aggregate.second q) m = refl
  verify-Mismatch (Aggregate.second b) tx height (Aggregate.first r) m = refl
  verify-Mismatch (Aggregate.second b) tx height (Aggregate.second q) m = absurd m

  module _ {S C E : Type 0} (rt : Runtime S (Aggregate V W) (Aggregate R Q) C E)
      (same : rt.verifier ≡ aggregate_verifier v w redeemers) where
    redeem-Mismatch :
        (s : S) (stripped : Bytes) (utxo : Output (Aggregate V W)) (r : Aggregate R Q) (height : ℕ)
        → block_height rt s ≡ ok height
        → Mismatch utxo.verifier r
        → redeem rt s stripped utxo (redeemers.encode r) ≡ panic
    unfolding redeem
    redeem-Mismatch s stripped utxo r height h m =
        let decoded : read rt.verifier.redeemer_codec (redeemers.encode r) ≡ some r =
          ap (λ x. read x.redeemer_codec (redeemers.encode r)) same ∙ read-encode redeemers r in
        let asked : rt.verifier.verify utxo.verifier stripped height r ≡ none =
          ap (λ x. x.verify utxo.verifier stripped height r) same
          ∙ verify-Mismatch utxo.verifier stripped height r m in
        rw (decoded, h, asked)

    gather-Mismatch :
        (s : S) (stripped : Bytes) (input : Input) (others : List Input)
        (utxo : Output (Aggregate V W)) (r : Aggregate R Q) (height : ℕ)
        → peek rt s input.output_ref ≡ some utxo
        → input.redeemer ≡ redemption (redeemers.encode r)
        → block_height rt s ≡ ok height
        → Mismatch utxo.verifier r
        → gather_inputs rt s stripped (input ∷ others) ≡ panic
    unfolding gather_inputs check_input
    gather-Mismatch s stripped input others utxo r height there redeemer h m =
        let one : check_input rt s stripped input ≡ panic =
          rw (there, redeemer, redeem-Mismatch s stripped utxo r height h m, check_input) in
        rw (one, gather_inputs)

    -- With an aggregate verifier, a transaction whose first input has an encoded redeemer of
    -- another variant than its output's verifier makes the validation panic, if it is not an
    -- inherent, its inputs are distinct, the output is there and a block height is stored.
    pub Mismatch-panic :
        (s : S) (tx : Transaction (Aggregate V W) C) (input : Input) (others : List Input)
        (utxo : Output (Aggregate V W)) (r : Aggregate R Q) (height : ℕ)
        → rt.checker.is_inherent tx.checker ≡ false
        → tx.inputs ≡ input ∷ others
        → has_duplicates rt tx.inputs ≡ false
        → peek rt s input.output_ref ≡ some utxo
        → input.redeemer ≡ redemption (redeemers.encode r)
        → block_height rt s ≡ ok height
        → Mismatch utxo.verifier r
        → validate_transaction rt s tx ≡ panic
    unfolding validate_transaction validate_tuxedo_transaction
    Mismatch-panic s tx input others utxo r height user inputs distinct there redeemer h m =
        let gone : gather_inputs rt s (encode_tx rt (strip tx)) tx.inputs ≡ panic =
          ap (gather_inputs rt s (encode_tx rt (strip tx))) inputs
          ∙ gather-Mismatch s (encode_tx rt (strip tx)) input others utxo r height there redeemer h
              m in
        rw (user, distinct, gone)
