-- ===== src/Executive/DoubleSpend.antt =====
-- The check for duplicate inputs of `validate_tuxedo_transaction` (tuxedo-core/src/executive.rs)
-- compares whole inputs, redeemers included, and the bytes after a redeemer are not read.

use tuxedo.Base.{
  ℕ, ◌<◌, Bytes, List, [], ◌∷◌, ◌++◌, some, none, ◌≡◌, ◌≢◌, refl, ap, arith, length, length-append,
  ok, true,
}
use tuxedo.Codec.{read-encode, read-encode_append}
use tuxedo.Types.{OutputRef, redemption, Output, Transaction}
use tuxedo.Executive.Runtime.{Runtime, encode_tx, tx_hash_of}
use tuxedo.Executive.Validation.{strip, new_ref, payloads, peek, block_height}
use tuxedo.Executive.Application.{update_storage, apply_tuxedo_transaction}
use tuxedo.Executive.Facts.{payloads_at, redeemed_refs, evicted_refs}
use tuxedo.Executive.Validity.{apply_tuxedo_transaction_iff}

redemption_injective : {c d : Bytes} → redemption c ≡ redemption d → c ≡ d
redemption_injective h = cc

ne_append_one : (d : Bytes) (b : ℕ) → d ≢ d ++ b ∷ []
ne_append_one d b e = omega (arith, ap length e, length-append d (b ∷ []))

module _ {S V R C E : Type 0} (rt : Runtime S V R C E) where
  -- The same output twice: with a redeemer, and with the redeemer and one more byte.
  abbrev pub doubled : OutputRef → R → List (Output V) → C → Transaction V C
  doubled r redeemer outputs checker =
      let d = rt.verifier.redeemer_codec.encode redeemer in
      record {
        inputs =
            record { output_ref = r; redeemer = redemption d }
            ∷ record { output_ref = r; redeemer = redemption (d ++ 0 ∷ []) }
            ∷ [];
        peeks = [];
        outputs = outputs;
        checker = checker;
      }

  -- Whoever can redeem an output can name it twice as the input of one transaction, with the
  -- redeemer and with the redeemer and one more byte; if a block height is stored, the outputs are
  -- new and the constraint checker accepts the payload given twice, the transaction is applied.
  pub doubled-applied :
      (s : S) (r : OutputRef) (redeemer : R) (outputs : List (Output V)) (checker : C)
      (utxo : Output V) (height priority : ℕ)
      → peek rt s r ≡ some utxo
      → block_height rt s ≡ ok height
      → rt.verifier.verify utxo.verifier
          (encode_tx rt (strip (doubled r redeemer outputs checker)))
          height
          redeemer
        ≡ some true
      → ((i : ℕ)
          → i < length outputs
          → peek rt s (new_ref (tx_hash_of rt (doubled r redeemer outputs checker)) i) ≡ none)
      → rt.checker.check s checker (utxo.payload ∷ utxo.payload ∷ []) [] [] (payloads outputs)
        ≡ ok priority
      → apply_tuxedo_transaction rt s (doubled r redeemer outputs checker)
        ≡ ok (update_storage rt s (doubled r redeemer outputs checker))
  unfolding payloads_at redeemed_refs evicted_refs
  doubled-applied s r redeemer outputs checker utxo height priority there h v fresh accepted =
      let codec = rt.verifier.redeemer_codec in
      (apply_tuxedo_transaction_iff rt s _ (doubled r redeemer outputs checker)).1 (
        record {
          inputs_distinct = (
            (λ e. ne_append_one _ 0 (redemption_injective (ap (λ i. i.redeemer) e)), tt),
            (tt, tt),
          );
          inputs_ok = (
            (utxo, there, (redeemer, height, read-encode codec redeemer, h, v)),
            (
              (utxo, there, (redeemer, height, read-encode_append codec redeemer (0 ∷ []), h, v)),
              tt,
            ),
          );
          peeks_present = tt;
          outputs_new = fresh;
          constraints = (priority, rw there accepted);
        },
        refl,
      )
