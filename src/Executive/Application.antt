-- ===== src/Executive/Application.antt =====
-- `apply_tuxedo_transaction` and `update_storage` (tuxedo-core/src/executive.rs).
use tuxedo.Base.{ℕ, ◌+◌, List, [], ◌∷◌, Outcome, ok, ◌>>=◌, ◌>>◌, ensure, is_empty}
use tuxedo.Types.{Input, Output, Transaction, UtxoError}
use tuxedo.UtxoSet.{consume_utxo, store_utxo}
use tuxedo.Executive.Runtime.{Runtime, tx_hash_of}
use tuxedo.Executive.Validation.{new_ref, validate_tuxedo_transaction}

module _ {S V R C E : Type 0} (rt : Runtime S V R C E) where
  unfoldable pub consume_inputs : S → List Input → S
  consume_inputs s [] = s
  consume_inputs s (i ∷ is) =
      consume_inputs (consume_utxo rt.storage rt.output_refs rt.outputs s i.output_ref).1 is

  -- `outputs.iter().enumerate()`, from `index` on.
  unfoldable pub store_outputs : S → ℕ → ℕ → List (Output V) → S
  store_outputs s tx_hash index [] = s
  store_outputs s tx_hash index (o ∷ os) =
      store_outputs (store_utxo rt.storage rt.output_refs rt.outputs s (new_ref tx_hash index) o)
        tx_hash (index + 1) os

  unfoldable pub update_storage : S → Transaction V C → S
  update_storage s tx = store_outputs (consume_inputs s tx.inputs) (tx_hash_of rt tx) 0 tx.outputs

  -- The storage after the transaction; an error or a panic comes before the first write.
  unfoldable pub apply_tuxedo_transaction : S → Transaction V C → Outcome (UtxoError E) S
  apply_tuxedo_transaction s tx = do
    valid_transaction ← validate_tuxedo_transaction rt s tx
    ensure (is_empty valid_transaction.requires) UtxoError.missing_input
    ok (update_storage s tx)
