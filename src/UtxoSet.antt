-- ===== src/UtxoSet.antt =====
-- tuxedo-core/src/utxo_set.rs: the UTXOs in the storage, under their encoded references.
pub mod Laws
use tuxedo.Base.{Option, none, some}
use tuxedo.Codec.{Codec, read}
use tuxedo.Host.{StorageApi}
use tuxedo.Types.{OutputRef, Output}

module _ {S V : Type 0} (api : StorageApi S) (refs : Codec OutputRef)
    (outs : Codec (Output V)) where
  -- `TransparentUtxoSet::peek_utxo`
  unfoldable pub peek_utxo : S → OutputRef → Option (Output V)
  peek_utxo s output_ref = elim (api.get s (refs.encode output_ref)) [
    | none ↦ none
    | some d ↦ read outs d
  ]

  -- `TransparentUtxoSet::consume_utxo`
  unfoldable pub consume_utxo : S → OutputRef → Option (Output V) × S
  consume_utxo s output_ref =
      let maybe_output = peek_utxo s output_ref in
      (maybe_output, api.clear s (refs.encode output_ref))

  -- `TransparentUtxoSet::store_utxo`
  unfoldable pub store_utxo : S → OutputRef → Output V → S
  store_utxo s output_ref output = api.set s (refs.encode output_ref) (outs.encode output)
