-- ===== src/Genesis.antt =====
-- tuxedo-core/src/genesis: the storage that a chain starts with (config_builder.rs), and its first
-- block (block_builder.rs).
pub mod Built
pub mod FirstBlock
mod Tests
use tuxedo.Base.{
  Bytes, Bool, true, false, ◌&&◌, ◌||◌, not, List, [], ◌∷◌, is_empty, map, Option, none, some,
  Outcome, ok, err, ◌>>=◌, ◌>>◌, ensure,
}
use tuxedo.Codec.{Codec, read}
use tuxedo.Types.{Transaction}
use tuxedo.Executive.Runtime.{
  Runtime, Header, Block, extrinsic_key, height_key, encode_tx, tx_hash_of,
}
use tuxedo.Executive.Application.{store_outputs}

-- The two messages of `build`.
pub data GenesisError : Type 0 where
  inherent_after_non_inherents inputs_or_peeks : GenesisError

module _ {S V R C E : Type 0} (rt : Runtime S V R C E) where
  -- The loop of `build`, with the flag `finished_with_opening_inherents`.
  unfoldable pub build_from : S → Bool → List (Transaction V C) → Outcome GenesisError S
  build_from s finished [] = ok s
  build_from s finished (tx ∷ txs) =
      let current_tx_is_inherent = rt.checker.is_inherent tx.checker in
      do
        ensure (not (current_tx_is_inherent && finished)) GenesisError.inherent_after_non_inherents
        ensure (is_empty tx.inputs && is_empty tx.peeks) GenesisError.inputs_or_peeks
        build_from (store_outputs rt s (tx_hash_of rt tx) 0 tx.outputs)
            (finished || not current_tx_is_inherent) txs

  -- The storage before the loop: the list of transactions, and the block number zero.
  unfoldable pub initial : Codec (List (Transaction V C)) → S → List (Transaction V C) → S
  initial list_codec s genesis_transactions =
      rt.storage.set (rt.storage.set s extrinsic_key (list_codec.encode genesis_transactions))
        height_key (rt.block_numbers.encode 0)

  -- `TuxedoGenesisConfigBuilder::build`; an error abandons the storage.
  unfoldable pub build :
      Codec (List (Transaction V C)) → S → List (Transaction V C) → Outcome GenesisError S
  build list_codec s genesis_transactions =
      build_from (initial list_codec s genesis_transactions) false genesis_transactions

  -- `Some(v) => decode(v).unwrap_or_default(), None => Vec::new()`
  abbrev pub or_empty : Option (List (Transaction V C)) → List (Transaction V C)
  or_empty none = []
  or_empty (some txs) = txs

  abbrev pub read_or_empty : Codec (List (Transaction V C)) → Option Bytes → List (Transaction V C)
  read_or_empty list_codec none = []
  read_or_empty list_codec (some v) = or_empty (read list_codec v)

  -- `build_genesis_block`, at the storage that `build_storage` returned: the block, and the state
  -- that is committed with it.
  unfoldable pub build_genesis_block : Codec (List (Transaction V C)) → S → Block V C × S
  build_genesis_block list_codec genesis_storage =
      let extrinsics = read_or_empty list_codec (rt.storage.get genesis_storage extrinsic_key) in
      let state = rt.storage.clear genesis_storage extrinsic_key in
      (
        record {
          header = record {
            parent_hash = 0;
            number = 0;
            state_root = rt.storage.root state;
            extrinsics_root = rt.ordered_trie_root (map (encode_tx rt) extrinsics);
            digest = [];
          };
          extrinsics = extrinsics;
        },
        state,
      )
