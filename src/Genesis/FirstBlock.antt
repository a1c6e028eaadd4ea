-- ===== src/Genesis/FirstBlock.antt =====
-- The first block of a chain holds the transactions that its storage was built from
-- (tuxedo-core/src/genesis/config_builder.rs and block_builder.rs).
use tuxedo.Base.{
  ℕ, Bytes, List, [], ◌∷◌, map, none, some, ok, length, bytes_eq_self, ◌≡◌, ◌≢◌, refl, sym, ap, ◌∙◌,
  arith,
}
use tuxedo.Codec.{Codec, read-encode}
use tuxedo.Types.{Transaction}
use tuxedo.Executive.Runtime.{Runtime, extrinsic_key, height_key, encode_tx, height-ne-extrinsic}
use tuxedo.Executive.Validation.{block_height}
use tuxedo.Executive.Frame.{other_key, update_storage_frame}
use tuxedo.Executive.Application.{update_storage}
use tuxedo.Genesis.{build, initial, build_genesis_block, read_or_empty}
use tuxedo.Genesis.Built.{update_all, build_iff}

module _ {S V R C E : Type 0} (rt : Runtime S V R C E) where
  update_all_frame :
      (txs : List (Transaction V C)) (k : Bytes) (s : S)
      → length k ≢ 36
      → rt.storage.get (update_all rt s txs) k ≡ rt.storage.get s k
  update_all_frame [] k s n = refl
  update_all_frame (tx ∷ txs) k s n =
      update_all_frame txs k (update_storage rt s tx) n ∙ update_storage_frame rt s tx k n

  height_of :
      (s : S) (n : ℕ)
      → rt.storage.get s height_key ≡ some (rt.block_numbers.encode n)
      → block_height rt s ≡ ok n
  unfolding block_height
  height_of s n e = ground (arith, e, read-encode rt.block_numbers n)

  module _ (list_codec : Codec (List (Transaction V C))) (s t : S) (txs : List (Transaction V C))
      (built : build rt list_codec s txs ≡ ok t) where
    noted : rt.storage.get t extrinsic_key ≡ some (list_codec.encode txs)
    unfolding initial
    noted =
        let (_, _, e) = (build_iff rt list_codec s t txs).0 built in
        let put = rt.storage.set s extrinsic_key (list_codec.encode txs) in
        ap (λ u. rt.storage.get u extrinsic_key) e
        ∙ update_all_frame txs extrinsic_key _ (omega arith)
        ∙ other_key height_key extrinsic_key _ _
            (rt.storage.get-set put height_key (rt.block_numbers.encode 0) extrinsic_key)
            height-ne-extrinsic
        ∙ rw
            (
              rt.storage.get-set s extrinsic_key (list_codec.encode txs) extrinsic_key,
              bytes_eq_self extrinsic_key,
            )
            refl

    at_zero : rt.storage.get t height_key ≡ some (rt.block_numbers.encode 0)
    unfolding initial
    at_zero =
        let (_, _, e) = (build_iff rt list_codec s t txs).0 built in
        let put = rt.storage.set s extrinsic_key (list_codec.encode txs) in
        ap (λ u. rt.storage.get u height_key) e
        ∙ update_all_frame txs height_key _ (omega arith)
        ∙ rw
            (
              rt.storage.get-set put height_key (rt.block_numbers.encode 0) height_key,
              bytes_eq_self height_key,
            )
            refl

    others :
        (k : Bytes)
        → k ≢ extrinsic_key
        → rt.storage.get (rt.storage.clear t extrinsic_key) k ≡ rt.storage.get t k
    others k n =
        other_key extrinsic_key k none _ (rt.storage.get-clear t extrinsic_key k) (λ e. n (sym e))

  -- From a storage that the config builder made of a list of transactions the block builder reads
  -- the same list back into the first block, with the root of their encodings and the root of the
  -- state that it commits; that state has no extrinsics noted, is otherwise the builder's, and its
  -- block height is the block's number.
  pub build_genesis_block-build :
      (list_codec : Codec (List (Transaction V C))) (s t : S) (txs : List (Transaction V C))
      → build rt list_codec s txs ≡ ok t
      → ((build_genesis_block rt list_codec t).0.extrinsics ≡ txs)
        × ((build_genesis_block rt list_codec t).0.header.extrinsics_root
            ≡ rt.ordered_trie_root (map (encode_tx rt) txs))
        × ((build_genesis_block rt list_codec t).0.header.state_root
            ≡ rt.storage.root (build_genesis_block rt list_codec t).1)
        × (rt.storage.get (build_genesis_block rt list_codec t).1 extrinsic_key ≡ none)
        × ((k : Bytes)
            → k ≢ extrinsic_key
            → rt.storage.get (build_genesis_block rt list_codec t).1 k ≡ rt.storage.get t k)
        × (block_height rt (build_genesis_block rt list_codec t).1
            ≡ ok (build_genesis_block rt list_codec t).0.header.number)
  unfolding build_genesis_block
  build_genesis_block-build list_codec s t txs built =
      let same : read_or_empty rt list_codec (rt.storage.get t extrinsic_key) ≡ txs =
        rw (noted list_codec s t txs built, read-encode list_codec txs) refl in
      let height =
        others list_codec s t txs built height_key height-ne-extrinsic
        ∙ at_zero list_codec s t txs built in
      (
        same,
        ap (λ es. rt.ordered_trie_root (map (encode_tx rt) es)) same,
        refl,
        rw (rt.storage.get-clear t extrinsic_key extrinsic_key, bytes_eq_self extrinsic_key) refl,
        others list_codec s t txs built,
        height_of _ 0 height,
      )
