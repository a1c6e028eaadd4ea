-- ===== src/Genesis/Tests.antt =====
-- A concrete genesis (tuxedo-core/src/genesis/config_builder.rs): one coin is minted.
use tuxedo.Base.{◌≡◌, ◌≢◌, refl, ok, none, Bytes, map, List, [], ◌∷◌}
use tuxedo.Executive.Runtime.{Block, extrinsic_key, encode_tx}
use tuxedo.Executive.Validation.{block_height}
use tuxedo.Executive.Application.{update_storage, consume_inputs}
use tuxedo.Genesis.FirstBlock.{build_genesis_block-build}
use tuxedo.Codec.{Codec}
use tuxedo.Types.{Transaction}
use tuxedo.Types.Encoding.{transaction_codec}
use tuxedo.ConstraintChecker.{of_simple}
use tuxedo.Verifier.{TestVerifier}
use tuxedo.Money.{MoneyConstraintChecker, mint}
use tuxedo.Genesis.{build, build_from, initial, build_genesis_block}
use tuxedo.Genesis.Built.{build_iff, update_all}
use tuxedo.Samples.{Storage, empty}
use tuxedo.Samples.Codecs.{lists}
use tuxedo.Samples.Chain.{chain, minting}

abbrev transactions : Codec (List (Transaction TestVerifier MoneyConstraintChecker))
transactions = lists (transaction_codec chain.transactions)

build_example :
    build chain transactions empty (minting ∷ [])
    ≡ ok (update_all chain (initial chain transactions empty (minting ∷ [])) (minting ∷ []))
unfolding of_simple mint
build_example =
    (build_iff chain transactions empty
        (update_all chain (initial chain transactions empty (minting ∷ [])) (minting ∷ []))
        (minting ∷ [])).1
      (([], minting ∷ [], refl, tt, (refl, tt)), ((refl, refl), tt), refl)

abbrev started : Storage
started = update_all chain (initial chain transactions empty (minting ∷ [])) (minting ∷ [])

abbrev first : Block TestVerifier MoneyConstraintChecker × Storage
first = build_genesis_block chain transactions started

started_built : build chain transactions empty (minting ∷ []) ≡ ok started
unfolding of_simple mint build build_from initial update_storage consume_inputs
started_built = refl

first_block_example :
    (first.0.extrinsics ≡ minting ∷ [])
    × (first.0.header.extrinsics_root
        ≡ chain.ordered_trie_root (map (encode_tx chain) (minting ∷ [])))
    × (first.0.header.state_root ≡ chain.storage.root first.1)
    × (chain.storage.get first.1 extrinsic_key ≡ none)
    × ((k : Bytes) → k ≢ extrinsic_key → chain.storage.get first.1 k ≡ chain.storage.get started k)
    × (block_height chain first.1 ≡ ok first.0.header.number)
first_block_example =
    build_genesis_block-build chain transactions empty started (minting ∷ []) started_built
