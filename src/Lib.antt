-- ===== src/Lib.antt =====
-- Verification of Tuxedo, a framework for UTXO blockchains on Substrate.
--
-- A transaction names the outputs that it consumes (inputs, each with a redeemer or as an eviction),
-- the outputs that it only looks at (peeks), the outputs that it creates, and a constraint checker.
-- The executive validates it: every input's verifier must accept its redeemer, and the constraint
-- checker must accept the data of all inputs, peeks and outputs. It then updates the storage. Pieces
-- (the wardrobe) provide constraint checkers; some come as inherents, once in every block.
--
-- Base holds what every file shares: tests on numbers and byte strings, lists, distinctness, and
-- Outcome, a Result whose third case is a panic. Codec and Host are the third parties that the code
-- calls, as interfaces with the laws that it relies on: the SCALE codec, whose decoding gives back
-- what was encoded and leaves the rest, sp_io's storage as a map from keys to values with a root that
-- depends on the contents alone, and the cryptography, of which a theorem says what it assumes.
--
--   tuxedo-core/src/dynamic_typing.rs    DynamicTyping: extract, into_dynamic; Laws, and Typed for
--                                        the slices of data that the pieces read
--   tuxedo-core/src/types.rs             Types; Encoding: Encode and Decode of Transaction
--   tuxedo-core/src/utxo_set.rs          UtxoSet: peek, consume and store; Laws
--   tuxedo-core/src/verifier.rs and
--   tuxedo-core/src/verifier/            Verifier, with SimpleSignature, Htlc and MultiSignature
--   tuxedo-core/src/constraint_checker.rs  ConstraintChecker: the two traits as interfaces
--   tuxedo-core/src/inherents.rs         Inherents: InherentHooks and InherentAdapter; ExactlyOne
--   tuxedo-core/src/executive.rs         Executive: Runtime is what an Executive is built over;
--                                        Validation, Application, Blocks and Preparation are its
--                                        methods; Validity says when a transaction is applied, Ledger
--                                        what that does to the UTXO set, History what sequences of
--                                        them do, DoubleSpend what the check for duplicates lets
--                                        through, Inherents and Agreement are about whole blocks,
--                                        with Facts, Frame and Authoring for the lemmas; Writes
--                                        executes blocks with a checker that writes to the storage
--   tuxedo-core/src/genesis              Genesis: config_builder.rs, with Built, and block_builder.rs,
--                                        with FirstBlock
--   wardrobe/money/src/lib.rs            Money; Spending, Minting, Doubling, Chain
--   wardrobe/amoeba/src/lib.rs           Amoeba; Life
--   wardrobe/poe/src/lib.rs              Poe; Claims
--   wardrobe/timestamp/src/lib.rs        Timestamp; Checks, Authoring
--   wardrobe/kitties/src/lib.rs          Kitties; Family, Breeding
--   wardrobe/runtime_upgrade/src/lib.rs  RuntimeUpgrade; Code
--   wardrobe/parachain/src/lib.rs        Parachain; Info
--   wallet/src/sync.rs                   Wallet: the tables of the wallet's database; Moves for entries
--                                        that move between tables, Outputs for outputs that are put in or
--                                        removed, Reorg for unapplying a transaction, Kept for the
--                                        tables of blocks, Blocks for whole blocks; Queries, Selection;
--                                        Sync opens the database and synchronizes it with a node:
--                                        Heights for the blocks of the wallet, Agreement for the
--                                        synchronization, Panics, Opening;
--                                        Balances for what every owner has
--   wallet/src/main.rs                   Wallet.Arguments: keys and output references as strings
--   wallet/src/money.rs                  Wallet.Spending: the transactions that the wallet builds;
--                                        Signing, Accepted, Submitted for the node's application of
--                                        them, and Repeated for inputs named twice
--   tuxedo-core/aggregator/src/lib.rs    Aggregator: what the macros generate for two variants, such
--                                        as the parachain runtime's checker
--                                        (tuxedo-parachain-core/parachainify/src/lib.rs); Pieces for
--                                        the inherents, Redeemers for the verifiers
--   tuxedo-template-runtime/src/lib.rs   TemplateRuntime: the aggregate verifier and checker;
--                                        Confinement; Genesis for genesis.rs
--   tuxedo-parachain-core/src            ParachainCore: lib.rs, collation_api.rs, validate_block.rs;
--                                        Validity, Collation, HostFunctions
--
-- Samples holds a small host, codecs and a chain of coins, on which the Tests of each component run.
--
-- The state of the executive is the storage S of the host interface; every method takes it and
-- returns it. The loops over inputs, peeks, outputs and extrinsics are structural recursion. The two
-- loops of the wallet's synchronization take a number of rounds, of which one more than the wallet's
-- best height and as many as the node has blocks are enough. An error that rejects a transaction
-- comes before its first write, except in apply_extrinsic, which notes the extrinsic first and
-- returns that storage beside the result, and in the checks of the parachain and runtime upgrade
-- pieces, which write to the storage themselves. A method that the source leaves by a panic (expect,
-- assert!, indexing) has the outcome panic; a verifier that may panic answers none. Hashes (H256)
-- and public keys are the numbers that their bytes spell. Machine integers are natural numbers, with
-- the wrap-around of a release build written out where the source adds or subtracts (2 ^ 32, 2 ^ 64,
-- 2 ^ 128); the index of an output reference is reduced modulo 2 ^ 32.
--
-- Not modelled: the derive macros (tuxedo-core/no_bound), the node's providers of inherent data, the
-- proofs of the relay chain's state (tuxedo-parachain-core/src/relay_state_snapshot.rs and
-- trie_cache.rs, copies of Cumulus), the runtime APIs, the nodes, and of the wallet the RPC transport,
-- the keystore and the command line; what the wallet asks of a node and of the keystore are
-- parameters. Logging and serialisation to JSON are left out.
pub mod Base
pub mod Codec
pub mod Host
pub mod DynamicTyping
pub mod Types
pub mod Aggregator
pub mod TemplateRuntime
pub mod ParachainCore
pub mod Verifier
pub mod ConstraintChecker
pub mod UtxoSet
pub mod Executive
pub mod Money
pub mod Amoeba
pub mod Poe
pub mod Inherents
pub mod Timestamp
pub mod Samples
pub mod Wallet
pub mod Parachain
pub mod RuntimeUpgrade
pub mod Kitties
pub mod Genesis
