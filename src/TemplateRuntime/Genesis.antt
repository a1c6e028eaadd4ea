-- ===== src/TemplateRuntime/Genesis.antt =====
-- tuxedo-template-runtime/src/genesis.rs: the transactions of the development chain's first block.
use tuxedo.Base.{
  ℕ, Bytes, List, [], ◌∷◌, ◌++◌, map, Outcome, ok, ◌>>=◌, All, ◌≡◌, refl, sym, subst, ok_injective,
}
use tuxedo.Codec.{Codec}
use tuxedo.Types.{Transaction, transform}
use tuxedo.Verifier.{UpForGrabs}
use tuxedo.Verifier.MultiSignature.{new}
use tuxedo.Executive.Runtime.{Runtime}
use tuxedo.Executive.Inherents.{InherentsFirst}
use tuxedo.Money.{mint}
use tuxedo.Kitties as Kitties
use tuxedo.Kitties.{mom, dad, MomKittyStatus, DadKittyStatus}
use tuxedo.Timestamp as Timestamp
use tuxedo.Timestamp.{SetTimestamp, default_config}
use tuxedo.Inherents.{wrap_transaction}
use tuxedo.Genesis.{build, initial, build_genesis_block}
use tuxedo.Genesis.Built.{IsInitial, update_all, build_iff}
use tuxedo.Genesis.FirstBlock.{build_genesis_block-build}
use tuxedo.TemplateRuntime.{
  OuterVerifier, OuterVerifierRedeemer, OuterConstraintChecker, Pieces, unspendable_outer,
  is_inherent_outer,
}

-- `SHAWN_PUB_KEY_BYTES` and `ANDREW_PUB_KEY_BYTES`
abbrev pub shawn_pub_key : ℕ
shawn_pub_key = 95323687189761525524063882742081997675620248724005054020021980751314071904103

abbrev pub andrew_pub_key : ℕ
andrew_pub_key = 84427229586950685330284067314170583069875957465656662213071929997352577325370

-- b"mother" and b"father"
abbrev mother : Bytes
mother = b'm' ∷ b'o' ∷ b't' ∷ b'h' ∷ b'e' ∷ b'r' ∷ []

abbrev father : Bytes
father = b'f' ∷ b'a' ∷ b't' ∷ b'h' ∷ b'e' ∷ b'r' ∷ []

abbrev Tx : Type 0
Tx = Transaction OuterVerifier OuterConstraintChecker

module _ {S : Type 0} (pieces : Pieces S) (default_dna : ℕ) where
  -- `OuterConstraintChecker::genesis_transactions`: only the timestamp piece has one, the others'
  -- lists are empty.
  unfoldable pub genesis_outer : Outcome (Unit {0}) (List Tx)
  genesis_outer = do
    transactions ←
        Timestamp.genesis_transactions (default_config pieces.block_height) pieces.timestamps
          unspendable_outer
    ok (
        map
          (λ (tx : Transaction OuterVerifier SetTimestamp).
            transform OuterConstraintChecker.set_timestamp (wrap_transaction tx))
          transactions)

  -- The transactions that are added to the inherents.
  unfoldable pub user_transactions : List Tx
  user_transactions =
      mint pieces.coins 0 OuterVerifier.sr25519_signature OuterConstraintChecker.money 100
        (record { owner_pubkey = shawn_pub_key })
      ∷ mint pieces.coins 0 OuterVerifier.threshold_multi_signature OuterConstraintChecker.money 100
          (new 1 (shawn_pub_key ∷ andrew_pub_key ∷ []))
      ∷ Kitties.mint pieces.blake2_256 pieces.encode_parents pieces.kitties
          OuterVerifier.up_for_grabs OuterConstraintChecker.free_kitty default_dna
          (mom MomKittyStatus.rearin_to_go) mother UpForGrabs.up_for_grabs
      ∷ Kitties.mint pieces.blake2_256 pieces.encode_parents pieces.kitties
          OuterVerifier.up_for_grabs OuterConstraintChecker.free_kitty default_dna
          (dad DadKittyStatus.rearin_to_go) father UpForGrabs.up_for_grabs
      ∷ []

  unfoldable pub development_genesis_transactions : Outcome (Unit {0}) (List Tx)
  development_genesis_transactions = do
    genesis_transactions ← genesis_outer
    ok (genesis_transactions ++ user_transactions)

  module _ {E : Type 0}
      (rt : Runtime S OuterVerifier OuterVerifierRedeemer OuterConstraintChecker E)
      (same : (c : OuterConstraintChecker) → rt.checker.is_inherent c ≡ is_inherent_outer c) where
    in_order :
        (txs : List Tx)
        → development_genesis_transactions ≡ ok txs
        → InherentsFirst rt txs × All (IsInitial rt) txs
    unfolding development_genesis_transactions genesis_outer user_transactions
        Timestamp.genesis_transactions mint Kitties.mint transform wrap_transaction
        is_inherent_outer
    in_order txs e =
        subst (λ ts. InherentsFirst rt ts × All (IsInitial rt) ts) (ok_injective e)
          (
            (
              _ ∷ [],
              user_transactions,
              refl,
              (same _, tt),
              (same _, (same _, (same _, (same _, tt)))),
            ),
            ((refl, refl), ((refl, refl), ((refl, refl), ((refl, refl), ((refl, refl), tt))))),
          )

    made : (txs : List Tx) × (development_genesis_transactions ≡ ok txs)
    unfolding development_genesis_transactions genesis_outer Timestamp.genesis_transactions
    made = (_, refl)

    -- In a runtime with the template runtime's inherents, the transactions of the development
    -- chain's genesis can be computed, the config builder makes a storage of them, and the block
    -- builder makes of that a first block with these transactions, inherents first.
    pub development_genesis-build :
        (list_codec : Codec (List Tx)) (s : S)
        → (txs : List Tx) × (t : S) × (development_genesis_transactions ≡ ok txs)
          × (build rt list_codec s txs ≡ ok t)
          × ((build_genesis_block rt list_codec t).0.extrinsics ≡ txs)
          × InherentsFirst rt (build_genesis_block rt list_codec t).0.extrinsics
    development_genesis-build list_codec s =
        let (txs, e) = made in
        let (first, initials) = in_order txs e in
        let t = update_all rt (initial rt list_codec s txs) txs in
        let built : build rt list_codec s txs ≡ ok t =
          (build_iff rt list_codec s t txs).1 (first, initials, refl) in
        let same_txs = (build_genesis_block-build rt list_codec s t txs built).0 in
        (txs, t, e, built, same_txs, subst (InherentsFirst rt) (sym same_txs) first)
