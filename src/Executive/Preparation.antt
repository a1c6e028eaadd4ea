-- ===== src/Executive/Preparation.antt =====
-- Inherents before a block is executed (tuxedo-core/src/executive.rs): `inherent_extrinsics` and
-- `check_inherents`.
use tuxedo.Base.{
  ℕ, List, [], ◌∷◌, ◌++◌, map, Option, Outcome, ok, expect, ◌>>=◌, ◌≡◌, refl, ap, sym, ◌∙◌, All,
  if◌then◌else◌,
}
use tuxedo.Types.{Transaction}
use tuxedo.ConstraintChecker.{InherentInterface}
use tuxedo.Executive.Runtime.{Runtime, Block, tx_hash_of}
use tuxedo.Executive.Blocks.{execute_block}
use tuxedo.Executive.Inherents.{IsInherent, IsUser, execute_block-InherentsFirst}

module _ {S V R C E : Type 0} (rt : Runtime S V R C E) where
  -- `take_while(|tx| tx.checker.is_inherent())`
  unfoldable pub opening_inherents : List (Transaction V C) → List (Transaction V C)
  opening_inherents [] = []
  opening_inherents (tx ∷ txs) =
      let more = opening_inherents txs in
      if rt.checker.is_inherent tx.checker then tx ∷ more else []

  -- `previous_blocks_inherents`
  unfoldable pub previous_inherents : Block V C → List (Transaction V C × ℕ)
  previous_inherents parent =
      map (λ tx. (tx, tx_hash_of rt tx)) (opening_inherents parent.extrinsics)

  module _ {D L : Type 0} (hooks : InherentInterface S V C D L) where
    -- `inherent_extrinsics`, at the parent block that the inherent data holds.
    unfoldable pub inherent_extrinsics :
        (D → Option (Option (Block V C))) → S → D → Outcome (Unit {0}) (List (Transaction V C))
    inherent_extrinsics get_parent s data' = do
      present ← expect (get_parent data')
      parent ← expect present
      hooks.create_inherents s data' (previous_inherents parent)

    -- `check_inherents`, at the new `CheckInherentsResult`.
    unfoldable pub check_block_inherents : L → Block V C → D → Outcome (Unit {0}) L
    check_block_inherents new block data' =
        hooks.check_inherents data' (opening_inherents block.extrinsics) new

  -- All inherents of a block.
  abbrev pub all_inherents : List (Transaction V C) → List (Transaction V C)
  all_inherents [] = []
  all_inherents (tx ∷ txs) =
      let more = all_inherents txs in if rt.checker.is_inherent tx.checker then tx ∷ more else more

  no_inherents : (txs : List (Transaction V C)) → All (IsUser rt) txs → all_inherents txs ≡ []
  no_inherents [] h = refl
  no_inherents (tx ∷ txs) h = rw h.0 (no_inherents txs h.1)

  opening_inherents-user :
      (txs : List (Transaction V C)) → All (IsUser rt) txs → opening_inherents txs ≡ []
  unfolding opening_inherents
  opening_inherents-user [] h = refl
  opening_inherents-user (tx ∷ txs) h = rw h.0

  opening_complete :
      (opening user : List (Transaction V C))
      → All (IsInherent rt) opening
      → All (IsUser rt) user
      → opening_inherents (opening ++ user) ≡ all_inherents (opening ++ user)
  unfolding opening_inherents
  opening_complete [] user h k = opening_inherents-user user k ∙ sym (no_inherents user k)
  opening_complete (tx ∷ opening) user h k =
      rw h.0 (ap (◌∷◌ tx) (opening_complete opening user h.1 k))

  -- The inherents read off the beginning of the extrinsics of a block that has been executed are
  -- all its inherents.
  opening_inherents_complete :
      (s t : S) (block : Block V C)
      → execute_block rt s block ≡ ok t
      → opening_inherents block.extrinsics ≡ all_inherents block.extrinsics
  opening_inherents_complete s t block h =
      let (opening, user, e, os, us) = execute_block-InherentsFirst rt s t block h in
      rw e (opening_complete opening user os us)
