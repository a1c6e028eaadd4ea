-- ===== src/Executive/Inherents.antt =====
-- The place of inherents in a block, as `execute_block` (tuxedo-core/src/executive.rs) enforces it.
use tuxedo.Base.{
  Bool, true, false, not, ◌&&◌, ◌||◌, List, [], ◌∷◌, ◌++◌, ◌≡◌, refl, ap, arith, All, ok, >>=-eq-ok,
  Bool-cases, inl, inr,
}
use tuxedo.Types.{Transaction}
use tuxedo.Executive.Runtime.{Runtime, Block}
use tuxedo.Executive.Application.{apply_tuxedo_transaction}
use tuxedo.Executive.Blocks.{execute_extrinsic, execute_extrinsics, execute_block}

module _ {S V R C E : Type 0} (rt : Runtime S V R C E) where
  abbrev pub IsInherent : Transaction V C → Type 0
  IsInherent tx = rt.checker.is_inherent tx.checker ≡ true

  abbrev pub IsUser : Transaction V C → Type 0
  IsUser tx = rt.checker.is_inherent tx.checker ≡ false

  -- The inherents come first.
  abbrev pub InherentsFirst : List (Transaction V C) → Type 0
  InherentsFirst txs =
      (opening user : List (Transaction V C)) × (txs ≡ opening ++ user)
      × All IsInherent opening
      × All IsUser user

  execute_extrinsic-inversion :
      (s : S) (finished : Bool) (tx : Transaction V C) (r : S × Bool)
      → execute_extrinsic rt s finished tx ≡ ok r
      → (rt.checker.is_inherent tx.checker && finished ≡ false)
        × (apply_tuxedo_transaction rt s tx ≡ ok r.0)
        × (r.1 ≡ finished || not (rt.checker.is_inherent tx.checker))
  unfolding execute_extrinsic
  execute_extrinsic-inversion s finished tx r h = ground arith

  IsUser-only :
      (s t : S) (txs : List (Transaction V C))
      → execute_extrinsics rt s true txs ≡ ok t
      → All IsUser txs
  unfolding execute_extrinsics
  IsUser-only s t [] h = tt
  IsUser-only s t (tx ∷ txs) h =
      let (r, e, h1) = >>=-eq-ok (execute_extrinsic rt s true tx) _ h in
      let (p, a, f) = execute_extrinsic-inversion s true tx r e in
      (ground arith, IsUser-only r.0 t txs (rw f at h1))

  inherents_first :
      (s t : S) (txs : List (Transaction V C))
      → execute_extrinsics rt s false txs ≡ ok t
      → InherentsFirst txs
  unfolding execute_extrinsics
  inherents_first s t [] h = ([], [], refl, tt, tt)
  inherents_first s t (tx ∷ txs) h =
      let (r, e, h1) = >>=-eq-ok (execute_extrinsic rt s false tx) _ h in
      let (p, a, f) = execute_extrinsic-inversion s false tx r e in
      elim (Bool-cases (rt.checker.is_inherent tx.checker)) [
        | inl inherent ↦
            let (opening, user, split, os, us) =
              inherents_first r.0 t txs (rw (f, inherent) at h1) in
            (tx ∷ opening, user, ap (◌∷◌ tx) split, (inherent, os), us)
        | inr user ↦ ([], tx ∷ txs, refl, tt, (user, IsUser-only r.0 t txs (rw (f, user) at h1)))
      ]

  -- The extrinsics of a block that executes are inherents followed by extrinsics that are not.
  pub execute_block-InherentsFirst :
      (s t : S) (block : Block V C)
      → execute_block rt s block ≡ ok t
      → InherentsFirst block.extrinsics
  unfolding execute_block
  execute_block-InherentsFirst s t block h =
      let (s2, e, h1) = >>=-eq-ok (execute_extrinsics rt _ false block.extrinsics) _ h in
      inherents_first _ s2 block.extrinsics e
