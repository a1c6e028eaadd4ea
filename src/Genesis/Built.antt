-- ===== src/Genesis/Built.antt =====
-- What `build` (tuxedo-core/src/genesis/config_builder.rs) accepts and makes.
use tuxedo.Base.{
  Bool, true, false, ◌&&◌, ◌||◌, not, List, [], ◌∷◌, ◌≡◌, ◌↔◌, refl, sym, ap, ◌∙◌, subst, arith,
  is_empty, is_empty_iff, All, ok, ensure-eq-ok, first_of_cons, rest_of_cons, ok_injective,
  Bool-cases, inl, inr,
}
use tuxedo.Codec.{Codec}
use tuxedo.Types.{Transaction}
use tuxedo.Executive.Runtime.{Runtime, tx_hash_of}
use tuxedo.Executive.Application.{consume_inputs, store_outputs, update_storage}
use tuxedo.Executive.Inherents.{IsInherent, IsUser, InherentsFirst}
use tuxedo.Genesis.{build_from, build, initial}

module _ {S V R C E : Type 0} (rt : Runtime S V R C E) where
  -- It redeems, evicts and peeks at nothing.
  abbrev pub IsInitial : Transaction V C → Type 0
  IsInitial tx = (tx.inputs ≡ []) × (tx.peeks ≡ [])

  -- Every transaction applied, in order, without validation.
  abbrev pub update_all : S → List (Transaction V C) → S
  update_all s [] = s
  update_all s (tx ∷ txs) = update_all (update_storage rt s tx) txs

  -- What is left to come, by the flag.
  abbrev Allowed : Bool → List (Transaction V C) → Type 0
  Allowed true txs = All (IsUser rt) txs
  Allowed false txs = InherentsFirst rt txs

  update_storage-IsInitial :
      (s : S) (tx : Transaction V C)
      → tx.inputs ≡ []
      → update_storage rt s tx ≡ store_outputs rt s (tx_hash_of rt tx) 0 tx.outputs
  unfolding update_storage consume_inputs
  update_storage-IsInitial s tx e = rw e

  none_built : (finished : Bool) → Allowed finished []
  none_built true = tt
  none_built false = ([], [], refl, tt, tt)

  -- The flag after one transaction.
  abbrev flag_after : Bool → Transaction V C → Bool
  flag_after finished tx = finished || not (rt.checker.is_inherent tx.checker)

  Allowed-cons :
      (finished : Bool) (tx : Transaction V C) (txs : List (Transaction V C))
      → not (rt.checker.is_inherent tx.checker && finished) ≡ true
      → Allowed (flag_after finished tx) txs
      → Allowed finished (tx ∷ txs)
  Allowed-cons true tx txs e rest = (ground arith, rest)
  Allowed-cons false tx txs e rest = elim (Bool-cases (rt.checker.is_inherent tx.checker)) [
    | inl inherent ↦
        let (opening, user, split, os, us) : InherentsFirst rt txs = rw inherent at rest in
        (tx ∷ opening, user, ap (◌∷◌ tx) split, (inherent, os), us)
    | inr user ↦
        let us : All (IsUser rt) txs = rw user at rest in ([], tx ∷ txs, refl, tt, (user, us))
  ]

  IsInitial-of_test :
      (tx : Transaction V C) → is_empty tx.inputs && is_empty tx.peeks ≡ true → IsInitial tx
  IsInitial-of_test tx h =
      (is_empty_iff tx.inputs (ground arith), is_empty_iff tx.peeks (ground arith))

  build_from_inversion :
      (s t : S) (finished : Bool) (txs : List (Transaction V C))
      → build_from rt s finished txs ≡ ok t
      → Allowed finished txs × All IsInitial txs × (t ≡ update_all s txs)
  unfolding build_from
  build_from_inversion s t finished [] h = (none_built finished, tt, sym (ok_injective h))
  build_from_inversion s t finished (tx ∷ txs) h =
      let (e1, h1) = ensure-eq-ok _ _ _ h in
      let (e2, h2) = ensure-eq-ok (is_empty tx.inputs && is_empty tx.peeks) _ _ h1 in
      let empty = IsInitial-of_test tx e2 in
      let (rest, initials, e) =
        build_from_inversion (store_outputs rt s (tx_hash_of rt tx) 0 tx.outputs) t
          (flag_after finished tx) txs h2 in
      (
        Allowed-cons finished tx txs e1 rest,
        (empty, initials),
        e ∙ ap (λ u. update_all u txs) (sym (update_storage-IsInitial s tx empty.0)),
      )

  IsUser-All :
      (tx : Transaction V C) (txs user : List (Transaction V C))
      → tx ∷ txs ≡ user
      → All (IsUser rt) user
      → All (IsUser rt) (tx ∷ txs)
  IsUser-All tx txs user e us = subst (All (IsUser rt)) (sym e) us

  Allowed-tail :
      (finished : Bool) (tx : Transaction V C) (txs : List (Transaction V C))
      → Allowed finished (tx ∷ txs)
      → (not (rt.checker.is_inherent tx.checker && finished) ≡ true)
        × Allowed (flag_after finished tx) txs
  Allowed-tail true tx txs h = (ground arith, h.1)
  Allowed-tail false tx txs ([], user, e, os, us) =
      let all = IsUser-All tx txs user e us in (rw (all.0), rw (all.0) all.1)
  Allowed-tail false tx txs (o ∷ opening, user, e, os, us) =
      let inherent : IsInherent rt tx = rw (first_of_cons e) os.0 in
      (rw inherent, rw inherent (opening, user, rest_of_cons e, os.1, us))

  initial_test :
      (tx : Transaction V C) → IsInitial tx → is_empty tx.inputs && is_empty tx.peeks ≡ true
  initial_test tx h = rw (h.0, h.1)

  build_from_holds :
      (s : S) (finished : Bool) (txs : List (Transaction V C))
      → Allowed finished txs
      → All IsInitial txs
      → build_from rt s finished txs ≡ ok (update_all s txs)
  unfolding build_from
  build_from_holds s finished [] h k = refl
  build_from_holds s finished (tx ∷ txs) h k =
      let (e, rest) = Allowed-tail finished tx txs h in
      rw (update_storage-IsInitial s tx k.0.0, e, initial_test tx k.0)
        (build_from_holds (store_outputs rt s (tx_hash_of rt tx) 0 tx.outputs)
          (flag_after finished tx) txs rest k.1)

  -- The genesis builder succeeds exactly if the inherents come first and no transaction has inputs
  -- or peeks, and its storage is then the initial one with every transaction's update applied in
  -- order.
  pub build_iff :
      (list_codec : Codec (List (Transaction V C))) (s t : S) (txs : List (Transaction V C))
      → (build rt list_codec s txs ≡ ok t) ↔ (
          InherentsFirst rt txs
          × All IsInitial txs
          × (t ≡ update_all (initial rt list_codec s txs) txs))
  unfolding build
  build_iff list_codec s t txs = (
    build_from_inversion _ t false txs,
    λ (first, initials, e). rw e (build_from_holds _ false txs first initials),
  )
