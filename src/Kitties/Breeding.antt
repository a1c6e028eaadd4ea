-- ===== src/Kitties/Breeding.antt =====
-- What `FreeKittyConstraintChecker` (wardrobe/kitties/src/lib.rs) accepts.
use tuxedo.Base.{
  ℕ, ◌≡◌, ◌≢◌, ◌↔◌, refl, sym, ◌∙◌, ap, Bytes, List, [], ◌∷◌, length, is_empty, is_empty_iff, ◌==◌,
  ok, err, >>=-eq-ok, ensure-eq-ok, ok_injective,
}
use tuxedo.Codec.{Codec}
use tuxedo.DynamicTyping.{DynamicallyTypedData, datum_at, extract_or}
use tuxedo.DynamicTyping.Typed.{Typed, two-Typed, of_two-Typed, three-Typed, of_three-Typed}
use tuxedo.Executive.Validation.{payloads}
use tuxedo.Kitties.{
  Parent, MomKittyStatus, DadKittyStatus, FreeKittyConstraintChecker, KittyData, KittyError,
  kitty_data, mom_rests, dad_rests, can_breed, check_new_mom, check_new_dad, check_same_kitty,
  check_new_family, check_free_kitty, mint,
}
use tuxedo.Kitties.Family.{
  CanBreed, HasBred, IsNewborn, can_breed_iff, mom_rests_iff, dad_rests_iff, check_same_kitty_iff,
  check_child_iff,
}

module _ (blake2_256 : Bytes → ℕ) (encode_parents : ℕ → ℕ → ℕ → ℕ → Bytes)
    (codec : Codec KittyData) where
  abbrev Kitties : List DynamicallyTypedData → List KittyData → Type 0
  Kitties = Typed (kitty_data codec)

  -- The outputs are the two parents, who rest after one more breeding, and their newborn.
  abbrev pub IsFamily : KittyData → KittyData → List DynamicallyTypedData → Type 0
  IsFamily m d outputs =
      (new_mom new_dad child : KittyData) × Kitties outputs (new_mom ∷ new_dad ∷ child ∷ [])
      × (new_mom.parent ≡ Parent.mom MomKittyStatus.had_birth_recently)
      × HasBred m new_mom
      × (new_dad.parent ≡ Parent.dad DadKittyStatus.tired)
      × HasBred d new_dad
      × IsNewborn blake2_256 encode_parents new_mom new_dad child

  abbrev pub IsBreeding : (inputs evicted outputs : List DynamicallyTypedData) → Type 0
  IsBreeding inputs evicted outputs =
      (m d : KittyData) × (evicted ≡ [])
      × Kitties inputs (m ∷ d ∷ [])
      × CanBreed m d
      × IsFamily m d outputs

  check_new_mom_iff :
      (old new : KittyData)
      → (check_new_mom old new ≡ ok tt)
        ↔ ((mom_rests new.parent ≡ ok tt) × (check_same_kitty old new ≡ ok tt))
  unfolding check_new_mom
  check_new_mom_iff old new =
      (λ h. let (u, e, h1) = >>=-eq-ok (mom_rests new.parent) _ h in (e, h1), λ (e, h). rw (e, h))

  check_new_dad_iff :
      (old new : KittyData)
      → (check_new_dad old new ≡ ok tt)
        ↔ ((dad_rests new.parent ≡ ok tt) × (check_same_kitty old new ≡ ok tt))
  unfolding check_new_dad
  check_new_dad_iff old new =
      (λ h. let (u, e, h1) = >>=-eq-ok (dad_rests new.parent) _ h in (e, h1), λ (e, h). rw (e, h))

  check_new_family_iff :
      (m d : KittyData) (outputs : List DynamicallyTypedData)
      → CanBreed m d
      → (check_new_family blake2_256 encode_parents codec m d outputs ≡ ok tt)
        ↔ IsFamily m d outputs
  unfolding check_new_family
  check_new_family_iff m d outputs (r, r', pos, pos', counts, counts') =
      let u = kitty_data codec in
      let read = extract_or u KittyError.badly_typed in
      (
        λ h.
            let (e, h1) = ensure-eq-ok (length outputs == 3) _ _ h in
            let (a, e1, h2) = >>=-eq-ok (datum_at outputs 0) _ h1 in
            let (new_mom, f1, h3) = >>=-eq-ok (read a) _ h2 in
            let (b, e2, h4) = >>=-eq-ok (datum_at outputs 1) _ h3 in
            let (new_dad, f2, h5) = >>=-eq-ok (read b) _ h4 in
            let (c, e3, h6) = >>=-eq-ok (datum_at outputs 2) _ h5 in
            let (child, f3, h7) = >>=-eq-ok (read c) _ h6 in
            let (u1, g1, k1) = >>=-eq-ok (check_new_mom m new_mom) _ h7 in
            let (u2, g2, k2) = >>=-eq-ok (check_new_dad d new_dad) _ k1 in
            let (rests, bred) = (check_new_mom_iff m new_mom).0 g1 in
            let (rests', bred') = (check_new_dad_iff d new_dad).0 g2 in
            (
              new_mom,
              new_dad,
              child,
              three-Typed u outputs _ a b c new_mom new_dad child e e1 f1 e2 f2 e3 f3,
              (mom_rests_iff new_mom.parent).0 rests,
              (check_same_kitty_iff m new_mom pos counts).0 bred,
              (dad_rests_iff new_dad.parent).0 rests',
              (check_same_kitty_iff d new_dad pos' counts').0 bred',
              (check_child_iff blake2_256 encode_parents new_mom new_dad child).0 k2,
            ),
        λ (new_mom, new_dad, child, holds, rests, bred, rests', bred', newborn).
            let (a, b, c, e, f1, f2, f3) =
              of_three-Typed u KittyError.badly_typed outputs new_mom new_dad child holds in
            let g1 = (check_new_mom_iff m new_mom).1 (
              (mom_rests_iff new_mom.parent).1 rests,
              (check_same_kitty_iff m new_mom pos counts).1 bred,
            ) in
            let g2 = (check_new_dad_iff d new_dad).1 (
              (dad_rests_iff new_dad.parent).1 rests',
              (check_same_kitty_iff d new_dad pos' counts').1 bred',
            ) in
            let g3 = (check_child_iff blake2_256 encode_parents new_mom new_dad child).1 newborn in
            rw (e, f1, f2, f3, g1, g2, g3),
      )

  -- Breeding is accepted exactly if nothing is evicted, the inputs are a ready mother and a ready
  -- father with free breedings left and countable breedings, and the outputs are the same two with
  -- one free breeding less (as a u64), one breeding more and at rest, and a newborn whose DNA is
  -- the hash of theirs; the priority is zero.
  pub check_free_kitty_iff :
      (inputs evicted peeks outputs : List DynamicallyTypedData) (priority : ℕ)
      → (check_free_kitty blake2_256 encode_parents codec inputs evicted peeks outputs
          ≡ ok priority)
        ↔ ((priority ≡ 0) × IsBreeding inputs evicted outputs)
  unfolding check_free_kitty
  check_free_kitty_iff inputs evicted peeks outputs priority =
      let u = kitty_data codec in
      let read = extract_or u KittyError.badly_typed in
      let family = check_new_family blake2_256 encode_parents codec in
      (
        λ h.
            let (e, h1) = ensure-eq-ok (is_empty evicted) _ _ h in
            let (two, h2) = ensure-eq-ok (length inputs == 2) _ _ h1 in
            let (a, e1, h3) = >>=-eq-ok (datum_at inputs 0) _ h2 in
            let (m, f1, h4) = >>=-eq-ok (read a) _ h3 in
            let (b, e2, h5) = >>=-eq-ok (datum_at inputs 1) _ h4 in
            let (d, f2, h6) = >>=-eq-ok (read b) _ h5 in
            let (u1, g, h7) = >>=-eq-ok (can_breed m d) _ h6 in
            let (three, h8) = ensure-eq-ok (length outputs == 3) _ _ h7 in
            let (u2, g2, h9) = >>=-eq-ok (family m d outputs) _ h8 in
            let can = (can_breed_iff m d).0 g in
            (
              sym (ok_injective h9),
              (
                m,
                d,
                is_empty_iff _ e,
                two-Typed u inputs _ a b m d two e1 f1 e2 f2,
                can,
                (check_new_family_iff m d outputs can).0 g2,
              ),
            ),
        λ (p, (m, d, e, holds, can, fam)).
            let (a, b, e1, f1, f2) = of_two-Typed u KittyError.badly_typed inputs m d holds in
            let (x, y, z, e2, r1, r2, r3) =
              of_three-Typed u KittyError.badly_typed outputs fam.0 fam.1 fam.2 fam.3 in
            rw (
              e,
              e1,
              f1,
              f2,
              (can_breed_iff m d).1 can,
              ap length e2,
              (check_new_family_iff m d outputs can).1 fam,
              p,
            ),
      )

  -- The mother and the father that a breeding puts back are never accepted again as the mother and
  -- the father of a breeding.
  pub bred_once :
      (m' d' other : DynamicallyTypedData)
      (inputs evicted evicted' peeks peeks' outputs : List DynamicallyTypedData)
      (child : DynamicallyTypedData) (p q : ℕ)
      → check_free_kitty blake2_256 encode_parents codec inputs evicted peeks (m' ∷ d' ∷ child ∷ [])
        ≡ ok p
      → (check_free_kitty blake2_256 encode_parents codec (m' ∷ other ∷ []) evicted' peeks' outputs
          ≢ ok q)
        × (check_free_kitty blake2_256 encode_parents codec
              (other ∷ d' ∷ [])
              evicted'
              peeks'
              outputs
            ≢ ok q)
  bred_once m' d' other inputs evicted evicted' peeks peeks' outputs child p q h =
      let (p0, (m, d, e, holds, can, fam)) = (check_free_kitty_iff inputs evicted peeks _ p).0 h in
      let (new_mom, new_dad, newborn, outs, rests, bred, rests', bred', born) = fam in
      (
        λ k.
            let (q0, (m2, d2, e2, holds2, can2, fam2)) =
              (check_free_kitty_iff _ evicted' peeks' outputs q).0 k in
            let same = ok_injective (sym outs.0 ∙ holds2.0) in
            cc (ap (λ x. x.parent) same, rests, can2.0),
        λ k.
            let (q0, (m2, d2, e2, holds2, can2, fam2)) =
              (check_free_kitty_iff _ evicted' peeks' outputs q).0 k in
            let same = ok_injective (sym outs.1.0 ∙ holds2.1.0) in
            cc (ap (λ x. x.parent) same, rests', can2.1),
      )

  -- The transaction that KittyData::mint makes is refused by its own checker, for the want of two
  -- parents.
  mint-refused :
      {V W : Type 0} (into_verifier : V → W) (default_dna : ℕ) (parent : Parent)
      (dna_preimage : Bytes) (v : V)
      → (let tx =
            mint blake2_256 encode_parents codec into_verifier
              (λ (c : FreeKittyConstraintChecker). c)
              default_dna
              parent
              dna_preimage
              v in
          check_free_kitty blake2_256 encode_parents codec [] [] [] (payloads tx.outputs))
        ≡ err KittyError.two_parents_do_not_exist
  unfolding check_free_kitty
  mint-refused into_verifier default_dna parent dna_preimage v = refl
