-- ===== src/Aggregator/Pieces.antt =====
-- Each piece of an aggregate deals with its own inherents (tuxedo-core/aggregator/src/lib.rs).
use tuxedo.Base.{
  ℕ, Bool, false, List, [], ◌∷◌, ◌++◌, map, ok, some, >>=-eq-ok, ok_injective, ◌≡◌, ◌≢◌, ◌↔◌, refl,
  sym, ap, ap₂, ◌∙◌, Bool-cases, inl, inr,
}
use tuxedo.Types.{Transaction, transform}
use tuxedo.Inherents.{
  InherentError, InherentResults, InherentHooks, InherentAdapter, wrap_transaction,
  adapter_identifier, adapter_inherents,
}
use tuxedo.Inherents.ExactlyOne.{check_inherents_iff, check_inherents-stays}
use tuxedo.ConstraintChecker.{InherentInterface}
use tuxedo.Aggregator.{
  Aggregate, of_first, of_second, previous_of_first, previous_of_second, wrap_first, wrap_second,
  create_all, check_all,
}

module _ {V C D : Type 0} where
  of_first-wrap :
      (xs : List (Transaction V C)) (ys : List (Transaction V D))
      → of_first (map wrap_first xs ++ map wrap_second ys) ≡ xs
  unfolding of_first transform
  of_first-wrap [] [] = refl
  of_first-wrap [] (y ∷ ys) = of_first-wrap [] ys
  of_first-wrap (x ∷ xs) ys = ap (◌∷◌ x) (of_first-wrap xs ys)

  of_second-wrap :
      (xs : List (Transaction V C)) (ys : List (Transaction V D))
      → of_second (map wrap_first xs ++ map wrap_second ys) ≡ ys
  unfolding of_second transform
  of_second-wrap [] [] = refl
  of_second-wrap [] (y ∷ ys) = ap (◌∷◌ y) (of_second-wrap [] ys)
  of_second-wrap (x ∷ xs) ys = of_second-wrap xs ys

module _ {S V C D I L : Type 0} (fatal_error : L → Bool) (c : InherentInterface S V C I L)
    (d : InherentInterface S V D I L) where
  -- An aggregate creates inherents exactly if both pieces do, each from the previous inherents that
  -- are its own; the aggregate's are the first piece's and then the second's.
  create_all_iff :
      (s : S) (i : I) (previous : List (Transaction V (Aggregate C D) × ℕ))
      (created : List (Transaction V (Aggregate C D)))
      → (create_all fatal_error c d s i previous ≡ ok created) ↔ (
          (c.create_inherents s i (previous_of_first previous) ≡ ok (of_first created))
          × (d.create_inherents s i (previous_of_second previous) ≡ ok (of_second created))
          × (created ≡ map wrap_first (of_first created) ++ map wrap_second (of_second created)))
  unfolding create_all
  create_all_iff s i previous created = (
    λ h.
        let (xs, e, h1) = >>=-eq-ok (c.create_inherents s i (previous_of_first previous)) _ h in
        let (ys, f, h2) = >>=-eq-ok (d.create_inherents s i (previous_of_second previous)) _ h1 in
        let made = ok_injective h2 in
        let firsts : of_first created ≡ xs = ap of_first (sym made) ∙ of_first-wrap xs ys in
        let seconds : of_second created ≡ ys = ap of_second (sym made) ∙ of_second-wrap xs ys in
        (
          e ∙ ap ok (sym firsts),
          f ∙ ap ok (sym seconds),
          sym made
              ∙ ap₂ (λ us vs. map wrap_first us ++ map wrap_second vs) (sym firsts) (sym seconds),
        ),
    λ (e, f, made). rw (e, f) (ap ok (sym made)),
  )

  -- The check leaves a result clean exactly if the checks of both pieces do, each on its own
  -- inherents.
  check_all_iff :
      (i : I) (inherents : List (Transaction V (Aggregate C D))) (clean : L)
      → fatal_error clean ≡ false
      → ((l : L) (ys : List (Transaction V D)) → d.check_inherents i ys l ≡ ok clean → l ≡ clean)
      → (check_all fatal_error c d i inherents clean ≡ ok clean) ↔ (
          (c.check_inherents i (of_first inherents) clean ≡ ok clean)
          × (d.check_inherents i (of_second inherents) clean ≡ ok clean))
  unfolding check_all
  check_all_iff i inherents clean harmless stays = (
    λ h.
        let (l, e, h1) = >>=-eq-ok (c.check_inherents i (of_first inherents) clean) _ h in
        elim (Bool-cases (fatal_error l)) [
          | inl bad ↦ cc (bad, harmless, ap fatal_error (ok_injective (rw bad at h1)))
          | inr fine ↦
              let rest : d.check_inherents i (of_second inherents) l ≡ ok clean = rw fine at h1 in
              let same = stays l _ rest in
              (e ∙ ap ok same, ap (d.check_inherents i (of_second inherents)) (sym same) ∙ rest)
        ],
    λ (e, f). rw (e, harmless) f,
  )

-- Two adapted pieces, such as the timestamp and the parachain information.
module _ {S V C D I L : Type 0} (fatal_error : L → Bool) (api : InherentResults L)
    (hooks : InherentHooks S V C I L) (more : InherentHooks S V D I L) where
  -- For an aggregate of two adapted pieces, where no error and no check of the second piece leaves
  -- a result clean that was not, the check leaves a harmless result clean exactly if there is one
  -- inherent of each piece and the pieces' own checks leave it clean.
  pub check_all_exactly_one :
      (i : I) (inherents : List (Transaction V (Aggregate (InherentAdapter C) (InherentAdapter D))))
      (clean : L)
      → fatal_error clean ≡ false
      → ((l : L) (e : InherentError) → api.put_error l adapter_identifier e ≢ some clean)
      → ((l : L) (tx : Transaction V D) → more.check_inherent i tx l ≡ ok clean → l ≡ clean)
      → (check_all fatal_error
            (adapter_inherents api hooks)
            (adapter_inherents api more)
            i
            inherents
            clean
          ≡ ok clean)
        ↔ ((tx : Transaction V C) × (ty : Transaction V D) × (of_first inherents
              ≡ wrap_transaction tx ∷ [])
            × (of_second inherents ≡ wrap_transaction ty ∷ [])
            × (hooks.check_inherent i tx clean ≡ ok clean)
            × (more.check_inherent i ty clean ≡ ok clean))
  check_all_exactly_one i inherents clean harmless dirty stays =
      let both =
        check_all_iff fatal_error (adapter_inherents api hooks) (adapter_inherents api more) i
          inherents clean harmless
          (λ l ys h. check_inherents-stays api more i ys l clean (dirty l) (stays l) h) in
      let one = check_inherents_iff api hooks i (of_first inherents) clean (dirty clean) in
      let other = check_inherents_iff api more i (of_second inherents) clean (dirty clean) in
      (
        λ h.
            let (e, f) = both.0 h in
            let (tx, split, g) = one.0 e in
            let (ty, split', g') = other.0 f in (tx, ty, split, split', g, g'),
        λ (tx, ty, split, split', g, g'). both.1 (one.1 (tx, split, g), other.1 (ty, split', g')),
      )
