-- ===== src/Inherents/ExactlyOne.antt =====
-- An adapted inherent (tuxedo-core/src/inherents.rs) appears exactly once.
use tuxedo.Base.{
  ℕ, true, List, [], ◌∷◌, ◌≡◌, ◌≢◌, ◌↔◌, refl, ap, arith, some, Outcome, ok, panic, expect-eq-ok,
  ok_injective, >>=-eq-ok, first_of_cons, length, ltb, suc, sym,
}
use tuxedo.Types.{Transaction}
use tuxedo.Inherents.{
  InherentError, InherentResults, InherentHooks, InherentAdapter, wrap_transaction,
  unwrap_transaction, adapter_identifier, create_inherents, check_inherents,
}

module _ {V C : Type 0} where
  pub unwrap-wrap : (tx : Transaction V C) → unwrap_transaction (wrap_transaction tx) ≡ tx
  unfolding wrap_transaction unwrap_transaction
  unwrap-wrap tx = refl

panics : {E A : Type 0} {a : A} → ◌≢◌ {A = Outcome E A} panic (ok a)
panics h = cc

more_than_one : (n : ℕ) → ltb 1 (suc (suc n)) ≡ true
more_than_one n = ground arith

module _ {S V C D L : Type 0} (results_api : InherentResults L)
    (hooks : InherentHooks S V C D L) where
  -- Where no error can leave a result clean, the adapter's check leaves it clean exactly if there
  -- is one inherent and the piece's own check of it leaves it clean.
  pub check_inherents_iff :
      (d : D) (inherents : List (Transaction V (InherentAdapter C))) (clean : L)
      → ((e : InherentError) → results_api.put_error clean adapter_identifier e ≢ some clean)
      → (check_inherents results_api hooks d inherents clean ≡ ok clean) ↔ (
          (tx : Transaction V C) × (inherents ≡ wrap_transaction tx ∷ [])
          × (hooks.check_inherent d tx clean ≡ ok clean))
  unfolding check_inherents wrap_transaction unwrap_transaction
  check_inherents_iff d [] clean n =
      (λ h. absurd (n InherentError.found_zero (expect-eq-ok _ h)), λ p. cc (p.1))
  check_inherents_iff d (tx ∷ []) clean n = (
    λ h. (unwrap_transaction tx, refl, h),
    λ (t, e, h). rw (ap unwrap_transaction (first_of_cons e)) h,
  )
  check_inherents_iff d (tx ∷ ty ∷ txs) clean n = (
    λ h.
        absurd
          (n InherentError.found_multiple (expect-eq-ok _ (rw (more_than_one (length txs)) at h))),
    λ p. cc (p.1),
  )

  -- A check that ends clean began clean.
  pub check_inherents-stays :
      (d : D) (inherents : List (Transaction V (InherentAdapter C))) (results clean : L)
      → ((e : InherentError) → results_api.put_error results adapter_identifier e ≢ some clean)
      → ((tx : Transaction V C) → hooks.check_inherent d tx results ≡ ok clean → results ≡ clean)
      → check_inherents results_api hooks d inherents results ≡ ok clean
      → results ≡ clean
  unfolding check_inherents
  check_inherents-stays d [] results clean n stays h =
      absurd (n InherentError.found_zero (expect-eq-ok _ h))
  check_inherents-stays d (tx ∷ []) results clean n stays h = stays (unwrap_transaction tx) h
  check_inherents-stays d (tx ∷ ty ∷ txs) results clean n stays h =
      absurd
        (n InherentError.found_multiple (expect-eq-ok _ (rw (more_than_one (length txs)) at h)))

  -- The adapter creates inherents exactly if there is one previous inherent and the piece creates
  -- one for it, which is then the only one created.
  create_inherents_iff :
      (s : S) (d : D) (previous : List (Transaction V (InherentAdapter C) × ℕ))
      (created : List (Transaction V (InherentAdapter C)))
      → (create_inherents results_api hooks s d previous ≡ ok created) ↔ (
          (tx new : Transaction V C) × (hash : ℕ) × (previous ≡ (wrap_transaction tx, hash) ∷ [])
          × (hooks.create_inherent s d (tx, hash) ≡ ok new)
          × (created ≡ wrap_transaction new ∷ []))
  unfolding create_inherents wrap_transaction unwrap_transaction
  create_inherents_iff s d [] created = (λ h. absurd (cc (h)), λ p. cc (p.3))
  create_inherents_iff s d (tx ∷ []) created = (
    λ h.
        let (new, e, h1) =
          >>=-eq-ok (hooks.create_inherent s d (unwrap_transaction tx.0, tx.1)) _ h in
        (unwrap_transaction tx.0, new, tx.1, refl, e, sym (ok_injective h1)),
    λ (t, new, hash, e, h, made). rw (first_of_cons e, h, made),
  )
  create_inherents_iff s d (tx ∷ ty ∷ txs) created =
      (λ h. absurd (panics (rw (more_than_one (length txs)) at h)), λ p. cc (p.3))
