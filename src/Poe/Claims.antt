-- ===== src/Poe/Claims.antt =====
-- What the three proof of existence checkers (wardrobe/poe/src/lib.rs) accept.
use tuxedo.Base.{
  ℕ, ◌≡◌, ◌≢◌, ◌≤◌, ◌<◌, ◌↔◌, refl, sym, ap, subst, ◌∙◌, List, [], ◌∷◌, arith, is_empty, get_elem?,
  Outcome, ok, ok_or, All, All-imp, first_of_cons, for_each, >>=-eq-ok, ensure-eq-ok, is_empty_iff,
  ok_injective,
}
use tuxedo.Codec.{Codec}
use tuxedo.DynamicTyping.{DynamicallyTypedData, DynamicTypingError, extract, extract_or}
use tuxedo.DynamicTyping.Typed.{Typed, extract_or_iff, first-Typed, for_each-Typed_iff}
use tuxedo.Poe.{
  ClaimData, PoeError, claim_data, claim_test, dispute_test, check_claim, check_revoke,
  check_dispute,
}

claim_test_iff : (h : ℕ) (c : ClaimData) → (claim_test h c ≡ ok tt) ↔ (h ≤ c.effective_height)
claim_test_iff h c = ground arith

-- A claim on the same hash that takes effect earlier.
abbrev pub Beats : ClaimData → ClaimData → Type 0
Beats winner loser =
    (winner.claim ≡ loser.claim) × (winner.effective_height < loser.effective_height)

dispute_test_iff : (w l : ClaimData) → (dispute_test w l ≡ ok tt) ↔ Beats w l
dispute_test_iff w l = ground arith

All-ok :
    (cs : List ClaimData)
    → All (λ (c : ClaimData). ◌≡◌ {A = Outcome PoeError (Unit {0})} (ok tt) (ok tt)) cs
All-ok [] = tt
All-ok (c ∷ cs) = (refl, All-ok cs)

same :
    {o : Outcome DynamicTypingError ClaimData} {c d : ClaimData}
    → o ≡ ok c
    → o ≡ ok d
    → c.effective_height ≡ d.effective_height
same e f = ap (λ x. x.effective_height) (ok_injective (sym e ∙ f))

some_first :
    (ds : List DynamicallyTypedData) (d : DynamicallyTypedData)
    → ok_or (get_elem? ds 0) PoeError.wrong_number_inputs ≡ ok d
    → (rest : List DynamicallyTypedData) × (ds ≡ d ∷ rest)
some_first [] d h = cc
some_first (a ∷ ds) d h = (ds, rw (ok_injective h))

module _ (codec : Codec ClaimData) where
  abbrev pub Claims : List DynamicallyTypedData → List ClaimData → Type 0
  Claims = Typed (claim_data codec)

  -- Nothing is consumed, and every output is a claim that takes effect now or later.
  abbrev pub IsClaim : (height : ℕ) → (inputs evicted outputs : List DynamicallyTypedData) → Type 0
  IsClaim height inputs evicted outputs =
      (claims : List ClaimData) × (inputs ≡ [])
      × (evicted ≡ [])
      × Claims outputs claims
      × All (λ (c : ClaimData). height ≤ c.effective_height) claims

  -- Claims disappear.
  abbrev pub IsRevocation : (inputs evicted outputs : List DynamicallyTypedData) → Type 0
  IsRevocation inputs evicted outputs =
      (claims : List ClaimData) × (evicted ≡ []) × (outputs ≡ []) × Claims inputs claims

  -- The first peek is a claim that beats every claim that is evicted.
  abbrev pub IsDispute : (inputs evicted peeks outputs : List DynamicallyTypedData) → Type 0
  IsDispute inputs evicted peeks outputs =
      (first : DynamicallyTypedData) × (more : List DynamicallyTypedData) × (winner : ClaimData)
      × (losers : List ClaimData) × (inputs ≡ [])
      × (outputs ≡ [])
      × (peeks ≡ first ∷ more)
      × (extract (claim_data codec) first ≡ ok winner)
      × Claims evicted losers
      × All (Beats winner) losers

  -- A claim is accepted exactly if it has neither inputs nor evictions and its outputs are claims
  -- whose effective height is not below the block height; the priority is zero.
  pub check_claim_iff :
      (height : ℕ) (inputs evicted peeks outputs : List DynamicallyTypedData) (priority : ℕ)
      → (check_claim codec height inputs evicted peeks outputs ≡ ok priority)
        ↔ ((priority ≡ 0) × IsClaim height inputs evicted outputs)
  unfolding check_claim
  check_claim_iff height inputs evicted peeks outputs priority =
      let loop =
        for_each-Typed_iff (claim_data codec) PoeError.badly_typed_output (claim_test height)
          outputs in
      (
        λ h.
            let (e1, h1) = ensure-eq-ok (is_empty inputs) _ _ h in
            let (e2, h2) = ensure-eq-ok (is_empty evicted) _ _ h1 in
            let (one, e3, h3) = >>=-eq-ok (for_each _ outputs) _ h2 in
            let (claims, holds, all) = loop.0 e3 in
            (
              sym (ok_injective h3),
              (
                claims,
                is_empty_iff _ e1,
                is_empty_iff _ e2,
                holds,
                All-imp (λ c. (claim_test_iff height c).0) claims all,
              ),
            ),
        λ (p, (claims, e1, e2, holds, all)). rw (
          e1,
          e2,
          loop.1 (claims, holds, All-imp (λ c. (claim_test_iff height c).1) claims all),
          p,
        ),
      )

  -- The revocation checker accepts a transaction exactly if it has neither evictions nor outputs
  -- and its inputs are claims; the priority is zero.
  pub check_revoke_iff :
      (inputs evicted peeks outputs : List DynamicallyTypedData) (priority : ℕ)
      → (check_revoke codec inputs evicted peeks outputs ≡ ok priority)
        ↔ ((priority ≡ 0) × IsRevocation inputs evicted outputs)
  unfolding check_revoke
  check_revoke_iff inputs evicted peeks outputs priority =
      let loop =
        for_each-Typed_iff (claim_data codec) PoeError.badly_typed_input (λ (c : ClaimData). ok tt)
          inputs in
      (
        λ h.
            let (e1, h1) = ensure-eq-ok (is_empty evicted) _ _ h in
            let (e2, h2) = ensure-eq-ok (is_empty outputs) _ _ h1 in
            let (one, e3, h3) = >>=-eq-ok (for_each _ inputs) _ h2 in
            let (claims, holds, all) = loop.0 e3 in
            (sym (ok_injective h3), (claims, is_empty_iff _ e1, is_empty_iff _ e2, holds)),
        λ (p, (claims, e1, e2, holds)). rw (e1, e2, loop.1 (claims, holds, All-ok claims), p),
      )

  -- A dispute is accepted exactly if it has neither inputs nor outputs, its first peek is a claim,
  -- and everything it evicts is a claim on the same hash with a strictly greater effective height;
  -- the priority is zero.
  pub check_dispute_iff :
      (inputs evicted peeks outputs : List DynamicallyTypedData) (priority : ℕ)
      → (check_dispute codec inputs evicted peeks outputs ≡ ok priority)
        ↔ ((priority ≡ 0) × IsDispute inputs evicted peeks outputs)
  unfolding check_dispute
  check_dispute_iff inputs evicted peeks outputs priority =
      let u = claim_data codec in
      let loop = λ (winner : ClaimData).
        for_each-Typed_iff u PoeError.badly_typed_input (dispute_test winner) evicted in
      (
        λ h.
            let (e1, h1) = ensure-eq-ok (is_empty inputs) _ _ h in
            let (e2, h2) = ensure-eq-ok (is_empty outputs) _ _ h1 in
            let (first, e3, h3) = >>=-eq-ok (ok_or (get_elem? peeks 0) _) _ h2 in
            let (winner, e4, h4) = >>=-eq-ok (extract_or u _ first) _ h3 in
            let (one, e5, h5) = >>=-eq-ok (for_each _ evicted) _ h4 in
            let (losers, holds, all) = (loop winner).0 e5 in
            let (more, e6) = some_first peeks first e3 in
            (
              sym (ok_injective h5),
              (
                first,
                more,
                winner,
                losers,
                is_empty_iff _ e1,
                is_empty_iff _ e2,
                e6,
                (extract_or_iff u _ first winner).0 e4,
                holds,
                All-imp (λ l. (dispute_test_iff winner l).0) losers all,
              ),
            ),
        λ (p, (first, more, winner, losers, e1, e2, e3, e4, holds, all)). rw (
          e1,
          e2,
          e3,
          (extract_or_iff u PoeError.badly_typed_input first winner).1 e4,
          (loop winner).1 (losers, holds, All-imp (λ l. (dispute_test_iff winner l).1) losers all),
          p,
        ),
      )

  beaten :
      (a b : DynamicallyTypedData) (more : List DynamicallyTypedData) (p : ℕ)
      → check_dispute codec [] (b ∷ []) (a ∷ more) [] ≡ ok p
      → (w l : ClaimData) × (extract (claim_data codec) a ≡ ok w)
        × (extract (claim_data codec) b ≡ ok l)
        × Beats w l
  beaten a b more p h =
      let (e, (first, rest, w, losers, e1, e2, e3, e4, holds, all)) =
        (check_dispute_iff [] (b ∷ []) (a ∷ more) [] p).0 h in
      let (l, ls, e5, here, none_left) = first-Typed (claim_data codec) b [] losers holds in
      (w, l, rw (first_of_cons e3) e4, here, (subst (All (Beats w)) e5 all).0)

  -- If a dispute evicts one datum on the strength of another, no dispute evicts the latter on the
  -- strength of the former.
  check_dispute_asymmetric :
      (a b : DynamicallyTypedData) (more more' : List DynamicallyTypedData) (p q : ℕ)
      → check_dispute codec [] (b ∷ []) (a ∷ more) [] ≡ ok p
      → check_dispute codec [] (a ∷ []) (b ∷ more') [] ≢ ok q
  check_dispute_asymmetric a b more more' p q h k =
      let (w, l, e1, e2, beats) = beaten a b more p h in
      let (w', l', f1, f2, beats') = beaten b a more' q k in omega (arith, same e1 f2, same e2 f1)
