-- ===== src/Money/Minting.antt =====
-- What a mint may do (wardrobe/money/src/lib.rs).
use tuxedo.Base.{
  ℕ, ◌<◌, ◌≡◌, ◌≢◌, ◌↔◌, refl, List, [], ◌∷◌, arith, sym, subst, All, ok, err, is_empty, not, ltb,
  if◌then◌else◌, >>=-eq-ok, ensure-eq-ok, ok_injective, is_empty_iff, Bool-cases, inl, inr,
}
use tuxedo.Codec.{Codec}
use tuxedo.DynamicTyping.{DynamicallyTypedData}
use tuxedo.DynamicTyping.Laws.{extract-into_dynamic}
use tuxedo.Executive.Validation.{payloads}
use tuxedo.Money.{
  Coin, coin_data, MoneyConstraintChecker, MoneyError, mint, extract_value, check_minted,
  check_mint, check_money,
}
use tuxedo.Money.Spending.{not_empty}
use tuxedo.Money.Spending.Totals.{HoldCoins, extract_value_iff, pos_true, first_value}

module _ (codec : Codec Coin) (id : ℕ) where
  -- Nothing is consumed, something is created, and all that is created are coins worth something.
  pub record IsMint (inputs evicted outputs : List DynamicallyTypedData) (priority : ℕ)
      : Type 0 where
    pub nothing_evicted : evicted ≡ []
    pub nothing_consumed : inputs ≡ []
    pub something_created : outputs ≢ []
    pub created : List ℕ
    pub outputs_hold : HoldCoins codec id outputs created
    pub created_positive : All (λ (v : ℕ). 0 < v) created
    pub no_priority : priority ≡ 0

  check_minted_iff :
      (ds : List DynamicallyTypedData)
      → (check_minted codec id ds ≡ ok tt)
        ↔ ((vs : List ℕ) × HoldCoins codec id ds vs × All (λ (v : ℕ). 0 < v) vs)
  unfolding check_minted
  check_minted_iff [] = (λ h. ([], tt, tt), λ p. refl)
  check_minted_iff (d ∷ ds) = (
    λ h.
        let (v, e1, h1) = >>=-eq-ok (extract_value codec id d) _ h in
        let (pos, h2) = ensure-eq-ok (ltb 0 v) _ _ h1 in
        let (vs, holds, all) = (check_minted_iff ds).0 h2 in
        (v ∷ vs, ((extract_value_iff codec id d v).0 e1, holds), (ground arith, all)),
    λ p.
        let (v, ws, e, here, rest) = first_value codec id d ds p.0 p.1 in
        let (pos, all) = subst (All (λ (w : ℕ). 0 < w)) e p.2 in
        rw (here, pos_true v pos) ((check_minted_iff ds).1 (ws, rest, all)),
  )

  -- A mint is accepted exactly if nothing is consumed or evicted, something is created, and all
  -- created data are coins of a positive value; the priority is zero.
  pub check_money-IsMint_iff :
      (inputs evicted peeks outputs : List DynamicallyTypedData) (priority : ℕ)
      → (check_money codec id MoneyConstraintChecker.mint_coins inputs evicted peeks outputs
          ≡ ok priority)
        ↔ IsMint inputs evicted outputs priority
  unfolding check_money check_mint
  check_money-IsMint_iff inputs evicted peeks outputs priority = (
    λ h.
        let (e1, h1) = ensure-eq-ok (is_empty evicted) _ _ h in
        let (e2, h2) = ensure-eq-ok (is_empty inputs) _ _ h1 in
        let (e3, h3) = ensure-eq-ok (not (is_empty outputs)) _ _ h2 in
        let (u, e4, h4) = >>=-eq-ok (check_minted codec id outputs) _ h3 in
        let (created, holds, all) = (check_minted_iff outputs).0 e4 in
        record {
          nothing_evicted = is_empty_iff _ e1;
          nothing_consumed = is_empty_iff _ e2;
          something_created = λ e. ground arith;
          created = created;
          outputs_hold = holds;
          created_positive = all;
          no_priority = sym (ok_injective h4);
        },
    λ x. rw (
      x.nothing_evicted,
      x.nothing_consumed,
      not_empty outputs x.something_created,
      (check_minted_iff outputs).1 (x.created, x.outputs_hold, x.created_positive),
      x.no_priority,
    ),
  )

  -- The transaction that Coin::mint makes is accepted by the checker with priority zero, and
  -- refused as a zero value coin if it mints nothing.
  check_money-mint :
      {V W : Type 0} (into_verifier : V → W) (amt : ℕ) (v : V)
      → (let tx = mint codec id into_verifier (λ (c : MoneyConstraintChecker). c) amt v in
          check_money codec id tx.checker [] [] [] (payloads tx.outputs))
        ≡ (if ltb 0 amt then ok 0 else err MoneyError.zero_value_coin)
  unfolding check_money check_mint check_minted mint payloads
  check_money-mint into_verifier amt v =
      let here =
        (extract_value_iff codec id _ amt).1
          (extract-into_dynamic (coin_data codec id) (record { value = amt })) in
      elim (Bool-cases (ltb 0 amt)) [ inl e ↦ rw (here, e) | inr e ↦ rw (here, e) ]
