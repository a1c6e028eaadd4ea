-- ===== src/Money/Spending/Totals.antt =====
-- The two loops that add up values (wardrobe/money/src/lib.rs).
use tuxedo.Base.{
  ℕ, ◌+◌, ◌^◌, ◌<◌, ◌≡◌, ◌↔◌, refl, List, [], ◌∷◌, arith, sum, All, ok, ltb, ok_or, some, ap, subst,
  true, >>=-eq-ok, ensure-eq-ok, ok_or-eq-ok,
}
use tuxedo.Codec.{Codec}
use tuxedo.DynamicTyping.{DynamicallyTypedData, extract}
use tuxedo.Money.{
  Coin, MoneyError, coin_data, checked_add_u128, extract_value, add_inputs, add_outputs,
}

pub pos_true : (v : ℕ) → 0 < v → ltb 0 v ≡ true
pos_true v h = ground arith

module _ (codec : Codec Coin) (id : ℕ) where
  -- The data are coins of these values.
  abbrev pub HoldCoins : List DynamicallyTypedData → List ℕ → Type 0
  HoldCoins [] [] = Unit
  HoldCoins [] (v ∷ vs) = ⊥
  HoldCoins (d ∷ ds) [] = ⊥
  HoldCoins (d ∷ ds) (v ∷ vs) =
      (extract (coin_data codec id) d ≡ ok (record { value = v })) × HoldCoins ds vs

  pub extract_value_iff :
      (d : DynamicallyTypedData) (v : ℕ)
      → (extract_value codec id d ≡ ok v)
        ↔ (extract (coin_data codec id) d ≡ ok (record { value = v }))
  unfolding extract_value
  extract_value_iff d v = (λ h. ground arith, λ h. rw h)

  checked_add-eq-some :
      (a b : ℕ) {t : ℕ} → checked_add_u128 a b ≡ some t → (t ≡ a + b) × (a + b < 2 ^ 128)
  checked_add-eq-some a b h = ground arith

  checked_add-fits : (a b : ℕ) → a + b < 2 ^ 128 → checked_add_u128 a b ≡ some (a + b)
  checked_add-fits a b h = ground arith

  -- The value of the first coin, taken from the list.
  pub first_value :
      (d : DynamicallyTypedData) (ds : List DynamicallyTypedData) (vs : List ℕ)
      → HoldCoins (d ∷ ds) vs
      → (v : ℕ) × (ws : List ℕ) × (vs ≡ v ∷ ws)
        × (extract_value codec id d ≡ ok v)
        × HoldCoins ds ws
  first_value d ds [] h = absurd h
  first_value d ds (v ∷ ws) h = (v, ws, refl, (extract_value_iff d v).1 h.0, h.1)

  no_values : (vs : List ℕ) → HoldCoins [] vs → vs ≡ []
  no_values [] h = refl
  no_values (v ∷ vs) h = absurd h

  pub add_inputs_iff :
      (total : ℕ) (ds : List DynamicallyTypedData) (t : ℕ)
      → total < 2 ^ 128
      → (add_inputs codec id total ds ≡ ok t)
        ↔ ((vs : List ℕ) × HoldCoins ds vs × (t ≡ total + sum vs) × (total + sum vs < 2 ^ 128))
  unfolding add_inputs
  add_inputs_iff total [] t l = (
    λ h. ([], tt, ground arith, omega arith),
    λ p. let e = ap sum (no_values p.0 p.1) in ground arith,
  )
  add_inputs_iff total (d ∷ ds) t l = (
    λ h.
        let (v, e1, h1) = >>=-eq-ok (extract_value codec id d) _ h in
        let (more, e2, h2) =
          >>=-eq-ok (ok_or (checked_add_u128 total v) MoneyError.value_overflow) _ h1 in
        let (e3, fits) = checked_add-eq-some total v (ok_or-eq-ok _ _ e2) in
        let (vs, holds, e4, bound) = (add_inputs_iff more ds t (omega arith)).0 h2 in
        (v ∷ vs, ((extract_value_iff d v).0 e1, holds), omega arith, omega arith),
    λ p.
        let (v, ws, e, here, rest) = first_value d ds p.0 p.1 in
        let e' = ap sum e in
        let more : add_inputs codec id (total + v) ds ≡ ok t =
          (add_inputs_iff (total + v) ds t (omega arith)).1 (ws, rest, omega arith, omega arith) in
        rw (here, checked_add-fits total v (omega arith)) more,
  )

  pub add_outputs_iff :
      (total : ℕ) (ds : List DynamicallyTypedData) (t : ℕ)
      → total < 2 ^ 128
      → (add_outputs codec id total ds ≡ ok t) ↔ (
          (vs : List ℕ) × HoldCoins ds vs
          × (t ≡ total + sum vs)
          × (total + sum vs < 2 ^ 128)
          × All (λ (v : ℕ). 0 < v) vs)
  unfolding add_outputs
  add_outputs_iff total [] t l = (
    λ h. ([], tt, ground arith, omega arith, tt),
    λ p. let e = ap sum (no_values p.0 p.1) in ground arith,
  )
  add_outputs_iff total (d ∷ ds) t l = (
    λ h.
        let (v, e1, h1) = >>=-eq-ok (extract_value codec id d) _ h in
        let (pos, h2) = ensure-eq-ok (ltb 0 v) _ _ h1 in
        let (more, e2, h3) =
          >>=-eq-ok (ok_or (checked_add_u128 total v) MoneyError.value_overflow) _ h2 in
        let (e3, fits) = checked_add-eq-some total v (ok_or-eq-ok _ _ e2) in
        let (vs, holds, e4, bound, all) = (add_outputs_iff more ds t (omega arith)).0 h3 in
        (
          v ∷ vs,
          ((extract_value_iff d v).0 e1, holds),
          omega arith,
          omega arith,
          (ground arith, all),
        ),
    λ p.
        let (v, ws, e, here, rest) = first_value d ds p.0 p.1 in
        let e' = ap sum e in
        let (pos, all) = subst (All (λ (w : ℕ). 0 < w)) e p.4 in
        let more : add_outputs codec id (total + v) ds ≡ ok t =
          (add_outputs_iff (total + v) ds t (omega arith)).1
            (ws, rest, omega arith, omega arith, all) in
        rw (here, pos_true v pos, checked_add-fits total v (omega arith)) more,
  )
