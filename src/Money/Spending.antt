-- ===== src/Money/Spending.antt =====
-- What a spend may do (wardrobe/money/src/lib.rs).
pub mod Totals
use tuxedo.Base.{
  ℕ, ◌+◌, ◌-◌, ◌^◌, ◌%◌, ◌<◌, ◌≤◌, ◌≡◌, ◌≢◌, ◌↔◌, refl, List, [], ◌∷◌, sym, ap₂, ◌∙◌, true, arith,
  sum, All, ok, min, is_empty, not, leb, ltb, >>=-eq-ok, ensure-eq-ok, ok_injective, is_empty_iff,
  if◌then◌else◌,
}
use tuxedo.Codec.{Codec}
use tuxedo.DynamicTyping.{DynamicallyTypedData}
use tuxedo.Money.{
  Coin, MoneyConstraintChecker, u64_max, add_inputs, add_outputs, check_spend, check_money,
  priority_of,
}
use Totals.{HoldCoins, add_inputs_iff, add_outputs_iff}

priority_of-min : (burned : ℕ) → priority_of burned ≡ min burned u64_max
unfolding priority_of
priority_of-min burned = ground arith

drop_zero : {t s : ℕ} → t ≡ 0 + s → t ≡ s
drop_zero h = omega arith

pub not_empty {ℓ} : {A : Type ℓ} (xs : List A) → xs ≢ [] → not (is_empty xs) ≡ true
not_empty [] n = absurd (n refl)
not_empty (x ∷ xs) n = refl

leb-true : (a b : ℕ) → a ≤ b → leb a b ≡ true
leb-true a b h = ground arith

module _ (codec : Codec Coin) (id : ℕ) where
  -- Some coins are consumed, all data are coins, the created ones are worth something, and together
  -- not more than the consumed ones; the priority is what is burned, up to the greatest `u64`.
  pub record IsSpend (inputs evicted outputs : List DynamicallyTypedData) (priority : ℕ)
      : Type 0 where
    pub nothing_evicted : evicted ≡ []
    pub something_consumed : inputs ≢ []
    pub consumed : List ℕ
    pub created : List ℕ
    pub inputs_hold : HoldCoins codec id inputs consumed
    pub outputs_hold : HoldCoins codec id outputs created
    pub no_overflow : sum consumed < 2 ^ 128
    pub created_positive : All (λ (v : ℕ). 0 < v) created
    pub not_more : sum created ≤ sum consumed
    pub burned : priority ≡ min (sum consumed - sum created) u64_max

  -- A spend is accepted exactly if nothing is evicted, something is consumed, all data are coins,
  -- the consumed sum is below 2 ^ 128, the created coins are positive and not worth more than the
  -- consumed ones; the priority is what is burned, capped at the greatest u64.
  pub check_money_spend_iff :
      (inputs evicted peeks outputs : List DynamicallyTypedData) (priority : ℕ)
      → (check_money codec id MoneyConstraintChecker.spend inputs evicted peeks outputs
          ≡ ok priority)
        ↔ IsSpend inputs evicted outputs priority
  unfolding check_money check_spend
  check_money_spend_iff inputs evicted peeks outputs priority = (
    λ h.
        let (e1, h1) = ensure-eq-ok (is_empty evicted) _ _ h in
        let (e2, h2) = ensure-eq-ok (not (is_empty inputs)) _ _ h1 in
        let (total_in, e3, h3) = >>=-eq-ok (add_inputs codec id 0 inputs) _ h2 in
        let (total_out, e4, h4) = >>=-eq-ok (add_outputs codec id 0 outputs) _ h3 in
        let (e5, h5) = ensure-eq-ok (leb total_out total_in) _ _ h4 in
        let (consumed, a1, a2, a3) =
          (add_inputs_iff codec id 0 inputs total_in (omega arith)).0 e3 in
        let (created, b1, b2, b3, b4) =
          (add_outputs_iff codec id 0 outputs total_out (omega arith)).0 e4 in
        record {
          nothing_evicted = is_empty_iff _ e1;
          something_consumed = λ e. ground arith;
          consumed = consumed;
          created = created;
          inputs_hold = a1;
          outputs_hold = b1;
          no_overflow = omega arith;
          created_positive = b4;
          not_more = ground arith;
          burned =
              sym (ok_injective h5)
              ∙ priority_of-min _
              ∙ ap₂ (λ (a : ℕ) (b : ℕ). min (a - b) u64_max) (drop_zero a2) (drop_zero b2);
        },
    λ x.
        let total_in =
          (add_inputs_iff codec id 0 inputs (sum x.consumed) (omega arith)).1
            (x.consumed, x.inputs_hold, omega arith, omega arith) in
        let total_out =
          (add_outputs_iff codec id 0 outputs (sum x.created) (omega arith)).1
            (x.created, x.outputs_hold, omega arith, omega arith, x.created_positive) in
        rw (
          x.nothing_evicted,
          not_empty inputs x.something_consumed,
          total_in,
          total_out,
          leb-true (sum x.created) (sum x.consumed) x.not_more,
          priority_of-min (sum x.consumed - sum x.created),
          x.burned,
        ),
  )
