-- ===== src/Money/Chain.antt =====
-- A chain of money holds nothing but coins that are worth something (wardrobe/money/src/lib.rs
-- under tuxedo-core/src/executive.rs).
use tuxedo.Base.{
  ℕ, zero, suc, ◌<◌, List, [], ◌∷◌, some, ok, some_injective, get_elem?, All, ◌≡◌, sym, ap, ◌∙◌,
}
use tuxedo.Codec.{Codec}
use tuxedo.DynamicTyping.{DynamicallyTypedData, extract}
use tuxedo.Types.{OutputRef, Output}
use tuxedo.Executive.Runtime.{Runtime}
use tuxedo.Executive.Validation.{peek, payloads}
use tuxedo.Executive.Validity.{apply_tuxedo_transaction_iff}
use tuxedo.Executive.History.{Reach, Reach-All}
use tuxedo.Money.{Coin, coin_data, MoneyConstraintChecker, MoneyError, check_money}
use tuxedo.Money.Spending.{check_money_spend_iff}
use tuxedo.Money.Spending.Totals.{HoldCoins}
use tuxedo.Money.Minting.{check_money-IsMint_iff}

module _ (codec : Codec Coin) (id : ℕ) where
  -- An output with a coin that is worth something.
  abbrev pub IsWorth : {V : Type 0} → Output V → Type 0
  IsWorth o =
      (v : ℕ) × (extract (coin_data codec id) o.payload ≡ ok (record { value = v })) × (0 < v)

  held_at :
      {V : Type 0} (os : List (Output V)) (vs : List ℕ) (i : ℕ) (o : Output V)
      → HoldCoins codec id (payloads os) vs
      → All (λ (v : ℕ). 0 < v) vs
      → get_elem? os i ≡ some o
      → IsWorth o
  unfolding payloads
  held_at [] vs i o h p e = cc
  held_at (x ∷ os) [] i o h p e = absurd h
  held_at (x ∷ os) (v ∷ vs) zero o h p e = (
    v,
    ap (λ (y : Output _). extract (coin_data codec id) y.payload) (sym (some_injective e)) ∙ h.0,
    p.0,
  )
  held_at (x ∷ os) (v ∷ vs) (suc i) o h p e = held_at os vs i o h.1 p.1 e

  created-IsWorth :
      {V : Type 0} (c : MoneyConstraintChecker) (inputs evicted peeks : List DynamicallyTypedData)
      (os : List (Output V)) (priority i : ℕ) (o : Output V)
      → check_money codec id c inputs evicted peeks (payloads os) ≡ ok priority
      → get_elem? os i ≡ some o
      → IsWorth o
  created-IsWorth MoneyConstraintChecker.spend inputs evicted peeks os priority i o h e =
      let x = (check_money_spend_iff codec id inputs evicted peeks (payloads os) priority).0 h in
      held_at os x.created i o x.outputs_hold x.created_positive e
  created-IsWorth MoneyConstraintChecker.mint_coins inputs evicted peeks os priority i o h e =
      let x = (check_money-IsMint_iff codec id inputs evicted peeks (payloads os) priority).0 h in
      held_at os x.created i o x.outputs_hold x.created_positive e

  -- In a runtime whose checker is the money piece's, if every output at the start is a coin of a
  -- positive value, so is every output after any sequence of applied transactions of at most 2 ^ 32
  -- outputs.
  pub Reach-IsWorth :
      {S V R : Type 0} (rt : Runtime S V R MoneyConstraintChecker MoneyError)
      → ((s : S) (c : MoneyConstraintChecker) (i e p o : List DynamicallyTypedData)
          → rt.checker.check s c i e p o ≡ check_money codec id c i e p o)
      → {s t : S} → Reach rt s t
      → ((r : OutputRef) (o : Output V) → peek rt s r ≡ some o → IsWorth o)
      → (r : OutputRef) (o : Output V) → peek rt t r ≡ some o
      → IsWorth o
  Reach-IsWorth rt is_money reach first =
      Reach-All rt IsWorth
        (λ u tx v i o ran there.
          let ok_tx = ((apply_tuxedo_transaction_iff rt u v tx).0 ran).0 in
          let (priority, accepted) = ok_tx.constraints in
          created-IsWorth tx.checker _ _ _ tx.outputs priority i o
            (sym (is_money u tx.checker _ _ _ (payloads tx.outputs)) ∙ accepted) there)
        reach first
