-- ===== src/Base/Sets.antt =====
-- `BTreeSet` collected from a list: its members without repetition, in some order.
use mathlib.Core.Path.{◌≡◌, refl, sym, ap, subst, ◌∙◌}
use mathlib.Core.Logic.{◌↔◌, ◌≢◌, inl, inr}
use mathlib.Core.Bool.{Bool, true, false, ◌||◌}
use mathlib.Core.List.{List, [], ◌∷◌}
use Prim.Native.Nat.{◌≤◌, suc}
use native.Mathlib.Omega.{arith}
use tuxedo.Base.Tests.{if◌then◌else◌, Bool-cases}
use tuxedo.Base.Lists.{length, All}

-- No element stands twice.
abbrev pub Distinct {ℓ} : {A : Type ℓ} → List A → Type ℓ
Distinct [] = Unit
Distinct (x ∷ xs) = All (λ y. x ≢ y) xs × Distinct xs

module _ {ℓ} {A : Type ℓ} (eq : A → A → Bool) where
  unfoldable pub is_member : A → List A → Bool
  is_member x [] = false
  is_member x (y ∷ ys) = eq x y || is_member x ys

  unfoldable pub set_of : List A → List A
  unfolding is_member
  set_of [] = []
  set_of (x ∷ xs) = let rest = set_of xs in if is_member x rest then rest else x ∷ rest

  pub length-set_of : (xs : List A) → length (set_of xs) ≤ length xs
  unfolding set_of
  length-set_of [] = omega arith
  length-set_of (x ∷ xs) = ground (arith, length-set_of xs)

module _ {ℓ} {A : Type ℓ} (eq : A → A → Bool) (eq_iff : (a b : A) → (eq a b ≡ true) ↔ (a ≡ b)) where
  not_member_iff : (x : A) (xs : List A) → (is_member eq x xs ≡ false) ↔ All (λ y. x ≢ y) xs
  unfolding is_member
  not_member_iff x [] = (λ h. tt, λ h. refl)
  not_member_iff x (y ∷ ys) = (
    λ h. elim (Bool-cases (eq x y)) [
      | inl e ↦ ground arith
      | inr n ↦ (λ e. cc (n, (eq_iff x y).1 e), (not_member_iff x ys).0 (ground arith))
    ],
    λ h. elim (Bool-cases (eq x y)) [
      | inl e ↦ absurd (h.0 ((eq_iff x y).0 e))
      | inr n ↦ rw n ((not_member_iff x ys).1 h.1)
    ],
  )

  member-set_of : (x : A) (xs : List A) → is_member eq x (set_of eq xs) ≡ is_member eq x xs
  unfolding is_member set_of
  member-set_of x [] = refl
  member-set_of x (y ∷ ys) = elim (Bool-cases (is_member eq y (set_of eq ys))) [
    | inl m ↦ rw m (elim (Bool-cases (eq x y)) [
      | inl e ↦
          let same : x ≡ y = (eq_iff x y).0 e in
          rw e (
            member-set_of x ys
            ∙ subst (λ z. is_member eq z ys ≡ true) (sym same) (sym (member-set_of y ys) ∙ m))
      | inr n ↦ rw n (member-set_of x ys)
    ])
    | inr n ↦ rw n (ap (λ b. eq x y || b) (member-set_of x ys))
  ]

  -- The set is as long as the list exactly when nothing is repeated.
  pub length-set_of_iff : (xs : List A) → (length (set_of eq xs) ≡ length xs) ↔ Distinct xs
  unfolding set_of
  length-set_of_iff [] = (λ h. tt, λ h. refl)
  length-set_of_iff (x ∷ xs) =
      let ih = length-set_of_iff xs in
      elim (Bool-cases (is_member eq x (set_of eq xs))) [
        | inl m ↦ rw m (
          λ h. absurd (omega (arith, length-set_of eq xs)),
          λ d. cc (m, member-set_of x xs, (not_member_iff x xs).1 d.0),
        )
        | inr n ↦ rw n (
          λ h. ((not_member_iff x xs).0 (sym (member-set_of x xs) ∙ n), ih.0 (omega arith)),
          λ d. ap suc (ih.1 d.1),
        )
      ]
