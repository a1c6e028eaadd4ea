-- ===== src/DynamicTyping/Typed.antt =====
-- Slices of data that hold values of one type, for the checks of the pieces.
use tuxedo.Base.{
  ◌≡◌, ◌↔◌, refl, true, List, [], ◌∷◌, subst, arith, length, ◌==◌, Outcome, ok, map_err-eq-ok,
  ok_injective, All, for_each, ◌>>=◌, >>=-eq-ok,
}
use tuxedo.DynamicTyping.{DynamicallyTypedData, UtxoData, extract, extract_or, datum_at}

module _ {T : Type 0} (u : UtxoData T) where
  -- The data hold these values, in this order.
  abbrev pub Typed : List DynamicallyTypedData → List T → Type 0
  Typed [] [] = Unit
  Typed [] (v ∷ vs) = ⊥
  Typed (d ∷ ds) [] = ⊥
  Typed (d ∷ ds) (v ∷ vs) = (extract u d ≡ ok v) × Typed ds vs

  pub extract_or_iff :
      {E : Type 0} (error : E) (d : DynamicallyTypedData) (v : T)
      → (extract_or u error d ≡ ok v) ↔ (extract u d ≡ ok v)
  unfolding extract_or
  extract_or_iff error d v = (λ h. map_err-eq-ok _ (extract u d) h, λ h. rw h)

  -- The data are exactly one, and it holds this value.
  pub one-Typed :
      {E : Type 0} (ds : List DynamicallyTypedData) (error : E) (d : DynamicallyTypedData) (v : T)
      → (length ds == 1) ≡ true
      → datum_at {E = E} ds 0 ≡ ok d
      → extract_or u error d ≡ ok v
      → Typed ds (v ∷ [])
  one-Typed [] error d v n e h = ground arith
  one-Typed (a ∷ []) error d v n e h = (rw (ok_injective e) ((extract_or_iff error d v).0 h), tt)
  one-Typed (a ∷ b ∷ ds) error d v n e h = ground arith

  pub of_one-Typed :
      {E : Type 0} (error : E) (ds : List DynamicallyTypedData) (v : T)
      → Typed ds (v ∷ [])
      → (d : DynamicallyTypedData) × (ds ≡ d ∷ []) × (extract_or u error d ≡ ok v)
  of_one-Typed error [] v h = absurd h
  of_one-Typed error (d ∷ []) v h = (d, refl, (extract_or_iff error d v).1 h.0)
  of_one-Typed error (d ∷ e ∷ ds) v h = absurd h.1

  pub two-Typed :
      {E : Type 0} (ds : List DynamicallyTypedData) (error : E) (d e : DynamicallyTypedData)
      (v w : T)
      → (length ds == 2) ≡ true
      → datum_at {E = E} ds 0 ≡ ok d
      → extract_or u error d ≡ ok v
      → datum_at {E = E} ds 1 ≡ ok e
      → extract_or u error e ≡ ok w
      → Typed ds (v ∷ w ∷ [])
  two-Typed [] error d e v w n i h j k = ground arith
  two-Typed (a ∷ []) error d e v w n i h j k = ground arith
  two-Typed (a ∷ b ∷ []) error d e v w n i h j k = (
    rw (ok_injective i) ((extract_or_iff error d v).0 h),
    (rw (ok_injective j) ((extract_or_iff error e w).0 k), tt),
  )
  two-Typed (a ∷ b ∷ c ∷ ds) error d e v w n i h j k = ground arith

  pub of_two-Typed :
      {E : Type 0} (error : E) (ds : List DynamicallyTypedData) (v w : T)
      → Typed ds (v ∷ w ∷ [])
      → (d e : DynamicallyTypedData) × (ds ≡ d ∷ e ∷ [])
        × (extract_or u error d ≡ ok v)
        × (extract_or u error e ≡ ok w)
  of_two-Typed error [] v w h = absurd h
  of_two-Typed error (d ∷ []) v w h = absurd h.1
  of_two-Typed error (d ∷ e ∷ []) v w h =
      (d, e, refl, (extract_or_iff error d v).1 h.0, (extract_or_iff error e w).1 h.1.0)
  of_two-Typed error (d ∷ e ∷ f ∷ ds) v w h = absurd h.1.1

  pub three-Typed :
      {E : Type 0} (ds : List DynamicallyTypedData) (error : E) (d e f : DynamicallyTypedData)
      (v w x : T)
      → (length ds == 3) ≡ true
      → datum_at {E = E} ds 0 ≡ ok d
      → extract_or u error d ≡ ok v
      → datum_at {E = E} ds 1 ≡ ok e
      → extract_or u error e ≡ ok w
      → datum_at {E = E} ds 2 ≡ ok f
      → extract_or u error f ≡ ok x
      → Typed ds (v ∷ w ∷ x ∷ [])
  three-Typed [] error d e f v w x n i h j k l m = ground arith
  three-Typed (a ∷ []) error d e f v w x n i h j k l m = ground arith
  three-Typed (a ∷ b ∷ []) error d e f v w x n i h j k l m = ground arith
  three-Typed (a ∷ b ∷ c ∷ []) error d e f v w x n i h j k l m = (
    rw (ok_injective i) ((extract_or_iff error d v).0 h),
    (
      rw (ok_injective j) ((extract_or_iff error e w).0 k),
      (rw (ok_injective l) ((extract_or_iff error f x).0 m), tt),
    ),
  )
  three-Typed (a ∷ b ∷ c ∷ c' ∷ ds) error d e f v w x n i h j k l m = ground arith

  pub of_three-Typed :
      {E : Type 0} (error : E) (ds : List DynamicallyTypedData) (v w x : T)
      → Typed ds (v ∷ w ∷ x ∷ [])
      → (d e f : DynamicallyTypedData) × (ds ≡ d ∷ e ∷ f ∷ [])
        × (extract_or u error d ≡ ok v)
        × (extract_or u error e ≡ ok w)
        × (extract_or u error f ≡ ok x)
  of_three-Typed error [] v w x h = absurd h
  of_three-Typed error (d ∷ []) v w x h = absurd h.1
  of_three-Typed error (d ∷ e ∷ []) v w x h = absurd h.1.1
  of_three-Typed error (d ∷ e ∷ f ∷ []) v w x h = (
    d,
    e,
    f,
    refl,
    (extract_or_iff error d v).1 h.0,
    (extract_or_iff error e w).1 h.1.0,
    (extract_or_iff error f x).1 h.1.1.0,
  )
  of_three-Typed error (d ∷ e ∷ f ∷ g ∷ ds) v w x h = absurd h.1.1.1

  pub first-Typed :
      (d : DynamicallyTypedData) (ds : List DynamicallyTypedData) (vs : List T)
      → Typed (d ∷ ds) vs
      → (v : T) × (ws : List T) × (vs ≡ v ∷ ws) × (extract u d ≡ ok v) × Typed ds ws
  first-Typed d ds [] h = absurd h
  first-Typed d ds (v ∷ ws) h = (v, ws, refl, h.0, h.1)

  -- A loop over data that reads each datum at the type and tests its value.
  pub for_each-Typed_iff :
      {E : Type 0} (error : E) (test : T → Outcome E (Unit {0})) (ds : List DynamicallyTypedData)
      → (for_each (λ d. extract_or u error d >>= test) ds ≡ ok tt)
        ↔ ((vs : List T) × Typed ds vs × All (λ v. test v ≡ ok tt) vs)
  unfolding for_each
  for_each-Typed_iff error test [] = (λ h. ([], tt, tt), λ p. refl)
  for_each-Typed_iff error test (d ∷ ds) = (
    λ h.
        let (one, e, h1) = >>=-eq-ok (extract_or u error d >>= test) _ h in
        let (v, e1, t) = >>=-eq-ok (extract_or u error d) _ e in
        let (vs, holds, all) = (for_each-Typed_iff error test ds).0 h1 in
        (v ∷ vs, ((extract_or_iff error d v).0 e1, holds), (t, all)),
    λ p.
        let (v, ws, e, here, rest) = first-Typed d ds p.0 p.1 in
        let (t, all) = subst (All (λ w. test w ≡ ok tt)) e p.2 in
        rw ((extract_or_iff error d v).1 here, t)
          ((for_each-Typed_iff error test ds).1 (ws, rest, all)),
  )
