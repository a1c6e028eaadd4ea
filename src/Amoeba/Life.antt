-- ===== src/Amoeba/Life.antt =====
-- What the three amoeba checkers (wardrobe/amoeba/src/lib.rs) accept.
use tuxedo.Base.{
  ℕ, ◌≡◌, ◌↔◌, sym, List, [], ◌∷◌, length, is_empty, not, ◌==◌, ==_iff, ok, >>=-eq-ok, ensure-eq-ok,
  is_empty_iff, ok_injective,
}
use tuxedo.Codec.{Codec}
use tuxedo.DynamicTyping.{DynamicallyTypedData, datum_at, extract_or}
use tuxedo.DynamicTyping.Typed.{Typed, one-Typed, of_one-Typed, two-Typed, of_two-Typed}
use tuxedo.Amoeba.{
  AmoebaDetails, AmoebaError, amoeba_data, next_generation, check_mitosis, check_death,
  check_creation,
}

module _ (codec : Codec AmoebaDetails) where
  abbrev pub Amoebas : List DynamicallyTypedData → List AmoebaDetails → Type 0
  Amoebas = Typed (amoeba_data codec)

  -- One mother is replaced by two daughters of the next generation.
  abbrev pub IsMitosis : (inputs evicted outputs : List DynamicallyTypedData) → Type 0
  IsMitosis inputs evicted outputs =
      (mother first second : AmoebaDetails) × (evicted ≡ [])
      × Amoebas inputs (mother ∷ [])
      × Amoebas outputs (first ∷ second ∷ [])
      × (first.generation ≡ next_generation mother.generation)
      × (second.generation ≡ next_generation mother.generation)

  -- One amoeba disappears.
  abbrev pub IsDeath : (inputs evicted outputs : List DynamicallyTypedData) → Type 0
  IsDeath inputs evicted outputs =
      (victim : AmoebaDetails) × (evicted ≡ []) × Amoebas inputs (victim ∷ []) × (outputs ≡ [])

  -- One amoeba of generation zero appears.
  abbrev pub IsCreation : (inputs evicted outputs : List DynamicallyTypedData) → Type 0
  IsCreation inputs evicted outputs =
      (eve : AmoebaDetails) × (evicted ≡ [])
      × (inputs ≡ [])
      × Amoebas outputs (eve ∷ [])
      × (eve.generation ≡ 0)

  -- Mitosis is accepted exactly if nothing is evicted, the input is one amoeba and the outputs are
  -- two amoebas whose generation is one more than the mother's modulo 2 ^ 32; the priority is zero.
  pub check_mitosis_iff :
      (inputs evicted peeks outputs : List DynamicallyTypedData) (priority : ℕ)
      → (check_mitosis codec inputs evicted peeks outputs ≡ ok priority)
        ↔ ((priority ≡ 0) × IsMitosis inputs evicted outputs)
  unfolding check_mitosis
  check_mitosis_iff inputs evicted peeks outputs priority = (
    λ h.
        let u = amoeba_data codec in
        let (e1, h1) = ensure-eq-ok (is_empty evicted) _ _ h in
        let (e2, h2) = ensure-eq-ok (length inputs == 1) _ _ h1 in
        let (d, e3, h3) = >>=-eq-ok (datum_at inputs 0) _ h2 in
        let (mother, e4, h4) = >>=-eq-ok (extract_or u _ d) _ h3 in
        let (e5, h5) = ensure-eq-ok (length outputs == 2) _ _ h4 in
        let (a, e6, h6) = >>=-eq-ok (datum_at outputs 0) _ h5 in
        let (first, e7, h7) = >>=-eq-ok (extract_or u _ a) _ h6 in
        let (b, e8, h8) = >>=-eq-ok (datum_at outputs 1) _ h7 in
        let (second, e9, h9) = >>=-eq-ok (extract_or u _ b) _ h8 in
        let (g1, k1) = ensure-eq-ok (first.generation == _) _ _ h9 in
        let (g2, k2) = ensure-eq-ok (second.generation == _) _ _ k1 in
        (
          sym (ok_injective k2),
          (
            mother,
            first,
            second,
            is_empty_iff _ e1,
            one-Typed u inputs _ d mother e2 e3 e4,
            two-Typed u outputs _ a b first second e5 e6 e7 e8 e9,
            (==_iff _ _).0 g1,
            (==_iff _ _).0 g2,
          ),
        ),
    λ (p, (mother, first, second, e, i, o, g1, g2)).
        let u = amoeba_data codec in
        let (d, e1, f1) = of_one-Typed u AmoebaError.badly_typed_input inputs mother i in
        let (a, b, e2, f2, f3) =
          of_two-Typed u AmoebaError.badly_typed_output outputs first second o in
        rw (e, e1, e2, f1, f2, f3, (==_iff _ _).1 g1, (==_iff _ _).1 g2, p),
  )

  -- The death checker accepts a transaction exactly if nothing is evicted, its inputs are one
  -- amoeba and it has no outputs; the priority is zero.
  pub check_death_iff :
      (inputs evicted peeks outputs : List DynamicallyTypedData) (priority : ℕ)
      → (check_death codec inputs evicted peeks outputs ≡ ok priority)
        ↔ ((priority ≡ 0) × IsDeath inputs evicted outputs)
  unfolding check_death
  check_death_iff inputs evicted peeks outputs priority = (
    λ h.
        let u = amoeba_data codec in
        let (e1, h1) = ensure-eq-ok (is_empty evicted) _ _ h in
        let (e2, h2) = ensure-eq-ok (not (is_empty inputs)) _ _ h1 in
        let (e3, h3) = ensure-eq-ok (length inputs == 1) _ _ h2 in
        let (d, e4, h4) = >>=-eq-ok (datum_at inputs 0) _ h3 in
        let (victim, e5, h5) = >>=-eq-ok (extract_or u _ d) _ h4 in
        let (e6, h6) = ensure-eq-ok (is_empty outputs) _ _ h5 in
        (
          sym (ok_injective h6),
          (victim, is_empty_iff _ e1, one-Typed u inputs _ d victim e3 e4 e5, is_empty_iff _ e6),
        ),
    λ (p, (victim, e, i, o)).
        let (d, e1, f1) =
          of_one-Typed (amoeba_data codec) AmoebaError.badly_typed_input inputs victim i in
        rw (e, e1, o, f1, p),
  )

  -- Creation is accepted exactly if nothing is consumed or evicted and the output is one amoeba of
  -- generation zero; the priority is zero.
  pub check_creation_iff :
      (inputs evicted peeks outputs : List DynamicallyTypedData) (priority : ℕ)
      → (check_creation codec inputs evicted peeks outputs ≡ ok priority)
        ↔ ((priority ≡ 0) × IsCreation inputs evicted outputs)
  unfolding check_creation
  check_creation_iff inputs evicted peeks outputs priority = (
    λ h.
        let u = amoeba_data codec in
        let (e1, h1) = ensure-eq-ok (is_empty evicted) _ _ h in
        let (e2, h2) = ensure-eq-ok (not (is_empty outputs)) _ _ h1 in
        let (e3, h3) = ensure-eq-ok (length outputs == 1) _ _ h2 in
        let (d, e4, h4) = >>=-eq-ok (datum_at outputs 0) _ h3 in
        let (eve, e5, h5) = >>=-eq-ok (extract_or u _ d) _ h4 in
        let (e6, h6) = ensure-eq-ok (eve.generation == 0) _ _ h5 in
        let (e7, h7) = ensure-eq-ok (is_empty inputs) _ _ h6 in
        (
          sym (ok_injective h7),
          (
            eve,
            is_empty_iff _ e1,
            is_empty_iff _ e7,
            one-Typed u outputs _ d eve e3 e4 e5,
            (==_iff _ _).0 e6,
          ),
        ),
    λ (p, (eve, e, i, o, g)).
        let (d, e1, f1) =
          of_one-Typed (amoeba_data codec) AmoebaError.badly_typed_output outputs eve o in
        rw (e, i, e1, f1, (==_iff _ _).1 g, p),
  )
