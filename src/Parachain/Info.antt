-- ===== src/Parachain/Info.antt =====
-- What `SetParachainInfo` (wardrobe/parachain/src/lib.rs) accepts and writes.
use tuxedo.Base.{
  ℕ, ltb, ◌<◌, ◌≡◌, ◌↔◌, refl, sym, ap, ◌∙◌, true, List, [], ◌∷◌, arith, length, is_empty,
  is_empty_iff, ◌==◌, not, Option, some, Outcome, ok, err, panic, >>=-eq-ok, ensure-eq-ok,
  ok_injective, Outcome-cases, inl, inr,
}
use tuxedo.DynamicTyping.{
  DynamicallyTypedData, UtxoData, datum_at, extract, extract_or, into_dynamic,
}
use tuxedo.DynamicTyping.Laws.{extract-into_dynamic}
use tuxedo.DynamicTyping.Typed.{Typed, one-Typed, of_one-Typed}
use tuxedo.Types.{eviction, Transaction}
use tuxedo.Executive.Validation.{payloads}
use tuxedo.Parachain.{
  ParachainError, SetParachainInfo, check_previous, current_info, check_parachain_info,
  create_inherent,
}

not_ok : {e : ParachainError} {p : ℕ} → ◌≡◌ {A = Outcome ParachainError ℕ} (err e) (ok p) → ⊥
not_ok h = cc

not_ok' : {p : ℕ} → ◌≡◌ {A = Outcome ParachainError ℕ} panic (ok p) → ⊥
not_ok' h = cc

ltb-true : (a b : ℕ) → a < b → ltb a b ≡ true
ltb-true a b h = ground arith

module _ {S P : Type 0} (info_data : UtxoData P) (relay_parent_number : P → ℕ)
    (set_relay_parent : S → ℕ → S) where
  -- One piece of information is evicted for one with a greater relay parent number, which is
  -- written to the storage.
  abbrev pub IsNewInfo : S → S → (inputs evicted outputs : List DynamicallyTypedData) → Type 0
  IsNewInfo s t inputs evicted outputs =
      (previous current : P) × (inputs ≡ [])
      × Typed info_data evicted (previous ∷ [])
      × Typed info_data outputs (current ∷ [])
      × (relay_parent_number previous < relay_parent_number current)
      × (t ≡ set_relay_parent s (relay_parent_number current))

  current_info_iff :
      (outputs : List DynamicallyTypedData) (current : P)
      → (current_info info_data relay_parent_number set_relay_parent outputs ≡ ok current)
        ↔ Typed info_data outputs (current ∷ [])
  unfolding current_info
  current_info_iff outputs current = (
    λ h.
        let (e1, h1) = ensure-eq-ok (not (is_empty outputs)) _ _ h in
        let (e2, h2) = ensure-eq-ok (length outputs == 1) _ _ h1 in
        let (d, e3, h3) = >>=-eq-ok (datum_at outputs 0) _ h2 in
        one-Typed info_data outputs _ d current e2 e3 h3,
    λ o.
        let (d, e, f) = of_one-Typed info_data ParachainError.badly_typed outputs current o in
        rw (e, f),
  )

  check_previous_iff :
      (current : P) (inputs evicted : List DynamicallyTypedData) (priority : ℕ)
      → (check_previous info_data relay_parent_number set_relay_parent current inputs evicted
          ≡ ok priority)
        ↔ ((previous : P) × (priority ≡ 0)
            × (inputs ≡ [])
            × Typed info_data evicted (previous ∷ [])
            × (relay_parent_number previous < relay_parent_number current))
  unfolding check_previous
  check_previous_iff current inputs evicted priority = (
    λ h.
        let (e1, h1) = ensure-eq-ok (is_empty inputs) _ _ h in
        let (e2, h2) = ensure-eq-ok (not (is_empty evicted)) _ _ h1 in
        let (e3, h3) = ensure-eq-ok (length evicted == 1) _ _ h2 in
        let (d, e4, h4) = >>=-eq-ok (datum_at evicted 0) _ h3 in
        let (previous, e5, h5) = >>=-eq-ok (extract_or info_data _ d) _ h4 in
        let (e6, h6) = ensure-eq-ok (ltb _ _) _ _ h5 in
        (
          previous,
          sym (ok_injective h6),
          is_empty_iff _ e1,
          one-Typed info_data evicted _ d previous e3 e4 e5,
          ground arith,
        ),
    λ (previous, p, e, i, less).
        let (d, e1, f1) = of_one-Typed info_data ParachainError.badly_typed evicted previous i in
        rw (e, e1, f1, ltb-true _ _ less, p),
  )

  -- Parachain information is accepted exactly if the only output is information, there are no
  -- inputs, and the only eviction is information with a smaller relay parent number; the priority
  -- is zero and the output's number is then written.
  pub check_parachain_info_iff :
      (s t : S) (inputs evicted peeks outputs : List DynamicallyTypedData) (priority : ℕ)
      → (check_parachain_info info_data relay_parent_number set_relay_parent s inputs evicted peeks
            outputs
          ≡ (ok priority, t))
        ↔ ((priority ≡ 0) × IsNewInfo s t inputs evicted outputs)
  unfolding check_parachain_info
  check_parachain_info_iff s t inputs evicted peeks outputs priority =
      let number = relay_parent_number in
      let reading = current_info info_data number set_relay_parent outputs in
      (
        λ h. elim (Outcome-cases reading) [
          | inl (current, e) ↦
              let r : _ ≡ _ = rw (e, check_parachain_info) at h in
              let (previous, p, e1, i, less) =
                (check_previous_iff current inputs evicted priority).0 (ap (λ x. x.0) r) in
              (
                p,
                (
                  previous,
                  current,
                  e1,
                  i,
                  (current_info_iff outputs current).0 e,
                  less,
                  sym (ap (λ x. x.1) r),
                ),
              )
          | inr (inl (error, e)) ↦
              absurd (not_ok (ap (λ x. x.0) (rw (e, check_parachain_info) at h)))
          | inr (inr e) ↦ absurd (not_ok' (ap (λ x. x.0) (rw (e, check_parachain_info) at h)))
        ],
        λ (p, (previous, current, e, i, o, less, after)). rw (
          (current_info_iff outputs current).1 o,
          (check_previous_iff current inputs evicted priority).1 (previous, p, e, i, less),
          after,
          check_parachain_info,
        ),
      )

  -- Accepted parachain information is written.
  pub check_parachain_info-writes :
      (s : S) (inputs evicted peeks rest : List DynamicallyTypedData) (d : DynamicallyTypedData)
      (current : P) (priority : ℕ)
      → (check_parachain_info info_data relay_parent_number set_relay_parent s inputs evicted peeks
          (d ∷ rest)).0
        ≡ ok priority
      → extract info_data d ≡ ok current
      → (check_parachain_info info_data relay_parent_number set_relay_parent s inputs evicted peeks
          (d ∷ rest)).1
        ≡ set_relay_parent s (relay_parent_number current)
  check_parachain_info-writes s inputs evicted peeks rest d current priority h e =
      let r =
        check_parachain_info info_data relay_parent_number set_relay_parent s inputs evicted peeks
          (d ∷ rest) in
      let (p, (previous, found, e1, i, (o, none_left), less, after)) =
        (check_parachain_info_iff s r.1 inputs evicted peeks (d ∷ rest) priority).0
          (λ k. (h k, r.1)) in
      let same : found ≡ current = ok_injective (sym o ∙ e) in
      after ∙ ap (λ c. set_relay_parent s (relay_parent_number c)) same

  -- The created parachain inherent evicts the previous one's output, and it is accepted when what
  -- it evicts is information with a smaller relay parent number.
  create_inherent-evicts :
      {V D : Type 0} (get_data : D → Option (Option P)) (unspendable : V) (s : S) (d : D)
      (previous_tx : Transaction V SetParachainInfo × ℕ) (datum : DynamicallyTypedData)
      (previous current : P)
      → get_data d ≡ some (some current)
      → extract info_data datum ≡ ok previous
      → relay_parent_number previous < relay_parent_number current
      → (tx : Transaction V SetParachainInfo) × (create_inherent info_data relay_parent_number
            set_relay_parent get_data
            (some unspendable)
            d
            previous_tx
          ≡ ok tx)
        × (tx.inputs
            ≡ record {
              output_ref = record { tx_hash = previous_tx.1; index = 0 };
              redeemer = eviction;
            }
              ∷ [])
        × (check_parachain_info info_data relay_parent_number set_relay_parent s []
              (datum ∷ [])
              []
              (payloads tx.outputs)
            ≡ (ok 0, set_relay_parent s (relay_parent_number current)))
  unfolding create_inherent payloads
  create_inherent-evicts get_data unspendable s d previous_tx datum previous current e held less =
      let tx : Transaction _ SetParachainInfo = record {
        inputs =
            record {
              output_ref = record { tx_hash = previous_tx.1; index = 0 };
              redeemer = eviction;
            }
            ∷ [];
        peeks = [];
        outputs = record { payload = into_dynamic info_data current; verifier = unspendable } ∷ [];
        checker = SetParachainInfo.set_parachain_info;
      } in
      (
        tx,
        rw e,
        refl,
        (check_parachain_info_iff s _ [] (datum ∷ []) [] (payloads tx.outputs) 0).1 (
          refl,
          (
            previous,
            current,
            refl,
            (held, tt),
            (extract-into_dynamic info_data current, tt),
            less,
            refl,
          ),
        ),
      )
