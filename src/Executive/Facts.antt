-- ===== src/Executive/Facts.antt =====
-- What each step of `validate_tuxedo_transaction` (tuxedo-core/src/executive.rs) finds out.
use tuxedo.Base.{
  ℕ, zero, suc, ◌+◌, ◌≤◌, ◌<◌, Bytes, true, false, List, [], ◌∷◌, map, Option, none, some, ◌≡◌, ◌≢◌,
  refl, ap, ◌∙◌, ◌↔◌, ◌⊎◌, inl, inr, arith, length, All, Distinct, length-set_of_iff, bytes_eq,
  bytes_eq_iff, Outcome, ok, Option-cases, ok_or, expect, >>=-eq-ok, ensure-eq-ok, ok_or-eq-ok,
  expect-eq-ok,
}
use native.Mathlib.Decide.{ℕ_discrete}
use tuxedo.Codec.{Codec, read, encode_injective}
use tuxedo.DynamicTyping.{DynamicallyTypedData}
use tuxedo.Types.{OutputRef, RedemptionStrategy, redemption, eviction, Input, Output, UtxoError}
use tuxedo.Executive.Runtime.{Runtime}
use tuxedo.Executive.Validation.{
  Gathered, Found, add_found, new_ref, peek, block_height, has_duplicates, redeem, check_input,
  gather_inputs, gather_peeks, check_new_outputs, is_none,
}

All-ne-encode :
    {A : Type 0} (c : Codec A) (x : A) (xs : List A)
    → All (λ y. c.encode x ≢ y) (map c.encode xs) ↔ All (λ y. x ≢ y) xs
All-ne-encode c x [] = (λ h. tt, λ h. tt)
All-ne-encode c x (y ∷ ys) =
    let ih = All-ne-encode c x ys in
    (
      λ h. (λ e. h.0 (ap c.encode e), ih.0 h.1),
      λ h. (λ e. h.0 (encode_injective c x y e), ih.1 h.1),
    )

Distinct-encode :
    {A : Type 0} (c : Codec A) (xs : List A) → Distinct (map c.encode xs) ↔ Distinct xs
Distinct-encode c [] = (λ h. tt, λ h. tt)
Distinct-encode c (x ∷ xs) =
    let here = All-ne-encode c x xs in
    let ih = Distinct-encode c xs in (λ h. (here.0 h.0, ih.0 h.1), λ h. (here.1 h.0, ih.1 h.1))

length-map : {A B : Type 0} (f : A → B) (xs : List A) → length (map f xs) ≡ length xs
length-map f [] = refl
length-map f (x ∷ xs) = ap suc (length-map f xs)

module _ {S V R C E : Type 0} (rt : Runtime S V R C E) where
  pub has_duplicates_iff :
      (inputs : List Input) → (has_duplicates rt inputs ≡ false) ↔ Distinct inputs
  unfolding has_duplicates
  has_duplicates_iff inputs =
      let encoded = map rt.inputs.encode inputs in
      let l = length-map rt.inputs.encode inputs in
      let set = length-set_of_iff bytes_eq bytes_eq_iff encoded in
      let same = Distinct-encode rt.inputs inputs in
      (λ h. same.0 (set.0 (ground arith)), λ d. let e = set.1 (same.1 d) in ground arith)

  -- The redeemer of an input opens the output, or evicts it.
  abbrev pub RedeemerOk : S → Bytes → Output V → RedemptionStrategy → Type 0
  RedeemerOk s stripped utxo (redemption d) =
      (redeemer : R) × (height : ℕ) × (read rt.verifier.redeemer_codec d ≡ some redeemer)
      × (block_height rt s ≡ ok height)
      × (rt.verifier.verify utxo.verifier stripped height redeemer ≡ some true)
  RedeemerOk s stripped utxo eviction = Unit

  abbrev pub InputOk : S → Bytes → Input → Type 0
  InputOk s stripped i =
      (utxo : Output V) × (peek rt s i.output_ref ≡ some utxo)
      × RedeemerOk s stripped utxo i.redeemer

  abbrev pub Present : S → OutputRef → Type 0
  Present s r = (utxo : Output V) × (peek rt s r ≡ some utxo)

  -- The payloads at the given references, of those that are there.
  abbrev payload_at : Option (Output V) → List DynamicallyTypedData → List DynamicallyTypedData
  payload_at none ds = ds
  payload_at (some utxo) ds = utxo.payload ∷ ds

  unfoldable pub payloads_at : S → List OutputRef → List DynamicallyTypedData
  payloads_at s [] = []
  payloads_at s (r ∷ rs) = payload_at (peek rt s r) (payloads_at s rs)

  abbrev keep_redeemed : RedemptionStrategy → OutputRef → List OutputRef → List OutputRef
  keep_redeemed (redemption d) r rs = r ∷ rs
  keep_redeemed eviction r rs = rs

  abbrev keep_evicted : RedemptionStrategy → OutputRef → List OutputRef → List OutputRef
  keep_evicted (redemption d) r rs = rs
  keep_evicted eviction r rs = r ∷ rs

  -- The references of the inputs that are redeemed, and of those that are evicted.
  unfoldable pub redeemed_refs : List Input → List OutputRef
  redeemed_refs [] = []
  redeemed_refs (i ∷ is) = keep_redeemed i.redeemer i.output_ref (redeemed_refs is)

  unfoldable pub evicted_refs : List Input → List OutputRef
  evicted_refs [] = []
  evicted_refs (i ∷ is) = keep_evicted i.redeemer i.output_ref (evicted_refs is)

  redeem-inversion :
      (s : S) (stripped : Bytes) (utxo : Output V) (d : Bytes) (f : Found)
      → redeem rt s stripped utxo d ≡ ok f
      → RedeemerOk s stripped utxo (redemption d) × (f ≡ Found.redeemed utxo.payload)
  unfolding redeem
  redeem-inversion s stripped utxo d f h =
      let (redeemer, e1, h1) = >>=-eq-ok (ok_or (read rt.verifier.redeemer_codec d) _) _ h in
      let (height, e2, h2) = >>=-eq-ok (block_height rt s) _ h1 in
      let (verified, e3, h3) =
        >>=-eq-ok (expect (rt.verifier.verify utxo.verifier stripped height redeemer)) _ h2 in
      let (e4, h4) = ensure-eq-ok verified _ _ h3 in
      (
        (
          redeemer,
          height,
          ok_or-eq-ok _ _ e1,
          e2,
          expect-eq-ok {E = UtxoError E} _ e3 ∙ ap some e4,
        ),
        cc (h4),
      )

  -- Where a present input goes.
  abbrev found_of : Output V → RedemptionStrategy → Found
  found_of utxo (redemption d) = Found.redeemed utxo.payload
  found_of utxo eviction = Found.evicted utxo.payload

  check_input-ok :
      (s : S) (stripped : Bytes) (r : OutputRef) (strategy : RedemptionStrategy) (utxo : Output V)
      → peek rt s r ≡ some utxo
      → RedeemerOk s stripped utxo strategy
      → check_input rt s stripped (record { output_ref = r; redeemer = strategy })
        ≡ ok (found_of utxo strategy)
  unfolding check_input redeem
  check_input-ok s stripped r (redemption d) utxo p (redeemer, height, e1, e2, e3) =
      rw (p, check_input, e1, redeem) (ground arith)
  check_input-ok s stripped r eviction utxo p h = rw (p, check_input)

  check_input-inversion :
      (s : S) (stripped : Bytes) (r : OutputRef) (strategy : RedemptionStrategy) (f : Found)
      → check_input rt s stripped (record { output_ref = r; redeemer = strategy }) ≡ ok f
      → ((utxo : Output V) × (peek rt s r ≡ some utxo)
          × RedeemerOk s stripped utxo strategy
          × (f ≡ found_of utxo strategy))
        ⊎ (f ≡ Found.missing (rt.output_refs.encode r))
  unfolding check_input
  check_input-inversion s stripped r (redemption d) f h = elim (Option-cases (peek rt s r)) [
    | inl e ↦ inr (ground arith)
    | inr (utxo, e) ↦
        let (v, same) = redeem-inversion s stripped utxo d f (rw (e, check_input) at h) in
        inl (utxo, e, v, same)
  ]
  check_input-inversion s stripped r eviction f h = elim (Option-cases (peek rt s r)) [
    | inl e ↦ inr (ground arith)
    | inr (utxo, e) ↦ inl (utxo, e, tt, ground arith)
  ]

  -- What is gathered from inputs that are all there.
  abbrev pub all_gathered : S → List Input → Gathered
  all_gathered s is = record {
    input_data = payloads_at s (redeemed_refs is);
    evicted_input_data = payloads_at s (evicted_refs is);
    missing_inputs = [];
  }

  add_found-all_gathered :
      (s : S) (r : OutputRef) (strategy : RedemptionStrategy) (utxo : Output V) (is : List Input)
      → peek rt s r ≡ some utxo
      → add_found (found_of utxo strategy) (all_gathered s is)
        ≡ all_gathered s (record { output_ref = r; redeemer = strategy } ∷ is)
  unfolding add_found payloads_at redeemed_refs evicted_refs
  add_found-all_gathered s r (redemption d) utxo is p = rw p
  add_found-all_gathered s r eviction utxo is p = rw p

  pub gather_inputs-ok :
      (s : S) (stripped : Bytes) (is : List Input)
      → All (InputOk s stripped) is
      → gather_inputs rt s stripped is ≡ ok (all_gathered s is)
  unfolding gather_inputs payloads_at redeemed_refs evicted_refs
  gather_inputs-ok s stripped [] h = refl
  gather_inputs-ok s stripped (i ∷ is) (here, rest) =
      let (utxo, p, v) = here in
      rw (
        check_input-ok s stripped i.output_ref i.redeemer utxo p v,
        gather_inputs-ok s stripped is rest,
        add_found-all_gathered s i.output_ref i.redeemer utxo is p,
      )

  missing-add_found :
      (utxo : Output V) (strategy : RedemptionStrategy) (rest g : Gathered)
      → ◌≡◌ {A = Outcome (UtxoError E) Gathered}
          (ok (add_found (found_of utxo strategy) rest))
          (ok g)
      → g.missing_inputs ≡ []
      → rest.missing_inputs ≡ []
  unfolding add_found
  missing-add_found utxo (redemption d) rest g e m = ground arith
  missing-add_found utxo eviction rest g e m = ground arith

  missing-ne_nil :
      (r : Bytes) (rest g : Gathered)
      → ◌≡◌ {A = Outcome (UtxoError E) Gathered} (ok (add_found (Found.missing r) rest)) (ok g)
      → g.missing_inputs ≢ []
  unfolding add_found
  missing-ne_nil r rest g e m = ground arith

  pub gather_inputs-inversion :
      (s : S) (stripped : Bytes) (is : List Input) (g : Gathered)
      → gather_inputs rt s stripped is ≡ ok g
      → g.missing_inputs ≡ []
      → All (InputOk s stripped) is
  unfolding gather_inputs
  gather_inputs-inversion s stripped [] g e m = tt
  gather_inputs-inversion s stripped (i ∷ is) g e m =
      let (f, e1, h1) = >>=-eq-ok (check_input rt s stripped i) _ e in
      let (rest, e2, h2) = >>=-eq-ok (gather_inputs rt s stripped is) _ h1 in
      elim (check_input-inversion s stripped i.output_ref i.redeemer f e1) [
        | inl (utxo, p, v, same) ↦ (
          (utxo, p, v),
          gather_inputs-inversion s stripped is rest e2
              (missing-add_found utxo i.redeemer rest g (rw same at h2) m),
        )
        | inr same ↦ absurd (missing-ne_nil _ rest g (rw same at h2) m)
      ]

  pub gather_peeks-data :
      (s : S) (rs : List OutputRef) → (gather_peeks rt s rs).0 ≡ payloads_at s rs
  unfolding gather_peeks payloads_at
  gather_peeks-data s [] = refl
  gather_peeks-data s (r ∷ rs) = ground (arith, gather_peeks-data s rs)

  pub gather_peeks_iff :
      (s : S) (rs : List OutputRef) → ((gather_peeks rt s rs).1 ≡ []) ↔ All (Present s) rs
  unfolding gather_peeks
  gather_peeks_iff s [] = (λ h. tt, λ h. refl)
  gather_peeks_iff s (r ∷ rs) = elim (Option-cases (peek rt s r)) [
    | inl e ↦ (λ h. ground arith, λ h. ground arith)
    | inr (utxo, e) ↦
        let ih = gather_peeks_iff s rs in
        (λ h. ((utxo, e), ih.0 (ground arith)), λ h. ground (arith, ih.1 h.1))
  ]

  none_of_is_none : (o : Option (Output V)) → is_none o ≡ true → o ≡ none
  none_of_is_none none h = refl
  none_of_is_none (some utxo) h = cc

  pub check_new_outputs_iff :
      (s : S) (tx_hash count index : ℕ)
      → (check_new_outputs rt s tx_hash count index ≡ ok tt)
        ↔ ((j : ℕ) → index ≤ j → j < index + count → peek rt s (new_ref tx_hash j) ≡ none)
  unfolding check_new_outputs
  check_new_outputs_iff s tx_hash zero index = (λ h j l u. absurd (omega arith), λ h. refl)
  check_new_outputs_iff s tx_hash (suc count) index =
      let ih = check_new_outputs_iff s tx_hash count (index + 1) in
      (
        λ h j l u.
            let (e, h1) = ensure-eq-ok (is_none (peek rt s (new_ref tx_hash index))) _ _ h in
            elim (ℕ_discrete j index) [
              | yes same ↦ rw same (none_of_is_none _ e)
              | no n ↦ ih.0 h1 j (omega arith) (omega arith)
            ],
        λ h.
            rw (h index (omega arith) (omega arith))
              (ih.1 (λ j l u. h j (omega arith) (omega arith))),
      )
