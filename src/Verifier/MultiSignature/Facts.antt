-- ===== src/Verifier/MultiSignature/Facts.antt =====
-- What each of the tests of `ThresholdMultiSignature::verify` says
-- (tuxedo-core/src/verifier/multi_signature.rs).
use tuxedo.Base.{
  ℕ, zero, suc, Bytes, false, ◌≡◌, ◌↔◌, ◌<◌, ◌⊎◌, refl, ap, List, [], ◌∷◌, none, some, arith, ◌==◌,
  ==_iff, ltb, length, get_elem?, Distinct, set_of, length-set_of, length-set_of_iff, inl, inr,
}
use tuxedo.Host.{Crypto}
use tuxedo.Verifier.MultiSignature.{
  SignatureAndIndex, indices, InRange, any_index_from, check_sig, valid_sigs,
}

get_elem?-in_range {ℓ} :
    {A : Type ℓ} (keys : List A) (i : ℕ)
    → (i < length keys) × ((k : A) × (get_elem? keys i ≡ some k))
      ⊎ (¬ (i < length keys)) × (get_elem? keys i ≡ none)
get_elem?-in_range [] i = inr (λ h. elim h [ ], refl)
get_elem?-in_range (k ∷ ks) zero = inl (omega arith, (k, refl))
get_elem?-in_range (k ∷ ks) (suc i) = elim (get_elem?-in_range ks i) [
  | inl h ↦ inl (omega arith, h.1)
  | inr h ↦ inr (λ l. h.0 (omega arith), h.1)
]

-- No repetition, by the comparison of lengths that the code makes.
pub shorter_set_iff :
    (xs : List ℕ) → (ltb (length (set_of ◌==◌ xs)) (length xs) ≡ false) ↔ Distinct xs
shorter_set_iff xs =
    let both = length-set_of_iff ◌==◌ ==_iff xs in
    let le = length-set_of ◌==◌ xs in
    (λ h. both.0 (ground arith), λ d. let e = both.1 d in ground arith)

pub any_index_iff :
    (n : ℕ) (sigs : List SignatureAndIndex) → (any_index_from n sigs ≡ false) ↔ InRange n sigs
unfolding any_index_from
any_index_iff n [] = (λ h. tt, λ h. refl)
any_index_iff n (s ∷ ss) =
    let ih = any_index_iff n ss in
    (λ h. (ground arith, ih.0 (ground arith)), λ h. ground (arith, ih.1 h.1))

pub length-indices : (sigs : List SignatureAndIndex) → length (indices sigs) ≡ length sigs
length-indices [] = refl
length-indices (s ∷ ss) = ap suc (length-indices ss)

module _ (crypto : Crypto) (keys : List ℕ) (tx : Bytes) where
  -- The signature checks come to an end exactly when every index names a signatory, and then
  -- yield one `()` for each signature.
  pub valid_sigs_cases :
      (sigs : List SignatureAndIndex)
      → InRange (length keys) sigs
          × ((us : List (Unit {0})) × (valid_sigs crypto keys tx sigs ≡ some us)
              × (length us ≡ length sigs))
        ⊎ (¬ InRange (length keys) sigs) × (valid_sigs crypto keys tx sigs ≡ none)
  unfolding valid_sigs check_sig
  valid_sigs_cases [] = inl (tt, ([], refl, refl))
  valid_sigs_cases (s ∷ ss) = elim (get_elem?-in_range keys s.index) [
    | inl here ↦ elim (valid_sigs_cases ss) [
      | inl (h, (us, e, l)) ↦ inl ((here.0, h), (tt ∷ us, ground (arith, here.1.1), ap suc l))
      | inr (n, e) ↦ inr (λ h. n h.1, ground (arith, here.1.1))
    ]
    | inr here ↦ inr (λ h. here.0 h.0, ground (arith, here.1))
  ]

  -- Neither the signatures nor the transaction matter: two lists with the same indices fare alike.
  pub valid_sigs_ignores :
      (tx' : Bytes) (sigs sigs' : List SignatureAndIndex)
      → indices sigs ≡ indices sigs'
      → valid_sigs crypto keys tx sigs ≡ valid_sigs crypto keys tx' sigs'
  unfolding valid_sigs check_sig
  valid_sigs_ignores tx' [] [] e = refl
  valid_sigs_ignores tx' [] (s' ∷ ss') e = cc
  valid_sigs_ignores tx' (s ∷ ss) [] e = cc
  valid_sigs_ignores tx' (s ∷ ss) (s' ∷ ss') e =
      ground (arith, valid_sigs_ignores tx' ss ss', ap (get_elem? keys) (ap head e))
    where
      head : List ℕ → ℕ
      head [] = 0
      head (x ∷ xs) = x

pub any_index_ignores :
    (n : ℕ) (sigs sigs' : List SignatureAndIndex)
    → indices sigs ≡ indices sigs'
    → any_index_from n sigs ≡ any_index_from n sigs'
unfolding any_index_from
any_index_ignores n [] [] e = refl
any_index_ignores n [] (s' ∷ ss') e = cc
any_index_ignores n (s ∷ ss) [] e = cc
any_index_ignores n (s ∷ ss) (s' ∷ ss') e = ground (arith, any_index_ignores n ss ss')
