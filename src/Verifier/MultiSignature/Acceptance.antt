-- ===== src/Verifier/MultiSignature/Acceptance.antt =====
-- When `ThresholdMultiSignature::verify` answers `true`, `false`, or panics
-- (tuxedo-core/src/verifier/multi_signature.rs).
use tuxedo.Base.{
  ℕ, Bytes, true, false, ◌≡◌, ◌↔◌, ◌≤◌, ◌⊎◌, List, none, some, arith, length, Distinct, Bool-cases,
  inl, inr, ltb, ◌==◌, set_of, sym, ap, ◌∙◌,
}
use tuxedo.Host.{Crypto}
use tuxedo.Verifier.MultiSignature.{
  ThresholdMultiSignature, SignatureAndIndex, indices, InRange, has_duplicate_signatories,
  any_index_from, valid_sigs, verify_multi, enough,
}
use tuxedo.Verifier.MultiSignature.Facts.{
  shorter_set_iff, any_index_iff, length-indices, valid_sigs_cases, valid_sigs_ignores,
  any_index_ignores,
}

-- The tests that come before the signature checks.
pub record IsWellFormed (v : ThresholdMultiSignature) (sigs : List SignatureAndIndex) : Type 0 where
  pub signatories_distinct : Distinct v.signatories
  pub threshold_met : v.threshold ≤ length sigs
  pub indices_below : InRange (length sigs) sigs
  pub indices_distinct : Distinct (indices sigs)

module _ (crypto : Crypto) (v : ThresholdMultiSignature) where
  -- The answer is `false` unless the redeemer is well formed; then the signature checks are made.
  verify_multi_cases :
      (tx : Bytes) (height : ℕ) (sigs : List SignatureAndIndex)
      → IsWellFormed v sigs
          × (verify_multi crypto v tx height sigs
              ≡ enough crypto v.threshold (valid_sigs crypto v.signatories tx sigs))
        ⊎ (¬ IsWellFormed v sigs) × (verify_multi crypto v tx height sigs ≡ some false)
  unfolding verify_multi has_duplicate_signatories
  verify_multi_cases tx height sigs = elim (Bool-cases (has_duplicate_signatories v)) [
    | inl e ↦ inr (λ w. cc (e, (shorter_set_iff v.signatories).1 w.signatories_distinct), rw e)
    | inr d ↦ elim (Bool-cases (ltb (length sigs) v.threshold)) [
      | inl e ↦ inr (λ w. ground (arith, w.threshold_met), rw (d, e))
      | inr t ↦ elim (Bool-cases (any_index_from (length sigs) sigs)) [
        | inl e ↦ inr (λ w. cc (e, (any_index_iff _ sigs).1 w.indices_below), rw (d, t, e))
        | inr b ↦ elim (Bool-cases (ltb (length (set_of ◌==◌ (indices sigs))) (length sigs))) [
          | inl e ↦ inr (λ w. cc (e, repeats w.indices_distinct), rw (d, t, b, e))
          | inr n ↦ inl (
            record {
              signatories_distinct = (shorter_set_iff v.signatories).0 d;
              threshold_met = ground arith;
              indices_below = (any_index_iff _ sigs).0 b;
              indices_distinct = (shorter_set_iff (indices sigs)).0 (rw length-indices n);
            },
            rw (d, t, b, n),
          )
        ]
      ]
    ]
  ]
    where
      repeats :
          Distinct (indices sigs) → ltb (length (set_of ◌==◌ (indices sigs))) (length sigs) ≡ false
      repeats h = rw (← length-indices sigs) ((shorter_set_iff (indices sigs)).1 h)

  -- The multisignature verifier answers true exactly if the signatories are distinct, there are at
  -- least as many signatures as the threshold, and the indices are distinct, below the number of
  -- signatures and below the number of signatories; no signature has to be valid.
  pub verify_multi_iff :
      (tx : Bytes) (height : ℕ) (sigs : List SignatureAndIndex)
      → (verify_multi crypto v tx height sigs ≡ some true)
        ↔ (IsWellFormed v sigs × InRange (length v.signatories) sigs)
  verify_multi_iff tx height sigs = elim (verify_multi_cases tx height sigs) [
    | inl (w, e) ↦ elim (valid_sigs_cases crypto v.signatories tx sigs) [
      | inl (h, (us, f, l)) ↦ (λ _. (w, h), λ _. e ∙ rw f (ground (arith, w.threshold_met)))
      | inr (n, f) ↦ (λ t. cc (t, e, ap (enough crypto v.threshold) f), λ p. absurd (n p.1))
    ]
    | inr (n, e) ↦ (λ t. cc (t, e), λ p. absurd (n p.0))
  ]

  -- The multisignature verifier panics exactly if those tests pass but some index is not below the
  -- number of signatories.
  pub verify_multi_panics_iff :
      (tx : Bytes) (height : ℕ) (sigs : List SignatureAndIndex)
      → (verify_multi crypto v tx height sigs ≡ none)
        ↔ (IsWellFormed v sigs × (¬ InRange (length v.signatories) sigs))
  verify_multi_panics_iff tx height sigs = elim (verify_multi_cases tx height sigs) [
    | inl (w, e) ↦ elim (valid_sigs_cases crypto v.signatories tx sigs) [
      | inl (h, (us, f, l)) ↦
          (λ t. cc (t, e, ap (enough crypto v.threshold) f), λ p. absurd (p.1 h))
      | inr (n, f) ↦ (λ _. (w, n), λ _. e ∙ rw f)
    ]
    | inr (n, e) ↦ (λ t. cc (t, e), λ p. absurd (n p.0))
  ]

  -- Two redeemers with the same indices get the same answer of the multisignature verifier,
  -- whatever their signatures, transactions and heights are.
  verify_multi_ignores :
      (tx tx' : Bytes) (height height' : ℕ) (sigs sigs' : List SignatureAndIndex)
      → indices sigs ≡ indices sigs'
      → verify_multi crypto v tx height sigs ≡ verify_multi crypto v tx' height' sigs'
  unfolding verify_multi
  verify_multi_ignores tx tx' height height' sigs sigs' e =
      let l : length sigs ≡ length sigs' =
        sym (length-indices sigs) ∙ ap length e ∙ length-indices sigs' in
      rw (
        l,
        e,
        any_index_ignores (length sigs') sigs sigs' e,
        valid_sigs_ignores crypto v.signatories tx tx' sigs sigs' e,
      )
