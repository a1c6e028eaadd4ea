-- ===== src/Verifier/MultiSignature.antt =====
-- tuxedo-core/src/verifier/multi_signature.rs: N of M signatures.
-- The signatures' answers are computed and dropped: `valid_sigs` is a `Vec<()>`.
mod Facts
pub mod Acceptance
use tuxedo.Base.{
  ℕ, suc, Bytes, Bool, true, false, ◌≡◌, ◌↔◌, ◌≤◌, ◌<◌, refl, sym, ◌∙◌, ap, List, [], ◌∷◌, map,
  Option, none, some, arith, ◌==◌, ltb, leb, if◌then◌else◌, length, get_elem?, All, Distinct,
  set_of, length-set_of_iff, Option-cases, Bool-cases, inl, inr, ◌||◌,
}
use tuxedo.Host.{Crypto}

pub record ThresholdMultiSignature : Type 0 where
  pub threshold : ℕ
  pub signatories : List ℕ

pub record SignatureAndIndex : Type 0 where
  pub signature : Bytes
  pub index : ℕ

-- `ThresholdMultiSignature::new`
unfoldable pub new : ℕ → List ℕ → ThresholdMultiSignature
new threshold signatories = record { threshold = threshold; signatories = signatories }

unfoldable pub has_duplicate_signatories : ThresholdMultiSignature → Bool
has_duplicate_signatories v = ltb (length (set_of ◌==◌ v.signatories)) (length v.signatories)

-- `ThresholdMultiSignature::new_unspendable`
unfoldable pub new_unspendable : Option ThresholdMultiSignature
new_unspendable = some (record { threshold = 1; signatories = [] })

-- `sigs.iter().any(|sig| sig.index as usize >= sigs.len())`, at the number `n` of signatures.
unfoldable pub any_index_from : ℕ → List SignatureAndIndex → Bool
any_index_from n [] = false
any_index_from n (s ∷ ss) = leb n s.index || any_index_from n ss

abbrev pub indices : List SignatureAndIndex → List ℕ
indices [] = []
indices (s ∷ ss) = s.index ∷ indices ss

abbrev pub InRange : ℕ → List SignatureAndIndex → Type 0
InRange n sigs = All (λ (i : ℕ). i < n) (indices sigs)

-- Puts the result of one closure call before the others.
abbrev pub push : Unit {0} → Option (List (Unit {0})) → Option (List (Unit {0}))
push u none = none
push u (some us) = some (u ∷ us)

module _ (crypto : Crypto) where
  -- The closure's block ends in `;`, so its value is `()` whatever the signature check says.
  unfoldable pub check_sig : List ℕ → Bytes → SignatureAndIndex → Option (Unit {0})
  check_sig signatories simplified_tx s = elim (get_elem? signatories s.index) [
    | none ↦ none
    | some key ↦ let answer = crypto.sr25519_verify s.signature simplified_tx key in some tt
  ]

  unfoldable pub valid_sigs : List ℕ → Bytes → List SignatureAndIndex → Option (List (Unit {0}))
  valid_sigs signatories simplified_tx [] = some []
  valid_sigs signatories simplified_tx (s ∷ ss) =
      let rest = valid_sigs signatories simplified_tx ss in
      elim (check_sig signatories simplified_tx s) [ none ↦ none | some u ↦ push u rest ]

  abbrev pub enough : ℕ → Option (List (Unit {0})) → Option Bool
  enough threshold none = none
  enough threshold (some us) = some (leb threshold (length us))

  -- `ThresholdMultiSignature::verify`; an index past the signatories is a panic.
  unfoldable pub verify_multi :
      ThresholdMultiSignature → Bytes → ℕ → List SignatureAndIndex → Option Bool
  verify_multi v simplified_tx block_height sigs =
      if has_duplicate_signatories v
      then some false
      else if ltb (length sigs) v.threshold
      then some false
      else if any_index_from (length sigs) sigs
      then some false
      else if ltb (length (set_of ◌==◌ (indices sigs))) (length sigs)
      then some false
      else enough v.threshold (valid_sigs v.signatories simplified_tx sigs)
