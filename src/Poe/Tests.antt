-- ===== src/Poe/Tests.antt =====
-- Concrete runs of the proof of existence piece (wardrobe/poe/src/lib.rs).
use tuxedo.Base.{ℕ, ◌≡◌, refl, ok, arith, [], ◌∷◌, bytes_eq, for_each}
use tuxedo.DynamicTyping.{DynamicallyTypedData, extract, extract_or, into_dynamic}
use tuxedo.DynamicTyping.Laws.{extract-into_dynamic}
use tuxedo.Poe.{ClaimData, claim_data, check_dispute}
use tuxedo.Poe.Claims.{check_dispute_iff}
use tuxedo.Samples.Pieces.{claims}

abbrev claim_at : ℕ → ClaimData
claim_at height = record { claim = 77; effective_height = height }

abbrev datum : ℕ → DynamicallyTypedData
datum height = into_dynamic (claim_data claims) (claim_at height)

holds : (height : ℕ) → extract (claim_data claims) (datum height) ≡ ok (claim_at height)
holds height = extract-into_dynamic (claim_data claims) (claim_at height)

dispute_example : check_dispute claims [] (datum 9 ∷ []) (datum 5 ∷ []) [] ≡ ok 0
dispute_example = (check_dispute_iff claims [] (datum 9 ∷ []) (datum 5 ∷ []) [] 0).1 (
  refl,
  (
    datum 5,
    [],
    claim_at 5,
    claim_at 9 ∷ [],
    refl,
    refl,
    refl,
    holds 5,
    (holds 9, tt),
    ((refl, omega arith), tt),
  ),
)

-- The run that the next example starts from.
evicted : check_dispute claims [] (datum 9 ∷ []) (datum 5 ∷ []) [] ≡ ok 0
unfolding check_dispute for_each extract_or extract into_dynamic bytes_eq
evicted = refl
