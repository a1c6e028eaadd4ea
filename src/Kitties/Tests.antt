-- ===== src/Kitties/Tests.antt =====
-- Concrete runs of the kitties piece (wardrobe/kitties/src/lib.rs).
use tuxedo.Base.{ℕ, ◌+◌, ◌≡◌, ◌≢◌, refl, ok, inr, arith, Bytes, [], ◌∷◌, length}
use tuxedo.DynamicTyping.{DynamicallyTypedData, extract, into_dynamic}
use tuxedo.DynamicTyping.Laws.{extract-into_dynamic}
use tuxedo.Kitties.{
  Parent, mom, dad, MomKittyStatus, DadKittyStatus, KittyData, kitty_data, check_free_kitty,
  child_dna,
}
use tuxedo.Kitties.Breeding.{IsBreeding, check_free_kitty_iff, bred_once}
use tuxedo.Samples.Pieces.{kitties}

abbrev hash_of : Bytes → ℕ
hash_of d = 100 + length d

abbrev four : ℕ → ℕ → ℕ → ℕ → Bytes
four a b c d = a ∷ b ∷ c ∷ d ∷ []

abbrev kitty : Parent → ℕ → ℕ → ℕ → KittyData
kitty parent free dna num = record {
  parent = parent;
  free_breedings = free;
  dna = dna;
  num_breedings = num;
}

abbrev old_mom : KittyData
old_mom = kitty (mom MomKittyStatus.rearin_to_go) 2 50 3

abbrev old_dad : KittyData
old_dad = kitty (dad DadKittyStatus.rearin_to_go) 1 60 0

abbrev new_mom : KittyData
new_mom = kitty (mom MomKittyStatus.had_birth_recently) 1 50 4

abbrev new_dad : KittyData
new_dad = kitty (dad DadKittyStatus.tired) 0 60 1

abbrev newborn : KittyData
newborn = kitty (dad DadKittyStatus.rearin_to_go) 2 104 0

abbrev datum : KittyData → DynamicallyTypedData
datum k = into_dynamic (kitty_data kitties) k

holds : (k : KittyData) → extract (kitty_data kitties) (datum k) ≡ ok k
holds k = extract-into_dynamic (kitty_data kitties) k

dna : newborn.dna ≡ child_dna hash_of four new_mom new_dad
unfolding child_dna
dna = refl

breeding :
    IsBreeding hash_of four kitties
      (datum old_mom ∷ datum old_dad ∷ [])
      []
      (datum new_mom ∷ datum new_dad ∷ datum newborn ∷ [])
breeding = (
  old_mom,
  old_dad,
  refl,
  (holds old_mom, (holds old_dad, tt)),
  (refl, refl, omega arith, omega arith, omega arith, omega arith),
  (
    new_mom,
    new_dad,
    newborn,
    (holds new_mom, (holds new_dad, (holds newborn, tt))),
    refl,
    (refl, refl, refl),
    refl,
    (refl, refl, refl),
    (dna, refl, refl, inr refl),
  ),
)

breeding_example :
    check_free_kitty hash_of four kitties
      (datum old_mom ∷ datum old_dad ∷ [])
      []
      []
      (datum new_mom ∷ datum new_dad ∷ datum newborn ∷ [])
    ≡ ok 0
breeding_example =
    (check_free_kitty_iff hash_of four kitties (datum old_mom ∷ datum old_dad ∷ []) [] []
        (datum new_mom ∷ datum new_dad ∷ datum newborn ∷ []) 0).1
      (refl, breeding)

-- The run that the next example starts from.
bred :
    check_free_kitty hash_of four kitties
      (datum old_mom ∷ datum old_dad ∷ [])
      []
      []
      (datum new_mom ∷ datum new_dad ∷ datum newborn ∷ [])
    ≡ ok 0
bred =
    (check_free_kitty_iff hash_of four kitties (datum old_mom ∷ datum old_dad ∷ []) [] []
        (datum new_mom ∷ datum new_dad ∷ datum newborn ∷ []) 0).1
      (refl, breeding)

bred_once_example :
    (check_free_kitty hash_of four kitties (datum new_mom ∷ datum newborn ∷ []) [] [] [] ≢ ok 0)
    × (check_free_kitty hash_of four kitties (datum newborn ∷ datum new_dad ∷ []) [] [] [] ≢ ok 0)
bred_once_example =
    bred_once hash_of four kitties (datum new_mom) (datum new_dad) (datum newborn)
      (datum old_mom ∷ datum old_dad ∷ []) [] [] [] [] [] (datum newborn) 0 0 bred
