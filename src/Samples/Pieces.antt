-- ===== src/Samples/Pieces.antt =====
-- Codecs of the pieces' data, for the concrete runs of the tests.
use tuxedo.Base.{ℕ, zero, suc, Bytes, ◌≡◌, refl}
use tuxedo.Codec.{Codec}
use tuxedo.Kitties.{Parent, mom, dad, MomKittyStatus, DadKittyStatus, KittyData}
use tuxedo.Amoeba.{AmoebaDetails}
use tuxedo.Poe.{ClaimData}
use tuxedo.Timestamp.{Timestamp}
use tuxedo.RuntimeUpgrade.{RuntimeRef}
use tuxedo.Samples.Codecs.{numbers, bytes, pairs, through}

abbrev of_parent : Parent → ℕ
of_parent (mom MomKittyStatus.rearin_to_go) = 0
of_parent (mom MomKittyStatus.had_birth_recently) = 1
of_parent (dad DadKittyStatus.rearin_to_go) = 2
of_parent (dad DadKittyStatus.tired) = 3

abbrev to_parent : ℕ → Parent
to_parent zero = mom MomKittyStatus.rearin_to_go
to_parent (suc zero) = mom MomKittyStatus.had_birth_recently
to_parent (suc (suc zero)) = dad DadKittyStatus.rearin_to_go
to_parent (suc (suc (suc n))) = dad DadKittyStatus.tired

pub to_parent-of_parent : (p : Parent) → to_parent (of_parent p) ≡ p
to_parent-of_parent (mom MomKittyStatus.rearin_to_go) = refl
to_parent-of_parent (mom MomKittyStatus.had_birth_recently) = refl
to_parent-of_parent (dad DadKittyStatus.rearin_to_go) = refl
to_parent-of_parent (dad DadKittyStatus.tired) = refl

abbrev pub kitties : Codec KittyData
kitties =
    through (pairs (pairs numbers numbers) (pairs numbers numbers))
      (λ (k : KittyData). ((of_parent k.parent, k.free_breedings), (k.dna, k.num_breedings)))
      (λ (p : (ℕ × ℕ) × (ℕ × ℕ)). record {
        parent = to_parent p.0.0;
        free_breedings = p.0.1;
        dna = p.1.0;
        num_breedings = p.1.1;
      })
      (λ (k : KittyData). λ i. record {
        parent = to_parent-of_parent k.parent i;
        free_breedings = k.free_breedings;
        dna = k.dna;
        num_breedings = k.num_breedings;
      })

abbrev pub amoebas : Codec AmoebaDetails
amoebas =
    through (pairs numbers bytes) (λ (a : AmoebaDetails). (a.generation, a.four_bytes))
      (λ (p : ℕ × Bytes). record { generation = p.0; four_bytes = p.1 })
      (λ (a : AmoebaDetails). refl)

abbrev pub claims : Codec ClaimData
claims =
    through (pairs numbers numbers) (λ (c : ClaimData). (c.claim, c.effective_height))
      (λ (p : ℕ × ℕ). record { claim = p.0; effective_height = p.1 }) (λ (c : ClaimData). refl)

abbrev pub timestamps : Codec Timestamp
timestamps =
    through (pairs numbers numbers) (λ (t : Timestamp). (t.time, t.block))
      (λ (p : ℕ × ℕ). record { time = p.0; block = p.1 }) (λ (t : Timestamp). refl)

abbrev pub runtime_refs : Codec RuntimeRef
runtime_refs =
    through numbers (λ (r : RuntimeRef). r.hash) (λ (n : ℕ). record { hash = n })
      (λ (r : RuntimeRef). refl)
