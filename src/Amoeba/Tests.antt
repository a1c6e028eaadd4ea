-- ===== src/Amoeba/Tests.antt =====
-- Concrete runs of the amoeba piece (wardrobe/amoeba/src/lib.rs).
use tuxedo.Base.{ℕ, ◌≡◌, refl, ok, [], ◌∷◌}
use tuxedo.DynamicTyping.{DynamicallyTypedData, extract, into_dynamic}
use tuxedo.DynamicTyping.Laws.{extract-into_dynamic}
use tuxedo.Amoeba.{AmoebaDetails, amoeba_data, check_mitosis}
use tuxedo.Amoeba.Life.{check_mitosis_iff}
use tuxedo.Samples.Pieces.{amoebas}

abbrev amoeba : ℕ → AmoebaDetails
amoeba g = record { generation = g; four_bytes = 1 ∷ 2 ∷ 3 ∷ 4 ∷ [] }

abbrev datum : ℕ → DynamicallyTypedData
datum g = into_dynamic (amoeba_data amoebas) (amoeba g)

holds : (g : ℕ) → extract (amoeba_data amoebas) (datum g) ≡ ok (amoeba g)
holds g = extract-into_dynamic (amoeba_data amoebas) (amoeba g)

-- The last generation's daughters are of generation zero.
mitosis_example :
    check_mitosis amoebas (datum 4294967295 ∷ []) [] [] (datum 0 ∷ datum 0 ∷ []) ≡ ok 0
mitosis_example =
    (check_mitosis_iff amoebas (datum 4294967295 ∷ []) [] [] (datum 0 ∷ datum 0 ∷ []) 0).1 (
      refl,
      (
        amoeba 4294967295,
        amoeba 0,
        amoeba 0,
        refl,
        (holds 4294967295, tt),
        (holds 0, (holds 0, tt)),
        refl,
        refl,
      ),
    )
