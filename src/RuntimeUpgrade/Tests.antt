-- ===== src/RuntimeUpgrade/Tests.antt =====
-- Concrete runs of the runtime upgrade piece (wardrobe/runtime_upgrade/src/lib.rs).
use tuxedo.Base.{ℕ, ◌≡◌, refl, ok, some, [], ◌∷◌, bytes_eq}
use tuxedo.DynamicTyping.{DynamicallyTypedData, extract, into_dynamic}
use tuxedo.DynamicTyping.Laws.{extract-into_dynamic}
use tuxedo.RuntimeUpgrade.{runtime_data, code_key, check_upgrade}
use tuxedo.RuntimeUpgrade.Code.{check_upgrade_iff}
use tuxedo.Samples.{Storage, empty, host, hash}
use tuxedo.Samples.Pieces.{runtime_refs}

abbrev datum : ℕ → DynamicallyTypedData
datum n = into_dynamic (runtime_data runtime_refs) (record { hash = n })

holds : (n : ℕ) → extract (runtime_data runtime_refs) (datum n) ≡ ok (record { hash = n })
holds n = extract-into_dynamic (runtime_data runtime_refs) (record { hash = n })

-- The code of two bytes that the chain runs, and the one of three that replaces it.
abbrev old_code : Storage
old_code = host.set empty code_key (1 ∷ 2 ∷ [])

abbrev new_code : Storage
new_code = host.set old_code code_key (1 ∷ 2 ∷ 3 ∷ [])

stored : host.get old_code code_key ≡ some (1 ∷ 2 ∷ [])
unfolding bytes_eq
stored = refl

upgraded :
    check_upgrade host hash runtime_refs old_code
      (record { full_wasm = 1 ∷ 2 ∷ 3 ∷ [] })
      (datum 2 ∷ [])
      []
      []
      (datum 3 ∷ [])
    ≡ ok (0, new_code)
unfolding check_upgrade tuxedo.DynamicTyping.extract_or extract into_dynamic bytes_eq
upgraded = refl

upgrade_example :
    check_upgrade host hash runtime_refs old_code
      (record { full_wasm = 1 ∷ 2 ∷ 3 ∷ [] })
      (datum 2 ∷ [])
      []
      []
      (datum 3 ∷ [])
    ≡ ok (0, new_code)
upgrade_example =
    (check_upgrade_iff host hash runtime_refs old_code new_code (1 ∷ 2 ∷ 3 ∷ []) (datum 2 ∷ []) []
        [] (datum 3 ∷ []) 0).1
      (
        refl,
        (
          record { hash = 2 },
          record { hash = 3 },
          1 ∷ 2 ∷ [],
          refl,
          (holds 2, tt),
          stored,
          refl,
          (holds 3, tt),
          refl,
          refl,
        ),
      )
