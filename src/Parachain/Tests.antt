-- ===== src/Parachain/Tests.antt =====
-- Concrete runs of the parachain piece (wardrobe/parachain/src/lib.rs): the information is the relay
-- parent's number, and the storage is the last one written.
use tuxedo.Base.{ℕ, ◌≡◌, refl, ok, some, false, arith, [], ◌∷◌, Option}
use tuxedo.DynamicTyping.{DynamicallyTypedData, UtxoData, into_dynamic}
use tuxedo.DynamicTyping.Laws.{extract-into_dynamic}
use tuxedo.Types.{Transaction}
use tuxedo.Verifier.{TestVerifier}
use tuxedo.Parachain.{SetParachainInfo, check_parachain_info}
use tuxedo.Parachain.Info.{check_parachain_info_iff}
use tuxedo.Samples.Codecs.{numbers}

abbrev info : UtxoData ℕ
info = record { codec = numbers; own_type_id = 1 ∷ [] }

abbrev number : ℕ → ℕ
number n = n

abbrev write : ℕ → ℕ → ℕ
write s n = n

abbrev datum : ℕ → DynamicallyTypedData
datum n = into_dynamic info n

info_example :
    check_parachain_info info number write 0 [] (datum 4 ∷ []) [] (datum 6 ∷ []) ≡ (ok 0, 6)
info_example =
    (check_parachain_info_iff info number write 0 6 [] (datum 4 ∷ []) [] (datum 6 ∷ []) 0).1 (
      refl,
      (
        4,
        6,
        refl,
        (extract-into_dynamic info 4, tt),
        (extract-into_dynamic info 6, tt),
        omega arith,
        refl,
      ),
    )

abbrev unspendable : TestVerifier
unspendable = record { verifies = false }

abbrev previous : Transaction TestVerifier SetParachainInfo × ℕ
previous = (
  record { inputs = []; peeks = []; outputs = []; checker = SetParachainInfo.set_parachain_info },
  8,
)

abbrev given : ℕ → Option (Option ℕ)
given n = some (some n)
