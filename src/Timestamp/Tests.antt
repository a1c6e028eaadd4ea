-- ===== src/Timestamp/Tests.antt =====
-- Concrete runs of the timestamp piece (wardrobe/timestamp/src/lib.rs).
use tuxedo.Base.{ℕ, ◌≡◌, ◌+◌, refl, inr, ok, some, false, arith, [], ◌∷◌, Option}
use tuxedo.DynamicTyping.{DynamicallyTypedData, extract, into_dynamic}
use tuxedo.DynamicTyping.Laws.{extract-into_dynamic}
use tuxedo.Types.{Transaction}
use tuxedo.Verifier.{TestVerifier}
use tuxedo.Executive.Validation.{payloads}
use tuxedo.Inherents.{InherentResults}
use tuxedo.Timestamp.{
  Timestamp, TimestampConfig, SetTimestamp, default_config, timestamp_data, check_set_timestamp,
  create_inherent,
}
use tuxedo.Timestamp.Checks.{check_set_timestamp_iff}
use tuxedo.Timestamp.Authoring.{create_inherent-accepted}
use tuxedo.Samples.Pieces.{timestamps}

-- The storage is the block height, and the inherent data is the time.
abbrev config : TimestampConfig ℕ
config = default_config (λ (height : ℕ). height)

abbrev clock : ℕ → Option (Option ℕ)
clock now = some (some now)

abbrev at_block : ℕ → ℕ → Timestamp
at_block time block = record { time = time; block = block }

abbrev datum : ℕ → ℕ → DynamicallyTypedData
datum time block = into_dynamic (timestamp_data timestamps) (at_block time block)

holds :
    (time block : ℕ)
    → extract (timestamp_data timestamps) (datum time block) ≡ ok (at_block time block)
holds time block = extract-into_dynamic (timestamp_data timestamps) (at_block time block)

set_example :
    check_set_timestamp config timestamps 4 [] [] (datum 1000 3 ∷ []) (datum 3000 4 ∷ []) ≡ ok 0
set_example =
    (check_set_timestamp_iff config timestamps 4 [] [] (datum 1000 3 ∷ []) (datum 3000 4 ∷ []) 0).1
      (
        refl,
        (
          at_block 1000 3,
          at_block 3000 4,
          datum 1000 3,
          [],
          refl,
          refl,
          (holds 3000 4, tt),
          refl,
          holds 1000 3,
          refl,
          refl,
          inr (omega arith),
        ),
      )

abbrev unspendable : TestVerifier
unspendable = record { verifies = false }

abbrev previous : Transaction TestVerifier SetTimestamp × ℕ
previous =
    (record { inputs = []; peeks = []; outputs = []; checker = SetTimestamp.set_timestamp }, 8)

abbrev created : Transaction TestVerifier SetTimestamp
created = record {
  inputs = [];
  peeks = record { tx_hash = 8; index = 0 } ∷ [];
  outputs = record { payload = datum 3000 4; verifier = unspendable } ∷ [];
  checker = SetTimestamp.set_timestamp;
}

created_run :
    create_inherent config timestamps clock (some unspendable) 4 3000 previous ≡ ok created
unfolding create_inherent
created_run = refl

accepted_example :
    (tx : Transaction TestVerifier SetTimestamp) × (create_inherent config timestamps clock
        (some unspendable)
        4
        3000
        previous
      ≡ ok tx)
    × (check_set_timestamp config timestamps 4 [] [] (datum 1000 3 ∷ []) (payloads tx.outputs)
        ≡ ok 0)
accepted_example =
    create_inherent-accepted config timestamps clock 4 3000 unspendable previous (datum 1000 3)
      (at_block 1000 3) 3000 refl (holds 1000 3) refl (omega arith) (inr (omega arith))

abbrev no_results : InherentResults ℕ
no_results = record { put_error = λ n identifier e. some (n + 1) }
