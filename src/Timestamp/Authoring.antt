-- ===== src/Timestamp/Authoring.antt =====
-- The timestamps that a node creates (wardrobe/timestamp/src/lib.rs) pass the checks.
use tuxedo.Base.{
  ℕ, ◌+◌, ◌^◌, ◌≤◌, ◌<◌, ◌≡◌, ◌⊎◌, refl, false, [], ◌∷◌, arith, ltb, Option, some, ok, ok_injective,
  sym, ◌∙◌,
}
use tuxedo.Codec.{Codec}
use tuxedo.DynamicTyping.{DynamicallyTypedData, extract, into_dynamic}
use tuxedo.DynamicTyping.Laws.{extract-into_dynamic}
use tuxedo.Types.{Transaction}
use tuxedo.Executive.Validation.{payloads}
use tuxedo.Inherents.{InherentResults}
use tuxedo.Timestamp.{
  Timestamp, TimestampConfig, SetTimestamp, timestamp_data, add_u64, check_set_timestamp,
  create_inherent, check_inherent,
}
use tuxedo.Timestamp.Checks.{check_set_timestamp_iff}

long_enough :
    (block old_time interval now : ℕ)
    → (block ≡ 0) ⊎ (old_time + interval ≤ now)
    → (block ≡ 0) ⊎ (add_u64 old_time interval ≤ now)
long_enough block old_time interval now h = grind arith

in_time :
    (now local drift : ℕ)
    → now ≤ local + drift
    → local + drift < 2 ^ 64
    → ltb (add_u64 local drift) now ≡ false
in_time now local drift close fits = grind arith

module _ {S V D : Type 0} (config : TimestampConfig S) (codec : Codec Timestamp)
    (get_data : D → Option (Option ℕ)) where
  -- The inherent with this time.
  abbrev at_time : S → V → ℕ → ℕ → Transaction V SetTimestamp
  at_time s unspendable previous_hash now = record {
    inputs = [];
    peeks = record { tx_hash = previous_hash; index = 0 } ∷ [];
    outputs =
        record {
          payload =
              into_dynamic (timestamp_data codec)
                (record { time = now; block = config.block_height s });
          verifier = unspendable;
        }
        ∷ [];
    checker = SetTimestamp.set_timestamp;
  }

  create_inherent-at_time :
      (s : S) (d : D) (unspendable : V) (previous : Transaction V SetTimestamp × ℕ) (now : ℕ)
      → get_data d ≡ some (some now)
      → create_inherent config codec get_data (some unspendable) s d previous
        ≡ ok (at_time s unspendable previous.1 now)
  unfolding create_inherent
  create_inherent-at_time s d unspendable previous now e = rw e

  -- The inherent created for the block after that of the old timestamp is accepted by the check
  -- when it peeks at that timestamp, the clock has moved on by the minimum interval (or the old
  -- block is zero), and the height fits in 32 bits.
  pub create_inherent-accepted :
      (s : S) (d : D) (unspendable : V) (previous : Transaction V SetTimestamp × ℕ)
      (datum : DynamicallyTypedData) (old : Timestamp) (now : ℕ)
      → get_data d ≡ some (some now)
      → extract (timestamp_data codec) datum ≡ ok old
      → config.block_height s ≡ old.block + 1
      → config.block_height s < 2 ^ 32
      → (old.block ≡ 0) ⊎ (old.time + config.minimum_time_interval ≤ now)
      → (tx : Transaction V SetTimestamp) × (create_inherent config codec get_data
            (some unspendable)
            s
            d
            previous
          ≡ ok tx)
        × (check_set_timestamp config codec s [] [] (datum ∷ []) (payloads tx.outputs) ≡ ok 0)
  unfolding payloads
  create_inherent-accepted s d unspendable previous datum old now e peeked next fits late =
      let new : Timestamp = record { time = now; block = config.block_height s } in
      (
        at_time s unspendable previous.1 now,
        create_inherent-at_time s d unspendable previous now e,
        (check_set_timestamp_iff config codec s [] [] (datum ∷ []) _ 0).1 (
          refl,
          (
            old,
            new,
            datum,
            [],
            refl,
            refl,
            (extract-into_dynamic (timestamp_data codec) new, tt),
            refl,
            peeked,
            refl,
            omega arith,
            long_enough old.block old.time _ now late,
          ),
        ),
      )

  -- The off-chain check of that inherent by another node adds no error when its clock is behind by
  -- at most the maximal drift and their sum fits in 64 bits.
  check_inherent-created :
      {L : Type 0} (results_api : InherentResults L) (s : S) (d e : D) (unspendable : V)
      (previous : Transaction V SetTimestamp × ℕ) (now local : ℕ) (tx : Transaction V SetTimestamp)
      (result : L)
      → get_data d ≡ some (some now)
      → get_data e ≡ some (some local)
      → now ≤ local + config.max_drift
      → local + config.max_drift < 2 ^ 64
      → create_inherent config codec get_data (some unspendable) s d previous ≡ ok tx
      → check_inherent config codec get_data results_api e tx result ≡ ok result
  unfolding check_inherent
  check_inherent-created results_api s d e unspendable previous now local tx result there here close
        fits made =
      let created =
        ok_injective (sym (create_inherent-at_time s d unspendable previous now there) ∙ made) in
      rw (
        ← created,
        here,
        extract-into_dynamic (timestamp_data codec)
            (record { time = now; block = config.block_height s }),
        in_time now local config.max_drift close fits,
      )
