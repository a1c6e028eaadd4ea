-- ===== src/Timestamp.antt =====
-- wardrobe/timestamp/src/lib.rs: the time of a block, as an inherent.
pub mod Checks
pub mod Authoring
mod Tests
use tuxedo.Base.{
  ℕ, ◌+◌, ◌*◌, ◌%◌, ◌^◌, ◌==◌, ltb, leb, ◌||◌, not, List, [], ◌∷◌, length, is_empty, get_elem?,
  Option, Outcome, ok, panic, expect, expect_ok, ensure, for_each, ◌>>=◌, ◌>>◌, if◌then◌else◌,
  Bytes,
}
use tuxedo.Codec.{Codec}
use tuxedo.DynamicTyping.{
  DynamicallyTypedData, UtxoData, extract, extract_or, into_dynamic, datum_at,
}
use tuxedo.Types.{OutputRef, Output, Transaction}
use tuxedo.Inherents.{InherentError, InherentResults, InherentHooks}

-- `time` is a `u64`, `block` a `u32`.
pub record Timestamp : Type 0 where
  pub time : ℕ
  pub block : ℕ

-- `UtxoData for Timestamp`
abbrev pub timestamp_data : Codec Timestamp → UtxoData Timestamp
timestamp_data codec = record { codec = codec; own_type_id = b't' ∷ b'i' ∷ b'm' ∷ b'e' ∷ [] }

-- The trait `TimestampConfig`; `block_height` reads the storage `S`.
pub record TimestampConfig (S : Type 0) : Type 0 where
  pub block_height : S → ℕ
  pub minimum_time_interval : ℕ
  pub max_drift : ℕ
  pub min_time_before_cleanup : ℕ
  pub min_blocks_before_cleanup : ℕ

-- Its defaults.
abbrev pub default_config : {S : Type 0} → (S → ℕ) → TimestampConfig S
default_config block_height = record {
  block_height = block_height;
  minimum_time_interval = 2000;
  max_drift = 60000;
  min_time_before_cleanup = 1000 * 60 * 60 * 24;
  min_blocks_before_cleanup = 15000;
}

pub data TimestampError : Type 0 where
  badly_typed missing_new_timestamp new_timestamp_wrong_height : TimestampError
  too_many_outputs_while_setting_timestamp previous_timestamp_wrong_height : TimestampError
  missing_previous_timestamp inputs_while_setting_timestamp timestamp_too_old : TimestampError
  cleanup_requires_one_reference cleanup_cannot_create_state : TimestampError
  dont_be_so_hasty cleanup_evictions_only : TimestampError

-- Additions of `u64` and of `u32`, as the release build computes them.
abbrev pub add_u64 : ℕ → ℕ → ℕ
add_u64 a b = (a + b) % 2 ^ 64

abbrev pub add_u32 : ℕ → ℕ → ℕ
add_u32 a b = (a + b) % 2 ^ 32

pub data SetTimestamp : Type 0 where
  set_timestamp : SetTimestamp

module _ {S : Type 0} (config : TimestampConfig S) (codec : Codec Timestamp) where
  -- `SetTimestamp::check`
  unfoldable pub check_set_timestamp :
      S
      → (input_data evicted_input_data peek_data output_data : List DynamicallyTypedData)
      → Outcome TimestampError ℕ
  check_set_timestamp s input_data evicted_input_data peek_data output_data = do
    ensure (is_empty input_data) TimestampError.inputs_while_setting_timestamp
    ensure (is_empty evicted_input_data) TimestampError.inputs_while_setting_timestamp
    ensure (not (is_empty output_data)) TimestampError.missing_new_timestamp
    output ← datum_at output_data 0
    new_timestamp ← extract_or (timestamp_data codec) TimestampError.badly_typed output
    ensure (length output_data == 1) TimestampError.too_many_outputs_while_setting_timestamp
    ensure (new_timestamp.block == config.block_height s) TimestampError.new_timestamp_wrong_height
    ensure (not (is_empty peek_data)) TimestampError.missing_previous_timestamp
    peek ← datum_at peek_data 0
    old_timestamp ← extract_or (timestamp_data codec) TimestampError.badly_typed peek
    ensure
        (old_timestamp.block == 0
          || leb (add_u64 old_timestamp.time config.minimum_time_interval) new_timestamp.time)
        TimestampError.timestamp_too_old
    ensure (new_timestamp.block == add_u32 old_timestamp.block 1)
        TimestampError.previous_timestamp_wrong_height
    ok 0

  -- The body of the loop of `CleanUpTimestamp::check`, after the extraction.
  abbrev pub cleanup_test : S → Timestamp → Timestamp → Outcome TimestampError (Unit {0})
  cleanup_test s new_reference_timestamp old_timestamp = do
    ensure
        (ltb (add_u64 old_timestamp.time config.min_time_before_cleanup)
          new_reference_timestamp.time)
        TimestampError.dont_be_so_hasty
    ensure
        (ltb (add_u32 old_timestamp.block config.min_blocks_before_cleanup) (config.block_height s))
        TimestampError.dont_be_so_hasty

  -- `CleanUpTimestamp::check`
  unfoldable pub check_clean_up :
      S
      → (input_data evicted_input_data peek_data output_data : List DynamicallyTypedData)
      → Outcome TimestampError ℕ
  check_clean_up s input_data evicted_input_data peek_data output_data = do
    ensure (is_empty input_data) TimestampError.cleanup_evictions_only
    ensure (not (is_empty peek_data)) TimestampError.cleanup_requires_one_reference
    peek ← datum_at peek_data 0
    new_reference_timestamp ← extract_or (timestamp_data codec) TimestampError.badly_typed peek
    ensure (is_empty output_data) TimestampError.cleanup_cannot_create_state
    for_each
        (λ eviction_datum.
          extract_or (timestamp_data codec) TimestampError.badly_typed eviction_datum
          >>= cleanup_test s new_reference_timestamp)
        evicted_input_data
    ok 0

  -- `SetTimestamp::create_inherent`, at the timestamp that the inherent data holds (`none` where it
  -- does not decode, `some none` where it is absent) and at the runtime's unspendable verifier.
  unfoldable pub create_inherent :
      {V D : Type 0}
      → (D → Option (Option ℕ))
      → Option V
      → S
      → D
      → Transaction V SetTimestamp × ℕ
      → Outcome (Unit {0}) (Transaction V SetTimestamp)
  create_inherent get_data new_unspendable s authoring_inherent_data previous_inherent = do
    present ← expect (get_data authoring_inherent_data)
    current_timestamp ← expect present
    verifier ← expect new_unspendable
    ok (record {
      inputs = [];
      peeks = record { tx_hash = previous_inherent.1; index = 0 } ∷ [];
      outputs =
          record {
            payload =
                into_dynamic (timestamp_data codec)
                  (record { time = current_timestamp; block = config.block_height s });
            verifier = verifier;
          }
          ∷ [];
      checker = SetTimestamp.set_timestamp;
    })

  -- `sp_timestamp::INHERENT_IDENTIFIER`
  abbrev pub timestamp_identifier : Bytes
  timestamp_identifier = b't' ∷ b'i' ∷ b'm' ∷ b's' ∷ b't' ∷ b'a' ∷ b'p' ∷ b'0' ∷ []

  -- `SetTimestamp::check_inherent`
  unfoldable pub check_inherent :
      {V D L : Type 0}
      → (D → Option (Option ℕ))
      → InherentResults L
      → D
      → Transaction V SetTimestamp
      → L
      → Outcome (Unit {0}) L
  check_inherent get_data results_api importing_inherent_data inherent result = do
    present ← expect (get_data importing_inherent_data)
    local_time ← expect present
    output ← expect (get_elem? inherent.outputs 0)
    on_chain_timestamp ← expect_ok (extract (timestamp_data codec) output.payload)
    if ltb (add_u64 local_time config.max_drift) on_chain_timestamp.time
        then expect
            (results_api.put_error result timestamp_identifier InherentError.too_far_in_future)
        else ok result

  -- `SetTimestamp::genesis_transactions`
  unfoldable pub genesis_transactions :
      {V : Type 0} → Option V → Outcome (Unit {0}) (List (Transaction V SetTimestamp))
  genesis_transactions new_unspendable = do
    verifier ← expect new_unspendable
    ok (
        record {
          inputs = [];
          peeks = [];
          outputs =
              record {
                payload = into_dynamic (timestamp_data codec) (record { time = 0; block = 0 });
                verifier = verifier;
              }
              ∷ [];
          checker = SetTimestamp.set_timestamp;
        }
        ∷ [])

  -- `InherentHooks for SetTimestamp`
  abbrev pub timestamp_hooks :
      {V D L : Type 0}
      → (D → Option (Option ℕ))
      → Option V
      → InherentResults L
      → InherentHooks S V SetTimestamp D L
  timestamp_hooks get_data new_unspendable results_api = record {
    create_inherent = create_inherent get_data new_unspendable;
    check_inherent = check_inherent get_data results_api;
    genesis_transactions = genesis_transactions new_unspendable;
  }
