-- ===== src/Amoeba.antt =====
-- wardrobe/amoeba/src/lib.rs: a piece that tracks amoeba populations.
pub mod Life
mod Tests
use tuxedo.Base.{
  ℕ, ◌+◌, ◌%◌, ◌^◌, ◌==◌, Bytes, List, [], ◌∷◌, length, is_empty, not, Outcome, ok, ensure, ◌>>=◌,
  ◌>>◌,
}
use tuxedo.Codec.{Codec}
use tuxedo.DynamicTyping.{DynamicallyTypedData, UtxoData, extract_or, datum_at}

-- `generation` is a `u32`.
pub record AmoebaDetails : Type 0 where
  pub generation : ℕ
  pub four_bytes : Bytes

pub data AmoebaError : Type 0 where
  badly_typed_input badly_typed_output no_evictions_allowed : AmoebaError
  created_nothing created_too_many creation_may_not_consume : AmoebaError
  no_victim too_many_victims death_may_not_create : AmoebaError
  wrong_number_of_daughters wrong_number_of_mothers wrong_generation : AmoebaError

-- `UtxoData for AmoebaDetails`
abbrev pub amoeba_data : Codec AmoebaDetails → UtxoData AmoebaDetails
amoeba_data codec = record { codec = codec; own_type_id = b'a' ∷ b'm' ∷ b'o' ∷ b'e' ∷ [] }

-- `mother.generation + 1` as the release build computes it.
abbrev pub next_generation : ℕ → ℕ
next_generation g = (g + 1) % 2 ^ 32

module _ (codec : Codec AmoebaDetails) where
  -- `AmoebaMitosis::check`
  unfoldable pub check_mitosis :
      (input_data evicted_input_data peeks output_data : List DynamicallyTypedData)
      → Outcome AmoebaError ℕ
  check_mitosis input_data evicted_input_data peeks output_data = do
    ensure (is_empty evicted_input_data) AmoebaError.no_evictions_allowed
    ensure (length input_data == 1) AmoebaError.wrong_number_of_mothers
    input ← datum_at input_data 0
    mother ← extract_or (amoeba_data codec) AmoebaError.badly_typed_input input
    ensure (length output_data == 2) AmoebaError.wrong_number_of_daughters
    first ← datum_at output_data 0
    first_daughter ← extract_or (amoeba_data codec) AmoebaError.badly_typed_output first
    second ← datum_at output_data 1
    second_daughter ← extract_or (amoeba_data codec) AmoebaError.badly_typed_output second
    ensure (first_daughter.generation == next_generation mother.generation)
        AmoebaError.wrong_generation
    ensure (second_daughter.generation == next_generation mother.generation)
        AmoebaError.wrong_generation
    ok 0

  -- `AmoebaDeath::check`
  unfoldable pub check_death :
      (input_data evicted_input_data peeks output_data : List DynamicallyTypedData)
      → Outcome AmoebaError ℕ
  check_death input_data evicted_input_data peeks output_data = do
    ensure (is_empty evicted_input_data) AmoebaError.no_evictions_allowed
    ensure (not (is_empty input_data)) AmoebaError.no_victim
    ensure (length input_data == 1) AmoebaError.too_many_victims
    input ← datum_at input_data 0
    victim ← extract_or (amoeba_data codec) AmoebaError.badly_typed_input input
    ensure (is_empty output_data) AmoebaError.death_may_not_create
    ok 0

  -- `AmoebaCreation::check`
  unfoldable pub check_creation :
      (input_data evicted_input_data peeks output_data : List DynamicallyTypedData)
      → Outcome AmoebaError ℕ
  check_creation input_data evicted_input_data peeks output_data = do
    ensure (is_empty evicted_input_data) AmoebaError.no_evictions_allowed
    ensure (not (is_empty output_data)) AmoebaError.created_nothing
    ensure (length output_data == 1) AmoebaError.created_too_many
    output ← datum_at output_data 0
    eve ← extract_or (amoeba_data codec) AmoebaError.badly_typed_output output
    ensure (eve.generation == 0) AmoebaError.wrong_generation
    ensure (is_empty input_data) AmoebaError.creation_may_not_consume
    ok 0
