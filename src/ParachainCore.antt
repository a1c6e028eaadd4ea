-- ===== src/ParachainCore.antt =====
-- tuxedo-parachain-core/src: the relay parent's number in the storage (lib.rs), the collation
-- information (collation_api.rs) and the validation of a block (validate_block.rs).
pub mod HostFunctions
pub mod Validity
pub mod Collation
mod Tests
use tuxedo.Base.{
  ℕ, Bytes, Bool, true, false, not, List, [], ◌∷◌, Option, none, some, ◌==◌, bytes_eq, get_elem?,
  Outcome, ok, err, panic, expect, expect_ok, assert, ◌>>=◌, ◌>>◌, if◌then◌else◌,
}
use tuxedo.Codec.{Codec, read}
use tuxedo.Host.{StorageApi}
use tuxedo.DynamicTyping.{UtxoData, DynamicTypingError, extract}
use tuxedo.Types.{Output, Transaction, is_signed}
use tuxedo.Executive.Runtime.{Header, Block}
use tuxedo.Executive.Writes.{WritingRuntime, execute_block_with_writes}

-- `RELAY_PARENT_NUMBER_KEY`
abbrev pub relay_parent_number_key : Bytes
relay_parent_number_key =
    b'r' ∷ b'e' ∷ b'l' ∷ b'a' ∷ b'y' ∷ b'_' ∷ b'p' ∷ b'a' ∷ b'r' ∷ b'e' ∷ b'n' ∷ b't' ∷ b'_' ∷ b'n'
    ∷ b'u' ∷ b'm' ∷ b'b' ∷ b'e' ∷ b'r' ∷ []

-- `RelayParentNumberStorage`, at the codec of `u32`.
module _ {S : Type 0} (storage : StorageApi S) (numbers : Codec ℕ) where
  unfoldable pub get_relay_parent_number : S → Outcome (Unit {0}) ℕ
  get_relay_parent_number s = do
    encoded ← expect (storage.get s relay_parent_number_key)
    expect (read numbers encoded)

  unfoldable pub set_relay_parent_number : S → ℕ → S
  set_relay_parent_number s new_parent_number =
      storage.set s relay_parent_number_key (numbers.encode new_parent_number)

pub record MemoryOptimizedValidationParams : Type 0 where
  pub parent_head : Bytes
  pub block_data : Bytes
  pub relay_parent_number : ℕ
  pub relay_parent_storage_root : ℕ

-- Cumulus' `PersistedValidationData`, the part of it that is compared.
pub record PersistedValidationData : Type 0 where
  pub parent_head : Bytes
  pub relay_parent_number : ℕ
  pub relay_parent_storage_root : ℕ

-- Polkadot's `ValidationResult` and Cumulus' `CollationInfo`, the fields that are not always
-- empty.
pub record ValidationResult : Type 0 where
  pub head_data : Bytes
  pub hrmp_watermark : ℕ

pub record CollationInfo : Type 0 where
  pub head_data : Bytes
  pub hrmp_watermark : ℕ

-- What `validate_block` is built over. `P` is Cumulus' `ParachainInherentData` and `K` a compact
-- storage proof; `to_memory_db` gives the storage that a proof holds, if it proves this root. The
-- executive is the one of tuxedo-core, with what the checker writes to the storage.
pub record ParachainRuntime (S V R C E P K : Type 0) : Type 0 where
  pub executive : WritingRuntime S V R C E
  pub numbers : Codec ℕ
  pub header_hash : Header → ℕ
  pub blocks : Codec (Block V C × K)
  pub info_data : UtxoData P
  pub validation_data : P → PersistedValidationData
  pub is_parachain : C → Bool
  pub to_memory_db : K → ℕ → Option S

module _ {S V R C E P K : Type 0} (rt : ParachainRuntime S V R C E P K) where
  -- `collect_collation_info`
  unfoldable pub collect_collation_info : S → Header → Outcome (Unit {0}) CollationInfo
  collect_collation_info s header = do
    watermark ← get_relay_parent_number rt.executive.core.storage rt.numbers s
    ok (record { head_data = rt.executive.core.headers.encode header; hrmp_watermark = watermark })

  -- `is_signed().unwrap_or(true)`
  abbrev pub maybe_signed : Option Bool → Bool
  maybe_signed none = true
  maybe_signed (some b) = b

  -- `take_while(|e| !e.is_signed().unwrap_or(true))`
  unfoldable pub opening : List (Transaction V C) → List (Transaction V C)
  opening [] = []
  opening (e ∷ es) =
      let rest = opening es in
      if not (maybe_signed (is_signed rt.executive.core.checker.is_inherent e))
      then e ∷ rest
      else []

  -- `find(|e| e.checker.is_parachain())`
  unfoldable pub find_parachain : List (Transaction V C) → Option (Transaction V C)
  find_parachain [] = none
  find_parachain (e ∷ es) =
      let rest = find_parachain es in if rt.is_parachain e.checker then some e else rest

  -- The chain of calls that reads the inherent data off the block.
  unfoldable pub inherent_data_of : Block V C → Outcome (Unit {0}) P
  inherent_data_of block = do
    inherent ← expect (find_parachain (opening block.extrinsics))
    output ← expect (get_elem? inherent.outputs 0)
    expect_ok (extract rt.info_data output.payload)

  -- `validate_validation_data`
  unfoldable pub validate_validation_data :
      PersistedValidationData → ℕ → ℕ → Bytes → Outcome (Unit {0}) (Unit {0})
  validate_validation_data data' relay_parent_number relay_parent_storage_root parent_head = do
    assert (bytes_eq parent_head data'.parent_head)
    assert (relay_parent_number == data'.relay_parent_number)
    assert (relay_parent_storage_root == data'.relay_parent_storage_root)

  -- `validate_block`
  unfoldable pub validate_block :
      MemoryOptimizedValidationParams → Outcome (Unit {0}) ValidationResult
  validate_block params = do
    block_data ← expect (read rt.blocks params.block_data)
    parent_header ← expect (read rt.executive.core.headers params.parent_head)
    let block = block_data.0
    assert (rt.header_hash parent_header == block.header.parent_hash)
    inherent_data ← inherent_data_of block
    validate_validation_data (rt.validation_data inherent_data) params.relay_parent_number
        params.relay_parent_storage_root params.parent_head
    s ← expect (rt.to_memory_db block_data.1 parent_header.state_root)
    t ← execute_block_with_writes rt.executive s block
    hrmp_watermark ← get_relay_parent_number rt.executive.core.storage rt.numbers t
    ok (record {
      head_data = rt.executive.core.headers.encode block.header;
      hrmp_watermark = hrmp_watermark;
    })
