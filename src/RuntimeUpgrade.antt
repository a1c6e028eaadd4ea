-- ===== src/RuntimeUpgrade.antt =====
-- wardrobe/runtime_upgrade/src/lib.rs: replacing the runtime's code.
pub mod Code
mod Tests
use tuxedo.Base.{
  ℕ, Bytes, ◌==◌, List, [], ◌∷◌, length, is_empty, Outcome, ok, expect, ensure, ◌>>=◌, ◌>>◌,
}
use tuxedo.Codec.{Codec}
use tuxedo.Host.{StorageApi}
use tuxedo.DynamicTyping.{DynamicallyTypedData, UtxoData, extract_or, datum_at}

-- The 32 bytes of the hash as a number.
pub record RuntimeRef : Type 0 where
  pub hash : ℕ

-- `UtxoData for RuntimeRef`
abbrev pub runtime_data : Codec RuntimeRef → UtxoData RuntimeRef
runtime_data codec = record { codec = codec; own_type_id = b'u' ∷ b'p' ∷ b'g' ∷ b'd' ∷ [] }

pub data UpgradeError : Type 0 where
  wrong_number_inputs wrong_number_outputs badly_typed_input badly_typed_output : UpgradeError
  no_evictions_allowed input_mismatch output_mismatch : UpgradeError

pub record RuntimeUpgrade : Type 0 where
  pub full_wasm : Bytes

-- `well_known_keys::CODE`
abbrev pub code_key : Bytes
code_key = b':' ∷ b'c' ∷ b'o' ∷ b'd' ∷ b'e' ∷ []

module _ {S : Type 0} (storage : StorageApi S) (blake2_256 : Bytes → ℕ)
    (codec : Codec RuntimeRef) where
  -- `RuntimeUpgrade::check`, with the storage that its side effect leaves.
  unfoldable pub check_upgrade :
      S
      → RuntimeUpgrade
      → (input_data evicted_input_data peeks output_data : List DynamicallyTypedData)
      → Outcome UpgradeError (ℕ × S)
  check_upgrade s self input_data evicted_input_data peeks output_data = do
    ensure (is_empty evicted_input_data) UpgradeError.no_evictions_allowed
    ensure (length input_data == 1) UpgradeError.wrong_number_inputs
    input ← datum_at input_data 0
    consumed ← extract_or (runtime_data codec) UpgradeError.badly_typed_input input
    outgoing_runtime ← expect (storage.get s code_key)
    ensure (consumed.hash == blake2_256 outgoing_runtime) UpgradeError.input_mismatch
    ensure (length output_data == 1) UpgradeError.wrong_number_outputs
    output ← datum_at output_data 0
    created ← extract_or (runtime_data codec) UpgradeError.badly_typed_output output
    ensure (created.hash == blake2_256 self.full_wasm) UpgradeError.output_mismatch
    ok (0, storage.set s code_key self.full_wasm)
