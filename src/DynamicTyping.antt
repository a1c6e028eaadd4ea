-- ===== src/DynamicTyping.antt =====
-- tuxedo-core/src/dynamic_typing.rs: data with a type identifier, and its extraction.
pub mod Laws
pub mod Typed
use tuxedo.Base.{
  ℕ, Bytes, List, Outcome, ok, err, ok_or, map_err, expect, get_elem?, bytes_eq, if◌then◌else◌,
}
use tuxedo.Codec.{Codec, read}

-- `bytes` is the source's field `data`.
pub record DynamicallyTypedData : Type 0 where
  pub bytes : Bytes
  pub type_id : Bytes

-- The trait `UtxoData`: the codec of its supertraits, and `TYPE_ID`.
pub record UtxoData (T : Type 0) : Type 0 where
  pub codec : Codec T
  pub own_type_id : Bytes

pub data DynamicTypingError : Type 0 where
  wrong_type decoding_failed : DynamicTypingError

module _ {T : Type 0} (u : UtxoData T) where
  -- `DynamicallyTypedData::extract::<T>`
  unfoldable pub extract : DynamicallyTypedData → Outcome DynamicTypingError T
  extract d =
      if bytes_eq d.type_id u.own_type_id
      then ok_or (read u.codec d.bytes) DynamicTypingError.decoding_failed
      else err DynamicTypingError.wrong_type

  -- `DynamicallyTypedData::from`
  unfoldable pub into_dynamic : T → DynamicallyTypedData
  into_dynamic value = record { bytes = u.codec.encode value; type_id = u.own_type_id }

  -- `extract::<T>().map_err(|_| error)`
  unfoldable pub extract_or : {E : Type 0} → E → DynamicallyTypedData → Outcome E T
  extract_or error d = map_err (λ (e : DynamicTypingError). error) (extract d)

-- Indexing into a slice of data.
abbrev pub datum_at : {E : Type 0} → List DynamicallyTypedData → ℕ → Outcome E DynamicallyTypedData
datum_at ds i = expect (get_elem? ds i)
