-- ===== src/DynamicTyping/Laws.antt =====
-- What the type identifier promises.
use tuxedo.Base.{◌≡◌, ◌≢◌, ok, err, arith, bytes_eq_self, eq_of_bytes_eq}
use tuxedo.Codec.{read-encode}
use tuxedo.DynamicTyping.{DynamicallyTypedData, UtxoData, DynamicTypingError, extract, into_dynamic}

module _ {T : Type 0} (u : UtxoData T) where
  pub extract-into_dynamic : (v : T) → extract u (into_dynamic u v) ≡ ok v
  unfolding extract into_dynamic
  extract-into_dynamic v = ground (arith, bytes_eq_self u.own_type_id, read-encode u.codec v)

  -- Extraction succeeds only at the own type identifier.
  pub type_id_of_extract :
      (d : DynamicallyTypedData) (v : T) → extract u d ≡ ok v → d.type_id ≡ u.own_type_id
  unfolding extract
  type_id_of_extract d v h = ground (arith, eq_of_bytes_eq d.type_id u.own_type_id)

-- Data packed at one type is refused as of the wrong type by an extraction at a type with another
-- identifier.
pub extract_confined :
    {T U : Type 0} (t : UtxoData T) (u : UtxoData U) (v : T)
    → t.own_type_id ≢ u.own_type_id
    → extract u (into_dynamic t v) ≡ err DynamicTypingError.wrong_type
unfolding extract into_dynamic
extract_confined t u v n = ground (arith, eq_of_bytes_eq t.own_type_id u.own_type_id)
