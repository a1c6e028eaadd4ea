-- ===== src/Executive/Validation.antt =====
-- `validate_tuxedo_transaction` and `validate_transaction` (tuxedo-core/src/executive.rs).
use tuxedo.Base.{
  ℕ, zero, suc, ◌+◌, ◌-◌, ◌%◌, ◌^◌, Bytes, Bool, true, false, List, [], ◌∷◌, ◌++◌, map, Option,
  none, some, ◌==◌, length, is_empty, set_of, bytes_eq, Outcome, ok, err, panic, ◌>>=◌, ◌>>◌,
  ensure, ok_or, expect, map_err, if◌then◌else◌,
}
use tuxedo.Codec.{read}
use tuxedo.DynamicTyping.{DynamicallyTypedData}
use tuxedo.Types.{
  OutputRef, redemption, eviction, default_redeemer, Input, Output, Transaction, UtxoError,
  InvalidTransaction, to_invalid,
}
use tuxedo.UtxoSet.{peek_utxo}
use tuxedo.Executive.Runtime.{Runtime, height_key, encode_tx, tx_hash_of}

-- sp_runtime's `ValidTransaction`.
pub record ValidTransaction : Type 0 where
  pub requires : List Bytes
  pub provides : List Bytes
  pub priority : ℕ
  pub longevity : ℕ
  pub propagate : Bool

-- The three vectors that the loop over the inputs fills.
pub record Gathered : Type 0 where
  pub input_data : List DynamicallyTypedData
  pub evicted_input_data : List DynamicallyTypedData
  pub missing_inputs : List Bytes

-- Where one input goes.
pub data Found : Type 0 where
  redeemed evicted : DynamicallyTypedData → Found
  missing : Bytes → Found

unfoldable pub add_found : Found → Gathered → Gathered
add_found (Found.redeemed d) g = record g { input_data = d ∷ g.input_data }
add_found (Found.evicted d) g = record g { evicted_input_data = d ∷ g.evicted_input_data }
add_found (Found.missing r) g = record g { missing_inputs = r ∷ g.missing_inputs }

abbrev pub is_none {ℓ} : {A : Type ℓ} → Option A → Bool
is_none none = true
is_none (some a) = false

-- The transaction with the redeemers replaced by the default.
unfoldable pub strip_inputs : List Input → List Input
strip_inputs [] = []
strip_inputs (i ∷ is) = record i { redeemer = default_redeemer } ∷ strip_inputs is

unfoldable pub strip : {V C : Type 0} → Transaction V C → Transaction V C
strip tx = record tx { inputs = strip_inputs tx.inputs }

-- `OutputRef { tx_hash, index: index as u32 }`
unfoldable pub new_ref : ℕ → ℕ → OutputRef
new_ref tx_hash index = record { tx_hash = tx_hash; index = index % 2 ^ 32 }

unfoldable pub payloads : {V : Type 0} → List (Output V) → List DynamicallyTypedData
payloads [] = []
payloads (o ∷ os) = o.payload ∷ payloads os

module _ {S V R C E : Type 0} (rt : Runtime S V R C E) where
  abbrev pub peek : S → OutputRef → Option (Output V)
  peek = peek_utxo rt.storage rt.output_refs rt.outputs

  -- `block_height`
  unfoldable pub block_height : S → Outcome (UtxoError E) ℕ
  block_height s = elim (rt.storage.get s height_key) [
    | none ↦ panic
    | some d ↦ expect (read rt.block_numbers d)
  ]

  unfoldable pub has_duplicates : List Input → Bool
  has_duplicates inputs =
      if length (set_of bytes_eq (map rt.inputs.encode inputs)) == length inputs
      then false
      else true

  -- The redeemer is decoded, then the block height is read, then the verifier is asked.
  unfoldable pub redeem : S → Bytes → Output V → Bytes → Outcome (UtxoError E) Found
  redeem s stripped_encoded utxo redeemer_bytes = do
    redeemer ← ok_or (read rt.verifier.redeemer_codec redeemer_bytes) UtxoError.verifier_error
    height ← block_height s
    verified ← expect (rt.verifier.verify utxo.verifier stripped_encoded height redeemer)
    ensure verified UtxoError.verifier_error
    ok (Found.redeemed utxo.payload)

  unfoldable pub check_input : S → Bytes → Input → Outcome (UtxoError E) Found
  check_input s stripped_encoded input = elim (peek s input.output_ref) [
    | none ↦ ok (Found.missing (rt.output_refs.encode input.output_ref))
    | some utxo ↦ elim input.redeemer [
      | redemption redeemer_bytes ↦ redeem s stripped_encoded utxo redeemer_bytes
      | eviction ↦ ok (Found.evicted utxo.payload)
    ]
  ]

  unfoldable pub gather_inputs : S → Bytes → List Input → Outcome (UtxoError E) Gathered
  gather_inputs s stripped_encoded [] =
      ok (record { input_data = []; evicted_input_data = []; missing_inputs = [] })
  gather_inputs s stripped_encoded (i ∷ is) = do
    found ← check_input s stripped_encoded i
    rest ← gather_inputs s stripped_encoded is
    ok (add_found found rest)

  -- The payloads of the peeks that are there, and the references of those that are not.
  unfoldable pub gather_peeks : S → List OutputRef → List DynamicallyTypedData × List Bytes
  gather_peeks s [] = ([], [])
  gather_peeks s (r ∷ rs) =
      let rest = gather_peeks s rs in
      elim (peek s r) [
        | none ↦ (rest.0, rt.output_refs.encode r ∷ rest.1)
        | some utxo ↦ (utxo.payload ∷ rest.0, rest.1)
      ]

  -- `for index in 0..outputs.len()`, from `index` on with `count` rounds left.
  unfoldable pub check_new_outputs : S → ℕ → ℕ → ℕ → Outcome (UtxoError E) (Unit {0})
  check_new_outputs s tx_hash zero index = ok tt
  check_new_outputs s tx_hash (suc count) index = do
    ensure (is_none (peek s (new_ref tx_hash index))) UtxoError.pre_existing_output
    check_new_outputs s tx_hash count (index + 1)

  unfoldable pub provided_tags : ℕ → ℕ → ℕ → List Bytes
  provided_tags tx_hash zero index = []
  provided_tags tx_hash (suc count) index =
      rt.output_refs.encode (new_ref tx_hash index) ∷ provided_tags tx_hash count (index + 1)

  abbrev pub valid : List Bytes → List Bytes → ValidTransaction
  valid requires provides = record {
    requires = requires;
    provides = provides;
    priority = 0;
    longevity = 2 ^ 64 - 1;
    propagate = true;
  }

  -- The call of the constraint checker, on a transaction that misses nothing.
  unfoldable pub check_constraints :
      S → Transaction V C → Gathered → List DynamicallyTypedData → Outcome (UtxoError E) ℕ
  check_constraints s tx gathered peek_data = map_err UtxoError.constraint_checker_error (
      rt.checker.check s tx.checker gathered.input_data gathered.evicted_input_data peek_data
        (payloads tx.outputs))

  -- `validate_tuxedo_transaction`; the checker's priority is dropped.
  unfoldable pub validate_tuxedo_transaction :
      S → Transaction V C → Outcome (UtxoError E) ValidTransaction
  validate_tuxedo_transaction s tx = do
    ensure (if has_duplicates tx.inputs then false else true) UtxoError.duplicate_input
    gathered ← gather_inputs s (encode_tx rt (strip tx)) tx.inputs
    let peeked = gather_peeks s tx.peeks
    let tx_hash = tx_hash_of rt tx
    check_new_outputs s tx_hash (length tx.outputs) 0
    let provides = provided_tags tx_hash (length tx.outputs) 0
    let missing_inputs = gathered.missing_inputs ++ peeked.1
    let checked = check_constraints s tx gathered peeked.0
    if is_empty missing_inputs
        then (checked >>= λ (priority : ℕ). ok (valid [] provides))
        else ok (valid missing_inputs provides)

  -- `validate_transaction`, the entry of the pool: inherents are refused.
  unfoldable pub validate_transaction :
      S → Transaction V C → Outcome InvalidTransaction ValidTransaction
  validate_transaction s tx =
      if rt.checker.is_inherent tx.checker
      then err InvalidTransaction.call
      else map_err to_invalid (validate_tuxedo_transaction s tx)
