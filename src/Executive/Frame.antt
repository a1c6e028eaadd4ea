-- ===== src/Executive/Frame.antt =====
-- What the execution of a transaction reads and writes (tuxedo-core/src/executive.rs): the
-- transient keys of a block under construction are neither.
use mathlib.Core.Path.{fun_ext}
use tuxedo.Base.{
  ℕ, zero, suc, ◌+◌, Bytes, List, [], ◌∷◌, none, some, ◌≡◌, ◌≢◌, refl, sym, ap, ◌∙◌, arith, length,
  bytes_eq, eq_of_bytes_eq, inl, inr, Option-cases, if◌then◌else◌, Option,
}
use tuxedo.DynamicTyping.{DynamicallyTypedData}
use tuxedo.Types.{OutputRef, RedemptionStrategy, redemption, eviction, Input, Output, Transaction}
use tuxedo.UtxoSet.{peek_utxo, consume_utxo, store_utxo}
use tuxedo.Executive.Runtime.{
  Runtime, header_key, height_key, extrinsic_key, tx_hash_of, encode_tx, height-ne-header,
  height-ne-extrinsic,
}
use tuxedo.Executive.Validation.{
  strip, new_ref, peek, block_height, redeem, check_input, gather_inputs, gather_peeks,
  check_new_outputs, check_constraints, validate_tuxedo_transaction,
}
use tuxedo.Executive.Application.{consume_inputs, store_outputs, update_storage}

-- A read at another key than the one that was written.
pub other_key :
    (k j : Bytes) {o : Option Bytes} (p q : Option Bytes)
    → o ≡ (if bytes_eq k j then p else q)
    → k ≢ j
    → o ≡ q
other_key k j p q e n = ground (arith, eq_of_bytes_eq k j)

module _ {S V R C E : Type 0} (rt : Runtime S V R C E) where
  -- The two storages hold the same under every key but the transient ones.
  abbrev pub SameChain : S → S → Type 0
  SameChain s t =
      (k : Bytes) → k ≢ header_key → k ≢ extrinsic_key → rt.storage.get s k ≡ rt.storage.get t k

  -- The constraint checker does not look at the transient keys.
  abbrev pub IsLocal : Type 0
  IsLocal =
      (s t : S)
      → SameChain s t
      → (c : C) (inputs evicted peeks outputs : List DynamicallyTypedData)
      → rt.checker.check s c inputs evicted peeks outputs
        ≡ rt.checker.check t c inputs evicted peeks outputs

  output_ref-ne : (r : OutputRef) (k : Bytes) → length k ≢ 36 → rt.output_refs.encode r ≢ k
  output_ref-ne r k n e = n (sym (ap length e) ∙ rt.length-output_ref r)

  peek_same : (s t : S) → SameChain s t → peek rt s ≡ peek rt t
  unfolding peek_utxo
  peek_same s t same = fun_ext λ r.
      let e =
        same (rt.output_refs.encode r) (output_ref-ne r header_key (omega arith))
          (output_ref-ne r extrinsic_key (omega arith)) in
      ground arith

  height_same : (s t : S) → SameChain s t → block_height rt s ≡ block_height rt t
  unfolding block_height
  height_same s t same =
      let e = same height_key height-ne-header height-ne-extrinsic in ground arith

  redeem_same :
      (s t : S)
      → SameChain s t
      → (stripped : Bytes) (utxo : Output V) (d : Bytes)
      → redeem rt s stripped utxo d ≡ redeem rt t stripped utxo d
  unfolding redeem
  redeem_same s t same stripped utxo d = rw (height_same s t same, redeem)

  check_input_same :
      (s t : S)
      → SameChain s t
      → (stripped : Bytes) (r : OutputRef) (strategy : RedemptionStrategy)
      → let i : Input = record { output_ref = r; redeemer = strategy } in
        check_input rt s stripped i ≡ check_input rt t stripped i
  unfolding check_input
  check_input_same s t same stripped r (redemption d) = elim (Option-cases (peek rt s r)) [
    | inl e ↦ rw (e, sym (ap (λ f. f r) (peek_same s t same)) ∙ e, check_input)
    | inr (utxo, e) ↦
        rw (e, sym (ap (λ f. f r) (peek_same s t same)) ∙ e, check_input)
          (redeem_same s t same stripped utxo d)
  ]
  check_input_same s t same stripped r eviction = ground (arith, ap (λ f. f r) (peek_same s t same))

  gather_inputs_same :
      (s t : S)
      → SameChain s t
      → (stripped : Bytes) (is : List Input)
      → gather_inputs rt s stripped is ≡ gather_inputs rt t stripped is
  unfolding gather_inputs
  gather_inputs_same s t same stripped [] = refl
  gather_inputs_same s t same stripped (i ∷ is) = rw (
    check_input_same s t same stripped i.output_ref i.redeemer,
    gather_inputs_same s t same stripped is,
  )

  gather_peeks_same :
      (s t : S)
      → SameChain s t
      → (rs : List OutputRef) → gather_peeks rt s rs ≡ gather_peeks rt t rs
  unfolding gather_peeks
  gather_peeks_same s t same [] = refl
  gather_peeks_same s t same (r ∷ rs) =
      ground (arith, ap (λ f. f r) (peek_same s t same), gather_peeks_same s t same rs)

  check_new_outputs_same :
      (s t : S)
      → SameChain s t
      → (h count index : ℕ)
      → check_new_outputs rt s h count index ≡ check_new_outputs rt t h count index
  unfolding check_new_outputs
  check_new_outputs_same s t same h zero index = refl
  check_new_outputs_same s t same h (suc count) index =
      rw (peek_same s t same, check_new_outputs_same s t same h count (index + 1))

  pub validate_same :
      IsLocal
      → (s t : S) → SameChain s t
      → (tx : Transaction V C)
      → validate_tuxedo_transaction rt s tx ≡ validate_tuxedo_transaction rt t tx
  unfolding validate_tuxedo_transaction check_constraints
  validate_same local s t same tx =
      let checked : rt.checker.check s tx.checker ≡ rt.checker.check t tx.checker =
        fun_ext λ a. fun_ext λ b. fun_ext λ c. fun_ext λ d. local s t same tx.checker a b c d in
      rw (
        gather_inputs_same s t same (encode_tx rt (strip tx)) tx.inputs,
        check_new_outputs_same s t same (tx_hash_of rt tx) (length tx.outputs) 0,
        gather_peeks_same s t same tx.peeks,
        checked,
      )

  -- A write makes what two storages hold under a key no more different.
  consume_inputs_same :
      (k : Bytes) (is : List Input) (s t : S)
      → rt.storage.get s k ≡ rt.storage.get t k
      → rt.storage.get (consume_inputs rt s is) k ≡ rt.storage.get (consume_inputs rt t is) k
  unfolding consume_inputs consume_utxo
  consume_inputs_same k [] s t e = e
  consume_inputs_same k (i ∷ is) s t e =
      let key = rt.output_refs.encode i.output_ref in
      consume_inputs_same k is (rt.storage.clear s key) (rt.storage.clear t key)
        (ground (arith, rt.storage.get-clear s key k, rt.storage.get-clear t key k))

  store_outputs_same :
      (k : Bytes) (h index : ℕ) (os : List (Output V)) (s t : S)
      → rt.storage.get s k ≡ rt.storage.get t k
      → rt.storage.get (store_outputs rt s h index os) k
        ≡ rt.storage.get (store_outputs rt t h index os) k
  unfolding store_outputs store_utxo
  store_outputs_same k h index [] s t e = e
  store_outputs_same k h index (o ∷ os) s t e =
      let key = rt.output_refs.encode (new_ref h index) in
      let d = rt.outputs.encode o in
      store_outputs_same k h (index + 1) os (rt.storage.set s key d) (rt.storage.set t key d)
        (ground (arith, rt.storage.get-set s key d k, rt.storage.get-set t key d k))

  pub update_storage_same :
      (s t : S) (tx : Transaction V C) (k : Bytes)
      → rt.storage.get s k ≡ rt.storage.get t k
      → rt.storage.get (update_storage rt s tx) k ≡ rt.storage.get (update_storage rt t tx) k
  unfolding update_storage
  update_storage_same s t tx k e =
      store_outputs_same k (tx_hash_of rt tx) 0 tx.outputs _ _
        (consume_inputs_same k tx.inputs s t e)

  -- Under a key that is no output reference nothing is written.
  consume_inputs_frame :
      (k : Bytes) (is : List Input) (s : S)
      → length k ≢ 36
      → rt.storage.get (consume_inputs rt s is) k ≡ rt.storage.get s k
  unfolding consume_inputs consume_utxo
  consume_inputs_frame k [] s n = refl
  consume_inputs_frame k (i ∷ is) s n =
      let key = rt.output_refs.encode i.output_ref in
      consume_inputs_frame k is (rt.storage.clear s key) n
      ∙ other_key key k none _ (rt.storage.get-clear s key k) (output_ref-ne i.output_ref k n)

  store_outputs_frame :
      (k : Bytes) (h index : ℕ) (os : List (Output V)) (s : S)
      → length k ≢ 36
      → rt.storage.get (store_outputs rt s h index os) k ≡ rt.storage.get s k
  unfolding store_outputs store_utxo
  store_outputs_frame k h index [] s n = refl
  store_outputs_frame k h index (o ∷ os) s n =
      let key = rt.output_refs.encode (new_ref h index) in
      store_outputs_frame k h (index + 1) os (rt.storage.set s key (rt.outputs.encode o)) n
      ∙ other_key key k (some (rt.outputs.encode o)) _
          (rt.storage.get-set s key (rt.outputs.encode o) k) (output_ref-ne (new_ref h index) k n)

  pub update_storage_frame :
      (s : S) (tx : Transaction V C) (k : Bytes)
      → length k ≢ 36
      → rt.storage.get (update_storage rt s tx) k ≡ rt.storage.get s k
  unfolding update_storage
  update_storage_frame s tx k n =
      store_outputs_frame k (tx_hash_of rt tx) 0 tx.outputs _ n
      ∙ consume_inputs_frame k tx.inputs s n
