-- ===== src/Executive/Ledger.antt =====
-- The storage seen as a map from output references to outputs, and what a transaction does to it
-- (`update_storage` and `apply_tuxedo_transaction` of tuxedo-core/src/executive.rs).
use mathlib.Core.Path.{fun_ext}
use native.Mathlib.Nat.{mod-eq_of_lt}
use tuxedo.Base.{
  ℕ, suc, ◌+◌, ◌-◌, ◌<◌, ◌≤◌, ◌^◌, Bool, true, false, ◌&&◌, ◌||◌, List, [], ◌∷◌, Option, none, some,
  ◌≡◌, ◌≢◌, refl, sym, ap, ◌∙◌, arith, length, get_elem?, ok, ◌==◌, ltb, leb, if◌then◌else◌,
  Bool-cases, inl, inr, All, Bytes,
}
use tuxedo.Types.{OutputRef, Input, Output, Transaction}
use tuxedo.UtxoSet.{consume_utxo, store_utxo}
use tuxedo.UtxoSet.Laws.{ref_eq, ref_eq_iff, peek-store_utxo, peek-consume_utxo}
use tuxedo.Executive.Runtime.{Runtime, tx_hash_of}
use tuxedo.Executive.Validation.{new_ref, peek}
use tuxedo.Executive.Application.{
  consume_inputs, store_outputs, update_storage, apply_tuxedo_transaction,
}
use tuxedo.Executive.Facts.{InputOk}
use tuxedo.Executive.Validity.{apply_tuxedo_transaction_iff}

-- The abstract state.
abbrev pub Ledger : Type 0 → Type 0
Ledger V = OutputRef → Option (Output V)

-- Some input refers to the output `r`.
unfoldable pub spends : List Input → OutputRef → Bool
spends [] r = false
spends (i ∷ is) r = ref_eq i.output_ref r || spends is r

-- The abstract effect of a transaction of the hash `tx_hash`: its outputs are there under its hash
-- and their positions, what it spends is gone, and all else is as before.
abbrev pub step_ledger : {V C : Type 0} → ℕ → Transaction V C → Ledger V → Ledger V
step_ledger tx_hash tx ledger r =
    if r.tx_hash == tx_hash && ltb r.index (length tx.outputs)
    then get_elem? tx.outputs r.index
    else if spends tx.inputs r
    then none
    else ledger r

get_elem?-first {ℓ} :
    {A : Type ℓ} (x : A) (xs : List A) (i k : ℕ) → k ≡ i → get_elem? (x ∷ xs) (k - i) ≡ some x
get_elem?-first x xs i k e = let z : k - i ≡ 0 = omega arith in rw z

get_elem?-later {ℓ} :
    {A : Type ℓ} (x : A) (xs : List A) (i k : ℕ)
    → i < k
    → get_elem? (x ∷ xs) (k - i) ≡ get_elem? xs (k - (i + 1))
get_elem?-later x xs i k l = let z : k - i ≡ suc (k - (i + 1)) = omega arith in rw z

module _ {S V R C E : Type 0} (rt : Runtime S V R C E) where
  peek-consume_inputs :
      (s : S) (is : List Input) (r : OutputRef)
      → peek rt (consume_inputs rt s is) r ≡ (if spends is r then none else peek rt s r)
  unfolding consume_inputs spends
  peek-consume_inputs s [] r = refl
  peek-consume_inputs s (i ∷ is) r = ground (
    arith,
    peek-consume_inputs (consume_utxo rt.storage rt.output_refs rt.outputs s i.output_ref).1 is r,
    peek-consume_utxo rt.storage rt.output_refs rt.outputs s i.output_ref r,
  )

  new_ref_lem : (h i : ℕ) → i < 2 ^ 32 → new_ref h i ≡ record { tx_hash = h; index = i }
  unfolding new_ref
  new_ref_lem h i l = rw (mod-eq_of_lt l)

  peek-store_outputs :
      (s : S) (h i : ℕ) (os : List (Output V)) (r : OutputRef)
      → i + length os ≤ 2 ^ 32
      → peek rt (store_outputs rt s h i os) r ≡ (
          if r.tx_hash == h && (leb i r.index && ltb r.index (i + length os))
          then get_elem? os (r.index - i)
          else peek rt s r)
  unfolding store_outputs
  peek-store_outputs s h i [] r l = ground arith
  peek-store_outputs s h i (o ∷ os) r l =
      peek-store_outputs (store_utxo rt.storage rt.output_refs rt.outputs s (new_ref h i) o) h
        (i + 1) os r (omega arith)
      ∙ ground (
        arith,
        peek-store_utxo rt.storage rt.output_refs rt.outputs s (new_ref h i) r o,
        ap (λ q. ref_eq q r) (new_ref_lem h i (omega arith)),
        get_elem?-first o os i r.index,
        get_elem?-later o os i r.index,
      )

  -- The updated storage is the abstract step, for transactions with at most 2 ^ 32 outputs.
  pub peek-update_storage :
      (s : S) (tx : Transaction V C)
      → length tx.outputs ≤ 2 ^ 32
      → peek rt (update_storage rt s tx) ≡ step_ledger (tx_hash_of rt tx) tx (peek rt s)
  unfolding update_storage
  peek-update_storage s tx l = fun_ext λ r. ground (
    arith,
    peek-store_outputs (consume_inputs rt s tx.inputs) (tx_hash_of rt tx) 0 tx.outputs r,
    peek-consume_inputs s tx.inputs r,
  )

  -- For at most 2 ^ 32 outputs, a successful application acts on the UTXO set as the abstract
  -- ledger step does: the outputs are there under the transaction's hash, what it spends is gone,
  -- all else is unchanged.
  pub apply-step_ledger :
      (s t : S) (tx : Transaction V C)
      → length tx.outputs ≤ 2 ^ 32
      → apply_tuxedo_transaction rt s tx ≡ ok t
      → peek rt t ≡ step_ledger (tx_hash_of rt tx) tx (peek rt s)
  apply-step_ledger s t tx l h =
      ap (peek rt) ((apply_tuxedo_transaction_iff rt s t tx).0 h).1 ∙ peek-update_storage s tx l

  first_output :
      (h : ℕ) (tx : Transaction V C) (ledger : Ledger V) (os : List (Output V))
      → os ≡ tx.outputs
      → 0 < length os
      → step_ledger h tx ledger (new_ref h 0) ≢ none
  first_output h tx ledger [] e l = elim l [ ]
  first_output h tx ledger (o ∷ os) e l = rw (new_ref_lem h 0 (omega arith), ← e) (ground arith)

  -- A transaction with at least one and at most 2 ^ 32 outputs cannot be applied again on the
  -- storage that it left.
  pub not_applied_twice :
      (s t u : S) (tx : Transaction V C)
      → 0 < length tx.outputs
      → length tx.outputs ≤ 2 ^ 32
      → apply_tuxedo_transaction rt s tx ≡ ok t
      → apply_tuxedo_transaction rt t tx ≢ ok u
  not_applied_twice s t u tx some_output l h again =
      let x = ((apply_tuxedo_transaction_iff rt t u tx).0 again).0 in
      let fresh : peek rt t (new_ref (tx_hash_of rt tx) 0) ≡ none = x.outputs_new 0 some_output in
      first_output (tx_hash_of rt tx) tx (peek rt s) tx.outputs refl some_output
        (sym (ap (λ f. f (new_ref (tx_hash_of rt tx) 0)) (apply-step_ledger s t tx l h)) ∙ fresh)

  -- An output that an input of an executable transaction refers to is there.
  pub spends-Present :
      (s : S) (stripped : Bytes) (is : List Input) (r : OutputRef)
      → All (InputOk rt s stripped) is
      → spends is r ≡ true
      → peek rt s r ≢ none
  unfolding spends
  spends-Present s stripped [] r h e = cc
  spends-Present s stripped (i ∷ is) r (here, rest) e = elim (Bool-cases (ref_eq i.output_ref r)) [
    | inl same ↦
        let there = ap (peek rt s) (sym ((ref_eq_iff i.output_ref r).0 same)) ∙ here.1 in
        λ gone. cc (there, gone)
    | inr other ↦ spends-Present s stripped is r rest (rw other at e)
  ]

  -- What a transaction spends is gone after it.
  pub spent_gone :
      (s t : S) (tx : Transaction V C) (r : OutputRef)
      → length tx.outputs ≤ 2 ^ 32
      → r.tx_hash ≢ tx_hash_of rt tx
      → apply_tuxedo_transaction rt s tx ≡ ok t
      → spends tx.inputs r ≡ true
      → peek rt t r ≡ none
  spent_gone s t tx r l old h spent = ap (λ f. f r) (apply-step_ledger s t tx l h) ∙ ground arith

  -- What is not there is not an input of an applied transaction.
  pub gone-unspent :
      (s t : S) (tx : Transaction V C) (r : OutputRef)
      → peek rt s r ≡ none
      → apply_tuxedo_transaction rt s tx ≡ ok t
      → spends tx.inputs r ≡ false
  gone-unspent s t tx r gone h = elim (Bool-cases (spends tx.inputs r)) [
    | inl again ↦ absurd (
        spends-Present s _ tx.inputs r ((apply_tuxedo_transaction_iff rt s t tx).0 h).0.inputs_ok
          again gone)
    | inr e ↦ e
  ]

  -- So it is not an input of the next transaction.
  not_spent_twice :
      (s t u : S) (tx next : Transaction V C) (r : OutputRef)
      → length tx.outputs ≤ 2 ^ 32
      → r.tx_hash ≢ tx_hash_of rt tx
      → apply_tuxedo_transaction rt s tx ≡ ok t
      → spends tx.inputs r ≡ true
      → apply_tuxedo_transaction rt t next ≡ ok u
      → spends next.inputs r ≡ false
  not_spent_twice s t u tx next r l old h spent later =
      gone-unspent t u next r (spent_gone s t tx r l old h spent) later
