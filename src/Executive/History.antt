-- ===== src/Executive/History.antt =====
-- The states that a chain goes through, one applied transaction after the other
-- (`apply_tuxedo_transaction` of tuxedo-core/src/executive.rs).
use tuxedo.Base.{
  ℕ, ◌≤◌, ◌^◌, List, [], ◌∷◌, some, none, ok, length, get_elem?, ◌==◌, ltb, ◌&&◌, Bool-cases, inl,
  inr, ◌⊎◌, All, Option-cases, true, false, ◌≢◌, ◌≡◌, sym, ap, ◌∙◌, arith,
}
use tuxedo.Types.{OutputRef, Output, Transaction}
use tuxedo.Executive.Runtime.{Runtime, tx_hash_of}
use tuxedo.Executive.Validation.{peek}
use tuxedo.Executive.Application.{apply_tuxedo_transaction}
use tuxedo.Executive.Ledger.{
  Ledger, spends, step_ledger, apply-step_ledger, spent_gone, gone-unspent,
}

-- What is there after a step was created by it or was there before.
pub created_or_there :
    {V C : Type 0} (h : ℕ) (tx : Transaction V C) (ledger : Ledger V) (r : OutputRef) (o : Output V)
    → step_ledger h tx ledger r ≡ some o
    → ((r.tx_hash ≡ h) × (get_elem? tx.outputs r.index ≡ some o)) ⊎ (ledger r ≡ some o)
created_or_there h tx ledger r o e =
    elim (Bool-cases (r.tx_hash == h && ltb r.index (length tx.outputs))) [
      | inl new ↦ inl (ground arith, rw new at e)
      | inr old ↦ elim (Bool-cases (spends tx.inputs r)) [
        | inl gone ↦ cc (rw (old, gone) at e)
        | inr kept ↦ inr (rw (old, kept) at e)
      ]
    ]

module _ {S V R C E : Type 0} (rt : Runtime S V R C E) where
  -- The storages that applied transactions of at most 2 ^ 32 outputs lead to.
  pub data Reach (s : S) : S → Type 0 where
    here : Reach s s
    next :
        {t u : S} (tx : Transaction V C)
        → Reach s t
        → length tx.outputs ≤ 2 ^ 32
        → apply_tuxedo_transaction rt t tx ≡ ok u
        → Reach s u

  -- The transactions, the last one first.
  abbrev pub applied : {s t : S} → Reach s t → List (Transaction V C)
  applied here = []
  applied (next tx before size ran) = tx ∷ applied before

  -- One of the transactions created the output under its hash.
  abbrev pub CreatedBy : List (Transaction V C) → OutputRef → Output V → Type 0
  CreatedBy [] r o = ⊥
  CreatedBy (tx ∷ txs) r o =
      ((r.tx_hash ≡ tx_hash_of rt tx) × (get_elem? tx.outputs r.index ≡ some o)) ⊎ CreatedBy txs r o

  peek-next :
      (t u : S) (tx : Transaction V C) (r : OutputRef) (o : Output V)
      → length tx.outputs ≤ 2 ^ 32
      → apply_tuxedo_transaction rt t tx ≡ ok u
      → peek rt u r ≡ some o
      → ((r.tx_hash ≡ tx_hash_of rt tx) × (get_elem? tx.outputs r.index ≡ some o))
        ⊎ (peek rt t r ≡ some o)
  peek-next t u tx r o size ran e =
      created_or_there (tx_hash_of rt tx) tx (peek rt t) r o
        (sym (ap (λ f. f r) (apply-step_ledger rt t u tx size ran)) ∙ e)

  -- After any sequence of applied transactions of at most 2 ^ 32 outputs, every output in the
  -- storage was created by one of them, under its hash and at the reference's index, or was there
  -- at the start.
  pub peek-CreatedBy :
      {s t : S} (h : Reach s t) (r : OutputRef) (o : Output V)
      → peek rt t r ≡ some o
      → CreatedBy (applied h) r o ⊎ (peek rt s r ≡ some o)
  peek-CreatedBy here r o e = inr e
  peek-CreatedBy (next {t} {u} tx before size ran) r o e = elim (peek-next t u tx r o size ran e) [
    | inl new ↦ inl (inl new)
    | inr old ↦ elim (peek-CreatedBy before r o old) [
      | inl created ↦ inl (inr created)
      | inr first ↦ inr first
    ]
  ]

  -- A property of the first outputs and of all that are created is one of all outputs.
  pub Reach-All :
      {s t : S} (P : Output V → Type 0)
      → ((u : S) (tx : Transaction V C) (v : S) (i : ℕ) (o : Output V)
          → apply_tuxedo_transaction rt u tx ≡ ok v
          → get_elem? tx.outputs i ≡ some o
          → P o)
      → Reach s t
      → ((r : OutputRef) (o : Output V) → peek rt s r ≡ some o → P o)
      → (r : OutputRef) (o : Output V) → peek rt t r ≡ some o
      → P o
  Reach-All P created here first r o e = first r o e
  Reach-All P created (next {t} {u} tx before size ran) first r o e =
      elim (peek-next t u tx r o size ran e) [
        | inl (_, new) ↦ created t tx u r.index o ran new
        | inr old ↦ Reach-All P created before first r o old
      ]

  -- No transaction has this hash.
  abbrev pub NoneHas : ℕ → List (Transaction V C) → Type 0
  NoneHas hash txs = All (λ (tx : Transaction V C). hash ≢ tx_hash_of rt tx) txs

  not-CreatedBy :
      (txs : List (Transaction V C)) (r : OutputRef) (o : Output V)
      → NoneHas r.tx_hash txs
      → CreatedBy txs r o
      → ⊥
  not-CreatedBy [] r o n c = c
  not-CreatedBy (tx ∷ txs) r o n (inl (e, _)) = n.0 e
  not-CreatedBy (tx ∷ txs) r o n (inr c) = not-CreatedBy txs r o n.1 c

  -- What is not there stays away until its creator is applied.
  stays_gone :
      {s t : S} (h : Reach s t) (r : OutputRef)
      → NoneHas r.tx_hash (applied h)
      → peek rt s r ≡ none
      → peek rt t r ≡ none
  stays_gone {s} {t} h r n gone = elim (Option-cases (peek rt t r)) [
    | inl e ↦ e
    | inr (o, there) ↦ elim (peek-CreatedBy h r o there) [
      | inl created ↦ absurd (not-CreatedBy (applied h) r o n created)
      | inr first ↦ cc (first, gone)
    ]
  ]

  -- An output that an applied transaction (of at most 2 ^ 32 outputs, and of another hash than the
  -- output's) spends is not an input of any transaction applied later, however many of at most 2 ^
  -- 32 outputs come in between, if none of those has the output's hash.
  pub not_spent_later :
      (s t u v : S) (tx later : Transaction V C) (r : OutputRef)
      → length tx.outputs ≤ 2 ^ 32
      → r.tx_hash ≢ tx_hash_of rt tx
      → apply_tuxedo_transaction rt s tx ≡ ok t
      → spends tx.inputs r ≡ true
      → (h : Reach t u) → NoneHas r.tx_hash (applied h)
      → apply_tuxedo_transaction rt u later ≡ ok v
      → spends later.inputs r ≡ false
  not_spent_later s t u v tx later r size old ran spent h n again =
      gone-unspent rt u v later r (stays_gone h r n (spent_gone rt s t tx r size old ran spent))
        again
