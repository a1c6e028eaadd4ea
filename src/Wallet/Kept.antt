-- ===== src/Wallet/Kept.antt =====
-- Transactions leave the tables of blocks alone (wallet/src/sync.rs).
use tuxedo.Base.{
  ℕ, zero, suc, ◌+◌, Bytes, List, length, [], ◌∷◌, ◌≡◌, refl, ap, ◌∙◌, ok, ok_or, map_err,
  >>=-eq-ok, ok_injective, bytes_eq, Bool-cases, inl, inr,
}
use tuxedo.DynamicTyping.{extract}
use tuxedo.Types.{Input, Output}
use tuxedo.Types.Encoding.{encode_transaction}
use tuxedo.Executive.Validation.{new_ref}
use tuxedo.Wallet.{
  Db, Wallet, add_unspent_output, remove_unspent_output, move_all, spend_inputs, unspend_inputs,
  apply_coin, apply_timestamp, apply_output, apply_outputs, hash_of, decoded, apply_transaction,
  apply_transactions, remove_outputs, unapply_transaction, unapply_transactions,
}

module _ {T V C : Type 0} (w : Wallet T V C) where
  -- The second database has the tables of blocks of the first.
  abbrev pub IsKept : Db T → Db T → Type 0
  IsKept a b = (a.block_hashes ≡ b.block_hashes) × (a.blocks ≡ b.blocks)

  same-IsKept : (a b : Db T) → a ≡ b → IsKept a b
  same-IsKept a b e = (ap (λ x. x.block_hashes) e, ap (λ x. x.blocks) e)

  trans-IsKept : (a b c : Db T) → IsKept a b → IsKept b c → IsKept a c
  trans-IsKept a b c (e, f) (g, h) = (e ∙ g, f ∙ h)

  apply_coin-IsKept :
      (db db1 : Db T) (h index : ℕ) (o : Output V)
      → apply_coin w db h index o ≡ ok db1
      → IsKept db db1
  unfolding apply_coin add_unspent_output
  apply_coin-IsKept db db1 h index o e =
      let (coin, e1, h1) = >>=-eq-ok (map_err _ (extract w.coin_data o.payload)) _ e in
      let (owner, e2, h2) = >>=-eq-ok (ok_or (w.signature_owner o.verifier) _) _ h1 in
      let made = ok_injective h2 in (ap (λ x. x.block_hashes) made, ap (λ x. x.blocks) made)

  apply_timestamp-IsKept :
      (db db1 : Db T) (o : Output V) → apply_timestamp w db o ≡ ok db1 → IsKept db db1
  unfolding apply_timestamp
  apply_timestamp-IsKept db db1 o e =
      let (time, e1, h1) = >>=-eq-ok (map_err _ (extract w.timestamp_data o.payload)) _ e in
      let made = ok_injective h1 in (ap (λ x. x.block_hashes) made, ap (λ x. x.blocks) made)

  apply_output-IsKept :
      (db db1 : Db T) (h index : ℕ) (o : Output V)
      → apply_output w db h index o ≡ ok db1
      → IsKept db db1
  unfolding apply_output
  apply_output-IsKept db db1 h index o e =
      elim (Bool-cases (bytes_eq o.payload.type_id w.coin_data.own_type_id)) [
        | inl coin ↦ elim (Bool-cases (w.filter o.verifier)) [
          | inl mine ↦ apply_coin-IsKept db db1 h index o (rw (coin, mine, apply_output) at e)
          | inr other ↦ same-IsKept db db1 (ok_injective (rw (coin, other, apply_output) at e))
        ]
        | inr no_coin ↦
            elim (Bool-cases (bytes_eq o.payload.type_id w.timestamp_data.own_type_id)) [
              | inl time ↦ apply_timestamp-IsKept db db1 o (rw (no_coin, time, apply_output) at e)
              | inr other ↦
                  same-IsKept db db1 (ok_injective (rw (no_coin, other, apply_output) at e))
            ]
      ]

  apply_outputs-IsKept :
      (db db1 : Db T) (h index : ℕ) (os : List (Output V))
      → apply_outputs w db h index os ≡ ok db1
      → IsKept db db1
  unfolding apply_outputs
  apply_outputs-IsKept db db1 h index [] e = same-IsKept db db1 (ok_injective e)
  apply_outputs-IsKept db db1 h index (o ∷ os) e =
      let (db2, e1, h1) = >>=-eq-ok (apply_output w db h index o) _ e in
      trans-IsKept db db2 db1 (apply_output-IsKept db db2 h index o e1)
        (apply_outputs-IsKept db2 db1 h (index + 1) os h1)

  spend_inputs-IsKept :
      (db db1 : Db T) (is : List Input) → spend_inputs w db is ≡ ok db1 → IsKept db db1
  unfolding spend_inputs
  spend_inputs-IsKept db db1 is e =
      let (m, e1, h1) = >>=-eq-ok (move_all w db.unspent db.spent is) _ e in
      let made = ok_injective h1 in (ap (λ x. x.block_hashes) made, ap (λ x. x.blocks) made)

  unspend_inputs-IsKept :
      (db db1 : Db T) (is : List Input) → unspend_inputs w db is ≡ ok db1 → IsKept db db1
  unfolding unspend_inputs
  unspend_inputs-IsKept db db1 is e =
      let (m, e1, h1) = >>=-eq-ok (move_all w db.spent db.unspent is) _ e in
      let made = ok_injective h1 in (ap (λ x. x.block_hashes) made, ap (λ x. x.blocks) made)

  remove_outputs-IsKept :
      (db : Db T) (h count index : ℕ) → IsKept db (remove_outputs w db h count index)
  unfolding remove_outputs remove_unspent_output
  remove_outputs-IsKept db h zero index = (refl, refl)
  remove_outputs-IsKept db h (suc count) index =
      remove_outputs-IsKept (remove_unspent_output w db (new_ref h index)) h count (index + 1)

  apply_transaction-IsKept :
      (db db1 : Db T) (x : Bytes) → apply_transaction w db x ≡ ok db1 → IsKept db db1
  unfolding apply_transaction
  apply_transaction-IsKept db db1 x e =
      let (tx, e1, h1) = >>=-eq-ok (decoded w x) _ e in
      let (db2, e2, h2) = >>=-eq-ok (apply_outputs w db (hash_of w x) 0 tx.0.outputs) _ h1 in
      trans-IsKept db db2 db1 (apply_outputs-IsKept db db2 (hash_of w x) 0 tx.0.outputs e2)
        (spend_inputs-IsKept db2 db1 tx.0.inputs h2)

  unapply_transaction-IsKept :
      (db db1 : Db T) (x : Bytes) → unapply_transaction w db x ≡ ok db1 → IsKept db db1
  unfolding unapply_transaction
  unapply_transaction-IsKept db db1 x e =
      let (tx, e1, h1) = >>=-eq-ok (decoded w x) _ e in
      let (db2, e2, h2) = >>=-eq-ok (unspend_inputs w db tx.0.inputs) _ h1 in
      let h = hash_of w (encode_transaction w.transactions tx.0) in
      let count = length tx.0.outputs in
      let left = remove_outputs w db2 h count 0 in
      trans-IsKept db db2 db1 (unspend_inputs-IsKept db db2 tx.0.inputs e2) (
        trans-IsKept db2 left db1 (remove_outputs-IsKept db2 h count 0)
          (same-IsKept left db1 (ok_injective h2)))

  pub apply_transactions-IsKept :
      (db db1 : Db T) (xs : List Bytes) → apply_transactions w db xs ≡ ok db1 → IsKept db db1
  unfolding apply_transactions
  apply_transactions-IsKept db db1 [] e = same-IsKept db db1 (ok_injective e)
  apply_transactions-IsKept db db1 (x ∷ xs) e =
      let (db2, e1, h1) = >>=-eq-ok (apply_transaction w db x) _ e in
      trans-IsKept db db2 db1 (apply_transaction-IsKept db db2 x e1)
        (apply_transactions-IsKept db2 db1 xs h1)

  pub unapply_transactions-IsKept :
      (db db1 : Db T) (xs : List Bytes) → unapply_transactions w db xs ≡ ok db1 → IsKept db db1
  unfolding unapply_transactions
  unapply_transactions-IsKept db db1 [] e = same-IsKept db db1 (ok_injective e)
  unapply_transactions-IsKept db db1 (x ∷ xs) e =
      let (db2, e1, h1) = >>=-eq-ok (unapply_transactions w db xs) _ e in
      trans-IsKept db db2 db1 (unapply_transactions-IsKept db db2 xs e1)
        (unapply_transaction-IsKept db2 db1 x h1)
