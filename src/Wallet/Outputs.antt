-- ===== src/Wallet/Outputs.antt =====
-- What applying a transaction's outputs, and removing them, does to the wallet's tables
-- (wallet/src/sync.rs).

use tuxedo.Base.{
  ℕ, zero, suc, ◌+◌, Bytes, Bool, false, ◌||◌, List, [], ◌∷◌, length, none, ◌≡◌, refl, sym, ap, ◌∙◌,
  arith, ok, ok_or, map_err, >>=-eq-ok, ok_injective, bytes_eq, if◌then◌else◌, Bool-cases, inl, inr,
}
use tuxedo.DynamicTyping.{extract}
use tuxedo.Types.{Output}
use tuxedo.Executive.Validation.{new_ref}
use tuxedo.Wallet.{
  Db, Wallet, add_unspent_output, remove_unspent_output, apply_coin, apply_timestamp, apply_output,
  apply_outputs, remove_outputs,
}
use tuxedo.Wallet.Moves.{IsCanonical, insert-IsCanonical, not_inserted}

module _ {T V C : Type 0} (w : Wallet T V C) where
  -- Some output of the transaction, from `index` on, has this key.
  abbrev pub makes : ℕ → ℕ → ℕ → Bytes → Bool
  makes tx_hash zero index k = false
  makes tx_hash (suc count) index k =
      bytes_eq (w.refs.encode (new_ref tx_hash index)) k || makes tx_hash count (index + 1) k

  -- What applying outputs under these keys does: the spent table is as it was, and the unspent
  -- table is at all other keys.
  abbrev pub Added : Db T → Db T → (Bytes → Bool) → Type 0
  Added db db1 keys =
      IsCanonical w db1.unspent
      × (db1.spent ≡ db.spent)
      × ((k : Bytes) → keys k ≡ false → w.trees.get db1.unspent k ≡ w.trees.get db.unspent k)

  same-Added :
      (db db1 : Db T) (keys : Bytes → Bool)
      → IsCanonical w db.unspent
      → db1.unspent ≡ db.unspent
      → db1.spent ≡ db.spent
      → Added db db1 keys
  same-Added db db1 keys c e f = (
    λ k d there. c k d (sym (ap (λ t. w.trees.get t k) e) ∙ there),
    f,
    λ k n. ap (λ t. w.trees.get t k) e,
  )

  apply_coin-Added :
      (db db1 : Db T) (h index : ℕ) (o : Output V)
      → IsCanonical w db.unspent
      → apply_coin w db h index o ≡ ok db1
      → Added db db1 (λ k. bytes_eq (w.refs.encode (new_ref h index)) k)
  unfolding apply_coin add_unspent_output
  apply_coin-Added db db1 h index o c e =
      let (coin, e1, h1) = >>=-eq-ok (map_err _ (extract w.coin_data o.payload)) _ e in
      let (owner, e2, h2) = >>=-eq-ok (ok_or (w.signature_owner o.verifier) _) _ h1 in
      let key = w.refs.encode (new_ref h index) in
      let p : ℕ × ℕ = (owner, coin.value) in
      let made = ok_injective h2 in
      (
        λ k d there.
            insert-IsCanonical w db.unspent key p c k d
              (ap (λ x. w.trees.get x.unspent k) made ∙ there),
        sym (ap (λ x. x.spent) made),
        λ k n.
            sym (ap (λ x. w.trees.get x.unspent k) made)
            ∙ not_inserted w db.unspent key (w.owned.encode p) k n,
      )

  apply_timestamp-same :
      (db db1 : Db T) (o : Output V)
      → apply_timestamp w db o ≡ ok db1
      → (db1.unspent ≡ db.unspent) × (db1.spent ≡ db.spent)
  unfolding apply_timestamp
  apply_timestamp-same db db1 o e =
      let (time, e1, h1) = >>=-eq-ok (map_err _ (extract w.timestamp_data o.payload)) _ e in
      let made = ok_injective h1 in (sym (ap (λ x. x.unspent) made), sym (ap (λ x. x.spent) made))

  apply_output-Added :
      (db db1 : Db T) (h index : ℕ) (o : Output V)
      → IsCanonical w db.unspent
      → apply_output w db h index o ≡ ok db1
      → Added db db1 (λ k. bytes_eq (w.refs.encode (new_ref h index)) k)
  unfolding apply_output
  apply_output-Added db db1 h index o c e =
      let unchanged = λ (s : db ≡ db1).
        same-Added db db1 (λ k. bytes_eq (w.refs.encode (new_ref h index)) k) c
          (sym (ap (λ x. x.unspent) s)) (sym (ap (λ x. x.spent) s)) in
      elim (Bool-cases (bytes_eq o.payload.type_id w.coin_data.own_type_id)) [
        | inl coin ↦ elim (Bool-cases (w.filter o.verifier)) [
          | inl mine ↦ apply_coin-Added db db1 h index o c (rw (coin, mine, apply_output) at e)
          | inr other ↦ unchanged (ok_injective (rw (coin, other, apply_output) at e))
        ]
        | inr no_coin ↦
            elim (Bool-cases (bytes_eq o.payload.type_id w.timestamp_data.own_type_id)) [
              | inl time ↦
                  let (u, s) =
                    apply_timestamp-same db db1 o (rw (no_coin, time, apply_output) at e) in
                  same-Added db db1 _ c u s
              | inr other ↦ unchanged (ok_injective (rw (no_coin, other, apply_output) at e))
            ]
      ]

  pub apply_outputs-Added :
      (db db1 : Db T) (h index : ℕ) (os : List (Output V))
      → IsCanonical w db.unspent
      → apply_outputs w db h index os ≡ ok db1
      → Added db db1 (makes h (length os) index)
  unfolding apply_outputs
  apply_outputs-Added db db1 h index [] c e =
      same-Added db db1 _ c (sym (ap (λ x. x.unspent) (ok_injective e)))
        (sym (ap (λ x. x.spent) (ok_injective e)))
  apply_outputs-Added db db1 h index (o ∷ os) c e =
      let (db2, e1, h1) = >>=-eq-ok (apply_output w db h index o) _ e in
      let (c2, s2, u2) = apply_output-Added db db2 h index o c e1 in
      let (c1, s1, u1) = apply_outputs-Added db2 db1 h (index + 1) os c2 h1 in
      (c1, s1 ∙ s2, λ k n. u1 k (ground arith) ∙ u2 k (ground arith))

  pub remove_outputs_lem :
      (db : Db T) (h count index : ℕ) (k : Bytes)
      → (w.trees.get (remove_outputs w db h count index).unspent k
          ≡ (if makes h count index k then none else w.trees.get db.unspent k))
        × ((remove_outputs w db h count index).spent ≡ db.spent)
  unfolding remove_outputs remove_unspent_output
  remove_outputs_lem db h zero index k = (refl, refl)
  remove_outputs_lem db h (suc count) index k =
      let later =
        remove_outputs_lem (remove_unspent_output w db (new_ref h index)) h count (index + 1) k in
      (
        ground (arith, later.0, w.trees.get-remove db.unspent (w.refs.encode (new_ref h index)) k),
        later.1,
      )
