-- ===== src/Wallet/Reorg.antt =====
-- A transaction that is applied to the wallet's tables and unapplied again (wallet/src/sync.rs).
use mathlib.Core.List.{append-nil}
use tuxedo.Base.{
  Bytes, Bool, true, false, List, [], length, Option, none, some, ◌≡◌, refl, sym, ap, ◌∙◌, subst,
  ok, >>=-eq-ok, ok_injective, if◌then◌else◌,
}
use tuxedo.Types.{Input, Transaction}
use tuxedo.Types.Encoding.{encode_transaction, decode_transaction, decode-encode_transaction}
use tuxedo.Wallet.{
  Db, Wallet, move_all, spend_inputs, unspend_inputs, apply_outputs, hash_of, apply_transaction,
  remove_outputs, unapply_transaction,
}
use tuxedo.Wallet.Outputs.{makes, apply_outputs-Added, remove_outputs_lem}
use tuxedo.Wallet.Moves.{first_of, IsCanonical, uses, move_all-HasMoved}

some_first : (u s : Option Bytes) → s ≡ none → first_of (first_of u s) none ≡ u
some_first none s e = ap (λ o. first_of o none) e
some_first (some d) s e = refl

restored_unspent :
    (made used : Bool) (u v s m m' n r : Option Bytes)
    → (made ≡ true → u ≡ none)
    → (made ≡ false → v ≡ u)
    → (used ≡ true → s ≡ none)
    → m ≡ (if used then none else v)
    → m' ≡ (if used then first_of v s else s)
    → n ≡ (if used then first_of m' m else m)
    → r ≡ (if made then none else n)
    → r ≡ u
restored_unspent true used u v s m m' n r fresh kept unseen e f g h = h ∙ sym (fresh refl)
restored_unspent false true u v s m m' n r fresh kept unseen e f g h =
    h
    ∙ g
    ∙ ap (first_of m') e
    ∙ ap (λ o. first_of o none) f
    ∙ some_first v s (unseen refl)
    ∙ kept refl
restored_unspent false false u v s m m' n r fresh kept unseen e f g h = h ∙ g ∙ e ∙ kept refl

restored_spent :
    (used : Bool) (s v t m' n : Option Bytes)
    → t ≡ s
    → (used ≡ true → s ≡ none)
    → m' ≡ (if used then first_of v t else t)
    → n ≡ (if used then none else m')
    → n ≡ s
restored_spent true s v t m' n same unseen f g = g ∙ sym (unseen refl)
restored_spent false s v t m' n same unseen f g = g ∙ f ∙ same

module _ {T V C : Type 0} (w : Wallet T V C) where
  -- Some output of the transaction has this key.
  abbrev pub creates : Transaction V C → Bytes → Bool
  creates tx = makes w (hash_of w (encode_transaction w.transactions tx)) (length tx.outputs) 0

  decoded_again :
      (tx : Transaction V C)
      → decode_transaction w.transactions (encode_transaction w.transactions tx) ≡ some (tx, [])
  decoded_again tx =
      ap (decode_transaction w.transactions)
        (sym (append-nil (encode_transaction w.transactions tx)))
      ∙ decode-encode_transaction w.transactions tx []

  -- The outputs and then the moves that applying a transaction consists of.
  apply_transaction-inversion :
      (db db1 : Db T) (tx : Transaction V C)
      → apply_transaction w db (encode_transaction w.transactions tx) ≡ ok db1
      → (between : Db T) × (apply_outputs w db
            (hash_of w (encode_transaction w.transactions tx))
            0
            tx.outputs
          ≡ ok between)
        × (spend_inputs w between tx.inputs ≡ ok db1)
  unfolding apply_transaction
  apply_transaction-inversion db db1 tx h =
      >>=-eq-ok (apply_outputs w db (hash_of w (encode_transaction w.transactions tx)) 0 tx.outputs)
        _ (rw (decoded_again tx, apply_transaction) at h)

  spend_inputs-inversion :
      (db db1 : Db T) (is : List Input) (m : T × T)
      → move_all w db.unspent db.spent is ≡ ok m
      → spend_inputs w db is ≡ ok db1
      → record db { unspent = m.0; spent = m.1 } ≡ db1
  unfolding spend_inputs
  spend_inputs-inversion db db1 is m e h = ok_injective (rw (e, spend_inputs) at h)

  unapplied :
      (db1 : Db T) (tx : Transaction V C) (n : T × T)
      → move_all w db1.spent db1.unspent tx.inputs ≡ ok n
      → unapply_transaction w db1 (encode_transaction w.transactions tx)
        ≡ ok (
            remove_outputs w
              (record db1 { spent = n.0; unspent = n.1 })
              (hash_of w (encode_transaction w.transactions tx))
              (length tx.outputs)
              0)
  unfolding unapply_transaction unspend_inputs
  unapplied db1 tx n e = rw (decoded_again tx, e)

  -- The two tables of owned outputs hold the same under every key.
  abbrev pub IsSame : Db T → Db T → Type 0
  IsSame a b =
      ((k : Bytes) → w.trees.get a.unspent k ≡ w.trees.get b.unspent k)
      × ((k : Bytes) → w.trees.get a.spent k ≡ w.trees.get b.spent k)

  -- The entries of the two tables are encodings.
  abbrev pub IsSound : Db T → Type 0
  IsSound db = IsCanonical w db.unspent × IsCanonical w db.spent

  -- No output of the transaction is in the unspent table, and no input is in the spent table.
  abbrev pub IsNew : Db T → Transaction V C → Type 0
  IsNew db tx =
      ((k : Bytes) → creates tx k ≡ true → w.trees.get db.unspent k ≡ none)
      × ((k : Bytes) → uses w tx.inputs k ≡ true → w.trees.get db.spent k ≡ none)

  -- An applied transaction can be unapplied where the tables hold the same as it left them.
  pub unapply-apply_transaction :
      (db db1 dbx : Db T) (tx : Transaction V C)
      → IsSound db
      → IsNew db tx
      → apply_transaction w db (encode_transaction w.transactions tx) ≡ ok db1
      → IsSame dbx db1
      → IsSound db1
        × ((db2 : Db T) × (unapply_transaction w dbx (encode_transaction w.transactions tx)
              ≡ ok db2)
            × IsSame db2 db)
  unapply-apply_transaction db db1 dbx tx (c, c') (fresh, unseen) h (su, ss) =
      let hash = hash_of w (encode_transaction w.transactions tx) in
      let (mid, e1, h1) = apply_transaction-inversion db db1 tx h in
      let (co, so, uo) = apply_outputs-Added w db mid hash 0 tx.outputs c e1 in
      let (m, e2, (cm, cm', f, g)) =
        move_all-HasMoved w mid.unspent mid.spent tx.inputs co
          (subst (IsCanonical w) (sym so) c') in
      let there = spend_inputs-inversion mid db1 tx.inputs m e2 h1 in
      let u = λ (k : Bytes). su k ∙ ap (λ (x : Db T). w.trees.get x.unspent k) (sym there) in
      let s = λ (k : Bytes). ss k ∙ ap (λ (x : Db T). w.trees.get x.spent k) (sym there) in
      let (n, moved, (cn, cn', f', g')) =
        move_all-HasMoved w dbx.spent dbx.unspent tx.inputs (λ k d e. cm' k d (sym (s k) ∙ e))
          (λ k d e. cm k d (sym (u k) ∙ e)) in
      let back : Db T = record dbx { spent = n.0; unspent = n.1 } in
      let rest = λ (k : Bytes). remove_outputs_lem w back hash (length tx.outputs) 0 k in
      (
        subst IsSound there (cm, cm'),
        (
          remove_outputs w back hash (length tx.outputs) 0,
          unapplied dbx tx n moved,
          (
            λ k.
                restored_unspent (creates tx k) (uses w tx.inputs k) _ _ _ _ _ _ _ (fresh k) (uo k)
                  (λ v. ap (λ t. w.trees.get t k) so ∙ unseen k v) (u k ∙ f k) (s k ∙ g k) (g' k)
                  (rest k).0,
            λ k.
                ap (λ t. w.trees.get t k) (rest k).1
                ∙ restored_spent (uses w tx.inputs k) _ _ _ _ _ (ap (λ t. w.trees.get t k) so)
                    (unseen k) (s k ∙ g k) (f' k),
          ),
        ),
      )
