-- ===== src/Wallet/Sync/Panics.antt =====
-- Applying and unapplying blocks never panics (wallet/src/sync.rs, wallet/src/money.rs and
-- wallet/src/timestamp.rs): whatever a table or a block lacks is an error.
use tuxedo.Base.{
  Bytes, Bool, true, false, List, [], ◌∷◌, Option, none, some, Option-cases, inl, inr, Outcome, ok,
  err, panic, ok_or, map_err, ◌>>=◌, ◌≢◌, refl, ℕ, ◌+◌, if◌then◌else◌,
}
use tuxedo.Codec.{read}
use tuxedo.DynamicTyping.{DynamicallyTypedData, UtxoData, extract}
use tuxedo.Types.{OutputRef, Input, Output}
use tuxedo.Wallet.{
  Db, Wallet, OpaqueBlock, move_entry, move_all, spend_inputs, unspend_inputs, apply_coin,
  apply_timestamp, apply_output, apply_outputs, apply_transaction, unapply_transaction,
  apply_transactions, unapply_transactions, apply_block, height, unapply_highest_block,
}

abbrev pub Runs : {E A : Type 0} → Outcome E A → Type 0
Runs {E} {A} o = ◌≢◌ {A = Outcome E A} o panic

ok-Runs : {E A : Type 0} (a : A) → Runs {E = E} (ok a)
ok-Runs a q = cc

err-Runs : {E A : Type 0} (e : E) → Runs {A = A} (err e)
err-Runs e q = cc

bind-Runs :
    {E A B : Type 0} (o : Outcome E A) (k : A → Outcome E B)
    → Runs o
    → ((a : A) → Runs (k a))
    → Runs (o >>= k)
bind-Runs (ok a) k h f = f a
bind-Runs (err e) k h f = err-Runs e
bind-Runs panic k h f = absurd (h refl)

ok_or-Runs : {E A : Type 0} (o : Option A) (e : E) → Runs (ok_or o e)
ok_or-Runs none e = err-Runs e
ok_or-Runs (some a) e = ok-Runs a

pub map_err-Runs : {E F A : Type 0} (f : E → F) (o : Outcome E A) → Runs o → Runs (map_err f o)
map_err-Runs f (ok a) h = ok-Runs a
map_err-Runs f (err e) h = err-Runs (f e)
map_err-Runs f panic h = absurd (h refl)

if-Runs :
    {E A : Type 0} (b : Bool) (o p : Outcome E A) → Runs o → Runs p → Runs (if b then o else p)
if-Runs true o p h k = h
if-Runs false o p h k = k

extract-Runs : {A : Type 0} (u : UtxoData A) (d : DynamicallyTypedData) → Runs (extract u d)
unfolding extract
extract-Runs u d = if-Runs _ _ _ (ok_or-Runs _ _) (err-Runs _)

module _ {T V C : Type 0} (w : Wallet T V C) where
  move_entry-Runs : (from to : T) (r : OutputRef) → Runs (move_entry w from to r)
  unfolding move_entry
  move_entry-Runs from to r = elim (Option-cases (w.trees.get from (w.refs.encode r))) [
    | inl e ↦ rw (e, move_entry) (ok-Runs _)
    | inr (d, e) ↦ rw (e, move_entry) (bind-Runs _ _ (ok_or-Runs _ _) (λ entry. ok-Runs _))
  ]

  move_all-Runs : (is : List Input) (from to : T) → Runs (move_all w from to is)
  unfolding move_all
  move_all-Runs [] from to = ok-Runs _
  move_all-Runs (i ∷ is) from to =
      bind-Runs _ _ (move_entry-Runs from to i.output_ref)
        (λ moved. move_all-Runs is moved.0 moved.1)

  apply_output-Runs : (db : Db T) (h index : ℕ) (o : Output V) → Runs (apply_output w db h index o)
  unfolding apply_output apply_coin apply_timestamp
  apply_output-Runs db h index o =
      if-Runs _ _ _
        (if-Runs _ _ _
          (bind-Runs _ _ (map_err-Runs _ _ (extract-Runs w.coin_data o.payload))
            (λ coin. bind-Runs _ _ (ok_or-Runs _ _) (λ key. ok-Runs _)))
          (ok-Runs _))
        (if-Runs _ _ _
          (bind-Runs _ _ (map_err-Runs _ _ (extract-Runs w.timestamp_data o.payload))
            (λ time. ok-Runs _))
          (ok-Runs _))

  apply_outputs-Runs :
      (os : List (Output V)) (db : Db T) (h index : ℕ) → Runs (apply_outputs w db h index os)
  unfolding apply_outputs
  apply_outputs-Runs [] db h index = ok-Runs _
  apply_outputs-Runs (o ∷ os) db h index =
      bind-Runs _ _ (apply_output-Runs db h index o)
        (λ applied. apply_outputs-Runs os applied h (index + 1))

  apply_transactions-Runs : (xs : List Bytes) (db : Db T) → Runs (apply_transactions w db xs)
  unfolding apply_transactions apply_transaction spend_inputs
  apply_transactions-Runs [] db = ok-Runs _
  apply_transactions-Runs (x ∷ xs) db =
      bind-Runs _ _
        (bind-Runs _ _ (ok_or-Runs _ _) (λ tx.
          bind-Runs _ _ (apply_outputs-Runs tx.0.outputs db _ 0) (λ db1.
            bind-Runs _ _ (move_all-Runs tx.0.inputs db1.unspent db1.spent) (λ moved. ok-Runs _))))
        (λ applied. apply_transactions-Runs xs applied)

  unapply_transactions-Runs : (xs : List Bytes) (db : Db T) → Runs (unapply_transactions w db xs)
  unfolding unapply_transactions unapply_transaction unspend_inputs
  unapply_transactions-Runs [] db = ok-Runs _
  unapply_transactions-Runs (x ∷ xs) db = bind-Runs _ _ (unapply_transactions-Runs xs db) (λ later.
      bind-Runs _ _ (ok_or-Runs _ _) (λ tx.
        bind-Runs _ _
          (bind-Runs _ _ (move_all-Runs tx.0.inputs later.spent later.unspent) (λ moved. ok-Runs _))
          (λ db1. ok-Runs _)))

  pub apply_block-Runs : (db : Db T) (b : OpaqueBlock) (hash : ℕ) → Runs (apply_block w db b hash)
  unfolding apply_block
  apply_block-Runs db b hash = apply_transactions-Runs b.extrinsics _

  pub unapply_highest_block-Runs : (db : Db T) → Runs (unapply_highest_block w db)
  unfolding unapply_highest_block
  unapply_highest_block-Runs db = bind-Runs (ok_or (height w db) _) _ (ok_or-Runs _ _) (λ best.
      bind-Runs (ok_or (w.trees.get db.block_hashes (w.numbers.encode best)) _) _ (ok_or-Runs _ _)
        (λ hash_ivec. bind-Runs (ok_or (read w.hashes hash_ivec) _) _ (ok_or-Runs _ _) (λ hash.
          bind-Runs (ok_or (w.trees.get db.blocks (w.hashes.encode hash)) _) _ (ok_or-Runs _ _)
            (λ block_ivec.
              bind-Runs (ok_or (read w.opaque_blocks block_ivec) _) _ (ok_or-Runs _ _)
                (λ block. unapply_transactions-Runs block.extrinsics _)))))
