-- ===== src/Wallet/Moves.antt =====
-- Entries that move between the tables of spent and unspent outputs (wallet/src/sync.rs).
use tuxedo.Base.{
  some_injective, ℕ, Bytes, Bool, true, false, ◌||◌, List, [], ◌∷◌, Option, none, some, ◌≡◌, refl,
  sym, ap, ◌∙◌, ok, bytes_eq, eq_of_bytes_eq, if◌then◌else◌, Option-cases, Bool-cases, inl, inr,
}
use tuxedo.Codec.{read-encode}
use tuxedo.Types.{OutputRef, Input}
use tuxedo.Wallet.{Wallet, move_entry, move_all}

-- The first, if it is there, and else the second.
abbrev pub first_of {ℓ} : {A : Type ℓ} → Option A → Option A → Option A
first_of none b = b
first_of (some a) b = some a

twice_none :
    (a b : Bool) (x y z : Option Bytes)
    → y ≡ (if a then none else x)
    → z ≡ (if b then none else y)
    → z ≡ (if a || b then none else x)
twice_none true true x y z e f = f
twice_none true false x y z e f = f ∙ e
twice_none false true x y z e f = f
twice_none false false x y z e f = f ∙ e

twice_first :
    (a b : Bool) (x t x' t' z : Option Bytes)
    → x' ≡ (if a then none else x)
    → t' ≡ (if a then first_of x t else t)
    → z ≡ (if b then first_of x' t' else t')
    → z ≡ (if a || b then first_of x t else t)
twice_first true true x t x' t' z e f g = g ∙ ap (λ o. first_of o t') e ∙ f
twice_first true false x t x' t' z e f g = g ∙ f
twice_first false true x t x' t' z e f g = g ∙ ap (λ o. first_of o t') e ∙ ap (first_of x) f
twice_first false false x t x' t' z e f g = g ∙ f

none-some : {d : Bytes} → none ≡ some d → ⊥
none-some h = cc

module _ {T V C : Type 0} (w : Wallet T V C) where
  -- Every entry is an encoded owner and amount.
  abbrev pub IsCanonical : T → Type 0
  IsCanonical t = (k d : Bytes) → w.trees.get t k ≡ some d → (p : ℕ × ℕ) × (d ≡ w.owned.encode p)

  -- Some input has this key.
  abbrev pub uses : List Input → Bytes → Bool
  uses [] k = false
  uses (i ∷ is) k = bytes_eq (w.refs.encode i.output_ref) k || uses is k

  -- What a move of the entry under the key `j` does to both tables.
  abbrev pub HasMoved : T → T → T × T → (Bytes → Bool) → Type 0
  HasMoved from to moved used =
      IsCanonical moved.0
      × IsCanonical moved.1
      × ((k : Bytes) → w.trees.get moved.0 k ≡ (if used k then none else w.trees.get from k))
      × ((k : Bytes)
          → w.trees.get moved.1 k ≡ (
              if used k
              then first_of (w.trees.get from k) (w.trees.get to k)
              else w.trees.get to k))

  removed : (t : T) (k j : Bytes) → bytes_eq k j ≡ true → w.trees.get (w.trees.remove t k) j ≡ none
  removed t k j same = rw (w.trees.get-remove t k j, same)

  kept :
      (t : T) (k j : Bytes)
      → bytes_eq k j ≡ false
      → w.trees.get (w.trees.remove t k) j ≡ w.trees.get t j
  kept t k j other = rw (w.trees.get-remove t k j, other)

  inserted :
      (t : T) (k v j : Bytes) → bytes_eq k j ≡ true → w.trees.get (w.trees.insert t k v) j ≡ some v
  inserted t k v j same = rw (w.trees.get-insert t k v j, same)

  pub not_inserted :
      (t : T) (k v j : Bytes)
      → bytes_eq k j ≡ false
      → w.trees.get (w.trees.insert t k v) j ≡ w.trees.get t j
  not_inserted t k v j other = rw (w.trees.get-insert t k v j, other)

  pub remove-IsCanonical : (t : T) (k : Bytes) → IsCanonical t → IsCanonical (w.trees.remove t k)
  remove-IsCanonical t k canonical j d e = elim (Bool-cases (bytes_eq k j)) [
    | inl same ↦ absurd (none-some (sym (removed t k j same) ∙ e))
    | inr other ↦ canonical j d (sym (kept t k j other) ∙ e)
  ]

  pub insert-IsCanonical :
      (t : T) (k : Bytes) (p : ℕ × ℕ)
      → IsCanonical t
      → IsCanonical (w.trees.insert t k (w.owned.encode p))
  insert-IsCanonical t k p canonical j d e = elim (Bool-cases (bytes_eq k j)) [
    | inl same ↦ (p, some_injective (sym e ∙ inserted t k (w.owned.encode p) j same))
    | inr other ↦ canonical j d (sym (not_inserted t k (w.owned.encode p) j other) ∙ e)
  ]

  absent :
      (from : T) (key k : Bytes)
      → w.trees.get from key ≡ none
      → w.trees.get from k ≡ (if bytes_eq key k then none else w.trees.get from k)
  absent from key k gone = elim (Bool-cases (bytes_eq key k)) [
    | inl same ↦ rw same (ap (w.trees.get from) (sym (eq_of_bytes_eq key k same)) ∙ gone)
    | inr other ↦ rw other
  ]

  absent_first :
      (from to : T) (key k : Bytes)
      → w.trees.get from key ≡ none
      → w.trees.get to k ≡ (
          if bytes_eq key k
          then first_of (w.trees.get from k) (w.trees.get to k)
          else w.trees.get to k)
  absent_first from to key k gone = elim (Bool-cases (bytes_eq key k)) [
    | inl same ↦ rw (same, ap (w.trees.get from) (sym (eq_of_bytes_eq key k same)) ∙ gone)
    | inr other ↦ rw other
  ]

  moved_first :
      (from to : T) (key k v : Bytes)
      → w.trees.get from key ≡ some v
      → w.trees.get (w.trees.insert to key v) k ≡ (
          if bytes_eq key k
          then first_of (w.trees.get from k) (w.trees.get to k)
          else w.trees.get to k)
  moved_first from to key k v there = elim (Bool-cases (bytes_eq key k)) [
    | inl same ↦
        inserted to key v k same
        ∙ rw (same, ap (w.trees.get from) (sym (eq_of_bytes_eq key k same)) ∙ there)
    | inr other ↦ not_inserted to key v k other ∙ rw other
  ]

  move_entry-HasMoved :
      (from to : T) (r : OutputRef)
      → IsCanonical from
      → IsCanonical to
      → (moved : T × T) × (move_entry w from to r ≡ ok moved)
        × HasMoved from to moved (λ k. bytes_eq (w.refs.encode r) k)
  unfolding move_entry
  move_entry-HasMoved from to r c c' =
      let key = w.refs.encode r in
      elim (Option-cases (w.trees.get from key)) [
        | inl gone ↦ (
          (from, to),
          rw (gone, move_entry),
          (c, c', λ k. absent from key k gone, λ k. absent_first from to key k gone),
        )
        | inr (d, there) ↦
            let (p, e) = c key d there in
            let stored : w.trees.get from key ≡ some (w.owned.encode p) = there ∙ ap some e in
            (
              (w.trees.remove from key, w.trees.insert to key (w.owned.encode p)),
              rw (stored, read-encode w.owned p, move_entry),
              (
                remove-IsCanonical from key c,
                insert-IsCanonical to key p c',
                λ k. w.trees.get-remove from key k,
                λ k. moved_first from to key k (w.owned.encode p) stored,
              ),
            )
      ]

  -- Moves of two lots of entries, one after the other.
  chained :
      (from to : T) (m n : T × T) (a b : Bytes → Bool)
      → HasMoved from to m a
      → HasMoved m.0 m.1 n b
      → HasMoved from to n (λ k. a k || b k)
  chained from to m n a b (c1, d1, f1, g1) (c2, d2, f2, g2) = (
    c2,
    d2,
    λ k. twice_none (a k) (b k) _ _ _ (f1 k) (f2 k),
    λ k. twice_first (a k) (b k) (w.trees.get from k) _ _ _ _ (f1 k) (g1 k) (g2 k),
  )

  -- All entries under the inputs' keys move, and no others.
  pub move_all-HasMoved :
      (from to : T) (is : List Input)
      → IsCanonical from
      → IsCanonical to
      → (moved : T × T) × (move_all w from to is ≡ ok moved) × HasMoved from to moved (uses is)
  unfolding move_all
  move_all-HasMoved from to [] c c' = ((from, to), refl, (c, c', λ k. refl, λ k. refl))
  move_all-HasMoved from to (i ∷ is) c c' =
      let (m, e, h) = move_entry-HasMoved from to i.output_ref c c' in
      let (n, f, k) = move_all-HasMoved m.0 m.1 is h.0 h.1 in
      (n, rw (e, f), chained from to m n _ (uses is) h k)
