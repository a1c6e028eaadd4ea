-- ===== src/Wallet/Selection.antt =====
-- The choice of outputs to spend (`get_arbitrary_unspent_set` of wallet/src/sync.rs).
use tuxedo.Base.{
  ℕ, ◌+◌, ◌%◌, ◌^◌, ◌<◌, ◌≤◌, Bytes, true, false, List, [], ◌∷◌, ◌++◌, Option, none, some, ◌≡◌,
  refl, ap, arith, Outcome, ok, ltb, Bool-cases, inl, inr, ◌⊎◌,
}
use tuxedo.Codec.{read}
use tuxedo.Types.{OutputRef}
use tuxedo.Wallet.{Db, Wallet, WalletError}
use tuxedo.Wallet.Queries.{keep, keepers_from, get_arbitrary_unspent_set}

reached : (target total : ℕ) → target ≤ total → ltb total target ≡ false
reached target total h = ground arith

not_reached : (target total : ℕ) → total < target → ltb total target ≡ true
not_reached target total h = ground arith

below_of_ltb : (a b : ℕ) → ltb a b ≡ true → a < b
below_of_ltb a b h = ground arith

reaches_of_ltb : (a b : ℕ) → ltb a b ≡ false → b ≤ a
reaches_of_ltb a b h = ground arith

-- An owned output: its reference and its amount.
abbrev pub Owned : Type 0
Owned = OutputRef × ℕ

abbrev pub amounts : List Owned → ℕ
amounts [] = 0
amounts (x ∷ xs) = x.1 + amounts xs

abbrev pub refs_of : List Owned → List OutputRef
refs_of [] = []
refs_of (x ∷ xs) = x.0 ∷ refs_of xs

module _ {T V C : Type 0} (w : Wallet T V C) where
  -- The entries are these owned outputs, in this order.
  abbrev pub Holds : List (Bytes × Bytes) → List Owned → Type 0
  Holds [] [] = Unit
  Holds [] (x ∷ xs) = ⊥
  Holds (e ∷ es) [] = ⊥
  Holds (e ∷ es) (x ∷ xs) =
      ((owner : ℕ) × (read w.refs e.0 ≡ some x.0) × (read w.owned e.1 ≡ some (owner, x.1)))
      × Holds es xs

  -- The first of them, until their amounts reach the target.
  abbrev pub IsEnough :
      (target total : ℕ) → List Owned → Outcome WalletError (Option (List OutputRef)) → Type 0
  IsEnough target total xs result =
      (chosen rest : List Owned) × (xs ≡ chosen ++ rest)
      × (result ≡ ok (some (refs_of chosen)))
      × (target ≤ total + amounts chosen)

  keepers_from-cons :
      (target total amount owner : ℕ) (e : Bytes × Bytes) (es : List (Bytes × Bytes))
      (r : OutputRef) (result : Option (List OutputRef))
      → ltb total target ≡ true
      → read w.refs e.0 ≡ some r
      → read w.owned e.1 ≡ some (owner, amount)
      → (total + amount) % 2 ^ 128 ≡ total + amount
      → keepers_from w target (total + amount) es ≡ ok result
      → keepers_from w target total (e ∷ es) ≡ ok (keep w r result)
  unfolding keepers_from
  keepers_from-cons target total amount owner e es r result below f g next h =
      rw (below, f, g, next, h)

  keepers_from-IsEnough :
      (target total : ℕ) (es : List (Bytes × Bytes)) (xs : List Owned)
      → Holds es xs
      → total + amounts xs < 2 ^ 128
      → target ≤ total + amounts xs
      → IsEnough target total xs (keepers_from w target total es)
  unfolding keepers_from
  keepers_from-IsEnough target total [] [] h fits reach =
      ([], [], refl, rw (reached target total (omega arith)), reach)
  keepers_from-IsEnough target total [] (x ∷ xs) h fits reach = absurd h
  keepers_from-IsEnough target total (e ∷ es) [] h fits reach = absurd h
  keepers_from-IsEnough target total (e ∷ es) (x ∷ xs) ((owner, r, o), h) fits reach =
      elim (Bool-cases (ltb total target)) [
        | inl below ↦
            let next : (total + x.1) % 2 ^ 128 ≡ total + x.1 = omega arith in
            let (chosen, rest, split, result, enough) =
              keepers_from-IsEnough target (total + x.1) es xs h (omega arith) (omega arith) in
            (
              x ∷ chosen,
              rest,
              ap (◌∷◌ x) split,
              keepers_from-cons target total x.1 owner e es x.0 (some (refs_of chosen)) below r o
                  next result,
              omega arith,
            )
        | inr done ↦ ([], x ∷ xs, refl, rw done, ground arith)
      ]

  keepers_from-none :
      (target total : ℕ) (es : List (Bytes × Bytes)) (xs : List Owned)
      → Holds es xs
      → total + amounts xs < 2 ^ 128
      → total + amounts xs < target
      → keepers_from w target total es ≡ ok none
  unfolding keepers_from
  keepers_from-none target total [] [] h fits short = rw (not_reached target total (omega arith))
  keepers_from-none target total [] (x ∷ xs) h fits short = absurd h
  keepers_from-none target total (e ∷ es) [] h fits short = absurd h
  keepers_from-none target total (e ∷ es) (x ∷ xs) ((owner, r, o), h) fits short =
      let next : (total + x.1) % 2 ^ 128 ≡ total + x.1 = omega arith in
      let later = keepers_from-none target (total + x.1) es xs h (omega arith) (omega arith) in
      keepers_from-cons target total x.1 owner e es x.0 none
        (not_reached target total (omega arith)) r o next later

  -- Where the unspent table lists owned outputs whose amounts add up to less than 2 ^ 128, the
  -- selection gives the first of them, with amounts that add up to the target at least, if all
  -- together do, and otherwise nothing.
  pub get_arbitrary_unspent_set_lem :
      (db : Db T) (target : ℕ) (xs : List Owned)
      → Holds (w.trees.iter db.unspent) xs
      → amounts xs < 2 ^ 128
      → ((target ≤ amounts xs) × IsEnough target 0 xs (get_arbitrary_unspent_set w db target))
        ⊎ ((amounts xs < target) × (get_arbitrary_unspent_set w db target ≡ ok none))
  unfolding get_arbitrary_unspent_set
  get_arbitrary_unspent_set_lem db target xs h fits = elim (Bool-cases (ltb (amounts xs) target)) [
    | inl short ↦
        let less : amounts xs < target = below_of_ltb (amounts xs) target short in
        inr (
          less,
          keepers_from-none target 0 (w.trees.iter db.unspent) xs h (omega arith) (omega arith),
        )
    | inr reach ↦
        let most : target ≤ amounts xs = reaches_of_ltb (amounts xs) target reach in
        inl (
          most,
          keepers_from-IsEnough target 0 (w.trees.iter db.unspent) xs h (omega arith) (omega arith),
        )
  ]
