-- ===== src/Samples/Trees.antt =====
-- A sled tree as an association list, for the runs of the wallet.
use tuxedo.Base.{
  Bool, true, false, ◌||◌, Bytes, List, [], ◌∷◌, ℕ, suc, refl, Bool-cases, inl, inr, ap, Option,
  none, some, bytes_eq, bytes_eq_self, eq_of_bytes_eq, if◌then◌else◌, ◌≡◌, arith,
}
use tuxedo.Wallet.{TreeApi}

abbrev pub Tree : Type 0
Tree = List (Bytes × Bytes)

abbrev pub lookup : Tree → Bytes → Option Bytes
lookup [] j = none
lookup ((k, v) ∷ t) j = if bytes_eq k j then some v else lookup t j

abbrev pub without : Tree → Bytes → Tree
without [] j = []
without ((k, v) ∷ t) j = let rest = without t j in if bytes_eq k j then rest else (k, v) ∷ rest

pub lookup-without :
    (t : Tree) (k j : Bytes) → lookup (without t k) j ≡ (if bytes_eq k j then none else lookup t j)
lookup-without [] k j = ground arith
lookup-without ((a, v) ∷ t) k j = ground (
  arith,
  lookup-without t k j,
  eq_of_bytes_eq a k,
  eq_of_bytes_eq a j,
  eq_of_bytes_eq k j,
  bytes_eq_self j,
)

pub lookup-insert :
    (t : Tree) (k v j : Bytes)
    → lookup ((k, v) ∷ without t k) j ≡ (if bytes_eq k j then some v else lookup t j)
lookup-insert t k v j = ground (arith, lookup-without t k j)

abbrev pub stored : Tree → Bytes → Bool
stored [] j = false
stored ((k, v) ∷ t) j = bytes_eq k j || stored t j

-- The number of keys.
abbrev pub count : Tree → ℕ
count [] = 0
count ((k, v) ∷ t) = let rest = count t in if stored t k then rest else suc rest

stored-without :
    (t : Tree) (k j : Bytes) → stored (without t k) j ≡ (if bytes_eq k j then false else stored t j)
stored-without [] k j = ground arith
stored-without ((a, w) ∷ t) k j = ground (
  arith,
  stored-without t k j,
  eq_of_bytes_eq a k,
  eq_of_bytes_eq a j,
  eq_of_bytes_eq k j,
  bytes_eq_self j,
)

count-without :
    (t : Tree) (k : Bytes)
    → count t ≡ (if stored t k then suc (count (without t k)) else count (without t k))
count-without [] k = refl
count-without ((a, w) ∷ t) k = elim (Bool-cases (bytes_eq a k)) [
  | inl e ↦
      let same : a ≡ k = eq_of_bytes_eq a k e in
      ground (arith, e, count-without t k, ap (stored t) same)
  | inr n ↦
      ground
        (arith, n, count-without t k, stored-without t k a, eq_of_bytes_eq k a, bytes_eq_self a)
]

stored_none : (t : Tree) (k : Bytes) → lookup t k ≡ none → stored t k ≡ false
stored_none [] k h = refl
stored_none ((a, w) ∷ t) k h = ground (arith, stored_none t k)

stored_some : (t : Tree) (k v : Bytes) → lookup t k ≡ some v → stored t k ≡ true
stored_some [] k v h = cc
stored_some ((a, w) ∷ t) k v h = ground (arith, stored_some t k v)

pub count-insert :
    (t : Tree) (k v : Bytes) → lookup t k ≡ none → count ((k, v) ∷ without t k) ≡ suc (count t)
count-insert t k v h =
    ground (arith, stored_none t k h, stored-without t k k, bytes_eq_self k, count-without t k)

pub count-remove :
    (t : Tree) (k v : Bytes) → lookup t k ≡ some v → suc (count (without t k)) ≡ count t
count-remove t k v h = ground (arith, stored_some t k v h, count-without t k)

abbrev pub trees : TreeApi Tree
trees = record {
  get = lookup;
  insert = λ t k v. (k, v) ∷ without t k;
  remove = without;
  len = count;
  iter = λ t. t;
  get-insert = lookup-insert;
  get-remove = lookup-without;
  len-insert = count-insert;
  len-remove = count-remove;
}
