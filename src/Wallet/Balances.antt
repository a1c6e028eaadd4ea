-- ===== src/Wallet/Balances.antt =====
-- wallet/src/sync.rs: what every owner has (`get_balances`). The hash map is an association list.
use tuxedo.Base.{
  ℕ, true, false, ◌+◌, ◌%◌, ◌^◌, ◌<◌, ◌≤◌, ◌==◌, Bytes, Bool-cases, inl, inr, List, [], ◌∷◌, some,
  Outcome, ok, ok_or, ◌>>=◌, if◌then◌else◌, All, Distinct, ◌≡◌, ◌≢◌, refl, ◌∙◌, arith,
}
use tuxedo.Codec.{read}
use tuxedo.Wallet.{Db, Wallet, WalletError}

-- `entry(owner).and_modify(|old| *old += amount).or_insert(amount)`
unfoldable pub add_balance : ℕ → ℕ → List (ℕ × ℕ) → List (ℕ × ℕ)
add_balance owner amount [] = (owner, amount) ∷ []
add_balance owner amount ((o, old) ∷ bs) =
    let rest = add_balance owner amount bs in
    if o == owner then (o, (old + amount) % 2 ^ 128) ∷ bs else (o, old) ∷ rest

module _ {T V C : Type 0} (w : Wallet T V C) where
  -- The loop over the unspent table.
  unfoldable pub balances_from :
      List (ℕ × ℕ) → List (Bytes × Bytes) → Outcome WalletError (List (ℕ × ℕ))
  balances_from balances [] = ok balances
  balances_from balances (raw_data ∷ es) = do
    entry ← ok_or (read w.owned raw_data.1) WalletError.bad_entry
    balances_from (add_balance entry.0 entry.1 balances) es

  unfoldable pub get_balances : Db T → Outcome WalletError (List (ℕ × ℕ))
  get_balances db = balances_from [] (w.trees.iter db.unspent)

-- What the map says of an owner, and what the entries add up to.
abbrev pub balance_of : List (ℕ × ℕ) → ℕ → ℕ
balance_of [] o = 0
balance_of ((p, n) ∷ bs) o = if p == o then n else balance_of bs o

abbrev pub total_for : ℕ → List (ℕ × ℕ) → ℕ
total_for o [] = 0
total_for o ((p, n) ∷ ps) = let rest = total_for o ps in if p == o then n + rest else rest

abbrev pub total : List (ℕ × ℕ) → ℕ
total [] = 0
total ((p, n) ∷ ps) = n + total ps

abbrev pub owners : List (ℕ × ℕ) → List ℕ
owners [] = []
owners ((p, n) ∷ ps) = p ∷ owners ps

total_for-total : (o : ℕ) (ps : List (ℕ × ℕ)) → total_for o ps ≤ total ps
total_for-total o [] = omega arith
total_for-total o ((p, n) ∷ ps) = elim (Bool-cases (p == o)) [
  | inl e ↦ rw e (omega (arith, total_for-total o ps))
  | inr e ↦ rw e (omega (arith, total_for-total o ps))
]

ne_of_test : (p q : ℕ) → (p == q) ≡ false → p ≢ q
ne_of_test p q e same = let t : (p == q) ≡ true = ground arith in cc (e, t)

total_for-own : (o n : ℕ) (ps : List (ℕ × ℕ)) → total_for o ((o, n) ∷ ps) ≡ n + total_for o ps
total_for-own o n ps = ground arith

balance_of-add_balance :
    (owner amount o : ℕ) (bs : List (ℕ × ℕ))
    → balance_of bs owner + amount < 2 ^ 128
    → balance_of (add_balance owner amount bs) o
      ≡ (if owner == o then balance_of bs o + amount else balance_of bs o)
unfolding add_balance
balance_of-add_balance owner amount o [] h = ground arith
balance_of-add_balance owner amount o ((p, n) ∷ bs) h = elim (Bool-cases (p == owner)) [
  | inl e ↦
      let same : p ≡ owner = ground arith in
      let small : (n + amount) % 2 ^ 128 ≡ n + amount = let k = rw e at h in omega (arith, k) in
      rw (e, small) (ground (arith, same))
  | inr e ↦
      let k = rw e at h in
      let ih = balance_of-add_balance owner amount o bs k in rw e (ground (arith, ih, e))
]

total_for-add_balance :
    (owner amount o : ℕ) (bs ps : List (ℕ × ℕ))
    → balance_of bs owner + amount < 2 ^ 128
    → balance_of (add_balance owner amount bs) o + total_for o ps
      ≡ balance_of bs o + total_for o ((owner, amount) ∷ ps)
total_for-add_balance owner amount o bs ps h =
    let added = balance_of-add_balance owner amount o bs h in
    elim (Bool-cases (owner == o)) [
      | inl e ↦ rw e (let k = rw e at added in omega (arith, k))
      | inr e ↦ rw e (let k = rw e at added in omega (arith, k))
    ]

ne_owners-add_balance :
    (x owner amount : ℕ) (bs : List (ℕ × ℕ))
    → x ≢ owner
    → All (λ (q : ℕ). x ≢ q) (owners bs)
    → All (λ (q : ℕ). x ≢ q) (owners (add_balance owner amount bs))
unfolding add_balance
ne_owners-add_balance x owner amount [] n h = (n, tt)
ne_owners-add_balance x owner amount ((p, m) ∷ bs) n h = elim (Bool-cases (p == owner)) [
  | inl e ↦ rw e h
  | inr e ↦ rw e (h.0, ne_owners-add_balance x owner amount bs n h.1)
]

owners-add_balance :
    (owner amount : ℕ) (bs : List (ℕ × ℕ))
    → Distinct (owners bs)
    → Distinct (owners (add_balance owner amount bs))
unfolding add_balance
owners-add_balance owner amount [] h = (tt, tt)
owners-add_balance owner amount ((p, m) ∷ bs) h = elim (Bool-cases (p == owner)) [
  | inl e ↦ rw e h
  | inr e ↦
      let other : p ≢ owner = λ q. ne_of_test p owner e q in
      rw e
        (ne_owners-add_balance p owner amount bs other h.0, owners-add_balance owner amount bs h.1)
]

module _ {T V C : Type 0} (w : Wallet T V C) where
  -- The entries of the table are owners and amounts.
  abbrev pub Reads : List (Bytes × Bytes) → List (ℕ × ℕ) → Type 0
  Reads [] [] = Unit
  Reads [] (p ∷ ps) = ⊥
  Reads (e ∷ es) [] = ⊥
  Reads (e ∷ es) (p ∷ ps) = (read w.owned e.1 ≡ some p) × Reads es ps

  -- One map from owners to what they have, by their sum over the entries.
  abbrev pub Sums : List (ℕ × ℕ) → (ℕ → ℕ) → Outcome WalletError (List (ℕ × ℕ)) → Type 0
  Sums ps before result =
      (bs : List (ℕ × ℕ)) × (result ≡ ok bs)
      × Distinct (owners bs)
      × ((o : ℕ) → balance_of bs o ≡ before o + total_for o ps)

  balances_from_lem :
      (es : List (Bytes × Bytes)) (ps bs : List (ℕ × ℕ))
      → Reads es ps
      → Distinct (owners bs)
      → ((o : ℕ) → balance_of bs o + total_for o ps < 2 ^ 128)
      → Sums ps (balance_of bs) (balances_from w bs es)
  unfolding balances_from
  balances_from_lem [] [] bs h d fits = (bs, refl, d, λ o. omega arith)
  balances_from_lem [] (p ∷ ps) bs h d fits = absurd h
  balances_from_lem (e ∷ es) [] bs h d fits = absurd h
  balances_from_lem (e ∷ es) ((owner, amount) ∷ ps) bs (r, h) d fits =
      let own = total_for-own owner amount ps in
      let whole : balance_of bs owner + (amount + total_for owner ps) < 2 ^ 128 =
        omega (arith, own, fits owner) in
      let moved = λ (o : ℕ). total_for-add_balance owner amount o bs ps (omega (arith, whole)) in
      let (cs, run, apart, sums) =
        balances_from_lem es ps (add_balance owner amount bs) h
          (owners-add_balance owner amount bs d) (λ o. omega (arith, moved o, fits o)) in
      (cs, rw r run, apart, λ o. sums o ∙ moved o)

  -- Where the unspent table's entries are owners and amounts that add up to less than 2 ^ 128, the
  -- balances name every owner once, and an owner's balance is the sum of the owner's amounts, zero
  -- for one who has none.
  pub get_balances-totals :
      (db : Db T) (ps : List (ℕ × ℕ))
      → Reads (w.trees.iter db.unspent) ps
      → total ps < 2 ^ 128
      → (bs : List (ℕ × ℕ)) × (get_balances w db ≡ ok bs)
        × Distinct (owners bs)
        × ((o : ℕ) → balance_of bs o ≡ total_for o ps)
  unfolding get_balances
  get_balances-totals db ps reads fits =
      let (bs, run, apart, sums) =
        balances_from_lem (w.trees.iter db.unspent) ps [] reads tt
          (λ o. omega (arith, total_for-total o ps)) in
      (bs, run, apart, λ o. let e = sums o in omega (arith, e))
