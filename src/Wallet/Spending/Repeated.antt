-- ===== src/Wallet/Spending/Repeated.antt =====
-- A named input that is not worth enough (wallet/src/money.rs with wallet/src/sync.rs).
use tuxedo.Base.{
  ℕ, ◌+◌, ◌-◌, ◌%◌, ◌^◌, ◌<◌, ◌≤◌, ltb, true, List, [], ◌∷◌, ◌++◌, some, ok, ◌≡◌, sym, ap, arith,
  inl, inr, first_of_cons,
}
use tuxedo.Types.{OutputRef}
use tuxedo.TemplateRuntime.{OuterVerifier}
use tuxedo.Wallet.{Db, Wallet}
use tuxedo.Wallet.Queries.{get_unspent}
use tuxedo.Wallet.Selection.{Owned, amounts, refs_of, Holds, get_arbitrary_unspent_set_lem}
use tuxedo.Wallet.Spending.{Services, named_total, all_input_refs}

pub below-ltb : (a b : ℕ) → a < b → ltb a b ≡ true
below-ltb a b h = ground arith

module _ {T C : Type 0} (w : Wallet T OuterVerifier C) (services : Services C) where
  -- A choice that is worth something has a first output, which is the table's.
  starts_with :
      (r : OutputRef) (a target : ℕ) (xs chosen rest : List Owned)
      → (r, a) ∷ xs ≡ chosen ++ rest
      → 0 < target
      → target ≤ amounts chosen
      → (more : List OutputRef) × (refs_of chosen ≡ r ∷ more)
  starts_with r a target xs [] rest split pos le = absurd (omega arith)
  starts_with r a target xs (c ∷ cs) rest split pos le =
      (refs_of cs, ap (λ (x : Owned). x.0 ∷ refs_of cs) (sym (first_of_cons split)))

  -- Where an input that the user names is the first of the unspent table and is not worth enough,
  -- but twice its worth and that of the rest is, the inputs that the wallet chooses begin with the
  -- named one twice.
  pub named-repeated :
      (db : Db T) (r : OutputRef) (owner a total_output : ℕ) (xs : List Owned)
      → get_unspent w db r ≡ ok (some (owner, a))
      → Holds w (w.trees.iter db.unspent) ((r, a) ∷ xs)
      → a + amounts xs < 2 ^ 128
      → a < total_output
      → total_output ≤ a + (a + amounts xs)
      → (named_total w services db 0 (r ∷ []) ≡ ok a)
        × ((more : List OutputRef) × (all_input_refs w services db total_output a (r ∷ [])
              ≡ ok (r ∷ r ∷ more)))
  unfolding named_total all_input_refs
  named-repeated db r owner a total xs found holds fits short enough =
      let small : (0 + a) % 2 ^ 128 ≡ a = omega arith in
      (
        rw (found, small),
        elim (get_arbitrary_unspent_set_lem w db (total - a) ((r, a) ∷ xs) holds fits) [
          | inl (reach, (chosen, rest, split, result, worth)) ↦
              let (more, starts) =
                starts_with r a (total - a) xs chosen rest split (omega arith) (omega arith) in
              (more, rw (below-ltb a total short, result, starts))
          | inr (less, none_found) ↦ absurd (omega arith)
        ],
      )
