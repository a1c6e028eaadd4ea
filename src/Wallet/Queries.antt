-- ===== src/Wallet/Queries.antt =====
-- What the wallet asks its database (wallet/src/sync.rs).
use tuxedo.Base.{
  ℕ, ◌+◌, ◌%◌, ◌^◌, ltb, Bytes, List, [], ◌∷◌, Option, none, some, Outcome, ok, ok_or, ◌>>=◌,
  if◌then◌else◌,
}
use tuxedo.Codec.{read}
use tuxedo.Types.{OutputRef}
use tuxedo.Wallet.{Db, Wallet, WalletError}

module _ {T V C : Type 0} (w : Wallet T V C) where
  abbrev pub keep : OutputRef → Option (List OutputRef) → Option (List OutputRef)
  keep r none = none
  keep r (some rs) = some (r ∷ rs)

  -- The loop of `get_arbitrary_unspent_set`, over the entries that are left; `total` is a `u128`.
  unfoldable pub keepers_from :
      ℕ → ℕ → List (Bytes × Bytes) → Outcome WalletError (Option (List OutputRef))
  keepers_from target total [] = if ltb total target then ok none else ok (some [])
  keepers_from target total (e ∷ es) =
      if ltb total target
      then (do
        output_ref ← ok_or (read w.refs e.0) WalletError.bad_entry
        entry ← ok_or (read w.owned e.1) WalletError.bad_entry
        keepers ← keepers_from target ((total + entry.1) % 2 ^ 128) es
        ok (keep output_ref keepers))
      else ok (some [])

  -- `get_arbitrary_unspent_set`
  unfoldable pub get_arbitrary_unspent_set :
      Db T → ℕ → Outcome WalletError (Option (List OutputRef))
  get_arbitrary_unspent_set db target = keepers_from target 0 (w.trees.iter db.unspent)

  -- `get_unspent`
  unfoldable pub get_unspent : Db T → OutputRef → Outcome WalletError (Option (ℕ × ℕ))
  get_unspent db output_ref = elim (w.trees.get db.unspent (w.refs.encode output_ref)) [
    | none ↦ ok none
    | some ivec ↦ do entry ← ok_or (read w.owned ivec) WalletError.bad_entry; ok (some entry)
  ]

  -- `get_block_hash`
  unfoldable pub get_block_hash : Db T → ℕ → Outcome WalletError (Option ℕ)
  get_block_hash db best = elim (w.trees.get db.block_hashes (w.numbers.encode best)) [
    | none ↦ ok none
    | some ivec ↦ do hash ← ok_or (read w.hashes ivec) WalletError.bad_entry; ok (some hash)
  ]
