-- ===== src/TemplateRuntime/Confinement.antt =====
-- Each piece of the template runtime keeps to its own data (tuxedo-template-runtime/src/lib.rs).
use tuxedo.Base.{
  ℕ, Bytes, List, [], ◌∷◌, Outcome, ok, err, panic, map_err-eq-ok, ok_injective, All, ◌≡◌, refl,
  sym, subst,
}
use tuxedo.DynamicTyping.{DynamicallyTypedData, UtxoData}
use tuxedo.DynamicTyping.Laws.{type_id_of_extract}
use tuxedo.DynamicTyping.Typed.{Typed}
use tuxedo.Money.{MoneyConstraintChecker, coin_data, check_money}
use tuxedo.Money.Spending.{check_money_spend_iff}
use tuxedo.Money.Spending.Totals.{HoldCoins}
use tuxedo.Money.Minting.{check_money-IsMint_iff}
use tuxedo.Kitties.{kitty_data}
use tuxedo.Kitties.Breeding.{check_free_kitty_iff}
use tuxedo.Amoeba.{amoeba_data}
use tuxedo.Amoeba.Life.{check_mitosis_iff, check_death_iff, check_creation_iff}
use tuxedo.Poe.{claim_data}
use tuxedo.Poe.Claims.{check_claim_iff, check_revoke_iff, check_dispute_iff}
use tuxedo.Timestamp.{timestamp_data, default_config}
use tuxedo.Timestamp.Checks.{check_set_timestamp_iff}
use tuxedo.RuntimeUpgrade.{runtime_data}
use tuxedo.RuntimeUpgrade.Code.{check_upgrade_iff}
use tuxedo.TemplateRuntime.{
  OuterConstraintChecker, OuterConstraintCheckerError, Pieces, reading, check_outer,
}

-- All of the data are of this type.
abbrev pub OfType : Bytes → List DynamicallyTypedData → Type 0
OfType id ds = All (λ (d : DynamicallyTypedData). d.type_id ≡ id) ds

Typed-OfType :
    {T : Type 0} (u : UtxoData T) (ds : List DynamicallyTypedData) (vs : List T)
    → Typed u ds vs
    → OfType u.own_type_id ds
Typed-OfType u [] vs h = tt
Typed-OfType u (d ∷ ds) [] h = absurd h
Typed-OfType u (d ∷ ds) (v ∷ vs) h = (type_id_of_extract u d v h.0, Typed-OfType u ds vs h.1)

none-OfType : (id : Bytes) (ds : List DynamicallyTypedData) → ds ≡ [] → OfType id ds
none-OfType id ds e = subst (OfType id) (sym e) tt

reading-eq-ok :
    {S E : Type 0} (error : E → OuterConstraintCheckerError) (s : S) (checked : Outcome E ℕ)
    {r : ℕ × S}
    → reading error s checked ≡ ok r
    → (priority : ℕ) × (checked ≡ ok priority) × (r ≡ (priority, s))
reading-eq-ok error s (ok p) h = (p, refl, sym (ok_injective h))
reading-eq-ok error s (err e) h = cc
reading-eq-ok error s panic h = cc

module _ {S : Type 0} (pieces : Pieces S) where
  -- The type of the data that a checker deals in.
  abbrev pub type_of : OuterConstraintChecker → Bytes
  type_of (OuterConstraintChecker.money inner) = (coin_data pieces.coins 0).own_type_id
  type_of (OuterConstraintChecker.free_kitty inner) = (kitty_data pieces.kitties).own_type_id
  type_of OuterConstraintChecker.amoeba_mitosis = (amoeba_data pieces.amoebas).own_type_id
  type_of OuterConstraintChecker.amoeba_death = (amoeba_data pieces.amoebas).own_type_id
  type_of OuterConstraintChecker.amoeba_creation = (amoeba_data pieces.amoebas).own_type_id
  type_of OuterConstraintChecker.poe_claim = (claim_data pieces.claims).own_type_id
  type_of OuterConstraintChecker.poe_revoke = (claim_data pieces.claims).own_type_id
  type_of OuterConstraintChecker.poe_dispute = (claim_data pieces.claims).own_type_id
  type_of (OuterConstraintChecker.set_timestamp a) = (timestamp_data pieces.timestamps).own_type_id
  type_of (OuterConstraintChecker.runtime_upgrade a) =
      (runtime_data pieces.runtime_refs).own_type_id

  abbrev pub Confined : Bytes → (inputs evicted outputs : List DynamicallyTypedData) → Type 0
  Confined id inputs evicted outputs = OfType id inputs × OfType id evicted × OfType id outputs

  HoldCoins-OfType :
      (ds : List DynamicallyTypedData) (vs : List ℕ)
      → HoldCoins pieces.coins 0 ds vs
      → OfType (coin_data pieces.coins 0).own_type_id ds
  HoldCoins-OfType [] vs h = tt
  HoldCoins-OfType (d ∷ ds) [] h = absurd h
  HoldCoins-OfType (d ∷ ds) (v ∷ vs) h =
      (type_id_of_extract (coin_data pieces.coins 0) d _ h.0, HoldCoins-OfType ds vs h.1)

  check_money-Confined :
      (checker : MoneyConstraintChecker) (inputs evicted peeks outputs : List DynamicallyTypedData)
      (priority : ℕ)
      → check_money pieces.coins 0 checker inputs evicted peeks outputs ≡ ok priority
      → Confined (coin_data pieces.coins 0).own_type_id inputs evicted outputs
  check_money-Confined MoneyConstraintChecker.spend i v p o n e =
      let x = (check_money_spend_iff pieces.coins 0 i v p o n).0 e in
      (
        HoldCoins-OfType i x.consumed x.inputs_hold,
        none-OfType _ v x.nothing_evicted,
        HoldCoins-OfType o x.created x.outputs_hold,
      )
  check_money-Confined MoneyConstraintChecker.mint_coins i v p o n e =
      let x = (check_money-IsMint_iff pieces.coins 0 i v p o n).0 e in
      (
        none-OfType _ i x.nothing_consumed,
        none-OfType _ v x.nothing_evicted,
        HoldCoins-OfType o x.created x.outputs_hold,
      )

  -- A transaction that the template runtime's checker accepts consumes, evicts and creates only
  -- data of the type that its constraint checker deals in.
  pub check_outer-Confined :
      (s : S) (checker : OuterConstraintChecker)
      (inputs evicted peeks outputs : List DynamicallyTypedData) (r : ℕ × S)
      → check_outer pieces s checker inputs evicted peeks outputs ≡ ok r
      → Confined (type_of checker) inputs evicted outputs
  unfolding check_outer
  check_outer-Confined s (OuterConstraintChecker.money inner) i v p o r h =
      let (n, e, _) = reading-eq-ok OuterConstraintCheckerError.money_error s _ h in
      check_money-Confined inner i v p o n e
  check_outer-Confined s (OuterConstraintChecker.free_kitty inner) i v p o r h =
      let u = kitty_data pieces.kitties in
      let (n, e, _) = reading-eq-ok OuterConstraintCheckerError.kitty_error s _ h in
      let (_, (m, d, ev, ins, _, (a, b, c, outs, _, _, _, _, _))) =
        (check_free_kitty_iff pieces.blake2_256 pieces.encode_parents pieces.kitties i v p o n).0
          e in
      (Typed-OfType u i _ ins, none-OfType _ v ev, Typed-OfType u o _ outs)
  check_outer-Confined s OuterConstraintChecker.amoeba_mitosis i v p o r h =
      let u = amoeba_data pieces.amoebas in
      let (n, e, _) = reading-eq-ok OuterConstraintCheckerError.amoeba_error s _ h in
      let (_, (m, a, b, ev, ins, outs, _, _)) = (check_mitosis_iff pieces.amoebas i v p o n).0 e in
      (Typed-OfType u i _ ins, none-OfType _ v ev, Typed-OfType u o _ outs)
  check_outer-Confined s OuterConstraintChecker.amoeba_death i v p o r h =
      let u = amoeba_data pieces.amoebas in
      let (n, e, _) = reading-eq-ok OuterConstraintCheckerError.amoeba_error s _ h in
      let (_, (m, ev, ins, outs)) = (check_death_iff pieces.amoebas i v p o n).0 e in
      (Typed-OfType u i _ ins, none-OfType _ v ev, none-OfType _ o outs)
  check_outer-Confined s OuterConstraintChecker.amoeba_creation i v p o r h =
      let u = amoeba_data pieces.amoebas in
      let (n, e, _) = reading-eq-ok OuterConstraintCheckerError.amoeba_error s _ h in
      let (_, (m, ev, ins, outs, _)) = (check_creation_iff pieces.amoebas i v p o n).0 e in
      (none-OfType _ i ins, none-OfType _ v ev, Typed-OfType u o _ outs)
  check_outer-Confined s OuterConstraintChecker.poe_claim i v p o r h =
      let u = claim_data pieces.claims in
      let (n, e, _) = reading-eq-ok OuterConstraintCheckerError.poe_error s _ h in
      let (_, (cs, ins, ev, outs, _)) =
        (check_claim_iff pieces.claims (pieces.block_height s) i v p o n).0 e in
      (none-OfType _ i ins, none-OfType _ v ev, Typed-OfType u o _ outs)
  check_outer-Confined s OuterConstraintChecker.poe_revoke i v p o r h =
      let u = claim_data pieces.claims in
      let (n, e, _) = reading-eq-ok OuterConstraintCheckerError.poe_error s _ h in
      let (_, (cs, ev, outs, ins)) = (check_revoke_iff pieces.claims i v p o n).0 e in
      (Typed-OfType u i _ ins, none-OfType _ v ev, none-OfType _ o outs)
  check_outer-Confined s OuterConstraintChecker.poe_dispute i v p o r h =
      let u = claim_data pieces.claims in
      let (n, e, _) = reading-eq-ok OuterConstraintCheckerError.poe_error s _ h in
      let (_, (first, more, winner, losers, ins, outs, _, _, ev, _)) =
        (check_dispute_iff pieces.claims i v p o n).0 e in
      (none-OfType _ i ins, Typed-OfType u v _ ev, none-OfType _ o outs)
  check_outer-Confined s (OuterConstraintChecker.set_timestamp a) i v p o r h =
      let u = timestamp_data pieces.timestamps in
      let (n, e, _) = reading-eq-ok OuterConstraintCheckerError.timestamp_error s _ h in
      let (_, (old, new, first, more, ins, ev, outs, _, _, _, _, _)) =
        (check_set_timestamp_iff (default_config pieces.block_height) pieces.timestamps s i v p o
            n).0
          e in
      (none-OfType _ i ins, none-OfType _ v ev, Typed-OfType u o _ outs)
  check_outer-Confined s (OuterConstraintChecker.runtime_upgrade a) i v p o r h =
      let u = runtime_data pieces.runtime_refs in
      let e = map_err-eq-ok OuterConstraintCheckerError.upgrade_error _ h in
      let (_, (consumed, created, code, ev, ins, _, _, outs, _, _)) =
        (check_upgrade_iff pieces.storage pieces.blake2_256 pieces.runtime_refs s r.1 a.full_wasm i
            v p o r.0).0
          e in
      (Typed-OfType u i _ ins, none-OfType _ v ev, Typed-OfType u o _ outs)
