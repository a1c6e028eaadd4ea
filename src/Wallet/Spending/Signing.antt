-- ===== src/Wallet/Spending/Signing.antt =====
-- The redeemers that the wallet puts in place open the outputs (wallet/src/money.rs).
use tuxedo.Base.{
  ℕ, ◌+◌, Bytes, true, List, [], ◌∷◌, some, ok, ok_or, ok_or-eq-ok, >>=-eq-ok, ok_injective, All,
  ◌≡◌, refl, sym, ap, ◌∙◌, subst,
}
use tuxedo.Host.{Crypto}
use tuxedo.Types.{OutputRef, redemption, default_redeemer, Input, Output, Transaction}
use tuxedo.Types.Encoding.{encode_transaction}
use tuxedo.Verifier.{verify_up_for_grabs}
use tuxedo.Verifier.SimpleSignature.{verify_sr25519}
use tuxedo.Executive.Validation.{strip_inputs, strip}
use tuxedo.TemplateRuntime.{
  OuterVerifier, OuterVerifierRedeemer, verify_outer, as_sr25519_signature, as_up_for_grabs,
}
use tuxedo.Wallet.{Db, Wallet}
use tuxedo.Wallet.Spending.{
  SpendArgs, Services, template_inputs, template, total_of, named_total, all_input_refs,
  check_in_storage, redeemer_for, sign_inputs, spend_coins,
}

module _ {T C : Type 0} (w : Wallet T OuterVerifier C) (services : Services C)
    (crypto : Crypto) where
  -- What the keystore signs is a signature of the message by the key.
  abbrev pub Signs : Type 0
  Signs =
      (n key : ℕ) (message signature : Bytes)
      → services.sign n key message ≡ some signature
      → crypto.sr25519_verify signature message key ≡ true

  -- The input's redeemer opens the output, as the node has it, for this message.
  abbrev pub Opens : Bytes → ℕ → Input → Type 0
  Opens message height i =
      (utxo : Output OuterVerifier) × (r : OuterVerifierRedeemer) × (services.fetch_storage
          i.output_ref
        ≡ some utxo)
      × (i.redeemer ≡ redemption (services.redeemers.encode r))
      × (verify_outer crypto utxo.verifier message height r ≡ some true)

  redeemer_for-Opens :
      (n : ℕ) (message : Bytes) (v : OuterVerifier) (r : OuterVerifierRedeemer) (height : ℕ)
      → Signs
      → redeemer_for w services n message v ≡ ok r
      → verify_outer crypto v message height r ≡ some true
  unfolding redeemer_for verify_outer verify_sr25519 verify_up_for_grabs as_sr25519_signature
      as_up_for_grabs
  redeemer_for-Opens n message (OuterVerifier.sr25519_signature inner) r height signs h =
      let (signature, e, h1) =
        >>=-eq-ok (ok_or (services.sign n inner.owner_pubkey message) _) _ h in
      rw (← ok_injective h1)
        (ap some (signs n inner.owner_pubkey message signature (ok_or-eq-ok _ _ e)))
  redeemer_for-Opens n message (OuterVerifier.up_for_grabs inner) r height signs h =
      rw (← ok_injective h) refl
  redeemer_for-Opens n message (OuterVerifier.threshold_multi_signature inner) r height signs h = cc

  pub sign_inputs-Opens :
      (n : ℕ) (message : Bytes) (is signed : List Input) (height : ℕ)
      → Signs
      → sign_inputs w services n message is ≡ ok signed
      → All (Opens message height) signed × (strip_inputs signed ≡ strip_inputs is)
  unfolding sign_inputs strip_inputs
  sign_inputs-Opens n message [] signed height signs h = rw (← ok_injective h) (tt, refl)
  sign_inputs-Opens n message (i ∷ is) signed height signs h =
      let (utxo, e, h1) = >>=-eq-ok (ok_or (services.fetch_storage i.output_ref) _) _ h in
      let (r, f, h2) = >>=-eq-ok (redeemer_for w services n message utxo.verifier) _ h1 in
      let (rest, g, h3) = >>=-eq-ok (sign_inputs w services (n + 1) message is) _ h2 in
      let (opens, same) = sign_inputs-Opens (n + 1) message is rest height signs g in
      rw (← ok_injective h3) (
        (
          (
            utxo,
            r,
            ok_or-eq-ok _ _ e,
            refl,
            redeemer_for-Opens n message utxo.verifier r height signs f,
          ),
          opens,
        ),
        ap (◌∷◌ (record i { redeemer = default_redeemer })) same,
      )

  pub strip-template :
      (refs : List OutputRef) → strip_inputs (template_inputs refs) ≡ template_inputs refs
  unfolding strip_inputs template_inputs
  strip-template [] = refl
  strip-template (r ∷ rs) =
      ap (◌∷◌ (record { output_ref = r; redeemer = default_redeemer })) (strip-template rs)

  -- Where what the keystore signs is a signature of the message by the key, every input of a
  -- transaction that the wallet builds has a redeemer that opens its output, as the node has it,
  -- for the stripped encoding that the node checks.
  pub spend_coins-Opens :
      (db : Db T) (args : SpendArgs) (tx : Transaction OuterVerifier C) (height : ℕ)
      → Signs
      → spend_coins w services db args ≡ ok tx
      → All (Opens (encode_transaction w.transactions (strip tx)) height) tx.inputs
  unfolding spend_coins strip
  spend_coins-Opens db args tx height signs h =
      let (total_input, e1, h1) = >>=-eq-ok (named_total w services db 0 args.input) _ h in
      let (refs, e2, h2) =
        >>=-eq-ok
          (all_input_refs w services db (total_of 0 args.output_amount) total_input args.input) _
          h1 in
      let (u, e3, h3) = >>=-eq-ok (check_in_storage w services refs) _ h2 in
      let unsigned = template w services refs args in
      let (signed, e4, h4) =
        >>=-eq-ok
          (sign_inputs w services 0 (encode_transaction w.transactions unsigned) unsigned.inputs) _
          h3 in
      let (opens, same) =
        sign_inputs-Opens 0 (encode_transaction w.transactions unsigned) unsigned.inputs signed
          height signs e4 in
      let made = ok_injective h4 in
      let stripped : strip (record unsigned { inputs = signed }) ≡ unsigned =
        ap (λ (is : List Input). record unsigned { inputs = is }) (same ∙ strip-template refs) in
      subst
        (λ (x : Transaction OuterVerifier C).
          All (Opens (encode_transaction w.transactions (strip x)) height) x.inputs)
        made
        (subst
          (λ (x : Transaction OuterVerifier C).
            All (Opens (encode_transaction w.transactions x) height) signed)
          (sym stripped) opens)
