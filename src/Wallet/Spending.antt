-- ===== src/Wallet/Spending.antt =====
-- wallet/src/money.rs: the transactions that the wallet builds (`spend_coins_helper` and
-- `mint_coins_helper`, up to their submission; what they print is left out).
pub mod Repeated
pub mod Signing
pub mod Accepted
pub mod Submitted
mod Tests
use tuxedo.Base.{
  ℕ, ◌+◌, ◌-◌, ◌%◌, ◌^◌, ltb, Bytes, Bool, List, [], ◌∷◌, ◌++◌, Option, none, some, Outcome, ok,
  err, panic, ok_or, map_err, ◌>>=◌, ◌>>◌, if◌then◌else◌,
}
use tuxedo.Codec.{Codec}
use tuxedo.DynamicTyping.{DynamicTypingError, extract, into_dynamic}
use tuxedo.Types.{OutputRef, redemption, default_redeemer, Input, Output, Transaction}
use tuxedo.Types.Encoding.{encode_transaction}
use tuxedo.Verifier.{up_for_grabs}
use tuxedo.Money.{spend, mint_coins}
use tuxedo.TemplateRuntime.{OuterVerifier, OuterVerifierRedeemer, OuterConstraintChecker}
use tuxedo.Wallet.{Db, Wallet, WalletError}
use tuxedo.Wallet.Queries.{get_unspent, get_arbitrary_unspent_set}

-- `SpendArgs` of wallet/src/cli.rs.
pub record SpendArgs : Type 0 where
  pub input : List OutputRef
  pub recipient : ℕ
  pub output_amount : List ℕ

-- `MintCoinArgs` of wallet/src/cli.rs.
pub record MintCoinArgs : Type 0 where
  pub amount : ℕ
  pub owner : ℕ

pub data SpendError : Type 0 where
  database : WalletError → SpendError
  unknown_input not_enough_value not_in_storage not_a_coin key_missing : SpendError

-- `fetch_storage` asks the node for an output. `sign` is the keystore's, at the number of the
-- call (sr25519 signatures are randomized), the public key and the message. `into` is the
-- conversion into the node's checker.
pub record Services (C : Type 0) : Type 0 where
  pub fetch_storage : OutputRef → Option (Output OuterVerifier)
  pub sign : ℕ → ℕ → Bytes → Option Bytes
  pub redeemers : Codec OuterVerifierRedeemer
  pub into : OuterConstraintChecker → C

-- `total += amount` over a list, in `u128`.
unfoldable pub total_of : ℕ → List ℕ → ℕ
total_of total [] = total
total_of total (amount ∷ amounts) = total_of ((total + amount) % 2 ^ 128) amounts

unfoldable pub template_inputs : List OutputRef → List Input
template_inputs [] = []
template_inputs (r ∷ rs) =
    record { output_ref = r; redeemer = default_redeemer } ∷ template_inputs rs

module _ {T C : Type 0} (w : Wallet T OuterVerifier C) (services : Services C) where
  abbrev pub owned_coin : ℕ → ℕ → Output OuterVerifier
  owned_coin owner amount = record {
    payload = into_dynamic w.coin_data (record { value = amount });
    verifier = OuterVerifier.sr25519_signature (record { owner_pubkey = owner });
  }

  unfoldable pub new_outputs : ℕ → List ℕ → List (Output OuterVerifier)
  new_outputs recipient [] = []
  new_outputs recipient (amount ∷ amounts) =
      owned_coin recipient amount ∷ new_outputs recipient amounts

  -- The loop over the inputs that the user named, with `total_input_amount`.
  unfoldable pub named_total : Db T → ℕ → List OutputRef → Outcome SpendError ℕ
  named_total db total [] = ok total
  named_total db total (r ∷ rs) = do
    found ← map_err SpendError.database (get_unspent w db r)
    entry ← ok_or found SpendError.unknown_input
    named_total db ((total + entry.1) % 2 ^ 128) rs

  -- `all_input_refs`: the named inputs, and more of them where they are not worth enough.
  unfoldable pub all_input_refs :
      Db T → ℕ → ℕ → List OutputRef → Outcome SpendError (List OutputRef)
  all_input_refs db total_output total_input named =
      if ltb total_input total_output
      then (do
        selected ←
            map_err SpendError.database
              (get_arbitrary_unspent_set w db (total_output - total_input))
        more_inputs ← ok_or selected SpendError.not_enough_value
        ok (named ++ more_inputs))
      else ok named

  -- `get_coin_from_storage` on every input.
  unfoldable pub check_in_storage : List OutputRef → Outcome SpendError (Unit {0})
  check_in_storage [] = ok tt
  check_in_storage (r ∷ rs) = do
    utxo ← ok_or (services.fetch_storage r) SpendError.not_in_storage
    coin ←
        map_err (λ (e : DynamicTypingError). SpendError.not_a_coin)
          (extract w.coin_data utxo.payload)
    check_in_storage rs

  -- The proof that an output can be consumed; `todo!()` at a multisignature.
  unfoldable pub redeemer_for : ℕ → Bytes → OuterVerifier → Outcome SpendError OuterVerifierRedeemer
  redeemer_for made stripped (OuterVerifier.sr25519_signature inner) = do
    signature ← ok_or (services.sign made inner.owner_pubkey stripped) SpendError.key_missing
    ok (OuterVerifierRedeemer.signature signature)
  redeemer_for made stripped (OuterVerifier.up_for_grabs inner) =
      ok (OuterVerifierRedeemer.nothing tt)
  redeemer_for made stripped (OuterVerifier.threshold_multi_signature inner) = panic

  -- The loop that puts the redeemers in place.
  unfoldable pub sign_inputs : ℕ → Bytes → List Input → Outcome SpendError (List Input)
  sign_inputs made stripped [] = ok []
  sign_inputs made stripped (i ∷ is) = do
    utxo ← ok_or (services.fetch_storage i.output_ref) SpendError.not_in_storage
    redeemer ← redeemer_for made stripped utxo.verifier
    signed ← sign_inputs (made + 1) stripped is
    ok (record i { redeemer = redemption (services.redeemers.encode redeemer) } ∷ signed)

  abbrev pub template : List OutputRef → SpendArgs → Transaction OuterVerifier C
  template refs args = record {
    inputs = template_inputs refs;
    peeks = [];
    outputs = new_outputs args.recipient args.output_amount;
    checker = services.into (OuterConstraintChecker.money spend);
  }

  -- `spend_coins_helper`, up to the transaction that it submits.
  unfoldable pub spend_coins : Db T → SpendArgs → Outcome SpendError (Transaction OuterVerifier C)
  spend_coins db args = do
    let total_output = total_of 0 args.output_amount
    total_input ← named_total db 0 args.input
    refs ← all_input_refs db total_output total_input args.input
    check_in_storage refs
    let transaction = template refs args
    signed ← sign_inputs 0 (encode_transaction w.transactions transaction) transaction.inputs
    ok (record transaction { inputs = signed })

  -- `mint_coins_helper`, up to the transaction that it submits.
  unfoldable pub mint_coin : MintCoinArgs → Transaction OuterVerifier C
  mint_coin args = record {
    inputs = [];
    peeks = [];
    outputs = owned_coin args.owner args.amount ∷ [];
    checker = services.into (OuterConstraintChecker.money mint_coins);
  }
