-- ===== src/Money.antt =====
-- wardrobe/money/src/lib.rs: a fungible token. `id` is the const parameter `ID`.
pub mod Chain
pub mod Spending
pub mod Minting
pub mod Doubling
mod Tests
use tuxedo.Base.{
  ℕ, ◌+◌, ◌-◌, ◌%◌, ◌^◌, Bytes, Bool, true, false, List, [], ◌∷◌, Option, none, some, Outcome, ok,
  err, ◌>>=◌, ◌>>◌, checked_add_u128, ensure, ok_or, map_err, ltb, leb, is_empty, not,
  if◌then◌else◌,
}
use tuxedo.Codec.{Codec}
use tuxedo.DynamicTyping.{DynamicallyTypedData, UtxoData, DynamicTypingError, extract, into_dynamic}
use tuxedo.Types.{Output, Transaction}

pub data MoneyConstraintChecker : Type 0 where
  spend mint_coins : MoneyConstraintChecker

pub record Coin : Type 0 where
  pub value : ℕ

pub data MoneyError : Type 0 where
  badly_typed no_evictions_allowed minting_with_inputs minting_nothing : MoneyError
  spending_nothing outputs_exceed_inputs value_overflow zero_value_coin : MoneyError

-- `UtxoData for Coin<ID>`
abbrev pub coin_data : Codec Coin → ℕ → UtxoData Coin
coin_data codec id = record { codec = codec; own_type_id = b'c' ∷ b'o' ∷ b'i' ∷ id ∷ [] }

abbrev pub u64_max : ℕ
u64_max = 2 ^ 64 - 1

-- The priority of a spend that burns this much: `burned as u64`, or `u64::MAX`.
unfoldable pub priority_of : ℕ → ℕ
priority_of burned = if ltb burned u64_max then burned % 2 ^ 64 else u64_max

module _ (codec : Codec Coin) (id : ℕ) where
  -- `Coin::mint`, at the conversions of the verifier and of the checker.
  unfoldable pub mint :
      {V W C : Type 0} → (V → W) → (MoneyConstraintChecker → C) → ℕ → V → Transaction W C
  mint into_verifier into_checker amt v = record {
    inputs = [];
    peeks = [];
    outputs =
        record {
          payload = into_dynamic (coin_data codec id) (record { value = amt });
          verifier = into_verifier v;
        }
        ∷ [];
    checker = into_checker MoneyConstraintChecker.mint_coins;
  }

  -- `extract::<Coin<ID>>().map_err(|_| BadlyTyped)?.0`
  unfoldable pub extract_value : DynamicallyTypedData → Outcome MoneyError ℕ
  extract_value d = do
    coin ←
        map_err (λ (e : DynamicTypingError). MoneyError.badly_typed)
          (extract (coin_data codec id) d)
    ok coin.value

  -- The loop over `input_data`, with `total_input_value`.
  unfoldable pub add_inputs : ℕ → List DynamicallyTypedData → Outcome MoneyError ℕ
  add_inputs total [] = ok total
  add_inputs total (d ∷ ds) = do
    utxo_value ← extract_value d
    more ← ok_or (checked_add_u128 total utxo_value) MoneyError.value_overflow
    add_inputs more ds

  -- The loop over `output_data`, with `total_output_value`.
  unfoldable pub add_outputs : ℕ → List DynamicallyTypedData → Outcome MoneyError ℕ
  add_outputs total [] = ok total
  add_outputs total (d ∷ ds) = do
    utxo_value ← extract_value d
    ensure (ltb 0 utxo_value) MoneyError.zero_value_coin
    more ← ok_or (checked_add_u128 total utxo_value) MoneyError.value_overflow
    add_outputs more ds

  -- The loop of the mint path.
  unfoldable pub check_minted : List DynamicallyTypedData → Outcome MoneyError (Unit {0})
  check_minted [] = ok tt
  check_minted (d ∷ ds) = do
    utxo_value ← extract_value d
    ensure (ltb 0 utxo_value) MoneyError.zero_value_coin
    check_minted ds

  unfoldable pub check_spend :
      List DynamicallyTypedData → List DynamicallyTypedData → Outcome MoneyError ℕ
  check_spend input_data output_data = do
    ensure (not (is_empty input_data)) MoneyError.spending_nothing
    total_input_value ← add_inputs 0 input_data
    total_output_value ← add_outputs 0 output_data
    ensure (leb total_output_value total_input_value) MoneyError.outputs_exceed_inputs
    ok (priority_of (total_input_value - total_output_value))

  unfoldable pub check_mint :
      List DynamicallyTypedData → List DynamicallyTypedData → Outcome MoneyError ℕ
  check_mint input_data output_data = do
    ensure (is_empty input_data) MoneyError.minting_with_inputs
    ensure (not (is_empty output_data)) MoneyError.minting_nothing
    check_minted output_data
    ok 0

  -- `MoneyConstraintChecker::check`
  unfoldable pub check_money :
      MoneyConstraintChecker
      → (input_data evicted_input_data peeks output_data : List DynamicallyTypedData)
      → Outcome MoneyError ℕ
  check_money MoneyConstraintChecker.spend input_data evicted_input_data peeks output_data = do
    ensure (is_empty evicted_input_data) MoneyError.no_evictions_allowed
    check_spend input_data output_data
  check_money MoneyConstraintChecker.mint_coins input_data evicted_input_data peeks output_data = do
    ensure (is_empty evicted_input_data) MoneyError.no_evictions_allowed
    check_mint input_data output_data
