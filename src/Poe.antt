-- ===== src/Poe.antt =====
-- wardrobe/poe/src/lib.rs: proof of existence, by claims on hashes.
pub mod Claims
mod Tests
use tuxedo.Base.{
  ℕ, ◌==◌, ltb, leb, List, [], ◌∷◌, is_empty, get_elem?, Outcome, ok, ok_or, ensure, for_each,
  ◌>>=◌, ◌>>◌,
}
use tuxedo.Codec.{Codec}
use tuxedo.DynamicTyping.{DynamicallyTypedData, UtxoData, extract_or}

-- `claim` is an `H256`, `effective_height` a `u32`.
pub record ClaimData : Type 0 where
  pub claim : ℕ
  pub effective_height : ℕ

pub data PoeError : Type 0 where
  wrong_number_inputs wrong_number_outputs badly_typed_input badly_typed_output : PoeError
  effective_height_in_past disputing_mismatched_claims incorrect_dispute_winner : PoeError

-- `UtxoData for ClaimData`
abbrev pub claim_data : Codec ClaimData → UtxoData ClaimData
claim_data codec = record { codec = codec; own_type_id = b'p' ∷ b'o' ∷ b'e' ∷ b'_' ∷ [] }

-- The bodies of the loops, after the extraction.
abbrev pub claim_test : ℕ → ClaimData → Outcome PoeError (Unit {0})
claim_test block_height output =
    ensure (leb block_height output.effective_height) PoeError.effective_height_in_past

abbrev pub dispute_test : ClaimData → ClaimData → Outcome PoeError (Unit {0})
dispute_test winner loser = do
  ensure (winner.claim == loser.claim) PoeError.disputing_mismatched_claims
  ensure (ltb winner.effective_height loser.effective_height) PoeError.incorrect_dispute_winner

module _ (codec : Codec ClaimData) where
  -- `PoeClaim::check`, at the `block_height` of its `PoeConfig`.
  unfoldable pub check_claim :
      (block_height : ℕ)
      → (input_data evicted_input_data peeks output_data : List DynamicallyTypedData)
      → Outcome PoeError ℕ
  check_claim block_height input_data evicted_input_data peeks output_data = do
    ensure (is_empty input_data) PoeError.wrong_number_inputs
    ensure (is_empty evicted_input_data) PoeError.wrong_number_inputs
    for_each
        (λ untyped_output.
          extract_or (claim_data codec) PoeError.badly_typed_output untyped_output
          >>= claim_test block_height)
        output_data
    ok 0

  -- `PoeRevoke::check`
  unfoldable pub check_revoke :
      (input_data evicted_input_data peeks output_data : List DynamicallyTypedData)
      → Outcome PoeError ℕ
  check_revoke input_data evicted_input_data peeks output_data = do
    ensure (is_empty evicted_input_data) PoeError.wrong_number_inputs
    ensure (is_empty output_data) PoeError.wrong_number_outputs
    for_each
        (λ untyped_input.
          extract_or (claim_data codec) PoeError.badly_typed_input untyped_input >>= λ claim. ok tt)
        input_data
    ok 0

  -- `PoeDispute::check`
  unfoldable pub check_dispute :
      (input_data evicted_input_data peek_data output_data : List DynamicallyTypedData)
      → Outcome PoeError ℕ
  check_dispute input_data evicted_input_data peek_data output_data = do
    ensure (is_empty input_data) PoeError.wrong_number_inputs
    ensure (is_empty output_data) PoeError.wrong_number_outputs
    first ← ok_or (get_elem? peek_data 0) PoeError.wrong_number_inputs
    winner ← extract_or (claim_data codec) PoeError.badly_typed_input first
    for_each
        (λ untyped_loser.
          extract_or (claim_data codec) PoeError.badly_typed_input untyped_loser
          >>= dispute_test winner)
        evicted_input_data
    ok 0
