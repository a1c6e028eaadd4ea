-- ===== src/Parachain.antt =====
-- wardrobe/parachain/src/lib.rs: the parachain's information about the relay chain, as an inherent.
pub mod Info
mod Tests
use tuxedo.Base.{
  ℕ, ltb, ◌==◌, not, List, [], ◌∷◌, length, is_empty, Option, Outcome, ok, err, panic, expect,
  ensure, ◌>>=◌, ◌>>◌,
}
use tuxedo.DynamicTyping.{DynamicallyTypedData, UtxoData, extract_or, into_dynamic, datum_at}
use tuxedo.Types.{OutputRef, eviction, Input, Output, Transaction}
use tuxedo.Inherents.{InherentHooks}

pub data ParachainError : Type 0 where
  badly_typed missing_new_info extra_outputs : ParachainError
  missing_previous_info extra_inputs relay_block_not_increasing : ParachainError

pub data SetParachainInfo : Type 0 where
  set_parachain_info : SetParachainInfo

-- `P` is cumulus' `ParachainInherentData` (third party), as it is stored; `set_relay_parent` is the
-- configured `SetRelayParentNumberStorage::set`.
module _ {S P : Type 0} (info_data : UtxoData P) (relay_parent_number : P → ℕ)
    (set_relay_parent : S → ℕ → S) where
  -- The checks of `SetParachainInfo::check` that follow its side effect.
  unfoldable pub check_previous :
      P → (input_data evicted_input_data : List DynamicallyTypedData) → Outcome ParachainError ℕ
  check_previous current input_data evicted_input_data = do
    ensure (is_empty input_data) ParachainError.extra_inputs
    ensure (not (is_empty evicted_input_data)) ParachainError.missing_previous_info
    ensure (length evicted_input_data == 1) ParachainError.extra_inputs
    evicted ← datum_at evicted_input_data 0
    previous ← extract_or info_data ParachainError.badly_typed evicted
    ensure (ltb (relay_parent_number previous) (relay_parent_number current))
        ParachainError.relay_block_not_increasing
    ok 0

  -- The checks that precede it.
  unfoldable pub current_info : List DynamicallyTypedData → Outcome ParachainError P
  current_info output_data = do
    ensure (not (is_empty output_data)) ParachainError.missing_new_info
    ensure (length output_data == 1) ParachainError.extra_outputs
    output ← datum_at output_data 0
    extract_or info_data ParachainError.badly_typed output

  -- `SetParachainInfo::check`, with the storage that it leaves: the relay parent's number is
  -- written before the inputs are looked at.
  unfoldable pub check_parachain_info :
      S
      → (input_data evicted_input_data peek_data output_data : List DynamicallyTypedData)
      → Outcome ParachainError ℕ × S
  check_parachain_info s input_data evicted_input_data peek_data output_data =
      elim (current_info output_data) [
        | ok current ↦ (
          check_previous current input_data evicted_input_data,
          set_relay_parent s (relay_parent_number current),
        )
        | err e ↦ (err e, s)
        | panic ↦ (panic, s)
      ]

  -- `SetParachainInfo::create_inherent`, at the information that the inherent data holds and at the
  -- runtime's unspendable verifier.
  unfoldable pub create_inherent :
      {V D : Type 0}
      → (D → Option (Option P))
      → Option V
      → D
      → Transaction V SetParachainInfo × ℕ
      → Outcome (Unit {0}) (Transaction V SetParachainInfo)
  create_inherent get_data new_unspendable authoring_inherent_data previous = do
    present ← expect (get_data authoring_inherent_data)
    current ← expect present
    verifier ← expect new_unspendable
    ok (record {
      inputs =
          record { output_ref = record { tx_hash = previous.1; index = 0 }; redeemer = eviction }
          ∷ [];
      peeks = [];
      outputs = record { payload = into_dynamic info_data current; verifier = verifier } ∷ [];
      checker = SetParachainInfo.set_parachain_info;
    })

  -- `InherentHooks for SetParachainInfo`; `initial` is the information of relay parent zero that
  -- `new_data_from_relay_parent_number` makes of third-party defaults.
  unfoldable pub parachain_hooks :
      {V D L : Type 0}
      → (D → Option (Option P))
      → Option V
      → P
      → InherentHooks S V SetParachainInfo D L
  parachain_hooks get_data new_unspendable initial = record {
    create_inherent = λ s d previous. create_inherent get_data new_unspendable d previous;
    check_inherent = λ d inherent result. ok result;
    genesis_transactions = do
      verifier ← expect new_unspendable
      ok (
          record {
            inputs = [];
            peeks = [];
            outputs = record { payload = into_dynamic info_data initial; verifier = verifier } ∷ [];
            checker = SetParachainInfo.set_parachain_info;
          }
          ∷ []);
  }
