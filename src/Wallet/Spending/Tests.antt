-- ===== src/Wallet/Spending/Tests.antt =====
-- Concrete runs of the wallet's spending (wallet/src/money.rs): a wallet whose one coin is worth 9,
-- and a keystore that signs with the key.
use tuxedo.Base.{
  ℕ, zero, suc, true, List, [], ◌∷◌, Option, some, none, ok, some_injective, All, arith, bytes_eq,
  ◌==◌, ◌≡◌, refl, length, ◌<◌,
}
use tuxedo.DynamicTyping.{DynamicallyTypedData, into_dynamic, extract}
use tuxedo.DynamicTyping.Laws.{extract-into_dynamic}
use tuxedo.Types.{OutputRef, redemption, Output, Transaction}
use tuxedo.Types.Encoding.{encode_transaction}
use tuxedo.UtxoSet.{peek_utxo}
use tuxedo.ConstraintChecker.{of_simple}
use tuxedo.Executive.Runtime.{Runtime, height_key, tx_hash_of}
use tuxedo.Executive.Validation.{peek, block_height, new_ref, strip, payloads}
use tuxedo.Executive.Application.{apply_tuxedo_transaction, update_storage}
use tuxedo.Wallet.Spending.Submitted.{IsNode, spend_coins-applied}
use tuxedo.Money.{MoneyConstraintChecker, spend, coin_data, check_money, MoneyError}
use tuxedo.TemplateRuntime.{
  OuterVerifier, OuterVerifierRedeemer, OuterConstraintChecker, outer_verifier,
}
use tuxedo.Wallet.{Db, Wallet}
use tuxedo.Wallet.Queries.{get_unspent, get_arbitrary_unspent_set, keepers_from}
use tuxedo.Wallet.Selection.{Owned, Holds}
use tuxedo.Wallet.Spending.{
  Services, named_total, all_input_refs, spend_coins, owned_coin, total_of, check_in_storage,
  sign_inputs, template_inputs, redeemer_for, new_outputs,
}
use tuxedo.Wallet.Spending.Signing.{Signs, Opens, spend_coins-Opens}
use tuxedo.Wallet.Spending.Repeated.{named-repeated}
use tuxedo.Wallet.Spending.Accepted.{IsSpendable, InputData, spend_coins-accepted}
use tuxedo.Samples.{Storage, empty, host, hash, crypto}
use tuxedo.Samples.Codecs.{numbers, bytes, pairs, lists}
use tuxedo.Samples.Chain.{refs, inputs_codec, checkers, headers, coins, coin_ref}
use tuxedo.Samples.Outer.{outputs, redeemers}
use tuxedo.Samples.Pieces.{timestamps}
use tuxedo.Samples.Trees.{Tree, trees}
use tuxedo.Wallet.Tests.{opaque_blocks}
use tuxedo.Timestamp.{timestamp_data}

abbrev into : OuterConstraintChecker → MoneyConstraintChecker
into (OuterConstraintChecker.money inner) = inner
into (OuterConstraintChecker.free_kitty inner) = spend
into OuterConstraintChecker.amoeba_mitosis = spend
into OuterConstraintChecker.amoeba_death = spend
into OuterConstraintChecker.amoeba_creation = spend
into OuterConstraintChecker.poe_claim = spend
into OuterConstraintChecker.poe_revoke = spend
into OuterConstraintChecker.poe_dispute = spend
into (OuterConstraintChecker.set_timestamp inner) = spend
into (OuterConstraintChecker.runtime_upgrade inner) = spend

abbrev owner_of : OuterVerifier → Option ℕ
owner_of (OuterVerifier.sr25519_signature inner) = some inner.owner_pubkey
owner_of (OuterVerifier.up_for_grabs inner) = none
owner_of (OuterVerifier.threshold_multi_signature inner) = none

abbrev wallet : Wallet Tree OuterVerifier MoneyConstraintChecker
wallet = record {
  trees = trees;
  refs = refs;
  owned = pairs numbers numbers;
  numbers = numbers;
  times = numbers;
  hashes = numbers;
  opaque_blocks = opaque_blocks;
  transactions = record {
    compact = numbers;
    inputs = lists inputs_codec;
    peeks = lists refs;
    outputs = lists outputs;
    checker = checkers;
  };
  bytes = bytes;
  blake2_256 = hash;
  coin_data = coin_data coins 0;
  timestamp_data = timestamp_data timestamps;
  signature_owner = owner_of;
  filter = λ v. true;
}

-- The coin of 9 is at the key 42.
abbrev mine : Output OuterVerifier
mine = record {
  payload = into_dynamic (coin_data coins 0) (record { value = 9 });
  verifier = OuterVerifier.sr25519_signature (record { owner_pubkey = 42 });
}

-- The node of the template runtime's verifier, with the money piece's checker.
abbrev rt : Runtime Storage OuterVerifier OuterVerifierRedeemer MoneyConstraintChecker MoneyError
rt = record {
  storage = host;
  blake2_256 = hash;
  ordered_trie_root = λ xs. length xs;
  output_refs = refs;
  inputs = inputs_codec;
  outputs = outputs;
  transactions = wallet.transactions;
  bytes = bytes;
  block_numbers = numbers;
  headers = headers;
  extrinsics = lists bytes;
  verifier = outer_verifier crypto redeemers;
  checker = of_simple (λ s c i e p o. check_money coins 0 c i e p o);
  length-output_ref = λ r. refl;
}

-- The node's storage: the coin, at height 5.
abbrev stored : Storage
stored =
    host.set (host.set empty height_key (numbers.encode 5)) (refs.encode coin_ref)
      (outputs.encode mine)

abbrev services : Services MoneyConstraintChecker
services = record {
  fetch_storage = λ r. peek rt stored r;
  sign = λ n key message. some (key ∷ []);
  redeemers = redeemers;
  into = into;
}

abbrev db : Db Tree
db = record {
  block_hashes = [];
  blocks = [];
  unspent = trees.insert [] (refs.encode coin_ref) (42 ∷ 9 ∷ []);
  spent = [];
  timestamp = [];
}

abbrev owned_coins : List Owned
owned_coins = (coin_ref, 9) ∷ []

db-Holds : Holds wallet db.unspent owned_coins
db-Holds = ((42, refl, refl), tt)

signs : Signs wallet services crypto
signs n key message signature h =
    let same : key ∷ [] ≡ signature = some_injective h in
    rw (← same) (let itself : (key == key) ≡ true = ground arith in itself)

spendable : All (IsSpendable wallet services coins) owned_coins
unfolding peek_utxo bytes_eq into_dynamic
spendable = (
  (
    mine,
    42,
    refl,
    extract-into_dynamic (coin_data coins 0) (record { value = 9 }),
    refl,
    λ n message. (42 ∷ [], refl),
  ),
  tt,
)

coins_accepted_example :
    (tx : Transaction OuterVerifier MoneyConstraintChecker) × (ds : List DynamicallyTypedData)
    × (priority : ℕ) × (spend_coins wallet services db
          (record { input = []; recipient = 43; output_amount = 5 ∷ 3 ∷ [] })
        ≡ ok tx)
    × InputData wallet services coins tx.inputs ds
    × (check_money coins 0 spend ds [] [] (payloads tx.outputs) ≡ ok priority)
coins_accepted_example =
    spend_coins-accepted wallet services coins refl db 43 (5 ∷ 3 ∷ []) owned_coins db-Holds
      (omega arith) spendable (omega arith, (omega arith, tt)) (omega arith) (omega arith)

abbrev built : Transaction OuterVerifier MoneyConstraintChecker
built = record {
  inputs =
      record {
        output_ref = coin_ref;
        redeemer =
            redemption (services.redeemers.encode (OuterVerifierRedeemer.signature (42 ∷ [])));
      }
      ∷ [];
  peeks = [];
  outputs = owned_coin wallet services 43 5 ∷ owned_coin wallet services 43 3 ∷ [];
  checker = spend;
}

spends :
    spend_coins wallet services db
      (record { input = []; recipient = 43; output_amount = 5 ∷ 3 ∷ [] })
    ≡ ok built
unfolding spend_coins named_total all_input_refs total_of get_arbitrary_unspent_set check_in_storage
    extract into_dynamic bytes_eq sign_inputs template_inputs redeemer_for new_outputs keepers_from
    peek_utxo
spends = refl

signed_example :
    All
      (Opens wallet services crypto (encode_transaction wallet.transactions (strip built)) 5)
      built.inputs
signed_example =
    spend_coins-Opens wallet services crypto db
      (record { input = []; recipient = 43; output_amount = 5 ∷ 3 ∷ [] }) built 5 signs spends

there : get_unspent wallet db coin_ref ≡ ok (some (42, 9))
unfolding get_unspent bytes_eq
there = refl

-- An output of 12 from the coin of 9, which is named.
repeated_example :
    (named_total wallet services db 0 (coin_ref ∷ []) ≡ ok 9)
    × ((more : List OutputRef) × (all_input_refs wallet services db 12 9 (coin_ref ∷ [])
          ≡ ok (coin_ref ∷ coin_ref ∷ more)))
repeated_example =
    named-repeated wallet services db coin_ref 42 9 12 [] there db-Holds (omega arith) (omega arith)
      (omega arith)

node : IsNode wallet services coins crypto rt stored
unfolding of_simple
node = record {
  verifier = refl;
  transactions = refl;
  coin_data = refl;
  fetches = λ r. refl;
  checks = λ inputs made priority h. h;
}

-- The new outputs' references are not in use: the coin's hash is 7.
fresh : (i : ℕ) → i < 2 → peek rt stored (new_ref (tx_hash_of rt built) i) ≡ none
unfolding new_ref tx_hash_of encode_transaction peek_utxo bytes_eq into_dynamic
fresh zero l = refl
fresh (suc zero) l = refl
fresh (suc (suc i)) l = absurd (omega arith)

at : block_height rt stored ≡ ok 5
unfolding block_height bytes_eq
at = refl

submitted_example : apply_tuxedo_transaction rt stored built ≡ ok (update_storage rt stored built)
submitted_example =
    spend_coins-applied wallet services coins crypto rt stored node db 43 (5 ∷ 3 ∷ []) owned_coins
      built 5 at signs db-Holds (omega arith) (tt, tt) spendable (omega arith, (omega arith, tt))
      (omega arith) (omega arith) spends fresh
