-- ===== src/Samples/Chain.antt =====
-- A chain with coins and test verifiers (TestVerifier of tuxedo-core/src/verifier.rs), and a few
-- coins and transactions on it.
use tuxedo.Base.{
  ℕ, zero, suc, Bytes, Bool, true, false, List, [], ◌∷◌, Option, none, some, length, ◌≡◌, refl,
}
use tuxedo.Codec.{Codec}
use tuxedo.DynamicTyping.{DynamicallyTypedData, into_dynamic}
use tuxedo.Types.{OutputRef, RedemptionStrategy, redemption, eviction, Input, Output, Transaction}
use tuxedo.Verifier.{TestVerifier, test_verifier}
use tuxedo.ConstraintChecker.{of_simple}
use tuxedo.Executive.Runtime.{Runtime, Header, Block, height_key}
use tuxedo.Money.{
  Coin, MoneyConstraintChecker, spend, mint_coins, MoneyError, coin_data, check_money, mint,
}
use tuxedo.Samples.{Storage, empty, host, hash, data_codec}
use tuxedo.Samples.Codecs.{numbers, bytes, units, pairs, lists, through}

-- 34 zeros, which pad an output reference to 36 entries.
abbrev padding : Bytes
padding =
    0 ∷ 0 ∷ 0 ∷ 0 ∷ 0 ∷ 0 ∷ 0 ∷ 0 ∷ 0 ∷ 0 ∷ 0 ∷ 0 ∷ 0 ∷ 0 ∷ 0 ∷ 0 ∷ 0 ∷ 0 ∷ 0 ∷ 0 ∷ 0 ∷ 0 ∷ 0 ∷ 0
    ∷ 0 ∷ 0 ∷ 0 ∷ 0 ∷ 0 ∷ 0 ∷ 0 ∷ 0 ∷ 0 ∷ 0 ∷ []

abbrev drop : List ℕ → Bytes → Bytes
drop [] d = d
drop (n ∷ ns) [] = []
drop (n ∷ ns) (b ∷ bs) = drop ns bs

abbrev decode_ref : Bytes → Option (OutputRef × Bytes)
decode_ref [] = none
decode_ref (h ∷ []) = none
decode_ref (h ∷ i ∷ d) = some (record { tx_hash = h; index = i }, drop padding d)

abbrev pub refs : Codec OutputRef
refs = record {
  encode = λ r. r.tx_hash ∷ r.index ∷ padding;
  decode = decode_ref;
  decode-encode = λ r rest. refl;
}

abbrev of_redeemer : RedemptionStrategy → ℕ × Bytes
of_redeemer (redemption d) = (0, d)
of_redeemer eviction = (1, [])

abbrev to_redeemer : ℕ × Bytes → RedemptionStrategy
to_redeemer (zero, d) = redemption d
to_redeemer (suc n, d) = eviction

pub to_redeemer-of_redeemer : (r : RedemptionStrategy) → to_redeemer (of_redeemer r) ≡ r
to_redeemer-of_redeemer (redemption d) = refl
to_redeemer-of_redeemer eviction = refl

abbrev pub inputs_codec : Codec Input
inputs_codec =
    through (pairs refs (pairs numbers bytes))
      (λ (i : Input). (i.output_ref, of_redeemer i.redeemer))
      (λ (p : OutputRef × (ℕ × Bytes)). record { output_ref = p.0; redeemer = to_redeemer p.1 })
      (λ (i : Input).
        λ k. record { output_ref = i.output_ref; redeemer = to_redeemer-of_redeemer i.redeemer k })

abbrev of_bool : Bool → ℕ
of_bool true = 1
of_bool false = 0

abbrev to_bool : ℕ → Bool
to_bool zero = false
to_bool (suc n) = true

pub to_bool-of_bool : (b : Bool) → to_bool (of_bool b) ≡ b
to_bool-of_bool true = refl
to_bool-of_bool false = refl

abbrev pub verifiers : Codec TestVerifier
verifiers =
    through numbers (λ (v : TestVerifier). of_bool v.verifies)
      (λ (n : ℕ). record { verifies = to_bool n })
      (λ (v : TestVerifier). λ k. record { verifies = to_bool-of_bool v.verifies k })

abbrev pub outputs_codec : Codec (Output TestVerifier)
outputs_codec =
    through (pairs data_codec verifiers) (λ (o : Output TestVerifier). (o.payload, o.verifier))
      (λ (p : DynamicallyTypedData × TestVerifier). record { payload = p.0; verifier = p.1 })
      (λ (o : Output TestVerifier). refl)

abbrev of_checker : MoneyConstraintChecker → ℕ
of_checker spend = 0
of_checker mint_coins = 1

abbrev to_checker : ℕ → MoneyConstraintChecker
to_checker zero = spend
to_checker (suc n) = mint_coins

pub to_checker-of_checker : (c : MoneyConstraintChecker) → to_checker (of_checker c) ≡ c
to_checker-of_checker spend = refl
to_checker-of_checker mint_coins = refl

abbrev pub checkers : Codec MoneyConstraintChecker
checkers = through numbers of_checker to_checker to_checker-of_checker

abbrev pub headers : Codec Header
headers =
    through (pairs (pairs numbers numbers) (pairs (pairs numbers numbers) bytes))
      (λ (h : Header). ((h.parent_hash, h.number), ((h.state_root, h.extrinsics_root), h.digest)))
      (λ (p : (ℕ × ℕ) × ((ℕ × ℕ) × Bytes)). record {
        parent_hash = p.0.0;
        number = p.0.1;
        state_root = p.1.0.0;
        extrinsics_root = p.1.0.1;
        digest = p.1.1;
      })
      (λ (h : Header). refl)

abbrev pub coins : Codec Coin
coins =
    through numbers (λ (c : Coin). c.value) (λ (n : ℕ). record { value = n }) (λ (c : Coin). refl)

abbrev pub chain : Runtime Storage TestVerifier (Unit {0}) MoneyConstraintChecker MoneyError
chain = record {
  storage = host;
  blake2_256 = hash;
  ordered_trie_root = λ xs. length xs;
  output_refs = refs;
  inputs = inputs_codec;
  outputs = outputs_codec;
  transactions = record {
    compact = numbers;
    inputs = lists inputs_codec;
    peeks = lists refs;
    outputs = lists outputs_codec;
    checker = checkers;
  };
  bytes = bytes;
  block_numbers = numbers;
  headers = headers;
  extrinsics = lists bytes;
  verifier = test_verifier units;
  checker = of_simple (λ s c i e p o. check_money coins 0 c i e p o);
  length-output_ref = λ r. refl;
}

-- A coin, a reference to it, and a storage at height 5 that holds it.
abbrev pub owner : TestVerifier
owner = record { verifies = true }

abbrev pub coin_output : ℕ → Output TestVerifier
coin_output v = record {
  payload = into_dynamic (coin_data coins 0) (record { value = v });
  verifier = owner;
}

abbrev pub coin_ref : OutputRef
coin_ref = record { tx_hash = 7; index = 0 }

abbrev pub funded : Storage
funded =
    host.set (host.set empty height_key (numbers.encode 5)) (refs.encode coin_ref)
      (outputs_codec.encode (coin_output 9))

-- The coin of 9 is spent for one of 6 and one of 2.
abbrev pub spending : Transaction TestVerifier MoneyConstraintChecker
spending = record {
  inputs = record { output_ref = coin_ref; redeemer = redemption [] } ∷ [];
  peeks = [];
  outputs = coin_output 6 ∷ coin_output 2 ∷ [];
  checker = spend;
}

-- A coin of 4 is minted.
abbrev pub minting : Transaction TestVerifier MoneyConstraintChecker
unfolding mint
minting = mint coins 0 (λ (v : TestVerifier). v) (λ (c : MoneyConstraintChecker). c) 4 owner

-- The next block's header before it is sealed, and after.
abbrev pub header : Header
header = record { parent_hash = 0; number = 6; state_root = 0; extrinsics_root = 0; digest = [] }

abbrev pub sealed : Header
sealed = record header { state_root = 6; extrinsics_root = 2 }

abbrev pub block : Block TestVerifier MoneyConstraintChecker
block = record { header = sealed; extrinsics = spending ∷ minting ∷ [] }
