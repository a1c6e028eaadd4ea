-- ===== src/Aggregator/Tests.antt =====
-- Concrete runs of aggregates (tuxedo-core/aggregator/src/lib.rs): two pieces that say the time,
-- and two verifiers.
use tuxedo.Base.{
  ℕ, zero, suc, ◌+◌, ◌==◌, if◌then◌else◌, List, [], ◌∷◌, some, ok, panic, length, ltb,
  some_injective, ok_injective, arith, Bool-cases, inl, inr, set_of, bytes_eq, ◌≡◌, ◌≢◌, refl,
}
use tuxedo.Codec.{Codec}
use tuxedo.DynamicTyping.{DynamicallyTypedData, into_dynamic}
use tuxedo.UtxoSet.{peek_utxo}
use tuxedo.Types.{redemption, Input, Output, Transaction, transform}
use tuxedo.Verifier.{TestVerifier, UpForGrabs, test_verifier, up_for_grabs_verifier}
use tuxedo.ConstraintChecker.{of_simple}
use tuxedo.Inherents.{
  InherentError, InherentResults, InherentHooks, InherentAdapter, adapter_identifier,
  wrap_transaction, adapter_inherents,
}
use tuxedo.Executive.Runtime.{Runtime, height_key}
use tuxedo.Executive.Validation.{validate_transaction, has_duplicates, block_height}
use tuxedo.Money.{MoneyConstraintChecker, MoneyError, spend, check_money}
use tuxedo.Aggregator.{
  Aggregate, wrap_first, wrap_second, check_all, aggregate_verifier, of_first, of_second,
}
use tuxedo.Aggregator.Pieces.{check_all_exactly_one}
use tuxedo.Aggregator.Redeemers.{Mismatch-panic}
use tuxedo.Samples.{Storage, empty, host, hash, data_codec}
use tuxedo.Samples.Codecs.{numbers, bytes, units, pairs, lists, through}
use tuxedo.Samples.Chain.{
  refs, inputs_codec, verifiers, checkers, headers, coins, coin_ref, coin_output, owner,
}

abbrev count : InherentResults ℕ
count = record { put_error = λ n identifier e. some (n + 1) }

abbrev inherent : ℕ → Transaction ℕ ℕ
inherent time = record { inputs = []; peeks = []; outputs = []; checker = time }

abbrev hooks : InherentHooks ℕ ℕ ℕ ℕ ℕ
hooks = record {
  create_inherent = λ s d previous. ok (inherent d);
  check_inherent = λ d tx n. if tx.checker == d then ok n else ok (n + 1);
  genesis_transactions = ok [];
}

-- The second piece says the time after.
abbrev later : InherentHooks ℕ ℕ ℕ ℕ ℕ
later = record {
  create_inherent = λ s d previous. ok (inherent (d + 1));
  check_inherent = λ d tx n. if tx.checker == d + 1 then ok n else ok (n + 1);
  genesis_transactions = ok [];
}

abbrev Both : Type 0
Both = Transaction ℕ (Aggregate (InherentAdapter ℕ) (InherentAdapter ℕ))

abbrev both : ℕ → List Both
both d =
    wrap_first (wrap_transaction (inherent d))
    ∷ wrap_second (wrap_transaction (inherent (d + 1)))
    ∷ []

dirty : (l : ℕ) (e : InherentError) → count.put_error l adapter_identifier e ≢ some 0
dirty l e h = let gone : l + 1 ≡ 0 = some_injective h in absurd (omega arith)

stays : (l : ℕ) (tx : Transaction ℕ ℕ) → later.check_inherent 7 tx l ≡ ok 0 → l ≡ 0
stays l tx h = elim (Bool-cases (tx.checker == 7 + 1)) [
  | inl same ↦ ok_injective (rw same at h)
  | inr other ↦ let gone : l + 1 ≡ 0 = ok_injective (rw other at h) in absurd (omega arith)
]

check_all_example :
    check_all (ltb 0) (adapter_inherents count hooks) (adapter_inherents count later) 7 (both 7) 0
    ≡ ok 0
unfolding of_first of_second transform
check_all_example =
    (check_all_exactly_one (ltb 0) count hooks later 7 (both 7) 0 refl dirty stays).1
      (inherent 7, inherent 8, refl, refl, refl, refl)

abbrev Verifiers : Type 0
Verifiers = Aggregate TestVerifier UpForGrabs

abbrev of_verifiers : Verifiers → ℕ × TestVerifier
of_verifiers (Aggregate.first v) = (0, v)
of_verifiers (Aggregate.second w) = (1, owner)

abbrev to_verifiers : ℕ × TestVerifier → Verifiers
to_verifiers (zero, v) = Aggregate.first v
to_verifiers (suc n, v) = Aggregate.second UpForGrabs.up_for_grabs

to_verifiers-of_verifiers : (v : Verifiers) → to_verifiers (of_verifiers v) ≡ v
to_verifiers-of_verifiers (Aggregate.first v) = refl
to_verifiers-of_verifiers (Aggregate.second UpForGrabs.up_for_grabs) = refl

abbrev Redeemer : Type 0
Redeemer = Aggregate (Unit {0}) (Unit {0})

abbrev of_redeemer : Redeemer → ℕ
of_redeemer (Aggregate.first u) = 0
of_redeemer (Aggregate.second u) = 1

abbrev to_redeemer : ℕ → Redeemer
to_redeemer zero = Aggregate.first tt
to_redeemer (suc n) = Aggregate.second tt

to_redeemer-of_redeemer : (r : Redeemer) → to_redeemer (of_redeemer r) ≡ r
to_redeemer-of_redeemer (Aggregate.first u) = refl
to_redeemer-of_redeemer (Aggregate.second u) = refl

abbrev redeemers : Codec Redeemer
redeemers = through numbers of_redeemer to_redeemer to_redeemer-of_redeemer

abbrev outputs : Codec (Output Verifiers)
outputs =
    through
      (pairs data_codec
        (through (pairs numbers verifiers) of_verifiers to_verifiers to_verifiers-of_verifiers))
      (λ (o : Output Verifiers). (o.payload, o.verifier))
      (λ (p : DynamicallyTypedData × Verifiers). record { payload = p.0; verifier = p.1 })
      (λ (o : Output Verifiers). refl)

-- The chain of the samples, with the aggregate verifier.
abbrev mixed : Runtime Storage Verifiers Redeemer MoneyConstraintChecker MoneyError
mixed = record {
  storage = host;
  blake2_256 = hash;
  ordered_trie_root = λ xs. length xs;
  output_refs = refs;
  inputs = inputs_codec;
  outputs = outputs;
  transactions = record {
    compact = numbers;
    inputs = lists inputs_codec;
    peeks = lists refs;
    outputs = lists outputs;
    checker = checkers;
  };
  bytes = bytes;
  block_numbers = numbers;
  headers = headers;
  extrinsics = lists bytes;
  verifier = aggregate_verifier (test_verifier units) (up_for_grabs_verifier units) redeemers;
  checker = of_simple (λ s c i e p o. check_money coins 0 c i e p o);
  length-output_ref = λ r. refl;
}

abbrev locked : Output Verifiers
locked = record { payload = (coin_output 9).payload; verifier = Aggregate.first owner }

abbrev stored : Storage
stored =
    host.set (host.set empty height_key (numbers.encode 5)) (refs.encode coin_ref)
      (outputs.encode locked)

-- The input's redeemer is that of the other verifier.
abbrev wrong : Input
wrong = record {
  output_ref = coin_ref;
  redeemer = redemption (redeemers.encode (Aggregate.second tt));
}

abbrev spending : Transaction Verifiers MoneyConstraintChecker
spending = record { inputs = wrong ∷ []; peeks = []; outputs = []; checker = spend }

mismatch_example : validate_transaction mixed stored spending ≡ panic
unfolding has_duplicates of_simple set_of peek_utxo bytes_eq into_dynamic block_height
mismatch_example =
    Mismatch-panic (test_verifier units) (up_for_grabs_verifier units) redeemers mixed refl stored
      spending wrong [] locked (Aggregate.second tt) 5 refl refl refl refl refl refl tt
