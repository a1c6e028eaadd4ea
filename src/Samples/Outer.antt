-- ===== src/Samples/Outer.antt =====
-- Codecs of the template runtime's verifier, redeemer and checker, and a chain of it, for the
-- concrete runs of the tests.
use tuxedo.Base.{ℕ, zero, suc, Bytes, List, [], ◌∷◌, length, ok, ◌>>=◌, ◌≡◌, refl, ap}
use tuxedo.Codec.{Codec}
use tuxedo.DynamicTyping.{DynamicallyTypedData}
use tuxedo.Types.{Output}
use tuxedo.Types.Encoding.{TransactionCodecs}
use tuxedo.Verifier.{UpForGrabs}
use tuxedo.Verifier.MultiSignature.{SignatureAndIndex}
use tuxedo.Executive.Runtime.{Runtime}
use tuxedo.Money.{spend, mint_coins}
use tuxedo.Kitties.{FreeKittyConstraintChecker}
use tuxedo.Timestamp.{SetTimestamp}
use tuxedo.TemplateRuntime.{
  OuterVerifier, OuterVerifierRedeemer, OuterConstraintChecker, OuterConstraintCheckerError, Pieces,
  outer_verifier, check_outer, is_inherent_outer,
}
use tuxedo.Samples.{Storage, host, hash, crypto, data_codec}
use tuxedo.Samples.Codecs.{numbers, bytes, pairs, lists, through}
use tuxedo.Samples.Chain.{refs, inputs_codec, headers, coins}
use tuxedo.Samples.Pieces.{kitties, amoebas, claims, timestamps, runtime_refs}

abbrev of_verifier : OuterVerifier → ℕ × (ℕ × List ℕ)
of_verifier (OuterVerifier.sr25519_signature inner) = (0, (inner.owner_pubkey, []))
of_verifier (OuterVerifier.up_for_grabs inner) = (1, (0, []))
of_verifier (OuterVerifier.threshold_multi_signature inner) =
    (2, (inner.threshold, inner.signatories))

abbrev to_verifier : ℕ × (ℕ × List ℕ) → OuterVerifier
to_verifier (zero, (n, ns)) = OuterVerifier.sr25519_signature (record { owner_pubkey = n })
to_verifier (suc zero, (n, ns)) = OuterVerifier.up_for_grabs UpForGrabs.up_for_grabs
to_verifier (suc (suc k), (n, ns)) =
    OuterVerifier.threshold_multi_signature (record { threshold = n; signatories = ns })

pub to_verifier-of_verifier : (v : OuterVerifier) → to_verifier (of_verifier v) ≡ v
to_verifier-of_verifier (OuterVerifier.sr25519_signature inner) = refl
to_verifier-of_verifier (OuterVerifier.up_for_grabs UpForGrabs.up_for_grabs) = refl
to_verifier-of_verifier (OuterVerifier.threshold_multi_signature inner) = refl

abbrev pub outputs : Codec (Output OuterVerifier)
outputs =
    through
      (pairs data_codec (
        through (pairs numbers (pairs numbers (lists numbers))) of_verifier to_verifier
          to_verifier-of_verifier))
      (λ (o : Output OuterVerifier). (o.payload, o.verifier))
      (λ (p : DynamicallyTypedData × OuterVerifier). record { payload = p.0; verifier = p.1 })
      (λ (o : Output OuterVerifier). refl)

abbrev signatures_codec : Codec (List SignatureAndIndex)
signatures_codec = lists (
    through (pairs bytes numbers) (λ (s : SignatureAndIndex). (s.signature, s.index))
      (λ (p : Bytes × ℕ). record { signature = p.0; index = p.1 })
      (λ (s : SignatureAndIndex). refl))

abbrev of_redeemer : OuterVerifierRedeemer → ℕ × (Bytes × List SignatureAndIndex)
of_redeemer (OuterVerifierRedeemer.signature inner) = (0, (inner, []))
of_redeemer (OuterVerifierRedeemer.nothing inner) = (1, ([], []))
of_redeemer (OuterVerifierRedeemer.signatures inner) = (2, ([], inner))

abbrev to_redeemer : ℕ × (Bytes × List SignatureAndIndex) → OuterVerifierRedeemer
to_redeemer (zero, (d, ss)) = OuterVerifierRedeemer.signature d
to_redeemer (suc zero, (d, ss)) = OuterVerifierRedeemer.nothing tt
to_redeemer (suc (suc k), (d, ss)) = OuterVerifierRedeemer.signatures ss

pub to_redeemer-of_redeemer : (r : OuterVerifierRedeemer) → to_redeemer (of_redeemer r) ≡ r
to_redeemer-of_redeemer (OuterVerifierRedeemer.signature inner) = refl
to_redeemer-of_redeemer (OuterVerifierRedeemer.nothing inner) = refl
to_redeemer-of_redeemer (OuterVerifierRedeemer.signatures inner) = refl

abbrev pub redeemers : Codec OuterVerifierRedeemer
redeemers =
    through (pairs numbers (pairs bytes signatures_codec)) of_redeemer to_redeemer
      to_redeemer-of_redeemer

abbrev of_outer : OuterConstraintChecker → ℕ × Bytes
of_outer (OuterConstraintChecker.money spend) = (0, [])
of_outer (OuterConstraintChecker.money mint_coins) = (1, [])
of_outer (OuterConstraintChecker.free_kitty inner) = (2, [])
of_outer OuterConstraintChecker.amoeba_mitosis = (3, [])
of_outer OuterConstraintChecker.amoeba_death = (4, [])
of_outer OuterConstraintChecker.amoeba_creation = (5, [])
of_outer OuterConstraintChecker.poe_claim = (6, [])
of_outer OuterConstraintChecker.poe_revoke = (7, [])
of_outer OuterConstraintChecker.poe_dispute = (8, [])
of_outer (OuterConstraintChecker.set_timestamp inner) = (9, [])
of_outer (OuterConstraintChecker.runtime_upgrade inner) = (10, inner.full_wasm)

abbrev to_outer : ℕ × Bytes → OuterConstraintChecker
to_outer (zero, d) = OuterConstraintChecker.money spend
to_outer (suc zero, d) = OuterConstraintChecker.money mint_coins
to_outer (suc (suc zero), d) =
    OuterConstraintChecker.free_kitty FreeKittyConstraintChecker.free_kitty
to_outer (suc (suc (suc zero)), d) = OuterConstraintChecker.amoeba_mitosis
to_outer (suc (suc (suc (suc zero))), d) = OuterConstraintChecker.amoeba_death
to_outer (suc (suc (suc (suc (suc zero)))), d) = OuterConstraintChecker.amoeba_creation
to_outer (suc (suc (suc (suc (suc (suc zero))))), d) = OuterConstraintChecker.poe_claim
to_outer (suc (suc (suc (suc (suc (suc (suc zero)))))), d) = OuterConstraintChecker.poe_revoke
to_outer (suc (suc (suc (suc (suc (suc (suc (suc zero))))))), d) =
    OuterConstraintChecker.poe_dispute
to_outer (suc (suc (suc (suc (suc (suc (suc (suc (suc zero)))))))), d) =
    OuterConstraintChecker.set_timestamp (record { inner = SetTimestamp.set_timestamp })
to_outer (suc (suc (suc (suc (suc (suc (suc (suc (suc (suc n))))))))), d) =
    OuterConstraintChecker.runtime_upgrade (record { full_wasm = d })

only_set : (x : SetTimestamp) → SetTimestamp.set_timestamp ≡ x
only_set SetTimestamp.set_timestamp = refl

pub to_outer-of_outer : (c : OuterConstraintChecker) → to_outer (of_outer c) ≡ c
to_outer-of_outer (OuterConstraintChecker.money spend) = refl
to_outer-of_outer (OuterConstraintChecker.money mint_coins) = refl
to_outer-of_outer (OuterConstraintChecker.free_kitty FreeKittyConstraintChecker.free_kitty) = refl
to_outer-of_outer OuterConstraintChecker.amoeba_mitosis = refl
to_outer-of_outer OuterConstraintChecker.amoeba_death = refl
to_outer-of_outer OuterConstraintChecker.amoeba_creation = refl
to_outer-of_outer OuterConstraintChecker.poe_claim = refl
to_outer-of_outer OuterConstraintChecker.poe_revoke = refl
to_outer-of_outer OuterConstraintChecker.poe_dispute = refl
to_outer-of_outer (OuterConstraintChecker.set_timestamp adapter) =
    ap (λ (x : SetTimestamp). OuterConstraintChecker.set_timestamp (record { inner = x }))
      (only_set adapter.inner)
to_outer-of_outer (OuterConstraintChecker.runtime_upgrade inner) = refl

abbrev pub checkers : Codec OuterConstraintChecker
checkers = through (pairs numbers bytes) of_outer to_outer to_outer-of_outer

abbrev pub transactions : TransactionCodecs OuterVerifier OuterConstraintChecker
transactions = record {
  compact = numbers;
  inputs = lists inputs_codec;
  peeks = lists refs;
  outputs = lists outputs;
  checker = checkers;
}

abbrev pub pieces : Pieces Storage
pieces = record {
  storage = host;
  blake2_256 = hash;
  encode_parents = λ a b c d. a ∷ b ∷ c ∷ d ∷ [];
  block_height = λ s. 5;
  coins = coins;
  kitties = kitties;
  amoebas = amoebas;
  claims = claims;
  timestamps = timestamps;
  runtime_refs = runtime_refs;
}

-- The storage that an upgrade leaves is dropped.
abbrev pub outer_chain :
    Runtime Storage OuterVerifier OuterVerifierRedeemer OuterConstraintChecker
      OuterConstraintCheckerError
outer_chain = record {
  storage = host;
  blake2_256 = hash;
  ordered_trie_root = λ xs. length xs;
  output_refs = refs;
  inputs = inputs_codec;
  outputs = outputs;
  transactions = transactions;
  bytes = bytes;
  block_numbers = numbers;
  headers = headers;
  extrinsics = lists bytes;
  verifier = outer_verifier crypto redeemers;
  checker = record {
    check = λ s c i e p o. check_outer pieces s c i e p o >>= λ r. ok r.0;
    is_inherent = is_inherent_outer;
  };
  length-output_ref = λ r. refl;
}
