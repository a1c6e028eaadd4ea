-- ===== src/UtxoSet/Laws.antt =====
-- The UTXO set as a map from output references to outputs (tuxedo-core/src/utxo_set.rs).
use tuxedo.Base.{
  ◌≡◌, ap, ◌∙◌, Bool, true, none, some, ◌&&◌, ◌==◌, if◌then◌else◌, bytes_eq, bytes_eq_self,
  eq_of_bytes_eq, Bool-cases, inl, inr, arith, ◌↔◌, sym,
}
use tuxedo.Codec.{Codec, read-encode, encode_injective}
use tuxedo.Host.{StorageApi}
use tuxedo.Types.{OutputRef, Output}
use tuxedo.UtxoSet.{peek_utxo, consume_utxo, store_utxo}

abbrev pub ref_eq : OutputRef → OutputRef → Bool
ref_eq a b = a.tx_hash == b.tx_hash && a.index == b.index

pub ref_eq_iff : (a b : OutputRef) → (ref_eq a b ≡ true) ↔ (a ≡ b)
ref_eq_iff a b =
    (λ h. ground arith, λ h. ground (arith, ap (λ r. r.tx_hash) h, ap (λ r. r.index) h))

module _ {S V : Type 0} (api : StorageApi S) (refs : Codec OutputRef)
    (outs : Codec (Output V)) where
  -- Two keys are equal exactly if the references are.
  pub bytes_eq-encode : (a b : OutputRef) → bytes_eq (refs.encode a) (refs.encode b) ≡ ref_eq a b
  bytes_eq-encode a b = elim (Bool-cases (ref_eq a b)) [
    | inl e ↦ let same = (ref_eq_iff a b).0 e in rw (e, same) (bytes_eq_self (refs.encode b))
    | inr n ↦ elim (Bool-cases (bytes_eq (refs.encode a) (refs.encode b))) [
      | inl e ↦ cc ((ref_eq_iff a b).1 (encode_injective refs a b (eq_of_bytes_eq _ _ e)))
      | inr m ↦ m ∙ sym n
    ]
  ]

  pub peek-store_utxo :
      (s : S) (r q : OutputRef) (o : Output V)
      → peek_utxo api refs outs (store_utxo api refs outs s r o) q
        ≡ (if ref_eq r q then some o else peek_utxo api refs outs s q)
  unfolding peek_utxo store_utxo
  peek-store_utxo s r q o = ground (
    arith,
    api.get-set s (refs.encode r) (outs.encode o) (refs.encode q),
    bytes_eq-encode r q,
    read-encode outs o,
  )

  pub peek-consume_utxo :
      (s : S) (r q : OutputRef)
      → peek_utxo api refs outs (consume_utxo api refs outs s r).1 q
        ≡ (if ref_eq r q then none else peek_utxo api refs outs s q)
  unfolding peek_utxo consume_utxo
  peek-consume_utxo s r q =
      ground (arith, api.get-clear s (refs.encode r) (refs.encode q), bytes_eq-encode r q)
