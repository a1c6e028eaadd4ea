-- ===== src/RuntimeUpgrade/Code.antt =====
-- The code in the storage and the reference to it (wardrobe/runtime_upgrade/src/lib.rs).
use tuxedo.Base.{
  ℕ, Bytes, ◌≡◌, ◌↔◌, refl, sym, ap, List, [], ◌∷◌, some, length, is_empty, is_empty_iff, ◌==◌,
  ==_iff, ok, expect, expect-eq-ok, >>=-eq-ok, ensure-eq-ok, ok_injective, bytes_eq_self,
}
use tuxedo.Codec.{Codec}
use tuxedo.Host.{StorageApi}
use tuxedo.DynamicTyping.{DynamicallyTypedData, datum_at, extract_or}
use tuxedo.DynamicTyping.Typed.{Typed, one-Typed, of_one-Typed}
use tuxedo.RuntimeUpgrade.{RuntimeRef, UpgradeError, runtime_data, code_key, check_upgrade}

module _ {S : Type 0} (storage : StorageApi S) (blake2_256 : Bytes → ℕ)
    (codec : Codec RuntimeRef) where
  -- The reference to the stored code is replaced by one to the new code, which is stored.
  abbrev pub IsUpgrade :
      S → S → Bytes → (inputs evicted outputs : List DynamicallyTypedData) → Type 0
  IsUpgrade s t full_wasm inputs evicted outputs =
      (consumed created : RuntimeRef) × (code : Bytes) × (evicted ≡ [])
      × Typed (runtime_data codec) inputs (consumed ∷ [])
      × (storage.get s code_key ≡ some code)
      × (consumed.hash ≡ blake2_256 code)
      × Typed (runtime_data codec) outputs (created ∷ [])
      × (created.hash ≡ blake2_256 full_wasm)
      × (t ≡ storage.set s code_key full_wasm)

  -- An upgrade is accepted exactly if nothing is evicted, the only input refers to the stored code
  -- and the only output to the new code; the priority is zero and the new code is then stored.
  pub check_upgrade_iff :
      (s t : S) (full_wasm : Bytes) (inputs evicted peeks outputs : List DynamicallyTypedData)
      (priority : ℕ)
      → (check_upgrade storage blake2_256 codec s
            (record { full_wasm = full_wasm })
            inputs
            evicted
            peeks
            outputs
          ≡ ok (priority, t))
        ↔ ((priority ≡ 0) × IsUpgrade s t full_wasm inputs evicted outputs)
  unfolding check_upgrade
  check_upgrade_iff s t full_wasm inputs evicted peeks outputs priority =
      let u = runtime_data codec in
      (
        λ h.
            let (e1, h1) = ensure-eq-ok (is_empty evicted) _ _ h in
            let (e2, h2) = ensure-eq-ok (length inputs == 1) _ _ h1 in
            let (d, e3, h3) = >>=-eq-ok (datum_at inputs 0) _ h2 in
            let (consumed, e4, h4) = >>=-eq-ok (extract_or u _ d) _ h3 in
            let (code, e5, h5) = >>=-eq-ok (expect (storage.get s code_key)) _ h4 in
            let (e6, h6) = ensure-eq-ok (consumed.hash == _) _ _ h5 in
            let (e7, h7) = ensure-eq-ok (length outputs == 1) _ _ h6 in
            let (a, e8, h8) = >>=-eq-ok (datum_at outputs 0) _ h7 in
            let (created, e9, h9) = >>=-eq-ok (extract_or u _ a) _ h8 in
            let (f1, k1) = ensure-eq-ok (created.hash == _) _ _ h9 in
            let result = ok_injective k1 in
            (
              sym (ap (λ r. r.0) result),
              (
                consumed,
                created,
                code,
                is_empty_iff _ e1,
                one-Typed u inputs _ d consumed e2 e3 e4,
                expect-eq-ok _ e5,
                (==_iff _ _).0 e6,
                one-Typed u outputs _ a created e7 e8 e9,
                (==_iff _ _).0 f1,
                sym (ap (λ r. r.1) result),
              ),
            ),
        λ (p, (consumed, created, code, e, i, stored, old, o, new, after)).
            let (d, e1, f1) = of_one-Typed u UpgradeError.badly_typed_input inputs consumed i in
            let (a, e2, f2) = of_one-Typed u UpgradeError.badly_typed_output outputs created o in
            rw (
              e,
              e1,
              f1,
              stored,
              (==_iff consumed.hash _).1 old,
              e2,
              f2,
              (==_iff created.hash _).1 new,
              p,
              after,
            ),
      )

  now_stored :
      (s t : S) (full_wasm : Bytes)
      → t ≡ storage.set s code_key full_wasm
      → storage.get t code_key ≡ some full_wasm
  now_stored s t full_wasm e =
      rw (e, storage.get-set s code_key full_wasm code_key, bytes_eq_self code_key)

  -- After an accepted upgrade its output can be consumed by an upgrade to any code whose only
  -- output refers to that code.
  check_upgrade-next :
      (s t : S) (full_wasm next_wasm : Bytes)
      (inputs evicted peeks outputs next_outputs : List DynamicallyTypedData) (priority : ℕ)
      (next : RuntimeRef)
      → check_upgrade storage blake2_256 codec s
          (record { full_wasm = full_wasm })
          inputs
          evicted
          peeks
          outputs
        ≡ ok (priority, t)
      → Typed (runtime_data codec) next_outputs (next ∷ [])
      → next.hash ≡ blake2_256 next_wasm
      → check_upgrade storage blake2_256 codec t
          (record { full_wasm = next_wasm })
          outputs
          []
          []
          next_outputs
        ≡ ok (0, storage.set t code_key next_wasm)
  check_upgrade-next s t full_wasm next_wasm inputs evicted peeks outputs next_outputs priority next
        h holds e =
      let (p, (consumed, created, code, e0, i, stored, old, o, new, after)) =
        (check_upgrade_iff s t full_wasm inputs evicted peeks outputs priority).0 h in
      (check_upgrade_iff t _ next_wasm outputs [] [] next_outputs 0).1 (
        refl,
        (created, next, full_wasm, refl, o, now_stored s t full_wasm after, new, holds, e, refl),
      )
