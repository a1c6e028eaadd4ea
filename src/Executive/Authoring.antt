-- ===== src/Executive/Authoring.antt =====
-- The extrinsics of a block under construction (tuxedo-core/src/executive.rs): a block author calls
-- `apply_extrinsic` for each of them between `open_block` and `close_block`.
use mathlib.Core.List.{append-nil, append_assoc}
use tuxedo.Base.{
  Bytes, Bool, false, not, ◌&&◌, ◌||◌, List, [], ◌∷◌, ◌++◌, map, none, some, ◌≡◌, ◌≢◌, refl, sym,
  ap, ◌∙◌, arith, length, Outcome, ok, ◌>>=◌, is_empty, ok_injective, >>=-eq-ok, ensure-eq-ok,
  map_err-eq-ok, bytes_eq_self, All,
}
use tuxedo.Codec.{read-encode}
use tuxedo.Types.{Transaction, InvalidTransaction, to_invalid}
use tuxedo.Executive.Runtime.{Runtime, header_key, extrinsic_key, encode_tx, header-ne-extrinsic}
use tuxedo.Executive.Validation.{validate_tuxedo_transaction}
use tuxedo.Executive.Application.{update_storage, apply_tuxedo_transaction}
use tuxedo.Executive.Blocks.{
  stored_extrinsics, note_extrinsic, apply_extrinsic, execute_extrinsic, execute_extrinsics,
}
use tuxedo.Executive.Frame.{
  SameChain, IsLocal, validate_same, update_storage_same, update_storage_frame, other_key,
}
use tuxedo.Executive.Inherents.{IsInherent, IsUser}

module _ {S V R C E : Type 0} (rt : Runtime S V R C E) where
  -- Applies the extrinsics in turn; the first that fails ends it.
  unfoldable pub author : S → List (Transaction V C) → Outcome InvalidTransaction S
  author s [] = ok s
  author s (tx ∷ txs) = (apply_extrinsic rt s tx).0 >>= λ (t : S). author t txs

  -- What the flag of `execute_block` asks of the extrinsics.
  abbrev pub InOrder : Bool → List (Transaction V C) → Type 0
  InOrder finished [] = Unit
  InOrder finished (tx ∷ txs) =
      ((rt.checker.is_inherent tx.checker && finished) ≡ false)
      × InOrder (finished || not (rt.checker.is_inherent tx.checker)) txs

  user-InOrder :
      (finished : Bool) (txs : List (Transaction V C)) → All (IsUser rt) txs → InOrder finished txs
  user-InOrder finished [] h = tt
  user-InOrder finished (tx ∷ txs) h = rw h.0 (refl, user-InOrder _ txs h.1)

  pub opening-InOrder :
      (opening user : List (Transaction V C))
      → All (IsInherent rt) opening
      → All (IsUser rt) user
      → InOrder false (opening ++ user)
  opening-InOrder [] user os us = user-InOrder false user us
  opening-InOrder (tx ∷ txs) user os us = rw os.0 (refl, opening-InOrder txs user os.1 us)

  apply_same :
      IsLocal rt
      → (s t s' : S) (tx : Transaction V C) → SameChain rt s t
      → apply_tuxedo_transaction rt s tx ≡ ok s'
      → (apply_tuxedo_transaction rt t tx ≡ ok (update_storage rt t tx))
        × (s' ≡ update_storage rt s tx)
  unfolding apply_tuxedo_transaction
  apply_same local s t s' tx same h =
      let (v, e1, h1) = >>=-eq-ok (validate_tuxedo_transaction rt s tx) _ h in
      let (e2, h2) = ensure-eq-ok (is_empty v.requires) _ _ h1 in
      (rw (sym (validate_same rt local s t same tx) ∙ e1, e2), cc (h2))

  -- A noted and applied extrinsic applies on a storage that differs in the transient keys.
  apply_extrinsic-inversion :
      (s s' : S) (tx : Transaction V C)
      → (apply_extrinsic rt s tx).0 ≡ ok s'
      → apply_tuxedo_transaction rt (note_extrinsic rt s tx) tx ≡ ok s'
  unfolding apply_extrinsic
  apply_extrinsic-inversion s s' tx h = map_err-eq-ok to_invalid _ h

  note_same :
      (s t : S) (tx : Transaction V C) → SameChain rt s t → SameChain rt (note_extrinsic rt s tx) t
  unfolding note_extrinsic
  note_same s t tx same k n m =
      other_key extrinsic_key k _ _ (rt.storage.get-set s extrinsic_key _ k) (λ e. m (sym e))
      ∙ same k n m

  execute_extrinsic-ok :
      (t : S) (finished : Bool) (tx : Transaction V C) {t' : S}
      → (rt.checker.is_inherent tx.checker && finished) ≡ false
      → apply_tuxedo_transaction rt t tx ≡ ok t'
      → execute_extrinsic rt t finished tx
        ≡ ok (t', finished || not (rt.checker.is_inherent tx.checker))
  unfolding execute_extrinsic
  execute_extrinsic-ok t finished tx order applied = ground arith

  pub author-executes :
      IsLocal rt
      → (s t s' : S) (finished : Bool) (txs : List (Transaction V C)) → SameChain rt s t
      → InOrder finished txs
      → author s txs ≡ ok s'
      → (t' : S) × (execute_extrinsics rt t finished txs ≡ ok t')
        × SameChain rt s' t'
        × (rt.storage.get t' extrinsic_key ≡ rt.storage.get t extrinsic_key)
  unfolding author execute_extrinsics
  author-executes local s t s' finished [] same order h =
      (t, refl, λ k n m. sym (ap (λ x. rt.storage.get x k) (ok_injective h)) ∙ same k n m, refl)
  author-executes local s t s' finished (tx ∷ txs) same order h =
      let (s1, e1, h1) = >>=-eq-ok (apply_extrinsic rt s tx).0 _ h in
      let noted = note_same s t tx same in
      let (applied, moved) =
        apply_same local (note_extrinsic rt s tx) t s1 tx noted
          (apply_extrinsic-inversion s s1 tx e1) in
      let t1 = update_storage rt t tx in
      let next : SameChain rt s1 t1 = λ k n m.
        ap (λ x. rt.storage.get x k) moved
        ∙ update_storage_same rt (note_extrinsic rt s tx) t tx k (noted k n m) in
      let (t', x, same', kept) =
        author-executes local s1 t1 s' (finished || not (rt.checker.is_inherent tx.checker)) txs
          next order.1 h1 in
      (
        t',
        rw (execute_extrinsic-ok t finished tx order.0 applied) x,
        same',
        kept ∙ update_storage_frame rt t tx extrinsic_key (omega arith),
      )

  pub stored_none : (s : S) → rt.storage.get s extrinsic_key ≡ none → stored_extrinsics rt s ≡ []
  unfolding stored_extrinsics
  stored_none s e = rw (e, stored_extrinsics)

  stored_of :
      (s : S) (xs : List Bytes)
      → rt.storage.get s extrinsic_key ≡ some (rt.extrinsics.encode xs)
      → stored_extrinsics rt s ≡ xs
  unfolding stored_extrinsics
  stored_of s xs e = rw (e, stored_extrinsics, read-encode rt.extrinsics xs)

  noted_extrinsics :
      (s : S) (tx : Transaction V C)
      → stored_extrinsics rt (note_extrinsic rt s tx)
        ≡ stored_extrinsics rt s ++ encode_tx rt tx ∷ []
  unfolding note_extrinsic
  noted_extrinsics s tx =
      let xs = stored_extrinsics rt s ++ encode_tx rt tx ∷ [] in
      stored_of (note_extrinsic rt s tx) xs (
        rt.storage.get-set s extrinsic_key (rt.extrinsics.encode xs) extrinsic_key
        ∙ rw (bytes_eq_self extrinsic_key))

  noted_header :
      (s : S) (tx : Transaction V C)
      → rt.storage.get (note_extrinsic rt s tx) header_key ≡ rt.storage.get s header_key
  unfolding note_extrinsic
  noted_header s tx =
      other_key extrinsic_key header_key _ _ (rt.storage.get-set s extrinsic_key _ header_key)
        (λ e. header-ne-extrinsic (sym e))

  pub stored_same :
      (s t : S)
      → rt.storage.get s extrinsic_key ≡ rt.storage.get t extrinsic_key
      → stored_extrinsics rt s ≡ stored_extrinsics rt t
  unfolding stored_extrinsics
  stored_same s t e = ground arith

  applied_storage :
      (s s' : S) (tx : Transaction V C)
      → (apply_extrinsic rt s tx).0 ≡ ok s'
      → (k : Bytes) → length k ≢ 36
      → rt.storage.get s' k ≡ rt.storage.get (note_extrinsic rt s tx) k
  unfolding apply_tuxedo_transaction
  applied_storage s s' tx h k n =
      let (v, e1, h1) =
        >>=-eq-ok (validate_tuxedo_transaction rt (note_extrinsic rt s tx) tx) _
          (apply_extrinsic-inversion s s' tx h) in
      let (e2, h2) = ensure-eq-ok (is_empty v.requires) _ _ h1 in
      ap (λ x. rt.storage.get x k) (sym (ok_injective h2))
      ∙ update_storage_frame rt (note_extrinsic rt s tx) tx k n

  -- The author's list holds the encoded extrinsics in their order, and the header is left alone.
  pub author-notes :
      (s s' : S) (txs : List (Transaction V C))
      → author s txs ≡ ok s'
      → (stored_extrinsics rt s' ≡ stored_extrinsics rt s ++ map (encode_tx rt) txs)
        × (rt.storage.get s' header_key ≡ rt.storage.get s header_key)
  unfolding author
  author-notes s s' [] h =
      let e = sym (ok_injective h) in
      (ap (stored_extrinsics rt) e ∙ sym (append-nil _), ap (λ x. rt.storage.get x header_key) e)
  author-notes s s' (tx ∷ txs) h =
      let (s1, e1, h1) = >>=-eq-ok (apply_extrinsic rt s tx).0 _ h in
      let moved = applied_storage s s1 tx e1 in
      let ih = author-notes s1 s' txs h1 in
      (
        ih.0
            ∙ ap (λ xs. xs ++ map (encode_tx rt) txs)
                (stored_same s1 (note_extrinsic rt s tx) (moved extrinsic_key (omega arith))
                  ∙ noted_extrinsics s tx)
            ∙ append_assoc (stored_extrinsics rt s) (encode_tx rt tx ∷ []) (map (encode_tx rt) txs),
        ih.1 ∙ moved header_key (omega arith) ∙ noted_header s tx,
      )
