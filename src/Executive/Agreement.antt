-- ===== src/Executive/Agreement.antt =====
-- Authoring and import agree (tuxedo-core/src/executive.rs): what `open_block`, `apply_extrinsic`
-- and `close_block` make, `execute_block` accepts, with the same storage as its result.
use tuxedo.Base.{
  some_injective, Bytes, false, List, ◌++◌, map, none, some, ◌≡◌, sym, ap, ap₂, ◌∙◌, arith, ok,
  expect, >>=-eq-ok, expect-eq-ok, ok_injective, bytes_eq, bytes_eq_self, ne_of_bytes_eq,
  eq_of_bytes_eq, Bool-cases, inl, inr, subst, ==_iff,
}
use tuxedo.Codec.{read, read-encode}
use tuxedo.Types.{Transaction}
use tuxedo.Executive.Runtime.{
  Runtime, Header, Block, header_key, height_key, extrinsic_key, encode_tx, height-ne-header,
  height-ne-extrinsic, header-ne-extrinsic,
}
use tuxedo.Executive.Blocks.{
  open_block, stored_extrinsics, close_block, execute_extrinsics, execute_block,
}
use tuxedo.Executive.Frame.{SameChain, IsLocal, other_key}
use tuxedo.Executive.Inherents.{InherentsFirst}
use tuxedo.Executive.Authoring.{
  author, author-executes, author-notes, opening-InOrder, stored_same, stored_none, InOrder,
}

module _ {S V R C E : Type 0} (rt : Runtime S V R C E) where
  get_cleared : (s : S) (k : Bytes) → rt.storage.get (rt.storage.clear s k) k ≡ none
  get_cleared s k = rt.storage.get-clear s k k ∙ rw (bytes_eq_self k)

  -- Two headers of one number open the block alike, but for the header itself.
  open_block_same :
      (s : S) (h h' : Header)
      → h.number ≡ h'.number
      → SameChain rt (open_block rt s h) (open_block rt s h')
  unfolding open_block
  open_block_same s h h' e k n m =
      let s1 = rt.storage.set s header_key (rt.headers.encode h) in
      let s2 = rt.storage.set s header_key (rt.headers.encode h') in
      ground (
        arith,
        rt.storage.get-set s1 height_key (rt.block_numbers.encode h.number) k,
        rt.storage.get-set s2 height_key (rt.block_numbers.encode h'.number) k,
        other_key header_key k _ _ (rt.storage.get-set s header_key (rt.headers.encode h) k)
            (λ q. n (sym q)),
        other_key header_key k _ _ (rt.storage.get-set s header_key (rt.headers.encode h') k)
            (λ q. n (sym q)),
        ap rt.block_numbers.encode e,
      )

  open_block-header :
      (s : S) (h : Header)
      → rt.storage.get (open_block rt s h) header_key ≡ some (rt.headers.encode h)
  unfolding open_block
  open_block-header s h =
      other_key height_key header_key _ _ (rt.storage.get-set _ height_key _ header_key)
        height-ne-header
      ∙ rt.storage.get-set s header_key (rt.headers.encode h) header_key
      ∙ rw (bytes_eq_self header_key)

  open_block-extrinsics :
      (s : S) (h : Header)
      → rt.storage.get (open_block rt s h) extrinsic_key ≡ rt.storage.get s extrinsic_key
  unfolding open_block
  open_block-extrinsics s h =
      other_key height_key extrinsic_key _ _ (rt.storage.get-set _ height_key _ extrinsic_key)
        height-ne-extrinsic
      ∙ other_key header_key extrinsic_key _ _ (rt.storage.get-set s header_key _ extrinsic_key)
          header-ne-extrinsic

  -- The header that `close_block` seals, and the storage that it leaves.
  close_block-inversion :
      (s s' : S) (header sealed : Header)
      → rt.storage.get s header_key ≡ some (rt.headers.encode header)
      → close_block rt s ≡ ok (sealed, s')
      → (s' ≡ rt.storage.clear (rt.storage.clear s header_key) extrinsic_key)
        × (sealed ≡ record header {
          extrinsics_root = rt.ordered_trie_root (stored_extrinsics rt s);
          state_root = rt.storage.root s';
        })
  unfolding close_block
  close_block-inversion s s' header sealed stored h =
      let (d, e1, h1) = >>=-eq-ok (expect (rt.storage.get s header_key)) _ h in
      let (found, e2, h2) = >>=-eq-ok (expect (read rt.headers d)) _ h1 in
      let there : d ≡ rt.headers.encode header =
        some_injective (sym (expect-eq-ok {E = Unit {0}} _ e1) ∙ stored) in
      let same : found ≡ header = some_injective (
        sym (expect-eq-ok {E = Unit {0}} _ e2)
        ∙ ap (read rt.headers) there
        ∙ read-encode rt.headers header) in
      let pair = ok_injective h2 in
      let moved = sym (ap (λ (p : Header × S). p.1) pair) in
      let kept = stored_same rt (rt.storage.clear s header_key) s (
        other_key header_key extrinsic_key none _ (rt.storage.get-clear s header_key extrinsic_key)
          header-ne-extrinsic) in
      (
        moved,
        sym (ap (λ (p : Header × S). p.0) pair)
            ∙ ap₂
                (λ (x : Header) (y : List Bytes). record x {
                  extrinsics_root = rt.ordered_trie_root y;
                  state_root =
                      rt.storage.root
                        (rt.storage.clear (rt.storage.clear s header_key) extrinsic_key);
                })
                same kept
            ∙ ap
                (λ (x : S). record header {
                  extrinsics_root = rt.ordered_trie_root (stored_extrinsics rt s);
                  state_root = rt.storage.root x;
                })
                (sym moved),
      )

  -- The storages of the author and of the importer, once the transient keys are cleared.
  sealed_same :
      (s t : S)
      → SameChain rt s t
      → rt.storage.get t extrinsic_key ≡ none
      → (k : Bytes)
      → rt.storage.get (rt.storage.clear t header_key) k
        ≡ rt.storage.get (rt.storage.clear (rt.storage.clear s header_key) extrinsic_key) k
  sealed_same s t same clean k =
      let cleared = rt.storage.clear s header_key in
      let a = rt.storage.get-clear t header_key k in
      let b = rt.storage.get-clear s header_key k in
      let c = rt.storage.get-clear cleared extrinsic_key k in
      elim (Bool-cases (bytes_eq header_key k)) [
        | inl e ↦ ground (arith, a, b, c)
        | inr n ↦ elim (Bool-cases (bytes_eq extrinsic_key k)) [
          | inl e ↦
              let gone = ap (rt.storage.get t) (sym (eq_of_bytes_eq extrinsic_key k e)) ∙ clean in
              ground (arith, a, c, gone)
          | inr m ↦
              let kept =
                same k (λ q. ne_of_bytes_eq header_key k n (sym q))
                  (λ q. ne_of_bytes_eq extrinsic_key k m (sym q)) in
              ground (arith, a, b, c, kept)
        ]
      ]

  execute_block-ok :
      (s t : S) (block : Block V C)
      → execute_extrinsics rt (open_block rt s block.header) false block.extrinsics ≡ ok t
      → block.header.state_root ≡ rt.storage.root (rt.storage.clear t header_key)
      → block.header.extrinsics_root ≡ rt.ordered_trie_root (map (encode_tx rt) block.extrinsics)
      → execute_block rt s block ≡ ok (rt.storage.clear t header_key)
  unfolding execute_block
  execute_block-ok s t block e state extrinsics =
      rw (e, (==_iff _ _).1 state, (==_iff _ _).1 extrinsics)

  -- A block that an author opened, filled with applied extrinsics (inherents first) and closed is
  -- executed by an importer from the same storage, whose storage then holds the same under every
  -- key; the constraint checker is assumed not to look at the transient keys, and no extrinsics to
  -- be noted at the start.
  pub execute_block-authored :
      (s s1 s2 : S) (header sealed : Header) (txs : List (Transaction V C))
      → IsLocal rt
      → InherentsFirst rt txs
      → rt.storage.get s extrinsic_key ≡ none
      → author rt (open_block rt s header) txs ≡ ok s1
      → close_block rt s1 ≡ ok (sealed, s2)
      → (t : S) × (execute_block rt s (record { header = sealed; extrinsics = txs }) ≡ ok t)
        × ((k : Bytes) → rt.storage.get t k ≡ rt.storage.get s2 k)
  execute_block-authored s s1 s2 header sealed txs local order clean built closed =
      let s0 = open_block rt s header in
      let (notes, kept_header) = author-notes rt s0 s1 txs built in
      let (moved, seal) =
        close_block-inversion s1 s2 header sealed (kept_header ∙ open_block-header s header)
          closed in
      let (opening, user, split, os, us) = order in
      let (t, run, same, kept) =
        author-executes rt local s0 (open_block rt s sealed) s1 false txs
          (open_block_same s header sealed (sym (ap (λ h. h.number) seal)))
          (subst (InOrder rt false) (sym split) (opening-InOrder rt opening user os us)) built in
      let contents = sealed_same s1 t same (kept ∙ open_block-extrinsics s sealed ∙ clean) in
      let agreed : (k : Bytes)
          → rt.storage.get (rt.storage.clear t header_key) k ≡ rt.storage.get s2 k =
        λ k. contents k ∙ ap (λ x. rt.storage.get x k) (sym moved) in
      let listed =
        notes
        ∙ ap (λ xs. xs ++ map (encode_tx rt) txs)
            (stored_none rt s0 (open_block-extrinsics s header ∙ clean)) in
      (
        rt.storage.clear t header_key,
        execute_block-ok s t (record { header = sealed; extrinsics = txs }) run
            (ap (λ h. h.state_root) seal ∙ sym (rt.storage.root_ext _ s2 agreed))
            (ap (λ h. h.extrinsics_root) seal ∙ ap rt.ordered_trie_root listed),
        agreed,
      )
