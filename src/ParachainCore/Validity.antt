-- ===== src/ParachainCore/Validity.antt =====
-- When a block is valid to the relay chain (tuxedo-parachain-core/src/validate_block.rs).
use tuxedo.Base.{
  ℕ, Bool, true, false, List, [], ◌∷◌, ◌++◌, some, ◌==◌, bytes_eq, bytes_eq_iff, get_elem?, Outcome,
  ok, expect, assert, >>=-eq-ok, expect-eq-ok, expect_ok-eq-ok, assert-eq-ok, ok_injective, All,
  Bool-cases, inl, inr, ◌≡◌, ◌↔◌, refl, sym, ap, ◌∙◌, arith,
}
use tuxedo.Codec.{read}
use tuxedo.DynamicTyping.{extract}
use tuxedo.Types.{Output, Transaction, is_signed}
use tuxedo.Executive.Runtime.{Header, Block}
use tuxedo.Executive.Writes.{execute_block_with_writes}
use tuxedo.ParachainCore.{
  MemoryOptimizedValidationParams, PersistedValidationData, ValidationResult, ParachainRuntime,
  get_relay_parent_number, opening, find_parachain, inherent_data_of, validate_validation_data,
  validate_block,
}

asserted : (t : Bool) → ◌≡◌ {A = Outcome (Unit {0}) (Unit {0})} (assert t) (ok tt) → t ≡ true
asserted true h = refl
asserted false h = cc

module _ {S V R C E P K : Type 0} (rt : ParachainRuntime S V R C E P K) where
  -- An inherent that is not the parachain's.
  abbrev pub OtherInherent : Transaction V C → Type 0
  OtherInherent tx =
      (rt.executive.core.checker.is_inherent tx.checker ≡ true)
      × (rt.is_parachain tx.checker ≡ false)

  -- The parachain inherent is the first one of its kind, and only inherents come before it.
  abbrev pub FirstParachain : List (Transaction V C) → Transaction V C → Type 0
  FirstParachain txs tx =
      (before after : List (Transaction V C)) × (txs ≡ before ++ tx ∷ after)
      × All OtherInherent before
      × (rt.executive.core.checker.is_inherent tx.checker ≡ true)
      × (rt.is_parachain tx.checker ≡ true)

  opening-inherent :
      (e : Transaction V C) (es : List (Transaction V C))
      → rt.executive.core.checker.is_inherent e.checker ≡ true
      → opening rt (e ∷ es) ≡ e ∷ opening rt es
  unfolding opening is_signed
  opening-inherent e es h = rw h refl

  opening-other :
      (e : Transaction V C) (es : List (Transaction V C))
      → rt.executive.core.checker.is_inherent e.checker ≡ false
      → opening rt (e ∷ es) ≡ []
  unfolding opening is_signed
  opening-other e es h = rw h refl

  opening-empty : opening rt [] ≡ []
  unfolding opening
  opening-empty = refl

  find_first :
      (es : List (Transaction V C)) (tx : Transaction V C)
      → find_parachain rt (opening rt es) ≡ some tx
      → FirstParachain es tx
  unfolding find_parachain
  find_first [] tx h = cc (rw opening-empty at h)
  find_first (e ∷ es) tx h = elim (Bool-cases (rt.executive.core.checker.is_inherent e.checker)) [
    | inl opens ↦
        let h1 = rw (opening-inherent e es opens) at h in
        elim (Bool-cases (rt.is_parachain e.checker)) [
          | inl here ↦
              let same : e ≡ tx = cc (rw here at h1) in
              (
                [],
                es,
                ap (λ x. x ∷ es) same,
                tt,
                ap (λ x. rt.executive.core.checker.is_inherent x.checker) (sym same) ∙ opens,
                ap (λ x. rt.is_parachain x.checker) (sym same) ∙ here,
              )
          | inr on ↦
              let (before, after, split, others, i, p) = find_first es tx (rw on at h1) in
              (e ∷ before, after, ap (◌∷◌ e) split, ((opens, on), others), i, p)
        ]
    | inr closes ↦ cc (rw (opening-other e es closes) at h)
  ]

  first_found :
      (before after : List (Transaction V C)) (tx : Transaction V C)
      → All OtherInherent before
      → rt.executive.core.checker.is_inherent tx.checker ≡ true
      → rt.is_parachain tx.checker ≡ true
      → find_parachain rt (opening rt (before ++ tx ∷ after)) ≡ some tx
  unfolding find_parachain
  first_found [] after tx others i p = rw (opening-inherent tx after i, p) refl
  first_found (e ∷ before) after tx ((opens, on), others) i p =
      rw (opening-inherent e (before ++ tx ∷ after) opens, on)
        (first_found before after tx others i p)

  -- The inherent data that a block carries.
  abbrev pub Carries : Block V C → P → Type 0
  Carries block info =
      (tx : Transaction V C) × (output : Output V) × FirstParachain block.extrinsics tx
      × (get_elem? tx.outputs 0 ≡ some output)
      × (extract rt.info_data output.payload ≡ ok info)

  pub inherent_data_of_iff :
      (block : Block V C) (info : P) → (inherent_data_of rt block ≡ ok info) ↔ Carries block info
  unfolding inherent_data_of
  inherent_data_of_iff block info = (
    λ h.
        let (tx, e, h1) =
          >>=-eq-ok (expect (find_parachain rt (opening rt block.extrinsics))) _ h in
        let (output, f, h2) = >>=-eq-ok (expect (get_elem? tx.outputs 0)) _ h1 in
        (
          tx,
          output,
          find_first block.extrinsics tx (expect-eq-ok _ e),
          expect-eq-ok _ f,
          expect_ok-eq-ok (extract rt.info_data output.payload) h2,
        ),
    λ (tx, output, (before, after, split, others, i, p), e, f).
        let found : find_parachain rt (opening rt block.extrinsics) ≡ some tx =
          ap (λ x. find_parachain rt (opening rt x)) split
          ∙ first_found before after tx others i p in
        rw (found, e, f) refl,
  )

  -- The data of the relay chain that a block claims are those that the relay chain gives.
  abbrev pub SameData : PersistedValidationData → MemoryOptimizedValidationParams → Type 0
  SameData data' params =
      (data'.parent_head ≡ params.parent_head)
      × (data'.relay_parent_number ≡ params.relay_parent_number)
      × (data'.relay_parent_storage_root ≡ params.relay_parent_storage_root)

  validate_validation_data_iff :
      (data' : PersistedValidationData) (params : MemoryOptimizedValidationParams)
      → (validate_validation_data rt data' params.relay_parent_number
            params.relay_parent_storage_root params.parent_head
          ≡ ok tt)
        ↔ SameData data' params
  unfolding validate_validation_data
  validate_validation_data_iff data' params = (
    λ h.
        let (e, h1) = assert-eq-ok (bytes_eq params.parent_head data'.parent_head) _ h in
        let (f, h2) = assert-eq-ok (params.relay_parent_number == data'.relay_parent_number) _ h1 in
        let g = asserted (params.relay_parent_storage_root == data'.relay_parent_storage_root) h2 in
        (sym ((bytes_eq_iff _ _).0 e), ground arith, ground arith),
    λ (e, f, g).
        let x : bytes_eq params.parent_head data'.parent_head ≡ true =
          (bytes_eq_iff _ _).1 (sym e) in
        let y : (params.relay_parent_number == data'.relay_parent_number) ≡ true = ground arith in
        let z : (params.relay_parent_storage_root == data'.relay_parent_storage_root) ≡ true =
          ground arith in
        rw (x, y, z) refl,
  )

  -- What the relay chain asks of a block, its storage proof and the block's outcome.
  pub record IsValid (params : MemoryOptimizedValidationParams) (result : ValidationResult)
      : Type 0 where
    pub block : Block V C
    pub proof : K
    pub parent : Header
    pub info : P
    pub before : S
    pub after : S
    pub number : ℕ
    pub block_read : read rt.blocks params.block_data ≡ some (block, proof)
    pub parent_read : read rt.executive.core.headers params.parent_head ≡ some parent
    pub follows : block.header.parent_hash ≡ rt.header_hash parent
    pub carried : Carries block info
    pub same_data : SameData (rt.validation_data info) params
    pub proved : rt.to_memory_db proof parent.state_root ≡ some before
    pub executed : execute_block_with_writes rt.executive before block ≡ ok after
    pub stored : get_relay_parent_number rt.executive.core.storage rt.numbers after ≡ ok number
    pub reported : result ≡ record {
      head_data = rt.executive.core.headers.encode block.header;
      hrmp_watermark = number;
    }

  -- The validation of a parachain block returns a result exactly if the block data and the parent's
  -- header decode, the block is the header's child, the first inherent of the parachain kind (with
  -- only inherents before it) has as its first output information that agrees with the parameters,
  -- the proof proves the parent's state root, the executive executes the block on the proof's
  -- storage and leaves a relay parent number, and the result is the block's encoded header with
  -- that number; no inherent check is among the conditions.
  pub validate_block_iff :
      (params : MemoryOptimizedValidationParams) (result : ValidationResult)
      → (validate_block rt params ≡ ok result) ↔ IsValid params result
  unfolding validate_block
  validate_block_iff params result = (
    λ h.
        let ((block, proof), e1, h1) = >>=-eq-ok (expect (read rt.blocks params.block_data)) _ h in
        let (parent, e2, h2) =
          >>=-eq-ok (expect (read rt.executive.core.headers params.parent_head)) _ h1 in
        let (e3, h3) = assert-eq-ok (rt.header_hash parent == block.header.parent_hash) _ h2 in
        let (info, e4, h4) = >>=-eq-ok (inherent_data_of rt block) _ h3 in
        let (u, e5, h5) =
          >>=-eq-ok
            (validate_validation_data rt (rt.validation_data info) params.relay_parent_number
              params.relay_parent_storage_root params.parent_head)
            _ h4 in
        let (s, e6, h6) = >>=-eq-ok (expect (rt.to_memory_db proof parent.state_root)) _ h5 in
        let (t, e7, h7) = >>=-eq-ok (execute_block_with_writes rt.executive s block) _ h6 in
        let (n, e8, h8) =
          >>=-eq-ok (get_relay_parent_number rt.executive.core.storage rt.numbers t) _ h7 in
        record {
          block = block;
          proof = proof;
          parent = parent;
          info = info;
          before = s;
          after = t;
          number = n;
          block_read = expect-eq-ok _ e1;
          parent_read = expect-eq-ok _ e2;
          follows = ground arith;
          carried = (inherent_data_of_iff block info).0 e4;
          same_data = (validate_validation_data_iff (rt.validation_data info) params).0 e5;
          proved = expect-eq-ok _ e6;
          executed = e7;
          stored = e8;
          reported = sym (ok_injective h8);
        },
    λ v.
        let e3 : (rt.header_hash v.parent == v.block.header.parent_hash) ≡ true =
          ground (arith, v.follows) in
        let e4 = (inherent_data_of_iff v.block v.info).1 v.carried in
        let e5 = (validate_validation_data_iff (rt.validation_data v.info) params).1 v.same_data in
        rw (v.block_read, v.parent_read, e3, e4, e5, v.proved, v.executed, v.stored)
          (ap ok (sym v.reported)),
  )
