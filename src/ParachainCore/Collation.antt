-- ===== src/ParachainCore/Collation.antt =====
-- What the collator reports of a block, and what the relay chain's validation reports
-- (tuxedo-parachain-core/src/collation_api.rs and validate_block.rs).
use tuxedo.Base.{
  ℕ, Bytes, bytes_eq_self, ok, ok_injective, some, some_injective, ◌≡◌, refl, sym, ap, ap₂, ◌∙◌,
  Bool, true, false, none, subst, ◌≢◌, bytes_eq, ne_of_bytes_eq, List, [], ◌∷◌, ◌++◌, Outcome,
  get_elem?, All, >>=-eq-ok, assert-eq-ok, arith,
}
use tuxedo.Codec.{read, read-encode}
use tuxedo.Executive.Runtime.{Block, header_key}
use tuxedo.Executive.Validation.{payloads}
use tuxedo.Executive.Application.{update_storage}
use tuxedo.Executive.Frame.{other_key, update_storage_frame}
use tuxedo.Executive.Writes.{
  writes_of, apply_with_writes, apply_with_writes-inversion, execute_extrinsic_with_writes,
  execute_extrinsic_with_writes-inversion, execute_extrinsics_with_writes,
  execute_block_with_writes,
}
use tuxedo.DynamicTyping.{DynamicallyTypedData, extract}
use tuxedo.Types.{Output, Transaction}
use tuxedo.ParachainCore.{
  MemoryOptimizedValidationParams, ValidationResult, ParachainRuntime, relay_parent_number_key,
  get_relay_parent_number, set_relay_parent_number, collect_collation_info, validate_block,
}
use tuxedo.ParachainCore.Validity.{Carries, validate_block_iff}

header-ne-relay_parent_number : header_key ≢ relay_parent_number_key
unfolding bytes_eq
header-ne-relay_parent_number = ne_of_bytes_eq header_key relay_parent_number_key refl

first_payload :
    {V : Type 0} (os : List (Output V)) (o : Output V)
    → get_elem? os 0 ≡ some o
    → (rest : List DynamicallyTypedData) × (payloads os ≡ o.payload ∷ rest)
unfolding payloads
first_payload [] o h = cc
first_payload (x ∷ os) o h =
    (payloads os, ap (λ (y : Output _). y.payload ∷ payloads os) (some_injective h))

module _ {S V R C E P K : Type 0} (rt : ParachainRuntime S V R C E P K) where
  get-set :
      (s : S) (n : ℕ)
      → get_relay_parent_number rt.executive.core.storage rt.numbers
          (set_relay_parent_number rt.executive.core.storage rt.numbers s n)
        ≡ ok n
  unfolding get_relay_parent_number set_relay_parent_number
  get-set s n =
      rw
        (
          rt.executive.core.storage.get-set s relay_parent_number_key (rt.numbers.encode n)
              relay_parent_number_key,
          bytes_eq_self relay_parent_number_key,
          read-encode rt.numbers n,
        )
        refl

  -- What the checker writes: the parachain piece writes the relay parent's number of the information
  -- in the first output, the other pieces leave that number alone.
  pub record WritesInfo : Type 0 where
    pub info_written :
        (s : S) (c : C) (inputs evicted peeks rest : List DynamicallyTypedData)
        (d : DynamicallyTypedData) (info : P) (priority : ℕ)
        → rt.is_parachain c ≡ true
        → rt.executive.core.checker.check s c inputs evicted peeks (d ∷ rest) ≡ ok priority
        → extract rt.info_data d ≡ ok info
        → rt.executive.check_writes s c inputs evicted peeks (d ∷ rest)
          ≡ set_relay_parent_number rt.executive.core.storage rt.numbers s
              (rt.validation_data info).relay_parent_number
    pub others_leave :
        (s : S) (c : C) (inputs evicted peeks outputs : List DynamicallyTypedData)
        → rt.is_parachain c ≡ false
        → rt.executive.core.storage.get
            (rt.executive.check_writes s c inputs evicted peeks outputs)
            relay_parent_number_key
          ≡ rt.executive.core.storage.get s relay_parent_number_key

  abbrev number_in : S → Outcome (Unit {0}) ℕ
  number_in = get_relay_parent_number rt.executive.core.storage rt.numbers

  number_same :
      (s t : S)
      → rt.executive.core.storage.get s relay_parent_number_key
        ≡ rt.executive.core.storage.get t relay_parent_number_key
      → number_in s ≡ number_in t
  unfolding get_relay_parent_number
  number_same s t e = rw (e, get_relay_parent_number)

  number_updated :
      (s : S) (tx : Transaction V C)
      → number_in (update_storage rt.executive.core s tx) ≡ number_in s
  number_updated s tx =
      number_same _ _
        (update_storage_frame rt.executive.core s tx relay_parent_number_key (omega arith))

  abbrev pub Other : Transaction V C → Type 0
  Other tx = rt.is_parachain tx.checker ≡ false

  Other-applied :
      (s t : S) (tx : Transaction V C)
      → WritesInfo
      → Other tx
      → apply_with_writes rt.executive s tx ≡ ok t
      → number_in t ≡ number_in s
  Other-applied s t tx w other h =
      let (x, e) = apply_with_writes-inversion rt.executive s t tx h in
      ap number_in e
      ∙ number_updated (writes_of rt.executive s tx) tx
      ∙ number_same _ _ (w.others_leave s tx.checker _ _ _ _ other)

  parachain_applied :
      (s t : S) (tx : Transaction V C) (output : Output V) (info : P)
      → WritesInfo
      → rt.is_parachain tx.checker ≡ true
      → get_elem? tx.outputs 0 ≡ some output
      → extract rt.info_data output.payload ≡ ok info
      → apply_with_writes rt.executive s tx ≡ ok t
      → number_in t ≡ ok (rt.validation_data info).relay_parent_number
  parachain_applied s t tx output info w here first carried h =
      let (x, e) = apply_with_writes-inversion rt.executive s t tx h in
      let (priority, accepted) = x.constraints in
      let (rest, split) = first_payload tx.outputs output first in
      let written : writes_of rt.executive s tx
          ≡ set_relay_parent_number rt.executive.core.storage rt.numbers s
              (rt.validation_data info).relay_parent_number =
        ap (rt.executive.check_writes s tx.checker _ _ _) split
        ∙ w.info_written s tx.checker _ _ _ rest output.payload info priority here
            (rw split at accepted) carried in
      ap number_in e
      ∙ number_updated (writes_of rt.executive s tx) tx
      ∙ ap number_in written
      ∙ get-set s (rt.validation_data info).relay_parent_number

  others_executed :
      (s t : S) (finished : Bool) (txs : List (Transaction V C))
      → WritesInfo
      → All Other txs
      → execute_extrinsics_with_writes rt.executive s finished txs ≡ ok t
      → number_in t ≡ number_in s
  unfolding execute_extrinsics_with_writes
  others_executed s t finished [] w others h = ap number_in (sym (ok_injective h))
  others_executed s t finished (tx ∷ txs) w (other, others) h =
      let (r, e, h1) = >>=-eq-ok (execute_extrinsic_with_writes rt.executive s finished tx) _ h in
      others_executed r.0 t r.1 txs w others h1
      ∙ Other-applied s r.0 tx w other
          (execute_extrinsic_with_writes-inversion rt.executive s finished tx r e)

  executed_number :
      (s t : S) (finished : Bool) (before after : List (Transaction V C)) (tx : Transaction V C)
      (output : Output V) (info : P)
      → WritesInfo
      → rt.is_parachain tx.checker ≡ true
      → get_elem? tx.outputs 0 ≡ some output
      → extract rt.info_data output.payload ≡ ok info
      → All Other after
      → execute_extrinsics_with_writes rt.executive s finished (before ++ tx ∷ after) ≡ ok t
      → number_in t ≡ ok (rt.validation_data info).relay_parent_number
  unfolding execute_extrinsics_with_writes
  executed_number s t finished [] after tx output info w here first carried others h =
      let (r, e, h1) = >>=-eq-ok (execute_extrinsic_with_writes rt.executive s finished tx) _ h in
      others_executed r.0 t r.1 after w others h1
      ∙ parachain_applied s r.0 tx output info w here first carried
          (execute_extrinsic_with_writes-inversion rt.executive s finished tx r e)
  executed_number s t finished (b ∷ before) after tx output info w here first carried others h =
      let (r, e, h1) = >>=-eq-ok (execute_extrinsic_with_writes rt.executive s finished b) _ h in
      executed_number r.0 t r.1 before after tx output info w here first carried others h1

  -- No transaction of the parachain kind comes after another one.
  abbrev pub AtMostOne : Block V C → Type 0
  AtMostOne block =
      (before after : List (Transaction V C)) (tx : Transaction V C)
      → block.extrinsics ≡ before ++ tx ∷ after
      → rt.is_parachain tx.checker ≡ true
      → All Other after

  -- A block that executes leaves the relay parent's number of the information it carries.
  number_after :
      (s t : S) (block : Block V C) (info : P)
      → WritesInfo
      → AtMostOne block
      → execute_block_with_writes rt.executive s block ≡ ok t
      → Carries rt block info
      → number_in t ≡ ok (rt.validation_data info).relay_parent_number
  unfolding execute_block_with_writes
  number_after s t block info w once h
        (tx, output, (before, after, split, others, inherent, here), first, carried) =
      let (u, e, h1) =
        >>=-eq-ok (execute_extrinsics_with_writes rt.executive _ false block.extrinsics) _ h in
      let (e2, h2) = assert-eq-ok _ _ h1 in
      let (e3, h3) = assert-eq-ok _ _ h2 in
      let executed =
        executed_number _ u false before after tx output info w here first carried
          (once before after tx split here) (rw split at e) in
      ap number_in (sym (ok_injective h3))
      ∙ number_same (rt.executive.core.storage.clear u header_key) u (
          other_key header_key relay_parent_number_key none _
            (rt.executive.core.storage.get-clear u header_key relay_parent_number_key)
            header-ne-relay_parent_number)
      ∙ executed

  -- Where the parachain piece's checker writes the relay parent number of the information it
  -- accepts, the other pieces leave that number alone, and a block has at most one transaction of
  -- the parachain kind, the validated block's watermark is the number that the relay chain gave,
  -- and a collator that executed the block on its full storage reports the same head data and
  -- watermark.
  pub validate_block-collation :
      (params : MemoryOptimizedValidationParams) (result : ValidationResult) (block : Block V C)
      (proof : K) (full s : S)
      → WritesInfo
      → AtMostOne block
      → read rt.blocks params.block_data ≡ some (block, proof)
      → validate_block rt params ≡ ok result
      → execute_block_with_writes rt.executive full block ≡ ok s
      → (result.hrmp_watermark ≡ params.relay_parent_number)
        × (collect_collation_info rt s block.header
            ≡ ok (record { head_data = result.head_data; hrmp_watermark = result.hrmp_watermark }))
  unfolding collect_collation_info
  validate_block-collation params result block proof full s w once sent valid ran =
      let v = (validate_block_iff rt params result).0 valid in
      let same : v.block ≡ block =
        ap (λ (p : Block V C × K). p.0) (some_injective (sym v.block_read ∙ sent)) in
      let carried : Carries rt block v.info = subst (λ b. Carries rt b v.info) same v.carried in
      let ran' : execute_block_with_writes rt.executive v.before block ≡ ok v.after =
        ap (execute_block_with_writes rt.executive v.before) (sym same) ∙ v.executed in
      let here = number_after full s block v.info w once ran carried in
      let there = number_after v.before v.after block v.info w once ran' carried in
      let number : v.number ≡ (rt.validation_data v.info).relay_parent_number =
        ok_injective (sym v.stored ∙ there) in
      let watermark : result.hrmp_watermark ≡ v.number =
        ap (λ (x : ValidationResult). x.hrmp_watermark) v.reported in
      let head : result.head_data ≡ rt.executive.core.headers.encode block.header =
        ap (λ (x : ValidationResult). x.head_data) v.reported
        ∙ ap (λ (b : Block V C). rt.executive.core.headers.encode b.header) same in
      (
        watermark ∙ number ∙ v.same_data.1,
        rw here (
            ap₂ (λ (h : Bytes) (n : ℕ). ok (record { head_data = h; hrmp_watermark = n }))
              (sym head) (sym (watermark ∙ number))),
      )
