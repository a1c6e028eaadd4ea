-- ===== src/ParachainCore/HostFunctions.antt =====
-- The storage reads that `validate_block` puts in the place of the host's
-- (tuxedo-parachain-core/src/validate_block.rs); the other replacements pass their arguments on.
-- A slice out of its bounds panics, and so does a copy between slices of different lengths.
use tuxedo.Base.{
  ℕ, zero, suc, ◌+◌, ◌-◌, ◌%◌, ◌^◌, ◌≤◌, ◌<◌, ◌==◌, min, Bytes, [], ◌∷◌, ◌++◌, Option, none, some,
  ltb, ◌&&◌, Bool-cases, inl, inr, if◌then◌else◌, get_elem?, length, ◌≡◌, refl, sym, ap, ◌∙◌, arith,
  length-append, Outcome, ok, panic, ◌>>=◌, ==_iff, true,
}

-- `&value[n..]`
unfoldable pub slice_from : Bytes → ℕ → Outcome (Unit {0}) Bytes
slice_from bs zero = ok bs
slice_from [] (suc n) = panic
slice_from (b ∷ bs) (suc n) = slice_from bs n

-- `&value[..n]`
unfoldable pub slice_to : Bytes → ℕ → Outcome (Unit {0}) Bytes
slice_to bs zero = ok []
slice_to [] (suc n) = panic
slice_to (b ∷ bs) (suc n) = do front ← slice_to bs n; ok (b ∷ front)

-- `target.copy_from_slice(source)`, with the target that it leaves.
unfoldable pub copy_from_slice : Bytes → Bytes → Outcome (Unit {0}) Bytes
copy_from_slice target source = if length target == length source then ok source else panic

-- `out[..written].copy_from_slice(&data[..written])`, with the buffer that it leaves.
unfoldable pub copy_into : Bytes → Bytes → ℕ → Outcome (Unit {0}) Bytes
copy_into out data' written = do
  target ← slice_to out written
  source ← slice_to data' written
  copied ← copy_from_slice target source
  untouched ← slice_from out written
  ok (copied ++ untouched)

-- `host_storage_read` and `host_default_child_storage_read`, at the stored value: the value's
-- length as a `u32`, and the buffer.
unfoldable pub host_read : Option Bytes → Bytes → ℕ → Outcome (Unit {0}) (Option ℕ × Bytes)
host_read none value_out value_offset = ok (none, value_out)
host_read (some value) value_out value_offset = do
  data' ← slice_from value (min value_offset (length value))
  let written = min (length data') (length value_out)
  filled ← copy_into value_out data' written
  ok (some (length value % 2 ^ 32), filled)

-- A slice inside of its bounds, which starts at an offset and has a length.
record Slice (bs : Bytes) (start size : ℕ) (o : Outcome (Unit {0}) Bytes) : Type 0 where
  pub part : Bytes
  pub taken : o ≡ ok part
  pub sized : length part ≡ size
  pub at : (i : ℕ) → i < size → get_elem? part i ≡ get_elem? bs (start + i)

slice_from-Slice :
    (bs : Bytes) (n size : ℕ) → n + size ≡ length bs → Slice bs n size (slice_from bs n)
unfolding slice_from
slice_from-Slice bs zero size h = record {
  part = bs;
  taken = refl;
  sized = omega (arith, h);
  at = λ i lt. ap (get_elem? bs) (omega arith);
}
slice_from-Slice [] (suc n) size h = absurd (omega (arith, h))
slice_from-Slice (b ∷ bs) (suc n) size h =
    let s = slice_from-Slice bs n size (omega (arith, h)) in
    record {
      part = s.part;
      taken = s.taken;
      sized = s.sized;
      at = λ i lt.
          s.at i lt ∙ ap (get_elem? (b ∷ bs)) (let e : suc (n + i) ≡ suc n + i = omega arith in e);
    }

first :
    (b : ℕ) (bs : Bytes) (n : ℕ) (front : Bytes)
    → ((i : ℕ) → i < n → get_elem? front i ≡ get_elem? bs i)
    → (i : ℕ) → i < suc n
    → get_elem? (b ∷ front) i ≡ get_elem? (b ∷ bs) i
first b bs n front h zero lt = refl
first b bs n front h (suc i) lt = h i (omega arith)

slice_to-Slice : (bs : Bytes) (n : ℕ) → n ≤ length bs → Slice bs 0 n (slice_to bs n)
unfolding slice_to
slice_to-Slice bs zero h = record {
  part = [];
  taken = refl;
  sized = refl;
  at = λ i lt. absurd (omega arith);
}
slice_to-Slice [] (suc n) h = absurd (omega arith)
slice_to-Slice (b ∷ bs) (suc n) h =
    let s = slice_to-Slice bs n (omega arith) in
    let step =
      λ (i : ℕ) (lt : i < n). let e : 0 + i ≡ i = omega arith in s.at i lt ∙ ap (get_elem? bs) e in
    record {
      part = b ∷ s.part;
      taken = rw s.taken refl;
      sized = ap suc s.sized;
      at = λ i lt. first b bs n s.part step i lt ∙ ap (get_elem? (b ∷ bs)) (omega arith);
    }

before : (a b : Bytes) (i : ℕ) → i < length a → get_elem? (a ++ b) i ≡ get_elem? a i
before [] b i h = absurd (omega arith)
before (x ∷ a) b zero h = refl
before (x ∷ a) b (suc i) h = before a b i (omega arith)

after : (a b : Bytes) (i : ℕ) → length a ≤ i → get_elem? (a ++ b) i ≡ get_elem? b (i - length a)
after [] b i h = ap (get_elem? b) (omega arith)
after (x ∷ a) b zero h = absurd (omega arith)
after (x ∷ a) b (suc i) h = after a b i (omega arith) ∙ ap (get_elem? b) (omega arith)

past_end : (bs : Bytes) (i : ℕ) → length bs ≤ i → get_elem? bs i ≡ none
past_end [] i h = refl
past_end (b ∷ bs) zero h = absurd (omega arith)
past_end (b ∷ bs) (suc i) h = past_end bs i (omega arith)

copy_from_slice-same :
    (target source : Bytes)
    → length target ≡ length source
    → copy_from_slice target source ≡ ok source
unfolding copy_from_slice
copy_from_slice-same target source e =
    let same : (length target == length source) ≡ true = (==_iff _ _).1 e in rw same refl

beyond :
    (out rest : Bytes) (written i : ℕ) (source : Bytes)
    → length source ≡ written
    → length rest ≡ length out - written
    → ((j : ℕ) → j < length out - written → get_elem? rest j ≡ get_elem? out (written + j))
    → written ≤ i
    → get_elem? rest (i - length source) ≡ get_elem? out i
beyond out rest written i source e f at le = elim (Bool-cases (ltb i (length out))) [
  | inl lt ↦
      let fits : i < length out = ground arith in
      ap (get_elem? rest) (let g : i - length source ≡ i - written = omega (arith, e) in g)
      ∙ at (i - written) (omega arith)
      ∙ ap (get_elem? out) (omega arith)
  | inr ge ↦
      let over : length out ≤ i = ground arith in
      past_end rest (i - length source) (omega (arith, e, f)) ∙ sym (past_end out i over)
]

-- A copy of as many bytes as both hold.
copy_into-same :
    (out data' : Bytes) (written : ℕ)
    → written ≤ length out
    → written ≤ length data'
    → (filled : Bytes) × (copy_into out data' written ≡ ok filled)
      × (length filled ≡ length out)
      × ((i : ℕ) → i < written → get_elem? filled i ≡ get_elem? data' i)
      × ((i : ℕ) → written ≤ i → get_elem? filled i ≡ get_elem? out i)
unfolding copy_into
copy_into-same out data' written h k =
    let target = slice_to-Slice out written h in
    let source = slice_to-Slice data' written k in
    let rest = slice_from-Slice out written (length out - written) (omega arith) in
    let copied = copy_from_slice-same target.part source.part (target.sized ∙ sym source.sized) in
    (
      source.part ++ rest.part,
      rw (target.taken, source.taken, copied, rest.taken) refl,
      omega (arith, length-append source.part rest.part, source.sized, rest.sized),
      λ i lt.
          before source.part rest.part i (omega (arith, source.sized))
          ∙ source.at i lt
          ∙ ap (get_elem? data') (omega arith),
      λ i le.
          after source.part rest.part i (omega (arith, source.sized))
          ∙ beyond out rest.part written i source.part source.sized rest.sized rest.at le,
    )

-- A storage read never slices out of bounds, whatever the offset and the lengths: it returns the
-- value's length, leaves the buffer's length alone, and every place of the buffer holds the value's
-- byte at the offset where there is one, and what it held before otherwise.
pub host_read_bounds :
    (value out : Bytes) (offset : ℕ)
    → (filled : Bytes) × (host_read (some value) out offset
        ≡ ok (some (length value % 2 ^ 32), filled))
      × (length filled ≡ length out)
      × ((i : ℕ)
          → get_elem? filled i ≡ (
              if ltb (offset + i) (length value) && ltb i (length out)
              then get_elem? value (offset + i)
              else get_elem? out i))
unfolding host_read
host_read_bounds value out offset =
    let n = min offset (length value) in
    let data' = slice_from-Slice value n (length value - n) (omega arith) in
    let (filled, run, size, inside, outside) =
      copy_into-same out data'.part (min (length data'.part) (length out)) (omega arith)
        (omega arith) in
    (
      filled,
      rw (data'.taken, run) refl,
      size,
      λ i. elim (Bool-cases (ltb (offset + i) (length value))) [
        | inl lt ↦ elim (Bool-cases (ltb i (length out))) [
          | inl room ↦
              let reaches : offset + i < length value = ground arith in
              let fits : i < length out = ground arith in
              rw (lt, room)
                (inside i (omega (arith, data'.sized))
                  ∙ data'.at i (omega arith)
                  ∙ ap (get_elem? value) (omega arith))
          | inr full ↦
              let over : length out ≤ i = ground arith in rw (lt, full) (outside i (omega arith))
        ]
        | inr past ↦
            let over : length value ≤ offset + i = ground arith in
            rw past (outside i (omega (arith, data'.sized)))
      ],
    )
