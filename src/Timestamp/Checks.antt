-- ===== src/Timestamp/Checks.antt =====
-- What the two timestamp checkers (wardrobe/timestamp/src/lib.rs) accept.
use tuxedo.Base.{
  ℕ, ◌≤◌, ◌<◌, ◌≡◌, ◌↔◌, ◌⊎◌, sym, true, ◌||◌, List, [], ◌∷◌, arith, length, is_empty, not, ◌==◌,
  ==_iff, leb, ok, All, All-imp, for_each, >>=-eq-ok, ensure-eq-ok, is_empty_iff, ok_injective,
}
use tuxedo.Codec.{Codec}
use tuxedo.DynamicTyping.{DynamicallyTypedData, datum_at, extract, extract_or}
use tuxedo.DynamicTyping.Typed.{Typed, extract_or_iff, one-Typed, of_one-Typed, for_each-Typed_iff}
use tuxedo.Timestamp.{
  Timestamp, TimestampConfig, TimestampError, timestamp_data, add_u64, add_u32, check_set_timestamp,
  check_clean_up, cleanup_test,
}

head_datum :
    {E : Type 0} (ds : List DynamicallyTypedData) (d : DynamicallyTypedData)
    → datum_at {E = E} ds 0 ≡ ok d
    → (rest : List DynamicallyTypedData) × (ds ≡ d ∷ rest)
head_datum [] d h = cc
head_datum (a ∷ ds) d h = (ds, rw (ok_injective h))

late_enough_iff :
    (block earliest time : ℕ)
    → (block == 0 || leb earliest time ≡ true) ↔ ((block ≡ 0) ⊎ (earliest ≤ time))
late_enough_iff block earliest time = ground arith

module _ {S : Type 0} (config : TimestampConfig S) (codec : Codec Timestamp) where
  -- The only output is a timestamp of this block, the first peek is one of the block before, and
  -- unless that is block zero, the interval between the two is long enough.
  abbrev pub IsSetTimestamp :
      S → (inputs evicted peeks outputs : List DynamicallyTypedData) → Type 0
  IsSetTimestamp s inputs evicted peeks outputs =
      (old new : Timestamp) × (first : DynamicallyTypedData) × (more : List DynamicallyTypedData)
      × (inputs ≡ [])
      × (evicted ≡ [])
      × Typed (timestamp_data codec) outputs (new ∷ [])
      × (peeks ≡ first ∷ more)
      × (extract (timestamp_data codec) first ≡ ok old)
      × (new.block ≡ config.block_height s)
      × (new.block ≡ add_u32 old.block 1)
      × ((old.block ≡ 0) ⊎ (add_u64 old.time config.minimum_time_interval ≤ new.time))

  -- Old enough, by its time and by its block, to be cleaned up.
  abbrev pub IsOutdated : S → Timestamp → Timestamp → Type 0
  IsOutdated s reference old =
      (add_u64 old.time config.min_time_before_cleanup < reference.time)
      × (add_u32 old.block config.min_blocks_before_cleanup < config.block_height s)

  abbrev pub IsCleanUp : S → (inputs evicted peeks outputs : List DynamicallyTypedData) → Type 0
  IsCleanUp s inputs evicted peeks outputs =
      (reference : Timestamp) × (outdated : List Timestamp) × (first : DynamicallyTypedData)
      × (more : List DynamicallyTypedData) × (inputs ≡ [])
      × (outputs ≡ [])
      × (peeks ≡ first ∷ more)
      × (extract (timestamp_data codec) first ≡ ok reference)
      × Typed (timestamp_data codec) evicted outdated
      × All (IsOutdated s reference) outdated

  -- Setting the timestamp is accepted exactly if nothing is consumed or evicted, the only output is
  -- a timestamp of the current block, the first peek is one of the block before, and the new time
  -- is at least the minimum interval after the old one unless the old block is zero (sums modulo 2
  -- ^ 64 and 2 ^ 32); the priority is zero.
  pub check_set_timestamp_iff :
      (s : S) (inputs evicted peeks outputs : List DynamicallyTypedData) (priority : ℕ)
      → (check_set_timestamp config codec s inputs evicted peeks outputs ≡ ok priority)
        ↔ ((priority ≡ 0) × IsSetTimestamp s inputs evicted peeks outputs)
  unfolding check_set_timestamp
  check_set_timestamp_iff s inputs evicted peeks outputs priority =
      let u = timestamp_data codec in
      (
        λ h.
            let (e1, h1) = ensure-eq-ok (is_empty inputs) _ _ h in
            let (e2, h2) = ensure-eq-ok (is_empty evicted) _ _ h1 in
            let (e3, h3) = ensure-eq-ok (not (is_empty outputs)) _ _ h2 in
            let (d, e4, h4) = >>=-eq-ok (datum_at outputs 0) _ h3 in
            let (new, e5, h5) = >>=-eq-ok (extract_or u _ d) _ h4 in
            let (e6, h6) = ensure-eq-ok (length outputs == 1) _ _ h5 in
            let (e7, h7) = ensure-eq-ok (new.block == _) _ _ h6 in
            let (e8, h8) = ensure-eq-ok (not (is_empty peeks)) _ _ h7 in
            let (first, e9, h9) = >>=-eq-ok (datum_at peeks 0) _ h8 in
            let (old, f1, k1) = >>=-eq-ok (extract_or u _ first) _ h9 in
            let (f2, k2) = ensure-eq-ok (old.block == 0 || leb _ new.time) _ _ k1 in
            let (f3, k3) = ensure-eq-ok (new.block == _) _ _ k2 in
            let (more, f4) = head_datum peeks first e9 in
            (
              sym (ok_injective k3),
              (
                old,
                new,
                first,
                more,
                is_empty_iff _ e1,
                is_empty_iff _ e2,
                one-Typed u outputs _ d new e6 e4 e5,
                f4,
                (extract_or_iff u _ first old).0 f1,
                (==_iff _ _).0 e7,
                (==_iff _ _).0 f3,
                (late_enough_iff old.block _ new.time).0 f2,
              ),
            ),
        λ (p, (old, new, first, more, e1, e2, o, e3, e4, height, next, late)).
            let (d, e5, e6) = of_one-Typed u TimestampError.badly_typed outputs new o in
            rw (
              e1,
              e2,
              e5,
              e6,
              (==_iff _ _).1 height,
              e3,
              (extract_or_iff u TimestampError.badly_typed first old).1 e4,
              (late_enough_iff old.block _ new.time).1 late,
              (==_iff _ _).1 next,
              p,
            ),
      )

  cleanup_test_iff :
      (s : S) (reference old : Timestamp)
      → (cleanup_test config codec s reference old ≡ ok tt) ↔ IsOutdated s reference old
  cleanup_test_iff s reference old = ground arith

  -- Cleaning up is accepted exactly if there are no inputs and outputs, the first peek is a
  -- timestamp, and all evictions are timestamps older than it by more than the minimum time and
  -- older than the current block by more than the minimum number of blocks (sums modulo 2 ^ 64 and
  -- 2 ^ 32); the priority is zero.
  check_clean_up_iff :
      (s : S) (inputs evicted peeks outputs : List DynamicallyTypedData) (priority : ℕ)
      → (check_clean_up config codec s inputs evicted peeks outputs ≡ ok priority)
        ↔ ((priority ≡ 0) × IsCleanUp s inputs evicted peeks outputs)
  unfolding check_clean_up
  check_clean_up_iff s inputs evicted peeks outputs priority =
      let u = timestamp_data codec in
      let loop = λ (reference : Timestamp).
        for_each-Typed_iff u TimestampError.badly_typed (cleanup_test config codec s reference)
          evicted in
      (
        λ h.
            let (e1, h1) = ensure-eq-ok (is_empty inputs) _ _ h in
            let (e2, h2) = ensure-eq-ok (not (is_empty peeks)) _ _ h1 in
            let (first, e3, h3) = >>=-eq-ok (datum_at peeks 0) _ h2 in
            let (reference, e4, h4) = >>=-eq-ok (extract_or u _ first) _ h3 in
            let (e5, h5) = ensure-eq-ok (is_empty outputs) _ _ h4 in
            let (one, e6, h6) = >>=-eq-ok (for_each _ evicted) _ h5 in
            let (outdated, holds, all) = (loop reference).0 e6 in
            let (more, e7) = head_datum peeks first e3 in
            (
              sym (ok_injective h6),
              (
                reference,
                outdated,
                first,
                more,
                is_empty_iff _ e1,
                is_empty_iff _ e5,
                e7,
                (extract_or_iff u _ first reference).0 e4,
                holds,
                All-imp (λ old. (cleanup_test_iff s reference old).0) outdated all,
              ),
            ),
        λ (p, (reference, outdated, first, more, e1, e2, e3, e4, holds, all)). rw (
          e1,
          e2,
          e3,
          (extract_or_iff u TimestampError.badly_typed first reference).1 e4,
          (loop reference).1
              (outdated, holds, All-imp (λ old. (cleanup_test_iff s reference old).1) outdated all),
          p,
        ),
      )
