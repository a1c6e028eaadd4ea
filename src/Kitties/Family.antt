-- ===== src/Kitties/Family.antt =====
-- The helpers of `KittyHelpers` (wardrobe/kitties/src/lib.rs), one by one.
use tuxedo.Base.{
  ℕ, ◌+◌, ◌-◌, ◌%◌, ◌^◌, ◌<◌, ◌==◌, ==_iff, ◌≡◌, ◌↔◌, ◌⊎◌, inl, inr, refl, sym, ◌∙◌, Bytes, arith,
  ok, ok_or, checked_add_u128, >>=-eq-ok, ensure-eq-ok, some,
}
use tuxedo.Kitties.{
  Parent, mom, dad, MomKittyStatus, DadKittyStatus, KittyData, KittyError, pred_u64, succ_u128,
  mom_ready, dad_ready, mom_rests, dad_rests, child_ready, check_mom_can_breed, check_dad_can_breed,
  check_free_breedings, can_breed, check_same_kitty, child_dna, check_child,
}

mom_ready_iff : (p : Parent) → (mom_ready p ≡ ok tt) ↔ (p ≡ Parent.mom MomKittyStatus.rearin_to_go)
unfolding mom_ready
mom_ready_iff (mom MomKittyStatus.rearin_to_go) = (λ h. refl, λ e. refl)
mom_ready_iff (mom MomKittyStatus.had_birth_recently) = (λ h. cc (h), λ e. cc (e))
mom_ready_iff (dad status) = (λ h. cc (h), λ e. cc (e))

dad_ready_iff : (p : Parent) → (dad_ready p ≡ ok tt) ↔ (p ≡ Parent.dad DadKittyStatus.rearin_to_go)
unfolding dad_ready
dad_ready_iff (dad DadKittyStatus.rearin_to_go) = (λ h. refl, λ e. refl)
dad_ready_iff (dad DadKittyStatus.tired) = (λ h. cc (h), λ e. cc (e))
dad_ready_iff (mom status) = (λ h. cc (h), λ e. cc (e))

pub mom_rests_iff :
    (p : Parent) → (mom_rests p ≡ ok tt) ↔ (p ≡ Parent.mom MomKittyStatus.had_birth_recently)
unfolding mom_rests
mom_rests_iff (mom MomKittyStatus.rearin_to_go) = (λ h. cc (h), λ e. cc (e))
mom_rests_iff (mom MomKittyStatus.had_birth_recently) = (λ h. refl, λ e. refl)
mom_rests_iff (dad status) = (λ h. cc (h), λ e. cc (e))

pub dad_rests_iff : (p : Parent) → (dad_rests p ≡ ok tt) ↔ (p ≡ Parent.dad DadKittyStatus.tired)
unfolding dad_rests
dad_rests_iff (dad DadKittyStatus.rearin_to_go) = (λ h. cc (h), λ e. cc (e))
dad_rests_iff (dad DadKittyStatus.tired) = (λ h. refl, λ e. refl)
dad_rests_iff (mom status) = (λ h. cc (h), λ e. cc (e))

-- Ready to breed, as a mother or as a father.
abbrev pub IsReady : Parent → Type 0
IsReady p =
    (p ≡ Parent.mom MomKittyStatus.rearin_to_go) ⊎ (p ≡ Parent.dad DadKittyStatus.rearin_to_go)

child_ready_iff : (p : Parent) → (child_ready p ≡ ok tt) ↔ IsReady p
unfolding child_ready
child_ready_iff (mom MomKittyStatus.rearin_to_go) = (λ h. inl refl, λ e. refl)
child_ready_iff (mom MomKittyStatus.had_birth_recently) =
    (λ h. cc (h), λ r. elim r [ inl e ↦ cc (e) | inr e ↦ cc (e) ])
child_ready_iff (dad DadKittyStatus.rearin_to_go) = (λ h. inr refl, λ e. refl)
child_ready_iff (dad DadKittyStatus.tired) =
    (λ h. cc (h), λ r. elim r [ inl e ↦ cc (e) | inr e ↦ cc (e) ])

-- A mother and a father that are ready, with free breedings left and no overflow ahead.
abbrev pub CanBreed : KittyData → KittyData → Type 0
CanBreed m d =
    (m.parent ≡ Parent.mom MomKittyStatus.rearin_to_go)
    × (d.parent ≡ Parent.dad DadKittyStatus.rearin_to_go)
    × (0 < m.free_breedings)
    × (0 < d.free_breedings)
    × (m.num_breedings + 1 < 2 ^ 128)
    × (d.num_breedings + 1 < 2 ^ 128)

counts_of :
    (n more : ℕ)
    → ok_or (checked_add_u128 n 1) KittyError.too_many_breedings_for_kitty ≡ ok more
    → n + 1 < 2 ^ 128
counts_of n more h = ground arith

counted : (n : ℕ) → n + 1 < 2 ^ 128 → checked_add_u128 n 1 ≡ some (n + 1)
counted n h = ground arith

check_mom_can_breed_iff :
    (m : KittyData)
    → (check_mom_can_breed m ≡ ok tt)
      ↔ ((m.parent ≡ Parent.mom MomKittyStatus.rearin_to_go) × (m.num_breedings + 1 < 2 ^ 128))
unfolding check_mom_can_breed
check_mom_can_breed_iff m = (
  λ h.
      let (u, e, h1) = >>=-eq-ok (mom_ready m.parent) _ h in
      let (more, e1, h2) = >>=-eq-ok (ok_or (checked_add_u128 m.num_breedings 1) _) _ h1 in
      ((mom_ready_iff m.parent).0 e, counts_of m.num_breedings more e1),
  λ (e, n). rw ((mom_ready_iff m.parent).1 e, counted m.num_breedings n),
)

check_dad_can_breed_iff :
    (d : KittyData)
    → (check_dad_can_breed d ≡ ok tt)
      ↔ ((d.parent ≡ Parent.dad DadKittyStatus.rearin_to_go) × (d.num_breedings + 1 < 2 ^ 128))
unfolding check_dad_can_breed
check_dad_can_breed_iff d = (
  λ h.
      let (u, e, h1) = >>=-eq-ok (dad_ready d.parent) _ h in
      let (more, e1, h2) = >>=-eq-ok (ok_or (checked_add_u128 d.num_breedings 1) _) _ h1 in
      ((dad_ready_iff d.parent).0 e, counts_of d.num_breedings more e1),
  λ (e, n). rw ((dad_ready_iff d.parent).1 e, counted d.num_breedings n),
)

check_free_breedings_iff :
    (m d : KittyData)
    → (check_free_breedings m d ≡ ok tt) ↔ ((0 < m.free_breedings) × (0 < d.free_breedings))
unfolding check_free_breedings
check_free_breedings_iff m d = (λ h. (ground arith, ground arith), λ p. ground arith)

pub can_breed_iff : (m d : KittyData) → (can_breed m d ≡ ok tt) ↔ CanBreed m d
unfolding can_breed
can_breed_iff m d = (
  λ h.
      let (u, e, h1) = >>=-eq-ok (check_mom_can_breed m) _ h in
      let (v, f, h2) = >>=-eq-ok (check_dad_can_breed d) _ h1 in
      let (a, b) = (check_mom_can_breed_iff m).0 e in
      let (a', b') = (check_dad_can_breed_iff d).0 f in
      let (pos, pos') = (check_free_breedings_iff m d).0 h2 in (a, a', pos, pos', b, b'),
  λ (a, a', pos, pos', b, b'). rw (
    (check_mom_can_breed_iff m).1 (a, b),
    (check_dad_can_breed_iff d).1 (a', b'),
    (check_free_breedings_iff m d).1 (pos, pos'),
  ),
)

-- The same kitty with one free breeding less (as a `u64`) and one breeding more.
abbrev pub HasBred : KittyData → KittyData → Type 0
HasBred old new =
    (new.free_breedings ≡ (old.free_breedings - 1) % 2 ^ 64)
    × (new.num_breedings ≡ old.num_breedings + 1)
    × (new.dna ≡ old.dna)

pred_u64_pos : (a : ℕ) → 0 < a → pred_u64 a ≡ (a - 1) % 2 ^ 64
pred_u64_pos a pos = omega arith

succ_u128_small : (a : ℕ) → a + 1 < 2 ^ 128 → succ_u128 a ≡ a + 1
succ_u128_small a h = omega arith

pub check_same_kitty_iff :
    (old new : KittyData)
    → 0 < old.free_breedings
    → old.num_breedings + 1 < 2 ^ 128
    → (check_same_kitty old new ≡ ok tt) ↔ HasBred old new
unfolding check_same_kitty
check_same_kitty_iff old new pos counts = (
  λ h.
      let (e1, h1) = ensure-eq-ok (new.free_breedings == _) _ _ h in
      let (e2, h2) = ensure-eq-ok (new.num_breedings == _) _ _ h1 in
      (
        (==_iff _ _).0 e1 ∙ pred_u64_pos old.free_breedings pos,
        (==_iff _ _).0 e2 ∙ succ_u128_small old.num_breedings counts,
        ground arith,
      ),
  λ (e1, e2, e3). rw (
    (==_iff new.free_breedings _).1 (e1 ∙ sym (pred_u64_pos old.free_breedings pos)),
    (==_iff new.num_breedings _).1 (e2 ∙ sym (succ_u128_small old.num_breedings counts)),
    (==_iff new.dna _).1 e3,
  ),
)

-- Newborn: its DNA is that of its parents, two free breedings, none so far, ready.
module _ (blake2_256 : Bytes → ℕ) (encode_parents : ℕ → ℕ → ℕ → ℕ → Bytes) where
  abbrev pub IsNewborn : (new_mom new_dad child : KittyData) → Type 0
  IsNewborn new_mom new_dad child =
      (child.dna ≡ child_dna blake2_256 encode_parents new_mom new_dad)
      × (child.free_breedings ≡ 2)
      × (child.num_breedings ≡ 0)
      × IsReady child.parent

  pub check_child_iff :
      (new_mom new_dad child : KittyData)
      → (check_child blake2_256 encode_parents new_mom new_dad child ≡ ok tt)
        ↔ IsNewborn new_mom new_dad child
  unfolding check_child
  check_child_iff new_mom new_dad child = (
    λ h.
        let (e1, h1) = ensure-eq-ok (child.dna == _) _ _ h in
        let (e2, h2) = ensure-eq-ok (child.free_breedings == _) _ _ h1 in
        let (e3, h3) = ensure-eq-ok (child.num_breedings == _) _ _ h2 in
        (
          (==_iff _ _).0 e1,
          (==_iff _ _).0 e2,
          (==_iff _ _).0 e3,
          (child_ready_iff child.parent).0 h3,
        ),
    λ (e1, e2, e3, r). rw (
      (==_iff child.dna _).1 e1,
      (==_iff child.free_breedings _).1 e2,
      (==_iff child.num_breedings _).1 e3,
      (child_ready_iff child.parent).1 r,
    ),
  )
