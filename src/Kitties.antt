-- ===== src/Kitties.antt =====
-- wardrobe/kitties/src/lib.rs: breeding of kitties.
pub mod Family
pub mod Breeding
mod Tests
use tuxedo.Base.{
  ℕ, ◌+◌, ◌-◌, ◌%◌, ◌^◌, ◌==◌, ◌||◌, Bytes, List, [], ◌∷◌, length, is_empty, checked_add_u128,
  Outcome, ok, err, ok_or, ensure, ◌>>=◌, ◌>>◌, if◌then◌else◌,
}
use tuxedo.Codec.{Codec}
use tuxedo.DynamicTyping.{DynamicallyTypedData, UtxoData, extract_or, into_dynamic, datum_at}
use tuxedo.Types.{Output, Transaction}

pub data FreeKittyConstraintChecker : Type 0 where
  free_kitty : FreeKittyConstraintChecker

pub data DadKittyStatus : Type 0 where
  rearin_to_go tired : DadKittyStatus

pub data MomKittyStatus : Type 0 where
  rearin_to_go had_birth_recently : MomKittyStatus

pub data Parent : Type 0 where
  mom : MomKittyStatus → Parent
  dad : DadKittyStatus → Parent

-- `free_breedings` is a `u64`, `num_breedings` a `u128` and `dna` an `H256`.
pub record KittyData : Type 0 where
  pub parent : Parent
  pub free_breedings : ℕ
  pub dna : ℕ
  pub num_breedings : ℕ

-- `KittyData::default`, whose DNA is the `H256` of a text.
unfoldable pub default_kitty : ℕ → KittyData
default_kitty default_dna = record {
  parent = Parent.mom MomKittyStatus.rearin_to_go;
  free_breedings = 2;
  dna = default_dna;
  num_breedings = 3;
}

-- `UtxoData for KittyData`
abbrev pub kitty_data : Codec KittyData → UtxoData KittyData
kitty_data codec = record { codec = codec; own_type_id = b'K' ∷ b'i' ∷ b't' ∷ b't' ∷ [] }

pub data KittyError : Type 0 where
  badly_typed no_evictions_allowed minimum_spend_and_breed_not_met : KittyError
  two_parents_do_not_exist not_enough_family_members mom_not_ready_yet dad_too_tired : KittyError
  two_moms_not_valid two_dads_not_valid new_mom_is_still_rearin_to_go : KittyError
  new_dad_is_still_rearin_to_go new_parent_free_breedings_incorrect : KittyError
  new_parent_dna_doesnt_match_old new_parent_number_breedings_incorrect : KittyError
  new_child_dna_incorrect new_child_free_breedings_incorrect : KittyError
  new_child_has_non_zero_breedings new_child_incorrect_parent_info : KittyError
  too_many_breedings_for_kitty not_enough_free_breedings : KittyError

-- `KittyHelpers::NUM_FREE_BREEDINGS`
abbrev pub num_free_breedings : ℕ
num_free_breedings = 2

-- `u64` subtraction and `u128` addition of one, as the release build computes them.
abbrev pub pred_u64 : ℕ → ℕ
pred_u64 a = (a + (2 ^ 64 - 1)) % 2 ^ 64

abbrev pub succ_u128 : ℕ → ℕ
succ_u128 a = (a + 1) % 2 ^ 128

-- The `match` of `check_mom_can_breed`.
unfoldable pub mom_ready : Parent → Outcome KittyError (Unit {0})
mom_ready (Parent.mom MomKittyStatus.had_birth_recently) = err KittyError.mom_not_ready_yet
mom_ready (Parent.mom MomKittyStatus.rearin_to_go) = ok tt
mom_ready (Parent.dad status) = err KittyError.two_dads_not_valid

unfoldable pub check_mom_can_breed : KittyData → Outcome KittyError (Unit {0})
check_mom_can_breed m = do
  mom_ready m.parent
  more ← ok_or (checked_add_u128 m.num_breedings 1) KittyError.too_many_breedings_for_kitty
  ok tt

-- The `match` of `check_dad_can_breed`.
unfoldable pub dad_ready : Parent → Outcome KittyError (Unit {0})
dad_ready (Parent.dad DadKittyStatus.tired) = err KittyError.dad_too_tired
dad_ready (Parent.dad DadKittyStatus.rearin_to_go) = ok tt
dad_ready (Parent.mom status) = err KittyError.two_moms_not_valid

unfoldable pub check_dad_can_breed : KittyData → Outcome KittyError (Unit {0})
check_dad_can_breed d = do
  dad_ready d.parent
  more ← ok_or (checked_add_u128 d.num_breedings 1) KittyError.too_many_breedings_for_kitty
  ok tt

unfoldable pub check_free_breedings : KittyData → KittyData → Outcome KittyError (Unit {0})
check_free_breedings m d =
    if m.free_breedings == 0 || d.free_breedings == 0
    then err KittyError.not_enough_free_breedings
    else ok tt

unfoldable pub can_breed : KittyData → KittyData → Outcome KittyError (Unit {0})
can_breed m d = do check_mom_can_breed m; check_dad_can_breed d; check_free_breedings m d

-- The `match` of `check_new_mom`.
unfoldable pub mom_rests : Parent → Outcome KittyError (Unit {0})
mom_rests (Parent.mom MomKittyStatus.rearin_to_go) = err KittyError.new_mom_is_still_rearin_to_go
mom_rests (Parent.mom MomKittyStatus.had_birth_recently) = ok tt
mom_rests (Parent.dad status) = err KittyError.two_dads_not_valid

-- The three tests that `check_new_mom` and `check_new_dad` share.
unfoldable pub check_same_kitty : KittyData → KittyData → Outcome KittyError (Unit {0})
check_same_kitty old new = do
  ensure (new.free_breedings == pred_u64 old.free_breedings)
      KittyError.new_parent_free_breedings_incorrect
  ensure (new.num_breedings == succ_u128 old.num_breedings)
      KittyError.new_parent_number_breedings_incorrect
  ensure (new.dna == old.dna) KittyError.new_parent_dna_doesnt_match_old

unfoldable pub check_new_mom : KittyData → KittyData → Outcome KittyError (Unit {0})
check_new_mom old_mom new_mom = do mom_rests new_mom.parent; check_same_kitty old_mom new_mom

-- The `match` of `check_new_dad`.
unfoldable pub dad_rests : Parent → Outcome KittyError (Unit {0})
dad_rests (Parent.dad DadKittyStatus.rearin_to_go) = err KittyError.new_dad_is_still_rearin_to_go
dad_rests (Parent.dad DadKittyStatus.tired) = ok tt
dad_rests (Parent.mom status) = err KittyError.two_moms_not_valid

unfoldable pub check_new_dad : KittyData → KittyData → Outcome KittyError (Unit {0})
check_new_dad old_dad new_dad = do dad_rests new_dad.parent; check_same_kitty old_dad new_dad

-- The `match` of `check_child`.
unfoldable pub child_ready : Parent → Outcome KittyError (Unit {0})
child_ready (Parent.mom MomKittyStatus.had_birth_recently) =
    err KittyError.new_child_incorrect_parent_info
child_ready (Parent.mom MomKittyStatus.rearin_to_go) = ok tt
child_ready (Parent.dad DadKittyStatus.tired) = err KittyError.new_child_incorrect_parent_info
child_ready (Parent.dad DadKittyStatus.rearin_to_go) = ok tt

-- The host's hash, and the encoding of the four values that a child's DNA is the hash of.
module _ (blake2_256 : Bytes → ℕ) (encode_parents : ℕ → ℕ → ℕ → ℕ → Bytes) where
  unfoldable pub child_dna : KittyData → KittyData → ℕ
  child_dna new_mom new_dad =
      blake2_256
        (encode_parents new_mom.dna new_dad.dna new_mom.num_breedings new_dad.num_breedings)

  unfoldable pub check_child : KittyData → KittyData → KittyData → Outcome KittyError (Unit {0})
  check_child new_mom new_dad child = do
    ensure (child.dna == child_dna new_mom new_dad) KittyError.new_child_dna_incorrect
    ensure (child.free_breedings == num_free_breedings)
        KittyError.new_child_free_breedings_incorrect
    ensure (child.num_breedings == 0) KittyError.new_child_has_non_zero_breedings
    child_ready child.parent

  module _ (codec : Codec KittyData) where
    -- `TryFrom<&DynamicallyTypedData> for KittyData`
    abbrev pub try_from : DynamicallyTypedData → Outcome KittyError KittyData
    try_from a = extract_or (kitty_data codec) KittyError.badly_typed a

    unfoldable pub check_new_family :
        KittyData → KittyData → List DynamicallyTypedData → Outcome KittyError (Unit {0})
    check_new_family old_mom old_dad new_family = do
      ensure (length new_family == 3) KittyError.not_enough_family_members
      first ← datum_at new_family 0
      new_mom ← try_from first
      second ← datum_at new_family 1
      new_dad ← try_from second
      third ← datum_at new_family 2
      child ← try_from third
      check_new_mom old_mom new_mom
      check_new_dad old_dad new_dad
      check_child new_mom new_dad child

    -- `FreeKittyConstraintChecker::check`
    unfoldable pub check_free_kitty :
        (input_data evicted_input_data peeks output_data : List DynamicallyTypedData)
        → Outcome KittyError ℕ
    check_free_kitty input_data evicted_input_data peeks output_data = do
      ensure (is_empty evicted_input_data) KittyError.no_evictions_allowed
      ensure (length input_data == 2) KittyError.two_parents_do_not_exist
      first ← datum_at input_data 0
      m ← try_from first
      second ← datum_at input_data 1
      d ← try_from second
      can_breed m d
      ensure (length output_data == 3) KittyError.not_enough_family_members
      check_new_family m d output_data
      ok 0

    -- `KittyData::mint`, at the conversions of the verifier and of the checker.
    unfoldable pub mint :
        {V W C : Type 0}
        → (V → W)
        → (FreeKittyConstraintChecker → C)
        → (default_dna : ℕ) → Parent
        → (dna_preimage : Bytes) → V
        → Transaction W C
    mint into_verifier into_checker default_dna parent dna_preimage v = record {
      inputs = [];
      peeks = [];
      outputs =
          record {
            payload = into_dynamic (kitty_data codec) (record (default_kitty default_dna) {
              parent = parent;
              dna = blake2_256 dna_preimage;
            });
            verifier = into_verifier v;
          }
          ∷ [];
      checker = into_checker FreeKittyConstraintChecker.free_kitty;
    }
