-- ===== src/ParachainCore/Tests.antt =====
-- Concrete runs of the block validation (tuxedo-parachain-core/src/validate_block.rs) with the
-- parachain piece: its information is the relay parent's number.
use tuxedo.Base.{
  ℕ, ◌+◌, ◌%◌, ◌^◌, ◌&&◌, ltb, if◌then◌else◌, Bytes, true, List, [], ◌∷◌, some, length, get_elem?,
  ok, panic, ◌≡◌, refl, bytes_eq, set_of,
}
use tuxedo.Codec.{Codec, read-encode}
use tuxedo.DynamicTyping.{UtxoData, into_dynamic, extract, extract_or}
use tuxedo.DynamicTyping.Laws.{extract-into_dynamic}
use tuxedo.Types.{OutputRef, eviction, Input, Output, Transaction, is_signed}
use tuxedo.Types.Encoding.{encode_transaction}
use tuxedo.UtxoSet.{peek_utxo, consume_utxo, store_utxo}
use tuxedo.Verifier.{TestVerifier, test_verifier, verify_test}
use tuxedo.Executive.Runtime.{Runtime, Header, Block, header_key, tx_hash_of}
use tuxedo.Executive.Validation.{
  strip, strip_inputs, new_ref, payloads, block_height, has_duplicates, check_input, gather_inputs,
  gather_peeks, check_new_outputs, add_found, provided_tags, check_constraints,
  validate_tuxedo_transaction,
}
use tuxedo.Executive.Application.{consume_inputs, store_outputs, update_storage}
use tuxedo.Executive.Blocks.{open_block}
use tuxedo.Executive.Writes.{
  WritingRuntime, checker_writes, apply_with_writes, execute_extrinsic_with_writes,
  execute_extrinsics_with_writes, execute_block_with_writes,
}
use tuxedo.Parachain.{
  SetParachainInfo, ParachainError, check_previous, current_info, check_parachain_info,
}
use tuxedo.Parachain.Info.{check_parachain_info-writes}
use tuxedo.ParachainCore.{
  MemoryOptimizedValidationParams, ValidationResult, ParachainRuntime, get_relay_parent_number,
  set_relay_parent_number, opening, find_parachain, inherent_data_of, validate_validation_data,
  collect_collation_info, validate_block,
}
use tuxedo.ParachainCore.HostFunctions.{
  slice_from, slice_to, copy_from_slice, copy_into, host_read, host_read_bounds,
}
use tuxedo.ParachainCore.Validity.{Carries, IsValid, validate_block_iff}
use tuxedo.ParachainCore.Collation.{WritesInfo, AtMostOne, validate_block-collation}
use tuxedo.Samples.{Storage, empty, host, hash}
use tuxedo.Samples.Codecs.{numbers, bytes, pairs, lists, units, through}
use tuxedo.Samples.Chain.{refs, inputs_codec, outputs_codec, headers, header, owner, coin_ref}

abbrev of_info : Unit {0} → SetParachainInfo
of_info u = SetParachainInfo.set_parachain_info

of_info-tt : (c : SetParachainInfo) → of_info tt ≡ c
of_info-tt SetParachainInfo.set_parachain_info = refl

abbrev checkers : Codec SetParachainInfo
checkers = through units (λ (c : SetParachainInfo). tt) of_info of_info-tt

abbrev Tx : Type 0
Tx = Transaction TestVerifier SetParachainInfo

abbrev transactions : Codec Tx
transactions =
    through (pairs (pairs (lists inputs_codec) (lists refs)) (pairs (lists outputs_codec) checkers))
      (λ (t : Tx). ((t.inputs, t.peeks), (t.outputs, t.checker)))
      (λ (p : (List Input × List OutputRef) × (List (Output TestVerifier) × SetParachainInfo)).
        record { inputs = p.0.0; peeks = p.0.1; outputs = p.1.0; checker = p.1.1 })
      (λ (t : Tx). refl)

abbrev Chunk : Type 0
Chunk = Block TestVerifier SetParachainInfo

abbrev blocks : Codec (Chunk × Unit {0})
blocks =
    pairs
      (through (pairs headers (lists transactions)) (λ (b : Chunk). (b.header, b.extrinsics))
        (λ (p : Header × List Tx). record { header = p.0; extrinsics = p.1 }) (λ (b : Chunk). refl))
      units

abbrev info_data : UtxoData ℕ
info_data = record { codec = numbers; own_type_id = 1 ∷ [] }

abbrev number : ℕ → ℕ
number n = n

abbrev write : Storage → ℕ → Storage
write = set_relay_parent_number host numbers

abbrev core : Runtime Storage TestVerifier (Unit {0}) SetParachainInfo ParachainError
core = record {
  storage = host;
  blake2_256 = hash;
  ordered_trie_root = λ xs. length xs;
  output_refs = refs;
  inputs = inputs_codec;
  outputs = outputs_codec;
  transactions = record {
    compact = numbers;
    inputs = lists inputs_codec;
    peeks = lists refs;
    outputs = lists outputs_codec;
    checker = checkers;
  };
  bytes = bytes;
  block_numbers = numbers;
  headers = headers;
  extrinsics = lists bytes;
  verifier = test_verifier units;
  checker = record {
    check = λ s c i e p o. (check_parachain_info info_data number write s i e p o).0;
    is_inherent = λ c. true;
  };
  length-output_ref = λ r. refl;
}

abbrev executive : WritingRuntime Storage TestVerifier (Unit {0}) SetParachainInfo ParachainError
executive = record {
  core = core;
  check_writes = λ s c i e p o. (check_parachain_info info_data number write s i e p o).1;
}

abbrev parent_head : Bytes
parent_head = headers.encode header

abbrev info_output : ℕ → Output TestVerifier
info_output n = record { payload = into_dynamic info_data n; verifier = owner }

-- The parent's storage has information of the relay parent 4.
abbrev parent_state : Storage
parent_state = host.set empty (refs.encode coin_ref) (outputs_codec.encode (info_output 4))

abbrev rt :
    ParachainRuntime Storage TestVerifier (Unit {0}) SetParachainInfo ParachainError ℕ (Unit {0})
rt = record {
  executive = executive;
  numbers = numbers;
  header_hash = λ h. h.number;
  blocks = blocks;
  info_data = info_data;
  validation_data = λ n. record {
    parent_head = parent_head;
    relay_parent_number = n;
    relay_parent_storage_root = 3;
  };
  is_parachain = λ c. true;
  to_memory_db = λ proof root. some parent_state;
}

rt-WritesInfo : WritesInfo rt
rt-WritesInfo = record {
  info_written = λ s c inputs evicted peeks rest d info priority here accepted carried.
      check_parachain_info-writes info_data number write s inputs evicted peeks rest d info priority
        accepted carried;
  others_leave = λ s c inputs evicted peeks outputs other. cc;
}

abbrev carrier : Tx
carrier = record {
  inputs = record { output_ref = coin_ref; redeemer = eviction } ∷ [];
  peeks = [];
  outputs = info_output 11 ∷ [];
  checker = SetParachainInfo.set_parachain_info;
}

-- A block on the parent, whose hash is 6.
abbrev next : Chunk
next = record {
  header = record header { parent_hash = 6; number = 7; state_root = 7; extrinsics_root = 1 };
  extrinsics = carrier ∷ [];
}

next-AtMostOne : AtMostOne rt next
next-AtMostOne [] [] tx split here = tt
next-AtMostOne [] (a ∷ after) tx split here = cc
next-AtMostOne (b ∷ []) after tx split here = cc
next-AtMostOne (b ∷ c ∷ before) after tx split here = cc

abbrev params : MemoryOptimizedValidationParams
params = record {
  parent_head = parent_head;
  block_data = blocks.encode (next, tt);
  relay_parent_number = 11;
  relay_parent_storage_root = 3;
}

abbrev outcome : ValidationResult
outcome = record { head_data = headers.encode next.header; hrmp_watermark = 11 }

next-Carries : Carries rt next 11
next-Carries = (
  carrier,
  info_output 11,
  ([], [], refl, tt, refl, refl),
  refl,
  extract-into_dynamic info_data 11,
)

-- The storage that the block leaves.
abbrev left_state : Storage
left_state =
    host.clear (update_storage core (write (open_block core parent_state next.header) 11) carrier)
      header_key

executed : execute_block_with_writes executive parent_state next ≡ ok left_state
unfolding execute_block_with_writes execute_extrinsics_with_writes execute_extrinsic_with_writes
    apply_with_writes checker_writes open_block check_parachain_info check_previous current_info
    set_relay_parent_number update_storage consume_inputs store_outputs validate_tuxedo_transaction
    check_constraints has_duplicates gather_inputs check_input block_height gather_peeks
    check_new_outputs add_found strip strip_inputs new_ref payloads provided_tags tx_hash_of
    encode_transaction peek_utxo consume_utxo store_utxo into_dynamic extract bytes_eq set_of
    verify_test extract_or
executed = refl

number_left : get_relay_parent_number host numbers left_state ≡ ok 11
unfolding get_relay_parent_number set_relay_parent_number update_storage consume_inputs
    store_outputs open_block consume_utxo store_utxo new_ref tx_hash_of encode_transaction bytes_eq
    into_dynamic
number_left = refl

accepted : IsValid rt params outcome
accepted = record {
  block = next;
  proof = tt;
  parent = header;
  info = 11;
  before = parent_state;
  after = left_state;
  number = 11;
  block_read = read-encode blocks (next, tt);
  parent_read = read-encode headers header;
  follows = refl;
  carried = next-Carries;
  same_data = (refl, refl, refl);
  proved = refl;
  executed = executed;
  stored = number_left;
  reported = refl;
}

validate_example : validate_block rt params ≡ ok outcome
validate_example = (validate_block_iff rt params outcome).1 accepted

collation_example :
    (outcome.hrmp_watermark ≡ params.relay_parent_number)
    × (collect_collation_info rt left_state next.header
        ≡ ok (record { head_data = outcome.head_data; hrmp_watermark = outcome.hrmp_watermark }))
collation_example =
    validate_block-collation rt params outcome next tt parent_state left_state rt-WritesInfo
      next-AtMostOne (read-encode blocks (next, tt))
      ((validate_block_iff rt params outcome).1 accepted) executed

-- A second parachain inherent evicts the first one's output, and its number, which nothing compares
-- with the relay chain's, is the watermark.
abbrev second : Tx
second = record {
  inputs = record { output_ref = new_ref (tx_hash_of core carrier) 0; redeemer = eviction } ∷ [];
  peeks = new_ref (tx_hash_of core carrier) 0 ∷ [];
  outputs = info_output 99 ∷ [];
  checker = SetParachainInfo.set_parachain_info;
}

abbrev two_inherents : Chunk
two_inherents = record {
  header = record next.header { extrinsics_root = 2 };
  extrinsics = carrier ∷ second ∷ [];
}

second_wins :
    validate_block rt (record params { block_data = blocks.encode (two_inherents, tt) })
    ≡ ok (record { head_data = headers.encode two_inherents.header; hrmp_watermark = 99 })
unfolding validate_block inherent_data_of opening find_parachain validate_validation_data is_signed
    execute_block_with_writes execute_extrinsics_with_writes execute_extrinsic_with_writes
    apply_with_writes checker_writes open_block check_parachain_info check_previous current_info
    set_relay_parent_number get_relay_parent_number update_storage consume_inputs store_outputs
    validate_tuxedo_transaction check_constraints has_duplicates gather_inputs check_input
    block_height gather_peeks check_new_outputs add_found strip strip_inputs new_ref payloads
    provided_tags tx_hash_of encode_transaction peek_utxo consume_utxo store_utxo into_dynamic
    extract bytes_eq set_of verify_test extract_or
second_wins = refl

-- Three bytes from the second byte of a value of four.
host_read_example :
    (filled : Bytes) × (host_read (some (5 ∷ 6 ∷ 7 ∷ 8 ∷ [])) (0 ∷ 0 ∷ 0 ∷ 0 ∷ []) 1
      ≡ ok (some (4 % 2 ^ 32), filled))
    × (length filled ≡ 4)
    × ((i : ℕ)
        → get_elem? filled i ≡ (
            if ltb (1 + i) 4 && ltb i 4
            then get_elem? (5 ∷ 6 ∷ 7 ∷ 8 ∷ []) (1 + i)
            else get_elem? (0 ∷ 0 ∷ 0 ∷ 0 ∷ []) i))
host_read_example = host_read_bounds (5 ∷ 6 ∷ 7 ∷ 8 ∷ []) (0 ∷ 0 ∷ 0 ∷ 0 ∷ []) 1

-- The run itself, one with an offset past the end, and a slice past the end.
host_read_run :
    host_read (some (5 ∷ 6 ∷ 7 ∷ 8 ∷ [])) (0 ∷ 0 ∷ 0 ∷ 0 ∷ []) 1 ≡ ok (some 4, 6 ∷ 7 ∷ 8 ∷ 0 ∷ [])
unfolding host_read slice_from slice_to copy_from_slice copy_into
host_read_run = refl

host_read_past : host_read (some (5 ∷ 6 ∷ [])) (1 ∷ 2 ∷ []) 9 ≡ ok (some 2, 1 ∷ 2 ∷ [])
unfolding host_read slice_from slice_to copy_from_slice copy_into
host_read_past = refl

slice_past : slice_from (5 ∷ 6 ∷ []) 9 ≡ panic
unfolding slice_from
slice_past = refl
