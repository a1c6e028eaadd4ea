-- ===== src/Executive/Blocks.antt =====
-- Authoring and import of blocks (tuxedo-core/src/executive.rs): `open_block`, `apply_extrinsic`,
-- `close_block` and `execute_block`.
use tuxedo.Base.{
  Bytes, Bool, false, ◌&&◌, ◌||◌, not, List, [], ◌∷◌, ◌++◌, map, none, some, ◌==◌, Outcome, ok, err,
  panic, ◌>>=◌, ◌>>◌, expect, assert, map_err, if◌then◌else◌,
}
use tuxedo.Codec.{read}
use tuxedo.Types.{Transaction, InvalidTransaction, to_invalid}
use tuxedo.Executive.Runtime.{
  Runtime, Header, Block, header_key, height_key, extrinsic_key, encode_tx,
}
use tuxedo.Executive.Application.{apply_tuxedo_transaction}

module _ {S V R C E : Type 0} (rt : Runtime S V R C E) where
  -- `open_block`
  unfoldable pub open_block : S → Header → S
  open_block s header =
      rt.storage.set (rt.storage.set s header_key (rt.headers.encode header)) height_key
        (rt.block_numbers.encode header.number)

  -- The list under `EXTRINSIC_KEY`, or an empty one.
  unfoldable pub stored_extrinsics : S → List Bytes
  stored_extrinsics s = elim (rt.storage.get s extrinsic_key) [
    | none ↦ []
    | some d ↦ elim (read rt.extrinsics d) [ none ↦ [] | some xs ↦ xs ]
  ]

  unfoldable pub note_extrinsic : S → Transaction V C → S
  note_extrinsic s tx =
      rt.storage.set s extrinsic_key
        (rt.extrinsics.encode (stored_extrinsics s ++ encode_tx rt tx ∷ []))

  -- `apply_extrinsic`: the extrinsic is noted before it is applied, also when it then fails. The
  -- second storage is the one that a failure leaves.
  unfoldable pub apply_extrinsic : S → Transaction V C → Outcome InvalidTransaction S × S
  apply_extrinsic s tx =
      let noted = note_extrinsic s tx in
      (map_err to_invalid (apply_tuxedo_transaction rt noted tx), noted)

  -- `close_block`
  unfoldable pub close_block : S → Outcome (Unit {0}) (Header × S)
  close_block s = do
    d ← expect (rt.storage.get s header_key)
    header ← expect (read rt.headers d)
    let s1 = rt.storage.clear s header_key
    let extrinsics = stored_extrinsics s1
    let s2 = rt.storage.clear s1 extrinsic_key
    ok (
      record header {
        extrinsics_root = rt.ordered_trie_root extrinsics;
        state_root = rt.storage.root s2;
      },
      s2,
    )

  -- One round of the loop of `execute_block`, with the flag `finished_with_opening_inherents`.
  -- An error of the transaction is a panic.
  unfoldable pub execute_extrinsic : S → Bool → Transaction V C → Outcome (Unit {0}) (S × Bool)
  execute_extrinsic s finished tx =
      let inherent = rt.checker.is_inherent tx.checker in
      if inherent && finished then panic else elim (apply_tuxedo_transaction rt s tx) [
        | ok t ↦ ok (t, finished || not inherent)
        | err e ↦ panic
        | panic ↦ panic
      ]

  unfoldable pub execute_extrinsics : S → Bool → List (Transaction V C) → Outcome (Unit {0}) S
  execute_extrinsics s finished [] = ok s
  execute_extrinsics s finished (tx ∷ txs) =
      execute_extrinsic s finished tx >>= λ (r : S × Bool). execute_extrinsics r.0 r.1 txs

  -- `execute_block`
  unfoldable pub execute_block : S → Block V C → Outcome (Unit {0}) S
  execute_block s block = do
    let s1 = open_block s block.header
    s2 ← execute_extrinsics s1 false block.extrinsics
    let s3 = rt.storage.clear s2 header_key
    assert (block.header.state_root == rt.storage.root s3)
    assert
        (block.header.extrinsics_root == rt.ordered_trie_root (map (encode_tx rt) block.extrinsics))
    ok s3
