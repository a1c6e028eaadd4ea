-- ===== src/Samples.antt =====
-- A small host and the codecs of the types, for the concrete runs of the tests.
pub mod Codecs
pub mod Chain
pub mod Trees
pub mod Pieces
pub mod Outer
use tuxedo.Base.{
  ℕ, Bytes, List, [], ◌∷◌, ◌++◌, Option, none, some, Bool, true, false, ◌==◌, length, if◌then◌else◌,
  bytes_eq, ◌≡◌, refl, ap,
}
use tuxedo.Codec.{Codec}
use tuxedo.Host.{StorageApi, Crypto}
use tuxedo.DynamicTyping.{DynamicallyTypedData, UtxoData}
use Codecs.{numbers, bytes, pairs, through}

-- The storage is a function, and its root is what it holds for the block height.
abbrev pub Storage : Type 0
Storage = Bytes → Option Bytes

abbrev entry : Option Bytes → ℕ
entry none = 0
entry (some []) = 1
entry (some (b ∷ bs)) = b

abbrev pub empty : Storage
empty k = none

abbrev pub host : StorageApi Storage
host = record {
  get = λ s k. s k;
  set = λ s k v j. if bytes_eq k j then some v else s j;
  clear = λ s k j. if bytes_eq k j then none else s j;
  root = λ s. entry (s (b'h' ∷ b'e' ∷ b'i' ∷ b'g' ∷ b'h' ∷ b't' ∷ []));
  get-set = λ s k v j. refl;
  get-clear = λ s k j. refl;
  root_ext = λ s t e. ap entry (e _);
}

-- Some hash of byte strings.
abbrev pub hash : Bytes → ℕ
hash bs = length bs

-- A signature is good if it is the key.
abbrev pub is_key : Bytes → ℕ → Bool
is_key [] key = false
is_key (b ∷ bs) key = b == key

abbrev pub crypto : Crypto
crypto = record {
  blake2_256 = hash;
  public_bytes = λ key. key ∷ [];
  sr25519_verify = λ signature message key. is_key signature key;
}

abbrev pub data_codec : Codec DynamicallyTypedData
data_codec =
    through (pairs bytes bytes) (λ (d : DynamicallyTypedData). (d.bytes, d.type_id))
      (λ (p : Bytes × Bytes). record { bytes = p.0; type_id = p.1 })
      (λ (d : DynamicallyTypedData). refl)
