-- ===== src/Host.antt =====
-- Substrate's host functions (sp_io, sp_core: third party) that the runtime calls.
use tuxedo.Base.{Bytes, ℕ, ◌≡◌, Option, none, some, Bool, if◌then◌else◌, bytes_eq}

-- `sp_io::storage`: a map from keys to values. `root` depends on the contents alone.
pub record StorageApi (S : Type 0) : Type 0 where
  pub get : S → Bytes → Option Bytes
  pub set : S → Bytes → Bytes → S
  pub clear : S → Bytes → S
  pub root : S → ℕ
  pub get-set :
      (s : S) (k v j : Bytes) → get (set s k v) j ≡ (if bytes_eq k j then some v else get s j)
  pub get-clear :
      (s : S) (k j : Bytes) → get (clear s k) j ≡ (if bytes_eq k j then none else get s j)
  pub root_ext : (s t : S) → ((k : Bytes) → get s k ≡ get t k) → root s ≡ root t

-- BlakeTwo256 and sr25519 as host functions. A public key is an `H256`; `public_bytes` are the 32
-- bytes of one.
pub record Crypto : Type 0 where
  pub blake2_256 : Bytes → ℕ
  pub public_bytes : ℕ → Bytes
  pub sr25519_verify : Bytes → Bytes → ℕ → Bool
