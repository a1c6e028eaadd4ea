-- ===== src/Verifier/Htlc.antt =====
-- tuxedo-core/src/verifier/htlc.rs: hash locks, time locks and hash time lock contracts.
use tuxedo.Base.{ℕ, Bytes, Bool, true, ◌&&◌, ◌≡◌, ◌↔◌, ◌≤◌, Option, some, arith, ◌==◌, leb}
use tuxedo.Host.{Crypto}

pub record TimeLock : Type 0 where
  pub unlock_block_height : ℕ

-- `TimeLock::verify`
unfoldable pub verify_time_lock : TimeLock → Bytes → ℕ → Unit {0} → Option Bool
verify_time_lock v simplified_tx block_height redeemer =
    some (leb v.unlock_block_height block_height)

pub record BlakeTwoHashLock : Type 0 where
  pub hash_lock : ℕ

pub record HashTimeLockContract : Type 0 where
  pub hash_lock : ℕ
  pub recipient_pubkey : ℕ
  pub claim_period_end : ℕ
  pub refunder_pubkey : ℕ

pub data HtlcSpendPath : Type 0 where
  claim : (secret signature : Bytes) → HtlcSpendPath
  refund : (signature : Bytes) → HtlcSpendPath

module _ (crypto : Crypto) where
  -- `BlakeTwoHashLock::new_from_secret`
  unfoldable pub new_from_secret : Bytes → BlakeTwoHashLock
  new_from_secret secret = record { hash_lock = crypto.blake2_256 secret }

  -- `BlakeTwoHashLock::verify`
  unfoldable pub verify_hash_lock : BlakeTwoHashLock → Bytes → ℕ → Bytes → Option Bool
  verify_hash_lock v simplified_tx block_height secret =
      some (crypto.blake2_256 secret == v.hash_lock)

  -- `HashTimeLockContract::verify`
  unfoldable pub verify_htlc : HashTimeLockContract → Bytes → ℕ → HtlcSpendPath → Option Bool
  verify_htlc v simplified_tx block_height (HtlcSpendPath.claim secret signature) = some (
      crypto.blake2_256 secret == v.hash_lock
      && crypto.sr25519_verify signature simplified_tx v.recipient_pubkey)
  verify_htlc v simplified_tx block_height (HtlcSpendPath.refund signature) = some (
      leb v.claim_period_end block_height
      && crypto.sr25519_verify signature simplified_tx v.refunder_pubkey)

  -- Who may take the output of a contract: the recipient with the secret at any height, and the
  -- refunder from the end of the claim period on.
  abbrev pub MaySpend : HashTimeLockContract → Bytes → ℕ → HtlcSpendPath → Type 0
  MaySpend v simplified_tx height (HtlcSpendPath.claim secret signature) =
      (verify_hash_lock (record { hash_lock = v.hash_lock }) simplified_tx height secret
        ≡ some true)
      × (crypto.sr25519_verify signature simplified_tx v.recipient_pubkey ≡ true)
  MaySpend v simplified_tx height (HtlcSpendPath.refund signature) =
      (verify_time_lock (record { unlock_block_height = v.claim_period_end }) simplified_tx height
          tt
        ≡ some true)
      × (crypto.sr25519_verify signature simplified_tx v.refunder_pubkey ≡ true)

  -- A spend path opens a hash time lock contract exactly if it opens the hash lock and has the
  -- recipient's signature, or opens the time lock at the end of the claim period and has the
  -- refunder's signature.
  pub verify_htlc_iff :
      (v : HashTimeLockContract) (simplified_tx : Bytes) (height : ℕ) (path : HtlcSpendPath)
      → (verify_htlc v simplified_tx height path ≡ some true) ↔ MaySpend v simplified_tx height path
  unfolding verify_htlc verify_hash_lock verify_time_lock
  verify_htlc_iff v tx height (HtlcSpendPath.claim secret signature) =
      (λ h. ground arith, λ h. ground arith)
  verify_htlc_iff v tx height (HtlcSpendPath.refund signature) =
      (λ h. ground arith, λ h. ground arith)

  -- A spend path that opens a contract at one height opens it at every later height.
  verify_htlc_mono :
      (v : HashTimeLockContract) (simplified_tx : Bytes) (height later : ℕ) (path : HtlcSpendPath)
      → height ≤ later
      → verify_htlc v simplified_tx height path ≡ some true
      → verify_htlc v simplified_tx later path ≡ some true
  unfolding verify_htlc
  verify_htlc_mono v tx height later (HtlcSpendPath.claim secret signature) le h = h
  verify_htlc_mono v tx height later (HtlcSpendPath.refund signature) le h = ground arith

  -- A hash lock made from a secret opens to that secret, and to nothing of another hash.
  pub verify-new_from_secret :
      (secret guess simplified_tx : Bytes) (height : ℕ)
      → (verify_hash_lock (new_from_secret secret) simplified_tx height guess ≡ some true)
        ↔ (crypto.blake2_256 guess ≡ crypto.blake2_256 secret)
  unfolding verify_hash_lock new_from_secret
  verify-new_from_secret secret guess tx height = (λ h. ground arith, λ h. ground arith)
