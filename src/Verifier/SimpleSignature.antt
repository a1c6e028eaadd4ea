-- ===== src/Verifier/SimpleSignature.antt =====
-- tuxedo-core/src/verifier/simple_signature.rs: one owner's signature.
use tuxedo.Base.{ℕ, Bytes, Bool, true, ◌&&◌, ◌≡◌, ◌↔◌, Option, some, arith, ◌==◌, ap}
use tuxedo.Host.{Crypto}

pub record Sr25519Signature : Type 0 where
  pub owner_pubkey : ℕ

pub record P2pkh : Type 0 where
  pub owner_pubkey_hash : ℕ

module _ (crypto : Crypto) where
  -- `Sr25519Signature::verify`; the redeemer is the signature.
  unfoldable pub verify_sr25519 : Sr25519Signature → Bytes → ℕ → Bytes → Option Bool
  verify_sr25519 v simplified_tx block_height sig =
      some (crypto.sr25519_verify sig simplified_tx v.owner_pubkey)

  -- `P2PKH::verify`; the redeemer is the public key and the signature.
  unfoldable pub verify_p2pkh : P2pkh → Bytes → ℕ → ℕ × Bytes → Option Bool
  verify_p2pkh v simplified_tx block_height (pubkey, signature) = some (
      crypto.blake2_256 (crypto.public_bytes pubkey) == v.owner_pubkey_hash
      && crypto.sr25519_verify signature simplified_tx pubkey)

  -- Where the owner's key is the only one with its hash, a redeemer opens the P2PKH output exactly
  -- if it names that key and its signature opens the output locked to the key itself.
  verify_p2pkh-iff-verify_sr25519 :
      (owner : ℕ) (simplified_tx : Bytes) (height pubkey : ℕ) (signature : Bytes)
      → (crypto.blake2_256 (crypto.public_bytes pubkey)
            ≡ crypto.blake2_256 (crypto.public_bytes owner)
          → pubkey ≡ owner)
      → (verify_p2pkh
            (record { owner_pubkey_hash = crypto.blake2_256 (crypto.public_bytes owner) })
            simplified_tx
            height
            (pubkey, signature)
          ≡ some true)
        ↔ ((pubkey ≡ owner)
            × (verify_sr25519 (record { owner_pubkey = owner }) simplified_tx height signature
                ≡ some true))
  unfolding verify_p2pkh verify_sr25519
  verify_p2pkh-iff-verify_sr25519 owner tx height pubkey signature only = (
    λ h.
        let same : pubkey ≡ owner = only (ground arith) in
        (same, ground (arith, ap (crypto.sr25519_verify signature tx) same)),
    λ h. ground (
      arith,
      ap (crypto.sr25519_verify signature tx) h.0,
      ap (λ k. crypto.blake2_256 (crypto.public_bytes k)) h.0,
    ),
  )
