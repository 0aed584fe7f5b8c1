-- ===== src/Noise/Suite.antt =====
-- The primitives under the noise package: crypto/sha256, crypto/hkdf, crypto/ecdh and
-- golang.org/x/crypto/chacha20poly1305. A key object is the bytes that it was made from.
use httppooler.Base.{ℕ, ◌≤◌, ◌≡◌, Option, some, length}
use httppooler.Base.Bytes.{Bytes}
use httppooler.Noise.Cipher.{Aead, IsAead}

pub record Suite : Type 0 where
  pub sha256 : Bytes → Bytes
  pub extract : (ikm salt : Bytes) → Option Bytes
  pub expand : (key : Bytes) → (size : ℕ) → Option Bytes
  pub new_aead : (key : Bytes) → Option Aead
  pub new_private : Bytes → Option Bytes
  pub new_public : Bytes → Option Bytes
  pub public : (private : Bytes) → Bytes
  pub ecdh : (private public : Bytes) → Option Bytes

-- What their documentation promises: HKDF gives the bytes that were asked for, as far as 255 hashes; a
-- key of 32 bytes is a key; the public key of a private key is one, and the two sides of a key
-- agreement get the same secret.
pub record IsSuite (u : Suite) : Type 0 where
  pub extracts : (ikm salt : Bytes) → (key : Bytes) × (u.extract ikm salt ≡ some key)
  pub expands :
      (key : Bytes) (size : ℕ)
      → size ≤ 8160
      → (out : Bytes) × (u.expand key size ≡ some out) × (length out ≡ size)
  pub keyed : (key : Bytes) → length key ≡ 32 → (a : Aead) × (u.new_aead key ≡ some a) × IsAead a
  pub privates : (key : Bytes) → length key ≡ 32 → (p : Bytes) × (u.new_private key ≡ some p)
  pub sizes : (p : Bytes) → length (u.public p) ≡ 32
  pub publics : (p : Bytes) → u.new_public (u.public p) ≡ some (u.public p)
  pub agrees :
      (p q : Bytes)
      → (secret : Bytes) × (u.ecdh p (u.public q) ≡ some secret)
        × (u.ecdh q (u.public p) ≡ some secret)
