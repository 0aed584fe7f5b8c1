-- ===== src/Noise/Symmetric.antt =====
-- state.go: the symmetric state of a handshake.
pub mod Total
use httppooler.Base.{ℕ, zero, suc, ◌*◌, Option, none, some, List, [], ◌∷◌, ◌++◌, take, drop}
use httppooler.Base.Bytes.{Bytes}
use httppooler.Noise.Cipher
use httppooler.Noise.Cipher.{Aead, CipherError}
use httppooler.Noise.Suite.{Suite}

-- The errors of the package, one constructor for each.
pub data NoiseError : Type 0 where
  cipher : CipherError → NoiseError
  extracting expanding bad_key unkeyed : NoiseError
  psk_size message_size : (size : ℕ) → NoiseError
  random bad_public no_key agreement : NoiseError
  failed complete not_complete no_turn : NoiseError

-- What a method returns: its value, or its error.
pub data Tried (A : Type 0) : Type 0 where
  got : A → Tried A
  lost : NoiseError → Tried A

abbrev pub also : {A B : Type 0} → Tried A → (A → Tried B) → Tried B
also (Tried.got a) f = f a
also (Tried.lost e) f = Tried.lost e

abbrev pub or_lost : {A : Type 0} → NoiseError → Option A → Tried A
or_lost e none = Tried.lost e
or_lost e (some a) = Tried.got a

pub record CipherState : Type 0 where
  pub aead : Aead
  pub nonce : ℕ

pub record Symmetric : Type 0 where
  pub h : Bytes
  pub ck : Bytes
  pub cipher : Option CipherState

abbrev pub key_size : ℕ
key_size = 32

-- "Noise_NNpsk0_25519_ChaChaPoly_SHA256".
abbrev pub protocol_name : Bytes
protocol_name =
    b'N' ∷ b'o' ∷ b'i' ∷ b's' ∷ b'e' ∷ b'_' ∷ b'N' ∷ b'N' ∷ b'p' ∷ b's' ∷ b'k' ∷ b'0' ∷ b'_' ∷ b'2'
    ∷ b'5' ∷ b'5' ∷ b'1' ∷ b'9' ∷ b'_' ∷ b'C' ∷ b'h' ∷ b'a' ∷ b'C' ∷ b'h' ∷ b'a' ∷ b'P' ∷ b'o'
    ∷ b'l' ∷ b'y' ∷ b'_' ∷ b'S' ∷ b'H' ∷ b'A' ∷ b'2' ∷ b'5' ∷ b'6' ∷ []

-- The loop that cuts the stream into keys.
unfoldable pub keys_of : ℕ → Bytes → List Bytes
keys_of zero stream = []
keys_of (suc n) stream = take key_size stream ∷ keys_of n (drop key_size stream)

-- `out[n]`, within its bounds.
abbrev pub key_at : ℕ → List Bytes → Bytes
key_at n [] = []
key_at zero (k ∷ ks) = k
key_at (suc n) (k ∷ ks) = key_at n ks

module _ (u : Suite) where
  unfoldable pub mix_hash : Bytes → Symmetric → Symmetric
  mix_hash text s = record s { h = u.sha256 (s.h ++ text) }

  unfoldable pub new_symmetric : Bytes → Symmetric
  new_symmetric prologue =
      let h = u.sha256 protocol_name in mix_hash prologue (record { h = h; ck = h; cipher = none })

  unfoldable pub hkdf_expand : Bytes → Bytes → ℕ → Tried (List Bytes)
  hkdf_expand ck ikm outputs = also (or_lost NoiseError.extracting (u.extract ikm ck)) (λ temp.
      also (or_lost NoiseError.expanding (u.expand temp (outputs * key_size)))
        (λ stream. Tried.got (keys_of outputs stream)))

  unfoldable pub new_cipher_state : Bytes → Tried CipherState
  new_cipher_state key =
      also (or_lost NoiseError.bad_key (u.new_aead key))
        (λ a. Tried.got (record { aead = a; nonce = 0 }))

  unfoldable pub mix_key : Bytes → Symmetric → Tried Symmetric
  mix_key ikm s = also (hkdf_expand s.ck ikm 2) (λ out.
      also (new_cipher_state (key_at 1 out))
        (λ c. Tried.got (record s { ck = key_at 0 out; cipher = some c })))

  unfoldable pub mix_key_and_hash : Bytes → Symmetric → Tried Symmetric
  mix_key_and_hash ikm s = also (hkdf_expand s.ck ikm 3) (λ out.
      also (new_cipher_state (key_at 2 out)) (λ c.
        Tried.got (record (mix_hash (key_at 1 out) s) { ck = key_at 0 out; cipher = some c })))

  -- What `seal` or `open` returned, with the state after it.
  unfoldable pub sealed :
      CipherState → Symmetric → Option Bytes → Option CipherError → ℕ → Tried (Bytes × Symmetric)
  sealed c s (some bytes) e nonce =
      Tried.got (bytes, record s { cipher = some (record c { nonce = nonce }) })
  sealed c s none (some e) nonce = Tried.lost (NoiseError.cipher e)
  -- Neither of the two returns neither.
  sealed c s none none nonce = Tried.lost NoiseError.unkeyed

  unfoldable pub encrypt_and_hash : Bytes → Symmetric → Tried (Bytes × Symmetric)
  encrypt_and_hash plaintext s = also (or_lost NoiseError.unkeyed s.cipher) (λ c.
      let (r, nonce) = Cipher.seal c.aead [] s.h plaintext c.nonce in
      also (sealed c s r.value r.error nonce) (λ done. Tried.got (done.0, mix_hash done.0 done.1)))

  unfoldable pub decrypt_and_hash : Bytes → Symmetric → Tried (Bytes × Symmetric)
  decrypt_and_hash ciphertext s = also (or_lost NoiseError.unkeyed s.cipher) (λ c.
      let (r, nonce) = Cipher.open_sealed c.aead [] s.h ciphertext c.nonce in
      also (sealed c s r.value r.error nonce)
        (λ done. Tried.got (done.0, mix_hash ciphertext done.1)))

  unfoldable pub split : Symmetric → Tried (CipherState × CipherState)
  split s = also (hkdf_expand s.ck [] 2) (λ out.
      also (new_cipher_state (key_at 0 out))
        (λ first. also (new_cipher_state (key_at 1 out)) (λ second. Tried.got (first, second))))
