-- ===== src/Noise/Transport.antt =====
-- state.go: `Encrypt` and `Decrypt`, which the records use.
use httppooler.Base.{ℕ, ◌+◌, ◌<◌, ◌≤◌, ◌≡◌, [], ◌++◌, length, arith}
use httppooler.Base.Bytes.{Bytes}
use httppooler.Base.Result.{Answer, ok}
use httppooler.Noise.Cipher.{
  IsAead, CipherError, seal, open_sealed, max_plaintext_size, nonce_reserved, nonce_bytes,
}
use httppooler.Noise.Symmetric.{CipherState}

unfoldable pub encrypt : Bytes → Bytes → CipherState → Answer CipherError Bytes × CipherState
encrypt out plaintext c =
    let (r, nonce) = seal c.aead out [] plaintext c.nonce in (r, record c { nonce = nonce })

unfoldable pub decrypt : Bytes → Bytes → CipherState → Answer CipherError Bytes × CipherState
decrypt out ciphertext c =
    let (r, nonce) = open_sealed c.aead out [] ciphertext c.nonce in (r, record c { nonce = nonce })

-- `Nonce`.
unfoldable pub nonce_of : CipherState → ℕ
nonce_of c = c.nonce

abbrev pub advance : CipherState → CipherState
advance c = record c { nonce = c.nonce + 1 }

-- The ciphertext of the next message.
abbrev pub next_text : CipherState → Bytes → Bytes
next_text c p = c.aead.seal (nonce_bytes c.nonce) p []

pub encrypt-next :
    (out p : Bytes) (c : CipherState)
    → c.nonce < nonce_reserved
    → length p ≤ max_plaintext_size
    → encrypt out p c ≡ (ok (out ++ next_text c p), advance c)
unfolding encrypt seal
encrypt-next out p c h l = ground (arith, h, l)

pub decrypt-next :
    (p : Bytes) (c : CipherState)
    → IsAead c.aead
    → c.nonce < nonce_reserved
    → length p ≤ max_plaintext_size
    → decrypt [] (next_text c p) c ≡ (ok p, advance c)
unfolding decrypt open_sealed
decrypt-next p c v h l =
    ground (arith, h, l, v.opens (nonce_bytes c.nonce) p [], v.longer (nonce_bytes c.nonce) p [])
