-- ===== src/Noise/Symmetric/Total.antt =====
-- Over primitives that keep their promises, the symmetric state never fails, and what one side encrypts
-- the other decrypts.
use httppooler.Base.{
  ℕ, ◌+◌, ◌*◌, ◌≤◌, ◌≡◌, refl, some, [], length, take, drop, arith, length-take, length-drop, inl,
  inr,
}
use httppooler.Base.Bytes.{Bytes}
use httppooler.Noise.Cipher.{IsAead, seal_lem, max_plaintext_size}
use httppooler.Noise.Suite.{Suite, IsSuite}
use httppooler.Noise.Symmetric.{
  Tried, CipherState, Symmetric, keys_of, mix_hash, hkdf_expand, new_cipher_state, mix_key,
  mix_key_and_hash, sealed, encrypt_and_hash, decrypt_and_hash, split,
}

-- A fresh key, over a lawful AEAD.
abbrev pub IsFresh : CipherState → Type 0
IsFresh c = IsAead c.aead × (c.nonce ≡ 0)

abbrev pub IsKeyed : Symmetric → Type 0
IsKeyed s = (c : CipherState) × (s.cipher ≡ some c) × IsFresh c

module _ (u : Suite) (v : IsSuite u) where
  pub hkdf_expand-total :
      (ck ikm : Bytes) (n : ℕ)
      → n * 32 ≤ 8160
      → (stream : Bytes) × (hkdf_expand u ck ikm n ≡ Tried.got (keys_of n stream))
        × (length stream ≡ n * 32)
  unfolding hkdf_expand keys_of
  hkdf_expand-total ck ikm n h =
      let (temp, e) = v.extracts ikm ck in
      let (stream, f, l) = v.expands temp (n * 32) h in (stream, rw (hkdf_expand, e, f), l)

  pub new_cipher_state-total :
      (key : Bytes)
      → length key ≡ 32
      → (c : CipherState) × (new_cipher_state u key ≡ Tried.got c) × IsFresh c
  unfolding new_cipher_state
  new_cipher_state-total key h =
      let (a, e, w) = v.keyed key h in
      (record { aead = a; nonce = 0 }, rw (new_cipher_state, e), (w, refl))

  pub mix_key-total :
      (ikm : Bytes) (s : Symmetric)
      → (s' : Symmetric) × (mix_key u ikm s ≡ Tried.got s') × IsKeyed s'
  unfolding mix_key keys_of new_cipher_state
  mix_key-total ikm s =
      let (stream, e, l) = hkdf_expand-total s.ck ikm 2 (omega arith) in
      let second = take 32 (drop 32 stream) in
      let size : length second ≡ 32 =
        omega (arith, length-take 32 (drop 32 stream), length-drop 32 stream, l) in
      let (c, k, fresh) = new_cipher_state-total second size in
      (
        record s { ck = take 32 stream; cipher = some c },
        rw (mix_key, e, keys_of, k),
        (c, refl, fresh),
      )

  pub mix_key_and_hash-total :
      (ikm : Bytes) (s : Symmetric)
      → (s' : Symmetric) × (mix_key_and_hash u ikm s ≡ Tried.got s') × IsKeyed s'
  unfolding mix_key_and_hash mix_hash keys_of new_cipher_state
  mix_key_and_hash-total ikm s =
      let (stream, e, l) = hkdf_expand-total s.ck ikm 3 (omega arith) in
      let rest = drop 32 (drop 32 stream) in
      let size : length (take 32 rest) ≡ 32 =
        omega
          (arith, length-take 32 rest, length-drop 32 (drop 32 stream), length-drop 32 stream, l) in
      let (c, k, fresh) = new_cipher_state-total (take 32 rest) size in
      (
        record (mix_hash u (take 32 (drop 32 stream)) s) { ck = take 32 stream; cipher = some c },
        rw (mix_key_and_hash, e, keys_of, k),
        (c, refl, fresh),
      )

  pub split-total :
      (s : Symmetric)
      → (first : CipherState) × (second : CipherState) × (split u s ≡ Tried.got (first, second))
        × IsFresh first
        × IsFresh second
  unfolding split keys_of new_cipher_state
  split-total s =
      let (stream, e, l) = hkdf_expand-total s.ck [] 2 (omega arith) in
      let tail = drop 32 stream in
      let size : length (take 32 tail) ≡ 32 =
        omega (arith, length-take 32 tail, length-drop 32 stream, l) in
      let (a, ka, fa) =
        new_cipher_state-total (take 32 stream) (omega (arith, length-take 32 stream, l)) in
      let (b, kb, fb) = new_cipher_state-total (take 32 tail) size in
      (a, b, rw (split, e, keys_of, ka, kb), fa, fb)

  -- One side encrypts a payload of a handshake, and the other, in the same state, decrypts it: they end
  -- in the same state.
  pub encrypt_decrypt :
      (payload : Bytes) (s : Symmetric)
      → IsKeyed s
      → length payload ≤ max_plaintext_size
      → (ct : Bytes) × (s' : Symmetric) × (length ct ≡ length payload + 16)
        × (encrypt_and_hash u payload s ≡ Tried.got (ct, s'))
        × (decrypt_and_hash u ct s ≡ Tried.got (payload, s'))
  unfolding encrypt_and_hash mix_hash sealed decrypt_and_hash
  encrypt_decrypt payload s (c, k, (w, zero_nonce)) fits =
      elim (seal_lem c.aead s.h payload c.nonce w (omega (arith, zero_nonce))) [
        | inl ((more, ct, l, e, d), small) ↦ (
          ct,
          mix_hash u ct (record s { cipher = some (record c { nonce = c.nonce + 1 }) }),
          l,
          rw (encrypt_and_hash, k, e, sealed),
          rw (decrypt_and_hash, k, d, sealed),
        )
        | inr (x, e, bad) ↦ absurd (ground (arith, bad, fits, zero_nonce))
      ]
