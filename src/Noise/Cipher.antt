-- ===== src/Noise/Cipher.antt =====
-- state.go: `CipherState`, the counter of one direction, over any AEAD.
use httppooler.Base.{
  ℕ, ◌+◌, ◌%◌, ◌^◌, ◌<◌, ◌≡◌, ◌||◌, false, Option, none, some, [], ◌∷◌, ◌++◌, length, ltb, ◌==◌,
  if◌then◌else◌, arith, Bool-cases, ◌≤◌, ◌⊎◌, inl, inr,
}
use httppooler.Base.Bytes.{Bytes, to_le}
use httppooler.Base.Result.{Answer, ok, err}

-- golang.org/x/crypto/chacha20poly1305 under one key: `seal` and `open_sealed` take the nonce, the text and
-- the associated data.
pub record Aead : Type 0 where
  pub seal : Bytes → Bytes → Bytes → Bytes
  pub open_sealed : Bytes → Bytes → Bytes → Option Bytes

-- What its documentation promises: a sealed text is 16 bytes longer, and opens to what was sealed.
pub record IsAead (a : Aead) : Type 0 where
  pub longer : (n p ad : Bytes) → length (a.seal n p ad) ≡ length p + 16
  pub opens : (n p ad : Bytes) → a.open_sealed n (a.seal n p ad) ad ≡ some p

pub data CipherError : Type 0 where
  exhausted : CipherError
  plaintext_too_long bad_size : (size : ℕ) → CipherError
  not_authentic : (nonce : ℕ) → CipherError

abbrev pub tag_size : ℕ
tag_size = 16

abbrev pub max_message_size : ℕ
max_message_size = 65535

abbrev pub max_plaintext_size : ℕ
max_plaintext_size = 65519

abbrev pub nonce_reserved : ℕ
nonce_reserved = 18446744073709551615

unfoldable pub nonce_bytes : ℕ → Bytes
nonce_bytes nonce = 0 ∷ 0 ∷ 0 ∷ 0 ∷ to_le 8 nonce

module _ (a : Aead) where
  -- The state is the counter.
  unfoldable pub seal : Bytes → Bytes → Bytes → ℕ → Answer CipherError Bytes × ℕ
  seal out ad plaintext nonce =
      if nonce == nonce_reserved
      then (err CipherError.exhausted, nonce)
      else if ltb max_plaintext_size (length plaintext)
      then (err (CipherError.plaintext_too_long (length plaintext)), nonce)
      else (ok (out ++ a.seal (nonce_bytes nonce) plaintext ad), (nonce + 1) % 2 ^ 64)

  -- `open`, a reserved word here.
  unfoldable pub open_sealed : Bytes → Bytes → Bytes → ℕ → Answer CipherError Bytes × ℕ
  open_sealed out ad ciphertext nonce =
      if nonce == nonce_reserved
      then (err CipherError.exhausted, nonce)
      else if ltb (length ciphertext) tag_size || ltb max_message_size (length ciphertext)
      then (err (CipherError.bad_size (length ciphertext)), nonce)
      else elim (a.open_sealed (nonce_bytes nonce) ciphertext ad) [
        | none ↦ (err (CipherError.not_authentic nonce), nonce)
        | some plaintext ↦ (ok (out ++ plaintext), (nonce + 1) % 2 ^ 64)
      ]

  -- What `seal` gives at the counter `nonce`, which `open_sealed` undoes there.
  abbrev pub Sealed : Bytes → Bytes → ℕ → Type 0
  Sealed ad plaintext nonce =
      (nonce + 1 < 2 ^ 64)
      × (bytes : Bytes) × (length bytes ≡ length plaintext + tag_size)
      × (seal [] ad plaintext nonce ≡ (ok bytes, nonce + 1))
      × (open_sealed [] ad bytes nonce ≡ (ok plaintext, nonce + 1))

  -- Over an AEAD that keeps its promises, `seal` at any 64-bit counter either takes a plaintext of at
  -- most 65519 bytes, adds a tag of 16, and moves the counter on by one without a wrap, and `open_sealed` at the same
  -- counter gives the plaintext back and moves on alike; or it refuses and keeps the counter, and then
  -- the counter is the reserved one or the plaintext is longer.
  pub seal_lem :
      (ad plaintext : Bytes) (nonce : ℕ)
      → IsAead a
      → nonce < 2 ^ 64
      → (Sealed ad plaintext nonce × (length plaintext ≤ max_plaintext_size))
        ⊎ ((e : CipherError) × (seal [] ad plaintext nonce ≡ (err e, nonce))
            × ((nonce ≡ nonce_reserved) ⊎ (max_plaintext_size < length plaintext)))
  unfolding seal open_sealed
  seal_lem ad plaintext nonce v h = elim (Bool-cases (nonce == nonce_reserved)) [
    | inl last ↦ inr (CipherError.exhausted, rw last, inl (ground (arith, last)))
    | inr more ↦ elim (Bool-cases (ltb max_plaintext_size (length plaintext))) [
      | inl long ↦ inr (
        CipherError.plaintext_too_long (length plaintext),
        rw (more, long),
        inr (ground (arith, long)),
      )
      | inr fits ↦
          let ct = a.seal (nonce_bytes nonce) plaintext ad in
          let next : (nonce + 1) % 2 ^ 64 ≡ nonce + 1 = ground (arith, more, h) in
          let size : (ltb (length ct) tag_size || ltb max_message_size (length ct)) ≡ false =
            ground (arith, v.longer (nonce_bytes nonce) plaintext ad, fits) in
          let opened : open_sealed [] ad ct nonce ≡ (ok plaintext, nonce + 1) =
            rw (open_sealed, more, size, v.opens (nonce_bytes nonce) plaintext ad, next) in
          inl (
            (
              ground (arith, more, h),
              ct,
              v.longer (nonce_bytes nonce) plaintext ad,
              rw (more, fits, next),
              opened,
            ),
            ground (arith, fits),
          )
    ]
  ]
