-- ===== src/Wire/Record/Frames.antt =====
-- The bytes of a record, and of the records of a direction.
use httppooler.Base.{◌+◌, ◌-◌, ◌%◌, ◌^◌, ◌≤◌, ◌≡◌, refl, ap, List, [], ◌∷◌, ◌++◌, length, arith}
use httppooler.Base.Bytes.{Bytes, to_le}
use httppooler.Noise.Cipher.{IsAead, max_plaintext_size, nonce_bytes}
use httppooler.Noise.Symmetric.{CipherState}
use httppooler.Noise.Transport.{advance, next_text}
use httppooler.Wire.Record.{with_length}

abbrev pub frame : CipherState → Bytes → Bytes
frame c p = to_le 2 (length (next_text c p)) ++ next_text c p

abbrev pub frames : CipherState → List Bytes → List Bytes
frames c [] = []
frames c (p ∷ ps) = frame c p ∷ frames (advance c) ps

abbrev pub passed : CipherState → List Bytes → CipherState
passed c [] = c
passed c (p ∷ ps) = passed (advance c) ps

-- What one record carries.
abbrev pub IsPart : Bytes → Type 0
IsPart p = (1 ≤ length p) × (length p ≤ max_plaintext_size)

abbrev pub flat : List Bytes → Bytes
flat [] = []
flat (b ∷ bs) = b ++ flat bs

pub with_length-frame :
    (c : CipherState) (p : Bytes)
    → IsAead c.aead
    → length p ≤ max_plaintext_size
    → with_length (0 ∷ 0 ∷ next_text c p) ≡ frame c p
unfolding with_length
with_length-frame c p v h =
    let size : (length (0 ∷ 0 ∷ next_text c p) - 2) % 2 ^ 16 ≡ length (next_text c p) =
      omega (arith, v.longer (nonce_bytes c.nonce) p [], h) in
    ap (λ n. to_le 2 n ++ next_text c p) size

pub frames-append :
    (c : CipherState) (ps qs : List Bytes)
    → frames c (ps ++ qs) ≡ frames c ps ++ frames (passed c ps) qs
frames-append c [] qs = refl
frames-append c (p ∷ ps) qs = ap (λ fs. frame c p ∷ fs) (frames-append (advance c) ps qs)

pub passed-nonce : (c : CipherState) (ps : List Bytes) → (passed c ps).nonce ≡ c.nonce + length ps
passed-nonce c [] = omega arith
passed-nonce c (p ∷ ps) = omega (arith, passed-nonce (advance c) ps)
