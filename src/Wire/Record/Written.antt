-- ===== src/Wire/Record/Written.antt =====
-- What `Write` puts on the line.
use httppooler.Base.{
  ℕ, zero, suc, ◌+◌, ◌≤◌, ◌<◌, ◌≡◌, refl, sym, ap, ◌∙◌, subst, Option, none, List, [], ◌∷◌, ◌++◌,
  length, take, drop, ltb, ◌==◌, true, false, arith, All, append_assoc, append-nil, length-append,
  drop-append, take-append-drop, length-take, length-drop, Bool-cases, inl, inr,
}
use httppooler.Base.Bytes.{Bytes}
use httppooler.Base.Result.{ok}
use httppooler.Noise.Cipher.{IsAead, nonce_reserved}
use httppooler.Noise.Symmetric.{CipherState}
use httppooler.Noise.Transport.{advance, next_text, encrypt-next}
use httppooler.Wire.Error.{IoError}
use httppooler.Wire.Record.{
  RecordError, RecordWriter, Sent, send, with_length, max_record_plaintext, at_most, chunk_of,
  write_loop, write,
}
use httppooler.Wire.Record.Frames.{frame, frames, passed, IsPart, flat, with_length-frame}

-- The writer after the parts `ps`.
abbrev pub after : RecordWriter → List Bytes → RecordWriter
after w ps = record { cipher = passed w.cipher ps; sent = w.sent ++ frames w.cipher ps }

-- What a write of `p` from `w` comes to, over a line that takes everything.
pub record Written (p : Bytes) (w : RecordWriter) (r : (ℕ × Option RecordError) × RecordWriter)
    : Type 0 where
  pub parts : List Bytes
  pub whole : flat parts ≡ p
  pub sized : All IsPart parts
  pub few : length parts ≤ length p
  pub result : r.1 ≡ after w parts
  pub fine : r.0.1 ≡ none

at_most-length :
    (n : ℕ) (p : Bytes)
    → 1 ≤ n
    → 1 ≤ length p
    → (1 ≤ length (at_most n p)) × (length (at_most n p) ≤ n)
unfolding at_most
at_most-length n p one h = elim (Bool-cases (ltb n (length p))) [
  | inl more ↦ rw more (omega (arith, length-take n p, one, h), omega (arith, length-take n p))
  | inr all ↦ rw all (h, ground (arith, all))
]

at_most-rest : (n : ℕ) (p : Bytes) → at_most n p ++ drop (length (at_most n p)) p ≡ p
unfolding at_most
at_most-rest n p = elim (Bool-cases (ltb n (length p))) [
  | inl more ↦
      let size : length (take n p) ≡ n = ground (arith, more, length-take n p) in
      rw (more, size) (take-append-drop n p)
  | inr all ↦
      let none_left : drop (length p) p ≡ [] =
        ap (drop (length p)) (sym (append-nil p)) ∙ drop-append p [] in
      rw (all, none_left) (append-nil p)
]

chunk_of-IsPart : (p : Bytes) → 1 ≤ length p → IsPart (chunk_of p)
unfolding chunk_of
chunk_of-IsPart p h = at_most-length max_record_plaintext p (omega arith) h

chunk_of-rest : (p : Bytes) → chunk_of p ++ drop (length (chunk_of p)) p ≡ p
unfolding chunk_of
chunk_of-rest p = at_most-rest max_record_plaintext p

module _ (answer : ℕ → Option IoError) (quiet : (n : ℕ) → answer n ≡ none) where
  send-quiet :
      (rest : RecordWriter → Sent) (written : ℕ) (w : RecordWriter) (bytes : Bytes)
      (c : CipherState)
      → send answer rest written w (ok bytes, c)
        ≡ rest (record { cipher = c; sent = w.sent ++ with_length bytes ∷ [] })
  unfolding send
  send-quiet rest written w bytes c = rw (send, quiet)

  write_loop-step :
      (fuel : ℕ) (p : Bytes) (written : ℕ) (w : RecordWriter)
      → IsAead w.cipher.aead
      → w.cipher.nonce < nonce_reserved
      → (length p == 0) ≡ false
      → write_loop (suc fuel) answer p written w
        ≡ write_loop fuel answer
            (drop (length (chunk_of p)) p)
            (written + length (chunk_of p))
            (record {
              cipher = advance w.cipher;
              sent = w.sent ++ frame w.cipher (chunk_of p) ∷ [];
            })
  unfolding write_loop
  write_loop-step fuel p written w v n h =
      let part = chunk_of-IsPart p (ground (arith, h)) in
      let e = encrypt-next (0 ∷ 0 ∷ []) (chunk_of p) w.cipher n part.1 in
      let rest =
        write_loop fuel answer (drop (length (chunk_of p)) p) (written + length (chunk_of p)) in
      rw (write_loop, h) refl
      ∙ ap (send answer rest written w) e
      ∙ send-quiet rest written w (0 ∷ 0 ∷ next_text w.cipher (chunk_of p)) (advance w.cipher)
      ∙ ap (λ s. rest (record { cipher = advance w.cipher; sent = w.sent ++ s ∷ [] }))
          (with_length-frame w.cipher (chunk_of p) v part.1)

  write_loop-empty :
      (fuel : ℕ) (p : Bytes) (written : ℕ) (w : RecordWriter)
      → (length p == 0) ≡ true
      → write_loop (suc fuel) answer p written w ≡ ((written, none), w)
  unfolding write_loop
  write_loop-empty fuel p written w h = rw (write_loop, h)

  nothing : (w : RecordWriter) → w ≡ after w []
  nothing w = ap (λ s. record w { sent = s }) (sym (append-nil w.sent))

  longer :
      (w : RecordWriter) (p : Bytes) (ps : List Bytes)
      → after (record { cipher = advance w.cipher; sent = w.sent ++ frame w.cipher p ∷ [] }) ps
        ≡ after w (p ∷ ps)
  longer w p ps =
      ap (λ s. record { cipher = passed (advance w.cipher) ps; sent = s })
        (append_assoc w.sent (frame w.cipher p ∷ []) (frames (advance w.cipher) ps))

  pub write_loop-Written :
      (fuel : ℕ) (p : Bytes) (written : ℕ) (w : RecordWriter)
      → length p ≤ fuel
      → IsAead w.cipher.aead
      → w.cipher.nonce + length p ≤ nonce_reserved
      → Written p w (write_loop fuel answer p written w)
  unfolding write_loop
  write_loop-Written zero p written w l v n = record {
    parts = [];
    whole = ground arith;
    sized = tt;
    few = omega arith;
    result = nothing w;
    fine = refl;
  }
  write_loop-Written (suc fuel) p written w l v n = elim (Bool-cases (length p == 0)) [
    | inl h ↦ subst (Written p w) (sym (write_loop-empty fuel p written w h)) (record {
      parts = [];
      whole = ground (arith, h);
      sized = tt;
      few = omega arith;
      result = nothing w;
      fine = refl;
    })
    | inr h ↦
        let part = chunk_of-IsPart p (ground (arith, h)) in
        let rest = drop (length (chunk_of p)) p in
        let shorter : length rest + length (chunk_of p) ≤ length p = omega (
          arith,
          length-drop (length (chunk_of p)) p,
          ap length (chunk_of-rest p),
          length-append (chunk_of p) rest,
        ) in
        let w' : RecordWriter = record {
          cipher = advance w.cipher;
          sent = w.sent ++ frame w.cipher (chunk_of p) ∷ [];
        } in
        let r =
          write_loop-Written fuel rest (written + length (chunk_of p)) w'
            (omega (arith, shorter, l, part.0)) v (omega (arith, shorter, n, part.0)) in
        subst (Written p w)
          (sym (write_loop-step fuel p written w v (omega (arith, n, shorter, part.0)) h))
          (record {
            parts = chunk_of p ∷ r.parts;
            whole = ap (λ b. chunk_of p ++ b) r.whole ∙ chunk_of-rest p;
            sized = (part, r.sized);
            few = omega (arith, r.few, shorter, part.0);
            result = r.result ∙ longer w (chunk_of p) r.parts;
            fine = r.fine;
          })
  ]

  -- Over a line that takes everything, `Write` returns no error and puts out the records of parts of 1 to
  -- 65519 bytes, which together are what it was given; the counter moves on by one for each.
  pub write-Written :
      (p : Bytes) (w : RecordWriter)
      → IsAead w.cipher.aead
      → w.cipher.nonce + length p ≤ nonce_reserved
      → Written p w (write answer p w)
  unfolding write
  write-Written p w v n = write_loop-Written (length p) p 0 w (omega arith) v n
