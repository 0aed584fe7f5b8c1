-- ===== src/Wire/Record/Stream.antt =====
-- The reader as a byte stream: where the records begin and end does not show.
pub mod Both
use httppooler.Base.{
  ℕ, zero, suc, ◌+◌, ◌-◌, ◌≤◌, ◌<◌, ◌≡◌, refl, sym, ap, ◌∙◌, subst, Option, none, some, List, [],
  ◌∷◌, ◌++◌, length, take, drop, ltb, ◌==◌, if◌then◌else◌, true, false, arith, All, append_assoc,
  append-nil, take-append-drop, length-append, length-take, length-drop, Bool-cases, inl, inr,
}
use httppooler.Base.Bytes.{Bytes, to_le, from_le, from_le-to_le, length-to_le}
use httppooler.Base.Result.{Answer, ok, err}
use httppooler.Noise.Cipher.{IsAead, nonce_reserved, nonce_bytes}
use httppooler.Noise.Symmetric.{CipherState}
use httppooler.Noise.Transport.{decrypt, advance, next_text, decrypt-next}
use httppooler.Wire.Error.{IoError}
use httppooler.Wire.Preamble.{Source, full}
use httppooler.Wire.Preamble.Opening.{full-exact}
use httppooler.Wire.Record.{
  RecordError, RecordReader, next, sized, behind, take_record, decrypted, read, read_on, hand_out,
}
use httppooler.Wire.Record.Frames.{frame, frames, IsPart, flat}

-- The records of the parts `ps` come next in the input, and `rest` after them.
pub record IsAhead (rr : RecordReader) (ps : List Bytes) (rest : Bytes) : Type 0 where
  pub input : rr.source.input ≡ flat (frames rr.cipher ps) ++ rest
  pub parts : All IsPart ps
  pub budget : rr.cipher.nonce + length ps ≤ nonce_reserved
  pub aead : IsAead rr.cipher.aead

-- The bytes that the reader still has for its caller.
abbrev pub content : RecordReader → List Bytes → Bytes
content rr ps = rr.plain ++ flat ps

take_record-frame :
    (p : Bytes) (rr : RecordReader)
    → IsAead rr.cipher.aead
    → rr.cipher.nonce < nonce_reserved
    → IsPart p
    → take_record (next_text rr.cipher p) rr
      ≡ (none, record rr { cipher = advance rr.cipher; plain = p })
unfolding take_record decrypted
take_record-frame p rr v n part = ap (decrypted rr) (decrypt-next p rr.cipher v n part.1)

abbrev at_source : RecordReader → Bytes → RecordReader
at_source rr input = record rr { source = record { input = input; ends = rr.source.ends } }

sized-frame :
    (p rest : Bytes) (rr : RecordReader)
    → IsAead rr.cipher.aead
    → rr.cipher.nonce < nonce_reserved
    → IsPart p
    → sized
        (to_le 2 (length (next_text rr.cipher p)))
        (at_source rr (next_text rr.cipher p ++ rest))
      ≡ (none, record (at_source rr rest) { cipher = advance rr.cipher; plain = p })
unfolding sized behind
sized-frame p rest rr v n part =
    let ct = next_text rr.cipher p in
    let l = v.longer (nonce_bytes rr.cipher.nonce) p [] in
    let size : from_le (to_le 2 (length ct)) ≡ length ct =
      from_le-to_le 2 (length ct) (omega (arith, l, part.1)) in
    let big : ltb (length ct) 17 ≡ false = ground (arith, l, part.0) in
    rw (sized, size, big)
      (ap (behind take_record (at_source rr (ct ++ rest))) (full-exact ct rest rr.source.ends)
        ∙ take_record-frame p (at_source rr rest) v n part)

-- `next` on the bytes of a record.
next-frame :
    (p rest : Bytes) (rr : RecordReader)
    → IsAead rr.cipher.aead
    → rr.cipher.nonce < nonce_reserved
    → IsPart p
    → rr.source.input ≡ frame rr.cipher p ++ rest
    → next rr ≡ (none, record (at_source rr rest) { cipher = advance rr.cipher; plain = p })
unfolding next behind
next-frame p rest rr v n part i =
    let ct = next_text rr.cipher p in
    let head = to_le 2 (length ct) in
    let whole : rr.source.input ≡ head ++ (ct ++ rest) = i ∙ append_assoc head ct rest in
    let first : full 2 rr.source ≡ (ok head, record { input = ct ++ rest; ends = rr.source.ends }) =
      ap (λ b. full 2 (record { input = b; ends = rr.source.ends })) whole
      ∙ ap (λ k. full k (record { input = head ++ (ct ++ rest); ends = rr.source.ends }))
          (sym (length-to_le 2 (length ct)))
      ∙ full-exact head (ct ++ rest) rr.source.ends in
    ap (behind sized rr) first ∙ sized-frame p rest rr v n part

-- What a read of at most `n` bytes comes to: `r`, with the parts `left` still ahead.
pub record Progress (n : ℕ) (rr : RecordReader) (ps : List Bytes) (rest : Bytes)
    (r : Answer RecordError Bytes × RecordReader) : Type 0 where
  pub chunk : Bytes
  pub left : List Bytes
  pub answer : r.0 ≡ ok chunk
  pub some_bytes : (1 ≤ length chunk) × (length chunk ≤ n)
  pub same : content rr ps ≡ chunk ++ content r.1 left
  pub ahead : IsAhead r.1 left rest

hand_out-Progress :
    (n : ℕ) (rr : RecordReader) (ps : List Bytes) (rest : Bytes)
    → 1 ≤ n
    → 1 ≤ length rr.plain
    → IsAhead rr ps rest
    → Progress n rr ps rest (hand_out n rr)
hand_out-Progress n rr ps rest one some_left a = record {
  chunk = take n rr.plain;
  left = ps;
  answer = refl;
  some_bytes = (
    omega (arith, length-take n rr.plain, one, some_left),
    omega (arith, length-take n rr.plain),
  );
  same =
      ap (λ b. b ++ flat ps) (sym (take-append-drop n rr.plain))
      ∙ append_assoc (take n rr.plain) (drop n rr.plain) (flat ps);
  ahead = record { input = a.input; parts = a.parts; budget = a.budget; aead = a.aead };
}

empty_bytes : (b : Bytes) → (length b == 0) ≡ true → b ≡ []
empty_bytes [] h = refl
empty_bytes (x ∷ b) h = ground arith

read-empty :
    (n : ℕ) (rr rr' : RecordReader)
    → rr.plain ≡ []
    → next rr ≡ (none, rr')
    → read n rr ≡ hand_out n rr'
unfolding read read_on
read-empty n rr rr' e h =
    ap (λ (b : Bytes). if length b == 0 then read_on n (next rr) else hand_out n rr) e
    ∙ ap (read_on n) h

refilled :
    (n : ℕ) (rr : RecordReader) (ps : List Bytes) (rest : Bytes)
    → 1 ≤ n
    → rr.plain ≡ []
    → 1 ≤ length (content rr ps)
    → IsAhead rr ps rest
    → Progress n rr ps rest (read n rr)
unfolding read read_on
refilled n rr [] rest one e h a =
    absurd (omega (arith, h, ap length (append-nil rr.plain), ap length e))
refilled n rr (p ∷ ps) rest one e h a =
    let more = flat (frames (advance rr.cipher) ps) ++ rest in
    let rr' : RecordReader = record (at_source rr more) { cipher = advance rr.cipher; plain = p } in
    let next_one : next rr ≡ (none, rr') =
      next-frame p more rr a.aead (omega (arith, a.budget)) a.parts.0
        (a.input ∙ append_assoc (frame rr.cipher p) (flat (frames (advance rr.cipher) ps)) rest) in
    let ahead : IsAhead rr' ps rest = record {
      input = refl;
      parts = a.parts.1;
      budget = omega (arith, a.budget);
      aead = a.aead;
    } in
    let s = hand_out-Progress n rr' ps rest one a.parts.0.0 ahead in
    subst (Progress n rr (p ∷ ps) rest) (sym (read-empty n rr rr' e next_one)) (record {
      chunk = s.chunk;
      left = s.left;
      answer = s.answer;
      some_bytes = s.some_bytes;
      same = ap (λ b. b ++ (p ++ flat ps)) e ∙ s.same;
      ahead = s.ahead;
    })

-- With bytes left for its caller, and room for one, `Read` returns the next of them: at least one, no
-- more than there is room for, in order, and the reader still has the others.
pub read-Progress :
    (n : ℕ) (rr : RecordReader) (ps : List Bytes) (rest : Bytes)
    → 1 ≤ n
    → 1 ≤ length (content rr ps)
    → IsAhead rr ps rest
    → Progress n rr ps rest (read n rr)
unfolding read read_on
read-Progress n rr ps rest one h a = elim (Bool-cases (length rr.plain == 0)) [
  | inr more ↦ rw more (hand_out-Progress n rr ps rest one (ground (arith, more)) a)
  | inl none_left ↦ refilled n rr ps rest one (empty_bytes rr.plain none_left) h a
]
