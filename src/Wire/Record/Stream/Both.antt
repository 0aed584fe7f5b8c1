-- ===== src/Wire/Record/Stream/Both.antt =====
-- One direction, from the writer of one side to the reader of the other.
use httppooler.Base.{
  ℕ, zero, suc, ◌+◌, ◌-◌, ◌≤◌, ◌≡◌, refl, sym, ap, ap₂, ◌∙◌, subst, Option, none, some, List, [],
  ◌∷◌, ◌++◌, length, arith, All, All-append, append_assoc, append-nil, length-append, Bool-cases,
  inl, inr, ◌==◌, if◌then◌else◌, false,
}
use httppooler.Base.Bytes.{Bytes}
use httppooler.Base.Result.{Answer, ok}
use httppooler.Noise.Cipher.{IsAead, nonce_reserved}
use httppooler.Noise.Symmetric.{CipherState}
use httppooler.Noise.Transport.{advance}
use httppooler.Wire.Error.{IoError}
use httppooler.Wire.Record.{
  RecordError, RecordReader, RecordWriter, new_record_writer, new_record_reader, write, read,
}
use httppooler.Wire.Record.Frames.{frames, passed, IsPart, flat, frames-append, passed-nonce}
use httppooler.Wire.Record.Written.{after, write-Written}
use httppooler.Wire.Record.Stream.{IsAhead, content, Progress, read-Progress}

-- One `Write` after another.
unfoldable pub write_each : (ℕ → Option IoError) → List Bytes → RecordWriter → RecordWriter
write_each answer [] w = w
write_each answer (p ∷ ps) w = write_each answer ps (write answer p w).1

abbrev join :
    Bytes → Answer RecordError Bytes × RecordReader → Answer RecordError Bytes × RecordReader
join chunk (more, rr) = elim more.value [
  | none ↦ (more, rr)
  | some bytes ↦ (ok (chunk ++ bytes), rr)
]

abbrev gather_on :
    (ℕ → RecordReader → Answer RecordError Bytes × RecordReader)
    → ℕ
    → Answer RecordError Bytes × RecordReader
    → Answer RecordError Bytes × RecordReader
gather_on rest n (a, rr) = elim a.value [
  | none ↦ (a, rr)
  | some chunk ↦ join chunk (rest (n - length chunk) rr)
]

-- io.ReadFull of `n` bytes from the reader. The fuel is `n`: each read takes at least one byte.
unfoldable pub gather : ℕ → ℕ → RecordReader → Answer RecordError Bytes × RecordReader
gather zero n rr = (ok [], rr)
gather (suc fuel) n rr = if n == 0 then (ok [], rr) else gather_on (gather fuel) n (read n rr)

-- What a read of just `n` bytes comes to.
pub record Gathered (n : ℕ) (all : Bytes) (rest : Bytes)
    (r : Answer RecordError Bytes × RecordReader) : Type 0 where
  pub bytes : Bytes
  pub left : List Bytes
  pub answer : r.0 ≡ ok bytes
  pub size : length bytes ≡ n
  pub same : all ≡ bytes ++ content r.1 left
  pub ahead : IsAhead r.1 left rest

gather_none :
    (n : ℕ) (rr : RecordReader) (ps : List Bytes) (rest : Bytes)
    → n ≡ 0
    → IsAhead rr ps rest
    → Gathered n (content rr ps) rest (ok [], rr)
gather_none n rr ps rest h a = record {
  bytes = [];
  left = ps;
  answer = refl;
  size = sym h;
  same = refl;
  ahead = a;
}

gather_step :
    (fuel n : ℕ) (rr rr' : RecordReader) (chunk bytes : Bytes)
    → (n == 0) ≡ false
    → read n rr ≡ (ok chunk, rr')
    → (gather fuel (n - length chunk) rr').0 ≡ ok bytes
    → gather (suc fuel) n rr ≡ (ok (chunk ++ bytes), (gather fuel (n - length chunk) rr').1)
unfolding gather
gather_step fuel n rr rr' chunk bytes h r g =
    rw h refl
    ∙ ap (gather_on (gather fuel) n) r
    ∙ ap (λ a. join chunk (a, (gather fuel (n - length chunk) rr').1)) g

Gathered-more :
    (fuel n : ℕ) (rr : RecordReader) (ps : List Bytes) (rest : Bytes)
    → (n == 0) ≡ false
    → (p : Progress n rr ps rest (read n rr))
    → Gathered
        (n - length p.chunk)
        (content (read n rr).1 p.left)
        rest
        (gather fuel (n - length p.chunk) (read n rr).1)
    → Gathered n (content rr ps) rest (gather (suc fuel) n rr)
Gathered-more fuel n rr ps rest go p g =
    let r : read n rr ≡ (ok p.chunk, (read n rr).1) = ap (λ a. (a, (read n rr).1)) p.answer in
    subst (Gathered n (content rr ps) rest)
      (sym (gather_step fuel n rr (read n rr).1 p.chunk g.bytes go r g.answer))
      (record {
        bytes = p.chunk ++ g.bytes;
        left = g.left;
        answer = refl;
        size = omega (arith, length-append p.chunk g.bytes, g.size, p.some_bytes.1);
        same = p.same ∙ ap (λ b. p.chunk ++ b) g.same ∙ sym (append_assoc p.chunk g.bytes _);
        ahead = g.ahead;
      })

pub gather-Gathered :
    (fuel n : ℕ) (rr : RecordReader) (ps : List Bytes) (rest : Bytes)
    → n ≤ fuel
    → n ≤ length (content rr ps)
    → IsAhead rr ps rest
    → Gathered n (content rr ps) rest (gather fuel n rr)
unfolding gather
gather-Gathered zero n rr ps rest l h a = gather_none n rr ps rest (omega (arith, l)) a
gather-Gathered (suc fuel) n rr ps rest l h a = elim (Bool-cases (n == 0)) [
  | inl stop ↦ rw stop (gather_none n rr ps rest (ground (arith, stop)) a)
  | inr go ↦
      let p = read-Progress n rr ps rest (ground (arith, go)) (ground (arith, go, h)) a in
      let sizes = ap length p.same ∙ length-append p.chunk (content (read n rr).1 p.left) in
      let g =
        gather-Gathered fuel (n - length p.chunk) (read n rr).1 p.left rest
          (omega (arith, l, p.some_bytes.0)) (omega (arith, h, sizes)) p.ahead in
      Gathered-more fuel n rr ps rest go p g
]

-- The records that writes of `ps` put out from a cipher state are those of the parts `parts`.
record Parts (ps : List Bytes) (w w' : RecordWriter) : Type 0 where
  pub parts : List Bytes
  pub whole : flat parts ≡ flat ps
  pub sized : All IsPart parts
  pub few : length parts ≤ length (flat ps)
  pub result : w' ≡ after w parts

flat-append : (ps qs : List Bytes) → flat (ps ++ qs) ≡ flat ps ++ flat qs
flat-append [] qs = refl
flat-append (p ∷ ps) qs =
    ap (λ b. p ++ b) (flat-append ps qs) ∙ sym (append_assoc p (flat ps) (flat qs))

passed-append :
    (c : CipherState) (ps qs : List Bytes) → passed c (ps ++ qs) ≡ passed (passed c ps) qs
passed-append c [] qs = refl
passed-append c (p ∷ ps) qs = passed-append (advance c) ps qs

passed-aead : (c : CipherState) (ps : List Bytes) → (passed c ps).aead ≡ c.aead
passed-aead c [] = refl
passed-aead c (p ∷ ps) = passed-aead (advance c) ps

module _ (answer : ℕ → Option IoError) (quiet : (n : ℕ) → answer n ≡ none) where
  write_each-Parts :
      (ps : List Bytes) (w : RecordWriter)
      → IsAead w.cipher.aead
      → w.cipher.nonce + length (flat ps) ≤ nonce_reserved
      → Parts ps w (write_each answer ps w)
  unfolding write_each
  write_each-Parts [] w v n = record {
    parts = [];
    whole = refl;
    sized = tt;
    few = omega arith;
    result = ap (λ s. record w { sent = s }) (sym (append-nil w.sent));
  }
  write_each-Parts (p ∷ ps) w v n =
      let all = length-append p (flat ps) in
      let one = write-Written answer quiet p w v (omega (arith, n, all)) in
      let w' = after w one.parts in
      let r =
        write_each-Parts ps w' (subst IsAead (sym (passed-aead w.cipher one.parts)) v)
          (omega (arith, n, all, passed-nonce w.cipher one.parts, one.few)) in
      record {
        parts = one.parts ++ r.parts;
        whole =
            flat-append one.parts r.parts
            ∙ ap (λ b. b ++ flat r.parts) one.whole
            ∙ ap (λ b. p ++ b) r.whole;
        sized = All-append IsPart one.parts r.parts one.sized r.sized;
        few = omega (arith, all, length-append one.parts r.parts, one.few, r.few);
        result = ap (write_each answer ps) one.result ∙ r.result ∙ joined w one.parts r.parts;
      }
    where
      joined : (w : RecordWriter) (ps qs : List Bytes) → after (after w ps) qs ≡ after w (ps ++ qs)
      joined w ps qs =
          ap₂ (λ c s. record { cipher = c; sent = s }) (sym (passed-append w.cipher ps qs))
            (append_assoc w.sent (frames w.cipher ps) (frames (passed w.cipher ps) qs)
              ∙ ap (λ fs. w.sent ++ fs) (sym (frames-append w.cipher ps qs)))

  -- Whatever is written to one end of a direction in any number of writes, over a line that takes
  -- everything and a cipher state with as many messages left as there are bytes, the reader with the
  -- same cipher state at the other end reads as one stream: a read of just `n` bytes, for any `n` up to
  -- all of them, gives the first `n`, the others are still to be read, and what follows the records is
  -- left in the input.
  pub record_stream :
      (c : CipherState) (ps : List Bytes) (rest : Bytes) (ends : IoError) (n : ℕ)
      → IsAead c.aead
      → c.nonce + length (flat ps) ≤ nonce_reserved
      → n ≤ length (flat ps)
      → let input = flat (write_each answer ps (new_record_writer c)).sent ++ rest in
        Gathered n
          (flat ps)
          rest
          (gather n n (new_record_reader (record { input = input; ends = ends }) c))
  unfolding new_record_writer new_record_reader
  record_stream c ps rest ends n v budget l =
      let w = new_record_writer c in
      let p = write_each-Parts ps w v budget in
      let input = flat (write_each answer ps w).sent ++ rest in
      let rr = new_record_reader (record { input = input; ends = ends }) c in
      let ahead : IsAhead rr p.parts rest = record {
        input = ap (λ (w : RecordWriter). flat w.sent ++ rest) p.result;
        parts = p.sized;
        budget = omega (arith, p.few, budget);
        aead = v;
      } in
      subst (λ all. Gathered n all rest (gather n n rr)) p.whole
        (gather-Gathered n n rr p.parts rest (omega arith) (omega (arith, l, ap length p.whole))
          ahead)
