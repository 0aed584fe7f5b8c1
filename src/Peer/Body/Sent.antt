-- ===== src/Peer/Body/Sent.antt =====
-- What `sendBodyEnd` puts on the line, and that `collect` at the other end gets the body back.
use httppooler.Base.{
  ℕ, zero, suc, ◌≤◌, ◌≡◌, ◌⊎◌, inl, inr, refl, sym, ap, ◌∙◌, subst, Option, none, List, [], ◌∷◌,
  ◌++◌, length, take, drop, ◌==◌, true, false, if◌then◌else◌, arith, All, All-append, append_assoc,
  append-nil, take-append-drop, length-take, length-drop, Bool-cases,
}
use httppooler.Base.Bytes.{Bytes}
use httppooler.Wire.Message.{Role, Header, Message}
use httppooler.Wire.Layout.{layout, IsValid, IsChunk, AreHeaders}
use httppooler.Wire.Encode.{Encoder}
use httppooler.Wire.Encode.Order.{wrote, write_exact, InOrder}
use httppooler.Peer.Reason.{Reason}
use httppooler.Peer.Job.{Collected, collect}
use httppooler.Peer.Body.{Line, send, send_chunks, send_body_end, body_chunk}

-- A side that is past its HELLO.
abbrev pub IsReady : Encoder → Type 0
IsReady e = (e.role ≡ Role.server) ⊎ (e.sent_hello ≡ true)

-- A transport that takes everything.
abbrev pub IsQuiet : Line → Type 0
IsQuiet line = (n : ℕ) → (line.deadline n ≡ none) × (line.answer n ≡ none)

abbrev pub layouts : List Message → List Bytes
layouts [] = []
layouts (m ∷ ms) = layout m ∷ layouts ms

-- A BODY of no more than one chunk, or the END.
abbrev pub IsPart : Message → Type 0
IsPart (Message.body job bytes) = (1 ≤ length bytes) × (length bytes ≤ body_chunk)
IsPart m = Unit

layouts-append : (ms ns : List Message) → layouts (ms ++ ns) ≡ layouts ms ++ layouts ns
layouts-append [] ns = refl
layouts-append (m ∷ ms) ns = rw (layouts-append ms ns)

pub send-wrote :
    (line : Line) (m : Message) (e : Encoder)
    → IsQuiet line
    → InOrder e m
    → IsValid m
    → send line m e ≡ (none, wrote m e)
unfolding send
send-wrote line m e q o v = elim (write_exact (line.answer (length e.written)) e m) [
  | inl (w, r) ↦ ground (arith, w, (q (length e.written)).0)
  | inr (s, bad) ↦ absurd (bad (o, v, (q (length e.written)).1))
]

-- The messages `ms` went out, and the side is as ready as before.
record Out (ms : List Message) (e : Encoder) (r : Option Reason × Encoder) : Type 0 where
  pub fine : r.0 ≡ none
  pub written : r.1.written ≡ e.written ++ layouts ms
  pub ready : IsReady r.1

-- The BODY messages that the loop writes.
chunks : ℕ → ℕ → Bytes → List Message
chunks zero job body = []
chunks (suc n) job body =
    let rest = chunks n job (drop body_chunk body) in
    if length body == 0 then [] else Message.body job (take body_chunk body) ∷ rest

abbrev first_part : ℕ → Bytes → Message
first_part job body = Message.body job (take body_chunk body)

first_part-IsPart :
    (job : ℕ) (body : Bytes) → (length body == 0) ≡ false → IsPart (first_part job body)
first_part-IsPart job body h =
    (ground (arith, length-take body_chunk body), omega (arith, length-take body_chunk body))

first_part-IsChunk :
    (job : ℕ) (body : Bytes) → (length body == 0) ≡ false → IsChunk (take body_chunk body)
first_part-IsChunk job body h =
    (ground (arith, length-take body_chunk body), omega (arith, length-take body_chunk body))

chunks-IsPart : (n job : ℕ) (body : Bytes) → All IsPart (chunks n job body)
unfolding chunks
chunks-IsPart zero job body = tt
chunks-IsPart (suc n) job body = elim (Bool-cases (length body == 0)) [
  | inl h ↦ rw h tt
  | inr h ↦ rw h (first_part-IsPart job body h, chunks-IsPart n job (drop body_chunk body))
]

chunks_step :
    (n job : ℕ) (body : Bytes)
    → (length body == 0) ≡ false
    → chunks (suc n) job body ≡ first_part job body ∷ chunks n job (drop body_chunk body)
unfolding chunks
chunks_step n job body h = rw h

no_bytes : (body : Bytes) → (length body == 0) ≡ true → body ≡ []
no_bytes [] h = refl
no_bytes (b ∷ body) h = ground arith

send_chunks_step :
    (n : ℕ) (line : Line) (job : ℕ) (body : Bytes) (e e' : Encoder)
    → (length body == 0) ≡ false
    → send line (first_part job body) e ≡ (none, e')
    → send_chunks (suc n) line job body e ≡ send_chunks n line job (drop body_chunk body) e'
unfolding send_chunks
send_chunks_step n line job body e e' h s =
    rw (h, s)
      (ap (λ (r : Option Reason × Encoder). send_chunks n line job (drop body_chunk body) r.1) s)

rest_shorter :
    (n : ℕ) (body : Bytes)
    → length body ≤ suc n
    → (length body == 0) ≡ false
    → length (drop body_chunk body) ≤ n
rest_shorter n body l h = ground (arith, length-drop body_chunk body)

module _ (job : ℕ) (trailers : List Header) (last : Reason) where
  abbrev end_message : List Message
  end_message = Message.end job trailers ∷ []

  collect-chunks :
      (n : ℕ) (body acc : Bytes)
      → length body ≤ n
      → collect acc (chunks n job body ++ end_message) last
        ≡ (Collected.whole (acc ++ body) trailers, [])
  unfolding chunks collect
  collect-chunks zero [] acc l = ap (λ b. (Collected.whole b trailers, [])) (sym (append-nil acc))
  collect-chunks zero (b ∷ body) acc l = absurd (omega (arith, l))
  collect-chunks (suc n) body acc l = elim (Bool-cases (length body == 0)) [
    | inl h ↦
        rw (no_bytes body h) (ap (λ b. (Collected.whole b trailers, [])) (sym (append-nil acc)))
    | inr h ↦
        ap (λ ms. collect acc (ms ++ end_message) last) (chunks_step n job body h)
        ∙ collect-chunks n (drop body_chunk body) (acc ++ take body_chunk body)
            (rest_shorter n body l h)
        ∙ ap (λ b. (Collected.whole b trailers, []))
            (append_assoc acc (take body_chunk body) (drop body_chunk body)
              ∙ ap (λ b. acc ++ b) (take-append-drop body_chunk body))
  ]

module _ (line : Line) (quiet : IsQuiet line) (job : ℕ) (from_one : 1 ≤ job) where
  sent_chunks :
      (n : ℕ) (body : Bytes) (e : Encoder)
      → length body ≤ n
      → IsReady e
      → Out (chunks n job body) e (send_chunks n line job body e)
  unfolding send_chunks chunks
  sent_chunks zero body e l ready = record {
    fine = refl;
    written = sym (append-nil e.written);
    ready = ready;
  }
  sent_chunks (suc n) body e l ready = elim (Bool-cases (length body == 0)) [
    | inl h ↦
        rw (no_bytes body h)
          (record { fine = refl; written = sym (append-nil e.written); ready = ready })
    | inr h ↦
        let m = first_part job body in
        let sent = send-wrote line m e quiet ready (from_one, first_part-IsChunk job body h) in
        let rest =
          sent_chunks n (drop body_chunk body) (wrote m e) (rest_shorter n body l h) ready in
        subst (λ ms. Out ms e (send_chunks (suc n) line job body e))
          (sym (chunks_step n job body h))
          (subst (Out (m ∷ chunks n job (drop body_chunk body)) e)
            (sym (send_chunks_step n line job body e (wrote m e) h sent))
            (record {
              fine = rest.fine;
              written =
                  rest.written
                  ∙ append_assoc e.written (layout m ∷ [])
                      (layouts (chunks n job (drop body_chunk body)));
              ready = rest.ready;
            }))
  ]

-- What the other end gets of the bytes that a side wrote for a body: the messages `ms`, each a BODY of
-- one chunk at most or the END, from which `collect` makes the body and the trailers again.
pub record Carried (job : ℕ) (body : Bytes) (trailers : List Header) (e : Encoder)
    (r : Option Reason × Encoder) : Type 0 where
  pub ms : List Message
  pub fine : r.0 ≡ none
  pub written : r.1.written ≡ e.written ++ layouts ms
  pub parts : All IsPart ms
  pub collected : (last : Reason) → collect [] ms last ≡ (Collected.whole body trailers, [])

send_body_end_last :
    (line : Line) (job : ℕ) (body : Bytes) (trailers : List Header) (e : Encoder)
    → (send_chunks (length body) line job body e).0 ≡ none
    → send_body_end line job body trailers e
      ≡ send line (Message.end job trailers) (send_chunks (length body) line job body e).1
unfolding send_body_end
send_body_end_last line job body trailers e h = rw (send_body_end, h)

-- Over a transport that takes everything, a side that is past its HELLO writes a body of any length
-- without an error, as BODY messages of 1 to 32768 bytes and one END, and `collect` makes the same
-- body and trailers of them, if the job id is not 0 and the trailers are in range.
pub send_body_end-collect :
    (line : Line) (job : ℕ) (body : Bytes) (trailers : List Header) (e : Encoder)
    → IsQuiet line
    → 1 ≤ job
    → AreHeaders trailers
    → IsReady e
    → Carried job body trailers e (send_body_end line job body trailers e)
send_body_end-collect line job body trailers e quiet from_one fit ready =
    let n = length body in
    let out = sent_chunks line quiet job from_one n body e (omega arith) ready in
    let e' = (send_chunks n line job body e).1 in
    let whole = send_body_end_last line job body trailers e out.fine in
    let last = send-wrote line (Message.end job trailers) e' quiet out.ready (from_one, fit) in
    record {
      ms = chunks n job body ++ Message.end job trailers ∷ [];
      fine = ap (λ (r : Option Reason × Encoder). r.0) (whole ∙ last);
      written =
          ap (λ (r : Option Reason × Encoder). r.1.written) (whole ∙ last)
          ∙ ap (λ w. w ++ layout (Message.end job trailers) ∷ []) out.written
          ∙ append_assoc e.written (layouts (chunks n job body))
              (layout (Message.end job trailers) ∷ [])
          ∙ ap (λ w. e.written ++ w)
              (sym (layouts-append (chunks n job body) (Message.end job trailers ∷ [])));
      parts =
          All-append IsPart (chunks n job body) (Message.end job trailers ∷ [])
            (chunks-IsPart n job body) (tt, tt);
      collected = λ end. collect-chunks job trailers end n body [] (omega arith);
    }
