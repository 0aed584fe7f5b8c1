-- ===== src/Wire/Decode/Sound.antt =====
-- Whatever `Next` takes stood in the input as the layout of a message that is due.
use httppooler.Base.{
  ℕ, ◌≡◌, ◌≢◌, ◌⊎◌, inl, inr, refl, sym, ap, ap₂, subst, ◌∙◌, true, Option, none, some, [], ◌∷◌,
  ◌++◌, arith, ◌==◌, if◌then◌else◌, Bool-cases, Option-cases,
}
use httppooler.Base.Bytes.{Bytes, AreBytes}
use httppooler.Base.Result.{Answer, ok}
use httppooler.Wire.Message.{
  Role, Message, kind, kind_hello, kind_ping, kind_pong, kind_request, kind_response, kind_body,
  kind_end, kind_cancel, kind_fail,
}
use httppooler.Wire.Error.{Error}
use httppooler.Wire.Layout.{fields_layout, layout, IsValid, Fits}
use httppooler.Wire.Decoder.{Decoder, Decoding, ◌>>=◌}
use httppooler.Wire.Decoder.Reads.{Reads, Consumed}
use httppooler.Wire.Decode.{
  hello, fields, conclude, message, remember, at_end, next_of, next, is_server,
}
use httppooler.Wire.Decode.Accepts.{IsDue, after, next_kind, next_accepts}
use httppooler.Wire.Decode.Kinds.{
  Encodes, request-Reads, response-Reads, body-Reads, end-Reads, cancel-Reads, fail_message-Reads,
  ping-Reads, pong-Reads,
}
use httppooler.Wire.Decode.Hello.{hello_sound, HelloRead}

-- What the switch makes of a kind other than HELLO: nothing, or a reader of exactly its messages.
abbrev Chosen : ℕ → Option (Decoding (Option Message)) → Type 0
Chosen k o = (o ≡ none) ⊎ ((f : Decoding (Option Message)) × (o ≡ some f) × Reads (Encodes k) f)

choose :
    (k c : ℕ) (f : Decoding (Option Message)) (others : Option (Decoding (Option Message)))
    → Reads (Encodes c) f
    → Chosen k others
    → Chosen k (if k == c then some f else others)
choose k c f others r chosen = elim (Bool-cases (k == c)) [
  | inl e ↦
      rw e (
        inr (f, refl, (let same : c ≡ k = ground arith in subst (λ n. Reads (Encodes n) f) same r)))
  | inr e ↦ rw e chosen
]

switch :
    (k : ℕ)
    → ((k ≡ kind_hello) × (fields k ≡ some hello)) ⊎ ((k ≢ kind_hello) × Chosen k (fields k))
unfolding fields
switch k = elim (Bool-cases (k == kind_hello)) [
  | inl e ↦ inl (ground arith, rw e)
  | inr e ↦ inr (
    (λ h. ground arith),
    rw e (
        choose k kind_ping _ _ ping-Reads (
          choose k kind_pong _ _ pong-Reads (
            choose k kind_request _ _ request-Reads (
              choose k kind_response _ _ response-Reads (
                choose k kind_body _ _ body-Reads (
                  choose k kind_end _ _ end-Reads (
                    choose k kind_cancel _ _ cancel-Reads
                      (choose k kind_fail _ _ fail_message-Reads (inl refl))))))))),
  )
]

-- What a successful `Next` did.
pub record Accepted (d : Decoder) : Type 0 where
  pub read : Message
  pub rest : Bytes
  pub due : IsDue d read
  pub valid : IsValid read
  pub fits : Fits read
  pub clear : d.error ≡ none
  pub input : d.input ≡ layout read ++ rest
  pub result : next d ≡ (ok read, after read rest d)

-- What `Next` had in front of it when it did not refuse.
next_front :
    (d : Decoder)
    → (next d).0.error ≡ none
    → (d.error ≡ none) × ((k : ℕ) × (r : Bytes) × (d.input ≡ k ∷ r))
unfolding next next_of at_end
next_front d h = (ground arith, next_bytes d.input refl)
  where
    next_bytes : (input : Bytes) → d.input ≡ input → (k : ℕ) × (r : Bytes) × (d.input ≡ k ∷ r)
    next_bytes [] i = absurd (ground arith)
    next_bytes (k ∷ r) i = (k, r, i)

remember_clear :
    (d : Decoder) (f : Decoding (Answer Error Message))
    → ((f >>= remember) d).0.error ≡ none
    → (f d).0.error ≡ none
unfolding remember
remember_clear d f h = ground arith

message_guards :
    (d : Decoder) (k : ℕ)
    → (message k d).0.error ≡ none
    → ((k ≡ kind_hello) ⊎ ((d.role ≡ Role.client) ⊎ (d.got_hello ≡ true)))
      × ((f : Decoding (Option Message)) × (fields k ≡ some f) × ((f d).1.error ≡ none))
unfolding message is_server conclude
message_guards d k h = elim (Option-cases (fields k)) [
  | inl e ↦ absurd (ground arith)
  | inr (f, e) ↦ (ground arith, (f, e, ground arith))
]

IsDue-plain :
    (d : Decoder) (m : Message)
    → kind m ≢ kind_hello
    → (d.role ≡ Role.client) ⊎ (d.got_hello ≡ true)
    → IsDue d m
unfolding kind
IsDue-plain d (Message.hello name ps) h due = absurd (h refl)
IsDue-plain d Message.ping h due = due
IsDue-plain d m h due = due

module _ (d : Decoder) (k : ℕ) (r : Bytes) (clear : d.error ≡ none) (i : d.input ≡ k ∷ r) where
  abbrev behind : Decoder
  behind = record d { input = r }

  accepted :
      (m : Message) (rest : Bytes)
      → kind m ≡ k
      → r ≡ fields_layout m ++ rest
      → IsDue d m
      → IsValid m
      → Fits m
      → Accepted d
  accepted m rest e er due v t =
      let input : d.input ≡ layout m ++ rest = i ∙ ap₂ ◌∷◌ (sym e) er in
      record {
        read = m;
        rest = rest;
        due = due;
        valid = v;
        fits = t;
        clear = clear;
        input = input;
        result = next_accepts d rest clear m due v t input;
      }

  Accepted-hello : k ≡ kind_hello → HelloRead behind → Accepted d
  unfolding kind
  Accepted-hello e h =
      accepted (Message.hello h.name h.providers) h.rest (sym e) h.input (h.server, h.fresh) h.valid
        h.fits

  Accepted-plain :
      (f : Decoding (Option Message))
      → k ≢ kind_hello
      → (d.role ≡ Role.client) ⊎ (d.got_hello ≡ true)
      → Consumed (Encodes k) f behind
      → Accepted d
  Accepted-plain f n due c =
      let (m, eo, ek, v, t, eu) = c.spec in
      accepted m c.rest ek (c.input ∙ ap (λ u. u ++ c.rest) eu)
        (IsDue-plain d m (λ e. n (sym ek ∙ e)) due) v t

as_reader :
    (d : Decoder) (f g : Decoding (Option Message))
    → f ≡ g
    → (f d).1.error ≡ none
    → (g d).1.error ≡ none
as_reader d f g e h = rw e at h

plain_due : {A : Type 0} (k : ℕ) → k ≢ kind_hello → (k ≡ kind_hello) ⊎ A → A
plain_due k n (inl e) = absurd (n e)
plain_due k n (inr a) = a

-- Whatever `Next` takes is due, in range, and stood in the input as its layout.
pub next_sound : (d : Decoder) → AreBytes d.input → (next d).0.error ≡ none → Accepted d
next_sound d b h =
    let (clear, (k, r, i)) = next_front d h in
    let d1 : Decoder = record d { input = r } in
    let answered : ((message k >>= remember) d1).0.error ≡ none =
      subst (λ (a : Answer Error Message × Decoder). a.0.error ≡ none) (next_kind d k r clear i)
        h in
    let (due, (f, e, ok)) = message_guards d1 k (remember_clear d1 (message k) answered) in
    let later : AreBytes r = (subst AreBytes i b).1 in
    elim (switch k) [
      | inl (ek, ef) ↦
          Accepted-hello d k r clear i ek (hello_sound d1 later (as_reader d1 f hello (cc) ok))
      | inr (nk, inl en) ↦ cc
      | inr (nk, inr (g, eg, rg)) ↦
          Accepted-plain d k r clear i g nk (plain_due k nk due)
            (rg.sound d1 later (as_reader d1 f g (cc) ok))
    ]
