-- ===== src/Peer/Relay/Answer.antt =====
-- A provider's answer as the consumer gets it.
use httppooler.Base.{
  ℕ, ◌≡◌, refl, sym, ap, ◌∙◌, subst, Bool, true, false, none, List, [], ◌∷◌, ◌++◌, map,
  append_assoc, All,
}
use httppooler.Wire.Message.{Message}
use httppooler.Wire.Layout.{layout, IsValid}
use httppooler.Wire.Encode.Order.{wrote, InOrder}
use httppooler.Peer.Body.{Line}
use httppooler.Peer.Body.Sent.{IsReady, IsQuiet, layouts, send-wrote}
use httppooler.Peer.Relay.{
  Ends, heard, tell, Outcome, onward, is_last, Tried, Route, passed_on, round, relay_answer,
}

-- One RESPONSE, any number of BODY messages, and an END, or a FAIL once the answer has started.
abbrev pub IsAnswer : (started : Bool) → List Message → Type 0
IsAnswer false (Message.response j status hs ∷ ms) = IsAnswer true ms
IsAnswer true (Message.body j bytes ∷ ms) = IsAnswer true ms
IsAnswer true (Message.end j trailers ∷ []) = Unit
IsAnswer true (Message.fail j reason ∷ []) = Unit
IsAnswer started ms = ⊥

-- The message with the job's id of the consumer.
abbrev pub renumbered : ℕ → Message → Message
renumbered job (Message.response j status hs) = Message.response job status hs
renumbered job (Message.body j bytes) = Message.body job bytes
renumbered job (Message.end j trailers) = Message.end job trailers
renumbered job (Message.fail j reason) = Message.fail job reason
renumbered job m = m

abbrev behind : Message → Ends → Ends
behind m w = record w { consumer = wrote m w.consumer; told = w.told ++ m ∷ [] }

tell-behind :
    (line : Line) (m : Message) (w : Ends)
    → IsQuiet line
    → InOrder w.consumer m
    → IsValid m
    → tell line m w ≡ (none, behind m w)
unfolding tell
tell-behind line m w q o v = ap (heard m w) (send-wrote line m w.consumer q o v)

-- The loop ended without an error, and the messages `ms` went out to the consumer.
pub record ArePassed (ms : List Message) (w : Ends) (r : Tried) : Type 0 where
  pub outcome : r.0 ≡ (true, Outcome.relayed)
  pub written : r.1.consumer.written ≡ w.consumer.written ++ layouts ms

last-ArePassed :
    (r : Route) (m : Message) (w : Ends) (rest : Ends → Tried)
    → tell r.consumer m w ≡ (none, behind m w)
    → is_last m ≡ true
    → ArePassed (m ∷ []) w (passed_on r m true rest (tell r.consumer m w))
unfolding passed_on
last-ArePassed r m w rest sent last =
    subst (λ x. ArePassed (m ∷ []) w (passed_on r m true rest x)) (sym sent)
      (rw (passed_on, last) (record { outcome = refl; written = refl }))

more-ArePassed :
    (r : Route) (m : Message) (ms : List Message) (w : Ends) (rest : Ends → Tried)
    → tell r.consumer m w ≡ (none, behind m w)
    → is_last m ≡ false
    → ArePassed ms (behind m w) (rest (behind m w))
    → ArePassed (m ∷ ms) w (passed_on r m true rest (tell r.consumer m w))
unfolding passed_on
more-ArePassed r m ms w rest sent other h =
    subst (λ x. ArePassed (m ∷ ms) w (passed_on r m true rest x)) (sym sent)
      (rw (passed_on, other)
        (record {
          outcome = h.outcome;
          written = h.written ∙ append_assoc w.consumer.written (layout m ∷ []) (layouts ms);
        }))

-- Over a line that takes everything, to a consumer that is past its HELLO, an answer that holds a
-- RESPONSE, any BODY messages, and an END or a FAIL reaches the consumer byte for byte, in order and
-- with the consumer's own id for the job, and the loop of `dispatch` ends without an error. If the
-- RESPONSE was relayed before, what follows it does.
pub relay_answer-ArePassed :
    (r : Route) (ms : List Message) (gone started : Bool) (w : Ends)
    → IsQuiet r.consumer
    → IsReady w.consumer
    → IsAnswer started ms
    → All (λ m. IsValid (renumbered r.job m)) ms
    → ArePassed (map (renumbered r.job) ms) w (relay_answer r ms gone started w)
unfolding relay_answer round onward
relay_answer-ArePassed r (Message.response j status hs ∷ ms) gone false w q o a (v, vs) =
    let m = Message.response r.job status hs in
    more-ArePassed r m _ w (relay_answer r ms gone true) (tell-behind r.consumer m w q o v) refl
      (relay_answer-ArePassed r ms gone true (behind m w) q o a vs)
relay_answer-ArePassed r (Message.body j bytes ∷ ms) gone true w q o a (v, vs) =
    let m = Message.body r.job bytes in
    more-ArePassed r m _ w (relay_answer r ms gone true) (tell-behind r.consumer m w q o v) refl
      (relay_answer-ArePassed r ms gone true (behind m w) q o a vs)
relay_answer-ArePassed r (Message.end j trailers ∷ []) gone true w q o a (v, vs) =
    let m = Message.end r.job trailers in
    last-ArePassed r m w (relay_answer r [] gone true) (tell-behind r.consumer m w q o v) refl
relay_answer-ArePassed r (Message.fail j reason ∷ []) gone true w q o a (v, vs) =
    let m = Message.fail r.job reason in
    last-ArePassed r m w (relay_answer r [] gone true) (tell-behind r.consumer m w q o v) refl
relay_answer-ArePassed r [] gone true w q o a vs = absurd a
relay_answer-ArePassed r [] gone false w q o a vs = absurd a
relay_answer-ArePassed r (m ∷ ms) gone true w q o a vs = absurd a
relay_answer-ArePassed r (m ∷ ms) gone false w q o a vs = absurd a
