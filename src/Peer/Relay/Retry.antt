-- ===== src/Peer/Relay/Retry.antt =====
-- What the consumer has of a job when it is handed to another provider.
use httppooler.Base.{◌≡◌, refl, Bool, true, false, List, [], ◌∷◌}
use httppooler.Wire.Message.{Message}
use httppooler.Peer.Relay.{Ends, Route, tell, give_up, round, onward, relay_answer}
use httppooler.Peer.Relay.Once.{
  ask-told, passed_on-IsCounted, relay_answer-IsCounted, tell-responses, differ,
}

-- No BODY and no END comes before the first RESPONSE or FAIL.
abbrev pub IsOrderly : List Message → Type 0
IsOrderly [] = Unit
IsOrderly (Message.body job bytes ∷ ms) = ⊥
IsOrderly (Message.end job trailers ∷ ms) = ⊥
IsOrderly (m ∷ ms) = Unit

-- An attempt that says it relayed no RESPONSE has told the consumer nothing at all, if no BODY and no
-- END of the provider came before a RESPONSE: the next provider's answer then comes to a consumer that
-- has nothing yet.
pub relay_answer_untouched :
    (r : Route) (ms : List Message) (gone : Bool) (w : Ends)
    → IsOrderly ms
    → (relay_answer r ms gone false w).0.0 ≡ false
    → (relay_answer r ms gone false w).1.told ≡ w.told
unfolding relay_answer round onward give_up
relay_answer_untouched r [] true w o e = ask-told r.provider (Message.cancel r.provider_job) w
relay_answer_untouched r [] false w o e = refl
relay_answer_untouched r (Message.response j status hs ∷ ms) gone w o e =
    let m = Message.response r.job status hs in
    let c =
      passed_on-IsCounted r m true true _ w (relay_answer r ms gone true) (tell r.consumer m w)
        (tell-responses r.consumer m w) (λ f. absurd (differ true refl f)) (λ f. f)
        (relay_answer-IsCounted r ms gone true (tell r.consumer m w).1) in
    absurd (differ _ (c.kept refl) e)
relay_answer_untouched r (Message.body j bytes ∷ ms) gone w o e = absurd o
relay_answer_untouched r (Message.end j trailers ∷ ms) gone w o e = absurd o
relay_answer_untouched r (m ∷ ms) gone w o e = refl
