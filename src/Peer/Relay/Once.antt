-- ===== src/Peer/Relay/Once.antt =====
-- The RESPONSE of a job: the consumer gets one at most, whatever providers the job was handed to.
use httppooler.Base.{
  ℕ, ◌+◌, ◌≤◌, ◌≡◌, refl, ap, ◌∙◌, subst, Bool, true, false, Option, none, some, List, [], ◌∷◌,
  ◌++◌, arith,
}
use httppooler.Base.Bytes.{Bytes}
use httppooler.Wire.Message.{Message}
use httppooler.Wire.Encode.{Encoder}
use httppooler.Peer.Reason.{Reason}
use httppooler.Peer.Body.{Line, send, send_body_end}
use httppooler.Peer.Conn.{Conn, Opened, new_job}
use httppooler.Peer.Synth.{synth_messages, misplaced_text}
use httppooler.Peer.Relay.{
  Ends, heard, tell, with_provider, ask, Outcome, Onward, onward, is_last, Tried, Route, give_up,
  passed_on, round, relay_answer, Request, Provider, went_out, attempt, dispatch_on, dispatch,
  answered, answer_each, answer, Turn, Relayed, concluded, relay, gone_text, unconnected_text,
}

abbrev pub is_response : Message → ℕ
is_response (Message.response job status hs) = 1
is_response m = 0

abbrev pub responses : List Message → ℕ
responses [] = 0
responses (m ∷ ms) = is_response m + responses ms

responses-append : (ms ns : List Message) → responses (ms ++ ns) ≡ responses ms + responses ns
responses-append [] ns = omega arith
responses-append (m ∷ ms) ns = let h = responses-append ms ns in omega (arith, h)

heard-responses :
    (m : Message) (w : Ends) (r : Option Reason × Encoder)
    → responses (heard m w r).1.told ≤ responses w.told + is_response m
heard-responses m w (some x, e) = omega arith
heard-responses m w (none, e) = let h = responses-append w.told (m ∷ []) in omega (arith, h)

pub tell-responses :
    (line : Line) (m : Message) (w : Ends)
    → responses (tell line m w).1.told ≤ responses w.told + is_response m
unfolding tell
tell-responses line m w = heard-responses m w (send line m w.consumer)

with_provider-told : (w : Ends) (r : Option Reason × Encoder) → (with_provider w r).1.told ≡ w.told
with_provider-told w (x, e) = refl

pub ask-told : (line : Line) (m : Message) (w : Ends) → (ask line m w).1.told ≡ w.told
unfolding ask
ask-told line m w = with_provider-told w (send line m w.provider)

-- An attempt that had `n` RESPONSE messages to relay, and had relayed one before if `started` is true.
pub record IsCounted (started : Bool) (n : ℕ) (w : Ends) (r : Tried) : Type 0 where
  pub more : responses r.1.told ≤ responses w.told + n
  pub quiet : r.0.0 ≡ false → responses r.1.told ≤ responses w.told
  pub kept : started ≡ true → r.0.0 ≡ true

give_up-IsCounted :
    (r : Route) (started : Bool) (n : ℕ) (w : Ends) → IsCounted started n w (give_up r started w)
unfolding give_up
give_up-IsCounted r started n w =
    let told = ap responses (ask-told r.provider (Message.cancel r.provider_job) w) in
    record { more = omega (arith, told); quiet = λ e. omega (arith, told); kept = λ e. e }

-- What `onward` makes of a message.
abbrev IsPassed : Bool → Message → Onward → Type 0
IsPassed started m (Onward.passes m' s) =
    (is_response m' ≡ is_response m)
    × ((s ≡ false → is_response m ≡ 0) × (started ≡ true → s ≡ true))
IsPassed started m (Onward.fails reason) = started ≡ false
IsPassed started m (Onward.stops kind) = Unit

onward-IsPassed :
    (job : ℕ) (started : Bool) (m : Message) → IsPassed started m (onward job started m)
unfolding onward
onward-IsPassed job started (Message.response j status hs) =
    (refl, ((λ e. ground arith), λ e. refl))
onward-IsPassed job started (Message.body j bytes) = (refl, ((λ e. refl), λ e. e))
onward-IsPassed job started (Message.end j trailers) = (refl, ((λ e. refl), λ e. e))
onward-IsPassed job true (Message.fail j reason) = (refl, ((λ e. refl), λ e. refl))
onward-IsPassed job false (Message.fail j reason) = refl
onward-IsPassed job started m = tt

pub differ : (b : Bool) → b ≡ true → ¬ (b ≡ false)
differ b e f = ground arith

not_started : (s r : Bool) → (s ≡ true → r ≡ true) → r ≡ false → s ≡ false
not_started true r k f = absurd (differ r (k refl) f)
not_started false r k f = refl

pub passed_on-IsCounted :
    (r : Route) (m : Message) (started s : Bool) (n : ℕ) (w : Ends) (rest : Ends → Tried)
    (x : Option Reason × Ends)
    → responses x.1.told ≤ responses w.told + is_response m
    → (s ≡ false → is_response m ≡ 0)
    → (started ≡ true → s ≡ true)
    → IsCounted s n x.1 (rest x.1)
    → IsCounted started (is_response m + n) w (passed_on r m s rest x)
unfolding passed_on give_up
passed_on-IsCounted r m started s n w rest (some e, w') more zero kept h =
    let g = give_up-IsCounted r s 0 w' in
    record {
      more = let a = g.more in omega (arith, a, more);
      quiet = λ f. let a = g.quiet f in let b = zero f in omega (arith, a, b, more);
      kept = λ f. kept f;
    }
passed_on-IsCounted r m started s n w rest (none, w') more zero kept h =
    either-IsCounted (is_last m) _ _
      (record {
        more = omega (arith, more);
        quiet = λ f. let b = zero f in omega (arith, b, more);
        kept = kept;
      })
      (record {
        more = let a = h.more in omega (arith, a, more);
        quiet = λ f.
            let b = zero (not_started s _ h.kept f) in
            let a = h.quiet f in omega (arith, a, b, more);
        kept = λ f. h.kept (kept f);
      })
  where
    either-IsCounted :
        (b : Bool) (x y : Tried)
        → IsCounted started (is_response m + n) w x
        → IsCounted started (is_response m + n) w y
        → IsCounted started (is_response m + n) w (elim b [ true ↦ x | false ↦ y ])
    either-IsCounted true x y a c = a
    either-IsCounted false x y a c = c

round-IsCounted :
    (r : Route) (m : Message) (started : Bool) (n : ℕ) (w : Ends) (rest : Bool → Ends → Tried)
    (o : Onward)
    → IsPassed started m o
    → ((s : Bool) (v : Ends) → IsCounted s n v (rest s v))
    → IsCounted started (is_response m + n) w (round r started rest w o)
unfolding round
round-IsCounted r m started n w rest (Onward.passes m' s) (same, (zero, kept)) h =
    subst (λ k. IsCounted started (k + n) w (round r started rest w (Onward.passes m' s))) same
      (passed_on-IsCounted r m' started s n w (rest s) (tell r.consumer m' w)
        (tell-responses r.consumer m' w) (λ f. same ∙ zero f) kept (h s (tell r.consumer m' w).1))
round-IsCounted r m started n w rest (Onward.fails reason) p h = record {
  more = omega arith;
  quiet = λ e. omega arith;
  kept = λ e. absurd (differ started e p);
}
round-IsCounted r m started n w rest (Onward.stops kind) p h = record {
  more = omega arith;
  quiet = λ e. omega arith;
  kept = λ e. e;
}

pub relay_answer-IsCounted :
    (r : Route) (ms : List Message) (gone started : Bool) (w : Ends)
    → IsCounted started (responses ms) w (relay_answer r ms gone started w)
unfolding relay_answer
relay_answer-IsCounted r [] true started w = give_up-IsCounted r started 0 w
relay_answer-IsCounted r [] false started w = record {
  more = omega arith;
  quiet = λ e. omega arith;
  kept = λ e. e;
}
relay_answer-IsCounted r (m ∷ ms) gone started w =
    round-IsCounted r m started (responses ms) w (relay_answer r ms gone) (onward r.job started m)
      (onward-IsPassed r.job started m) (λ s v. relay_answer-IsCounted r ms gone s v)

-- An attempt on the writers of `w`, behind one that told the consumer nothing.
went_out-IsCounted :
    (n : ℕ) (w : Ends) (f : Ends → Tried) (x : Option Reason × Ends)
    → x.1.told ≡ w.told
    → IsCounted false n x.1 (f x.1)
    → IsCounted false n w (went_out f x)
went_out-IsCounted n w f (some e, w') same h =
    let a = ap responses same in
    record { more = omega (arith, a); quiet = λ e. omega (arith, a); kept = λ e. e }
went_out-IsCounted n w f (none, w') same h =
    let a = ap responses same in
    record {
      more = let b = h.more in omega (arith, a, b);
      quiet = λ e. let b = h.quiet e in omega (arith, a, b);
      kept = h.kept;
    }

attempt-IsCounted :
    (line : Line) (req : Request) (p : Provider) (job : ℕ) (w : Ends)
    → IsCounted false (responses p.messages) w (attempt line req p job w)
unfolding attempt
attempt-IsCounted line req p job w =
    let m = Message.request job req.service req.method req.target req.headers in
    let r : Route = record {
      consumer = line;
      provider = p.line;
      job = req.job;
      provider_job = job;
    } in
    let v = (ask p.line m w).1 in
    let sent = send_body_end p.line job req.body req.trailers v.provider in
    went_out-IsCounted _ w _ (ask p.line m w) (ask-told p.line m w) (
      went_out-IsCounted _ v _ (with_provider v sent) (with_provider-told v sent)
        (relay_answer-IsCounted r p.messages p.gone false (with_provider v sent).1))

dispatch_on-IsCounted :
    (line : Line) (req : Request) (p : Provider) (w : Ends) (o : Opened × Conn)
    → IsCounted false (responses p.messages) w (dispatch_on line req p w o).0
dispatch_on-IsCounted line req p w (Opened.refused e, c) = record {
  more = omega arith;
  quiet = λ e. omega arith;
  kept = λ e. e;
}
dispatch_on-IsCounted line req p w (Opened.opened job q, c) = attempt-IsCounted line req p job w

dispatch-IsCounted :
    (line : Line) (req : Request) (p : Provider) (w : Ends)
    → IsCounted false (responses p.messages) w (dispatch line req p w).0
unfolding dispatch
dispatch-IsCounted line req p w =
    let h = dispatch_on-IsCounted line req p (record w { provider = p.encoder }) (new_job p.conn) in
    record { more = h.more; quiet = h.quiet; kept = h.kept }

answer_each-responses :
    (line : Line) (ms : List Message) (w : Ends)
    → responses (answer_each line ms w).told ≤ responses w.told + responses ms
unfolding answer_each
answer_each-responses line [] w = omega arith
answer_each-responses line (m ∷ ms) w =
    all_told (tell line m w) (tell-responses line m w)
      (answer_each-responses line ms (tell line m w).1)
  where
    all_told :
        (x : Option Reason × Ends)
        → responses x.1.told ≤ responses w.told + is_response m
        → responses (answer_each line ms x.1).told ≤ responses x.1.told + responses ms
        → responses (answered (answer_each line ms) x).told ≤ responses w.told + responses (m ∷ ms)
    all_told (some e, v) a b = omega (arith, a)
    all_told (none, v) a b = omega (arith, a, b)

answer-responses :
    (line : Line) (job status : ℕ) (why : Bytes) (w : Ends)
    → responses (answer line job status why w).told ≤ responses w.told + 1
unfolding answer synth_messages
answer-responses line job status why w =
    answer_each-responses line (synth_messages job status why) w

-- Each provider gives one RESPONSE at most.
abbrev pub AreSingle : List Turn → Type 0
AreSingle [] = Unit
AreSingle (Turn.leased p ∷ ts) = (responses p.messages ≤ 1) × AreSingle ts
AreSingle (t ∷ ts) = AreSingle ts

concluded-responses :
    (line : Line) (job : ℕ) (front : Bool) (rest : Ends → Relayed) (w : Ends) (t : Tried)
    → IsCounted false 1 w t
    → ((v : Ends) → responses (rest v).ends.told ≤ responses v.told + 1)
    → responses (concluded line job front rest t).ends.told ≤ responses w.told + 1
unfolding concluded
concluded-responses line job front rest w ((true, Outcome.provider_gone), v) h r =
    let a = h.more in
    let b = tell-responses line (Message.fail job gone_text) v in omega (arith, a, b)
concluded-responses line job front rest w ((true, o), v) h r = h.more
concluded-responses line job front rest w ((false, Outcome.relayed), v) h r = h.more
concluded-responses line job front rest w ((false, Outcome.cancelled), v) h r = h.more
concluded-responses line job front rest w ((false, Outcome.provider_gone), v) h r =
    let a = h.quiet refl in let b = r v in omega (arith, a, b)
concluded-responses line job front rest w ((false, Outcome.provider_fail reason), v) h r =
    let a = h.quiet refl in let b = answer-responses line job 502 reason v in omega (arith, a, b)
concluded-responses line job front rest w ((false, Outcome.misplaced k), v) h r =
    let a = h.quiet refl in
    let b = answer-responses line job 502 (misplaced_text k) v in omega (arith, a, b)

-- Where each provider that a job is handed to gives one RESPONSE at most, the consumer is sent one at
-- most in all, be it a provider's or the server's own, however many providers vanish.
pub relay_one_response :
    (line : Line) (req : Request) (front : Bool) (ts : List Turn) (w : Ends)
    → AreSingle ts
    → responses (relay line req front ts w).ends.told ≤ responses w.told + 1
unfolding relay
relay_one_response line req front [] w h = omega arith
relay_one_response line req front (Turn.refused why true ∷ ts) w h = omega arith
relay_one_response line req front (Turn.refused why false ∷ ts) w h =
    answer-responses line req.job 503 why w
relay_one_response line req front (Turn.unconnected ∷ ts) w h =
    answer-responses line req.job 502 unconnected_text w
relay_one_response line req front (Turn.leased p ∷ ts) w h =
    let d = dispatch-IsCounted line req p w in
    concluded-responses line req.job front (relay line req true ts) w (dispatch line req p w).0
      (record {
        more = let a = d.more in let b = h.0 in omega (arith, a, b);
        quiet = d.quiet;
        kept = d.kept;
      })
      (λ v. relay_one_response line req true ts v h.1)
