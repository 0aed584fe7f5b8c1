-- ===== src/Peer/Relay.antt =====
-- server.go: the relay of one job between the peer that submitted it and the providers it is handed to.
-- What the pool, the queues and the contexts answer is given: the messages that `next` of the
-- provider's queue will return and the end after them, and what each `Acquire` returns. That the leases
-- are given back is in the model of the pool.
pub mod Once
pub mod Answer
pub mod Requeue
pub mod Retry
use httppooler.Base.{
  ℕ, zero, suc, ◌+◌, ◌/◌, ◌%◌, Bool, true, false, Option, none, some, List, [], ◌∷◌, ◌++◌, length,
  ltb, ◌==◌, if◌then◌else◌,
}
use httppooler.Base.Bytes.{Bytes}
use httppooler.Wire.Message.{
  Role, Header, Message, kind, kind_hello, kind_ping, kind_pong, kind_request, kind_response,
  kind_body, kind_end, kind_cancel, kind_fail,
}
use httppooler.Wire.Encode.{Encoder}
use httppooler.Peer.Reason.{Reason}
use httppooler.Peer.Synth.{synth_messages, misplaced_text}
use httppooler.Peer.Body.{Line, send, send_body_end}
use httppooler.Peer.Conn.{Conn, Opened, new_job, end_job}

-- The writers of the two connections. `told` is what the consumer's took without an error.
pub record Ends : Type 0 where
  pub consumer : Encoder
  pub provider : Encoder
  pub told : List Message

abbrev heard : Message → Ends → Option Reason × Encoder → Option Reason × Ends
heard m w (some r, e) = (some r, record w { consumer = e })
heard m w (none, e) = (none, record w { consumer = e; told = w.told ++ m ∷ [] })

-- `c.send` and `target.send`.
unfoldable pub tell : Line → Message → Ends → Option Reason × Ends
tell line m w = heard m w (send line m w.consumer)

abbrev with_provider : Ends → Option Reason × Encoder → Option Reason × Ends
with_provider w (x, e) = (x, record w { provider = e })

unfoldable pub ask : Line → Message → Ends → Option Reason × Ends
ask line m w = with_provider w (send line m w.provider)

-- The error of one attempt; `relayed` is none.
pub data Outcome : Type 0 where
  relayed cancelled provider_gone : Outcome
  provider_fail : (reason : Bytes) → Outcome
  misplaced : (kind : ℕ) → Outcome

-- What the switch of `dispatch` makes of a message: one to pass on, and whether the answer has started.
pub data Onward : Type 0 where
  passes : Message → (started : Bool) → Onward
  fails : (reason : Bytes) → Onward
  stops : (kind : ℕ) → Onward

unfoldable pub onward : ℕ → Bool → Message → Onward
onward job started (Message.response j status hs) =
    Onward.passes (Message.response job status hs) true
onward job started (Message.body j bytes) = Onward.passes (Message.body job bytes) started
onward job started (Message.end j trailers) = Onward.passes (Message.end job trailers) started
onward job true (Message.fail j reason) = Onward.passes (Message.fail job reason) true
onward job false (Message.fail j reason) = Onward.fails reason
onward job started m = Onward.stops (kind m)

abbrev pub is_last : Message → Bool
is_last (Message.end job trailers) = true
is_last (Message.fail job reason) = true
is_last m = false

-- Whether a RESPONSE was relayed, and the error.
abbrev pub Tried : Type 0
Tried = (Bool × Outcome) × Ends

-- The lines to the consumer and the provider, and the job's id with each.
pub record Route : Type 0 where
  pub consumer : Line
  pub provider : Line
  pub job : ℕ
  pub provider_job : ℕ

-- The provider is told to stop.
unfoldable pub give_up : Route → Bool → Ends → Tried
give_up r started w =
    ((started, Outcome.cancelled), (ask r.provider (Message.cancel r.provider_job) w).1)

-- A round of the loop behind `c.send`; `rest` is the rounds that follow.
unfoldable pub passed_on : Route → Message → Bool → (Ends → Tried) → Option Reason × Ends → Tried
passed_on r m started rest (some e, w) = give_up r started w
passed_on r m started rest (none, w) = elim (is_last m) [
  | true ↦ ((started, Outcome.relayed), w)
  | false ↦ rest w
]

unfoldable pub round : Route → Bool → (Bool → Ends → Tried) → Ends → Onward → Tried
round r started rest w (Onward.fails reason) = ((false, Outcome.provider_fail reason), w)
round r started rest w (Onward.stops k) = ((started, Outcome.misplaced k), w)
round r started rest w (Onward.passes m s) = passed_on r m s (rest s) (tell r.consumer m w)

-- The loop of `dispatch` on the messages `ms`; `gone` says whether the context has ended when `next`
-- gives an error.
unfoldable pub relay_answer : Route → List Message → Bool → Bool → Ends → Tried
relay_answer r [] gone started w = elim gone [
  | true ↦ give_up r started w
  | false ↦ ((started, Outcome.provider_gone), w)
]
relay_answer r (m ∷ ms) gone started w =
    round r started (relay_answer r ms gone) w (onward r.job started m)

-- What the relay has of the REQUEST, behind `collect`.
pub record Request : Type 0 where
  pub job : ℕ
  pub service : Bytes
  pub method : Bytes
  pub target : Bytes
  pub headers : List Header
  pub body : Bytes
  pub trailers : List Header

-- What one attempt meets: the provider's connection, what other goroutines do to it meanwhile, its
-- writer, the messages that come back, and whether the context has ended after them.
pub record Provider : Type 0 where
  pub conn : Conn
  pub meanwhile : Conn → Conn
  pub line : Line
  pub encoder : Encoder
  pub messages : List Message
  pub gone : Bool

abbrev went_out : (Ends → Tried) → Option Reason × Ends → Tried
went_out f (some e, w) = ((false, Outcome.provider_gone), w)
went_out f (none, w) = f w

-- `dispatch` behind `newJob`.
unfoldable pub attempt : Line → Request → Provider → ℕ → Ends → Tried
attempt line req p job w =
    let r : Route = record {
      consumer = line;
      provider = p.line;
      job = req.job;
      provider_job = job;
    } in
    went_out
      (λ w'.
        went_out (relay_answer r p.messages p.gone false)
          (with_provider w' (send_body_end p.line job req.body req.trailers w'.provider)))
      (ask p.line (Message.request job req.service req.method req.target req.headers) w)

abbrev dispatch_on : Line → Request → Provider → Ends → Opened × Conn → Tried × Conn
dispatch_on line req p w (Opened.refused e, c) = (((false, Outcome.provider_gone), w), c)
dispatch_on line req p w (Opened.opened job q, c) =
    (attempt line req p job w, end_job job (p.meanwhile c))

-- `dispatch` of the server, and the provider's connection after it.
unfoldable pub dispatch : Line → Request → Provider → Ends → Tried × Conn
dispatch line req p w = dispatch_on line req p (record w { provider = p.encoder }) (new_job p.conn)

abbrev answered : (Ends → Ends) → Option Reason × Ends → Ends
answered rest (some e, w) = w
answered rest (none, w) = rest w

-- The loop of `answer`, which stops at the first error.
unfoldable pub answer_each : Line → List Message → Ends → Ends
answer_each line [] w = w
answer_each line (m ∷ ms) w = answered (answer_each line ms) (tell line m w)

unfoldable pub answer : Line → ℕ → ℕ → Bytes → Ends → Ends
answer line job status why w = answer_each line (synth_messages job status why) w

-- What `Acquire` returns to the loop of `relay`: an error, with whether the context has ended, a lease
-- whose target is no connection, or a lease with one.
pub data Turn : Type 0 where
  refused : (why : Bytes) → (ended : Bool) → Turn
  unconnected : Turn
  leased : Provider → Turn

-- How far the loop of `relay` is after the turns it was given.
pub data Progress : Type 0 where
  waiting done : Progress

-- The `front` of each `Acquire`, how far the loop is, and the writers.
pub record Relayed : Type 0 where
  pub fronts : List Bool
  pub progress : Progress
  pub ends : Ends

abbrev pub finished : Bool → Ends → Relayed
finished front w = record { fronts = front ∷ []; progress = Progress.done; ends = w }

abbrev pub before : Bool → Relayed → Relayed
before front r = record r { fronts = front ∷ r.fronts }

abbrev pub gone_text : Bytes
gone_text =
    b't' ∷ b'h' ∷ b'e' ∷ b' ' ∷ b'p' ∷ b'r' ∷ b'o' ∷ b'v' ∷ b'i' ∷ b'd' ∷ b'e' ∷ b'r' ∷ 39 ∷ b's'
    ∷ b' ' ∷ b'c' ∷ b'o' ∷ b'n' ∷ b'n' ∷ b'e' ∷ b'c' ∷ b't' ∷ b'i' ∷ b'o' ∷ b'n' ∷ b' ' ∷ b'e'
    ∷ b'n' ∷ b'd' ∷ b'e' ∷ b'd' ∷ []

abbrev pub unconnected_text : Bytes
unconnected_text =
    b't' ∷ b'h' ∷ b'e' ∷ b' ' ∷ b'p' ∷ b'r' ∷ b'o' ∷ b'v' ∷ b'i' ∷ b'd' ∷ b'e' ∷ b'r' ∷ b' ' ∷ b'h'
    ∷ b'a' ∷ b's' ∷ b' ' ∷ b'n' ∷ b'o' ∷ b' ' ∷ b'c' ∷ b'o' ∷ b'n' ∷ b'n' ∷ b'e' ∷ b'c' ∷ b't'
    ∷ b'i' ∷ b'o' ∷ b'n' ∷ []

-- The loop of `relay` behind an attempt; `rest` is the next turns.
unfoldable pub concluded : Line → ℕ → Bool → (Ends → Relayed) → Tried → Relayed
concluded line job front rest ((true, Outcome.provider_gone), w) =
    finished front (tell line (Message.fail job gone_text) w).1
concluded line job front rest ((true, o), w) = finished front w
concluded line job front rest ((false, Outcome.relayed), w) = finished front w
concluded line job front rest ((false, Outcome.cancelled), w) = finished front w
concluded line job front rest ((false, Outcome.provider_gone), w) = before front (rest w)
concluded line job front rest ((false, Outcome.provider_fail reason), w) =
    finished front (answer line job 502 reason w)
concluded line job front rest ((false, Outcome.misplaced k), w) =
    finished front (answer line job 502 (misplaced_text k) w)

-- The loop of `relay`, with `front` for the next `Acquire`.
unfoldable pub relay : Line → Request → Bool → List Turn → Ends → Relayed
relay line req front [] w = record { fronts = []; progress = Progress.waiting; ends = w }
relay line req front (Turn.refused why ended ∷ ts) w =
    finished front (elim ended [ true ↦ w | false ↦ answer line req.job 503 why w ])
relay line req front (Turn.unconnected ∷ ts) w =
    finished front (answer line req.job 502 unconnected_text w)
relay line req front (Turn.leased p ∷ ts) w =
    concluded line req.job front (relay line req true ts) (dispatch line req p w).0
