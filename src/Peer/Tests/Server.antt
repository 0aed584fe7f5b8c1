-- ===== src/Peer/Tests/Server.antt =====
-- Runs of the read loop, of the relay and of the registering of a peer.
use httppooler.Base.{◌≡◌, ◌≤◌, inl, refl, arith, false, none, List, [], ◌∷◌, map}
use httppooler.Base.Unique.{Unique}
use httppooler.Base.Map.{get, put, bytes_eq}
use httppooler.Wire.Message.{Role, Message, ProviderInfo}
use httppooler.Wire.Error.{IoError}
use httppooler.Wire.Encode.{new_encoder}
use httppooler.Wire.Decoder.{Decoder, new_decoder}
use httppooler.Pool.Defs.{Pool, new}
use httppooler.Peer.Tests.{steady, conn}
use httppooler.Peer.Run.{run_loop}
use httppooler.Peer.Run.Ends.{HasEnded, run_loop-HasEnded}
use httppooler.Peer.Relay.{Ends, Request, Provider, Turn, Route, Relayed, relay, relay_answer}
use httppooler.Peer.Relay.Once.{responses, relay_one_response}
use httppooler.Peer.Relay.Requeue.{IsRequeued, relay-IsRequeued}
use httppooler.Peer.Relay.Answer.{ArePassed, renumbered, relay_answer-ArePassed}
use httppooler.Peer.Relay.Retry.{relay_answer_untouched}
use httppooler.Peer.Register.{Registered, register, handle, register_each}
use httppooler.Peer.Register.Listed.{IsListed, refused_left}

-- The bytes of a PING, and then the end of the stream.
abbrev pinged : Decoder
pinged = new_decoder (2 ∷ []) IoError.eof Role.client

run_loop-HasEnded_example : HasEnded (run_loop 2 (λ n. none) (λ n c. c) 0 [] conn pinged)
unfolding new_decoder
run_loop-HasEnded_example =
    run_loop-HasEnded 2 (λ n. none) (λ n c. c) 0 [] conn pinged (omega arith, tt) (omega arith)

abbrev ends : Ends
ends = record { consumer = new_encoder Role.server; provider = new_encoder Role.server; told = [] }

abbrev request : Request
request = record {
  job = 3;
  service = b'a' ∷ [];
  method = b'G' ∷ [];
  target = b'/' ∷ [];
  headers = [];
  body = [];
  trailers = [];
}

-- A provider that vanishes, and one that answers.
abbrev provider_of : List Message → Provider
provider_of ms = record {
  conn = conn;
  meanwhile = λ c. c;
  line = steady;
  encoder = new_encoder Role.server;
  messages = ms;
  gone = false;
}

abbrev whole_answer : List Message
whole_answer = Message.response 2 200 [] ∷ Message.body 2 (7 ∷ []) ∷ Message.end 2 [] ∷ []

abbrev turns : List Turn
turns = Turn.leased (provider_of []) ∷ Turn.leased (provider_of whole_answer) ∷ []

relay_one_response_example : responses (relay steady request false turns ends).ends.told ≤ 1
relay_one_response_example =
    relay_one_response steady request false turns ends (omega arith, (omega arith, tt))

abbrev requeued : Relayed
requeued = relay steady request false turns ends

relay-IsRequeued_example : IsRequeued steady request false turns ends requeued
relay-IsRequeued_example = relay-IsRequeued steady request false turns ends

abbrev route : Route
route = record { consumer = steady; provider = steady; job = 3; provider_job = 2 }

relay_answer-ArePassed_example :
    ArePassed
      (map (renumbered 3) whole_answer)
      ends
      (relay_answer route whole_answer false false ends)
unfolding new_encoder
relay_answer-ArePassed_example =
    relay_answer-ArePassed route whole_answer false false ends (λ n. (refl, refl)) (inl refl) tt
      (
        (omega arith, ((omega arith, omega arith), (omega arith, tt))),
        ((omega arith, (omega arith, omega arith)), ((omega arith, (omega arith, tt)), tt)),
      )

abbrev failure : List Message
failure = Message.fail 2 (b'x' ∷ []) ∷ []

relay_answer_untouched_example : (relay_answer route failure false false ends).1.told ≡ []
unfolding relay_answer httppooler.Peer.Relay.round httppooler.Peer.Relay.onward
relay_answer_untouched_example = relay_answer_untouched route failure false ends tt refl

-- Two providers of one service.
abbrev info : ProviderInfo
info = record { service = b'a' ∷ []; max_concurrent = 1; priority = 0 }

abbrev two : List ProviderInfo
two = info ∷ info ∷ []

abbrev pool : Pool
pool =
    new 30
      (λ i. record { peer = []; service = []; slots = 1; priority = i; busy = 0; gone = false })
      (λ w. record { deadline = 0; lease = none })

two_refused : (register [] two 0 pool).0 ≡ Registered.twice (b'a' ∷ [])
unfolding register register_each get put bytes_eq
two_refused = refl

refused_left_example : IsListed 0 (b'a' ∷ []) (handle (λ p. p) (register [] two 0 pool))
refused_left_example = refused_left [] info (info ∷ []) 0 pool (λ p. p) (b'a' ∷ []) two_refused
