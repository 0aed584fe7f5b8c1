-- ===== src/Lib.antt =====
-- httppooler: a daemon that pools HTTP services between trusted peers. A server keeps a queue of jobs
-- for each service and hands free slots of providers to them (internal/pool); peers talk to it over
-- connections (internal/peer) in messages (internal/wire), over a Noise handshake and its cipher states
-- (internal/noise), as a configuration file says (internal/conf).
--
-- Files, and the code they are about:
-- - Base and its children: lists over native numbers, byte sequences and little-endian integers,
--   unicode/utf8's ValidString, answers with an error, maps as association lists.
-- - Wire/Message, Wire/Error: internal/wire/message.go, and the refusals as constructors.
-- - Wire/Layout: the byte layout and the ranges of PROTOCOL.md, written apart from the code.
-- - Wire/Build, Wire/Encode: internal/wire/encode.go. `fields` is the switch of `Encode`, `write` is
--   `Encoder.Write`, `hello_order` is `helloOrder`. Encode/Fields, Exact and Order have the proofs.
-- - Wire/Decoder, Wire/Decode: internal/wire/decode.go. A decoder is a state: the input that is left,
--   the error that it ends with, the remembered refusal. `next` is `Decoder.Next`. Decoder/Reads,
--   Fields, Rounds, Lists and Decode/Kinds, Hello, Accepts, Sound, Exact have the proofs.
-- - Wire/Preamble: internal/wire/wire.go and the framing of the handshake in internal/wire/record.go.
-- - Wire/Setup: `Handshake` of internal/wire/record.go on each side; `ask` is the initiator and
--   `reply` the responder. Setup/Meeting has the proofs.
-- - Wire/Session: one direction of a connection, encoder to decoder.
-- - Pool/Defs: internal/pool/pool.go, one function for each section under the lock. Pool/Best is about
--   `best`, Pool/Accounts about the counts of slots, Pool/Serve about the loop of `dispatch`,
--   Pool/Invariant, Steps and Runs about any order of the operations. Pool/Snapshot is `Snapshot`, and
--   Snapshot/Order its proofs.
-- - Peer/Queue: internal/peer/queue.go. Peer/Job: internal/peer/job.go. Peer/Body and Peer/Conn:
--   internal/peer/conn.go. Peer/Run is its read loop and `hello`.
-- - Peer/Relay: `relay`, `dispatch` and `answer` of internal/peer/server.go; Relay/Once, Answer, Retry
--   and Requeue have the proofs. Peer/Synth: `synthMessages` of internal/peer/consume.go.
--   Peer/Register: `register` and what `handle` does to the pool.
-- - Noise/Suite: the primitives under the handshake, as parameters with their documented laws.
-- - Noise/Cipher, Noise/Symmetric, Noise/Transport: internal/noise/state.go. Noise/Cipher is `seal`
--   and `open` on the counter, Symmetric the symmetric state of a handshake, Transport `Encrypt` and
--   `Decrypt`.
-- - Noise/Handshake: internal/noise/noise.go, a state machine of three steps. Handshake/Exchange and
--   Agreement are about two sides that talk to each other, Handshake/Turns about calls in any order.
-- - Wire/Record: the record writer and reader of internal/wire/record.go. Record/Frames, Written,
--   Stream and Stream/Both have the proofs.
-- - Conf/Text: the functions of strings that internal/conf uses. Conf/Parse: internal/conf/parse.go,
--   whose `split` makes sections of the text. Conf/Words: the defaults of internal/conf/conf.go.
--   Conf/Values and Conf/Build: internal/conf/build.go, and the types and `Parse` of conf.go.
--   Parse/Sections, Parse/Lines, Values/Bounds, Build/Added, Build/Loop and Build/Accepted have the
--   proofs.
-- - Wire/Tests, Pool/Tests, Peer/Tests, Noise/Tests, Conf/Tests: concrete runs.
--
-- How the code is modelled:
-- - A string or a slice of bytes is a list of numbers; a theorem that needs them below 256 says so. A
--   nil slice and an empty one are one list. An int is taken to have 64 bits, so no length overflows.
--   A job's id counter wraps around at 2^64 as a uint64 does.
-- - Objects behind pointers (providers, leases, waiters, queues) are numbers into a store, so two
--   holders of a pointer see each other's writes.
-- - `busy--` is a subtraction on natural numbers: the lease that `give_back` releases is counted in
--   `busy`, which the proof of `release` uses (Pool/Accounts, `reclaim-positive`).
-- - `Acquire` is split at its `select`: `acquire`, then `receive` or `leave` and `return_lease`. Any
--   interleaving of these sections with those of other goroutines is a list of calls in Pool/Runs.
-- - The channel `ready` of a queue is the number of broadcasts so far; the channels below it are
--   closed.
-- - Four loops are on fuel. The read loop `run` needs one more than the length of its input, as the
--   theorem about it says. That of `sendBodyEnd` and that of the record writer's `Write` have the
--   length of what is written, and each round takes at least one byte, which the proofs use; `gather`,
--   which calls the record reader's `Read` until it has n bytes, has n, and each call gives at least
--   one.
-- - A handshake's random bytes are a list in its state. The bytes of Unicode white space are written
--   out for strings.TrimSpace; strconv.Atoi and net.SplitHostPort are written out where they are used.
-- - A refusal of the configuration has a line and a constructor; the name of the file that it carries
--   is left out. time.ParseDuration and os.Hostname are parameters.
-- - What the pool, the queues and the contexts answer to a relay is given, as a list of turns and of
--   messages. `told` in its state is a log of what the consumer's writer took. The writes of other
--   jobs between those of one job are left out.
-- - `endJob` and `fail` close queues after the lock is given back; here each is one step. A queue that
--   they close is in no map any more, and a close or a push that comes later changes nothing.
--
-- Not modelled: the HTTP ends of internal/peer, the accepting of connections and the goroutines of PING
-- and PONG, logging, timers and sockets.
pub mod Base
pub mod Conf
pub mod Noise
pub mod Peer
pub mod Pool
pub mod Wire
