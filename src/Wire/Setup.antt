-- ===== src/Wire/Setup.antt =====
-- record.go: `Handshake`, the preamble and the noise handshake over one stream, on each side. The random
-- bytes, the primitives and the answer of the writer's one call are given.
pub mod Meeting
use httppooler.Base.{Bool, true, false, Option, none, some, List, [], ◌∷◌, ◌++◌}
use httppooler.Base.Bytes.{Bytes}
use httppooler.Base.Result.{Answer}
use httppooler.Noise.Suite.{Suite}
use httppooler.Noise.Symmetric.{NoiseError, Tried, CipherState}
use httppooler.Noise.Handshake.{
  Config, Handshake, Attempt, new_handshake, write_message, read_message, split_keys,
}
use httppooler.Wire.Preamble.{SetupError, Source, preamble, write_framed, read_opening}
use httppooler.Wire.Record.{RecordWriter, RecordReader, new_record_writer, new_record_reader}

pub record Session : Type 0 where
  pub reader : RecordReader
  pub writer : RecordWriter

-- What `Handshake` returns.
pub data Established : Type 0 where
  established : Session → Established
  noise : NoiseError → Established
  setup : SetupError → Established

-- The stream: what was given to its writer, and what its reader still has.
pub record Stream : Type 0 where
  pub wrote : List Bytes
  pub source : Source

abbrev pub Setup : Type 0
Setup = Established × Stream

-- What follows a call of the noise package.
unfoldable pub behind_noise : {A : Type 0} → Stream → (A → Handshake → Setup) → Attempt A → Setup
behind_noise w f (Tried.got a, h) = f a h
behind_noise w f (Tried.lost e, h) = (Established.noise e, w)

unfoldable pub behind_new : Stream → (Handshake → Setup) → Tried Handshake → Setup
behind_new w f (Tried.got h) = f h
behind_new w f (Tried.lost e) = (Established.noise e, w)

abbrev given_bytes : Option Bytes → Stream → Stream
given_bytes none w = w
given_bytes (some bytes) w = record w { wrote = w.wrote ++ bytes ∷ [] }

-- What follows `writeFramed`.
unfoldable pub behind_write : Stream → (Stream → Setup) → Option Bytes × Option SetupError → Setup
behind_write w f (bytes, some e) = (Established.setup e, given_bytes bytes w)
behind_write w f (bytes, none) = f (given_bytes bytes w)

-- What follows `readVersion` and `readFramed`.
unfoldable pub behind_read :
    Stream → (Bytes → Stream → Setup) → Answer SetupError Bytes × Source → Setup
behind_read w f (a, r) =
    let w' = record w { source = r } in
    elim a.error [
      | some e ↦ (Established.setup e, w')
      | none ↦ elim a.value [ some bytes ↦ f bytes w' | none ↦ f [] w' ]
    ]

abbrev pub session_of : CipherState × CipherState → Source → Session
session_of (send, receive) r = record {
  reader = new_record_reader r receive;
  writer = new_record_writer send;
}

module _ (u : Suite) where
  -- `Split`, and the record streams.
  unfoldable pub finish : Stream → Handshake → Setup
  finish w h =
      behind_noise w (λ keys h'. (Established.established (session_of keys w.source), w))
        (split_keys u h)

  -- The initiator behind its `readFramed`, behind its `writeFramed`, and behind its `WriteMessage`.
  unfoldable pub learn : Handshake → Bytes → Stream → Setup
  learn h answer w = behind_noise w (λ payload h'. finish w h') (read_message u answer h)

  unfoldable pub await : Handshake → Stream → Setup
  await h w = behind_read w (learn h) (read_opening w.source)

  unfoldable pub asked : Option SetupError → Stream → Bytes → Handshake → Setup
  asked failing w message h = behind_write w (await h) (write_framed failing preamble message)

  unfoldable pub ask : Option SetupError → Stream → Handshake → Setup
  ask failing w h = behind_noise w (asked failing w) (write_message u [] h)

  -- The responder behind its `WriteMessage`, its `ReadMessage`, and its `readFramed`.
  unfoldable pub answered : Option SetupError → Stream → Bytes → Handshake → Setup
  answered failing w answer h =
      behind_write w (λ w'. finish w' h) (write_framed failing preamble answer)

  unfoldable pub heard : Option SetupError → Stream → Bytes → Handshake → Setup
  heard failing w payload h = behind_noise w (answered failing w) (write_message u [] h)

  unfoldable pub hear : Option SetupError → Handshake → Bytes → Stream → Setup
  hear failing h message w = behind_noise w (heard failing w) (read_message u message h)

  unfoldable pub reply : Option SetupError → Stream → Handshake → Setup
  reply failing w h = behind_read w (hear failing h) (read_opening w.source)

  -- `Handshake` of the side that `initiator` says, where `random` is what crypto/rand gives.
  unfoldable pub handshake : Option SetupError → Bytes → Bool → Bytes → Source → Setup
  handshake failing psk initiator random r =
      let w : Stream = record { wrote = []; source = r } in
      let cfg : Config = record {
        initiator = initiator;
        psk = psk;
        prologue = preamble;
        random = random;
      } in
      behind_new w (λ h. elim initiator [ true ↦ ask failing w h | false ↦ reply failing w h ])
        (new_handshake u cfg)
