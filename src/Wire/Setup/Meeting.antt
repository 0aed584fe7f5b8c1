-- ===== src/Wire/Setup/Meeting.antt =====
-- Two sides of a connection, each of which reads what the other writes.
use httppooler.Base.{
  ℕ, ◌≤◌, ◌≡◌, refl, ap, ◌∙◌, Bool, true, false, Option, none, some, List, [], ◌∷◌, ◌++◌, length,
  arith,
}
use httppooler.Base.Bytes.{Bytes, to_le}
use httppooler.Base.Result.{ok}
use httppooler.Wire.Error.{IoError}
use httppooler.Noise.Suite.{Suite, IsSuite}
use httppooler.Noise.Symmetric.{Tried, CipherState}
use httppooler.Noise.Symmetric.Total.{IsFresh}
use httppooler.Noise.Handshake.{Config, Handshake, write_message, read_message, split_keys}
use httppooler.Noise.Handshake.Agreement.{handshake_agrees}
use httppooler.Wire.Preamble.{Source, preamble, write_framed, read_opening}
use httppooler.Wire.Preamble.Opening.{opening_read, framed_written}
use httppooler.Wire.Record.Frames.{flat}
use httppooler.Wire.Record.Stream.Both.{Gathered, gather, write_each, record_stream}
use httppooler.Noise.Cipher.{nonce_reserved}
use httppooler.Wire.Setup.{
  Established, Stream, Setup, behind_noise, behind_new, behind_write, behind_read, session_of,
  finish, learn, await, asked, ask, answered, heard, hear, reply, handshake,
}

abbrev side : Bytes → Bool → Bytes → Config
side psk initiator random = record {
  initiator = initiator;
  psk = psk;
  prologue = preamble;
  random = random;
}

-- The input `bytes`, and then what follows.
abbrev pub reads : Bytes → Source → Source
reads bytes r = record r { input = bytes ++ r.input }

-- A side that wrote `bytes`, read its whole opening, and has the keys to send and to receive with.
abbrev pub done : Bytes → Source → CipherState × CipherState → Setup
done bytes r keys =
    (Established.established (session_of keys r), record { wrote = bytes ∷ []; source = r })

-- Both sides ended with a session, whatever follows the openings that they read.
pub record HaveMet (u : Suite) (psk ours theirs : Bytes) : Type 0 where
  pub first : Bytes
  pub second : Bytes
  pub a : CipherState
  pub b : CipherState
  pub initiator :
      (here : Source) → handshake u none psk true ours (reads second here) ≡ done first here (a, b)
  pub responder :
      (there : Source)
      → handshake u none psk false theirs (reads first there) ≡ done second there (b, a)
  pub fresh : IsFresh a × IsFresh b

module _ (u : Suite) where
  finish-done :
      (w : Stream) (h : Handshake) (keys : CipherState × CipherState)
      → split_keys u h ≡ (Tried.got keys, h)
      → finish u w h ≡ (Established.established (session_of keys w.source), w)
  unfolding finish behind_noise
  finish-done w h keys e = ap (behind_noise w _) e

  ask-done :
      (r : Source) (h h1 h2 : Handshake) (message answer first second : Bytes)
      (keys : CipherState × CipherState)
      → write_message u [] h ≡ (Tried.got message, h1)
      → write_framed none preamble message ≡ (some first, none)
      → read_opening (reads second r) ≡ (ok answer, r)
      → read_message u answer h1 ≡ (Tried.got [], h2)
      → split_keys u h2 ≡ (Tried.got keys, h2)
      → ask u none (record { wrote = []; source = reads second r }) h ≡ done first r keys
  unfolding ask asked await learn behind_noise behind_write behind_read
  ask-done r h h1 h2 message answer first second keys asks frames opens learns splits =
      let w0 : Stream = record { wrote = []; source = reads second r } in
      let w1 : Stream = record { wrote = first ∷ []; source = reads second r } in
      let w2 : Stream = record { wrote = first ∷ []; source = r } in
      ap (behind_noise w0 (asked u none w0)) asks
      ∙ ap (behind_write w0 (await u h1)) frames
      ∙ ap (behind_read w1 (learn u h1)) opens
      ∙ ap (behind_noise w2 (λ payload h'. finish u w2 h')) learns
      ∙ finish-done w2 h2 keys splits

  reply-done :
      (r : Source) (h h1 h2 : Handshake) (message answer first second : Bytes)
      (keys : CipherState × CipherState)
      → read_opening (reads first r) ≡ (ok message, r)
      → read_message u message h ≡ (Tried.got [], h1)
      → write_message u [] h1 ≡ (Tried.got answer, h2)
      → write_framed none preamble answer ≡ (some second, none)
      → split_keys u h2 ≡ (Tried.got keys, h2)
      → reply u none (record { wrote = []; source = reads first r }) h ≡ done second r keys
  unfolding reply hear heard answered behind_noise behind_write behind_read
  reply-done r h h1 h2 message answer first second keys opens hears answers frames splits =
      let w0 : Stream = record { wrote = []; source = reads first r } in
      let w1 : Stream = record { wrote = []; source = r } in
      let w2 : Stream = record { wrote = second ∷ []; source = r } in
      ap (behind_read w0 (hear u none h)) opens
      ∙ ap (behind_noise w1 (heard u none w1)) hears
      ∙ ap (behind_noise w1 (answered u none w1)) answers
      ∙ ap (behind_write w1 (λ w'. finish u w' h2)) frames
      ∙ finish-done w2 h2 keys splits

-- An opening with the message, as it is written and as it is read before anything.
record IsOpened (message : Bytes) : Type 0 where
  bytes : Bytes
  framed : write_framed none preamble message ≡ (some bytes, none)
  read : (r : Source) → read_opening (reads bytes r) ≡ (ok message, r)

opened : (message : Bytes) → 48 ≤ length message → length message ≤ 65535 → IsOpened message
opened message low high =
    let framed = to_le 2 (length message) ++ message in
    record {
      bytes = preamble ++ framed;
      framed = framed_written message high;
      read = λ r. opening_read message r.input r.ends low high;
    }

-- Over primitives that keep their promises, the two sides of a connection with the same 32-byte secret
-- and 32 random bytes each, of which each reads what the other writes, both end with a session: each
-- wrote once, read just the other's opening and left whatever follows it, and each sends with the fresh
-- cipher state that the other receives with.
pub handshake-HaveMet :
    (u : Suite) (psk ours theirs : Bytes)
    → IsSuite u
    → length psk ≡ 32
    → 32 ≤ length ours
    → 32 ≤ length theirs
    → HaveMet u psk ours theirs
unfolding handshake behind_new
handshake-HaveMet u psk ours theirs v k o t =
    let g =
      handshake_agrees u (side psk true ours) (side psk false theirs) [] [] v
        (record { psk = k; random = o }) (record { psk = k; random = t }) refl refl refl refl
        (omega arith) (omega arith) in
    let (m, a) = g.sizes in
    let message = opened g.message (omega (arith, m)) (omega (arith, m)) in
    let answer = opened g.answer (omega (arith, a)) (omega (arith, a)) in
    record {
      first = message.bytes;
      second = answer.bytes;
      a = g.a;
      b = g.b;
      initiator = λ here.
          ap (behind_new _ _) g.starts.0
          ∙ ask-done u here g.init0 g.init1 g.init2 g.message g.answer message.bytes answer.bytes
              (g.a, g.b) g.asks message.framed (answer.read here) g.learns g.ours;
      responder = λ there.
          ap (behind_new _ _) g.starts.1
          ∙ reply-done u there g.resp0 g.resp1 g.resp2 g.message g.answer message.bytes answer.bytes
              (g.b, g.a) (message.read there) g.hears g.answers answer.framed g.theirs;
      fresh = g.fresh;
    }

-- What the initiator writes to its session in any number of writes, over a line that takes everything,
-- the responder reads from its own as one stream, after a handshake over primitives that keep their
-- promises, with the same 32-byte secret and 32 random bytes each: of at most 2^64 - 1 bytes, a read of
-- just `n` gives the first `n` of them, for any `n` up to all of them.
pub session_stream :
    (u : Suite) (psk ours theirs : Bytes) (answer : ℕ → Option IoError) (ps : List Bytes)
    (here : Source) (rest : Bytes) (ends : IoError) (n : ℕ)
    → IsSuite u
    → length psk ≡ 32
    → 32 ≤ length ours
    → 32 ≤ length theirs
    → ((k : ℕ) → answer k ≡ none)
    → length (flat ps) ≤ nonce_reserved
    → n ≤ length (flat ps)
    → (met : HaveMet u psk ours theirs) × (let sent =
          write_each answer ps (session_of (met.a, met.b) here).writer in
        let there : Source = record { input = flat sent.sent ++ rest; ends = ends } in
        Gathered n (flat ps) rest (gather n n (session_of (met.b, met.a) there).reader))
session_stream u psk ours theirs answer ps here rest ends n v k o t quiet few l =
    let met = handshake-HaveMet u psk ours theirs v k o t in
    let (aead, zero_nonce) = met.fresh.0 in
    (met, record_stream answer quiet met.a ps rest ends n aead (omega (arith, few, zero_nonce)) l)
