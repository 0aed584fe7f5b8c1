-- ===== src/Noise/Handshake/Agreement.antt =====
-- The whole handshake, between two sides with the same key and the same prologue.
use httppooler.Base.{
  ◌+◌, ◌≤◌, ◌≡◌, refl, ◌∙◌, inl, inr, sym, ap, not, some, true, false, none, ◌==◌, if◌then◌else◌,
  length, arith,
}
use httppooler.Base.Bytes.{Bytes}
use httppooler.Noise.Cipher.{max_plaintext_size}
use httppooler.Noise.Suite.{Suite, IsSuite}
use httppooler.Noise.Symmetric.{Tried, CipherState, new_symmetric, split}
use httppooler.Noise.Symmetric.Total.{IsFresh, split-total}
use httppooler.Noise.Handshake.{
  Config, Handshake, new_handshake, write_message, read_message, split_keys, and_then,
}
use httppooler.Noise.Handshake.Exchange.{Met, exchange, passed}

abbrev pub config_of : (psk prologue : Bytes) → Config → Config
config_of psk prologue cfg = record cfg { psk = psk; prologue = prologue }

-- Both sides run to their end: `a` is what the initiator sends with and `b` what it receives with.
pub record Agreed (u : Suite) (initiator responder : Config) (first second : Bytes) : Type 0 where
  pub init0 : Handshake
  pub init1 : Handshake
  pub init2 : Handshake
  pub resp0 : Handshake
  pub resp1 : Handshake
  pub resp2 : Handshake
  pub message : Bytes
  pub answer : Bytes
  pub a : CipherState
  pub b : CipherState
  pub sizes : (length message ≡ length first + 48) × (length answer ≡ length second + 48)
  pub starts :
      (new_handshake u initiator ≡ Tried.got init0) × (new_handshake u responder ≡ Tried.got resp0)
  pub asks : write_message u first init0 ≡ (Tried.got message, init1)
  pub hears : read_message u message resp0 ≡ (Tried.got first, resp1)
  pub answers : write_message u second resp1 ≡ (Tried.got answer, resp2)
  pub learns : read_message u answer init1 ≡ (Tried.got second, init2)
  pub ours : split_keys u init2 ≡ (Tried.got (a, b), init2)
  pub theirs : split_keys u resp2 ≡ (Tried.got (b, a), resp2)
  pub fresh : IsFresh a × IsFresh b

-- What a configuration must have.
pub record IsUsable (cfg : Config) : Type 0 where
  pub psk : length cfg.psk ≡ 32
  pub random : 32 ≤ length cfg.random

abbrev started : Suite → Config → Handshake
started u cfg = record {
  sym = new_symmetric u cfg.prologue;
  initiator = cfg.initiator;
  psk = cfg.psk;
  random = cfg.random;
  e = none;
  re = none;
  step = 0;
  failed = false;
}

new_handshake-started :
    (u : Suite) (cfg : Config) → IsUsable cfg → new_handshake u cfg ≡ Tried.got (started u cfg)
unfolding new_handshake
new_handshake-started u cfg h = rw (new_handshake, h.psk)

split_keys-done :
    (u : Suite) (h : Handshake) (a b : CipherState)
    → h.failed ≡ false
    → h.step ≡ 2
    → split u h.sym ≡ Tried.got (a, b)
    → split_keys u h ≡ (Tried.got (if h.initiator then (a, b) else (b, a)), h)
unfolding split_keys and_then
split_keys-done u h a b f s e =
    let complete : (h.step == 2) ≡ true = ground (arith, s) in
    passed h.failed _ _ f
    ∙ passed (not (h.step == 2)) _ _ (ap not complete)
    ∙ ap
        (λ t.
          and_then t (record h { failed = true })
            (λ keys. (Tried.got (if h.initiator then keys else (keys.1, keys.0)), h)))
        e

-- Over primitives that keep their promises, an initiator and a responder with the same 32-byte key, the
-- same prologue and 32 random bytes each get through the handshake without an error, whatever two
-- payloads of at most 65519 bytes they send; each reads the other's payload, the messages are 48 bytes
-- longer than the payloads, and the initiator's key to send with is the responder's to receive with,
-- and the other way round, both fresh.
pub handshake_agrees :
    (u : Suite) (initiator responder : Config) (first second : Bytes)
    → IsSuite u
    → IsUsable initiator
    → IsUsable responder
    → initiator.initiator ≡ true
    → responder.initiator ≡ false
    → responder.psk ≡ initiator.psk
    → responder.prologue ≡ initiator.prologue
    → length first ≤ max_plaintext_size
    → length second ≤ max_plaintext_size
    → Agreed u initiator responder first second
handshake_agrees u ci cr first second v hi hr ti tr psk prologue f s =
    let init0 = started u ci in
    let resp0 = started u cr in
    let one : Met u v first init0 resp0 =
      exchange u v first init0 resp0
        (record {
          syms = rw prologue;
          psks = psk;
          steps = refl;
          live = (refl, refl);
          turn = (ti, tr);
          random = hi.random;
          known = inl refl;
        })
        f in
    let init1 : Handshake = record init0 {
      sym = one.state;
      random = one.rest;
      e = some one.key;
      step = 1;
    } in
    let resp1 : Handshake = record resp0 {
      sym = one.state;
      re = some (u.public one.key);
      step = 1;
    } in
    let two : Met u v second resp1 init1 =
      exchange u v second resp1 init1
        (record {
          syms = refl;
          psks = sym psk;
          steps = refl;
          live = (refl, refl);
          turn = (tr, ti);
          random = hr.random;
          known = inr (refl, (one.key, refl, refl));
        })
        s in
    let init2 : Handshake = record init1 {
      sym = two.state;
      re = some (u.public two.key);
      step = 2;
    } in
    let resp2 : Handshake = record resp1 {
      sym = two.state;
      random = two.rest;
      e = some two.key;
      step = 2;
    } in
    let (a, b, e, fa, fb) = split-total u v two.state in
    record {
      init0 = init0;
      init1 = init1;
      init2 = init2;
      resp0 = resp0;
      resp1 = resp1;
      resp2 = resp2;
      message = one.message;
      answer = two.message;
      a = a;
      b = b;
      sizes = (one.size, two.size);
      starts = (new_handshake-started u ci hi, new_handshake-started u cr hr);
      asks = one.writes;
      hears = one.reads;
      answers = two.writes;
      learns = two.reads;
      ours =
          split_keys-done u init2 a b refl refl e
          ∙ ap (λ t. (Tried.got (if t then (a, b) else (b, a)), init2)) ti;
      theirs =
          split_keys-done u resp2 a b refl refl e
          ∙ ap (λ t. (Tried.got (if t then (a, b) else (b, a)), resp2)) tr;
      fresh = (fa, fb);
    }
