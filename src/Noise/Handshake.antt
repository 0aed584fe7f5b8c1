-- ===== src/Noise/Handshake.antt =====
-- noise.go: one side of the handshake.
pub mod Exchange
pub mod Turns
pub mod Agreement
use httppooler.Base.{
  ℕ, zero, suc, ◌+◌, Bool, true, false, not, Option, none, some, List, [], ◌∷◌, ◌++◌, length, take,
  drop, leb, ltb, ◌==◌, if◌then◌else◌,
}
use httppooler.Base.Bytes.{Bytes}
use httppooler.Noise.Suite.{Suite}
use httppooler.Noise.Symmetric.{
  NoiseError, Tried, also, or_lost, CipherState, Symmetric, key_size, mix_hash, new_symmetric,
  mix_key, mix_key_and_hash, encrypt_and_hash, decrypt_and_hash, split,
}

abbrev pub step_initiator_message : ℕ
step_initiator_message = 0

abbrev pub step_responder_message : ℕ
step_responder_message = 1

abbrev pub step_complete : ℕ
step_complete = 2

abbrev pub public_key_size : ℕ
public_key_size = 32

abbrev pub handshake_message_size : ℕ
handshake_message_size = 48

-- `random` is what the source of random bytes still gives.
pub record Config : Type 0 where
  pub initiator : Bool
  pub psk : Bytes
  pub prologue : Bytes
  pub random : Bytes

pub record Handshake : Type 0 where
  pub sym : Symmetric
  pub initiator : Bool
  pub psk : Bytes
  pub random : Bytes
  pub e : Option Bytes
  pub re : Option Bytes
  pub step : ℕ
  pub failed : Bool

-- A value or an error, and the handshake after it.
abbrev pub Attempt : Type 0 → Type 0
Attempt A = Tried A × Handshake

-- One statement after another: `h` is the handshake that an error leaves.
unfoldable pub and_then : {A B : Type 0} → Tried A → Handshake → (A → Attempt B) → Attempt B
and_then (Tried.got a) h f = f a
and_then (Tried.lost e) h f = (Tried.lost e, h)

-- Whether two flags are equal.
abbrev pub same : Bool → Bool → Bool
same true b = b
same false b = not b

-- What a message that passed its guards does to the step, and an error to the handshake.
unfoldable pub conclude : Attempt Bytes → Attempt Bytes
conclude (Tried.got bytes, h) = (Tried.got bytes, record h { step = suc h.step })
conclude (Tried.lost e, h) = (Tried.lost e, record h { failed = true })

module _ (u : Suite) where
  unfoldable pub new_handshake : Config → Tried Handshake
  new_handshake cfg =
      if not (length cfg.psk == key_size)
      then Tried.lost (NoiseError.psk_size (length cfg.psk))
      else Tried.got (record {
        sym = new_symmetric u cfg.prologue;
        initiator = cfg.initiator;
        psk = cfg.psk;
        random = cfg.random;
        e = none;
        re = none;
        step = step_initiator_message;
        failed = false;
      })

  -- `generateKeypair`: the private key, and what is left of the random bytes.
  unfoldable pub generate_keypair : Bytes → Tried Bytes × Bytes
  generate_keypair random =
      if leb key_size (length random)
      then (or_lost NoiseError.bad_key (u.new_private (take key_size random)), drop key_size random)
      else (Tried.lost NoiseError.random, [])

  -- The psk token, which only the first message has.
  unfoldable pub psk_token : ℕ → Bytes → Symmetric → Tried Symmetric
  psk_token step psk s =
      if step == step_initiator_message then mix_key_and_hash u psk s else Tried.got s

  -- `mixDH`. A key that is nil would be a panic in the code; `no_key` stands for that.
  unfoldable pub mix_dh : Option Bytes → Option Bytes → Symmetric → Tried Symmetric
  mix_dh e re s = also (or_lost NoiseError.no_key e) (λ private.
      also (or_lost NoiseError.no_key re) (λ public.
        also (or_lost NoiseError.agreement (u.ecdh private public)) (λ shared. mix_key u shared s)))

  -- The ee token, which only the second message has.
  unfoldable pub ee_token : ℕ → Option Bytes → Option Bytes → Symmetric → Tried Symmetric
  ee_token step e re s = if step == step_responder_message then mix_dh e re s else Tried.got s

  -- `writeMessage`.
  unfoldable pub write_tokens : Bytes → Handshake → Attempt Bytes
  write_tokens payload h = and_then (psk_token h.step h.psk h.sym) h (λ s1.
      let (key, rest) = generate_keypair h.random in
      let h1 = record h { sym = s1; random = rest } in
      and_then key h1 (λ e.
        let public = u.public e in
        let h2 = record h1 { e = some e; sym = mix_hash u public s1 } in
        and_then (mix_key u public (mix_hash u public s1)) h2 (λ s3.
          let h3 = record h2 { sym = s3 } in
          and_then (ee_token h.step (some e) h.re s3) h3 (λ s4.
            let h4 = record h3 { sym = s4 } in
            and_then (encrypt_and_hash u payload s4) h4
              (λ done. (Tried.got (public ++ done.0), record h4 { sym = done.1 }))))))

  -- `readMessage`.
  unfoldable pub read_tokens : Bytes → Handshake → Attempt Bytes
  read_tokens message h = and_then (psk_token h.step h.psk h.sym) h (λ s1.
      let h1 = record h { sym = s1 } in
      let public = take public_key_size message in
      and_then (or_lost NoiseError.bad_public (u.new_public public)) h1 (λ re.
        let h2 = record h1 { re = some re; sym = mix_hash u public s1 } in
        and_then (mix_key u public (mix_hash u public s1)) h2 (λ s3.
          let h3 = record h2 { sym = s3 } in
          and_then (ee_token h.step h.e (some re) s3) h3 (λ s4.
            let h4 = record h3 { sym = s4 } in
            and_then (decrypt_and_hash u (drop public_key_size message) s4) h4
              (λ done. (Tried.got done.0, record h4 { sym = done.1 }))))))

  unfoldable pub write_message : Bytes → Handshake → Attempt Bytes
  write_message payload h =
      if h.failed
      then (Tried.lost NoiseError.failed, h)
      else if h.step == step_complete
      then (Tried.lost NoiseError.complete, h)
      else if not (same h.initiator (h.step == step_initiator_message))
      then (Tried.lost NoiseError.no_turn, h)
      else conclude (write_tokens payload h)

  unfoldable pub read_message : Bytes → Handshake → Attempt Bytes
  read_message message h =
      if h.failed
      then (Tried.lost NoiseError.failed, h)
      else if h.step == step_complete
      then (Tried.lost NoiseError.complete, h)
      else if same h.initiator (h.step == step_initiator_message)
      then (Tried.lost NoiseError.no_turn, h)
      else if ltb (length message) handshake_message_size
      then (Tried.lost (NoiseError.message_size (length message)), h)
      else conclude (read_tokens message h)

  -- `Split`: the cipher states to send and to receive with.
  unfoldable pub split_keys : Handshake → Attempt (CipherState × CipherState)
  split_keys h =
      if h.failed
      then (Tried.lost NoiseError.failed, h)
      else if not (h.step == step_complete)
      then (Tried.lost NoiseError.not_complete, h)
      else and_then (split u h.sym) (record h { failed = true })
          (λ keys. (Tried.got (if h.initiator then keys else (keys.1, keys.0)), h))
