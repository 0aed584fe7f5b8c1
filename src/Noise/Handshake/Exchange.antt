-- ===== src/Noise/Handshake/Exchange.antt =====
-- One message of a handshake: what one side writes, the other reads, and both are in the same symmetric
-- state again.
use httppooler.Base.{
  ℕ, suc, ◌+◌, ◌≤◌, ◌≡◌, refl, sym, ap, ◌∙◌, ◌⊎◌, inl, inr, Bool, true, false, not, Option, some,
  ◌++◌, length, take, drop, leb, ltb, ◌==◌, if◌then◌else◌, arith, length-take, length-append,
  Bool-cases, take-append, drop-append,
}
use httppooler.Base.Bytes.{Bytes}
use httppooler.Noise.Cipher.{max_plaintext_size}
use httppooler.Noise.Suite.{Suite, IsSuite}
use httppooler.Noise.Symmetric.{
  Tried, Symmetric, mix_hash, mix_key, encrypt_and_hash, decrypt_and_hash,
}
use httppooler.Noise.Symmetric.Total.{
  IsKeyed, mix_key-total, mix_key_and_hash-total, encrypt_decrypt,
}
use httppooler.Noise.Handshake.{
  Handshake, and_then, same, conclude, generate_keypair, psk_token, mix_dh, ee_token, write_tokens,
  read_tokens, write_message, read_message,
}

-- The two sides are at the same message, `w` to write it and `r` to read it; by the second, each has
-- what the first left it.
pub record Meets (u : Suite) (w r : Handshake) : Type 0 where
  pub syms : r.sym ≡ w.sym
  pub psks : r.psk ≡ w.psk
  pub steps : r.step ≡ w.step
  pub live : (w.failed ≡ false) × (r.failed ≡ false)
  pub turn : (w.initiator ≡ (w.step == 0)) × (r.initiator ≡ not (w.step == 0))
  pub random : 32 ≤ length w.random
  pub known :
      (w.step ≡ 0) ⊎ ((w.step ≡ 1) × ((q : Bytes) × (r.e ≡ some q) × (w.re ≡ some (u.public q))))

-- A guard that does not hold.
pub passed : {A : Type 0} (b : Bool) (x y : A) → b ≡ false → (if b then x else y) ≡ y
passed b x y h = rw h

same_self : (b : Bool) → same b b ≡ true
same_self true = refl
same_self false = refl

same-not : (b : Bool) → same (not b) b ≡ false
same-not true = refl
same-not false = refl

module _ (u : Suite) (v : IsSuite u) where
  psk_token-total :
      (step : ℕ) (psk : Bytes) (s : Symmetric)
      → (s' : Symmetric) × (psk_token u step psk s ≡ Tried.got s')
  unfolding psk_token
  psk_token-total step psk s = elim (Bool-cases (step == 0)) [
    | inl first ↦ let (s', e, k) = mix_key_and_hash-total u v psk s in (s', rw (psk_token, first) e)
    | inr later ↦ (s, rw (psk_token, later))
  ]

  mix_dh-total :
      (p q secret : Bytes) (s : Symmetric)
      → u.ecdh p q ≡ some secret
      → mix_dh u (some p) (some q) s ≡ mix_key u secret s
  unfolding mix_dh mix_key
  mix_dh-total p q secret s h = rw (mix_dh, h)

  ee_token-first :
      (step : ℕ) (e re : Option Bytes) (s : Symmetric)
      → step ≡ 0
      → ee_token u step e re s ≡ Tried.got s
  unfolding ee_token
  ee_token-first step e re s h = rw (h, ee_token)

  ee_token-second :
      (step : ℕ) (e re : Option Bytes) (s : Symmetric)
      → step ≡ 1
      → ee_token u step e re s ≡ mix_dh u e re s
  unfolding ee_token mix_dh
  ee_token-second step e re s h = rw (h, ee_token)

  ee_token-agrees :
      (w r : Handshake) (p : Bytes) (s : Symmetric)
      → Meets u w r
      → IsKeyed s
      → (s' : Symmetric) × (ee_token u w.step (some p) w.re s ≡ Tried.got s')
        × (ee_token u w.step r.e (some (u.public p)) s ≡ Tried.got s')
        × IsKeyed s'
  ee_token-agrees w r p s m k = elim m.known [
    | inl first ↦ (
      s,
      ee_token-first w.step (some p) w.re s first,
      ee_token-first w.step r.e (some (u.public p)) s first,
      k,
    )
    | inr (second, (q, e, re)) ↦
        let (secret, one, two) = v.agrees p q in
        let (s', mixed, k') = mix_key-total u v secret s in
        (
          s',
          ee_token-second w.step (some p) w.re s second
              ∙ ap (λ x. mix_dh u (some p) x s) re
              ∙ mix_dh-total p (u.public q) secret s one
              ∙ mixed,
          ee_token-second w.step r.e (some (u.public p)) s second
              ∙ ap (λ x. mix_dh u x (some (u.public p)) s) e
              ∙ mix_dh-total q (u.public p) secret s two
              ∙ mixed,
          k',
        )
  ]

  -- What both sides are after the message: `p` is the writer's new private key.
  pub record Met (payload : Bytes) (w r : Handshake) : Type 0 where
    pub message : Bytes
    pub key : Bytes
    pub rest : Bytes
    pub state : Symmetric
    pub size : length message ≡ length payload + 48
    pub writes : write_message u payload w ≡ (
      Tried.got message,
      record w { sym = state; random = rest; e = some key; step = suc w.step },
    )
    pub reads :
        read_message u message r
        ≡ (Tried.got payload, record r { sym = state; re = some (u.public key); step = suc r.step })

  write_tokens-got :
      (payload : Bytes) (w : Handshake) {s1 s3 s4 s5 : Symmetric} {key rest ct : Bytes}
      → psk_token u w.step w.psk w.sym ≡ Tried.got s1
      → generate_keypair u w.random ≡ (Tried.got key, rest)
      → mix_key u (u.public key) (mix_hash u (u.public key) s1) ≡ Tried.got s3
      → ee_token u w.step (some key) w.re s3 ≡ Tried.got s4
      → encrypt_and_hash u payload s4 ≡ Tried.got (ct, s5)
      → write_tokens u payload w
        ≡ (Tried.got (u.public key ++ ct), record w { sym = s5; random = rest; e = some key })
  unfolding write_tokens and_then
  write_tokens-got payload w p g k e c = rw (write_tokens, p, g, k, e, c)

  read_tokens-got :
      (r : Handshake) (ct : Bytes) {s1 s3 s4 s5 : Symmetric} {public payload : Bytes}
      → length public ≡ 32
      → psk_token u r.step r.psk r.sym ≡ Tried.got s1
      → u.new_public public ≡ some public
      → mix_key u public (mix_hash u public s1) ≡ Tried.got s3
      → ee_token u r.step r.e (some public) s3 ≡ Tried.got s4
      → decrypt_and_hash u ct s4 ≡ Tried.got (payload, s5)
      → read_tokens u (public ++ ct) r
        ≡ (Tried.got payload, record r { sym = s5; re = some public })
  unfolding read_tokens and_then
  read_tokens-got r ct {public = public} l p n k e c =
      let head : take 32 (public ++ ct) ≡ public =
        ap (λ n. take n (public ++ ct)) (sym l) ∙ take-append public ct in
      let tail : drop 32 (public ++ ct) ≡ ct =
        ap (λ n. drop n (public ++ ct)) (sym l) ∙ drop-append public ct in
      rw (read_tokens, head, tail, p, n, k, e, c)

  write_message-got :
      (payload message : Bytes) (w w' : Handshake)
      → w.failed ≡ false
      → (w.step ≡ 0) ⊎ (w.step ≡ 1)
      → w.initiator ≡ (w.step == 0)
      → write_tokens u payload w ≡ (Tried.got message, w')
      → write_message u payload w ≡ (Tried.got message, record w' { step = suc w'.step })
  unfolding write_message conclude
  write_message-got payload message w w' f s t h =
      let more : (w.step == 2) ≡ false = ground (arith, s) in
      let ours : same w.initiator (w.step == 0) ≡ true =
        ap (λ b. same b (w.step == 0)) t ∙ same_self (w.step == 0) in
      passed w.failed _ _ f
      ∙ passed (w.step == 2) _ _ more
      ∙ passed (not (same w.initiator (w.step == 0))) _ _ (ap not ours)
      ∙ ap conclude h

  read_message-got :
      (payload message : Bytes) (r r' : Handshake)
      → r.failed ≡ false
      → (r.step ≡ 0) ⊎ (r.step ≡ 1)
      → r.initiator ≡ not (r.step == 0)
      → 48 ≤ length message
      → read_tokens u message r ≡ (Tried.got payload, r')
      → read_message u message r ≡ (Tried.got payload, record r' { step = suc r'.step })
  unfolding read_message conclude
  read_message-got payload message r r' f s t l h =
      let more : (r.step == 2) ≡ false = ground (arith, s) in
      let ours : same r.initiator (r.step == 0) ≡ false =
        ap (λ b. same b (r.step == 0)) t ∙ same-not (r.step == 0) in
      let size : ltb (length message) 48 ≡ false = ground (arith, l) in
      passed r.failed _ _ f
      ∙ passed (r.step == 2) _ _ more
      ∙ passed (same r.initiator (r.step == 0)) _ _ ours
      ∙ passed (ltb (length message) 48) _ _ size
      ∙ ap conclude h

  generate_keypair-total :
      (random : Bytes)
      → 32 ≤ length random
      → (key : Bytes) × (generate_keypair u random ≡ (Tried.got key, drop 32 random))
  unfolding generate_keypair
  generate_keypair-total random h =
      let (key, e) = v.privates (take 32 random) (omega (arith, length-take 32 random, h)) in
      let enough : leb 32 (length random) ≡ true = ground (arith, h) in
      (key, rw (generate_keypair, enough, e))

  -- Two sides that meet at a message both get over it, and are in one symmetric state again.
  pub exchange :
      (payload : Bytes) (w r : Handshake)
      → Meets u w r
      → length payload ≤ max_plaintext_size
      → Met payload w r
  exchange payload w r m fits =
      let at : (w.step ≡ 0) ⊎ (w.step ≡ 1) = elim m.known [ inl x ↦ inl x | inr (x, y) ↦ inr x ] in
      let (s1, p) = psk_token-total w.step w.psk w.sym in
      let (key, g) = generate_keypair-total w.random m.random in
      let public = u.public key in
      let (s3, k, keyed3) = mix_key-total u v public (mix_hash u public s1) in
      let (s4, ew, er, keyed4) = ee_token-agrees w r key s3 m keyed3 in
      let (ct, s5, l, c, d) = encrypt_decrypt u v payload s4 keyed4 fits in
      let size : length (public ++ ct) ≡ length payload + 48 =
        omega (arith, length-append public ct, v.sizes key, l) in
      record {
        message = public ++ ct;
        key = key;
        rest = drop 32 w.random;
        state = s5;
        size = size;
        writes =
            write_message-got payload (public ++ ct) w _ m.live.0 at m.turn.0
              (write_tokens-got payload w p g k ew c);
        reads =
            read_message-got payload (public ++ ct) r _ m.live.1 (rw m.steps at)
              (rw m.steps m.turn.1) (omega (arith, size))
              (read_tokens-got r ct (v.sizes key) (rw (m.steps, m.psks, m.syms) p) (v.publics key) k
                (rw m.steps er) d);
      }
