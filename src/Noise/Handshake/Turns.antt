-- ===== src/Noise/Handshake/Turns.antt =====
-- The handshake as a state machine: whose turn it is, and when the keys come out.
use httppooler.Base.{
  ℕ, suc, ◌≡◌, ◌⊎◌, inl, inr, refl, sym, ap, subst, ◌∙◌, Bool, true, false, not, ◌&&◌, append-nil,
  List, [], ◌∷◌, ◌++◌, length, ltb, ◌==◌, if◌then◌else◌, arith,
}
use httppooler.Base.Bytes.{Bytes}
use httppooler.Noise.Suite.{Suite}
use httppooler.Noise.Symmetric.{NoiseError, Tried, CipherState, split}
use httppooler.Noise.Handshake.{
  Config, Handshake, Attempt, and_then, same, conclude, new_handshake, write_tokens, read_tokens,
  write_message, read_message, split_keys,
}

-- The step and the failure that a handshake is at, and whose side it is.
record Keeps {A : Type 0} (h : Handshake) (r : Attempt A) : Type 0 where
  pub step : r.1.step ≡ h.step
  pub failed : r.1.failed ≡ h.failed
  pub initiator : r.1.initiator ≡ h.initiator

and_then-Keeps :
    {A B : Type 0} (h g : Handshake) (t : Tried A) (f : A → Attempt B)
    → (g.step ≡ h.step) × (g.failed ≡ h.failed) × (g.initiator ≡ h.initiator)
    → ((a : A) → Keeps h (f a))
    → Keeps h (and_then t g f)
unfolding and_then
and_then-Keeps h g (Tried.got a) f k each = each a
and_then-Keeps h g (Tried.lost e) f (s, x, i) each = record { step = s; failed = x; initiator = i }

module _ (u : Suite) where
  write_tokens-Keeps : (payload : Bytes) (h : Handshake) → Keeps h (write_tokens u payload h)
  unfolding write_tokens
  write_tokens-Keeps payload h =
      and_then-Keeps h _ _ _ (refl, refl, refl)
        (λ s1.
          and_then-Keeps h _ _ _ (refl, refl, refl)
            (λ e.
              and_then-Keeps h _ _ _ (refl, refl, refl)
                (λ s3.
                  and_then-Keeps h _ _ _ (refl, refl, refl)
                    (λ s4.
                      and_then-Keeps h _ _ _ (refl, refl, refl)
                        (λ done. record { step = refl; failed = refl; initiator = refl })))))

  read_tokens-Keeps : (message : Bytes) (h : Handshake) → Keeps h (read_tokens u message h)
  unfolding read_tokens
  read_tokens-Keeps message h =
      and_then-Keeps h _ _ _ (refl, refl, refl)
        (λ s1.
          and_then-Keeps h _ _ _ (refl, refl, refl)
            (λ e.
              and_then-Keeps h _ _ _ (refl, refl, refl)
                (λ s3.
                  and_then-Keeps h _ _ _ (refl, refl, refl)
                    (λ s4.
                      and_then-Keeps h _ _ _ (refl, refl, refl)
                        (λ done. record { step = refl; failed = refl; initiator = refl })))))

-- What a call of `WriteMessage` or `ReadMessage` comes to: `ours` says whether it was its turn.
abbrev pub Turn : Bool → Handshake → Attempt Bytes → Type 0
Turn ours h r =
    ((bytes : Bytes) × (r.0 ≡ Tried.got bytes)
      × (ours ≡ true)
      × (r.1.step ≡ suc h.step)
      × (r.1.failed ≡ false)
      × (r.1.initiator ≡ h.initiator))
    ⊎ ((e : NoiseError) × (r.0 ≡ Tried.lost e) × ((r.1 ≡ h) ⊎ (r.1.failed ≡ true)))

-- The turn to write, and the turn to read.
abbrev pub may_write : Handshake → Bool
may_write h = not h.failed && (not (h.step == 2) && same h.initiator (h.step == 0))

abbrev pub may_read : Handshake → Bool
may_read h = not h.failed && (not (h.step == 2) && not (same h.initiator (h.step == 0)))

conclude-Turn :
    (ours : Bool) (h : Handshake) (r : Attempt Bytes)
    → ours ≡ true
    → h.failed ≡ false
    → Keeps h r
    → Turn ours h (conclude r)
unfolding conclude
conclude-Turn ours h (Tried.got bytes, g) t f k =
    inl (bytes, refl, t, ap suc k.step, k.failed ∙ f, k.initiator)
conclude-Turn ours h (Tried.lost e, g) t f k = inr (e, refl, inr refl)

not-not : (b : Bool) → not b ≡ false → b ≡ true
not-not true h = refl
not-not false h = sym h

refused : (ours : Bool) (h : Handshake) (e : NoiseError) → Turn ours h (Tried.lost e, h)
refused ours h e = inr (e, refl, inl refl)

guard-Turn :
    (ours b : Bool) (h : Handshake) (x y : Attempt Bytes)
    → Turn ours h x
    → (b ≡ false → Turn ours h y)
    → Turn ours h (if b then x else y)
guard-Turn ours true h x y t f = t
guard-Turn ours false h x y t f = f refl

module _ (u : Suite) where
  -- `WriteMessage` in its turn advances by one step, or fails the handshake; out of its turn, or on a
  -- failed handshake, it refuses and changes nothing.
  pub write_message-Turn :
      (payload : Bytes) (h : Handshake) → Turn (may_write h) h (write_message u payload h)
  unfolding write_message
  write_message-Turn payload h = guard-Turn _ h.failed h _ _ (refused _ h _) (λ f.
      guard-Turn _ (h.step == 2) h _ _ (refused _ h _) (λ c.
        guard-Turn _ (not (same h.initiator (h.step == 0))) h _ _ (refused _ h _) (λ t.
          conclude-Turn (may_write h) h _ (rw (f, c) (not-not _ t)) f
            (write_tokens-Keeps u payload h))))

  pub read_message-Turn :
      (message : Bytes) (h : Handshake) → Turn (may_read h) h (read_message u message h)
  unfolding read_message
  read_message-Turn message h = guard-Turn _ h.failed h _ _ (refused _ h _) (λ f.
      guard-Turn _ (h.step == 2) h _ _ (refused _ h _) (λ c.
        guard-Turn _ (same h.initiator (h.step == 0)) h _ _ (refused _ h _) (λ t.
          guard-Turn _ (ltb (length message) 48) h _ _ (refused _ h _) (λ l.
            conclude-Turn (may_read h) h _ (rw (f, c, t)) f (read_tokens-Keeps u message h)))))

-- A call, and the messages that went by: `true` for one that was written, `false` for one that was read.
pub data Call : Type 0 where
  writes reads : Bytes → Call

abbrev went : {A : Type 0} → Bool → Tried A → List Bool
went way (Tried.got a) = way ∷ []
went way (Tried.lost e) = []

unfoldable pub call : Suite → Call → List Bool × Handshake → List Bool × Handshake
call u (Call.writes payload) (log, h) =
    let (t, g) = write_message u payload h in (log ++ went true t, g)
call u (Call.reads message) (log, h) =
    let (t, g) = read_message u message h in (log ++ went false t, g)

unfoldable pub calls : Suite → List Call → List Bool × Handshake → List Bool × Handshake
calls u [] s = s
calls u (c ∷ cs) s = calls u cs (call u c s)

-- The messages that have gone by at a step: the initiator writes and then reads.
abbrev IsLog : Bool → ℕ → List Bool → Type 0
IsLog initiator step log =
    ((step ≡ 0) × (log ≡ []))
    ⊎ (((step ≡ 1) × (log ≡ initiator ∷ []))
        ⊎ ((step ≡ 2) × (log ≡ initiator ∷ not initiator ∷ [])))

abbrev IsTraced : Bool → List Bool × Handshake → Type 0
IsTraced initiator s =
    (s.1.failed ≡ true)
    ⊎ ((s.1.failed ≡ false) × (s.1.initiator ≡ initiator) × IsLog initiator s.1.step s.0)

IsLog-write :
    (t f : Bool) (step : ℕ) (log : List Bool)
    → (not f && (not (step == 2) && same t (step == 0))) ≡ true
    → IsLog t step log
    → IsLog t (suc step) (log ++ true ∷ [])
IsLog-write true f step log m (inl (s, l)) = rw l (ground arith)
IsLog-write false f step log m (inl (s, l)) = ground arith
IsLog-write true f step log m (inr (inl (s, l))) = ground arith
IsLog-write false f step log m (inr (inl (s, l))) = rw l (ground arith)
IsLog-write t f step log m (inr (inr (s, l))) = ground arith

IsLog-read :
    (t f : Bool) (step : ℕ) (log : List Bool)
    → (not f && (not (step == 2) && not (same t (step == 0)))) ≡ true
    → IsLog t step log
    → IsLog t (suc step) (log ++ false ∷ [])
IsLog-read false f step log m (inl (s, l)) = rw l (ground arith)
IsLog-read true f step log m (inl (s, l)) = ground arith
IsLog-read false f step log m (inr (inl (s, l))) = ground arith
IsLog-read true f step log m (inr (inl (s, l))) = rw l (ground arith)
IsLog-read t f step log m (inr (inr (s, l))) = ground arith

-- One call, on what it came to.
Turn-IsTraced :
    (t ours way : Bool) (log : List Bool) (h : Handshake) (r : Attempt Bytes)
    → (ours ≡ true
        → h.failed ≡ false
        → h.initiator ≡ t
        → IsLog t h.step log
        → IsLog t (suc h.step) (log ++ way ∷ []))
    → (ours ≡ true → h.failed ≡ false)
    → Turn ours h r
    → IsTraced t (log, h)
    → IsTraced t (log ++ went way r.0, r.1)
Turn-IsTraced t ours way log h r next live (inl (bytes, g, o, s, f, i)) (inl bad) =
    absurd (cc (bad, live o))
Turn-IsTraced t ours way log h r next live (inl (bytes, g, o, s, f, i)) (inr (x, y, l)) =
    inr (f, i ∙ y, rw (s, g) (next o x y l))
Turn-IsTraced t ours way log h r next live (inr (e, g, inl same)) tr = rw (g, append-nil, same) tr
Turn-IsTraced t ours way log h r next live (inr (e, g, inr bad)) tr = inl bad

call-IsTraced :
    (u : Suite) (t : Bool) (c : Call) (s : List Bool × Handshake)
    → IsTraced t s
    → IsTraced t (call u c s)
unfolding call
call-IsTraced u t (Call.writes payload) (log, h) tr =
    Turn-IsTraced t (may_write h) true log h (write_message u payload h)
      (λ o f i l. IsLog-write t h.failed h.step log (rw (sym i) o) l) (λ o. ground (arith, o))
      (write_message-Turn u payload h) tr
call-IsTraced u t (Call.reads message) (log, h) tr =
    Turn-IsTraced t (may_read h) false log h (read_message u message h)
      (λ o f i l. IsLog-read t h.failed h.step log (rw (sym i) o) l) (λ o. ground (arith, o))
      (read_message-Turn u message h) tr

calls-IsTraced :
    (u : Suite) (t : Bool) (cs : List Call) (s : List Bool × Handshake)
    → IsTraced t s
    → IsTraced t (calls u cs s)
unfolding calls
calls-IsTraced u t [] s tr = tr
calls-IsTraced u t (c ∷ cs) s tr = calls-IsTraced u t cs (call u c s) (call-IsTraced u t c s tr)

guard-got :
    {A : Type 0} (b : Bool) (h : Handshake) (x : NoiseError) (y : Attempt A) (a : A)
    → (if b then (Tried.lost x, h) else y).0 ≡ Tried.got a
    → (b ≡ false) × (y.0 ≡ Tried.got a)
guard-got true h x y a e = absurd (ground arith)
guard-got false h x y a e = (refl, e)

new-got :
    {A : Type 0} (b : Bool) (x : NoiseError) (y a : A)
    → (if b then Tried.lost x else Tried.got y) ≡ Tried.got a
    → y ≡ a
new-got true x y a e = absurd (ground arith)
new-got false x y a e = ground arith

split_keys-got :
    (u : Suite) (h : Handshake) (keys : CipherState × CipherState)
    → (split_keys u h).0 ≡ Tried.got keys
    → (h.failed ≡ false) × (h.step ≡ 2)
unfolding split_keys
split_keys-got u h keys e =
    let (live, rest) = guard-got h.failed h _ _ keys e in
    let (done, split) = guard-got (not (h.step == 2)) h _ _ keys rest in
    (live, ground (arith, done))

new_handshake-IsTraced :
    (u : Suite) (cfg : Config) (h : Handshake)
    → new_handshake u cfg ≡ Tried.got h
    → IsTraced cfg.initiator ([], h)
unfolding new_handshake
new_handshake-IsTraced u cfg h e =
    subst (λ g. IsTraced cfg.initiator ([], g)) (new-got (not (length cfg.psk == 32)) _ _ h e)
      (inr (refl, refl, inl (refl, refl)))

-- A handshake that `NewHandshake` made and that any calls of `WriteMessage` and `ReadMessage` went to, in
-- any order and with any bytes, gives its keys only after both messages have gone by without an error:
-- an initiator's written and then its answer read, a responder's the other way round.
pub keys_after_both :
    (u : Suite) (cfg : Config) (h : Handshake) (cs : List Call) (keys : CipherState × CipherState)
    → new_handshake u cfg ≡ Tried.got h
    → (split_keys u (calls u cs ([], h)).1).0 ≡ Tried.got keys
    → (calls u cs ([], h)).0 ≡ cfg.initiator ∷ not cfg.initiator ∷ []
keys_after_both u cfg h cs keys new e =
    let (live, done) = split_keys-got u (calls u cs ([], h)).1 keys e in
    elim (calls-IsTraced u cfg.initiator cs ([], h) (new_handshake-IsTraced u cfg h new)) [
      | inl bad ↦ absurd (cc (bad, live))
      | inr (f, i, inl (s, l)) ↦ absurd (omega (arith, s, done))
      | inr (f, i, inr (inl (s, l))) ↦ absurd (omega (arith, s, done))
      | inr (f, i, inr (inr (s, l))) ↦ l
    ]
