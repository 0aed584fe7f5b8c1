-- ===== src/Peer/Run/Ends.antt =====
-- The read loop ends, and ends the connection.
use httppooler.Base.{
  ℕ, zero, suc, ◌+◌, ◌<◌, ◌≡◌, ◌≢◌, inl, inr, refl, sym, ap, ◌∙◌, subst, Option, none, some, [],
  ◌∷◌, ◌++◌, length, length-append, All-append_right, Option-cases, arith,
}
use httppooler.Base.Bytes.{AreBytes}
use httppooler.Base.Result.{Answer, ok}
use httppooler.Wire.Error.{Error}
use httppooler.Wire.Layout.{layout}
use httppooler.Wire.Message.{Message}
use httppooler.Wire.Decoder.{Decoder}
use httppooler.Wire.Decode.{next}
use httppooler.Wire.Decode.Accepts.{after}
use httppooler.Wire.Decode.Sound.{next_sound}
use httppooler.Peer.Reason.{Reason}
use httppooler.Peer.Conn.{Conn, Dispatched, dispatch, fail}
use httppooler.Peer.Conn.Ids.{fail_lem}
use httppooler.Peer.Run.{Ran, Serving, leave, handled, received, run_loop}

-- The loop returned with an error, which the connection failed with if it had not failed before.
pub record HasEnded (r : Ran) : Type 0 where
  pub reason : Reason
  pub last : Conn
  pub result : r.result ≡ some reason
  pub conn : r.conn ≡ fail reason last
  pub failed : r.conn.err ≢ none

some_reason : (e : Reason) → some e ≢ none
some_reason e p = ground arith

fail-err : (e : Reason) (c : Conn) → (fail e c).err ≢ none
fail-err e c = elim (fail_lem e c) [
  | inl (live, jobs, err, shut) ↦ λ n. some_reason e (sym err ∙ n)
  | inr (bad, same) ↦ λ n. bad (sym (ap (λ (x : Conn). x.err) same) ∙ n)
]

leave-HasEnded : (e : Reason) (s : Serving) (c : Conn) (d : Decoder) → HasEnded (leave e s c d)
unfolding leave
leave-HasEnded e s c d = record {
  reason = e;
  last = c;
  result = refl;
  conn = refl;
  failed = fail-err e c;
}

handled-HasEnded :
    (rest : Serving → Conn → Ran) (s : Serving) (d : Decoder) (x : Dispatched × Conn)
    → ((t : Serving) (c : Conn) → HasEnded (rest t c))
    → HasEnded (handled rest s d x)
unfolding handled
handled-HasEnded rest s d (Dispatched.goes_on, c) h = h s c
handled-HasEnded rest s d (Dispatched.serves m q, c) h = h (s ++ (m, q) ∷ []) c
handled-HasEnded rest s d (Dispatched.ends e, c) h = leave-HasEnded e s c d

refused-HasEnded :
    (rest : Serving → Conn → Decoder → Ran) (s : Serving) (c : Conn)
    (r : Answer Error Message × Decoder) (e : Error)
    → r.0.error ≡ some e
    → HasEnded (received rest s c r)
unfolding received
refused-HasEnded rest s c (a, d) e h = rw (received, h) (leave-HasEnded (Reason.wire e) s c d)

read-HasEnded :
    (rest : Serving → Conn → Decoder → Ran) (s : Serving) (c : Conn) (m : Message) (d : Decoder)
    → ((t : Serving) (c' : Conn) → HasEnded (rest t c' d))
    → HasEnded (received rest s c (ok m, d))
unfolding received
read-HasEnded rest s c m d h = handled-HasEnded (λ t c'. rest t c' d) s d (dispatch m c) h

-- On an input of bytes that ends, the read loop returns, whatever the messages are, what the other
-- goroutines do to the connection, and whether deadlines can be set; it returns an error, and the
-- connection has failed then.
pub run_loop-HasEnded :
    (fuel : ℕ) (deadline : ℕ → Option Reason) (others : ℕ → Conn → Conn) (n : ℕ) (s : Serving)
    (c : Conn) (d : Decoder)
    → AreBytes d.input
    → length d.input < fuel
    → HasEnded (run_loop fuel deadline others n s c d)
unfolding run_loop
run_loop-HasEnded zero deadline others n s c d b l = absurd (omega (arith, l))
run_loop-HasEnded (suc fuel) deadline others n s c d b l =
    round (deadline n) (elim (Option-cases (next d).0.error) [
      | inr (e, h) ↦ refused-HasEnded _ s (others n c) (next d) e h
      | inl h ↦
          let a = next_sound d b h in
          let size : length d.input ≡ length (layout a.read) + length a.rest =
            ap length a.input ∙ length-append (layout a.read) a.rest in
          let bytes : AreBytes a.rest =
            All-append_right _ (layout a.read) a.rest (subst AreBytes a.input b) in
          subst
            (λ x.
              HasEnded
                (received (λ s' c'. run_loop fuel deadline others (suc n) s' c') s (others n c) x))
            (sym a.result)
            (read-HasEnded _ s (others n c) a.read (after a.read a.rest d) (λ t c'.
              run_loop-HasEnded fuel deadline others (suc n) t c' (after a.read a.rest d) bytes
                (omega (arith, size, l))))
    ])
  where
    round :
        (o : Option Reason)
        → HasEnded (
            received (λ s' c'. run_loop fuel deadline others (suc n) s' c') s (others n c) (next d))
        → let r : Ran = elim o [
          | some e ↦ leave e s c d
          | none ↦
              received
                (λ s' c'. run_loop fuel deadline others (suc n) s' c')
                s
                (others n c)
                (next d)
        ] in
          HasEnded r
    round (some e) h = leave-HasEnded e s c d
    round none h = h
