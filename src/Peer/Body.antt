-- ===== src/Peer/Body.antt =====
-- conn.go: `send` and `sendBodyEnd`.
pub mod Sent
use httppooler.Base.{
  ℕ, zero, suc, Option, none, some, List, [], ◌∷◌, length, take, drop, ◌==◌, if◌then◌else◌,
}
use httppooler.Base.Bytes.{Bytes}
use httppooler.Wire.Error.{Error}
use httppooler.Wire.Message.{Header, Message}
use httppooler.Wire.Encode.{Encoder, write}
use httppooler.Peer.Reason.{Reason}

-- The transport, by the number of writes that it has had: whether the deadline can be set, and the
-- error of the next write.
pub record Line : Type 0 where
  pub deadline : ℕ → Option Reason
  pub answer : ℕ → Option Error

abbrev pub wrapped : Option Error → Option Reason
wrapped none = none
wrapped (some e) = some (Reason.wire e)

unfoldable pub send : Line → Message → Encoder → Option Reason × Encoder
send line m e = elim (line.deadline (length e.written)) [
  | some x ↦ (some x, e)
  | none ↦ let (x, e') = write (line.answer (length e.written)) e m in (wrapped x, e')
]

abbrev pub body_chunk : ℕ
body_chunk = 32768

-- The loop of `sendBodyEnd`. The fuel is the length of the body: each round takes at least one byte.
unfoldable pub send_chunks : ℕ → Line → ℕ → Bytes → Encoder → Option Reason × Encoder
unfolding send
send_chunks zero line job body e = (none, e)
send_chunks (suc n) line job body e =
    if length body == 0
    then (none, e)
    else let (x, e') = send line (Message.body job (take body_chunk body)) e in
      elim x [ some r ↦ (some r, e') | none ↦ send_chunks n line job (drop body_chunk body) e' ]

unfoldable pub send_body_end : Line → ℕ → Bytes → List Header → Encoder → Option Reason × Encoder
unfolding send_chunks
send_body_end line job body trailers e =
    let (x, e') = send_chunks (length body) line job body e in
    elim x [ some r ↦ (some r, e') | none ↦ send line (Message.end job trailers) e' ]
