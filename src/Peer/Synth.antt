-- ===== src/Peer/Synth.antt =====
-- consume.go: `synthMessages`, the answer that the server makes up, and the texts that it says.
use httppooler.Base.{
  ℕ, zero, suc, ◌+◌, ◌/◌, ◌%◌, List, [], ◌∷◌, ◌++◌, length, ltb, ◌==◌, if◌then◌else◌,
}
use httppooler.Base.Bytes.{Bytes}
use httppooler.Wire.Message.{
  Header, Message, kind, kind_hello, kind_ping, kind_pong, kind_request, kind_response, kind_body,
  kind_end, kind_cancel, kind_fail,
}

-- strconv.Itoa of a number; `fuel` digits are enough for one below 10 ^ fuel.
unfoldable pub itoa_from : ℕ → ℕ → Bytes → Bytes
itoa_from zero n acc = acc
itoa_from (suc fuel) n acc =
    let rest = itoa_from fuel (n / 10) ((48 + n % 10) ∷ acc) in
    if ltb n 10 then (48 + n) ∷ acc else rest

abbrev pub itoa : ℕ → Bytes
itoa n = itoa_from (suc n) n []

abbrev content_type : Header
content_type = record {
  name = b'C' ∷ b'o' ∷ b'n' ∷ b't' ∷ b'e' ∷ b'n' ∷ b't' ∷ b'-' ∷ b'T' ∷ b'y' ∷ b'p' ∷ b'e' ∷ [];
  value =
      b't' ∷ b'e' ∷ b'x' ∷ b't' ∷ b'/' ∷ b'p' ∷ b'l' ∷ b'a' ∷ b'i' ∷ b'n' ∷ b';' ∷ b' ' ∷ b'c'
      ∷ b'h' ∷ b'a' ∷ b'r' ∷ b's' ∷ b'e' ∷ b't' ∷ b'=' ∷ b'u' ∷ b't' ∷ b'f' ∷ b'-' ∷ b'8' ∷ [];
}

abbrev content_length : ℕ → Header
content_length n = record {
  name =
      b'C' ∷ b'o' ∷ b'n' ∷ b't' ∷ b'e' ∷ b'n' ∷ b't' ∷ b'-' ∷ b'L' ∷ b'e' ∷ b'n' ∷ b'g' ∷ b't'
      ∷ b'h' ∷ [];
  value = itoa n;
}

unfoldable pub synth_messages : ℕ → ℕ → Bytes → List Message
synth_messages job status why =
    let body = why ++ 10 ∷ [] in
    Message.response job status (content_type ∷ content_length (length body) ∷ [])
    ∷ Message.body job body
    ∷ Message.end job []
    ∷ []

-- A digit of a number below 16.
abbrev hex : ℕ → ℕ
hex n = if ltb n 10 then 48 + n else 87 + n

-- `String` of a kind.
abbrev kind_text : ℕ → Bytes
kind_text kind =
    if kind == kind_hello
    then b'H' ∷ b'E' ∷ b'L' ∷ b'L' ∷ b'O' ∷ []
    else if kind == kind_ping
    then b'P' ∷ b'I' ∷ b'N' ∷ b'G' ∷ []
    else if kind == kind_pong
    then b'P' ∷ b'O' ∷ b'N' ∷ b'G' ∷ []
    else if kind == kind_request
    then b'R' ∷ b'E' ∷ b'Q' ∷ b'U' ∷ b'E' ∷ b'S' ∷ b'T' ∷ []
    else if kind == kind_response
    then b'R' ∷ b'E' ∷ b'S' ∷ b'P' ∷ b'O' ∷ b'N' ∷ b'S' ∷ b'E' ∷ []
    else if kind == kind_body
    then b'B' ∷ b'O' ∷ b'D' ∷ b'Y' ∷ []
    else if kind == kind_end
    then b'E' ∷ b'N' ∷ b'D' ∷ []
    else if kind == kind_cancel
    then b'C' ∷ b'A' ∷ b'N' ∷ b'C' ∷ b'E' ∷ b'L' ∷ []
    else if kind == kind_fail
    then b'F' ∷ b'A' ∷ b'I' ∷ b'L' ∷ []
    else b'k' ∷ b'i' ∷ b'n' ∷ b'd' ∷ b' ' ∷ b'0' ∷ b'x' ∷ hex (kind / 16) ∷ hex (kind % 16) ∷ []

abbrev pub misplaced_text : ℕ → Bytes
misplaced_text kind =
    kind_text kind
    ++ b' ' ∷ b'w' ∷ b'h' ∷ b'e' ∷ b'r' ∷ b'e' ∷ b' ' ∷ b'a' ∷ b'n' ∷ b' ' ∷ b'a' ∷ b'n' ∷ b's'
      ∷ b'w' ∷ b'e' ∷ b'r' ∷ b' ' ∷ b'b' ∷ b'e' ∷ b'l' ∷ b'o' ∷ b'n' ∷ b'g' ∷ b's' ∷ []
