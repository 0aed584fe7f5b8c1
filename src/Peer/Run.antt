-- ===== src/Peer/Run.antt =====
-- conn.go: `hello` and the read loop `run`. What other goroutines do to the connection while a read is
-- under way is given, and so is whether the deadline of each read can be set.
pub mod Ends
use httppooler.Base.{ℕ, zero, suc, Option, none, some, List, [], ◌∷◌, ◌++◌}
use httppooler.Base.Result.{Answer}
use httppooler.Wire.Error.{Error}
use httppooler.Wire.Message.{ProviderInfo, Message, kind}
use httppooler.Wire.Decoder.{Decoder}
use httppooler.Wire.Decode.{next}
use httppooler.Peer.Reason.{Reason}
use httppooler.Peer.Conn.{Conn, Dispatched, dispatch, fail}

-- What `run` returns, which is none as long as it has not returned, with the connection then, the
-- decoder, and the requests that goroutines were started on with their queues.
pub record Ran : Type 0 where
  pub result : Option Reason
  pub conn : Conn
  pub decoder : Decoder
  pub serving : List (Message × ℕ)

abbrev pub Serving : Type 0
Serving = List (Message × ℕ)

-- `c.fail(err)` and `return err`.
unfoldable pub leave : Reason → Serving → Conn → Decoder → Ran
leave e s c d = record { result = some e; conn = fail e c; decoder = d; serving = s }

unfoldable pub handled : (Serving → Conn → Ran) → Serving → Decoder → Dispatched × Conn → Ran
handled rest s d (Dispatched.goes_on, c) = rest s c
handled rest s d (Dispatched.serves m q, c) = rest (s ++ (m, q) ∷ []) c
handled rest s d (Dispatched.ends e, c) = leave e s c d

-- A round of the loop behind `Next`.
unfoldable pub received :
    (Serving → Conn → Decoder → Ran) → Serving → Conn → Answer Error Message × Decoder → Ran
received rest s c (a, d) = elim a.error [
  | some e ↦ leave (Reason.wire e) s c d
  | none ↦ elim a.value [
    | some m ↦ handled (λ s' c'. rest s' c' d) s d (dispatch m c)
    | none ↦ record { result = none; conn = c; decoder = d; serving = s }
  ]
]

-- The loop of `run`, from its read `n` on. Fuel above the length of the input is enough.
unfoldable pub run_loop :
    ℕ → (ℕ → Option Reason) → (ℕ → Conn → Conn) → ℕ → Serving → Conn → Decoder → Ran
run_loop zero deadline others n s c d = record { result = none; conn = c; decoder = d; serving = s }
run_loop (suc fuel) deadline others n s c d = elim (deadline n) [
  | some e ↦ leave e s c d
  | none ↦ received (λ s' c'. run_loop fuel deadline others (suc n) s' c') s (others n c) (next d)
]

pub data Greeted : Type 0 where
  greeted : (name : List ℕ) → List ProviderInfo → Greeted
  refused : Reason → Greeted

unfoldable pub greeting : Message → Greeted
greeting (Message.hello name providers) = Greeted.greeted name providers
greeting m = Greeted.refused (Reason.first_message (kind m))

abbrev greeted_by : Answer Error Message × Decoder → Option Greeted × Decoder
greeted_by (a, d) = elim a.error [
  | some e ↦ (some (Greeted.refused (Reason.wire e)), d)
  | none ↦ elim a.value [ some m ↦ (some (greeting m), d) | none ↦ (none, d) ]
]

-- `hello`, for the answer of its call of SetReadDeadline.
unfoldable pub hello : Option Reason → Decoder → Option Greeted × Decoder
hello deadline d = elim deadline [
  | some e ↦ (some (Greeted.refused e), d)
  | none ↦ greeted_by (next d)
]
