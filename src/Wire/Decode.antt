-- ===== src/Wire/Decode.antt =====
-- decode.go: `Next`, and the fields of each kind in the order that is the format.
pub mod Kinds
pub mod Hello
pub mod Accepts
pub mod Sound
pub mod Exact
use httppooler.Base.{
  ℕ, zero, suc, Bool, true, false, not, ◌&&◌, Option, none, some, List, [], ◌∷◌, ◌++◌, ◌==◌,
  if◌then◌else◌,
}
use httppooler.Base.Bytes.{Bytes}
use httppooler.Base.Result.{Answer, ok, err}
use httppooler.Wire.Message.{
  Role, ProviderInfo, Message, kind_hello, kind_ping, kind_pong, kind_request, kind_response,
  kind_body, kind_end, kind_cancel, kind_fail,
}
use httppooler.Wire.Error.{Error, What, IoError}
use httppooler.Wire.Decoder.{
  Decoder, Decoding, pure, ◌>>=◌, fail, failed, u8, u16, str8, str16, name8, text16, job, slots,
  status, chunk, headers,
}

unfoldable pub provider : Decoding ProviderInfo
unfolding name8 slots u16
provider = do
  service ← name8 What.service
  max_concurrent ← slots
  priority ← u16
  pure (record { service = service; max_concurrent = max_concurrent; priority = priority })

-- The loop of `hello` with `n` rounds left; `none` is the nil that an error in a round returns.
unfoldable pub each_provider : ℕ → List ProviderInfo → Decoding (Option (List ProviderInfo))
unfolding provider
each_provider zero ps d = (some ps, d)
each_provider (suc n) ps d =
    let (p, d') = provider d in
    elim d'.error [ some e ↦ (none, d') | none ↦ each_provider n (ps ++ p ∷ []) d' ]

-- `d.gotHello = true; return m`, at both ends of `hello`.
unfoldable pub greeted : Bytes → Option (List ProviderInfo) → Decoding (Option Message)
greeted name none d = (none, d)
greeted name (some ps) d = (some (Message.hello name ps), record d { got_hello = true })

-- `hello` after its count has been read.
unfoldable pub hello_of : Bytes → ℕ → Decoding (Option Message)
unfolding each_provider greeted
hello_of name count d =
    if failed d
    then (none, d)
    else if count == 0
    then greeted name (some []) d
    else (do ps ← each_provider count []; greeted name ps) d

unfoldable pub hello_fields : Decoding (Option Message)
unfolding name8 u8 hello_of
hello_fields = do name ← name8 What.peer_name; count ← u8; hello_of name count

unfoldable pub is_server : Role → Bool
is_server Role.server = true
is_server Role.client = false

unfoldable pub hello : Decoding (Option Message)
unfolding fail hello_fields is_server
hello d =
    if not (is_server d.role)
    then (none, fail Error.server_sends_hello d)
    else if d.got_hello
    then (none, fail Error.hello_twice d)
    else hello_fields d

unfoldable pub request : Decoding (Option Message)
unfolding job name8 str8 str16 headers
request = do
  id ← job
  service ← name8 What.service
  method ← str8
  target ← str16
  hs ← headers
  pure (some (Message.request id service method target hs))

unfoldable pub response : Decoding (Option Message)
unfolding job status headers
response = do id ← job; s ← status; hs ← headers; pure (some (Message.response id s hs))

unfoldable pub body : Decoding (Option Message)
unfolding job chunk
body = do id ← job; piece ← chunk; pure (some (Message.body id piece))

unfoldable pub end : Decoding (Option Message)
unfolding job headers
end = do id ← job; trailers ← headers; pure (some (Message.end id trailers))

unfoldable pub cancel : Decoding (Option Message)
unfolding job
cancel = do id ← job; pure (some (Message.cancel id))

unfoldable pub fail_message : Decoding (Option Message)
unfolding job text16
fail_message = do id ← job; reason ← text16 What.reason; pure (some (Message.fail id reason))

-- The switch on the kind; `none` is its default case.
unfoldable pub fields : ℕ → Option (Decoding (Option Message))
fields k =
    if k == kind_hello
    then some hello
    else if k == kind_ping
    then some (pure (some Message.ping))
    else if k == kind_pong
    then some (pure (some Message.pong))
    else if k == kind_request
    then some request
    else if k == kind_response
    then some response
    else if k == kind_body
    then some body
    else if k == kind_end
    then some end
    else if k == kind_cancel
    then some cancel
    else if k == kind_fail
    then some fail_message
    else none

-- `if d.err != nil { return nil, d.err }; return m, nil`
unfoldable pub conclude : Option Message → Decoding (Answer Error Message)
conclude m d = elim d.error [ some e ↦ (err e, d) | none ↦ (record { value = m; error = none }, d) ]

unfoldable pub message : ℕ → Decoding (Answer Error Message)
unfolding fields conclude is_server
message k d =
    if is_server d.role && (not d.got_hello && not (k == kind_hello))
    then (err (Error.before_hello k), d)
    else elim (fields k) [
      | none ↦ (err (Error.unknown_kind k), d)
      | some read ↦ (do m ← read; conclude m) d
    ]

-- A refused message is remembered in the decoder.
unfoldable pub remember : Answer Error Message → Decoding (Answer Error Message)
remember answer d = elim answer.error [
  | some e ↦ (err e, record d { error = some e })
  | none ↦ (answer, d)
]

-- At the end of the stream only an error that is not io.EOF is remembered.
unfoldable pub at_end : Decoding (Answer Error Message)
at_end d = elim d.ends [
  | IoError.eof ↦ (err (Error.io IoError.eof), d)
  | other ↦ (err (Error.io other), record d { error = some (Error.io other) })
]

unfoldable pub next_of : Bytes → Decoding (Answer Error Message)
unfolding message remember at_end
next_of [] d = at_end d
next_of (first ∷ rest) d = (do m ← message first; remember m) (record d { input = rest })

unfoldable pub next : Decoding (Answer Error Message)
unfolding next_of
next d = elim d.error [ some e ↦ (err e, d) | none ↦ next_of d.input d ]
