-- ===== src/Wire/Encode.antt =====
-- encode.go: `Encode`, and the `Encoder` that keeps the order of HELLO.
pub mod Fields
pub mod Exact
pub mod Order
use httppooler.Base.{
  ℕ, ◌≡◌, Bool, true, false, not, ◌&&◌, List, Option, none, some, [], ◌∷◌, ◌++◌, length, ◌==◌,
  if◌then◌else◌,
}
use httppooler.Base.Bytes.{Bytes}
use httppooler.Wire.Message.{Role, Message, kind, kind_hello}
use httppooler.Wire.Message
use httppooler.Wire.Error
use httppooler.Wire.Error.{Error, What}
use httppooler.Wire.Build.{
  Builder, Build, ◌▷◌, u8, u16, str8, str16, name8, text16, job, slots, status, count8, chunk,
  headers, each_provider,
}

abbrev nothing : Build
nothing b = b

-- The fields of each kind, in the order of the switch.
unfoldable pub fields : Message → Build
fields (Message.hello name providers) =
    name8 What.peer_name name ▷ count8 What.providers (length providers) ▷ each_provider providers
fields Message.ping = nothing
fields Message.pong = nothing
fields (Message.request id service method target hs) =
    job id
    ▷ name8 What.service service
    ▷ str8 What.method method
    ▷ str16 What.target target
    ▷ headers hs
fields (Message.response id s hs) = job id ▷ status s ▷ headers hs
fields (Message.body id bytes) = job id ▷ chunk bytes
fields (Message.end id trailers) = job id ▷ headers trailers
fields (Message.cancel id) = job id
fields (Message.fail id reason) = job id ▷ text16 What.reason reason

-- `Encode` appends to `dst`; a refusal gives `dst` back as it was.
unfoldable pub encode : Bytes → Message → Bytes × Option Error
unfolding fields kind
encode dst m =
    let b = fields m (record { buf = dst ++ kind m ∷ []; error = none }) in
    elim b.error [ none ↦ (b.buf, none) | some e ↦ (dst, some e) ]

-- `written` holds the arguments of the calls of `w.Write`, in order.
pub record Encoder : Type 0 where
  pub role : Role
  pub sent_hello : Bool
  pub buf : Bytes
  pub written : List Bytes

unfoldable pub new_encoder : Role → Encoder
new_encoder role = record { role = role; sent_hello = false; buf = []; written = [] }

is_hello : Message → Bool
unfolding kind
is_hello m = kind m == kind_hello

same : Bool → Bool → Bool
same true b = b
same false b = not b

is_client : Role → Bool
is_client Role.client = true
is_client Role.server = false

unfoldable pub hello_order : Encoder → Message → Option Error
unfolding is_hello same is_client
hello_order e m =
    let hello = is_hello m in
    if hello && not (is_client e.role)
    then some Error.server_sends_hello
    else if is_client e.role && same hello e.sent_hello
    then if hello then some Error.hello_twice else some (Error.before_hello (kind m))
    else none

-- The call of `w.Write`, and what follows it. `answer` is the error that the writer returns.
unfoldable pub hand_over : Option Error → Message → Encoder → Option Error × Encoder
unfolding is_hello
hand_over answer m e =
    let called = record e { written = e.written ++ e.buf ∷ [] } in
    elim answer [
      | some x ↦ (some x, called)
      | none ↦ (none, if is_hello m then record called { sent_hello = true } else called)
    ]

unfoldable pub write : Option Error → Encoder → Message → Option Error × Encoder
unfolding hello_order encode hand_over
write answer e m = elim (hello_order e m) [
  | some x ↦ (some x, e)
  | none ↦
      let (buf, refused) = encode [] m in
      elim refused [
        | some x ↦ (some x, record e { buf = [] })
        | none ↦ hand_over answer m (record e { buf = buf })
      ]
]
