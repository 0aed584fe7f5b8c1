-- ===== src/Wire/Encode/Exact.antt =====
-- `Encode` writes the layout of a message that is in range, and refuses every other.
use httppooler.Base.{
  ◌≡◌, refl, ap, ◌⊎◌, inl, inr, Option, none, some, [], ◌∷◌, ◌++◌, arith, append_assoc,
  Option-cases,
}
use httppooler.Base.Bytes.{Bytes}
use httppooler.Wire.Message.{Message, kind}
use httppooler.Wire.Error.{Error, What}
use httppooler.Wire.Layout.{fields_layout, layout, IsValid}
use httppooler.Wire.Build.{Builder, append}
use httppooler.Wire.Encode.Fields.{
  Writes, Writes-then, nothing-Writes, job-Writes, name8-Writes, str8-Writes, str16-Writes,
  text16-Writes, status-Writes, count8-Writes, chunk-Writes, headers-Writes, each_provider-Writes,
}
use httppooler.Wire.Encode.{fields, encode}

fields-Writes : (m : Message) → Writes (IsValid m) (fields_layout m) (fields m)
unfolding fields
fields-Writes (Message.hello name ps) =
    Writes-then (name8-Writes What.peer_name name)
      (Writes-then (count8-Writes What.providers _) (each_provider-Writes ps))
fields-Writes Message.ping = nothing-Writes
fields-Writes Message.pong = nothing-Writes
fields-Writes (Message.request id service method target hs) = Writes-then (job-Writes id) (
    Writes-then (name8-Writes What.service service) (
      Writes-then (str8-Writes What.method method)
        (Writes-then (str16-Writes What.target target) (headers-Writes hs))))
fields-Writes (Message.response id s hs) =
    Writes-then (job-Writes id) (Writes-then (status-Writes s) (headers-Writes hs))
fields-Writes (Message.body id bytes) = Writes-then (job-Writes id) (chunk-Writes bytes)
fields-Writes (Message.end id trailers) = Writes-then (job-Writes id) (headers-Writes trailers)
fields-Writes (Message.cancel id) = job-Writes id
fields-Writes (Message.fail id reason) =
    Writes-then (job-Writes id) (text16-Writes What.reason reason)

abbrev started : Bytes → Message → Builder
started dst m = record { buf = dst ++ kind m ∷ []; error = none }

-- A message in range is written whole.
pub encode-layout : (dst : Bytes) (m : Message) → IsValid m → encode dst m ≡ (dst ++ layout m, none)
unfolding encode
encode-layout dst m v =
    let done : fields m (started dst m) ≡ append (fields_layout m) (started dst m) =
      (fields-Writes m).accepts (started dst m) refl v in
    ground (arith, done, append_assoc dst (kind m ∷ []) (fields_layout m))

pub encode-IsValid : (dst : Bytes) (m : Message) → (encode dst m).1 ≡ none → IsValid m
unfolding encode
encode-IsValid dst m h = elim (Option-cases (fields m (started dst m)).error) [
  | inl e ↦ ((fields-Writes m).refuses (started dst m) e).1
  | inr (x, e) ↦ cc (rw (e, encode) at h)
]

pub encode-refused :
    (dst : Bytes) (m : Message) (x : Error)
    → (encode dst m).1 ≡ some x
    → encode dst m ≡ (dst, some x)
unfolding encode
encode-refused dst m x h = ground arith

-- `Encode` either appends the message's layout, and the message is in range, or it refuses, gives
-- `dst` back, and the message is out of range.
pub encode_exact :
    (dst : Bytes) (m : Message)
    → ((encode dst m ≡ (dst ++ layout m, none)) × IsValid m)
      ⊎ (((x : Error) × (encode dst m ≡ (dst, some x))) × ¬ IsValid m)
encode_exact dst m = elim (Option-cases (encode dst m).1) [
  | inl e ↦ inl (encode-layout dst m (encode-IsValid dst m e), encode-IsValid dst m e)
  | inr (x, e) ↦ inr (
    (x, encode-refused dst m x e),
    λ v. cc (ap (λ (r : Bytes × Option Error). r.1) (encode-layout dst m v), e),
  )
]
