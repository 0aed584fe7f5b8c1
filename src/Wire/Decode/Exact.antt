-- ===== src/Wire/Decode/Exact.antt =====
-- `Next` against `Encode`: the round trip, its converse, and what a refusal leaves behind.
use httppooler.Base.{
  ◌≡◌, ◌⊎◌, inl, inr, sym, ap, ◌∙◌, Option, none, some, [], ◌∷◌, ◌++◌, arith, Option-cases,
}
use httppooler.Base.Bytes.{Bytes, AreBytes}
use httppooler.Base.Result.{Answer, ok, err}
use httppooler.Wire.Message.{Message}
use httppooler.Wire.Error.{Error}
use httppooler.Wire.Layout.{layout, IsValid, Fits}
use httppooler.Wire.Encode.{encode}
use httppooler.Wire.Encode.Exact.{encode-layout, encode-IsValid}
use httppooler.Wire.Decoder.{Decoder, Decoding, ◌>>=◌}
use httppooler.Wire.Decode.{message, remember, at_end, next_of, next}
use httppooler.Wire.Decode.Accepts.{IsDue, after, next_accepts}
use httppooler.Wire.Decode.Sound.{next_sound}

-- What `Encode` wrote of a message whose fields hold Go values, `Next` reads back, and leaves the
-- bytes that follow, if the message's kind is due and nothing was refused before.
pub next-encode :
    (d : Decoder) (m : Message) (bytes rest : Bytes)
    → encode [] m ≡ (bytes, none)
    → Fits m
    → IsDue d m
    → d.error ≡ none
    → d.input ≡ bytes ++ rest
    → next d ≡ (ok m, after m rest d)
next-encode d m bytes rest e t due clear i =
    let v : IsValid m = encode-IsValid [] m (ap (λ (r : Bytes × Option Error). r.1) e) in
    let same : bytes ≡ layout m =
      ap (λ (r : Bytes × Option Error). r.0) (sym e ∙ encode-layout [] m v) in
    next_accepts d rest clear m due v t (i ∙ ap (λ u. u ++ rest) same)

-- Whatever `Next` returns without an error, on an input of bytes, stood in the input as the bytes
-- that `Encode` writes for it; its kind was due, its fields hold Go values, and just those bytes
-- are gone from the input.
pub encode-next :
    (d : Decoder)
    → AreBytes d.input
    → (next d).0.error ≡ none
    → (m : Message) × (bytes : Bytes) × (rest : Bytes) × (encode [] m ≡ (bytes, none))
      × Fits m
      × IsDue d m
      × (d.input ≡ bytes ++ rest)
      × (next d ≡ (ok m, after m rest d))
encode-next d b h =
    let a = next_sound d b h in
    (
      a.read,
      layout a.read,
      a.rest,
      encode-layout [] a.read a.valid,
      a.fits,
      a.due,
      a.input,
      a.result,
    )

-- What a refusal leaves: the error in the decoder, or the decoder as it was.
abbrev Refused : Decoder → Error → Answer Error Message × Decoder → Type 0
Refused d e r = (r.0 ≡ err e) × ((r.1.error ≡ some e) ⊎ (r.1 ≡ d))

remember-Refused :
    (d d1 : Decoder) (f : Decoding (Answer Error Message)) (e : Error)
    → ((f >>= remember) d1).0.error ≡ some e
    → Refused d e ((f >>= remember) d1)
unfolding remember
remember-Refused d d1 f e h = (ground arith, inl (ground arith))

at_end-Refused : (d : Decoder) (e : Error) → (at_end d).0.error ≡ some e → Refused d e (at_end d)
unfolding at_end
at_end-Refused d e h = ground arith

next_of-Refused :
    (input : Bytes) (d : Decoder) (e : Error)
    → (next_of input d).0.error ≡ some e
    → Refused d e (next_of input d)
unfolding next_of
next_of-Refused [] d e h = at_end-Refused d e h
next_of-Refused (k ∷ r) d e h = remember-Refused d (record d { input = r }) (message k) e h

next-Refused : (d : Decoder) (e : Error) → (next d).0.error ≡ some e → Refused d e (next d)
unfolding next
next-Refused d e h = elim (Option-cases d.error) [
  | inl clear ↦ ground (arith, next_of-Refused d.input d e)
  | inr (x, e') ↦ ground arith
]

-- On an input of bytes, `Next` returns a message and no error, or an error and no message.
pub next_answers :
    (d : Decoder)
    → AreBytes d.input
    → ((m : Message) × ((next d).0 ≡ ok m)) ⊎ ((e : Error) × ((next d).0 ≡ err e))
next_answers d b = elim (Option-cases (next d).0.error) [
  | inl h ↦
      let a = next_sound d b h in
      inl (a.read, ap (λ (r : Answer Error Message × Decoder). r.0) a.result)
  | inr (e, h) ↦ inr (e, (next-Refused d e h).0)
]

remembered_error : (d : Decoder) (e : Error) → d.error ≡ some e → next d ≡ (err e, d)
unfolding next
remembered_error d e h = ground arith

-- A refusal is final: whatever error `Next` returned, the next `Next` returns it again, and the
-- decoder does not change any more.
pub next_final :
    (d : Decoder) (e : Error) → (next d).0.error ≡ some e → next (next d).1 ≡ (err e, (next d).1)
next_final d e h =
    let (answer, left) = next-Refused d e h in
    elim left [
      | inl x ↦ remembered_error (next d).1 e x
      | inr same ↦ ap next same ∙ pair (next d) answer
    ]
  where
    pair : (r : Answer Error Message × Decoder) → r.0 ≡ err e → r ≡ (err e, r.1)
    pair r a = λ i. (a i, r.1)
