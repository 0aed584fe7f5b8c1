-- ===== src/Wire/Encode/Order.antt =====
-- `Encoder.Write`: which messages go out, and the place of HELLO among them.
use httppooler.Base.{
  ◌≡◌, ◌≢◌, ◌⊎◌, inl, inr, refl, ◌∙◌, Bool, true, false, Option, none, some, [], ◌∷◌, ◌++◌, arith,
  Option-cases,
}
use httppooler.Wire.Message.{Role, Message, kind}
use httppooler.Wire.Error.{Error}
use httppooler.Wire.Layout.{layout, IsValid}
use httppooler.Wire.Encode.{Encoder, encode, hello_order, hand_over, write}
use httppooler.Wire.Encode.Exact.{encode-layout, encode_exact}

-- The encoder may write a message of this kind now.
abbrev pub InOrder : Encoder → Message → Type 0
InOrder e (Message.hello name ps) = (e.role ≡ Role.client) × (e.sent_hello ≡ false)
InOrder e _ = (e.role ≡ Role.server) ⊎ (e.sent_hello ≡ true)

abbrev pub said : Message → Bool → Bool
said (Message.hello name ps) sent = true
said _ sent = sent

abbrev pub wrote : Message → Encoder → Encoder
wrote m e = record e {
  buf = layout m;
  written = e.written ++ layout m ∷ [];
  sent_hello = said m e.sent_hello;
}

hello_order-InOrder : (e : Encoder) (m : Message) → hello_order e m ≡ none → InOrder e m
unfolding hello_order kind
hello_order-InOrder e (Message.hello name ps) h = ground arith
hello_order-InOrder e Message.ping h = ground arith
hello_order-InOrder e m h = ground arith

InOrder-hello_order : (e : Encoder) (m : Message) → InOrder e m → hello_order e m ≡ none
unfolding hello_order kind
InOrder-hello_order e (Message.hello name ps) h = ground arith
InOrder-hello_order e Message.ping h = ground arith
InOrder-hello_order e m h = ground arith

hand_over-wrote :
    (e : Encoder) (m : Message) → e.buf ≡ layout m → hand_over none m e ≡ (none, wrote m e)
unfolding hand_over kind
hand_over-wrote e (Message.hello name ps) h = ground (arith, h)
hand_over-wrote e Message.ping h = ground (arith, h)
hand_over-wrote e m h = ground (arith, h)

hand_over_failed :
    (x : Error) (e : Encoder) (m : Message)
    → ((hand_over (some x) m e).0 ≡ some x) × ((hand_over (some x) m e).1.sent_hello ≡ e.sent_hello)
unfolding hand_over
hand_over_failed x e m = (refl, refl)

write-InOrder :
    (answer : Option Error) (e : Encoder) (m : Message)
    → InOrder e m
    → IsValid m
    → write answer e m ≡ hand_over answer m (record e { buf = layout m })
unfolding write
write-InOrder answer e m o v = ground (arith, InOrder-hello_order e m o, encode-layout [] m v)

-- A `Write` that returned an error has not marked HELLO as sent.
abbrev pub Stopped : Encoder → Option Error × Encoder → Type 0
Stopped e r = ((x : Error) × (r.0 ≡ some x)) × (r.1.sent_hello ≡ e.sent_hello)

write_out_of_order :
    (answer : Option Error) (e : Encoder) (m : Message) (x : Error)
    → hello_order e m ≡ some x
    → Stopped e (write answer e m)
unfolding write
write_out_of_order answer e m x h = ((x, ground arith), ground arith)

write_invalid :
    (answer : Option Error) (e : Encoder) (m : Message) (x : Error)
    → hello_order e m ≡ none
    → encode [] m ≡ ([], some x)
    → Stopped e (write answer e m)
unfolding write
write_invalid answer e m x h i = ((x, ground arith), ground arith)

write_answered :
    (answer : Option Error) (e : Encoder) (m : Message)
    → InOrder e m
    → IsValid m
    → ((write answer e m ≡ (none, wrote m e)) × (answer ≡ none))
      ⊎ (Stopped e (write answer e m) × (answer ≢ none))
write_answered none e m o v =
    inl (write-InOrder none e m o v ∙ hand_over-wrote (record e { buf = layout m }) m refl, refl)
write_answered (some x) e m o v = inr (
  rw (write-InOrder (some x) e m o v)
      (let (a, b) = hand_over_failed x (record e { buf = layout m }) m in ((x, a), b)),
  cc,
)

-- `Write` returns no error exactly when the message is in order, in range and taken by the writer;
-- then the writer has had one more call, with the message's layout. Otherwise it returns an error,
-- and whether HELLO counts as sent is as before.
pub write_exact :
    (answer : Option Error) (e : Encoder) (m : Message)
    → ((write answer e m ≡ (none, wrote m e)) × (InOrder e m × IsValid m × (answer ≡ none)))
      ⊎ (Stopped e (write answer e m) × ¬ (InOrder e m × IsValid m × (answer ≡ none)))
write_exact answer e m = elim (Option-cases (hello_order e m)) [
  | inr (x, h) ↦
      inr (write_out_of_order answer e m x h, λ (o, v, a). cc (InOrder-hello_order e m o, h))
  | inl h ↦ elim (encode_exact [] m) [
    | inr (x, bad) ↦ inr (write_invalid answer e m x.0 h x.1, λ (o, v, a). absurd (bad v))
    | inl (i, v) ↦
        let o = hello_order-InOrder e m h in
        elim (write_answered answer e m o v) [
          | inl (w, a) ↦ inl (w, (o, v, a))
          | inr (w, na) ↦ inr (w, λ (o', v', a). na a)
        ]
  ]
]
