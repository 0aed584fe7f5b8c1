-- ===== src/Wire/Session.antt =====
-- A whole direction of a connection: what one side's encoder wrote, the other side's decoder reads.
use httppooler.Base.{
  ℕ, zero, suc, ◌≡◌, ◌⊎◌, inl, inr, refl, sym, ap, ◌∙◌, Option, none, some, List, [], ◌∷◌, ◌++◌,
  arith, length, append_assoc, append-nil, All,
}
use httppooler.Base.Bytes.{Bytes}
use httppooler.Base.Result.{ok}
use httppooler.Wire.Message.{Role, Message}
use httppooler.Wire.Error.{Error, IoError}
use httppooler.Wire.Layout.{layout, IsValid, Fits}
use httppooler.Wire.Encode.{Encoder, write, new_encoder}
use httppooler.Wire.Encode.Order.{InOrder, wrote, write_exact}
use httppooler.Wire.Decoder.{Decoder, new_decoder}
use httppooler.Wire.Decode.{next}
use httppooler.Wire.Decode.Accepts.{IsDue, after, next_accepts}

-- One `Write` after another over a writer that takes everything, up to the first error.
unfoldable pub write_all : Encoder → List Message → Option Error × Encoder
write_all e [] = (none, e)
write_all e (m ∷ ms) =
    let (x, e') = write none e m in
    elim x [ some error ↦ (some error, e') | none ↦ write_all e' ms ]

-- `n` times `Next`, up to the first error.
unfoldable pub read_all : ℕ → Decoder → List Message × Decoder
read_all zero d = ([], d)
read_all (suc n) d =
    let (a, d') = next d in
    elim a.value [ none ↦ ([], d') | some m ↦ let (ms, last) = read_all n d' in (m ∷ ms, last) ]

abbrev pub flat : List Bytes → Bytes
flat [] = []
flat (b ∷ bs) = b ++ flat bs

abbrev pub other : Role → Role
other Role.server = Role.client
other Role.client = Role.server

-- The two ends agree on whether the HELLO has gone by.
abbrev Paired : Encoder → Decoder → Type 0
Paired e d = (d.role ≡ other e.role) × ((e.role ≡ Role.server) ⊎ (d.got_hello ≡ e.sent_hello))

IsDue-of_order : (e : Encoder) (d : Decoder) (m : Message) → Paired e d → InOrder e m → IsDue d m
IsDue-of_order e d (Message.hello name ps) p o = ground arith
IsDue-of_order e d Message.ping p o = ground arith
IsDue-of_order e d m p o = ground arith

Paired-after :
    (e : Encoder) (d : Decoder) (m : Message) (rest : Bytes)
    → Paired e d
    → InOrder e m
    → Paired (wrote m e) (after m rest d)
Paired-after e d (Message.hello name ps) rest p o = ground arith
Paired-after e d Message.ping rest p o = p
Paired-after e d m rest p o = p

-- The bytes that a run adds to what was written before.
abbrev layouts : List Message → List Bytes
layouts [] = []
layouts (m ∷ ms) = layout m ∷ layouts ms

write_first :
    (e : Encoder) (m : Message) (ms : List Message)
    → (write_all e (m ∷ ms)).0 ≡ none
    → (write_all e (m ∷ ms) ≡ write_all (wrote m e) ms) × (InOrder e m × IsValid m)
unfolding write_all
write_first e m ms h = elim (write_exact none e m) [
  | inl (w, (o, v, a)) ↦ (ground (arith, w), (o, v))
  | inr (((x, s), t), bad) ↦ absurd (ground arith)
]

written_layouts :
    (e : Encoder) (ms : List Message)
    → (write_all e ms).0 ≡ none
    → (write_all e ms).1.written ≡ e.written ++ layouts ms
written_layouts e [] h = unfold write_all in sym (append-nil e.written)
written_layouts e (m ∷ ms) h =
    let (first, ov) = write_first e m ms h in
    rw first (
      written_layouts (wrote m e) ms (rw first at h)
      ∙ append_assoc e.written (layout m ∷ []) (layouts ms))

read_first :
    (d d' : Decoder) (m : Message) (n : ℕ)
    → next d ≡ (ok m, d')
    → read_all (suc n) d ≡ (m ∷ (read_all n d').0, (read_all n d').1)
unfolding read_all
read_first d d' m n e = ground (arith, e)

abbrev pub Delivered : Decoder → Bytes → List Message → Type 0
Delivered d rest ms =
    ((read_all (length ms) d).0 ≡ ms)
    × ((read_all (length ms) d).1.input ≡ rest)
    × ((read_all (length ms) d).1.error ≡ none)

delivered :
    (e : Encoder) (d : Decoder) (ms : List Message) (rest : Bytes)
    → Paired e d
    → d.error ≡ none
    → All Fits ms
    → (write_all e ms).0 ≡ none
    → d.input ≡ flat (layouts ms) ++ rest
    → Delivered d rest ms
delivered e d [] rest p clear f h i = unfold read_all in (refl, i, clear)
delivered e d (m ∷ ms) rest p clear (fm, fs) h i =
    let (first, (o, v)) = write_first e m ms h in
    let more = flat (layouts ms) ++ rest in
    let step : next d ≡ (ok m, after m more d) =
      next_accepts d more clear m (IsDue-of_order e d m p o) v fm
        (i ∙ append_assoc (layout m) (flat (layouts ms)) rest) in
    let (r1, r2, r3) =
      delivered (wrote m e) (after m more d) ms rest (Paired-after e d m more p o) clear fs
        (rw first at h) refl in
    rw (read_first d (after m more d) m (length ms) step) (ap (◌∷◌ m) r1, r2, r3)

-- If the fields of the messages hold Go values and one side's new encoder writes all of them
-- without an error, then the other side's new decoder reads just these messages in the same order
-- from the concatenated bytes, has no error, and leaves what follows them.
pub session_roundtrip :
    (role : Role) (ms : List Message) (rest : Bytes) (ends : IoError)
    → All Fits ms
    → (write_all (new_encoder role) ms).0 ≡ none
    → let input = flat (write_all (new_encoder role) ms).1.written ++ rest in
      Delivered (new_decoder input ends (other role)) rest ms
unfolding new_encoder new_decoder
session_roundtrip role ms rest ends f h =
    delivered (new_encoder role) (new_decoder _ ends (other role)) ms rest (refl, inr refl) refl f h
      (ap (λ bs. flat bs ++ rest) (written_layouts (new_encoder role) ms h))
