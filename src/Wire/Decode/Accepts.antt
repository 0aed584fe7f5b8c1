-- ===== src/Wire/Decode/Accepts.antt =====
-- `Next` takes a message that is due off its layout.
use httppooler.Base.{
  ℕ, ◌≡◌, ◌≢◌, ◌⊎◌, inl, inr, refl, ◌∙◌, Bool, true, false, Option, none, some, List, ◌∷◌, ◌++◌,
  arith,
}
use httppooler.Base.Bytes.{Bytes}
use httppooler.Base.Result.{Answer, ok}
use httppooler.Wire.Message.{ProviderInfo, Role, Message, kind, kind_hello}
use httppooler.Wire.Error.{Error}
use httppooler.Wire.Layout.{fields_layout, layout, IsValid, Fits}
use httppooler.Wire.Decoder.{Decoder, Decoding, ◌>>=◌}
use httppooler.Wire.Decoder.Reads.{Reads}
use httppooler.Wire.Decode.{hello, fields, conclude, message, remember, next_of, next, is_server}
use httppooler.Wire.Decode.Kinds.{
  Encodes, request-Reads, response-Reads, body-Reads, end-Reads, cancel-Reads, fail_message-Reads,
  ping-Reads, pong-Reads,
}
use httppooler.Wire.Decode.Hello.{hello_accepts}

-- The decoder may take a message of this kind now.
abbrev pub IsDue : Decoder → Message → Type 0
IsDue d (Message.hello name ps) = (d.role ≡ Role.server) × (d.got_hello ≡ false)
IsDue d _ = (d.role ≡ Role.client) ⊎ (d.got_hello ≡ true)

abbrev pub heard : Message → Bool → Bool
heard (Message.hello name ps) got = true
heard _ got = got

-- The decoder after a message was read off `layout m ++ rest`.
abbrev pub after : Message → Bytes → Decoder → Decoder
after m rest d = record d { input = rest; got_hello = heard m d.got_hello }

-- `Next` on an input that begins with the kind `k`.
pub next_kind :
    (d : Decoder) (k : ℕ) (r : Bytes)
    → d.error ≡ none
    → d.input ≡ k ∷ r
    → next d ≡ (message k >>= remember) (record d { input = r })
unfolding next next_of
next_kind d k r clear i = ground arith

-- `message` once the switch has found a reader and HELLO is in order.
message_reads :
    (d : Decoder) (k : ℕ) (f : Decoding (Option Message))
    → fields k ≡ some f
    → (k ≡ kind_hello) ⊎ ((d.role ≡ Role.client) ⊎ (d.got_hello ≡ true))
    → message k d ≡ (f >>= conclude) d
unfolding message is_server
message_reads d k f e due = ground arith

concluded :
    (d d' : Decoder) (m : Message) (f : Decoding (Option Message))
    → f d ≡ (some m, d')
    → d'.error ≡ none
    → (f >>= conclude) d ≡ (ok m, d')
unfolding conclude
concluded d d' m f e clear = ground arith

remembered :
    (d d' : Decoder) (m : Message) (f : Decoding (Answer Error Message))
    → f d ≡ (ok m, d')
    → (f >>= remember) d ≡ (ok m, d')
unfolding remember
remembered d d' m f e = ground arith

-- Each kind but HELLO has its reader.
reader :
    (m : Message)
    → ((name : Bytes) (ps : List ProviderInfo) → m ≢ Message.hello name ps)
    → (f : Decoding (Option Message)) × (fields (kind m) ≡ some f) × Reads (Encodes (kind m)) f
unfolding fields kind
reader (Message.hello name ps) h = absurd (h name ps refl)
reader Message.ping h = (_, refl, ping-Reads)
reader Message.pong h = (_, refl, pong-Reads)
reader (Message.request id s m t hs) h = (_, refl, request-Reads)
reader (Message.response id s hs) h = (_, refl, response-Reads)
reader (Message.body id p) h = (_, refl, body-Reads)
reader (Message.end id hs) h = (_, refl, end-Reads)
reader (Message.cancel id) h = (_, refl, cancel-Reads)
reader (Message.fail id r) h = (_, refl, fail_message-Reads)

module _ (d : Decoder) (rest : Bytes) (clear : d.error ≡ none) where
  abbrev inner : Message → Decoder
  inner m = record d { input = fields_layout m ++ rest }

  -- A reader of the kind of `m` makes `Next` return it.
  next_by :
      (m : Message) (f : Decoding (Option Message))
      → fields (kind m) ≡ some f
      → (kind m ≡ kind_hello) ⊎ ((d.role ≡ Role.client) ⊎ (d.got_hello ≡ true))
      → f (inner m) ≡ (some m, after m rest d)
      → d.input ≡ layout m ++ rest
      → next d ≡ (ok m, after m rest d)
  next_by m f e due r i =
      next_kind d (kind m) (fields_layout m ++ rest) clear i
      ∙ remembered (inner m) (after m rest d) m (message (kind m)) (
          message_reads (inner m) (kind m) f e due
          ∙ concluded (inner m) (after m rest d) m f r clear)

  next_plain :
      (m : Message)
      → ((name : Bytes) (ps : List ProviderInfo) → m ≢ Message.hello name ps)
      → IsValid m
      → Fits m
      → (d.role ≡ Role.client) ⊎ (d.got_hello ≡ true)
      → heard m d.got_hello ≡ d.got_hello
      → d.input ≡ layout m ++ rest
      → next d ≡ (ok m, after m rest d)
  next_plain m h v t due same i =
      let (f, e, r) = reader m h in
      next_by m f e (inr due)
        (rw same (
          r.accepts (inner m) (some m) (fields_layout m) rest clear (m, refl, refl, v, t, refl)
            refl))
        i

  -- `Next` takes any message that is due and in range off its layout, and leaves what follows.
  pub next_accepts :
      (m : Message)
      → IsDue d m
      → IsValid m
      → Fits m
      → d.input ≡ layout m ++ rest
      → next d ≡ (ok m, after m rest d)
  next_accepts (Message.hello name ps) due v t i =
      next_by (Message.hello name ps) hello (unfold fields kind in refl) (inl (unfold kind in refl))
        (hello_accepts (inner (Message.hello name ps)) name ps rest clear due.0 due.1 v t refl) i
  next_accepts Message.ping due v t i = next_plain Message.ping (λ name ps. cc) v t due refl i
  next_accepts m due v t i = next_plain m (λ name ps. cc) v t due refl i
