-- ===== src/Wire/Decode/Kinds.antt =====
-- The readers of the kinds but HELLO read exactly the fields of a message of their kind.
use httppooler.Base.{ℕ, ◌≤◌, ◌≡◌, ◌↔◌, refl, Option, some, [], ◌++◌, length, arith}
use httppooler.Base.Bytes.{Bytes, to_le}
use httppooler.Wire.Message.{
  Message, kind, kind_request, kind_response, kind_body, kind_end, kind_cancel, kind_fail,
  kind_ping, kind_pong,
}
use httppooler.Wire.Error.{What}
use httppooler.Wire.Layout.{
  str8_layout, str16_layout, headers_layout, fields_layout, IsValid, Fits, IsStatus,
}
use httppooler.Wire.Decoder.{pure}
use httppooler.Wire.Decoder.Reads.{Reads, Then, Map, Reads-Map, Reads-bind, Reads-iff, pure-Reads}
use httppooler.Wire.Decoder.Fields.{
  Ranged, Str8, Str16, Name8, Text16, job-Reads, status-Reads, name8-Reads, str8-Reads, str16-Reads,
  text16-Reads,
}
use httppooler.Wire.Decoder.Lists.{Chunk, Headers, chunk-Reads, headers-Reads}
use httppooler.Wire.Decode.{request, response, body, end, cancel, fail_message}

-- The bytes after the kind byte of a message of kind `k`.
abbrev pub Encodes : ℕ → Option Message → Bytes → Type 0
Encodes k o used =
    (m : Message) × (o ≡ some m) × (kind m ≡ k) × IsValid m × Fits m × (used ≡ fields_layout m)

abbrev Job : ℕ → Bytes → Type 0
Job = Ranged (λ n. 1 ≤ n) 8

abbrev Request : Option Message → Bytes → Type 0
Request = Then Job λ id.
    Then Name8
      λ s. Then Str8 λ m. Then Str16 λ t. Map Headers λ hs. some (Message.request id s m t hs)

abbrev Response : Option Message → Bytes → Type 0
Response =
    Then Job λ id. Then (Ranged IsStatus 2) λ s. Map Headers λ hs. some (Message.response id s hs)

abbrev Body : Option Message → Bytes → Type 0
Body = Then Job λ id. Map Chunk λ p. some (Message.body id p)

abbrev End : Option Message → Bytes → Type 0
End = Then Job λ id. Map Headers λ hs. some (Message.end id hs)

abbrev Cancel : Option Message → Bytes → Type 0
Cancel = Map Job λ id. some (Message.cancel id)

abbrev Fail : Option Message → Bytes → Type 0
Fail = Then Job λ id. Map Text16 λ r. some (Message.fail id r)

Request-to : (o : Option Message) (u : Bytes) → Request o u → Encodes kind_request o u
unfolding kind
Request-to o u
      (
        id,
        a1,
        b1,
        (v1, (f1, e1)),
        (
          s,
          a2,
          b2,
          (v2, f2, e2),
          (m, a3, b3, (v3, f3, e3), (t, a4, b4, (v4, f4, e4), (hs, (v5, f5, e5), eo), x4), x3),
          x2,
        ),
        x1,
      ) =
    (
      Message.request id s m t hs,
      eo,
      refl,
      (v1, (v2, (v3, (v4, v5)))),
      (f1, (f2, (f3, (f4, f5)))),
      rw (x1, e1, x2, e2, x3, e3, x4, e4, e5),
    )

Request-from : (o : Option Message) (u : Bytes) → Encodes kind_request o u → Request o u
unfolding kind
Request-from o u
      (
        Message.request id s m t hs,
        eo,
        k,
        (v1, (v2, (v3, (v4, v5)))),
        (f1, (f2, (f3, (f4, f5)))),
        e,
      ) =
    (
      id,
      to_le 8 id,
      _,
      (v1, (f1, refl)),
      (
        s,
        str8_layout s,
        _,
        (v2, f2, refl),
        (
          m,
          str8_layout m,
          _,
          (v3, f3, refl),
          (t, str16_layout t, headers_layout hs, (v4, f4, refl), (hs, (v5, f5, refl), eo), refl),
          refl,
        ),
        refl,
      ),
      e,
    )
Request-from o u (_, eo, k, v, f, e) = absurd (omega arith)

pub request-Reads : Reads (Encodes kind_request) request
unfolding request
request-Reads =
    Reads-iff (λ o u. (Request-to o u, Request-from o u))
      (Reads-bind job-Reads λ id. Reads-bind (name8-Reads What.service) λ s.
        Reads-bind str8-Reads λ m.
          Reads-bind str16-Reads
            λ t. Reads-Map (λ hs. some (Message.request id s m t hs)) headers-Reads)

Response-to : (o : Option Message) (u : Bytes) → Response o u → Encodes kind_response o u
unfolding kind
Response-to o u
      (id, a1, b1, (v1, (f1, e1)), (s, a2, b2, (v2, (f2, e2)), (hs, (v5, f5, e5), eo), x2), x1) =
    (Message.response id s hs, eo, refl, (v1, (v2, v5)), (f1, (f2, f5)), rw (x1, e1, x2, e2, e5))

Response-from : (o : Option Message) (u : Bytes) → Encodes kind_response o u → Response o u
unfolding kind
Response-from o u (Message.response id s hs, eo, k, (v1, (v2, v5)), (f1, (f2, f5)), e) = (
  id,
  to_le 8 id,
  _,
  (v1, (f1, refl)),
  (s, to_le 2 s, headers_layout hs, (v2, (f2, refl)), (hs, (v5, f5, refl), eo), refl),
  e,
)
Response-from o u (_, eo, k, v, f, e) = absurd (omega arith)

pub response-Reads : Reads (Encodes kind_response) response
unfolding response
response-Reads =
    Reads-iff (λ o u. (Response-to o u, Response-from o u))
      (Reads-bind job-Reads λ id.
        Reads-bind status-Reads
          λ s. Reads-Map (λ hs. some (Message.response id s hs)) headers-Reads)

Body-to : (o : Option Message) (u : Bytes) → Body o u → Encodes kind_body o u
unfolding kind
Body-to o u (id, a, b, (v, (f, ea)), (p, (vp, fp, eb), eo), e) =
    (Message.body id p, eo, refl, (v, vp), (f, fp), rw (e, ea, eb))

Body-from : (o : Option Message) (u : Bytes) → Encodes kind_body o u → Body o u
unfolding kind
Body-from o u (Message.body id p, eo, k, (v, vp), (f, fp), e) =
    (id, to_le 8 id, to_le 4 (length p) ++ p, (v, (f, refl)), (p, (vp, fp, refl), eo), e)
Body-from o u (_, eo, k, v, f, e) = absurd (omega arith)

pub body-Reads : Reads (Encodes kind_body) body
unfolding body
body-Reads =
    Reads-iff (λ o u. (Body-to o u, Body-from o u))
      (Reads-bind job-Reads λ id. Reads-Map (λ p. some (Message.body id p)) chunk-Reads)

End-to : (o : Option Message) (u : Bytes) → End o u → Encodes kind_end o u
unfolding kind
End-to o u (id, a, b, (v, (f, ea)), (hs, (vs, fs, eb), eo), e) =
    (Message.end id hs, eo, refl, (v, vs), (f, fs), rw (e, ea, eb))

End-from : (o : Option Message) (u : Bytes) → Encodes kind_end o u → End o u
unfolding kind
End-from o u (Message.end id hs, eo, k, (v, vs), (f, fs), e) =
    (id, to_le 8 id, headers_layout hs, (v, (f, refl)), (hs, (vs, fs, refl), eo), e)
End-from o u (_, eo, k, v, f, e) = absurd (omega arith)

pub end-Reads : Reads (Encodes kind_end) end
unfolding end
end-Reads =
    Reads-iff (λ o u. (End-to o u, End-from o u))
      (Reads-bind job-Reads λ id. Reads-Map (λ hs. some (Message.end id hs)) headers-Reads)

Cancel-to : (o : Option Message) (u : Bytes) → Cancel o u → Encodes kind_cancel o u
unfolding kind
Cancel-to o u (id, (v, (f, e)), eo) = (Message.cancel id, eo, refl, v, f, e)

Cancel-from : (o : Option Message) (u : Bytes) → Encodes kind_cancel o u → Cancel o u
unfolding kind
Cancel-from o u (Message.cancel id, eo, k, v, f, e) = (id, (v, (f, e)), eo)
Cancel-from o u (_, eo, k, v, f, e) = absurd (omega arith)

pub cancel-Reads : Reads (Encodes kind_cancel) cancel
unfolding cancel
cancel-Reads =
    Reads-iff (λ o u. (Cancel-to o u, Cancel-from o u))
      (Reads-Map (λ id. some (Message.cancel id)) job-Reads)

Fail-to : (o : Option Message) (u : Bytes) → Fail o u → Encodes kind_fail o u
unfolding kind
Fail-to o u (id, a, b, (v, (f, ea)), (r, (vr, fr, eb), eo), e) =
    (Message.fail id r, eo, refl, (v, vr), (f, fr), rw (e, ea, eb))

Fail-from : (o : Option Message) (u : Bytes) → Encodes kind_fail o u → Fail o u
unfolding kind
Fail-from o u (Message.fail id r, eo, k, (v, vr), (f, fr), e) =
    (id, to_le 8 id, str16_layout r, (v, (f, refl)), (r, (vr, fr, refl), eo), e)
Fail-from o u (_, eo, k, v, f, e) = absurd (omega arith)

pub fail_message-Reads : Reads (Encodes kind_fail) fail_message
unfolding fail_message
fail_message-Reads =
    Reads-iff (λ o u. (Fail-to o u, Fail-from o u))
      (Reads-bind job-Reads
        λ id. Reads-Map (λ r. some (Message.fail id r)) (text16-Reads What.reason))

-- PING and PONG have no fields.
plain-Reads :
    (k : ℕ) (m : Message)
    → ((o : Option Message) (u : Bytes) → ((o ≡ some m) × (u ≡ [])) ↔ Encodes k o u)
    → Reads (Encodes k) (pure (some m))
plain-Reads k m e = Reads-iff e (pure-Reads (some m))

ping_from :
    (o : Option Message) (u : Bytes) → Encodes kind_ping o u → (o ≡ some Message.ping) × (u ≡ [])
unfolding kind
ping_from o u (Message.ping, eo, k, v, f, e) = (eo, e)
ping_from o u (_, eo, k, v, f, e) = absurd (omega arith)

pub ping-Reads : Reads (Encodes kind_ping) (pure (some Message.ping))
unfolding kind
ping-Reads =
    plain-Reads kind_ping Message.ping
      (λ o u. ((λ (eo, e). (Message.ping, eo, refl, tt, tt, e)), ping_from o u))

pong_from :
    (o : Option Message) (u : Bytes) → Encodes kind_pong o u → (o ≡ some Message.pong) × (u ≡ [])
unfolding kind
pong_from o u (Message.pong, eo, k, v, f, e) = (eo, e)
pong_from o u (_, eo, k, v, f, e) = absurd (omega arith)

pub pong-Reads : Reads (Encodes kind_pong) (pure (some Message.pong))
unfolding kind
pong-Reads =
    plain-Reads kind_pong Message.pong
      (λ o u. ((λ (eo, e). (Message.pong, eo, refl, tt, tt, e)), pong_from o u))
