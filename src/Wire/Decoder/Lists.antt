-- ===== src/Wire/Decoder/Lists.antt =====
-- The readers of chunks and of header lists read exactly the layouts of such.
use httppooler.Base.{
  ℕ, zero, suc, ◌≤◌, ◌≡◌, ◌↔◌, refl, true, List, [], ◌∷◌, ◌++◌, length, ◌==◌, arith, All,
  Bool-cases, inl, inr,
}
use httppooler.Base.Bytes.{Bytes, AreBytes, to_le}
use httppooler.Wire.Message.{Header}
use httppooler.Wire.Layout.{
  str8_layout, str16_layout, header_layout, each_layout, headers_layout, IsHeader, AreHeaders,
  HeaderFits, IsChunk,
}
use httppooler.Wire.Decoder.{fail, chunk_of, chunk, header, each_header, headers_of, headers}
use httppooler.Wire.Decoder.Reads.{
  Reads, Then, Map, Reads-Map, Reads-bind, Reads-iff, pure-Reads, checked-Reads, unless-Reads,
  skip-Reads,
}
use httppooler.Wire.Decoder.Rounds.{Item, Rounds, no-Rounds, one_round}
use httppooler.Wire.Decoder.Fields.{
  Exactly, Number, Str8, Str16, str8-Reads, str16-Reads, u16-Reads, u32-Reads, bytes-Reads,
}

chunk_of-Reads : (n : ℕ) → Reads (λ s used. (1 ≤ n) × Exactly n s used) (chunk_of n)
unfolding chunk_of fail
chunk_of-Reads n = record {
  accepts = λ d s used rest clear (pos, x) i.
      ground (arith, (bytes-Reads n).accepts d s used rest clear x i);
  sticky = λ d h. ground arith;
  sound = λ d b h.
      let c = (bytes-Reads n).sound d b (ground arith) in
      record {
        value = c.value;
        used = c.used;
        rest = c.rest;
        spec = (ground arith, c.spec);
        input = c.input;
        result = ground (arith, c.result);
      };
}

abbrev pub Chunk : Bytes → Bytes → Type 0
Chunk s used = IsChunk s × AreBytes s × (used ≡ to_le 4 (length s) ++ s)

pub chunk-Reads : Reads Chunk chunk
unfolding chunk
chunk-Reads = Reads-iff conversion (Reads-bind u32-Reads chunk_of-Reads)
  where
    conversion :
        (s used : Bytes) → Then (Number 4) (λ n s u. (1 ≤ n) × Exactly n s u) s used ↔ Chunk s used
    conversion s used = (
      (λ (n, u, v, (lt, eu), (pos, (ev, l, b)), e).
          ((omega arith, omega arith), b, rw (e, eu, ev, l))),
      λ ((pos, lt), b, e).
          (length s, to_le 4 (length s), s, (omega arith, refl), (pos, (refl, refl, b)), e),
    )

abbrev OneHeader : Header → Bytes → Type 0
OneHeader = Item IsHeader HeaderFits header_layout

pub header-Reads : Reads OneHeader header
unfolding header
header-Reads =
    Reads-iff conversion
      (Reads-bind str8-Reads (λ n. Reads-Map (λ v. record { name = n; value = v }) str16-Reads))
  where
    conversion :
        (h : Header) (used : Bytes)
        → Then Str8 (λ n. Map Str16 (λ v. record { name = n; value = v })) h used ↔ OneHeader h used
    conversion h used = (
      (λ (n, u, v, (ln, bn, eu), (w, (lw, bw, ev), eh), e).
          rw eh ((ln, lw), (bn, bw), rw (e, eu, ev))),
      λ ((ln, lw), (bn, bw), e). (
        h.name,
        str8_layout h.name,
        str16_layout h.value,
        (ln, bn, refl),
        (h.value, (lw, bw, refl), refl),
        e,
      ),
    )

abbrev HeaderRounds : ℕ → List Header → List Header → Bytes → Type 0
HeaderRounds = Rounds IsHeader HeaderFits header_layout (λ hs. hs)

each_header-Reads : (n : ℕ) (acc : List Header) → Reads (HeaderRounds n acc) (each_header n acc)
unfolding each_header
each_header-Reads zero acc =
    Reads-iff (no-Rounds IsHeader HeaderFits header_layout (λ hs. hs) acc) (pure-Reads acc)
each_header-Reads (suc n) acc =
    Reads-iff (one_round IsHeader HeaderFits header_layout (λ hs. hs) n acc)
      (Reads-bind header-Reads (λ h. checked-Reads [] (each_header-Reads n (acc ++ h ∷ []))))

abbrev pub Headers : List Header → Bytes → Type 0
Headers hs used = AreHeaders hs × All HeaderFits hs × (used ≡ headers_layout hs)

abbrev Counted : ℕ → List Header → Bytes → Type 0
Counted n hs used =
    (length hs ≡ n) × All IsHeader hs × All HeaderFits hs × (used ≡ each_layout header_layout hs)

headers_of-Reads : (n : ℕ) → Reads (Counted n) (headers_of n)
unfolding headers_of
headers_of-Reads n = elim (Bool-cases (n == 0)) [
  | inl z ↦ Reads-iff (λ hs u. nil hs u z) (skip-Reads (n == 0) [] z)
  | inr nz ↦ Reads-iff (λ hs u. all hs u) (unless-Reads (n == 0) [] nz (each_header-Reads n []))
]
  where
    nil : (hs : List Header) (u : Bytes) → (n == 0) ≡ true → ((hs ≡ []) × (u ≡ [])) ↔ Counted n hs u
    nil [] u z = ((λ (_, e). (ground arith, tt, tt, e)), λ (_, _, _, e). (refl, e))
    nil (h ∷ hs) u z = ((λ (e, _). cc), λ (l, _, _, e). absurd (ground arith))

    all : (hs : List Header) (u : Bytes) → HeaderRounds n [] hs u ↔ Counted n hs u
    all hs u =
        ((λ (ys, e, l, v, f, eu). rw e (l, v, f, eu)), λ (l, v, f, eu). (hs, refl, l, v, f, eu))

pub headers-Reads : Reads Headers headers
unfolding headers
headers-Reads = Reads-iff conversion (Reads-bind u16-Reads headers_of-Reads)
  where
    conversion : (hs : List Header) (u : Bytes) → Then (Number 2) Counted hs u ↔ Headers hs u
    conversion hs u = (
      (λ (n, a, b, (lt, ea), (l, v, f, eb), e). ((omega arith, v), f, rw (e, ea, eb, l))),
      λ ((l, v), f, e).
          (length hs, to_le 2 (length hs), _, (omega arith, refl), (refl, v, f, refl), e),
    )
