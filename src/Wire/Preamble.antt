-- ===== src/Wire/Preamble.antt =====
-- wire.go, and the framing of the handshake in record.go: the preamble, its version, and the two
-- handshake messages behind their length. The handshake messages themselves are any bytes here.
pub mod Opening
use httppooler.Base.{
  ℕ, Bool, true, false, ◌&&◌, Option, none, some, List, [], ◌∷◌, ◌++◌, length, take, drop, ltb, leb,
  ◌==◌, if◌then◌else◌,
}
use httppooler.Base.Bytes.{Bytes, to_le, from_le}
use httppooler.Base.Result.{Answer, ok, err}
use httppooler.Wire.Error.{IoError}

-- The errors of setting a connection up, one constructor for each.
pub data SetupError : Type 0 where
  reading_preamble reading_handshake : IoError → SetupError
  not_peer : SetupError
  version : (ours theirs : ℕ) → SetupError
  too_long too_short : (size : ℕ) → SetupError
  writer : SetupError

-- `input` is what the reader still gives, and `ends` the error that it gives after that.
pub record Source : Type 0 where
  pub input : Bytes
  pub ends : IoError

-- What io.ReadFull returns where the input ends.
abbrev pub short : Bytes → IoError → IoError
short [] ends = ends
short (b ∷ bs) IoError.eof = IoError.unexpected_eof
short (b ∷ bs) ends = ends

-- io.ReadFull of `n` bytes, at least one.
unfoldable pub full : ℕ → Source → Answer IoError Bytes × Source
full n r =
    if leb n (length r.input)
    then (ok (take n r.input), record r { input = drop n r.input })
    else (err (short r.input r.ends), record r { input = [] })

abbrev pub version_newest : ℕ
version_newest = 0

abbrev pub preamble_size : ℕ
preamble_size = 5

unfoldable pub preamble : Bytes
preamble = 72 ∷ 80 ∷ 79 ∷ 76 ∷ version_newest ∷ []

-- The five bytes that were read.
unfoldable pub version_of : Bytes → Answer SetupError ℕ
version_of (a ∷ b ∷ c ∷ d ∷ v ∷ rest) =
    if a == 72 && (b == 80 && (c == 79 && d == 76)) then ok v else err SetupError.not_peer
version_of buf = err SetupError.not_peer

unfoldable pub read_preamble : Source → Answer SetupError ℕ × Source
read_preamble r =
    let (a, r') = full preamble_size r in
    elim a.value [
      | some buf ↦ (version_of buf, r')
      | none ↦ elim a.error [
        | some e ↦ (err (SetupError.reading_preamble e), r')
        | none ↦ (err SetupError.not_peer, r')
      ]
    ]

-- `readVersion`, whose error is the only thing it returns.
unfoldable pub read_version : Source → Option SetupError × Source
read_version r =
    let (a, r') = read_preamble r in
    elim a.value [
      | none ↦ (a.error, r')
      | some v ↦
          ((if v == version_newest then none else some (SetupError.version version_newest v)), r')
    ]

abbrev pub max_record_size : ℕ
max_record_size = 65535

-- noise.HandshakeMessageSize: a public key and a tag.
abbrev pub handshake_message_size : ℕ
handshake_message_size = 48

-- `writeFramed`: the bytes given to the writer in its one call, if it is called, and the error.
unfoldable pub write_framed : Option SetupError → Bytes → Bytes → Option Bytes × Option SetupError
write_framed answer prefix message =
    if ltb max_record_size (length message)
    then (none, some (SetupError.too_long (length message)))
    else (some (prefix ++ (to_le 2 (length message) ++ message)), answer)

abbrev framing : {A : Type 0} → Answer IoError Bytes → A → (Bytes → A) → (SetupError → A) → A
framing a other f g = elim a.value [
  | some buf ↦ f buf
  | none ↦ elim a.error [ some e ↦ g (SetupError.reading_handshake e) | none ↦ other ]
]

-- `readFramed` behind its header.
unfoldable pub read_message : ℕ → Source → Answer SetupError Bytes × Source
read_message size r =
    if ltb size handshake_message_size
    then (err (SetupError.too_short size), r)
    else let (a, r') = full size r in framing a (ok [], r') (λ buf. (ok buf, r')) (λ e. (err e, r'))

unfoldable pub read_framed : Source → Answer SetupError Bytes × Source
read_framed r =
    let (a, r') = full 2 r in
    framing a (ok [], r') (λ buf. read_message (from_le buf) r') (λ e. (err e, r'))

-- The reading half of `Handshake` on one side, up to the bytes that the noise package gets.
unfoldable pub read_opening : Source → Answer SetupError Bytes × Source
read_opening r =
    let (e, r') = read_version r in elim e [ some x ↦ (err x, r') | none ↦ read_framed r' ]
