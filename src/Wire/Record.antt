-- ===== src/Wire/Record.antt =====
-- record.go: the records that carry the plaintext of one direction.
pub mod Frames
pub mod Written
pub mod Stream
use httppooler.Base.{
  ℕ, zero, suc, ◌+◌, ◌-◌, ◌%◌, ◌^◌, Option, none, some, List, [], ◌∷◌, ◌++◌, length, take, drop,
  ltb, ◌==◌, if◌then◌else◌,
}
use httppooler.Base.Bytes.{Bytes, to_le, from_le}
use httppooler.Base.Result.{Answer, ok, err}
use httppooler.Noise.Cipher.{CipherError, max_message_size, max_plaintext_size, tag_size}
use httppooler.Noise.Symmetric.{CipherState}
use httppooler.Noise.Transport.{encrypt, decrypt}
use httppooler.Wire.Error.{IoError}
use httppooler.Wire.Preamble.{Source, full}

abbrev pub max_record_plaintext : ℕ
max_record_plaintext = max_plaintext_size

abbrev pub min_record_size : ℕ
min_record_size = 17

pub data RecordError : Type 0 where
  io : IoError → RecordError
  cipher : CipherError → RecordError
  too_small : (size : ℕ) → RecordError

-- `sent` holds the arguments of the calls of `w.Write`, in order.
pub record RecordWriter : Type 0 where
  pub cipher : CipherState
  pub sent : List Bytes

-- `NewRecordWriter`.
unfoldable pub new_record_writer : CipherState → RecordWriter
new_record_writer c = record { cipher = c; sent = [] }

-- The first `n` bytes, or all of them if there are no more.
unfoldable pub at_most : ℕ → Bytes → Bytes
at_most n p = if ltb n (length p) then take n p else p

unfoldable pub chunk_of : Bytes → Bytes
chunk_of p = at_most max_record_plaintext p

-- The two bytes that were left free at the front become the length of what is behind them.
unfoldable pub with_length : Bytes → Bytes
with_length bytes = to_le 2 ((length bytes - 2) % 2 ^ 16) ++ drop 2 bytes

abbrev pub record_of : Option Bytes → Bytes
record_of none = []
record_of (some bytes) = with_length bytes

-- What `Write` returns, and the writer after it.
abbrev pub Sent : Type 0
Sent = (ℕ × Option RecordError) × RecordWriter

-- A round of the loop of `Write` behind `Encrypt`; `rest` is the rounds that follow. `answer n` is the
-- error of the writer's call `n`.
unfoldable pub send :
    (ℕ → Option IoError)
    → (RecordWriter → Sent)
    → ℕ
    → RecordWriter
    → Answer CipherError Bytes × CipherState
    → Sent
send answer rest written w (r, c) = elim r.error [
  | some e ↦ ((written, some (RecordError.cipher e)), record w { cipher = c })
  | none ↦
      let w' : RecordWriter = record { cipher = c; sent = w.sent ++ record_of r.value ∷ [] } in
      elim (answer (length w.sent)) [
        | some e ↦ ((written, some (RecordError.io e)), w')
        | none ↦ rest w'
      ]
]

-- The loop of `Write` with what is written so far. The fuel is the length of `p`: each round takes at
-- least one byte.
unfoldable pub write_loop : ℕ → (ℕ → Option IoError) → Bytes → ℕ → RecordWriter → Sent
write_loop zero answer p written w = ((written, none), w)
write_loop (suc fuel) answer p written w =
    let n = length (chunk_of p) in
    let rest = write_loop fuel answer (drop n p) (written + n) in
    if length p == 0
    then ((written, none), w)
    else send answer rest written w (encrypt (0 ∷ 0 ∷ []) (chunk_of p) w.cipher)

-- `Write`. An empty slice is written by no round at all.
unfoldable pub write :
    (ℕ → Option IoError) → Bytes → RecordWriter → (ℕ × Option RecordError) × RecordWriter
write answer p w = write_loop (length p) answer p 0 w

pub record RecordReader : Type 0 where
  pub source : Source
  pub cipher : CipherState
  pub plain : Bytes

-- `NewRecordReader`.
unfoldable pub new_record_reader : Source → CipherState → RecordReader
new_record_reader r c = record { source = r; cipher = c; plain = [] }

-- `next` behind `Decrypt`, on what that returned.
unfoldable pub decrypted :
    RecordReader → Answer CipherError Bytes × CipherState → Option RecordError × RecordReader
decrypted rr (r, c) = elim r.error [
  | some e ↦ (some (RecordError.cipher e), record rr { cipher = c })
  | none ↦ elim r.value [
    | none ↦ (none, record rr { cipher = c })
    | some plain ↦ (none, record rr { cipher = c; plain = plain })
  ]
]

-- What follows a call of io.ReadFull: `f` on the bytes, or the error.
unfoldable pub behind :
    (Bytes → RecordReader → Option RecordError × RecordReader)
    → RecordReader
    → Answer IoError Bytes × Source
    → Option RecordError × RecordReader
behind f rr (a, r) =
    let rr' : RecordReader = record rr { source = r } in
    elim a.value [
      | some bytes ↦ f bytes rr'
      | none ↦ elim a.error [ some e ↦ (some (RecordError.io e), rr') | none ↦ (none, rr') ]
    ]

-- `next` behind the body of a record.
unfoldable pub take_record : Bytes → RecordReader → Option RecordError × RecordReader
take_record bytes rr = decrypted rr (decrypt [] bytes rr.cipher)

-- `next` behind the header.
unfoldable pub sized : Bytes → RecordReader → Option RecordError × RecordReader
sized header rr =
    let size = from_le header in
    if ltb size min_record_size
    then (some (RecordError.too_small size), rr)
    else behind take_record rr (full size rr.source)

unfoldable pub next : RecordReader → Option RecordError × RecordReader
next rr = behind sized rr (full 2 rr.source)

-- `copy(p, rr.plain)` into a slice of `n` bytes.
abbrev pub hand_out : ℕ → RecordReader → Answer RecordError Bytes × RecordReader
hand_out n rr = (ok (take n rr.plain), record rr { plain = drop n rr.plain })

unfoldable pub read_on :
    ℕ → Option RecordError × RecordReader → Answer RecordError Bytes × RecordReader
read_on n (some x, rr) = (err x, rr)
read_on n (none, rr) = hand_out n rr

-- `Read` of at most `n` bytes.
unfoldable pub read : ℕ → RecordReader → Answer RecordError Bytes × RecordReader
read n rr = if length rr.plain == 0 then read_on n (next rr) else hand_out n rr
