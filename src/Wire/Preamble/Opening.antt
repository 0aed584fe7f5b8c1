-- ===== src/Wire/Preamble/Opening.antt =====
-- The opening that one side writes, read by the other.
use httppooler.Base.{
  ℕ, ◌≤◌, ◌≡◌, refl, sym, ap, ◌∙◌, none, some, ◌++◌, length, ltb, leb, true, false, arith,
  append_assoc, length-append, take-append, drop-append,
}
use httppooler.Base.Bytes.{Bytes, to_le, from_le-to_le, length-to_le}
use httppooler.Base.Result.{Answer, ok}
use httppooler.Wire.Error.{IoError}
use httppooler.Wire.Preamble.{
  SetupError, Source, full, preamble, version_of, read_preamble, read_version, write_framed,
  read_message, read_framed, read_opening, handshake_message_size, max_record_size,
}

pub full-exact :
    (bytes rest : Bytes) (ends : IoError)
    → full (length bytes) (record { input = bytes ++ rest; ends = ends })
      ≡ (ok bytes, record { input = rest; ends = ends })
unfolding full
full-exact bytes rest ends =
    let enough : leb (length bytes) (length (bytes ++ rest)) ≡ true =
      ground (arith, length-append bytes rest) in
    rw (full, enough, take-append, drop-append)

read_version_step : (r r' : Source) → read_preamble r ≡ (ok 0, r') → read_version r ≡ (none, r')
unfolding read_version
read_version_step r r' h = ground (arith, h)

read_preamble_step :
    (r r' : Source) (buf : Bytes) → full 5 r ≡ (ok buf, r') → read_preamble r ≡ (version_of buf, r')
unfolding read_preamble
read_preamble_step r r' buf h = ground (arith, h)

read_opening_step : (r r' : Source) → read_version r ≡ (none, r') → read_opening r ≡ read_framed r'
unfolding read_opening
read_opening_step r r' h = ground (arith, h)

own_version : version_of preamble ≡ ok 0
unfolding version_of preamble
own_version = refl

preamble_read :
    (rest : Bytes) (ends : IoError)
    → read_version (record { input = preamble ++ rest; ends = ends })
      ≡ (none, record { input = rest; ends = ends })
preamble_read rest ends =
    let r : Source = record { input = preamble ++ rest; ends = ends } in
    let r' : Source = record { input = rest; ends = ends } in
    let head : full 5 r ≡ (ok preamble, r') = unfold preamble in full-exact preamble rest ends in
    read_version_step r r' (
      read_preamble_step r r' preamble head ∙ ap (λ (a : Answer SetupError ℕ). (a, r')) own_version)

message_read :
    (message rest : Bytes) (ends : IoError)
    → handshake_message_size ≤ length message
    → read_message (length message) (record { input = message ++ rest; ends = ends })
      ≡ (ok message, record { input = rest; ends = ends })
unfolding read_message
message_read message rest ends h = ground (arith, full-exact message rest ends)

framed_read :
    (message rest : Bytes) (ends : IoError)
    → handshake_message_size ≤ length message
    → length message ≤ max_record_size
    → read_framed (record { input = to_le 2 (length message) ++ (message ++ rest); ends = ends })
      ≡ (ok message, record { input = rest; ends = ends })
unfolding read_framed
framed_read message rest ends h m =
    let n = length message in
    let head : full 2 (record { input = to_le 2 n ++ (message ++ rest); ends = ends })
        ≡ (ok (to_le 2 n), record { input = message ++ rest; ends = ends }) =
      ap (λ k. full k (record { input = to_le 2 n ++ (message ++ rest); ends = ends }))
        (sym (length-to_le 2 n))
      ∙ full-exact (to_le 2 n) (message ++ rest) ends in
    rw (read_framed, head, from_le-to_le 2 n (omega (arith, m))) (message_read message rest ends h)

pub framed_written :
    (message : Bytes)
    → length message ≤ max_record_size
    → write_framed none preamble message
      ≡ (some (preamble ++ (to_le 2 (length message) ++ message)), none)
unfolding write_framed
framed_written message m =
    let fits : ltb max_record_size (length message) ≡ false = ground (arith, m) in
    rw (write_framed, fits)

pub opening_read :
    (message rest : Bytes) (ends : IoError)
    → handshake_message_size ≤ length message
    → length message ≤ max_record_size
    → read_opening (record {
      input = (preamble ++ (to_le 2 (length message) ++ message)) ++ rest;
      ends = ends;
    })
      ≡ (ok message, record { input = rest; ends = ends })
opening_read message rest ends h m =
    let framed = to_le 2 (length message) ++ message in
    ap (λ b. read_opening (record { input = b; ends = ends })) (append_assoc preamble framed rest)
    ∙ read_opening_step _ _ (preamble_read (framed ++ rest) ends)
    ∙ ap (λ b. read_framed (record { input = b; ends = ends }))
        (append_assoc (to_le 2 (length message)) message rest)
    ∙ framed_read message rest ends h m

-- The preamble and a handshake message of 48 to 65535 bytes that one side writes behind each other are
-- read by the other side as that message, and what follows them is left in the input.
pub opening_roundtrip :
    (message rest : Bytes) (ends : IoError)
    → handshake_message_size ≤ length message
    → length message ≤ max_record_size
    → (bytes : Bytes) × (write_framed none preamble message ≡ (some bytes, none))
      × (read_opening (record { input = bytes ++ rest; ends = ends })
          ≡ (ok message, record { input = rest; ends = ends }))
opening_roundtrip message rest ends h m = (
  preamble ++ (to_le 2 (length message) ++ message),
  framed_written message m,
  opening_read message rest ends h m,
)
