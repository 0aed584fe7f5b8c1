-- ===== src/Wire/Tests.antt =====
-- Runs of the encoder and the decoder on concrete messages.
use httppooler.Base.{
  ℕ, ◌≡◌, refl, Option, none, some, List, [], ◌∷◌, ◌++◌, arith, ◌⊎◌, inl, inr, true, false, All, ap,
}
use httppooler.Base.Bytes.{Bytes, AreBytes}
use httppooler.Base.Result.{Answer, ok, err}
use httppooler.Wire.Message.{Role, Message}
use httppooler.Wire.Error.{Error, IoError}
use httppooler.Wire.Layout.{layout, IsValid, Fits}
use httppooler.Wire.Encode.{Encoder, encode, write, new_encoder}
use httppooler.Wire.Encode.Exact.{encode_exact}
use httppooler.Wire.Encode.Order.{InOrder, Stopped, wrote, write_exact}
use httppooler.Wire.Decoder.{Decoder, new_decoder}
use httppooler.Wire.Decode.{next}
use httppooler.Wire.Decode.Accepts.{IsDue, after}
use httppooler.Wire.Decode.Exact.{next-encode, encode-next, next_answers, next_final}
use httppooler.Wire.Preamble.{preamble, write_framed, read_opening}
use httppooler.Wire.Preamble.Opening.{opening_roundtrip}
use httppooler.Noise.Symmetric.{CipherState}
use httppooler.Noise.Tests.{plain, plain-IsAead, zeros, length-zeros, toy, toy-IsSuite}
use httppooler.Wire.Preamble.{Source}
use httppooler.Wire.Setup.{session_of}
use httppooler.Wire.Setup.Meeting.{HaveMet, handshake-HaveMet, session_stream}
use httppooler.Wire.Record.{new_record_writer, new_record_reader}
use httppooler.Wire.Record.Frames
use httppooler.Wire.Record.Stream.Both.{Gathered, gather, write_each, record_stream}
use httppooler.Wire.Session.{write_all, flat, Delivered, session_roundtrip}

abbrev greeting : Message
greeting =
    Message.hello (110 ∷ []) (record { service = 115 ∷ []; max_concurrent = 4; priority = 1 } ∷ [])

abbrev asked : Message
asked =
    Message.request 1 (115 ∷ []) (71 ∷ []) (47 ∷ [])
      (record { name = 97 ∷ []; value = 98 ∷ [] } ∷ [])

abbrev conversation : List Message
conversation = greeting ∷ asked ∷ Message.ping ∷ Message.cancel 1 ∷ []

greeting_written : encode [] greeting ≡ (1 ∷ 1 ∷ 110 ∷ 1 ∷ 1 ∷ 115 ∷ 4 ∷ 0 ∷ 1 ∷ 0 ∷ [], none)
unfolding encode httppooler.Wire.Build.each_provider httppooler.Wire.Build.u16
    httppooler.Wire.Build.slots httppooler.Wire.Build.name8 httppooler.Base.Utf8.valid_utf8
    httppooler.Wire.Build.count8 httppooler.Base.Bytes.to_le
greeting_written = refl

end_written :
    encode [] (Message.end 258 []) ≡ (19 ∷ 2 ∷ 1 ∷ 0 ∷ 0 ∷ 0 ∷ 0 ∷ 0 ∷ 0 ∷ 0 ∷ 0 ∷ [], none)
unfolding encode httppooler.Wire.Build.headers httppooler.Wire.Build.each_header
    httppooler.Wire.Build.job httppooler.Base.Bytes.to_le
end_written = refl

conversation_written : (write_all (new_encoder Role.client) conversation).0 ≡ none
unfolding write_all write new_encoder httppooler.Wire.Build.each_provider httppooler.Wire.Build.u16
    httppooler.Wire.Build.slots httppooler.Wire.Build.name8 httppooler.Base.Utf8.valid_utf8
    httppooler.Wire.Build.count8 httppooler.Wire.Build.headers httppooler.Wire.Build.each_header
    httppooler.Wire.Build.str16 httppooler.Wire.Build.job
conversation_written = refl

conversation-Fits : All Fits conversation
conversation-Fits = ground arith

session_roundtrip_example :
    Delivered
      (new_decoder
        (flat (write_all (new_encoder Role.client) conversation).1.written ++ 9 ∷ [])
        IoError.eof
        Role.server)
      (9 ∷ [])
      conversation
session_roundtrip_example =
    session_roundtrip Role.client conversation (9 ∷ []) IoError.eof conversation-Fits
      conversation_written

abbrev server_side : Bytes → Decoder
server_side input = new_decoder input IoError.eof Role.server

abbrev said_hello : Bytes → Decoder
said_hello input = record {
  input = input;
  ends = IoError.eof;
  role = Role.server;
  error = none;
  got_hello = true;
}

abbrev cancel_bytes : Bytes
cancel_bytes = 20 ∷ 7 ∷ 0 ∷ 0 ∷ 0 ∷ 0 ∷ 0 ∷ 0 ∷ 0 ∷ []

cancel_written : encode [] (Message.cancel 7) ≡ (cancel_bytes, none)
unfolding encode httppooler.Wire.Build.job httppooler.Base.Bytes.to_le
cancel_written = refl

next-encode_example :
    next (said_hello (cancel_bytes ++ 2 ∷ [])) ≡ (ok (Message.cancel 7), said_hello (2 ∷ []))
next-encode_example =
    next-encode (said_hello (cancel_bytes ++ 2 ∷ [])) (Message.cancel 7) cancel_bytes (2 ∷ [])
      cancel_written (ground arith) (inr refl) refl refl

cancel-AreBytes : AreBytes (cancel_bytes ++ 2 ∷ [])
cancel-AreBytes = ground arith

cancel_read : (next (said_hello (cancel_bytes ++ 2 ∷ []))).0.error ≡ none
cancel_read = ap (λ (r : Answer Error Message × Decoder). r.0.error) next-encode_example

encode-next_example :
    (m : Message) × (bytes : Bytes) × (rest : Bytes) × (encode [] m ≡ (bytes, none))
    × Fits m
    × IsDue (said_hello (cancel_bytes ++ 2 ∷ [])) m
    × (cancel_bytes ++ 2 ∷ [] ≡ bytes ++ rest)
    × (next (said_hello (cancel_bytes ++ 2 ∷ []))
        ≡ (ok m, after m rest (said_hello (cancel_bytes ++ 2 ∷ []))))
encode-next_example = encode-next (said_hello (cancel_bytes ++ 2 ∷ [])) cancel-AreBytes cancel_read

-- A PING before HELLO.
too_early : (next (server_side (2 ∷ []))).0.error ≡ some (Error.before_hello 2)
unfolding next new_decoder
too_early = refl

next_final_example :
    next (next (server_side (2 ∷ []))).1
    ≡ (err (Error.before_hello 2), (next (server_side (2 ∷ []))).1)
next_final_example = next_final (server_side (2 ∷ [])) (Error.before_hello 2) too_early

next_answers_example :
    ((m : Message) × ((next (said_hello (cancel_bytes ++ 2 ∷ []))).0 ≡ ok m))
    ⊎ ((e : Error) × ((next (said_hello (cancel_bytes ++ 2 ∷ []))).0 ≡ err e))
next_answers_example = next_answers (said_hello (cancel_bytes ++ 2 ∷ [])) cancel-AreBytes

encode_exact_example :
    ((encode (5 ∷ []) (Message.cancel 0) ≡ (5 ∷ layout (Message.cancel 0), none))
      × IsValid (Message.cancel 0))
    ⊎ (((x : Error) × (encode (5 ∷ []) (Message.cancel 0) ≡ (5 ∷ [], some x)))
        × ¬ IsValid (Message.cancel 0))
encode_exact_example = encode_exact (5 ∷ []) (Message.cancel 0)

abbrev nothing_wrong : Option Error
nothing_wrong = none

abbrev fresh : Encoder
fresh = new_encoder Role.client

write_exact_example :
    ((write nothing_wrong fresh greeting ≡ (none, wrote greeting fresh))
      × (InOrder fresh greeting × IsValid greeting × (nothing_wrong ≡ none)))
    ⊎ (Stopped fresh (write nothing_wrong fresh greeting)
        × ¬ (InOrder fresh greeting × IsValid greeting × (nothing_wrong ≡ none)))
write_exact_example = write_exact nothing_wrong fresh greeting

abbrev hand : Bytes
hand =
    0 ∷ 0 ∷ 0 ∷ 0 ∷ 0 ∷ 0 ∷ 0 ∷ 0 ∷ 0 ∷ 0 ∷ 0 ∷ 0 ∷ 0 ∷ 0 ∷ 0 ∷ 0 ∷ 0 ∷ 0 ∷ 0 ∷ 0 ∷ 0 ∷ 0 ∷ 0 ∷ 0
    ∷ 0 ∷ 0 ∷ 0 ∷ 0 ∷ 0 ∷ 0 ∷ 0 ∷ 0 ∷ 0 ∷ 0 ∷ 0 ∷ 0 ∷ 0 ∷ 0 ∷ 0 ∷ 0 ∷ 0 ∷ 0 ∷ 0 ∷ 0 ∷ 0 ∷ 0 ∷ 0 ∷ 0
    ∷ []

opening_roundtrip_example :
    (bytes : Bytes) × (write_framed none preamble hand ≡ (some bytes, none))
    × (read_opening (record { input = bytes ++ 6 ∷ []; ends = IoError.eof })
        ≡ (ok hand, record { input = 6 ∷ []; ends = IoError.eof }))
opening_roundtrip_example = opening_roundtrip hand (6 ∷ []) IoError.eof (omega arith) (omega arith)

abbrev takes_all : ℕ → Option IoError
takes_all n = none

abbrev direction : CipherState
direction = record { aead = plain; nonce = 3 }

abbrev lines : List Bytes
lines = hand ∷ [] ∷ (1 ∷ 2 ∷ []) ∷ []

record_stream_example : Gathered 49 (Frames.flat lines) (5 ∷ []) (
    gather 49 49 (
      new_record_reader
        (record {
          input =
              Frames.flat (write_each takes_all lines (new_record_writer direction)).sent ++ 5 ∷ [];
          ends = IoError.eof;
        })
        direction))
record_stream_example =
    record_stream takes_all (λ n. refl) direction lines (5 ∷ []) IoError.eof 49 plain-IsAead
      (omega arith) (omega arith)

abbrev secret : Bytes
secret = zeros 32

abbrev empty : Source
empty = record { input = []; ends = IoError.eof }

handshake-HaveMet_example : HaveMet toy secret secret secret
handshake-HaveMet_example =
    handshake-HaveMet toy secret secret secret toy-IsSuite (length-zeros 32)
      (omega (arith, length-zeros 32)) (omega (arith, length-zeros 32))

session_stream_example :
    (met : HaveMet toy secret secret secret) × (let sent =
        write_each takes_all lines (session_of (met.a, met.b) empty).writer in
      let there : Source = record { input = Frames.flat sent.sent ++ []; ends = IoError.eof } in
      Gathered 49 (Frames.flat lines) [] (gather 49 49 (session_of (met.b, met.a) there).reader))
session_stream_example =
    session_stream toy secret secret secret takes_all lines empty [] IoError.eof 49 toy-IsSuite
      (length-zeros 32) (omega (arith, length-zeros 32)) (omega (arith, length-zeros 32))
      (λ n. refl) (omega arith) (omega arith)
