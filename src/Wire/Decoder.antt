-- ===== src/Wire/Decoder.antt =====
-- decode.go: the decoder's state and its readers of single fields. A decoder that has refused
-- anything reads nothing more, and each reader gives the zero value then.
pub mod Reads
pub mod Fields
pub mod Rounds
pub mod Lists
use httppooler.Base.{
  ℕ, zero, suc, Bool, true, false, not, ◌&&◌, ◌||◌, Option, none, some, List, [], ◌∷◌, ◌++◌, length,
  take, drop, ltb, leb, ◌==◌, if◌then◌else◌,
}
use httppooler.Base.Bytes.{Bytes, from_le}
use httppooler.Base.Utf8.{valid_utf8}
use httppooler.Wire.Message.{Role, Header, min_status, max_status}
use httppooler.Wire.Error.{Error, What, IoError}

-- `input` is what the reader below still gives, and `ends` the error that it gives after that.
pub record Decoder : Type 0 where
  pub input : Bytes
  pub ends : IoError
  pub role : Role
  pub got_hello : Bool
  pub error : Option Error

abbrev pub Decoding : Type 0 → Type 0
Decoding A = Decoder → A × Decoder

abbrev pub pure : {A : Type 0} → A → Decoding A
pure a d = (a, d)

infixl 5 ◌>>=◌
abbrev pub ◌>>=◌ : {A B : Type 0} → Decoding A → (A → Decoding B) → Decoding B
◌>>=◌ m f d = let (a, d') = m d in f a d'

unfoldable pub new_decoder : Bytes → IoError → Role → Decoder
new_decoder input ends role = record {
  input = input;
  ends = ends;
  role = role;
  got_hello = false;
  error = none;
}

unfoldable pub fail : Error → Decoder → Decoder
fail e d = elim d.error [ none ↦ record d { error = some e } | some first ↦ d ]

-- An end of stream inside a message is unexpected.
abbrev pub inside : IoError → IoError
inside IoError.eof = IoError.unexpected_eof
inside IoError.unexpected_eof = IoError.unexpected_eof
inside IoError.broken = IoError.broken

-- io.ReadFull of `n` bytes: all of them, or what there is and an error.
unfoldable pub read_full : ℕ → Decoding (Option Bytes)
read_full n d =
    if leb n (length d.input)
    then (some (take n d.input), record d { input = drop n d.input })
    else (none, record d { input = []; error = some (Error.io (inside d.ends)) })

unfoldable pub read : ℕ → Decoding (Option Bytes)
unfolding read_full
read n d = elim d.error [ none ↦ read_full n d | some e ↦ (none, d) ]

abbrev or_zero : Option Bytes → ℕ
or_zero none = 0
or_zero (some buf) = from_le buf

-- The integer of the next `k` bytes, which the four readers below share.
uint : ℕ → Decoding ℕ
unfolding read
uint k = do buf ← read k; pure (or_zero buf)

unfoldable pub u8 : Decoding ℕ
unfolding uint
u8 = uint 1

unfoldable pub u16 : Decoding ℕ
unfolding uint
u16 = uint 2

unfoldable pub u32 : Decoding ℕ
unfolding uint
u32 = uint 4

unfoldable pub u64 : Decoding ℕ
unfolding uint
u64 = uint 8

abbrev or_nil : Option Bytes → Bytes
or_nil none = []
or_nil (some buf) = buf

abbrev pub failed : Decoder → Bool
failed d = elim d.error [ none ↦ false | some e ↦ true ]

unfoldable pub bytes : ℕ → Decoding Bytes
unfolding read
bytes n d = if failed d || n == 0 then ([], d) else (do buf ← read n; pure (or_nil buf)) d

unfoldable pub str8 : Decoding Bytes
unfolding u8 bytes
str8 = do n ← u8; bytes n

unfoldable pub str16 : Decoding Bytes
unfolding u16 bytes
str16 = do n ← u16; bytes n

-- `if d.err == nil && bad { d.fail(e); return zero }; return a`
unfoldable pub refuse_if : {A : Type 0} → Bool → Error → A → A → Decoding A
unfolding fail
refuse_if bad e nil a d = if not (failed d) && bad then (nil, fail e d) else (a, d)

unfoldable pub name8 : What → Decoding Bytes
unfolding str8 refuse_if
name8 what = do s ← str8; refuse_if (not (valid_utf8 s)) (Error.not_utf8 what) [] s

unfoldable pub text16 : What → Decoding Bytes
unfolding str16 refuse_if
text16 what = do s ← str16; refuse_if (not (valid_utf8 s)) (Error.not_utf8 what) [] s

unfoldable pub job : Decoding ℕ
unfolding u64 refuse_if
job = do id ← u64; refuse_if (id == 0) Error.job_zero 0 id

unfoldable pub slots : Decoding ℕ
unfolding u16 refuse_if
slots = do n ← u16; refuse_if (ltb n 1) Error.no_slots 0 n

unfoldable pub status : Decoding ℕ
unfolding u16 refuse_if
status = do s ← u16; refuse_if (ltb s min_status || ltb max_status s) (Error.bad_status s) 0 s

-- What `chunk` does with its byte count.
chunk_of : ℕ → Decoding Bytes
unfolding fail bytes
chunk_of n d =
    if failed d then ([], d) else if ltb n 1 then ([], fail Error.chunk_empty d) else bytes n d

unfoldable pub chunk : Decoding Bytes
unfolding u32 chunk_of
chunk = do n ← u32; chunk_of n

unfoldable pub header : Decoding Header
unfolding str8 str16
header = do name ← str8; value ← str16; pure (record { name = name; value = value })

-- The loop of `headers` with `n` rounds left: an error in a round gives nil for the whole.
unfoldable pub each_header : ℕ → List Header → Decoding (List Header)
unfolding header
each_header zero hs d = (hs, d)
each_header (suc n) hs d =
    let (h, d') = header d in
    elim d'.error [ some e ↦ ([], d') | none ↦ each_header n (hs ++ h ∷ []) d' ]

-- What `headers` does with its count.
unfoldable pub headers_of : ℕ → Decoding (List Header)
unfolding each_header
headers_of count d = if failed d || count == 0 then ([], d) else each_header count [] d

unfoldable pub headers : Decoding (List Header)
unfolding u16 headers_of
headers = do count ← u16; headers_of count
