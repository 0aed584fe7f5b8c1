-- ===== src/Conf/Values.antt =====
-- build.go: the values of the keys, and the functions of net, strconv and encoding/hex under them.
pub mod Bounds
use httppooler.Base.{
  ℕ, zero, suc, ◌+◌, ◌*◌, ◌-◌, Bool, true, false, not, ◌&&◌, ◌||◌, Option, none, some, List, [],
  ◌∷◌, ◌++◌, length, leb, ltb, ◌==◌, if◌then◌else◌,
}
use httppooler.Base.Bytes.{Bytes}
use httppooler.Base.Map.{bytes_eq}
use httppooler.Base.Utf8.{valid_utf8}
use httppooler.Conf.Text.{cut, has, reverse}
use httppooler.Conf.Parse.{Value, Refusal, Parsed, refuse, is_empty}
use httppooler.Conf.Words.{server_key, client_word, secret_size}

-- `Role` of the conf package.
pub data Role : Type 0 where
  no_role server client : Role

-- The text around the last place of a byte.
unfoldable pub cut_last : ℕ → Bytes → Option (Bytes × Bytes)
cut_last c s = elim (cut c (reverse s)) [ none ↦ none | some p ↦ some (reverse p.1, reverse p.0) ]

-- net.SplitHostPort of `[host]:port`, behind the bracket.
unfoldable pub split_bracketed : Bytes → Option (Bytes × Bytes)
split_bracketed t = elim (cut b']' t) [
  | none ↦ none
  | some p ↦ elim p.1 [
    | [] ↦ none
    | b ∷ port ↦
        if not (b == b':') || (has b':' port || (has b'[' t || has b']' port))
        then none
        else some (p.0, port)
  ]
]

unfoldable pub split_plain : Bytes → Option (Bytes × Bytes)
split_plain s = elim (cut_last b':' s) [
  | none ↦ none
  | some p ↦ if has b':' p.0 || (has b'[' s || has b']' s) then none else some p
]

-- net.SplitHostPort, with one error for all.
unfoldable pub split_host_port : Bytes → Option (Bytes × Bytes)
split_host_port [] = none
split_host_port (b ∷ s) = if b == b'[' then split_bracketed s else split_plain (b ∷ s)

abbrev digit : ℕ → Option ℕ
digit b = if leb b'0' b && leb b b'9' then some (b - b'0') else none

-- The number of the digits behind those that made `n`.
unfoldable pub decimal_from : ℕ → Bytes → Option ℕ
decimal_from n [] = some n
decimal_from n (b ∷ bs) = elim (digit b) [ none ↦ none | some d ↦ decimal_from (10 * n + d) bs ]

unfoldable pub decimal : Bytes → Option ℕ
decimal [] = none
decimal (b ∷ bs) = decimal_from 0 (b ∷ bs)

-- strconv.Atoi where it gives no number below 0; what it refuses as too large is a number here.
unfoldable pub atoi : Bytes → Option ℕ
atoi [] = none
atoi (b ∷ bs) = if b == b'+' then decimal bs else decimal (b ∷ bs)

-- strconv.ParseUint of 16 bits in base 10.
unfoldable pub parse_uint16 : Bytes → Option ℕ
parse_uint16 s = elim (decimal s) [ none ↦ none | some n ↦ if leb n 65535 then some n else none ]

abbrev pub hex_digit : ℕ → Option ℕ
hex_digit b =
    if leb b'0' b && leb b b'9'
    then some (b - b'0')
    else if leb b'a' b && leb b b'f'
    then some (10 + (b - b'a'))
    else if leb b'A' b && leb b b'F'
    then some (10 + (b - b'A'))
    else none

-- hex.DecodeString.
unfoldable pub decode_string : Bytes → Option Bytes
decode_string [] = some []
decode_string (a ∷ []) = none
decode_string (a ∷ b ∷ s) =
    let rest = decode_string s in
    elim (hex_digit a) [
      | none ↦ none
      | some h ↦ elim (hex_digit b) [
        | none ↦ none
        | some l ↦ elim rest [ none ↦ none | some bytes ↦ some ((16 * h + l) ∷ bytes) ]
      ]
    ]

unfoldable pub role : Value → Parsed Role
role v =
    if bytes_eq v.text server_key
    then Parsed.parsed Role.server
    else if bytes_eq v.text client_word
    then Parsed.parsed Role.client
    else refuse v.line (Refusal.bad_role v.text)

-- The port is from 1 to 65535.
unfoldable pub is_port : Option ℕ → Bool
is_port none = false
is_port (some n) = not (ltb n 1 || ltb 65535 n)

unfoldable pub address : Value → Bool → Parsed Bytes
address v need_host = elim (split_host_port v.text) [
  | none ↦ refuse v.line (Refusal.not_host_port v.text)
  | some p ↦
      if not (is_port (atoi p.1))
      then refuse v.line (Refusal.bad_port p.1)
      else if need_host && is_empty p.0
      then refuse v.line (Refusal.no_host v.text)
      else Parsed.parsed v.text
]

unfoldable pub secret : Value → Parsed Bytes
secret v =
    if not (length v.text == secret_size * 2)
    then refuse v.line (Refusal.secret_size (length v.text))
    else elim (decode_string v.text) [
      | none ↦ refuse v.line Refusal.not_hex
      | some key ↦ Parsed.parsed key
    ]

-- A duration in nanoseconds.
pub record Duration : Type 0 where
  pub negative : Bool
  pub nanos : ℕ

-- `parse_duration` is time.ParseDuration, whose fractions go by floating point.
unfoldable pub duration : (Bytes → Option Duration) → Value → Parsed ℕ
duration parse_duration v = elim (parse_duration v.text) [
  | none ↦ refuse v.line (Refusal.bad_duration v.text)
  | some d ↦
      if d.negative || d.nanos == 0
      then refuse v.line (Refusal.no_wait v.text)
      else Parsed.parsed d.nanos
]

unfoldable pub number : Value → ℕ → Parsed ℕ
number v low = elim (parse_uint16 v.text) [
  | none ↦ refuse v.line (Refusal.bad_number v.text)
  | some n ↦ if ltb n low then refuse v.line (Refusal.too_low n) else Parsed.parsed n
]

-- `name`, which gives the name back where the code gives no error.
unfoldable pub name : Bytes → ℕ → Parsed Bytes
name s line =
    if is_empty s
    then refuse line Refusal.empty_name
    else if ltb 255 (length s)
    then refuse line (Refusal.long_name (length s))
    else if not (valid_utf8 s)
    then refuse line Refusal.not_utf8
    else Parsed.parsed s

-- `text`.
unfoldable pub text_of : Value → Parsed Bytes
text_of v = name v.text v.line
