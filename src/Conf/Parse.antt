-- ===== src/Conf/Parse.antt =====
-- parse.go: text into sections.
pub mod Gives
pub mod Sections
pub mod Lines
use httppooler.Base.{
  ℕ, zero, suc, ◌+◌, Bool, true, false, not, ◌&&◌, ◌||◌, Option, none, some, List, [], ◌∷◌, ◌++◌,
  length, leb, ltb, ◌==◌, if◌then◌else◌,
}
use httppooler.Base.Bytes.{Bytes}
use httppooler.Base.Map.{bytes_eq, get, put}
use httppooler.Conf.Text.{cut, lines, has, reverse, trim_space}

pub record Value : Type 0 where
  pub text : Bytes
  pub line : ℕ

pub record Section : Type 0 where
  pub kind : Bytes
  pub name : Bytes
  pub line : ℕ
  pub keys : List (Bytes × Value)
  pub order : List Bytes

-- The words of the grammar.
abbrev pub peer_kind : Bytes
peer_kind = b'p' ∷ b'e' ∷ b'e' ∷ b'r' ∷ []

abbrev pub consume_kind : Bytes
consume_kind = b'c' ∷ b'o' ∷ b'n' ∷ b's' ∷ b'u' ∷ b'm' ∷ b'e' ∷ []

abbrev pub provide_kind : Bytes
provide_kind = b'p' ∷ b'r' ∷ b'o' ∷ b'v' ∷ b'i' ∷ b'd' ∷ b'e' ∷ []

-- The refusals of the package, one constructor for each text, with what it names.
pub data Refusal : Type 0 where
  not_closed not_quoted holds_quote empty_section : Refusal
  unknown_section needs_name takes_no_name : (kind : Bytes) → Refusal
  no_equals : Refusal
  not_a_key no_value before_section : (key : Bytes) → Refusal
  set_twice : (key : Bytes) → (line : ℕ) → Refusal
  peer_twice service_twice : (line : ℕ) → Refusal
  unknown_key : (key : Bytes) → Refusal
  no_listen no_upstream : Refusal
  bad_role not_host_port no_host bad_port : (text : Bytes) → Refusal
  secret_size : (size : ℕ) → Refusal
  not_hex : Refusal
  bad_duration no_wait bad_number : (text : Bytes) → Refusal
  too_low : (number : ℕ) → Refusal
  empty_name not_utf8 : Refusal
  long_name : (size : ℕ) → Refusal
  no_secret no_server server_key client_key : Refusal

-- `Error`, without the name of the file, which every refusal carries as it came in.
pub record ConfError : Type 0 where
  pub line : ℕ
  pub why : Refusal

pub data Parsed (A : Type 0) : Type 0 where
  parsed : A → Parsed A
  refused : ConfError → Parsed A

abbrev pub refuse : {A : Type 0} → ℕ → Refusal → Parsed A
refuse line why = Parsed.refused (record { line = line; why = why })

-- `sectionKinds`: whether a section of the kind is named, if there is one.
unfoldable pub section_kinds : Bytes → Option Bool
section_kinds kind =
    if bytes_eq kind peer_kind
    then some false
    else if bytes_eq kind consume_kind
    then some true
    else if bytes_eq kind provide_kind
    then some true
    else none

unfoldable pub uncomment : Bytes → Bytes
uncomment line = elim (cut b'#' line) [ none ↦ line | some p ↦ p.0 ]

abbrev is_letter : ℕ → Bool
is_letter r = (leb b'a' r && leb r b'z') || (leb b'A' r && leb r b'Z')

abbrev is_digit : ℕ → Bool
is_digit r = leb b'0' r && leb r b'9'

-- A byte above 127 belongs to a rune that is none of these.
unfoldable pub is_word : Bytes → Bool
is_word [] = true
is_word (r ∷ rs) =
    let rest = is_word rs in
    if not (is_letter r) && (not (is_digit r) && not (r == b'_')) then false else rest

abbrev pub is_empty : Bytes → Bool
is_empty [] = true
is_empty (b ∷ bs) = false

-- The bytes before the first blank, and from it on.
unfoldable pub at_blank : Bytes → Option (Bytes × Bytes)
at_blank [] = none
at_blank (b ∷ bs) =
    let rest = at_blank bs in
    if b == b' ' || b == b'\t'
    then some ([], b ∷ bs)
    else elim rest [ none ↦ none | some p ↦ some (b ∷ p.0, p.1) ]

-- Without the byte `c` at the end, if there is one.
abbrev pub before_last : ℕ → Bytes → Option Bytes
before_last c s = elim (reverse s) [
  | [] ↦ none
  | b ∷ bs ↦ if b == c then some (reverse bs) else none
]

-- What stands between double quotes that begin and end the text.
unfoldable pub unquote : Bytes → Option Bytes
unquote [] = none
unquote (b ∷ bs) = if b == b'"' then before_last b'"' bs else none

-- The name in a header, from the blank on.
unfoldable pub section_name : ℕ → Bytes → Parsed Bytes
section_name line quoted = elim (unquote (trim_space quoted)) [
  | none ↦ refuse line Refusal.not_quoted
  | some name ↦
      if has b'"' name
      then refuse line Refusal.holds_quote
      else if is_empty name
      then refuse line Refusal.empty_section
      else Parsed.parsed name
]

-- The checks of a header's kind and name.
unfoldable pub new_section : ℕ → Bytes → Bytes → Parsed Section
new_section line kind name = elim (section_kinds kind) [
  | none ↦ refuse line (Refusal.unknown_section kind)
  | some named ↦
      if named && is_empty name
      then refuse line (Refusal.needs_name kind)
      else if not named && not (is_empty name)
      then refuse line (Refusal.takes_no_name kind)
      else Parsed.parsed (record { kind = kind; name = name; line = line; keys = []; order = [] })
]

abbrev pub and_then : {A B : Type 0} → Parsed A → (A → Parsed B) → Parsed B
and_then (Parsed.parsed a) f = f a
and_then (Parsed.refused e) f = Parsed.refused e

-- `header`, behind the first bracket.
unfoldable pub header : Bytes → ℕ → Parsed Section
header text line = elim (before_last b']' text) [
  | none ↦ refuse line Refusal.not_closed
  | some between ↦
      let inner = trim_space between in
      elim (at_blank inner) [
        | none ↦ new_section line inner []
        | some p ↦ and_then (section_name line p.1) (λ name. new_section line p.0 name)
      ]
]

unfoldable pub setting : Bytes → ℕ → Parsed (Bytes × Bytes)
setting text line = elim (cut b'=' text) [
  | none ↦ refuse line Refusal.no_equals
  | some p ↦
      let key = trim_space p.0 in
      let val = trim_space p.1 in
      if is_empty key || not (is_word key)
      then refuse line (Refusal.not_a_key key)
      else if is_empty val
      then refuse line (Refusal.no_value key)
      else Parsed.parsed (key, val)
]

-- The sections before the current one, and that one, which later lines still write to.
abbrev pub Sections : Type 0
Sections = List Section × Option Section

abbrev pub all_of : Sections → List Section
all_of (done, none) = done
all_of (done, some s) = done ++ s ∷ []

-- A setting that goes to the current section.
unfoldable pub set_key : ℕ → Bytes × Bytes → Sections → Parsed Sections
set_key line (key, val) (done, none) = refuse line (Refusal.before_section key)
set_key line (key, val) (done, some s) = elim (get key s.keys) [
  | some old ↦ refuse line (Refusal.set_twice key old.line)
  | none ↦ Parsed.parsed (
    done,
    some (record s {
      keys = put key (record { text = val; line = line }) s.keys;
      order = s.order ++ key ∷ [];
    }),
  )
]

-- A line that is trimmed.
unfoldable pub line_of : ℕ → Bytes → Sections → Parsed Sections
line_of line [] s = Parsed.parsed s
line_of line (b ∷ text) s =
    if b == b'['
    then and_then (header text line) (λ parsed. Parsed.parsed (all_of s, some parsed))
    else and_then (setting (b ∷ text) line) (λ kv. set_key line kv s)

-- The loop of `split`.
unfoldable pub split_from : ℕ → List Bytes → Sections → Parsed Sections
split_from line [] s = Parsed.parsed s
split_from line (raw ∷ more) s =
    and_then (line_of line (trim_space (uncomment raw)) s) (λ s'. split_from (suc line) more s')

unfoldable pub split : Bytes → Parsed (List Section)
split text =
    let (first, others) = lines text in
    and_then (split_from 1 (first ∷ others) ([], none)) (λ s. Parsed.parsed (all_of s))
