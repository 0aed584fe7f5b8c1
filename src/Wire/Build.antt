-- ===== src/Wire/Build.antt =====
-- encode.go: the builder, which appends fields and remembers the first thing that was wrong.
use httppooler.Base.{
  ℕ, not, ◌||◌, Option, none, some, List, [], ◌∷◌, ◌++◌, length, ltb, ◌==◌, if◌then◌else◌,
}
use httppooler.Base.Bytes.{Bytes, to_le}
use httppooler.Base.Utf8.{valid_utf8}
use httppooler.Wire.Message.{Header, ProviderInfo, min_status, max_status}
use httppooler.Wire.Error.{Error, What}

pub record Builder : Type 0 where
  pub buf : Bytes
  pub error : Option Error

abbrev pub Build : Type 0
Build = Builder → Builder

-- One field after another.
infixr 60 ◌▷◌
abbrev pub ◌▷◌ : Build → Build → Build
◌▷◌ f g b = g (f b)

abbrev pub append : Bytes → Build
append bytes b = record b { buf = b.buf ++ bytes }

unfoldable pub u8 : ℕ → Build
u8 v = append (to_le 1 v)

unfoldable pub u16 : ℕ → Build
u16 v = append (to_le 2 v)

unfoldable pub u32 : ℕ → Build
u32 v = append (to_le 4 v)

unfoldable pub u64 : ℕ → Build
u64 v = append (to_le 8 v)

unfoldable pub fail : Error → Build
fail e b = elim b.error [ none ↦ record b { error = some e } | some first ↦ b ]

unfoldable pub str8 : What → Bytes → Build
unfolding u8 fail
str8 what s =
    if ltb 255 (length s)
    then fail (Error.str8_too_long what (length s))
    else u8 (length s) ▷ append s

unfoldable pub str16 : What → Bytes → Build
unfolding u16 fail
str16 what s =
    if ltb 65535 (length s)
    then fail (Error.str16_too_long what (length s))
    else u16 (length s) ▷ append s

unfoldable pub name8 : What → Bytes → Build
unfolding fail str8
name8 what s = if not (valid_utf8 s) then fail (Error.not_utf8 what) else str8 what s

unfoldable pub text16 : What → Bytes → Build
unfolding fail str16
text16 what s = if not (valid_utf8 s) then fail (Error.not_utf8 what) else str16 what s

unfoldable pub job : ℕ → Build
unfolding fail u64
job id = if id == 0 then fail Error.job_zero else u64 id

unfoldable pub slots : ℕ → Build
unfolding fail u16
slots n = if ltb n 1 then fail Error.no_slots else u16 n

unfoldable pub status : ℕ → Build
unfolding fail u16
status s = if ltb s min_status || ltb max_status s then fail (Error.bad_status s) else u16 s

unfoldable pub count8 : What → ℕ → Build
unfolding fail u8
count8 what n = if ltb 255 n then fail (Error.too_many what n) else u8 n

abbrev pub max_uint32 : ℕ
max_uint32 = 4294967295

unfoldable pub chunk : Bytes → Build
unfolding fail u32
chunk p =
    if ltb (length p) 1
    then fail Error.chunk_empty
    else if ltb max_uint32 (length p)
    then fail (Error.chunk_too_long (length p))
    else u32 (length p) ▷ append p

-- The loop of `headers`.
unfoldable pub each_header : List Header → Build
each_header [] b = b
each_header (h ∷ hs) b =
    each_header hs ((str8 What.header_name h.name ▷ str16 What.header_value h.value) b)

unfoldable pub headers : List Header → Build
unfolding fail u16
headers hs =
    if ltb 65535 (length hs)
    then fail (Error.too_many_headers (length hs))
    else u16 (length hs) ▷ each_header hs

-- The loop over the providers of a HELLO.
unfoldable pub each_provider : List ProviderInfo → Build
each_provider [] b = b
each_provider (p ∷ ps) b =
    each_provider ps ((name8 What.service p.service ▷ slots p.max_concurrent ▷ u16 p.priority) b)
