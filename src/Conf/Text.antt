-- ===== src/Conf/Text.antt =====
-- The functions of strings that the conf package uses, on the bytes of a string.
use httppooler.Base.{
  ℕ, Bool, true, false, ◌&&◌, ◌||◌, Option, none, some, List, [], ◌∷◌, leb, ◌==◌, if◌then◌else◌,
}
use httppooler.Base.Bytes.{Bytes}

-- strings.Cut at one byte, which says what is before its first place and what behind it.
unfoldable pub cut : ℕ → Bytes → Option (Bytes × Bytes)
cut c [] = none
cut c (b ∷ bs) =
    let rest = cut c bs in
    if b == c then some ([], bs) else elim rest [ none ↦ none | some p ↦ some (b ∷ p.0, p.1) ]

-- strings.Split at line ends, as the first line and the others.
unfoldable pub lines : Bytes → Bytes × List Bytes
lines [] = ([], [])
lines (b ∷ bs) =
    let (first, others) = lines bs in
    if b == b'\n' then ([], first ∷ others) else (b ∷ first, others)

unfoldable pub has : ℕ → Bytes → Bool
has c [] = false
has c (b ∷ bs) = let rest = has c bs in b == c || rest

unfoldable pub reverse_onto : Bytes → Bytes → Bytes
reverse_onto acc [] = acc
reverse_onto acc (b ∷ bs) = reverse_onto (b ∷ acc) bs

abbrev pub reverse : Bytes → Bytes
reverse = reverse_onto []

abbrev is_ascii_space : ℕ → Bool
is_ascii_space b = b == 32 || (leb 9 b && leb b 13)

-- The spaces of two bytes: U+0085 and U+00A0.
abbrev is_space2 : ℕ → ℕ → Bool
is_space2 a b = a == 0xC2 && (b == 0x85 || b == 0xA0)

-- The spaces of three bytes: U+1680, U+2000 to U+200A, U+2028, U+2029, U+202F, U+205F and U+3000.
abbrev is_space3 : ℕ → ℕ → ℕ → Bool
is_space3 a b c =
    (a == 0xE1 && (b == 0x9A && c == 0x80))
    || ((a == 0xE2
          && ((b == 0x80 && ((leb 0x80 c && leb c 0x8A) || (c == 0xA8 || (c == 0xA9 || c == 0xAF))))
              || (b == 0x81 && c == 0x9F)))
        || (a == 0xE3 && (b == 0x80 && c == 0x80)))

-- Without the white space of unicode.IsSpace at its front. The two bytes behind `b` are looked at too.
unfoldable pub trim_left : Bytes → Bytes
trim_left [] = []
trim_left (a ∷ []) = if is_ascii_space a then [] else a ∷ []
trim_left (a ∷ b ∷ []) = elim (is_ascii_space a) [
  | true ↦ trim_left (b ∷ [])
  | false ↦ if is_space2 a b then [] else a ∷ b ∷ []
]
trim_left (a ∷ b ∷ c ∷ bs) = elim (is_ascii_space a) [
  | true ↦ trim_left (b ∷ c ∷ bs)
  | false ↦ elim (is_space2 a b) [
    | true ↦ trim_left (c ∷ bs)
    | false ↦ elim (is_space3 a b c) [ true ↦ trim_left bs | false ↦ a ∷ b ∷ c ∷ bs ]
  ]
]

-- The same on the bytes of a string in reverse, where a space's bytes stand in reverse too.
unfoldable pub trim_back : Bytes → Bytes
trim_back [] = []
trim_back (a ∷ []) = if is_ascii_space a then [] else a ∷ []
trim_back (a ∷ b ∷ []) = elim (is_ascii_space a) [
  | true ↦ trim_back (b ∷ [])
  | false ↦ if is_space2 b a then [] else a ∷ b ∷ []
]
trim_back (a ∷ b ∷ c ∷ bs) = elim (is_ascii_space a) [
  | true ↦ trim_back (b ∷ c ∷ bs)
  | false ↦ elim (is_space2 b a) [
    | true ↦ trim_back (c ∷ bs)
    | false ↦ elim (is_space3 c b a) [ true ↦ trim_back bs | false ↦ a ∷ b ∷ c ∷ bs ]
  ]
]

-- strings.TrimSpace.
unfoldable pub trim_space : Bytes → Bytes
trim_space s = reverse (trim_back (reverse (trim_left s)))
