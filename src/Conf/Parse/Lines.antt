-- ===== src/Conf/Parse/Lines.antt =====
-- The line that a refusal names.
use httppooler.Base.{
  ℕ, suc, ◌+◌, ◌≤◌, ◌<◌, ◌≡◌, refl, subst, Bool, true, false, not, ◌&&◌, ◌||◌, Option, none, some,
  List, [], ◌∷◌, length, if◌then◌else◌, arith, ◌==◌,
}
use httppooler.Base.Bytes.{Bytes}
use httppooler.Base.Map.{get}
use httppooler.Conf.Text.{cut, trim_space, lines, has}
use httppooler.Conf.Parse.{
  ConfError, Parsed, section_kinds, unquote, section_name, new_section, header, setting, Sections,
  all_of, set_key, line_of, split_from, split, uncomment, and_then, before_last, at_blank, is_empty,
  is_word,
}

-- A refusal names the line.
abbrev Blames : {A : Type 0} → (ℕ → Type 0) → Parsed A → Type 0
Blames P (Parsed.parsed a) = Unit
Blames P (Parsed.refused e) = P e.line

and_then-Blames :
    {A B : Type 0} (P : ℕ → Type 0) (t : Parsed A) (f : A → Parsed B)
    → Blames P t
    → ((a : A) → Blames P (f a))
    → Blames P (and_then t f)
and_then-Blames P (Parsed.parsed a) f p h = h a
and_then-Blames P (Parsed.refused e) f p h = p

guard-Blames :
    {A : Type 0} (P : ℕ → Type 0) (b : Bool) (e : ConfError) (t : Parsed A)
    → P e.line
    → Blames P t
    → Blames P (if b then Parsed.refused e else t)
guard-Blames P true e t p h = p
guard-Blames P false e t p h = h

option-Blames :
    {X A : Type 0} (P : ℕ → Type 0) (o : Option X) (t : Parsed A) (f : X → Parsed A)
    → Blames P t
    → ((x : X) → Blames P (f x))
    → Blames P (elim o [ none ↦ t | some x ↦ f x ])
option-Blames P none t f n h = n
option-Blames P (some x) t f n h = h x

module _ (line : ℕ) where
  abbrev Here : ℕ → Type 0
  Here n = n ≡ line

  new_section-Here : (kind name : Bytes) → Blames Here (new_section line kind name)
  unfolding new_section
  new_section-Here kind name = option-Blames Here (section_kinds kind) _ _ refl (λ named.
      guard-Blames Here (named && is_empty name) _ _ refl
        (guard-Blames Here (not named && not (is_empty name)) _ _ refl tt))

  section_name-Here : (quoted : Bytes) → Blames Here (section_name line quoted)
  unfolding section_name
  section_name-Here quoted = option-Blames Here (unquote (trim_space quoted)) _ _ refl (λ name.
      guard-Blames Here (has b'"' name) _ _ refl (guard-Blames Here (is_empty name) _ _ refl tt))

  header-Here : (text : Bytes) → Blames Here (header text line)
  unfolding header
  header-Here text = option-Blames Here (before_last b']' text) _ _ refl (λ between.
      option-Blames Here (at_blank (trim_space between)) _ _
        (new_section-Here (trim_space between) [])
        (λ p.
          and_then-Blames Here (section_name line p.1) _ (section_name-Here p.1)
            (λ name. new_section-Here p.0 name)))

  setting-Here : (text : Bytes) → Blames Here (setting text line)
  unfolding setting
  setting-Here text = option-Blames Here (cut b'=' text) _ _ refl (λ p.
      guard-Blames Here (is_empty (trim_space p.0) || not (is_word (trim_space p.0))) _ _ refl
        (guard-Blames Here (is_empty (trim_space p.1)) _ _ refl tt))

  set_key-Here : (kv : Bytes × Bytes) (s : Sections) → Blames Here (set_key line kv s)
  unfolding set_key
  set_key-Here (key, val) (done, none) = refl
  set_key-Here (key, val) (done, some s) = option-Blames Here (get key s.keys) _ _ tt (λ old. refl)

  line_of-Here : (text : Bytes) (s : Sections) → Blames Here (line_of line text s)
  unfolding line_of
  line_of-Here [] s = tt
  line_of-Here (b ∷ text) s =
      elim (b == b'[')
        as (λ t. Blames Here (
          if t
          then and_then (header text line) (λ parsed. Parsed.parsed (all_of s, some parsed))
          else and_then (setting (b ∷ text) line) (λ kv. set_key line kv s))) [
            | true ↦ and_then-Blames Here (header text line) _ (header-Here text) (λ a. tt)
            | false ↦
                and_then-Blames Here (setting (b ∷ text) line) _ (setting-Here (b ∷ text))
                  (λ kv. set_key-Here kv s)
          ]

-- A line from `line` on, of `n` lines.
abbrev Within : ℕ → ℕ → ℕ → Type 0
Within line n k = (line ≤ k) × (k < line + n)

widened :
    {A : Type 0} (P Q : ℕ → Type 0) (t : Parsed A) → ((n : ℕ) → P n → Q n) → Blames P t → Blames Q t
widened P Q (Parsed.parsed a) f p = tt
widened P Q (Parsed.refused e) f p = f e.line p

split_from-Blames :
    (line : ℕ) (ls : List Bytes) (s : Sections)
    → Blames (Within line (length ls)) (split_from line ls s)
unfolding split_from
split_from-Blames line [] s = tt
split_from-Blames line (raw ∷ more) s =
    let text = trim_space (uncomment raw) in
    let all = Within line (suc (length more)) in
    and_then-Blames all (line_of line text s) (split_from (suc line) more)
      (widened (λ n. n ≡ line) all (line_of line text s)
        (λ n e. (omega (arith, e), omega (arith, e))) (line_of-Here line text s))
      (λ s'.
        widened (Within (suc line) (length more)) all (split_from (suc line) more s')
          (λ n h. (omega (arith, h.0), omega (arith, h.1))) (split_from-Blames (suc line) more s'))

-- Every refusal of `split` names a line that the text has, the first of them being 1.
pub split_line :
    (text : Bytes) (e : ConfError)
    → split text ≡ Parsed.refused e
    → (1 ≤ e.line) × (e.line ≤ suc (length (lines text).1))
unfolding split
split_line text e h =
    let ls = (lines text).0 ∷ (lines text).1 in
    let b =
      and_then-Blames (Within 1 (length ls)) (split_from 1 ls ([], none))
        (λ s. Parsed.parsed (all_of s)) (split_from-Blames 1 ls ([], none)) (λ s. tt) in
    let (low, high) = subst (Blames (Within 1 (length ls))) h b in (low, omega (arith, high))
