-- ===== src/Conf/Parse/Sections.antt =====
-- What `split` makes: sections that are known and named as they must be, with each key set once.
use httppooler.Base.{
  ℕ, suc, ◌≡◌, inl, inr, refl, sym, ◌∙◌, subst, Bool, true, false, not, ◌&&◌, ◌||◌, none, some,
  List, [], ◌∷◌, ◌++◌, arith, All, All-append, All-append_left, All-append_right, Bool-cases, ◌==◌,
}
use httppooler.Base.Bytes.{Bytes}
use httppooler.Base.Map.{bytes_eq, bytes_eq_iff, get, put, get-put}
use httppooler.Base.Unique.{Among, Unique, Among-append, Among-front, Among-last, Unique-last}
use httppooler.Conf.Text.{cut, trim_space}
use httppooler.Conf.Parse.{
  Value, Section, section_kinds, is_word, is_empty, new_section, header, setting, Sections, all_of,
  before_last, at_blank, set_key, line_of, split_from, split, section_name,
}
use httppooler.Conf.Parse.Gives.{Gives, and_then-Gives, guard-Gives, option-Gives, anything}

-- A key with its value, as the grammar has them.
abbrev pub IsSetting : Bytes → Value → Type 0
IsSetting key v = (is_word key ≡ true) × (is_empty key ≡ false) × (is_empty v.text ≡ false)

pub record IsSection (s : Section) : Type 0 where
  pub known : (named : Bool) × (section_kinds s.kind ≡ some named) × (is_empty s.name ≡ not named)
  pub unique : Unique s.order
  pub ordered : (key : Bytes) → Among key s.order → (v : Value) × (get key s.keys ≡ some v)
  pub complete :
      (key : Bytes) (v : Value) → get key s.keys ≡ some v → Among key s.order × IsSetting key v

set_keys : Bytes → Value → Section → Section
set_keys key v s = record s { keys = put key v s.keys; order = s.order ++ key ∷ [] }

some_same : {A : Type 0} (a b : A) → some a ≡ some b → a ≡ b
some_same a b e = ground arith

set_keys-IsSection :
    (key : Bytes) (v : Value) (s : Section)
    → get key s.keys ≡ none
    → IsSetting key v
    → IsSection s
    → IsSection (set_keys key v s)
unfolding set_keys
set_keys-IsSection key v s free good i = record {
  known = i.known;
  unique = Unique-last key s.order i.unique (λ a. let (w, e) = i.ordered key a in cc (free, e));
  ordered = λ k a. elim (Bool-cases (bytes_eq key k)) [
    | inl same ↦ (v, get-put key k v s.keys ∙ rw same refl)
    | inr other ↦ elim (Among-append k s.order (key ∷ []) a) [
      | inl l ↦ let (w, e) = i.ordered k l in (w, get-put key k v s.keys ∙ rw other e)
      | inr (inl e) ↦ absurd (cc (other, (bytes_eq_iff key k).1 (sym e)))
      | inr (inr e) ↦ absurd e
    ]
  ];
  complete = λ k w e. elim (Bool-cases (bytes_eq key k)) [
    | inl same ↦
        let here : key ≡ k = (bytes_eq_iff key k).0 same in
        let v_w : v ≡ w = some_same v w (sym (get-put key k v s.keys ∙ rw same refl) ∙ e) in
        (
          subst (λ x. Among x (s.order ++ key ∷ [])) here (Among-last key s.order),
          subst (λ x. IsSetting x w) here (subst (IsSetting key) v_w good),
        )
    | inr other ↦
        let (a, g) = i.complete k w (sym (get-put key k v s.keys ∙ rw other refl) ∙ e) in
        (Among-front k s.order (key ∷ []) a, g)
  ];
}

named_right :
    (named none_given : Bool)
    → (named && none_given) ≡ false
    → (not named && not none_given) ≡ false
    → none_given ≡ not named
named_right true true a b = absurd (ground arith)
named_right true false a b = refl
named_right false true a b = refl
named_right false false a b = absurd (ground arith)

no_keys : (k : Bytes) (v : Value) → ¬ (get k [] ≡ some v)
unfolding get
no_keys k v x = ground arith

new_section-IsSection :
    (line : ℕ) (kind name : Bytes) → Gives IsSection (new_section line kind name)
unfolding new_section
new_section-IsSection line kind name =
    option-Gives IsSection (section_kinds kind) _ _ (λ e. tt)
      (λ named e. guard-Gives IsSection (named && is_empty name) _ _ (λ a.
        guard-Gives IsSection (not named && not (is_empty name)) _ _ (λ b. record {
          known = (named, e, named_right named (is_empty name) a b);
          unique = tt;
          ordered = λ k x. absurd x;
          complete = λ k v x. absurd (no_keys k v x);
        })))

header-IsSection : (text : Bytes) (line : ℕ) → Gives IsSection (header text line)
unfolding header
header-IsSection text line =
    option-Gives IsSection (before_last b']' text) _ _ (λ e. tt)
      (λ between e.
        option-Gives IsSection (at_blank (trim_space between)) _ _
          (λ f. new_section-IsSection line (trim_space between) [])
          (λ p f.
            and_then-Gives (λ n. Unit) IsSection (section_name line p.1) _
              (anything (section_name line p.1)) (λ name n. new_section-IsSection line p.0 name)))

abbrev IsPair : Bytes × Bytes → Type 0
IsPair kv = (is_word kv.0 ≡ true) × (is_empty kv.0 ≡ false) × (is_empty kv.1 ≡ false)

key_right : (empty word : Bool) → (empty || not word) ≡ false → (empty ≡ false) × (word ≡ true)
key_right true word a = absurd (ground arith)
key_right false true a = (refl, refl)
key_right false false a = absurd (ground arith)

setting-IsPair : (text : Bytes) (line : ℕ) → Gives IsPair (setting text line)
unfolding setting
setting-IsPair text line =
    option-Gives IsPair (cut b'=' text) _ _ (λ e. tt)
      (λ p e.
        guard-Gives IsPair (is_empty (trim_space p.0) || not (is_word (trim_space p.0))) _ _ (λ a.
          guard-Gives IsPair (is_empty (trim_space p.1)) _ _
            (λ b. let (full, word) = key_right _ _ a in (word, full, b))))

-- The sections so far, with the current one.
abbrev AreSound : Sections → Type 0
AreSound s = All IsSection (all_of s)

set_key-AreSound :
    (line : ℕ) (kv : Bytes × Bytes) (s : Sections)
    → IsPair kv
    → AreSound s
    → Gives AreSound (set_key line kv s)
unfolding set_key set_keys
set_key-AreSound line (key, val) (done, none) p h = tt
set_key-AreSound line (key, val) (done, some s) (w, f, v) h =
    option-Gives AreSound (get key s.keys) _ _
      (λ e. All-append IsSection done _ (All-append_left IsSection done (s ∷ []) h) (
        set_keys-IsSection key (record { text = val; line = line }) s e (w, f, v)
            (All-append_right IsSection done (s ∷ []) h).0,
        tt,
      ))
      (λ old e. tt)

line_of-AreSound :
    (line : ℕ) (text : Bytes) (s : Sections) → AreSound s → Gives AreSound (line_of line text s)
unfolding line_of
line_of-AreSound line [] s h = h
line_of-AreSound line (b ∷ text) s h = elim (Bool-cases (b == b'[')) [
  | inl e ↦ rw e (
      and_then-Gives IsSection AreSound (header text line) _ (header-IsSection text line)
        (λ a i. All-append IsSection (all_of s) (a ∷ []) h (i, tt)))
  | inr e ↦ rw e (
      and_then-Gives IsPair AreSound (setting (b ∷ text) line) _ (setting-IsPair (b ∷ text) line)
        (λ kv i. set_key-AreSound line kv s i h))
]

split_from-AreSound :
    (line : ℕ) (ls : List Bytes) (s : Sections) → AreSound s → Gives AreSound (split_from line ls s)
unfolding split_from
split_from-AreSound line [] s h = h
split_from-AreSound line (raw ∷ more) s h =
    and_then-Gives AreSound AreSound _ _ (line_of-AreSound line _ s h)
      (λ s' h'. split_from-AreSound (suc line) more s' h')

-- Every section of a text that `split` does not refuse is of a kind there is, has a name just where its
-- kind is named, has its keys in an order without repetition that is the map's keys, and each of them
-- is a word with a value that is not empty.
pub split-IsSection : (text : Bytes) → Gives (All IsSection) (split text)
unfolding split
split-IsSection text =
    and_then-Gives AreSound (All IsSection) _ _ (split_from-AreSound 1 _ ([], none) tt) (λ s h. h)
