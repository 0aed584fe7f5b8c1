-- ===== src/Wire/Decoder/Fields.antt =====
-- Each reader of a field reads exactly the layout of a value in the field's range.
use httppooler.Base.{
  ℕ, ◌<◌, ◌≤◌, ◌^◌, ◌≡◌, ◌↔◌, refl, sym, ap, ◌∙◌, Bool, true, false, not, ◌||◌, Option, some, [],
  ◌∷◌, ◌++◌, length, take, drop, take-append, drop-append, take-append-drop, length-take,
  length-append, ltb, ◌==◌, arith, append-nil, All-append_left, Bool-cases, inl, inr,
}
use httppooler.Base.Bytes.{
  Bytes, AreBytes, to_le, from_le, from_le-to_le, to_le-from_le, from_le-lt, length-to_le,
  to_le-AreBytes,
}
use httppooler.Base.Utf8.{valid_utf8}
use httppooler.Wire.Error.{Error, What}
use httppooler.Wire.Layout.{str8_layout, str16_layout, IsStr8, IsStr16, IsName8, IsText16, IsStatus}
use httppooler.Wire.Decoder.{
  Decoder, Decoding, ◌>>=◌, read_full, read, uint, or_zero, or_nil, u8, u16, u32, u64, bytes, str8,
  str16, refuse_if, name8, text16, job, slots, status,
}
use httppooler.Wire.Decoder.Reads.{
  Reads, Then, Reads-bind, Reads-iff, pure-Reads, refuse_if-Reads, unless-Reads, skip-Reads,
}

-- `n` bytes, whatever they are.
abbrev pub Exactly : ℕ → Bytes → Bytes → Type 0
Exactly n s used = (used ≡ s) × (length s ≡ n) × AreBytes s

abbrev pub Number : ℕ → ℕ → Bytes → Type 0
Number k n used = (n < 256 ^ k) × (used ≡ to_le k n)

take_exactly :
    (n : ℕ) (s rest : Bytes) → length s ≡ n → (take n (s ++ rest) ≡ s) × (drop n (s ++ rest) ≡ rest)
take_exactly n s rest e = rw (← e) (take-append s rest, drop-append s rest)

enough : (d : Decoder) (used rest : Bytes) → d.input ≡ used ++ rest → length used ≤ length d.input
enough d used rest i = omega (arith, ap length i, length-append used rest)

abbrev Some : ℕ → Option Bytes → Bytes → Type 0
Some n o used = (o ≡ some used) × (length used ≡ n) × AreBytes used

read-Reads : (n : ℕ) → Reads (Some n) (read n)
unfolding read read_full
read-Reads n = record {
  accepts = λ d o used rest clear (e, l, b) i.
      let split = take_exactly n used rest l in
      ground (arith, enough d used rest i, i, split.0, split.1);
  sticky = λ d h. ground arith;
  sound = λ d b h.
      let fits : n ≤ length d.input = ground arith in
      record {
        value = some (take n d.input);
        used = take n d.input;
        rest = drop n d.input;
        spec = (
          refl,
          omega (arith, length-take n d.input),
          All-append_left (λ x. x < 256) (take n d.input) (drop n d.input) (rw take-append-drop b),
        );
        input = sym (take-append-drop n d.input);
        result = ground arith;
      };
}

uint-Reads : (k : ℕ) → Reads (Number k) (uint k)
unfolding uint
uint-Reads k = Reads-iff conversion (Reads-bind (read-Reads k) (λ o. pure-Reads (or_zero o)))
  where
    conversion :
        (n : ℕ) (used : Bytes)
        → Then (Some k) (λ o b u. (b ≡ or_zero o) × (u ≡ [])) n used ↔ Number k n used
    conversion n used = (
      (λ (o, u, v, (eo, l, b), (en, ev), e).
          let n_is : n ≡ from_le u = ground arith in
          let used_is : used ≡ u = ground (arith, append-nil u) in
          (rw (n_is, ← l) (from_le-lt u b), rw (used_is, n_is, ← l) (sym (to_le-from_le u b)))),
      λ (lt, e). (
        some (to_le k n),
        to_le k n,
        [],
        (refl, length-to_le k n, to_le-AreBytes k n),
        (sym (from_le-to_le k n lt), refl),
        e ∙ sym (append-nil (to_le k n)),
      ),
    )

pub u8-Reads : Reads (Number 1) u8
unfolding u8
u8-Reads = uint-Reads 1

pub u16-Reads : Reads (Number 2) u16
unfolding u16
u16-Reads = uint-Reads 2

pub u32-Reads : Reads (Number 4) u32
unfolding u32
u32-Reads = uint-Reads 4

pub u64-Reads : Reads (Number 8) u64
unfolding u64
u64-Reads = uint-Reads 8

no_bytes : (n : ℕ) (s used : Bytes) → (n == 0) ≡ true → ((s ≡ []) × (used ≡ [])) ↔ Exactly n s used
no_bytes n [] used z = ((λ (e, u). (u, ground arith, tt)), λ (u, l, b). (refl, u))
no_bytes n (x ∷ s) used z = ((λ (e, u). cc), λ (u, l, b). absurd (ground arith))

Some-bytes :
    (n : ℕ) (s used : Bytes)
    → Then (Some n) (λ o t u. (t ≡ or_nil o) × (u ≡ [])) s used ↔ Exactly n s used
Some-bytes n s used = (
  (λ (o, u, v, (eo, l, b), (es, ev), e).
      let s_is : s ≡ u = ground arith in (ground (arith, append-nil u), rw s_is l, rw s_is b)),
  λ (e, l, b). (some s, s, [], (refl, l, b), (refl, refl), e ∙ sym (append-nil s)),
)

-- A count of zero reads nothing; another reads that many bytes.
pub bytes-Reads : (n : ℕ) → Reads (Exactly n) (bytes n)
unfolding bytes
bytes-Reads n = elim (Bool-cases (n == 0)) [
  | inl z ↦ Reads-iff (λ s u. no_bytes n s u z) (skip-Reads (n == 0) [] z)
  | inr nz ↦
      Reads-iff (Some-bytes n)
        (unless-Reads (n == 0) [] nz (Reads-bind (read-Reads n) (λ o. pure-Reads (or_nil o))))
]

-- A count of `k` bytes, and that many bytes.
abbrev Counted : ℕ → Bytes → Bytes → Type 0
Counted k s used = (length s < 256 ^ k) × AreBytes s × (used ≡ to_le k (length s) ++ s)

counted : (k : ℕ) (s used : Bytes) → Then (Number k) (λ n. Exactly n) s used ↔ Counted k s used
counted k s used = (
  (λ (n, u, v, (lt, eu), (ev, l, b), e). (rw l lt, b, rw (e, eu, ev, l))),
  λ (lt, b, e). (length s, to_le k (length s), s, (lt, refl), (refl, refl, b), e),
)

abbrev pub Str8 : Bytes → Bytes → Type 0
Str8 s used = IsStr8 s × AreBytes s × (used ≡ str8_layout s)

abbrev pub Str16 : Bytes → Bytes → Type 0
Str16 s used = IsStr16 s × AreBytes s × (used ≡ str16_layout s)

pub str8-Reads : Reads Str8 str8
unfolding str8
str8-Reads =
    Reads-iff (λ s u. ((λ (l, b, e). (omega arith, b, e)), λ (l, b, e). (omega arith, b, e)))
      (Reads-iff (counted 1) (Reads-bind u8-Reads bytes-Reads))

pub str16-Reads : Reads Str16 str16
unfolding str16
str16-Reads =
    Reads-iff (λ s u. ((λ (l, b, e). (omega arith, b, e)), λ (l, b, e). (omega arith, b, e)))
      (Reads-iff (counted 2) (Reads-bind u16-Reads bytes-Reads))

-- A reader and then a test of what it read.
tested :
    {A : Type 0} (S : A → Bytes → Type 0) (bad : A → Bool) (a : A) (used : Bytes)
    → Then S (λ x b u. (bad x ≡ false) × (b ≡ x) × (u ≡ [])) a used ↔ ((bad a ≡ false) × S a used)
tested S bad a used = (
  (λ (x, u, v, s, (t, ex, ev), e). (rw ex t, rw (ex, e, ev, append-nil u) s)),
  λ (t, s). (a, used, [], s, (t, refl, refl), sym (append-nil used)),
)

tested-Reads :
    {A : Type 0} {S : A → Bytes → Type 0} {f : Decoding A} (bad : A → Bool) (e : A → Error)
    (nil : A)
    → Reads S f
    → Reads (λ a used. (bad a ≡ false) × S a used) (f >>= λ a. refuse_if (bad a) (e a) nil a)
tested-Reads {S} bad e nil r =
    Reads-iff (tested S bad) (Reads-bind r (λ a. refuse_if-Reads (bad a) (e a) nil a))

abbrev pub Name8 : Bytes → Bytes → Type 0
Name8 s used = IsName8 s × AreBytes s × (used ≡ str8_layout s)

pub name8-Reads : (what : What) → Reads Name8 (name8 what)
unfolding name8
name8-Reads what =
    Reads-iff
      (λ s u. (
        (λ (t, (l, b, e)). ((ground arith, l), b, e)),
        λ ((v, l), b, e). (ground arith, (l, b, e)),
      ))
      (tested-Reads (λ s. not (valid_utf8 s)) (λ _. Error.not_utf8 what) [] str8-Reads)

abbrev pub Text16 : Bytes → Bytes → Type 0
Text16 s used = IsText16 s × AreBytes s × (used ≡ str16_layout s)

pub text16-Reads : (what : What) → Reads Text16 (text16 what)
unfolding text16
text16-Reads what =
    Reads-iff
      (λ s u. (
        (λ (t, (l, b, e)). ((ground arith, l), b, e)),
        λ ((v, l), b, e). (ground arith, (l, b, e)),
      ))
      (tested-Reads (λ s. not (valid_utf8 s)) (λ _. Error.not_utf8 what) [] str16-Reads)

-- A number of `k` bytes in a range.
abbrev pub Ranged : (ℕ → Type 0) → ℕ → ℕ → Bytes → Type 0
Ranged P k n used = P n × Number k n used

module _ (P : ℕ → Type 0) (bad : ℕ → Bool) (agree : (n : ℕ) → (bad n ≡ false) ↔ P n) where
  Ranged-Reads :
      {f : Decoding ℕ} (k : ℕ) (e : ℕ → Error)
      → Reads (Number k) f
      → Reads (Ranged P k) (f >>= λ n. refuse_if (bad n) (e n) 0 n)
  Ranged-Reads k e r =
      Reads-iff (λ n u. ((λ (t, s). ((agree n).0 t, s)), λ (p, s). ((agree n).1 p, s)))
        (tested-Reads bad e 0 r)

pub job-Reads : Reads (Ranged (λ n. 1 ≤ n) 8) job
unfolding job
job-Reads =
    Ranged-Reads (λ n. 1 ≤ n) (λ n. n == 0) (λ n. ((λ h. ground arith), λ h. ground arith)) 8
      (λ _. Error.job_zero) u64-Reads

pub slots-Reads : Reads (Ranged (λ n. 1 ≤ n) 2) slots
unfolding slots
slots-Reads =
    Ranged-Reads (λ n. 1 ≤ n) (λ n. ltb n 1) (λ n. ((λ h. ground arith), λ h. ground arith)) 2
      (λ _. Error.no_slots) u16-Reads

pub status-Reads : Reads (Ranged IsStatus 2) status
unfolding status
status-Reads =
    Ranged-Reads IsStatus (λ s. ltb s 100 || ltb 599 s)
      (λ n. ((λ h. ground arith), λ h. ground arith)) 2 Error.bad_status u16-Reads
