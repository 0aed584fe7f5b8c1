-- ===== src/Conf/Values/Bounds.antt =====
-- What the values hold that the keys are given.
use httppooler.Base.{
  ℕ, ◌*◌, ◌≤◌, ◌<◌, ◌≡◌, refl, Bool, true, false, not, ◌&&◌, ◌||◌, Option, none, some, [], ◌∷◌,
  length, leb, ltb, ◌==◌, if◌then◌else◌, arith, subst,
}
use httppooler.Base.Bytes.{Bytes}
use httppooler.Base.Utf8.{valid_utf8}
use httppooler.Conf.Parse.{Value, is_empty}
use httppooler.Conf.Parse.Gives.{Gives, guard-Gives, option-Gives}
use httppooler.Conf.Values.{
  split_host_port, atoi, is_port, decimal, parse_uint16, hex_digit, decode_string, address, secret,
  Duration, duration, number, name,
}

pub record IsName (s : Bytes) : Type 0 where
  pub full : is_empty s ≡ false
  pub short : length s ≤ 255
  pub utf8 : valid_utf8 s ≡ true

pub record IsAddress (need_host : Bool) (a : Bytes) : Type 0 where
  pub parts : Bytes × Bytes
  pub split : split_host_port a ≡ some parts
  pub port : is_port (atoi parts.1) ≡ true
  pub host : (need_host && is_empty parts.0) ≡ false

was_true : (b : Bool) → not b ≡ false → b ≡ true
was_true true e = refl
was_true false e = absurd (ground arith)

pub neither : (a b : Bool) → (a || b) ≡ false → (a ≡ false) × (b ≡ false)
neither true b e = absurd (ground arith)
neither false b e = (refl, e)

not_above : (n m : ℕ) → ltb n m ≡ false → m ≤ n
not_above n m e = ground arith

pub name-IsName : (s : Bytes) (line : ℕ) → Gives (λ n. (n ≡ s) × IsName s) (name s line)
unfolding name
name-IsName s line = guard-Gives _ (is_empty s) _ _ (λ f.
    guard-Gives _ (ltb 255 (length s)) _ _ (λ l. guard-Gives _ (not (valid_utf8 s)) _ _ (λ u. (
      refl,
      record { full = f; short = not_above 255 (length s) l; utf8 = was_true (valid_utf8 s) u },
    ))))

pub address-IsAddress :
    (v : Value) (need_host : Bool) → Gives (IsAddress need_host) (address v need_host)
unfolding address
address-IsAddress v need_host =
    option-Gives _ (split_host_port v.text) _ _ (λ e. tt)
      (λ p e. guard-Gives _ (not (is_port (atoi p.1))) _ _ (λ o.
        guard-Gives _ (need_host && is_empty p.0) _ _
          (λ h. record { parts = p; split = e; port = was_true _ o; host = h })))

abbrev Yields : {A : Type 0} → (A → Type 0) → Option A → Type 0
Yields P none = Unit
Yields P (some a) = P a

option-Yields :
    {X A : Type 0} (Q : X → Type 0) (P : A → Type 0) (o : Option X) (f : X → Option A)
    → Yields Q o
    → ((x : X) → Q x → Yields P (f x))
    → Yields P (elim o [ none ↦ none | some x ↦ f x ])
option-Yields Q P none f q h = tt
option-Yields Q P (some x) f q h = h x q

whatever : {A : Type 0} (o : Option A) → Yields (λ a. Unit) o
whatever none = tt
whatever (some a) = tt

abbrev Halves : Bytes → Bytes → Type 0
Halves s bytes = length s ≡ 2 * length bytes

decode_string-Halves : (s : Bytes) → Yields (Halves s) (decode_string s)
unfolding decode_string
decode_string-Halves [] = refl
decode_string-Halves (a ∷ []) = tt
decode_string-Halves (a ∷ b ∷ s) =
    option-Yields (λ x. Unit) _ (hex_digit a) _ (whatever _)
      (λ h u.
        option-Yields (λ x. Unit) _ (hex_digit b) _ (whatever _)
          (λ l w.
            option-Yields (Halves s) _ (decode_string s) _ (decode_string-Halves s)
              (λ bytes e. omega (arith, e))))

yielded : {A : Type 0} (P : A → Type 0) (o : Option A) (a : A) → Yields P o → o ≡ some a → P a
yielded P none a y e = absurd (ground arith)
yielded P (some b) a y e = subst P (ground arith) y

equal_sizes : (a b : ℕ) → not (a == b) ≡ false → a ≡ b
equal_sizes a b e = ground arith

pub secret_length : (v : Value) → Gives (λ key. length key ≡ 32) (secret v)
unfolding secret
secret_length v = guard-Gives _ (not (length v.text == 64)) _ _ (λ e.
    option-Gives _ (decode_string v.text) _ _ (λ f. tt)
      (λ key f.
        let size = equal_sizes (length v.text) 64 e in
        let half =
          yielded (Halves v.text) (decode_string v.text) key (decode_string-Halves v.text) f in
        omega (arith, size, half)))

some_nanos : (n : ℕ) → (n == 0) ≡ false → 0 < n
some_nanos n e = ground arith

pub duration_positive :
    (parse_duration : Bytes → Option Duration) (v : Value)
    → Gives (λ n. 0 < n) (duration parse_duration v)
unfolding duration
duration_positive parse_duration v =
    option-Gives _ (parse_duration v.text) _ _ (λ e. tt)
      (λ d e.
        guard-Gives _ (d.negative || d.nanos == 0) _ _
          (λ z. some_nanos d.nanos (neither d.negative (d.nanos == 0) z).1))

if-Yields :
    {A : Type 0} (P : A → Type 0) (b : Bool) (a : A)
    → (b ≡ true → P a)
    → Yields P (if b then some a else none)
if-Yields P true a h = h refl
if-Yields P false a h = tt

pub leb_le : (n m : ℕ) → leb n m ≡ true → n ≤ m
leb_le n m e = ground arith

parse_uint16_bound : (s : Bytes) → Yields (λ n. n ≤ 65535) (parse_uint16 s)
unfolding parse_uint16
parse_uint16_bound s =
    option-Yields (λ x. Unit) _ (decimal s) _ (whatever _)
      (λ n u. if-Yields _ (leb n 65535) n (leb_le n 65535))

pub number_bounds : (v : Value) (low : ℕ) → Gives (λ n. (low ≤ n) × (n ≤ 65535)) (number v low)
unfolding number
number_bounds v low =
    option-Gives _ (parse_uint16 v.text) _ _ (λ e. tt)
      (λ n e.
        guard-Gives _ (ltb n low) _ _ (λ l.
          (not_above n low l, yielded _ (parse_uint16 v.text) n (parse_uint16_bound v.text) e)))
