-- ===== src/Wire/Encode/Fields.antt =====
-- Each field of the builder writes its layout, or refuses, exactly by the field's range.
use httppooler.Base.{
  ℕ, ◌≤◌, ◌≡◌, refl, ◌≢◌, ◌↔◌, ◌||◌, ◌∙◌, ap, sym, Bool, true, false, not, none, List, [], ◌∷◌,
  ◌++◌, length, ltb, ◌==◌, if◌then◌else◌, arith, append_assoc, append-nil, All,
}
use httppooler.Base.Bytes.{Bytes, to_le}
use httppooler.Base.Utf8.{valid_utf8}
use httppooler.Wire.Message.{Header, ProviderInfo}
use httppooler.Wire.Error.{Error, What}
use httppooler.Wire.Layout.{
  str8_layout, str16_layout, header_layout, provider_layout, each_layout, headers_layout, IsStr8,
  IsStr16, IsName8, IsText16, IsHeader, AreHeaders, IsProvider, IsChunk, IsStatus,
}
use httppooler.Wire.Build.{
  Builder, Build, ◌▷◌, append, fail, u16, str8, str16, name8, text16, job, slots, status, count8,
  chunk, headers, each_header, each_provider,
}

-- `f` refuses unless `P` holds, and then it appends `out`; a refusal before it stays.
pub record Writes (P : Type 0) (out : Bytes) (f : Build) : Type 0 where
  pub accepts : (b : Builder) → b.error ≡ none → P → f b ≡ append out b
  pub refuses : (b : Builder) → (f b).error ≡ none → (b.error ≡ none) × P

module _ {P Q : Type 0} {out out' : Bytes} {f g : Build} where
  pub Writes-then : Writes P out f → Writes Q out' g → Writes (P × Q) (out ++ out') (f ▷ g)
  Writes-then wf wg = record {
    accepts = λ b clear (p, q). rw (wf.accepts b clear p) (
        wg.accepts (append out b) clear q
        ∙ ap (λ t. record b { buf = t }) (append_assoc b.buf out out'));
    refuses = λ b h.
        let (clear, q) = wg.refuses (f b) h in
        let (first, p) = wf.refuses b clear in (first, (p, q));
  }

-- Appending never refuses.
append-Writes : (out : Bytes) → Writes Unit out (append out)
append-Writes out = record { accepts = λ b clear _. refl; refuses = λ b h. (h, tt) }

fail-error : (e : Error) (b : Builder) → (fail e b).error ≢ none
unfolding fail
fail-error e b h = ground arith

-- A guarded field: the test refuses exactly outside `P`.
Writes-guard :
    {P Q : Type 0} {out : Bytes} {f : Build} (test : Bool) (e : Error)
    → (test ≡ true → ¬ P)
    → (test ≡ false → P)
    → Writes Q out f
    → Writes (P × Q) out (if test then fail e else f)
Writes-guard true e bad good w = record {
  accepts = λ b clear (p, q). absurd (bad refl p);
  refuses = λ b h. absurd (fail-error e b h);
}
Writes-guard false e bad good w = record {
  accepts = λ b clear (p, q). w.accepts b clear q;
  refuses = λ b h. let (clear, q) = w.refuses b h in (clear, (good refl, q));
}

Writes-iff : {P Q : Type 0} {out : Bytes} {f : Build} → P ↔ Q → Writes P out f → Writes Q out f
Writes-iff e w = record {
  accepts = λ b clear q. w.accepts b clear (e.1 q);
  refuses = λ b h. let (clear, p) = w.refuses b h in (clear, e.0 p);
}

-- A range alone, in front of bytes that are always written.
guarded : {P : Type 0} {out : Bytes} {f : Build} → Writes (P × Unit {0}) out f → Writes P out f
guarded = Writes-iff ((λ (p, _). p), λ p. (p, tt))

counted : (k n : ℕ) (s : Bytes) → Writes Unit (to_le k n ++ s) (append (to_le k n) ▷ append s)
counted k n s =
    Writes-iff ((λ _. tt), λ _. (tt, tt))
      (Writes-then (append-Writes (to_le k n)) (append-Writes s))

pub str8-Writes : (what : What) (s : Bytes) → Writes (IsStr8 s) (str8_layout s) (str8 what s)
unfolding str8
str8-Writes what s = guarded (
    Writes-guard (ltb 255 (length s)) _ (λ h p. ground arith) (λ h. ground arith)
      (counted 1 (length s) s))

pub str16-Writes : (what : What) (s : Bytes) → Writes (IsStr16 s) (str16_layout s) (str16 what s)
unfolding str16
str16-Writes what s = guarded (
    Writes-guard (ltb 65535 (length s)) _ (λ h p. ground arith) (λ h. ground arith)
      (counted 2 (length s) s))

pub name8-Writes : (what : What) (s : Bytes) → Writes (IsName8 s) (str8_layout s) (name8 what s)
unfolding name8
name8-Writes what s =
    Writes-guard (not (valid_utf8 s)) _ (λ h p. ground arith) (λ h. ground arith)
      (str8-Writes what s)

pub text16-Writes : (what : What) (s : Bytes) → Writes (IsText16 s) (str16_layout s) (text16 what s)
unfolding text16
text16-Writes what s =
    Writes-guard (not (valid_utf8 s)) _ (λ h p. ground arith) (λ h. ground arith)
      (str16-Writes what s)

pub u16-Writes : (n : ℕ) → Writes Unit (to_le 2 n) (u16 n)
unfolding u16
u16-Writes n = append-Writes (to_le 2 n)

pub job-Writes : (id : ℕ) → Writes (1 ≤ id) (to_le 8 id) (job id)
unfolding job
job-Writes id = guarded (
    Writes-guard (id == 0) _ (λ h p. ground arith) (λ h. ground arith) (append-Writes (to_le 8 id)))

pub slots-Writes : (n : ℕ) → Writes (1 ≤ n) (to_le 2 n) (slots n)
unfolding slots
slots-Writes n =
    guarded (
      Writes-guard (ltb n 1) _ (λ h p. ground arith) (λ h. ground arith)
        (append-Writes (to_le 2 n)))

pub status-Writes : (s : ℕ) → Writes (IsStatus s) (to_le 2 s) (status s)
unfolding status
status-Writes s = guarded (
    Writes-guard (ltb s 100 || ltb 599 s) _ (λ h p. ground arith) (λ h. ground arith)
      (append-Writes (to_le 2 s)))

pub count8-Writes : (what : What) (n : ℕ) → Writes (n ≤ 255) (to_le 1 n) (count8 what n)
unfolding count8
count8-Writes what n = guarded (
    Writes-guard (ltb 255 n) _ (λ h p. ground arith) (λ h. ground arith)
      (append-Writes (to_le 1 n)))

pub chunk-Writes : (p : Bytes) → Writes (IsChunk p) (to_le 4 (length p) ++ p) (chunk p)
unfolding chunk
chunk-Writes p =
    Writes-guard (ltb (length p) 1) _ (λ h q. ground arith) (λ h. ground arith)
      (guarded (
        Writes-guard (ltb 4294967295 (length p)) _ (λ h q. ground arith) (λ h. ground arith)
          (counted 4 (length p) p)))

pub nothing-Writes : Writes Unit [] (λ b. b)
nothing-Writes = record {
  accepts = λ b clear _. ap (λ t. record b { buf = t }) (sym (append-nil b.buf));
  refuses = λ b h. (h, tt);
}

each_header-Writes :
    (hs : List Header) → Writes (All IsHeader hs) (each_layout header_layout hs) (each_header hs)
unfolding each_header
each_header-Writes [] = nothing-Writes
each_header-Writes (h ∷ hs) =
    Writes-then
      (Writes-then (str8-Writes What.header_name h.name) (str16-Writes What.header_value h.value))
      (each_header-Writes hs)

pub headers-Writes : (hs : List Header) → Writes (AreHeaders hs) (headers_layout hs) (headers hs)
unfolding headers
headers-Writes hs =
    Writes-guard (ltb 65535 (length hs)) _ (λ h q. ground arith) (λ h. ground arith)
      (Writes-iff ((λ (_, p). p), λ p. (tt, p))
        (Writes-then (append-Writes (to_le 2 (length hs))) (each_header-Writes hs)))

pub each_provider-Writes :
    (ps : List ProviderInfo)
    → Writes (All IsProvider ps) (each_layout provider_layout ps) (each_provider ps)
unfolding each_provider
each_provider-Writes [] = nothing-Writes
each_provider-Writes (p ∷ ps) =
    Writes-then
      (Writes-iff ((λ (n, (s, _)). (n, s)), λ (n, s). (n, (s, tt)))
        (Writes-then (name8-Writes What.service p.service)
          (Writes-then (slots-Writes p.max_concurrent) (u16-Writes p.priority))))
      (each_provider-Writes ps)
