-- ===== src/Wire/Decoder/Reads.antt =====
-- What it means that a reader reads exactly the byte sequences of a relation, and the rules for the
-- ways in which the decoder puts readers together.
use httppooler.Base.{
  ◌≡◌, refl, sym, ap, ◌∙◌, subst, ◌↔◌, Bool, true, false, ◌||◌, none, some, [], ◌++◌, if◌then◌else◌,
  arith, append_assoc, append-nil, All-append_right,
}
use httppooler.Base.Bytes.{Bytes, AreBytes}
use httppooler.Wire.Error.{Error}
use httppooler.Wire.Decoder.{Decoder, Decoding, pure, ◌>>=◌, fail, failed, refuse_if}

-- A successful read: it began with no error, took `used` off the input, and changed nothing else.
pub record Consumed {A : Type 0} (S : A → Bytes → Type 0) (f : Decoding A) (d : Decoder)
    : Type 0 where
  pub value : A
  pub used : Bytes
  pub rest : Bytes
  pub spec : S value used
  pub input : d.input ≡ used ++ rest
  pub result : f d ≡ (value, record d { input = rest })

-- `f` reads `a` off any input that begins with an encoding of `a`, and whatever it reads without an
-- error was an encoding of what it returns.
pub record Reads {A : Type 0} (S : A → Bytes → Type 0) (f : Decoding A) : Type 0 where
  pub accepts :
      (d : Decoder) (a : A) (used rest : Bytes)
      → d.error ≡ none
      → S a used
      → d.input ≡ used ++ rest
      → f d ≡ (a, record d { input = rest })
  pub sticky : (d : Decoder) → (f d).1.error ≡ none → d.error ≡ none
  pub sound : (d : Decoder) → AreBytes d.input → (f d).1.error ≡ none → Consumed S f d

module _ {A : Type 0} {S T : A → Bytes → Type 0} {f : Decoding A} where
  pub Reads-iff : ((a : A) (u : Bytes) → S a u ↔ T a u) → Reads S f → Reads T f
  Reads-iff e r = record {
    accepts = λ d a u rest clear t i. r.accepts d a u rest clear ((e a u).1 t) i;
    sticky = r.sticky;
    sound = λ d b h.
        let c = r.sound d b h in
        record {
          value = c.value;
          used = c.used;
          rest = c.rest;
          spec = (e c.value c.used).0 c.spec;
          input = c.input;
          result = c.result;
        };
  }

-- An encoding of `a` and then, given `a`, one of `b`.
abbrev pub Then :
    {A B : Type 0} (S : A → Bytes → Type 0) (T : A → B → Bytes → Type 0) → B → Bytes → Type 0
Then {A} S T b used = (a : A) × (u : Bytes) × (v : Bytes) × S a u × T a b v × (used ≡ u ++ v)

module _ {A B : Type 0} {S : A → Bytes → Type 0} {T : A → B → Bytes → Type 0} where
  pub Reads-bind :
      {f : Decoding A} {g : A → Decoding B}
      → Reads S f
      → ((a : A) → Reads (T a) (g a))
      → Reads (Then S T) (f >>= g)
  Reads-bind {f} {g} rf rg = record {
    accepts = λ d b used rest clear (a, u, v, s, t, e) i.
        let first : f d ≡ (a, record d { input = v ++ rest }) =
          rf.accepts d a u (v ++ rest) clear s
            (i ∙ ap (λ w. w ++ rest) e ∙ append_assoc u v rest) in
        rw first ((rg a).accepts _ b v rest clear t refl);
    sticky = λ d h. rf.sticky d ((rg (f d).0).sticky (f d).1 h);
    sound = λ d b h.
        let one = rf.sound d b (rf_clear d h) in
        let later : AreBytes one.rest =
          All-append_right _ one.used one.rest (subst AreBytes one.input b) in
        let two =
          (rg one.value).sound (record d { input = one.rest }) later
            (subst (λ (r : A × Decoder). (g r.0 r.1).1.error ≡ none) one.result h) in
        record {
          value = two.value;
          used = one.used ++ two.used;
          rest = two.rest;
          spec = (one.value, one.used, two.used, one.spec, two.spec, refl);
          input =
              one.input
              ∙ ap (λ w. one.used ++ w) two.input
              ∙ sym (append_assoc one.used two.used two.rest);
          result = rw one.result two.result;
        };
  }
    where
      rf_clear : (d : Decoder) → (g (f d).0 (f d).1).1.error ≡ none → (f d).1.error ≡ none
      rf_clear d h = (rg (f d).0).sticky (f d).1 h

pub pure-Reads : {A : Type 0} (a : A) → Reads (λ b used. (b ≡ a) × (used ≡ [])) (pure a)
pure-Reads a = record {
  accepts = λ d b used rest clear (e, n) i. ground (arith, i);
  sticky = λ d h. h;
  sound = λ d b h. record {
    value = a;
    used = [];
    rest = d.input;
    spec = (refl, refl);
    input = refl;
    result = refl;
  };
}

-- The last step of a `do` block: what was read, in a value.
abbrev pub Map : {A B : Type 0} (S : A → Bytes → Type 0) (k : A → B) → B → Bytes → Type 0
Map {A} S k b used = (a : A) × S a used × (b ≡ k a)

pub Reads-Map :
    {A B : Type 0} {S : A → Bytes → Type 0} {f : Decoding A} (k : A → B)
    → Reads S f
    → Reads (Map S k) (f >>= λ a. pure (k a))
Reads-Map {S} k r = Reads-iff conversion (Reads-bind r (λ a. pure-Reads (k a)))
  where
    conversion :
        (b : _) (used : Bytes) → Then S (λ a c u. (c ≡ k a) × (u ≡ [])) b used ↔ Map S k b used
    conversion b used = (
      (λ (a, u, v, s, (eb, ev), e). (a, rw (e, ev, append-nil u) s, eb)),
      λ (a, s, eb). (a, used, [], s, (eb, refl), sym (append-nil used)),
    )

pub refuse_if-Reads :
    {A : Type 0} (bad : Bool) (e : Error) (nil a : A)
    → Reads (λ b used. (bad ≡ false) × (b ≡ a) × (used ≡ [])) (refuse_if bad e nil a)
unfolding refuse_if fail
refuse_if-Reads bad e nil a = record {
  accepts = λ d b used rest clear (ok, e, n) i. ground (arith, i);
  sticky = λ d h. ground arith;
  sound = λ d b h. record {
    value = a;
    used = [];
    rest = d.input;
    spec = (ground arith, refl, refl);
    input = refl;
    result = ground arith;
  };
}

-- A reader behind a test of the error, as the loops have it.
pub checked-Reads :
    {A : Type 0} {S : A → Bytes → Type 0} (nil : A) {f : Decoding A}
    → Reads S f
    → Reads S (λ d. elim d.error [ some e ↦ (nil, d) | none ↦ f d ])
checked-Reads nil {f} r = record {
  accepts = λ d a used rest clear s i. ground (arith, r.accepts d a used rest clear s i);
  sticky = λ d h. ground arith;
  sound = λ d b h.
      let clear : d.error ≡ none = ground arith in
      let c = r.sound d b (ground arith) in
      record {
        value = c.value;
        used = c.used;
        rest = c.rest;
        spec = c.spec;
        input = c.input;
        result = ground (arith, c.result);
      };
}

-- A reader behind `if d.err != nil || stop { return nil }`.
pub unless-Reads :
    {A : Type 0} {S : A → Bytes → Type 0} (stop : Bool) (nil : A) {f : Decoding A}
    → stop ≡ false
    → Reads S f
    → Reads S (λ d. if failed d || stop then (nil, d) else f d)
unless-Reads stop nil {f} go r = record {
  accepts = λ d a used rest clear s i. ground (arith, r.accepts d a used rest clear s i);
  sticky = λ d h. ground arith;
  sound = λ d b h.
      let clear : d.error ≡ none = ground arith in
      let c = r.sound d b (ground arith) in
      record {
        value = c.value;
        used = c.used;
        rest = c.rest;
        spec = c.spec;
        input = c.input;
        result = ground (arith, c.result);
      };
}

pub skip-Reads :
    {A : Type 0} (stop : Bool) (nil : A) {f : Decoding A}
    → stop ≡ true
    → Reads (λ a used. (a ≡ nil) × (used ≡ [])) (λ d. if failed d || stop then (nil, d) else f d)
skip-Reads stop nil {f} halt = record {
  accepts = λ d a used rest clear (e, n) i. ground (arith, i);
  sticky = λ d h. ground arith;
  sound = λ d b h. record {
    value = nil;
    used = [];
    rest = d.input;
    spec = (refl, refl);
    input = refl;
    result = ground arith;
  };
}
