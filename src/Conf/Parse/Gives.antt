-- ===== src/Conf/Parse/Gives.antt =====
-- What holds of a value that the parser gives, through its tests and its chains.
use httppooler.Base.{◌≡◌, refl, Bool, true, false, Option, none, some, if◌then◌else◌}
use httppooler.Conf.Parse.{Parsed, ConfError, and_then}

-- What a value of `Parsed` gives, if it is no refusal.
abbrev pub Gives : {A : Type 0} → (A → Type 0) → Parsed A → Type 0
Gives P (Parsed.parsed a) = P a
Gives P (Parsed.refused e) = Unit

pub and_then-Gives :
    {A B : Type 0} (P : A → Type 0) (Q : B → Type 0) (t : Parsed A) (f : A → Parsed B)
    → Gives P t
    → ((a : A) → P a → Gives Q (f a))
    → Gives Q (and_then t f)
and_then-Gives P Q (Parsed.parsed a) f p h = h a p
and_then-Gives P Q (Parsed.refused e) f p h = tt

pub guard-Gives :
    {A : Type 0} (P : A → Type 0) (b : Bool) (e : ConfError) (t : Parsed A)
    → (b ≡ false → Gives P t)
    → Gives P (if b then Parsed.refused e else t)
guard-Gives P true e t h = tt
guard-Gives P false e t h = h refl

pub option-Gives :
    {X A : Type 0} (P : A → Type 0) (o : Option X) (t : Parsed A) (f : X → Parsed A)
    → (o ≡ none → Gives P t)
    → ((x : X) → o ≡ some x → Gives P (f x))
    → Gives P (elim o [ none ↦ t | some x ↦ f x ])
option-Gives P none t f n h = n refl
option-Gives P (some x) t f n h = h x refl

pub either-Gives :
    {A : Type 0} (P : A → Type 0) (b : Bool) (t u : Parsed A)
    → Gives P t
    → (b ≡ false → Gives P u)
    → Gives P (if b then t else u)
either-Gives P true t u p h = p
either-Gives P false t u p h = h refl

pub anything : {A : Type 0} (t : Parsed A) → Gives (λ a. Unit) t
anything (Parsed.parsed a) = tt
anything (Parsed.refused e) = tt

pub imp-Gives :
    {A : Type 0} (P Q : A → Type 0) (t : Parsed A) → Gives P t → ((a : A) → P a → Q a) → Gives Q t
imp-Gives P Q (Parsed.parsed a) p h = h a p
imp-Gives P Q (Parsed.refused e) p h = tt
