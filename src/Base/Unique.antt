-- ===== src/Base/Unique.antt =====
-- Lists of names without repetition.
use httppooler.Base.Bytes.{Bytes}
use mathlib.Core.Path.{◌≡◌, refl, sym}
use mathlib.Core.Logic.{◌⊎◌, inl, inr}
use mathlib.Core.List.{List, [], ◌∷◌, ◌++◌}

abbrev pub Among : Bytes → List Bytes → Type 0
Among k [] = ⊥
Among k (x ∷ xs) = (k ≡ x) ⊎ Among k xs

abbrev pub Unique : List Bytes → Type 0
Unique [] = Unit
Unique (x ∷ xs) = (¬ Among x xs) × Unique xs

pub Among-append : (k : Bytes) (xs ys : List Bytes) → Among k (xs ++ ys) → Among k xs ⊎ Among k ys
Among-append k [] ys a = inr a
Among-append k (x ∷ xs) ys (inl e) = inl (inl e)
Among-append k (x ∷ xs) ys (inr a) = elim (Among-append k xs ys a) [
  | inl l ↦ inl (inr l)
  | inr r ↦ inr r
]

pub Among-front : (k : Bytes) (xs ys : List Bytes) → Among k xs → Among k (xs ++ ys)
Among-front k [] ys a = absurd a
Among-front k (x ∷ xs) ys (inl e) = inl e
Among-front k (x ∷ xs) ys (inr a) = inr (Among-front k xs ys a)

pub Among-last : (k : Bytes) (xs : List Bytes) → Among k (xs ++ k ∷ [])
Among-last k [] = inl refl
Among-last k (x ∷ xs) = inr (Among-last k xs)

pub Unique-last : (k : Bytes) (xs : List Bytes) → Unique xs → ¬ Among k xs → Unique (xs ++ k ∷ [])
Unique-last k [] u n = ((λ a. a), tt)
Unique-last k (x ∷ xs) (fresh, u) n = (
  λ a. elim (Among-append x xs (k ∷ []) a) [
    | inl l ↦ fresh l
    | inr (inl e) ↦ n (inl (sym e))
    | inr (inr e) ↦ e
  ],
  Unique-last k xs u (λ a. n (inr a)),
)
