-- ===== src/Pool/Best.antt =====
-- `best`: a free provider that no other free one beats, or none where all are full.
use httppooler.Base.{
  ℕ, ◌≤◌, ◌<◌, ◌≡◌, refl, sym, subst, ◌∙◌, ◌⊎◌, inl, inr, Bool, true, false, if◌then◌else◌, Option,
  none, some, List, [], ◌∷◌, All, arith, Bool-cases, Option-cases,
}
use httppooler.Pool.Defs.{Provider, free, is_full, beats, better, best_from, best}

-- A member of a list.
abbrev pub Elem : ℕ → List ℕ → Type 0
Elem a [] = ⊥
Elem a (x ∷ xs) = (a ≡ x) ⊎ Elem a xs

pub All-Elem {ℓ} : (P : ℕ → Type ℓ) (a : ℕ) (xs : List ℕ) → All P xs → Elem a xs → P a
All-Elem P a [] h m = absurd m
All-Elem P a (x ∷ xs) (hx, h) (inl e) = rw e hx
All-Elem P a (x ∷ xs) (hx, h) (inr m) = All-Elem P a xs h m

module _ (heap : ℕ → Provider) where
  -- `b` goes before `j`, or as well as it: a smaller number, or the same and as much room.
  abbrev pub Leads : ℕ → ℕ → Type 0
  Leads b j =
      ((heap b).priority < (heap j).priority)
      ⊎ (((heap b).priority ≡ (heap j).priority) × (free (heap j) ≤ free (heap b)))

  abbrev pub Stands : ℕ → ℕ → Type 0
  Stands b j = (is_full (heap j) ≡ true) ⊎ Leads b j

  Leads-trans : (a b c : ℕ) → Leads a b → Leads b c → Leads a c
  Leads-trans a b c p q = ground arith

  Stands-trans : (a b : ℕ) (js : List ℕ) → Leads a b → All (Stands b) js → All (Stands a) js
  Stands-trans a b [] h all = tt
  Stands-trans a b (j ∷ js) h (inl full, all) = (inl full, Stands-trans a b js h all)
  Stands-trans a b (j ∷ js) h (inr q, all) =
      (inr (Leads-trans a b j h q), Stands-trans a b js h all)

  beats→Leads : (i b : ℕ) → beats (heap i) (heap b) ≡ true → Leads i b
  beats→Leads i b h = ground arith

  not_beats→Leads : (i b : ℕ) → beats (heap i) (heap b) ≡ false → Leads b i
  not_beats→Leads i b h = ground arith

  Leads-refl : (b : ℕ) → Leads b b
  Leads-refl b = inr (refl, omega arith)

  -- One round of the loop with a provider at hand.
  better-some :
      (b i : ℕ)
      → is_full (heap b) ≡ false
      → (c : ℕ) × (better heap (some b) i ≡ some c)
        × ((c ≡ b) ⊎ (c ≡ i))
        × (is_full (heap c) ≡ false)
        × Leads c b
        × Stands c i
  unfolding better
  better-some b i h = elim (Bool-cases (is_full (heap i))) [
    | inl full ↦ (b, rw (full, better), inl refl, h, Leads-refl b, inl full)
    | inr room ↦ elim (Bool-cases (beats (heap i) (heap b))) [
      | inl wins ↦
          (i, rw (room, wins, better), inr refl, room, beats→Leads i b wins, inr (Leads-refl i))
      | inr loses ↦
          (b, rw (room, loses, better), inl refl, h, Leads-refl b, inr (not_beats→Leads i b loses))
    ]
  ]

  origin :
      (r c b i : ℕ) (is : List ℕ)
      → (r ≡ c) ⊎ Elem r is
      → (c ≡ b) ⊎ (c ≡ i)
      → (r ≡ b) ⊎ Elem r (i ∷ is)
  origin r c b i is (inl e) (inl f) = inl (e ∙ f)
  origin r c b i is (inl e) (inr f) = inr (inl (e ∙ f))
  origin r c b i is (inr m) f = inr (inr m)

  abbrev pub IsBest : ℕ → List ℕ → Type 0
  IsBest c js = Elem c js × (is_full (heap c) ≡ false) × All (Stands c) js

  from_some :
      (b : ℕ) (is : List ℕ)
      → is_full (heap b) ≡ false
      → (c : ℕ) × (best_from heap (some b) is ≡ some c)
        × ((c ≡ b) ⊎ Elem c is)
        × (is_full (heap c) ≡ false)
        × Leads c b
        × All (Stands c) is
  unfolding best_from
  from_some b [] h = (b, refl, inl refl, h, inr (refl, omega arith), tt)
  from_some b (i ∷ is) h =
      let (c, e, from, room, lead, stand) = better-some b i h in
      let (r, e', from', room', lead', all) = from_some c is room in
      (
        r,
        rw e e',
        origin r c b i is from' from,
        room',
        Leads-trans r c b lead' lead,
        ((Stands-trans r c (i ∷ []) lead' (stand, tt)).0, all),
      )

  -- What `best` promises of the providers `js`, by what it returns.
  abbrev pub Outcome : List ℕ → Option ℕ → Type 0
  Outcome js none = All (λ j. is_full (heap j) ≡ true) js
  Outcome js (some c) = IsBest c js

  widen :
      (j : ℕ) (js : List ℕ) (r : Option ℕ)
      → is_full (heap j) ≡ true
      → Outcome js r
      → Outcome (j ∷ js) r
  widen j js none full all = (full, all)
  widen j js (some c) full (m, room, all) = (inr m, room, (inl full, all))

  best_full : (j : ℕ) (js : List ℕ) → is_full (heap j) ≡ true → best heap (j ∷ js) ≡ best heap js
  unfolding best best_from better
  best_full j js full = rw full

  best_room :
      (j : ℕ) (js : List ℕ)
      → is_full (heap j) ≡ false
      → best heap (j ∷ js) ≡ best_from heap (some j) js
  unfolding best best_from better
  best_room j js room = rw room

  -- `best` returns a member with a free slot that no free member beats, by the priority number and
  -- then by the slots that are open; and it returns nil only where every member is full or gone.
  pub best_optimal : (js : List ℕ) → Outcome js (best heap js)
  unfolding best best_from
  best_optimal [] = tt
  best_optimal (j ∷ js) = elim (Bool-cases (is_full (heap j))) [
    | inl full ↦
        subst (Outcome (j ∷ js)) (sym (best_full j js full)) (widen j js _ full (best_optimal js))
    | inr room ↦
        let (c, e, from, free_c, lead, all) = from_some j js room in
        let chosen : best heap (j ∷ js) ≡ some c = best_room j js room ∙ e in
        subst (Outcome (j ∷ js)) (sym chosen) (from, free_c, (inr lead, all))
  ]

  -- What a returned provider is.
  pub best-some : (js : List ℕ) (c : ℕ) → best heap js ≡ some c → IsBest c js
  best-some js c e = subst (Outcome js) e (best_optimal js)

module _ (heap : ℕ → Provider) where
  pub best-none : (js : List ℕ) → best heap js ≡ none → All (λ j. is_full (heap j) ≡ true) js
  best-none js e = subst (Outcome heap js) e (best_optimal heap js)

  pub All-full-best : (js : List ℕ) → All (λ j. is_full (heap j) ≡ true) js → best heap js ≡ none
  All-full-best js full = elim (Option-cases (best heap js)) [
    | inl e ↦ e
    | inr (c, e) ↦
        let (member, room, all) = best-some heap js c e in
        cc (room, All-Elem (λ j. is_full (heap j) ≡ true) c js full member)
  ]

module _ (heap heap' : ℕ → Provider) where
  abbrev SameAt : Option ℕ → Type 0
  SameAt none = Unit
  SameAt (some b) = heap' b ≡ heap b

  SameAt-if : (t : Bool) (x y : Option ℕ) → SameAt x → SameAt y → SameAt (if t then x else y)
  SameAt-if true x y hx hy = hx
  SameAt-if false x y hx hy = hy

  better-SameAt :
      (acc : Option ℕ) (i : ℕ)
      → SameAt acc
      → heap' i ≡ heap i
      → (better heap' acc i ≡ better heap acc i) × SameAt (better heap acc i)
  unfolding better
  better-SameAt none i a e = (rw e, SameAt-if (is_full (heap i)) none (some i) tt e)
  better-SameAt (some b) i a e = (
    rw (e, a),
    SameAt-if (is_full (heap i)) (some b) _ a
        (SameAt-if (beats (heap i) (heap b)) (some i) (some b) e a),
  )

  from_local :
      (acc : Option ℕ) (js : List ℕ)
      → SameAt acc
      → All (λ j. heap' j ≡ heap j) js
      → best_from heap' acc js ≡ best_from heap acc js
  unfolding best_from
  from_local acc [] a h = refl
  from_local acc (j ∷ js) a (e, h) =
      let (same, a') = better-SameAt acc j a e in rw same (from_local (better heap acc j) js a' h)

  -- `best` reads only the members.
  pub best_local : (js : List ℕ) → All (λ j. heap' j ≡ heap j) js → best heap' js ≡ best heap js
  unfolding best
  best_local js h = from_local none js tt h
