-- ===== src/Pool/Snapshot/Order.antt =====
-- The services of a snapshot, and their order.
use httppooler.Base.{
  ◌≡◌, ◌≢◌, ◌↔◌, inl, inr, refl, sym, ap, subst, Bool, true, false, none, some, List, [], ◌∷◌, map,
  if◌then◌else◌, arith,
}
use httppooler.Base.Bytes.{Bytes}
use httppooler.Base.Map.{get, bytes_eq, bytes_eq_iff}
use httppooler.Base.Unique.{Among}
use httppooler.Pool.Defs.{Service, Pool}
use httppooler.Pool.Snapshot.{less, insert, sort_strings, service_state, snapshot}

-- No name comes before the one in front of it.
abbrev pub IsSorted : List Bytes → Type 0
IsSorted [] = Unit
IsSorted (x ∷ []) = Unit
IsSorted (x ∷ y ∷ ys) = (less y x ≡ false) × IsSorted (y ∷ ys)

less_asym : (s t : Bytes) → less s t ≡ true → less t s ≡ false
unfolding less
less_asym s [] h = absurd (ground arith)
less_asym [] (y ∷ t) h = refl
less_asym (x ∷ s) (y ∷ t) h = ground (arith, less_asym s t)

choose :
    {A : Type 0} (P : A → Type 0) (b : Bool) (x y : A)
    → (b ≡ true → P x)
    → (b ≡ false → P y)
    → P (if b then x else y)
choose P true x y f g = f refl
choose P false x y f g = g refl

-- A name that is inserted behind `y` stands behind it.
insert-IsSorted_behind :
    (k y : Bytes) (xs : List Bytes)
    → less k y ≡ false
    → IsSorted (y ∷ xs)
    → IsSorted (y ∷ insert k xs)
unfolding insert
insert-IsSorted_behind k y [] h s = (h, tt)
insert-IsSorted_behind k y (x ∷ xs) h s =
    choose (λ zs. IsSorted (y ∷ zs)) (less k x) (k ∷ x ∷ xs) (x ∷ insert k xs)
      (λ e. (h, (less_asym k x e, s.1))) (λ e. (s.0, insert-IsSorted_behind k x xs e s.1))

insert-IsSorted : (k : Bytes) (xs : List Bytes) → IsSorted xs → IsSorted (insert k xs)
unfolding insert
insert-IsSorted k [] s = tt
insert-IsSorted k (x ∷ xs) s =
    choose IsSorted (less k x) (k ∷ x ∷ xs) (x ∷ insert k xs) (λ e. (less_asym k x e, s))
      (λ e. insert-IsSorted_behind k x xs e s)

sort_strings-IsSorted : (xs : List Bytes) → IsSorted (sort_strings xs)
unfolding sort_strings
sort_strings-IsSorted [] = tt
sort_strings-IsSorted (x ∷ xs) = insert-IsSorted x (sort_strings xs) (sort_strings-IsSorted xs)

insert-Among : (j k : Bytes) (xs : List Bytes) → Among j (insert k xs) ↔ Among j (k ∷ xs)
unfolding insert
insert-Among j k [] = ((λ a. a), (λ a. a))
insert-Among j k (x ∷ xs) =
    choose (λ zs. Among j zs ↔ Among j (k ∷ x ∷ xs)) (less k x) (k ∷ x ∷ xs) (x ∷ insert k xs)
      (λ e. ((λ a. a), (λ a. a)))
      (λ e.
        let (to, from) = insert-Among j k xs in
        (
          (λ a. elim a [
            | inl h ↦ inr (inl h)
            | inr t ↦ elim (to t) [ inl h ↦ inl h | inr r ↦ inr (inr r) ]
          ]),
          (λ a. elim a [
            | inl h ↦ inr (from (inl h))
            | inr t ↦ elim t [ inl h ↦ inl h | inr r ↦ inr (from (inr r)) ]
          ]),
        ))

sort_strings-Among : (j : Bytes) (xs : List Bytes) → Among j (sort_strings xs) ↔ Among j xs
unfolding sort_strings
sort_strings-Among j [] = ((λ a. a), (λ a. a))
sort_strings-Among j (x ∷ xs) =
    let (to, from) = insert-Among j x (sort_strings xs) in
    let (to2, from2) = sort_strings-Among j xs in
    (
      (λ a. elim (to a) [ inl h ↦ inl h | inr t ↦ inr (to2 t) ]),
      (λ a. elim a [ inl h ↦ from (inl h) | inr t ↦ from (inr (from2 t)) ]),
    )

names_of : (xs : List Bytes) (p : Pool) → map (λ s. s.name) (map (service_state p) xs) ≡ xs
unfolding service_state
names_of [] p = refl
names_of (x ∷ xs) p = ap (λ t. x ∷ t) (names_of xs p)

some_service : (v : Service) → some v ≢ none
some_service v e = ground arith

-- The services of the map have their names among its keys.
get-Among : (k : Bytes) (m : List (Bytes × Service)) → (get k m ≢ none) ↔ Among k (map (λ s. s.0) m)
unfolding get
get-Among k [] = ((λ n. n refl), λ a. absurd a)
get-Among k ((j, v) ∷ m) =
    let (to, from) = get-Among k m in
    choose (λ o. (o ≢ none) ↔ Among k (j ∷ map (λ s. s.0) m)) (bytes_eq j k) (some v) (get k m)
      (λ e. ((λ n. inl (sym ((bytes_eq_iff j k).0 e))), (λ a n. some_service v n)))
      (λ e. (
        (λ n. inr (to n)),
        (λ a. elim a [ inl h ↦ absurd (cc (e, (bytes_eq_iff j k).1 (sym h))) | inr t ↦ from t ]),
      ))

-- A snapshot has the names of just the services that the pool has, in the order of their names.
pub snapshot_names :
    (p : Pool)
    → let names = map (λ s. s.name) (snapshot p) in
      IsSorted names × ((name : Bytes) → Among name names ↔ (get name p.services ≢ none))
unfolding snapshot
snapshot_names p =
    let keys = map (λ s. s.0) p.services in
    subst
      (λ names. IsSorted names × ((name : Bytes) → Among name names ↔ (get name p.services ≢ none)))
      (sym (names_of (sort_strings keys) p))
      (
        sort_strings-IsSorted keys,
        λ name.
            let (to, from) = sort_strings-Among name keys in
            let (to2, from2) = get-Among name p.services in
            ((λ a. from2 (to a)), (λ n. from (to2 n))),
      )
