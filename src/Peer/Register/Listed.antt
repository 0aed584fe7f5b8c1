-- ===== src/Peer/Register/Listed.antt =====
-- The providers of a peer in the pool.
use httppooler.Base.{
  ℕ, suc, ◌≡◌, inl, inr, refl, sym, ap, ◌∙◌, subst, Bool, true, false, Option, none, some, List, [],
  ◌∷◌, ◌++◌, Bool-cases, arith, if◌then◌else◌,
}
use httppooler.Base.Bytes.{Bytes}
use httppooler.Base.Map.{get, put, get-put, bytes_eq, bytes_eq_iff, bytes_eq_refl}
use httppooler.Wire.Message.{ProviderInfo}
use httppooler.Pool.Defs.{Pool, Service, service, or_new, dispatch, add}
use httppooler.Pool.Best.{Elem}
use httppooler.Peer.Register.{Registered, new_provider, register_each, register, handle}

-- The provider object `n` is one of the service's.
abbrev pub IsListed : ℕ → Bytes → Pool → Type 0
IsListed n name p = Elem n (service p name).providers

Elem-front : (n : ℕ) (xs ys : List ℕ) → Elem n xs → Elem n (xs ++ ys)
Elem-front n [] ys x = absurd x
Elem-front n (x ∷ xs) ys (inl e) = inl e
Elem-front n (x ∷ xs) ys (inr e) = inr (Elem-front n xs ys e)

Elem-last : (n : ℕ) (xs : List ℕ) → Elem n (xs ++ n ∷ [])
Elem-last n [] = inl refl
Elem-last n (x ∷ xs) = inr (Elem-last n xs)

get-put_same : (k : Bytes) (v : Service) (m : List (Bytes × Service)) → get k (put k v m) ≡ some v
get-put_same k v m = get-put k k v m ∙ if_true (bytes_eq k k) (bytes_eq_refl k)
  where
    if_true : (b : Bool) → b ≡ true → (if b then some v else get k m) ≡ some v
    if_true true e = refl
    if_true false e = absurd (ground arith)

get-put_other :
    (k j : Bytes) (v : Service) (m : List (Bytes × Service))
    → bytes_eq k j ≡ false
    → get j (put k v m) ≡ get j m
get-put_other k j v m ne = get-put k j v m ∙ if_false (bytes_eq k j) ne
  where
    if_false : (b : Bool) → b ≡ false → (if b then some v else get j m) ≡ get j m
    if_false false e = refl
    if_false true e = absurd (ground arith)

dispatch-providers :
    (name : Bytes) (s : Service) (p : Pool)
    → (service (dispatch name s p) name).providers ≡ s.providers
unfolding dispatch service
dispatch-providers name s p = ap (λ o. (or_new o).providers) (get-put_same name _ p.services)

dispatch_other :
    (name other : Bytes) (s : Service) (p : Pool)
    → bytes_eq name other ≡ false
    → service (dispatch name s p) other ≡ service p other
unfolding dispatch service
dispatch_other name other s p ne = ap or_new (get-put_other name other _ p.services ne)

-- The provider object that `add` puts in its pool.
added :
    (n : ℕ) (name : Bytes) (p : Pool)
    → (p.store.provider n).service ≡ name
    → (service (add n p) name).providers ≡ (service p name).providers ++ n ∷ []
unfolding add
added n name p e =
    subst (λ t. (service (add n p) t).providers ≡ (service p t).providers ++ n ∷ []) e
      (dispatch-providers (p.store.provider n).service _ p)

add-IsListed : (m n : ℕ) (name : Bytes) (p : Pool) → IsListed n name p → IsListed n name (add m p)
unfolding add
add-IsListed m n name p h = elim (Bool-cases (bytes_eq (p.store.provider m).service name)) [
  | inl same ↦
      subst (Elem n)
        (sym (added m name p ((bytes_eq_iff (p.store.provider m).service name).0 same)))
        (Elem-front n (service p name).providers (m ∷ []) h)
  | inr other ↦
      subst (λ s. Elem n s.providers)
        (sym (dispatch_other (p.store.provider m).service name _ p other)) h
]

new_provider-service :
    (n : ℕ) (peer : Bytes) (info : ProviderInfo) (p : Pool)
    → ((new_provider n peer info p).store.provider n).service ≡ info.service
unfolding new_provider
new_provider-service n peer info p = ground arith

new_provider-services :
    (n : ℕ) (peer : Bytes) (info : ProviderInfo) (p : Pool) (name : Bytes)
    → service (new_provider n peer info p) name ≡ service p name
unfolding new_provider service
new_provider-services n peer info p name = refl

register_each-IsListed :
    (peer : Bytes) (seen : List (Bytes × Bool)) (infos : List ProviderInfo) (m : ℕ) (made : List ℕ)
    (p : Pool) (n : ℕ) (name : Bytes)
    → IsListed n name p
    → IsListed n name (register_each peer seen infos m made p).1
unfolding register_each
register_each-IsListed peer seen [] m made p n name h = h
register_each-IsListed peer seen (info ∷ infos) m made p n name h =
    given (get info.service seen) (Registered.twice info.service, p) _ h
      (register_each-IsListed peer (put info.service true seen) infos (suc m) (made ++ m ∷ [])
        (add m (new_provider m peer info p)) n name
        (add-IsListed m n name (new_provider m peer info p)
          (subst (λ s. Elem n s.providers) (sym (new_provider-services m peer info p name)) h)))
  where
    given :
        (o : Option Bool) (x y : Registered × Pool)
        → IsListed n name x.1
        → IsListed n name y.1
        → let r : Registered × Pool = elim o [ some b ↦ x | none ↦ y ] in IsListed n name r.1
    given (some b) x y hx hy = hx
    given none x y hx hy = hy

first-IsListed :
    (peer : Bytes) (info : ProviderInfo) (n : ℕ) (p : Pool)
    → IsListed n info.service (add n (new_provider n peer info p))
first-IsListed peer info n p =
    subst (Elem n)
      (sym (added n info.service (new_provider n peer info p) (new_provider-service n peer info p)))
      (Elem-last n (service (new_provider n peer info p) info.service).providers)

-- A peer whose HELLO is refused for two providers of one service leaves the first provider of the
-- HELLO in the pool, whatever providers follow it: `handle` ends without a `Remove`.
pub refused_left :
    (peer : Bytes) (info : ProviderInfo) (infos : List ProviderInfo) (n : ℕ) (p : Pool)
    (session : Pool → Pool) (name : Bytes)
    → (register peer (info ∷ infos) n p).0 ≡ Registered.twice name
    → IsListed n info.service (handle session (register peer (info ∷ infos) n p))
unfolding register register_each get handle
refused_left peer info infos n p session name e =
    left session (register peer (info ∷ infos) n p) e (
      register_each-IsListed peer (put info.service true []) infos (suc n) (n ∷ [])
        (add n (new_provider n peer info p)) n info.service (first-IsListed peer info n p))
  where
    left :
        (f : Pool → Pool) (r : Registered × Pool)
        → r.0 ≡ Registered.twice name
        → IsListed n info.service r.1
        → IsListed n info.service (handle f r)
    left f (Registered.registered ps, q) same h = absurd (ground arith)
    left f (Registered.twice t, q) same h = h
