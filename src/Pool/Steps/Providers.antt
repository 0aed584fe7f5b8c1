-- ===== src/Pool/Steps/Providers.antt =====
-- `Add`, `Remove` and `Release` keep the pool sound.
use httppooler.Base.{
  ℕ, ◌≡◌, ◌≢◌, refl, sym, ap, subst, inl, inr, Bool, true, false, Option, none, some, List, [], ◌∷◌,
  All, All-imp, All-append, arith, Option-cases, if◌then◌else◌,
}
use httppooler.Base.Bytes.{Bytes}
use httppooler.Base.Map.{get, put}
use httppooler.Pool.Defs.{
  Lease, Service, Store, Pool, service, or_new, update, lease_at, add, remove, without, is_full,
  release, give_back,
}
use httppooler.Pool.Best.{best-none, All-full-best}
use httppooler.Pool.Accounts.{
  Balanced, Changes, update_ne, owned-services, reclaim-Changes, reclaim-Balanced,
}
use httppooler.Pool.Invariant.{
  IsFair, Fine, IsSound, Members-Changes, Fine-elsewhere, put-IsSound, dispatch-IsSound,
}

or_new-Fine :
    (st : Store) (name : Bytes) (o : Option Service)
    → ((s : Service) → o ≡ some s → Fine st name s)
    → Fine st name (or_new o)
or_new-Fine st name none h = (tt, inl refl)
or_new-Fine st name (some s) h = h s refl

-- The service that an operation looks up, made or not, is fine.
pub service-Fine : (p : Pool) (name : Bytes) → IsSound p → Fine p.store name (service p name)
unfolding service
service-Fine p name v = or_new-Fine p.store name (get name p.services) (v.fine name)

abbrev pub Others : Pool → Bytes → Type 0
Others p name = (k : Bytes) (t : Service) → name ≢ k → get k p.services ≡ some t → Fine p.store k t

pub others : (p : Pool) (name : Bytes) → IsSound p → Others p name
others p name v k t n e = v.fine k t e

pub add-IsSound : (i : ℕ) (p : Pool) → IsSound p → IsSound (add i p)
unfolding add
add-IsSound i p v =
    let name = (p.store.provider i).service in
    dispatch-IsSound name _ p v.balanced
      (All-append (λ j. (p.store.provider j).service ≡ name) (service p name).providers (i ∷ [])
        (service-Fine p name v).0 (refl, tt))
      (others p name v)

give_back-IsSound :
    (n : ℕ) (l : Lease) (p : Pool)
    → lease_at p.store.leases n ≡ some l
    → l.released ≡ false
    → IsSound p
    → IsSound (give_back n l p)
unfolding give_back
give_back-IsSound n l p at held v =
    let c = reclaim-Changes n l p.store at v.balanced in
    let s = service p l.service in
    dispatch-IsSound l.service s _ (reclaim-Balanced n l p.store at v.balanced held)
      (Members-Changes c l.service s (service-Fine p l.service v).0)
      (λ k t other e. Fine-elsewhere c k t other (v.fine k t e))

release-none : (n : ℕ) (p : Pool) → lease_at p.store.leases n ≡ none → release n p ≡ p
unfolding release
release-none n p e = rw (e, release)

pub release-some :
    (n : ℕ) (l : Lease) (p : Pool)
    → lease_at p.store.leases n ≡ some l
    → release n p ≡ (if l.released then p else give_back n l p)
unfolding release
release-some n l p e = rw (e, release)

IsSound-if :
    (t : Bool) (p q : Pool) → IsSound p → (t ≡ false → IsSound q) → IsSound (if t then p else q)
IsSound-if true p q vp vq = vp
IsSound-if false p q vp vq = vq refl

pub release-IsSound : (n : ℕ) (p : Pool) → IsSound p → IsSound (release n p)
release-IsSound n p v = elim (Option-cases (lease_at p.store.leases n)) [
  | inl e ↦ rw (release-none n p e) v
  | inr (l, e) ↦
      subst IsSound (sym (release-some n l p e))
        (IsSound-if l.released p (give_back n l p) v (λ held. give_back-IsSound n l p e held v))
]

-- Taking a provider out.
module _ (P : ℕ → Type 0) where
  All-without : (i : ℕ) (js : List ℕ) → All P js → All P (without i js)
  unfolding without
  All-without i [] h = tt
  All-without i (j ∷ js) (hj, h) = ground (arith, All-without i js h)

abbrev retired : ℕ → Store → Store
retired i st = record st {
  provider = update st.provider i (record (st.provider i) { gone = true });
}

retired-Changes : (i : ℕ) (st : Store) → Changes (st.provider i).service st (retired i st)
retired-Changes i st = record {
  services = λ j. ground arith;
  elsewhere =
      λ j h. update_ne st.provider i _ j (λ t. h (ap (λ k. (st.provider k).service) (sym t)));
}

retired-Balanced : (i : ℕ) (st : Store) → Balanced st → Balanced (retired i st)
retired-Balanced i st b = record {
  within = λ j. ground (arith, b.within j);
  counted = λ j. ground (arith, b.counted j);
  owned =
      owned-services (st.provider i).service st.provider (retired i st).provider st.leases
        (retired-Changes i st).services b.owned;
}

retired_full :
    (i j : ℕ) (st : Store)
    → is_full (st.provider j) ≡ true
    → is_full ((retired i st).provider j) ≡ true
retired_full i j st h = ground arith

retired-IsFair :
    (i : ℕ) (st : Store) (s : Service)
    → IsFair st s
    → IsFair (retired i st) (record s { providers = without i s.providers })
retired-IsFair i st s (inl e) = inl e
retired-IsFair i st s (inr e) =
    let full = best-none st.provider s.providers e in
    let full' : All (λ j. is_full (st.provider j) ≡ true) (without i s.providers) =
      All-without (λ j. is_full (st.provider j) ≡ true) i s.providers full in
    inr (
      All-full-best (retired i st).provider (without i s.providers) (
        All-imp _ (λ j. is_full ((retired i st).provider j) ≡ true) (without i s.providers)
          (λ j. retired_full i j st) full'))

remove-none :
    (i : ℕ) (p : Pool)
    → get (p.store.provider i).service p.services ≡ none
    → remove i p ≡ record p { store = retired i p.store }
unfolding remove
remove-none i p e = rw (e, remove)

remove-some :
    (i : ℕ) (p : Pool) (s : Service)
    → get (p.store.provider i).service p.services ≡ some s
    → remove i p ≡ record p {
      services =
          put
            (p.store.provider i).service
            (record s { providers = without i s.providers })
            p.services;
      store = retired i p.store;
    }
unfolding remove
remove-some i p s e = rw (e, remove)

pub remove-IsSound : (i : ℕ) (p : Pool) → IsSound p → IsSound (remove i p)
remove-IsSound i p v =
    let name = (p.store.provider i).service in
    let c = retired-Changes i p.store in
    let b = retired-Balanced i p.store v.balanced in
    elim (Option-cases (get name p.services)) [
      | inl e ↦ rw (remove-none i p e) (record {
        balanced = b;
        fine = λ k t f.
            Fine-elsewhere c k t (λ same. cc (subst (λ n. get n p.services ≡ none) same e, f))
              (v.fine k t f);
      })
      | inr (s, e) ↦
          let (members, fair) = v.fine name s e in
          rw (remove-some i p s e) (
            put-IsSound c p.timeout p.next_waiter p.services _ (others p name v) b (
              All-without (λ j. ((retired i p.store).provider j).service ≡ name) i s.providers
                  (Members-Changes c name s members),
              retired-IsFair i p.store s fair,
            ))
    ]
