-- ===== src/Pool/Accounts.antt =====
-- Slot accounting: a provider's `busy` counts its leases that are not released, and stays within its
-- slots.
use httppooler.Base.{
  ℕ, zero, suc, ◌+◌, ◌-◌, ◌≤◌, ◌≡◌, ◌≢◌, refl, sym, subst, ◌∙◌, inl, inr, true, false, not, ◌||◌,
  some, List, [], ◌∷◌, ◌++◌, All, All-imp, All-append, arith, Bool-cases, ◌==◌, if◌then◌else◌,
}
use httppooler.Base.Bytes.{Bytes}
use httppooler.Pool.Defs.{Provider, Lease, Store, is_full, update, lease_at, set_lease, take, send}

-- The leases of provider `i` that are not released.
unfoldable pub open_count : ℕ → List Lease → ℕ
open_count i [] = 0
open_count i (l ∷ ls) =
    let rest = open_count i ls in if l.released || not (l.provider == i) then rest else suc rest

abbrev pub fresh_lease : Bytes → ℕ → Lease
fresh_lease name i = record { service = name; provider = i; released = false }

pub open_count-append :
    (i : ℕ) (name : Bytes) (j : ℕ) (ls : List Lease)
    → open_count i (ls ++ fresh_lease name j ∷ [])
      ≡ (if j == i then suc (open_count i ls) else open_count i ls)
unfolding open_count
open_count-append i name j [] = ground arith
open_count-append i name j (l ∷ ls) = ground (arith, open_count-append i name j ls)

abbrev pub done : Lease → Lease
done l = record l { released = true }

-- Releasing a lease that was not takes one from its provider's count, and from no other's.
pub open_count-set :
    (i n : ℕ) (l : Lease) (ls : List Lease)
    → lease_at ls n ≡ some l
    → l.released ≡ false
    → open_count i ls ≡ (if l.provider == i then 1 else 0) + open_count i (set_lease ls n (done l))
unfolding open_count
open_count-set i n l [] e r = cc
open_count-set i zero l (x ∷ ls) e r = ground arith
open_count-set i (suc n) l (x ∷ ls) e r = ground (arith, open_count-set i n l ls)

abbrev pub OwnedBy : (ℕ → Provider) → Lease → Type 0
OwnedBy heap l = (heap l.provider).service ≡ l.service

pub record Balanced (st : Store) : Type 0 where
  pub within : (i : ℕ) → (st.provider i).busy ≤ (st.provider i).slots
  pub counted : (i : ℕ) → (st.provider i).busy ≡ open_count i st.leases
  pub owned : All (OwnedBy st.provider) st.leases

pub update_ne : {A : Type 0} (f : ℕ → A) (i : ℕ) (a : A) (j : ℕ) → i ≢ j → update f i a j ≡ f j
update_ne f i a j h = elim (Bool-cases (i == j)) [
  | inl t ↦ absurd (h (ground arith))
  | inr t ↦ rw t
]

-- No provider moves to another service, and only those of service `name` differ.
pub record Changes (name : Bytes) (st st' : Store) : Type 0 where
  pub services : (i : ℕ) → (st'.provider i).service ≡ (st.provider i).service
  pub elsewhere : (i : ℕ) → (st.provider i).service ≢ name → st'.provider i ≡ st.provider i

module _ (name : Bytes) where
  pub Changes-refl : (st : Store) → Changes name st st
  Changes-refl st = record { services = λ i. refl; elsewhere = λ i h. refl }

  pub Changes-trans : {a b c : Store} → Changes name a b → Changes name b c → Changes name a c
  Changes-trans p q = record {
    services = λ i. q.services i ∙ p.services i;
    elsewhere = λ i h. q.elsewhere i (λ e. h (sym (p.services i) ∙ e)) ∙ p.elsewhere i h;
  }

  pub owned-services :
      (heap heap' : ℕ → Provider) (ls : List Lease)
      → ((i : ℕ) → (heap' i).service ≡ (heap i).service)
      → All (OwnedBy heap) ls
      → All (OwnedBy heap') ls
  owned-services heap heap' ls same =
      All-imp (OwnedBy heap) (OwnedBy heap') ls (λ l e. same l.provider ∙ e)

  pub take-Changes :
      (i : ℕ) (st : Store) → (st.provider i).service ≡ name → Changes name st (take name i st)
  unfolding take
  take-Changes i st e = record {
    services = λ j. ground arith;
    elsewhere = λ j h.
        update_ne st.provider i _ j (λ t. h (subst (λ k. (st.provider k).service ≡ name) t e));
  }

  pub take-Balanced :
      (i : ℕ) (st : Store)
      → (st.provider i).service ≡ name
      → is_full (st.provider i) ≡ false
      → Balanced st
      → Balanced (take name i st)
  unfolding take
  take-Balanced i st e room b = record {
    within = λ j. ground (arith, b.within j);
    counted = λ j. ground (arith, b.counted j, open_count-append j name i st.leases);
    owned =
        let heap = (take name i st).provider in
        All-append (OwnedBy heap) st.leases (fresh_lease name i ∷ [])
          (owned-services st.provider heap st.leases (λ j. ground arith) b.owned)
          ((take-Changes i st e).services i ∙ e, tt);
  }

  -- `send` touches the waiters alone.
  pub send-Balanced : (w n : ℕ) (st : Store) → Balanced st → Balanced (send w n st)
  unfolding send
  send-Balanced w n st b = record { within = b.within; counted = b.counted; owned = b.owned }

  pub send-Changes : (w n : ℕ) (st : Store) → Changes name st (send w n st)
  unfolding send
  send-Changes w n st = record { services = λ i. refl; elsewhere = λ i h. refl }

-- What `Release` does before it dispatches.
abbrev pub reclaim : ℕ → Lease → Store → Store
reclaim n l st = record st {
  leases = set_lease st.leases n (done l);
  provider =
      update st.provider l.provider
        (record (st.provider l.provider) { busy = (st.provider l.provider).busy - 1 });
}

All-lease_at {ℓ} :
    (P : Lease → Type ℓ) (ls : List Lease) (n : ℕ) (l : Lease)
    → All P ls
    → lease_at ls n ≡ some l
    → P l
All-lease_at P [] n l h e = cc
All-lease_at P (x ∷ ls) zero l (hx, h) e = subst P (cc) hx
All-lease_at P (x ∷ ls) (suc n) l (hx, h) e = All-lease_at P ls n l h e

All-set_lease {ℓ} :
    (P : Lease → Type ℓ) (ls : List Lease) (n : ℕ) (l : Lease)
    → All P ls
    → P l
    → All P (set_lease ls n l)
All-set_lease P [] n l h hl = tt
All-set_lease P (x ∷ ls) zero l (hx, h) hl = (hl, h)
All-set_lease P (x ∷ ls) (suc n) l (hx, h) hl = (hx, All-set_lease P ls n l h hl)

module _ (n : ℕ) (l : Lease) (st : Store) (at : lease_at st.leases n ≡ some l) where
  pub owner : Balanced st → (st.provider l.provider).service ≡ l.service
  owner b = All-lease_at (OwnedBy st.provider) st.leases n l b.owned at

  pub reclaim-Changes : Balanced st → Changes l.service st (reclaim n l st)
  reclaim-Changes b = record {
    services = λ j. ground arith;
    elsewhere = λ j h.
        update_ne st.provider l.provider _ j
          (λ t. h (subst (λ k. (st.provider k).service ≡ l.service) t (owner b)));
  }

  pub reclaim-Balanced : Balanced st → l.released ≡ false → Balanced (reclaim n l st)
  reclaim-Balanced b r = record {
    within = λ j. ground (arith, b.within j);
    counted = λ j. ground (arith, b.counted j, open_count-set j n l st.leases at r);
    owned =
        let heap = (reclaim n l st).provider in
        All-set_lease (OwnedBy heap) st.leases n (done l)
          (owned-services l.service st.provider heap st.leases (λ j. ground arith) b.owned)
          ((reclaim-Changes b).services l.provider ∙ owner b);
  }

  -- The decrement never goes below zero.
  pub reclaim-positive : Balanced st → l.released ≡ false → 1 ≤ (st.provider l.provider).busy
  reclaim-positive b r =
      ground (arith, b.counted l.provider, open_count-set l.provider n l st.leases at r)
