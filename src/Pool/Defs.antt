-- ===== src/Pool/Defs.antt =====
-- pool.go: the server's queues and slot accounting, one function for each section under the lock.
-- Providers, leases and waiters are shared objects: each is a number, and `Store` has its contents.
use httppooler.Base.{
  ℕ, zero, suc, ◌+◌, ◌-◌, Bool, true, false, ◌&&◌, ◌||◌, Option, none, some, List, [], ◌∷◌, ◌++◌,
  length, ltb, leb, ◌==◌, if◌then◌else◌,
}
use httppooler.Base.Bytes.{Bytes}
use httppooler.Base.Map.{get, put}

pub record Provider : Type 0 where
  pub peer : Bytes
  pub service : Bytes
  pub slots : ℕ
  pub priority : ℕ
  pub busy : ℕ
  pub gone : Bool

pub record Lease : Type 0 where
  pub service : Bytes
  pub provider : ℕ
  pub released : Bool

-- A job in a queue: when its timer fires, and the lease that its channel holds.
pub record Waiter : Type 0 where
  pub deadline : ℕ
  pub lease : Option ℕ

pub record Service : Type 0 where
  pub providers : List ℕ
  pub waiters : List ℕ

-- The objects behind the pointers. The leases made so far are numbered in the order they were made.
pub record Store : Type 0 where
  pub provider : ℕ → Provider
  pub leases : List Lease
  pub waiter : ℕ → Waiter

pub record Pool : Type 0 where
  pub timeout : ℕ
  pub services : List (Bytes × Service)
  pub store : Store
  pub next_waiter : ℕ

-- An object written through its pointer.
abbrev pub update : {A : Type 0} → (ℕ → A) → ℕ → A → ℕ → A
update f i a j = if i == j then a else f j

-- The object `n` of a list, and a write to it.
abbrev pub lease_at : List Lease → ℕ → Option Lease
lease_at [] n = none
lease_at (l ∷ ls) zero = some l
lease_at (l ∷ ls) (suc n) = lease_at ls n

abbrev pub set_lease : List Lease → ℕ → Lease → List Lease
set_lease [] n l = []
set_lease (x ∷ ls) zero l = l ∷ ls
set_lease (x ∷ ls) (suc n) l = x ∷ set_lease ls n l

-- How many slots are open, where no more are busy than there are.
abbrev pub free : Provider → ℕ
free pr = pr.slots - pr.busy

-- The test that passes over a provider.
abbrev pub is_full : Provider → Bool
is_full pr = pr.gone || leb pr.slots pr.busy

abbrev pub beats : Provider → Provider → Bool
beats pr best =
    ltb pr.priority best.priority || (pr.priority == best.priority && ltb (free best) (free pr))

unfoldable pub better : (ℕ → Provider) → Option ℕ → ℕ → Option ℕ
better heap none i = if is_full (heap i) then none else some i
better heap (some b) i =
    if is_full (heap i) then some b else if beats (heap i) (heap b) then some i else some b

-- The loop of `best`.
unfoldable pub best_from : (ℕ → Provider) → Option ℕ → List ℕ → Option ℕ
best_from heap acc [] = acc
best_from heap acc (i ∷ is) = best_from heap (better heap acc i) is

unfoldable pub best : (ℕ → Provider) → List ℕ → Option ℕ
best heap providers = best_from heap none providers

-- `take` makes the lease numbered `length st.leases`.
unfoldable pub take : Bytes → ℕ → Store → Store
take name i st = record st {
  provider = update st.provider i (record (st.provider i) { busy = (st.provider i).busy + 1 });
  leases = st.leases ++ record { service = name; provider = i; released = false } ∷ [];
}

-- `w.lease <- lease`.
unfoldable pub send : ℕ → ℕ → Store → Store
send w lease st = record st {
  waiter = update st.waiter w (record (st.waiter w) { lease = some lease });
}

-- The loop of `dispatch`: the waiters that are left, and the store.
unfoldable pub serve : Bytes → List ℕ → List ℕ → Store → List ℕ × Store
serve name providers [] st = ([], st)
serve name providers (w ∷ ws) st = elim (best st.provider providers) [
  | none ↦ (w ∷ ws, st)
  | some i ↦ serve name providers ws (send w (length st.leases) (take name i st))
]

abbrev pub empty_service : Service
empty_service = record { providers = []; waiters = [] }

abbrev pub or_new : Option Service → Service
or_new none = empty_service
or_new (some s) = s

-- `service`: the pool of a service. It is stored by whoever asked, with `put`.
unfoldable pub service : Pool → Bytes → Service
service p name = or_new (get name p.services)

-- `dispatch` on a service that is then stored.
unfoldable pub dispatch : Bytes → Service → Pool → Pool
dispatch name s p =
    let (left, st) = serve name s.providers s.waiters p.store in
    record p { services = put name (record s { waiters = left }) p.services; store = st }

unfoldable pub new : ℕ → (ℕ → Provider) → (ℕ → Waiter) → Pool
new timeout provider waiter = record {
  timeout = timeout;
  services = [];
  store = record { provider = provider; leases = []; waiter = waiter };
  next_waiter = 0;
}

-- `Add` of the provider object `i`.
unfoldable pub add : ℕ → Pool → Pool
add i p =
    let name = (p.store.provider i).service in
    let s = service p name in dispatch name (record s { providers = s.providers ++ i ∷ [] }) p

unfoldable pub without : ℕ → List ℕ → List ℕ
without i [] = []
without i (j ∷ js) = let rest = without i js in if j == i then js else j ∷ rest

-- `Remove`.
unfoldable pub remove : ℕ → Pool → Pool
remove i p =
    let pr = p.store.provider i in
    let st = record (p.store) {
      provider = update p.store.provider i (record pr { gone = true });
    } in
    elim (get pr.service p.services) [
      | none ↦ record p { store = st }
      | some s ↦ record p {
        services = put pr.service (record s { providers = without i s.providers }) p.services;
        store = st;
      }
    ]

-- `Acquire` up to its `select`: the lease at once, or the waiter whose channel the job listens on.
pub data Acquired : Type 0 where
  leased queued : ℕ → Acquired

unfoldable pub enqueue : Bool → ℕ → List ℕ → List ℕ
enqueue front w ws = if front then w ∷ ws else ws ++ w ∷ []

-- The lease without waiting, if nobody is ahead in the queue and a provider is free.
unfoldable pub at_once : Pool → Service → Option ℕ
at_once p s = elim s.waiters [ [] ↦ best p.store.provider s.providers | w ∷ ws ↦ none ]

unfoldable pub acquire : Bytes → ℕ → Bool → Pool → Acquired × Pool
acquire name since front p =
    let s = service p name in
    let w = p.next_waiter in
    elim (at_once p s) [
      | some i ↦ (
        Acquired.leased (length p.store.leases),
        record p { services = put name s p.services; store = take name i p.store },
      )
      | none ↦ (
        Acquired.queued w,
        record p {
          services = put name (record s { waiters = enqueue front w s.waiters }) p.services;
          store = record (p.store) {
            waiter =
                update p.store.waiter w (record { deadline = since + p.timeout; lease = none });
          };
          next_waiter = suc w;
        },
      )
    ]

-- `Release` of the lease numbered `n`. The provider's count is at least 1 then.
unfoldable pub give_back : ℕ → Lease → Pool → Pool
give_back n l p =
    let st = p.store in
    let pr = st.provider l.provider in
    dispatch l.service (service p l.service) (record p {
      store = record st {
        leases = set_lease st.leases n (record l { released = true });
        provider = update st.provider l.provider (record pr { busy = pr.busy - 1 });
      };
    })

unfoldable pub release : ℕ → Pool → Pool
release n p = elim (lease_at p.store.leases n) [
  | none ↦ p
  | some l ↦ if l.released then p else give_back n l p
]

unfoldable pub waits : ℕ → List ℕ → Bool
waits w [] = false
waits w (v ∷ vs) = let rest = waits w vs in v == w || rest

-- The locked part of `abandon`: whether the waiter was still in its queue, which it leaves.
unfoldable pub leave : Bytes → ℕ → Pool → Bool × Pool
leave name w p =
    let s = service p name in
    if waits w s.waiters
    then (
      true,
      record p { services = put name (record s { waiters = without w s.waiters }) p.services },
    )
    else (false, p)

-- A receive that does not block: what the channel holds, which it then no longer does.
unfoldable pub receive : ℕ → Pool → Option ℕ × Pool
receive w p =
    let st = p.store in
    let it = st.waiter w in
    (
      it.lease,
      record p { store = record st { waiter = update st.waiter w (record it { lease = none }) } },
    )

-- The rest of `abandon`, for a waiter that was no longer in its queue.
unfoldable pub return_lease : ℕ → Pool → Pool
return_lease w p = let (held, q) = receive w p in elim held [ none ↦ q | some n ↦ release n q ]
