-- ===== src/Pool/Steps/Jobs.antt =====
-- `Acquire` and `abandon` keep the pool sound.
use httppooler.Base.{
  ℕ, suc, ◌+◌, ◌≡◌, refl, sym, subst, inl, inr, Bool, Option, none, some, List, [], ◌∷◌, length,
  arith, Option-cases, Bool-cases,
}
use httppooler.Base.Bytes.{Bytes}
use httppooler.Base.Map.{put}
use httppooler.Pool.Defs.{
  Acquired, Waiter, Service, Store, Pool, best, service, update, without, acquire, at_once, enqueue,
  take, leave, waits, receive, return_lease,
}
use httppooler.Pool.Best.{All-Elem, best-some}
use httppooler.Pool.Accounts.{Balanced, Changes, Changes-refl, take-Changes, take-Balanced}
use httppooler.Pool.Invariant.{IsFair, Fine, IsSound, Members-Changes, put-IsSound}
use httppooler.Pool.Steps.Providers.{service-Fine, others, release-IsSound}

-- `Acquire`, with a lease at once or with a waiter in the queue.
take_one :
    (name : Bytes) (s : Service) (i : ℕ) (p : Pool)
    → IsSound p
    → Fine p.store name s
    → s.waiters ≡ []
    → best p.store.provider s.providers ≡ some i
    → IsSound (record p { services = put name s p.services; store = take name i p.store })
take_one name s i p v (members, fair) empty e =
    let (member, room, all) = best-some p.store.provider s.providers i e in
    let ours = All-Elem (λ j. (p.store.provider j).service ≡ name) i s.providers members member in
    let c = take-Changes name i p.store ours in
    put-IsSound c p.timeout p.next_waiter p.services s (others p name v)
      (take-Balanced name i p.store ours room v.balanced)
      (Members-Changes c name s members, inl empty)

abbrev pub waiting : ℕ → Waiter → Store → Store
waiting w it st = record st { waiter = update st.waiter w it }

waiting-Changes :
    (name : Bytes) (w : ℕ) (it : Waiter) (st : Store) → Changes name st (waiting w it st)
waiting-Changes name w it st = record { services = λ i. refl; elsewhere = λ i h. refl }

waiting-Balanced : (w : ℕ) (it : Waiter) (st : Store) → Balanced st → Balanced (waiting w it st)
waiting-Balanced w it st b = record { within = b.within; counted = b.counted; owned = b.owned }

-- Only when no provider is free does a job have to queue.
at_once-none :
    (p : Pool) (s : Service)
    → IsFair p.store s
    → at_once p s ≡ none
    → best p.store.provider s.providers ≡ none
unfolding at_once
at_once-none p s fair e = at_front s.waiters refl
  where
    at_front : (ws : List ℕ) → s.waiters ≡ ws → best p.store.provider s.providers ≡ none
    at_front [] f = ground arith
    at_front (w ∷ ws) f = ground arith

at_once-some :
    (p : Pool) (s : Service) (i : ℕ)
    → at_once p s ≡ some i
    → (s.waiters ≡ []) × (best p.store.provider s.providers ≡ some i)
unfolding at_once
at_once-some p s i e = at_front s.waiters refl
  where
    at_front :
        (ws : List ℕ)
        → s.waiters ≡ ws
        → (s.waiters ≡ []) × (best p.store.provider s.providers ≡ some i)
    at_front [] f = (f, ground arith)
    at_front (w ∷ ws) f = absurd (ground arith)

module _ (name : Bytes) (since : ℕ) (front : Bool) (p : Pool) where
  -- The two ways out of `Acquire` before its `select`.
  pub acquire_leased :
      (i : ℕ)
      → at_once p (service p name) ≡ some i
      → acquire name since front p ≡ (
        Acquired.leased (length p.store.leases),
        record p { services = put name (service p name) p.services; store = take name i p.store },
      )
  unfolding acquire
  acquire_leased i e = rw (e, acquire)

  abbrev pub queued_pool : Pool
  queued_pool = record p {
    services =
        put name
          (record (service p name) {
            waiters = enqueue front p.next_waiter (service p name).waiters;
          })
          p.services;
    store = waiting p.next_waiter (record { deadline = since + p.timeout; lease = none }) p.store;
    next_waiter = suc p.next_waiter;
  }

  pub acquire_queued :
      at_once p (service p name) ≡ none
      → acquire name since front p ≡ (Acquired.queued p.next_waiter, queued_pool)
  unfolding acquire
  acquire_queued e = rw (e, acquire)

  pub acquire-IsSound : IsSound p → IsSound (acquire name since front p).1
  acquire-IsSound v =
      let s = service p name in
      let fine = service-Fine p name v in
      elim (Option-cases (at_once p s)) [
        | inr (i, e) ↦
            let (empty, chosen) = at_once-some p s i e in
            subst (λ (r : Acquired × Pool). IsSound r.1) (sym (acquire_leased i e))
              (take_one name s i p v fine empty chosen)
        | inl e ↦
            let it : Waiter = record { deadline = since + p.timeout; lease = none } in
            let c = waiting-Changes name p.next_waiter it p.store in
            subst (λ (r : Acquired × Pool). IsSound r.1) (sym (acquire_queued e))
              (put-IsSound c p.timeout (suc p.next_waiter) p.services _ (others p name v)
                (waiting-Balanced p.next_waiter it p.store v.balanced)
                (fine.0, inr (at_once-none p s fine.1 e)))
      ]

-- `abandon`.
without-nil : (w : ℕ) (ws : List ℕ) → ws ≡ [] → without w ws ≡ []
unfolding without
without-nil w ws e = rw e

leave-IsFair :
    (w : ℕ) (st : Store) (s : Service)
    → IsFair st s
    → IsFair st (record s { waiters = without w s.waiters })
leave-IsFair w st s (inl e) = inl (without-nil w s.waiters e)
leave-IsFair w st s (inr e) = inr e

pub leave-IsSound : (name : Bytes) (w : ℕ) (p : Pool) → IsSound p → IsSound (leave name w p).1
unfolding leave
leave-IsSound name w p v =
    let s = service p name in
    let (members, fair) = service-Fine p name v in
    elim (Bool-cases (waits w s.waiters)) [
      | inl e ↦
          rw (e, leave)
            (put-IsSound (Changes-refl name p.store) p.timeout p.next_waiter p.services _
              (others p name v) v.balanced (members, leave-IsFair w p.store s fair))
      | inr e ↦ rw (e, leave) v
    ]

pub receive-IsSound : (w : ℕ) (p : Pool) → IsSound p → IsSound (receive w p).1
unfolding receive
receive-IsSound w p v = record {
  balanced = waiting-Balanced w _ p.store v.balanced;
  fine = λ k t e. v.fine k t e;
}

pub return_lease-IsSound : (w : ℕ) (p : Pool) → IsSound p → IsSound (return_lease w p)
unfolding return_lease
return_lease-IsSound w p v = returned (receive w p).0 refl
  where
    returned : (o : Option ℕ) → (receive w p).0 ≡ o → IsSound (return_lease w p)
    returned none e = rw (e, return_lease) (receive-IsSound w p v)
    returned (some n) e = rw (e, return_lease) (release-IsSound n _ (receive-IsSound w p v))
