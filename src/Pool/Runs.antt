-- ===== src/Pool/Runs.antt =====
-- The pool under any sequence of its operations: what connections, jobs and timers call, in whatever
-- order the lock lets them in.
use httppooler.Base.{ℕ, ◌≤◌, ◌≡◌, ◌⊎◌, Bool, none, some, List, [], ◌∷◌, arith}
use httppooler.Base.Bytes.{Bytes}
use httppooler.Base.Map.{get}
use httppooler.Pool.Defs.{
  Provider, Waiter, Service, Pool, best, new, add, remove, acquire, release, leave, receive,
  return_lease,
}
use httppooler.Pool.Accounts.{open_count}
use httppooler.Pool.Invariant.{IsSound}
use httppooler.Pool.Steps.Providers.{add-IsSound, remove-IsSound, release-IsSound}
use httppooler.Pool.Steps.Jobs.{
  acquire-IsSound, leave-IsSound, receive-IsSound, return_lease-IsSound,
}

-- One section of one goroutine. `leaves` and `returns` are the two halves of `abandon`, and
-- `receives` is the job's own receive from its channel.
pub data Call : Type 0 where
  adds removes releases receives returns : ℕ → Call
  acquires : Bytes → ℕ → Bool → Call
  leaves : Bytes → ℕ → Call

unfoldable pub step : Call → Pool → Pool
step (Call.adds i) p = add i p
step (Call.removes i) p = remove i p
step (Call.releases n) p = release n p
step (Call.receives w) p = (receive w p).1
step (Call.returns w) p = return_lease w p
step (Call.acquires name since front) p = (acquire name since front p).1
step (Call.leaves name w) p = (leave name w p).1

unfoldable pub run : List Call → Pool → Pool
run [] p = p
run (c ∷ cs) p = run cs (step c p)

-- Every section under the lock keeps a sound pool sound: the accounts balanced, the providers of
-- each service naming it, and no job waiting beside a free slot.
pub step-IsSound : (c : Call) (p : Pool) → IsSound p → IsSound (step c p)
unfolding step
step-IsSound (Call.adds i) p v = add-IsSound i p v
step-IsSound (Call.removes i) p v = remove-IsSound i p v
step-IsSound (Call.releases n) p v = release-IsSound n p v
step-IsSound (Call.receives w) p v = receive-IsSound w p v
step-IsSound (Call.returns w) p v = return_lease-IsSound w p v
step-IsSound (Call.acquires name since front) p v = acquire-IsSound name since front p v
step-IsSound (Call.leaves name w) p v = leave-IsSound name w p v

run-IsSound : (cs : List Call) (p : Pool) → IsSound p → IsSound (run cs p)
unfolding run
run-IsSound [] p v = v
run-IsSound (c ∷ cs) p v = run-IsSound cs (step c p) (step-IsSound c p v)

-- No provider object has a lease yet.
abbrev pub AreIdle : (ℕ → Provider) → Type 0
AreIdle heap = (i : ℕ) → (heap i).busy ≡ 0

-- A new pool is sound.
pub new-IsSound :
    (timeout : ℕ) (heap : ℕ → Provider) (ws : ℕ → Waiter)
    → AreIdle heap
    → IsSound (new timeout heap ws)
unfolding new open_count get
new-IsSound timeout heap ws idle = record {
  balanced = record { within = λ i. omega (arith, idle i); counted = λ i. idle i; owned = tt };
  fine = λ k t e. cc;
}

module _ (timeout : ℕ) (heap : ℕ → Provider) (ws : ℕ → Waiter) (idle : AreIdle heap)
    (cs : List Call) where
  abbrev later : Pool
  later = run cs (new timeout heap ws)

  -- After any sequence of calls on a new pool, none of whose providers has a lease at first, a
  -- provider's busy slots are its leases that are not released, and no more than its slots.
  pub run_within_slots :
      (i : ℕ)
      → ((later.store.provider i).busy ≡ open_count i later.store.leases)
        × (open_count i later.store.leases ≤ (later.store.provider i).slots)
  run_within_slots i =
      let b = (run-IsSound cs (new timeout heap ws) (new-IsSound timeout heap ws idle)).balanced in
      (b.counted i, omega (arith, b.counted i, b.within i))

  -- After any sequence of calls on a new pool, none of whose providers has a lease at first, no
  -- job waits for a service one of whose providers has a free slot.
  pub run_work_conserving :
      (name : Bytes) (s : Service)
      → get name later.services ≡ some s
      → (s.waiters ≡ []) ⊎ (best later.store.provider s.providers ≡ none)
  run_work_conserving name s e =
      ((run-IsSound cs (new timeout heap ws) (new-IsSound timeout heap ws idle)).fine name s e).1
