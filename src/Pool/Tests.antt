-- ===== src/Pool/Tests.antt =====
-- Runs of the pool with one provider of one slot.
use httppooler.Base.{
  ℕ, ◌+◌, ◌≤◌, ◌≡◌, refl, Option, none, some, List, [], ◌∷◌, ◌⊎◌, inl, inr, arith, false, All, map,
  ◌↔◌, ◌≢◌,
}
use httppooler.Base.Bytes.{Bytes}
use httppooler.Base.Map.{get}
use httppooler.Base.Unique.{Among}
use httppooler.Pool.Snapshot.{snapshot}
use httppooler.Pool.Snapshot.Order.{IsSorted, snapshot_names}
use httppooler.Pool.Defs.{
  Provider, Lease, Waiter, Service, Store, Pool, best, serve, new, empty_service,
}
use httppooler.Pool.Best.{Outcome, best_optimal}
use httppooler.Pool.Accounts.{open_count}
use httppooler.Pool.Serve.{Served, serve-Served}
use httppooler.Pool.Invariant.{IsSound}
use httppooler.Pool.Runs.{
  Call, step, run, AreIdle, new-IsSound, step-IsSound, run_within_slots, run_work_conserving,
}

abbrev web : Bytes
web = 119 ∷ []

abbrev heap : ℕ → Provider
heap i = record { peer = 112 ∷ []; service = web; slots = 1; priority = i; busy = 0; gone = false }

abbrev unused : ℕ → Waiter
unused w = record { deadline = 0; lease = none }

abbrev initial : Pool
initial = new 30 heap unused

heap-AreIdle : AreIdle heap
heap-AreIdle i = refl

initial-IsSound : IsSound initial
initial-IsSound = new-IsSound 30 heap unused heap-AreIdle

-- Two jobs for the one slot: the second waits until the first is done.
abbrev rush : List Call
rush = Call.adds 0 ∷ Call.acquires web 5 false ∷ Call.acquires web 6 false ∷ Call.releases 0 ∷ []

second_served : ((run rush initial).store.waiter 0).lease ≡ some 1
unfolding run step get serve best new httppooler.Pool.Defs.acquire httppooler.Pool.Defs.at_once
    httppooler.Pool.Defs.service httppooler.Pool.Defs.add httppooler.Pool.Defs.dispatch
    httppooler.Pool.Defs.best_from httppooler.Pool.Defs.better httppooler.Pool.Defs.take
    httppooler.Pool.Defs.enqueue httppooler.Pool.Defs.give_back httppooler.Pool.Defs.release
    httppooler.Pool.Defs.send httppooler.Base.Map.put httppooler.Base.Map.bytes_eq
second_served = refl

step-IsSound_example : IsSound (step (Call.adds 0) initial)
step-IsSound_example = step-IsSound (Call.adds 0) initial initial-IsSound

run_within_slots_example :
    (((run rush initial).store.provider 0).busy ≡ open_count 0 (run rush initial).store.leases)
    × (open_count 0 (run rush initial).store.leases ≤ ((run rush initial).store.provider 0).slots)
run_within_slots_example = run_within_slots 30 heap unused heap-AreIdle rush 0

abbrev waiting : Service
waiting = record { providers = 0 ∷ []; waiters = 0 ∷ [] }

abbrev jammed : List Call
jammed = Call.adds 0 ∷ Call.acquires web 5 false ∷ Call.acquires web 6 false ∷ []

jammed_queue : get web (run jammed initial).services ≡ some waiting
unfolding run step get serve best new httppooler.Pool.Defs.acquire httppooler.Pool.Defs.at_once
    httppooler.Pool.Defs.service httppooler.Pool.Defs.add httppooler.Pool.Defs.dispatch
    httppooler.Pool.Defs.best_from httppooler.Pool.Defs.better httppooler.Pool.Defs.take
    httppooler.Pool.Defs.enqueue httppooler.Pool.Defs.give_back httppooler.Pool.Defs.release
    httppooler.Pool.Defs.send httppooler.Base.Map.put httppooler.Base.Map.bytes_eq
jammed_queue = refl

run_work_conserving_example :
    (waiting.waiters ≡ []) ⊎ (best (run jammed initial).store.provider waiting.providers ≡ none)
run_work_conserving_example =
    run_work_conserving 30 heap unused heap-AreIdle jammed web waiting jammed_queue

owned : (initial.store.provider 0).service ≡ web
unfolding new
owned = refl

serve-Served_example :
    Served web
      (0 ∷ [])
      (4 ∷ 5 ∷ [])
      initial.store
      (serve web (0 ∷ []) (4 ∷ 5 ∷ []) initial.store).0
      (serve web (0 ∷ []) (4 ∷ 5 ∷ []) initial.store).1
serve-Served_example =
    serve-Served web (0 ∷ []) (4 ∷ 5 ∷ []) initial.store initial-IsSound.balanced (owned, tt)

best_optimal_example : Outcome heap (2 ∷ 1 ∷ []) (best heap (2 ∷ 1 ∷ []))
best_optimal_example = best_optimal heap (2 ∷ 1 ∷ [])

snapshot_names_example :
    let p = run jammed initial in
    let names = map (λ s. s.name) (snapshot p) in
    IsSorted names × ((name : Bytes) → Among name names ↔ (get name p.services ≢ none))
snapshot_names_example = snapshot_names (run jammed initial)
