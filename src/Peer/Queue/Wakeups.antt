-- ===== src/Peer/Queue/Wakeups.antt =====
-- Nobody who waits for a queue misses what it waits for.
use httppooler.Base.{ℕ, ◌<◌, ◌≡◌, ◌⊎◌, none, List, [], ◌∷◌, arith}
use httppooler.Peer.Queue.{JobQueue, Polled, Act, wake, push, close, next, act, acts}

-- The queue would still block, on the channel `r`, or that channel is closed.
abbrev pub IsSeen : ℕ → JobQueue → Type 0
IsSeen r q = ((q.items ≡ []) × (q.err ≡ none) × (q.ready ≡ r)) ⊎ (r < q.ready)

act-IsSeen : (r : ℕ) (a : Act) (q : JobQueue) → IsSeen r q → IsSeen r (act a q)
unfolding act push close next wake
act-IsSeen r (Act.pushes m) q s = ground arith
act-IsSeen r (Act.closes e) q s = ground arith
act-IsSeen r Act.polls q s = ground arith

acts-IsSeen : (r : ℕ) (xs : List Act) (q : JobQueue) → IsSeen r q → IsSeen r (acts xs q)
unfolding acts
acts-IsSeen r [] q s = s
acts-IsSeen r (a ∷ xs) q s = acts-IsSeen r xs (act a q) (act-IsSeen r a q s)

next-blocked : (r : ℕ) (q : JobQueue) → (next q).0 ≡ Polled.blocked r → IsSeen r (next q).1
unfolding next
next-blocked r q b = ground arith

-- A reader that blocked on the channel `r` finds, after whatever other goroutines did to the queue,
-- the channel closed, or the queue still open and empty with `r` as its channel.
pub no_lost_wakeup :
    (r : ℕ) (q : JobQueue) (xs : List Act)
    → (next q).0 ≡ Polled.blocked r
    → IsSeen r (acts xs (next q).1)
no_lost_wakeup r q xs b = acts-IsSeen r xs (next q).1 (next-blocked r q b)
