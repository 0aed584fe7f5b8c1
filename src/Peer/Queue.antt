-- ===== src/Peer/Queue.antt =====
-- queue.go: a job's inbox. Each function is one section under the queue's lock.
pub mod Delivery
pub mod Wakeups
use httppooler.Base.{ℕ, suc, Option, none, some, List, [], ◌∷◌, ◌++◌}
use httppooler.Wire.Message.{Message}
use httppooler.Peer.Reason.{Reason}

-- The channels that were ever `ready` are numbered; those below `ready` are closed.
pub record JobQueue : Type 0 where
  pub items : List Message
  pub err : Option Reason
  pub ready : ℕ

unfoldable pub new_job_queue : JobQueue
new_job_queue = record { items = []; err = none; ready = 0 }

unfoldable pub wake : JobQueue → JobQueue
wake q = record q { ready = suc q.ready }

unfoldable pub push : Message → JobQueue → JobQueue
unfolding wake
push m q = elim q.err [ some e ↦ q | none ↦ wake (record q { items = q.items ++ m ∷ [] }) ]

unfoldable pub close : Reason → JobQueue → JobQueue
unfolding wake
close e q = elim q.err [ some first ↦ q | none ↦ wake (record q { err = some e }) ]

-- One pass of the loop of `next`, up to its `select`.
pub data Polled : Type 0 where
  got : Message → Polled
  ended : Reason → Polled
  blocked : (ready : ℕ) → Polled

unfoldable pub next : JobQueue → Polled × JobQueue
next q = elim q.items [
  | m ∷ ms ↦ (Polled.got m, record q { items = ms })
  | [] ↦ elim q.err [ some e ↦ (Polled.ended e, q) | none ↦ (Polled.blocked q.ready, q) ]
]

-- What the goroutines around a queue do to it, in the order that the lock lets them in.
pub data Act : Type 0 where
  pushes : Message → Act
  closes : Reason → Act
  polls : Act

unfoldable pub act : Act → JobQueue → JobQueue
act (Act.pushes m) q = push m q
act (Act.closes e) q = close e q
act Act.polls q = (next q).1

unfoldable pub acts : List Act → JobQueue → JobQueue
acts [] q = q
acts (a ∷ xs) q = acts xs (act a q)
