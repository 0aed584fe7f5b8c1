-- ===== src/Peer/Conn.antt =====
-- conn.go: the jobs of one connection. Each function is what one goroutine does under the lock, and
-- with the queues that it takes out of the map. Queues are shared objects: each is a number, and
-- `queue` has its contents.
pub mod Ids
use httppooler.Base.{
  ℕ, suc, ◌+◌, ◌%◌, ◌^◌, Bool, true, false, not, Option, none, some, List, [], ◌∷◌, ◌==◌,
  if◌then◌else◌,
}
use httppooler.Wire.Message.{Role, Message, kind, job_id}
use httppooler.Wire.Message
use httppooler.Peer.Reason.{Reason}
use httppooler.Peer.Queue.{JobQueue, new_job_queue, push, close}

-- `jobs` is the map from a job's id to its queue; `pongs` says whether the channel of that name holds
-- its one element; `made` numbers the next queue.
pub record Conn : Type 0 where
  pub role : Role
  pub peer : List ℕ
  pub pongs : Bool
  pub next_job : ℕ
  pub jobs : List (ℕ × ℕ)
  pub err : Option Reason
  pub queue : ℕ → JobQueue
  pub made : ℕ

unfoldable pub lookup : ℕ → List (ℕ × ℕ) → Option ℕ
lookup id [] = none
lookup id (j ∷ js) = if j.0 == id then some j.1 else lookup id js

unfoldable pub forget : ℕ → List (ℕ × ℕ) → List (ℕ × ℕ)
forget id [] = []
forget id (j ∷ js) = let rest = forget id js in if j.0 == id then rest else j ∷ rest

-- A write through the pointer to a queue.
abbrev pub set_queue : (ℕ → JobQueue) → ℕ → JobQueue → ℕ → JobQueue
set_queue queue n q k = if n == k then q else queue k

abbrev pub is_server : Role → Bool
is_server Role.server = true
is_server Role.client = false

unfoldable pub new_conn : Role → List ℕ → (ℕ → JobQueue) → Conn
new_conn role peer queue = record {
  role = role;
  peer = peer;
  pongs = false;
  next_job = if is_server role then 2 else 1;
  jobs = [];
  err = none;
  queue = queue;
  made = 0;
}

-- `q := newJobQueue(); c.jobs[id] = q`.
unfoldable pub put_job : ℕ → Conn → Conn
put_job id c = record c {
  jobs = (id, c.made) ∷ forget id c.jobs;
  queue = set_queue c.queue c.made new_job_queue;
  made = suc c.made;
}

pub data Opened : Type 0 where
  opened : (id queue : ℕ) → Opened
  refused : Reason → Opened

unfoldable pub new_job : Conn → Opened × Conn
new_job c = elim c.err [
  | some e ↦ (Opened.refused e, c)
  | none ↦ (
    Opened.opened c.next_job c.made,
    put_job c.next_job (record c { next_job = (c.next_job + 2) % 2 ^ 64 }),
  )
]

unfoldable pub open_job : ℕ → Conn → Opened × Conn
open_job id c = elim c.err [
  | some e ↦ (Opened.refused e, c)
  | none ↦ elim (lookup id c.jobs) [
    | some q ↦ (Opened.refused (Reason.running id), c)
    | none ↦ (Opened.opened id c.made, put_job id c)
  ]
]

unfoldable pub close_queue : Reason → ℕ → Conn → Conn
close_queue e n c = record c { queue = set_queue c.queue n (close e (c.queue n)) }

unfoldable pub end_job : ℕ → Conn → Conn
end_job id c =
    let rest = record c { jobs = forget id c.jobs } in
    elim (lookup id c.jobs) [ none ↦ rest | some n ↦ close_queue Reason.job_ended n rest ]

unfoldable pub mine : Conn → ℕ → Bool
mine c id = if id % 2 == 0 then is_server c.role else not (is_server c.role)

unfoldable pub close_each : Reason → List (ℕ × ℕ) → Conn → Conn
close_each e [] c = c
close_each e (j ∷ js) c = close_each e js (close_queue e j.1 c)

unfoldable pub fail : Reason → Conn → Conn
fail e c = elim c.err [
  | some first ↦ c
  | none ↦ close_each e c.jobs (record c { err = some e; jobs = [] })
]

-- What `dispatch` asks of the read loop: to go on, to start a goroutine on a job, or to end.
pub data Dispatched : Type 0 where
  goes_on : Dispatched
  serves : Message → (queue : ℕ) → Dispatched
  ends : Reason → Dispatched

unfoldable pub begun : Message → Opened × Conn → Dispatched × Conn
begun m (Opened.opened id n, c) = (Dispatched.serves m n, c)
begun m (Opened.refused e, c) = (Dispatched.ends e, c)

-- `start` of the request `m` for the job `id`.
unfoldable pub start : ℕ → Message → Conn → Dispatched × Conn
start id m c =
    if mine c id then (Dispatched.ends (Reason.not_theirs id), c) else begun m (open_job id c)

unfoldable pub deliver : ℕ → Message → Conn → Conn
deliver id m c = elim (lookup id c.jobs) [
  | none ↦ c
  | some n ↦ record c { queue = set_queue c.queue n (push m (c.queue n)) }
]

unfoldable pub jobbed : Option ℕ → Message → Conn → Dispatched × Conn
jobbed none m c = (Dispatched.ends (Reason.no_job (kind m)), c)
jobbed (some id) m c = (Dispatched.goes_on, deliver id m c)

unfoldable pub dispatch : Message → Conn → Dispatched × Conn
dispatch Message.ping c = (Dispatched.goes_on, record c { pongs = true })
dispatch Message.pong c = (Dispatched.goes_on, c)
dispatch (Message.hello name ps) c = (Dispatched.ends Reason.hello_in_session, c)
dispatch (Message.request id service method target hs) c =
    start id (Message.request id service method target hs) c
dispatch m c = jobbed (job_id m) m c
