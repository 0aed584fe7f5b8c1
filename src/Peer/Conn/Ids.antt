-- ===== src/Peer/Conn/Ids.antt =====
-- The ids of a connection's jobs, and its failure.
use httppooler.Base.{
  ℕ, ◌+◌, ◌%◌, ◌^◌, ◌≡◌, ◌≢◌, ◌⊎◌, inl, inr, refl, sym, ap, ◌∙◌, true, none, some, List, [], ◌∷◌,
  ◌==◌, arith, Option-cases, Bool-cases, All, subst,
}
use httppooler.Wire.Message.{Role}
use httppooler.Peer.Reason.{Reason}
use httppooler.Peer.Queue.{JobQueue, new_job_queue, close, wake}
use httppooler.Peer.Conn.{
  Conn, Opened, lookup, set_queue, forget, put_job, new_job, mine, close_queue, close_each, fail,
  new_conn,
}
use httppooler.Peer.Queue.Delivery.{close-err, close-shut}

-- Whether the queue `n` is closed.
abbrev pub IsShut : ℕ → Conn → Type 0
IsShut n c = (e : Reason) × ((c.queue n).err ≡ some e)

set_queue-same : (f : ℕ → JobQueue) (n : ℕ) (q : JobQueue) → set_queue f n q n ≡ q
set_queue-same f n q = ground arith

set_queue-other : (f : ℕ → JobQueue) (k n : ℕ) (q : JobQueue) → k ≢ n → set_queue f k q n ≡ f n
set_queue-other f k n q h = ground arith

-- A closed queue stays closed.
close-some : (e : Reason) (q : JobQueue) → (x : Reason) × ((close e q).err ≡ some x)
unfolding close wake
close-some e q = elim (Option-cases q.err) [
  | inl h ↦ (e, close-err e q h)
  | inr (x, h) ↦ (x, ap (λ (r : JobQueue). r.err) (close-shut e q x h) ∙ h)
]

close_queue-IsShut : (e : Reason) (n : ℕ) (c : Conn) → IsShut n (close_queue e n c)
unfolding close_queue
close_queue-IsShut e n c =
    let (x, h) = close-some e (c.queue n) in
    (x, ap (λ (r : JobQueue). r.err) (set_queue-same c.queue n (close e (c.queue n))) ∙ h)

close_queue-kept : (e : Reason) (k n : ℕ) (c : Conn) → IsShut n c → IsShut n (close_queue e k c)
unfolding close_queue
close_queue-kept e k n c (x, h) = elim (Bool-cases (k == n)) [
  | inl same ↦
      let here : k ≡ n = ground (arith, same) in
      subst (λ m. IsShut n (close_queue e m c)) (sym here) (close_queue-IsShut e n c)
  | inr ne ↦ (
    x,
    ap (λ (r : JobQueue). r.err)
          (set_queue-other c.queue k n (close e (c.queue k)) (λ p. ground (arith, p, ne)))
        ∙ h,
  )
]

close_each-kept :
    (e : Reason) (js : List (ℕ × ℕ)) (n : ℕ) (c : Conn) → IsShut n c → IsShut n (close_each e js c)
unfolding close_each
close_each-kept e [] n c s = s
close_each-kept e (j ∷ js) n c s =
    close_each-kept e js n (close_queue e j.1 c) (close_queue-kept e j.1 n c s)

close_each-IsShut :
    (e : Reason) (js : List (ℕ × ℕ)) (c : Conn) → All (λ j. IsShut j.1 (close_each e js c)) js
unfolding close_each
close_each-IsShut e [] c = tt
close_each-IsShut e (j ∷ js) c = (
  close_each-kept e js j.1 (close_queue e j.1 c) (close_queue-IsShut e j.1 c),
  close_each-IsShut e js (close_queue e j.1 c),
)

-- The rest of the state that `close_each` does not touch.
close_each-rest :
    (e : Reason) (js : List (ℕ × ℕ)) (c : Conn)
    → ((close_each e js c).jobs ≡ c.jobs) × ((close_each e js c).err ≡ c.err)
unfolding close_each close_queue
close_each-rest e [] c = (refl, refl)
close_each-rest e (j ∷ js) c = close_each-rest e js (close_queue e j.1 c)

abbrev failing : Reason → Conn → Conn
failing e c = close_each e c.jobs (record c { err = some e; jobs = [] })

fail-failing : (e : Reason) (c : Conn) → c.err ≡ none → fail e c ≡ failing e c
unfolding fail
fail-failing e c h = rw (fail, h)

-- The failed connection `r` that a live one `c` becomes.
abbrev pub Failed : Reason → Conn → Conn → Type 0
Failed e c r = (c.err ≡ none) × (r.jobs ≡ []) × (r.err ≡ some e) × All (λ j. IsShut j.1 r) c.jobs

-- The first failure of a connection empties its map, keeps the reason, and closes the queue of every
-- job in the map; a later one, on a connection that has failed, changes nothing.
pub fail_lem : (e : Reason) (c : Conn) → Failed e c (fail e c) ⊎ ((c.err ≢ none) × (fail e c ≡ c))
fail_lem e c = elim (Option-cases c.err) [
  | inl h ↦
      let (jobs, err) = close_each-rest e c.jobs (record c { err = some e; jobs = [] }) in
      inl (
        subst (Failed e c) (sym (fail-failing e c h))
          (h, jobs, err, close_each-IsShut e c.jobs (record c { err = some e; jobs = [] })))
  | inr (x, h) ↦ inr ((λ n. cc (n, h)), unfold fail in rw h)
]

-- Its own jobs have the ids of one parity: a server's are even, a client's odd.
abbrev pub IsNumbered : Conn → Type 0
IsNumbered c = mine c c.next_job ≡ true

pub new_conn-IsNumbered :
    (role : Role) (peer : List ℕ) (queue : ℕ → JobQueue) → IsNumbered (new_conn role peer queue)
unfolding new_conn mine
new_conn-IsNumbered Role.server peer queue = refl
new_conn-IsNumbered Role.client peer queue = refl

-- What a new job gets from a live connection `c`, which becomes `d`.
pub record Numbered (c : Conn) (id n : ℕ) (d : Conn) : Type 0 where
  pub live : c.err ≡ none
  pub numbered : id ≡ c.next_job
  pub ours : mine d id ≡ true
  pub advanced : d.next_job ≡ (id + 2) % 2 ^ 64
  pub fresh_next : d.next_job ≢ id
  pub again : IsNumbered d
  pub found : lookup id d.jobs ≡ some n
  pub empty : d.queue n ≡ new_job_queue
  pub other_jobs : (k : ℕ) → k ≢ id → lookup k d.jobs ≡ lookup k c.jobs
  pub other_queues : (k : ℕ) → k ≢ n → d.queue k ≡ c.queue k
  pub unfailed : d.err ≡ none

-- What `newJob` returns on `c`, and the connection after it.
abbrev pub Answered : Conn → Opened × Conn → Type 0
Answered c (Opened.opened id n, d) = Numbered c id n d
Answered c (Opened.refused e, d) = (c.err ≡ some e) × (d ≡ c)

next-mine :
    (c : Conn) (jobs : List (ℕ × ℕ)) (queue : ℕ → JobQueue) (made : ℕ)
    → IsNumbered c
    → IsNumbered
        (record c { next_job = (c.next_job + 2) % 2 ^ 64; jobs = jobs; queue = queue; made = made })
unfolding mine
next-mine c jobs queue made h = ground (arith, h)

new_job-failed : (c : Conn) (e : Reason) → c.err ≡ some e → new_job c ≡ (Opened.refused e, c)
unfolding new_job
new_job-failed c e x = ground (arith, x)

abbrev numbered_next : Conn → Conn
numbered_next c = record c { next_job = (c.next_job + 2) % 2 ^ 64 }

new_job-live :
    (c : Conn)
    → c.err ≡ none
    → new_job c ≡ (Opened.opened c.next_job c.made, put_job c.next_job (numbered_next c))
unfolding new_job
new_job-live c x = ground (arith, x)

put_job-lookup : (id : ℕ) (c : Conn) → lookup id (put_job id c).jobs ≡ some c.made
unfolding put_job lookup
put_job-lookup id c = ground arith

put_job-queue : (id : ℕ) (c : Conn) → (put_job id c).queue c.made ≡ new_job_queue
unfolding put_job
put_job-queue id c = set_queue-same c.queue c.made new_job_queue

forget-lookup : (id k : ℕ) (js : List (ℕ × ℕ)) → k ≢ id → lookup k (forget id js) ≡ lookup k js
unfolding forget lookup
forget-lookup id k [] h = refl
forget-lookup id k (j ∷ js) h = ground (arith, forget-lookup id k js h, h)

put_job-other : (id k : ℕ) (c : Conn) → k ≢ id → lookup k (put_job id c).jobs ≡ lookup k c.jobs
unfolding put_job lookup
put_job-other id k c h = ground (arith, forget-lookup id k c.jobs h, h)

wrapped_on : (n : ℕ) → (n + 2) % 2 ^ 64 ≢ n
wrapped_on n e = omega (arith, e)

-- Where the next id has this side's parity, `newJob` on a live connection gives that id, and an empty
-- queue that the map has under it; the map has what it had under every other id, and the other
-- queues are as they were. The next id is another then, by two, modulo 2^64, and has the parity again.
-- On a failed connection `newJob` returns the reason and changes nothing.
pub new_job_lem : (c : Conn) → IsNumbered c → Answered c (new_job c)
unfolding put_job mine
new_job_lem c h = elim (Option-cases c.err) [
  | inr (e, x) ↦ subst (Answered c) (sym (new_job-failed c e x)) (x, refl)
  | inl x ↦ subst (Answered c) (sym (new_job-live c x)) (record {
    live = x;
    numbered = refl;
    ours = h;
    advanced = refl;
    fresh_next = wrapped_on c.next_job;
    again = next-mine c c.jobs c.queue c.made h;
    found = put_job-lookup c.next_job (numbered_next c);
    empty = put_job-queue c.next_job (numbered_next c);
    other_jobs = λ k ne. put_job-other c.next_job k (numbered_next c) ne;
    other_queues = λ k ne. set_queue-other c.queue c.made k new_job_queue (λ e. ne (sym e));
    unfailed = x;
  })
]
