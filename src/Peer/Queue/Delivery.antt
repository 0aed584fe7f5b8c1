-- ===== src/Peer/Queue/Delivery.antt =====
-- What a queue hands out: the messages of its life, in order, and then the reason of its end.
use httppooler.Base.{
  suc, ◌≡◌, refl, sym, ap, subst, ◌∙◌, Option, none, some, List, [], ◌∷◌, ◌++◌, arith, append_assoc,
  append-nil,
}
use httppooler.Wire.Message.{Message}
use httppooler.Peer.Reason.{Reason}
use httppooler.Peer.Queue.{JobQueue, Polled, Act, new_job_queue, wake, push, close, next, act, acts}

-- The messages that came before the first close, and its reason.
abbrev pub accepted : List Act → List Message
accepted [] = []
accepted (Act.pushes m ∷ xs) = m ∷ accepted xs
accepted (Act.closes e ∷ xs) = []
accepted (Act.polls ∷ xs) = accepted xs

abbrev pub first_close : List Act → Option Reason
first_close [] = none
first_close (Act.pushes m ∷ xs) = first_close xs
first_close (Act.closes e ∷ xs) = some e
first_close (Act.polls ∷ xs) = first_close xs

abbrev pub got_of : Polled → List Message
got_of (Polled.got m) = m ∷ []
got_of (Polled.ended e) = []
got_of (Polled.blocked r) = []

-- The messages that the polls of a run returned.
unfoldable pub received : List Act → JobQueue → List Message
received [] q = []
received (Act.polls ∷ xs) q = got_of (next q).0 ++ received xs (next q).1
received (Act.pushes m ∷ xs) q = received xs (push m q)
received (Act.closes e ∷ xs) q = received xs (close e q)

-- What a run from `q` returns and leaves is `all`, and `err` is the reason it leaves.
abbrev Left : List Act → JobQueue → List Message → Option Reason → Type 0
Left xs q all err = (received xs q ++ (acts xs q).items ≡ all) × ((acts xs q).err ≡ err)

abbrev Open : List Act → JobQueue → Type 0
Open xs q = Left xs q (q.items ++ accepted xs) (first_close xs)

abbrev Shut : List Act → JobQueue → Reason → Type 0
Shut xs q e = Left xs q q.items (some e)

next_got :
    (q : JobQueue) → (got_of (next q).0 ++ (next q).1.items ≡ q.items) × ((next q).1.err ≡ q.err)
unfolding next
next_got q = ground arith

abbrev pushed : Message → JobQueue → JobQueue
pushed m q = record { items = q.items ++ m ∷ []; err = none; ready = suc q.ready }

pub push-open : (m : Message) (q : JobQueue) → q.err ≡ none → push m q ≡ pushed m q
unfolding push wake
push-open m q h = ground arith

pub push-shut : (m : Message) (q : JobQueue) (e : Reason) → q.err ≡ some e → push m q ≡ q
unfolding push
push-shut m q e h = ground arith

pub close-shut : (x : Reason) (q : JobQueue) (e : Reason) → q.err ≡ some e → close x q ≡ q
unfolding close
close-shut x q e h = ground arith

pub close-err : (x : Reason) (q : JobQueue) → q.err ≡ none → (close x q).err ≡ some x
unfolding close wake
close-err x q h = ground arith

pub close-items : (x : Reason) (q : JobQueue) → (close x q).items ≡ q.items
unfolding close wake
close-items x q = ground arith

shut : (xs : List Act) (q : JobQueue) (e : Reason) → q.err ≡ some e → Shut xs q e
unfolding received acts act push close
shut [] q e h = (refl, h)
shut (Act.pushes m ∷ xs) q e h =
    subst (λ r. Left xs r q.items (some e)) (sym (push-shut m q e h)) (shut xs q e h)
shut (Act.closes x ∷ xs) q e h =
    subst (λ r. Left xs r q.items (some e)) (sym (close-shut x q e h)) (shut xs q e h)
shut (Act.polls ∷ xs) q e h =
    let (items, err) = next_got q in
    let (left, last) = shut xs (next q).1 e (err ∙ h) in
    (
      append_assoc (got_of (next q).0) (received xs (next q).1) _
          ∙ ap (λ x. got_of (next q).0 ++ x) left
          ∙ items,
      last,
    )

while-Open : (xs : List Act) (q : JobQueue) → q.err ≡ none → Open xs q
unfolding received acts act
while-Open [] q h = (refl ∙ sym (append-nil q.items), h)
while-Open (Act.pushes m ∷ xs) q h =
    let (left, last) = while-Open xs (pushed m q) refl in
    subst (λ r. Left xs r (q.items ++ m ∷ accepted xs) (first_close xs)) (sym (push-open m q h))
      (left ∙ append_assoc q.items (m ∷ []) (accepted xs), last)
while-Open (Act.closes x ∷ xs) q h =
    let (left, last) = shut xs (close x q) x (close-err x q h) in
    (left ∙ close-items x q ∙ sym (append-nil q.items), last)
while-Open (Act.polls ∷ xs) q h =
    let (items, err) = next_got q in
    let (left, last) = while-Open xs (next q).1 (err ∙ h) in
    (
      append_assoc (got_of (next q).0) (received xs (next q).1) _
          ∙ ap (λ x. got_of (next q).0 ++ x) left
          ∙ sym (append_assoc (got_of (next q).0) (next q).1.items (accepted xs))
          ∙ ap (λ x. x ++ accepted xs) items,
      last,
    )

-- Over any run of a new queue, what its polls returned and what it still holds are together the
-- messages pushed before the first close, in order and each once; and its reason is that close's.
pub queue_delivers :
    (xs : List Act)
    → (received xs new_job_queue ++ (acts xs new_job_queue).items ≡ accepted xs)
      × ((acts xs new_job_queue).err ≡ first_close xs)
queue_delivers xs = unfold new_job_queue in while-Open xs new_job_queue refl
