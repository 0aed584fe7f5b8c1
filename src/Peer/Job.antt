-- ===== src/Peer/Job.antt =====
-- job.go: what a job does with the messages that its queue hands out. `ms` are the messages that `next`
-- will return to it, and `last` is the error after them: the close, or its context's end.
use httppooler.Base.{
  ◌≡◌, ◌⊎◌, inl, inr, refl, Bool, true, false, Option, none, some, List, [], ◌∷◌, ◌++◌,
  if◌then◌else◌,
}
use httppooler.Base.Bytes.{Bytes}
use httppooler.Wire.Message.{Header, Message, kind}
use httppooler.Peer.Reason.{Reason}

pub data Collected : Type 0 where
  whole : Bytes → List Header → Collected
  stopped : Reason → Collected

-- The loop of `collect` with the body so far, and the messages that it leaves in the queue.
unfoldable pub collect : Bytes → List Message → Reason → Collected × List Message
collect body [] last = (Collected.stopped last, [])
collect body (Message.body job bytes ∷ ms) last = collect (body ++ bytes) ms last
collect body (Message.end job trailers ∷ ms) last = (Collected.whole body trailers, ms)
collect body (Message.cancel job ∷ ms) last = (Collected.stopped Reason.cancelled, ms)
collect body (m ∷ ms) last = (Collected.stopped (Reason.out_of_step (kind m)), ms)

-- `watchCancel`: the cause that it cancels the job with.
unfoldable pub watch_cancel : List Message → Reason → Reason
watch_cancel [] last = last
watch_cancel (Message.cancel job ∷ ms) last = Reason.cancelled
watch_cancel (m ∷ ms) last = watch_cancel ms last

abbrev is_cancelled : Reason → Bool
is_cancelled Reason.cancelled = true
is_cancelled r = false

abbrev is_cancel_cause : Option Reason → Bool
is_cancel_cause none = false
is_cancel_cause (some r) = is_cancelled r

-- `reason`: what the FAIL of a job says, by the cause its context ended with.
unfoldable pub reason : Option Reason → Reason → Reason
reason cause err =
    if is_cancelled err
    then Reason.cancelled
    else if is_cancel_cause cause
    then Reason.cancelled
    else err

abbrev pub HasCancel : List Message → Type 0
HasCancel [] = ⊥
HasCancel (Message.cancel job ∷ ms) = Unit
HasCancel (m ∷ ms) = HasCancel ms

-- The watcher of a running job ends it as cancelled if a CANCEL is among the messages, whatever else
-- is; without one it takes every message, and ends the job only with the error that comes after them.
pub watch_cancel_lem :
    (ms : List Message) (last : Reason)
    → (HasCancel ms × (watch_cancel ms last ≡ Reason.cancelled))
      ⊎ ((¬ HasCancel ms) × (watch_cancel ms last ≡ last))
unfolding watch_cancel
watch_cancel_lem [] last = inr ((λ x. x), refl)
watch_cancel_lem (Message.cancel job ∷ ms) last = inl (tt, refl)
watch_cancel_lem (m ∷ ms) last = watch_cancel_lem ms last
