-- ===== src/Peer/Tests.antt =====
-- Runs of a queue, of a body and of the jobs of a connection.
pub mod Server
use httppooler.Base.{◌≡◌, ◌≢◌, ◌⊎◌, inl, refl, arith, none, List, [], ◌∷◌, ◌++◌}
use httppooler.Wire.Message.{Role, Message}
use httppooler.Wire.Encode.{new_encoder}
use httppooler.Peer.Reason.{Reason}
use httppooler.Peer.Queue.{Polled, Act, new_job_queue, next, acts}
use httppooler.Peer.Queue.Wakeups.{IsSeen, no_lost_wakeup}
use httppooler.Peer.Queue.Delivery.{accepted, first_close, received, queue_delivers}
use httppooler.Peer.Job.{HasCancel, watch_cancel, watch_cancel_lem}
use httppooler.Peer.Body.{Line, send_body_end}
use httppooler.Peer.Body.Sent.{Carried, send_body_end-collect}
use httppooler.Peer.Conn.{Conn, new_conn, new_job, fail}
use httppooler.Peer.Conn.Ids.{Failed, fail_lem, Answered, new_job_lem, new_conn-IsNumbered}

abbrev life : List Act
life = Act.pushes (Message.cancel 1) ∷ Act.polls ∷ Act.closes Reason.net_closed ∷ []

empty_blocks : (next new_job_queue).0 ≡ Polled.blocked 0
unfolding next new_job_queue
empty_blocks = refl

no_lost_wakeup_example : IsSeen 0 (acts life (next new_job_queue).1)
no_lost_wakeup_example = no_lost_wakeup 0 new_job_queue life empty_blocks

queue_delivers_example :
    (received life new_job_queue ++ (acts life new_job_queue).items ≡ accepted life)
    × ((acts life new_job_queue).err ≡ first_close life)
queue_delivers_example = queue_delivers life

abbrev noise : List Message
noise = Message.body 3 (1 ∷ []) ∷ Message.cancel 3 ∷ []

watch_cancel_lem_example :
    (HasCancel noise × (watch_cancel noise Reason.job_ended ≡ Reason.cancelled))
    ⊎ ((¬ HasCancel noise) × (watch_cancel noise Reason.job_ended ≡ Reason.job_ended))
watch_cancel_lem_example = watch_cancel_lem noise Reason.job_ended

abbrev pub steady : Line
steady = record { deadline = λ n. none; answer = λ n. none }

send_body_end-collect_example :
    Carried 2
      (7 ∷ 8 ∷ [])
      []
      (new_encoder Role.server)
      (send_body_end steady 2 (7 ∷ 8 ∷ []) [] (new_encoder Role.server))
unfolding new_encoder
send_body_end-collect_example =
    send_body_end-collect steady 2 (7 ∷ 8 ∷ []) [] (new_encoder Role.server) (λ n. (refl, refl))
      (omega arith) (omega arith, tt) (inl refl)

abbrev pub conn : Conn
conn = new_conn Role.server [] (λ n. new_job_queue)

new_job_lem_example : Answered conn (new_job conn)
new_job_lem_example = new_job_lem conn (new_conn-IsNumbered Role.server [] (λ n. new_job_queue))

fail_lem_example :
    Failed Reason.net_closed (new_job conn).1 (fail Reason.net_closed (new_job conn).1)
    ⊎ (((new_job conn).1.err ≢ none) × (fail Reason.net_closed (new_job conn).1 ≡ (new_job conn).1))
fail_lem_example = fail_lem Reason.net_closed (new_job conn).1
