-- ===== src/Peer/Reason.antt =====
-- What ends a job, a queue or a connection: one constructor for each error value or text.
use httppooler.Base.{ℕ}
use httppooler.Wire.Error.{Error}

pub data Reason : Type 0 where
  wire : Error → Reason
  cancelled job_ended net_closed context_done deadline : Reason
  hello_in_session : Reason
  no_job out_of_step first_message : (kind : ℕ) → Reason
  running not_theirs : (job : ℕ) → Reason
