-- ===== src/Wire/Error.antt =====
-- The refusals of the wire package: one constructor for each error text, with what it reports.
use httppooler.Base.{ℕ}

-- The word that a text begins with.
pub data What : Type 0 where
  peer_name service method target reason header_name header_value providers : What

-- What a read may end with. `broken` is any error that is not one of io's two.
pub data IoError : Type 0 where
  eof unexpected_eof broken : IoError

pub data Error : Type 0 where
  io : IoError → Error
  writer : Error
  str8_too_long str16_too_long too_many : What → ℕ → Error
  too_many_headers : ℕ → Error
  not_utf8 : What → Error
  job_zero no_slots chunk_empty : Error
  chunk_too_long : ℕ → Error
  bad_status : ℕ → Error
  server_sends_hello hello_twice : Error
  before_hello : (kind : ℕ) → Error
  unknown_kind : ℕ → Error
