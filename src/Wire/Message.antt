-- ===== src/Wire/Message.antt =====
-- message.go: the kinds, the nine messages and their fields.
use httppooler.Base.{ℕ, List, Option, none, some}
use httppooler.Base.Bytes.{Bytes}

abbrev pub kind_hello : ℕ
kind_hello = 0x01

abbrev pub kind_ping : ℕ
kind_ping = 0x02

abbrev pub kind_pong : ℕ
kind_pong = 0x03

abbrev pub kind_request : ℕ
kind_request = 0x10

abbrev pub kind_response : ℕ
kind_response = 0x11

abbrev pub kind_body : ℕ
kind_body = 0x12

abbrev pub kind_end : ℕ
kind_end = 0x13

abbrev pub kind_cancel : ℕ
kind_cancel = 0x14

abbrev pub kind_fail : ℕ
kind_fail = 0x15

pub data Role : Type 0 where
  server client : Role

pub record Header : Type 0 where
  pub name : Bytes
  pub value : Bytes

pub record ProviderInfo : Type 0 where
  pub service : Bytes
  pub max_concurrent : ℕ
  pub priority : ℕ

-- A nil slice and an empty one are one list here: nothing in the package tells them apart.
pub data Message : Type 0 where
  hello : (name : Bytes) → List ProviderInfo → Message
  ping pong : Message
  request : (job : ℕ) (service method target : Bytes) → List Header → Message
  response : (job status : ℕ) → List Header → Message
  body : (job : ℕ) → Bytes → Message
  end : (job : ℕ) → (trailers : List Header) → Message
  cancel : (job : ℕ) → Message
  fail : (job : ℕ) → (reason : Bytes) → Message

-- `Kind()` of each message.
unfoldable pub kind : Message → ℕ
kind (hello name providers) = kind_hello
kind ping = kind_ping
kind pong = kind_pong
kind (request job service method target headers) = kind_request
kind (response job status headers) = kind_response
kind (body job bytes) = kind_body
kind (end job trailers) = kind_end
kind (cancel job) = kind_cancel
kind (fail job reason) = kind_fail

-- `JobID()` of the messages that are `Jobbed`, and `none` for the three that are not.
unfoldable pub job_id : Message → Option ℕ
job_id (hello name providers) = none
job_id ping = none
job_id pong = none
job_id (request job service method target headers) = some job
job_id (response job status headers) = some job
job_id (body job bytes) = some job
job_id (end job trailers) = some job
job_id (cancel job) = some job
job_id (fail job reason) = some job

abbrev pub min_status : ℕ
min_status = 100

abbrev pub max_status : ℕ
max_status = 599
