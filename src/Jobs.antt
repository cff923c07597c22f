-- ===== src/Jobs.antt =====
-- Scan jobs and their events (src/shared_integration/jobs.py). Times are numbers of microseconds.
pub mod Sqlite
pub mod Sql
use shared_integration.Prelude.{ℕ, String, Bool, true, false, Option, none, some, not, str_eq}
use shared_integration.Json.{Json, Fields, text, obj, end, field, null}
use shared_integration.Core.{Source}

pub data Status : Type 0 where
  queued running succeeded failed cancelled timed_out : Status

pub Status-discrete : Discrete Status
Status-discrete = hlevel

-- `JobStatus.terminal`
abbrev pub terminal : Status → Bool
terminal succeeded = true
terminal failed = true
terminal cancelled = true
terminal timed_out = true
terminal queued = false
terminal running = false

abbrev pub status_value : Status → String
status_value queued = "queued"
status_value running = "running"
status_value succeeded = "succeeded"
status_value failed = "failed"
status_value cancelled = "cancelled"
status_value timed_out = "timed_out"

abbrev pub status_eq : Status → Status → Bool
status_eq queued queued = true
status_eq running running = true
status_eq succeeded succeeded = true
status_eq failed failed = true
status_eq cancelled cancelled = true
status_eq timed_out timed_out = true
status_eq _ _ = false

pub record Job : Type 0 where
  pub id : String
  pub tenant_id : String
  pub source : Source
  pub payload : Fields
  pub status : Status
  pub created_at : ℕ
  pub updated_at : ℕ
  pub idempotency_key : Option String
  pub dispatch_id : Option String
  pub attempt : ℕ
  pub cancel_requested : Bool
  pub result_count : ℕ
  pub error_code : Option String
  pub error_message : Option String

pub record Event : Type 0 where
  pub sequence : ℕ
  pub job_id : String
  pub tenant_id : String
  pub kind : String
  pub payload : Fields
  pub created_at : ℕ

-- `if error_code:` holds of a text that is not empty.
abbrev pub truthy : Option String → Bool
truthy none = false
truthy (some s) = not (str_eq s "")

abbrev pub opt_text : Option String → Json
opt_text none = null
opt_text (some s) = text s

-- `{"status": status.value}`
abbrev pub status_payload : Status → Fields
status_payload s = field "status" (text (status_value s)) end

-- `{"code": error_code, "message": error_message}`
abbrev pub error_payload : Option String → Option String → Json
error_payload code message =
    obj (field "code" (opt_text code) (field "message" (opt_text message) end))
