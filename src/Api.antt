-- ===== src/Api.antt =====
-- The handlers of src/shared_integration/api_v1.py. A request that has reached a handler carries the
-- tenant and the role that the middleware has set.
pub mod Scans
pub mod Exchange
pub mod Findings
use shared_integration.Identity.Tables.{Detail}
use shared_integration.Prelude.{ℕ, String, Bool, true, false, Option, none, some, List, [], ◌∷◌}

-- `_error`; the response's headers are names and values.
pub record ErrorReply : Type 0 where
  pub status : ℕ
  pub code : String
  pub message : String
  pub request_id : String
  pub job_id : Option String
  pub retryable : Bool
  pub headers : List (String × Detail)

-- A response with a status and a body, or an error.
pub data Reply {ℓ} (A : Type ℓ) : Type ℓ where
  replied : ℕ → A → Reply A
  failed : ErrorReply → Reply A

abbrev pub error : ℕ → String → String → String → ErrorReply
error status code message request = record {
  status = status;
  code = code;
  message = message;
  request_id = request;
  job_id = none;
  retryable = false;
  headers = [];
}
