-- ===== src/Api/Scans.antt =====
-- The handlers of scan jobs, over `SQLiteJobRepository`, whose methods the other repository refines.
-- Before each call of the repository in a stream of events, other processes commit calls of theirs.
pub mod Slices
pub mod Stream
use shared_integration.Prelude.{
  ℕ, zero, suc, ◌+◌, String, ◌<>◌, Bool, true, false, not, ◌&&◌, ◌||◌, Option, none, some, List, [],
  ◌∷◌, ◌++◌, map, leb, ltb, if◌then◌else◌, length, codes, str_eq,
}
use shared_integration.Json.{Fields}
use shared_integration.Result.{Result, ok, err, Error}
use shared_integration.Core.{Source}
use shared_integration.Jobs.{Job, Event, Status, failed as job_failed, terminal}
use shared_integration.Jobs.Sqlite.{
  Store, NewJob, Outcome, get, create, set_dispatch_id, transition, request_cancel, list_events,
  list_jobs, JobFilter,
}
use shared_integration.Jobs.Sqlite.Invariant.{Op, run}
use shared_integration.Api.{Reply, replied, failed, ErrorReply, error}

-- The dispatcher and the adapters: what `submit` answers, or the text of what it raises; the sources
-- that have an adapter; and the text of a source.
pub record Platform : Type 0 where
  pub submit : Job → Result {0} String
  pub has_adapter : Source → Bool
  pub value : Source → String
  pub message : Error → String

pub record ScanRequest : Type 0 where
  pub tenant_id : String
  pub request_id : String
  pub idempotency_key : Option String
  pub source : Source
  pub payload : Fields

abbrev pub key_ok : Option String → Bool
key_ok none = true
key_ok (some k) = leb 1 (length (codes k)) && leb (length (codes k)) 128

abbrev pub new_job : ScanRequest → NewJob
new_job r = record {
  tenant_id = r.tenant_id;
  source = r.source;
  payload = r.payload;
  idempotency_key = r.idempotency_key;
}

abbrev pub dispatch_failed : String → Outcome
dispatch_failed m = record {
  status = job_failed;
  result_count = none;
  error_code = some "DISPATCH_FAILED";
  error_message = some m;
}

-- An answer of the handler, or an exception that leaves it.
abbrev pub Handled : Type 0 → Type 0
Handled A = Result (Reply A) × Store

abbrev pub undispatched : ScanRequest → ℕ → Job → String → Store → Handled Job
undispatched r now job m s =
    let (settled, s') = transition r.tenant_id job.id (dispatch_failed m) now s in answer settled s'
  where
    answer : Result Job → Store → Handled Job
    answer (err e) s' = (err e, s')
    answer (ok x) s' = (
      ok (
          failed (record (error 503 "DISPATCH_FAILED" "The scan could not be queued" r.request_id) {
            job_id = some x.id;
            retryable = true;
          })),
      s',
    )

abbrev pub dispatched : Platform → ScanRequest → ℕ → Job → Result {0} String → Store → Handled Job
dispatched p r now job (err e) s = undispatched r now job (p.message e) s
dispatched p r now job (ok dispatch_id) s =
    let s' = set_dispatch_id r.tenant_id job.id dispatch_id now s in
    elim (get r.tenant_id job.id s') [
      | none ↦ undispatched r now job "scan job disappeared" s'
      | some x ↦ (ok (replied 202 x), s')
    ]

abbrev pub after_create : Platform → ScanRequest → ℕ → Result (Job × Bool) → Store → Handled Job
after_create p r now (err e) s = (err e, s)
after_create p r now (ok (job, created)) s =
    if created then dispatched p r now job (p.submit job) s else (ok (replied 200 job), s)

-- `create_scan`
unfoldable pub create_scan : Platform → ScanRequest → ℕ → String → Store → Handled Job
create_scan p r now id s =
    if not (key_ok r.idempotency_key)
    then (
      ok (
          failed (
            error 400 "INVALID_IDEMPOTENCY_KEY" "Idempotency-Key must contain 1 to 128 characters"
              r.request_id)),
      s,
    )
    else if not (p.has_adapter r.source)
    then (
      ok (
          failed (
            error 404 "UNKNOWN_SOURCE" ("No adapter registered for " <> p.value r.source)
              r.request_id)),
      s,
    )
    else (let (made, s') = create (new_job r) now id s in after_create p r now made s')

abbrev pub no_job : String → String → ErrorReply
no_job request j = record (error 404 "JOB_NOT_FOUND" "Scan job not found" request) {
  job_id = some j;
}

-- `get_scan`
unfoldable pub get_scan : String → String → String → Store → Reply Job
get_scan request t j s = elim (get t j s) [
  | none ↦ failed (no_job request j)
  | some x ↦ replied 200 x
]

-- `list_scans`
unfoldable pub list_scans : String → JobFilter → ℕ → Store → List Job
list_scans t f limit s = list_jobs t f limit s

abbrev pub cancelled_scan : Result Job → Result (Reply Job)
cancelled_scan (err e) = err e
cancelled_scan (ok x) = ok (replied 200 x)

-- `cancel_scan`
unfoldable pub cancel_scan : String → String → String → ℕ → Store → Handled Job
cancel_scan request t j now s = elim (get t j s) [
  | none ↦ (ok (failed (no_job request j)), s)
  | some _ ↦ (let (asked, s') = request_cancel t j now s in (cancelled_scan asked, s'))
]

-- What other processes commit before the two calls of a round of `event_stream`.
pub record Round : Type 0 where
  pub before_list : List Op
  pub before_get : List Op

pub data Chunk : Type 0 where
  event : Event → Chunk
  heartbeat : Chunk

-- What a client has been sent after some rounds, whether the stream has ended, and the store at
-- the last look at the log.
pub record Streamed : Type 0 where
  pub chunks : List Chunk
  pub ended : Bool
  pub log : Store

unfoldable pub last_sequence : ℕ → List Event → ℕ
last_sequence n [] = n
last_sequence n (e ∷ es) = last_sequence e.sequence es

abbrev pub is_over : Option Job → List Event → Bool
is_over none events = true
is_over (some x) [] = terminal x.status
is_over (some x) (e ∷ es) = false

abbrev pub idle_after : ℕ → List Event → ℕ
idle_after idle [] = idle + 1
idle_after idle (e ∷ es) = 0

abbrev pub beat : ℕ → List Chunk
beat idle = if leb 60 idle then heartbeat ∷ [] else []

-- `event_stream`, whose `list_events` has the default limit.
unfoldable pub event_stream : String → String → List Round → ℕ → ℕ → Store → Streamed
unfolding last_sequence
event_stream t j [] sequence idle s = record { chunks = []; ended = false; log = s }
event_stream t j (r ∷ rs) sequence idle s =
    let listed = run s r.before_list in
    let events = list_events t j sequence 1000 listed in
    let s' = run listed r.before_get in
    let idle' = idle_after idle events in
    let rest =
      event_stream t j rs (last_sequence sequence events) (if leb 60 idle' then 0 else idle') s' in
    if is_over (get t j s') events
    then record { chunks = map event events; ended = true; log = listed }
    else record rest { chunks = map event events ++ (beat idle' ++ rest.chunks) }

-- `int(last_event_id or "0")`, at least 0; `int` gives `none` where Python's raises, and 0 below it.
abbrev pub last_event_id : (String → Option ℕ) → Option String → Option ℕ
last_event_id int none = some 0
last_event_id int (some text) = if str_eq text "" then some 0 else int text

-- `scan_events`
unfoldable pub scan_events :
    (String → Option ℕ)
    → String
    → String
    → String
    → Option String
    → List Round
    → Store
    → Reply Streamed
unfolding event_stream
scan_events int request t j header rounds s = elim (get t j s) [
  | none ↦ failed (no_job request j)
  | some _ ↦ elim (last_event_id int header) [
    | none ↦
        failed (record (error 400 "INVALID_EVENT_ID" "Last-Event-ID must be an integer" request) {
          job_id = some j;
        })
    | some after ↦ replied 200 (event_stream t j rounds after 0 s)
  ]
]
