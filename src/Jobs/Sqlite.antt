-- ===== src/Jobs/Sqlite.antt =====
-- `SQLiteJobRepository` of src/shared_integration/jobs.py. A table is the list of its rows, oldest
-- first. Every method holds the lock and commits before it returns, so each is one step from a
-- store to a store. The clock and the `uuid4` that a method draws are its arguments.
pub mod Events
pub mod Rows
pub mod Lookup
pub mod Invariant
pub mod Claims
pub mod History
pub mod Exclusion
pub mod Idempotency
pub mod Tenants
pub mod Growth
use shared_integration.Prelude.{
  ℕ, suc, ◌+◌, max, min, String, ◌≡◌, Bool, true, false, not, ◌&&◌, ◌||◌, Option, none, some, List,
  [], ◌∷◌, ◌++◌, str_eq, leb, ltb, ◌==◌, if◌then◌else◌, find, any, select, count, update, sort_by,
  take, str_le,
}
use shared_integration.Json.{Fields, field, text, end}
use shared_integration.Result.{Result, ok, err, integrity_error, key_error, runtime_error}
use shared_integration.Core.{Source, source_eq}
use shared_integration.Jobs.{
  Status, queued, running, succeeded, failed, cancelled, timed_out, terminal, status_eq, Job, Event,
  truthy, status_value, status_payload, error_payload,
}

pub record Store : Type 0 where
  pub jobs : List Job
  pub events : List Event

abbrev pub empty : Store
empty = record { jobs = []; events = [] }

-- `WHERE tenant_id = ? AND job_id = ?`
abbrev pub is_job : String → String → Job → Bool
is_job t j row = str_eq row.tenant_id t && str_eq row.id j

abbrev pub of_job : String → String → Event → Bool
of_job t j row = str_eq row.tenant_id t && str_eq row.job_id j

-- `idempotency_key = ?`, which no NULL satisfies
abbrev pub same_key : Option String → String → Bool
same_key none k = false
same_key (some i) k = str_eq i k

abbrev pub has_idempotency : String → String → Job → Bool
has_idempotency t k row = str_eq row.tenant_id t && same_key row.idempotency_key k

-- A row that the unique constraints of `scan_jobs` do not let stand beside the new one.
abbrev pub key_clash : Option String → Option String → Bool
key_clash none k = false
key_clash (some i) k = same_key k i

abbrev pub clashes : Job → Job → Bool
clashes new row =
    str_eq row.id new.id
    || (str_eq row.tenant_id new.tenant_id && key_clash new.idempotency_key row.idempotency_key)

-- `_append_event_locked`: the sequence is one more than the largest of the job.
unfoldable pub max_sequence : List Event → ℕ
max_sequence [] = 0
max_sequence (e ∷ es) = max e.sequence (max_sequence es)

unfoldable pub next_sequence : String → String → List Event → ℕ
unfolding max_sequence
next_sequence t j events = max_sequence (select (of_job t j) events) + 1

abbrev pub new_event : String → String → String → Fields → ℕ → List Event → Event
new_event t j kind payload now events = record {
  sequence = next_sequence t j events;
  job_id = j;
  tenant_id = t;
  kind = kind;
  payload = payload;
  created_at = now;
}

abbrev pub push_event : String → String → String → Fields → ℕ → List Event → List Event
push_event t j kind payload now events = events ++ new_event t j kind payload now events ∷ []

abbrev pub with_event : String → String → String → Fields → ℕ → Store → Store
with_event t j kind payload now s = record s { events = push_event t j kind payload now s.events }

unfoldable pub get : String → String → Store → Option Job
get t j s = find (is_job t j) s.jobs

-- `_required_locked`
unfoldable pub required : String → String → Store → Result Job
required t j s = elim (get t j s) [ none ↦ err (key_error j) | some job ↦ ok job ]

unfoldable pub find_by_idempotency_key : String → String → Store → Option Job
find_by_idempotency_key t k s = find (has_idempotency t k) s.jobs

pub record NewJob : Type 0 where
  pub tenant_id : String
  pub source : Source
  pub payload : Fields
  pub idempotency_key : Option String

abbrev pub queued_row : NewJob → ℕ → String → Job
queued_row new now job_id = record {
  id = job_id;
  tenant_id = new.tenant_id;
  source = new.source;
  payload = new.payload;
  status = queued;
  created_at = now;
  updated_at = now;
  idempotency_key = new.idempotency_key;
  dispatch_id = none;
  attempt = 0;
  cancel_requested = false;
  result_count = 0;
  error_code = none;
  error_message = none;
}

-- The `except sqlite3.IntegrityError` branch, after the rollback.
unfoldable pub recover : NewJob → Store → Result (Job × Bool)
unfolding find_by_idempotency_key
recover new s = elim new.idempotency_key [
  | none ↦ err integrity_error
  | some k ↦ elim (find_by_idempotency_key new.tenant_id k s) [
    | none ↦ err integrity_error
    | some existing ↦ ok (existing, false)
  ]
]

abbrev pub reload : String → String → Store → Result (Job × Bool)
reload t j s = elim (get t j s) [
  | none ↦ err (runtime_error "created job could not be reloaded")
  | some job ↦ ok (job, true)
]

-- `create` from the `INSERT` on. Another thread may have written between the look-up of the key
-- and this, so it starts from a store of its own.
unfoldable pub insert : NewJob → ℕ → String → Store → Result (Job × Bool) × Store
unfolding recover
insert new now job_id s =
    let row : Job = queued_row new now job_id in
    let s' : Store =
      with_event new.tenant_id job_id "status" (status_payload queued) now
        (record s { jobs = s.jobs ++ row ∷ [] }) in
    if any (clashes row) s.jobs then (recover new s, s) else (reload new.tenant_id job_id s', s')

abbrev pub idempotent_match : NewJob → Store → Option Job
idempotent_match new s = elim new.idempotency_key [
  | none ↦ none
  | some k ↦ find_by_idempotency_key new.tenant_id k s
]

unfoldable pub create : NewJob → ℕ → String → Store → Result (Job × Bool) × Store
unfolding insert
create new now job_id s = elim (idempotent_match new s) [
  | some existing ↦ (ok (existing, false), s)
  | none ↦ insert new now job_id s
]

-- `mark_running`; `none` where no row was updated.
abbrev pub claimable : String → String → Status → Job → Bool
claimable t j expected row =
    is_job t j row && (status_eq row.status expected && not row.cancel_requested)

abbrev pub started : ℕ → Job → Job
started now row = record row {
  status = running;
  attempt = row.attempt + 1;
  updated_at = now;
  error_code = none;
  error_message = none;
}

abbrev pub expected_status : Bool → Status
expected_status require_queued = if require_queued then queued else running

abbrev pub some_job : Result Job → Result (Option Job)
some_job (ok job) = ok (some job)
some_job (err e) = err e

unfoldable pub mark_running : String → String → Bool → ℕ → Store → Result (Option Job) × Store
mark_running t j require_queued now s =
    let p : Job → Bool = claimable t j (expected_status require_queued) in
    let s' : Store = record s { jobs = update p (started now) s.jobs } in
    let s'' : Store = with_event t j "status" (status_payload running) now s' in
    if count p s.jobs == 1 then (some_job (required t j s''), s'') else (ok none, s')

-- `transition`
pub record Outcome : Type 0 where
  pub status : Status
  pub result_count : Option ℕ
  pub error_code : Option String
  pub error_message : Option String

abbrev pub or_else {ℓ} : {A : Type ℓ} → Option A → A → A
or_else none d = d
or_else (some a) d = a

abbrev pub transition_payload : Outcome → Fields
transition_payload o =
    if truthy o.error_code
    then field "status" (text (status_value o.status))
        (field "error" (error_payload o.error_code o.error_message) end)
    else status_payload o.status

abbrev pub settled : Outcome → ℕ → ℕ → Job → Job
settled o now n row = record row {
  status = o.status;
  updated_at = now;
  result_count = n;
  error_code = o.error_code;
  error_message = o.error_message;
}

unfoldable pub transition : String → String → Outcome → ℕ → Store → Result Job × Store
transition t j o now s = elim (get t j s) [
  | none ↦ (err (key_error j), s)
  | some current ↦
      (let s' : Store = with_event t j "status" (transition_payload o) now (record s {
        jobs =
            update (is_job t j) (settled o now (or_else o.result_count current.result_count))
              s.jobs;
      }) in
        (required t j s', s'))
]

unfoldable pub append_event : String → String → String → Fields → ℕ → Store → Result Event × Store
append_event t j kind payload now s = elim (get t j s) [
  | none ↦ (err (key_error j), s)
  | some _ ↦ (ok (new_event t j kind payload now s.events), with_event t j kind payload now s)
]

-- `list_events`: after a sequence, in order, at most `limit` of them.
unfoldable pub list_events : String → String → ℕ → ℕ → Store → List Event
list_events t j after limit s = take limit (
    sort_by (λ a b. leb a.sequence b.sequence)
      (select (λ e. of_job t j e && ltb after e.sequence) s.events))

unfoldable pub set_dispatch_id : String → String → String → ℕ → Store → Store
set_dispatch_id t j d now s = record s {
  jobs = update (is_job t j) (λ row. record row { dispatch_id = some d; updated_at = now }) s.jobs;
}

-- `request_cancel`
abbrev pub cancel_status : Status → Status
cancel_status queued = cancelled
cancel_status s = s

abbrev pub cancelling : Status → ℕ → Job → Job
cancelling next now row = record row { cancel_requested = true; status = next; updated_at = now }

unfoldable pub request_cancel : String → String → ℕ → Store → Result Job × Store
request_cancel t j now s = elim (get t j s) [
  | none ↦ (err (key_error j), s)
  | some current ↦
      (let next : Status = cancel_status current.status in
        let s' : Store =
          with_event t j "cancel_requested" (status_payload next) now
            (record s { jobs = update (is_job t j) (cancelling next now) s.jobs }) in
        if terminal current.status then (ok current, s) else (required t j s', s'))
]

-- `list_jobs`: the newest first, at most 200.
pub record JobFilter : Type 0 where
  pub status : Option Status
  pub source : Option Source

abbrev pub matches : String → JobFilter → Job → Bool
matches t f row =
    str_eq row.tenant_id t
    && (elim f.status [ none ↦ true | some st ↦ status_eq row.status st ]
        && elim f.source [ none ↦ true | some so ↦ source_eq row.source so ])

-- `ORDER BY created_at DESC, job_id DESC`
abbrev pub newer : Job → Job → Bool
newer a b = ltb b.created_at a.created_at || (a.created_at == b.created_at && str_le b.id a.id)

unfoldable pub list_jobs : String → JobFilter → ℕ → Store → List Job
list_jobs t f limit s = take (max 1 (min limit 200)) (sort_by newer (select (matches t f) s.jobs))
