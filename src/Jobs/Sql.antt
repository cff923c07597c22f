-- ===== src/Jobs/Sql.antt =====
-- `SQLAlchemyJobRepository` of src/shared_integration/sql_jobs.py, over the tables that it writes: jobs
-- with their queue, job events, tenants and audit events. A method runs in one transaction, and an
-- exception rolls it back. Changing an attribute of a loaded row updates the row of its primary key.
-- The lengths of the columns kind, error_code and dispatch_id in db_models.py are enforced, as by
-- PostgreSQL; texts that the API and the settings bound before they come here are not measured.
pub mod Forget
pub mod Refinement
use shared_integration.Prelude.{
  ℕ, ◌+◌, max, min, String, Bool, true, false, not, ◌&&◌, ◌||◌, Option, none, some, List, [], ◌∷◌,
  ◌++◌, map, length, codes, str_eq, ltb, leb, ◌==◌, if◌then◌else◌, find, any, select, count, update,
  sort_by, take,
}
use shared_integration.Json.{Fields, field, text, end}
use shared_integration.Result.{Result, Error, ok, err, integrity_error, key_error, runtime_error}
use shared_integration.Core.{Source, soc, vuln, lab, code, reverse, firmware, external}
use shared_integration.Jobs.{
  Status, queued, running, terminal, status_eq, status_value, Job, Event, status_payload,
}
use shared_integration.Jobs.Sqlite.{
  is_job, of_job, has_idempotency, clashes, NewJob, queued_row, new_event, push_event, Outcome,
  started, settled, or_else, transition_payload, cancelling, cancel_status, claimable,
  expected_status, JobFilter, matches, newer,
}

pub data Queue : Type 0 where
  fast analysis sandbox : Queue

-- `_QUEUES`
unfoldable pub queue_of : Source → Queue
queue_of soc = fast
queue_of vuln = analysis
queue_of lab = sandbox
queue_of code = analysis
queue_of reverse = sandbox
queue_of firmware = sandbox
queue_of external = analysis

abbrev pub queue_name : Queue → String
queue_name fast = "fast"
queue_name analysis = "analysis"
queue_name sandbox = "sandbox"

-- A row of `jobs`; the columns that the repository leaves at their defaults are left out.
pub record Row : Type 0 where
  pub job : Job
  pub queue : Queue

pub record Tenant : Type 0 where
  pub id : String
  pub slug : String
  pub name : String
  pub status : String
  pub retention_days : ℕ
  pub created_at : ℕ
  pub updated_at : ℕ

pub record Audit : Type 0 where
  pub id : String
  pub tenant_id : String
  pub actor : String
  pub action : String
  pub resource_type : String
  pub resource_id : Option String
  pub request_id : Option String
  pub outcome : String
  pub details : Fields
  pub created_at : ℕ

pub record Db : Type 0 where
  pub rows : List Row
  pub events : List Event
  pub tenants : List Tenant
  pub audits : List Audit

-- The clock and the identifiers that a call draws.
pub record Draw : Type 0 where
  pub now : ℕ
  pub job_id : String
  pub audit_id : String

abbrev pub audit : Draw → String → String → String → Fields → Audit
audit d t action j details = record {
  id = d.audit_id;
  tenant_id = t;
  actor = "system";
  action = action;
  resource_type = "job";
  resource_id = some j;
  request_id = none;
  outcome = "success";
  details = details;
  created_at = d.now;
}

abbrev pub new_tenant : String → ℕ → Tenant
new_tenant t now = record {
  id = t;
  slug = t;
  name = t;
  status = "active";
  retention_days = 90;
  created_at = now;
  updated_at = now;
}

-- `_ensure_tenant`; `none` where the unique slug is another tenant's.
unfoldable pub ensure_tenant : String → ℕ → List Tenant → Option (List Tenant)
ensure_tenant t now tenants =
    if any (λ x. str_eq x.id t) tenants
    then some tenants
    else if any (λ x. str_eq x.slug t) tenants
    then none
    else some (tenants ++ new_tenant t now ∷ [])

unfoldable pub get : String → String → Db → Option Job
get t j db = find (is_job t j) (map (λ r. r.job) db.rows)

unfoldable pub find_by_idempotency_key : String → String → Db → Option Job
find_by_idempotency_key t k db = find (has_idempotency t k) (map (λ r. r.job) db.rows)

unfoldable pub recover : NewJob → Db → Result (Job × Bool)
recover new db = elim new.idempotency_key [
  | none ↦ err integrity_error
  | some k ↦ elim (find_by_idempotency_key new.tenant_id k db) [
    | none ↦ err integrity_error
    | some existing ↦ ok (existing, false)
  ]
]

abbrev pub reload : String → String → Db → Result (Job × Bool)
reload t j db = elim (get t j db) [
  | none ↦ err (runtime_error "created job could not be reloaded")
  | some job ↦ ok (job, true)
]

abbrev pub created_payload : Source → (Source → String) → Fields
created_payload s value =
    field "source" (text (value s)) (field "queue" (text (queue_name (queue_of s))) end)

-- The database after the transaction of `create`; `value` gives a source's text.
abbrev pub inserted : (Source → String) → NewJob → Draw → List Tenant → Db → Db
inserted value new d tenants db = record {
  rows =
      db.rows ++ record { job = queued_row new d.now d.job_id; queue = queue_of new.source } ∷ [];
  events = push_event new.tenant_id d.job_id "status" (status_payload queued) d.now db.events;
  tenants = tenants;
  audits =
      db.audits
      ++ audit d new.tenant_id "job.created" d.job_id (created_payload new.source value) ∷ [];
}

-- `create` from the transaction on.
unfoldable pub insert : (Source → String) → NewJob → Draw → Db → Result (Job × Bool) × Db
insert value new d db = elim (ensure_tenant new.tenant_id d.now db.tenants) [
  | none ↦ (recover new db, db)
  | some tenants ↦
      (let db' : Db = inserted value new d tenants db in
        if any (λ r. clashes (queued_row new d.now d.job_id) r.job) db.rows
        then (recover new db, db)
        else (reload new.tenant_id d.job_id db', db'))
]

abbrev pub idempotent_match : NewJob → Db → Option Job
idempotent_match new db = elim new.idempotency_key [
  | none ↦ none
  | some k ↦ find_by_idempotency_key new.tenant_id k db
]

unfoldable pub create : (Source → String) → NewJob → Draw → Db → Result (Job × Bool) × Db
create value new d db = elim (idempotent_match new db) [
  | some existing ↦ (ok (existing, false), db)
  | none ↦ insert value new d db
]

-- What the database raises for a text that is longer than its column, and whether it is.
abbrev pub value_too_long : Error
value_too_long = runtime_error "value too long for type character varying"

abbrev pub fits : ℕ → String → Bool
fits n s = leb (length (codes s)) n

abbrev pub fits_if_given : ℕ → Option String → Bool
fits_if_given n none = true
fits_if_given n (some s) = fits n s

abbrev pub on_job : (Job → Job) → Row → Row
on_job f r = record r { job = f r.job }

-- `UPDATE` by a condition on the columns, and the flush of a changed row by its primary key.
abbrev pub update_rows : (Job → Bool) → (Job → Job) → List Row → List Row
update_rows p f = update (λ r. p r.job) (on_job f)

abbrev pub has_id : String → Job → Bool
has_id j row = str_eq row.id j

-- `mark_running`
unfoldable pub mark_running : String → String → Bool → ℕ → Db → Result (Option Job) × Db
mark_running t j require_queued now db =
    let p : Job → Bool = claimable t j (expected_status require_queued) in
    let db' : Db = record db { rows = update_rows p (started now) db.rows } in
    let db'' : Db = record db' {
      events = push_event t j "status" (status_payload running) now db.events;
    } in
    if count (λ r. p r.job) db.rows == 1 then (ok (get t j db''), db'') else (ok none, db')

unfoldable pub required : String → String → Db → Result Job
required t j db = elim (get t j db) [ none ↦ err (key_error j) | some job ↦ ok job ]

-- `transition`: a result count that is not given leaves the column as it is.
abbrev pub assigned : Outcome → ℕ → Job → Job
assigned o now row = settled o now (or_else o.result_count row.result_count) row

unfoldable pub transition : String → String → Outcome → Draw → Db → Result Job × Db
transition t j o d db = elim (get t j db) [
  | none ↦ (err (key_error j), db)
  | some current ↦
      (let db' : Db = record db {
        rows = update_rows (has_id current.id) (assigned o d.now) db.rows;
        events = push_event t j "status" (transition_payload o) d.now db.events;
        audits = db.audits ++ audit d t "job.status_changed" j (transition_payload o) ∷ [];
      } in
        if fits_if_given 128 o.error_code
        then (required t j db', db')
        else (err value_too_long, db))
]

unfoldable pub append_event : String → String → String → Fields → ℕ → Db → Result Event × Db
append_event t j kind payload now db = elim (get t j db) [
  | none ↦ (err (key_error j), db)
  | some _ ↦
      if fits 64 kind
      then (
        ok (new_event t j kind payload now db.events),
        record db { events = push_event t j kind payload now db.events },
      )
      else (err value_too_long, db)
]

unfoldable pub list_events : String → String → ℕ → ℕ → Db → List Event
list_events t j after limit db = take limit (
    sort_by (λ a b. leb a.sequence b.sequence)
      (select (λ e. of_job t j e && ltb after e.sequence) db.events))

-- A statement with a text that is too long is refused whether or not it finds the row.
unfoldable pub set_dispatch_id : String → String → String → ℕ → Db → Result {0} Unit × Db
set_dispatch_id t j dispatch now db =
    let write : Job → Job = λ row. record row { dispatch_id = some dispatch; updated_at = now } in
    if fits 128 dispatch
    then (ok tt, record db { rows = update_rows (is_job t j) write db.rows })
    else (err value_too_long, db)

unfoldable pub request_cancel : String → String → Draw → Db → Result Job × Db
request_cancel t j d db = elim (get t j db) [
  | none ↦ (err (key_error j), db)
  | some current ↦
      (let next : Status = cancel_status current.status in
        let db' : Db = record db {
          rows = update_rows (has_id current.id) (cancelling next d.now) db.rows;
          events = push_event t j "cancel_requested" (status_payload next) d.now db.events;
          audits = db.audits ++ audit d t "job.cancel_requested" j (status_payload next) ∷ [];
        } in
        if terminal current.status then (ok current, db) else (required t j db', db'))
]

unfoldable pub list_jobs : String → JobFilter → ℕ → Db → List Job
list_jobs t f limit db =
    take (max 1 (min limit 200)) (sort_by newer (select (matches t f) (map (λ r. r.job) db.rows)))
