-- ===== src/Findings/Lifecycle.antt =====
-- `SQLAlchemyTenantFindingRegistry` of src/shared_integration/finding_lifecycle.py, over the tables
-- that it writes. A method runs in one transaction, and an exception rolls it back. The queues of
-- the subscribers are left out.
pub mod Editing
pub mod Listing
pub mod Linking
pub mod Pages
pub mod Paging
pub mod Rows
pub mod Invariant
pub mod Occurrences
pub mod Counted
pub mod Stale
use shared_integration.Prelude.{
  ℕ, zero, suc, ◌+◌, max, min, String, Bool, true, false, not, ◌&&◌, ◌||◌, Option, none, some, List,
  [], ◌∷◌, ◌++◌, map, str_eq, ltb, leb, ◌==◌, if◌then◌else◌, find, any, select, update, sort_by,
  take, length,
}
use shared_integration.Json.{Json, Fields, field, text, null, obj, end}
use shared_integration.Result.{Result, ok, err, Error, ◌>>=◌, integrity_error, value_error}
use shared_integration.Core.{Source, source_eq, Severity}
use shared_integration.Correlations.{rank}
use shared_integration.Jobs.{opt_text}
use shared_integration.Jobs.Sql.{Tenant, Audit, ensure_tenant}
use shared_integration.Findings.{Finding, Digests, finding_fingerprint, merge_findings}

-- `FindingStatus`
pub data Status : Type 0 where
  opened confirmed resolved false_positive accepted_risk : Status

abbrev pub status_value : Status → String
status_value opened = "open"
status_value confirmed = "confirmed"
status_value resolved = "resolved"
status_value false_positive = "false_positive"
status_value accepted_risk = "accepted_risk"

abbrev pub status_eq : Status → Status → Bool
status_eq opened opened = true
status_eq confirmed confirmed = true
status_eq resolved resolved = true
status_eq false_positive false_positive = true
status_eq accepted_risk accepted_risk = true
status_eq _ _ = false

-- A row of `findings`.
pub record Row : Type 0 where
  pub row_id : ℕ
  pub tenant_id : String
  pub finding_id : String
  pub fingerprint : String
  pub source : Source
  pub severity : Severity
  pub confidence : ℕ
  pub status : Status
  pub asset : Option String
  pub cve : Option String
  pub title : String
  pub description : String
  pub first_seen : ℕ
  pub last_seen : ℕ
  pub occurrences : ℕ
  pub job_id : Option String
  pub assigned_to : Option String
  pub payload : Finding
  pub created_at : ℕ
  pub updated_at : ℕ

pub record Db : Type 0 where
  pub rows : List Row
  pub tenants : List Tenant
  pub audits : List Audit

-- What a call draws: the times of its two calls of the clock, how many ids the sequence of the
-- database had handed out, and the id of an audit event. Of two transactions the one that drew the
-- smaller id may commit later, so nothing relates an id to the rows that are there.
pub record Draw : Type 0 where
  pub seen_now : ℕ
  pub now : ℕ
  pub serial : ℕ
  pub audit_id : String

abbrev pub seen_at : Finding → Draw → ℕ
seen_at f d = elim f.ts [ none ↦ d.seen_now | some t ↦ t ]

abbrev pub has_print : String → String → Row → Bool
has_print t fp r = str_eq r.tenant_id t && str_eq r.fingerprint fp

abbrev pub has_id : String → String → Row → Bool
has_id t i r = str_eq r.tenant_id t && str_eq r.finding_id i

-- The unique constraints of `findings`, and its primary key.
abbrev pub clashes : Row → Row → Bool
clashes new r =
    has_print new.tenant_id new.fingerprint r
    || (has_id new.tenant_id new.finding_id r || (new.row_id == r.row_id))

abbrev pub new_row : String → String → Finding → Option String → Draw → Row
new_row t fp f job d = record {
  row_id = d.serial + 1;
  tenant_id = t;
  finding_id = f.id;
  fingerprint = fp;
  source = f.source;
  severity = f.severity;
  confidence = f.confidence;
  status = opened;
  asset = f.host;
  cve = f.cve;
  title = f.title;
  description = f.description;
  first_seen = seen_at f d;
  last_seen = seen_at f d;
  occurrences = 1;
  job_id = job;
  assigned_to = none;
  payload = f;
  created_at = d.now;
  updated_at = d.now;
}

-- A table is the list of its rows in the order of their ids, in which a new row takes its place.
unfoldable pub placed : Row → List Row → List Row
placed new [] = new ∷ []
placed new (r ∷ rs) =
    let rest = placed new rs in if ltb new.row_id r.row_id then new ∷ r ∷ rs else r ∷ rest

-- `job_id or row.job_id`
abbrev pub or_text : Option String → Option String → Option String
or_text none old = old
or_text (some s) old = if str_eq s "" then old else some s

-- A finding that is seen again.
abbrev pub seen_again : Finding → Option String → Draw → Row → Row
seen_again f job d r =
    let merged : Finding = merge_findings r.payload f in
    record r {
      severity = merged.severity;
      confidence = merged.confidence;
      description = merged.description;
      last_seen = max r.last_seen (seen_at f d);
      first_seen = min r.first_seen (seen_at f d);
      occurrences = r.occurrences + 1;
      job_id = or_text job r.job_id;
      payload = merged;
      updated_at = d.now;
    }

-- The same where the transaction failed on a constraint.
abbrev pub recovered : Finding → Draw → Row → Row
recovered f d r = record r {
  occurrences = r.occurrences + 1;
  last_seen = max r.last_seen (seen_at f d);
  payload = merge_findings r.payload f;
  updated_at = d.now;
}

-- Attributes of a loaded row are written back to the row of its primary key.
abbrev pub write_row : Row → (Row → Row) → Db → Db
write_row r f db = record db { rows = update (λ x. x.row_id == r.row_id) f db.rows }

unfoldable pub recover : String → String → Finding → Draw → Db → Result Finding × Db
recover t fp f d db = elim (find (has_print t fp) db.rows) [
  | none ↦ (err integrity_error, db)
  | some r ↦ (ok (merge_findings r.payload f), write_row r (recovered f d) db)
]

-- The transaction of `_store_finding`, whose `SELECT` has found `seen`.
abbrev pub write :
    String
    → String
    → Finding
    → Option String
    → Draw
    → Option Row
    → List Tenant
    → Db
    → Result Finding × Db
write t fp f job d none tenants db =
    if any (clashes (new_row t fp f job d)) db.rows
    then recover t fp f d db
    else (ok f, record db { rows = placed (new_row t fp f job d) db.rows; tenants = tenants })
write t fp f job d (some r) tenants db =
    let db' : Db = write_row r (seen_again f job d) db in
    (ok (merge_findings r.payload f), record db' { tenants = tenants })

unfoldable pub store_finding :
    Digests → String → Finding → Option String → Draw → Db → Result Finding × Db
unfolding recover placed
store_finding D t f job d db =
    let fp = finding_fingerprint D f in
    elim (ensure_tenant t d.now db.tenants) [
      | none ↦ recover t fp f d db
      | some tenants ↦ write t fp f job d (find (has_print t fp) db.rows) tenants db
    ]

-- The same where the `SELECT` ran before another transaction inserted the finding.
unfoldable pub store_late :
    Digests → String → Finding → Option String → Draw → Db → Result Finding × Db
unfolding recover placed
store_late D t f job d db =
    let fp = finding_fingerprint D f in
    elim (ensure_tenant t d.now db.tenants) [
      | none ↦ recover t fp f d db
      | some tenants ↦ write t fp f job d none tenants db
    ]
