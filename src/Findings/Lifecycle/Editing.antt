-- ===== src/Findings/Lifecycle/Editing.antt =====
-- `update_lifecycle` of src/shared_integration/finding_lifecycle.py, and the records it answers with.
use shared_integration.Prelude.{
  ℕ, String, Bool, true, false, Option, none, some, [], ◌∷◌, ◌++◌, str_eq, if◌then◌else◌, find,
}
use shared_integration.Json.{Fields, field, text, obj, end}
use shared_integration.Jobs.{opt_text}
use shared_integration.Jobs.Sql.{Audit}
use shared_integration.Findings.{Finding}
use shared_integration.Findings.Lifecycle.{
  Row, Db, Draw, Status, status_value, status_eq, has_id, write_row,
}

-- `update_lifecycle`; the outer `none` of `assigned` stands for `_UNSET`.
abbrev pub status_changes : Option Status → Row → Fields → Fields
status_changes none r rest = rest
status_changes (some s) r rest =
    if status_eq s r.status
    then rest
    else field "status"
        (obj (field "from" (text (status_value r.status)) (field "to" (text (status_value s)) end)))
        rest

abbrev pub opt_eq : Option String → Option String → Bool
opt_eq none none = true
opt_eq (some a) (some b) = str_eq a b
opt_eq _ _ = false

abbrev pub assigned_changes : Option (Option String) → Row → Fields
assigned_changes none r = end
assigned_changes (some a) r =
    if opt_eq a r.assigned_to
    then end
    else field "assigned_to"
        (obj (field "from" (opt_text r.assigned_to) (field "to" (opt_text a) end))) end

abbrev pub or_status : Option Status → Status → Status
or_status none old = old
or_status (some s) old = s

abbrev pub or_assigned : Option (Option String) → Option String → Option String
or_assigned none old = old
or_assigned (some a) old = a

abbrev pub edited : Option Status → Option (Option String) → ℕ → Row → Row
edited status assigned now r = record r {
  status = or_status status r.status;
  assigned_to = or_assigned assigned r.assigned_to;
  updated_at = now;
}

abbrev pub updated_event : String → String → String → Fields → Draw → Audit
updated_event t i actor changes d = record {
  id = d.audit_id;
  tenant_id = t;
  actor = actor;
  action = "finding.updated";
  resource_type = "finding";
  resource_id = some i;
  request_id = none;
  outcome = "success";
  details = changes;
  created_at = d.now;
}

-- `FindingLifecycleRecord`; its cursor is the row id.
pub record Record : Type 0 where
  pub finding : Finding
  pub fingerprint : String
  pub status : Status
  pub first_seen : ℕ
  pub last_seen : ℕ
  pub occurrences : ℕ
  pub job_id : Option String
  pub assigned_to : Option String
  pub cursor : ℕ

abbrev pub record_of : Row → Record
record_of r = record {
  finding = r.payload;
  fingerprint = r.fingerprint;
  status = r.status;
  first_seen = r.first_seen;
  last_seen = r.last_seen;
  occurrences = r.occurrences;
  job_id = r.job_id;
  assigned_to = r.assigned_to;
  cursor = r.row_id;
}

unfoldable pub update_lifecycle :
    String
    → String
    → Option Status
    → Option (Option String)
    → String
    → Draw
    → Db
    → Option Record × Db
update_lifecycle t i status assigned actor d db = elim (find (has_id t i) db.rows) [
  | none ↦ (none, db)
  | some r ↦
      (let changes : Fields = status_changes status r (assigned_changes assigned r) in
        let db' : Db = write_row r (edited status assigned d.now) db in
        (
          some (record_of (edited status assigned d.now r)),
          record db' { audits = db.audits ++ updated_event t i actor changes d ∷ [] },
        ))
]
