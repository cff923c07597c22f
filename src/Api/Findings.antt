-- ===== src/Api/Findings.antt =====
-- The handlers of findings, over a registry that may be `SQLAlchemyTenantFindingRegistry`.
use shared_integration.Prelude.{
  ℕ, String, ◌<>◌, Bool, true, false, Option, none, some, List, length, if◌then◌else◌, ◌&&◌,
}
use shared_integration.Result.{Result, ok, err, value_error}
use shared_integration.Findings.Lifecycle.{Db, Draw, Status}
use shared_integration.Findings.Lifecycle.Listing.{Filter, Cursors, list_page}
use shared_integration.Findings.Lifecycle.Editing.{Record, update_lifecycle}
use shared_integration.Api.{Reply, replied, failed, ErrorReply, error}

abbrev pub unavailable : String → ErrorReply
unavailable =
    error 503 "LIFECYCLE_STORE_UNAVAILABLE"
      "Finding lifecycle storage requires INTEGRATION_DATABASE_URL"

-- A page, with the number of its items and the next cursor.
pub record Page : Type 0 where
  pub count : ℕ
  pub items : List Record
  pub next_cursor : Option String

abbrev pub page_reply : String → Result (List Record × Option String) → Result (Reply Page)
page_reply request (ok (records, next)) =
    ok (replied 200 (record { count = length records; items = records; next_cursor = next }))
page_reply request (err (value_error m)) =
    ok (failed (error 400 "INVALID_CURSOR" "The finding cursor is invalid" request))
page_reply request (err e) = err e

-- `list_findings`; `none` is a registry without `list_page`.
unfoldable pub list_findings :
    Cursors → String → String → Option String → ℕ → Filter → Option Db → Result (Reply Page)
list_findings C request t cursor limit f none = ok (failed (unavailable request))
list_findings C request t cursor limit f (some db) =
    page_reply request (list_page C t f limit cursor db)

-- The fields that the body has set: `status` may be set to `None`, which changes nothing.
pub record FindingUpdate : Type 0 where
  pub status : Option (Option Status)
  pub assigned_to : Option (Option String)

abbrev pub is_empty : FindingUpdate → Bool
is_empty u = no_status u.status && no_assignee u.assigned_to
  where
    no_status : Option (Option Status) → Bool
    no_status none = true
    no_status (some s) = false

    no_assignee : Option (Option String) → Bool
    no_assignee none = true
    no_assignee (some a) = false

abbrev pub set_status : Option (Option Status) → Option Status
set_status none = none
set_status (some s) = s

abbrev pub record_reply : String → Option Record → Reply Record
record_reply request none = failed (error 404 "FINDING_NOT_FOUND" "Finding not found" request)
record_reply request (some r) = replied 200 r

-- `update_finding`; `none` is a registry without `update_lifecycle`.
unfoldable pub update_finding :
    String → String → String → String → FindingUpdate → Draw → Option Db → Reply Record × Option Db
update_finding request t role i u d none = (failed (unavailable request), none)
update_finding request t role i u d (some db) =
    if is_empty u
    then (
      failed (error 400 "EMPTY_UPDATE" "At least one lifecycle field must be provided" request),
      some db,
    )
    else (let (found, db') =
          update_lifecycle t i (set_status u.status) u.assigned_to ("role:" <> role) d db in
        (record_reply request found, some db'))
