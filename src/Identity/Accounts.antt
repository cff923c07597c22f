-- ===== src/Identity/Accounts.antt =====
-- Tenants, users and memberships: the methods of `SQLAlchemyIdentityRepository` that write them.
pub mod Status
use shared_integration.Prelude.{
  ℕ, String, Bool, true, false, not, ◌&&◌, ◌||◌, Option, none, some, List, [], ◌∷◌, ◌++◌, str_eq,
  leb, ltb, find, any, update, Text, text_eq, if◌then◌else◌, length, codes,
}
use shared_integration.Result.{Result, ok, err, value_error, key_error, integrity_error, ◌>>=◌}
use shared_integration.Identity.Values.{
  member, roles, tenant_statuses, membership_statuses, strip, bad_length, is_slug,
  validate_identifier, validate_role,
}
use shared_integration.Identity.Tables.{
  Tenant, User, Membership, Db, Draw, word, chars, number, Details, is_tenant, is_membership,
  get_tenant, get_user, find_membership, insert_row, tenant_clash, user_clash, audit, with_audit,
}

-- A method's answer, and the database after its transaction.
abbrev pub Answer : Type 0 → Type 0
Answer A = Result A × Db

pub record NewTenant : Type 0 where
  pub tenant_id : String
  pub slug : Text
  pub name : Text
  pub retention_days : ℕ

-- The checks before the transaction of `create_tenant`.
unfoldable pub check_tenant : NewTenant → Result {0} Unit
check_tenant new = validate_identifier (codes new.tenant_id) >>= λ _.
    if not (is_slug new.slug)
    then err (value_error "slug must use lowercase letters, digits, and internal hyphens")
    else if bad_length 255 (strip new.name)
    then err (value_error "name must contain 1 to 255 characters")
    else if not (leb 1 new.retention_days && leb new.retention_days 3650)
    then err (value_error "retention_days must be between 1 and 3650")
    else ok tt

abbrev pub active_tenant : NewTenant → ℕ → Tenant
active_tenant new now = record {
  id = new.tenant_id;
  slug = new.slug;
  name = strip new.name;
  status = "active";
  retention_days = new.retention_days;
  created_at = now;
  updated_at = now;
}

unfoldable pub create_tenant : NewTenant → String → Draw → Db → Answer Tenant
create_tenant new actor d db = elim (check_tenant new) [
  | err e ↦ (err e, db)
  | ok _ ↦
      (let row : Tenant = active_tenant new d.now in
        let details : Details =
          ("slug", chars new.slug) ∷ ("retention_days", number new.retention_days) ∷ [] in
        elim (insert_row tenant_clash row db.tenants) [
          | err e ↦ (err e, db)
          | ok tenants ↦ (
            ok row,
            with_audit
                (audit d new.tenant_id actor "tenant.created" "tenant" (some new.tenant_id) none
                  "success" details)
                (record db { tenants = tenants }),
          )
        ])
]

abbrev pub from_to : String → String → Details
from_to previous status = ("from", word previous) ∷ ("to", word status) ∷ []

-- `set_tenant_status`
unfoldable pub set_tenant_status : String → String → String → Draw → Db → Answer Tenant
set_tenant_status t status actor d db =
    let change : Tenant → Tenant = λ row. record row { status = status; updated_at = d.now } in
    let found = get_tenant t db in
    if not (member status tenant_statuses)
    then (err (value_error "status must be one of TENANT_STATUSES"), db)
    else elim found [
      | none ↦ (err (key_error t), db)
      | some row ↦ (
        ok (change row),
        with_audit
            (audit d t actor "tenant.status_changed" "tenant" (some t) none "success"
              (from_to row.status status))
            (record db { tenants = update (is_tenant t) change db.tenants }),
      )
    ]

pub record Profile : Type 0 where
  pub issuer : Text
  pub subject : Text
  pub email : Option Text
  pub display_name : Option Text

abbrev pub too_long : ℕ → Option Text → Bool
too_long n none = false
too_long n (some s) = ltb n (length s)

-- The checks before the transaction of `upsert_user`.
unfoldable pub check_profile : Profile → Result {0} Unit
check_profile p =
    if bad_length 512 (strip p.issuer)
    then err (value_error "issuer must contain 1 to 512 characters")
    else if bad_length 255 (strip p.subject)
    then err (value_error "subject must contain 1 to 255 characters")
    else if too_long 320 p.email
    then err (value_error "email must contain at most 320 characters")
    else if too_long 255 p.display_name
    then err (value_error "display_name must contain at most 255 characters")
    else ok tt

abbrev pub is_subject : Profile → User → Bool
is_subject p row = text_eq row.issuer (strip p.issuer) && text_eq row.subject (strip p.subject)

abbrev pub find_user : Profile → Db → Option User
find_user p db = find (is_subject p) db.users

abbrev pub new_user : Profile → Draw → User
new_user p d = record {
  id = d.id;
  issuer = strip p.issuer;
  subject = strip p.subject;
  email = p.email;
  display_name = p.display_name;
  created_at = d.now;
  updated_at = d.now;
}

abbrev pub refreshed : Profile → ℕ → User → User
refreshed p now row = record row {
  email = p.email;
  display_name = p.display_name;
  updated_at = now;
}

-- The row is changed by its primary key.
abbrev pub refresh : Profile → Draw → User → Db → Answer User
refresh p d row db = (
  ok (refreshed p d.now row),
  record db { users = update (λ x. str_eq x.id row.id) (refreshed p d.now) db.users },
)

-- The `except IntegrityError` branch, over the database that it finds.
unfoldable pub upsert_again : Profile → Draw → Db → Answer User
upsert_again p d db = elim (find_user p db) [
  | none ↦ (err integrity_error, db)
  | some row ↦ refresh p d row db
]

-- The insert of a user that the query did not find; another process may have written in between.
unfoldable pub insert_user : Profile → Draw → Db → Answer User
insert_user p d db = elim (insert_row user_clash (new_user p d) db.users) [
  | err _ ↦ upsert_again p d db
  | ok users ↦ (ok (new_user p d), record db { users = users })
]

unfoldable pub upsert_user : Profile → Draw → Db → Answer User
upsert_user p d db = elim (check_profile p) [
  | err e ↦ (err e, db)
  | ok _ ↦ elim (find_user p db) [ none ↦ insert_user p d db | some row ↦ refresh p d row db ]
]

abbrev pub active_membership : String → String → String → ℕ → Membership
active_membership t u role now = record {
  tenant_id = t;
  user_id = u;
  role = role;
  status = "active";
  created_at = now;
}

abbrev pub membership_audit : Draw → String → String → String → String → Details → Db → Db
membership_audit d t u actor action details =
    with_audit (audit d t actor action "membership" (some u) none "success" details)

-- `set_membership`: the status of a membership that is there stays.
unfoldable pub put_membership : String → String → String → String → Draw → Db → Answer Membership
put_membership t u role actor d db =
    let change : Membership → Membership = λ row. record row { role = role } in
    let done : List Membership → Db = λ rows.
      membership_audit d t u actor "membership.set" (("role", word role) ∷ [])
        (record db { memberships = rows }) in
    elim (find_membership t u db) [
      | none ↦ (
        ok (active_membership t u role d.now),
        done (db.memberships ++ active_membership t u role d.now ∷ []),
      )
      | some row ↦ (ok (change row), done (update (is_membership t u) change db.memberships))
    ]

unfoldable pub set_membership : String → String → String → String → Draw → Db → Answer Membership
set_membership t u role actor d db = elim (validate_role role) [
  | err e ↦ (err e, db)
  | ok _ ↦ elim (get_tenant t db) [
    | none ↦ (err (key_error t), db)
    | some _ ↦ elim (get_user u db) [
      | none ↦ (err (key_error u), db)
      | some _ ↦ put_membership t u role actor d db
    ]
  ]
]

-- `set_membership_status`
unfoldable pub set_membership_status :
    String → String → String → String → Draw → Db → Answer Membership
set_membership_status t u status actor d db =
    let change : Membership → Membership = λ row. record row { status = status } in
    let found = find_membership t u db in
    if not (member status membership_statuses)
    then (err (value_error "status must be one of MEMBERSHIP_STATUSES"), db)
    else elim found [
      | none ↦ (err (key_error u), db)
      | some row ↦ (
        ok (change row),
        membership_audit d t u actor "membership.status_changed" (from_to row.status status)
            (record db { memberships = update (is_membership t u) change db.memberships }),
      )
    ]

-- `get_membership`
abbrev pub get_membership : String → String → Db → Option Membership
get_membership = find_membership

-- `record_auth_event`; `actor` holds the first 255 characters of the argument, which the row keeps.
pub record AuthEvent : Type 0 where
  pub tenant_id : String
  pub actor : String
  pub action : String
  pub outcome : String
  pub request_id : Option String
  pub details : Details

unfoldable pub record_auth_event : AuthEvent → Draw → Db → Answer Bool
record_auth_event e d db =
    let found = get_tenant e.tenant_id db in
    if not (member e.outcome ("success" ∷ "failure" ∷ []))
    then (err (value_error "outcome must be success or failure"), db)
    else elim found [
      | none ↦ (ok false, db)
      | some _ ↦ (
        ok true,
        with_audit
            (audit d e.tenant_id e.actor e.action "authentication" none e.request_id e.outcome
              e.details)
            db,
      )
    ]
