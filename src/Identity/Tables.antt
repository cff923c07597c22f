-- ===== src/Identity/Tables.antt =====
-- The tables of src/shared_integration/db_models.py that the identity repository writes, with the
-- constraints that its inserts can break.
use shared_integration.Prelude.{
  ℕ, String, ◌≡◌, ◌↔◌, arith, Bool, true, false, ◌&&◌, ◌||◌, Option, none, some, List, [], ◌∷◌,
  ◌++◌, str_eq, find, any, Text, text_eq, if◌then◌else◌,
}
use shared_integration.Result.{Result, ok, err, integrity_error}
use shared_integration.Identity.Values.{SecretHash}

pub record Tenant : Type 0 where
  pub id : String
  pub slug : Text
  pub name : Text
  pub status : String
  pub retention_days : ℕ
  pub created_at : ℕ
  pub updated_at : ℕ

pub record User : Type 0 where
  pub id : String
  pub issuer : Text
  pub subject : Text
  pub email : Option Text
  pub display_name : Option Text
  pub created_at : ℕ
  pub updated_at : ℕ

pub record Membership : Type 0 where
  pub tenant_id : String
  pub user_id : String
  pub role : String
  pub status : String
  pub created_at : ℕ

pub record ApiKey : Type 0 where
  pub id : String
  pub tenant_id : String
  pub key_prefix : Text
  pub secret_hash : SecretHash
  pub role : String
  pub scopes : List Text
  pub expires_at : Option ℕ
  pub revoked_at : Option ℕ
  pub created_at : ℕ

pub record Client : Type 0 where
  pub id : String
  pub name : Text
  pub key_prefix : Text
  pub secret_hash : SecretHash
  pub allowed_issuers : List Text
  pub active : Bool
  pub rotated_from_id : Option String
  pub created_at : ℕ
  pub updated_at : ℕ
  pub last_used_at : Option ℕ
  pub revoked_at : Option ℕ

pub record Session : Type 0 where
  pub id : String
  pub token_hash : Text
  pub user_id : String
  pub tenant_id : String
  pub identity_client_id : String
  pub created_at : ℕ
  pub expires_at : ℕ
  pub revoked_at : Option ℕ
  pub last_seen_at : Option ℕ

-- The values of an audit event's details.
pub data Detail : Type 0 where
  word : String → Detail
  chars : Text → Detail
  number : ℕ → Detail
  texts : List Text → Detail

abbrev pub Details : Type 0
Details = List (String × Detail)

pub record AuditEvent : Type 0 where
  pub id : String
  pub tenant_id : String
  pub actor : String
  pub action : String
  pub resource_type : String
  pub resource_id : Option String
  pub request_id : Option String
  pub outcome : String
  pub details : Details
  pub created_at : ℕ

pub record Db : Type 0 where
  pub tenants : List Tenant
  pub users : List User
  pub memberships : List Membership
  pub api_keys : List ApiKey
  pub clients : List Client
  pub sessions : List Session
  pub audits : List AuditEvent

-- What a call draws: the clock, two identifiers, and the output of `secrets`.
pub record Draw : Type 0 where
  pub now : ℕ
  pub id : String
  pub audit_id : String
  pub hex : Text
  pub secret : Text
  pub salt : Text

abbrev pub is_none {ℓ} : {A : Type ℓ} → Option A → Bool
is_none none = true
is_none (some _) = false

pub is_none_iff : (o : Option ℕ) → (is_none o ≡ true) ↔ (o ≡ none)
is_none_iff none = ground arith
is_none_iff (some n) = ground arith

-- `session.get` of each table
abbrev pub is_tenant : String → Tenant → Bool
is_tenant t row = str_eq row.id t

abbrev pub is_membership : String → String → Membership → Bool
is_membership t u row = str_eq row.tenant_id t && str_eq row.user_id u

abbrev pub is_client : String → Client → Bool
is_client c row = str_eq row.id c

abbrev pub is_session : String → Session → Bool
is_session i row = str_eq row.id i

abbrev pub is_key : String → ApiKey → Bool
is_key i row = str_eq row.id i

unfoldable pub get_tenant : String → Db → Option Tenant
get_tenant t db = find (is_tenant t) db.tenants

unfoldable pub get_user : String → Db → Option User
get_user u db = find (λ row. str_eq row.id u) db.users

unfoldable pub find_membership : String → String → Db → Option Membership
find_membership t u db = find (is_membership t u) db.memberships

unfoldable pub get_client : String → Db → Option Client
get_client c db = find (is_client c) db.clients

-- An insert of a row that breaks a unique constraint raises `IntegrityError`.
abbrev pub insert_row {ℓ} : {A : Type ℓ} → (A → A → Bool) → A → List A → Result (List A)
insert_row clash row rows =
    if any (clash row) rows then err integrity_error else ok (rows ++ row ∷ [])

abbrev pub tenant_clash : Tenant → Tenant → Bool
tenant_clash new row = str_eq row.id new.id || text_eq row.slug new.slug

abbrev pub user_clash : User → User → Bool
user_clash new row =
    str_eq row.id new.id || (text_eq row.issuer new.issuer && text_eq row.subject new.subject)

abbrev pub key_clash : ApiKey → ApiKey → Bool
key_clash new row = str_eq row.id new.id || text_eq row.key_prefix new.key_prefix

abbrev pub client_clash : Client → Client → Bool
client_clash new row = str_eq row.id new.id || text_eq row.key_prefix new.key_prefix

abbrev pub session_clash : Session → Session → Bool
session_clash new row = str_eq row.id new.id || text_eq row.token_hash new.token_hash

-- `_audit`
abbrev pub audit :
    Draw
    → String
    → String
    → String
    → String
    → Option String
    → Option String
    → String
    → Details
    → AuditEvent
audit d t actor action kind resource request outcome details = record {
  id = d.audit_id;
  tenant_id = t;
  actor = actor;
  action = action;
  resource_type = kind;
  resource_id = resource;
  request_id = request;
  outcome = outcome;
  details = details;
  created_at = d.now;
}

abbrev pub with_audit : AuditEvent → Db → Db
with_audit a db = record db { audits = db.audits ++ a ∷ [] }
