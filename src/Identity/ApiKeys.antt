-- ===== src/Identity/ApiKeys.antt =====
-- API keys: the methods of `SQLAlchemyIdentityRepository` that issue, check, list and revoke them.
pub mod Grants
pub mod Issue
pub mod Refusals
pub mod Revoked
use shared_integration.Prelude.{
  ℕ, String, Bool, true, false, not, ◌&&◌, ◌||◌, Option, none, some, List, [], ◌∷◌, ◌++◌, map,
  str_eq, leb, ltb, ◌==◌, find, select, sort_by, update, Text, text_eq, if◌then◌else◌, codes,
  str_le,
}
use shared_integration.Result.{Result, ok, err, value_error, key_error, ◌>>=◌}
use shared_integration.Identity.Values.{
  Hashing, Stamp, member, roles, validate_identifier, validate_role, normalize_scopes,
  normalize_expiry, has_expired, key_mark, key_token, KeyText, parse_key, hash_secret,
  verify_secret,
}
use shared_integration.Identity.Tables.{
  Tenant, ApiKey, Db, Draw, word, chars, texts, is_none, get_tenant, insert_row, key_clash, audit,
  with_audit,
}
use shared_integration.Identity.Accounts.{Answer}

pub record NewKey : Type 0 where
  pub tenant_id : String
  pub role : String
  pub scopes : List Text
  pub expires_at : Option Stamp

-- What `issue_api_key` has checked before its transaction: the scopes and the expiry.
unfoldable pub check_key : NewKey → ℕ → Result (List Text × Option ℕ)
check_key new now = validate_role new.role >>= λ _. normalize_scopes new.scopes >>= λ scopes.
    normalize_expiry new.expires_at >>= λ expiry.
    if has_expired expiry now
    then err (value_error "expires_at must be in the future")
    else ok (scopes, expiry)

abbrev pub key_row : Hashing → NewKey → List Text → Option ℕ → Draw → ApiKey
key_row h new scopes expiry d = record {
  id = d.id;
  tenant_id = new.tenant_id;
  key_prefix = key_mark ++ d.hex;
  secret_hash = hash_secret h d.salt d.secret;
  role = new.role;
  scopes = scopes;
  expires_at = expiry;
  revoked_at = none;
  created_at = d.now;
}

-- `IssuedApiKey`: the row that was added, and the token.
pub record IssuedApiKey : Type 0 where
  pub key : ApiKey
  pub token : Text

abbrev pub with_key : ApiKey → String → Draw → List ApiKey → Db → Db
with_key row actor d keys db =
    with_audit
      (audit d row.tenant_id actor "api_key.issued" "api_key" (some row.id) none "success" (
        ("prefix", chars row.key_prefix)
        ∷ ("role", word row.role)
        ∷ ("scopes", texts row.scopes)
        ∷ []))
      (record db { api_keys = keys })

-- The transaction of `issue_api_key`.
unfoldable pub add_key : ApiKey → String → Draw → Db → Answer ApiKey
add_key row actor d db = elim (get_tenant row.tenant_id db) [
  | none ↦ (err (key_error row.tenant_id), db)
  | some tenant ↦
      (let added = insert_row key_clash row db.api_keys in
        if not (str_eq tenant.status "active")
        then (err (value_error "API keys can only be issued for active tenants"), db)
        else elim added [ err e ↦ (err e, db) | ok keys ↦ (ok row, with_key row actor d keys db) ])
]

unfoldable pub issue_api_key : Hashing → NewKey → String → Draw → Db → Answer IssuedApiKey
issue_api_key h new actor d db = elim (check_key new d.now) [
  | err e ↦ (err e, db)
  | ok (scopes, expiry) ↦
      (let r = add_key (key_row h new scopes expiry d) actor d db in
        (
          r.0 >>= λ key. ok (record { key = key; token = key_token (key_mark ++ d.hex) d.secret }),
          r.1,
        ))
]

pub record KeyPrincipal : Type 0 where
  pub tenant_id : String
  pub role : String
  pub scopes : List Text
  pub api_key_id : String

abbrev pub has_key_prefix : Text → ApiKey → Bool
has_key_prefix prefix row = text_eq row.key_prefix prefix

abbrev pub key_principal : ApiKey → KeyPrincipal
key_principal row = record {
  tenant_id = row.tenant_id;
  role = row.role;
  scopes = row.scopes;
  api_key_id = row.id;
}

abbrev pub is_active : Option Tenant → Bool
is_active none = false
is_active (some tenant) = str_eq tenant.status "active"

-- What `authenticate_api_key` asks of the row that the prefix names.
unfoldable pub accepts : Hashing → Text → ℕ → ApiKey → Db → Bool
accepts h secret now row db =
    verify_secret h secret row.secret_hash
    && (is_active (get_tenant row.tenant_id db)
        && (is_none row.revoked_at
            && (not (has_expired row.expires_at now) && member row.role roles)))

unfoldable pub authenticate_api_key : Hashing → Text → ℕ → Db → Option KeyPrincipal
authenticate_api_key h token now db = elim (parse_key key_mark token) [
  | none ↦ none
  | some k ↦ elim (find (has_key_prefix k.prefix) db.api_keys) [
    | none ↦ none
    | some row ↦ if accepts h k.secret now row db then some (key_principal row) else none
  ]
]

-- `ApiKeyRecord`, which shows no secret
pub record KeyRecord : Type 0 where
  pub id : String
  pub key_prefix : Text
  pub role : String
  pub scopes : List Text
  pub created_at : ℕ
  pub revoked_at : Option ℕ

abbrev pub key_record : ApiKey → KeyRecord
key_record row = record {
  id = row.id;
  key_prefix = row.key_prefix;
  role = row.role;
  scopes = row.scopes;
  created_at = row.created_at;
  revoked_at = row.revoked_at;
}

abbrev pub older : ApiKey → ApiKey → Bool
older a b = ltb a.created_at b.created_at || (a.created_at == b.created_at && str_le a.id b.id)

-- `list_api_keys`
unfoldable pub list_api_keys : String → Bool → Db → Result (List KeyRecord)
list_api_keys t include_revoked db = validate_identifier (codes t) >>= λ _. ok (
    map key_record (
      sort_by older (
        select (λ row. str_eq row.tenant_id t && (include_revoked || is_none row.revoked_at))
          db.api_keys)))

abbrev pub is_key_of : String → String → ApiKey → Bool
is_key_of t i row = str_eq row.tenant_id t && str_eq row.id i

-- `revoke_api_key`
unfoldable pub revoke_api_key : String → String → String → Draw → Db → Answer Bool
revoke_api_key t i actor d db = elim (find (is_key_of t i) db.api_keys) [
  | none ↦ (ok false, db)
  | some row ↦
      (let revoked : Db =
          with_audit
            (audit d t actor "api_key.revoked" "api_key" (some i) none "success"
              (("prefix", chars row.key_prefix) ∷ []))
            (record db {
              api_keys =
                  update (is_key_of t i) (λ x. record x { revoked_at = some d.now }) db.api_keys;
            }) in
        (ok true, if is_none row.revoked_at then revoked else db))
]
