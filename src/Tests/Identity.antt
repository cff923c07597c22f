-- ===== src/Tests/Identity.antt =====
-- Sessions and API keys of one tenant, under hashes that return their argument.
use shared_integration.Prelude.{
  length, All, mem_text, ◌≤◌, ℕ, ◌+◌, ◌*◌, ◌<◌, String, ◌≡◌, ◌≢◌, ◌↔◌, refl, true, false, none,
  some, [], ◌∷◌, any, find, codes, Text, text_eq, has_prefix, all_codes, partition, update, arith,
  eq_iff, str_eq, fullmatch, is_hex,
}
use shared_integration.Result.{ok}
use shared_integration.Identity.Values.{
  Hashing, is_session_token, is_url_safe, key_mark, KeyText, parse_key, verify_secret,
  normalize_scopes, collect_scopes,
}
use shared_integration.Identity.Values.Scopes.{HasNoRepeats, normalize_scopes_lem}
use shared_integration.Identity.Tables.{
  Tenant, User, Membership, Client, Session, ApiKey, Db, Draw, get_tenant, get_user, get_client,
  find_membership,
}
use shared_integration.Identity.Accounts.{set_tenant_status, set_membership_status}
use shared_integration.Identity.Clients.{client_row, revoke_identity_client}
use shared_integration.Identity.ApiKeys.{
  NewKey, IssuedApiKey, issue_api_key, authenticate_api_key, revoke_api_key, key_row, key_principal,
  accepts, add_key, check_key, has_key_prefix, is_key_of,
}
use shared_integration.Identity.ApiKeys.Grants.{KeyGrants, authenticate_api_key_iff}
use shared_integration.Identity.ApiKeys.Revoked.{
  IsRevoked, issues, revokes, key_run, revoked_key_stays_refused,
}
use shared_integration.Identity.ApiKeys.Issue.{issue_then_authenticate_key}
use shared_integration.Identity.ApiKeys.Refusals.{
  suspended_tenant_keys_refused, revoked_key_refused,
}
use shared_integration.Identity.Sessions.{
  NewSession, IssuedSession, SessionPrincipal, issue_user_session, authenticate_user_session,
  answer_session, revoke_user_session, session_row, clean, check_session, add_session, has_hash,
  is_session_of,
}
use shared_integration.Identity.Sessions.Grants.{Grants, authenticate_user_session_iff}
use shared_integration.Identity.Sessions.Issue.{IsFor, issue_then_authenticate}
use shared_integration.Identity.Sessions.Refusals.{
  suspended_tenant_refused, suspended_member_refused, revoked_client_refused,
  revoked_session_refused,
}
use shared_integration.Identity.Sessions.Cleanup.{HasUniqueHashes, cleanup_keeps_answers}

abbrev pub plain : Hashing
plain = record { scrypt = λ secret salt n r p. secret; sha256 = λ token. token }

abbrev pub draw : Draw
draw = record {
  now = 100;
  id = "id1";
  audit_id = "a1";
  hex = codes "0123456789abcdef01234567";
  secret = codes "abcdefghijabcdefghijabcdefghijabcdefghij";
  salt = codes "salt";
}

abbrev pub tenant : Tenant
tenant = record {
  id = "acme";
  slug = codes "acme";
  name = codes "Acme";
  status = "active";
  retention_days = 90;
  created_at = 0;
  updated_at = 0;
}

abbrev pub user : User
user = record {
  id = "usr_1";
  issuer = codes "https://id";
  subject = codes "s1";
  email = none;
  display_name = none;
  created_at = 0;
  updated_at = 0;
}

abbrev pub member : Membership
member = record {
  tenant_id = "acme";
  user_id = "usr_1";
  role = "analyst";
  status = "active";
  created_at = 0;
}

abbrev pub client : Client
client = record (client_row plain (codes "bff") (codes "https://id" ∷ []) none draw) {
  id = "idc_1";
}

-- One tenant, user, membership and identity client.
abbrev pub db : Db
db = record {
  tenants = tenant ∷ [];
  users = user ∷ [];
  memberships = member ∷ [];
  api_keys = [];
  clients = client ∷ [];
  sessions = [];
  audits = [];
}

abbrev asked : NewSession
asked = record {
  identity_client_id = "idc_1";
  tenant_id = "acme";
  user_id = "usr_1";
  ttl_seconds = 300;
  actor = "identity-exchange";
  request_id = none;
}

abbrev token : Text
token = codes "igs_abcdefghijabcdefghijabcdefghijabcdefghij"

abbrev session : Session
session = session_row plain asked token 300_000_000 draw

abbrev issued : IssuedSession
issued = record { session = session; token = token }

session_issued : (issue_user_session plain asked draw db).0 ≡ ok issued
unfolding issue_user_session add_session check_session get_client get_tenant get_user
    find_membership find any
session_issued = refl

secret_url_safe : fullmatch is_url_safe 40 64 draw.secret ≡ true
unfolding all_codes
secret_url_safe = refl

issue_then_authenticate_example :
    (session.expires_at ≡ 100 + 300 * 1000000)
    × ((now : ℕ)
        → now < session.expires_at
        → (p : SessionPrincipal) × ((authenticate_user_session plain token now
              (issue_user_session plain asked draw db).1).0
            ≡ some p)
          × IsFor asked issued p)
issue_then_authenticate_example =
    issue_then_authenticate plain asked draw db issued session_issued secret_url_safe

abbrev with_session : Db
with_session = record db { sessions = session ∷ [] }

abbrev principal : SessionPrincipal
principal = record {
  tenant_id = "acme";
  user_id = "usr_1";
  role = "analyst";
  session_id = "id1";
  identity_client_id = "idc_1";
}

authenticate_user_session_iff_example :
    ((authenticate_user_session plain token 200 with_session).0 ≡ some principal)
    ↔ Grants plain token 200 with_session principal
authenticate_user_session_iff_example =
    authenticate_user_session_iff plain token 200 with_session principal

session_found : find (has_hash token) with_session.sessions ≡ some session
unfolding find text_eq
session_found = refl

session_of : find (is_session_of "acme" "id1") with_session.sessions ≡ some session
unfolding find
session_of = refl

revoked_session_refused_example :
    (authenticate_user_session plain token 200
      (revoke_user_session "acme" "id1" "system" none draw with_session).1).0
    ≡ none
revoked_session_refused_example =
    revoked_session_refused plain token "system" none draw with_session session session_found
      session_of 200

hashes_differ : HasUniqueHashes with_session.sessions
unfolding any
hashes_differ = (refl, tt)

cleanup_keeps_answers_example :
    (authenticate_user_session plain token 200 (clean 150 with_session).1).0
    ≡ (authenticate_user_session plain token 200 with_session).0
cleanup_keeps_answers_example =
    cleanup_keeps_answers plain token 150 200 with_session hashes_differ (omega arith)

-- The same with a second tenant, member and client, which are suspended or revoked below.
abbrev wide : Db
wide = record with_session {
  tenants = tenant ∷ record tenant { id = "zeta"; slug = codes "zeta" } ∷ [];
  memberships = member ∷ record member { user_id = "usr_2" } ∷ [];
  clients = client ∷ record client { id = "idc_2"; key_prefix = codes "igb_2" } ∷ [];
}

abbrev zeta : Tenant
zeta = record tenant { id = "zeta"; slug = codes "zeta"; status = "disabled"; updated_at = 100 }

zeta_disabled : (set_tenant_status "zeta" "disabled" "system" draw wide).0 ≡ ok zeta
unfolding set_tenant_status get_tenant find any
zeta_disabled = refl

not_active : (s : String) → str_eq s "active" ≡ false → s ≢ "active"
not_active s h e = let g = (eq_iff s "active").1 e in absurd (ground (arith, h, g))

seen_after_tenant :
    (authenticate_user_session plain token 200
      (set_tenant_status "zeta" "disabled" "system" draw wide).1).0
    ≡ some principal
unfolding authenticate_user_session answer_session set_tenant_status get_tenant get_client
    find_membership find any update text_eq is_session_token all_codes has_prefix
seen_after_tenant = refl

suspended_tenant_refused_example : ◌≢◌ {A = String} "acme" "zeta"
suspended_tenant_refused_example =
    suspended_tenant_refused plain "zeta" "disabled" "system" draw wide zeta zeta_disabled
      (not_active "disabled" refl) token 200 principal seen_after_tenant

abbrev second : Membership
second = record member { user_id = "usr_2"; status = "suspended" }

second_suspended :
    (set_membership_status "acme" "usr_2" "suspended" "system" draw wide).0 ≡ ok second
unfolding set_membership_status find_membership find any
second_suspended = refl

seen_after_member :
    (authenticate_user_session plain token 200
      (set_membership_status "acme" "usr_2" "suspended" "system" draw wide).1).0
    ≡ some principal
unfolding authenticate_user_session answer_session set_membership_status get_tenant get_client
    find_membership find any update text_eq is_session_token all_codes has_prefix
seen_after_member = refl

suspended_member_refused_example : ◌≢◌ {A = String} "usr_1" "usr_2"
suspended_member_refused_example =
    suspended_member_refused plain "acme" "usr_2" "suspended" "system" draw wide second
      second_suspended (not_active "suspended" refl) token 200 principal seen_after_member refl

client_revoked : (revoke_identity_client "idc_2" 100 wide).0 ≡ ok true
unfolding revoke_identity_client get_client find
client_revoked = refl

seen_after_client :
    (authenticate_user_session plain token 200 (revoke_identity_client "idc_2" 100 wide).1).0
    ≡ some principal
unfolding authenticate_user_session answer_session revoke_identity_client get_tenant get_client
    find_membership find any update text_eq is_session_token all_codes has_prefix
seen_after_client = refl

revoked_client_refused_example : ◌≢◌ {A = String} "idc_1" "idc_2"
revoked_client_refused_example =
    revoked_client_refused plain "idc_2" 100 wide client_revoked token 200 principal
      seen_after_client

abbrev asked_key : NewKey
asked_key = record { tenant_id = "acme"; role = "viewer"; scopes = []; expires_at = none }

abbrev key : ApiKey
key = key_row plain asked_key [] none draw

abbrev key_text : KeyText
key_text = record { prefix = codes "igw_0123456789abcdef01234567"; secret = draw.secret }

abbrev key_issued : IssuedApiKey
key_issued = record {
  key = key;
  token = codes "igw_0123456789abcdef01234567.abcdefghijabcdefghijabcdefghijabcdefghij";
}

issued_key : (issue_api_key plain asked_key "system" draw db).0 ≡ ok key_issued
unfolding issue_api_key add_key check_key get_tenant find any normalize_scopes collect_scopes
issued_key = refl

hex_shape : fullmatch is_hex 24 24 draw.hex ≡ true
unfolding all_codes
hex_shape = refl

issue_then_authenticate_key_example :
    (authenticate_api_key plain key_issued.token 200
        (issue_api_key plain asked_key "system" draw db).1
      ≡ some (key_principal key))
    × (key.tenant_id ≡ "acme")
    × (key.role ≡ "viewer")
    × (normalize_scopes [] ≡ ok [])
issue_then_authenticate_key_example =
    issue_then_authenticate_key plain asked_key "system" draw db key_issued issued_key hex_shape
      (omega arith) (omega arith) 200 refl

abbrev with_key : Db
with_key = record wide { api_keys = key ∷ [] }

authenticate_api_key_iff_example :
    (authenticate_api_key plain key_issued.token 200 with_key ≡ some (key_principal key))
    ↔ KeyGrants plain key_issued.token 200 with_key (key_principal key)
authenticate_api_key_iff_example =
    authenticate_api_key_iff plain key_issued.token 200 with_key (key_principal key)

zeta_disabled_with_key : (set_tenant_status "zeta" "disabled" "system" draw with_key).0 ≡ ok zeta
unfolding set_tenant_status get_tenant find any
zeta_disabled_with_key = refl

key_seen :
    authenticate_api_key plain key_issued.token 200
      (set_tenant_status "zeta" "disabled" "system" draw with_key).1
    ≡ some (key_principal key)
unfolding authenticate_api_key accepts parse_key partition verify_secret set_tenant_status
    get_tenant find any update text_eq all_codes has_prefix
key_seen = refl

suspended_tenant_keys_refused_example : ◌≢◌ {A = String} "acme" "zeta"
suspended_tenant_keys_refused_example =
    suspended_tenant_keys_refused plain "zeta" "disabled" "system" draw with_key zeta
      zeta_disabled_with_key (not_active "disabled" refl) key_issued.token 200 (key_principal key)
      key_seen

key_parsed : parse_key key_mark key_issued.token ≡ some key_text
unfolding parse_key partition all_codes has_prefix
key_parsed = refl

key_found : find (has_key_prefix key_text.prefix) with_key.api_keys ≡ some key
unfolding find text_eq
key_found = refl

key_of : find (is_key_of "acme" "id1") with_key.api_keys ≡ some key
unfolding find
key_of = refl

revoked_key_refused_example :
    authenticate_api_key plain key_issued.token 200
      (revoke_api_key "acme" "id1" "system" draw with_key).1
    ≡ none
revoked_key_refused_example =
    revoked_key_refused plain key_issued.token key_text "system" draw with_key key key_parsed
      key_found key_of 200

two_scopes :
    normalize_scopes (codes "a" ∷ codes "b" ∷ codes "a" ∷ []) ≡ ok (codes "a" ∷ codes "b" ∷ [])
unfolding normalize_scopes collect_scopes mem_text text_eq
two_scopes = refl

normalize_scopes_lem_example :
    HasNoRepeats (codes "a" ∷ codes "b" ∷ [])
    × (length (codes "a" ∷ codes "b" ∷ []) ≤ 64)
    × ((t : Text)
        → mem_text t (codes "a" ∷ codes "b" ∷ [])
          ≡ mem_text t (codes "a" ∷ codes "b" ∷ codes "a" ∷ []))
    × All (λ s. (1 ≤ length s) × (length s ≤ 128)) (codes "a" ∷ codes "b" ∷ codes "a" ∷ [])
normalize_scopes_lem_example =
    normalize_scopes_lem (codes "a" ∷ codes "b" ∷ codes "a" ∷ []) (codes "a" ∷ codes "b" ∷ [])
      two_scopes

abbrev revoked_key_db : Db
revoked_key_db = record with_key { api_keys = record key { revoked_at = some 150 } ∷ [] }

key-IsRevoked : IsRevoked key_text.prefix revoked_key_db
unfolding find text_eq
key-IsRevoked = (
  record key { revoked_at = some 150 },
  refl,
  λ (n : some 150 ≡ none). absurd (ground (arith, n)),
)

revoked_key_stays_refused_example :
    authenticate_api_key plain key_issued.token 200 (
      key_run plain revoked_key_db
        (issues asked_key "system" draw ∷ revokes "acme" "id1" "system" draw ∷ []))
    ≡ none
revoked_key_stays_refused_example =
    revoked_key_stays_refused plain key_issued.token key_text revoked_key_db
      (issues asked_key "system" draw ∷ revokes "acme" "id1" "system" draw ∷ []) 200 key_parsed
      key-IsRevoked
