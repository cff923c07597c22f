-- ===== src/Api/Exchange.antt =====
-- The handlers of api_v1.py that exchange an identity for a session and revoke a session. Each call
-- of the identity repository is one transaction, before which other processes change the tables.
pub mod Grants
use shared_integration.Prelude.{
  ℕ, ◌+◌, String, ◌<>◌, Bool, true, false, not, ◌&&◌, ◌||◌, Option, none, some, List, [], ◌∷◌, drop,
  length, ◌==◌, str_eq, if◌then◌else◌, Text, codes, text_eq, partition, has_prefix, all_codes,
  is_hex,
}
use shared_integration.Result.{
  Result, ok, err, Error, key_error, value_error, integrity_error, runtime_error,
}
use shared_integration.Auth.Access.{compare_digest}
use shared_integration.Auth.Limiter.{Limiter, Checked, check}
use shared_integration.Identity.Values.{Hashing}
use shared_integration.Identity.Tables.{Db, Draw, Detail, word, number, User}
use shared_integration.Identity.Accounts.{
  Answer, Profile, AuthEvent, record_auth_event, upsert_user,
}
use shared_integration.Identity.Clients.{ClientPrincipal, authenticate_identity_client}
use shared_integration.Identity.Sessions.{
  NewSession, IssuedSession, SessionPrincipal, issue_user_session, authenticate_user_session,
  revoke_user_session,
}
use shared_integration.Api.{Reply, replied, failed, ErrorReply, error}

-- What the handlers run in: the hashes, what others do before each call and what each call draws,
-- the string of a list of code points, and whether there is a repository.
pub record Setting : Type 0 where
  pub hashing : Hashing
  pub others : ℕ → Db → Db
  pub draws : ℕ → Draw
  pub spell : Text → String
  pub has_repository : Bool

pub record Exchange : Type 0 where
  pub host : Option String
  pub token : Option Text
  pub request_id : String
  pub profile : Profile
  pub requested_tenant_id : String

-- `_safe_bridge_prefix`
abbrev pub safe_bridge_prefix : (Text → String) → Option Text → String
safe_bridge_prefix spell none = "unknown"
safe_bridge_prefix spell (some token) =
    let parts = partition 46 token in
    let prefix : Text = parts.before in
    if parts.found
      && (has_prefix prefix (codes "igb_")
          && ((length prefix == 28) && all_codes is_hex (drop 4 prefix)))
    then spell prefix
    else "unknown"

abbrev pub host_of : Option String → String
host_of none = "unknown"
host_of (some host) = host

-- `_exchange_rate_key`
abbrev pub exchange_rate_key : Setting → Exchange → String
exchange_rate_key g r = host_of r.host <> (":" <> safe_bridge_prefix g.spell r.token)

abbrev pub or_empty : Option Text → Text
or_empty none = []
or_empty (some t) = t

-- `_record_exchange_failure`; what `record_auth_event` raises leaves the handler.
abbrev pub failure_event : Exchange → String → String → AuthEvent
failure_event r actor reason = record {
  tenant_id = r.requested_tenant_id;
  actor = actor;
  action = "auth.exchange";
  outcome = "failure";
  request_id = some r.request_id;
  details = ("reason", word reason) ∷ [];
}

-- The body of a granted exchange: the session, its token, and the role.
pub record Granted : Type 0 where
  pub issued : IssuedSession
  pub role : String

abbrev pub Handled : Type 0 → Type 0
Handled A = Result (Reply A) × Db

abbrev pub then_reply : {A : Type 0} → Answer Bool → ErrorReply → Handled A
then_reply (err e, db) reply = (err e, db)
then_reply (ok _, db) reply = (ok (failed reply), db)

abbrev pub refuse : Setting → ℕ → Exchange → String → String → ErrorReply → Db → Handled Granted
refuse g n r actor reason reply db =
    if g.has_repository
    then then_reply (record_auth_event (failure_event r actor reason) (g.draws n) (g.others n db))
        reply
    else (ok (failed reply), db)

abbrev pub access_denied : String → ErrorReply
access_denied request = error 403 "ACCESS_DENIED" "Access denied" request

abbrev pub unauthenticated : String → ErrorReply
unauthenticated request =
    record (error 401 "AUTHENTICATION_FAILED" "Authentication failed" request) {
      headers = ("WWW-Authenticate", word "Bearer") ∷ [];
    }

abbrev pub unavailable : String → ErrorReply
unavailable request =
    record (error 503 "AUTH_SERVICE_UNAVAILABLE" "Authentication service unavailable" request) {
      retryable = true;
    }

abbrev pub rate_limited : String → ℕ → ErrorReply
rate_limited request seconds =
    record (error 429 "RATE_LIMITED" "Too many authentication attempts" request) {
      headers = ("Retry-After", number seconds) ∷ [];
    }

abbrev pub client_actor : String → String
client_actor c = "identity_client:" <> c

-- The new session is looked up again, and revoked where it is not accepted.
abbrev pub confirm :
    Setting → Exchange → String → IssuedSession → Option SessionPrincipal × Db → Handled Granted
confirm g r actor issued (none, db) =
    then_reply
      (revoke_user_session issued.session.tenant_id issued.session.id actor (some r.request_id)
        (g.draws 4) (g.others 4 db))
      (access_denied r.request_id)
confirm g r actor issued (some p, db) =
    (ok (replied 200 (record { issued = issued; role = p.role })), db)

abbrev pub with_issued : Setting → Exchange → String → Answer IssuedSession → Handled Granted
with_issued g r actor (ok issued, db) =
    confirm g r actor issued
      (authenticate_user_session g.hashing issued.token (g.draws 3).now (g.others 3 db))
with_issued g r actor (err (key_error k), db) =
    refuse g 3 r actor "access_denied" (access_denied r.request_id) db
with_issued g r actor (err (value_error m), db) =
    refuse g 3 r actor "access_denied" (access_denied r.request_id) db
with_issued g r actor (err integrity_error, db) = (err integrity_error, db)
with_issued g r actor (err (runtime_error m), db) = (err (runtime_error m), db)

abbrev pub new_session : Setting → Exchange → ClientPrincipal → User → NewSession
new_session g r c user = record {
  identity_client_id = c.identity_client_id;
  tenant_id = r.requested_tenant_id;
  user_id = user.id;
  ttl_seconds = 300;
  actor = client_actor c.identity_client_id;
  request_id = some r.request_id;
}

abbrev pub with_user : Setting → Exchange → ClientPrincipal → Answer User → Handled Granted
with_user g r c (ok user, db) =
    with_issued g r (client_actor c.identity_client_id)
      (issue_user_session g.hashing (new_session g r c user) (g.draws 2) (g.others 2 db))
with_user g r c (err (value_error m), db) =
    (ok (failed (error 422 "VALIDATION_ERROR" "Request validation failed" r.request_id)), db)
with_user g r c (err (key_error k), db) = (err (key_error k), db)
with_user g r c (err integrity_error, db) = (err integrity_error, db)
with_user g r c (err (runtime_error m), db) = (err (runtime_error m), db)

abbrev pub bridge_actor : Setting → Exchange → String
bridge_actor g r = "identity_client:" <> safe_bridge_prefix g.spell r.token

abbrev pub with_client : Setting → Exchange → Option ClientPrincipal × Db → Handled Granted
with_client g r (none, db) =
    refuse g 1 r (bridge_actor g r) "authentication_failed" (unauthenticated r.request_id) db
with_client g r (some c, db) = with_user g r c (upsert_user r.profile (g.draws 1) (g.others 1 db))

-- `exchange_identity`, at the limiter's time.
unfoldable pub exchange_identity :
    Setting → Exchange → ℕ → Limiter × Db → Result (Reply Granted) × (Limiter × Db)
exchange_identity g r now (limiter, db) =
    let checked = check (exchange_rate_key g r) now limiter in
    let limited =
      refuse g 0 r (bridge_actor g r) "rate_limited" (rate_limited r.request_id checked.retry_after)
        db in
    let admitted : Handled Granted =
      if g.has_repository
      then with_client g r (
          authenticate_identity_client g.hashing (or_empty r.token) (some r.profile.issuer)
            (g.draws 0).now (g.others 0 db))
      else (ok (failed (unavailable r.request_id)), db) in
    let (reply, db') = if checked.allowed then admitted else limited in
    (reply, (checked.limiter, db'))

-- `revoke_session`; `target` is the token of the body.
pub record Revocation : Type 0 where
  pub token : Option Text
  pub target : Option Text
  pub request_id : String

-- A target that is given is the bearer token; `none` where `compare_digest` raises.
abbrev pub targets_itself : Option Text → Text → Option Bool
targets_itself none token = some true
targets_itself (some target) token = compare_digest target token

abbrev pub session_actor : SessionPrincipal → String
session_actor p =
    "user:"
    <> (p.user_id <> (";session:" <> (p.session_id <> (";client:" <> p.identity_client_id))))

abbrev pub revoked : Answer Bool → Handled (Unit {0})
revoked (err e, db) = (err e, db)
revoked (ok _, db) = (ok (replied 200 tt), db)

abbrev pub revoke_own : Setting → Revocation → SessionPrincipal → Db → Handled (Unit {0})
revoke_own g r p db = elim (targets_itself r.target (or_empty r.token)) [
  | none ↦ (err (runtime_error "TypeError"), db)
  | some false ↦ (ok (failed (access_denied r.request_id)), db)
  | some true ↦ revoked (
      revoke_user_session p.tenant_id p.session_id (session_actor p) (some r.request_id) (g.draws 1)
        (g.others 1 db))
]

abbrev pub revoke_target :
    Setting → Revocation → ClientPrincipal → Option SessionPrincipal × Db → Handled (Unit {0})
revoke_target g r bridge (none, db) = (ok (failed (unauthenticated r.request_id)), db)
revoke_target g r bridge (some p, db) =
    if str_eq p.identity_client_id bridge.identity_client_id
    then revoked (
        revoke_user_session p.tenant_id p.session_id (client_actor bridge.identity_client_id)
          (some r.request_id) (g.draws 3) (g.others 3 db))
    else (ok (failed (unauthenticated r.request_id)), db)

abbrev pub find_target : Setting → Option Text → Db → Option SessionPrincipal × Db
find_target g none db = (none, db)
find_target g (some target) db =
    authenticate_user_session g.hashing target (g.draws 2).now (g.others 2 db)

abbrev pub revoke_by_bridge :
    Setting → Revocation → Option ClientPrincipal × Db → Handled (Unit {0})
revoke_by_bridge g r (none, db) = (ok (failed (unauthenticated r.request_id)), db)
revoke_by_bridge g r (some bridge, db) = revoke_target g r bridge (find_target g r.target db)

abbrev pub revoke_by : Setting → Revocation → Option SessionPrincipal × Db → Handled (Unit {0})
revoke_by g r (some p, db) = revoke_own g r p db
revoke_by g r (none, db) =
    revoke_by_bridge g r (
      authenticate_identity_client g.hashing (or_empty r.token) none (g.draws 1).now
        (g.others 1 db))

unfoldable pub revoke_session : Setting → Revocation → Db → Handled (Unit {0})
revoke_session g r db =
    if g.has_repository
    then revoke_by g r
        (authenticate_user_session g.hashing (or_empty r.token) (g.draws 0).now (g.others 0 db))
    else (ok (failed (unavailable r.request_id)), db)
