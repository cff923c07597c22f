-- ===== src/Identity/Sessions.antt =====
-- User sessions: the methods of `SQLAlchemyIdentityRepository` that issue, check, revoke and clean
-- them up.
pub mod Grants
pub mod Refusals
pub mod Issue
pub mod Cleanup
use shared_integration.Prelude.{
  ℕ, ◌+◌, String, Bool, true, false, not, ◌&&◌, ◌||◌, Option, none, some, List, [], ◌∷◌, ◌++◌,
  str_eq, leb, find, select, count, update, Text, text_eq, if◌then◌else◌,
}
use shared_integration.Result.{Result, ok, err, value_error, key_error, ◌>>=◌}
use shared_integration.Identity.Values.{
  Hashing, Stamp, member, roles, session_mark, is_session_token, normalize_session_ttl,
  normalize_expiry,
}
use shared_integration.Identity.Tables.{
  Tenant, Membership, Client, Session, Db, Draw, word, number, is_none, is_session, get_tenant,
  get_user, find_membership, get_client, insert_row, session_clash, audit, with_audit,
}
use shared_integration.Identity.Accounts.{Answer}
use shared_integration.Identity.ApiKeys.{is_active}
use shared_integration.Identity.Clients.{is_live}

pub record NewSession : Type 0 where
  pub identity_client_id : String
  pub tenant_id : String
  pub user_id : String
  pub ttl_seconds : ℕ
  pub actor : String
  pub request_id : Option String

abbrev pub client_ok : Option Client → Bool
client_ok none = false
client_ok (some client) = is_live client

abbrev pub member_ok : Option Membership → Bool
member_ok none = false
member_ok (some m) = str_eq m.status "active" && member m.role roles

-- The guards of the transaction of `issue_user_session`, in their order.
unfoldable pub check_session : NewSession → Db → Result {0} Unit
check_session new db =
    let membership : Result {0} Unit = elim (find_membership new.tenant_id new.user_id db) [
      | none ↦ err (value_error "an active membership is required")
      | some m ↦
          if not (str_eq m.status "active")
          then err (value_error "an active membership is required")
          else if not (member m.role roles)
          then err (value_error "membership role is invalid")
          else ok tt
    ] in
    let user : Result {0} Unit = elim (get_user new.user_id db) [
      | none ↦ err (key_error new.user_id)
      | some _ ↦ membership
    ] in
    if not (client_ok (get_client new.identity_client_id db))
    then err (value_error "identity client must be active")
    else elim (get_tenant new.tenant_id db) [
      | none ↦ err (key_error new.tenant_id)
      | some tenant ↦
          if not (str_eq tenant.status "active")
          then err (value_error "user sessions can only be issued for active tenants")
          else user
    ]

abbrev pub session_row : Hashing → NewSession → Text → ℕ → Draw → Session
session_row h new token ttl d = record {
  id = d.id;
  token_hash = h.sha256 token;
  user_id = new.user_id;
  tenant_id = new.tenant_id;
  identity_client_id = new.identity_client_id;
  created_at = d.now;
  expires_at = d.now + ttl;
  revoked_at = none;
  last_seen_at = none;
}

-- `IssuedUserSession`: the row that was added, and the token.
pub record IssuedSession : Type 0 where
  pub session : Session
  pub token : Text

abbrev pub with_session : Session → NewSession → Draw → List Session → Db → Db
with_session row new d sessions db =
    with_audit
      (audit d new.tenant_id new.actor "user_session.issued" "user_session" (some row.id)
        new.request_id "success"
        (("user_id", word new.user_id)
          ∷ ("identity_client_id", word new.identity_client_id)
          ∷ ("expires_at", number row.expires_at)
          ∷ []))
      (record db { sessions = sessions })

unfoldable pub add_session : Session → Text → NewSession → Draw → Db → Answer IssuedSession
add_session row token new d db = elim (check_session new db) [
  | err e ↦ (err e, db)
  | ok _ ↦ elim (insert_row session_clash row db.sessions) [
    | err e ↦ (err e, db)
    | ok sessions ↦
        (ok (record { session = row; token = token }), with_session row new d sessions db)
  ]
]

unfoldable pub issue_user_session : Hashing → NewSession → Draw → Db → Answer IssuedSession
issue_user_session h new d db = elim (normalize_session_ttl new.ttl_seconds) [
  | err e ↦ (err e, db)
  | ok ttl ↦
      (let token : Text = session_mark ++ d.secret in
        add_session (session_row h new token ttl d) token new d db)
]

pub record SessionPrincipal : Type 0 where
  pub tenant_id : String
  pub user_id : String
  pub role : String
  pub session_id : String
  pub identity_client_id : String

abbrev pub has_hash : Text → Session → Bool
has_hash x row = text_eq row.token_hash x

-- The checks of `authenticate_user_session` on a row and what it names.
abbrev pub is_current : ℕ → Session → Bool
is_current now row = is_none row.revoked_at && not (leb row.expires_at now)

abbrev pub is_backed : Session → Db → Bool
is_backed row db =
    client_ok (get_client row.identity_client_id db)
    && (is_active (get_tenant row.tenant_id db)
        && member_ok (find_membership row.tenant_id row.user_id db))

abbrev pub session_principal : Session → Membership → SessionPrincipal
session_principal row m = record {
  tenant_id = row.tenant_id;
  user_id = row.user_id;
  role = m.role;
  session_id = row.id;
  identity_client_id = row.identity_client_id;
}

abbrev pub seen : ℕ → Session → Session
seen now row = record row { last_seen_at = some now }

-- The answer for the row that the hash of the token names.
unfoldable pub answer_session : ℕ → Session → Db → Option SessionPrincipal × Db
answer_session now row db =
    let touched : Db = record db { sessions = update (is_session row.id) (seen now) db.sessions } in
    elim (find_membership row.tenant_id row.user_id db) [
      | none ↦ (none, db)
      | some m ↦
          if is_current now row && is_backed row db
          then (some (session_principal row m), touched)
          else (none, db)
    ]

unfoldable pub authenticate_user_session : Hashing → Text → ℕ → Db → Option SessionPrincipal × Db
authenticate_user_session h token now db = elim (find (has_hash (h.sha256 token)) db.sessions) [
  | none ↦ (none, db)
  | some row ↦
      (let answer = answer_session now row db in
        if is_session_token token then answer else (none, db))
]

abbrev pub is_session_of : String → String → Session → Bool
is_session_of t i row = str_eq row.tenant_id t && str_eq row.id i

-- `revoke_user_session`
unfoldable pub revoke_user_session :
    String → String → String → Option String → Draw → Db → Answer Bool
revoke_user_session t i actor request d db = elim (find (is_session_of t i) db.sessions) [
  | none ↦ (ok false, db)
  | some row ↦
      (let revoked : Db =
          with_audit
            (audit d t actor "user_session.revoked" "user_session" (some i) request "success"
              (("user_id", word row.user_id) ∷ []))
            (record db {
              sessions =
                  update (is_session_of t i) (λ x. record x { revoked_at = some d.now })
                    db.sessions;
            }) in
        (ok true, if is_none row.revoked_at then revoked else db))
]

-- `cleanup_expired_user_sessions`: the number of rows that were deleted.
abbrev pub clean : ℕ → Db → Answer ℕ
clean cutoff db = (
  ok (count (λ row. leb row.expires_at cutoff) db.sessions),
  record db { sessions = select (λ row. not (leb row.expires_at cutoff)) db.sessions },
)

abbrev pub cutoff_of : Option ℕ → ℕ → ℕ
cutoff_of none now = now
cutoff_of (some t) now = t

unfoldable pub cleanup_expired_user_sessions : Option Stamp → ℕ → Db → Answer ℕ
cleanup_expired_user_sessions before now db = elim (normalize_expiry before) [
  | err e ↦ (err e, db)
  | ok cutoff ↦ clean (cutoff_of cutoff now) db
]
