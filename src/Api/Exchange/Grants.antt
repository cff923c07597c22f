-- ===== src/Api/Exchange/Grants.antt =====
-- What a granted exchange tells.
use mathlib.Core.Option.{none-ne-some, some-injective}
use shared_integration.Prelude.{
  ℕ, ◌++◌, String, ◌≡◌, refl, sym, ap, ◌∙◌, inl, inr, Bool, true, Option, none, some, arith,
  Bool-cases,
}
use shared_integration.Result.{
  Result, ok, err, key_error, value_error, integrity_error, runtime_error, Result-cases,
}
use shared_integration.Auth.Limiter.{Limiter, check}
use shared_integration.Identity.Values.{Hashing, session_mark, normalize_session_ttl}
use shared_integration.Identity.Tables.{Db, Draw, User}
use shared_integration.Identity.Accounts.{Answer, upsert_user, record_auth_event}
use shared_integration.Identity.Clients.{ClientPrincipal, authenticate_identity_client}
use shared_integration.Identity.Sessions.{
  NewSession, IssuedSession, SessionPrincipal, session_row, issue_user_session, add_session,
  authenticate_user_session, revoke_user_session,
}
use shared_integration.Identity.Sessions.Issue.{added}
use shared_integration.Api.{Reply, replied, failed, ErrorReply}
use shared_integration.Api.Exchange.{
  Setting, Exchange, Granted, then_reply, refuse, confirm, with_issued, new_session, with_user,
  with_client, or_empty, exchange_rate_key, exchange_identity, client_actor, failure_event,
  bridge_actor, unauthenticated, access_denied, rate_limited,
}

-- The grant in a reply.
abbrev pub grant : Result (Reply Granted) → Option Granted
grant (ok (replied status s)) = some s
grant (ok (failed e)) = none
grant (err e) = none

no_grant-then_reply : (a : Answer Bool) (e : ErrorReply) → grant (then_reply a e).0 ≡ none
no_grant-then_reply (ok b, db) e = refl
no_grant-then_reply (err x, db) e = refl

no_grant-refuse :
    (g : Setting) (n : ℕ) (r : Exchange) (actor reason : String) (e : ErrorReply) (db : Db)
    → grant (refuse g n r actor reason e db).0 ≡ none
no_grant-refuse g n r actor reason e db = elim (Bool-cases g.has_repository) [
  | inl h ↦ rw h (
      no_grant-then_reply
        (record_auth_event (failure_event r actor reason) (g.draws n) (g.others n db)) e)
  | inr h ↦ rw h refl
]

-- The transaction that finds or makes the user, on the tables that an earlier one left, and the one
-- that issues the session, each after what others did in between.
abbrev user_made : Setting → Exchange → Db → Answer User
user_made g r before = upsert_user r.profile (g.draws 1) (g.others 1 before)

abbrev session_made : Setting → Exchange → ClientPrincipal → User → Db → Answer IssuedSession
session_made g r c user before =
    issue_user_session g.hashing (new_session g r c user) (g.draws 2)
      (g.others 2 (user_made g r before).1)

-- What is known of a grant: the session that was issued, whom for, and the look that confirmed it,
-- at the tables that the issue left and others changed since.
pub record IsIssued (g : Setting) (r : Exchange) (c : ClientPrincipal) (before : Db) (s : Granted)
    : Type 0 where
  pub tenant : s.issued.session.tenant_id ≡ r.requested_tenant_id
  pub client : s.issued.session.identity_client_id ≡ c.identity_client_id
  pub user : User
  pub known : (user_made g r before).0 ≡ ok user
  pub made : (session_made g r c user before).0 ≡ ok s.issued
  pub principal : SessionPrincipal
  pub accepted :
      (authenticate_user_session g.hashing s.issued.token
        (g.draws 3).now
        (g.others 3 (session_made g r c user before).1)).0
      ≡ some principal
  pub role : s.role ≡ principal.role

issued_for :
    (h : Hashing) (new : NewSession) (d : Draw) (db : Db) (x : IssuedSession)
    → (issue_user_session h new d db).0 ≡ ok x
    → (x.session.tenant_id ≡ new.tenant_id)
      × (x.session.identity_client_id ≡ new.identity_client_id)
unfolding issue_user_session
issued_for h new d db x e = elim (Result-cases (normalize_session_ttl new.ttl_seconds)) [
  | inl (bad, fails) ↦ absurd (ground (arith, e, fails))
  | inr (ttl, passes) ↦
      let token = session_mark ++ d.secret in
      let made : (add_session (session_row h new token ttl d) token new d db).0 ≡ ok x =
        (rw (passes, issue_user_session) at e) in
      let k = (added (session_row h new token ttl d) token new d db x made).answer in
      (
        ap (λ (y : IssuedSession). y.session.tenant_id) k,
        ap (λ (y : IssuedSession). y.session.identity_client_id) k,
      )
]

module _ (g : Setting) (r : Exchange) (c : ClientPrincipal) (s : Granted) where
  confirm_granted :
      (actor : String) (issued : IssuedSession) (m : Option SessionPrincipal × Db)
      → grant (confirm g r actor issued m).0 ≡ some s
      → (p : SessionPrincipal) × (m.0 ≡ some p) × (issued ≡ s.issued) × (s.role ≡ p.role)
  confirm_granted actor issued (none, db) h = absurd (
      none-ne-some s (
        sym (
          no_grant-then_reply
            (revoke_user_session issued.session.tenant_id issued.session.id actor
              (some r.request_id) (g.draws 4) (g.others 4 db))
            (access_denied r.request_id))
        ∙ h))
  confirm_granted actor issued (some p, db) h =
      let same : record { issued = issued; role = p.role } ≡ s =
        some-injective (record { issued = issued; role = p.role }) s h in
      (p, refl, ap (λ (x : Granted). x.issued) same, ap (λ (x : Granted). x.role) (sym same))

  with_issued_granted :
      (actor : String) (m : Answer IssuedSession)
      → grant (with_issued g r actor m).0 ≡ some s
      → (m.0 ≡ ok s.issued)
        × (p : SessionPrincipal) × ((authenticate_user_session g.hashing s.issued.token
              (g.draws 3).now
              (g.others 3 m.1)).0
            ≡ some p)
        × (s.role ≡ p.role)
  with_issued_granted actor (ok issued, db) h =
      let look : IssuedSession → Option SessionPrincipal × Db =
        λ x. authenticate_user_session g.hashing x.token (g.draws 3).now (g.others 3 db) in
      let (p, found, same, role) = confirm_granted actor issued (look issued) h in
      (ap ok same, p, ap (λ x. (look x).0) (sym same) ∙ found, role)
  with_issued_granted actor (err (key_error k), db) h = absurd (
      none-ne-some s
        (sym (no_grant-refuse g 3 r actor "access_denied" (access_denied r.request_id) db) ∙ h))
  with_issued_granted actor (err (value_error k), db) h = absurd (
      none-ne-some s
        (sym (no_grant-refuse g 3 r actor "access_denied" (access_denied r.request_id) db) ∙ h))
  with_issued_granted actor (err integrity_error, db) h = absurd (none-ne-some s h)
  with_issued_granted actor (err (runtime_error k), db) h = absurd (none-ne-some s h)

  with_user_granted :
      (m : Answer User)
      → grant (with_user g r c m).0 ≡ some s
      → (user : User) × (m.0 ≡ ok user)
        × (grant
              (with_issued g r (client_actor c.identity_client_id) (
                issue_user_session g.hashing
                  (new_session g r c user)
                  (g.draws 2)
                  (g.others 2 m.1))).0
            ≡ some s)
  with_user_granted (ok user, db) h = (user, refl, h)
  with_user_granted (err (value_error m), db) h = absurd (none-ne-some s h)
  with_user_granted (err (key_error m), db) h = absurd (none-ne-some s h)
  with_user_granted (err integrity_error, db) h = absurd (none-ne-some s h)
  with_user_granted (err (runtime_error m), db) h = absurd (none-ne-some s h)

  with_user-IsIssued :
      (before : Db)
      → grant (with_user g r c (user_made g r before)).0 ≡ some s
      → IsIssued g r c before s
  with_user-IsIssued before h =
      let (user, known, h') = with_user_granted (user_made g r before) h in
      let (made, p, accepted, role) =
        with_issued_granted (client_actor c.identity_client_id) (session_made g r c user before)
          h' in
      let (t, i) =
        issued_for g.hashing (new_session g r c user) (g.draws 2)
          (g.others 2 (user_made g r before).1) s.issued made in
      record {
        tenant = t;
        client = i;
        user = user;
        known = known;
        made = made;
        principal = p;
        accepted = accepted;
        role = role;
      }

with_client-IsIssued :
    (g : Setting) (r : Exchange) (s : Granted) (m : Option ClientPrincipal × Db)
    → grant (with_client g r m).0 ≡ some s
    → (c : ClientPrincipal) × (m.0 ≡ some c) × IsIssued g r c m.1 s
with_client-IsIssued g r s (none, db) h = absurd (
    none-ne-some s (
      sym (
        no_grant-refuse g 1 r (bridge_actor g r) "authentication_failed"
          (unauthenticated r.request_id) db)
      ∙ h))
with_client-IsIssued g r s (some c, db) h = (c, refl, with_user-IsIssued g r c s db h)

-- The look at the request's bearer token.
abbrev pub client_look : Setting → Exchange → Db → Option ClientPrincipal × Db
client_look g r db =
    authenticate_identity_client g.hashing (or_empty r.token) (some r.profile.issuer)
      (g.draws 0).now (g.others 0 db)

-- Whatever others do to the tables between the calls: where `exchange_identity` answers with a
-- session, the limiter has admitted the request, its bearer token has authenticated an identity
-- client for the issuer it names, the user of its profile was found or made after that, the session
-- is the one that was then issued for that client, that user and the tenant asked for, and its token
-- was accepted by a last look, at the tables as the issue left them and others have changed them
-- since, for a principal whose role the answer gives.
pub exchange_identity_granted :
    (g : Setting) (r : Exchange) (now : ℕ) (l : Limiter) (db : Db) (s : Granted)
    → grant (exchange_identity g r now (l, db)).0 ≡ some s
    → ((check (exchange_rate_key g r) now l).allowed ≡ true)
      × (c : ClientPrincipal) × ((client_look g r db).0 ≡ some c)
      × IsIssued g r c (client_look g r db).1 s
unfolding exchange_identity
exchange_identity_granted g r now l db s h =
    elim (Bool-cases (check (exchange_rate_key g r) now l).allowed) [
      | inr refused ↦
          let no_grant =
            no_grant-refuse g 0 r (bridge_actor g r) "rate_limited"
              (rate_limited r.request_id (check (exchange_rate_key g r) now l).retry_after) db in
          let denied : grant (exchange_identity g r now (l, db)).0 ≡ none =
            rw (refused, exchange_identity) no_grant in
          absurd (none-ne-some s (sym denied ∙ h))
      | inl allowed ↦ elim (Bool-cases g.has_repository) [
        | inr missing ↦
            let denied : grant (exchange_identity g r now (l, db)).0 ≡ none =
              rw (allowed, missing, exchange_identity) refl in
            absurd (none-ne-some s (sym denied ∙ h))
        | inl there ↦
            let same : grant (exchange_identity g r now (l, db)).0
                ≡ grant (with_client g r (client_look g r db)).0 =
              rw (allowed, there, exchange_identity) refl in
            let (c, known, issued) =
              with_client-IsIssued g r s (client_look g r db) (sym same ∙ h) in
            (allowed, c, known, issued)
      ]
    ]
