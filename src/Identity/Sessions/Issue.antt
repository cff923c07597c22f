-- ===== src/Identity/Sessions/Issue.antt =====
-- A session that was issued is accepted until it expires.
use shared_integration.Prelude.{
  ℕ, ◌+◌, ◌*◌, ◌<◌, ◌≡◌, refl, true, false, ◌&&◌, none, some, [], ◌∷◌, ◌++◌, arith, leb, eq_iff,
  any, find-fresh, Text, text_eq_iff, fullmatch, has_prefix, Bool-cases, Option-cases, inl, inr,
}
use shared_integration.Result.{ok, Result-cases}
use shared_integration.Identity.Values.{
  Hashing, member, roles, is_session_token, is_url_safe, session_mark,
}
use shared_integration.Identity.Tables.{
  Tenant, Client, Membership, Session, Db, Draw, get_tenant, get_client, find_membership,
  session_clash,
}
use shared_integration.Identity.Sessions.{
  NewSession, SessionPrincipal, IssuedSession, issue_user_session, add_session, with_session,
  check_session, session_row, authenticate_user_session, session_principal, has_hash,
}
use shared_integration.Identity.Sessions.Grants.{authenticate_user_session_iff}

-- What the guards of `issue_user_session` have seen.
record Passed (new : NewSession) (db : Db) : Type 0 where
  client : Client
  tenant : Tenant
  membership : Membership
  has_client : get_client new.identity_client_id db ≡ some client
  has_tenant : get_tenant new.tenant_id db ≡ some tenant
  has_membership : find_membership new.tenant_id new.user_id db ≡ some membership
  client_active : client.active ≡ true
  client_not_revoked : client.revoked_at ≡ none
  tenant_active : tenant.status ≡ "active"
  membership_active : membership.status ≡ "active"
  role_known : member membership.role roles ≡ true

passed : (new : NewSession) (db : Db) → check_session new db ≡ ok tt → Passed new db
unfolding check_session
passed new db h = elim (Option-cases (get_client new.identity_client_id db)) [
  | inl e ↦ absurd (ground (arith, h, e))
  | inr (c, has_c) ↦ elim (Option-cases (get_tenant new.tenant_id db)) [
    | inl e ↦ absurd (ground (arith, h, has_c, e))
    | inr (t, has_t) ↦ elim (Option-cases (find_membership new.tenant_id new.user_id db)) [
      | inl e ↦ absurd (ground (arith, h, has_c, has_t, e))
      | inr (m, has_m) ↦ record {
        client = c;
        tenant = t;
        membership = m;
        has_client = has_c;
        has_tenant = has_t;
        has_membership = has_m;
        client_active = ground (arith, h, has_c, has_t, has_m);
        client_not_revoked = ground (arith, h, has_c, has_t, has_m);
        tenant_active = ground (arith, h, has_c, has_t, has_m, eq_iff t.status "active");
        membership_active = ground (arith, h, has_c, has_t, has_m, eq_iff m.status "active");
        role_known = ground (arith, h, has_c, has_t, has_m);
      }
    ]
  ]
]

token_shape :
    (s : Text) → fullmatch is_url_safe 40 64 s ≡ true → is_session_token (session_mark ++ s) ≡ true
unfolding is_session_token has_prefix
token_shape s h = h

-- What an answer of the transaction says of it.
pub record Added (row : Session) (token : Text) (new : NewSession) (d : Draw) (db : Db)
    (issued : IssuedSession) : Type 0 where
  checked : check_session new db ≡ ok tt
  fresh : any (session_clash row) db.sessions ≡ false
  pub answer : issued ≡ record { session = row; token = token }
  stored : (add_session row token new d db).1 ≡ with_session row new d (db.sessions ++ row ∷ []) db

pub added :
    (row : Session) (token : Text) (new : NewSession) (d : Draw) (db : Db) (issued : IssuedSession)
    → (add_session row token new d db).0 ≡ ok issued
    → Added row token new d db issued
unfolding add_session
added row token new d db issued h = elim (Result-cases (check_session new db)) [
  | inl (e, bad) ↦ absurd (ground (arith, h, bad))
  | inr (u, good) ↦ elim (Bool-cases (any (session_clash row) db.sessions)) [
    | inl clash ↦ absurd (ground (arith, h, good, clash))
    | inr free ↦ record {
      checked = good;
      fresh = free;
      answer = ground (arith, h, good, free);
      stored = rw (good, add_session, free) refl;
    }
  ]
]

-- The session of a token, as the caller of `issue_user_session` asked for it.
pub record IsFor (new : NewSession) (issued : IssuedSession) (p : SessionPrincipal) : Type 0 where
  pub tenant : p.tenant_id ≡ new.tenant_id
  pub user : p.user_id ≡ new.user_id
  pub issuer : p.identity_client_id ≡ new.identity_client_id
  pub session : p.session_id ≡ issued.session.id
  pub role : member p.role roles ≡ true

accepted :
    (h : Hashing) (new : NewSession) (ttl : ℕ) (d : Draw) (db : Db) (now : ℕ)
    → fullmatch is_url_safe 40 64 d.secret ≡ true
    → now < d.now + ttl
    → (w : Passed new db)
    → any (session_clash (session_row h new (session_mark ++ d.secret) ttl d)) db.sessions ≡ false
    → (authenticate_user_session h (session_mark ++ d.secret) now (
        with_session
          (session_row h new (session_mark ++ d.secret) ttl d)
          new
          d
          (db.sessions ++ session_row h new (session_mark ++ d.secret) ttl d ∷ [])
          db)).0
      ≡ some (session_principal (session_row h new (session_mark ++ d.secret) ttl d) w.membership)
unfolding get_client get_tenant find_membership
accepted h new ttl d db now url_safe early w free =
    let token = session_mark ++ d.secret in
    let row = session_row h new token ttl d in
    (authenticate_user_session_iff h token now _ _).1 (record {
      session = row;
      client = w.client;
      tenant = w.tenant;
      membership = w.membership;
      has_shape = token_shape d.secret url_safe;
      names =
          find-fresh (has_hash (h.sha256 token)) (session_clash row) row db.sessions
            (λ x e. ground (arith, e)) free
            ((text_eq_iff (h.sha256 token) (h.sha256 token)).1 refl);
      has_client = w.has_client;
      has_tenant = w.has_tenant;
      has_membership = w.has_membership;
      not_revoked = refl;
      not_expired = early;
      client_active = w.client_active;
      client_not_revoked = w.client_not_revoked;
      tenant_active = w.tenant_active;
      membership_active = w.membership_active;
      role_known = w.role_known;
      answer = refl;
    })

-- When `issue_user_session` answers with a session, and the secret drawn is 40 to 64 URL-safe
-- characters, its token is accepted at every time before the session expires, with a principal of
-- the client, tenant and user that were asked for, that session and a known role; and it expires
-- `ttl_seconds` after the time of the call.
pub issue_then_authenticate :
    (h : Hashing) (new : NewSession) (d : Draw) (db : Db) (issued : IssuedSession)
    → (issue_user_session h new d db).0 ≡ ok issued
    → fullmatch is_url_safe 40 64 d.secret ≡ true
    → (issued.session.expires_at ≡ d.now + new.ttl_seconds * 1000000)
      × ((now : ℕ)
          → now < issued.session.expires_at
          → (p : SessionPrincipal) × ((authenticate_user_session h issued.token now
                (issue_user_session h new d db).1).0
              ≡ some p)
            × IsFor new issued p)
unfolding issue_user_session
issue_then_authenticate h new d db issued answered url_safe =
    elim (Bool-cases (leb 1 new.ttl_seconds && leb new.ttl_seconds 900)) [
      | inr bad ↦ absurd (ground (arith, answered, bad))
      | inl good ↦
          let ttl : ℕ = new.ttl_seconds * 1000000 in
          let row = session_row h new (session_mark ++ d.secret) ttl d in
          let a =
            added row (session_mark ++ d.secret) new d db issued
              (rw (good, issue_user_session) at answered) in
          let w = passed new db a.checked in
          rw (good, issue_user_session, a.answer, a.stored)
            (
              refl,
              λ now early. (
                session_principal row w.membership,
                accepted h new ttl d db now url_safe early w a.fresh,
                record {
                  tenant = refl;
                  user = refl;
                  issuer = refl;
                  session = refl;
                  role = w.role_known;
                },
              ),
            )
    ]
