-- ===== src/Identity/Sessions/Grants.antt =====
-- When `authenticate_user_session` answers with a principal.
use shared_integration.Prelude.{
  ℕ, ◌<◌, ◌≡◌, ◌↔◌, true, none, some, arith, eq_iff, find, Text, Option-cases, inl, inr,
}
use shared_integration.Identity.Values.{Hashing, member, roles, is_session_token}
use shared_integration.Identity.Tables.{
  Tenant, Membership, Client, Session, Db, get_tenant, find_membership, get_client, is_none_iff,
}
use shared_integration.Identity.Sessions.{
  SessionPrincipal, has_hash, session_principal, authenticate_user_session, answer_session,
}

-- The rows behind a session that a token names, and what makes them good.
pub record Grants (h : Hashing) (token : Text) (now : ℕ) (db : Db) (p : SessionPrincipal)
    : Type 0 where
  pub session : Session
  pub client : Client
  pub tenant : Tenant
  pub membership : Membership
  pub has_shape : is_session_token token ≡ true
  pub names : find (has_hash (h.sha256 token)) db.sessions ≡ some session
  pub has_client : get_client session.identity_client_id db ≡ some client
  pub has_tenant : get_tenant session.tenant_id db ≡ some tenant
  pub has_membership : find_membership session.tenant_id session.user_id db ≡ some membership
  pub not_revoked : session.revoked_at ≡ none
  pub not_expired : now < session.expires_at
  pub client_active : client.active ≡ true
  pub client_not_revoked : client.revoked_at ≡ none
  pub tenant_active : tenant.status ≡ "active"
  pub membership_active : membership.status ≡ "active"
  pub role_known : member membership.role roles ≡ true
  pub answer : session_principal session membership ≡ p

grants :
    (h : Hashing) (token : Text) (now : ℕ) (db : Db) (p : SessionPrincipal)
    → (authenticate_user_session h token now db).0 ≡ some p
    → Grants h token now db p
unfolding authenticate_user_session answer_session
grants h token now db p e = elim (Option-cases (find (has_hash (h.sha256 token)) db.sessions)) [
  | inl none_found ↦ absurd (ground (arith, e, none_found))
  | inr (row, named) ↦ elim (Option-cases (find_membership row.tenant_id row.user_id db)) [
    | inl gone ↦ absurd (ground (arith, e, named, gone))
    | inr (m, joined) ↦ elim (Option-cases (get_client row.identity_client_id db)) [
      | inl gone ↦ absurd (ground (arith, e, named, joined, gone))
      | inr (c, has_c) ↦ elim (Option-cases (get_tenant row.tenant_id db)) [
        | inl gone ↦ absurd (ground (arith, e, named, joined, has_c, gone))
        | inr (t, has_t) ↦ record {
          session = row;
          client = c;
          tenant = t;
          membership = m;
          has_shape = ground (arith, e, named);
          names = named;
          has_client = has_c;
          has_tenant = has_t;
          has_membership = joined;
          not_revoked = ground (arith, e, named, joined, has_c, has_t, is_none_iff row.revoked_at);
          not_expired = ground (arith, e, named, joined, has_c, has_t);
          client_active = ground (arith, e, named, joined, has_c, has_t);
          client_not_revoked =
              ground (arith, e, named, joined, has_c, has_t, is_none_iff c.revoked_at);
          tenant_active = ground (arith, e, named, joined, has_c, has_t, eq_iff t.status "active");
          membership_active =
              ground (arith, e, named, joined, has_c, has_t, eq_iff m.status "active");
          role_known = ground (arith, e, named, joined, has_c, has_t);
          answer = ground (arith, e, named, joined, has_c, has_t);
        }
      ]
    ]
  ]
]

granted :
    (h : Hashing) (token : Text) (now : ℕ) (db : Db) (p : SessionPrincipal)
    → Grants h token now db p
    → (authenticate_user_session h token now db).0 ≡ some p
unfolding authenticate_user_session answer_session
granted h token now db p g =
    rw (g.names, authenticate_user_session, g.has_shape, g.has_membership, answer_session)
      (ground (
        arith,
        g.has_client,
        g.has_tenant,
        g.not_revoked,
        g.client_active,
        g.client_not_revoked,
        g.tenant_active,
        g.membership_active,
        g.role_known,
        g.not_expired,
        g.answer,
        eq_iff g.tenant.status "active",
        eq_iff g.membership.status "active",
      ))

-- A token is answered with a principal exactly when it has the form of a session token, its hash
-- names a session that is neither revoked nor expired, the session's identity client is active and
-- not revoked, its tenant is active, its user has an active membership with a known role in that
-- tenant, and the principal is made of that session and the membership's role.
pub authenticate_user_session_iff :
    (h : Hashing) (token : Text) (now : ℕ) (db : Db) (p : SessionPrincipal)
    → ((authenticate_user_session h token now db).0 ≡ some p) ↔ Grants h token now db p
authenticate_user_session_iff h token now db p = (grants h token now db p, granted h token now db p)
