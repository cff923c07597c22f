-- ===== src/Identity/Sessions/Refusals.antt =====
-- What takes the sessions of a tenant, a member, an identity client or one session away.
use shared_integration.Prelude.{
  ℕ, String, ◌≡◌, ◌≢◌, refl, ap, subst, ◌∙◌, true, Option, none, some, arith, find, Text,
  Option-cases, inl, inr, find-update, find-true,
}
use shared_integration.Result.{ok}
use shared_integration.Identity.Values.{Hashing}
use shared_integration.Identity.Tables.{
  Tenant, Session, Client, Membership, Db, Draw, get_tenant, get_client, is_client,
}
use shared_integration.Identity.Accounts.{set_tenant_status, set_membership_status}
use shared_integration.Identity.Accounts.Status.{tenant_after, membership_after}
use shared_integration.Identity.Clients.{revoke_identity_client, revoked_client}
use shared_integration.Identity.Sessions.{
  SessionPrincipal, has_hash, is_session_of, authenticate_user_session, revoke_user_session,
}
use shared_integration.Identity.Sessions.Grants.{authenticate_user_session_iff}

-- After `set_tenant_status` has set a status other than `active`, no token is answered with a
-- principal of that tenant, at any time.
pub suspended_tenant_refused :
    (h : Hashing) (t status actor : String) (d : Draw) (db : Db) (row : Tenant)
    → (set_tenant_status t status actor d db).0 ≡ ok row
    → status ≢ "active"
    → (token : Text) (now : ℕ) (p : SessionPrincipal)
    → (authenticate_user_session h token now (set_tenant_status t status actor d db).1).0 ≡ some p
    → p.tenant_id ≢ t
suspended_tenant_refused h t status actor d db row changed inactive token now p e same =
    let db' = (set_tenant_status t status actor d db).1 in
    let g = (authenticate_user_session_iff h token now db' p).0 e in
    let after = tenant_after t status actor d db row changed in
    let owner : g.session.tenant_id ≡ t =
      ap (λ (q : SessionPrincipal). q.tenant_id) g.answer ∙ same in
    let found : get_tenant t db' ≡ some g.tenant =
      subst (λ x. get_tenant x db' ≡ some g.tenant) owner g.has_tenant in
    let good = g.tenant_active in
    let (stored, set) = after in inactive (cc (stored, set, found, good))

-- After `set_membership_status` has set a status other than `active`, no token is answered with a
-- principal of that user in that tenant.
pub suspended_member_refused :
    (h : Hashing) (t u status actor : String) (d : Draw) (db : Db) (row : Membership)
    → (set_membership_status t u status actor d db).0 ≡ ok row
    → status ≢ "active"
    → (token : Text) (now : ℕ) (p : SessionPrincipal)
    → (authenticate_user_session h token now (set_membership_status t u status actor d db).1).0
      ≡ some p
    → p.tenant_id ≡ t
    → p.user_id ≢ u
suspended_member_refused h t u status actor d db row changed inactive token now p e same_t same_u =
    let db' = (set_membership_status t u status actor d db).1 in
    let g = (authenticate_user_session_iff h token now db' p).0 e in
    let after = membership_after t u status actor d db row changed in
    let tenant_of : g.session.tenant_id ≡ t =
      ap (λ (q : SessionPrincipal). q.tenant_id) g.answer ∙ same_t in
    let user_of : g.session.user_id ≡ u =
      ap (λ (q : SessionPrincipal). q.user_id) g.answer ∙ same_u in
    let joined = g.has_membership in
    let good = g.membership_active in
    let (stored, set) = after in inactive (cc (stored, set, tenant_of, user_of, joined, good))

-- The client after its revocation.
client_after :
    (c : String) (at : ℕ) (db : Db) (x : Client)
    → (revoke_identity_client c at db).0 ≡ ok true
    → get_client c (revoke_identity_client c at db).1 ≡ some x
    → x.revoked_at ≢ none
unfolding revoke_identity_client get_client
client_after c at db x h found = elim (Option-cases (find (is_client c) db.clients)) [
  | inl e ↦ absurd (ground (arith, h, e))
  | inr (y, e) ↦
      let here = find-true (is_client c) db.clients y e in
      let moved =
        find-update (is_client c) (is_client c) (revoked_client at) db.clients (λ z. refl) in
      λ live. ground (arith, h, e, here, moved, found, live)
]

-- After `revoke_identity_client` has answered `True`, no token is answered with a principal whose
-- session that client issued.
pub revoked_client_refused :
    (h : Hashing) (c : String) (at : ℕ) (db : Db)
    → (revoke_identity_client c at db).0 ≡ ok true
    → (token : Text) (now : ℕ) (p : SessionPrincipal)
    → (authenticate_user_session h token now (revoke_identity_client c at db).1).0 ≡ some p
    → p.identity_client_id ≢ c
revoked_client_refused h c at db changed token now p e same =
    let db' = (revoke_identity_client c at db).1 in
    let g = (authenticate_user_session_iff h token now db' p).0 e in
    let issuer : g.session.identity_client_id ≡ c =
      ap (λ (q : SessionPrincipal). q.identity_client_id) g.answer ∙ same in
    let found = subst (λ x. get_client x db' ≡ some g.client) issuer g.has_client in
    client_after c at db g.client changed found g.client_not_revoked

-- The row that a hash names, after the revocation of the session that it named.
revoked_names :
    (x : Text) (actor : String) (request : Option String) (d : Draw) (db : Db) (row row' : Session)
    → find (has_hash x) db.sessions ≡ some row
    → find (is_session_of row.tenant_id row.id) db.sessions ≡ some row
    → find (has_hash x) (revoke_user_session row.tenant_id row.id actor request d db).1.sessions
      ≡ some row'
    → row'.revoked_at ≢ none
unfolding revoke_user_session
revoked_names x actor request d db row row' named stored found live =
    let here = find-true (is_session_of row.tenant_id row.id) db.sessions row stored in
    let moved =
      find-update (has_hash x) (is_session_of row.tenant_id row.id)
        (λ y. record y { revoked_at = some d.now }) db.sessions (λ y. refl) in
    ground (arith, named, stored, found, live, here, moved)

-- After `revoke_user_session` of the session that a token names, by that session's tenant and id,
-- the token is refused at every time.
pub revoked_session_refused :
    (h : Hashing) (token : Text) (actor : String) (request : Option String) (d : Draw) (db : Db)
    (row : Session)
    → find (has_hash (h.sha256 token)) db.sessions ≡ some row
    → find (is_session_of row.tenant_id row.id) db.sessions ≡ some row
    → (now : ℕ)
    → (authenticate_user_session h token now
        (revoke_user_session row.tenant_id row.id actor request d db).1).0
      ≡ none
revoked_session_refused h token actor request d db row named stored now =
    let db' = (revoke_user_session row.tenant_id row.id actor request d db).1 in
    elim (Option-cases (authenticate_user_session h token now db').0) [
      | inl e ↦ e
      | inr (p, e) ↦
          let g = (authenticate_user_session_iff h token now db' p).0 e in
          absurd (
            revoked_names (h.sha256 token) actor request d db row g.session named stored g.names
              g.not_revoked)
    ]
