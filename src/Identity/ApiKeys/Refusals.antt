-- ===== src/Identity/ApiKeys/Refusals.antt =====
-- What takes API keys away.
use shared_integration.Prelude.{
  ℕ, String, ◌≡◌, ◌≢◌, refl, ap, subst, ◌∙◌, none, some, arith, find, find-update, find-true, Text,
  Option-cases, inl, inr,
}
use shared_integration.Result.{ok}
use shared_integration.Identity.Values.{Hashing, key_mark, KeyText, parse_key}
use shared_integration.Identity.Tables.{Tenant, ApiKey, Db, Draw}
use shared_integration.Identity.Accounts.{set_tenant_status}
use shared_integration.Identity.ApiKeys.{
  KeyPrincipal, authenticate_api_key, has_key_prefix, is_key_of, revoke_api_key,
}
use shared_integration.Identity.ApiKeys.Grants.{authenticate_api_key_iff}
use shared_integration.Identity.Accounts.Status.{tenant_after}

-- After `set_tenant_status` has set a status other than `active`, no token is answered with a key
-- of that tenant.
pub suspended_tenant_keys_refused :
    (h : Hashing) (t status actor : String) (d : Draw) (db : Db) (row : Tenant)
    → (set_tenant_status t status actor d db).0 ≡ ok row
    → status ≢ "active"
    → (token : Text) (now : ℕ) (p : KeyPrincipal)
    → authenticate_api_key h token now (set_tenant_status t status actor d db).1 ≡ some p
    → p.tenant_id ≢ t
suspended_tenant_keys_refused h t status actor d db row changed inactive token now p e same =
    let db' = (set_tenant_status t status actor d db).1 in
    let g = (authenticate_api_key_iff h token now db' p).0 e in
    let (stored, set) = tenant_after t status actor d db row changed in
    let owner : g.key.tenant_id ≡ t = ap (λ (q : KeyPrincipal). q.tenant_id) g.answer ∙ same in
    let found = g.has_tenant in
    let good = g.tenant_active in inactive (cc (stored, set, owner, found, good))

-- The row that a prefix names, after the revocation of the key that it named.
revoked_names :
    (x : Text) (actor : String) (d : Draw) (db : Db) (row row' : ApiKey)
    → find (has_key_prefix x) db.api_keys ≡ some row
    → find (is_key_of row.tenant_id row.id) db.api_keys ≡ some row
    → find (has_key_prefix x) (revoke_api_key row.tenant_id row.id actor d db).1.api_keys
      ≡ some row'
    → row'.revoked_at ≢ none
unfolding revoke_api_key
revoked_names x actor d db row row' named stored found live =
    let here = find-true (is_key_of row.tenant_id row.id) db.api_keys row stored in
    let moved =
      find-update (has_key_prefix x) (is_key_of row.tenant_id row.id)
        (λ y. record y { revoked_at = some d.now }) db.api_keys (λ y. refl) in
    ground (arith, named, stored, found, live, here, moved)

-- After `revoke_api_key` of the key that a token's prefix names, by that key's tenant and id, the
-- token is refused at every time.
pub revoked_key_refused :
    (h : Hashing) (token : Text) (k : KeyText) (actor : String) (d : Draw) (db : Db) (row : ApiKey)
    → parse_key key_mark token ≡ some k
    → find (has_key_prefix k.prefix) db.api_keys ≡ some row
    → find (is_key_of row.tenant_id row.id) db.api_keys ≡ some row
    → (now : ℕ)
    → authenticate_api_key h token now (revoke_api_key row.tenant_id row.id actor d db).1 ≡ none
revoked_key_refused h token k actor d db row parsed named stored now =
    let db' = (revoke_api_key row.tenant_id row.id actor d db).1 in
    elim (Option-cases (authenticate_api_key h token now db')) [
      | inl e ↦ e
      | inr (p, e) ↦
          let g = (authenticate_api_key_iff h token now db' p).0 e in
          let same : g.text ≡ k = (let read = g.parsed in ground (arith, read, parsed)) in
          let here =
            subst (λ (y : KeyText). find (has_key_prefix y.prefix) db'.api_keys ≡ some g.key) same
              g.names in
          absurd (revoked_names k.prefix actor d db row g.key named stored here g.not_revoked)
    ]
