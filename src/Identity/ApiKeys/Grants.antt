-- ===== src/Identity/ApiKeys/Grants.antt =====
-- When `authenticate_api_key` answers with a principal, from the issue of a key to its revocation.
use shared_integration.Prelude.{
  ℕ, ◌≡◌, ◌↔◌, true, false, none, some, arith, eq_iff, find, Text, Option-cases, inl, inr,
}
use shared_integration.Identity.Values.{
  Hashing, member, roles, has_expired, key_mark, KeyText, parse_key, verify_secret,
}
use shared_integration.Identity.Tables.{Tenant, ApiKey, Db, get_tenant, is_none_iff}
use shared_integration.Identity.ApiKeys.{
  KeyPrincipal, authenticate_api_key, accepts, key_principal, has_key_prefix,
}

-- The rows behind a key that a token names, and what makes them good.
pub record KeyGrants (h : Hashing) (token : Text) (now : ℕ) (db : Db) (p : KeyPrincipal)
    : Type 0 where
  pub text : KeyText
  pub key : ApiKey
  pub tenant : Tenant
  pub parsed : parse_key key_mark token ≡ some text
  pub names : find (has_key_prefix text.prefix) db.api_keys ≡ some key
  pub verified : verify_secret h text.secret key.secret_hash ≡ true
  pub has_tenant : get_tenant key.tenant_id db ≡ some tenant
  pub tenant_active : tenant.status ≡ "active"
  pub not_revoked : key.revoked_at ≡ none
  pub not_expired : has_expired key.expires_at now ≡ false
  pub role_known : member key.role roles ≡ true
  pub answer : key_principal key ≡ p

grants :
    (h : Hashing) (token : Text) (now : ℕ) (db : Db) (p : KeyPrincipal)
    → authenticate_api_key h token now db ≡ some p
    → KeyGrants h token now db p
unfolding authenticate_api_key accepts
grants h token now db p e = elim (Option-cases (parse_key key_mark token)) [
  | inl bad ↦ absurd (ground (arith, e, bad))
  | inr (k, parsed) ↦ elim (Option-cases (find (has_key_prefix k.prefix) db.api_keys)) [
    | inl gone ↦ absurd (ground (arith, e, parsed, gone))
    | inr (row, named) ↦ elim (Option-cases (get_tenant row.tenant_id db)) [
      | inl gone ↦ absurd (ground (arith, e, parsed, named, gone))
      | inr (t, has_t) ↦ record {
        text = k;
        key = row;
        tenant = t;
        parsed = parsed;
        names = named;
        verified = ground (arith, e, parsed, named, has_t);
        has_tenant = has_t;
        tenant_active = ground (arith, e, parsed, named, has_t, eq_iff t.status "active");
        not_revoked = ground (arith, e, parsed, named, has_t, is_none_iff row.revoked_at);
        not_expired = ground (arith, e, parsed, named, has_t);
        role_known = ground (arith, e, parsed, named, has_t);
        answer = ground (arith, e, parsed, named, has_t);
      }
    ]
  ]
]

granted :
    (h : Hashing) (token : Text) (now : ℕ) (db : Db) (p : KeyPrincipal)
    → KeyGrants h token now db p
    → authenticate_api_key h token now db ≡ some p
unfolding authenticate_api_key accepts
granted h token now db p g =
    rw (g.parsed, authenticate_api_key, g.names)
      (ground (
        arith,
        g.verified,
        g.has_tenant,
        g.tenant_active,
        g.not_revoked,
        g.not_expired,
        g.role_known,
        g.answer,
        eq_iff g.tenant.status "active",
      ))

-- A token is answered with a principal exactly when it has the form of an API key, its prefix names
-- a key whose secret hash it verifies against, the key is neither revoked nor expired, its role is
-- known and its tenant active, and the principal is made of that key.
pub authenticate_api_key_iff :
    (h : Hashing) (token : Text) (now : ℕ) (db : Db) (p : KeyPrincipal)
    → (authenticate_api_key h token now db ≡ some p) ↔ KeyGrants h token now db p
authenticate_api_key_iff h token now db p = (grants h token now db p, granted h token now db p)
