-- ===== src/Identity/ApiKeys/Issue.antt =====
-- An API key that was issued is accepted until it expires.
use shared_integration.Prelude.{
  ℕ, ◌≤◌, String, ◌≡◌, refl, subst, true, false, Option, none, some, List, [], ◌∷◌, ◌++◌, arith,
  eq_iff, str_eq, any, find-fresh, Text, text_eq_iff, fullmatch, is_hex, length, Bool-cases,
  Option-cases, inl, inr,
}
use shared_integration.Result.{ok, Result-cases}
use shared_integration.Identity.Values.{
  Hashing, member, roles, has_expired, key_mark, key_token, hash_secret, verify_secret,
  normalize_scopes, normalize_expiry,
}
use shared_integration.Identity.Values.Tokens.{parse-key_token}
use shared_integration.Identity.Tables.{Tenant, ApiKey, Db, Draw, get_tenant, key_clash}
use shared_integration.Identity.ApiKeys.{
  NewKey, IssuedApiKey, issue_api_key, add_key, with_key, check_key, key_row, authenticate_api_key,
  key_principal, has_key_prefix,
}
use shared_integration.Identity.ApiKeys.Grants.{authenticate_api_key_iff}

-- What an answer of the transaction says of it.
record Added (row : ApiKey) (actor : String) (d : Draw) (db : Db) (key : ApiKey) : Type 0 where
  tenant : Tenant
  has_tenant : get_tenant row.tenant_id db ≡ some tenant
  tenant_active : tenant.status ≡ "active"
  fresh : any (key_clash row) db.api_keys ≡ false
  answer : key ≡ row
  stored : (add_key row actor d db).1 ≡ with_key row actor d (db.api_keys ++ row ∷ []) db

added :
    (row : ApiKey) (actor : String) (d : Draw) (db : Db) (key : ApiKey)
    → (add_key row actor d db).0 ≡ ok key
    → Added row actor d db key
unfolding add_key
added row actor d db key h = elim (Option-cases (get_tenant row.tenant_id db)) [
  | inl e ↦ absurd (ground (arith, h, e))
  | inr (t, has_t) ↦ elim (Bool-cases (str_eq t.status "active")) [
    | inr e ↦ absurd (ground (arith, h, has_t, e))
    | inl good ↦ elim (Bool-cases (any (key_clash row) db.api_keys)) [
      | inl e ↦ absurd (ground (arith, h, has_t, good, e))
      | inr free ↦ record {
        tenant = t;
        has_tenant = has_t;
        tenant_active = (eq_iff t.status "active").0 good;
        fresh = free;
        answer = ground (arith, h, has_t, good, free);
        stored = rw (has_t, add_key, good, free) refl;
      }
    ]
  ]
]

-- `_verify_secret` accepts what `_hash_secret` stored.
pub verify_secret-hash_secret :
    (h : Hashing) (salt secret : Text) → verify_secret h secret (hash_secret h salt secret) ≡ true
unfolding verify_secret
verify_secret-hash_secret h salt secret =
    (text_eq_iff (h.scrypt secret salt 16384 8 1) (h.scrypt secret salt 16384 8 1)).1 refl

-- What the checks before the transaction have seen.
checked_role :
    (new : NewKey) (now : ℕ) (scopes : List Text) (expiry : Option ℕ)
    → check_key new now ≡ ok (scopes, expiry)
    → member new.role roles ≡ true
unfolding check_key
checked_role new now scopes expiry e = elim (Bool-cases (member new.role roles)) [
  | inl good ↦ good
  | inr bad ↦ absurd (ground (arith, e, bad))
]

checked_scopes :
    (new : NewKey) (now : ℕ) (scopes : List Text) (expiry : Option ℕ)
    → check_key new now ≡ ok (scopes, expiry)
    → normalize_scopes new.scopes ≡ ok scopes
unfolding check_key
checked_scopes new now scopes expiry e = elim (Bool-cases (member new.role roles)) [
  | inr bad ↦ absurd (ground (arith, e, bad))
  | inl good ↦ elim (Result-cases (normalize_scopes new.scopes)) [
    | inl (x, bad) ↦ absurd (ground (arith, e, good, bad))
    | inr (found, done) ↦ elim (Result-cases (normalize_expiry new.expires_at)) [
      | inl (x, bad) ↦ absurd (ground (arith, e, good, done, bad))
      | inr (t, dated) ↦ ground (arith, e, good, done, dated)
    ]
  ]
]

accepted :
    (h : Hashing) (row : ApiKey) (actor : String) (d : Draw) (db : Db) (key : ApiKey) (now : ℕ)
    → fullmatch is_hex 24 24 d.hex ≡ true
    → 32 ≤ length d.secret
    → length d.secret ≤ 64
    → row.key_prefix ≡ key_mark ++ d.hex
    → row.secret_hash ≡ hash_secret h d.salt d.secret
    → row.revoked_at ≡ none
    → member row.role roles ≡ true
    → has_expired row.expires_at now ≡ false
    → Added row actor d db key
    → authenticate_api_key h
        (key_token (key_mark ++ d.hex) d.secret)
        now
        (with_key row actor d (db.api_keys ++ row ∷ []) db)
      ≡ some (key_principal row)
unfolding get_tenant
accepted h row actor d db key now hex lo hi prefix hash live known early a =
    (authenticate_api_key_iff h (key_token (key_mark ++ d.hex) d.secret) now _ _).1 (record {
      text = record { prefix = key_mark ++ d.hex; secret = d.secret };
      key = row;
      tenant = a.tenant;
      parsed = parse-key_token 119 d.hex d.secret refl hex lo hi;
      names =
          find-fresh (has_key_prefix (key_mark ++ d.hex)) (key_clash row) row db.api_keys
            (λ x e. ground (arith, e, prefix)) a.fresh
            ((text_eq_iff row.key_prefix (key_mark ++ d.hex)).1 prefix);
      verified = rw hash (verify_secret-hash_secret h d.salt d.secret);
      has_tenant = a.has_tenant;
      tenant_active = a.tenant_active;
      not_revoked = live;
      not_expired = early;
      role_known = known;
      answer = refl;
    })

-- When `issue_api_key` answers with a key, and what `secrets` drew has the form it documents (24
-- hexadecimal digits, and a secret of 32 to 64 characters), its token is accepted at every time at
-- which the key has not expired, with the tenant, the role, the normalised scopes and the id of
-- the key.
pub issue_then_authenticate_key :
    (h : Hashing) (new : NewKey) (actor : String) (d : Draw) (db : Db) (issued : IssuedApiKey)
    → (issue_api_key h new actor d db).0 ≡ ok issued
    → fullmatch is_hex 24 24 d.hex ≡ true
    → 32 ≤ length d.secret
    → length d.secret ≤ 64
    → (now : ℕ) → has_expired issued.key.expires_at now ≡ false
    → (authenticate_api_key h issued.token now (issue_api_key h new actor d db).1
        ≡ some (key_principal issued.key))
      × (issued.key.tenant_id ≡ new.tenant_id)
      × (issued.key.role ≡ new.role)
      × (normalize_scopes new.scopes ≡ ok issued.key.scopes)
unfolding issue_api_key
issue_then_authenticate_key h new actor d db issued answered hex lo hi now early =
    elim (Result-cases (check_key new d.now)) [
      | inl (e, bad) ↦ absurd (ground (arith, answered, bad))
      | inr ((scopes, expiry), good) ↦
          let row = key_row h new scopes expiry d in
          elim (Result-cases (add_key row actor d db).0) [
            | inl (e, bad) ↦ absurd (ground (arith, answered, good, bad))
            | inr (key, done) ↦
                let a = added row actor d db key done in
                let same : issued
                    ≡ record { key = row; token = key_token (key_mark ++ d.hex) d.secret } =
                  ground (arith, answered, good, done, a.answer) in
                let alive : has_expired expiry now ≡ false =
                  subst (λ (x : IssuedApiKey). has_expired x.key.expires_at now ≡ false) same
                    early in
                rw (good, issue_api_key, a.stored, same)
                  (
                    accepted h row actor d db key now hex lo hi refl refl refl
                        (checked_role new d.now scopes expiry good) alive a,
                    refl,
                    refl,
                    checked_scopes new d.now scopes expiry good,
                  )
          ]
    ]
