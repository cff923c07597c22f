-- ===== src/Identity/ApiKeys/Revoked.antt =====
-- A key that is revoked stays so.
use mathlib.Core.Option
use shared_integration.Prelude.{
  ℕ, String, ◌≡◌, ◌≢◌, refl, ap, subst, ◌∙◌, none, some, List, [], ◌∷◌, arith, find, update, any,
  str_eq, applied, find-append, find-update, Text, Bool-cases, Option-cases, inl, inr,
}
use shared_integration.Result.{Result-cases}
use shared_integration.Identity.Values.{Hashing, key_mark, KeyText, parse_key}
use shared_integration.Identity.Tables.{ApiKey, Db, Draw, get_tenant, key_clash, is_none}
use shared_integration.Identity.ApiKeys.{
  NewKey, issue_api_key, add_key, check_key, key_row, revoke_api_key, authenticate_api_key,
  has_key_prefix, is_key_of,
}
use shared_integration.Identity.ApiKeys.Grants.{authenticate_api_key_iff}

-- The calls that write keys.
pub data KeyOp : Type 0 where
  issues : NewKey → String → Draw → KeyOp
  revokes : String → String → String → Draw → KeyOp

unfoldable pub key_step : Hashing → Db → KeyOp → Db
key_step h db (issues new actor d) = (issue_api_key h new actor d db).1
key_step h db (revokes t i actor d) = (revoke_api_key t i actor d db).1

unfoldable pub key_run : Hashing → Db → List KeyOp → Db
unfolding key_step
key_run h db [] = db
key_run h db (o ∷ os) = key_run h (key_step h db o) os

-- The key that a prefix names is there and revoked.
abbrev pub IsRevoked : Text → Db → Type 0
IsRevoked x db =
    (row : ApiKey) × (find (has_key_prefix x) db.api_keys ≡ some row) × (row.revoked_at ≢ none)

add_key-IsRevoked :
    (x : Text) (row : ApiKey) (actor : String) (d : Draw) (db : Db)
    → IsRevoked x db
    → IsRevoked x (add_key row actor d db).1
unfolding add_key
add_key-IsRevoked x row actor d db r = elim (Option-cases (get_tenant row.tenant_id db)) [
  | inl e ↦ rw (e, add_key) r
  | inr (t, e) ↦
      rw (e, add_key)
        (elim (Bool-cases (str_eq t.status "active")) [
          | inr closed ↦ rw closed r
          | inl open_ ↦ rw open_ (elim (Bool-cases (any (key_clash row) db.api_keys)) [
            | inl clash ↦ rw clash r
            | inr free ↦
                rw free
                  (r.0, find-append (has_key_prefix x) db.api_keys (row ∷ []) ∙ rw r.1 refl, r.2)
          ])
        ])
]

issue-IsRevoked :
    (x : Text) (h : Hashing) (new : NewKey) (actor : String) (d : Draw) (db : Db)
    → IsRevoked x db
    → IsRevoked x (issue_api_key h new actor d db).1
unfolding issue_api_key
issue-IsRevoked x h new actor d db r = elim (Result-cases (check_key new d.now)) [
  | inl (e, bad) ↦ rw (bad, issue_api_key) r
  | inr ((scopes, expiry), good) ↦
      rw (good, issue_api_key) (add_key-IsRevoked x (key_row h new scopes expiry d) actor d db r)
]

revoke-IsRevoked :
    (t i actor : String) (p : Text) (d : Draw) (db : Db)
    → IsRevoked p db
    → IsRevoked p (revoke_api_key t i actor d db).1
unfolding revoke_api_key
revoke-IsRevoked t i actor p d db r = elim (Option-cases (find (is_key_of t i) db.api_keys)) [
  | inl e ↦ rw (e, revoke_api_key) r
  | inr (row, e) ↦
      rw (e, revoke_api_key)
        (elim (Bool-cases (is_none row.revoked_at)) [
          | inr done ↦ rw done r
          | inl live ↦ rw live (elim (Bool-cases (is_key_of t i r.0)) [
            | inl hit ↦ (
              record r.0 { revoked_at = some d.now },
              moved ∙ rw (r.1, hit) refl,
              λ (n : some d.now ≡ none). absurd (ground (arith, n)),
            )
            | inr miss ↦ (r.0, moved ∙ rw (r.1, miss) refl, r.2)
          ])
        ])
]
  where
    moved :
        find
          (has_key_prefix p)
          (update (is_key_of t i) (λ y. record y { revoked_at = some d.now }) db.api_keys)
        ≡ Option.map
            (applied (is_key_of t i) (λ y. record y { revoked_at = some d.now }))
            (find (has_key_prefix p) db.api_keys)
    moved =
        find-update (has_key_prefix p) (is_key_of t i) (λ y. record y { revoked_at = some d.now })
          db.api_keys (λ y. refl)

run-IsRevoked :
    (x : Text) (h : Hashing) (db : Db) (os : List KeyOp)
    → IsRevoked x db
    → IsRevoked x (key_run h db os)
unfolding key_run key_step
run-IsRevoked x h db [] r = r
run-IsRevoked x h db (issues new actor d ∷ os) r =
    run-IsRevoked x h (issue_api_key h new actor d db).1 os (issue-IsRevoked x h new actor d db r)
run-IsRevoked x h db (revokes t i actor d ∷ os) r =
    run-IsRevoked x h (revoke_api_key t i actor d db).1 os (revoke-IsRevoked t i actor x d db r)

-- A token whose key is revoked is refused at every time, whatever keys are issued and revoked later.
pub revoked_key_stays_refused :
    (h : Hashing) (token : Text) (k : KeyText) (db : Db) (os : List KeyOp) (now : ℕ)
    → parse_key key_mark token ≡ some k
    → IsRevoked k.prefix db
    → authenticate_api_key h token now (key_run h db os) ≡ none
revoked_key_stays_refused h token k db os now parsed r =
    let db' = key_run h db os in
    let (row, named, gone) = run-IsRevoked k.prefix h db os r in
    elim (Option-cases (authenticate_api_key h token now db')) [
      | inl e ↦ e
      | inr (p, e) ↦
          let g = (authenticate_api_key_iff h token now db' p).0 e in
          let text = g.parsed in
          let same : g.text ≡ k = ground (arith, text, parsed) in
          let here =
            subst (λ (y : KeyText). find (has_key_prefix y.prefix) db'.api_keys ≡ some g.key) same
              g.names in
          let key : row ≡ g.key = ground (arith, named, here) in
          absurd (gone (ap (λ (y : ApiKey). y.revoked_at) key ∙ g.not_revoked))
    ]
