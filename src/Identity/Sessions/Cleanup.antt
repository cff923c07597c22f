-- ===== src/Identity/Sessions/Cleanup.antt =====
-- Deleting expired sessions changes no later answer.
use shared_integration.Prelude.{
  ℕ, ◌≤◌, ◌≡◌, refl, sym, ap, ◌∙◌, true, false, not, Option, none, some, List, [], ◌∷◌, arith, find,
  select, any, Text, text_eq, text_eq_iff, leb, Bool-cases, inl, inr,
}
use shared_integration.Identity.Values.{Hashing}
use shared_integration.Identity.Tables.{
  Session, Db, is_client, is_tenant, is_membership, get_client, get_tenant, find_membership,
}
use shared_integration.Identity.Sessions.{
  SessionPrincipal, has_hash, clean, authenticate_user_session,
}
use shared_integration.Identity.Sessions.Grants.{Grants, authenticate_user_session_iff}

-- No two sessions have the same hash of a token.
abbrev pub HasUniqueHashes : List Session → Type 0
HasUniqueHashes [] = Unit
HasUniqueHashes (x ∷ xs) = (any (has_hash x.token_hash) xs ≡ false) × HasUniqueHashes xs

kept_found :
    (x : Text) (cutoff : ℕ) (row : Session) (xs : List Session)
    → find (has_hash x) xs ≡ some row
    → leb row.expires_at cutoff ≡ false
    → find (has_hash x) (select (λ r. not (leb r.expires_at cutoff)) xs) ≡ some row
unfolding find select
kept_found x cutoff row [] e live = absurd (ground arith)
kept_found x cutoff row (y ∷ xs) e live = ground (arith, e, live, kept_found x cutoff row xs)

found_in_rest :
    (x : Text) (cutoff : ℕ) (row y : Session) (xs : List Session)
    → find (has_hash x) (select (λ r. not (leb r.expires_at cutoff)) xs) ≡ some row
    → any (has_hash y.token_hash) xs ≡ false
    → text_eq y.token_hash x ≡ true
    → ⊥
unfolding find select any
found_in_rest x cutoff row y [] e free same = absurd (ground arith)
found_in_rest x cutoff row y (z ∷ xs) e free same = ground (
  arith,
  e,
  free,
  same,
  text_eq_iff y.token_hash x,
  text_eq_iff z.token_hash x,
  text_eq_iff z.token_hash y.token_hash,
  found_in_rest x cutoff row y xs,
)

found_before :
    (x : Text) (cutoff : ℕ) (row : Session) (xs : List Session)
    → HasUniqueHashes xs
    → find (has_hash x) (select (λ r. not (leb r.expires_at cutoff)) xs) ≡ some row
    → find (has_hash x) xs ≡ some row
unfolding find select
found_before x cutoff row [] u e = absurd (ground arith)
found_before x cutoff row (y ∷ xs) u e = elim (Bool-cases (text_eq y.token_hash x)) [
  | inl here ↦ elim (Bool-cases (leb y.expires_at cutoff)) [
    | inl gone ↦ absurd (found_in_rest x cutoff row y xs (ground (arith, e, gone)) u.0 here)
    | inr live ↦ ground (arith, e, here, live)
  ]
  | inr other ↦ ground (arith, e, other, found_before x cutoff row xs u.1)
]

same_answers {ℓ} :
    {A : Type ℓ} (x y : Option A)
    → ((a : A) → x ≡ some a → y ≡ some a)
    → ((a : A) → y ≡ some a → x ≡ some a)
    → x ≡ y
same_answers none none f g = refl
same_answers none (some b) f g = g b refl
same_answers (some a) y f g = sym (f a refl)

moved :
    (h : Hashing) (token : Text) (now : ℕ) (db db' : Db) (p : SessionPrincipal)
    → (g : Grants h token now db p) → db'.clients ≡ db.clients
    → db'.tenants ≡ db.tenants
    → db'.memberships ≡ db.memberships
    → find (has_hash (h.sha256 token)) db'.sessions ≡ some g.session
    → Grants h token now db' p
unfolding get_client get_tenant find_membership
moved h token now db db' p g clients tenants memberships named = record {
  session = g.session;
  client = g.client;
  tenant = g.tenant;
  membership = g.membership;
  has_shape = g.has_shape;
  names = named;
  has_client = ap (find (is_client g.session.identity_client_id)) clients ∙ g.has_client;
  has_tenant = ap (find (is_tenant g.session.tenant_id)) tenants ∙ g.has_tenant;
  has_membership =
      ap (find (is_membership g.session.tenant_id g.session.user_id)) memberships
      ∙ g.has_membership;
  not_revoked = g.not_revoked;
  not_expired = g.not_expired;
  client_active = g.client_active;
  client_not_revoked = g.client_not_revoked;
  tenant_active = g.tenant_active;
  membership_active = g.membership_active;
  role_known = g.role_known;
  answer = g.answer;
}

-- Where no two sessions have the same token hash, deleting the sessions that expired by a cutoff
-- changes no answer of `authenticate_user_session` at the cutoff or later.
pub cleanup_keeps_answers :
    (h : Hashing) (token : Text) (cutoff now : ℕ) (db : Db)
    → HasUniqueHashes db.sessions
    → cutoff ≤ now
    → (authenticate_user_session h token now (clean cutoff db).1).0
      ≡ (authenticate_user_session h token now db).0
cleanup_keeps_answers h token cutoff now db u le =
    let db' = (clean cutoff db).1 in
    same_answers _ _
      (λ p e.
        let g = (authenticate_user_session_iff h token now db' p).0 e in
        (authenticate_user_session_iff h token now db p).1 (
          moved h token now db' db p g refl refl refl
            (found_before (h.sha256 token) cutoff g.session db.sessions u g.names)))
      (λ p e.
        let g = (authenticate_user_session_iff h token now db p).0 e in
        let later = g.not_expired in
        (authenticate_user_session_iff h token now db' p).1 (
          moved h token now db db' p g refl refl refl (
            kept_found (h.sha256 token) cutoff g.session db.sessions g.names
              (ground (arith, later, le)))))
