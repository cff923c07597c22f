-- ===== src/Auth/Access/Rules.antt =====
-- What the middleware lets through.
use shared_integration.Prelude.{
  String, ◌≡◌, refl, subst, ◌≢◌, ◌↔◌, ◌⊎◌, inl, inr, Bool, true, false, Option, none, some, List,
  [], ◌∷◌, Memᴰ, arith, eq_iff, Text, upper, is_ascii, Option-cases, text_eq_iff,
}
use shared_integration.Auth.Access.{
  Principal, Request, Middleware, served, raised, ask, bearer_token, compare_digest,
  static_principal, authenticate, is_public, is_route_auth, is_open, is_admin_path, is_safe,
  mem_string, needed_scope, authorize, handle, is_empty,
}

-- What role-based access asks of a principal: the admin role under /v1/admin/, more than the viewer
-- role for a method that changes something, and, of a principal whose scopes are limited, the
-- scope of the request.
pub record MayCall (p : Principal) (method path : Text) : Type 0 where
  pub admin : is_admin_path path ≡ true → p.role ≡ "admin"
  pub writer : is_safe method ≡ false → p.role ≢ "viewer"
  pub scoped :
      (scopes : List String)
      → p.scopes ≡ some scopes
      → is_empty scopes ≡ false
      → (mem_string "gateway:*" scopes ≡ true)
        ⊎ (mem_string (needed_scope method path) scopes ≡ true)

authorize-MayCall :
    (p q : Principal) (method path : Text)
    → authorize p method path ≡ served q
    → MayCall p method path
unfolding authorize
authorize-MayCall p q method path h = record {
  admin = ground (arith, h, eq_iff p.role "admin");
  writer = ground (arith, h, eq_iff p.role "viewer");
  scoped = λ scopes e some_scopes. ground (arith, h, e, some_scopes);
}

authorize_same : (p q : Principal) (method path : Text) → authorize p method path ≡ served q → p ≡ q
unfolding authorize
authorize_same p q method path h = ground arith

MayCall-authorize :
    (p : Principal) (method path : Text)
    → MayCall p method path
    → authorize p method path ≡ served p
unfolding authorize
MayCall-authorize p method path c = elim (Option-cases p.scopes) [
  | inl e ↦ ground (arith, e, eq_iff p.role "admin", eq_iff p.role "viewer", c.admin, c.writer)
  | inr (scopes, e) ↦ ground (
    arith,
    e,
    eq_iff p.role "admin",
    eq_iff p.role "viewer",
    c.admin,
    c.writer,
    c.scoped scopes e,
  )
]

-- A request that the middleware has to authenticate.
abbrev pub IsGuarded : Middleware → Request → Type 0
IsGuarded m r =
    (r.http ≡ true)
    × (is_public r.path ≡ false)
    × (is_route_auth r.path ≡ false)
    × (is_open m ≡ false)

-- A guarded request is served as `p` exactly if its bearer token authenticates as `p` and `p`
-- may make the call by its role and scopes.
pub handle_served_iff :
    (m : Middleware) (r : Request) (p : Principal)
    → IsGuarded m r
    → (handle m r ≡ served p)
      ↔ ((authenticate m r ≡ some (some p)) × MayCall p (upper r.method) r.path)
unfolding handle
handle_served_iff m r p g =
    (forth, λ c. ground (arith, c.0, MayCall-authorize p (upper r.method) r.path c.1))
  where
    granted :
        (o : Option (Option Principal))
        → authenticate m r ≡ o
        → handle m r ≡ served p
        → (authenticate m r ≡ some (some p)) × MayCall p (upper r.method) r.path
    granted none e h = ground (arith, e, h)
    granted (some none) e h = ground (arith, e, h)
    granted (some (some q)) e h =
        let run : authorize q (upper r.method) r.path ≡ served p = ground (arith, e, h) in
        let same : q ≡ p = authorize_same q p (upper r.method) r.path run in
        (
          cc,
          subst (λ x. MayCall x (upper r.method) r.path) same
              (authorize-MayCall q p (upper r.method) r.path run),
        )

    forth :
        handle m r ≡ served p
        → (authenticate m r ≡ some (some p)) × MayCall p (upper r.method) r.path
    forth h = granted (authenticate m r) refl h

static_principal-Mem :
    (token : Text) (ps : List (Text × Principal)) (p : Principal)
    → static_principal token ps ≡ some (some p)
    → Memᴰ (token, p) ps
unfolding static_principal
static_principal-Mem token [] p h = absurd (ground arith)
static_principal-Mem token ((configured, q) ∷ ps) p h =
    split (compare_digest token configured) refl (static_principal-Mem token ps p)
  where
    same : compare_digest token configured ≡ some true → token ≡ configured
    same e = unfold compare_digest in ground (arith, e, text_eq_iff token configured)

    split :
        (o : Option Bool)
        → compare_digest token configured ≡ o
        → (static_principal token ps ≡ some (some p) → Memᴰ (token, p) ps)
        → Memᴰ (token, p) ((configured, q) ∷ ps)
    split none e later = absurd (ground (arith, e, h))
    split (some true) e later =
        let hit : p ≡ q = ground (arith, e, h) in Memᴰ.head (λ i. (same e i, hit i))
    split (some false) e later = Memᴰ.tail (later (ground (arith, e, h)))

-- Whoever is served on a guarded request is the principal that is configured for exactly the
-- bearer token of the request, or the one that the authenticator gives for that token.
pub handle_served_token :
    (m : Middleware) (r : Request) (p : Principal)
    → IsGuarded m r
    → handle m r ≡ served p
    → (token : Text) × (bearer_token r ≡ some token)
      × (Memᴰ (token, p) m.principals ⊎ (ask m.authenticator token ≡ some p))
handle_served_token m r p g h = origin (bearer_token r) refl ((handle_served_iff m r p g).0 h).0
  where
    origin :
        (b : Option Text)
        → bearer_token r ≡ b
        → authenticate m r ≡ some (some p)
        → (token : Text) × (bearer_token r ≡ some token)
          × (Memᴰ (token, p) m.principals ⊎ (ask m.authenticator token ≡ some p))
    origin none e a = absurd (unfold authenticate in ground (arith, e, a))
    origin (some token) e a = (token, e, source (static_principal token m.principals) refl)
      where
        source :
            (o : Option (Option Principal))
            → static_principal token m.principals ≡ o
            → Memᴰ (token, p) m.principals ⊎ (ask m.authenticator token ≡ some p)
        source none s = absurd (unfold authenticate in ground (arith, e, a, s))
        source (some none) s = inr (unfold authenticate in ground (arith, e, a, s))
        source (some (some q)) s = inl (
            static_principal-Mem token m.principals p
              (unfold authenticate in ground (arith, e, a, s)))

-- Where a token is configured, a guarded request with a bearer token that is not ASCII makes the
-- middleware raise, since `compare_digest` takes no such text.
pub handle_not_ascii :
    (m : Middleware) (r : Request) (q : Text × Principal) (ps : List (Text × Principal))
    (token : Text)
    → IsGuarded m r
    → m.principals ≡ q ∷ ps
    → bearer_token r ≡ some token
    → is_ascii token ≡ false
    → handle m r ≡ raised
unfolding handle authenticate static_principal
handle_not_ascii m r q ps token g e b a = ground arith
