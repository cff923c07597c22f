-- ===== src/Auth/Access.antt =====
-- `TenantRBACMiddleware` of src/shared_integration/auth.py: who a request is served as, if at all.
-- Header names and values are decoded texts; the database authenticator is a parameter.
pub mod Rules
use shared_integration.Prelude.{
  String, Bool, true, false, not, ◌&&◌, ◌||◌, Option, none, some, List, [], ◌∷◌, ℕ, str_eq,
  if◌then◌else◌, Text, codes, text_eq, has_prefix, has_suffix, lower, upper, partition, is_ascii,
}

pub data AuthType : Type 0 where
  machine user public route : AuthType

pub record Principal : Type 0 where
  pub tenant_id : String
  pub role : String
  pub scopes : Option (List String)
  pub auth_type : AuthType
  pub user_id : Option String
  pub session_id : Option String
  pub identity_client_id : Option String
  pub api_key_id : Option String

-- `Principal(tenant_id, role)` with the defaults of its other fields
abbrev pub machine_principal : String → String → Principal
machine_principal t r = record {
  tenant_id = t;
  role = r;
  scopes = none;
  auth_type = machine;
  user_id = none;
  session_id = none;
  identity_client_id = none;
  api_key_id = none;
}

-- What an authenticator returns: the attributes that `_authenticate` reads off it by `getattr`.
pub record Authenticated : Type 0 where
  pub tenant_id : String
  pub role : String
  pub scopes : Option (List String)
  pub user_id : Option String
  pub session_id : Option String
  pub identity_client_id : Option String
  pub api_key_id : Option String

pub record Request : Type 0 where
  pub http : Bool
  pub method : Text
  pub path : Text
  pub headers : List (Text × Text)

pub record Middleware : Type 0 where
  pub principals : List (Text × Principal)
  pub authenticator : Option (Text → Option Authenticated)

-- What the middleware does: it hands the request on untouched, serves it as a principal, answers
-- with an error, or raises the `TypeError` of `hmac.compare_digest`.
pub data Decision : Type 0 where
  untouched : Decision
  served : Principal → Decision
  refused : ℕ → String → Decision
  raised : Decision

-- `{k.lower(): v for k, v in headers}.get(name)`: the last header of that name.
unfoldable pub header : Text → List (Text × Text) → Option Text
header name [] = none
header name ((k, v) ∷ hs) = elim (header name hs) [
  | some later ↦ some later
  | none ↦ if text_eq (lower k) name then some v else none
]

-- The token of an `Authorization: Bearer …` header; `none` where it is missing or empty.
abbrev pub bearer_of : Option Text → Option Text
bearer_of none = none
bearer_of (some value) =
    let parts = partition 32 value in
    if not (text_eq (lower parts.before) (codes "bearer")) || text_eq parts.after []
    then none
    else some parts.after

unfoldable pub bearer_token : Request → Option Text
unfolding header
bearer_token r = bearer_of (header (codes "authorization") r.headers)

-- `hmac.compare_digest` of two texts: `none` is its `TypeError` at a text that is not ASCII.
unfoldable pub compare_digest : Text → Text → Option Bool
compare_digest a b = if is_ascii a && is_ascii b then some (text_eq a b) else none

-- The loop over the configured tokens; `none` where a comparison raises.
unfoldable pub static_principal : Text → List (Text × Principal) → Option (Option Principal)
unfolding compare_digest
static_principal token [] = some none
static_principal token ((configured, p) ∷ ps) = elim (compare_digest token configured) [
  | none ↦ none
  | some true ↦ some (some p)
  | some false ↦ static_principal token ps
]

-- `"user" if getattr(authenticated, "session_id", None) else "machine"`: an empty id is no id.
abbrev pub auth_type_of : Option String → AuthType
auth_type_of none = machine
auth_type_of (some s) = if str_eq s "" then machine else user

abbrev pub principal_of : Authenticated → Principal
principal_of a = record {
  tenant_id = a.tenant_id;
  role = a.role;
  scopes = a.scopes;
  auth_type = auth_type_of a.session_id;
  user_id = a.user_id;
  session_id = a.session_id;
  identity_client_id = a.identity_client_id;
  api_key_id = a.api_key_id;
}

abbrev pub ask : Option (Text → Option Authenticated) → Text → Option Principal
ask none token = none
ask (some auth) token = elim (auth token) [ none ↦ none | some a ↦ some (principal_of a) ]

-- `_authenticate`; the outer `none` is an exception.
unfoldable pub authenticate : Middleware → Request → Option (Option Principal)
authenticate m r = elim (bearer_token r) [
  | none ↦ some none
  | some token ↦ elim (static_principal token m.principals) [
    | none ↦ none
    | some (some p) ↦ some (some p)
    | some none ↦ some (ask m.authenticator token)
  ]
]

abbrev pub is_public : Text → Bool
is_public path = text_eq path (codes "/livez") || text_eq path (codes "/v0.5/health")

abbrev pub is_route_auth : Text → Bool
is_route_auth path =
    text_eq path (codes "/v1/auth/exchange") || text_eq path (codes "/v1/auth/session/revoke")

abbrev pub is_admin_path : Text → Bool
is_admin_path path = has_prefix path (codes "/v1/admin/")

abbrev pub is_safe : Text → Bool
is_safe method =
    text_eq method (codes "GET")
    || (text_eq method (codes "HEAD") || text_eq method (codes "OPTIONS"))

abbrev pub is_scan_path : Text → Bool
is_scan_path path =
    has_prefix path (codes "/v1/scans")
    || (has_prefix path (codes "/v0.5/") && has_suffix path (codes "/scan"))

abbrev pub is_finding_patch : Text → Text → Bool
is_finding_patch method path =
    has_prefix path (codes "/v1/findings/") && text_eq method (codes "PATCH")

unfoldable pub mem_string : String → List String → Bool
mem_string s [] = false
mem_string s (x ∷ xs) = str_eq s x || mem_string s xs

abbrev pub is_empty : List String → Bool
is_empty [] = true
is_empty (_ ∷ _) = false

-- The scope that a request needs of a principal whose scopes are limited.
unfoldable pub needed_scope : Text → Text → String
needed_scope method path =
    if is_admin_path path
    then "gateway:admin"
    else if is_safe method
    then "gateway:read"
    else if is_scan_path path
    then "scan:write"
    else if is_finding_patch method path
    then "finding:write"
    else "gateway:write"

abbrev pub scopes_allow : Option (List String) → Text → Text → Bool
scopes_allow none method path = true
scopes_allow (some scopes) method path =
    is_empty scopes
    || (mem_string "gateway:*" scopes || mem_string (needed_scope method path) scopes)

-- `_scope_allows`
unfoldable pub scope_allows : Principal → Text → Text → Bool
unfolding needed_scope
scope_allows p method path = scopes_allow p.scopes method path

-- The three checks after authentication, in the order of the source.
unfoldable pub authorize : Principal → Text → Text → Decision
unfolding scope_allows
authorize p method path =
    if is_admin_path path && not (str_eq p.role "admin")
    then refused 403 "ACCESS_DENIED"
    else if not (is_safe method) && str_eq p.role "viewer"
    then refused 403 "ACCESS_DENIED"
    else if not (scope_allows p method path)
    then refused 403 "ACCESS_DENIED"
    else served p

abbrev pub is_open : Middleware → Bool
is_open m = elim m.principals [
  | [] ↦ elim m.authenticator [ none ↦ true | some _ ↦ false ]
  | _ ∷ _ ↦ false
]

abbrev pub public_principal : Principal
public_principal = record (machine_principal "_system" "viewer") { auth_type = public }

abbrev pub route_principal : Principal
route_principal = record (machine_principal "_auth" "viewer") { auth_type = route }

-- `__call__`
unfoldable pub handle : Middleware → Request → Decision
unfolding authenticate authorize
handle m r =
    if not r.http
    then untouched
    else if is_public r.path
    then served public_principal
    else if is_route_auth r.path
    then served route_principal
    else if is_open m
    then served (machine_principal "default" "admin")
    else elim (authenticate m r) [
      | none ↦ raised
      | some none ↦ refused 401 "AUTHENTICATION_REQUIRED"
      | some (some p) ↦ authorize p (upper r.method) r.path
    ]
