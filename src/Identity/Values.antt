-- ===== src/Identity/Values.antt =====
-- The constants, checks and formats of src/shared_integration/identity.py that touch no table.
pub mod Tokens
pub mod Scopes
use shared_integration.Prelude.{
  ℕ, ◌+◌, ◌*◌, String, Bool, true, false, not, ◌&&◌, ◌||◌, Option, none, some, List, [], ◌∷◌, ◌++◌,
  str_eq, leb, ltb, ◌==◌, if◌then◌else◌, length, any, Text, codes, text_eq, partition, all_codes,
  is_digit, is_hex, is_alnum, fullmatch, mem_text, has_prefix, drop,
}
use mathlib.Core.List.{reverse}
use shared_integration.Result.{Result, ok, err, value_error, ◌>>=◌}

-- `ROLES`, `TENANT_STATUSES`, `MEMBERSHIP_STATUSES` and `IDENTITY_CLIENT_SCOPES`
abbrev pub member : String → List String → Bool
member s = any (λ x. str_eq x s)

abbrev pub roles : List String
roles = "viewer" ∷ "analyst" ∷ "admin" ∷ []

abbrev pub tenant_statuses : List String
tenant_statuses = "active" ∷ "suspended" ∷ "disabled" ∷ []

abbrev pub membership_statuses : List String
membership_statuses = "active" ∷ "suspended" ∷ []

abbrev pub identity_client_scopes : List String
identity_client_scopes = "auth:exchange" ∷ []

-- `str.strip`, which drops what `str.isspace` holds of at both ends.
abbrev pub is_space : ℕ → Bool
is_space c =
    (leb 9 c && leb c 13)
    || ((leb 28 c && leb c 32)
        || (c == 133
            || (c == 160
                || (c == 5760
                    || ((leb 8192 c && leb c 8202)
                        || (c == 8232
                            || (c == 8233 || (c == 8239 || (c == 8287 || c == 12288)))))))))

unfoldable pub strip_left : Text → Text
strip_left [] = []
strip_left (c ∷ s) = let rest = strip_left s in if is_space c then rest else c ∷ s

unfoldable pub strip : Text → Text
unfolding strip_left
strip s = reverse (strip_left (reverse (strip_left s)))

-- `if not s or len(s) > n`
abbrev pub bad_length : ℕ → Text → Bool
bad_length n s = length s == 0 || ltb n (length s)

-- `_IDENTIFIER` and `_SLUG`
abbrev pub identifier_tail : ℕ → Bool
identifier_tail c = is_alnum c || (c == 95 || (c == 46 || (c == 58 || c == 45)))

abbrev pub is_identifier : Text → Bool
is_identifier [] = false
is_identifier (c ∷ s) = is_alnum c && fullmatch identifier_tail 0 127 s

abbrev pub slug_end : ℕ → Bool
slug_end c = is_digit c || (leb 97 c && leb c 122)

-- `[a-z0-9-]{0,126}[a-z0-9]` over a whole text
unfoldable pub slug_tail : Text → Bool
slug_tail [] = false
slug_tail (c ∷ []) = slug_end c
slug_tail (c ∷ (d ∷ s)) = (slug_end c || c == 45) && slug_tail (d ∷ s)

abbrev pub is_slug : Text → Bool
is_slug [] = false
is_slug (c ∷ []) = slug_end c
is_slug (c ∷ (d ∷ s)) = slug_end c && (leb (length (d ∷ s)) 127 && slug_tail (d ∷ s))

-- `_validate_identifier` and `_validate_role`
abbrev pub validate_identifier : Text → Result {0} Unit
validate_identifier s =
    if is_identifier s
    then ok tt
    else err (value_error "must contain 1 to 128 letters, digits, '.', '_', ':', or '-'")

abbrev pub validate_role : String → Result {0} Unit
validate_role role =
    if member role roles then ok tt else err (value_error "role must be one of ROLES")

-- A `datetime`: its microseconds, and whether it carries a time zone.
pub record Stamp : Type 0 where
  pub zoned : Bool
  pub at : ℕ

-- `_normalize_expiry`
abbrev pub normalize_expiry : Option Stamp → Result (Option ℕ)
normalize_expiry none = ok none
normalize_expiry (some t) =
    if t.zoned then ok (some t.at) else err (value_error "expires_at must include a timezone")

-- `expires_at is not None and expires_at <= now`
abbrev pub has_expired : Option ℕ → ℕ → Bool
has_expired none now = false
has_expired (some t) now = leb t now

-- `_normalize_session_ttl`, in microseconds; a number below zero is refused as 0 is.
abbrev pub normalize_session_ttl : ℕ → Result ℕ
normalize_session_ttl n =
    if leb 1 n && leb n 900
    then ok (n * 1000000)
    else err (value_error "ttl_seconds must be between 1 and 900")

-- The first occurrence of each text, in order.
abbrev pub push_new : List Text → Text → List Text
push_new seen t = if mem_text t seen then seen else seen ++ t ∷ []

-- `_normalize_scopes`
unfoldable pub collect_scopes : List Text → List Text → Result (List Text)
collect_scopes seen [] = ok seen
collect_scopes seen (s ∷ ss) =
    let rest = collect_scopes (push_new seen s) ss in
    if bad_length 128 s
    then err (value_error "each scope must contain 1 to 128 characters")
    else rest

unfoldable pub normalize_scopes : List Text → Result (List Text)
unfolding collect_scopes
normalize_scopes scopes = collect_scopes [] scopes >>= λ result.
    if ltb 64 (length result)
    then err (value_error "an API key can contain at most 64 scopes")
    else ok result

-- `_normalize_client_name` and `_normalize_issuers`
abbrev pub normalize_client_name : Text → Result Text
normalize_client_name name =
    if bad_length 255 (strip name)
    then err (value_error "name must contain 1 to 255 characters")
    else ok (strip name)

unfoldable pub collect_issuers : List Text → List Text → Result (List Text)
collect_issuers seen [] = ok seen
collect_issuers seen (s ∷ ss) =
    let rest = collect_issuers (push_new seen (strip s)) ss in
    if bad_length 512 (strip s)
    then err (value_error "each issuer must contain 1 to 512 characters")
    else rest

unfoldable pub normalize_issuers : List Text → Result (List Text)
unfolding collect_issuers
normalize_issuers issuers = collect_issuers [] issuers >>= λ result.
    if length result == 0
    then err (value_error "at least one issuer is required")
    else if ltb 16 (length result)
    then err (value_error "an identity client can allow at most 16 issuers")
    else ok result

-- `_KEY_PREFIX`, `_IDENTITY_CLIENT_PREFIX` and `_USER_SESSION_TOKEN`
abbrev pub prefixed : Text → (Text → Bool) → Text → Bool
prefixed mark test s = has_prefix s mark && test (drop 4 s)

abbrev pub key_mark : Text
key_mark = codes "igw_"

abbrev pub client_mark : Text
client_mark = codes "igb_"

abbrev pub session_mark : Text
session_mark = codes "igs_"

abbrev pub is_url_safe : ℕ → Bool
is_url_safe c = is_alnum c || (c == 95 || c == 45)

abbrev pub is_key_prefix : Text → Text → Bool
is_key_prefix mark = prefixed mark (fullmatch is_hex 24 24)

unfoldable pub is_session_token : Text → Bool
is_session_token = prefixed session_mark (fullmatch is_url_safe 40 64)

-- `_parse_api_key` and `_parse_identity_client_key`, which differ in the mark.
pub record KeyText : Type 0 where
  pub prefix : Text
  pub secret : Text

unfoldable pub parse_key : Text → Text → Option KeyText
parse_key mark token =
    let parts = partition 46 token in
    if ltb 128 (length token)
    then none
    else if not parts.found || not (is_key_prefix mark parts.before)
    then none
    else if not (leb 32 (length parts.after) && leb (length parts.after) 64)
    then none
    else some (record { prefix = parts.before; secret = parts.after })

-- The text of `f"{prefix}.{secret}"`
abbrev pub key_token : Text → Text → Text
key_token prefix secret = prefix ++ 46 ∷ secret

-- A stored secret: the fields of its text `scrypt$n$r$p$salt$expected`.
pub record SecretHash : Type 0 where
  pub algorithm : String
  pub n : ℕ
  pub r : ℕ
  pub p : ℕ
  pub salt : Text
  pub expected : Text

-- `hashlib.scrypt` of 32 bytes and `hashlib.sha256`, in hexadecimal
pub record Hashing : Type 0 where
  pub scrypt : Text → Text → ℕ → ℕ → ℕ → Text
  pub sha256 : Text → Text

-- `_hash_secret`, at a drawn salt
abbrev pub hash_secret : Hashing → Text → Text → SecretHash
hash_secret h salt secret = record {
  algorithm = "scrypt";
  n = 16384;
  r = 8;
  p = 1;
  salt = salt;
  expected = h.scrypt secret salt 16384 8 1;
}

-- `_verify_secret`
unfoldable pub verify_secret : Hashing → Text → SecretHash → Bool
verify_secret h secret x =
    if not (str_eq x.algorithm "scrypt")
    then false
    else if not (x.n == 16384 && (x.r == 8 && x.p == 1))
    then false
    else text_eq (h.scrypt secret x.salt x.n x.r x.p) x.expected
