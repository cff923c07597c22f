-- ===== src/Identity/Clients.antt =====
-- Identity clients: the methods of `SQLAlchemyIdentityRepository` that issue, rotate, check and
-- revoke them.
use shared_integration.Prelude.{
  ℕ, String, Bool, true, false, not, ◌&&◌, ◌||◌, Option, none, some, List, ◌++◌, ltb, ◌==◌, find,
  sort_by, update, Text, text_eq, if◌then◌else◌, length, mem_text, str_le,
}
use shared_integration.Result.{Result, ok, err, value_error, key_error, ◌>>=◌}
use shared_integration.Identity.Values.{
  Hashing, strip, client_mark, key_token, parse_key, hash_secret, verify_secret,
  normalize_client_name, normalize_issuers,
}
use shared_integration.Identity.Tables.{
  Client, Db, Draw, is_none, is_client, get_client, insert_row, client_clash,
}
use shared_integration.Identity.Accounts.{Answer}

-- `_new_identity_client`
abbrev pub client_row : Hashing → Text → List Text → Option String → Draw → Client
client_row h name issuers rotated_from d = record {
  id = d.id;
  name = name;
  key_prefix = client_mark ++ d.hex;
  secret_hash = hash_secret h d.salt d.secret;
  allowed_issuers = issuers;
  active = true;
  rotated_from_id = rotated_from;
  created_at = d.now;
  updated_at = d.now;
  last_used_at = none;
  revoked_at = none;
}

pub record IssuedClient : Type 0 where
  pub client : Client
  pub token : Text

abbrev pub add_client : Client → Draw → Db → Answer IssuedClient
add_client row d db = elim (insert_row client_clash row db.clients) [
  | err e ↦ (err e, db)
  | ok clients ↦ (
    ok (record { client = row; token = key_token row.key_prefix d.secret }),
    record db { clients = clients },
  )
]

unfoldable pub issue_identity_client : Hashing → Text → List Text → Draw → Db → Answer IssuedClient
issue_identity_client h name allowed d db =
    let checked : Result (Text × List Text) = normalize_client_name name >>= λ clean.
    normalize_issuers allowed >>= λ issuers. ok (clean, issuers) in
    elim checked [
      | err e ↦ (err e, db)
      | ok (clean, issuers) ↦ add_client (client_row h clean issuers none d) d db
    ]

-- `row.active and row.revoked_at is None`
abbrev pub is_live : Client → Bool
is_live row = row.active && is_none row.revoked_at

-- `rotate_identity_client`: the previous client stays as it is.
unfoldable pub rotate_identity_client : Hashing → String → Draw → Db → Answer IssuedClient
rotate_identity_client h c d db = elim (get_client c db) [
  | none ↦ (err (key_error c), db)
  | some previous ↦
      (let added =
          add_client (client_row h previous.name previous.allowed_issuers (some previous.id) d) d
            db in
        if not (is_live previous)
        then (err (value_error "revoked identity clients cannot be rotated"), db)
        else added)
]

-- `list_identity_clients`
abbrev pub client_older : Client → Client → Bool
client_older a b =
    ltb a.created_at b.created_at || (a.created_at == b.created_at && str_le a.id b.id)

unfoldable pub list_identity_clients : Db → List Client
list_identity_clients db = sort_by client_older db.clients

pub record ClientPrincipal : Type 0 where
  pub identity_client_id : String
  pub name : Text
  pub allowed_issuers : List Text

abbrev pub client_principal : Client → ClientPrincipal
client_principal row = record {
  identity_client_id = row.id;
  name = row.name;
  allowed_issuers = row.allowed_issuers;
}

abbrev pub has_client_prefix : Text → Client → Bool
has_client_prefix prefix row = text_eq row.key_prefix prefix

-- An issuer that is given is not blank.
abbrev pub blank_issuer : Option Text → Bool
blank_issuer none = false
blank_issuer (some issuer) = length (strip issuer) == 0

abbrev pub allows : Option Text → Client → Bool
allows none row = true
allows (some issuer) row = mem_text (strip issuer) row.allowed_issuers

abbrev pub used : ℕ → Client → Client
used now row = record row { last_used_at = some now; updated_at = now }

-- `authenticate_identity_client`
unfoldable pub authenticate_identity_client :
    Hashing → Text → Option Text → ℕ → Db → Option ClientPrincipal × Db
authenticate_identity_client h token issuer now db = elim (parse_key client_mark token) [
  | none ↦ (none, db)
  | some k ↦ elim (find (has_client_prefix k.prefix) db.clients) [
    | none ↦ (none, db)
    | some row ↦
        (let touched : Db = record db {
          clients = update (is_client row.id) (used now) db.clients;
        } in
          if blank_issuer issuer
          then (none, db)
          else if verify_secret h k.secret row.secret_hash && (is_live row && allows issuer row)
          then (some (client_principal row), touched)
          else (none, db))
  ]
]

abbrev pub revoked_client : ℕ → Client → Client
revoked_client now row = record row { active = false; revoked_at = some now; updated_at = now }

-- `revoke_identity_client`
unfoldable pub revoke_identity_client : String → ℕ → Db → Answer Bool
revoke_identity_client c now db = elim (get_client c db) [
  | none ↦ (ok false, db)
  | some row ↦
      (let revoked : Db = record db {
        clients = update (is_client c) (revoked_client now) db.clients;
      } in
        (ok true, if is_none row.revoked_at then revoked else db))
]
