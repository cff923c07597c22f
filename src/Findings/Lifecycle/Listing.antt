-- ===== src/Findings/Lifecycle/Listing.antt =====
-- `list_page` of src/shared_integration/finding_lifecycle.py, by cursor.
use shared_integration.Prelude.{
  ℕ, ◌+◌, String, Bool, true, false, ◌&&◌, Option, none, some, List, [], ◌∷◌, map, str_eq, ltb, leb,
  ◌==◌, if◌then◌else◌, select, sort_by, take, length,
}
use shared_integration.Result.{Result, ok, err, ◌>>=◌, value_error}
use shared_integration.Core.{Source, source_eq, Severity}
use shared_integration.Correlations.{rank}
use shared_integration.Findings.{Finding}
use shared_integration.Findings.Lifecycle.{Row, Db, Status, status_eq}
use shared_integration.Findings.Lifecycle.Editing.{Record, record_of}

-- The texts of cursors: what `_encode_cursor` writes, and the number that the bytes of a text
-- spell, where they do.
pub record Cursors : Type 0 where
  pub encode : ℕ → String
  pub spelled : String → Option ℕ

abbrev pub at_least_one : Option ℕ → Result ℕ
at_least_one none = err (value_error "invalid finding cursor")
at_least_one (some n) = if ltb n 1 then err (value_error "invalid finding cursor") else ok n

-- `_decode_cursor`
abbrev pub decode_cursor : Cursors → String → Result ℕ
decode_cursor C c = at_least_one (C.spelled c)

abbrev pub wanted {ℓ} : {A : Type ℓ} → (A → A → Bool) → Option A → A → Bool
wanted eq none a = true
wanted eq (some b) a = eq a b

pub record Filter : Type 0 where
  pub source : Option Source
  pub severity : Option Severity
  pub status : Option Status

abbrev pub severity_eq : Severity → Severity → Bool
severity_eq a b = rank a == rank b

abbrev pub passes : Filter → Row → Bool
passes f r =
    wanted source_eq f.source r.source
    && (wanted severity_eq f.severity r.severity && wanted status_eq f.status r.status)

abbrev pub before : Option ℕ → Row → Bool
before none r = true
before (some c) r = ltb r.row_id c

abbrev pub newest_first : Row → Row → Bool
newest_first a b = leb b.row_id a.row_id

abbrev pub last_id : Row → List Row → ℕ
last_id r [] = r.row_id
last_id r (x ∷ xs) = last_id x xs

abbrev pub after_page : Cursors → List Row → Option String
after_page C [] = none
after_page C (r ∷ rs) = some (C.encode (last_id r rs))

abbrev pub next_cursor : Cursors → ℕ → List Row → Option String
next_cursor C limit rows = if ltb limit (length rows) then after_page C (take limit rows) else none

-- `list_page` from a cursor that is decoded.
abbrev pub fetch : String → Filter → ℕ → Option ℕ → Db → List Row
fetch t f limit c db = take (limit + 1) (
    sort_by newest_first (select (λ r. (str_eq r.tenant_id t && passes f r) && before c r) db.rows))

abbrev pub page_at : Cursors → String → Filter → ℕ → Option ℕ → Db → List Record × Option String
page_at C t f limit c db =
    let rows = fetch t f limit c db in (map record_of (take limit rows), next_cursor C limit rows)

unfoldable pub list_page :
    Cursors → String → Filter → ℕ → Option String → Db → Result (List Record × Option String)
list_page C t f limit none db = ok (page_at C t f limit none db)
list_page C t f limit (some c) db = decode_cursor C c >>= λ n. ok (page_at C t f limit (some n) db)

-- `findings`: those of the current tenant, by row id.
abbrev pub oldest_first : Row → Row → Bool
oldest_first a b = leb a.row_id b.row_id

unfoldable pub findings : String → Db → List Finding
findings t db =
    map (λ r. r.payload) (sort_by oldest_first (select (λ r. str_eq r.tenant_id t) db.rows))

-- `query`, by the columns of the rows.
pub record Query : Type 0 where
  pub source : Option Source
  pub severity : Option Severity
  pub host : Option String
  pub cve : Option String
  pub since : Option ℕ

abbrev pub wanted_text : Option String → Option String → Bool
wanted_text none column = true
wanted_text (some s) none = false
wanted_text (some s) (some column) = str_eq column s

abbrev pub seen_since : Option ℕ → ℕ → Bool
seen_since none last_seen = true
seen_since (some t) last_seen = leb t last_seen

abbrev pub answers : Query → Row → Bool
answers q r =
    wanted source_eq q.source r.source
    && (wanted severity_eq q.severity r.severity
        && (wanted_text q.host r.asset
            && (wanted_text q.cve r.cve && seen_since q.since r.last_seen)))

abbrev pub last_seen_first : Row → Row → Bool
last_seen_first a b = leb b.last_seen a.last_seen

unfoldable pub query : String → Query → ℕ → Db → List Finding
query t q limit db =
    map (λ r. r.payload)
      (take limit
        (sort_by last_seen_first (select (λ r. str_eq r.tenant_id t && answers q r) db.rows)))
