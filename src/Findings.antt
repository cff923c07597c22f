-- ===== src/Findings.antt =====
-- `Finding` of shared_llm_core, by the attributes that src/shared_integration/finding_lifecycle.py
-- and src/shared_integration/persistence.py read and write, its identity and the merge of two
-- sightings. A time is a number of microseconds; a confidence is a number on a scale, since it is
-- only compared. Sets and tuples are lists. A stored payload is read back as the finding it was
-- made from.
pub mod Lifecycle
pub mod Sqlite
use shared_integration.Prelude.{
  ℕ, ◌+◌, max, String, Bool, true, false, not, ◌||◌, Option, none, some, List, [], ◌∷◌, ◌++◌,
  str_eq, ltb, if◌then◌else◌, any,
}
use shared_integration.Json.{Json, Fields, end, field}
use shared_integration.Core.{Source, Severity}
use shared_integration.Correlations.{rank}

pub record Finding : Type 0 where
  pub id : String
  pub source : Source
  pub severity : Severity
  pub confidence : ℕ
  pub host : Option String
  pub cve : Option String
  pub title : String
  pub description : String
  pub ts : Option ℕ
  pub evidence : List String
  pub related : List String
  pub tags : List String
  pub metadata : Fields

-- What `finding_fingerprint` makes the digest of.
pub record Fingerprinted : Type 0 where
  pub source : Source
  pub title : String
  pub host : String
  pub cve : String
  pub locators : Fields

-- Python's texts and the digest: `strip().casefold()`, `strip().upper()`, and SHA-256 of the JSON.
pub record Digests : Type 0 where
  pub folded : String → String
  pub uppered : String → String
  pub digest : Fingerprinted → String

unfoldable pub lookup : String → Fields → Option Json
lookup key end = none
lookup key (field k v rest) = let found = lookup key rest in if str_eq k key then some v else found

abbrev pub with_locator : String → Option Json → Fields → Fields
with_locator key none rest = rest
with_locator key (some v) rest = field key v rest

unfoldable pub locators : List String → Fields → Fields
unfolding lookup
locators [] metadata = end
locators (key ∷ keys) metadata = with_locator key (lookup key metadata) (locators keys metadata)

abbrev pub or_empty : Option String → String
or_empty none = ""
or_empty (some s) = s

abbrev pub locator_keys : List String
locator_keys = "asset" ∷ "component" ∷ "file" ∷ "line" ∷ "path" ∷ "rule_id" ∷ "symbol" ∷ []

unfoldable pub finding_fingerprint : Digests → Finding → String
unfolding locators
finding_fingerprint D f = D.digest (record {
  source = f.source;
  title = D.folded f.title;
  host = D.folded (or_empty f.host);
  cve = D.uppered (or_empty f.cve);
  locators = locators locator_keys f.metadata;
})

-- `dict.fromkeys` of one list after another, and the union of two sets
unfoldable pub distinct : List String → List String → List String
distinct seen [] = []
distinct seen (x ∷ xs) =
    let rest = distinct (x ∷ seen) xs in
    let rest' = distinct seen xs in if any (str_eq x) seen then rest' else x ∷ rest

abbrev pub joined : List String → List String → List String
joined xs ys = distinct [] (xs ++ ys)

-- The first of the two severities unless the second is graver.
abbrev pub graver : Severity → Severity → Severity
graver a b = if ltb (rank a) (rank b) then b else a

-- `_merge_findings`
abbrev pub merge_findings : Finding → Finding → Finding
merge_findings existing incoming = record incoming {
  id = existing.id;
  severity = graver existing.severity incoming.severity;
  confidence = max existing.confidence incoming.confidence;
  evidence = joined existing.evidence incoming.evidence;
  related = joined existing.related incoming.related;
  tags = joined existing.tags incoming.tags;
}
