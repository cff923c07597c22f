-- ===== src/Findings/Sqlite.antt =====
-- `SQLiteTenantFindingRegistry` of src/shared_integration/persistence.py: its two tables, and the
-- queues of its subscribers. The column `finding_id` is the id of the payload, which both statements
-- that write it take from one finding. A call is made for the current tenant.
pub mod Pruning
pub mod View
pub mod Newest
use shared_integration.Prelude.{
  ℕ, ◌+◌, String, Bool, true, false, not, ◌&&◌, ◌||◌, Option, none, some, List, [], ◌∷◌, ◌++◌, map,
  str_eq, ltb, ◌==◌, if◌then◌else◌, any, select, find, update, sort_by, newest_by, take, length,
}
use shared_integration.Core.{Source, source_eq, Severity}
use shared_integration.Correlations.{Correlation}
use shared_integration.Findings.{Finding}
use shared_integration.Findings.Lifecycle.Listing.{wanted, severity_eq}

-- A row of `findings` or of `correlations`.
pub record Stored {ℓ} (A : Type ℓ) : Type ℓ where
  pub seq : ℕ
  pub tenant_id : String
  pub payload : A

pub data Item : Type 0 where
  finding : Finding → Item
  correlation : Correlation → Item

pub record Subscriber : Type 0 where
  pub id : ℕ
  pub tenant_id : String
  pub queue : List Item

-- The tables with the counters of their `AUTOINCREMENT`, and the subscribers.
pub record State : Type 0 where
  pub max_size : ℕ
  pub findings : List (Stored Finding)
  pub last_finding : ℕ
  pub correlations : List (Stored Correlation)
  pub last_correlation : ℕ
  pub subscribers : List Subscriber

abbrev pub of_tenant {ℓ} : {A : Type ℓ} → String → Stored A → Bool
of_tenant t r = str_eq r.tenant_id t

abbrev pub payloads {ℓ} : {A : Type ℓ} → String → List (Stored A) → List A
payloads t rows = map (λ r. r.payload) (select (of_tenant t) rows)

-- The rows that `_prune` keeps of a tenant.
abbrev pub newest {ℓ} : {A : Type ℓ} → String → ℕ → List (Stored A) → List (Stored A)
newest t n rows = take n (sort_by (newest_by (λ r. r.seq)) (select (of_tenant t) rows))

abbrev pub is_in {ℓ} : {A : Type ℓ} → List (Stored A) → Stored A → Bool
is_in rows r = any (λ x. x.seq == r.seq) rows

-- `_prune`
unfoldable pub prune {ℓ} : {A : Type ℓ} → String → ℕ → List (Stored A) → List (Stored A)
prune t n rows =
    let kept = newest t n rows in select (λ r. not (of_tenant t r && not (is_in kept r))) rows

-- `INSERT … ON CONFLICT (tenant_id, finding_id) DO UPDATE`
abbrev pub has_id : String → String → Stored Finding → Bool
has_id t i r = of_tenant t r && str_eq r.payload.id i

abbrev pub upsert : String → Finding → ℕ → List (Stored Finding) → List (Stored Finding)
upsert t f seq rows =
    if any (has_id t f.id) rows
    then update (has_id t f.id) (λ r. record r { payload = f }) rows
    else rows ++ record { seq = seq; tenant_id = t; payload = f } ∷ []

-- `_store_finding`
unfoldable pub store_finding : String → Finding → State → State
unfolding prune
store_finding t f s = record s {
  findings = prune t s.max_size (upsert t f (s.last_finding + 1) s.findings);
  last_finding = s.last_finding + 1;
}

-- `queue.put_nowait`, unless the queue is full.
abbrev pub put : String → Item → Subscriber → Subscriber
put t item q =
    if str_eq q.tenant_id t && ltb (length q.queue) 1000
    then record q { queue = q.queue ++ item ∷ [] }
    else q

abbrev pub publish : String → Item → State → State
publish t item s = record s { subscribers = map (put t item) s.subscribers }

-- `add` and `add_sync`
unfoldable pub add : String → Finding → State → State
unfolding store_finding
add t f s = publish t (finding f) (store_finding t f s)

unfoldable pub add_sync : String → Finding → State → State
unfolding store_finding
add_sync t f s = store_finding t f s

unfoldable pub add_correlation : String → Correlation → State → State
unfolding prune
add_correlation t c s =
    let row : Stored Correlation = record {
      seq = s.last_correlation + 1;
      tenant_id = t;
      payload = c;
    } in
    publish t (correlation c) (record s {
      correlations = prune t s.max_size (s.correlations ++ row ∷ []);
      last_correlation = s.last_correlation + 1;
    })

-- `query`: the newest that pass, until there are `limit` of them.
pub record Query : Type 0 where
  pub source : Option Source
  pub severity : Option Severity
  pub host : Option String
  pub cve : Option String
  pub since : Option ℕ

abbrev pub has_text : String → Option String → Bool
has_text s none = false
has_text s (some r) = str_eq r s

abbrev pub wanted_text : Option String → Option String → Bool
wanted_text none value = true
wanted_text (some s) value = has_text s value

abbrev pub not_before : Option ℕ → Option ℕ → Bool
not_before none ts = true
not_before (some t) none = true
not_before (some t) (some ts) = not (ltb ts t)

abbrev pub passes : Query → Finding → Bool
passes q f =
    wanted source_eq q.source f.source
    && (wanted severity_eq q.severity f.severity
        && (wanted_text q.host f.host && (wanted_text q.cve f.cve && not_before q.since f.ts)))

-- The loop; a limit below 1 breaks after the first result.
unfoldable pub collect : Query → ℕ → ℕ → List Finding → List Finding
collect q limit found [] = []
collect q limit found (f ∷ fs) =
    let rest = collect q limit found fs in
    let after = collect q limit (found + 1) fs in
    if not (passes q f) then rest else if ltb (found + 1) limit then f ∷ after else f ∷ []

unfoldable pub query : String → Query → ℕ → State → List Finding
unfolding collect
query t q limit s =
    collect q limit 0
      (map (λ r. r.payload) (sort_by (newest_by (λ r. r.seq)) (select (of_tenant t) s.findings)))

-- `subscribe` up to its first item, the receipt of an item, and its end.
unfoldable pub subscribe : String → ℕ → State → State
subscribe t id s = record s {
  subscribers = s.subscribers ++ record { id = id; tenant_id = t; queue = [] } ∷ [];
}

abbrev pub first_item : Subscriber → Option Item
first_item q = elim q.queue [ [] ↦ none | x ∷ xs ↦ some x ]

abbrev pub without_first : List Item → List Item
without_first [] = []
without_first (x ∷ xs) = xs

unfoldable pub receive : ℕ → State → Option Item × State
receive id s = elim (find (λ q. q.id == id) s.subscribers) [
  | none ↦ (none, s)
  | some q ↦ (
    first_item q,
    record s {
      subscribers =
          update (λ x. x.id == id) (λ x. record x { queue = without_first x.queue }) s.subscribers;
    },
  )
]

unfoldable pub unsubscribe : ℕ → State → State
unsubscribe id s = record s { subscribers = select (λ q. not (q.id == id)) s.subscribers }
