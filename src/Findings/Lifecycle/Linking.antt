-- ===== src/Findings/Lifecycle/Linking.antt =====
-- The correlations of `SQLAlchemyTenantFindingRegistry`: rows of `correlations`, and their links to
-- findings in `correlation_findings`.
use shared_integration.Prelude.{
  ℕ, String, Bool, ◌&&◌, Option, none, some, List, [], ◌∷◌, ◌++◌, map, str_eq, leb, any, select,
  sort_by, Text, if◌then◌else◌,
}
use shared_integration.Result.{Result, ok, err, integrity_error}
use shared_integration.Core.{Severity}
use shared_integration.Correlations.{Correlation}
use shared_integration.Jobs.Sql.{Tenant, ensure_tenant}

-- Rows of `correlations` and of `correlation_findings`.
pub record CorrelationRow : Type 0 where
  pub id : String
  pub tenant_id : String
  pub rule_id : String
  pub rule_version : String
  pub severity : Severity
  pub narrative : Text
  pub created_at : ℕ

pub record Link : Type 0 where
  pub tenant_id : String
  pub correlation_id : String
  pub finding_id : String

pub record Tables : Type 0 where
  pub tenants : List Tenant
  pub correlations : List CorrelationRow
  pub links : List Link

abbrev pub correlation_row : String → Correlation → String → ℕ → CorrelationRow
correlation_row t c id now = record {
  id = id;
  tenant_id = t;
  rule_id = c.rule_id;
  rule_version = "1";
  severity = c.severity;
  narrative = c.narrative;
  created_at = now;
}

-- The primary key of a link.
abbrev pub same_link : Link → Link → Bool
same_link a b =
    str_eq b.tenant_id a.tenant_id
    && (str_eq b.correlation_id a.correlation_id && str_eq b.finding_id a.finding_id)

unfoldable pub insert_links : List Link → List Link → Option (List Link)
insert_links [] links = some links
insert_links (l ∷ ls) links =
    let rest = insert_links ls (links ++ l ∷ []) in if any (same_link l) links then none else rest

abbrev pub links_of : String → String → List String → List Link
links_of t id = map (λ f. record { tenant_id = t; correlation_id = id; finding_id = f })

abbrev pub linked :
    CorrelationRow → List Tenant → Option (List Link) → Tables → Result {0} Unit × Tables
linked row tenants none s = (err integrity_error, s)
linked row tenants (some links) s =
    (ok tt, record { tenants = tenants; correlations = s.correlations ++ row ∷ []; links = links })

-- `add_correlation`, with the id that it draws.
unfoldable pub add_correlation :
    String → Correlation → String → ℕ → Tables → Result {0} Unit × Tables
unfolding insert_links
add_correlation t c id now s =
    let row : CorrelationRow = correlation_row t c id now in
    let added = λ (tenants : List Tenant).
      linked row tenants (insert_links (links_of t id c.findings) s.links) s in
    elim (ensure_tenant t now s.tenants) [
      | none ↦ (err integrity_error, s)
      | some tenants ↦
          if any (λ x. str_eq x.id id) s.correlations
          then (err integrity_error, s)
          else added tenants
    ]

-- `correlations`: those of the current tenant, by time, with their findings.
abbrev pub earlier : CorrelationRow → CorrelationRow → Bool
earlier a b = leb a.created_at b.created_at

abbrev pub read : String → List Link → CorrelationRow → Correlation
read t links row = record {
  rule_id = row.rule_id;
  findings =
      map (λ l. l.finding_id)
        (select (λ l. str_eq l.tenant_id t && str_eq l.correlation_id row.id) links);
  severity = row.severity;
  narrative = row.narrative;
}

unfoldable pub correlations : String → Tables → List Correlation
correlations t s =
    map (read t s.links) (sort_by earlier (select (λ r. str_eq r.tenant_id t) s.correlations))
