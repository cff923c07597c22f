-- ===== src/Tests/Findings.antt =====
-- Three findings of one tenant, two of them sightings of one.
use Prim.Native.Char.{Char}
use shared_integration.Prelude.{
  latest, take, ℕ, zero, suc, ◌+◌, ◌-◌, String, ◌≡◌, ◌≢◌, ◌≤◌, eq_iff, refl, ap, none, some, List,
  [], ◌∷◌, map, arith, length, select, find, any, update, codes,
}
use shared_integration.Json.{end}
use shared_integration.Result.{ok}
use shared_integration.Core.{soc, low, high}
use shared_integration.Jobs.Sql.{ensure_tenant, new_tenant}
use shared_integration.Findings.{Finding, Digests, finding_fingerprint, distinct}
use shared_integration.Findings.Sqlite.{State, of_tenant, add}
use shared_integration.Findings.Sqlite.View.{view, remembered}
use shared_integration.Findings.Sqlite.Newest.{IsOrdered, add_keeps_newest}
use shared_integration.Findings.Lifecycle.{
  Row, Db, Draw, confirmed, opened, new_row, placed, store_finding, store_late,
}
use shared_integration.Findings.Lifecycle.Listing.{Filter, Cursors}
use shared_integration.Findings.Lifecycle.Editing.{record_of, update_lifecycle}
use shared_integration.Findings.Lifecycle.Pages.{pages, keep}
use shared_integration.Findings.Lifecycle.Paging.{pages_all}
use shared_integration.Findings.Lifecycle.Invariant.{Op, stores, races, edits, run, run-IsTable}
use shared_integration.Findings.Lifecycle.Rows.{IsTable}
use shared_integration.Findings.Lifecycle.Occurrences.{occurrences_of}
use shared_integration.Findings.Lifecycle.Counted.{sightings, run-occurrences}

abbrev titles : Digests
titles = record { folded = λ s. s; uppered = λ s. s; digest = λ p. p.title }

abbrev port_open : Finding
port_open = record {
  id = "f1";
  source = soc;
  severity = low;
  confidence = 50;
  host = some "web-1";
  cve = none;
  title = "open port";
  description = "8080";
  ts = none;
  evidence = "scan" ∷ [];
  related = [];
  tags = [];
  metadata = end;
}

abbrev port_again : Finding
port_again = record port_open { id = "f2"; severity = high }

abbrev old_library : Finding
old_library = record port_open { id = "f3"; title = "old library" }

-- A later call may hold the smaller id.
abbrev at_time : ℕ → Draw
at_time n = record { seen_now = n; now = n; serial = 100 - n; audit_id = "audit_1" }

abbrev nothing_stored : Db
nothing_stored = record { rows = []; tenants = []; audits = [] }

nothing_stored-IsTable : IsTable nothing_stored.rows
nothing_stored-IsTable = record { ordered = tt; positive = tt; unique = tt; ids = tt }

abbrev calls : List Op
calls =
    stores "acme" port_open none (at_time 10)
    ∷ races "acme" port_again (some "j1") (at_time 20)
    ∷ edits "acme" "f1" (some confirmed) none "role:analyst" (at_time 30)
    ∷ stores "acme" old_library none (at_time 40)
    ∷ []

run-IsTable_example : IsTable (run titles nothing_stored calls).rows
run-IsTable_example = run-IsTable titles nothing_stored calls nothing_stored-IsTable

run-occurrences_example :
    occurrences_of "acme" "open port" (run titles nothing_stored calls).rows
    ≡ occurrences_of "acme" "open port" nothing_stored.rows
      + sightings titles "acme" "open port" nothing_stored calls
run-occurrences_example =
    run-occurrences titles "acme" "open port" nothing_stored calls nothing_stored-IsTable

seen_twice : occurrences_of "acme" "open port" (run titles nothing_stored calls).rows ≡ 2
unfolding run store_finding store_late find any update placed ensure_tenant finding_fingerprint
    distinct update_lifecycle
seen_twice = refl

-- Cursors in strokes.
abbrev tally : ℕ → String
tally zero = ""
tally (suc n) = String.◌∷◌ (Char.char 97 tt) (tally n)

abbrev strokes : Cursors
strokes = record { encode = tally; spelled = λ s. some (length (codes s)) }

read_back : (n : ℕ) → length (codes (tally n)) ≡ n
read_back zero = refl
read_back (suc n) = omega (arith, read_back n)

abbrev first_row : Row
first_row = record (new_row "acme" "open port" port_open none (at_time 10)) { row_id = 1 }

abbrev second_row : Row
second_row = record (new_row "acme" "old library" old_library none (at_time 40)) { row_id = 4 }

abbrev two_rows : Db
two_rows = record {
  rows = first_row ∷ second_row ∷ [];
  tenants = new_tenant "acme" 10 ∷ [];
  audits = [];
}

abbrev any_row : Filter
any_row = record { source = none; severity = none; status = some opened }

pages_all_example :
    pages strokes "acme" any_row 1 2 none two_rows
    ≡ ok (map record_of (latest (select (keep "acme" any_row) two_rows.rows)))
unfolding select
pages_all_example =
    pages_all strokes "acme" any_row 1 2 two_rows (λ n h. ap some (read_back n))
      ((omega arith, tt), (tt, tt)) (omega arith, (omega arith, tt)) (omega arith) (omega arith)

-- A registry that keeps one finding of a tenant.
abbrev registry : State
registry = record {
  max_size = 1;
  findings =
      record { seq = 1; tenant_id = "acme"; payload = port_open }
      ∷ record { seq = 3; tenant_id = "zeta"; payload = port_open }
      ∷ [];
  last_finding = 3;
  correlations = [];
  last_correlation = 0;
  subscribers = record { id = 1; tenant_id = "acme"; queue = [] } ∷ [];
}

registry-IsOrdered : IsOrdered registry.findings registry.last_finding
registry-IsOrdered = record {
  increasing = ((omega arith, tt), (tt, tt));
  counted = (omega arith, (omega arith, tt));
}

add_keeps_newest_example :
    (view "acme" (add "acme" old_library registry).findings
      ≡ take 1 (remembered old_library (view "acme" registry.findings)))
    × (length (select (of_tenant "acme") (add "acme" old_library registry).findings) ≤ 1)
    × (select (of_tenant "zeta") (add "acme" old_library registry).findings
        ≡ select (of_tenant "zeta") registry.findings)
    × IsOrdered
        (add "acme" old_library registry).findings
        (add "acme" old_library registry).last_finding
add_keeps_newest_example =
    add_keeps_newest "acme" "zeta" old_library registry zeta_other registry-IsOrdered
  where
    zeta_other : ◌≢◌ {A = String} "zeta" "acme"
    zeta_other e = let same = (eq_iff "zeta" "acme").1 e in absurd (ground (arith, same))
