-- ===== src/Findings/Lifecycle/Invariant.antt =====
-- The table of findings along any calls.
use shared_integration.Prelude.{
  ℕ, String, refl, inl, inr, Option, none, List, [], ◌∷◌, ◌==◌, find, Option-cases,
}
use shared_integration.Jobs.Sql.{ensure_tenant}
use shared_integration.Findings.{Finding, Digests, finding_fingerprint}
use shared_integration.Findings.Lifecycle.{
  Db, Draw, Status, has_print, has_id, store_finding, store_late,
}
use shared_integration.Findings.Lifecycle.Editing.{edited, update_lifecycle}
use shared_integration.Findings.Lifecycle.Rows.{
  IsTable, KeepsKeys, update-IsTable, recover-IsTable, write-IsTable,
}

-- The calls that write, with `races` for a store whose `SELECT` ran before another's insert.
pub data Op : Type 0 where
  stores races : String → Finding → Option String → Draw → Op
  edits : String → String → Option Status → Option (Option String) → String → Draw → Op

abbrev pub step : Digests → Db → Op → Db
step D db (stores t f job d) = (store_finding D t f job d db).1
step D db (races t f job d) = (store_late D t f job d db).1
step D db (edits t i status assigned actor d) = (update_lifecycle t i status assigned actor d db).1

unfoldable pub run : Digests → Db → List Op → Db
run D db [] = db
run D db (o ∷ os) = run D (step D db o) os

pub edited-KeepsKeys :
    (status : Option Status) (assigned : Option (Option String)) (now : ℕ)
    → KeepsKeys (edited status assigned now)
edited-KeepsKeys status assigned now = record {
  row_id = λ r. refl;
  tenant_id = λ r. refl;
  finding_id = λ r. refl;
  fingerprint = λ r. refl;
  payload_id = λ r. refl;
}

module _ (D : Digests) (t : String) (f : Finding) (job : Option String) (d : Draw) (db : Db) where
  store_finding-IsTable : IsTable db.rows → IsTable (store_finding D t f job d db).1.rows
  unfolding store_finding
  store_finding-IsTable h =
      let fp = finding_fingerprint D f in
      elim (Option-cases (ensure_tenant t d.now db.tenants)) [
        | inl e ↦ rw (e, store_finding) (recover-IsTable t fp f job d db h)
        | inr (tenants, e) ↦
            rw (e, store_finding)
              (write-IsTable t fp f job d (find (has_print t fp) db.rows) tenants db h)
      ]

  store_late-IsTable : IsTable db.rows → IsTable (store_late D t f job d db).1.rows
  unfolding store_late
  store_late-IsTable h =
      let fp = finding_fingerprint D f in
      elim (Option-cases (ensure_tenant t d.now db.tenants)) [
        | inl e ↦ rw (e, store_late) (recover-IsTable t fp f job d db h)
        | inr (tenants, e) ↦ rw (e, store_late) (write-IsTable t fp f job d none tenants db h)
      ]

update_lifecycle-IsTable :
    (t i : String) (status : Option Status) (assigned : Option (Option String)) (actor : String)
    (d : Draw) (db : Db)
    → IsTable db.rows
    → IsTable (update_lifecycle t i status assigned actor d db).1.rows
unfolding update_lifecycle
update_lifecycle-IsTable t i status assigned actor d db h =
    elim (Option-cases (find (has_id t i) db.rows)) [
      | inl e ↦ rw (e, update_lifecycle) h
      | inr (r, e) ↦
          rw (e, update_lifecycle)
            (update-IsTable (edited status assigned d.now) (λ x. x.row_id == r.row_id)
              (edited-KeepsKeys status assigned d.now) db.rows h)
    ]

pub step-IsTable : (D : Digests) (db : Db) (o : Op) → IsTable db.rows → IsTable (step D db o).rows
step-IsTable D db (stores t f job d) h = store_finding-IsTable D t f job d db h
step-IsTable D db (races t f job d) h = store_late-IsTable D t f job d db h
step-IsTable D db (edits t i status assigned actor d) h =
    update_lifecycle-IsTable t i status assigned actor d db h

-- Whatever findings are stored, also by a transaction that draws its id or looks for the finding before
-- another one commits, and whatever is edited, a table that starts well-formed stays so: its ids are
-- positive and no two rows share one, no two rows of a tenant have one finding id or one fingerprint,
-- and every row's finding keeps the id under which it was first stored. The order in which ids are
-- drawn is left open.
pub run-IsTable :
    (D : Digests) (db : Db) (os : List Op) → IsTable db.rows → IsTable (run D db os).rows
unfolding run
run-IsTable D db [] h = h
run-IsTable D db (o ∷ os) h = run-IsTable D (step D db o) os (step-IsTable D db o h)
