-- ===== src/Findings/Lifecycle/Counted.antt =====
-- The column `occurrences` along any calls.
use mathlib.Core.Option.{none-ne-some}
use shared_integration.Prelude.{
  ℕ, ◌+◌, String, ◌≡◌, refl, inl, inr, Bool, false, ◌&&◌, Option, none, List, [], ◌∷◌, arith, ◌==◌,
  find, update, find-update, Bool-cases, Option-cases,
}
use shared_integration.Jobs.Sql.{ensure_tenant}
use shared_integration.Findings.{Finding, Digests, finding_fingerprint}
use shared_integration.Findings.Lifecycle.{
  Row, Db, Draw, Status, has_print, has_id, store_finding, store_late,
}
use shared_integration.Findings.Lifecycle.Editing.{edited, update_lifecycle}
use shared_integration.Findings.Lifecycle.Invariant.{
  Op, stores, races, edits, step, run, step-IsTable,
}
use shared_integration.Findings.Lifecycle.Rows.{IsTable}
use shared_integration.Findings.Lifecycle.Occurrences.{
  occurrences_of, is_ok, one, is_for, recover-occurrences, write-occurrences,
}

-- A call that stores a finding of the tenant with the fingerprint, and does not raise.
abbrev pub counts : Digests → String → String → Db → Op → Bool
counts D t fp db (stores u f job d) =
    is_for t fp u (finding_fingerprint D f) && is_ok (store_finding D u f job d db).0
counts D t fp db (races u f job d) =
    is_for t fp u (finding_fingerprint D f) && is_ok (store_late D u f job d db).0
counts D t fp db (edits u i status assigned actor d) = false

unfoldable pub sightings : Digests → String → String → Db → List Op → ℕ
sightings D t fp db [] = 0
sightings D t fp db (o ∷ os) = one (counts D t fp db o) + sightings D t fp (step D db o) os

module _ (D : Digests) (t fp : String) (db : Db) (h : IsTable db.rows) where
  store_finding-occurrences :
      (u : String) (f : Finding) (job : Option String) (d : Draw)
      → occurrences_of t fp (store_finding D u f job d db).1.rows
        ≡ occurrences_of t fp db.rows
          + one (is_for t fp u (finding_fingerprint D f) && is_ok (store_finding D u f job d db).0)
  unfolding store_finding
  store_finding-occurrences u f job d =
      let gp = finding_fingerprint D f in
      elim (Option-cases (ensure_tenant u d.now db.tenants)) [
        | inl e ↦ rw (e, store_finding) (recover-occurrences t fp u gp f d db h)
        | inr (tenants, e) ↦
            rw (e, store_finding)
              (write-occurrences t fp u gp f job d (find (has_print u gp) db.rows) tenants db h
                (λ r k. k))
      ]

  store_late-occurrences :
      (u : String) (f : Finding) (job : Option String) (d : Draw)
      → occurrences_of t fp (store_late D u f job d db).1.rows
        ≡ occurrences_of t fp db.rows
          + one (is_for t fp u (finding_fingerprint D f) && is_ok (store_late D u f job d db).0)
  unfolding store_late
  store_late-occurrences u f job d =
      let gp = finding_fingerprint D f in
      elim (Option-cases (ensure_tenant u d.now db.tenants)) [
        | inl e ↦ rw (e, store_late) (recover-occurrences t fp u gp f d db h)
        | inr (tenants, e) ↦
            rw (e, store_late)
              (write-occurrences t fp u gp f job d none tenants db h
                (λ r k. absurd (none-ne-some r k)))
      ]

  update_lifecycle-occurrences :
      (u i : String) (status : Option Status) (assigned : Option (Option String)) (actor : String)
      (d : Draw)
      → occurrences_of t fp (update_lifecycle u i status assigned actor d db).1.rows
        ≡ occurrences_of t fp db.rows
  unfolding update_lifecycle
  update_lifecycle-occurrences u i status assigned actor d =
      elim (Option-cases (find (has_id u i) db.rows)) [
        | inl e ↦ rw (e, update_lifecycle) refl
        | inr (r, e) ↦ rw (e, update_lifecycle) (kept (λ x. x.row_id == r.row_id))
      ]
    where
      kept :
          (q : Row → Bool)
          → occurrences_of t fp (update q (edited status assigned d.now) db.rows)
            ≡ occurrences_of t fp db.rows
      kept q =
          rw (find-update (has_print t fp) q (edited status assigned d.now) db.rows (λ x. refl))
            (elim (Option-cases (find (has_print t fp) db.rows)) [
              | inl e ↦ rw e refl
              | inr (x, e) ↦
                  rw e (elim (Bool-cases (q x)) [ inl hit ↦ rw hit refl | inr miss ↦ rw miss refl ])
            ])

  step-occurrences :
      (o : Op)
      → occurrences_of t fp (step D db o).rows
        ≡ occurrences_of t fp db.rows + one (counts D t fp db o)
  step-occurrences (stores u f job d) = store_finding-occurrences u f job d
  step-occurrences (races u f job d) = store_late-occurrences u f job d
  step-occurrences (edits u i status assigned actor d) =
      omega (arith, update_lifecycle-occurrences u i status assigned actor d)

-- In a well-formed table, whatever findings of whatever tenants are stored, from concurrent
-- transactions too, and whatever is edited, the occurrences of the row with a tenant and a
-- fingerprint grow by exactly the number of the calls that stored a finding of that tenant with that
-- fingerprint and did not raise: no sighting is lost, and none counts twice or for another finding.
pub run-occurrences :
    (D : Digests) (t fp : String) (db : Db) (os : List Op)
    → IsTable db.rows
    → occurrences_of t fp (run D db os).rows ≡ occurrences_of t fp db.rows + sightings D t fp db os
unfolding run sightings
run-occurrences D t fp db [] h = omega arith
run-occurrences D t fp db (o ∷ os) h = omega (
  arith,
  run-occurrences D t fp (step D db o) os (step-IsTable D db o h),
  step-occurrences D t fp db h o,
)
