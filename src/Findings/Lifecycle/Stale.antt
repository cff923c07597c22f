-- ===== src/Findings/Lifecycle/Stale.antt =====
-- What a store leaves of the columns that repeat the payload.
use shared_integration.Prelude.{
  ◌<◌, String, ◌≡◌, refl, sym, ◌∙◌, Bool, true, Option, some, List, [], ◌∷◌, arith, ltb, ◌==◌, find,
  any, update, find-update,
}
use shared_integration.Result.{ok}
use shared_integration.Correlations.{rank}
use shared_integration.Jobs.Sql.{Tenant, ensure_tenant}
use shared_integration.Findings.{Finding, Digests, finding_fingerprint}
use shared_integration.Findings.Lifecycle.{
  Row, Db, Draw, clashes, has_print, new_row, recovered, seen_again, recover, store_finding,
  store_late,
}
use shared_integration.Findings.Lifecycle.Rows.{
  KeepsKeys, seen_again-KeepsKeys, recovered-KeepsKeys,
}

-- The severity that filters read is the one of the finding that is returned.
abbrev pub IsAligned : Row → Type 0
IsAligned r = r.severity ≡ r.payload.severity

any-find :
    (p q : Row → Bool) (rs : List Row) (x : Row)
    → ((y : Row) → q y ≡ true → p y ≡ true)
    → find q rs ≡ some x
    → any p rs ≡ true
unfolding any find
any-find p q [] x h e = absurd (ground (arith, e))
any-find p q (y ∷ rs) x h e = ground (arith, h y, e, any-find p q rs x h)

module _ (t fp : String) where
  -- The row that is written is found again.
  written :
      (f : Row → Row) (r : Row) (rows : List Row)
      → KeepsKeys f
      → find (has_print t fp) rows ≡ some r
      → find (has_print t fp) (update (λ x. x.row_id == r.row_id) f rows) ≡ some (f r)
  written f r rows k e =
      let q : Row → Bool = λ x. x.row_id == r.row_id in
      let keeps : (x : Row) → has_print t fp (f x) ≡ has_print t fp x =
        λ x. rw (k.tenant_id x, k.fingerprint x) refl in
      let itself : (r.row_id == r.row_id) ≡ true = ground arith in
      find-update (has_print t fp) q f rows keeps ∙ rw (e, itself) refl

-- Where a finding is in the table with a severity column that agrees with its payload, and it is
-- stored again with a graver severity, the ordinary branch keeps the two in agreement; but a store
-- whose `SELECT` ran before the row was there answers with the graver severity and leaves the column
-- at the lower one, so that a filter on the severity no longer finds what is returned.
stale_severity :
    (D : Digests) (t : String) (f : Finding) (job : Option String) (d : Draw) (db : Db) (r : Row)
    (tenants : List Tenant)
    → find (has_print t (finding_fingerprint D f)) db.rows ≡ some r
    → ensure_tenant t d.now db.tenants ≡ some tenants
    → IsAligned r
    → rank r.severity < rank f.severity
    → ((x : Row) × (find
            (has_print t (finding_fingerprint D f))
            (store_finding D t f job d db).1.rows
          ≡ some x)
        × (x.payload.severity ≡ f.severity)
        × IsAligned x)
      × ((x : Row) × (find
              (has_print t (finding_fingerprint D f))
              (store_late D t f job d db).1.rows
            ≡ some x)
          × (x.payload.severity ≡ f.severity)
          × (x.severity ≡ r.severity)
          × ((store_late D t f job d db).0 ≡ ok x.payload))
unfolding store_finding store_late recover
stale_severity D t f job d db r tenants e there aligned graver_now = (ordinary, late)
  where
    fp : String
    fp = finding_fingerprint D f

    lower : ltb (rank r.payload.severity) (rank f.severity) ≡ true
    lower = rw (sym aligned) (ground (arith, graver_now))

    ordinary :
        (x : Row) × (find (has_print t fp) (store_finding D t f job d db).1.rows ≡ some x)
        × (x.payload.severity ≡ f.severity)
        × IsAligned x
    ordinary =
        rw (there, e, store_finding)
          (
            seen_again f job d r,
            written t fp (seen_again f job d) r db.rows (seen_again-KeepsKeys t fp f job d) e,
            rw lower refl,
            refl,
          )

    clash : any (clashes (new_row t fp f job d)) db.rows ≡ true
    clash =
        any-find (clashes (new_row t fp f job d)) (has_print t fp) db.rows r
          (λ y k. ground (arith, k)) e

    late :
        (x : Row) × (find (has_print t fp) (store_late D t f job d db).1.rows ≡ some x)
        × (x.payload.severity ≡ f.severity)
        × (x.severity ≡ r.severity)
        × ((store_late D t f job d db).0 ≡ ok x.payload)
    late =
        rw (there, clash, e, store_late, recover)
          (
            recovered f d r,
            written t fp (recovered f d) r db.rows (recovered-KeepsKeys t fp f job d) e,
            rw lower refl,
            refl,
            refl,
          )
