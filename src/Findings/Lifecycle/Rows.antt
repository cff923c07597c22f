-- ===== src/Findings/Lifecycle/Rows.antt =====
-- What the writes of the lifecycle registry keep of the table of findings.
use shared_integration.Prelude.{
  ℕ, ◌≤◌, ◌<◌, String, ◌≡◌, refl, sym, ◌∙◌, inl, inr, Bool, false, Option, none, some, List, [],
  ◌∷◌, arith, ltb, eq_iff, ◌==◌, find, any, update, All, All-map, applied, Bool-cases, Option-cases,
}
use shared_integration.Jobs.Sql.{Tenant}
use shared_integration.Findings.{Finding}
use shared_integration.Findings.Lifecycle.{
  Row, Db, Draw, clashes, has_print, placed, new_row, seen_again, recovered, recover, write,
}
use shared_integration.Findings.Lifecycle.Pages.{Increasing}

abbrev pub NoClash : List Row → Type 0
NoClash [] = Unit {0}
NoClash (r ∷ rs) = (any (clashes r) rs ≡ false) × NoClash rs

-- The ids are positive, no two rows have one id, no two rows of a tenant have one finding id or one
-- fingerprint, and a row's finding has the id of its column. The list is in the order of the ids.
pub record IsTable (rows : List Row) : Type 0 where
  pub ordered : Increasing rows
  pub positive : All (λ (r : Row). 1 ≤ r.row_id) rows
  pub unique : NoClash rows
  pub ids : All (λ (r : Row). r.payload.id ≡ r.finding_id) rows

-- A change that leaves the keys of a row.
pub record KeepsKeys (f : Row → Row) : Type 0 where
  pub row_id : (r : Row) → (f r).row_id ≡ r.row_id
  pub tenant_id : (r : Row) → (f r).tenant_id ≡ r.tenant_id
  pub finding_id : (r : Row) → (f r).finding_id ≡ r.finding_id
  pub fingerprint : (r : Row) → (f r).fingerprint ≡ r.fingerprint
  pub payload_id : (r : Row) → (f r).payload.id ≡ r.payload.id

module _ (f : Row → Row) (q : Row → Bool) (k : KeepsKeys f) where
  All-update :
      (P : Row → Type 0) (rs : List Row)
      → ((r : Row) → P r → P (f r))
      → All P rs
      → All P (update q f rs)
  unfolding update
  All-update P [] keep h = tt
  All-update P (r ∷ rs) keep h =
      let rest = All-update P rs keep h.1 in
      elim (Bool-cases (q r)) [ inl e ↦ rw e (keep r h.0, rest) | inr e ↦ rw e (h.0, rest) ]

  above : (n : ℕ) (r : Row) → n < r.row_id → n < (f r).row_id
  above n r h = omega (arith, h, k.row_id r)

  Increasing-update : (rs : List Row) → Increasing rs → Increasing (update q f rs)
  unfolding update
  Increasing-update [] h = tt
  Increasing-update (r ∷ rs) h =
      let later = All-update (λ x. r.row_id < x.row_id) rs (above r.row_id) h.0 in
      let rest = Increasing-update rs h.1 in
      elim (Bool-cases (q r)) [
        | inl e ↦ rw (e, k.row_id r) (later, rest)
        | inr e ↦ rw e (later, rest)
      ]

  clashes_keeps : (x y : Row) → (clashes x (f y) ≡ clashes x y) × (clashes (f x) y ≡ clashes x y)
  clashes_keeps x y = (
    rw (k.row_id y, k.tenant_id y, k.finding_id y, k.fingerprint y) refl,
    rw (k.row_id x, k.tenant_id x, k.finding_id x, k.fingerprint x) refl,
  )

  any_keeps :
      (x : Row) (rs : List Row) → any (clashes (applied q f x)) (update q f rs) ≡ any (clashes x) rs
  unfolding any update
  any_keeps x [] = refl
  any_keeps x (y ∷ rs) = ground (arith, clashes_keeps x y, clashes_keeps x (f y), any_keeps x rs)

  NoClash-update : (rs : List Row) → NoClash rs → NoClash (update q f rs)
  unfolding update
  NoClash-update [] h = tt
  NoClash-update (r ∷ rs) h = (any_keeps r rs ∙ h.0, NoClash-update rs h.1)

  pub update-IsTable : (rs : List Row) → IsTable rs → IsTable (update q f rs)
  update-IsTable rs h = record {
    ordered = Increasing-update rs h.ordered;
    positive = All-update (λ r. 1 ≤ r.row_id) rs (λ r. above 0 r) h.positive;
    unique = NoClash-update rs h.unique;
    ids =
        All-update (λ r. r.payload.id ≡ r.finding_id) rs
          (λ r e. k.payload_id r ∙ e ∙ sym (k.finding_id r)) h.ids;
  }

clashes_comm : (x y : Row) → clashes x y ≡ clashes y x
clashes_comm x y = ground (
  arith,
  eq_iff x.tenant_id y.tenant_id,
  eq_iff y.tenant_id x.tenant_id,
  eq_iff x.fingerprint y.fingerprint,
  eq_iff y.fingerprint x.fingerprint,
  eq_iff x.finding_id y.finding_id,
  eq_iff y.finding_id x.finding_id,
)

module _ (new : Row) where
  All-placed : (P : Row → Type 0) (rs : List Row) → P new → All P rs → All P (placed new rs)
  unfolding placed
  All-placed P [] h k = (h, tt)
  All-placed P (r ∷ rs) h k = elim (Bool-cases (ltb new.row_id r.row_id)) [
    | inl e ↦ rw e (h, k)
    | inr e ↦ rw e (k.0, All-placed P rs h k.1)
  ]

  Increasing-placed :
      (rs : List Row) → any (clashes new) rs ≡ false → Increasing rs → Increasing (placed new rs)
  unfolding any placed
  Increasing-placed [] e h = (tt, tt)
  Increasing-placed (r ∷ rs) e h = elim (Bool-cases (ltb new.row_id r.row_id)) [
    | inl before ↦
        let least : new.row_id < r.row_id = ground (arith, before) in
        rw before ((least, All-map rs (λ x k. omega (arith, least, k)) h.0), h)
    | inr after ↦
        let more : r.row_id < new.row_id = ground (arith, after, e) in
        rw after (
          All-placed (λ x. r.row_id < x.row_id) rs more h.0,
          Increasing-placed rs (ground (arith, e)) h.1,
        )
  ]

  any-placed :
      (p : Row → Bool) (rs : List Row)
      → p new ≡ false
      → any p rs ≡ false
      → any p (placed new rs) ≡ false
  unfolding any placed
  any-placed p [] h e = ground (arith, h)
  any-placed p (r ∷ rs) h e = elim (Bool-cases (ltb new.row_id r.row_id)) [
    | inl before ↦ rw before (ground (arith, h, e))
    | inr after ↦
        let rest = any-placed p rs h (ground (arith, e)) in rw after (ground (arith, e, rest))
  ]

  NoClash-placed :
      (rs : List Row) → any (clashes new) rs ≡ false → NoClash rs → NoClash (placed new rs)
  unfolding any placed
  NoClash-placed [] e h = (refl, tt)
  NoClash-placed (r ∷ rs) e h = elim (Bool-cases (ltb new.row_id r.row_id)) [
    | inl before ↦ rw before (e, h)
    | inr after ↦
        let apart : clashes r new ≡ false = ground (arith, clashes_comm r new, e) in
        rw after (any-placed (clashes r) rs apart h.0, NoClash-placed rs (ground (arith, e)) h.1)
  ]

module _ (t fp : String) (f : Finding) (job : Option String) (d : Draw) where
  inserted-IsTable :
      (rs : List Row)
      → any (clashes (new_row t fp f job d)) rs ≡ false
      → IsTable rs
      → IsTable (placed (new_row t fp f job d) rs)
  inserted-IsTable rs e h =
      let new = new_row t fp f job d in
      record {
        ordered = Increasing-placed new rs e h.ordered;
        positive = All-placed new (λ r. 1 ≤ r.row_id) rs (omega arith) h.positive;
        unique = NoClash-placed new rs e h.unique;
        ids = All-placed new (λ r. r.payload.id ≡ r.finding_id) rs refl h.ids;
      }

  pub seen_again-KeepsKeys : KeepsKeys (seen_again f job d)
  seen_again-KeepsKeys = record {
    row_id = λ r. refl;
    tenant_id = λ r. refl;
    finding_id = λ r. refl;
    fingerprint = λ r. refl;
    payload_id = λ r. refl;
  }

  pub recovered-KeepsKeys : KeepsKeys (recovered f d)
  recovered-KeepsKeys = record {
    row_id = λ r. refl;
    tenant_id = λ r. refl;
    finding_id = λ r. refl;
    fingerprint = λ r. refl;
    payload_id = λ r. refl;
  }

  pub recover-IsTable : (db : Db) → IsTable db.rows → IsTable (recover t fp f d db).1.rows
  unfolding recover
  recover-IsTable db h = elim (Option-cases (find (has_print t fp) db.rows)) [
    | inl e ↦ rw (e, recover) h
    | inr (r, e) ↦
        rw (e, recover)
          (update-IsTable (recovered f d) (λ x. x.row_id == r.row_id) recovered-KeepsKeys db.rows h)
  ]

  pub write-IsTable :
      (seen : Option Row) (tenants : List Tenant) (db : Db)
      → IsTable db.rows
      → IsTable (write t fp f job d seen tenants db).1.rows
  write-IsTable none tenants db h =
      elim (Bool-cases (any (clashes (new_row t fp f job d)) db.rows)) [
        | inl e ↦ rw e (recover-IsTable db h)
        | inr e ↦ rw e (inserted-IsTable db.rows e h)
      ]
  write-IsTable (some r) tenants db h =
      update-IsTable (seen_again f job d) (λ x. x.row_id == r.row_id) seen_again-KeepsKeys db.rows h
