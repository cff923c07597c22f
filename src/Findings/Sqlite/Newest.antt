-- ===== src/Findings/Sqlite/Newest.antt =====
-- A store into the table of findings.
use shared_integration.Prelude.{
  ℕ, ◌+◌, ◌≤◌, ◌<◌, String, ◌≡◌, ◌≢◌, refl, ap, ◌∙◌, inl, inr, Bool, false, not, ◌&&◌, [], ◌∷◌,
  ◌++◌, arith, str_eq, eq_iff, any, select, select-append, update, map, take, length, length-append,
  length-take-le, append-nil, All, All-append, All-select, All-map, IncreasingBy, latest,
  select-IncreasingBy, Bool-cases,
}
use shared_integration.Findings.{Finding}
use shared_integration.Findings.Sqlite.{
  Stored, State, of_tenant, prune, has_id, upsert, store_finding, add, newest, is_in,
}
use shared_integration.Findings.Sqlite.Pruning.{seq_of, prune_own, prune_others}
use shared_integration.Findings.Sqlite.View.{
  Table, payload_of, view, remembered, map-take, view-upsert,
}

-- Rows stand in the order of their sequence numbers, none of which is past the counter.
pub record IsOrdered (rows : Table) (last : ℕ) : Type 0 where
  pub increasing : IncreasingBy seq_of rows
  pub counted : All (λ (r : Stored Finding). r.seq ≤ last) rows

latest-length : (rows : Table) → length (latest rows) ≡ length rows
latest-length [] = refl
latest-length (r ∷ rows) = omega (arith, latest-length rows, length-append (latest rows) (r ∷ []))

abbrev write : Finding → Stored Finding → Stored Finding
write f r = record r { payload = f }

module _ (q : Stored Finding → Bool) (f : Finding) where
  update-All :
      (n : ℕ) (rows : Table)
      → All (λ r. n < r.seq) rows
      → All (λ r. n < r.seq) (update q (write f) rows)
  unfolding update
  update-All n [] h = tt
  update-All n (r ∷ rows) h = elim (Bool-cases (q r)) [
    | inl e ↦ rw e (h.0, update-All n rows h.1)
    | inr e ↦ rw e (h.0, update-All n rows h.1)
  ]

  update-counted :
      (n : ℕ) (rows : Table)
      → All (λ r. r.seq ≤ n) rows
      → All (λ r. r.seq ≤ n) (update q (write f) rows)
  unfolding update
  update-counted n [] h = tt
  update-counted n (r ∷ rows) h = elim (Bool-cases (q r)) [
    | inl e ↦ rw e (h.0, update-counted n rows h.1)
    | inr e ↦ rw e (h.0, update-counted n rows h.1)
  ]

  update-IncreasingBy :
      (rows : Table) → IncreasingBy seq_of rows → IncreasingBy seq_of (update q (write f) rows)
  unfolding update
  update-IncreasingBy [] h = tt
  update-IncreasingBy (r ∷ rows) h = elim (Bool-cases (q r)) [
    | inl e ↦ rw e (update-All r.seq rows h.0, update-IncreasingBy rows h.1)
    | inr e ↦ rw e (update-All r.seq rows h.0, update-IncreasingBy rows h.1)
  ]

append-IncreasingBy :
    (new : Stored Finding) (rows : Table)
    → All (λ r. r.seq < new.seq) rows
    → IncreasingBy seq_of rows
    → IncreasingBy seq_of (rows ++ new ∷ [])
append-IncreasingBy new [] h k = (tt, tt)
append-IncreasingBy new (r ∷ rows) h k = (
  All-append (λ x. r.seq < x.seq) rows (new ∷ []) k.0 (h.0, tt),
  append-IncreasingBy new rows h.1 k.1,
)

upsert-IsOrdered :
    (t : String) (f : Finding) (rows : Table) (last : ℕ)
    → IsOrdered rows last
    → IsOrdered (upsert t f (last + 1) rows) (last + 1)
upsert-IsOrdered t f rows last h =
    let grown : All (λ r. r.seq ≤ last + 1) rows =
      All-map rows (λ r k. omega (arith, k)) h.counted in
    elim (Bool-cases (any (has_id t f.id) rows)) [
      | inl e ↦ rw e (record {
        increasing = update-IncreasingBy (has_id t f.id) f rows h.increasing;
        counted = update-counted (has_id t f.id) f (last + 1) rows grown;
      })
      | inr e ↦
          let new : Stored Finding = record { seq = last + 1; tenant_id = t; payload = f } in
          rw e (record {
            increasing =
                append-IncreasingBy new rows (All-map rows (λ r k. omega (arith, k)) h.counted)
                  h.increasing;
            counted = All-append (λ r. r.seq ≤ last + 1) rows (new ∷ []) grown (omega arith, tt);
          })
    ]

module _ (t u : String) (f : Finding) (other : u ≢ t) where
  update_others :
      (rows : Table)
      → select (of_tenant u) (update (has_id t f.id) (write f) rows) ≡ select (of_tenant u) rows
  unfolding select update
  update_others [] = refl
  update_others (r ∷ rows) =
      let rest = update_others rows in
      elim (Bool-cases (has_id t f.id r)) [
        | inl e ↦
            let foreign : of_tenant u r ≡ false =
              ground (arith, e, other, eq_iff r.tenant_id u, eq_iff r.tenant_id t) in
            rw (e, foreign) rest
        | inr e ↦ rw (e, rest) refl
      ]

  upsert_others :
      (n : ℕ) (rows : Table) → select (of_tenant u) (upsert t f n rows) ≡ select (of_tenant u) rows
  unfolding select
  upsert_others n rows = elim (Bool-cases (any (has_id t f.id) rows)) [
    | inl e ↦ rw e (update_others rows)
    | inr e ↦
        let foreign : str_eq t u ≡ false = ground (arith, other, eq_iff t u) in
        rw
          (
            e,
            select-append (of_tenant u) rows (record { seq = n; tenant_id = t; payload = f } ∷ []),
            foreign,
          )
          (append-nil (select (of_tenant u) rows))
  ]

prune-IsOrdered :
    (t : String) (n : ℕ) (rows : Table) (last : ℕ)
    → IsOrdered rows last
    → IsOrdered (prune t n rows) last
unfolding prune
prune-IsOrdered t n rows last h =
    let keep : Stored Finding → Bool =
      λ r. not (of_tenant t r && not (is_in (newest t n rows) r)) in
    record {
      increasing = select-IncreasingBy seq_of keep rows h.increasing;
      counted = All-select (λ r. r.seq ≤ last) keep rows h.counted;
    }

-- In a table in order, a store has the effect on the tenant's findings, newest first, that `remembered`
-- describes, of which the first `max_size` are kept: a finding with a new id comes before all others,
-- and one whose id is there takes the place of the one with that id. No more than `max_size` are left
-- of the tenant; the rows of every other tenant are as they were, and the table is in order.
pub add_keeps_newest :
    (t u : String) (f : Finding) (s : State)
    → u ≢ t
    → IsOrdered s.findings s.last_finding
    → (view t (add t f s).findings ≡ take s.max_size (remembered f (view t s.findings)))
      × (length (select (of_tenant t) (add t f s).findings) ≤ s.max_size)
      × (select (of_tenant u) (add t f s).findings ≡ select (of_tenant u) s.findings)
      × IsOrdered (add t f s).findings (add t f s).last_finding
unfolding add store_finding
add_keeps_newest t u f s other h =
    let rows = upsert t f (s.last_finding + 1) s.findings in
    let ordered = upsert-IsOrdered t f s.findings s.last_finding h in
    let own = prune_own t s.max_size rows ordered.increasing in
    let kept = select (of_tenant t) (prune t s.max_size rows) in
    (
      ap (map payload_of) own
          ∙ map-take payload_of s.max_size (latest (select (of_tenant t) rows))
          ∙ ap (take s.max_size) (view-upsert t f (s.last_finding + 1) s.findings),
      omega (
        arith,
        latest-length kept,
        ap length own,
        length-take-le s.max_size (latest (select (of_tenant t) rows)),
      ),
      (prune_others t u s.max_size rows other
          ∙ upsert_others t u f other (s.last_finding + 1) s.findings),
      prune-IsOrdered t s.max_size rows (s.last_finding + 1) ordered,
    )
