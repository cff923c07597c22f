-- ===== src/Findings/Lifecycle/Occurrences.antt =====
-- How often a finding was seen.
use mathlib.Core.Option.{some-injective, none-ne-some}
use shared_integration.Prelude.{
  ℕ, ◌+◌, ◌<◌, String, ◌≡◌, refl, sym, ap, subst, ◌∙◌, ◌⊎◌, inl, inr, Bool, true, false, ◌&&◌,
  Option, none, some, List, [], ◌∷◌, arith, ltb, str_eq, eq_iff, ◌==◌, find, any, update, All,
  find-update, find-true, if◌then◌else◌, Bool-cases, Option-cases,
}
use shared_integration.Result.{Result, ok, err}
use shared_integration.Jobs.Sql.{Tenant}
use shared_integration.Findings.{Finding}
use shared_integration.Findings.Lifecycle.{
  Row, Db, Draw, clashes, has_print, placed, new_row, seen_again, recovered, recover, write,
}
use shared_integration.Findings.Lifecycle.Pages.{Increasing}
use shared_integration.Findings.Lifecycle.Rows.{
  IsTable, KeepsKeys, seen_again-KeepsKeys, recovered-KeepsKeys,
}

first_or_later :
    (p : Row → Bool) (y : Row) (rs : List Row) (x : Row)
    → find p (y ∷ rs) ≡ some x
    → (y ≡ x) ⊎ (find p rs ≡ some x)
unfolding find
first_or_later p y rs x e = elim (Bool-cases (p y)) [
  | inl hit ↦ let first : some y ≡ some x = (rw hit at e) in inl (some-injective y x first)
  | inr miss ↦ let later : find p rs ≡ some x = (rw miss at e) in inr later
]

any-none :
    (p q : Row → Bool) (rs : List Row) (x : Row)
    → any p rs ≡ false
    → find q rs ≡ some x
    → p x ≡ false
unfolding any find
any-none p q [] x h e = absurd (ground (arith, e))
any-none p q (y ∷ rs) x h e = elim (first_or_later q y rs x e) [
  | inl same ↦ subst (λ z. p z ≡ false) same (ground (arith, h))
  | inr later ↦ any-none p q rs x (ground (arith, h)) later
]

find-All :
    (P : Row → Type 0) (p : Row → Bool) (rs : List Row) (r : Row)
    → find p rs ≡ some r
    → All P rs
    → P r
unfolding find
find-All P p [] r e h = absurd (ground (arith, e))
find-All P p (x ∷ rs) r e h = elim (first_or_later p x rs r e) [
  | inl same ↦ subst P same h.0
  | inr later ↦ find-All P p rs r later h.1
]

-- Two rows that are found and have one id are the same.
same_row :
    (p q : Row → Bool) (rs : List Row) (x r : Row)
    → Increasing rs
    → find p rs ≡ some x
    → find q rs ≡ some r
    → x.row_id ≡ r.row_id
    → x ≡ r
unfolding find
same_row p q [] x r h e k s = absurd (ground (arith, e))
same_row p q (y ∷ rs) x r h e k s =
    let above = λ (z : Row) (t : Row → Bool) (found : find t rs ≡ some z).
      find-All (λ w. y.row_id < w.row_id) t rs z found h.0 in
    elim (first_or_later p y rs x e) [
      | inl a ↦ elim (first_or_later q y rs r k) [
        | inl b ↦ sym a ∙ b
        | inr b ↦ absurd (omega (arith, above r q b, ap (λ (w : Row). w.row_id) a, s))
      ]
      | inr a ↦ elim (first_or_later q y rs r k) [
        | inl b ↦ absurd (omega (arith, above x p a, ap (λ (w : Row). w.row_id) b, s))
        | inr b ↦ same_row p q rs x r h.1 a b s
      ]
    ]

module _ (new : Row) (p : Row → Bool) where
  -- A row that does not pass does not matter for what is found.
  find-placed_failing : (rs : List Row) → p new ≡ false → find p (placed new rs) ≡ find p rs
  unfolding find placed
  find-placed_failing [] h = rw h refl
  find-placed_failing (r ∷ rs) h = elim (Bool-cases (ltb new.row_id r.row_id)) [
    | inl before ↦ rw (before, h) refl
    | inr after ↦ rw after (ground (arith, find-placed_failing rs h))
  ]

  -- The first row that passes is found wherever it stands.
  find-placed_first :
      (rs : List Row) → p new ≡ true → find p rs ≡ none → find p (placed new rs) ≡ some new
  unfolding find placed
  find-placed_first [] h e = rw h refl
  find-placed_first (r ∷ rs) h e = elim (Bool-cases (p r)) [
    | inl hit ↦ absurd (ground (arith, hit, e))
    | inr miss ↦
        let gone : find p rs ≡ none = (rw miss at e) in
        elim (Bool-cases (ltb new.row_id r.row_id)) [
          | inl before ↦ rw (before, h) refl
          | inr after ↦ rw (after, miss) (find-placed_first rs h gone)
        ]
  ]

-- How often the finding with a fingerprint was seen.
abbrev pub seen_times : Option Row → ℕ
seen_times none = 0
seen_times (some r) = r.occurrences

abbrev pub occurrences_of : String → String → List Row → ℕ
occurrences_of t fp rows = seen_times (find (has_print t fp) rows)

abbrev pub is_ok {ℓ} : {A : Type ℓ} → Result A → Bool
is_ok (ok a) = true
is_ok (err e) = false

abbrev pub one : Bool → ℕ
one b = if b then 1 else 0

module _ (t fp : String) where
  abbrev pub is_for : String → String → Bool
  is_for u gp = str_eq u t && str_eq gp fp

  same_find :
      (u gp : String) (rows : List Row)
      → is_for u gp ≡ true
      → find (has_print t fp) rows ≡ find (has_print u gp) rows
  same_find u gp rows h =
      let a : u ≡ t = ground (arith, h, eq_iff u t) in
      let b : gp ≡ fp = ground (arith, h, eq_iff gp fp) in rw (a, b) refl

  -- Seeing the finding of `u` and `gp` again.
  bumped :
      (u gp : String) (f : Row → Row) (r : Row) (rows : List Row)
      → KeepsKeys f
      → ((x : Row) → (f x).occurrences ≡ x.occurrences + 1)
      → Increasing rows
      → find (has_print u gp) rows ≡ some r
      → occurrences_of t fp (update (λ x. x.row_id == r.row_id) f rows)
        ≡ occurrences_of t fp rows + one (is_for u gp)
  bumped u gp f r rows k up h e =
      let q : Row → Bool = λ x. x.row_id == r.row_id in
      let keeps : (x : Row) → has_print t fp (f x) ≡ has_print t fp x =
        λ x. rw (k.tenant_id x, k.fingerprint x) refl in
      elim (Option-cases (find (has_print t fp) rows)) [
        | inl gone ↦ rw (find-update (has_print t fp) q f rows keeps, gone, nobody gone) refl
        | inr (x, there) ↦
            rw (find-update (has_print t fp) q f rows keeps, there)
              (elim (Bool-cases (q x)) [
                | inl hit ↦
                    let same : x ≡ r =
                      same_row (has_print t fp) (has_print u gp) rows x r h there e
                        (ground (arith, hit)) in
                    rw (hit, his x same there) (up x)
                | inr miss ↦ rw (miss, another x there miss) (omega arith)
              ])
      ]
    where
      nobody : find (has_print t fp) rows ≡ none → is_for u gp ≡ false
      nobody gone = elim (Bool-cases (is_for u gp)) [
        | inl yes_for ↦ absurd (none-ne-some r (sym gone ∙ same_find u gp rows yes_for ∙ e))
        | inr other ↦ other
      ]

      his : (x : Row) → x ≡ r → find (has_print t fp) rows ≡ some x → is_for u gp ≡ true
      his x same there =
          let a : has_print t fp r ≡ true =
            ap (has_print t fp) (sym same) ∙ find-true (has_print t fp) rows x there in
          ground (
            arith,
            a,
            find-true (has_print u gp) rows r e,
            eq_iff r.tenant_id t,
            eq_iff r.tenant_id u,
            eq_iff r.fingerprint fp,
            eq_iff r.fingerprint gp,
            eq_iff u t,
            eq_iff gp fp,
          )

      another :
          (x : Row)
          → find (has_print t fp) rows ≡ some x
          → (x.row_id == r.row_id) ≡ false
          → is_for u gp ≡ false
      another x there miss = elim (Bool-cases (is_for u gp)) [
        | inl yes_for ↦
            let same : x ≡ r = some-injective x r (sym there ∙ same_find u gp rows yes_for ∙ e) in
            absurd (ground (arith, miss, ap (λ (w : Row). w.row_id) same))
        | inr other ↦ other
      ]

  pub recover-occurrences :
      (u gp : String) (f : Finding) (d : Draw) (db : Db)
      → IsTable db.rows
      → occurrences_of t fp (recover u gp f d db).1.rows
        ≡ occurrences_of t fp db.rows + one (is_for u gp && is_ok (recover u gp f d db).0)
  unfolding recover
  recover-occurrences u gp f d db h = elim (Option-cases (find (has_print u gp) db.rows)) [
    | inl e ↦ rw (e, recover) (ground arith)
    | inr (r, e) ↦
        rw (e, recover)
          (bumped u gp (recovered f d) r db.rows (recovered-KeepsKeys u gp f none d) (λ x. refl)
              h.ordered e
            ∙ ground arith)
  ]

  -- A new row counts for its own fingerprint alone.
  inserted :
      (u gp : String) (f : Finding) (job : Option String) (d : Draw) (rows : List Row)
      → any (clashes (new_row u gp f job d)) rows ≡ false
      → occurrences_of t fp (placed (new_row u gp f job d) rows)
        ≡ occurrences_of t fp rows + one (is_for u gp)
  inserted u gp f job d rows free = elim (Bool-cases (is_for u gp)) [
    | inr other ↦ rw (find-placed_failing new (has_print t fp) rows other, other) (omega arith)
    | inl his ↦ elim (Option-cases (find (has_print t fp) rows)) [
      | inl gone ↦ rw (find-placed_first new (has_print t fp) rows his gone, gone, his) refl
      | inr (x, there) ↦ absurd (ground (arith, foreign x there, his))
    ]
  ]
    where
      new : Row
      new = new_row u gp f job d

      foreign : (x : Row) → find (has_print t fp) rows ≡ some x → is_for u gp ≡ false
      foreign x there = ground (
        arith,
        any-none (clashes new) (has_print t fp) rows x free there,
        find-true (has_print t fp) rows x there,
        eq_iff x.tenant_id t,
        eq_iff x.tenant_id u,
        eq_iff u t,
        eq_iff x.fingerprint fp,
        eq_iff x.fingerprint gp,
        eq_iff gp fp,
      )

  pub write-occurrences :
      (u gp : String) (f : Finding) (job : Option String) (d : Draw) (seen : Option Row)
      (tenants : List Tenant) (db : Db)
      → IsTable db.rows
      → ((r : Row) → seen ≡ some r → find (has_print u gp) db.rows ≡ some r)
      → occurrences_of t fp (write u gp f job d seen tenants db).1.rows
        ≡ occurrences_of t fp db.rows
          + one (is_for u gp && is_ok (write u gp f job d seen tenants db).0)
  write-occurrences u gp f job d none tenants db h there =
      elim (Bool-cases (any (clashes (new_row u gp f job d)) db.rows)) [
        | inl clash ↦ rw clash (recover-occurrences u gp f d db h)
        | inr free ↦ rw free (inserted u gp f job d db.rows free ∙ ground arith)
      ]
  write-occurrences u gp f job d (some r) tenants db h there =
      bumped u gp (seen_again f job d) r db.rows (seen_again-KeepsKeys u gp f job d) (λ x. refl)
        h.ordered (there r refl)
      ∙ ground arith
