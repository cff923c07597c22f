-- ===== src/Findings/Lifecycle/Pages.antt =====
-- Paging through the findings of a tenant by cursor.
use shared_integration.Prelude.{
  IncreasingBy, DecreasingBy, latest, select-latest, select-IncreasingBy, sort-IncreasingBy, ℕ,
  zero, suc, ◌+◌, ◌≤◌, ◌<◌, String, ◌≡◌, ◌⊎◌, refl, sym, ap, ◌∙◌, inl, inr, Bool, true, false, ◌&&◌,
  Option, none, some, List, [], ◌∷◌, ◌++◌, map, arith, ltb, length, take, drop, select, sort_by,
  select_and, All, str_eq,
}
use shared_integration.Result.{Result, ok, ◌>>=◌}
use shared_integration.Findings.Lifecycle.{Row, Db}
use shared_integration.Findings.Lifecycle.Listing.{
  Filter, passes, before, newest_first, last_id, fetch, page_at, list_page, Cursors,
}
use shared_integration.Findings.Lifecycle.Editing.{Record, record_of}

-- The rows of a table stand in the order of their ids.
abbrev pub Increasing : List Row → Type 0
Increasing = IncreasingBy (λ r. r.row_id)

abbrev pub Decreasing : List Row → Type 0
Decreasing = DecreasingBy (λ r. r.row_id)

select_below :
    (n : ℕ) (rs : List Row) → All (λ x. x.row_id < n) rs → select (before (some n)) rs ≡ rs
unfolding select
select_below n [] h = refl
select_below n (r ∷ rs) h = ground (arith, h.0, select_below n rs h.1)

All-drop :
    (n k : ℕ) (rs : List Row) → All (λ x. x.row_id < n) rs → All (λ x. x.row_id < n) (drop k rs)
All-drop n zero rs h = h
All-drop n (suc k) [] h = tt
All-drop n (suc k) (r ∷ rs) h = All-drop n k rs h.1

pub last_id-le :
    (n : ℕ) (r : Row) (rs : List Row) → Decreasing (r ∷ rs) → last_id r (take n rs) ≤ r.row_id
last_id-le zero r rs h = omega arith
last_id-le (suc n) r [] h = omega arith
last_id-le (suc n) r (x ∷ rs) h = omega (arith, last_id-le n x rs h.1, h.0.0)

-- What is older than the last row of a page is what follows the page.
pub select_after :
    (n : ℕ) (r : Row) (rs : List Row)
    → Decreasing (r ∷ rs)
    → select (before (some (last_id r (take n rs)))) (r ∷ rs) ≡ drop n rs
unfolding select
select_after zero r rs h = ground (arith, select_below r.row_id rs h.0)
select_after (suc n) r [] h = ground arith
select_after (suc n) r (x ∷ rs) h =
    let rest = select_after n x rs h.1 in
    let below : ltb r.row_id (last_id x (take n rs)) ≡ false =
      ground (arith, last_id-le n x rs h.1, h.0.0) in
    rw below rest

pub select_weaker :
    (p q : Row → Bool) (rs : List Row)
    → ((r : Row) → q r ≡ true → p r ≡ true)
    → select q (select p rs) ≡ select q rs
unfolding select
select_weaker p q [] h = refl
select_weaker p q (r ∷ rs) h = ground (arith, h r, select_weaker p q rs h)

pub take-take : (n m : ℕ) (rs : List Row) → n ≤ m → take n (take m rs) ≡ take n rs
take-take zero m rs h = refl
take-take (suc n) zero rs h = absurd (omega (arith, h))
take-take (suc n) (suc m) [] h = refl
take-take (suc n) (suc m) (r ∷ rs) h = ap (λ x. r ∷ x) (take-take n m rs (omega (arith, h)))

pub length-take : (n : ℕ) (rs : List Row) → ltb n (length (take (n + 1) rs)) ≡ ltb n (length rs)
length-take zero [] = refl
length-take zero (r ∷ rs) = ground arith
length-take (suc n) [] = ground arith
length-take (suc n) (r ∷ rs) = ground (arith, length-take n rs)

pub take-drop : (n : ℕ) (rs : List Row) → take n rs ++ drop n rs ≡ rs
take-drop zero rs = refl
take-drop (suc n) [] = refl
take-drop (suc n) (r ∷ rs) = ap (λ x. r ∷ x) (take-drop n rs)

pub take_short : (n : ℕ) (rs : List Row) → ltb n (length rs) ≡ false → take n rs ≡ rs
take_short zero [] h = refl
take_short zero (r ∷ rs) h = absurd (ground (arith, h))
take_short (suc n) [] h = refl
take_short (suc n) (r ∷ rs) h = ap (λ x. r ∷ x) (take_short n rs (ground (arith, h)))

pub map-append :
    (xs ys : List Row) → map record_of (xs ++ ys) ≡ map record_of xs ++ map record_of ys
map-append [] ys = refl
map-append (x ∷ xs) ys = ap (λ z. record_of x ∷ z) (map-append xs ys)

pub drop-Decreasing : (n : ℕ) (rs : List Row) → Decreasing rs → Decreasing (drop n rs)
drop-Decreasing zero rs h = h
drop-Decreasing (suc n) [] h = tt
drop-Decreasing (suc n) (r ∷ rs) h = drop-Decreasing n rs h.1

pub length-drop-le : (n : ℕ) (rs : List Row) → length (drop n rs) ≤ length rs
length-drop-le zero rs = omega arith
length-drop-le (suc n) [] = omega arith
length-drop-le (suc n) (r ∷ rs) = omega (arith, length-drop-le n rs)

-- The rows of a tenant that pass a filter.
abbrev pub keep : String → Filter → Row → Bool
keep t f r = str_eq r.tenant_id t && passes f r

pub fetched :
    (t : String) (f : Filter) (limit : ℕ) (c : Option ℕ) (db : Db)
    → Increasing db.rows
    → fetch t f limit c db
      ≡ take (limit + 1) (select (before c) (latest (select (keep t f) db.rows)))
fetched t f limit c db h = ap (take (limit + 1)) (
    ap (sort_by newest_first) (select_and (keep t f) (before c) db.rows)
    ∙ sort-IncreasingBy (λ r. r.row_id) (select (before c) (select (keep t f) db.rows))
        (select-IncreasingBy (λ r. r.row_id) (before c) (select (keep t f) db.rows)
          (select-IncreasingBy (λ r. r.row_id) (keep t f) db.rows h))
    ∙ sym (select-latest (before c) (select (keep t f) db.rows)))

-- A client that follows the cursors, at most `k` pages long.
unfoldable pub pages : Cursors → String → Filter → ℕ → ℕ → Option String → Db → Result (List Record)
pages C t f limit zero c db = ok []
pages C t f limit (suc k) c db =
    list_page C t f limit c db >>= λ (page : List Record × Option String). elim page.1 [
      | none ↦ ok page.0
      | some next ↦ pages C t f limit k (some next) db >>= λ rest. ok (page.0 ++ rest)
    ]

-- A cursor that the client holds, and the id that it stands for.
abbrev pub IsCursor : Cursors → Option String → Option ℕ → Type 0
IsCursor C c n =
    ((c ≡ none) × (n ≡ none)) ⊎ ((m : ℕ) × (c ≡ some (C.encode m)) × (n ≡ some m) × (1 ≤ m))

pub list_page_at :
    (C : Cursors) (t : String) (f : Filter) (limit : ℕ) (c : Option String) (n : Option ℕ) (db : Db)
    → ((m : ℕ) → 1 ≤ m → C.spelled (C.encode m) ≡ some m)
    → IsCursor C c n
    → list_page C t f limit c db ≡ ok (page_at C t f limit n db)
unfolding list_page
list_page_at C t f limit c n db trips (inl (e, q)) = rw (e, q) refl
list_page_at C t f limit c n db trips (inr (m, e, q, bound)) =
    let positive : ltb m 1 ≡ false = ground (arith, bound) in
    rw (e, q, trips m bound, positive) refl
