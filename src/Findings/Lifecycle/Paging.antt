-- ===== src/Findings/Lifecycle/Paging.antt =====
-- A client that follows the cursors of `list_page` to the end.
use shared_integration.Prelude.{
  latest, select-IncreasingBy, latest-DecreasingBy, ℕ, zero, suc, ◌+◌, ◌≤◌, String, ◌≡◌, refl, sym,
  ap, subst, ◌∙◌, inl, inr, true, Option, none, some, List, [], ◌∷◌, map, arith, ltb, length, take,
  drop, select, All, All-append, All-select, All-select_self, if◌then◌else◌, Bool-cases,
  length-append,
}
use shared_integration.Result.{ok}
use shared_integration.Findings.Lifecycle.{Row, Db}
use shared_integration.Findings.Lifecycle.Listing.{
  Filter, before, last_id, after_page, page_at, fetch, Cursors,
}
use shared_integration.Findings.Lifecycle.Editing.{record_of}
use shared_integration.Findings.Lifecycle.Pages.{
  Increasing, Decreasing, keep, pages, IsCursor, list_page_at, fetched, select_after, select_weaker,
  take-take, length-take, take-drop, take_short, map-append, drop-Decreasing, length-drop-le,
  last_id-le,
}

abbrev Positive : Row → Type 0
Positive r = 1 ≤ r.row_id

drop-Positive : (n : ℕ) (rs : List Row) → All Positive rs → All Positive (drop n rs)
drop-Positive zero rs h = h
drop-Positive (suc n) [] h = tt
drop-Positive (suc n) (r ∷ rs) h = drop-Positive n rs h.1

last_id-Positive :
    (n : ℕ) (r : Row) (rs : List Row) → All Positive (r ∷ rs) → 1 ≤ last_id r (take n rs)
last_id-Positive zero r rs h = h.0
last_id-Positive (suc n) r [] h = h.0
last_id-Positive (suc n) r (x ∷ rs) h = last_id-Positive n x rs h.1

latest-Positive : (rs : List Row) → All Positive rs → All Positive (latest rs)
latest-Positive [] h = tt
latest-Positive (r ∷ rs) h =
    All-append Positive (latest rs) (r ∷ []) (latest-Positive rs h.1) (h.0, tt)

below_cursor :
    (n : Option ℕ) (x r : Row) (id : ℕ)
    → before n r ≡ true
    → id ≤ r.row_id
    → ltb x.row_id id ≡ true
    → before n x ≡ true
below_cursor none x r id h le lt = refl
below_cursor (some c) x r id h le lt = ground (arith, h, le, lt)

module _ (C : Cursors) (t : String) (f : Filter) (m : ℕ) (db : Db)
    (trips : (n : ℕ) → 1 ≤ n → C.spelled (C.encode n) ≡ some n) (ordered : Increasing db.rows) where
  abbrev listed : List Row
  listed = latest (select (keep t f) db.rows)

  page_at_lem :
      (n : Option ℕ) (rs : List Row)
      → select (before n) listed ≡ rs
      → page_at C t f (suc m) n db ≡ (
        map record_of (take (suc m) rs),
        if ltb (suc m) (length rs) then after_page C (take (suc m) rs) else none,
      )
  page_at_lem n rs h =
      let got : fetch t f (suc m) n db ≡ take (suc m + 1) rs =
        fetched t f (suc m) n db ordered ∙ ap (take (suc m + 1)) h in
      rw (got, take-take (suc m) (suc m + 1) rs (omega arith), length-take (suc m) rs) refl

  pages_from :
      (k : ℕ) (c : Option String) (n : Option ℕ) (rs : List Row)
      → IsCursor C c n
      → select (before n) listed ≡ rs
      → All (λ r. before n r ≡ true) rs
      → Decreasing rs
      → All Positive rs
      → length rs ≤ k
      → pages C t f (suc m) k c db ≡ ok (map record_of rs)
  unfolding pages
  pages_from zero c n [] cur h below desc pos short = refl
  pages_from zero c n (r ∷ rs) cur h below desc pos short = absurd (omega (arith, short))
  pages_from (suc k) c n [] cur h below desc pos short =
      rw (list_page_at C t f (suc m) c n db trips cur, page_at_lem n [] h) (ground arith)
  pages_from (suc k) c n (r ∷ rs) cur h below desc pos short =
      elim (Bool-cases (ltb (suc m) (length (r ∷ rs)))) [
        | inr last ↦
            rw (list_page_at C t f (suc m) c n db trips cur, page_at_lem n (r ∷ rs) h, last)
              (ap (λ x. ok (map record_of x)) (take_short (suc m) (r ∷ rs) last))
        | inl more ↦
            let id = last_id r (take m rs) in
            let old : (x : Row) → before (some id) x ≡ true → before n x ≡ true =
              λ x. below_cursor n x r id below.0 (last_id-le m r rs desc) in
            let next : select (before (some id)) listed ≡ drop m rs =
              sym (select_weaker (before n) (before (some id)) listed old)
              ∙ ap (select (before (some id))) h
              ∙ select_after m r rs desc in
            let rest =
              pages_from k (some (C.encode id)) (some id) (drop m rs)
                (inr (id, refl, refl, last_id-Positive m r rs pos)) next
                (subst (All (λ x. before (some id) x ≡ true)) next
                  (All-select_self (before (some id)) listed))
                (drop-Decreasing m rs desc.1) (drop-Positive m rs pos.1)
                (omega (arith, short, length-drop-le m rs)) in
            rw (list_page_at C t f (suc m) c n db trips cur, page_at_lem n (r ∷ rs) h, more, rest)
              (ap ok (
                sym (map-append (r ∷ take m rs) (drop m rs))
                ∙ ap (λ x. map record_of (r ∷ x)) (take-drop m rs)))
      ]

  latest-length : (rs : List Row) → length (latest rs) ≡ length rs
  latest-length [] = refl
  latest-length (r ∷ rs) = omega (arith, latest-length rs, length-append (latest rs) (r ∷ []))

  pages_of :
      (k : ℕ)
      → All Positive db.rows
      → length (select (keep t f) db.rows) ≤ k
      → pages C t f (suc m) k none db ≡ ok (map record_of listed)
  unfolding select
  pages_of k pos short =
      pages_from k none none listed (inl (refl, refl)) (whole listed) (everything listed)
        (latest-DecreasingBy (λ r. r.row_id) (select (keep t f) db.rows)
          (select-IncreasingBy (λ r. r.row_id) (keep t f) db.rows ordered))
        (latest-Positive (select (keep t f) db.rows) (All-select Positive (keep t f) db.rows pos))
        (omega (arith, short, latest-length (select (keep t f) db.rows)))
    where
      whole : (rs : List Row) → select (before none) rs ≡ rs
      whole [] = refl
      whole (r ∷ rs) = ap (λ x. r ∷ x) (whole rs)

      everything : (rs : List Row) → All (λ r. before none r ≡ true) rs
      everything [] = tt
      everything (r ∷ rs) = (refl, everything rs)

-- Where cursors are read back as they were written, and the ids of the table are positive and
-- increase, a client that follows the cursors of `list_page`, with a limit of at least 1, is sent
-- every finding of its tenant that passes the filter, once each, the newest first, within as many
-- pages as there are such findings.
pub pages_all :
    (C : Cursors) (t : String) (f : Filter) (limit k : ℕ) (db : Db)
    → ((n : ℕ) → 1 ≤ n → C.spelled (C.encode n) ≡ some n)
    → Increasing db.rows
    → All (λ (r : Row). 1 ≤ r.row_id) db.rows
    → 1 ≤ limit
    → length (select (keep t f) db.rows) ≤ k
    → pages C t f limit k none db ≡ ok (map record_of (latest (select (keep t f) db.rows)))
pages_all C t f zero k db trips ordered pos bound short = absurd (omega (arith, bound))
pages_all C t f (suc m) k db trips ordered pos bound short =
    pages_of C t f m db trips ordered k pos short
