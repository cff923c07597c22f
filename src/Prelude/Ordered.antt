-- ===== src/Prelude/Ordered.antt =====
-- Tables whose rows stand in the order of a number that grows, and queries that take the newest first.
use Prim.Native.Nat.{ℕ, ◌<◌}
use mathlib.Core.Path.{◌≡◌, refl}
use mathlib.Core.Logic.{inl, inr}
use mathlib.Core.Bool.{Bool}
use mathlib.Core.List.{List, [], ◌∷◌, ◌++◌, append-nil}
use native.Mathlib.Omega.{arith}
use shared_integration.Prelude.Tests.{leb, Bool-cases}
use shared_integration.Prelude.Lists.{
  All, All-append, All-select, select, select-append, sort_by, insert_by,
}

-- The newest first.
abbrev pub latest {ℓ} : {A : Type ℓ} → List A → List A
latest [] = []
latest (r ∷ rs) = latest rs ++ r ∷ []

pub select-latest {ℓ} :
    {A : Type ℓ} (p : A → Bool) (rs : List A) → select p (latest rs) ≡ latest (select p rs)
unfolding select
select-latest p [] = refl
select-latest p (r ∷ rs) =
    rw (select-append p (latest rs) (r ∷ []), select-latest p rs)
      (elim (Bool-cases (p r)) [
        | inl e ↦ rw e refl
        | inr e ↦ rw e (append-nil (latest (select p rs)))
      ])

module _ {ℓ} {A : Type ℓ} (key : A → ℕ) where
  abbrev pub IncreasingBy : List A → Type 0
  IncreasingBy [] = Unit {0}
  IncreasingBy (r ∷ rs) = All (λ x. key r < key x) rs × IncreasingBy rs

  abbrev pub DecreasingBy : List A → Type 0
  DecreasingBy [] = Unit {0}
  DecreasingBy (r ∷ rs) = All (λ x. key x < key r) rs × DecreasingBy rs

  abbrev pub newest_by : A → A → Bool
  newest_by a b = leb (key b) (key a)

  pub select-IncreasingBy :
      (p : A → Bool) (rs : List A) → IncreasingBy rs → IncreasingBy (select p rs)
  unfolding select
  select-IncreasingBy p [] h = tt
  select-IncreasingBy p (r ∷ rs) h =
      let kept = All-select (λ x. key r < key x) p rs h.0 in
      let rest = select-IncreasingBy p rs h.1 in
      elim (Bool-cases (p r)) [ inl e ↦ rw e (kept, rest) | inr e ↦ rw e rest ]

  All-latest : (n : ℕ) (rs : List A) → All (λ x. n < key x) rs → All (λ x. n < key x) (latest rs)
  All-latest n [] h = tt
  All-latest n (r ∷ rs) h =
      All-append (λ x. n < key x) (latest rs) (r ∷ []) (All-latest n rs h.1) (h.0, tt)

  append-DecreasingBy :
      (r : A) (rs : List A)
      → All (λ x. key r < key x) rs
      → DecreasingBy rs
      → DecreasingBy (rs ++ r ∷ [])
  append-DecreasingBy r [] h d = (tt, tt)
  append-DecreasingBy r (x ∷ rs) h d =
      (All-append (λ y. key y < key x) rs (r ∷ []) d.0 (h.0, tt), append-DecreasingBy r rs h.1 d.1)

  pub latest-DecreasingBy : (rs : List A) → IncreasingBy rs → DecreasingBy (latest rs)
  latest-DecreasingBy [] h = tt
  latest-DecreasingBy (r ∷ rs) h =
      append-DecreasingBy r (latest rs) (All-latest (key r) rs h.0) (latest-DecreasingBy rs h.1)

  insert_last :
      (r : A) (rs : List A) → All (λ x. key r < key x) rs → insert_by newest_by r rs ≡ rs ++ r ∷ []
  unfolding insert_by
  insert_last r [] h = refl
  insert_last r (x ∷ rs) h = ground (arith, h.0, insert_last r rs h.1)

  -- `ORDER BY … DESC` of a table.
  pub sort-IncreasingBy : (rs : List A) → IncreasingBy rs → sort_by newest_by rs ≡ latest rs
  unfolding sort_by
  sort-IncreasingBy [] h = refl
  sort-IncreasingBy (r ∷ rs) h =
      rw (sort-IncreasingBy rs h.1) (insert_last r (latest rs) (All-latest (key r) rs h.0))
