-- ===== src/Findings/Sqlite/Pruning.antt =====
-- What a store leaves in the table of findings.
use shared_integration.Prelude.{
  ℕ, zero, suc, ◌<◌, String, ◌≡◌, ◌≢◌, refl, sym, ap, ◌∙◌, Bool, true, false, not, ◌&&◌, List, [],
  ◌∷◌, arith, eq_iff, ◌==◌, any, select, take, All, IncreasingBy, DecreasingBy, latest,
  select-latest, select-IncreasingBy, latest-DecreasingBy, sort-IncreasingBy,
}
use shared_integration.Findings.Sqlite.{Stored, of_tenant, newest, is_in, prune}

module _ {ℓ} {A : Type ℓ} where
  select_cong : (p q : A → Bool) (rs : List A) → All (λ r. p r ≡ q r) rs → select p rs ≡ select q rs
  unfolding select
  select_cong p q [] h = refl
  select_cong p q (r ∷ rs) h = ground (arith, h.0, select_cong p q rs h.1)

  select_none : (p : A → Bool) (rs : List A) → All (λ r. p r ≡ false) rs → select p rs ≡ []
  unfolding select
  select_none p [] h = refl
  select_none p (r ∷ rs) h = ground (arith, h.0, select_none p rs h.1)

  select_swap : (p q : A → Bool) (rs : List A) → select p (select q rs) ≡ select q (select p rs)
  unfolding select
  select_swap p q [] = refl
  select_swap p q (r ∷ rs) = ground (arith, select_swap p q rs)

  select_same :
      (p q r : A → Bool) (rs : List A)
      → ((x : A) → r x ≡ true → p x ≡ q x)
      → select p (select r rs) ≡ select q (select r rs)
  unfolding select
  select_same p q r [] h = refl
  select_same p q r (x ∷ rs) h = ground (arith, h x, select_same p q r rs h)

module _ {ℓ} {A : Type ℓ} where
  abbrev pub seq_of : Stored A → ℕ
  seq_of r = r.seq

  All-below :
      (n : ℕ) (P : Stored A → Type 0) (rs : List (Stored A))
      → ((x : Stored A) → x.seq < n → P x)
      → All (λ x. x.seq < n) rs
      → All P rs
  All-below n P [] f h = tt
  All-below n P (r ∷ rs) f h = (f r h.0, All-below n P rs f h.1)

  in_nothing : (rs : List (Stored A)) → select (is_in []) rs ≡ []
  unfolding select any
  in_nothing [] = refl
  in_nothing (r ∷ rs) = in_nothing rs

  -- The members of the first `n` rows are those rows.
  select-take :
      (n : ℕ) (rs : List (Stored A))
      → DecreasingBy seq_of rs
      → select (is_in (take n rs)) rs ≡ take n rs
  unfolding select any
  select-take zero rs h = in_nothing rs
  select-take (suc n) [] h = refl
  select-take (suc n) (r ∷ rs) h =
      let itself : (r.seq == r.seq) ≡ true = ground arith in
      let others =
        All-below r.seq (λ x. is_in (take (suc n) (r ∷ rs)) x ≡ is_in (take n rs) x) rs
          (λ x below. ground (arith, below)) h.0 in
      let rest =
        select_cong (is_in (take (suc n) (r ∷ rs))) (is_in (take n rs)) rs others
        ∙ select-take n rs h.1 in
      rw (itself, rest) refl

  -- A tenant keeps the newest of its rows, in their order.
  pub prune_own :
      (t : String) (n : ℕ) (rows : List (Stored A))
      → IncreasingBy seq_of rows
      → latest (select (of_tenant t) (prune t n rows)) ≡ take n (latest (select (of_tenant t) rows))
  unfolding prune
  prune_own t n rows h =
      let own = select (of_tenant t) rows in
      let kept = newest t n rows in
      let ordered = select-IncreasingBy seq_of (of_tenant t) rows h in
      let first : kept ≡ take n (latest own) = ap (take n) (sort-IncreasingBy seq_of own ordered) in
      ap latest (
        select_swap (of_tenant t) (λ r. not (of_tenant t r && not (is_in kept r))) rows
        ∙ select_same (λ r. not (of_tenant t r && not (is_in kept r))) (is_in kept) (of_tenant t)
            rows (λ x e. ground (arith, e)))
      ∙ sym (select-latest (is_in kept) own)
      ∙ ap (λ k. select (is_in k) (latest own)) first
      ∙ select-take n (latest own) (latest-DecreasingBy seq_of own ordered)

  select_all : (rs : List (Stored A)) → select (λ r. true) rs ≡ rs
  unfolding select
  select_all [] = refl
  select_all (r ∷ rs) = ap (λ x. r ∷ x) (select_all rs)

  pub prune_others :
      (t u : String) (n : ℕ) (rows : List (Stored A))
      → u ≢ t
      → select (of_tenant u) (prune t n rows) ≡ select (of_tenant u) rows
  unfolding prune
  prune_others t u n rows other =
      let kept = newest t n rows in
      let keep : Stored A → Bool = λ r. not (of_tenant t r && not (is_in kept r)) in
      select_swap (of_tenant u) keep rows
      ∙ select_same keep (λ r. true) (of_tenant u) rows
          (λ x e. ground (arith, e, other, eq_iff x.tenant_id u, eq_iff x.tenant_id t))
      ∙ select_all (select (of_tenant u) rows)
