-- ===== src/Findings/Sqlite/View.antt =====
-- What a tenant's registry shows, newest first, and what it is to remember a finding: a description
-- that knows no rows and no sequence numbers.
use shared_integration.Prelude.{
  ℕ, zero, suc, String, ◌≡◌, refl, sym, ap, ◌∙◌, inl, inr, Bool, true, false, ◌||◌, List, [], ◌∷◌,
  ◌++◌, map, arith, str_eq, eq_iff, any, any-append, select, select-append, update, take, latest,
  Bool-cases, if◌then◌else◌,
}
use shared_integration.Findings.{Finding}
use shared_integration.Findings.Sqlite.{Stored, of_tenant, has_id, upsert}

abbrev pub Table : Type 0
Table = List (Stored Finding)

abbrev pub payload_of : Stored Finding → Finding
payload_of r = r.payload

abbrev pub view : String → Table → List Finding
view t rows = map payload_of (latest (select (of_tenant t) rows))

-- A finding with a known id replaces the one that is there; any other is the newest.
abbrev pub replaced : Finding → Finding → Finding
replaced f g = if str_eq g.id f.id then f else g

abbrev pub remembered : Finding → List Finding → List Finding
remembered f fs = if any (λ (g : Finding). str_eq g.id f.id) fs then map (replaced f) fs else f ∷ fs

module _ {ℓ} {A B : Type ℓ} (g : A → B) where
  pub map-take : (n : ℕ) (xs : List A) → map g (take n xs) ≡ take n (map g xs)
  map-take zero xs = refl
  map-take (suc n) [] = refl
  map-take (suc n) (x ∷ xs) = ap (λ ys. g x ∷ ys) (map-take n xs)

  map-add : (xs : List A) (x : A) → map g (xs ++ x ∷ []) ≡ map g xs ++ g x ∷ []
  map-add [] x = refl
  map-add (y ∷ xs) x = ap (λ ys. g y ∷ ys) (map-add xs x)

  map-latest : (xs : List A) → map g (latest xs) ≡ latest (map g xs)
  map-latest [] = refl
  map-latest (x ∷ xs) = map-add (latest xs) x ∙ ap (λ ys. ys ++ g x ∷ []) (map-latest xs)

module _ {ℓ} {A : Type ℓ} where
  latest-add : (xs : List A) (x : A) → latest (xs ++ x ∷ []) ≡ x ∷ latest xs
  latest-add [] x = refl
  latest-add (y ∷ xs) x = ap (λ ys. ys ++ y ∷ []) (latest-add xs x)

  any-latest : (p : A → Bool) (xs : List A) → any p (latest xs) ≡ any p xs
  unfolding any
  any-latest p [] = refl
  any-latest p (x ∷ xs) =
      any-append p (latest xs) (x ∷ []) ∙ unfold any in ground (arith, any-latest p xs)

module _ (t : String) (f : Finding) where
  abbrev same_id : Finding → Bool
  same_id g = str_eq g.id f.id

  -- The findings of the tenant, oldest first.
  abbrev shown : Table → List Finding
  shown rows = map payload_of (select (of_tenant t) rows)

  any-shown : (rows : Table) → any (has_id t f.id) rows ≡ any same_id (shown rows)
  unfolding any select
  any-shown [] = refl
  any-shown (r ∷ rows) = elim (Bool-cases (of_tenant t r)) [
    | inl own ↦ rw own (ap (λ b. same_id r.payload || b) (any-shown rows))
    | inr other ↦ rw other (any-shown rows)
  ]

  shown-update :
      (rows : Table)
      → shown (update (has_id t f.id) (λ r. record r { payload = f }) rows)
        ≡ map (replaced f) (shown rows)
  unfolding select update
  shown-update [] = refl
  shown-update (r ∷ rows) = elim (Bool-cases (of_tenant t r)) [
    | inr other ↦ rw (other, other) (shown-update rows)
    | inl own ↦ elim (Bool-cases (same_id r.payload)) [
      | inl same ↦ rw (own, same, own) (ap (λ fs. f ∷ fs) (shown-update rows))
      | inr new ↦ rw (own, new, own) (ap (λ fs. r.payload ∷ fs) (shown-update rows))
    ]
  ]

  shown-add :
      (n : ℕ) (rows : Table)
      → shown (rows ++ record { seq = n; tenant_id = t; payload = f } ∷ []) ≡ shown rows ++ f ∷ []
  unfolding select
  shown-add n rows =
      let new : Stored Finding = record { seq = n; tenant_id = t; payload = f } in
      let own : str_eq t t ≡ true = ground (arith, eq_iff t t) in
      rw (select-append (of_tenant t) rows (new ∷ []), own)
        (map-add payload_of (select (of_tenant t) rows) new)

  -- The upsert remembers the finding.
  pub view-upsert : (n : ℕ) (rows : Table) → view t (upsert t f n rows) ≡ remembered f (view t rows)
  view-upsert n rows =
      let fs = shown rows in
      let seen : view t rows ≡ latest fs = map-latest payload_of (select (of_tenant t) rows) in
      map-latest payload_of (select (of_tenant t) (upsert t f n rows))
      ∙ elim (Bool-cases (any (has_id t f.id) rows)) [
        | inl there ↦
            let known : any same_id (view t rows) ≡ true =
              ap (any same_id) seen ∙ any-latest same_id fs ∙ sym (any-shown rows) ∙ there in
            rw (there, known)
              (ap latest (shown-update rows)
                ∙ sym (map-latest (replaced f) fs)
                ∙ ap (map (replaced f)) (sym seen))
        | inr fresh ↦
            let unknown : any same_id (view t rows) ≡ false =
              ap (any same_id) seen ∙ any-latest same_id fs ∙ sym (any-shown rows) ∙ fresh in
            rw (fresh, unknown)
              (ap latest (shown-add n rows) ∙ latest-add fs f ∙ ap (λ gs. f ∷ gs) (sym seen))
      ]
