-- ===== src/Correlations/Reports.antt =====
-- What a correlation reports.
use shared_integration.Prelude.{
  ℕ, ◌+◌, ◌≤◌, String, ◌≡◌, ◌≢◌, ◌⊎◌, inl, inr, refl, sym, subst, ap, ◌∙◌, ltb, if◌then◌else◌, true,
  Option, none, some, List, [], ◌∷◌, map, str_eq, eq_iff, arith, select, All, Memᴰ, Bool-cases,
  Option-cases,
}
use shared_integration.Core.{
  Source, source_eq, Severity, soc, vuln, lab, code, reverse, firmware, external,
}
use shared_integration.Correlations.{
  Finding, Correlation, rank, within, max_severity, is_related, related, correlation, report,
  on_host, correlate,
}

-- Another product's finding on the same host, at most `w` apart where both carry a time.
pub record IsRelated (w : ℕ) (new f : Finding) : Type 0 where
  pub other_id : f.id ≢ new.id
  pub same_host : f.host ≡ new.host
  pub other_source : f.source ≢ new.source
  pub near : (s t : ℕ) → new.ts ≡ some s → f.ts ≡ some t → (s ≤ t + w) × (t ≤ s + w)

list_cases : (xs : List Finding) → (xs ≡ []) ⊎ ((y : Finding) × (ys : List Finding) × (xs ≡ y ∷ ys))
list_cases [] = inl refl
list_cases (y ∷ ys) = inr (y, ys, refl)

source_eq_refl : (s t : Source) → s ≡ t → source_eq s t ≡ true
source_eq_refl soc t e = ground (arith, e)
source_eq_refl vuln t e = ground (arith, e)
source_eq_refl lab t e = ground (arith, e)
source_eq_refl code t e = ground (arith, e)
source_eq_refl reverse t e = ground (arith, e)
source_eq_refl firmware t e = ground (arith, e)
source_eq_refl external t e = ground (arith, e)

source_eq_sound : (s t : Source) → source_eq s t ≡ true → s ≡ t
source_eq_sound s t h = ground arith

is_related-IsRelated :
    (w : ℕ) (h : String) (new f : Finding)
    → new.host ≡ some h
    → is_related w h new f ≡ true
    → IsRelated w new f
is_related-IsRelated w h new f e r = elim (Option-cases f.host) [
  | inl gone ↦ absurd (ground (arith, r, gone))
  | inr (g, has) ↦ record {
    other_id = λ same. ground (arith, r, same, eq_iff f.id new.id);
    same_host = ground (arith, r, e, has, eq_iff g h);
    other_source = λ same. ground (arith, r, source_eq_refl f.source new.source same);
    near = λ s t a b. ground (arith, r, a, b);
  }
]

within_near :
    (a b : Option ℕ) (w : ℕ)
    → ((s t : ℕ) → a ≡ some s → b ≡ some t → (s ≤ t + w) × (t ≤ s + w))
    → within a b w ≡ true
within_near none b w near = refl
within_near (some s) none w near = refl
within_near (some s) (some t) w near = let h = near s t refl refl in ground (arith, h)

IsRelated-is_related :
    (w : ℕ) (h : String) (new f : Finding)
    → new.host ≡ some h
    → IsRelated w new f
    → is_related w h new f ≡ true
IsRelated-is_related w h new f e r =
    let host : f.host ≡ some h = r.same_host ∙ e in
    let near = within_near new.ts f.ts w r.near in
    elim (Bool-cases (str_eq f.id new.id)) [
      | inl same ↦ absurd (r.other_id ((eq_iff f.id new.id).0 same))
      | inr apart ↦ elim (Bool-cases (source_eq f.source new.source)) [
        | inl same ↦ absurd (r.other_source (source_eq_sound f.source new.source same))
        | inr other ↦ rw (apart, host, other, near) (ground (arith, eq_iff h h))
      ]
    ]

-- What the severity of a report is: none of the findings is graver, and one of them has it.
max_severity-ge :
    (best : Severity) (fs : List Finding) (m : ℕ)
    → rank (max_severity best fs) ≤ m
    → (rank best ≤ m) × All (λ f. rank f.severity ≤ m) fs
unfolding max_severity
max_severity-ge best [] m h = (h, tt)
max_severity-ge best (f ∷ fs) m h =
    let rest =
      max_severity-ge (if ltb (rank best) (rank f.severity) then f.severity else best) fs m h in
    let chosen = rest.0 in (graver chosen, (kept chosen, rest.1))
  where
    graver :
        rank (if ltb (rank best) (rank f.severity) then f.severity else best) ≤ m → rank best ≤ m
    graver e = elim (Bool-cases (ltb (rank best) (rank f.severity))) [
      | inl lower ↦ (let g = rw lower at e in ground (arith, lower, g))
      | inr same ↦ rw same at e
    ]

    kept :
        rank (if ltb (rank best) (rank f.severity) then f.severity else best) ≤ m
        → rank f.severity ≤ m
    kept e = elim (Bool-cases (ltb (rank best) (rank f.severity))) [
      | inl lower ↦ rw lower at e
      | inr same ↦ (let g = rw same at e in ground (arith, same, g))
    ]

max_severity-attained :
    (best : Severity) (fs : List Finding)
    → (max_severity best fs ≡ best)
      ⊎ ((f : Finding) × Memᴰ f fs × (f.severity ≡ max_severity best fs))
unfolding max_severity
max_severity-attained best [] = inl refl
max_severity-attained best (f ∷ fs) = elim (Bool-cases (ltb (rank best) (rank f.severity))) [
  | inl e ↦ rw e (elim (max_severity-attained f.severity fs) [
    | inl same ↦ inr (f, Memᴰ.head refl, sym same)
    | inr (g, there, same) ↦ inr (g, Memᴰ.tail there, same)
  ])
  | inr e ↦ rw e (elim (max_severity-attained best fs) [
    | inl same ↦ inl same
    | inr (g, there, same) ↦ inr (g, Memᴰ.tail there, same)
  ])
]

related-All :
    (w : ℕ) (h : String) (new : Finding) (fs : List Finding)
    → new.host ≡ some h
    → All (IsRelated w new) (related w h new fs)
unfolding related select
related-All w h new [] e = tt
related-All w h new (f ∷ fs) e = elim (Bool-cases (is_related w h new f)) [
  | inl r ↦ rw r (is_related-IsRelated w h new f e r, related-All w h new fs e)
  | inr r ↦ rw r (related-All w h new fs e)
]

related-Mem :
    (w : ℕ) (h : String) (new f : Finding) (fs : List Finding)
    → new.host ≡ some h
    → Memᴰ f fs
    → IsRelated w new f
    → Memᴰ f (related w h new fs)
unfolding related select
related-Mem w h new f [] e there r = elim there [ ]
related-Mem w h new f (g ∷ fs) e (Memᴰ.head same) r =
    let hit : is_related w h new g ≡ true =
      IsRelated-is_related w h new g e (subst (IsRelated w new) same r) in
    rw hit (Memᴰ.head same)
related-Mem w h new f (g ∷ fs) e (Memᴰ.tail there) r =
    let rest = related-Mem w h new f fs e there r in
    elim (Bool-cases (is_related w h new g)) [
      | inl hit ↦ rw hit (Memᴰ.tail rest)
      | inr miss ↦ rw miss rest
    ]

-- A report on a new finding: the findings that it names after the new one, and its severity.
pub record Reports (w : ℕ) (new : Finding) (existing : List Finding) (c : Correlation)
    : Type 0 where
  pub others : List Finding
  pub names : c.findings ≡ new.id ∷ map (λ f. f.id) others
  pub only : All (IsRelated w new) others
  pub all : (f : Finding) → Memᴰ f existing → IsRelated w new f → Memᴰ f others
  pub gravest : All (λ f. rank f.severity ≤ rank c.severity) (new ∷ others)
  pub attained : (f : Finding) × Memᴰ f (new ∷ others) × (f.severity ≡ c.severity)

reported :
    (value : Source → String) (w : ℕ) (h : String) (new : Finding) (existing : List Finding)
    → new.host ≡ some h
    → Reports w new existing (correlation value h new (related w h new existing))
reported value w h new existing e =
    let fs = related w h new existing in
    let bound =
      max_severity-ge new.severity fs (rank (max_severity new.severity fs)) (omega arith) in
    record {
      others = fs;
      names = refl;
      only = related-All w h new existing e;
      all = λ f there r. related-Mem w h new f existing e there r;
      gravest = (bound.0, bound.1);
      attained = elim (max_severity-attained new.severity fs) [
        | inl same ↦ (new, Memᴰ.head refl, sym same)
        | inr (g, there, same) ↦ (g, Memᴰ.tail there, same)
      ];
    }

-- What `correlate` gives for a finding with no host, or an empty one, or with no related finding, is
-- nothing; and otherwise it is one correlation, which names the new finding and exactly the related
-- ones (of another id and product, on the same host, at most the window apart where both carry a
-- time), with the gravest severity among them.
pub correlate_lem :
    (value : Source → String) (w : ℕ) (new : Finding) (existing : List Finding)
    → ((correlate value w new existing ≡ [])
        × ((new.host ≡ none)
            ⊎ ((new.host ≡ some "") ⊎ ((f : Finding) → Memᴰ f existing → IsRelated w new f → ⊥))))
      ⊎ ((c : Correlation) × (correlate value w new existing ≡ c ∷ []) × Reports w new existing c)
unfolding correlate
correlate_lem value w new existing = elim (Option-cases new.host) [
  | inl e ↦ inl (ap (λ o. on_host value w o new existing) e, inl e)
  | inr (h, e) ↦
      let at_host : on_host value w new.host new existing ≡ on_host value w (some h) new existing =
        ap (λ o. on_host value w o new existing) e in
      elim (Bool-cases (str_eq h "")) [
        | inl blank ↦ inl (at_host ∙ rw blank refl, inr (inl (e ∙ ap some ((eq_iff h "").0 blank))))
        | inr named ↦
            let reports : on_host value w (some h) new existing
                ≡ report value h new (related w h new existing) =
              rw named refl in
            elim (list_cases (related w h new existing)) [
              | inl empty ↦ inl (
                at_host ∙ reports ∙ ap (report value h new) empty,
                inr (
                    inr (λ f there r.
                      elim (subst (Memᴰ f) empty (related-Mem w h new f existing e there r)) [ ])),
              )
              | inr (g, gs, found) ↦ inr (
                correlation value h new (related w h new existing),
                at_host ∙ reports ∙ (rw found refl),
                reported value w h new existing e,
              )
            ]
      ]
]
