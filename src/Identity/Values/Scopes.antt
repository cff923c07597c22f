-- ===== src/Identity/Values/Scopes.antt =====
-- The scopes of an API key, as `_normalize_scopes` leaves them.
use shared_integration.Prelude.{
  ◌≤◌, ◌≡◌, refl, ap, subst, ◌∙◌, true, false, ◌||◌, List, [], ◌∷◌, ◌++◌, arith, length, All,
  All-map, Text, text_eq, text_eq_iff, mem_text, Bool-cases, inl, inr,
}
use shared_integration.Result.{ok, Result-cases}
use shared_integration.Identity.Values.{bad_length, push_new, collect_scopes, normalize_scopes}

-- No text stands in the list twice.
abbrev pub HasNoRepeats : List Text → Type 0
HasNoRepeats [] = Unit
HasNoRepeats (x ∷ xs) = (mem_text x xs ≡ false) × HasNoRepeats xs

mem_text-append :
    (t s : Text) (xs : List Text) → mem_text t (xs ++ s ∷ []) ≡ (mem_text t xs || text_eq t s)
unfolding mem_text
mem_text-append t s [] = ground arith
mem_text-append t s (x ∷ xs) = ground (arith, mem_text-append t s xs)

HasNoRepeats-append :
    (s : Text) (xs : List Text)
    → HasNoRepeats xs
    → mem_text s xs ≡ false
    → HasNoRepeats (xs ++ s ∷ [])
unfolding mem_text
HasNoRepeats-append s [] u h = (refl, tt)
HasNoRepeats-append s (x ∷ xs) u h = (
  mem_text-append x s xs ∙ ground (arith, u.0, h, text_eq_iff x s, text_eq_iff s x),
  HasNoRepeats-append s xs u.1 (ground (arith, h)),
)

push_new-HasNoRepeats : (s : Text) (xs : List Text) → HasNoRepeats xs → HasNoRepeats (push_new xs s)
push_new-HasNoRepeats s xs u = elim (Bool-cases (mem_text s xs)) [
  | inl h ↦ rw h u
  | inr h ↦ rw h (HasNoRepeats-append s xs u h)
]

mem_text-same : (t s : Text) (xs : List Text) → text_eq t s ≡ true → mem_text t xs ≡ mem_text s xs
mem_text-same t s xs e = ap (λ u. mem_text u xs) ((text_eq_iff t s).0 e)

mem_text-push_new :
    (t s : Text) (xs : List Text) → mem_text t (push_new xs s) ≡ (mem_text t xs || text_eq t s)
mem_text-push_new t s xs = elim (Bool-cases (mem_text s xs)) [
  | inl h ↦ rw h (elim (Bool-cases (text_eq t s)) [
    | inl same ↦ (let e = mem_text-same t s xs same in ground (arith, e, h, same))
    | inr other ↦ ground (arith, other)
  ])
  | inr h ↦ rw h (mem_text-append t s xs)
]

-- What the loop leaves, from what it had.
record Collected (seen ss r : List Text) : Type 0 where
  distinct : HasNoRepeats r
  same : (t : Text) → mem_text t r ≡ (mem_text t seen || mem_text t ss)
  fit : All (λ s. bad_length 128 s ≡ false) ss

collected :
    (seen ss r : List Text)
    → HasNoRepeats seen
    → collect_scopes seen ss ≡ ok r
    → Collected seen ss r
unfolding collect_scopes mem_text
collected seen [] r u h =
    let e : seen ≡ r = ground (arith, h) in
    record { distinct = subst HasNoRepeats e u; same = λ t. ground (arith, e); fit = tt }
collected seen (s ∷ ss) r u h = elim (Bool-cases (bad_length 128 s)) [
  | inl bad ↦ absurd (ground (arith, h, bad))
  | inr fits ↦
      let next =
        collected (push_new seen s) ss r (push_new-HasNoRepeats s seen u)
          (ground (arith, h, fits)) in
      record {
        distinct = next.distinct;
        same = λ t. next.same t ∙ ground (arith, mem_text-push_new t s seen);
        fit = (fits, next.fit);
      }
]

-- Scopes that are accepted hold each scope of the request once and nothing else, at most 64 of them;
-- and every scope of the request has 1 to 128 characters.
pub normalize_scopes_lem :
    (scopes r : List Text)
    → normalize_scopes scopes ≡ ok r
    → HasNoRepeats r
      × (length r ≤ 64)
      × ((t : Text) → mem_text t r ≡ mem_text t scopes)
      × All (λ s. (1 ≤ length s) × (length s ≤ 128)) scopes
unfolding normalize_scopes mem_text
normalize_scopes_lem scopes r h = elim (Result-cases (collect_scopes [] scopes)) [
  | inl (e, bad) ↦ absurd (ground (arith, h, bad))
  | inr (found, done) ↦
      let same : found ≡ r = ground (arith, h, done) in
      let few : length r ≤ 64 = ground (arith, h, done, same) in
      let c = collected [] scopes r tt (done ∙ ap ok same) in
      (c.distinct, few, λ t. c.same t, All-map scopes (λ s e. ground (arith, e)) c.fit)
]
