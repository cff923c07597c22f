-- ===== src/Jobs/Sqlite/Events.antt =====
-- The event log of a job: its sequence numbers are 1, 2, 3, … and a client can resume anywhere.
use shared_integration.Prelude.{
  ℕ, zero, suc, ◌+◌, ◌≤◌, max, String, ◌≡◌, refl, sym, ap, subst, ◌∙◌, Bool, true, ◌&&◌, List, [],
  ◌∷◌, ◌++◌, arith, eq_iff, leb, ltb, length, take, drop, select, sort_by, insert_by, select-append,
  Bool-cases, inl, inr, select_and, append-nil,
}
use shared_integration.Json.{Fields}
use shared_integration.Jobs.{Event}
use shared_integration.Jobs.Sqlite.{
  Store, of_job, max_sequence, next_sequence, new_event, push_event, list_events,
}

-- The sequence numbers of a list of events count up from `n`.
abbrev pub Numbered : ℕ → List Event → Type 0
Numbered n [] = Unit {0}
Numbered n (e ∷ es) = (e.sequence ≡ n) × Numbered (suc n) es

abbrev pub events_of : String → String → List Event → List Event
events_of t j = select (of_job t j)

-- The log of every job is numbered from 1.
pub record IsNumbered (events : List Event) : Type 0 where
  pub at : (t j : String) → Numbered 1 (events_of t j events)

max_sequence_lem :
    (n : ℕ) (es : List Event) → Numbered (suc n) es → max n (max_sequence es) ≡ n + length es
unfolding max_sequence
max_sequence_lem n [] h = omega arith
max_sequence_lem n (e ∷ es) h = omega (arith, h.0, max_sequence_lem (suc n) es h.1)

pub next_sequence_lem :
    (t j : String) (events : List Event)
    → Numbered 1 (events_of t j events)
    → next_sequence t j events ≡ length (events_of t j events) + 1
unfolding next_sequence
next_sequence_lem t j events h = omega (arith, max_sequence_lem 0 (events_of t j events) h)

Numbered-append :
    (n : ℕ) (es : List Event) (e : Event)
    → Numbered n es
    → e.sequence ≡ n + length es
    → Numbered n (es ++ e ∷ [])
Numbered-append n [] e h q = (omega arith, tt)
Numbered-append n (x ∷ es) e h q = (h.0, Numbered-append (suc n) es e h.1 (omega arith))

-- An appended event takes the next number of its job and leaves the logs of all other jobs alone.
pub push_event-IsNumbered :
    (t j kind : String) (payload : Fields) (now : ℕ) (events : List Event)
    → IsNumbered events
    → IsNumbered (push_event t j kind payload now events)
push_event-IsNumbered t j kind payload now events h = record {
  at = λ u i. rw (select-append (of_job u i) events (e ∷ [])) (elim (Bool-cases (of_job u i e)) [
    | inl same ↦
        unfold select in
        rw same (Numbered-append 1 (events_of u i events) e (h.at u i) (next u i same))
    | inr other ↦ unfold select in rw other (nothing u i)
  ]);
}
  where
    e : Event
    e = new_event t j kind payload now events

    next : (u i : String) → of_job u i e ≡ true → e.sequence ≡ 1 + length (events_of u i events)
    next u i same =
        ground (arith, same, eq_iff t u, eq_iff j i, next_sequence_lem u i events (h.at u i))

    nothing : (u i : String) → Numbered 1 (events_of u i events ++ [])
    nothing u i = subst (Numbered 1) (sym (append-nil (events_of u i events))) (h.at u i)

abbrev pub later_than : ℕ → Event → Bool
later_than after e = ltb after e.sequence

-- In a numbered log the events after `n + k` are those that stand past the first `k`.
select_later :
    (n k after : ℕ) (es : List Event)
    → after ≡ n + k
    → Numbered (suc n) es
    → select (later_than after) es ≡ drop k es
unfolding select
select_later n zero after [] e h = refl
select_later n (suc k) after [] e h = refl
select_later n zero after (x ∷ es) e h =
    let rest = select_later (suc n) zero (suc after) es (omega arith) h.1 in
    ground (arith, h.0, select_all (suc n) after es (omega arith) h.1)
  where
    select_all :
        (m a : ℕ) (xs : List Event) → a ≤ m → Numbered (suc m) xs → select (later_than a) xs ≡ xs
    select_all m a [] g q = refl
    select_all m a (y ∷ xs) g q = ground (arith, q.0, select_all (suc m) a xs (omega arith) q.1)
select_later n (suc k) after (x ∷ es) e h =
    ground (arith, h.0, select_later (suc n) k after es (omega arith) h.1)

Numbered-drop : (n k : ℕ) (es : List Event) → Numbered n es → Numbered (k + n) (drop k es)
Numbered-drop n zero es h = subst (λ m. Numbered m es) (omega arith) h
Numbered-drop n (suc k) [] h = tt
Numbered-drop n (suc k) (e ∷ es) h =
    subst (λ m. Numbered m (drop k es)) (omega arith) (Numbered-drop (suc n) k es h.1)

Numbered-take : (n k : ℕ) (es : List Event) → Numbered n es → Numbered n (take k es)
Numbered-take n zero es h = tt
Numbered-take n (suc k) [] h = tt
Numbered-take n (suc k) (e ∷ es) h = (h.0, Numbered-take (suc n) k es h.1)

abbrev pub by_sequence : Event → Event → Bool
by_sequence a b = leb a.sequence b.sequence

-- `ORDER BY sequence` finds a numbered log in order.
sort-Numbered : (n : ℕ) (es : List Event) → Numbered n es → sort_by by_sequence es ≡ es
unfolding sort_by insert_by
sort-Numbered n [] h = refl
sort-Numbered n (e ∷ []) h = refl
sort-Numbered n (e ∷ x ∷ es) h =
    let rest : sort_by by_sequence (x ∷ es) ≡ x ∷ es = sort-Numbered (suc n) (x ∷ es) h.1 in
    rw rest (ground (arith, h.0, h.1.0))

-- Where the events of each job are numbered from 1 with no gap, what a client that has seen the
-- first `after` events of a job is sent is the next ones, at most `limit` of them, in order,
-- with no gap and no repetition.
pub list_events_resume :
    (s : Store) (t j : String) (after limit : ℕ)
    → IsNumbered s.events
    → (list_events t j after limit s ≡ take limit (drop after (events_of t j s.events)))
      × Numbered (after + 1) (list_events t j after limit s)
list_events_resume s t j after limit h = (
  same,
  subst (Numbered (after + 1)) (sym same) (
      Numbered-take (after + 1) limit rest
        (Numbered-drop 1 after (events_of t j s.events) (h.at t j))),
)
  where
    rest : List Event
    rest = drop after (events_of t j s.events)

    found : select (λ e. of_job t j e && ltb after e.sequence) s.events ≡ rest
    found =
        select_and (of_job t j) (later_than after) s.events
        ∙ select_later 0 after after (events_of t j s.events) (omega arith) (h.at t j)

    same : list_events t j after limit s ≡ take limit rest
    same =
        unfold list_events in
        rw found (
          ap (take limit) (
            sort-Numbered (after + 1) rest
              (Numbered-drop 1 after (events_of t j s.events) (h.at t j))))
