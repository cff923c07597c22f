-- ===== src/Jobs/Sqlite/Lookup.antt =====
-- What each call does to the job that `get` finds and to its event log.
use mathlib.Core.Option
use shared_integration.Prelude.{
  ℕ, String, ◌≡◌, refl, sym, ap, ◌∙◌, Bool, true, false, ◌&&◌, none, some, List, [], ◌∷◌, ◌++◌,
  arith, eq_iff, str_eq, if◌then◌else◌, find, any, update, select, applied, Bool-cases, inl, inr,
  find-append, select-append, append-nil, find-true,
}
use shared_integration.Json.{Fields}
use shared_integration.Result.{ok}
use shared_integration.Jobs.{Job, Event}
use shared_integration.Jobs.Sqlite.{
  Store, is_job, of_job, clashes, get, required, push_event, new_event,
}
use shared_integration.Jobs.Sqlite.Events.{events_of}
use shared_integration.Jobs.Sqlite.Rows.{KeepsKeys, find_job-update}

-- A row that clashes with none has neither the id nor the key of another.
find_job_of_no_clash :
    (t : String) (new : Job) (xs : List Job)
    → any (clashes new) xs ≡ false
    → find (is_job t new.id) xs ≡ none
unfolding any find
find_job_of_no_clash t new [] h = refl
find_job_of_no_clash t new (x ∷ xs) h =
    ground (arith, eq_iff x.id new.id, find_job_of_no_clash t new xs)

pub get_of_no_clash :
    (t j : String) (row : Job) (s : Store)
    → any (clashes row) s.jobs ≡ false
    → is_job t j row ≡ true
    → get t j s ≡ none
unfolding get
get_of_no_clash t j row s h e =
    let same : row.id ≡ j = ground (arith, e, eq_iff row.id j) in
    ap (λ i. find (is_job t i) s.jobs) (sym same) ∙ find_job_of_no_clash t row s.jobs h

pub get-insert :
    (t j : String) (row : Job) (events : List Event) (s : Store)
    → any (clashes row) s.jobs ≡ false
    → get t j (record { jobs = s.jobs ++ row ∷ []; events = events })
      ≡ (if is_job t j row then some row else get t j s)
unfolding get
get-insert t j row events s h = rw find-append (elim (Bool-cases (is_job t j row)) [
  | inl e ↦
      let missing : find (is_job t j) s.jobs ≡ none = get_of_no_clash t j row s h e in
      rw e (unfold find in ground (arith, e, missing))
  | inr e ↦ rw e (unfold find in ground (arith, e))
])

pub get-update :
    (t j : String) (q : Job → Bool) (f : Job → Job) (events : List Event) (s : Store)
    → KeepsKeys f
    → get t j (record { jobs = update q f s.jobs; events = events })
      ≡ Option.map (applied q f) (get t j s)
unfolding get
get-update t j q f events s k = find_job-update f q t j s.jobs k

-- An event of one job stands in no other job's log.
pub events_of-push :
    (t j u i kind : String) (payload : Fields) (now : ℕ) (events : List Event)
    → events_of t j (push_event u i kind payload now events) ≡ (
        if str_eq u t && str_eq i j
        then events_of t j events ++ new_event u i kind payload now events ∷ []
        else events_of t j events)
events_of-push t j u i kind payload now events =
    rw (select-append (of_job t j) events (new_event u i kind payload now events ∷ [])) (
      unfold select in
      elim (Bool-cases (str_eq u t && str_eq i j)) [
        | inl e ↦ rw e
        | inr e ↦ rw e (append-nil (events_of t j events))
      ])

pub get-is_job : (t j : String) (s : Store) (x : Job) → get t j s ≡ some x → is_job t j x ≡ true
unfolding get
get-is_job t j s x h = find-true (is_job t j) s.jobs x h

pub required_found :
    (t j : String) (s : Store) (x : Job) → get t j s ≡ some x → required t j s ≡ ok x
unfolding required
required_found t j s x h = ground arith

pub get-id : (t j : String) (s : Store) (x : Job) → get t j s ≡ some x → x.id ≡ j
get-id t j s x h = ground (arith, get-is_job t j s x h, eq_iff x.id j)
