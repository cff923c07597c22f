-- ===== src/Jobs/Sql/Refinement.antt =====
-- Each call of the SQLAlchemy repository, matched with the same call of the SQLite repository.
use shared_integration.Prelude.{
  ℕ, String, ◌≡◌, refl, ap, ◌∙◌, Bool, List, map, ◌==◌, List, count, update, Bool-cases,
  Option-cases, inl, inr, ◌⊎◌, false,
}
use shared_integration.Json.{Fields}
use shared_integration.Result.{Result, ok, err}
use shared_integration.Jobs.{Job, terminal, running, status_payload}
use shared_integration.Jobs.Sqlite
use shared_integration.Jobs.Sqlite.{
  Store, Outcome, JobFilter, is_job, claimable, expected_status, started, settled, or_else,
  cancelling, cancel_status, push_event,
}
use shared_integration.Jobs.Sqlite.Invariant.{IsWellFormed}
use shared_integration.Jobs.Sqlite.Claims.{mark_running_claim, marked, unmarked}
use shared_integration.Jobs.Sql
use shared_integration.Jobs.Sql.{
  Row, Db, Draw, get, update_rows, has_id, mark_running, required, assigned, transition,
  append_event, list_events, set_dispatch_id, request_cancel, list_jobs, audit, value_too_long,
  fits, fits_if_given,
}
use shared_integration.Jobs.Sql.Forget.{
  forget, job_of, SameResult, map-update_rows, count-map, update_by_id, get-forget, required-forget,
  some_job_ok,
}

-- The answer and the store of the other repository; or, for a text that does not fit its column, the
-- exception of the database, which is left as it was.
abbrev pub SameUnlessLong : {A : Type 0} → Bool → Db → Result A × Db → Result A × Store → Type 0
SameUnlessLong short db p q = SameResult p q ⊎ ((short ≡ false) × (p ≡ (err value_too_long, db)))

-- The store of a database whose rows were updated.
updated :
    (p : Job → Bool) (f : Job → Job) (rows : List Row) (s : Store)
    → update p f (map job_of rows) ≡ s.jobs
    → ◌≡◌ {A = Store} (record { jobs = map job_of (update_rows p f rows); events = s.events }) s
updated p f rows s jobs =
    λ i. record { jobs = (map-update_rows p f rows ∙ jobs) i; events = s.events }

claim_db : String → String → Bool → ℕ → Db → Db
claim_db t j q now db = record db {
  rows = update_rows (claimable t j (expected_status q)) (started now) db.rows;
  events = push_event t j "status" (status_payload running) now db.events;
}

mark_running-forget :
    (t j : String) (q : Bool) (now : ℕ) (db : Db)
    → IsWellFormed (forget db)
    → SameResult (mark_running t j q now db) (Sqlite.mark_running t j q now (forget db))
unfolding mark_running Sqlite.mark_running claim_db
mark_running-forget t j q now db w =
    let p : Job → Bool = claimable t j (expected_status q) in
    let claim = (mark_running_claim t j q now (forget db) w).0 in
    let s'' = marked t j q now (forget db) in
    elim (Bool-cases (count p (map job_of db.rows) == 1)) [
      | inl h ↦
          let stored : forget (claim_db t j q now db) ≡ s'' =
            updated p (started now) db.rows s'' refl in
          rw (count-map p db.rows, h)
            (
              ap ok (get-forget t j (claim_db t j q now db) ∙ ap (Sqlite.get t j) stored)
                  ∙ some_job_ok t j s'' _ (rw h at claim),
              stored,
            )
      | inr h ↦
          rw (count-map p db.rows, h)
            (refl, updated p (started now) db.rows (unmarked t j q now (forget db)) refl)
    ]

transition-forget :
    (t j : String) (o : Outcome) (d : Draw) (db : Db)
    → IsWellFormed (forget db)
    → SameUnlessLong
        (fits_if_given 128 o.error_code)
        db
        (transition t j o d db)
        (Sqlite.transition t j o d.now (forget db))
unfolding transition Sqlite.transition
transition-forget t j o d db w = elim (Option-cases (Sqlite.get t j (forget db))) [
  | inl e ↦ rw (e, Sqlite.transition, get-forget t j db ∙ e, transition) (inl (refl, refl))
  | inr (x, e) ↦
      let n = or_else o.result_count x.result_count in
      let same =
        update_by_id t j (assigned o d.now) (settled o d.now n) x (map job_of db.rows) w.unique
          (unfold Sqlite.get in e) refl in
      let stored = updated (has_id x.id) (assigned o d.now) db.rows _ same in
      rw (e, Sqlite.transition, get-forget t j db ∙ e, transition)
        (elim (Bool-cases (fits_if_given 128 o.error_code)) [
          | inl short ↦
              rw short (inl (required-forget t j _ ∙ ap (Sqlite.required t j) stored, stored))
          | inr long ↦ rw long (inr (refl, refl))
        ])
]

request_cancel-forget :
    (t j : String) (d : Draw) (db : Db)
    → IsWellFormed (forget db)
    → SameResult (request_cancel t j d db) (Sqlite.request_cancel t j d.now (forget db))
unfolding request_cancel Sqlite.request_cancel
request_cancel-forget t j d db w = elim (Option-cases (Sqlite.get t j (forget db))) [
  | inl e ↦ rw (e, Sqlite.request_cancel, get-forget t j db ∙ e, request_cancel) (refl, refl)
  | inr (x, e) ↦
      let next = cancel_status x.status in
      let same =
        update_by_id t j (cancelling next d.now) (cancelling next d.now) x (map job_of db.rows)
          w.unique (unfold Sqlite.get in e) refl in
      let stored = updated (has_id x.id) (cancelling next d.now) db.rows _ same in
      rw (e, Sqlite.request_cancel, get-forget t j db ∙ e, request_cancel)
        (elim (Bool-cases (terminal x.status)) [
          | inl done ↦ rw done (refl, refl)
          | inr live ↦ rw live (required-forget t j _ ∙ ap (Sqlite.required t j) stored, stored)
        ])
]

append_event-forget :
    (t j kind : String) (payload : Fields) (now : ℕ) (db : Db)
    → SameUnlessLong
        (fits 64 kind)
        db
        (append_event t j kind payload now db)
        (Sqlite.append_event t j kind payload now (forget db))
unfolding append_event Sqlite.append_event
append_event-forget t j kind payload now db = elim (Option-cases (Sqlite.get t j (forget db))) [
  | inl e ↦ rw (e, Sqlite.append_event, get-forget t j db ∙ e, append_event) (inl (refl, refl))
  | inr (x, e) ↦
      rw (e, Sqlite.append_event, get-forget t j db ∙ e, append_event)
        (elim (Bool-cases (fits 64 kind)) [
          | inl short ↦ rw short (inl (refl, refl))
          | inr long ↦ rw long (inr (refl, refl))
        ])
]

set_dispatch_id-forget :
    (t j x : String) (now : ℕ) (db : Db)
    → SameUnlessLong
        (fits 128 x)
        db
        (set_dispatch_id t j x now db)
        (ok tt, Sqlite.set_dispatch_id t j x now (forget db))
unfolding set_dispatch_id Sqlite.set_dispatch_id
set_dispatch_id-forget t j x now db = elim (Bool-cases (fits 128 x)) [
  | inl short ↦ rw short (inl (refl, updated (is_job t j) _ db.rows _ refl))
  | inr long ↦ rw long (inr (refl, refl))
]

-- Every call but `create`: the four that write answers, the one that writes and returns nothing, and
-- the four queries.
pub record Refines (db : Db) : Type 0 where
  pub mark_running :
      (t j : String) (q : Bool) (now : ℕ)
      → SameResult (Sql.mark_running t j q now db) (Sqlite.mark_running t j q now (forget db))
  pub transition :
      (t j : String) (o : Outcome) (d : Draw)
      → SameUnlessLong
          (fits_if_given 128 o.error_code)
          db
          (Sql.transition t j o d db)
          (Sqlite.transition t j o d.now (forget db))
  pub request_cancel :
      (t j : String) (d : Draw)
      → SameResult (Sql.request_cancel t j d db) (Sqlite.request_cancel t j d.now (forget db))
  pub append_event :
      (t j kind : String) (payload : Fields) (now : ℕ)
      → SameUnlessLong
          (fits 64 kind)
          db
          (Sql.append_event t j kind payload now db)
          (Sqlite.append_event t j kind payload now (forget db))
  pub set_dispatch_id :
      (t j x : String) (now : ℕ)
      → SameUnlessLong
          (fits 128 x)
          db
          (Sql.set_dispatch_id t j x now db)
          (ok tt, Sqlite.set_dispatch_id t j x now (forget db))
  pub get : (t j : String) → Sql.get t j db ≡ Sqlite.get t j (forget db)
  pub find_by_idempotency_key :
      (t k : String)
      → Sql.find_by_idempotency_key t k db ≡ Sqlite.find_by_idempotency_key t k (forget db)
  pub list_events :
      (t j : String) (after limit : ℕ)
      → Sql.list_events t j after limit db ≡ Sqlite.list_events t j after limit (forget db)
  pub list_jobs :
      (t : String) (f : JobFilter) (limit : ℕ)
      → Sql.list_jobs t f limit db ≡ Sqlite.list_jobs t f limit (forget db)

-- Over a database whose job rows keep their unique constraints, every call but `create`, the queries
-- `get`, `find_by_idempotency_key`, `list_events` and `list_jobs` among them, answers as the SQLite
-- repository does over the jobs and events of that database, and leaves the jobs and events that it
-- would leave. Only where the kind of an event has more than 64 characters, an error code more than
-- 128 or a dispatch id more than 128 may the call raise instead; then it changes nothing.
pub repository-Refines : (db : Db) → IsWellFormed (forget db) → Refines db
unfolding Sql.list_events Sqlite.list_events Sql.list_jobs Sqlite.list_jobs
    Sql.find_by_idempotency_key Sqlite.find_by_idempotency_key
repository-Refines db w = record {
  mark_running = λ t j q now. mark_running-forget t j q now db w;
  transition = λ t j o d. transition-forget t j o d db w;
  request_cancel = λ t j d. request_cancel-forget t j d db w;
  append_event = λ t j kind payload now. append_event-forget t j kind payload now db;
  set_dispatch_id = λ t j x now. set_dispatch_id-forget t j x now db;
  get = λ t j. get-forget t j db;
  find_by_idempotency_key = λ t k. refl;
  list_events = λ t j after limit. refl;
  list_jobs = λ t f limit. refl;
}
