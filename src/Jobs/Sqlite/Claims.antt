-- ===== src/Jobs/Sqlite/Claims.antt =====
-- Who may run a job: `mark_running` and `request_cancel`.
use mathlib.Core.Option
use shared_integration.Prelude.{
  ℕ, String, ◌≡◌, refl, sym, ap, ◌∙◌, Bool, Option, none, some, List, if◌then◌else◌, count, update,
  applied, Bool-cases, inl, inr,
}
use shared_integration.Result.{ok}
use shared_integration.Jobs.{Status, Job, Event, running, status_payload}
use shared_integration.Jobs.Sqlite.{
  Store, started, mark_running, claimable, expected_status, get, required, some_job, push_event,
  with_event,
}
use shared_integration.Jobs.Sqlite.Rows.{count-claimable, ready, ready_count}
use shared_integration.Jobs.Sqlite.Lookup.{get-update, get-is_job, required_found}
use shared_integration.Jobs.Sqlite.Invariant.{IsWellFormed, started-KeepsKeys}

-- The specification of a claim: the job that is there, in the expected state and with no
-- cancellation requested, is started.
abbrev pub claimed : Status → ℕ → Option Job → Option Job
claimed st now none = none
claimed st now (some x) = if ready st x then some (started now x) else none

abbrev pub unmarked : String → String → Bool → ℕ → Store → Store
unmarked t j q now s = record s {
  jobs = update (claimable t j (expected_status q)) (started now) s.jobs;
}

abbrev pub marked : String → String → Bool → ℕ → Store → Store
marked t j q now s = with_event t j "status" (status_payload running) now (unmarked t j q now s)

pub mark_running_hit :
    (t j : String) (q : Bool) (now : ℕ) (s : Store)
    → count (claimable t j (expected_status q)) s.jobs ≡ 1
    → mark_running t j q now s ≡ (some_job (required t j (marked t j q now s)), marked t j q now s)
unfolding mark_running
mark_running_hit t j q now s h = rw h

mark_running_miss :
    (t j : String) (q : Bool) (now : ℕ) (s : Store)
    → count (claimable t j (expected_status q)) s.jobs ≡ 0
    → mark_running t j q now s ≡ (ok none, unmarked t j q now s)
unfolding mark_running
mark_running_miss t j q now s h = rw h

-- In a well-formed store, `UPDATE … WHERE` and its row count do what the specification of a
-- claim says: the answer is the started job where the job is there, in the expected status and
-- with no cancellation requested, and nothing otherwise; and the store then holds the started
-- job, or the job as it was.
pub mark_running_claim :
    (t j : String) (q : Bool) (now : ℕ) (s : Store)
    → IsWellFormed s
    → let (r, s') = mark_running t j q now s in
      (r ≡ ok (claimed (expected_status q) now (get t j s)))
      × (get t j s' ≡ elim (claimed (expected_status q) now (get t j s)) [
        | none ↦ get t j s
        | some x ↦ some x
      ])
mark_running_claim t j q now s w = split (get t j s) refl
  where
    st : Status
    st = expected_status q

    rows : (o : Option Job) → get t j s ≡ o → count (claimable t j st) s.jobs ≡ ready_count st o
    rows o e = unfold get in count-claimable t j st s.jobs w.unique ∙ ap (ready_count st) e

    after :
        (o : Option Job) (events : List Event)
        → get t j s ≡ o
        → get t j
            (record { jobs = update (claimable t j st) (started now) s.jobs; events = events })
          ≡ Option.map (applied (claimable t j st) (started now)) o
    after o events e =
        get-update t j (claimable t j st) (started now) events s (started-KeepsKeys now)
        ∙ ap (Option.map (applied (claimable t j st) (started now))) e

    split :
        (o : Option Job)
        → get t j s ≡ o
        → let (r, s') = mark_running t j q now s in
          (r ≡ ok (claimed st now (get t j s)))
          × (get t j s' ≡ elim (claimed st now (get t j s)) [ none ↦ get t j s | some x ↦ some x ])
    split none e =
        rw (e, mark_running_miss t j q now s (rows none e)) (refl, after none s.events e ∙ sym e)
    split (some x) e = elim (Bool-cases (ready st x)) [
      | inl go ↦
          let here =
            after (some x) (push_event t j "status" (status_payload running) now s.events) e in
          let found : get t j (marked t j q now s) ≡ some (started now x) =
            here ∙ rw (go, get-is_job t j s x e) in
          rw (e, go, mark_running_hit t j q now s (rows (some x) e ∙ rw go))
            (rw (required_found t j (marked t j q now s) (started now x) found), found)
      | inr stop ↦
          rw (e, stop, mark_running_miss t j q now s (rows (some x) e ∙ rw stop))
            (refl, after (some x) s.events e ∙ rw (stop, get-is_job t j s x e) (sym e))
    ]
