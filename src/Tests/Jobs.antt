-- ===== src/Tests/Jobs.antt =====
-- The job stores on a short history: a scan that is created, claimed, cancelled and noted.
use shared_integration.Prelude.{
  String, ◌≡◌, ◌≢◌, refl, sym, count, update, find, select, arith, Bool, true, false, none, some,
  List, [], ◌∷◌, drop, take, any, str_eq, eq_iff,
}
use shared_integration.Json.{end}
use shared_integration.Result.{ok}
use shared_integration.Core.{soc}
use shared_integration.Jobs.{Job, queued, running, status_payload}
use shared_integration.Jobs.Sqlite.{
  Store, NewJob, empty, get, create, insert, mark_running, list_events, queued_row, started,
  cancelling, max_sequence, next_sequence, required, request_cancel,
}
use shared_integration.Jobs.Sqlite.Events.{Numbered, events_of, list_events_resume}
use shared_integration.Jobs.Sqlite.Invariant.{
  Op, creates, claims, cancels, step, run, IsWellFormed, run-empty-IsWellFormed,
}
use shared_integration.Jobs.Sqlite.Claims.{claimed, mark_running_claim}
use shared_integration.Jobs.Sqlite.History.{Becomes, any_requeue, run-Becomes}
use shared_integration.Jobs.Sqlite.Exclusion.{cancelled_never_starts, claim_once}
use shared_integration.Jobs.Sqlite.Idempotency.{create_again, create_total}
use shared_integration.Jobs.Sqlite.Tenants.{SameView, step-SameView}
use shared_integration.Jobs.Sql
use shared_integration.Jobs.Sql.{Db, Draw, Row, fast, ensure_tenant}
use shared_integration.Jobs.Sql.Forget.{forget, SameResult, create-forget}
use shared_integration.Jobs.Sql.Refinement.{Refines, repository-Refines}

abbrev scan : NewJob
scan = record { tenant_id = "acme"; source = soc; payload = end; idempotency_key = some "k1" }

abbrev ops : List Op
ops = creates scan 10 "j1" ∷ []

abbrev pub row : Job
row = queued_row scan 10 "j1"

-- The store of that one job.
abbrev pub made : Store
made = record {
  jobs = row ∷ [];
  events =
      record {
        sequence = 1;
        job_id = "j1";
        tenant_id = "acme";
        kind = "status";
        payload = status_payload queued;
        created_at = 10;
      }
      ∷ [];
}

run-made : run empty ops ≡ made
unfolding run step create insert any get max_sequence next_sequence find select
run-made = refl

pub made-IsWellFormed : IsWellFormed made
made-IsWellFormed = rw (sym run-made) (run-empty-IsWellFormed ops)

pub get-made : get "acme" "j1" made ≡ some row
unfolding get find select
get-made = refl

run-empty-IsWellFormed_example : IsWellFormed (run empty ops)
run-empty-IsWellFormed_example = run-empty-IsWellFormed ops

mark_running_claim_example :
    let (r, s') = mark_running "acme" "j1" true 20 made in
    (r ≡ ok (claimed queued 20 (get "acme" "j1" made)))
    × (get "acme" "j1" s' ≡ elim (claimed queued 20 (get "acme" "j1" made)) [
      | none ↦ get "acme" "j1" made
      | some x ↦ some x
    ])
mark_running_claim_example = mark_running_claim "acme" "j1" true 20 made made-IsWellFormed

run-Becomes_example :
    Becomes "acme" "j1"
      (any_requeue (cancels "acme" "j1" 30 ∷ []))
      row
      (run made (cancels "acme" "j1" 30 ∷ []))
run-Becomes_example = run-Becomes "acme" "j1" row made (cancels "acme" "j1" 30 ∷ []) get-made

-- The same store once the cancellation of a running job was requested.
abbrev flagged_row : Job
flagged_row = cancelling running 30 (started 20 row)

abbrev flagged_ops : List Op
flagged_ops = creates scan 10 "j1" ∷ claims "acme" "j1" true 20 ∷ cancels "acme" "j1" 30 ∷ []

get_flagged : get "acme" "j1" (run empty flagged_ops) ≡ some flagged_row
unfolding run step create insert any get max_sequence next_sequence mark_running request_cancel
    count update required find select
get_flagged = refl

cancelled_never_starts_example :
    (mark_running "acme" "j1" false 40 (run (run empty flagged_ops) (creates scan 35 "j2" ∷ []))).0
    ≡ ok none
cancelled_never_starts_example =
    cancelled_never_starts "acme" "j1" flagged_row (run empty flagged_ops)
      (creates scan 35 "j2" ∷ []) false 40 (run-empty-IsWellFormed flagged_ops) get_flagged refl

abbrev claimed_store : Store
claimed_store = (mark_running "acme" "j1" true 20 made).1

first_claim : mark_running "acme" "j1" true 20 made ≡ (ok (some (started 20 row)), claimed_store)
unfolding mark_running get count update required find select
first_claim = refl

quiet : any_requeue (cancels "acme" "j1" 30 ∷ []) ≡ false
quiet = refl

claim_once_example :
    (mark_running "acme" "j1" true 40 (run claimed_store (cancels "acme" "j1" 30 ∷ []))).0 ≡ ok none
claim_once_example =
    claim_once "acme" "j1" (started 20 row) 20 40 made claimed_store (cancels "acme" "j1" 30 ∷ [])
      made-IsWellFormed first_claim quiet

first_insert : insert scan 10 "j1" empty ≡ (ok (row, true), made)
unfolding insert any get max_sequence next_sequence find select
first_insert = refl

create_again_example :
    (create scan 50 "j2" made ≡ (ok (row, false), made))
    × (insert scan 50 "j2" made ≡ (ok (row, false), made))
create_again_example =
    create_again scan scan 10 50 "j1" "j2" "k1" empty made row refl refl refl first_insert

fresh_id : any (λ (x : Job). str_eq x.id "j2") made.jobs ≡ false
unfolding any
fresh_id = refl

create_total_example :
    (x : Job) × (made_now : Bool) × ((create scan 50 "j2" made).0 ≡ ok (x, made_now))
    × (x.tenant_id ≡ scan.tenant_id)
    × (x.idempotency_key ≡ scan.idempotency_key)
create_total_example = create_total scan 50 "j2" made fresh_id

acme_other : ◌≢◌ {A = String} "acme" "other"
acme_other e =
    let h : str_eq "acme" "other" ≡ true = (eq_iff "acme" "other").1 e in absurd (ground (arith, h))

step-SameView_example : SameView "other" "j1" made (step made (cancels "acme" "j1" 30))
step-SameView_example = step-SameView "other" "j1" made (cancels "acme" "j1" 30) acme_other

list_events_resume_example :
    (list_events "acme" "j1" 0 10 made ≡ take 10 (drop 0 (events_of "acme" "j1" made.events)))
    × Numbered 1 (list_events "acme" "j1" 0 10 made)
list_events_resume_example = list_events_resume made "acme" "j1" 0 10 made-IsWellFormed.numbered

abbrev db : Db
db = record {
  rows = record { job = row; queue = fast } ∷ [];
  events = made.events;
  tenants = [];
  audits = [];
}

repository-Refines_example : Refines db
repository-Refines_example = repository-Refines db made-IsWellFormed

abbrev draw : Draw
draw = record { now = 50; job_id = "j2"; audit_id = "a2" }

free_tenant : ensure_tenant "acme" 50 [] ≢ none
unfolding ensure_tenant any
free_tenant = λ e. absurd (ground arith)

create-forget_example :
    SameResult (Sql.create (λ s. "soc") scan draw db) (create scan 50 "j2" (forget db))
create-forget_example = create-forget (λ s. "soc") scan draw db free_tenant
