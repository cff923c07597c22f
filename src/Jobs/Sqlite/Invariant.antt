-- ===== src/Jobs/Sqlite/Invariant.antt =====
-- What holds of the job store between any two calls.
use shared_integration.Prelude.{
  ℕ, String, refl, Bool, List, [], ◌∷◌, any, Bool-cases, Option-cases, inl, inr, count, ◌==◌,
  select,
}
use shared_integration.Json.{Fields}
use shared_integration.Jobs.{Status, terminal}
use shared_integration.Jobs.Sqlite.{
  Store, NewJob, Outcome, empty, is_job, clashes, queued_row, started, settled, cancelling, create,
  insert, mark_running, transition, append_event, set_dispatch_id, request_cancel, claimable,
  expected_status, idempotent_match, get,
}
use shared_integration.Jobs.Sqlite.Events.{IsNumbered, push_event-IsNumbered}
use shared_integration.Jobs.Sqlite.Rows.{NoClash, NoClash-append, NoClash-update, KeepsKeys}

-- The calls that write.
pub data Op : Type 0 where
  creates : NewJob → ℕ → String → Op
  claims : String → String → Bool → ℕ → Op
  settles : String → String → Outcome → ℕ → Op
  notes : String → String → String → Fields → ℕ → Op
  dispatches : String → String → String → ℕ → Op
  cancels : String → String → ℕ → Op

unfoldable pub step : Store → Op → Store
step s (creates new now id) = (create new now id s).1
step s (claims t j q now) = (mark_running t j q now s).1
step s (settles t j o now) = (transition t j o now s).1
step s (notes t j kind payload now) = (append_event t j kind payload now s).1
step s (dispatches t j d now) = set_dispatch_id t j d now s
step s (cancels t j now) = (request_cancel t j now s).1

unfoldable pub run : Store → List Op → Store
unfolding step
run s [] = s
run s (o ∷ os) = run (step s o) os

pub record IsWellFormed (s : Store) : Type 0 where
  pub unique : NoClash s.jobs
  pub numbered : IsNumbered s.events

pub started-KeepsKeys : (now : ℕ) → KeepsKeys (started now)
started-KeepsKeys now = record { id = λ x. refl; tenant = λ x. refl; key = λ x. refl }

pub settled-KeepsKeys : (o : Outcome) (now n : ℕ) → KeepsKeys (settled o now n)
settled-KeepsKeys o now n = record { id = λ x. refl; tenant = λ x. refl; key = λ x. refl }

pub cancelling-KeepsKeys : (st : Status) (now : ℕ) → KeepsKeys (cancelling st now)
cancelling-KeepsKeys st now = record { id = λ x. refl; tenant = λ x. refl; key = λ x. refl }

insert-IsWellFormed :
    (new : NewJob) (now : ℕ) (id : String) (s : Store)
    → IsWellFormed s
    → IsWellFormed (insert new now id s).1
unfolding insert
insert-IsWellFormed new now id s w =
    elim (Bool-cases (any (clashes (queued_row new now id)) s.jobs)) [
      | inl e ↦ rw e w
      | inr e ↦ rw e (record {
        unique = NoClash-append s.jobs (queued_row new now id) w.unique e;
        numbered = push_event-IsNumbered _ _ _ _ _ s.events w.numbered;
      })
    ]

create-IsWellFormed :
    (new : NewJob) (now : ℕ) (id : String) (s : Store)
    → IsWellFormed s
    → IsWellFormed (create new now id s).1
unfolding create
create-IsWellFormed new now id s w = elim (Option-cases (idempotent_match new s)) [
  | inl e ↦ rw (e, create) (insert-IsWellFormed new now id s w)
  | inr (x, e) ↦ rw (e, create) w
]

pub mark_running-IsWellFormed :
    (t j : String) (q : Bool) (now : ℕ) (s : Store)
    → IsWellFormed s
    → IsWellFormed (mark_running t j q now s).1
unfolding mark_running
mark_running-IsWellFormed t j q now s w =
    let unique =
      NoClash-update (started now) (claimable t j (expected_status q)) s.jobs
        (started-KeepsKeys now) w.unique in
    elim (Bool-cases (count (claimable t j (expected_status q)) s.jobs == 1)) [
      | inl e ↦ rw e (record {
        unique = unique;
        numbered = push_event-IsNumbered _ _ _ _ _ s.events w.numbered;
      })
      | inr e ↦ rw e (record { unique = unique; numbered = w.numbered })
    ]

transition-IsWellFormed :
    (t j : String) (o : Outcome) (now : ℕ) (s : Store)
    → IsWellFormed s
    → IsWellFormed (transition t j o now s).1
unfolding transition
transition-IsWellFormed t j o now s w = elim (Option-cases (get t j s)) [
  | inl e ↦ rw (e, transition) w
  | inr (x, e) ↦
      rw (e, transition)
        (record {
          unique = NoClash-update _ (is_job t j) s.jobs (settled-KeepsKeys o now _) w.unique;
          numbered = push_event-IsNumbered _ _ _ _ _ s.events w.numbered;
        })
]

append_event-IsWellFormed :
    (t j kind : String) (payload : Fields) (now : ℕ) (s : Store)
    → IsWellFormed s
    → IsWellFormed (append_event t j kind payload now s).1
unfolding append_event
append_event-IsWellFormed t j kind payload now s w = elim (Option-cases (get t j s)) [
  | inl e ↦ rw (e, append_event) w
  | inr (x, e) ↦
      rw (e, append_event)
        (record {
          unique = w.unique;
          numbered = push_event-IsNumbered _ _ _ _ _ s.events w.numbered;
        })
]

request_cancel-IsWellFormed :
    (t j : String) (now : ℕ) (s : Store)
    → IsWellFormed s
    → IsWellFormed (request_cancel t j now s).1
unfolding request_cancel
request_cancel-IsWellFormed t j now s w = elim (Option-cases (get t j s)) [
  | inl e ↦ rw (e, request_cancel) w
  | inr (x, e) ↦
      rw (e, request_cancel)
        (elim (Bool-cases (terminal x.status)) [
          | inl done ↦ rw done w
          | inr live ↦ rw live (record {
            unique = NoClash-update _ (is_job t j) s.jobs (cancelling-KeepsKeys _ now) w.unique;
            numbered = push_event-IsNumbered _ _ _ _ _ s.events w.numbered;
          })
        ])
]

-- Every call that writes keeps the ids and the idempotency keys of the jobs apart, and the event
-- log of each job numbered from 1 with no gap.
pub step-IsWellFormed : (s : Store) (o : Op) → IsWellFormed s → IsWellFormed (step s o)
unfolding step set_dispatch_id
step-IsWellFormed s (creates new now id) w = create-IsWellFormed new now id s w
step-IsWellFormed s (claims t j q now) w = mark_running-IsWellFormed t j q now s w
step-IsWellFormed s (settles t j o now) w = transition-IsWellFormed t j o now s w
step-IsWellFormed s (notes t j kind payload now) w =
    append_event-IsWellFormed t j kind payload now s w
step-IsWellFormed s (dispatches t j d now) w = record {
  unique =
      NoClash-update _ (is_job t j) s.jobs
        (record { id = λ x. refl; tenant = λ x. refl; key = λ x. refl }) w.unique;
  numbered = w.numbered;
}
step-IsWellFormed s (cancels t j now) w = request_cancel-IsWellFormed t j now s w

pub run-IsWellFormed : (s : Store) (os : List Op) → IsWellFormed s → IsWellFormed (run s os)
unfolding run
run-IsWellFormed s [] w = w
run-IsWellFormed s (o ∷ os) w = run-IsWellFormed (step s o) os (step-IsWellFormed s o w)

pub empty-IsWellFormed : IsWellFormed empty
unfolding select
empty-IsWellFormed = record { unique = tt; numbered = record { at = λ t j. tt } }

-- Whatever calls a new store has had, no two of its jobs have one id, no two of one tenant have one
-- idempotency key, and the events of each job are numbered 1, 2, 3, … in the order they were written.
pub run-empty-IsWellFormed : (os : List Op) → IsWellFormed (run empty os)
run-empty-IsWellFormed os = run-IsWellFormed empty os empty-IsWellFormed
