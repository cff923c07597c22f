-- ===== src/Jobs/Sqlite/Growth.antt =====
-- The event log under the calls of the job store: rows are added at its end, and no call changes or
-- deletes one that is there.
use shared_integration.Prelude.{
  ℕ, String, ◌≡◌, refl, sym, ap, ◌∙◌, Bool, List, [], ◌∷◌, ◌++◌, append-nil, append_assoc, any,
  count, ◌==◌, select-append, Bool-cases, Option-cases, inl, inr, select,
}
use shared_integration.Json.{Fields}
use shared_integration.Jobs.{Event, terminal}
use shared_integration.Jobs.Sqlite.{
  Store, NewJob, Outcome, get, create, insert, mark_running, transition, append_event,
  request_cancel, set_dispatch_id, claimable, expected_status, idempotent_match, clashes,
  queued_row, of_job,
}
use shared_integration.Jobs.Sqlite.Events.{events_of}
use shared_integration.Jobs.Sqlite.Invariant.{
  Op, creates, claims, settles, notes, dispatches, cancels, step, run,
}

record Grows (s s' : Store) : Type 0 where
  more : List Event
  log : s'.events ≡ s.events ++ more

Grows-refl : (s : Store) → Grows s s
Grows-refl s = record { more = []; log = sym (append-nil s.events) }

Grows-trans : (s s' s'' : Store) → Grows s s' → Grows s' s'' → Grows s s''
Grows-trans s s' s'' g h = record {
  more = g.more ++ h.more;
  log = h.log ∙ ap (λ es. es ++ h.more) g.log ∙ append_assoc s.events g.more h.more;
}

insert-Grows : (new : NewJob) (now : ℕ) (id : String) (s : Store) → Grows s (insert new now id s).1
unfolding insert
insert-Grows new now id s = elim (Bool-cases (any (clashes (queued_row new now id)) s.jobs)) [
  | inl e ↦ rw e (Grows-refl s)
  | inr e ↦ rw e (record { more = _; log = refl })
]

create-Grows : (new : NewJob) (now : ℕ) (id : String) (s : Store) → Grows s (create new now id s).1
unfolding create
create-Grows new now id s = elim (Option-cases (idempotent_match new s)) [
  | inl e ↦ rw (e, create) (insert-Grows new now id s)
  | inr (x, e) ↦ rw (e, create) (Grows-refl s)
]

claim-Grows : (t j : String) (q : Bool) (now : ℕ) (s : Store) → Grows s (mark_running t j q now s).1
unfolding mark_running
claim-Grows t j q now s =
    elim (Bool-cases (count (claimable t j (expected_status q)) s.jobs == 1)) [
      | inl e ↦ rw e (record { more = _; log = refl })
      | inr e ↦ rw e (record { more = []; log = sym (append-nil s.events) })
    ]

settle-Grows :
    (t j : String) (o : Outcome) (now : ℕ) (s : Store) → Grows s (transition t j o now s).1
unfolding transition
settle-Grows t j o now s = elim (Option-cases (get t j s)) [
  | inl e ↦ rw (e, transition) (Grows-refl s)
  | inr (x, e) ↦ rw (e, transition) (record { more = _; log = refl })
]

note-Grows :
    (t j kind : String) (payload : Fields) (now : ℕ) (s : Store)
    → Grows s (append_event t j kind payload now s).1
unfolding append_event
note-Grows t j kind payload now s = elim (Option-cases (get t j s)) [
  | inl e ↦ rw (e, append_event) (Grows-refl s)
  | inr (x, e) ↦ rw (e, append_event) (record { more = _; log = refl })
]

cancel-Grows : (t j : String) (now : ℕ) (s : Store) → Grows s (request_cancel t j now s).1
unfolding request_cancel
cancel-Grows t j now s = elim (Option-cases (get t j s)) [
  | inl e ↦ rw (e, request_cancel) (Grows-refl s)
  | inr (x, e) ↦
      rw (e, request_cancel)
        (elim (Bool-cases (terminal x.status)) [
          | inl done ↦ rw done (Grows-refl s)
          | inr live ↦ rw live (record { more = _; log = refl })
        ])
]

step-Grows : (s : Store) (o : Op) → Grows s (step s o)
unfolding step set_dispatch_id
step-Grows s (creates new now id) = create-Grows new now id s
step-Grows s (claims t j q now) = claim-Grows t j q now s
step-Grows s (settles t j o now) = settle-Grows t j o now s
step-Grows s (notes t j kind payload now) = note-Grows t j kind payload now s
step-Grows s (dispatches t j d now) = record { more = []; log = sym (append-nil s.events) }
step-Grows s (cancels t j now) = cancel-Grows t j now s

run-Grows : (s : Store) (os : List Op) → Grows s (run s os)
unfolding run
run-Grows s [] = Grows-refl s
run-Grows s (o ∷ os) =
    Grows-trans s (step s o) (run (step s o) os) (step-Grows s o) (run-Grows (step s o) os)

-- Calls leave the log of a job as it was, or add to its end.
pub log_grows :
    (t j : String) (s : Store) (os : List Op)
    → (more : List Event) × (events_of t j (run s os).events ≡ events_of t j s.events ++ more)
log_grows t j s os =
    let g = run-Grows s os in
    (
      select (of_job t j) g.more,
      ap (events_of t j) g.log ∙ select-append (of_job t j) s.events g.more,
    )
