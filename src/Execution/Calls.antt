-- ===== src/Execution/Calls.antt =====
-- What the executor's calls leave of a job that nobody else claims or settles.
use mathlib.Core.Option
use shared_integration.Prelude.{
  ℕ, String, ◌≡◌, refl, ap, ◌∙◌, ◌⊎◌, inl, inr, Bool, true, false, none, some, List, applied,
  Bool-cases, Option-cases,
}
use shared_integration.Json.{Fields}
use shared_integration.Result.{Result, ok, err}
use shared_integration.Jobs.{Status, Job, Event, running}
use shared_integration.Jobs.Sqlite.{
  Store, Outcome, get, is_job, mark_running, transition, append_event, new_event, settled, or_else,
  expected_status, started,
}
use shared_integration.Jobs.Sqlite.Rows.{ready}
use shared_integration.Jobs.Sqlite.Lookup.{get-update, get-is_job, required_found}
use shared_integration.Jobs.Sqlite.Claims.{claimed, mark_running_claim}
use shared_integration.Jobs.Sqlite.Invariant.{
  Op, settles, notes, step, run, IsWellFormed, step-IsWellFormed, run-IsWellFormed,
  mark_running-IsWellFormed, settled-KeepsKeys,
}
use shared_integration.Execution.{
  Executor, Call, looking, settling, noting, claiming, Run, Turn, done, look, settle, note, claim,
  call, or_raise,
}
use shared_integration.Execution.Gentle.{all_gentle, Kept, run-Keeps}

-- The store is well-formed, and holds a job with a property.
pub record Has (t j : String) (P : Job → Type 0) (s : Store) : Type 0 where
  pub well_formed : IsWellFormed s
  pub job : Job
  pub found : get t j s ≡ some job
  pub holds : P job

pub Has-run :
    (t j : String) (b : Bool) (P Q : Job → Type 0) (s : Store) (os : List Op)
    → ((x y : Job) → Kept b x y → P x → Q y)
    → all_gentle b t j os ≡ true
    → Has t j P s
    → Has t j Q (run s os)
Has-run t j b P Q s os keep gentle h =
    let (y, found, kept) = run-Keeps t j b h.job s os h.found gentle in
    record {
      well_formed = run-IsWellFormed s os h.well_formed;
      job = y;
      found = found;
      holds = keep h.job y kept h.holds;
    }

abbrev pub HasStatus : Status → Job → Type 0
HasStatus st x = x.status ≡ st

transition-Has :
    (t j : String) (o : Outcome) (now : ℕ) (P : Job → Type 0) (s : Store)
    → Has t j P s
    → ((x : Job) × ((transition t j o now s).0 ≡ ok x))
      × Has t j (HasStatus o.status) (transition t j o now s).1
unfolding transition step
transition-Has t j o now P s h =
    let f : Job → Job = settled o now (or_else o.result_count h.job.result_count) in
    let hit : applied (is_job t j) f h.job ≡ f h.job = rw (get-is_job t j s h.job h.found) refl in
    let moved = λ (events : List Event).
      get-update t j (is_job t j) f events s
        (settled-KeepsKeys o now (or_else o.result_count h.job.result_count))
      ∙ ap (Option.map (applied (is_job t j) f)) h.found
      ∙ ap some hit in
    let w : IsWellFormed (transition t j o now s).1 =
      step-IsWellFormed s (settles t j o now) h.well_formed in
    rw (h.found, transition)
      (
        (f h.job, required_found t j _ (f h.job) (moved _)),
        record {
          well_formed = rw (h.found, transition) at w;
          job = f h.job;
          found = moved _;
          holds = refl;
        },
      )

append_event-Has :
    (t j kind : String) (payload : Fields) (now : ℕ) (P : Job → Type 0) (s : Store)
    → Has t j P s
    → Has t j P (append_event t j kind payload now s).1
unfolding append_event step
append_event-Has t j kind payload now P s h =
    let w : IsWellFormed (append_event t j kind payload now s).1 =
      step-IsWellFormed s (notes t j kind payload now) h.well_formed in
    elim (Option-cases (get t j s)) [
      | inl e ↦ rw (e, append_event) h
      | inr (x, e) ↦
          rw (e, append_event)
            (record {
              well_formed = rw (e, append_event) at w;
              job = h.job;
              found = unfold get in h.found;
              holds = h.holds;
            })
    ]

append_event_answer :
    (t j kind : String) (payload : Fields) (now : ℕ) (P : Job → Type 0) (s : Store)
    → Has t j P s
    → (e : Event) × ((append_event t j kind payload now s).0 ≡ ok e)
unfolding append_event
append_event_answer t j kind payload now P s h =
    rw (h.found, append_event) (new_event t j kind payload now s.events, refl)

-- The state of a run.
abbrev pub HasRun : (E : Executor) (t j : String) → (Job → Type 0) → Run E.registry → Type 0
HasRun E t j P r = Has t j P r.store

or_raise_state :
    {A : Type 0} (E : Executor) (t j : String) (p : Result A × Run E.registry)
    → (or_raise E t j p).1 ≡ p.1
or_raise_state E t j (ok a, r) = refl
or_raise_state E t j (err e, r) = refl

module _ (E : Executor) (t j : String) (may : Call → ℕ → Bool)
    (gentle : (c : Call) (n : ℕ) → all_gentle (may c n) t j (E.turns c n).others ≡ true) where
  -- A look shows the job that is there.
  pub look-Has :
      (P Q : Job → Type 0) (r : Run E.registry)
      → ((x y : Job) → Kept (may looking r.calls) x y → P x → Q y)
      → HasRun E t j P r
      → (x : Job) × ((look E t j r).0 ≡ some x) × Q x × HasRun E t j (λ y. y ≡ x) (look E t j r).1
  unfolding look
  look-Has P Q r keep h =
      let turn : Turn = E.turns looking r.calls in
      let k =
        Has-run t j (may looking r.calls) P Q r.store turn.others keep (gentle looking r.calls) h in
      (
        k.job,
        k.found,
        k.holds,
        record { well_formed = k.well_formed; job = k.job; found = k.found; holds = refl },
      )

  pub settle-Has :
      (P : Job → Type 0) (o : Outcome) (r : Run E.registry)
      → HasRun E t j P r
      → ((x : Job) × ((settle E t j o r).0 ≡ done x))
        × HasRun E t j (HasStatus o.status) (settle E t j o r).1
  unfolding settle
  settle-Has P o r h =
      let turn : Turn = E.turns settling r.calls in
      let k =
        Has-run t j (may settling r.calls) P (λ _. Unit) r.store turn.others (λ _ _ _ _. tt)
          (gentle settling r.calls) h in
      let ((x, answer), after_it) =
        transition-Has t j o turn.now (λ _. Unit) (run r.store turn.others) k in
      rw answer ((x, refl), after_it)

  pub note-Has :
      (P Q : Job → Type 0) (kind : String) (payload : Fields) (r : Run E.registry)
      → ((x y : Job) → Kept (may noting r.calls) x y → P x → Q y)
      → HasRun E t j P r
      → HasRun E t j Q (note E t j kind payload r).1
  unfolding note
  note-Has P Q kind payload r keep h =
      let turn : Turn = E.turns noting r.calls in
      let k =
        Has-run t j (may noting r.calls) P Q r.store turn.others keep (gentle noting r.calls) h in
      rw (or_raise_state E t j (call E t j noting (λ now s. append_event t j kind payload now s) r))
        (append_event-Has t j kind payload turn.now Q (run r.store turn.others) k)

  pub note_answer :
      (P : Job → Type 0) (kind : String) (payload : Fields) (r : Run E.registry)
      → HasRun E t j P r
      → (e : Event) × ((note E t j kind payload r).0 ≡ done e)
  unfolding note
  note_answer P kind payload r h =
      let turn : Turn = E.turns noting r.calls in
      let k =
        Has-run t j (may noting r.calls) P (λ _. Unit) r.store turn.others (λ _ _ _ _. tt)
          (gentle noting r.calls) h in
      let (e, said) =
        append_event_answer t j kind payload turn.now (λ _. Unit) (run r.store turn.others) k in
      rw said (e, refl)

  -- A claim starts the job, or leaves it as it is where it may not be started.
  pub claim-Has :
      (P Q : Job → Type 0) (q : Bool) (r : Run E.registry)
      → ((x y : Job) → Kept (may claiming r.calls) x y → P x → Q y)
      → HasRun E t j P r
      → (((x : Job) × ((claim E t j q r).0 ≡ done (some x)))
          × ((y : Job) × Q y × (ready (expected_status q) y ≡ true))
          × HasRun E t j (HasStatus running) (claim E t j q r).1)
        ⊎ (((claim E t j q r).0 ≡ done none)
            × HasRun E t j (λ y. Q y × (ready (expected_status q) y ≡ false)) (claim E t j q r).1)
  unfolding claim
  claim-Has P Q q r keep h =
      let turn : Turn = E.turns claiming r.calls in
      let s = run r.store turn.others in
      let k =
        Has-run t j (may claiming r.calls) P Q r.store turn.others keep (gentle claiming r.calls)
          h in
      let (answer, later) = mark_running_claim t j q turn.now s k.well_formed in
      let w = mark_running-IsWellFormed t j q turn.now s k.well_formed in
      elim (Bool-cases (ready (expected_status q) k.job)) [
        | inl go ↦
            let made : claimed (expected_status q) turn.now (get t j s)
                ≡ some (started turn.now k.job) =
              ap (claimed (expected_status q) turn.now) k.found ∙ rw go refl in
            let said : (mark_running t j q turn.now s).0 ≡ ok (some (started turn.now k.job)) =
              answer ∙ ap ok made in
            rw said (
              inl (
                (started turn.now k.job, refl),
                (k.job, k.holds, go),
                record {
                  well_formed = w;
                  job = started turn.now k.job;
                  found = later ∙ rw made refl;
                  holds = refl;
                },
              ))
        | inr stop ↦
            let made : claimed (expected_status q) turn.now (get t j s) ≡ none =
              ap (claimed (expected_status q) turn.now) k.found ∙ rw stop refl in
            let said : (mark_running t j q turn.now s).0 ≡ ok none = answer ∙ ap ok made in
            rw said (
              inr (
                refl,
                record {
                  well_formed = w;
                  job = k.job;
                  found = later ∙ (rw made k.found);
                  holds = (k.holds, stop);
                },
              ))
      ]
