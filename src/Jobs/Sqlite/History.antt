-- ===== src/Jobs/Sqlite/History.antt =====
-- What no call can undo: a job stays, keeps what it was created with, and a requested cancellation
-- and a first claim are for good.
use mathlib.Core.Option
use shared_integration.Prelude.{
  ℕ, ◌≤◌, String, ◌≡◌, refl, ap, ◌∙◌, Bool, true, false, ◌||◌, some, List, [], ◌∷◌, ◌++◌, arith,
  any, count, update, applied, Bool-cases, Option-cases, inl, inr, ◌==◌,
}
use shared_integration.Json.{Fields}
use shared_integration.Jobs.{Status, Job, Event, terminal, status_eq, queued}
use shared_integration.Jobs.Sqlite.{
  Store, NewJob, Outcome, is_job, clashes, queued_row, started, settled, cancelling, cancel_status,
  create, insert, mark_running, transition, append_event, request_cancel, set_dispatch_id,
  claimable, expected_status, get, or_else, idempotent_match,
}
use shared_integration.Jobs.Sqlite.Rows.{KeepsKeys}
use shared_integration.Jobs.Sqlite.Lookup.{get-update, get_of_no_clash, get-insert}
use shared_integration.Jobs.Sqlite.Invariant.{
  Op, creates, claims, settles, notes, dispatches, cancels, step, run, started-KeepsKeys,
  settled-KeepsKeys, cancelling-KeepsKeys,
}

-- `transition` is the one call that could put a job back into the queue; no caller does so.
abbrev pub requeues : Op → Bool
requeues (settles t j o now) = status_eq o.status queued
requeues _ = false

abbrev pub any_requeue : List Op → Bool
any_requeue [] = false
any_requeue (o ∷ os) = requeues o || any_requeue os

-- `y` is what `x` became; `r` says whether it may have been put back into the queue.
pub record Later (r : Bool) (x y : Job) : Type 0 where
  pub source : y.source ≡ x.source
  pub payload : y.payload ≡ x.payload
  pub key : y.idempotency_key ≡ x.idempotency_key
  pub created : y.created_at ≡ x.created_at
  pub flag : x.cancel_requested ≡ true → y.cancel_requested ≡ true
  pub attempts : x.attempt ≤ y.attempt
  pub queue : r ≡ false → y.status ≡ queued → x.status ≡ queued

Later-refl : (r : Bool) (x : Job) → Later r x x
Later-refl r x = record {
  source = refl;
  payload = refl;
  key = refl;
  created = refl;
  flag = λ h. h;
  attempts = omega arith;
  queue = λ _ h. h;
}

Later-trans : (r q : Bool) (x y z : Job) → Later r x y → Later q y z → Later (r || q) x z
Later-trans r q x y z a b = record {
  source = b.source ∙ a.source;
  payload = b.payload ∙ a.payload;
  key = b.key ∙ a.key;
  created = b.created ∙ a.created;
  flag = λ h. b.flag (a.flag h);
  attempts = omega (arith, a.attempts, b.attempts);
  queue = λ e h. ground (arith, e, h, a.queue, b.queue);
}

-- The job of `t` and `j` after a call, if it was `x` before.
abbrev pub Becomes : String → String → Bool → Job → Store → Type 0
Becomes t j r x s = (y : Job) × (get t j s ≡ some y) × Later r x y

by_update :
    (t j : String) (r : Bool) (x : Job) (q : Job → Bool) (f : Job → Job) (events : List Event)
    (s : Store)
    → KeepsKeys f
    → get t j s ≡ some x
    → Later r x (f x)
    → Becomes t j r x (record { jobs = update q f s.jobs; events = events })
by_update t j r x q f events s k e l = (
  applied q f x,
  get-update t j q f events s k ∙ ap (Option.map (applied q f)) e,
  elim (Bool-cases (q x)) [ inl h ↦ rw h l | inr h ↦ rw h (Later-refl r x) ],
)

by_insert :
    (t j : String) (r : Bool) (x row : Job) (events : List Event) (s : Store)
    → any (clashes row) s.jobs ≡ false
    → get t j s ≡ some x
    → Becomes t j r x (record { jobs = s.jobs ++ row ∷ []; events = events })
by_insert t j r x row events s h e = elim (Bool-cases (is_job t j row)) [
  | inl same ↦ absurd (cc (e, get_of_no_clash t j row s h same))
  | inr other ↦ (x, get-insert t j row events s h ∙ rw other e, Later-refl r x)
]

started-Later : (x : Job) (now : ℕ) → Later false x (started now x)
started-Later x now = record {
  source = refl;
  payload = refl;
  key = refl;
  created = refl;
  flag = λ h. h;
  attempts = omega arith;
  queue = λ _ h. cc;
}

settled-Later :
    (x : Job) (o : Outcome) (now n : ℕ) → Later (status_eq o.status queued) x (settled o now n x)
settled-Later x o now n = record {
  source = refl;
  payload = refl;
  key = refl;
  created = refl;
  flag = λ h. h;
  attempts = omega arith;
  queue = λ e h. ground (arith, e, h);
}

cancelling-Later :
    (x : Job) (st : Status) (now : ℕ) → Later false x (cancelling (cancel_status st) now x)
cancelling-Later x st now = record {
  source = refl;
  payload = refl;
  key = refl;
  created = refl;
  flag = λ h. refl;
  attempts = omega arith;
  queue = λ _ h. ground (arith, h);
}

insert-Becomes :
    (t j : String) (x : Job) (new : NewJob) (now : ℕ) (id : String) (s : Store)
    → get t j s ≡ some x
    → Becomes t j false x (insert new now id s).1
unfolding insert
insert-Becomes t j x new now id s e =
    elim (Bool-cases (any (clashes (queued_row new now id)) s.jobs)) [
      | inl h ↦ rw h (x, e, Later-refl false x)
      | inr h ↦ rw h (by_insert t j false x (queued_row new now id) _ s h e)
    ]

create-Becomes :
    (t j : String) (x : Job) (new : NewJob) (now : ℕ) (id : String) (s : Store)
    → get t j s ≡ some x
    → Becomes t j false x (create new now id s).1
unfolding create
create-Becomes t j x new now id s e = elim (Option-cases (idempotent_match new s)) [
  | inl h ↦ rw (h, create) (insert-Becomes t j x new now id s e)
  | inr (y, h) ↦ rw (h, create) (x, e, Later-refl false x)
]

mark_running-Becomes :
    (t j : String) (x : Job) (u i : String) (q : Bool) (now : ℕ) (s : Store)
    → get t j s ≡ some x
    → Becomes t j false x (mark_running u i q now s).1
unfolding mark_running
mark_running-Becomes t j x u i q now s e =
    let go = λ (events : List Event).
      by_update t j false x (claimable u i (expected_status q)) (started now) events s
        (started-KeepsKeys now) e (started-Later x now) in
    elim (Bool-cases (count (claimable u i (expected_status q)) s.jobs == 1)) [
      | inl h ↦ rw h (go _)
      | inr h ↦ rw h (go _)
    ]

transition-Becomes :
    (t j : String) (x : Job) (u i : String) (o : Outcome) (now : ℕ) (s : Store)
    → get t j s ≡ some x
    → Becomes t j (status_eq o.status queued) x (transition u i o now s).1
unfolding transition
transition-Becomes t j x u i o now s e = elim (Option-cases (get u i s)) [
  | inl h ↦ rw (h, transition) (x, e, Later-refl _ x)
  | inr (y, h) ↦
      rw (h, transition)
        (by_update t j _ x (is_job u i) (settled o now (or_else o.result_count y.result_count)) _ s
          (settled-KeepsKeys o now _) e (settled-Later x o now _))
]

request_cancel-Becomes :
    (t j : String) (x : Job) (u i : String) (now : ℕ) (s : Store)
    → get t j s ≡ some x
    → Becomes t j false x (request_cancel u i now s).1
unfolding request_cancel
request_cancel-Becomes t j x u i now s e = elim (Option-cases (get u i s)) [
  | inl h ↦ rw (h, request_cancel) (x, e, Later-refl false x)
  | inr (y, h) ↦
      rw (h, request_cancel)
        (elim (Bool-cases (terminal y.status)) [
          | inl done ↦ rw done (x, e, Later-refl false x)
          | inr live ↦ rw live (
              by_update t j false x (is_job u i) (cancelling (cancel_status y.status) now) _ s
                (cancelling-KeepsKeys _ now) e (cancelling-Later x y.status now))
        ])
]

append_event-Becomes :
    (t j : String) (x : Job) (u i kind : String) (payload : Fields) (now : ℕ) (s : Store)
    → get t j s ≡ some x
    → Becomes t j false x (append_event u i kind payload now s).1
unfolding append_event
append_event-Becomes t j x u i kind payload now s e = elim (Option-cases (get u i s)) [
  | inl h ↦ rw (h, append_event) (x, e, Later-refl false x)
  | inr (y, h) ↦ rw (h, append_event) (x, unfold get in e, Later-refl false x)
]

step-Becomes :
    (t j : String) (x : Job) (s : Store) (o : Op)
    → get t j s ≡ some x
    → Becomes t j (requeues o) x (step s o)
unfolding step set_dispatch_id
step-Becomes t j x s (creates new now id) e = create-Becomes t j x new now id s e
step-Becomes t j x s (claims u i q now) e = mark_running-Becomes t j x u i q now s e
step-Becomes t j x s (settles u i o now) e = transition-Becomes t j x u i o now s e
step-Becomes t j x s (notes u i kind payload now) e =
    append_event-Becomes t j x u i kind payload now s e
step-Becomes t j x s (dispatches u i d now) e =
    by_update t j false x (is_job u i) _ s.events s
      (record { id = λ x. refl; tenant = λ x. refl; key = λ x. refl }) e
      (record {
        source = refl;
        payload = refl;
        key = refl;
        created = refl;
        flag = λ h. h;
        attempts = omega arith;
        queue = λ _ h. h;
      })
step-Becomes t j x s (cancels u i now) e = request_cancel-Becomes t j x u i now s e

-- Whatever calls follow, a job stays in the store with the source, payload, idempotency key and
-- creation time that it has; its attempts never fall; a requested cancellation stays requested; and
-- if no call puts a job back into the queue, a job that has left the queue does not return to it.
pub run-Becomes :
    (t j : String) (x : Job) (s : Store) (os : List Op)
    → get t j s ≡ some x
    → Becomes t j (any_requeue os) x (run s os)
unfolding run
run-Becomes t j x s [] e = (x, e, Later-refl false x)
run-Becomes t j x s (o ∷ os) e =
    let (y, found, first) = step-Becomes t j x s o e in
    let (z, last, rest) = run-Becomes t j y (step s o) os found in
    (z, last, Later-trans (requeues o) (any_requeue os) x y z first rest)
