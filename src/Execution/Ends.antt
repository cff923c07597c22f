-- ===== src/Execution/Ends.antt =====
-- How the handlers of an attempt end an execution.
use shared_integration.Prelude.{
  ℕ, ◌≤◌, String, ◌≡◌, refl, ap, ◌∙◌, ◌⊎◌, inl, inr, Bool, true, false, ◌&&◌, arith, ltb,
  Bool-cases,
}
use shared_integration.Jobs.{Status, Job, terminal, queued, running, succeeded, failed, cancelled}
use shared_integration.Jobs.Sqlite.{Outcome}
use shared_integration.Execution.{
  Executor, Call, looking, claiming, Run, Done, done, raise, job_cancelled, task_cancelled, failure,
  product, other, ProductError, look, settle, note, status_only, failing,
}
use shared_integration.Execution.Attempts.{end_with, stop, conclude, final_status, retry_payload}
use shared_integration.Execution.Gentle.{all_gentle}
use shared_integration.Execution.Body.{running-Kept, weaken, Running, Post, Succeeded, note-Running}
use shared_integration.Execution.Calls.{HasRun, HasStatus, look-Has, settle-Has, note_answer}

-- The end of an execution: the job has a terminal status; or it is running with its cancellation
-- requested, which takes a second attempt and a cancellation committed directly before a claim.
abbrev pub IsSettled : Executor → (Call → ℕ → Bool) → Job → Type 0
IsSettled E may x =
    (terminal x.status ≡ true)
    ⊎ ((x.status ≡ running)
        × (x.cancel_requested ≡ true)
        × ((n : ℕ) × (may claiming n ≡ true))
        × (2 ≤ E.max_attempts))

-- It returns, or passes on the cancellation of its own task.
abbrev pub EndsWell :
    (E : Executor) (t j : String) → (Call → ℕ → Bool) → Done Unit × Run E.registry → Type 0
EndsWell E t j may p =
    ((p.0 ≡ done tt) ⊎ (p.0 ≡ raise task_cancelled)) × HasRun E t j (IsSettled E may) p.1

pub terminal_of :
    (E : Executor) (may : Call → ℕ → Bool) (st : Status) (x : Job)
    → terminal st ≡ true
    → HasStatus st x
    → IsSettled E may x
terminal_of E may st x h e = inl (ap terminal e ∙ h)

-- A job that no attempt has started.
abbrev pub IsWaiting : Job → Type 0
IsWaiting x = (x.status ≡ queued) ⊎ (x.status ≡ cancelled)

module _ (E : Executor) (t j : String) (may : Call → ℕ → Bool)
    (gentle : (c : Call) (n : ℕ) → all_gentle (may c n) t j (E.turns c n).others ≡ true) where
  abbrev pub Ends : Done Unit × Run E.registry → Type 0
  Ends p = EndsWell E t j may p

  pub end_with-Ends :
      (P : Job → Type 0) (o : Outcome) (r : Run E.registry)
      → terminal o.status ≡ true
      → HasRun E t j P r
      → Ends (end_with E t j o r)
  end_with-Ends P o r over h =
      let ((x, said), k) = settle-Has E t j may gentle P o r h in
      rw said (
        inl refl,
        weaken E t j (HasStatus o.status) (IsSettled E may) (settle E t j o r).1
            (λ y. terminal_of E may o.status y over) k,
      )

  pub stop-Ends : (r : Run E.registry) → Running E t j may gentle r → Ends (stop E t j r)
  unfolding stop
  stop-Ends r h =
      let (x, seen, is_running, k) =
        look-Has E t j may gentle (HasStatus running) (HasStatus running) r
          (running-Kept (may looking r.calls)) h in
      let o : Outcome = status_only cancelled in
      let ((y, said), l) = settle-Has E t j may gentle (λ z. z ≡ x) o (look E t j r).1 k in
      rw (seen, is_running, said)
        (
          inr refl,
          weaken E t j (HasStatus cancelled) (IsSettled E may) (settle E t j o (look E t j r).1).1
              (λ z. terminal_of E may cancelled z refl) l,
        )

  -- What a failure of the product leads to.
  product-Ends :
      (k : ℕ) (p : ProductError) (again : Run E.registry → Done Unit × Run E.registry)
      (r : Run E.registry)
      → E.stopped_asleep k ≡ false
      → (ltb k E.max_attempts ≡ true
          → (r' : Run E.registry) → Running E t j may gentle r'
          → Ends (again r'))
      → Running E t j may gentle r
      → Ends (conclude E t j k again (raise (failure (product p))) r)
  product-Ends k p again r awake more h = elim (Bool-cases (p.retryable && ltb k E.max_attempts)) [
    | inl retried ↦
        let said = retry_payload E t j k p in
        let (e, written) = note_answer E t j may gentle (HasStatus running) "retrying" said r h in
        let left : ltb k E.max_attempts ≡ true = ground (arith, retried) in
        rw (retried, written, awake)
          (more left (note E t j "retrying" said r).1
            (note-Running E t j may gentle "retrying" said r h))
    | inr ended ↦
        let over : terminal (final_status E t j p) ≡ true = ground arith in
        rw ended (
          end_with-Ends (HasStatus running) (failing (final_status E t j p) p.code p.message) r over
            h)
  ]

  pub conclude-Ends :
      (k : ℕ) (again : Run E.registry → Done Unit × Run E.registry) (d : Done Unit)
      (r : Run E.registry)
      → E.stopped_asleep k ≡ false
      → (ltb k E.max_attempts ≡ true
          → (r' : Run E.registry) → Running E t j may gentle r'
          → Ends (again r'))
      → Post E t j may gentle (Succeeded E t j may gentle) d r
      → Ends (conclude E t j k again d r)
  conclude-Ends k again (done u) r awake more h = (
    inl refl,
    weaken E t j (HasStatus succeeded) (IsSettled E may) r (λ y. terminal_of E may succeeded y refl)
        h,
  )
  conclude-Ends k again (raise job_cancelled) r awake more h =
      end_with-Ends (HasStatus running) (status_only cancelled) r refl h
  conclude-Ends k again (raise task_cancelled) r awake more h = stop-Ends r h
  conclude-Ends k again (raise (failure (product p))) r awake more h =
      product-Ends k p again r awake more h
  conclude-Ends k again (raise (failure (other m))) r awake more h =
      end_with-Ends (HasStatus running) (failing failed "INTERNAL_ERROR" m) r refl h
