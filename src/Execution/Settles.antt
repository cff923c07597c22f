-- ===== src/Execution/Settles.antt =====
-- How an execution ends.
use shared_integration.Prelude.{
  ℕ, zero, suc, ◌+◌, ◌-◌, ◌<>◌, ◌≤◌, String, ◌≡◌, refl, ap, subst, ◌∙◌, ◌⊎◌, inl, inr, Bool, true,
  false, Option, none, some, arith, ltb, ◌==◌, Bool-cases,
}
use shared_integration.Json.{Fields}
use shared_integration.Jobs.{Job, queued, running, failed, cancelled, status_eq}
use shared_integration.Jobs.Sqlite.{expected_status}
use shared_integration.Jobs.Sqlite.Rows.{ready}
use shared_integration.Execution.{
  Executor, Call, looking, claiming, Run, Scan, Done, look, claim, attempt_body, status_only,
  failing,
}
use shared_integration.Execution.Attempts.{started_job, looked_up, attempts, with_adapter, execute}
use shared_integration.Execution.Gentle.{all_gentle, Kept}
use shared_integration.Execution.Body.{running-Kept, weaken, Running, attempt_body-Post}
use shared_integration.Execution.Calls.{HasRun, HasStatus, look-Has, claim-Has}
use shared_integration.Execution.Ends.{
  IsSettled, EndsWell, IsWaiting, terminal_of, Ends, end_with-Ends, conclude-Ends,
}

module _ (E : Executor) (t j : String) (may : Call → ℕ → Bool)
    (gentle : (c : Call) (n : ℕ) → all_gentle (may c n) t j (E.turns c n).others ≡ true) where
  started-Ends :
      (scans : ℕ → Fields → Scan E.registry.Finding) (k : ℕ)
      (again : Run E.registry → Done Unit × Run E.registry) (payload : Fields) (x : Job)
      (r : Run E.registry)
      → E.stopped_asleep k ≡ false
      → (ltb k E.max_attempts ≡ true
          → (r' : Run E.registry) → Running E t j may gentle r'
          → Ends E t j may gentle (again r'))
      → Running E t j may gentle r
      → Ends E t j may gentle (started_job E t j scans k again payload (some x) r)
  started-Ends scans k again payload x r awake more h =
      conclude-Ends E t j may gentle k again (attempt_body E t j (scans k payload) r).0
        (attempt_body E t j (scans k payload) r).1 awake more
        (attempt_body-Post E t j may gentle (scans k payload) r h)

  Kept-of : (b : Bool) (x y z : Job) → Kept b y z → y ≡ x → Kept b x z
  Kept-of b x y z k e = subst (λ w. Kept b w z) e k

  -- A claim is refused to a job that another process has cancelled.
  refused_lem :
      (b : Bool) (x y : Job) (k : ℕ)
      → Kept b x y
      → x.cancel_requested ≡ false
      → ((x.status ≡ queued) × (k ≡ 1)) ⊎ ((x.status ≡ running) × (2 ≤ k))
      → k ≤ E.max_attempts
      → ready (expected_status (k == 1)) y ≡ false
      → (y.status ≡ cancelled)
        ⊎ ((y.status ≡ running) × (y.cancel_requested ≡ true) × (b ≡ true) × (2 ≤ E.max_attempts))
  refused_lem b x y k kept unasked phase bound unready =
      let s = kept.status in let f = kept.flag in ground (arith, s, f, phase, unready)

  refused-Ends :
      (n : ℕ) (x y : Job) (k : ℕ)
      → Kept (may claiming n) x y
      → x.cancel_requested ≡ false
      → ((x.status ≡ queued) × (k ≡ 1)) ⊎ ((x.status ≡ running) × (2 ≤ k))
      → k ≤ E.max_attempts
      → ready (expected_status (k == 1)) y ≡ false
      → IsSettled E may y
  refused-Ends n x y k kept unasked phase bound unready =
      elim (refused_lem (may claiming n) x y k kept unasked phase bound unready) [
        | inl over ↦ terminal_of E may cancelled y refl over
        | inr (live, flag, late, two) ↦ inr (live, flag, (n, late), two)
      ]

  looked_up-Ends :
      (scans : ℕ → Fields → Scan E.registry.Finding) (k : ℕ)
      (again : Run E.registry → Done Unit × Run E.registry) (x : Job) (r : Run E.registry)
      → E.stopped_asleep k ≡ false
      → (ltb k E.max_attempts ≡ true
          → (r' : Run E.registry) → Running E t j may gentle r'
          → Ends E t j may gentle (again r'))
      → k ≤ E.max_attempts
      → ((x.status ≡ queued) × (k ≡ 1)) ⊎ ((x.status ≡ running) × (2 ≤ k))
      → HasRun E t j (λ y. y ≡ x) r
      → Ends E t j may gentle (looked_up E t j scans k again (some x) r)
  looked_up-Ends scans k again x r awake more bound phase h =
      let live : status_eq x.status cancelled ≡ false = ground (arith, phase) in
      elim (Bool-cases x.cancel_requested) [
        | inl flag ↦
            rw (live, flag)
              (end_with-Ends E t j may gentle (λ y. y ≡ x) (status_only cancelled) r refl h)
        | inr unasked ↦
            elim (claim-Has E t j may gentle (λ y. y ≡ x) (Kept (may claiming r.calls) x) (k == 1) r
              (λ y z kept e. Kept-of (may claiming r.calls) x y z kept e) h) [
                | inl (z, was, h') ↦
                    rw (live, unasked, z.1)
                      (started-Ends scans k again x.payload z.0 (claim E t j (k == 1) r).1 awake
                        more h')
                | inr (said, h') ↦
                    rw (live, unasked, said)
                      (
                        inl refl,
                        weaken E t j
                            (λ y.
                              Kept (may claiming r.calls) x y
                              × (ready (expected_status (k == 1)) y ≡ false))
                            (IsSettled E may) (claim E t j (k == 1) r).1
                            (λ y p. refused-Ends r.calls x y k p.0 unasked phase bound p.1) h',
                      )
              ]
      ]

  -- An attempt after the first, with `left` rounds to come.
  later-Ends :
      (scans : ℕ → Fields → Scan E.registry.Finding) (left k : ℕ) (r : Run E.registry)
      → ((n : ℕ) → E.stopped_asleep n ≡ false)
      → left + k ≡ E.max_attempts + 1
      → 2 ≤ k
      → k ≤ E.max_attempts
      → Running E t j may gentle r
      → Ends E t j may gentle (attempts E t j scans left k r)
  unfolding attempts
  later-Ends scans zero k r awake sum later bound h = ground (arith, sum, bound)
  later-Ends scans (suc left) k r awake sum later bound h =
      let (x, seen, is_running, h') =
        look-Has E t j may gentle (HasStatus running) (HasStatus running) r
          (running-Kept (may looking r.calls)) h in
      rw seen (
        looked_up-Ends scans k (attempts E t j scans left (k + 1)) x (look E t j r).1 (awake k)
          (λ more r' go.
            later-Ends scans left (k + 1) r' awake (omega (arith, sum)) (omega (arith, later))
              (ground (arith, more)) go)
          bound (inr (is_running, later)) h')

  Kept-IsWaiting : (b : Bool) (x y : Job) → Kept b x y → IsWaiting x → IsWaiting y
  Kept-IsWaiting b x y k h = let s = k.status in ground (arith, s, h)

  first-Ends :
      (scans : ℕ → Fields → Scan E.registry.Finding) (left : ℕ) (r : Run E.registry)
      → ((n : ℕ) → E.stopped_asleep n ≡ false)
      → suc left ≡ E.max_attempts
      → HasRun E t j IsWaiting r
      → Ends E t j may gentle (attempts E t j scans (suc left) 1 r)
  unfolding attempts
  first-Ends scans left r awake all h =
      let (x, seen, is_waiting, h') =
        look-Has E t j may gentle IsWaiting IsWaiting r (Kept-IsWaiting (may looking r.calls)) h in
      elim is_waiting [
        | inl is_queued ↦ rw seen (
            looked_up-Ends scans 1 (attempts E t j scans left 2) x (look E t j r).1 (awake 1)
              (λ more r' go.
                later-Ends scans left 2 r' awake (omega (arith, all)) (omega arith)
                  (ground (arith, more)) go)
              (omega (arith, all)) (inl (is_queued, refl)) h')
        | inr is_cancelled ↦
            rw (seen, is_cancelled)
              (
                inl refl,
                weaken E t j (λ y. y ≡ x) (IsSettled E may) (look E t j r).1
                    (λ y e.
                      terminal_of E may cancelled y refl
                        (ap (λ (z : Job). z.status) e ∙ is_cancelled))
                    h',
              )
      ]

  with_adapter-Ends :
      (x : Job) (scans : Option (ℕ → Fields → Scan E.registry.Finding)) (r : Run E.registry)
      → ((n : ℕ) → E.stopped_asleep n ≡ false)
      → 1 ≤ E.max_attempts
      → HasRun E t j IsWaiting r
      → Ends E t j may gentle (with_adapter E t j x scans r)
  with_adapter-Ends x none r awake bound h =
      end_with-Ends E t j may gentle IsWaiting
        (failing failed "UNKNOWN_SOURCE" ("No adapter registered for " <> E.value x.source)) r refl
        h
  with_adapter-Ends x (some scans) r awake bound h =
      let all : suc (E.max_attempts - 1) ≡ E.max_attempts = omega (arith, bound) in
      subst (λ n. Ends E t j may gentle (attempts E t j scans n 1 r)) all
        (first-Ends scans (E.max_attempts - 1) r awake all h)

  -- Let `may c n` tell before which calls of the executor, by their kind and number, others may
  -- request the cancellation of the job. Where the job waits in the queue, the other processes
  -- neither claim nor settle it, they request its cancellation only where `may` tells, and no sleep
  -- between two attempts is cancelled, `execute` ends: it returns, or passes on the cancellation of
  -- its own task. The job then has a terminal status; unless there is more than one attempt and `may`
  -- allows a cancellation directly before a claim, after the look-up that precedes it: then the job
  -- may also be left running with its cancellation requested.
  pub execute-EndsWell :
      (r : Run E.registry)
      → ((n : ℕ) → E.stopped_asleep n ≡ false)
      → 1 ≤ E.max_attempts
      → HasRun E t j IsWaiting r
      → EndsWell E t j may (execute E t j r)
  unfolding execute
  execute-EndsWell r awake bound h =
      let (x, seen, is_waiting, h') =
        look-Has E t j may gentle IsWaiting IsWaiting r (Kept-IsWaiting (may looking r.calls)) h in
      elim is_waiting [
        | inl is_queued ↦
            rw (seen, is_queued)
              (with_adapter-Ends x (E.products x.source) (look E t j r).1 awake bound (
                weaken E t j (λ y. y ≡ x) IsWaiting (look E t j r).1
                  (λ y e. inl (ap (λ (z : Job). z.status) e ∙ is_queued)) h'))
        | inr is_cancelled ↦
            rw (seen, is_cancelled)
              (
                inl refl,
                weaken E t j (λ y. y ≡ x) (IsSettled E may) (look E t j r).1
                    (λ y e.
                      terminal_of E may cancelled y refl
                        (ap (λ (z : Job). z.status) e ∙ is_cancelled))
                    h',
              )
      ]
