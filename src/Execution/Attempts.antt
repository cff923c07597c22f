-- ===== src/Execution/Attempts.antt =====
-- The loop of attempts of `JobExecutor.execute`, and what follows each of them.
use shared_integration.Prelude.{
  ℕ, zero, suc, ◌+◌, String, ◌<>◌, ◌&&◌, Option, none, some, ltb, ◌==◌, if◌then◌else◌,
}
use shared_integration.Json.{Fields, field, text, num, end}
use shared_integration.Jobs.{Status, failed, cancelled, timed_out, terminal, status_eq, Job}
use shared_integration.Jobs.Sqlite.{Outcome}
use shared_integration.Execution.{
  Executor, ProductError, product, other, job_cancelled, task_cancelled, failure, Done, done, raise,
  Scan, Run, ◌>>=◌, status_only, failing, look, settle, note, claim, attempt_body,
}

module _ (E : Executor) (t j : String) where
  -- A handler that ends the execution with a status.
  abbrev pub end_with : Outcome → Run E.registry → Done Unit × Run E.registry
  end_with o r = settle E t j o r >>= λ _ r'. (done tt, r')

  -- `except asyncio.CancelledError`
  abbrev pub stop_live : Option Job → Run E.registry → Done Unit × Run E.registry
  stop_live none r = (done tt, r)
  stop_live (some x) r =
      if terminal x.status then (done tt, r) else end_with (status_only cancelled) r

  unfoldable pub stop : Run E.registry → Done Unit × Run E.registry
  unfolding look settle
  stop r = let (x, r') = look E t j r in stop_live x r' >>= λ _ r''. (raise task_cancelled, r'')

  -- The sleep before the next attempt, after `retrying` is written.
  abbrev pub asleep :
      ℕ
      → (Run E.registry → Done Unit × Run E.registry)
      → Run E.registry
      → Done Unit × Run E.registry
  asleep k again r = if E.stopped_asleep k then (raise task_cancelled, r) else again r

  abbrev pub final_status : ProductError → Status
  final_status p = if p.timeout then timed_out else failed

  abbrev pub retry_payload : ℕ → ProductError → Fields
  retry_payload k p =
      field "attempt" (num k) (field "next_attempt" (num (k + 1)) (field "code" (text p.code) end))

  -- What follows the body of attempt `k`; `again` is the next attempt.
  abbrev pub conclude :
      ℕ
      → (Run E.registry → Done Unit × Run E.registry)
      → Done Unit
      → Run E.registry
      → Done Unit × Run E.registry
  conclude k again (done _) r = (done tt, r)
  conclude k again (raise job_cancelled) r = end_with (status_only cancelled) r
  conclude k again (raise task_cancelled) r = stop r
  conclude k again (raise (failure (product p))) r =
      if p.retryable && ltb k E.max_attempts
      then (note E t j "retrying" (retry_payload k p) r >>= λ _ r'. asleep k again r')
      else end_with (failing (final_status p) p.code p.message) r
  conclude k again (raise (failure (other m))) r = end_with (failing failed "INTERNAL_ERROR" m) r

  -- The body of the loop, once the job is claimed, or is not.
  abbrev pub started_job :
      (ℕ → Fields → Scan E.registry.Finding)
      → ℕ
      → (Run E.registry → Done Unit × Run E.registry)
      → Fields
      → Option Job
      → Run E.registry
      → Done Unit × Run E.registry
  started_job scans k again payload none r = (done tt, r)
  started_job scans k again payload (some _) r =
      let (out, r') = attempt_body E t j (scans k payload) r in conclude k again out r'

  abbrev pub looked_up :
      (ℕ → Fields → Scan E.registry.Finding)
      → ℕ
      → (Run E.registry → Done Unit × Run E.registry)
      → Option Job
      → Run E.registry
      → Done Unit × Run E.registry
  looked_up scans k again none r = (done tt, r)
  looked_up scans k again (some x) r =
      if status_eq x.status cancelled
      then (done tt, r)
      else if x.cancel_requested
      then end_with (status_only cancelled) r
      else (claim E t j (k == 1) r >>= λ started r'. started_job scans k again x.payload started r')

  -- `for attempt in range(1, max_attempts + 1)`, with the rounds left.
  unfoldable pub attempts :
      (ℕ → Fields → Scan E.registry.Finding) → ℕ → ℕ → Run E.registry → Done Unit × Run E.registry
  unfolding attempt_body stop look claim settle note
  attempts scans zero k r = (done tt, r)
  attempts scans (suc left) k r =
      let (x, r') = look E t j r in looked_up scans k (attempts scans left (k + 1)) x r'

  abbrev pub with_adapter :
      Job
      → Option (ℕ → Fields → Scan E.registry.Finding)
      → Run E.registry
      → Done Unit × Run E.registry
  with_adapter x none r =
      end_with (failing failed "UNKNOWN_SOURCE" ("No adapter registered for " <> E.value x.source))
        r
  with_adapter x (some scans) r = attempts scans E.max_attempts 1 r

  abbrev pub known_job : Option Job → Run E.registry → Done Unit × Run E.registry
  known_job none r = (done tt, r)
  known_job (some x) r =
      if terminal x.status then (done tt, r) else with_adapter x (E.products x.source) r

  -- `execute`
  unfoldable pub execute : Run E.registry → Done Unit × Run E.registry
  unfolding look settle attempts
  execute r = let (x, r') = look E t j r in known_job x r'
