-- ===== src/Execution.antt =====
-- `JobExecutor` of src/shared_integration/execution.py over a job store that other processes write.
-- Before each call of the repository the others commit what `turns` says, so that the turns range
-- over all interleavings. Coroutines of one process take turns at the same calls.
pub mod Gentle
pub mod Calls
pub mod Body
pub mod Attempts
pub mod Ends
pub mod Settles
pub mod Redelivery
use shared_integration.Prelude.{
  ℕ, zero, suc, ◌+◌, String, ◌<>◌, Bool, true, false, not, ◌&&◌, ◌||◌, Option, none, some, List, [],
  ◌∷◌, ◌++◌, ltb, ◌==◌, if◌then◌else◌, length,
}
use shared_integration.Json.{Fields, field, text, num, end}
use shared_integration.Result.{Result, ok, err, Error}
use shared_integration.Core.{Source}
use shared_integration.Jobs.{
  Status, succeeded, failed, cancelled, timed_out, terminal, status_eq, Job, Event,
}
use shared_integration.Jobs.Sqlite.{Store, Outcome, get, mark_running, transition, append_event}
use shared_integration.Jobs.Sqlite.Invariant.{Op, run}

-- `ProductCLIError` and its subclasses, by what the executor reads of them.
pub record ProductError : Type 0 where
  pub code : String
  pub message : String
  pub retryable : Bool
  pub timeout : Bool

-- An exception of the adapter or of the registry.
pub data Failure : Type 0 where
  product : ProductError → Failure
  other : String → Failure

-- What leaves a statement of the executor.
pub data Raised : Type 0 where
  job_cancelled task_cancelled : Raised
  failure : Failure → Raised

pub data Done (A : Type 0) : Type 0 where
  done : A → Done A
  raise : Raised → Done A

-- The calls of the repository that an executor makes.
pub data Call : Type 0 where
  looking claiming settling noting : Call

-- What awaiting a call of the registry gives: the end of the call, what it raises, or a cancellation
-- of the executor's task.
pub data Stored : Type 0 where
  stored : Stored
  refused : Error → Stored
  cut_off : Stored

-- The registry, its findings and its correlations, whose types the executor does not look into.
pub record Registry : Type 1 where
  pub State : Type 0
  pub Finding : Type 0
  pub Correlation : Type 0
  pub findings : State → List Finding
  pub add : Finding → String → State → Stored × State
  pub add_correlation : Correlation → State → Stored × State
  pub finding_payload : Finding → Fields
  pub correlation_payload : Correlation → Fields

-- A scan of an adapter: the polls at which it still runs, how it ends, and what awaiting it after
-- `cancel` raises in place of `CancelledError`. `stopped` is a cancellation of the executor itself.
pub data Ending (F : Type 0) : Type 0 where
  found : List F → Ending F
  crashed : Failure → Ending F
  stopped : Ending F

pub record Scan (F : Type 0) : Type 0 where
  pub polls : ℕ
  pub ending : Ending F
  pub on_cancel : Option Failure

-- What the other processes commit before a call, and the time of the call.
pub record Turn : Type 0 where
  pub others : List Op
  pub now : ℕ

pub record Run (R : Registry) : Type 0 where
  pub store : Store
  pub registry : R.State
  pub calls : ℕ

abbrev pub status_only : Status → Outcome
status_only st = record {
  status = st;
  result_count = none;
  error_code = none;
  error_message = none;
}

abbrev pub failing : Status → String → String → Outcome
failing st code message = record {
  status = st;
  result_count = none;
  error_code = some code;
  error_message = some message;
}

abbrev pub flagged : Option Job → Bool
flagged none = false
flagged (some x) = x.cancel_requested

-- The parameters of an executor: the turns of the others before each of its calls, which are told by
-- their kind and counted, the registry, the texts of an exception
-- and of a source, the adapter of each source with its scan per attempt, the rules, the limit of attempts,
-- and the attempts after which the executor's task is cancelled during the sleep before the next.
pub record Executor : Type 1 where
  pub registry : Registry
  pub turns : Call → ℕ → Turn
  pub message : Error → String
  pub value : Source → String
  pub products : Source → Option (ℕ → Fields → Scan registry.Finding)
  pub rules : List (registry.Finding → List registry.Finding → List registry.Correlation)
  pub max_attempts : ℕ
  pub stopped_asleep : ℕ → Bool

module _ {R : Registry} {A B : Type 0} where
  abbrev pub after : Done A → (A → Run R → Done B × Run R) → Run R → Done B × Run R
  after (done a) f r = f a r
  after (raise e) f r = (raise e, r)

  -- The statement that follows, unless this one raises.
  infixl 5 ◌>>=◌
  abbrev pub ◌>>=◌ : Done A × Run R → (A → Run R → Done B × Run R) → Done B × Run R
  m >>= f = after m.0 f m.1

module _ (E : Executor) (t j : String) where
  -- One call of the repository.
  abbrev pub call :
      {A : Type 0} → Call → (ℕ → Store → A × Store) → Run E.registry → A × Run E.registry
  call c f r =
      let turn : Turn = E.turns c r.calls in
      let (a, s) = f turn.now (run r.store turn.others) in
      (a, record r { store = s; calls = suc r.calls })

  -- An exception of the repository is none of the executor's own.
  abbrev pub or_raise : {A : Type 0} → Result A × Run E.registry → Done A × Run E.registry
  or_raise (ok a, r) = (done a, r)
  or_raise (err e, r) = (raise (failure (other (E.message e))), r)

  unfoldable pub look : Run E.registry → Option Job × Run E.registry
  look = call looking λ now s. (get t j s, s)

  unfoldable pub settle : Outcome → Run E.registry → Done Job × Run E.registry
  settle o r = or_raise (call settling (λ now s. transition t j o now s) r)

  unfoldable pub note : String → Fields → Run E.registry → Done Event × Run E.registry
  note kind payload r = or_raise (call noting (λ now s. append_event t j kind payload now s) r)

  unfoldable pub claim : Bool → Run E.registry → Done (Option Job) × Run E.registry
  claim require_queued r =
      or_raise (call claiming (λ now s. mark_running t j require_queued now s) r)

  -- `_scan_with_cancellation`, from a poll on.
  abbrev pub interrupted : Raised → Option Failure → Raised
  interrupted e none = e
  interrupted e (some f) = failure f

  -- Awaiting a scan that has ended; `true` says that a cancellation was seen at the last poll.
  abbrev pub awaited : Ending E.registry.Finding → Bool → Done (List E.registry.Finding)
  awaited (found fs) flag = if flag then raise job_cancelled else done fs
  awaited (crashed e) flag = raise (failure e)
  awaited stopped flag = raise task_cancelled

  unfoldable pub last_poll :
      Option Failure
      → Ending E.registry.Finding
      → Run E.registry
      → Done (List E.registry.Finding) × Run E.registry
  unfolding look
  last_poll on_cancel stopped r = (raise (interrupted task_cancelled on_cancel), r)
  last_poll on_cancel (found fs) r = let (x, r') = look r in (awaited (found fs) (flagged x), r')
  last_poll on_cancel (crashed e) r = let (x, r') = look r in (awaited (crashed e) (flagged x), r')

  unfoldable pub poll :
      ℕ → Scan E.registry.Finding → Run E.registry → Done (List E.registry.Finding) × Run E.registry
  unfolding last_poll
  poll zero scan r = last_poll scan.on_cancel scan.ending r
  poll (suc n) scan r =
      let (x, r') = look r in
      let rest = poll n scan r' in
      if flagged x then (raise (interrupted job_cancelled scan.on_cancel), r') else rest

  abbrev pub registered : Stored → Done Unit
  registered stored = done tt
  registered (refused e) = raise (failure (other (E.message e)))
  registered cut_off = raise task_cancelled

  abbrev pub register :
      (E.registry.State → Stored × E.registry.State) → Run E.registry → Done Unit × Run E.registry
  register f r = (registered (f r.registry).0, record r { registry = (f r.registry).1 })

  -- `_store_results`
  unfoldable pub store_correlations :
      List E.registry.Correlation → Run E.registry → Done Unit × Run E.registry
  store_correlations [] r = (done tt, r)
  store_correlations (c ∷ cs) r = register (E.registry.add_correlation c) r >>= λ _ r'.
      note "correlation" (E.registry.correlation_payload c) r' >>= λ _ r''.
      store_correlations cs r''

  unfoldable pub apply_rules :
      List (E.registry.Finding → List E.registry.Finding → List E.registry.Correlation)
      → E.registry.Finding
      → List E.registry.Finding
      → Run E.registry
      → Done Unit × Run E.registry
  unfolding store_correlations
  apply_rules [] f existing r = (done tt, r)
  apply_rules (rule ∷ rules) f existing r =
      store_correlations (rule f existing) r >>= λ _ r'. apply_rules rules f existing r'

  unfoldable pub store_each :
      List E.registry.Finding
      → List E.registry.Finding
      → Run E.registry
      → Done Unit × Run E.registry
  unfolding apply_rules
  store_each [] existing r = (done tt, r)
  store_each (f ∷ fs) existing r = register (E.registry.add f j) r >>= λ _ r1.
      note "finding" (E.registry.finding_payload f) r1 >>= λ _ r2.
      apply_rules E.rules f existing r2 >>= λ _ r3. store_each fs (existing ++ f ∷ []) r3

  unfoldable pub store_results :
      List E.registry.Finding → Run E.registry → Done Unit × Run E.registry
  unfolding store_each
  store_results fs r = store_each fs (E.registry.findings r.registry) r

  -- The body of `try`.
  unfoldable pub attempt_body :
      Scan E.registry.Finding → Run E.registry → Done Unit × Run E.registry
  unfolding poll store_results settle
  attempt_body scan r = poll scan.polls scan r >>= λ fs r1. store_results fs r1 >>= λ _ r2.
      settle
        (record {
          status = succeeded;
          result_count = some (length fs);
          error_code = none;
          error_message = none;
        })
        r2
      >>= λ _ r3. (done tt, r3)
