-- ===== src/Jobs/Sqlite/Exclusion.antt =====
-- A job is run by one worker at most, and never after its cancellation was requested.
use shared_integration.Prelude.{
  ℕ, String, ◌≡◌, sym, ap, subst, ◌∙◌, Bool, true, false, Option, none, some, List, arith,
}
use shared_integration.Result.{ok}
use shared_integration.Jobs.{Job, status_eq, queued}
use shared_integration.Jobs.Sqlite.{Store, mark_running, get, expected_status}
use shared_integration.Jobs.Sqlite.Invariant.{
  Op, run, IsWellFormed, run-IsWellFormed, mark_running-IsWellFormed,
}
use shared_integration.Jobs.Sqlite.Claims.{claimed, mark_running_claim}
use shared_integration.Jobs.Sqlite.History.{any_requeue, run-Becomes}

-- Once the cancellation of a job in a well-formed store is requested, `mark_running` never
-- starts it, neither from the queue nor for a further attempt, whatever calls come in between.
pub cancelled_never_starts :
    (t j : String) (x : Job) (s : Store) (os : List Op) (q : Bool) (now : ℕ)
    → IsWellFormed s
    → get t j s ≡ some x
    → x.cancel_requested ≡ true
    → (mark_running t j q now (run s os)).0 ≡ ok none
cancelled_never_starts t j x s os q now w e flag =
    let (y, found, later) = run-Becomes t j x s os e in
    (mark_running_claim t j q now (run s os) (run-IsWellFormed s os w)).0
    ∙ ap (λ o. ok (claimed (expected_status q) now o)) found
    ∙ ground (arith, later.flag flag)

-- In a well-formed store, one worker at most claims a job from the queue: after a claim that
-- succeeded, every later claim that requires a queued job finds none, whatever calls come in
-- between, as long as none of them settles a job as queued.
pub claim_once :
    (t j : String) (x : Job) (now later : ℕ) (s s' : Store) (os : List Op)
    → IsWellFormed s
    → mark_running t j true now s ≡ (ok (some x), s')
    → any_requeue os ≡ false
    → (mark_running t j true later (run s' os)).0 ≡ ok none
claim_once t j x now later s s' os w h quiet =
    let (r, found) = mark_running_claim t j true now s w in
    let made : claimed queued now (get t j s) ≡ some x = ground (arith, r, h) in
    let here : get t j s' ≡ some x = ap (λ p. get t j p.1) (sym h) ∙ found ∙ rw made in
    let (y, still, became) = run-Becomes t j x s' os here in
    let out : status_eq x.status queued ≡ false = left (get t j s) made in
    (mark_running_claim t j true later (run s' os) (
      run-IsWellFormed s' os
        (subst (λ p. IsWellFormed p.1) h (mark_running-IsWellFormed t j true now s w)))).0
    ∙ ap (λ o. ok (claimed queued later o)) still
    ∙ ground (arith, out, became.queue quiet)
  where
    left : (o : Option Job) → claimed queued now o ≡ some x → status_eq x.status queued ≡ false
    left none e = absurd (cc e)
    left (some z) e = ground (arith, e)
