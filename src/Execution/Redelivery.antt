-- ===== src/Execution/Redelivery.antt =====
-- A job that is delivered again after its worker stopped.
use shared_integration.Prelude.{
  ℕ, zero, suc, String, ◌≡◌, refl, sym, subst, inl, inr, true, false, some, arith,
}
use shared_integration.Json.{Fields}
use shared_integration.Core.{Source}
use shared_integration.Jobs.{Job, running, status_eq, cancelled}
use shared_integration.Jobs.Sqlite.{expected_status}
use shared_integration.Jobs.Sqlite.Rows.{ready}
use shared_integration.Execution.{Executor, Call, Run, Scan, Done, done, look, claim}
use shared_integration.Execution.Attempts.{attempts, execute}
use shared_integration.Execution.Gentle.{all_gentle, Kept}
use shared_integration.Execution.Body.{weaken}
use shared_integration.Execution.Calls.{HasRun, look-Has, claim-Has}

-- Claimed by a worker, and not to be cancelled.
abbrev pub IsClaimed : Job → Type 0
IsClaimed x = (x.status ≡ running) × (x.cancel_requested ≡ false)

Kept-IsClaimed : (x y : Job) → Kept false x y → IsClaimed x → IsClaimed y
Kept-IsClaimed x y k (is_running, unasked) =
    let s = k.status in
    let f = k.flag in (ground (arith, s, is_running), ground (arith, f, unasked))

module _ (E : Executor) (t j : String)
    (gentle : (c : Call) (n : ℕ) → all_gentle false t j (E.turns c n).others ≡ true) where
  abbrev Left : Done Unit × Run E.registry → Type 0
  Left p = (p.0 ≡ done tt) × HasRun E t j IsClaimed p.1

  round-Left :
      (scans : ℕ → Fields → Scan E.registry.Finding) (left : ℕ) (r : Run E.registry)
      → HasRun E t j IsClaimed r
      → Left (attempts E t j scans (suc left) 1 r)
  unfolding attempts
  round-Left scans left r h =
      let (x, seen, (is_running, unasked), h') =
        look-Has E t j (λ _ _. false) gentle IsClaimed IsClaimed r Kept-IsClaimed h in
      let live : status_eq x.status cancelled ≡ false = ground (arith, is_running) in
      elim (claim-Has E t j (λ _ _. false) gentle IsClaimed IsClaimed true (look E t j r).1
        Kept-IsClaimed
        (weaken E t j (λ y. y ≡ x) IsClaimed (look E t j r).1
          (λ y e. subst IsClaimed (sym e) (is_running, unasked)) h')) [
            | inl (z, (y, (held, unasked'), was), h'') ↦ absurd (ground (arith, held, was))
            | inr (said, h'') ↦
                rw (seen, live, unasked, said)
                  (
                    refl,
                    weaken E t j (λ y. IsClaimed y × (ready (expected_status true) y ≡ false))
                        IsClaimed (claim E t j true (look E t j r).1).1 (λ y p. p.0) h'',
                  )
          ]

  attempts-Left :
      (scans : ℕ → Fields → Scan E.registry.Finding) (n : ℕ) (r : Run E.registry)
      → HasRun E t j IsClaimed r
      → Left (attempts E t j scans n 1 r)
  unfolding attempts
  attempts-Left scans zero r h = (refl, h)
  attempts-Left scans (suc left) r h = round-Left scans left r h

  -- Where a job that is delivered is already running, with no cancellation requested, every source
  -- has an adapter, and the other processes neither claim, settle nor cancel the job, `execute`
  -- returns and leaves it running: a job whose worker stopped is never finished by a redelivery.
  pub execute_redelivered :
      (r : Run E.registry)
      → ((s : Source)
          → (scans : ℕ → Fields → Scan E.registry.Finding) × (E.products s ≡ some scans))
      → HasRun E t j IsClaimed r
      → ((execute E t j r).0 ≡ done tt) × HasRun E t j IsClaimed (execute E t j r).1
  unfolding execute
  execute_redelivered r full h =
      let (x, seen, (is_running, unasked), h') =
        look-Has E t j (λ _ _. false) gentle IsClaimed IsClaimed r Kept-IsClaimed h in
      let (scans, there) = full x.source in
      rw (seen, is_running, there)
        (attempts-Left scans E.max_attempts (look E t j r).1 (
          weaken E t j (λ y. y ≡ x) IsClaimed (look E t j r).1
            (λ y e. subst IsClaimed (sym e) (is_running, unasked)) h'))
