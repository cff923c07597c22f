-- ===== src/Execution/Body.antt =====
-- The body of an attempt leaves the job running where it raises, and succeeded where it does not.
use shared_integration.Prelude.{
  ℕ, zero, suc, String, ◌≡◌, ap, ◌∙◌, inl, inr, Bool, true, Option, none, some, List, [], ◌∷◌, ◌++◌,
  arith, length, Bool-cases,
}
use shared_integration.Json.{Fields}
use shared_integration.Jobs.{Job, running, succeeded}
use shared_integration.Jobs.Sqlite.{Outcome}
use shared_integration.Execution.{
  Executor, Call, looking, noting, Stored, registered, Run, Scan, Ending, found, crashed, stopped,
  Done, done, raise, Failure, look, settle, note, ◌>>=◌, after, poll, last_poll, flagged, register,
  store_correlations, apply_rules, store_each, store_results, attempt_body,
}
use shared_integration.Execution.Gentle.{all_gentle, Kept}
use shared_integration.Execution.Calls.{HasRun, HasStatus, look-Has, settle-Has, note-Has}

pub running-Kept : (b : Bool) (x y : Job) → Kept b x y → HasStatus running x → HasStatus running y
running-Kept b x y k h = let s = k.status in ground (arith, s, h)

pub weaken :
    (E : Executor) (t j : String) (P Q : Job → Type 0) (r : Run E.registry)
    → ((x : Job) → P x → Q x)
    → HasRun E t j P r
    → HasRun E t j Q r
weaken E t j P Q r f h = record {
  well_formed = h.well_formed;
  job = h.job;
  found = h.found;
  holds = f h.job h.holds;
}

module _ (E : Executor) (t j : String) (may : Call → ℕ → Bool)
    (gentle : (c : Call) (n : ℕ) → all_gentle (may c n) t j (E.turns c n).others ≡ true) where
  abbrev pub Running : Run E.registry → Type 0
  Running r = HasRun E t j (HasStatus running) r

  -- A statement that leaves the job running where it raises, and a property where it does not.
  abbrev pub Post : {A : Type 0} → (Run E.registry → Type 0) → Done A → Run E.registry → Type 0
  Post P (done a) r = P r
  Post P (raise e) r = Running r

  then-Post :
      {A B : Type 0} (P : Run E.registry → Type 0) (m : Done A × Run E.registry)
      (f : A → Run E.registry → Done B × Run E.registry)
      → Post Running m.0 m.1
      → ((a : A) (r : Run E.registry) → Running r → Post P (f a r).0 (f a r).1)
      → Post P (m >>= f).0 (m >>= f).1
  then-Post P (done a, r) f h k = k a r h
  then-Post P (raise e, r) f h k = h

  always : {A : Type 0} (d : Done A) (r : Run E.registry) → Running r → Post Running d r
  always (done a) r h = h
  always (raise e) r h = h

  pub look-Running : (r : Run E.registry) → Running r → Running (look E t j r).1
  look-Running r h =
      let (x, seen, is_running, k) =
        look-Has E t j may gentle (HasStatus running) (HasStatus running) r
          (running-Kept (may looking r.calls)) h in
      weaken E t j (λ y. y ≡ x) (HasStatus running) (look E t j r).1
        (λ y e. ap (λ (z : Job). z.status) e ∙ is_running) k

  pub note-Running :
      (kind : String) (payload : Fields) (r : Run E.registry)
      → Running r
      → Running (note E t j kind payload r).1
  note-Running kind payload r h =
      note-Has E t j may gentle (HasStatus running) (HasStatus running) kind payload r
        (running-Kept (may noting r.calls)) h

  last_poll-Running :
      (c : Option Failure) (s : Ending E.registry.Finding) (r : Run E.registry)
      → Running r
      → Running (last_poll E t j c s r).1
  unfolding last_poll
  last_poll-Running c stopped r h = h
  last_poll-Running c (found fs) r h = look-Running r h
  last_poll-Running c (crashed e) r h = look-Running r h

  poll-Running :
      (n : ℕ) (scan : Scan E.registry.Finding) (r : Run E.registry)
      → Running r
      → Running (poll E t j n scan r).1
  unfolding poll
  poll-Running zero scan r h = last_poll-Running scan.on_cancel scan.ending r h
  poll-Running (suc n) scan r h =
      let next = look-Running r h in
      elim (Bool-cases (flagged (look E t j r).0)) [
        | inl e ↦ rw e next
        | inr e ↦ rw e (poll-Running n scan (look E t j r).1 next)
      ]

  note-Post :
      (kind : String) (payload : Fields) (r : Run E.registry)
      → Running r
      → Post Running (note E t j kind payload r).0 (note E t j kind payload r).1
  note-Post kind payload r h =
      always (note E t j kind payload r).0 (note E t j kind payload r).1
        (note-Running kind payload r h)

  register-Post :
      (f : E.registry.State → Stored × E.registry.State) (r : Run E.registry)
      → Running r
      → Post Running (register E t j f r).0 (register E t j f r).1
  register-Post f r h =
      always (registered E t j (f r.registry).0) (record r { registry = (f r.registry).1 }) h

  store_correlations-Post :
      (cs : List E.registry.Correlation) (r : Run E.registry)
      → Running r
      → Post Running (store_correlations E t j cs r).0 (store_correlations E t j cs r).1
  unfolding store_correlations
  store_correlations-Post [] r h = h
  store_correlations-Post (c ∷ cs) r h =
      let said = E.registry.correlation_payload c in
      then-Post Running (register E t j (E.registry.add_correlation c) r) _
        (register-Post (E.registry.add_correlation c) r h)
        (λ _ r1 h1.
          then-Post Running (note E t j "correlation" said r1) _
            (note-Post "correlation" said r1 h1) (λ _ r2 h2. store_correlations-Post cs r2 h2))

  apply_rules-Post :
      (rules : List (E.registry.Finding → List E.registry.Finding → List E.registry.Correlation))
      (f : E.registry.Finding) (existing : List E.registry.Finding) (r : Run E.registry)
      → Running r
      → Post Running
          (apply_rules E t j rules f existing r).0
          (apply_rules E t j rules f existing r).1
  unfolding apply_rules
  apply_rules-Post [] f existing r h = h
  apply_rules-Post (rule ∷ rules) f existing r h =
      then-Post Running (store_correlations E t j (rule f existing) r) _
        (store_correlations-Post (rule f existing) r h)
        (λ _ r1 h1. apply_rules-Post rules f existing r1 h1)

  store_each-Post :
      (fs existing : List E.registry.Finding) (r : Run E.registry)
      → Running r
      → Post Running (store_each E t j fs existing r).0 (store_each E t j fs existing r).1
  unfolding store_each
  store_each-Post [] existing r h = h
  store_each-Post (f ∷ fs) existing r h =
      let said = E.registry.finding_payload f in
      then-Post Running (register E t j (E.registry.add f j) r) _
        (register-Post (E.registry.add f j) r h)
        (λ _ r1 h1.
          then-Post Running (note E t j "finding" said r1) _ (note-Post "finding" said r1 h1)
            (λ _ r2 h2.
              then-Post Running (apply_rules E t j E.rules f existing r2) _
                (apply_rules-Post E.rules f existing r2 h2)
                (λ _ r3 h3. store_each-Post fs (existing ++ f ∷ []) r3 h3)))

  abbrev pub Succeeded : Run E.registry → Type 0
  Succeeded r = HasRun E t j (HasStatus succeeded) r

  settle-Post :
      (o : Outcome) (r : Run E.registry)
      → Running r
      → Post (HasRun E t j (HasStatus o.status)) (settle E t j o r).0 (settle E t j o r).1
  settle-Post o r h =
      let ((x, said), k) = settle-Has E t j may gentle (HasStatus running) o r h in rw said k

  then-done :
      {A : Type 0} (P : Run E.registry → Type 0) (d : Done A) (r : Run E.registry)
      → Post P d r
      → Post P (after d (λ _ r'. (done tt, r')) r).0 (after d (λ _ r'. (done tt, r')) r).1
  then-done P (done a) r h = h
  then-done P (raise e) r h = h

  pub attempt_body-Post :
      (scan : Scan E.registry.Finding) (r : Run E.registry)
      → Running r
      → Post Succeeded (attempt_body E t j scan r).0 (attempt_body E t j scan r).1
  unfolding attempt_body store_results
  attempt_body-Post scan r h =
      then-Post Succeeded (poll E t j scan.polls scan r) _
        (always (poll E t j scan.polls scan r).0 (poll E t j scan.polls scan r).1
          (poll-Running scan.polls scan r h))
        (λ fs r1 h1.
          then-Post Succeeded (store_each E t j fs (E.registry.findings r1.registry) r1) _
            (store_each-Post fs (E.registry.findings r1.registry) r1 h1)
            (λ _ r2 h2.
              let o : Outcome = record {
                status = succeeded;
                result_count = some (length fs);
                error_code = none;
                error_message = none;
              } in
              then-done (HasRun E t j (HasStatus succeeded)) (settle E t j o r2).0
                (settle E t j o r2).1 (settle-Post o r2 h2)))
