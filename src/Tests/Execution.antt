-- ===== src/Tests/Execution.antt =====
-- An executor whose product fails once and then finds something.
use shared_integration.Prelude.{
  ℕ, String, ◌≡◌, refl, inl, Bool, true, false, find, select, count, update, none, some, List, [],
  ◌∷◌, ◌==◌, if◌then◌else◌, arith,
}
use shared_integration.Json.{Fields, end}
use shared_integration.Jobs.Sqlite.{
  Store, get, started, mark_running, transition, required, max_sequence, next_sequence,
}
use shared_integration.Jobs.Sqlite.Invariant.{claims, step, step-IsWellFormed}
use shared_integration.Execution.{
  Call, looking, claiming, settling, noting, stored, Registry, Executor, Run, Scan, found, crashed,
  product, done,
}
use shared_integration.Execution.Attempts.{execute}
use shared_integration.Execution.Calls.{HasRun}
use shared_integration.Execution.Gentle.{all_gentle}
use shared_integration.Execution.Settles.{execute-EndsWell}
use shared_integration.Execution.Ends.{EndsWell}
use shared_integration.Execution.Redelivery.{IsClaimed, execute_redelivered}
use shared_integration.Tests.Jobs.{made, row, made-IsWellFormed, get-made}

abbrev ids : Registry
ids = record {
  State = List String;
  Finding = String;
  Correlation = String;
  findings = λ s. s;
  add = λ f job s. (stored, f ∷ s);
  add_correlation = λ c s. (stored, s);
  finding_payload = λ f. end;
  correlation_payload = λ c. end;
}

abbrev scan_of : ℕ → Fields → Scan String
scan_of k payload = record {
  polls = 1;
  ending =
      if k == 1
      then crashed (
          product (record {
            code = "PRODUCT_ERROR";
            message = "no answer";
            retryable = true;
            timeout = false;
          }))
      else found ("finding-1" ∷ []);
  on_cancel = none;
}

abbrev one_product : Executor
one_product = record {
  registry = ids;
  turns = λ c n. record { others = []; now = n };
  message = λ e. "error";
  value = λ s. "soc";
  products = λ s. some scan_of;
  rules = [];
  max_attempts = 2;
  stopped_asleep = λ k. false;
}

abbrev at_first : Store → Run ids
at_first s = record { store = s; registry = []; calls = 0 }

nobody_else :
    (b : Bool) (c : Call) (n : ℕ) → all_gentle b "acme" "j1" (one_product.turns c n).others ≡ true
unfolding all_gentle
nobody_else b c n = refl

-- No cancellation directly before a claim.
abbrev before_others : Call → ℕ → Bool
before_others looking n = true
before_others claiming n = false
before_others settling n = true
before_others noting n = true

execute-EndsWell_example :
    EndsWell one_product "acme" "j1" before_others (execute one_product "acme" "j1" (at_first made))
execute-EndsWell_example =
    execute-EndsWell one_product "acme" "j1" before_others
      (λ c n. nobody_else (before_others c n) c n) (at_first made) (λ n. refl) (omega arith)
      (record { well_formed = made-IsWellFormed; job = row; found = get-made; holds = inl refl })

abbrev in_progress : Store
in_progress = step made (claims "acme" "j1" true 20)

get-in_progress : get "acme" "j1" in_progress ≡ some (started 20 row)
unfolding step mark_running transition get find select count update max_sequence next_sequence
    required
get-in_progress = refl

execute_redelivered_example :
    ((execute one_product "acme" "j1" (at_first in_progress)).0 ≡ done tt)
    × HasRun one_product "acme" "j1" IsClaimed
        (execute one_product "acme" "j1" (at_first in_progress)).1
execute_redelivered_example =
    execute_redelivered one_product "acme" "j1" (nobody_else false) (at_first in_progress)
      (λ s. (scan_of, refl))
      (record {
        well_formed = step-IsWellFormed made (claims "acme" "j1" true 20) made-IsWellFormed;
        job = started 20 row;
        found = get-in_progress;
        holds = (refl, refl);
      })
