-- ===== src/Tests/Auth.antt =====
-- The rate limiter and the middleware on concrete requests.
use shared_integration.Prelude.{
  ◌+◌, ◌*◌, ◌≤◌, ◌≡◌, ◌↔◌, ◌⊎◌, refl, true, false, none, some, [], ◌∷◌, Memᴰ, any, codes, Text,
  upper, text_eq, has_prefix, is_ascii, all_codes, partition, arith,
}
use shared_integration.Auth.Limiter.{
  Limiter, new, check, ticks, window, get, put, admit_key, charge, drop_stale, evict,
}
use shared_integration.Auth.Limiter.Sound.{IsSound, check-IsSound, new-IsSound}
use shared_integration.Auth.Limiter.Window.{start, run, admitted, admitted-run-le}
use shared_integration.Auth.Limiter.Retry.{wait_left, check_after_retry, check_at_retry}
use shared_integration.Auth.Access.{
  Principal, Request, Middleware, machine_principal, authenticate, handle, served, raised, ask,
  bearer_token, header, static_principal, compare_digest, authorize, scope_allows,
}
use shared_integration.Auth.Access.Rules.{
  MayCall, IsGuarded, handle_served_iff, handle_served_token, handle_not_ascii,
}

-- One attempt in ten seconds.
abbrev limiter : Limiter
limiter = record {
  max_attempts = 1;
  window_seconds = 10;
  max_keys = 2;
  attempts = ("overflow", []) ∷ [];
}

new_limiter : new 1 10 2 ≡ some limiter
unfolding new
new_limiter = refl

two_calls : (run (start limiter 0) ((1, "a") ∷ (1, "a") ∷ [])).clock ≤ 3
unfolding run
two_calls = omega arith

admitted-run-le_example :
    admitted (window limiter) 3 "a" (run (start limiter 0) ((1, "a") ∷ (1, "a") ∷ [])).log ≤ 1
admitted-run-le_example =
    admitted-run-le 1 10 2 0 limiter ((1, "a") ∷ (1, "a") ∷ []) "a" 3 new_limiter two_calls

limiter-IsSound : IsSound limiter 0
limiter-IsSound = new-IsSound 1 10 2 limiter 0 new_limiter

check-IsSound_example : IsSound (check "a" 5 limiter).limiter 5
check-IsSound_example = check-IsSound "a" 5 0 limiter (omega arith) limiter-IsSound

-- The limiter after an exchange at time 5; the one at time 6 is refused.
abbrev once : Limiter
once = (check "a" 5 limiter).limiter

refused_at_6 : (check "a" 6 once).allowed ≡ false
unfolding check admit_key charge drop_stale get put any evict
refused_at_6 = refl

retry_at_6 : (check "a" 6 once).retry_after ≡ 9
unfolding check admit_key charge drop_stale get put any evict
retry_at_6 = refl

charged_at_6 : (check "a" 6 once).charged ≡ "a"
unfolding check admit_key charge drop_stale get put any evict
charged_at_6 = refl

left_at_6 : wait_left "a" 6 once ≡ 9_999_999_999
unfolding check admit_key charge drop_stale get put any evict
left_at_6 = refl

check_after_retry_example : (check "a" 10_000_000_006 (check "a" 6 once).limiter).allowed ≡ true
check_after_retry_example =
    check_after_retry "a" 6 5 10_000_000_006 once (omega arith)
      (check-IsSound "a" 5 0 limiter (omega arith) limiter-IsSound) refused_at_6
      (omega (arith, retry_at_6))

check_at_retry_example :
    (check "a" (6 + (check "a" 6 once).retry_after * ticks) (check "a" 6 once).limiter).allowed
    ≡ false
check_at_retry_example =
    check_at_retry "a" 6 once refused_at_6 charged_at_6 (omega (arith, left_at_6))
      (omega (arith, left_at_6))

abbrev analyst : Principal
analyst = machine_principal "acme" "analyst"

abbrev middleware : Middleware
middleware = record { principals = (codes "t0", analyst) ∷ []; authenticator = none }

abbrev request : Text → Request
request token = record {
  http = true;
  method = codes "GET";
  path = codes "/v1/findings";
  headers = (codes "Authorization", token) ∷ [];
}

request-IsGuarded : (token : Text) → IsGuarded middleware (request token)
unfolding text_eq
request-IsGuarded token = (refl, refl, refl, refl)

served_analyst : handle middleware (request (codes "Bearer t0")) ≡ served analyst
unfolding handle authenticate authorize bearer_token header static_principal compare_digest
    scope_allows text_eq partition all_codes has_prefix
served_analyst = refl

handle_served_iff_example : (handle middleware (request (codes "Bearer t0")) ≡ served analyst) ↔ (
    (authenticate middleware (request (codes "Bearer t0")) ≡ some (some analyst))
    × MayCall analyst (upper (codes "GET")) (codes "/v1/findings"))
handle_served_iff_example =
    handle_served_iff middleware (request (codes "Bearer t0")) analyst
      (request-IsGuarded (codes "Bearer t0"))

handle_served_token_example :
    (token : Text) × (bearer_token (request (codes "Bearer t0")) ≡ some token)
    × (Memᴰ (token, analyst) middleware.principals
        ⊎ (ask middleware.authenticator token ≡ some analyst))
handle_served_token_example =
    handle_served_token middleware (request (codes "Bearer t0")) analyst
      (request-IsGuarded (codes "Bearer t0")) served_analyst

-- A token of the one character 233.
abbrev latin : Text
latin = 66 ∷ 101 ∷ 97 ∷ 114 ∷ 101 ∷ 114 ∷ 32 ∷ 233 ∷ []

bearer_latin : bearer_token (request latin) ≡ some (233 ∷ [])
unfolding bearer_token header text_eq partition
bearer_latin = refl

latin_not_ascii : is_ascii (233 ∷ []) ≡ false
unfolding all_codes
latin_not_ascii = refl

handle_not_ascii_example : handle middleware (request latin) ≡ raised
handle_not_ascii_example =
    handle_not_ascii middleware (request latin) (codes "t0", analyst) [] (233 ∷ [])
      (request-IsGuarded latin) refl bearer_latin latin_not_ascii
