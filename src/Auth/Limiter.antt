-- ===== src/Auth/Limiter.antt =====
-- `ExchangeRateLimiter` of src/shared_integration/auth.py: identity exchanges counted in a
-- sliding window per key. The clock's reading is an argument of `check`. It is a number of
-- nanoseconds, so `ticks` of them are a second; the window is given in seconds, as in the source.
pub mod Buckets
pub mod Sound
pub mod Window
pub mod Retry
use shared_integration.Prelude.{
  ℕ, ◌+◌, ◌-◌, ◌*◌, ◌/◌, max, String, Bool, true, false, ◌&&◌, ◌||◌, not, Option, none, some, List,
  [], ◌∷◌, ◌++◌, leb, ltb, if◌then◌else◌, length, select, any, str_eq,
}

abbrev pub ticks : ℕ
ticks = 1_000_000_000

-- A `dict` of deques: keys in the order of their insertion, times oldest first.
abbrev pub Buckets : Type 0
Buckets = List (String × List ℕ)

pub record Limiter : Type 0 where
  pub max_attempts : ℕ
  pub window_seconds : ℕ
  pub max_keys : ℕ
  pub attempts : Buckets

-- `__init__`; `none` is the `ValueError` of limits that are not positive.
unfoldable pub new : ℕ → ℕ → ℕ → Option Limiter
new max_attempts window_seconds max_keys =
    if ltb max_attempts 1 || ltb window_seconds 1 || ltb max_keys 2
    then none
    else some (record {
      max_attempts = max_attempts;
      window_seconds = window_seconds;
      max_keys = max_keys;
      attempts = ("overflow", []) ∷ [];
    })

abbrev pub window : Limiter → ℕ
window l = l.window_seconds * ticks

-- `t <= cutoff`, where the cutoff is `now - window`.
abbrev pub stale : ℕ → ℕ → ℕ → Bool
stale w now t = leb (t + w) now

abbrev pub has_key : String → Buckets → Bool
has_key k = any λ b. str_eq b.0 k

unfoldable pub get : String → Buckets → List ℕ
get k [] = []
get k ((j, ts) ∷ bs) = let rest = get k bs in if str_eq j k then ts else rest

-- The deque of a key that is there is changed in place, and a new key goes to the end.
unfoldable pub put : String → List ℕ → Buckets → Buckets
put k ts [] = (k, ts) ∷ []
put k ts ((j, us) ∷ bs) =
    let rest = put k ts bs in if str_eq j k then (j, ts) ∷ bs else (j, us) ∷ rest

-- `not stored_attempts or stored_attempts[-1] <= cutoff`
unfoldable pub last_stale : ℕ → ℕ → List ℕ → Bool
last_stale w now [] = true
last_stale w now (t ∷ []) = stale w now t
last_stale w now (t ∷ u ∷ ts) = last_stale w now (u ∷ ts)

-- The keys that `stale_keys` does not name.
abbrev pub kept : ℕ → ℕ → String × List ℕ → Bool
kept w now b = not (not (str_eq b.0 "overflow") && last_stale w now b.1)

unfoldable pub evict : ℕ → ℕ → Buckets → Buckets
evict w now = select (kept w now)

-- The key that is charged, and the buckets once stale keys are gone.
unfoldable pub admit_key : String → ℕ → Limiter → String × Buckets
unfolding evict
admit_key key now l =
    if not (has_key key l.attempts) && leb l.max_keys (length l.attempts)
    then (let bs = evict (window l) now l.attempts in
        (if leb l.max_keys (length bs) then "overflow" else key, bs))
    else (key, l.attempts)

-- `while attempts and attempts[0] <= cutoff: attempts.popleft()`
unfoldable pub drop_stale : ℕ → ℕ → List ℕ → List ℕ
drop_stale w now [] = []
drop_stale w now (t ∷ ts) = let rest = drop_stale w now ts in if stale w now t then rest else t ∷ ts

abbrev pub first : List ℕ → ℕ
first [] = 0
first (t ∷ ts) = t

-- What `check` returns, and the limiter that it leaves.
pub record Checked : Type 0 where
  pub allowed : Bool
  pub retry_after : ℕ
  pub charged : String
  pub limiter : Limiter

abbrev pub retry_seconds : ℕ → ℕ → ℕ → ℕ
retry_seconds w now oldest = max 1 ((w - (now - oldest)) / ticks)

unfoldable pub charge : String → Buckets → ℕ → Limiter → Checked
unfolding drop_stale
charge key bs now l =
    let live = drop_stale (window l) now (get key bs) in
    if leb l.max_attempts (length live)
    then record {
      allowed = false;
      retry_after = retry_seconds (window l) now (first live);
      charged = key;
      limiter = record l { attempts = put key live bs };
    }
    else record {
      allowed = true;
      retry_after = 0;
      charged = key;
      limiter = record l { attempts = put key (live ++ now ∷ []) bs };
    }

unfoldable pub check : String → ℕ → Limiter → Checked
unfolding admit_key charge
check key now l = let (k, bs) = admit_key key now l in charge k bs now l
