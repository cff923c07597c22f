-- ===== src/Auth/Limiter/Window.antt =====
-- Whole histories of a limiter, whose buckets count every admitted exchange.
use shared_integration.Prelude.{
  ℕ, ◌+◌, ◌≤◌, String, ◌≡◌, refl, sym, ap, subst, ◌∙◌, ◌*◌, Bool, ◌&&◌, some, List, [], ◌∷◌, ◌++◌,
  arith, eq_iff, str_eq, if◌then◌else◌, length, All, count, count-append, count-le-length,
  Bool-cases, inl, inr, leb,
}
use shared_integration.Auth.Limiter.{
  ticks, Limiter, Buckets, Checked, window, get, admit_key, drop_stale, charge, check, new,
}
use shared_integration.Auth.Limiter.Buckets.{
  live_at, fresh, Sorted, fresh-drop_stale, get-put, fresh-evict,
}
use shared_integration.Auth.Limiter.Sound.{Holds, IsSound, new-IsSound, Holds-get, check-IsSound}

-- A history: the limiter, the time of the last check, and each admitted exchange with the key
-- that it was charged to.
pub record History : Type 0 where
  pub limiter : Limiter
  pub clock : ℕ
  pub log : List (String × ℕ)

abbrev pub start : Limiter → ℕ → History
start l clock = record { limiter = l; clock = clock; log = [] }

abbrev pub record_check : History → ℕ → Checked → History
record_check r now c = record {
  limiter = c.limiter;
  clock = now;
  log = if c.allowed then r.log ++ (c.charged, now) ∷ [] else r.log;
}

-- Each call comes a while after the one before.
unfoldable pub run : History → List (ℕ × String) → History
run r [] = r
run r ((wait, key) ∷ calls) =
    run (record_check r (r.clock + wait) (check key (r.clock + wait) r.limiter)) calls

-- The exchanges charged to `k` within the window that ends at `t`.
abbrev pub in_window : ℕ → ℕ → String → String × ℕ → Bool
in_window w t k e = str_eq e.0 k && live_at w t e.1

unfoldable pub admitted : ℕ → ℕ → String → List (String × ℕ) → ℕ
admitted w t k = count (in_window w t k)

-- The bucket of a key counts what the log says was admitted.
record Counts (r : History) : Type 0 where
  sound : IsSound r.limiter r.clock
  agrees :
      (k : String) (t : ℕ)
      → r.clock ≤ t
      → admitted (window r.limiter) t k r.log
        ≡ fresh (window r.limiter) t (get k r.limiter.attempts)

fresh-admit_key :
    (key k : String) (now clock t : ℕ) (l : Limiter)
    → clock ≤ now
    → now ≤ t
    → IsSound l clock
    → fresh (window l) t (get k (admit_key key now l).1) ≡ fresh (window l) t (get k l.attempts)
unfolding admit_key
fresh-admit_key key k now clock t l h g s = ground (
  arith,
  fresh-evict (window l) now t clock k l.attempts s.distinct
      (sorted_all l.max_attempts clock l.attempts s.buckets) g,
)
  where
    sorted_all : (m hi : ℕ) (bs : Buckets) → All (Holds m hi) bs → All (λ b. Sorted b.1 hi) bs
    sorted_all m hi [] a = tt
    sorted_all m hi (b ∷ bs) a = (a.0.1, sorted_all m hi bs a.1)

-- One check: the log of the charged key grows by what its bucket grows by.
Counts-charge :
    (k j : String) (bs : Buckets) (now t : ℕ) (l : Limiter) (log : List (String × ℕ))
    → now ≤ t
    → admitted (window l) t j log ≡ fresh (window l) t (get j bs)
    → let c = charge k bs now l in
      admitted (window l) t j (if c.allowed then log ++ (c.charged, now) ∷ [] else log)
      ≡ fresh (window l) t (get j c.limiter.attempts)
unfolding charge admitted
Counts-charge k j bs now t l log g h =
    let live : List ℕ = drop_stale (window l) now (get k bs) in
    elim (Bool-cases (leb l.max_attempts (length live))) [
      | inl e ↦
          rw (e, get-put j k live bs)
            (ground (arith, h, eq_iff k j, fresh-drop_stale (window l) now t (get k bs) g))
      | inr e ↦
          rw
            (
              e,
              get-put j k (live ++ now ∷ []) bs,
              count-append (in_window (window l) t j) log ((k, now) ∷ []),
            )
            (elim (Bool-cases (str_eq k j)) [
              | inl same ↦
                  rw (same, count-append (live_at (window l) t) live (now ∷ []))
                    (unfold count in
                      ground (
                        arith,
                        h,
                        eq_iff k j,
                        same,
                        fresh-drop_stale (window l) now t (get k bs) g,
                      ))
              | inr other ↦ rw other (unfold count in ground (arith, h, other))
            ])
    ]

limits-check :
    (key : String) (now : ℕ) (l : Limiter)
    → let l' = (check key now l).limiter in
      (l'.max_attempts ≡ l.max_attempts) × (l'.window_seconds ≡ l.window_seconds)
unfolding check charge
limits-check key now l = ground arith

Counts-check :
    (r : History) (now : ℕ) (key : String)
    → r.clock ≤ now
    → Counts r
    → Counts (record_check r now (check key now r.limiter))
Counts-check r now key h c = record {
  sound = check-IsSound key now r.clock r.limiter h c.sound;
  agrees = λ j t g. rw (ap ticks_of (limits-check key now r.limiter).1) (
      unfold check in
      Counts-charge (admit_key key now r.limiter).0 j (admit_key key now r.limiter).1 now t
        r.limiter r.log g
        (c.agrees j t (omega arith)
          ∙ sym (fresh-admit_key key j now r.clock t r.limiter h g c.sound)));
}
  where
    ticks_of : ℕ → ℕ
    ticks_of s = s * ticks

Counts-run : (r : History) (calls : List (ℕ × String)) → Counts r → Counts (run r calls)
unfolding run
Counts-run r [] c = c
Counts-run r ((wait, key) ∷ calls) c =
    Counts-run (record_check r (r.clock + wait) (check key (r.clock + wait) r.limiter)) calls
      (Counts-check r (r.clock + wait) key (omega arith) c)

limits-run :
    (r : History) (calls : List (ℕ × String))
    → let l = (run r calls).limiter in
      (l.max_attempts ≡ r.limiter.max_attempts) × (l.window_seconds ≡ r.limiter.window_seconds)
unfolding run
limits-run r [] = (refl, refl)
limits-run r ((wait, key) ∷ calls) =
    let rest =
      limits-run (record_check r (r.clock + wait) (check key (r.clock + wait) r.limiter)) calls in
    let first = limits-check key (r.clock + wait) r.limiter in (rest.0 ∙ first.0, rest.1 ∙ first.1)

Counts-start : (a w k clock : ℕ) (l : Limiter) → new a w k ≡ some l → Counts (start l clock)
unfolding new admitted get count
Counts-start a w k clock l h = record {
  sound = new-IsSound a w k l clock h;
  agrees = λ j t g. ground arith;
}

new-attempts : (a w k : ℕ) (l : Limiter) → new a w k ≡ some l → l.max_attempts ≡ a
unfolding new
new-attempts a w k l h = ground arith

-- Whatever calls a new limiter has had, at most `max_attempts` exchanges were charged to one key
-- and admitted within the window that ends at the last call or at any later time.
pub admitted-run-le :
    (a w k clock : ℕ) (l : Limiter) (calls : List (ℕ × String)) (key : String) (t : ℕ)
    → new a w k ≡ some l
    → (run (start l clock) calls).clock ≤ t
    → admitted (window l) t key (run (start l clock) calls).log ≤ a
admitted-run-le a w k clock l calls key t h late =
    let r = run (start l clock) calls in
    let c = Counts-run (start l clock) calls (Counts-start a w k clock l h) in
    let same = limits-run (start l clock) calls in
    subst (λ s. admitted (s * ticks) t key (run (start l clock) calls).log ≤ a) same.1
      (omega (
        arith,
        c.agrees key t late,
        new-attempts a w k l h,
        same.0,
        count-le-length (live_at (window r.limiter) t) (get key r.limiter.attempts),
        Holds-get r.limiter.max_attempts r.clock key r.limiter.attempts c.sound.buckets,
      ))
