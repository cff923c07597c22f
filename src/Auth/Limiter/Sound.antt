-- ===== src/Auth/Limiter/Sound.antt =====
-- The buckets of a limiter stay bounded and in order.
use shared_integration.Prelude.{
  ℕ, ◌≤◌, String, ◌≡◌, true, some, List, [], ◌∷◌, ◌++◌, arith, length, All, All-select, any,
  length-append, Bool-cases, inl, inr, leb, select,
}
use shared_integration.Auth.Limiter.{
  Limiter, Buckets, window, has_key, get, put, kept, evict, admit_key, drop_stale, charge, check,
  new,
}
use shared_integration.Auth.Limiter.Buckets.{
  Sorted, Sorted-snoc, Sorted-le, Sorted-drop_stale, length-drop_stale, Distinct, Distinct-put,
  Distinct-evict, has_key-put, length-put, overflow-evict,
}

-- A bucket holds at most `m` times, none after `hi`.
abbrev pub Holds : ℕ → ℕ → String × List ℕ → Type 0
Holds m hi b = (length b.1 ≤ m) × Sorted b.1 hi

-- What is true of a limiter whose last check was at `clock`.
pub record IsSound (l : Limiter) (clock : ℕ) : Type 0 where
  pub some_attempts : 1 ≤ l.max_attempts
  pub few_keys : length l.attempts ≤ l.max_keys
  pub overflow_kept : has_key "overflow" l.attempts ≡ true
  pub distinct : Distinct l.attempts
  pub buckets : All (Holds l.max_attempts clock) l.attempts

pub new-IsSound : (a w k : ℕ) (l : Limiter) (clock : ℕ) → new a w k ≡ some l → IsSound l clock
unfolding new any
new-IsSound a w k l clock h = ground arith

-- The times that the charged key has left, and the buckets they are put back into.
record Ready (k : String) (bs : Buckets) (l : Limiter) (now : ℕ) : Type 0 where
  fits : length (put k [] bs) ≤ l.max_keys
  overflow_kept : has_key "overflow" bs ≡ true
  distinct : Distinct bs
  buckets : All (Holds l.max_attempts now) bs

All-later :
    (m clock now : ℕ) (bs : Buckets) → clock ≤ now → All (Holds m clock) bs → All (Holds m now) bs
All-later m clock now [] h a = tt
All-later m clock now ((k, ts) ∷ bs) h a =
    ((a.0.0, Sorted-le ts clock now h a.0.1), All-later m clock now bs h a.1)

length-evict : (w now : ℕ) (bs : Buckets) → length (evict w now bs) ≤ length bs
unfolding evict select
length-evict w now [] = omega arith
length-evict w now (b ∷ bs) = ground (arith, length-evict w now bs)

admit_key-Ready :
    (key : String) (now clock : ℕ) (l : Limiter)
    → clock ≤ now
    → IsSound l clock
    → Ready (admit_key key now l).0 (admit_key key now l).1 l now
unfolding admit_key
admit_key-Ready key now clock l h s = elim (Bool-cases (has_key key l.attempts)) [
  | inl e ↦ rw e (record {
    fits = ground (arith, length-put key [] l.attempts, s.few_keys);
    overflow_kept = s.overflow_kept;
    distinct = s.distinct;
    buckets = All-later l.max_attempts clock now l.attempts h s.buckets;
  })
  | inr e ↦ rw e (elim (Bool-cases (leb l.max_keys (length l.attempts))) [
    | inl full ↦ rw full (record {
      fits = ground (
        arith,
        s.few_keys,
        full,
        length-put key [] (evict (window l) now l.attempts),
        length-put "overflow" [] (evict (window l) now l.attempts),
        overflow-evict (window l) now l.attempts s.overflow_kept,
        length-evict (window l) now l.attempts,
      );
      overflow_kept = overflow-evict (window l) now l.attempts s.overflow_kept;
      distinct = Distinct-evict (window l) now l.attempts s.distinct;
      buckets =
          All-select (Holds l.max_attempts now) (kept (window l) now) l.attempts
            (All-later l.max_attempts clock now l.attempts h s.buckets);
    })
    | inr free ↦ rw free (record {
      fits = ground (arith, length-put key [] l.attempts, free);
      overflow_kept = s.overflow_kept;
      distinct = s.distinct;
      buckets = All-later l.max_attempts clock now l.attempts h s.buckets;
    })
  ])
]

pub Holds-get :
    (m hi : ℕ) (k : String) (bs : Buckets) → All (Holds m hi) bs → Holds m hi (k, get k bs)
unfolding get
Holds-get m hi k [] a = (omega arith, tt)
Holds-get m hi k ((j, ts) ∷ bs) a = ground (arith, Holds-get m hi k bs a.1)

Holds-put :
    (m hi : ℕ) (k : String) (ts : List ℕ) (bs : Buckets)
    → Holds m hi (k, ts)
    → All (Holds m hi) bs
    → All (Holds m hi) (put k ts bs)
unfolding put
Holds-put m hi k ts [] h a = (h, tt)
Holds-put m hi k ts ((j, us) ∷ bs) h a = ground (arith, Holds-put m hi k ts bs h a.1)

charge-IsSound :
    (k : String) (bs : Buckets) (now : ℕ) (l : Limiter)
    → 1 ≤ l.max_attempts
    → Ready k bs l now
    → IsSound (charge k bs now l).limiter now
unfolding charge
charge-IsSound k bs now l pos r =
    let live : List ℕ = drop_stale (window l) now (get k bs) in
    let held = Holds-get l.max_attempts now k bs r.buckets in
    let short = length-drop_stale (window l) now (get k bs) in
    let sorted = Sorted-drop_stale (window l) now (get k bs) now held.1 in
    elim (Bool-cases (leb l.max_attempts (length live))) [
      | inl e ↦ rw e (record {
        some_attempts = pos;
        few_keys = ground (arith, r.fits, length-put k live bs, length-put k [] bs);
        overflow_kept = ground (arith, r.overflow_kept, has_key-put "overflow" k live bs);
        distinct = Distinct-put k live bs r.distinct;
        buckets =
            Holds-put l.max_attempts now k live bs (omega (arith, held.0, short), sorted) r.buckets;
      })
      | inr e ↦ rw e (record {
        some_attempts = pos;
        few_keys = ground (arith, r.fits, length-put k (live ++ now ∷ []) bs, length-put k [] bs);
        overflow_kept =
            ground (arith, r.overflow_kept, has_key-put "overflow" k (live ++ now ∷ []) bs);
        distinct = Distinct-put k (live ++ now ∷ []) bs r.distinct;
        buckets =
            Holds-put l.max_attempts now k (live ++ now ∷ []) bs
              (
                ground (arith, length-append live (now ∷ [])),
                Sorted-snoc live now now (omega arith) sorted,
              )
              r.buckets;
      })
    ]

-- A check at a time that is not before the last one keeps the limiter sound: at most `max_keys`
-- keys, the overflow key among them, no key twice, and at most `max_attempts` times to a key,
-- oldest first.
pub check-IsSound :
    (key : String) (now clock : ℕ) (l : Limiter)
    → clock ≤ now
    → IsSound l clock
    → IsSound (check key now l).limiter now
unfolding check
check-IsSound key now clock l h s =
    charge-IsSound (admit_key key now l).0 (admit_key key now l).1 now l s.some_attempts
      (admit_key-Ready key now clock l h s)
