-- ===== src/Auth/Limiter/Retry.antt =====
-- What the `Retry-After` of a refused exchange is worth.
use shared_integration.Prelude.{
  ℕ, ◌+◌, ◌-◌, ◌*◌, ◌/◌, max, ◌≤◌, ◌<◌, String, ◌≡◌, refl, subst, ap, ◌⊎◌, inl, inr, true, false,
  List, [], ◌∷◌, arith, eq_iff, str_eq, length, any, select, Bool-cases, leb,
}
use shared_integration.Auth.Limiter.{
  ticks, Limiter, Buckets, window, has_key, get, put, evict, admit_key, drop_stale, first, charge,
  check,
}
use shared_integration.Auth.Limiter.Buckets.{
  get-put, has_key-put, has_key-evict, length-drop_stale, Sorted,
}
use shared_integration.Auth.Limiter.Sound.{IsSound, check-IsSound, Holds-get}

get_of_no_key : (k : String) (bs : Buckets) → has_key k bs ≡ false → get k bs ≡ []
unfolding get any
get_of_no_key k [] h = refl
get_of_no_key k ((i, us) ∷ bs) h = ground (arith, get_of_no_key k bs)

get_overflow-evict :
    (w now : ℕ) (bs : Buckets) → get "overflow" (evict w now bs) ≡ get "overflow" bs
unfolding evict select get
get_overflow-evict w now [] = refl
get_overflow-evict w now ((i, us) ∷ bs) = ground (arith, get_overflow-evict w now bs)

-- The key itself is charged, or the overflow key in place of one that has no bucket.
abbrev Stands : String → String → Buckets → Type 0
Stands key k bs = (k ≡ key) ⊎ ((k ≡ "overflow") × (has_key key bs ≡ false) × (str_eq k key ≡ false))

admit_key-Stands :
    (key : String) (now : ℕ) (l : Limiter)
    → has_key "overflow" l.attempts ≡ true
    → Stands key (admit_key key now l).0 (admit_key key now l).1
unfolding admit_key
admit_key-Stands key now l o = elim (Bool-cases (str_eq "overflow" key)) [
  | inl same ↦ inl (ground (arith, eq_iff "overflow" key, same, has_overflow l.attempts key o))
  | inr other ↦
      ground (arith, eq_iff "overflow" key, other, has_key-evict key (window l) now l.attempts)
]
  where
    has_overflow :
        (bs : Buckets) (k : String)
        → has_key "overflow" bs ≡ true
        → "overflow" ≡ k
        → has_key k bs ≡ true
    has_overflow bs k h e = subst (λ j. has_key j bs ≡ true) e h

-- A charge is refused exactly if the times that the bucket still counts fill it.
charge_allowed :
    (k : String) (bs : Buckets) (now : ℕ) (l : Limiter)
    → length (drop_stale (window l) now (get k bs)) < l.max_attempts
    → (charge k bs now l).allowed ≡ true
unfolding charge
charge_allowed k bs now l h = ground arith

charge_refused :
    (k : String) (bs : Buckets) (now : ℕ) (l : Limiter)
    → l.max_attempts ≤ length (drop_stale (window l) now (get k bs))
    → (charge k bs now l).allowed ≡ false
unfolding charge
charge_refused k bs now l h = ground arith

-- Once the oldest time of a full bucket is stale, there is room.
room_later :
    (w later m : ℕ) (ts : List ℕ)
    → 1 ≤ m
    → length ts ≤ m
    → first ts + w ≤ later
    → length (drop_stale w later ts) < m
unfolding drop_stale
room_later w later m [] p h e = omega arith
room_later w later m (t ∷ ts) p h e = ground (arith, length-drop_stale w later ts)

-- While it is not, nothing leaves the bucket.
full_still : (w later : ℕ) (ts : List ℕ) → later < first ts + w → drop_stale w later ts ≡ ts
unfolding drop_stale
full_still w later [] e = refl
full_still w later (t ∷ ts) e = ground arith

-- What a refusal says and leaves.
record Refusal (k : String) (bs : Buckets) (now : ℕ) (l : Limiter) : Type 0 where
  limits :
      ((charge k bs now l).limiter.max_attempts ≡ l.max_attempts)
      × ((charge k bs now l).limiter.window_seconds ≡ l.window_seconds)
      × ((charge k bs now l).limiter.max_keys ≡ l.max_keys)
  full : l.max_attempts ≤ length (drop_stale (window l) now (get k bs))
  left : (charge k bs now l).limiter.attempts ≡ put k (drop_stale (window l) now (get k bs)) bs
  said :
      (charge k bs now l).retry_after
      ≡ max 1 ((window l - (now - first (drop_stale (window l) now (get k bs)))) / ticks)

refusal :
    (k : String) (bs : Buckets) (now : ℕ) (l : Limiter)
    → (charge k bs now l).allowed ≡ false
    → Refusal k bs now l
unfolding charge
refusal k bs now l h = ground arith

admits_later :
    (key k : String) (later clock : ℕ) (l : Limiter)
    → IsSound l clock
    → Stands key k l.attempts
    → has_key k l.attempts ≡ true
    → first (get k l.attempts) + window l ≤ later
    → (check key later l).allowed ≡ true
unfolding check admit_key
admits_later key k later clock l s st here old = elim (Bool-cases (has_key key l.attempts)) [
  | inl e ↦ rw e (charge_allowed key l.attempts later l (own e))
  | inr e ↦ rw e (elim (Bool-cases (leb l.max_keys (length l.attempts))) [
    | inl full ↦
        rw full (elim (Bool-cases (leb l.max_keys (length (evict (window l) later l.attempts)))) [
          | inl still ↦ rw still (
              charge_allowed "overflow" (evict (window l) later l.attempts) later l
                (rw (get_overflow-evict (window l) later l.attempts) (shared e)))
          | inr room ↦ rw room (
              charge_allowed key (evict (window l) later l.attempts) later l (
                empty (evict (window l) later l.attempts)
                  (has_key-evict key (window l) later l.attempts e)))
        ])
    | inr free ↦ rw free (charge_allowed key l.attempts later l (empty l.attempts e))
  ])
]
  where
    held : length (get k l.attempts) ≤ l.max_attempts
    held = (Holds-get l.max_attempts clock k l.attempts s.buckets).0

    own :
        has_key key l.attempts ≡ true
        → length (drop_stale (window l) later (get key l.attempts)) < l.max_attempts
    own e = ground (
      arith,
      st,
      e,
      room_later (window l) later l.max_attempts (get k l.attempts) s.some_attempts held old,
    )

    shared :
        has_key key l.attempts ≡ false
        → length (drop_stale (window l) later (get "overflow" l.attempts)) < l.max_attempts
    shared e = ground (
      arith,
      st,
      e,
      here,
      room_later (window l) later l.max_attempts (get k l.attempts) s.some_attempts held old,
    )

    empty :
        (bs : Buckets)
        → has_key key bs ≡ false
        → length (drop_stale (window l) later (get key bs)) < l.max_attempts
    empty bs e = rw (get_of_no_key key bs e) (unfold drop_stale in omega (arith, s.some_attempts))

first-le : (ts : List ℕ) (hi : ℕ) → Sorted ts hi → first ts ≤ hi
first-le [] hi s = omega arith
first-le (t ∷ []) hi s = s
first-le (t ∷ u ∷ ts) hi s = omega (arith, s.0, first-le (u ∷ ts) hi s.1)

first-put : (k : String) (ts : List ℕ) (bs : Buckets) → get k (put k ts bs) ≡ ts
first-put k ts bs = ground (arith, get-put k k ts bs, eq_iff k k)

Stands-put :
    (key k : String) (ts : List ℕ) (bs : Buckets) → Stands key k bs → Stands key k (put k ts bs)
Stands-put key k ts bs (inl e) = inl e
Stands-put key k ts bs (inr s) = inr (s.0, ground (arith, s, has_key-put key k ts bs), s.2)

-- The seconds of the header are at most one short of what is left of the window.
waits_enough :
    (w now oldest retry later : ℕ)
    → oldest ≤ now
    → retry ≡ max 1 ((w - (now - oldest)) / ticks)
    → now + (retry + 1) * ticks ≤ later
    → oldest + w ≤ later
waits_enough w now oldest retry later h e g = omega arith

-- A client that a sound limiter refused and that comes back a second after the time that
-- `Retry-After` names is admitted, if no other exchange came in between.
pub check_after_retry :
    (key : String) (now clock later : ℕ) (l : Limiter)
    → clock ≤ now
    → IsSound l clock
    → (check key now l).allowed ≡ false
    → now + ((check key now l).retry_after + 1) * ticks ≤ later
    → (check key later (check key now l).limiter).allowed ≡ true
unfolding check
check_after_retry key now clock later l h s refused wait =
    admits_later key k later now l' sound
      (rw r.left (Stands-put key k live bs (admit_key-Stands key now l s.overflow_kept)))
      (rw r.left (ground (arith, has_key-put k k live bs, eq_iff k k)))
      (rw (r.left, first-put k live bs)
        (omega (
          arith,
          r.limits.1,
          waits_enough (window l) now (first live) (charge k bs now l).retry_after later
              (first-le live now sorted) r.said (unfold check in wait),
        )))
  where
    k : String
    k = (admit_key key now l).0

    bs : Buckets
    bs = (admit_key key now l).1

    live : List ℕ
    live = drop_stale (window l) now (get k bs)

    l' : Limiter
    l' = (check key now l).limiter

    r : Refusal k bs now l
    r = refusal k bs now l (unfold check in refused)

    sound : IsSound l' now
    sound = check-IsSound key now clock l h s

    sorted : Sorted live now
    sorted =
        subst (λ ts. Sorted ts now) (rw r.left (first-put k live bs))
          (Holds-get l'.max_attempts now k l'.attempts sound.buckets).1

-- A refusal leaves the charged key with a bucket that is full, and tells what is left of the
-- window of its oldest time.
left_full :
    (key : String) (now : ℕ) (l : Limiter)
    → (check key now l).allowed ≡ false
    → (check key now l).charged ≡ key
    → let l' = (check key now l).limiter in
      (has_key key l'.attempts ≡ true)
      × (l'.max_attempts ≤ length (get key l'.attempts))
      × (window l' ≡ window l)
      × ((check key now l).retry_after
          ≡ max 1 ((window l - (now - first (get key l'.attempts))) / ticks))
unfolding check
left_full key now l refused own =
    let (k, bs) = admit_key key now l in
    let r = refusal k bs now l refused in
    let live : List ℕ = drop_stale (window l) now (get k bs) in
    let e : k ≡ key = unfold charge in ground (arith, own) in
    let there : get key (charge k bs now l).limiter.attempts ≡ live =
      rw r.left (ground (arith, get-put key k live bs, eq_iff k key, e)) in
    (
      rw r.left (ground (arith, has_key-put key k live bs, eq_iff k key, e)),
      rw there (ground (arith, r.full, r.limits.0)),
      ap (λ s. s * ticks) r.limits.1,
      rw there r.said,
    )

-- Rounding down what is left of a window of more than a second falls short of its end.
falls_short :
    (w now oldest retry : ℕ)
    → retry ≡ max 1 ((w - (now - oldest)) / ticks)
    → ticks ≤ w - (now - oldest)
    → ((w - (now - oldest)) / ticks) * ticks < w - (now - oldest)
    → now + retry * ticks < oldest + w
falls_short w now oldest retry e h k = omega arith

-- What is left, when a check has been made, until the oldest counted time of a key is stale.
abbrev pub wait_left : String → ℕ → Limiter → ℕ
wait_left key now l = window l - (now - first (get key (check key now l).limiter.attempts))

-- A client was refused on its own key, when at least a second and not a whole number of seconds
-- was left until the oldest time in its bucket goes stale. If it comes back exactly after the
-- seconds that `Retry-After` names, it is refused again.
pub check_at_retry :
    (key : String) (now : ℕ) (l : Limiter)
    → (check key now l).allowed ≡ false
    → (check key now l).charged ≡ key
    → ticks ≤ wait_left key now l
    → (wait_left key now l / ticks) * ticks < wait_left key now l
    → (check key (now + (check key now l).retry_after * ticks) (check key now l).limiter).allowed
      ≡ false
check_at_retry key now l refused own long broken =
    let later = now + (check key now l).retry_after * ticks in
    let l' = (check key now l).limiter in
    let (present, full, same, said) = left_full key now l refused own in
    let oldest = first (get key l'.attempts) in
    let short = falls_short (window l) now oldest (check key now l).retry_after said long broken in
    let still : drop_stale (window l') later (get key l'.attempts) ≡ get key l'.attempts =
      full_still (window l') later (get key l'.attempts) (rw same short) in
    unfold check admit_key in rw present (charge_refused key l'.attempts later l' (rw still full))
