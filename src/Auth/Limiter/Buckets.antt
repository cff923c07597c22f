-- ===== src/Auth/Limiter/Buckets.antt =====
-- The deques of the limiter: which times are still counted, and what the dictionary operations do.
use shared_integration.Prelude.{
  ℕ, suc, ◌≤◌, String, ◌≡◌, refl, subst, Bool, true, false, not, ◌||◌, List, [], ◌∷◌, ◌++◌, arith,
  eq_iff, str_eq, if◌then◌else◌, length, All, select, any, count, Bool-cases, inl, inr,
}
use shared_integration.Auth.Limiter.{
  Buckets, stale, has_key, get, put, last_stale, kept, evict, drop_stale,
}

-- The times that a window ending at `t` still counts.
abbrev pub live_at : ℕ → ℕ → ℕ → Bool
live_at w t x = not (stale w t x)

abbrev pub fresh : ℕ → ℕ → List ℕ → ℕ
fresh w t = count (live_at w t)

-- Oldest first, and none after `hi`.
abbrev pub Sorted : List ℕ → ℕ → Type 0
Sorted [] hi = Unit {0}
Sorted (t ∷ []) hi = t ≤ hi
Sorted (t ∷ u ∷ ts) hi = (t ≤ u) × Sorted (u ∷ ts) hi

pub Sorted-snoc : (ts : List ℕ) (hi now : ℕ) → hi ≤ now → Sorted ts hi → Sorted (ts ++ now ∷ []) now
Sorted-snoc [] hi now h s = omega arith
Sorted-snoc (t ∷ []) hi now h s = omega arith
Sorted-snoc (t ∷ u ∷ ts) hi now h s = (s.0, Sorted-snoc (u ∷ ts) hi now h s.1)

pub Sorted-le : (ts : List ℕ) (hi now : ℕ) → hi ≤ now → Sorted ts hi → Sorted ts now
Sorted-le [] hi now h s = tt
Sorted-le (t ∷ []) hi now h s = omega arith
Sorted-le (t ∷ u ∷ ts) hi now h s = (s.0, Sorted-le (u ∷ ts) hi now h s.1)

Sorted-tail : (t : ℕ) (ts : List ℕ) (hi : ℕ) → Sorted (t ∷ ts) hi → Sorted ts hi
Sorted-tail t [] hi s = tt
Sorted-tail t (u ∷ ts) hi s = s.1

pub Sorted-drop_stale :
    (w now : ℕ) (ts : List ℕ) (hi : ℕ) → Sorted ts hi → Sorted (drop_stale w now ts) hi
unfolding drop_stale
Sorted-drop_stale w now [] hi s = tt
Sorted-drop_stale w now (t ∷ ts) hi s = elim (Bool-cases (stale w now t)) [
  | inl e ↦ rw e (Sorted-drop_stale w now ts hi (Sorted-tail t ts hi s))
  | inr e ↦ rw e s
]

pub length-drop_stale : (w now : ℕ) (ts : List ℕ) → length (drop_stale w now ts) ≤ length ts
unfolding drop_stale
length-drop_stale w now [] = omega arith
length-drop_stale w now (t ∷ ts) = ground (arith, length-drop_stale w now ts)

-- What leaves the deque at `now` is counted by no later window.
pub fresh-drop_stale :
    (w now t : ℕ) (ts : List ℕ) → now ≤ t → fresh w t (drop_stale w now ts) ≡ fresh w t ts
unfolding drop_stale count
fresh-drop_stale w now t [] h = refl
fresh-drop_stale w now t (x ∷ ts) h = ground (arith, fresh-drop_stale w now t ts h)

pub fresh_of_last_stale :
    (w now t : ℕ) (ts : List ℕ) (hi : ℕ)
    → Sorted ts hi
    → last_stale w now ts ≡ true
    → now ≤ t
    → (fresh w t ts ≡ 0)
unfolding last_stale count
fresh_of_last_stale w now t [] hi s e h = refl
fresh_of_last_stale w now t (x ∷ []) hi s e h = ground arith
fresh_of_last_stale w now t (x ∷ y ∷ ts) hi s e h =
    let rest = fresh_of_last_stale w now t (y ∷ ts) hi s.1 e h in ground (arith, rest)

abbrev pub Distinct : Buckets → Type 0
Distinct [] = Unit {0}
Distinct ((k, ts) ∷ bs) = (has_key k bs ≡ false) × Distinct bs

pub get-put :
    (j k : String) (ts : List ℕ) (bs : Buckets)
    → get j (put k ts bs) ≡ (if str_eq k j then ts else get j bs)
unfolding get put
get-put j k ts [] = refl
get-put j k ts ((i, us) ∷ bs) =
    ground (arith, eq_iff i k, eq_iff i j, eq_iff k j, get-put j k ts bs)

pub has_key-put :
    (j k : String) (ts : List ℕ) (bs : Buckets)
    → has_key j (put k ts bs) ≡ has_key j bs || str_eq k j
unfolding put any
has_key-put j k ts [] = ground arith
has_key-put j k ts ((i, us) ∷ bs) =
    ground (arith, eq_iff i k, eq_iff i j, eq_iff k j, has_key-put j k ts bs)

pub length-put :
    (k : String) (ts : List ℕ) (bs : Buckets)
    → length (put k ts bs) ≡ (if has_key k bs then length bs else suc (length bs))
unfolding put any
length-put k ts [] = refl
length-put k ts ((i, us) ∷ bs) = ground (arith, length-put k ts bs)

pub Distinct-put : (k : String) (ts : List ℕ) (bs : Buckets) → Distinct bs → Distinct (put k ts bs)
unfolding put any
Distinct-put k ts [] d = (refl, tt)
Distinct-put k ts ((i, us) ∷ bs) d =
    ground (arith, eq_iff i k, eq_iff k i, has_key-put i k ts bs, Distinct-put k ts bs d.1)

pub has_key-evict :
    (k : String) (w now : ℕ) (bs : Buckets)
    → has_key k bs ≡ false
    → has_key k (evict w now bs) ≡ false
unfolding evict select any
has_key-evict k w now [] h = refl
has_key-evict k w now ((i, us) ∷ bs) h = ground (arith, has_key-evict k w now bs)

pub Distinct-evict : (w now : ℕ) (bs : Buckets) → Distinct bs → Distinct (evict w now bs)
unfolding evict select any
Distinct-evict w now [] d = tt
Distinct-evict w now ((i, us) ∷ bs) d =
    ground (arith, has_key-evict i w now bs, Distinct-evict w now bs d.1)

pub overflow-evict :
    (w now : ℕ) (bs : Buckets)
    → has_key "overflow" bs ≡ true
    → has_key "overflow" (evict w now bs) ≡ true
unfolding evict select any
overflow-evict w now [] h = h
overflow-evict w now ((i, us) ∷ bs) h = ground (arith, overflow-evict w now bs)

fresh_of_no_key :
    (w t : ℕ) (k : String) (bs : Buckets) → has_key k bs ≡ false → fresh w t (get k bs) ≡ 0
unfolding get any count
fresh_of_no_key w t k [] h = refl
fresh_of_no_key w t k ((i, us) ∷ bs) h = ground (arith, fresh_of_no_key w t k bs)

fresh_of_missing :
    (w t : ℕ) (i k : String) (bs : Buckets)
    → has_key i bs ≡ false
    → i ≡ k
    → fresh w t (get k bs) ≡ 0
fresh_of_missing w t i k bs h e = fresh_of_no_key w t k bs (subst (λ j. has_key j bs ≡ false) e h)

-- Eviction of a key loses no time that a later window counts.
pub fresh-evict :
    (w now t hi : ℕ) (k : String) (bs : Buckets)
    → Distinct bs
    → All (λ b. Sorted b.1 hi) bs
    → now ≤ t
    → fresh w t (get k (evict w now bs)) ≡ fresh w t (get k bs)
unfolding evict select get
fresh-evict w now t hi k [] d s h = refl
fresh-evict w now t hi k ((i, us) ∷ bs) d s h = elim (Bool-cases (kept w now (i, us))) [
  | inl e ↦ rw e (ground (arith, fresh-evict w now t hi k bs d.1 s.1 h))
  | inr e ↦ rw e (
      ground (
        arith,
        eq_iff i k,
        fresh-evict w now t hi k bs d.1 s.1 h,
        fresh_of_missing w t i k bs d.0,
        fresh_of_last_stale w now t us hi s.0,
      ))
]
