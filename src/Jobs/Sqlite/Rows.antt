-- ===== src/Jobs/Sqlite/Rows.antt =====
-- The rows of `scan_jobs`: no two have one id, and no two of one tenant have one idempotency key.
use shared_integration.Prelude.{
  ℕ, String, ◌≡◌, refl, ◌∙◌, Bool, false, not, ◌&&◌, Option, none, some, List, [], ◌∷◌, ◌++◌, arith,
  eq_iff, if◌then◌else◌, find, any, count, update, find-update, any-append, applied,
}
use mathlib.Core.Option
use shared_integration.Jobs.{Status, Job, status_eq}
use shared_integration.Jobs.Sqlite.{is_job, key_clash, clashes, claimable}

abbrev pub NoClash : List Job → Type 0
NoClash [] = Unit {0}
NoClash (x ∷ xs) = (any (clashes x) xs ≡ false) × NoClash xs

-- An update keeps what the constraints are about.
pub record KeepsKeys (f : Job → Job) : Type 0 where
  pub id : (x : Job) → (f x).id ≡ x.id
  pub tenant : (x : Job) → (f x).tenant_id ≡ x.tenant_id
  pub key : (x : Job) → (f x).idempotency_key ≡ x.idempotency_key

clashes_comm : (x y : Job) → clashes x y ≡ clashes y x
clashes_comm x y = ground (
  arith,
  eq_iff x.id y.id,
  eq_iff y.id x.id,
  eq_iff x.tenant_id y.tenant_id,
  eq_iff y.tenant_id x.tenant_id,
  keys x.idempotency_key y.idempotency_key,
)
  where
    keys : (a b : Option String) → key_clash a b ≡ key_clash b a
    keys none none = refl
    keys none (some b) = refl
    keys (some a) none = refl
    keys (some a) (some b) = ground (arith, eq_iff a b, eq_iff b a)

pub NoClash-append :
    (xs : List Job) (new : Job)
    → NoClash xs
    → any (clashes new) xs ≡ false
    → NoClash (xs ++ new ∷ [])
unfolding any
NoClash-append [] new h e = (refl, tt)
NoClash-append (x ∷ xs) new h e = (
  rw any-append (unfold any in ground (arith, h.0, clashes_comm x new, e)),
  NoClash-append xs new h.1 (ground (arith, e)),
)

clashes_keeps :
    (f : Job → Job) (x y : Job)
    → KeepsKeys f
    → (clashes x (f y) ≡ clashes x y) × (clashes (f x) y ≡ clashes x y)
clashes_keeps f x y k = (rw (k.id y, k.tenant y, k.key y), rw (k.id x, k.tenant x, k.key x))

any_keeps :
    (f : Job → Job) (q : Job → Bool) (x : Job) (xs : List Job)
    → KeepsKeys f
    → any (clashes (applied q f x)) (update q f xs) ≡ any (clashes x) xs
unfolding any update
any_keeps f q x [] k = refl
any_keeps f q x (y ∷ xs) k =
    ground (arith, clashes_keeps f x y k, clashes_keeps f x (f y) k, any_keeps f q x xs k)

pub NoClash-update :
    (f : Job → Job) (q : Job → Bool) (xs : List Job)
    → KeepsKeys f
    → NoClash xs
    → NoClash (update q f xs)
unfolding update
NoClash-update f q [] k h = tt
NoClash-update f q (x ∷ xs) k h = (any_keeps f q x xs k ∙ h.0, NoClash-update f q xs k h.1)

is_job_keeps :
    (f : Job → Job) (t j : String) → KeepsKeys f → (x : Job) → is_job t j (f x) ≡ is_job t j x
is_job_keeps f t j k x = rw (k.id x, k.tenant x)

pub find_job-update :
    (f : Job → Job) (q : Job → Bool) (t j : String) (xs : List Job)
    → KeepsKeys f
    → find (is_job t j) (update q f xs) ≡ Option.map (applied q f) (find (is_job t j) xs)
find_job-update f q t j xs k = find-update (is_job t j) q f xs (is_job_keeps f t j k)

-- Past a row with the id `j` there is no other to claim.
claims_none :
    (t j : String) (st : Status) (x : Job) (xs : List Job)
    → x.id ≡ j
    → any (clashes x) xs ≡ false
    → count (claimable t j st) xs ≡ 0
unfolding any count
claims_none t j st x [] e h = refl
claims_none t j st x (y ∷ xs) e h =
    ground (arith, e, eq_iff y.id j, eq_iff y.id x.id, claims_none t j st x xs e)

abbrev pub ready : Status → Job → Bool
ready st x = status_eq x.status st && not x.cancel_requested

abbrev pub ready_count : Status → Option Job → ℕ
ready_count st none = 0
ready_count st (some x) = if ready st x then 1 else 0

-- The row count of the guarded `UPDATE` is 1 exactly if the job is there and ready.
pub count-claimable :
    (t j : String) (st : Status) (xs : List Job)
    → NoClash xs
    → count (claimable t j st) xs ≡ ready_count st (find (is_job t j) xs)
unfolding count find
count-claimable t j st [] h = refl
count-claimable t j st (x ∷ xs) h = ground (
  arith,
  eq_iff x.id j,
  eq_iff x.tenant_id t,
  claims_none t j st x xs,
  h.0,
  count-claimable t j st xs h.1,
)
