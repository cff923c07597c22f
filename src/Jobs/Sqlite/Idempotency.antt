-- ===== src/Jobs/Sqlite/Idempotency.antt =====
-- `create` with an idempotency key: one job for a tenant and a key, also when two calls race.
use shared_integration.Prelude.{
  ℕ, String, ◌≡◌, refl, ◌∙◌, Bool, true, false, Option, none, some, List, [], ◌∷◌, ◌++◌, arith,
  eq_iff, str_eq, find, any, find-append, any-append, Bool-cases, Option-cases, inl, inr, find-true,
}
use shared_integration.Result.{ok}
use shared_integration.Jobs.{Job, queued, status_payload}
use shared_integration.Jobs.Sqlite.{
  Store, NewJob, same_key, has_idempotency, clashes, queued_row, insert, create, recover,
  idempotent_match, find_by_idempotency_key, get, with_event,
}
use shared_integration.Jobs.Sqlite.Lookup.{get-insert}

find_key_of_no_clash :
    (t k : String) (row : Job) (xs : List Job)
    → row.tenant_id ≡ t
    → row.idempotency_key ≡ some k
    → any (clashes row) xs ≡ false
    → find (has_idempotency t k) xs ≡ none
unfolding any find
find_key_of_no_clash t k row [] a b h = refl
find_key_of_no_clash t k row (x ∷ xs) a b h = ground (
  arith,
  a,
  b,
  eq_iff x.tenant_id t,
  eq_iff x.tenant_id row.tenant_id,
  find_key_of_no_clash t k row xs a b,
)

-- Without the id, a clash is one of the idempotency key, and the look-up finds it.
find_key_of_clash :
    (row : Job) (xs : List Job)
    → any (λ x. str_eq x.id row.id) xs ≡ false
    → any (clashes row) xs ≡ true
    → (k : String) × (x : Job) × (row.idempotency_key ≡ some k)
      × (find (has_idempotency row.tenant_id k) xs ≡ some x)
unfolding any find
find_key_of_clash row [] f h = absurd (ground arith)
find_key_of_clash row (x ∷ xs) f h = elim (Bool-cases (clashes row x)) [
  | inl here ↦ at_head row.idempotency_key refl here
  | inr other ↦
      let (k, y, e, found) =
        find_key_of_clash row xs (ground (arith, f)) (ground (arith, h, other)) in
      elim (Bool-cases (has_idempotency row.tenant_id k x)) [
        | inl hit ↦ (k, x, e, ground (arith, hit))
        | inr miss ↦ (k, y, e, ground (arith, miss, found))
      ]
]
  where
    at_head :
        (o : Option String)
        → row.idempotency_key ≡ o
        → clashes row x ≡ true
        → (k : String) × (y : Job) × (row.idempotency_key ≡ some k)
          × (find (has_idempotency row.tenant_id k) (x ∷ xs) ≡ some y)
    at_head none e here = absurd (ground (arith, e, here, f))
    at_head (some k) e here = (k, x, e, ground (arith, e, here, f))

-- What a successful `INSERT` leaves.
inserted : NewJob → ℕ → String → Store → Store
inserted new now id s =
    with_event new.tenant_id id "status" (status_payload queued) now
      (record s { jobs = s.jobs ++ queued_row new now id ∷ [] })

insert_fresh :
    (new : NewJob) (now : ℕ) (id : String) (s : Store)
    → any (clashes (queued_row new now id)) s.jobs ≡ false
    → insert new now id s ≡ (ok (queued_row new now id, true), inserted new now id s)
unfolding insert inserted
insert_fresh new now id s h =
    let found : get new.tenant_id id (inserted new now id s) ≡ some (queued_row new now id) =
      get-insert new.tenant_id id (queued_row new now id) _ s h
      ∙ ground (arith, eq_iff new.tenant_id new.tenant_id, eq_iff id id) in
    ground (arith, h, found)

insert_clash :
    (new : NewJob) (now : ℕ) (id : String) (s : Store)
    → any (clashes (queued_row new now id)) s.jobs ≡ true
    → insert new now id s ≡ (recover new s, s)
unfolding insert
insert_clash new now id s h = rw h

-- A `create` that made a new job.
made :
    (new : NewJob) (now : ℕ) (id : String) (s s' : Store) (x : Job)
    → insert new now id s ≡ (ok (x, true), s')
    → (any (clashes (queued_row new now id)) s.jobs ≡ false)
      × (x ≡ queued_row new now id)
      × (s' ≡ inserted new now id s)
unfolding recover
made new now id s s' x h = elim (Bool-cases (any (clashes (queued_row new now id)) s.jobs)) [
  | inl e ↦ absurd (ground (arith, h, insert_clash new now id s e))
  | inr e ↦ ground (arith, h, e, insert_fresh new now id s e)
]

key_found :
    (new : NewJob) (now : ℕ) (id k : String) (s : Store)
    → new.idempotency_key ≡ some k
    → any (clashes (queued_row new now id)) s.jobs ≡ false
    → find_by_idempotency_key new.tenant_id k (inserted new now id s) ≡ some (queued_row new now id)
unfolding find_by_idempotency_key inserted
key_found new now id k s e h =
    rw (find-append, find_key_of_no_clash new.tenant_id k (queued_row new now id) s.jobs refl e h)
      (unfold find in ground (arith, e, eq_iff new.tenant_id new.tenant_id, eq_iff k k))

-- After an insert has made the job of a tenant and a key, every call of `create` with that
-- tenant and key returns the same job, makes none and leaves the store as it is; and so does one
-- that looked the key up before the job was there and now meets the unique constraint.
pub create_again :
    (new again : NewJob) (now later : ℕ) (id id' k : String) (s s' : Store) (x : Job)
    → new.idempotency_key ≡ some k
    → again.idempotency_key ≡ some k
    → again.tenant_id ≡ new.tenant_id
    → insert new now id s ≡ (ok (x, true), s')
    → (create again later id' s' ≡ (ok (x, false), s'))
      × (insert again later id' s' ≡ (ok (x, false), s'))
create_again new again now later id id' k s s' x e e' t h =
    let (fresh, is_row, is_store) = made new now id s s' x h in
    let found : find_by_idempotency_key again.tenant_id k s' ≡ some x =
      rw (t, is_store, is_row) (key_found new now id k s e fresh) in
    let clash : any (clashes (queued_row again later id')) s'.jobs ≡ true = rw is_store (
      unfold inserted in
      rw any-append (
        unfold any in
        ground (arith, e, e', t, eq_iff new.tenant_id again.tenant_id, eq_iff k k))) in
    (
      unfold create in ground (arith, e', found),
      insert_clash again later id' s' clash ∙ (unfold recover in ground (arith, e', found)),
    )

-- With an id that no job has, `create` never raises, and what it returns is a job of the tenant with
-- the idempotency key of the request.
pub create_total :
    (new : NewJob) (now : ℕ) (id : String) (s : Store)
    → any (λ x. str_eq x.id id) s.jobs ≡ false
    → (x : Job) × (made_now : Bool) × ((create new now id s).0 ≡ ok (x, made_now))
      × (x.tenant_id ≡ new.tenant_id)
      × (x.idempotency_key ≡ new.idempotency_key)
unfolding create
create_total new now id s f = elim (Option-cases (idempotent_match new s)) [
  | inr (x, e) ↦
      let (same, key) = matched new.idempotency_key refl x e in
      (x, false, rw (e, create), same, key)
  | inl e ↦ elim (Bool-cases (any (clashes (queued_row new now id)) s.jobs)) [
    | inr fresh ↦ (
      queued_row new now id,
      true,
      rw (e, create) (rw (insert_fresh new now id s fresh)),
      refl,
      refl,
    )
    | inl clash ↦
        let (k, x, key, found) = find_key_of_clash (queued_row new now id) s.jobs f clash in
        let (same, same_key') = owner k x key found in
        let run : recover new s ≡ ok (x, false) =
          unfold recover find_by_idempotency_key in ground (arith, key, found) in
        (x, false, rw (e, create) (rw (insert_clash new now id s clash) run), same, same_key')
  ]
]
  where
    owner :
        (k : String) (x : Job)
        → new.idempotency_key ≡ some k
        → find (has_idempotency new.tenant_id k) s.jobs ≡ some x
        → (x.tenant_id ≡ new.tenant_id) × (x.idempotency_key ≡ new.idempotency_key)
    owner k x key found =
        let hit = find-true (has_idempotency new.tenant_id k) s.jobs x found in
        ground (arith, key, hit, eq_iff x.tenant_id new.tenant_id, same x.idempotency_key k)
      where
        same : (o : Option String) (i : String) → same_key o i ≡ true → o ≡ some i
        same none i h = absurd (ground arith)
        same (some i') i h = ground (arith, h, eq_iff i' i)

    matched :
        (o : Option String)
        → new.idempotency_key ≡ o
        → (x : Job) → idempotent_match new s ≡ some x
        → (x.tenant_id ≡ new.tenant_id) × (x.idempotency_key ≡ new.idempotency_key)
    matched none e x h = absurd (ground (arith, e, h))
    matched (some k) e x h = owner k x e (unfold find_by_idempotency_key in ground (arith, e, h))
