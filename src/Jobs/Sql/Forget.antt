-- ===== src/Jobs/Sql/Forget.antt =====
-- The SQLAlchemy repository does what the SQLite one does: forgetting queues, tenants and audit
-- events turns each of its calls into the same call of the other, with the same answer.
use mathlib.Core.List.{map-append}
use shared_integration.Prelude.{
  String, ◌≡◌, ◌≢◌, refl, sym, ap, ◌∙◌, Bool, true, false, Option, none, some, List, [], ◌∷◌, ◌++◌,
  map, arith, eq_iff, find, any, count, update, Bool-cases, Option-cases, inl, inr, find-true,
}
use shared_integration.Core.{Source}
use shared_integration.Result.{ok}
use shared_integration.Jobs.{Job, queued, status_payload}
use shared_integration.Jobs.Sqlite
use shared_integration.Jobs.Sqlite.{
  Store, NewJob, Outcome, JobFilter, is_job, clashes, queued_row, claimable, expected_status,
  started, settled, or_else, cancelling, cancel_status, some_job,
}
use shared_integration.Jobs.Sqlite.Rows.{NoClash}
use shared_integration.Jobs.Sql.{
  Db, Row, Draw, Tenant, ensure_tenant, get, find_by_idempotency_key, recover, reload, inserted,
  insert, create, update_rows, has_id, required, idempotent_match,
}

abbrev pub job_of : Row → Job
job_of r = r.job

-- What the SQLite schema holds of the database.
abbrev pub forget : Db → Store
forget db = record { jobs = map job_of db.rows; events = db.events }

-- The same answer, and the same store after it.
abbrev pub SameResult : {A : Type 0} → A × Db → A × Store → Type 0
SameResult (a, db) (b, s) = (a ≡ b) × (forget db ≡ s)

pub map-update_rows :
    (p : Job → Bool) (f : Job → Job) (rows : List Row)
    → map job_of (update_rows p f rows) ≡ update p f (map job_of rows)
unfolding update
map-update_rows p f [] = refl
map-update_rows p f (r ∷ rows) = ground (arith, map-update_rows p f rows)

any-map : (p : Job → Bool) (rows : List Row) → any (λ r. p r.job) rows ≡ any p (map job_of rows)
unfolding any
any-map p [] = refl
any-map p (r ∷ rows) = ground (arith, any-map p rows)

pub count-map :
    (p : Job → Bool) (rows : List Row) → count (λ r. p r.job) rows ≡ count p (map job_of rows)
unfolding count
count-map p [] = refl
count-map p (r ∷ rows) = ground (arith, count-map p rows)

untouched :
    (t i : String) (f g : Job → Job) (y : Job) (xs : List Job)
    → y.id ≡ i
    → any (clashes y) xs ≡ false
    → (update (has_id i) f xs ≡ xs) × (update (is_job t i) g xs ≡ xs)
unfolding any update
untouched t i f g y [] e h = (refl, refl)
untouched t i f g y (x ∷ xs) e h =
    ground (arith, e, eq_iff x.id i, eq_iff x.id y.id, untouched t i f g y xs e)

clash_of_id :
    (t j : String) (x y : Job) (xs : List Job)
    → find (is_job t j) xs ≡ some x
    → y.id ≡ j
    → any (clashes y) xs ≡ true
unfolding any find
clash_of_id t j x y [] h e = absurd (ground arith)
clash_of_id t j x y (z ∷ xs) h e =
    ground (arith, h, e, eq_iff z.id j, eq_iff z.id y.id, clash_of_id t j x y xs)

-- Where ids are unique, the row of a job's primary key is the row of its tenant and id.
pub update_by_id :
    (t j : String) (f g : Job → Job) (x : Job) (xs : List Job)
    → NoClash xs
    → find (is_job t j) xs ≡ some x
    → f x ≡ g x
    → update (has_id x.id) f xs ≡ update (is_job t j) g xs
unfolding update find
update_by_id t j f g x [] u h e = refl
update_by_id t j f g x (y ∷ xs) u h e = elim (Bool-cases (is_job t j y)) [
  | inl hit ↦
      let same : y ≡ x = ground (arith, h, hit) in
      let id_of : y.id ≡ j = ground (arith, hit, eq_iff y.id j) in
      let rest = untouched t j f g y xs id_of u.0 in
      ground (arith, hit, e, same, id_of, eq_iff y.id x.id, rest, rest_at same id_of rest)
  | inr miss ↦
      let later : find (is_job t j) xs ≡ some x = ground (arith, h, miss) in
      let tail = update_by_id t j f g x xs u.1 later e in
      ground (arith, miss, tail, eq_iff y.id x.id, other later)
]
  where
    rest_at :
        y ≡ x
        → y.id ≡ j
        → ((update (has_id j) f xs ≡ xs) × (update (is_job t j) g xs ≡ xs))
        → update (has_id x.id) f xs ≡ xs
    rest_at same id_of rest =
        ap (λ i. update (has_id i) f xs) (sym (ap (λ (z : Job). z.id) same) ∙ id_of) ∙ rest.0

    other : find (is_job t j) xs ≡ some x → y.id ≡ x.id → ⊥
    other later e' =
        let here = find-true (is_job t j) xs x later in
        let clash = clash_of_id t j x y xs later (e' ∙ (ground (arith, here, eq_iff x.id j))) in
        cc (clash, u.0)

pub get-forget : (t j : String) (db : Db) → get t j db ≡ Sqlite.get t j (forget db)
unfolding get Sqlite.get
get-forget t j db = refl

pub required-forget : (t j : String) (db : Db) → required t j db ≡ Sqlite.required t j (forget db)
unfolding required Sqlite.required get Sqlite.get
required-forget t j db = refl

recover-forget : (new : NewJob) (db : Db) → recover new db ≡ Sqlite.recover new (forget db)
unfolding recover Sqlite.recover find_by_idempotency_key Sqlite.find_by_idempotency_key
recover-forget new db = refl

match-forget :
    (new : NewJob) (db : Db) → idempotent_match new db ≡ Sqlite.idempotent_match new (forget db)
unfolding find_by_idempotency_key Sqlite.find_by_idempotency_key
match-forget new db = refl

reload-forget : (t j : String) (db : Db) → reload t j db ≡ Sqlite.reload t j (forget db)
unfolding get Sqlite.get
reload-forget t j db = refl

insert-forget :
    (value : Source → String) (new : NewJob) (d : Draw) (db : Db) (tenants : List Tenant)
    → ensure_tenant new.tenant_id d.now db.tenants ≡ some tenants
    → SameResult (insert value new d db) (Sqlite.insert new d.now d.job_id (forget db))
unfolding insert Sqlite.insert
insert-forget value new d db tenants e =
    let row : Job = queued_row new d.now d.job_id in
    let db' : Db = inserted value new d tenants db in
    let stored : forget db'
        ≡ Sqlite.with_event new.tenant_id d.job_id "status" (status_payload queued) d.now
            (record (forget db) { jobs = map job_of db.rows ++ row ∷ [] }) =
      rw map-append in
    rw (e, insert, any-map (clashes row) db.rows)
      (elim (Bool-cases (any (clashes row) (map job_of db.rows))) [
        | inl h ↦ rw h (recover-forget new db, refl)
        | inr h ↦ rw h (
          reload-forget new.tenant_id d.job_id db'
              ∙ ap (Sqlite.reload new.tenant_id d.job_id) stored,
          stored,
        )
      ])

-- A `create` whose tenant is there, or can be made, answers as the SQLite repository does over
-- the jobs and events of the database, and leaves the jobs and events that that would leave.
pub create-forget :
    (value : Source → String) (new : NewJob) (d : Draw) (db : Db)
    → ensure_tenant new.tenant_id d.now db.tenants ≢ none
    → SameResult (create value new d db) (Sqlite.create new d.now d.job_id (forget db))
unfolding create Sqlite.create
create-forget value new d db free =
    elim (Option-cases (ensure_tenant new.tenant_id d.now db.tenants)) [
      | inl h ↦ absurd (free h)
      | inr (tenants, h) ↦ elim (Option-cases (Sqlite.idempotent_match new (forget db))) [
        | inl e ↦
            rw (e, Sqlite.create, match-forget new db ∙ e, create)
              (insert-forget value new d db tenants h)
        | inr (x, e) ↦ rw (e, Sqlite.create, match-forget new db ∙ e, create) (refl, refl)
      ]
    ]

pub some_job_ok :
    (t j : String) (s : Store) (c : Option Job)
    → some_job (Sqlite.required t j s) ≡ ok c
    → ok (Sqlite.get t j s) ≡ some_job (Sqlite.required t j s)
unfolding Sqlite.required
some_job_ok t j s c h = ground arith
