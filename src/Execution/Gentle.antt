-- ===== src/Execution/Gentle.antt =====
-- What other processes may do to a job while it is executed.
use mathlib.Core.Option
use shared_integration.Prelude.{
  ℕ, String, ◌≡◌, refl, ap, ◌∙◌, ◌⊎◌, inl, inr, Bool, true, false, not, ◌&&◌, ◌||◌, some, List, [],
  ◌∷◌, arith, eq_iff, str_eq, ◌==◌, any, count, update, applied, Bool-cases, Option-cases,
}
use shared_integration.Json.{Fields}
use shared_integration.Jobs.{Status, Job, Event, terminal, queued, cancelled, status_eq}
use shared_integration.Jobs.Sqlite.{
  Store, NewJob, Outcome, get, is_job, clashes, queued_row, create, insert, mark_running,
  transition, append_event, set_dispatch_id, request_cancel, claimable, expected_status, started,
  settled, cancelling, cancel_status, idempotent_match, or_else,
}
use shared_integration.Jobs.Sqlite.Rows.{KeepsKeys}
use shared_integration.Jobs.Sqlite.Lookup.{get-insert, get-update, get-is_job, get_of_no_clash}
use shared_integration.Jobs.Sqlite.Invariant.{
  Op, creates, claims, settles, notes, dispatches, cancels, step, run, started-KeepsKeys,
  settled-KeepsKeys, cancelling-KeepsKeys,
}

-- A call that neither claims nor settles the job; `b` says whether it may cancel it.
abbrev pub is_gentle : Bool → String → String → Op → Bool
is_gentle b t j (creates new now id) = true
is_gentle b t j (claims u i q now) = not (str_eq u t && str_eq i j)
is_gentle b t j (settles u i o now) = not (str_eq u t && str_eq i j)
is_gentle b t j (notes u i kind payload now) = true
is_gentle b t j (dispatches u i d now) = true
is_gentle b t j (cancels u i now) = b || not (str_eq u t && str_eq i j)

unfoldable pub all_gentle : Bool → String → String → List Op → Bool
all_gentle b t j [] = true
all_gentle b t j (o ∷ os) = is_gentle b t j o && all_gentle b t j os

-- What such calls leave of the job `x`.
pub record Kept (b : Bool) (x y : Job) : Type 0 where
  pub status : (y.status ≡ x.status) ⊎ ((x.status ≡ queued) × (y.status ≡ cancelled) × (b ≡ true))
  pub flag :
      (y.cancel_requested ≡ x.cancel_requested) ⊎ ((b ≡ true) × (status_eq y.status queued ≡ false))

Kept-refl : (b : Bool) (x : Job) → Kept b x x
Kept-refl b x = record { status = inl refl; flag = inl refl }

Kept-trans : (b : Bool) (x y z : Job) → Kept b x y → Kept b y z → Kept b x z
Kept-trans b x y z h k =
    let s = h.status in
    let s' = k.status in
    let f = h.flag in
    let f' = k.flag in record { status = ground (arith, s, s'); flag = ground (arith, f, f') }

abbrev pub Keeps : String → String → Bool → Job → Store → Type 0
Keeps t j b x s = (y : Job) × (get t j s ≡ some y) × Kept b x y

by_update :
    (t j : String) (b : Bool) (x : Job) (q : Job → Bool) (f : Job → Job) (events : List Event)
    (s : Store)
    → KeepsKeys f
    → get t j s ≡ some x
    → (q x ≡ true → Kept b x (f x))
    → Keeps t j b x (record { jobs = update q f s.jobs; events = events })
by_update t j b x q f events s k e l = (
  applied q f x,
  get-update t j q f events s k ∙ ap (Option.map (applied q f)) e,
  elim (Bool-cases (q x)) [ inl h ↦ rw h (l h) | inr h ↦ rw h (Kept-refl b x) ],
)

foreign :
    (t j u i : String) (x : Job)
    → is_job t j x ≡ true
    → (str_eq u t && str_eq i j) ≡ false
    → is_job u i x ≡ true
    → ⊥
foreign t j u i x here other there = ground (
  arith,
  here,
  other,
  there,
  eq_iff x.tenant_id t,
  eq_iff x.tenant_id u,
  eq_iff x.id j,
  eq_iff x.id i,
  eq_iff u t,
  eq_iff i j,
)

module _ (t j : String) (b : Bool) (x : Job) (s : Store) (e : get t j s ≡ some x) where
  create-Keeps : (new : NewJob) (now : ℕ) (id : String) → Keeps t j b x (create new now id s).1
  unfolding create insert
  create-Keeps new now id = elim (Option-cases (idempotent_match new s)) [
    | inr (y, h) ↦ rw (h, create) (x, e, Kept-refl b x)
    | inl h ↦
        rw (h, create)
          (elim (Bool-cases (any (clashes (queued_row new now id)) s.jobs)) [
            | inl clash ↦ rw clash (x, e, Kept-refl b x)
            | inr free ↦ rw free (elim (Bool-cases (is_job t j (queued_row new now id))) [
              | inl here ↦
                  let gone = get_of_no_clash t j (queued_row new now id) s free here in
                  absurd (cc (gone, e))
              | inr there ↦
                  (x, get-insert t j (queued_row new now id) _ s free ∙ rw there e, Kept-refl b x)
            ])
          ])
  ]

  claim-Keeps :
      (u i : String) (q : Bool) (now : ℕ)
      → (str_eq u t && str_eq i j) ≡ false
      → Keeps t j b x (mark_running u i q now s).1
  unfolding mark_running
  claim-Keeps u i q now other =
      let row = λ (events : List Event).
        by_update t j b x (claimable u i (expected_status q)) (started now) events s
          (started-KeepsKeys now) e
          (λ h. absurd (foreign t j u i x (get-is_job t j s x e) other (ground (arith, h)))) in
      elim (Bool-cases (count (claimable u i (expected_status q)) s.jobs == 1)) [
        | inl h ↦ rw h (row _)
        | inr h ↦ rw h (row _)
      ]

  settle-Keeps :
      (u i : String) (o : Outcome) (now : ℕ)
      → (str_eq u t && str_eq i j) ≡ false
      → Keeps t j b x (transition u i o now s).1
  unfolding transition
  settle-Keeps u i o now other = elim (Option-cases (get u i s)) [
    | inl h ↦ rw (h, transition) (x, e, Kept-refl b x)
    | inr (y, h) ↦
        rw (h, transition)
          (by_update t j b x (is_job u i) (settled o now (or_else o.result_count y.result_count)) _
            s (settled-KeepsKeys o now (or_else o.result_count y.result_count)) e
            (λ k. absurd (foreign t j u i x (get-is_job t j s x e) other k)))
  ]

  note-Keeps :
      (u i kind : String) (payload : Fields) (now : ℕ)
      → Keeps t j b x (append_event u i kind payload now s).1
  unfolding append_event get
  note-Keeps u i kind payload now = elim (Option-cases (get u i s)) [
    | inl h ↦ rw (h, append_event) (x, e, Kept-refl b x)
    | inr (y, h) ↦ rw (h, append_event) (x, e, Kept-refl b x)
  ]

  cancel-Keeps :
      (u i : String) (now : ℕ)
      → (b || not (str_eq u t && str_eq i j)) ≡ true
      → Keeps t j b x (request_cancel u i now s).1
  unfolding request_cancel
  cancel-Keeps u i now ok_to = elim (Option-cases (get u i s)) [
    | inl h ↦ rw (h, request_cancel) (x, e, Kept-refl b x)
    | inr (y, h) ↦
        rw (h, request_cancel)
          (elim (Bool-cases (terminal y.status)) [
            | inl over ↦ rw over (x, e, Kept-refl b x)
            | inr live ↦ rw live (
                by_update t j b x (is_job u i) (cancelling (cancel_status y.status) now) _ s
                  (cancelling-KeepsKeys (cancel_status y.status) now) e (λ k. kept k y h))
          ])
  ]
    where
      status_cases :
          (st : Status) → (cancel_status st ≡ st) ⊎ ((st ≡ queued) × (cancel_status st ≡ cancelled))
      status_cases st = ground arith

      not_queued : (st : Status) → status_eq (cancel_status st) queued ≡ false
      not_queued st = ground arith

      kept :
          is_job u i x ≡ true
          → (y : Job) → get u i s ≡ some y
          → Kept b x (cancelling (cancel_status y.status) now x)
      kept k y h =
          let here = get-is_job t j s x e in
          let may : b ≡ true = elim (Bool-cases (str_eq u t && str_eq i j)) [
            | inl same ↦ ground (arith, ok_to, same)
            | inr other ↦ absurd (foreign t j u i x here other k)
          ] in
          let tenant : u ≡ t =
            ground (arith, here, k, eq_iff x.tenant_id t, eq_iff x.tenant_id u) in
          let id : i ≡ j = ground (arith, here, k, eq_iff x.id j, eq_iff x.id i) in
          let same : y ≡ x = cc (tenant, id, h, e) in
          let status = status_cases x.status in
          record {
            status = elim status [
              | inl stays ↦ inl (ap (λ (z : Job). cancel_status z.status) same ∙ stays)
              | inr (was, becomes) ↦
                  inr (was, ap (λ (z : Job). cancel_status z.status) same ∙ becomes, may)
            ];
            flag = inr (may, not_queued y.status);
          }

  dispatch-Keeps : (u i d : String) (now : ℕ) → Keeps t j b x (set_dispatch_id u i d now s)
  unfolding set_dispatch_id
  dispatch-Keeps u i d now =
      by_update t j b x (is_job u i) (λ row. record row { dispatch_id = some d; updated_at = now })
        s.events s (record { id = λ y. refl; tenant = λ y. refl; key = λ y. refl }) e
        (λ k. record { status = inl refl; flag = inl refl })

step-Keeps :
    (t j : String) (b : Bool) (x : Job) (s : Store) (o : Op)
    → get t j s ≡ some x
    → is_gentle b t j o ≡ true
    → Keeps t j b x (step s o)
unfolding step
step-Keeps t j b x s (creates new now id) e h = create-Keeps t j b x s e new now id
step-Keeps t j b x s (claims u i q now) e h = claim-Keeps t j b x s e u i q now (ground (arith, h))
step-Keeps t j b x s (settles u i o now) e h =
    settle-Keeps t j b x s e u i o now (ground (arith, h))
step-Keeps t j b x s (notes u i kind payload now) e h = note-Keeps t j b x s e u i kind payload now
step-Keeps t j b x s (dispatches u i d now) e h = dispatch-Keeps t j b x s e u i d now
step-Keeps t j b x s (cancels u i now) e h = cancel-Keeps t j b x s e u i now h

pub run-Keeps :
    (t j : String) (b : Bool) (x : Job) (s : Store) (os : List Op)
    → get t j s ≡ some x
    → all_gentle b t j os ≡ true
    → Keeps t j b x (run s os)
unfolding run all_gentle
run-Keeps t j b x s [] e h = (x, e, Kept-refl b x)
run-Keeps t j b x s (o ∷ os) e h =
    let (y, found, first) = step-Keeps t j b x s o e (ground (arith, h)) in
    let (z, last, rest) = run-Keeps t j b y (step s o) os found (ground (arith, h)) in
    (z, last, Kept-trans b x y z first rest)
