-- ===== src/Jobs/Sqlite/Tenants.antt =====
-- A call for one tenant changes nothing that another tenant can see.
use mathlib.Core.Option
use shared_integration.Prelude.{
  ℕ, String, ◌≡◌, refl, ap, ◌∙◌, ◌≢◌, ◌⊎◌, Bool, true, false, Option, none, some, List, arith,
  eq_iff, str_eq, any, count, update, applied, Bool-cases, Option-cases, inl, inr, ◌==◌,
}
use shared_integration.Json.{Fields}
use shared_integration.Jobs.{Job, Event, terminal}
use shared_integration.Jobs.Sqlite.{
  Store, NewJob, Outcome, is_job, clashes, queued_row, started, settled, cancelling, create, insert,
  mark_running, transition, append_event, request_cancel, set_dispatch_id, claimable,
  expected_status, get, idempotent_match, push_event,
}
use shared_integration.Jobs.Sqlite.Events.{events_of}
use shared_integration.Jobs.Sqlite.Rows.{KeepsKeys}
use shared_integration.Jobs.Sqlite.Lookup.{get-update, get-insert, get-is_job, events_of-push}
use shared_integration.Jobs.Sqlite.Invariant.{
  Op, creates, claims, settles, notes, dispatches, cancels, step, started-KeepsKeys,
  settled-KeepsKeys, cancelling-KeepsKeys,
}

-- What tenant `t` sees of a job id.
pub record SameView (t j : String) (s s' : Store) : Type 0 where
  pub job : get t j s' ≡ get t j s
  pub log : events_of t j s'.events ≡ events_of t j s.events

SameView-refl : (t j : String) (s : Store) → SameView t j s s
SameView-refl t j s = record { job = refl; log = refl }

abbrev pub tenant_of : Op → String
tenant_of (creates new now id) = new.tenant_id
tenant_of (claims u i q now) = u
tenant_of (settles u i o now) = u
tenant_of (notes u i kind payload now) = u
tenant_of (dispatches u i d now) = u
tenant_of (cancels u i now) = u

same_update :
    (t j u i : String) (q : Job → Bool) (f : Job → Job) (events : List Event) (s : Store)
    → u ≢ t
    → KeepsKeys f
    → ((x : Job) → q x ≡ true → is_job u i x ≡ true)
    → get t j (record { jobs = update q f s.jobs; events = events }) ≡ get t j s
same_update t j u i q f events s ne k own =
    get-update t j q f events s k ∙ untouched (get t j s) refl
  where
    miss : (x : Job) → get t j s ≡ some x → q x ≡ false
    miss x e = elim (Bool-cases (q x)) [
      | inl h ↦
          let mine = own x h in
          let found = get-is_job t j s x e in
          absurd (ne (ground (arith, mine, found, eq_iff x.tenant_id u, eq_iff x.tenant_id t)))
      | inr h ↦ h
    ]

    untouched : (o : Option Job) → get t j s ≡ o → Option.map (applied q f) (get t j s) ≡ get t j s
    untouched none e = rw e
    untouched (some x) e = rw e (ap some (rw (miss x e)))

same_log :
    (t j u i kind : String) (payload : Fields) (now : ℕ) (events : List Event)
    → u ≢ t
    → events_of t j (push_event u i kind payload now events) ≡ events_of t j events
same_log t j u i kind payload now events ne =
    events_of-push t j u i kind payload now events
    ∙ (elim (Bool-cases (str_eq u t)) [ inl e ↦ absurd (ne ((eq_iff u t).0 e)) | inr e ↦ rw e ])

create-SameView :
    (t j : String) (new : NewJob) (now : ℕ) (id : String) (s : Store)
    → new.tenant_id ≢ t
    → SameView t j s (create new now id s).1
unfolding create
create-SameView t j new now id s ne = elim (Option-cases (idempotent_match new s)) [
  | inr (x, e) ↦ rw (e, create) (SameView-refl t j s)
  | inl e ↦ rw (e, create) (put (Bool-cases (any (clashes (queued_row new now id)) s.jobs)))
]
  where
    foreign : is_job t j (queued_row new now id) ≡ false
    foreign = elim (Bool-cases (str_eq new.tenant_id t)) [
      | inl h ↦ absurd (ne ((eq_iff new.tenant_id t).0 h))
      | inr h ↦ rw h
    ]

    put :
        (any (clashes (queued_row new now id)) s.jobs ≡ true)
          ⊎ (any (clashes (queued_row new now id)) s.jobs ≡ false)
        → SameView t j s (insert new now id s).1
    put (inl h) = unfold insert in rw h (SameView-refl t j s)
    put (inr h) =
        unfold insert in
        rw h (record {
          job = get-insert t j (queued_row new now id) _ s h ∙ rw foreign;
          log = same_log t j new.tenant_id id _ _ now s.events ne;
        })

claim-SameView :
    (t j u i : String) (q : Bool) (now : ℕ) (s : Store)
    → u ≢ t
    → SameView t j s (mark_running u i q now s).1
unfolding mark_running
claim-SameView t j u i q now s ne =
    let row = λ (events : List Event).
      same_update t j u i (claimable u i (expected_status q)) (started now) events s ne
        (started-KeepsKeys now) (λ x h. ground (arith, h)) in
    elim (Bool-cases (count (claimable u i (expected_status q)) s.jobs == 1)) [
      | inl h ↦ rw h (record { job = row _; log = same_log t j u i _ _ now s.events ne })
      | inr h ↦ rw h (record { job = row _; log = refl })
    ]

settle-SameView :
    (t j u i : String) (o : Outcome) (now : ℕ) (s : Store)
    → u ≢ t
    → SameView t j s (transition u i o now s).1
unfolding transition
settle-SameView t j u i o now s ne = elim (Option-cases (get u i s)) [
  | inl h ↦ rw (h, transition) (SameView-refl t j s)
  | inr (y, h) ↦
      rw (h, transition)
        (record {
          job =
              same_update t j u i (is_job u i) (settled o now _) _ s ne (settled-KeepsKeys o now _)
                (λ x g. g);
          log = same_log t j u i _ _ now s.events ne;
        })
]

note-SameView :
    (t j u i kind : String) (payload : Fields) (now : ℕ) (s : Store)
    → u ≢ t
    → SameView t j s (append_event u i kind payload now s).1
unfolding append_event
note-SameView t j u i kind payload now s ne = elim (Option-cases (get u i s)) [
  | inl h ↦ rw (h, append_event) (SameView-refl t j s)
  | inr (y, h) ↦
      rw (h, append_event)
        (record { job = unfold get in refl; log = same_log t j u i _ _ now s.events ne })
]

cancel-SameView :
    (t j u i : String) (now : ℕ) (s : Store) → u ≢ t → SameView t j s (request_cancel u i now s).1
unfolding request_cancel
cancel-SameView t j u i now s ne = elim (Option-cases (get u i s)) [
  | inl h ↦ rw (h, request_cancel) (SameView-refl t j s)
  | inr (y, h) ↦
      rw (h, request_cancel)
        (elim (Bool-cases (terminal y.status)) [
          | inl done ↦ rw done (SameView-refl t j s)
          | inr live ↦ rw live (record {
            job =
                same_update t j u i (is_job u i) (cancelling _ now) _ s ne
                  (cancelling-KeepsKeys _ now) (λ x g. g);
            log = same_log t j u i _ _ now s.events ne;
          })
        ])
]

-- A call for one tenant leaves every job and every event log that another tenant sees as they
-- were.
pub step-SameView :
    (t j : String) (s : Store) (o : Op) → tenant_of o ≢ t → SameView t j s (step s o)
unfolding step set_dispatch_id
step-SameView t j s (creates new now id) ne = create-SameView t j new now id s ne
step-SameView t j s (claims u i q now) ne = claim-SameView t j u i q now s ne
step-SameView t j s (settles u i o now) ne = settle-SameView t j u i o now s ne
step-SameView t j s (notes u i kind payload now) ne = note-SameView t j u i kind payload now s ne
step-SameView t j s (dispatches u i d now) ne = record {
  job =
      same_update t j u i (is_job u i) _ s.events s ne
        (record { id = λ x. refl; tenant = λ x. refl; key = λ x. refl }) (λ x g. g);
  log = refl;
}
step-SameView t j s (cancels u i now) ne = cancel-SameView t j u i now s ne
