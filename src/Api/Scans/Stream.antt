-- ===== src/Api/Scans/Stream.antt =====
-- What a client of `scan_events` is sent.
use shared_integration.Prelude.{
  ℕ, zero, suc, ◌+◌, ◌≤◌, String, ◌≡◌, refl, sym, ap, subst, ◌∙◌, inl, inr, ◌⊎◌, false, true,
  Option, some, List, [], ◌∷◌, ◌++◌, map, arith, leb, length, length-append, take, drop, append-nil,
  append_assoc, if◌then◌else◌, Bool-cases,
}
use shared_integration.Jobs.{Job, Event}
use shared_integration.Jobs.Sqlite.{Store, get, list_events}
use shared_integration.Jobs.Sqlite.Events.{Numbered, events_of, list_events_resume}
use shared_integration.Jobs.Sqlite.Invariant.{run, IsWellFormed, run-IsWellFormed}
use shared_integration.Jobs.Sqlite.History.{run-Becomes}
use shared_integration.Jobs.Sqlite.Growth.{log_grows}
use shared_integration.Api.{replied}
use shared_integration.Api.Scans.Slices.{IsSlice, take-IsSlice, append-IsSlice, slice-take}
use shared_integration.Api.Scans.{
  Round, Chunk, event, heartbeat, Streamed, last_sequence, is_over, idle_after, beat, event_stream,
  scan_events, last_event_id,
}

-- The events among the chunks.
abbrev pub sent : List Chunk → List Event
sent [] = []
sent (event e ∷ cs) = e ∷ sent cs
sent (heartbeat ∷ cs) = sent cs

sent-map : (es : List Event) (cs : List Chunk) → sent (map event es ++ cs) ≡ es ++ sent cs
sent-map [] cs = refl
sent-map (e ∷ es) cs = ap (λ x. e ∷ x) (sent-map es cs)

sent-events : (es : List Event) → sent (map event es) ≡ es
sent-events [] = refl
sent-events (e ∷ es) = ap (λ x. e ∷ x) (sent-events es)

sent-beat : (idle : ℕ) (cs : List Chunk) → sent (beat idle ++ cs) ≡ sent cs
sent-beat idle cs = elim (Bool-cases (leb 60 idle)) [ inl e ↦ rw e refl | inr e ↦ rw e refl ]

append-Numbered :
    (n : ℕ) (xs ys : List Event)
    → Numbered n xs
    → Numbered (n + length xs) ys
    → Numbered n (xs ++ ys)
append-Numbered n [] ys h k = subst (λ m. Numbered m ys) (omega arith) k
append-Numbered n (x ∷ xs) ys h k =
    (h.0, append-Numbered (suc n) xs ys h.1 (subst (λ m. Numbered m ys) (omega arith) k))

last_sequence-Numbered :
    (n : ℕ) (es : List Event) → Numbered (n + 1) es → last_sequence n es ≡ n + length es
unfolding last_sequence
last_sequence-Numbered n [] h = omega arith
last_sequence-Numbered n (e ∷ es) h =
    let next =
      last_sequence-Numbered e.sequence es (subst (λ m. Numbered m es) (omega (arith, h.0)) h.1) in
    omega (arith, next, h.0)

-- Nothing is left past the first `n`.
drop_nothing : (k n : ℕ) (es : List Event) → take (suc k) (drop n es) ≡ [] → length es ≤ n
drop_nothing k zero [] h = omega arith
drop_nothing k zero (e ∷ es) h = absurd (ground (arith, h))
drop_nothing k (suc n) [] h = omega arith
drop_nothing k (suc n) (e ∷ es) h = omega (arith, drop_nothing k n es h)

-- The stream goes on, or has sent all that the log of the job held at the last look.
abbrev pub IsComplete : String → String → ℕ → Streamed → Type 0
IsComplete t j n out =
    (out.ended ≡ false) ⊎ (length (events_of t j out.log.events) ≤ n + length (sent out.chunks))

-- The events that were sent after the first `n`, from a log that `s` starts with, and that this log
-- had no more where the stream ended.
record Sends (t j : String) (n : ℕ) (s : Store) (out : Streamed) : Type 0 where
  more : List Event
  later : events_of t j out.log.events ≡ events_of t j s.events ++ more
  slice : IsSlice n (sent out.chunks) (events_of t j out.log.events)
  numbered : Numbered (n + 1) (sent out.chunks)
  complete : IsComplete t j n out

over_empty : (x : Job) (es : List Event) → is_over (some x) es ≡ true → es ≡ []
over_empty x [] h = refl
over_empty x (e ∷ es) h = absurd (ground (arith, h))

event_stream-Sends :
    (t j : String) (rs : List Round) (n idle : ℕ) (s : Store) (x : Job)
    → IsWellFormed s
    → get t j s ≡ some x
    → Sends t j n s (event_stream t j rs n idle s)
unfolding event_stream
event_stream-Sends t j [] n idle s x w e = record {
  more = [];
  later = sym (append-nil (events_of t j s.events));
  slice = record { rest = _; at = refl };
  numbered = tt;
  complete = inl refl;
}
event_stream-Sends t j (r ∷ rs) n idle s x w e =
    let listed = run s r.before_list in
    let s' = run listed r.before_get in
    let events = list_events t j n 1000 listed in
    let w1 = run-IsWellFormed s r.before_list w in
    let w2 = run-IsWellFormed listed r.before_get w1 in
    let (y, found, _) = run-Becomes t j x s r.before_list e in
    let (z, found', _) = run-Becomes t j y listed r.before_get found in
    let (same, ordered) = list_events_resume listed t j n 1000 w1.numbered in
    let idle' = idle_after idle events in
    let log = events_of t j listed.events in
    let (more, grown) = log_grows t j s r.before_list in
    let (more', grown') = log_grows t j listed r.before_get in
    elim (Bool-cases (is_over (some z) events)) [
      | inl over ↦
          let nothing : events ≡ [] = over_empty z events over in
          let seen : length (events_of t j listed.events) ≤ n =
            drop_nothing 999 n (events_of t j listed.events) (sym same ∙ nothing) in
          rw (found', over)
            (record {
              more = more;
              later = grown;
              slice =
                  subst (λ es. IsSlice n es log) (sym (sent-events events ∙ nothing))
                    (record { rest = _; at = refl });
              numbered = subst (Numbered (n + 1)) (sym (sent-events events)) ordered;
              complete = inr (omega (arith, seen));
            })
      | inr going ↦
          let idle'' = if leb 60 idle' then 0 else idle' in
          let next = last_sequence n events in
          let at : next ≡ n + length events = last_sequence-Numbered n events ordered in
          let rest = event_stream-Sends t j rs next idle'' s' z w2 found' in
          let tail = event_stream t j rs next idle'' s' in
          let said : sent (map event events ++ (beat idle' ++ tail.chunks))
              ≡ events ++ sent tail.chunks =
            sent-map events (beat idle' ++ tail.chunks)
            ∙ ap (λ c. events ++ c) (sent-beat idle' tail.chunks) in
          let whole = events_of t j tail.log.events in
          let after_look : whole ≡ log ++ (more' ++ rest.more) =
            rest.later ∙ ap (λ es. es ++ rest.more) grown' ∙ append_assoc log more' rest.more in
          let first_piece : IsSlice n events whole = subst (IsSlice n events) (sym after_look) (
            subst (λ es. IsSlice n es (log ++ (more' ++ rest.more))) (sym same)
              (take-IsSlice n 1000 log (more' ++ rest.more))) in
          let pieces : IsSlice n (events ++ sent tail.chunks) whole =
            append-IsSlice n events (sent tail.chunks) whole first_piece
              (subst (λ m. IsSlice m (sent tail.chunks) whole) at rest.slice) in
          rw (found', going)
            (record {
              more = more ++ (more' ++ rest.more);
              later =
                  after_look
                  ∙ ap (λ es. es ++ (more' ++ rest.more)) grown
                  ∙ append_assoc (events_of t j s.events) more (more' ++ rest.more);
              slice = subst (λ es. IsSlice n es whole) (sym said) pieces;
              numbered = subst (Numbered (n + 1)) (sym said) (
                  append-Numbered (n + 1) events (sent tail.chunks) ordered
                    (subst (λ m. Numbered m (sent tail.chunks)) (omega (arith, at)) rest.numbered));
              complete = elim rest.complete [
                | inl going_on ↦ inl going_on
                | inr all_sent ↦ inr (
                    omega (
                      arith,
                      all_sent,
                      at,
                      ap length said,
                      length-append events (sent tail.chunks),
                    ))
              ];
            })
    ]

-- Where the job is in a well-formed store and the client has seen the first `after` events, the
-- events it is sent are those that stand next in the job's log, in order, with no gap and no
-- repetition, whatever other processes commit between the calls. The log is that of the last look at
-- it: the job's log in the store at the beginning, and what was added at its end since. The stream
-- goes on, or all is sent that the log then held; what is written between that look and the look at
-- the job's status is not sent.
pub scan_events_lem :
    (int : String → Option ℕ) (request t j : String) (header : Option String) (rounds : List Round)
    (s : Store) (x : Job) (after : ℕ)
    → IsWellFormed s
    → get t j s ≡ some x
    → last_event_id int header ≡ some after
    → (out : Streamed) × (scan_events int request t j header rounds s ≡ replied 200 out)
      × (sent out.chunks
          ≡ take (length (sent out.chunks)) (drop after (events_of t j out.log.events)))
      × Numbered (after + 1) (sent out.chunks)
      × ((more : List Event) × (events_of t j out.log.events ≡ events_of t j s.events ++ more))
      × IsComplete t j after out
unfolding scan_events
scan_events_lem int request t j header rounds s x after w e h =
    let out = event_stream t j rounds after 0 s in
    let k = event_stream-Sends t j rounds after 0 s x w e in
    (
      out,
      rw (e, h, scan_events) refl,
      slice-take after (sent out.chunks) (events_of t j out.log.events) k.slice,
      k.numbered,
      (k.more, k.later),
      k.complete,
    )
