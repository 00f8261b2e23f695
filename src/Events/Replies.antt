-- ===== src/Events/Replies.antt =====
-- The replies of `ingest` in memory-execution-event-repository.ts, and what they leave of the store.
use ai_dev_harness.Shared.{
  ◌≡◌, ◌∙◌, refl, sym, ap, subst, false, not, ◌||◌, none, some, List, [], ◌∷◌, ◌++◌, find,
  find-append_none, find-mem, text_eq, text_eq_iff, text_eq_refl, Text, Bool-cases, Option-cases,
  inl, inr, if◌then◌else◌, arith,
}
use ai_dev_harness.Events.{AutoDevRunEvent, ExecutionRunProjection}
use ai_dev_harness.Events.Ingest.{
  Store, ProcessingStatus, filed, EventIngestResult, accepted, duplicate, conflict, run_not_found,
  identity_mismatch, has_external, has_source, take_in, is_mismatch, ingest,
}
use ai_dev_harness.Events.Arrivals.{
  take_in-gap, take_in-late, take_in-next, turn-cases, waiting, drained, drained-external,
}
use ai_dev_harness.Events.Order.{put_same, flagged}
use ai_dev_harness.Events.Accepted.{IsOwn, own_lem, foreign_lem, IsTurn, drained-takes}
use ai_dev_harness.Events.Convergence.{ingest_all}
use ai_dev_harness.Events.Knowing.{Knows, take_in-Knows, ingest_all-Knows}

-- An event that is new is filed for its own run, and the store holds the run that the reply returns.
pub record IsAccepted (s : Store) (e : AutoDevRunEvent) (digest : Text) (t : Store)
    (disposition : ProcessingStatus) (run : ExecutionRunProjection) : Type 0 where
  pub new : find (has_source e.source_event_id) s.inbox ≡ none
  pub filed : Knows e.source_event_id digest t.inbox
  pub old : ExecutionRunProjection
  pub found : find (has_external e.external_run_id) s.runs ≡ some old
  pub own : IsOwn old e
  pub turn : IsTurn e old disposition run
  pub stored : find (has_external e.external_run_id) t.runs ≡ some run

-- What the reply says of the event and of the store, before and after.
abbrev pub Replied : Store → AutoDevRunEvent → Text → Store × EventIngestResult → Type 0
Replied s e digest (t, accepted disposition run) = IsAccepted s e digest t disposition run
Replied s e digest (t, duplicate) = (t ≡ s) × Knows e.source_event_id digest s.inbox
Replied s e digest (t, conflict other) =
    (t ≡ s) × Knows e.source_event_id other s.inbox × (text_eq other digest ≡ false)
Replied s e digest (t, run_not_found) =
    (t ≡ s)
    × (find (has_source e.source_event_id) s.inbox ≡ none)
    × (find (has_external e.external_run_id) s.runs ≡ none)
Replied s e digest (t, identity_mismatch) =
    (t ≡ s)
    × (find (has_source e.source_event_id) s.inbox ≡ none)
    × ((run : ExecutionRunProjection) × (find (has_external e.external_run_id) s.runs ≡ some run)
        × ¬ IsOwn run e)

fresh-Knows :
    (s : Store) (e : AutoDevRunEvent) (digest : Text)
    → find (has_source e.source_event_id) s.inbox ≡ none
    → (status : ProcessingStatus)
    → Knows e.source_event_id digest (s.inbox ++ filed e digest status ∷ [])
fresh-Knows s e digest q status = (
  filed e digest status,
  find-append_none (has_source e.source_event_id) s.inbox (filed e digest status ∷ []) q
      ∙ ground (arith, text_eq_refl e.source_event_id),
  refl,
)

-- A new event of a known run is accepted, in each of the three cases of its sequence.
take_in-Replied :
    (s : Store) (run : ExecutionRunProjection) (e : AutoDevRunEvent) (digest : Text)
    → find (has_source e.source_event_id) s.inbox ≡ none
    → find (has_external e.external_run_id) s.runs ≡ some run
    → IsOwn run e
    → Replied s e digest (take_in s run e digest)
take_in-Replied s run e digest new found own =
    let x = e.external_run_id in
    let named : run.external_run_id ≡ x =
      (text_eq_iff run.external_run_id x).0 (find-mem (has_external x) s.runs run found).1 in
    let k = take_in-Knows e.source_event_id digest s run e digest (fresh-Knows s e digest new) in
    elim (turn-cases run e) [
      | inl far ↦
          let t = take_in-gap s run e digest far in
          subst (Replied s e digest) (sym t) (record {
            new = new;
            filed = subst (λ r. Knows e.source_event_id digest r.0.inbox) t k;
            old = run;
            found = found;
            own = own;
            turn = inl (omega (arith, far), refl, refl);
            stored = put_same x run s.runs run (waiting s run e digest) named found;
          })
      | inr (inl late) ↦
          let t = take_in-late s run e digest late in
          subst (Replied s e digest) (sym t) (record {
            new = new;
            filed = subst (λ r. Knows e.source_event_id digest r.0.inbox) t k;
            old = run;
            found = found;
            own = own;
            turn = inr (inl (late, refl, refl));
            stored = found;
          })
      | inr (inr next) ↦
          let t = take_in-next s run e digest next in
          let (settled, takes) = drained-takes s run e digest named next in
          subst (Replied s e digest) (sym t) (record {
            new = new;
            filed = subst (λ r. Knows e.source_event_id digest r.0.inbox) t k;
            old = run;
            found = found;
            own = own;
            turn = inr (inr (next, settled, takes));
            stored =
                put_same x run s.runs run (flagged (drained s run e digest))
                  (drained-external x run s run e digest x named) found;
          })
    ]

-- Every reply of `ingest`, with the case in which it is given. A duplicate: the inbox held the source
-- identity with this digest; a conflict: with another digest, which the reply names. Otherwise the
-- identity is new, and run_not_found means that no run has the external identity, identity_mismatch that
-- the task or an observed identity is not that of the run, and accepted that they are. Every reply but
-- accepted leaves the store as it was. An accepted event is in the
-- inbox with its digest, and the run that the reply returns is in the store. An event ahead of its turn is
-- a gap and flags the run; one behind is ignored and leaves the run; with one that is next the disposition
-- is applied or terminal_ignored, and the run has its sequence or a later one.
pub ingest-Replied :
    (s : Store) (e : AutoDevRunEvent) (digest : Text) → Replied s e digest (ingest s e digest)
unfolding ingest
ingest-Replied s e digest = elim (Option-cases (find (has_source e.source_event_id) s.inbox)) [
  | inr (existing, q) ↦ elim (Bool-cases (text_eq existing.digest digest)) [
    | inl u ↦ rw (ingest, q, u) (refl, (existing, q, (text_eq_iff existing.digest digest).0 u))
    | inr u ↦ rw (ingest, q, u) (refl, (existing, q, refl), u)
  ]
  | inl q ↦ elim (Option-cases (find (has_external e.external_run_id) s.runs)) [
    | inl t ↦ rw (ingest, q, t) (refl, q, t)
    | inr (run, t) ↦
        elim (Bool-cases (
          not (text_eq run.external_task_id e.external_task_id)
          || is_mismatch e.observability run)) [
            | inl u ↦ rw (ingest, q, t, u) (refl, q, (run, t, foreign_lem run e u))
            | inr u ↦ rw (ingest, q, t, u) (take_in-Replied s run e digest q t (own_lem run e u))
          ]
  ]
]

known-ingest :
    (s : Store) (f : AutoDevRunEvent) (digest other : Text)
    → Knows f.source_event_id digest s.inbox
    → ingest s f other ≡ (s, (if text_eq digest other then duplicate else conflict digest))
unfolding ingest
known-ingest s f digest other (r, found, same) =
    rw (ingest, found) (ap (λ d. (s, if text_eq d other then duplicate else conflict d)) same)

-- After an event was accepted, and whatever arrived since, an event with its source identity
-- changes nothing: it is a duplicate if its digest is that of the accepted event, and a conflict
-- otherwise.
pub redelivered :
    (s : Store) (e f : AutoDevRunEvent) (digest other : Text) (disposition : ProcessingStatus)
    (run : ExecutionRunProjection) (arrivals : List (AutoDevRunEvent × Text))
    → (ingest s e digest).1 ≡ accepted disposition run
    → f.source_event_id ≡ e.source_event_id
    → ingest (ingest_all arrivals (ingest s e digest).0) f other ≡ (
      ingest_all arrivals (ingest s e digest).0,
      (if text_eq digest other then duplicate else conflict digest),
    )
redelivered s e f digest other disposition run arrivals h same =
    let a : IsAccepted s e digest (ingest s e digest).0 disposition run =
      subst (λ r. Replied s e digest ((ingest s e digest).0, r)) h (ingest-Replied s e digest) in
    let k : Knows e.source_event_id digest (ingest s e digest).0.inbox = a.filed in
    known-ingest (ingest_all arrivals (ingest s e digest).0) f digest other (
      subst (λ i. Knows i digest (ingest_all arrivals (ingest s e digest).0).inbox) (sym same)
        (ingest_all-Knows e.source_event_id digest arrivals (ingest s e digest).0 k))
