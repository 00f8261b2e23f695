-- ===== src/Events/Arrivals.antt =====
-- `ingest` of memory-execution-event-repository.ts, one event after the other, in any order.
use mathlib.Core.Option.{some-injective}
use ai_dev_harness.Shared.{
  suc, ◌+◌, ◌≤◌, ◌≡◌, ◌≢◌, ◌⊎◌, ◌∙◌, refl, sym, subst, true, false, not, ◌||◌, some, [], ◌∷◌, ◌++◌,
  find, find-mem, length, text_eq, text_eq_iff, Text, Bool-cases, Option-cases, inl, inr, ltb, leb,
  arith,
}
use ai_dev_harness.Events.{AutoDevRunEvent, ExecutionRunProjection}
use ai_dev_harness.Events.Ingest.{
  Store, pending, applied, gap, terminal_ignored, Drained, has_external, has_source, put_run, filed,
  take_in, is_mismatch, EventIngestResult, accepted, ingest,
}
use ai_dev_harness.Events.Keeping.{append-IsUpToDate, drain_external, drain-IsUpToDate}
use ai_dev_harness.Events.Order.{
  IsCurrent, put_same, put_other, gap-IsUpToDate, late-IsUpToDate, next-IsUpToDate, drained_from,
  flagged,
}

module _ (s : Store) (run : ExecutionRunProjection) (e : AutoDevRunEvent) (digest : Text) where
  abbrev pub waiting : ExecutionRunProjection
  waiting = record run { reconciliation_required = true }

  pub take_in-gap :
      suc (run.last_event_sequence + 1) ≤ e.sequence
      → take_in s run e digest ≡ (
        record s { runs = put_run waiting s.runs; inbox = s.inbox ++ filed e digest gap ∷ [] },
        accepted gap waiting,
      )
  unfolding take_in
  take_in-gap far = ground (arith, far)

  pub take_in-late :
      e.sequence ≤ run.last_event_sequence
      → take_in s run e digest ≡ (
        record s { inbox = s.inbox ++ filed e digest terminal_ignored ∷ [] },
        accepted terminal_ignored run,
      )
  unfolding take_in
  take_in-late late = ground (arith, late)

  abbrev pub drained : Drained
  drained = drained_from run s e digest

  abbrev pub landed : Drained → Store × EventIngestResult
  landed d = (
    record { runs = put_run (flagged d) s.runs; inbox = d.inbox; outbox = d.outbox },
    accepted d.disposition (flagged d),
  )

  pub take_in-next :
      e.sequence ≡ run.last_event_sequence + 1 → take_in s run e digest ≡ landed drained
  unfolding take_in
  take_in-next next = ground (arith, next)

-- Which of the three cases an event of the run is.
pub turn-cases :
    (run : ExecutionRunProjection) (e : AutoDevRunEvent)
    → (suc (run.last_event_sequence + 1) ≤ e.sequence)
      ⊎ (e.sequence ≤ run.last_event_sequence)
      ⊎ (e.sequence ≡ run.last_event_sequence + 1)
turn-cases run e = elim (Bool-cases (ltb (run.last_event_sequence + 1) e.sequence)) [
  | inl q ↦ inl (ground arith)
  | inr q ↦ elim (Bool-cases (leb e.sequence run.last_event_sequence)) [
    | inl t ↦ inr (inl (ground arith))
    | inr t ↦ inr (inr (ground arith))
  ]
]

module _ (x : Text) (first : ExecutionRunProjection) where
  pub drained-external :
      (s : Store) (run : ExecutionRunProjection) (e : AutoDevRunEvent) (digest y : Text)
      → run.external_run_id ≡ y
      → (drained s run e digest).run.external_run_id ≡ y
  drained-external s run e digest y own =
      drain_external y (length (s.inbox ++ filed e digest pending ∷ []))
        (record {
          run = run;
          inbox = s.inbox ++ filed e digest pending ∷ [];
          outbox = s.outbox;
          disposition = applied;
        })
        own

  -- An event of the run.
  own-IsCurrent :
      (s : Store) (e : AutoDevRunEvent) (digest : Text) (c : IsCurrent x first s)
      → e.external_run_id ≡ x
      → IsCurrent x first (take_in s c.run e digest).0
  own-IsCurrent s e digest c own = elim (turn-cases c.run e) [
    | inl far ↦
        subst (λ r. IsCurrent x first r.0) (sym (take_in-gap s c.run e digest far))
          (record {
            run = waiting s c.run e digest;
            found =
                put_same x first s.runs c.run (waiting s c.run e digest) c.up_to_date.external
                  c.found;
            up_to_date = gap-IsUpToDate x first c.run s.inbox e digest own far c.up_to_date;
          })
    | inr (inl late) ↦
        subst (λ r. IsCurrent x first r.0) (sym (take_in-late s c.run e digest late))
          (record {
            run = c.run;
            found = c.found;
            up_to_date = late-IsUpToDate x first c.run s.inbox e digest late c.up_to_date;
          })
    | inr (inr next) ↦
        subst (λ r. IsCurrent x first r.0) (sym (take_in-next s c.run e digest next))
          (record {
            run = flagged (drained s c.run e digest);
            found =
                put_same x first s.runs c.run (flagged (drained s c.run e digest))
                  (drained-external s c.run e digest x c.up_to_date.external) c.found;
            up_to_date = next-IsUpToDate x first c.run s e digest c.up_to_date;
          })
  ]

  -- An event of another run.
  foreign-IsCurrent :
      (s : Store) (other : ExecutionRunProjection) (e : AutoDevRunEvent) (digest : Text)
      (c : IsCurrent x first s)
      → other.external_run_id ≡ e.external_run_id
      → text_eq e.external_run_id x ≡ false
      → IsCurrent x first (take_in s other e digest).0
  foreign-IsCurrent s other e digest c own foreign =
      let ne : x ≢ other.external_run_id = λ same.
        let t = (text_eq_iff e.external_run_id x).1 (sym own ∙ sym same) in
        absurd (ground (arith, t, foreign)) in
      elim (turn-cases other e) [
        | inl far ↦
            subst (λ r. IsCurrent x first r.0) (sym (take_in-gap s other e digest far))
              (record {
                run = c.run;
                found = put_other x first s.runs (waiting s other e digest) ne ∙ c.found;
                up_to_date =
                    append-IsUpToDate x first c.run s.inbox (filed e digest gap) c.up_to_date
                      foreign;
              })
        | inr (inl late) ↦
            subst (λ r. IsCurrent x first r.0) (sym (take_in-late s other e digest late))
              (record {
                run = c.run;
                found = c.found;
                up_to_date =
                    append-IsUpToDate x first c.run s.inbox (filed e digest terminal_ignored)
                      c.up_to_date foreign;
              })
        | inr (inr next) ↦
            let d = drained s other e digest in
            let same : d.run.external_run_id ≡ other.external_run_id =
              drained-external s other e digest other.external_run_id refl in
            subst (λ r. IsCurrent x first r.0) (sym (take_in-next s other e digest next))
              (record {
                run = c.run;
                found = put_other x first s.runs (flagged d) (λ h. ne (h ∙ same)) ∙ c.found;
                up_to_date =
                    drain-IsUpToDate x other.external_run_id first c.run
                      (length (s.inbox ++ filed e digest pending ∷ []))
                      (record {
                        run = other;
                        inbox = s.inbox ++ filed e digest pending ∷ [];
                        outbox = s.outbox;
                        disposition = applied;
                      })
                      ne refl
                      (append-IsUpToDate x first c.run s.inbox (filed e digest pending) c.up_to_date
                        foreign);
              })
      ]

  take_in-IsCurrent :
      (s : Store) (run : ExecutionRunProjection) (e : AutoDevRunEvent) (digest : Text)
      → IsCurrent x first s
      → find (has_external e.external_run_id) s.runs ≡ some run
      → IsCurrent x first (take_in s run e digest).0
  take_in-IsCurrent s run e digest c found =
      let (member, named) = find-mem (has_external e.external_run_id) s.runs run found in
      let own : run.external_run_id ≡ e.external_run_id =
        (text_eq_iff run.external_run_id e.external_run_id).0 named in
      elim (Bool-cases (text_eq e.external_run_id x)) [
        | inr q ↦ foreign-IsCurrent s run e digest c own q
        | inl q ↦
            let mine : e.external_run_id ≡ x = (text_eq_iff e.external_run_id x).0 q in
            let two : some c.run ≡ some run =
              sym c.found ∙ subst (λ y. find (has_external y) s.runs ≡ some run) mine found in
            let same : c.run ≡ run = some-injective c.run run two in
            subst (λ r. IsCurrent x first (take_in s r e digest).0) same
              (own-IsCurrent s e digest c mine)
      ]

  pub ingest-IsCurrent :
      (s : Store) (e : AutoDevRunEvent) (digest : Text)
      → IsCurrent x first s
      → IsCurrent x first (ingest s e digest).0
  unfolding ingest
  ingest-IsCurrent s e digest c =
      elim (Option-cases (find (has_source e.source_event_id) s.inbox)) [
        | inr (existing, q) ↦ rw (ingest, q) c
        | inl q ↦ elim (Option-cases (find (has_external e.external_run_id) s.runs)) [
          | inl t ↦ rw (ingest, q, t) c
          | inr (run, t) ↦
              elim (Bool-cases (
                not (text_eq run.external_task_id e.external_task_id)
                || is_mismatch e.observability run)) [
                  | inl u ↦ rw (ingest, q, t, u) c
                  | inr u ↦ rw (ingest, q, t, u) (take_in-IsCurrent s run e digest c t)
                ]
        ]
      ]
