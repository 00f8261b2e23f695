-- ===== src/Events/Statuses.antt =====
-- The statuses that the events of memory-execution-event-repository.ts give to a run, beside the Run
-- machine of state-machines.ts.
use mathlib.Core.Option.{some-injective}
use ai_dev_harness.Shared.{
  ℕ, ◌+◌, ◌≡◌, ◌≢◌, ◌∙◌, refl, sym, ap, subst, false, ◌||◌, none, some, List, [], ◌∷◌, find, map,
  lit, text_mem, Text, Bool-cases, Option-cases, inl, inr, arith,
}
use ai_dev_harness.StateMachine.{Guards, completion_evidence, reason_provided}
use ai_dev_harness.StateMachine.Holds.{Holds}
use ai_dev_harness.StateMachine.Run
use ai_dev_harness.StateMachine.Run.{RunStatus, RunStatus-discrete, run_status_eq}
use ai_dev_harness.StateMachine.Run.Diagram.{Step, begin, succeed, fail, cancel, open_running}
use ai_dev_harness.Events.{
  lower, AutoDevRunEvent, ExecutionRunProjection, advance, is_finished, mapped_status, move,
  receive, succeeded_words, failed_words, cancelled_words, running_words, running_phases,
}
use ai_dev_harness.Events.Ingest.{Store, has_external}
use ai_dev_harness.Events.Replay.{advance_run, replay, plain}
use ai_dev_harness.Events.Convergence.{ingest_all, ingest_all-IsCurrent}

-- Steps of the diagram, each of which adds one to the version.
pub data Climb (guards : Guards) : RunStatus → ℕ → RunStatus → ℕ → Type 0 where
  stay : {s : RunStatus} {v : ℕ} → Climb guards s v s v
  climb :
      {s t u : RunStatus} {v w : ℕ}
      → Step guards s t
      → Climb guards t (v + 1) u w
      → Climb guards s v u w

Climb-trans :
    {guards : Guards} {s t u : RunStatus} {v w z : ℕ}
    → Climb guards s v t w
    → Climb guards t w u z
    → Climb guards s v u z
Climb-trans stay r = r
Climb-trans (climb e p) r = climb e (Climb-trans p r)

never_queued : (e : AutoDevRunEvent) → mapped_status e ≢ some Run.queued
unfolding mapped_status
never_queued e h =
    let status = map lower e.status in
    let phase = map lower e.phase in
    elim (Bool-cases (text_mem status succeeded_words || text_mem phase (lit "complete" ∷ []))) [
      | inl q ↦ let t : some Run.succeeded ≡ some Run.queued = rw (mapped_status, q) at h in cc
      | inr q ↦ elim (Bool-cases (text_mem status failed_words)) [
        | inl r ↦ let t : some Run.failed ≡ some Run.queued = rw (mapped_status, q, r) at h in cc
        | inr r ↦ elim (Bool-cases (text_mem status cancelled_words)) [
          | inl u ↦
              let t : some Run.cancelled ≡ some Run.queued = rw (mapped_status, q, r, u) at h in cc
          | inr u ↦
              elim (Bool-cases (text_mem status running_words || text_mem phase running_phases)) [
                | inl v ↦
                    let t : some Run.running ≡ some Run.queued =
                      rw (mapped_status, q, r, u, v) at h in
                    cc
                | inr v ↦ let t : none ≡ some Run.queued = rw (mapped_status, q, r, u, v) at h in cc
              ]
        ]
      ]
    ]

module _ (guards : Guards) (evidence : Holds guards completion_evidence)
    (reason : Holds guards reason_provided) where
  abbrev Follows : ExecutionRunProjection → ExecutionRunProjection → Type 0
  Follows run later = Climb guards run.status run.version later.status later.version

  abbrev at_status : ExecutionRunProjection → RunStatus → ExecutionRunProjection
  at_status run status = record run { status = status }

  move-Climb :
      (status next : RunStatus) (run : ExecutionRunProjection)
      → is_finished status ≡ false
      → next ≢ Run.queued
      → Follows (at_status run status) (move (some next) (at_status run status, [])).0
  unfolding RunStatus-discrete
  move-Climb Run.queued Run.queued run open' h = absurd (h refl)
  move-Climb Run.queued Run.running run open' h = climb begin stay
  move-Climb Run.queued Run.succeeded run open' h = climb begin (climb (succeed evidence) stay)
  move-Climb Run.queued Run.failed run open' h = climb begin (climb (fail reason) stay)
  move-Climb Run.queued Run.cancelled run open' h =
      climb begin (climb (cancel open_running reason) stay)
  move-Climb Run.running Run.queued run open' h = absurd (h refl)
  move-Climb Run.running Run.running run open' h = stay
  move-Climb Run.running Run.succeeded run open' h = climb (succeed evidence) stay
  move-Climb Run.running Run.failed run open' h = climb (fail reason) stay
  move-Climb Run.running Run.cancelled run open' h = climb (cancel open_running reason) stay
  move-Climb Run.succeeded next run open' h = absurd (ground (arith, open'))
  move-Climb Run.failed next run open' h = absurd (ground (arith, open'))
  move-Climb Run.cancelled next run open' h = absurd (ground (arith, open'))

  advance-Climb :
      (e : AutoDevRunEvent) (run : ExecutionRunProjection) → Follows run (advance_run e run)
  unfolding advance
  advance-Climb e run = elim (Bool-cases (is_finished run.status)) [
    | inl q ↦ rw (advance_run, q) stay
    | inr q ↦ elim (Option-cases (mapped_status e)) [
      | inl n ↦ rw (advance_run, q, n) stay
      | inr (next, n) ↦
          let named : next ≢ Run.queued = λ t. never_queued e (n ∙ ap some t) in
          rw (advance_run, q, n) (move-Climb run.status next (receive e run) q named)
    ]
  ]

  replay-Climb :
      (es : List AutoDevRunEvent) (run : ExecutionRunProjection) → Follows run (replay es run)
  unfolding replay
  replay-Climb [] run = stay
  replay-Climb (e ∷ es) run =
      Climb-trans (advance-Climb e run) (replay-Climb es (advance_run e run))

  -- Where completion evidence and a reason are given, the events take a run only along edges of the
  -- Run machine of state-machines.ts, and each edge adds one to its version, whatever arrives and
  -- in whatever order.
  pub statuses-Climb :
      (x : Text) (first run : ExecutionRunProjection) (arrivals : List (AutoDevRunEvent × Text))
      (s : Store)
      → s.inbox ≡ []
      → find (has_external x) s.runs ≡ some first
      → first.external_run_id ≡ x
      → first.reconciliation_required ≡ false
      → find (has_external x) (ingest_all arrivals s).runs ≡ some run
      → Climb guards first.status first.version run.status run.version
  statuses-Climb x first run arrivals s empty found own quiet now =
      let c = ingest_all-IsCurrent x first arrivals s empty found own quiet in
      let h = c.up_to_date.history in
      let same : c.run ≡ run = some-injective c.run run (sym c.found ∙ now) in
      let p : Follows first (plain c.run) =
        subst (λ r. Follows first r) (sym h.replayed) (replay-Climb h.events (plain first)) in
      subst (λ r. Follows first r) same p
