-- ===== src/Events/Replay.antt =====
-- The loop of memory-execution-event-repository.ts: when it ends, and what it leaves of the run.
use ai_dev_harness.Shared.{
  ℕ, zero, suc, ◌+◌, ◌≤◌, ◌≡◌, refl, sym, subst, false, not, ◌&&◌, Option, none, some, List, [],
  ◌∷◌, length, filter, find, find_narrow, count-update, update_first, Bool-cases, Option-cases, inl,
  inr, ◌===◌, arith,
}
use ai_dev_harness.StateMachine.Run.{RunStatus, run_status_eq}
use ai_dev_harness.Events.{
  is_queued, is_running, move, receive, AutoDevRunEvent, ExecutionRunProjection, OutboxEntry,
  advance, mapped_status, is_finished,
}
use ai_dev_harness.Events.Ingest.{
  InboxRecord, Drained, drain, is_open, is_next, close, taken, round,
}

-- What one event does to the run alone, and what a list of events does to it, in order.
abbrev pub advance_run : AutoDevRunEvent → ExecutionRunProjection → ExecutionRunProjection
unfolding advance
advance_run e run = (advance e (run, [])).0

unfoldable pub replay : List AutoDevRunEvent → ExecutionRunProjection → ExecutionRunProjection
replay [] run = run
replay (e ∷ es) run = replay es (advance_run e run)

-- The projection without its flag, which does not belong to the history.
abbrev pub plain : ExecutionRunProjection → ExecutionRunProjection
plain run = record run { reconciliation_required = false }

-- The events follow one another from the sequence `n` on.
abbrev pub Consecutive : ℕ → List AutoDevRunEvent → Type 0
Consecutive n [] = Unit
Consecutive n (e ∷ es) = (e.sequence ≡ n + 1) × Consecutive (n + 1) es

-- What is already in the outbox does not matter to the run, and neither does its flag.
move-run :
    (next : Option RunStatus) (run : ExecutionRunProjection) (outbox : List OutboxEntry)
    → (move next (run, outbox)).0 ≡ (move next (run, [])).0
move-run none run outbox = refl
move-run (some next) run outbox = elim (Bool-cases (next === run.status)) [
  | inl q ↦ rw q refl
  | inr q ↦ elim (Bool-cases (is_queued run.status && not (is_running next))) [
    | inl t ↦ rw (q, t) refl
    | inr t ↦ rw (q, t) refl
  ]
]

move-plain :
    (next : Option RunStatus) (run : ExecutionRunProjection)
    → plain (move next (run, [])).0 ≡ (move next (plain run, [])).0
move-plain none run = refl
move-plain (some next) run = elim (Bool-cases (next === run.status)) [
  | inl q ↦ rw q refl
  | inr q ↦ elim (Bool-cases (is_queued run.status && not (is_running next))) [
    | inl t ↦ rw (q, t) refl
    | inr t ↦ rw (q, t) refl
  ]
]

pub advance-run :
    (e : AutoDevRunEvent) (run : ExecutionRunProjection) (outbox : List OutboxEntry)
    → (advance e (run, outbox)).0 ≡ advance_run e run
unfolding advance
advance-run e run outbox = elim (Bool-cases (is_finished run.status)) [
  | inl q ↦ rw (advance_run, q) refl
  | inr q ↦ rw (advance_run, q) (move-run (mapped_status e) (receive e run) outbox)
]

pub advance_run-plain :
    (e : AutoDevRunEvent) (run : ExecutionRunProjection)
    → plain (advance_run e run) ≡ advance_run e (plain run)
unfolding advance
advance_run-plain e run = elim (Bool-cases (is_finished run.status)) [
  | inl q ↦ rw (advance_run, q) refl
  | inr q ↦ rw (advance_run, q) (move-plain (mapped_status e) (receive e run))
]

-- A move leaves the identity and the sequence of the run alone.
move_keeps :
    (next : Option RunStatus) (run : ExecutionRunProjection)
    → ((move next (run, [])).0.external_run_id ≡ run.external_run_id)
      × ((move next (run, [])).0.last_event_sequence ≡ run.last_event_sequence)
move_keeps none run = (refl, refl)
move_keeps (some next) run = elim (Bool-cases (next === run.status)) [
  | inl q ↦ (rw q, rw q)
  | inr q ↦ elim (Bool-cases (is_queued run.status && not (is_running next))) [
    | inl t ↦ (rw (q, t), rw (q, t))
    | inr t ↦ (rw (q, t), rw (q, t))
  ]
]

pub advance_run-external :
    (e : AutoDevRunEvent) (run : ExecutionRunProjection)
    → ((advance_run e run).external_run_id ≡ run.external_run_id)
      × ((advance_run e run).last_event_sequence ≡ e.sequence)
unfolding advance
advance_run-external e run = elim (Bool-cases (is_finished run.status)) [
  | inl q ↦ (rw (advance_run, q), rw (advance_run, q))
  | inr q ↦
      let (x, n) = move_keeps (mapped_status e) (receive e run) in
      (rw (advance_run, q) x, rw (advance_run, q) n)
]

pub drain-none :
    (fuel : ℕ) (d : Drained) → find (is_next d.run) d.inbox ≡ none → drain (suc fuel) d ≡ d
unfolding drain
drain-none fuel d q = rw (drain, q)

pub drain-some :
    (fuel : ℕ) (d : Drained) (next : InboxRecord)
    → find (is_next d.run) d.inbox ≡ some next
    → drain (suc fuel) d ≡ drain fuel (round d next)
unfolding drain
drain-some fuel d next q = rw (drain, q)

abbrev Ends : Drained → Type 0
Ends d = find (is_next d.run) d.inbox ≡ none

fits :
    (fuel : ℕ) (d : Drained) (next : InboxRecord)
    → suc (
        length (
          filter
            (λ r. is_open r.processing_status)
            (update_first (is_next d.run) (close (taken d.run)) d.inbox)))
      ≡ length (filter (λ r. is_open r.processing_status) d.inbox)
    → length (filter (λ r. is_open r.processing_status) d.inbox) ≤ suc fuel
    → length (filter (λ r. is_open r.processing_status) (round d next).inbox) ≤ fuel
unfolding round
fits fuel d next fewer h = omega (arith, fewer, h)

-- The loop of `ingest` ends because no record is next, if it has a round for each open record.
pub drain_ends :
    (fuel : ℕ) (d : Drained)
    → length (filter (λ r. is_open r.processing_status) d.inbox) ≤ fuel
    → find (is_next (drain fuel d).run) (drain fuel d).inbox ≡ none
unfolding drain
drain_ends zero d h =
    find_narrow (is_next d.run) (λ r. is_open r.processing_status) (λ r t. ground arith) d.inbox
      (omega (arith, h))
drain_ends (suc fuel) d h = elim (Option-cases (find (is_next d.run) d.inbox)) [
  | inl q ↦ subst Ends (sym (drain-none fuel d q)) q
  | inr (next, q) ↦
      let fewer =
        count-update (is_next d.run) (λ r. is_open r.processing_status) (close (taken d.run))
          (λ r t. (ground arith, ground arith)) d.inbox next q in
      subst Ends (sym (drain-some fuel d next q))
        (drain_ends fuel (round d next) (fits fuel d next fewer h))
]
