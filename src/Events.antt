-- ===== src/Events.antt =====
-- prototype/web-ui/app/control-plane/ports/execution-event-repository.ts and the first part of
-- adapters/memory-execution-event-repository.ts: the events that an executor reports of its runs, and
-- what one event, taken in its turn, does to the projection of the run.
pub mod Ingest
pub mod Replay
pub mod History
pub mod Keeping
pub mod Order
pub mod Arrivals
pub mod Convergence
pub mod Statuses
pub mod Accepted
pub mod Knowing
pub mod Replies
mod Tests
use ai_dev_harness.Shared.{
  ℕ, ◌+◌, Bool, true, false, not, ◌&&◌, ◌||◌, Option, none, some, List, [], ◌∷◌, ◌++◌, map, ◌==◌,
  Text, lit, text_mem, if◌then◌else◌, ◌===◌,
}
use ai_dev_harness.Release.Fields.{is_upper}
use ai_dev_harness.StateMachine.Run
use ai_dev_harness.StateMachine.Run.{RunStatus, RunStatus-discrete, run_status_eq}

-- The identities of `ObservabilityContext` that the repository reads.
pub record ObservabilityContext : Type 0 where
  pub goal_id : Option Text
  pub issue_id : Option Text
  pub run_id : Option Text

pub record AutoDevRunEvent : Type 0 where
  pub source_event_id : Text
  pub external_run_id : Text
  pub external_task_id : Text
  pub sequence : ℕ
  pub occurred_at : Text
  pub phase : Text
  pub status : Text
  pub message : Text
  pub observability : Option ObservabilityContext

pub record ExecutionRunProjection : Type 0 where
  pub id : Text
  pub organization_id : Text
  pub project_id : Text
  pub goal_id : Text
  pub issue_id : Option Text
  pub external_run_id : Text
  pub external_task_id : Text
  pub status : RunStatus
  pub phase : Text
  pub version : ℕ
  pub last_event_sequence : ℕ
  pub reconciliation_required : Bool

pub record OutboxEntry : Type 0 where
  pub event_type : RunStatus
  pub run_id : Text
  pub version : ℕ

-- `toLowerCase`, as far as a comparison with a lower case ASCII word can tell: beside A to Z, the
-- Kelvin sign has an ASCII letter as its lower case.
abbrev lower : ℕ → ℕ
lower c = if is_upper c then c + 32 else if c == 8490 then b'k' else c

abbrev succeeded_words : List Text
succeeded_words = lit "succeeded" ∷ lit "done" ∷ lit "completed" ∷ lit "complete" ∷ []

abbrev failed_words : List Text
failed_words = lit "failed" ∷ lit "error" ∷ lit "blocked" ∷ []

abbrev cancelled_words : List Text
cancelled_words = lit "cancelled" ∷ lit "canceled" ∷ lit "stopped" ∷ []

abbrev running_words : List Text
running_words = lit "running" ∷ lit "in_progress" ∷ lit "started" ∷ []

abbrev running_phases : List Text
running_phases =
    lit "claim"
    ∷ lit "worktree"
    ∷ lit "prompt"
    ∷ lit "builder"
    ∷ lit "verify"
    ∷ lit "review"
    ∷ lit "landing"
    ∷ []

unfoldable pub mapped_status : AutoDevRunEvent → Option RunStatus
mapped_status event =
    let status = map lower event.status in
    let phase = map lower event.phase in
    if text_mem status succeeded_words || text_mem phase (lit "complete" ∷ [])
    then some Run.succeeded
    else if text_mem status failed_words
    then some Run.failed
    else if text_mem status cancelled_words
    then some Run.cancelled
    else if text_mem status running_words || text_mem phase running_phases
    then some Run.running
    else none

-- `terminal`
abbrev pub is_finished : RunStatus → Bool
is_finished Run.succeeded = true
is_finished Run.failed = true
is_finished Run.cancelled = true
is_finished _ = false

-- The assignments of a status with its version and the outbox entry that announces it.
abbrev pub announce :
    RunStatus
    → ExecutionRunProjection × List OutboxEntry
    → ExecutionRunProjection × List OutboxEntry
announce status (run, outbox) = (
  record run { status = status; version = run.version + 1 },
  outbox ++ record { event_type = status; run_id = run.id; version = run.version + 1 } ∷ [],
)

abbrev pub is_queued : RunStatus → Bool
is_queued Run.queued = true
is_queued _ = false

abbrev pub is_running : RunStatus → Bool
is_running Run.running = true
is_running _ = false

-- `if (nextStatus && nextStatus !== run.status) …`, on a run that is not terminal. Both branches of the
-- second test assign the status, raise the version and announce it, under the same name.
abbrev pub move :
    Option RunStatus
    → ExecutionRunProjection × List OutboxEntry
    → ExecutionRunProjection × List OutboxEntry
move none (run, outbox) = (run, outbox)
move (some next) (run, outbox) =
    if next === run.status
    then (run, outbox)
    else if is_queued run.status && not (is_running next)
    then announce next (announce Run.running (run, outbox))
    else announce next (run, outbox)

-- The run takes the phase and the sequence of its next event.
abbrev pub receive : AutoDevRunEvent → ExecutionRunProjection → ExecutionRunProjection
receive event run = record run { phase = event.phase; last_event_sequence = event.sequence }

-- The body of the loop of `ingest`, for the event that is next.
unfoldable pub advance :
    AutoDevRunEvent
    → ExecutionRunProjection × List OutboxEntry
    → ExecutionRunProjection × List OutboxEntry
unfolding mapped_status RunStatus-discrete
advance event (run, outbox) =
    if is_finished run.status
    then (receive event run, outbox)
    else move (mapped_status event) (receive event run, outbox)
