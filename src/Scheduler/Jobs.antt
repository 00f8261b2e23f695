-- ===== src/Scheduler/Jobs.antt =====
-- prototype/web-ui/app/control-plane/adapters/memory-scheduler-repository.ts, from
-- `markExternalStartIssued` on: the operations on one job, found by its id.
use ai_dev_harness.Shared.{
  update_first, ℕ, zero, suc, ◌+◌, ◌*◌, ◌^◌, Bool, true, false, not, ◌||◌, Option, none, some, ◌∷◌,
  [], ◌++◌, ◌==◌, ltb, find, map, text_eq, Text, lit, Result, ok, err, if◌then◌else◌,
}
use Prim.Native.Nat.{min}
use ai_dev_harness.Scheduler.{
  SchedulerJobState, pending, starting, running, retry_wait, succeeded, failed, cancelled, blocked,
  SchedulerJob, released, ExecutionLease, job_started, Store, is_claimed,
}
use ai_dev_harness.Scheduler.Repository.{active_for}

-- `throw new Error(...)`, and what the gateway throws.
pub data SchedulerError : Type 0 where
  version_conflict job_not_found : SchedulerError
  gateway_error : Text → SchedulerError

-- `ExternalExecutionState` and `ExternalExecutionStatus` of the gateway's port
pub data ExternalExecutionState : Type 0 where
  external_starting external_running external_succeeded : ExternalExecutionState
  external_failed external_cancelled external_unknown : ExternalExecutionState

pub record ExternalExecutionStatus : Type 0 where
  pub state : ExternalExecutionState
  pub phase : Text
  pub message : Option Text

abbrev pub has_id : Text → SchedulerJob → Bool
has_id job_id j = text_eq j.id job_id

-- `requiredJob`, then the assignments to the job that it finds.
unfoldable pub amend :
    Store
    → (job_id : Text) → (SchedulerJob → SchedulerJob)
    → Result SchedulerError (Store × SchedulerJob)
unfolding update_first
amend s job_id f = elim (find (has_id job_id) s.jobs) [
  | none ↦ err job_not_found
  | some job ↦ ok (record s { jobs = update_first (has_id job_id) f s.jobs }, f job)
]

-- The loop that releases the active leases of a run.
abbrev pub let_go : (run_id : Text) (now : ℕ) → ExecutionLease → ExecutionLease
let_go run_id now l =
    if active_for run_id l
    then record l { status = released; released_at = some now; version = l.version + 1 }
    else l

-- The assignments, and then that loop.
unfoldable pub amend_and_release :
    Store
    → (job_id : Text) (now : ℕ) → (SchedulerJob → SchedulerJob)
    → Result SchedulerError (Store × SchedulerJob)
unfolding amend
amend_and_release s job_id now f = elim (amend s job_id f) [
  | err e ↦ err e
  | ok (t, job) ↦ ok (record t { leases = map (let_go job.run_id now) t.leases }, job)
]

abbrev pub issued : Text → ExecutionLease → ℕ → SchedulerJob → SchedulerJob
issued external_run_id lease now j = record j {
  state = starting;
  external_run_id = some external_run_id;
  node_id = some lease.node_id;
  lease_token = some lease.token;
  lease_expires_at = some lease.expires_at;
  heartbeat_at = some now;
  reconciliation_required = true;
  version = j.version + 1;
}

unfoldable pub mark_external_start_issued :
    Store
    → (job_id : Text) (expected_version : ℕ) (external_run_id : Text) (lease : ExecutionLease)
      (now : ℕ)
    → Result SchedulerError (Store × SchedulerJob)
unfolding amend
mark_external_start_issued s job_id expected_version external_run_id lease now =
    elim (find (has_id job_id) s.jobs) [
      | none ↦ err job_not_found
      | some job ↦
          if not (job.version == expected_version) || not (is_claimed job.state)
          then err version_conflict
          else amend s job_id (issued external_run_id lease now)
    ]

abbrev state_after_start : ExternalExecutionState → SchedulerJobState
state_after_start external_succeeded = succeeded
state_after_start _ = running

abbrev pub began : ExternalExecutionStatus → (now : ℕ) → SchedulerJob → SchedulerJob
began external now j = record j {
  state = state_after_start external.state;
  phase = external.phase;
  heartbeat_at = some now;
  reconciliation_required = false;
  version = j.version + 1;
}

unfoldable pub mark_started :
    Store
    → (job_id : Text) → ExternalExecutionStatus
    → (now : ℕ) → Result SchedulerError (Store × SchedulerJob)
unfolding amend
mark_started s job_id external now = elim (amend s job_id (began external now)) [
  | err e ↦ err e
  | ok (t, job) ↦ ok (record t { outbox = t.outbox ++ job_started job_id ∷ [] }, job)
]

abbrev or_else : Option Text → Text → Text
or_else none t = t
or_else (some m) t = m

-- The chain of tests in `reconcileExternal`.
abbrev pub settled : Option ExternalExecutionStatus → SchedulerJob → SchedulerJob
settled none j = record j {
  phase = lit "unknown";
  state = blocked;
  failure_code = some (lit "external_state_unknown");
  failure_reason = some (lit "External execution could not be reconciled");
}
settled (some external) j = elim external.state [
  | external_unknown ↦ record j {
    phase = external.phase;
    state = blocked;
    failure_code = some (lit "external_state_unknown");
    failure_reason = some (lit "External execution could not be reconciled");
  }
  | external_succeeded ↦ record j { phase = external.phase; state = succeeded }
  | external_failed ↦ record j {
    phase = external.phase;
    state = failed;
    failure_code = some (lit "external_failed");
    failure_reason = some (or_else external.message (lit "External execution failed"));
  }
  | external_cancelled ↦ record j { phase = external.phase; state = cancelled }
  | external_starting ↦ record j { phase = external.phase; state = running }
  | external_running ↦ record j { phase = external.phase; state = running }
]

unfoldable pub reconcile_external :
    Store
    → (job_id : Text) → Option ExternalExecutionStatus
    → (now : ℕ) → Result SchedulerError (Store × SchedulerJob)
unfolding amend
reconcile_external s job_id external now = amend s job_id (λ j. record (settled external j) {
  heartbeat_at = some now;
  reconciliation_required = false;
  version = j.version + 1;
})

unfoldable pub mark_timed_out :
    Store → (job_id : Text) (now : ℕ) → Result SchedulerError (Store × SchedulerJob)
unfolding amend_and_release
mark_timed_out s job_id now = amend_and_release s job_id now (λ j. record j {
  state = failed;
  phase = lit "timeout";
  failure_code = some (lit "deadline_exceeded");
  failure_reason = some (lit "Execution deadline exceeded");
  heartbeat_at = some now;
  reconciliation_required = false;
  version = j.version + 1;
})

unfoldable pub mark_stopped :
    Store → (job_id : Text) (now : ℕ) → Result SchedulerError (Store × SchedulerJob)
unfolding amend_and_release
mark_stopped s job_id now = amend_and_release s job_id now (λ j. record j {
  state = cancelled;
  phase = lit "stopped";
  failure_code = some (lit "operator_stop");
  failure_reason = some (lit "Execution stopped by operator control");
  heartbeat_at = some now;
  reconciliation_required = false;
  stop_requested = false;
  version = j.version + 1;
})

-- `retry`, and the attempt that the delay is computed from.
abbrev pub may_retry : SchedulerJob → Bool
may_retry j = ltb j.attempt j.max_attempts

abbrev pub next_attempt : SchedulerJob → ℕ
next_attempt j = if may_retry j then j.attempt + 1 else j.attempt

-- `Math.min(60_000, 1000 * 2 ** (attempt - 1))`, which halves the second at attempt 0
abbrev pub backoff_ms : ℕ → ℕ
backoff_ms zero = 500
backoff_ms (suc n) = min 60000 (1000 * 2 ^ n)

abbrev pub start_failed :
    (failure_code failure_reason : Text) (now : ℕ) → SchedulerJob → SchedulerJob
start_failed failure_code failure_reason now j = record j {
  state = if may_retry j then retry_wait else failed;
  attempt = next_attempt j;
  next_attempt_at = now + backoff_ms (next_attempt j);
  external_run_id = none;
  node_id = none;
  lease_token = none;
  lease_expires_at = none;
  reconciliation_required = false;
  failure_code = some failure_code;
  failure_reason = some failure_reason;
  version = j.version + 1;
}

unfoldable pub handle_start_failure :
    Store
    → (job_id failure_code failure_reason : Text) (now : ℕ)
    → Result SchedulerError (Store × SchedulerJob)
unfolding amend_and_release
handle_start_failure s job_id failure_code failure_reason now =
    amend_and_release s job_id now (start_failed failure_code failure_reason now)

unfoldable pub release_claim :
    Store → (job_id reason : Text) (now : ℕ) → Result SchedulerError (Store × SchedulerJob)
unfolding amend
release_claim s job_id reason now = amend s job_id (λ j. record j {
  state = pending;
  failure_reason = some reason;
  next_attempt_at = now;
  version = j.version + 1;
})
