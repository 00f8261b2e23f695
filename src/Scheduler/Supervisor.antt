-- ===== src/Scheduler/Supervisor.antt =====
-- prototype/web-ui/app/control-plane/application/scheduler-supervisor.ts: one tick. The gateway is a
-- parameter: what it answers to the calls of the tick. The telemetry calls and `afterExternalStart`, a
-- hook of the tests, are left out.
use ai_dev_harness.Shared.{
  decimal, ℕ, ◌+◌, ◌-◌, ◌*◌, ◌^◌, Bool, ◌&&◌, Option, none, some, List, [], ◌∷◌, ◌++◌, ltb, leb,
  Text, lit, Result, ok, err, if◌then◌else◌,
}
use Prim.Native.Nat.{min, max}
use ai_dev_harness.Release.Fields.{Number, whole}
use ai_dev_harness.Scheduler.{SchedulerJob, ExecutionLease, Store}
use ai_dev_harness.Scheduler.Repository.{
  list_for_reconciliation, heartbeat_owned, claim_next, select_node, acquire_lease,
}
use ai_dev_harness.Scheduler.Jobs.{
  SchedulerError, gateway_error, ExternalExecutionStatus, mark_external_start_issued, mark_started,
  reconcile_external, mark_timed_out, mark_stopped, handle_start_failure, release_claim,
}

pub record Gateway : Type 0 where
  pub start :
      (external_task_id external_run_id : Text) (timeout_ms : ℕ)
      → Result Text ExternalExecutionStatus
  pub inspect : (external_run_id : Text) → Result Text (Option ExternalExecutionStatus)
  pub cancel : (external_run_id : Text) → Result Text (Unit {0})

pub data Action : Type 0 where
  idle started reconciled capacity_wait retry_scheduled : Action

pub record SchedulerTickResult : Type 0 where
  pub action : Action
  pub job_id : Option Text

-- The identities that the tick draws for a lease, and the time that the clock reads once the gateway
-- has answered to the start.
pub record Drawn : Type 0 where
  pub lease_id : Text
  pub token : Text
  pub later : ℕ

-- A tick ends with the store as its calls left it, and with a result or what was thrown.
abbrev pub Ended : Type 0
Ended = Store × Result SchedulerError SchedulerTickResult

pub external_run_id_of : SchedulerJob → Text
external_run_id_of job = lit "cp-" ++ job.run_id ++ lit "-a" ++ decimal job.attempt

abbrev runtime_ms : Option Number → (deadline_ms : ℕ) → ℕ
runtime_ms (some (whole seconds)) deadline_ms =
    if ltb 0 seconds && ltb seconds (2 ^ 53) then seconds * 1000 else deadline_ms
runtime_ms _ deadline_ms = deadline_ms

-- A deadline that is past gives 1, as a negative difference does in the source.
pub gateway_timeout_ms : SchedulerJob → (now : ℕ) → ℕ
gateway_timeout_ms job now =
    let deadline_ms = job.deadline_at - now in
    max 1 (min deadline_ms (runtime_ms job.max_runtime_seconds deadline_ms))

module _ (gateway : Gateway) where
  -- `if (job.externalRunId) await this.gateway.cancel(job.externalRunId)`, and what follows it
  abbrev pub cancel_external :
      SchedulerJob
      → Result SchedulerError (Store × SchedulerJob)
      → Result SchedulerError (Store × SchedulerJob)
  cancel_external job k = elim job.external_run_id [
    | none ↦ k
    | some external_run_id ↦ elim (gateway.cancel external_run_id) [
      | err message ↦ err (gateway_error message)
      | ok u ↦ k
    ]
  ]

  abbrev pub inspect_external : SchedulerJob → Result Text (Option ExternalExecutionStatus)
  inspect_external job = elim job.external_run_id [
    | none ↦ ok none
    | some external_run_id ↦ gateway.inspect external_run_id
  ]

  unfoldable pub reconcile :
      Store → SchedulerJob → (now : ℕ) → Result SchedulerError (Store × SchedulerJob)
  unfolding mark_stopped mark_timed_out reconcile_external
  reconcile s job now =
      if job.stop_requested
      then cancel_external job (mark_stopped s job.id now)
      else if leb job.deadline_at now
      then cancel_external job (mark_timed_out s job.id now)
      else elim (inspect_external job) [
        | err message ↦ err (gateway_error message)
        | ok external ↦ reconcile_external s job.id external now
      ]

  -- The loop over the jobs to reconcile; the first error ends it.
  unfoldable pub reconcile_all :
      (now : ℕ) → List SchedulerJob → Store → Store × Option SchedulerError
  unfolding reconcile
  reconcile_all now [] s = (s, none)
  reconcile_all now (job ∷ jobs) s = elim (reconcile s job now) [
    | err e ↦ (s, some e)
    | ok (t, j) ↦ reconcile_all now jobs t
  ]

  -- The last call of a tick that has the result `r`.
  abbrev pub finish :
      Store → SchedulerTickResult → Result SchedulerError (Store × SchedulerJob) → Ended
  finish s r (ok (t, job)) = (t, ok r)
  finish s r (err e) = (s, err e)

  -- From `markExternalStartIssued` on, with the lease in hand.
  unfoldable pub launch : Store → SchedulerJob → ExecutionLease → (now later : ℕ) → Ended
  unfolding mark_external_start_issued handle_start_failure mark_started
  launch s claimed lease now later =
      let run = external_run_id_of claimed in
      elim (mark_external_start_issued s claimed.id claimed.version run lease now) [
        | err e ↦ (s, err e)
        | ok (t, starting) ↦
            elim (gateway.start claimed.external_task_id run (gateway_timeout_ms claimed now)) [
              | err message ↦
                  finish t (record { action = retry_scheduled; job_id = some claimed.id })
                    (handle_start_failure t claimed.id (lit "gateway_start_failed") message later)
              | ok external ↦
                  finish t (record { action = started; job_id = some claimed.id })
                    (mark_started t claimed.id external later)
            ]
      ]

  module _ (precedes : Text → Text → Bool) (supervisor_id : Text) (lease_duration_ms : ℕ) where
    -- What follows `claimNext`, for the job that it claims.
    unfoldable pub place : Store → SchedulerJob → (now : ℕ) → Drawn → Ended
    unfolding select_node acquire_lease release_claim launch
    place s claimed now drawn =
        let waits : SchedulerTickResult = record {
          action = capacity_wait;
          job_id = some claimed.id;
        } in
        elim (select_node s claimed now) [
          | none ↦ finish s waits (release_claim s claimed.id (lit "No compatible capacity") now)
          | some node ↦
              let (t, taken) =
                acquire_lease s
                  (record {
                    run_id = claimed.run_id;
                    node_id = node.id;
                    owner_id = supervisor_id;
                    now = now;
                    expires_at = now + lease_duration_ms;
                  })
                  drawn.lease_id drawn.token in
              elim taken [
                | none ↦
                    finish t waits
                      (release_claim t claimed.id (lit "Capacity lease unavailable") now)
                | some lease ↦ launch t claimed lease now drawn.later
              ]
        ]

    -- The second half of a tick, when no job is to be reconciled.
    unfoldable pub dispatch : Store → (now : ℕ) → Drawn → Ended
    unfolding heartbeat_owned claim_next place
    dispatch s now drawn =
        let (r, renewals) = heartbeat_owned s supervisor_id now (now + lease_duration_ms) in
        let (t, claimed) = claim_next precedes r now in
        elim claimed [
          | none ↦ (t, ok (record { action = idle; job_id = none }))
          | some job ↦ place t job now drawn
        ]

    unfoldable pub tick : Store → (now : ℕ) → Drawn → Ended
    unfolding list_for_reconciliation reconcile_all dispatch
    tick s now drawn =
        let (t, due) = list_for_reconciliation s now in
        elim due [
          | [] ↦ dispatch t now drawn
          | job ∷ jobs ↦
              let (u, thrown) = reconcile_all now (job ∷ jobs) t in
              elim thrown [
                | none ↦ (u, ok (record { action = reconciled; job_id = some job.id }))
                | some e ↦ (u, err e)
              ]
        ]
