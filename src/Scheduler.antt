-- ===== src/Scheduler.antt =====
-- prototype/web-ui/app/control-plane/ports/scheduler-repository.ts: the jobs, the nodes and the
-- leases of the scheduler. Times are milliseconds; the ISO texts of the source are in the canonical
-- form, where the order of the texts is that of the times.
pub mod Repository
pub mod Jobs
pub mod Supervisor
pub mod Leases
pub mod Capacity
pub mod Expiry
pub mod Settled
pub mod Reconciliation
pub mod Claims
pub mod Attempts
pub mod Tick
mod Tests
use ai_dev_harness.Shared.{ℕ, Bool, true, false, Option, List, Text}
use ai_dev_harness.Release.Fields.{Number}

pub data SchedulerJobState : Type 0 where
  pending claimed starting running retry_wait reconciling : SchedulerJobState
  succeeded failed cancelled blocked : SchedulerJobState

pub record SchedulerJob : Type 0 where
  pub id : Text
  pub run_id : Text
  pub external_task_id : Text
  pub required_capability : Text
  pub state : SchedulerJobState
  pub phase : Text
  pub priority : ℕ
  pub attempt : ℕ
  pub max_attempts : ℕ
  pub max_runtime_seconds : Option Number
  pub deadline_at : ℕ
  pub next_attempt_at : ℕ
  pub external_run_id : Option Text
  pub node_id : Option Text
  pub lease_token : Option Text
  pub lease_expires_at : Option ℕ
  pub heartbeat_at : Option ℕ
  pub reconciliation_required : Bool
  pub stop_requested : Bool
  pub failure_code : Option Text
  pub failure_reason : Option Text
  pub version : ℕ

pub data NodeStatus : Type 0 where
  online draining offline : NodeStatus

pub record ExecutionNode : Type 0 where
  pub id : Text
  pub capabilities : List Text
  pub max_concurrent_runs : ℕ
  pub status : NodeStatus
  pub offline_after : ℕ
  pub version : ℕ

pub data LeaseStatus : Type 0 where
  active released expired : LeaseStatus

pub record ExecutionLease : Type 0 where
  pub id : Text
  pub run_id : Text
  pub node_id : Text
  pub owner_id : Text
  pub token : Text
  pub status : LeaseStatus
  pub acquired_at : ℕ
  pub heartbeat_at : ℕ
  pub expires_at : ℕ
  pub released_at : Option ℕ
  pub version : ℕ

-- What `outbox.push` records.
pub data OutboxEvent : Type 0 where
  lease_expired : (job_id run_id : Text) → OutboxEvent
  job_started : (job_id : Text) → OutboxEvent

pub record Store : Type 0 where
  pub jobs : List SchedulerJob
  pub nodes : List ExecutionNode
  pub leases : List ExecutionLease
  pub outbox : List OutboxEvent

-- `terminal`
abbrev pub is_terminal : SchedulerJobState → Bool
is_terminal succeeded = true
is_terminal failed = true
is_terminal cancelled = true
is_terminal blocked = true
is_terminal _ = false

abbrev pub is_waiting : SchedulerJobState → Bool
is_waiting pending = true
is_waiting retry_wait = true
is_waiting _ = false

-- `["starting", "running", "reconciling"].includes(state)`
abbrev pub is_underway : SchedulerJobState → Bool
is_underway starting = true
is_underway running = true
is_underway reconciling = true
is_underway _ = false

abbrev pub is_claimed : SchedulerJobState → Bool
is_claimed claimed = true
is_claimed _ = false

abbrev pub is_active : LeaseStatus → Bool
is_active active = true
is_active _ = false

abbrev pub is_online : NodeStatus → Bool
is_online online = true
is_online _ = false

abbrev pub is_offline : NodeStatus → Bool
is_offline offline = true
is_offline _ = false
