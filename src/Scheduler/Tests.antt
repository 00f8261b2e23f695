-- ===== src/Scheduler/Tests.antt =====
-- One node, one job, and a tick that starts it.
use ai_dev_harness.Shared.{
  update_first, ◌≡◌, refl, Bool, true, false, none, some, [], ◌∷◌, All, map, length, ltb, Text, lit,
  ok, text_eq, arith,
}
use ai_dev_harness.Scheduler.{
  SchedulerJob, pending, running, online, ExecutionNode, ExecutionLease, Store, active,
}
use ai_dev_harness.Scheduler.Repository.{
  list_for_reconciliation, lapse_jobs, heartbeat_owned, renewed, claim_next, least, select_node,
  acquire_lease, claim,
}
use ai_dev_harness.Scheduler.Jobs.{
  ExternalExecutionStatus, external_running, external_succeeded, amend, amend_and_release,
  mark_external_start_issued, mark_started, reconcile_external, handle_start_failure, mark_stopped,
  start_failed, settled, let_go,
}
use ai_dev_harness.Scheduler.Supervisor.{
  Gateway, Action, SchedulerTickResult, reconcile, reconcile_all, Drawn, launch, place, dispatch,
  tick,
}
use ai_dev_harness.Scheduler.Capacity.{IsWithin}
use ai_dev_harness.Scheduler.Leases.{StoreReach, reach-IsWithin}
use ai_dev_harness.Scheduler.Tick.{tick-StoreReach}
use ai_dev_harness.Scheduler.Reconciliation.{AreSettled, tick-settles}
use ai_dev_harness.Scheduler.Expiry.{
  IsCurrent, listed-IsCurrent, IsPutOff, start_failure-IsPutOff, reconciled_leases_renewed,
}
use ai_dev_harness.Scheduler.Claims.{IsOrder, IsClaimed, claim_next-IsClaimed}
use ai_dev_harness.Scheduler.Attempts.{AreBounded, reach-AreBounded}

abbrev job : SchedulerJob
job = record {
  id = lit "job-1";
  run_id = lit "run-1";
  external_task_id = lit "task-1";
  required_capability = lit "codex";
  state = pending;
  phase = lit "queued";
  priority = 5;
  attempt = 1;
  max_attempts = 3;
  max_runtime_seconds = none;
  deadline_at = 900000;
  next_attempt_at = 500;
  external_run_id = none;
  node_id = none;
  lease_token = none;
  lease_expires_at = none;
  heartbeat_at = none;
  reconciliation_required = false;
  stop_requested = false;
  failure_code = none;
  failure_reason = none;
  version = 1;
}

abbrev node : ExecutionNode
node = record {
  id = lit "node-1";
  capabilities = lit "codex" ∷ [];
  max_concurrent_runs = 1;
  status = online;
  offline_after = 800000;
  version = 1;
}

abbrev store : Store
store = record { jobs = job ∷ []; nodes = node ∷ []; leases = []; outbox = [] }

abbrev gateway : Gateway
gateway = record {
  start = λ task run timeout.
      ok (record { state = external_running; phase = lit "build"; message = none });
  inspect = λ run. ok none;
  cancel = λ run. ok tt;
}

-- Shorter identities come first.
abbrev shorter : Text → Text → Bool
shorter a b = ltb (length a) (length b)

shorter-IsOrder : IsOrder shorter
shorter-IsOrder = record { asymmetric = λ a b h. ground arith; total = λ a b c h k. ground arith }

abbrev drawn : Drawn
drawn = record { lease_id = lit "lease-1"; token = lit "token-1"; later = 1500 }

abbrev ticked : Store
ticked = (tick gateway shorter (lit "sup") 30000 store 1000 drawn).0

tick_starts :
    (tick gateway shorter (lit "sup") 30000 store 1000 drawn).1
    ≡ ok (record { action = Action.started; job_id = some (lit "job-1") })
unfolding tick list_for_reconciliation dispatch heartbeat_owned claim_next least update_first place
    select_node acquire_lease launch mark_external_start_issued amend mark_started text_eq
tick_starts = refl

store-IsWithin : IsWithin store
store-IsWithin = record { capacity = λ i n e. omega arith; exclusive = λ r. omega arith }

ticked_reach : StoreReach store ticked
ticked_reach = tick-StoreReach gateway shorter (lit "sup") 30000 store 1000 drawn

reach-IsWithin_example : IsWithin ticked
reach-IsWithin_example = reach-IsWithin store ticked ticked_reach store-IsWithin

reach-AreBounded_example : AreBounded ticked
reach-AreBounded_example = reach-AreBounded store ticked ticked_reach (omega arith, tt)

listed-IsCurrent_example :
    All (IsCurrent 40000 ticked.nodes) (list_for_reconciliation ticked 40000).0.leases
listed-IsCurrent_example = listed-IsCurrent ticked 40000

abbrev claimed_store : Store
claimed_store = record store { jobs = claim 1000 job ∷ [] }

claimed-ok : claim_next shorter store 1000 ≡ (claimed_store, some (claim 1000 job))
unfolding claim_next least update_first text_eq
claimed-ok = refl

claim_next-IsClaimed_example :
    IsClaimed shorter shorter-IsOrder store 1000 claimed_store (claim 1000 job)
claim_next-IsClaimed_example =
    claim_next-IsClaimed shorter shorter-IsOrder store 1000 claimed_store (claim 1000 job)
      claimed-ok

abbrev lease : ExecutionLease
lease = record {
  id = lit "lease-1";
  run_id = lit "run-1";
  node_id = lit "node-1";
  owner_id = lit "sup";
  token = lit "token-1";
  status = active;
  acquired_at = 1000;
  heartbeat_at = 1000;
  expires_at = 31000;
  released_at = none;
  version = 1;
}

abbrev leased : Store
leased = record { jobs = job ∷ []; nodes = node ∷ []; leases = lease ∷ []; outbox = [] }

abbrev failed_job : SchedulerJob
failed_job = start_failed (lit "gateway_start_failed") (lit "refused") 2000 job

abbrev after_failure : Store
after_failure = record leased {
  jobs = failed_job ∷ [];
  leases = map (let_go (lit "run-1") 2000) (lease ∷ []);
}

failure-ok :
    handle_start_failure leased (lit "job-1") (lit "gateway_start_failed") (lit "refused") 2000
    ≡ ok (after_failure, failed_job)
unfolding handle_start_failure amend_and_release amend update_first text_eq
failure-ok = refl

start_failure-IsPutOff_example : IsPutOff leased (lit "job-1") 2000 after_failure failed_job
start_failure-IsPutOff_example =
    start_failure-IsPutOff leased (lit "job-1") (lit "gateway_start_failed") (lit "refused") 2000
      after_failure failed_job failure-ok

abbrev stopping_job : SchedulerJob
stopping_job = record job {
  state = running;
  external_run_id = some (lit "cp-run-1-a1");
  stop_requested = true;
}

abbrev stopping : Store
stopping = record leased { jobs = stopping_job ∷ [] }

abbrev stopped : Store
stopped = (tick gateway shorter (lit "sup") 30000 stopping 2000 drawn).0

stopping-due : (list_for_reconciliation stopping 2000).1 ≡ stopping_job ∷ []
unfolding list_for_reconciliation lapse_jobs
stopping-due = refl

stopped-ok :
    tick gateway shorter (lit "sup") 30000 stopping 2000 drawn
    ≡ (stopped, ok (record { action = Action.reconciled; job_id = some (lit "job-1") }))
unfolding tick list_for_reconciliation lapse_jobs reconcile_all reconcile mark_stopped
    amend_and_release amend update_first text_eq
stopped-ok = refl

abbrev reconciled : SchedulerTickResult
reconciled = record { action = Action.reconciled; job_id = some (lit "job-1") }

tick-settles_example :
    AreSettled gateway 2000 (stopping_job ∷ []) (list_for_reconciliation stopping 2000).0 stopped
    × (reconciled ≡ record { action = Action.reconciled; job_id = some stopping_job.id })
tick-settles_example =
    tick-settles gateway shorter (lit "sup") 30000 stopping 2000 drawn stopping_job [] stopped
      reconciled stopping-due stopped-ok

abbrev done : ExternalExecutionStatus
done = record { state = external_succeeded; phase = lit "done"; message = none }

abbrev done_job : SchedulerJob
done_job = record (settled (some done) job) {
  heartbeat_at = some 3000;
  reconciliation_required = false;
  version = 2;
}

reconciled-ok :
    reconcile_external leased (lit "job-1") (some done) 3000
    ≡ ok (record leased { jobs = done_job ∷ [] }, done_job)
unfolding reconcile_external amend update_first text_eq
reconciled-ok = refl

reconciled_leases_renewed_example :
    (heartbeat_owned (record leased { jobs = done_job ∷ [] }) (lit "sup") 30000 60000).0.leases
    ≡ map (renewed (lit "sup") 30000 60000) leased.leases
reconciled_leases_renewed_example =
    reconciled_leases_renewed leased (lit "job-1") (some done) 3000
      (record leased { jobs = done_job ∷ [] }) done_job (lit "sup") 30000 60000 reconciled-ok
