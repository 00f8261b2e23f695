-- ===== src/Scheduler/Tick.antt =====
-- A tick of scheduler-supervisor.ts: the calls that it makes of the repository.
use ai_dev_harness.Shared.{
  ℕ, ◌+◌, ◌≡◌, refl, subst, Bool, some, List, [], ◌∷◌, leb, Text, lit, Result, ok, err, Bool-cases,
  Option-cases, Result-cases, inl, inr, arith,
}
use ai_dev_harness.Scheduler.{SchedulerJob, ExecutionLease, Store}
use ai_dev_harness.Scheduler.Repository.{
  list_for_reconciliation, heartbeat_owned, claim_next, select_node, LeaseRequest, acquire_lease,
}
use ai_dev_harness.Scheduler.Jobs.{
  SchedulerError, mark_external_start_issued, mark_started, handle_start_failure, release_claim,
}
use ai_dev_harness.Scheduler.Supervisor.{
  Gateway, Action, SchedulerTickResult, Drawn, external_run_id_of, gateway_timeout_ms,
  inspect_external, cancel_external, finish, reconcile, reconcile_all, launch, place, dispatch,
  tick,
}
use ai_dev_harness.Scheduler.Capacity.{IsWithin}
use ai_dev_harness.Scheduler.Leases.{StoreStep, StoreReach, here, next, reach-IsWithin}

module _ (gateway : Gateway) where
  cancel-ok :
      (job : SchedulerJob) (k : Result SchedulerError (Store × SchedulerJob)) (t : Store)
      (j : SchedulerJob)
      → cancel_external gateway job k ≡ ok (t, j)
      → k ≡ ok (t, j)
  cancel-ok job k t j h = ground arith

  reconcile-StoreStep :
      (s : Store) (job : SchedulerJob) (now : ℕ) (t : Store) (j : SchedulerJob)
      → reconcile gateway s job now ≡ ok (t, j)
      → StoreStep s t
  unfolding reconcile
  reconcile-StoreStep s job now t j h = elim (Bool-cases job.stop_requested) [
    | inl q ↦ StoreStep.stop job.id now j (cancel-ok job _ t j (rw q at h))
    | inr q ↦ elim (Bool-cases (leb job.deadline_at now)) [
      | inl q' ↦ StoreStep.time_out job.id now j (cancel-ok job _ t j (rw (q, q') at h))
      | inr q' ↦ elim (Result-cases (inspect_external gateway job)) [
        | inl (x, e) ↦ StoreStep.reconcile job.id x now j (ground arith)
        | inr (m, e) ↦ absurd (ground arith)
      ]
    ]
  ]

  reconcile_all-StoreReach :
      (now : ℕ) (jobs : List SchedulerJob) (o s : Store)
      → StoreReach o s
      → StoreReach o (reconcile_all gateway now jobs s).0
  unfolding reconcile_all
  reconcile_all-StoreReach now [] o s r = r
  reconcile_all-StoreReach now (job ∷ jobs) o s r =
      elim (Result-cases (reconcile gateway s job now)) [
        | inl ((t, j), e) ↦
            subst (λ x. StoreReach o x) (ground arith)
              (reconcile_all-StoreReach now jobs o t (next r (reconcile-StoreStep s job now t j e)))
        | inr (m, e) ↦ subst (λ x. StoreReach o x) (ground arith) r
      ]

  finish-StoreReach :
      (o s : Store) (r : SchedulerTickResult) (m : Result SchedulerError (Store × SchedulerJob))
      → StoreReach o s
      → ((t : Store) (j : SchedulerJob) → m ≡ ok (t, j) → StoreStep s t)
      → StoreReach o (finish gateway s r m).0
  finish-StoreReach o s r (ok (t, j)) reach step = next reach (step t j refl)
  finish-StoreReach o s r (err e) reach step = reach

  launch-StoreReach :
      (o s : Store) (job : SchedulerJob) (lease : ExecutionLease) (now later : ℕ)
      → StoreReach o s
      → StoreReach o (launch gateway s job lease now later).0
  unfolding launch
  launch-StoreReach o s job lease now later r =
      elim (Result-cases
        (mark_external_start_issued s job.id job.version (external_run_id_of job) lease now)) [
          | inr (m, e) ↦ subst (λ x. StoreReach o x) (ground arith) r
          | inl ((t, j), e) ↦
              let issued =
                next r
                  (StoreStep.issue job.id job.version (external_run_id_of job) lease now j e) in
              elim (Result-cases (
                gateway.start job.external_task_id (external_run_id_of job)
                  (gateway_timeout_ms job now))) [
                    | inr (m, f) ↦
                        subst (λ x. StoreReach o x) (ground arith)
                          (finish-StoreReach o t
                            (record { action = Action.retry_scheduled; job_id = some job.id })
                            (handle_start_failure t job.id (lit "gateway_start_failed") m later)
                            issued
                            (λ u k h.
                              StoreStep.fail job.id (lit "gateway_start_failed") m later k h))
                    | inl (x, f) ↦
                        subst (λ x. StoreReach o x) (ground arith)
                          (finish-StoreReach o t
                            (record { action = Action.started; job_id = some job.id })
                            (mark_started t job.id x later) issued
                            (λ u k h. StoreStep.start job.id x later k h))
                  ]
        ]

  module _ (precedes : Text → Text → Bool) (supervisor_id : Text) (lease_duration_ms : ℕ) where
    place-StoreReach :
        (o s : Store) (job : SchedulerJob) (now : ℕ) (drawn : Drawn)
        → StoreReach o s
        → StoreReach o (place gateway precedes supervisor_id lease_duration_ms s job now drawn).0
    unfolding place
    place-StoreReach o s job now drawn r = elim (Option-cases (select_node s job now)) [
      | inl e ↦
          subst (λ x. StoreReach o x) (ground arith)
            (finish-StoreReach o s (record { action = Action.capacity_wait; job_id = some job.id })
              (release_claim s job.id (lit "No compatible capacity") now) r
              (λ u k h. StoreStep.release job.id (lit "No compatible capacity") now k h))
      | inr (node, e) ↦
          let request : LeaseRequest = record {
            run_id = job.run_id;
            node_id = node.id;
            owner_id = supervisor_id;
            now = now;
            expires_at = now + lease_duration_ms;
          } in
          let taken = acquire_lease s request drawn.lease_id drawn.token in
          let acquired : StoreReach o taken.0 =
            next r (StoreStep.acquire request drawn.lease_id drawn.token refl) in
          elim (Option-cases taken.1) [
            | inl f ↦
                subst (λ x. StoreReach o x) (ground arith)
                  (finish-StoreReach o taken.0
                    (record { action = Action.capacity_wait; job_id = some job.id })
                    (release_claim taken.0 job.id (lit "Capacity lease unavailable") now) acquired
                    (λ u k h. StoreStep.release job.id (lit "Capacity lease unavailable") now k h))
            | inr (lease, f) ↦
                subst (λ x. StoreReach o x) (ground arith)
                  (launch-StoreReach o taken.0 job lease now drawn.later acquired)
          ]
    ]

    dispatch-StoreReach :
        (o s : Store) (now : ℕ) (drawn : Drawn)
        → StoreReach o s
        → StoreReach o (dispatch gateway precedes supervisor_id lease_duration_ms s now drawn).0
    unfolding dispatch
    dispatch-StoreReach o s now drawn r =
        let beaten = (heartbeat_owned s supervisor_id now (now + lease_duration_ms)).0 in
        let beat : StoreReach o beaten =
          next r (StoreStep.heartbeat supervisor_id now (now + lease_duration_ms) refl) in
        let claimed : StoreReach o (claim_next precedes beaten now).0 =
          next beat (StoreStep.claim precedes now refl) in
        elim (Option-cases (claim_next precedes beaten now).1) [
          | inl e ↦ subst (λ x. StoreReach o x) (ground arith) claimed
          | inr (job, e) ↦
              subst (λ x. StoreReach o x) (ground arith)
                (place-StoreReach o (claim_next precedes beaten now).0 job now drawn claimed)
        ]

    -- A tick only calls the repository: the store that it leaves, also where it throws, is reached from
    -- the one it found by calls of the repository.
    pub tick-StoreReach :
        (s : Store) (now : ℕ) (drawn : Drawn)
        → StoreReach s (tick gateway precedes supervisor_id lease_duration_ms s now drawn).0
    unfolding tick
    tick-StoreReach s now drawn =
        let found = list_for_reconciliation s now in
        let listed : StoreReach s found.0 = next here (StoreStep.list now refl) in
        elim found.1
            as (λ due.
              found.1 ≡ due
              → StoreReach s
                  (tick gateway precedes supervisor_id lease_duration_ms s now drawn).0) [
                    | [] ↦ λ e.
                        subst (λ x. StoreReach s x) (ground arith)
                          (dispatch-StoreReach s found.0 now drawn listed)
                    | job ∷ jobs ↦ λ e.
                        subst (λ x. StoreReach s x) (ground arith)
                          (reconcile_all-StoreReach now (job ∷ jobs) s found.0 listed)
                  ]
          refl

    -- Whatever the gateway answers, a tick that starts with no node over its capacity and at most one
    -- active lease for each run ends so, also where it throws.
    pub tick-IsWithin :
        (s : Store) (now : ℕ) (drawn : Drawn)
        → IsWithin s
        → IsWithin (tick gateway precedes supervisor_id lease_duration_ms s now drawn).0
    tick-IsWithin s now drawn w = reach-IsWithin s _ (tick-StoreReach s now drawn) w
