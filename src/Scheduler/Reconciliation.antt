-- ===== src/Scheduler/Reconciliation.antt =====
-- The first half of a tick of scheduler-supervisor.ts: what becomes of the jobs to reconcile.
use ai_dev_harness.Shared.{
  ℕ, ◌≡◌, sym, ap, Bool, Option, none, some, List, [], ◌∷◌, leb, Text, Result, ok, Bool-cases,
  Option-cases, Result-cases, inl, inr, arith,
}
use ai_dev_harness.Scheduler.{SchedulerJob, Store}
use ai_dev_harness.Scheduler.Repository.{list_for_reconciliation}
use ai_dev_harness.Scheduler.Jobs.{SchedulerError, ExternalExecutionStatus}
use ai_dev_harness.Scheduler.Supervisor.{
  Gateway, Action, SchedulerTickResult, Drawn, cancel_external, inspect_external, reconcile,
  reconcile_all, tick,
}
use ai_dev_harness.Scheduler.Settled.{
  WasCancelled, WasInspected, IsSettled, stopped-IsSettled, timed_out-IsSettled, observed-IsSettled,
}

module _ (gateway : Gateway) where
  cancel_cases :
      (job : SchedulerJob) (k : Result SchedulerError (Store × SchedulerJob)) (t : Store)
      (j : SchedulerJob)
      → cancel_external gateway job k ≡ ok (t, j)
      → WasCancelled gateway job × (k ≡ ok (t, j))
  cancel_cases job k t j h = elim (Option-cases job.external_run_id) [
    | inl q ↦ (inl q, rw q at h)
    | inr (run, q) ↦ elim (Result-cases (gateway.cancel run)) [
      | inl (u, e) ↦ (inr (run, q, e), ground (arith, q, e, h))
      | inr (m, e) ↦ absurd (ground (arith, q, e, h))
    ]
  ]

  inspect_cases :
      (job : SchedulerJob) (x : Option ExternalExecutionStatus)
      → inspect_external gateway job ≡ ok x
      → WasInspected gateway job x
  inspect_cases job x h = elim (Option-cases job.external_run_id) [
    | inl q ↦ inl (q, ground (arith, q, h))
    | inr (run, q) ↦ inr (run, q, ground (arith, q, h))
  ]

  reconcile-IsSettled :
      (s : Store) (job : SchedulerJob) (now : ℕ) (t : Store) (j : SchedulerJob)
      → reconcile gateway s job now ≡ ok (t, j)
      → IsSettled gateway now job s t
  unfolding reconcile
  reconcile-IsSettled s job now t j h = elim (Bool-cases job.stop_requested) [
    | inl q ↦
        let (c, k) = cancel_cases job _ t j (rw q at h) in
        stopped-IsSettled gateway s job now t j q c k
    | inr q ↦ elim (Bool-cases (leb job.deadline_at now)) [
      | inl q' ↦
          let (c, k) = cancel_cases job _ t j (rw (q, q') at h) in
          timed_out-IsSettled gateway s job now t j q (ground (arith, q')) c k
      | inr q' ↦ elim (Result-cases (inspect_external gateway job)) [
        | inl (x, e) ↦
            observed-IsSettled gateway s job x now t j q (ground (arith, q'))
              (inspect_cases job x e) (ground arith)
        | inr (m, e) ↦ absurd (ground arith)
      ]
    ]
  ]

  -- The jobs are settled one after the other.
  abbrev pub AreSettled : ℕ → List SchedulerJob → Store → Store → Type 0
  AreSettled now [] s t = t ≡ s
  AreSettled now (job ∷ jobs) s t =
      (u : Store) × IsSettled gateway now job s u × AreSettled now jobs u t

  reconcile_all-AreSettled :
      (now : ℕ) (jobs : List SchedulerJob) (s t : Store)
      → reconcile_all gateway now jobs s ≡ (t, none)
      → AreSettled now jobs s t
  unfolding reconcile_all
  reconcile_all-AreSettled now [] s t h = sym (ap (λ r. r.0) h)
  reconcile_all-AreSettled now (job ∷ jobs) s t h =
      elim (Result-cases (reconcile gateway s job now)) [
        | inl ((u, j), e) ↦ (
          u,
          reconcile-IsSettled s job now u j e,
          reconcile_all-AreSettled now jobs u t (rw (reconcile_all, e) at h),
        )
        | inr (m, e) ↦ absurd (ground (arith, e, h))
      ]

  -- A tick that finds jobs to reconcile, and does not throw, settles these jobs in their order, changes
  -- nothing else of the store that the listing leaves, and names the first. A job whose stop was requested is cancelled; else one whose deadline
  -- has come has failed; in both cases the gateway has cancelled its external run, if it has one, and its
  -- run has no active lease. Else the job follows what the gateway says of its external run: it succeeds,
  -- fails, is cancelled or runs on, and is blocked if nothing is known; its leases stay.
  pub tick-settles :
      (precedes : Text → Text → Bool) (supervisor_id : Text) (lease_duration_ms : ℕ) (s : Store)
      (now : ℕ) (drawn : Drawn) (job : SchedulerJob) (jobs : List SchedulerJob) (t : Store)
      (result : SchedulerTickResult)
      → (list_for_reconciliation s now).1 ≡ job ∷ jobs
      → tick gateway precedes supervisor_id lease_duration_ms s now drawn ≡ (t, ok result)
      → AreSettled now (job ∷ jobs) (list_for_reconciliation s now).0 t
        × (result ≡ record { action = Action.reconciled; job_id = some job.id })
  unfolding tick
  tick-settles precedes supervisor_id lease_duration_ms s now drawn job jobs t result due h =
      let start = (list_for_reconciliation s now).0 in
      let run = reconcile_all gateway now (job ∷ jobs) start in
      elim (Option-cases run.1) [
        | inl q ↦
            let left : run.0 ≡ t = ground (arith, due, q, h) in
            let both : run ≡ (t, none) = ground (arith, left, q) in
            (reconcile_all-AreSettled now (job ∷ jobs) start t both, ground (arith, due, q, h))
        | inr (e, q) ↦ absurd (ground (arith, due, q, h))
      ]
