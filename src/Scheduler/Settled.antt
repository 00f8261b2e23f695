-- ===== src/Scheduler/Settled.antt =====
-- What settles one job of a tick of scheduler-supervisor.ts: a stop, a timeout, or what the gateway says.
use ai_dev_harness.Shared.{
  ℕ, ◌+◌, ◌≤◌, ◌<◌, ◌≡◌, ◌⊎◌, refl, sym, ap, subst, true, false, Option, none, some, List, ◌∷◌,
  find, Text, lit, ok, inl, inr, arith, map, ◌++◌, ◌∙◌, find-splits,
}
use ai_dev_harness.Scheduler.{SchedulerJob, Store, running, succeeded, failed, cancelled, blocked}
use ai_dev_harness.Scheduler.Jobs.{
  ExternalExecutionState, ExternalExecutionStatus, external_starting, external_running,
  external_succeeded, external_failed, external_cancelled, external_unknown, has_id, let_go,
  settled, mark_stopped, mark_timed_out, reconcile_external,
}
use ai_dev_harness.Scheduler.Supervisor.{Gateway}
use ai_dev_harness.Scheduler.Capacity.{held}
use ai_dev_harness.Scheduler.Expiry.{
  IsAmended, amend-IsAmended, amend-leases, found_again, amend_and_release-held,
}

-- What an external execution makes of its job.
abbrev pub Follows : Option ExternalExecutionStatus → SchedulerJob → Type 0
Follows none j = (j.state ≡ blocked) × (j.failure_code ≡ some (lit "external_state_unknown"))
Follows (some x) j = elim x.state [
  | external_unknown ↦ (j.state ≡ blocked) × (j.failure_code ≡ some (lit "external_state_unknown"))
  | external_succeeded ↦ j.state ≡ succeeded
  | external_failed ↦ (j.state ≡ failed) × (j.failure_code ≡ some (lit "external_failed"))
  | external_cancelled ↦ j.state ≡ cancelled
  | external_starting ↦ j.state ≡ running
  | external_running ↦ j.state ≡ running
]

settled-Follows :
    (x : Option ExternalExecutionStatus) (k : SchedulerJob) (now : ℕ)
    → Follows x (record (settled x k) {
      heartbeat_at = some now;
      reconciliation_required = false;
      version = k.version + 1;
    })
settled-Follows none k now = (refl, refl)
settled-Follows (some x) k now = go x.state refl
  where
    go :
        (state : ExternalExecutionState)
        → x.state ≡ state
        → Follows (some x) (record (settled (some x) k) {
          heartbeat_at = some now;
          reconciliation_required = false;
          version = k.version + 1;
        })
    go external_unknown e = rw e (ground (arith, e), ground (arith, e))
    go external_succeeded e = rw e (ground (arith, e))
    go external_failed e = rw e (ground (arith, e), ground (arith, e))
    go external_cancelled e = rw e (ground (arith, e))
    go external_starting e = rw e (ground (arith, e))
    go external_running e = rw e (ground (arith, e))

module _ (gateway : Gateway) where
  -- The gateway has cancelled the external run, if the job has one.
  abbrev pub WasCancelled : SchedulerJob → Type 0
  WasCancelled job =
      (job.external_run_id ≡ none)
      ⊎ ((run : Text) × (job.external_run_id ≡ some run) × (gateway.cancel run ≡ ok tt))

  -- What the gateway says of the external run, which is nothing if the job has none.
  abbrev pub WasInspected : SchedulerJob → Option ExternalExecutionStatus → Type 0
  WasInspected job x =
      ((job.external_run_id ≡ none) × (x ≡ none))
      ⊎ ((run : Text) × (job.external_run_id ≡ some run) × (gateway.inspect run ≡ ok x))

  -- The stop that was requested comes first, then the deadline, then the external execution.
  abbrev pub Verdict : ℕ → SchedulerJob → Store → Store → SchedulerJob → Type 0
  Verdict now job s t j =
      ((job.stop_requested ≡ true)
        × WasCancelled job
        × (j.state ≡ cancelled)
        × (j.failure_code ≡ some (lit "operator_stop"))
        × (held t j.run_id ≡ 0)
        × (t.leases ≡ map (let_go j.run_id now) s.leases))
      ⊎ ((job.stop_requested ≡ false)
          × (job.deadline_at ≤ now)
          × WasCancelled job
          × (j.state ≡ failed)
          × (j.failure_code ≡ some (lit "deadline_exceeded"))
          × (held t j.run_id ≡ 0)
          × (t.leases ≡ map (let_go j.run_id now) s.leases))
      ⊎ ((job.stop_requested ≡ false)
          × (now < job.deadline_at)
          × ((x : Option ExternalExecutionStatus) × WasInspected job x × Follows x j)
          × (t.leases ≡ s.leases))

  -- One job is settled: the job that its id finds is changed in its place in the store and no longer
  -- waits for a reconciliation; the other jobs, the nodes and the outbox stay.
  pub record IsSettled (now : ℕ) (job : SchedulerJob) (s t : Store) : Type 0 where
    pub before : SchedulerJob
    pub after : SchedulerJob
    pub found : find (has_id job.id) s.jobs ≡ some before
    pub stored : find (has_id job.id) t.jobs ≡ some after
    pub in_place :
        (earlier : List SchedulerJob) × (later : List SchedulerJob) × (s.jobs
          ≡ earlier ++ before ∷ later)
        × (t.jobs ≡ earlier ++ after ∷ later)
    pub nodes : t.nodes ≡ s.nodes
    pub outbox : t.outbox ≡ s.outbox
    pub next_version : after.version ≡ before.version + 1
    pub reconciled : after.reconciliation_required ≡ false
    pub verdict : Verdict now job s t after

  placed :
      (s : Store) (job_id : Text) (f : SchedulerJob → SchedulerJob) (t : Store) (j : SchedulerJob)
      (a : IsAmended s job_id f t j)
      → (earlier : List SchedulerJob) × (later : List SchedulerJob) × (s.jobs
          ≡ earlier ++ a.job ∷ later)
        × (t.jobs ≡ earlier ++ j ∷ later)
  placed s job_id f t j a =
      let (earlier, later, was, is) = find-splits (has_id job_id) f s.jobs a.job a.found in
      (earlier, later, was, a.stored ∙ is ∙ ap (λ k. earlier ++ k ∷ later) (sym a.changed))

  pub stopped-IsSettled :
      (s : Store) (job : SchedulerJob) (now : ℕ) (t : Store) (j : SchedulerJob)
      → job.stop_requested ≡ true
      → WasCancelled job
      → mark_stopped s job.id now ≡ ok (t, j)
      → IsSettled now job s t
  unfolding mark_stopped
  stopped-IsSettled s job now t j stop c h =
      let (freed, a, let_gone) = amend_and_release-held s job.id now _ t j h in
      record {
        before = a.job;
        after = j;
        found = a.found;
        stored = found_again s job.id _ t j (λ k. refl) a;
        in_place = placed s job.id _ t j a;
        nodes = a.nodes;
        outbox = a.outbox;
        next_version = ap (λ x. x.version) a.changed;
        reconciled = ap (λ x. x.reconciliation_required) a.changed;
        verdict = inl (
          stop,
          c,
          ap (λ x. x.state) a.changed,
          ap (λ x. x.failure_code) a.changed,
          freed,
          let_gone,
        );
      }

  pub timed_out-IsSettled :
      (s : Store) (job : SchedulerJob) (now : ℕ) (t : Store) (j : SchedulerJob)
      → job.stop_requested ≡ false
      → job.deadline_at ≤ now
      → WasCancelled job
      → mark_timed_out s job.id now ≡ ok (t, j)
      → IsSettled now job s t
  unfolding mark_timed_out
  timed_out-IsSettled s job now t j stop late c h =
      let (freed, a, let_gone) = amend_and_release-held s job.id now _ t j h in
      record {
        before = a.job;
        after = j;
        found = a.found;
        stored = found_again s job.id _ t j (λ k. refl) a;
        in_place = placed s job.id _ t j a;
        nodes = a.nodes;
        outbox = a.outbox;
        next_version = ap (λ x. x.version) a.changed;
        reconciled = ap (λ x. x.reconciliation_required) a.changed;
        verdict = inr (
            inl (
              stop,
              late,
              c,
              ap (λ x. x.state) a.changed,
              ap (λ x. x.failure_code) a.changed,
              freed,
              let_gone,
            ));
      }

  settled-id :
      (x : Option ExternalExecutionStatus) (job_id : Text) (k : SchedulerJob)
      → has_id job_id (settled x k) ≡ has_id job_id k
  settled-id x job_id k = ground arith

  pub observed-IsSettled :
      (s : Store) (job : SchedulerJob) (x : Option ExternalExecutionStatus) (now : ℕ) (t : Store)
      (j : SchedulerJob)
      → job.stop_requested ≡ false
      → now < job.deadline_at
      → WasInspected job x
      → reconcile_external s job.id x now ≡ ok (t, j)
      → IsSettled now job s t
  unfolding reconcile_external
  observed-IsSettled s job x now t j stop early w h =
      let a = amend-IsAmended s job.id _ t j h in
      record {
        before = a.job;
        after = j;
        found = a.found;
        stored = found_again s job.id _ t j (λ k. settled-id x job.id k) a;
        in_place = placed s job.id _ t j a;
        nodes = a.nodes;
        outbox = a.outbox;
        next_version = ap (λ x. x.version) a.changed;
        reconciled = ap (λ x. x.reconciliation_required) a.changed;
        verdict = inr (
            inr (
              stop,
              early,
              (x, w, subst (Follows x) (sym a.changed) (settled-Follows x a.job now)),
              amend-leases s job.id _ t j h,
            ));
      }
