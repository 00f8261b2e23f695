-- ===== src/Scheduler/Attempts.antt =====
-- The attempts of the jobs through the operations of memory-scheduler-repository.ts.
use ai_dev_harness.Shared.{
  update-All, ℕ, ◌≤◌, ◌≡◌, sym, subst, Bool, true, Option, some, List, [], ◌∷◌, filter, find, All,
  Text, ok, if◌then◌else◌, Bool-cases, Option-cases, Result-cases, inl, inr, arith,
}
use ai_dev_harness.Scheduler.{SchedulerJob, ExecutionLease, Store, is_terminal}
use ai_dev_harness.Scheduler.Repository.{
  runs, lapse_job, lapse_jobs, lapses, list_for_reconciliation, renew_job, renew_jobs, renews,
  heartbeat_owned, least, is_claimable, claim, is_candidate, claim_next, acquire_lease,
  LeaseRequest,
}
use ai_dev_harness.Scheduler.Jobs.{
  ExternalExecutionStatus, amend, amend_and_release, began, settled, start_failed, mark_started,
  has_id, reconcile_external, mark_timed_out, mark_stopped, handle_start_failure, release_claim,
}
use ai_dev_harness.Scheduler.Leases.{StoreStep, StoreReach, here, next, issue-amend}

-- The attempt number is within its limit.
abbrev IsBounded : SchedulerJob → Type 0
IsBounded j = j.attempt ≤ j.max_attempts

abbrev pub AreBounded : Store → Type 0
AreBounded s = All IsBounded s.jobs

lapse_job-AreBounded : (run_id : Text) (s : Store) → AreBounded s → AreBounded (lapse_job run_id s)
unfolding lapse_job
lapse_job-AreBounded r s w = elim (Option-cases (find (runs r) s.jobs)) [
  | inl q ↦ subst (λ js. All IsBounded js) (ground arith) w
  | inr (j, q) ↦
      let u =
        update-All IsBounded (runs r) (λ j. record j { reconciliation_required = true }) (λ j h. h)
          s.jobs w in
      elim (Bool-cases (is_terminal j.state)) [
        | inl t ↦ subst (λ js. All IsBounded js) (ground arith) w
        | inr t ↦ subst (λ js. All IsBounded js) (ground arith) u
      ]
]

lapse_jobs-AreBounded :
    (now : ℕ) (off : List Text) (ls : List ExecutionLease) (s : Store)
    → AreBounded s
    → AreBounded (lapse_jobs now off ls s)
unfolding lapse_jobs
lapse_jobs-AreBounded now off [] s w = w
lapse_jobs-AreBounded now off (l ∷ ls) s w =
    let after = if lapses now off l then lapse_job l.run_id s else s in
    let kept : AreBounded after = elim (Bool-cases (lapses now off l)) [
      | inl q ↦ rw q (lapse_job-AreBounded l.run_id s w)
      | inr q ↦ rw q w
    ] in
    lapse_jobs-AreBounded now off ls after kept

renew_job-IsBounded :
    (r : Text) (now exp : ℕ) (js : List SchedulerJob)
    → All IsBounded js
    → All IsBounded (renew_job r now exp js)
unfolding renew_job
renew_job-IsBounded r now exp js w = elim (Option-cases (find (runs r) js)) [
  | inl q ↦ subst (λ js. All IsBounded js) (ground arith) w
  | inr (j, q) ↦
      let u =
        update-All IsBounded (runs r)
          (λ j. record j { heartbeat_at = some now; lease_expires_at = some exp }) (λ j h. h) js
          w in
      elim (Bool-cases (is_terminal j.state)) [
        | inl t ↦ subst (λ js. All IsBounded js) (ground arith) w
        | inr t ↦ subst (λ js. All IsBounded js) (ground arith) u
      ]
]

renew_jobs-IsBounded :
    (o : Text) (now exp : ℕ) (ls : List ExecutionLease) (js : List SchedulerJob)
    → All IsBounded js
    → All IsBounded (renew_jobs o now exp ls js)
unfolding renew_jobs
renew_jobs-IsBounded o now exp [] js w = w
renew_jobs-IsBounded o now exp (l ∷ ls) js w = elim (Bool-cases (renews o now l)) [
  | inl q ↦
      subst (λ js. All IsBounded js) (ground arith)
        (renew_jobs-IsBounded o now exp ls (renew_job l.run_id now exp js)
          (renew_job-IsBounded l.run_id now exp js w))
  | inr q ↦ subst (λ js. All IsBounded js) (ground arith) (renew_jobs-IsBounded o now exp ls js w)
]

amend-AreBounded :
    (s : Store) (job_id : Text) (f : SchedulerJob → SchedulerJob) (t : Store) (j : SchedulerJob)
    → ((k : SchedulerJob) → IsBounded k → IsBounded (f k))
    → amend s job_id f ≡ ok (t, j)
    → AreBounded s
    → AreBounded t
unfolding amend
amend-AreBounded s i f t j g h w = elim (Option-cases (find (has_id i) s.jobs)) [
  | inl q ↦ absurd (ground arith)
  | inr (k, q) ↦
      subst (λ js. All IsBounded js) (ground arith) (update-All IsBounded (has_id i) f g s.jobs w)
]

released-AreBounded :
    (s : Store) (job_id : Text) (now : ℕ) (f : SchedulerJob → SchedulerJob) (t : Store)
    (j : SchedulerJob)
    → ((k : SchedulerJob) → IsBounded k → IsBounded (f k))
    → amend_and_release s job_id now f ≡ ok (t, j)
    → AreBounded s
    → AreBounded t
unfolding amend_and_release
released-AreBounded s i now f t j g h w = elim (Result-cases (amend s i f)) [
  | inr (e, q) ↦ absurd (ground arith)
  | inl ((u, k), q) ↦
      subst (λ js. All IsBounded js) (ground arith) (amend-AreBounded s i f u k g q w)
]

claimed-AreBounded :
    (precedes : Text → Text → Bool) (s : Store) (now : ℕ)
    → AreBounded s
    → AreBounded (claim_next precedes s now).0
unfolding claim_next
claimed-AreBounded precedes s now w =
    elim (Option-cases (least precedes (filter (is_claimable now) s.jobs))) [
      | inl q ↦ subst (λ js. All IsBounded js) (ground arith) w
      | inr (c, q) ↦
          subst (λ js. All IsBounded js) (ground arith)
            (update-All IsBounded (is_candidate now c) (claim now) (λ j h. h) s.jobs w)
    ]

started-AreBounded :
    (s : Store) (job_id : Text) (x : ExternalExecutionStatus) (now : ℕ) (t : Store)
    (j : SchedulerJob)
    → mark_started s job_id x now ≡ ok (t, j)
    → AreBounded s
    → AreBounded t
unfolding mark_started
started-AreBounded s i x now t j h w = elim (Result-cases (amend s i (began x now))) [
  | inr (e, q) ↦ absurd (ground arith)
  | inl ((u, k), q) ↦
      subst (λ js. All IsBounded js) (ground arith)
        (amend-AreBounded s i (began x now) u k (λ k h. h) q w)
]

settled-IsBounded :
    (x : Option ExternalExecutionStatus) (k : SchedulerJob) → IsBounded k → IsBounded (settled x k)
settled-IsBounded x k h = ground arith

acquired-jobs :
    (s : Store) (r : LeaseRequest) (id token : Text) → (acquire_lease s r id token).0.jobs ≡ s.jobs
unfolding acquire_lease
acquired-jobs s r id token = ground arith

step-AreBounded : {s t : Store} → StoreStep s t → AreBounded s → AreBounded t
unfolding list_for_reconciliation heartbeat_owned reconcile_external mark_timed_out mark_stopped
    handle_start_failure release_claim
step-AreBounded {s} {t} (StoreStep.list now e) w =
    subst AreBounded e (lapse_jobs-AreBounded now _ s.leases s w)
step-AreBounded {s} {t} (StoreStep.heartbeat o now x e) w =
    subst AreBounded e (renew_jobs-IsBounded o now x s.leases s.jobs w)
step-AreBounded {s} {t} (StoreStep.claim p now e) w =
    subst AreBounded e (claimed-AreBounded p s now w)
step-AreBounded {s} {t} (StoreStep.acquire r id token e) w =
    subst AreBounded e (subst (λ js. All IsBounded js) (sym (acquired-jobs s r id token)) w)
step-AreBounded {s} {t} (StoreStep.issue i v run l now j h) w =
    amend-AreBounded s i _ t j (λ k b. b) (issue-amend s i v run l now t j h) w
step-AreBounded {s} {t} (StoreStep.start i x now j h) w = started-AreBounded s i x now t j h w
step-AreBounded {s} {t} (StoreStep.reconcile i x now j h) w =
    amend-AreBounded s i _ t j (λ k b. settled-IsBounded x k b) h w
step-AreBounded {s} {t} (StoreStep.time_out i now j h) w =
    released-AreBounded s i now _ t j (λ k b. b) h w
step-AreBounded {s} {t} (StoreStep.stop i now j h) w =
    released-AreBounded s i now _ t j (λ k b. b) h w
step-AreBounded {s} {t} (StoreStep.fail i c r now j h) w =
    released-AreBounded s i now (start_failed c r now) t j (λ k b. ground arith) h w
step-AreBounded {s} {t} (StoreStep.release i r now j h) w =
    amend-AreBounded s i _ t j (λ k b. b) h w

-- The attempt number of a job: no sequence of calls of the repository raises it above the job's limit,
-- if it is within the limit in all jobs at first. This bounds the number, not how often a job is claimed,
-- since releaseClaim makes any job pending again and leaves the number alone.
pub reach-AreBounded : (s t : Store) → StoreReach s t → AreBounded s → AreBounded t
reach-AreBounded s t here w = w
reach-AreBounded s u (next r step) w = step-AreBounded step (reach-AreBounded s _ r w)
