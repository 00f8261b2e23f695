-- ===== src/Scheduler/Expiry.antt =====
-- What `listForReconciliation`, `markTimedOut`, `markStopped` and `handleStartFailure` do to the leases.
use Prim.Native.Nat.{min}
use ai_dev_harness.Shared.{
  ◌*◌, ℕ, zero, suc, ◌+◌, ◌^◌, ◌≤◌, ◌≡◌, ◌∙◌, refl, sym, ap, subst, true, false, Option, none, List,
  [], ◌∷◌, map, length, filter, find, All, Text, text_mem, ok, Option-cases, Result-cases, inl, inr,
  arith, ◌<◌, ◌⊎◌, Bool-cases, some, update_first, find-update, text_eq_iff, not, ◌&&◌, leb,
}
use ai_dev_harness.Scheduler.{
  retry_wait, failed, SchedulerJob, ExecutionNode, ExecutionLease, Store, is_active, is_offline,
}
use ai_dev_harness.Scheduler.Repository.{
  active_for, lapses, offline_ids, mark_offline, lapsed, list_for_reconciliation, renewed,
  heartbeat_owned,
}
use ai_dev_harness.Scheduler.Jobs.{
  has_id, amend, amend_and_release, let_go, may_retry, next_attempt, backoff_ms, start_failed,
  handle_start_failure, ExternalExecutionStatus, reconcile_external,
}
use ai_dev_harness.Scheduler.Capacity.{held}

-- If the lease is active, it has not expired, and every node of its id is not offline and not overdue.
abbrev pub IsCurrent : (now : ℕ) → List ExecutionNode → ExecutionLease → Type 0
IsCurrent now nodes l =
    is_active l.status ≡ true
    → (suc now ≤ l.expires_at)
      × All (λ n. n.id ≡ l.node_id → (is_offline n.status ≡ false) × (suc now ≤ n.offline_after))
          nodes

marked-id : (now : ℕ) (n : ExecutionNode) → (mark_offline now n).id ≡ n.id
marked-id now n = elim (Bool-cases (not (is_offline n.status) && leb n.offline_after now)) [
  | inl q ↦ rw q
  | inr q ↦ rw q
]

not_listed :
    (now : ℕ) (id : Text) (nodes : List ExecutionNode)
    → text_mem id (offline_ids (map (mark_offline now) nodes)) ≡ false
    → All (λ n. n.id ≡ id → (is_offline n.status ≡ false) × (suc now ≤ n.offline_after)) nodes
not_listed now id [] h = tt
not_listed now id (n ∷ nodes) h = elim (Bool-cases (is_offline (mark_offline now n).status)) [
  | inl q ↦
      let split : text_mem id ((mark_offline now n).id ∷ offline_ids (map (mark_offline now) nodes))
          ≡ false =
        rw q at h in
      (
        (λ e. absurd (
            let t = (text_eq_iff (mark_offline now n).id id).1 (marked-id now n ∙ e) in
            ground (arith, t, split))),
        not_listed now id nodes (ground (arith, split)),
      )
  | inr q ↦ ((λ e. (ground (arith, q), ground (arith, q))), not_listed now id nodes (rw q at h))
]

lapsed-IsCurrent :
    (now : ℕ) (nodes : List ExecutionNode) (ls : List ExecutionLease)
    → All (IsCurrent now nodes) (map (lapsed now (offline_ids (map (mark_offline now) nodes))) ls)
lapsed-IsCurrent now nodes [] = tt
lapsed-IsCurrent now nodes (l ∷ ls) =
    let off = offline_ids (map (mark_offline now) nodes) in
    (
      elim (Bool-cases (lapses now off l)) [
        | inl q ↦ rw q (λ a. absurd (ground arith))
        | inr q ↦
            rw q
              (λ a. (ground (arith, a, q), not_listed now l.node_id nodes (ground (arith, a, q))))
      ],
      lapsed-IsCurrent now nodes ls,
    )

-- After the listing, at whatever time and in whatever store, no active lease has expired, and none is on
-- a node that was offline before or whose time to be taken for offline has come.
pub listed-IsCurrent :
    (s : Store) (now : ℕ) → All (IsCurrent now s.nodes) (list_for_reconciliation s now).0.leases
unfolding list_for_reconciliation
listed-IsCurrent s now = lapsed-IsCurrent now s.nodes s.leases

pow_positive : (k : ℕ) → suc zero ≤ 2 ^ k
pow_positive zero = omega arith
pow_positive (suc k) = omega (arith, pow_positive k)

backoff_doubles : (attempt : ℕ) → backoff_ms (attempt + 1) ≡ min 60000 (1000 * 2 ^ attempt)
backoff_doubles attempt = ground arith

backoff_low : (attempt : ℕ) → 1000 ≤ backoff_ms (attempt + 1)
backoff_low attempt = let p = pow_positive attempt in ground (arith, p)

backoff_high : (attempt : ℕ) → backoff_ms attempt ≤ 60000
backoff_high zero = omega arith
backoff_high (suc n) = ground arith

released_none :
    (run_id : Text) (now : ℕ) (ls : List ExecutionLease)
    → length (filter (active_for run_id) (map (let_go run_id now) ls)) ≡ 0
released_none run_id now [] = refl
released_none run_id now (l ∷ ls) = ground (arith, released_none run_id now ls)

-- An assignment to a job: the job that the id finds is changed, in the store too, and returned; nodes
-- and outbox stay.
pub record IsAmended (s : Store) (job_id : Text) (f : SchedulerJob → SchedulerJob) (t : Store)
    (j : SchedulerJob) : Type 0 where
  pub job : SchedulerJob
  pub found : find (has_id job_id) s.jobs ≡ some job
  pub changed : j ≡ f job
  pub stored : t.jobs ≡ update_first (has_id job_id) f s.jobs
  pub nodes : t.nodes ≡ s.nodes
  pub outbox : t.outbox ≡ s.outbox

pub amend-IsAmended :
    (s : Store) (job_id : Text) (f : SchedulerJob → SchedulerJob) (t : Store) (j : SchedulerJob)
    → amend s job_id f ≡ ok (t, j)
    → IsAmended s job_id f t j
unfolding amend
amend-IsAmended s job_id f t j h = elim (Option-cases (find (has_id job_id) s.jobs)) [
  | inl e ↦ absurd (ground arith)
  | inr (k, e) ↦ record {
    job = k;
    found = e;
    changed = ground arith;
    stored = ground arith;
    nodes = ground arith;
    outbox = ground arith;
  }
]

pub amend-leases :
    (s : Store) (job_id : Text) (f : SchedulerJob → SchedulerJob) (t : Store) (j : SchedulerJob)
    → amend s job_id f ≡ ok (t, j)
    → t.leases ≡ s.leases
unfolding amend
amend-leases s job_id f t j h = ground arith

-- Where the id is kept, the changed job is the one that it finds afterwards.
pub found_again :
    (s : Store) (job_id : Text) (f : SchedulerJob → SchedulerJob) (t : Store) (j : SchedulerJob)
    → ((k : SchedulerJob) → has_id job_id (f k) ≡ has_id job_id k)
    → IsAmended s job_id f t j
    → find (has_id job_id) t.jobs ≡ some j
found_again s job_id f t j kept a =
    ap (find (has_id job_id)) a.stored
    ∙ find-update (has_id job_id) f kept s.jobs a.job a.found
    ∙ ap some (sym a.changed)

-- The operations that end an attempt free its run, and the job that they return is the one changed.
pub amend_and_release-held :
    (s : Store) (job_id : Text) (now : ℕ) (f : SchedulerJob → SchedulerJob) (t : Store)
    (j : SchedulerJob)
    → amend_and_release s job_id now f ≡ ok (t, j)
    → (held t j.run_id ≡ 0)
      × IsAmended s job_id f t j
      × (t.leases ≡ map (let_go j.run_id now) s.leases)
unfolding amend_and_release
amend_and_release-held s job_id now f t j h = elim (Result-cases (amend s job_id f)) [
  | inr (e, q) ↦ absurd (ground arith)
  | inl ((u, k), q) ↦
      let same : k ≡ j = ground arith in
      let jobs : u.jobs ≡ t.jobs = ground arith in
      let nodes : u.nodes ≡ t.nodes = ground arith in
      let outbox : u.outbox ≡ t.outbox = ground arith in
      let leases : map (let_go k.run_id now) u.leases ≡ t.leases = ground arith in
      let freed : length (filter (active_for k.run_id) t.leases) ≡ 0 =
        subst (λ ls. length (filter (active_for k.run_id) ls) ≡ 0) leases
          (released_none k.run_id now u.leases) in
      (
        subst (λ (x : SchedulerJob). held t x.run_id ≡ 0) same freed,
        (let a = amend-IsAmended s job_id f u j (q ∙ ap (λ (x : SchedulerJob). ok (u, x)) same) in
            record {
              job = a.job;
              found = a.found;
              changed = a.changed;
              stored = sym jobs ∙ a.stored;
              nodes = sym nodes ∙ a.nodes;
              outbox = sym outbox ∙ a.outbox;
            }),
        subst (λ (x : SchedulerJob). t.leases ≡ map (let_go x.run_id now) s.leases) same
            (sym leases ∙ ap (map (let_go k.run_id now)) (amend-leases s job_id f u k q)),
      )
]

-- An attempt is left, and the job waits for it; or none is, and the job has failed.
abbrev pub IsNextAttempt : (now : ℕ) (before after : SchedulerJob) → Type 0
IsNextAttempt now before after =
    ((before.attempt < before.max_attempts)
      × (after.state ≡ retry_wait)
      × (after.attempt ≡ before.attempt + 1)
      × (after.next_attempt_at ≡ now + min 60000 (1000 * 2 ^ before.attempt))
      × (now + 1000 ≤ after.next_attempt_at))
    ⊎ ((before.max_attempts ≤ before.attempt)
        × (after.state ≡ failed)
        × (after.attempt ≡ before.attempt))

start_failed-IsNextAttempt :
    (code reason : Text) (now : ℕ) (k : SchedulerJob)
    → IsNextAttempt now k (start_failed code reason now k)
start_failed-IsNextAttempt code reason now k = elim (Bool-cases (may_retry k)) [
  | inl q ↦
      let low = backoff_low k.attempt in
      inl (
        ground (arith, q),
        rw q refl,
        rw q refl,
        rw q (ap (λ d. now + d) (backoff_doubles k.attempt)),
        rw q (omega (arith, low)),
      )
  | inr q ↦ inr (ground (arith, q), rw q refl, rw q refl)
]

-- What a start that failed leaves of the job.
pub record IsPutOff (s : Store) (job_id : Text) (now : ℕ) (t : Store) (j : SchedulerJob)
    : Type 0 where
  pub job : SchedulerJob
  pub found : find (has_id job_id) s.jobs ≡ some job
  pub stored : find (has_id job_id) t.jobs ≡ some j
  pub freed : held t j.run_id ≡ 0
  pub unplaced : (j.node_id ≡ none) × (j.lease_token ≡ none) × (j.external_run_id ≡ none)
  pub outcome : IsNextAttempt now job j
  pub latest : j.next_attempt_at ≤ now + 60000

-- What a failed start leaves of the job that the id finds: if its attempt number n is below its limit, it
-- waits for the attempt n + 1, which is 1000 * 2 ^ n milliseconds away, but never more than a minute nor
-- less than a second; otherwise it has failed. In both cases the changed job is in the store, its run has
-- no active lease, the job has no node, token or external run, and the time of the next attempt is at most
-- one minute away.
pub start_failure-IsPutOff :
    (s : Store) (job_id code reason : Text) (now : ℕ) (t : Store) (j : SchedulerJob)
    → handle_start_failure s job_id code reason now ≡ ok (t, j)
    → IsPutOff s job_id now t j
unfolding handle_start_failure
start_failure-IsPutOff s job_id code reason now t j h =
    let f = start_failed code reason now in
    let (freed, a, let_gone) = amend_and_release-held s job_id now f t j h in
    let high = backoff_high (next_attempt a.job) in
    let at : j.next_attempt_at ≡ now + backoff_ms (next_attempt a.job) =
      ap (λ x. x.next_attempt_at) a.changed in
    record {
      job = a.job;
      found = a.found;
      stored = found_again s job_id f t j (λ k. refl) a;
      freed = freed;
      unplaced = (
        ap (λ x. x.node_id) a.changed,
        ap (λ x. x.lease_token) a.changed,
        ap (λ x. x.external_run_id) a.changed,
      );
      outcome =
          subst (IsNextAttempt now a.job) (sym a.changed)
            (start_failed-IsNextAttempt code reason now a.job);
      latest = omega (arith, high, at);
    }

-- A reconciliation releases no lease, even where it ends the job: the next heartbeat of any owner
-- renews the same leases as it would have before.
pub reconciled_leases_renewed :
    (s : Store) (job_id : Text) (x : Option ExternalExecutionStatus) (at : ℕ) (t : Store)
    (j : SchedulerJob) (owner_id : Text) (now expires_at : ℕ)
    → reconcile_external s job_id x at ≡ ok (t, j)
    → (heartbeat_owned t owner_id now expires_at).0.leases
      ≡ map (renewed owner_id now expires_at) s.leases
unfolding reconcile_external amend heartbeat_owned
reconciled_leases_renewed s job_id x at t j owner_id now expires_at h =
    let same : t.leases ≡ s.leases = ground arith in ap (map (renewed owner_id now expires_at)) same
