-- ===== src/Scheduler/Leases.antt =====
-- `acquireLease`, and the repository as a whole: its operations as steps, in any order, by any number
-- of supervisors.
use ai_dev_harness.Shared.{
  ℕ, suc, ◌≤◌, ◌≡◌, ◌⊎◌, refl, sym, ap, subst, Bool, true, Option, none, some, List, [], ◌∷◌, ◌++◌,
  length, filter, find, length-append, filter-append, Text, text_eq, text_eq_iff, ok, Bool-cases,
  Option-cases, Result-cases, inl, inr, arith,
}
use ai_dev_harness.Scheduler.{SchedulerJob, ExecutionNode, ExecutionLease, Store}
use ai_dev_harness.Scheduler.Repository.{
  active_on, active_for, list_for_reconciliation, heartbeat_owned, claim_next, used, LeaseRequest,
  new_lease, admits, acquire_lease, runs,
}
use ai_dev_harness.Scheduler.Jobs.{
  ExternalExecutionStatus, amend, issued, began, mark_external_start_issued, mark_started,
  reconcile_external, mark_timed_out, mark_stopped, handle_start_failure, release_claim,
}
use ai_dev_harness.Scheduler.Capacity.{
  IsWithin, Keeps, Keeps-IsWithin, named, held, list-Keeps, heartbeat-Keeps, claim-Keeps,
  amend-Keeps, amend_and_release-Keeps, acquired-capacity,
}

-- What `find` returns passes the test, and it returns something if one element passes.
find_passes {ℓ} :
    {A : Type ℓ} (p : A → Bool) (xs : List A) (x : A) → find p xs ≡ some x → p x ≡ true
find_passes p [] x e = cc
find_passes p (y ∷ ys) x e = elim (Bool-cases (p y)) [
  | inl q ↦ let s : some y ≡ some x = rw q at e in ground arith
  | inr q ↦ find_passes p ys x (rw q at e)
]

find-none {ℓ} :
    {A : Type ℓ} (p : A → Bool) (xs : List A) → find p xs ≡ none → length (filter p xs) ≡ 0
find-none p [] e = refl
find-none p (y ∷ ys) e = elim (Bool-cases (p y)) [
  | inl q ↦ ground arith
  | inr q ↦ let r = find-none p ys (rw q at e) in ground arith
]

-- A lease that is acquired anew.
record IsAcquired (s : Store) (r : LeaseRequest) (l : ExecutionLease) (t : Store) : Type 0 where
  node : ExecutionNode
  found : find (named r.node_id) s.nodes ≡ some node
  room : suc (used s node.id) ≤ node.max_concurrent_runs
  free : find (active_for r.run_id) s.leases ≡ none
  nodes : t.nodes ≡ s.nodes
  leases : t.leases ≡ s.leases ++ l ∷ []

acquire_cases :
    (s : Store) (r : LeaseRequest) (id token : Text)
    → ((acquire_lease s r id token).0 ≡ s)
      ⊎ IsAcquired s r (new_lease r id token) (acquire_lease s r id token).0
unfolding acquire_lease
acquire_cases s r id token = elim (Option-cases (find (active_for r.run_id) s.leases)) [
  | inr (l, e) ↦ inl (ground arith)
  | inl free ↦ elim (Option-cases (find (named r.node_id) s.nodes)) [
    | inl e ↦ inl (ground arith)
    | inr (node, found) ↦ elim (Option-cases (find (runs r.run_id) s.jobs)) [
      | inl e ↦ inl (ground arith)
      | inr (job, e) ↦ elim (Bool-cases (admits s r node job)) [
        | inr q ↦ inl (ground arith)
        | inl q ↦ inr (record {
          node = node;
          found = found;
          room = ground arith;
          free = free;
          nodes = ground arith;
          leases = ground arith;
        })
      ]
    ]
  ]
]

acquire-IsWithin :
    (s : Store) (r : LeaseRequest) (id token : Text)
    → IsWithin s
    → IsWithin (acquire_lease s r id token).0
acquire-IsWithin s r id token w = elim (acquire_cases s r id token) [
  | inl same ↦ subst IsWithin (sym same) w
  | inr a ↦
      let l : ExecutionLease = new_lease r id token in
      let here =
        (text_eq_iff a.node.id r.node_id).0
          (find_passes (named r.node_id) s.nodes a.node a.found) in
      let none_held = find-none (active_for r.run_id) s.leases a.free in
      record {
        capacity = λ i n e.
            let e' : find (named i) s.nodes ≡ some n =
              subst (λ ns. find (named i) ns ≡ some n) a.nodes e in
            let q =
              acquired-capacity s r l a.node i n a.found refl here a.room e' (w.capacity i n e') in
            subst (λ ls. length (filter (active_on i) ls) ≤ n.max_concurrent_runs) (sym a.leases) q;
        exclusive = λ run.
            let split = ap length (filter-append (active_for run) s.leases (l ∷ [])) in
            let sum =
              length-append (filter (active_for run) s.leases) (filter (active_for run) (l ∷ [])) in
            let q : length (filter (active_for run) (s.leases ++ l ∷ [])) ≤ 1 =
              elim (Bool-cases (text_eq r.run_id run)) [
                | inr other ↦ let x = w.exclusive run in ground arith
                | inl same ↦
                    let at = (text_eq_iff r.run_id run).0 same in
                    let x : held s run ≡ 0 = subst (λ (z : Text). held s z ≡ 0) at none_held in
                    ground arith
              ] in
            subst (λ ls. length (filter (active_for run) ls) ≤ 1) (sym a.leases) q;
      }
]

-- One call of the repository that changes the store.
pub data StoreStep (s t : Store) : Type 0 where
  list : (now : ℕ) → (list_for_reconciliation s now).0 ≡ t → StoreStep s t
  heartbeat :
      (owner_id : Text) (now expires_at : ℕ)
      → (heartbeat_owned s owner_id now expires_at).0 ≡ t
      → StoreStep s t
  claim :
      (precedes : Text → Text → Bool) (now : ℕ) → (claim_next precedes s now).0 ≡ t → StoreStep s t
  acquire :
      (r : LeaseRequest) (id token : Text) → (acquire_lease s r id token).0 ≡ t → StoreStep s t
  issue :
      (job_id : Text) (version : ℕ) (run : Text) (l : ExecutionLease) (now : ℕ) (j : SchedulerJob)
      → mark_external_start_issued s job_id version run l now ≡ ok (t, j)
      → StoreStep s t
  start :
      (job_id : Text) (x : ExternalExecutionStatus) (now : ℕ) (j : SchedulerJob)
      → mark_started s job_id x now ≡ ok (t, j)
      → StoreStep s t
  reconcile :
      (job_id : Text) (x : Option ExternalExecutionStatus) (now : ℕ) (j : SchedulerJob)
      → reconcile_external s job_id x now ≡ ok (t, j)
      → StoreStep s t
  time_out :
      (job_id : Text) (now : ℕ) (j : SchedulerJob)
      → mark_timed_out s job_id now ≡ ok (t, j)
      → StoreStep s t
  stop :
      (job_id : Text) (now : ℕ) (j : SchedulerJob)
      → mark_stopped s job_id now ≡ ok (t, j)
      → StoreStep s t
  fail :
      (job_id code reason : Text) (now : ℕ) (j : SchedulerJob)
      → handle_start_failure s job_id code reason now ≡ ok (t, j)
      → StoreStep s t
  release :
      (job_id reason : Text) (now : ℕ) (j : SchedulerJob)
      → release_claim s job_id reason now ≡ ok (t, j)
      → StoreStep s t

-- Any sequence of calls.
pub data StoreReach (s : Store) : Store → Type 0 where
  here : StoreReach s s
  next : {t u : Store} → StoreReach s t → StoreStep t u → StoreReach s u

pub issue-amend :
    (s : Store) (job_id : Text) (version : ℕ) (run : Text) (l : ExecutionLease) (now : ℕ)
    (t : Store) (j : SchedulerJob)
    → mark_external_start_issued s job_id version run l now ≡ ok (t, j)
    → amend s job_id (issued run l now) ≡ ok (t, j)
unfolding mark_external_start_issued
issue-amend s job_id version run l now t j h = ground arith

started-Keeps :
    (s : Store) (job_id : Text) (x : ExternalExecutionStatus) (now : ℕ) (t : Store)
    (j : SchedulerJob)
    → mark_started s job_id x now ≡ ok (t, j)
    → Keeps s t
unfolding mark_started
started-Keeps s job_id x now t j h = elim (Result-cases (amend s job_id (began x now))) [
  | inr (e, q) ↦ absurd (ground arith)
  | inl ((u, k), q) ↦
      let r = amend-Keeps s job_id _ u k q in
      let n : t.nodes ≡ u.nodes = ground arith in
      let l : t.leases ≡ u.leases = ground arith in
      record {
        room = λ i m e. r.room i m (subst (λ ns. find (named i) ns ≡ some m) n e);
        on_node =
            λ i. subst (λ ls. length (filter (active_on i) ls) ≤ used s i) (sym l) (r.on_node i);
        for_run =
            λ i. subst (λ ls. length (filter (active_for i) ls) ≤ held s i) (sym l) (r.for_run i);
      }
]

step-IsWithin : {s t : Store} → StoreStep s t → IsWithin s → IsWithin t
unfolding reconcile_external mark_timed_out mark_stopped handle_start_failure release_claim
step-IsWithin {s} {t} (list now e) w = subst IsWithin e (Keeps-IsWithin s _ (list-Keeps s now) w)
step-IsWithin {s} {t} (heartbeat o now x e) w =
    subst IsWithin e (Keeps-IsWithin s _ (heartbeat-Keeps s o now x) w)
step-IsWithin {s} {t} (claim p now e) w =
    subst IsWithin e (Keeps-IsWithin s _ (claim-Keeps p s now) w)
step-IsWithin {s} {t} (acquire r id token e) w = subst IsWithin e (acquire-IsWithin s r id token w)
step-IsWithin {s} {t} (issue i v run l now j h) w =
    Keeps-IsWithin s t (amend-Keeps s i _ t j (issue-amend s i v run l now t j h)) w
step-IsWithin {s} {t} (start i x now j h) w = Keeps-IsWithin s t (started-Keeps s i x now t j h) w
step-IsWithin {s} {t} (reconcile i x now j h) w = Keeps-IsWithin s t (amend-Keeps s i _ t j h) w
step-IsWithin {s} {t} (time_out i now j h) w =
    Keeps-IsWithin s t (amend_and_release-Keeps s i now _ t j h) w
step-IsWithin {s} {t} (stop i now j h) w =
    Keeps-IsWithin s t (amend_and_release-Keeps s i now _ t j h) w
step-IsWithin {s} {t} (fail i c r now j h) w =
    Keeps-IsWithin s t (amend_and_release-Keeps s i now _ t j h) w
step-IsWithin {s} {t} (release i r now j h) w = Keeps-IsWithin s t (amend-Keeps s i _ t j h) w

-- However the calls of any number of supervisors interleave, no node has more active leases than it
-- takes runs and no run has more than one, if that holds at first.
pub reach-IsWithin : (s t : Store) → StoreReach s t → IsWithin s → IsWithin t
reach-IsWithin s t here w = w
reach-IsWithin s u (next r step) w = step-IsWithin step (reach-IsWithin s _ r w)
