-- ===== src/Scheduler/Repository.antt =====
-- prototype/web-ui/app/control-plane/adapters/memory-scheduler-repository.ts, down to
-- `acquireLease`: the operations on the store; those on one job are in Scheduler/Jobs. The identities that `crypto.randomUUID()` returns are arguments, and so is
-- the order of `localeCompare` (`precedes a b` is `a.localeCompare(b) < 0`). `operations`, a log that
-- only the tests read, is left out.
use ai_dev_harness.Shared.{
  update_first, ℕ, ◌+◌, Bool, true, not, ◌&&◌, ◌||◌, Option, none, some, List, [], ◌∷◌, ◌++◌, ◌==◌,
  leb, ltb, filter, find, map, length, text_eq, text_mem, Text, if◌then◌else◌,
}
use ai_dev_harness.Scheduler.{
  claimed, SchedulerJob, offline, ExecutionNode, active, expired, ExecutionLease, lease_expired,
  Store, is_terminal, is_waiting, is_underway, is_active, is_online, is_offline,
}

abbrev pub active_on : Text → ExecutionLease → Bool
active_on node_id l = is_active l.status && text_eq l.node_id node_id

abbrev pub active_for : Text → ExecutionLease → Bool
active_for run_id l = is_active l.status && text_eq l.run_id run_id

-- The loop over the nodes of `listForReconciliation`.
abbrev pub mark_offline : (now : ℕ) → ExecutionNode → ExecutionNode
mark_offline now n =
    if not (is_offline n.status) && leb n.offline_after now
    then record n { status = offline; version = n.version + 1 }
    else n

abbrev pub offline_ids : List ExecutionNode → List Text
offline_ids nodes = map (λ n. n.id) (filter (λ n. is_offline n.status) nodes)

abbrev pub lapses : (now : ℕ) → List Text → ExecutionLease → Bool
lapses now offline_nodes l =
    is_active l.status && (leb l.expires_at now || text_mem l.node_id offline_nodes)

abbrev expire : ℕ → ExecutionLease → ExecutionLease
expire now l = record l { status = expired; released_at = some now; version = l.version + 1 }

abbrev pub runs : Text → SchedulerJob → Bool
runs run_id j = text_eq j.run_id run_id

-- What the expiry of a lease does to the store: its job, if it has one that is not terminal, is to be
-- reconciled.
unfoldable pub lapse_job : Text → Store → Store
unfolding update_first
lapse_job run_id s = elim (find (runs run_id) s.jobs) [
  | none ↦ s
  | some job ↦ if is_terminal job.state then s else record s {
    jobs = update_first (runs run_id) (λ j. record j { reconciliation_required = true }) s.jobs;
    outbox = s.outbox ++ lease_expired job.id job.run_id ∷ [];
  }
]

-- The loop over the leases: those that lapse expire, each with its job.
abbrev pub lapsed : (now : ℕ) → List Text → ExecutionLease → ExecutionLease
lapsed now offline_nodes l = if lapses now offline_nodes l then expire now l else l

unfoldable pub lapse_jobs : (now : ℕ) → List Text → List ExecutionLease → Store → Store
lapse_jobs now offline_nodes [] s = s
lapse_jobs now offline_nodes (l ∷ ls) s =
    lapse_jobs now offline_nodes ls (if lapses now offline_nodes l then lapse_job l.run_id s else s)

abbrev needs_reconciliation : (now : ℕ) → SchedulerJob → Bool
needs_reconciliation now j =
    not (is_terminal j.state)
    && (j.stop_requested
        || j.reconciliation_required
        || is_underway j.state && leb j.deadline_at now)

unfoldable pub list_for_reconciliation : Store → (now : ℕ) → Store × List SchedulerJob
unfolding lapse_jobs
list_for_reconciliation s now =
    let nodes = map (mark_offline now) s.nodes in
    let offline_nodes = offline_ids nodes in
    let seen = lapse_jobs now offline_nodes s.leases s in
    let after = record seen { nodes = nodes; leases = map (lapsed now offline_nodes) s.leases } in
    (after, filter (needs_reconciliation now) after.jobs)

abbrev pub renews : (owner_id : Text) (now : ℕ) → ExecutionLease → Bool
renews owner_id now l =
    is_active l.status && text_eq l.owner_id owner_id && not (leb l.expires_at now)

unfoldable pub renew_job : Text → (now expires_at : ℕ) → List SchedulerJob → List SchedulerJob
unfolding update_first
renew_job run_id now expires_at jobs = elim (find (runs run_id) jobs) [
  | none ↦ jobs
  | some job ↦
      if is_terminal job.state
      then jobs
      else update_first (runs run_id)
          (λ j. record j { heartbeat_at = some now; lease_expires_at = some expires_at }) jobs
]

abbrev pub renewed : (owner_id : Text) (now expires_at : ℕ) → ExecutionLease → ExecutionLease
renewed owner_id now expires_at l =
    if renews owner_id now l
    then record l { heartbeat_at = now; expires_at = expires_at; version = l.version + 1 }
    else l

unfoldable pub renew_jobs :
    (owner_id : Text) (now expires_at : ℕ)
    → List ExecutionLease
    → List SchedulerJob
    → List SchedulerJob
renew_jobs owner_id now expires_at [] jobs = jobs
renew_jobs owner_id now expires_at (l ∷ ls) jobs =
    renew_jobs owner_id now expires_at ls
      (if renews owner_id now l then renew_job l.run_id now expires_at jobs else jobs)

unfoldable pub heartbeat_owned : Store → (owner_id : Text) (now expires_at : ℕ) → Store × ℕ
unfolding renew_jobs
heartbeat_owned s owner_id now expires_at = (
  record s {
    leases = map (renewed owner_id now expires_at) s.leases;
    jobs = renew_jobs owner_id now expires_at s.leases s.jobs;
  },
  length (filter (renews owner_id now) s.leases),
)

abbrev pub is_claimable : (now : ℕ) → SchedulerJob → Bool
is_claimable now j =
    is_waiting j.state
    && not j.reconciliation_required
    && leb j.next_attempt_at now
    && ltb now j.deadline_at

abbrev pub is_candidate : (now : ℕ) → SchedulerJob → SchedulerJob → Bool
is_candidate now candidate j =
    is_claimable now j && text_eq j.id candidate.id && j.priority == candidate.priority

abbrev pub claim : ℕ → SchedulerJob → SchedulerJob
claim now j = record j { state = claimed; version = j.version + 1; heartbeat_at = some now }

module _ (precedes : Text → Text → Bool) where
  -- `left.priority - right.priority || left.id.localeCompare(right.id)` is negative
  abbrev pub before : SchedulerJob → SchedulerJob → Bool
  before left right =
      ltb left.priority right.priority
      || left.priority == right.priority && precedes left.id right.id

  -- `.sort(…)[0]`: the first of the least jobs.
  unfoldable pub least : List SchedulerJob → Option SchedulerJob
  least [] = none
  least (j ∷ js) = elim (least js) [
    | none ↦ some j
    | some k ↦ if before k j then some k else some j
  ]

  unfoldable pub claim_next : Store → (now : ℕ) → Store × Option SchedulerJob
  unfolding least update_first
  claim_next s now = elim (least (filter (is_claimable now) s.jobs)) [
    | none ↦ (s, none)
    | some candidate ↦ (
      record s { jobs = update_first (is_candidate now candidate) (claim now) s.jobs },
      some (claim now candidate),
    )
  ]

abbrev pub used : Store → Text → ℕ
used s node_id = length (filter (active_on node_id) s.leases)

unfoldable pub select_node : Store → SchedulerJob → (now : ℕ) → Option ExecutionNode
select_node s job now =
    find
      (λ n.
        is_online n.status
        && not (leb n.offline_after now)
        && text_mem job.required_capability n.capabilities
        && ltb (used s n.id) n.max_concurrent_runs)
      s.nodes

pub record LeaseRequest : Type 0 where
  pub run_id : Text
  pub node_id : Text
  pub owner_id : Text
  pub now : ℕ
  pub expires_at : ℕ

abbrev pub new_lease : LeaseRequest → (id token : Text) → ExecutionLease
new_lease r id token = record {
  id = id;
  run_id = r.run_id;
  node_id = r.node_id;
  owner_id = r.owner_id;
  token = token;
  status = active;
  acquired_at = r.now;
  heartbeat_at = r.now;
  expires_at = r.expires_at;
  released_at = none;
  version = 1;
}

-- Whether the node may take the run: online, not overdue, capable, and with room.
abbrev pub admits : Store → LeaseRequest → ExecutionNode → SchedulerJob → Bool
admits s r node job =
    is_online node.status
    && not (leb node.offline_after r.now)
    && text_mem job.required_capability node.capabilities
    && not (leb node.max_concurrent_runs (used s node.id))

unfoldable pub acquire_lease :
    Store → LeaseRequest → (id token : Text) → Store × Option ExecutionLease
acquire_lease s r id token = elim (find (active_for r.run_id) s.leases) [
  | some existing ↦ (
    s,
    (if text_eq existing.node_id r.node_id && text_eq existing.owner_id r.owner_id
        then some existing
        else none),
  )
  | none ↦ elim (find (λ n. text_eq n.id r.node_id) s.nodes) [
    | none ↦ (s, none)
    | some node ↦ elim (find (runs r.run_id) s.jobs) [
      | none ↦ (s, none)
      | some job ↦
          if admits s r node job
          then (
            record s { leases = s.leases ++ new_lease r id token ∷ [] },
            some (new_lease r id token),
          )
          else (s, none)
    ]
  ]
]
