-- ===== src/Scheduler/Capacity.antt =====
-- The capacity of the nodes and the leases of the runs, through the operations of memory-scheduler-repository.ts.
use ai_dev_harness.Shared.{
  ℕ, suc, ◌≤◌, ◌≡◌, ◌∙◌, refl, sym, ap, subst, Bool, false, some, List, [], ◌∷◌, ◌++◌, map, length,
  filter, find, length-append, filter-append, Text, text_eq, text_eq_iff, ok, Bool-cases,
  Result-cases, inl, inr, arith,
}
use ai_dev_harness.Scheduler.{SchedulerJob, ExecutionNode, ExecutionLease, Store}
use ai_dev_harness.Scheduler.Repository.{
  active_on, active_for, mark_offline, list_for_reconciliation, renewed, heartbeat_owned,
  claim_next, used, LeaseRequest,
}
use ai_dev_harness.Scheduler.Jobs.{amend, amend_and_release, let_go}

abbrev pub named : Text → ExecutionNode → Bool
named node_id n = text_eq n.id node_id

abbrev pub held : Store → Text → ℕ
held s run_id = length (filter (active_for run_id) s.leases)

-- No node has more active leases than it takes runs, and no run has more than one.
pub record IsWithin (s : Store) : Type 0 where
  pub capacity :
      (node_id : Text) (n : ExecutionNode)
      → find (named node_id) s.nodes ≡ some n
      → used s node_id ≤ n.max_concurrent_runs
  pub exclusive : (run_id : Text) → held s run_id ≤ 1

-- From `s` to `t` the room of the nodes stays, and no lease becomes active.
pub record Keeps (s t : Store) : Type 0 where
  pub room :
      (node_id : Text) (n : ExecutionNode)
      → find (named node_id) t.nodes ≡ some n
      → (m : ExecutionNode) × (find (named node_id) s.nodes ≡ some m)
        × (m.max_concurrent_runs ≡ n.max_concurrent_runs)
  pub on_node : (node_id : Text) → used t node_id ≤ used s node_id
  pub for_run : (run_id : Text) → held t run_id ≤ held s run_id

pub Keeps-IsWithin : (s t : Store) → Keeps s t → IsWithin s → IsWithin t
Keeps-IsWithin s t k w = record {
  capacity = λ i n e.
      let (m, f, same) = k.room i n e in omega (arith, same, k.on_node i, w.capacity i m f);
  exclusive = λ r. omega (arith, k.for_run r, w.exclusive r);
}

-- A change that makes no element pass the test leaves no more that do.
count-map_le {ℓ} :
    {A : Type ℓ} (p : A → Bool) (f : A → A)
    → ((x : A) → p x ≡ false → p (f x) ≡ false)
    → (xs : List A) → length (filter p (map f xs)) ≤ length (filter p xs)
count-map_le p f h [] = omega arith
count-map_le p f h (x ∷ xs) = ground (arith, h x, count-map_le p f h xs)

same_leases : (s t : Store) → t.nodes ≡ s.nodes → t.leases ≡ s.leases → Keeps s t
same_leases s t hn hl = record {
  room = λ i n e. (n, subst (λ ns. find (named i) ns ≡ some n) hn e, refl);
  on_node = λ i. ground (arith, hl);
  for_run = λ r. ground (arith, hl);
}

mapped_leases :
    (s t : Store) (f : ExecutionLease → ExecutionLease)
    → ((l : ExecutionLease) (i : Text) → active_on i l ≡ false → active_on i (f l) ≡ false)
    → ((l : ExecutionLease) (r : Text) → active_for r l ≡ false → active_for r (f l) ≡ false)
    → t.nodes ≡ s.nodes
    → t.leases ≡ map f s.leases
    → Keeps s t
mapped_leases s t f on for hn hl = record {
  room = λ i n e. (n, subst (λ ns. find (named i) ns ≡ some n) hn e, refl);
  on_node =
      λ i. let q = count-map_le (active_on i) f (λ l. on l i) s.leases in ground (arith, hl, q);
  for_run =
      λ r. let q = count-map_le (active_for r) f (λ l. for l r) s.leases in ground (arith, hl, q);
}

-- A node goes offline with the room it had.
offline_room :
    (now : ℕ) (i : Text) (ns : List ExecutionNode) (n : ExecutionNode)
    → find (named i) (map (mark_offline now) ns) ≡ some n
    → (m : ExecutionNode) × (find (named i) ns ≡ some m)
      × (m.max_concurrent_runs ≡ n.max_concurrent_runs)
offline_room now i [] n e = cc
offline_room now i (x ∷ xs) n e = elim (Bool-cases (text_eq x.id i)) [
  | inl q ↦ (x, ground arith, ground arith)
  | inr q ↦ let (m, f, same) = offline_room now i xs n (ground arith) in (m, ground arith, same)
]

pub list-Keeps : (s : Store) (now : ℕ) → Keeps s (list_for_reconciliation s now).0
unfolding list_for_reconciliation
list-Keeps s now = record {
  room = λ i n e. offline_room now i s.nodes n e;
  on_node = λ i. count-map_le (active_on i) _ (λ l e. ground arith) s.leases;
  for_run = λ r. count-map_le (active_for r) _ (λ l e. ground arith) s.leases;
}

pub heartbeat-Keeps :
    (s : Store) (owner_id : Text) (now expires_at : ℕ)
    → Keeps s (heartbeat_owned s owner_id now expires_at).0
unfolding heartbeat_owned
heartbeat-Keeps s o now exp =
    mapped_leases s _ (renewed o now exp) (λ l i e. ground arith) (λ l r e. ground arith) refl refl

pub claim-Keeps :
    (precedes : Text → Text → Bool) (s : Store) (now : ℕ) → Keeps s (claim_next precedes s now).0
unfolding claim_next
claim-Keeps precedes s now = same_leases s _ (ground arith) (ground arith)

amend_leases :
    (s : Store) (job_id : Text) (f : SchedulerJob → SchedulerJob) (t : Store) (j : SchedulerJob)
    → amend s job_id f ≡ ok (t, j)
    → (t.nodes ≡ s.nodes) × (t.leases ≡ s.leases)
unfolding amend
amend_leases s job_id f t j h = (ground arith, ground arith)

pub amend-Keeps :
    (s : Store) (job_id : Text) (f : SchedulerJob → SchedulerJob) (t : Store) (j : SchedulerJob)
    → amend s job_id f ≡ ok (t, j)
    → Keeps s t
amend-Keeps s job_id f t j h = let (n, l) = amend_leases s job_id f t j h in same_leases s t n l

pub amend_and_release-Keeps :
    (s : Store) (job_id : Text) (now : ℕ) (f : SchedulerJob → SchedulerJob) (t : Store)
    (j : SchedulerJob)
    → amend_and_release s job_id now f ≡ ok (t, j)
    → Keeps s t
unfolding amend_and_release
amend_and_release-Keeps s job_id now f t j h = elim (Result-cases (amend s job_id f)) [
  | inr (e, q) ↦ absurd (ground arith)
  | inl ((u, k), q) ↦
      let (n, l) = amend_leases s job_id f u k q in
      mapped_leases s t (let_go k.run_id now) (λ l i e. ground arith) (λ l r e. ground arith)
        (ground arith) (ground arith)
]

-- The lease that is added counts for its own node and run only.
pub acquired-capacity :
    (s : Store) (r : LeaseRequest) (l : ExecutionLease) (node : ExecutionNode) (i : Text)
    (n : ExecutionNode)
    → find (named r.node_id) s.nodes ≡ some node
    → l.node_id ≡ r.node_id
    → node.id ≡ r.node_id
    → suc (used s node.id) ≤ node.max_concurrent_runs
    → find (named i) s.nodes ≡ some n
    → used s i ≤ n.max_concurrent_runs
    → length (filter (active_on i) (s.leases ++ l ∷ [])) ≤ n.max_concurrent_runs
acquired-capacity s r l node i n f own here room e within =
    let split = ap length (filter-append (active_on i) s.leases (l ∷ [])) in
    let sum = length-append (filter (active_on i) s.leases) (filter (active_on i) (l ∷ [])) in
    elim (Bool-cases (text_eq l.node_id i)) [
      | inr other ↦ ground arith
      | inl same ↦
          let at : r.node_id ≡ i = sym own ∙ (text_eq_iff l.node_id i).0 same in
          let found : some n ≡ some node =
            sym e ∙ ap (λ (x : Text). find (named x) s.nodes) (sym at) ∙ f in
          let space : suc (used s i) ≤ node.max_concurrent_runs =
            subst (λ (x : Text). suc (used s x) ≤ node.max_concurrent_runs) (here ∙ at) room in
          ground arith
    ]
