-- ===== src/Scheduler/Claims.antt =====
-- The order in which `claimNext` of memory-scheduler-repository.ts takes the jobs.
use ai_dev_harness.Shared.{
  ℕ, ◌+◌, ◌≤◌, ◌<◌, ◌≡◌, ◌⊎◌, refl, sym, ap, subst, Bool, true, false, none, some, List, [], ◌∷◌,
  filter, All, All-map, Text, Bool-cases, Option-cases, inl, inr, arith, find, find-splits,
  update_first, text_eq, text_eq_iff, text_eq_refl, ◌&&◌, ◌||◌, ◌==◌, ltb, ◌∙◌, ◌++◌,
}
use ai_dev_harness.Scheduler.{
  SchedulerJobState, pending, retry_wait, claimed, SchedulerJob, Store, is_waiting,
}
use ai_dev_harness.Scheduler.Repository.{
  is_claimable, is_candidate, before, least, claim, claim_next,
}

-- What `localeCompare` is relied on for: its order is asymmetric, and "not before" is transitive.
pub record IsOrder (precedes : Text → Text → Bool) : Type 0 where
  pub asymmetric : (a b : Text) → precedes a b ≡ true → precedes b a ≡ false
  pub total : (a b c : Text) → precedes a b ≡ false → precedes b c ≡ false → precedes a c ≡ false

waiting_state : (s : SchedulerJobState) → is_waiting s ≡ true → (s ≡ pending) ⊎ (s ≡ retry_wait)
waiting_state pending h = inl refl
waiting_state retry_wait h = inr refl
waiting_state _ h = cc

module _ (precedes : Text → Text → Bool) (order : IsOrder precedes) where
  abbrev IsNotBefore : SchedulerJob → SchedulerJob → Type 0
  IsNotBefore j k = before precedes k j ≡ false

  not_before_trans :
      (a b c : SchedulerJob)
      → before precedes a b ≡ false
      → before precedes b c ≡ false
      → before precedes a c ≡ false
  not_before_trans a b c h k = ground (arith, order.total a.id b.id c.id)

  not_before_back : (a b : SchedulerJob) → before precedes a b ≡ true → before precedes b a ≡ false
  not_before_back a b h = ground (arith, order.asymmetric a.id b.id)

  irreflexive : (a : SchedulerJob) → before precedes a a ≡ false
  irreflexive a = elim (Bool-cases (before precedes a a)) [
    | inr q ↦ q
    | inl q ↦ not_before_back a a q
  ]

  least-none : (js : List SchedulerJob) → least precedes js ≡ none → js ≡ []
  unfolding least
  least-none [] e = refl
  least-none (x ∷ xs) e = elim (Option-cases (least precedes xs)) [
    | inl q ↦ absurd (ground arith)
    | inr (k, q) ↦ absurd (ground arith)
  ]

  least_lem :
      (js : List SchedulerJob) (j : SchedulerJob)
      → least precedes js ≡ some j
      → All (IsNotBefore j) js
  unfolding least
  least_lem [] j e = tt
  least_lem (x ∷ xs) j e = elim (Option-cases (least precedes xs)) [
    | inl q ↦
        let same : x ≡ j = ground arith in
        let empty = least-none xs q in
        subst (λ js. All (IsNotBefore j) (x ∷ js)) (sym empty)
          (subst (λ k. before precedes k j ≡ false) (sym same) (irreflexive j), tt)
    | inr (k, q) ↦
        let rest = least_lem xs k q in
        elim (Bool-cases (before precedes k x)) [
          | inl b ↦
              let same : k ≡ j = ground arith in
              subst (λ m. All (IsNotBefore m) (x ∷ xs)) same (not_before_back k x b, rest)
          | inr b ↦
              let same : x ≡ j = ground arith in
              subst (λ m. All (IsNotBefore m) (x ∷ xs)) same
                (
                  irreflexive x,
                  All-map (IsNotBefore k) (IsNotBefore x) (λ y h. not_before_trans y k x h b) xs
                      rest,
                )
        ]
  ]

  least-among {κ} :
      (P : SchedulerJob → Type κ) (js : List SchedulerJob) (j : SchedulerJob)
      → All P js
      → least precedes js ≡ some j
      → P j
  unfolding least
  least-among P [] j h e = absurd (ground arith)
  least-among P (x ∷ xs) j h e = elim (Option-cases (least precedes xs)) [
    | inl q ↦ subst P (ground arith) h.0
    | inr (k, q) ↦ elim (Bool-cases (before precedes k x)) [
      | inl b ↦ subst P (ground arith) (least-among P xs k h.1 q)
      | inr b ↦ subst P (ground arith) h.0
    ]
  ]

  -- The element that is least is the first with its priority and its identity.
  abbrev is_like : SchedulerJob → SchedulerJob → Bool
  is_like c k = text_eq k.id c.id && k.priority == c.priority

  is_like_refl : (c : SchedulerJob) → is_like c c ≡ true
  is_like_refl c = ground (arith, text_eq_refl c.id)

  before_unlike : (c k : SchedulerJob) → before precedes c k ≡ true → is_like c k ≡ false
  before_unlike c k h = elim (Bool-cases (is_like c k)) [
    | inr q ↦ q
    | inl q ↦
        let named : k.id ≡ c.id = (text_eq_iff k.id c.id).0 (ground (arith, q)) in
        let again : before precedes c c ≡ true =
          subst
            (λ i. (ltb c.priority c.priority || c.priority == c.priority && precedes c.id i) ≡ true)
            named (ground (arith, h, q)) in
        absurd (ground (arith, again, irreflexive c))
  ]

  least-find :
      (js : List SchedulerJob) (c : SchedulerJob)
      → least precedes js ≡ some c
      → find (is_like c) js ≡ some c
  unfolding least
  least-find [] c e = absurd (ground arith)
  least-find (x ∷ xs) c e = elim (Option-cases (least precedes xs)) [
    | inl q ↦
        let same : x ≡ c = ground arith in
        subst (λ z. find (is_like z) (x ∷ xs) ≡ some z) same (rw (is_like_refl x))
    | inr (k, q) ↦ elim (Bool-cases (before precedes k x)) [
      | inr b ↦
          let same : x ≡ c = ground arith in
          subst (λ z. find (is_like z) (x ∷ xs) ≡ some z) same (rw (is_like_refl x))
      | inl b ↦
          let same : k ≡ c = ground arith in
          subst (λ z. find (is_like z) (x ∷ xs) ≡ some z) same
            (rw (before_unlike k x b) (least-find xs k q))
    ]
  ]

  find-filter :
      (now : ℕ) (c : SchedulerJob) (js : List SchedulerJob)
      → find (is_like c) (filter (is_claimable now) js) ≡ find (is_candidate now c) js
  find-filter now c [] = refl
  find-filter now c (x ∷ xs) = ground (arith, find-filter now c xs)

  filter-All :
      (p : SchedulerJob → Bool) (js : List SchedulerJob) → All (λ j. p j ≡ true) (filter p js)
  filter-All p [] = tt
  filter-All p (x ∷ xs) = elim (Bool-cases (p x)) [
    | inl q ↦
        let e : x ∷ filter p xs ≡ filter p (x ∷ xs) = ground arith in
        subst (λ ys. All (λ j. p j ≡ true) ys) e (q, filter-All p xs)
    | inr q ↦
        let e : filter p xs ≡ filter p (x ∷ xs) = ground arith in
        subst (λ ys. All (λ j. p j ≡ true) ys) e (filter-All p xs)
  ]

  unfiltered :
      (P : SchedulerJob → Type 0) (p : SchedulerJob → Bool) (js : List SchedulerJob)
      → All P (filter p js)
      → All (λ k. p k ≡ true → P k) js
  unfiltered P p [] h = tt
  unfiltered P p (x ∷ xs) h = elim (Bool-cases (p x)) [
    | inl q ↦
        let e : filter p (x ∷ xs) ≡ x ∷ filter p xs = ground arith in
        let kept : All P (x ∷ filter p xs) = subst (λ ys. All P ys) e h in
        (λ _. kept.0, unfiltered P p xs kept.1)
    | inr q ↦
        let e : filter p (x ∷ xs) ≡ filter p xs = ground arith in
        (λ y. cc, unfiltered P p xs (subst (λ ys. All P ys) e h))
  ]

  -- A job that waits, whose time has come, whose deadline is ahead and that is not to be reconciled.
  pub record IsDue (now : ℕ) (k : SchedulerJob) : Type 0 where
    pub waiting : (k.state ≡ pending) ⊎ (k.state ≡ retry_wait)
    pub settled : k.reconciliation_required ≡ false
    pub come : k.next_attempt_at ≤ now
    pub ahead : now < k.deadline_at

  is_claimable-IsDue : (now : ℕ) (k : SchedulerJob) → is_claimable now k ≡ true → IsDue now k
  is_claimable-IsDue now k h = record {
    waiting = waiting_state k.state (ground arith);
    settled = ground arith;
    come = ground arith;
    ahead = ground arith;
  }

  IsDue-is_claimable : (now : ℕ) (k : SchedulerJob) → IsDue now k → is_claimable now k ≡ true
  IsDue-is_claimable now k d = ground (arith, d.waiting, d.settled, d.come, d.ahead)

  -- The job `c` goes before every job that is due, or ties with it.
  abbrev pub IsFirst : ℕ → SchedulerJob → SchedulerJob → Type 0
  IsFirst now c k =
      IsDue now k
      → (c.priority ≤ k.priority) × (k.priority ≡ c.priority → precedes k.id c.id ≡ false)

  before-IsFirst :
      (now : ℕ) (c k : SchedulerJob)
      → (is_claimable now k ≡ true → before precedes k c ≡ false)
      → IsFirst now c k
  before-IsFirst now c k h d =
      let b = h (IsDue-is_claimable now k d) in (ground arith, λ e. ground arith)

  -- A job of the store that is due and the first of those that are, before and after it is claimed.
  pub record IsClaimed (s : Store) (now : ℕ) (t : Store) (j : SchedulerJob) : Type 0 where
    pub candidate : SchedulerJob
    pub earlier : List SchedulerJob
    pub later : List SchedulerJob
    pub found : s.jobs ≡ earlier ++ candidate ∷ later
    pub due : IsDue now candidate
    pub first : All (IsFirst now candidate) s.jobs
    pub changed : j ≡ record candidate {
      state = claimed;
      version = candidate.version + 1;
      heartbeat_at = some now;
    }
    pub stored : t ≡ record s { jobs = earlier ++ j ∷ later }

  -- A claim takes a job of the store that waits, is due, is not to be reconciled and whose deadline is
  -- ahead. No other such job has a lower priority number, or the same and an id that `localeCompare` puts
  -- before, if that orders the ids. The job that is returned is the one taken, claimed at the next version
  -- and seen now; it stands in the store in the place of that one, and nothing else is changed.
  pub claim_next-IsClaimed :
      (s : Store) (now : ℕ) (t : Store) (j : SchedulerJob)
      → claim_next precedes s now ≡ (t, some j)
      → IsClaimed s now t j
  unfolding claim_next
  claim_next-IsClaimed s now t j h =
      elim (Option-cases (least precedes (filter (is_claimable now) s.jobs))) [
        | inl q ↦ absurd (ground arith)
        | inr (c, q) ↦
            let taken : claim now c ≡ j = ground arith in
            let left : record s { jobs = update_first (is_candidate now c) (claim now) s.jobs }
                ≡ t =
              ground arith in
            let here : find (is_candidate now c) s.jobs ≡ some c =
              sym (find-filter now c s.jobs) ∙ least-find (filter (is_claimable now) s.jobs) c q in
            let (earlier, later, was, is) =
              find-splits (is_candidate now c) (claim now) s.jobs c here in
            record {
              candidate = c;
              earlier = earlier;
              later = later;
              found = was;
              due = is_claimable-IsDue now c (
                  least-among (λ k. is_claimable now k ≡ true) _ c
                    (filter-All (is_claimable now) s.jobs) q);
              first =
                  All-map (λ k. is_claimable now k ≡ true → IsNotBefore c k) (IsFirst now c)
                    (λ k. before-IsFirst now c k) s.jobs
                    (unfiltered (IsNotBefore c) (is_claimable now) s.jobs
                      (least_lem (filter (is_claimable now) s.jobs) c q));
              changed = sym taken;
              stored =
                  sym left
                  ∙ ap (λ js. record s { jobs = js }) is
                  ∙ ap (λ k. record s { jobs = earlier ++ k ∷ later }) taken;
            }
      ]
