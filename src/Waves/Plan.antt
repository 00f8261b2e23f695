-- ===== src/Waves/Plan.antt =====
-- What `scheduleExecutionWaves` of execution-waves.ts promises of the dependencies of the Issues.
use ai_dev_harness.Shared.{
  ℕ, suc, ◌≤◌, ◌≡◌, ◌⊎◌, ◌∙◌, refl, sym, ap, subst, Bool, true, List, [], ◌∷◌, ◌++◌, mem-map_lem,
  mem-map_image, Memᴰ, length, All, All-mem, All-of_mem, sort-mem, sort_by, Text, text_mem_iff,
  Bool-cases, inl, inr, arith,
}
use mathlib.Core.List.{append_assoc, append-nil}
use ai_dev_harness.Waves.{is_empty, SchedulableIssue, by_key, analyze_issue_conflicts}
use ai_dev_harness.Waves.Schedule.{
  Entry, ExecutionWave, ready_keys, known_keys, entry_of, first_remaining, has_conflict,
  finished_waves, schedule_execution_waves,
}
use ai_dev_harness.Waves.Ending.{stops, run_ends}
use ai_dev_harness.Waves.Dependencies.{keys_of, Grounded, Arranged}
use ai_dev_harness.Waves.Course.{IsOnCourse, run-IsOnCourse, start-IsOnCourse}
use ai_dev_harness.Waves.Acyclic.{
  AreFalling, IsFalling, left_keys, stopped_empty, run-AreFalling, IsKept, run-IsKept,
}
use ai_dev_harness.Waves.Entries.{
  sort-mem_of, known-sort, first-entry, first-key, entry-waits, waits-entry,
}

-- Issues of one key are one Issue.
abbrev pub HaveKeys : List SchedulableIssue → Type 0
HaveKeys issues = All (λ i. All (λ j. i.key ≡ j.key → i ≡ j) issues) issues

Arranged-at :
    (start : List Entry) (done : List Text) (earlier : List ExecutionWave) (w : ExecutionWave)
    (later : List ExecutionWave)
    → Arranged start done (earlier ++ w ∷ later)
    → All (Grounded start (done ++ keys_of earlier)) w.issue_keys
Arranged-at start done [] w later a =
    subst (λ ks. All (Grounded start ks) w.issue_keys) (sym (append-nil done)) a.0
Arranged-at start done (v ∷ earlier) w later a =
    subst (λ ks. All (Grounded start ks) w.issue_keys)
      (append_assoc done v.issue_keys (keys_of earlier))
      (Arranged-at start (done ++ v.issue_keys) earlier w later a.1)

module _ (locale_le : Text → Text → Bool) (to_lower_case : Text → Text)
    (issues : List SchedulableIssue) where
  abbrev pub sorted : List SchedulableIssue
  sorted = sort_by (by_key locale_le) issues

  abbrev pub conflicting : Text → Text → Bool
  conflicting = has_conflict (analyze_issue_conflicts locale_le to_lower_case sorted)

  pub finished-IsOnCourse :
      IsOnCourse
        (first_remaining sorted)
        sorted
        conflicting
        (finished_waves locale_le to_lower_case issues)
  unfolding finished_waves
  finished-IsOnCourse =
      run-IsOnCourse (first_remaining sorted) sorted conflicting (length (first_remaining sorted))
        (record { remaining = first_remaining sorted; waves = [] })
        (start-IsOnCourse (first_remaining sorted) sorted conflicting)

  finished-stops : stops sorted conflicting (finished_waves locale_le to_lower_case issues) ≡ true
  unfolding finished_waves
  finished-stops =
      run_ends sorted conflicting (length (first_remaining sorted))
        (record { remaining = first_remaining sorted; waves = [] }) (omega arith)

  finished-AreFalling :
      (rank : Text → ℕ)
      → AreFalling rank (first_remaining sorted)
      → AreFalling rank (finished_waves locale_le to_lower_case issues).remaining
  unfolding finished_waves
  finished-AreFalling rank h =
      run-AreFalling rank sorted conflicting (length (first_remaining sorted))
        (record { remaining = first_remaining sorted; waves = [] }) h

  finished-IsKept :
      IsKept (left_keys (first_remaining sorted)) (finished_waves locale_le to_lower_case issues)
  unfolding finished_waves
  finished-IsKept =
      run-IsKept (left_keys (first_remaining sorted)) sorted conflicting
        (length (first_remaining sorted))
        (record { remaining = first_remaining sorted; waves = [] })
        (All-of_mem (left_keys (first_remaining sorted)) (λ k m. inl m))

  plan-waves :
      (schedule_execution_waves locale_le to_lower_case issues).waves
      ≡ (finished_waves locale_le to_lower_case issues).waves
  unfolding schedule_execution_waves
  plan-waves = refl

  -- In a plan of Issues with keys of their own, every known dependency of an Issue stands in a wave
  -- before that of the Issue.
  pub wave_dependencies :
      (earlier : List ExecutionWave) (w : ExecutionWave) (later : List ExecutionWave)
      (i : SchedulableIssue) (d : Text)
      → HaveKeys issues
      → (schedule_execution_waves locale_le to_lower_case issues).waves ≡ earlier ++ w ∷ later
      → Memᴰ i issues
      → Memᴰ i.key w.issue_keys
      → Memᴰ d i.dependency_candidates
      → Memᴰ d (known_keys issues)
      → Memᴰ d (keys_of earlier)
  wave_dependencies earlier w later i d unique plan m in_wave depends known =
      let start = first_remaining sorted in
      let arranged : Arranged start [] (earlier ++ w ∷ later) =
        subst (Arranged start []) (sym plan-waves ∙ plan) finished-IsOnCourse.arranged in
      let (waits, k, done) =
        All-mem (Grounded start (keys_of earlier)) w.issue_keys i.key
          (Arranged-at start [] earlier w later arranged) in_wave in
      let (j, l, same) = first-entry sorted (i.key, waits) k in
      let keys : i.key ≡ j.key = sym (ap (λ (e : Entry). e.0) same) in
      let one : i ≡ j =
        All-mem (λ j. i.key ≡ j.key → i ≡ j) issues j
          (All-mem (λ i. All (λ j. i.key ≡ j.key → i ≡ j) issues) issues i unique m)
          (sort-mem_of (by_key locale_le) issues j l) keys in
      let waited : Memᴰ d (entry_of (known_keys sorted) j).1 =
        entry-waits (known_keys sorted) j d
          (subst (λ (z : SchedulableIssue). Memᴰ d z.dependency_candidates) one depends)
          (known-sort (by_key locale_le) issues d known) in
      All-mem (λ d. Memᴰ d (keys_of earlier)) waits d done
        (subst (λ (e : Entry). Memᴰ d e.1) same waited)

  start-AreFalling :
      (rank : Text → ℕ)
      → All
          (λ i.
            All
              (λ d. Memᴰ d (known_keys issues) → suc (rank d) ≤ rank i.key)
              i.dependency_candidates)
          issues
      → AreFalling rank (first_remaining sorted)
  start-AreFalling rank falling = All-of_mem (first_remaining sorted) (λ e m.
      let (i, k, same) = first-entry sorted e m in
      let own = sort-mem_of (by_key locale_le) issues i k in
      subst (IsFalling rank (left_keys (first_remaining sorted))) same (
        All-of_mem (entry_of (known_keys sorted) i).1 (λ d w.
          let (depends, known) = waits-entry (known_keys sorted) i d w in
          let (j, l, named) =
            mem-map_lem (λ (i : SchedulableIssue). i.key) sorted d
              ((text_mem_iff d (known_keys sorted)).0 known) in
          let is_left : Memᴰ d (left_keys (first_remaining sorted)) =
            subst (λ z. Memᴰ z (left_keys (first_remaining sorted))) named (first-key sorted j l) in
          let known_here : Memᴰ d (known_keys issues) =
            subst (λ z. Memᴰ z (known_keys issues)) named
              (mem-map_image (λ (i : SchedulableIssue). i.key) issues j
                (sort-mem_of (by_key locale_le) issues j l)) in
          let low =
            All-mem (λ d. Memᴰ d (known_keys issues) → suc (rank d) ≤ rank i.key)
              i.dependency_candidates d
              (All-mem
                (λ i.
                  All (λ d. Memᴰ d (known_keys issues) → suc (rank d) ≤ rank i.key)
                    i.dependency_candidates)
                issues i falling own)
              depends known_here in
          (is_left, low))))

  nothing_remains :
      (rank : Text → ℕ)
      → AreFalling rank (first_remaining sorted)
      → (finished_waves locale_le to_lower_case issues).remaining ≡ []
  nothing_remains rank h =
      let r = (finished_waves locale_le to_lower_case issues).remaining in
      let fall = finished-AreFalling rank h in
      elim (Bool-cases (is_empty (ready_keys r))) [
        | inl q ↦ stopped_empty rank r fall q
        | inr q ↦
            let none_left : is_empty r ≡ true = ground (arith, finished-stops, q) in
            empty_lem r none_left
      ]
    where
      empty_lem : (r : List Entry) → is_empty r ≡ true → r ≡ []
      empty_lem [] h = refl
      empty_lem (e ∷ r) h = absurd (ground (arith, h))

  -- Every Issue of the plan is in some wave, if the known dependencies have no cycle: each ranks
  -- below what depends on it.
  pub acyclic_scheduled :
      (rank : Text → ℕ) (i : SchedulableIssue)
      → All
          (λ i.
            All
              (λ d. Memᴰ d (known_keys issues) → suc (rank d) ≤ rank i.key)
              i.dependency_candidates)
          issues
      → Memᴰ i issues
      → Memᴰ i.key (keys_of (schedule_execution_waves locale_le to_lower_case issues).waves)
  acyclic_scheduled rank i falling m =
      let p = finished_waves locale_le to_lower_case issues in
      let empty = nothing_remains rank (start-AreFalling rank falling) in
      let key_in = first-key sorted i (sort-mem (by_key locale_le) i issues m) in
      elim (All-mem (λ k. Memᴰ k (left_keys p.remaining) ⊎ Memᴰ k (keys_of p.waves))
        (left_keys (first_remaining sorted)) i.key finished-IsKept key_in) [
          | inl k ↦
              absurd (
                let n : Memᴰ i.key [] = subst (λ r. Memᴰ i.key (left_keys r)) empty k in elim n [ ])
          | inr k ↦ subst (λ ws. Memᴰ i.key (keys_of ws)) (sym plan-waves) k
        ]
