-- ===== src/Waves/Course.antt =====
-- What holds of the waves of execution-waves.ts after every round.
use mathlib.Core.List.Memᴰ
use ai_dev_harness.Shared.{
  ℕ, zero, suc, ◌+◌, sym, subst, Bool, List, [], ◌∷◌, ◌++◌, Memᴰ, length, All, All-map, All-append,
  All-of_mem, Text, Bool-cases, inl, inr,
}
use ai_dev_harness.Waves.{SchedulableIssue}
use ai_dev_harness.Waves.Schedule.{
  Entry, ready_keys, wave_keys, wave_of, complete_all, Progress, add_wave, run_waves,
}
use ai_dev_harness.Waves.Rounds.{Apart, wave-Apart, wave-mem}
use ai_dev_harness.Waves.Ending.{stops, run-stop, run-go}
use ai_dev_harness.Waves.Dependencies.{
  keys_of, keys_of-append, Grounded, Arranged, Arranged-append, IsWaiting, later-IsWaiting,
  complete_all-IsWaiting, ready-Grounded,
}

module _ (start : List Entry) (sorted : List SchedulableIssue)
    (conflicting : Text → Text → Bool) where
  pub record IsOnCourse (p : Progress) : Type 0 where
    pub waiting : All (IsWaiting start (keys_of p.waves)) p.remaining
    pub arranged : Arranged start [] p.waves
    pub apart : All (λ w. Apart conflicting w.issue_keys) p.waves

  add-IsOnCourse : (p : Progress) → IsOnCourse p → IsOnCourse (add_wave sorted conflicting p)
  unfolding add_wave
  add-IsOnCourse p c =
      let keys = wave_keys conflicting p.remaining in
      let w = wave_of sorted (length p.waves + 1) keys in
      let done = keys_of p.waves ++ keys in
      let all_done : All (λ k. Memᴰ k done) keys =
        All-of_mem keys (λ k m. Memᴰ.append_right (keys_of p.waves) m) in
      record {
        waiting =
            subst (λ ks. All (IsWaiting start ks) (complete_all keys p.remaining))
              (sym (keys_of-append p.waves w))
              (complete_all-IsWaiting start done keys p.remaining all_done (
                All-map (IsWaiting start (keys_of p.waves)) (IsWaiting start done)
                  (λ e h. later-IsWaiting start (keys_of p.waves) keys e h) p.remaining c.waiting));
        arranged = Arranged-append start [] p.waves w c.arranged (
            All-map (λ k. Memᴰ k (ready_keys p.remaining)) (Grounded start (keys_of p.waves))
              (λ k m. ready-Grounded start (keys_of p.waves) p.remaining k c.waiting m) keys
              (wave-mem conflicting p.remaining));
        apart =
            All-append (λ w. Apart conflicting w.issue_keys) p.waves (w ∷ []) c.apart
              (wave-Apart conflicting p.remaining, tt);
      }

  pub run-IsOnCourse :
      (fuel : ℕ) (p : Progress) → IsOnCourse p → IsOnCourse (run_waves sorted conflicting fuel p)
  unfolding run_waves
  run-IsOnCourse zero p c = c
  run-IsOnCourse (suc fuel) p c = elim (Bool-cases (stops sorted conflicting p)) [
    | inl q ↦ subst IsOnCourse (sym (run-stop sorted conflicting fuel p q)) c
    | inr q ↦
        subst IsOnCourse (sym (run-go sorted conflicting fuel p q))
          (run-IsOnCourse fuel (add_wave sorted conflicting p) (add-IsOnCourse p c))
  ]

  pub start-IsOnCourse : IsOnCourse (record { remaining = start; waves = [] })
  start-IsOnCourse = record {
    waiting = All-of_mem start (λ e m. (e.1, m, All-of_mem e.1 (λ d k. inl k)));
    arranged = tt;
    apart = tt;
  }
