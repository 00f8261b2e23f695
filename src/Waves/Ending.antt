-- ===== src/Waves/Ending.antt =====
-- The loop of `scheduleExecutionWaves` ends, with a round for each Issue.
use ai_dev_harness.Shared.{
  ℕ, zero, suc, ◌≤◌, ◌≡◌, sym, subst, Bool, true, false, ◌||◌, List, [], ◌∷◌, Memᴰ, length, All,
  Text, text_eq, text_eq_refl, Bool-cases, inl, inr, arith,
}
use ai_dev_harness.Waves.{is_empty, SchedulableIssue}
use ai_dev_harness.Waves.Schedule.{
  Entry, ready_keys, wave_keys, complete, complete_all, Progress, add_wave, run_waves,
}
use ai_dev_harness.Waves.Rounds.{ready-mem, wave-mem, wave-some}

complete_shrinks :
    (key : Text) (remaining : List Entry) → length (complete key remaining) ≤ length remaining
unfolding complete
complete_shrinks key [] = omega arith
complete_shrinks key (e ∷ rest) = ground (arith, complete_shrinks key rest)

complete_all_shrinks :
    (keys : List Text) (remaining : List Entry)
    → length (complete_all keys remaining) ≤ length remaining
unfolding complete_all
complete_all_shrinks [] remaining = omega arith
complete_all_shrinks (k ∷ ks) remaining =
    omega (arith, complete_shrinks k remaining, complete_all_shrinks ks (complete k remaining))

complete_removes :
    (e : Entry) (remaining : List Entry)
    → Memᴰ e remaining
    → suc (length (complete e.0 remaining)) ≤ length remaining
unfolding complete
complete_removes e [] m = elim m [ ]
complete_removes e (f ∷ rest) m = elim (Bool-cases (text_eq f.0 e.0)) [
  | inl q ↦ ground (arith, q, complete_shrinks e.0 rest)
  | inr q ↦ elim m [
    | Memᴰ.head same ↦
        let t : text_eq f.0 e.0 ≡ true =
          subst (λ (z : Entry). text_eq z.0 e.0 ≡ true) same (text_eq_refl e.0) in
        absurd (ground (arith, t, q))
    | Memᴰ.tail k ↦ ground (arith, q, complete_removes e rest k)
  ]
]

nothing_left : (r : List Entry) → is_empty r ≡ false → length r ≤ 0 → ⊥
nothing_left [] q h = ground (arith, q)
nothing_left (e ∷ r) q h = omega (arith, h)

module _ (sorted : List SchedulableIssue) (conflicting : Text → Text → Bool) where
  abbrev pub stops : Progress → Bool
  stops p = is_empty p.remaining || is_empty (ready_keys p.remaining)

  pub run-stop :
      (fuel : ℕ) (p : Progress) → stops p ≡ true → run_waves sorted conflicting (suc fuel) p ≡ p
  unfolding run_waves
  run-stop fuel p q = rw (run_waves, q)

  pub run-go :
      (fuel : ℕ) (p : Progress)
      → stops p ≡ false
      → run_waves sorted conflicting (suc fuel) p
        ≡ run_waves sorted conflicting fuel (add_wave sorted conflicting p)
  unfolding run_waves
  run-go fuel p q = rw (run_waves, q)

  shrinks :
      (keys : List Text) (remaining : List Entry)
      → is_empty keys ≡ false
      → All (λ k. Memᴰ k (ready_keys remaining)) keys
      → suc (length (complete_all keys remaining)) ≤ length remaining
  unfolding complete_all
  shrinks [] remaining h m = absurd (ground (arith, h))
  shrinks (k ∷ ks) remaining h m =
      let (e, i, same, idle) = ready-mem remaining k m.0 in
      let less : suc (length (complete k remaining)) ≤ length remaining =
        subst (λ z. suc (length (complete z remaining)) ≤ length remaining) same
          (complete_removes e remaining i) in
      omega (arith, less, complete_all_shrinks ks (complete k remaining))

  -- Every round takes an Issue at least.
  pub add_wave_shrinks :
      (p : Progress)
      → stops p ≡ false
      → suc (length (add_wave sorted conflicting p).remaining) ≤ length p.remaining
  unfolding add_wave
  add_wave_shrinks p h =
      shrinks (wave_keys conflicting p.remaining) p.remaining
        (wave-some conflicting p.remaining (ground arith)) (wave-mem conflicting p.remaining)

  -- With a round for each Issue that remains, the loop over the waves ends by its own tests:
  -- nothing remains, or nothing is ready.
  pub run_ends :
      (fuel : ℕ) (p : Progress)
      → length p.remaining ≤ fuel
      → stops (run_waves sorted conflicting fuel p) ≡ true
  unfolding run_waves
  run_ends zero p h = elim (Bool-cases (is_empty p.remaining)) [
    | inl q ↦ ground arith
    | inr q ↦ absurd (nothing_left p.remaining q h)
  ]
  run_ends (suc fuel) p h = elim (Bool-cases (stops p)) [
    | inl q ↦ subst (λ r. stops r ≡ true) (sym (run-stop fuel p q)) q
    | inr q ↦
        let less = add_wave_shrinks p q in
        subst (λ r. stops r ≡ true) (sym (run-go fuel p q))
          (run_ends fuel (add_wave sorted conflicting p) (omega (arith, less, h)))
  ]
