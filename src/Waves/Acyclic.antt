-- ===== src/Waves/Acyclic.antt =====
-- Where the dependencies have no cycle, the loop of execution-waves.ts leaves no Issue.
use mathlib.Core.List.Memᴰ
use ai_dev_harness.Shared.{
  ℕ, zero, suc, ◌+◌, ◌≤◌, ◌≡◌, ◌⊎◌, refl, sym, subst, Bool, true, false, not, List, [], ◌∷◌, ◌++◌,
  map, mem-map_lem, Memᴰ, filter, length, All, All-map, All-mem, All-of_mem, Text, text_eq,
  text_eq_iff, Bool-cases, inl, inr, arith,
}
use ai_dev_harness.Waves.{is_empty, SchedulableIssue}
use ai_dev_harness.Waves.Schedule.{
  Entry, ready_keys, wave_keys, wave_of, complete, complete_all, Progress, add_wave, run_waves,
}
use ai_dev_harness.Waves.Rounds.{mem-ready, mem-filter}
use ai_dev_harness.Waves.Ending.{stops, run-stop, run-go}
use ai_dev_harness.Waves.Dependencies.{keys_of, keys_of-append, none_in}

abbrev pub left_keys : List Entry → List Text
left_keys remaining = map (λ e. e.0) remaining

complete-keys :
    (key k : Text) (remaining : List Entry)
    → Memᴰ k (left_keys remaining)
    → text_eq k key ≡ false
    → Memᴰ k (left_keys (complete key remaining))
unfolding complete
complete-keys key k [] m h = elim m [ ]
complete-keys key k (e ∷ rest) m h = elim (Bool-cases (text_eq e.0 key)) [
  | inl q ↦ rw q (elim m [
    | Memᴰ.head same ↦ absurd (
        let t : text_eq k key ≡ true = subst (λ z. text_eq z key ≡ true) (sym same) q in
        ground (arith, t, h))
    | Memᴰ.tail i ↦ complete-keys key k rest i h
  ])
  | inr q ↦ rw q (elim m [
    | Memᴰ.head same ↦ Memᴰ.head same
    | Memᴰ.tail i ↦ Memᴰ.tail (complete-keys key k rest i h)
  ])
]

module _ (rank : Text → ℕ) where
  -- What the entry waits for is left too, and ranks lower.
  abbrev pub IsFalling : List Text → Entry → Type 0
  IsFalling keys e = All (λ d. Memᴰ d keys × (suc (rank d) ≤ rank e.0)) e.1

  narrow-IsFalling :
      (key : Text) (all_left left : List Entry)
      → All (IsFalling (left_keys all_left)) left
      → All (IsFalling (left_keys (complete key all_left))) (complete key left)
  unfolding complete
  narrow-IsFalling key all_left [] h = tt
  narrow-IsFalling key all_left (e ∷ rest) h = elim (Bool-cases (text_eq e.0 key)) [
    | inl q ↦ rw (complete, q) (narrow-IsFalling key all_left rest h.1)
    | inr q ↦
        let head : IsFalling (left_keys (complete key all_left))
            (e.0, filter (λ d. not (text_eq d key)) e.1) =
          All-of_mem (filter (λ d. not (text_eq d key)) e.1) (λ d m.
            let (i, t) = mem-filter (λ d. not (text_eq d key)) e.1 d m in
            let (k, low) =
              All-mem (λ d. Memᴰ d (left_keys all_left) × (suc (rank d) ≤ rank e.0)) e.1 d h.0 i in
            (complete-keys key d all_left k (ground (arith, t)), low)) in
        rw (complete, q) (head, narrow-IsFalling key all_left rest h.1)
  ]

  abbrev pub AreFalling : List Entry → Type 0
  AreFalling remaining = All (IsFalling (left_keys remaining)) remaining

  complete_all-AreFalling :
      (keys : List Text) (remaining : List Entry)
      → AreFalling remaining
      → AreFalling (complete_all keys remaining)
  unfolding complete_all
  complete_all-AreFalling [] remaining h = h
  complete_all-AreFalling (k ∷ ks) remaining h =
      complete_all-AreFalling ks (complete k remaining) (narrow-IsFalling k remaining remaining h)

  -- Some entry that waits for nothing stands below every entry.
  some_ready :
      (bound : ℕ) (remaining : List Entry) (e : Entry)
      → AreFalling remaining
      → Memᴰ e remaining
      → suc (rank e.0) ≤ bound
      → (k : Text) × Memᴰ k (ready_keys remaining)
  some_ready zero remaining e h m low = absurd (omega (arith, low))
  some_ready (suc bound) remaining (key, []) h m low = (key, mem-ready remaining (key, []) m refl)
  some_ready (suc bound) remaining (key, d ∷ ds) h m low =
      let (k, less) = (All-mem (IsFalling (left_keys remaining)) remaining (key, d ∷ ds) h m).0 in
      let (f, i, same) = mem-map_lem (λ (e : Entry). e.0) remaining d k in
      some_ready bound remaining f h i
        (subst (λ z. suc (rank z) ≤ bound) (sym same) (omega (arith, less, low)))

  pub stopped_empty :
      (remaining : List Entry)
      → AreFalling remaining
      → is_empty (ready_keys remaining) ≡ true
      → remaining ≡ []
  stopped_empty [] h q = refl
  stopped_empty (e ∷ rest) h q =
      let (k, m) = some_ready (suc (rank e.0)) (e ∷ rest) e h (Memᴰ.head refl) (omega arith) in
      absurd (none_in (ready_keys (e ∷ rest)) k q m)

  module _ (sorted : List SchedulableIssue) (conflicting : Text → Text → Bool) where
    pub run-AreFalling :
        (fuel : ℕ) (p : Progress)
        → AreFalling p.remaining
        → AreFalling (run_waves sorted conflicting fuel p).remaining
    unfolding run_waves add_wave
    run-AreFalling zero p h = h
    run-AreFalling (suc fuel) p h = elim (Bool-cases (stops sorted conflicting p)) [
      | inl q ↦
          subst (λ (p : Progress). AreFalling p.remaining)
            (sym (run-stop sorted conflicting fuel p q)) h
      | inr q ↦
          subst (λ (p : Progress). AreFalling p.remaining)
            (sym (run-go sorted conflicting fuel p q))
            (run-AreFalling fuel (add_wave sorted conflicting p)
              (complete_all-AreFalling (wave_keys conflicting p.remaining) p.remaining h))
    ]

-- Every key of the start is left or done.
abbrev pub IsKept : List Text → Progress → Type 0
IsKept keys p = All (λ k. Memᴰ k (left_keys p.remaining) ⊎ Memᴰ k (keys_of p.waves)) keys

left_or_completed :
    (keys : List Text) (k : Text) (remaining : List Entry)
    → Memᴰ k (left_keys remaining)
    → Memᴰ k (left_keys (complete_all keys remaining)) ⊎ Memᴰ k keys
unfolding complete_all
left_or_completed [] k remaining m = inl m
left_or_completed (key ∷ keys) k remaining m = elim (Bool-cases (text_eq k key)) [
  | inl q ↦ inr (Memᴰ.head ((text_eq_iff k key).0 q))
  | inr q ↦
      elim (left_or_completed keys k (complete key remaining) (complete-keys key k remaining m q)) [
        | inl i ↦ inl i
        | inr i ↦ inr (Memᴰ.tail i)
      ]
]

module _ (keys : List Text) (sorted : List SchedulableIssue)
    (conflicting : Text → Text → Bool) where
  add-IsKept : (p : Progress) → IsKept keys p → IsKept keys (add_wave sorted conflicting p)
  unfolding add_wave
  add-IsKept p h =
      let ks = wave_keys conflicting p.remaining in
      let w = wave_of sorted (length p.waves + 1) ks in
      All-map (λ k. Memᴰ k (left_keys p.remaining) ⊎ Memᴰ k (keys_of p.waves))
        (λ k.
          Memᴰ k (left_keys (complete_all ks p.remaining)) ⊎ Memᴰ k (keys_of (p.waves ++ w ∷ [])))
        (λ k c.
          let behind : Memᴰ k (keys_of p.waves ++ ks) → Memᴰ k (keys_of (p.waves ++ w ∷ [])) =
            λ m. subst (λ z. Memᴰ k z) (sym (keys_of-append p.waves w)) m in
          elim c [
            | inr m ↦ inr (behind (Memᴰ.append_left ks m))
            | inl m ↦ elim (left_or_completed ks k p.remaining m) [
              | inl i ↦ inl i
              | inr i ↦ inr (behind (Memᴰ.append_right (keys_of p.waves) i))
            ]
          ])
        keys h

  pub run-IsKept :
      (fuel : ℕ) (p : Progress) → IsKept keys p → IsKept keys (run_waves sorted conflicting fuel p)
  unfolding run_waves
  run-IsKept zero p h = h
  run-IsKept (suc fuel) p h = elim (Bool-cases (stops sorted conflicting p)) [
    | inl q ↦ subst (IsKept keys) (sym (run-stop sorted conflicting fuel p q)) h
    | inr q ↦
        subst (IsKept keys) (sym (run-go sorted conflicting fuel p q))
          (run-IsKept fuel (add_wave sorted conflicting p) (add-IsKept p h))
  ]
