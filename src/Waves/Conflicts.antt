-- ===== src/Waves/Conflicts.antt =====
-- What `scheduleExecutionWaves` of execution-waves.ts promises of the conflicts: no wave has two Issues
-- that `conflictFor` keeps apart.
use mathlib.Core.List.{map-append}
use mathlib.Core.List.Memᴰ
use ai_dev_harness.Shared.{
  ◌≡◌, ◌≢◌, ◌⊎◌, ◌∙◌, sym, ap, subst, Bool, true, false, none, some, is_some, List, [], ◌∷◌, map,
  Memᴰ, All, All-mem, Sorted, sort-Sorted, sort-agree, sort-mem, sort_by, unit_le, unit_le_total,
  unit_le_trans, unit_le_antisym, Text, text_mem_iff, Bool-cases, Option-cases, inl, inr,
  if◌then◌else◌, arith,
}
use ai_dev_harness.Waves.{
  SchedulableIssue, IssueConflict, by_key, findings, is_empty, conflict_for, conflicts_with,
  conflicts_among, analyze_issue_conflicts,
}
use ai_dev_harness.Waves.Overlap.{conflict_for-sym}
use ai_dev_harness.Waves.Schedule.{
  ExecutionWave, pair_key, has_conflict, finished_waves, schedule_execution_waves,
}
use ai_dev_harness.Waves.Rounds.{Apart}
use ai_dev_harness.Waves.Entries.{sort-mem_of}
use ai_dev_harness.Waves.Plan.{conflicting, finished-IsOnCourse}

-- The text under which two keys are looked up.
abbrev ordered_key : Text → Text → Text
ordered_key left right = if unit_le left right then pair_key left right else pair_key right left

abbrev pair_keys : List IssueConflict → List Text
pair_keys conflicts = map (λ c. pair_key c.issue_keys.0 c.issue_keys.1) conflicts

ordered-first : (k l : Text) → unit_le k l ≡ true → ordered_key k l ≡ pair_key k l
ordered-first k l h = rw h

ordered-second : (k l : Text) → k ≢ l → unit_le k l ≡ true → ordered_key l k ≡ pair_key k l
ordered-second k l ne h = elim (Bool-cases (unit_le l k)) [
  | inl q ↦ absurd (ne (unit_le_antisym k l h q))
  | inr q ↦ rw q
]

module _ (to_lower_case : Text → Text) where
  conflict_for-keys :
      (a b : SchedulableIssue) (c : IssueConflict)
      → conflict_for to_lower_case a b ≡ some c
      → c.issue_keys ≡ (a.key, b.key)
  unfolding conflict_for
  conflict_for-keys a b c h = elim (Bool-cases (is_empty (findings to_lower_case a b).kinds)) [
    | inl q ↦ let n : none ≡ some c = rw (conflict_for, q) at h in cc
    | inr q ↦ ground (arith, q)
  ]

  with-mem :
      (a b : SchedulableIssue) (rest : List SchedulableIssue)
      → is_some (conflict_for to_lower_case a b) ≡ true
      → Memᴰ b rest
      → Memᴰ (pair_key a.key b.key) (pair_keys (conflicts_with to_lower_case a rest))
  unfolding conflicts_with
  with-mem a b [] h m = elim m [ ]
  with-mem a b (r ∷ rest) h m = elim (Option-cases (conflict_for to_lower_case a r)) [
    | inl q ↦
        rw (conflicts_with, q)
          (elim m [
            | Memᴰ.head e ↦ absurd (
                let t : is_some (conflict_for to_lower_case a r) ≡ true =
                  subst (λ z. is_some (conflict_for to_lower_case a z) ≡ true) e h in
                ground (arith, t, q))
            | Memᴰ.tail k ↦ with-mem a b rest h k
          ])
    | inr (c, q) ↦
        rw (conflicts_with, q)
          (elim m [
            | Memᴰ.head e ↦ Memᴰ.head (
                ap (λ (z : SchedulableIssue). pair_key a.key z.key) e
                ∙ sym (ap (λ (z : Text × Text). pair_key z.0 z.1) (conflict_for-keys a r c q)))
            | Memᴰ.tail k ↦ Memᴰ.tail (with-mem a b rest h k)
          ])
  ]

  head-mem :
      (a b : SchedulableIssue) (rest : List SchedulableIssue)
      → is_some (conflict_for to_lower_case a b) ≡ true
      → Memᴰ b rest
      → Memᴰ (pair_key a.key b.key) (pair_keys (conflicts_among to_lower_case (a ∷ rest)))
  unfolding conflicts_among
  head-mem a b rest h m =
      subst (λ ks. Memᴰ (pair_key a.key b.key) ks)
        (sym (
          map-append (λ (c : IssueConflict). pair_key c.issue_keys.0 c.issue_keys.1)
            (conflicts_with to_lower_case a rest) (conflicts_among to_lower_case rest)))
        (Memᴰ.append_left (pair_keys (conflicts_among to_lower_case rest)) (with-mem a b rest h m))

  tail-mem :
      (a : SchedulableIssue) (rest : List SchedulableIssue) (k : Text)
      → Memᴰ k (pair_keys (conflicts_among to_lower_case rest))
      → Memᴰ k (pair_keys (conflicts_among to_lower_case (a ∷ rest)))
  unfolding conflicts_among
  tail-mem a rest k m =
      subst (λ ks. Memᴰ k ks)
        (sym (
          map-append (λ (c : IssueConflict). pair_key c.issue_keys.0 c.issue_keys.1)
            (conflicts_with to_lower_case a rest) (conflicts_among to_lower_case rest)))
        (Memᴰ.append_right (pair_keys (conflicts_with to_lower_case a rest)) m)

  -- In a sorted list, a conflict is found under the key that the lookup builds.
  found-mem :
      (issues : List SchedulableIssue) (a b : SchedulableIssue)
      → Sorted (by_key unit_le) issues
      → a.key ≢ b.key
      → is_some (conflict_for to_lower_case a b) ≡ true
      → Memᴰ a issues
      → Memᴰ b issues
      → Memᴰ (ordered_key a.key b.key) (pair_keys (conflicts_among to_lower_case issues))
  found-mem [] a b s ne h m n = elim m [ ]
  found-mem (x ∷ rest) a b s ne h (Memᴰ.head e) (Memᴰ.head f) =
      absurd (ne (ap (λ (i : SchedulableIssue). i.key) (e ∙ sym f)))
  found-mem (x ∷ rest) a b s ne h (Memᴰ.head e) (Memᴰ.tail n) =
      let low : unit_le a.key b.key ≡ true =
        subst (λ (z : SchedulableIssue). unit_le z.key b.key ≡ true) (sym e)
          (All-mem (λ y. by_key unit_le x y ≡ true) rest b s.0 n) in
      subst (λ z. Memᴰ z (pair_keys (conflicts_among to_lower_case (x ∷ rest))))
        (sym (ordered-first a.key b.key low))
        (subst
          (λ z. Memᴰ (pair_key a.key b.key) (pair_keys (conflicts_among to_lower_case (z ∷ rest))))
          e (head-mem a b rest h n))
  found-mem (x ∷ rest) a b s ne h (Memᴰ.tail m) (Memᴰ.head f) =
      let low : unit_le b.key a.key ≡ true =
        subst (λ (z : SchedulableIssue). unit_le z.key a.key ≡ true) (sym f)
          (All-mem (λ y. by_key unit_le x y ≡ true) rest a s.0 m) in
      subst (λ z. Memᴰ z (pair_keys (conflicts_among to_lower_case (x ∷ rest))))
        (sym (ordered-second b.key a.key (λ t. ne (sym t)) low))
        (subst
          (λ z. Memᴰ (pair_key b.key a.key) (pair_keys (conflicts_among to_lower_case (z ∷ rest))))
          f (head-mem b a rest (conflict_for-sym to_lower_case b a ∙ h) m))
  found-mem (x ∷ rest) a b s ne h (Memᴰ.tail m) (Memᴰ.tail n) =
      tail-mem x rest (ordered_key a.key b.key) (found-mem rest a b s.1 ne h m n)

Apart-pair :
    (conflicting : Text → Text → Bool) (ks : List Text) (k l : Text)
    → Apart conflicting ks
    → k ≢ l
    → Memᴰ k ks
    → Memᴰ l ks
    → (conflicting k l ≡ false) ⊎ (conflicting l k ≡ false)
Apart-pair conflicting [] k l a ne m n = elim m [ ]
Apart-pair conflicting (x ∷ xs) k l a ne (Memᴰ.head e) (Memᴰ.head f) = absurd (ne (e ∙ sym f))
Apart-pair conflicting (x ∷ xs) k l a ne (Memᴰ.head e) (Memᴰ.tail n) = inl (
    subst (λ z. conflicting z l ≡ false) (sym e)
      (All-mem (λ l. conflicting x l ≡ false) xs l a.0 n))
Apart-pair conflicting (x ∷ xs) k l a ne (Memᴰ.tail m) (Memᴰ.head f) = inr (
    subst (λ z. conflicting z k ≡ false) (sym f)
      (All-mem (λ l. conflicting x l ≡ false) xs k a.0 m))
Apart-pair conflicting (x ∷ xs) k l a ne (Memᴰ.tail m) (Memᴰ.tail n) =
    Apart-pair conflicting xs k l a.1 ne m n

-- `localeCompare` puts the keys of the Issues in the order of their code units.
abbrev pub AgreesOn : (Text → Text → Bool) → List SchedulableIssue → Type 0
AgreesOn locale_le issues =
    All (λ i. All (λ j. locale_le i.key j.key ≡ unit_le i.key j.key) issues) issues

module _ (locale_le : Text → Text → Bool) (to_lower_case : Text → Text)
    (issues : List SchedulableIssue) (agrees : AgreesOn locale_le issues) where
  agree_at :
      (i j : SchedulableIssue)
      → Memᴰ i issues
      → Memᴰ j issues
      → locale_le i.key j.key ≡ unit_le i.key j.key
  agree_at i j m n =
      All-mem (λ j. locale_le i.key j.key ≡ unit_le i.key j.key) issues j
        (All-mem (λ i. All (λ j. locale_le i.key j.key ≡ unit_le i.key j.key) issues) issues i
          agrees m)
        n

  -- The second sort, in `analyzeIssueConflicts`.
  twice-Sorted :
      Sorted (by_key unit_le) (sort_by (by_key locale_le) (sort_by (by_key locale_le) issues))
  twice-Sorted =
      let first = sort_by (by_key locale_le) issues in
      subst (λ l. Sorted (by_key unit_le) l)
        (sym (
          sort-agree (by_key locale_le) (by_key unit_le) first (λ i j m n.
            agree_at i j (sort-mem_of (by_key locale_le) issues i m)
              (sort-mem_of (by_key locale_le) issues j n))))
        (sort-Sorted (by_key unit_le) (λ i j h. unit_le_total i.key j.key h)
          (λ i j k h l. unit_le_trans i.key j.key k.key h l) first)

  found_conflict :
      (a b : SchedulableIssue)
      → a.key ≢ b.key
      → is_some (conflict_for to_lower_case a b) ≡ true
      → Memᴰ a issues
      → Memᴰ b issues
      → conflicting locale_le to_lower_case issues a.key b.key ≡ true
  unfolding has_conflict analyze_issue_conflicts
  found_conflict a b ne h m n =
      let twice = sort_by (by_key locale_le) (sort_by (by_key locale_le) issues) in
      let at : (i : SchedulableIssue) → Memᴰ i issues → Memᴰ i twice = λ i k.
        sort-mem (by_key locale_le) i (sort_by (by_key locale_le) issues)
          (sort-mem (by_key locale_le) i issues k) in
      (text_mem_iff (ordered_key a.key b.key) (pair_keys (conflicts_among to_lower_case twice))).1
        (found-mem to_lower_case twice a b twice-Sorted ne h (at a m) (at b n))

-- Two Issues with different keys that stand in one wave have no conflict, if `localeCompare` and
-- the order of the code units agree on the keys of the plan.
pub wave_conflict_free :
    (locale_le : Text → Text → Bool) (to_lower_case : Text → Text) (issues : List SchedulableIssue)
    (w : ExecutionWave) (a b : SchedulableIssue)
    → AgreesOn locale_le issues
    → Memᴰ w (schedule_execution_waves locale_le to_lower_case issues).waves
    → Memᴰ a issues
    → Memᴰ b issues
    → a.key ≢ b.key
    → Memᴰ a.key w.issue_keys
    → Memᴰ b.key w.issue_keys
    → conflict_for to_lower_case a b ≡ none
unfolding schedule_execution_waves
wave_conflict_free locale_le to_lower_case issues w a b agrees in_plan m n ne k l =
    let c = conflicting locale_le to_lower_case issues in
    let apart =
      All-mem (λ w. Apart c w.issue_keys) (finished_waves locale_le to_lower_case issues).waves w
        (finished-IsOnCourse locale_le to_lower_case issues).apart in_plan in
    elim (Option-cases (conflict_for to_lower_case a b)) [
      | inl q ↦ q
      | inr (found, q) ↦
          let here : is_some (conflict_for to_lower_case a b) ≡ true = rw q in
          let there = sym (conflict_for-sym to_lower_case a b) ∙ here in
          let one = found_conflict locale_le to_lower_case issues agrees a b ne here m n in
          let two =
            found_conflict locale_le to_lower_case issues agrees b a (λ t. ne (sym t)) there n m in
          elim (Apart-pair c w.issue_keys a.key b.key apart ne k l) [
            | inl free ↦ absurd (ground (arith, one, free))
            | inr free ↦ absurd (ground (arith, two, free))
          ]
    ]
