-- ===== src/Waves/Schedule.antt =====
-- `scheduleExecutionWaves` of execution-waves.ts: the Issues whose dependencies are complete, wave by
-- wave.
use ai_dev_harness.Shared.{
  decimal, ℕ, zero, suc, ◌+◌, Bool, true, false, not, ◌||◌, none, some, List, [], ◌∷◌, ◌++◌, map,
  all, filter, find, length, Text, lit, text_eq, text_mem, unit_le, sort_by, distinct_from,
  distinct, if◌then◌else◌,
}
use ai_dev_harness.Waves.{
  SchedulableIssue, IssueConflict, is_empty, by_key, analyze_issue_conflicts,
}

pub record ExecutionWave : Type 0 where
  pub number : ℕ
  pub issue_keys : List Text
  pub reasons : List Text

pub record ExecutionWavePlan : Type 0 where
  pub conflicts : List IssueConflict
  pub waves : List ExecutionWave

-- `remaining`: a `Map` from keys to sets of keys, in the order in which the keys were first set.
abbrev pub Entry : Type 0
Entry = Text × List Text

unfoldable pub set_entry : Entry → List Entry → List Entry
set_entry e [] = e ∷ []
set_entry e (f ∷ rest) =
    let later = set_entry e rest in if text_eq f.0 e.0 then (f.0, e.1) ∷ rest else f ∷ later

-- `new Map(entries)`, into a map that has some.
unfoldable pub new_map : List Entry → List Entry → List Entry
unfolding set_entry
new_map made [] = made
new_map made (e ∷ rest) = new_map (set_entry e made) rest

abbrev pub known_keys : List SchedulableIssue → List Text
known_keys issues = map (λ issue. issue.key) issues

abbrev pub entry_of : List Text → SchedulableIssue → Entry
entry_of known issue =
    (issue.key, distinct (filter (λ d. text_mem d known) issue.dependency_candidates))

unfoldable pub first_remaining : List SchedulableIssue → List Entry
unfolding new_map distinct_from
first_remaining sorted = new_map [] (map (entry_of (known_keys sorted)) sorted)

unfoldable pub ready_keys : List Entry → List Text
unfolding sort_by unit_le
ready_keys remaining = sort_by unit_le (map (λ e. e.0) (filter (λ e. is_empty e.1) remaining))

-- `${left}\0${right}`
abbrev pub pair_key : Text → Text → Text
pair_key left right = left ++ 0 ∷ right

-- `hasConflict`: the two keys in the order of `sort()`, looked up in the pairs that were found.
unfoldable pub has_conflict : List IssueConflict → Text → Text → Bool
unfolding unit_le
has_conflict conflicts left right =
    text_mem (if unit_le left right then pair_key left right else pair_key right left)
      (map (λ c. pair_key c.issue_keys.0 c.issue_keys.1) conflicts)

-- The loop over `ready`, which selects each key that has no conflict with those before it.
unfoldable pub select_from : (Text → Text → Bool) → List Text → List Text → List Text
select_from conflicting selected [] = selected
select_from conflicting selected (key ∷ keys) =
    select_from conflicting
      (if all (λ prior. not (conflicting prior key)) selected
        then selected ++ key ∷ []
        else selected)
      keys

-- `if (!selected.length) selected.push(ready[0])`
abbrev pub or_first : List Text → List Text → List Text
or_first [] [] = []
or_first [] (key ∷ keys) = key ∷ []
or_first (k ∷ ks) ready = k ∷ ks

unfoldable pub wave_keys : (Text → Text → Bool) → List Entry → List Text
unfolding ready_keys select_from
wave_keys conflicting remaining =
    let ready = ready_keys remaining in or_first (select_from conflicting [] ready) ready

-- `remaining.delete(key)`, and the key taken out of what the others wait for.
unfoldable pub complete : Text → List Entry → List Entry
complete key [] = []
complete key (e ∷ rest) =
    let later = complete key rest in
    if text_eq e.0 key then later else (e.0, filter (λ d. not (text_eq d key)) e.1) ∷ later

unfoldable pub complete_all : List Text → List Entry → List Entry
unfolding complete
complete_all [] remaining = remaining
complete_all (key ∷ keys) remaining = complete_all keys (complete key remaining)

-- The reasons of a wave for its keys.
abbrev pub dependencies_of : List SchedulableIssue → Text → List Text
dependencies_of sorted key = elim (find (λ issue. text_eq issue.key key) sorted) [
  | none ↦ []
  | some issue ↦ issue.dependency_candidates
]

abbrev pub wave_reason : List SchedulableIssue → ℕ → Text → Text
wave_reason sorted number key =
    if is_empty (dependencies_of sorted key)
    then key
      ++ (lit " has no unmet dependencies and no Wave "
          ++ (decimal number ++ lit " resource conflicts"))
    else key
      ++ (lit " dependencies are complete and no Wave "
          ++ (decimal number ++ lit " resource conflicts remain"))

abbrev pub wave_of : List SchedulableIssue → ℕ → List Text → ExecutionWave
wave_of sorted number keys = record {
  number = number;
  issue_keys = keys;
  reasons = map (wave_reason sorted number) keys;
}

pub record Progress : Type 0 where
  pub remaining : List Entry
  pub waves : List ExecutionWave

-- The body of `while`, from the selection on.
unfoldable pub add_wave : List SchedulableIssue → (Text → Text → Bool) → Progress → Progress
unfolding wave_keys complete_all
add_wave sorted conflicting p =
    let keys = wave_keys conflicting p.remaining in
    record {
      remaining = complete_all keys p.remaining;
      waves = p.waves ++ wave_of sorted (length p.waves + 1) keys ∷ [];
    }

-- `while`, with fuel for its rounds.
unfoldable pub run_waves :
    List SchedulableIssue → (Text → Text → Bool) → (fuel : ℕ) → Progress → Progress
unfolding ready_keys add_wave
run_waves sorted conflicting zero p = p
run_waves sorted conflicting (suc fuel) p =
    elim (is_empty p.remaining || is_empty (ready_keys p.remaining)) [
      | true ↦ p
      | false ↦ run_waves sorted conflicting fuel (add_wave sorted conflicting p)
    ]

unfoldable pub finished_waves :
    (Text → Text → Bool) → (Text → Text) → List SchedulableIssue → Progress
unfolding first_remaining run_waves analyze_issue_conflicts has_conflict
finished_waves locale_le to_lower_case issues =
    let sorted = sort_by (by_key locale_le) issues in
    let remaining = first_remaining sorted in
    run_waves sorted (has_conflict (analyze_issue_conflicts locale_le to_lower_case sorted))
      (length remaining) (record { remaining = remaining; waves = [] })

unfoldable pub schedule_execution_waves :
    (Text → Text → Bool) → (Text → Text) → List SchedulableIssue → ExecutionWavePlan
unfolding finished_waves analyze_issue_conflicts
schedule_execution_waves locale_le to_lower_case issues = record {
  conflicts = analyze_issue_conflicts locale_le to_lower_case (sort_by (by_key locale_le) issues);
  waves = (finished_waves locale_le to_lower_case issues).waves;
}
