-- ===== src/Waves/Tests.antt =====
-- Three Issues, of which two claim one public interface and one waits for another.
use ai_dev_harness.Shared.{
  decimal, decimal_within, ℕ, ◌≡◌, ◌≢◌, refl, sym, subst, true, false, none, List, [], ◌∷◌, Memᴰ,
  length, Text, lit, text_eq, text_eq_iff, text_mem, text_mem_iff, trim, trim_start, is_space,
  starts_with, ends_with, unit_le, insert_by, sort_by, distinct_from, arith,
}
use ai_dev_harness.Waves.{
  SchedulableIssue, join, single_slashes, normalized_path, without_glob, directory_of,
  intersections, directory_keys, findings, conflict_for, conflicts_with, conflicts_among,
  analyze_issue_conflicts,
}
use ai_dev_harness.Waves.Schedule.{
  ExecutionWave, Progress, set_entry, new_map, known_keys, first_remaining, ready_keys,
  has_conflict, select_from, wave_keys, complete, complete_all, wave_of, add_wave, run_waves,
  finished_waves, schedule_execution_waves,
}
use ai_dev_harness.Waves.Ending.{stops, run_ends}
use ai_dev_harness.Waves.Dependencies.{keys_of}
use ai_dev_harness.Waves.Plan.{wave_dependencies, acyclic_scheduled}
use ai_dev_harness.Waves.Conflicts.{wave_conflict_free}

unequal : (s t : Text) → text_eq s t ≡ false → s ≢ t
unequal s t h e = let k = (text_eq_iff s t).1 e in absurd (ground (arith, k, h))

abbrev issue : Text → List Text → List Text → List Text → SchedulableIssue
issue key dependencies files interfaces = record {
  key = key;
  dependency_candidates = dependencies;
  expected_files = files;
  conflict_resources = record {
    directories = [];
    public_interfaces = interfaces;
    database_objects = [];
    shared_configurations = [];
    landing_order_keys = [];
  };
}

abbrev api : SchedulableIssue
api = issue (lit "API") [] (lit "./src//api.ts" ∷ []) (lit " Login " ∷ [])

abbrev core : SchedulableIssue
core = issue (lit "CORE") (lit "API" ∷ lit "GONE" ∷ []) (lit "src/core.ts" ∷ []) []

abbrev web : SchedulableIssue
web = issue (lit "WEB") [] (lit "src/web.ts" ∷ []) (lit "Login" ∷ [])

abbrev issues : List SchedulableIssue
issues = web ∷ core ∷ api ∷ []

abbrev same : Text → Text
same s = s

abbrev first_wave : ExecutionWave
first_wave = wave_of (api ∷ core ∷ web ∷ []) 1 (lit "API" ∷ [])

abbrev second_wave : ExecutionWave
second_wave = wave_of (api ∷ core ∷ web ∷ []) 2 (lit "CORE" ∷ lit "WEB" ∷ [])

waves_lem : (schedule_execution_waves unit_le same issues).waves ≡ first_wave ∷ second_wave ∷ []
unfolding schedule_execution_waves finished_waves run_waves add_wave wave_keys ready_keys
    select_from complete_all complete first_remaining new_map set_entry sort_by insert_by unit_le
    distinct_from analyze_issue_conflicts conflicts_among conflicts_with conflict_for findings
    intersections directory_keys directory_of normalized_path single_slashes without_glob trim
    trim_start is_space text_eq starts_with ends_with has_conflict decimal decimal_within join
waves_lem = refl

normalized_lem : normalized_path (lit " .\\src//api.ts") ≡ lit "src/api.ts"
unfolding normalized_path single_slashes trim trim_start is_space starts_with
normalized_lem = refl

web_core : lit "WEB" ≢ lit "CORE"
unfolding text_eq
web_core = unequal (lit "WEB") (lit "CORE") refl

web_api : lit "WEB" ≢ lit "API"
unfolding text_eq
web_api = unequal (lit "WEB") (lit "API") refl

core_api : lit "CORE" ≢ lit "API"
unfolding text_eq
core_api = unequal (lit "CORE") (lit "API") refl

wave_dependencies_example : Memᴰ (lit "API") (keys_of (first_wave ∷ []))
wave_dependencies_example =
    wave_dependencies unit_le same issues (first_wave ∷ []) second_wave [] core (lit "API")
      (
        (λ _. refl, (λ h. absurd (web_core h), (λ h. absurd (web_api h), tt))),
        (
          (λ h. absurd (web_core (sym h)), (λ _. refl, (λ h. absurd (core_api h), tt))),
          ((λ h. absurd (web_api (sym h)), (λ h. absurd (core_api (sym h)), (λ _. refl, tt))), tt),
        ),
      )
      waves_lem (Memᴰ.tail (Memᴰ.head refl)) (Memᴰ.head refl) (Memᴰ.head refl)
      (Memᴰ.tail (Memᴰ.tail (Memᴰ.head refl)))

in_plan : Memᴰ second_wave (schedule_execution_waves unit_le same issues).waves
in_plan = subst (λ ws. Memᴰ second_wave ws) (sym waves_lem) (Memᴰ.tail (Memᴰ.head refl))

wave_conflict_free_example : conflict_for same core web ≡ none
wave_conflict_free_example =
    wave_conflict_free unit_le same issues second_wave core web
      ((refl, (refl, (refl, tt))), ((refl, (refl, (refl, tt))), ((refl, (refl, (refl, tt))), tt)))
      in_plan (Memᴰ.tail (Memᴰ.head refl)) (Memᴰ.head refl) (λ h. web_core (sym h)) (Memᴰ.head refl)
      (Memᴰ.tail (Memᴰ.head refl))

-- CORE ranks above the Issue that it waits for.
abbrev rank : Text → ℕ
rank key = length key

unknown : Memᴰ (lit "GONE") (known_keys issues) → ⊥
unfolding text_eq
unknown m =
    let k = (text_mem_iff (lit "GONE") (known_keys issues)).1 m in
    let h : text_mem (lit "GONE") (known_keys issues) ≡ false = refl in
    absurd (ground (arith, k, h))

acyclic_scheduled_example :
    Memᴰ (lit "CORE") (keys_of (schedule_execution_waves unit_le same issues).waves)
acyclic_scheduled_example =
    acyclic_scheduled unit_le same issues rank core
      (tt, ((λ _. omega arith, (λ m. absurd (unknown m), tt)), (tt, tt)))
      (Memᴰ.tail (Memᴰ.head refl))

abbrev start : Progress
start = record { remaining = (lit "A", []) ∷ (lit "B", lit "A" ∷ []) ∷ []; waves = [] }

run_ends_example : stops [] (λ _ _. false) (run_waves [] (λ _ _. false) 2 start) ≡ true
run_ends_example = run_ends [] (λ _ _. false) 2 start (omega arith)
