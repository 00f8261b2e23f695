-- ===== src/Release/Sample.antt =====
-- A Canary that is observed for twelve hours, for the tests of the release centre.
use ai_dev_harness.Shared.{
  ℕ, ◌+◌, ◌-◌, ◌*◌, true, false, Option, none, some, List, [], ◌∷◌, Text, lit, Result, ok, err,
  ◌>>=◌, map,
}
use ai_dev_harness.Release.Fields.{Checked, whole, hour_ms, is_digit}
use ai_dev_harness.Release.CanaryGate.{CanaryReport, ReportWindow, healthy, p2}
use ai_dev_harness.Release.Canary.{draft, CanaryAggregate, CreateCanaryInput, approve_canary}
use ai_dev_harness.Release.Canary.Observe.{
  NewWindow, NewEvent, new_defect, record_canary_window, record_canary_event,
}
use ai_dev_harness.Release.Canary.Finalize.{PassedGoalVerification, Observed, finalize_canary}

-- A date is written as its hours: `14Z`.
unfoldable pub read_hours : ℕ → Text → Option ℕ
read_hours n [] = some (n * hour_ms)
read_hours n (c ∷ s) = elim (is_digit c) [
  | true ↦ read_hours (10 * n + (c - b'0')) s
  | false ↦ some (n * hour_ms)
]

abbrev pub parse_hours : Text → Option ℕ
parse_hours = read_hours 0

abbrev pub new_canary : CreateCanaryInput
new_canary = record {
  canary_id = lit "canary-7";
  organization_id = lit "acme";
  project_id = lit "tools";
  goal_id = lit "goal-31";
  candidate_commit = lit "0123456789abcdef0123456789abcdef01234567";
  goal_contract_version = whole 3;
  allowed_areas = lit "reports" ∷ [];
  excluded_areas = lit "billing" ∷ [];
  success_conditions = lit "no severe defect" ∷ [];
  stop_conditions = lit "any alert" ∷ [];
  rollback_runbook = lit "docs/runbooks/rollback.md";
  stop_runbook = lit "docs/runbooks/stop.md";
  created_by = lit "alice";
  now = 0;
}

abbrev pub bob : Text
bob = lit "bob"

abbrev pub evidence : List Text
evidence = lit "artifact:log-1" ∷ []

abbrev pub window : ℕ → (started_at ended_at : Text) → NewWindow
window n started_at ended_at = record {
  sequence = whole n;
  started_at = started_at;
  ended_at = ended_at;
  status = lit "healthy";
  p0_count = whole 0;
  p1_count = whole 0;
  evidence_refs = evidence;
}

abbrev pub twelve_windows : List NewWindow
twelve_windows =
    window 1 (lit "10Z") (lit "11Z")
    ∷ window 2 (lit "11Z") (lit "12Z")
    ∷ window 3 (lit "12Z") (lit "13Z")
    ∷ window 4 (lit "13Z") (lit "14Z")
    ∷ window 5 (lit "14Z") (lit "15Z")
    ∷ window 6 (lit "15Z") (lit "16Z")
    ∷ window 7 (lit "16Z") (lit "17Z")
    ∷ window 8 (lit "17Z") (lit "18Z")
    ∷ window 9 (lit "18Z") (lit "19Z")
    ∷ window 10 (lit "19Z") (lit "20Z")
    ∷ window 11 (lit "20Z") (lit "21Z")
    ∷ window 12 (lit "21Z") (lit "22Z")
    ∷ []

abbrev pub now : ℕ
now = 23 * hour_ms

unfoldable pub record_windows : CanaryAggregate → List NewWindow → Checked CanaryAggregate
record_windows v [] = ok v
record_windows v (w ∷ ws) =
    record_canary_window parse_hours v bob w now >>= λ u. record_windows u ws

abbrev pub verification : PassedGoalVerification
verification = record { id = lit "check-5"; verified_at = lit "22Z"; evidence_refs = evidence }

-- A P2 defect with its workaround.
abbrev pub slow_page : NewEvent
slow_page = record {
  id = lit "slow-page";
  observed_at = lit "12Z";
  owner_id = lit "carol";
  evidence_refs = evidence;
  kind = new_defect (lit "P2") (lit "open") (some (lit "reload"));
}

-- What a call returned, or the other value where it threw.
abbrev result_or {ℓ κ} : {E : Type ℓ} {A : Type κ} → A → Result E A → A
result_or a (ok b) = b
result_or a (err e) = a

abbrev pub created : CanaryAggregate
created = record {
  id = lit "canary-7";
  organization_id = lit "acme";
  project_id = lit "tools";
  goal_id = lit "goal-31";
  candidate_commit = lit "0123456789abcdef0123456789abcdef01234567";
  status = draft;
  attempt = 1;
  goal_contract_version = 3;
  allowed_areas = lit "reports" ∷ [];
  excluded_areas = lit "billing" ∷ [];
  success_conditions = lit "no severe defect" ∷ [];
  stop_conditions = lit "any alert" ∷ [];
  rollback_runbook = lit "docs/runbooks/rollback.md";
  stop_runbook = lit "docs/runbooks/stop.md";
  owner_id = none;
  approved_at = none;
  started_at = none;
  ended_at = none;
  report = none;
  windows = [];
  events = [];
  version = 1;
  created_by = lit "alice";
  created_at = 0;
  updated_at = 0;
}

unfoldable pub approved_canary : CanaryAggregate
unfolding approve_canary
approved_canary = result_or created (approve_canary created bob (lit "low risk") (10 * hour_ms))

unfoldable pub watched_canary : CanaryAggregate
unfolding approved_canary record_windows record_canary_window
watched_canary = result_or created (record_windows approved_canary twelve_windows)

unfoldable pub noted_canary : CanaryAggregate
unfolding watched_canary record_canary_event
noted_canary = result_or created (record_canary_event parse_hours watched_canary bob slow_page now)

unfoldable pub passed_canary : CanaryAggregate
unfolding noted_canary finalize_canary
passed_canary = result_or created (finalize_canary parse_hours noted_canary verification now)

-- What `finalizeCanary` reads of the observed Canary, and the report that it stores.
abbrev pub seen : Observed
seen = record {
  owner_id = bob;
  approved_at = 10 * hour_ms;
  started_at = 10 * hour_ms;
  ended_at = 22 * hour_ms;
}

abbrev seen_window : ℕ → ReportWindow
seen_window n = record {
  sequence = n;
  started_at = (9 + n) * hour_ms;
  ended_at = (10 + n) * hour_ms;
  status = healthy;
  p0_count = 0;
  p1_count = 0;
  evidence_refs = evidence;
}

abbrev pub final_report : CanaryReport
final_report = record {
  schema_version = lit "harness.p12-canary-report.v1";
  canary_id = lit "canary-7";
  status = lit "passed";
  project_id = lit "tools";
  internal = true;
  risk = lit "low";
  owner_id = bob;
  approved_at = 10 * hour_ms;
  goal_id = lit "goal-31";
  goal_contract_version = 3;
  allowed_areas = lit "reports" ∷ [];
  excluded_areas = lit "billing" ∷ [];
  success = lit "no severe defect" ∷ [];
  stop = lit "any alert" ∷ [];
  rollback_runbook = lit "docs/runbooks/rollback.md";
  stop_runbook = lit "docs/runbooks/stop.md";
  required_duration_hours = 12;
  started_at = 10 * hour_ms;
  ended_at = 22 * hour_ms;
  windows = map seen_window (1 ∷ 2 ∷ 3 ∷ 4 ∷ 5 ∷ 6 ∷ 7 ∷ 8 ∷ 9 ∷ 10 ∷ 11 ∷ 12 ∷ []);
  defects =
      record {
        id = lit "slow-page";
        severity = p2;
        owner_id = lit "carol";
        status = lit "open";
        workaround = some (lit "reload");
      }
      ∷ [];
  alerts = [];
  interventions = [];
  verification_status = lit "passed";
  verification_id = lit "check-5";
  verification_completed_at = 22 * hour_ms;
  verification_evidence_refs = evidence;
  gaps = [];
  result = lit "passed";
}
