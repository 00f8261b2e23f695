-- ===== src/Release/CanaryGate.antt =====
-- prototype/web-ui/app/reliability/p12-canary-gate.ts: the Canary report, and the gate that it has
-- to pass. The report is typed, so the checks that a value is an object, an array, a text or an
-- integer hold; every other check is made in the code's order. Durations are in milliseconds.
pub mod Report
pub mod Observation
pub mod Soundness
mod Tests
use ai_dev_harness.Shared.{
  ℕ, ◌+◌, ◌-◌, ◌*◌, Bool, true, false, not, ◌&&◌, ◌||◌, Option, List, [], ◌∷◌, ◌==◌, leb, ltb, any,
  length, text_mem, text_eq, Text, lit, trim, ok, ◌>>=◌, ◌>>◌, throw_if, String, if◌then◌else◌,
}
use ai_dev_harness.Release.Fields.{
  Checked, refused, report_invalid, hour_ms, is_upper, is_safe_id, is_evidence_ref,
}

pub data WindowStatus : Type 0 where
  healthy unhealthy : WindowStatus

pub data Severity : Type 0 where
  p0 p1 p2 p3 : Severity

pub record ReportWindow : Type 0 where
  pub sequence : ℕ
  pub started_at : ℕ
  pub ended_at : ℕ
  pub status : WindowStatus
  pub p0_count : ℕ
  pub p1_count : ℕ
  pub evidence_refs : List Text

pub record ReportDefect : Type 0 where
  pub id : Text
  pub severity : Severity
  pub owner_id : Text
  pub status : Text
  pub workaround : Option Text

pub record ReportAlert : Type 0 where
  pub id : Text
  pub severity : Severity
  pub observed_at : ℕ
  pub owner_id : Text
  pub resolved : Bool
  pub evidence_refs : List Text

pub record ReportIntervention : Type 0 where
  pub id : Text
  pub observed_at : ℕ
  pub owner_id : Text
  pub reason : Text
  pub evidence_refs : List Text

pub record CanaryReport : Type 0 where
  pub schema_version : Text
  pub canary_id : Text
  pub status : Text
  pub project_id : Text
  pub internal : Bool
  pub risk : Text
  pub owner_id : Text
  pub approved_at : ℕ
  pub goal_id : Text
  pub goal_contract_version : ℕ
  pub allowed_areas : List Text
  pub excluded_areas : List Text
  pub success : List Text
  pub stop : List Text
  pub rollback_runbook : Text
  pub stop_runbook : Text
  pub required_duration_hours : ℕ
  pub started_at : ℕ
  pub ended_at : ℕ
  pub windows : List ReportWindow
  pub defects : List ReportDefect
  pub alerts : List ReportAlert
  pub interventions : List ReportIntervention
  pub verification_status : Text
  pub verification_id : Text
  pub verification_completed_at : ℕ
  pub verification_evidence_refs : List Text
  pub gaps : List Text
  pub result : Text

abbrev pub minimum_hours : ℕ
minimum_hours = 12

-- `if (bad) throw new Error(message)`
abbrev pub reject_if : Bool → String → Checked (Unit {0})
reject_if bad message = throw_if bad (refused (report_invalid message))

abbrev is_blank : Text → Bool
is_blank s = length (trim s) == 0

abbrev is_separator : ℕ → Bool
is_separator c = c == b'-' || c == b'_' || c == b'.'

abbrev to_lower : ℕ → ℕ
to_lower c = if is_upper c then c + 32 else c

-- The parts of a text between `-`, `_` and `.`, in lower case; `part` is the current one.
segments : Text → List Text
segments [] = [] ∷ []
segments (c ∷ s) = elim (segments s) [
  | [] ↦ []
  | part ∷ rest ↦ if is_separator c then [] ∷ part ∷ rest else (to_lower c ∷ part) ∷ rest
]

abbrev placeholders : List Text
placeholders =
    lit "test" ∷ lit "example" ∷ lit "placeholder" ∷ lit "unknown" ∷ lit "tbd" ∷ lit "todo" ∷ []

-- `PLACEHOLDER`: a part of the text is one of the words.
unfoldable pub is_placeholder : Text → Bool
unfolding segments
is_placeholder s = any (λ part. text_mem part placeholders) (segments s)

unfoldable pub check_id : Text → Bool → Checked (Unit {0})
check_id text reject_placeholder =
    reject_if (is_blank text || not (is_safe_id text) || reject_placeholder && is_placeholder text)
      "invalid or a placeholder"

unfoldable pub check_text : Text → Checked (Unit {0})
check_text text = reject_if (is_blank text) "must be a non-empty string"

unfoldable pub check_texts : List Text → Checked (Unit {0})
check_texts texts =
    reject_if (length texts == 0 || any is_blank texts) "must be a non-empty string array"

unfoldable pub check_refs : List Text → Checked (Unit {0})
unfolding check_texts
check_refs refs = do
  check_texts refs
  reject_if (any (λ ref. not (is_evidence_ref ref)) refs) "contains an invalid evidence reference"

abbrev pub is_healthy : WindowStatus → Bool
is_healthy healthy = true
is_healthy unhealthy = false

unfoldable pub check_window : ℕ → ℕ → ReportWindow → Checked (Unit {0})
check_window index previous_end w = do
  reject_if (not (w.sequence == index + 1)) "window sequence is not contiguous"
  reject_if
      (not (w.started_at == previous_end)
        || leb w.ended_at w.started_at
        || ltb (w.started_at + hour_ms) w.ended_at)
      "windows must be contiguous and at most one hour"
  reject_if (not (is_healthy w.status) || not (w.p0_count == 0) || not (w.p1_count == 0))
      "contains a P0/P1 or unhealthy window"
  check_refs w.evidence_refs

-- The `forEach` of `validateObservation`: it returns the last `previousEnd`.
unfoldable pub check_windows : ℕ → ℕ → List ReportWindow → Checked ℕ
check_windows index previous_end [] = ok previous_end
check_windows index previous_end (w ∷ ws) = do
  check_window index previous_end w
  check_windows (index + 1) w.ended_at ws

pub record ObservationSummary : Type 0 where
  pub duration_ms : ℕ
  pub window_count : ℕ

unfoldable pub validate_observation : CanaryReport → (now : ℕ) → Checked ObservationSummary
validate_observation report now = do
  reject_if (not (report.required_duration_hours == minimum_hours)) "exactly the 12-hour minimum"
  reject_if (ltb now report.ended_at) "observation cannot end in the future"
  reject_if (ltb report.ended_at (report.started_at + minimum_hours * hour_ms))
      "at least 12 continuous hours"
  reject_if (ltb (length report.windows) minimum_hours) "at least 12 evidence windows"
  previous_end ← check_windows 0 report.started_at report.windows
  reject_if (not (previous_end == report.ended_at)) "windows do not cover the declared end time"
  ok (record {
    duration_ms = report.ended_at - report.started_at;
    window_count = length report.windows;
  })
