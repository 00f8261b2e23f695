-- ===== src/Release/Canary/Finalize.antt =====
-- `finalizeCanary` of release-center/domain.ts: the report, its gate, and the passed Canary.
use ai_dev_harness.Shared.{
  ℕ, ◌+◌, ◌*◌, true, not, ◌||◌, Option, none, some, List, [], ◌∷◌, ltb, map, filter, length, last?,
  Text, lit, ok, err, ◌>>=◌, ◌>>◌, throw_if, ◌==◌,
}
use ai_dev_harness.Release.Fields.{
  Checked, refused, not_eligible, too_short, hour_ms, id, evidence_refs, iso,
}
use ai_dev_harness.Release.CanaryGate.{
  ReportWindow, ReportDefect, ReportAlert, ReportIntervention, CanaryReport, minimum_hours,
}
use ai_dev_harness.Release.CanaryGate.Report.{validate_canary_report}
use ai_dev_harness.Release.Canary.{
  passed, CanaryWindow, CanaryEvent, defect, alert, intervention, CanaryAggregate, is_observing,
}
use ai_dev_harness.Release.Canary.Observe.{windows_of}

pub record PassedGoalVerification : Type 0 where
  pub id : Text
  pub verified_at : Text
  pub evidence_refs : List Text

abbrev pub report_window : CanaryWindow → ReportWindow
report_window w = record {
  sequence = w.sequence;
  started_at = w.started_at;
  ended_at = w.ended_at;
  status = w.status;
  p0_count = w.p0_count;
  p1_count = w.p1_count;
  evidence_refs = w.evidence_refs;
}

-- The defects, the alerts and the interventions of a list of events, as the report has them.
unfoldable pub report_defects : List CanaryEvent → List ReportDefect
report_defects [] = []
report_defects (e ∷ es) =
    let rest = report_defects es in
    elim e.kind [
      | defect severity status workaround ↦
          record {
            id = e.id;
            severity = severity;
            owner_id = e.owner_id;
            status = status;
            workaround = workaround;
          }
          ∷ rest
      | _ ↦ rest
    ]

unfoldable pub report_alerts : List CanaryEvent → List ReportAlert
report_alerts [] = []
report_alerts (e ∷ es) =
    let rest = report_alerts es in
    elim e.kind [
      | alert severity resolved ↦
          record {
            id = e.id;
            severity = severity;
            observed_at = e.observed_at;
            owner_id = e.owner_id;
            resolved = resolved;
            evidence_refs = e.evidence_refs;
          }
          ∷ rest
      | _ ↦ rest
    ]

unfoldable pub report_interventions : List CanaryEvent → List ReportIntervention
report_interventions [] = []
report_interventions (e ∷ es) =
    let rest = report_interventions es in
    elim e.kind [
      | intervention reason ↦
          record {
            id = e.id;
            observed_at = e.observed_at;
            owner_id = e.owner_id;
            reason = reason;
            evidence_refs = e.evidence_refs;
          }
          ∷ rest
      | _ ↦ rest
    ]

abbrev pub events_of : CanaryAggregate → List CanaryEvent
events_of value = filter (λ e. e.attempt == value.attempt) value.events

-- What the guards of `finalizeCanary` read: owner, approval, start and end of the observation.
pub record Observed : Type 0 where
  pub owner_id : Text
  pub approved_at : ℕ
  pub started_at : ℕ
  pub ended_at : ℕ

eligible : {A : Type 0} → Option A → Checked A
eligible none = err (refused not_eligible)
eligible (some a) = ok a

long_enough : Option CanaryWindow → Checked ℕ
long_enough none = err (refused too_short)
long_enough (some w) = ok w.ended_at

unfoldable pub observed : CanaryAggregate → Checked Observed
unfolding eligible long_enough
observed value = do
  throw_if (not (is_observing value.status)) (refused not_eligible)
  started_at ← eligible value.started_at
  approved_at ← eligible value.approved_at
  owner_id ← eligible value.owner_id
  let windows = windows_of value
  ended_at ← long_enough (last? windows)
  throw_if (ltb (length windows) 12 || ltb ended_at (started_at + 12 * hour_ms)) (refused too_short)
  ok (record {
    owner_id = owner_id;
    approved_at = approved_at;
    started_at = started_at;
    ended_at = ended_at;
  })

abbrev pub canary_report :
    CanaryAggregate
    → Observed
    → (verification_id : Text) (completed_at : ℕ) (refs : List Text) → CanaryReport
canary_report value o verification_id completed_at refs = record {
  schema_version = lit "harness.p12-canary-report.v1";
  canary_id = value.id;
  status = lit "passed";
  project_id = value.project_id;
  internal = true;
  risk = lit "low";
  owner_id = o.owner_id;
  approved_at = o.approved_at;
  goal_id = value.goal_id;
  goal_contract_version = value.goal_contract_version;
  allowed_areas = value.allowed_areas;
  excluded_areas = value.excluded_areas;
  success = value.success_conditions;
  stop = value.stop_conditions;
  rollback_runbook = value.rollback_runbook;
  stop_runbook = value.stop_runbook;
  required_duration_hours = minimum_hours;
  started_at = o.started_at;
  ended_at = o.ended_at;
  windows = map report_window (windows_of value);
  defects = report_defects (events_of value);
  alerts = report_alerts (events_of value);
  interventions = report_interventions (events_of value);
  verification_status = lit "passed";
  verification_id = verification_id;
  verification_completed_at = completed_at;
  verification_evidence_refs = refs;
  gaps = [];
  result = lit "passed";
}

module _ (parse_date : Text → Option ℕ) where
  unfoldable pub finalize_canary :
      CanaryAggregate → PassedGoalVerification → (now : ℕ) → Checked CanaryAggregate
  finalize_canary value verification now = do
    o ← observed value
    verification_id ← id verification.id "verification.id"
    completed_at ← iso parse_date verification.verified_at "verification.verifiedAt"
    refs ← evidence_refs verification.evidence_refs "verification.evidenceRefs"
    let report = canary_report value o verification_id completed_at refs
    summary ← validate_canary_report report now
    ok (record value {
      status = passed;
      ended_at = some o.ended_at;
      report = some report;
      version = value.version + 1;
      updated_at = now;
    })
