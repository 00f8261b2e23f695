-- ===== src/Release/CanaryGate/Tests.antt =====
-- The Canary gate at the report of the sample Canary.
use ai_dev_harness.Shared.{◌≡◌, ◌*◌, ◌↔◌, refl, ok, trim, text_eq, starts_with, ends_with}
use ai_dev_harness.Release.Sample.{now, final_report}
use ai_dev_harness.Release.Fields.{hour_ms, is_safe_id, is_evidence_ref}
use ai_dev_harness.Release.CanaryGate.{
  check_id, is_placeholder, check_texts, check_text, validate_observation, check_windows,
  check_window, check_refs,
}
use ai_dev_harness.Release.CanaryGate.Report.{
  ReportSummary, validate_canary_report, check_header, validate_defects, validate_alerts,
  validate_interventions,
}
use ai_dev_harness.Release.CanaryGate.Observation.{
  Contiguous, check_windows_iff, IsObserved, summary_of, validate_observation_iff,
}
use ai_dev_harness.Release.CanaryGate.Soundness.{IsReleasable, canary_report-IsReleasable}

abbrev final_summary : ReportSummary
final_summary = record {
  observation = record { duration_ms = 12 * hour_ms; window_count = 12 };
  p2_count = 1;
}

final_report-ok : validate_canary_report final_report now ≡ ok final_summary
unfolding validate_canary_report check_header check_id is_placeholder is_safe_id check_texts
    check_text validate_observation check_windows check_window check_refs validate_defects
    validate_alerts validate_interventions is_evidence_ref trim starts_with ends_with text_eq
final_report-ok = refl

canary_report-IsReleasable_example : IsReleasable final_report now
canary_report-IsReleasable_example =
    canary_report-IsReleasable final_report now final_summary final_report-ok

windows-ok : check_windows 0 (10 * hour_ms) final_report.windows ≡ ok (22 * hour_ms)
unfolding validate_canary_report check_header check_id is_placeholder is_safe_id check_texts
    check_text validate_observation check_windows check_window check_refs validate_defects
    validate_alerts validate_interventions is_evidence_ref trim starts_with ends_with text_eq
windows-ok = refl

final-Contiguous : Contiguous 0 (10 * hour_ms) final_report.windows (22 * hour_ms)
final-Contiguous =
    (check_windows_iff 0 (10 * hour_ms) final_report.windows (22 * hour_ms)).0 windows-ok

validate_observation_iff_example :
    (validate_observation final_report now ≡ ok (summary_of final_report))
    ↔ (IsObserved final_report now × (summary_of final_report ≡ summary_of final_report))
validate_observation_iff_example =
    validate_observation_iff final_report now (summary_of final_report)
