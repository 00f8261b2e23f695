-- ===== src/Release/CanaryGate/Soundness.antt =====
-- The meaning of the gate of p12-canary-gate.ts.
use ai_dev_harness.Shared.{
  ℕ, ◌≤◌, ◌≡◌, ◌≢◌, true, false, none, List, [], ◌∷◌, any, text_mem, ok, >>=-eq-ok, >>-eq-ok,
  throw_if-eq-ok, ltb, All, arith,
}
use ai_dev_harness.Release.Fields.{refused, report_invalid}
use ai_dev_harness.Release.CanaryGate.{
  CanaryReport, ReportDefect, ReportAlert, p2, validate_observation,
}
use ai_dev_harness.Release.CanaryGate.Observation.{IsObserved, validate_observation_iff}
use ai_dev_harness.Release.CanaryGate.Report.{
  is_severe, check_defect, check_alert, validate_defects, validate_alerts, validate_interventions,
  check_header, check_verification, validate_canary_report, ReportSummary,
}

-- A defect that a passed Canary may have: no P0 or P1, and a P2 with a workaround.
pub record IsTolerable (d : ReportDefect) : Type 0 where
  pub not_severe : is_severe d.severity ≡ false
  pub worked_around : d.severity ≡ p2 → d.workaround ≢ none

pub record IsClosed (a : ReportAlert) : Type 0 where
  pub not_severe : is_severe a.severity ≡ false
  pub resolved : a.resolved ≡ true

check_defect-IsTolerable : (d : ReportDefect) (n : ℕ) → check_defect d ≡ ok n → IsTolerable d
unfolding check_defect
check_defect-IsTolerable d n h = ground arith

check_alert-IsClosed : (a : ReportAlert) → check_alert a ≡ ok tt → IsClosed a
unfolding check_alert
check_alert-IsClosed a h = ground arith

defects-All : (ds : List ReportDefect) (n : ℕ) → validate_defects ds ≡ ok n → All IsTolerable ds
unfolding validate_defects
defects-All [] n h = tt
defects-All (d ∷ ds) n h =
    let (k, first, rest) = >>=-eq-ok (check_defect d) _ h in
    let (m, second, done) = >>=-eq-ok (validate_defects ds) _ rest in
    (check_defect-IsTolerable d k first, defects-All ds m second)

alerts-All : (list : List ReportAlert) → validate_alerts list ≡ ok tt → All IsClosed list
unfolding validate_alerts
alerts-All [] h = tt
alerts-All (a ∷ rest) h =
    let (first, second) = >>-eq-ok (check_alert a) _ h in
    (check_alert-IsClosed a first, alerts-All rest second)

-- The substance of a report that the gate accepts at the time `now`.
pub record IsReleasable (r : CanaryReport) (now : ℕ) : Type 0 where
  pub observation : IsObserved r now
  pub approved_first : r.approved_at ≤ r.started_at
  pub defects : All IsTolerable r.defects
  pub alerts : All IsClosed r.alerts
  pub verified_from : r.started_at ≤ r.verification_completed_at
  pub verified_until : r.verification_completed_at ≤ r.ended_at
  pub scope : any (λ area. text_mem area r.excluded_areas) r.allowed_areas ≡ false

header_scope :
    (r : CanaryReport)
    → check_header r ≡ ok tt
    → any (λ area. text_mem area r.excluded_areas) r.allowed_areas ≡ false
unfolding check_header
header_scope r h = ground arith

verification_times :
    (r : CanaryReport)
    → check_verification r ≡ ok tt
    → (r.started_at ≤ r.verification_completed_at) × (r.verification_completed_at ≤ r.ended_at)
unfolding check_verification
verification_times r h = ground arith

-- A report that passes the gate covers at least twelve hours of contiguous healthy windows, was
-- approved before, has no P0 or P1 defect or alert, only resolved alerts, a workaround for each P2,
-- a verification within the observation, and a scope that excludes nothing that it allows.
pub canary_report-IsReleasable :
    (r : CanaryReport) (now : ℕ) (s : ReportSummary)
    → validate_canary_report r now ≡ ok s
    → IsReleasable r now
unfolding validate_canary_report
canary_report-IsReleasable r now s h =
    let (h1, r1) = >>-eq-ok (check_header r) _ h in
    let (o, h2, r2) = >>=-eq-ok (validate_observation r now) _ r1 in
    let (h3, r3) =
      throw_if-eq-ok (ltb r.started_at r.approved_at)
        (refused (report_invalid "Canary owner approval must precede observation")) _ r2 in
    let (n, h4, r4) = >>=-eq-ok (validate_defects r.defects) _ r3 in
    let (h5, r5) = >>-eq-ok (validate_alerts r.alerts) _ r4 in
    let (h6, r6) = >>-eq-ok (validate_interventions r.interventions) _ r5 in
    let (h7, r7) = >>-eq-ok (check_verification r) _ r6 in
    let times = verification_times r h7 in
    record {
      observation = ((validate_observation_iff r now o).0 h2).0;
      approved_first = ground arith;
      defects = defects-All r.defects n h4;
      alerts = alerts-All r.alerts h5;
      verified_from = times.0;
      verified_until = times.1;
      scope = header_scope r h1;
    }
