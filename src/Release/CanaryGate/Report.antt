-- ===== src/Release/CanaryGate/Report.antt =====
-- The rest of p12-canary-gate.ts: defects, alerts, interventions and the report as a whole.
use ai_dev_harness.Shared.{
  ℕ, ◌+◌, Bool, true, false, not, ◌||◌, none, some, List, [], ◌∷◌, ◌==◌, ltb, any, length, text_mem,
  text_eq, Text, lit, starts_with, ends_with, ok, ◌>>=◌, ◌>>◌,
}
use ai_dev_harness.Release.Fields.{Checked}
use ai_dev_harness.Release.CanaryGate.{
  Severity, p0, p1, p2, p3, ReportDefect, ReportAlert, ReportIntervention, CanaryReport, reject_if,
  check_id, check_text, check_texts, check_refs, validate_observation, ObservationSummary,
}

abbrev pub is_severe : Severity → Bool
is_severe p0 = true
is_severe p1 = true
is_severe p2 = false
is_severe p3 = false

-- A P2 defect needs an owner and a workaround.
pub check_p2 : ReportDefect → Severity → Checked ℕ
check_p2 d p2 = do
  check_id d.owner_id true
  elim d.workaround [ none ↦ reject_if true "workaround" | some w ↦ check_text w ]
  ok 1
check_p2 d _ = ok 0

unfoldable pub check_defect : ReportDefect → Checked ℕ
unfolding check_p2
check_defect d = do
  check_id d.id false
  reject_if (is_severe d.severity) "Canary cannot pass with any P0/P1 defect"
  counted ← check_p2 d d.severity
  check_text d.status
  ok counted

-- The number of P2 defects.
unfoldable pub validate_defects : List ReportDefect → Checked ℕ
unfolding check_defect
validate_defects [] = ok 0
validate_defects (d ∷ ds) = do
  counted ← check_defect d
  rest ← validate_defects ds
  ok (counted + rest)

unfoldable pub check_alert : ReportAlert → Checked (Unit {0})
check_alert a = do
  check_id a.id false
  check_id a.owner_id true
  check_refs a.evidence_refs
  reject_if (is_severe a.severity) "Canary cannot pass with any P0/P1 alert"
  reject_if (not a.resolved) "Canary alerts must be resolved"

check_intervention : ReportIntervention → Checked (Unit {0})
check_intervention i = do
  check_id i.id false
  check_id i.owner_id true
  check_refs i.evidence_refs
  check_text i.reason

-- `validateOperationalEvents(report.alerts, "alerts")`
unfoldable pub validate_alerts : List ReportAlert → Checked (Unit {0})
unfolding check_alert
validate_alerts [] = ok tt
validate_alerts (a ∷ rest) = do check_alert a; validate_alerts rest

-- `validateOperationalEvents(report.interventions, "interventions")`
unfoldable pub validate_interventions : List ReportIntervention → Checked (Unit {0})
unfolding check_intervention
validate_interventions [] = ok tt
validate_interventions (i ∷ rest) = do check_intervention i; validate_interventions rest

check_runbook : Text → Checked (Unit {0})
check_runbook path = do
  check_text path
  reject_if (not (starts_with path (lit "docs/runbooks/")) || not (ends_with path (lit ".md")))
      "must reference a repository Runbook"

-- The head of the report: what stands above the observation.
unfoldable pub check_header : CanaryReport → Checked (Unit {0})
unfolding check_runbook
check_header r = do
  reject_if (not (text_eq r.schema_version (lit "harness.p12-canary-report.v1")))
      "unsupported canary schema"
  check_id r.canary_id false
  reject_if (not (text_eq r.status (lit "passed")) || not (text_eq r.result (lit "passed")))
      "Canary report is not passed"
  check_id r.project_id true
  check_id r.owner_id true
  reject_if (not r.internal || not (text_eq r.risk (lit "low")))
      "Canary project must be approved as low-risk and internal"
  check_id r.goal_id true
  reject_if (ltb r.goal_contract_version 1) "scope.goalContractVersion must be positive"
  check_texts r.allowed_areas
  check_texts r.excluded_areas
  reject_if (any (λ area. text_mem area r.excluded_areas) r.allowed_areas)
      "Canary allowed and excluded scope overlap"
  check_texts r.success
  check_texts r.stop
  check_runbook r.rollback_runbook
  check_runbook r.stop_runbook

unfoldable pub check_verification : CanaryReport → Checked (Unit {0})
check_verification r = do
  reject_if (not (text_eq r.verification_status (lit "passed"))) "Goal Verification must pass"
  check_id r.verification_id true
  reject_if
      (ltb r.verification_completed_at r.started_at || ltb r.ended_at r.verification_completed_at)
      "Goal Verification must complete during the Canary window"
  check_refs r.verification_evidence_refs
  reject_if (not (length r.gaps == 0)) "Canary report has unresolved gaps"

pub record ReportSummary : Type 0 where
  pub observation : ObservationSummary
  pub p2_count : ℕ

unfoldable pub validate_canary_report : CanaryReport → (now : ℕ) → Checked ReportSummary
unfolding check_verification
validate_canary_report r now = do
  check_header r
  observation ← validate_observation r now
  reject_if (ltb r.started_at r.approved_at) "Canary owner approval must precede observation"
  p2_count ← validate_defects r.defects
  validate_alerts r.alerts
  validate_interventions r.interventions
  check_verification r
  ok (record { observation = observation; p2_count = p2_count })
