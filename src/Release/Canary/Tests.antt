-- ===== src/Release/Canary/Tests.antt =====
-- The Canary at concrete inputs.
use ai_dev_harness.Shared.{
  ◌≡◌, ◌*◌, trim, text_eq, starts_with, ends_with, refl, List, [], ◌∷◌, lit, ok, arith, >>=-eq-ok,
  some, subst, map, ◌+◌,
}
use ai_dev_harness.Release.Sample.{
  parse_hours, read_hours, new_canary, bob, evidence, twelve_windows, now, record_windows,
  verification, slow_page, created, seen, final_report, approved_canary, watched_canary,
  noted_canary, passed_canary,
}
use ai_dev_harness.Release.Fields.{
  hour_ms, is_commit_sha, is_safe_id, id, required, strings, evidence_refs, runbook, count, iso,
  is_evidence_ref,
}
use ai_dev_harness.Release.Canary.{
  observing, CanaryAggregate, passed, create_canary, approve_canary,
}
use ai_dev_harness.Release.Canary.Observe.{
  NewWindow, windows_of, record_canary_window, record_canary_event, event_kind, event_workaround,
}
use ai_dev_harness.Release.Canary.Finalize.{
  finalize_canary, observed, canary_report, report_window, report_defects, report_alerts,
  report_interventions,
}
use ai_dev_harness.Release.CanaryGate.{
  CanaryReport, check_id, is_placeholder, check_texts, check_text, validate_observation,
  check_windows, check_window, check_refs,
}
use ai_dev_harness.Release.CanaryGate.Report.{
  validate_canary_report, check_header, validate_defects, validate_alerts, validate_interventions,
}
use ai_dev_harness.Release.CanaryGate.Observation.{summary_of}
use ai_dev_harness.Release.CanaryGate.Soundness.{IsReleasable}
use ai_dev_harness.Release.Canary.Windows.{IsConsistent}
use ai_dev_harness.Release.Canary.Reach.{
  CanaryReach, create, next, approve, window, event, CanaryReach-IsConsistent,
}
use ai_dev_harness.Release.Canary.Outcome.{
  finalize_observation_accepted, finalize_canary-IsReleasable,
}
use ai_dev_harness.Release.Canary.Events.{record_event_unique, HasUniqueEvents}

created-ok : create_canary new_canary ≡ ok created
unfolding create_canary is_commit_sha is_safe_id id required strings runbook trim text_eq
    starts_with ends_with
created-ok = refl

approved-ok : approve_canary created bob (lit "low risk") (10 * hour_ms) ≡ ok approved_canary
unfolding approved_canary approve_canary required id is_safe_id trim
approved-ok = refl

watched-ok : record_windows approved_canary twelve_windows ≡ ok watched_canary
unfolding approved_canary watched_canary record_windows record_canary_window read_hours iso
    evidence_refs strings is_evidence_ref count id required is_safe_id approve_canary trim ends_with
    text_eq
watched-ok = refl

noted-ok : record_canary_event parse_hours watched_canary bob slow_page now ≡ ok noted_canary
unfolding approved_canary watched_canary noted_canary record_windows record_canary_window read_hours
    iso evidence_refs strings is_evidence_ref count id required is_safe_id approve_canary trim
    ends_with text_eq record_canary_event event_kind event_workaround
noted-ok = refl

passed-ok : finalize_canary parse_hours noted_canary verification now ≡ ok passed_canary
unfolding approved_canary watched_canary noted_canary passed_canary record_windows
    record_canary_window read_hours iso evidence_refs strings is_evidence_ref count id required
    is_safe_id approve_canary trim ends_with text_eq record_canary_event event_kind event_workaround
    finalize_canary observed validate_canary_report check_header check_id is_placeholder check_texts
    check_text validate_observation check_windows check_window check_refs validate_defects
    report_defects validate_alerts report_alerts validate_interventions report_interventions
passed-ok = refl

-- A recorded list of windows is a sequence of steps.
record_windows-CanaryReach :
    (v : CanaryAggregate) (ws : List NewWindow) (u : CanaryAggregate)
    → CanaryReach parse_hours v
    → record_windows v ws ≡ ok u
    → CanaryReach parse_hours u
unfolding record_windows
record_windows-CanaryReach v [] u r h = subst (CanaryReach parse_hours) (ground arith) r
record_windows-CanaryReach v (w ∷ ws) u r h =
    let (t, first, rest) = >>=-eq-ok (record_canary_window parse_hours v bob w now) _ h in
    record_windows-CanaryReach t ws u (next r (window bob w now first)) rest

watched_reach : CanaryReach parse_hours watched_canary
watched_reach =
    record_windows-CanaryReach approved_canary twelve_windows watched_canary
      (next (create new_canary created-ok)
        (approve bob (lit "low risk") (10 * hour_ms) approved-ok))
      watched-ok

noted_reach : CanaryReach parse_hours noted_canary
noted_reach = next watched_reach (event bob slow_page now noted-ok)

CanaryReach-IsConsistent_example : IsConsistent noted_canary
CanaryReach-IsConsistent_example = CanaryReach-IsConsistent parse_hours noted_reach

finalize_canary-IsReleasable_example :
    (report : CanaryReport) × (passed_canary.report ≡ some report)
    × (passed_canary.status ≡ passed)
    × (passed_canary.version ≡ noted_canary.version + 1)
    × (report.windows ≡ map report_window (windows_of noted_canary))
    × IsReleasable report now
finalize_canary-IsReleasable_example =
    finalize_canary-IsReleasable parse_hours noted_canary verification now passed_canary passed-ok

observed-ok : observed noted_canary ≡ ok seen
unfolding approved_canary watched_canary noted_canary record_windows record_canary_window read_hours
    iso evidence_refs strings is_evidence_ref count id required is_safe_id approve_canary trim
    starts_with ends_with text_eq record_canary_event event_kind event_workaround finalize_canary
    observed validate_canary_report check_header check_id is_placeholder check_texts check_text
    validate_observation check_windows check_window check_refs validate_defects report_defects
    validate_alerts report_alerts validate_interventions report_interventions
observed-ok = refl

finalize_observation_accepted_example :
    validate_observation
      (canary_report noted_canary seen (lit "check-5") (22 * hour_ms) evidence)
      now
    ≡ ok (summary_of (canary_report noted_canary seen (lit "check-5") (22 * hour_ms) evidence))
finalize_observation_accepted_example =
    finalize_observation_accepted parse_hours noted_canary seen (lit "check-5") (22 * hour_ms)
      evidence now noted_reach observed-ok (omega arith)

record_event_unique_example : HasUniqueEvents noted_canary
unfolding approved_canary watched_canary record_windows record_canary_window read_hours iso
    evidence_refs strings is_evidence_ref count id required is_safe_id approve_canary trim
    starts_with ends_with text_eq record_canary_event event_kind event_workaround finalize_canary
    observed validate_canary_report check_header check_id is_placeholder check_texts check_text
    validate_observation check_windows check_window check_refs validate_defects report_defects
    validate_alerts report_alerts validate_interventions report_interventions
record_event_unique_example =
    record_event_unique parse_hours watched_canary bob slow_page now noted_canary (λ i. omega arith)
      refl noted-ok

reported : canary_report noted_canary seen (lit "check-5") (22 * hour_ms) evidence ≡ final_report
unfolding approved_canary watched_canary noted_canary record_windows record_canary_window read_hours
    iso evidence_refs strings is_evidence_ref count id required is_safe_id approve_canary trim
    starts_with ends_with text_eq record_canary_event event_kind event_workaround finalize_canary
    observed validate_canary_report check_header check_id is_placeholder check_texts check_text
    validate_observation check_windows check_window check_refs validate_defects report_defects
    validate_alerts report_alerts validate_interventions report_interventions
reported = refl

noted_observing :
    (noted_canary.status ≡ observing) × (noted_canary.started_at ≡ some (10 * hour_ms))
unfolding approved_canary watched_canary noted_canary record_windows record_canary_window read_hours
    iso evidence_refs strings is_evidence_ref count id required is_safe_id approve_canary trim
    starts_with ends_with text_eq record_canary_event event_kind event_workaround finalize_canary
    observed validate_canary_report check_header check_id is_placeholder check_texts check_text
    validate_observation check_windows check_window check_refs validate_defects report_defects
    validate_alerts report_alerts validate_interventions report_interventions
noted_observing = (refl, refl)
