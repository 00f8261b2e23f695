-- ===== src/Release/Canary/Outcome.antt =====
-- What `finalizeCanary` of release-center/domain.ts means on a reachable Canary.
use ai_dev_harness.Shared.{
  ℕ, ◌+◌, ◌*◌, ◌≤◌, ◌≡◌, refl, subst, Option, some, List, map, length, length-map, Text, ok,
  >>=-eq-ok, arith,
}
use ai_dev_harness.Release.Fields.{hour_ms, id, evidence_refs, iso}
use ai_dev_harness.Release.CanaryGate.{CanaryReport, validate_observation}
use ai_dev_harness.Release.CanaryGate.Observation.{Contiguous, summary_of, validate_observation_iff}
use ai_dev_harness.Release.CanaryGate.Report.{validate_canary_report}
use ai_dev_harness.Release.CanaryGate.Soundness.{IsReleasable, canary_report-IsReleasable}
use ai_dev_harness.Release.Canary.{observing, passed, CanaryAggregate}
use ai_dev_harness.Release.Canary.Observe.{windows_of, expected_start}
use ai_dev_harness.Release.Canary.Finalize.{
  PassedGoalVerification, Observed, observed, canary_report, report_window, finalize_canary,
}
use ai_dev_harness.Release.Canary.Reach.{CanaryReach, CanaryReach-IsConsistent}

-- What the guards of `finalizeCanary` establish.
record IsEligible (v : CanaryAggregate) (o : Observed) : Type 0 where
  was_observing : v.status ≡ observing
  started : v.started_at ≡ some o.started_at
  ended : expected_start (windows_of v) o.started_at ≡ o.ended_at
  enough : 12 ≤ length (windows_of v)
  long : o.started_at + 12 * hour_ms ≤ o.ended_at

observed-IsEligible : (v : CanaryAggregate) (o : Observed) → observed v ≡ ok o → IsEligible v o
unfolding observed
observed-IsEligible v o h = ground arith

module _ (parse_date : Text → Option ℕ) where
  -- A reachable Canary that is eligible has a report whose observation the gate accepts, whatever
  -- the verification, once the clock has passed the end of its last window.
  pub finalize_observation_accepted :
      (v : CanaryAggregate) (o : Observed) (vid : Text) (at : ℕ) (refs : List Text) (now : ℕ)
      → CanaryReach parse_date v
      → observed v ≡ ok o
      → o.ended_at ≤ now
      → validate_observation (canary_report v o vid at refs) now
        ≡ ok (summary_of (canary_report v o vid at refs))
  finalize_observation_accepted v o vid at refs now r h past =
      let e = observed-IsEligible v o h in
      let c = CanaryReach-IsConsistent parse_date r in
      (validate_observation_iff (canary_report v o vid at refs) now _).1 (
        record {
          hours = refl;
          past = past;
          long = e.long;
          enough = omega (arith, e.enough, length-map report_window (windows_of v));
          contiguous =
              subst (Contiguous 0 o.started_at (map report_window (windows_of v))) e.ended
                (c.chain o.started_at e.was_observing e.started);
        },
        refl,
      )

  -- A Canary that finalization passes has stored a report of its own windows that the gate accepted:
  -- twelve healthy hours without a gap, all before now, no severe defect or alert, alerts resolved.
  pub finalize_canary-IsReleasable :
      (v : CanaryAggregate) (p : PassedGoalVerification) (now : ℕ) (w : CanaryAggregate)
      → finalize_canary parse_date v p now ≡ ok w
      → (report : CanaryReport) × (w.report ≡ some report)
        × (w.status ≡ passed)
        × (w.version ≡ v.version + 1)
        × (report.windows ≡ map report_window (windows_of v))
        × IsReleasable report now
  unfolding finalize_canary
  finalize_canary-IsReleasable v p now w h =
      let (o, h1, r1) = >>=-eq-ok (observed v) _ h in
      let (vid, h2, r2) = >>=-eq-ok (id p.id "verification.id") _ r1 in
      let (at, h3, r3) = >>=-eq-ok (iso parse_date p.verified_at "verification.verifiedAt") _ r2 in
      let (refs, h4, r4) =
        >>=-eq-ok (evidence_refs p.evidence_refs "verification.evidenceRefs") _ r3 in
      let report = canary_report v o vid at refs in
      let (s, h5, r5) = >>=-eq-ok (validate_canary_report report now) _ r4 in
      (
        report,
        ground arith,
        ground arith,
        ground arith,
        refl,
        canary_report-IsReleasable report now s h5,
      )
