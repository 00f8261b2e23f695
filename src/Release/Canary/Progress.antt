-- ===== src/Release/Canary/Progress.antt =====
-- `canaryProgress` of release-center/domain.ts. The completed hours are counted in milliseconds: the
-- source divides each window's length by an hour, and adds up the quotients.
use ai_dev_harness.Shared.{
  ℕ, ◌+◌, ◌-◌, ◌*◌, ◌≤◌, ◌≡◌, some, List, [], ◌∷◌, map, length, Text, Option, arith,
}
use ai_dev_harness.Release.Fields.{hour_ms}
use ai_dev_harness.Release.CanaryGate.Observation.{Contiguous}
use ai_dev_harness.Release.Canary.{observing, CanaryWindow, CanaryAggregate}
use ai_dev_harness.Release.Canary.Observe.{windows_of, expected_start}
use ai_dev_harness.Release.Canary.Finalize.{report_window}
use ai_dev_harness.Release.Canary.Reach.{CanaryReach, CanaryReach-IsConsistent}

pub record CanaryProgress : Type 0 where
  pub completed_ms : ℕ
  pub required_hours : ℕ
  pub window_count : ℕ

-- The `reduce` over the windows.
unfoldable pub total_ms : List CanaryWindow → ℕ
total_ms [] = 0
total_ms (w ∷ ws) = w.ended_at - w.started_at + total_ms ws

unfoldable pub canary_progress : CanaryAggregate → CanaryProgress
unfolding total_ms
canary_progress value = record {
  completed_ms = total_ms (windows_of value);
  required_hours = 12;
  window_count = length (windows_of value);
}

-- Windows without a gap add up to what lies between their ends.
total_spans :
    (index start : ℕ) (ws : List CanaryWindow) (end : ℕ)
    → Contiguous index start (map report_window ws) end
    → (start + total_ms ws ≡ end) × (total_ms ws ≤ length ws * hour_ms)
unfolding total_ms
total_spans index start [] end c = (omega (arith, c), omega arith)
total_spans index start (w ∷ ws) end c =
    let (s, rest) = c in
    let (sum, bound) = total_spans (index + 1) w.ended_at ws end rest in
    (
      omega (arith, sum, s.adjacent, s.positive),
      omega (arith, bound, s.adjacent, s.positive, s.bounded),
    )

-- The progress that a reachable Canary shows while it observes is the time from its start to the end of
-- its last window, none of it counted twice or left out, and at most an hour for each window.
pub canary_progress_lem :
    (parse_date : Text → Option ℕ) (v : CanaryAggregate) (started : ℕ)
    → CanaryReach parse_date v
    → v.status ≡ observing
    → v.started_at ≡ some started
    → (started + (canary_progress v).completed_ms ≡ expected_start (windows_of v) started)
      × ((canary_progress v).completed_ms ≤ (canary_progress v).window_count * hour_ms)
unfolding canary_progress
canary_progress_lem parse_date v started r o e =
    total_spans 0 started (windows_of v) (expected_start (windows_of v) started)
      ((CanaryReach-IsConsistent parse_date r).chain started o e)
