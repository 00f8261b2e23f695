-- ===== src/Release/CanaryGate/Observation.antt =====
-- The meaning of `validateObservation` of p12-canary-gate.ts.
use ai_dev_harness.Shared.{
  ℕ, ◌+◌, ◌*◌, ◌-◌, ◌≤◌, ◌<◌, ◌≡◌, ◌↔◌, List, [], ◌∷◌, ◌++◌, length, Text, ok, Result-cases, inl,
  inr, >>-eq-ok, arith,
}
use native.Mathlib.Decide.{dec_lt}
use ai_dev_harness.Release.Fields.{hour_ms}
use ai_dev_harness.Release.CanaryGate.{
  ReportWindow, CanaryReport, healthy, ObservationSummary, minimum_hours, check_refs, check_window,
  check_windows, validate_observation,
}

abbrev pub RefsAccepted : List Text → Type 0
RefsAccepted refs = check_refs refs ≡ ok tt

-- One window that begins at `start`: numbered, at most an hour long, healthy and backed by evidence.
pub record IsSound (index start : ℕ) (w : ReportWindow) : Type 0 where
  pub numbered : w.sequence ≡ index + 1
  pub adjacent : w.started_at ≡ start
  pub positive : start < w.ended_at
  pub bounded : w.ended_at ≤ start + hour_ms
  pub status_healthy : w.status ≡ healthy
  pub no_p0 : w.p0_count ≡ 0
  pub no_p1 : w.p1_count ≡ 0
  pub backed : RefsAccepted w.evidence_refs

-- The windows lead from `start` to `end` with no gap.
abbrev pub Contiguous : ℕ → ℕ → List ReportWindow → ℕ → Type 0
Contiguous index start [] end = start ≡ end
Contiguous index start (w ∷ ws) end =
    IsSound index start w × Contiguous (index + 1) w.ended_at ws end

check_window-IsSound :
    (index start : ℕ) (w : ReportWindow)
    → check_window index start w ≡ ok tt
    → IsSound index start w
unfolding check_window
check_window-IsSound index start w h = ground arith

check_window_complete :
    (index start : ℕ) (w : ReportWindow)
    → IsSound index start w
    → check_window index start w ≡ ok tt
unfolding check_window
check_window_complete index start w s = ground arith

-- The loop of the gate accepts exactly the contiguous healthy windows, and returns their end.
pub check_windows_iff :
    (index start : ℕ) (ws : List ReportWindow) (end : ℕ)
    → (check_windows index start ws ≡ ok end) ↔ Contiguous index start ws end
unfolding check_windows
check_windows_iff index start [] end = (λ h. ground arith, λ h. ground arith)
check_windows_iff index start (w ∷ ws) end = (
  λ h.
      let (first, rest) = >>-eq-ok (check_window index start w) _ h in
      (
        check_window-IsSound index start w first,
        (check_windows_iff (index + 1) w.ended_at ws end).0 rest,
      ),
  λ c. ground (
    arith,
    check_window_complete index start w c.0,
    (check_windows_iff (index + 1) w.ended_at ws end).1 c.1,
  ),
)

pub Contiguous-append :
    (index start : ℕ) (ws : List ReportWindow) (middle : ℕ) (w : ReportWindow)
    → Contiguous index start ws middle
    → IsSound (index + length ws) middle w
    → Contiguous index start (ws ++ w ∷ []) w.ended_at
Contiguous-append index start [] middle w c s = ground arith
Contiguous-append index start (x ∷ ws) middle w c s =
    (c.0, Contiguous-append (index + 1) x.ended_at ws middle w c.1 (ground arith))

-- Every moment of the observation lies in one of its windows.
pub Contiguous-covers :
    (index start : ℕ) (ws : List ReportWindow) (end t : ℕ)
    → Contiguous index start ws end
    → start ≤ t
    → t < end
    → (w : ReportWindow) × (w.started_at ≤ t) × (t < w.ended_at) × (w.status ≡ healthy)
Contiguous-covers index start [] end t c h k = absurd (omega arith)
Contiguous-covers index start (w ∷ ws) end t c h k = elim (dec_lt t w.ended_at) [
  | yes inside ↦ (w, omega arith, inside, c.0.status_healthy)
  | no outside ↦ Contiguous-covers (index + 1) w.ended_at ws end t c.1 (omega arith) k
]

-- What the observation check accepts, in full.
pub record IsObserved (report : CanaryReport) (now : ℕ) : Type 0 where
  pub hours : report.required_duration_hours ≡ minimum_hours
  pub past : report.ended_at ≤ now
  pub long : report.started_at + minimum_hours * hour_ms ≤ report.ended_at
  pub enough : minimum_hours ≤ length report.windows
  pub contiguous : Contiguous 0 report.started_at report.windows report.ended_at

abbrev pub summary_of : CanaryReport → ObservationSummary
summary_of report = record {
  duration_ms = report.ended_at - report.started_at;
  window_count = length report.windows;
}

-- The observation check accepts exactly the reports that ask for twelve hours, last as long, do not end
-- after now and have at least twelve windows, which cover them; it returns duration and count.
pub validate_observation_iff :
    (report : CanaryReport) (now : ℕ) (s : ObservationSummary)
    → (validate_observation report now ≡ ok s) ↔ (IsObserved report now × (s ≡ summary_of report))
unfolding validate_observation
validate_observation_iff report now s = (
  λ h. elim (Result-cases (check_windows 0 report.started_at report.windows)) [
    | inl (end, found) ↦ (
      record {
        hours = ground arith;
        past = ground arith;
        long = ground arith;
        enough = ground arith;
        contiguous =
            (check_windows_iff 0 report.started_at report.windows report.ended_at).0 (ground arith);
      },
      ground arith,
    )
    | inr (e, failed) ↦ absurd (ground arith)
  ],
  λ p. ground (
    arith,
    (check_windows_iff 0 report.started_at report.windows report.ended_at).1 p.0.contiguous,
  ),
)
