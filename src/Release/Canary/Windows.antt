-- ===== src/Release/Canary/Windows.antt =====
-- The windows of the current attempt of a Canary, and what `recordCanaryWindow` appends to them.
use mathlib.Core.List.{map-append}
use ai_dev_harness.Shared.{
  ℕ, ◌+◌, ◌≤◌, ◌<◌, ◌≡◌, refl, sym, ap, ◌∙◌, subst, subst₂, not, Option, none, some, List, [], ◌∷◌,
  ◌++◌, map, length, All, filter-append, last?-concat, length-map, Text, ok, >>=-eq-ok,
  throw_if-eq-ok, ◌==◌, ◌||◌, leb, ltb, arith,
}
use ai_dev_harness.Release.Fields.{
  refused, bad_sequence, bad_window, future_window, hour_ms, iso, count, evidence_refs, id,
}
use ai_dev_harness.Release.Fields.Laws.{evidence_refs-checked}
use ai_dev_harness.Release.CanaryGate.{check_refs}
use ai_dev_harness.Release.CanaryGate.Observation.{
  IsSound, Contiguous, Contiguous-append, RefsAccepted,
}
use ai_dev_harness.Release.Canary.{draft, observing, CanaryWindow, CanaryAggregate}
use ai_dev_harness.Release.Canary.Observe.{
  NewWindow, numbered, windows_of, expected_start, with_window, record_canary_window, window_status,
  observation_start,
}
use ai_dev_harness.Release.Canary.Finalize.{report_window}

pub record IsConsistent (v : CanaryAggregate) : Type 0 where
  pub past : All (λ w. w.attempt ≤ v.attempt) v.windows
  pub untouched : v.status ≡ draft → v.windows ≡ []
  pub chain :
      (started : ℕ)
      → v.status ≡ observing
      → v.started_at ≡ some started
      → Contiguous 0 started
          (map report_window (windows_of v))
          (expected_start (windows_of v) started)

refs_accepted :
    (value : List Text) (label : Prim.Native.String.String) (refs : List Text)
    → evidence_refs value label ≡ ok refs
    → RefsAccepted refs
unfolding check_refs
refs_accepted value label refs h = ground (arith, evidence_refs-checked value label refs h)

-- A new window of the current attempt extends the chain.
pub chain_extended :
    (v : CanaryAggregate) (w : CanaryWindow) (started now : ℕ)
    → w.attempt ≡ v.attempt
    → Contiguous 0 started
        (map report_window (windows_of v))
        (expected_start (windows_of v) started)
    → IsSound (length (windows_of v)) (expected_start (windows_of v) started) (report_window w)
    → Contiguous 0 started
        (map report_window (windows_of (with_window v w now)))
        (expected_start (windows_of (with_window v w now)) started)
chain_extended v w started now same c s =
    let current = windows_of v in
    let appended : windows_of (with_window v w now) ≡ current ++ w ∷ [] =
      filter-append (λ x. x.attempt == v.attempt) v.windows (w ∷ []) ∙ ground arith in
    let P = λ (ws : List CanaryWindow).
      Contiguous 0 started (map report_window ws) (expected_start ws started) in
    let ends : expected_start (current ++ w ∷ []) started ≡ w.ended_at =
      ap (λ (o : Option CanaryWindow). elim o [ none ↦ started | some x ↦ x.ended_at ])
        (last?-concat current w) in
    let count_eq : length current ≡ 0 + length (map report_window current) =
      omega (arith, length-map report_window current) in
    let extended : P (current ++ w ∷ []) =
      subst₂ (Contiguous 0 started) (sym (map-append report_window current (w ∷ []))) (sym ends) (
        Contiguous-append 0 started (map report_window current) (expected_start current started)
          (report_window w) c
          (subst (λ k. IsSound k (expected_start current started) (report_window w)) count_eq s)) in
    subst P (sym appended) extended

-- What a recorded window is, and what the code checked of it.
pub record IsRecorded (v : CanaryAggregate) (now : ℕ) (v' : CanaryAggregate) : Type 0 where
  pub window : CanaryWindow
  pub started : ℕ
  pub was_observing : v.status ≡ observing
  pub had_started : v.started_at ≡ some started
  pub attempt : window.attempt ≡ v.attempt
  pub sequence : window.sequence ≡ length (windows_of v) + 1
  pub adjacent : window.started_at ≡ expected_start (windows_of v) started
  pub positive : window.started_at < window.ended_at
  pub bounded : window.ended_at ≤ window.started_at + hour_ms
  pub ended : window.ended_at ≤ now
  pub backed : RefsAccepted window.evidence_refs
  pub result : v' ≡ with_window v window now

observation_started :
    (v : CanaryAggregate) (started : ℕ)
    → observation_start v ≡ ok started
    → (v.status ≡ observing) × (v.started_at ≡ some started)
observation_started v started h = ground arith

module _ (parse_date : Text → Option ℕ) where
  pub record_window-IsRecorded :
      (v : CanaryAggregate) (actor : Text) (nw : NewWindow) (now : ℕ) (v' : CanaryAggregate)
      → record_canary_window parse_date v actor nw now ≡ ok v'
      → IsRecorded v now v'
  unfolding record_canary_window
  record_window-IsRecorded v actor nw now v' h =
      let (started, h1, r1) = >>=-eq-ok (observation_start v) _ h in
      let (h2, r2) =
        throw_if-eq-ok (not (numbered nw.sequence (length (windows_of v) + 1)))
          (refused bad_sequence) _ r1 in
      let (started_at, h3, r3) = >>=-eq-ok (iso parse_date nw.started_at "window.startedAt") _ r2 in
      let (ended_at, h4, r4) = >>=-eq-ok (iso parse_date nw.ended_at "window.endedAt") _ r3 in
      let (h5, r5) =
        throw_if-eq-ok
          (not (started_at == expected_start (windows_of v) started)
            || leb ended_at started_at
            || ltb (started_at + hour_ms) ended_at)
          (refused bad_window) _ r4 in
      let (h6, r6) = throw_if-eq-ok (ltb now ended_at) (refused future_window) _ r5 in
      let (status, h7, r7) = >>=-eq-ok (window_status nw.status) _ r6 in
      let (p0_count, h8, r8) = >>=-eq-ok (count nw.p0_count "window.p0Count") _ r7 in
      let (p1_count, h9, r9) = >>=-eq-ok (count nw.p1_count "window.p1Count") _ r8 in
      let (refs, h10, r10) =
        >>=-eq-ok (evidence_refs nw.evidence_refs "window.evidenceRefs") _ r9 in
      let (recorded_by, h11, r11) = >>=-eq-ok (id actor "actorId") _ r10 in
      let begun = observation_started v started h1 in
      record {
        window = record {
          attempt = v.attempt;
          sequence = length (windows_of v) + 1;
          started_at = started_at;
          ended_at = ended_at;
          status = status;
          p0_count = p0_count;
          p1_count = p1_count;
          evidence_refs = refs;
          recorded_by = recorded_by;
        };
        started = started;
        was_observing = begun.0;
        had_started = begun.1;
        attempt = refl;
        sequence = refl;
        adjacent = ground arith;
        positive = ground arith;
        bounded = ground arith;
        ended = ground arith;
        backed = refs_accepted nw.evidence_refs "window.evidenceRefs" refs h10;
        result = ground arith;
      }
