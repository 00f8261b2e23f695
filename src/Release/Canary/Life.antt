-- ===== src/Release/Canary/Life.antt =====
-- The operations of release-center/domain.ts on a Canary, and the windows that they leave.
use ai_dev_harness.Shared.{
  ℕ, ◌+◌, ◌≤◌, ◌≡◌, ◌≢◌, refl, sym, ap, ap₂, ◌∙◌, subst, subst₂, false, Option, some, List, [], ◌∷◌,
  map, filter, length, All, All-append, All-map, filter-none, Text, ok, ◌==◌, arith,
}
use ai_dev_harness.Release.CanaryGate.Observation.{Contiguous, IsSound}
use ai_dev_harness.Release.Canary.{
  draft, observing, stopped, CanaryWindow, CanaryAggregate, CreateCanaryInput, create_canary,
  approve_canary, restart_canary,
}
use ai_dev_harness.Release.Canary.Observe.{
  NewEvent, windows_of, expected_start, record_canary_event, resolve_canary_alert,
}
use ai_dev_harness.Release.Canary.Finalize.{PassedGoalVerification, finalize_canary, report_window}
use ai_dev_harness.Release.Canary.Windows.{IsConsistent, IsRecorded, chain_extended}

create_fields :
    (input : CreateCanaryInput) (v : CanaryAggregate)
    → create_canary input ≡ ok v
    → (v.status ≡ draft) × (v.windows ≡ []) × (v.events ≡ [])
unfolding create_canary
create_fields input v h = ground arith

pub create-IsConsistent :
    (input : CreateCanaryInput) (v : CanaryAggregate) → create_canary input ≡ ok v → IsConsistent v
create-IsConsistent input v h =
    let f = create_fields input v h in
    record {
      past = subst (All (λ w. w.attempt ≤ v.attempt)) (sym f.1) tt;
      untouched = λ _. f.1;
      chain = λ started o _. absurd (ground arith);
    }

approve_fields :
    (v : CanaryAggregate) (actor reason : Text) (now : ℕ) (w : CanaryAggregate)
    → approve_canary v actor reason now ≡ ok w
    → (v.status ≡ draft)
      × (w.status ≡ observing)
      × (w.windows ≡ v.windows)
      × (w.events ≡ v.events)
      × (w.attempt ≡ v.attempt)
      × (w.started_at ≡ some now)
unfolding approve_canary
approve_fields v actor reason now w h = ground arith

-- An aggregate without a window of its attempt has an empty chain.
empty_chain :
    (v : CanaryAggregate) (started : ℕ)
    → windows_of v ≡ []
    → Contiguous 0 started
        (map report_window (windows_of v))
        (expected_start (windows_of v) started)
empty_chain v started e =
    subst
      (λ (ws : List CanaryWindow).
        Contiguous 0 started (map report_window ws) (expected_start ws started))
      (sym e) refl

pub approve-IsConsistent :
    (v : CanaryAggregate) (actor reason : Text) (now : ℕ) (w : CanaryAggregate)
    → IsConsistent v
    → approve_canary v actor reason now ≡ ok w
    → IsConsistent w
approve-IsConsistent v actor reason now w c h =
    let f = approve_fields v actor reason now w h in
    let none_yet : w.windows ≡ [] = f.2 ∙ c.untouched f.0 in
    record {
      past = subst (All (λ x. x.attempt ≤ w.attempt)) (sym none_yet) tt;
      untouched = λ _. none_yet;
      chain =
          λ started _ _. empty_chain w started (ap (filter (λ x. x.attempt == w.attempt)) none_yet);
    }

restart_fields :
    (v : CanaryAggregate) (actor reason : Text) (now : ℕ) (w : CanaryAggregate)
    → restart_canary v actor reason now ≡ ok w
    → (v.status ≡ stopped)
      × (w.status ≡ observing)
      × (w.windows ≡ v.windows)
      × (w.events ≡ v.events)
      × (w.attempt ≡ v.attempt + 1)
      × (w.started_at ≡ some now)
unfolding restart_canary
restart_fields v actor reason now w h = ground arith

pub restart-IsConsistent :
    (v : CanaryAggregate) (actor reason : Text) (now : ℕ) (w : CanaryAggregate)
    → IsConsistent v
    → restart_canary v actor reason now ≡ ok w
    → IsConsistent w
restart-IsConsistent v actor reason now w c h =
    let f = restart_fields v actor reason now w h in
    record {
      past = subst (All (λ x. x.attempt ≤ w.attempt)) (sym f.2) (
          All-map (λ x. x.attempt ≤ v.attempt) (λ x. x.attempt ≤ w.attempt)
            (λ x le. omega (arith, f.4)) v.windows c.past);
      untouched = λ d. absurd (ground arith);
      chain = λ started _ _. empty_chain w started (
          ap (filter (λ x. x.attempt == w.attempt)) f.2
          ∙ filter-none (λ x. x.attempt == w.attempt) v.windows
              (All-map (λ x. x.attempt ≤ v.attempt) (λ x. (x.attempt == w.attempt) ≡ false)
                (λ x le. ground (arith, f.4)) v.windows c.past));
    }

-- The window was appended and the Canary may have stopped.
pub window-IsConsistent :
    (v : CanaryAggregate) (now : ℕ) (w : CanaryAggregate)
    → IsConsistent v
    → IsRecorded v now w
    → IsConsistent w
window-IsConsistent v now w c r =
    let x = r.window in
    subst IsConsistent (sym r.result) (record {
      past =
          All-append (λ y. y.attempt ≤ v.attempt) v.windows (x ∷ []) c.past
            (omega (arith, r.attempt), tt);
      untouched = λ d. absurd (ground arith);
      chain = λ started o s.
          let same : started ≡ r.started = ground arith in
          chain_extended v x started now r.attempt (c.chain started r.was_observing s) (
            subst
              (λ k.
                IsSound (length (windows_of v)) (expected_start (windows_of v) k) (report_window x))
              (sym same)
              (record {
                numbered = r.sequence;
                adjacent = r.adjacent;
                positive = omega (arith, r.positive, r.adjacent);
                bounded = omega (arith, r.bounded, r.adjacent);
                status_healthy = ground arith;
                no_p0 = ground arith;
                no_p1 = ground arith;
                backed = r.backed;
              }));
    })

-- An operation that leaves the windows, the attempt and the start alone and does not begin to
-- observe keeps the invariant.
kept-IsConsistent :
    (v w : CanaryAggregate)
    → IsConsistent v
    → w.windows ≡ v.windows
    → w.attempt ≡ v.attempt
    → w.started_at ≡ v.started_at
    → w.status ≢ draft
    → (w.status ≡ observing → v.status ≡ observing)
    → IsConsistent w
kept-IsConsistent v w c same_windows same_attempt same_start not_draft was =
    let current : windows_of w ≡ windows_of v =
      ap₂ (λ (k : ℕ) (ws : List CanaryWindow). filter (λ x. x.attempt == k) ws) same_attempt
        same_windows in
    record {
      past =
          subst₂ (λ k (ws : List CanaryWindow). All (λ x. x.attempt ≤ k) ws) (sym same_attempt)
            (sym same_windows) c.past;
      untouched = λ d. absurd (not_draft d);
      chain = λ started o s.
          subst
            (λ (ws : List CanaryWindow).
              Contiguous 0 started (map report_window ws) (expected_start ws started))
            (sym current) (c.chain started (was o) (sym same_start ∙ s));
    }

module _ (parse_date : Text → Option ℕ) where
  pub event-IsConsistent :
      (v : CanaryAggregate) (actor : Text) (e : NewEvent) (now : ℕ) (w : CanaryAggregate)
      → IsConsistent v
      → record_canary_event parse_date v actor e now ≡ ok w
      → IsConsistent w
  unfolding record_canary_event
  event-IsConsistent v actor e now w c h =
      kept-IsConsistent v w c (ground arith) (ground arith) (ground arith) (λ d. ground arith)
        (λ o. ground arith)

  pub resolve-IsConsistent :
      (v : CanaryAggregate) (event_id reason : Text) (now : ℕ) (w : CanaryAggregate)
      → IsConsistent v
      → resolve_canary_alert v event_id reason now ≡ ok w
      → IsConsistent w
  unfolding resolve_canary_alert
  resolve-IsConsistent v event_id reason now w c h =
      kept-IsConsistent v w c (ground arith) (ground arith) (ground arith) (λ d. ground arith)
        (λ o. ground arith)

  pub finalize-IsConsistent :
      (v : CanaryAggregate) (p : PassedGoalVerification) (now : ℕ) (w : CanaryAggregate)
      → IsConsistent v
      → finalize_canary parse_date v p now ≡ ok w
      → IsConsistent w
  unfolding finalize_canary
  finalize-IsConsistent v p now w c h =
      kept-IsConsistent v w c (ground arith) (ground arith) (ground arith) (λ d. ground arith)
        (λ o. ground arith)
