-- ===== src/Release/Canary/Reach.antt =====
-- The operations of release-center/domain.ts on a Canary as a step relation.
use ai_dev_harness.Shared.{ℕ, ◌≡◌, Option, Text, ok, arith}
use ai_dev_harness.Release.Canary.{
  passed, CanaryAggregate, CreateCanaryInput, create_canary, approve_canary, restart_canary,
}
use ai_dev_harness.Release.Canary.Observe.{
  NewWindow, NewEvent, record_canary_window, record_canary_event, resolve_canary_alert,
}
use ai_dev_harness.Release.Canary.Finalize.{PassedGoalVerification, finalize_canary, observed}
use ai_dev_harness.Release.Canary.Windows.{IsConsistent, record_window-IsRecorded}
use ai_dev_harness.Release.Canary.Life.{
  create-IsConsistent, approve-IsConsistent, restart-IsConsistent, window-IsConsistent,
  event-IsConsistent, resolve-IsConsistent, finalize-IsConsistent,
}

module _ (parse_date : Text → Option ℕ) where
  -- One operation of the release centre on a Canary, at any time and with any input.
  pub data CanaryStep (v w : CanaryAggregate) : Type 0 where
    approve :
        (actor reason : Text) (now : ℕ) → approve_canary v actor reason now ≡ ok w → CanaryStep v w
    restart :
        (actor reason : Text) (now : ℕ) → restart_canary v actor reason now ≡ ok w → CanaryStep v w
    window :
        (actor : Text) (nw : NewWindow) (now : ℕ)
        → record_canary_window parse_date v actor nw now ≡ ok w
        → CanaryStep v w
    event :
        (actor : Text) (e : NewEvent) (now : ℕ)
        → record_canary_event parse_date v actor e now ≡ ok w
        → CanaryStep v w
    resolve :
        (event_id reason : Text) (now : ℕ)
        → resolve_canary_alert v event_id reason now ≡ ok w
        → CanaryStep v w
    finalize :
        (p : PassedGoalVerification) (now : ℕ)
        → finalize_canary parse_date v p now ≡ ok w
        → CanaryStep v w

  pub data CanaryReach : CanaryAggregate → Type 0 where
    create :
        (input : CreateCanaryInput) {v : CanaryAggregate}
        → create_canary input ≡ ok v
        → CanaryReach v
    next : {v w : CanaryAggregate} → CanaryReach v → CanaryStep v w → CanaryReach w

  CanaryStep-IsConsistent :
      {v w : CanaryAggregate} → CanaryStep v w → IsConsistent v → IsConsistent w
  CanaryStep-IsConsistent {v} {w} (approve actor reason now h) c =
      approve-IsConsistent v actor reason now w c h
  CanaryStep-IsConsistent {v} {w} (restart actor reason now h) c =
      restart-IsConsistent v actor reason now w c h
  CanaryStep-IsConsistent {v} {w} (window actor nw now h) c =
      window-IsConsistent v now w c (record_window-IsRecorded parse_date v actor nw now w h)
  CanaryStep-IsConsistent {v} {w} (event actor e now h) c =
      event-IsConsistent parse_date v actor e now w c h
  CanaryStep-IsConsistent {v} {w} (resolve i r now h) c =
      resolve-IsConsistent parse_date v i r now w c h
  CanaryStep-IsConsistent {v} {w} (finalize p now h) c =
      finalize-IsConsistent parse_date v p now w c h

  -- Every Canary that the operations can produce is consistent: no window has a later attempt than
  -- the Canary, a draft has no window, and while it observes the windows of the attempt follow one
  -- another from its start with no gap, numbered, at most an hour long, healthy and with evidence.
  pub CanaryReach-IsConsistent : {v : CanaryAggregate} → CanaryReach v → IsConsistent v
  CanaryReach-IsConsistent (create input {v} h) = create-IsConsistent input v h
  CanaryReach-IsConsistent (next r s) = CanaryStep-IsConsistent s (CanaryReach-IsConsistent r)

  -- A passed Canary is final: no operation succeeds on it.
  pub canary_passed_final : (v w : CanaryAggregate) → v.status ≡ passed → ¬ CanaryStep v w
  unfolding approve_canary restart_canary record_canary_window record_canary_event
      resolve_canary_alert finalize_canary observed
  canary_passed_final v w p (approve actor reason now h) = ground arith
  canary_passed_final v w p (restart actor reason now h) = ground arith
  canary_passed_final v w p (window actor nw now h) = ground arith
  canary_passed_final v w p (event actor e now h) = ground arith
  canary_passed_final v w p (resolve i r now h) = ground arith
  canary_passed_final v w p (finalize q now h) = ground arith
