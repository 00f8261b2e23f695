-- ===== src/StateMachine/Run/Diagram.antt =====
-- The diagram of the Run machine of state-machines.ts, drawn as a step relation.
use ai_dev_harness.Shared.{ℕ, ◌+◌, ◌≡◌, false, ◌↔◌, ok, arith, All}
use ai_dev_harness.StateMachine.{
  completion_evidence, reason_provided, StateTransitionResult, TransitionStateInput, Guards,
  transition_state, guard_blocks,
}
use ai_dev_harness.StateMachine.Laws.{transition_state-IsAccepted, accepted-All}
use ai_dev_harness.StateMachine.Holds.{Holds, Holds-of_unblocked}
use ai_dev_harness.StateMachine.Run
use ai_dev_harness.StateMachine.Run.{
  RunStatus, RunStatus-discrete, run_status_eq, run_state_machine,
}

pub data IsOpen : RunStatus → Type 0 where
  open_queued : IsOpen Run.queued
  open_running : IsOpen Run.running

-- The edges, each with the guard that it needs.
pub data Step (guards : Guards) : RunStatus → RunStatus → Type 0 where
  begin : Step guards Run.queued Run.running
  succeed : Holds guards completion_evidence → Step guards Run.running Run.succeeded
  fail : Holds guards reason_provided → Step guards Run.running Run.failed
  cancel : {s : RunStatus} → IsOpen s → Holds guards reason_provided → Step guards s Run.cancelled

run_edges :
    (guards : Guards)
    → All
        (λ t. guard_blocks t.guard guards ≡ false → Step guards t.from t.to)
        run_state_machine.transitions
unfolding run_state_machine
run_edges guards = (
  λ _. begin,
  (
    λ h. succeed (Holds-of_unblocked guards _ h),
    (
      λ h. fail (Holds-of_unblocked guards _ h),
      (
        λ h. cancel open_queued (Holds-of_unblocked guards _ h),
        (λ h. cancel open_running (Holds-of_unblocked guards _ h), tt),
      ),
    ),
  ),
)

abbrev pub input : RunStatus → RunStatus → ℕ → ℕ → Guards → TransitionStateInput RunStatus
input from to v w guards = record {
  current_state = from;
  current_version = v;
  expected_version = w;
  next_state = to;
  guards = guards;
}

abbrev pub moved : RunStatus → RunStatus → ℕ → StateTransitionResult RunStatus
moved from to v = record {
  previous_state = from;
  state = to;
  previous_version = v;
  version = v + 1;
}

Step-accepted :
    (from to : RunStatus) (v : ℕ) (guards : Guards)
    → Step guards from to
    → transition_state run_state_machine (input from to v v guards) ≡ ok (moved from to v)
unfolding transition_state run_state_machine RunStatus-discrete
Step-accepted from to v guards begin = ground arith
Step-accepted from to v guards (succeed h) = ground arith
Step-accepted from to v guards (fail h) = ground arith
Step-accepted from to v guards (cancel open_queued h) = ground arith
Step-accepted from to v guards (cancel open_running h) = ground arith

-- A transition of a Run is accepted exactly when the expected version is the current one and the
-- diagram has the edge with its guard holding; the result names the next state and adds one to the
-- version.
pub run_transition_iff :
    (from to : RunStatus) (v w : ℕ) (guards : Guards) (r : StateTransitionResult RunStatus)
    → (transition_state run_state_machine (input from to v w guards) ≡ ok r)
      ↔ ((v ≡ w) × Step guards from to × (r ≡ moved from to v))
run_transition_iff from to v w guards r = (
  λ h.
      let a = transition_state-IsAccepted run_state_machine _ r h in
      (a.current, accepted-All run_state_machine (Step guards) _ r (run_edges guards) h, a.result),
  λ p. rw (← p.0, p.2) (Step-accepted from to v guards p.1),
)
