-- ===== src/StateMachine/Run.antt =====
-- The life of a Run: `runStatuses` and `runStateMachine`.
pub mod Diagram
use ai_dev_harness.Shared.{[], ◌∷◌, Eq, by_dec}
use ai_dev_harness.StateMachine.{StateMachine, edge, guarded, completion_evidence, reason_provided}

pub data RunStatus : Type 0 where
  queued running succeeded failed cancelled : RunStatus

unfoldable pub RunStatus-discrete : Discrete RunStatus
RunStatus-discrete = hlevel

instance abbrev pub run_status_eq : Eq RunStatus
unfolding RunStatus-discrete
run_status_eq = by_dec RunStatus-discrete

pub run_state_machine : StateMachine RunStatus
run_state_machine = record {
  terminal_states = succeeded ∷ failed ∷ cancelled ∷ [];
  transitions =
      edge queued running
      ∷ guarded running succeeded completion_evidence
      ∷ guarded running failed reason_provided
      ∷ guarded queued cancelled reason_provided
      ∷ guarded running cancelled reason_provided
      ∷ [];
}
