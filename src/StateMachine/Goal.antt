-- ===== src/StateMachine/Goal.antt =====
-- The life of a Goal: `goalStatuses` and `goalStateMachine` of state-machines.ts.
pub mod Diagram
pub mod Traces
use ai_dev_harness.Shared.{[], ◌∷◌, ◌++◌, Eq, by_dec}
use ai_dev_harness.StateMachine.{
  StateMachine, edge, guarded, cancellations, clarifications_resolved, spec_approved,
  issues_approved, all_issues_completed, acceptance_verified,
}

pub data GoalStatus : Type 0 where
  draft clarifying planning approved executing verifying completed cancelled : GoalStatus

unfoldable pub GoalStatus-discrete : Discrete GoalStatus
GoalStatus-discrete = hlevel

instance abbrev pub goal_status_eq : Eq GoalStatus
unfolding GoalStatus-discrete
goal_status_eq = by_dec GoalStatus-discrete

unfoldable pub goal_state_machine : StateMachine GoalStatus
goal_state_machine = record {
  terminal_states = completed ∷ cancelled ∷ [];
  transitions =
      (edge draft clarifying
        ∷ guarded clarifying planning clarifications_resolved
        ∷ guarded planning approved spec_approved
        ∷ guarded approved executing issues_approved
        ∷ guarded executing verifying all_issues_completed
        ∷ guarded verifying completed acceptance_verified
        ∷ [])
      ++ cancellations (draft ∷ clarifying ∷ planning ∷ approved ∷ executing ∷ verifying ∷ [])
          cancelled;
}
