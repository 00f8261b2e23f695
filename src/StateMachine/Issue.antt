-- ===== src/StateMachine/Issue.antt =====
-- The life of an Issue: `issueStatuses` and `issueStateMachine`.
pub mod Diagram
use ai_dev_harness.Shared.{[], ◌∷◌, ◌++◌, Eq, by_dec}
use ai_dev_harness.StateMachine.{
  StateMachine, edge, guarded, cancellations, spec_approved, dependencies_satisfied,
  reason_provided, completion_evidence,
}

pub data IssueStatus : Type 0 where
  draft approved ready in_progress blocked completed cancelled : IssueStatus

pub IssueStatus-discrete : Discrete IssueStatus
IssueStatus-discrete = hlevel

instance abbrev pub issue_status_eq : Eq IssueStatus
unfolding IssueStatus-discrete
issue_status_eq = by_dec IssueStatus-discrete

pub issue_state_machine : StateMachine IssueStatus
issue_state_machine = record {
  terminal_states = completed ∷ cancelled ∷ [];
  transitions =
      (guarded draft approved spec_approved
        ∷ guarded approved ready dependencies_satisfied
        ∷ edge ready in_progress
        ∷ guarded in_progress blocked reason_provided
        ∷ guarded blocked ready dependencies_satisfied
        ∷ guarded in_progress completed completion_evidence
        ∷ [])
      ++ cancellations (draft ∷ approved ∷ ready ∷ in_progress ∷ blocked ∷ []) cancelled;
}
