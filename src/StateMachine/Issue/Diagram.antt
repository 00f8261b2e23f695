-- ===== src/StateMachine/Issue/Diagram.antt =====
-- The diagram of the Issue machine of state-machines.ts, drawn as a step relation.
use ai_dev_harness.Shared.{ℕ, ◌+◌, ◌≡◌, false, ◌↔◌, ok, arith, All}
use ai_dev_harness.StateMachine.{
  completion_evidence, dependencies_satisfied, reason_provided, spec_approved,
  StateTransitionResult, TransitionStateInput, Guards, transition_state, guard_blocks,
}
use ai_dev_harness.StateMachine.Laws.{transition_state-IsAccepted, accepted-All}
use ai_dev_harness.StateMachine.Holds.{Holds, Holds-of_unblocked}
use ai_dev_harness.StateMachine.Issue
use ai_dev_harness.StateMachine.Issue.{
  IssueStatus, IssueStatus-discrete, issue_status_eq, issue_state_machine,
}

pub data IsOpen : IssueStatus → Type 0 where
  open_draft : IsOpen Issue.draft
  open_approved : IsOpen Issue.approved
  open_ready : IsOpen Issue.ready
  open_in_progress : IsOpen Issue.in_progress
  open_blocked : IsOpen Issue.blocked

-- The edges, each with the guard that it needs.
pub data Step (guards : Guards) : IssueStatus → IssueStatus → Type 0 where
  approve : Holds guards spec_approved → Step guards Issue.draft Issue.approved
  release : Holds guards dependencies_satisfied → Step guards Issue.approved Issue.ready
  begin : Step guards Issue.ready Issue.in_progress
  block : Holds guards reason_provided → Step guards Issue.in_progress Issue.blocked
  unblock : Holds guards dependencies_satisfied → Step guards Issue.blocked Issue.ready
  complete : Holds guards completion_evidence → Step guards Issue.in_progress Issue.completed
  cancel :
      {s : IssueStatus} → IsOpen s → Holds guards reason_provided → Step guards s Issue.cancelled

issue_edges :
    (guards : Guards)
    → All
        (λ t. guard_blocks t.guard guards ≡ false → Step guards t.from t.to)
        issue_state_machine.transitions
unfolding issue_state_machine
issue_edges guards = (
  λ h. approve (Holds-of_unblocked guards _ h),
  (
    λ h. release (Holds-of_unblocked guards _ h),
    (
      λ _. begin,
      (
        λ h. block (Holds-of_unblocked guards _ h),
        (
          λ h. unblock (Holds-of_unblocked guards _ h),
          (
            λ h. complete (Holds-of_unblocked guards _ h),
            (
              λ h. cancel open_draft (Holds-of_unblocked guards _ h),
              (
                λ h. cancel open_approved (Holds-of_unblocked guards _ h),
                (
                  λ h. cancel open_ready (Holds-of_unblocked guards _ h),
                  (
                    λ h. cancel open_in_progress (Holds-of_unblocked guards _ h),
                    (λ h. cancel open_blocked (Holds-of_unblocked guards _ h), tt),
                  ),
                ),
              ),
            ),
          ),
        ),
      ),
    ),
  ),
)

abbrev pub input : IssueStatus → IssueStatus → ℕ → ℕ → Guards → TransitionStateInput IssueStatus
input from to v w guards = record {
  current_state = from;
  current_version = v;
  expected_version = w;
  next_state = to;
  guards = guards;
}

abbrev pub moved : IssueStatus → IssueStatus → ℕ → StateTransitionResult IssueStatus
moved from to v = record {
  previous_state = from;
  state = to;
  previous_version = v;
  version = v + 1;
}

Step-accepted :
    (from to : IssueStatus) (v : ℕ) (guards : Guards)
    → Step guards from to
    → transition_state issue_state_machine (input from to v v guards) ≡ ok (moved from to v)
unfolding transition_state issue_state_machine IssueStatus-discrete
Step-accepted from to v guards (approve h) = ground arith
Step-accepted from to v guards (release h) = ground arith
Step-accepted from to v guards begin = ground arith
Step-accepted from to v guards (block h) = ground arith
Step-accepted from to v guards (unblock h) = ground arith
Step-accepted from to v guards (complete h) = ground arith
Step-accepted from to v guards (cancel open_draft h) = ground arith
Step-accepted from to v guards (cancel open_approved h) = ground arith
Step-accepted from to v guards (cancel open_ready h) = ground arith
Step-accepted from to v guards (cancel open_in_progress h) = ground arith
Step-accepted from to v guards (cancel open_blocked h) = ground arith

-- A transition of an Issue is accepted exactly when the expected version is the current one and the
-- diagram has the edge with its guard holding; the result names the next state and adds one to the
-- version.
pub issue_transition_iff :
    (from to : IssueStatus) (v w : ℕ) (guards : Guards) (r : StateTransitionResult IssueStatus)
    → (transition_state issue_state_machine (input from to v w guards) ≡ ok r)
      ↔ ((v ≡ w) × Step guards from to × (r ≡ moved from to v))
issue_transition_iff from to v w guards r = (
  λ h.
      let a = transition_state-IsAccepted issue_state_machine _ r h in
      (
        a.current,
        accepted-All issue_state_machine (Step guards) _ r (issue_edges guards) h,
        a.result,
      ),
  λ p. rw (← p.0, p.2) (Step-accepted from to v guards p.1),
)
