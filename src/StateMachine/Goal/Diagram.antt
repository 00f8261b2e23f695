-- ===== src/StateMachine/Goal/Diagram.antt =====
-- The diagram of the Goal machine of state-machines.ts, drawn as a step relation.
use ai_dev_harness.Shared.{ℕ, ◌+◌, ◌≡◌, false, ◌↔◌, ok, arith, All}
use ai_dev_harness.StateMachine.{
  acceptance_verified, all_issues_completed, clarifications_resolved, issues_approved,
  reason_provided, spec_approved, StateTransitionResult, TransitionStateInput, Guards,
  transition_state, guard_blocks,
}
use ai_dev_harness.StateMachine.Laws.{transition_state-IsAccepted, accepted-All}
use ai_dev_harness.StateMachine.Holds.{Holds, Holds-of_unblocked}
use ai_dev_harness.StateMachine.Goal
use ai_dev_harness.StateMachine.Goal.{
  GoalStatus, GoalStatus-discrete, goal_status_eq, goal_state_machine,
}

pub data IsOpen : GoalStatus → Type 0 where
  open_draft : IsOpen Goal.draft
  open_clarifying : IsOpen Goal.clarifying
  open_planning : IsOpen Goal.planning
  open_approved : IsOpen Goal.approved
  open_executing : IsOpen Goal.executing
  open_verifying : IsOpen Goal.verifying

-- The edges, each with the guard that it needs.
pub data Step (guards : Guards) : GoalStatus → GoalStatus → Type 0 where
  clarify : Step guards Goal.draft Goal.clarifying
  plan : Holds guards clarifications_resolved → Step guards Goal.clarifying Goal.planning
  approve : Holds guards spec_approved → Step guards Goal.planning Goal.approved
  execute : Holds guards issues_approved → Step guards Goal.approved Goal.executing
  verify : Holds guards all_issues_completed → Step guards Goal.executing Goal.verifying
  complete : Holds guards acceptance_verified → Step guards Goal.verifying Goal.completed
  cancel : {s : GoalStatus} → IsOpen s → Holds guards reason_provided → Step guards s Goal.cancelled

goal_edges :
    (guards : Guards)
    → All
        (λ t. guard_blocks t.guard guards ≡ false → Step guards t.from t.to)
        goal_state_machine.transitions
unfolding goal_state_machine
goal_edges guards = (
  λ _. clarify,
  (
    λ h. plan (Holds-of_unblocked guards _ h),
    (
      λ h. approve (Holds-of_unblocked guards _ h),
      (
        λ h. execute (Holds-of_unblocked guards _ h),
        (
          λ h. verify (Holds-of_unblocked guards _ h),
          (
            λ h. complete (Holds-of_unblocked guards _ h),
            (
              λ h. cancel open_draft (Holds-of_unblocked guards _ h),
              (
                λ h. cancel open_clarifying (Holds-of_unblocked guards _ h),
                (
                  λ h. cancel open_planning (Holds-of_unblocked guards _ h),
                  (
                    λ h. cancel open_approved (Holds-of_unblocked guards _ h),
                    (
                      λ h. cancel open_executing (Holds-of_unblocked guards _ h),
                      (λ h. cancel open_verifying (Holds-of_unblocked guards _ h), tt),
                    ),
                  ),
                ),
              ),
            ),
          ),
        ),
      ),
    ),
  ),
)

abbrev pub input : GoalStatus → GoalStatus → ℕ → ℕ → Guards → TransitionStateInput GoalStatus
input from to v w guards = record {
  current_state = from;
  current_version = v;
  expected_version = w;
  next_state = to;
  guards = guards;
}

abbrev pub moved : GoalStatus → GoalStatus → ℕ → StateTransitionResult GoalStatus
moved from to v = record {
  previous_state = from;
  state = to;
  previous_version = v;
  version = v + 1;
}

Step-accepted :
    (from to : GoalStatus) (v : ℕ) (guards : Guards)
    → Step guards from to
    → transition_state goal_state_machine (input from to v v guards) ≡ ok (moved from to v)
unfolding transition_state goal_state_machine GoalStatus-discrete
Step-accepted from to v guards clarify = ground arith
Step-accepted from to v guards (plan h) = ground arith
Step-accepted from to v guards (approve h) = ground arith
Step-accepted from to v guards (execute h) = ground arith
Step-accepted from to v guards (verify h) = ground arith
Step-accepted from to v guards (complete h) = ground arith
Step-accepted from to v guards (cancel open_draft h) = ground arith
Step-accepted from to v guards (cancel open_clarifying h) = ground arith
Step-accepted from to v guards (cancel open_planning h) = ground arith
Step-accepted from to v guards (cancel open_approved h) = ground arith
Step-accepted from to v guards (cancel open_executing h) = ground arith
Step-accepted from to v guards (cancel open_verifying h) = ground arith

-- A transition of a Goal is accepted exactly when the expected version is the current one and the
-- diagram has the edge with its guard holding; the result names the next state and adds one to the
-- version.
pub goal_transition_iff :
    (from to : GoalStatus) (v w : ℕ) (guards : Guards) (r : StateTransitionResult GoalStatus)
    → (transition_state goal_state_machine (input from to v w guards) ≡ ok r)
      ↔ ((v ≡ w) × Step guards from to × (r ≡ moved from to v))
goal_transition_iff from to v w guards r = (
  λ h.
      let a = transition_state-IsAccepted goal_state_machine _ r h in
      (
        a.current,
        accepted-All goal_state_machine (Step guards) _ r (goal_edges guards) h,
        a.result,
      ),
  λ p. rw (← p.0, p.2) (Step-accepted from to v guards p.1),
)
