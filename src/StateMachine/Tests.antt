-- ===== src/StateMachine/Tests.antt =====
-- The state machines at concrete states.
use ai_dev_harness.Shared.{ℕ, ◌≡◌, ◌↔◌, refl, true, some, List, [], ◌∷◌, any, ok}
use ai_dev_harness.StateMachine.{Guards, is_true, transition_state}
use ai_dev_harness.StateMachine.Laws.{Versioned, Attempt, attempt, attempts}
use ai_dev_harness.StateMachine.Goal
use ai_dev_harness.StateMachine.Goal.{
  GoalStatus, goal_status_eq, GoalStatus-discrete, goal_state_machine,
}
use ai_dev_harness.StateMachine.Goal.Traces.{accepted, key, goal_completed_shows}
use ai_dev_harness.StateMachine.Goal.Diagram as GoalDiagram
use ai_dev_harness.StateMachine.Issue.{issue_status_eq}
use ai_dev_harness.StateMachine.Run.{run_status_eq}
use ai_dev_harness.StateMachine.SpecRevision.{spec_revision_status_eq}

abbrev all_hold : Guards
all_hold = λ g. some true

abbrev at_version : GoalStatus → ℕ → Versioned GoalStatus
at_version s n = record { state = s; version = n }

abbrev request : GoalStatus → ℕ → Attempt GoalStatus
request s n = record { expected_version = n; next_state = s; guards = all_hold }

abbrev Same : ℕ → Type 0
Same n = n ≡ n

-- One attempt is refused: it has an old version.
abbrev whole_way : List (Attempt GoalStatus)
whole_way =
    request Goal.clarifying 1
    ∷ request Goal.planning 1
    ∷ request Goal.planning 2
    ∷ request Goal.approved 3
    ∷ request Goal.executing 4
    ∷ request Goal.verifying 5
    ∷ request Goal.completed 6
    ∷ []

whole_way-ends :
    (attempts goal_state_machine (at_version Goal.draft 1) whole_way).0.state ≡ Goal.completed
unfolding attempts attempt transition_state goal_state_machine GoalStatus-discrete
whole_way-ends = refl

goal_completed_shows_example : any (λ a. is_true (a.guards (key accepted))) whole_way ≡ true
goal_completed_shows_example = goal_completed_shows accepted 1 whole_way whole_way-ends

goal_transition_iff_example :
    (transition_state goal_state_machine
        (GoalDiagram.input Goal.verifying Goal.completed 6 6 all_hold)
      ≡ ok (GoalDiagram.moved Goal.verifying Goal.completed 6))
    ↔ (Same 6
        × GoalDiagram.Step all_hold Goal.verifying Goal.completed
        × (GoalDiagram.moved Goal.verifying Goal.completed 6
            ≡ GoalDiagram.moved Goal.verifying Goal.completed 6))
goal_transition_iff_example =
    GoalDiagram.goal_transition_iff Goal.verifying Goal.completed 6 6 all_hold
      (GoalDiagram.moved Goal.verifying Goal.completed 6)
