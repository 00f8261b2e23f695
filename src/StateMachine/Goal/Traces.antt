-- ===== src/StateMachine/Goal/Traces.antt =====
-- Sequences of attempted transitions of a Goal, on the machine of state-machines.ts.
use ai_dev_harness.Shared.{
  ℕ, ◌+◌, ◌≡◌, refl, subst, Bool, true, false, inl, inr, some, List, [], ◌∷◌, leb, All, any, arith,
}
use ai_dev_harness.StateMachine.{
  TransitionGuard, acceptance_verified, all_issues_completed, clarifications_resolved,
  issues_approved, spec_approved, Guards, is_true, guard_blocks,
}
use ai_dev_harness.StateMachine.Laws.{Attempt, attempt, attempts, Stays, attempts_guarded}
use ai_dev_harness.StateMachine.Goal
use ai_dev_harness.StateMachine.Goal.{
  GoalStatus, GoalStatus-discrete, goal_status_eq, goal_state_machine,
}
use ai_dev_harness.StateMachine.Goal.Diagram.{
  IsOpen, open_draft, open_clarifying, open_planning, open_approved, open_executing, open_verifying,
  Step, clarify, plan, approve, execute, verify, complete, goal_transition_iff,
}

-- The stages of a Goal that end with a guard.
pub data Milestone : Type 0 where
  clarified specified planned executed accepted : Milestone

abbrev pub key : Milestone → TransitionGuard
key clarified = clarifications_resolved
key specified = spec_approved
key planned = issues_approved
key executed = all_issues_completed
key accepted = acceptance_verified

abbrev stage : GoalStatus → ℕ
stage Goal.cancelled = 0
stage Goal.draft = 1
stage Goal.clarifying = 1
stage Goal.planning = 2
stage Goal.approved = 3
stage Goal.executing = 4
stage Goal.verifying = 5
stage Goal.completed = 6

abbrev last_stage : Milestone → ℕ
last_stage clarified = 1
last_stage specified = 2
last_stage planned = 3
last_stage executed = 4
last_stage accepted = 5

-- The states that a Goal can be in before the milestone, and `cancelled`.
abbrev before : Milestone → GoalStatus → Bool
before m s = leb (stage s) (last_stage m)

before_edges :
    (m : Milestone) (guards : Guards)
    → All
        (λ t.
          guard_blocks t.guard guards ≡ false
          → Stays goal_state_machine (before m) (key m) guards t.from t.to)
        goal_state_machine.transitions
unfolding goal_state_machine
before_edges clarified guards = ground arith
before_edges _ guards = ground arith

before_draft : (m : Milestone) → before m Goal.draft ≡ true
before_draft clarified = refl
before_draft _ = refl

not-before_completed : (m : Milestone) → ¬ (before m Goal.completed ≡ true)
not-before_completed clarified h = cc
not-before_completed _ h = cc

-- A Goal that went from `draft` to `completed`, by any attempts, accepted or refused, has shown
-- each of the five guards of the way: clarifications resolved, spec approved, issues approved, all
-- issues completed, acceptance verified.
pub goal_completed_shows :
    (m : Milestone) (version : ℕ) (rest : List (Attempt GoalStatus))
    → (attempts goal_state_machine (record { state = Goal.draft; version = version }) rest).0.state
      ≡ Goal.completed
    → any (λ a. is_true (a.guards (key m))) rest ≡ true
goal_completed_shows m version rest done =
    elim (attempts_guarded goal_state_machine (before m) (key m) (before_edges m)
      (record { state = Goal.draft; version = version }) rest (before_draft m)) [
        | inl inside ↦
            let outside : before m Goal.completed ≡ true =
              subst (λ s. before m s ≡ true) done inside in
            absurd (not-before_completed m outside)
        | inr proof ↦ proof
      ]

-- An attempt at the version `n` with every guard true.
abbrev forward : GoalStatus → ℕ → Attempt GoalStatus
forward to n = record { expected_version = n; next_state = to; guards = λ g. some true }

forward-Step :
    {from to : GoalStatus} (n : ℕ)
    → Step (λ g. some true) from to
    → attempt goal_state_machine (record { state = from; version = n }) (forward to n)
      ≡ (record { state = to; version = n + 1 }, true)
unfolding attempt
forward-Step {from} {to} n step =
    rw ((goal_transition_iff from to n n (λ g. some true) _).1 (refl, step, refl))

abbrev CanComplete : GoalStatus → ℕ → Type 0
CanComplete s n =
    (rest : List (Attempt GoalStatus)) × ((attempts goal_state_machine
        (record { state = s; version = n }) rest).0.state
      ≡ Goal.completed)

extend :
    {from to : GoalStatus} (n : ℕ)
    → Step (λ g. some true) from to
    → CanComplete to (n + 1)
    → CanComplete from n
unfolding attempts
extend {to} n step (rest, done) = (forward to n ∷ rest, rw (forward-Step n step) done)

-- From every open state a Goal can still be completed, whatever its version: there is a sequence
-- of attempts that ends in `completed`.
goal_can_complete :
    (s : GoalStatus) (n : ℕ)
    → IsOpen s
    → (rest : List (Attempt GoalStatus)) × ((attempts goal_state_machine
          (record { state = s; version = n })
          rest).0.state
        ≡ Goal.completed)
unfolding attempts
goal_can_complete s n o = from_open n o
  where
    at_end : (k : ℕ) → CanComplete Goal.completed k
    at_end k = ([], refl)

    verifying : (k : ℕ) → CanComplete Goal.verifying k
    verifying k = extend k (complete refl) (at_end (k + 1))

    executing : (k : ℕ) → CanComplete Goal.executing k
    executing k = extend k (verify refl) (verifying (k + 1))

    approved : (k : ℕ) → CanComplete Goal.approved k
    approved k = extend k (execute refl) (executing (k + 1))

    planning : (k : ℕ) → CanComplete Goal.planning k
    planning k = extend k (approve refl) (approved (k + 1))

    clarifying : (k : ℕ) → CanComplete Goal.clarifying k
    clarifying k = extend k (plan refl) (planning (k + 1))

    from_open : {t : GoalStatus} (k : ℕ) → IsOpen t → CanComplete t k
    from_open k open_draft = extend k clarify (clarifying (k + 1))
    from_open k open_clarifying = clarifying k
    from_open k open_planning = planning k
    from_open k open_approved = approved k
    from_open k open_executing = executing k
    from_open k open_verifying = verifying k
