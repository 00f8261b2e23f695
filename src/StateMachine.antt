-- ===== src/StateMachine.antt =====
-- prototype/web-ui/app/control-plane/domain/state-machines.ts: the transition check that every
-- state machine of the control plane shares.
pub mod Goal
pub mod SpecRevision
pub mod Issue
pub mod Run
pub mod Laws
pub mod Holds
mod Tests
use ai_dev_harness.Shared.{
  ℕ, ◌+◌, Bool, true, false, not, ◌&&◌, Option, none, some, List, [], ◌==◌, if◌then◌else◌, find,
  map, Result, ok, err, Eq, ◌===◌, includes,
}

pub data TransitionGuard : Type 0 where
  acceptance_verified all_issues_completed approval_recorded artifact_digest_verified :
      TransitionGuard
  clarifications_resolved completion_evidence dependencies_satisfied : TransitionGuard
  issues_approved reason_provided replacement_exists spec_approved : TransitionGuard

pub record StateTransition (State : Type 0) : Type 0 where
  pub from : State
  pub to : State
  pub guard : Option TransitionGuard

pub record StateMachine (State : Type 0) : Type 0 where
  pub terminal_states : List State
  pub transitions : List (StateTransition State)

pub data DomainTransitionErrorCode : Type 0 where
  guard_failed invalid_transition terminal_state version_conflict : DomainTransitionErrorCode

-- `Partial<Record<TransitionGuard, boolean>>`: a guard that was not evaluated is `none`.
abbrev pub Guards : Type 0
Guards = TransitionGuard → Option Bool

-- `=== true`
abbrev pub is_true : Option Bool → Bool
is_true (some true) = true
is_true _ = false

pub record TransitionStateInput (State : Type 0) : Type 0 where
  pub current_state : State
  pub current_version : ℕ
  pub expected_version : ℕ
  pub next_state : State
  pub guards : Guards

pub record StateTransitionResult (State : Type 0) : Type 0 where
  pub previous_state : State
  pub state : State
  pub previous_version : ℕ
  pub version : ℕ

-- `transition.guard && input.guards[transition.guard] !== true`
abbrev pub guard_blocks : Option TransitionGuard → Guards → Bool
guard_blocks none guards = false
guard_blocks (some g) guards = not (is_true (guards g))

module _ {State : Type 0} ⦃e : Eq State⦄ where
  abbrev pub find_transition :
      List (StateTransition State) → State → State → Option (StateTransition State)
  find_transition ts from to = find (λ t. (t.from === from) && (t.to === to)) ts

  -- The version is compared first, then the terminal states, the table and the guard.
  pub transition_state :
      StateMachine State
      → TransitionStateInput State
      → Result DomainTransitionErrorCode (StateTransitionResult State)
  transition_state machine input =
      if not (input.current_version == input.expected_version)
      then err version_conflict
      else if includes machine.terminal_states input.current_state
      then err terminal_state
      else (elim (find_transition machine.transitions input.current_state input.next_state) [
        | none ↦ err invalid_transition
        | some transition ↦
            if guard_blocks transition.guard input.guards
            then err guard_failed
            else ok (record {
              previous_state = input.current_state;
              state = input.next_state;
              previous_version = input.current_version;
              version = input.current_version + 1;
            })
      ])

-- An edge of a table, and the edges that `cancellations` adds.
abbrev pub edge : {State : Type 0} → State → State → StateTransition State
edge from to = record { from = from; to = to; guard = none }

abbrev pub guarded : {State : Type 0} → State → State → TransitionGuard → StateTransition State
guarded from to g = record { from = from; to = to; guard = some g }

abbrev pub cancellations : {State : Type 0} → List State → State → List (StateTransition State)
cancellations states cancelled = map (λ from. guarded from cancelled reason_provided) states
