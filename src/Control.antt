-- ===== src/Control.antt =====
-- prototype/web-ui/app/control-plane/ports/execution-control-port.ts, with `nextState` and
-- `evaluateDispatchDecision` of application/execution-control-service.ts: who may start work, and when.
pub mod Repository
pub mod Service
pub mod Dispatch
pub mod Receipts
pub mod Once
pub mod Versions
mod Tests
use ai_dev_harness.Shared.{
  ℕ, Bool, true, false, not, ◌&&◌, Option, none, some, [], ◌∷◌, Text, lit, text_eq, text_mem,
  ends_with, if◌then◌else◌,
}

pub data ExecutionControlState : Type 0 where
  active paused draining stopped : ExecutionControlState

pub data ExecutionControlOperation : Type 0 where
  start pause drain resume retry stop : ExecutionControlOperation

pub data ScopeType : Type 0 where
  global project : ScopeType

pub record ExecutionControlRecord : Type 0 where
  pub id : Text
  pub organization_id : Option Text
  pub project_id : Option Text
  pub scope_type : ScopeType
  pub scope_id : Text
  pub state : ExecutionControlState
  pub consecutive_failures : ℕ
  pub circuit_open_until : Option Text
  pub reason : Text
  pub version : ℕ

pub record ExecutionControlReceipt : Type 0 where
  pub scope_type : ScopeType
  pub scope_id : Text
  pub operation : ExecutionControlOperation
  pub previous_state : ExecutionControlState
  pub state : ExecutionControlState
  pub previous_version : ℕ
  pub version : ℕ
  pub occurred_at : Text

abbrev pub next_state : ExecutionControlOperation → ExecutionControlState
next_state pause = paused
next_state drain = draining
next_state stop = stopped
next_state _ = active

pub record DispatchPolicyInput : Type 0 where
  pub global_state : ExecutionControlState
  pub project_state : ExecutionControlState
  pub circuit_open : Bool
  pub budget_available : Bool
  pub active_phase : Option Text

pub record DispatchDecision : Type 0 where
  pub allowed : Bool
  pub reason : Text
  pub cancel_active : Option Bool

abbrev pub is_stopped : ExecutionControlState → Bool
is_stopped stopped = true
is_stopped _ = false

abbrev pub is_paused : ExecutionControlState → Bool
is_paused paused = true
is_paused _ = false

abbrev pub is_draining : ExecutionControlState → Bool
is_draining draining = true
is_draining _ = false

unfoldable pub dispatch_reason : DispatchPolicyInput → Text
dispatch_reason input =
    if is_stopped input.global_state
    then lit "global_stop"
    else if is_stopped input.project_state
    then lit "project_stop"
    else if input.circuit_open
    then lit "circuit_open"
    else if not input.budget_available
    then lit "budget_exhausted"
    else if is_paused input.global_state
    then lit "global_paused"
    else if is_paused input.project_state
    then lit "project_paused"
    else if is_draining input.global_state
    then lit "global_draining"
    else if is_draining input.project_state
    then lit "project_draining"
    else lit "allowed"

abbrev pub safe_completion : Text → Bool
safe_completion phase = text_mem phase (lit "verify" ∷ lit "review" ∷ lit "landing" ∷ [])

-- `cancelActive`, by the test whether the reason ends with `_stop`.
abbrev pub cancels : Bool → Option Text → Option Bool
cancels stopping none = none
cancels stopping (some phase) = some (stopping && not (safe_completion phase))

unfoldable pub evaluate_dispatch_decision : DispatchPolicyInput → DispatchDecision
unfolding dispatch_reason
evaluate_dispatch_decision input =
    let reason = dispatch_reason input in
    record {
      allowed = text_eq reason (lit "allowed");
      reason = reason;
      cancel_active = cancels (ends_with reason (lit "_stop")) input.active_phase;
    }
