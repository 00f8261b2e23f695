-- ===== src/Control/Dispatch.antt =====
-- `evaluateDispatchDecision` of application/execution-control-service.ts, case by case.
use mathlib.Core.Option.{map}
use ai_dev_harness.Shared.{
  ◌≡◌, ◌∙◌, refl, ap, some, arith, Bool, true, false, not, ◌&&◌, ◌||◌, Option, none, Text, lit,
  text_eq, ends_with, starts_with,
}
use ai_dev_harness.Control.{
  ExecutionControlState, active, paused, draining, stopped, DispatchPolicyInput, is_stopped,
  dispatch_reason, cancels, evaluate_dispatch_decision,
}

abbrev pub is_active : ExecutionControlState → Bool
is_active active = true
is_active _ = false

abbrev input :
    ExecutionControlState → ExecutionControlState → Bool → Bool → Option Text → DispatchPolicyInput
input g p circuit budget phase = record {
  global_state = g;
  project_state = p;
  circuit_open = circuit;
  budget_available = budget;
  active_phase = phase;
}

abbrev Decides : ExecutionControlState → ExecutionControlState → Bool → Bool → Type 0
Decides g p circuit budget =
    (text_eq (dispatch_reason (input g p circuit budget none)) (lit "allowed")
      ≡ (is_active g && is_active p && not circuit && budget))
    × (ends_with (dispatch_reason (input g p circuit budget none)) (lit "_stop")
        ≡ (is_stopped g || is_stopped p))

decides : (g p : ExecutionControlState) (circuit budget : Bool) → Decides g p circuit budget
unfolding dispatch_reason text_eq ends_with starts_with
decides stopped p circuit budget = (refl, refl)
decides active stopped circuit budget = (refl, refl)
decides paused stopped circuit budget = (refl, refl)
decides draining stopped circuit budget = (refl, refl)
decides active active true budget = (refl, refl)
decides active active false true = (refl, refl)
decides active active false false = (refl, refl)
decides active paused true budget = (refl, refl)
decides active paused false true = (refl, refl)
decides active paused false false = (refl, refl)
decides active draining true budget = (refl, refl)
decides active draining false true = (refl, refl)
decides active draining false false = (refl, refl)
decides paused active true budget = (refl, refl)
decides paused active false true = (refl, refl)
decides paused active false false = (refl, refl)
decides paused paused true budget = (refl, refl)
decides paused paused false true = (refl, refl)
decides paused paused false false = (refl, refl)
decides paused draining true budget = (refl, refl)
decides paused draining false true = (refl, refl)
decides paused draining false false = (refl, refl)
decides draining active true budget = (refl, refl)
decides draining active false true = (refl, refl)
decides draining active false false = (refl, refl)
decides draining paused true budget = (refl, refl)
decides draining paused false true = (refl, refl)
decides draining paused false false = (refl, refl)
decides draining draining true budget = (refl, refl)
decides draining draining false true = (refl, refl)
decides draining draining false false = (refl, refl)

cancels_lem :
    (stopping : Bool) (active_phase : Option Text)
    → cancels stopping active_phase
      ≡ map
          (λ phase.
            stopping
            && not (text_eq (lit "verify") phase)
            && not (text_eq (lit "review") phase)
            && not (text_eq (lit "landing") phase))
          active_phase
cancels_lem stopping none = refl
cancels_lem stopping (some phase) = ap some (ground arith)

-- Work may start exactly if the global and the project control are active, no circuit is open and a
-- budget is left. Whether to cancel is said exactly if there is work under way, and that is cancelled
-- exactly if one of the two is stopped and its phase is none of verify, review and landing.
pub dispatch_decides :
    (i : DispatchPolicyInput)
    → ((evaluate_dispatch_decision i).allowed ≡ (
        is_active i.global_state
        && is_active i.project_state
        && not i.circuit_open
        && i.budget_available))
      × ((evaluate_dispatch_decision i).cancel_active
          ≡ map
              (λ phase.
                (is_stopped i.global_state || is_stopped i.project_state)
                && not (text_eq (lit "verify") phase)
                && not (text_eq (lit "review") phase)
                && not (text_eq (lit "landing") phase))
              i.active_phase)
unfolding evaluate_dispatch_decision dispatch_reason
dispatch_decides i =
    let (allows, stops) =
      decides i.global_state i.project_state i.circuit_open i.budget_available in
    (
      allows,
      ap (λ b. cancels b i.active_phase) stops
          ∙ cancels_lem (is_stopped i.global_state || is_stopped i.project_state) i.active_phase,
    )
