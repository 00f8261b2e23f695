-- ===== src/Control/Tests.antt =====
-- Two commands for the global scope.
use mathlib.Core.Option.{map}
use ai_dev_harness.Shared.{
  ◌≡◌, refl, true, false, not, ◌&&◌, ◌||◌, none, some, List, [], ◌∷◌, update_first, Text, lit,
  text_eq, trim, trim_start, is_space, ok, err, lookup, assign, if◌then◌else◌, arith,
}
use ai_dev_harness.Control.{
  ExecutionControlReceipt, ExecutionControlOperation, stop, pause, active, stopped, global,
  DispatchPolicyInput, is_stopped, evaluate_dispatch_decision,
}
use ai_dev_harness.Control.Repository.{
  idempotency_conflict, version_conflict, Store, receipt_key, find_receipt, get, commit, written,
}
use ai_dev_harness.Control.Service.{
  ExecutionControlCommand, request_of, Surroundings, admitted, carry_out, execute,
}
use ai_dev_harness.Control.Dispatch.{is_active, dispatch_decides}
use ai_dev_harness.Control.Once.{Call, execute_all, executed_once}
use ai_dev_harness.Control.Versions.{stale_refused}

abbrev around : Surroundings Text
around = record { authorize = λ actor scope_type scope operation. ok tt; digest = λ r. r.reason }

abbrev store : Store
store = record { records = []; receipts = []; audit_events = []; outbox_events = [] }

abbrev command : ExecutionControlOperation → Text → Text → ExecutionControlCommand
command operation key reason = record {
  operation = operation;
  scope_type = global;
  scope_id = lit "global";
  actor_id = lit "operator";
  request_id = lit "request";
  idempotency_key = key;
  expected_version = 1;
  reason = reason;
}

abbrev halt : ExecutionControlCommand
halt = command stop (lit "key-1") (lit "incident")

abbrev hold : ExecutionControlCommand
hold = command pause (lit "key-2") (lit "maintenance")

abbrev receipt : ExecutionControlReceipt
receipt = record {
  scope_type = global;
  scope_id = lit "global";
  operation = stop;
  previous_state = active;
  state = stopped;
  previous_version = 1;
  version = 2;
  occurred_at = lit "now";
}

halt_lem : (execute around store halt (lit "id") (lit "now")).1 ≡ ok receipt
unfolding execute admitted carry_out find_receipt get commit written lookup assign trim trim_start
    is_space text_eq update_first
halt_lem = refl

halt-admitted : admitted around halt ≡ ok tt
unfolding admitted trim trim_start is_space
halt-admitted = refl

hold-admitted : admitted around hold ≡ ok tt
unfolding admitted trim trim_start is_space
hold-admitted = refl

unused_lem : lookup (receipt_key halt.actor_id halt.idempotency_key) store.receipts ≡ none
unfolding lookup
unused_lem = refl

abbrev calls : List Call
calls = record { command = hold; id = lit "id-2"; now = lit "later" } ∷ []

free_lem :
    lookup
      (receipt_key hold.actor_id hold.idempotency_key)
      (execute_all around calls (execute around store halt (lit "id") (lit "now")).0).receipts
    ≡ none
unfolding execute_all execute admitted carry_out find_receipt get commit written lookup assign trim
    trim_start is_space text_eq update_first
free_lem = refl

executed_once_example :
    execute around
      (execute_all around calls (execute around store halt (lit "id") (lit "now")).0)
      halt
      (lit "id-3")
      (lit "late")
    ≡ (
      execute_all around calls (execute around store halt (lit "id") (lit "now")).0,
      (if text_eq (around.digest (request_of halt)) (around.digest (request_of halt))
          then ok receipt
          else err idempotency_conflict),
    )
executed_once_example =
    executed_once around store halt halt (lit "id") (lit "now") (lit "id-3") (lit "late") calls
      receipt halt_lem refl refl halt-admitted

stale_refused_example :
    execute around
      (execute_all around calls (execute around store halt (lit "id") (lit "now")).0)
      hold
      (lit "id-3")
      (lit "late")
    ≡ (
      execute_all around calls (execute around store halt (lit "id") (lit "now")).0,
      err version_conflict,
    )
stale_refused_example =
    stale_refused around store halt hold (lit "id") (lit "now") (lit "id-3") (lit "late") calls
      receipt unused_lem halt_lem refl refl (omega arith) hold-admitted free_lem

abbrev policy : DispatchPolicyInput
policy = record {
  global_state = stopped;
  project_state = active;
  circuit_open = false;
  budget_available = true;
  active_phase = some (lit "builder");
}

dispatch_decides_example :
    ((evaluate_dispatch_decision policy).allowed ≡ (
      is_active policy.global_state
      && is_active policy.project_state
      && not policy.circuit_open
      && policy.budget_available))
    × ((evaluate_dispatch_decision policy).cancel_active
        ≡ map
            (λ phase.
              (is_stopped policy.global_state || is_stopped policy.project_state)
              && not (text_eq (lit "verify") phase)
              && not (text_eq (lit "review") phase)
              && not (text_eq (lit "landing") phase))
            policy.active_phase)
dispatch_decides_example = dispatch_decides policy
