-- ===== src/Control/Service.antt =====
-- `ExecutionControlService.execute` of application/execution-control-service.ts over the memory
-- repository. The authorizer, the digest of a command and the identity of a new record are parameters.
use ai_dev_harness.Shared.{
  ℕ, Bool, not, ◌||◌, ◌==◌, none, some, length, ltb, Text, trim, Result, ok, err, throw_if, ◌>>◌,
  if◌then◌else◌,
}
use ai_dev_harness.Control.{
  ExecutionControlOperation, ScopeType, ExecutionControlRecord, ExecutionControlReceipt, next_state,
}
use ai_dev_harness.Control.Repository.{
  ControlError, scope_and_actor_required, reason_required, idempotency_key_required,
  version_conflict, unauthorized, Store, Commit, find_receipt, get, commit,
}

pub record ExecutionControlCommand : Type 0 where
  pub operation : ExecutionControlOperation
  pub scope_type : ScopeType
  pub scope_id : Text
  pub actor_id : Text
  pub request_id : Text
  pub idempotency_key : Text
  pub expected_version : ℕ
  pub reason : Text

-- What the digest is taken of.
pub record Request : Type 0 where
  pub operation : ExecutionControlOperation
  pub scope_type : ScopeType
  pub scope_id : Text
  pub actor_id : Text
  pub expected_version : ℕ
  pub reason : Text

abbrev pub request_of : ExecutionControlCommand → Request
request_of c = record {
  operation = c.operation;
  scope_type = c.scope_type;
  scope_id = c.scope_id;
  actor_id = c.actor_id;
  expected_version = c.expected_version;
  reason = c.reason;
}

abbrev pub is_blank : Text → Bool
is_blank t = length (trim t) == 0

-- The code around the service.
pub record Surroundings {ℓ} (E : Type ℓ) : Type ℓ where
  pub authorize :
      (actor_id : Text)
      → ScopeType
      → (scope_id : Text) → ExecutionControlOperation
      → Result E (Unit {0})
  pub digest : Request → Text

abbrev authorized {ℓ} : {E : Type ℓ} → Result E (Unit {0}) → Result (ControlError E) (Unit {0})
authorized (ok u) = ok u
authorized (err e) = err (unauthorized e)

unfoldable pub admitted {ℓ} :
    {E : Type ℓ} → Surroundings E → ExecutionControlCommand → Result (ControlError E) (Unit {0})
admitted around c =
    throw_if (is_blank c.scope_id || is_blank c.actor_id) scope_and_actor_required
    >> (throw_if (is_blank c.reason || ltb 4000 (length c.reason)) reason_required
        >> (throw_if (is_blank c.idempotency_key || ltb 200 (length c.idempotency_key))
              idempotency_key_required
            >> authorized (around.authorize c.actor_id c.scope_type c.scope_id c.operation)))

abbrev pub commit_of :
    ExecutionControlCommand → Text → (now : Text) → ExecutionControlRecord → Commit
commit_of c request_hash now current = record {
  current = current;
  expected_version = c.expected_version;
  next = next_state c.operation;
  operation = c.operation;
  actor_id = c.actor_id;
  request_id = c.request_id;
  idempotency_key = c.idempotency_key;
  request_hash = request_hash;
  reason = c.reason;
  occurred_at = now;
}

-- From `findReceipt` on.
unfoldable pub carry_out {ℓ} :
    {E : Type ℓ}
    → Store
    → ExecutionControlCommand
    → (request_hash id now : Text) → Store × Result (ControlError E) ExecutionControlReceipt
unfolding find_receipt get commit
carry_out {E} s c request_hash id now =
    elim (find_receipt {E = E} s c.actor_id c.idempotency_key request_hash) [
      | err e ↦ (s, err e)
      | ok (some receipt) ↦ (s, ok receipt)
      | ok none ↦
          let found = get id s c.scope_type c.scope_id in
          if not (found.1.version == c.expected_version)
          then (found.0, err version_conflict)
          else commit found.0 (commit_of c request_hash now found.1)
    ]

-- `execute`, with the identity that a new record would get and the time of the clock.
unfoldable pub execute {ℓ} :
    {E : Type ℓ}
    → Surroundings E
    → Store
    → ExecutionControlCommand
    → (id now : Text) → Store × Result (ControlError E) ExecutionControlReceipt
unfolding admitted carry_out
execute around s c id now = elim (admitted around c) [
  | err e ↦ (s, err e)
  | ok u ↦ carry_out s c (around.digest (request_of c)) id now
]
