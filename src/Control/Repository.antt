-- ===== src/Control/Repository.antt =====
-- prototype/web-ui/app/control-plane/adapters/memory-execution-control-repository.ts.
use ai_dev_harness.Shared.{
  ℕ, ◌+◌, ◌==◌, Bool, true, false, not, ◌&&◌, Option, none, some, List, [], ◌∷◌, ◌++◌, find,
  update_first, Text, lit, text_eq, Result, ok, err, lookup, assign, if◌then◌else◌,
}
use ai_dev_harness.Control.{
  ExecutionControlState, active, ExecutionControlOperation, start, retry, ScopeType, global,
  project, ExecutionControlRecord, ExecutionControlReceipt,
}

pub data ControlError {ℓ} (E : Type ℓ) : Type ℓ where
  scope_and_actor_required reason_required idempotency_key_required idempotency_conflict
        version_conflict :
      ControlError E
  unauthorized : E → ControlError E

pub record Stored : Type 0 where
  pub request_hash : Text
  pub receipt : ExecutionControlReceipt

pub record AuditEvent : Type 0 where
  pub operation : ExecutionControlOperation
  pub actor_id : Text
  pub request_id : Text
  pub reason : Text
  pub entity_version : ℕ

pub record OutboxEvent : Type 0 where
  pub scope_type : ScopeType
  pub scope_id : Text
  pub state : ExecutionControlState
  pub version : ℕ

pub record Store : Type 0 where
  pub records : List ExecutionControlRecord
  pub receipts : List (Text × Stored)
  pub audit_events : List AuditEvent
  pub outbox_events : List OutboxEvent

abbrev pub same_scope : ScopeType → ScopeType → Bool
same_scope global global = true
same_scope project project = true
same_scope _ _ = false

abbrev pub is_of : ScopeType → Text → ExecutionControlRecord → Bool
is_of scope_type scope_id r = same_scope r.scope_type scope_type && text_eq r.scope_id scope_id

-- `${actorId}:${idempotencyKey}`
abbrev pub receipt_key : Text → Text → Text
receipt_key actor_id idempotency_key = actor_id ++ b':' ∷ idempotency_key

unfoldable pub find_receipt {ℓ} :
    {E : Type ℓ}
    → Store
    → (actor_id idempotency_key request_hash : Text)
    → Result (ControlError E) (Option ExecutionControlReceipt)
unfolding lookup
find_receipt s actor_id idempotency_key request_hash =
    elim (lookup (receipt_key actor_id idempotency_key) s.receipts) [
      | none ↦ ok none
      | some stored ↦
          if text_eq stored.request_hash request_hash
          then ok (some stored.receipt)
          else err idempotency_conflict
    ]

abbrev pub scope_project : ScopeType → Text → Option Text
scope_project project scope_id = some scope_id
scope_project global scope_id = none

abbrev pub default_record : Text → ScopeType → Text → ExecutionControlRecord
default_record id scope_type scope_id = record {
  id = id;
  organization_id = none;
  project_id = scope_project scope_type scope_id;
  scope_type = scope_type;
  scope_id = scope_id;
  state = active;
  consecutive_failures = 0;
  circuit_open_until = none;
  reason = lit "Execution enabled by default";
  version = 1;
}

-- `get`, with the random identity of a record that it makes.
unfoldable pub get : (id : Text) → Store → ScopeType → Text → Store × ExecutionControlRecord
get id s scope_type scope_id = elim (find (is_of scope_type scope_id) s.records) [
  | some r ↦ (s, r)
  | none ↦
      let r = default_record id scope_type scope_id in
      (record s { records = s.records ++ r ∷ [] }, r)
]

pub record Commit : Type 0 where
  pub current : ExecutionControlRecord
  pub expected_version : ℕ
  pub next : ExecutionControlState
  pub operation : ExecutionControlOperation
  pub actor_id : Text
  pub request_id : Text
  pub idempotency_key : Text
  pub request_hash : Text
  pub reason : Text
  pub occurred_at : Text

abbrev pub resets : ExecutionControlOperation → Bool
resets retry = true
resets start = true
resets _ = false

abbrev pub changed : Commit → ExecutionControlRecord → ExecutionControlRecord
changed input r = record r {
  state = input.next;
  reason = input.reason;
  version = r.version + 1;
  consecutive_failures = if resets input.operation then 0 else r.consecutive_failures;
  circuit_open_until = if resets input.operation then none else r.circuit_open_until;
}

abbrev pub receipt_of : Commit → ExecutionControlRecord → ExecutionControlReceipt
receipt_of input r = record {
  scope_type = r.scope_type;
  scope_id = r.scope_id;
  operation = input.operation;
  previous_state = r.state;
  state = input.next;
  previous_version = r.version;
  version = r.version + 1;
  occurred_at = input.occurred_at;
}

-- What `commit` writes for the record that it found.
unfoldable pub written : Store → Commit → ExecutionControlRecord → Store
unfolding update_first assign
written s input r = record {
  records =
      update_first (is_of input.current.scope_type input.current.scope_id) (changed input)
        s.records;
  receipts =
      assign (receipt_key input.actor_id input.idempotency_key)
        (record { request_hash = input.request_hash; receipt = receipt_of input r }) s.receipts;
  audit_events =
      s.audit_events
      ++ record {
        operation = input.operation;
        actor_id = input.actor_id;
        request_id = input.request_id;
        reason = input.reason;
        entity_version = r.version + 1;
      }
        ∷ [];
  outbox_events =
      s.outbox_events
      ++ record {
        scope_type = r.scope_type;
        scope_id = r.scope_id;
        state = input.next;
        version = r.version + 1;
      }
        ∷ [];
}

unfoldable pub commit {ℓ} :
    {E : Type ℓ} → Store → Commit → Store × Result (ControlError E) ExecutionControlReceipt
unfolding find_receipt written
commit {E} s input =
    elim (find_receipt {E = E} s input.actor_id input.idempotency_key input.request_hash) [
      | err e ↦ (s, err e)
      | ok (some receipt) ↦ (s, ok receipt)
      | ok none ↦ elim (find (is_of input.current.scope_type input.current.scope_id) s.records) [
        | none ↦ (s, err version_conflict)
        | some r ↦
            if not (r.version == input.expected_version)
            then (s, err version_conflict)
            else (written s input r, ok (receipt_of input r))
      ]
    ]
