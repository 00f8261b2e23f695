-- ===== src/Auth/Bindings.antt =====
-- prototype/web-ui/app/auth/role-binding-service.ts on the table of postgres-role-binding-repository.ts: the rows
-- and the audit events are lists, a transaction either changes both or neither.
pub mod Authority
pub mod Escalation
mod Tests
use ai_dev_harness.Shared.{
  ℕ, ◌+◌, Bool, not, ◌&&◌, ◌||◌, Option, none, some, List, [], ◌∷◌, ◌++◌, ◌==◌, ltb, any, filter,
  find, is_some, length, text_eq, trim, Text, Result, ok, err, ◌>>=◌, ◌>>◌, throw_if, if◌then◌else◌,
  ◌===◌,
}
use ai_dev_harness.Auth.Policy.{
  Role, Role-discrete, role_eq, RoleBinding, RoleScope, AuthError, binding_invalid,
  binding_conflict, unique_violation, same_project, assert_can_assign_role,
}

pub data RoleChange : Type 0 where
  assigned revoked : RoleChange

pub record RoleChangeAudit : Type 0 where
  pub id : Text
  pub organization_id : Text
  pub project_id : Option Text
  pub actor_id : Text
  pub action : RoleChange
  pub entity_id : Text
  pub entity_version : ℕ
  pub reason : Text
  pub request_id : Text
  pub created_at : ℕ

pub record Store : Type 0 where
  pub bindings : List RoleBinding
  pub audits : List RoleChangeAudit

-- The condition of the query of `listActive`. The order of its rows is left out: the callers only
-- ask whether some row satisfies a test.
abbrev pub is_active_in : RoleScope → RoleBinding → Bool
is_active_in scope b =
    text_eq b.actor_id scope.actor_id
    && text_eq b.organization_id scope.organization_id
    && not (is_some b.revoked_at)
    && (not (is_some b.project_id) || same_project b.project_id scope.project_id)

pub list_active : Store → RoleScope → List RoleBinding
list_active store scope = filter (is_active_in scope) store.bindings

abbrev pub same_row : (binding_id organization_id : Text) → RoleBinding → Bool
same_row binding_id organization_id b =
    text_eq b.id binding_id && text_eq b.organization_id organization_id

pub get_binding : Store → (binding_id organization_id : Text) → Option RoleBinding
get_binding store binding_id organization_id =
    find (same_row binding_id organization_id) store.bindings

-- The unique indexes: one active binding of a role to an actor at a scope, and the key of a row.
abbrev pub clashes : RoleBinding → RoleBinding → Bool
clashes new b =
    text_eq b.id new.id
    || not (is_some b.revoked_at)
      && text_eq b.organization_id new.organization_id
      && same_project b.project_id new.project_id
      && text_eq b.actor_id new.actor_id
      && (b.role === new.role)

pub repository_assign :
    Store → RoleBinding → RoleChangeAudit → Result AuthError (Store × RoleBinding)
unfolding Role-discrete
repository_assign store binding audit = do
  throw_if (any (clashes binding) store.bindings) unique_violation
  ok (
    record { bindings = store.bindings ++ binding ∷ []; audits = store.audits ++ audit ∷ [] },
    binding,
  )

-- `UPDATE … WHERE id AND organization_id AND version AND revoked_at IS NULL`
abbrev pub revocable : RoleBinding → RoleBinding → Bool
revocable binding b =
    same_row binding.id binding.organization_id b
    && b.version == binding.version
    && not (is_some b.revoked_at)

abbrev pub revoke_row : RoleBinding → ℕ → RoleBinding → RoleBinding
revoke_row binding at b =
    if revocable binding b then record b { revoked_at = some at; version = b.version + 1 } else b

pub revoke_rows : RoleBinding → ℕ → List RoleBinding → List RoleBinding
revoke_rows binding at [] = []
revoke_rows binding at (b ∷ bs) = revoke_row binding at b ∷ revoke_rows binding at bs

-- The row that the update returns, where there is exactly one.
abbrev pub returned : ℕ → List RoleBinding → Result AuthError RoleBinding
returned at (b ∷ []) = ok (record b { revoked_at = some at; version = b.version + 1 })
returned at _ = err binding_conflict

pub repository_revoke :
    Store
    → RoleBinding
    → (revoked_at : ℕ) → RoleChangeAudit
    → Result AuthError (Store × RoleBinding)
unfolding revoke_rows
repository_revoke store binding revoked_at audit = do
  row ← returned revoked_at (filter (revocable binding) store.bindings)
  ok (
    record {
      bindings = revoke_rows binding revoked_at store.bindings;
      audits = store.audits ++ audit ∷ [];
    },
    row,
  )

pub record Command : Type 0 where
  pub actor_id : Text
  pub organization_id : Text
  pub reason : Text
  pub request_id : Text

abbrev pub unbounded : Text → ℕ → Bool
unbounded text maximum = length (trim text) == 0 || ltb maximum (length text)

validate_command : Command → Result AuthError (Unit {0})
validate_command c =
    throw_if (unbounded c.actor_id 200 || unbounded c.reason 4000 || unbounded c.request_id 200)
      binding_invalid

pub record AssignInput : Type 0 where
  pub project_id : Option Text
  pub target_actor_id : Text
  pub role : Role

-- What `clock` and `idGenerator` return: the time and two fresh identities.
pub record Fresh : Type 0 where
  pub now : ℕ
  pub first : Text
  pub second : Text

pub assign_role : Store → Command → AssignInput → Fresh → Result AuthError (Store × RoleBinding)
unfolding validate_command
assign_role store command input fresh = do
  validate_command command
  throw_if (unbounded input.target_actor_id 200) binding_invalid
  assert_can_assign_role
      (list_active store (record {
        actor_id = command.actor_id;
        organization_id = command.organization_id;
        project_id = input.project_id;
      }))
      input.role input.project_id
  repository_assign store
      (record {
        id = fresh.first;
        organization_id = command.organization_id;
        project_id = input.project_id;
        actor_id = input.target_actor_id;
        role = input.role;
        version = 1;
        created_at = fresh.now;
        revoked_at = none;
      })
      (record {
        id = fresh.second;
        organization_id = command.organization_id;
        project_id = input.project_id;
        actor_id = command.actor_id;
        action = assigned;
        entity_id = fresh.first;
        entity_version = 1;
        reason = command.reason;
        request_id = command.request_id;
        created_at = fresh.now;
      })

-- `!binding || binding.revokedAt`
abbrev pub live_binding : Option RoleBinding → Result AuthError RoleBinding
live_binding none = err binding_invalid
live_binding (some b) = if is_some b.revoked_at then err binding_invalid else ok b

pub revoke_role :
    Store → Command → (binding_id : Text) → Fresh → Result AuthError (Store × RoleBinding)
unfolding validate_command
revoke_role store command binding_id fresh = do
  validate_command command
  binding ← live_binding (get_binding store binding_id command.organization_id)
  assert_can_assign_role
      (list_active store (record {
        actor_id = command.actor_id;
        organization_id = command.organization_id;
        project_id = binding.project_id;
      }))
      binding.role binding.project_id
  repository_revoke store binding fresh.now (record {
    id = fresh.first;
    organization_id = binding.organization_id;
    project_id = binding.project_id;
    actor_id = command.actor_id;
    action = revoked;
    entity_id = binding.id;
    entity_version = binding.version + 1;
    reason = command.reason;
    request_id = command.request_id;
    created_at = fresh.now;
  })
