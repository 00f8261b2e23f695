-- ===== src/Auth/Bindings/Tests.antt =====
-- Roles and bindings at concrete inputs.
use ai_dev_harness.Shared.{◌≡◌, refl, false, none, some, [], ◌∷◌, lit, ok, trim, text_eq}
use ai_dev_harness.Auth.Policy.{
  project_admin, operator, Role-discrete, RoleBinding, assert_can_assign_role,
}
use ai_dev_harness.Auth.Bindings.{
  Store, assigned, list_active, Command, AssignInput, Fresh, repository_assign, assign_role,
}
use ai_dev_harness.Auth.Bindings.Escalation.{
  IsAssigned, assign_role-IsAssigned, assign, here, next, has_owner, ownerless_forever,
}

abbrev admin_row : RoleBinding
admin_row = record {
  id = lit "b1";
  organization_id = lit "acme";
  project_id = some (lit "tools");
  actor_id = lit "alice";
  role = project_admin;
  version = 1;
  created_at = 5;
  revoked_at = none;
}

abbrev before : Store
before = record { bindings = admin_row ∷ []; audits = [] }

abbrev command : Command
command = record {
  actor_id = lit "alice";
  organization_id = lit "acme";
  reason = lit "on call";
  request_id = lit "r1";
}

abbrev input : AssignInput
input = record { project_id = some (lit "tools"); target_actor_id = lit "bob"; role = operator }

abbrev fresh : Fresh
fresh = record { now = 9; first = lit "b2"; second = lit "a1" }

abbrev new_row : RoleBinding
new_row = record {
  id = lit "b2";
  organization_id = lit "acme";
  project_id = some (lit "tools");
  actor_id = lit "bob";
  role = operator;
  version = 1;
  created_at = 9;
  revoked_at = none;
}

abbrev after : Store
after = record {
  bindings = admin_row ∷ new_row ∷ [];
  audits =
      record {
        id = lit "a1";
        organization_id = lit "acme";
        project_id = some (lit "tools");
        actor_id = lit "alice";
        action = assigned;
        entity_id = lit "b2";
        entity_version = 1;
        reason = lit "on call";
        request_id = lit "r1";
        created_at = 9;
      }
      ∷ [];
}

assigned-ok : assign_role before command input fresh ≡ ok (after, new_row)
unfolding assign_role list_active assert_can_assign_role repository_assign text_eq trim
    Role-discrete
assigned-ok = refl

assign_role-IsAssigned_example : IsAssigned before command input fresh after
assign_role-IsAssigned_example =
    assign_role-IsAssigned before command input fresh after new_row assigned-ok

ownerless_forever_example : has_owner (lit "acme") after ≡ false
unfolding text_eq
ownerless_forever_example =
    ownerless_forever (lit "acme") before after
      (next here (assign command input fresh new_row assigned-ok)) refl
