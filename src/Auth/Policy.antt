-- ===== src/Auth/Policy.antt =====
-- prototype/web-ui/app/auth/rbac-policy.ts and the types of role-binding-repository.ts: who may do what.
pub mod Grants
use ai_dev_harness.Shared.{
  ℕ, Bool, true, false, not, ◌&&◌, Option, none, some, List, [], ◌∷◌, any, map, text_eq, Text,
  Result, ok, err, if◌then◌else◌, Eq, by_dec, includes, is_some,
}

pub data Role : Type 0 where
  organization_owner project_admin approver operator viewer : Role

unfoldable pub Role-discrete : Discrete Role
Role-discrete = hlevel

instance abbrev pub role_eq : Eq Role
unfolding Role-discrete
role_eq = by_dec Role-discrete

pub data Permission : Type 0 where
  organization_manage project_manage role_binding_manage : Permission
  goal_read goal_write goal_approve goal_verify goal_accept : Permission
  spec_read spec_generate spec_approve : Permission
  issue_read issue_generate issue_edit issue_approve issue_project : Permission
  run_operate evidence_read delivery_report_read delivery_report_generate : Permission

pub Permission-discrete : Discrete Permission
Permission-discrete = hlevel

instance abbrev permission_eq : Eq Permission
unfolding Permission-discrete
permission_eq = by_dec Permission-discrete

-- `permissions`, in the order of the source
abbrev permissions : List Permission
permissions =
    organization_manage ∷ project_manage ∷ role_binding_manage ∷ goal_read ∷ goal_write
    ∷ goal_approve ∷ goal_verify ∷ goal_accept ∷ spec_read ∷ spec_generate ∷ spec_approve
    ∷ issue_read ∷ issue_generate ∷ issue_edit ∷ issue_approve ∷ issue_project ∷ run_operate
    ∷ evidence_read ∷ delivery_report_read ∷ delivery_report_generate ∷ []

pub grants : Role → List Permission
grants organization_owner = permissions
grants project_admin =
    project_manage ∷ role_binding_manage ∷ goal_read ∷ goal_write ∷ goal_verify ∷ spec_read
    ∷ spec_generate ∷ issue_read ∷ issue_generate ∷ issue_edit ∷ run_operate ∷ evidence_read
    ∷ delivery_report_read ∷ delivery_report_generate ∷ []
grants approver =
    goal_read ∷ goal_write ∷ goal_approve ∷ goal_verify ∷ goal_accept ∷ spec_read ∷ spec_generate
    ∷ spec_approve ∷ issue_read ∷ issue_generate ∷ issue_edit ∷ issue_approve ∷ issue_project
    ∷ evidence_read ∷ delivery_report_read ∷ delivery_report_generate ∷ []
grants operator =
    goal_read ∷ goal_verify ∷ spec_read ∷ issue_read ∷ run_operate ∷ evidence_read
    ∷ delivery_report_read ∷ delivery_report_generate ∷ []
grants viewer = goal_read ∷ spec_read ∷ issue_read ∷ evidence_read ∷ delivery_report_read ∷ []

-- `grants[role].has(permission)`
pub grants_has : Role → Permission → Bool
unfolding grants Permission-discrete
grants_has role permission = includes (grants role) permission

pub record RoleBinding : Type 0 where
  pub id : Text
  pub organization_id : Text
  pub project_id : Option Text
  pub actor_id : Text
  pub role : Role
  pub version : ℕ
  pub created_at : ℕ
  pub revoked_at : Option ℕ

pub record RoleScope : Type 0 where
  pub actor_id : Text
  pub organization_id : Text
  pub project_id : Option Text

-- The errors of the two files, and the one of the database for a row that a unique index refuses, which
-- the repository throws on as it comes.
pub data AuthError : Type 0 where
  authorization_denied binding_invalid binding_conflict unique_violation : AuthError

-- `[...new Set(roles)]`
pub distinct_roles : List Role → List Role → List Role
unfolding Role-discrete
distinct_roles seen [] = []
distinct_roles seen (r ∷ rs) = elim (includes seen r) [
  | true ↦ distinct_roles seen rs
  | false ↦ r ∷ distinct_roles (r ∷ seen) rs
]

pub record AuthorizationDecision : Type 0 where
  pub allowed : Bool
  pub effective_roles : List Role

-- `decide` on the bindings that `listActive` returned
pub decide_permission : List RoleBinding → Permission → AuthorizationDecision
unfolding distinct_roles
decide_permission bindings permission =
    let effective = distinct_roles [] (map (λ b. b.role) bindings) in
    record {
      allowed = any (λ role. grants_has role permission) effective;
      effective_roles = effective;
    }

unfoldable assert_allowed : List RoleBinding → Permission → Result AuthError (Unit {0})
assert_allowed bindings permission =
    if (decide_permission bindings permission).allowed then ok tt else err authorization_denied

abbrev pub is_owner : Role → Bool
is_owner organization_owner = true
is_owner _ = false

abbrev pub is_project_admin : Role → Bool
is_project_admin project_admin = true
is_project_admin _ = false

-- `a === b` on project identities that may be null
abbrev pub same_project : Option Text → Option Text → Bool
same_project none none = true
same_project (some p) (some q) = text_eq p q
same_project _ _ = false

-- Whether an organization's owner may assign the role at the scope.
abbrev pub valid_scope : Role → Option Text → Bool
valid_scope organization_owner project = not (is_some project)
valid_scope project_admin project = is_some project
valid_scope _ project = true

-- `["approver", "operator", "viewer"].includes(role)`
abbrev pub is_delegable : Role → Bool
is_delegable approver = true
is_delegable operator = true
is_delegable viewer = true
is_delegable _ = false

-- `assertCanAssignRole` on the bindings that `listActive` returned for the target's project
unfoldable pub assert_can_assign_role :
    List RoleBinding
    → (target_role : Role) (target_project : Option Text) → Result AuthError (Unit {0})
assert_can_assign_role bindings target_role target_project =
    let owner = any (λ b. is_owner b.role && not (is_some b.project_id)) bindings in
    let admin =
      is_some target_project
      && any (λ b. is_project_admin b.role && same_project b.project_id target_project) bindings in
    if owner && valid_scope target_role target_project
    then ok tt
    else if admin && is_delegable target_role
    then ok tt
    else err authorization_denied
