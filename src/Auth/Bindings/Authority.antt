-- ===== src/Auth/Bindings/Authority.antt =====
-- Who may assign a role, by rbac-policy.ts on the bindings that role-binding-service.ts reads.
use ai_dev_harness.Shared.{
  ◌≡◌, refl, Bool, true, not, ◌&&◌, ◌⊎◌, inl, inr, Option, none, some, List, [], ◌∷◌, any, filter,
  is_some, text_eq, Text, ok, Bool-cases, arith,
}
use ai_dev_harness.Auth.Policy.{
  Role, organization_owner, project_admin, approver, operator, viewer, RoleBinding, RoleScope,
  is_owner, is_project_admin, same_project, valid_scope, is_delegable, assert_can_assign_role,
}
use ai_dev_harness.Auth.Bindings.{Store, Command, is_active_in, list_active}

any-filter :
    (p q r : RoleBinding → Bool) (xs : List RoleBinding)
    → ((x : RoleBinding) → q x ≡ true → p x ≡ true → r x ≡ true)
    → any p (filter q xs) ≡ true
    → any r xs ≡ true
any-filter p q r [] f h = cc
any-filter p q r (x ∷ xs) f h = elim (Bool-cases (r x)) [
  | inl yes_r ↦ rw yes_r
  | inr no_r ↦ ground (arith, f x, any-filter p q r xs f)
]

abbrev pub scope_of : Command → Option Text → RoleScope
scope_of command project_id = record {
  actor_id = command.actor_id;
  organization_id = command.organization_id;
  project_id = project_id;
}

-- The one who acts holds an active binding that owns the whole organization.
abbrev pub acts_as_owner : Store → Command → Bool
acts_as_owner store command =
    any
      (λ b.
        text_eq b.actor_id command.actor_id
        && text_eq b.organization_id command.organization_id
        && not (is_some b.revoked_at)
        && is_owner b.role
        && not (is_some b.project_id))
      store.bindings

-- The one who acts holds an active binding that administers the project.
abbrev acts_as_admin : Store → Command → (project_id : Option Text) → Bool
acts_as_admin store command project_id =
    any
      (λ b.
        text_eq b.actor_id command.actor_id
        && text_eq b.organization_id command.organization_id
        && not (is_some b.revoked_at)
        && is_project_admin b.role
        && same_project b.project_id project_id)
      store.bindings

-- The scopes at which an owner of the organization assigns a role: an owner's is the organization, an
-- administrator's is a project.
abbrev FitsScope : Role → Option Text → Type 0
FitsScope organization_owner project = project ≡ none
FitsScope project_admin project = is_some project ≡ true
FitsScope _ project = Unit

-- An owner acts at a scope that fits the role, or an administrator of the project of the binding hands on
-- a role that is not an owner's or an administrator's.
abbrev pub HasAuthority : Store → Command → Role → Option Text → Type 0
HasAuthority store command role project =
    ((acts_as_owner store command ≡ true) × FitsScope role project)
    ⊎ ((is_some project ≡ true)
        × (acts_as_admin store command project ≡ true)
        × ((role ≡ approver) ⊎ (role ≡ operator) ⊎ (role ≡ viewer)))

fits_lem :
    (role : Role) (project : Option Text) → valid_scope role project ≡ true → FitsScope role project
fits_lem organization_owner none h = refl
fits_lem organization_owner (some p) h = absurd (ground (arith, h))
fits_lem project_admin project h = h
fits_lem approver project h = tt
fits_lem operator project h = tt
fits_lem viewer project h = tt

delegable_lem :
    (role : Role)
    → is_delegable role ≡ true
    → (role ≡ approver) ⊎ (role ≡ operator) ⊎ (role ≡ viewer)
delegable_lem organization_owner h = absurd (ground (arith, h))
delegable_lem project_admin h = absurd (ground (arith, h))
delegable_lem approver h = inl refl
delegable_lem operator h = inr (inl refl)
delegable_lem viewer h = inr (inr refl)

owner_lem :
    (store : Store) (command : Command) (project : Option Text)
    → any
        (λ b. is_owner b.role && not (is_some b.project_id))
        (list_active store (scope_of command project))
      ≡ true
    → acts_as_owner store command ≡ true
unfolding list_active
owner_lem store command project h =
    any-filter (λ b. is_owner b.role && not (is_some b.project_id))
      (is_active_in (scope_of command project)) _ store.bindings (λ b active owner. ground arith) h

admin_lem :
    (store : Store) (command : Command) (project : Option Text)
    → any
        (λ b. is_project_admin b.role && same_project b.project_id project)
        (list_active store (scope_of command project))
      ≡ true
    → acts_as_admin store command project ≡ true
unfolding list_active
admin_lem store command project h =
    any-filter (λ b. is_project_admin b.role && same_project b.project_id project)
      (is_active_in (scope_of command project)) _ store.bindings (λ b active admin. ground arith) h

pub authority :
    (store : Store) (command : Command) (role : Role) (project : Option Text)
    → assert_can_assign_role (list_active store (scope_of command project)) role project ≡ ok tt
    → HasAuthority store command role project
unfolding assert_can_assign_role
authority store command role project h =
    let held = list_active store (scope_of command project) in
    let owner = any (λ b. is_owner b.role && not (is_some b.project_id)) held in
    let admin = any (λ b. is_project_admin b.role && same_project b.project_id project) held in
    elim (Bool-cases (owner && valid_scope role project)) [
      | inl q ↦ inl (
        owner_lem store command project (ground (arith, q)),
        fits_lem role project (ground (arith, q)),
      )
      | inr q ↦ elim (Bool-cases ((is_some project && admin) && is_delegable role)) [
        | inl t ↦ inr (
          ground (arith, t),
          admin_lem store command project (ground (arith, t)),
          delegable_lem role (ground (arith, t)),
        )
        | inr t ↦ absurd (ground (arith, q, t, h))
      ]
    ]
