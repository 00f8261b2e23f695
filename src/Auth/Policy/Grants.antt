-- ===== src/Auth/Policy/Grants.antt =====
-- The decisions of auth/rbac-policy.ts.
use ai_dev_harness.Shared.{
  ◌≡◌, refl, Bool, true, ◌||◌, inl, inr, List, [], ◌∷◌, any, map, ◌===◌, includes, Bool-cases,
  arith, subst, sym, ◌∙◌,
}
use ai_dev_harness.Auth.Policy.{
  organization_manage, Role, role_eq, organization_owner, project_admin, approver, operator, viewer,
  Permission, grants_has, RoleBinding, distinct_roles, decide_permission,
}

any_of_includes :
    (p : Role → Bool) (seen : List Role) (r : Role)
    → includes seen r ≡ true
    → p r ≡ true
    → any p seen ≡ true
any_of_includes p [] r h q = cc
any_of_includes p (x ∷ xs) r h q = elim (Bool-cases (x === r)) [
  | inl same ↦ ground (arith, subst (λ y. p y ≡ true) (sym ((role_eq.same_iff x r).0 same)) q)
  | inr other ↦ ground (arith, any_of_includes p xs r (ground arith) q)
]

-- Taking each role once changes no test on some role.
any-distinct :
    (p : Role → Bool) (seen rs : List Role)
    → (any p seen || any p (distinct_roles seen rs)) ≡ (any p seen || any p rs)
unfolding distinct_roles
any-distinct p seen [] = refl
any-distinct p seen (r ∷ rs) = elim (Bool-cases (includes seen r)) [
  | inl old ↦ ground (arith, any-distinct p seen rs, any_of_includes p seen r old)
  | inr new ↦ ground (arith, any-distinct p (r ∷ seen) rs)
]

any-map :
    (p : Role → Bool) (bindings : List RoleBinding)
    → any p (map (λ b. b.role) bindings) ≡ any (λ b. p b.role) bindings
any-map p [] = refl
any-map p (b ∷ bs) = ground (arith, any-map p bs)

-- A permission is given exactly when one of the bindings has a role that grants it.
pub decide_iff :
    (bindings : List RoleBinding) (permission : Permission)
    → (decide_permission bindings permission).allowed
      ≡ any (λ b. grants_has b.role permission) bindings
unfolding decide_permission
decide_iff bindings permission =
    any-distinct (λ role. grants_has role permission) [] (map (λ b. b.role) bindings)
    ∙ any-map (λ role. grants_has role permission) bindings

-- The roles are ordered by what they grant: an owner has every permission, an approver has those of
-- a viewer, an operator those of a viewer, and a project administrator those of an operator.
pub grants_ordered :
    (p : Permission)
    → (grants_has organization_owner p ≡ true)
      × (grants_has viewer p ≡ true → grants_has operator p ≡ true)
      × (grants_has viewer p ≡ true → grants_has approver p ≡ true)
      × (grants_has operator p ≡ true → grants_has project_admin p ≡ true)
unfolding grants_has
grants_ordered organization_manage = (refl, λ h. cc, λ h. cc, λ h. cc)
grants_ordered _ = (refl, λ h. ground arith, λ h. ground arith, λ h. ground arith)
