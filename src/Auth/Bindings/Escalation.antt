-- ===== src/Auth/Bindings/Escalation.antt =====
-- auth/role-binding-service.ts: who can create authority, and the commands as steps.
use ai_dev_harness.Shared.{
  ℕ, ◌≡◌, refl, sym, ap, ◌∙◌, subst, Bool, true, false, not, ◌&&◌, ◌||◌, inl, inr, Option, none,
  List, [], ◌∷◌, ◌++◌, any, filter, is_some, text_eq, text_eq_iff, Text, ok, >>=-eq-ok, >>-eq-ok,
  throw_if-eq-ok, Bool-cases, arith,
}
use ai_dev_harness.Auth.Policy.{
  Role, RoleBinding, binding_invalid, is_owner, assert_can_assign_role,
}
use ai_dev_harness.Auth.Bindings.{
  Store, RoleChangeAudit, Command, AssignInput, Fresh, list_active, get_binding, repository_assign,
  revocable, revoke_rows, returned, repository_revoke, validate_command, assign_role, live_binding,
  unbounded, revoke_role,
}
use ai_dev_harness.Auth.Bindings.Authority.{scope_of, acts_as_owner, HasAuthority, authority}

-- An active binding that makes its actor an owner of the organization.
abbrev owns : (organization_id : Text) → RoleBinding → Bool
owns organization_id b =
    text_eq b.organization_id organization_id && is_owner b.role && not (is_some b.revoked_at)

abbrev pub has_owner : (organization_id : Text) → Store → Bool
has_owner organization_id store = any (owns organization_id) store.bindings

any-append :
    (p : RoleBinding → Bool) (xs ys : List RoleBinding) → any p (xs ++ ys) ≡ (any p xs || any p ys)
any-append p [] ys = refl
any-append p (x ∷ xs) ys = ground (arith, any-append p xs ys)

acts-has_owner :
    (store : Store) (command : Command)
    → acts_as_owner store command ≡ true
    → has_owner command.organization_id store ≡ true
acts-has_owner store command h = go store.bindings h
  where
    go :
        (bs : List RoleBinding)
        → any
            (λ b.
              text_eq b.actor_id command.actor_id
              && text_eq b.organization_id command.organization_id
              && not (is_some b.revoked_at)
              && is_owner b.role
              && not (is_some b.project_id))
            bs
          ≡ true
        → any (owns command.organization_id) bs ≡ true
    go [] k = cc
    go (b ∷ bs) k = ground (arith, go bs)

assign_effect :
    (s : Store) (b : RoleBinding) (a : RoleChangeAudit) (t : Store) (b' : RoleBinding)
    → repository_assign s b a ≡ ok (t, b')
    → t.bindings ≡ s.bindings ++ b ∷ []
unfolding repository_assign
assign_effect s b a t b' h = ground arith

-- What an assignment that succeeds did.
pub record IsAssigned (s : Store) (c : Command) (i : AssignInput) (f : Fresh) (t : Store)
    : Type 0 where
  pub binding : RoleBinding
  pub organization : binding.organization_id ≡ c.organization_id
  pub project : binding.project_id ≡ i.project_id
  pub actor : binding.actor_id ≡ i.target_actor_id
  pub role : binding.role ≡ i.role
  pub active : binding.revoked_at ≡ none
  pub appended : t.bindings ≡ s.bindings ++ binding ∷ []
  pub authorized : HasAuthority s c i.role i.project_id

-- An accepted assignment appends one active binding, of the role asked for, to the actor and at the scope
-- asked for. The one who made it is an owner of the organization, and then an owner's role is assigned
-- for the whole organization and an administrator's for a project; or an administrator of the very
-- project of the binding, and then the role is an approver's, an operator's or a viewer's.
pub assign_role-IsAssigned :
    (s : Store) (c : Command) (i : AssignInput) (f : Fresh) (t : Store) (b : RoleBinding)
    → assign_role s c i f ≡ ok (t, b)
    → IsAssigned s c i f t
unfolding assign_role
assign_role-IsAssigned s c i f t b h =
    let (h1, r1) = >>-eq-ok (validate_command c) _ h in
    let (h2, r2) = throw_if-eq-ok (unbounded i.target_actor_id 200) binding_invalid _ r1 in
    let (h3, r3) =
      >>-eq-ok
        (assert_can_assign_role (list_active s (scope_of c i.project_id)) i.role i.project_id) _
        r2 in
    record {
      binding = record {
        id = f.first;
        organization_id = c.organization_id;
        project_id = i.project_id;
        actor_id = i.target_actor_id;
        role = i.role;
        version = 1;
        created_at = f.now;
        revoked_at = none;
      };
      organization = refl;
      project = refl;
      actor = refl;
      role = refl;
      active = refl;
      appended = assign_effect s _ _ t b r3;
      authorized = authority s c i.role i.project_id h3;
    }

owner_only :
    (store : Store) (command : Command) (role : Role) (project : Option Text)
    → is_owner role ≡ true
    → HasAuthority store command role project
    → acts_as_owner store command ≡ true
owner_only store command role project h (inl (acting, fits)) = acting
owner_only store command role project h (inr (scoped, acting, inl e)) =
    absurd (let k = subst (λ r. is_owner r ≡ true) e h in ground (arith, k))
owner_only store command role project h (inr (scoped, acting, inr (inl e))) =
    absurd (let k = subst (λ r. is_owner r ≡ true) e h in ground (arith, k))
owner_only store command role project h (inr (scoped, acting, inr (inr e))) =
    absurd (let k = subst (λ r. is_owner r ≡ true) e h in ground (arith, k))

-- An assignment creates no owner in an organization without one.
assign_ownerless :
    (org : Text) (s : Store) (c : Command) (i : AssignInput) (f : Fresh) (t : Store)
    (b : RoleBinding)
    → has_owner org s ≡ false
    → assign_role s c i f ≡ ok (t, b)
    → has_owner org t ≡ false
assign_ownerless org s c i f t b ownerless h =
    let a = assign_role-IsAssigned s c i f t b h in
    let split =
      ap (any (owns org)) a.appended ∙ any-append (owns org) s.bindings (a.binding ∷ []) in
    let fresh : owns org a.binding ≡ false = elim (Bool-cases (owns org a.binding)) [
      | inr no_owner ↦ no_owner
      | inl owner ↦
          let same : c.organization_id ≡ org =
            sym a.organization ∙ (text_eq_iff a.binding.organization_id org).0 (ground arith) in
          let owning : is_owner i.role ≡ true =
            subst (λ r. is_owner r ≡ true) a.role (ground (arith, owner)) in
          let acting : acts_as_owner s c ≡ true =
            owner_only s c i.role i.project_id owning a.authorized in
          let owned : has_owner org s ≡ true =
            subst (λ (o : Text). has_owner o s ≡ true) same (acts-has_owner s c acting) in
          absurd (ground arith)
    ] in
    ground arith

revoke_rows-owns :
    (org : Text) (b : RoleBinding) (at : ℕ) (bs : List RoleBinding)
    → any (owns org) bs ≡ false
    → any (owns org) (revoke_rows b at bs) ≡ false
unfolding revoke_rows
revoke_rows-owns org b at [] h = refl
revoke_rows-owns org b at (x ∷ xs) h = ground (arith, revoke_rows-owns org b at xs)

revoke_bindings :
    (s : Store) (c : Command) (binding_id : Text) (f : Fresh) (t : Store) (b : RoleBinding)
    → revoke_role s c binding_id f ≡ ok (t, b)
    → (row : RoleBinding) × (t.bindings ≡ revoke_rows row f.now s.bindings)
unfolding revoke_role repository_revoke
revoke_bindings s c binding_id f t b h =
    let (h1, r1) = >>-eq-ok (validate_command c) _ h in
    let (row, h2, r2) =
      >>=-eq-ok (live_binding (get_binding s binding_id c.organization_id)) _ r1 in
    let (h3, r3) =
      >>-eq-ok
        (assert_can_assign_role (list_active s (scope_of c row.project_id)) row.role row.project_id)
        _ r2 in
    let (out, h4, r4) = >>=-eq-ok (returned f.now (filter (revocable row) s.bindings)) _ r3 in
    (row, ground arith)

-- One command that the service accepted.
pub data BindingStep (s t : Store) : Type 0 where
  assign :
      (c : Command) (i : AssignInput) (f : Fresh) (b : RoleBinding)
      → assign_role s c i f ≡ ok (t, b)
      → BindingStep s t
  revoke :
      (c : Command) (binding_id : Text) (f : Fresh) (b : RoleBinding)
      → revoke_role s c binding_id f ≡ ok (t, b)
      → BindingStep s t

pub data BindingReach (s : Store) : Store → Type 0 where
  here : BindingReach s s
  next : {t u : Store} → BindingReach s t → BindingStep t u → BindingReach s u

step_ownerless :
    (org : Text) {s t : Store} → BindingStep s t → has_owner org s ≡ false → has_owner org t ≡ false
step_ownerless org {s} {t} (assign c i f b h) o = assign_ownerless org s c i f t b o h
step_ownerless org {s} {t} (revoke c binding_id f b h) o =
    let (row, e) = revoke_bindings s c binding_id f t b h in
    ap (any (owns org)) e ∙ revoke_rows-owns org row f.now s.bindings o

-- No sequence of accepted commands, by anyone, creates an owner in an organization that has no active
-- owner binding.
pub ownerless_forever :
    (org : Text) (s t : Store)
    → BindingReach s t
    → has_owner org s ≡ false
    → has_owner org t ≡ false
ownerless_forever org s t here o = o
ownerless_forever org s u (next r step) o = step_ownerless org step (ownerless_forever org s _ r o)
