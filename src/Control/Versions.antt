-- ===== src/Control/Versions.antt =====
-- The versions of the execution controls: of two commands for one version of a scope, one is refused.
use ai_dev_harness.Shared.{
  ℕ, suc, ◌+◌, ◌≤◌, ◌≡◌, ◌∙◌, refl, sym, ap, subst, subst₂, true, ◌==◌, none, some, List, [], ◌∷◌,
  find, find-mem, find-append, find-append_none, find-update_either, find-update_found, Text,
  text_eq_iff, text_eq_refl, Result, ok, err, Result-cases, lookup, Bool-cases, Option-cases, inl,
  inr, arith,
}
use ai_dev_harness.Control.{
  ExecutionControlReceipt, ExecutionControlRecord, ScopeType, global, project,
}
use ai_dev_harness.Control.Repository.{
  ControlError, version_conflict, Store, Commit, same_scope, is_of, receipt_key, find_receipt, get,
  commit, written, changed, default_record,
}
use ai_dev_harness.Control.Service.{
  ExecutionControlCommand, request_of, Surroundings, admitted, commit_of, carry_out, execute,
}
use ai_dev_harness.Control.Receipts.{
  found-lookup, Committed, refused, replayed, fresh, commit-Committed,
}
use ai_dev_harness.Control.Once.{Call, execute_all, get-receipts}

-- The record of the scope is there, at the version or beyond.
pub record HasVersion (t : ScopeType) (scope : Text) (n : ℕ) (s : Store) : Type 0 where
  pub at_scope : ExecutionControlRecord
  pub found : find (is_of t scope) s.records ≡ some at_scope
  pub reached : n ≤ at_scope.version

same_scope_lem : (a b : ScopeType) → same_scope a b ≡ true → a ≡ b
same_scope_lem global global h = refl
same_scope_lem global project h = cc
same_scope_lem project global h = cc
same_scope_lem project project h = refl

same_scope_refl : (a : ScopeType) → same_scope a a ≡ true
same_scope_refl global = refl
same_scope_refl project = refl

module _ (t : ScopeType) (scope : Text) where
  get-found :
      (id : Text) (s : Store)
      → find (is_of t scope) (get id s t scope).0.records ≡ some (get id s t scope).1
  unfolding get
  get-found id s = elim (Option-cases (find (is_of t scope) s.records)) [
    | inr (r, q) ↦ rw (get, q) q
    | inl q ↦
        rw (get, q)
          (find-append_none (is_of t scope) s.records (default_record id t scope ∷ []) q
            ∙ ground (arith, same_scope_refl t, text_eq_refl scope))
  ]

  get-scope :
      (id : Text) (s : Store)
      → ((get id s t scope).1.scope_type ≡ t) × ((get id s t scope).1.scope_id ≡ scope)
  get-scope id s =
      let r = (get id s t scope).1 in
      let (m, passes) = find-mem (is_of t scope) (get id s t scope).0.records r (get-found id s) in
      (
        same_scope_lem r.scope_type t (ground arith),
        (text_eq_iff r.scope_id scope).0 (ground arith),
      )

  get-known :
      (id : Text) (s : Store) (r : ExecutionControlRecord)
      → find (is_of t scope) s.records ≡ some r
      → get id s t scope ≡ (s, r)
  unfolding get
  get-known id s r q = rw (get, q)

  get-HasVersion :
      (u : ScopeType) (other : Text) (n : ℕ) (id : Text) (s : Store)
      → HasVersion u other n s
      → HasVersion u other n (get id s t scope).0
  unfolding get
  get-HasVersion u other n id s h = elim (Option-cases (find (is_of t scope) s.records)) [
    | inr (r, q) ↦ rw (get, q) h
    | inl q ↦
        let there =
          find-append (is_of u other) s.records (default_record id t scope ∷ []) h.at_scope
            h.found in
        rw (get, q) (record { at_scope = h.at_scope; found = there; reached = h.reached })
  ]

module _ {ℓ} {E : Type ℓ} (t : ScopeType) (scope : Text) (n : ℕ) where
  Committed-HasVersion :
      (s : Store) (input : Commit) (out : Store × Result (ControlError E) ExecutionControlReceipt)
      → Committed s input out
      → HasVersion t scope n s
      → HasVersion t scope n out.0
  unfolding written
  Committed-HasVersion s input out (refused e) h = h
  Committed-HasVersion s input out (replayed r found) h = h
  Committed-HasVersion s input out (fresh r free found current) h =
      let (y, now, either) =
        find-update_either (is_of t scope) (is_of input.current.scope_type input.current.scope_id)
          (changed input) s.records h.at_scope (λ x. refl) h.found in
      record {
        at_scope = y;
        found = now;
        reached = elim either [
          | inl same ↦ subst (λ (z : ExecutionControlRecord). n ≤ z.version) (sym same) h.reached
          | inr same ↦
              let more = h.reached in
              subst (λ (z : ExecutionControlRecord). n ≤ z.version) (sym same) (omega (arith, more))
        ];
      }

  execute-HasVersion :
      (around : Surroundings E) (s : Store) (c : ExecutionControlCommand) (id now : Text)
      → HasVersion t scope n s
      → HasVersion t scope n (execute around s c id now).0
  unfolding execute carry_out
  execute-HasVersion around s c id now h = elim (Result-cases (admitted around c)) [
    | inr (e, a) ↦ rw (execute, a) h
    | inl (u, a) ↦
        let hash = around.digest (request_of c) in
        let found = get id s c.scope_type c.scope_id in
        let kept : HasVersion t scope n found.0 =
          get-HasVersion c.scope_type c.scope_id t scope n id s h in
        elim (Result-cases (find_receipt {E = E} s c.actor_id c.idempotency_key hash)) [
          | inr (e, q) ↦ rw (execute, a, carry_out, q) h
          | inl (some r, q) ↦ rw (execute, a, carry_out, q) h
          | inl (none, q) ↦ elim (Bool-cases (found.1.version == c.expected_version)) [
            | inr v ↦ rw (execute, a, carry_out, q, v) kept
            | inl v ↦
                rw (execute, a, carry_out, q, v)
                  (Committed-HasVersion found.0 (commit_of c hash now found.1)
                    (commit found.0 (commit_of c hash now found.1))
                    (commit-Committed found.0 (commit_of c hash now found.1)) kept)
          ]
        ]
  ]

  execute_all-HasVersion :
      (around : Surroundings E) (calls : List Call) (s : Store)
      → HasVersion t scope n s
      → HasVersion t scope n (execute_all around calls s)
  unfolding execute_all
  execute_all-HasVersion around [] s h = h
  execute_all-HasVersion around (c ∷ calls) s h =
      execute_all-HasVersion around calls (execute around s c.command c.id c.now).0
        (execute-HasVersion around s c.command c.id c.now h)

module _ {ℓ} {E : Type ℓ} where
  -- A command that is carried out, and not replayed, raises the version that it expected.
  Committed-raised :
      (t : ScopeType) (scope : Text) (s : Store) (input : Commit) (r : ExecutionControlReceipt)
      (out : Store × Result (ControlError E) ExecutionControlReceipt)
      → Committed s input out
      → out.1 ≡ ok r
      → lookup (receipt_key input.actor_id input.idempotency_key) s.receipts ≡ none
      → input.current.scope_type ≡ t
      → input.current.scope_id ≡ scope
      → HasVersion t scope (input.expected_version + 1) out.0
  unfolding written
  Committed-raised t scope s input r out (refused e) h unused same_t same_s =
      absurd (ground (arith, h))
  Committed-raised t scope s input r out (replayed k found) h unused same_t same_s =
      absurd (ground (arith, found, unused))
  Committed-raised t scope s input r out (fresh k free found current) h unused same_t same_s =
      let p = is_of input.current.scope_type input.current.scope_id in
      let (m, passes) = find-mem p s.records k found in
      let now = find-update_found p (changed input) s.records k found passes in
      record {
        at_scope = changed input k;
        found =
            subst₂
              (λ t scope. find (is_of t scope) (written s input k).records ≡ some (changed input k))
              same_t same_s now;
        reached = omega (arith, current);
      }

  raised :
      (around : Surroundings E) (s : Store) (c : ExecutionControlCommand) (id now : Text)
      (r : ExecutionControlReceipt)
      → lookup (receipt_key c.actor_id c.idempotency_key) s.receipts ≡ none
      → (execute around s c id now).1 ≡ ok r
      → HasVersion c.scope_type c.scope_id (c.expected_version + 1) (execute around s c id now).0
  unfolding execute carry_out
  raised around s c id now r unused = elim (Result-cases (admitted around c)) [
    | inr (e, a) ↦ rw (execute, a) (λ h. absurd (ground (arith, h)))
    | inl (u, a) ↦
        let hash = around.digest (request_of c) in
        let found = get id s c.scope_type c.scope_id in
        let (same_t, same_s) = get-scope c.scope_type c.scope_id id s in
        elim (Result-cases (find_receipt {E = E} s c.actor_id c.idempotency_key hash)) [
          | inr (e, q) ↦ rw (execute, a, carry_out, q) (λ h. absurd (ground (arith, h)))
          | inl (some k, q) ↦ absurd (
              let held = found-lookup {E = E} s c.actor_id c.idempotency_key hash k q in
              ground (arith, held, unused))
          | inl (none, q) ↦ elim (Bool-cases (found.1.version == c.expected_version)) [
            | inr v ↦ rw (execute, a, carry_out, q, v) (λ h. absurd (ground (arith, h)))
            | inl v ↦
                rw (execute, a, carry_out, q, v)
                  (λ h.
                    Committed-raised c.scope_type c.scope_id found.0 (commit_of c hash now found.1)
                      r (commit found.0 (commit_of c hash now found.1))
                      (commit-Committed found.0 (commit_of c hash now found.1)) h
                      (ap (lookup (receipt_key c.actor_id c.idempotency_key))
                          (get-receipts id s c.scope_type c.scope_id)
                        ∙ unused)
                      same_t same_s)
          ]
        ]
  ]

  old_refused :
      (around : Surroundings E) (s : Store) (d : ExecutionControlCommand) (id now : Text)
      → HasVersion d.scope_type d.scope_id (suc d.expected_version) s
      → admitted around d ≡ ok tt
      → lookup (receipt_key d.actor_id d.idempotency_key) s.receipts ≡ none
      → execute around s d id now ≡ (s, err version_conflict)
  unfolding execute carry_out find_receipt
  old_refused around s d id now h good unused =
      let known = get-known d.scope_type d.scope_id id s h.at_scope h.found in
      let beyond = h.reached in ground (arith, good, unused, known, beyond)

  -- After a command under a new key was carried out on a scope, and whatever commands came since,
  -- an admitted command under an unused key that expects the version of the first or an older one
  -- of that scope meets a version conflict and changes nothing.
  pub stale_refused :
      (around : Surroundings E) (s : Store) (c d : ExecutionControlCommand)
      (id now later_id later : Text) (calls : List Call) (r : ExecutionControlReceipt)
      → lookup (receipt_key c.actor_id c.idempotency_key) s.receipts ≡ none
      → (execute around s c id now).1 ≡ ok r
      → d.scope_type ≡ c.scope_type
      → d.scope_id ≡ c.scope_id
      → d.expected_version ≤ c.expected_version
      → admitted around d ≡ ok tt
      → lookup
          (receipt_key d.actor_id d.idempotency_key)
          (execute_all around calls (execute around s c id now).0).receipts
        ≡ none
      → execute around (execute_all around calls (execute around s c id now).0) d later_id later
        ≡ (execute_all around calls (execute around s c id now).0, err version_conflict)
  stale_refused around s c d id now later_id later calls r unused h same_t same_s low good free =
      let t = execute_all around calls (execute around s c id now).0 in
      let kept : HasVersion c.scope_type c.scope_id (c.expected_version + 1) t =
        execute_all-HasVersion c.scope_type c.scope_id (c.expected_version + 1) around calls
          (execute around s c id now).0 (raised around s c id now r unused h) in
      let moved : HasVersion d.scope_type d.scope_id (c.expected_version + 1) t =
        subst₂ (λ a b. HasVersion a b (c.expected_version + 1) t) (sym same_t) (sym same_s) kept in
      let far = moved.reached in
      old_refused around t d later_id later
        (record {
          at_scope = moved.at_scope;
          found = moved.found;
          reached = omega (arith, far, low);
        })
        good free
