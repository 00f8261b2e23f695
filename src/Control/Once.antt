-- ===== src/Control/Once.antt =====
-- `execute` of application/execution-control-service.ts, called again and again: a command is carried out
-- once.
use ai_dev_harness.Shared.{
  ◌≡◌, ◌∙◌, refl, ap, ap₂, ◌==◌, none, some, List, [], ◌∷◌, find, Text, text_eq, Result, ok, err,
  Result-cases, lookup, lookup-assign_same, lookup-assign_kept, Bool-cases, Option-cases, inl, inr,
  if◌then◌else◌, arith,
}
use ai_dev_harness.Control.{ExecutionControlReceipt, ExecutionControlRecord, ScopeType}
use ai_dev_harness.Control.Repository.{
  ControlError, idempotency_conflict, Stored, Store, Commit, is_of, receipt_key, find_receipt, get,
  commit, written, receipt_of,
}
use ai_dev_harness.Control.Service.{
  ExecutionControlCommand, request_of, Surroundings, admitted, commit_of, carry_out, execute,
}
use ai_dev_harness.Control.Receipts.{
  stored, found-lookup, lookup-find, Committed, refused, replayed, fresh, commit-Committed,
}

-- A call, with the identity of the record that it might make and the time.
pub record Call : Type 0 where
  pub command : ExecutionControlCommand
  pub id : Text
  pub now : Text

unfoldable pub execute_all {ℓ} : {E : Type ℓ} → Surroundings E → List Call → Store → Store
execute_all around [] s = s
execute_all around (c ∷ calls) s =
    execute_all around calls (execute around s c.command c.id c.now).0

pub get-receipts :
    (id : Text) (s : Store) (t : ScopeType) (scope : Text)
    → (get id s t scope).0.receipts ≡ s.receipts
unfolding get
get-receipts id s t scope = elim (Option-cases (find (is_of t scope) s.records)) [
  | inl q ↦ rw (get, q) refl
  | inr (r, q) ↦ rw (get, q) refl
]

abbrev Keeping : Text → Stored → Store → Type 0
Keeping key held s = lookup key s.receipts ≡ some held

module _ {ℓ} {E : Type ℓ} where
  module _ (key : Text) (held : Stored) where
    Committed-Keeps :
        (s : Store) (input : Commit) (out : Store × Result (ControlError E) ExecutionControlReceipt)
        → Committed s input out
        → Keeping key held s
        → Keeping key held out.0
    unfolding written
    Committed-Keeps s input out (refused e) h = h
    Committed-Keeps s input out (replayed r found) h = h
    Committed-Keeps s input out (fresh r free found current) h =
        lookup-assign_kept key (receipt_key input.actor_id input.idempotency_key)
          (stored input.request_hash (receipt_of input r)) held s.receipts free h

    carry_out-Keeps :
        (around : Surroundings E) (s : Store) (c : ExecutionControlCommand) (hash id now : Text)
        → Keeping key held s
        → Keeping key held (carry_out {E = E} s c hash id now).0
    unfolding carry_out
    carry_out-Keeps around s c hash id now h =
        let found = get id s c.scope_type c.scope_id in
        let same : Keeping key held found.0 =
          ap (lookup key) (get-receipts id s c.scope_type c.scope_id) ∙ h in
        elim (Result-cases (find_receipt {E = E} s c.actor_id c.idempotency_key hash)) [
          | inr (e, q) ↦ rw (carry_out, q) h
          | inl (some r, q) ↦ rw (carry_out, q) h
          | inl (none, q) ↦ elim (Bool-cases (found.1.version == c.expected_version)) [
            | inr u ↦ rw (carry_out, q, u) same
            | inl u ↦
                rw (carry_out, q, u)
                  (Committed-Keeps found.0 (commit_of c hash now found.1)
                    (commit found.0 (commit_of c hash now found.1))
                    (commit-Committed found.0 (commit_of c hash now found.1)) same)
          ]
        ]

    execute-Keeps :
        (around : Surroundings E) (s : Store) (c : ExecutionControlCommand) (id now : Text)
        → Keeping key held s
        → Keeping key held (execute around s c id now).0
    unfolding execute
    execute-Keeps around s c id now h = elim (Result-cases (admitted around c)) [
      | inr (e, q) ↦ rw (execute, q) h
      | inl (u, q) ↦
          rw (execute, q) (carry_out-Keeps around s c (around.digest (request_of c)) id now h)
    ]

    execute_all-Keeps :
        (around : Surroundings E) (calls : List Call) (s : Store)
        → Keeping key held s
        → Keeping key held (execute_all around calls s)
    unfolding execute_all
    execute_all-Keeps around [] s h = h
    execute_all-Keeps around (c ∷ calls) s h =
        execute_all-Keeps around calls (execute around s c.command c.id c.now).0
          (execute-Keeps around s c.command c.id c.now h)

  abbrev Succeeds :
      ExecutionControlCommand
      → Text
      → ExecutionControlReceipt
      → Store × Result (ControlError E) ExecutionControlReceipt
      → Type ℓ
  Succeeds c hash r out =
      out.1 ≡ ok r
      → lookup (receipt_key c.actor_id c.idempotency_key) out.0.receipts ≡ some (stored hash r)

  Committed-Succeeds :
      (s : Store) (c : ExecutionControlCommand) (hash now : Text) (current : ExecutionControlRecord)
      (r : ExecutionControlReceipt) (out : Store × Result (ControlError E) ExecutionControlReceipt)
      → Committed s (commit_of c hash now current) out
      → Succeeds c hash r out
  unfolding written
  Committed-Succeeds s c hash now current r out (refused e) h = absurd (ground (arith, h))
  Committed-Succeeds s c hash now current r out (replayed k found) h =
      let same : k ≡ r = ground (arith, h) in found ∙ ap (λ k. some (stored hash k)) same
  Committed-Succeeds s c hash now current r out (fresh k free found here) h =
      let same : receipt_of (commit_of c hash now current) k ≡ r = ground (arith, h) in
      lookup-assign_same (receipt_key c.actor_id c.idempotency_key)
        (stored hash (receipt_of (commit_of c hash now current) k)) s.receipts
      ∙ ap (λ k. some (stored hash k)) same

  carry_out-Succeeds :
      (s : Store) (c : ExecutionControlCommand) (hash id now : Text) (r : ExecutionControlReceipt)
      → Succeeds c hash r (carry_out s c hash id now)
  unfolding carry_out
  carry_out-Succeeds s c hash id now r =
      let found = get id s c.scope_type c.scope_id in
      elim (Result-cases (find_receipt {E = E} s c.actor_id c.idempotency_key hash)) [
        | inr (e, q) ↦ rw (carry_out, q) (λ h. absurd (ground (arith, h)))
        | inl (some k, q) ↦
            rw (carry_out, q)
              (λ h.
                let same : k ≡ r = ground (arith, h) in
                found-lookup s c.actor_id c.idempotency_key hash k q
                ∙ ap (λ k. some (stored hash k)) same)
        | inl (none, q) ↦ elim (Bool-cases (found.1.version == c.expected_version)) [
          | inr u ↦ rw (carry_out, q, u) (λ h. absurd (ground (arith, h)))
          | inl u ↦
              rw (carry_out, q, u)
                (Committed-Succeeds found.0 c hash now found.1 r
                  (commit found.0 (commit_of c hash now found.1))
                  (commit-Committed found.0 (commit_of c hash now found.1)))
        ]
      ]

  execute-Succeeds :
      (around : Surroundings E) (s : Store) (c : ExecutionControlCommand) (id now : Text)
      (r : ExecutionControlReceipt)
      → Succeeds c (around.digest (request_of c)) r (execute around s c id now)
  unfolding execute
  execute-Succeeds around s c id now r = elim (Result-cases (admitted around c)) [
    | inr (e, q) ↦ rw (execute, q) (λ h. absurd (ground (arith, h)))
    | inl (u, q) ↦ rw (execute, q) (carry_out-Succeeds s c (around.digest (request_of c)) id now r)
  ]

  -- After a command was carried out, and whatever commands came since, a command of the actor under
  -- the same idempotency key that is admitted changes nothing: it gets the receipt of the first if
  -- the digests of the two requests are equal, and an idempotency conflict otherwise.
  pub executed_once :
      (around : Surroundings E) (s : Store) (c d : ExecutionControlCommand)
      (id now later_id later : Text) (calls : List Call) (r : ExecutionControlReceipt)
      → (execute around s c id now).1 ≡ ok r
      → d.actor_id ≡ c.actor_id
      → d.idempotency_key ≡ c.idempotency_key
      → admitted around d ≡ ok tt
      → execute around (execute_all around calls (execute around s c id now).0) d later_id later ≡ (
        execute_all around calls (execute around s c id now).0,
        (if text_eq (around.digest (request_of c)) (around.digest (request_of d))
            then ok r
            else err idempotency_conflict),
      )
  unfolding execute carry_out
  executed_once around s c d id now later_id later calls r h actor key good =
      let t = execute_all around calls (execute around s c id now).0 in
      let hash = around.digest (request_of c) in
      let other = around.digest (request_of d) in
      let held : lookup (receipt_key c.actor_id c.idempotency_key) t.receipts
          ≡ some (stored hash r) =
        execute_all-Keeps (receipt_key c.actor_id c.idempotency_key) (stored hash r) around calls
          (execute around s c id now).0 (execute-Succeeds around s c id now r h) in
      let found = lookup-find {E = E} t c.actor_id c.idempotency_key other hash r held in
      let same = ap₂ (λ a k. find_receipt {E = E} t a k other) actor key ∙ found in
      elim (Bool-cases (text_eq hash other)) [
        | inl q ↦ ground (arith, good, same, q)
        | inr q ↦ ground (arith, good, same, q)
      ]
