-- ===== src/Control/Receipts.antt =====
-- The receipts of the execution controls: a command is carried out once.
use ai_dev_harness.Shared.{
  ◌≡◌, ◌∙◌, ap, ap₂, ◌==◌, none, some, find, Text, text_eq, text_eq_iff, Result, ok, err,
  Result-cases, lookup, Bool-cases, Option-cases, inl, inr, if◌then◌else◌, arith,
}
use ai_dev_harness.Control.{ExecutionControlReceipt, ExecutionControlRecord}
use ai_dev_harness.Control.Repository.{
  ControlError, idempotency_conflict, version_conflict, Stored, Store, Commit, is_of, receipt_key,
  find_receipt, commit, written, receipt_of,
}

abbrev pub stored : Text → ExecutionControlReceipt → Stored
stored request_hash receipt = record { request_hash = request_hash; receipt = receipt }

module _ {ℓ} {E : Type ℓ} where
  pub found-lookup :
      (s : Store) (actor key hash : Text) (r : ExecutionControlReceipt)
      → find_receipt {E = E} s actor key hash ≡ ok (some r)
      → lookup (receipt_key actor key) s.receipts ≡ some (stored hash r)
  unfolding find_receipt
  found-lookup s actor key hash r h =
      elim (Option-cases (lookup (receipt_key actor key) s.receipts)) [
        | inl q ↦ absurd (ground (arith, h, q))
        | inr (st, q) ↦ elim (Bool-cases (text_eq st.request_hash hash)) [
          | inr t ↦ absurd (ground (arith, h, q, t))
          | inl t ↦
              let one : st.request_hash ≡ hash = (text_eq_iff st.request_hash hash).0 t in
              let two : st.receipt ≡ r = ground (arith, h, q, t) in
              let both : st ≡ stored hash r = ap₂ stored one two in q ∙ ap some both
        ]
      ]

  pub free-lookup :
      (s : Store) (actor key hash : Text)
      → find_receipt {E = E} s actor key hash ≡ ok none
      → lookup (receipt_key actor key) s.receipts ≡ none
  unfolding find_receipt
  free-lookup s actor key hash h = elim (Option-cases (lookup (receipt_key actor key) s.receipts)) [
    | inl q ↦ q
    | inr (st, q) ↦ elim (Bool-cases (text_eq st.request_hash hash)) [
      | inr t ↦ absurd (ground (arith, h, q, t))
      | inl t ↦ absurd (ground (arith, h, q, t))
    ]
  ]

  pub lookup-find :
      (s : Store) (actor key hash known : Text) (r : ExecutionControlReceipt)
      → lookup (receipt_key actor key) s.receipts ≡ some (stored known r)
      → find_receipt {E = E} s actor key hash
        ≡ (if text_eq known hash then ok (some r) else err idempotency_conflict)
  unfolding find_receipt
  lookup-find s actor key hash known r h = rw (find_receipt, h)

  -- What `commit` leaves, by its three branches.
  pub data Committed (s : Store) (input : Commit)
      : Store × Result (ControlError E) ExecutionControlReceipt → Type ℓ where
    refused : (e : ControlError E) → Committed s input (s, err e)
    replayed :
        (r : ExecutionControlReceipt)
        → lookup (receipt_key input.actor_id input.idempotency_key) s.receipts
          ≡ some (stored input.request_hash r)
        → Committed s input (s, ok r)
    fresh :
        (r : ExecutionControlRecord)
        → lookup (receipt_key input.actor_id input.idempotency_key) s.receipts ≡ none
        → find (is_of input.current.scope_type input.current.scope_id) s.records ≡ some r
        → r.version ≡ input.expected_version
        → Committed s input (written s input r, ok (receipt_of input r))

  pub commit-Committed : (s : Store) (input : Commit) → Committed s input (commit s input)
  unfolding commit
  commit-Committed s input =
      elim (Result-cases
        (find_receipt {E = E} s input.actor_id input.idempotency_key input.request_hash)) [
          | inr (e, q) ↦ rw (commit, q) (refused e)
          | inl (some r, q) ↦
              rw (commit, q)
                (replayed r
                  (found-lookup s input.actor_id input.idempotency_key input.request_hash r q))
          | inl (none, q) ↦
              elim (Option-cases
                (find (is_of input.current.scope_type input.current.scope_id) s.records)) [
                  | inl t ↦ rw (commit, q, t) (refused version_conflict)
                  | inr (r, t) ↦ elim (Bool-cases (r.version == input.expected_version)) [
                    | inr u ↦ rw (commit, q, t, u) (refused version_conflict)
                    | inl u ↦
                        rw (commit, q, t, u)
                          (fresh r
                            (free-lookup s input.actor_id input.idempotency_key input.request_hash
                              q)
                            t (ground arith))
                  ]
                ]
        ]
