-- ===== src/Release/Center/Once.antt =====
-- A command of the release centre is carried out once.
use ai_dev_harness.Shared.{
  ℕ, ◌≡◌, ◌∙◌, ap, ap₂, none, some, List, [], ◌∷◌, Text, text_eq, text_eq_iff, ok, err,
  Result-cases, lookup, lookup-assign_same, lookup-assign_kept, Bool-cases, Option-cases, inl, inr,
  if◌then◌else◌, arith,
}
use ai_dev_harness.Release.Canary.{CanaryAggregate}
use ai_dev_harness.Release.Center.{
  idempotency_conflict, CenterStore, CanaryCommit, IdempotentResult, ReleaseCommandMetadata,
  command_key, aggregate_key, clashes, replay, commit_canary,
}
use ai_dev_harness.Release.Center.Service.{
  CommandInput, CanaryRequest, CenterSurroundings, command_of, prepared, entered, execute_canary,
}
use ai_dev_harness.Release.Center.Lives.{CenterCall, execute_calls}

abbrev pub remembered : Text → CanaryAggregate → IdempotentResult
remembered request_hash aggregate = record { request_hash = request_hash; aggregate = aggregate }

module _ {E : Type 0} where
  unused-lookup :
      (s : CenterStore) (c : ReleaseCommandMetadata)
      → replay {E = E} s c ≡ ok none
      → lookup (command_key c) s.idempotency ≡ none
  unfolding replay
  unused-lookup s c h = elim (Option-cases (lookup (command_key c) s.idempotency)) [
    | inl q ↦ q
    | inr (r, q) ↦ elim (Bool-cases (text_eq r.request_hash c.request_hash)) [
      | inl t ↦ absurd (ground (arith, h, q, t))
      | inr t ↦ absurd (ground (arith, h, q, t))
    ]
  ]

  replayed-lookup :
      (s : CenterStore) (c : ReleaseCommandMetadata) (a : CanaryAggregate)
      → replay {E = E} s c ≡ ok (some a)
      → lookup (command_key c) s.idempotency ≡ some (remembered c.request_hash a)
  unfolding replay
  replayed-lookup s c a h = elim (Option-cases (lookup (command_key c) s.idempotency)) [
    | inl q ↦ absurd (ground (arith, h, q))
    | inr (r, q) ↦ elim (Bool-cases (text_eq r.request_hash c.request_hash)) [
      | inr t ↦ absurd (ground (arith, h, q, t))
      | inl t ↦
          let one : r.request_hash ≡ c.request_hash =
            (text_eq_iff r.request_hash c.request_hash).0 t in
          let two : r.aggregate ≡ a = ground (arith, h, q, t) in
          let both : r ≡ remembered c.request_hash a = ap₂ remembered one two in q ∙ ap some both
    ]
  ]

  lookup-replay :
      (s : CenterStore) (c : ReleaseCommandMetadata) (hash : Text) (a : CanaryAggregate)
      → lookup (command_key c) s.idempotency ≡ some (remembered hash a)
      → replay {E = E} s c
        ≡ (if text_eq hash c.request_hash then ok (some a) else err idempotency_conflict)
  unfolding replay
  lookup-replay s c hash a h = rw (replay, h)

-- What the store remembers under a command key.
abbrev Remembers : Text → IdempotentResult → CenterStore → Type 0
Remembers key held s = lookup key s.idempotency ≡ some held

module _ {E : Type 0} (around : CenterSurroundings E) where
  module _ (key : Text) (held : IdempotentResult) where
    commit-Remembers :
        (s : CenterStore) (input : CanaryCommit)
        → Remembers key held s
        → Remembers key held (commit_canary {E = E} s input).0
    unfolding commit_canary
    commit-Remembers s input h = elim (Result-cases (replay {E = E} s input.command)) [
      | inr (e, q) ↦ rw (commit_canary, q) h
      | inl (some b, q) ↦ rw (commit_canary, q) h
      | inl (none, q) ↦
          elim (Bool-cases
            (clashes input.expected_version (lookup (aggregate_key input.aggregate) s.canaries))) [
              | inl t ↦ rw (commit_canary, q, t) h
              | inr t ↦
                  rw (commit_canary, q, t)
                    (lookup-assign_kept key (command_key input.command)
                      (remembered input.command.request_hash input.aggregate) held s.idempotency
                      (unused-lookup {E = E} s input.command q) h)
            ]
    ]

    execute-Remembers :
        (s : CenterStore) (input : CommandInput) (request : CanaryRequest) (id : Text) (now : ℕ)
        → Remembers key held s
        → Remembers key held (execute_canary around s input request id now).0
    unfolding execute_canary
    execute-Remembers s input request id now h =
        elim (Result-cases (entered around input request)) [
          | inr (e, q) ↦ rw (execute_canary, q) h
          | inl (u, q) ↦ elim (Result-cases (replay {E = E} s (command_of around input request))) [
            | inr (e, t) ↦ rw (execute_canary, q, t) h
            | inl (some a, t) ↦ rw (execute_canary, q, t) h
            | inl (none, t) ↦ elim (Result-cases (prepared around s input request id now)) [
              | inr (e, p) ↦ rw (execute_canary, q, t, p) h
              | inl ((a, n), p) ↦
                  rw (execute_canary, q, t, p)
                    (commit-Remembers s
                      (record {
                        aggregate = a;
                        expected_version = n;
                        command = command_of around input request;
                      })
                      h)
            ]
          ]
        ]

    calls-Remembers :
        (calls : List CenterCall) (s : CenterStore)
        → Remembers key held s
        → Remembers key held (execute_calls around calls s)
    unfolding execute_calls
    calls-Remembers [] s h = h
    calls-Remembers (c ∷ calls) s h =
        calls-Remembers calls (execute_canary around s c.input c.request c.canary_id c.now).0
          (execute-Remembers s c.input c.request c.canary_id c.now h)

  commit_remembered :
      (s : CenterStore) (input : CanaryCommit) (w : CanaryAggregate)
      → (commit_canary {E = E} s input).1 ≡ ok w
      → Remembers
          (command_key input.command)
          (remembered input.command.request_hash w)
          (commit_canary {E = E} s input).0
  unfolding commit_canary
  commit_remembered s input w = elim (Result-cases (replay {E = E} s input.command)) [
    | inr (e, q) ↦ rw (commit_canary, q) (λ h. absurd (ground (arith, h)))
    | inl (some b, q) ↦
        rw (commit_canary, q)
          (λ h.
            let same : b ≡ w = ground (arith, h) in
            replayed-lookup {E = E} s input.command b q
            ∙ ap (λ a. some (remembered input.command.request_hash a)) same)
    | inl (none, q) ↦
        elim (Bool-cases
          (clashes input.expected_version (lookup (aggregate_key input.aggregate) s.canaries))) [
            | inl t ↦ rw (commit_canary, q, t) (λ h. absurd (ground (arith, h)))
            | inr t ↦
                rw (commit_canary, q, t)
                  (λ h.
                    let same : input.aggregate ≡ w = ground (arith, h) in
                    lookup-assign_same (command_key input.command)
                      (remembered input.command.request_hash input.aggregate) s.idempotency
                    ∙ ap (λ a. some (remembered input.command.request_hash a)) same)
          ]
  ]

  execute_remembered :
      (s : CenterStore) (input : CommandInput) (request : CanaryRequest) (id : Text) (now : ℕ)
      (w : CanaryAggregate)
      → (execute_canary around s input request id now).1 ≡ ok w
      → Remembers
          (command_key (command_of around input request))
          (remembered (around.hash input request) w)
          (execute_canary around s input request id now).0
  unfolding execute_canary
  execute_remembered s input request id now w = elim (Result-cases (entered around input request)) [
    | inr (e, q) ↦ rw (execute_canary, q) (λ h. absurd (ground (arith, h)))
    | inl (u, q) ↦ elim (Result-cases (replay {E = E} s (command_of around input request))) [
      | inr (e, t) ↦ rw (execute_canary, q, t) (λ h. absurd (ground (arith, h)))
      | inl (some a, t) ↦
          rw (execute_canary, q, t)
            (λ h.
              let same : a ≡ w = ground (arith, h) in
              replayed-lookup {E = E} s (command_of around input request) a t
              ∙ ap (λ a. some (remembered (around.hash input request) a)) same)
      | inl (none, t) ↦ elim (Result-cases (prepared around s input request id now)) [
        | inr (e, p) ↦ rw (execute_canary, q, t, p) (λ h. absurd (ground (arith, h)))
        | inl ((a, n), p) ↦
            rw (execute_canary, q, t, p)
              (commit_remembered s
                (record {
                  aggregate = a;
                  expected_version = n;
                  command = command_of around input request;
                })
                w)
      ]
    ]
  ]

  -- After a command on a Canary succeeded, and whatever commands came since, an admitted command with the
  -- same organization, actor, endpoint and idempotency key changes nothing: it gets the aggregate of the
  -- first if the hashes of the two requests are equal, and an idempotency conflict otherwise.
  pub canary_command_once :
      (s : CenterStore) (input again : CommandInput) (request other : CanaryRequest)
      (id later_id : Text) (now later : ℕ) (calls : List CenterCall) (w : CanaryAggregate)
      → (execute_canary around s input request id now).1 ≡ ok w
      → command_key (command_of around again other) ≡ command_key (command_of around input request)
      → entered around again other ≡ ok tt
      → execute_canary around
          (execute_calls around calls (execute_canary around s input request id now).0)
          again
          other
          later_id
          later
        ≡ (
          execute_calls around calls (execute_canary around s input request id now).0,
          (if text_eq (around.hash input request) (around.hash again other)
              then ok w
              else err idempotency_conflict),
        )
  unfolding execute_canary
  canary_command_once s input again request other id later_id now later calls w h same_key good =
      let t = execute_calls around calls (execute_canary around s input request id now).0 in
      let held : lookup (command_key (command_of around input request)) t.idempotency
          ≡ some (remembered (around.hash input request) w) =
        calls-Remembers (command_key (command_of around input request))
          (remembered (around.hash input request) w) calls
          (execute_canary around s input request id now).0
          (execute_remembered s input request id now w h) in
      let found =
        lookup-replay {E = E} t (command_of around again other) (around.hash input request) w
          (ap (λ k. lookup k t.idempotency) same_key ∙ held) in
      elim (Bool-cases (text_eq (around.hash input request) (around.hash again other))) [
        | inl q ↦ ground (arith, good, found, q)
        | inr q ↦ ground (arith, good, found, q)
      ]
