-- ===== src/Release/Center/Lives.antt =====
-- What the service of the release centre stores: Canaries that the operations of the domain made.
use ai_dev_harness.Shared.{
  ℕ, ◌≡◌, ◌∙◌, sym, ap, subst, none, some, List, [], ◌∷◌, All, All-map, last?, Text, ok, err,
  Result-cases, lookup, assign-All, lookup-All, >>=-eq-ok, Bool-cases, Option-cases, inl, inr,
  arith,
}
use ai_dev_harness.Release.Fields.{Checked}
use ai_dev_harness.Release.Canary.{CanaryAggregate, create_canary, approve_canary, restart_canary}
use ai_dev_harness.Release.Canary.Observe.{
  windows_of, record_canary_window, record_canary_event, resolve_canary_alert,
}
use ai_dev_harness.Release.Canary.Finalize.{finalize_canary}
use ai_dev_harness.Release.Canary.Windows.{IsConsistent}
use ai_dev_harness.Release.Canary.Reach.{CanaryStep, CanaryReach, CanaryReach-IsConsistent}
use ai_dev_harness.Release.Center.{
  CenterStore, CanaryCommit, storage_key, aggregate_key, clashes, replay, get_canary, commit_canary,
  find_passed_goal_verification,
}
use ai_dev_harness.Release.Center.Service.{
  CommandInput, CanaryChange, approve, restart, finalize, window, event, resolve, CanaryRequest,
  create, change, CenterSurroundings, command_of, creation, in_domain, finish, changed_canary,
  prepared, entered, execute_canary,
}

in_domain-ok :
    {E : Type 0} (r : Checked CanaryAggregate) (a : CanaryAggregate)
    → in_domain {E = E} r ≡ ok a
    → r ≡ ok a
in_domain-ok (ok b) a h = ground (arith, h)
in_domain-ok (err e) a h = absurd (ground (arith, h))

module _ {E : Type 0} (around : CenterSurroundings E) where
  finish-CanaryStep :
      (s : CenterStore) (input : CommandInput) (v w : CanaryAggregate) (now : ℕ)
      → finish around s input v now ≡ ok w
      → CanaryStep around.parse_date v w
  unfolding finish
  finish-CanaryStep s input v w now h = elim (Option-cases v.started_at) [
    | inl q ↦ absurd (ground (arith, q, h))
    | inr (started, q) ↦ elim (Option-cases (last? (windows_of v))) [
      | inl t ↦ absurd (ground (arith, q, t, h))
      | inr (l, t) ↦
          let found =
            find_passed_goal_verification s input.organization_id input.project_id v.goal_id
              (around.to_iso started) (around.to_iso l.ended_at) in
          elim (Option-cases found) [
            | inl u ↦ absurd (ground (arith, q, t, u, h))
            | inr (p, u) ↦
                let done : in_domain {E = E} (finalize_canary around.parse_date v p now) ≡ ok w =
                  rw (finish, q, t, u) at h in
                CanaryStep.finalize p now
                  (in_domain-ok (finalize_canary around.parse_date v p now) w done)
          ]
    ]
  ]

  changed-CanaryStep :
      (s : CenterStore) (input : CommandInput) (v w : CanaryAggregate) (c : CanaryChange) (now : ℕ)
      → changed_canary around s input v c now ≡ ok w
      → CanaryStep around.parse_date v w
  unfolding changed_canary
  changed-CanaryStep s input v w approve now h =
      CanaryStep.approve input.actor_id input.reason now
        (in_domain-ok {E = E} (approve_canary v input.actor_id input.reason now) w h)
  changed-CanaryStep s input v w restart now h =
      CanaryStep.restart input.actor_id input.reason now
        (in_domain-ok {E = E} (restart_canary v input.actor_id input.reason now) w h)
  changed-CanaryStep s input v w finalize now h = finish-CanaryStep s input v w now h
  changed-CanaryStep s input v w (window nw) now h =
      CanaryStep.window input.actor_id nw now
        (in_domain-ok {E = E} (record_canary_window around.parse_date v input.actor_id nw now) w h)
  changed-CanaryStep s input v w (event e) now h =
      CanaryStep.event input.actor_id e now
        (in_domain-ok {E = E} (record_canary_event around.parse_date v input.actor_id e now) w h)
  changed-CanaryStep s input v w (resolve i) now h =
      CanaryStep.resolve i input.reason now
        (in_domain-ok {E = E} (resolve_canary_alert v i input.reason now) w h)

  abbrev AllReached : CenterStore → Type 0
  AllReached s = All (λ e. CanaryReach around.parse_date e.1) s.canaries

  prepared-CanaryReach :
      (s : CenterStore) (input : CommandInput) (request : CanaryRequest) (id : Text) (now : ℕ)
      (a : CanaryAggregate) (n : ℕ)
      → AllReached s
      → prepared around s input request id now ≡ ok (a, n)
      → CanaryReach around.parse_date a
  unfolding prepared
  prepared-CanaryReach s input (create new) id now a n r h =
      let (b, made, same) =
        >>=-eq-ok (in_domain {E = E} (create_canary (creation input new id now))) (λ a. ok (a, 0))
          h in
      let one : b ≡ a = ground (arith, same) in
      CanaryReach.create (creation input new id now)
        (in_domain-ok {E = E} (create_canary (creation input new id now)) a (made ∙ ap ok one))
  prepared-CanaryReach s input (change cid version c) id now a n r h =
      elim (Option-cases (get_canary s input.organization_id input.project_id cid)) [
        | inl q ↦ absurd (ground (arith, q, h))
        | inr (v, q) ↦
            let (b, made, same) =
              >>=-eq-ok (changed_canary around s input v c now) (λ a. ok (a, version))
                (rw (prepared, q) at h) in
            let one : b ≡ a = ground (arith, same) in
            let reached =
              lookup-All (CanaryReach around.parse_date)
                (storage_key input.organization_id input.project_id cid) v s.canaries r q in
            CanaryReach.next reached (changed-CanaryStep s input v a c now (made ∙ ap ok one))
      ]

  commit-AllReached :
      (s : CenterStore) (input : CanaryCommit)
      → AllReached s
      → CanaryReach around.parse_date input.aggregate
      → AllReached (commit_canary {E = E} s input).0
  unfolding commit_canary
  commit-AllReached s input r a = elim (Result-cases (replay {E = E} s input.command)) [
    | inr (e, q) ↦ rw (commit_canary, q) r
    | inl (some b, q) ↦ rw (commit_canary, q) r
    | inl (none, q) ↦
        elim (Bool-cases
          (clashes input.expected_version (lookup (aggregate_key input.aggregate) s.canaries))) [
            | inl t ↦ rw (commit_canary, q, t) r
            | inr t ↦
                rw (commit_canary, q, t)
                  (assign-All (CanaryReach around.parse_date) (aggregate_key input.aggregate)
                    input.aggregate s.canaries a r)
          ]
  ]

  execute-AllReached :
      (s : CenterStore) (input : CommandInput) (request : CanaryRequest) (id : Text) (now : ℕ)
      → AllReached s
      → AllReached (execute_canary around s input request id now).0
  unfolding execute_canary
  execute-AllReached s input request id now r = elim (Result-cases (entered around input request)) [
    | inr (e, q) ↦ rw (execute_canary, q) r
    | inl (u, q) ↦ elim (Result-cases (replay {E = E} s (command_of around input request))) [
      | inr (e, t) ↦ rw (execute_canary, q, t) r
      | inl (some a, t) ↦ rw (execute_canary, q, t) r
      | inl (none, t) ↦ elim (Result-cases (prepared around s input request id now)) [
        | inr (e, p) ↦ rw (execute_canary, q, t, p) r
        | inl ((a, n), p) ↦
            rw (execute_canary, q, t, p)
              (commit-AllReached s
                (record {
                  aggregate = a;
                  expected_version = n;
                  command = command_of around input request;
                })
                r (prepared-CanaryReach s input request id now a n r p))
      ]
    ]
  ]

-- A command, with the identity that is drawn for it and its time.
pub record CenterCall : Type 0 where
  pub input : CommandInput
  pub request : CanaryRequest
  pub canary_id : Text
  pub now : ℕ

unfoldable pub execute_calls :
    {E : Type 0} → CenterSurroundings E → List CenterCall → CenterStore → CenterStore
execute_calls around [] s = s
execute_calls around (c ∷ calls) s =
    execute_calls around calls (execute_canary around s c.input c.request c.canary_id c.now).0

module _ {E : Type 0} (around : CenterSurroundings E) where
  calls-AllReached :
      (calls : List CenterCall) (s : CenterStore)
      → AllReached around s
      → AllReached around (execute_calls around calls s)
  unfolding execute_calls
  calls-AllReached [] s r = r
  calls-AllReached (c ∷ calls) s r =
      calls-AllReached calls (execute_canary around s c.input c.request c.canary_id c.now).0
        (execute-AllReached around s c.input c.request c.canary_id c.now r)

  -- Whatever commands come, from a centre without Canaries: every Canary that is stored is consistent,
  -- as one that the operations of the domain made.
  pub stored-IsConsistent :
      (calls : List CenterCall) (s : CenterStore)
      → s.canaries ≡ []
      → All
          (λ e. CanaryReach around.parse_date e.1 × IsConsistent e.1)
          (execute_calls around calls s).canaries
  stored-IsConsistent calls s empty =
      let start : AllReached around s =
        subst (λ l. All (λ e. CanaryReach around.parse_date e.1) l) (sym empty) tt in
      All-map (λ e. CanaryReach around.parse_date e.1)
        (λ e. CanaryReach around.parse_date e.1 × IsConsistent e.1)
        (λ e r. (r, CanaryReach-IsConsistent around.parse_date r))
        (execute_calls around calls s).canaries (calls-AllReached calls s start)
