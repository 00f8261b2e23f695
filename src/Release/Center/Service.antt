-- ===== src/Release/Center/Service.antt =====
-- The commands on a Canary of prototype/web-ui/app/release-center/service.ts. The authorizer, the hash
-- of a request, `toISOString` and what `new Date(…)` reads from a text are parameters.
use ai_dev_harness.Shared.{
  ℕ, Bool, true, false, not, ◌&&◌, ◌||◌, ◌==◌, Option, none, some, List, last?, length, ltb, Text,
  lit, trim, Result, ok, err, throw_if, ◌>>◌, ◌>>=◌,
}
use ai_dev_harness.Release.Fields.{Number, Checked}
use ai_dev_harness.Release.Canary.{
  CanaryAggregate, CreateCanaryInput, create_canary, approve_canary, restart_canary,
}
use ai_dev_harness.Release.Canary.Observe.{
  NewWindow, NewEvent, windows_of, record_canary_window, record_canary_event, resolve_canary_alert,
}
use ai_dev_harness.Release.Canary.Finalize.{finalize_canary}
use ai_dev_harness.Release.Center.{
  CenterError, not_found, no_window, no_verification, invalid_identity, unauthorized, domain,
  ReleaseCommandMetadata, CenterStore, replay, get_canary, commit_canary,
  find_passed_goal_verification,
}

pub record CommandInput : Type 0 where
  pub organization_id : Text
  pub project_id : Text
  pub actor_id : Text
  pub request_id : Text
  pub idempotency_key : Text
  pub reason : Text

pub record NewCanary : Type 0 where
  pub goal_id : Text
  pub candidate_commit : Text
  pub goal_contract_version : Number
  pub allowed_areas : List Text
  pub excluded_areas : List Text
  pub success_conditions : List Text
  pub stop_conditions : List Text
  pub rollback_runbook : Text
  pub stop_runbook : Text

-- What a command on a Canary that exists adds to the common input.
pub data CanaryChange : Type 0 where
  approve restart finalize : CanaryChange
  window : NewWindow → CanaryChange
  event : NewEvent → CanaryChange
  resolve : (event_id : Text) → CanaryChange

pub data CanaryRequest : Type 0 where
  create : NewCanary → CanaryRequest
  change : (canary_id : Text) → (expected_version : ℕ) → CanaryChange → CanaryRequest

pub record CenterSurroundings (E : Type 0) : Type 0 where
  pub authorize :
      (organization_id project_id actor_id : Text) → (creates : Bool) → Result E (Unit {0})
  pub hash : CommandInput → CanaryRequest → Text
  pub to_iso : ℕ → Text
  pub parse_date : Text → Option ℕ

abbrev bounded : Text → ℕ → Bool
bounded value minimum =
    not (length (trim value) == 0 || ltb (length (trim value)) minimum || ltb 4000 (length value))

abbrev pub valid_identity : CommandInput → Bool
valid_identity input =
    bounded input.actor_id 1
    && bounded input.request_id 1
    && bounded input.idempotency_key 8
    && bounded input.reason 20

abbrev pub endpoint_of : CanaryRequest → Text
endpoint_of (create n) = lit "release.canary.create"
endpoint_of (change i v approve) = lit "release.canary.approve"
endpoint_of (change i v restart) = lit "release.canary.restart"
endpoint_of (change i v finalize) = lit "release.canary.finalize"
endpoint_of (change i v (window w)) = lit "release.canary.window"
endpoint_of (change i v (event e)) = lit "release.canary.event"
endpoint_of (change i v (resolve e)) = lit "release.canary.resolve-alert"

abbrev pub command_of :
    {E : Type 0} → CenterSurroundings E → CommandInput → CanaryRequest → ReleaseCommandMetadata
command_of around input request = record {
  organization_id = input.organization_id;
  actor_id = input.actor_id;
  endpoint = endpoint_of request;
  idempotency_key = input.idempotency_key;
  request_hash = around.hash input request;
}

abbrev pub creation : CommandInput → NewCanary → (canary_id : Text) → (now : ℕ) → CreateCanaryInput
creation input n canary_id now = record {
  canary_id = canary_id;
  organization_id = input.organization_id;
  project_id = input.project_id;
  goal_id = n.goal_id;
  candidate_commit = n.candidate_commit;
  goal_contract_version = n.goal_contract_version;
  allowed_areas = n.allowed_areas;
  excluded_areas = n.excluded_areas;
  success_conditions = n.success_conditions;
  stop_conditions = n.stop_conditions;
  rollback_runbook = n.rollback_runbook;
  stop_runbook = n.stop_runbook;
  created_by = input.actor_id;
  now = now;
}

abbrev pub in_domain :
    {E : Type 0} → Checked CanaryAggregate → Result (CenterError E) CanaryAggregate
in_domain (ok a) = ok a
in_domain (err e) = err (domain e)

-- `finalizeCanary`: the Goal verification inside the window, then the domain.
unfoldable pub finish :
    {E : Type 0}
    → CenterSurroundings E
    → CenterStore
    → CommandInput
    → CanaryAggregate
    → (now : ℕ) → Result (CenterError E) CanaryAggregate
finish around s input current now = elim current.started_at [
  | none ↦ err no_window
  | some started ↦ elim (last? (windows_of current)) [
    | none ↦ err no_window
    | some w ↦
        elim (find_passed_goal_verification s input.organization_id input.project_id current.goal_id
          (around.to_iso started) (around.to_iso w.ended_at)) [
            | none ↦ err no_verification
            | some v ↦ in_domain (finalize_canary around.parse_date current v now)
          ]
  ]
]

-- The operation of the domain that a command calls.
unfoldable pub changed_canary :
    {E : Type 0}
    → CenterSurroundings E
    → CenterStore
    → CommandInput
    → CanaryAggregate
    → CanaryChange
    → (now : ℕ) → Result (CenterError E) CanaryAggregate
unfolding finish
changed_canary around s input current approve now =
    in_domain (approve_canary current input.actor_id input.reason now)
changed_canary around s input current restart now =
    in_domain (restart_canary current input.actor_id input.reason now)
changed_canary around s input current finalize now = finish around s input current now
changed_canary around s input current (window w) now =
    in_domain (record_canary_window around.parse_date current input.actor_id w now)
changed_canary around s input current (event e) now =
    in_domain (record_canary_event around.parse_date current input.actor_id e now)
changed_canary around s input current (resolve event_id) now =
    in_domain (resolve_canary_alert current event_id input.reason now)

-- The aggregate of a command that is not a replay, with the version that it expects.
unfoldable pub prepared :
    {E : Type 0}
    → CenterSurroundings E
    → CenterStore
    → CommandInput
    → CanaryRequest
    → (canary_id : Text) → (now : ℕ) → Result (CenterError E) (CanaryAggregate × ℕ)
unfolding changed_canary
prepared around s input (create n) canary_id now =
    in_domain (create_canary (creation input n canary_id now)) >>= λ a. ok (a, 0)
prepared around s input (change id expected_version c) canary_id now =
    elim (get_canary s input.organization_id input.project_id id) [
      | none ↦ err not_found
      | some current ↦ changed_canary around s input current c now >>= λ a. ok (a, expected_version)
    ]

abbrev is_creation : CanaryRequest → Bool
is_creation (create n) = true
is_creation (change i v c) = false

abbrev authorized : {E : Type 0} → Result E (Unit {0}) → Result (CenterError E) (Unit {0})
authorized (ok u) = ok u
authorized (err e) = err (unauthorized e)

-- `authorizePermission` or `authorizeRole`, and `validIdentity`.
unfoldable pub entered :
    {E : Type 0}
    → CenterSurroundings E
    → CommandInput
    → CanaryRequest
    → Result (CenterError E) (Unit {0})
entered around input request =
    authorized
      (around.authorize input.organization_id input.project_id input.actor_id (is_creation request))
    >> throw_if (not (valid_identity input)) invalid_identity

-- A command of the service, with the identity that is drawn and the time.
unfoldable pub execute_canary :
    {E : Type 0}
    → CenterSurroundings E
    → CenterStore
    → CommandInput
    → CanaryRequest
    → (canary_id : Text) → (now : ℕ) → CenterStore × Result (CenterError E) CanaryAggregate
unfolding entered replay prepared commit_canary
execute_canary {E} around s input request canary_id now = elim (entered around input request) [
  | err e ↦ (s, err e)
  | ok u ↦ elim (replay {E = E} s (command_of around input request)) [
    | err e ↦ (s, err e)
    | ok (some a) ↦ (s, ok a)
    | ok none ↦ elim (prepared around s input request canary_id now) [
      | err e ↦ (s, err e)
      | ok (a, expected_version) ↦ commit_canary s (record {
        aggregate = a;
        expected_version = expected_version;
        command = command_of around input request;
      })
    ]
  ]
]
