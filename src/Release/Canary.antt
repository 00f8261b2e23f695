-- ===== src/Release/Canary.antt =====
-- The Canary aggregate of release-center/domain.ts and its life: `createCanary`, `approveCanary`
-- and `restartCanary`. The observation is in Canary/Observe, the report in Canary/Finalize.
-- Timestamps are milliseconds; `now` is the clock's reading that the caller passes.
pub mod Observe
pub mod Finalize
pub mod Windows
pub mod Life
pub mod Reach
pub mod Outcome
pub mod Events
pub mod Progress
mod Tests
use ai_dev_harness.Shared.{
  ℕ, ◌+◌, Bool, true, false, not, Option, none, some, List, [], any, text_mem, Text, ok, err, ◌>>=◌,
  ◌>>◌, throw_if, leb,
}
use ai_dev_harness.Release.CanaryGate.{WindowStatus, Severity, CanaryReport}
use ai_dev_harness.Release.Fields.{
  Number, whole, other, Checked, refused, bad_commit, bad_contract_version, scope_overlap,
  not_draft, not_stopped, is_commit_sha, strings, runbook, required, id,
}

pub data CanaryStatus : Type 0 where
  draft observing stopped passed : CanaryStatus

pub record CanaryWindow : Type 0 where
  pub attempt : ℕ
  pub sequence : ℕ
  pub started_at : ℕ
  pub ended_at : ℕ
  pub status : WindowStatus
  pub p0_count : ℕ
  pub p1_count : ℕ
  pub evidence_refs : List Text
  pub recorded_by : Text

-- The fields of a defect, an alert and an intervention beside the common ones.
pub data EventKind : Type 0 where
  defect : Severity → (status : Text) → (workaround : Option Text) → EventKind
  alert : Severity → (resolved : Bool) → EventKind
  intervention : (reason : Text) → EventKind

pub record CanaryEvent : Type 0 where
  pub id : Text
  pub attempt : ℕ
  pub observed_at : ℕ
  pub owner_id : Text
  pub evidence_refs : List Text
  pub recorded_by : Text
  pub kind : EventKind

pub record CanaryAggregate : Type 0 where
  pub id : Text
  pub organization_id : Text
  pub project_id : Text
  pub goal_id : Text
  pub candidate_commit : Text
  pub status : CanaryStatus
  pub attempt : ℕ
  pub goal_contract_version : ℕ
  pub allowed_areas : List Text
  pub excluded_areas : List Text
  pub success_conditions : List Text
  pub stop_conditions : List Text
  pub rollback_runbook : Text
  pub stop_runbook : Text
  pub owner_id : Option Text
  pub approved_at : Option ℕ
  pub started_at : Option ℕ
  pub ended_at : Option ℕ
  pub report : Option CanaryReport
  pub windows : List CanaryWindow
  pub events : List CanaryEvent
  pub version : ℕ
  pub created_by : Text
  pub created_at : ℕ
  pub updated_at : ℕ

pub record CreateCanaryInput : Type 0 where
  pub canary_id : Text
  pub organization_id : Text
  pub project_id : Text
  pub goal_id : Text
  pub candidate_commit : Text
  pub goal_contract_version : Number
  pub allowed_areas : List Text
  pub excluded_areas : List Text
  pub success_conditions : List Text
  pub stop_conditions : List Text
  pub rollback_runbook : Text
  pub stop_runbook : Text
  pub created_by : Text
  pub now : ℕ

abbrev positive : Number → Checked ℕ
positive (whole n) = throw_if (not (leb 1 n)) (refused bad_contract_version) >>= λ _. ok n
positive other = err (refused bad_contract_version)

pub create_canary : CreateCanaryInput → Checked CanaryAggregate
create_canary input = do
  throw_if (not (is_commit_sha input.candidate_commit)) (refused bad_commit)
  contract_version ← positive input.goal_contract_version
  allowed_areas ← strings input.allowed_areas "allowedAreas"
  excluded_areas ← strings input.excluded_areas "excludedAreas"
  throw_if (any (λ area. text_mem area excluded_areas) allowed_areas) (refused scope_overlap)
  canary_id ← id input.canary_id "canaryId"
  organization_id ← id input.organization_id "organizationId"
  project_id ← id input.project_id "projectId"
  goal_id ← id input.goal_id "goalId"
  success_conditions ← strings input.success_conditions "successConditions"
  stop_conditions ← strings input.stop_conditions "stopConditions"
  rollback_runbook ← runbook input.rollback_runbook "rollbackRunbook"
  stop_runbook ← runbook input.stop_runbook "stopRunbook"
  created_by ← id input.created_by "createdBy"
  ok (record {
    id = canary_id;
    organization_id = organization_id;
    project_id = project_id;
    goal_id = goal_id;
    candidate_commit = input.candidate_commit;
    status = draft;
    attempt = 1;
    goal_contract_version = contract_version;
    allowed_areas = allowed_areas;
    excluded_areas = excluded_areas;
    success_conditions = success_conditions;
    stop_conditions = stop_conditions;
    rollback_runbook = rollback_runbook;
    stop_runbook = stop_runbook;
    owner_id = none;
    approved_at = none;
    started_at = none;
    ended_at = none;
    report = none;
    windows = [];
    events = [];
    version = 1;
    created_by = created_by;
    created_at = input.now;
    updated_at = input.now;
  })

abbrev pub is_draft : CanaryStatus → Bool
is_draft draft = true
is_draft _ = false

abbrev is_stopped : CanaryStatus → Bool
is_stopped stopped = true
is_stopped _ = false

abbrev pub is_observing : CanaryStatus → Bool
is_observing observing = true
is_observing _ = false

unfoldable pub approve_canary :
    CanaryAggregate → (actor_id reason : Text) (now : ℕ) → Checked CanaryAggregate
approve_canary value actor_id reason now = do
  throw_if (not (is_draft value.status)) (refused not_draft)
  checked_reason ← required reason "reason" 4000
  owner ← id actor_id "actorId"
  ok (record value {
    status = observing;
    owner_id = some owner;
    approved_at = some now;
    started_at = some now;
    ended_at = none;
    version = value.version + 1;
    updated_at = now;
  })

pub restart_canary : CanaryAggregate → (actor_id reason : Text) (now : ℕ) → Checked CanaryAggregate
restart_canary value actor_id reason now = do
  throw_if (not (is_stopped value.status)) (refused not_stopped)
  checked_reason ← required reason "reason" 4000
  owner ← id actor_id "actorId"
  ok (record value {
    status = observing;
    attempt = value.attempt + 1;
    owner_id = some owner;
    approved_at = some now;
    started_at = some now;
    ended_at = none;
    report = none;
    version = value.version + 1;
    updated_at = now;
  })
