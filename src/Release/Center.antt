-- ===== src/Release/Center.antt =====
-- The Canary half of prototype/web-ui/app/release-center/memory-repository.ts, with the commands of
-- repository.ts beside it: what is stored, under which keys, and when a commit is accepted.
pub mod Service
pub mod Lives
pub mod Once
mod Tests
use ai_dev_harness.Shared.{
  ℕ, Bool, false, not, ◌&&◌, ◌||◌, ◌==◌, Option, none, some, is_some, List, [], ◌∷◌, ◌++◌, ltb,
  Text, text_eq, unit_le, Result, ok, err, lookup, assign, if◌then◌else◌,
}
use ai_dev_harness.Release.Fields.{ReleaseError}
use ai_dev_harness.Release.Canary.{CanaryAggregate}
use ai_dev_harness.Release.Canary.Finalize.{PassedGoalVerification}

pub data CenterError (E : Type 0) : Type 0 where
  idempotency_conflict version_conflict not_found no_window no_verification : CenterError E
  invalid_identity : CenterError E
  unauthorized : E → CenterError E
  domain : ReleaseError → CenterError E

-- What the repository reads of `ReleaseCommandMetadata`.
pub record ReleaseCommandMetadata : Type 0 where
  pub organization_id : Text
  pub actor_id : Text
  pub endpoint : Text
  pub idempotency_key : Text
  pub request_hash : Text

pub record CanaryCommit : Type 0 where
  pub aggregate : CanaryAggregate
  pub expected_version : ℕ
  pub command : ReleaseCommandMetadata

pub record IdempotentResult : Type 0 where
  pub request_hash : Text
  pub aggregate : CanaryAggregate

pub record CenterStore : Type 0 where
  pub canaries : List (Text × CanaryAggregate)
  pub idempotency : List (Text × IdempotentResult)
  pub verifications : List (Text × PassedGoalVerification)

abbrev pub storage_key : (organization_id project_id id : Text) → Text
storage_key organization_id project_id id = organization_id ++ b':' ∷ (project_id ++ b':' ∷ id)

abbrev pub command_key : ReleaseCommandMetadata → Text
command_key c =
    c.organization_id ++ b':' ∷ (c.actor_id ++ b':' ∷ (c.endpoint ++ b':' ∷ c.idempotency_key))

-- `replay`, and `findCanaryCommand`, which calls it.
unfoldable pub replay :
    {E : Type 0}
    → CenterStore
    → ReleaseCommandMetadata
    → Result (CenterError E) (Option CanaryAggregate)
replay s c = elim (lookup (command_key c) s.idempotency) [
  | none ↦ ok none
  | some existing ↦
      if text_eq existing.request_hash c.request_hash
      then ok (some existing.aggregate)
      else err idempotency_conflict
]

abbrev pub get_canary :
    CenterStore → (organization_id project_id canary_id : Text) → Option CanaryAggregate
get_canary s organization_id project_id canary_id =
    lookup (storage_key organization_id project_id canary_id) s.canaries

abbrev pub aggregate_key : CanaryAggregate → Text
aggregate_key a = storage_key a.organization_id a.project_id a.id

abbrev pub has_version : ℕ → Option CanaryAggregate → Bool
has_version version none = false
has_version version (some a) = a.version == version

-- The test for a version conflict.
abbrev pub clashes : ℕ → Option CanaryAggregate → Bool
clashes expected_version current =
    expected_version == 0 && is_some current
    || ltb 0 expected_version && not (has_version expected_version current)

-- `this.canaries.set(…)` and `remember`.
abbrev pub stored_commit : CenterStore → CanaryCommit → CenterStore
stored_commit s input = record s {
  canaries = assign (aggregate_key input.aggregate) input.aggregate s.canaries;
  idempotency =
      assign (command_key input.command)
        (record { request_hash = input.command.request_hash; aggregate = input.aggregate })
        s.idempotency;
}

unfoldable pub commit_canary :
    {E : Type 0} → CenterStore → CanaryCommit → CenterStore × Result (CenterError E) CanaryAggregate
unfolding replay
commit_canary {E} s input = elim (replay {E = E} s input.command) [
  | err e ↦ (s, err e)
  | ok (some aggregate) ↦ (s, ok aggregate)
  | ok none ↦
      if clashes input.expected_version (lookup (aggregate_key input.aggregate) s.canaries)
      then (s, err version_conflict)
      else (stored_commit s input, ok input.aggregate)
]

-- `findPassedGoalVerification`, by the order of the ISO texts.
unfoldable pub find_passed_goal_verification :
    CenterStore
    → (organization_id project_id goal_id started_at ended_at : Text)
    → Option PassedGoalVerification
find_passed_goal_verification s organization_id project_id goal_id started_at ended_at =
    elim (lookup (storage_key organization_id project_id goal_id) s.verifications) [
      | none ↦ none
      | some v ↦
          if not (unit_le started_at v.verified_at) || not (unit_le v.verified_at ended_at)
          then none
          else some v
    ]
