-- ===== src/Release/Center/Tests.antt =====
-- A Canary that is stored and approved.
use ai_dev_harness.Shared.{
  ◌≡◌, refl, some, List, [], ◌∷◌, All, Text, lit, text_eq, trim, trim_start, is_space, ok, err,
  lookup, assign, if◌then◌else◌,
}
use ai_dev_harness.Release.Canary.{CanaryAggregate, observing, approve_canary}
use ai_dev_harness.Release.Canary.Windows.{IsConsistent}
use ai_dev_harness.Release.Canary.Reach.{CanaryReach}
use ai_dev_harness.Release.Sample.{created, new_canary, parse_hours}
use ai_dev_harness.Release.Fields.{required, id, is_safe_id}
use ai_dev_harness.Release.Center.{
  idempotency_conflict, CenterStore, replay, commit_canary, aggregate_key,
}
use ai_dev_harness.Release.Center.Service.{
  CommandInput, CanaryRequest, create, change, approve, CenterSurroundings, changed_canary,
  prepared, entered, execute_canary,
}
use ai_dev_harness.Release.Center.Lives.{CenterCall, execute_calls, stored-IsConsistent}
use ai_dev_harness.Release.Center.Once.{canary_command_once}

abbrev around : CenterSurroundings Text
around = record {
  authorize = λ organization project actor creates. ok tt;
  hash = λ input request. input.reason;
  to_iso = λ n. [];
  parse_date = parse_hours;
}

abbrev input : CommandInput
input = record {
  organization_id = lit "acme";
  project_id = lit "tools";
  actor_id = lit "bob";
  request_id = lit "request-1";
  idempotency_key = lit "key-00001";
  reason = lit "ready for the observation";
}

abbrev request : CanaryRequest
request = change (lit "canary-7") 1 approve

abbrev store : CenterStore
store = record {
  canaries = (aggregate_key created, created) ∷ [];
  idempotency = [];
  verifications = [];
}

abbrev approved : CanaryAggregate
approved = record created {
  status = observing;
  owner_id = some (lit "bob");
  approved_at = some 5;
  started_at = some 5;
  version = 2;
  updated_at = 5;
}

approved_lem : (execute_canary around store input request [] 5).1 ≡ ok approved
unfolding execute_canary entered replay prepared changed_canary commit_canary approve_canary lookup
    assign trim trim_start is_space text_eq required id is_safe_id
approved_lem = refl

entered_lem : entered around input request ≡ ok tt
unfolding entered trim trim_start is_space
entered_lem = refl

abbrev calls : List CenterCall
calls =
    record { input = input; request = change (lit "canary-8") 1 approve; canary_id = []; now = 6 }
    ∷ []

canary_command_once_example :
    execute_canary around
      (execute_calls around calls (execute_canary around store input request [] 5).0)
      input
      request
      []
      7
    ≡ (
      execute_calls around calls (execute_canary around store input request [] 5).0,
      (if text_eq (around.hash input request) (around.hash input request)
          then ok approved
          else err idempotency_conflict),
    )
canary_command_once_example =
    canary_command_once around store input input request request [] [] 5 7 calls approved
      approved_lem refl entered_lem

abbrev empty : CenterStore
empty = record { canaries = []; idempotency = []; verifications = [] }

-- The Canary is created, and then approved.
abbrev life : List CenterCall
life =
    record {
      input = record input { idempotency_key = lit "key-00000" };
      request = create (record {
        goal_id = new_canary.goal_id;
        candidate_commit = new_canary.candidate_commit;
        goal_contract_version = new_canary.goal_contract_version;
        allowed_areas = new_canary.allowed_areas;
        excluded_areas = new_canary.excluded_areas;
        success_conditions = new_canary.success_conditions;
        stop_conditions = new_canary.stop_conditions;
        rollback_runbook = new_canary.rollback_runbook;
        stop_runbook = new_canary.stop_runbook;
      });
      canary_id = lit "canary-7";
      now = 4;
    }
    ∷ record { input = input; request = request; canary_id = []; now = 5 }
    ∷ []

stored-IsConsistent_example :
    All
      (λ e. CanaryReach around.parse_date e.1 × IsConsistent e.1)
      (execute_calls around life empty).canaries
stored-IsConsistent_example = stored-IsConsistent around life empty refl
