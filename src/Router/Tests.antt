-- ===== src/Router/Tests.antt =====
-- An Issue that touches the database, and one that does so with many files.
use ai_dev_harness.Shared.{
  ℕ, ◌≤◌, ◌≡◌, refl, true, Option, some, is_some, List, [], ◌∷◌, Text, lit, trim, trim_start,
  is_space, starts_with, ok, arith, length,
}
use ai_dev_harness.Waves.{join}
use ai_dev_harness.Router.{
  frontier, highest, high, ModelRouteOverride, ModelRecommendation, IssueDraft, contains,
  is_risky_text, factors_of, recommend_model_route,
}
use ai_dev_harness.Router.Override.{tier_index, effort_index, non_blank, with_model_route_override}
use ai_dev_harness.Router.Laws.{IsBelow, overridden_by, route_monotone, override_never_lowers}

abbrev issue_with : List Text → IssueDraft
issue_with files = record {
  key = lit "DB-1";
  title = lit "Schema Migration";
  goal = lit "move";
  requirement_refs = [];
  acceptance = [];
  dependency_candidates = [];
  expected_files = files;
  conflict_resources = record {
    directories = [];
    public_interfaces = [];
    database_objects = lit "goals" ∷ [];
    shared_configurations = [];
    landing_order_keys = [];
  };
  verify = [];
  completion_evidence = [];
}

abbrev small : IssueDraft
small = issue_with (lit "a.ts" ∷ [])

abbrev large : IssueDraft
large = issue_with (lit "a.ts" ∷ lit "b.ts" ∷ lit "c.ts" ∷ lit "d.ts" ∷ [])

below_lem : IsBelow (factors_of small) (factors_of large)
unfolding factors_of is_risky_text contains join starts_with
below_lem = record {
  risk = omega arith;
  scope = omega arith;
  domain = omega arith;
  verification = omega arith;
}

route_monotone_example :
    (tier_index (recommend_model_route small).capability_tier
      ≤ tier_index (recommend_model_route large).capability_tier)
    × (effort_index (recommend_model_route small).reasoning_effort
        ≤ effort_index (recommend_model_route large).reasoning_effort)
    × (tier_index (recommend_model_route small).capability_tier
        ≡ effort_index (recommend_model_route small).reasoning_effort)
route_monotone_example = route_monotone small large below_lem

abbrev stronger : ModelRouteOverride
stronger = record {
  capability_tier = frontier;
  reasoning_effort = highest;
  actor_id = lit "bob";
  reason = lit "security review";
  overridden_at = lit "now";
}

abbrev any_date : Text → Option ℕ
any_date t = some 0

abbrev overridden_route : ModelRecommendation
overridden_route = record (recommend_model_route small) {
  capability_tier = frontier;
  reasoning_effort = highest;
  overridden = some stronger;
}

accepted_lem :
    with_model_route_override any_date (recommend_model_route small) stronger ≡ ok overridden_route
unfolding with_model_route_override non_blank recommend_model_route factors_of is_risky_text
    contains join starts_with trim trim_start is_space
accepted_lem = refl

high_lem : (recommend_model_route small).factors.risk ≡ high
unfolding recommend_model_route factors_of is_risky_text contains join starts_with
high_lem = refl

override_never_lowers_example :
    (tier_index (recommend_model_route small).capability_tier
      ≤ tier_index overridden_route.capability_tier)
    × (effort_index (recommend_model_route small).reasoning_effort
        ≤ effort_index overridden_route.reasoning_effort)
    × (overridden_route ≡ overridden_by stronger (recommend_model_route small))
    × (1 ≤ length (trim stronger.actor_id))
    × (1 ≤ length (trim stronger.reason))
    × (is_some (any_date stronger.overridden_at) ≡ true)
override_never_lowers_example =
    override_never_lowers any_date (recommend_model_route small) overridden_route stronger high_lem
      accepted_lem
