-- ===== src/Router/Override.antt =====
-- `assertRouteAvailable` and `withModelRouteOverride` of model-router.ts: what is done with a
-- recommendation. What `new Date(…)` reads from a text is a parameter.
use ai_dev_harness.Shared.{
  ℕ, Bool, true, false, not, ◌&&◌, ◌||◌, ◌==◌, Option, some, is_some, List, any, length, ltb, Text,
  trim, Result, ok, throw_if, ◌>>◌, ◌>>=◌,
}
use ai_dev_harness.Router.{
  CapabilityTier, cost_optimized, general_coding, advanced_coding, frontier, ReasoningEffort,
  low_effort, medium_effort, high_effort, highest, Risk, high, ModelRouteOverride,
  ModelRecommendation, RouteError, route_unavailable, bad_value, override_invalid, downgrade,
}

-- The places in `capabilityTiers` and `reasoningEfforts`.
abbrev pub tier_index : CapabilityTier → ℕ
tier_index cost_optimized = 0
tier_index general_coding = 1
tier_index advanced_coding = 2
tier_index frontier = 3

abbrev pub effort_index : ReasoningEffort → ℕ
effort_index low_effort = 0
effort_index medium_effort = 1
effort_index high_effort = 2
effort_index highest = 3

unfoldable pub assert_route_available :
    ModelRecommendation → List CapabilityTier → List ReasoningEffort → Result RouteError (Unit {0})
assert_route_available r tiers efforts =
    throw_if
      (not (any (λ t. tier_index t == tier_index r.capability_tier) tiers)
        || not (any (λ e. effort_index e == effort_index r.reasoning_effort) efforts))
      route_unavailable

unfoldable pub non_blank : Text → Result RouteError Text
non_blank value =
    throw_if (length (trim value) == 0 || ltb 4000 (length (trim value))) bad_value
    >> ok (trim value)

abbrev pub is_high : Risk → Bool
is_high high = true
is_high _ = false

unfoldable pub with_model_route_override :
    (parse_date : Text → Option ℕ)
    → ModelRecommendation
    → ModelRouteOverride
    → Result RouteError ModelRecommendation
unfolding non_blank
with_model_route_override parse_date r o = do
  actor_id ← non_blank o.actor_id
  reason ← non_blank o.reason
  throw_if (not (is_some (parse_date o.overridden_at))) override_invalid
  throw_if
      (is_high r.factors.risk
        && (ltb (tier_index o.capability_tier) (tier_index r.capability_tier)
            || ltb (effort_index o.reasoning_effort) (effort_index r.reasoning_effort)))
      downgrade
  ok (record r {
    capability_tier = o.capability_tier;
    reasoning_effort = o.reasoning_effort;
    overridden = some (record o { actor_id = trim o.actor_id; reason = reason });
  })
