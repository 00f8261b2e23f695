-- ===== src/Router.antt =====
-- prototype/web-ui/app/control-plane/domain/model-router.ts, with the Issue of issue-plan.ts that it
-- reads: which model works on an Issue.
pub mod Laws
pub mod Override
mod Tests
use ai_dev_harness.Shared.{
  ℕ, ◌+◌, Bool, true, false, not, ◌&&◌, ◌||◌, Option, none, List, [], ◌∷◌, ◌++◌, any, map, length,
  ltb, leb, Text, lit, starts_with, decimal, if◌then◌else◌,
}
use ai_dev_harness.Release.Fields.{is_upper}
use ai_dev_harness.Waves.{IssueConflictResources, is_empty, join}

pub data CapabilityTier : Type 0 where
  cost_optimized general_coding advanced_coding frontier : CapabilityTier

pub data ReasoningEffort : Type 0 where
  low_effort medium_effort high_effort highest : ReasoningEffort

pub data Risk : Type 0 where
  low medium high : Risk

pub data CodeScope : Type 0 where
  narrow broad extensive : CodeScope

pub data Complexity : Type 0 where
  standard complex : Complexity

pub record ModelRoutingFactors : Type 0 where
  pub risk : Risk
  pub code_scope : CodeScope
  pub domain_complexity : Complexity
  pub verification_difficulty : Complexity

pub record ModelRouteOverride : Type 0 where
  pub capability_tier : CapabilityTier
  pub reasoning_effort : ReasoningEffort
  pub actor_id : Text
  pub reason : Text
  pub overridden_at : Text

pub record ModelRecommendation : Type 0 where
  pub issue_key : Text
  pub capability_tier : CapabilityTier
  pub reasoning_effort : ReasoningEffort
  pub factors : ModelRoutingFactors
  pub reasons : List Text
  pub overridden : Option ModelRouteOverride

pub record IssueAcceptance : Type 0 where
  pub criterion_ref : Text
  pub statement : Text

-- What the router reads of `IssueDraft`; of the evidence, its descriptions.
pub record IssueDraft : Type 0 where
  pub key : Text
  pub title : Text
  pub goal : Text
  pub requirement_refs : List Text
  pub acceptance : List IssueAcceptance
  pub dependency_candidates : List Text
  pub expected_files : List Text
  pub conflict_resources : IssueConflictResources
  pub verify : List Text
  pub completion_evidence : List Text

-- What the two classes of errors and their messages distinguish.
pub data RouteError : Type 0 where
  route_unavailable bad_value override_invalid downgrade : RouteError

abbrev pub is_some_of {ℓ} : {A : Type ℓ} → List A → Bool
is_some_of xs = not (is_empty xs)

-- Letters under the flag `i`: only ASCII letters fold to ASCII letters.
abbrev folded_unit : ℕ → ℕ
folded_unit c = if is_upper c then c + 32 else c

unfoldable pub contains : Text → Text → Bool
contains [] word = is_empty word
contains (c ∷ s) word = let rest = contains s word in starts_with (c ∷ s) word || rest

abbrev risky_words : List Text
risky_words =
    lit "security"
    ∷ lit "auth"
    ∷ lit "credential"
    ∷ lit "permission"
    ∷ lit "migration"
    ∷ lit "secret"
    ∷ lit "token"
    ∷ []

unfoldable pub is_risky_text : Text → Bool
unfolding contains
is_risky_text s = any (contains (map folded_unit s)) risky_words

abbrev pub risky_text : IssueDraft → Text
risky_text issue =
    issue.title ++ b' ' ∷ (issue.goal ++ b' ' ∷ join (lit " ") issue.requirement_refs)

abbrev pub resource_risk : IssueDraft → Bool
resource_risk issue =
    is_some_of issue.conflict_resources.database_objects
    || is_some_of issue.conflict_resources.shared_configurations
    || is_some_of issue.conflict_resources.landing_order_keys

abbrev pub risk_of : (resource security interface : Bool) → Risk
risk_of resource security interface =
    if resource && (security || interface)
    then high
    else if resource || security || interface
    then medium
    else low

abbrev pub scope_of : (files : ℕ) → CodeScope
scope_of files = if ltb 10 files then extensive else if ltb 3 files then broad else narrow

abbrev pub complex_if : Bool → Complexity
complex_if true = complex
complex_if false = standard

unfoldable pub factors_of : IssueDraft → ModelRoutingFactors
unfolding is_risky_text
factors_of issue = record {
  risk =
      risk_of (resource_risk issue) (is_risky_text (risky_text issue))
        (is_some_of issue.conflict_resources.public_interfaces);
  code_scope = scope_of (length issue.expected_files);
  domain_complexity = complex_if (
      ltb 2 (length issue.requirement_refs)
      || ltb 1 (length issue.dependency_candidates)
      || ltb 1 (length issue.conflict_resources.public_interfaces));
  verification_difficulty = complex_if (
      ltb 2 (length issue.verify)
      || ltb 3 (length issue.acceptance)
      || ltb 3 (length issue.completion_evidence));
}

abbrev pub risk_points : Risk → ℕ
risk_points high = 4
risk_points medium = 2
risk_points low = 0

abbrev pub scope_points : CodeScope → ℕ
scope_points extensive = 3
scope_points broad = 1
scope_points narrow = 0

abbrev pub complexity_points : Complexity → ℕ
complexity_points complex = 2
complexity_points standard = 0

abbrev pub both_points : Risk → CodeScope → ℕ
both_points high extensive = 1
both_points _ _ = 0

unfoldable pub score_of : ModelRoutingFactors → ℕ
score_of f =
    risk_points f.risk
    + scope_points f.code_scope
    + complexity_points f.domain_complexity
    + complexity_points f.verification_difficulty
    + both_points f.risk f.code_scope

unfoldable pub route_of : (score : ℕ) → CapabilityTier × ReasoningEffort
route_of score =
    if leb 8 score
    then (frontier, highest)
    else if leb 5 score
    then (advanced_coding, high_effort)
    else if leb 2 score
    then (general_coding, medium_effort)
    else (cost_optimized, low_effort)

abbrev risk_text : Risk → Text
risk_text low = lit "low"
risk_text medium = lit "medium"
risk_text high = lit "high"

abbrev scope_text : CodeScope → Text
scope_text narrow = lit "narrow"
scope_text broad = lit "broad"
scope_text extensive = lit "extensive"

abbrev complexity_text : Complexity → Text
complexity_text standard = lit "standard"
complexity_text complex = lit "complex"

unfoldable pub recommend_model_route : IssueDraft → ModelRecommendation
unfolding factors_of score_of route_of
recommend_model_route issue =
    let f = factors_of issue in
    let route = route_of (score_of f) in
    record {
      issue_key = issue.key;
      capability_tier = route.0;
      reasoning_effort = route.1;
      factors = f;
      reasons =
          (lit "risk=" ++ risk_text f.risk)
          ∷ (lit "codeScope="
              ++ (scope_text f.code_scope
                  ++ (lit " ("
                      ++ (decimal (length issue.expected_files) ++ lit " expected files)"))))
          ∷ (lit "domainComplexity=" ++ complexity_text f.domain_complexity)
          ∷ (lit "verificationDifficulty=" ++ complexity_text f.verification_difficulty)
          ∷ (lit "policy score=" ++ decimal (score_of f))
          ∷ [];
      overridden = none;
    }
