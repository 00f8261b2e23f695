-- ===== src/Router/Laws.antt =====
-- What the router of model-router.ts guarantees of an Issue of high risk.
use ai_dev_harness.Shared.{
  ℕ, ◌≤◌, ◌≡◌, ◌∙◌, refl, sym, ap, subst, true, not, ◌&&◌, ◌||◌, Option, some, is_some, Text, trim,
  ltb, leb, ok, >>=-eq-ok, throw_if-eq-ok, Bool-cases, inl, inr, if◌then◌else◌, arith, length, ◌==◌,
}
use ai_dev_harness.Router.{
  Risk, low, medium, high, CodeScope, narrow, broad, extensive, Complexity, standard, complex,
  ModelRoutingFactors, ModelRouteOverride, ModelRecommendation, IssueDraft, override_invalid,
  downgrade, bad_value, factors_of, score_of, route_of, recommend_model_route, risk_points,
  scope_points, complexity_points, both_points,
}
use ai_dev_harness.Router.Override.{
  tier_index, effort_index, non_blank, is_high, with_model_route_override,
}

-- The strength of a route by its score.
abbrev pub strength : ℕ → ℕ
strength score = if leb 8 score then 3 else if leb 5 score then 2 else if leb 2 score then 1 else 0

route-strength :
    (score : ℕ)
    → (tier_index (route_of score).0 ≡ strength score)
      × (effort_index (route_of score).1 ≡ strength score)
unfolding route_of
route-strength score = elim (Bool-cases (leb 8 score)) [
  | inl q ↦ (rw q refl, rw q refl)
  | inr q ↦ elim (Bool-cases (leb 5 score)) [
    | inl t ↦ (rw (q, t) refl, rw (q, t) refl)
    | inr t ↦ elim (Bool-cases (leb 2 score)) [
      | inl u ↦ (rw (q, t, u) refl, rw (q, t, u) refl)
      | inr u ↦ (rw (q, t, u) refl, rw (q, t, u) refl)
    ]
  ]
]

abbrev pub risk_rank : Risk → ℕ
risk_rank low = 0
risk_rank medium = 1
risk_rank high = 2

abbrev pub scope_rank : CodeScope → ℕ
scope_rank narrow = 0
scope_rank broad = 1
scope_rank extensive = 2

abbrev pub complexity_rank : Complexity → ℕ
complexity_rank standard = 0
complexity_rank complex = 1

risk_monotone : (r q : Risk) → risk_rank r ≤ risk_rank q → risk_points r ≤ risk_points q
risk_monotone low q h = omega arith
risk_monotone medium low h = omega (arith, h)
risk_monotone medium medium h = omega arith
risk_monotone medium high h = omega arith
risk_monotone high low h = omega (arith, h)
risk_monotone high medium h = omega (arith, h)
risk_monotone high high h = omega arith

scope_monotone : (s t : CodeScope) → scope_rank s ≤ scope_rank t → scope_points s ≤ scope_points t
scope_monotone narrow t h = omega arith
scope_monotone broad narrow h = omega (arith, h)
scope_monotone broad broad h = omega arith
scope_monotone broad extensive h = omega arith
scope_monotone extensive narrow h = omega (arith, h)
scope_monotone extensive broad h = omega (arith, h)
scope_monotone extensive extensive h = omega arith

complexity_monotone :
    (c d : Complexity)
    → complexity_rank c ≤ complexity_rank d
    → complexity_points c ≤ complexity_points d
complexity_monotone standard d h = omega arith
complexity_monotone complex standard h = omega (arith, h)
complexity_monotone complex complex h = omega arith

both_monotone :
    (r q : Risk) (s t : CodeScope)
    → risk_rank r ≤ risk_rank q
    → scope_rank s ≤ scope_rank t
    → both_points r s ≤ both_points q t
both_monotone low q s t h k = omega arith
both_monotone medium q s t h k = omega arith
both_monotone high q narrow t h k = omega arith
both_monotone high q broad t h k = omega arith
both_monotone high low extensive t h k = omega (arith, h)
both_monotone high medium extensive t h k = omega (arith, h)
both_monotone high high extensive narrow h k = omega (arith, k)
both_monotone high high extensive broad h k = omega (arith, k)
both_monotone high high extensive extensive h k = omega arith

-- The first factors are nowhere above the second.
pub record IsBelow (f g : ModelRoutingFactors) : Type 0 where
  pub risk : risk_rank f.risk ≤ risk_rank g.risk
  pub scope : scope_rank f.code_scope ≤ scope_rank g.code_scope
  pub domain : complexity_rank f.domain_complexity ≤ complexity_rank g.domain_complexity
  pub verification :
      complexity_rank f.verification_difficulty ≤ complexity_rank g.verification_difficulty

score_monotone : (f g : ModelRoutingFactors) → IsBelow f g → score_of f ≤ score_of g
unfolding score_of
score_monotone f g b =
    let r = risk_monotone f.risk g.risk b.risk in
    let s = scope_monotone f.code_scope g.code_scope b.scope in
    let d = complexity_monotone f.domain_complexity g.domain_complexity b.domain in
    let v =
      complexity_monotone f.verification_difficulty g.verification_difficulty b.verification in
    let e = both_monotone f.risk g.risk f.code_scope g.code_scope b.risk b.scope in
    omega (arith, r, s, d, v, e)

strength_monotone : (m n : ℕ) → m ≤ n → strength m ≤ strength n
strength_monotone m n h = ground (arith, h)

-- An Issue that is no lower than another in risk, scope and complexity gets no weaker capability tier
-- and no lower reasoning effort, and in every recommendation the two stand at the same place in their
-- lists.
pub route_monotone :
    (i j : IssueDraft)
    → IsBelow (factors_of i) (factors_of j)
    → (tier_index (recommend_model_route i).capability_tier
        ≤ tier_index (recommend_model_route j).capability_tier)
      × (effort_index (recommend_model_route i).reasoning_effort
          ≤ effort_index (recommend_model_route j).reasoning_effort)
      × (tier_index (recommend_model_route i).capability_tier
          ≡ effort_index (recommend_model_route i).reasoning_effort)
unfolding recommend_model_route
route_monotone i j b =
    let m =
      strength_monotone (score_of (factors_of i)) (score_of (factors_of j))
        (score_monotone (factors_of i) (factors_of j) b) in
    let (ti, ei) = route-strength (score_of (factors_of i)) in
    let (tj, ej) = route-strength (score_of (factors_of j)) in
    (omega (arith, m, ti, tj), omega (arith, m, ei, ej), ti ∙ sym ei)

-- The recommendation under an override: its route, and what is recorded of the override.
abbrev pub overridden_by : ModelRouteOverride → ModelRecommendation → ModelRecommendation
overridden_by o r = record {
  issue_key = r.issue_key;
  capability_tier = o.capability_tier;
  reasoning_effort = o.reasoning_effort;
  factors = r.factors;
  reasons = r.reasons;
  overridden = some (record {
    capability_tier = o.capability_tier;
    reasoning_effort = o.reasoning_effort;
    actor_id = trim o.actor_id;
    reason = trim o.reason;
    overridden_at = o.overridden_at;
  });
}

non_blank-ok :
    (value text : Text)
    → non_blank value ≡ ok text
    → (text ≡ trim value) × (1 ≤ length text) × (length text ≤ 4000)
unfolding non_blank
non_blank-ok value text h =
    let (bounds, h1) =
      throw_if-eq-ok (length (trim value) == 0 || ltb 4000 (length (trim value))) bad_value _ h in
    let same : trim value ≡ text = ground (arith, h1) in
    let low : 1 ≤ length (trim value) = ground (arith, bounds) in
    let high : length (trim value) ≤ 4000 = ground (arith, bounds) in
    (sym same, subst (λ t. 1 ≤ length t) same low, subst (λ t. length t ≤ 4000) same high)

-- An override of a recommendation for an Issue of high risk that is accepted lowers neither the
-- capability tier nor the reasoning effort. The new recommendation has the route of the override and
-- keeps all else but the record of the override: its route, its actor and reason without white space
-- at the ends, neither of which is empty, and its time, which is a date.
pub override_never_lowers :
    (parse_date : Text → Option ℕ) (r out : ModelRecommendation) (o : ModelRouteOverride)
    → r.factors.risk ≡ high
    → with_model_route_override parse_date r o ≡ ok out
    → (tier_index r.capability_tier ≤ tier_index out.capability_tier)
      × (effort_index r.reasoning_effort ≤ effort_index out.reasoning_effort)
      × (out ≡ overridden_by o r)
      × (1 ≤ length (trim o.actor_id))
      × (1 ≤ length (trim o.reason))
      × (is_some (parse_date o.overridden_at) ≡ true)
unfolding with_model_route_override
override_never_lowers parse_date r out o risky h =
    let (actor, a, h1) = >>=-eq-ok (non_blank o.actor_id) _ h in
    let (reason, b, h2) = >>=-eq-ok (non_blank o.reason) _ h1 in
    let (dated, h3) =
      throw_if-eq-ok (not (is_some (parse_date o.overridden_at))) override_invalid _ h2 in
    let (kept, h4) =
      throw_if-eq-ok
        (is_high r.factors.risk
          && (ltb (tier_index o.capability_tier) (tier_index r.capability_tier)
              || ltb (effort_index o.reasoning_effort) (effort_index r.reasoning_effort)))
        downgrade _ h3 in
    let is_risky : is_high r.factors.risk ≡ true = ap is_high risky in
    let tier : tier_index r.capability_tier ≤ tier_index o.capability_tier =
      ground (arith, kept, is_risky) in
    let effort : effort_index r.reasoning_effort ≤ effort_index o.reasoning_effort =
      ground (arith, kept, is_risky) in
    let (actor_trimmed, actor_some, actor_short) = non_blank-ok o.actor_id actor a in
    let (reason_trimmed, reason_some, reason_short) = non_blank-ok o.reason reason b in
    let trimmed : record r {
      capability_tier = o.capability_tier;
      reasoning_effort = o.reasoning_effort;
      overridden = some (record o { actor_id = trim o.actor_id; reason = reason });
    }
        ≡ overridden_by o r =
      ap
        (λ t. record r {
          capability_tier = o.capability_tier;
          reasoning_effort = o.reasoning_effort;
          overridden = some (record o { actor_id = trim o.actor_id; reason = t });
        })
        reason_trimmed in
    let result : out ≡ overridden_by o r = sym (ground (arith, h4)) ∙ trimmed in
    (
      subst
          (λ (z : ModelRecommendation). tier_index r.capability_tier ≤ tier_index z.capability_tier)
          (sym result) tier,
      subst
          (λ (z : ModelRecommendation).
            effort_index r.reasoning_effort ≤ effort_index z.reasoning_effort)
          (sym result) effort,
      result,
      subst (λ t. 1 ≤ length t) actor_trimmed actor_some,
      subst (λ t. 1 ≤ length t) reason_trimmed reason_some,
      ground (arith, dated),
    )
