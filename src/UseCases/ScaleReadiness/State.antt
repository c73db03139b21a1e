-- ===== src/UseCases/ScaleReadiness/State.antt =====
-- The state of the evaluation and those of its dimensions.
use ki_use_case_radar.UseCases.ScaleReadiness.{scale_findings, evaluate_scale_readiness}
use ki_use_case_radar.UseCases.ScaleReadiness.Evidence.{ScaleFields}
use ki_use_case_radar.UseCases.Model.{UseCase}
use ki_use_case_radar.Governance.Status.{GovernanceStatus}
use ki_use_case_radar.Delivery.Model.{DeliveryPackage}
use ki_use_case_radar.Common.{
  ◌∙◌, ap, map, Option, true, false, ◌||◌, if◌then◌else◌, ◌≡◌, refl, Bool, List, [], ◌∷◌, arith,
  any, filter,
}
use ki_use_case_radar.UseCases.ScaleReadiness.Findings.{
  ScaleReadinessFinding, Dimension, ReadinessState, ready, conditional, not_ready, all_dimensions,
  dimension_eq, ScaleReadinessDimension, is_blocker, is_condition,
}

-- The worst of some states.
abbrev pub join : ReadinessState → ReadinessState → ReadinessState
join not_ready s = not_ready
join conditional not_ready = not_ready
join conditional s = conditional
join ready s = s

abbrev pub worst : List ReadinessState → ReadinessState
worst [] = ready
worst (s ∷ rest) = join s (worst rest)

abbrev of_dimension : Dimension → List ScaleReadinessFinding → List ScaleReadinessFinding
of_dimension key = filter (λ (f : ScaleReadinessFinding). dimension_eq f.dimension key)

-- A test is met by a finding exactly if it is met in one of the six dimensions.
any-of_dimension :
    (p : ScaleReadinessFinding → Bool) (fs : List ScaleReadinessFinding)
    → any p fs ≡ any (λ d. any p (of_dimension d fs)) all_dimensions
any-of_dimension p [] = refl
any-of_dimension p (x ∷ fs) = ground (arith, any-of_dimension p fs)

state_by : Bool → Bool → ReadinessState
state_by b c = if b then not_ready else if c then conditional else ready

-- Two states joined are the state of both tests joined.
state_by-or :
    (b c b' c' : Bool) → state_by (b || b') (c || c') ≡ join (state_by b c) (state_by b' c')
unfolding state_by
state_by-or true c b' c' = refl
state_by-or false true true c' = refl
state_by-or false true false true = refl
state_by-or false true false false = refl
state_by-or false false b' c' = refl

-- The state of a list of dimensions, each by its two tests.
worst-state_by :
    (b c : Dimension → Bool) (ds : List Dimension)
    → state_by (any b ds) (any c ds) ≡ worst (map (λ d. state_by (b d) (c d)) ds)
worst-state_by b c [] = unfold state_by in refl
worst-state_by b c (d ∷ ds) =
    state_by-or (b d) (c d) (any b ds) (any c ds)
    ∙ ap (join (state_by (b d) (c d))) (worst-state_by b c ds)

-- The overall state is the worst of the states of the six dimensions: every finding counts in one of
-- them.
pub evaluate_scale_readiness-worst :
    (u : UseCase) (g : GovernanceStatus) (handed : Option DeliveryPackage) (e : ScaleFields)
    → let r = evaluate_scale_readiness u g handed e in
      r.state ≡ worst (map (λ (d : ScaleReadinessDimension). d.state) r.dimensions)
unfolding evaluate_scale_readiness state_by
evaluate_scale_readiness-worst u g handed e =
    let fs = scale_findings u g handed e in
    ap (λ b. state_by b (any is_condition fs)) (any-of_dimension is_blocker fs)
    ∙ ap (state_by (any (λ d. any is_blocker (of_dimension d fs)) all_dimensions))
        (any-of_dimension is_condition fs)
    ∙ worst-state_by (λ d. any is_blocker (of_dimension d fs))
        (λ d. any is_condition (of_dimension d fs)) all_dimensions
