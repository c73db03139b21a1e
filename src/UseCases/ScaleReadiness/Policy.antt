-- ===== src/UseCases/ScaleReadiness/Policy.antt =====
-- How the evaluation bears on the lifecycle policy.
use ki_use_case_radar.Common.{
  ◌≡◌, refl, Bool, true, Option, some, List, [], ◌∷◌, Text, has_text, all, arith, ok, ℕ, ◌≤◌,
  truthy, is_some,
}
use ki_use_case_radar.UseCases.Model.{UseCase, metric_result}
use ki_use_case_radar.UseCases.TransitionPolicy.{validate_go_live, is_not_achieved}
use ki_use_case_radar.Governance.Status.{
  GovernanceReviewState, blockers_of, required_reviews, required_governance_blockers,
  state_completed,
}
use ki_use_case_radar.Delivery.Model.{DeliveryPackage}
use ki_use_case_radar.Reviews.Gates.{validate_go_live_iff}
use ki_use_case_radar.CaseFile.{CaseFile, governance_of}
use ki_use_case_radar.UseCases.ScaleReadiness.Evidence.{ScaleFields, policy_evidence}
use ki_use_case_radar.UseCases.ScaleReadiness.Findings.{blockers}
use ki_use_case_radar.UseCases.ScaleReadiness.Gate.{evaluate_scale_readiness-blockers_iff}
use ki_use_case_radar.UseCases.ScaleReadiness.{evaluate_scale_readiness}

no_blockers :
    (states : List GovernanceReviewState)
    → all state_completed states ≡ true
    → blockers_of states ≡ []
no_blockers [] h = refl
no_blockers (s ∷ rest) h = ground (arith, no_blockers rest)

-- The facts of a go-live that the evaluation does not read.
pub record IsMeasured (u : UseCase) : Type 0 where
  pub named : truthy u.metric_name ≡ true
  pub directed : is_some u.metric_direction ≡ true
  pub targeted : is_some u.metric_target ≡ true
  pub measured : is_some u.metric_actual ≡ true
  pub in_order :
      (start : ℕ) × (day : ℕ) × (u.pilot_start ≡ some start)
      × (u.metric_measured_at ≡ some day)
      × (start ≤ day)

-- A case whose evaluation has no blocker passes the go-live check of the policy on the same evidence,
-- if its metric is complete and measured from the pilot's start on, and a missed target is excepted
-- with a reason.
pub evaluate_scale_readiness-go_live :
    (f : CaseFile) (handed : Option DeliveryPackage) (e : ScaleFields) (confirmed : Bool)
    (rationale : Text)
    → blockers (evaluate_scale_readiness f.use_case (governance_of f) handed e) ≡ []
    → IsMeasured f.use_case
    → (is_not_achieved (metric_result f.use_case) ≡ true
        → (confirmed ≡ true) × (has_text rationale ≡ true))
    → validate_go_live f (some (policy_evidence e)) confirmed rationale ≡ ok tt
unfolding required_governance_blockers
evaluate_scale_readiness-go_live f handed e confirmed rationale clear m x =
    let k = (evaluate_scale_readiness-blockers_iff f.use_case (governance_of f) handed e).0 clear in
    (validate_go_live_iff f (some (policy_evidence e)) confirmed rationale).1 (record {
      named = m.named;
      directed = m.directed;
      targeted = m.targeted;
      measured = m.measured;
      in_order = m.in_order;
      cleared = no_blockers (required_reviews (governance_of f)) k.accounted.reviewed;
      no_failed_check = k.scores.no_failed_check;
      rollback = k.deployed.rollback;
      technical = k.accounted.technical;
      supported = k.accounted.supported;
      excepted = x;
    })
