-- ===== src/UseCases/ScaleReadiness/Blocking.antt =====
-- When a rule blocks.
use ki_use_case_radar.Common.{
  ◌≡◌, refl, ◌∙◌, Bool, true, false, ◌&&◌, ◌||◌, not, Option, none, some, List, [], ◌∷◌, ◌++◌,
  arith, any, all, when, has_text, is_none, ltb, ℤ, any-append,
}
use ki_use_case_radar.UseCases.Model.{UseCase}
use ki_use_case_radar.UseCases.TransitionPolicy.{evidence_text, evidence_bool}
use ki_use_case_radar.Governance.Status.{
  GovernanceReviewState, GovernanceStatus, required_reviews, state_completed,
}
use ki_use_case_radar.Delivery.Model.{DeliveryPackage}
use ki_use_case_radar.UseCases.ScaleReadiness.Evidence.{
  Tailoring, tailoring_order, ScaleFields, MlScore, decimal_of,
}
use ki_use_case_radar.UseCases.ScaleReadiness.Findings.{
  ScaleReadinessFinding, finding, Code, Dimension, blocker, condition, is_blocker,
}
use ki_use_case_radar.UseCases.ScaleReadiness.Rules.{
  minimum_tailoring, governance_finding, add_governance_findings, evaluate_tailoring,
  evaluate_pilot, is_score, score_finding, final_ml_score, is_below, minimum_findings,
  evaluate_ml_score, evaluate_deployment, needs_incident_process, needs_extended_controls,
  evaluate_operations, evaluate_responsibility,
}
use ki_use_case_radar.UseCases.ScaleReadiness.Score.{is_scored, four_scored}

abbrev pub blocks : List ScaleReadinessFinding → Bool
blocks fs = any is_blocker fs

pub blocks-append :
    (xs ys : List ScaleReadinessFinding) → blocks (xs ++ ys) ≡ (blocks xs || blocks ys)
blocks-append = any-append is_blocker

blocks-blocker : (c : Bool) (k : Code) (d : Dimension) → blocks (when c (finding k d blocker)) ≡ c
blocks-blocker true k d = refl
blocks-blocker false k d = refl

blocks-condition :
    (c : Bool) (k : Code) (d : Dimension) → blocks (when c (finding k d condition)) ≡ false
blocks-condition true k d = refl
blocks-condition false k d = refl

ruleset blocking = (blocks-append, blocks-blocker, blocks-condition)

pub pilot_blocks :
    (u : UseCase) (e : ScaleFields)
    → blocks (evaluate_pilot u e) ≡ not (evidence_bool e.scale_pilot_validation_confirmed)
unfolding evaluate_pilot
pilot_blocks u e = simp blocking

pub operations_block :
    (t : Option Tailoring) (e : ScaleFields)
    → blocks (evaluate_operations t e) ≡ (
        not (evidence_text e.scale_evidence_url)
        || not (evidence_bool e.scale_technical_monitoring_ready)
        || not (evidence_bool e.scale_ai_quality_monitoring_ready)
        || needs_incident_process t && not (evidence_bool e.scale_incident_process_ready))
unfolding evaluate_operations
operations_block t e = simp blocking

pub deployment_blocks :
    (handed : Option DeliveryPackage) (e : ScaleFields)
    → blocks (evaluate_deployment handed e) ≡ (
        is_none handed
        || not (evidence_text e.scale_production_version)
        || not (evidence_bool e.scale_rollback_tested))
unfolding evaluate_deployment
deployment_blocks handed e = simp blocking

-- A level that is given and not below the required one.
unfoldable pub is_tailored : GovernanceStatus → Option Tailoring → Bool
is_tailored g none = false
is_tailored g (some t) = not (ltb (tailoring_order t) (tailoring_order (minimum_tailoring g)))

pub tailoring_blocks :
    (g : GovernanceStatus) (t : Option Tailoring)
    → blocks (evaluate_tailoring g t) ≡ not (is_tailored g t)
unfolding evaluate_tailoring is_tailored
tailoring_blocks g none = refl
tailoring_blocks g (some t) = ground arith

score_blocks : (m : MlScore) (o : Option ℤ) → blocks (score_finding m o) ≡ not (is_scored o)
score_blocks m none = refl
score_blocks m (some v) = simp blocking

-- A minimum that is given, in range and reached.
unfoldable pub is_cleared : Option ℤ → Option ℤ → Bool
is_cleared final none = false
is_cleared final (some minimum) = is_score minimum && not (is_below final minimum)

minimum_blocks : (final o : Option ℤ) → blocks (minimum_findings final o) ≡ not (is_cleared final o)
unfolding is_cleared
minimum_blocks final none = refl
minimum_blocks final (some minimum) = ground arith

pub ml_score_blocks :
    (e : ScaleFields)
    → blocks (evaluate_ml_score e) ≡ (
        not (four_scored e)
        || not (is_cleared (final_ml_score e) (decimal_of e.ml_score_minimum))
        || not (evidence_text e.ml_score_version)
        || not (evidence_text e.ml_score_evidence_url)
        || is_none e.ml_score_date
        || evidence_text e.ml_score_failed_mandatory_checks)
unfolding evaluate_ml_score four_scored
ml_score_blocks e = simp (blocking, score_blocks, minimum_blocks) (ground arith)

governance_blocks :
    (states : List GovernanceReviewState)
    → blocks (add_governance_findings states) ≡ not (all state_completed states)
governance_blocks [] = refl
governance_blocks (s ∷ rest) =
    blocks-append (governance_finding s) (add_governance_findings rest)
    ∙ ground (arith, governance_blocks rest)

pub responsibility_blocks :
    (u : UseCase) (g : GovernanceStatus) (t : Option Tailoring) (e : ScaleFields)
    → blocks (evaluate_responsibility u g t e) ≡ (
        is_none u.technical_owner
        || not (has_text u.support_responsibility)
        || not (has_text u.human_oversight)
        || not (all state_completed (required_reviews g))
        || needs_extended_controls t && not (evidence_bool e.scale_extended_controls_completed))
unfolding evaluate_responsibility
responsibility_blocks u g t e = simp (blocking, governance_blocks)
