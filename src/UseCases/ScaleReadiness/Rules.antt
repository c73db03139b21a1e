-- ===== src/UseCases/ScaleReadiness/Rules.antt =====
-- ki_radar/use_cases/scale_readiness.py: the rules that yield the findings.
use ki_use_case_radar.Common.{
  Bool, true, false, ◌&&◌, ◌||◌, not, Option, none, some, List, [], ◌∷◌, ◌++◌, when, has_text,
  is_none, ltb, if◌then◌else◌, ℤ, pos, leb_ℤ,
}
use ki_use_case_radar.UseCases.Model.{UseCase, metric_result}
use ki_use_case_radar.UseCases.TransitionPolicy.{evidence_text, evidence_bool, is_not_achieved}
use ki_use_case_radar.Governance.Model.{GovernanceAssessment}
use ki_use_case_radar.Governance.Status.{
  GovernanceReviewState, GovernanceStatus, required_reviews, state_completed, state_failed,
  conditionally_passed,
}
use ki_use_case_radar.Delivery.Model.{DeliveryPackage}
use ki_use_case_radar.UseCases.ScaleReadiness.Evidence.{
  Tailoring, level_a, level_b, level_c, tailoring_order, ScaleFields, MlScore, ml_score_data,
  ml_score_model, ml_score_infrastructure, ml_score_monitoring, ml_score_fields, score_value,
  decimal_of,
}
use ki_use_case_radar.UseCases.ScaleReadiness.Findings.{
  Dimension, ScaleReadinessFinding, finding, pilot_evidence, data_and_knowledge, quality,
  deployment, monitoring, responsibility, blocker, condition, governance_failed, governance_open,
  governance_conditional, tailoring_missing, tailoring_too_low, pilot_target_not_achieved,
  pilot_validation_not_confirmed, ml_score_missing, ml_score_invalid, ml_score_minimum_missing,
  ml_score_minimum_invalid, ml_score_below_minimum, ml_score_version_missing,
  ml_score_evidence_missing, ml_score_date_missing, ml_score_mandatory_check_failed,
  ml_score_core_checks_open, delivery_handover_missing, production_version_missing,
  rollback_not_tested, operations_evidence_missing, technical_monitoring_missing,
  ai_quality_monitoring_missing, incident_process_missing, technical_owner_missing,
  support_responsibility_missing, human_oversight_missing, extended_controls_missing,
}

abbrev pub asks_extended_controls : Option GovernanceAssessment → Bool
asks_extended_controls none = false
asks_extended_controls (some s) =
    s.personal_data || s.employee_data || s.automated_person_assessment
    || s.influences_person_decisions || s.biometric_data || s.safety_critical || s.regulated_product
    || s.health_safety_rights_impact

abbrev pub minimum_tailoring : GovernanceStatus → Tailoring
minimum_tailoring g = if asks_extended_controls g.screening then level_c else level_a

-- One round of the loop of `_add_governance_findings`.
abbrev pub governance_finding : GovernanceReviewState → List ScaleReadinessFinding
governance_finding s =
    if not (state_completed s)
    then (if state_failed s
        then finding (governance_failed s.review_type) responsibility blocker
        else finding (governance_open s.review_type) responsibility blocker)
      ∷ []
    else when (conditionally_passed s)
        (finding (governance_conditional s.review_type) responsibility condition)

abbrev pub add_governance_findings : List GovernanceReviewState → List ScaleReadinessFinding
add_governance_findings [] = []
add_governance_findings (s ∷ rest) = governance_finding s ++ add_governance_findings rest

unfoldable pub evaluate_tailoring : GovernanceStatus → Option Tailoring → List ScaleReadinessFinding
evaluate_tailoring g none = finding tailoring_missing responsibility blocker ∷ []
evaluate_tailoring g (some t) =
    when (ltb (tailoring_order t) (tailoring_order (minimum_tailoring g)))
      (finding tailoring_too_low responsibility blocker)

unfoldable pub evaluate_pilot : UseCase → ScaleFields → List ScaleReadinessFinding
evaluate_pilot u e =
    when (is_not_achieved (metric_result u))
      (finding pilot_target_not_achieved pilot_evidence condition)
    ++ when (not (evidence_bool e.scale_pilot_validation_confirmed))
        (finding pilot_validation_not_confirmed pilot_evidence blocker)

-- `Decimal("0") <= value <= Decimal("7")`, in hundredths
abbrev pub is_score : ℤ → Bool
is_score v = leb_ℤ (pos 0) v && leb_ℤ v (pos 700)

-- ML_SCORE_FIELDS: the dimension of a score
abbrev pub score_dimension : MlScore → Dimension
score_dimension ml_score_data = data_and_knowledge
score_dimension ml_score_model = quality
score_dimension ml_score_infrastructure = deployment
score_dimension ml_score_monitoring = monitoring

abbrev pub score_finding : MlScore → Option ℤ → List ScaleReadinessFinding
score_finding m none = finding (ml_score_missing m) (score_dimension m) blocker ∷ []
score_finding m (some v) =
    when (not (is_score v)) (finding (ml_score_invalid m) (score_dimension m) blocker)

abbrev pub score_findings : ScaleFields → List MlScore → List ScaleReadinessFinding
score_findings e [] = []
score_findings e (m ∷ rest) =
    score_finding m (decimal_of (score_value e m)) ++ score_findings e rest

abbrev pub accept_score : Option ℤ → List ℤ → List ℤ
accept_score none scores = scores
accept_score (some v) scores = if is_score v then v ∷ scores else scores

-- `ml_scores` after the loop
abbrev pub ml_scores : ScaleFields → List MlScore → List ℤ
ml_scores e [] = []
ml_scores e (m ∷ rest) = accept_score (decimal_of (score_value e m)) (ml_scores e rest)

unfoldable pub smaller : ℤ → ℤ → ℤ
smaller a b = if leb_ℤ a b then a else b

-- `min(ml_scores) if len(ml_scores) == len(ML_SCORE_FIELDS) else None`
unfoldable pub min_of_four : List ℤ → Option ℤ
unfolding smaller
min_of_four (a ∷ b ∷ c ∷ d ∷ []) = some (smaller a (smaller b (smaller c d)))
min_of_four _ = none

unfoldable pub final_ml_score : ScaleFields → Option ℤ
unfolding min_of_four
final_ml_score e = min_of_four (ml_scores e ml_score_fields)

-- `final_score is not None and final_score < minimum`
abbrev pub is_below : Option ℤ → ℤ → Bool
is_below none minimum = false
is_below (some score) minimum = not (leb_ℤ minimum score)

abbrev pub minimum_findings : Option ℤ → Option ℤ → List ScaleReadinessFinding
minimum_findings final none = finding ml_score_minimum_missing quality blocker ∷ []
minimum_findings final (some minimum) =
    if not (is_score minimum)
    then finding ml_score_minimum_invalid quality blocker ∷ []
    else when (is_below final minimum) (finding ml_score_below_minimum quality blocker)

unfoldable pub evaluate_ml_score : ScaleFields → List ScaleReadinessFinding
unfolding final_ml_score
evaluate_ml_score e =
    score_findings e ml_score_fields
    ++ minimum_findings (final_ml_score e) (decimal_of e.ml_score_minimum)
    ++ when (not (evidence_text e.ml_score_version))
        (finding ml_score_version_missing quality blocker)
    ++ when (not (evidence_text e.ml_score_evidence_url))
        (finding ml_score_evidence_missing quality blocker)
    ++ when (is_none e.ml_score_date) (finding ml_score_date_missing quality blocker)
    ++ when (evidence_text e.ml_score_failed_mandatory_checks)
        (finding ml_score_mandatory_check_failed quality blocker)
    ++ when (evidence_text e.ml_score_open_core_checks)
        (finding ml_score_core_checks_open quality condition)

-- `handed` is `current_handed_over_package(use_case)`.
unfoldable pub evaluate_deployment :
    Option DeliveryPackage → ScaleFields → List ScaleReadinessFinding
evaluate_deployment handed e =
    when (is_none handed) (finding delivery_handover_missing deployment blocker)
    ++ when (not (evidence_text e.scale_production_version))
        (finding production_version_missing deployment blocker)
    ++ when (not (evidence_bool e.scale_rollback_tested))
        (finding rollback_not_tested deployment blocker)

abbrev pub needs_incident_process : Option Tailoring → Bool
needs_incident_process (some level_b) = true
needs_incident_process (some level_c) = true
needs_incident_process _ = false

abbrev pub needs_extended_controls : Option Tailoring → Bool
needs_extended_controls (some level_c) = true
needs_extended_controls _ = false

unfoldable pub evaluate_operations : Option Tailoring → ScaleFields → List ScaleReadinessFinding
evaluate_operations tailoring e =
    when (not (evidence_text e.scale_evidence_url))
      (finding operations_evidence_missing monitoring blocker)
    ++ when (not (evidence_bool e.scale_technical_monitoring_ready))
        (finding technical_monitoring_missing monitoring blocker)
    ++ when (not (evidence_bool e.scale_ai_quality_monitoring_ready))
        (finding ai_quality_monitoring_missing monitoring blocker)
    ++ when (needs_incident_process tailoring && not (evidence_bool e.scale_incident_process_ready))
        (finding incident_process_missing monitoring blocker)

-- The business owner is a foreign key that is never null.
unfoldable pub evaluate_responsibility :
    UseCase → GovernanceStatus → Option Tailoring → ScaleFields → List ScaleReadinessFinding
evaluate_responsibility u g tailoring e =
    when (is_none u.technical_owner) (finding technical_owner_missing responsibility blocker)
    ++ when (not (has_text u.support_responsibility))
        (finding support_responsibility_missing responsibility blocker)
    ++ when (not (has_text u.human_oversight))
        (finding human_oversight_missing responsibility blocker)
    ++ add_governance_findings (required_reviews g)
    ++ when
        (needs_extended_controls tailoring
          && not (evidence_bool e.scale_extended_controls_completed))
        (finding extended_controls_missing responsibility blocker)
