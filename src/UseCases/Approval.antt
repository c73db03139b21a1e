-- ===== src/UseCases/Approval.antt =====
-- ki_radar/use_cases/services.py: `approval_check`, what stands in the way of a decision.
pub mod Gate
use ki_use_case_radar.Common.{
  ℕ, Bool, true, false, ◌&&◌, ◌||◌, not, Option, none, some, List, [], ◌∷◌, ◌++◌, map,
  if◌then◌else◌, is_none, when, holds, ◌==◌,
}
use ki_use_case_radar.UseCases.Model.{
  DecisionStatus, deferred, not_pursued, decision_status_eq, approved, approved_with_conditions,
  is_low, is_high, UseCase,
}
use ki_use_case_radar.UseCases.DecisionModel.{
  DecisionAssessment, latest_assessment, confidence_level,
}
use ki_use_case_radar.UseCases.Fields.{
  FieldName, missing_fields, approval_core_requirements, approval_metric_requirements,
}
use ki_use_case_radar.UseCases.TransitionPolicy.{is_approved}
use ki_use_case_radar.Governance.Status.{
  GovernanceBlocker, has_screening, failed_required_governance_reviews,
  open_required_governance_warnings,
}
use ki_use_case_radar.CaseFile.{CaseFile, governance_of}

pub data ApprovalBlocker : Type 0 where
  invalid_target assessment_missing same_assessor same_owner screening_missing : ApprovalBlocker
  field_missing : FieldName → ApprovalBlocker
  governance_failed : GovernanceBlocker → ApprovalBlocker

pub data ApprovalWarning : Type 0 where
  review_open : GovernanceBlocker → ApprovalWarning
  field_open : FieldName → ApprovalWarning
  confidence_low feasibility_low data_low risk_high : ApprovalWarning
  no_assessment same_person_hint deviates : ApprovalWarning

pub record ApprovalCheck : Type 0 where
  pub blockers : List ApprovalBlocker
  pub warnings : List ApprovalWarning

-- `target_status in FINAL_DECISION_STATUSES`
abbrev pub is_final_status : DecisionStatus → Bool
is_final_status deferred = true
is_final_status not_pursued = true
is_final_status s = is_approved s

-- `actor and value == actor.id`, where `actor` is held by its key
abbrev pub is_actor : Option ℕ → ℕ → Bool
is_actor none value = false
is_actor (some a) value = value == a

-- `assessment is not None and actor and assessment.assessed_by_id == actor.id`
abbrev pub assessed_by_actor : Option ℕ → Option DecisionAssessment → Bool
assessed_by_actor none assessment = false
assessed_by_actor (some a) none = false
assessed_by_actor (some a) (some s) = holds s.assessed_by a

abbrev pub assessment_warnings : Option DecisionAssessment → List ApprovalWarning
assessment_warnings none = []
assessment_warnings (some s) =
    when (is_low (confidence_level s)) confidence_low
    ++ when (is_low s.technical_feasibility) feasibility_low
    ++ when (is_low s.data_readiness) data_low
    ++ when (is_high s.risk_complexity) risk_high

-- The warning of a decision that departs from the recommendation.
abbrev pub deviation : Option DecisionAssessment → DecisionStatus → List ApprovalWarning
deviation none target = []
deviation (some s) target = when (not (decision_status_eq s.recommendation target)) deviates

module _ (file : CaseFile) (actor : Option ℕ) where
  -- What blocks a positive decision.
  abbrev pub positive_blockers : Option DecisionAssessment → List ApprovalBlocker
  positive_blockers assessment =
      when (is_none assessment) assessment_missing
      ++ map field_missing (missing_fields file.use_case approval_core_requirements)
      ++ when (assessed_by_actor actor assessment) same_assessor
      ++ when (is_actor actor file.use_case.business_owner) same_owner
      ++ when (not (has_screening (governance_of file))) screening_missing
      ++ map governance_failed (failed_required_governance_reviews (governance_of file))

  abbrev pub positive_warnings : Option DecisionAssessment → List ApprovalWarning
  positive_warnings assessment =
      map review_open (open_required_governance_warnings (governance_of file))
      ++ map field_open (missing_fields file.use_case approval_metric_requirements)
      ++ assessment_warnings assessment

  abbrev pub negative_warnings : Option DecisionAssessment → List ApprovalWarning
  negative_warnings assessment =
      if is_none assessment
      then no_assessment ∷ []
      else when (assessed_by_actor actor assessment) same_person_hint

  -- `approval_check` behind its first guard
  abbrev pub check_final : Option DecisionAssessment → DecisionStatus → ApprovalCheck
  check_final assessment target =
      if is_approved target
      then record {
        blockers = positive_blockers assessment;
        warnings = positive_warnings assessment ++ deviation assessment target;
      }
      else record {
        blockers = [];
        warnings = negative_warnings assessment ++ deviation assessment target;
      }

  unfoldable pub approval_check : DecisionStatus → ApprovalCheck
  approval_check target =
      if not (is_final_status target)
      then record { blockers = invalid_target ∷ []; warnings = [] }
      else check_final (latest_assessment file.decision_assessments) target
