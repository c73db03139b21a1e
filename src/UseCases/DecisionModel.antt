-- ===== src/UseCases/DecisionModel.antt =====
-- ki_radar/use_cases/models.py: `DecisionAssessment` and `ApprovalDecision`.
pub mod Confidence
use ki_use_case_radar.Common.{
  ℕ, Bool, true, false, ◌&&◌, ◌||◌, not, Option, none, some, List, [], ◌∷◌, Text, truthy,
  if◌then◌else◌, is_none, is_some, leb, ltb, all, first_by,
}
use ki_use_case_radar.UseCases.Model.{
  Level, low, medium, high, DecisionStatus, approved_with_conditions, decision_status_eq,
}

-- The values of EvidenceQuality and ConfidenceFactor.
abbrev pub expert_opinion : ℕ
expert_opinion = 2

abbrev pub representative : ℕ
representative = 4

abbrev pub limited : ℕ
limited = 2

abbrev pub solid : ℕ
solid = 3

-- `recommendation` is a choice of `Recommendation`, whose values are decision statuses.
pub record DecisionAssessment : Type 0 where
  pub pk : ℕ
  pub version : ℕ
  pub assessed_by : Option ℕ
  pub business_value : Level
  pub strategic_fit : Level
  pub technical_feasibility : Level
  pub data_readiness : Level
  pub risk_complexity : Level
  pub evidence_quality : ℕ
  pub evidence_recency : ℕ
  pub evidence_coverage : ℕ
  pub independent_review : ℕ
  pub assumptions_resolved : ℕ
  pub evidence_url : Text
  pub rationale : Text
  pub governance_precheck_completed : Bool
  pub recommendation : DecisionStatus

-- `DecisionAssessment.clean`: whether it raises
abbrev pub evidence_link_missing : DecisionAssessment → Bool
evidence_link_missing a = ltb 1 a.evidence_quality && not (truthy a.evidence_url)

abbrev pub factors : DecisionAssessment → List ℕ
factors a =
    a.evidence_recency ∷ a.evidence_coverage ∷ a.independent_review ∷ a.assumptions_resolved ∷ []

unfoldable pub confidence_level : DecisionAssessment → Level
confidence_level a =
    if leb representative a.evidence_quality && all (leb solid) (factors a)
    then high
    else if leb expert_opinion a.evidence_quality && all (leb limited) (factors a)
    then medium
    else low

-- `Meta.ordering = ["-version"]`
abbrev pub assessment_before : DecisionAssessment → DecisionAssessment → Bool
assessment_before a b = ltb b.version a.version

-- `use_case.decision_assessments.first()`
unfoldable pub latest_assessment : List DecisionAssessment → Option DecisionAssessment
latest_assessment = first_by assessment_before

pub record ApprovalDecision : Type 0 where
  pub pk : ℕ
  pub created_at : ℕ
  pub assessment : Option ℕ
  pub decision_status : DecisionStatus
  pub rationale : Text
  pub decided_by : Option ℕ
  pub governance_confirmed : Bool
  pub conditions : Text
  pub condition_owner : Option ℕ
  pub condition_due_date : Option ℕ
  pub second_approval_assignee : Option ℕ
  pub second_approval_requested_at : Option ℕ
  pub second_approval_returned_by : Option ℕ
  pub second_approval_returned_at : Option ℕ
  pub second_approval_return_reason : Text
  pub second_approved_by : Option ℕ
  pub finalized_at : Option ℕ

abbrev pub is_pending_second_approval : ApprovalDecision → Bool
is_pending_second_approval d =
    decision_status_eq d.decision_status approved_with_conditions
    && is_none d.finalized_at
    && is_none d.second_approval_returned_at

abbrev pub is_returned_from_second_approval : ApprovalDecision → Bool
is_returned_from_second_approval d = is_some d.second_approval_returned_at

abbrev pub is_final : ApprovalDecision → Bool
is_final d = is_some d.finalized_at
