-- ===== src/CaseFile.antt =====
-- A use case with the rows that point to it. `use_case.reviews`, `use_case.delivery_packages` and
-- the like are its lists.
use ki_use_case_radar.Common.{ℕ, List}
use ki_use_case_radar.UseCases.Model.{UseCase}
use ki_use_case_radar.UseCases.DecisionModel.{DecisionAssessment, ApprovalDecision}
use ki_use_case_radar.Governance.Model.{GovernanceAssessment, GovernanceReview}
use ki_use_case_radar.Governance.Status.{GovernanceStatus, current_governance_status}
use ki_use_case_radar.Delivery.Model.{DeliveryPackage}
use ki_use_case_radar.Reviews.Model.{Review, EarlyGoLiveException}

-- `next_pk` is the next value of the database's key sequence.
pub record CaseFile : Type 0 where
  pub use_case : UseCase
  pub governance_assessments : List GovernanceAssessment
  pub governance_reviews : List GovernanceReview
  pub decision_assessments : List DecisionAssessment
  pub approval_decisions : List ApprovalDecision
  pub delivery_packages : List DeliveryPackage
  pub reviews : List Review
  pub early_exceptions : List EarlyGoLiveException
  pub next_pk : ℕ

abbrev pub governance_of : CaseFile → GovernanceStatus
governance_of c = current_governance_status c.use_case c.governance_assessments c.governance_reviews
