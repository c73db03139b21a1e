-- ===== src/Samples.antt =====
-- A use case with its rows at several points of its life, for tests.
pub mod Lifecycle
pub mod Decisions
pub mod Delivery
pub mod Governance
pub mod Checks
pub mod Ideas
pub mod Scale
pub mod Readiness
pub mod Adoption
pub mod Capture
use ki_use_case_radar.Common.{ℕ, true, false, none, some, List, [], ◌∷◌, codes, ℤ, pos}
use ki_use_case_radar.Clock.{Clock}
use ki_use_case_radar.Accounts.{Group, User, coordinator, business_owner, tech_admin}
use ki_use_case_radar.UseCases.Model.{
  Status, idea, review, pilot, operation, ended, DecisionStatus, clarification, approved,
  approved_with_conditions, lower, medium, high, UseCase,
}
use ki_use_case_radar.UseCases.DecisionModel.{DecisionAssessment, ApprovalDecision}
use ki_use_case_radar.Governance.Model.{GovernanceAssessment}
use ki_use_case_radar.Delivery.Model.{DeliveryPackage, PackageStatus, handed_over, draft}
use ki_use_case_radar.Reviews.Model.{Review}
use ki_use_case_radar.CaseFile.{CaseFile}

-- Day 100, with one second to the day.
abbrev pub clock : Clock
clock = record { now = 100; local_date = λ t. t }

abbrev pub person : ℕ → List Group → User
person id groups = record {
  id = id;
  is_authenticated = true;
  is_active = true;
  is_superuser = false;
  is_anonymized = false;
  groups = groups;
}

abbrev pub alice : User
alice = person 1 (coordinator ∷ [])

abbrev pub bob : User
bob = person 2 (coordinator ∷ [])

abbrev pub owner : User
owner = person 3 (business_owner ∷ [])

abbrev pub carol : User
carol = person 4 (coordinator ∷ [])

abbrev pub everyone : List User
everyone = alice ∷ bob ∷ owner ∷ carol ∷ []

abbrev pub use_case_in : Status → DecisionStatus → UseCase
use_case_in status decision_status = record {
  pk = 1;
  short_id = codes "UC-1";
  title = codes "Mail";
  problem_statement = codes "slow";
  business_unit = 1;
  affected_process = codes "desk";
  business_owner = 3;
  technical_owner = some 2;
  status = status;
  decision_status = decision_status;
  next_review_date = none;
  pilot_start = some 95;
  planned_pilot_end = some 120;
  actual_end_date = none;
  data_sources = codes "mails";
  expected_benefit = codes "time";
  metric_name = codes "minutes";
  metric_type = none;
  metric_direction = some lower;
  metric_unit = [];
  metric_baseline = some (pos 20);
  metric_target = some (pos 10);
  metric_actual = some (pos 9);
  metric_measurement_method = [];
  metric_measurement_period = [];
  metric_measured_at = some 98;
  metric_evidence_url = [];
  one_time_cost = none;
  recurring_cost = none;
  business_value = high;
  technical_feasibility = medium;
  data_readiness = medium;
  risk_complexity = medium;
  privacy_review_required = false;
  security_review_required = false;
  legal_review_required = false;
  privacy_review_completed = false;
  security_review_completed = false;
  legal_review_completed = false;
  human_oversight = [];
  support_responsibility = codes "desk";
  ending_reason = [];
  final_assessment = [];
  lessons_learned = [];
  data_and_access_handling = [];
  replacement_solution = [];
  is_archived = false;
}

abbrev pub screening : GovernanceAssessment
screening = record {
  pk = 2;
  use_case = 1;
  created_at = 80;
  assessment_date = 80;
  reviewer = some 1;
  personal_data = false;
  employee_data = false;
  automated_person_assessment = false;
  influences_person_decisions = false;
  biometric_data = false;
  safety_critical = false;
  regulated_product = false;
  health_safety_rights_impact = false;
  privacy_review_required = false;
  privacy_review_rationale = [];
  security_review_required = false;
  security_review_rationale = [];
  legal_review_required = false;
  legal_review_rationale = [];
  rationale = [];
}

-- The assessment of Carol.
abbrev pub assessment : DecisionAssessment
assessment = record {
  pk = 3;
  version = 1;
  assessed_by = some 4;
  business_value = high;
  strategic_fit = high;
  technical_feasibility = medium;
  data_readiness = medium;
  risk_complexity = medium;
  evidence_quality = 4;
  evidence_recency = 3;
  evidence_coverage = 3;
  independent_review = 3;
  assumptions_resolved = 3;
  evidence_url = codes "https://e";
  rationale = codes "good";
  governance_precheck_completed = true;
  recommendation = approved;
}

abbrev pub package_in : PackageStatus → DeliveryPackage
package_in status = record {
  pk = 4;
  created_at = 85;
  version = 1;
  status = status;
  readiness_schema_version = 2;
  technical_owner = some 2;
  generated_from_decision = 5;
  created_by = some 1;
  handed_over_by = some 1;
  handed_over_at = some 90;
  section_reviews = [];
}

-- The file of the use case, with its rows and no reviews.
abbrev pub file_in : Status → DecisionStatus → CaseFile
file_in status decision_status = record {
  use_case = use_case_in status decision_status;
  governance_assessments = screening ∷ [];
  governance_reviews = [];
  decision_assessments = assessment ∷ [];
  approval_decisions = [];
  delivery_packages = package_in handed_over ∷ [];
  reviews = [];
  early_exceptions = [];
  next_pk = 10;
}
