-- ===== src/Governance/Model.antt =====
-- ki_radar/governance/models.py: screenings and formal reviews.
use ki_use_case_radar.Common.{
  ℕ, Bool, true, false, ◌&&◌, not, Option, none, some, List, ◌++◌, Text, truthy, strip, has_text,
  if◌then◌else◌, is_none, is_some, when, ◌==◌,
}

pub data ReviewType : Type 0 where
  privacy security legal : ReviewType

pub data ReviewStatus : Type 0 where
  open_review completed not_relevant : ReviewStatus

pub data ReviewResult : Type 0 where
  passed passed_with_conditions failed : ReviewResult

-- `GovernanceAssessment`, the screening.
pub record GovernanceAssessment : Type 0 where
  pub pk : ℕ
  pub use_case : ℕ
  pub created_at : ℕ
  pub assessment_date : ℕ
  pub reviewer : Option ℕ
  pub personal_data : Bool
  pub employee_data : Bool
  pub automated_person_assessment : Bool
  pub influences_person_decisions : Bool
  pub biometric_data : Bool
  pub safety_critical : Bool
  pub regulated_product : Bool
  pub health_safety_rights_impact : Bool
  pub privacy_review_required : Bool
  pub privacy_review_rationale : Text
  pub security_review_required : Bool
  pub security_review_rationale : Text
  pub legal_review_required : Bool
  pub legal_review_rationale : Text
  pub rationale : Text

-- `GovernanceReview`. The empty result is `none`; `screening` is a nullable foreign key.
pub record GovernanceReview : Type 0 where
  pub pk : ℕ
  pub use_case : ℕ
  pub screening : Option ℕ
  pub review_type : ReviewType
  pub status : ReviewStatus
  pub created_at : ℕ
  pub reviewed_at : ℕ
  pub reviewer : Option ℕ
  pub responsible_role : Text
  pub result : Option ReviewResult
  pub rationale : Text
  pub conditions : Text

abbrev pub type_eq : ReviewType → ReviewType → Bool
type_eq privacy privacy = true
type_eq security security = true
type_eq legal legal = true
type_eq _ _ = false

abbrev pub is_completed_status : ReviewStatus → Bool
is_completed_status completed = true
is_completed_status _ = false

abbrev pub is_positive : Option ReviewResult → Bool
is_positive (some passed) = true
is_positive (some passed_with_conditions) = true
is_positive _ = false

abbrev pub is_conditional : Option ReviewResult → Bool
is_conditional (some passed_with_conditions) = true
is_conditional _ = false

abbrev pub is_failed : Option ReviewResult → Bool
is_failed (some failed) = true
is_failed _ = false

-- `GovernanceReview.is_completed`
abbrev pub is_completed : GovernanceReview → Bool
is_completed r = is_completed_status r.status && is_positive r.result

-- `getattr(screening, f"{review_type}_review_required")`
abbrev pub screening_requires : GovernanceAssessment → ReviewType → Bool
screening_requires s privacy = s.privacy_review_required
screening_requires s security = s.security_review_required
screening_requires s legal = s.legal_review_required

abbrev pub type_rationale : GovernanceAssessment → ReviewType → Text
type_rationale s privacy = s.privacy_review_rationale
type_rationale s security = s.security_review_rationale
type_rationale s legal = s.legal_review_rationale

unfoldable pub review_rationale : GovernanceAssessment → ReviewType → Text
unfolding strip
review_rationale s t =
    strip (if truthy (type_rationale s t) then type_rationale s t else s.rationale)

-- The keys of the error dictionary of `GovernanceReview.clean`, with its message for `result`.
pub data CleanError : Type 0 where
  screening_of_other_use_case open_with_result irrelevant_with_result required_marked_irrelevant :
      CleanError
  completed_without_result conditions_missing : CleanError

abbrev pub foreign_screening : GovernanceReview → Option GovernanceAssessment → Bool
foreign_screening r none = false
foreign_screening r (some s) = not (s.use_case == r.use_case)

abbrev pub requires : Option GovernanceAssessment → ReviewType → Bool
requires none t = false
requires (some s) t = screening_requires s t

abbrev pub status_errors :
    GovernanceReview → Option GovernanceAssessment → ReviewStatus → List CleanError
status_errors r s open_review = when (is_some r.result) open_with_result
status_errors r s not_relevant =
    when (is_some r.result) irrelevant_with_result
    ++ when (requires s r.review_type) required_marked_irrelevant
status_errors r s completed =
    when (is_none r.result) completed_without_result
    ++ when (is_conditional r.result && not (has_text r.conditions)) conditions_missing

-- `GovernanceReview.clean`: its errors, with the row that `screening` points to.
unfoldable pub clean : GovernanceReview → Option GovernanceAssessment → List CleanError
unfolding has_text
clean r s = when (foreign_screening r s) screening_of_other_use_case ++ status_errors r s r.status
