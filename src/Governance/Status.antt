-- ===== src/Governance/Status.antt =====
-- ki_radar/governance/services.py: the current screening and review state of a use case.
pub mod Blockers
use ki_use_case_radar.Common.{
  ℕ, Bool, true, false, ◌&&◌, ◌||◌, not, Option, none, some, List, [], ◌∷◌, ◌++◌, map,
  if◌then◌else◌, is_none, is_some, holds, filter, find, first_by, is_empty, ltb, ◌==◌,
}
use ki_use_case_radar.UseCases.Model.{UseCase}
use ki_use_case_radar.Governance.Model.{
  ReviewType, privacy, security, legal, GovernanceAssessment, GovernanceReview, type_eq,
  is_completed, is_completed_status, is_conditional, is_failed, screening_requires,
}

pub record GovernanceReviewState : Type 0 where
  pub review_type : ReviewType
  pub required : Bool
  pub review : Option GovernanceReview
  pub legacy_completed : Bool

pub record GovernanceStatus : Type 0 where
  pub screening : Option GovernanceAssessment
  pub reviews : List GovernanceReviewState

-- The text of `GovernanceReviewState.blocker`, with the type whose label it begins with.
pub data GovernanceBlocker : Type 0 where
  still_open not_passed without_result : ReviewType → GovernanceBlocker

abbrev pub review_completed : Option GovernanceReview → Bool → Bool
review_completed none legacy = legacy
review_completed (some r) legacy = is_completed r

-- `GovernanceReviewState.completed`
abbrev pub state_completed : GovernanceReviewState → Bool
state_completed s = if not s.required then true else review_completed s.review s.legacy_completed

abbrev pub review_failed : Option GovernanceReview → Bool
review_failed none = false
review_failed (some r) = is_completed_status r.status && is_failed r.result

abbrev pub review_conditional : Option GovernanceReview → Bool
review_conditional none = false
review_conditional (some r) = is_completed_status r.status && is_conditional r.result

-- `GovernanceReviewState.failed`
abbrev pub state_failed : GovernanceReviewState → Bool
state_failed s = s.required && review_failed s.review

-- `GovernanceReviewState.conditionally_passed`
abbrev pub conditionally_passed : GovernanceReviewState → Bool
conditionally_passed s = s.required && review_conditional s.review

abbrev pub blocker_of_review : ReviewType → Option GovernanceReview → GovernanceBlocker
blocker_of_review t none = still_open t
blocker_of_review t (some r) =
    if not (is_completed_status r.status)
    then still_open t
    else if is_failed r.result
    then not_passed t
    else without_result t

-- `GovernanceReviewState.blocker`: `none` is the empty text.
abbrev pub state_blocker : GovernanceReviewState → Option GovernanceBlocker
state_blocker s =
    if not s.required || state_completed s
    then none
    else some (blocker_of_review s.review_type s.review)

abbrev pub has_screening : GovernanceStatus → Bool
has_screening g = is_some g.screening

abbrev pub required_reviews : GovernanceStatus → List GovernanceReviewState
required_reviews g = filter (λ (s : GovernanceReviewState). s.required) g.reviews

abbrev pub incomplete_required_reviews : GovernanceStatus → List GovernanceReviewState
incomplete_required_reviews g = filter (λ s. not (state_completed s)) (required_reviews g)

-- The order of REVIEW_DEFINITIONS.
abbrev pub review_order : List ReviewType
review_order = privacy ∷ security ∷ legal ∷ []

-- `getattr(use_case, definition.required_field)`, `getattr(use_case, definition.completed_field)`
abbrev pub use_case_requires : UseCase → ReviewType → Bool
use_case_requires u privacy = u.privacy_review_required
use_case_requires u security = u.security_review_required
use_case_requires u legal = u.legal_review_required

abbrev pub use_case_completed : UseCase → ReviewType → Bool
use_case_completed u privacy = u.privacy_review_completed
use_case_completed u security = u.security_review_completed
use_case_completed u legal = u.legal_review_completed

-- `Meta.ordering` of the screenings: the latest assessment date, then the latest creation.
abbrev pub screening_before : GovernanceAssessment → GovernanceAssessment → Bool
screening_before a b =
    ltb b.assessment_date a.assessment_date
    || a.assessment_date == b.assessment_date && ltb b.created_at a.created_at

-- `order_by("-created_at", "-reviewed_at")`
abbrev pub review_before : GovernanceReview → GovernanceReview → Bool
review_before a b =
    ltb b.created_at a.created_at || a.created_at == b.created_at && ltb b.reviewed_at a.reviewed_at

abbrev pub current_screening : List GovernanceAssessment → Option GovernanceAssessment
current_screening = first_by screening_before

abbrev pub of_screening : ℕ → List GovernanceReview → List GovernanceReview
of_screening screening = filter (λ (r : GovernanceReview). holds r.screening screening)

-- `artifacts.get(review_type)`: the first review of the type in the order of the query
abbrev pub artifact : ReviewType → List GovernanceReview → Option GovernanceReview
artifact t reviews =
    first_by review_before (filter (λ (r : GovernanceReview). type_eq r.review_type t) reviews)

module _ (use_case : UseCase) where
  -- One round of the loop over REVIEW_DEFINITIONS.
  abbrev pub review_state :
      GovernanceAssessment → List GovernanceReview → ReviewType → GovernanceReviewState
  review_state screening artifacts t =
      let legacy = is_empty artifacts in
      let required = screening_requires screening t || legacy && use_case_requires use_case t in
      let review = artifact t artifacts in
      record {
        review_type = t;
        required = required;
        review = review;
        legacy_completed = legacy && required && is_none review && use_case_completed use_case t;
      }

  abbrev pub status_of_screening :
      Option GovernanceAssessment → List GovernanceReview → GovernanceStatus
  status_of_screening none reviews = record {
    screening = none;
    reviews =
        map
          (λ t. record {
            review_type = t;
            required = false;
            review = none;
            legacy_completed = false;
          })
          review_order;
  }
  status_of_screening (some s) reviews = record {
    screening = some s;
    reviews = map (review_state s (of_screening s.pk reviews)) review_order;
  }

  unfoldable pub current_governance_status :
      List GovernanceAssessment → List GovernanceReview → GovernanceStatus
  current_governance_status assessments reviews =
      status_of_screening (current_screening assessments) reviews

abbrev pub blockers_of : List GovernanceReviewState → List GovernanceBlocker
blockers_of [] = []
blockers_of (s ∷ rest) = elim (state_blocker s) [
  | none ↦ blockers_of rest
  | some b ↦ b ∷ blockers_of rest
]

unfoldable pub required_governance_blockers : GovernanceStatus → List GovernanceBlocker
required_governance_blockers g = blockers_of (required_reviews g)

unfoldable pub failed_required_governance_reviews : GovernanceStatus → List GovernanceBlocker
failed_required_governance_reviews g = blockers_of (filter state_failed (required_reviews g))

unfoldable pub open_required_governance_warnings : GovernanceStatus → List GovernanceBlocker
open_required_governance_warnings g =
    blockers_of (filter (λ s. not (state_failed s)) (required_reviews g))
