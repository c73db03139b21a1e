-- ===== src/Delivery/Model.antt =====
-- ki_radar/delivery/models.py: packages and section reviews.
use ki_use_case_radar.Common.{
  ℕ, Bool, true, false, ◌&&◌, ◌||◌, not, Option, none, some, List, Text, is_none, holds,
}

pub data Section : Type 0 where
  problem_and_target scope_and_users solution_direction architecture_and_data : Section
  requirements_and_governance acceptance_and_measurement delivery_control : Section

pub data PackageStatus : Type 0 where
  draft ready handed_over : PackageStatus

pub data ContentOrigin : Type 0 where
  inherited mixed new not_applicable : ContentOrigin

pub data SectionStatus : Type 0 where
  needs_review confirmed blocked not_applicable : SectionStatus

-- The two roles of a confirmation.
pub data Role : Type 0 where
  business technical : Role

-- The label that `confirmation_role_label` stores with a confirmation; `none` is the empty text.
pub data RoleLabel : Type 0 where
  business_owner_label business_deputy_label technical_owner_label : RoleLabel
  technical_deputy_label admin_override_label : RoleLabel

pub record SectionReview : Type 0 where
  pub section_key : Section
  pub content_origin : ContentOrigin
  pub review_status : SectionStatus
  pub review_note : Text
  pub reviewed_by : Option ℕ
  pub reviewed_at : Option ℕ
  pub business_confirmed_by : Option ℕ
  pub business_confirmed_at : Option ℕ
  pub technical_confirmed_by : Option ℕ
  pub technical_confirmed_at : Option ℕ
  pub business_confirmation_role : Option RoleLabel
  pub technical_confirmation_role : Option RoleLabel
  pub role_collapse_reason : Text
  pub admin_override_confirmed : Bool

-- The fields that the modelled operations read or write.
pub record DeliveryPackage : Type 0 where
  pub pk : ℕ
  pub created_at : ℕ
  pub version : ℕ
  pub status : PackageStatus
  pub readiness_schema_version : ℕ
  pub technical_owner : Option ℕ
  pub generated_from_decision : ℕ
  pub created_by : Option ℕ
  pub handed_over_by : Option ℕ
  pub handed_over_at : Option ℕ
  pub section_reviews : List SectionReview

abbrev pub section_eq : Section → Section → Bool
section_eq problem_and_target problem_and_target = true
section_eq scope_and_users scope_and_users = true
section_eq solution_direction solution_direction = true
section_eq architecture_and_data architecture_and_data = true
section_eq requirements_and_governance requirements_and_governance = true
section_eq acceptance_and_measurement acceptance_and_measurement = true
section_eq delivery_control delivery_control = true
section_eq _ _ = false

abbrev pub package_status_eq : PackageStatus → PackageStatus → Bool
package_status_eq draft draft = true
package_status_eq ready ready = true
package_status_eq handed_over handed_over = true
package_status_eq _ _ = false

-- SECTION_REVIEW_REQUIREMENTS: whether the role stands in the set of the section
abbrev pub requires_role : Section → Role → Bool
requires_role problem_and_target business = true
requires_role scope_and_users business = true
requires_role solution_direction role = true
requires_role architecture_and_data technical = true
requires_role requirements_and_governance technical = true
requires_role acceptance_and_measurement business = true
requires_role delivery_control role = true
requires_role _ _ = false

abbrev pub confirmed_at : SectionReview → Role → Option ℕ
confirmed_at r business = r.business_confirmed_at
confirmed_at r technical = r.technical_confirmed_at

abbrev pub confirmed_by : SectionReview → Role → Option ℕ
confirmed_by r business = r.business_confirmed_by
confirmed_by r technical = r.technical_confirmed_by

-- `role_confirmations_complete`, which `confirmations_complete` returns
abbrev pub confirmations_complete : SectionReview → Bool
confirmations_complete r = not (
    requires_role r.section_key business && is_none r.business_confirmed_at
    || requires_role r.section_key technical && is_none r.technical_confirmed_at)

abbrev pub same_person : Option ℕ → Option ℕ → Bool
same_person none b = false
same_person (some a) b = holds b a

abbrev pub has_role_collapse : SectionReview → Bool
has_role_collapse r =
    (requires_role r.section_key business && requires_role r.section_key technical)
    && same_person r.business_confirmed_by r.technical_confirmed_by
