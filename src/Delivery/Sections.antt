-- ===== src/Delivery/Sections.antt =====
-- ki_radar/delivery/services.py: the review of a package's sections.
pub mod Sound
pub mod AnyStatus
use ki_use_case_radar.Common.{
  ℕ, Bool, true, false, ◌&&◌, ◌||◌, not, Option, none, some, List, [], ◌∷◌, map, find, any, Text,
  truthy, strip, holds, ◌==◌, is_none, if◌then◌else◌, Result, ok, err, ◌>>=◌, ◌>>◌, raise_if,
  require,
}
use ki_use_case_radar.Clock.{Clock}
use ki_use_case_radar.Accounts.{User}
use ki_use_case_radar.UseCases.Model.{UseCase}
use ki_use_case_radar.Delivery.Model.{
  Section, section_eq, DeliveryPackage, SectionReview, PackageStatus, draft, ready, handed_over,
  package_status_eq, Role, business, technical, requires_role, confirmed_at, confirmed_by,
  confirmations_complete, needs_review, confirmed, blocked, SectionStatus, ContentOrigin, RoleLabel,
  admin_override_label,
}
use ki_use_case_radar.Delivery.Permissions.{
  has_reviewer_role, can_review_section, can_use_admin_confirmation_override,
  confirmation_role_label,
}

-- `action`; `unknown_action` stands for every other text.
pub data SectionAction : Type 0 where
  confirm confirm_business confirm_technical block mark_not_applicable reset unknown_action :
      SectionAction

pub data SectionError : Type 0 where
  section_missing role_missing choose_role same_person_forbidden : SectionError
  confirmation_forbidden : Role → SectionError
  override_reason_missing block_reason_missing not_applicable_reason_missing : SectionError
  action_unknown : SectionError

-- The values that a reset clears.
abbrev pub clear_confirmations : SectionReview → SectionReview
clear_confirmations r = record r {
  review_status = needs_review;
  business_confirmed_by = none;
  business_confirmed_at = none;
  technical_confirmed_by = none;
  technical_confirmed_at = none;
  business_confirmation_role = none;
  technical_confirmation_role = none;
  role_collapse_reason = [];
  admin_override_confirmed = false;
}

abbrev pub excused : SectionReview → SectionReview
excused r = record r {
  content_origin = ContentOrigin.not_applicable;
  review_status = SectionStatus.not_applicable;
}

-- `if package.status == READY: package.status = DRAFT`
abbrev pub back_to_draft : PackageStatus → PackageStatus
back_to_draft ready = draft
back_to_draft s = s

unfoldable pub reset_section_reviews : (Section → Bool) → DeliveryPackage → DeliveryPackage
reset_section_reviews keys p = record p {
  section_reviews =
      map
        (λ (r : SectionReview).
          if keys r.section_key
          then record (clear_confirmations r) { reviewed_by = none; reviewed_at = none }
          else r)
        p.section_reviews;
  status = back_to_draft p.status;
}

abbrev pub other_role : Role → Role
other_role business = technical
other_role technical = business

-- `setattr(review, f"{role}_confirmed_by", actor)` and the like
abbrev pub set_confirmation : Role → ℕ → ℕ → RoleLabel → SectionReview → SectionReview
set_confirmation business actor now label r = record r {
  business_confirmed_by = some actor;
  business_confirmed_at = some now;
  business_confirmation_role = some label;
}
set_confirmation technical actor now label r = record r {
  technical_confirmed_by = some actor;
  technical_confirmed_at = some now;
  technical_confirmation_role = some label;
}

abbrev pub label_override : SectionReview → SectionReview
label_override r = record r {
  business_confirmation_role =
      if r.admin_override_confirmed
      then some admin_override_label
      else r.business_confirmation_role;
  technical_confirmation_role =
      if r.admin_override_confirmed
      then some admin_override_label
      else r.technical_confirmation_role;
}

abbrev pub set_status : SectionReview → SectionReview
set_status r = record r {
  review_status = if confirmations_complete r then confirmed else needs_review;
}

module _ (clock : Clock) (actor : User) (use_case : UseCase) (package' : DeliveryPackage) where
  -- `roles` and `review.required_confirmations` for the section of the review
  abbrev pub may_confirm : SectionReview → Role → Bool
  may_confirm r role =
      has_reviewer_role actor use_case package' r.section_key role
      && requires_role r.section_key role

  -- A confirmation by the person of the other confirmation.
  abbrev pub collapse : Text → SectionReview → Result SectionError SectionReview
  collapse reason r =
      require (can_use_admin_confirmation_override actor) same_person_forbidden
      >> require (truthy (strip reason)) override_reason_missing
      >> ok (record r { role_collapse_reason = strip reason; admin_override_confirmed = true })

  abbrev pub check_other : Role → Text → SectionReview → Result SectionError SectionReview
  check_other role reason r =
      if holds (confirmed_by r (other_role role)) actor.id
      then collapse reason r
      else ok (record r { role_collapse_reason = []; admin_override_confirmed = false })

  abbrev pub is_assigned : Role → Bool
  is_assigned business = use_case.business_owner == actor.id
  is_assigned technical = holds package'.technical_owner actor.id

  abbrev pub store_confirmation : Role → SectionReview → SectionReview
  store_confirmation role r = set_status (
      label_override (
        set_confirmation role actor.id clock.now
          (confirmation_role_label role (is_assigned role) r.admin_override_confirmed) r))

  abbrev pub confirm_role : Role → Text → SectionReview → Result SectionError SectionReview
  confirm_role role reason r =
      require (may_confirm r role) (confirmation_forbidden role)
      >> (check_other role reason r >>= λ c. ok (store_confirmation role c))

  -- `open_roles`, and the choice of its single element
  abbrev pub is_open : SectionReview → Role → Bool
  is_open r role = may_confirm r role && is_none (confirmed_at r role)

  abbrev pub choose : Bool → Bool → Result SectionError SectionAction
  choose true false = ok confirm_business
  choose false true = ok confirm_technical
  choose _ _ = err choose_role

  abbrev pub resolve_action : SectionReview → SectionAction → Result SectionError SectionAction
  resolve_action r confirm = choose (is_open r business) (is_open r technical)
  resolve_action r action = ok action

  abbrev pub act : Text → SectionReview → SectionAction → Result SectionError SectionReview
  act reason r confirm_business = confirm_role business reason r
  act reason r confirm_technical = confirm_role technical reason r
  act reason r block =
      require (truthy r.review_note) block_reason_missing
      >> ok (record r { review_status = blocked })
  act reason r mark_not_applicable =
      require (truthy r.review_note) not_applicable_reason_missing >> ok (excused r)
  act reason r reset = ok (clear_confirmations r)
  act reason r _ = err action_unknown

  -- The review of one section, from its stored row to its new one.
  unfoldable pub review_section :
      SectionAction → Text → Text → SectionReview → Result SectionError SectionReview
  review_section action note reason r =
      require (can_review_section actor use_case package' r.section_key) role_missing
      >> (resolve_action r action
          >>= act reason (record r {
            reviewed_by = some actor.id;
            reviewed_at = some clock.now;
            review_note = strip note;
          }))

  abbrev pub store_review : SectionReview → DeliveryPackage
  store_review new_row = record package' {
    section_reviews =
        map
          (λ (r : SectionReview).
            if section_eq r.section_key new_row.section_key then new_row else r)
          package'.section_reviews;
    status = back_to_draft package'.status;
  }

  abbrev pub review_found :
      SectionAction → Text → Text → Option SectionReview → Result SectionError DeliveryPackage
  review_found action note reason none = err section_missing
  review_found action note reason (some r) =
      review_section action note reason r >>= λ new_row. ok (store_review new_row)

  unfoldable pub review_delivery_section :
      Section → SectionAction → Text → Text → Result SectionError DeliveryPackage
  review_delivery_section key action note reason =
      review_found action note reason
        (find (λ (r : SectionReview). section_eq r.section_key key) package'.section_reviews)
