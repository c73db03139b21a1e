-- ===== src/Delivery/Permissions.antt =====
-- ki_radar/delivery/permissions.py: who may confirm, review and move a package.
use ki_use_case_radar.Common.{
  Bool, true, false, ◌&&◌, ◌||◌, not, List, [], ◌∷◌, filter, is_empty, holds, ◌==◌, if◌then◌else◌,
}
use ki_use_case_radar.Accounts.{
  User, coordinator, business_owner, in_group, is_coordinator, is_technical_admin,
}
use ki_use_case_radar.UseCases.Model.{UseCase}
use ki_use_case_radar.UseCases.Permissions.{can_view_use_case}
use ki_use_case_radar.Delivery.Model.{
  Section, problem_and_target, scope_and_users, solution_direction, architecture_and_data,
  requirements_and_governance, acceptance_and_measurement, delivery_control, DeliveryPackage,
  handed_over, package_status_eq, Role, business, technical, RoleLabel, business_owner_label,
  business_deputy_label, technical_owner_label, technical_deputy_label, admin_override_label,
}

-- BUSINESS_SECTIONS and TECHNICAL_SECTIONS
abbrev pub in_sections_of : Role → Section → Bool
in_sections_of business problem_and_target = true
in_sections_of business scope_and_users = true
in_sections_of business acceptance_and_measurement = true
in_sections_of role solution_direction = true
in_sections_of role delivery_control = true
in_sections_of technical architecture_and_data = true
in_sections_of technical requirements_and_governance = true
in_sections_of _ _ = false

abbrev pub all_sections : List Section
all_sections =
    problem_and_target ∷ scope_and_users ∷ solution_direction ∷ architecture_and_data
    ∷ requirements_and_governance ∷ acceptance_and_measurement ∷ delivery_control ∷ []

module _ (user : User) (use_case : UseCase) (package' : DeliveryPackage) where
  unfoldable pub can_confirm_business : Section → Bool
  unfolding in_group is_technical_admin
  can_confirm_business key =
      in_sections_of business key
      && (use_case.business_owner == user.id
          || in_group user business_owner
          || in_group user coordinator
          || is_technical_admin user)

  unfoldable pub can_confirm_technical : Section → Bool
  unfolding is_coordinator
  can_confirm_technical key =
      in_sections_of technical key
      && (holds package'.technical_owner user.id || is_coordinator user)

  -- `role in reviewer_roles(user, package, section_key)`
  unfoldable pub has_reviewer_role : Section → Role → Bool
  unfolding can_confirm_business can_confirm_technical
  has_reviewer_role key business = can_confirm_business key
  has_reviewer_role key technical = can_confirm_technical key

  unfoldable pub can_review_section : Section → Bool
  unfolding has_reviewer_role
  can_review_section key = has_reviewer_role key business || has_reviewer_role key technical

  unfoldable pub allowed_edit_sections : List Section
  unfolding can_review_section
  allowed_edit_sections =
      if package_status_eq package'.status handed_over
      then []
      else filter can_review_section all_sections

  unfoldable pub can_edit_package : Bool
  unfolding allowed_edit_sections
  can_edit_package = not (is_empty allowed_edit_sections)

  unfoldable pub can_resolve_role_source : Bool
  unfolding is_coordinator is_technical_admin
  can_resolve_role_source =
      if package_status_eq package'.status handed_over
      then false
      else use_case.business_owner == user.id
        || holds package'.technical_owner user.id
        || holds use_case.technical_owner user.id
        || is_coordinator user
        || is_technical_admin user

unfoldable pub can_view_package : User → UseCase → Bool
unfolding can_view_use_case
can_view_package user use_case = can_view_use_case user use_case

unfoldable pub can_create_package : User → Bool
unfolding is_coordinator
can_create_package user = is_coordinator user

unfoldable pub can_transition_package : User → Bool
unfolding is_coordinator
can_transition_package user = is_coordinator user

unfoldable pub can_use_admin_confirmation_override : User → Bool
unfolding is_technical_admin
can_use_admin_confirmation_override user = is_technical_admin user

unfoldable pub confirmation_role_label : Role → Bool → Bool → RoleLabel
confirmation_role_label role assigned true = admin_override_label
confirmation_role_label business assigned false =
    if assigned then business_owner_label else business_deputy_label
confirmation_role_label technical assigned false =
    if assigned then technical_owner_label else technical_deputy_label
