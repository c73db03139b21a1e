-- ===== src/UseCases/Permissions.antt =====
-- ki_radar/use_cases/permissions.py: who may do what with a use case.
use ki_use_case_radar.Common.{Bool, true, false, ◌&&◌, ◌||◌, not, ◌==◌, if◌then◌else◌}
use ki_use_case_radar.Accounts.{User, is_coordinator, is_business_owner}
use ki_use_case_radar.UseCases.Model.{UseCase}

unfoldable pub can_create_use_case : User → Bool
unfolding is_business_owner
can_create_use_case user = is_business_owner user

unfoldable pub can_edit_use_case : User → UseCase → Bool
unfolding is_coordinator is_business_owner
can_edit_use_case user use_case =
    is_coordinator user || is_business_owner user && use_case.business_owner == user.id

unfoldable pub can_view_use_case : User → UseCase → Bool
can_view_use_case user use_case = user.is_authenticated && not use_case.is_archived

-- `_can_accountable_transition`. A request always has a user, so `not user` is never the case.
unfoldable pub can_accountable_transition : User → UseCase → Bool
unfolding is_coordinator is_business_owner
can_accountable_transition user use_case =
    if not user.is_authenticated
    then false
    else if is_coordinator user
    then true
    else is_business_owner user && use_case.business_owner == user.id

unfoldable pub can_start_pilot : User → UseCase → Bool
unfolding can_accountable_transition
can_start_pilot user use_case = can_accountable_transition user use_case

unfoldable pub can_end_use_case : User → UseCase → Bool
unfolding can_accountable_transition
can_end_use_case user use_case = can_accountable_transition user use_case

unfoldable pub can_confirm_go_live_exception : User → Bool
unfolding is_coordinator
can_confirm_go_live_exception user = user.is_authenticated && is_coordinator user
