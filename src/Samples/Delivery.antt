-- ===== src/Samples/Delivery.antt =====
-- Packages at concrete cases.
use ki_use_case_radar.Common.{
  strip, ◌≡◌, refl, true, false, none, some, List, [], ◌∷◌, map, All, codes, ok, err, is_ok,
}
use ki_use_case_radar.Clock.{Clock}
use ki_use_case_radar.UseCases.Model.{
  UseCase, save, review, ready, approved, approved_with_conditions,
}
use ki_use_case_radar.UseCases.DecisionModel.{ApprovalDecision, latest_assessment}
use ki_use_case_radar.UseCases.TransitionPolicy.{is_approved, validate_pilot_start}
use ki_use_case_radar.Delivery.Model.{
  Section, solution_direction, DeliveryPackage, draft, handed_over,
}
use ki_use_case_radar.Delivery.Handover.{recorded_handover_package}
use ki_use_case_radar.Delivery.Permissions.{
  can_use_admin_confirmation_override, can_review_section, all_sections,
}
use ki_use_case_radar.Delivery.Sections.{
  review_section, confirm_business, confirm_technical, block, review_delivery_section,
  same_person_forbidden,
}
use ki_use_case_radar.Delivery.Sections.Sound.{IsSound}
use ki_use_case_radar.Delivery.Sections.AnyStatus.{rows_of, review_delivery_section-any_status}
use ki_use_case_radar.Delivery.Packages.{
  mark_package_ready, delivery_eligibility, enforcement_findings, hand_over_package,
  new_section_review, new_package, create_delivery_package, latest_final_approval,
  assessment_missing,
}
use ki_use_case_radar.Delivery.Packages.Creation.{
  has_handed_over, create_delivery_package-blocks_pilot,
}
use ki_use_case_radar.Delivery.Packages.Approved.{run_decisions-create_delivery_package}
use ki_use_case_radar.UseCases.Fields.{missing_fields}
use ki_use_case_radar.UseCases.Approval.{approval_check}
use ki_use_case_radar.UseCases.Decisions.{
  DecisionData, submit_approval_decision, confirm_conditional_decision, eligible_second_approvers,
  can_review_conditional_decision,
}
use ki_use_case_radar.UseCases.Decisions.Requests.{DecisionRequest, submit, confirm, run_decisions}
use ki_use_case_radar.Governance.Status.{
  current_governance_status, failed_required_governance_reviews,
}
use ki_use_case_radar.Accounts.{is_coordinator}
use ki_use_case_radar.Delivery.Packages.Runs.{
  PackageRequest, mark_ready, hand_over, review_one, run_package, run_packages, IsKept,
  run_package-IsKept, IsHandedOver, run_package-handed_over,
}
use ki_use_case_radar.CaseFile.{CaseFile}
use ki_use_case_radar.Samples.{clock, alice, bob, owner, everyone, use_case_in, package_in, file_in}

abbrev pub approval : ApprovalDecision
approval = record {
  pk = 5;
  created_at = 84;
  assessment = some 3;
  decision_status = approved;
  rationale = codes "yes";
  decided_by = some 1;
  governance_confirmed = true;
  conditions = [];
  condition_owner = none;
  condition_due_date = none;
  second_approval_assignee = none;
  second_approval_requested_at = none;
  second_approval_returned_by = none;
  second_approval_returned_at = none;
  second_approval_return_reason = [];
  second_approved_by = none;
  finalized_at = some 84;
}

abbrev approved_case : CaseFile
approved_case = record (file_in review approved) { approval_decisions = approval ∷ [] }

abbrev fresh : DeliveryPackage
fresh = record (package_in draft) { section_reviews = map new_section_review all_sections }

abbrev the_case : UseCase
the_case = use_case_in review approved

abbrev requests : List (Clock × PackageRequest)
requests =
    (clock, review_one owner solution_direction confirm_business [] [])
    ∷ (clock, review_one bob solution_direction confirm_technical [] [])
    ∷ (clock, mark_ready)
    ∷ (clock, hand_over alice)
    ∷ (clock, review_one bob solution_direction block (codes "late") [])
    ∷ []

-- The requests lead to the handover.
handed : (run_package everyone the_case fresh requests).status ≡ handed_over
unfolding run_package review_delivery_section hand_over_package mark_package_ready review_section
    can_review_section enforcement_findings strip
handed = refl

-- One person does not confirm both roles.
alone :
    rows_of (
      review_delivery_section clock bob the_case
        (run_package everyone the_case fresh
          ((clock, review_one bob solution_direction confirm_technical [] []) ∷ []))
        solution_direction
        confirm_business
        []
        [])
    ≡ err same_person_forbidden
unfolding run_package review_delivery_section review_section can_review_section
    can_use_admin_confirmation_override
alone = refl

creates :
    create_delivery_package clock approved_case alice
    ≡ ok (record approved_case {
      delivery_packages =
          new_package clock approved_case alice approval ∷ approved_case.delivery_packages;
      next_pk = 11;
    })
unfolding create_delivery_package delivery_eligibility latest_final_approval
creates = refl

new_section_review-IsSound : (key : Section) → IsSound (new_section_review key)
new_section_review-IsSound key = record { separate = λ h. absurd cc; complete = λ h. absurd cc }

sections-IsSound : (keys : List Section) → All IsSound (map new_section_review keys)
sections-IsSound [] = tt
sections-IsSound (key ∷ keys) = (new_section_review-IsSound key, sections-IsSound keys)

run_package-IsKept_example : IsKept (run_package everyone the_case fresh requests)
run_package-IsKept_example =
    run_package-IsKept everyone the_case requests fresh
      (record { sound = sections-IsSound all_sections; unblocked = λ e. absurd cc })

run_package-handed_over_example :
    IsHandedOver
      (some 1)
      (some 90)
      (run_package everyone the_case (package_in handed_over) requests)
run_package-handed_over_example =
    run_package-handed_over everyone the_case requests (package_in handed_over) refl

-- A final approval whose assessment is gone is not enough.
without_assessment :
    create_delivery_package clock
      (record approved_case { approval_decisions = record approval { assessment = none } ∷ [] })
      alice
    ≡ err assessment_missing
unfolding create_delivery_package delivery_eligibility latest_final_approval
without_assessment = refl

abbrev approval_with_conditions : DecisionData
approval_with_conditions = record {
  decision_status = approved_with_conditions;
  rationale = codes "fine";
  governance_confirmed = true;
  conditions = codes "log";
  condition_owner = some 3;
  condition_due_date = none;
  second_approval_assignee = some 2;
}

abbrev decisions : List (Clock × DecisionRequest)
decisions = (clock, submit alice approval_with_conditions) ∷ (clock, confirm bob 10) ∷ []

-- The requests lead to the approval, so a package can be created.
decided :
    (run_decisions everyone (file_in review ready) decisions).use_case.decision_status
    ≡ approved_with_conditions
unfolding run_decisions submit_approval_decision confirm_conditional_decision
    can_review_conditional_decision is_coordinator approval_check latest_assessment missing_fields
    current_governance_status failed_required_governance_reviews eligible_second_approvers save
decided = refl

run_decisions-create_delivery_package_example :
    is_ok (
      create_delivery_package clock (run_decisions everyone (file_in review ready) decisions) alice)
    ≡ is_approved (run_decisions everyone (file_in review ready) decisions).use_case.decision_status
run_decisions-create_delivery_package_example =
    run_decisions-create_delivery_package everyone decisions (file_in review ready) clock alice
      (record { assessed = refl; final = λ e. absurd cc })

abbrev created_case : CaseFile
created_case = record approved_case {
  delivery_packages =
      new_package clock approved_case alice approval ∷ approved_case.delivery_packages;
  next_pk = 11;
}

-- The new package is marked as ready, but not handed over.
abbrev later_case : CaseFile
later_case = record created_case {
  delivery_packages =
      run_packages everyone the_case ((clock, 10, mark_ready) ∷ []) created_case.delivery_packages;
}

waiting : has_handed_over 2 later_case.delivery_packages ≡ false
unfolding run_packages mark_package_ready enforcement_findings new_package
waiting = refl

create_delivery_package-blocks_pilot_example :
    (recorded_handover_package later_case.delivery_packages ≡ none)
    × (is_ok (validate_pilot_start clock later_case (some 95)) ≡ false)
create_delivery_package-blocks_pilot_example =
    create_delivery_package-blocks_pilot clock clock approved_case alice created_case later_case
      everyone the_case ((clock, 10, mark_ready) ∷ []) (some 95) creates refl waiting

review_delivery_section-any_status_example :
    rows_of (
      review_delivery_section clock bob the_case
        (record fresh { status = handed_over })
        solution_direction
        block
        (codes "late")
        [])
    ≡ rows_of (
        review_delivery_section clock bob the_case fresh solution_direction block (codes "late") [])
review_delivery_section-any_status_example =
    review_delivery_section-any_status clock bob the_case fresh handed_over solution_direction block
      (codes "late") []
