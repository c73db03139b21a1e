-- ===== src/Samples/Decisions.antt =====
-- Decisions and second approvals at concrete cases.
use ki_use_case_radar.Governance.Status.{
  current_governance_status, failed_required_governance_reviews,
}
use ki_use_case_radar.UseCases.Fields.{missing_fields}
use ki_use_case_radar.Common.{
  ℕ, ◌≡◌, refl, ◌≤◌, ◌↔◌, true, false, none, some, List, [], ◌∷◌, codes, ok, is_ok, arith,
}
use ki_use_case_radar.Clock.{Clock}
use ki_use_case_radar.Accounts.{is_coordinator}
use ki_use_case_radar.UseCases.Model.{save, review, ready, approved, approved_with_conditions}
use ki_use_case_radar.UseCases.DecisionModel.{
  DecisionAssessment, ApprovalDecision, latest_assessment, is_pending_second_approval,
}
use ki_use_case_radar.UseCases.Approval.{approval_check}
use ki_use_case_radar.UseCases.Approval.Gate.{DecisionGate, approval_check_iff}
use ki_use_case_radar.UseCases.Decisions.{
  eligible_second_approvers, DecisionData, create_decision_assessment, store_assessment,
  new_assessment, submit_approval_decision, confirm_conditional_decision,
  can_review_conditional_decision, add_decision, new_decision,
}
use ki_use_case_radar.UseCases.Decisions.FourEyes.{
  IsIndependent, can_review_conditional_decision-IsIndependent, confirm_conditional_decision-gate,
}
use ki_use_case_radar.UseCases.Decisions.Versions.{create_decision_assessment-outdated}
use ki_use_case_radar.UseCases.Decisions.Requests.{
  DecisionRequest, submit, confirm, run_decisions, keep,
}
use ki_use_case_radar.UseCases.Decisions.Runs.{
  IsBacked, run_decisions-IsBacked, pending_count, run_decisions-single_pending,
}
use ki_use_case_radar.CaseFile.{CaseFile}
use ki_use_case_radar.Samples.{clock, alice, bob, carol, everyone, assessment, file_in}

abbrev open_case : CaseFile
open_case = file_in review ready

-- Alice proposes an approval with conditions and names Bob.
abbrev proposal : DecisionData
proposal = record {
  decision_status = approved_with_conditions;
  rationale = codes "fine";
  governance_confirmed = true;
  conditions = codes "log";
  condition_owner = some 3;
  condition_due_date = none;
  second_approval_assignee = some 2;
}

abbrev proposed_row : ApprovalDecision
proposed_row = new_decision clock open_case alice proposal (some 100) none

abbrev proposed : CaseFile
proposed = add_decision open_case proposed_row

abbrev confirmed_case : CaseFile
confirmed_case =
    keep proposed (confirm_conditional_decision clock everyone proposed proposed_row bob)

submits : submit_approval_decision clock everyone open_case alice proposal ≡ ok proposed
unfolding submit_approval_decision is_coordinator approval_check latest_assessment missing_fields
    current_governance_status failed_required_governance_reviews eligible_second_approvers
submits = refl

bob_may : can_review_conditional_decision everyone proposed proposed_row bob ≡ true
unfolding can_review_conditional_decision is_coordinator eligible_second_approvers latest_assessment
bob_may = refl

confirms : confirm_conditional_decision clock everyone proposed proposed_row bob ≡ ok confirmed_case
unfolding confirm_conditional_decision can_review_conditional_decision is_coordinator
    eligible_second_approvers latest_assessment approval_check missing_fields
    current_governance_status failed_required_governance_reviews
confirms = refl

reassesses :
    create_decision_assessment proposed carol assessment
    ≡ ok (store_assessment proposed (new_assessment proposed carol assessment))
unfolding create_decision_assessment is_coordinator
reassesses = refl

can_review_conditional_decision-IsIndependent_example :
    (is_pending_second_approval proposed_row ≡ true)
    × (is_coordinator bob ≡ true)
    × IsIndependent proposed proposed_row bob
can_review_conditional_decision-IsIndependent_example =
    can_review_conditional_decision-IsIndependent everyone proposed proposed_row bob bob_may

confirm_conditional_decision-gate_example :
    (is_pending_second_approval proposed_row ≡ true)
    × (is_coordinator bob ≡ true)
    × IsIndependent proposed proposed_row bob
    × ((first : ℕ) × (proposed_row.decided_by ≡ some first)
        × DecisionGate proposed first approved_with_conditions)
    × ((s : DecisionAssessment) × (latest_assessment proposed.decision_assessments ≡ some s)
        × (proposed_row.assessment ≡ some s.pk))
    × (confirmed_case.use_case.decision_status ≡ approved_with_conditions)
confirm_conditional_decision-gate_example =
    confirm_conditional_decision-gate clock everyone proposed proposed_row bob confirmed_case
      confirms

approval_check_iff_example :
    ((approval_check open_case (some 1) approved).blockers ≡ []) ↔ DecisionGate open_case 1 approved
approval_check_iff_example = approval_check_iff open_case 1 approved

create_decision_assessment-outdated_example :
    is_ok (
      confirm_conditional_decision clock everyone
        (store_assessment proposed (new_assessment proposed carol assessment))
        proposed_row
        bob)
    ≡ false
unfolding latest_assessment
create_decision_assessment-outdated_example =
    create_decision_assessment-outdated clock everyone proposed carol assessment
      (store_assessment proposed (new_assessment proposed carol assessment)) proposed_row bob 3
      reassesses refl (omega arith)

abbrev requests : List (Clock × DecisionRequest)
requests = (clock, submit alice proposal) ∷ (clock, confirm bob 10) ∷ []

run_decisions-IsBacked_example : IsBacked (run_decisions everyone open_case requests)
run_decisions-IsBacked_example = run_decisions-IsBacked everyone requests open_case (λ e. cc)

-- The two requests approve the case with conditions.
two_approve :
    (run_decisions everyone open_case requests).use_case.decision_status ≡ approved_with_conditions
unfolding run_decisions submit_approval_decision confirm_conditional_decision is_coordinator
    approval_check latest_assessment missing_fields current_governance_status
    failed_required_governance_reviews eligible_second_approvers can_review_conditional_decision
    save
two_approve = refl

run_decisions-single_pending_example : pending_count (run_decisions everyone open_case requests) ≤ 1
run_decisions-single_pending_example =
    run_decisions-single_pending everyone requests open_case (omega arith)
