-- ===== src/UseCases/Decisions.antt =====
-- ki_radar/use_cases/services.py: assessments, decisions and their second approval.
pub mod Checked
pub mod FourEyes
pub mod Requests
pub mod Runs
pub mod Versions
use ki_use_case_radar.Common.{
  ℕ, suc, ◌+◌, Bool, true, false, ◌&&◌, ◌||◌, not, Option, none, some, List, [], ◌∷◌, map, Text,
  truthy, strip, if◌then◌else◌, is_none, is_some, any, filter, is_empty, leb, ◌==◌, holds, Result,
  ok, err, ◌>>=◌, ◌>>◌, raise_if, require,
}
use ki_use_case_radar.Clock.{Clock}
use ki_use_case_radar.Accounts.{User, coordinator, tech_admin, group_eq, is_coordinator}
use ki_use_case_radar.UseCases.Model.{
  review, status_eq, DecisionStatus, ready, not_pursued, approved_with_conditions,
  decision_status_eq, UseCase, save,
}
use ki_use_case_radar.UseCases.DecisionModel.{
  DecisionAssessment, latest_assessment, ApprovalDecision, is_pending_second_approval,
}
use ki_use_case_radar.UseCases.Approval.{ApprovalBlocker, approval_check}
use ki_use_case_radar.CaseFile.{CaseFile}

pub data DecisionError : Type 0 where
  permission_denied not_in_review terminal_decision : DecisionError
  approval_blocked : List ApprovalBlocker → DecisionError
  conditions_incomplete second_approval_open assignee_not_independent : DecisionError
  not_independent assessment_outdated invalid_row : DecisionError

-- `Max("version")`, with 0 for no row
abbrev pub max_version : List DecisionAssessment → ℕ
max_version [] = 0
max_version (a ∷ rest) = if leb a.version (max_version rest) then max_version rest else a.version

-- `DecisionAssessment(use_case=…, assessed_by=actor, version=version, **data)`: the key, the version
-- and the assessor of `data` are not read.
abbrev pub new_assessment : CaseFile → User → DecisionAssessment → DecisionAssessment
new_assessment file actor d = record d {
  pk = file.next_pk;
  version = max_version file.decision_assessments + 1;
  assessed_by = some actor.id;
}

abbrev pub store_assessment : CaseFile → DecisionAssessment → CaseFile
store_assessment file a = record file {
  decision_assessments = a ∷ file.decision_assessments;
  next_pk = suc file.next_pk;
  use_case = save (record file.use_case {
    business_value = a.business_value;
    technical_feasibility = a.technical_feasibility;
    data_readiness = a.data_readiness;
    risk_complexity = a.risk_complexity;
    decision_status = ready;
  });
}

unfoldable pub create_decision_assessment :
    CaseFile → User → DecisionAssessment → Result DecisionError CaseFile
create_decision_assessment file actor d =
    require (is_coordinator actor) permission_denied
    >> require (status_eq file.use_case.status review) not_in_review
    >> raise_if (decision_status_eq file.use_case.decision_status not_pursued) terminal_decision
    >> ok (store_assessment file (new_assessment file actor d))

-- `.filter(is_active=True, is_anonymized=False)` and the filter on the groups
abbrev pub may_approve : User → Bool
may_approve u =
    u.is_active
    && not u.is_anonymized
    && (u.is_superuser || any (λ g. group_eq coordinator g || group_eq tech_admin g) u.groups)

abbrev pub assessor_of : Option DecisionAssessment → Option ℕ
assessor_of none = none
assessor_of (some a) = a.assessed_by

-- `excluded_ids`, as the test whether an id is in it
abbrev pub is_excluded : CaseFile → Option ℕ → ℕ → Bool
is_excluded file first_decider id =
    holds first_decider id
    || holds (assessor_of (latest_assessment file.decision_assessments)) id
    || file.use_case.business_owner == id

-- The rows of the query; their order is not modelled.
unfoldable pub eligible_second_approvers : List User → CaseFile → Option ℕ → List User
eligible_second_approvers users file first_decider =
    filter (λ (u : User). may_approve u && not (is_excluded file first_decider u.id)) users

-- `.filter(pk=pk).exists()`
abbrev pub has_pk : ℕ → List User → Bool
has_pk pk = any (λ (u : User). u.id == pk)

unfoldable pub can_review_conditional_decision :
    List User → CaseFile → ApprovalDecision → User → Bool
can_review_conditional_decision users file decision actor =
    if not (is_pending_second_approval decision) || not (is_coordinator actor)
    then false
    else has_pk actor.id (eligible_second_approvers users file decision.decided_by)

-- `data` of `submit_approval_decision`
pub record DecisionData : Type 0 where
  pub decision_status : DecisionStatus
  pub rationale : Text
  pub governance_confirmed : Bool
  pub conditions : Text
  pub condition_owner : Option ℕ
  pub condition_due_date : Option ℕ
  pub second_approval_assignee : Option ℕ

module _ (clock : Clock) (file : CaseFile) where
  -- `ApprovalDecision(use_case=…, assessment=…, decided_by=actor, **data, …)`
  abbrev pub new_decision : User → DecisionData → Option ℕ → Option ℕ → ApprovalDecision
  new_decision actor d requested_at final_at = record {
    pk = file.next_pk;
    created_at = clock.now;
    assessment = elim (latest_assessment file.decision_assessments) [
      | none ↦ none
      | some a ↦ some a.pk
    ];
    decision_status = d.decision_status;
    rationale = d.rationale;
    decided_by = some actor.id;
    governance_confirmed = d.governance_confirmed;
    conditions = d.conditions;
    condition_owner = d.condition_owner;
    condition_due_date = d.condition_due_date;
    second_approval_assignee = d.second_approval_assignee;
    second_approval_requested_at = requested_at;
    second_approval_returned_by = none;
    second_approval_returned_at = none;
    second_approval_return_reason = [];
    second_approved_by = none;
    finalized_at = final_at;
  }

-- `full_clean`: the two fields without `blank=True` that may be empty here
abbrev pub full_clean : ApprovalDecision → Result DecisionError (Unit {0})
full_clean d = require (truthy d.rationale && is_some d.decided_by) invalid_row

abbrev pub add_decision : CaseFile → ApprovalDecision → CaseFile
add_decision file d = record file {
  approval_decisions = d ∷ file.approval_decisions;
  next_pk = suc file.next_pk;
}

-- `use_case.decision_status = status` and `use_case.save()`
abbrev pub set_decision_status : DecisionStatus → CaseFile → CaseFile
set_decision_status status file = record file {
  use_case = save (record file.use_case { decision_status = status });
}

-- `assignee is not None and eligible.filter(pk=assignee.pk).exists()`
abbrev pub is_eligible_assignee : Option ℕ → List User → Bool
is_eligible_assignee none eligible = false
is_eligible_assignee (some pk) eligible = has_pk pk eligible

unfoldable pub submit_approval_decision :
    Clock → List User → CaseFile → User → DecisionData → Result DecisionError CaseFile
submit_approval_decision clock users file actor d =
    let check = approval_check file (some actor.id) d.decision_status in
    let pending = new_decision clock file actor d (some clock.now) none in
    let final = new_decision clock file actor d none (some clock.now) in
    require (is_coordinator actor) permission_denied
    >> raise_if (not (is_empty check.blockers)) (approval_blocked check.blockers)
    >> (if decision_status_eq d.decision_status approved_with_conditions
        then require (truthy d.conditions && is_some d.condition_owner) conditions_incomplete
          >> raise_if (any is_pending_second_approval file.approval_decisions) second_approval_open
          >> require
              (is_eligible_assignee d.second_approval_assignee
                (eligible_second_approvers users file (some actor.id)))
              assignee_not_independent
          >> full_clean pending
          >> ok (add_decision file pending)
        else full_clean final
          >> ok (set_decision_status d.decision_status (add_decision file final)))

-- `decision.save(update_fields=[…])`: the stored row with the key is changed.
abbrev pub update_decision :
    ℕ → (ApprovalDecision → ApprovalDecision) → List ApprovalDecision → List ApprovalDecision
update_decision pk f = map (λ (d : ApprovalDecision). if d.pk == pk then f d else d)

-- `decision.assessment_id is None or current_assessment is None or …!=…`
abbrev pub is_outdated : ApprovalDecision → Option DecisionAssessment → Bool
is_outdated decision none = true
is_outdated decision (some a) = not (holds decision.assessment a.pk)

abbrev pub finalize : Clock → User → ApprovalDecision → ApprovalDecision
finalize clock actor d = record d {
  second_approved_by = some actor.id;
  finalized_at = some clock.now;
}

unfoldable pub confirm_conditional_decision :
    Clock → List User → CaseFile → ApprovalDecision → User → Result DecisionError CaseFile
confirm_conditional_decision clock users file decision actor =
    let check = approval_check file decision.decided_by decision.decision_status in
    require (can_review_conditional_decision users file decision actor) not_independent
    >> raise_if (is_outdated decision (latest_assessment file.decision_assessments))
        assessment_outdated
    >> raise_if (not (is_empty check.blockers)) (approval_blocked check.blockers)
    >> full_clean (finalize clock actor decision)
    >> ok (
        set_decision_status decision.decision_status (record file {
          approval_decisions =
              update_decision decision.pk (finalize clock actor) file.approval_decisions;
        }))

abbrev pub give_back : Clock → User → Text → ApprovalDecision → ApprovalDecision
give_back clock actor reason d = record d {
  second_approval_returned_by = some actor.id;
  second_approval_returned_at = some clock.now;
  second_approval_return_reason = strip reason;
}

unfoldable pub return_conditional_decision :
    Clock → List User → CaseFile → ApprovalDecision → User → Text → Result DecisionError CaseFile
return_conditional_decision clock users file decision actor reason =
    require (can_review_conditional_decision users file decision actor) not_independent
    >> ok (record file {
      approval_decisions =
          update_decision decision.pk (give_back clock actor reason) file.approval_decisions;
    })
