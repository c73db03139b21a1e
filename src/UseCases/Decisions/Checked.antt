-- ===== src/UseCases/Decisions/Checked.antt =====
-- What a decision operation that returned has passed and stored.
use ki_use_case_radar.Common.{
  ◌≡◌, ◌⊎◌, inl, inr, true, false, none, some, List, [], Text, arith, is_some, any, ok,
  eq_nil_of_is_empty, Bool-cases,
}
use ki_use_case_radar.Clock.{Clock}
use ki_use_case_radar.Accounts.{User, is_coordinator}
use ki_use_case_radar.UseCases.Model.{
  approved_with_conditions, decision_status_eq, review, status_eq, not_pursued,
}
use ki_use_case_radar.UseCases.DecisionModel.{
  ApprovalDecision, DecisionAssessment, is_pending_second_approval, latest_assessment,
}
use ki_use_case_radar.UseCases.Approval.{approval_check}
use ki_use_case_radar.UseCases.Decisions.{
  DecisionData, submit_approval_decision, eligible_second_approvers, is_eligible_assignee,
  new_decision, add_decision, set_decision_status, confirm_conditional_decision,
  can_review_conditional_decision, is_outdated, finalize, update_decision,
  return_conditional_decision, give_back, create_decision_assessment, store_assessment,
  new_assessment,
}
use ki_use_case_radar.CaseFile.{CaseFile}

module _ (clock : Clock) (users : List User) (f : CaseFile) where
  -- A proposal for a decision with conditions: stored open, with an eligible second approver, while
  -- no other was open.
  pub record Proposed (a : User) (d : DecisionData) (f' : CaseFile) : Type 0 where
    pub conditional : decision_status_eq d.decision_status approved_with_conditions ≡ true
    pub none_open : any is_pending_second_approval f.approval_decisions ≡ false
    pub assignee :
        is_eligible_assignee d.second_approval_assignee
          (eligible_second_approvers users f (some a.id))
        ≡ true
    pub stored : f' ≡ add_decision f (new_decision clock f a d (some clock.now) none)

  -- A decision that is final at once.
  pub record Decided (a : User) (d : DecisionData) (f' : CaseFile) : Type 0 where
    pub unconditional : decision_status_eq d.decision_status approved_with_conditions ≡ false
    pub stored :
        f'
        ≡ set_decision_status d.decision_status
            (add_decision f (new_decision clock f a d none (some clock.now)))

  -- A submission that returned came from a coordinator, had no blocker, and is a proposal or a final
  -- decision.
  pub submit_approval_decision-eq-ok :
      (a : User) (d : DecisionData) (f' : CaseFile)
      → submit_approval_decision clock users f a d ≡ ok f'
      → (is_coordinator a ≡ true)
        × ((approval_check f (some a.id) d.decision_status).blockers ≡ [])
        × (Proposed a d f' ⊎ Decided a d f')
  unfolding submit_approval_decision
  submit_approval_decision-eq-ok a d f' h = (
    ground arith,
    eq_nil_of_is_empty _ (ground arith),
    elim (Bool-cases (decision_status_eq d.decision_status approved_with_conditions)) [
      | inl c ↦ inl (record {
        conditional = c;
        none_open = ground arith;
        assignee = ground arith;
        stored = ground arith;
      })
      | inr u ↦ inr (record { unconditional = u; stored = ground arith })
    ],
  )

  -- A confirmation that returned.
  pub record Confirmed (d : ApprovalDecision) (a : User) (f' : CaseFile) : Type 0 where
    pub may_review : can_review_conditional_decision users f d a ≡ true
    pub current : is_outdated d (latest_assessment f.decision_assessments) ≡ false
    pub unblocked : (approval_check f d.decided_by d.decision_status).blockers ≡ []
    pub decided : is_some d.decided_by ≡ true
    pub stored :
        f'
        ≡ set_decision_status d.decision_status (record f {
          approval_decisions = update_decision d.pk (finalize clock a) f.approval_decisions;
        })

  pub confirm_conditional_decision-eq-ok :
      (d : ApprovalDecision) (a : User) (f' : CaseFile)
      → confirm_conditional_decision clock users f d a ≡ ok f'
      → Confirmed d a f'
  unfolding confirm_conditional_decision
  confirm_conditional_decision-eq-ok d a f' h = record {
    may_review = ground arith;
    current = ground arith;
    unblocked = eq_nil_of_is_empty _ (ground arith);
    decided = ground arith;
    stored = ground arith;
  }

  pub return_conditional_decision-eq-ok :
      (d : ApprovalDecision) (a : User) (reason : Text) (f' : CaseFile)
      → return_conditional_decision clock users f d a reason ≡ ok f'
      → (can_review_conditional_decision users f d a ≡ true)
        × (f' ≡ record f {
          approval_decisions = update_decision d.pk (give_back clock a reason) f.approval_decisions;
        })
  unfolding return_conditional_decision
  return_conditional_decision-eq-ok d a reason f' h = ground arith

pub create_decision_assessment-eq-ok :
    (f : CaseFile) (a : User) (d : DecisionAssessment) (f' : CaseFile)
    → create_decision_assessment f a d ≡ ok f'
    → (is_coordinator a ≡ true)
      × (status_eq f.use_case.status review ≡ true)
      × (decision_status_eq f.use_case.decision_status not_pursued ≡ false)
      × (f' ≡ store_assessment f (new_assessment f a d))
unfolding create_decision_assessment
create_decision_assessment-eq-ok f a d f' h = ground arith
