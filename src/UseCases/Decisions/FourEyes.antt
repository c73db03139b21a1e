-- ===== src/UseCases/Decisions/FourEyes.antt =====
-- Who may give the second approval.
use ki_use_case_radar.Common.{
  ℕ, ◌≡◌, ◌≢◌, refl, true, false, not, ◌&&◌, ◌==◌, ==_iff, Option, some, List, arith, any-filter,
  inl, inr, holds, Option-cases, is_some, [], ok,
}
use ki_use_case_radar.Clock.{Clock}
use ki_use_case_radar.Accounts.{User, is_coordinator}
use ki_use_case_radar.UseCases.Model.{save}
use ki_use_case_radar.UseCases.DecisionModel.{
  DecisionAssessment, ApprovalDecision, latest_assessment, is_pending_second_approval,
}
use ki_use_case_radar.UseCases.Approval.{approval_check}
use ki_use_case_radar.UseCases.Approval.Gate.{DecisionGate, approval_check_iff}
use ki_use_case_radar.UseCases.Decisions.{
  can_review_conditional_decision, eligible_second_approvers, may_approve, is_excluded, is_outdated,
  assessor_of, confirm_conditional_decision,
}
use ki_use_case_radar.UseCases.Decisions.Checked.{confirm_conditional_decision-eq-ok}
use ki_use_case_radar.CaseFile.{CaseFile}

-- A person apart from the first decider, the current assessor and the business owner.
pub record IsIndependent (f : CaseFile) (d : ApprovalDecision) (a : User) : Type 0 where
  pub not_decider : d.decided_by ≢ some a.id
  pub not_assessor : assessor_of (latest_assessment f.decision_assessments) ≢ some a.id
  pub not_owner : f.use_case.business_owner ≢ a.id

not_holds : (o : Option ℕ) (n : ℕ) → holds o n ≡ false → o ≢ some n
not_holds o n h e = absurd (ground arith)

not_excluded :
    (f : CaseFile) (d : ApprovalDecision) (a : User)
    → is_excluded f d.decided_by a.id ≡ false
    → IsIndependent f d a
not_excluded f d a h = record {
  not_decider = not_holds d.decided_by a.id (ground arith);
  not_assessor =
      not_holds (assessor_of (latest_assessment f.decision_assessments)) a.id (ground arith);
  not_owner = λ e. absurd (ground arith);
}

can_review-eq-true :
    (users : List User) (f : CaseFile) (d : ApprovalDecision) (a : User)
    → can_review_conditional_decision users f d a ≡ true
    → (is_pending_second_approval d ≡ true)
      × (is_coordinator a ≡ true)
      × (is_excluded f d.decided_by a.id ≡ false)
unfolding can_review_conditional_decision eligible_second_approvers
can_review-eq-true users f d a h =
    let (u, same, ok_user) =
      any-filter (λ (u : User). u.id == a.id)
        (λ (u : User). may_approve u && not (is_excluded f d.decided_by u.id)) users
        (ground arith) in
    let e = (==_iff u.id a.id).0 same in
    let free : is_excluded f d.decided_by u.id ≡ false = ground (arith, ok_user) in
    (ground arith, ground arith, rw e at free)

-- Whoever may review a decision with conditions is a coordinator apart from the first decider, the
-- assessor of the current assessment and the business owner, and the decision is pending.
pub can_review_conditional_decision-IsIndependent :
    (users : List User) (f : CaseFile) (d : ApprovalDecision) (a : User)
    → can_review_conditional_decision users f d a ≡ true
    → (is_pending_second_approval d ≡ true) × (is_coordinator a ≡ true) × IsIndependent f d a
can_review_conditional_decision-IsIndependent users f d a h =
    let (pending, role, free) = can_review-eq-true users f d a h in
    (pending, role, not_excluded f d a free)

decider :
    (f : CaseFile) (d : ApprovalDecision)
    → (approval_check f d.decided_by d.decision_status).blockers ≡ []
    → is_some d.decided_by ≡ true
    → (first : ℕ) × (d.decided_by ≡ some first) × DecisionGate f first d.decision_status
decider f d h known = elim (Option-cases d.decided_by) [
  | inl nobody ↦ absurd (ground arith)
  | inr (first, e) ↦ (first, e, (approval_check_iff f first d.decision_status).0 (rw e at h))
]

current_of :
    (f : CaseFile) (d : ApprovalDecision)
    → is_outdated d (latest_assessment f.decision_assessments) ≡ false
    → (s : DecisionAssessment) × (latest_assessment f.decision_assessments ≡ some s)
      × (d.assessment ≡ some s.pk)
current_of f d h = elim (Option-cases (latest_assessment f.decision_assessments)) [
  | inl missing ↦ absurd (ground arith)
  | inr (s, e) ↦ (s, e, ground arith)
]

-- A confirmation that returned: the decision was pending, on the current assessment and by a known
-- person for whom the gate of the decision still holds; the actor is a coordinator apart from that
-- person, the assessor and the business owner; and the use case has the decision's status.
pub confirm_conditional_decision-gate :
    (clock : Clock) (users : List User) (f : CaseFile) (d : ApprovalDecision) (a : User)
    (f' : CaseFile)
    → confirm_conditional_decision clock users f d a ≡ ok f'
    → (is_pending_second_approval d ≡ true)
      × (is_coordinator a ≡ true)
      × IsIndependent f d a
      × ((first : ℕ) × (d.decided_by ≡ some first) × DecisionGate f first d.decision_status)
      × ((s : DecisionAssessment) × (latest_assessment f.decision_assessments ≡ some s)
          × (d.assessment ≡ some s.pk))
      × (f'.use_case.decision_status ≡ d.decision_status)
unfolding save
confirm_conditional_decision-gate clock users f d a f' h =
    let c = confirm_conditional_decision-eq-ok clock users f d a f' h in
    let (pending, role, free) =
      can_review_conditional_decision-IsIndependent users f d a c.may_review in
    (
      pending,
      role,
      free,
      decider f d c.unblocked c.decided,
      current_of f d c.current,
      rw c.stored refl,
    )
