-- ===== src/UseCases/Approval/Gate.antt =====
-- What a decision needs.
use ki_use_case_radar.Common.{
  ℕ, ◌≡◌, ◌≢◌, refl, sym, ap, ◌∙◌, ◌↔◌, Bool, true, not, ◌&&◌, Option, none, some, [], truthy,
  arith, is_none, is_empty, emptiness, eq_nil_of_is_empty,
}
use ki_use_case_radar.UseCases.Model.{
  DecisionStatus, clarification, ready, deferred, approved, approved_with_conditions, not_pursued,
}
use ki_use_case_radar.UseCases.DecisionModel.{DecisionAssessment, latest_assessment}
use ki_use_case_radar.UseCases.Fields.{is_missing, missing_fields, approval_core_requirements}
use ki_use_case_radar.UseCases.Approval.{
  approval_check, assessed_by_actor, is_actor, positive_blockers,
}
use ki_use_case_radar.Governance.Status.{has_screening, failed_required_governance_reviews}
use ki_use_case_radar.CaseFile.{CaseFile, governance_of}

-- What a positive decision by `actor` needs: an assessment by another person, the four texts of the
-- intake, another person as business owner, and a screening with no failed required review.
pub record ApprovalGate (file : CaseFile) (actor : ℕ) : Type 0 where
  pub assessed :
      (a : DecisionAssessment) × (latest_assessment file.decision_assessments ≡ some a)
      × (a.assessed_by ≢ some actor)
  pub titled : truthy file.use_case.title ≡ true
  pub problem : truthy file.use_case.problem_statement ≡ true
  pub process : truthy file.use_case.affected_process ≡ true
  pub benefit : truthy file.use_case.expected_benefit ≡ true
  pub not_owner : file.use_case.business_owner ≢ actor
  pub screened : has_screening (governance_of file) ≡ true
  pub none_failed : failed_required_governance_reviews (governance_of file) ≡ []

abbrev all_clear : CaseFile → ℕ → Option DecisionAssessment → Bool
all_clear f actor a =
    not (is_none a)
    && is_empty (missing_fields f.use_case approval_core_requirements)
    && not (assessed_by_actor (some actor) a)
    && not (is_actor (some actor) f.use_case.business_owner)
    && not (not (has_screening (governance_of f)))
    && is_empty (failed_required_governance_reviews (governance_of f))

blockers-all_clear :
    (f : CaseFile) (actor : ℕ) (a : Option DecisionAssessment)
    → is_empty (positive_blockers f (some actor) a) ≡ all_clear f actor a
blockers-all_clear f actor a = simp emptiness

clear→gate :
    (f : CaseFile) (actor : ℕ) (a : Option DecisionAssessment)
    → latest_assessment f.decision_assessments ≡ a
    → all_clear f actor a ≡ true
    → ApprovalGate f actor
unfolding is_missing missing_fields
clear→gate f actor none e h = absurd (ground arith)
clear→gate f actor (some a) e h = record {
  assessed = (a, e, ground arith);
  titled = ground arith;
  problem = ground arith;
  process = ground arith;
  benefit = ground arith;
  not_owner = ground arith;
  screened = ground arith;
  none_failed = ground arith;
}

gate→clear :
    (f : CaseFile) (actor : ℕ)
    → ApprovalGate f actor
    → all_clear f actor (latest_assessment f.decision_assessments) ≡ true
unfolding is_missing missing_fields
gate→clear f actor g = let (a, e, other) = g.assessed in rw e (ground (arith, other))

positive→gate :
    (f : CaseFile) (actor : ℕ)
    → positive_blockers f (some actor) (latest_assessment f.decision_assessments) ≡ []
    → ApprovalGate f actor
positive→gate f actor h =
    let last = latest_assessment f.decision_assessments in
    clear→gate f actor last refl (sym (blockers-all_clear f actor last) ∙ ap is_empty h)

gate→positive :
    (f : CaseFile) (actor : ℕ)
    → ApprovalGate f actor
    → positive_blockers f (some actor) (latest_assessment f.decision_assessments) ≡ []
gate→positive f actor g =
    let last = latest_assessment f.decision_assessments in
    eq_nil_of_is_empty _ (blockers-all_clear f actor last ∙ gate→clear f actor g)

-- What a decision of each status needs. No decision is made to an open status.
abbrev pub DecisionGate : CaseFile → ℕ → DecisionStatus → Type 0
DecisionGate f actor approved = ApprovalGate f actor
DecisionGate f actor approved_with_conditions = ApprovalGate f actor
DecisionGate f actor deferred = Unit
DecisionGate f actor not_pursued = Unit
DecisionGate f actor clarification = ⊥
DecisionGate f actor ready = ⊥

-- `approval_check` finds no blocker for a decision exactly if the gate of its status holds. The gate of
-- a positive decision asks for an assessment by another person, the four texts of the intake, another
-- person as business owner and a screening with no failed required review, but not for the baseline,
-- the target, the levels of the assessment or open reviews; that of a negative one asks for nothing.
pub approval_check_iff :
    (f : CaseFile) (actor : ℕ) (target : DecisionStatus)
    → ((approval_check f (some actor) target).blockers ≡ []) ↔ DecisionGate f actor target
unfolding approval_check
approval_check_iff f actor approved = (positive→gate f actor, gate→positive f actor)
approval_check_iff f actor approved_with_conditions = (positive→gate f actor, gate→positive f actor)
approval_check_iff f actor deferred = (λ h. tt, λ g. refl)
approval_check_iff f actor not_pursued = (λ h. tt, λ g. refl)
approval_check_iff f actor clarification = (λ h. cc, λ g. absurd g)
approval_check_iff f actor ready = (λ h. cc, λ g. absurd g)
