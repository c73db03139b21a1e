-- ===== src/Delivery/Packages/Approved.antt =====
-- ki_radar/delivery/services.py: the creation of a package after decisions.
use ki_use_case_radar.Common.{
  ℕ, ◌≡◌, refl, ◌∙◌, Bool, Bool-cases, inl, inr, true, not, ◌&&◌, ◌||◌, ◌==◌, Option, Option-cases,
  none, some, List, [], ◌∷◌, map, any, all, filter, first_by, is_some, arith, ok, is_ok, ◌>>=◌,
  any-map_mono, All, first_by-All,
}
use ki_use_case_radar.Clock.{Clock}
use ki_use_case_radar.Accounts.{User}
use ki_use_case_radar.UseCases.Model.{
  DecisionStatus, clarification, ready, deferred, approved, approved_with_conditions, not_pursued,
  save,
}
use ki_use_case_radar.UseCases.DecisionModel.{
  DecisionAssessment, ApprovalDecision, latest_assessment,
}
use ki_use_case_radar.UseCases.TransitionPolicy.{is_approved}
use ki_use_case_radar.UseCases.Approval.{approval_check}
use ki_use_case_radar.UseCases.Approval.Gate.{DecisionGate, approval_check_iff}
use ki_use_case_radar.UseCases.Decisions.{
  create_decision_assessment, submit_approval_decision, new_decision, DecisionData,
}
use ki_use_case_radar.UseCases.Decisions.Checked.{
  submit_approval_decision-eq-ok, confirm_conditional_decision-eq-ok,
  return_conditional_decision-eq-ok, create_decision_assessment-eq-ok,
}
use ki_use_case_radar.UseCases.Decisions.Requests.{
  DecisionRequest, assess, submit, confirm, hand_back, row_with, step, run_decisions,
  keep-preserves, on_row-preserves,
}
use ki_use_case_radar.UseCases.Decisions.Runs.{find-eq-some}
use ki_use_case_radar.Delivery.Packages.{
  create_delivery_package, delivery_eligibility, latest_final_approval, decision_before,
  read_assessment,
}
use ki_use_case_radar.CaseFile.{CaseFile}

-- A final approval, and a decision that has its assessment if it is positive.
abbrev pub is_final_approval : ApprovalDecision → Bool
is_final_approval d = is_approved d.decision_status && is_some d.finalized_at

abbrev pub is_assessed : ApprovalDecision → Bool
is_assessed d = not (is_approved d.decision_status) || is_some d.assessment

-- Every positive decision has its assessment, and an approved use case has a final approval.
pub record IsDocumented (f : CaseFile) : Type 0 where
  pub assessed : all is_assessed f.approval_decisions ≡ true
  pub final :
      is_approved f.use_case.decision_status ≡ true
      → any is_final_approval f.approval_decisions ≡ true

all-map :
    (p : ApprovalDecision → Bool) (g : ApprovalDecision → ApprovalDecision)
    (rows : List ApprovalDecision)
    → ((r : ApprovalDecision) → p r ≡ true → p (g r) ≡ true)
    → all p rows ≡ true
    → all p (map g rows) ≡ true
all-map p g [] keeps h = refl
all-map p g (r ∷ rows) keeps h =
    ground (arith, keeps r (ground (arith, h)), all-map p g rows keeps (ground (arith, h)))

positive-latest :
    (f : CaseFile) (actor : ℕ) (target : DecisionStatus)
    → DecisionGate f actor target
    → is_approved target ≡ true
    → is_some (latest_assessment f.decision_assessments) ≡ true
positive-latest f actor approved g h = let (a, e, _) = g.assessed in rw e refl
positive-latest f actor approved_with_conditions g h = let (a, e, _) = g.assessed in rw e refl
positive-latest f actor deferred g h = cc
positive-latest f actor not_pursued g h = cc
positive-latest f actor clarification g h = absurd g
positive-latest f actor ready g h = absurd g

is_some-key :
    (o : Option DecisionAssessment)
    → is_some o ≡ true
    → is_some (elim o as (λ x. Option ℕ) [ none ↦ none | some a ↦ some a.pk ]) ≡ true
is_some-key none h = cc
is_some-key (some a) h = refl

-- The row of a submission without blockers is assessed.
new_decision-is_assessed :
    (clock : Clock) (f : CaseFile) (a : User) (d : DecisionData) (requested final' : Option ℕ)
    → (approval_check f (some a.id) d.decision_status).blockers ≡ []
    → is_assessed (new_decision clock f a d requested final') ≡ true
new_decision-is_assessed clock f a d requested final' h =
    elim (Bool-cases (is_approved d.decision_status)) [
      | inl positive ↦
          let known =
            positive-latest f a.id d.decision_status
              ((approval_check_iff f a.id d.decision_status).0 h) positive in
          ground (arith, is_some-key (latest_assessment f.decision_assessments) known)
      | inr other ↦ rw other refl
    ]

IsDocumented-step :
    (users : List User) (clock : Clock) (f : CaseFile) (q : DecisionRequest)
    → IsDocumented f
    → IsDocumented (step users clock f q)
unfolding save
IsDocumented-step users clock f (assess a d) b =
    keep-preserves IsDocumented f (create_decision_assessment f a d) b (λ f' h.
      let (_, _, _, stored) = create_decision_assessment-eq-ok f a d f' h in
      rw stored (record { assessed = b.assessed; final = λ e. absurd cc }))
IsDocumented-step users clock f (submit a d) b =
    keep-preserves IsDocumented f (submit_approval_decision clock users f a d) b (λ f' h.
      let (_, clear, result) = submit_approval_decision-eq-ok clock users f a d f' h in
      elim result [
        | inl p ↦ rw p.stored (record {
          assessed =
              ground (
                arith,
                new_decision-is_assessed clock f a d (some clock.now) none clear,
                b.assessed,
              );
          final = λ e. ground (arith, b.final e);
        })
        | inr p ↦ rw p.stored (record {
          assessed =
              ground (
                arith,
                new_decision-is_assessed clock f a d none (some clock.now) clear,
                b.assessed,
              );
          final = λ e. ground (arith, e);
        })
      ])
IsDocumented-step users clock f (confirm a pk) b =
    on_row-preserves IsDocumented f (row_with pk f.approval_decisions) _ b (λ d f' found h.
      let c = confirm_conditional_decision-eq-ok clock users f d a f' h in
      rw c.stored (record {
        assessed = all-map is_assessed _ f.approval_decisions (λ r e. ground (arith, e)) b.assessed;
        final = λ e.
            any-map_mono is_final_approval (λ r. r.pk == d.pk && is_approved r.decision_status) _
              f.approval_decisions (λ r k. ground (arith, k))
              (find-eq-some pk f.approval_decisions d (λ r. is_approved r.decision_status) found e);
      }))
IsDocumented-step users clock f (hand_back a pk reason) b =
    on_row-preserves IsDocumented f (row_with pk f.approval_decisions) _ b (λ d f' found h.
      let (_, stored) = return_conditional_decision-eq-ok clock users f d a reason f' h in
      rw stored (record {
        assessed = all-map is_assessed _ f.approval_decisions (λ r e. ground (arith, e)) b.assessed;
        final = λ e.
            any-map_mono is_final_approval is_final_approval _ f.approval_decisions
              (λ r k. ground (arith, k)) (b.final e);
      }))

run_decisions-IsDocumented :
    (users : List User) (requests : List (Clock × DecisionRequest)) (f : CaseFile)
    → IsDocumented f
    → IsDocumented (run_decisions users f requests)
unfolding run_decisions
run_decisions-IsDocumented users [] f b = b
run_decisions-IsDocumented users ((clock, q) ∷ rest) f b =
    run_decisions-IsDocumented users rest (step users clock f q)
      (IsDocumented-step users clock f q b)

approvals-is_assessed :
    (rows : List ApprovalDecision)
    → all is_assessed rows ≡ true
    → All (λ d. is_some d.assessment ≡ true) (filter is_final_approval rows)
approvals-is_assessed [] h = tt
approvals-is_assessed (d ∷ rows) h = elim (Bool-cases (is_final_approval d)) [
  | inl hit ↦ rw hit (ground (arith, hit, h), approvals-is_assessed rows (ground (arith, h)))
  | inr missed ↦ rw missed (approvals-is_assessed rows (ground (arith, h)))
]

latest-some :
    (rows : List ApprovalDecision)
    → any is_final_approval rows ≡ true
    → is_some (first_by decision_before (filter is_final_approval rows)) ≡ true
latest-some [] h = cc
latest-some (d ∷ rows) h = elim (Bool-cases (is_final_approval d)) [
  | inl hit ↦ rw hit refl
  | inr missed ↦ rw missed (latest-some rows (ground (arith, h, missed)))
]

-- The final approval of a documented and approved case is there, with its assessment.
latest_final_approval-some :
    (f : CaseFile)
    → IsDocumented f
    → is_approved f.use_case.decision_status ≡ true
    → (d : ApprovalDecision) × (latest_final_approval f.approval_decisions ≡ some d)
      × (is_some d.assessment ≡ true)
unfolding latest_final_approval
latest_final_approval-some f b h =
    let rows = filter is_final_approval f.approval_decisions in
    let known = latest-some f.approval_decisions (b.final h) in
    elim (Option-cases (first_by decision_before rows)) [
      | inl missing ↦ absurd (ground (arith, known, missing))
      | inr (d, e) ↦ (
        d,
        e,
        first_by-All (λ d. is_some d.assessment ≡ true) decision_before rows d
            (approvals-is_assessed f.approval_decisions b.assessed) e,
      )
    ]

is_ok-read_assessment :
    (d : ApprovalDecision) (o : Option ℕ) (next : ApprovalDecision → CaseFile)
    → is_ok (read_assessment d o >>= λ e. ok (next e)) ≡ is_some o
is_ok-read_assessment d none next = refl
is_ok-read_assessment d (some pk) next = refl

is_ok-create_delivery_package :
    (clock : Clock) (f : CaseFile) (a : User)
    → IsDocumented f
    → is_ok (create_delivery_package clock f a) ≡ is_approved f.use_case.decision_status
unfolding create_delivery_package delivery_eligibility
is_ok-create_delivery_package clock f a b =
    elim (Bool-cases (is_approved f.use_case.decision_status)) [
      | inl positive ↦
          let (d, found, known) = latest_final_approval-some f b positive in
          rw (positive, found) (is_ok-read_assessment d d.assessment _ ∙ known)
      | inr other ↦ rw other refl
    ]

-- After any decision requests on a case in which every positive decision has its assessment and an
-- approved use case has a final approval, a package can be created exactly if the use case is
-- approved: the decisions keep what the creation reads.
pub run_decisions-create_delivery_package :
    (users : List User) (requests : List (Clock × DecisionRequest)) (f : CaseFile) (clock : Clock)
    (a : User)
    → IsDocumented f
    → is_ok (create_delivery_package clock (run_decisions users f requests) a)
      ≡ is_approved (run_decisions users f requests).use_case.decision_status
run_decisions-create_delivery_package users requests f clock a b =
    is_ok-create_delivery_package clock (run_decisions users f requests) a
      (run_decisions-IsDocumented users requests f b)
