-- ===== src/UseCases/Decisions/Runs.antt =====
-- Sequences of decision operations, and what they keep.
use ki_use_case_radar.Common.{
  ℕ, ◌≤◌, ◌≡◌, ◌≢◌, refl, ap, Bool, true, false, not, ◌&&◌, ◌==◌, Option, none, some, List, [], ◌∷◌,
  arith, Bool-cases, inl, inr, is_some, any, filter, length, ok, holds, any-map_mono,
  length-filter-map, length-filter_none, ==_refl,
}
use ki_use_case_radar.Clock.{Clock}
use ki_use_case_radar.Accounts.{User}
use ki_use_case_radar.UseCases.Model.{approved_with_conditions, decision_status_eq, save}
use ki_use_case_radar.UseCases.DecisionModel.{ApprovalDecision, is_pending_second_approval}
use ki_use_case_radar.UseCases.Decisions.{
  create_decision_assessment, submit_approval_decision, confirm_conditional_decision, finalize,
  give_back, update_decision,
}
use ki_use_case_radar.UseCases.Decisions.Checked.{
  submit_approval_decision-eq-ok, confirm_conditional_decision-eq-ok,
  return_conditional_decision-eq-ok, create_decision_assessment-eq-ok,
}
use ki_use_case_radar.UseCases.Decisions.FourEyes.{can_review_conditional_decision-IsIndependent}
use ki_use_case_radar.CaseFile.{CaseFile}
use ki_use_case_radar.UseCases.Decisions.Requests.{
  DecisionRequest, assess, submit, confirm, hand_back, row_with, step, run_decisions,
  keep-preserves, on_row-preserves,
}

-- A final decision with conditions that two persons have made.
abbrev pub differs : Option ℕ → Option ℕ → Bool
differs a none = false
differs a (some b) = not (holds a b)

abbrev pub made_by_two : ApprovalDecision → Bool
made_by_two d =
    decision_status_eq d.decision_status approved_with_conditions
    && is_some d.finalized_at
    && differs d.decided_by d.second_approved_by

-- A use case approved with conditions has such a decision.
abbrev pub IsBacked : CaseFile → Type 0
IsBacked f =
    decision_status_eq f.use_case.decision_status approved_with_conditions ≡ true
    → any made_by_two f.approval_decisions ≡ true

-- At most one decision waits for its second approval.
abbrev pub pending_count : CaseFile → ℕ
pending_count f = length (filter is_pending_second_approval f.approval_decisions)

-- The row that is found is in the list, under its key.
pub find-eq-some :
    (pk : ℕ) (rows : List ApprovalDecision) (d : ApprovalDecision) (p : ApprovalDecision → Bool)
    → row_with pk rows ≡ some d
    → p d ≡ true
    → any (λ (r : ApprovalDecision). r.pk == d.pk && p r) rows ≡ true
find-eq-some pk [] d p h q = cc
find-eq-some pk (r ∷ rest) d p h q = elim (Bool-cases (r.pk == pk)) [
  | inl hit ↦
      let found : some r ≡ some d = rw hit at h in
      let e : r ≡ d = cc in rw e (rw (==_refl d.pk, q) refl)
  | inr missed ↦
      let later : row_with pk rest ≡ some d = rw missed at h in
      ground (arith, find-eq-some pk rest d p later q)
]

holds-eq-false : (o : Option ℕ) (n : ℕ) → o ≢ some n → holds o n ≡ false
holds-eq-false none n h = refl
holds-eq-false (some m) n h = elim (Bool-cases (m == n)) [
  | inl same ↦ absurd (h (ap some (ground (arith, same))))
  | inr other ↦ other
]

-- The row that a confirmation leaves was made by two.
confirmed_by_two :
    (clock : Clock) (users : List User) (f : CaseFile) (pk : ℕ) (d : ApprovalDecision) (a : User)
    (f' : CaseFile)
    → row_with pk f.approval_decisions ≡ some d
    → confirm_conditional_decision clock users f d a ≡ ok f'
    → any made_by_two f'.approval_decisions ≡ true
confirmed_by_two clock users f pk d a f' found h =
    let c = confirm_conditional_decision-eq-ok clock users f d a f' h in
    let (pending, _, free) =
      can_review_conditional_decision-IsIndependent users f d a c.may_review in
    let waits = λ (r : ApprovalDecision).
      decision_status_eq r.decision_status approved_with_conditions
      && not (holds r.decided_by a.id) in
    rw c.stored (
      any-map_mono made_by_two (λ r. r.pk == d.pk && waits r) _ f.approval_decisions
        (λ r e. ground (arith, e))
        (find-eq-some pk f.approval_decisions d waits found
          (ground (arith, pending, holds-eq-false d.decided_by a.id free.not_decider))))

IsBacked-step :
    (users : List User) (clock : Clock) (f : CaseFile) (q : DecisionRequest)
    → IsBacked f
    → IsBacked (step users clock f q)
unfolding save
IsBacked-step users clock f (assess a d) b =
    keep-preserves IsBacked f (create_decision_assessment f a d) b (λ f' h.
      let (_, _, _, stored) = create_decision_assessment-eq-ok f a d f' h in
      rw stored (λ e. absurd cc))
IsBacked-step users clock f (submit a d) b =
    keep-preserves IsBacked f (submit_approval_decision clock users f a d) b (λ f' h.
      let (_, _, result) = submit_approval_decision-eq-ok clock users f a d f' h in
      elim result [
        | inl p ↦ rw p.stored (λ e. ground (arith, b e))
        | inr p ↦ rw p.stored (λ e. absurd (ground (arith, p.unconditional, e)))
      ])
IsBacked-step users clock f (confirm a pk) b =
    on_row-preserves IsBacked f (row_with pk f.approval_decisions) _ b
      (λ d f' found h e. confirmed_by_two clock users f pk d a f' found h)
IsBacked-step users clock f (hand_back a pk reason) b =
    on_row-preserves IsBacked f (row_with pk f.approval_decisions) _ b (λ d f' found h e.
      let (_, stored) = return_conditional_decision-eq-ok clock users f d a reason f' h in
      let before : decision_status_eq f.use_case.decision_status approved_with_conditions ≡ true =
        rw stored at e in
      rw stored (
        any-map_mono made_by_two made_by_two _ f.approval_decisions (λ r k. ground (arith, k))
          (b before)))

-- Whatever decision requests are made, a use case that is approved with conditions in the end has a
-- final decision with conditions whose second approver is another person than its decider, if that
-- held at the start.
pub run_decisions-IsBacked :
    (users : List User) (requests : List (Clock × DecisionRequest)) (f : CaseFile)
    → IsBacked f
    → IsBacked (run_decisions users f requests)
unfolding run_decisions
run_decisions-IsBacked users [] f b = b
run_decisions-IsBacked users ((clock, q) ∷ rest) f b =
    run_decisions-IsBacked users rest (step users clock f q) (IsBacked-step users clock f q b)

pending-map :
    (pk : ℕ) (g : ApprovalDecision → ApprovalDecision) (f : CaseFile)
    → ((r : ApprovalDecision) → is_pending_second_approval (g r) ≡ false)
    → length (filter is_pending_second_approval (update_decision pk g f.approval_decisions))
      ≤ pending_count f
pending-map pk g f ends =
    length-filter-map is_pending_second_approval is_pending_second_approval _ f.approval_decisions
      (λ r h. ground (arith, ends r, h))

abbrev AtMostOne : CaseFile → Type 0
AtMostOne f = pending_count f ≤ 1

pending-step :
    (users : List User) (clock : Clock) (f : CaseFile) (q : DecisionRequest)
    → AtMostOne f
    → AtMostOne (step users clock f q)
unfolding save
pending-step users clock f (assess a d) b =
    keep-preserves AtMostOne f (create_decision_assessment f a d) b
      (λ f' h. let (_, _, _, stored) = create_decision_assessment-eq-ok f a d f' h in rw stored b)
pending-step users clock f (submit a d) b =
    keep-preserves AtMostOne f (submit_approval_decision clock users f a d) b (λ f' h.
      let (_, _, result) = submit_approval_decision-eq-ok clock users f a d f' h in
      elim result [
        | inl p ↦ rw p.stored (
            rw
              (
                p.conditional,
                length-filter_none is_pending_second_approval f.approval_decisions p.none_open,
              )
              (omega arith))
        | inr p ↦ rw p.stored (rw p.unconditional b)
      ])
pending-step users clock f (confirm a pk) b =
    on_row-preserves AtMostOne f (row_with pk f.approval_decisions) _ b (λ d f' found h.
      let c = confirm_conditional_decision-eq-ok clock users f d a f' h in
      rw c.stored (omega (arith, pending-map d.pk (finalize clock a) f (λ r. ground arith))))
pending-step users clock f (hand_back a pk reason) b =
    on_row-preserves AtMostOne f (row_with pk f.approval_decisions) _ b (λ d f' found h.
      let (_, stored) = return_conditional_decision-eq-ok clock users f d a reason f' h in
      rw stored (omega (arith, pending-map d.pk (give_back clock a reason) f (λ r. ground arith))))

-- Whatever decision requests are made, at most one decision waits for its second approval, if that
-- held at the start.
pub run_decisions-single_pending :
    (users : List User) (requests : List (Clock × DecisionRequest)) (f : CaseFile)
    → pending_count f ≤ 1
    → pending_count (run_decisions users f requests) ≤ 1
unfolding run_decisions
run_decisions-single_pending users [] f b = b
run_decisions-single_pending users ((clock, q) ∷ rest) f b =
    run_decisions-single_pending users rest (step users clock f q) (pending-step users clock f q b)
