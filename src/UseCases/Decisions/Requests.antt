-- ===== src/UseCases/Decisions/Requests.antt =====
-- Decision requests and their sequences.
use ki_use_case_radar.Common.{
  ℕ, ◌≡◌, refl, ◌==◌, Option, none, some, List, [], ◌∷◌, Text, find, Result, ok, err,
}
use ki_use_case_radar.Clock.{Clock}
use ki_use_case_radar.Accounts.{User}
use ki_use_case_radar.UseCases.DecisionModel.{DecisionAssessment, ApprovalDecision}
use ki_use_case_radar.UseCases.Decisions.{
  DecisionError, DecisionData, create_decision_assessment, submit_approval_decision,
  confirm_conditional_decision, return_conditional_decision,
}
use ki_use_case_radar.CaseFile.{CaseFile}

-- A request: an operation with its actor and its data, and the key of the decision that it acts on.
pub data DecisionRequest : Type 0 where
  assess : User → DecisionAssessment → DecisionRequest
  submit : User → DecisionData → DecisionRequest
  confirm : User → ℕ → DecisionRequest
  hand_back : User → ℕ → Text → DecisionRequest

-- The row with the key.
abbrev pub row_with : ℕ → List ApprovalDecision → Option ApprovalDecision
row_with pk = find (λ (d : ApprovalDecision). d.pk == pk)

abbrev pub keep : CaseFile → Result DecisionError CaseFile → CaseFile
keep f (ok f') = f'
keep f (err e) = f

abbrev pub on_row :
    CaseFile
    → Option ApprovalDecision
    → (ApprovalDecision → Result DecisionError CaseFile)
    → CaseFile
on_row f none act = f
on_row f (some d) act = keep f (act d)

module _ (users : List User) where
  -- One request at its time. A request that raises changes nothing, nor does one for a missing row.
  abbrev pub step : Clock → CaseFile → DecisionRequest → CaseFile
  step clock f (assess a d) = keep f (create_decision_assessment f a d)
  step clock f (submit a d) = keep f (submit_approval_decision clock users f a d)
  step clock f (confirm a pk) =
      on_row f (row_with pk f.approval_decisions)
        (λ d. confirm_conditional_decision clock users f d a)
  step clock f (hand_back a pk reason) =
      on_row f (row_with pk f.approval_decisions)
        (λ d. return_conditional_decision clock users f d a reason)

  unfoldable pub run_decisions : CaseFile → List (Clock × DecisionRequest) → CaseFile
  run_decisions f [] = f
  run_decisions f ((clock, q) ∷ rest) = run_decisions (step clock f q) rest

-- What a file keeps if every result of a call has it.
pub keep-preserves {ℓ} :
    (P : CaseFile → Type ℓ) (f : CaseFile) (r : Result DecisionError CaseFile)
    → P f
    → ((f' : CaseFile) → r ≡ ok f' → P f')
    → P (keep f r)
keep-preserves P f (ok f') p h = h f' refl
keep-preserves P f (err e) p h = p

pub on_row-preserves {ℓ} :
    (P : CaseFile → Type ℓ) (f : CaseFile) (o : Option ApprovalDecision)
    (act : ApprovalDecision → Result DecisionError CaseFile)
    → P f
    → ((d : ApprovalDecision) (f' : CaseFile) → o ≡ some d → act d ≡ ok f' → P f')
    → P (on_row f o act)
on_row-preserves P f none act p h = p
on_row-preserves P f (some d) act p h = keep-preserves P f (act d) p (λ f' e. h d f' refl e)
