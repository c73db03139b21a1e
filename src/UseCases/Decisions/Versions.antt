-- ===== src/UseCases/Decisions/Versions.antt =====
-- The versions of the assessments.
use ki_use_case_radar.Common.{
  ℕ, ◌+◌, ◌≤◌, ◌<◌, ◌≡◌, refl, is_ok, is_ok-eq-false, if◌then◌else◌, ap, false, Option, none, some,
  List, [], ◌∷◌, arith, leb, pick, first_by, ok,
}
use ki_use_case_radar.Clock.{Clock}
use ki_use_case_radar.Accounts.{User}
use ki_use_case_radar.UseCases.Model.{ready, save}
use ki_use_case_radar.UseCases.DecisionModel.{
  DecisionAssessment, ApprovalDecision, latest_assessment, assessment_before,
}
use ki_use_case_radar.UseCases.Decisions.{
  create_decision_assessment, max_version, new_assessment, store_assessment,
  confirm_conditional_decision, is_outdated,
}
use ki_use_case_radar.UseCases.Decisions.Checked.{
  create_decision_assessment-eq-ok, confirm_conditional_decision-eq-ok,
}
use ki_use_case_radar.CaseFile.{CaseFile}

abbrev version_of : Option DecisionAssessment → ℕ
version_of none = 0
version_of (some a) = a.version

version-pick :
    (x : DecisionAssessment) (o : Option DecisionAssessment) (n : ℕ)
    → version_of o ≤ n
    → (pick assessment_before x o).version ≤ (if leb x.version n then n else x.version)
version-pick x none n h = ground arith
version-pick x (some y) n h = ground arith

version-first_by :
    (rows : List DecisionAssessment)
    → version_of (first_by assessment_before rows) ≤ max_version rows
version-first_by [] = omega arith
version-first_by (x ∷ rest) =
    version-pick x (first_by assessment_before rest) (max_version rest) (version-first_by rest)

pick_newest :
    (x : DecisionAssessment) (o : Option DecisionAssessment)
    → version_of o < x.version
    → pick assessment_before x o ≡ x
pick_newest x none h = refl
pick_newest x (some y) h = ground arith

-- The assessment that has just been stored.
latest-store :
    (f : CaseFile) (a : User) (d : DecisionAssessment)
    → latest_assessment (store_assessment f (new_assessment f a d)).decision_assessments
      ≡ some (new_assessment f a d)
unfolding latest_assessment
latest-store f a d = ap some (
    pick_newest (new_assessment f a d) (first_by assessment_before f.decision_assessments)
      (omega (arith, version-first_by f.decision_assessments)))

-- A new assessment becomes the current one, by the actor and with a version above all others, and
-- the decision on the use case is open again.
pub create_decision_assessment-latest :
    (f : CaseFile) (a : User) (d : DecisionAssessment) (f' : CaseFile)
    → create_decision_assessment f a d ≡ ok f'
    → (n : DecisionAssessment) × (latest_assessment f'.decision_assessments ≡ some n)
      × (n.assessed_by ≡ some a.id)
      × (n.version ≡ max_version f.decision_assessments + 1)
      × (f'.use_case.decision_status ≡ ready)
unfolding save
create_decision_assessment-latest f a d f' h =
    let (_, _, _, stored) = create_decision_assessment-eq-ok f a d f' h in
    (new_assessment f a d, rw stored (latest-store f a d), refl, refl, rw stored refl)

-- After a new assessment, no decision on an earlier one can be confirmed.
pub create_decision_assessment-outdated :
    (clock : Clock) (users : List User) (f : CaseFile) (a : User) (d : DecisionAssessment)
    (f' : CaseFile) (old : ApprovalDecision) (b : User) (pk : ℕ)
    → create_decision_assessment f a d ≡ ok f'
    → old.assessment ≡ some pk
    → pk < f.next_pk
    → is_ok (confirm_conditional_decision clock users f' old b) ≡ false
create_decision_assessment-outdated clock users f a d f' old b pk h e stored_before =
    is_ok-eq-false (confirm_conditional_decision clock users f' old b) (λ g returned.
      let (_, _, _, stored) = create_decision_assessment-eq-ok f a d f' h in
      let n = new_assessment f a d in
      let latest : latest_assessment f'.decision_assessments ≡ some n =
        rw stored (latest-store f a d) in
      let current = (confirm_conditional_decision-eq-ok clock users f' old b g returned).current in
      let fresh : is_outdated old (some n) ≡ false = rw latest at current in
      absurd (ground (arith, fresh, e, stored_before)))
