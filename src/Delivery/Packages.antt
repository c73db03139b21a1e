-- ===== src/Delivery/Packages.antt =====
-- ki_radar/delivery/services.py and lean_services.py: the creation of a package, its mark as ready
-- and its handover.
pub mod Checked
pub mod Runs
pub mod Creation
pub mod Approved
use ki_use_case_radar.Common.{
  ℕ, suc, ◌+◌, Bool, true, false, ◌&&◌, ◌||◌, not, Option, none, some, List, [], ◌∷◌, ◌++◌, map,
  filter, find, any, first_by, Text, is_some, is_none, is_empty, ltb, leb, ◌==◌, if◌then◌else◌,
  Result, ok, err, ◌>>=◌, ◌>>◌, raise_if, require,
}
use ki_use_case_radar.Clock.{Clock}
use ki_use_case_radar.Accounts.{User}
use ki_use_case_radar.UseCases.Model.{UseCase}
use ki_use_case_radar.UseCases.DecisionModel.{ApprovalDecision}
use ki_use_case_radar.UseCases.TransitionPolicy.{is_approved}
use ki_use_case_radar.Delivery.Model.{
  Section, problem_and_target, scope_and_users, solution_direction, architecture_and_data,
  requirements_and_governance, acceptance_and_measurement, delivery_control, section_eq,
  DeliveryPackage, SectionReview, SectionStatus, needs_review, blocked, ContentOrigin, inherited,
  mixed, new, draft, ready, handed_over, package_status_eq,
}
use ki_use_case_radar.Delivery.Permissions.{all_sections}
use ki_use_case_radar.CaseFile.{CaseFile}

-- The texts and the reason of the two `ValidationError`s of the eligibility, and those of the moves.
pub data PackageError : Type 0 where
  no_final_approval approval_not_documented : PackageError
  already_handed_over not_marked_ready no_active_technical_owner assessment_missing : PackageError
  sections_blocked : List Section → PackageError

abbrev pub is_blocked_review : SectionReview → Bool
is_blocked_review r = elim r.review_status [ blocked ↦ true | _ ↦ false ]

abbrev pub section_blocked : List SectionReview → Section → Bool
section_blocked rows key =
    any (λ (r : SectionReview). section_eq r.section_key key && is_blocked_review r) rows

-- `delivery_enforcement_findings`: of all findings of `evaluate_delivery_readiness` those of the code
-- SECTION_BLOCKED, each by its section
unfoldable pub enforcement_findings : DeliveryPackage → List Section
enforcement_findings p =
    if ltb p.readiness_schema_version 2
    then []
    else filter (section_blocked p.section_reviews) all_sections

-- `lean_services.mark_package_ready`
unfoldable pub mark_package_ready : DeliveryPackage → Result PackageError DeliveryPackage
mark_package_ready p =
    raise_if (package_status_eq p.status handed_over) already_handed_over
    >> raise_if (not (is_empty (enforcement_findings p)))
        (sections_blocked (enforcement_findings p))
    >> ok (record p { status = ready })

-- `package.technical_owner_id is not None and package.technical_owner.is_active`
abbrev pub has_active_owner : List User → Option ℕ → Bool
has_active_owner users none = false
has_active_owner users (some pk) = any (λ (u : User). u.id == pk && u.is_active) users

-- `lean_services.hand_over_package`
unfoldable pub hand_over_package :
    Clock → List User → User → DeliveryPackage → Result PackageError DeliveryPackage
hand_over_package clock users actor p =
    require (package_status_eq p.status ready) not_marked_ready
    >> require (has_active_owner users p.technical_owner) no_active_technical_owner
    >> raise_if (not (is_empty (enforcement_findings p)))
        (sections_blocked (enforcement_findings p))
    >> ok (record p {
      status = handed_over;
      handed_over_by = some actor.id;
      handed_over_at = some clock.now;
    })

-- `Meta.ordering = ["-created_at"]` of the decisions
abbrev pub decision_before : ApprovalDecision → ApprovalDecision → Bool
decision_before a b = ltb b.created_at a.created_at

unfoldable pub latest_final_approval : List ApprovalDecision → Option ApprovalDecision
latest_final_approval rows = first_by decision_before (
    filter (λ (d : ApprovalDecision). is_approved d.decision_status && is_some d.finalized_at) rows)

abbrev pub documented : Option ApprovalDecision → Result PackageError ApprovalDecision
documented none = err approval_not_documented
documented (some d) = ok d

-- `delivery_eligibility`: the decision, or the reason against it
unfoldable pub delivery_eligibility : CaseFile → Result PackageError ApprovalDecision
delivery_eligibility f =
    require (is_approved f.use_case.decision_status) no_final_approval
    >> documented (latest_final_approval f.approval_decisions)

-- SECTION_ORIGINS
abbrev pub section_origin : Section → ContentOrigin
section_origin problem_and_target = inherited
section_origin requirements_and_governance = new
section_origin _ = mixed

-- One row of `_create_section_reviews`, with the defaults of the model
abbrev pub new_section_review : Section → SectionReview
new_section_review key = record {
  section_key = key;
  content_origin = section_origin key;
  review_status = needs_review;
  review_note = [];
  reviewed_by = none;
  reviewed_at = none;
  business_confirmed_by = none;
  business_confirmed_at = none;
  technical_confirmed_by = none;
  technical_confirmed_at = none;
  business_confirmation_role = none;
  technical_confirmation_role = none;
  role_collapse_reason = [];
  admin_override_confirmed = false;
}

-- `Max("version")`, with 0 for no row
abbrev pub max_version : List DeliveryPackage → ℕ
max_version [] = 0
max_version (p ∷ rest) = if leb p.version (max_version rest) then max_version rest else p.version

unfoldable pub new_package : Clock → CaseFile → User → ApprovalDecision → DeliveryPackage
new_package clock f actor decision = record {
  pk = f.next_pk;
  created_at = clock.now;
  version = max_version f.delivery_packages + 1;
  status = draft;
  readiness_schema_version = 2;
  technical_owner = f.use_case.technical_owner;
  generated_from_decision = decision.pk;
  created_by = some actor.id;
  handed_over_by = none;
  handed_over_at = none;
  section_reviews = map new_section_review all_sections;
}

-- The texts, the artifacts and the manifest of the new package read `decision.assessment`, which is
-- None for a decision without one: an AttributeError.
abbrev pub read_assessment : ApprovalDecision → Option ℕ → Result PackageError ApprovalDecision
read_assessment decision none = err assessment_missing
read_assessment decision (some pk) = ok decision

abbrev pub with_assessment : ApprovalDecision → Result PackageError ApprovalDecision
with_assessment decision = read_assessment decision decision.assessment

-- `create_delivery_package`, less the content of the fields that the mapper fills
unfoldable pub create_delivery_package : Clock → CaseFile → User → Result PackageError CaseFile
create_delivery_package clock f actor = delivery_eligibility f >>= with_assessment >>= λ decision.
    ok (record f {
      delivery_packages = new_package clock f actor decision ∷ f.delivery_packages;
      next_pk = suc f.next_pk;
    })
