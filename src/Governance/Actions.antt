-- ===== src/Governance/Actions.antt =====
-- ki_radar/governance/views.py and services.py: a screening with its review artifacts, and a formal
-- review.
pub mod Screening
use ki_use_case_radar.Common.{
  ℕ, suc, ◌+◌, Bool, true, false, ◌&&◌, not, Option, none, some, List, [], ◌∷◌, ◌++◌, map, find,
  Text, codes, if◌then◌else◌, is_empty, any, ◌==◌, Result, ok, err, ◌>>=◌, ◌>>◌, raise_if, require,
}
use ki_use_case_radar.Clock.{Clock}
use ki_use_case_radar.Accounts.{User, is_coordinator}
use ki_use_case_radar.UseCases.Model.{UseCase, save}
use ki_use_case_radar.UseCases.DecisionModel.{DecisionAssessment, latest_assessment}
use ki_use_case_radar.Governance.Model.{
  ReviewType, privacy, security, legal, GovernanceAssessment, GovernanceReview, ReviewStatus,
  open_review, completed, not_relevant, ReviewResult, screening_requires, review_rationale,
  is_completed, clean, CleanError, type_eq,
}
use ki_use_case_radar.Governance.Status.{
  GovernanceStatus, GovernanceReviewState, current_governance_status, use_case_requires,
}
use ki_use_case_radar.CaseFile.{CaseFile, governance_of}

pub data GovernanceError : Type 0 where
  permission_denied screening_missing not_required : GovernanceError
  unclean : List CleanError → GovernanceError

-- `setattr(use_case, definition.required_field, value)`
abbrev pub set_required : ReviewType → Bool → UseCase → UseCase
set_required privacy b u = record u { privacy_review_required = b }
set_required security b u = record u { security_review_required = b }
set_required legal b u = record u { legal_review_required = b }

-- `setattr(use_case, definition.completed_field, value)`
abbrev pub set_completed : ReviewType → Bool → UseCase → UseCase
set_completed privacy b u = record u { privacy_review_completed = b }
set_completed security b u = record u { security_review_completed = b }
set_completed legal b u = record u { legal_review_completed = b }

abbrev pub responsible_role : ReviewType → Text
responsible_role privacy = codes "Datenschutz"
responsible_role security = codes "Informationssicherheit"
responsible_role legal = codes "Recht / Compliance"

-- One round of the loop of `create_screening_review_artifacts`, with the key of the new row
unfoldable pub screening_artifact :
    Clock → User → GovernanceAssessment → ℕ → ReviewType → GovernanceReview
screening_artifact clock actor s pk t = record {
  pk = pk;
  use_case = s.use_case;
  screening = some s.pk;
  review_type = t;
  status = if screening_requires s t then open_review else not_relevant;
  created_at = clock.now;
  reviewed_at = s.assessment_date;
  reviewer = some actor.id;
  responsible_role = responsible_role t;
  result = none;
  rationale = review_rationale s t;
  conditions = [];
}

-- The three rounds: the rows, the latest first, if each of them is clean.
abbrev pub add_artifact :
    Clock
    → User
    → GovernanceAssessment
    → ReviewType
    → ℕ
    → List GovernanceReview
    → Result GovernanceError (List GovernanceReview)
add_artifact clock actor s t pk rows =
    let row = screening_artifact clock actor s pk t in
    raise_if (not (is_empty (clean row (some s)))) (unclean (clean row (some s))) >> ok (row ∷ rows)

unfoldable pub create_screening_review_artifacts :
    Clock
    → User
    → GovernanceAssessment
    → ℕ
    → List GovernanceReview
    → Result GovernanceError (List GovernanceReview)
create_screening_review_artifacts clock actor s pk rows =
    add_artifact clock actor s privacy pk rows
    >>= (λ one. add_artifact clock actor s security (pk + 1) one)
    >>= (λ two. add_artifact clock actor s legal (pk + 2) two)

-- The mirrored fields of the use case after a screening
abbrev pub mirror_screening : GovernanceAssessment → UseCase → UseCase
mirror_screening s u = save (record u {
  privacy_review_required = s.privacy_review_required;
  privacy_review_completed = false;
  security_review_required = s.security_review_required;
  security_review_completed = false;
  legal_review_required = s.legal_review_required;
  legal_review_completed = false;
})

-- `decision_assessment.governance_precheck_completed = True` on the current assessment
abbrev pub is_current : Option DecisionAssessment → DecisionAssessment → Bool
is_current none a = false
is_current (some c) a = c.pk == a.pk

abbrev pub mark_precheck : List DecisionAssessment → List DecisionAssessment
mark_precheck rows =
    map
      (λ (a : DecisionAssessment).
        if is_current (latest_assessment rows) a
        then record a { governance_precheck_completed = true }
        else a)
      rows

-- The screening that the form and the view make: its key, its use case, its time and its reviewer
-- are set.
unfoldable pub new_screening : Clock → CaseFile → User → GovernanceAssessment → GovernanceAssessment
new_screening clock f actor d = record d {
  pk = f.next_pk;
  use_case = f.use_case.pk;
  created_at = clock.now;
  reviewer = some actor.id;
}

-- `assessment_create` on a valid form
unfoldable pub assessment_create :
    Clock → CaseFile → User → GovernanceAssessment → Result GovernanceError CaseFile
assessment_create clock f actor d =
    let s = new_screening clock f actor d in
    require (is_coordinator actor) permission_denied
    >> (create_screening_review_artifacts clock actor s (f.next_pk + 1) f.governance_reviews
        >>= λ rows. ok (record f {
          use_case = mirror_screening s f.use_case;
          governance_assessments = s ∷ f.governance_assessments;
          governance_reviews = rows;
          decision_assessments = mark_precheck f.decision_assessments;
          next_pk = f.next_pk + 4;
        }))

-- The fields of the review form that are modelled
pub record GovernanceReviewData : Type 0 where
  pub reviewed_at : ℕ
  pub responsible_role : Text
  pub result : Option ReviewResult
  pub rationale : Text
  pub conditions : Text

unfoldable pub new_formal_review :
    Clock
    → CaseFile
    → User
    → GovernanceAssessment
    → ReviewType
    → GovernanceReviewData
    → GovernanceReview
new_formal_review clock f actor s t d = record {
  pk = f.next_pk;
  use_case = f.use_case.pk;
  screening = some s.pk;
  review_type = t;
  status = completed;
  created_at = clock.now;
  reviewed_at = d.reviewed_at;
  reviewer = some actor.id;
  responsible_role = d.responsible_role;
  result = d.result;
  rationale = d.rationale;
  conditions = d.conditions;
}

-- `UseCase.save` clears what is not required, also beside `update_fields`.
unfoldable pub sync_completion_from_review : UseCase → GovernanceReview → UseCase
unfolding save
sync_completion_from_review u r = save (set_completed r.review_type (is_completed r) u)

-- `state.required`
abbrev pub is_required : GovernanceStatus → ReviewType → Bool
is_required g t =
    any (λ (s : GovernanceReviewState). type_eq s.review_type t && s.required) g.reviews

abbrev pub store_formal_review : CaseFile → GovernanceReview → CaseFile
store_formal_review f r = record f {
  use_case = sync_completion_from_review f.use_case r;
  governance_reviews = r ∷ f.governance_reviews;
  next_pk = suc f.next_pk;
}

abbrev pub review_of_screening :
    Clock
    → CaseFile
    → User
    → ReviewType
    → GovernanceReviewData
    → Option GovernanceAssessment
    → Result GovernanceError CaseFile
review_of_screening clock f actor t d none = err screening_missing
review_of_screening clock f actor t d (some s) =
    let row = new_formal_review clock f actor s t d in
    require (is_required (governance_of f) t) not_required
    >> raise_if (not (is_empty (clean row (some s)))) (unclean (clean row (some s)))
    >> ok (store_formal_review f row)

-- `review_create` on a valid form; where the view only renders a page again, nothing is stored
unfoldable pub review_create :
    Clock → CaseFile → User → ReviewType → GovernanceReviewData → Result GovernanceError CaseFile
review_create clock f actor t d =
    require (is_coordinator actor) permission_denied
    >> review_of_screening clock f actor t d (governance_of f).screening
