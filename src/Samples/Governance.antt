-- ===== src/Samples/Governance.antt =====
-- Screenings and reviews at a concrete case.
use ki_use_case_radar.Accounts.{is_coordinator}
use ki_use_case_radar.Common.{◌≡◌, refl, true, some, [], map, filter, codes, Result, ok, err}
use ki_use_case_radar.UseCases.Model.{save, review, ready}
use ki_use_case_radar.Governance.Model.{
  clean, GovernanceAssessment, screening_requires, privacy, passed,
}
use ki_use_case_radar.Governance.Status.{
  current_governance_status, still_open, review_order, required_governance_blockers,
}
use ki_use_case_radar.Governance.Actions.{
  new_formal_review, screening_artifact, new_screening, assessment_create,
  create_screening_review_artifacts, GovernanceReviewData, review_create, GovernanceError,
}
use ki_use_case_radar.Governance.Actions.Screening.{assessment_create-blockers}
use ki_use_case_radar.CaseFile.{CaseFile, governance_of}
use ki_use_case_radar.Samples.{clock, alice, screening, file_in}

abbrev the_case : CaseFile
the_case = file_in review ready

abbrev private_data : GovernanceAssessment
private_data = record screening {
  assessment_date = 100;
  personal_data = true;
  privacy_review_required = true;
}

abbrev or_same : Result GovernanceError CaseFile → CaseFile
or_same (ok f) = f
or_same (err e) = the_case

abbrev screened : CaseFile
screened = or_same (assessment_create clock the_case alice private_data)

screens : assessment_create clock the_case alice private_data ≡ ok screened
unfolding assessment_create is_coordinator create_screening_review_artifacts clean new_screening
    screening_artifact
screens = refl

abbrev passes : GovernanceReviewData
passes = record {
  reviewed_at = 100;
  responsible_role = codes "Datenschutz";
  result = some passed;
  rationale = [];
  conditions = [];
}

-- A passed review on the next day clears its blocker.
cleared :
    required_governance_blockers (
      governance_of
        (or_same (review_create (record clock { now = 101 }) screened alice privacy passes)))
    ≡ []
unfolding assessment_create review_create required_governance_blockers current_governance_status
    is_coordinator create_screening_review_artifacts clean new_screening screening_artifact
    new_formal_review save
cleared = refl

assessment_create-blockers_example :
    required_governance_blockers (governance_of screened)
    ≡ map still_open (filter (screening_requires private_data) review_order)
unfolding new_screening
assessment_create-blockers_example =
    assessment_create-blockers clock the_case alice private_data screened screens
      (record { newest = (refl, tt); fresh = tt })
