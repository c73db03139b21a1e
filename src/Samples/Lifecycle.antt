-- ===== src/Samples/Lifecycle.antt =====
-- The lifecycle at concrete cases.
use ki_use_case_radar.Common.{
  ℕ, ◌≡◌, refl, ◌≤◌, ◌↔◌, true, false, none, some, List, [], ◌∷◌, codes, ok,
}
use ki_use_case_radar.UseCases.Model.{
  Status, idea, review, pilot, operation, ended, metric_result, approved,
}
use ki_use_case_radar.UseCases.TransitionPolicy.{
  ScaleEvidence, absent, flag, validate_transition_shape, validate_pilot_start, validate_go_live,
  validate_review_command, validate_actor, evidence_text, evidence_bool,
}
use ki_use_case_radar.Reviews.Model.{Decision, start_review, start_pilot, go_live, end}
use ki_use_case_radar.Reviews.Services.{ReviewData, create_review, apply_review}
use ki_use_case_radar.Reviews.Lifecycle.{
  Edge, validate_transition_shape_iff, Stepped, create_review-Stepped, IsHistory, Request, run,
  run-IsHistory,
}
use ki_use_case_radar.Reviews.Gates.{PilotGate, validate_pilot_start_iff}
use ki_use_case_radar.Reviews.Runs.{
  phase, phase-run, run_ended, HasPassed, run-HasPassed, IsAuthorised, create_review-IsAuthorised,
}
use ki_use_case_radar.Governance.Status.{current_governance_status, required_governance_blockers}
use ki_use_case_radar.Reviews.Starts.{create_review-starts_pilot}
use ki_use_case_radar.Delivery.Handover.{recorded_handover_package}
use ki_use_case_radar.Delivery.Model.{DeliveryPackage}
use ki_use_case_radar.CaseFile.{CaseFile}
use ki_use_case_radar.Samples.{clock, alice, owner, file_in}

abbrev evidence : ScaleEvidence
evidence = record { ml_score_failed_mandatory_checks = absent; scale_rollback_tested = flag true }

abbrev data_of : Decision → Status → ReviewData
data_of decision target = record {
  command = record {
    decision = decision;
    target_status = target;
    pilot_start = some 95;
    scale_evidence = some evidence;
    go_live_exception_confirmed = false;
    rationale = codes "next";
  };
  review_date = 100;
  next_review_date = none;
  ending_reason = [];
  data_and_access_handling = [];
  replacement_solution = [];
  final_assessment = [];
  lessons_learned = [];
  early_go_live_exception_confirmed = false;
  early_go_live_original_pilot_end = none;
  early_go_live_evidence_basis = [];
  early_go_live_unobserved_risks = [];
  early_go_live_mitigation_measures = [];
}

abbrev begun : CaseFile
begun = file_in idea approved

abbrev reviewed : CaseFile
reviewed = file_in review approved

abbrev requests : List Request
requests =
    (clock, alice, data_of start_review review)
    ∷ (clock, owner, data_of start_pilot pilot)
    ∷ (clock, alice, data_of go_live operation)
    ∷ (clock, owner, data_of end ended)
    ∷ []

-- The four commands lead from the idea to the end.
whole_life : (run begun requests).use_case.status ≡ ended
unfolding run create_review validate_review_command validate_transition_shape validate_actor
    validate_pilot_start validate_go_live apply_review recorded_handover_package
    current_governance_status required_governance_blockers evidence_text evidence_bool metric_result
whole_life = refl

pilot_starts :
    create_review clock reviewed owner (data_of start_pilot pilot)
    ≡ ok (apply_review clock reviewed owner (data_of start_pilot pilot))
unfolding create_review validate_review_command validate_transition_shape validate_actor
    validate_pilot_start recorded_handover_package current_governance_status
    required_governance_blockers
pilot_starts = refl

validate_transition_shape_iff_example :
    (validate_transition_shape begun.use_case start_pilot pilot ≡ ok tt)
    ↔ Edge start_pilot idea pilot
validate_transition_shape_iff_example =
    validate_transition_shape_iff begun.use_case start_pilot pilot

create_review-Stepped_example :
    Stepped reviewed owner
      (data_of start_pilot pilot)
      (apply_review clock reviewed owner (data_of start_pilot pilot))
create_review-Stepped_example =
    create_review-Stepped clock reviewed owner (data_of start_pilot pilot)
      (apply_review clock reviewed owner (data_of start_pilot pilot)) pilot_starts

run-IsHistory_example :
    IsHistory idea (run begun requests).reviews (run begun requests).use_case.status
run-IsHistory_example = run-IsHistory idea requests begun refl

run-HasPassed_example : HasPassed (run begun requests).use_case.status (run begun requests).reviews
run-HasPassed_example = run-HasPassed requests begun (refl, refl)

create_review-IsAuthorised_example : IsAuthorised owner start_pilot reviewed.use_case
create_review-IsAuthorised_example =
    create_review-IsAuthorised clock reviewed owner (data_of start_pilot pilot)
      (apply_review clock reviewed owner (data_of start_pilot pilot)) pilot_starts

run_ended_example : run (file_in ended approved) requests ≡ file_in ended approved
run_ended_example = run_ended requests (file_in ended approved) refl

phase-run_example : 1 ≤ phase (run reviewed requests).use_case.status
phase-run_example = phase-run requests reviewed

validate_pilot_start_iff_example :
    (validate_pilot_start clock reviewed (some 95) ≡ ok tt)
    ↔ ((p : DeliveryPackage) × (day : ℕ) × (some 95 ≡ some day) × PilotGate clock reviewed p day)
validate_pilot_start_iff_example = validate_pilot_start_iff clock reviewed (some 95)

create_review-starts_pilot_example :
    (p : DeliveryPackage) × (day : ℕ) × ((apply_review clock reviewed owner
        (data_of start_pilot pilot)).use_case.pilot_start
      ≡ some day)
    × PilotGate clock reviewed p day
create_review-starts_pilot_example =
    create_review-starts_pilot clock reviewed owner (data_of start_pilot pilot)
      (apply_review clock reviewed owner (data_of start_pilot pilot)) pilot_starts refl
