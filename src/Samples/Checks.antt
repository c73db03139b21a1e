-- ===== src/Samples/Checks.antt =====
-- The checks at concrete cases.
use ki_use_case_radar.Governance.Status.{current_governance_status, required_governance_blockers}
use ki_use_case_radar.Delivery.Handover.{recorded_handover_package}
use ki_use_case_radar.Common.{◌≡◌, refl, true, ◌&&◌, not, some, ok, is_empty}
use ki_use_case_radar.UseCases.Model.{review, pilot, approved}
use ki_use_case_radar.UseCases.TransitionPolicy.{
  ScaleEvidence, absent, flag, go_live_blockers, evidence_text, evidence_bool, validate_pilot_start,
}
use ki_use_case_radar.UseCases.Checks.{check_go_live}
use ki_use_case_radar.UseCases.Checks.Agreement.{check_go_live-agrees}
use ki_use_case_radar.CaseFile.{CaseFile}
use ki_use_case_radar.Samples.{clock, file_in}

abbrev reviewed : CaseFile
reviewed = file_in review approved

abbrev piloted : CaseFile
piloted = file_in pilot approved

abbrev evidence : ScaleEvidence
evidence = record { ml_score_failed_mandatory_checks = absent; scale_rollback_tested = flag true }

passes : validate_pilot_start clock reviewed (some 95) ≡ ok tt
unfolding validate_pilot_start recorded_handover_package current_governance_status
    required_governance_blockers
passes = refl

check_go_live-agrees_example : is_empty (go_live_blockers piloted evidence) ≡ (
    is_empty (check_go_live clock piloted).blockers
    && not (evidence_text absent)
    && evidence_bool (flag true))
check_go_live-agrees_example = check_go_live-agrees clock piloted evidence refl
