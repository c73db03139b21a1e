-- ===== src/Samples/Scale.antt =====
-- The scale readiness at concrete cases.
use ki_use_case_radar.Common.{
  ◌≡◌, ◌↔◌, ◌⊎◌, refl, true, Option, none, some, [], codes, has_text, pos, ok, arith,
}
use ki_use_case_radar.UseCases.Model.{metric_result, pilot, approved}
use ki_use_case_radar.UseCases.TransitionPolicy.{
  evidence_bool, evidence_text, absent, flag, text, validate_go_live,
}
use ki_use_case_radar.Governance.Status.{current_governance_status}
use ki_use_case_radar.Delivery.Model.{DeliveryPackage, handed_over}
use ki_use_case_radar.CaseFile.{CaseFile, governance_of}
use ki_use_case_radar.UseCases.ScaleReadiness.Evidence.{
  ScaleFields, score, policy_evidence, ml_score_monitoring, score_value, decimal_of,
}
use ki_use_case_radar.UseCases.ScaleReadiness.Findings.{not_ready, conditional, blockers}
use ki_use_case_radar.UseCases.ScaleReadiness.Rules.{final_ml_score}
use ki_use_case_radar.UseCases.ScaleReadiness.Score.{IsFinal, final_ml_score-IsFinal}
use ki_use_case_radar.UseCases.ScaleReadiness.Gate.{
  ScaleGate, evaluate_scale_readiness-blockers_iff,
}
use ki_use_case_radar.UseCases.ScaleReadiness.Policy.{IsMeasured, evaluate_scale_readiness-go_live}
use ki_use_case_radar.UseCases.ScaleReadiness.Snapshot.{
  IsZero, build_scale_readiness_snapshot, build_scale_readiness_snapshot-score_iff,
}
use ki_use_case_radar.UseCases.ScaleReadiness.{evaluate_scale_readiness}
use ki_use_case_radar.Samples.{clock, file_in, package_in}

-- Evidence with a score of zero for the monitoring, which is enough for the minimum of zero.
abbrev evidence : ScaleFields
evidence = record {
  scale_tailoring_level = text (codes " a ");
  scale_pilot_validation_confirmed = text (codes "on");
  scale_production_version = text (codes "1.0");
  scale_rollback_tested = flag true;
  scale_technical_monitoring_ready = flag true;
  scale_ai_quality_monitoring_ready = text (codes "Yes");
  scale_incident_process_ready = absent;
  scale_extended_controls_completed = absent;
  scale_evidence_url = text (codes "https://e");
  ml_score_data_value = score (pos 350);
  ml_score_model_value = score (pos 400);
  ml_score_infrastructure_value = score (pos 700);
  ml_score_monitoring_value = score (pos 0);
  ml_score_minimum = score (pos 0);
  ml_score_version = text (codes "2");
  ml_score_date = some 97;
  ml_score_evidence_url = text (codes "https://s");
  ml_score_open_core_checks = text (codes "one");
  ml_score_failed_mandatory_checks = absent;
}

abbrev the_file : CaseFile
the_file = record (file_in pilot approved) {
  use_case = record ((file_in pilot approved).use_case) { human_oversight = codes "desk" };
}

abbrev handed : Option DeliveryPackage
handed = some (package_in handed_over)

-- The open core check is a condition; without the handover the case is not ready.
state :
    (evaluate_scale_readiness the_file.use_case (governance_of the_file) handed evidence).state
    ≡ conditional
unfolding evaluate_scale_readiness current_governance_status metric_result evidence_bool
    evidence_text
state = refl

state_without_handover :
    (evaluate_scale_readiness the_file.use_case (governance_of the_file) none evidence).state
    ≡ not_ready
unfolding evaluate_scale_readiness current_governance_status metric_result evidence_bool
    evidence_text
state_without_handover = refl

no_blocker :
    blockers (evaluate_scale_readiness the_file.use_case (governance_of the_file) handed evidence)
    ≡ []
unfolding evaluate_scale_readiness current_governance_status metric_result evidence_bool
    evidence_text
no_blocker = refl

final_score : final_ml_score evidence ≡ some (pos 0)
unfolding final_ml_score
final_score = refl

final_ml_score-IsFinal_example : IsFinal evidence (pos 0)
final_ml_score-IsFinal_example = final_ml_score-IsFinal evidence (pos 0) final_score

evaluate_scale_readiness-blockers_iff_example :
    (blockers (evaluate_scale_readiness the_file.use_case (governance_of the_file) handed evidence)
      ≡ [])
    ↔ ScaleGate the_file.use_case (governance_of the_file) handed evidence
evaluate_scale_readiness-blockers_iff_example =
    evaluate_scale_readiness-blockers_iff the_file.use_case (governance_of the_file) handed evidence

measured : IsMeasured the_file.use_case
measured = record {
  named = refl;
  directed = refl;
  targeted = refl;
  measured = refl;
  in_order = (95, 98, refl, refl, omega arith);
}

reason_given : has_text (codes "why") ≡ true
unfolding has_text
reason_given = refl

evaluate_scale_readiness-go_live_example :
    validate_go_live the_file (some (policy_evidence evidence)) true (codes "why") ≡ ok tt
evaluate_scale_readiness-go_live_example =
    evaluate_scale_readiness-go_live the_file handed evidence true (codes "why") no_blocker measured
      (λ missed. (refl, reason_given))

build_scale_readiness_snapshot-score_iff_example :
    let r = evaluate_scale_readiness the_file.use_case (governance_of the_file) handed evidence in
    let s = build_scale_readiness_snapshot clock the_file.use_case handed [] evidence r in
    (s.ml_test_score.score_of ml_score_monitoring ≡ none) ↔ (
      (decimal_of (score_value evidence ml_score_monitoring) ≡ none)
      ⊎ IsZero (decimal_of (score_value evidence ml_score_monitoring)))
build_scale_readiness_snapshot-score_iff_example =
    build_scale_readiness_snapshot-score_iff clock the_file.use_case handed [] evidence
      (evaluate_scale_readiness the_file.use_case (governance_of the_file) handed evidence)
      ml_score_monitoring
