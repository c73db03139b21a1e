-- ===== src/UseCases/ScaleReadiness.antt =====
-- ki_radar/use_cases/scale_readiness.py: the evidence for scaling a pilot and its evaluation.
pub mod Evidence
pub mod Findings
pub mod Rules
pub mod Score
mod Blocking
pub mod Gate
pub mod State
pub mod Policy
pub mod Snapshot
use ki_use_case_radar.Common.{Option, List, ◌++◌}
use ki_use_case_radar.UseCases.Model.{UseCase}
use ki_use_case_radar.Governance.Status.{GovernanceStatus}
use ki_use_case_radar.Delivery.Model.{DeliveryPackage}
use ki_use_case_radar.UseCases.ScaleReadiness.Evidence.{read_tailoring, ScaleFields}
use ki_use_case_radar.UseCases.ScaleReadiness.Findings.{
  ScaleReadinessFinding, ScaleReadinessResult, result_of,
}
use ki_use_case_radar.UseCases.ScaleReadiness.Rules.{
  evaluate_tailoring, evaluate_pilot, final_ml_score, evaluate_ml_score, evaluate_deployment,
  evaluate_operations, evaluate_responsibility,
}

unfoldable pub scale_findings :
    UseCase → GovernanceStatus → Option DeliveryPackage → ScaleFields → List ScaleReadinessFinding
unfolding read_tailoring evaluate_tailoring evaluate_pilot evaluate_ml_score evaluate_deployment
    evaluate_operations evaluate_responsibility
scale_findings u g handed e =
    evaluate_tailoring g (read_tailoring e.scale_tailoring_level)
    ++ evaluate_pilot u e
    ++ evaluate_ml_score e
    ++ evaluate_deployment handed e
    ++ evaluate_operations (read_tailoring e.scale_tailoring_level) e
    ++ evaluate_responsibility u g (read_tailoring e.scale_tailoring_level) e

unfoldable pub evaluate_scale_readiness :
    UseCase → GovernanceStatus → Option DeliveryPackage → ScaleFields → ScaleReadinessResult
unfolding scale_findings final_ml_score read_tailoring
evaluate_scale_readiness u g handed e =
    result_of (scale_findings u g handed e) (final_ml_score e)
      (read_tailoring e.scale_tailoring_level)
