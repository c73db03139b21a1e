-- ===== src/UseCases/ScaleReadiness/Findings.antt =====
-- ki_radar/use_cases/scale_readiness.py: findings and the result they give.
use ki_use_case_radar.Common.{
  Bool, true, false, Option, List, [], ◌∷◌, map, any, filter, if◌then◌else◌, ℤ,
}
use ki_use_case_radar.Governance.Model.{ReviewType}
use ki_use_case_radar.UseCases.ScaleReadiness.Evidence.{Tailoring, MlScore}

pub data Dimension : Type 0 where
  pilot_evidence data_and_knowledge quality deployment monitoring responsibility : Dimension

pub data Severity : Type 0 where
  blocker condition : Severity

-- The codes. A code that the source composes has the part that varies as its argument.
pub data Code : Type 0 where
  governance_failed governance_open governance_conditional : ReviewType → Code
  tailoring_missing tailoring_too_low : Code
  pilot_target_not_achieved pilot_validation_not_confirmed : Code
  ml_score_missing ml_score_invalid : MlScore → Code
  ml_score_minimum_missing ml_score_minimum_invalid ml_score_below_minimum : Code
  ml_score_version_missing ml_score_evidence_missing ml_score_date_missing : Code
  ml_score_mandatory_check_failed ml_score_core_checks_open : Code
  delivery_handover_missing production_version_missing rollback_not_tested : Code
  operations_evidence_missing technical_monitoring_missing ai_quality_monitoring_missing : Code
  incident_process_missing : Code
  business_owner_missing technical_owner_missing support_responsibility_missing : Code
  human_oversight_missing extended_controls_missing : Code

-- `ScaleReadinessFinding`, less its message.
pub record ScaleReadinessFinding : Type 0 where
  pub code : Code
  pub dimension : Dimension
  pub severity : Severity

abbrev pub finding : Code → Dimension → Severity → ScaleReadinessFinding
finding c d s = record { code = c; dimension = d; severity = s }

pub data ReadinessState : Type 0 where
  ready conditional not_ready : ReadinessState

pub record ScaleReadinessDimension : Type 0 where
  pub key : Dimension
  pub state : ReadinessState
  pub findings : List ScaleReadinessFinding

pub record ScaleReadinessResult : Type 0 where
  pub state : ReadinessState
  pub dimensions : List ScaleReadinessDimension
  pub findings : List ScaleReadinessFinding
  pub final_ml_score : Option ℤ
  pub tailoring_level : Option Tailoring

abbrev pub is_blocker : ScaleReadinessFinding → Bool
is_blocker f = elim f.severity [ blocker ↦ true | condition ↦ false ]

abbrev pub is_condition : ScaleReadinessFinding → Bool
is_condition f = elim f.severity [ blocker ↦ false | condition ↦ true ]

abbrev pub dimension_eq : Dimension → Dimension → Bool
dimension_eq pilot_evidence pilot_evidence = true
dimension_eq data_and_knowledge data_and_knowledge = true
dimension_eq quality quality = true
dimension_eq deployment deployment = true
dimension_eq monitoring monitoring = true
dimension_eq responsibility responsibility = true
dimension_eq _ _ = false

abbrev pub state_of : List ScaleReadinessFinding → ReadinessState
state_of findings =
    if any is_blocker findings
    then not_ready
    else if any is_condition findings
    then conditional
    else ready

abbrev pub dimension_of : List ScaleReadinessFinding → Dimension → ScaleReadinessDimension
dimension_of findings key =
    let mine = filter (λ (f : ScaleReadinessFinding). dimension_eq f.dimension key) findings in
    record { key = key; state = state_of mine; findings = mine }

-- `dimension_labels`
abbrev pub all_dimensions : List Dimension
all_dimensions =
    pilot_evidence ∷ data_and_knowledge ∷ quality ∷ deployment ∷ monitoring ∷ responsibility ∷ []

abbrev pub result_of :
    List ScaleReadinessFinding → Option ℤ → Option Tailoring → ScaleReadinessResult
result_of findings score tailoring = record {
  state = state_of findings;
  dimensions = map (dimension_of findings) all_dimensions;
  findings = findings;
  final_ml_score = score;
  tailoring_level = tailoring;
}

-- `ScaleReadinessResult.blockers` and `conditions`
abbrev pub blockers : ScaleReadinessResult → List ScaleReadinessFinding
blockers r = filter is_blocker r.findings

abbrev pub conditions : ScaleReadinessResult → List ScaleReadinessFinding
conditions r = filter is_condition r.findings
