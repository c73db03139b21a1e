-- ===== src/UseCases/ScaleReadiness/Evidence.antt =====
-- ki_radar/use_cases/scale_readiness.py: the nineteen values of the evidence and how they are read.
use ki_use_case_radar.Common.{
  ℕ, ◌-◌, ◌&&◌, Option, none, some, List, [], ◌∷◌, map, Text, strip, codes, text_eq, leb,
  if◌then◌else◌, ℤ,
}
use ki_use_case_radar.UseCases.TransitionPolicy.{EvidenceValue, absent, text, ScaleEvidence}

pub data Tailoring : Type 0 where
  level_a level_b level_c : Tailoring

-- TAILORING_ORDER
abbrev pub tailoring_order : Tailoring → ℕ
tailoring_order level_a = 1
tailoring_order level_b = 2
tailoring_order level_c = 3

-- A score of the evidence: none or empty, a text that is no decimal, or a finite decimal in
-- hundredths.
pub data ScoreValue : Type 0 where
  no_score unreadable_score : ScoreValue
  score : ℤ → ScoreValue

-- `_decimal`
abbrev pub decimal_of : ScoreValue → Option ℤ
decimal_of no_score = none
decimal_of unreadable_score = none
decimal_of (score v) = some v

-- SCALE_EVIDENCE_FIELDS. The date is a day or absent.
pub record ScaleFields : Type 0 where
  pub scale_tailoring_level : EvidenceValue
  pub scale_pilot_validation_confirmed : EvidenceValue
  pub scale_production_version : EvidenceValue
  pub scale_rollback_tested : EvidenceValue
  pub scale_technical_monitoring_ready : EvidenceValue
  pub scale_ai_quality_monitoring_ready : EvidenceValue
  pub scale_incident_process_ready : EvidenceValue
  pub scale_extended_controls_completed : EvidenceValue
  pub scale_evidence_url : EvidenceValue
  pub ml_score_data_value : ScoreValue
  pub ml_score_model_value : ScoreValue
  pub ml_score_infrastructure_value : ScoreValue
  pub ml_score_monitoring_value : ScoreValue
  pub ml_score_minimum : ScoreValue
  pub ml_score_version : EvidenceValue
  pub ml_score_date : Option ℕ
  pub ml_score_evidence_url : EvidenceValue
  pub ml_score_open_core_checks : EvidenceValue
  pub ml_score_failed_mandatory_checks : EvidenceValue

-- `scale_evidence_from_mapping`: without evidence every value is absent.
abbrev pub scale_evidence_from_mapping : Option ScaleFields → ScaleFields
scale_evidence_from_mapping (some e) = e
scale_evidence_from_mapping none = record {
  scale_tailoring_level = absent;
  scale_pilot_validation_confirmed = absent;
  scale_production_version = absent;
  scale_rollback_tested = absent;
  scale_technical_monitoring_ready = absent;
  scale_ai_quality_monitoring_ready = absent;
  scale_incident_process_ready = absent;
  scale_extended_controls_completed = absent;
  scale_evidence_url = absent;
  ml_score_data_value = no_score;
  ml_score_model_value = no_score;
  ml_score_infrastructure_value = no_score;
  ml_score_monitoring_value = no_score;
  ml_score_minimum = no_score;
  ml_score_version = absent;
  ml_score_date = none;
  ml_score_evidence_url = absent;
  ml_score_open_core_checks = absent;
  ml_score_failed_mandatory_checks = absent;
}

-- The two values that the lifecycle policy reads of the same mapping.
abbrev pub policy_evidence : ScaleFields → ScaleEvidence
policy_evidence e = record {
  ml_score_failed_mandatory_checks = e.ml_score_failed_mandatory_checks;
  scale_rollback_tested = e.scale_rollback_tested;
}

-- The part of `str.upper` that yields A, B or C.
abbrev pub upper_char : ℕ → ℕ
upper_char c = if leb 97 c && leb c 122 then c - 32 else c

abbrev pub upper : Text → Text
upper = map upper_char

abbrev pub tailoring_of : Text → Option Tailoring
tailoring_of t =
    if text_eq t (codes "A")
    then some level_a
    else if text_eq t (codes "B")
    then some level_b
    else if text_eq t (codes "C")
    then some level_c
    else none

-- `_text(value).upper()` if that is one of the levels; a true flag reads "TRUE".
unfoldable pub read_tailoring : EvidenceValue → Option Tailoring
unfolding strip
read_tailoring (text t) = tailoring_of (upper (strip t))
read_tailoring _ = none

-- The names of ML_SCORE_FIELDS, in their order.
pub data MlScore : Type 0 where
  ml_score_data ml_score_model ml_score_infrastructure ml_score_monitoring : MlScore

abbrev pub ml_score_fields : List MlScore
ml_score_fields =
    ml_score_data ∷ ml_score_model ∷ ml_score_infrastructure ∷ ml_score_monitoring ∷ []

-- `data.get(field_name)`
abbrev pub score_value : ScaleFields → MlScore → ScoreValue
score_value e ml_score_data = e.ml_score_data_value
score_value e ml_score_model = e.ml_score_model_value
score_value e ml_score_infrastructure = e.ml_score_infrastructure_value
score_value e ml_score_monitoring = e.ml_score_monitoring_value
