-- ===== src/UseCases/ScaleReadiness/Snapshot.antt =====
-- ki_radar/use_cases/scale_readiness.py: the snapshot of an evaluation that a review keeps.
use ki_use_case_radar.Common.{
  ℕ, zero, suc, codes, ◌⊎◌, ◌≡◌, ◌↔◌, refl, Bool, true, false, Option, none, some, List, [], map,
  Text, strip, ℤ, pos, negsuc, eq_ℤ, if◌then◌else◌, arith, inl, inr,
}
use ki_use_case_radar.Clock.{Clock}
use ki_use_case_radar.UseCases.Model.{UseCase, MetricResult, metric_result}
use ki_use_case_radar.UseCases.TransitionPolicy.{EvidenceValue, absent, flag, text, evidence_bool}
use ki_use_case_radar.Governance.Model.{GovernanceReview}
use ki_use_case_radar.Delivery.Model.{DeliveryPackage}
use ki_use_case_radar.UseCases.ScaleReadiness.Evidence.{
  Tailoring, ScaleFields, MlScore, score_value, decimal_of,
}
use ki_use_case_radar.UseCases.ScaleReadiness.Findings.{
  ScaleReadinessFinding, ScaleReadinessDimension, ScaleReadinessResult, ReadinessState, Dimension,
}

-- `str(decimal or "")`: `none` is the empty text. A decimal that is zero is false.
abbrev pub score_text : Option ℤ → Option ℤ
score_text none = none
score_text (some v) = if eq_ℤ v (pos 0) then none else some v

-- `_text(value)`; the text of a true flag is "True".
unfoldable pub text_value : EvidenceValue → Text
text_value absent = []
text_value (flag true) = codes "True"
text_value (flag false) = []
text_value (text t) = strip t

pub record ScoreSnapshot : Type 0 where
  pub score_of : MlScore → Option ℤ
  pub final : Option ℤ
  pub minimum : Option ℤ
  pub version : Text
  pub date : Option ℕ
  pub evidence_url : Text
  pub open_core_checks : Text
  pub failed_mandatory_checks : Text

pub record PilotSnapshot : Type 0 where
  pub use_case_id : ℕ
  pub pilot_start : Option ℕ
  pub metric : MetricResult
  pub metric_measured_at : Option ℕ
  pub metric_evidence_url : Text
  pub validation_confirmed : Bool

pub record DeliverySnapshot : Type 0 where
  pub package_id : Option ℕ
  pub package_version : Option ℕ
  pub handed_over_at : Option ℕ
  pub production_version : Text
  pub operations_evidence_url : Text

pub record OperationsSnapshot : Type 0 where
  pub rollback_tested : Bool
  pub technical_monitoring_ready : Bool
  pub ai_quality_monitoring_ready : Bool
  pub incident_process_ready : Bool
  pub extended_controls_completed : Bool

-- The dictionary, less the names of the roles, the messages and the references of the reviews.
pub record ScaleSnapshot : Type 0 where
  pub captured_at : ℕ
  pub state : ReadinessState
  pub tailoring_level : Option Tailoring
  pub dimensions : List (Dimension × ReadinessState)
  pub pilot : PilotSnapshot
  pub delivery : DeliverySnapshot
  pub ml_test_score : ScoreSnapshot
  pub operations : OperationsSnapshot
  pub governance_reviews : List GovernanceReview
  pub business_owner_id : ℕ
  pub technical_owner_id : Option ℕ
  pub findings : List ScaleReadinessFinding

unfoldable pub delivery_snapshot : Option DeliveryPackage → ScaleFields → DeliverySnapshot
unfolding text_value
delivery_snapshot none e = record {
  package_id = none;
  package_version = none;
  handed_over_at = none;
  production_version = text_value e.scale_production_version;
  operations_evidence_url = text_value e.scale_evidence_url;
}
delivery_snapshot (some p) e = record {
  package_id = some p.pk;
  package_version = some p.version;
  handed_over_at = p.handed_over_at;
  production_version = text_value e.scale_production_version;
  operations_evidence_url = text_value e.scale_evidence_url;
}

abbrev pub score_snapshot : ScaleFields → Option ℤ → ScoreSnapshot
score_snapshot e final = record {
  score_of = λ m. score_text (decimal_of (score_value e m));
  final = score_text final;
  minimum = score_text (decimal_of e.ml_score_minimum);
  version = text_value e.ml_score_version;
  date = e.ml_score_date;
  evidence_url = text_value e.ml_score_evidence_url;
  open_core_checks = text_value e.ml_score_open_core_checks;
  failed_mandatory_checks = text_value e.ml_score_failed_mandatory_checks;
}

-- `evidence` are the formal reviews in the order of `governance_review_evidence`.
unfoldable pub build_scale_readiness_snapshot :
    Clock
    → UseCase
    → Option DeliveryPackage
    → List GovernanceReview
    → ScaleFields
    → ScaleReadinessResult
    → ScaleSnapshot
unfolding delivery_snapshot
build_scale_readiness_snapshot clock u handed evidence e r = record {
  captured_at = clock.now;
  state = r.state;
  tailoring_level = r.tailoring_level;
  dimensions = map (λ (d : ScaleReadinessDimension). (d.key, d.state)) r.dimensions;
  pilot = record {
    use_case_id = u.pk;
    pilot_start = u.pilot_start;
    metric = metric_result u;
    metric_measured_at = u.metric_measured_at;
    metric_evidence_url = u.metric_evidence_url;
    validation_confirmed = evidence_bool e.scale_pilot_validation_confirmed;
  };
  delivery = delivery_snapshot handed e;
  ml_test_score = score_snapshot e r.final_ml_score;
  operations = record {
    rollback_tested = evidence_bool e.scale_rollback_tested;
    technical_monitoring_ready = evidence_bool e.scale_technical_monitoring_ready;
    ai_quality_monitoring_ready = evidence_bool e.scale_ai_quality_monitoring_ready;
    incident_process_ready = evidence_bool e.scale_incident_process_ready;
    extended_controls_completed = evidence_bool e.scale_extended_controls_completed;
  };
  governance_reviews = evidence;
  business_owner_id = u.business_owner;
  technical_owner_id = u.technical_owner;
  findings = r.findings;
}

abbrev pub IsZero : Option ℤ → Type 0
IsZero o = o ≡ some (pos 0)

score_text-none_iff : (o : Option ℤ) → (score_text o ≡ none) ↔ ((o ≡ none) ⊎ IsZero o)
score_text-none_iff none = ((λ h. inl refl), λ h. refl)
score_text-none_iff (some (pos zero)) = ((λ h. inr refl), λ h. refl)
score_text-none_iff (some (pos (suc n))) =
    ((λ h. absurd (ground arith)), λ h. elim h [ inl e ↦ cc | inr e ↦ cc ])
score_text-none_iff (some (negsuc n)) =
    ((λ h. absurd (ground arith)), λ h. elim h [ inl e ↦ cc | inr e ↦ cc ])

-- The entry of a score in the snapshot is empty exactly if the evidence has no readable score, or if
-- the score is zero.
pub build_scale_readiness_snapshot-score_iff :
    (clock : Clock) (u : UseCase) (handed : Option DeliveryPackage)
    (evidence : List GovernanceReview) (e : ScaleFields) (r : ScaleReadinessResult) (m : MlScore)
    → let s = build_scale_readiness_snapshot clock u handed evidence e r in
      (s.ml_test_score.score_of m ≡ none)
      ↔ ((decimal_of (score_value e m) ≡ none) ⊎ IsZero (decimal_of (score_value e m)))
unfolding build_scale_readiness_snapshot
build_scale_readiness_snapshot-score_iff clock u handed evidence e r m =
    score_text-none_iff (decimal_of (score_value e m))
