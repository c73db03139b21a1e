-- ===== src/UseCases/Model.antt =====
-- ki_radar/use_cases/models.py: `UseCase` and the properties computed from it.
pub mod Metric
use ki_use_case_radar.Common.{
  ℕ, Bool, true, false, ◌&&◌, ◌||◌, not, Option, none, some, List, [], ◌∷◌, Text, truthy, ℤ, leb_ℤ,
  ◌-ℤ◌, if◌then◌else◌, is_none, leb, length, filter, all,
}

pub data Status : Type 0 where
  idea review pilot operation ended : Status

pub data DecisionStatus : Type 0 where
  clarification ready deferred approved approved_with_conditions not_pursued : DecisionStatus

pub data Level : Type 0 where
  low medium high : Level

-- `blank=True`: the empty choice is `none`.
pub data MetricType : Type 0 where
  number percent duration currency count rating : MetricType

pub data MetricDirection : Type 0 where
  lower higher : MetricDirection

pub data MetricResult : Type 0 where
  not_defined not_measured achieved not_achieved : MetricResult

-- The fields that the modelled operations read or write. Foreign keys are primary keys, dates are
-- day numbers, the metric's decimals count units of 10^-4 and the costs' of 10^-2.
pub record UseCase : Type 0 where
  pub pk : ℕ
  pub short_id : Text
  pub title : Text
  pub problem_statement : Text
  pub business_unit : ℕ
  pub affected_process : Text
  pub business_owner : ℕ
  pub technical_owner : Option ℕ
  pub status : Status
  pub decision_status : DecisionStatus
  pub next_review_date : Option ℕ
  pub pilot_start : Option ℕ
  pub planned_pilot_end : Option ℕ
  pub actual_end_date : Option ℕ
  pub data_sources : Text
  pub expected_benefit : Text
  pub metric_name : Text
  pub metric_type : Option MetricType
  pub metric_direction : Option MetricDirection
  pub metric_unit : Text
  pub metric_baseline : Option ℤ
  pub metric_target : Option ℤ
  pub metric_actual : Option ℤ
  pub metric_measurement_method : Text
  pub metric_measurement_period : Text
  pub metric_measured_at : Option ℕ
  pub metric_evidence_url : Text
  pub one_time_cost : Option ℤ
  pub recurring_cost : Option ℤ
  pub business_value : Level
  pub technical_feasibility : Level
  pub data_readiness : Level
  pub risk_complexity : Level
  pub privacy_review_required : Bool
  pub security_review_required : Bool
  pub legal_review_required : Bool
  pub privacy_review_completed : Bool
  pub security_review_completed : Bool
  pub legal_review_completed : Bool
  pub human_oversight : Text
  pub support_responsibility : Text
  pub ending_reason : Text
  pub final_assessment : Text
  pub lessons_learned : Text
  pub data_and_access_handling : Text
  pub replacement_solution : Text
  pub is_archived : Bool

abbrev pub status_eq : Status → Status → Bool
status_eq idea idea = true
status_eq review review = true
status_eq pilot pilot = true
status_eq operation operation = true
status_eq ended ended = true
status_eq _ _ = false

abbrev pub decision_status_eq : DecisionStatus → DecisionStatus → Bool
decision_status_eq clarification clarification = true
decision_status_eq ready ready = true
decision_status_eq deferred deferred = true
decision_status_eq approved approved = true
decision_status_eq approved_with_conditions approved_with_conditions = true
decision_status_eq not_pursued not_pursued = true
decision_status_eq _ _ = false

abbrev pub is_low : Level → Bool
is_low low = true
is_low _ = false

abbrev pub is_high : Level → Bool
is_high high = true
is_high _ = false

-- `metric_actual <= metric_target` for LOWER, `>=` for every other direction
abbrev pub reaches_target : Option MetricDirection → ℤ → ℤ → Bool
reaches_target (some lower) actual target = leb_ℤ actual target
reaches_target _ actual target = leb_ℤ target actual

abbrev pub result_of_values : Option MetricDirection → Option ℤ → Option ℤ → MetricResult
result_of_values direction none actual = not_defined
result_of_values direction (some target) none = not_measured
result_of_values direction (some target) (some actual) =
    if reaches_target direction actual target then achieved else not_achieved

unfoldable pub metric_result : UseCase → MetricResult
metric_result u =
    if not (truthy u.metric_name && not (is_none u.metric_direction))
    then not_defined
    else result_of_values u.metric_direction u.metric_target u.metric_actual

abbrev pub difference : Option ℤ → Option ℤ → Option ℤ
difference (some actual) (some baseline) = some (actual -ℤ baseline)
difference _ _ = none

unfoldable pub metric_delta : UseCase → Option ℤ
metric_delta u = difference u.metric_actual u.metric_baseline

pub data Recommendation : Type 0 where
  further_clarification prefer_review hold_for_now : Recommendation

abbrev pub high_positive : UseCase → ℕ
high_positive u =
    length (filter is_high (u.business_value ∷ u.technical_feasibility ∷ u.data_readiness ∷ []))

unfoldable pub recommendation : UseCase → Recommendation
recommendation u =
    if is_high u.risk_complexity || is_low u.data_readiness
    then further_clarification
    else if leb 2 (high_positive u) && not (is_high u.risk_complexity)
    then prefer_review
    else hold_for_now

-- `UseCase.save`: a review that is not required is never stored as completed.
unfoldable pub save : UseCase → UseCase
save u = record u {
  privacy_review_completed = u.privacy_review_required && u.privacy_review_completed;
  security_review_completed = u.security_review_required && u.security_review_completed;
  legal_review_completed = u.legal_review_required && u.legal_review_completed;
}
