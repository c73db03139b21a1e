-- ===== src/UseCases/Fields.antt =====
-- ki_radar/use_cases/services.py: the fields that a check may find missing.
use ki_use_case_radar.Common.{Bool, false, not, List, [], ◌∷◌, filter, truthy, is_none}
use ki_use_case_radar.UseCases.Model.{UseCase}

-- The keys of FIELD_LABELS that the checks read, and `business_unit`.
pub data FieldName : Type 0 where
  title_field problem_statement_field business_unit_field affected_process_field : FieldName
  business_owner_field technical_owner_field next_review_date_field : FieldName
  planned_pilot_end_field data_sources_field expected_benefit_field : FieldName
  metric_name_field metric_type_field metric_direction_field metric_unit_field : FieldName
  metric_baseline_field metric_target_field metric_actual_field : FieldName
  metric_measurement_method_field metric_measurement_period_field : FieldName
  metric_measured_at_field metric_evidence_url_field : FieldName
  one_time_cost_field recurring_cost_field human_oversight_field : FieldName

-- `getattr(use_case, field_name) in (None, "")`
unfoldable pub is_missing : UseCase → FieldName → Bool
is_missing u title_field = not (truthy u.title)
is_missing u problem_statement_field = not (truthy u.problem_statement)
is_missing u business_unit_field = false
is_missing u affected_process_field = not (truthy u.affected_process)
is_missing u business_owner_field = false
is_missing u technical_owner_field = is_none u.technical_owner
is_missing u next_review_date_field = is_none u.next_review_date
is_missing u planned_pilot_end_field = is_none u.planned_pilot_end
is_missing u data_sources_field = not (truthy u.data_sources)
is_missing u expected_benefit_field = not (truthy u.expected_benefit)
is_missing u metric_name_field = not (truthy u.metric_name)
is_missing u metric_type_field = is_none u.metric_type
is_missing u metric_direction_field = is_none u.metric_direction
is_missing u metric_unit_field = not (truthy u.metric_unit)
is_missing u metric_baseline_field = is_none u.metric_baseline
is_missing u metric_target_field = is_none u.metric_target
is_missing u metric_actual_field = is_none u.metric_actual
is_missing u metric_measurement_method_field = not (truthy u.metric_measurement_method)
is_missing u metric_measurement_period_field = not (truthy u.metric_measurement_period)
is_missing u metric_measured_at_field = is_none u.metric_measured_at
is_missing u metric_evidence_url_field = not (truthy u.metric_evidence_url)
is_missing u one_time_cost_field = is_none u.one_time_cost
is_missing u recurring_cost_field = is_none u.recurring_cost
is_missing u human_oversight_field = not (truthy u.human_oversight)

-- `_missing_fields`
unfoldable pub missing_fields : UseCase → List FieldName → List FieldName
unfolding is_missing
missing_fields u = filter (is_missing u)

-- BASE_REQUIREMENTS[PILOT] and PILOT_METRIC_REQUIREMENTS
abbrev pub pilot_requirements : List FieldName
pilot_requirements =
    data_sources_field ∷ next_review_date_field ∷ planned_pilot_end_field ∷ metric_name_field
    ∷ metric_type_field ∷ metric_direction_field ∷ metric_unit_field ∷ metric_baseline_field
    ∷ metric_target_field ∷ metric_measurement_method_field ∷ []

abbrev pub intake_requirements : List FieldName
intake_requirements = title_field ∷ business_unit_field ∷ business_owner_field ∷ []

abbrev pub approval_metric_requirements : List FieldName
approval_metric_requirements = metric_baseline_field ∷ metric_target_field ∷ []

-- POSITIVE_APPROVAL_CORE_REQUIREMENTS
abbrev pub approval_core_requirements : List FieldName
approval_core_requirements =
    title_field ∷ problem_statement_field ∷ affected_process_field ∷ business_owner_field
    ∷ expected_benefit_field ∷ []

abbrev pub go_live_core_requirements : List FieldName
go_live_core_requirements =
    metric_name_field ∷ metric_direction_field ∷ metric_target_field ∷ metric_actual_field
    ∷ metric_measured_at_field ∷ []

abbrev pub intake_blockers : UseCase → List FieldName
intake_blockers u = missing_fields u intake_requirements
