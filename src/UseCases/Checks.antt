-- ===== src/UseCases/Checks.antt =====
-- ki_radar/use_cases/services.py: what is missing for the next phase, and how urgent it is.
pub mod Agreement
use ki_use_case_radar.Common.{
  ℕ, ◌+◌, ◌-◌, Bool, true, false, ◌&&◌, ◌||◌, not, Option, none, some, List, [], ◌∷◌, ◌++◌, map,
  Text, truthy, has_text, ℤ, eq_ℤ, if◌then◌else◌, is_none, is_some, or_else, is_empty, when, ltb,
  leb, Result, ok, err, ◌>>=◌, ◌>>◌, raise_if,
}
use ki_use_case_radar.Clock.{Clock, today, date_of}
use ki_use_case_radar.UseCases.Model.{
  Status, idea, review, pilot, operation, ended, status_eq, UseCase, metric_result,
}
use ki_use_case_radar.UseCases.Fields.{
  FieldName, missing_fields, pilot_requirements, go_live_core_requirements, intake_blockers,
  problem_statement_field, affected_process_field, expected_benefit_field,
  metric_measurement_period_field, metric_evidence_url_field, metric_measurement_method_field,
  one_time_cost_field, recurring_cost_field, human_oversight_field, next_review_date_field,
}
use ki_use_case_radar.UseCases.TransitionPolicy.{is_approved, is_not_achieved}
use ki_use_case_radar.Governance.Status.{
  GovernanceBlocker, has_screening, required_governance_blockers,
}
use ki_use_case_radar.Delivery.Model.{DeliveryPackage}
use ki_use_case_radar.Delivery.Handover.{recorded_handover_package}
use ki_use_case_radar.CaseFile.{CaseFile, governance_of}

pub data CheckBlocker : Type 0 where
  only_from_review handover_missing approval_missing screening_missing : CheckBlocker
  only_from_pilot pilot_begin_missing measured_too_early : CheckBlocker
  technical_owner_missing support_missing only_from_idea : CheckBlocker
  field_missing : FieldName → CheckBlocker
  review_missing : GovernanceBlocker → CheckBlocker

pub data CheckWarning : Type 0 where
  field_open : FieldName → CheckWarning
  target_is_baseline pilot_end_past target_missed pilot_end_ahead : CheckWarning
  operation_review_overdue measurement_old : CheckWarning

pub data CheckState : Type 0 where
  ready_state blocked_state review_state : CheckState

-- `DecisionCheck`, less its title.
pub record DecisionCheck : Type 0 where
  pub target_status : Status
  pub state : CheckState
  pub blockers : List CheckBlocker
  pub warnings : List CheckWarning

-- `"blocked" if blockers else ("review" if warnings else "ready")`
abbrev pub state_of : List CheckBlocker → List CheckWarning → CheckState
state_of [] [] = ready_state
state_of [] (w ∷ ws) = review_state
state_of (b ∷ bs) ws = blocked_state

abbrev pub make_check : Status → List CheckBlocker → List CheckWarning → DecisionCheck
make_check target blockers warnings = record {
  target_status = target;
  state = state_of blockers warnings;
  blockers = blockers;
  warnings = warnings;
}

-- `_readiness_warnings`
abbrev pub readiness_warnings : UseCase → List FieldName → List CheckWarning
readiness_warnings u fields = map field_open (missing_fields u fields)

abbrev pub same_value : Option ℤ → Option ℤ → Bool
same_value (some a) (some b) = eq_ℤ a b
same_value _ _ = false

-- `value and value < day`, `value and value > day`
abbrev pub is_before : Option ℕ → ℕ → Bool
is_before none day = false
is_before (some d) day = ltb d day

abbrev pub is_after : Option ℕ → ℕ → Bool
is_after none day = false
is_after (some d) day = ltb day d

abbrev pub review_blockers : CaseFile → List CheckBlocker
review_blockers f = map review_missing (required_governance_blockers (governance_of f))

unfoldable pub check_pilot_start : Clock → CaseFile → DecisionCheck
check_pilot_start clock f =
    make_check pilot
      (when (not (status_eq f.use_case.status review)) only_from_review
        ++ when (is_none (recorded_handover_package f.delivery_packages)) handover_missing
        ++ when (not (is_approved f.use_case.decision_status)) approval_missing
        ++ when (not (has_screening (governance_of f))) screening_missing
        ++ review_blockers f)
      (readiness_warnings f.use_case pilot_requirements
        ++ when (same_value f.use_case.metric_baseline f.use_case.metric_target) target_is_baseline
        ++ when (is_before f.use_case.planned_pilot_end (today clock)) pilot_end_past)

abbrev pub pilot_begin_blocker : Option ℕ → Option ℕ → List CheckBlocker
pilot_begin_blocker none measured = pilot_begin_missing ∷ []
pilot_begin_blocker (some start) measured = when (is_before measured start) measured_too_early

unfoldable pub check_go_live : Clock → CaseFile → DecisionCheck
check_go_live clock f =
    make_check operation
      (when (not (status_eq f.use_case.status pilot)) only_from_pilot
        ++ map field_missing (missing_fields f.use_case go_live_core_requirements)
        ++ pilot_begin_blocker f.use_case.pilot_start f.use_case.metric_measured_at
        ++ review_blockers f
        ++ when (is_none f.use_case.technical_owner) technical_owner_missing
        ++ when (not (has_text f.use_case.support_responsibility)) support_missing)
      (readiness_warnings f.use_case (
          metric_measurement_period_field ∷ metric_evidence_url_field
          ∷ metric_measurement_method_field ∷ one_time_cost_field ∷ recurring_cost_field
          ∷ human_oversight_field ∷ next_review_date_field ∷ [])
        ++ when (is_not_achieved (metric_result f.use_case)) target_missed
        ++ when (is_after f.use_case.planned_pilot_end (today clock)) pilot_end_ahead)

abbrev pub check_review_start : CaseFile → DecisionCheck
check_review_start f =
    make_check review
      (when (not (status_eq f.use_case.status idea)) only_from_idea
        ++ map field_missing (intake_blockers f.use_case))
      (readiness_warnings f.use_case
        (problem_statement_field ∷ affected_process_field ∷ expected_benefit_field ∷ []))

unfoldable pub decision_check_for_status : Clock → CaseFile → Status → DecisionCheck
decision_check_for_status clock f pilot = check_pilot_start clock f
decision_check_for_status clock f operation = check_go_live clock f
decision_check_for_status clock f review = check_review_start f
decision_check_for_status clock f idea = make_check idea [] []
decision_check_for_status clock f ended = make_check ended [] []

-- `measured and (today - measured).days > 180`
abbrev pub is_old : Option ℕ → ℕ → Bool
is_old none day = false
is_old (some measured) day = ltb (measured + 180) day

abbrev pub check_operation : Clock → UseCase → DecisionCheck
check_operation clock u = make_check operation [] (
    when (is_before u.next_review_date (today clock)) operation_review_overdue
    ++ when (is_old u.metric_measured_at (today clock)) measurement_old)

abbrev pub check_in : Clock → CaseFile → Status → DecisionCheck
check_in clock f idea = decision_check_for_status clock f review
check_in clock f review = check_pilot_start clock f
check_in clock f pilot = check_go_live clock f
check_in clock f operation = check_operation clock f.use_case
check_in clock f ended = make_check ended [] []

unfoldable pub current_decision_check : Clock → CaseFile → DecisionCheck
current_decision_check clock f = check_in clock f f.use_case.status

unfoldable pub decision_due_date : UseCase → Option ℕ
decision_due_date u =
    if status_eq u.status pilot
    then or_else u.planned_pilot_end u.next_review_date
    else u.next_review_date

-- `date.max`, as the ordinal of the day
abbrev pub date_max : ℕ
date_max = 3652059

abbrev pub or_max : Option ℕ → ℕ
or_max none = date_max
or_max (some d) = d

abbrev pub is_blocked : CheckState → Bool
is_blocked blocked_state = true
is_blocked _ = false

abbrev pub is_review : CheckState → Bool
is_review review_state = true
is_review _ = false

-- `due and due <= today + timedelta(days=30)`
abbrev pub is_soon : Option ℕ → ℕ → Bool
is_soon none day = false
is_soon (some d) day = leb d (day + 30)

unfoldable pub bucket : Clock → CaseFile → ℕ
bucket clock f =
    let due = decision_due_date f.use_case in
    let state = (current_decision_check clock f).state in
    if is_before due (today clock)
    then 0
    else if is_blocked state
    then 1
    else if is_soon due (today clock)
    then 2
    else if is_review state
    then 3
    else 4

unfoldable pub decision_priority : Clock → CaseFile → ℕ × ℕ × Text
decision_priority clock f =
    (bucket clock f, or_max (decision_due_date f.use_case), f.use_case.short_id)

pub data CheckError : Type 0 where
  target_blocked : List CheckBlocker → CheckError
  date_missing date_in_future no_handover before_handover transitions_disabled : CheckError

unfoldable pub validate_target_status : Clock → CaseFile → Status → Result CheckError (Unit {0})
validate_target_status clock f target =
    let check = decision_check_for_status clock f target in
    raise_if (not (is_empty check.blockers)) (target_blocked check.blockers)

abbrev pub check_handover_day : Clock → Option DeliveryPackage → ℕ → Result CheckError (Unit {0})
check_handover_day clock none day = err no_handover
check_handover_day clock (some p) day =
    raise_if (ltb day (date_of clock p.handed_over_at)) before_handover

unfoldable pub validate_pilot_start_date :
    Clock → CaseFile → Option ℕ → Result CheckError (Unit {0})
validate_pilot_start_date clock f none = err date_missing
validate_pilot_start_date clock f (some day) =
    raise_if (ltb (today clock) day) date_in_future
    >> check_handover_day clock (recorded_handover_package f.delivery_packages) day

-- The old way to change the status, which is closed.
unfoldable pub apply_status_transition : CaseFile → Status → Result CheckError CaseFile
apply_status_transition f target = err transitions_disabled
