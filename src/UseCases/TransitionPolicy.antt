-- ===== src/UseCases/TransitionPolicy.antt =====
-- ki_radar/use_cases/transition_policy.py: which lifecycle command is allowed, to whom, and when.
use ki_use_case_radar.Common.{
  ℕ, Bool, true, false, not, Option, none, some, List, [], ◌∷◌, ◌++◌, map, Text, truthy, strip,
  has_text, codes, text_eq, casefold, if◌then◌else◌, is_none, any, is_empty, when, ltb, Result, ok,
  err, ◌>>◌, raise_if, require,
}
use ki_use_case_radar.Clock.{Clock, today, date_of}
use ki_use_case_radar.Accounts.{User, is_coordinator}
use ki_use_case_radar.UseCases.Model.{
  Status, idea, review, pilot, operation, ended, DecisionStatus, approved, approved_with_conditions,
  UseCase, not_achieved, MetricResult, metric_result, status_eq,
}
use ki_use_case_radar.UseCases.Permissions.{can_start_pilot, can_end_use_case}
use ki_use_case_radar.Governance.Status.{
  GovernanceBlocker, has_screening, required_governance_blockers,
}
use ki_use_case_radar.Delivery.Model.{DeliveryPackage}
use ki_use_case_radar.Delivery.Handover.{recorded_handover_package}
use ki_use_case_radar.Reviews.Model.{
  Decision, start_review, continue, start_pilot, go_live, pause, rework, return, end,
  unknown_decision,
}
use ki_use_case_radar.CaseFile.{CaseFile, governance_of}

pub record TransitionRule : Type 0 where
  pub sources : List Status
  pub target : Option Status
  pub changes_status : Bool

-- A value of the evidence dictionary at a key that the policy reads: absent, a flag or a text.
pub data EvidenceValue : Type 0 where
  absent : EvidenceValue
  flag : Bool → EvidenceValue
  text : Text → EvidenceValue

pub record ScaleEvidence : Type 0 where
  pub ml_score_failed_mandatory_checks : EvidenceValue
  pub scale_rollback_tested : EvidenceValue

-- The labels of the blockers that the policy collects.
pub data PolicyBlocker : Type 0 where
  final_approval handover screening : PolicyBlocker
  governance : GovernanceBlocker → PolicyBlocker
  metric_name_label metric_direction_label metric_target_label : PolicyBlocker
  metric_actual_label metric_measured_at_label : PolicyBlocker
  pilot_begin measured_before_pilot mandatory_check_failed rollback_untested : PolicyBlocker
  technical_owner_label support_label : PolicyBlocker

-- The exceptions of the module. `attribute_error` is the access to an attribute of None.
pub data PolicyError : Type 0 where
  return_abolished unknown_command source_not_allowed wrong_target : PolicyError
  coordinator_required pilot_starter_required ender_required : PolicyError
  pilot_blocked go_live_blocked : List PolicyBlocker → PolicyError
  pilot_start_missing pilot_start_in_future pilot_start_before_handover : PolicyError
  exception_required exception_rationale_required attribute_error : PolicyError

abbrev pub stays_in_phase : TransitionRule
stays_in_phase = record {
  sources = review ∷ pilot ∷ operation ∷ [];
  target = none;
  changes_status = false;
}

-- COMMAND_RULES
unfoldable pub command_rule : Decision → Option TransitionRule
command_rule start_review =
    some (record { sources = idea ∷ []; target = some review; changes_status = true })
command_rule start_pilot =
    some (record { sources = review ∷ []; target = some pilot; changes_status = true })
command_rule go_live =
    some (record { sources = pilot ∷ []; target = some operation; changes_status = true })
command_rule end =
    some (record { sources = pilot ∷ operation ∷ []; target = some ended; changes_status = true })
command_rule continue = some stays_in_phase
command_rule pause = some stays_in_phase
command_rule rework = some stays_in_phase
command_rule return = none
command_rule unknown_decision = none

abbrev pub is_return : Decision → Bool
is_return return = true
is_return _ = false

-- `rule.target if rule.changes_status else use_case.status`, and the comparison with it
abbrev pub is_expected_target : TransitionRule → Status → Status → Bool
is_expected_target rule status target =
    if rule.changes_status
    then elim rule.target [ none ↦ false | some expected ↦ status_eq target expected ]
    else status_eq target status

abbrev pub check_rule : Option TransitionRule → Status → Status → Result PolicyError (Unit {0})
check_rule none status target = err unknown_command
check_rule (some rule) status target =
    require (any (status_eq status) rule.sources) source_not_allowed
    >> require (is_expected_target rule status target) wrong_target

unfoldable pub validate_transition_shape :
    UseCase → Decision → Status → Result PolicyError (Unit {0})
unfolding command_rule
validate_transition_shape use_case decision target_status =
    raise_if (is_return decision) return_abolished
    >> check_rule (command_rule decision) use_case.status target_status

unfoldable pub validate_actor : UseCase → Decision → User → Result PolicyError (Unit {0})
unfolding is_coordinator can_start_pilot can_end_use_case
validate_actor use_case start_pilot actor =
    require (can_start_pilot actor use_case) pilot_starter_required
validate_actor use_case end actor = require (can_end_use_case actor use_case) ender_required
validate_actor use_case return actor = ok tt
validate_actor use_case unknown_decision actor = ok tt
validate_actor use_case _ actor = require (is_coordinator actor) coordinator_required

-- `use_case.decision_status in APPROVED_DECISION_STATUSES`
abbrev pub is_approved : DecisionStatus → Bool
is_approved approved = true
is_approved approved_with_conditions = true
is_approved _ = false

module _ (clock : Clock) (file : CaseFile) where
  abbrev pub governance_blockers : List PolicyBlocker
  governance_blockers = map governance (required_governance_blockers (governance_of file))

  abbrev pub pilot_blockers : List PolicyBlocker
  pilot_blockers =
      when (not (is_approved file.use_case.decision_status)) final_approval
      ++ when (is_none (recorded_handover_package file.delivery_packages)) handover
      ++ when (not (has_screening (governance_of file))) screening
      ++ governance_blockers

  -- The checks of `validate_pilot_start` behind the blockers.
  abbrev pub check_pilot_date : Option DeliveryPackage → Option ℕ → Result PolicyError (Unit {0})
  check_pilot_date handed none = err pilot_start_missing
  check_pilot_date none (some day) =
      raise_if (ltb (today clock) day) pilot_start_in_future >> err attribute_error
  check_pilot_date (some p) (some day) =
      raise_if (ltb (today clock) day) pilot_start_in_future
      >> raise_if (ltb day (date_of clock p.handed_over_at)) pilot_start_before_handover

  unfoldable pub validate_pilot_start : Option ℕ → Result PolicyError (Unit {0})
  validate_pilot_start pilot_start =
      raise_if (not (is_empty pilot_blockers)) (pilot_blocked pilot_blockers)
      >> check_pilot_date (recorded_handover_package file.delivery_packages) pilot_start

-- `bool(_text(value))`; the text of a true flag is "True"
unfoldable pub evidence_text : EvidenceValue → Bool
unfolding has_text
evidence_text absent = false
evidence_text (flag b) = b
evidence_text (text t) = has_text t

-- `_bool`
unfoldable pub evidence_bool : EvidenceValue → Bool
unfolding strip
evidence_bool absent = false
evidence_bool (flag b) = b
evidence_bool (text t) =
    any (text_eq (casefold (strip t))) (codes "1" ∷ codes "true" ∷ codes "yes" ∷ codes "on" ∷ [])

-- `evidence or {}`
abbrev pub evidence_or_empty : Option ScaleEvidence → ScaleEvidence
evidence_or_empty none = record {
  ml_score_failed_mandatory_checks = absent;
  scale_rollback_tested = absent;
}
evidence_or_empty (some e) = e

abbrev pub pilot_order_blocker : Option ℕ → Option ℕ → List PolicyBlocker
pilot_order_blocker none measured = pilot_begin ∷ []
pilot_order_blocker (some start) none = []
pilot_order_blocker (some start) (some day) = when (ltb day start) measured_before_pilot

-- `getattr(use_case, field_name) in (None, "")` for the five core fields
abbrev pub core_blockers : UseCase → List PolicyBlocker
core_blockers u =
    when (not (truthy u.metric_name)) metric_name_label
    ++ when (is_none u.metric_direction) metric_direction_label
    ++ when (is_none u.metric_target) metric_target_label
    ++ when (is_none u.metric_actual) metric_actual_label
    ++ when (is_none u.metric_measured_at) metric_measured_at_label

abbrev pub go_live_blockers : CaseFile → ScaleEvidence → List PolicyBlocker
go_live_blockers file data' =
    core_blockers file.use_case
    ++ pilot_order_blocker file.use_case.pilot_start file.use_case.metric_measured_at
    ++ map governance (required_governance_blockers (governance_of file))
    ++ when (evidence_text data'.ml_score_failed_mandatory_checks) mandatory_check_failed
    ++ when (not (evidence_bool data'.scale_rollback_tested)) rollback_untested
    ++ when (is_none file.use_case.technical_owner) technical_owner_label
    ++ when (not (has_text file.use_case.support_responsibility)) support_label

abbrev pub is_not_achieved : MetricResult → Bool
is_not_achieved not_achieved = true
is_not_achieved _ = false

unfoldable pub validate_go_live :
    CaseFile → Option ScaleEvidence → Bool → Text → Result PolicyError (Unit {0})
validate_go_live file evidence exception_confirmed rationale =
    let blockers = go_live_blockers file (evidence_or_empty evidence) in
    raise_if (not (is_empty blockers)) (go_live_blocked blockers)
    >> (if is_not_achieved (metric_result file.use_case)
        then require exception_confirmed exception_required
          >> require (has_text rationale) exception_rationale_required
        else ok tt)

-- The arguments of a command beside the use case and the actor.
pub record Command : Type 0 where
  pub decision : Decision
  pub target_status : Status
  pub pilot_start : Option ℕ
  pub scale_evidence : Option ScaleEvidence
  pub go_live_exception_confirmed : Bool
  pub rationale : Text

-- The last step of `validate_review_command`, by the decision.
abbrev pub validate_gate : Clock → CaseFile → Command → Decision → Result PolicyError (Unit {0})
validate_gate clock file c start_pilot = validate_pilot_start clock file c.pilot_start
validate_gate clock file c go_live =
    validate_go_live file c.scale_evidence c.go_live_exception_confirmed c.rationale
validate_gate clock file c _ = ok tt

unfoldable pub validate_review_command :
    Clock → CaseFile → User → Command → Result PolicyError (Unit {0})
validate_review_command clock file actor c =
    validate_transition_shape file.use_case c.decision c.target_status
    >> validate_actor file.use_case c.decision actor
    >> validate_gate clock file c c.decision
