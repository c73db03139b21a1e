-- ===== src/UseCases/Checks/Agreement.antt =====
-- How the checks agree with the policy of the lifecycle.
use ki_use_case_radar.Common.{
  ℕ, ◌≡◌, ◌↔◌, refl, ◌∙◌, Bool, true, not, ◌&&◌, ◌||◌, Option, none, some, arith, is_empty,
  emptiness, is_none, has_text, truthy, is_empty-filter, ok, ◌≤◌,
}
use ki_use_case_radar.Clock.{Clock, today}
use ki_use_case_radar.UseCases.Model.{review, pilot, status_eq, UseCase}
use ki_use_case_radar.UseCases.Fields.{is_missing, missing_fields, go_live_core_requirements}
use ki_use_case_radar.UseCases.TransitionPolicy.{
  pilot_blockers, pilot_order_blocker, is_approved, go_live_blockers, ScaleEvidence, evidence_text,
  evidence_bool, validate_pilot_start,
}
use ki_use_case_radar.UseCases.Checks.{
  check_pilot_start, check_go_live, validate_pilot_start_date, pilot_begin_blocker, bucket,
  decision_due_date, is_before, is_blocked, current_decision_check,
}
use ki_use_case_radar.Reviews.Gates.{validate_pilot_start_iff, is_empty-go_live_blockers}
use ki_use_case_radar.Governance.Status.{has_screening, required_governance_blockers}
use ki_use_case_radar.Delivery.Handover.{recorded_handover_package}
use ki_use_case_radar.CaseFile.{CaseFile, governance_of}

module _ (clock : Clock) (f : CaseFile) where
  abbrev policy_clear : Bool
  policy_clear =
      not (not (is_approved f.use_case.decision_status))
      && not (is_none (recorded_handover_package f.delivery_packages))
      && not (not (has_screening (governance_of f)))
      && is_empty (required_governance_blockers (governance_of f))

  abbrev pilot_clear : Bool
  pilot_clear =
      not (not (status_eq f.use_case.status review))
      && not (is_none (recorded_handover_package f.delivery_packages))
      && not (not (is_approved f.use_case.decision_status))
      && not (not (has_screening (governance_of f)))
      && is_empty (required_governance_blockers (governance_of f))

-- The check for a pilot start finds nothing exactly if the case is in review and the policy has no
-- blocker for a pilot start.
pub check_pilot_start-agrees :
    (clock : Clock) (f : CaseFile)
    → is_empty (check_pilot_start clock f).blockers
      ≡ (status_eq f.use_case.status review && is_empty (pilot_blockers clock f))
unfolding check_pilot_start
check_pilot_start-agrees clock f =
    let left : is_empty (check_pilot_start clock f).blockers ≡ pilot_clear clock f =
      simp emptiness in
    let right : is_empty (pilot_blockers clock f) ≡ policy_clear clock f = simp emptiness in
    rw (left, right) (ground arith)

order_agrees :
    (start measured : Option ℕ)
    → is_empty (pilot_order_blocker start measured) ≡ is_empty (pilot_begin_blocker start measured)
order_agrees none measured = refl
order_agrees (some s) none = refl
order_agrees (some s) (some m) = ground arith

abbrev check_clear : CaseFile → Bool
check_clear f =
    not (not (status_eq f.use_case.status pilot))
    && is_empty (missing_fields f.use_case go_live_core_requirements)
    && is_empty (pilot_begin_blocker f.use_case.pilot_start f.use_case.metric_measured_at)
    && is_empty (required_governance_blockers (governance_of f))
    && not (is_none f.use_case.technical_owner)
    && not (not (has_text f.use_case.support_responsibility))

core_fields :
    (u : UseCase)
    → is_empty (missing_fields u go_live_core_requirements) ≡ (
        not (not (truthy u.metric_name))
        && not (is_none u.metric_direction)
        && not (is_none u.metric_target)
        && not (is_none u.metric_actual)
        && not (is_none u.metric_measured_at))
unfolding missing_fields
core_fields u = is_empty-filter (is_missing u) go_live_core_requirements ∙ ground arith

-- The policy has no blocker for a go-live exactly if the check for a go-live from the pilot finds
-- nothing and the two facts of the evidence are given.
pub check_go_live-agrees :
    (clock : Clock) (f : CaseFile) (e : ScaleEvidence)
    → status_eq f.use_case.status pilot ≡ true
    → is_empty (go_live_blockers f e) ≡ (
        is_empty (check_go_live clock f).blockers
        && not (evidence_text e.ml_score_failed_mandatory_checks)
        && evidence_bool e.scale_rollback_tested)
unfolding check_go_live
check_go_live-agrees clock f e h =
    let found : is_empty (check_go_live clock f).blockers ≡ check_clear f = simp emptiness in
    let core = core_fields f.use_case in
    rw (is_empty-go_live_blockers f e, found)
      (ground (arith, core, h, order_agrees f.use_case.pilot_start f.use_case.metric_measured_at))

-- The date check accepts every pilot start that the policy accepts.
pub validate_pilot_start-date :
    (clock : Clock) (f : CaseFile) (start : Option ℕ)
    → validate_pilot_start clock f start ≡ ok tt
    → validate_pilot_start_date clock f start ≡ ok tt
unfolding validate_pilot_start_date
validate_pilot_start-date clock f start h =
    let (p, day, e, g) = (validate_pilot_start_iff clock f start).0 h in
    rw e (ground (arith, g.recorded, g.not_early, g.not_future))

-- The buckets of the priority: the first holds exactly the overdue cases, the first two exactly the
-- overdue and the blocked ones, and there are five.
pub bucket-classes :
    (clock : Clock) (f : CaseFile)
    → ((bucket clock f ≡ 0) ↔ (is_before (decision_due_date f.use_case) (today clock) ≡ true))
      × ((bucket clock f ≤ 1) ↔ (
          (is_before (decision_due_date f.use_case) (today clock)
            || is_blocked (current_decision_check clock f).state)
          ≡ true))
      × (bucket clock f ≤ 4)
unfolding bucket
bucket-classes clock f = (ground arith, ground arith, ground arith)
