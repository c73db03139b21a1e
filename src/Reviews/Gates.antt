-- ===== src/Reviews/Gates.antt =====
-- The gates before the pilot and before operation.
use ki_use_case_radar.Common.{
  ℕ, ◌≤◌, ◌≡◌, refl, ◌↔◌, inl, inr, Bool, true, false, Option, none, some, [], Text, has_text, ok,
  arith, Option-cases, is_none, is_some, truthy, raise_if, require, ◌>>◌, if◌then◌else◌, not, ◌&&◌,
  emptiness, is_empty,
}
use ki_use_case_radar.Clock.{Clock, today, date_of}
use ki_use_case_radar.UseCases.Model.{metric_result}
use ki_use_case_radar.UseCases.TransitionPolicy.{
  ScaleEvidence, PolicyError, exception_required, exception_rationale_required, is_approved,
  validate_pilot_start, validate_go_live, evidence_text, evidence_bool, evidence_or_empty,
  is_not_achieved, go_live_blockers, go_live_blocked, pilot_order_blocker,
}
use ki_use_case_radar.Governance.Status.{has_screening, required_governance_blockers}
use ki_use_case_radar.Delivery.Model.{DeliveryPackage}
use ki_use_case_radar.Delivery.Handover.{recorded_handover_package}
use ki_use_case_radar.CaseFile.{CaseFile, governance_of}

-- What a pilot start on `day` needs: a final approval, the recorded handover of the current
-- package, a screening with no open or failed required review, and a day from the handover to
-- today.
pub record PilotGate (clock : Clock) (f : CaseFile) (package' : DeliveryPackage) (day : ℕ)
    : Type 0 where
  pub approved : is_approved f.use_case.decision_status ≡ true
  pub recorded : recorded_handover_package f.delivery_packages ≡ some package'
  pub screened : has_screening (governance_of f) ≡ true
  pub cleared : required_governance_blockers (governance_of f) ≡ []
  pub not_early : date_of clock package'.handed_over_at ≤ day
  pub not_future : day ≤ today clock

pilot→gate :
    (clock : Clock) (f : CaseFile) (start : Option ℕ)
    → validate_pilot_start clock f start ≡ ok tt
    → (p : DeliveryPackage) × (day : ℕ) × (start ≡ some day) × PilotGate clock f p day
unfolding validate_pilot_start
pilot→gate clock f none h = absurd (ground arith)
pilot→gate clock f (some day) h =
    elim (Option-cases (recorded_handover_package f.delivery_packages)) [
      | inl missing ↦ absurd (ground arith)
      | inr (p, found) ↦ (p, day, refl, ground arith)
    ]

gate→pilot :
    (clock : Clock) (f : CaseFile) (p : DeliveryPackage) (day : ℕ)
    → PilotGate clock f p day
    → validate_pilot_start clock f (some day) ≡ ok tt
unfolding validate_pilot_start
gate→pilot clock f p day g = ground arith

-- `validate_pilot_start` lets a pilot start pass exactly if a day is given, a handover is recorded
-- and the gate holds for them: a final approval, a screening without open or failed required reviews,
-- and a day from the handover to today. The gate asks for nothing of the metric.
pub validate_pilot_start_iff :
    (clock : Clock) (f : CaseFile) (start : Option ℕ)
    → (validate_pilot_start clock f start ≡ ok tt)
      ↔ ((p : DeliveryPackage) × (day : ℕ) × (start ≡ some day) × PilotGate clock f p day)
validate_pilot_start_iff clock f start =
    (pilot→gate clock f start, λ (p, day, e, g). rw e (gate→pilot clock f p day g))

-- What a go-live needs: the five core facts of the metric, a measurement from the pilot's start on,
-- no open or failed required review, the two facts of the evidence, both responsibilities, and a
-- confirmed and reasoned exception if the target was missed.
pub record GoLiveGate (f : CaseFile) (e : ScaleEvidence) (confirmed : Bool) (rationale : Text)
    : Type 0 where
  pub named : truthy f.use_case.metric_name ≡ true
  pub directed : is_some f.use_case.metric_direction ≡ true
  pub targeted : is_some f.use_case.metric_target ≡ true
  pub measured : is_some f.use_case.metric_actual ≡ true
  pub in_order :
      (start : ℕ) × (day : ℕ) × (f.use_case.pilot_start ≡ some start)
      × (f.use_case.metric_measured_at ≡ some day)
      × (start ≤ day)
  pub cleared : required_governance_blockers (governance_of f) ≡ []
  pub no_failed_check : evidence_text e.ml_score_failed_mandatory_checks ≡ false
  pub rollback : evidence_bool e.scale_rollback_tested ≡ true
  pub technical : is_some f.use_case.technical_owner ≡ true
  pub supported : has_text f.use_case.support_responsibility ≡ true
  pub excepted :
      is_not_achieved (metric_result f.use_case) ≡ true
      → (confirmed ≡ true) × (has_text rationale ≡ true)

-- The blockers of a go-live are empty exactly if all their tests fail.
abbrev pub go_live_clear : CaseFile → ScaleEvidence → Bool
go_live_clear f e =
    (not (not (truthy f.use_case.metric_name))
      && not (is_none f.use_case.metric_direction)
      && not (is_none f.use_case.metric_target)
      && not (is_none f.use_case.metric_actual)
      && not (is_none f.use_case.metric_measured_at))
    && is_empty (pilot_order_blocker f.use_case.pilot_start f.use_case.metric_measured_at)
    && is_empty (required_governance_blockers (governance_of f))
    && not (evidence_text e.ml_score_failed_mandatory_checks)
    && not (not (evidence_bool e.scale_rollback_tested))
    && not (is_none f.use_case.technical_owner)
    && not (not (has_text f.use_case.support_responsibility))

pub is_empty-go_live_blockers :
    (f : CaseFile) (e : ScaleEvidence) → is_empty (go_live_blockers f e) ≡ go_live_clear f e
is_empty-go_live_blockers f e = simp emptiness

-- The decision on a missed target, behind the blockers.
abbrev IsExcepted : CaseFile → Bool → Text → Type 0
IsExcepted f confirmed rationale =
    is_not_achieved (metric_result f.use_case) ≡ true
    → (confirmed ≡ true) × (has_text rationale ≡ true)

gate_of_clear :
    (f : CaseFile) (e : ScaleEvidence) (confirmed : Bool) (rationale : Text)
    → go_live_clear f e ≡ true
    → IsExcepted f confirmed rationale
    → GoLiveGate f e confirmed rationale
gate_of_clear f e confirmed rationale h x = record {
  named = ground arith;
  directed = ground arith;
  targeted = ground arith;
  measured = ground arith;
  in_order = elim (Option-cases f.use_case.pilot_start) [
    | inl p ↦ absurd (ground arith)
    | inr (start, p) ↦ elim (Option-cases f.use_case.metric_measured_at) [
      | inl m ↦ absurd (ground arith)
      | inr (day, m) ↦ (start, day, p, m, ground arith)
    ]
  ];
  cleared = ground arith;
  no_failed_check = ground arith;
  rollback = ground arith;
  technical = ground arith;
  supported = ground arith;
  excepted = x;
}

clear_of_gate :
    (f : CaseFile) (e : ScaleEvidence) (confirmed : Bool) (rationale : Text)
    → GoLiveGate f e confirmed rationale
    → go_live_clear f e ≡ true
clear_of_gate f e confirmed rationale g =
    let (start, day, p, m, o) = g.in_order in ground (arith, p, m, o, g.named)

passes→ :
    (clear missed confirmed reasoned : Bool) (b : PolicyError)
    → (raise_if (not clear) b
        >> (if missed
            then require confirmed exception_required
              >> require reasoned exception_rationale_required
            else ok tt))
      ≡ ok tt
    → (clear ≡ true) × (missed ≡ true → (confirmed ≡ true) × (reasoned ≡ true))
passes→ false missed confirmed reasoned b h = cc
passes→ true false confirmed reasoned b h = (refl, λ m. cc)
passes→ true true false reasoned b h = cc
passes→ true true true false b h = cc
passes→ true true true true b h = (refl, λ m. (refl, refl))

passes← :
    (clear missed confirmed reasoned : Bool) (b : PolicyError)
    → clear ≡ true
    → (missed ≡ true → (confirmed ≡ true) × (reasoned ≡ true))
    → (raise_if (not clear) b
        >> (if missed
            then require confirmed exception_required
              >> require reasoned exception_rationale_required
            else ok tt))
      ≡ ok tt
passes← false missed confirmed reasoned b h x = cc
passes← true false confirmed reasoned b h x = refl
passes← true true confirmed reasoned b h x = rw ((x refl).0, (x refl).1)

pub validate_go_live_iff :
    (f : CaseFile) (evidence : Option ScaleEvidence) (confirmed : Bool) (rationale : Text)
    → (validate_go_live f evidence confirmed rationale ≡ ok tt)
      ↔ GoLiveGate f (evidence_or_empty evidence) confirmed rationale
unfolding validate_go_live
validate_go_live_iff f evidence confirmed rationale =
    let e = evidence_or_empty evidence in
    let missed = is_not_achieved (metric_result f.use_case) in
    let b = go_live_blocked (go_live_blockers f e) in
    rw (is_empty-go_live_blockers f e) (
      (λ h.
          let (c, x) = passes→ (go_live_clear f e) missed confirmed (has_text rationale) b h in
          gate_of_clear f e confirmed rationale c x),
      (λ g.
          passes← (go_live_clear f e) missed confirmed (has_text rationale) b
            (clear_of_gate f e confirmed rationale g) g.excepted),
    )
