-- ===== src/UseCases/ScaleReadiness/Gate.antt =====
-- What a pilot needs to scale.
use ki_use_case_radar.Common.{
  ◌≡◌, ◌↔◌, refl, sym, ◌∙◌, Bool, true, false, ◌||◌, not, Option, List, [], ◌++◌, arith, all,
  has_text, is_some, filter_none_iff,
}
use ki_use_case_radar.UseCases.Model.{UseCase}
use ki_use_case_radar.UseCases.TransitionPolicy.{evidence_text, evidence_bool}
use ki_use_case_radar.Governance.Status.{GovernanceStatus, required_reviews, state_completed}
use ki_use_case_radar.Delivery.Model.{DeliveryPackage}
use ki_use_case_radar.UseCases.ScaleReadiness.Evidence.{
  Tailoring, read_tailoring, ScaleFields, decimal_of,
}
use ki_use_case_radar.UseCases.ScaleReadiness.Findings.{ScaleReadinessFinding, is_blocker, blockers}
use ki_use_case_radar.UseCases.ScaleReadiness.Rules.{
  evaluate_tailoring, evaluate_pilot, final_ml_score, evaluate_ml_score, evaluate_deployment,
  needs_incident_process, needs_extended_controls, evaluate_operations, evaluate_responsibility,
}
use ki_use_case_radar.UseCases.ScaleReadiness.Score.{four_scored}
use ki_use_case_radar.UseCases.ScaleReadiness.{scale_findings, evaluate_scale_readiness}
use ki_use_case_radar.UseCases.ScaleReadiness.Blocking.{
  blocks, blocks-append, is_tailored, is_cleared, pilot_blocks, operations_block, deployment_blocks,
  tailoring_blocks, ml_score_blocks, responsibility_blocks,
}

-- What the scores need. A minimum counts only if it is from 0 to 7 and the final score reaches it.
pub record ScoreGate (e : ScaleFields) : Type 0 where
  pub scored : four_scored e ≡ true
  pub cleared : is_cleared (final_ml_score e) (decimal_of e.ml_score_minimum) ≡ true
  pub versioned : evidence_text e.ml_score_version ≡ true
  pub evidenced : evidence_text e.ml_score_evidence_url ≡ true
  pub dated : is_some e.ml_score_date ≡ true
  pub no_failed_check : evidence_text e.ml_score_failed_mandatory_checks ≡ false

pub record DeploymentGate (handed : Option DeliveryPackage) (e : ScaleFields) : Type 0 where
  pub handed_over : is_some handed ≡ true
  pub identified : evidence_text e.scale_production_version ≡ true
  pub rollback : evidence_bool e.scale_rollback_tested ≡ true

pub record OperationsGate (level : Option Tailoring) (e : ScaleFields) : Type 0 where
  pub evidenced : evidence_text e.scale_evidence_url ≡ true
  pub monitored : evidence_bool e.scale_technical_monitoring_ready ≡ true
  pub quality_monitored : evidence_bool e.scale_ai_quality_monitoring_ready ≡ true
  pub incidents :
      needs_incident_process level ≡ true → evidence_bool e.scale_incident_process_ready ≡ true

pub record ResponsibilityGate (u : UseCase) (g : GovernanceStatus) (level : Option Tailoring)
    (e : ScaleFields) : Type 0 where
  pub technical : is_some u.technical_owner ≡ true
  pub supported : has_text u.support_responsibility ≡ true
  pub overseen : has_text u.human_oversight ≡ true
  pub reviewed : all state_completed (required_reviews g) ≡ true
  pub extended :
      needs_extended_controls level ≡ true
      → evidence_bool e.scale_extended_controls_completed ≡ true

-- What scaling needs.
pub record ScaleGate (u : UseCase) (g : GovernanceStatus) (handed : Option DeliveryPackage)
    (e : ScaleFields) : Type 0 where
  pub tailored : is_tailored g (read_tailoring e.scale_tailoring_level) ≡ true
  pub validated : evidence_bool e.scale_pilot_validation_confirmed ≡ true
  pub scores : ScoreGate e
  pub deployed : DeploymentGate handed e
  pub operated : OperationsGate (read_tailoring e.scale_tailoring_level) e
  pub accounted : ResponsibilityGate u g (read_tailoring e.scale_tailoring_level) e

score_gate : (e : ScaleFields) → (blocks (evaluate_ml_score e) ≡ false) ↔ ScoreGate e
score_gate e = rw (ml_score_blocks e) ((λ h. ground arith), λ h. ground arith)

deployment_gate :
    (handed : Option DeliveryPackage) (e : ScaleFields)
    → (blocks (evaluate_deployment handed e) ≡ false) ↔ DeploymentGate handed e
deployment_gate handed e = rw (deployment_blocks handed e) ((λ h. ground arith), λ h. ground arith)

operations_gate :
    (t : Option Tailoring) (e : ScaleFields)
    → (blocks (evaluate_operations t e) ≡ false) ↔ OperationsGate t e
operations_gate t e = rw (operations_block t e) ((λ h. ground arith), λ h. ground arith)

responsibility_gate :
    (u : UseCase) (g : GovernanceStatus) (t : Option Tailoring) (e : ScaleFields)
    → (blocks (evaluate_responsibility u g t e) ≡ false) ↔ ResponsibilityGate u g t e
responsibility_gate u g t e =
    rw (responsibility_blocks u g t e) ((λ h. ground arith), λ h. ground arith)

blocks_of_six :
    (a b c d e f : List ScaleReadinessFinding)
    → blocks (a ++ b ++ c ++ d ++ e ++ f)
      ≡ (blocks a || blocks b || blocks c || blocks d || blocks e || blocks f)
blocks_of_six a b c d e f = simp blocks-append

or-false : (a b : Bool) → ((a || b) ≡ false) ↔ ((a ≡ false) × (b ≡ false))
or-false a b = ((λ h. (ground arith, ground arith)), λ (p, q). rw (p, q) refl)

not-false : (b : Bool) → not b ≡ false → b ≡ true
not-false b h = ground arith

module _ (u : UseCase) (g : GovernanceStatus) (handed : Option DeliveryPackage)
    (e : ScaleFields) where
  abbrev level : Option Tailoring
  level = read_tailoring e.scale_tailoring_level

  -- The rules in their order, each by whether it blocks.
  abbrev blocked : Bool
  blocked =
      blocks (evaluate_tailoring g level)
      || blocks (evaluate_pilot u e)
      || blocks (evaluate_ml_score e)
      || blocks (evaluate_deployment handed e)
      || blocks (evaluate_operations level e)
      || blocks (evaluate_responsibility u g level e)

  blocks-scale_findings : blocks (scale_findings u g handed e) ≡ blocked
  unfolding scale_findings
  blocks-scale_findings =
      blocks_of_six (evaluate_tailoring g level) (evaluate_pilot u e) (evaluate_ml_score e)
        (evaluate_deployment handed e) (evaluate_operations level e)
        (evaluate_responsibility u g level e)

  gate→ : blocked ≡ false → ScaleGate u g handed e
  gate→ h =
      let (h1, r) = (or-false _ _).0 h in
      let (h2, o) = (or-false _ _).0 h1 in
      let (h3, d) = (or-false _ _).0 h2 in
      let (h4, m) = (or-false _ _).0 h3 in
      let (t, p) =
        (or-false (blocks (evaluate_tailoring g level)) (blocks (evaluate_pilot u e))).0 h4 in
      record {
        tailored = not-false _ (rw (tailoring_blocks g level) at t);
        validated = not-false _ (rw (pilot_blocks u e) at p);
        scores = (score_gate e).0 m;
        deployed = (deployment_gate handed e).0 d;
        operated = (operations_gate level e).0 o;
        accounted = (responsibility_gate u g level e).0 r;
      }

  gate← : ScaleGate u g handed e → blocked ≡ false
  gate← k =
      rw
        (
          tailoring_blocks g level,
          pilot_blocks u e,
          k.tailored,
          k.validated,
          (score_gate e).1 k.scores,
          (deployment_gate handed e).1 k.deployed,
          (operations_gate level e).1 k.operated,
          (responsibility_gate u g level e).1 k.accounted,
        )
        refl

-- The evaluation has no blocker exactly if the gate holds: a sufficient tailoring level, a confirmed
-- validation, four scores in range whose least reaches a minimum in range, with version, reference
-- and date and no failed mandatory check, a complete handover, an identified version with a tested
-- rollback, operations with their monitoring, and the responsibilities with every required review
-- passed; higher tailoring levels need the incident process and the extended controls as well.
pub evaluate_scale_readiness-blockers_iff :
    (u : UseCase) (g : GovernanceStatus) (handed : Option DeliveryPackage) (e : ScaleFields)
    → (blockers (evaluate_scale_readiness u g handed e) ≡ []) ↔ ScaleGate u g handed e
unfolding evaluate_scale_readiness
evaluate_scale_readiness-blockers_iff u g handed e =
    let none_iff = filter_none_iff is_blocker (scale_findings u g handed e) in
    let eq = blocks-scale_findings u g handed e in
    ((λ h. gate→ u g handed e (sym eq ∙ none_iff.0 h)), λ k. none_iff.1 (eq ∙ gate← u g handed e k))
