-- ===== src/Delivery/Readiness/Findings.antt =====
-- ki_radar/delivery/readiness.py: the findings.
use ki_use_case_radar.Common.{Bool, true, false, List}
use ki_use_case_radar.Delivery.Model.{Section}
use ki_use_case_radar.Delivery.Readiness.Content.{Field, ArtifactField}
use ki_use_case_radar.Delivery.Readiness.Patterns.{Category}

pub data Severity : Type 0 where
  blocker warning : Severity

-- The texts of the latency finding, and the problems that the retention finding lists.
pub data LatencyProblem : Type 0 where
  budget_missing total_contradicts retries_exceed total_exceeds total_unknown : LatencyProblem

pub data RetentionProblem : Type 0 where
  category_missing purpose_missing rule_missing : Category → RetentionProblem

-- The codes. A code or a text that the source composes has the part that varies as its argument.
pub data Code : Type 0 where
  technical_owner_missing technical_owner_inactive : Code
  section_review_missing source_manifest_missing section_blocked section_needs_review : Code
  not_applicable_reason_missing required_confirmation_missing : Code
  independent_confirmation_missing : Code
  field_missing field_generic : Field → Code
  artifacts_missing : Code
  artifact_missing artifact_generic : ArtifactField → Code
  condition_owner_missing condition_due_date_missing conditions_not_transferred : Code
  owner_source_change_unresolved : Code
  source_changed : Field → Code
  evaluation_population_missing evaluation_sample_size_missing : Code
  evaluation_uncertainty_undocumented critical_error_classes_undocumented : Code
  recall_positive_cases_missing : Code
  output_type_semantics_missing predictive_confidence_incomplete : Code
  generative_confidence_unjustified generative_grounding_incomplete : Code
  rule_based_evidence_incomplete : Code
  latency_retry_budget_conflict : LatencyProblem → Code
  retention_semantics_incomplete : List RetentionProblem → Code

-- `ReadinessFinding`
pub record ReadinessFinding : Type 0 where
  pub section_key : Section
  pub code : Code
  pub severity : Severity

abbrev pub blocking : Section → Code → ReadinessFinding
blocking s c = record { section_key = s; code = c; severity = blocker }

abbrev pub warns : Section → Code → ReadinessFinding
warns s c = record { section_key = s; code = c; severity = warning }

abbrev pub is_blocking : ReadinessFinding → Bool
is_blocking f = elim f.severity [ blocker ↦ true | warning ↦ false ]
