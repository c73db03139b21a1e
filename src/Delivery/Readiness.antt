-- ===== src/Delivery/Readiness.antt =====
-- ki_radar/delivery/readiness.py: the evaluation of a package and the status that is shown of it.
pub mod Content
pub mod Patterns
pub mod Findings
pub mod Semantics
pub mod Latency
pub mod Retention
pub mod Rules
pub mod Stops
pub mod Status
pub mod Gate
use ki_use_case_radar.Common.{
  Bool, false, ◌&&◌, not, Option, none, some, List, [], ◌∷◌, ◌++◌, Text, strip, map, filter,
  is_empty, is_none, ltb, first_by, if◌then◌else◌,
}
use ki_use_case_radar.Accounts.{User}
use ki_use_case_radar.UseCases.Model.{UseCase}
use ki_use_case_radar.Delivery.Model.{
  DeliveryPackage, PackageStatus, ready, handed_over, package_status_eq,
}
use ki_use_case_radar.Delivery.Readiness.Content.{
  PackageContent, ArtifactField, integration_operations, acceptance_criteria, test_scenarios,
  measurement_plan, human_oversight, non_functional_requirements, operations_and_support,
  logging_and_audit, security_privacy_requirements, handover_notes, join_lines,
}
use ki_use_case_radar.Delivery.Readiness.Patterns.{Engine}
use ki_use_case_radar.Delivery.Readiness.Findings.{ReadinessFinding, is_blocking}
use ki_use_case_radar.Delivery.Readiness.Semantics.{output_semantic_findings, evaluation_findings}
use ki_use_case_radar.Delivery.Readiness.Latency.{latency_semantic_findings}
use ki_use_case_radar.Delivery.Readiness.Retention.{retention_semantic_findings}
use ki_use_case_radar.Delivery.Readiness.Rules.{
  owner_findings, section_findings, required_field_findings, artifact_findings, condition_findings,
  source_staleness_findings,
}

-- `getattr(artifacts, "integration_operations", "")`
abbrev pub operations_of : Option (ArtifactField → Text) → Text
operations_of none = []
operations_of (some text_of) = text_of integration_operations

unfoldable pub evaluation_text : PackageContent → Text
unfolding strip
evaluation_text c =
    join_lines (
      map (λ f. strip (c.text_of f)) (acceptance_criteria ∷ test_scenarios ∷ measurement_plan ∷ []))

unfoldable pub confidence_text : PackageContent → Text
unfolding strip
confidence_text c = join_lines (
    map (λ f. strip (c.text_of f))
      (acceptance_criteria ∷ human_oversight ∷ non_functional_requirements ∷ []))

unfoldable pub latency_text : PackageContent → Text
unfolding strip
latency_text c = join_lines (
    map strip (
      c.text_of non_functional_requirements
      ∷ c.text_of operations_and_support
      ∷ operations_of c.artifacts
      ∷ []))

unfoldable pub retention_text : PackageContent → Text
unfolding strip
retention_text c = join_lines (
    map (λ f. strip (c.text_of f))
      (logging_and_audit ∷ security_privacy_requirements ∷ operations_and_support ∷ []))

-- The code of the status that is shown.
pub data SnapshotCode : Type 0 where
  handover_inconsistent readiness_blocked : SnapshotCode
  stored : PackageStatus → SnapshotCode

-- `DeliveryStatusSnapshot`, less its label.
pub record DeliveryStatusSnapshot : Type 0 where
  pub code : SnapshotCode
  pub handover_complete : Bool

-- ki_radar/delivery/services.py: `Meta.ordering = ["-version"]`
abbrev pub version_before : DeliveryPackage → DeliveryPackage → Bool
version_before a b = ltb b.version a.version

abbrev pub current_delivery_package : List DeliveryPackage → Option DeliveryPackage
current_delivery_package = first_by version_before

module _ {F : Type 0} (re : Engine F) where
  unfoldable pub quality_semantic_findings : PackageContent → List ReadinessFinding
  quality_semantic_findings c =
      evaluation_findings re (evaluation_text c)
      ++ output_semantic_findings re (confidence_text c)
      ++ latency_semantic_findings re (latency_text c)
      ++ retention_semantic_findings re (retention_text c)

  module _ (users : List User) (use_case : UseCase) (c : PackageContent) where
    unfoldable pub evaluate_delivery_readiness : DeliveryPackage → List ReadinessFinding
    evaluate_delivery_readiness p =
        if ltb p.readiness_schema_version 2
        then []
        else owner_findings users p.technical_owner
          ++ section_findings c p.section_reviews
          ++ required_field_findings re c
          ++ artifact_findings re c.artifacts
          ++ condition_findings re c.generated_from (c.text_of handover_notes)
          ++ source_staleness_findings c use_case.technical_owner p
          ++ quality_semantic_findings c

    unfoldable pub blocking_findings : DeliveryPackage → List ReadinessFinding
    blocking_findings p = filter is_blocking (evaluate_delivery_readiness p)

    unfoldable pub is_blocked : DeliveryPackage → Bool
    is_blocked p = not (is_empty (blocking_findings p))

    unfoldable pub delivery_status_snapshot : DeliveryPackage → DeliveryStatusSnapshot
    unfolding is_blocked
    delivery_status_snapshot p =
        if package_status_eq p.status handed_over
        then (if is_none p.handed_over_at
            then record { code = handover_inconsistent; handover_complete = false }
            else if is_blocked p
            then record { code = handover_inconsistent; handover_complete = false }
            else record {
              code = stored p.status;
              handover_complete = not (is_none p.handed_over_at);
            })
        else if package_status_eq p.status ready && is_blocked p
        then record { code = readiness_blocked; handover_complete = false }
        else record { code = stored p.status; handover_complete = false }

    unfoldable pub handed_over_complete : Option DeliveryPackage → Option DeliveryPackage
    unfolding delivery_status_snapshot
    handed_over_complete none = none
    handed_over_complete (some p) =
        if (delivery_status_snapshot p).handover_complete then some p else none

    -- ki_radar/delivery/services.py
    unfoldable pub current_handed_over_package : List DeliveryPackage → Option DeliveryPackage
    unfolding handed_over_complete
    current_handed_over_package packages = handed_over_complete (current_delivery_package packages)
