-- ===== src/Delivery/Readiness/Content.antt =====
-- ki_radar/delivery/models.py and readiness.py: the texts of a package, its architecture artifacts and
-- the sources that its sections were filled from.
use ki_use_case_radar.Common.{
  ℕ, Bool, true, false, ◌&&◌, ◌||◌, Option, List, [], ◌∷◌, ◌++◌, Text, codes, ◌==◌,
}
use ki_use_case_radar.UseCases.DecisionModel.{ApprovalDecision}
use ki_use_case_radar.Delivery.Model.{
  Section, problem_and_target, scope_and_users, solution_direction, architecture_and_data,
  requirements_and_governance, acceptance_and_measurement, delivery_control,
}

pub data Field : Type 0 where
  problem_context target_outcome in_scope out_of_scope users_and_scenarios mvp_scope : Field
  solution_outline architecture_decisions system_context data_context integrations : Field
  functional_requirements non_functional_requirements security_privacy_requirements : Field
  human_oversight logging_and_audit operations_and_support acceptance_criteria : Field
  test_scenarios measurement_plan dependencies risks assumptions initial_backlog : Field
  external_delivery_url handover_notes : Field

pub data ArtifactField : Type 0 where
  system_landscape system_responsibilities data_flows data_quality_and_access : ArtifactField
  integration_contracts integration_operations : ArtifactField

-- READY_REQUIRED_FIELDS
abbrev pub ready_required_fields : Section → List Field
ready_required_fields problem_and_target = problem_context ∷ target_outcome ∷ []
ready_required_fields scope_and_users =
    in_scope ∷ out_of_scope ∷ users_and_scenarios ∷ mvp_scope ∷ []
ready_required_fields solution_direction = solution_outline ∷ architecture_decisions ∷ []
ready_required_fields architecture_and_data = system_context ∷ data_context ∷ integrations ∷ []
ready_required_fields requirements_and_governance =
    functional_requirements ∷ non_functional_requirements ∷ security_privacy_requirements
    ∷ human_oversight ∷ logging_and_audit ∷ operations_and_support ∷ []
ready_required_fields acceptance_and_measurement =
    acceptance_criteria ∷ test_scenarios ∷ measurement_plan ∷ []
ready_required_fields delivery_control =
    dependencies ∷ risks ∷ assumptions ∷ initial_backlog ∷ external_delivery_url ∷ handover_notes
    ∷ []

-- ARCHITECTURE_REQUIRED_FIELDS
abbrev pub architecture_required_fields : List ArtifactField
architecture_required_fields =
    system_landscape ∷ system_responsibilities ∷ data_flows ∷ data_quality_and_access
    ∷ integration_contracts ∷ integration_operations ∷ []

-- GENERIC_PLACEHOLDER_FRAGMENTS
abbrev pub generic_placeholder_fragments : List Text
generic_placeholder_fragments =
    codes "im delivery package konkretisieren"
    ∷ codes "konkretisieren."
    ∷ codes "explizit ergänzen"
    ∷ codes "ergänzen."
    ∷ codes "kleinsten ende-zu-ende-ablauf"
    ∷ codes "kernablauf aus dem freigegebenen use case umsetzen"
    ∷ codes "fachliche entscheidung und ergebnis nachvollziehbar darstellen"
    ∷ codes "happy path, datenfehler, fachliche ausnahme"
    ∷ codes "epic 1: kernprozess und nutzerfluss"
    ∷ codes "keine zusätzlichen prüfungen markiert"
    ∷ codes "fachliche verantwortlichkeiten bestätigen"
    ∷ []

-- `source["kind"]`; `other_kind` is a kind that `objects` does not hold.
pub data SourceKind : Type 0 where
  use_case_source value_stream_source value_stream_stage_source : SourceKind
  process_analysis_source solution_option_source other_kind : SourceKind

-- An entry of `field_sources`. An absent source field or value is the empty text.
pub record FieldSource : Type 0 where
  pub package_field : Field
  pub kind : SourceKind
  pub source_field : Text
  pub value : Text

pub data Adoption : Type 0 where
  copied adopted kept : Adoption

-- The entry `technical_owner` of `role_sources`. The id is the text of a key, or empty.
pub record RoleSource : Type 0 where
  pub id : Option ℕ
  pub adoption : Adoption

pub record Manifest : Type 0 where
  pub role_source : Option RoleSource
  pub field_sources : List FieldSource

-- What the readiness reads beside the package row: its texts, its artifacts, the manifest of each
-- section (`none` is an empty one), the decision that it was generated from, and the objects that the
-- texts came from, each by the text of its attributes.
pub record PackageContent : Type 0 where
  pub text_of : Field → Text
  pub artifacts : Option (ArtifactField → Text)
  pub source_manifest : Section → Option Manifest
  pub generated_from : ApprovalDecision
  pub objects : SourceKind → Option (Text → Text)

abbrev pub starts_with : Text → Text → Bool
starts_with [] t = true
starts_with (a ∷ s) [] = false
starts_with (a ∷ s) (b ∷ t) = a == b && starts_with s t

-- `part in text`
abbrev pub contains : Text → Text → Bool
contains part [] = starts_with part []
contains part (c ∷ t) = starts_with part (c ∷ t) || contains part t

-- `"\n".join(parts)`
abbrev pub join_lines : List Text → Text
join_lines [] = []
join_lines (t ∷ []) = t
join_lines (t ∷ rest) = t ++ (10 ∷ join_lines rest)
