-- ===== src/Delivery/SourceChange.antt =====
-- ki_radar/delivery/services.py: the decision on a change of the technical owner at the use case.
pub mod Resolved
use ki_use_case_radar.Common.{
  ℕ, Bool, true, false, not, Option, none, some, List, [], ◌∷◌, Text, truthy, strip, if◌then◌else◌,
  Result, ok, err, ◌>>◌, raise_if, require, any,
}
use ki_use_case_radar.Accounts.{User}
use ki_use_case_radar.UseCases.Model.{UseCase}
use ki_use_case_radar.Delivery.Model.{
  Section, solution_direction, architecture_and_data, requirements_and_governance, delivery_control,
  section_eq, SectionReview, DeliveryPackage, handed_over, package_status_eq,
}
use ki_use_case_radar.Delivery.Sections.{reset_section_reviews}
use ki_use_case_radar.Delivery.Permissions.{can_resolve_role_source}
use ki_use_case_radar.Delivery.Packages.{has_active_owner}
use ki_use_case_radar.Delivery.Readiness.Content.{
  RoleSource, FieldSource, Manifest, PackageContent, Adoption, adopted, kept,
}
use ki_use_case_radar.Delivery.Readiness.Rules.{same_key}

-- `action`; `unknown_action` stands for every other text.
pub data SourceAction : Type 0 where
  adopt_source keep_package unknown_action : SourceAction

pub data SourceError : Type 0 where
  immutable_package role_missing rationale_missing no_open_change action_unknown : SourceError
  kept_owner_inactive adopted_owner_inactive : SourceError

-- `DeliveryRoleSourceDecision`, less its labels.
pub record RoleSourceDecision : Type 0 where
  pub old_value : Option ℕ
  pub new_value : Option ℕ
  pub decision : SourceAction
  pub rationale : Text
  pub decided_by : ℕ

-- A package with what its sections were filled from and the decisions on its sources.
pub record SourcedPackage : Type 0 where
  pub delivery_package : DeliveryPackage
  pub content : PackageContent
  pub role_source_decisions : List RoleSourceDecision

abbrev pub has_section : DeliveryPackage → Section → Bool
has_section p key = any (λ (r : SectionReview). section_eq r.section_key key) p.section_reviews

abbrev pub role_source_of : Option Manifest → Option RoleSource
role_source_of none = none
role_source_of (some m) = m.role_source

-- `technical_owner_source_state`: none without the review or its source, else `source_changed`
abbrev pub is_changed : Option ℕ → Option RoleSource → Option Bool
is_changed current none = none
is_changed current (some source) = some (not (same_key current source.id))

unfoldable pub technical_owner_source_state : UseCase → SourcedPackage → Option Bool
technical_owner_source_state u s =
    if has_section s.delivery_package architecture_and_data
    then is_changed u.technical_owner
        (role_source_of (s.content.source_manifest architecture_and_data))
    else none

-- `state is None or not state["source_changed"]`
abbrev pub has_open_change : Option Bool → Bool
has_open_change none = false
has_open_change (some changed) = changed

abbrev pub field_sources_of : Option Manifest → List FieldSource
field_sources_of none = []
field_sources_of (some m) = m.field_sources

abbrev pub set_role_source : RoleSource → Option Manifest → Manifest
set_role_source source m = record { role_source = some source; field_sources = field_sources_of m }

-- `refresh_technical_owner_source_snapshot`: every review of the package gets the source.
unfoldable pub refresh_technical_owner_source_snapshot :
    UseCase → Adoption → DeliveryPackage → PackageContent → PackageContent
refresh_technical_owner_source_snapshot u adoption p c = record c {
  source_manifest = λ key.
      if has_section p key
      then some (
          set_role_source (record { id = u.technical_owner; adoption = adoption })
            (c.source_manifest key))
      else c.source_manifest key;
}

-- TECHNICAL_OWNER_ADOPTION_RESET_SECTIONS
abbrev pub adoption_reset_sections : Section → Bool
adoption_reset_sections solution_direction = true
adoption_reset_sections architecture_and_data = true
adoption_reset_sections requirements_and_governance = true
adoption_reset_sections delivery_control = true
adoption_reset_sections _ = false

-- ki_radar/delivery/permissions.py
module _ (users : List User) (use_case : UseCase) where
  abbrev pub check_owner : SourceAction → DeliveryPackage → Result SourceError (Unit {0})
  check_owner keep_package p =
      require (has_active_owner users p.technical_owner) kept_owner_inactive
  check_owner adopt_source p =
      require (has_active_owner users use_case.technical_owner) adopted_owner_inactive
  check_owner unknown_action p = err action_unknown

  abbrev pub owner_after : SourceAction → Option ℕ → Option ℕ
  owner_after adopt_source old = use_case.technical_owner
  owner_after _ old = old

  abbrev pub adoption_of : SourceAction → Adoption
  adoption_of adopt_source = adopted
  adoption_of _ = kept

  -- The stored rows after a decision that passed its checks.
  unfoldable pub apply_source_decision :
      SourceAction → Text → User → SourcedPackage → SourcedPackage
  apply_source_decision action rationale actor s =
      let p = s.delivery_package in
      record {
        delivery_package =
            reset_section_reviews adoption_reset_sections
              (record p { technical_owner = owner_after action p.technical_owner });
        content = refresh_technical_owner_source_snapshot use_case (adoption_of action) p s.content;
        role_source_decisions =
            record {
              old_value = p.technical_owner;
              new_value = use_case.technical_owner;
              decision = action;
              rationale = strip rationale;
              decided_by = actor.id;
            }
            ∷ s.role_source_decisions;
      }

  unfoldable pub resolve_technical_owner_source_change :
      SourceAction → Text → User → SourcedPackage → Result SourceError SourcedPackage
  resolve_technical_owner_source_change action rationale actor s =
      raise_if (package_status_eq s.delivery_package.status handed_over) immutable_package
      >> require (can_resolve_role_source actor use_case s.delivery_package) role_missing
      >> require (truthy (strip rationale)) rationale_missing
      >> require (has_open_change (technical_owner_source_state use_case s)) no_open_change
      >> check_owner action s.delivery_package
      >> ok (apply_source_decision action rationale actor s)
