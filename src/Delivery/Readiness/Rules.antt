-- ===== src/Delivery/Readiness/Rules.antt =====
-- ki_radar/delivery/readiness.py: the rules on the owner, the sections, the texts, the artifacts, the
-- conditions of the approval and the sources.
use ki_use_case_radar.Common.{
  ℕ, Bool, true, false, ◌&&◌, ◌||◌, not, Option, none, some, List, [], ◌∷◌, ◌++◌, Text, strip,
  truthy, has_text, text_eq, any, find_last, when, is_none, if◌then◌else◌, ◌==◌,
}
use ki_use_case_radar.Accounts.{User}
use ki_use_case_radar.UseCases.DecisionModel.{ApprovalDecision}
use ki_use_case_radar.Delivery.Model.{
  Section, problem_and_target, architecture_and_data, delivery_control, section_eq, SectionReview,
  SectionStatus, needs_review, confirmed, blocked, DeliveryPackage, handed_over, package_status_eq,
  confirmations_complete, has_role_collapse,
}
use ki_use_case_radar.Delivery.Permissions.{all_sections}
use ki_use_case_radar.Delivery.Readiness.Content.{
  Field, ArtifactField, ready_required_fields, architecture_required_fields,
  generic_placeholder_fragments, FieldSource, RoleSource, Manifest, PackageContent, contains,
}
use ki_use_case_radar.Delivery.Readiness.Patterns.{Engine}
use ki_use_case_radar.Delivery.Readiness.Findings.{
  ReadinessFinding, blocking, warns, technical_owner_missing, technical_owner_inactive,
  section_review_missing, source_manifest_missing, section_blocked, section_needs_review,
  not_applicable_reason_missing, required_confirmation_missing, independent_confirmation_missing,
  field_missing, field_generic, artifacts_missing, artifact_missing, artifact_generic,
  condition_owner_missing, condition_due_date_missing, conditions_not_transferred,
  owner_source_change_unresolved, source_changed,
}

-- `package.technical_owner.is_active`
abbrev pub is_active_user : List User → ℕ → Bool
is_active_user users pk = any (λ (u : User). u.id == pk && u.is_active) users

unfoldable pub owner_findings : List User → Option ℕ → List ReadinessFinding
owner_findings users none = blocking architecture_and_data technical_owner_missing ∷ []
owner_findings users (some pk) =
    when (not (is_active_user users pk)) (blocking architecture_and_data technical_owner_inactive)

-- `reviews.get(section_key)`; of two rows with one key the later one stays in the dictionary.
abbrev pub review_of : List SectionReview → Section → Option SectionReview
review_of rows key = find_last (λ (r : SectionReview). section_eq r.section_key key) rows

abbrev pub confirmation_findings : Section → SectionReview → List ReadinessFinding
confirmation_findings key r =
    if not (confirmations_complete r)
    then blocking key required_confirmation_missing ∷ []
    else when (has_role_collapse r) (blocking key independent_confirmation_missing)

unfoldable pub status_findings : Section → SectionReview → SectionStatus → List ReadinessFinding
unfolding has_text
status_findings key r blocked = blocking key section_blocked ∷ []
status_findings key r needs_review = blocking key section_needs_review ∷ []
status_findings key r SectionStatus.not_applicable =
    when (not (has_text r.review_note)) (blocking key not_applicable_reason_missing)
status_findings key r confirmed = confirmation_findings key r

unfoldable pub review_findings :
    Section → Option Manifest → Option SectionReview → List ReadinessFinding
unfolding status_findings
review_findings key manifest none = blocking key section_review_missing ∷ []
review_findings key manifest (some r) =
    when (is_none manifest) (blocking key source_manifest_missing)
    ++ status_findings key r r.review_status

abbrev pub each_section : (Section → List ReadinessFinding) → List Section → List ReadinessFinding
each_section rule [] = []
each_section rule (key ∷ rest) = rule key ++ each_section rule rest

unfoldable pub section_findings : PackageContent → List SectionReview → List ReadinessFinding
unfolding review_findings
section_findings c rows =
    each_section (λ key. review_findings key (c.source_manifest key) (review_of rows key))
      all_sections

-- `value` is `_text` of the field.
abbrev pub text_findings : Text → Bool → ReadinessFinding → ReadinessFinding → List ReadinessFinding
text_findings value is_generic missing generic =
    if not (truthy value) then missing ∷ [] else when is_generic generic

module _ {F : Type 0} (re : Engine F) where
  unfoldable pub is_generic_placeholder : Text → Bool
  is_generic_placeholder value =
      any (λ fragment. contains fragment (re.casefold value)) generic_placeholder_fragments

  abbrev pub field_finding : PackageContent → Section → Field → List ReadinessFinding
  field_finding c key f =
      text_findings (strip (c.text_of f)) (is_generic_placeholder (strip (c.text_of f)))
        (blocking key (field_missing f)) (blocking key (field_generic f))

  abbrev pub field_findings : PackageContent → Section → List Field → List ReadinessFinding
  field_findings c key [] = []
  field_findings c key (f ∷ rest) = field_finding c key f ++ field_findings c key rest

  unfoldable pub required_field_findings : PackageContent → List ReadinessFinding
  required_field_findings c =
      each_section (λ key. field_findings c key (ready_required_fields key)) all_sections

  abbrev pub artifact_finding : (ArtifactField → Text) → ArtifactField → List ReadinessFinding
  artifact_finding text_of f =
      text_findings (strip (text_of f)) (is_generic_placeholder (strip (text_of f)))
        (blocking architecture_and_data (artifact_missing f))
        (blocking architecture_and_data (artifact_generic f))

  abbrev pub artifact_field_findings :
      (ArtifactField → Text) → List ArtifactField → List ReadinessFinding
  artifact_field_findings text_of [] = []
  artifact_field_findings text_of (f ∷ rest) =
      artifact_finding text_of f ++ artifact_field_findings text_of rest

  unfoldable pub artifact_findings : Option (ArtifactField → Text) → List ReadinessFinding
  artifact_findings none = blocking architecture_and_data artifacts_missing ∷ []
  artifact_findings (some text_of) = artifact_field_findings text_of architecture_required_fields

  unfoldable pub condition_findings : ApprovalDecision → Text → List ReadinessFinding
  unfolding has_text
  condition_findings d notes =
      if has_text d.conditions
      then when (is_none d.condition_owner) (blocking delivery_control condition_owner_missing)
        ++ when (is_none d.condition_due_date)
            (blocking delivery_control condition_due_date_missing)
        ++ when (not (contains (re.casefold d.conditions) (re.casefold notes)))
            (blocking delivery_control conditions_not_transferred)
      else []

-- Two keys as texts, the empty text for none
abbrev pub same_key : Option ℕ → Option ℕ → Bool
same_key none none = true
same_key (some a) (some b) = a == b
same_key _ _ = false

abbrev pub role_findings : Option ℕ → Option RoleSource → List ReadinessFinding
role_findings owner none = []
role_findings owner (some source) =
    when (not (same_key source.id owner))
      (blocking architecture_and_data owner_source_change_unresolved)

-- The finding on a text whose source is there and has changed.
abbrev pub source_finding : FieldSource → Option (Text → Text) → List ReadinessFinding
source_finding source none = []
source_finding source (some text_of) =
    when (truthy source.source_field && not (text_eq (text_of source.source_field) source.value))
      (warns delivery_control (source_changed source.package_field))

abbrev pub source_findings : PackageContent → List FieldSource → List ReadinessFinding
source_findings c [] = []
source_findings c (source ∷ rest) =
    source_finding source (c.objects source.kind) ++ source_findings c rest

abbrev pub manifest_findings : PackageContent → Option ℕ → Option Manifest → List ReadinessFinding
manifest_findings c owner none = []
manifest_findings c owner (some m) =
    role_findings owner m.role_source ++ source_findings c m.field_sources

-- `_source_staleness_findings`, with the technical owner of the use case
unfoldable pub source_staleness_findings :
    PackageContent → Option ℕ → DeliveryPackage → List ReadinessFinding
source_staleness_findings c owner p =
    if package_status_eq p.status handed_over
      || is_none (review_of p.section_reviews problem_and_target)
    then []
    else manifest_findings c owner (c.source_manifest problem_and_target)
