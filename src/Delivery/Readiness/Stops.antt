-- ===== src/Delivery/Readiness/Stops.antt =====
-- When a rule of the readiness blocks.
use ki_use_case_radar.Common.{
  ◌≡◌, refl, ◌∙◌, Bool, true, false, ◌&&◌, ◌||◌, not, Option, none, some, List, [], ◌∷◌, ◌++◌, Text,
  strip, truthy, has_text, arith, any, all, when, any-append, is_some, is_none, if◌then◌else◌, ℕ,
}
use ki_use_case_radar.Accounts.{User}
use ki_use_case_radar.UseCases.DecisionModel.{ApprovalDecision}
use ki_use_case_radar.Delivery.Model.{
  Section, problem_and_target, SectionReview, SectionStatus, needs_review, confirmed, blocked,
  DeliveryPackage, handed_over, package_status_eq, confirmations_complete, has_role_collapse,
}
use ki_use_case_radar.Delivery.Permissions.{all_sections}
use ki_use_case_radar.Delivery.Packages.{has_active_owner}
use ki_use_case_radar.Delivery.Readiness.Content.{
  Field, ArtifactField, ready_required_fields, architecture_required_fields, FieldSource,
  RoleSource, Manifest, PackageContent, contains,
}
use ki_use_case_radar.Delivery.Readiness.Patterns.{Engine, percent_threshold}
use ki_use_case_radar.Delivery.Readiness.Findings.{
  ReadinessFinding, Code, blocking, warns, is_blocking,
}
use ki_use_case_radar.Delivery.Readiness.Semantics.{evaluation_findings, threshold_findings}
use ki_use_case_radar.Delivery.Readiness.Rules.{
  owner_findings, review_of, status_findings, review_findings, each_section, section_findings,
  is_generic_placeholder, text_findings, field_findings, required_field_findings,
  artifact_field_findings, artifact_findings, condition_findings, same_key, role_findings,
  source_findings, source_finding, field_finding, artifact_finding, manifest_findings,
  source_staleness_findings,
}

abbrev pub stops : List ReadinessFinding → Bool
stops fs = any is_blocking fs

pub stops-append : (xs ys : List ReadinessFinding) → stops (xs ++ ys) ≡ (stops xs || stops ys)
stops-append = any-append is_blocking

stops-blocking : (c : Bool) (s : Section) (k : Code) → stops (when c (blocking s k)) ≡ c
stops-blocking true s k = refl
stops-blocking false s k = refl

stops-warns : (c : Bool) (s : Section) (k : Code) → stops (when c (warns s k)) ≡ false
stops-warns true s k = refl
stops-warns false s k = refl

ruleset stopping = (stops-append, stops-blocking, stops-warns)

pub owner_stops :
    (users : List User) (o : Option ℕ)
    → stops (owner_findings users o) ≡ not (has_active_owner users o)
unfolding owner_findings
owner_stops users none = refl
owner_stops users (some pk) = simp stopping

or-not : (a b p q : Bool) → a ≡ not p → b ≡ not q → (a || b) ≡ not (p && q)
or-not a b p q h k = ground (arith, h, k)

-- A section that is excused with a reason, or confirmed by its roles and by two persons where it
-- needs both.
abbrev pub is_reviewed : SectionReview → SectionStatus → Bool
is_reviewed r blocked = false
is_reviewed r needs_review = false
is_reviewed r SectionStatus.not_applicable = has_text r.review_note
is_reviewed r confirmed = confirmations_complete r && not (has_role_collapse r)

status_stops :
    (key : Section) (r : SectionReview) (s : SectionStatus)
    → stops (status_findings key r s) ≡ not (is_reviewed r s)
unfolding status_findings
status_stops key r blocked = refl
status_stops key r needs_review = refl
status_stops key r SectionStatus.not_applicable = simp stopping
status_stops key r confirmed = ground arith

-- A section with its row and its sources.
unfoldable pub is_section_ready : Option Manifest → Option SectionReview → Bool
is_section_ready manifest none = false
is_section_ready manifest (some r) = is_some manifest && is_reviewed r r.review_status

review_stops :
    (key : Section) (m : Option Manifest) (o : Option SectionReview)
    → stops (review_findings key m o) ≡ not (is_section_ready m o)
unfolding review_findings is_section_ready
review_stops key m none = refl
review_stops key none (some r) = refl
review_stops key (some m) (some r) = status_stops key r r.review_status

each_stops :
    (rule : Section → List ReadinessFinding) (passes : Section → Bool) (keys : List Section)
    → ((key : Section) → stops (rule key) ≡ not (passes key))
    → stops (each_section rule keys) ≡ not (all passes keys)
each_stops rule passes [] h = refl
each_stops rule passes (key ∷ rest) h =
    stops-append (rule key) (each_section rule rest)
    ∙ ground (arith, h key, each_stops rule passes rest h)

abbrev pub section_passes : PackageContent → List SectionReview → Section → Bool
section_passes c rows key = is_section_ready (c.source_manifest key) (review_of rows key)

pub sections_stop :
    (c : PackageContent) (rows : List SectionReview)
    → stops (section_findings c rows) ≡ not (all (section_passes c rows) all_sections)
unfolding section_findings
sections_stop c rows =
    each_stops (λ key. review_findings key (c.source_manifest key) (review_of rows key))
      (section_passes c rows) all_sections
      (λ key. review_stops key (c.source_manifest key) (review_of rows key))

source_stops : (f : FieldSource) (o : Option (Text → Text)) → stops (source_finding f o) ≡ false
source_stops f none = refl
source_stops f (some text_of) = simp stopping

sources_stop : (c : PackageContent) (fs : List FieldSource) → stops (source_findings c fs) ≡ false
sources_stop c [] = refl
sources_stop c (f ∷ rest) =
    stops-append (source_finding f (c.objects f.kind)) (source_findings c rest)
    ∙ ground (arith, source_stops f (c.objects f.kind), sources_stop c rest)

-- The technical owner that the manifest names, if it names one, is still the use case's.
abbrev pub role_current : Option ℕ → Option RoleSource → Bool
role_current owner none = true
role_current owner (some source) = same_key source.id owner

role_stops :
    (owner : Option ℕ) (o : Option RoleSource)
    → stops (role_findings owner o) ≡ not (role_current owner o)
role_stops owner none = refl
role_stops owner (some source) = simp stopping

unfoldable pub manifest_current : Option ℕ → Option Manifest → Bool
manifest_current owner none = true
manifest_current owner (some m) = role_current owner m.role_source

manifest_stops :
    (c : PackageContent) (owner : Option ℕ) (o : Option Manifest)
    → stops (manifest_findings c owner o) ≡ not (manifest_current owner o)
unfolding manifest_current
manifest_stops c owner none = refl
manifest_stops c owner (some m) =
    stops-append (role_findings owner m.role_source) (source_findings c m.field_sources)
    ∙ ground (arith, role_stops owner m.role_source, sources_stop c m.field_sources)

-- After the handover the sources no longer count.
unfoldable pub sources_current : PackageContent → Option ℕ → DeliveryPackage → Bool
unfolding manifest_current
sources_current c owner p =
    package_status_eq p.status handed_over
    || is_none (review_of p.section_reviews problem_and_target)
    || manifest_current owner (c.source_manifest problem_and_target)

pub staleness_stops :
    (c : PackageContent) (owner : Option ℕ) (p : DeliveryPackage)
    → stops (source_staleness_findings c owner p) ≡ not (sources_current c owner p)
unfolding source_staleness_findings sources_current
staleness_stops c owner p =
    ground (arith, manifest_stops c owner (c.source_manifest problem_and_target))

text_stops :
    (t : Text) (is_generic : Bool) (key key' : Section) (missing generic : Code)
    → stops (text_findings t is_generic (blocking key missing) (blocking key' generic))
      ≡ not (truthy t && not is_generic)
text_stops t is_generic key key' missing generic = ground arith

module _ {F : Type 0} (re : Engine F) where
  -- A text that is there and no template.
  unfoldable pub is_concrete_text : Text → Bool
  is_concrete_text t = truthy (strip t) && not (is_generic_placeholder re (strip t))

  pub fields_stop :
      (c : PackageContent) (key : Section) (fs : List Field)
      → stops (field_findings re c key fs) ≡ not (all (λ f. is_concrete_text (c.text_of f)) fs)
  unfolding is_concrete_text
  fields_stop c key [] = refl
  fields_stop c key (f ∷ rest) =
      stops-append (field_finding re c key f) (field_findings re c key rest)
      ∙ or-not _ _ _ _
          (text_stops (strip (c.text_of f)) (is_generic_placeholder re (strip (c.text_of f))) key
            key _ _)
          (fields_stop c key rest)

  unfoldable pub fields_ready : PackageContent → Section → Bool
  fields_ready c key = all (λ f. is_concrete_text (c.text_of f)) (ready_required_fields key)

  unfoldable pub artifacts_ready : Option (ArtifactField → Text) → Bool
  artifacts_ready none = false
  artifacts_ready (some text_of) =
      all (λ f. is_concrete_text (text_of f)) architecture_required_fields

  artifacts_stop :
      (text_of : ArtifactField → Text) (fs : List ArtifactField)
      → stops (artifact_field_findings re text_of fs)
        ≡ not (all (λ f. is_concrete_text (text_of f)) fs)
  unfolding is_concrete_text
  artifacts_stop text_of [] = refl
  artifacts_stop text_of (f ∷ rest) =
      stops-append (artifact_finding re text_of f) (artifact_field_findings re text_of rest)
      ∙ or-not _ _ _ _
          (text_stops (strip (text_of f)) (is_generic_placeholder re (strip (text_of f))) _ _ _ _)
          (artifacts_stop text_of rest)

  pub artifact_findings_stop :
      (o : Option (ArtifactField → Text)) → stops (artifact_findings re o) ≡ not (artifacts_ready o)
  unfolding artifact_findings artifacts_ready
  artifact_findings_stop none = refl
  artifact_findings_stop (some text_of) = artifacts_stop text_of architecture_required_fields

  pub required_fields_stop :
      (c : PackageContent)
      → stops (required_field_findings re c) ≡ not (all (fields_ready c) all_sections)
  unfolding required_field_findings fields_ready
  required_fields_stop c =
      each_stops (λ key. field_findings re c key (ready_required_fields key)) (fields_ready c)
        all_sections (λ key. fields_stop c key (ready_required_fields key))

  -- Conditions have an owner and a day, and stand in the notes of the handover.
  unfoldable pub conditions_ready : ApprovalDecision → Text → Bool
  conditions_ready d notes =
      not (has_text d.conditions)
      || is_some d.condition_owner
        && is_some d.condition_due_date
        && contains (re.casefold d.conditions) (re.casefold notes)

  pub conditions_stop :
      (d : ApprovalDecision) (notes : Text)
      → stops (condition_findings re d notes) ≡ not (conditions_ready d notes)
  unfolding condition_findings conditions_ready
  conditions_stop d notes = ground arith

  threshold_passes : (t : Text) → stops (threshold_findings re t) ≡ false
  unfolding threshold_findings
  threshold_passes t = simp stopping

  threshold_if : (b : Bool) (t : Text) → stops (if b then threshold_findings re t else []) ≡ false
  threshold_if true t = threshold_passes t
  threshold_if false t = refl

  -- The findings on the evaluation are warnings.
  pub evaluation_passes : (t : Text) → stops (evaluation_findings re t) ≡ false
  unfolding evaluation_findings
  evaluation_passes t =
      stops-append (if re.search percent_threshold t then threshold_findings re t else []) _
      ∙ simp (stopping, threshold_if)
