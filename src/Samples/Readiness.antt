-- ===== src/Samples/Readiness.antt =====
-- The readiness of a package and the change of its technical owner at concrete cases.
use ki_use_case_radar.Common.{
  strip, ℕ, ◌≡◌, ◌↔◌, refl, Bool, true, false, none, some, List, [], ◌∷◌, map, codes, has_text,
  strip, ok, is_ok,
}
use ki_use_case_radar.UseCases.Model.{UseCase, review, approved}
use ki_use_case_radar.Delivery.Model.{
  architecture_and_data, SectionReview, SectionStatus, DeliveryPackage, draft, handed_over,
}
use ki_use_case_radar.Delivery.Permissions.{all_sections}
use ki_use_case_radar.Delivery.Handover.{recorded_handover_package}
use ki_use_case_radar.Delivery.Packages.{new_section_review, has_active_owner}
use ki_use_case_radar.Delivery.Readiness.Content.{PackageContent, copied}
use ki_use_case_radar.Delivery.Readiness.Patterns.{
  Pattern, rule_based_output, rule_reference, rule_result, purpose, retention_duration, Category,
  audit_metadata, raw_inputs, document_contents, personal_data, technical_logs, Engine,
}
use ki_use_case_radar.Delivery.Readiness.Findings.{blocking, technical_owner_inactive}
use ki_use_case_radar.Delivery.Readiness.Semantics.{
  statements, has_concrete_match, has_affirmative_match, is_grounded, has_rule_evidence,
  generative_findings, active_findings, output_semantic_findings, threshold_findings,
  evaluation_findings,
}
use ki_use_case_radar.Delivery.Readiness.Latency.{latency_semantic_findings}
use ki_use_case_radar.Delivery.Readiness.Retention.{
  segments_of, retention_segment, retention_problems, retention_semantic_findings,
}
use ki_use_case_radar.Delivery.Readiness.Rules.{
  owner_findings, section_findings, review_findings, status_findings, is_generic_placeholder,
  required_field_findings, artifact_findings, condition_findings, source_staleness_findings,
}
use ki_use_case_radar.Delivery.Readiness.Stops.{sources_current}
use ki_use_case_radar.Delivery.Readiness.Gate.{ReadyGate, blocking_findings_iff}
use ki_use_case_radar.Delivery.Readiness.Status.{current_handed_over_package-recorded}
use ki_use_case_radar.Delivery.Readiness.{
  blocking_findings, evaluate_delivery_readiness, quality_semantic_findings, evaluation_text,
  confidence_text, latency_text, retention_text, current_handed_over_package, handed_over_complete,
  delivery_status_snapshot, is_blocked,
}
use ki_use_case_radar.Delivery.SourceChange.{
  technical_owner_source_state, SourcedPackage, adopt_source, keep_package, owner_after,
  apply_source_decision, resolve_technical_owner_source_change,
}
use ki_use_case_radar.Delivery.Permissions.{can_resolve_role_source}
use ki_use_case_radar.Delivery.SourceChange.Resolved.{
  resolve_technical_owner_source_change-settles, resolve_technical_owner_source_change-once,
}
use ki_use_case_radar.Samples.{alice, bob, everyone, use_case_in, package_in}
use ki_use_case_radar.Samples.Delivery.{approval}

-- An engine in which every text is a rule-based output with its evidence, and states a purpose and a
-- duration for each category.
abbrev matches : Pattern → Bool
matches rule_based_output = true
matches rule_reference = true
matches rule_result = true
matches purpose = true
matches retention_duration = true
matches _ = false

abbrev start_of : Category → ℕ
start_of audit_metadata = 0
start_of raw_inputs = 5
start_of document_contents = 10
start_of personal_data = 15
start_of technical_logs = 20

abbrev engine : Engine Bool
engine = record {
  search = λ p t. matches p;
  erase = λ p t. t;
  split = λ t. t ∷ [];
  groups = λ p t. [];
  counts = λ p t. [];
  category_starts = λ c t. start_of c ∷ [];
  casefold = λ t. t;
  digits = λ t. 0;
  to_float = λ t. true;
  thousandth = λ f. f;
  times = λ f n. f;
  exceeds = λ f g. false;
  apart = λ f g. false;
}

abbrev content : PackageContent
content = record {
  text_of = λ f. codes "abcdefgh";
  artifacts = some (λ f. codes "abcdefgh");
  source_manifest = λ key. some (record {
    role_source = some (record { id = some 2; adoption = copied });
    field_sources = [];
  });
  generated_from = approval;
  objects = λ kind. none;
}

-- Every section is excused with a reason.
abbrev excused_rows : List SectionReview
excused_rows =
    map
      (λ key. record (new_section_review key) {
        review_status = SectionStatus.not_applicable;
        review_note = codes "none";
      })
      all_sections

abbrev the_package : DeliveryPackage
the_package = record (package_in handed_over) { section_reviews = excused_rows }

abbrev the_case : UseCase
the_case = use_case_in review approved

abbrev the_packages : List DeliveryPackage
the_packages = the_package ∷ record the_package { version = 0; status = draft } ∷ []

settled : blocking_findings engine everyone the_case content the_package ≡ []
unfolding blocking_findings evaluate_delivery_readiness owner_findings section_findings
    required_field_findings is_generic_placeholder artifact_findings condition_findings
    source_staleness_findings quality_semantic_findings evaluation_findings output_semantic_findings
    confidence_text latency_semantic_findings latency_text retention_semantic_findings
    retention_text has_text strip retention_problems retention_segment segments_of review_findings
    status_findings active_findings generative_findings has_affirmative_match has_concrete_match
    has_rule_evidence is_grounded statements threshold_findings evaluation_text
settled = refl

unsettled :
    blocking_findings engine (alice ∷ []) the_case content the_package
    ≡ blocking architecture_and_data technical_owner_inactive ∷ []
unfolding blocking_findings evaluate_delivery_readiness owner_findings section_findings
    required_field_findings is_generic_placeholder artifact_findings condition_findings
    source_staleness_findings quality_semantic_findings evaluation_findings output_semantic_findings
    confidence_text latency_semantic_findings latency_text retention_semantic_findings
    retention_text has_text strip retention_problems retention_segment segments_of review_findings
    status_findings active_findings generative_findings has_affirmative_match has_concrete_match
    has_rule_evidence is_grounded statements threshold_findings evaluation_text
unsettled = refl

complete :
    current_handed_over_package engine everyone the_case content the_packages ≡ some the_package
unfolding current_handed_over_package handed_over_complete delivery_status_snapshot is_blocked
complete = rw settled refl

blocking_findings_iff_example :
    (blocking_findings engine everyone the_case content the_package ≡ [])
    ↔ ReadyGate engine everyone the_case content the_package
blocking_findings_iff_example =
    blocking_findings_iff engine everyone the_case content the_package refl

current_handed_over_package-recorded_example :
    recorded_handover_package the_packages ≡ some the_package
current_handed_over_package-recorded_example =
    current_handed_over_package-recorded engine everyone the_case content the_packages the_package
      ((refl, tt), (tt, tt)) complete

-- The use case has another technical owner than the package was filled with.
abbrev changed_case : UseCase
changed_case = record the_case { technical_owner = some 4 }

abbrev sourced : SourcedPackage
sourced = record {
  delivery_package = record (package_in draft) {
    section_reviews = map new_section_review all_sections;
  };
  content = content;
  role_source_decisions = [];
}

abbrev after : SourcedPackage
after = apply_source_decision everyone changed_case adopt_source (codes "moved") alice sourced

adopts :
    resolve_technical_owner_source_change everyone changed_case adopt_source
      (codes "moved")
      alice
      sourced
    ≡ ok after
unfolding resolve_technical_owner_source_change can_resolve_role_source strip
    technical_owner_source_state
adopts = refl

resolve_technical_owner_source_change-settles_example :
    (has_active_owner everyone after.delivery_package.technical_owner ≡ true)
    × (after.delivery_package.technical_owner
        ≡ owner_after everyone changed_case adopt_source sourced.delivery_package.technical_owner)
    × (sources_current after.content changed_case.technical_owner after.delivery_package ≡ true)
resolve_technical_owner_source_change-settles_example =
    resolve_technical_owner_source_change-settles everyone changed_case adopt_source (codes "moved")
      alice sourced after adopts

resolve_technical_owner_source_change-once_example :
    is_ok (
      resolve_technical_owner_source_change everyone changed_case keep_package
        (codes "no")
        bob
        after)
    ≡ false
resolve_technical_owner_source_change-once_example =
    resolve_technical_owner_source_change-once everyone changed_case adopt_source (codes "moved")
      alice sourced after keep_package (codes "no") bob adopts
