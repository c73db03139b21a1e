-- ===== src/Delivery/Readiness/Semantics.antt =====
-- ki_radar/delivery/readiness.py: what the texts of a package say on outputs and on quality.
use ki_use_case_radar.Common.{
  Bool, ◌&&◌, ◌||◌, not, List, [], ◌∷◌, ◌++◌, Text, strip, truthy, filter, any, map, is_empty, when,
  if◌then◌else◌,
}
use ki_use_case_radar.Delivery.Model.{requirements_and_governance, acceptance_and_measurement}
use ki_use_case_radar.Delivery.Readiness.Patterns.{
  Pattern, Engine, percent_threshold, semantic_placeholder, population_context, sample_size,
  uncertainty_context, critical_class, targeted_test_size, recall_target, positive_case_count,
  numeric_confidence, predictive_output, generative_output, rule_based_output,
  confidence_justification, negated_justification, output_not_applicable, grounding,
  uncertain_basis, rule_reference, rule_result, negated_grounding, negated_uncertain_basis,
  negated_rule_reference, negated_rule_result, negated_critical_test,
}
use ki_use_case_radar.Delivery.Readiness.Findings.{
  ReadinessFinding, blocking, warns, output_type_semantics_missing,
  predictive_confidence_incomplete, generative_confidence_unjustified,
  generative_grounding_incomplete, rule_based_evidence_incomplete, evaluation_population_missing,
  evaluation_sample_size_missing, evaluation_uncertainty_undocumented,
  critical_error_classes_undocumented, recall_positive_cases_missing,
}

module _ {F : Type 0} (re : Engine F) where
  unfoldable pub statements : Text → List Text
  unfolding strip
  statements value = filter truthy (map strip (re.split value))

  abbrev pub is_concrete : Text → Bool
  is_concrete statement = not (re.search semantic_placeholder statement)

  unfoldable pub has_concrete_match : Text → Pattern → Bool
  unfolding statements
  has_concrete_match value pattern' =
      any (λ s. re.search pattern' s && is_concrete s) (statements value)

  unfoldable pub has_affirmative_match : Text → Pattern → Pattern → Bool
  unfolding statements
  has_affirmative_match value pattern' negated =
      any (λ s. re.search pattern' (re.erase negated s) && is_concrete s) (statements value)

  abbrev pub affirmative_confidence_semantics : Text → Bool
  affirmative_confidence_semantics s =
      re.search confidence_justification (re.erase negated_justification s)

  abbrev pub is_active_output : Text → Bool
  is_active_output s =
      (re.search predictive_output s
        || re.search generative_output s
        || re.search rule_based_output s)
      && not (re.search output_not_applicable s)
      && is_concrete s

  -- A number that is given as a confidence and has no meaning.
  abbrev pub unjustified_number : Text → Bool
  unjustified_number s = re.search numeric_confidence s && not (affirmative_confidence_semantics s)

  unfoldable pub is_grounded : Text → Bool
  unfolding has_affirmative_match
  is_grounded text =
      has_affirmative_match text grounding negated_grounding
      && has_affirmative_match text uncertain_basis negated_uncertain_basis

  unfoldable pub has_rule_evidence : Text → Bool
  unfolding has_affirmative_match
  has_rule_evidence text =
      has_affirmative_match text rule_reference negated_rule_reference
      && has_affirmative_match text rule_result negated_rule_result

  unfoldable pub generative_findings : Text → List Text → List ReadinessFinding
  unfolding is_grounded
  generative_findings text generative =
      if is_empty generative
      then []
      else when (any unjustified_number generative)
          (blocking requirements_and_governance generative_confidence_unjustified)
        ++ when (not (is_grounded text))
            (blocking requirements_and_governance generative_grounding_incomplete)

  unfoldable pub active_findings : Text → List Text → List ReadinessFinding
  unfolding generative_findings has_rule_evidence
  active_findings text active =
      when (any (λ s. re.search predictive_output s && unjustified_number s) active)
        (blocking requirements_and_governance predictive_confidence_incomplete)
      ++ generative_findings text (filter (re.search generative_output) active)
      ++ when (any (re.search rule_based_output) active && not (has_rule_evidence text))
          (blocking requirements_and_governance rule_based_evidence_incomplete)

  unfoldable pub output_semantic_findings : Text → List ReadinessFinding
  unfolding active_findings statements
  output_semantic_findings text =
      let active = filter is_active_output (statements text) in
      if is_empty active
      then blocking requirements_and_governance output_type_semantics_missing ∷ []
      else active_findings text active

  abbrev pub covers_critical_class : Text → Bool
  covers_critical_class s =
      re.search critical_class s
      && re.search targeted_test_size s
      && not (re.search negated_critical_test s)
      && is_concrete s

  unfoldable pub threshold_findings : Text → List ReadinessFinding
  unfolding has_concrete_match statements
  threshold_findings text =
      when (not (has_concrete_match text population_context))
        (warns acceptance_and_measurement evaluation_population_missing)
      ++ when (not (has_concrete_match text sample_size))
          (warns acceptance_and_measurement evaluation_sample_size_missing)
      ++ when (not (has_concrete_match text uncertainty_context))
          (warns acceptance_and_measurement evaluation_uncertainty_undocumented)
      ++ when (not (any covers_critical_class (statements text)))
          (warns acceptance_and_measurement critical_error_classes_undocumented)

  -- The part of `_quality_semantic_findings` that reads `evaluation_text`.
  unfoldable pub evaluation_findings : Text → List ReadinessFinding
  evaluation_findings text =
      (if re.search percent_threshold text then threshold_findings text else [])
      ++ when (re.search recall_target text && not (has_concrete_match text positive_case_count))
          (warns acceptance_and_measurement recall_positive_cases_missing)
