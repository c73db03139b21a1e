-- ===== src/Delivery/Readiness/Patterns.antt =====
-- ki_radar/delivery/readiness.py: the regular expressions by their names, and what the code takes
-- from Python for them.
use ki_use_case_radar.Common.{ℕ, Bool, List, Text}

pub data Pattern : Type 0 where
  percent_threshold semantic_placeholder population_context sample_size : Pattern
  uncertainty_context critical_class targeted_test_size recall_target positive_case_count : Pattern
  numeric_confidence predictive_output generative_output rule_based_output : Pattern
  confidence_justification negated_justification output_not_applicable grounding : Pattern
  uncertain_basis rule_reference rule_result negated_grounding negated_uncertain_basis : Pattern
  negated_rule_reference negated_rule_result negated_critical_test : Pattern
  latency_budget timeout retry sync async retry_count attempt_count total_sync_duration : Pattern
  purpose retention_duration event_deletion non_persistence : Pattern
  invalid_retention invalid_purpose : Pattern

-- The labels of _RETENTION_CATEGORIES.
pub data Category : Type 0 where
  audit_metadata raw_inputs document_contents personal_data technical_logs : Category

-- Python's `re`, `float`, `int` and `str.casefold` as the module uses them. `F` is the type of floats.
pub record Engine (F : Type 0) : Type 0 where
  pub search : Pattern → Text → Bool  -- bool(pattern.search(text))
  pub erase : Pattern → Text → Text  -- pattern.sub("", text)
  pub split : Text → List Text  -- the call of re.split in `_statements`
  pub groups : Pattern → Text → List (Text × Text)  -- groups 1 and 2 of each match
  pub counts : Pattern → Text → List Text  -- the group `count` of each match
  pub category_starts : Category → Text → List ℕ  -- the starts of the matches
  pub casefold : Text → Text
  pub digits : Text → ℕ  -- int(value) if value.isdigit() else 0
  pub to_float : Text → F
  pub thousandth : F → F  -- value / 1000
  pub times : F → ℕ → F  -- value * n
  pub exceeds : F → F → Bool  -- a > b
  pub apart : F → F → Bool  -- abs(a - b) > 0.001
