-- ===== src/Delivery/Readiness/Retention.antt =====
-- ki_radar/delivery/readiness.py: purpose and deletion of each category of data.
use ki_use_case_radar.Common.{
  ℕ, zero, suc, ◌-◌, Bool, ◌&&◌, ◌||◌, not, List, [], ◌∷◌, ◌++◌, Text, strip, map, is_empty, length,
  truthy, when, if◌then◌else◌, ltb, ◌==◌,
}
use ki_use_case_radar.Delivery.Model.{requirements_and_governance}
use ki_use_case_radar.Delivery.Readiness.Content.{join_lines}
use ki_use_case_radar.Delivery.Readiness.Patterns.{
  Engine, Category, audit_metadata, raw_inputs, document_contents, personal_data, technical_logs,
  semantic_placeholder, purpose, retention_duration, event_deletion, non_persistence,
  invalid_retention, invalid_purpose,
}
use ki_use_case_radar.Delivery.Readiness.Findings.{
  ReadinessFinding, blocking, RetentionProblem, category_missing, purpose_missing, rule_missing,
  retention_semantics_incomplete,
}

-- _RETENTION_CATEGORIES, in their order
abbrev pub retention_categories : List Category
retention_categories =
    audit_metadata ∷ raw_inputs ∷ document_contents ∷ personal_data ∷ technical_logs ∷ []

-- The order of the labels as texts: Audit, Dokument, Prompt, personenbezogene, technische.
abbrev pub label_rank : Category → ℕ
label_rank audit_metadata = 0
label_rank document_contents = 1
label_rank raw_inputs = 2
label_rank personal_data = 3
label_rank technical_logs = 4

abbrev pub Occurrence : Type 0
Occurrence = ℕ × Category

-- The order of pairs: the start, then the label.
abbrev pub occurs_before : Occurrence → Occurrence → Bool
occurs_before (a, c) (b, d) = ltb a b || a == b && ltb (label_rank c) (label_rank d)

abbrev pub insert_occurrence : Occurrence → List Occurrence → List Occurrence
insert_occurrence o [] = o ∷ []
insert_occurrence o (p ∷ rest) =
    let later = insert_occurrence o rest in if occurs_before p o then p ∷ later else o ∷ p ∷ rest

-- `occurrences.sort()`
abbrev pub sort_occurrences : List Occurrence → List Occurrence
sort_occurrences [] = []
sort_occurrences (o ∷ rest) = insert_occurrence o (sort_occurrences rest)

abbrev pub drop_chars : ℕ → Text → Text
drop_chars zero t = t
drop_chars (suc n) [] = []
drop_chars (suc n) (c ∷ t) = drop_chars n t

abbrev pub take_chars : ℕ → Text → Text
take_chars zero t = []
take_chars (suc n) [] = []
take_chars (suc n) (c ∷ t) = c ∷ take_chars n t

-- `text[start:end]` for 0 <= start
abbrev pub slice : ℕ → ℕ → Text → Text
slice start end text = take_chars (end - start) (drop_chars start text)

-- The start of the next occurrence, or the end of the text.
abbrev pub next_start : List Occurrence → Text → ℕ
next_start [] text = length text
next_start ((start, c) ∷ later) text = start

abbrev pub same_category : Category → Category → Bool
same_category c d = label_rank c == label_rank d

-- `segments[label]` before the join
unfoldable pub segments_of : Category → List Occurrence → Text → List Text
unfolding strip
segments_of label [] text = []
segments_of label ((start, c) ∷ later) text =
    let rest = segments_of label later text in
    if same_category c label then strip (slice start (next_start later text) text) ∷ rest else rest

module _ {F : Type 0} (re : Engine F) where
  abbrev pub occurrences : Text → List Category → List Occurrence
  occurrences text [] = []
  occurrences text (c ∷ rest) =
      map (λ start. (start, c)) (re.category_starts c text) ++ occurrences text rest

  -- `_retention_segments(text)[label]`
  unfoldable pub retention_segment : Text → Category → Text
  unfolding segments_of
  retention_segment text label =
      join_lines (segments_of label (sort_occurrences (occurrences text retention_categories)) text)

  abbrev pub purpose_complete : Text → Bool
  purpose_complete s =
      re.search purpose s && not (re.search invalid_purpose s || re.search semantic_placeholder s)

  abbrev pub retention_complete : Text → Bool
  retention_complete s =
      (re.search retention_duration s || re.search event_deletion s || re.search non_persistence s)
      && not (re.search invalid_retention s || re.search semantic_placeholder s)

  -- One round of the loop over the segments.
  abbrev pub category_problems : Category → Text → List RetentionProblem
  category_problems c s =
      if not (truthy s)
      then category_missing c ∷ []
      else when (not (purpose_complete s)) (purpose_missing c)
        ++ when (not (retention_complete s)) (rule_missing c)

  unfoldable pub retention_problems : Text → List Category → List RetentionProblem
  unfolding retention_segment
  retention_problems text [] = []
  retention_problems text (c ∷ rest) =
      category_problems c (retention_segment text c) ++ retention_problems text rest

  unfoldable pub retention_semantic_findings : Text → List ReadinessFinding
  unfolding retention_problems
  retention_semantic_findings text =
      let problems = retention_problems text retention_categories in
      when (not (is_empty problems))
        (blocking requirements_and_governance (retention_semantics_incomplete problems))
