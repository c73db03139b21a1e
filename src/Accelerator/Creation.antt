-- ===== src/Accelerator/Creation.antt =====
-- ki_radar/accelerator/candidate_snapshot.py and candidate_state.py: how the suggestions of an analysis
-- become candidates.
pub mod Unique
use ki_use_case_radar.Common.{
  ℕ, Bool, false, ◌&&◌, not, Option, none, some, List, [], ◌∷◌, map, filter, any, Text, text_eq,
  truthy, ◌==◌, if◌then◌else◌, Result, ok, err, ◌>>=◌, ◌>>◌, require, raise_if,
}
use ki_use_case_radar.Clock.{Clock}
use ki_use_case_radar.Accelerator.Model.{
  CaptureType, capture_type_eq, CaptureSession, CaptureAnalysis, Suggestion, Candidate,
  open_candidate, superseded, no_error, superseded_by_new, bound_target_id,
}
use ki_use_case_radar.Accelerator.Candidates.{
  Contract, canonicalize_text, canonical_text_hash, is_open, is_success,
}
use ki_use_case_radar.Accelerator.Adoption.{is_text_type}

-- A candidate with the key of its suggestion, which is unique among the candidates.
pub record CandidateRow : Type 0 where
  pub suggestion : ℕ
  pub candidate : Candidate

pub record SuggestionRow : Type 0 where
  pub pk : ℕ
  pub suggestion : Suggestion

-- The object that the session is bound to. `text_of` gives the texts of its adoptable fields, which
-- all are text fields.
pub record TargetObject : Type 0 where
  pub pk : ℕ
  pub is_inactive : Bool
  pub updated_at : ℕ
  pub text_of : Text → Text

pub data CreationError : Type 0 where
  analysis_not_successful types_differ no_bound_target bound_target_gone : CreationError
  bound_target_inactive value_is_no_text : CreationError

abbrev pub is_excluded_suggestion : Option ℕ → ℕ → Bool
is_excluded_suggestion none pk = false
is_excluded_suggestion (some p) pk = pk == p

-- The candidates that the query of `supersede_open_candidates` finds.
abbrev pub is_replaced : CaptureType → ℕ → Text → Option ℕ → CandidateRow → Bool
is_replaced kind target field excluded r =
    is_open r.candidate.status
    && capture_type_eq r.candidate.target_object_type kind
    && r.candidate.target_object_id == target
    && text_eq r.candidate.target_field field
    && not (is_excluded_suggestion excluded r.suggestion)

abbrev pub supersede : Clock → CandidateRow → CandidateRow
supersede clock r = record r {
  candidate = record (r.candidate) {
    status = superseded;
    resolved_at = some clock.now;
    error_code = superseded_by_new;
  };
}

-- The rows after it; the number of changed rows is read by no caller.
unfoldable pub supersede_open_candidates :
    Clock → CaptureType → ℕ → Text → Option ℕ → List CandidateRow → List CandidateRow
supersede_open_candidates clock kind target field excluded = map (λ (r : CandidateRow).
    if is_replaced kind target field excluded r then supersede clock r else r)

-- What the constraint `uniq_open_adoption_target_field` excludes.
abbrev pub same_open_field : CandidateRow → CandidateRow → Bool
same_open_field a b =
    is_open a.candidate.status
    && is_open b.candidate.status
    && capture_type_eq b.candidate.target_object_type a.candidate.target_object_type
    && b.candidate.target_object_id == a.candidate.target_object_id
    && text_eq b.candidate.target_field a.candidate.target_field

abbrev pub has_candidate : ℕ → List CandidateRow → Bool
has_candidate pk rows = any (λ (r : CandidateRow). r.suggestion == pk) rows

abbrev pub is_suggested : CaptureType → SuggestionRow → Bool
is_suggested kind s =
    capture_type_eq s.suggestion.target_object_type kind
    && not (truthy s.suggestion.target_group_key)
    && is_text_type s.suggestion.field_type

module _ (contract : Contract) (clock : Clock) (analysis : CaptureAnalysis) where
  unfoldable pub new_candidate : CaptureType → TargetObject → Text → Text → Candidate
  new_candidate kind t field value = record {
    target_object_type = kind;
    target_object_id = t.pk;
    target_field = field;
    proposed_value = canonicalize_text contract value;
    previous_value_hash = canonical_text_hash contract (t.text_of field);
    target_updated_at = t.updated_at;
    source_revision = analysis.source_revision;
    source_hash = analysis.source_hash;
    versions = analysis.versions;
    status = open_candidate;
    processing_by = none;
    processing_started_at = none;
    resolved_at = none;
    error_code = no_error;
  }

  -- The candidate for a suggestion with this value, behind the older ones for its field.
  abbrev pub add_candidate :
      CaptureType
      → TargetObject
      → Text
      → ℕ
      → Option Text
      → List CandidateRow
      → Result CreationError (List CandidateRow)
  add_candidate kind t field pk none rows = err value_is_no_text
  add_candidate kind t field pk (some value) rows = ok (
      record { suggestion = pk; candidate = new_candidate kind t field value }
      ∷ supersede_open_candidates clock kind t.pk field (some pk) rows)

  abbrev pub candidate_for :
      CaptureType
      → TargetObject
      → SuggestionRow
      → Option Text
      → List CandidateRow
      → Result CreationError (List CandidateRow)
  candidate_for kind t s none rows = ok rows
  candidate_for kind t s (some field) rows =
      if has_candidate s.pk rows
      then ok rows
      else add_candidate kind t field s.pk s.suggestion.suggested_value rows

  unfoldable pub create_each :
      CaptureType
      → TargetObject
      → List SuggestionRow
      → List CandidateRow
      → Result CreationError (List CandidateRow)
  create_each kind t [] rows = ok rows
  create_each kind t (s ∷ rest) rows =
      candidate_for kind t s s.suggestion.target_field rows >>= λ next. create_each kind t rest next

  -- `target` is the object of the session's capture type with the bound key, if it is there.
  abbrev pub create_on :
      CaptureType
      → Option TargetObject
      → List SuggestionRow
      → List CandidateRow
      → Result CreationError (List CandidateRow)
  create_on kind none suggestions rows = err bound_target_gone
  create_on kind (some t) suggestions rows =
      raise_if t.is_inactive bound_target_inactive
      >> create_each kind t (filter (is_suggested kind) suggestions) rows

  abbrev pub create_bound :
      Option ℕ
      → CaptureType
      → (ℕ → Option TargetObject)
      → List SuggestionRow
      → List CandidateRow
      → Result CreationError (List CandidateRow)
  create_bound none kind find suggestions rows = err no_bound_target
  create_bound (some id) kind find suggestions rows = create_on kind (find id) suggestions rows

  -- `find` is the query on the objects of the session's capture type, `suggestions` the rows of the
  -- analysis in the order of their target field, and `rows` all candidates. The result holds the
  -- candidates afterwards; the handler returns those of its suggestions.
  unfoldable pub create_adoption_candidates :
      CaptureSession
      → (ℕ → Option TargetObject)
      → List SuggestionRow
      → List CandidateRow
      → Result CreationError (List CandidateRow)
  create_adoption_candidates session find suggestions rows =
      require (is_success analysis.status) analysis_not_successful
      >> require (capture_type_eq analysis.capture_type session.capture_type) types_differ
      >> create_bound (bound_target_id session) session.capture_type find suggestions rows
