-- ===== src/Accelerator/Model.antt =====
-- ki_radar/accelerator/models.py: capture sessions, analyses, suggestions and candidates.
use ki_use_case_radar.Common.{ℕ, Bool, true, false, ◌&&◌, Option, Text, is_none, is_some}
use ki_use_case_radar.Accounts.{User}

pub data CaptureType : Type 0 where
  value_stream use_case : CaptureType

pub data SessionStatus : Type 0 where
  draft completed discarded expired : SessionStatus

pub data AnalysisStatus : Type 0 where
  running success failed : AnalysisStatus

pub data FieldType : Type 0 where
  text_type other_type : FieldType

pub data Uncertainty : Type 0 where
  low medium high : Uncertainty

pub data CandidateStatus : Type 0 where
  open_candidate processing adopted adopted_edited rejected conflict : CandidateStatus
  superseded stale failed_candidate : CandidateStatus

-- The error codes of a candidate; `no_error` is the empty text.
pub data ErrorCode : Type 0 where
  no_error field_conflict target_missing target_inactive permission_denied : ErrorCode
  validation_failed action_not_allowed stale_candidate integrity_failed : ErrorCode
  unsupported_field conflict_discarded superseded_by_new : ErrorCode

-- The versions of the contract that a row was made under.
pub record Versions : Type 0 where
  pub catalog : Text
  pub answer_schema : Text
  pub prompt : Text
  pub extraction_schema : Text

pub record CaptureSession : Type 0 where
  pub capture_type : CaptureType
  pub status : SessionStatus
  pub revision : ℕ
  pub catalog_version : Text
  pub schema_version : Text
  pub target_value_stream : Option ℕ
  pub target_use_case : Option ℕ
  pub expires_at : ℕ

pub record CaptureAnalysis : Type 0 where
  pub capture_type : CaptureType
  pub status : AnalysisStatus
  pub source_revision : ℕ
  pub source_hash : Text
  pub versions : Versions

-- A suggestion. `suggested_value` is none if the stored value is no text; `target_field` is the field
-- that `adoption_field_name` resolves it to.
pub record Suggestion : Type 0 where
  pub target_object_type : CaptureType
  pub target_object_id : Option ℕ
  pub target_field : Option Text
  pub target_group_key : Text
  pub field_type : FieldType
  pub suggested_value : Option Text
  pub uncertainty : Uncertainty

-- `FieldAdoptionCandidate`
pub record Candidate : Type 0 where
  pub target_object_type : CaptureType
  pub target_object_id : ℕ
  pub target_field : Text
  pub proposed_value : Text
  pub previous_value_hash : Text
  pub target_updated_at : ℕ
  pub source_revision : ℕ
  pub source_hash : Text
  pub versions : Versions
  pub status : CandidateStatus
  pub processing_by : Option ℕ
  pub processing_started_at : Option ℕ
  pub resolved_at : Option ℕ
  pub error_code : ErrorCode

-- The object that a candidate points to: the text of the candidate's field, whether it is archived, and
-- who may edit it (`spec.can_edit`).
pub record Target : Type 0 where
  pub value : Text
  pub is_inactive : Bool
  pub can_edit : User → Bool

-- The constraint `adoption_candidate_state_valid`.
abbrev pub is_state_valid : Candidate → Bool
is_state_valid c = elim c.status [
  | processing ↦ is_some c.processing_by && is_some c.processing_started_at && is_none c.resolved_at
  | open_candidate ↦
      is_none c.processing_by && is_none c.processing_started_at && is_none c.resolved_at
  | _ ↦ is_some c.resolved_at
]

abbrev pub capture_type_eq : CaptureType → CaptureType → Bool
capture_type_eq value_stream value_stream = true
capture_type_eq use_case use_case = true
capture_type_eq _ _ = false

-- `_bound_target_id`
abbrev pub bound_target_id : CaptureSession → Option ℕ
bound_target_id s = elim s.capture_type [
  | value_stream ↦ s.target_value_stream
  | use_case ↦ s.target_use_case
]
