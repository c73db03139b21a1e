-- ===== src/Accelerator/Capture.antt =====
-- ki_radar/accelerator/services.py, with retention.py, retention_policy.py and the answer documents of
-- catalogs.py: the capture sessions.
pub mod Requests
pub mod Locking
pub mod Closed
pub mod Retention
use ki_use_case_radar.Common.{
  ℕ, Bool, true, false, ◌&&◌, not, ◌*◌, Option, none, some, List, [], ◌∷◌, filter, any, length,
  find_last, Text, text_eq, truthy, strip, ltb, leb, if◌then◌else◌, Result, ok, err, ◌>>◌, require,
  raise_if,
}
use ki_use_case_radar.Clock.{Clock}
use ki_use_case_radar.Accounts.{User, is_business_owner}
use ki_use_case_radar.Accelerator.Model.{CaptureType, SessionStatus, draft, completed, expired}

-- A value of a JSON object: a text or something else.
pub data Json : Type 0 where
  json_text : Text → Json
  other_json : Json

abbrev pub Document : Type 0
Document = List (Text × Json)

-- `CaptureQuestion`, less its texts.
pub record CaptureQuestion : Type 0 where
  pub key : Text
  pub required : Bool
  pub max_length : ℕ

-- `CaptureCatalog` with the questions of its sections.
pub record CaptureCatalog : Type 0 where
  pub version : Text
  pub schema_version : Text
  pub questions : List CaptureQuestion

-- A row of `CaptureSession`. `is_running` says that one of its analyses is running.
pub record Capture : Type 0 where
  pub owner : ℕ
  pub capture_type : CaptureType
  pub working_title : Text
  pub catalog_version : Text
  pub schema_version : Text
  pub answers : Document
  pub status : SessionStatus
  pub revision : ℕ
  pub answered_required_count : ℕ
  pub required_question_count : ℕ
  pub active_entry_seconds : ℕ
  pub save_count : ℕ
  pub expires_at : ℕ
  pub completed_at : Option ℕ
  pub discarded_at : Option ℕ
  pub expired_at : Option ℕ
  pub is_running : Bool

pub data CaptureError : Type 0 where
  no_such_session capture_denied not_editable revision_conflict catalog_unsupported : CaptureError
  schema_mismatch seconds_invalid answers_invalid title_too_long retention_invalid : CaptureError

-- `active_entry_seconds_delta` as `int` reads it
pub data EntrySeconds : Type 0 where
  no_number negative : EntrySeconds
  entry_seconds : ℕ → EntrySeconds

-- `{**answers, **updates}`
abbrev pub put : Text → Json → Document → Document
put key value [] = (key, value) ∷ []
put key value ((k, v) ∷ rest) =
    let later = put key value rest in if text_eq k key then (key, value) ∷ rest else (k, v) ∷ later

abbrev pub merge : Document → Document → Document
merge answers [] = answers
merge answers ((key, value) ∷ rest) = merge (put key value answers) rest

abbrev pub answer_of : Text → List (Text × Text) → Text
answer_of key [] = []
answer_of key ((k, v) ∷ rest) = let later = answer_of key rest in if text_eq k key then v else later

abbrev pub question_of : CaptureCatalog → Text → Option CaptureQuestion
question_of catalog key = find_last (λ (q : CaptureQuestion). text_eq q.key key) catalog.questions

-- One answer of the loop of `validate_answer_document`; none if it adds an error.
abbrev pub clean_answer : Option CaptureQuestion → Json → Option Text
clean_answer none value = none
clean_answer (some q) other_json = none
clean_answer (some q) (json_text t) =
    if ltb q.max_length (length (strip t)) then none else some (strip t)

abbrev pub prepend : Text → Option Text → Option (List (Text × Text)) → Option (List (Text × Text))
prepend key (some value) (some rest) = some ((key, value) ∷ rest)
prepend key _ _ = none

unfoldable pub normalize_answers : CaptureCatalog → Document → Option (List (Text × Text))
normalize_answers catalog [] = some []
normalize_answers catalog ((key, value) ∷ rest) =
    prepend key (clean_answer (question_of catalog key) value) (normalize_answers catalog rest)

abbrev pub is_unanswered : List (Text × Text) → CaptureQuestion → Bool
is_unanswered answers q = q.required && not (truthy (answer_of q.key answers))

abbrev pub check_answers :
    CaptureCatalog → Bool → Option (List (Text × Text)) → Result CaptureError (List (Text × Text))
check_answers catalog require_complete none = err answers_invalid
check_answers catalog require_complete (some answers) =
    if require_complete && any (is_unanswered answers) catalog.questions
    then err answers_invalid
    else ok answers

unfoldable pub validate_answer_document :
    CaptureCatalog → Document → Bool → Result CaptureError (List (Text × Text))
validate_answer_document catalog answers require_complete =
    check_answers catalog require_complete (normalize_answers catalog answers)

abbrev pub completed_count : CaptureCatalog → List (Text × Text) → ℕ
completed_count catalog answers = length (
    filter (λ (q : CaptureQuestion). q.required && truthy (strip (answer_of q.key answers)))
      catalog.questions)

abbrev pub required_count : CaptureCatalog → ℕ
required_count catalog = length (filter (λ (q : CaptureQuestion). q.required) catalog.questions)

abbrev pub to_document : List (Text × Text) → Document
to_document [] = []
to_document ((key, value) ∷ rest) = (key, json_text value) ∷ to_document rest

unfoldable pub normalize_working_title : Text → Result CaptureError Text
normalize_working_title value =
    raise_if (ltb 200 (length (strip value))) title_too_long >> ok (strip value)

-- `if working_title is not None: …`
abbrev pub title_after : Text → Option Text → Result CaptureError Text
title_after current none = ok current
title_after current (some value) = normalize_working_title value

abbrev pub bounded_active_entry_seconds : EntrySeconds → Result CaptureError ℕ
bounded_active_entry_seconds no_number = err seconds_invalid
bounded_active_entry_seconds negative = err seconds_invalid
bounded_active_entry_seconds (entry_seconds n) = ok (if ltb 900 n then 900 else n)

-- `timedelta(days=…)` in seconds
abbrev pub days_of : ℕ → ℕ
days_of n = n * 86400

-- `get_completed_capture_retention_days`; none stands for a setting that is no integer.
abbrev pub retention_days : Option ℕ → Result CaptureError ℕ
retention_days none = err retention_invalid
retention_days (some days) = require (leb 30 days && leb days 365) retention_invalid >> ok days

abbrev pub is_draft : SessionStatus → Bool
is_draft draft = true
is_draft _ = false

abbrev pub is_expirable : SessionStatus → Bool
is_expirable draft = true
is_expirable completed = true
is_expirable _ = false

unfoldable pub expire_capture_session_if_due : Clock → Capture → Capture
expire_capture_session_if_due clock s =
    if is_expirable s.status && leb s.expires_at clock.now && not s.is_running
    then record s { status = expired; expired_at = some clock.now }
    else s

-- `_can_manage_capture`: `can_manage_architecture` and `can_create_use_case` ask the same.
abbrev pub can_manage_capture : User → CaptureType → Bool
can_manage_capture actor kind = is_business_owner actor
