-- ===== src/Accelerator/Capture/Requests.antt =====
-- ki_radar/accelerator/services.py: the requests on a capture session.
use ki_use_case_radar.Common.{
  ℕ, true, false, ◌+◌, Option, none, some, List, [], ◌∷◌, Text, text_eq, ◌==◌, Result, ok, err,
  ◌>>=◌, ◌>>◌, require,
}
use ki_use_case_radar.Clock.{Clock}
use ki_use_case_radar.Accounts.{User}
use ki_use_case_radar.Accelerator.Model.{CaptureType, completed, discarded}
use ki_use_case_radar.Accelerator.Capture.{
  Document, CaptureCatalog, Capture, CaptureError, no_such_session, capture_denied, not_editable,
  revision_conflict, catalog_unsupported, schema_mismatch, answers_invalid, EntrySeconds, merge,
  validate_answer_document, completed_count, required_count, to_document, title_after,
  bounded_active_entry_seconds, days_of, retention_days, is_draft, expire_capture_session_if_due,
  can_manage_capture,
}

-- `get_owned_capture_session`, and `_locked_owned_session` inside a transaction
unfoldable pub owned_session : Clock → User → Capture → Result CaptureError Capture
owned_session clock actor s =
    require (s.owner == actor.id) no_such_session
    >> require (can_manage_capture actor s.capture_type) capture_denied
    >> ok (expire_capture_session_if_due clock s)

-- `_assert_editable` and `_assert_revision`
abbrev pub assert_current : ℕ → Capture → Result CaptureError Capture
assert_current expected s =
    require (is_draft s.status) not_editable
    >> require (s.revision == expected) revision_conflict
    >> ok s

abbrev pub checked_catalog : Capture → Option CaptureCatalog → Result CaptureError CaptureCatalog
checked_catalog s none = err catalog_unsupported
checked_catalog s (some catalog) =
    require (text_eq s.schema_version catalog.schema_version) schema_mismatch >> ok catalog

abbrev pub updates_of : Option Document → Result CaptureError Document
updates_of none = err answers_invalid
updates_of (some updates) = ok updates

-- What a save stores.
abbrev pub with_answers : Clock → CaptureCatalog → List (Text × Text) → ℕ → Text → Capture → Capture
with_answers clock catalog answers entered title s = record s {
  answers = to_document answers;
  answered_required_count = completed_count catalog answers;
  required_question_count = required_count catalog;
  active_entry_seconds = s.active_entry_seconds + entered;
  working_title = title;
  revision = s.revision + 1;
  save_count = s.save_count + 1;
  expires_at = clock.now + days_of 30;
}

abbrev pub with_completion : Clock → CaptureCatalog → List (Text × Text) → ℕ → Capture → Capture
with_completion clock catalog answers days s = record s {
  answers = to_document answers;
  answered_required_count = completed_count catalog answers;
  required_question_count = required_count catalog;
  status = completed;
  completed_at = some clock.now;
  expires_at = clock.now + days_of days;
  revision = s.revision + 1;
}

-- `catalogs` is the table CATALOGS, `setting` the setting of the retention of completed sessions.
module _ (catalogs : CaptureType → Text → Option CaptureCatalog) (setting : Option ℕ) where
  -- `_stored_catalog`
  abbrev pub stored_catalog : Capture → Result CaptureError CaptureCatalog
  stored_catalog s = checked_catalog s (catalogs s.capture_type s.catalog_version)

  -- `save_capture_session` behind the checks of the session; the updates are none if they are no
  -- JSON object.
  abbrev pub save_answers :
      Clock → Option Document → Option Text → EntrySeconds → Capture → Result CaptureError Capture
  save_answers clock updates title delta s = stored_catalog s >>= λ catalog.
      bounded_active_entry_seconds delta >>= λ entered.
      validate_answer_document catalog s.answers false >>= λ current.
      updates_of updates >>= λ changes.
      validate_answer_document catalog (merge (to_document current) changes) false >>= λ answers.
      title_after s.working_title title >>= λ new_title.
      ok (with_answers clock catalog answers entered new_title s)

  unfoldable pub save_capture_session :
      Clock
      → User
      → ℕ
      → Option Document
      → Option Text
      → EntrySeconds
      → Capture
      → Result CaptureError Capture
  save_capture_session clock actor expected updates title delta s =
      owned_session clock actor s
      >>= assert_current expected
      >>= save_answers clock updates title delta

  abbrev pub complete_answers : Clock → Capture → Result CaptureError Capture
  complete_answers clock s = stored_catalog s >>= λ catalog.
      validate_answer_document catalog s.answers true >>= λ answers.
      retention_days setting >>= λ days. ok (with_completion clock catalog answers days s)

  unfoldable pub complete_capture_session : Clock → User → ℕ → Capture → Result CaptureError Capture
  complete_capture_session clock actor expected s =
      owned_session clock actor s >>= assert_current expected >>= complete_answers clock

unfoldable pub discard_capture_session : Clock → User → ℕ → Capture → Result CaptureError Capture
discard_capture_session clock actor expected s =
    owned_session clock actor s >>= assert_current expected >>= λ locked. ok (record locked {
      status = discarded;
      discarded_at = some clock.now;
      revision = locked.revision + 1;
    })

pub data CaptureRequest : Type 0 where
  read_request : CaptureRequest
  save_request : ℕ → Option Document → Option Text → EntrySeconds → CaptureRequest
  complete_request discard_request : ℕ → CaptureRequest

-- The revision that a request expects.
abbrev pub expected_revision : CaptureRequest → Option ℕ
expected_revision read_request = none
expected_revision (save_request n updates title delta) = some n
expected_revision (complete_request n) = some n
expected_revision (discard_request n) = some n

module _ (catalogs : CaptureType → Text → Option CaptureCatalog) (setting : Option ℕ) where
  abbrev pub respond : Clock → User → CaptureRequest → Capture → Result CaptureError Capture
  respond clock actor read_request s = owned_session clock actor s
  respond clock actor (save_request n updates title delta) s =
      save_capture_session catalogs setting clock actor n updates title delta s
  respond clock actor (complete_request n) s =
      complete_capture_session catalogs setting clock actor n s
  respond clock actor (discard_request n) s = discard_capture_session clock actor n s

  -- A request that raises leaves the session as it was.
  abbrev pub after_response : Capture → Result CaptureError Capture → Capture
  after_response s (ok next) = next
  after_response s (err raised) = s

  unfoldable pub run_capture : List (Clock × User × CaptureRequest) → Capture → Capture
  run_capture [] s = s
  run_capture ((clock, actor, request) ∷ rest) s =
      run_capture rest (after_response s (respond clock actor request s))
