-- ===== src/Samples/Capture.antt =====
-- A capture session at concrete requests.
use ki_use_case_radar.Common.{
  ℕ, true, false, Option, none, some, [], ◌∷◌, Text, codes, strip, ◌≡◌, refl, ok, err, is_ok,
}
use ki_use_case_radar.Accounts.{is_business_owner}
use ki_use_case_radar.Accelerator.Model.{CaptureType, use_case, draft, discarded}
use ki_use_case_radar.Accelerator.Capture.{
  json_text, CaptureCatalog, Capture, entry_seconds, answers_invalid, normalize_answers,
  validate_answer_document, expire_capture_session_if_due,
}
use ki_use_case_radar.Accelerator.Capture.Requests.{
  owned_session, save_capture_session, complete_capture_session, CaptureRequest, read_request,
  save_request, complete_request, discard_request, respond, run_capture,
}
use ki_use_case_radar.Accelerator.Capture.Locking.{run_capture-one_winner}
use ki_use_case_radar.Accelerator.Capture.Closed.{IsClosedCopy, run_capture_closed}
use ki_use_case_radar.Samples.{clock, owner}

abbrev catalog : CaptureCatalog
catalog = record {
  version = codes "1";
  schema_version = codes "1";
  questions =
      record { key = codes "goal"; required = true; max_length = 20 }
      ∷ record { key = codes "note"; required = false; max_length = 5 }
      ∷ [];
}

abbrev catalogs : CaptureType → Text → Option CaptureCatalog
catalogs kind version = some catalog

abbrev empty_session : Capture
empty_session = record {
  owner = 3;
  capture_type = use_case;
  working_title = [];
  catalog_version = codes "1";
  schema_version = codes "1";
  answers = [];
  status = draft;
  revision = 0;
  answered_required_count = 0;
  required_question_count = 1;
  active_entry_seconds = 0;
  save_count = 0;
  expires_at = 200;
  completed_at = none;
  discarded_at = none;
  expired_at = none;
  is_running = false;
}

abbrev save_goal : ℕ → CaptureRequest
save_goal n =
    save_request n (some ((codes "goal", json_text (codes " less work ")) ∷ [])) none
      (entry_seconds 1000)

-- The entry time of a save is cut, and its answers are trimmed.
abbrev saved : Capture
saved = record empty_session {
  answers = (codes "goal", json_text (codes "less work")) ∷ [];
  answered_required_count = 1;
  active_entry_seconds = 900;
  revision = 1;
  save_count = 1;
  expires_at = 2592100;
}

first_save : respond catalogs (some 90) clock owner (save_goal 0) empty_session ≡ ok saved
unfolding save_capture_session owned_session expire_capture_session_if_due is_business_owner
    validate_answer_document normalize_answers strip
first_save = refl

-- The required answer is missing.
incomplete :
    respond catalogs (some 90) clock owner (complete_request 0) empty_session ≡ err answers_invalid
unfolding complete_capture_session owned_session expire_capture_session_if_due is_business_owner
    validate_answer_document normalize_answers
incomplete = refl

run_capture-one_winner_example :
    is_ok (
      respond catalogs
        (some 90)
        clock
        owner
        (discard_request 0)
        (run_capture catalogs (some 90) ((clock, owner, complete_request 1) ∷ []) saved))
    ≡ false
run_capture-one_winner_example =
    run_capture-one_winner catalogs (some 90) ((clock, owner, complete_request 1) ∷ []) clock clock
      owner owner (save_goal 0) (discard_request 0) 0 empty_session saved refl refl first_save

abbrev dropped : Capture
dropped = record saved { status = discarded; discarded_at = some 100; revision = 2 }

run_capture_closed_example : IsClosedCopy dropped (
    run_capture catalogs
      (some 90)
      ((clock, owner, save_goal 2) ∷ (clock, owner, read_request) ∷ [])
      dropped)
run_capture_closed_example =
    run_capture_closed catalogs (some 90)
      ((clock, owner, save_goal 2) ∷ (clock, owner, read_request) ∷ []) dropped refl
