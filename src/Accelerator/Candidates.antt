-- ===== src/Accelerator/Candidates.antt =====
-- ki_radar/accelerator: candidate_state.py, candidate_snapshot.py and adoption_policy.py.
use ki_use_case_radar.Common.{
  ℕ, Bool, true, false, ◌&&◌, ◌||◌, not, Option, none, some, [], ◌∷◌, Text, strip, text_eq, holds,
  ltb, ◌==◌, if◌then◌else◌, Result, ok, err,
}
use ki_use_case_radar.Clock.{Clock}
use ki_use_case_radar.Accounts.{User}
use ki_use_case_radar.Accelerator.Model.{
  SessionStatus, AnalysisStatus, Uncertainty, CandidateStatus, open_candidate, processing, adopted,
  adopted_edited, rejected, conflict, superseded, stale, failed_candidate, ErrorCode, no_error,
  Versions, CaptureSession, CaptureAnalysis, Candidate, Target, low, medium, high, completed,
  success, capture_type_eq, bound_target_id,
}

-- `unicodedata.normalize("NFC", …)` and the digest of `hashlib.sha256`, with the versions of the
-- current contract.
pub record Contract : Type 0 where
  pub normalize : Text → Text
  pub digest : Text → Text
  pub expected_versions : Versions

-- `value.replace("\r\n", "\n").replace("\r", "\n")`
abbrev pub unix_lines : Text → Text
unix_lines [] = []
unix_lines (c ∷ []) = (if c == 13 then 10 else c) ∷ []
unix_lines (c ∷ d ∷ t) =
    let rest = unix_lines (d ∷ t) in
    if c == 13 then (if d == 10 then rest else 10 ∷ rest) else c ∷ rest

-- The rest of a text begins with a line feed or is empty.
abbrev pub ends_line : Text → Bool
ends_line [] = true
ends_line (c ∷ t) = c == 10

-- `line.rstrip(" \t")` of each line: blanks before a line feed or the end are dropped.
abbrev pub drop_trailing : Text → Text
drop_trailing [] = []
drop_trailing (c ∷ t) =
    let rest = drop_trailing t in if (c == 32 || c == 9) && ends_line rest then rest else c ∷ rest

module _ (contract : Contract) where
  unfoldable pub canonicalize_text : Text → Text
  canonicalize_text value = strip (drop_trailing (contract.normalize (unix_lines value)))

  unfoldable pub canonical_text_hash : Text → Text
  unfolding canonicalize_text
  canonical_text_hash value = contract.digest (canonicalize_text value)

pub data AdoptionAction : Type 0 where
  direct edited reject : AdoptionAction

-- UNCERTAINTY_ACTIONS
abbrev pub adoption_action_allowed : Uncertainty → AdoptionAction → Bool
adoption_action_allowed low action = true
adoption_action_allowed medium direct = false
adoption_action_allowed medium action = true
adoption_action_allowed high reject = true
adoption_action_allowed high action = false

abbrev pub is_open : CandidateStatus → Bool
is_open open_candidate = true
is_open _ = false

abbrev pub is_processing : CandidateStatus → Bool
is_processing processing = true
is_processing _ = false

abbrev pub is_conflict : CandidateStatus → Bool
is_conflict conflict = true
is_conflict _ = false

-- `status in TERMINAL_CANDIDATE_STATUSES`
abbrev pub is_terminal : CandidateStatus → Bool
is_terminal open_candidate = false
is_terminal processing = false
is_terminal _ = true

abbrev pub status_eq : CandidateStatus → CandidateStatus → Bool
status_eq open_candidate open_candidate = true
status_eq processing processing = true
status_eq adopted adopted = true
status_eq adopted_edited adopted_edited = true
status_eq rejected rejected = true
status_eq conflict conflict = true
status_eq superseded superseded = true
status_eq stale stale = true
status_eq failed_candidate failed_candidate = true
status_eq _ _ = false

-- `reserve_candidate`: the row after it, and whether this call has acquired it
unfoldable pub reserve_candidate : Clock → User → Candidate → Candidate × Bool
reserve_candidate clock actor c =
    if is_open c.status
    then (
      record c {
        status = processing;
        processing_by = some actor.id;
        processing_started_at = some clock.now;
        resolved_at = none;
        error_code = no_error;
      },
      true,
    )
    else (c, false)

pub data CandidateError : Type 0 where
  not_terminal completed_otherwise adoption_disabled : CandidateError

unfoldable pub complete_candidate :
    Clock → User → CandidateStatus → ErrorCode → Candidate → Result CandidateError Candidate
complete_candidate clock actor status code c =
    if not (is_terminal status)
    then err not_terminal
    else if is_processing c.status && holds c.processing_by actor.id
    then ok (record c { status = status; resolved_at = some clock.now; error_code = code })
    else if status_eq c.status status
    then ok c
    else err completed_otherwise

abbrev pub versions_eq : Versions → Versions → Bool
versions_eq a b =
    text_eq a.catalog b.catalog
    && text_eq a.answer_schema b.answer_schema
    && text_eq a.prompt b.prompt
    && text_eq a.extraction_schema b.extraction_schema

pub data CandidateValidity : Type 0 where
  valid missing inactive outdated : CandidateValidity

abbrev pub is_success : AnalysisStatus → Bool
is_success success = true
is_success _ = false

abbrev pub is_completed : SessionStatus → Bool
is_completed completed = true
is_completed _ = false

-- `not is_stale`
unfoldable pub is_fresh : Versions → ℕ → CaptureSession → CaptureAnalysis → Candidate → Bool
is_fresh expected now session analysis c =
    is_success analysis.status
    && is_completed session.status
    && ltb now session.expires_at
    && session.revision == c.source_revision
    && analysis.source_revision == c.source_revision
    && text_eq analysis.source_hash c.source_hash
    && versions_eq c.versions expected
    && versions_eq analysis.versions c.versions
    && text_eq session.catalog_version c.versions.catalog
    && text_eq session.schema_version c.versions.answer_schema
    && capture_type_eq analysis.capture_type c.target_object_type
    && capture_type_eq session.capture_type c.target_object_type
    && holds (bound_target_id session) c.target_object_id

abbrev pub candidate_validity :
    Versions → ℕ → CaptureSession → CaptureAnalysis → Option Target → Candidate → CandidateValidity
candidate_validity expected now session analysis none c = missing
candidate_validity expected now session analysis (some t) c =
    if t.is_inactive
    then inactive
    else if is_fresh expected now session analysis c
    then valid
    else outdated
