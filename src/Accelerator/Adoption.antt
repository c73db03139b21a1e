-- ===== src/Accelerator/Adoption.antt =====
-- ki_radar/accelerator/adoption_service.py and adoption_audit.py: the adoption and the rejection of a
-- candidate.
pub mod Once
pub mod Safety
use ki_use_case_radar.Common.{
  ℕ, Bool, true, false, ◌&&◌, not, Option, none, some, [], Text, text_eq, truthy, holds, ◌==◌,
  if◌then◌else◌, Result, ok, ◌>>=◌, ◌>>◌, require,
}
use ki_use_case_radar.Clock.{Clock}
use ki_use_case_radar.Accounts.{User}
use ki_use_case_radar.Accelerator.Model.{
  CandidateStatus, processing, adopted, adopted_edited, rejected, conflict, stale, failed_candidate,
  ErrorCode, no_error, field_conflict, target_missing, target_inactive, permission_denied,
  validation_failed, action_not_allowed, stale_candidate, integrity_failed, unsupported_field,
  conflict_discarded, CaptureSession, CaptureAnalysis, Suggestion, Candidate, Target, FieldType,
  text_type, other_type, capture_type_eq, bound_target_id,
}
use ki_use_case_radar.Accelerator.Candidates.{
  Contract, canonicalize_text, canonical_text_hash, AdoptionAction, direct, edited, reject,
  adoption_action_allowed, is_conflict, CandidateError, adoption_disabled, reserve_candidate,
  complete_candidate, CandidateValidity, valid, missing, inactive, outdated, candidate_validity,
}

pub data AdoptionOutcome : Type 0 where
  was_adopted was_adopted_edited was_rejected in_conflict was_stale was_missing : AdoptionOutcome
  was_inactive was_denied was_invalid was_not_allowed in_progress has_failed : AdoptionOutcome

-- `edited_value`: absent, a text, or a value that is no text
pub data EditedValue : Type 0 where
  not_edited not_a_text : EditedValue
  edit : Text → EditedValue

pub data AuditAction : Type 0 where
  adopt_action reject_action : AuditAction

-- `FieldAdoptionAudit`, less what it copies from the suggestion and the analysis.
pub record Audit : Type 0 where
  pub actor : ℕ
  pub action : AuditAction
  pub outcome : AdoptionOutcome
  pub error_code : ErrorCode
  pub stored_value : Text

-- A candidate with its rows and its target. `audit` is the one of this candidate, which is unique;
-- `is_adoptable` says that the field registry has its field.
pub record AdoptionCase : Type 0 where
  pub candidate : Candidate
  pub suggestion : Suggestion
  pub analysis : CaptureAnalysis
  pub session : CaptureSession
  pub target : Option Target
  pub audit : Option Audit
  pub is_adoptable : Bool

-- What the handler has decided: the new status with its outcome and code, the value for the audit, and
-- the text to store in the target, if any.
pub record Verdict : Type 0 where
  pub status : CandidateStatus
  pub outcome : AdoptionOutcome
  pub error_code : ErrorCode
  pub audit_value : Text
  pub write : Option Text

abbrev pub refuse : CandidateStatus → AdoptionOutcome → ErrorCode → Text → Verdict
refuse status outcome code value = record {
  status = status;
  outcome = outcome;
  error_code = code;
  audit_value = value;
  write = none;
}

-- `_STATUS_OUTCOMES` behind `_ERROR_OUTCOMES`
abbrev pub status_outcome : CandidateStatus → AdoptionOutcome
status_outcome adopted = was_adopted
status_outcome adopted_edited = was_adopted_edited
status_outcome rejected = was_rejected
status_outcome conflict = in_conflict
status_outcome stale = was_stale
status_outcome processing = in_progress
status_outcome _ = has_failed

abbrev pub outcome_of : ErrorCode → CandidateStatus → AdoptionOutcome
outcome_of field_conflict status = in_conflict
outcome_of target_missing status = was_missing
outcome_of target_inactive status = was_inactive
outcome_of permission_denied status = was_denied
outcome_of validation_failed status = was_invalid
outcome_of action_not_allowed status = was_not_allowed
outcome_of _ status = status_outcome status

abbrev pub result_from_candidate : Candidate → AdoptionOutcome
result_from_candidate c = outcome_of c.error_code c.status

abbrev pub is_text_type : FieldType → Bool
is_text_type text_type = true
is_text_type other_type = false

abbrev pub matches_target : Option ℕ → ℕ → Bool
matches_target none id = true
matches_target (some t) id = t == id

abbrev pub is_text : Option Text → Text → Bool
is_text none t = false
is_text (some s) t = text_eq s t

-- `_validity_failure`, or what follows on a valid candidate
abbrev pub validity_verdict : CandidateValidity → Verdict → Verdict
validity_verdict valid next = next
validity_verdict missing next = refuse stale was_missing target_missing []
validity_verdict inactive next = refuse stale was_inactive target_inactive []
validity_verdict outdated next = refuse stale was_stale stale_candidate []

-- `apply_prepared_field_update`
abbrev pub write_target : Option Text → Option Target → Option Target
write_target written none = none
write_target none (some t) = some t
write_target (some new) (some t) = some (record t { value = new })

module _ (contract : Contract) where
  abbrev pub proposes : Option Text → Text → Bool
  proposes none proposed = false
  proposes (some value) proposed = text_eq (canonicalize_text contract value) proposed

  unfoldable pub candidate_integrity_valid : AdoptionCase → Bool
  candidate_integrity_valid k =
      let c = k.candidate in
      let s = k.suggestion in
      proposes s.suggested_value c.proposed_value
      && capture_type_eq c.target_object_type s.target_object_type
      && capture_type_eq c.target_object_type k.analysis.capture_type
      && capture_type_eq c.target_object_type k.session.capture_type
      && is_text s.target_field c.target_field
      && is_text_type s.field_type
      && not (truthy s.target_group_key)
      && matches_target s.target_object_id c.target_object_id
      && holds (bound_target_id k.session) c.target_object_id

  unfoldable pub requested_action : Candidate → EditedValue → AdoptionAction
  requested_action c not_edited = direct
  requested_action c not_a_text = edited
  requested_action c (edit t) =
      if text_eq (canonicalize_text contract t) c.proposed_value then direct else edited

  -- `final_value`; none if the requested value is no text
  abbrev pub final_value : Candidate → EditedValue → Option Text
  final_value c not_edited = some (canonicalize_text contract c.proposed_value)
  final_value c not_a_text = none
  final_value c (edit t) = some (canonicalize_text contract t)

  -- `edited_value is not None and final_value != candidate.proposed_value`
  abbrev pub is_edited : Candidate → EditedValue → Text → Bool
  is_edited c not_edited final = false
  is_edited c _ final = not (text_eq final c.proposed_value)

  abbrev pub adoption : Bool → Text → Option Text → Verdict
  adoption was_edited value written = record {
    status = if was_edited then adopted_edited else adopted;
    outcome = if was_edited then was_adopted_edited else was_adopted;
    error_code = no_error;
    audit_value = value;
    write = written;
  }

  -- `clean` is what the target's form makes of a text for the field: the cleaned text, or none with
  -- errors. The value behind the checks of the candidate and of the target.
  module _ (clean : Text → Option Text) where
    abbrev pub store_cleaned : Text → Bool → Option Text → Verdict
    store_cleaned current was_edited none =
        refuse failed_candidate was_invalid validation_failed current
    store_cleaned current was_edited (some cleaned) =
        adoption was_edited (canonicalize_text contract cleaned) (some cleaned)

    abbrev pub value_verdict : Candidate → EditedValue → Text → Option Text → Verdict
    value_verdict c e current none = refuse failed_candidate was_invalid validation_failed current
    value_verdict c e current (some final) =
        if text_eq (canonical_text_hash contract final) (canonical_text_hash contract current)
        then adoption (is_edited c e final) current none
        else store_cleaned current (is_edited c e final) (clean final)

    abbrev pub target_verdict : Candidate → EditedValue → Text → Verdict
    target_verdict c e current =
        if not (text_eq (canonical_text_hash contract current) c.previous_value_hash)
        then refuse conflict in_conflict field_conflict current
        else value_verdict c e current (final_value c e)

    abbrev pub permitted_verdict : User → Candidate → EditedValue → Target → Verdict
    permitted_verdict actor c e t =
        if not (t.can_edit actor)
        then refuse failed_candidate was_denied permission_denied []
        else target_verdict c e (canonicalize_text contract t.value)

    abbrev pub checked_verdict :
        Clock → AdoptionCase → AdoptionAction → Option Target → (Target → Verdict) → Verdict
    checked_verdict clock k action none next = refuse stale was_missing target_missing []
    checked_verdict clock k action (some t) next =
        if not (candidate_integrity_valid k)
        then refuse stale was_stale integrity_failed []
        else if not (adoption_action_allowed k.suggestion.uncertainty action)
        then refuse failed_candidate was_not_allowed action_not_allowed []
        else validity_verdict
            (candidate_validity contract.expected_versions clock.now k.session k.analysis (some t)
              k.candidate)
            (next t)

    unfoldable pub adopt_verdict : Clock → User → EditedValue → AdoptionCase → Verdict
    adopt_verdict clock actor e k =
        if not k.is_adoptable
        then refuse failed_candidate has_failed unsupported_field []
        else checked_verdict clock k (requested_action k.candidate e) k.target
            (permitted_verdict actor k.candidate e)

  abbrev pub reject_permitted : User → Target → Verdict
  reject_permitted actor t =
      if not (t.can_edit actor)
      then refuse failed_candidate was_denied permission_denied []
      else refuse rejected was_rejected no_error (canonicalize_text contract t.value)

  abbrev pub reject_checked : Clock → User → AdoptionCase → Option Target → Verdict
  reject_checked clock actor k none = refuse stale was_missing target_missing []
  reject_checked clock actor k (some t) =
      if not (candidate_integrity_valid k)
      then refuse stale was_stale integrity_failed []
      else validity_verdict
          (candidate_validity contract.expected_versions clock.now k.session k.analysis (some t)
            k.candidate)
          (reject_permitted actor t)

  unfoldable pub reject_verdict : Clock → User → AdoptionCase → Verdict
  reject_verdict clock actor k =
      if not (adoption_action_allowed k.suggestion.uncertainty reject)
      then refuse failed_candidate was_not_allowed action_not_allowed []
      else if not k.is_adoptable
      then refuse failed_candidate has_failed unsupported_field []
      else reject_checked clock actor k k.target

  -- `record_adoption_audit`: `get_or_create` keeps an audit that is there.
  abbrev pub record_adoption_audit : User → AuditAction → Verdict → Option Audit → Option Audit
  record_adoption_audit actor action v (some old) = some old
  record_adoption_audit actor action v none = some (record {
    actor = actor.id;
    action = action;
    outcome = v.outcome;
    error_code = v.error_code;
    stored_value = canonicalize_text contract v.audit_value;
  })

  unfoldable pub complete_result :
      Clock
      → User
      → AuditAction
      → Verdict
      → AdoptionCase
      → Result CandidateError (AdoptionCase × AdoptionOutcome)
  complete_result clock actor action v k =
      complete_candidate clock actor v.status v.error_code k.candidate >>= λ c. ok (
        record k {
          candidate = c;
          audit = record_adoption_audit actor action v k.audit;
          target = write_target v.write k.target;
        },
        v.outcome,
      )

  abbrev pub with_reservation :
      Candidate × Bool
      → AdoptionCase
      → (AdoptionCase → Result CandidateError (AdoptionCase × AdoptionOutcome))
      → (Candidate → Result CandidateError (AdoptionCase × AdoptionOutcome))
      → Result CandidateError (AdoptionCase × AdoptionOutcome)
  with_reservation (c, true) k next other = next (record k { candidate = c })
  with_reservation (c, false) k next other = other c

  -- `enabled` is the setting ACCELERATOR_FIELD_ADOPTION_ENABLED.
  unfoldable pub adopt_field_candidate :
      (Text → Option Text)
      → Bool
      → Clock
      → User
      → EditedValue
      → AdoptionCase
      → Result CandidateError (AdoptionCase × AdoptionOutcome)
  adopt_field_candidate clean enabled clock actor e k =
      require enabled adoption_disabled
      >> with_reservation (reserve_candidate clock actor k.candidate) k
          (λ r. complete_result clock actor adopt_action (adopt_verdict clean clock actor e r) r)
          (λ c. ok (k, result_from_candidate c))

  abbrev pub denies : Option Target → User → Bool
  denies none actor = false
  denies (some t) actor = not (t.can_edit actor)

  -- `_discard_conflict_candidate`; the row is locked, so its status is still that of the conflict.
  abbrev pub discard_conflict_candidate :
      User → AdoptionCase → Result CandidateError (AdoptionCase × AdoptionOutcome)
  discard_conflict_candidate actor k =
      if not k.is_adoptable
      then ok (k, result_from_candidate k.candidate)
      else if denies k.target actor
      then ok (k, was_denied)
      else ok (
        record k {
          candidate = record (k.candidate) { status = rejected; error_code = conflict_discarded };
        },
        was_rejected,
      )

  unfoldable pub reject_field_candidate :
      Bool → Clock → User → AdoptionCase → Result CandidateError (AdoptionCase × AdoptionOutcome)
  reject_field_candidate enabled clock actor k =
      require enabled adoption_disabled
      >> with_reservation (reserve_candidate clock actor k.candidate) k
          (λ r. complete_result clock actor reject_action (reject_verdict clock actor r) r)
          (λ c.
            if is_conflict c.status
            then discard_conflict_candidate actor k
            else ok (k, result_from_candidate c))
