-- ===== src/Samples/Adoption.antt =====
-- The adoption of a candidate at concrete cases.
use ki_use_case_radar.Common.{
  ℕ, List, ◌∷◌, ◌==◌, if◌then◌else◌, strip, ◌≡◌, ◌⊎◌, refl, true, false, Option, none, some, [],
  Text, codes, ok, is_some,
}
use ki_use_case_radar.Accelerator.Model.{
  use_case, low, text_type, completed, success, open_candidate, adopted_edited, no_error, Versions,
  Target, is_state_valid,
}
use ki_use_case_radar.Accelerator.Candidates.{
  canonical_text_hash, reserve_candidate, canonicalize_text, complete_candidate, is_fresh, Contract,
  is_terminal,
}
use ki_use_case_radar.Accelerator.Adoption.{
  complete_result, candidate_integrity_valid, AdoptionCase, AdoptionOutcome, was_adopted_edited,
  in_conflict, not_edited, edit, adopt_action, adopt_field_candidate, adopt_verdict,
}
use ki_use_case_radar.Accelerator.Adoption.Once.{
  reserved, adopt_field_candidate-resolves, adopt_field_candidate-again,
}
use ki_use_case_radar.Accelerator.Adoption.Safety.{WriteGate, adopt_field_candidate-writes}
use ki_use_case_radar.Accelerator.Creation.{
  CandidateRow, SuggestionRow, TargetObject, supersede, supersede_open_candidates, new_candidate,
  create_each, create_adoption_candidates,
}
use ki_use_case_radar.Accelerator.Creation.Unique.{
  IsUnique, create_adoption_candidates-IsUnique, create_adoption_candidates-again,
}
use ki_use_case_radar.Samples.{clock, alice, bob}

abbrev versions : Versions
versions = record {
  catalog = codes "1";
  answer_schema = codes "1";
  prompt = codes "1";
  extraction_schema = codes "1";
}

-- Texts that are normal already, with themselves as their digest.
abbrev contract : Contract
contract = record { normalize = λ t. t; digest = λ t. t; expected_versions = versions }

abbrev target : Target
target = record { value = codes "old"; is_inactive = false; can_edit = λ u. u.is_active }

-- A candidate that proposes "new" where it has found "old".
abbrev the_case : AdoptionCase
the_case = record {
  candidate = record {
    target_object_type = use_case;
    target_object_id = 1;
    target_field = codes "title";
    proposed_value = codes "new";
    previous_value_hash = codes "old";
    target_updated_at = 90;
    source_revision = 3;
    source_hash = codes "h";
    versions = versions;
    status = open_candidate;
    processing_by = none;
    processing_started_at = none;
    resolved_at = none;
    error_code = no_error;
  };
  suggestion = record {
    target_object_type = use_case;
    target_object_id = some 1;
    target_field = some (codes "title");
    target_group_key = [];
    field_type = text_type;
    suggested_value = some (codes "new");
    uncertainty = low;
  };
  analysis = record {
    capture_type = use_case;
    status = success;
    source_revision = 3;
    source_hash = codes "h";
    versions = versions;
  };
  session = record {
    capture_type = use_case;
    status = completed;
    revision = 3;
    catalog_version = codes "1";
    schema_version = codes "1";
    target_value_stream = none;
    target_use_case = some 1;
    expires_at = 150;
  };
  target = some target;
  audit = none;
  is_adoptable = true;
}

abbrev form_clean : Text → Option Text
form_clean t = some t

abbrev done : AdoptionCase
done = record the_case {
  candidate = record (the_case.candidate) {
    status = adopted_edited;
    processing_by = some 1;
    processing_started_at = some 100;
    resolved_at = some 100;
  };
  target = some (record target { value = codes "newer" });
  audit = some (record {
    actor = 1;
    action = adopt_action;
    outcome = was_adopted_edited;
    error_code = no_error;
    stored_value = codes "newer";
  });
}

first :
    adopt_field_candidate contract form_clean true clock alice (edit (codes "newer ")) the_case
    ≡ ok (done, was_adopted_edited)
unfolding adopt_field_candidate reserve_candidate complete_result complete_candidate adopt_verdict
    candidate_integrity_valid canonicalize_text strip is_fresh canonical_text_hash
first = refl

-- A target that was changed in between is a conflict.
conflicting :
    (adopt_verdict contract form_clean clock alice not_edited
      (record the_case { target = some (record target { value = codes "other" }) })).outcome
    ≡ in_conflict
unfolding adopt_verdict candidate_integrity_valid canonicalize_text strip is_fresh
    canonical_text_hash
conflicting = refl

adopt_field_candidate-resolves_example :
    (k' : AdoptionCase) × (o : AdoptionOutcome) × (adopt_field_candidate contract form_clean true
        clock alice
        (edit (codes "newer "))
        the_case
      ≡ ok (k', o))
    × (is_terminal k'.candidate.status ≡ true)
    × (is_state_valid k'.candidate ≡ true)
    × (is_some k'.audit ≡ true)
adopt_field_candidate-resolves_example =
    adopt_field_candidate-resolves contract form_clean clock alice (edit (codes "newer ")) the_case
      refl

adopt_field_candidate-again_example :
    adopt_field_candidate contract form_clean true clock bob not_edited done
    ≡ ok (done, was_adopted_edited)
adopt_field_candidate-again_example =
    adopt_field_candidate-again contract form_clean clock clock alice bob (edit (codes "newer "))
      not_edited the_case done was_adopted_edited first

adopt_field_candidate-writes_example :
    (record target { value = codes "newer" } ≡ target)
    ⊎ ((new : Text) × (record target { value = codes "newer" } ≡ record target { value = new })
        × WriteGate contract form_clean clock alice
            (edit (codes "newer "))
            (reserved contract form_clean clock alice the_case)
            target
            new)
adopt_field_candidate-writes_example =
    adopt_field_candidate-writes contract form_clean clock alice (edit (codes "newer ")) the_case
      done was_adopted_edited target (record target { value = codes "newer" }) refl first refl refl

-- The object that the session is bound to, a suggestion for its title, and an older candidate for the
-- title that is open.
abbrev found : ℕ → Option TargetObject
found id =
    if id == 1
    then some
        (record { pk = 1; is_inactive = false; updated_at = 90; text_of = λ field. codes "old" })
    else none

abbrev suggested : SuggestionRow
suggested = record { pk = 7; suggestion = the_case.suggestion }

abbrev older : CandidateRow
older = record { suggestion = 4; candidate = the_case.candidate }

abbrev created_rows : List CandidateRow
created_rows =
    record { suggestion = 7; candidate = the_case.candidate } ∷ supersede clock older ∷ []

creation :
    create_adoption_candidates contract clock the_case.analysis the_case.session found
      (suggested ∷ [])
      (older ∷ [])
    ≡ ok created_rows
unfolding create_adoption_candidates create_each supersede_open_candidates new_candidate
    canonicalize_text canonical_text_hash strip
creation = refl

create_adoption_candidates-IsUnique_example : IsUnique created_rows
create_adoption_candidates-IsUnique_example =
    create_adoption_candidates-IsUnique contract clock the_case.analysis the_case.session found
      (suggested ∷ []) (older ∷ []) created_rows creation (tt, tt)

create_adoption_candidates-again_example :
    create_adoption_candidates contract clock the_case.analysis the_case.session found
      (suggested ∷ [])
      created_rows
    ≡ ok created_rows
create_adoption_candidates-again_example =
    create_adoption_candidates-again contract clock the_case.analysis the_case.session found
      (suggested ∷ []) (older ∷ []) created_rows creation clock
