-- ===== src/Reviews/Services.antt =====
-- ki_radar/reviews/services.py: `create_review`, which checks a lifecycle command, leaves its review
-- row and applies it.
use ki_use_case_radar.Common.{
  ℕ, suc, Bool, true, false, ◌&&◌, not, Option, none, some, List, [], ◌∷◌, ◌++◌, Text, truthy,
  codes, if◌then◌else◌, is_none, or_else, Result, ok, ◌>>◌,
}
use ki_use_case_radar.Clock.{Clock, today}
use ki_use_case_radar.Accounts.{User}
use ki_use_case_radar.UseCases.Model.{Status, pilot, UseCase, save, status_eq}
use ki_use_case_radar.UseCases.TransitionPolicy.{Command, PolicyError, validate_review_command}
use ki_use_case_radar.Reviews.Model.{
  Decision, start_pilot, go_live, continue, rework, end, Review, EarlyGoLiveException,
}
use ki_use_case_radar.CaseFile.{CaseFile}

-- `data`: the command, and what is stored with it.
pub record ReviewData : Type 0 where
  pub command : Command
  pub review_date : ℕ
  pub next_review_date : Option ℕ
  pub ending_reason : Text
  pub data_and_access_handling : Text
  pub replacement_solution : Text
  pub final_assessment : Text
  pub lessons_learned : Text
  pub early_go_live_exception_confirmed : Bool
  pub early_go_live_original_pilot_end : Option ℕ
  pub early_go_live_evidence_basis : Text
  pub early_go_live_unobserved_risks : Text
  pub early_go_live_mitigation_measures : Text

abbrev pub is_start_pilot : Decision → Bool
is_start_pilot start_pilot = true
is_start_pilot _ = false

abbrev pub is_end : Decision → Bool
is_end end = true
is_end _ = false

-- `decision in SCALE_SNAPSHOT_DECISIONS`
abbrev pub takes_snapshot : Decision → Bool
takes_snapshot go_live = true
takes_snapshot continue = true
takes_snapshot rework = true
takes_snapshot end = true
takes_snapshot _ = false

-- `if value: setattr(use_case, field, value)`
abbrev pub override : Text → Text → Text
override old value = if truthy value then value else old

unfoldable pub set_closing_fields : ReviewData → UseCase → UseCase
set_closing_fields d u = record u {
  ending_reason = override u.ending_reason d.ending_reason;
  data_and_access_handling = override u.data_and_access_handling d.data_and_access_handling;
  replacement_solution = override u.replacement_solution d.replacement_solution;
  final_assessment = override u.final_assessment d.final_assessment;
  lessons_learned = override u.lessons_learned d.lessons_learned;
}

-- `_apply_use_case_command`
unfoldable pub apply_use_case_command :
    Clock → Decision → Status → Option ℕ → Option ℕ → UseCase → UseCase
unfolding save
apply_use_case_command clock decision target_status pilot_start next_review_date u =
    save (record u {
      pilot_start = if is_start_pilot decision then pilot_start else u.pilot_start;
      actual_end_date =
          if is_end decision && is_none u.actual_end_date
          then some (today clock)
          else u.actual_end_date;
      status = if not (status_eq target_status u.status) then target_status else u.status;
      next_review_date = or_else next_review_date u.next_review_date;
    })

abbrev pub first_date : Option ℕ → Option ℕ → ℕ → ℕ
first_date (some d) planned review_date = d
first_date none (some d) review_date = d
first_date none none review_date = review_date

abbrev pub default_reason : Text
default_reason = codes "Vorzeitige Produktivsetzung bewusst entschieden."

abbrev pub new_exceptions : ReviewData → User → ℕ → UseCase → List EarlyGoLiveException
new_exceptions d actor review_pk u =
    if d.early_go_live_exception_confirmed
    then record {
      review = review_pk;
      original_planned_pilot_end =
          first_date d.early_go_live_original_pilot_end u.planned_pilot_end d.review_date;
      decision_date = d.review_date;
      reason = override default_reason d.command.rationale;
      evidence_basis = d.early_go_live_evidence_basis;
      unobserved_risks = d.early_go_live_unobserved_risks;
      mitigation_measures = d.early_go_live_mitigation_measures;
      confirmed_by = actor.id;
    }
      ∷ []
    else []

-- The row that `create_review` saves.
unfoldable pub new_review : CaseFile → User → ReviewData → Review
new_review file actor d = record {
  pk = file.next_pk;
  reviewer = actor.id;
  review_date = d.review_date;
  previous_status = file.use_case.status;
  new_status = d.command.target_status;
  decision = d.command.decision;
  rationale = d.command.rationale;
  go_live_exception_confirmed = d.command.go_live_exception_confirmed;
  next_review_date = d.next_review_date;
  has_scale_snapshot = status_eq file.use_case.status pilot && takes_snapshot d.command.decision;
}

-- The stored rows after a command that passed its checks.
unfoldable pub apply_review : Clock → CaseFile → User → ReviewData → CaseFile
unfolding set_closing_fields apply_use_case_command new_review
apply_review clock file actor d =
    let u =
      apply_use_case_command clock d.command.decision d.command.target_status d.command.pilot_start
        d.next_review_date (set_closing_fields d file.use_case) in
    record file {
      use_case = u;
      reviews = new_review file actor d ∷ file.reviews;
      early_exceptions = new_exceptions d actor file.next_pk u ++ file.early_exceptions;
      next_pk = suc file.next_pk;
    }

-- `create_review`, in its transaction
unfoldable pub create_review : Clock → CaseFile → User → ReviewData → Result PolicyError CaseFile
create_review clock file actor d =
    validate_review_command clock file actor d.command >> ok (apply_review clock file actor d)
