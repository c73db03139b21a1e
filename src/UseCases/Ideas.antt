-- ===== src/UseCases/Ideas.antt =====
-- ki_radar/use_cases/idea_models.py, idea_views.py and intake_views.py: the ideas before a use case,
-- with their permissions.
pub mod Runs
use ki_use_case_radar.Common.{
  ℕ, ◌+◌, ◌*◌, Bool, true, false, ◌&&◌, ◌||◌, not, Option, none, some, List, [], ◌∷◌, ◌++◌, Text,
  truthy, strip, has_text, is_none, is_some, when, leb, holds, length, is_empty, if◌then◌else◌,
  Result, ok, err, ◌>>=◌, ◌>>◌, raise_if, require,
}
use Prim.Native.Nat.{◌/◌}
use ki_use_case_radar.Clock.{Clock}
use ki_use_case_radar.Accounts.{User, is_business_owner}
use ki_use_case_radar.UseCases.Permissions.{can_create_use_case}

pub data IdeaState : Type 0 where
  open_idea dismissed promoted : IdeaState

-- The fields that the modelled operations read or write.
pub record Idea : Type 0 where
  pub title : Text
  pub description : Text
  pub business_unit : Option ℕ
  pub source_note : Text
  pub impact : Option ℕ
  pub confidence : Option ℕ
  pub ease : Option ℕ
  pub state : IdeaState
  pub decision_note : Text
  pub submitted_by : Option ℕ
  pub triaged_by : Option ℕ
  pub triaged_at : Option ℕ
  pub promoted_use_case : Option ℕ

pub data IdeaError : Type 0 where
  permission_denied form_invalid idea_gone idea_closed : IdeaError

abbrev pub is_open_idea : IdeaState → Bool
is_open_idea open_idea = true
is_open_idea _ = false

abbrev pub is_dismissed : IdeaState → Bool
is_dismissed dismissed = true
is_dismissed _ = false

abbrev pub is_promoted : IdeaState → Bool
is_promoted promoted = true
is_promoted _ = false

-- The keys of the errors of `IdeaCandidate.clean`
pub data IdeaCleanError : Type 0 where
  note_missing link_missing link_unexpected : IdeaCleanError

unfoldable pub clean_idea : Idea → List IdeaCleanError
clean_idea i =
    if is_dismissed i.state && not (has_text i.decision_note)
    then note_missing ∷ []
    else if is_promoted i.state && is_none i.promoted_use_case
    then link_missing ∷ []
    else when (not (is_promoted i.state) && is_some i.promoted_use_case) link_unexpected

abbrev pub sum_of : Option ℕ → Option ℕ → Option ℕ → Option ℕ
sum_of (some a) (some b) (some c) = some (a + b + c)
sum_of _ _ _ = none

-- A third of the sum in tenths, rounded; a third is never halfway between two tenths.
abbrev pub in_tenths : Option ℕ → Option ℕ
in_tenths none = none
in_tenths (some sum) = some ((20 * sum + 3) / 6)

-- `quick_score` in tenths
unfoldable pub quick_score : Idea → Option ℕ
quick_score i = in_tenths (sum_of i.impact i.confidence i.ease)

unfoldable pub can_create_idea : User → Bool
can_create_idea user = user.is_authenticated && user.is_active && not user.is_anonymized

unfoldable pub can_edit_idea : User → Idea → Bool
unfolding can_create_idea
can_edit_idea user idea =
    can_create_idea user && is_open_idea idea.state && holds idea.submitted_by user.id

unfoldable pub can_triage_idea : User → Idea → Bool
can_triage_idea user idea = is_open_idea idea.state && is_business_owner user

unfoldable pub can_promote_idea : User → Idea → Bool
can_promote_idea user idea =
    is_open_idea idea.state && is_none idea.promoted_use_case && can_create_use_case user

-- The data of `IdeaCandidateForm`
pub record IdeaData : Type 0 where
  pub title : Text
  pub description : Text
  pub business_unit : Option ℕ
  pub source_note : Text

-- The two required texts of the form, stripped, with the length of the title
abbrev pub is_valid_idea : IdeaData → Bool
is_valid_idea d = has_text d.title && leb (length (strip d.title)) 200 && has_text d.description

abbrev pub set_idea : IdeaData → Idea → Idea
set_idea d i = record i {
  title = strip d.title;
  description = strip d.description;
  business_unit = d.business_unit;
  source_note = strip d.source_note;
}

abbrev pub new_idea : User → IdeaData → Idea
new_idea user d = record {
  title = strip d.title;
  description = strip d.description;
  business_unit = d.business_unit;
  source_note = strip d.source_note;
  impact = none;
  confidence = none;
  ease = none;
  state = open_idea;
  decision_note = [];
  submitted_by = some user.id;
  triaged_by = none;
  triaged_at = none;
  promoted_use_case = none;
}

-- `idea_create` on a form
unfoldable pub idea_create : User → IdeaData → Result IdeaError Idea
idea_create user d =
    require (can_create_idea user) permission_denied
    >> require (is_valid_idea d) form_invalid
    >> ok (new_idea user d)

-- `idea_edit` on a form
unfoldable pub idea_edit : User → IdeaData → Idea → Result IdeaError Idea
idea_edit user d i =
    require (can_edit_idea user i) permission_denied
    >> require (is_valid_idea d && is_empty (clean_idea i)) form_invalid
    >> ok (set_idea d i)

-- An empty value, or a choice of `Score`
abbrev pub is_score : Option ℕ → Bool
is_score none = true
is_score (some n) = leb 1 n && leb n 5

unfoldable pub idea_triage :
    Clock → User → Option ℕ → Option ℕ → Option ℕ → Idea → Result IdeaError Idea
idea_triage clock user impact confidence ease i =
    require (can_triage_idea user i) permission_denied
    >> require (is_score impact && is_score confidence && is_score ease && is_empty (clean_idea i))
        form_invalid
    >> ok (record i {
      impact = impact;
      confidence = confidence;
      ease = ease;
      triaged_by = some user.id;
      triaged_at = some clock.now;
    })

-- `IdeaDismissForm`: the text is stripped and has at least three characters.
abbrev pub is_valid_note : Text → Bool
is_valid_note note = leb 3 (length (strip note))

unfoldable pub idea_dismiss : Clock → User → Text → Idea → Result IdeaError Idea
idea_dismiss clock user note i =
    require (is_valid_note note) form_invalid
    >> require (can_triage_idea user i) permission_denied
    >> ok (record i {
      state = dismissed;
      decision_note = strip note;
      triaged_by = some user.id;
      triaged_at = some clock.now;
    })

-- `_lock_idea_candidate_for_promotion`, on the row with the key of the session
unfoldable pub lock_idea_candidate : Option Idea → Result IdeaError Idea
lock_idea_candidate none = err idea_gone
lock_idea_candidate (some i) =
    raise_if (not (is_open_idea i.state) || is_some i.promoted_use_case) idea_closed >> ok i

-- What the last step of the intake does to the idea that it began with.
unfoldable pub promote_idea : ℕ → Option Idea → Result IdeaError Idea
unfolding lock_idea_candidate
promote_idea use_case row = lock_idea_candidate row >>= λ i.
    ok (record i { state = promoted; promoted_use_case = some use_case })
