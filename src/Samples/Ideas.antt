-- ===== src/Samples/Ideas.antt =====
-- Ideas at concrete cases.
use ki_use_case_radar.Accounts.{is_business_owner}
use ki_use_case_radar.Common.{has_text, strip, ◌≡◌, refl, none, some, List, [], ◌∷◌, codes, ok}
use ki_use_case_radar.Clock.{Clock}
use ki_use_case_radar.UseCases.Ideas.{
  promote_idea, idea_triage, can_create_idea, clean_idea, can_triage_idea, idea_dismiss, Idea,
  IdeaData, new_idea, idea_create, promoted, quick_score,
}
use ki_use_case_radar.UseCases.Ideas.Runs.{
  IdeaRequest, triage, dismiss, promote, run_idea, IsConsistent, run_idea-IsConsistent,
}
use ki_use_case_radar.Samples.{clock, alice, owner}

abbrev text : IdeaData
text = record {
  title = codes "Mail";
  description = codes "slow";
  business_unit = none;
  source_note = [];
}

abbrev begun : Idea
begun = new_idea owner text

creates : idea_create owner text ≡ ok begun
unfolding idea_create can_create_idea has_text
creates = refl

abbrev requests : List (Clock × IdeaRequest)
requests =
    (clock, triage alice (some 4) (some 3) (some 4))
    ∷ (clock, promote 7)
    ∷ (clock, dismiss owner (codes "too late"))
    ∷ []

begun-IsConsistent : IsConsistent begun
begun-IsConsistent = record { scored = refl; linked = refl; noted = λ e. absurd cc }

-- The promoted idea is not dismissed.
promotes : (run_idea begun requests).state ≡ promoted
unfolding run_idea idea_dismiss strip can_triage_idea promote_idea idea_triage is_business_owner
    clean_idea
promotes = refl

-- 11 / 3 is 3.7.
scores : quick_score (run_idea begun requests) ≡ some 37
unfolding run_idea quick_score idea_dismiss strip can_triage_idea promote_idea idea_triage
    is_business_owner clean_idea
scores = refl

run_idea-IsConsistent_example : IsConsistent (run_idea begun requests)
run_idea-IsConsistent_example = run_idea-IsConsistent requests begun begun-IsConsistent
