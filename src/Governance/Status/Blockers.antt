-- ===== src/Governance/Status/Blockers.antt =====
-- What the governance blockers say.
use ki_use_case_radar.Common.{
  ◌+◌, ◌≡◌, refl, ◌↔◌, true, not, List, [], ◌∷◌, arith, All, filter, length,
}
use ki_use_case_radar.Governance.Status.{
  GovernanceReviewState, GovernanceStatus, state_completed, state_failed, blockers_of,
  required_governance_blockers, failed_required_governance_reviews,
  open_required_governance_warnings,
}

completed_of_none :
    (states : List GovernanceReviewState)
    → blockers_of (filter (λ (s : GovernanceReviewState). s.required) states) ≡ []
    → All (λ s. state_completed s ≡ true) states
completed_of_none [] h = tt
completed_of_none (s ∷ rest) h = (ground arith, completed_of_none rest (ground arith))

none_of_completed :
    (states : List GovernanceReviewState)
    → All (λ s. state_completed s ≡ true) states
    → blockers_of (filter (λ (s : GovernanceReviewState). s.required) states) ≡ []
none_of_completed [] h = refl
none_of_completed (s ∷ rest) (c, later) = ground (arith, c, none_of_completed rest later)

-- There is no governance blocker exactly if every review state counts as completed, which an
-- unrequired one always does.
pub required_governance_blockers_iff :
    (g : GovernanceStatus)
    → (required_governance_blockers g ≡ []) ↔ All (λ s. state_completed s ≡ true) g.reviews
unfolding required_governance_blockers
required_governance_blockers_iff g = (completed_of_none g.reviews, none_of_completed g.reviews)

abbrev failed_of : List GovernanceReviewState → List GovernanceReviewState
failed_of states = filter state_failed (filter (λ (s : GovernanceReviewState). s.required) states)

abbrev open_of : List GovernanceReviewState → List GovernanceReviewState
open_of states =
    filter (λ s. not (state_failed s)) (filter (λ (s : GovernanceReviewState). s.required) states)

split_states :
    (states : List GovernanceReviewState)
    → length (blockers_of (filter (λ (s : GovernanceReviewState). s.required) states))
      ≡ length (blockers_of (failed_of states)) + length (blockers_of (open_of states))
split_states [] = refl
split_states (s ∷ rest) = ground (arith, split_states rest)

-- Every governance blocker is either a failed required review or an open one.
pub required_governance_blockers-split :
    (g : GovernanceStatus)
    → length (required_governance_blockers g)
      ≡ length (failed_required_governance_reviews g) + length (open_required_governance_warnings g)
unfolding required_governance_blockers failed_required_governance_reviews
    open_required_governance_warnings
required_governance_blockers-split g = split_states g.reviews
