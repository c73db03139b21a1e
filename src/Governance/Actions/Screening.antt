-- ===== src/Governance/Actions/Screening.antt =====
-- A new screening and what it blocks.
use ki_use_case_radar.Common.{
  ℕ, ◌+◌, ◌≡◌, refl, ap, sym, false, some, List, [], ◌∷◌, map, filter, arith, All, holds, ok,
  ok-inj, >>-eq-ok, require, pick_first, ==_refl, filter_none,
}
use ki_use_case_radar.Clock.{Clock}
use ki_use_case_radar.Accounts.{User, is_coordinator}
use ki_use_case_radar.UseCases.Model.{UseCase}
use ki_use_case_radar.Governance.Model.{
  ReviewType, privacy, security, legal, GovernanceAssessment, GovernanceReview, screening_requires,
  clean,
}
use ki_use_case_radar.Governance.Status.{
  still_open, screening_before, review_order, required_governance_blockers,
  current_governance_status, status_of_screening, of_screening, review_state,
}
use ki_use_case_radar.Governance.Actions.{
  screening_artifact, create_screening_review_artifacts, assessment_create, new_screening,
  permission_denied,
}
use ki_use_case_radar.CaseFile.{CaseFile, governance_of}

clean_artifact :
    (clock : Clock) (a : User) (s : GovernanceAssessment) (pk : ℕ) (t : ReviewType)
    → clean (screening_artifact clock a s pk t) (some s) ≡ []
unfolding clean screening_artifact
clean_artifact clock a s pk t = ground arith

-- The three artifacts of a screening.
abbrev pub artifacts_of :
    Clock → User → GovernanceAssessment → ℕ → List GovernanceReview → List GovernanceReview
artifacts_of clock a s pk rows =
    screening_artifact clock a s (pk + 2) legal
    ∷ screening_artifact clock a s (pk + 1) security
    ∷ screening_artifact clock a s pk privacy
    ∷ rows

-- The artifacts of a screening are always clean, so that one row for each type is stored.
pub create_screening_review_artifacts-stores :
    (clock : Clock) (a : User) (s : GovernanceAssessment) (pk : ℕ) (rows : List GovernanceReview)
    → create_screening_review_artifacts clock a s pk rows ≡ ok (artifacts_of clock a s pk rows)
unfolding create_screening_review_artifacts
create_screening_review_artifacts-stores clock a s pk rows =
    rw
      (
        clean_artifact clock a s pk privacy,
        clean_artifact clock a s (pk + 1) security,
        clean_artifact clock a s (pk + 2) legal,
      )
      refl

-- What a screening that was stored finds: it is the first in the order, and its key is new.
pub record IsNew (clock : Clock) (f : CaseFile) (a : User) (d : GovernanceAssessment) : Type 0 where
  pub newest :
      All (λ s. screening_before s (new_screening clock f a d) ≡ false) f.governance_assessments
  pub fresh :
      All (λ (r : GovernanceReview). holds r.screening f.next_pk ≡ false) f.governance_reviews

stored_screening :
    (clock : Clock) (f : CaseFile) (a : User) (d : GovernanceAssessment) (f' : CaseFile)
    → assessment_create clock f a d ≡ ok f'
    → (f'.governance_assessments ≡ new_screening clock f a d ∷ f.governance_assessments)
      × (f'.governance_reviews
          ≡ artifacts_of clock a (new_screening clock f a d) (f.next_pk + 1) f.governance_reviews)
unfolding assessment_create
stored_screening clock f a d f' h =
    let stores =
      create_screening_review_artifacts-stores clock a (new_screening clock f a d) (f.next_pk + 1)
        f.governance_reviews in
    let (_, made) = >>-eq-ok (require (is_coordinator a) permission_denied) _ h in
    let made' = rw stores at made in
    (
      ap (λ (g : CaseFile). g.governance_assessments) (sym (ok-inj made')),
      ap (λ (g : CaseFile). g.governance_reviews) (sym (ok-inj made')),
    )

of_screening-artifacts :
    (clock : Clock) (a : User) (s : GovernanceAssessment) (pk : ℕ) (rows : List GovernanceReview)
    → of_screening s.pk rows ≡ []
    → of_screening s.pk (artifacts_of clock a s pk rows) ≡ artifacts_of clock a s pk []
unfolding screening_artifact
of_screening-artifacts clock a s pk rows none_older = rw (==_refl s.pk, none_older) refl

blockers_of_artifacts :
    (clock : Clock) (u : UseCase) (a : User) (s : GovernanceAssessment) (pk : ℕ)
    → required_governance_blockers (record {
      screening = some s;
      reviews = map (review_state u s (artifacts_of clock a s pk [])) review_order;
    })
      ≡ map still_open (filter (screening_requires s) review_order)
unfolding required_governance_blockers screening_artifact
blockers_of_artifacts clock u a s pk = ground arith

blockers_of_screening :
    (clock : Clock) (u : UseCase) (a : User) (s : GovernanceAssessment) (pk : ℕ)
    (rows : List GovernanceReview)
    → of_screening s.pk rows ≡ []
    → required_governance_blockers (status_of_screening u (some s) (artifacts_of clock a s pk rows))
      ≡ map still_open (filter (screening_requires s) review_order)
blockers_of_screening clock u a s pk rows none_older =
    rw (of_screening-artifacts clock a s pk rows none_older) (blockers_of_artifacts clock u a s pk)

status_of_new :
    (u : UseCase) (s : GovernanceAssessment) (older : List GovernanceAssessment)
    (rows : List GovernanceReview)
    → All (λ y. screening_before y s ≡ false) older
    → current_governance_status u (s ∷ older) rows ≡ status_of_screening u (some s) rows
unfolding current_governance_status
status_of_new u s older rows newest =
    ap (λ o. status_of_screening u (some o) rows) (pick_first screening_before s older newest)

-- A screening that was stored as the first in the order, under a new key, is blocked by exactly the
-- reviews that it requires, each of them still open.
pub assessment_create-blockers :
    (clock : Clock) (f : CaseFile) (a : User) (d : GovernanceAssessment) (f' : CaseFile)
    → assessment_create clock f a d ≡ ok f'
    → IsNew clock f a d
    → required_governance_blockers (governance_of f')
      ≡ map still_open (filter (screening_requires d) review_order)
unfolding new_screening
assessment_create-blockers clock f a d f' h n =
    let s = new_screening clock f a d in
    let (screenings, reviews) = stored_screening clock f a d f' h in
    let first =
      status_of_new f'.use_case s f.governance_assessments f'.governance_reviews n.newest in
    let older : of_screening s.pk f.governance_reviews ≡ [] =
      filter_none _ f.governance_reviews n.fresh in
    rw (screenings, first, reviews)
      (blockers_of_screening clock f'.use_case a s (f.next_pk + 1) f.governance_reviews older)
