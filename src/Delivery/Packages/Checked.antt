-- ===== src/Delivery/Packages/Checked.antt =====
-- What an operation on a package that returned has passed and stored.
use ki_use_case_radar.Common.{
  ◌≡◌, sym, true, false, some, List, [], Text, arith, eq_nil_of_is_empty, find, ok, ok-inj,
  >>=-eq-ok, Option-cases, inl, inr,
}
use ki_use_case_radar.Clock.{Clock}
use ki_use_case_radar.Accounts.{User}
use ki_use_case_radar.UseCases.Model.{UseCase}
use ki_use_case_radar.Delivery.Model.{
  Section, section_eq, DeliveryPackage, SectionReview, ready, handed_over, package_status_eq,
}
use ki_use_case_radar.Delivery.Sections.{
  SectionAction, review_section, review_delivery_section, review_found, store_review,
}
use ki_use_case_radar.Delivery.Packages.{
  enforcement_findings, mark_package_ready, hand_over_package, has_active_owner,
}

-- A section review that returned has stored a new row for the row that it found.
pub reviewed :
    (clock : Clock) (a : User) (u : UseCase) (p : DeliveryPackage) (key : Section)
    (action : SectionAction) (note reason : Text) (p' : DeliveryPackage)
    → review_delivery_section clock a u p key action note reason ≡ ok p'
    → (r : SectionReview) × (r' : SectionReview) × (find
          (λ (r : SectionReview). section_eq r.section_key key)
          p.section_reviews
        ≡ some r)
      × (review_section clock a u p action note reason r ≡ ok r')
      × (p' ≡ store_review clock a u p r')
unfolding review_delivery_section
reviewed clock a u p key action note reason p' h =
    elim (Option-cases
      (find (λ (r : SectionReview). section_eq r.section_key key) p.section_reviews)) [
        | inl missing ↦ absurd (ground (arith, missing, h))
        | inr (r, found) ↦
            let taken : review_found clock a u p action note reason (some r) ≡ ok p' =
              rw found at h in
            let (r', done, stored) =
              >>=-eq-ok (review_section clock a u p action note reason r) _ taken in
            (r, r', found, done, sym (ok-inj stored))
      ]

-- What a mark as ready that returned has passed and stored.
pub mark_package_ready-eq-ok :
    (p p' : DeliveryPackage)
    → mark_package_ready p ≡ ok p'
    → (package_status_eq p.status handed_over ≡ false)
      × (enforcement_findings p ≡ [])
      × (p' ≡ record p { status = ready })
unfolding mark_package_ready
mark_package_ready-eq-ok p p' h = (ground arith, eq_nil_of_is_empty _ (ground arith), ground arith)

-- What a handover that returned has passed and stored.
pub hand_over_package-eq-ok :
    (clock : Clock) (users : List User) (a : User) (p p' : DeliveryPackage)
    → hand_over_package clock users a p ≡ ok p'
    → (package_status_eq p.status ready ≡ true)
      × (has_active_owner users p.technical_owner ≡ true)
      × (enforcement_findings p ≡ [])
      × (p' ≡ record p {
        status = handed_over;
        handed_over_by = some a.id;
        handed_over_at = some clock.now;
      })
unfolding hand_over_package
hand_over_package-eq-ok clock users a p p' h =
    (ground arith, ground arith, eq_nil_of_is_empty _ (ground arith), ground arith)
