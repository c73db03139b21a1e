-- ===== src/Delivery/Sections/AnyStatus.antt =====
-- The review of a section and the status of the package.
use ki_use_case_radar.Common.{
  ◌≡◌, refl, List, Option, none, some, Text, Result, ok, err, find, ◌>>=◌,
}
use ki_use_case_radar.Clock.{Clock}
use ki_use_case_radar.Accounts.{User}
use ki_use_case_radar.UseCases.Model.{UseCase}
use ki_use_case_radar.Delivery.Model.{
  Section, section_eq, DeliveryPackage, SectionReview, PackageStatus,
}
use ki_use_case_radar.Delivery.Permissions.{
  can_review_section, has_reviewer_role, can_confirm_business, can_confirm_technical,
}
use ki_use_case_radar.Delivery.Sections.{
  SectionAction, SectionError, review_section, review_delivery_section, review_found, store_review,
}

abbrev pub rows_of : Result SectionError DeliveryPackage → Result SectionError (List SectionReview)
rows_of (ok p) = ok p.section_reviews
rows_of (err e) = err e

same_review :
    (clock : Clock) (a : User) (u : UseCase) (p : DeliveryPackage) (s : PackageStatus)
    (action : SectionAction) (note reason : Text) (r : SectionReview)
    → review_section clock a u (record p { status = s }) action note reason r
      ≡ review_section clock a u p action note reason r
unfolding review_section can_review_section has_reviewer_role can_confirm_business
    can_confirm_technical
same_review clock a u p s action note reason r = refl

same_rows :
    (clock : Clock) (a : User) (u : UseCase) (p : DeliveryPackage) (s : PackageStatus)
    (m : Result SectionError SectionReview)
    → rows_of (m >>= λ row. ok (store_review clock a u (record p { status = s }) row))
      ≡ rows_of (m >>= λ row. ok (store_review clock a u p row))
same_rows clock a u p s (ok row) = refl
same_rows clock a u p s (err e) = refl

found_any_status :
    (clock : Clock) (a : User) (u : UseCase) (p : DeliveryPackage) (s : PackageStatus)
    (action : SectionAction) (note reason : Text) (o : Option SectionReview)
    → rows_of (review_found clock a u (record p { status = s }) action note reason o)
      ≡ rows_of (review_found clock a u p action note reason o)
found_any_status clock a u p s action note reason none = refl
found_any_status clock a u p s action note reason (some r) =
    rw (same_review clock a u p s action note reason r)
      (same_rows clock a u p s (review_section clock a u p action note reason r))

-- The status of the package does not matter for the review of a section: on any status, also after
-- the handover, it raises the same errors and stores the same section reviews.
pub review_delivery_section-any_status :
    (clock : Clock) (a : User) (u : UseCase) (p : DeliveryPackage) (s : PackageStatus)
    (key : Section) (action : SectionAction) (note reason : Text)
    → rows_of (review_delivery_section clock a u (record p { status = s }) key action note reason)
      ≡ rows_of (review_delivery_section clock a u p key action note reason)
unfolding review_delivery_section
review_delivery_section-any_status clock a u p s key action note reason =
    found_any_status clock a u p s action note reason
      (find (λ (r : SectionReview). section_eq r.section_key key) p.section_reviews)
