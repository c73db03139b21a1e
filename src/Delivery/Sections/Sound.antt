-- ===== src/Delivery/Sections/Sound.antt =====
-- What every section review keeps.
use mathlib.Core.Path.{subst}
use ki_use_case_radar.Common.{
  ◌≡◌, Bool, true, false, some, List, [], ◌∷◌, map, All, Text, truthy, strip, arith, find, ok,
  require, >>=-eq-ok, >>-eq-ok, if◌then◌else◌, Bool-cases, inl, inr,
}
use ki_use_case_radar.Clock.{Clock}
use ki_use_case_radar.Accounts.{User}
use ki_use_case_radar.UseCases.Model.{UseCase}
use ki_use_case_radar.Delivery.Model.{
  Section, section_eq, DeliveryPackage, SectionReview, SectionStatus, confirmed, blocked, Role,
  business, technical, confirmations_complete, same_person,
}
use ki_use_case_radar.Delivery.Permissions.{can_review_section}
use ki_use_case_radar.Delivery.Sections.{
  SectionAction, confirmation_forbidden, role_missing, block_reason_missing,
  not_applicable_reason_missing, excused, confirm, confirm_business, confirm_technical, block,
  mark_not_applicable, reset, unknown_action, review_section, act, resolve_action, confirm_role,
  check_other, may_confirm, store_confirmation, clear_confirmations,
}

abbrev pub is_confirmed : SectionStatus → Bool
is_confirmed confirmed = true
is_confirmed _ = false

-- One person stands for both roles only by a reasoned override, and a confirmed section has all the
-- confirmations that it needs.
pub record IsSound (r : SectionReview) : Type 0 where
  pub separate :
      same_person r.business_confirmed_by r.technical_confirmed_by ≡ true
      → (r.admin_override_confirmed ≡ true) × (truthy r.role_collapse_reason ≡ true)
  pub complete : is_confirmed r.review_status ≡ true → confirmations_complete r ≡ true

pub if-IsSound :
    (c : Bool) {r r' : SectionReview} → IsSound r → IsSound r' → IsSound (if c then r else r')
if-IsSound true s s' = s
if-IsSound false s s' = s'

pub find-IsSound :
    (key : Section) (rows : List SectionReview) (r : SectionReview)
    → find (λ (r : SectionReview). section_eq r.section_key key) rows ≡ some r
    → All IsSound rows
    → IsSound r
find-IsSound key [] r h all_sound = absurd cc
find-IsSound key (x ∷ rest) r h (sound, later) = elim (Bool-cases (section_eq x.section_key key)) [
  | inl hit ↦
      let found : some x ≡ some r = rw hit at h in let e : x ≡ r = cc in subst IsSound e sound
  | inr missed ↦ find-IsSound key rest r (rw missed at h) later
]

clear_confirmations-IsSound : (r : SectionReview) → IsSound (clear_confirmations r)
clear_confirmations-IsSound r = record { separate = λ h. absurd cc; complete = λ h. absurd cc }

module _ (clock : Clock) (a : User) (u : UseCase) (p : DeliveryPackage) where
  -- What a passed check of the other confirmation has left.
  check_other-eq-ok :
      (role : Role) (reason : Text) (r c : SectionReview)
      → check_other clock a u p role reason r ≡ ok c
      → IsSound (store_confirmation clock a u p role c)
  check_other-eq-ok business reason r c h = record {
    separate = λ e. ground (arith, e, h);
    complete = λ e. ground (arith, e);
  }
  check_other-eq-ok technical reason r c h = record {
    separate = λ e. ground (arith, e, h);
    complete = λ e. ground (arith, e);
  }

  confirm_role-IsSound :
      (role : Role) (reason : Text) (r r' : SectionReview)
      → confirm_role clock a u p role reason r ≡ ok r'
      → IsSound r'
  confirm_role-IsSound role reason r r' h =
      let (_, confirmed') =
        >>-eq-ok (require (may_confirm clock a u p r role) (confirmation_forbidden role)) _ h in
      let (c, checked, stored) = >>=-eq-ok (check_other clock a u p role reason r) _ confirmed' in
      let e : store_confirmation clock a u p role c ≡ r' = cc in
      subst IsSound e (check_other-eq-ok role reason r c checked)

  act-IsSound :
      (reason : Text) (r r' : SectionReview) (action : SectionAction)
      → act clock a u p reason r action ≡ ok r'
      → IsSound r
      → IsSound r'
  act-IsSound reason r r' confirm_business h s = confirm_role-IsSound business reason r r' h
  act-IsSound reason r r' confirm_technical h s = confirm_role-IsSound technical reason r r' h
  act-IsSound reason r r' block h s =
      let (_, stored) = >>-eq-ok (require (truthy r.review_note) block_reason_missing) _ h in
      let e : record r { review_status = blocked } ≡ r' = cc in
      subst IsSound e (record { separate = s.separate; complete = λ c. absurd cc })
  act-IsSound reason r r' mark_not_applicable h s =
      let (_, stored) =
        >>-eq-ok (require (truthy r.review_note) not_applicable_reason_missing) _ h in
      let e : excused r ≡ r' = cc in
      subst IsSound e (record { separate = s.separate; complete = λ c. absurd cc })
  act-IsSound reason r r' reset h s =
      let e : clear_confirmations r ≡ r' = cc in subst IsSound e (clear_confirmations-IsSound r)
  act-IsSound reason r r' confirm h s = absurd cc
  act-IsSound reason r r' unknown_action h s = absurd cc

  -- A review that returned leaves a sound row if it found one.
  pub review_section-IsSound :
      (action : SectionAction) (note reason : Text) (r r' : SectionReview)
      → review_section clock a u p action note reason r ≡ ok r'
      → IsSound r
      → IsSound r'
  unfolding review_section
  review_section-IsSound action note reason r r' h s =
      let noted = record r {
        reviewed_by = some a.id;
        reviewed_at = some clock.now;
        review_note = strip note;
      } in
      let (_, resolved) =
        >>-eq-ok (require (can_review_section a u p r.section_key) role_missing) _ h in
      let (action', _, done) = >>=-eq-ok (resolve_action clock a u p r action) _ resolved in
      act-IsSound reason noted r' action' done
        (record { separate = s.separate; complete = s.complete })

  pub store_review-IsSound :
      (new_row : SectionReview) (rows : List SectionReview)
      → IsSound new_row
      → All IsSound rows
      → All IsSound (
          map
            (λ (r : SectionReview).
              if section_eq r.section_key new_row.section_key then new_row else r)
            rows)
  store_review-IsSound new_row [] s all_sound = all_sound
  store_review-IsSound new_row (r ∷ rest) s (sound, later) = (
    if-IsSound (section_eq r.section_key new_row.section_key) s sound,
    store_review-IsSound new_row rest s later,
  )
