-- ===== src/Delivery/SourceChange/Resolved.antt =====
-- What the decision on a changed technical owner achieves.
use ki_use_case_radar.Common.{
  ℕ, ◌≡◌, refl, sym, ◌∙◌, ap, Bool, true, false, ◌||◌, not, Option, none, some, List, [], ◌∷◌, Text,
  any, is_none-find_last, arith, ok, is_ok, >>-eq-ok, require-eq-ok, is_ok-eq-false, ok-inj,
  ==_refl, Bool-cases, inl, inr,
}
use mathlib.Core.Path.{subst}
use mathlib.Core.Bool.{false≢true}
use ki_use_case_radar.Accounts.{User}
use ki_use_case_radar.UseCases.Model.{UseCase}
use ki_use_case_radar.Delivery.Model.{
  Section, problem_and_target, architecture_and_data, section_eq, SectionReview, DeliveryPackage,
}
use ki_use_case_radar.Delivery.Sections.{reset_section_reviews}
use ki_use_case_radar.Delivery.Packages.{has_active_owner}
use ki_use_case_radar.Delivery.Readiness.Content.{PackageContent, Adoption}
use ki_use_case_radar.Delivery.Readiness.Rules.{same_key}
use ki_use_case_radar.Delivery.Readiness.Stops.{sources_current, manifest_current}
use ki_use_case_radar.Delivery.SourceChange.{
  SourceAction, adopt_source, keep_package, unknown_action, SourcedPackage, adoption_of,
  has_section, technical_owner_source_state, has_open_change, adoption_reset_sections, check_owner,
  owner_after, refresh_technical_owner_source_snapshot, apply_source_decision,
  resolve_technical_owner_source_change,
}

same_key_refl : (a : Option ℕ) → same_key a a ≡ true
same_key_refl none = refl
same_key_refl (some a) = ==_refl a

-- The sections of a package stay when some of them are reset.
any-reset :
    (keys : Section → Bool) (key : Section) (rows : List SectionReview) (p : DeliveryPackage)
    → any
        (λ (r : SectionReview). section_eq r.section_key key)
        (reset_section_reviews keys (record p { section_reviews = rows })).section_reviews
      ≡ any (λ (r : SectionReview). section_eq r.section_key key) rows
unfolding reset_section_reviews
any-reset keys key [] p = refl
any-reset keys key (r ∷ rest) p = ground (arith, any-reset keys key rest p)

reset_has_section :
    (keys : Section → Bool) (key : Section) (p : DeliveryPackage)
    → has_section (reset_section_reviews keys p) key ≡ has_section p key
reset_has_section keys key p = any-reset keys key p.section_reviews p

module _ (users : List User) (u : UseCase) (action : SourceAction) (rationale : Text) (actor : User)
    (s t : SourcedPackage)
    (returned : resolve_technical_owner_source_change users u action rationale actor s ≡ ok t) where
  -- The checks that a decision has passed.
  record Checked : Type 0 where
    changed : has_open_change (technical_owner_source_state u s) ≡ true
    checked : check_owner users u action s.delivery_package ≡ ok tt
    applied : apply_source_decision users u action rationale actor s ≡ t

  checked_lem : Checked
  unfolding resolve_technical_owner_source_change
  checked_lem =
      let (front, last) = >>-eq-ok _ _ returned in
      let (front1, c) = >>-eq-ok _ _ front in
      let (front2, o) = >>-eq-ok _ _ front1 in
      record { changed = require-eq-ok _ _ o; checked = c; applied = ok-inj last }

abbrev after_applied :
    List User → UseCase → SourceAction → Text → User → SourcedPackage → SourcedPackage
after_applied users u action rationale actor s =
    apply_source_decision users u action rationale actor s

or-true : (a b : Bool) → b ≡ true → (a || b) ≡ true
or-true a b h = ground (arith, h)

or-or-true : (a b c : Bool) → b ≡ true → (a || b || c) ≡ true
or-or-true a b c h = ground (arith, h)

module _ (users : List User) (u : UseCase) (action : SourceAction) (rationale : Text) (actor : User)
    (s : SourcedPackage) where
  manifest_settled :
      (adoption : Adoption) (p : DeliveryPackage) (c : PackageContent) (key : Section)
      → has_section p key ≡ true
      → manifest_current u.technical_owner
          ((refresh_technical_owner_source_snapshot u adoption p c).source_manifest key)
        ≡ true
  unfolding refresh_technical_owner_source_snapshot manifest_current
  manifest_settled adoption p c key has = rw has (same_key_refl u.technical_owner)

  applied_current :
      let t = after_applied users u action rationale actor s in
      sources_current t.content u.technical_owner t.delivery_package ≡ true
  unfolding apply_source_decision sources_current
  applied_current =
      let p = s.delivery_package in
      let q = record p { technical_owner = owner_after users u action p.technical_owner } in
      let rows = (reset_section_reviews adoption_reset_sections q).section_reviews in
      let kept' = reset_has_section adoption_reset_sections problem_and_target q in
      let absent =
        is_none-find_last (λ (r : SectionReview). section_eq r.section_key problem_and_target)
          rows in
      elim (Bool-cases (has_section p problem_and_target)) [
        | inl has ↦
            or-true _ _
              (manifest_settled (adoption_of users u action) p s.content problem_and_target has)
        | inr lacks ↦ or-or-true _ _ _ (absent ∙ ap not (kept' ∙ lacks))
      ]

  applied_closed :
      has_open_change
        (technical_owner_source_state u (after_applied users u action rationale actor s))
      ≡ false
  unfolding technical_owner_source_state apply_source_decision
      refresh_technical_owner_source_snapshot
  applied_closed =
      let p = s.delivery_package in
      let q = record p { technical_owner = owner_after users u action p.technical_owner } in
      let kept' = reset_has_section adoption_reset_sections architecture_and_data q in
      elim (Bool-cases (has_section p architecture_and_data)) [
        | inl has ↦ ground (arith, kept', has, same_key_refl u.technical_owner)
        | inr lacks ↦ ground (arith, kept', lacks)
      ]

  applied_owner :
      let t = after_applied users u action rationale actor s in
      t.delivery_package.technical_owner
      ≡ owner_after users u action s.delivery_package.technical_owner
  unfolding apply_source_decision reset_section_reviews
  applied_owner = refl

owner_active :
    (users : List User) (u : UseCase) (action : SourceAction) (p : DeliveryPackage)
    → check_owner users u action p ≡ ok tt
    → has_active_owner users (owner_after users u action p.technical_owner) ≡ true
owner_active users u adopt_source p h = require-eq-ok _ _ h
owner_active users u keep_package p h = require-eq-ok _ _ h
owner_active users u unknown_action p h = cc

-- A decision on the technical owner that is accepted leaves the package with an active technical
-- owner, the use case's if the source is adopted and its own if not, and no unresolved change of the
-- owner among the findings of the readiness.
pub resolve_technical_owner_source_change-settles :
    (users : List User) (u : UseCase) (action : SourceAction) (rationale : Text) (actor : User)
    (s t : SourcedPackage)
    → resolve_technical_owner_source_change users u action rationale actor s ≡ ok t
    → (has_active_owner users t.delivery_package.technical_owner ≡ true)
      × (t.delivery_package.technical_owner
          ≡ owner_after users u action s.delivery_package.technical_owner)
      × (sources_current t.content u.technical_owner t.delivery_package ≡ true)
resolve_technical_owner_source_change-settles users u action rationale actor s t h =
    let k = checked_lem users u action rationale actor s t h in
    let o = applied_owner users u action rationale actor s in
    let active =
      subst (λ w. has_active_owner users w ≡ true) (sym o)
        (owner_active users u action s.delivery_package k.checked) in
    subst
      (λ (w : SourcedPackage).
        (has_active_owner users w.delivery_package.technical_owner ≡ true)
        × (w.delivery_package.technical_owner
            ≡ owner_after users u action s.delivery_package.technical_owner)
        × (sources_current w.content u.technical_owner w.delivery_package ≡ true))
      k.applied (active, o, applied_current users u action rationale actor s)

closed_raises :
    (users : List User) (u : UseCase) (action : SourceAction) (rationale : Text) (actor : User)
    (t : SourcedPackage)
    → has_open_change (technical_owner_source_state u t) ≡ false
    → is_ok (resolve_technical_owner_source_change users u action rationale actor t) ≡ false
closed_raises users u action rationale actor t closed = is_ok-eq-false _ (λ w h.
    let k = checked_lem users u action rationale actor t w h in false≢true (sym closed ∙ k.changed))

-- A change of the technical owner is decided once: after an accepted decision every further one
-- on the same use case raises, whoever makes it.
pub resolve_technical_owner_source_change-once :
    (users : List User) (u : UseCase) (action : SourceAction) (rationale : Text) (actor : User)
    (s t : SourcedPackage) (action' : SourceAction) (rationale' : Text) (actor' : User)
    → resolve_technical_owner_source_change users u action rationale actor s ≡ ok t
    → is_ok (resolve_technical_owner_source_change users u action' rationale' actor' t) ≡ false
resolve_technical_owner_source_change-once users u action rationale actor s t action' rationale'
      actor' h =
    let k = checked_lem users u action rationale actor s t h in
    closed_raises users u action' rationale' actor' t (
      subst (λ w. has_open_change (technical_owner_source_state u w) ≡ false) k.applied
        (applied_closed users u action rationale actor s))
