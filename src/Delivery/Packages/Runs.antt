-- ===== src/Delivery/Packages/Runs.antt =====
-- Sequences of operations on a package.
use ki_use_case_radar.Common.{
  ℕ, ◌≡◌, refl, Bool, true, Option, none, List, [], ◌∷◌, map, All, Text, arith, if◌then◌else◌,
  Result, ok, err, ◌==◌,
}
use ki_use_case_radar.Clock.{Clock}
use ki_use_case_radar.Accounts.{User}
use ki_use_case_radar.UseCases.Model.{UseCase}
use ki_use_case_radar.Delivery.Model.{
  Section, DeliveryPackage, SectionReview, PackageStatus, draft, ready, handed_over,
  package_status_eq,
}
use ki_use_case_radar.Delivery.Sections.{
  SectionAction, review_delivery_section, reset_section_reviews, back_to_draft, clear_confirmations,
}
use ki_use_case_radar.Delivery.Sections.Sound.{
  IsSound, review_section-IsSound, store_review-IsSound, find-IsSound, if-IsSound,
}
use ki_use_case_radar.Delivery.Packages.{
  enforcement_findings, mark_package_ready, hand_over_package,
}
use ki_use_case_radar.Delivery.Packages.Checked.{
  reviewed, mark_package_ready-eq-ok, hand_over_package-eq-ok,
}

pub data PackageRequest : Type 0 where
  mark_ready : PackageRequest
  hand_over : User → PackageRequest
  review_one : User → Section → SectionAction → Text → Text → PackageRequest
  reset_some : (Section → Bool) → PackageRequest

abbrev pub keep : {E : Type 0} → DeliveryPackage → Result E DeliveryPackage → DeliveryPackage
keep p (ok p') = p'
keep p (err e) = p

module _ (users : List User) (u : UseCase) where
  -- One request at its time; one that raises changes nothing.
  abbrev pub step : Clock → DeliveryPackage → PackageRequest → DeliveryPackage
  step clock p mark_ready = keep p (mark_package_ready p)
  step clock p (hand_over a) = keep p (hand_over_package clock users a p)
  step clock p (review_one a key action note reason) =
      keep p (review_delivery_section clock a u p key action note reason)
  step clock p (reset_some keys) = reset_section_reviews keys p

  unfoldable pub run_package : DeliveryPackage → List (Clock × PackageRequest) → DeliveryPackage
  run_package p [] = p
  run_package p ((clock, q) ∷ rest) = run_package (step clock p q) rest

  -- Requests on the packages of a use case, each with the key of its package.
  abbrev pub step_at : Clock → ℕ → PackageRequest → DeliveryPackage → DeliveryPackage
  step_at clock pk q p = if p.pk == pk then step clock p q else p

  unfoldable pub run_packages :
      List (Clock × ℕ × PackageRequest) → List DeliveryPackage → List DeliveryPackage
  run_packages [] rows = rows
  run_packages ((clock, pk, q) ∷ rest) rows = run_packages rest (map (step_at clock pk q) rows)

pub keep-preserves {ℓ} :
    {E : Type 0} (P : DeliveryPackage → Type ℓ) (p : DeliveryPackage) (r : Result E DeliveryPackage)
    → P p
    → ((p' : DeliveryPackage) → r ≡ ok p' → P p')
    → P (keep p r)
keep-preserves P p (ok p') h k = k p' refl
keep-preserves P p (err e) h k = h

-- The invariant of a package: its section reviews are sound, and a package that is marked as ready
-- has no blocked section.
pub record IsKept (p : DeliveryPackage) : Type 0 where
  pub sound : All IsSound p.section_reviews
  pub unblocked : package_status_eq p.status ready ≡ true → enforcement_findings p ≡ []

not_ready : (s : PackageStatus) → package_status_eq (back_to_draft s) ready ≡ true → ⊥
not_ready draft h = cc
not_ready ready h = cc
not_ready handed_over h = cc

reset_rows-IsSound :
    (keys : Section → Bool) (rows : List SectionReview)
    → All IsSound rows
    → All IsSound (
        map
          (λ (r : SectionReview).
            if keys r.section_key
            then record (clear_confirmations r) { reviewed_by = none; reviewed_at = none }
            else r)
          rows)
reset_rows-IsSound keys [] s = s
reset_rows-IsSound keys (r ∷ rest) (s, later) = (
  if-IsSound (keys r.section_key) (record { separate = λ h. absurd cc; complete = λ h. absurd cc })
      s,
  reset_rows-IsSound keys rest later,
)

IsKept-step :
    (users : List User) (u : UseCase) (clock : Clock) (p : DeliveryPackage) (q : PackageRequest)
    → IsKept p
    → IsKept (step users u clock p q)
unfolding enforcement_findings reset_section_reviews
IsKept-step users u clock p mark_ready k = keep-preserves IsKept p (mark_package_ready p) k (λ p' h.
    let (_, clear, stored) = mark_package_ready-eq-ok p p' h in
    rw stored (record { sound = k.sound; unblocked = λ e. clear }))
IsKept-step users u clock p (hand_over a) k =
    keep-preserves IsKept p (hand_over_package clock users a p) k (λ p' h.
      let (_, _, _, stored) = hand_over_package-eq-ok clock users a p p' h in
      rw stored (record { sound = k.sound; unblocked = λ e. absurd cc }))
IsKept-step users u clock p (review_one a key action note reason) k =
    keep-preserves IsKept p (review_delivery_section clock a u p key action note reason) k (λ p' h.
      let (r, r', found, done, stored) = reviewed clock a u p key action note reason p' h in
      rw stored (record {
        sound =
            store_review-IsSound clock a u p r' p.section_reviews
              (review_section-IsSound clock a u p action note reason r r' done
                (find-IsSound key p.section_reviews r found k.sound))
              k.sound;
        unblocked = λ e. absurd (not_ready p.status e);
      }))
IsKept-step users u clock p (reset_some keys) k = record {
  sound = reset_rows-IsSound keys p.section_reviews k.sound;
  unblocked = λ e. absurd (not_ready p.status e);
}

-- From a package whose section reviews are sound and that has no blocked section when it is marked
-- as ready, every sequence of operations leads to such a package.
pub run_package-IsKept :
    (users : List User) (u : UseCase) (requests : List (Clock × PackageRequest))
    (p : DeliveryPackage)
    → IsKept p
    → IsKept (run_package users u p requests)
unfolding run_package
run_package-IsKept users u [] p k = k
run_package-IsKept users u ((clock, q) ∷ rest) p k =
    run_package-IsKept users u rest (step users u clock p q) (IsKept-step users u clock p q k)

-- The handover of a package as it is recorded.
abbrev pub IsHandedOver : Option ℕ → Option ℕ → DeliveryPackage → Type 0
IsHandedOver by' at' p =
    (p.status ≡ handed_over) × (p.handed_over_by ≡ by') × (p.handed_over_at ≡ at')

IsHandedOver-step :
    (users : List User) (u : UseCase) (clock : Clock) (p : DeliveryPackage) (q : PackageRequest)
    (by' at' : Option ℕ)
    → IsHandedOver by' at' p
    → IsHandedOver by' at' (step users u clock p q)
unfolding reset_section_reviews
IsHandedOver-step users u clock p mark_ready by' at' (s, b, t) =
    keep-preserves (IsHandedOver by' at') p (mark_package_ready p) (s, b, t)
      (λ p' h.
        let (other, _, _) = mark_package_ready-eq-ok p p' h in absurd (ground (arith, other, s)))
IsHandedOver-step users u clock p (hand_over a) by' at' (s, b, t) =
    keep-preserves (IsHandedOver by' at') p (hand_over_package clock users a p) (s, b, t)
      (λ p' h.
        let (was_ready, _, _, _) = hand_over_package-eq-ok clock users a p p' h in
        absurd (ground (arith, was_ready, s)))
IsHandedOver-step users u clock p (review_one a key action note reason) by' at' (s, b, t) =
    keep-preserves (IsHandedOver by' at') p
      (review_delivery_section clock a u p key action note reason) (s, b, t)
      (λ p' h.
        let (_, _, _, _, stored) = reviewed clock a u p key action note reason p' h in
        rw stored (rw s refl, b, t))
IsHandedOver-step users u clock p (reset_some keys) by' at' (s, b, t) = (rw s refl, b, t)

kept :
    (users : List User) (u : UseCase) (requests : List (Clock × PackageRequest))
    (p : DeliveryPackage) (by' at' : Option ℕ)
    → IsHandedOver by' at' p
    → IsHandedOver by' at' (run_package users u p requests)
unfolding run_package
kept users u [] p by' at' k = k
kept users u ((clock, q) ∷ rest) p by' at' k =
    kept users u rest (step users u clock p q) by' at'
      (IsHandedOver-step users u clock p q by' at' k)

-- A recorded handover stays as it is: no sequence of operations changes the status of a handed over
-- package, or by whom and when it was handed over.
pub run_package-handed_over :
    (users : List User) (u : UseCase) (requests : List (Clock × PackageRequest))
    (p : DeliveryPackage)
    → p.status ≡ handed_over
    → IsHandedOver p.handed_over_by p.handed_over_at (run_package users u p requests)
run_package-handed_over users u requests p s =
    kept users u requests p p.handed_over_by p.handed_over_at (s, refl, refl)
