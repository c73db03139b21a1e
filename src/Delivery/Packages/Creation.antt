-- ===== src/Delivery/Packages/Creation.antt =====
-- What a new package does to the case.
use ki_use_case_radar.Common.{
  ℕ, ◌+◌, ◌≤◌, ◌<◌, ◌≡◌, refl, ap, ◌∙◌, sym, ◌>>=◌, Bool, Bool-cases, inl, inr, false, ◌&&◌, ◌==◌,
  Option, none, some, List, [], ◌∷◌, map, any, arith, leb, pick, if◌then◌else◌, ok, is_ok, ok-inj,
  >>=-eq-ok, is_ok-eq-false,
}
use ki_use_case_radar.Clock.{Clock}
use ki_use_case_radar.Accounts.{User}
use ki_use_case_radar.UseCases.Model.{UseCase}
use ki_use_case_radar.UseCases.TransitionPolicy.{validate_pilot_start}
use ki_use_case_radar.Reviews.Gates.{validate_pilot_start_iff}
use ki_use_case_radar.Delivery.Model.{DeliveryPackage, handed_over, package_status_eq}
use ki_use_case_radar.Delivery.Handover.{
  package_before, recorded_handover_package, current_package, recorded,
}
use ki_use_case_radar.Delivery.Sections.{review_delivery_section, reset_section_reviews}
use ki_use_case_radar.Delivery.Packages.{
  create_delivery_package, delivery_eligibility, with_assessment, new_package, max_version,
  mark_package_ready, hand_over_package,
}
use ki_use_case_radar.Delivery.Packages.Checked.{
  reviewed, mark_package_ready-eq-ok, hand_over_package-eq-ok,
}
use ki_use_case_radar.Delivery.Packages.Runs.{
  PackageRequest, mark_ready, hand_over, review_one, reset_some, step, step_at, run_packages,
  keep-preserves,
}
use ki_use_case_radar.CaseFile.{CaseFile}

abbrev version_of : Option DeliveryPackage → ℕ
version_of none = 0
version_of (some p) = p.version

version-pick :
    (x : DeliveryPackage) (o : Option DeliveryPackage) (n : ℕ)
    → version_of o ≤ n
    → (pick package_before x o).version ≤ (if leb x.version n then n else x.version)
version-pick x none n h = ground arith
version-pick x (some y) n h = ground arith

version-current :
    (rows : List DeliveryPackage) → version_of (current_package rows) ≤ max_version rows
version-current [] = omega arith
version-current (x ∷ rest) =
    version-pick x (current_package rest) (max_version rest) (version-current rest)

pick_newest :
    (x : DeliveryPackage) (o : Option DeliveryPackage)
    → version_of o < x.version
    → pick package_before x o ≡ x
pick_newest x none h = refl
pick_newest x (some y) h = ground arith

-- No operation on a package changes its version.
step-version :
    (users : List User) (u : UseCase) (clock : Clock) (p : DeliveryPackage) (q : PackageRequest)
    → (step users u clock p q).version ≡ p.version
unfolding reset_section_reviews
step-version users u clock p mark_ready =
    keep-preserves (λ r. r.version ≡ p.version) p (mark_package_ready p) refl
      (λ p' h. let (_, _, stored) = mark_package_ready-eq-ok p p' h in rw stored refl)
step-version users u clock p (hand_over a) =
    keep-preserves (λ r. r.version ≡ p.version) p (hand_over_package clock users a p) refl
      (λ p' h.
        let (_, _, _, stored) = hand_over_package-eq-ok clock users a p p' h in rw stored refl)
step-version users u clock p (review_one a key action note reason) =
    keep-preserves (λ r. r.version ≡ p.version) p
      (review_delivery_section clock a u p key action note reason) refl
      (λ p' h.
        let (_, _, _, _, stored) = reviewed clock a u p key action note reason p' h in
        rw stored refl)
step-version users u clock p (reset_some keys) = refl

module _ (users : List User) (u : UseCase) where
  step_at-version :
      (clock : Clock) (pk : ℕ) (q : PackageRequest) (p : DeliveryPackage)
      → (step_at users u clock pk q p).version ≡ p.version
  step_at-version clock pk q p = elim (Bool-cases (p.pk == pk)) [
    | inl hit ↦ rw hit (step-version users u clock p q)
    | inr missed ↦ rw missed refl
  ]

  max_version-map :
      (clock : Clock) (pk : ℕ) (q : PackageRequest) (rows : List DeliveryPackage)
      → max_version (map (step_at users u clock pk q) rows) ≡ max_version rows
  max_version-map clock pk q [] = refl
  max_version-map clock pk q (p ∷ rows) =
      rw (step_at-version clock pk q p, max_version-map clock pk q rows) refl

  -- The package in front of the others is there still, with its version.
  record InFront (version : ℕ) (highest : ℕ) (rows : List DeliveryPackage) : Type 0 where
    front : DeliveryPackage
    others : List DeliveryPackage
    shape : rows ≡ front ∷ others
    front_version : front.version ≡ version
    others_version : max_version others ≡ highest

  run_packages-InFront :
      (requests : List (Clock × ℕ × PackageRequest)) (x : DeliveryPackage)
      (rows : List DeliveryPackage)
      → InFront x.version (max_version rows) (run_packages users u requests (x ∷ rows))
  unfolding run_packages
  run_packages-InFront [] x rows = record {
    front = x;
    others = rows;
    shape = refl;
    front_version = refl;
    others_version = refl;
  }
  run_packages-InFront ((clock, pk, q) ∷ rest) x rows =
      let later =
        run_packages-InFront rest (step_at users u clock pk q x)
          (map (step_at users u clock pk q) rows) in
      record {
        front = later.front;
        others = later.others;
        shape = later.shape;
        front_version = later.front_version ∙ step_at-version clock pk q x;
        others_version = later.others_version ∙ max_version-map clock pk q rows;
      }

-- The package of the version is handed over.
abbrev pub has_handed_over : ℕ → List DeliveryPackage → Bool
has_handed_over version rows =
    any (λ (p : DeliveryPackage). p.version == version && package_status_eq p.status handed_over)
      rows

unrecorded :
    (p : DeliveryPackage) (rows : List DeliveryPackage)
    → max_version rows < p.version
    → package_status_eq p.status handed_over ≡ false
    → recorded_handover_package (p ∷ rows) ≡ none
unfolding recorded_handover_package
unrecorded p rows h other =
    let newest = pick_newest p (current_package rows) (omega (arith, version-current rows, h)) in
    ap (λ q. recorded (some q)) newest ∙ rw other refl

none_recorded :
    (users : List User) (u : UseCase) (highest : ℕ) (rows : List DeliveryPackage)
    → InFront users u (highest + 1) highest rows
    → has_handed_over (highest + 1) rows ≡ false
    → recorded_handover_package rows ≡ none
none_recorded users u highest rows i waits =
    let version = i.front_version in
    let below = i.others_version in
    let h : has_handed_over (highest + 1) (i.front ∷ i.others) ≡ false = rw i.shape at waits in
    rw i.shape
      (unrecorded i.front i.others (omega (arith, version, below)) (ground (arith, h, version)))

-- A new package takes the place of the recorded handover: whichever packages of the case are marked as
-- ready, handed over, reviewed or reset afterwards, as long as the new one is not handed over, no
-- handover is recorded and no pilot start passes, whatever else of the case has changed.
pub create_delivery_package-blocks_pilot :
    (clock later : Clock) (f : CaseFile) (a : User) (f' g : CaseFile) (users : List User)
    (u : UseCase) (requests : List (Clock × ℕ × PackageRequest)) (start : Option ℕ)
    → create_delivery_package clock f a ≡ ok f'
    → g.delivery_packages ≡ run_packages users u requests f'.delivery_packages
    → has_handed_over (max_version f.delivery_packages + 1) g.delivery_packages ≡ false
    → (recorded_handover_package g.delivery_packages ≡ none)
      × (is_ok (validate_pilot_start later g start) ≡ false)
unfolding create_delivery_package new_package
create_delivery_package-blocks_pilot clock later f a f' g users u requests start h moved waits =
    let (d, _, stored) = >>=-eq-ok (delivery_eligibility f >>= with_assessment) _ h in
    let rows = f.delivery_packages in
    let made : new_package clock f a d ∷ rows ≡ f'.delivery_packages =
      ap (λ (k : CaseFile). k.delivery_packages) (ok-inj stored) in
    let run = run_packages-InFront users u requests (new_package clock f a d) rows in
    let front : InFront users u (max_version rows + 1) (max_version rows) g.delivery_packages =
      rw moved (rw (sym made) run) in
    let gone = none_recorded users u (max_version rows) g.delivery_packages front waits in
    (
      gone,
      is_ok-eq-false (validate_pilot_start later g start) (λ t passed.
          let (p, _, _, gate) = (validate_pilot_start_iff later g start).0 passed in
          let found = gate.recorded in absurd cc),
    )
