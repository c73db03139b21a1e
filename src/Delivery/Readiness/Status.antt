-- ===== src/Delivery/Readiness/Status.antt =====
-- The status that is shown of a package, and the two notions of a handover.
use ki_use_case_radar.Common.{
  ◌≡◌, ◌↔◌, true, false, Option, none, some, List, [], arith, is_some, is_empty, ◌==◌, Bool-cases,
  inl, inr, Pairwise, first_by_cong, Pairwise-mono, eq_nil_of_is_empty,
}
use ki_use_case_radar.Accounts.{User}
use ki_use_case_radar.UseCases.Model.{UseCase}
use ki_use_case_radar.Delivery.Model.{DeliveryPackage, handed_over, package_status_eq}
use ki_use_case_radar.Delivery.Handover.{
  package_before, current_package, recorded, recorded_handover_package,
}
use ki_use_case_radar.Delivery.Readiness.Content.{PackageContent}
use ki_use_case_radar.Delivery.Readiness.Patterns.{Engine}
use ki_use_case_radar.Delivery.Readiness.{
  blocking_findings, delivery_status_snapshot, current_handed_over_package, version_before,
  current_delivery_package, handed_over_complete,
}

-- No two packages have the same version.
abbrev pub HasVersions : List DeliveryPackage → Type 0
HasVersions = Pairwise (λ (q p : DeliveryPackage). (q.version == p.version) ≡ false)

order_agrees :
    (q p : DeliveryPackage)
    → (q.version == p.version) ≡ false
    → version_before q p ≡ package_before q p
order_agrees q p h = ground arith

module _ {F : Type 0} (re : Engine F) (users : List User) (use_case : UseCase)
    (c : PackageContent) where
  -- The snapshot shows a complete handover exactly if the package is handed over, with its time, and
  -- has no blocking finding.
  pub delivery_status_snapshot-complete_iff :
      (p : DeliveryPackage)
      → ((delivery_status_snapshot re users use_case c p).handover_complete ≡ true) ↔ (
          (package_status_eq p.status handed_over ≡ true)
          × (is_some p.handed_over_at ≡ true)
          × (blocking_findings re users use_case c p ≡ []))
  unfolding delivery_status_snapshot
  delivery_status_snapshot-complete_iff p =
      elim (Bool-cases (is_empty (blocking_findings re users use_case c p))) [
        | inl clear ↦
            let nil = eq_nil_of_is_empty (blocking_findings re users use_case c p) clear in
            rw clear ((λ h. (ground arith, ground arith, nil)), λ (s, t, n). ground (arith, s, t))
        | inr found ↦
            rw found ((λ h. absurd (ground arith)), λ (s, t, n). absurd (ground (arith, n, found)))
      ]

  complete-recorded :
      (o : Option DeliveryPackage) (p : DeliveryPackage)
      → handed_over_complete re users use_case c o ≡ some p
      → recorded o ≡ some p
  unfolding handed_over_complete
  complete-recorded none p h = cc
  complete-recorded (some q) p h =
      elim (Bool-cases (delivery_status_snapshot re users use_case c q).handover_complete) [
        | inl complete ↦
            let (s, t, n) = (delivery_status_snapshot-complete_iff q).0 complete in
            ground (arith, s, t, complete, h)
        | inr missing ↦ absurd (ground (arith, missing, h))
      ]

  -- A package whose handover is complete is the one whose handover the lifecycle reads: the strict
  -- notion implies the recorded one, and both mean the same package.
  pub current_handed_over_package-recorded :
      (packages : List DeliveryPackage) (p : DeliveryPackage)
      → HasVersions packages
      → current_handed_over_package re users use_case c packages ≡ some p
      → recorded_handover_package packages ≡ some p
  unfolding current_handed_over_package recorded_handover_package
  current_handed_over_package-recorded packages p distinct h =
      let same : current_delivery_package packages ≡ current_package packages =
        first_by_cong version_before package_before packages
          (Pairwise-mono packages order_agrees distinct) in
      complete-recorded (current_package packages) p (rw same at h)
