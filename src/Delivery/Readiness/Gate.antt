-- ===== src/Delivery/Readiness/Gate.antt =====
-- What a package needs to be handed over without a blocking finding.
use ki_use_case_radar.Common.{
  ◌≡◌, ◌↔◌, refl, sym, ◌∙◌, Bool, true, false, ◌||◌, not, List, [], all, ltb, arith,
  filter_none_iff,
}
use ki_use_case_radar.Accounts.{User}
use ki_use_case_radar.UseCases.Model.{UseCase}
use ki_use_case_radar.Delivery.Model.{DeliveryPackage}
use ki_use_case_radar.Delivery.Permissions.{all_sections}
use ki_use_case_radar.Delivery.Packages.{has_active_owner}
use ki_use_case_radar.Delivery.Readiness.Content.{PackageContent, handover_notes}
use ki_use_case_radar.Delivery.Readiness.Patterns.{Engine}
use ki_use_case_radar.Delivery.Readiness.Findings.{is_blocking}
use ki_use_case_radar.Delivery.Readiness.Semantics.{output_semantic_findings}
use ki_use_case_radar.Delivery.Readiness.Latency.{latency_semantic_findings}
use ki_use_case_radar.Delivery.Readiness.Retention.{retention_semantic_findings}
use ki_use_case_radar.Delivery.Readiness.Stops.{
  stops, stops-append, section_passes, fields_ready, artifacts_ready, conditions_ready,
  sources_current, owner_stops, sections_stop, required_fields_stop, artifact_findings_stop,
  conditions_stop, staleness_stops, evaluation_passes,
}
use ki_use_case_radar.Delivery.Readiness.{
  confidence_text, latency_text, retention_text, quality_semantic_findings,
  evaluate_delivery_readiness, blocking_findings,
}

module _ {F : Type 0} (re : Engine F) (users : List User) (use_case : UseCase)
    (c : PackageContent) where
  -- What the evaluation asks of a package.
  pub record ReadyGate (p : DeliveryPackage) : Type 0 where
    pub owned : has_active_owner users p.technical_owner ≡ true
    pub reviewed : all (section_passes c p.section_reviews) all_sections ≡ true
    pub filled : all (fields_ready re c) all_sections ≡ true
    pub designed : artifacts_ready re c.artifacts ≡ true
    pub conditioned : conditions_ready re c.generated_from (c.text_of handover_notes) ≡ true
    pub current : sources_current c use_case.technical_owner p ≡ true
    pub outputs : stops (output_semantic_findings re (confidence_text c)) ≡ false
    pub latency : stops (latency_semantic_findings re (latency_text c)) ≡ false
    pub retention : stops (retention_semantic_findings re (retention_text c)) ≡ false

  quality_stops : stops (quality_semantic_findings re c) ≡ (
      stops (output_semantic_findings re (confidence_text c))
      || stops (latency_semantic_findings re (latency_text c))
      || stops (retention_semantic_findings re (retention_text c)))
  unfolding quality_semantic_findings
  quality_stops = simp (stops-append, evaluation_passes)

  readiness_stops :
      (p : DeliveryPackage)
      → ltb p.readiness_schema_version 2 ≡ false
      → stops (evaluate_delivery_readiness re users use_case c p) ≡ (
          not (has_active_owner users p.technical_owner)
          || not (all (section_passes c p.section_reviews) all_sections)
          || not (all (fields_ready re c) all_sections)
          || not (artifacts_ready re c.artifacts)
          || not (conditions_ready re c.generated_from (c.text_of handover_notes))
          || not (sources_current c use_case.technical_owner p)
          || (stops (output_semantic_findings re (confidence_text c))
              || stops (latency_semantic_findings re (latency_text c))
              || stops (retention_semantic_findings re (retention_text c))))
  unfolding evaluate_delivery_readiness
  readiness_stops p schema = rw schema (
      simp (
        stops-append, owner_stops, sections_stop, required_fields_stop, artifact_findings_stop,
        conditions_stop, staleness_stops, quality_stops,
      ))

abbrev nine : Bool → Bool → Bool → Bool → Bool → Bool → Bool → Bool → Bool → Bool
nine a b c d e f g h i = not a || not b || not c || not d || not e || not f || (g || h || i)

nine→ :
    (a b c d e f g h i : Bool)
    → nine a b c d e f g h i ≡ false
    → (a ≡ true)
      × (b ≡ true)
      × (c ≡ true)
      × (d ≡ true)
      × (e ≡ true)
      × (f ≡ true)
      × (g ≡ false)
      × (h ≡ false)
      × (i ≡ false)
nine→ true true true true true true false false false p =
    (refl, refl, refl, refl, refl, refl, refl, refl, refl)
nine→ a b c d e f g h i p = ground arith

module _ {F : Type 0} (re : Engine F) (users : List User) (use_case : UseCase)
    (c : PackageContent) where
  gate→ :
      (p : DeliveryPackage)
      → ltb p.readiness_schema_version 2 ≡ false
      → stops (evaluate_delivery_readiness re users use_case c p) ≡ false
      → ReadyGate re users use_case c p
  gate→ p schema h =
      let (o, r, f, d, k, u, s, l, t) =
        nine→ _ _ _ _ _ _ _ _ _ (sym (readiness_stops re users use_case c p schema) ∙ h) in
      record {
        owned = o;
        reviewed = r;
        filled = f;
        designed = d;
        conditioned = k;
        current = u;
        outputs = s;
        latency = l;
        retention = t;
      }

  gate← :
      (p : DeliveryPackage)
      → ltb p.readiness_schema_version 2 ≡ false
      → ReadyGate re users use_case c p
      → stops (evaluate_delivery_readiness re users use_case c p) ≡ false
  gate← p schema g =
      readiness_stops re users use_case c p schema
      ∙ rw
          (
            g.owned, g.reviewed, g.filled, g.designed, g.conditioned, g.current, g.outputs,
            g.latency, g.retention,
          )
          refl

  -- A package of the current schema has no blocking finding exactly if its technical owner is active,
  -- every section has its sources and is confirmed by its roles and two persons or excused with a
  -- reason, every required text and artifact is there and no template, the conditions of the approval
  -- have an owner and a day and stand in the notes, no change of the technical owner is unresolved, and
  -- outputs, latency and retention are settled. Warnings do not count.
  pub blocking_findings_iff :
      (p : DeliveryPackage)
      → ltb p.readiness_schema_version 2 ≡ false
      → (blocking_findings re users use_case c p ≡ []) ↔ ReadyGate re users use_case c p
  unfolding blocking_findings
  blocking_findings_iff p schema =
      let nothing =
        filter_none_iff is_blocking (evaluate_delivery_readiness re users use_case c p) in
      ((λ h. gate→ p schema (nothing.0 h)), λ g. nothing.1 (gate← p schema g))
