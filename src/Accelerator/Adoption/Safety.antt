-- ===== src/Accelerator/Adoption/Safety.antt =====
-- What stands between a candidate and the text of its target.
use ki_use_case_radar.Common.{
  ℕ, ◌≡◌, refl, sym, ◌∙◌, ap, Bool, true, false, Option, none, some, Text, text_eq, arith,
  Bool-cases, Option-cases, ◌⊎◌, inl, inr, ok, ok-inj,
}
use mathlib.Core.Path.{subst}
use ki_use_case_radar.Clock.{Clock}
use ki_use_case_radar.Accounts.{User}
use ki_use_case_radar.Accelerator.Model.{Candidate, Target, Versions}
use ki_use_case_radar.Accelerator.Candidates.{
  Contract, canonicalize_text, canonical_text_hash, adoption_action_allowed, is_open, is_fresh,
  candidate_validity,
}
use ki_use_case_radar.Accelerator.Adoption.{
  EditedValue, AdoptionCase, Verdict, AdoptionOutcome, validity_verdict, store_cleaned,
  value_verdict, permitted_verdict, checked_verdict, adopt_verdict, final_value, is_edited,
  candidate_integrity_valid, requested_action, write_target, adopt_field_candidate,
}
use ki_use_case_radar.Accelerator.Adoption.Once.{reserved, adopt_open}

some-inj : {x y : Target} → some x ≡ some y → x ≡ y
some-inj h = cc

-- What a written text has passed: the field is adoptable, the candidate still fits its suggestion, the
-- action is allowed at the suggestion's uncertainty, target and contract are current, the actor may
-- edit the target, the target's text is the one that the candidate was made against, and the form has
-- cleaned the final text to the written one.
pub record WriteGate (contract : Contract) (clean : Text → Option Text) (clock : Clock)
    (actor : User) (e : EditedValue) (k : AdoptionCase) (t : Target) (new : Text) : Type 0 where
  pub adoptable : k.is_adoptable ≡ true
  pub fits : candidate_integrity_valid contract k ≡ true
  pub allowed :
      adoption_action_allowed k.suggestion.uncertainty (requested_action contract k.candidate e)
      ≡ true
  pub active : t.is_inactive ≡ false
  pub fresh : is_fresh contract.expected_versions clock.now k.session k.analysis k.candidate ≡ true
  pub permitted : t.can_edit actor ≡ true
  pub unchanged :
      text_eq
        (canonical_text_hash contract (canonicalize_text contract t.value))
        k.candidate.previous_value_hash
      ≡ true
  pub cleaned :
      (final : Text) × (final_value contract k.candidate e ≡ some final) × (clean final ≡ some new)

module _ (contract : Contract) (clean : Text → Option Text) where
  store-write :
      (current : Text) (b : Bool) (o : Option Text) (new : Text)
      → (store_cleaned contract clean current b o).write ≡ some new
      → o ≡ some new
  store-write current b none new h = cc
  store-write current b (some t) new h = h

  value-write :
      (c : Candidate) (e : EditedValue) (current : Text) (o : Option Text) (new : Text)
      → (value_verdict contract clean c e current o).write ≡ some new
      → (final : Text) × (o ≡ some final) × (clean final ≡ some new)
  value-write c e current none new h = cc
  value-write c e current (some final) new h =
      elim (Bool-cases
        (text_eq (canonical_text_hash contract final) (canonical_text_hash contract current))) [
          | inl same ↦ absurd (ground (arith, same, h))
          | inr differs ↦ (
            final,
            refl,
            store-write current (is_edited contract c e final) (clean final) new (rw differs at h),
          )
        ]

  permitted-write :
      (actor : User) (c : Candidate) (e : EditedValue) (t : Target) (new : Text)
      → (permitted_verdict contract clean actor c e t).write ≡ some new
      → (t.can_edit actor ≡ true)
        × (text_eq
              (canonical_text_hash contract (canonicalize_text contract t.value))
              c.previous_value_hash
            ≡ true)
        × ((final : Text) × (final_value contract c e ≡ some final) × (clean final ≡ some new))
  permitted-write actor c e t new h = elim (Bool-cases (t.can_edit actor)) [
    | inr denied ↦ let p = rw denied at h in absurd cc
    | inl may ↦
        let current = canonicalize_text contract t.value in
        let p = rw may at h in
        elim (Bool-cases (text_eq (canonical_text_hash contract current) c.previous_value_hash)) [
          | inr changed ↦ let q = rw changed at p in absurd cc
          | inl same ↦
              (may, same, value-write c e current (final_value contract c e) new (rw same at p))
        ]
  ]

validity-write :
    (expected : Versions) (now : ℕ) (k : AdoptionCase) (t : Target) (next : Verdict) (new : Text)
    → (validity_verdict
        (candidate_validity expected now k.session k.analysis (some t) k.candidate)
        next).write
      ≡ some new
    → (t.is_inactive ≡ false)
      × (is_fresh expected now k.session k.analysis k.candidate ≡ true)
      × (next.write ≡ some new)
validity-write expected now k t next new h = elim (Bool-cases t.is_inactive) [
  | inl archived ↦ let p = rw archived at h in absurd cc
  | inr active ↦
      let p = rw active at h in
      elim (Bool-cases (is_fresh expected now k.session k.analysis k.candidate)) [
        | inl fresh ↦ (active, fresh, rw fresh at p)
        | inr old ↦ let q = rw old at p in absurd cc
      ]
]

module _ (contract : Contract) (clean : Text → Option Text) where
  checked-write :
      (clock : Clock) (actor : User) (e : EditedValue) (k : AdoptionCase) (t : Target) (new : Text)
      → k.is_adoptable ≡ true
      → (checked_verdict contract clean clock k
          (requested_action contract k.candidate e)
          (some t)
          (permitted_verdict contract clean actor k.candidate e)).write
        ≡ some new
      → WriteGate contract clean clock actor e k t new
  checked-write clock actor e k t new adoptable h =
      elim (Bool-cases (candidate_integrity_valid contract k)) [
        | inr broken ↦ let p = rw broken at h in absurd cc
        | inl fits ↦
            let p = rw fits at h in
            elim (Bool-cases (
              adoption_action_allowed k.suggestion.uncertainty
                (requested_action contract k.candidate e))) [
                  | inr forbidden ↦ let q = rw forbidden at p in absurd cc
                  | inl allowed ↦
                      let next = permitted_verdict contract clean actor k.candidate e t in
                      let (active, fresh, w) =
                        validity-write contract.expected_versions clock.now k t next new
                          (rw allowed at p) in
                      let (may, same, cleaned) =
                        permitted-write contract clean actor k.candidate e t new w in
                      record {
                        adoptable = adoptable;
                        fits = fits;
                        allowed = allowed;
                        active = active;
                        fresh = fresh;
                        permitted = may;
                        unchanged = same;
                        cleaned = cleaned;
                      }
                ]
      ]

  adopt_verdict-write :
      (clock : Clock) (actor : User) (e : EditedValue) (k : AdoptionCase) (new : Text)
      → (adopt_verdict contract clean clock actor e k).write ≡ some new
      → (t : Target) × (k.target ≡ some t) × WriteGate contract clean clock actor e k t new
  unfolding adopt_verdict candidate_integrity_valid
  adopt_verdict-write clock actor e k new h = elim (Bool-cases k.is_adoptable) [
    | inr unknown ↦ let p = rw unknown at h in absurd cc
    | inl adoptable ↦
        let p = rw adoptable at h in
        elim (Option-cases k.target) [
          | inl gone ↦ let q = rw gone at p in absurd cc
          | inr (t, found) ↦
              (t, found, checked-write clock actor e k t new adoptable (rw found at p))
        ]
  ]

  written_or_kept :
      (v : Verdict) (o : Option Target) (t t' : Target)
      → o ≡ some t
      → write_target v.write o ≡ some t'
      → (t' ≡ t) ⊎ ((new : Text) × (v.write ≡ some new) × (t' ≡ record t { value = new }))
  written_or_kept v o t t' found h = elim (Option-cases v.write) [
    | inl nothing ↦ inl (some-inj (sym (rw (found, nothing) at h)))
    | inr (new, written) ↦ inr (new, written, some-inj (sym (rw (found, written) at h)))
  ]

  -- A request to adopt an open candidate leaves the target as it is, or stores a text in its one field
  -- that has passed the gate, which holds of the case as the reservation leaves it: nothing is
  -- overwritten that was changed since the candidate was made, and nothing is stored that the action,
  -- the rights or the form forbid.
  pub adopt_field_candidate-writes :
      (clock : Clock) (actor : User) (e : EditedValue) (k k' : AdoptionCase) (o : AdoptionOutcome)
      (t t' : Target)
      → is_open k.candidate.status ≡ true
      → adopt_field_candidate contract clean true clock actor e k ≡ ok (k', o)
      → k.target ≡ some t
      → k'.target ≡ some t'
      → (t' ≡ t)
        ⊎ ((new : Text) × (t' ≡ record t { value = new })
            × WriteGate contract clean clock actor e (reserved contract clean clock actor k) t new)
  adopt_field_candidate-writes clock actor e k k' o t t' open' h found found' =
      let r = reserved contract clean clock actor k in
      let v = adopt_verdict contract clean clock actor e r in
      let same = ok-inj (sym (adopt_open contract clean clock actor e k open') ∙ h) in
      let target = ap (λ (p : AdoptionCase × AdoptionOutcome). p.0.target) same in
      elim (written_or_kept v k.target t t' found (target ∙ found')) [
        | inl kept ↦ inl kept
        | inr (new, written, eq) ↦
            let (t0, found0, gate) = adopt_verdict-write clock actor e r new written in
            inr (
              new,
              eq,
              subst (λ w. WriteGate contract clean clock actor e r w new)
                  (some-inj (sym found0 ∙ found)) gate,
            )
      ]
