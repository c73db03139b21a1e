-- ===== src/Accelerator/Adoption/Once.antt =====
-- A candidate is resolved once.
use ki_use_case_radar.Common.{
  ◌≡◌, refl, sym, ◌∙◌, ap, Bool, true, false, not, Option, none, some, [], Text, text_eq, is_some,
  arith, if◌then◌else◌, ok, ok-inj, Bool-cases, inl, inr, ==_refl,
}
use ki_use_case_radar.Clock.{Clock}
use ki_use_case_radar.Accounts.{User}
use ki_use_case_radar.Accelerator.Model.{
  Candidate, CandidateStatus, ErrorCode, no_error, processing, Target, is_state_valid,
  failed_candidate, conflict, stale, permission_denied, field_conflict, integrity_failed,
  action_not_allowed, unsupported_field,
}
use ki_use_case_radar.Accelerator.Candidates.{
  Contract, canonicalize_text, canonical_text_hash, candidate_validity, adoption_action_allowed,
  AdoptionAction, is_open, is_terminal, reserve_candidate, complete_candidate, CandidateValidity,
  valid, missing, inactive, outdated,
}
use ki_use_case_radar.Accelerator.Adoption.{
  Audit, AdoptionOutcome, was_denied, in_conflict, was_stale, was_not_allowed, has_failed,
  EditedValue, AuditAction, AdoptionCase, Verdict, refuse, outcome_of, result_from_candidate,
  validity_verdict, adoption, store_cleaned, value_verdict, target_verdict, permitted_verdict,
  checked_verdict, adopt_verdict, final_value, is_edited, complete_result, record_adoption_audit,
  write_target, adopt_action, adopt_field_candidate, candidate_integrity_valid, requested_action,
}

-- A verdict resolves the candidate, and its outcome is what the stored row says later.
pub record Coherent (v : Verdict) : Type 0 where
  pub terminal : is_terminal v.status ≡ true
  pub later : outcome_of v.error_code v.status ≡ v.outcome

if-Coherent : (b : Bool) (v w : Verdict) → Coherent v → Coherent w → Coherent (if b then v else w)
if-Coherent true v w p q = p
if-Coherent false v w p q = q

adoption-Coherent :
    (contract : Contract) (b : Bool) (value : Text) (written : Option Text)
    → Coherent (adoption contract b value written)
adoption-Coherent contract true value written = record { terminal = refl; later = refl }
adoption-Coherent contract false value written = record { terminal = refl; later = refl }

module _ (contract : Contract) (clean : Text → Option Text) where
  stored-Coherent :
      (current : Text) (b : Bool) (cleaned : Option Text)
      → Coherent (store_cleaned contract clean current b cleaned)
  stored-Coherent current b none = record { terminal = refl; later = refl }
  stored-Coherent current b (some t) = adoption-Coherent contract b _ (some t)

  value-Coherent :
      (c : Candidate) (e : EditedValue) (current : Text) (o : Option Text)
      → Coherent (value_verdict contract clean c e current o)
  value-Coherent c e current none = record { terminal = refl; later = refl }
  value-Coherent c e current (some final) =
      if-Coherent
        (text_eq (canonical_text_hash contract final) (canonical_text_hash contract current))
        (adoption contract (is_edited contract c e final) current none)
        (store_cleaned contract clean current (is_edited contract c e final) (clean final))
        (adoption-Coherent contract (is_edited contract c e final) current none)
        (stored-Coherent current (is_edited contract c e final) (clean final))

  target-Coherent :
      (actor : User) (c : Candidate) (e : EditedValue) (t : Target)
      → Coherent (permitted_verdict contract clean actor c e t)
  target-Coherent actor c e t =
      let current = canonicalize_text contract t.value in
      if-Coherent (not (t.can_edit actor)) (refuse failed_candidate was_denied permission_denied [])
        (target_verdict contract clean c e current) (record { terminal = refl; later = refl })
        (if-Coherent (not (text_eq (canonical_text_hash contract current) c.previous_value_hash))
          (refuse conflict in_conflict field_conflict current)
          (value_verdict contract clean c e current (final_value contract c e))
          (record { terminal = refl; later = refl })
          (value-Coherent c e current (final_value contract c e)))

validity-Coherent :
    (v : CandidateValidity) (next : Verdict) → Coherent next → Coherent (validity_verdict v next)
validity-Coherent valid next h = h
validity-Coherent missing next h = record { terminal = refl; later = refl }
validity-Coherent inactive next h = record { terminal = refl; later = refl }
validity-Coherent outdated next h = record { terminal = refl; later = refl }

module _ (contract : Contract) (clean : Text → Option Text) where
  checked-Coherent :
      (clock : Clock) (k : AdoptionCase) (action : AdoptionAction) (o : Option Target)
      (next : Target → Verdict)
      → ((t : Target) → Coherent (next t))
      → Coherent (checked_verdict contract clean clock k action o next)
  checked-Coherent clock k action none next h = record { terminal = refl; later = refl }
  checked-Coherent clock k action (some t) next h =
      let validity =
        candidate_validity contract.expected_versions clock.now k.session k.analysis (some t)
          k.candidate in
      if-Coherent (not (candidate_integrity_valid contract k))
        (refuse stale was_stale integrity_failed []) _ (record { terminal = refl; later = refl })
        (if-Coherent (not (adoption_action_allowed k.suggestion.uncertainty action))
          (refuse failed_candidate was_not_allowed action_not_allowed [])
          (validity_verdict validity (next t)) (record { terminal = refl; later = refl })
          (validity-Coherent validity (next t) (h t)))

  pub adopt-Coherent :
      (clock : Clock) (actor : User) (e : EditedValue) (k : AdoptionCase)
      → Coherent (adopt_verdict contract clean clock actor e k)
  unfolding adopt_verdict
  adopt-Coherent clock actor e k =
      if-Coherent (not k.is_adoptable) (refuse failed_candidate has_failed unsupported_field []) _
        (record { terminal = refl; later = refl })
        (checked-Coherent clock k (requested_action contract k.candidate e) k.target
          (permitted_verdict contract clean actor k.candidate e)
          (target-Coherent contract clean actor k.candidate e))

state_valid_of_terminal :
    (c : Candidate)
    → is_terminal c.status ≡ true
    → is_some c.resolved_at ≡ true
    → is_state_valid c ≡ true
state_valid_of_terminal c h r = ground (arith, h, r)

not_open_of_terminal : (s : CandidateStatus) → is_terminal s ≡ true → is_open s ≡ false
not_open_of_terminal s h = ground arith

-- The row that a reservation of an open candidate leaves.
abbrev pub taken : Clock → User → Candidate → Candidate
taken clock actor c = record c {
  status = processing;
  processing_by = some actor.id;
  processing_started_at = some clock.now;
  resolved_at = none;
  error_code = no_error;
}

reserve_open :
    (clock : Clock) (actor : User) (c : Candidate)
    → is_open c.status ≡ true
    → reserve_candidate clock actor c ≡ (taken clock actor c, true)
unfolding reserve_candidate
reserve_open clock actor c h = rw h refl

reserve_closed :
    (clock : Clock) (actor : User) (c : Candidate)
    → is_open c.status ≡ false
    → reserve_candidate clock actor c ≡ (c, false)
unfolding reserve_candidate
reserve_closed clock actor c h = rw h refl

complete_taken :
    (clock : Clock) (actor : User) (status : CandidateStatus) (code : ErrorCode) (c : Candidate)
    → is_terminal status ≡ true
    → complete_candidate clock actor status code (taken clock actor c)
      ≡ ok (record (taken clock actor c) {
        status = status;
        resolved_at = some clock.now;
        error_code = code;
      })
unfolding complete_candidate
complete_taken clock actor status code c h = rw (h, ==_refl actor.id) refl

module _ (contract : Contract) (clean : Text → Option Text) where
  -- The case between the reservation and the completion, and after the completion.
  abbrev pub reserved : Clock → User → AdoptionCase → AdoptionCase
  reserved clock actor k = record k { candidate = taken clock actor k.candidate }

  abbrev verdict : Clock → User → EditedValue → AdoptionCase → Verdict
  verdict clock actor e k = adopt_verdict contract clean clock actor e (reserved clock actor k)

  abbrev resolved : Clock → User → EditedValue → AdoptionCase → AdoptionCase
  resolved clock actor e k =
      let v = verdict clock actor e k in
      record k {
        candidate = record (taken clock actor k.candidate) {
          status = v.status;
          resolved_at = some clock.now;
          error_code = v.error_code;
        };
        audit = record_adoption_audit contract actor adopt_action v k.audit;
        target = write_target v.write k.target;
      }

  pub adopt_open :
      (clock : Clock) (actor : User) (e : EditedValue) (k : AdoptionCase)
      → is_open k.candidate.status ≡ true
      → adopt_field_candidate contract clean true clock actor e k
        ≡ ok (resolved clock actor e k, (verdict clock actor e k).outcome)
  unfolding adopt_field_candidate complete_result
  adopt_open clock actor e k h =
      let v = verdict clock actor e k in
      let coherent = adopt-Coherent contract clean clock actor e (reserved clock actor k) in
      rw
        (
          reserve_open clock actor k.candidate h,
          complete_taken clock actor v.status v.error_code k.candidate coherent.terminal,
        )
        refl

  adopt_closed :
      (clock : Clock) (actor : User) (e : EditedValue) (k : AdoptionCase)
      → is_open k.candidate.status ≡ false
      → adopt_field_candidate contract clean true clock actor e k
        ≡ ok (k, result_from_candidate k.candidate)
  unfolding adopt_field_candidate
  adopt_closed clock actor e k h = rw (reserve_closed clock actor k.candidate h) refl

  is_some-audit :
      (actor : User) (action : AuditAction) (v : Verdict) (o : Option Audit)
      → is_some (record_adoption_audit contract actor action v o) ≡ true
  is_some-audit actor action v none = refl
  is_some-audit actor action v (some a) = refl

  -- Where the adoption is enabled, the request on an open candidate always returns: the candidate then
  -- has a final status, satisfies the constraint of the table and has an audit.
  pub adopt_field_candidate-resolves :
      (clock : Clock) (actor : User) (e : EditedValue) (k : AdoptionCase)
      → is_open k.candidate.status ≡ true
      → (k' : AdoptionCase) × (o : AdoptionOutcome) × (adopt_field_candidate contract clean true
            clock actor e k
          ≡ ok (k', o))
        × (is_terminal k'.candidate.status ≡ true)
        × (is_state_valid k'.candidate ≡ true)
        × (is_some k'.audit ≡ true)
  adopt_field_candidate-resolves clock actor e k h =
      let v = verdict clock actor e k in
      let final = (adopt-Coherent contract clean clock actor e (reserved clock actor k)).terminal in
      (
        resolved clock actor e k,
        v.outcome,
        adopt_open clock actor e k h,
        final,
        state_valid_of_terminal (resolved clock actor e k).candidate final refl,
        is_some-audit actor adopt_action v k.audit,
      )

  closed_again :
      (clock : Clock) (actor : User) (e : EditedValue) (k k' : AdoptionCase) (o : AdoptionOutcome)
      → adopt_field_candidate contract clean true clock actor e k ≡ ok (k', o)
      → (is_open k'.candidate.status ≡ false) × (result_from_candidate k'.candidate ≡ o)
  closed_again clock actor e k k' o h = elim (Bool-cases (is_open k.candidate.status)) [
    | inl open' ↦
        let coherent = adopt-Coherent contract clean clock actor e (reserved clock actor k) in
        let same = ok-inj (sym (adopt_open clock actor e k open') ∙ h) in
        let row = ap (λ (p : AdoptionCase × AdoptionOutcome). p.0.candidate) same in
        (
          ap (λ (c : Candidate). is_open c.status) (sym row)
              ∙ not_open_of_terminal (verdict clock actor e k).status coherent.terminal,
          ap result_from_candidate (sym row)
              ∙ coherent.later
              ∙ ap (λ (p : AdoptionCase × AdoptionOutcome). p.1) same,
        )
    | inr closed ↦
        let same = ok-inj (sym (adopt_closed clock actor e k closed) ∙ h) in
        let row = ap (λ (p : AdoptionCase × AdoptionOutcome). p.0.candidate) same in
        (
          ap (λ (c : Candidate). is_open c.status) (sym row) ∙ closed,
          ap result_from_candidate (sym row)
              ∙ ap (λ (p : AdoptionCase × AdoptionOutcome). p.1) same,
        )
  ]

  -- An adoption that is repeated, by the same user or another one, with the same text or another one,
  -- returns the outcome of the first request and changes nothing.
  pub adopt_field_candidate-again :
      (clock clock' : Clock) (actor actor' : User) (e e' : EditedValue) (k k' : AdoptionCase)
      (o : AdoptionOutcome)
      → adopt_field_candidate contract clean true clock actor e k ≡ ok (k', o)
      → adopt_field_candidate contract clean true clock' actor' e' k' ≡ ok (k', o)
  adopt_field_candidate-again clock clock' actor actor' e e' k k' o h =
      let (closed, same) = closed_again clock actor e k k' o h in
      adopt_closed clock' actor' e' k' closed ∙ ap (λ outcome. ok (k', outcome)) same
