-- ===== src/Accelerator/Creation/Unique.antt =====
-- ki_radar/accelerator/candidate_snapshot.py: what the creation of candidates keeps, among it the
-- constraint `uniq_open_adoption_target_field` of models.py.
use mathlib.Core.Path.{subst}
use ki_use_case_radar.Common.{
  ℕ, Bool, Bool-cases, true, false, ◌||◌, Option, none, some, List, [], ◌∷◌, map, filter, Text, ◌≡◌,
  ◌==◌, if◌then◌else◌, ok, ◌>>◌, require, raise_if, refl, sym, ◌∙◌, ap, arith, inl, inr, All,
  Pairwise, >>-eq-ok, require-eq-ok, >>=-eq-ok, ok-inj, is_none, ==_refl,
}
use ki_use_case_radar.Clock.{Clock}
use ki_use_case_radar.Accelerator.Model.{
  CaptureType, CaptureSession, CaptureAnalysis, bound_target_id, capture_type_eq,
}
use ki_use_case_radar.Accelerator.Candidates.{Contract, is_success}
use ki_use_case_radar.Accelerator.Creation.{
  CandidateRow, SuggestionRow, TargetObject, bound_target_inactive, analysis_not_successful,
  types_differ, is_replaced, supersede, same_open_field, supersede_open_candidates, has_candidate,
  new_candidate, add_candidate, candidate_for, create_each, is_suggested, create_on, create_bound,
  create_adoption_candidates,
}

-- No two open candidates are for the same field of the same object.
abbrev pub IsUnique : List CandidateRow → Type 0
IsUnique rows = Pairwise (λ later first. same_open_field first later ≡ false) rows

module _ (clock : Clock) (kind : CaptureType) (target : ℕ) (field : Text)
    (excluded : Option ℕ) where
  abbrev superseded_row : CandidateRow → CandidateRow
  superseded_row r = if is_replaced kind target field excluded r then supersede clock r else r

  superseded_row-apart :
      (a b : CandidateRow)
      → same_open_field a b ≡ false
      → same_open_field (superseded_row a) (superseded_row b) ≡ false
  superseded_row-apart a b h = elim (Bool-cases (is_replaced kind target field excluded a)) [
    | inl hit ↦ rw hit refl
    | inr missed ↦ elim (Bool-cases (is_replaced kind target field excluded b)) [
      | inl hit ↦ rw (missed, hit) (ground arith)
      | inr n ↦ rw (missed, n) h
    ]
  ]

  All-superseded :
      (a : CandidateRow) (rows : List CandidateRow)
      → All (λ b. same_open_field a b ≡ false) rows
      → All (λ b. same_open_field (superseded_row a) b ≡ false) (map superseded_row rows)
  All-superseded a [] h = tt
  All-superseded a (b ∷ rows) (h, rest) = (superseded_row-apart a b h, All-superseded a rows rest)

  superseded-IsUnique :
      (rows : List CandidateRow) → IsUnique rows → IsUnique (map superseded_row rows)
  superseded-IsUnique [] h = tt
  superseded-IsUnique (a ∷ rows) (h, rest) =
      (All-superseded a rows h, superseded-IsUnique rows rest)

  has_candidate-superseded :
      (pk : ℕ) (rows : List CandidateRow)
      → has_candidate pk (map superseded_row rows) ≡ has_candidate pk rows
  has_candidate-superseded pk [] = refl
  has_candidate-superseded pk (r ∷ rows) =
      elim (Bool-cases (is_replaced kind target field excluded r)) [
        | inl hit ↦ rw hit (ap (λ b. r.suggestion == pk || b) (has_candidate-superseded pk rows))
        | inr missed ↦
            rw missed (ap (λ b. r.suggestion == pk || b) (has_candidate-superseded pk rows))
      ]

-- No row of another suggestion is open for the field once the older ones are superseded.
superseded-free :
    (clock : Clock) (new : CandidateRow) (rows : List CandidateRow)
    → has_candidate new.suggestion rows ≡ false
    → All
        (λ b. same_open_field new b ≡ false)
        (map
          (superseded_row clock new.candidate.target_object_type new.candidate.target_object_id
            new.candidate.target_field
            (some new.suggestion))
          rows)
superseded-free clock new [] h = tt
superseded-free clock new (r ∷ rows) h = (
  elim (Bool-cases (
      is_replaced new.candidate.target_object_type new.candidate.target_object_id
        new.candidate.target_field (some new.suggestion) r)) [
          | inl hit ↦ rw hit (ground arith)
          | inr missed ↦ rw missed (ground (arith, missed, h))
        ],
  superseded-free clock new rows (ground (arith, h)),
)

-- A suggestion that names a field has its candidate.
abbrev is_covered : List CandidateRow → SuggestionRow → Bool
is_covered rows s = is_none s.suggestion.target_field || has_candidate s.pk rows

module _ (contract : Contract) (clock : Clock) (analysis : CaptureAnalysis) where
  record Step (s : SuggestionRow) (rows : List CandidateRow) (next : List CandidateRow)
      : Type 0 where
    unique : IsUnique rows → IsUnique next
    kept : (pk : ℕ) → has_candidate pk rows ≡ true → has_candidate pk next ≡ true
    covered : is_covered next s ≡ true

  added-Step :
      (kind : CaptureType) (t : TargetObject) (field value : Text) (s : SuggestionRow)
      (rows : List CandidateRow)
      → has_candidate s.pk rows ≡ false
      → Step s rows (
          record {
            suggestion = s.pk;
            candidate = new_candidate contract clock analysis kind t field value;
          }
          ∷ supersede_open_candidates clock kind t.pk field (some s.pk) rows)
  unfolding new_candidate supersede_open_candidates
  added-Step kind t field value s rows missed = record {
    unique = λ h. (
      superseded-free clock
          (record {
            suggestion = s.pk;
            candidate = new_candidate contract clock analysis kind t field value;
          })
          rows missed,
      superseded-IsUnique clock kind t.pk field (some s.pk) rows h,
    );
    kept = λ pk h.
        rw (has_candidate-superseded clock kind t.pk field (some s.pk) pk rows, h) (ground arith);
    covered = rw (==_refl s.pk) (ground arith);
  }

  same-Step :
      (s : SuggestionRow) (rows next : List CandidateRow)
      → is_covered rows s ≡ true
      → rows ≡ next
      → Step s rows next
  same-Step s rows next c h = record {
    unique = λ u. subst IsUnique h u;
    kept = λ pk k. rw (sym h) k;
    covered = rw (sym h) c;
  }

  named-Step :
      (kind : CaptureType) (t : TargetObject) (s : SuggestionRow) (field : Text) (has : Bool)
      (value : Option Text) (rows next : List CandidateRow)
      → has_candidate s.pk rows ≡ has
      → (if has
          then ok rows
          else add_candidate contract clock analysis kind t field s.pk value rows)
        ≡ ok next
      → Step s rows next
  named-Step kind t s field true value rows next found h =
      same-Step s rows next (ground (arith, found)) (ok-inj h)
  named-Step kind t s field false none rows next found h = absurd cc
  named-Step kind t s field false (some value) rows next found h =
      subst (Step s rows) (ok-inj h) (added-Step kind t field value s rows found)

  candidate_for-Step :
      (kind : CaptureType) (t : TargetObject) (s : SuggestionRow) (f : Option Text)
      (rows next : List CandidateRow)
      → s.suggestion.target_field ≡ f
      → candidate_for contract clock analysis kind t s f rows ≡ ok next
      → Step s rows next
  candidate_for-Step kind t s none rows next named h =
      same-Step s rows next (rw named refl) (ok-inj h)
  candidate_for-Step kind t s (some field) rows next named h =
      named-Step kind t s field (has_candidate s.pk rows) s.suggestion.suggested_value rows next
        refl h

  covered-kept :
      (s r : SuggestionRow) (rows next : List CandidateRow)
      → Step s rows next
      → is_covered rows r ≡ true
      → is_covered next r ≡ true
  covered-kept s r rows next step h = elim (Bool-cases (has_candidate r.pk rows)) [
    | inl hit ↦ ground (arith, step.kept r.pk hit)
    | inr missed ↦ ground (arith, h, missed)
  ]

  record Run (suggestions : List SuggestionRow) (rows : List CandidateRow)
      (after : List CandidateRow) : Type 0 where
    unique : IsUnique rows → IsUnique after
    kept : (r : SuggestionRow) → is_covered rows r ≡ true → is_covered after r ≡ true
    covered : All (λ s. is_covered after s ≡ true) suggestions

  create_each-Run :
      (kind : CaptureType) (t : TargetObject) (suggestions : List SuggestionRow)
      (rows after : List CandidateRow)
      → create_each contract clock analysis kind t suggestions rows ≡ ok after
      → Run suggestions rows after
  unfolding create_each
  create_each-Run kind t [] rows after h = record {
    unique = λ u. subst IsUnique (ok-inj h) u;
    kept = λ r c. rw (sym (ok-inj h)) c;
    covered = tt;
  }
  create_each-Run kind t (s ∷ rest) rows after h =
      let (next, first, later) =
        >>=-eq-ok (candidate_for contract clock analysis kind t s s.suggestion.target_field rows) _
          h in
      let step = candidate_for-Step kind t s s.suggestion.target_field rows next refl first in
      let run = create_each-Run kind t rest next after later in
      record {
        unique = λ u. run.unique (step.unique u);
        kept = λ r c. run.kept r (covered-kept s r rows next step c);
        covered = (run.kept s step.covered, run.covered);
      }

  candidate_for_covered :
      (kind : CaptureType) (t : TargetObject) (s : SuggestionRow) (f : Option Text)
      (rows : List CandidateRow)
      → s.suggestion.target_field ≡ f
      → is_covered rows s ≡ true
      → candidate_for contract clock analysis kind t s f rows ≡ ok rows
  candidate_for_covered kind t s none rows named h = refl
  candidate_for_covered kind t s (some field) rows named h =
      let hit : has_candidate s.pk rows ≡ true = rw named at h in rw hit refl

  create_each_covered :
      (kind : CaptureType) (t : TargetObject) (suggestions : List SuggestionRow)
      (rows : List CandidateRow)
      → All (λ s. is_covered rows s ≡ true) suggestions
      → create_each contract clock analysis kind t suggestions rows ≡ ok rows
  unfolding create_each
  create_each_covered kind t [] rows h = refl
  create_each_covered kind t (s ∷ rest) rows (h, later) =
      rw (candidate_for_covered kind t s s.suggestion.target_field rows refl h)
        (create_each_covered kind t rest rows later)

-- A creation that returned has found its target and gone through the suggestions.
record Created (contract : Contract) (clock : Clock) (analysis : CaptureAnalysis)
    (session : CaptureSession) (find : ℕ → Option TargetObject) (suggestions : List SuggestionRow)
    (rows : List CandidateRow) (after : List CandidateRow) : Type 0 where
  target : TargetObject
  each :
      create_each contract clock analysis session.capture_type target
        (filter (is_suggested session.capture_type) suggestions)
        rows
      ≡ ok after
  same :
      (later : Clock) (other : List CandidateRow)
      → create_adoption_candidates contract later analysis session find suggestions other
        ≡ create_each contract later analysis session.capture_type target
            (filter (is_suggested session.capture_type) suggestions)
            other

module _ (contract : Contract) (clock : Clock) (analysis : CaptureAnalysis)
    (session : CaptureSession) (find : ℕ → Option TargetObject) (suggestions : List SuggestionRow)
    (rows after : List CandidateRow)
    (returned : create_adoption_candidates contract clock analysis session find suggestions rows
      ≡ ok after) where
  target_found :
      (o : Option TargetObject) (id : ℕ)
      → bound_target_id session ≡ some id
      → find id ≡ o
      → is_success analysis.status ≡ true
      → capture_type_eq analysis.capture_type session.capture_type ≡ true
      → create_on contract clock analysis session.capture_type o suggestions rows ≡ ok after
      → Created contract clock analysis session find suggestions rows after
  unfolding create_adoption_candidates
  target_found none id bound found done typed h = absurd cc
  target_found (some t) id bound found done typed h =
      let (active, each) = >>-eq-ok (raise_if t.is_inactive bound_target_inactive) _ h in
      record {
        target = t;
        each = each;
        same = λ later other. rw (done, typed, bound, found, active) refl;
      }

  bound_found :
      (b : Option ℕ)
      → bound_target_id session ≡ b
      → is_success analysis.status ≡ true
      → capture_type_eq analysis.capture_type session.capture_type ≡ true
      → create_bound contract clock analysis b session.capture_type find suggestions rows ≡ ok after
      → Created contract clock analysis session find suggestions rows after
  bound_found none bound done typed h = absurd cc
  bound_found (some id) bound done typed h = target_found (find id) id bound refl done typed h

  created : Created contract clock analysis session find suggestions rows after
  unfolding create_adoption_candidates
  created =
      let (front, last) =
        >>-eq-ok
          (require (is_success analysis.status) analysis_not_successful
            >> require (capture_type_eq analysis.capture_type session.capture_type) types_differ)
          _ returned in
      let (done, typed) =
        >>-eq-ok (require (is_success analysis.status) analysis_not_successful) _ front in
      bound_found (bound_target_id session) refl (require-eq-ok _ _ done) (require-eq-ok _ _ typed)
        last

  each_made :
      Run contract clock analysis
        (filter (is_suggested session.capture_type) suggestions)
        rows
        after
  each_made =
      create_each-Run contract clock analysis session.capture_type created.target
        (filter (is_suggested session.capture_type) suggestions) rows after created.each

  -- A creation of candidates that returned, from rows in which no two open candidates are for the same
  -- field of the same object, leaves such rows: it first supersedes what is open for the field.
  pub create_adoption_candidates-IsUnique : IsUnique rows → IsUnique after
  create_adoption_candidates-IsUnique = each_made.unique

  -- A creation of candidates that is repeated later on the rows that it left returns, and leaves these
  -- rows as they are: each suggestion has its candidate already, and none is superseded.
  pub create_adoption_candidates-again :
      (later : Clock)
      → create_adoption_candidates contract later analysis session find suggestions after ≡ ok after
  create_adoption_candidates-again later =
      created.same later after
      ∙ create_each_covered contract later analysis session.capture_type created.target
          (filter (is_suggested session.capture_type) suggestions) after each_made.covered
