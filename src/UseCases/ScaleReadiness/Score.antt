-- ===== src/UseCases/ScaleReadiness/Score.antt =====
-- The final ML test score.
use ki_use_case_radar.Common.{
  ◌≡◌, refl, sym, ap, ◌∙◌, Bool, true, false, ◌&&◌, Option, none, some, List, [], arith, ℤ, leb_ℤ,
  inl, inr, ◌⊎◌, Bool-cases,
}
use mathlib.Core.Path.{subst}
use ki_use_case_radar.UseCases.ScaleReadiness.Evidence.{
  ScaleFields, MlScore, ml_score_data, ml_score_model, ml_score_infrastructure, ml_score_monitoring,
  score_value, decimal_of,
}
use ki_use_case_radar.UseCases.ScaleReadiness.Rules.{
  is_score, smaller, final_ml_score, min_of_four, accept_score,
}

pub leb_ℤ-smaller : (m a b : ℤ) → leb_ℤ m (smaller a b) ≡ (leb_ℤ m a && leb_ℤ m b)
unfolding smaller
leb_ℤ-smaller m a b = ground arith

-- A value that is present and in range.
abbrev pub is_scored : Option ℤ → Bool
is_scored none = false
is_scored (some v) = is_score v

abbrev pub reaches : Option ℤ → ℤ → Bool
reaches none m = false
reaches (some v) m = leb_ℤ m v

-- The value of a score.
abbrev pub value_of : ScaleFields → MlScore → Option ℤ
value_of e m = decimal_of (score_value e m)

unfoldable pub four_scored : ScaleFields → Bool
four_scored e =
    is_scored (value_of e ml_score_data)
    && is_scored (value_of e ml_score_model)
    && is_scored (value_of e ml_score_infrastructure)
    && is_scored (value_of e ml_score_monitoring)

abbrev accept_all : Option ℤ → Option ℤ → Option ℤ → Option ℤ → List ℤ
accept_all a b c d = accept_score a (accept_score b (accept_score c (accept_score d [])))

-- Fewer than four accepted values have no minimum.
all_accepted :
    (a b c d : Option ℤ) (score : ℤ)
    → min_of_four (accept_all a b c d) ≡ some score
    → (is_scored a && is_scored b && is_scored c && is_scored d) ≡ true
unfolding min_of_four
all_accepted none none none none score h = cc
all_accepted (some a) (some b) (some c) (some d) score h = ground arith
all_accepted none b c d score h = ground arith
all_accepted a none c d score h = ground arith
all_accepted a b none d score h = ground arith
all_accepted a b c none score h = ground arith

min_accepted :
    (a b c d : ℤ)
    → (is_score a && is_score b && is_score c && is_score d) ≡ true
    → min_of_four (accept_all (some a) (some b) (some c) (some d))
      ≡ some (smaller a (smaller b (smaller c d)))
unfolding min_of_four
min_accepted a b c d h = ground arith

-- What a final score is: the least of the four, all present and in range.
pub record IsFinal (e : ScaleFields) (score : ℤ) : Type 0 where
  pub scored : four_scored e ≡ true
  pub least : (m : MlScore) → reaches (value_of e m) score ≡ true
  pub attained : (m : MlScore) × (value_of e m ≡ some score)

smaller-cases : (a b : ℤ) → (smaller a b ≡ a) ⊎ (smaller a b ≡ b)
unfolding smaller
smaller-cases a b = elim (Bool-cases (leb_ℤ a b)) [
  | inl h ↦ rw h (inl refl)
  | inr h ↦ rw h (inr refl)
]

leb_ℤ_refl : (a : ℤ) → leb_ℤ a a ≡ true
leb_ℤ_refl a = ground arith

is_some_of_scored : (o : Option ℤ) → is_scored o ≡ true → (v : ℤ) × (o ≡ some v)
is_some_of_scored none h = cc
is_some_of_scored (some v) h = (v, refl)

abbrev least4 : ℤ → ℤ → ℤ → ℤ → ℤ
least4 a b c d = smaller a (smaller b (smaller c d))

pub leb_ℤ-least4 :
    (m a b c d : ℤ)
    → leb_ℤ m (least4 a b c d) ≡ (leb_ℤ m a && (leb_ℤ m b && (leb_ℤ m c && leb_ℤ m d)))
leb_ℤ-least4 m a b c d = simp leb_ℤ-smaller

-- The four values of the evidence.
pub record Four (e : ScaleFields) : Type 0 where
  pub data_score : ℤ
  pub model_score : ℤ
  pub infrastructure_score : ℤ
  pub monitoring_score : ℤ
  pub data_eq : value_of e ml_score_data ≡ some data_score
  pub model_eq : value_of e ml_score_model ≡ some model_score
  pub infrastructure_eq : value_of e ml_score_infrastructure ≡ some infrastructure_score
  pub monitoring_eq : value_of e ml_score_monitoring ≡ some monitoring_score

abbrev pub least_of : {e : ScaleFields} → Four e → ℤ
least_of f = least4 f.data_score f.model_score f.infrastructure_score f.monitoring_score

pub each_score_found : (e : ScaleFields) → four_scored e ≡ true → Four e
unfolding four_scored
each_score_found e h =
    let (a, ea) = is_some_of_scored (value_of e ml_score_data) (ground arith) in
    let (b, eb) = is_some_of_scored (value_of e ml_score_model) (ground arith) in
    let (c, ec) = is_some_of_scored (value_of e ml_score_infrastructure) (ground arith) in
    let (d, ed) = is_some_of_scored (value_of e ml_score_monitoring) (ground arith) in
    record {
      data_score = a;
      model_score = b;
      infrastructure_score = c;
      monitoring_score = d;
      data_eq = ea;
      model_eq = eb;
      infrastructure_eq = ec;
      monitoring_eq = ed;
    }

pub final_score_found :
    (e : ScaleFields) (f : Four e) → four_scored e ≡ true → final_ml_score e ≡ some (least_of f)
unfolding final_ml_score four_scored
final_score_found e f h =
    let scored = rw (f.data_eq, f.model_eq, f.infrastructure_eq, f.monitoring_eq) at h in
    rw (f.data_eq, f.model_eq, f.infrastructure_eq, f.monitoring_eq)
      (min_accepted f.data_score f.model_score f.infrastructure_score f.monitoring_score scored)

scored_of_final :
    (e : ScaleFields) (score : ℤ) → final_ml_score e ≡ some score → four_scored e ≡ true
unfolding final_ml_score four_scored
scored_of_final e score h =
    all_accepted (value_of e ml_score_data) (value_of e ml_score_model)
      (value_of e ml_score_infrastructure) (value_of e ml_score_monitoring) score h

each_true :
    (p q r s : Bool)
    → (p && (q && (r && s))) ≡ true
    → (p ≡ true) × (q ≡ true) × (r ≡ true) × (s ≡ true)
each_true p q r s h = (ground arith, ground arith, ground arith, ground arith)

below_each :
    {e : ScaleFields} (f : Four e) (n : ℤ)
    → leb_ℤ n (least_of f) ≡ true
    → (leb_ℤ n f.data_score ≡ true)
      × (leb_ℤ n f.model_score ≡ true)
      × (leb_ℤ n f.infrastructure_score ≡ true)
      × (leb_ℤ n f.monitoring_score ≡ true)
below_each f n h =
    each_true _ _ _ _ (
      sym (leb_ℤ-least4 n f.data_score f.model_score f.infrastructure_score f.monitoring_score) ∙ h)

-- A bound below the least of the four is below each.
pub least_below :
    (e : ScaleFields) (f : Four e) (n : ℤ) (m : MlScore)
    → leb_ℤ n (least_of f) ≡ true
    → reaches (value_of e m) n ≡ true
least_below e f n ml_score_data h = rw f.data_eq (below_each f n h).0
least_below e f n ml_score_model h = rw f.model_eq (below_each f n h).1
least_below e f n ml_score_infrastructure h = rw f.infrastructure_eq (below_each f n h).2
least_below e f n ml_score_monitoring h = rw f.monitoring_eq (below_each f n h).3

attained4 : (e : ScaleFields) (f : Four e) → (m : MlScore) × (value_of e m ≡ some (least_of f))
attained4 e f =
    let c = f.infrastructure_score in
    let d = f.monitoring_score in
    elim (smaller-cases f.data_score (smaller f.model_score (smaller c d))) [
      | inl p ↦ (ml_score_data, f.data_eq ∙ ap some (sym p))
      | inr p ↦ elim (smaller-cases f.model_score (smaller c d)) [
        | inl q ↦ (ml_score_model, f.model_eq ∙ ap some (sym (p ∙ q)))
        | inr q ↦ elim (smaller-cases c d) [
          | inl r ↦ (ml_score_infrastructure, f.infrastructure_eq ∙ ap some (sym (p ∙ q ∙ r)))
          | inr r ↦ (ml_score_monitoring, f.monitoring_eq ∙ ap some (sym (p ∙ q ∙ r)))
        ]
      ]
    ]

some-inj : {x y : ℤ} → some x ≡ some y → x ≡ y
some-inj h = cc

-- If there is a final score, then all four scores are present and from 0 to 7, it is one of them and
-- at most each of them.
pub final_ml_score-IsFinal :
    (e : ScaleFields) (score : ℤ) → final_ml_score e ≡ some score → IsFinal e score
final_ml_score-IsFinal e score h =
    let scored = scored_of_final e score h in
    let f = each_score_found e scored in
    let p : least_of f ≡ score = some-inj (sym (final_score_found e f scored) ∙ h) in
    record {
      scored = scored;
      least = λ m. least_below e f score m (rw p (leb_ℤ_refl score));
      attained = subst (λ s. (m : MlScore) × (value_of e m ≡ some s)) p (attained4 e f);
    }
