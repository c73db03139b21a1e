-- ===== src/UseCases/DecisionModel/Confidence.antt =====
-- The confidence level of an assessment.
use ki_use_case_radar.Common.{
  ℕ, ◌≤◌, ◌≡◌, Bool, true, false, arith, refl, leb, all, ◌&&◌, if◌then◌else◌,
}
use ki_use_case_radar.UseCases.Model.{Level, low, medium, high}
use ki_use_case_radar.UseCases.DecisionModel.{
  DecisionAssessment, confidence_level, factors, representative, expert_opinion, limited, solid,
}

abbrev pub level_rank : Level → ℕ
level_rank low = 0
level_rank medium = 1
level_rank high = 2

-- `b` is rated at least as well as `a` in the evidence and in each factor.
pub record IsBetter (a b : DecisionAssessment) : Type 0 where
  pub quality : a.evidence_quality ≤ b.evidence_quality
  pub recency : a.evidence_recency ≤ b.evidence_recency
  pub coverage : a.evidence_coverage ≤ b.evidence_coverage
  pub review : a.independent_review ≤ b.independent_review
  pub assumptions : a.assumptions_resolved ≤ b.assumptions_resolved

-- The evidence is at least `k` and each factor at least `j`.
abbrev meets : ℕ → ℕ → DecisionAssessment → Bool
meets k j a = leb k a.evidence_quality && all (leb j) (factors a)

leb_mono : (k m n : ℕ) → m ≤ n → leb k m ≡ true → leb k n ≡ true
leb_mono k m n le h = ground arith

and_mono :
    (a b c d : Bool) → (a ≡ true → c ≡ true) → (b ≡ true → d ≡ true) → a && b ≡ true → c && d ≡ true
and_mono true true c d f g h = rw (f refl, g refl) refl
and_mono true false c d f g h = cc
and_mono false b c d f g h = cc

meets_mono :
    (k j : ℕ) (a b : DecisionAssessment) → IsBetter a b → meets k j a ≡ true → meets k j b ≡ true
meets_mono k j a b h = and_mono _ _ _ _ (leb_mono k _ _ h.quality) (
    and_mono _ _ _ _ (leb_mono j _ _ h.recency) (
      and_mono _ _ _ _ (leb_mono j _ _ h.coverage) (
        and_mono _ _ _ _ (leb_mono j _ _ h.review)
          (and_mono _ _ _ _ (leb_mono j _ _ h.assumptions) (λ e. e)))))

rank_mono :
    (h m h' m' : Bool)
    → (h ≡ true → h' ≡ true)
    → (m ≡ true → m' ≡ true)
    → level_rank (if h then high else if m then medium else low)
      ≤ level_rank (if h' then high else if m' then medium else low)
rank_mono true m h' m' f g = rw (f refl) (omega arith)
rank_mono false true h' m' f g = rw (g refl) (ground arith)
rank_mono false false h' m' f g = omega arith

-- A better rating never has a lower confidence level.
pub confidence_level_mono :
    (a b : DecisionAssessment)
    → IsBetter a b
    → level_rank (confidence_level a) ≤ level_rank (confidence_level b)
unfolding confidence_level
confidence_level_mono a b h =
    rank_mono (meets representative solid a) (meets expert_opinion limited a)
      (meets representative solid b) (meets expert_opinion limited b)
      (meets_mono representative solid a b h) (meets_mono expert_opinion limited a b h)
