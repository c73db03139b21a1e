-- ===== src/UseCases/Model/Metric.antt =====
-- The result of the primary success metric.
use ki_use_case_radar.Common.{
  ◌≡◌, ◌↔◌, true, some, ℤ, ◌≤ℤ◌, truthy, arith, leb→le, Option-cases, inl, inr,
}
use ki_use_case_radar.UseCases.Model.{
  UseCase, MetricDirection, lower, higher, achieved, metric_result, reaches_target,
}

-- The actual value is at the target or on its good side.
abbrev pub Reaches : MetricDirection → ℤ → ℤ → Type 0
Reaches lower actual target = actual ≤ℤ target
Reaches higher actual target = target ≤ℤ actual

reaches_target-Reaches :
    (d : MetricDirection) (actual target : ℤ)
    → reaches_target (some d) actual target ≡ true
    → Reaches d actual target
reaches_target-Reaches lower actual target h = leb→le _ _ h
reaches_target-Reaches higher actual target h = leb→le _ _ h

-- A metric with a name, a direction, a target and an actual value.
abbrev pub IsMeasured : UseCase → MetricDirection → ℤ → ℤ → Type 0
IsMeasured u d target actual =
    (truthy u.metric_name ≡ true)
    × (u.metric_direction ≡ some d)
    × (u.metric_target ≡ some target)
    × (u.metric_actual ≡ some actual)

achieved-IsMeasured :
    (u : UseCase)
    → metric_result u ≡ achieved
    → (d : MetricDirection) × (target : ℤ) × (actual : ℤ) × IsMeasured u d target actual
      × Reaches d actual target
unfolding metric_result
achieved-IsMeasured u h = elim (Option-cases u.metric_direction) [
  | inl nd ↦ absurd (ground arith)
  | inr (d, ed) ↦ elim (Option-cases u.metric_target) [
    | inl nt ↦ absurd (ground arith)
    | inr (target, et) ↦ elim (Option-cases u.metric_actual) [
      | inl na ↦ absurd (ground arith)
      | inr (actual, ea) ↦ (
        d,
        target,
        actual,
        (ground arith, ed, et, ea),
        reaches_target-Reaches d actual target (ground (arith, ed, et, ea, h)),
      )
    ]
  ]
]

achieved_of_measured :
    (u : UseCase) (d : MetricDirection) (target actual : ℤ)
    → IsMeasured u d target actual
    → Reaches d actual target
    → metric_result u ≡ achieved
unfolding metric_result
achieved_of_measured u lower target actual (n, e, t, a) r = ground (arith, n, e, t, a, r)
achieved_of_measured u higher target actual (n, e, t, a) r = ground (arith, n, e, t, a, r)

-- The metric counts as achieved exactly if it is named, directed, has a target and an actual value,
-- and the actual value is at most the target for a lower and at least the target for a higher
-- direction.
pub metric_result-achieved_iff :
    (u : UseCase)
    → (metric_result u ≡ achieved) ↔ (
        (d : MetricDirection) × (target : ℤ) × (actual : ℤ) × IsMeasured u d target actual
        × Reaches d actual target)
metric_result-achieved_iff u =
    (achieved-IsMeasured u, λ (d, target, actual, m, r). achieved_of_measured u d target actual m r)
