-- ===== src/Delivery/Readiness/Latency.antt =====
-- ki_radar/delivery/readiness.py: synchronous retries against the latency budget.
use ki_use_case_radar.Common.{
  ℕ, suc, Bool, ◌&&◌, not, Option, none, some, List, [], ◌∷◌, ◌++◌, Text, codes, text_eq, map,
  filter, any, all, is_empty, if◌then◌else◌, ◌==◌,
}
use ki_use_case_radar.Delivery.Model.{requirements_and_governance}
use ki_use_case_radar.Delivery.Readiness.Content.{starts_with}
use ki_use_case_radar.Delivery.Readiness.Patterns.{
  Pattern, Engine, retry, sync, async, latency_budget, timeout, retry_count, attempt_count,
  total_sync_duration,
}
use ki_use_case_radar.Delivery.Readiness.Findings.{
  ReadinessFinding, blocking, LatencyProblem, budget_missing, total_contradicts, retries_exceed,
  total_exceeds, total_unknown, latency_retry_budget_conflict,
}
use ki_use_case_radar.Delivery.Readiness.Semantics.{statements}

-- A set of numbers by its size: none, one, or more.
pub data Stated : Type 0 where
  unstated ambiguous : Stated
  stated : ℕ → Stated

abbrev pub stated_of : List ℕ → Stated
stated_of [] = unstated
stated_of (n ∷ rest) = if all (λ m. m == n) rest then stated n else ambiguous

-- `total_attempts`, from the sets of the retries and of the attempts
abbrev pub total_attempts : Stated → Stated → Option ℕ
total_attempts unstated (stated attempts) = some attempts
total_attempts (stated retries) unstated = some (suc retries)
total_attempts (stated retries) (stated attempts) =
    if suc retries == attempts then some attempts else none
total_attempts _ _ = none

module _ {F : Type 0} (re : Engine F) where
  -- `_seconds`; `float` reads the comma as a point.
  abbrev pub comma_to_point : ℕ → ℕ
  comma_to_point c = if c == 44 then 46 else c

  abbrev pub seconds : Text × Text → F
  seconds (number, unit) =
      let value = re.to_float (map comma_to_point number) in
      if text_eq (re.casefold unit) (codes "ms") then re.thousandth value else value

  -- `_count_value`
  abbrev pub count_value : Text → ℕ
  count_value value =
      let normalized = re.casefold value in
      if starts_with (codes "ein") normalized
      then 1
      else if text_eq normalized (codes "zwei")
      then 2
      else if text_eq normalized (codes "drei")
      then 3
      else re.digits value

  abbrev pub is_sync_only : Text → Bool
  is_sync_only s = re.search sync s && not (re.search async s)

  -- `adjacent_statements`: those of the neighbours that are synchronous only
  abbrev pub adjacent : Option Text → List Text → List Text
  adjacent none [] = []
  adjacent none (next ∷ later) = filter is_sync_only (next ∷ [])
  adjacent (some before) [] = filter is_sync_only (before ∷ [])
  adjacent (some before) (next ∷ later) = filter is_sync_only (before ∷ next ∷ [])

  abbrev pub beside : Text → List Text → Text
  beside s [] = s
  beside s (first ∷ rest) = s ++ (32 ∷ first)

  abbrev pub context_of : Option Text → Text → List Text → Text
  context_of before s later = if re.search sync s then s else beside s (adjacent before later)

  abbrev pub is_retry : Text → Bool
  is_retry s = re.search retry s && not (re.search async s)

  abbrev pub retry_contexts : Option Text → List Text → List Text
  retry_contexts before [] = []
  retry_contexts before (s ∷ later) =
      let rest = retry_contexts (some s) later in
      let context = context_of before s later in
      if is_retry s && re.search sync context then context ∷ rest else rest

  abbrev pub counts_in : Pattern → List Text → List ℕ
  counts_in pattern' [] = []
  counts_in pattern' (s ∷ rest) = map count_value (re.counts pattern' s) ++ counts_in pattern' rest

  -- `min` of the budgets, the first of which is given apart
  abbrev pub least : F → List F → F
  least first [] = first
  least first (next ∷ rest) = least (if re.exceeds first next then next else first) rest

  -- `max(total_seconds) <= budget_seconds`
  abbrev pub all_within : List F → F → Bool
  all_within totals budget = not (any (λ t. re.exceeds t budget) totals)

  -- The calculated duration, if there is exactly one timeout and a number of attempts other than 0
  abbrev pub calculated : List (Text × Text) → Option ℕ → Option F
  calculated (t ∷ []) (some (suc n)) = some (re.times (seconds t) (suc n))
  calculated _ _ = none

  abbrev pub against_budget : F → List F → Option F → Option LatencyProblem
  against_budget budget totals (some total) =
      if any (λ declared. re.apart declared total) totals
      then some total_contradicts
      else if re.exceeds total budget
      then some retries_exceed
      else none
  against_budget budget [] none = some total_unknown
  against_budget budget (t ∷ rest) none =
      if all_within (t ∷ rest) budget then none else some total_exceeds

  abbrev pub with_budget : List (Text × Text) → Text → List Text → Option LatencyProblem
  with_budget [] text contexts = some budget_missing
  with_budget (first ∷ rest) text contexts =
      against_budget (least (seconds first) (map seconds rest))
        (map seconds (re.groups total_sync_duration text))
        (calculated (re.groups timeout text) (
          total_attempts (stated_of (counts_in retry_count contexts))
            (stated_of (counts_in attempt_count contexts))))

  abbrev pub conflict : Option LatencyProblem → List ReadinessFinding
  conflict none = []
  conflict (some p) = blocking requirements_and_governance (latency_retry_budget_conflict p) ∷ []

  unfoldable pub latency_semantic_findings : Text → List ReadinessFinding
  unfolding statements
  latency_semantic_findings text =
      let contexts = retry_contexts none (statements re text) in
      if is_empty contexts
      then []
      else conflict (with_budget (re.groups latency_budget text) text contexts)
