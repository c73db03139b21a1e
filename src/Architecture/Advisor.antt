-- ===== src/Architecture/Advisor.antt =====
-- ki_radar/architecture/architecture_advisor.py: the classification of a solution option into the
-- smallest sufficient architecture class, from four answers.
pub mod Classes
mod Samples
use ki_use_case_radar.Common.{
  ◌≡◌, refl, Bool, true, false, ◌&&◌, ◌||◌, not, List, [], ◌∷◌, ◌++◌, map, if◌then◌else◌, any, all,
  filter, is_empty, when, Result, ok, err, ◌>>=◌, ◌>>◌, raise_if,
}

-- An answer text. `unsupported` stands for every value outside ANSWER_VALUES.
pub data Answer : Type 0 where
  answer_yes answer_no answer_unclear unsupported : Answer

pub data Mode : Type 0 where
  no_llm_required controlled_llm llm_workflow bounded_agent assessment_open : Mode

pub data Reason : Type 0 where
  contradictory insufficient boundary simpler_sufficient controlled workflow agent : Reason

-- The `ValueError`s and the `AssertionError` of the module. The unsupported modes and reason codes
-- of `explain_architecture` are no values of `Mode` and `Reason`.
pub data AdvisorError : Type 0 where
  incomplete_answers uncovered_answers unsupported_answer no_positive_reason : AdvisorError

-- The tuple `answers`.
pub record Answers : Type 0 where
  pub simpler : Answer
  pub semantic : Answer
  pub multiple_steps : Answer
  pub dynamic : Answer

-- The texts of WHY_PATTERN_BY_REASON and WHY_OPEN, named by the reason that they explain.
pub data WhyPattern : Type 0 where
  why_open : WhyPattern
  why_pattern_of : Reason → WhyPattern

pub record Explanation : Type 0 where
  pub mode : Mode
  pub reason_codes : List Reason
  pub why_pattern : WhyPattern
  -- Whether WHY_NO_AGENT_BY_MODE has a text for the mode.
  pub has_why_no_agent : Bool
  -- The reasons whose OPEN_POINT_BY_REASON text is shown.
  pub open_points : List Reason

abbrev pub is_yes : Answer → Bool
is_yes answer_yes = true
is_yes _ = false

abbrev pub is_no : Answer → Bool
is_no answer_no = true
is_no _ = false

abbrev pub is_unclear : Answer → Bool
is_unclear answer_unclear = true
is_unclear _ = false

-- `value in BINARY_ANSWER_VALUES`, `value in ANSWER_VALUES`
abbrev pub is_binary : Answer → Bool
is_binary a = is_yes a || is_no a

abbrev pub is_answer : Answer → Bool
is_answer unsupported = false
is_answer _ = true

abbrev pub reason_eq : Reason → Reason → Bool
reason_eq contradictory contradictory = true
reason_eq insufficient insufficient = true
reason_eq boundary boundary = true
reason_eq simpler_sufficient simpler_sufficient = true
reason_eq controlled controlled = true
reason_eq workflow workflow = true
reason_eq agent agent = true
reason_eq _ _ = false

abbrev pub mode_eq : Mode → Mode → Bool
mode_eq no_llm_required no_llm_required = true
mode_eq controlled_llm controlled_llm = true
mode_eq llm_workflow llm_workflow = true
mode_eq bounded_agent bounded_agent = true
mode_eq assessment_open assessment_open = true
mode_eq _ _ = false

abbrev pub has_reason : List Reason → Reason → Bool
has_reason reasons code = any (reason_eq code) reasons

abbrev pub reasons_eq : List Reason → List Reason → Bool
reasons_eq [] [] = true
reasons_eq (a ∷ rs) (b ∷ qs) = reason_eq a b && reasons_eq rs qs
reasons_eq _ _ = false

abbrev pub reason_code_order : List Reason
reason_code_order =
    contradictory ∷ insufficient ∷ boundary ∷ simpler_sufficient ∷ controlled ∷ workflow ∷ agent
    ∷ []

-- `_ordered_reason_codes`: a set of reasons, in the order of REASON_CODE_ORDER
abbrev pub ordered_reason_codes : List Reason → List Reason
ordered_reason_codes reasons = filter (has_reason reasons) reason_code_order

abbrev pub all_answers : (Answer → Bool) → Answers → Bool
all_answers p a = p a.simpler && p a.semantic && p a.multiple_steps && p a.dynamic

abbrev pub any_answer : (Answer → Bool) → Answers → Bool
any_answer p a = p a.simpler || p a.semantic || p a.multiple_steps || p a.dynamic

abbrev pub Outcome : Type 0
Outcome = Mode × List Reason

-- The set `reasons` that `_classify_complete` collects.
abbrev pub open_reasons : Answers → List Reason
open_reasons a =
    when (is_yes a.simpler && (is_yes a.semantic || is_yes a.multiple_steps || is_yes a.dynamic))
      contradictory
    ++ when (is_yes a.multiple_steps && is_yes a.dynamic) contradictory
    ++ when (is_no a.simpler && is_no a.semantic) boundary

-- `_classify_complete` behind its first test
abbrev pub classify_binary : Answers → Result AdvisorError Outcome
classify_binary a =
    if not (is_empty (open_reasons a))
    then ok (assessment_open, ordered_reason_codes (open_reasons a))
    else if is_yes a.simpler
    then ok (no_llm_required, simpler_sufficient ∷ [])
    else if is_no a.multiple_steps && is_no a.dynamic
    then ok (controlled_llm, controlled ∷ [])
    else if is_yes a.multiple_steps && is_no a.dynamic
    then ok (llm_workflow, workflow ∷ [])
    else if is_no a.multiple_steps && is_yes a.dynamic
    then ok (bounded_agent, agent ∷ [])
    else err uncovered_answers

-- `_classify_complete`
unfoldable pub classify_complete : Answers → Result AdvisorError Outcome
classify_complete a =
    raise_if (not (all_answers is_binary a)) incomplete_answers >> classify_binary a

-- The values that one position of `answers` takes in the product over its unclear positions.
abbrev pub replacements : Answer → List Answer
replacements answer_unclear = answer_yes ∷ answer_no ∷ []
replacements a = a ∷ []

abbrev pub for_each {ℓ κ} : {A : Type ℓ} {B : Type κ} → List A → (A → List B) → List B
for_each [] f = []
for_each (x ∷ xs) f = f x ++ for_each xs f

-- `_binary_completions`: `itertools.product` varies the last unclear position fastest.
unfoldable pub binary_completions : Answers → List Answers
binary_completions a = for_each (replacements a.simpler) λ s.
    for_each (replacements a.semantic) λ m. for_each (replacements a.multiple_steps) λ k.
      map (λ d. record { simpler = s; semantic = m; multiple_steps = k; dynamic = d })
        (replacements a.dynamic)

-- `[_classify_complete(completion) for completion in …]`
unfoldable pub classify_each : List Answers → Result AdvisorError (List Outcome)
unfolding classify_complete
classify_each [] = ok []
classify_each (a ∷ rest) = do
  outcome ← classify_complete a
  outcomes ← classify_each rest
  ok (outcome ∷ outcomes)

-- `common_reasons`: the reasons of the first outcome that all others have
abbrev pub common_reasons : Outcome → List Outcome → List Reason
common_reasons first rest = filter (λ code. all (λ (o : Outcome). has_reason o.1 code) rest) first.1

-- What `_classify_answers` makes of the outcomes of all completions.
unfoldable pub combine_outcomes : Outcome → List Outcome → Outcome
combine_outcomes first rest =
    if not (all (λ (o : Outcome). mode_eq o.0 first.0) rest)
    then (assessment_open, insufficient ∷ [])
    else if not (mode_eq first.0 assessment_open)
    then (if all (λ (o : Outcome). reasons_eq o.1 first.1) rest
        then first
        else (assessment_open, insufficient ∷ []))
    else let invariant =
        filter (has_reason (contradictory ∷ boundary ∷ [])) (common_reasons first rest) in
      if not (is_empty invariant)
      then (assessment_open, ordered_reason_codes invariant)
      else (assessment_open, insufficient ∷ [])

-- `outcomes` is never empty, since `binary_completions` is not.
abbrev pub combine : List Outcome → Outcome
combine [] = (assessment_open, insufficient ∷ [])
combine (first ∷ rest) = combine_outcomes first rest

-- `_classify_answers`
unfoldable pub classify_answers : Answers → Result AdvisorError Outcome
unfolding classify_complete binary_completions classify_each combine_outcomes
classify_answers a =
    raise_if (not (all_answers is_answer a)) unsupported_answer
    >> (if not (any_answer is_unclear a)
        then classify_complete a
        else (classify_each (binary_completions a) >>= λ outcomes. ok (combine outcomes)))

-- `reason in WHY_PATTERN_BY_REASON`, `reason in OPEN_POINT_BY_REASON`, `mode in
-- WHY_NO_AGENT_BY_MODE`
abbrev pub is_positive_reason : Reason → Bool
is_positive_reason code = has_reason (simpler_sufficient ∷ controlled ∷ workflow ∷ agent ∷ []) code

abbrev pub has_open_point : Reason → Bool
has_open_point code = has_reason (contradictory ∷ insufficient ∷ boundary ∷ []) code

abbrev pub has_why_no_agent : Mode → Bool
has_why_no_agent mode = mode_eq mode controlled_llm || mode_eq mode llm_workflow

-- The branch of a classified mode: exactly one positive reason.
abbrev pub single_pattern : List Reason → Result AdvisorError WhyPattern
single_pattern (code ∷ []) =
    if is_positive_reason code then ok (why_pattern_of code) else err no_positive_reason
single_pattern _ = err no_positive_reason

-- `explain_architecture`
unfoldable pub explain_architecture : Mode → List Reason → Result AdvisorError Explanation
explain_architecture mode reasons =
    if mode_eq mode assessment_open
    then ok (record {
      mode = mode;
      reason_codes = reasons;
      why_pattern = why_open;
      has_why_no_agent = has_why_no_agent mode;
      open_points = filter has_open_point reasons;
    })
    else (single_pattern reasons >>= λ why. ok (record {
      mode = mode;
      reason_codes = reasons;
      why_pattern = why;
      has_why_no_agent = has_why_no_agent mode;
      open_points = [];
    }))

-- `classify_architecture`. The `ArchitectureAssessmentResult` is the explanation and the constant
-- RULESET_VERSION.
unfoldable pub classify_architecture : Answers → Result AdvisorError Explanation
unfolding explain_architecture
classify_architecture a = do outcome ← classify_answers a; explain_architecture outcome.0 outcome.1
