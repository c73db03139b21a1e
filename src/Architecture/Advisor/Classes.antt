-- ===== src/Architecture/Advisor/Classes.antt =====
-- Which answers lead to which architecture class, and what the explanation shows.
use ki_use_case_radar.Common.{
  ◌⊎◌, map, ◌||◌, ◌≡◌, ◌≢◌, ◌↔◌, true, false, not, List, [], ◌∷◌, Option, none, some, Result, ok,
  err, arith, if◌then◌else◌, is_empty, is_ok,
}
use ki_use_case_radar.Architecture.Advisor.{
  Answer, answer_yes, answer_no, Answers, Mode, no_llm_required, controlled_llm, llm_workflow,
  assessment_open, bounded_agent, Reason, insufficient, simpler_sufficient, controlled, workflow,
  agent, why_open, why_pattern_of, unsupported_answer, AdvisorError, Outcome, is_answer,
  all_answers, any_answer, is_unclear, open_reasons, ordered_reason_codes, mode_eq, classify_binary,
  classify_answers, classify_architecture, Explanation,
}

-- A reading of the stated answers alone, with no completion of the unclear ones: a stated clash is
-- reported, else an unclear answer leaves the assessment open.
abbrev pub direct_reading : Answers → Result AdvisorError Outcome
direct_reading a =
    if not (all_answers is_answer a)
    then err unsupported_answer
    else if not (is_empty (open_reasons a))
    then ok (assessment_open, ordered_reason_codes (open_reasons a))
    else if any_answer is_unclear a
    then ok (assessment_open, insufficient ∷ [])
    else classify_binary a

abbrev pub sheet : Answer → Answer → Answer → Answer → Answers
sheet s m k d = record { simpler = s; semantic = m; multiple_steps = k; dynamic = d }

direct_reading_at :
    (s m k d : Answer) → classify_answers (sheet s m k d) ≡ direct_reading (sheet s m k d)
unfolding classify_answers
direct_reading_at answer_yes m k d = ground arith
direct_reading_at _ m k d = ground arith

-- The comparison of all completions of the unclear answers gives what the stated answers say
-- directly: the clashes among them if there are any, else `insufficient` if one is unclear, else
-- the class of the four definite answers.
pub classify_answers-eq-direct_reading : (a : Answers) → classify_answers a ≡ direct_reading a
classify_answers-eq-direct_reading a =
    direct_reading_at a.simpler a.semantic a.multiple_steps a.dynamic

-- The one answer sheet of each class.
abbrev pub sheet_of : Mode → Option Answers
sheet_of no_llm_required = some (sheet answer_yes answer_no answer_no answer_no)
sheet_of controlled_llm = some (sheet answer_no answer_yes answer_no answer_no)
sheet_of llm_workflow = some (sheet answer_no answer_yes answer_yes answer_no)
sheet_of bounded_agent = some (sheet answer_no answer_yes answer_no answer_yes)
sheet_of assessment_open = none

-- The reason that goes with a class.
abbrev pub reason_of : Mode → List Reason
reason_of no_llm_required = simpler_sufficient ∷ []
reason_of controlled_llm = controlled ∷ []
reason_of llm_workflow = workflow ∷ []
reason_of bounded_agent = agent ∷ []
reason_of assessment_open = insufficient ∷ []

classified→sheet :
    (a : Answers) (m : Mode) (r : List Reason)
    → m ≢ assessment_open
    → classify_answers a ≡ ok (m, r)
    → (sheet_of m ≡ some a) × (r ≡ reason_of m)
classified→sheet a m r h e = ground (arith, classify_answers-eq-direct_reading a)

sheet→classified :
    (a : Answers) (m : Mode)
    → m ≢ assessment_open
    → sheet_of m ≡ some a
    → classify_answers a ≡ ok (m, reason_of m)
sheet→classified a m h e = ground (arith, classify_answers-eq-direct_reading a)

-- A class other than the open assessment is given exactly to its own answer sheet, on which all
-- four answers are definite, and with its own reason alone.
pub classify_answers_iff :
    (a : Answers) (m : Mode) (r : List Reason)
    → m ≢ assessment_open
    → (classify_answers a ≡ ok (m, r)) ↔ ((sheet_of m ≡ some a) × (r ≡ reason_of m))
classify_answers_iff a m r h = (classified→sheet a m r h, λ (e, q). rw q (sheet→classified a m h e))

-- What an explanation shows: the reasons as open points for an open assessment and none else, the
-- text of the one reason for a class, and a word against an agent for the two LLM classes alone.
abbrev pub IsExplained : Explanation → Type 0
IsExplained e =
    (mode_eq e.mode assessment_open ≡ true)
      × (e.why_pattern ≡ why_open)
      × (e.open_points ≡ e.reason_codes)
      × (e.has_why_no_agent ≡ false)
    ⊎ (mode_eq e.mode assessment_open ≡ false)
      × (map why_pattern_of e.reason_codes ≡ e.why_pattern ∷ [])
      × (e.open_points ≡ [])
      × (e.has_why_no_agent ≡ (mode_eq e.mode controlled_llm || mode_eq e.mode llm_workflow))

-- Exactly the supported answer sheets are classified.
pub classify_architecture-is_ok :
    (a : Answers) → is_ok (classify_architecture a) ≡ all_answers is_answer a
unfolding classify_architecture
classify_architecture-is_ok a = ground (arith, classify_answers-eq-direct_reading a)

-- Every result of the classification is explained consistently.
pub classify_architecture-IsExplained :
    (a : Answers) (e : Explanation) → classify_architecture a ≡ ok e → IsExplained e
unfolding classify_architecture
classify_architecture-IsExplained a e h = ground (arith, classify_answers-eq-direct_reading a)
