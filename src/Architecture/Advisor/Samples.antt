-- ===== src/Architecture/Advisor/Samples.antt =====
-- Answer sheets, and the theorems at them.
use ki_use_case_radar.Common.{◌≡◌, refl, false, [], ◌∷◌, ok, err}
use ki_use_case_radar.Architecture.Advisor.{
  Answers, answer_yes, answer_no, answer_unclear, unsupported, agent, bounded_agent, boundary,
  assessment_open, Explanation, classify_answers, why_pattern_of, unsupported_answer,
}
use ki_use_case_radar.Architecture.Advisor.Classes.{
  sheet, direct_reading, classify_answers-eq-direct_reading,
}

abbrev routing : Answers
routing = sheet answer_no answer_yes answer_no answer_yes

abbrev half_known : Answers
half_known = sheet answer_no answer_no answer_unclear answer_unclear

abbrev routing_explained : Explanation
routing_explained = record {
  mode = bounded_agent;
  reason_codes = agent ∷ [];
  why_pattern = why_pattern_of agent;
  has_why_no_agent = false;
  open_points = [];
}

half_known_open : classify_answers half_known ≡ ok (assessment_open, boundary ∷ [])
unfolding classify_answers
half_known_open = refl

mistyped :
    classify_answers (sheet unsupported answer_no answer_no answer_no) ≡ err unsupported_answer
unfolding classify_answers
mistyped = refl

classify_answers-eq-direct_reading_example : classify_answers half_known ≡ direct_reading half_known
classify_answers-eq-direct_reading_example = classify_answers-eq-direct_reading half_known
