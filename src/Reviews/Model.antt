-- ===== src/Reviews/Model.antt =====
-- ki_radar/reviews/models.py: the row that a lifecycle command leaves.
use ki_use_case_radar.Common.{ℕ, Bool, Option, Text}
use ki_use_case_radar.UseCases.Model.{Status}

-- `Review.Decision`; `unknown_decision` stands for every text that is no choice.
pub data Decision : Type 0 where
  start_review continue start_pilot go_live pause rework return end unknown_decision : Decision

-- `scale_readiness_snapshot` is held by whether it was taken: its content is not modelled.
pub record Review : Type 0 where
  pub pk : ℕ
  pub reviewer : ℕ
  pub review_date : ℕ
  pub previous_status : Status
  pub new_status : Status
  pub decision : Decision
  pub rationale : Text
  pub go_live_exception_confirmed : Bool
  pub next_review_date : Option ℕ
  pub has_scale_snapshot : Bool

pub record EarlyGoLiveException : Type 0 where
  pub review : ℕ
  pub original_planned_pilot_end : ℕ
  pub decision_date : ℕ
  pub reason : Text
  pub evidence_basis : Text
  pub unobserved_risks : Text
  pub mitigation_measures : Text
  pub confirmed_by : ℕ
