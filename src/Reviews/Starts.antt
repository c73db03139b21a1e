-- ===== src/Reviews/Starts.antt =====
-- What a started pilot and a go-live have behind them.
use ki_use_case_radar.Common.{ℕ, ◌≡◌, ap, ◌∙◌, some, ok, arith}
use ki_use_case_radar.Clock.{Clock}
use ki_use_case_radar.Accounts.{User}
use ki_use_case_radar.UseCases.TransitionPolicy.{validate_pilot_start}
use ki_use_case_radar.Reviews.Model.{start_pilot}
use ki_use_case_radar.Reviews.Services.{ReviewData, create_review, apply_review}
use ki_use_case_radar.Reviews.Lifecycle.{create_review-eq-ok, validate_review_command-eq-ok}
use ki_use_case_radar.Reviews.Gates.{PilotGate, validate_pilot_start_iff}
use ki_use_case_radar.Delivery.Model.{DeliveryPackage}
use ki_use_case_radar.CaseFile.{CaseFile}

pilot_start-apply_review :
    (clock : Clock) (f : CaseFile) (a : User) (d : ReviewData)
    → d.command.decision ≡ start_pilot
    → (apply_review clock f a d).use_case.pilot_start ≡ d.command.pilot_start
unfolding apply_review
pilot_start-apply_review clock f a d e = ground (arith, e)

-- A successful start of the pilot stores a start day for which the gate held before: a final
-- approval, a cleared screening, and a recorded handover no later than the day, which is not in the
-- future.
pub create_review-starts_pilot :
    (clock : Clock) (f : CaseFile) (a : User) (d : ReviewData) (f' : CaseFile)
    → create_review clock f a d ≡ ok f'
    → d.command.decision ≡ start_pilot
    → (p : DeliveryPackage) × (day : ℕ) × (f'.use_case.pilot_start ≡ some day)
      × PilotGate clock f p day
create_review-starts_pilot clock f a d f' h e =
    let (passed, stored) = create_review-eq-ok clock f a d h in
    let (_, _, gate) = validate_review_command-eq-ok clock f a d.command passed in
    let opened : validate_pilot_start clock f d.command.pilot_start ≡ ok tt = rw e at gate in
    let (p, day, given, held) = (validate_pilot_start_iff clock f d.command.pilot_start).0 opened in
    (
      p,
      day,
      ap (λ (g : CaseFile). g.use_case.pilot_start) stored
          ∙ pilot_start-apply_review clock f a d e
          ∙ given,
      held,
    )
