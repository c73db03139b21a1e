-- ===== src/Reviews/Runs.antt =====
-- What holds after every sequence of lifecycle commands.
use mathlib.Core.Path.{subst}
use ki_use_case_radar.Common.{
  ℕ, ◌≤◌, ◌<◌, ◌≡◌, refl, ◌⊎◌, Bool, true, false, List, [], ◌∷◌, Result, ok, err, arith, any,
}
use ki_use_case_radar.Clock.{Clock}
use ki_use_case_radar.Accounts.{User, is_coordinator, is_business_owner}
use ki_use_case_radar.UseCases.Model.{Status, idea, review, pilot, operation, ended, UseCase}
use ki_use_case_radar.UseCases.TransitionPolicy.{PolicyError, validate_actor}
use ki_use_case_radar.Reviews.Model.{Decision, start_review, start_pilot, go_live, end, Review}
use ki_use_case_radar.Reviews.Services.{ReviewData, create_review}
use ki_use_case_radar.Reviews.Lifecycle.{
  Edge, begin_review, begin_pilot, release, end_pilot, end_operation, stay, IsActive, active_review,
  active_pilot, active_operation, create_review-Stepped, create_review-eq-ok,
  validate_review_command-eq-ok, IsHistory, Request, keep, run, run-IsHistory, stays_continue,
  stays_pause, stays_rework,
}
use ki_use_case_radar.CaseFile.{CaseFile}

-- The order of the phases.
abbrev pub phase : Status → ℕ
phase idea = 0
phase review = 1
phase pilot = 2
phase operation = 3
phase ended = 4

phase-Edge : {d : Decision} {s t : Status} → Edge d s t → phase s ≤ phase t
phase-Edge begin_review = omega arith
phase-Edge begin_pilot = omega arith
phase-Edge release = omega arith
phase-Edge end_pilot = omega arith
phase-Edge end_operation = omega arith
phase-Edge (stay p q) = omega arith

phase-keep :
    (f : CaseFile) (clock : Clock) (a : User) (d : ReviewData) (r : Result PolicyError CaseFile)
    → create_review clock f a d ≡ r
    → phase f.use_case.status ≤ phase (keep f r).use_case.status
phase-keep f clock a d (err e) h = omega arith
phase-keep f clock a d (ok f') h = phase-Edge (create_review-Stepped clock f a d f' h).edge

-- No sequence of commands leads back to an earlier phase.
pub phase-run :
    (requests : List Request) (f : CaseFile)
    → phase f.use_case.status ≤ phase (run f requests).use_case.status
unfolding run
phase-run [] f = omega arith
phase-run ((clock, a, d) ∷ rest) f = omega (
  arith,
  phase-keep f clock a d (create_review clock f a d) refl,
  phase-run rest (keep f (create_review clock f a d)),
)

phase-IsActive : {s : Status} → IsActive s → phase s < 4
phase-IsActive active_review = omega arith
phase-IsActive active_pilot = omega arith
phase-IsActive active_operation = omega arith

phase-source : {d : Decision} {s t : Status} → Edge d s t → phase s < 4
phase-source begin_review = omega arith
phase-source begin_pilot = omega arith
phase-source release = omega arith
phase-source end_pilot = omega arith
phase-source end_operation = omega arith
phase-source (stay p q) = phase-IsActive q

not-Edge_ended : {d : Decision} {t : Status} → ¬ Edge d ended t
not-Edge_ended e = absurd (omega (arith, phase-source e))

keep_ended :
    (f : CaseFile) (clock : Clock) (a : User) (d : ReviewData) (r : Result PolicyError CaseFile)
    → create_review clock f a d ≡ r
    → f.use_case.status ≡ ended
    → keep f r ≡ f
keep_ended f clock a d (err e) h q = refl
keep_ended f clock a d (ok f') h q =
    absurd (not-Edge_ended (rw q at (create_review-Stepped clock f a d f' h).edge))

-- Ended is terminal: no sequence of commands changes anything of an ended case.
pub run_ended :
    (requests : List Request) (f : CaseFile) → f.use_case.status ≡ ended → run f requests ≡ f
unfolding run
run_ended [] f q = refl
run_ended ((clock, a, d) ∷ rest) f q =
    rw (keep_ended f clock a d (create_review clock f a d) refl q) (run_ended rest f q)

abbrev pub is_decision : Decision → Decision → Bool
is_decision start_review start_review = true
is_decision start_pilot start_pilot = true
is_decision go_live go_live = true
is_decision end end = true
is_decision _ _ = false

-- Whether a command is among the reviews.
abbrev pub has_review : Decision → List Review → Bool
has_review d = any (λ (r : Review). is_decision d r.decision)

-- The commands that a path of the diagram from the idea must hold, by the phase that it has reached.
abbrev pub HasPassed : Status → List Review → Type 0
HasPassed idea rs = rs ≡ []
HasPassed review rs = has_review start_review rs ≡ true
HasPassed pilot rs = (has_review start_review rs ≡ true) × (has_review start_pilot rs ≡ true)
HasPassed operation rs =
    (has_review start_review rs ≡ true)
    × (has_review start_pilot rs ≡ true)
    × (has_review go_live rs ≡ true)
HasPassed ended rs =
    (has_review start_review rs ≡ true)
    × (has_review start_pilot rs ≡ true)
    × (has_review end rs ≡ true)

passed-Edge :
    {d : Decision} {s t : Status} (r : Review) (rs : List Review)
    → Edge d s t
    → r.decision ≡ d
    → HasPassed s rs
    → HasPassed t (r ∷ rs)
passed-Edge r rs begin_review e h = ground arith
passed-Edge r rs begin_pilot e h = ground arith
passed-Edge r rs release e h = ground arith
passed-Edge r rs end_pilot e h = ground arith
passed-Edge r rs end_operation e h = ground arith
passed-Edge r rs (stay p active_review) e h = ground arith
passed-Edge r rs (stay p active_pilot) e h = ground arith
passed-Edge r rs (stay p active_operation) e h = ground arith

passed : (rs : List Review) (t : Status) → IsHistory idea rs t → HasPassed t rs
passed [] t h = rw h
passed (r ∷ rs) t (new, edge, older) =
    subst (λ u. HasPassed u (r ∷ rs)) new
      (passed-Edge r rs edge refl (passed rs r.previous_status older))

abbrev pub IsFresh : CaseFile → Type 0
IsFresh f = (f.use_case.status ≡ idea) × (f.reviews ≡ [])

-- A case that started as an idea without reviews has a review row of every gate on the way to the
-- phase that it has reached.
pub run-HasPassed :
    (requests : List Request) (f : CaseFile)
    → IsFresh f
    → HasPassed (run f requests).use_case.status (run f requests).reviews
run-HasPassed requests f (status, none_yet) =
    passed (run f requests).reviews (run f requests).use_case.status
      (run-IsHistory idea requests f (rw (status, none_yet) refl))

-- Who may give which command.
abbrev pub IsAuthorised : User → Decision → UseCase → Type 0
IsAuthorised a d u =
    (a.is_authenticated ≡ true)
    × ((is_coordinator a ≡ true)
        ⊎ ((d ≡ start_pilot) ⊎ (d ≡ end))
          × (is_business_owner a ≡ true)
          × (u.business_owner ≡ a.id))

IsAuthorised-Edge :
    (u : UseCase) (a : User) {d : Decision} {s t : Status}
    → Edge d s t
    → validate_actor u d a ≡ ok tt
    → IsAuthorised a d u
unfolding validate_actor
IsAuthorised-Edge u a begin_review h = ground arith
IsAuthorised-Edge u a begin_pilot h = ground arith
IsAuthorised-Edge u a release h = ground arith
IsAuthorised-Edge u a end_pilot h = ground arith
IsAuthorised-Edge u a end_operation h = ground arith
IsAuthorised-Edge u a (stay stays_continue q) h = ground arith
IsAuthorised-Edge u a (stay stays_pause q) h = ground arith
IsAuthorised-Edge u a (stay stays_rework q) h = ground arith

-- A successful command came from an authenticated coordinator or, for the start of the pilot and
-- for the end, from the business owner of the use case.
pub create_review-IsAuthorised :
    (clock : Clock) (f : CaseFile) (a : User) (d : ReviewData) (f' : CaseFile)
    → create_review clock f a d ≡ ok f'
    → IsAuthorised a d.command.decision f.use_case
create_review-IsAuthorised clock f a d f' h =
    let (_, actor, _) =
      validate_review_command-eq-ok clock f a d.command (create_review-eq-ok clock f a d h).0 in
    IsAuthorised-Edge f.use_case a (create_review-Stepped clock f a d f' h).edge actor
