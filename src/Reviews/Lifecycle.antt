-- ===== src/Reviews/Lifecycle.antt =====
-- The lifecycle as a diagram, and `create_review` as its steps.
use ki_use_case_radar.Common.{
  ◌≡◌, refl, ◌↔◌, List, [], ◌∷◌, Result, ok, err, arith, >>-eq-ok, ap, ◌∙◌, ◌>>◌, sym,
}
use ki_use_case_radar.Clock.{Clock}
use ki_use_case_radar.Accounts.{User}
use ki_use_case_radar.UseCases.Model.{Status, idea, review, pilot, operation, ended, UseCase}
use ki_use_case_radar.UseCases.TransitionPolicy.{
  PolicyError, Command, validate_transition_shape, validate_actor, validate_gate,
  validate_review_command,
}
use ki_use_case_radar.Reviews.Model.{
  Decision, start_review, continue, start_pilot, go_live, pause, rework, end, Review,
}
use ki_use_case_radar.Reviews.Services.{ReviewData, create_review, apply_review, new_review}
use ki_use_case_radar.CaseFile.{CaseFile}

-- The commands that stay in the phase, and the phases in which they may be given.
pub data Stays : Decision → Type 0 where
  stays_continue : Stays continue
  stays_pause : Stays pause
  stays_rework : Stays rework

pub data IsActive : Status → Type 0 where
  active_review : IsActive review
  active_pilot : IsActive pilot
  active_operation : IsActive operation

-- The diagram of the lifecycle, with the command on each edge.
pub data Edge : Decision → Status → Status → Type 0 where
  begin_review : Edge start_review idea review
  begin_pilot : Edge start_pilot review pilot
  release : Edge go_live pilot operation
  end_pilot : Edge end pilot ended
  end_operation : Edge end operation ended
  stay : {d : Decision} {s : Status} → Stays d → IsActive s → Edge d s s

pub ruleset edges = (
  begin_review, begin_pilot, release, end_pilot, end_operation, stay, stays_continue, stays_pause,
  stays_rework, active_review, active_pilot, active_operation,
)

shape-Edge :
    (u : UseCase) (d : Decision) (t : Status)
    → validate_transition_shape u d t ≡ ok tt
    → Edge d u.status t
unfolding validate_transition_shape
shape-Edge u d t h = grind (arith, edges)

Edge-shape :
    (u : UseCase) (d : Decision) (s t : Status)
    → Edge d s t
    → u.status ≡ s
    → validate_transition_shape u d t ≡ ok tt
unfolding validate_transition_shape
Edge-shape u d s t begin_review e = ground arith
Edge-shape u d s t begin_pilot e = ground arith
Edge-shape u d s t release e = ground arith
Edge-shape u d s t end_pilot e = ground arith
Edge-shape u d s t end_operation e = ground arith
Edge-shape u d s t (stay stays_continue active_review) e = ground arith
Edge-shape u d s t (stay stays_continue active_pilot) e = ground arith
Edge-shape u d s t (stay stays_continue active_operation) e = ground arith
Edge-shape u d s t (stay stays_pause active_review) e = ground arith
Edge-shape u d s t (stay stays_pause active_pilot) e = ground arith
Edge-shape u d s t (stay stays_pause active_operation) e = ground arith
Edge-shape u d s t (stay stays_rework active_review) e = ground arith
Edge-shape u d s t (stay stays_rework active_pilot) e = ground arith
Edge-shape u d s t (stay stays_rework active_operation) e = ground arith

-- A command has an admissible shape exactly if it is an edge of the diagram.
pub validate_transition_shape_iff :
    (u : UseCase) (d : Decision) (t : Status)
    → (validate_transition_shape u d t ≡ ok tt) ↔ Edge d u.status t
validate_transition_shape_iff u d t = (shape-Edge u d t, λ e. Edge-shape u d u.status t e refl)

status-apply_review :
    (clock : Clock) (f : CaseFile) (a : User) (d : ReviewData)
    → (apply_review clock f a d).use_case.status ≡ d.command.target_status
unfolding apply_review
status-apply_review clock f a d = ground arith

-- What a successful command has passed, and what it has stored.
pub create_review-eq-ok :
    (clock : Clock) (f : CaseFile) (a : User) (d : ReviewData) {f' : CaseFile}
    → create_review clock f a d ≡ ok f'
    → (validate_review_command clock f a d.command ≡ ok tt) × (f' ≡ apply_review clock f a d)
unfolding create_review
create_review-eq-ok clock f a d h =
    let (passed, stored) = >>-eq-ok (validate_review_command clock f a d.command) _ h in
    (passed, cc)

pub validate_review_command-eq-ok :
    (clock : Clock) (f : CaseFile) (a : User) (c : Command)
    → validate_review_command clock f a c ≡ ok tt
    → (validate_transition_shape f.use_case c.decision c.target_status ≡ ok tt)
      × (validate_actor f.use_case c.decision a ≡ ok tt)
      × (validate_gate clock f c c.decision ≡ ok tt)
unfolding validate_review_command
validate_review_command-eq-ok clock f a c h =
    let shape = validate_transition_shape f.use_case c.decision c.target_status in
    let actor = validate_actor f.use_case c.decision a in
    let (checked, gate_ok) = >>-eq-ok (shape >> actor) (validate_gate clock f c c.decision) h in
    let (shape_ok, actor_ok) = >>-eq-ok shape actor checked in (shape_ok, actor_ok, gate_ok)

-- What a command has done to the status and to the reviews.
pub record Stepped (f : CaseFile) (a : User) (d : ReviewData) (f' : CaseFile) : Type 0 where
  pub edge : Edge d.command.decision f.use_case.status f'.use_case.status
  pub row : f'.reviews ≡ new_review f a d ∷ f.reviews
  pub target : f'.use_case.status ≡ d.command.target_status

reviews-apply_review :
    (clock : Clock) (f : CaseFile) (a : User) (d : ReviewData)
    → (apply_review clock f a d).reviews ≡ new_review f a d ∷ f.reviews
unfolding apply_review
reviews-apply_review clock f a d = refl

-- A successful `create_review` takes one edge of the diagram to the target status and leaves
-- exactly one new review row.
pub create_review-Stepped :
    (clock : Clock) (f : CaseFile) (a : User) (d : ReviewData) (f' : CaseFile)
    → create_review clock f a d ≡ ok f'
    → Stepped f a d f'
create_review-Stepped clock f a d f' h =
    let (passed, stored) = create_review-eq-ok clock f a d h in
    let (shape, _, _) = validate_review_command-eq-ok clock f a d.command passed in
    let target =
      ap (λ (g : CaseFile). g.use_case.status) stored ∙ status-apply_review clock f a d in
    record {
      edge = rw target (shape-Edge f.use_case d.command.decision d.command.target_status shape);
      row = ap (λ (g : CaseFile). g.reviews) stored ∙ reviews-apply_review clock f a d;
      target = target;
    }

-- The reviews of a case, the latest first, as a path of the diagram from `s` to `t`.
abbrev pub IsHistory : Status → List Review → Status → Type 0
IsHistory s [] t = t ≡ s
IsHistory s (r ∷ rs) t =
    (r.new_status ≡ t)
    × Edge r.decision r.previous_status r.new_status
    × IsHistory s rs r.previous_status

-- A list of commands, each with its time and its actor; a command that raises changes nothing.
abbrev pub Request : Type 0
Request = Clock × User × ReviewData

abbrev pub keep : CaseFile → Result PolicyError CaseFile → CaseFile
keep f (ok f') = f'
keep f (err e) = f

unfoldable pub run : CaseFile → List Request → CaseFile
run f [] = f
run f ((clock, a, d) ∷ rest) = run (keep f (create_review clock f a d)) rest

keep-IsHistory :
    (s : Status) (f : CaseFile) (clock : Clock) (a : User) (d : ReviewData)
    (r : Result PolicyError CaseFile)
    → create_review clock f a d ≡ r
    → IsHistory s f.reviews f.use_case.status
    → IsHistory s (keep f r).reviews (keep f r).use_case.status
unfolding new_review
keep-IsHistory s f clock a d (err e) h p = p
keep-IsHistory s f clock a d (ok f') h p =
    let st = create_review-Stepped clock f a d f' h in
    rw st.row (sym st.target, rw st.target at st.edge, p)

-- From a case whose reviews are a path of the diagram from `s`, every sequence of commands leads to
-- a case whose reviews are one.
pub run-IsHistory :
    (s : Status) (requests : List Request) (f : CaseFile)
    → IsHistory s f.reviews f.use_case.status
    → IsHistory s (run f requests).reviews (run f requests).use_case.status
unfolding run
run-IsHistory s [] f p = p
run-IsHistory s ((clock, a, d) ∷ rest) f p =
    run-IsHistory s rest (keep f (create_review clock f a d))
      (keep-IsHistory s f clock a d (create_review clock f a d) refl p)
