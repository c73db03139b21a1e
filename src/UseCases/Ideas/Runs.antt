-- ===== src/UseCases/Ideas/Runs.antt =====
-- What holds of an idea after every sequence of requests.
use Prim.Native.Nat.{◌/◌}
use ki_use_case_radar.Common.{
  ℕ, ◌+◌, ◌*◌, ◌≡◌, ◌≤◌, refl, true, false, ◌&&◌, Option, none, some, List, [], ◌∷◌, Text, length,
  arith, is_some, Result, ok, err,
}
use ki_use_case_radar.Clock.{Clock}
use ki_use_case_radar.Accounts.{User}
use ki_use_case_radar.UseCases.Ideas.{
  Idea, IdeaData, IdeaError, is_open_idea, is_dismissed, is_promoted, is_score, idea_edit,
  idea_triage, idea_dismiss, promote_idea, quick_score, in_tenths, sum_of, can_edit_idea,
  can_triage_idea,
}

pub data IdeaRequest : Type 0 where
  edit : User → IdeaData → IdeaRequest
  triage : User → Option ℕ → Option ℕ → Option ℕ → IdeaRequest
  dismiss : User → Text → IdeaRequest
  promote : ℕ → IdeaRequest

abbrev pub keep : Idea → Result IdeaError Idea → Idea
keep i (ok i') = i'
keep i (err e) = i

abbrev pub step : Clock → Idea → IdeaRequest → Idea
step clock i (edit user d) = keep i (idea_edit user d i)
step clock i (triage user impact confidence ease) =
    keep i (idea_triage clock user impact confidence ease i)
step clock i (dismiss user note) = keep i (idea_dismiss clock user note i)
step clock i (promote use_case) = keep i (promote_idea use_case (some i))

unfoldable pub run_idea : Idea → List (Clock × IdeaRequest) → Idea
run_idea i [] = i
run_idea i ((clock, q) ∷ rest) = run_idea (step clock i q) rest

-- The scores are from 1 to 5, the link to a use case stands exactly with a promoted idea, and a
-- dismissed idea has a note.
pub record IsConsistent (i : Idea) : Type 0 where
  pub scored : (is_score i.impact && is_score i.confidence && is_score i.ease) ≡ true
  pub linked : is_some i.promoted_use_case ≡ is_promoted i.state
  pub noted : is_dismissed i.state ≡ true → 3 ≤ length i.decision_note

keep-preserves {ℓ} :
    (P : Idea → Type ℓ) (i : Idea) (r : Result IdeaError Idea)
    → P i
    → ((i' : Idea) → r ≡ ok i' → P i')
    → P (keep i r)
keep-preserves P i (ok i') p h = h i' refl
keep-preserves P i (err e) p h = p

IsConsistent-step :
    (clock : Clock) (i : Idea) (q : IdeaRequest) → IsConsistent i → IsConsistent (step clock i q)
unfolding idea_edit idea_triage idea_dismiss promote_idea can_triage_idea
IsConsistent-step clock i (edit user d) c =
    keep-preserves IsConsistent i (idea_edit user d i) c (λ i' h. record {
      scored = ground (arith, c.scored);
      linked = ground (arith, c.linked);
      noted = ground (arith, c.noted);
    })
IsConsistent-step clock i (triage user impact confidence ease) c =
    keep-preserves IsConsistent i (idea_triage clock user impact confidence ease i) c (λ i' h.
      record {
        scored = ground arith;
        linked = ground (arith, c.linked);
        noted = ground (arith, c.noted);
      })
IsConsistent-step clock i (dismiss user note) c =
    keep-preserves IsConsistent i (idea_dismiss clock user note i) c (λ i' h. record {
      scored = ground (arith, c.scored);
      linked = ground (arith, c.linked);
      noted = λ e. ground (arith, h);
    })
IsConsistent-step clock i (promote use_case) c =
    keep-preserves IsConsistent i (promote_idea use_case (some i)) c (λ i' h. record {
      scored = ground (arith, c.scored);
      linked = ground (arith, c.linked);
      noted = λ e. ground (arith, h, e);
    })

-- An idea with scores from 1 to 5, a link exactly if it is promoted and a note of three characters
-- if it is dismissed stays so under every sequence of edits, triages, dismissals and promotions.
pub run_idea-IsConsistent :
    (requests : List (Clock × IdeaRequest)) (i : Idea)
    → IsConsistent i
    → IsConsistent (run_idea i requests)
unfolding run_idea
run_idea-IsConsistent [] i c = c
run_idea-IsConsistent ((clock, q) ∷ rest) i c =
    run_idea-IsConsistent rest (step clock i q) (IsConsistent-step clock i q c)

step_closed :
    (clock : Clock) (i : Idea) (q : IdeaRequest) → is_open_idea i.state ≡ false → step clock i q ≡ i
unfolding idea_edit idea_triage idea_dismiss promote_idea can_triage_idea can_edit_idea
step_closed clock i (edit user d) h = ground arith
step_closed clock i (triage user impact confidence ease) h = ground arith
step_closed clock i (dismiss user note) h = ground arith
step_closed clock i (promote use_case) h = ground arith

-- A dismissed or promoted idea is closed: no sequence of requests changes anything of it.
pub run_idea_closed :
    (requests : List (Clock × IdeaRequest)) (i : Idea)
    → is_open_idea i.state ≡ false
    → run_idea i requests ≡ i
unfolding run_idea
run_idea_closed [] i h = refl
run_idea_closed ((clock, q) ∷ rest) i h = rw (step_closed clock i q h) (run_idea_closed rest i h)

tenths_bounds :
    (a b c : ℕ)
    → 1 ≤ a
    → a ≤ 5
    → 1 ≤ b
    → b ≤ 5
    → 1 ≤ c
    → c ≤ 5
    → (10 ≤ (20 * (a + b + c) + 3) / 6) × ((20 * (a + b + c) + 3) / 6 ≤ 50)
tenths_bounds a b c la ua lb ub lc uc = (omega arith, omega arith)

scored_bounds :
    (a b c : Option ℕ) (s : ℕ)
    → (is_score a && is_score b && is_score c) ≡ true
    → in_tenths (sum_of a b c) ≡ some s
    → (10 ≤ s) × (s ≤ 50)
scored_bounds (some a) (some b) (some c) s h e =
    let e' : (20 * (a + b + c) + 3) / 6 ≡ s = cc in
    rw e' at (
      tenths_bounds a b c (ground arith) (ground arith) (ground arith) (ground arith) (ground arith)
        (ground arith))
scored_bounds none b c s h e = absurd cc
scored_bounds (some a) none c s h e = absurd cc
scored_bounds (some a) (some b) none s h e = absurd cc

-- Whatever was done to an idea that was consistent, its quick score, in tenths, is from 10 to 50 if
-- it has one.
pub run_idea-quick_score :
    (requests : List (Clock × IdeaRequest)) (i : Idea) (s : ℕ)
    → IsConsistent i
    → quick_score (run_idea i requests) ≡ some s
    → (10 ≤ s) × (s ≤ 50)
unfolding quick_score
run_idea-quick_score requests i s c e =
    let j = run_idea i requests in
    scored_bounds j.impact j.confidence j.ease s (run_idea-IsConsistent requests i c).scored e
