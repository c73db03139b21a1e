-- ===== src/Accelerator/Capture/Closed.antt =====
-- ki_radar/accelerator/services.py and retention.py: a capture session that is no draft.
use mathlib.Core.Bool.{false≢true}
use mathlib.Core.Path.{subst}
use ki_use_case_radar.Common.{
  ℕ, Bool-cases, false, ◌&&◌, not, Option, List, [], ◌∷◌, Text, ◌≡◌, ◌==◌, Result, ok, err, ◌>>=◌,
  ◌>>◌, require, refl, sym, inl, inr, >>-eq-ok, >>=-eq-ok, require-eq-ok, ok-inj, ◌∙◌, leb,
}
use ki_use_case_radar.Clock.{Clock}
use ki_use_case_radar.Accounts.{User}
use ki_use_case_radar.Accelerator.Model.{CaptureType}
use ki_use_case_radar.Accelerator.Capture.{
  CaptureCatalog, Capture, CaptureError, no_such_session, capture_denied, not_editable,
  revision_conflict, is_draft, is_expirable, expire_capture_session_if_due, can_manage_capture,
}
use ki_use_case_radar.Accelerator.Capture.Requests.{
  owned_session, assert_current, save_answers, save_capture_session, complete_answers,
  complete_capture_session, discard_capture_session, CaptureRequest, read_request, save_request,
  complete_request, discard_request, respond, after_response, run_capture,
}

-- `t` is closed and has the content of `s`.
pub record IsClosedCopy (s : Capture) (t : Capture) : Type 0 where
  pub closed : is_draft t.status ≡ false
  pub answers : t.answers ≡ s.answers
  pub title : t.working_title ≡ s.working_title
  pub revision : t.revision ≡ s.revision

copy_trans : (s t u : Capture) → IsClosedCopy s t → IsClosedCopy t u → IsClosedCopy s u
copy_trans s t u a b = record {
  closed = b.closed;
  answers = b.answers ∙ a.answers;
  title = b.title ∙ a.title;
  revision = b.revision ∙ a.revision;
}

expire-copy :
    (clock : Clock) (s : Capture)
    → is_draft s.status ≡ false
    → IsClosedCopy s (expire_capture_session_if_due clock s)
unfolding expire_capture_session_if_due
expire-copy clock s h =
    elim (Bool-cases (is_expirable s.status && leb s.expires_at clock.now && not s.is_running)) [
      | inl due ↦ rw due record { closed = refl; answers = refl; title = refl; revision = refl }
      | inr kept ↦ rw kept record { closed = h; answers = refl; title = refl; revision = refl }
    ]

owned-copy :
    (clock : Clock) (actor : User) (s t : Capture)
    → is_draft s.status ≡ false
    → owned_session clock actor s ≡ ok t
    → IsClosedCopy s t
unfolding owned_session
owned-copy clock actor s t closed h =
    let (front, last) =
      >>-eq-ok
        (require (s.owner == actor.id) no_such_session
          >> require (can_manage_capture actor s.capture_type) capture_denied)
        _ h in
    subst (IsClosedCopy s) (ok-inj last) (expire-copy clock s closed)

-- A change of a closed session is refused.
guarded_closed :
    (clock : Clock) (actor : User) (n : ℕ) (work : Capture → Result CaptureError Capture)
    (s next : Capture)
    → is_draft s.status ≡ false
    → (owned_session clock actor s >>= assert_current n >>= work) ≡ ok next
    → IsClosedCopy s next
guarded_closed clock actor n work s next closed h =
    let (u, front, _) = >>=-eq-ok (owned_session clock actor s >>= assert_current n) work h in
    let (t, owned, checked) = >>=-eq-ok (owned_session clock actor s) (assert_current n) front in
    let copy = (owned-copy clock actor s t closed owned).closed in
    let (first, _) =
      >>-eq-ok
        (require (is_draft t.status) not_editable >> require (t.revision == n) revision_conflict) _
        checked in
    let (drafted, _) = >>-eq-ok (require (is_draft t.status) not_editable) _ first in
    let draft_found = require-eq-ok (is_draft t.status) not_editable drafted in
    absurd (false≢true (sym copy ∙ draft_found))

module _ (catalogs : CaptureType → Text → Option CaptureCatalog) (setting : Option ℕ) where
  respond-copy :
      (clock : Clock) (actor : User) (request : CaptureRequest) (s next : Capture)
      → is_draft s.status ≡ false
      → respond catalogs setting clock actor request s ≡ ok next
      → IsClosedCopy s next
  unfolding save_capture_session complete_capture_session discard_capture_session
  respond-copy clock actor read_request s next closed h = owned-copy clock actor s next closed h
  respond-copy clock actor (save_request n updates title delta) s next closed h =
      guarded_closed clock actor n (save_answers catalogs setting clock updates title delta) s next
        closed h
  respond-copy clock actor (complete_request n) s next closed h =
      guarded_closed clock actor n (complete_answers catalogs setting clock) s next closed h
  respond-copy clock actor (discard_request n) s next closed h =
      guarded_closed clock actor n _ s next closed h

  response-copy :
      (s : Capture) (r : Result CaptureError Capture)
      → is_draft s.status ≡ false
      → ((next : Capture) → r ≡ ok next → IsClosedCopy s next)
      → IsClosedCopy s (after_response catalogs setting s r)
  response-copy s (ok next) closed h = h next refl
  response-copy s (err raised) closed h = record {
    closed = closed;
    answers = refl;
    title = refl;
    revision = refl;
  }

  -- A session that is no draft, because it was completed, discarded or has expired, never is one
  -- again, and keeps its answers, its title and its revision, whatever requests follow.
  pub run_capture_closed :
      (history : List (Clock × User × CaptureRequest)) (s : Capture)
      → is_draft s.status ≡ false
      → IsClosedCopy s (run_capture catalogs setting history s)
  unfolding run_capture
  run_capture_closed [] s closed = record {
    closed = closed;
    answers = refl;
    title = refl;
    revision = refl;
  }
  run_capture_closed ((clock, actor, request) ∷ rest) s closed =
      let r = respond catalogs setting clock actor request s in
      let once =
        response-copy s r closed (λ next h. respond-copy clock actor request s next closed h) in
      copy_trans s (after_response catalogs setting s r) _ once
        (run_capture_closed rest (after_response catalogs setting s r) once.closed)
