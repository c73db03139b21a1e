-- ===== src/Accelerator/Capture/Locking.antt =====
-- ki_radar/accelerator/services.py: the revisions of a capture session.
use mathlib.Core.Path.{subst}
use ki_use_case_radar.Common.{
  ℕ, true, false, ◌+◌, ◌≤◌, Option, some, List, [], ◌∷◌, Text, ◌≡◌, ◌==◌, Result, ok, err, is_ok,
  ◌>>=◌, ◌>>◌, require, refl, sym, ap, arith, >>-eq-ok, >>=-eq-ok, require-eq-ok, is_ok-eq-false,
  ok-inj, ◌∙◌,
}
use ki_use_case_radar.Clock.{Clock}
use ki_use_case_radar.Accounts.{User}
use ki_use_case_radar.Accelerator.Model.{CaptureType}
use ki_use_case_radar.Accelerator.Capture.{
  Document, CaptureCatalog, Capture, CaptureError, no_such_session, capture_denied, not_editable,
  revision_conflict, EntrySeconds, merge, validate_answer_document, to_document, title_after,
  is_draft, bounded_active_entry_seconds, retention_days, expire_capture_session_if_due,
  can_manage_capture,
}
use ki_use_case_radar.Accelerator.Capture.Requests.{
  owned_session, assert_current, updates_of, stored_catalog, save_answers, save_capture_session,
  complete_answers, complete_capture_session, discard_capture_session, CaptureRequest, read_request,
  save_request, complete_request, discard_request, expected_revision, respond, after_response,
  run_capture,
}

expire-revision :
    (clock : Clock) (s : Capture) → (expire_capture_session_if_due clock s).revision ≡ s.revision
unfolding expire_capture_session_if_due
expire-revision clock s = ground arith

owned-revision :
    (clock : Clock) (actor : User) (s t : Capture)
    → owned_session clock actor s ≡ ok t
    → t.revision ≡ s.revision
unfolding owned_session
owned-revision clock actor s t h =
    let (front, last) =
      >>-eq-ok
        (require (s.owner == actor.id) no_such_session
          >> require (can_manage_capture actor s.capture_type) capture_denied)
        _ h in
    ap (λ u. u.revision) (sym (ok-inj last)) ∙ expire-revision clock s

record Current (n : ℕ) (t : Capture) (u : Capture) : Type 0 where
  same : t ≡ u
  expected : t.revision ≡ n

assert_current-Current : (n : ℕ) (t u : Capture) → assert_current n t ≡ ok u → Current n t u
assert_current-Current n t u h =
    let (front, last) =
      >>-eq-ok
        (require (is_draft t.status) not_editable >> require (t.revision == n) revision_conflict) _
        h in
    let (_, equal) = >>-eq-ok (require (is_draft t.status) not_editable) _ front in
    let found = require-eq-ok (t.revision == n) revision_conflict equal in
    record { same = ok-inj last; expected = ground (arith, found) }

-- A request that expects a revision has found it and counts it up.
record Counted (n : ℕ) (s : Capture) (next : Capture) : Type 0 where
  found : s.revision ≡ n
  counted : next.revision ≡ n + 1

guarded-Counted :
    (clock : Clock) (actor : User) (n : ℕ) (work : Capture → Result CaptureError Capture)
    (s next : Capture)
    → ((t u : Capture) → work t ≡ ok u → u.revision ≡ t.revision + 1)
    → (owned_session clock actor s >>= assert_current n >>= work) ≡ ok next
    → Counted n s next
guarded-Counted clock actor n work s next counts h =
    let (u, front, last) = >>=-eq-ok (owned_session clock actor s >>= assert_current n) work h in
    let (t, owned, checked) = >>=-eq-ok (owned_session clock actor s) (assert_current n) front in
    let current = assert_current-Current n t u checked in
    let at : t.revision ≡ s.revision = owned-revision clock actor s t owned in
    let same : t.revision ≡ u.revision = ap (λ c. c.revision) current.same in
    let up = counts u next last in
    let exp = current.expected in
    record { found = omega (arith, at, exp); counted = omega (arith, up, same, exp) }

option_value : {a b : ℕ} → ◌≡◌ {A = Option ℕ} (some a) (some b) → a ≡ b
option_value h = cc

module _ (catalogs : CaptureType → Text → Option CaptureCatalog) (setting : Option ℕ) where
  save_answers-revision :
      (clock : Clock) (updates : Option Document) (title : Option Text) (delta : EntrySeconds)
      (s next : Capture)
      → save_answers catalogs setting clock updates title delta s ≡ ok next
      → next.revision ≡ s.revision + 1
  save_answers-revision clock updates title delta s next h =
      let (catalog, _, h1) = >>=-eq-ok (stored_catalog catalogs setting s) _ h in
      let (entered, _, h2) = >>=-eq-ok (bounded_active_entry_seconds delta) _ h1 in
      let (current, _, h3) = >>=-eq-ok (validate_answer_document catalog s.answers false) _ h2 in
      let (changes, _, h4) = >>=-eq-ok (updates_of updates) _ h3 in
      let (answers, _, h5) =
        >>=-eq-ok (validate_answer_document catalog (merge (to_document current) changes) false) _
          h4 in
      let (new_title, _, h6) = >>=-eq-ok (title_after s.working_title title) _ h5 in
      ap (λ c. c.revision) (sym (ok-inj h6))

  complete_answers-revision :
      (clock : Clock) (s next : Capture)
      → complete_answers catalogs setting clock s ≡ ok next
      → next.revision ≡ s.revision + 1
  complete_answers-revision clock s next h =
      let (catalog, _, h1) = >>=-eq-ok (stored_catalog catalogs setting s) _ h in
      let (answers, _, h2) = >>=-eq-ok (validate_answer_document catalog s.answers true) _ h1 in
      let (days, _, h3) = >>=-eq-ok (retention_days setting) _ h2 in
      ap (λ c. c.revision) (sym (ok-inj h3))

  respond-Counted :
      (clock : Clock) (actor : User) (request : CaptureRequest) (n : ℕ) (s next : Capture)
      → expected_revision request ≡ some n
      → respond catalogs setting clock actor request s ≡ ok next
      → Counted n s next
  unfolding save_capture_session complete_capture_session discard_capture_session
  respond-Counted clock actor read_request n s next e h = absurd cc
  respond-Counted clock actor (save_request m updates title delta) n s next e h =
      subst (λ k. Counted k s next) (option_value e)
        (guarded-Counted clock actor m (save_answers catalogs setting clock updates title delta) s
          next (save_answers-revision clock updates title delta) h)
  respond-Counted clock actor (complete_request m) n s next e h =
      subst (λ k. Counted k s next) (option_value e)
        (guarded-Counted clock actor m (complete_answers catalogs setting clock) s next
          (complete_answers-revision clock) h)
  respond-Counted clock actor (discard_request m) n s next e h =
      subst (λ k. Counted k s next) (option_value e)
        (guarded-Counted clock actor m _ s next (λ t u r. ap (λ c. c.revision) (sym (ok-inj r))) h)

  up_from : (n : ℕ) (s next : Capture) → Counted n s next → s.revision ≤ next.revision
  up_from n s next c = let found = c.found in let up = c.counted in omega (arith, found, up)

  counted_up :
      (request : CaptureRequest) (clock : Clock) (actor : User) (s next : Capture)
      → respond catalogs setting clock actor request s ≡ ok next
      → s.revision ≤ next.revision
  counted_up read_request clock actor s next h =
      let same = owned-revision clock actor s next h in omega (arith, same)
  counted_up (save_request n updates title delta) clock actor s next h =
      up_from n s next
        (respond-Counted clock actor (save_request n updates title delta) n s next refl h)
  counted_up (complete_request n) clock actor s next h =
      up_from n s next (respond-Counted clock actor (complete_request n) n s next refl h)
  counted_up (discard_request n) clock actor s next h =
      up_from n s next (respond-Counted clock actor (discard_request n) n s next refl h)

  response-revision :
      (s : Capture) (r : Result CaptureError Capture)
      → ((next : Capture) → r ≡ ok next → s.revision ≤ next.revision)
      → s.revision ≤ (after_response catalogs setting s r).revision
  response-revision s (ok next) h = h next refl
  response-revision s (err raised) h = omega arith

  run_capture-revision :
      (history : List (Clock × User × CaptureRequest)) (s : Capture)
      → s.revision ≤ (run_capture catalogs setting history s).revision
  unfolding run_capture
  run_capture-revision [] s = omega arith
  run_capture-revision ((clock, actor, request) ∷ rest) s =
      let r = respond catalogs setting clock actor request s in
      let once = response-revision s r (λ next h. counted_up request clock actor s next h) in
      let later = run_capture-revision rest (after_response catalogs setting s r) in
      omega (arith, once, later)

  -- Once a save, a completion or a discard that expected a revision has returned, no request that
  -- expects the same revision returns, whoever makes it and whatever requests came in between: of
  -- the requests that were based on one revision of a session at most one takes effect.
  pub run_capture-one_winner :
      (history : List (Clock × User × CaptureRequest)) (clock later : Clock) (actor other : User)
      (request again : CaptureRequest) (n : ℕ) (s next : Capture)
      → expected_revision request ≡ some n
      → expected_revision again ≡ some n
      → respond catalogs setting clock actor request s ≡ ok next
      → is_ok
          (respond catalogs setting later other again (run_capture catalogs setting history next))
        ≡ false
  run_capture-one_winner history clock later actor other request again n s next e e' h =
      is_ok-eq-false _ (λ u returned.
        let first = (respond-Counted clock actor request n s next e h).counted in
        let second = (respond-Counted later other again n _ u e' returned).found in
        let between = run_capture-revision history next in omega (arith, first, second, between))
