-- ===== src/Accelerator/Capture/Retention.antt =====
-- ki_radar/accelerator/retention.py and services.py: how capture sessions begin, expire and are removed.
use ki_use_case_radar.Common.{
  ℕ, Bool, Bool-cases, true, false, ◌&&◌, not, ◌+◌, Option, none, some, List, [], ◌∷◌, map, filter,
  Text, ◌≡◌, ◌==◌, if◌then◌else◌, Result, ok, err, ◌>>=◌, ◌>>◌, require, refl, inl, inr, leb,
}
use ki_use_case_radar.Clock.{Clock}
use ki_use_case_radar.Accounts.{User}
use ki_use_case_radar.Accelerator.Model.{CaptureType, draft, discarded, expired}
use ki_use_case_radar.Accelerator.Capture.{
  CaptureCatalog, Capture, CaptureError, capture_denied, catalog_unsupported, required_count,
  days_of, normalize_working_title, is_expirable, expire_capture_session_if_due, can_manage_capture,
}

-- `owner` restricts the sessions of the query.
abbrev pub is_owned_by : Option ℕ → Capture → Bool
is_owned_by none s = true
is_owned_by (some owner) s = s.owner == owner

-- The sessions after `expire_due_capture_sessions`.
unfoldable pub expire_due_capture_sessions : Clock → Option ℕ → List Capture → List Capture
expire_due_capture_sessions clock owner = map (λ (s : Capture).
    if is_expirable s.status
      && leb s.expires_at clock.now
      && not s.is_running
      && is_owned_by owner s
    then record s { status = expired; expired_at = some clock.now }
    else s)

-- The time of the last change is there and lies before the cutoff.
abbrev pub is_past : Clock → ℕ → Option ℕ → Bool
is_past clock days none = false
is_past clock days (some t) = leb (t + days_of days) clock.now

abbrev pub is_purged : Clock → ℕ → Capture → Bool
is_purged clock days s = elim s.status [
  | expired ↦ is_past clock days s.expired_at
  | discarded ↦ is_past clock days s.discarded_at
  | _ ↦ false
]

-- The sessions that stay; the grace period is no negative number.
unfoldable pub purge_terminal_capture_sessions : Clock → ℕ → List Capture → List Capture
purge_terminal_capture_sessions clock days = filter (λ (s : Capture). not (is_purged clock days s))

abbrev pub new_capture : Clock → User → CaptureType → CaptureCatalog → Text → Capture
new_capture clock actor kind catalog title = record {
  owner = actor.id;
  capture_type = kind;
  working_title = title;
  catalog_version = catalog.version;
  schema_version = catalog.schema_version;
  answers = [];
  status = draft;
  revision = 0;
  answered_required_count = 0;
  required_question_count = required_count catalog;
  active_entry_seconds = 0;
  save_count = 0;
  expires_at = clock.now + days_of 30;
  completed_at = none;
  discarded_at = none;
  expired_at = none;
  is_running = false;
}

abbrev pub found_catalog : Option CaptureCatalog → Result CaptureError CaptureCatalog
found_catalog none = err catalog_unsupported
found_catalog (some catalog) = ok catalog

-- `current` gives the current catalog of a capture type.
unfoldable pub create_capture_session :
    (CaptureType → Option CaptureCatalog)
    → Clock
    → User
    → CaptureType
    → Text
    → Result CaptureError Capture
create_capture_session current clock actor kind title =
    require (can_manage_capture actor kind) capture_denied
    >> (found_catalog (current kind) >>= λ catalog. normalize_working_title title >>= λ checked.
        ok (new_capture clock actor kind catalog checked))

-- The sweep over all sessions does to each what a request on it would have done.
expire_due_capture_sessions-eq-map :
    (clock : Clock) (rows : List Capture)
    → expire_due_capture_sessions clock none rows ≡ map (expire_capture_session_if_due clock) rows
unfolding expire_due_capture_sessions expire_capture_session_if_due
expire_due_capture_sessions-eq-map clock [] = refl
expire_due_capture_sessions-eq-map clock (s ∷ rows) =
    elim (Bool-cases (is_expirable s.status && leb s.expires_at clock.now && not s.is_running)) [
      | inl due ↦ rw (due, expire_due_capture_sessions-eq-map clock rows) refl
      | inr kept ↦ rw (kept, expire_due_capture_sessions-eq-map clock rows) refl
    ]
