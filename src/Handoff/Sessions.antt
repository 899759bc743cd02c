-- ===== src/Handoff/Sessions.antt =====
-- src/orbitmind/api/transient_handoff.py: the state of `CustomTleTransientHandoffStore`, its
-- events, its expiry and its sessions. The lock makes each call one step. `hmac` is HMAC-SHA-256
-- under the process key with the session domain, and `sha256` the digest of a token.
use orbit_mind_living_q_core.Common.{
  ℕ, ◌+◌, String, Bool, true, false, not, ◌||◌, Option, none, some, List, [], ◌∷◌, ◌++◌, leb,
  length, if◌then◌else◌, Result, ok, err, Dict, get, add, keep, keep_last,
}
use orbit_mind_living_q_core.Handoff.Contracts.{
  DiagnosticEventType, DiagnosticReason, DiagnosticStatus, recorded, HandoffError, capacity_error,
  Limits, DiagnosticEvent, HandoffRecord, SessionEntry, DateTime, is_token,
}

pub record HandoffStore : Type 0 where
  pub sessions : Dict SessionEntry
  pub records : Dict HandoffRecord
  pub events : List DiagnosticEvent
  pub hmac_key : String
  pub closed : Bool

-- What the store calls: `hmac key cookie`, `sha256 token` and `datetime.isoformat`.
pub record Functions : Type 0 where
  pub hmac : String → String → String
  pub sha256 : String → String
  pub canonical_utc : DateTime → String

-- `__init__`.
abbrev pub new_store : String → HandoffStore
new_store hmac_key = record {
  sessions = [];
  records = [];
  events = [];
  hmac_key = hmac_key;
  closed = false;
}

unfoldable pub status_of : DiagnosticEventType → DiagnosticStatus
status_of DiagnosticEventType.created = recorded
status_of DiagnosticEventType.consumed = recorded
status_of DiagnosticEventType.expired = recorded
status_of _ = DiagnosticStatus.rejected

-- The outcome of a call and the state that it leaves, which an exception does not undo.
abbrev pub Outcome : Type 0 → Type 0
Outcome A = Result HandoffError A × HandoffStore

module _ (limits : Limits) (functions : Functions) where
  open limits use {session_ttl, maximum_sessions, maximum_diagnostic_events}
  open functions use {hmac}

  -- `_event`, on the bounded queue.
  unfoldable pub push_event :
      DiagnosticEventType → DiagnosticReason → ℕ → List DiagnosticEvent → List DiagnosticEvent
  push_event event_type reason at events = keep_last maximum_diagnostic_events (
      events
      ++ record { event_type = event_type; at = at; status = status_of event_type; reason = reason }
        ∷ [])

  unfoldable pub event : DiagnosticEventType → DiagnosticReason → ℕ → HandoffStore → HandoffStore
  event event_type reason at s = record s { events = push_event event_type reason at s.events }

  unfoldable pub is_expired : ℕ → HandoffRecord → Bool
  is_expired now r = leb r.expires_monotonic now || leb r.session_expires_monotonic now

  -- One event for each record that expires.
  unfoldable pub expiry_events :
      ℕ → Dict HandoffRecord → List DiagnosticEvent → List DiagnosticEvent
  expiry_events at [] events = events
  expiry_events at (r ∷ rs) events =
      expiry_events at rs
        (push_event DiagnosticEventType.expired DiagnosticReason.expired at events)

  -- `_remove_expired`.
  unfoldable pub remove_expired : ℕ → ℕ → HandoffStore → HandoffStore
  remove_expired now at s = record s {
    records = keep (λ e. not (is_expired now e.1)) s.records;
    events = expiry_events at (keep (λ e. is_expired now e.1) s.records) s.events;
    sessions = keep (λ e. not (leb e.1.expires_monotonic now)) s.sessions;
  }

  -- `_session_binding`.
  abbrev pub session_binding : HandoffStore → String → String
  session_binding s cookie = hmac s.hmac_key cookie

  -- `_binding_for_valid_cookie`.
  unfoldable pub binding_for_valid_cookie : HandoffStore → Option String → Option String
  binding_for_valid_cookie s none = none
  binding_for_valid_cookie s (some cookie) =
      if is_token cookie then some (session_binding s cookie) else none

  -- The session of a binding, if it has not expired.
  unfoldable pub live_session : ℕ → HandoffStore → String → Option SessionEntry
  live_session now s binding = elim (get binding s.sessions) [
    | none ↦ none
    | some session ↦ if leb session.expires_monotonic now then none else some session
  ]

  -- The loop over the candidates of `_resolve_or_create_session`.
  unfoldable pub create_session :
      ℕ → List String → ℕ → HandoffStore → Outcome (String × String × Bool)
  create_session now [] at s =
      (err capacity_error, event DiagnosticEventType.rejected DiagnosticReason.collision_limit at s)
  create_session now (cookie ∷ candidates) at s =
      let rest = create_session now candidates at s in
      let binding = session_binding s cookie in
      if not (is_token cookie) then rest else elim (get binding s.sessions) [
        | some _ ↦ rest
        | none ↦ (
          ok (binding, cookie, true),
          record s {
            sessions =
                add binding
                  (record {
                    binding_digest = binding;
                    created_monotonic = now;
                    expires_monotonic = now + session_ttl;
                  })
                  s.sessions;
          },
        )
      ]

  -- The part of `_resolve_or_create_session` without a live session.
  unfoldable pub new_session : ℕ → List String → ℕ → HandoffStore → Outcome (String × String × Bool)
  new_session now candidates at s =
      if leb maximum_sessions (length s.sessions)
      then (
        err capacity_error,
        event DiagnosticEventType.capacity_rejected DiagnosticReason.session_capacity at s,
      )
      else create_session now candidates at s

  -- The live session of the submitted cookie, with the cookie.
  unfoldable pub submitted_session : ℕ → HandoffStore → Option String → Option (String × String)
  submitted_session now s none = none
  submitted_session now s (some cookie) = elim (binding_for_valid_cookie s (some cookie)) [
    | none ↦ none
    | some binding ↦ elim (live_session now s binding) [
      | none ↦ none
      | some _ ↦ some (binding, cookie)
    ]
  ]

  -- `_resolve_or_create_session`.
  unfoldable pub resolve_or_create_session :
      Option String → ℕ → List String → ℕ → HandoffStore → Outcome (String × String × Bool)
  resolve_or_create_session submitted now candidates at s =
      elim (submitted_session now s submitted) [
        | some (binding, cookie) ↦ (ok (binding, cookie, false), s)
        | none ↦ new_session now candidates at s
      ]
