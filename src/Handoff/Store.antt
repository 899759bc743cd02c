-- ===== src/Handoff/Store.antt =====
-- src/orbitmind/api/transient_handoff.py: `create`, `consume` and `clear`.
use orbit_mind_living_q_core.Common.{
  ℕ, ◌+◌, String, Bool, true, false, not, Option, none, some, List, [], ◌∷◌, ltb, leb, length,
  if◌then◌else◌, string_eq, ◌==◌, ◌!=◌, ok, err, Dict, get, add, remove, keep,
}
use orbit_mind_living_q_core.Handoff.Contracts.{
  DiagnosticEventType, DiagnosticReason, unavailable_error, capacity_error, record_error, Limits,
  HandoffInput, HandoffRecord, HandoffCreation, replay_purpose, record_schema_version, is_token,
  logical_size_bytes, validate_record_fields, SessionEntry,
}
use orbit_mind_living_q_core.Handoff.Sessions.{
  HandoffStore, Functions, Outcome, event, is_expired, remove_expired, binding_for_valid_cookie,
  resolve_or_create_session, live_session,
}

-- The records of a session.
unfoldable pub session_records : String → Dict HandoffRecord → Dict HandoffRecord
session_records binding records = keep (λ e. e.1.session_binding_digest == binding) records

-- `_remove_new_session`.
unfoldable pub remove_new_session : String → Bool → HandoffStore → HandoffStore
remove_new_session binding is_new s =
    if is_new then record s { sessions = remove binding s.sessions } else s

-- `clear`.
unfoldable pub clear : HandoffStore → HandoffStore
clear s = record { sessions = []; records = []; events = []; hmac_key = ""; closed = true }

module _ (limits : Limits) (functions : Functions) where
  open limits use {
    handoff_ttl, maximum_records, maximum_records_per_session, maximum_logical_record_bytes,
  }
  open functions use {sha256, canonical_utc}

  -- The record that `_create_locked` builds.
  abbrev pub new_record : HandoffInput → String → ℕ → SessionEntry → HandoffRecord
  new_record input binding now session = record {
    session_binding_digest = binding;
    purpose = replay_purpose;
    created_monotonic = now;
    expires_monotonic = now + handoff_ttl;
    session_expires_monotonic = session.expires_monotonic;
    input = input;
    schema_version = record_schema_version;
  }

  -- The candidate that `_new_unique_token` returns, if there is one.
  unfoldable pub unique_token : List String → HandoffStore → Option String
  unique_token [] s = none
  unique_token (token ∷ candidates) s =
      let rest = unique_token candidates s in
      if not (is_token token)
      then rest
      else elim (get (sha256 token) s.records) [ some _ ↦ rest | none ↦ some token ]

  -- The end of `_create_locked`: the token and the new record.
  unfoldable pub store_record :
      HandoffRecord → Option String → List String → ℕ → HandoffStore → Outcome HandoffCreation
  store_record r cookie candidates at s = elim (unique_token candidates s) [
    | none ↦ (
      err capacity_error,
      event limits functions DiagnosticEventType.rejected DiagnosticReason.collision_limit at s,
    )
    | some token ↦ (
      ok (record { handoff_token = token; session_cookie_value = cookie }),
      event limits functions DiagnosticEventType.created DiagnosticReason.created at
          (record s { records = add (sha256 token) r s.records }),
    )
  ]

  -- `_create_locked`.
  unfoldable pub create_locked :
      HandoffInput
      → String
      → String
      → Bool
      → ℕ
      → List String
      → ℕ
      → HandoffStore
      → Outcome HandoffCreation
  create_locked input binding cookie is_new now candidates at s =
      if leb maximum_records (length s.records)
      then (
        err capacity_error,
        event limits functions DiagnosticEventType.capacity_rejected
            DiagnosticReason.global_capacity at s,
      )
      else if leb maximum_records_per_session (length (session_records binding s.records))
      then (
        err capacity_error,
        event limits functions DiagnosticEventType.capacity_rejected
            DiagnosticReason.session_capacity at s,
      )
      else elim (get binding s.sessions) [
        | none ↦ (err capacity_error, s)
        | some session ↦
            let r = new_record input binding now session in
            if ltb maximum_logical_record_bytes (logical_size_bytes canonical_utc r)
            then (
              err record_error,
              event limits functions DiagnosticEventType.rejected DiagnosticReason.record_too_large
                  at s,
            )
            else if not (validate_record_fields canonical_utc r)
            then (err record_error, s)
            else store_record r (if is_new then some cookie else none) candidates at s
      ]

  -- The `except` of `create`: an error drops the session that was made for the call.
  unfoldable pub drop_on_error : String → Bool → Outcome HandoffCreation → Outcome HandoffCreation
  drop_on_error binding is_new (ok creation, t) = (ok creation, t)
  drop_on_error binding is_new (err e, t) = (err e, remove_new_session binding is_new t)

  -- The part of `create` from the resolved session on.
  unfoldable pub create_in_session :
      HandoffInput
      → ℕ
      → List String
      → ℕ
      → Outcome (String × String × Bool)
      → Outcome HandoffCreation
  create_in_session input now candidates at (err e, s) = (err e, s)
  create_in_session input now candidates at (ok (binding, cookie, is_new), s) =
      drop_on_error binding is_new (create_locked input binding cookie is_new now candidates at s)

  -- `create`, at the reading `now` of the clock and the time `at`, with the encoded random values.
  unfoldable pub create :
      HandoffInput
      → Option String
      → ℕ
      → ℕ
      → List String
      → List String
      → HandoffStore
      → Outcome HandoffCreation
  create input submitted now at session_candidates token_candidates s =
      if s.closed
      then (err unavailable_error, s)
      else create_in_session input now token_candidates at (
          resolve_or_create_session limits functions submitted now session_candidates at
            (remove_expired limits functions now at s))

  -- The session of the cookie owns the record and is live.
  unfoldable pub is_owner : ℕ → HandoffStore → Option String → HandoffRecord → Bool
  is_owner now s none r = false
  is_owner now s (some binding) r = elim (live_session limits functions now s binding) [
    | none ↦ false
    | some _ ↦ r.session_binding_digest == binding
  ]

  -- The part of `consume` with a record.
  unfoldable pub consume_record :
      String → HandoffRecord → Option String → ℕ → ℕ → HandoffStore → Outcome HandoffRecord
  consume_record digest r binding now at s =
      if r.purpose != replay_purpose
      then (
        err unavailable_error,
        event limits functions DiagnosticEventType.rejected DiagnosticReason.purpose_mismatch at s,
      )
      else if is_expired limits functions now r
      then (
        err unavailable_error,
        event limits functions DiagnosticEventType.expired DiagnosticReason.expired at
            (record s { records = remove digest s.records }),
      )
      else if not (is_owner now s binding r)
      then (
        err unavailable_error,
        event limits functions DiagnosticEventType.owner_mismatch DiagnosticReason.owner_mismatch at
            s,
      )
      else (
        ok r,
        event limits functions DiagnosticEventType.consumed DiagnosticReason.consumed at
            (record s { records = remove digest s.records }),
      )

  -- The part of `consume` under the lock, after the expiry.
  unfoldable pub consume_digest :
      String → Option String → ℕ → ℕ → HandoffStore → Outcome HandoffRecord
  consume_digest digest binding now at s = elim (get digest s.records) [
    | none ↦ (
      err unavailable_error,
      event limits functions DiagnosticEventType.rejected DiagnosticReason.unavailable at s,
    )
    | some r ↦ consume_record digest r binding now at s
  ]

  -- `consume`. (The binding is computed before the lock is taken: a `clear` in between closes the
  -- store, which is then refused.)
  unfoldable pub consume : String → Option String → ℕ → ℕ → HandoffStore → Outcome HandoffRecord
  consume token submitted now at s =
      if not (is_token token)
      then if s.closed then (err unavailable_error, s) else (
        err unavailable_error,
        event limits functions DiagnosticEventType.malformed_identifier
            DiagnosticReason.invalid_identifier at s,
      )
      else if s.closed
      then (err unavailable_error, s)
      else consume_digest (sha256 token) (binding_for_valid_cookie limits functions s submitted) now
          at (remove_expired limits functions now at s)
