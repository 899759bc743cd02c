-- ===== src/Handoff/Bounds.antt =====
-- The bounds of the hand-off store over every history of calls, and what a failed `create` leaves.
use orbit_mind_living_q_core.Common.{
  ℕ, ◌≤◌, ◌≡◌, ap, String, Bool, true, false, not, Option, List, [], ◌∷◌, leb, length,
  length-append, if◌then◌else◌, string_eq, ◌==◌, ◌!=◌, ok, err, Dict, add, remove, keep,
  keep_last-length, length-keep, keep-keep-length, keep-append, arith,
}
use orbit_mind_living_q_core.Handoff.Contracts.{
  DiagnosticEventType, DiagnosticReason, Limits, HandoffInput, HandoffRecord, HandoffCreation,
  SessionEntry, DiagnosticEvent,
}
use orbit_mind_living_q_core.Handoff.Sessions.{
  HandoffStore, Functions, Outcome, new_store, push_event, event, is_expired, expiry_events,
  remove_expired, new_session, create_session, resolve_or_create_session,
}
use orbit_mind_living_q_core.Handoff.Store.{
  session_records, remove_new_session, clear, store_record, create_locked, drop_on_error,
  create_in_session, create, consume_record, consume_digest, consume,
}

module _ (limits : Limits) (functions : Functions) where
  open limits use {
    maximum_records, maximum_records_per_session, maximum_sessions, maximum_diagnostic_events,
  }

  -- Every table is within its bound, and every session within its own.
  pub record IsBounded (s : HandoffStore) : Type 0 where
    pub records : length s.records ≤ maximum_records
    pub per_session :
        (b : String) → length (session_records b s.records) ≤ maximum_records_per_session
    pub sessions : length s.sessions ≤ maximum_sessions
    pub events : length s.events ≤ maximum_diagnostic_events

  push_event_bound :
      (k : DiagnosticEventType) (r : DiagnosticReason) (at : ℕ) (es : List DiagnosticEvent)
      → length (push_event limits functions k r at es) ≤ maximum_diagnostic_events
  unfolding push_event
  push_event_bound k r at es = keep_last-length maximum_diagnostic_events _

  event-IsBounded :
      (k : DiagnosticEventType) (r : DiagnosticReason) (at : ℕ) (s : HandoffStore)
      → IsBounded s
      → IsBounded (event limits functions k r at s)
  unfolding event
  event-IsBounded k r at s h = record {
    records = h.records;
    per_session = h.per_session;
    sessions = h.sessions;
    events = push_event_bound k r at s.events;
  }

  expiry_events_bound :
      (at : ℕ) (rs : Dict HandoffRecord) (es : List DiagnosticEvent)
      → length es ≤ maximum_diagnostic_events
      → length (expiry_events limits functions at rs es) ≤ maximum_diagnostic_events
  unfolding expiry_events
  expiry_events_bound at [] es h = h
  expiry_events_bound at (r ∷ rs) es h = expiry_events_bound at rs _ (push_event_bound _ _ at es)

  kept_per_session :
      (p : String × HandoffRecord → Bool) (rs : Dict HandoffRecord)
      → ((b : String) → length (session_records b rs) ≤ maximum_records_per_session)
      → (b : String) → length (session_records b (keep p rs)) ≤ maximum_records_per_session
  unfolding session_records
  kept_per_session p rs h b =
      let shorter = keep-keep-length (λ e. e.1.session_binding_digest == b) p rs in
      let before = h b in omega arith

  -- Fewer records and sessions are within the bounds.
  remove_expired-IsBounded :
      (now at : ℕ) (s : HandoffStore)
      → IsBounded s
      → IsBounded (remove_expired limits functions now at s)
  unfolding remove_expired
  remove_expired-IsBounded now at s h = record {
    records =
        omega (
          arith,
          length-keep (λ e. not (is_expired limits functions now e.1)) s.records,
          h.records,
        );
    per_session = kept_per_session _ s.records h.per_session;
    sessions =
        omega
          (arith, length-keep (λ e. not (leb e.1.expires_monotonic now)) s.sessions, h.sessions);
    events = expiry_events_bound at _ s.events h.events;
  }

  remove-IsBounded :
      (digest : String) (s : HandoffStore)
      → IsBounded s
      → IsBounded (record s { records = remove digest s.records })
  unfolding remove
  remove-IsBounded digest s h = record {
    records = omega (arith, length-keep (λ e. e.0 != digest) s.records, h.records);
    per_session = kept_per_session _ s.records h.per_session;
    sessions = h.sessions;
    events = h.events;
  }

  consume-IsBounded :
      (token : String) (submitted : Option String) (now at : ℕ) (s : HandoffStore)
      → IsBounded s
      → IsBounded (consume limits functions token submitted now at s).1
  unfolding consume consume_digest consume_record
  consume-IsBounded token submitted now at s h =
      grind (arith, event-IsBounded, remove-IsBounded, remove_expired-IsBounded now at s h)

  add-per_session :
      (digest : String) (r : HandoffRecord) (rs : Dict HandoffRecord)
      → ((b : String) → length (session_records b rs) ≤ maximum_records_per_session)
      → leb maximum_records_per_session (length (session_records r.session_binding_digest rs))
        ≡ false
      → (b : String) → length (session_records b (add digest r rs)) ≤ maximum_records_per_session
  unfolding session_records add
  add-per_session digest r rs h room b =
      let split = keep-append (λ e. e.1.session_binding_digest == b) rs ((digest, r) ∷ []) in
      let counted =
        length-append (keep (λ e. e.1.session_binding_digest == b) rs)
          (keep (λ e. e.1.session_binding_digest == b) ((digest, r) ∷ [])) in
      let before = h b in ground (arith, ap length split)

  add-IsBounded :
      (digest : String) (r : HandoffRecord) (s : HandoffStore)
      → IsBounded s
      → leb maximum_records (length s.records) ≡ false
      → leb maximum_records_per_session
          (length (session_records r.session_binding_digest s.records))
        ≡ false
      → IsBounded (record s { records = add digest r s.records })
  unfolding add
  add-IsBounded digest r s h room own = record {
    records = ground (arith, length-append s.records ((digest, r) ∷ []), h.records);
    per_session = add-per_session digest r s.records h.per_session own;
    sessions = h.sessions;
    events = h.events;
  }

  create_locked-IsBounded :
      (input : HandoffInput) (b cookie : String) (is_new : Bool) (now : ℕ)
      (candidates : List String) (at : ℕ) (s : HandoffStore)
      → IsBounded s
      → IsBounded (create_locked limits functions input b cookie is_new now candidates at s).1
  unfolding create_locked store_record
  create_locked-IsBounded input b cookie is_new now candidates at s h =
      grind (arith, event-IsBounded, add-IsBounded)

  create_session-IsBounded :
      (now : ℕ) (candidates : List String) (at : ℕ) (s : HandoffStore)
      → IsBounded s
      → leb maximum_sessions (length s.sessions) ≡ false
      → IsBounded (create_session limits functions now candidates at s).1
  unfolding create_session add
  create_session-IsBounded now [] at s h room = event-IsBounded _ _ at s h
  create_session-IsBounded now (cookie ∷ candidates) at s h room =
      grind (arith, create_session-IsBounded now candidates at s h room, more)
    where
      more :
          (b : String) (e : SessionEntry) → IsBounded (record s { sessions = add b e s.sessions })
      more b e = record {
        records = h.records;
        per_session = h.per_session;
        sessions = ground (arith, length-append s.sessions ((b, e) ∷ []));
        events = h.events;
      }

  resolve_or_create_session-IsBounded :
      (submitted : Option String) (now : ℕ) (candidates : List String) (at : ℕ) (s : HandoffStore)
      → IsBounded s
      → IsBounded (resolve_or_create_session limits functions submitted now candidates at s).1
  unfolding resolve_or_create_session new_session
  resolve_or_create_session-IsBounded submitted now candidates at s h =
      grind (arith, event-IsBounded, create_session-IsBounded now candidates at s h)

  drop_on_error-IsBounded :
      (b : String) (is_new : Bool) (o : Outcome HandoffCreation)
      → IsBounded o.1
      → IsBounded (drop_on_error limits functions b is_new o).1
  unfolding drop_on_error remove_new_session remove
  drop_on_error-IsBounded b is_new (ok c, t) h = h
  drop_on_error-IsBounded b false (err e, t) h = h
  drop_on_error-IsBounded b true (err e, t) h = record {
    records = h.records;
    per_session = h.per_session;
    sessions = omega (arith, length-keep (λ e. e.0 != b) t.sessions, h.sessions);
    events = h.events;
  }

  create_in_session-IsBounded :
      (input : HandoffInput) (now : ℕ) (candidates : List String) (at : ℕ)
      (o : Outcome (String × String × Bool))
      → IsBounded o.1
      → IsBounded (create_in_session limits functions input now candidates at o).1
  unfolding create_in_session
  create_in_session-IsBounded input now candidates at (err e, s) h = h
  create_in_session-IsBounded input now candidates at (ok (b, cookie, is_new), s) h =
      drop_on_error-IsBounded b is_new _
        (create_locked-IsBounded input b cookie is_new now candidates at s h)

  if-IsBounded :
      (test : Bool) (o p : Outcome HandoffCreation)
      → IsBounded o.1
      → IsBounded p.1
      → IsBounded (if test then o else p).1
  if-IsBounded true o p h k = h
  if-IsBounded false o p h k = k

  create-IsBounded :
      (input : HandoffInput) (submitted : Option String) (now at : ℕ) (cs ts : List String)
      (s : HandoffStore)
      → IsBounded s
      → IsBounded (create limits functions input submitted now at cs ts s).1
  unfolding create
  create-IsBounded input submitted now at cs ts s h = if-IsBounded s.closed _ _ h (
      create_in_session-IsBounded input now ts at _ (
        resolve_or_create_session-IsBounded submitted now cs at _
          (remove_expired-IsBounded now at s h)))

  -- One call of the store, whatever its outcome.
  pub data Step (s : HandoffStore) : HandoffStore → Type 0 where
    created :
        (input : HandoffInput) (submitted : Option String) (now at : ℕ) (cs ts : List String)
        → Step s (create limits functions input submitted now at cs ts s).1
    consumed :
        (token : String) (submitted : Option String) (now at : ℕ)
        → Step s (consume limits functions token submitted now at s).1
    cleared : Step s (clear s)

  pub data Reachable (key : String) : HandoffStore → Type 0 where
    start : Reachable key (new_store key)
    step : {s t : HandoffStore} → Reachable key s → Step s t → Reachable key t

  empty-IsBounded :
      (key : String) (closed : Bool)
      → IsBounded
          (record { sessions = []; records = []; events = []; hmac_key = key; closed = closed })
  unfolding session_records
  empty-IsBounded key closed = record {
    records = omega arith;
    per_session = λ b. omega arith;
    sessions = omega arith;
    events = omega arith;
  }

  Step-IsBounded : {s t : HandoffStore} → Step s t → IsBounded s → IsBounded t
  unfolding clear
  Step-IsBounded {s} (created input submitted now at cs ts) h =
      create-IsBounded input submitted now at cs ts s h
  Step-IsBounded {s} (consumed token submitted now at) h =
      consume-IsBounded token submitted now at s h
  Step-IsBounded cleared h = empty-IsBounded "" true

  -- After any history of calls, failed ones included, the store holds no more records, records of
  -- one session, sessions and events than its limits say.
  pub Reachable-IsBounded : (key : String) {s : HandoffStore} → Reachable key s → IsBounded s
  Reachable-IsBounded key start = empty-IsBounded key false
  Reachable-IsBounded key (step r st) = Step-IsBounded st (Reachable-IsBounded key r)
