-- ===== src/Handoff/Atomic.antt =====
-- What a failed `create` leaves, what `consume` returns, and that it returns it once.
use orbit_mind_living_q_core.Common.{
  ℕ, ◌+◌, ◌≡◌, refl, ap, ◌∙◌, String, Bool, true, false, not, Option, none, some, List, [], ◌∷◌,
  leb, length, if◌then◌else◌, string_eq, ok, err, get, add, remove, remove-add, arith,
}
use orbit_mind_living_q_core.Handoff.Contracts.{
  DiagnosticEventType, DiagnosticReason, Limits, HandoffInput, HandoffCreation, SessionEntry,
  HandoffError, unavailable_error, is_token,
}
use orbit_mind_living_q_core.Handoff.Sessions.{
  HandoffStore, Functions, Outcome, event, remove_expired, submitted_session, new_session,
  create_session, resolve_or_create_session,
}
use orbit_mind_living_q_core.Handoff.Store.{
  remove_new_session, store_record, create_locked, drop_on_error, create_in_session, create,
}

-- The two tables are the same.
pub record SameTables (s t : HandoffStore) : Type 0 where
  pub records : t.records ≡ s.records
  pub sessions : t.sessions ≡ s.sessions

module _ (limits : Limits) (functions : Functions) where
  -- How the session of a call was found: it was there, or it is new.
  pub data Resolved (s : HandoffStore) : Outcome (String × String × Bool) → Type 0 where
    failed : (e : HandoffError) (t : HandoffStore) → SameTables s t → Resolved s (err e, t)
    existing : (binding cookie : String) → Resolved s (ok (binding, cookie, false), s)
    made :
        (binding cookie : String) (entry : SessionEntry)
        → get binding s.sessions ≡ none
        → Resolved s
            (ok (binding, cookie, true), record s { sessions = add binding entry s.sessions })

  create_session-Resolved :
      (now : ℕ) (candidates : List String) (at : ℕ) (s : HandoffStore)
      → Resolved s (create_session limits functions now candidates at s)
  unfolding create_session event
  create_session-Resolved now [] at s = failed _ _ (record { records = refl; sessions = refl })
  create_session-Resolved now (cookie ∷ candidates) at s =
      by_token (is_token cookie) (get (functions.hmac s.hmac_key cookie) s.sessions)
        (create_session-Resolved now candidates at s) refl
    where
      by_token :
          (valid : Bool) (found : Option SessionEntry)
          → Resolved s (create_session limits functions now candidates at s)
          → get (functions.hmac s.hmac_key cookie) s.sessions ≡ found
          → Resolved s (
              if not valid
              then create_session limits functions now candidates at s
              else elim found [
                | some _ ↦ create_session limits functions now candidates at s
                | none ↦ (
                  ok (functions.hmac s.hmac_key cookie, cookie, true),
                  record s {
                    sessions =
                        add
                          (functions.hmac s.hmac_key cookie)
                          (record {
                            binding_digest = functions.hmac s.hmac_key cookie;
                            created_monotonic = now;
                            expires_monotonic = now + limits.session_ttl;
                          })
                          s.sessions;
                  },
                )
              ])
      by_token false found rest e = rest
      by_token true none rest e = made _ cookie _ e
      by_token true (some _) rest e = rest

  new_session-Resolved :
      (now : ℕ) (candidates : List String) (at : ℕ) (s : HandoffStore)
      → Resolved s (new_session limits functions now candidates at s)
  unfolding new_session event
  new_session-Resolved now candidates at s =
      by_room (leb limits.maximum_sessions (length s.sessions))
    where
      by_room :
          (full : Bool)
          → Resolved s (
              if full
              then (
                err HandoffError.capacity_error,
                event limits functions DiagnosticEventType.capacity_rejected
                    DiagnosticReason.session_capacity at s,
              )
              else create_session limits functions now candidates at s)
      by_room true = failed _ _ (record { records = refl; sessions = refl })
      by_room false = create_session-Resolved now candidates at s

  pub resolve-Resolved :
      (submitted : Option String) (now : ℕ) (candidates : List String) (at : ℕ) (s : HandoffStore)
      → Resolved s (resolve_or_create_session limits functions submitted now candidates at s)
  unfolding resolve_or_create_session
  resolve-Resolved submitted now candidates at s =
      by_session (submitted_session limits functions now s submitted)
    where
      by_session :
          (found : Option (String × String))
          → Resolved s (elim found [
            | some (binding, cookie) ↦ (ok (binding, cookie, false), s)
            | none ↦ new_session limits functions now candidates at s
          ])
      by_session none = new_session-Resolved now candidates at s
      by_session (some (binding, cookie)) = existing binding cookie

  -- A call under the lock that fails has changed neither table.
  create_locked_failed :
      (input : HandoffInput) (b cookie : String) (is_new : Bool) (now : ℕ)
      (candidates : List String) (at : ℕ) (s : HandoffStore) (e : HandoffError)
      → (create_locked limits functions input b cookie is_new now candidates at s).0 ≡ err e
      → SameTables s (create_locked limits functions input b cookie is_new now candidates at s).1
  unfolding create_locked store_record event
  create_locked_failed input b cookie is_new now candidates at s e h = record {
    records = ground arith;
    sessions = ground arith;
  }

  create_in_session_failed :
      (input : HandoffInput) (now : ℕ) (candidates : List String) (at : ℕ) (s : HandoffStore)
      (e : HandoffError) {o : Outcome (String × String × Bool)}
      → Resolved s o
      → (create_in_session limits functions input now candidates at o).0 ≡ err e
      → SameTables s (create_in_session limits functions input now candidates at o).1
  unfolding create_in_session drop_on_error remove_new_session
  create_in_session_failed input now candidates at s e (failed _ t same) h = same
  create_in_session_failed input now candidates at s e (existing b cookie) h =
      dropped (create_locked limits functions input b cookie false now candidates at s) h
        (create_locked_failed input b cookie false now candidates at s)
    where
      dropped :
          (o : Outcome HandoffCreation)
          → (drop_on_error limits functions b false o).0 ≡ err e
          → ((d : HandoffError) → o.0 ≡ err d → SameTables s o.1)
          → SameTables s (drop_on_error limits functions b false o).1
      dropped (ok c, t) h same = absurd (ground arith)
      dropped (err d, t) h same = same d refl
  create_in_session_failed input now candidates at s e (made b cookie entry new) h =
      dropped
        (create_locked limits functions input b cookie true now candidates at
          (record s { sessions = add b entry s.sessions }))
        h
        (create_locked_failed input b cookie true now candidates at
          (record s { sessions = add b entry s.sessions }))
    where
      dropped :
          (o : Outcome HandoffCreation)
          → (drop_on_error limits functions b true o).0 ≡ err e
          → ((d : HandoffError)
              → o.0 ≡ err d
              → SameTables (record s { sessions = add b entry s.sessions }) o.1)
          → SameTables s (drop_on_error limits functions b true o).1
      dropped (ok c, t) h same = absurd (ground arith)
      dropped (err d, t) h same = record {
        records = (same d refl).records;
        sessions = ap (remove b) (same d refl).sessions ∙ remove-add b entry s.sessions new;
      }

  -- A `create` that fails on an open store leaves the records and sessions exactly as the expiry
  -- at its start left them: no record is stored, and a session made for the call is gone again.
  pub create-atomic :
      (input : HandoffInput) (submitted : Option String) (now at : ℕ) (cs ts : List String)
      (s : HandoffStore) (e : HandoffError)
      → s.closed ≡ false
      → (create limits functions input submitted now at cs ts s).0 ≡ err e
      → SameTables
          (remove_expired limits functions now at s)
          (create limits functions input submitted now at cs ts s).1
  unfolding create
  create-atomic input submitted now at cs ts s e is_open = open_case s.closed is_open
    where
      open_case :
          (closed : Bool)
          → closed ≡ false
          → (if closed
              then (err unavailable_error, s)
              else create_in_session limits functions input now ts at (
                  resolve_or_create_session limits functions submitted now cs at
                    (remove_expired limits functions now at s))).0
            ≡ err e
          → SameTables
              (remove_expired limits functions now at s)
              (if closed
                then (err unavailable_error, s)
                else create_in_session limits functions input now ts at (
                    resolve_or_create_session limits functions submitted now cs at
                      (remove_expired limits functions now at s))).1
      open_case true c h = absurd (ground arith)
      open_case false c h =
          create_in_session_failed input now ts at (remove_expired limits functions now at s) e
            (resolve-Resolved submitted now cs at (remove_expired limits functions now at s)) h
