-- ===== src/Handoff/Consume.antt =====
-- What `consume` returns and to whom, that its record is gone then, and that a cleared store returns
-- nothing.
use orbit_mind_living_q_core.Common.{
  ℕ, ◌<◌, ◌≡◌, refl, String, not, Option, none, some, List, string_eq, ok, err, get, get-remove,
  get-keep-none, arith, Option-cases, inl, inr,
}
use orbit_mind_living_q_core.Handoff.Contracts.{
  Limits, HandoffInput, HandoffRecord, SessionEntry, unavailable_error, replay_purpose,
}
use orbit_mind_living_q_core.Handoff.Sessions.{
  HandoffStore, Functions, event, is_expired, remove_expired, binding_for_valid_cookie,
  live_session,
}
use orbit_mind_living_q_core.Handoff.Store.{
  clear, is_owner, consume_record, consume_digest, consume, create,
}

module _ (limits : Limits) (functions : Functions) where
  -- The record is stored under the token, meant for the replay, fresh, and owned by the live
  -- session of the cookie.
  pub record Owned (token : String) (submitted : Option String) (now : ℕ) (s : HandoffStore)
      (r : HandoffRecord) : Type 0 where
    pub stored : get (functions.sha256 token) s.records ≡ some r
    pub purpose : r.purpose ≡ replay_purpose
    pub fresh : now < r.expires_monotonic
    pub session_fresh : now < r.session_expires_monotonic
    pub cookie : String
    pub submitted_cookie : submitted ≡ some cookie
    pub owner : r.session_binding_digest ≡ functions.hmac s.hmac_key cookie
    pub session : SessionEntry
    pub in_session : get (functions.hmac s.hmac_key cookie) s.sessions ≡ some session
    pub live : now < session.expires_monotonic

  consume_digest-Owned :
      (token : String) (submitted : Option String) (now at : ℕ) (s : HandoffStore)
      (r : HandoffRecord)
      → (consume_digest limits functions
          (functions.sha256 token)
          (binding_for_valid_cookie limits functions s submitted)
          now
          at
          s).0
        ≡ ok r
      → Owned token submitted now s r
  unfolding consume_digest consume_record is_owner is_expired binding_for_valid_cookie live_session
  consume_digest-Owned token none now at s r h = absurd (ground arith)
  consume_digest-Owned token (some cookie) now at s r h =
      elim (Option-cases (get (functions.sha256 token) s.records)) [
        | inl missing ↦ absurd (ground arith)
        | inr (a, found) ↦ elim (Option-cases (get (functions.hmac s.hmac_key cookie) s.sessions)) [
          | inl missing ↦ absurd (ground arith)
          | inr (session, in_session) ↦ record {
            stored = ground arith;
            purpose = ground arith;
            fresh = ground arith;
            session_fresh = ground arith;
            cookie = cookie;
            submitted_cookie = refl;
            owner = ground arith;
            session = session;
            in_session = in_session;
            live = ground arith;
          }
        ]
      ]

  -- A record that `consume` returns is stored, after the expiry of that call, under the digest of
  -- the token; it is meant for the replay and fresh, and the submitted cookie is that of the live
  -- session that owns it.
  pub consume-Owned :
      (token : String) (submitted : Option String) (now at : ℕ) (s : HandoffStore)
      (r : HandoffRecord)
      → (consume limits functions token submitted now at s).0 ≡ ok r
      → Owned token submitted now (remove_expired limits functions now at s) r
  unfolding consume remove_expired binding_for_valid_cookie
  consume-Owned token submitted now at s r h =
      consume_digest-Owned token submitted now at (remove_expired limits functions now at s) r
        (ground arith)

  consume_digest_gone :
      (digest : String) (b : Option String) (now at : ℕ) (s : HandoffStore) (r : HandoffRecord)
      → (consume_digest limits functions digest b now at s).0 ≡ ok r
      → get digest (consume_digest limits functions digest b now at s).1.records ≡ none
  unfolding consume_digest consume_record event
  consume_digest_gone digest b now at s r h = ground (arith, get-remove digest s.records)

  pub consume_gone :
      (token : String) (submitted : Option String) (now at : ℕ) (s : HandoffStore)
      (r : HandoffRecord)
      → (consume limits functions token submitted now at s).0 ≡ ok r
      → get (functions.sha256 token) (consume limits functions token submitted now at s).1.records
        ≡ none
  unfolding consume
  consume_gone token submitted now at s r h = ground (
    arith,
    consume_digest_gone (functions.sha256 token)
        (binding_for_valid_cookie limits functions s submitted) now at
        (remove_expired limits functions now at s) r,
  )

  pub gone-unavailable :
      (token : String) (submitted : Option String) (now at : ℕ) (s : HandoffStore)
      → get (functions.sha256 token) s.records ≡ none
      → (consume limits functions token submitted now at s).0 ≡ err unavailable_error
  unfolding consume consume_digest remove_expired
  gone-unavailable token submitted now at s h = ground (
    arith,
    get-keep-none (functions.sha256 token) (λ e. not (is_expired limits functions now e.1))
        s.records h,
  )

  -- A cleared store refuses every `create` and every `consume`, and no call changes it.
  pub clear-final :
      (s : HandoffStore) (input : HandoffInput) (token : String) (submitted : Option String)
      (now at : ℕ) (cs ts : List String)
      → (create limits functions input submitted now at cs ts (clear s)
          ≡ (err unavailable_error, clear s))
        × (consume limits functions token submitted now at (clear s)
            ≡ (err unavailable_error, clear s))
  unfolding clear create consume
  clear-final s input token submitted now at cs ts = (refl, ground arith)
