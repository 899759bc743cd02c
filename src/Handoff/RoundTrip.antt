-- ===== src/Handoff/RoundTrip.antt =====
-- A record that `create` has stored is what `consume` returns for its token and cookie.
use orbit_mind_living_q_core.Common.{
  ℕ, ◌+◌, ◌≡◌, refl, sym, ap, String, Bool, true, false, not, Option, none, some, List, [], ◌∷◌,
  leb, if◌then◌else◌, string_eq, ok, err, get, add, get-add, get-keep-some, arith, Option-cases,
  Bool-cases, inl, inr,
}
use orbit_mind_living_q_core.Handoff.Contracts.{
  Limits, HandoffInput, HandoffRecord, HandoffCreation, SessionEntry, replay_purpose, is_token,
}
use orbit_mind_living_q_core.Handoff.Sessions.{
  HandoffStore, Functions, Outcome, event, is_expired, remove_expired, binding_for_valid_cookie,
  live_session, submitted_session, new_session, create_session, resolve_or_create_session,
}
use orbit_mind_living_q_core.Handoff.Store.{
  unique_token, store_record, create_locked, drop_on_error, create_in_session, create, is_owner,
  consume_record, consume_digest, consume,
}

-- The cookie that the client has after the call: the new one, if it got one.
abbrev pub cookie_after : Option String → HandoffCreation → Option String
cookie_after submitted c = elim c.session_cookie_value [
  | none ↦ submitted
  | some cookie ↦ some cookie
]

module _ (limits : Limits) (functions : Functions) where
  -- The token and the cookie find the record and its session.
  record Holds (s : HandoffStore) (token : String) (submitted : Option String) (r : HandoffRecord)
      : Type 0 where
    pub is_open : s.closed ≡ false
    pub valid : is_token token ≡ true
    pub stored : get (functions.sha256 token) s.records ≡ some r
    pub purpose : r.purpose ≡ replay_purpose
    pub cookie : String
    pub submitted_cookie : submitted ≡ some cookie
    pub valid_cookie : is_token cookie ≡ true
    pub owner : r.session_binding_digest ≡ functions.hmac s.hmac_key cookie
    pub session : SessionEntry
    pub in_session : get (functions.hmac s.hmac_key cookie) s.sessions ≡ some session
    pub expires : r.session_expires_monotonic ≡ session.expires_monotonic

  consume-Holds :
      (s : HandoffStore) (token : String) (submitted : Option String) (r : HandoffRecord)
      (now at : ℕ)
      → Holds s token submitted r
      → is_expired limits functions now r ≡ false
      → (consume limits functions token submitted now at s).0 ≡ ok r
  unfolding consume consume_digest consume_record is_owner live_session binding_for_valid_cookie
      remove_expired is_expired
  consume-Holds s token submitted r now at h fresh =
      let kept =
        get-keep-some (functions.sha256 token) (λ e. not (is_expired limits functions now e.1)) r
          s.records h.stored (ground arith) in
      let live =
        get-keep-some (functions.hmac s.hmac_key h.cookie)
          (λ e. not (leb e.1.expires_monotonic now)) h.session s.sessions h.in_session
          (ground (arith, h.expires)) in
      ground (arith, h.is_open, h.valid, h.purpose, h.submitted_cookie, h.valid_cookie, h.owner)

  unique_token_new :
      (candidates : List String) (s : HandoffStore) (token : String)
      → unique_token limits functions candidates s ≡ some token
      → (is_token token ≡ true) × (get (functions.sha256 token) s.records ≡ none)
  unfolding unique_token
  unique_token_new [] s token h = cc
  unique_token_new (c ∷ cs) s token h = elim (Option-cases (get (functions.sha256 c) s.records)) [
    | inl free ↦ ground (arith, unique_token_new cs s token)
    | inr (r, taken) ↦ ground (arith, unique_token_new cs s token)
  ]

  -- The session that a call resolved to is that of a valid cookie which the client has.
  record Bound (s : HandoffStore) (submitted : Option String) (binding cookie : String)
      (is_new : Bool) : Type 0 where
    pub is_open : s.closed ≡ false
    pub valid_cookie : is_token cookie ≡ true
    pub bound : functions.hmac s.hmac_key cookie ≡ binding
    pub held : is_new ≡ false → submitted ≡ some cookie

  create_locked-Holds :
      (input : HandoffInput) (submitted : Option String) (binding cookie : String) (is_new : Bool)
      (now at : ℕ) (candidates : List String) (s : HandoffStore) (c : HandoffCreation)
      (t : HandoffStore)
      → Bound s submitted binding cookie is_new
      → create_locked limits functions input binding cookie is_new now candidates at s ≡ (ok c, t)
      → (r : HandoffRecord) × (r.input ≡ input)
        × (r.expires_monotonic ≡ now + limits.handoff_ttl)
        × Holds t c.handoff_token (cookie_after submitted c) r
  unfolding create_locked store_record event
  create_locked-Holds input submitted binding cookie is_new now at candidates s c t b h =
      elim (Option-cases (get binding s.sessions)) [
        | inl missing ↦ absurd (ground arith)
        | inr (session, found) ↦ elim (Option-cases (unique_token limits functions candidates s)) [
          | inl none_free ↦ absurd (ground arith)
          | inr (token, free) ↦
              let (valid, new) = unique_token_new candidates s token free in
              let r : HandoffRecord = record {
                session_binding_digest = binding;
                purpose = replay_purpose;
                created_monotonic = now;
                expires_monotonic = now + limits.handoff_ttl;
                session_expires_monotonic = session.expires_monotonic;
                input = input;
                schema_version = "custom-tle-handoff-record-v1";
              } in
              let token_is : c.handoff_token ≡ token = ground arith in
              let key : t.hmac_key ≡ s.hmac_key = ground arith in
              let added : t.records ≡ add (functions.sha256 token) r s.records = ground arith in
              let sessions : t.sessions ≡ s.sessions = ground arith in
              let cookie_is : c.session_cookie_value ≡ (if is_new then some cookie else none) =
                ground arith in
              let same_binding = b.bound in
              (
                r,
                refl,
                refl,
                record {
                  is_open = ground (arith, b.is_open);
                  valid = rw token_is valid;
                  stored = rw (token_is, added) (get-add (functions.sha256 token) r s.records new);
                  purpose = refl;
                  cookie = cookie;
                  submitted_cookie = rw cookie_is (held_cookie submitted cookie is_new b.held);
                  valid_cookie = b.valid_cookie;
                  owner = rw key (sym b.bound);
                  session = session;
                  in_session = rw (key, sessions, b.bound) found;
                  expires = refl;
                },
              )
        ]
      ]
    where
      held_cookie :
          (submitted : Option String) (cookie : String) (is_new : Bool)
          → (is_new ≡ false → submitted ≡ some cookie)
          → elim (if is_new then some cookie else none) as (λ _. Option String) [
            | none ↦ submitted
            | some k ↦ some k
          ]
            ≡ some cookie
      held_cookie submitted cookie true h = refl
      held_cookie submitted cookie false h = h refl

  create_session-Bound :
      (submitted : Option String) (now : ℕ) (candidates : List String) (at : ℕ) (s : HandoffStore)
      (binding cookie : String) (is_new : Bool) (t : HandoffStore)
      → s.closed ≡ false
      → create_session limits functions now candidates at s ≡ (ok (binding, cookie, is_new), t)
      → Bound t submitted binding cookie is_new
  unfolding create_session
  create_session-Bound submitted now [] at s binding cookie is_new t is_open h =
      absurd (ground arith)
  create_session-Bound submitted now (k ∷ ks) at s binding cookie is_new t is_open h =
      elim (Option-cases (get (functions.hmac s.hmac_key k) s.sessions)) [
        | inl free ↦ elim (Bool-cases (is_token k)) [
          | inl valid ↦
              let same : k ≡ cookie = ground arith in
              let key : t.hmac_key ≡ s.hmac_key = ground arith in
              record {
                is_open = ground arith;
                valid_cookie = ground arith;
                bound = ground arith;
                held = λ e. absurd (ground arith);
              }
          | inr invalid ↦
              create_session-Bound submitted now ks at s binding cookie is_new t is_open
                (ground arith)
        ]
        | inr (e, taken) ↦
            create_session-Bound submitted now ks at s binding cookie is_new t is_open
              (ground arith)
      ]

  submitted_session-Bound :
      (submitted : Option String) (now : ℕ) (s : HandoffStore) (binding cookie : String)
      → s.closed ≡ false
      → submitted_session limits functions now s submitted ≡ some (binding, cookie)
      → Bound s submitted binding cookie false
  unfolding submitted_session binding_for_valid_cookie
  submitted_session-Bound none now s binding cookie is_open h = absurd (ground arith)
  submitted_session-Bound (some k) now s binding cookie is_open h =
      elim (Option-cases (live_session limits functions now s (functions.hmac s.hmac_key k))) [
        | inl missing ↦ absurd (ground arith)
        | inr (e, found) ↦
            let same : k ≡ cookie = ground arith in
            record {
              is_open = is_open;
              valid_cookie = ground arith;
              bound = ground arith;
              held = λ _. ap some same;
            }
      ]

  resolve-Bound :
      (submitted : Option String) (now : ℕ) (candidates : List String) (at : ℕ) (s : HandoffStore)
      (binding cookie : String) (is_new : Bool) (t : HandoffStore)
      → s.closed ≡ false
      → resolve_or_create_session limits functions submitted now candidates at s
        ≡ (ok (binding, cookie, is_new), t)
      → Bound t submitted binding cookie is_new
  unfolding resolve_or_create_session new_session
  resolve-Bound submitted now candidates at s binding cookie is_new t is_open h =
      elim (Option-cases (submitted_session limits functions now s submitted)) [
        | inl missing ↦
            create_session-Bound submitted now candidates at s binding cookie is_new t is_open
              (ground arith)
        | inr ((b, k), found) ↦ existing b k found
      ]
    where
      existing :
          (b k : String)
          → submitted_session limits functions now s submitted ≡ some (b, k)
          → Bound t submitted binding cookie is_new
      existing b k found =
          let before = submitted_session-Bound submitted now s b k is_open found in
          let store : s ≡ t = ground arith in
          let at_binding : b ≡ binding = ground arith in
          let at_cookie : k ≡ cookie = ground arith in
          let old : is_new ≡ false = ground arith in
          record {
            is_open = rw (← store) is_open;
            valid_cookie = rw (← at_cookie) before.valid_cookie;
            bound = rw (← store, ← at_cookie, ← at_binding) before.bound;
            held = λ _. rw (← at_cookie) (before.held refl);
          }

  create_in_session-Holds :
      (input : HandoffInput) (submitted : Option String) (now at : ℕ) (candidates : List String)
      (o : Outcome (String × String × Bool)) (c : HandoffCreation) (t : HandoffStore)
      → ((binding cookie : String) (is_new : Bool) (u : HandoffStore)
          → o ≡ (ok (binding, cookie, is_new), u)
          → Bound u submitted binding cookie is_new)
      → create_in_session limits functions input now candidates at o ≡ (ok c, t)
      → (r : HandoffRecord) × (r.input ≡ input)
        × (r.expires_monotonic ≡ now + limits.handoff_ttl)
        × Holds t c.handoff_token (cookie_after submitted c) r
  unfolding create_in_session drop_on_error
  create_in_session-Holds input submitted now at candidates (err e, s) c t bound h =
      absurd (ground arith)
  create_in_session-Holds input submitted now at candidates (ok (binding, cookie, is_new), s) c t
        bound h =
      create_locked-Holds input submitted binding cookie is_new now at candidates s c t
        (bound binding cookie is_new s refl)
        (not_dropped
          (create_locked limits functions input binding cookie is_new now candidates at s) h)
    where
      not_dropped :
          (o : Outcome HandoffCreation)
          → drop_on_error limits functions binding is_new o ≡ (ok c, t)
          → o ≡ (ok c, t)
      not_dropped (ok d, u) e = e
      not_dropped (err d, u) e = absurd (ground arith)

  -- A `create` that succeeds has stored a record of its input that expires after the time to live:
  -- `consume` of the returned token with the cookie that the client then has returns this record
  -- at any later time at which neither it nor its session has expired.
  pub create-consume :
      (input : HandoffInput) (submitted : Option String) (now at : ℕ) (cs ts : List String)
      (s : HandoffStore) (c : HandoffCreation) (t : HandoffStore)
      → create limits functions input submitted now at cs ts s ≡ (ok c, t)
      → (r : HandoffRecord) × (r.input ≡ input)
        × (r.expires_monotonic ≡ now + limits.handoff_ttl)
        × ((later at' : ℕ)
            → is_expired limits functions later r ≡ false
            → (consume limits functions c.handoff_token (cookie_after submitted c) later at' t).0
              ≡ ok r)
  unfolding create remove_expired
  create-consume input submitted now at cs ts s c t h = elim (Bool-cases s.closed) [
    | inl closed ↦ absurd (ground arith)
    | inr is_open ↦
        let u = remove_expired limits functions now at s in
        let (r, same, expiry, holds) =
          create_in_session-Holds input submitted now at ts
            (resolve_or_create_session limits functions submitted now cs at u) c t
            (λ b k n v e. resolve-Bound submitted now cs at u b k n v is_open e) (ground arith) in
        (
          r,
          same,
          expiry,
          λ later at' fresh.
              consume-Holds t c.handoff_token (cookie_after submitted c) r later at' holds fresh,
        )
  ]
