-- ===== src/Csrf/Sessions.antt =====
-- That a page session which was issued is accepted.
use orbit_mind_living_q_core.Common.{
  ℕ, ◌+◌, ◌<◌, ◌≡◌, refl, ap, ◌∙◌, String, true, false, Option, none, some, [], ◌∷◌, string_eq,
  nat_eq, ◌==◌, ok, get, add, get-add, arith, Option-cases, inl, inr, eq_self,
}
use orbit_mind_living_q_core.Handoff.Contracts.{is_token}
use orbit_mind_living_q_core.Csrf.Contracts.{
  PageCsrfScope, scope_eq, PageCsrfPolicy, IssuedPageSession, PageCsrfProtocolAuthority,
  ProtocolPreflight, PageSessionRecord, Registry, Functions,
}
use orbit_mind_living_q_core.Csrf.Registry.{
  ttl_seconds, policy_of, policy_for_protocol, remove_expired, page_binding, drop_previous,
  issue_record, issue, validate_protocol_preflight, rotate_record, rotate_binding,
  accepts_preflight, validate_and_rotate,
}
use orbit_mind_living_q_core.Csrf.Rotation.{policy_for_protocol-policy_of}

module _ (functions : Functions) where
  open functions use {sha256}

  preflight_accepted :
      (authority : PageCsrfProtocolAuthority) (s : Registry) (preflight : ProtocolPreflight)
      → validate_protocol_preflight functions authority s ≡ ok preflight
      → (policy : PageCsrfPolicy) × (method : String) × (policy_for_protocol authority.scope
            authority.route s
          ≡ some (policy, method))
        × (accepts_preflight functions preflight authority.scope authority.route policy method s
            ≡ true)
  unfolding validate_protocol_preflight accepts_preflight
  preflight_accepted authority s preflight h =
      elim (Option-cases (policy_for_protocol authority.scope authority.route s)) [
        | inl missing ↦ absurd (ground arith)
        | inr ((policy, method), allowed) ↦ (policy, method, allowed, ground arith)
      ]

  -- The table holds the session that was issued.
  record Issued (policy : PageCsrfPolicy) (scope : PageCsrfScope) (now : ℕ) (id token : String)
      (session : IssuedPageSession) (t : Registry) : Type 0 where
    pub page_session_id : session.page_session_id ≡ id
    pub csrf_token : session.csrf_token ≡ token
    pub valid_id : is_token id ≡ true
    pub valid_token : is_token token ≡ true
    pub is_open : t.closed ≡ false
    pub policies : policy_of scope t.policies ≡ some policy
    pub stored :
        get (page_binding functions policy id t) t.records
        ≡ some (record {
          scope = scope;
          page_binding_digest = page_binding functions policy id t;
          csrf_token_digest = sha256 token;
          generation = 1;
          issued_at = now;
          expires_at = now + ttl_seconds;
          active = true;
        })

  issue_record-Issued :
      (policy : PageCsrfPolicy) (scope : PageCsrfScope) (now : ℕ) (id token : String) (s : Registry)
      (session : IssuedPageSession) (t : Registry)
      → s.closed ≡ false
      → policy_of scope s.policies ≡ some policy
      → issue_record functions policy scope now id token s ≡ (ok session, t)
      → Issued policy scope now id token session t
  unfolding issue_record page_binding
  issue_record-Issued policy scope now id token s session t is_open of_scope h =
      elim (Option-cases (get (page_binding functions policy id s) s.records)) [
        | inr (r, taken) ↦ absurd (ground arith)
        | inl free ↦
            let binding = page_binding functions policy id s in
            let r : PageSessionRecord = record {
              scope = scope;
              page_binding_digest = binding;
              csrf_token_digest = sha256 token;
              generation = 1;
              issued_at = now;
              expires_at = now + ttl_seconds;
              active = true;
            } in
            let stored = get-add binding r s.records free in
            let after : record s { records = add binding r s.records } ≡ t = ground arith in
            record {
              page_session_id = ground arith;
              csrf_token = ground arith;
              valid_id = ground arith;
              valid_token = ground arith;
              is_open = rw (← after) is_open;
              policies = rw (← after) of_scope;
              stored = rw (← after) stored;
            }
      ]

  drop_previous_same :
      (policy : PageCsrfPolicy) (previous : Option String) (s : Registry)
      → ((drop_previous functions policy previous s).closed ≡ s.closed)
        × ((drop_previous functions policy previous s).policies ≡ s.policies)
  unfolding drop_previous
  drop_previous_same policy none s = (refl, refl)
  drop_previous_same policy (some id) s = ground arith

  issue-Issued :
      (scope : PageCsrfScope) (previous : Option String) (now : ℕ) (id token : String)
      (s : Registry) (session : IssuedPageSession) (t : Registry)
      → issue functions scope previous now id token s ≡ (ok session, t)
      → (policy : PageCsrfPolicy) × Issued policy scope now id token session t
  unfolding issue remove_expired
  issue-Issued scope previous now id token s session t h =
      elim (Option-cases (policy_of scope s.policies)) [
        | inl missing ↦ absurd (ground arith)
        | inr (policy, found) ↦
            let (closed, policies) = drop_previous_same policy previous (remove_expired now s) in
            (
              policy,
              issue_record-Issued policy scope now id token
                  (drop_previous functions policy previous (remove_expired now s)) session t
                  (closed ∙ ground arith) (ap (policy_of scope) policies ∙ found) (ground arith),
            )
      ]

  -- A page session that was issued is accepted: a request whose protocol this registry has
  -- accepted, with the session's cookie and token, less than fifteen minutes after the issue, is
  -- answered with the next token in generation 2, if that token is one and has another digest.
  pub issue-rotate :
      (authority : PageCsrfProtocolAuthority) (previous : Option String) (now : ℕ)
      (id token : String) (s : Registry) (session : IssuedPageSession) (t : Registry)
      (preflight : ProtocolPreflight) (later : ℕ) (next : String)
      → issue functions authority.scope previous now id token s ≡ (ok session, t)
      → validate_protocol_preflight functions authority t ≡ ok preflight
      → later < now + ttl_seconds
      → is_token next ≡ true
      → (sha256 next == sha256 token) ≡ false
      → (validate_and_rotate functions preflight authority.scope authority.route
          (some session.page_session_id)
          (session.csrf_token ∷ [])
          later
          next
          t).0
        ≡ ok (record { csrf_token = next; generation = 2 })
  unfolding validate_and_rotate rotate_binding rotate_record
  issue-rotate authority previous now id token s session t preflight later next h accepted fresh
        valid other =
      let (policy, issued) = issue-Issued authority.scope previous now id token s session t h in
      let (p, method, allowed, passes) = preflight_accepted authority t preflight accepted in
      let of_scope =
        policy_for_protocol-policy_of functions authority.scope authority.route t p method
          allowed in
      let same : p ≡ policy = cc in
      rw (issued.page_session_id, issued.csrf_token)
        (ground (
          arith,
          issued.valid_id,
          issued.valid_token,
          issued.is_open,
          issued.stored,
          eq_self authority.scope,
        ))
