-- ===== src/Csrf/Rotation.antt =====
-- What the registry accepts, and what an accepted request changes.
use orbit_mind_living_q_core.Common.{
  ℕ, ◌+◌, ◌<◌, ◌≡◌, refl, ap, ◌∙◌, String, true, false, Option, none, some, List, [], ◌∷◌,
  string_eq, nat_eq, ◌==◌, ok, err, get, put, arith, Option-cases, inl, inr,
}
use orbit_mind_living_q_core.Csrf.Contracts.{
  PageCsrfScope, scope_eq, PageCsrfPolicy, rejected, ProtocolPreflight, PageCsrfRotation,
  PageSessionRecord, Registry, Functions,
}
use orbit_mind_living_q_core.Csrf.Registry.{
  policy_of, policy_for_protocol, page_binding, preflight_integrity, rotate_record, rotate_binding,
  accepts_preflight, validate_and_rotate,
}

module _ (functions : Functions) where
  open functions use {sha256}

  -- What an accepted request had: a preflight of this registry for the route and its method, and the
  -- cookie and the current token of a page session of the scope that has not expired.
  pub record Accepted (preflight : ProtocolPreflight) (scope : PageCsrfScope) (route : String)
      (cookie : Option String) (tokens : List String) (now : ℕ) (s : Registry) : Type 0 where
    pub policy : PageCsrfPolicy
    pub method : String
    pub allowed : policy_for_protocol scope route s ≡ some (policy, method)
    pub preflight_method : preflight.method ≡ method
    pub issuer : preflight.issuer ≡ s.issuer
    pub preflight_scope : preflight.scope ≡ scope
    pub preflight_route : preflight.route ≡ route
    pub integrity :
        preflight.integrity
        ≡ preflight_integrity functions policy preflight.method route preflight.expected_host s
    pub page_session_id : String
    pub submitted : cookie ≡ some page_session_id
    pub is_open : s.closed ≡ false
    pub session : PageSessionRecord
    pub found : get (page_binding functions policy page_session_id s) s.records ≡ some session
    pub of_scope : session.scope ≡ scope
    pub token : String
    pub only_token : tokens ≡ token ∷ []
    pub current : sha256 token ≡ session.csrf_token_digest
    pub fresh : now < session.expires_at

  -- The record of a session after its token was replaced.
  abbrev pub with_token : PageSessionRecord → String → PageSessionRecord
  with_token session next = record session {
    csrf_token_digest = sha256 next;
    generation = session.generation + 1;
  }

  -- What the part under the lock has found and done when it succeeds.
  pub record Rotated (scope : PageCsrfScope) (binding : String) (tokens : List String) (now : ℕ)
      (next : String) (s : Registry) (rotation : PageCsrfRotation) (t : Registry) : Type 0 where
    pub session : PageSessionRecord
    pub token : String
    pub found : get binding s.records ≡ some session
    pub of_scope : session.scope ≡ scope
    pub only_token : tokens ≡ token ∷ []
    pub current : sha256 token ≡ session.csrf_token_digest
    pub fresh : now < session.expires_at
    pub stored : t ≡ record s { records = put binding (with_token session next) s.records }
    pub changed : (sha256 next == session.csrf_token_digest) ≡ false

  pub rotate_binding-Rotated :
      (scope : PageCsrfScope) (binding : String) (tokens : List String) (now : ℕ) (next : String)
      (s : Registry) (rotation : PageCsrfRotation)
      → (rotate_binding functions scope binding tokens now next s).0 ≡ ok rotation
      → Rotated scope binding tokens now next s rotation
          (rotate_binding functions scope binding tokens now next s).1
  unfolding rotate_binding rotate_record
  rotate_binding-Rotated scope binding [] now next s rotation h =
      elim (Option-cases (get binding s.records)) [
        | inl missing ↦ absurd (ground arith)
        | inr (session, found) ↦ absurd (ground arith)
      ]
  rotate_binding-Rotated scope binding (token ∷ x ∷ xs) now next s rotation h =
      absurd (ground arith)
  rotate_binding-Rotated scope binding (token ∷ []) now next s rotation h =
      elim (Option-cases (get binding s.records)) [
        | inl missing ↦ absurd (ground arith)
        | inr (session, found) ↦ record {
          session = session;
          token = token;
          found = found;
          of_scope = ground arith;
          only_token = refl;
          current = ground arith;
          fresh = ground arith;
          stored = ground arith;
          changed = ground arith;
        }
      ]

  accepts-all :
      (preflight : ProtocolPreflight) (scope : PageCsrfScope) (route : String)
      (policy : PageCsrfPolicy) (method : String) (s : Registry)
      → accepts_preflight functions preflight scope route policy method s ≡ true
      → (preflight.issuer ≡ s.issuer)
        × (preflight.scope ≡ scope)
        × (preflight.route ≡ route)
        × (preflight.method ≡ method)
        × (preflight.integrity
            ≡ preflight_integrity functions policy preflight.method route preflight.expected_host s)
  unfolding accepts_preflight
  accepts-all preflight scope route policy method s h = ground arith

  -- A request that is accepted and rotated had a preflight issued by this registry for exactly
  -- this scope, route and method, the cookie of an unexpired page session of the scope, and
  -- exactly one token, which is the session's current one.
  pub validate_and_rotate-Accepted :
      (preflight : ProtocolPreflight) (scope : PageCsrfScope) (route : String)
      (cookie : Option String) (tokens : List String) (now : ℕ) (next : String) (s : Registry)
      (rotation : PageCsrfRotation)
      → (validate_and_rotate functions preflight scope route cookie tokens now next s).0
        ≡ ok rotation
      → Accepted preflight scope route cookie tokens now s
  unfolding validate_and_rotate
  validate_and_rotate-Accepted preflight scope route none tokens now next s rotation h =
      elim (Option-cases (policy_for_protocol scope route s)) [
        | inl missing ↦ absurd (ground arith)
        | inr ((policy, method), allowed) ↦ absurd (ground arith)
      ]
  validate_and_rotate-Accepted preflight scope route (some id) tokens now next s rotation h =
      elim (Option-cases (policy_for_protocol scope route s)) [
        | inl missing ↦ absurd (ground arith)
        | inr ((policy, method), allowed) ↦
            let (issuer, of_scope, of_route, of_method, integrity) =
              accepts-all preflight scope route policy method s (ground arith) in
            let rotated =
              rotate_binding-Rotated scope (page_binding functions policy id s) tokens now next s
                rotation (ground arith) in
            record {
              policy = policy;
              method = method;
              allowed = allowed;
              preflight_method = of_method;
              issuer = issuer;
              preflight_scope = of_scope;
              preflight_route = of_route;
              integrity = integrity;
              page_session_id = id;
              submitted = refl;
              is_open = ground arith;
              session = rotated.session;
              found = rotated.found;
              of_scope = rotated.of_scope;
              token = rotated.token;
              only_token = rotated.only_token;
              current = rotated.current;
              fresh = rotated.fresh;
            }
      ]

  -- The policy of a route is the policy of its scope.
  pub policy_for_protocol-policy_of :
      (scope : PageCsrfScope) (route : String) (s : Registry) (policy : PageCsrfPolicy)
      (method : String)
      → policy_for_protocol scope route s ≡ some (policy, method)
      → policy_of scope s.policies ≡ some policy
  unfolding policy_for_protocol
  policy_for_protocol-policy_of scope route s policy method h =
      elim (Option-cases (policy_of scope s.policies)) [
        | inl missing ↦ absurd (ground arith)
        | inr (p, found) ↦ elim (Option-cases (get route p.allowed_methods)) [
          | inl missing ↦ absurd (ground arith)
          | inr (m, allowed) ↦ let same : p ≡ policy = ground arith in found ∙ ap some same
        ]
      ]

  -- The state after an accepted rotation, in which only the records have changed.
  pub after_rotation :
      (preflight : ProtocolPreflight) (scope : PageCsrfScope) (route id : String)
      (tokens : List String) (now : ℕ) (next : String) (s : Registry) (rotation : PageCsrfRotation)
      → (validate_and_rotate functions preflight scope route (some id) tokens now next s).0
        ≡ ok rotation
      → (policy : PageCsrfPolicy) × (policy_of scope s.policies ≡ some policy)
        × ((rotate_binding functions scope (page_binding functions policy id s) tokens now next s).0
            ≡ ok rotation)
        × ((validate_and_rotate functions preflight scope route (some id) tokens now next s).1
            ≡ (rotate_binding functions scope
                (page_binding functions policy id s)
                tokens
                now
                next
                s).1)
  unfolding validate_and_rotate
  after_rotation preflight scope route id tokens now next s rotation h =
      elim (Option-cases (policy_for_protocol scope route s)) [
        | inl missing ↦ absurd (ground arith)
        | inr ((policy, method), allowed) ↦ (
          policy,
          policy_for_protocol-policy_of scope route s policy method allowed,
          ground arith,
          ground arith,
        )
      ]

  pub again_rejected :
      (preflight : ProtocolPreflight) (scope : PageCsrfScope) (route id : String)
      (tokens : List String) (now : ℕ) (next : String) (t : Registry) (policy : PageCsrfPolicy)
      → policy_of scope t.policies ≡ some policy
      → (rotate_binding functions scope (page_binding functions policy id t) tokens now next t).0
        ≡ err rejected
      → (validate_and_rotate functions preflight scope route (some id) tokens now next t).0
        ≡ err rejected
  unfolding validate_and_rotate
  again_rejected preflight scope route id tokens now next t policy same h =
      elim (Option-cases (policy_for_protocol scope route t)) [
        | inl missing ↦ ground arith
        | inr ((p, method), allowed) ↦
            let of_scope = policy_for_protocol-policy_of scope route t p method allowed in
            let policies : p ≡ policy = ground arith in ground arith
      ]
