-- ===== src/Csrf/Registry.antt =====
-- src/orbitmind/core/page_csrf.py: the calls of `PageCsrfRegistry`. The lock makes each call one step.
use orbit_mind_living_q_core.Common.{
  ℕ, ◌+◌, String, Bool, true, false, not, ◌&&◌, ◌||◌, Option, none, some, List, [], ◌∷◌, leb,
  length, if◌then◌else◌, string_eq, nat_eq, ◌==◌, ◌!=◌, any, Result, ok, err, Dict, get, add,
  remove, keep, put,
}
use orbit_mind_living_q_core.Handoff.Contracts.{is_token}
use orbit_mind_living_q_core.Csrf.Contracts.{
  CsrfError, Functions, IssuedPageSession, PageCsrfPolicy, PageCsrfProtocolAuthority,
  PageCsrfRotation, PageCsrfScope, PageSessionRecord, ProtocolPreflight, Registry, rejected,
  scope_eq, session_unavailable,
}

abbrev pub max_active_per_scope : ℕ
max_active_per_scope = 16

abbrev pub ttl_seconds : ℕ
ttl_seconds = 900

-- `(expected,)`: exactly one value, the expected one.
unfoldable pub is_only : String → List String → Bool
is_only expected [] = false
is_only expected (v ∷ []) = v == expected
is_only expected (_ ∷ _ ∷ _) = false

-- The policy of a scope.
unfoldable pub policy_of : PageCsrfScope → List PageCsrfPolicy → Option PageCsrfPolicy
policy_of scope [] = none
policy_of scope (p ∷ ps) = if p.scope == scope then some p else policy_of scope ps

-- `_policy_for_protocol`, with the method that the policy allows for the route.
unfoldable pub policy_for_protocol :
    PageCsrfScope → String → Registry → Option (PageCsrfPolicy × String)
policy_for_protocol scope route s = elim (policy_of scope s.policies) [
  | none ↦ none
  | some policy ↦ elim (get route policy.allowed_methods) [
    | none ↦ none
    | some method ↦ some (policy, method)
  ]
]

-- The records of a scope.
unfoldable pub scope_records : PageCsrfScope → Dict PageSessionRecord → Dict PageSessionRecord
scope_records scope records = keep (λ e. e.1.scope == scope) records

-- `_remove_expired`.
unfoldable pub remove_expired : ℕ → Registry → Registry
remove_expired now s = record s { records = keep (λ e. not (leb e.1.expires_at now)) s.records }

-- `active_session_count`, at the time `now`.
unfoldable pub active_session_count : PageCsrfScope → ℕ → Registry → ℕ × Registry
active_session_count scope now s =
    if s.closed
    then (0, s)
    else let t = remove_expired now s in (length (scope_records scope t.records), t)

-- `close`.
unfoldable pub close : Registry → Registry
close s = record s { records = []; process_binding_key = ""; closed = true }

module _ (functions : Functions) where
  open functions use {hmac, sha256, host_of_port, origin_of_host, is_forwarded_header}

  -- `_page_binding`.
  unfoldable pub page_binding : PageCsrfPolicy → String → Registry → String
  page_binding policy page_session_id s =
      hmac s.process_binding_key (policy.page_binding_domain ∷ page_session_id ∷ [])

  -- `_protocol_preflight_integrity`.
  unfoldable pub preflight_integrity : PageCsrfPolicy → String → String → String → Registry → String
  preflight_integrity policy method route expected_host s =
      hmac s.process_binding_key
        (policy.protocol_preflight_domain ∷ method ∷ route ∷ expected_host ∷ [])

  -- The start of `issue` under the lock: the submitted page session is dropped.
  unfoldable pub drop_previous : PageCsrfPolicy → Option String → Registry → Registry
  drop_previous policy none s = s
  drop_previous policy (some previous) s =
      if is_token previous
      then record s { records = remove (page_binding policy previous s) s.records }
      else s

  -- The end of `issue`, with the two generated secrets.
  unfoldable pub issue_record :
      PageCsrfPolicy
      → PageCsrfScope
      → ℕ
      → String
      → String
      → Registry
      → Result CsrfError IssuedPageSession × Registry
  issue_record policy scope now page_session_id csrf_token s =
      if leb max_active_per_scope (length (scope_records scope s.records))
      then (err session_unavailable, s)
      else if not (is_token page_session_id) || not (is_token csrf_token)
      then (err session_unavailable, s)
      else elim (get (page_binding policy page_session_id s) s.records) [
        | some _ ↦ (err session_unavailable, s)
        | none ↦ (
          ok (record {
            page_session_id = page_session_id;
            csrf_token = csrf_token;
            issued_at = now;
            expires_at = now + ttl_seconds;
          }),
          record s {
            records =
                add (page_binding policy page_session_id s)
                  (record {
                    scope = scope;
                    page_binding_digest = page_binding policy page_session_id s;
                    csrf_token_digest = sha256 csrf_token;
                    generation = 1;
                    issued_at = now;
                    expires_at = now + ttl_seconds;
                    active = true;
                  })
                  s.records;
          },
        )
      ]

  -- `issue`, at the time `now`, with the encoded random values.
  unfoldable pub issue :
      PageCsrfScope
      → Option String
      → ℕ
      → String
      → String
      → Registry
      → Result CsrfError IssuedPageSession × Registry
  issue scope previous now page_session_id csrf_token s = elim (policy_of scope s.policies) [
    | none ↦ (err session_unavailable, s)
    | some policy ↦
        if s.closed
        then (err session_unavailable, s)
        else issue_record policy scope now page_session_id csrf_token
            (drop_previous policy previous (remove_expired now s))
  ]

  -- `validate_protocol_preflight`.
  unfoldable pub validate_protocol_preflight :
      PageCsrfProtocolAuthority → Registry → Result CsrfError ProtocolPreflight
  validate_protocol_preflight authority s =
      let host = host_of_port authority.selected_port in
      elim (policy_for_protocol authority.scope authority.route s) [
        | none ↦ err rejected
        | some (policy, method) ↦
            if not (leb 1_024 authority.selected_port && leb authority.selected_port 65_535)
            then err rejected
            else if (authority.scheme != "http")
                || not (is_only host authority.host_values)
                || any is_forwarded_header authority.forwarded_header_names
            then err rejected
            else if not (is_only (origin_of_host host) authority.origin_values)
            then err rejected
            else if not (is_only "same-origin" authority.sec_fetch_site_values)
            then err rejected
            else if method != authority.method
            then err rejected
            else ok (record {
              issuer = s.issuer;
              scope = authority.scope;
              method = authority.method;
              route = authority.route;
              expected_host = host;
              integrity = preflight_integrity policy authority.method authority.route host s;
            })
      ]

  -- The part of `validate_and_rotate_after_preflight` with a record and one presented token.
  unfoldable pub rotate_record :
      String
      → PageSessionRecord
      → String
      → ℕ
      → String
      → Registry
      → Result CsrfError PageCsrfRotation × Registry
  rotate_record binding r presented now next_token s =
      if not (is_token presented)
      then (err rejected, s)
      else if sha256 presented != r.csrf_token_digest
      then (err rejected, s)
      else if leb r.expires_at now
      then (err rejected, record s { records = remove binding s.records })
      else if not r.active || leb r.generation 0
      then (err rejected, s)
      else if not (is_token next_token)
      then (err session_unavailable, s)
      else if sha256 next_token == r.csrf_token_digest
      then (err rejected, s)
      else (
        ok (record { csrf_token = next_token; generation = r.generation + 1 }),
        record s {
          records =
              put binding
                (record r { csrf_token_digest = sha256 next_token; generation = r.generation + 1 })
                s.records;
        },
      )

  -- The part under the lock.
  unfoldable pub rotate_binding :
      PageCsrfScope
      → String
      → List String
      → ℕ
      → String
      → Registry
      → Result CsrfError PageCsrfRotation × Registry
  rotate_binding scope binding csrf_token_values now next_token s = elim (get binding s.records) [
    | none ↦ (err rejected, s)
    | some r ↦ if r.scope != scope then (err rejected, s) else elim csrf_token_values [
      | [] ↦ (err rejected, s)
      | presented ∷ others ↦
          if leb 1 (length others)
          then (err rejected, s)
          else rotate_record binding r presented now next_token s
    ]
  ]

  -- The tests of a preflight against the expected scope and route.
  unfoldable pub accepts_preflight :
      ProtocolPreflight → PageCsrfScope → String → PageCsrfPolicy → String → Registry → Bool
  accepts_preflight preflight scope route policy method s =
      (preflight.issuer == s.issuer)
      && (preflight.scope == scope)
      && (preflight.route == route)
      && (method == preflight.method)
      && (preflight.integrity
          == preflight_integrity policy preflight.method route preflight.expected_host s)

  -- `validate_and_rotate_after_preflight`.
  unfoldable pub validate_and_rotate :
      ProtocolPreflight
      → PageCsrfScope
      → String
      → Option String
      → List String
      → ℕ
      → String
      → Registry
      → Result CsrfError PageCsrfRotation × Registry
  validate_and_rotate preflight scope route cookie csrf_token_values now next_token s =
      elim (policy_for_protocol scope route s) [
        | none ↦ (err rejected, s)
        | some (policy, method) ↦ elim cookie [
          | none ↦ (err rejected, s)
          | some page_session_id ↦
              if not (accepts_preflight preflight scope route policy method s)
              then (err rejected, s)
              else if not (is_token page_session_id) || s.closed
              then (err rejected, s)
              else rotate_binding scope (page_binding policy page_session_id s) csrf_token_values
                  now next_token s
        ]
      ]
