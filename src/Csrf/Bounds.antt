-- ===== src/Csrf/Bounds.antt =====
-- How many page sessions the registry holds, over every history of calls.
use orbit_mind_living_q_core.Common.{
  ℕ, ◌≤◌, ◌≡◌, refl, ap, String, Bool, true, false, Option, none, some, List, [], ◌∷◌, leb, length,
  if◌then◌else◌, string_eq, nat_eq, ◌==◌, ◌!=◌, Result, err, Dict, get, add, remove, keep, put,
  arith, Bool-cases, inl, inr, keep-keep-length, keep-append, length-append,
}
use orbit_mind_living_q_core.Handoff.Contracts.{is_token}
use orbit_mind_living_q_core.Csrf.Contracts.{
  PageCsrfScope, scope_eq, PageCsrfPolicy, CsrfError, rejected, session_unavailable,
  IssuedPageSession, ProtocolPreflight, PageCsrfRotation, PageSessionRecord, Registry, Functions,
}
use orbit_mind_living_q_core.Csrf.Registry.{
  max_active_per_scope, policy_of, scope_records, remove_expired, active_session_count, close,
  page_binding, drop_previous, issue_record, issue, rotate_record, rotate_binding,
  validate_and_rotate,
}

-- No scope has more than sixteen page sessions.
abbrev pub IsBounded : Dict PageSessionRecord → Type 0
IsBounded records =
    (scope : PageCsrfScope) → length (scope_records scope records) ≤ max_active_per_scope

keep-IsBounded :
    (p : String × PageSessionRecord → Bool) (records : Dict PageSessionRecord)
    → IsBounded records
    → IsBounded (keep p records)
unfolding scope_records
keep-IsBounded p records h scope =
    let before = h scope in
    let fewer = keep-keep-length (λ e. e.1.scope == scope) p records in omega arith

add-IsBounded :
    (binding : String) (r : PageSessionRecord) (records : Dict PageSessionRecord)
    → IsBounded records
    → leb max_active_per_scope (length (scope_records r.scope records)) ≡ false
    → IsBounded (add binding r records)
unfolding scope_records add
add-IsBounded binding r records h room scope =
    let split = keep-append (λ e. e.1.scope == scope) records ((binding, r) ∷ []) in
    let counted =
      length-append (keep (λ e. e.1.scope == scope) records)
        (keep (λ e. e.1.scope == scope) ((binding, r) ∷ [])) in
    let before = h scope in ground (arith, ap length split)

-- A session replaced by one of its scope leaves every count as it is.
put_count :
    (binding : String) (r session : PageSessionRecord) (records : Dict PageSessionRecord)
    (scope : PageCsrfScope)
    → get binding records ≡ some session
    → r.scope ≡ session.scope
    → length (scope_records scope (put binding r records)) ≡ length (scope_records scope records)
unfolding scope_records get put
put_count binding r session [] scope h e = cc
put_count binding r session ((j, a) ∷ records) scope h e =
    ground (arith, put_count binding r session records scope)

choose-IsBounded :
    {A : Type 0} (test : Bool) (o p : A × Registry)
    → IsBounded o.1.records
    → IsBounded p.1.records
    → IsBounded (if test then o else p).1.records
choose-IsBounded true o p h k = h
choose-IsBounded false o p h k = k

module _ (functions : Functions) where
  open functions use {sha256}

  drop_previous-IsBounded :
      (policy : PageCsrfPolicy) (previous : Option String) (s : Registry)
      → IsBounded s.records
      → IsBounded (drop_previous functions policy previous s).records
  unfolding drop_previous remove
  drop_previous-IsBounded policy none s h = h
  drop_previous-IsBounded policy (some id) s h = elim (Bool-cases (is_token id)) [
    | inl valid ↦
        rw valid (keep-IsBounded (λ e. e.0 != page_binding functions policy id s) s.records h)
    | inr invalid ↦ rw invalid h
  ]

  issue_record-IsBounded :
      (policy : PageCsrfPolicy) (scope : PageCsrfScope) (now : ℕ) (id token : String) (s : Registry)
      → IsBounded s.records
      → IsBounded (issue_record functions policy scope now id token s).1.records
  unfolding issue_record
  issue_record-IsBounded policy scope now id token s h = grind (arith, add-IsBounded)

  issue-IsBounded :
      (scope : PageCsrfScope) (previous : Option String) (now : ℕ) (id token : String)
      (s : Registry)
      → IsBounded s.records
      → IsBounded (issue functions scope previous now id token s).1.records
  unfolding issue remove_expired
  issue-IsBounded scope previous now id token s h = by_policy (policy_of scope s.policies)
    where
      by_policy :
          (o : Option PageCsrfPolicy)
          → IsBounded
              (elim o as (λ _. Result CsrfError IssuedPageSession × Registry) [
                | none ↦ (err session_unavailable, s)
                | some policy ↦
                    if s.closed
                    then (err session_unavailable, s)
                    else issue_record functions policy scope now id token
                        (drop_previous functions policy previous (remove_expired now s))
              ]).1.records
      by_policy none = h
      by_policy (some policy) = choose-IsBounded s.closed _ _ h (
          issue_record-IsBounded policy scope now id token _ (
            drop_previous-IsBounded policy previous (remove_expired now s)
              (keep-IsBounded _ s.records h)))

  rotate_record-IsBounded :
      (binding : String) (r : PageSessionRecord) (presented : String) (now : ℕ) (next : String)
      (s : Registry)
      → get binding s.records ≡ some r
      → IsBounded s.records
      → IsBounded (rotate_record functions binding r presented now next s).1.records
  unfolding rotate_record remove
  rotate_record-IsBounded binding r presented now next s found h =
      grind (arith, keep-IsBounded (λ e. e.0 != binding) s.records h, replaced)
    where
      replaced :
          (digest : String) (generation : ℕ)
          → IsBounded (
              put binding
                (record r { csrf_token_digest = digest; generation = generation })
                s.records)
      replaced digest generation scope =
          let count =
            put_count binding (record r { csrf_token_digest = digest; generation = generation }) r
              s.records scope found refl in
          let before = h scope in omega arith

  rotate_binding-IsBounded :
      (scope : PageCsrfScope) (binding : String) (tokens : List String) (now : ℕ) (next : String)
      (s : Registry)
      → IsBounded s.records
      → IsBounded (rotate_binding functions scope binding tokens now next s).1.records
  unfolding rotate_binding
  rotate_binding-IsBounded scope binding tokens now next s h =
      by_record (get binding s.records) refl
    where
      by_tokens :
          (r : PageSessionRecord) (tokens : List String)
          → get binding s.records ≡ some r
          → IsBounded
              (elim tokens as (λ _. Result CsrfError PageCsrfRotation × Registry) [
                | [] ↦ (err rejected, s)
                | presented ∷ others ↦
                    if leb 1 (length others)
                    then (err rejected, s)
                    else rotate_record functions binding r presented now next s
              ]).1.records
      by_tokens r [] found = h
      by_tokens r (presented ∷ others) found =
          choose-IsBounded (leb 1 (length others)) _ _ h
            (rotate_record-IsBounded binding r presented now next s found h)

      by_record :
          (o : Option PageSessionRecord)
          → get binding s.records ≡ o
          → IsBounded
              (elim o as (λ _. Result CsrfError PageCsrfRotation × Registry) [
                | none ↦ (err rejected, s)
                | some r ↦
                    if r.scope != scope
                    then (err rejected, s)
                    else elim tokens as (λ _. Result CsrfError PageCsrfRotation × Registry) [
                      | [] ↦ (err rejected, s)
                      | presented ∷ others ↦
                          if leb 1 (length others)
                          then (err rejected, s)
                          else rotate_record functions binding r presented now next s
                    ]
              ]).1.records
      by_record none found = h
      by_record (some r) found =
          choose-IsBounded (r.scope != scope) _ _ h (by_tokens r tokens found)

  validate_and_rotate-IsBounded :
      (preflight : ProtocolPreflight) (scope : PageCsrfScope) (route : String)
      (cookie : Option String) (tokens : List String) (now : ℕ) (next : String) (s : Registry)
      → IsBounded s.records
      → IsBounded
          (validate_and_rotate functions preflight scope route cookie tokens now next s).1.records
  unfolding validate_and_rotate
  validate_and_rotate-IsBounded preflight scope route cookie tokens now next s h =
      grind (arith, λ (b : String). rotate_binding-IsBounded scope b tokens now next s h)

  -- One call of the registry that can change it.
  pub data Step (s : Registry) : Registry → Type 0 where
    issued :
        (scope : PageCsrfScope) (previous : Option String) (now : ℕ) (id token : String)
        → Step s (issue functions scope previous now id token s).1
    rotated :
        (preflight : ProtocolPreflight) (scope : PageCsrfScope) (route : String)
        (cookie : Option String) (tokens : List String) (now : ℕ) (next : String)
        → Step s (validate_and_rotate functions preflight scope route cookie tokens now next s).1
    counted : (scope : PageCsrfScope) (now : ℕ) → Step s (active_session_count scope now s).1
    closed : Step s (close s)

  pub data Reachable (s : Registry) : Registry → Type 0 where
    start : Reachable s s
    step : {t u : Registry} → Reachable s t → Step t u → Reachable s u

  Step-IsBounded : {s t : Registry} → Step s t → IsBounded s.records → IsBounded t.records
  unfolding active_session_count remove_expired close scope_records
  Step-IsBounded {s} (issued scope previous now id token) h =
      issue-IsBounded scope previous now id token s h
  Step-IsBounded {s} (rotated preflight scope route cookie tokens now next) h =
      validate_and_rotate-IsBounded preflight scope route cookie tokens now next s h
  Step-IsBounded {s} (counted scope now) h =
      choose-IsBounded s.closed _ _ h (keep-IsBounded _ s.records h)
  Step-IsBounded closed h = λ scope. omega arith

  -- A registry that starts without sessions never holds more than sixteen of one scope, after any
  -- history of calls, refused ones included.
  pub Reachable-sessions_bound :
      {s t : Registry} → s.records ≡ [] → Reachable s t → IsBounded t.records
  unfolding scope_records
  Reachable-sessions_bound {s} e start = λ scope. ground arith
  Reachable-sessions_bound e (step r st) = Step-IsBounded st (Reachable-sessions_bound e r)
