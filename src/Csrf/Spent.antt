-- ===== src/Csrf/Spent.antt =====
-- src/orbitmind/core/page_csrf.py: that a session does not hold a token digest is kept by every call
-- that does not generate the token.
use orbit_mind_living_q_core.Common.{
  ℕ, ◌≡◌, ◌⊎◌, inl, inr, refl, subst, String, Bool, true, false, not, ◌&&◌, ◌||◌, Option, none,
  some, List, [], ◌∷◌, map, any, any-keep, contains, is_unique, leb, length, if◌then◌else◌,
  string_eq, ◌==◌, ◌!=◌, err, Result, Dict, get, add, remove, put, arith, Bool-cases,
}
use orbit_mind_living_q_core.Handoff.Contracts.{is_token}
use orbit_mind_living_q_core.Csrf.Contracts.{
  PageCsrfScope, scope_eq, PageCsrfPolicy, CsrfError, rejected, session_unavailable,
  ProtocolPreflight, PageCsrfRotation, IssuedPageSession, PageSessionRecord, Registry, Functions,
}
use orbit_mind_living_q_core.Csrf.Registry.{
  max_active_per_scope, scope_records, policy_of, policy_for_protocol, page_binding, remove_expired,
  drop_previous, issue_record, issue, rotate_record, rotate_binding, accepts_preflight,
  validate_and_rotate,
}

-- A session with the binding has the token digest.
abbrev pub holds : String → String → Dict PageSessionRecord → Bool
holds binding digest = any (λ e. e.0 == binding && e.1.csrf_token_digest == digest)

pub holds-add :
    (b d k : String) (r : PageSessionRecord) (rs : Dict PageSessionRecord)
    → holds b d rs ≡ false
    → (r.csrf_token_digest == d) ≡ false
    → holds b d (add k r rs) ≡ false
unfolding add
holds-add b d k r [] h e = ground arith
holds-add b d k r (x ∷ rs) h e = ground (arith, holds-add b d k r rs)

pub holds-put :
    (b d k : String) (r : PageSessionRecord) (rs : Dict PageSessionRecord)
    → holds b d rs ≡ false
    → (r.csrf_token_digest == d) ≡ false
    → holds b d (put k r rs) ≡ false
unfolding put
holds-put b d k r [] h e = refl
holds-put b d k r ((j, x) ∷ rs) h e = ground (arith, holds-put b d k r rs)

pub holds-absent :
    (b d : String) (rs : Dict PageSessionRecord)
    → contains b (map (λ e. e.0) rs) ≡ false
    → holds b d rs ≡ false
holds-absent b d [] h = refl
holds-absent b d ((j, x) ∷ rs) h = ground (arith, holds-absent b d rs)

-- The keys of a dict are distinct, so that a replaced session is the only one of its binding.
pub holds-replaced :
    (b d : String) (r : PageSessionRecord) (rs : Dict PageSessionRecord)
    → is_unique (map (λ e. e.0) rs) ≡ true
    → (r.csrf_token_digest == d) ≡ false
    → {session : PageSessionRecord} → get b rs ≡ some session
    → holds b d (put b r rs) ≡ false
unfolding get put
holds-replaced b d r [] unique e found = refl
holds-replaced b d r ((j, x) ∷ rs) unique e {session} found = elim (Bool-cases (j == b)) [
  | inl same ↦
      let here : j ≡ b = ground arith in
      let absent : contains b (map (λ e. e.0) rs) ≡ false =
        subst (λ k. contains k (map (λ e. e.0) rs) ≡ false) here (ground arith) in
      ground (arith, holds-absent b d rs absent)
  | inr other ↦
      let rest = holds-replaced b d r rs (ground arith) e {session = session} (ground arith) in
      let kept : put b r ((j, x) ∷ rs) ≡ (j, x) ∷ put b r rs = rw (put, other) refl in
      rw kept (ground arith)
]

pub holds-get :
    (b d : String) (r : PageSessionRecord) (rs : Dict PageSessionRecord)
    → get b rs ≡ some r
    → holds b d rs ≡ false
    → (r.csrf_token_digest == d) ≡ false
unfolding get
holds-get b d r [] found h = cc
holds-get b d r ((j, x) ∷ rs) found h = elim (Bool-cases (j == b)) [
  | inl same ↦
      let here : x ≡ r = ground arith in
      subst (λ y. (y.csrf_token_digest == d) ≡ false) here (ground arith)
  | inr other ↦ holds-get b d r rs (ground arith) (ground arith)
]

module _ (functions : Functions) (policies : List PageCsrfPolicy) (key b d : String) where
  open functions use {sha256}

  -- The registry is closed, or it has the policies and the key and no session of the binding has
  -- the digest.
  pub record IsSpent (t : Registry) : Type 0 where
    pub same_policies : t.policies ≡ policies
    pub spent : (t.closed ≡ true) ⊎ ((t.process_binding_key ≡ key) × (holds b d t.records ≡ false))

  pub with_records-IsSpent :
      (t : Registry) (rs : Dict PageSessionRecord)
      → IsSpent t
      → (holds b d t.records ≡ false → holds b d rs ≡ false)
      → IsSpent (record t { records = rs })
  with_records-IsSpent t rs h f = record {
    same_policies = h.same_policies;
    spent = elim h.spent [ inl shut ↦ inl shut | inr (k, free) ↦ inr (k, f free) ];
  }

  pub choose-IsSpent :
      {A : Type 0} (test : Bool) (o p : A × Registry)
      → IsSpent o.1
      → IsSpent p.1
      → IsSpent (if test then o else p).1
  choose-IsSpent true o p h k = h
  choose-IsSpent false o p h k = k

  pub remove_expired-IsSpent : (now : ℕ) (s : Registry) → IsSpent s → IsSpent (remove_expired now s)
  unfolding remove_expired
  remove_expired-IsSpent now s h =
      with_records-IsSpent s _ h (any-keep _ (λ e. not (leb e.1.expires_at now)) s.records)

  pub drop_previous-IsSpent :
      (policy : PageCsrfPolicy) (previous : Option String) (s : Registry)
      → IsSpent s
      → IsSpent (drop_previous functions policy previous s)
  unfolding drop_previous remove
  drop_previous-IsSpent policy none s h = h
  drop_previous-IsSpent policy (some id) s h = by_token (is_token id)
    where
      by_token :
          (valid : Bool)
          → IsSpent (
              if valid
              then record s { records = remove (page_binding functions policy id s) s.records }
              else s)
      by_token true =
          with_records-IsSpent s _ h
            (any-keep _ (λ e. e.0 != page_binding functions policy id s) s.records)
      by_token false = h

  pub issue_record-IsSpent :
      (policy : PageCsrfPolicy) (scope : PageCsrfScope) (now : ℕ) (id token : String) (s : Registry)
      → (sha256 token == d) ≡ false
      → IsSpent s
      → IsSpent (issue_record functions policy scope now id token s).1
  unfolding issue_record
  issue_record-IsSpent policy scope now id token s other h =
      choose-IsSpent (leb max_active_per_scope (length (scope_records scope s.records))) _ _ h (
        choose-IsSpent (not (is_token id) || not (is_token token)) _ _ h (
          by_session (get (page_binding functions policy id s) s.records) _ _
            (with_records-IsSpent s _ h (λ e. holds-add b d _ _ s.records e other))))
    where
      by_session :
          (o : Option PageSessionRecord) (x : Result CsrfError IssuedPageSession) (t : Registry)
          → IsSpent t
          → IsSpent
              (elim o as (λ _. Result CsrfError IssuedPageSession × Registry) [
                | some _ ↦ (err session_unavailable, s)
                | none ↦ (x, t)
              ]).1
      by_session none x t k = k
      by_session (some _) x t k = h

  pub issue-IsSpent :
      (scope : PageCsrfScope) (previous : Option String) (now : ℕ) (id token : String)
      (s : Registry)
      → (sha256 token == d) ≡ false
      → IsSpent s
      → IsSpent (issue functions scope previous now id token s).1
  unfolding issue
  issue-IsSpent scope previous now id token s other h = by_policy (policy_of scope s.policies)
    where
      by_policy :
          (o : Option PageCsrfPolicy)
          → IsSpent
              (elim o as (λ _. Result CsrfError IssuedPageSession × Registry) [
                | none ↦ (err session_unavailable, s)
                | some policy ↦
                    if s.closed
                    then (err session_unavailable, s)
                    else issue_record functions policy scope now id token
                        (drop_previous functions policy previous (remove_expired now s))
              ]).1
      by_policy none = h
      by_policy (some policy) = choose-IsSpent s.closed _ _ h (
          issue_record-IsSpent policy scope now id token _ other (
            drop_previous-IsSpent policy previous (remove_expired now s)
              (remove_expired-IsSpent now s h)))

  pub rotate_record-IsSpent :
      (binding : String) (r : PageSessionRecord) (presented : String) (now : ℕ) (next : String)
      (s : Registry)
      → (sha256 next == d) ≡ false
      → IsSpent s
      → IsSpent (rotate_record functions binding r presented now next s).1
  unfolding rotate_record remove
  rotate_record-IsSpent binding r presented now next s other h =
      choose-IsSpent (not (is_token presented)) _ _ h (
        choose-IsSpent (sha256 presented != r.csrf_token_digest) _ _ h (
          choose-IsSpent (leb r.expires_at now) _ _
            (with_records-IsSpent s _ h (any-keep _ (λ e. e.0 != binding) s.records))
            (choose-IsSpent (not r.active || leb r.generation 0) _ _ h (
              choose-IsSpent (not (is_token next)) _ _ h (
                choose-IsSpent (sha256 next == r.csrf_token_digest) _ _ h
                  (with_records-IsSpent s _ h (λ e. holds-put b d binding _ s.records e other)))))))

  pub rotate_binding-IsSpent :
      (scope : PageCsrfScope) (binding : String) (tokens : List String) (now : ℕ) (next : String)
      (s : Registry)
      → (sha256 next == d) ≡ false
      → IsSpent s
      → IsSpent (rotate_binding functions scope binding tokens now next s).1
  unfolding rotate_binding
  rotate_binding-IsSpent scope binding tokens now next s other h =
      by_record (get binding s.records) tokens
    where
      by_record :
          (o : Option PageSessionRecord) (tokens : List String)
          → IsSpent
              (elim o as (λ _. Result CsrfError PageCsrfRotation × Registry) [
                | none ↦ (err rejected, s)
                | some r ↦
                    if r.scope != scope
                    then (err rejected, s)
                    else elim tokens as (λ _. Result CsrfError PageCsrfRotation × Registry) [
                      | [] ↦ (err rejected, s)
                      | presented ∷ others ↦
                          if leb 1 (length others)
                          then (err rejected, s)
                          else rotate_record functions binding r presented now next s
                    ]
              ]).1
      by_record none tokens = h
      by_record (some r) [] = choose-IsSpent (r.scope != scope) _ _ h h
      by_record (some r) (presented ∷ others) = choose-IsSpent (r.scope != scope) _ _ h (
          choose-IsSpent (leb 1 (length others)) _ _ h
            (rotate_record-IsSpent binding r presented now next s other h))

  pub validate_and_rotate-IsSpent :
      (preflight : ProtocolPreflight) (scope : PageCsrfScope) (route : String)
      (cookie : Option String) (tokens : List String) (now : ℕ) (next : String) (s : Registry)
      → (sha256 next == d) ≡ false
      → IsSpent s
      → IsSpent (validate_and_rotate functions preflight scope route cookie tokens now next s).1
  unfolding validate_and_rotate
  validate_and_rotate-IsSpent preflight scope route cookie tokens now next s other h =
      by_policy (policy_for_protocol scope route s) cookie
    where
      by_policy :
          (o : Option (PageCsrfPolicy × String)) (cookie : Option String)
          → IsSpent
              (elim o as (λ _. Result CsrfError PageCsrfRotation × Registry) [
                | none ↦ (err rejected, s)
                | some (policy, method) ↦
                    elim cookie as (λ _. Result CsrfError PageCsrfRotation × Registry) [
                      | none ↦ (err rejected, s)
                      | some id ↦
                          if not (accepts_preflight functions preflight scope route policy method s)
                          then (err rejected, s)
                          else if not (is_token id) || s.closed
                          then (err rejected, s)
                          else rotate_binding functions scope
                              (page_binding functions policy id s)
                              tokens
                              now
                              next
                              s
                    ]
              ]).1
      by_policy none cookie = h
      by_policy (some (policy, method)) none = h
      by_policy (some (policy, method)) (some id) =
          choose-IsSpent (not (accepts_preflight functions preflight scope route policy method s)) _
            _ h
            (choose-IsSpent (not (is_token id) || s.closed) _ _ h (
              rotate_binding-IsSpent scope (page_binding functions policy id s) tokens now next s
                other h))
