-- ===== src/Csrf/Once.antt =====
-- src/orbitmind/core/page_csrf.py: a replaced token stays refused, over every history of calls that
-- does not generate it again.
use orbit_mind_living_q_core.Common.{
  ℕ, ◌≡◌, inl, inr, refl, ap, ◌∙◌, sym, subst, String, true, false, Option, some, List, [], ◌∷◌,
  map, is_unique, string_eq, ◌==◌, ok, err, get, put, arith, Option-cases,
}
use orbit_mind_living_q_core.Csrf.Contracts.{
  PageCsrfScope, scope_eq, PageCsrfPolicy, rejected, ProtocolPreflight, PageCsrfRotation, Registry,
  Functions,
}
use orbit_mind_living_q_core.Csrf.Registry.{
  policy_of, policy_for_protocol, page_binding, active_session_count, close, issue, rotate_record,
  rotate_binding, validate_and_rotate,
}
use orbit_mind_living_q_core.Csrf.Rotation.{
  with_token, rotate_binding-Rotated, after_rotation, again_rejected,
}
use orbit_mind_living_q_core.Csrf.Spent.{
  holds, holds-get, holds-replaced, IsSpent, issue-IsSpent, validate_and_rotate-IsSpent,
  choose-IsSpent, remove_expired-IsSpent,
}

-- A history of calls, refused ones included, in which no session gets a token of the digest.
pub data Without (functions : Functions) (d : String) (s : Registry) : Registry → Type 0 where
  unchanged : Without functions d s s
  issued :
      {t : Registry}
      → Without functions d s t
      → (scope : PageCsrfScope) (previous : Option String) (now : ℕ) (id token : String)
      → (functions.sha256 token == d) ≡ false
      → Without functions d s (issue functions scope previous now id token t).1
  rotated :
      {t : Registry}
      → Without functions d s t
      → (preflight : ProtocolPreflight) (scope : PageCsrfScope) (route : String)
        (cookie : Option String) (tokens : List String) (now : ℕ) (next : String)
      → (functions.sha256 next == d) ≡ false
      → Without functions d s
          (validate_and_rotate functions preflight scope route cookie tokens now next t).1
  counted :
      {t : Registry}
      → Without functions d s t
      → (scope : PageCsrfScope) (now : ℕ)
      → Without functions d s (active_session_count scope now t).1
  closed : {t : Registry} → Without functions d s t → Without functions d s (close t)

Without-IsSpent :
    (functions : Functions) (policies : List PageCsrfPolicy) (key b d : String) {s t : Registry}
    → Without functions d s t
    → IsSpent functions policies key b d s
    → IsSpent functions policies key b d t
unfolding active_session_count close
Without-IsSpent functions policies key b d unchanged h = h
Without-IsSpent functions policies key b d (issued {t} past scope previous now id token other) h =
    issue-IsSpent functions policies key b d scope previous now id token t other
      (Without-IsSpent functions policies key b d past h)
Without-IsSpent functions policies key b d
      (rotated {t} past preflight scope route cookie tokens now next other) h =
    validate_and_rotate-IsSpent functions policies key b d preflight scope route cookie tokens now
      next t other (Without-IsSpent functions policies key b d past h)
Without-IsSpent functions policies key b d (counted {t} past scope now) h =
    let before = Without-IsSpent functions policies key b d past h in
    choose-IsSpent functions policies key b d t.closed _ _ before
      (remove_expired-IsSpent functions policies key b d now t before)
Without-IsSpent functions policies key b d (closed past) h = record {
  same_policies = (Without-IsSpent functions policies key b d past h).same_policies;
  spent = inl refl;
}

rotate_binding_rejected :
    (functions : Functions) (scope : PageCsrfScope) (binding token : String) (later : ℕ)
    (other : String) (t : Registry)
    → holds binding (functions.sha256 token) t.records ≡ false
    → (rotate_binding functions scope binding (token ∷ []) later other t).0 ≡ err rejected
unfolding rotate_binding rotate_record
rotate_binding_rejected functions scope binding token later other t free =
    elim (Option-cases (get binding t.records)) [
      | inl missing ↦ ground arith
      | inr (r, found) ↦
          let stale = holds-get binding (functions.sha256 token) r t.records found free in
          ground arith
    ]

closed_rejected :
    (functions : Functions) (preflight : ProtocolPreflight) (scope : PageCsrfScope)
    (route id : String) (tokens : List String) (now : ℕ) (next : String) (t : Registry)
    → t.closed ≡ true
    → (validate_and_rotate functions preflight scope route (some id) tokens now next t).0
      ≡ err rejected
unfolding validate_and_rotate
closed_rejected functions preflight scope route id tokens now next t shut =
    elim (Option-cases (policy_for_protocol scope route t)) [
      | inl missing ↦ ground arith
      | inr ((policy, method), allowed) ↦ ground arith
    ]

-- In a registry whose dict of sessions has distinct keys, after a request was accepted and rotated,
-- and after any further calls in which no session gets a token with the digest of the old one, a
-- request with the same cookie and token is rejected, with any preflight of the scope, for any route
-- and at any time.
pub validate_and_rotate-once :
    (functions : Functions) (preflight again : ProtocolPreflight) (scope : PageCsrfScope)
    (route other_route id token : String) (now later : ℕ) (next other : String) (s : Registry)
    (rotation : PageCsrfRotation)
    → is_unique (map (λ e. e.0) s.records) ≡ true
    → (validate_and_rotate functions preflight scope route (some id) (token ∷ []) now next s).0
      ≡ ok rotation
    → {t : Registry}
    → Without functions
        (functions.sha256 token)
        (validate_and_rotate functions preflight scope route (some id) (token ∷ []) now next s).1
        t
    → (validate_and_rotate functions again scope other_route (some id) (token ∷ []) later other t).0
      ≡ err rejected
unfolding page_binding
validate_and_rotate-once functions preflight again scope route other_route id token now later next
      other s rotation unique h {t} past =
    let (policy, of_scope, did, after) =
      after_rotation functions preflight scope route id (token ∷ []) now next s rotation h in
    let b = page_binding functions policy id s in
    let d = functions.sha256 token in
    let rotated = rotate_binding-Rotated functions scope b (token ∷ []) now next s rotation did in
    let session = rotated.session in
    let old : rotated.token ≡ token = only rotated.only_token in
    let current : d ≡ session.csrf_token_digest = ap functions.sha256 (sym old) ∙ rotated.current in
    let changed : (functions.sha256 next == d) ≡ false =
      subst (λ x. (functions.sha256 next == x) ≡ false) (sym current) rotated.changed in
    let free : holds b d (put b (with_token functions session next) s.records) ≡ false =
      holds-replaced b d (with_token functions session next) s.records unique changed
        {session = session} rotated.found in
    let first : IsSpent functions s.policies s.process_binding_key b d
        (record s { records = put b (with_token functions session next) s.records }) =
      record { same_policies = refl; spent = inr (refl, free) } in
    let spent = Without-IsSpent functions s.policies s.process_binding_key b d past (
      subst (IsSpent functions s.policies s.process_binding_key b d) (sym (after ∙ rotated.stored))
        first) in
    elim spent.spent [
      | inl shut ↦
          closed_rejected functions again scope other_route id (token ∷ []) later other t shut
      | inr (key, gone) ↦
          let same : page_binding functions policy id t ≡ b =
            ap (λ k. functions.hmac k (policy.page_binding_domain ∷ id ∷ [])) key in
          again_rejected functions again scope other_route id (token ∷ []) later other t policy
            (subst (λ ps. policy_of scope ps ≡ some policy) (sym spent.same_policies) of_scope)
            (rotate_binding_rejected functions scope (page_binding functions policy id t) token
              later other t (subst (λ k. holds k d t.records ≡ false) (sym same) gone))
    ]
  where
    only : {x : String} → token ∷ [] ≡ x ∷ [] → x ≡ token
    only h = cc
