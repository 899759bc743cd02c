-- ===== src/Handoff/Once.antt =====
-- src/orbitmind/api/transient_handoff.py: a consumed token stays consumed, over every history of
-- calls in which no `create` draws it again.
use orbit_mind_living_q_core.Common.{
  ℕ, ◌≡◌, refl, sym, subst, String, Bool, true, false, not, Option, none, some, List, [], ◌∷◌, any,
  string_eq, ◌==◌, ok, err, Dict, get, add, remove, ◌!=◌, get-keep-none, if◌then◌else◌, arith,
  Option-cases, inl, inr, Bool-cases,
}
use orbit_mind_living_q_core.Handoff.Contracts.{
  Limits, HandoffInput, HandoffRecord, HandoffCreation, unavailable_error, is_token,
}
use orbit_mind_living_q_core.Handoff.Sessions.{
  HandoffStore, Functions, Outcome, event, is_expired, remove_expired, binding_for_valid_cookie,
}
use orbit_mind_living_q_core.Handoff.Store.{
  clear, remove_new_session, unique_token, store_record, create_locked, drop_on_error,
  create_in_session, create, consume_record, consume_digest, consume,
}
use orbit_mind_living_q_core.Handoff.Atomic.{Resolved, failed, existing, made, resolve-Resolved}
use orbit_mind_living_q_core.Handoff.Consume.{consume_gone, gone-unavailable}

get-remove_other :
    {A : Type 0} (j k : String) (d : Dict A) → get k d ≡ none → get k (remove j d) ≡ none
unfolding remove
get-remove_other j k d missing = get-keep-none k (λ e. e.0 != j) d missing

get-add_other :
    {A : Type 0} (j k : String) (a : A) (d : Dict A)
    → (j == k) ≡ false
    → get k d ≡ none
    → get k (add j a d) ≡ none
unfolding get add
get-add_other j k a [] h missing = ground arith
get-add_other j k a ((i, b) ∷ d) h missing = ground (arith, get-add_other j k a d h)

module _ (limits : Limits) (functions : Functions) where
  open functions use {sha256}

  -- One of the candidates has the digest.
  abbrev pub draws : String → List String → Bool
  draws digest = any (λ token. sha256 token == digest)

  unique_token-draws :
      (digest : String) (candidates : List String) (s : HandoffStore) (token : String)
      → unique_token limits functions candidates s ≡ some token
      → draws digest candidates ≡ false
      → (sha256 token == digest) ≡ false
  unfolding unique_token
  unique_token-draws digest [] s token h e = cc
  unique_token-draws digest (t ∷ ts) s token h e = elim (Option-cases (get (sha256 t) s.records)) [
    | inl free ↦ elim (Bool-cases (is_token t)) [
      | inl valid ↦
          let same : t ≡ token = ground arith in
          subst (λ x. (sha256 x == digest) ≡ false) same (ground arith)
      | inr bad ↦ unique_token-draws digest ts s token (ground arith) (ground arith)
    ]
    | inr (r, taken) ↦ unique_token-draws digest ts s token (ground arith) (ground arith)
  ]

  store_record_gone :
      (digest : String) (r : HandoffRecord) (cookie : Option String) (candidates : List String)
      (at : ℕ) (s : HandoffStore)
      → draws digest candidates ≡ false
      → get digest s.records ≡ none
      → get digest (store_record limits functions r cookie candidates at s).1.records ≡ none
  unfolding store_record event
  store_record_gone digest r cookie candidates at s e missing =
      elim (Option-cases (unique_token limits functions candidates s)) [
        | inl none_left ↦ ground arith
        | inr (token, found) ↦
            let other = unique_token-draws digest candidates s token found e in
            ground (arith, get-add_other (sha256 token) digest r s.records other missing)
      ]

  create_locked_gone :
      (digest : String) (input : HandoffInput) (binding cookie : String) (is_new : Bool) (now : ℕ)
      (candidates : List String) (at : ℕ) (s : HandoffStore)
      → draws digest candidates ≡ false
      → get digest s.records ≡ none
      → get digest
          (create_locked limits functions input binding cookie is_new now candidates at s).1.records
        ≡ none
  unfolding create_locked event
  create_locked_gone digest input binding cookie is_new now candidates at s e missing =
      grind (arith, store_record_gone digest)

  drop_on_error_gone :
      (digest binding : String) (is_new : Bool) (o : Outcome HandoffCreation)
      → get digest o.1.records ≡ none
      → get digest (drop_on_error limits functions binding is_new o).1.records ≡ none
  unfolding drop_on_error remove_new_session
  drop_on_error_gone digest binding is_new (ok c, t) h = h
  drop_on_error_gone digest binding true (err e, t) h = h
  drop_on_error_gone digest binding false (err e, t) h = h

  create_in_session_gone :
      (digest : String) (input : HandoffInput) (now : ℕ) (candidates : List String) (at : ℕ)
      (s : HandoffStore) (o : Outcome (String × String × Bool))
      → Resolved limits functions s o
      → draws digest candidates ≡ false
      → get digest s.records ≡ none
      → get digest (create_in_session limits functions input now candidates at o).1.records ≡ none
  unfolding create_in_session
  create_in_session_gone digest input now candidates at s o (failed e t same) free missing =
      subst (λ rs. get digest rs ≡ none) (sym same.records) missing
  create_in_session_gone digest input now candidates at s o (existing b c) free missing =
      drop_on_error_gone digest b false _
        (create_locked_gone digest input b c false now candidates at s free missing)
  create_in_session_gone digest input now candidates at s o (made b c entry fresh) free missing =
      drop_on_error_gone digest b true _ (
        create_locked_gone digest input b c true now candidates at
          (record s { sessions = add b entry s.sessions }) free missing)

  choose_gone :
      (digest : String) (b : Bool) (x y : Outcome HandoffCreation)
      → get digest x.1.records ≡ none
      → get digest y.1.records ≡ none
      → get digest (if b then x else y).1.records ≡ none
  choose_gone digest true x y h k = h
  choose_gone digest false x y h k = k

  create_gone :
      (digest : String) (input : HandoffInput) (submitted : Option String) (now at : ℕ)
      (cs ts : List String) (s : HandoffStore)
      → draws digest ts ≡ false
      → get digest s.records ≡ none
      → get digest (create limits functions input submitted now at cs ts s).1.records ≡ none
  unfolding create remove_expired
  create_gone digest input submitted now at cs ts s free missing =
      let t = remove_expired limits functions now at s in
      choose_gone digest s.closed (err unavailable_error, s) _ missing
        (create_in_session_gone digest input now ts at t _
          (resolve-Resolved limits functions submitted now cs at t) free
          (get-keep-none digest (λ e. not (is_expired limits functions now e.1)) s.records missing))

  consume_digest-still_gone :
      (digest other : String) (b : Option String) (now at : ℕ) (s : HandoffStore)
      → get digest s.records ≡ none
      → get digest (consume_digest limits functions other b now at s).1.records ≡ none
  unfolding consume_digest consume_record event
  consume_digest-still_gone digest other b now at s missing =
      ground (arith, get-remove_other other digest s.records missing)

  consume-still_gone :
      (digest token : String) (submitted : Option String) (now at : ℕ) (s : HandoffStore)
      → get digest s.records ≡ none
      → get digest (consume limits functions token submitted now at s).1.records ≡ none
  unfolding consume event remove_expired
  consume-still_gone digest token submitted now at s missing = ground (
    arith,
    consume_digest-still_gone digest (sha256 token)
        (binding_for_valid_cookie limits functions s submitted) now at
        (remove_expired limits functions now at s),
    get-keep-none digest (λ e. not (is_expired limits functions now e.1)) s.records missing,
  )

  -- A history of calls, refused ones included, in which no `create` draws a token of the digest.
  pub data Without (digest : String) (s : HandoffStore) : HandoffStore → Type 0 where
    unchanged : Without digest s s
    created :
        {t : HandoffStore}
        → Without digest s t
        → (input : HandoffInput) (submitted : Option String) (now at : ℕ) (cs ts : List String)
        → draws digest ts ≡ false
        → Without digest s (create limits functions input submitted now at cs ts t).1
    consumed :
        {t : HandoffStore}
        → Without digest s t
        → (token : String) (submitted : Option String) (now at : ℕ)
        → Without digest s (consume limits functions token submitted now at t).1
    cleared : {t : HandoffStore} → Without digest s t → Without digest s (clear t)

  Without-gone :
      (digest : String) {s t : HandoffStore}
      → Without digest s t
      → get digest s.records ≡ none
      → get digest t.records ≡ none
  unfolding clear get
  Without-gone digest unchanged h = h
  Without-gone digest (created {t} past input submitted now at cs ts free) h =
      create_gone digest input submitted now at cs ts t free (Without-gone digest past h)
  Without-gone digest (consumed {t} past token submitted now at) h =
      consume-still_gone digest token submitted now at t (Without-gone digest past h)
  Without-gone digest (cleared past) h = refl

  -- After `consume` has returned the record of a token, and after any further calls in which no
  -- `create` draws a candidate with the token's digest, a `consume` of the token is refused, with any
  -- cookie and at any time.
  pub consume-once :
      (token : String) (submitted : Option String) (now at : ℕ) (s : HandoffStore)
      (r : HandoffRecord) (again : Option String) (later at' : ℕ) {t : HandoffStore}
      → (consume limits functions token submitted now at s).0 ≡ ok r
      → Without (sha256 token) (consume limits functions token submitted now at s).1 t
      → (consume limits functions token again later at' t).0 ≡ err unavailable_error
  consume-once token submitted now at s r again later at' {t} h past =
      gone-unavailable limits functions token again later at' t (
        Without-gone (sha256 token) past
          (consume_gone limits functions token submitted now at s r h))
