-- ===== src/Authority/Precedence.antt =====
-- The order of the checks, what time and revocations can change, and the decision's own contract.
use orbit_mind_living_q_core.Common.{
  ◌≤◌, ◌≡◌, refl, Bool, true, false, not, List, [], ◌∷◌, ltb, leb, if◌then◌else◌, ◌!=◌, any, arith,
  eq_self, any-perm, string_eq,
}
use mathlib.Core.List.{Perm}
use mathlib.Core.Logic.{◌⊎◌}
use orbit_mind_living_q_core.Authority.Contracts.{
  Instant, approved, AuthorityReasonCode, authorized, approval_not_approved,
  approval_grant_mismatch, subject_mismatch, capability_mismatch, scope_mismatch, purpose_mismatch,
  not_yet_valid, expired, revoked, policy_version_mismatch, delegation_prohibited,
  malformed_authority_chain, subject_type_eq, outcome_eq, reason_code_eq, subject_eq, scope_eq,
  validity_eq, RevocationRecord, AuthorityEvaluationRequest, evaluation_details,
  authorized_consistency,
}
use orbit_mind_living_q_core.Authority.Evaluation.{
  evaluation_precedence, is_foreign, links_are_malformed, echo_differs, chain_is_malformed,
  grant_matches_decision, decide_with, is_revoked, evaluate_authority,
}

-- The check that each reason code stands for; `authorized` is what remains.
unfoldable pub fails : AuthorityEvaluationRequest → AuthorityReasonCode → Bool
fails r malformed_authority_chain = chain_is_malformed r
fails r delegation_prohibited = r.delegation_requested
fails r approval_not_approved = r.approval_decision.outcome != approved
fails r approval_grant_mismatch = not (grant_matches_decision r)
fails r subject_mismatch = r.subject != r.grant.subject
fails r capability_mismatch = r.capability != r.grant.capability
fails r scope_mismatch = r.scope != r.grant.scope
fails r purpose_mismatch = r.purpose != r.grant.purpose
fails r policy_version_mismatch = r.policy_version != r.grant.policy_version
fails r not_yet_valid = ltb r.evaluation_time r.grant.validity.valid_from
fails r expired = leb r.grant.validity.expires_at r.evaluation_time
fails r revoked = is_revoked r.evaluation_time r.revocations
fails r authorized = true

-- The first code of the list whose check fails.
unfoldable pub first_failing :
    (AuthorityReasonCode → Bool) → List AuthorityReasonCode → AuthorityReasonCode
first_failing p [] = malformed_authority_chain
first_failing p (c ∷ cs) = if p c then c else first_failing p cs

-- The evaluation reports the first failing check of `EVALUATION_PRECEDENCE`, in that order.
pub evaluate_authority-first_failing :
    (r : AuthorityEvaluationRequest)
    → (evaluate_authority r).reason_code ≡ first_failing (fails r) evaluation_precedence
unfolding evaluate_authority decide_with first_failing fails evaluation_precedence
evaluate_authority-first_failing r = ground arith

decide_with-consistent :
    (r : AuthorityEvaluationRequest) (c : AuthorityReasonCode) (include : Bool)
    → include ≡ (c != malformed_authority_chain)
    → authorized_consistency (decide_with r c include) ≡ true
unfolding decide_with authorized_consistency
decide_with-consistent r c include h = ground (arith, eq_self (evaluation_details c))

-- Every decision that the evaluation returns satisfies the validator of its own model, so that
-- its construction never raises.
pub evaluate_authority-consistent :
    (r : AuthorityEvaluationRequest) → authorized_consistency (evaluate_authority r) ≡ true
unfolding evaluate_authority
evaluate_authority-consistent r = grind (arith, decide_with-consistent r)

-- The same question at another time.
abbrev pub at_time : AuthorityEvaluationRequest → Instant → AuthorityEvaluationRequest
at_time r t = record r { evaluation_time = t }

any_mono {ℓ} :
    {A : Type ℓ} (p q : A → Bool) (xs : List A)
    → ((x : A) → p x ≡ true → q x ≡ true)
    → any p xs ≡ true
    → any q xs ≡ true
any_mono p q [] h e = e
any_mono p q (x ∷ xs) h e = ground (arith, h x, any_mono p q xs h)

is_revoked-later :
    (vs : List RevocationRecord) (t u : Instant)
    → t ≤ u
    → is_revoked t vs ≡ true
    → is_revoked u vs ≡ true
unfolding is_revoked
is_revoked-later vs t u le h =
    any_mono (λ v. leb v.effective_at t) (λ v. leb v.effective_at u) vs (λ v e. ground arith) h

-- Once the window is over or the grant revoked, no later evaluation of the same question
-- authorizes it: expiry and revocation are final.
pub evaluate_authority-final :
    (r : AuthorityEvaluationRequest) (t : Instant)
    → r.evaluation_time ≤ t
    → ((evaluate_authority r).reason_code ≡ expired)
      ⊎ ((evaluate_authority r).reason_code ≡ revoked)
    → (evaluate_authority (at_time r t)).is_authorized ≡ false
unfolding evaluate_authority decide_with
evaluate_authority-final r t le h =
    ground (arith, is_revoked-later r.revocations r.evaluation_time t le)

-- The same question with other revocations on record.
abbrev pub with_revocations :
    AuthorityEvaluationRequest → List RevocationRecord → AuthorityEvaluationRequest
with_revocations r vs = record r { revocations = vs }

-- The tests that do not read the revocations.
revocations_unread :
    (r : AuthorityEvaluationRequest) (vs : List RevocationRecord)
    → (links_are_malformed (with_revocations r vs) ≡ links_are_malformed r)
      × (echo_differs (with_revocations r vs) ≡ echo_differs r)
      × (grant_matches_decision (with_revocations r vs) ≡ grant_matches_decision r)
unfolding links_are_malformed echo_differs grant_matches_decision
revocations_unread r vs = (refl, refl, refl)

-- A further revocation of any content never turns a refusal into an authorization.
pub evaluate_authority-revocation_mono :
    (r : AuthorityEvaluationRequest) (v : RevocationRecord)
    → (evaluate_authority (with_revocations r (v ∷ r.revocations))).is_authorized ≡ true
    → (evaluate_authority r).is_authorized ≡ true
unfolding evaluate_authority decide_with chain_is_malformed is_foreign is_revoked
evaluate_authority-revocation_mono r v h = ground (arith, revocations_unread r (v ∷ r.revocations))

-- The whole decision is the same for any order of the revocations.
pub evaluate_authority-perm :
    (r : AuthorityEvaluationRequest) {vs : List RevocationRecord}
    → Perm r.revocations vs
    → evaluate_authority (with_revocations r vs) ≡ evaluate_authority r
unfolding evaluate_authority decide_with chain_is_malformed is_foreign is_revoked
evaluate_authority-perm r {vs} h =
    let foreign = any-perm (is_foreign r) h in
    let effective = any-perm (λ v. leb v.effective_at r.evaluation_time) h in
    ground (arith, revocations_unread r vs)
