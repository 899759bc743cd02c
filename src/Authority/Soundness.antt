-- ===== src/Authority/Soundness.antt =====
-- The evaluation against an independent reading of an exact authority chain.
use orbit_mind_living_q_core.Common.{
  ◌≤◌, ◌<◌, ◌≡◌, ◌↔◌, String, true, false, List, string_eq, nat_eq, any, arith, All, any-false_iff,
}
use orbit_mind_living_q_core.Authority.Contracts.{
  Instant, SubjectType, approved, Actor, operator_reference, other_object, reason_code_eq,
  RevocationRecord, AuthorityEvaluationRequest,
}
use orbit_mind_living_q_core.Authority.Evaluation.{
  owners_differ, is_operator, is_foreign, links_are_malformed, echo_differs, chain_is_malformed,
  grant_matches_decision, decide_with, is_revoked, evaluate_authority,
}

-- An actor is an operator reference whose type has not been tampered with.
abbrev pub IsOperator : Actor → Type 0
IsOperator (operator_reference o) = o.subject_type ≡ SubjectType.operator
IsOperator other_object = ⊥

-- The records of the chain refer to one another, have one owner, were made by operators and in
-- order, every revocation is one of this grant, and the decision echoes its request.
pub record IsLinked (request : AuthorityEvaluationRequest) : Type 0 where
  pub decided_request : request.approval_decision.request_id ≡ request.approval_request.request_id
  pub granted_request : request.grant.request_id ≡ request.approval_request.request_id
  pub granted_decision : request.grant.decision_id ≡ request.approval_decision.decision_id
  pub request_owner : request.owner_id ≡ request.approval_request.owner_id
  pub decision_owner : request.approval_decision.owner_id ≡ request.approval_request.owner_id
  pub grant_owner : request.grant.owner_id ≡ request.approval_request.owner_id
  pub decided_by_operator : IsOperator request.approval_decision.decided_by
  pub issued_by_operator : IsOperator request.grant.issued_by
  pub requested_first : request.approval_request.requested_at ≤ request.approval_decision.decided_at
  pub decided_first : request.approval_decision.decided_at ≤ request.grant.issued_at
  pub issued_first : request.grant.issued_at ≤ request.evaluation_time

-- The revocation is of the request's grant, and of its owner.
abbrev pub OfGrant : AuthorityEvaluationRequest → RevocationRecord → Type 0
OfGrant r v = (v.grant_id ≡ r.grant.grant_id) × (v.owner_id ≡ r.grant.owner_id)

-- The decision names what was requested.
pub record Echoes (r : AuthorityEvaluationRequest) : Type 0 where
  pub subject : r.approval_decision.subject ≡ r.approval_request.subject
  pub capability : r.approval_decision.capability ≡ r.approval_request.capability
  pub scope : r.approval_decision.scope ≡ r.approval_request.scope
  pub purpose : r.approval_decision.purpose ≡ r.approval_request.purpose
  pub policy_version : r.approval_decision.policy_version ≡ r.approval_request.policy_version
  pub validity : r.approval_decision.validity ≡ r.approval_request.validity

-- The grant names what was decided.
pub record Matches (r : AuthorityEvaluationRequest) : Type 0 where
  pub subject : r.grant.subject ≡ r.approval_decision.subject
  pub capability : r.grant.capability ≡ r.approval_decision.capability
  pub scope : r.grant.scope ≡ r.approval_decision.scope
  pub purpose : r.grant.purpose ≡ r.approval_decision.purpose
  pub policy_version : r.grant.policy_version ≡ r.approval_decision.policy_version
  pub validity : r.grant.validity ≡ r.approval_decision.validity

-- Everything that an authorized question needs.
pub record IsAuthorized (r : AuthorityEvaluationRequest) : Type 0 where
  pub linked : IsLinked r
  pub revocations_of_grant : All (OfGrant r) r.revocations
  pub echoes : Echoes r
  pub is_approved : r.approval_decision.outcome ≡ approved
  pub decided : Matches r
  pub no_delegation : r.delegation_requested ≡ false
  pub subject : r.subject ≡ r.grant.subject
  pub capability : r.capability ≡ r.grant.capability
  pub scope : r.scope ≡ r.grant.scope
  pub purpose : r.purpose ≡ r.grant.purpose
  pub policy_version : r.policy_version ≡ r.grant.policy_version
  pub started : r.grant.validity.valid_from ≤ r.evaluation_time
  pub not_over : r.evaluation_time < r.grant.validity.expires_at
  pub not_revoked : All (λ v. r.evaluation_time < v.effective_at) r.revocations

owners_lem : (a b c d : String) → (owners_differ a b c d ≡ false) ↔ ((a ≡ b) × (c ≡ b) × (d ≡ b))
unfolding owners_differ
owners_lem a b c d = ground arith

is_operator_lem : (a : Actor) → (is_operator a ≡ true) ↔ IsOperator a
unfolding is_operator
is_operator_lem (operator_reference o) = ground arith
is_operator_lem other_object = ground arith

links_lem :
    (request : AuthorityEvaluationRequest)
    → (links_are_malformed request ≡ false) ↔ IsLinked request
unfolding links_are_malformed
links_lem r =
    let d = r.approval_decision in
    let owners = owners_lem r.owner_id r.approval_request.owner_id d.owner_id r.grant.owner_id in
    let decided = is_operator_lem d.decided_by in
    let issued = is_operator_lem r.grant.issued_by in (λ h. ground arith, λ h. ground arith)

echo_lem : (r : AuthorityEvaluationRequest) → (echo_differs r ≡ false) ↔ Echoes r
unfolding echo_differs
echo_lem r = ground arith

foreign_lem :
    (r : AuthorityEvaluationRequest)
    → (any (is_foreign r) r.revocations ≡ false) ↔ All (OfGrant r) r.revocations
unfolding is_foreign
foreign_lem r = any-false_iff (is_foreign r) (OfGrant r) (λ v. ground arith) r.revocations

revoked_lem :
    (t : Instant) (vs : List RevocationRecord)
    → (is_revoked t vs ≡ false) ↔ All (λ v. t < v.effective_at) vs
unfolding is_revoked
revoked_lem t vs = any-false_iff _ _ (λ v. ground arith) vs

matches_lem : (r : AuthorityEvaluationRequest) → (grant_matches_decision r ≡ true) ↔ Matches r
unfolding grant_matches_decision
matches_lem r = ground arith

malformed_lem :
    (r : AuthorityEvaluationRequest)
    → (chain_is_malformed r ≡ false) ↔ (IsLinked r × All (OfGrant r) r.revocations × Echoes r)
unfolding chain_is_malformed
malformed_lem r =
    let links = links_lem r in
    let foreign = foreign_lem r in let echo = echo_lem r in (λ h. ground arith, λ h. ground arith)

-- The evaluation authorizes exactly the requests that the reading `IsAuthorized` accepts: the
-- chain is linked, its revocations are of its grant and not yet effective, the decision echoes
-- its request and approves, the grant is the one decided, the question is the grant's in every
-- field, it asks for no delegation, and its time lies in the grant's half-open window.
pub evaluate_authority-IsAuthorized_iff :
    (r : AuthorityEvaluationRequest)
    → ((evaluate_authority r).is_authorized ≡ true) ↔ IsAuthorized r
unfolding evaluate_authority decide_with
evaluate_authority-IsAuthorized_iff r =
    let malformed = malformed_lem r in
    let matches = matches_lem r in
    let revoked = revoked_lem r.evaluation_time r.revocations in
    (λ h. ground arith, λ h. ground arith)
