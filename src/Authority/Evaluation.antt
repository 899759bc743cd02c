-- ===== src/Authority/Evaluation.antt =====
-- src/orbitmind/authority/evaluation.py: the pure evaluation of one authority question.
use orbit_mind_living_q_core.Common.{
  String, Bool, true, false, not, ◌&&◌, ◌||◌, none, some, List, [], ◌∷◌, ltb, leb, if◌then◌else◌,
  string_eq, ◌==◌, ◌!=◌, any, to_set, length, nat_eq,
}
use orbit_mind_living_q_core.Authority.Contracts.{
  Instant, SubjectType, approved, AuthorityReasonCode, authorized, approval_not_approved,
  approval_grant_mismatch, subject_mismatch, capability_mismatch, scope_mismatch, purpose_mismatch,
  not_yet_valid, expired, revoked, policy_version_mismatch, delegation_prohibited,
  malformed_authority_chain, subject_type_eq, outcome_eq, reason_code_eq, subject_eq, scope_eq,
  validity_eq, Actor, operator_reference, other_object, RevocationRecord,
  AuthorityEvaluationRequest, AuthorityEvaluationDecision, evaluation_details,
}

-- `EVALUATION_PRECEDENCE`.
unfoldable pub evaluation_precedence : List AuthorityReasonCode
evaluation_precedence =
    malformed_authority_chain ∷ delegation_prohibited ∷ approval_not_approved
    ∷ approval_grant_mismatch ∷ subject_mismatch ∷ capability_mismatch ∷ scope_mismatch
    ∷ purpose_mismatch ∷ policy_version_mismatch ∷ not_yet_valid ∷ expired ∷ revoked ∷ authorized
    ∷ []

-- `isinstance(actor, OperatorReference)` and its `subject_type` is OPERATOR.
unfoldable pub is_operator : Actor → Bool
is_operator (operator_reference o) = o.subject_type == SubjectType.operator
is_operator other_object = false

-- A revocation of another grant, or of another owner.
unfoldable pub is_foreign : AuthorityEvaluationRequest → RevocationRecord → Bool
is_foreign request revocation =
    (revocation.grant_id != request.grant.grant_id)
    || (revocation.owner_id != request.grant.owner_id)

-- `len({a, b, c, d}) != 1`, the test on the four owners of the chain.
unfoldable pub owners_differ : String → String → String → String → Bool
owners_differ a b c d = length (to_set (a ∷ b ∷ c ∷ d ∷ [])) != 1

-- The tests of `_chain_is_malformed` up to the loop over the revocations.
unfoldable pub links_are_malformed : AuthorityEvaluationRequest → Bool
links_are_malformed request =
    let approval = request.approval_request in
    let decision = request.approval_decision in
    let grant = request.grant in
    if decision.request_id != approval.request_id
    then true
    else if (grant.request_id != approval.request_id) || (grant.decision_id != decision.decision_id)
    then true
    else if owners_differ request.owner_id approval.owner_id decision.owner_id grant.owner_id
    then true
    else if not (is_operator decision.decided_by) || not (is_operator grant.issued_by)
    then true
    else not (
        leb approval.requested_at decision.decided_at
        && leb decision.decided_at grant.issued_at
        && leb grant.issued_at request.evaluation_time)

-- The last test: the decision echoes the request that it decided.
unfoldable pub echo_differs : AuthorityEvaluationRequest → Bool
echo_differs request =
    let approval = request.approval_request in
    let decision = request.approval_decision in
    (decision.subject != approval.subject)
    || (decision.capability != approval.capability)
    || (decision.scope != approval.scope)
    || (decision.purpose != approval.purpose)
    || (decision.policy_version != approval.policy_version)
    || (decision.validity != approval.validity)

-- `_chain_is_malformed`.
unfoldable pub chain_is_malformed : AuthorityEvaluationRequest → Bool
chain_is_malformed request =
    if links_are_malformed request
    then true
    else if any (is_foreign request) request.revocations
    then true
    else echo_differs request

-- `_grant_matches_decision`.
unfoldable pub grant_matches_decision : AuthorityEvaluationRequest → Bool
grant_matches_decision request =
    let decision = request.approval_decision in
    let grant = request.grant in
    (grant.subject == decision.subject)
    && (grant.capability == decision.capability)
    && (grant.scope == decision.scope)
    && (grant.purpose == decision.purpose)
    && (grant.policy_version == decision.policy_version)
    && (grant.validity == decision.validity)

-- `_decide`.
unfoldable pub decide_with :
    AuthorityEvaluationRequest → AuthorityReasonCode → Bool → AuthorityEvaluationDecision
decide_with request reason_code include_grant = record {
  evaluation_id = request.evaluation_id;
  evaluation_time = request.evaluation_time;
  is_authorized = reason_code == authorized;
  reason_code = reason_code;
  grant_id = if include_grant then some request.grant.grant_id else none;
  detail = evaluation_details reason_code;
}

-- The loop over the revocations: is one of them effective?
unfoldable pub is_revoked : Instant → List RevocationRecord → Bool
is_revoked evaluation_time = any (λ revocation. leb revocation.effective_at evaluation_time)

-- `evaluate_authority`.
unfoldable pub evaluate_authority : AuthorityEvaluationRequest → AuthorityEvaluationDecision
evaluate_authority request =
    let decide = decide_with request in
    let decision = request.approval_decision in
    let grant = request.grant in
    if chain_is_malformed request
    then decide malformed_authority_chain false
    else if request.delegation_requested
    then decide delegation_prohibited true
    else if decision.outcome != approved
    then decide approval_not_approved true
    else if not (grant_matches_decision request)
    then decide approval_grant_mismatch true
    else if request.subject != grant.subject
    then decide subject_mismatch true
    else if request.capability != grant.capability
    then decide capability_mismatch true
    else if request.scope != grant.scope
    then decide scope_mismatch true
    else if request.purpose != grant.purpose
    then decide purpose_mismatch true
    else if request.policy_version != grant.policy_version
    then decide policy_version_mismatch true
    else if ltb request.evaluation_time grant.validity.valid_from
    then decide not_yet_valid true
    else if leb grant.validity.expires_at request.evaluation_time
    then decide expired true
    else if is_revoked request.evaluation_time request.revocations
    then decide revoked true
    else decide authorized true
