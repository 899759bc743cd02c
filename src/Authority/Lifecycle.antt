-- ===== src/Authority/Lifecycle.antt =====
-- src/orbitmind/orchestration/authority_lifecycle.py: the commands that ask, decide, grant, revoke and
-- evaluate, each in one transaction over the repository. A command's fields and times are validated
-- when it is built. A failed command leaves the store of its transaction's start.
mod Messages
unfoldable pub use Messages.*
use orbit_mind_living_q_core.Common.{
  String, ◌||◌, List, [], ◌∷◌, ltb, keep, sorted_by, string_eq, nat_eq, ◌==◌, ◌!=◌, length, Result,
  ok, err, raise_if, ◌>>=◌, ◌>>◌,
}
use orbit_mind_living_q_core.Authority.Contracts.{
  rejected, ApprovalRequest, ApprovalDecision, CapabilityGrant, RevocationRecord,
  AuthorityEvaluationRequest, AuthorityEvaluationDecision, outcome_eq,
}
use orbit_mind_living_q_core.Authority.Evaluation.{evaluate_authority}
use orbit_mind_living_q_core.Authority.Evaluations.{decision_eq, EvaluationRow}
use orbit_mind_living_q_core.Authority.Repository.{
  Digests, Store, decision_schema, revocation_schema, get_approval_request, get_approval_decision,
  get_capability_grant, append_approval_decision, append_approval_request, append_capability_grant,
  append_revocation,
}
use orbit_mind_living_q_core.Authority.Recording.{limited, append_evaluation_record}
use orbit_mind_living_q_core.Persistence.Table
use orbit_mind_living_q_core.Persistence.Table.{RepositoryError, row_leb, linked_rows}

module _ (digests : Digests) where
  -- `list_approval_decisions`: the decisions of an owner, by time and id.
  unfoldable pub list_approval_decisions :
      String → Store → Result RepositoryError (List ApprovalDecision)
  list_approval_decisions owner s =
      Table.all_to_domain (decision_schema digests)
        (sorted_by row_leb (keep (λ r. r.owner_id == owner) s.decisions))

  -- `_decisions_for_request`.
  unfoldable pub decisions_for_request :
      String → String → Store → Result AuthorityLifecycleError (List ApprovalDecision)
  decisions_for_request owner request_id s = do
    decisions ← lift_repository (list_approval_decisions owner s)
    ok (keep (λ d. d.request_id == request_id) decisions)

  -- `_all_revocations_for_grant`.
  unfoldable pub all_revocations_for_grant :
      String → String → Store → Result AuthorityLifecycleError (List RevocationRecord)
  all_revocations_for_grant owner grant_id s = do
    rows ← lift_repository (
        Table.all_to_domain (revocation_schema digests)
          (limited 51 (linked_rows owner grant_id s.revocations)))
    raise_if (ltb 50 (length rows)) chain_mismatch
    ok rows

  -- The decisions that a request already has allow one more only if it is theirs.
  unfoldable pub check_existing :
      List ApprovalDecision → ApprovalDecision → Result AuthorityLifecycleError (Unit {0})
  check_existing [] decision = ok tt
  check_existing (existing ∷ []) decision = raise_if (existing != decision) request_already_decided
  check_existing (existing ∷ other ∷ more) decision = err chain_mismatch

  -- `create_approval_request`. The command's validator has accepted its window.
  unfoldable pub create_approval_request :
      CreateApprovalRequestCommand
      → Store
      → Result AuthorityLifecycleError (ApprovalRequest × Store)
  create_approval_request command s =
      lift_repository
        (append_approval_request digests (request_of command) command.idempotency_key s)

  -- `record_approval_decision`.
  unfoldable pub record_approval_decision :
      RecordApprovalDecisionCommand
      → Store
      → Result AuthorityLifecycleError (ApprovalDecision × Store)
  record_approval_decision command s = do
    request ←
        require_found request_not_found
          (get_approval_request digests command.owner_id command.request_id s)
    raise_if (command.policy_version != request.policy_version) policy_mismatch
    raise_if (ltb command.decided_at request.requested_at) chain_mismatch
    existing ← decisions_for_request command.owner_id command.request_id s
    check_existing existing (decision_of command request)
    lift_repository
        (append_approval_decision digests (decision_of command request) command.idempotency_key s)

  -- `issue_capability_grant`.
  unfoldable pub issue_capability_grant :
      IssueCapabilityGrantCommand → Store → Result AuthorityLifecycleError (CapabilityGrant × Store)
  issue_capability_grant command s = do
    request ←
        require_found request_not_found
          (get_approval_request digests command.owner_id command.request_id s)
    decision ←
        require_found decision_not_found
          (get_approval_decision digests command.owner_id command.decision_id s)
    raise_if (decision_is_foreign decision request) chain_mismatch
    raise_if (command.policy_version != request.policy_version) policy_mismatch
    raise_if (command.policy_version != decision.policy_version) policy_mismatch
    raise_if (decision.outcome == rejected) decision_rejected
    raise_if (ltb command.issued_at decision.decided_at) chain_mismatch
    raise_if
        ((command.valid_from != decision.validity.valid_from)
          || (command.expires_at != decision.validity.expires_at))
        chain_mismatch
    lift_repository (
        append_capability_grant digests (grant_of command request decision) command.idempotency_key
          s)

  -- `revoke_capability_grant`.
  unfoldable pub revoke_capability_grant :
      RevokeCapabilityGrantCommand
      → Store
      → Result AuthorityLifecycleError (RevocationRecord × Store)
  revoke_capability_grant command s = do
    grant ←
        require_found grant_not_found
          (get_capability_grant digests command.owner_id command.grant_id s)
    raise_if (command.policy_version != grant.policy_version) policy_mismatch
    lift_repository
        (append_revocation digests (revocation_of command grant) command.idempotency_key s)

  -- The question that `evaluate_authority_command` asks of the store.
  unfoldable pub stored_question :
      EvaluateAuthorityCommand → Store → Result AuthorityLifecycleError AuthorityEvaluationRequest
  stored_question command s = do
    request ←
        require_found request_not_found
          (get_approval_request digests command.owner_id command.request_id s)
    decision ←
        require_found decision_not_found
          (get_approval_decision digests command.owner_id command.decision_id s)
    raise_if (decision_is_foreign decision request) chain_mismatch
    raise_if (decision.outcome == rejected) decision_rejected
    grant ←
        require_found grant_not_found
          (get_capability_grant digests command.owner_id command.grant_id s)
    raise_if (grant_is_foreign grant request decision) chain_mismatch
    rows ← all_revocations_for_grant command.owner_id grant.grant_id s
    revocations ← accepted_revocations rows
    ok (question_of command request decision grant revocations)

  module _ (identity : AuthorityEvaluationRequest → AuthorityEvaluationDecision → String) where
    -- `evaluate_authority_command`.
    unfoldable pub evaluate_authority_command :
        EvaluateAuthorityCommand
        → Store
        → List EvaluationRow
        → Result AuthorityLifecycleError (AuthorityEvaluationDecision × List EvaluationRow)
    evaluate_authority_command command s rows = do
      question ← stored_question command s
      lift_repository (
          append_evaluation_record identity digests question (evaluate_authority question)
            command.idempotency_key s rows)
