-- ===== src/Examples/Lifecycle.antt =====
-- The theorems of the authority commands at the examples.
use orbit_mind_living_q_core.Common.{
  ◌≤◌, ◌<◌, ◌≡◌, refl, true, false, some, List, [], ◌∷◌, ok, err, ◌⊎◌, String, String-discrete,
  Bool-discrete,
}
use native.Mathlib.Decide.{ℕ_discrete}
use orbit_mind_living_q_core.Authority.Contracts.{
  Instant, ApprovalRequest, ApprovalDecision, ApprovalDecisionOutcome, AuthorityEvaluationRequest,
  AuthorityEvaluationDecision, authorized, evaluation_details, window_contains,
  SubjectType-discrete, ApprovalDecisionOutcome-discrete, AuthorityReasonCode-discrete,
  SubjectReference-discrete, ScopeConstraint-discrete, AuthorityScope-discrete,
  ValidityWindow-discrete, revocations_sorted_unique,
}
use orbit_mind_living_q_core.Authority.Evaluation.{
  links_are_malformed, owners_differ, is_operator, is_foreign, echo_differs, chain_is_malformed,
  grant_matches_decision, decide_with, is_revoked, evaluate_authority,
}
use orbit_mind_living_q_core.Authority.Repository.{
  Store, append_approval_decision, append_capability_grant, check_decision, check_grant,
  does_not_echo, does_not_match, get_approval_request, get_approval_decision, get_capability_grant,
}
use orbit_mind_living_q_core.Authority.Evaluations.{
  OperatorReference-discrete, Actor-discrete, ApprovalRequest-discrete, ApprovalDecision-discrete,
  CapabilityGrant-discrete, RevocationRecord-discrete, Revocations-discrete,
  EvaluationDecision-discrete, EvaluationRow, relevant_revocation_id, projections_differ,
  chain_is_complete,
}
use orbit_mind_living_q_core.Authority.Recording.{
  rebuilt_request, limited, bounded_revocations, resolve_chain, check_payload, evaluation_to_domain,
  evaluation_row, authoritative_request, insert_evaluation, append_evaluation_record,
}
use orbit_mind_living_q_core.Authority.Soundness.{IsOperator}
use orbit_mind_living_q_core.Authority.Issue.{exact_question}
use orbit_mind_living_q_core.Authority.Persisted.{Replayed, Recorded}
use orbit_mind_living_q_core.Authority.Lifecycle.{
  RecordApprovalDecisionCommand, IssueCapabilityGrantCommand, EvaluateAuthorityCommand,
  request_already_decided, lift_repository, require_found, decision_is_foreign, grant_is_foreign,
  grant_of, accepted_revocations, all_revocations_for_grant, list_approval_decisions,
  decisions_for_request, check_existing, record_approval_decision, issue_capability_grant,
  stored_question, evaluate_authority_command,
}
use orbit_mind_living_q_core.Authority.Commands.{
  IsApproved, IsAsked, issue_capability_grant-IsApproved, evaluate_authority_command-Recorded,
}
use orbit_mind_living_q_core.Authority.Terminal.{IsDecided, record_approval_decision-terminal}
use orbit_mind_living_q_core.Authority.ChainReads.{AuthorityChainReadModel}
use orbit_mind_living_q_core.Persistence.Table
use orbit_mind_living_q_core.Examples.Data.{
  an_approval, a_decision, a_grant, a_question, an_operator, digests, a_store,
}

-- The store before the grant, and the one before the decision.
abbrev decided_store : Store
decided_store = record a_store { grants = [] }

abbrev requested_store : Store
requested_store = record a_store { grants = []; decisions = [] }

abbrev a_decision_command : RecordApprovalDecisionCommand
a_decision_command = record {
  owner_id = "owner-1";
  policy_version = "v1";
  idempotency_key = "key-2";
  decision_id = "decision-1";
  request_id = "request-1";
  decided_by = an_operator;
  outcome = ApprovalDecisionOutcome.approved;
  decided_at = 2;
  reason = "reviewed";
}

abbrev a_grant_command : IssueCapabilityGrantCommand
a_grant_command = record {
  owner_id = "owner-1";
  policy_version = "v1";
  idempotency_key = "key-3";
  grant_id = "grant-1";
  request_id = "request-1";
  decision_id = "decision-1";
  issued_by = an_operator;
  issued_at = 3;
  valid_from = an_approval.validity.valid_from;
  expires_at = an_approval.validity.expires_at;
}

abbrev an_evaluation_command : EvaluateAuthorityCommand
an_evaluation_command = record {
  owner_id = "owner-1";
  policy_version = "v1";
  idempotency_key = "key-9";
  evaluation_id = "evaluation-1";
  request_id = "request-1";
  decision_id = "decision-1";
  grant_id = "grant-1";
  subject = an_approval.subject;
  capability = an_approval.capability;
  scope = an_approval.scope;
  purpose = an_approval.purpose;
  evaluation_time = 50;
  delegation_requested = false;
}

decision_runs :
    record_approval_decision digests a_decision_command requested_store
    ≡ ok (a_decision, decided_store)
unfolding record_approval_decision require_found lift_repository decisions_for_request
    list_approval_decisions check_existing get_approval_request append_approval_decision
    check_decision does_not_echo Table.append Table.by_key Table.by_id Table.resolve_replay
    Table.new_row Table.to_domain Table.all_to_domain Table.get_by_id String-discrete ℕ_discrete
    SubjectType-discrete SubjectReference-discrete ScopeConstraint-discrete AuthorityScope-discrete
    ValidityWindow-discrete
decision_runs = refl

record_approval_decision-terminal_example :
    (decided_store ≡ requested_store)
    ⊎ IsDecided digests requested_store decided_store a_decision_command a_decision
record_approval_decision-terminal_example =
    record_approval_decision-terminal digests a_decision_command requested_store decided_store
      a_decision tt decision_runs

-- Another decision on the decided request is refused.
second_decision :
    record_approval_decision digests
      (record a_decision_command {
        decision_id = "decision-2";
        idempotency_key = "key-4";
        outcome = ApprovalDecisionOutcome.rejected;
      })
      decided_store
    ≡ err request_already_decided
unfolding record_approval_decision require_found lift_repository decisions_for_request
    list_approval_decisions check_existing get_approval_request Table.by_id Table.new_row
    Table.to_domain Table.all_to_domain Table.get_by_id String-discrete ℕ_discrete
    SubjectType-discrete SubjectReference-discrete ScopeConstraint-discrete AuthorityScope-discrete
    ValidityWindow-discrete OperatorReference-discrete Actor-discrete ApprovalDecision-discrete
    ApprovalDecisionOutcome-discrete
second_decision = refl

grant_runs : issue_capability_grant digests a_grant_command decided_store ≡ ok (a_grant, a_store)
unfolding issue_capability_grant require_found lift_repository decision_is_foreign
    get_approval_request get_approval_decision append_capability_grant check_grant does_not_echo
    does_not_match Table.append Table.by_key Table.by_id Table.resolve_replay Table.new_row
    Table.to_domain Table.get_by_id String-discrete ℕ_discrete SubjectType-discrete
    SubjectReference-discrete ScopeConstraint-discrete AuthorityScope-discrete
    ValidityWindow-discrete ApprovalDecisionOutcome-discrete
grant_runs = refl

issue_capability_grant-IsApproved_example :
    (request : ApprovalRequest) × (decision : ApprovalDecision) × IsApproved digests decided_store
      a_grant_command request decision
    × (append_capability_grant digests
          (grant_of a_grant_command request decision)
          "key-3"
          decided_store
        ≡ ok (a_grant, a_store))
    × ((evaluation_id : String) (moment : Instant)
        → IsOperator decision.decided_by
        → IsOperator a_grant_command.issued_by
        → a_grant_command.issued_at ≤ moment
        → a_grant_command.valid_from ≤ moment
        → moment < a_grant_command.expires_at
        → (evaluate_authority (
            exact_question evaluation_id moment request decision
              (grant_of a_grant_command request decision))).is_authorized
          ≡ true)
issue_capability_grant-IsApproved_example =
    issue_capability_grant-IsApproved digests a_grant_command decided_store a_store a_grant
      grant_runs

abbrev own_identity : AuthorityEvaluationRequest → AuthorityEvaluationDecision → String
own_identity r d = r.evaluation_id

abbrev a_verdict : AuthorityEvaluationDecision
a_verdict = record {
  evaluation_id = "evaluation-1";
  evaluation_time = 50;
  is_authorized = true;
  reason_code = authorized;
  grant_id = some "grant-1";
  detail = "Authority chain is exact, approved, within validity, and unrevoked.";
}

abbrev recorded : List EvaluationRow
recorded = evaluation_row own_identity "evaluation-1" (a_question []) a_verdict "key-9" ∷ []

evaluation_runs :
    evaluate_authority_command digests own_identity an_evaluation_command a_store []
    ≡ ok (a_verdict, recorded)
unfolding evaluate_authority_command stored_question require_found lift_repository
    decision_is_foreign grant_is_foreign all_revocations_for_grant accepted_revocations
    revocations_sorted_unique get_approval_request get_approval_decision get_capability_grant
    append_evaluation_record insert_evaluation authoritative_request rebuilt_request
    evaluation_to_domain check_payload resolve_chain bounded_revocations limited chain_is_complete
    projections_differ relevant_revocation_id evaluate_authority chain_is_malformed
    links_are_malformed owners_differ is_operator is_foreign echo_differs grant_matches_decision
    decide_with is_revoked String-discrete does_not_echo does_not_match Table.resolve_replay
    Table.by_key Table.by_id Table.get_by_id Table.to_domain Table.all_to_domain Table.new_row
    Table.is_link OperatorReference-discrete Actor-discrete ApprovalRequest-discrete
    ApprovalDecision-discrete CapabilityGrant-discrete RevocationRecord-discrete
    Revocations-discrete EvaluationDecision-discrete evaluation_details window_contains
    SubjectType-discrete ApprovalDecisionOutcome-discrete AuthorityReasonCode-discrete
    SubjectReference-discrete ScopeConstraint-discrete AuthorityScope-discrete
    ValidityWindow-discrete ℕ_discrete Bool-discrete
evaluation_runs = refl

evaluate_authority_command-Recorded_example :
    (r : AuthorityEvaluationRequest) × IsAsked digests a_store an_evaluation_command r
    × (((recorded ≡ []) × Replayed own_identity r (evaluate_authority r) "key-9" [] a_verdict)
        ⊎ Recorded own_identity digests r
            (evaluate_authority r)
            "key-9"
            a_store
            []
            a_verdict
            recorded)
evaluate_authority_command-Recorded_example =
    evaluate_authority_command-Recorded digests own_identity an_evaluation_command a_store []
      recorded a_verdict evaluation_runs

abbrev a_chain : AuthorityChainReadModel
a_chain = record {
  owner_id = "owner-1";
  approval_request = an_approval;
  approval_decisions = a_decision ∷ [];
  capability_grants = a_grant ∷ [];
  revocations = [];
  evaluations = a_verdict ∷ [];
}
