-- ===== src/Authority/Lifecycle/Messages.antt =====
-- src/orbitmind/orchestration/authority_lifecycle.py: the commands, the errors, and the records that a
-- command makes of what is stored.
use orbit_mind_living_q_core.Common.{
  String, Bool, ◌||◌, Option, none, some, List, ltb, string_eq, nat_eq, ◌!=◌, Result, ok, err,
}
use orbit_mind_living_q_core.Authority.Contracts.{
  Instant, Actor, SubjectReference, AuthorityScope, ApprovalDecisionOutcome, ApprovalRequest,
  ApprovalDecision, CapabilityGrant, RevocationRecord, AuthorityEvaluationRequest, outcome_eq,
  subject_eq, scope_eq, validity_eq, revocations_sorted_unique,
}
use orbit_mind_living_q_core.Authority.Evaluations.{decision_eq}
use orbit_mind_living_q_core.Authority.Repository.{does_not_echo, does_not_match}
use orbit_mind_living_q_core.Persistence.Table.{RepositoryError}

-- The errors of the module, those of the repository that pass through it, and the validation error
-- of `AuthorityEvaluationRequest`.
pub data AuthorityLifecycleError : Type 0 where
  repository : RepositoryError → AuthorityLifecycleError
  request_not_found decision_not_found grant_not_found request_already_decided :
      AuthorityLifecycleError
  decision_rejected policy_mismatch chain_mismatch invalid_evaluation : AuthorityLifecycleError

pub record CreateApprovalRequestCommand : Type 0 where
  pub owner_id : String
  pub policy_version : String
  pub idempotency_key : String
  pub request_id : String
  pub requested_by : String
  pub subject : SubjectReference
  pub capability : String
  pub scope : AuthorityScope
  pub purpose : String
  pub requested_at : Instant
  pub valid_from : Instant
  pub expires_at : Instant

pub record RecordApprovalDecisionCommand : Type 0 where
  pub owner_id : String
  pub policy_version : String
  pub idempotency_key : String
  pub decision_id : String
  pub request_id : String
  pub decided_by : Actor
  pub outcome : ApprovalDecisionOutcome
  pub decided_at : Instant
  pub reason : String

-- `delegation` has one value, prohibition, and is left out.
pub record IssueCapabilityGrantCommand : Type 0 where
  pub owner_id : String
  pub policy_version : String
  pub idempotency_key : String
  pub grant_id : String
  pub request_id : String
  pub decision_id : String
  pub issued_by : Actor
  pub issued_at : Instant
  pub valid_from : Instant
  pub expires_at : Instant

pub record RevokeCapabilityGrantCommand : Type 0 where
  pub owner_id : String
  pub policy_version : String
  pub idempotency_key : String
  pub revocation_id : String
  pub grant_id : String
  pub revoked_by : String
  pub effective_at : Instant
  pub recorded_at : Instant
  pub reason : String

pub record EvaluateAuthorityCommand : Type 0 where
  pub owner_id : String
  pub policy_version : String
  pub idempotency_key : String
  pub evaluation_id : String
  pub request_id : String
  pub decision_id : String
  pub grant_id : String
  pub subject : SubjectReference
  pub capability : String
  pub scope : AuthorityScope
  pub purpose : String
  pub evaluation_time : Instant
  pub delegation_requested : Bool

-- A repository error passes through a command.
unfoldable pub lift_repository :
    {A : Type 0} → Result RepositoryError A → Result AuthorityLifecycleError A
lift_repository (ok a) = ok a
lift_repository (err e) = err (repository e)

-- What a read must find.
unfoldable pub require_found :
    {A : Type 0}
    → AuthorityLifecycleError
    → Result RepositoryError (Option A)
    → Result AuthorityLifecycleError A
require_found e (ok (some a)) = ok a
require_found e (ok none) = err e
require_found e (err c) = err (repository c)

-- `_require_decision_for_request`.
unfoldable pub decision_is_foreign : ApprovalDecision → ApprovalRequest → Bool
decision_is_foreign decision request =
    (decision.owner_id != request.owner_id)
    || (decision.request_id != request.request_id)
    || does_not_echo decision request
    || ltb decision.decided_at request.requested_at

-- `_require_grant_for_decision`.
unfoldable pub grant_is_foreign : CapabilityGrant → ApprovalRequest → ApprovalDecision → Bool
grant_is_foreign grant request decision =
    (grant.owner_id != request.owner_id)
    || (grant.request_id != request.request_id)
    || (grant.decision_id != decision.decision_id)
    || does_not_match grant decision
    || ltb grant.issued_at decision.decided_at

-- The request of a command.
abbrev pub request_of : CreateApprovalRequestCommand → ApprovalRequest
request_of command = record {
  request_id = command.request_id;
  owner_id = command.owner_id;
  requested_by = command.requested_by;
  subject = command.subject;
  capability = command.capability;
  scope = command.scope;
  purpose = command.purpose;
  policy_version = command.policy_version;
  requested_at = command.requested_at;
  validity = record { valid_from = command.valid_from; expires_at = command.expires_at };
}

-- The decision of a command on its stored request.
abbrev pub decision_of : RecordApprovalDecisionCommand → ApprovalRequest → ApprovalDecision
decision_of command request = record {
  decision_id = command.decision_id;
  request_id = request.request_id;
  owner_id = request.owner_id;
  decided_by = command.decided_by;
  outcome = command.outcome;
  decided_at = command.decided_at;
  reason = command.reason;
  subject = request.subject;
  capability = request.capability;
  scope = request.scope;
  purpose = request.purpose;
  policy_version = request.policy_version;
  validity = request.validity;
}

-- The grant of a command on its stored request and decision.
abbrev pub grant_of :
    IssueCapabilityGrantCommand → ApprovalRequest → ApprovalDecision → CapabilityGrant
grant_of command request decision = record {
  grant_id = command.grant_id;
  owner_id = request.owner_id;
  request_id = request.request_id;
  decision_id = decision.decision_id;
  issued_by = command.issued_by;
  issued_at = command.issued_at;
  subject = request.subject;
  capability = request.capability;
  scope = request.scope;
  purpose = request.purpose;
  policy_version = request.policy_version;
  validity = request.validity;
}

-- The revocation of a command on its stored grant.
abbrev pub revocation_of : RevokeCapabilityGrantCommand → CapabilityGrant → RevocationRecord
revocation_of command grant = record {
  revocation_id = command.revocation_id;
  grant_id = grant.grant_id;
  owner_id = grant.owner_id;
  revoked_by = command.revoked_by;
  effective_at = command.effective_at;
  recorded_at = command.recorded_at;
  reason = command.reason;
}

-- The question of a command on its stored chain.
abbrev pub question_of :
    EvaluateAuthorityCommand
    → ApprovalRequest
    → ApprovalDecision
    → CapabilityGrant
    → List RevocationRecord
    → AuthorityEvaluationRequest
question_of command request decision grant revocations = record {
  evaluation_id = command.evaluation_id;
  owner_id = command.owner_id;
  evaluation_time = command.evaluation_time;
  subject = command.subject;
  capability = command.capability;
  scope = command.scope;
  purpose = command.purpose;
  policy_version = command.policy_version;
  delegation_requested = command.delegation_requested;
  approval_request = request;
  approval_decision = decision;
  grant = grant;
  revocations = revocations;
}

-- The constructor of `AuthorityEvaluationRequest` on the revocations that were read.
unfoldable pub accepted_revocations :
    List RevocationRecord → Result AuthorityLifecycleError (List RevocationRecord)
accepted_revocations revocations = elim (revocations_sorted_unique revocations) [
  | none ↦ err invalid_evaluation
  | some sorted ↦ ok sorted
]
