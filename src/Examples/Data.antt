-- ===== src/Examples/Data.antt =====
-- The records of the examples: an owner's approved grant of proposing a file change to an agent,
-- and proposals that use it.
use orbit_mind_living_q_core.Common.{ℕ, String, true, false, none, some, List, [], ◌∷◌}
use orbit_mind_living_q_core.Authority.Contracts.{
  SubjectType, SubjectReference, AuthorityScope, ValidityWindow, Actor, operator_reference,
  ApprovalDecisionOutcome, ApprovalRequest, ApprovalDecision, CapabilityGrant, RevocationRecord,
  AuthorityEvaluationRequest,
}
use orbit_mind_living_q_core.Authority.Repository.{
  Digests, Store, grant_schema, decision_schema, request_schema,
}
use orbit_mind_living_q_core.Persistence.Table
use orbit_mind_living_q_core.Admission.Contracts.{
  ProposalActorType, AdmissionSideEffectClass, AdmissionRiskClass, OperationProposal,
  AdmissionEvaluationContext, AuthorityFinding,
}
use orbit_mind_living_q_core.Admission.Lifecycle.{Functions}
use orbit_mind_living_q_core.Gateway.Contracts.{ToolInvocationProposal, GatewayEvaluationContext}
use orbit_mind_living_q_core.Gateway.Lifecycle.{GatewayFunctions}

abbrev pub agent : SubjectReference
agent = record { subject_type = SubjectType.agent; subject_id = "agent-1" }

abbrev pub repository_scope : AuthorityScope
repository_scope = record { resource_type = "repository"; resource_id = "core"; constraints = [] }

abbrev pub window : ValidityWindow
window = record { valid_from = 10; expires_at = 100 }

abbrev pub an_operator : Actor
an_operator =
    operator_reference (record { subject_type = SubjectType.operator; subject_id = "operator-1" })

abbrev pub an_approval : ApprovalRequest
an_approval = record {
  request_id = "request-1";
  owner_id = "owner-1";
  requested_by = "agent-1";
  subject = agent;
  capability = "repository_write_proposal";
  scope = repository_scope;
  purpose = "patch";
  policy_version = "v1";
  requested_at = 1;
  validity = window;
}

abbrev pub a_decision : ApprovalDecision
a_decision = record {
  decision_id = "decision-1";
  request_id = "request-1";
  owner_id = "owner-1";
  decided_by = an_operator;
  outcome = ApprovalDecisionOutcome.approved;
  decided_at = 2;
  reason = "reviewed";
  subject = agent;
  capability = "repository_write_proposal";
  scope = repository_scope;
  purpose = "patch";
  policy_version = "v1";
  validity = window;
}

abbrev pub a_grant : CapabilityGrant
a_grant = record {
  grant_id = "grant-1";
  owner_id = "owner-1";
  request_id = "request-1";
  decision_id = "decision-1";
  issued_by = an_operator;
  issued_at = 3;
  subject = agent;
  capability = "repository_write_proposal";
  scope = repository_scope;
  purpose = "patch";
  policy_version = "v1";
  validity = window;
}

-- A revocation of the grant that takes effect at the time.
abbrev pub revocation_at : String → ℕ → RevocationRecord
revocation_at id effective_at = record {
  revocation_id = id;
  grant_id = "grant-1";
  owner_id = "owner-1";
  revoked_by = "operator-1";
  effective_at = effective_at;
  recorded_at = 4;
  reason = "withdrawn";
}

-- The question of the grant's own subject, with the revocations on record.
abbrev pub a_question : List RevocationRecord → AuthorityEvaluationRequest
a_question revocations = record {
  evaluation_id = "evaluation-1";
  owner_id = "owner-1";
  evaluation_time = 50;
  subject = agent;
  capability = "repository_write_proposal";
  scope = repository_scope;
  purpose = "patch";
  policy_version = "v1";
  delegation_requested = false;
  approval_request = an_approval;
  approval_decision = a_decision;
  grant = a_grant;
  revocations = revocations;
}

-- Stand-ins for the digests: what identifies each record.
abbrev pub digests : Digests
digests = record {
  of_request = λ r. r.request_id;
  of_decision = λ d. d.decision_id;
  of_grant = λ g. g.grant_id;
  of_revocation = λ v. v.revocation_id;
}

abbrev pub functions : Functions
functions = record {
  fingerprint_of = λ s. s.proposal.purpose;
  checksum_of = λ fingerprint d. fingerprint;
  identity_of = λ r. r.admission_id;
  admission_id_of = λ owner key. key;
}

abbrev pub gateway_functions : GatewayFunctions
gateway_functions = record {
  fingerprint_of = λ s. s.proposal.purpose;
  checksum_of = λ fingerprint c i d. fingerprint;
  descriptor_checksum_of = λ d. d.tool_id;
  identity_of = λ r. r.gateway_decision_id;
  decision_id_of = λ owner key. key;
}

abbrev pub a_store : Store
a_store = record {
  requests = Table.new_row (request_schema digests) an_approval "key-1" ∷ [];
  decisions = Table.new_row (decision_schema digests) a_decision "key-2" ∷ [];
  grants = Table.new_row (grant_schema digests) a_grant "key-3" ∷ [];
  revocations = [];
}

abbrev pub a_change : OperationProposal
a_change = record {
  proposal_id = "proposal-1";
  owner_id = "owner-1";
  actor_id = "agent-1";
  actor_type = ProposalActorType.agent;
  operation_kind = "propose_file_change";
  requested_capability = "repository_write_proposal";
  requested_scope = record { resource_type = "repository"; resource_id = "core"; constraints = [] };
  side_effect_class = AdmissionSideEffectClass.local_write_proposal;
  risk_class = AdmissionRiskClass.medium;
  purpose = "patch";
  resource_target = none;
  requested_authority_grant_id = some "grant-1";
  requested_at = 40;
  idempotency_key = "admission-1";
  provenance_refs = [];
}

abbrev pub a_context : AdmissionEvaluationContext
a_context = record {
  authoritative_owner_id = "owner-1";
  authoritative_actor_id = "agent-1";
  evaluated_at = 50;
}

-- The finding of the change in the store above.
abbrev pub a_finding : AuthorityFinding
a_finding = record {
  required = true;
  referenced = true;
  resolved = true;
  is_authorized = true;
  reason = none;
  resolved_grant_id = some "grant-1";
}

-- A read of the repository, which needs no authority.
abbrev pub a_read : OperationProposal
a_read = record a_change {
  operation_kind = "read_repository";
  requested_capability = "repository_read";
  side_effect_class = AdmissionSideEffectClass.local_read;
  risk_class = AdmissionRiskClass.low;
  requested_authority_grant_id = none;
}

abbrev pub a_tool_call : ToolInvocationProposal
a_tool_call = record {
  proposal_id = "proposal-2";
  owner_id = "owner-1";
  actor_id = "agent-1";
  admission_id = "admission-1";
  tool_id = "repository_file_reader";
  tool_version = "1.0.0";
  input_schema_reference = "repository_read_request";
  purpose = "read";
  requested_at = 60;
  idempotency_key = "call-1";
}

abbrev pub a_gateway_context : GatewayEvaluationContext
a_gateway_context = record {
  authoritative_owner_id = "owner-1";
  authoritative_actor_id = "agent-1";
  evaluated_at = 70;
}
