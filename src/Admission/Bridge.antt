-- ===== src/Admission/Bridge.antt =====
-- src/orbitmind/orchestration/admission_lifecycle.py: the bridge from the authority store to the
-- finding that the admission policy reads.
use orbit_mind_living_q_core.Common.{
  String, Bool, true, false, not, Option, none, some, List, if◌then◌else◌, string_eq, Result, ok,
  err, ◌>>=◌,
}
use orbit_mind_living_q_core.Authority.Contracts.{
  SubjectType, AuthorityScope, AuthorityReasonCode, CapabilityGrant, ApprovalRequest,
  ApprovalDecision, AuthorityEvaluationRequest, revocations_sorted_unique, RevocationRecord,
}
use orbit_mind_living_q_core.Authority.Evaluation.{evaluate_authority}
use orbit_mind_living_q_core.Authority.Repository.{
  Digests, Store, get_capability_grant, get_approval_request, get_approval_decision,
  list_revocations_for_grant,
}
use orbit_mind_living_q_core.Persistence.Table.{RepositoryError}
use orbit_mind_living_q_core.Admission.Contracts.{
  ProposalActorType, ProposalScope, AdmissionReasonCode, OperationProfile, OperationProposal,
  AdmissionEvaluationContext, AuthorityFinding,
}
use orbit_mind_living_q_core.Admission.Policy.{resolve_operation_kind, operation_profile}

-- What `admit_operation` raises: an error of a repository, a model that rejects its values, or a
-- session that is not fresh.
pub data LifecycleError : Type 0 where
  repository : RepositoryError → LifecycleError
  contract_violation : LifecycleError
  transaction_error : LifecycleError

abbrev pub from_repository : {A : Type 0} → Result RepositoryError A → Result LifecycleError A
from_repository (ok a) = ok a
from_repository (err e) = err (repository e)

-- `_AUTHORITY_REASON_MAP.get`.
unfoldable pub authority_reason_map : AuthorityReasonCode → Option AdmissionReasonCode
authority_reason_map AuthorityReasonCode.subject_mismatch =
    some AdmissionReasonCode.authority_actor_mismatch
authority_reason_map AuthorityReasonCode.capability_mismatch =
    some AdmissionReasonCode.capability_mismatch
authority_reason_map AuthorityReasonCode.scope_mismatch = some AdmissionReasonCode.scope_mismatch
authority_reason_map AuthorityReasonCode.not_yet_valid =
    some AdmissionReasonCode.authority_not_yet_valid
authority_reason_map AuthorityReasonCode.expired = some AdmissionReasonCode.authority_expired
authority_reason_map AuthorityReasonCode.revoked = some AdmissionReasonCode.authority_revoked
authority_reason_map _ = none

-- `SubjectType(proposal.actor_type.value)`.
unfoldable pub subject_type_of : ProposalActorType → SubjectType
subject_type_of ProposalActorType.operator = SubjectType.operator
subject_type_of ProposalActorType.agent = SubjectType.agent
subject_type_of ProposalActorType.laboratory = SubjectType.laboratory
subject_type_of ProposalActorType.tool = SubjectType.tool
subject_type_of ProposalActorType.adapter = SubjectType.adapter

-- `_authority_scope`.
abbrev pub authority_scope : ProposalScope → AuthorityScope
authority_scope scope = record {
  resource_type = scope.resource_type;
  resource_id = scope.resource_id;
  constraints = scope.constraints;
}

-- A finding that authorizes nothing.
abbrev pub unauthorized : Bool → Bool → AuthorityFinding
unauthorized required referenced = record {
  required = required;
  referenced = referenced;
  resolved = false;
  is_authorized = false;
  reason = none;
  resolved_grant_id = none;
}

-- The request that `_authority_finding` builds; purpose and policy version are the grant's own.
abbrev pub bridge_request :
    AdmissionEvaluationContext
    → OperationProposal
    → OperationProfile
    → ApprovalRequest
    → ApprovalDecision
    → CapabilityGrant
    → List RevocationRecord
    → AuthorityEvaluationRequest
bridge_request context proposal profile request decision grant revocations = record {
  evaluation_id = proposal.proposal_id;
  owner_id = context.authoritative_owner_id;
  evaluation_time = context.evaluated_at;
  subject = record {
    subject_type = subject_type_of proposal.actor_type;
    subject_id = proposal.actor_id;
  };
  capability = profile.required_capability;
  scope = authority_scope proposal.requested_scope;
  purpose = grant.purpose;
  policy_version = grant.policy_version;
  delegation_requested = false;
  approval_request = request;
  approval_decision = decision;
  grant = grant;
  revocations = revocations;
}

-- The end of `_authority_finding`, on the evaluation of the request.
unfoldable pub finding_of : String → AuthorityEvaluationRequest → AuthorityFinding
finding_of grant_id request =
    let result = evaluate_authority request in
    if result.is_authorized
    then record {
      required = true;
      referenced = true;
      resolved = true;
      is_authorized = true;
      reason = none;
      resolved_grant_id = some grant_id;
    }
    else record {
      required = true;
      referenced = true;
      resolved = true;
      is_authorized = false;
      reason = authority_reason_map result.reason_code;
      resolved_grant_id = some grant_id;
    }

module _ (digests : Digests) where
  -- The request and the decision that a grant names, in the owner's scope, if both are there.
  unfoldable pub chain_of_grant :
      Store
      → String
      → CapabilityGrant
      → Result RepositoryError (Option (ApprovalRequest × ApprovalDecision))
  chain_of_grant store owner grant = do
    request ← get_approval_request digests owner grant.request_id store
    decision ← get_approval_decision digests owner grant.decision_id store
    elim request [
      | none ↦ ok none
      | some r ↦ elim decision [ none ↦ ok none | some d ↦ ok (some (r, d)) ]
    ]

  -- The part of `_authority_finding` from the resolved grant on.
  unfoldable pub finding_of_grant :
      Store
      → AdmissionEvaluationContext
      → OperationProposal
      → OperationProfile
      → String
      → CapabilityGrant
      → Result LifecycleError AuthorityFinding
  finding_of_grant store context proposal profile grant_id grant = do
    chain ← from_repository (chain_of_grant store context.authoritative_owner_id grant)
    elim chain [
      | none ↦ ok (unauthorized true true)
      | some (request, decision) ↦ do
        listed ←
            from_repository
              (list_revocations_for_grant digests context.authoritative_owner_id grant_id store)
        elim (revocations_sorted_unique listed) [
          | none ↦ err contract_violation
          | some revocations ↦ ok (
              finding_of grant_id
                (bridge_request context proposal profile request decision grant revocations))
        ]
    ]

  -- `_authority_finding`.
  unfoldable pub authority_finding :
      Store
      → AdmissionEvaluationContext
      → OperationProposal
      → OperationProfile
      → Result LifecycleError AuthorityFinding
  authority_finding store context proposal profile =
      if not profile.authority_required
      then ok (unauthorized false false)
      else elim proposal.requested_authority_grant_id [
        | none ↦ ok (unauthorized true false)
        | some grant_id ↦ do
          found ←
              from_repository
                (get_capability_grant digests context.authoritative_owner_id grant_id store)
          elim found [
            | none ↦ ok (unauthorized true true)
            | some grant ↦ finding_of_grant store context proposal profile grant_id grant
          ]
      ]

  -- The finding that `admit_operation` hands to the policy.
  unfoldable pub finding_for :
      Store
      → AdmissionEvaluationContext
      → OperationProposal
      → Result LifecycleError AuthorityFinding
  finding_for store context proposal = elim (resolve_operation_kind proposal.operation_kind) [
    | none ↦ ok (unauthorized false false)
    | some kind ↦ authority_finding store context proposal (operation_profile kind)
  ]
