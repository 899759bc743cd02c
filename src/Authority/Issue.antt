-- ===== src/Authority/Issue.antt =====
-- src/orbitmind/orchestration/authority_lifecycle.py: a decision that is not foreign to its request,
-- and what the grant of a command on it authorizes.
use orbit_mind_living_q_core.Common.{◌≤◌, ◌<◌, ◌≡◌, refl, sym, String, false, [], string_eq, arith}
use orbit_mind_living_q_core.Authority.Contracts.{
  Instant, subject_eq, scope_eq, validity_eq, ApprovalRequest, ApprovalDecision, CapabilityGrant,
  AuthorityEvaluationRequest, approved,
}
use orbit_mind_living_q_core.Authority.Repository.{does_not_echo}
use orbit_mind_living_q_core.Authority.Soundness.{IsOperator, IsAuthorized}
use orbit_mind_living_q_core.Authority.Lifecycle.{
  IssueCapabilityGrantCommand, decision_is_foreign, grant_of,
}

-- The question whether a grant covers exactly what it names, at a time and without revocations.
abbrev pub exact_question :
    String
    → Instant
    → ApprovalRequest
    → ApprovalDecision
    → CapabilityGrant
    → AuthorityEvaluationRequest
exact_question evaluation_id moment request decision grant = record {
  evaluation_id = evaluation_id;
  owner_id = grant.owner_id;
  evaluation_time = moment;
  subject = grant.subject;
  capability = grant.capability;
  scope = grant.scope;
  purpose = grant.purpose;
  policy_version = grant.policy_version;
  delegation_requested = false;
  approval_request = request;
  approval_decision = decision;
  grant = grant;
  revocations = [];
}

-- A decision that is not foreign to its request, field by field.
pub record Decides (decision : ApprovalDecision) (request : ApprovalRequest) : Type 0 where
  pub owner : decision.owner_id ≡ request.owner_id
  pub of_request : decision.request_id ≡ request.request_id
  pub subject : decision.subject ≡ request.subject
  pub capability : decision.capability ≡ request.capability
  pub scope : decision.scope ≡ request.scope
  pub purpose : decision.purpose ≡ request.purpose
  pub policy_version : decision.policy_version ≡ request.policy_version
  pub validity : decision.validity ≡ request.validity
  pub in_order : request.requested_at ≤ decision.decided_at

pub decision_is_foreign-Decides :
    (decision : ApprovalDecision) (request : ApprovalRequest)
    → decision_is_foreign decision request ≡ false
    → Decides decision request
unfolding decision_is_foreign does_not_echo
decision_is_foreign-Decides decision request h = record {
  owner = ground arith;
  of_request = ground arith;
  subject = ground arith;
  capability = ground arith;
  scope = ground arith;
  purpose = ground arith;
  policy_version = ground arith;
  validity = ground arith;
  in_order = ground arith;
}

-- The grant of a command on an approved decision of its request authorizes.
pub grant_of-IsAuthorized :
    (c : IssueCapabilityGrantCommand) (request : ApprovalRequest) (decision : ApprovalDecision)
    (evaluation_id : String) (moment : Instant)
    → Decides decision request
    → decision.outcome ≡ approved
    → decision.decided_at ≤ c.issued_at
    → IsOperator decision.decided_by
    → IsOperator c.issued_by
    → c.issued_at ≤ moment
    → request.validity.valid_from ≤ moment
    → moment < request.validity.expires_at
    → IsAuthorized
        (exact_question evaluation_id moment request decision (grant_of c request decision))
grant_of-IsAuthorized c request decision evaluation_id moment d agreed order by issuer issued from_
      to =
    record {
      linked = record {
        decided_request = d.of_request;
        granted_request = refl;
        granted_decision = refl;
        request_owner = refl;
        decision_owner = d.owner;
        grant_owner = refl;
        decided_by_operator = by;
        issued_by_operator = issuer;
        requested_first = d.in_order;
        decided_first = order;
        issued_first = issued;
      };
      revocations_of_grant = tt;
      echoes = record {
        subject = d.subject;
        capability = d.capability;
        scope = d.scope;
        purpose = d.purpose;
        policy_version = d.policy_version;
        validity = d.validity;
      };
      is_approved = agreed;
      decided = record {
        subject = sym d.subject;
        capability = sym d.capability;
        scope = sym d.scope;
        purpose = sym d.purpose;
        policy_version = sym d.policy_version;
        validity = sym d.validity;
      };
      no_delegation = refl;
      subject = refl;
      capability = refl;
      scope = refl;
      purpose = refl;
      policy_version = refl;
      started = from_;
      not_over = to;
      not_revoked = tt;
    }
