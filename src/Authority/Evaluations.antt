-- ===== src/Authority/Evaluations.antt =====
-- src/orbitmind/persistence/authority_repository.py: the evaluation records and the tests on them. A
-- row's payload is `none` when one of its two JSON columns does not parse.
use native.Mathlib.Decide.{ℕ_discrete}
use orbit_mind_living_q_core.Common.{
  String, Bool, true, false, ◌&&◌, ◌||◌, not, Option, none, some, List, [], ◌∷◌, leb, if◌then◌else◌,
  HasEq, string_eq, nat_eq, bool_eq, String-discrete, Bool-discrete, ◌==◌, ◌!=◌, all,
}
use orbit_mind_living_q_core.Authority.Contracts.{
  Instant, SubjectType-discrete, ApprovalDecisionOutcome-discrete, AuthorityReasonCode,
  AuthorityReasonCode-discrete, SubjectReference-discrete, AuthorityScope-discrete,
  ValidityWindow-discrete, OperatorReference, Actor, ApprovalRequest, ApprovalDecision,
  CapabilityGrant, RevocationRecord, AuthorityEvaluationRequest, AuthorityEvaluationDecision,
  approved, revoked, outcome_eq, reason_code_eq,
}
use orbit_mind_living_q_core.Authority.Repository.{does_not_echo, does_not_match}
use orbit_mind_living_q_core.Persistence.Table.{Row}

unfoldable pub OperatorReference-discrete : Discrete OperatorReference
OperatorReference-discrete = hlevel (String-discrete, SubjectType-discrete)

unfoldable pub Actor-discrete : Discrete Actor
Actor-discrete = hlevel OperatorReference-discrete

unfoldable pub ApprovalRequest-discrete : Discrete ApprovalRequest
ApprovalRequest-discrete = hlevel (
  String-discrete, ℕ_discrete, SubjectReference-discrete, AuthorityScope-discrete,
  ValidityWindow-discrete,
)

unfoldable pub ApprovalDecision-discrete : Discrete ApprovalDecision
ApprovalDecision-discrete = hlevel (
  String-discrete, ℕ_discrete, SubjectReference-discrete, AuthorityScope-discrete,
  ValidityWindow-discrete, Actor-discrete, ApprovalDecisionOutcome-discrete,
)

unfoldable pub CapabilityGrant-discrete : Discrete CapabilityGrant
CapabilityGrant-discrete = hlevel (
  String-discrete, ℕ_discrete, SubjectReference-discrete, AuthorityScope-discrete,
  ValidityWindow-discrete, Actor-discrete,
)

unfoldable pub RevocationRecord-discrete : Discrete RevocationRecord
RevocationRecord-discrete = hlevel (String-discrete, ℕ_discrete)

unfoldable pub Revocations-discrete : Discrete (List RevocationRecord)
Revocations-discrete = hlevel RevocationRecord-discrete

unfoldable pub EvaluationDecision-discrete : Discrete AuthorityEvaluationDecision
EvaluationDecision-discrete =
    hlevel (String-discrete, ℕ_discrete, Bool-discrete, AuthorityReasonCode-discrete)

instance abbrev pub request_eq : HasEq ApprovalRequest
request_eq = record { discrete = ApprovalRequest-discrete }

instance abbrev pub decision_eq : HasEq ApprovalDecision
decision_eq = record { discrete = ApprovalDecision-discrete }

instance abbrev pub grant_eq : HasEq CapabilityGrant
grant_eq = record { discrete = CapabilityGrant-discrete }

instance abbrev pub revocations_eq : HasEq (List RevocationRecord)
revocations_eq = record { discrete = Revocations-discrete }

instance abbrev pub evaluation_eq : HasEq AuthorityEvaluationDecision
evaluation_eq = record { discrete = EvaluationDecision-discrete }

-- The other columns of an evaluation row, and what its two JSON columns parse to.
pub record EvaluationPayload : Type 0 where
  pub request_id : String
  pub decision_id : String
  pub capability : String
  pub policy_version : String
  pub allowed : Bool
  pub reason_code : AuthorityReasonCode
  pub relevant_revocation_id : Option String
  pub request : AuthorityEvaluationRequest
  pub decision : AuthorityEvaluationDecision

abbrev pub EvaluationRow : Type 0
EvaluationRow = Row EvaluationPayload

abbrev pub same_text : Option String → Option String → Bool
same_text none none = true
same_text (some s) (some t) = s == t
same_text _ _ = false

abbrev pub first_effective : Instant → List RevocationRecord → Option String
first_effective moment [] = none
first_effective moment (v ∷ vs) =
    let rest = first_effective moment vs in
    if leb v.effective_at moment then some v.revocation_id else rest

-- `_relevant_revocation_id`.
unfoldable pub relevant_revocation_id :
    AuthorityEvaluationRequest → AuthorityEvaluationDecision → Option String
relevant_revocation_id request decision =
    if decision.reason_code != revoked
    then none
    else first_effective request.evaluation_time request.revocations

-- `_verify_evaluation_projections`: a column differs from the payloads.
unfoldable pub projections_differ : EvaluationRow → EvaluationPayload → Bool
projections_differ row p =
    let request = p.request in
    let decision = p.decision in
    (row.record_id != request.evaluation_id)
    || (decision.evaluation_id != request.evaluation_id)
    || (row.owner_id != request.owner_id)
    || not (same_text row.link_id (some request.grant.grant_id))
    || not (same_text row.link_id decision.grant_id)
    || (p.request_id != request.approval_request.request_id)
    || (p.decision_id != request.approval_decision.decision_id)
    || (row.ordered_at != request.evaluation_time)
    || (row.ordered_at != decision.evaluation_time)
    || (p.capability != request.capability)
    || (p.policy_version != request.policy_version)
    || (p.allowed != decision.is_authorized)
    || (p.reason_code != decision.reason_code)
    || not (same_text p.relevant_revocation_id (relevant_revocation_id request decision))

-- `_PersistedEvaluationChain`.
pub record PersistedChain : Type 0 where
  pub approval_request : ApprovalRequest
  pub approval_decision : ApprovalDecision
  pub grant : CapabilityGrant
  pub revocations : List RevocationRecord

-- `_is_complete_persisted_evaluation_chain`.
unfoldable pub chain_is_complete : String → PersistedChain → Bool
chain_is_complete owner chain =
    let request = chain.approval_request in
    let decision = chain.approval_decision in
    let grant = chain.grant in
    (request.owner_id == owner)
    && (decision.owner_id == owner)
    && (grant.owner_id == owner)
    && (decision.request_id == request.request_id)
    && (grant.request_id == request.request_id)
    && (grant.decision_id == decision.decision_id)
    && (decision.outcome == approved)
    && not (does_not_echo decision request)
    && not (does_not_match grant decision)
    && all (λ v. (v.owner_id == owner) && (v.grant_id == grant.grant_id)) chain.revocations
