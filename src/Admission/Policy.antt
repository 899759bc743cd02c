-- ===== src/Admission/Policy.antt =====
-- src/orbitmind/admission/policy.py: the pure admission policy.
use orbit_mind_living_q_core.Common.{
  String, not, ◌||◌, Option, none, some, List, [], ◌∷◌, if◌then◌else◌, string_eq, ◌==◌, ◌!=◌,
  contains,
}
use orbit_mind_living_q_core.Admission.Contracts.{
  AdmissionOperationKind, AdmissionReasonCode, owner_mismatch, actor_mismatch,
  unsupported_operation_kind, forbidden_operation_kind, operation_profile_mismatch,
  authority_required, authority_not_found, authority_actor_mismatch, capability_mismatch,
  scope_mismatch, authority_not_yet_valid, authority_expired, authority_revoked,
  explicit_human_approval_required, admitted_by_policy, side_effect_eq, risk_eq,
  admission_reason_eq, kind_value, all_kinds, detail_for_reason, outcome_for_reason,
  OperationProfile, operation_profiles, OperationProposal, AdmissionEvaluationContext,
  AuthorityFinding, AdmissionDecision,
}

-- `ADMISSION_PRECEDENCE`.
unfoldable pub admission_precedence : List AdmissionReasonCode
admission_precedence =
    owner_mismatch ∷ actor_mismatch ∷ unsupported_operation_kind ∷ operation_profile_mismatch
    ∷ forbidden_operation_kind ∷ authority_required ∷ authority_not_found ∷ authority_actor_mismatch
    ∷ capability_mismatch ∷ scope_mismatch ∷ authority_not_yet_valid ∷ authority_expired
    ∷ authority_revoked ∷ explicit_human_approval_required ∷ admitted_by_policy ∷ []

-- `_AUTHORITY_FAILURE_REASONS`.
abbrev pub authority_failure_reasons : List AdmissionReasonCode
authority_failure_reasons =
    authority_actor_mismatch ∷ capability_mismatch ∷ scope_mismatch ∷ authority_not_yet_valid
    ∷ authority_expired ∷ authority_revoked ∷ []

unfoldable pub find_kind : String → List AdmissionOperationKind → Option AdmissionOperationKind
find_kind token [] = none
find_kind token (k ∷ ks) = if kind_value k == token then some k else find_kind token ks

-- `resolve_operation_kind`: `AdmissionOperationKind(token)` finds the member with the value.
unfoldable pub resolve_operation_kind : String → Option AdmissionOperationKind
resolve_operation_kind token = find_kind token all_kinds

-- `operation_profile`.
unfoldable pub operation_profile : AdmissionOperationKind → OperationProfile
operation_profile kind = operation_profiles kind

-- `_decision`.
unfoldable pub decision :
    AdmissionEvaluationContext → AdmissionReasonCode → Option String → AdmissionDecision
decision context reason resolved_grant_id = record {
  outcome = outcome_for_reason reason;
  primary_reason_code = reason;
  reason_codes = reason ∷ [];
  evaluated_at = context.evaluated_at;
  resolved_grant_id = resolved_grant_id;
  detail = detail_for_reason reason;
}

-- The reason that a failed authority is reported by: `finding.reason` if it is one of the failure
-- reasons, and `authority_not_found` otherwise.
unfoldable pub failure_reason : Option AdmissionReasonCode → AdmissionReasonCode
failure_reason none = authority_not_found
failure_reason (some reason) =
    if contains reason authority_failure_reasons then reason else authority_not_found

-- Steps 7 and 8 of `evaluate_admission`: human approval, then admission.
unfoldable pub evaluate_approval :
    AdmissionEvaluationContext → AuthorityFinding → OperationProfile → AdmissionDecision
evaluate_approval context finding profile =
    if profile.approval_required
    then decision context explicit_human_approval_required finding.resolved_grant_id
    else decision context admitted_by_policy finding.resolved_grant_id

-- Steps 4 to 8 of `evaluate_admission`, for a known kind.
unfoldable pub evaluate_profile :
    OperationProposal
    → AdmissionEvaluationContext
    → AuthorityFinding
    → OperationProfile
    → AdmissionDecision
evaluate_profile proposal context finding profile =
    let continue = evaluate_approval context finding profile in
    if (proposal.requested_capability != profile.required_capability)
      || (proposal.side_effect_class != profile.side_effect_class)
      || (proposal.risk_class != profile.risk_class)
    then decision context operation_profile_mismatch none
    else if profile.forbidden_in_v0
    then decision context forbidden_operation_kind none
    else if profile.authority_required
    then if not finding.referenced
      then decision context authority_required none
      else if not finding.resolved
      then decision context authority_not_found none
      else if not finding.is_authorized
      then decision context (failure_reason finding.reason) finding.resolved_grant_id
      else continue
    else continue

-- `evaluate_admission`.
unfoldable pub evaluate_admission :
    OperationProposal → AdmissionEvaluationContext → AuthorityFinding → AdmissionDecision
evaluate_admission proposal context finding =
    if proposal.owner_id != context.authoritative_owner_id
    then decision context owner_mismatch none
    else if proposal.actor_id != context.authoritative_actor_id
    then decision context actor_mismatch none
    else elim (resolve_operation_kind proposal.operation_kind) [
      | none ↦ decision context unsupported_operation_kind none
      | some kind ↦ evaluate_profile proposal context finding (operation_profile kind)
    ]
