-- ===== src/Gateway/Policy.antt =====
-- src/orbitmind/toolgateway/policy.py: the pure gateway policy.
use orbit_mind_living_q_core.Common.{
  String, Bool, true, false, not, Option, none, some, [], ◌∷◌, if◌then◌else◌, string_eq, ◌==◌, ◌!=◌,
}
use orbit_mind_living_q_core.Gateway.Contracts.{
  ToolClass, repository_read, local_validation, available, availability_eq, GatewayReasonCode,
  owner_mismatch, actor_mismatch, unknown_tool, unsupported_tool_version, forbidden_tool_class,
  input_schema_mismatch, tool_unavailable, admission_not_found, admission_not_admitted,
  admission_actor_mismatch, admission_operation_mismatch, explicit_human_approval_required,
  eligible_by_policy, details, outcome_for_reason, ToolDescriptor, ToolInvocationProposal,
  GatewayEvaluationContext, AdmissionFinding, GatewayDecision, DescriptorResolution,
}

-- `_KIND`.
unfoldable pub kind_of_class : ToolClass → String
kind_of_class repository_read = "read_repository"
kind_of_class local_validation = "run_local_validation"

-- `tool_class in _KIND`: every class of this version has an entry.
unfoldable pub is_kind_known : ToolClass → Bool
is_kind_known repository_read = true
is_kind_known local_validation = true

-- `finding.actor_id != ...` and the like, where the field may be `None`.
abbrev pub is_just : String → Option String → Bool
is_just s none = false
is_just s (some t) = t == s

-- The checks of `evaluate_gateway_proposal` once the descriptor is found.
unfoldable pub descriptor_reason :
    ToolInvocationProposal
    → GatewayEvaluationContext
    → AdmissionFinding
    → ToolDescriptor
    → GatewayReasonCode
descriptor_reason proposal context finding descriptor =
    if not (is_kind_known descriptor.tool_class)
    then forbidden_tool_class
    else if proposal.input_schema_reference != descriptor.input_schema_identifier
    then input_schema_mismatch
    else if descriptor.availability != available
    then tool_unavailable
    else if not finding.found
    then admission_not_found
    else if not finding.is_admitted
    then admission_not_admitted
    else if not (is_just context.authoritative_actor_id finding.actor_id)
    then admission_actor_mismatch
    else if not (is_just (kind_of_class descriptor.tool_class) finding.operation_kind)
    then admission_operation_mismatch
    else if descriptor.human_approval_requirement
    then explicit_human_approval_required
    else eligible_by_policy

-- The chain of conditions of `evaluate_gateway_proposal`.
unfoldable pub gateway_reason :
    ToolInvocationProposal
    → GatewayEvaluationContext
    → AdmissionFinding
    → DescriptorResolution
    → GatewayReasonCode
gateway_reason proposal context finding resolution =
    if proposal.owner_id != context.authoritative_owner_id
    then owner_mismatch
    else if proposal.actor_id != context.authoritative_actor_id
    then actor_mismatch
    else if not resolution.tool_registered
    then unknown_tool
    else elim resolution.found_descriptor [
      | none ↦ unsupported_tool_version
      | some descriptor ↦ descriptor_reason proposal context finding descriptor
    ]

-- `evaluate_gateway_proposal`. Its conditional on the primary reason is that of
-- `outcome_for_reason`.
unfoldable pub evaluate_gateway_proposal :
    ToolInvocationProposal
    → GatewayEvaluationContext
    → AdmissionFinding
    → DescriptorResolution
    → GatewayDecision
evaluate_gateway_proposal proposal context finding resolution =
    let primary = gateway_reason proposal context finding resolution in
    record {
      outcome = outcome_for_reason primary;
      primary_reason_code = primary;
      reason_codes = primary ∷ [];
      evaluated_at = context.evaluated_at;
      detail = details primary;
    }
