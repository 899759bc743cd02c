-- ===== src/Gateway/Contracts.antt =====
-- src/orbitmind/toolgateway/contracts.py and catalog.py: the models of the gateway, and the fixed
-- catalog of tool descriptors.
use orbit_mind_living_q_core.Common.{
  String, Bool, true, false, not, ◌&&◌, Option, none, some, List, [], ◌∷◌, leb, length, map,
  if◌then◌else◌, HasEq, string_eq, ◌==◌, contains,
}
use orbit_mind_living_q_core.Authority.Contracts.{Instant}
use orbit_mind_living_q_core.Admission.Contracts.{is_some}

pub data ToolClass : Type 0 where
  repository_read local_validation : ToolClass

pub data ToolAvailability : Type 0 where
  available disabled : ToolAvailability

pub data GatewayFilesystemPolicy : Type 0 where
  no_filesystem read_only_repository : GatewayFilesystemPolicy

pub data GatewayOutcome : Type 0 where
  eligible denied approval_required : GatewayOutcome

pub data GatewayReasonCode : Type 0 where
  owner_mismatch actor_mismatch unknown_tool unsupported_tool_version : GatewayReasonCode
  forbidden_tool_class input_schema_mismatch tool_unavailable : GatewayReasonCode
  admission_not_found admission_not_admitted admission_actor_mismatch : GatewayReasonCode
  admission_operation_mismatch explicit_human_approval_required : GatewayReasonCode
  eligible_by_policy : GatewayReasonCode

unfoldable pub ToolAvailability-discrete : Discrete ToolAvailability
ToolAvailability-discrete = hlevel

unfoldable pub GatewayOutcome-discrete : Discrete GatewayOutcome
GatewayOutcome-discrete = hlevel

unfoldable pub GatewayReasonCode-discrete : Discrete GatewayReasonCode
GatewayReasonCode-discrete = hlevel

instance abbrev pub availability_eq : HasEq ToolAvailability
availability_eq = record { discrete = ToolAvailability-discrete }

instance abbrev pub gateway_outcome_eq : HasEq GatewayOutcome
gateway_outcome_eq = record { discrete = GatewayOutcome-discrete }

instance abbrev pub gateway_reason_eq : HasEq GatewayReasonCode
gateway_reason_eq = record { discrete = GatewayReasonCode-discrete }

-- `_DETAILS`.
unfoldable pub details : GatewayReasonCode → String
details owner_mismatch = "The proposal owner does not match the trusted context."
details actor_mismatch = "The proposal actor does not match the trusted context."
details unknown_tool = "The requested tool is not registered."
details unsupported_tool_version = "The requested tool version is not supported."
details forbidden_tool_class = "The requested tool class is forbidden in this version."
details input_schema_mismatch = "The input schema reference does not match the registered tool."
details tool_unavailable = "The requested tool is currently unavailable."
details admission_not_found = "No matching admission record was found in the owner scope."
details admission_not_admitted = "The referenced operation was not admitted."
details admission_actor_mismatch = "The admission record does not cover the trusted actor."
details admission_operation_mismatch =
    "The admission record does not cover the requested tool operation."
details explicit_human_approval_required =
    "This tool proposal requires explicit human approval before it may proceed."
details eligible_by_policy =
    "The tool proposal is eligible by policy for a future controlled adapter boundary."

-- `outcome_for_reason`.
unfoldable pub outcome_for_reason : GatewayReasonCode → GatewayOutcome
outcome_for_reason eligible_by_policy = eligible
outcome_for_reason explicit_human_approval_required = approval_required
outcome_for_reason _ = denied

-- `ToolDescriptor`; the fields with one value for every tool (the adapter kind, the output schema
-- and the network, process and communication policies) are left out.
pub record ToolDescriptor : Type 0 where
  pub tool_id : String
  pub tool_version : String
  pub display_name : String
  pub description : String
  pub tool_class : ToolClass
  pub input_schema_identifier : String
  pub filesystem_policy : GatewayFilesystemPolicy
  pub human_approval_requirement : Bool
  pub availability : ToolAvailability

pub record ToolInvocationProposal : Type 0 where
  pub proposal_id : String
  pub owner_id : String
  pub actor_id : String
  pub admission_id : String
  pub tool_id : String
  pub tool_version : String
  pub input_schema_reference : String
  pub purpose : String
  pub requested_at : Instant
  pub idempotency_key : String

pub record GatewayEvaluationContext : Type 0 where
  pub authoritative_owner_id : String
  pub authoritative_actor_id : String
  pub evaluated_at : Instant

pub record AdmissionFinding : Type 0 where
  pub found : Bool
  pub is_admitted : Bool
  pub actor_id : Option String
  pub operation_kind : Option String
  pub admission_record_identity : Option String

-- `AdmissionFinding._consistent`: does the constructor accept the value?
unfoldable pub finding_consistent : AdmissionFinding → Bool
finding_consistent f =
    not (f.is_admitted && not f.found) && not (is_some f.admission_record_identity && not f.found)

pub record GatewayDecision : Type 0 where
  pub outcome : GatewayOutcome
  pub primary_reason_code : GatewayReasonCode
  pub reason_codes : List GatewayReasonCode
  pub evaluated_at : Instant
  pub detail : String

abbrev pub last_is : GatewayReasonCode → List GatewayReasonCode → Bool
last_is code [] = false
last_is code (c ∷ []) = c == code
last_is code (c ∷ d ∷ cs) = last_is code (d ∷ cs)

-- `GatewayDecision._consistent`, with the bounds on the length of `reason_codes`.
unfoldable pub decision_consistent : GatewayDecision → Bool
decision_consistent d =
    leb 1 (length d.reason_codes)
    && leb (length d.reason_codes) 8
    && last_is d.primary_reason_code d.reason_codes
    && (d.outcome == outcome_for_reason d.primary_reason_code)
    && (d.detail == details d.primary_reason_code)

-- `_descriptor`.
abbrev pub descriptor :
    String
    → String
    → String
    → ToolClass
    → String
    → GatewayFilesystemPolicy
    → Bool
    → ToolAvailability
    → ToolDescriptor
descriptor tool_id name description tool_class schema filesystem approval availability = record {
  tool_id = tool_id;
  tool_version = "1.0.0";
  display_name = name;
  description = description;
  tool_class = tool_class;
  input_schema_identifier = schema;
  filesystem_policy = filesystem;
  human_approval_requirement = approval;
  availability = availability;
}

-- `_DESCRIPTORS`.
unfoldable pub descriptors : List ToolDescriptor
descriptors =
    descriptor "repository_file_reader" "Repository File Reader"
      "Registered repository read descriptor." repository_read "repository_read_request"
      read_only_repository false available
    ∷ descriptor "local_validation_runner" "Local Validation Runner"
        "Registered validation descriptor requiring approval." local_validation
        "local_validation_request" no_filesystem true available
    ∷ descriptor "repository_tree_lister" "Repository Tree Lister"
        "Registered disabled repository read descriptor." repository_read "repository_tree_request"
        read_only_repository false disabled
    ∷ []

pub record DescriptorResolution : Type 0 where
  pub found_descriptor : Option ToolDescriptor
  pub tool_registered : Bool

-- `BUILTIN_TOOL_CATALOG.get((tool_id, tool_version))`.
unfoldable pub find_descriptor : String → String → List ToolDescriptor → Option ToolDescriptor
find_descriptor tool_id tool_version [] = none
find_descriptor tool_id tool_version (d ∷ ds) =
    if (d.tool_id == tool_id) && (d.tool_version == tool_version)
    then some d
    else find_descriptor tool_id tool_version ds

-- `resolve_descriptor`.
unfoldable pub resolve_descriptor : String → String → DescriptorResolution
resolve_descriptor tool_id tool_version = record {
  found_descriptor = find_descriptor tool_id tool_version descriptors;
  tool_registered = contains tool_id (map (λ d. d.tool_id) descriptors);
}
