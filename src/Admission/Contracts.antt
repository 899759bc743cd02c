-- ===== src/Admission/Contracts.antt =====
-- src/orbitmind/admission/contracts.py: the taxonomy of operations, their fixed profiles, and the
-- models of a proposal, a finding and a decision.
use orbit_mind_living_q_core.Common.{
  String, Bool, true, false, not, ◌&&◌, Option, none, some, List, [], ◌∷◌, leb, HasEq, bool_eq,
  string_eq, ◌==◌, length,
}
use orbit_mind_living_q_core.Authority.Contracts.{Instant, ScopeConstraint}

-- `ProposalActorType` has the values of the authority's `SubjectType`, to which the bridge
-- converts it.
pub data ProposalActorType : Type 0 where
  operator agent laboratory tool adapter : ProposalActorType

pub data AdmissionOperationKind : Type 0 where
  read_repository run_local_validation propose_file_change : AdmissionOperationKind
  create_isolated_worktree install_dependency access_secret : AdmissionOperationKind
  call_external_provider push_branch create_pull_request : AdmissionOperationKind
  cloud_quantum_execution merge_pull_request deploy spend_money : AdmissionOperationKind
  send_external_communication hardware_control : AdmissionOperationKind

pub data AdmissionSideEffectClass : Type 0 where
  no_effect local_read local_write_proposal isolated_worktree : AdmissionSideEffectClass
  external_effect irreversible_real_world : AdmissionSideEffectClass

pub data AdmissionRiskClass : Type 0 where
  low medium high critical : AdmissionRiskClass

pub data AdmissionOutcome : Type 0 where
  admitted denied approval_required : AdmissionOutcome

pub data AdmissionReasonCode : Type 0 where
  owner_mismatch actor_mismatch unsupported_operation_kind : AdmissionReasonCode
  forbidden_operation_kind operation_profile_mismatch : AdmissionReasonCode
  authority_required authority_not_found authority_actor_mismatch : AdmissionReasonCode
  capability_mismatch scope_mismatch authority_not_yet_valid : AdmissionReasonCode
  authority_expired authority_revoked : AdmissionReasonCode
  explicit_human_approval_required admitted_by_policy : AdmissionReasonCode

unfoldable pub AdmissionOperationKind-discrete : Discrete AdmissionOperationKind
AdmissionOperationKind-discrete = hlevel

unfoldable pub AdmissionSideEffectClass-discrete : Discrete AdmissionSideEffectClass
AdmissionSideEffectClass-discrete = hlevel

unfoldable pub AdmissionRiskClass-discrete : Discrete AdmissionRiskClass
AdmissionRiskClass-discrete = hlevel

unfoldable pub AdmissionOutcome-discrete : Discrete AdmissionOutcome
AdmissionOutcome-discrete = hlevel

unfoldable pub AdmissionReasonCode-discrete : Discrete AdmissionReasonCode
AdmissionReasonCode-discrete = hlevel

instance abbrev pub operation_kind_eq : HasEq AdmissionOperationKind
operation_kind_eq = record { discrete = AdmissionOperationKind-discrete }

instance abbrev pub side_effect_eq : HasEq AdmissionSideEffectClass
side_effect_eq = record { discrete = AdmissionSideEffectClass-discrete }

instance abbrev pub risk_eq : HasEq AdmissionRiskClass
risk_eq = record { discrete = AdmissionRiskClass-discrete }

instance abbrev pub admission_outcome_eq : HasEq AdmissionOutcome
admission_outcome_eq = record { discrete = AdmissionOutcome-discrete }

instance abbrev pub admission_reason_eq : HasEq AdmissionReasonCode
admission_reason_eq = record { discrete = AdmissionReasonCode-discrete }

-- The values of the enum, in the order of the source.
unfoldable pub kind_value : AdmissionOperationKind → String
kind_value read_repository = "read_repository"
kind_value run_local_validation = "run_local_validation"
kind_value propose_file_change = "propose_file_change"
kind_value create_isolated_worktree = "create_isolated_worktree"
kind_value install_dependency = "install_dependency"
kind_value access_secret = "access_secret"
kind_value call_external_provider = "call_external_provider"
kind_value push_branch = "push_branch"
kind_value create_pull_request = "create_pull_request"
kind_value cloud_quantum_execution = "cloud_quantum_execution"
kind_value merge_pull_request = "merge_pull_request"
kind_value deploy = "deploy"
kind_value spend_money = "spend_money"
kind_value send_external_communication = "send_external_communication"
kind_value hardware_control = "hardware_control"

abbrev pub all_kinds : List AdmissionOperationKind
all_kinds =
    read_repository ∷ run_local_validation ∷ propose_file_change ∷ create_isolated_worktree
    ∷ install_dependency ∷ access_secret ∷ call_external_provider ∷ push_branch
    ∷ create_pull_request ∷ cloud_quantum_execution ∷ merge_pull_request ∷ deploy ∷ spend_money
    ∷ send_external_communication ∷ hardware_control ∷ []

-- `_ADMISSION_DETAILS`, read by `detail_for_reason`.
unfoldable pub detail_for_reason : AdmissionReasonCode → String
detail_for_reason owner_mismatch = "The proposal owner does not match the trusted context."
detail_for_reason actor_mismatch = "The proposal actor does not match the trusted context."
detail_for_reason unsupported_operation_kind =
    "The operation kind is not supported in this version."
detail_for_reason forbidden_operation_kind = "The operation kind is forbidden in this version."
detail_for_reason operation_profile_mismatch =
    "A proposal value disagrees with the authoritative operation profile."
detail_for_reason authority_required =
    "This operation requires authority evidence, but none was referenced."
detail_for_reason authority_not_found = "No matching authority grant was found in the owner scope."
detail_for_reason authority_actor_mismatch =
    "The authority grant does not authorize the proposed actor."
detail_for_reason capability_mismatch =
    "The authority grant does not cover the required capability."
detail_for_reason scope_mismatch = "The authority grant does not cover the requested scope."
detail_for_reason authority_not_yet_valid =
    "The authority grant is not yet valid at the evaluation time."
detail_for_reason authority_expired = "The authority grant is expired at the evaluation time."
detail_for_reason authority_revoked = "The authority grant is revoked at the evaluation time."
detail_for_reason explicit_human_approval_required =
    "This operation requires explicit human approval before it may proceed."
detail_for_reason admitted_by_policy =
    "The operation is admissible by policy for controlled pipeline entry."

-- `_OUTCOME_BY_REASON`, read by `outcome_for_reason` with denial as the default.
unfoldable pub outcome_for_reason : AdmissionReasonCode → AdmissionOutcome
outcome_for_reason admitted_by_policy = admitted
outcome_for_reason explicit_human_approval_required = approval_required
outcome_for_reason _ = denied

pub record ProposalScope : Type 0 where
  pub resource_type : String
  pub resource_id : String
  pub constraints : List ScopeConstraint

pub record OperationProfile : Type 0 where
  pub required_capability : String
  pub side_effect_class : AdmissionSideEffectClass
  pub risk_class : AdmissionRiskClass
  pub authority_required : Bool
  pub approval_required : Bool
  pub forbidden_in_v0 : Bool

-- `_profile`; the keyword arguments are all given.
abbrev pub profile :
    String → AdmissionSideEffectClass → AdmissionRiskClass → Bool → Bool → Bool → OperationProfile
profile capability side_effect risk authority approval forbidden = record {
  required_capability = capability;
  side_effect_class = side_effect;
  risk_class = risk;
  authority_required = authority;
  approval_required = approval;
  forbidden_in_v0 = forbidden;
}

-- `OPERATION_PROFILES`.
unfoldable pub operation_profiles : AdmissionOperationKind → OperationProfile
operation_profiles read_repository = profile "repository_read" local_read low false false false
operation_profiles run_local_validation =
    profile "local_validation_run" no_effect low false false false
operation_profiles propose_file_change =
    profile "repository_write_proposal" local_write_proposal medium true false false
operation_profiles create_isolated_worktree =
    profile "worktree_create" isolated_worktree medium true false false
operation_profiles install_dependency =
    profile "dependency_install" external_effect high true true false
operation_profiles access_secret = profile "secret_access" external_effect high true true false
operation_profiles call_external_provider =
    profile "external_provider_call" external_effect high true true false
operation_profiles push_branch = profile "branch_push" external_effect high true true false
operation_profiles create_pull_request =
    profile "pull_request_create" external_effect high true true false
operation_profiles cloud_quantum_execution =
    profile "cloud_quantum_execute" external_effect critical true true false
operation_profiles merge_pull_request =
    profile "pull_request_merge" irreversible_real_world critical false false true
operation_profiles deploy =
    profile "deployment_execute" irreversible_real_world critical false false true
operation_profiles spend_money =
    profile "funds_spend" irreversible_real_world critical false false true
operation_profiles send_external_communication =
    profile "external_communication_send" irreversible_real_world critical false false true
operation_profiles hardware_control =
    profile "hardware_control" irreversible_real_world critical false false true

pub record OperationProposal : Type 0 where
  pub proposal_id : String
  pub owner_id : String
  pub actor_id : String
  pub actor_type : ProposalActorType
  pub operation_kind : String
  pub requested_capability : String
  pub requested_scope : ProposalScope
  pub side_effect_class : AdmissionSideEffectClass
  pub risk_class : AdmissionRiskClass
  pub purpose : String
  pub resource_target : Option String
  pub requested_authority_grant_id : Option String
  pub requested_at : Instant
  pub idempotency_key : String
  pub provenance_refs : List String

-- `policy_version` has one value and is left out, here and in the decision.
pub record AdmissionEvaluationContext : Type 0 where
  pub authoritative_owner_id : String
  pub authoritative_actor_id : String
  pub evaluated_at : Instant

pub record AuthorityFinding : Type 0 where
  pub required : Bool
  pub referenced : Bool
  pub resolved : Bool
  pub is_authorized : Bool
  pub reason : Option AdmissionReasonCode
  pub resolved_grant_id : Option String

abbrev pub is_some {ℓ} : {A : Type ℓ} → Option A → Bool
is_some none = false
is_some (some _) = true

-- `AuthorityFinding._consistency`: does the constructor accept the value?
unfoldable pub finding_consistency : AuthorityFinding → Bool
finding_consistency f =
    not (f.is_authorized && not (f.required && f.referenced && f.resolved))
    && not (is_some f.reason && f.is_authorized)
    && not (is_some f.resolved_grant_id && not f.resolved)

pub record AdmissionDecision : Type 0 where
  pub outcome : AdmissionOutcome
  pub primary_reason_code : AdmissionReasonCode
  pub reason_codes : List AdmissionReasonCode
  pub evaluated_at : Instant
  pub resolved_grant_id : Option String
  pub detail : String

abbrev pub last_is : AdmissionReasonCode → List AdmissionReasonCode → Bool
last_is code [] = false
last_is code (c ∷ []) = c == code
last_is code (c ∷ d ∷ cs) = last_is code (d ∷ cs)

-- `AdmissionDecision._consistency`, with the bounds on the length of `reason_codes`.
unfoldable pub decision_consistency : AdmissionDecision → Bool
decision_consistency d =
    leb 1 (length d.reason_codes)
    && leb (length d.reason_codes) 8
    && (d.outcome == outcome_for_reason d.primary_reason_code)
    && last_is d.primary_reason_code d.reason_codes
    && (d.detail == detail_for_reason d.primary_reason_code)
