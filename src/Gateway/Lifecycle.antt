-- ===== src/Gateway/Lifecycle.antt =====
-- src/orbitmind/orchestration/tool_gateway_lifecycle.py and the decision table of
-- src/orbitmind/persistence/tool_gateway_repository.py: the bridge from the admission table to a
-- finding, and the evaluation of one tool invocation. `functions` stands for the canonical JSON
-- and SHA-256 of the fingerprint, the checksums, the record identity and the decision id.
use orbit_mind_living_q_core.Common.{
  String, Bool, true, false, Option, none, some, List, if◌then◌else◌, string_eq, ◌==◌, ◌!=◌, Result,
  ok, err, ◌>>=◌, ◌>>◌, raise_if,
}
use orbit_mind_living_q_core.Authority.Contracts.{Instant}
use orbit_mind_living_q_core.Admission.Contracts.{admitted, admission_outcome_eq}
use orbit_mind_living_q_core.Admission.Bridge.{LifecycleError, transaction_error, from_repository}
use orbit_mind_living_q_core.Admission.Lifecycle.{AdmissionRecord, Functions, admission_schema}
use orbit_mind_living_q_core.Persistence.Table
use orbit_mind_living_q_core.Persistence.Table.{
  RepositoryError, idempotency_conflict, Disposition, replayed, Row, Schema,
}
use orbit_mind_living_q_core.Gateway.Contracts.{
  GatewayOutcome, GatewayReasonCode, ToolDescriptor, ToolInvocationProposal,
  GatewayEvaluationContext, AdmissionFinding, GatewayDecision, resolve_descriptor,
}
use orbit_mind_living_q_core.Gateway.Policy.{evaluate_gateway_proposal}

-- `VerifiedAdmissionRecord`.
pub record VerifiedAdmissionRecord : Type 0 where
  pub admission : AdmissionRecord
  pub record_identity : String

-- `get_verified_admission_record`.
unfoldable pub get_verified_admission_record :
    Functions
    → String
    → String
    → List (Row AdmissionRecord)
    → Result RepositoryError (Option VerifiedAdmissionRecord)
get_verified_admission_record functions owner id rows = elim (Table.by_id owner id rows) [
  | none ↦ ok none
  | some r ↦ do
    stored ← Table.to_domain (admission_schema functions) r
    ok (some (record { admission = stored; record_identity = r.record_identity }))
]

-- The finding that `evaluate_tool_invocation` builds.
unfoldable pub finding_of : Option VerifiedAdmissionRecord → AdmissionFinding
finding_of none = record {
  found = false;
  is_admitted = false;
  actor_id = none;
  operation_kind = none;
  admission_record_identity = none;
}
finding_of (some v) = record {
  found = true;
  is_admitted = v.admission.outcome == admitted;
  actor_id = some v.admission.actor_id;
  operation_kind = some v.admission.operation_kind;
  admission_record_identity = some v.record_identity;
}

-- `GatewayDecisionRecord`.
pub record GatewayDecisionRecord : Type 0 where
  pub gateway_decision_id : String
  pub owner_id : String
  pub proposal_id : String
  pub actor_id : String
  pub tool_id : String
  pub tool_version : String
  pub descriptor_checksum : Option String
  pub referenced_admission_id : String
  pub resolved_admission_id : Option String
  pub admission_record_identity : Option String
  pub outcome : GatewayOutcome
  pub primary_reason_code : GatewayReasonCode
  pub reason_codes : List GatewayReasonCode
  pub evaluated_at : Instant
  pub requested_at : Instant
  pub proposal_fingerprint : String
  pub decision_checksum : String
  pub created_at : Instant

-- `fingerprint_source`: the proposal without its idempotency key, and the trusted identities.
pub record FingerprintSource : Type 0 where
  pub proposal : ToolInvocationProposal
  pub authoritative_owner_id : String
  pub authoritative_actor_id : String

abbrev pub fingerprint_source :
    ToolInvocationProposal → GatewayEvaluationContext → FingerprintSource
fingerprint_source p context = record {
  proposal = record p { idempotency_key = "" };
  authoritative_owner_id = context.authoritative_owner_id;
  authoritative_actor_id = context.authoritative_actor_id;
}

pub record GatewayFunctions : Type 0 where
  pub fingerprint_of : FingerprintSource → String
  -- `decision_checksum_source` reads the fingerprint, the descriptor's checksum, the identity of
  -- the admission record and the decision.
  pub checksum_of : String → Option String → Option String → GatewayDecision → String
  pub descriptor_checksum_of : ToolDescriptor → String
  pub identity_of : GatewayDecisionRecord → String
  pub decision_id_of : String → String → String

abbrev pub map_option : {A B : Type 0} → (A → B) → Option A → Option B
map_option f none = none
map_option f (some a) = some (f a)

module _ (functions : Functions) (gateway_functions : GatewayFunctions) where
  open gateway_functions use {
    fingerprint_of, checksum_of, descriptor_checksum_of, identity_of, decision_id_of,
  }

  abbrev pub decision_schema : Schema GatewayDecisionRecord
  decision_schema = record {
    owner_of = λ r. r.owner_id;
    id_of = λ r. r.gateway_decision_id;
    link_of = λ r. none;
    time_of = λ r. r.created_at;
    digest = identity_of;
    replay_of = λ r. r.proposal_fingerprint;
  }

  -- `resolve_historical_replay`.
  unfoldable pub resolve_historical_replay :
      String
      → String
      → String
      → List (Row GatewayDecisionRecord)
      → Result RepositoryError (Option GatewayDecisionRecord)
  resolve_historical_replay owner key fingerprint rows = elim (Table.by_key owner key rows) [
    | none ↦ ok none
    | some r ↦
        if r.replay_key != fingerprint
        then err idempotency_conflict
        else do stored ← Table.to_domain decision_schema r; ok (some stored)
  ]

  -- The record that `evaluate_tool_invocation` builds.
  abbrev pub decision_record :
      ToolInvocationProposal
      → GatewayEvaluationContext
      → Option VerifiedAdmissionRecord
      → GatewayDecisionRecord
  decision_record proposal context verified =
      let fingerprint = fingerprint_of (fingerprint_source proposal context) in
      let resolution = resolve_descriptor proposal.tool_id proposal.tool_version in
      let checksum = map_option descriptor_checksum_of resolution.found_descriptor in
      let identity = map_option (λ v. v.record_identity) verified in
      let decision = evaluate_gateway_proposal proposal context (finding_of verified) resolution in
      record {
        gateway_decision_id =
            decision_id_of context.authoritative_owner_id proposal.idempotency_key;
        owner_id = context.authoritative_owner_id;
        proposal_id = proposal.proposal_id;
        actor_id = context.authoritative_actor_id;
        tool_id = proposal.tool_id;
        tool_version = proposal.tool_version;
        descriptor_checksum = checksum;
        referenced_admission_id = proposal.admission_id;
        resolved_admission_id = map_option (λ v. v.admission.admission_id) verified;
        admission_record_identity = identity;
        outcome = decision.outcome;
        primary_reason_code = decision.primary_reason_code;
        reason_codes = decision.reason_codes;
        evaluated_at = decision.evaluated_at;
        requested_at = proposal.requested_at;
        proposal_fingerprint = fingerprint;
        decision_checksum = checksum_of fingerprint checksum identity decision;
        created_at = context.evaluated_at;
      }

  -- The part of `evaluate_tool_invocation` after a miss of the historical replay.
  unfoldable pub evaluate_new :
      List (Row AdmissionRecord)
      → ToolInvocationProposal
      → GatewayEvaluationContext
      → List (Row GatewayDecisionRecord)
      → Result LifecycleError
          (GatewayDecisionRecord × Disposition × List (Row GatewayDecisionRecord))
  evaluate_new admissions proposal context rows = do
    verified ← from_repository (
        get_verified_admission_record functions context.authoritative_owner_id proposal.admission_id
          admissions)
    from_repository (
        Table.append decision_schema (ok tt) (decision_record proposal context verified)
          proposal.idempotency_key rows)

  -- `evaluate_tool_invocation`, over the admission table and the decision table.
  unfoldable pub evaluate_tool_invocation :
      Bool
      → List (Row AdmissionRecord)
      → ToolInvocationProposal
      → GatewayEvaluationContext
      → List (Row GatewayDecisionRecord)
      → Result LifecycleError
          (GatewayDecisionRecord × Disposition × List (Row GatewayDecisionRecord))
  evaluate_tool_invocation in_transaction admissions proposal context rows = do
    raise_if in_transaction transaction_error
    historical ← from_repository (
        resolve_historical_replay context.authoritative_owner_id proposal.idempotency_key
          (fingerprint_of (fingerprint_source proposal context)) rows)
    elim historical [
      | some stored ↦ ok (stored, replayed, rows)
      | none ↦ evaluate_new admissions proposal context rows
    ]
