-- ===== src/Admission/Lifecycle.antt =====
-- src/orbitmind/orchestration/admission_lifecycle.py and the admission table of
-- src/orbitmind/persistence/admission_repository.py: the admission of one proposal. `functions`
-- stands for the canonical JSON and SHA-256 of the fingerprint, the checksum, the record identity
-- and the admission id.
use orbit_mind_living_q_core.Common.{
  String, Bool, Option, none, some, List, if◌then◌else◌, string_eq, ◌!=◌, Result, ok, err, ◌>>=◌,
  ◌>>◌, raise_if,
}
use orbit_mind_living_q_core.Authority.Contracts.{Instant}
use orbit_mind_living_q_core.Authority.Repository.{Digests, Store}
use orbit_mind_living_q_core.Persistence.Table
use orbit_mind_living_q_core.Persistence.Table.{
  RepositoryError, idempotency_conflict, Disposition, created, replayed, Row, Schema,
}
use orbit_mind_living_q_core.Admission.Contracts.{
  ProposalActorType, ProposalScope, AdmissionSideEffectClass, AdmissionRiskClass, AdmissionOutcome,
  AdmissionReasonCode, OperationProposal, AdmissionEvaluationContext, AdmissionDecision,
}
use orbit_mind_living_q_core.Admission.Policy.{evaluate_admission}
use orbit_mind_living_q_core.Admission.Bridge.{
  LifecycleError, finding_for, from_repository, transaction_error,
}

-- `AdmissionRecord`.
pub record AdmissionRecord : Type 0 where
  pub admission_id : String
  pub owner_id : String
  pub proposal_id : String
  pub actor_id : String
  pub actor_type : ProposalActorType
  pub operation_kind : String
  pub requested_capability : String
  pub requested_scope : ProposalScope
  pub side_effect_class : AdmissionSideEffectClass
  pub risk_class : AdmissionRiskClass
  pub outcome : AdmissionOutcome
  pub primary_reason_code : AdmissionReasonCode
  pub reason_codes : List AdmissionReasonCode
  pub evaluated_at : Instant
  pub requested_at : Instant
  pub requested_authority_grant_id : Option String
  pub resolved_authority_grant_id : Option String
  pub proposal_fingerprint : String
  pub decision_checksum : String
  pub created_at : Instant
  pub provenance_refs : List String

-- `fingerprint_source`: the proposal without its idempotency key, and the trusted identities.
pub record FingerprintSource : Type 0 where
  pub proposal : OperationProposal
  pub authoritative_owner_id : String
  pub authoritative_actor_id : String

abbrev pub fingerprint_source : OperationProposal → AdmissionEvaluationContext → FingerprintSource
fingerprint_source p context = record {
  proposal = record p { idempotency_key = "" };
  authoritative_owner_id = context.authoritative_owner_id;
  authoritative_actor_id = context.authoritative_actor_id;
}

pub record Functions : Type 0 where
  pub fingerprint_of : FingerprintSource → String
  -- `decision_checksum_source` reads the fingerprint and the decision.
  pub checksum_of : String → AdmissionDecision → String
  pub identity_of : AdmissionRecord → String
  -- `_admission_id(owner_id, idempotency_key)`.
  pub admission_id_of : String → String → String

module _ (functions : Functions) where
  open functions use {fingerprint_of, checksum_of, identity_of, admission_id_of}

  abbrev pub admission_schema : Schema AdmissionRecord
  admission_schema = record {
    owner_of = λ r. r.owner_id;
    id_of = λ r. r.admission_id;
    link_of = λ r. r.resolved_authority_grant_id;
    time_of = λ r. r.created_at;
    digest = identity_of;
    replay_of = λ r. r.proposal_fingerprint;
  }

  -- `resolve_historical_replay`.
  unfoldable pub resolve_historical_replay :
      String
      → String
      → String
      → List (Row AdmissionRecord)
      → Result RepositoryError (Option AdmissionRecord)
  resolve_historical_replay owner key fingerprint rows = elim (Table.by_key owner key rows) [
    | none ↦ ok none
    | some r ↦
        if r.replay_key != fingerprint
        then err idempotency_conflict
        else do stored ← Table.to_domain admission_schema r; ok (some stored)
  ]

  -- The record that `admit_operation` builds.
  abbrev pub admission_record :
      OperationProposal → AdmissionEvaluationContext → AdmissionDecision → AdmissionRecord
  admission_record proposal context decision =
      let fingerprint = fingerprint_of (fingerprint_source proposal context) in
      record {
        admission_id = admission_id_of context.authoritative_owner_id proposal.idempotency_key;
        owner_id = context.authoritative_owner_id;
        proposal_id = proposal.proposal_id;
        actor_id = context.authoritative_actor_id;
        actor_type = proposal.actor_type;
        operation_kind = proposal.operation_kind;
        requested_capability = proposal.requested_capability;
        requested_scope = proposal.requested_scope;
        side_effect_class = proposal.side_effect_class;
        risk_class = proposal.risk_class;
        outcome = decision.outcome;
        primary_reason_code = decision.primary_reason_code;
        reason_codes = decision.reason_codes;
        evaluated_at = decision.evaluated_at;
        requested_at = proposal.requested_at;
        requested_authority_grant_id = proposal.requested_authority_grant_id;
        resolved_authority_grant_id = decision.resolved_grant_id;
        proposal_fingerprint = fingerprint;
        decision_checksum = checksum_of fingerprint decision;
        created_at = context.evaluated_at;
        provenance_refs = proposal.provenance_refs;
      }

  module _ (digests : Digests) where
    -- The part of `admit_operation` after a miss of the historical replay.
    unfoldable pub admit_new :
        Store
        → OperationProposal
        → AdmissionEvaluationContext
        → List (Row AdmissionRecord)
        → Result LifecycleError (AdmissionRecord × Disposition × List (Row AdmissionRecord))
    admit_new store proposal context rows = do
      finding ← finding_for digests store context proposal
      from_repository (
          Table.append admission_schema (ok tt)
            (admission_record proposal context (evaluate_admission proposal context finding))
            proposal.idempotency_key rows)

    -- `admit_operation`, over the authority store and the admission table.
    unfoldable pub admit_operation :
        Bool
        → Store
        → OperationProposal
        → AdmissionEvaluationContext
        → List (Row AdmissionRecord)
        → Result LifecycleError (AdmissionRecord × Disposition × List (Row AdmissionRecord))
    admit_operation in_transaction store proposal context rows = do
      raise_if in_transaction transaction_error
      historical ← from_repository (
          resolve_historical_replay context.authoritative_owner_id proposal.idempotency_key
            (fingerprint_of (fingerprint_source proposal context)) rows)
      elim historical [
        | some stored ↦ ok (stored, replayed, rows)
        | none ↦ admit_new store proposal context rows
      ]
