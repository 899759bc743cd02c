-- ===== src/Authority/Repository.antt =====
-- src/orbitmind/persistence/authority_repository.py: the four chain tables, their appends with the
-- causality checks, and the reads. `digests` stands for the canonical JSON and SHA-256 of each
-- model, with its domain separator.
use orbit_mind_living_q_core.Common.{
  String, Bool, ◌||◌, Option, none, some, List, [], string_eq, ◌!=◌, Result, ok, err, ◌>>=◌, ◌>>◌,
  raise_if,
}
use orbit_mind_living_q_core.Authority.Contracts.{
  ApprovalRequest, ApprovalDecision, CapabilityGrant, RevocationRecord, approved, outcome_eq,
  subject_eq, scope_eq, validity_eq,
}
use orbit_mind_living_q_core.Persistence.Table
use orbit_mind_living_q_core.Persistence.Table.{RepositoryError, causality, Row, Schema}

pub record Digests : Type 0 where
  pub of_request : ApprovalRequest → String
  pub of_decision : ApprovalDecision → String
  pub of_grant : CapabilityGrant → String
  pub of_revocation : RevocationRecord → String

pub record Store : Type 0 where
  pub requests : List (Row ApprovalRequest)
  pub decisions : List (Row ApprovalDecision)
  pub grants : List (Row CapabilityGrant)
  pub revocations : List (Row RevocationRecord)

abbrev pub empty_store : Store
empty_store = record { requests = []; decisions = []; grants = []; revocations = [] }

-- `decision` differs from the request that it decides.
unfoldable pub does_not_echo : ApprovalDecision → ApprovalRequest → Bool
does_not_echo decision request =
    (decision.subject != request.subject)
    || (decision.capability != request.capability)
    || (decision.scope != request.scope)
    || (decision.purpose != request.purpose)
    || (decision.policy_version != request.policy_version)
    || (decision.validity != request.validity)

-- `grant` differs from the decision that it is issued from.
unfoldable pub does_not_match : CapabilityGrant → ApprovalDecision → Bool
does_not_match grant decision =
    (grant.subject != decision.subject)
    || (grant.capability != decision.capability)
    || (grant.scope != decision.scope)
    || (grant.purpose != decision.purpose)
    || (grant.policy_version != decision.policy_version)
    || (grant.validity != decision.validity)

module _ (digests : Digests) where
  open digests use {of_request, of_decision, of_grant, of_revocation}

  abbrev pub request_schema : Schema ApprovalRequest
  request_schema = record {
    owner_of = λ r. r.owner_id;
    id_of = λ r. r.request_id;
    link_of = λ r. none;
    time_of = λ r. r.requested_at;
    digest = of_request;
    replay_of = of_request;
  }

  abbrev pub decision_schema : Schema ApprovalDecision
  decision_schema = record {
    owner_of = λ d. d.owner_id;
    id_of = λ d. d.decision_id;
    link_of = λ d. some d.request_id;
    time_of = λ d. d.decided_at;
    digest = of_decision;
    replay_of = of_decision;
  }

  abbrev pub grant_schema : Schema CapabilityGrant
  grant_schema = record {
    owner_of = λ g. g.owner_id;
    id_of = λ g. g.grant_id;
    link_of = λ g. some g.request_id;
    time_of = λ g. g.issued_at;
    digest = of_grant;
    replay_of = of_grant;
  }

  abbrev pub revocation_schema : Schema RevocationRecord
  revocation_schema = record {
    owner_of = λ v. v.owner_id;
    id_of = λ v. v.revocation_id;
    link_of = λ v. some v.grant_id;
    time_of = λ v. v.effective_at;
    digest = of_revocation;
    replay_of = of_revocation;
  }

  unfoldable pub get_approval_request :
      String → String → Store → Result RepositoryError (Option ApprovalRequest)
  get_approval_request owner id s = Table.get_by_id request_schema owner id s.requests

  unfoldable pub get_approval_decision :
      String → String → Store → Result RepositoryError (Option ApprovalDecision)
  get_approval_decision owner id s = Table.get_by_id decision_schema owner id s.decisions

  unfoldable pub get_capability_grant :
      String → String → Store → Result RepositoryError (Option CapabilityGrant)
  get_capability_grant owner id s = Table.get_by_id grant_schema owner id s.grants

  unfoldable pub list_revocations_for_grant :
      String → String → Store → Result RepositoryError (List RevocationRecord)
  list_revocations_for_grant owner grant_id s =
      Table.list_linked revocation_schema owner grant_id s.revocations

  -- `append_approval_request`: no causality check.
  unfoldable pub append_approval_request :
      ApprovalRequest → String → Store → Result RepositoryError (ApprovalRequest × Store)
  append_approval_request request key s = do
    (stored, _, rows) ← Table.append request_schema (ok tt) request key s.requests
    ok (stored, record s { requests = rows })

  -- The request of the decision is stored, and the decision echoes it.
  unfoldable pub check_decision : ApprovalDecision → Store → Result RepositoryError (Unit {0})
  check_decision decision s = do
    found ← get_approval_request decision.owner_id decision.request_id s
    elim found [
      | none ↦ err causality
      | some request ↦ raise_if (does_not_echo decision request) causality
    ]

  -- `append_approval_decision`.
  unfoldable pub append_approval_decision :
      ApprovalDecision → String → Store → Result RepositoryError (ApprovalDecision × Store)
  append_approval_decision decision key s = do
    (stored, _, rows) ←
        Table.append decision_schema (check_decision decision s) decision key s.decisions
    ok (stored, record s { decisions = rows })

  -- The decision of the grant is stored, decides the same request, approves it, and matches.
  unfoldable pub check_grant : CapabilityGrant → Store → Result RepositoryError (Unit {0})
  check_grant grant s = do
    found ← get_approval_decision grant.owner_id grant.decision_id s
    elim found [
      | none ↦ err causality
      | some decision ↦ do
        raise_if (decision.request_id != grant.request_id) causality
        raise_if (decision.outcome != approved) causality
        raise_if (does_not_match grant decision) causality
    ]

  -- `append_capability_grant`.
  unfoldable pub append_capability_grant :
      CapabilityGrant → String → Store → Result RepositoryError (CapabilityGrant × Store)
  append_capability_grant grant key s = do
    (stored, _, rows) ← Table.append grant_schema (check_grant grant s) grant key s.grants
    ok (stored, record s { grants = rows })

  -- `_lock_owner_grant_for_authority_append`: the grant has a row. The lock is not modelled.
  unfoldable pub check_revocation : RevocationRecord → Store → Result RepositoryError (Unit {0})
  check_revocation revocation s =
      elim (Table.by_id revocation.owner_id revocation.grant_id s.grants) [
        | none ↦ err causality
        | some _ ↦ ok tt
      ]

  -- `append_revocation`.
  unfoldable pub append_revocation :
      RevocationRecord → String → Store → Result RepositoryError (RevocationRecord × Store)
  append_revocation revocation key s = do
    (stored, _, rows) ←
        Table.append revocation_schema (check_revocation revocation s) revocation key s.revocations
    ok (stored, record s { revocations = rows })
