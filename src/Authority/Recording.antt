-- ===== src/Authority/Recording.antt =====
-- src/orbitmind/persistence/authority_repository.py: `append_evaluation_record`, which rebuilds an
-- evaluation from stored truth before it inserts it, and the read that checks it again. `identity`
-- stands for `_evaluation_identity`.
use orbit_mind_living_q_core.Common.{
  ℕ, zero, suc, String, Bool, ◌||◌, not, Option, none, some, List, [], ◌∷◌, ◌++◌, ltb, string_eq,
  nat_eq, bool_eq, ◌!=◌, length, Result, ok, err, ◌>>=◌, ◌>>◌, raise_if,
}
use orbit_mind_living_q_core.Authority.Contracts.{
  CapabilityGrant, RevocationRecord, AuthorityEvaluationRequest, AuthorityEvaluationDecision,
  outcome_eq, reason_code_eq, revocations_sorted_unique,
}
use orbit_mind_living_q_core.Authority.Evaluation.{evaluate_authority}
use orbit_mind_living_q_core.Authority.Repository.{
  Digests, Store, request_schema, decision_schema, grant_schema, revocation_schema,
}
use orbit_mind_living_q_core.Persistence.Table
use orbit_mind_living_q_core.Persistence.Table.{
  RepositoryError, causality, record_corrupt, invalid_model, Row, Schema, linked_rows,
}
use orbit_mind_living_q_core.Authority.Evaluations.{
  request_eq, decision_eq, grant_eq, revocations_eq, evaluation_eq, EvaluationPayload,
  EvaluationRow, relevant_revocation_id, projections_differ, PersistedChain, chain_is_complete,
}

-- `.limit(n)`.
unfoldable pub limited : {A : Type 0} → ℕ → List A → List A
limited zero xs = []
limited (suc n) [] = []
limited (suc n) (x ∷ xs) = x ∷ limited n xs

abbrev pub chain_differs : AuthorityEvaluationRequest → PersistedChain → Bool
chain_differs supplied chain =
    (supplied.approval_request != chain.approval_request)
    || (supplied.approval_decision != chain.approval_decision)
    || (supplied.grant != chain.grant)
    || (supplied.revocations != chain.revocations)

-- The request with the chain of the store.
abbrev pub with_chain : AuthorityEvaluationRequest → PersistedChain → AuthorityEvaluationRequest
with_chain supplied chain = record supplied {
  approval_request = chain.approval_request;
  approval_decision = chain.approval_decision;
  grant = chain.grant;
  revocations = chain.revocations;
}

-- The end of `_authoritative_evaluation_request`: the constructor of the request accepts at most 32
-- revocations with distinct ids, and sorts them.
unfoldable pub rebuilt_request :
    AuthorityEvaluationRequest → PersistedChain → Result RepositoryError AuthorityEvaluationRequest
rebuilt_request supplied chain = elim (revocations_sorted_unique chain.revocations) [
  | none ↦ err invalid_model
  | some accepted ↦ ok (with_chain supplied (record chain { revocations = accepted }))
]

-- A row that a lookup must find.
abbrev pub require_row : {A : Type 0} → Option (Row A) → Result RepositoryError (Row A)
require_row none = err causality
require_row (some row) = ok row

module _ (digests : Digests) where
  -- `_bounded_revocations_for_evaluation`.
  unfoldable pub bounded_revocations :
      String → String → Store → Result RepositoryError (List RevocationRecord)
  bounded_revocations owner grant_id s = do
    rows ←
        Table.all_to_domain (revocation_schema digests)
          (limited 51 (linked_rows owner grant_id s.revocations))
    raise_if (ltb 50 (length rows)) causality
    ok rows

  -- `_resolve_persisted_evaluation_chain`, on the row of the locked grant.
  unfoldable pub resolve_chain :
      AuthorityEvaluationRequest
      → Row CapabilityGrant
      → Store
      → Result RepositoryError PersistedChain
  resolve_chain supplied grant_row s = do
    raise_if
        ((grant_row.owner_id != supplied.owner_id)
          || (grant_row.record_id != supplied.grant.grant_id))
        causality
    request_row ←
        require_row (Table.by_id supplied.owner_id supplied.approval_request.request_id s.requests)
    decision_row ←
        require_row
          (Table.by_id supplied.owner_id supplied.approval_decision.decision_id s.decisions)
    request ← Table.to_domain (request_schema digests) request_row
    decision ← Table.to_domain (decision_schema digests) decision_row
    grant ← Table.to_domain (grant_schema digests) grant_row
    revocations ← bounded_revocations supplied.owner_id grant_row.record_id s
    let chain : PersistedChain = record {
      approval_request = request;
      approval_decision = decision;
      grant = grant;
      revocations = revocations;
    }
    raise_if (chain_differs supplied chain) causality
    raise_if (not (chain_is_complete supplied.owner_id chain)) causality
    ok chain

module _ (identity : AuthorityEvaluationRequest → AuthorityEvaluationDecision → String) where
  -- The tests of a read, on payloads that parse.
  unfoldable pub check_payload :
      EvaluationRow → EvaluationPayload → Result RepositoryError AuthorityEvaluationDecision
  check_payload row p = do
    raise_if (identity p.request p.decision != row.record_identity) record_corrupt
    raise_if (evaluate_authority p.request != p.decision) record_corrupt
    raise_if (projections_differ row p) record_corrupt
    ok p.decision

  -- `_evaluation_to_domain`.
  unfoldable pub evaluation_to_domain :
      EvaluationRow → Result RepositoryError AuthorityEvaluationDecision
  evaluation_to_domain row = elim row.payload [
    | none ↦ err record_corrupt
    | some p ↦ check_payload row p
  ]

  -- The row of an evaluation of stored truth, under the identity of the supplied one.
  abbrev pub evaluation_row :
      String → AuthorityEvaluationRequest → AuthorityEvaluationDecision → String → EvaluationRow
  evaluation_row own_identity request decision key = record {
    owner_id = request.owner_id;
    record_id = request.evaluation_id;
    idempotency_key = key;
    record_identity = own_identity;
    replay_key = own_identity;
    link_id = some request.grant.grant_id;
    ordered_at = request.evaluation_time;
    payload = some (record {
      request_id = request.approval_request.request_id;
      decision_id = request.approval_decision.decision_id;
      capability = request.capability;
      policy_version = request.policy_version;
      allowed = decision.is_authorized;
      reason_code = decision.reason_code;
      relevant_revocation_id = relevant_revocation_id request decision;
      request = request;
      decision = decision;
    });
  }

  -- A replay reads the recorded row and changes nothing.
  unfoldable pub replay_evaluation :
      EvaluationRow
      → List EvaluationRow
      → Result RepositoryError (AuthorityEvaluationDecision × List EvaluationRow)
  replay_evaluation row rows = do stored ← evaluation_to_domain row; ok (stored, rows)

  module _ (digests : Digests) where
    -- The request of a new evaluation, rebuilt from the store and checked against the supplied one.
    unfoldable pub authoritative_request :
        AuthorityEvaluationRequest
        → AuthorityEvaluationDecision
        → Store
        → Result RepositoryError AuthorityEvaluationRequest
    authoritative_request request decision s = do
      grant_row ← require_row (Table.by_id request.owner_id request.grant.grant_id s.grants)
      raise_if (decision.evaluation_id != request.evaluation_id) causality
      raise_if (decision.evaluation_time != request.evaluation_time) causality
      chain ← resolve_chain digests request grant_row s
      rebuilt ← rebuilt_request request chain
      raise_if (decision != evaluate_authority rebuilt) causality
      ok rebuilt

    -- The part of `append_evaluation_record` after the replay.
    unfoldable pub insert_evaluation :
        AuthorityEvaluationRequest
        → AuthorityEvaluationDecision
        → String
        → Store
        → List EvaluationRow
        → Result RepositoryError (AuthorityEvaluationDecision × List EvaluationRow)
    insert_evaluation request decision key s rows = do
      stored_request ← authoritative_request request decision s
      let row =
          evaluation_row (identity request decision) stored_request
            (evaluate_authority stored_request) key
      stored ← evaluation_to_domain row
      ok (stored, rows ++ row ∷ [])

    -- `append_evaluation_record`.
    unfoldable pub append_evaluation_record :
        AuthorityEvaluationRequest
        → AuthorityEvaluationDecision
        → String
        → Store
        → List EvaluationRow
        → Result RepositoryError (AuthorityEvaluationDecision × List EvaluationRow)
    append_evaluation_record request decision key s rows = do
      resolved ←
          Table.resolve_replay (Table.by_key request.owner_id key rows)
            (Table.by_id request.owner_id request.evaluation_id rows) (identity request decision)
      elim resolved [
        | some row ↦ replay_evaluation row rows
        | none ↦ insert_evaluation request decision key s rows
      ]
