-- ===== src/Authority/ChainReads.antt =====
-- src/orbitmind/orchestration/authority_lifecycle.py: `read_authority_chain`, the evidence of one
-- request.
use orbit_mind_living_q_core.Common.{
  ℕ, String, Option, none, some, List, [], ◌∷◌, ◌++◌, ltb, length, Result, ok, err, raise_if, ◌>>=◌,
  ◌>>◌,
}
use orbit_mind_living_q_core.Authority.Contracts.{
  ApprovalRequest, ApprovalDecision, CapabilityGrant, RevocationRecord, AuthorityEvaluationRequest,
  AuthorityEvaluationDecision,
}
use orbit_mind_living_q_core.Authority.Evaluations.{EvaluationRow}
use orbit_mind_living_q_core.Authority.Repository.{
  Digests, Store, decision_schema, grant_schema, get_approval_request,
}
use orbit_mind_living_q_core.Authority.Recording.{limited, evaluation_to_domain}
use orbit_mind_living_q_core.Authority.Lifecycle.{
  AuthorityLifecycleError, chain_mismatch, lift_repository, decision_is_foreign, grant_is_foreign,
  all_revocations_for_grant,
}
use orbit_mind_living_q_core.Persistence.Table
use orbit_mind_living_q_core.Persistence.Table.{RepositoryError, Row, Schema, linked_rows}

pub record AuthorityChainReadModel : Type 0 where
  pub owner_id : String
  pub approval_request : ApprovalRequest
  pub approval_decisions : List ApprovalDecision
  pub capability_grants : List CapabilityGrant
  pub revocations : List RevocationRecord
  pub evaluations : List AuthorityEvaluationDecision

-- The calls for each grant, their lists joined.
unfoldable pub for_grants :
    {A : Type 0}
    → (CapabilityGrant → Result AuthorityLifecycleError (List A))
    → List CapabilityGrant
    → Result AuthorityLifecycleError (List A)
for_grants f [] = ok []
for_grants f (g ∷ grants) = do first ← f g; rest ← for_grants f grants; ok (first ++ rest)

-- `_require_grant_for_decision` on each grant.
unfoldable pub require_grants :
    ApprovalRequest
    → ApprovalDecision
    → List CapabilityGrant
    → Result AuthorityLifecycleError (Unit {0})
require_grants request decision [] = ok tt
require_grants request decision (g ∷ grants) = do
  raise_if (grant_is_foreign g request decision) chain_mismatch
  require_grants request decision grants

-- The links of a chain with at most one decision.
unfoldable pub require_links :
    ApprovalRequest
    → List ApprovalDecision
    → List CapabilityGrant
    → Result AuthorityLifecycleError (Unit {0})
require_links request (decision ∷ more) grants = do
  raise_if (decision_is_foreign decision request) chain_mismatch
  require_grants request decision grants
require_links request [] [] = ok tt
require_links request [] (g ∷ grants) = err chain_mismatch

-- A bounded list of the rows of an owner with a foreign key.
abbrev pub list_bounded :
    {A : Type 0} → Schema A → ℕ → String → String → List (Row A) → Result RepositoryError (List A)
list_bounded schema limit owner link rows =
    Table.all_to_domain schema (limited limit (linked_rows owner link rows))

module _ (digests : Digests)
    (identity : AuthorityEvaluationRequest → AuthorityEvaluationDecision → String) where
  unfoldable pub evaluations_to_domain :
      List EvaluationRow → Result RepositoryError (List AuthorityEvaluationDecision)
  evaluations_to_domain [] = ok []
  evaluations_to_domain (r ∷ rows) = do
    first ← evaluation_to_domain identity r
    rest ← evaluations_to_domain rows
    ok (first ∷ rest)

  -- `_all_evaluations_for_grant`.
  unfoldable pub all_evaluations_for_grant :
      String
      → String
      → List EvaluationRow
      → Result AuthorityLifecycleError (List AuthorityEvaluationDecision)
  all_evaluations_for_grant owner grant_id rows = do
    found ← lift_repository (evaluations_to_domain (limited 51 (linked_rows owner grant_id rows)))
    raise_if (ltb 50 (length found)) chain_mismatch
    ok found

  -- `_read_exact_request_chain`.
  unfoldable pub read_exact_request_chain :
      String
      → ApprovalRequest
      → Store
      → List EvaluationRow
      → Result AuthorityLifecycleError AuthorityChainReadModel
  read_exact_request_chain owner request s rows = do
    decisions ←
        lift_repository
          (list_bounded (decision_schema digests) 2 owner request.request_id s.decisions)
    raise_if (ltb 1 (length decisions)) chain_mismatch
    grants ←
        lift_repository (list_bounded (grant_schema digests) 51 owner request.request_id s.grants)
    raise_if (ltb 50 (length grants)) chain_mismatch
    require_links request decisions grants
    revocations ← for_grants (λ g. all_revocations_for_grant digests owner g.grant_id s) grants
    evaluations ← for_grants (λ g. all_evaluations_for_grant owner g.grant_id rows) grants
    ok (record {
      owner_id = owner;
      approval_request = request;
      approval_decisions = decisions;
      capability_grants = grants;
      revocations = revocations;
      evaluations = evaluations;
    })

  -- `read_authority_chain`.
  unfoldable pub read_authority_chain :
      String
      → String
      → Store
      → List EvaluationRow
      → Result AuthorityLifecycleError (Option AuthorityChainReadModel)
  read_authority_chain owner request_id s rows = do
    found ← lift_repository (get_approval_request digests owner request_id s)
    elim found [
      | none ↦ ok none
      | some request ↦ do chain ← read_exact_request_chain owner request s rows; ok (some chain)
    ]
