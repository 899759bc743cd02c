-- ===== src/Authority/ChainLinks.antt =====
-- src/orbitmind/orchestration/authority_lifecycle.py: what a chain that can be read is.
use orbit_mind_living_q_core.Common.{◌≤◌, ◌≡◌, ◌⊎◌, String, false, some, [], ◌∷◌, All, length, ok}
use orbit_mind_living_q_core.Authority.Contracts.{ApprovalDecision}
use orbit_mind_living_q_core.Authority.Repository.{
  Digests, Store, decision_schema, grant_schema, get_approval_request,
}
use orbit_mind_living_q_core.Authority.Lifecycle.{decision_is_foreign, grant_is_foreign}
use orbit_mind_living_q_core.Persistence.Table
use orbit_mind_living_q_core.Persistence.Table.{RepositoryError}
use orbit_mind_living_q_core.Authority.ChainReads.{AuthorityChainReadModel}

-- A chain is linked when its only decision decides its request and every grant is issued from it.
pub record IsLinked (chain : AuthorityChainReadModel) : Type 0 where
  pub decision : ApprovalDecision
  pub only : chain.approval_decisions ≡ decision ∷ []
  pub decides : decision_is_foreign decision chain.approval_request ≡ false
  pub issued :
      All (λ g. grant_is_foreign g chain.approval_request decision ≡ false) chain.capability_grants

-- A chain holds the stored request, all stored decisions and grants of it, and is linked or has
-- neither decision nor grant.
pub record IsChain (digests : Digests) (s : Store) (owner request_id : String)
    (chain : AuthorityChainReadModel) : Type 0 where
  pub request_stored :
      get_approval_request digests owner request_id s ≡ ok (some chain.approval_request)
  pub decisions_stored :
      Table.list_linked
        (decision_schema digests)
        owner
        chain.approval_request.request_id
        s.decisions
      ≡ ok chain.approval_decisions
  pub grants_stored :
      Table.list_linked (grant_schema digests) owner chain.approval_request.request_id s.grants
      ≡ ok chain.capability_grants
  pub grants_bounded : length chain.capability_grants ≤ 50
  pub linked : IsLinked chain ⊎ ((chain.approval_decisions ≡ []) × (chain.capability_grants ≡ []))
