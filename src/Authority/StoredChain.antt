-- ===== src/Authority/StoredChain.antt =====
-- src/orbitmind/persistence/authority_repository.py: a chain that resolves for an evaluation is what
-- the store holds.
use orbit_mind_living_q_core.Common.{
  ℕ, zero, suc, ◌≤◌, ◌≡◌, refl, ap, ◌∙◌, sym, subst, String, Bool, true, false, ◌||◌, not, Option,
  none, some, List, [], ◌∷◌, ltb, ◌!=◌, string_eq, nat_eq, length, ok, raise_if, >>=-eq-ok, arith,
}
use orbit_mind_living_q_core.Authority.Contracts.{
  ApprovalRequest, ApprovalDecision, CapabilityGrant, RevocationRecord, AuthorityEvaluationRequest,
}
use orbit_mind_living_q_core.Authority.Repository.{
  Digests, Store, request_schema, decision_schema, grant_schema, revocation_schema,
  get_approval_request, get_approval_decision, get_capability_grant, list_revocations_for_grant,
}
use orbit_mind_living_q_core.Authority.Evaluations.{
  request_eq, decision_eq, grant_eq, revocations_eq, evaluation_eq, PersistedChain,
  chain_is_complete,
}
use orbit_mind_living_q_core.Authority.Recording.{
  chain_differs, with_chain, limited, require_row, bounded_revocations, resolve_chain,
}
use orbit_mind_living_q_core.Persistence.Table
use orbit_mind_living_q_core.Persistence.Table.{
  RepositoryError, causality, record_corrupt, Row, Schema, linked_rows,
}

pub raise_if-eq-ok :
    {E : Type 0} (test : Bool) (e : E) {u : Unit {0}} → raise_if test e ≡ ok u → test ≡ false
raise_if-eq-ok false e h = refl
raise_if-eq-ok true e h = cc

require_row-eq :
    {A : Type 0} (found : Option (Row A)) (row : Row A)
    → require_row found ≡ ok row
    → found ≡ some row
require_row-eq none row h = cc
require_row-eq (some r) row h = ground arith

-- A limit of one more than the most that is accepted cuts nothing off.
pub all_to_domain-length :
    {A : Type 0} (schema : Schema A) (rows : List (Row A)) (ys : List A)
    → Table.all_to_domain schema rows ≡ ok ys
    → length ys ≡ length rows
unfolding Table.all_to_domain
all_to_domain-length schema [] ys h = let same : [] ≡ ys = ground arith in ap length (sym same)
all_to_domain-length schema (r ∷ rows) ys h =
    let (a, first, h1) = >>=-eq-ok (Table.to_domain schema r) _ h in
    let (rest, call, h2) = >>=-eq-ok (Table.all_to_domain schema rows) _ h1 in
    let shape : a ∷ rest ≡ ys = ground arith in
    ap length (sym shape) ∙ ap suc (all_to_domain-length schema rows rest call)

pub limited-all :
    {A : Type 0} (n : ℕ) (xs : List A) → length (limited (suc n) xs) ≤ n → limited (suc n) xs ≡ xs
unfolding limited
limited-all n [] h = refl
limited-all zero (x ∷ xs) h = absurd (omega arith)
limited-all (suc n) (x ∷ xs) h = ap (λ ys. x ∷ ys) (limited-all n xs (omega arith))

-- What the store holds of an evaluation's chain.
pub record IsStored (digests : Digests) (s : Store) (r : AuthorityEvaluationRequest) : Type 0 where
  pub request_stored :
      get_approval_request digests r.owner_id r.approval_request.request_id s
      ≡ ok (some r.approval_request)
  pub decision_stored :
      get_approval_decision digests r.owner_id r.approval_decision.decision_id s
      ≡ ok (some r.approval_decision)
  pub grant_stored : get_capability_grant digests r.owner_id r.grant.grant_id s ≡ ok (some r.grant)
  pub revocations_stored :
      list_revocations_for_grant digests r.owner_id r.grant.grant_id s ≡ ok r.revocations
  pub revocations_bounded : length r.revocations ≤ 50

module _ (digests : Digests) (s : Store) where
  bounded-stored :
      (owner grant_id : String) (vs : List RevocationRecord)
      → bounded_revocations digests owner grant_id s ≡ ok vs
      → (list_revocations_for_grant digests owner grant_id s ≡ ok vs) × (length vs ≤ 50)
  unfolding bounded_revocations list_revocations_for_grant Table.list_linked
  bounded-stored owner grant_id vs h =
      let schema = revocation_schema digests in
      let rows = linked_rows owner grant_id s.revocations in
      let (us, call, h1) = >>=-eq-ok (Table.all_to_domain schema (limited 51 rows)) _ h in
      let (u, few, h2) = >>=-eq-ok (raise_if (ltb 50 (length us)) causality) _ h1 in
      let small = raise_if-eq-ok (ltb 50 (length us)) causality few in
      let same : us ≡ vs = ground arith in
      let cut =
        limited-all 50 rows
          (ground (arith, all_to_domain-length schema (limited 51 rows) us call)) in
      let bound : length us ≤ 50 = ground arith in
      (rw (← cut) (call ∙ ap ok same), subst (λ vs. length vs ≤ 50) same bound)

  stored_by_id :
      {A : Type 0} (schema : Schema A) (owner id : String) (rows : List (Row A)) (row : Row A)
      (a b : A)
      → require_row (Table.by_id owner id rows) ≡ ok row
      → Table.to_domain schema row ≡ ok a
      → a ≡ b
      → Table.get_by_id schema owner id rows ≡ ok (some b)
  unfolding Table.get_by_id
  stored_by_id schema owner id rows row a b found read same =
      let there = require_row-eq (Table.by_id owner id rows) row found in
      rw (there, Table.get_by_id, read) (ap (λ b. ok (some b)) same)

with_chain-same :
    (r : AuthorityEvaluationRequest) (chain : PersistedChain)
    → chain_differs r chain ≡ false
    → (chain.approval_request ≡ r.approval_request)
      × (chain.approval_decision ≡ r.approval_decision)
      × (chain.grant ≡ r.grant)
      × (chain.revocations ≡ r.revocations)
with_chain-same r chain h = (ground arith, ground arith, ground arith, ground arith)

with_chain-eq :
    (r : AuthorityEvaluationRequest) (a : ApprovalRequest) (d : ApprovalDecision)
    (g : CapabilityGrant) (vs : List RevocationRecord)
    → a ≡ r.approval_request
    → d ≡ r.approval_decision
    → g ≡ r.grant
    → vs ≡ r.revocations
    → record r { approval_request = a; approval_decision = d; grant = g; revocations = vs } ≡ r
with_chain-eq r a d g vs same_a same_d same_g same_vs = rw (same_a, same_d, same_g, same_vs) refl

-- A chain that resolves is stored, and is the supplied one.
pub resolve_chain-IsStored :
    (digests : Digests) (r : AuthorityEvaluationRequest) (grant_row : Row CapabilityGrant)
    (s : Store) (chain : PersistedChain)
    → require_row (Table.by_id r.owner_id r.grant.grant_id s.grants) ≡ ok grant_row
    → resolve_chain digests r grant_row s ≡ ok chain
    → IsStored digests s r × (with_chain r chain ≡ r)
unfolding resolve_chain get_approval_request get_approval_decision get_capability_grant
resolve_chain-IsStored digests r grant_row s chain found h =
    let (u0, own, h0) =
      >>=-eq-ok
        (raise_if ((grant_row.owner_id != r.owner_id) || (grant_row.record_id != r.grant.grant_id))
          causality)
        _ h in
    let (request_row, at_request, h1) =
      >>=-eq-ok (require_row (Table.by_id r.owner_id r.approval_request.request_id s.requests)) _
        h0 in
    let (decision_row, at_decision, h2) =
      >>=-eq-ok (require_row (Table.by_id r.owner_id r.approval_decision.decision_id s.decisions)) _
        h1 in
    let (request, read_request, h3) =
      >>=-eq-ok (Table.to_domain (request_schema digests) request_row) _ h2 in
    let (decision, read_decision, h4) =
      >>=-eq-ok (Table.to_domain (decision_schema digests) decision_row) _ h3 in
    let (grant, read_grant, h5) =
      >>=-eq-ok (Table.to_domain (grant_schema digests) grant_row) _ h4 in
    let (revocations, read_revocations, h6) =
      >>=-eq-ok (bounded_revocations digests r.owner_id grant_row.record_id s) _ h5 in
    let found_chain : PersistedChain = record {
      approval_request = request;
      approval_decision = decision;
      grant = grant;
      revocations = revocations;
    } in
    let (u1, agrees, h7) = >>=-eq-ok (raise_if (chain_differs r found_chain) causality) _ h6 in
    let (u2, complete, h8) =
      >>=-eq-ok (raise_if (not (chain_is_complete r.owner_id found_chain)) causality) _ h7 in
    let (same_request, same_decision, same_grant, same_revocations) =
      with_chain-same r found_chain
        (raise_if-eq-ok (chain_differs r found_chain) causality agrees) in
    let grant_id : grant_row.record_id ≡ r.grant.grant_id =
      ground (arith, raise_if-eq-ok _ causality own) in
    let (listed, few) = bounded-stored digests s r.owner_id r.grant.grant_id revocations (
      subst (λ id. bounded_revocations digests r.owner_id id s ≡ ok revocations) grant_id
        read_revocations) in
    let last : found_chain ≡ chain = ground arith in
    (
      record {
        request_stored =
            stored_by_id digests s (request_schema digests) _ _ s.requests request_row request _
              at_request read_request same_request;
        decision_stored =
            stored_by_id digests s (decision_schema digests) _ _ s.decisions decision_row decision _
              at_decision read_decision same_decision;
        grant_stored =
            stored_by_id digests s (grant_schema digests) _ _ s.grants grant_row grant _ found
              read_grant same_grant;
        revocations_stored = listed ∙ ap ok same_revocations;
        revocations_bounded = subst (λ vs. length vs ≤ 50) same_revocations few;
      },
      subst (λ chain. with_chain r chain ≡ r) last
          (with_chain-eq r request decision grant revocations same_request same_decision same_grant
            same_revocations),
    )
