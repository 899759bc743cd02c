-- ===== src/Admission/Evidence.antt =====
-- What an authorized finding rests on, and that every finding is one that its model accepts.
use orbit_mind_living_q_core.Common.{
  ◌≡◌, inl, inr, refl, String, Bool, true, Option, none, some, List, Result, ok, err, ◌>>=◌,
  >>=-eq-ok, arith, Option-cases, Bool-cases,
}
use orbit_mind_living_q_core.Authority.Contracts.{
  CapabilityGrant, ApprovalRequest, ApprovalDecision, revocations_sorted_unique, RevocationRecord,
}
use orbit_mind_living_q_core.Authority.Soundness.{IsAuthorized, evaluate_authority-IsAuthorized_iff}
use orbit_mind_living_q_core.Authority.Repository.{
  Digests, Store, get_capability_grant, list_revocations_for_grant,
}
use orbit_mind_living_q_core.Admission.Contracts.{
  OperationProfile, OperationProposal, AdmissionEvaluationContext, AuthorityFinding,
  finding_consistency,
}
use orbit_mind_living_q_core.Admission.Bridge.{
  from_repository, contract_violation, unauthorized, bridge_request, finding_of, chain_of_grant,
  finding_of_grant, authority_finding, finding_for,
}

pub from_repository-eq-ok :
    {A : Type 0} (m : Result _ A) {a : A} → from_repository m ≡ ok a → m ≡ ok a
from_repository-eq-ok (ok a) h = ground arith
from_repository-eq-ok (err e) h = cc

module _ (digests : Digests) (store : Store) (context : AdmissionEvaluationContext)
    (proposal : OperationProposal) (profile : OperationProfile) where
  -- The stored records behind an authorized finding: the grant that the proposal names, its
  -- request, decision and revocations, all of the trusted owner, which together make an
  -- authorized request at the trusted time for this actor, capability and scope.
  pub record Evidence : Type 0 where
    pub grant_id : String
    pub named : proposal.requested_authority_grant_id ≡ some grant_id
    pub grant : CapabilityGrant
    pub stored :
        get_capability_grant digests context.authoritative_owner_id grant_id store ≡ ok (some grant)
    pub request : ApprovalRequest
    pub decision : ApprovalDecision
    pub chain :
        chain_of_grant digests store context.authoritative_owner_id grant
        ≡ ok (some (request, decision))
    pub listed : List RevocationRecord
    pub listed_all :
        list_revocations_for_grant digests context.authoritative_owner_id grant_id store ≡ ok listed
    pub revocations : List RevocationRecord
    pub sorted : revocations_sorted_unique listed ≡ some revocations
    pub authorized :
        IsAuthorized (bridge_request context proposal profile request decision grant revocations)

  finding_of_grant-Evidence :
      (grant_id : String) (grant : CapabilityGrant) (f : AuthorityFinding)
      → proposal.requested_authority_grant_id ≡ some grant_id
      → get_capability_grant digests context.authoritative_owner_id grant_id store ≡ ok (some grant)
      → finding_of_grant digests store context proposal profile grant_id grant ≡ ok f
      → f.is_authorized ≡ true
      → Evidence
  unfolding finding_of_grant finding_of
  finding_of_grant-Evidence grant_id grant f named stored e authorized =
      let (c, chained, e') =
        >>=-eq-ok
          (from_repository (chain_of_grant digests store context.authoritative_owner_id grant)) _
          e in
      with_chain c (from_repository-eq-ok _ chained) e'
    where
      with_revocations :
          (request : ApprovalRequest) (decision : ApprovalDecision) (listed : List RevocationRecord)
          → chain_of_grant digests store context.authoritative_owner_id grant
            ≡ ok (some (request, decision))
          → list_revocations_for_grant digests context.authoritative_owner_id grant_id store
            ≡ ok listed
          → (sorted : Option (List RevocationRecord)) → revocations_sorted_unique listed ≡ sorted
          → elim sorted [
            | none ↦ err contract_violation
            | some rs ↦ ok (
                finding_of grant_id
                  (bridge_request context proposal profile request decision grant rs))
          ]
            ≡ ok f
          → Evidence
      with_revocations request decision listed chain all none sorted e = cc
      with_revocations request decision listed chain all (some rs) sorted e = record {
        grant_id = grant_id;
        named = named;
        grant = grant;
        stored = stored;
        request = request;
        decision = decision;
        chain = chain;
        listed = listed;
        listed_all = all;
        revocations = rs;
        sorted = sorted;
        authorized = (evaluate_authority-IsAuthorized_iff _).0 (ground arith);
      }

      with_chain :
          (c : Option (ApprovalRequest × ApprovalDecision))
          → chain_of_grant digests store context.authoritative_owner_id grant ≡ ok c
          → elim c [
            | none ↦ ok (unauthorized true true)
            | some (request, decision) ↦ do
              listed ←
                  from_repository (
                    list_revocations_for_grant digests context.authoritative_owner_id grant_id
                      store)
              elim (revocations_sorted_unique listed) [
                | none ↦ err contract_violation
                | some rs ↦ ok (
                    finding_of grant_id
                      (bridge_request context proposal profile request decision grant rs))
              ]
          ]
            ≡ ok f
          → Evidence
      with_chain none chained e = absurd (ground arith)
      with_chain (some (request, decision)) chained e =
          let (listed, all, e') =
            >>=-eq-ok
              (from_repository
                (list_revocations_for_grant digests context.authoritative_owner_id grant_id store))
              _ e in
          with_revocations request decision listed chained (from_repository-eq-ok _ all)
            (revocations_sorted_unique listed) refl e'

  -- An authority finding that authorizes has its evidence in the store.
  pub authority_finding-Evidence :
      (f : AuthorityFinding)
      → authority_finding digests store context proposal profile ≡ ok f
      → f.is_authorized ≡ true
      → Evidence
  unfolding authority_finding
  authority_finding-Evidence f e authorized = elim (Bool-cases profile.authority_required) [
    | inl required ↦ elim (Option-cases proposal.requested_authority_grant_id) [
      | inl absent ↦ absurd (ground arith)
      | inr (grant_id, named) ↦ with_grant grant_id named (rw (required, named) at e)
    ]
    | inr free ↦ absurd (ground arith)
  ]
    where
      with_grant :
          (grant_id : String)
          → proposal.requested_authority_grant_id ≡ some grant_id
          → (from_repository
                (get_capability_grant digests context.authoritative_owner_id grant_id store)
              >>= λ found. elim found [
                | none ↦ ok (unauthorized true true)
                | some grant ↦
                    finding_of_grant digests store context proposal profile grant_id grant
              ])
            ≡ ok f
          → Evidence
      with_grant grant_id named e' =
          let (found, read, e'') =
            >>=-eq-ok
              (from_repository
                (get_capability_grant digests context.authoritative_owner_id grant_id store))
              _ e' in
          with_found found (from_repository-eq-ok _ read) e''
        where
          with_found :
              (found : Option CapabilityGrant)
              → get_capability_grant digests context.authoritative_owner_id grant_id store
                ≡ ok found
              → elim found [
                | none ↦ ok (unauthorized true true)
                | some grant ↦
                    finding_of_grant digests store context proposal profile grant_id grant
              ]
                ≡ ok f
              → Evidence
          with_found none read h = absurd (ground arith)
          with_found (some grant) read h =
              finding_of_grant-Evidence grant_id grant f named read h authorized

finding_of-consistent :
    (grant_id : String) (r : _) → finding_consistency (finding_of grant_id r) ≡ true
unfolding finding_of finding_consistency
finding_of-consistent grant_id r = ground arith

unauthorized-consistent :
    (required referenced : Bool) → finding_consistency (unauthorized required referenced) ≡ true
unfolding finding_consistency
unauthorized-consistent required referenced = ground arith

-- Every finding that the bridge returns is one that the validator of its model accepts.
pub finding_for-consistent :
    (digests : Digests) (store : Store) (context : AdmissionEvaluationContext)
    (proposal : OperationProposal) (f : AuthorityFinding)
    → finding_for digests store context proposal ≡ ok f
    → finding_consistency f ≡ true
unfolding finding_for authority_finding finding_of_grant
finding_for-consistent digests store context proposal f e =
    grind (arith, finding_of-consistent, unauthorized-consistent)
