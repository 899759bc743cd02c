-- ===== src/Authority/Causality.antt =====
-- Over every history of appends, a stored grant has its whole chain in the store: the approved
-- decision that it matches, and the request that this decision echoes.
mod Bases
pub use Bases.*
use mathlib.Core.List.{append-nil}
use orbit_mind_living_q_core.Common.{
  ◌≡◌, String, Option, none, some, List, [], ◌∷◌, ◌++◌, ◌!=◌, Result, raise_if, >>=-eq-ok, ◌>>◌, ok,
  err, All, arith, sym, ◌∙◌, subst, string_eq,
}
use orbit_mind_living_q_core.Authority.Contracts.{
  ApprovalRequest, ApprovalDecision, CapabilityGrant, RevocationRecord, approved, outcome_eq,
  subject_eq, scope_eq, validity_eq,
}
use orbit_mind_living_q_core.Persistence.Table
use orbit_mind_living_q_core.Persistence.Table.{RepositoryError, causality, Row, Schema}
use orbit_mind_living_q_core.Persistence.TableLaws.{
  IsIntact, Appended, replayed, inserted, append-Appended, All-append_new, All-weaken,
  get_by_id-found, get_by_id-append,
}
use orbit_mind_living_q_core.Authority.Repository.{
  Digests, Store, empty_store, does_not_echo, does_not_match, request_schema, decision_schema,
  grant_schema, revocation_schema, get_approval_request, get_approval_decision,
  get_capability_grant, append_approval_request, check_decision, append_approval_decision,
  check_grant, append_capability_grant, check_revocation, append_revocation,
}

module _ (digests : Digests) where
  Step-IsCausal : {s t : Store} → Step digests s t → IsCausal digests s → IsCausal digests t
  unfolding append_approval_request append_approval_decision append_capability_grant
      append_revocation
  Step-IsCausal {s} (request r key a t e) h =
      let ((stored, disposition, rows), appended, same) =
        >>=-eq-ok (Table.append (request_schema digests) (ok tt) r key s.requests) _ e in
      let done =
        append-Appended (request_schema digests) (ok tt) r stored disposition key s.requests rows
          appended in
      let next : record s { requests = rows } ≡ t = cc in
      subst (IsCausal digests) next (record {
        requests_intact =
            Appended-All digests (request_schema digests) (λ _. Unit {0}) done h.requests_intact
              (λ _. tt);
        decisions_based =
            let (more, grown) = Appended-extends digests (request_schema digests) done in
            All-weaken (decision_schema digests) (HasRequest digests s.requests)
              (HasRequest digests rows) s.decisions
              (λ d based.
                subst (λ rs. HasRequest digests rs d) (sym grown)
                  (HasRequest-append digests s.requests more d based))
              h.decisions_based;
        grants_based = h.grants_based;
        revocations_intact = h.revocations_intact;
      })
  Step-IsCausal {s} (decision d key a t e) h =
      let ((stored, disposition, rows), appended, same) =
        >>=-eq-ok
          (Table.append (decision_schema digests) (check_decision digests d s) d key s.decisions) _
          e in
      let done =
        append-Appended (decision_schema digests) (check_decision digests d s) d stored disposition
          key s.decisions rows appended in
      let next : record s { decisions = rows } ≡ t = cc in
      subst (IsCausal digests) next (record {
        requests_intact = h.requests_intact;
        decisions_based =
            Appended-All digests (decision_schema digests) (HasRequest digests s.requests) done
              h.decisions_based (check_decision-HasRequest digests d s);
        grants_based =
            let (more, grown) = Appended-extends digests (decision_schema digests) done in
            All-weaken (grant_schema digests) (HasDecision digests s.decisions)
              (HasDecision digests rows) s.grants
              (λ g based.
                subst (λ rs. HasDecision digests rs g) (sym grown)
                  (HasDecision-append digests s.decisions more g based))
              h.grants_based;
        revocations_intact = h.revocations_intact;
      })
  Step-IsCausal {s} (grant g key a t e) h =
      let ((stored, disposition, rows), appended, same) =
        >>=-eq-ok (Table.append (grant_schema digests) (check_grant digests g s) g key s.grants) _
          e in
      let done =
        append-Appended (grant_schema digests) (check_grant digests g s) g stored disposition key
          s.grants rows appended in
      let next : record s { grants = rows } ≡ t = cc in
      subst (IsCausal digests) next (record {
        requests_intact = h.requests_intact;
        decisions_based = h.decisions_based;
        grants_based =
            Appended-All digests (grant_schema digests) (HasDecision digests s.decisions) done
              h.grants_based (check_grant-HasDecision digests g s);
        revocations_intact = h.revocations_intact;
      })
  Step-IsCausal {s} (revocation v key a t e) h =
      let ((stored, disposition, rows), appended, same) =
        >>=-eq-ok
          (Table.append (revocation_schema digests) (check_revocation digests v s) v key
            s.revocations)
          _ e in
      let done =
        append-Appended (revocation_schema digests) (check_revocation digests v s) v stored
          disposition key s.revocations rows appended in
      let next : record s { revocations = rows } ≡ t = cc in
      subst (IsCausal digests) next (record {
        requests_intact = h.requests_intact;
        decisions_based = h.decisions_based;
        grants_based = h.grants_based;
        revocations_intact =
            Appended-All digests (revocation_schema digests) (λ _. Unit {0}) done
              h.revocations_intact (λ _. tt);
      })

  Reachable-IsCausal : {s : Store} → Reachable digests s → IsCausal digests s
  Reachable-IsCausal start = record {
    requests_intact = tt;
    decisions_based = tt;
    grants_based = tt;
    revocations_intact = tt;
  }
  Reachable-IsCausal (step r st) = Step-IsCausal st (Reachable-IsCausal r)

  -- After any history of appends, a grant that can be read was issued by its owner's approved
  -- decision, which can be read and which it matches in every field, and this decision was made on
  -- a request of the same owner, which can be read and which it echoes in every field.
  pub Reachable-grant_chain :
      {s : Store}
      → Reachable digests s
      → (owner id : String) (g : CapabilityGrant)
      → get_capability_grant digests owner id s ≡ ok (some g)
      → (g.owner_id ≡ owner)
        × (g.grant_id ≡ id)
        × ((based : HasDecision digests s.decisions g) × HasRequest digests s.requests
              based.decision)
  unfolding get_capability_grant
  Reachable-grant_chain {s} r owner id g e =
      let inv = Reachable-IsCausal r in
      let (based, same_owner, same_id) =
        get_by_id-found (grant_schema digests) (HasDecision digests s.decisions) owner id g s.grants
          inv.grants_based e in
      let (on_request, _, _) =
        get_by_id-found (decision_schema digests) (HasRequest digests s.requests) g.owner_id
          g.decision_id based.decision s.decisions inv.decisions_based based.found in
      (same_owner, same_id, (based, on_request))
