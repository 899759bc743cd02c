-- ===== src/Authority/Causality/Bases.antt =====
-- src/orbitmind/persistence/authority_repository.py: what a stored decision and a stored grant rest
-- on, the steps of a history, and what the checks of an append establish.
use mathlib.Core.List.{append-nil}
use orbit_mind_living_q_core.Common.{
  ◌≡◌, String, Option, none, some, List, [], ◌∷◌, ◌++◌, ◌!=◌, Result, raise_if, >>=-eq-ok, ◌>>◌, ok,
  err, All, arith, sym, ◌∙◌, subst, string_eq,
}
use orbit_mind_living_q_core.Authority.Contracts.{
  ApprovalRequest, ApprovalDecision, CapabilityGrant, RevocationRecord, approved, outcome_eq,
  subject_eq, scope_eq, validity_eq,
}
use orbit_mind_living_q_core.Persistence.Table
use orbit_mind_living_q_core.Persistence.Table.{RepositoryError, causality, Row, Schema}
use orbit_mind_living_q_core.Persistence.TableLaws.{
  IsIntact, Appended, replayed, inserted, All-append_new, get_by_id-append,
}
use orbit_mind_living_q_core.Authority.Repository.{
  Digests, Store, empty_store, does_not_echo, does_not_match, request_schema, decision_schema,
  grant_schema, revocation_schema, get_approval_request, get_approval_decision,
  append_approval_request, check_decision, append_approval_decision, check_grant,
  append_capability_grant, append_revocation,
}

module _ (digests : Digests) where
  -- The decision has its request in the table, and echoes it.
  pub record HasRequest (requests : List (Row ApprovalRequest)) (d : ApprovalDecision)
      : Type 0 where
    pub request : ApprovalRequest
    pub found :
        Table.get_by_id (request_schema digests) d.owner_id d.request_id requests
        ≡ ok (some request)
    pub subject : d.subject ≡ request.subject
    pub capability : d.capability ≡ request.capability
    pub scope : d.scope ≡ request.scope
    pub purpose : d.purpose ≡ request.purpose
    pub policy_version : d.policy_version ≡ request.policy_version
    pub validity : d.validity ≡ request.validity

  -- The grant has its decision in the table, which approves the same request and matches.
  pub record HasDecision (decisions : List (Row ApprovalDecision)) (g : CapabilityGrant)
      : Type 0 where
    pub decision : ApprovalDecision
    pub found :
        Table.get_by_id (decision_schema digests) g.owner_id g.decision_id decisions
        ≡ ok (some decision)
    pub same_request : decision.request_id ≡ g.request_id
    pub is_approved : decision.outcome ≡ approved
    pub subject : g.subject ≡ decision.subject
    pub capability : g.capability ≡ decision.capability
    pub scope : g.scope ≡ decision.scope
    pub purpose : g.purpose ≡ decision.purpose
    pub policy_version : g.policy_version ≡ decision.policy_version
    pub validity : g.validity ≡ decision.validity

  -- Every row is intact, and every decision and grant has what it rests on.
  pub record IsCausal (s : Store) : Type 0 where
    pub requests_intact : All (IsIntact (request_schema digests) (λ _. Unit {0})) s.requests
    pub decisions_based :
        All (IsIntact (decision_schema digests) (HasRequest s.requests)) s.decisions
    pub grants_based : All (IsIntact (grant_schema digests) (HasDecision s.decisions)) s.grants
    pub revocations_intact :
        All (IsIntact (revocation_schema digests) (λ _. Unit {0})) s.revocations

  -- One append of the repository that succeeds.
  pub data Step (s : Store) : Store → Type 0 where
    request :
        (r : ApprovalRequest) (key : String) (a : ApprovalRequest) (t : Store)
        → append_approval_request digests r key s ≡ ok (a, t)
        → Step s t
    decision :
        (d : ApprovalDecision) (key : String) (a : ApprovalDecision) (t : Store)
        → append_approval_decision digests d key s ≡ ok (a, t)
        → Step s t
    grant :
        (g : CapabilityGrant) (key : String) (a : CapabilityGrant) (t : Store)
        → append_capability_grant digests g key s ≡ ok (a, t)
        → Step s t
    revocation :
        (v : RevocationRecord) (key : String) (a : RevocationRecord) (t : Store)
        → append_revocation digests v key s ≡ ok (a, t)
        → Step s t

  pub data Reachable : Store → Type 0 where
    start : Reachable empty_store
    step : {s t : Store} → Reachable s → Step s t → Reachable t

  pub HasRequest-append :
      (requests more : List (Row ApprovalRequest)) (d : ApprovalDecision)
      → HasRequest requests d
      → HasRequest (requests ++ more) d
  HasRequest-append requests more d h =
      let kept =
        get_by_id-append (request_schema digests) d.owner_id d.request_id h.request requests more
          h.found in
      record {
        request = h.request;
        found = kept;
        subject = h.subject;
        capability = h.capability;
        scope = h.scope;
        purpose = h.purpose;
        policy_version = h.policy_version;
        validity = h.validity;
      }

  pub HasDecision-append :
      (decisions more : List (Row ApprovalDecision)) (g : CapabilityGrant)
      → HasDecision decisions g
      → HasDecision (decisions ++ more) g
  HasDecision-append decisions more g h =
      let kept =
        get_by_id-append (decision_schema digests) g.owner_id g.decision_id h.decision decisions
          more h.found in
      record {
        decision = h.decision;
        found = kept;
        same_request = h.same_request;
        is_approved = h.is_approved;
        subject = h.subject;
        capability = h.capability;
        scope = h.scope;
        purpose = h.purpose;
        policy_version = h.policy_version;
        validity = h.validity;
      }

  pub check_decision-HasRequest :
      (d : ApprovalDecision) (s : Store)
      → check_decision digests d s ≡ ok tt
      → HasRequest s.requests d
  unfolding check_decision get_approval_request does_not_echo
  check_decision-HasRequest d s h =
      let (o, found, passed) =
        >>=-eq-ok (get_approval_request digests d.owner_id d.request_id s) _ h in
      with_request o found passed
    where
      with_request :
          (o : Option ApprovalRequest)
          → Table.get_by_id (request_schema digests) d.owner_id d.request_id s.requests ≡ ok o
          → elim o [ none ↦ err causality | some r ↦ raise_if (does_not_echo d r) causality ]
            ≡ ok tt
          → HasRequest s.requests d
      with_request none found passed = cc
      with_request (some r) found passed = record {
        request = r;
        found = found;
        subject = ground arith;
        capability = ground arith;
        scope = ground arith;
        purpose = ground arith;
        policy_version = ground arith;
        validity = ground arith;
      }

  pub check_grant-HasDecision :
      (g : CapabilityGrant) (s : Store)
      → check_grant digests g s ≡ ok tt
      → HasDecision s.decisions g
  unfolding check_grant get_approval_decision does_not_match
  check_grant-HasDecision g s h =
      let (o, found, passed) =
        >>=-eq-ok (get_approval_decision digests g.owner_id g.decision_id s) _ h in
      with_decision o found passed
    where
      with_decision :
          (o : Option ApprovalDecision)
          → Table.get_by_id (decision_schema digests) g.owner_id g.decision_id s.decisions ≡ ok o
          → elim o [
            | none ↦ err causality
            | some d ↦ do
              raise_if (d.request_id != g.request_id) causality
              raise_if (d.outcome != approved) causality
              raise_if (does_not_match g d) causality
          ]
            ≡ ok tt
          → HasDecision s.decisions g
      with_decision none found passed = cc
      with_decision (some d) found passed = record {
        decision = d;
        found = found;
        same_request = ground arith;
        is_approved = ground arith;
        subject = ground arith;
        capability = ground arith;
        scope = ground arith;
        purpose = ground arith;
        policy_version = ground arith;
        validity = ground arith;
      }

  pub Appended-All :
      {A : Type 0} (schema : Schema A) (P : A → Type 0) {check : Result RepositoryError (Unit {0})}
      {a b : A} {key : String} {rows rows' : List (Row A)}
      → Appended schema check a key rows b rows'
      → All (IsIntact schema P) rows
      → (check ≡ ok tt → P a)
      → All (IsIntact schema P) rows'
  Appended-All schema P (replayed r _ _ same) h p = subst (All (IsIntact schema P)) (sym same) h
  Appended-All schema P {a = a} {key = key} {rows = rows} (inserted _ _ c _ same) h p =
      subst (All (IsIntact schema P)) (sym same) (All-append_new schema P a key rows h (p c))

  -- The rows after an append are the rows before it and more.
  pub Appended-extends :
      {A : Type 0} (schema : Schema A) {check : Result RepositoryError (Unit {0})} {a b : A}
      {key : String} {rows rows' : List (Row A)}
      → Appended schema check a key rows b rows'
      → (more : List (Row A)) × (rows' ≡ rows ++ more)
  Appended-extends schema (replayed r _ _ same) = ([], same ∙ sym (append-nil _))
  Appended-extends schema {a = a} {key = key} (inserted _ _ _ _ same) =
      (Table.new_row schema a key ∷ [], same)
