-- ===== src/Authority/Terminal.antt =====
-- src/orbitmind/orchestration/authority_lifecycle.py: a request has one decision for good.
use orbit_mind_living_q_core.Common.{
  ◌≡◌, refl, sym, ap, ◌∙◌, subst, inl, inr, ◌⊎◌, String, Bool, false, ◌&&◌, ◌≤◌, none, some, List,
  [], ◌∷◌, ◌++◌, any, keep, sorted_by, any-sorted, any-keep, All, ltb, ◌==◌, ◌!=◌, string_eq,
  nat_eq, Result, ok, err, >>=-eq-ok, arith,
}
use orbit_mind_living_q_core.Authority.Contracts.{ApprovalRequest, ApprovalDecision}
use orbit_mind_living_q_core.Authority.Evaluations.{decision_eq}
use orbit_mind_living_q_core.Authority.Repository.{
  Digests, Store, decision_schema, get_approval_request, check_decision, append_approval_decision,
}
use orbit_mind_living_q_core.Authority.StoredChain.{raise_if-eq-ok}
use orbit_mind_living_q_core.Authority.Lifecycle.{
  request_not_found, policy_mismatch, chain_mismatch, request_already_decided,
  RecordApprovalDecisionCommand, lift_repository, require_found, decision_of,
  list_approval_decisions, decisions_for_request, check_existing, record_approval_decision,
}
use orbit_mind_living_q_core.Authority.Commands.{lift_repository-eq-ok, require_found-eq-ok, passed}
use orbit_mind_living_q_core.Persistence.Table
use orbit_mind_living_q_core.Persistence.Table.{Disposition, Row, Schema, row_leb}
use orbit_mind_living_q_core.Persistence.TableLaws.{
  IsIntact, Appended, replayed, inserted, append-Appended,
}

module _ {A : Type 0} (schema : Schema A) (o i : String) where
  open schema use {owner_of, id_of}

  abbrev read_is_named : Result Table.RepositoryError A → Bool
  read_is_named (ok a) = (owner_of a == o) && (id_of a == i)
  read_is_named (err e) = false

  -- No intact row reads as a record whose id has no row.
  any-by_id :
      (rows : List (Row A))
      → All (IsIntact schema (λ _. Unit {0})) rows
      → Table.by_id o i rows ≡ none
      → any (λ r. read_is_named (Table.to_domain schema r)) rows ≡ false
  unfolding Table.by_id
  any-by_id [] h e = refl
  any-by_id (r ∷ rows) h e =
      let reads = h.0.reads in
      let owner = h.0.owner in let id = h.0.id in ground (arith, any-by_id rows h.1)

  any-all_to_domain :
      (rows : List (Row A)) (ds : List A)
      → Table.all_to_domain schema rows ≡ ok ds
      → any (λ r. read_is_named (Table.to_domain schema r)) rows ≡ false
      → any (λ a. (owner_of a == o) && (id_of a == i)) ds ≡ false
  unfolding Table.all_to_domain
  any-all_to_domain [] ds h e = let same : [] ≡ ds = ground arith in ground arith
  any-all_to_domain (r ∷ rows) ds h e =
      let (a, first, h1) = >>=-eq-ok (Table.to_domain schema r) _ h in
      let (rest, call, h2) = >>=-eq-ok (Table.all_to_domain schema rows) _ h1 in
      let shape : a ∷ rest ≡ ds = ground arith in ground (arith, any-all_to_domain rows rest call)

module _ (digests : Digests) where
  -- No decision that is listed for a request has an id without a row.
  listed-named :
      (s : Store) (o i owner request_id : String) (ds : List ApprovalDecision)
      → All (IsIntact (decision_schema digests) (λ _. Unit {0})) s.decisions
      → Table.by_id o i s.decisions ≡ none
      → decisions_for_request digests owner request_id s ≡ ok ds
      → any (λ d. (d.owner_id == o) && (d.decision_id == i)) ds ≡ false
  unfolding decisions_for_request list_approval_decisions
  listed-named s o i owner request_id ds intact missing h =
      let schema = decision_schema digests in
      let mine : List (Row ApprovalDecision) = keep (λ r. r.owner_id == owner) s.decisions in
      let (all, listed, h1) =
        >>=-eq-ok (lift_repository (list_approval_decisions digests owner s)) _ h in
      let kept : keep (λ d. d.request_id == request_id) all ≡ ds = ground arith in
      let absent : any (λ r. read_is_named schema o i (Table.to_domain schema r)) mine ≡ false =
        any-keep _ (λ r. r.owner_id == owner) s.decisions
          (any-by_id schema o i s.decisions intact missing) in
      let unread : any (λ d. (d.owner_id == o) && (d.decision_id == i)) all ≡ false =
        any-all_to_domain schema o i (sorted_by row_leb mine) all
          (lift_repository-eq-ok _ all listed) (any-sorted row_leb _ mine ∙ absent) in
      subst (λ xs. any (λ d. (d.owner_id == o) && (d.decision_id == i)) xs ≡ false) kept
        (any-keep _ (λ d. d.request_id == request_id) all unread)

  -- What the decisions of a request that allow another one are.
  existing-cases :
      (ds : List ApprovalDecision) (d : ApprovalDecision) {u : Unit {0}}
      → check_existing digests ds d ≡ ok u
      → (ds ≡ []) ⊎ (ds ≡ d ∷ [])
  unfolding check_existing
  existing-cases [] d h = inl refl
  existing-cases (x ∷ []) d h =
      let same : x ≡ d = ground (arith, raise_if-eq-ok (x != d) request_already_decided h) in
      inr (ap (λ y. y ∷ []) same)
  existing-cases (x ∷ y ∷ more) d h = cc

  append-rows :
      (d a : ApprovalDecision) (key : String) (s t : Store)
      → append_approval_decision digests d key s ≡ ok (a, t)
      → Appended
          (decision_schema digests)
          (check_decision digests d s)
          d
          key
          s.decisions
          a
          t.decisions
        × (t ≡ record s { decisions = t.decisions })
  unfolding append_approval_decision
  append-rows d a key s t h =
      let (out, call, h1) =
        >>=-eq-ok
          (Table.append (decision_schema digests) (check_decision digests d s) d key s.decisions) _
          h in
      let (b, flag, rows) = out in
      let first : b ≡ a = ground arith in
      let second : record s { decisions = rows } ≡ t = ground arith in
      let done =
        append-Appended (decision_schema digests) (check_decision digests d s) d b flag key
          s.decisions rows call in
      (
        subst
            (λ (u : Store).
              Appended (decision_schema digests) (check_decision digests d s) d key s.decisions a
                u.decisions)
            second
            (subst
              (λ x.
                Appended (decision_schema digests) (check_decision digests d s) d key s.decisions x
                  rows)
              first done),
        subst (λ (u : Store). u ≡ record s { decisions = u.decisions }) second refl,
      )

  -- What a command has that adds a decision.
  pub record IsDecided (s t : Store) (c : RecordApprovalDecisionCommand) (d : ApprovalDecision)
      : Type 0 where
    pub request : ApprovalRequest
    pub request_stored : get_approval_request digests c.owner_id c.request_id s ≡ ok (some request)
    pub request_policy : c.policy_version ≡ request.policy_version
    pub in_order : request.requested_at ≤ c.decided_at
    pub undecided : decisions_for_request digests c.owner_id c.request_id s ≡ ok []
    pub decided : d ≡ decision_of c request
    pub added : t ≡ record s {
      decisions = s.decisions ++ Table.new_row (decision_schema digests) d c.idempotency_key ∷ [];
    }

  -- On intact decision rows, a successful decision command either changes nothing, or the request is
  -- stored under the command's policy, was not made later than the decision and had no decision, and
  -- one row is added: that of the returned decision, which echoes the request.
  pub record_approval_decision-terminal :
      (c : RecordApprovalDecisionCommand) (s t : Store) (d : ApprovalDecision)
      → All (IsIntact (decision_schema digests) (λ _. Unit {0})) s.decisions
      → record_approval_decision digests c s ≡ ok (d, t)
      → (t ≡ s) ⊎ IsDecided s t c d
  unfolding record_approval_decision
  record_approval_decision-terminal c s t d intact h =
      let (request, asked, h1) = >>=-eq-ok (require_found request_not_found _) _ h in
      let (policy, h2) = passed (c.policy_version != request.policy_version) policy_mismatch _ h1 in
      let (order, h3) = passed (ltb c.decided_at request.requested_at) chain_mismatch _ h2 in
      let (ds, listed, h4) =
        >>=-eq-ok (decisions_for_request digests c.owner_id c.request_id s) _ h3 in
      let (u, allowed, h5) = >>=-eq-ok (check_existing digests ds (decision_of c request)) _ h4 in
      let (done, shape) =
        append-rows (decision_of c request) d c.idempotency_key s t
          (lift_repository-eq-ok _ (d, t) h5) in
      ended request asked policy order ds listed (existing-cases ds (decision_of c request) allowed)
        done shape
    where
      ended :
          (request : ApprovalRequest)
          → require_found request_not_found (get_approval_request digests c.owner_id c.request_id s)
            ≡ ok request
          → (c.policy_version != request.policy_version) ≡ false
          → ltb c.decided_at request.requested_at ≡ false
          → (ds : List ApprovalDecision)
          → decisions_for_request digests c.owner_id c.request_id s ≡ ok ds
          → (ds ≡ []) ⊎ (ds ≡ decision_of c request ∷ [])
          → Appended
              (decision_schema digests)
              (check_decision digests (decision_of c request) s)
              (decision_of c request)
              c.idempotency_key
              s.decisions
              d
              t.decisions
          → t ≡ record s { decisions = t.decisions }
          → (t ≡ s) ⊎ IsDecided s t c d
      ended request asked policy order ds listed cases (replayed r found read same) shape =
          inl (shape ∙ ap (λ rows. record s { decisions = rows }) same)
      ended request asked policy order ds listed (inl none_yet)
            (inserted new missing checked value same) shape =
          inr (record {
            request = request;
            request_stored = require_found-eq-ok request_not_found _ request asked;
            request_policy = ground arith;
            in_order = ground arith;
            undecided = listed ∙ ap ok none_yet;
            decided = value;
            added =
                shape
                ∙ ap (λ rows. record s { decisions = rows }) same
                ∙ ap
                    (λ (x : ApprovalDecision). record s {
                      decisions =
                          s.decisions
                          ++ Table.new_row (decision_schema digests) x c.idempotency_key ∷ [];
                    })
                    (sym value);
          })
      ended request asked policy order ds listed (inr already)
            (inserted new missing checked value same) shape =
          let absent =
            listed-named s request.owner_id c.decision_id c.owner_id c.request_id ds intact missing
              listed in
          absurd (ground arith)
