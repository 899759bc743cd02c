-- ===== src/Authority/Persisted.antt =====
-- src/orbitmind/persistence/authority_repository.py: a recorded evaluation is the evaluation of what
-- the store holds.
use orbit_mind_living_q_core.Common.{
  ◌≡◌, ap, ◌∙◌, sym, subst, inl, inr, ◌⊎◌, String, Option, none, some, List, [], ◌∷◌, ◌++◌, ◌!=◌,
  string_eq, nat_eq, ok, err, raise_if, >>=-eq-ok, Option-cases, arith,
}
use orbit_mind_living_q_core.Authority.Contracts.{
  RevocationRecord, AuthorityEvaluationRequest, AuthorityEvaluationDecision,
  revocations_sorted_unique,
}
use orbit_mind_living_q_core.Authority.Evaluation.{evaluate_authority}
use orbit_mind_living_q_core.Authority.Repository.{Digests, Store}
use orbit_mind_living_q_core.Authority.Evaluations.{
  request_eq, decision_eq, grant_eq, revocations_eq, evaluation_eq, EvaluationPayload,
  EvaluationRow, PersistedChain, projections_differ,
}
use orbit_mind_living_q_core.Authority.Recording.{
  check_payload, with_chain, rebuilt_request, require_row, resolve_chain, evaluation_to_domain,
  evaluation_row, authoritative_request, insert_evaluation, replay_evaluation,
  append_evaluation_record,
}
use orbit_mind_living_q_core.Persistence.Table
use orbit_mind_living_q_core.Persistence.Table.{
  RepositoryError, causality, record_corrupt, Row, Schema, linked_rows,
}
use orbit_mind_living_q_core.Authority.StoredChain.{
  raise_if-eq-ok, IsStored, resolve_chain-IsStored,
}

module _ (identity : AuthorityEvaluationRequest → AuthorityEvaluationDecision → String) where
  check_payload-lem :
      (row : EvaluationRow) (p : EvaluationPayload) (stored : AuthorityEvaluationDecision)
      → check_payload identity row p ≡ ok stored
      → (stored ≡ evaluate_authority p.request)
        × (identity p.request stored ≡ row.record_identity)
        × (stored ≡ p.decision)
  unfolding check_payload
  check_payload-lem row p stored h =
      let (u, own, h1) =
        >>=-eq-ok (raise_if (identity p.request p.decision != row.record_identity) record_corrupt) _
          h in
      let (v, same, h2) =
        >>=-eq-ok (raise_if (evaluate_authority p.request != p.decision) record_corrupt) _ h1 in
      let (w, columns, h3) = >>=-eq-ok (raise_if (projections_differ row p) record_corrupt) _ h2 in
      let same_identity : identity p.request p.decision ≡ row.record_identity = ground (
        arith,
        raise_if-eq-ok (identity p.request p.decision != row.record_identity) record_corrupt own,
      ) in
      let same_decision : evaluate_authority p.request ≡ p.decision =
        ground (
          arith,
          raise_if-eq-ok (evaluate_authority p.request != p.decision) record_corrupt same,
        ) in
      let last : p.decision ≡ stored = ground arith in
      (
        sym last ∙ sym same_decision,
        subst (λ d. identity p.request d ≡ row.record_identity) last same_identity,
        sym last,
      )

  -- What a replay returns: the decision of the row with the key, or with the id, and that row has
  -- the identity of the supplied evaluation and holds an evaluation that recomputes.
  pub record Replayed (r : AuthorityEvaluationRequest) (decision : AuthorityEvaluationDecision)
      (key : String) (rows : List EvaluationRow) (stored : AuthorityEvaluationDecision)
      : Type 0 where
    pub row : EvaluationRow
    pub found :
        (Table.by_key r.owner_id key rows ≡ some row)
        ⊎ (Table.by_id r.owner_id r.evaluation_id rows ≡ some row)
    pub same_evaluation : row.replay_key ≡ identity r decision
    pub payload : EvaluationPayload
    pub held : row.payload ≡ some payload
    pub recorded : stored ≡ payload.decision
    pub recomputed : stored ≡ evaluate_authority payload.request
    pub own_identity : identity payload.request stored ≡ row.record_identity

  resolve_replay-found :
      (by_key by_id : Option EvaluationRow) (key : String) (row : EvaluationRow)
      → Table.resolve_replay by_key by_id key ≡ ok (some row)
      → ((by_key ≡ some row) ⊎ (by_id ≡ some row)) × (row.replay_key ≡ key)
  unfolding Table.resolve_replay
  resolve_replay-found (some x) by_id key row h =
      let same : x ≡ row = ground arith in (inl (ap some same), ground arith)
  resolve_replay-found none (some x) key row h =
      let same : x ≡ row = ground arith in (inr (ap some same), ground arith)
  resolve_replay-found none none key row h = absurd (ground arith)

  replay-Replayed :
      (r : AuthorityEvaluationRequest) (decision : AuthorityEvaluationDecision) (key : String)
      (row : EvaluationRow) (stored : AuthorityEvaluationDecision) (rows last : List EvaluationRow)
      → Table.resolve_replay
          (Table.by_key r.owner_id key rows)
          (Table.by_id r.owner_id r.evaluation_id rows)
          (identity r decision)
        ≡ ok (some row)
      → replay_evaluation identity row rows ≡ ok (stored, last)
      → (last ≡ rows) × Replayed r decision key rows stored
  unfolding replay_evaluation evaluation_to_domain
  replay-Replayed r decision key row stored rows last resolved h =
      let (there, same) = resolve_replay-found _ _ (identity r decision) row resolved in
      let (out, read, h1) = >>=-eq-ok (evaluation_to_domain identity row) _ h in
      let first : out ≡ stored = ground arith in
      let second : rows ≡ last = ground arith in
      elim (Option-cases row.payload) [
        | inl e ↦
            let refused : err record_corrupt ≡ ok out = rw (evaluation_to_domain, e) at read in cc
        | inr (p, e) ↦
            let (own, kept, decided) =
              check_payload-lem row p out (rw (evaluation_to_domain, e) at read) in
            (
              sym second,
              record {
                row = row;
                found = there;
                same_evaluation = same;
                payload = p;
                held = e;
                recorded = sym first ∙ decided;
                recomputed = sym first ∙ own;
                own_identity = subst (λ d. identity p.request d ≡ row.record_identity) first kept;
              },
            )
      ]

  module _ (digests : Digests) where
    -- What a new row rests on: the chain is what the store holds, the constructor accepts its
    -- revocations, and the row, the returned decision and the supplied one are the evaluation of the
    -- request with its revocations sorted.
    pub record Recorded (r : AuthorityEvaluationRequest) (decision : AuthorityEvaluationDecision)
        (key : String) (s : Store) (rows : List EvaluationRow)
        (stored : AuthorityEvaluationDecision) (last : List EvaluationRow) : Type 0 where
      pub is_stored : IsStored digests s r
      pub revocations : List RevocationRecord
      pub accepted : revocations_sorted_unique r.revocations ≡ some revocations
      pub value : stored ≡ evaluate_authority (record r { revocations = revocations })
      pub supplied : decision ≡ stored
      pub added :
          last
          ≡ rows
            ++ evaluation_row identity
                (identity r decision)
                (record r { revocations = revocations })
                stored
                key
              ∷ []

    rebuilt_request-lem :
        (r : AuthorityEvaluationRequest) (chain : PersistedChain)
        (found : AuthorityEvaluationRequest)
        → rebuilt_request r chain ≡ ok found
        → with_chain r chain ≡ r
        → (revocations : List RevocationRecord) × (revocations_sorted_unique r.revocations
            ≡ some revocations)
          × (found ≡ record r { revocations = revocations })
    unfolding rebuilt_request
    rebuilt_request-lem r chain found h same =
        let own : chain.revocations ≡ r.revocations = ap (λ q. q.revocations) same in
        elim (Option-cases (revocations_sorted_unique chain.revocations)) [
          | inl e ↦ absurd (ground arith)
          | inr (revocations, e) ↦
              let last : with_chain r (record chain { revocations = revocations }) ≡ found =
                ground arith in
              (
                revocations,
                subst (λ vs. revocations_sorted_unique vs ≡ some revocations) own e,
                sym last
                    ∙ ap {B = AuthorityEvaluationRequest}
                        (λ q. record q { revocations = revocations }) same,
              )
        ]

    authoritative-IsStored :
        (r : AuthorityEvaluationRequest) (decision : AuthorityEvaluationDecision) (s : Store)
        (found : AuthorityEvaluationRequest)
        → authoritative_request identity digests r decision s ≡ ok found
        → IsStored digests s r
          × (decision ≡ evaluate_authority found)
          × ((revocations : List RevocationRecord) × (revocations_sorted_unique r.revocations
                ≡ some revocations)
              × (found ≡ record r { revocations = revocations }))
    unfolding authoritative_request
    authoritative-IsStored r decision s found h =
        let (grant_row, locked, h1) =
          >>=-eq-ok (require_row (Table.by_id r.owner_id r.grant.grant_id s.grants)) _ h in
        let (u, id, h2) =
          >>=-eq-ok (raise_if (decision.evaluation_id != r.evaluation_id) causality) _ h1 in
        let (v, time, h3) =
          >>=-eq-ok (raise_if (decision.evaluation_time != r.evaluation_time) causality) _ h2 in
        let (chain, resolved, h4) = >>=-eq-ok (resolve_chain digests r grant_row s) _ h3 in
        let (rebuilt, made, h5) = >>=-eq-ok (rebuilt_request r chain) _ h4 in
        let (w, agrees, h6) =
          >>=-eq-ok (raise_if (decision != evaluate_authority rebuilt) causality) _ h5 in
        let (stored, same) = resolve_chain-IsStored digests r grant_row s chain locked resolved in
        let equal : decision ≡ evaluate_authority rebuilt =
          ground
            (arith, raise_if-eq-ok (decision != evaluate_authority rebuilt) causality agrees) in
        let last : rebuilt ≡ found = ground arith in
        (
          stored,
          equal ∙ ap evaluate_authority last,
          rebuilt_request-lem r chain found (made ∙ ap ok last) same,
        )

    insert_evaluation-Recorded :
        (r : AuthorityEvaluationRequest) (decision stored : AuthorityEvaluationDecision)
        (key : String) (s : Store) (rows last : List EvaluationRow)
        → insert_evaluation identity digests r decision key s rows ≡ ok (stored, last)
        → Recorded r decision key s rows stored last
    unfolding insert_evaluation evaluation_to_domain
    insert_evaluation-Recorded r decision stored key s rows last h =
        let (found, call, h1) =
          >>=-eq-ok (authoritative_request identity digests r decision s) _ h in
        let row =
          evaluation_row identity (identity r decision) found (evaluate_authority found) key in
        let (out, read, h2) = >>=-eq-ok (evaluation_to_domain identity row) _ h1 in
        let (there, equal, (revocations, accepted, same)) =
          authoritative-IsStored r decision s found call in
        let (own, kept, decided) = check_payload-lem row _ out read in
        let first : out ≡ stored = ground arith in
        let second : rows ++ row ∷ [] ≡ last = ground arith in
        let value : stored ≡ evaluate_authority found = sym first ∙ own in
        record {
          is_stored = there;
          revocations = revocations;
          accepted = accepted;
          value = value ∙ ap evaluate_authority same;
          supplied = equal ∙ sym value;
          added =
              sym second
              ∙ ap (λ d. rows ++ evaluation_row identity (identity r decision) found d key ∷ [])
                  (sym value)
              ∙ ap (λ f. rows ++ evaluation_row identity (identity r decision) f stored key ∷ [])
                  same;
        }

    -- A successful append of an evaluation either changes nothing and returns the decision of a
    -- recorded row with its key or its id, which has the identity of the supplied evaluation and
    -- holds an evaluation that recomputes, or it adds one row; then the request's approval, decision
    -- and grant and all revocations of the grant are those that the store holds, at most fifty of
    -- them, and the row, the returned decision and the supplied one are the evaluation of the
    -- request with its revocations sorted.
    pub append_evaluation_record-persisted :
        (r : AuthorityEvaluationRequest) (decision stored : AuthorityEvaluationDecision)
        (key : String) (s : Store) (rows last : List EvaluationRow)
        → append_evaluation_record identity digests r decision key s rows ≡ ok (stored, last)
        → ((last ≡ rows) × Replayed r decision key rows stored)
          ⊎ Recorded r decision key s rows stored last
    unfolding append_evaluation_record
    append_evaluation_record-persisted r decision stored key s rows last h =
        let (resolved, replay, h1) =
          >>=-eq-ok
            (Table.resolve_replay (Table.by_key r.owner_id key rows)
              (Table.by_id r.owner_id r.evaluation_id rows) (identity r decision))
            _ h in
        elim (Option-cases resolved) [
          | inl e ↦
              let inserted : insert_evaluation identity digests r decision key s rows
                  ≡ ok (stored, last) =
                rw e at h1 in
              inr (insert_evaluation-Recorded r decision stored key s rows last inserted)
          | inr (row, e) ↦
              inl (
                replay-Replayed r decision key row stored rows last (replay ∙ ap ok e) (rw e at h1))
        ]
