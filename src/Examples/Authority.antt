-- ===== src/Examples/Authority.antt =====
-- The authority theorems at the examples.
use orbit_mind_living_q_core.Common.{
  ◌≡◌, refl, ◌↔◌, true, false, some, List, [], ◌∷◌, ok, err, arith, inr, String, String-discrete,
  Bool-discrete, ◌⊎◌,
}
use native.Mathlib.Decide.{ℕ_discrete}
use mathlib.Core.List.{Perm}
use mathlib.Core.List.Perm
use orbit_mind_living_q_core.Authority.Contracts.{
  revocations_sorted_unique, RevocationRecord, AuthorityEvaluationRequest,
  AuthorityEvaluationDecision, revoked, authorized, evaluation_details, window_contains,
  SubjectType-discrete, ApprovalDecisionOutcome-discrete, AuthorityReasonCode-discrete,
  SubjectReference-discrete, ScopeConstraint-discrete, AuthorityScope-discrete,
  ValidityWindow-discrete,
}
use orbit_mind_living_q_core.Authority.Evaluation.{
  evaluation_precedence, links_are_malformed, owners_differ, is_operator, is_foreign, echo_differs,
  chain_is_malformed, grant_matches_decision, decide_with, is_revoked, evaluate_authority,
}
use orbit_mind_living_q_core.Authority.Soundness.{IsAuthorized, evaluate_authority-IsAuthorized_iff}
use orbit_mind_living_q_core.Authority.Precedence.{
  fails, first_failing, at_time, with_revocations, evaluate_authority-first_failing,
  evaluate_authority-final, evaluate_authority-revocation_mono, evaluate_authority-perm,
}
use orbit_mind_living_q_core.Authority.Repository.{
  Store, request_schema, empty_store, append_approval_request, append_approval_decision,
  append_capability_grant, check_decision, check_grant, does_not_echo, does_not_match,
  get_approval_request, get_approval_decision, get_capability_grant,
}
use orbit_mind_living_q_core.Authority.Causality.{
  HasDecision, HasRequest, Reachable, start, step, request, decision, grant, Reachable-grant_chain,
}
use orbit_mind_living_q_core.Authority.Evaluations.{
  OperatorReference-discrete, Actor-discrete, ApprovalRequest-discrete, ApprovalDecision-discrete,
  CapabilityGrant-discrete, RevocationRecord-discrete, Revocations-discrete,
  EvaluationDecision-discrete, EvaluationRow, relevant_revocation_id, projections_differ,
  chain_is_complete,
}
use orbit_mind_living_q_core.Authority.Recording.{
  rebuilt_request, limited, bounded_revocations, resolve_chain, check_payload, evaluation_to_domain,
  evaluation_row, authoritative_request, insert_evaluation, append_evaluation_record,
}
use orbit_mind_living_q_core.Authority.Persisted.{
  Replayed, Recorded, append_evaluation_record-persisted,
}
use orbit_mind_living_q_core.Persistence.Table
use orbit_mind_living_q_core.Persistence.Table.{causality, created, replayed}
use orbit_mind_living_q_core.Persistence.TableLaws.{append-append}
use orbit_mind_living_q_core.Examples.Data.{
  an_approval, a_decision, a_grant, revocation_at, a_question, digests, a_store,
}

abbrev later_revocation : List RevocationRecord
later_revocation = revocation_at "revocation-1" 90 ∷ []

abbrev early_revocation : List RevocationRecord
early_revocation = revocation_at "revocation-2" 40 ∷ []

is_authorized : (evaluate_authority (a_question later_revocation)).is_authorized ≡ true
unfolding evaluate_authority chain_is_malformed links_are_malformed owners_differ is_operator
    is_foreign echo_differs grant_matches_decision decide_with is_revoked String-discrete
is_authorized = ground arith

is_revoked_early : (evaluate_authority (a_question early_revocation)).reason_code ≡ revoked
unfolding evaluate_authority chain_is_malformed links_are_malformed owners_differ is_operator
    is_foreign echo_differs grant_matches_decision decide_with is_revoked String-discrete
is_revoked_early = ground arith

evaluate_authority-IsAuthorized_iff_example :
    ((evaluate_authority (a_question later_revocation)).is_authorized ≡ true)
    ↔ IsAuthorized (a_question later_revocation)
evaluate_authority-IsAuthorized_iff_example =
    evaluate_authority-IsAuthorized_iff (a_question later_revocation)

evaluate_authority-first_failing_example :
    (evaluate_authority (a_question early_revocation)).reason_code
    ≡ first_failing (fails (a_question early_revocation)) evaluation_precedence
evaluate_authority-first_failing_example =
    evaluate_authority-first_failing (a_question early_revocation)

evaluate_authority-final_example :
    (evaluate_authority (at_time (a_question early_revocation) 60)).is_authorized ≡ false
evaluate_authority-final_example =
    evaluate_authority-final (a_question early_revocation) 60 (omega arith) (inr is_revoked_early)

evaluate_authority-revocation_mono_example :
    (evaluate_authority (a_question [])).is_authorized ≡ true
evaluate_authority-revocation_mono_example =
    evaluate_authority-revocation_mono (a_question []) (revocation_at "revocation-1" 90)
      is_authorized

two_revocations :
    Perm
      (revocation_at "revocation-1" 90 ∷ early_revocation)
      (revocation_at "revocation-2" 40 ∷ later_revocation)
two_revocations = Perm.swap (revocation_at "revocation-2" 40) (revocation_at "revocation-1" 90) []

evaluate_authority-perm_example :
    evaluate_authority (
      with_revocations
        (a_question (revocation_at "revocation-1" 90 ∷ early_revocation))
        (revocation_at "revocation-2" 40 ∷ later_revocation))
    ≡ evaluate_authority (a_question (revocation_at "revocation-1" 90 ∷ early_revocation))
evaluate_authority-perm_example =
    evaluate_authority-perm (a_question (revocation_at "revocation-1" 90 ∷ early_revocation))
      two_revocations

abbrev with_request : Store
with_request = record empty_store { requests = a_store.requests }

abbrev with_decision : Store
with_decision = record with_request { decisions = a_store.decisions }

append_request :
    append_approval_request digests an_approval "key-1" empty_store ≡ ok (an_approval, with_request)
unfolding append_approval_request Table.append Table.by_key Table.by_id Table.resolve_replay
    Table.new_row Table.to_domain String-discrete
append_request = ground arith

append_decision :
    append_approval_decision digests a_decision "key-2" with_request
    ≡ ok (a_decision, with_decision)
unfolding append_approval_decision check_decision does_not_echo get_approval_request Table.get_by_id
    Table.append Table.by_key Table.by_id Table.resolve_replay Table.new_row Table.to_domain
    String-discrete
append_decision = ground arith

append_grant : append_capability_grant digests a_grant "key-3" with_decision ≡ ok (a_grant, a_store)
unfolding append_capability_grant check_grant does_not_match get_approval_decision Table.get_by_id
    Table.append Table.by_key Table.by_id Table.resolve_replay Table.new_row Table.to_domain
    String-discrete
append_grant = ground arith

stored_grant : get_capability_grant digests "owner-1" "grant-1" a_store ≡ ok (some a_grant)
unfolding get_capability_grant Table.get_by_id Table.by_id Table.new_row Table.to_domain
    String-discrete
stored_grant = ground arith

a_history : Reachable digests a_store
a_history =
    step
      (step (step start (request an_approval "key-1" an_approval with_request append_request))
        (decision a_decision "key-2" a_decision with_decision append_decision))
      (grant a_grant "key-3" a_grant a_store append_grant)

Reachable-grant_chain_example :
    (a_grant.owner_id ≡ "owner-1")
    × (a_grant.grant_id ≡ "grant-1")
    × ((based : HasDecision digests a_store.decisions a_grant) × HasRequest digests a_store.requests
          based.decision)
Reachable-grant_chain_example =
    Reachable-grant_chain digests a_history "owner-1" "grant-1" a_grant stored_grant

first_append :
    Table.append (request_schema digests) (ok tt) an_approval "key-1" []
    ≡ ok (an_approval, created, a_store.requests)
unfolding Table.append Table.by_key Table.by_id Table.resolve_replay Table.new_row Table.to_domain
    String-discrete
first_append = ground arith

append-append_example :
    Table.append (request_schema digests) (err causality) an_approval "key-1" a_store.requests
    ≡ ok (an_approval, replayed, a_store.requests)
append-append_example =
    append-append (request_schema digests) (ok tt) (err causality) an_approval an_approval created
      "key-1" [] a_store.requests first_append

-- The identity of an evaluation, and its row.
abbrev own_identity : AuthorityEvaluationRequest → AuthorityEvaluationDecision → String
own_identity r d = r.evaluation_id

abbrev a_verdict : AuthorityEvaluationDecision
a_verdict = record {
  evaluation_id = "evaluation-1";
  evaluation_time = 50;
  is_authorized = true;
  reason_code = authorized;
  grant_id = some "grant-1";
  detail = "Authority chain is exact, approved, within validity, and unrevoked.";
}

abbrev recorded : List EvaluationRow
recorded = evaluation_row own_identity "evaluation-1" (a_question []) a_verdict "key-9" ∷ []

append_runs :
    append_evaluation_record own_identity digests (a_question []) a_verdict "key-9" a_store []
    ≡ ok (a_verdict, recorded)
unfolding append_evaluation_record insert_evaluation authoritative_request rebuilt_request
    revocations_sorted_unique evaluation_to_domain check_payload resolve_chain bounded_revocations
    limited chain_is_complete projections_differ relevant_revocation_id evaluate_authority
    chain_is_malformed links_are_malformed owners_differ is_operator is_foreign echo_differs
    grant_matches_decision decide_with is_revoked String-discrete does_not_echo does_not_match
    Table.resolve_replay Table.by_key Table.by_id Table.to_domain Table.all_to_domain Table.new_row
    Table.is_link OperatorReference-discrete Actor-discrete ApprovalRequest-discrete
    ApprovalDecision-discrete CapabilityGrant-discrete RevocationRecord-discrete
    Revocations-discrete EvaluationDecision-discrete evaluation_details window_contains
    SubjectType-discrete ApprovalDecisionOutcome-discrete AuthorityReasonCode-discrete
    SubjectReference-discrete ScopeConstraint-discrete AuthorityScope-discrete
    ValidityWindow-discrete ℕ_discrete Bool-discrete
append_runs = refl

append_evaluation_record-persisted_example :
    ((recorded ≡ []) × Replayed own_identity (a_question []) a_verdict "key-9" [] a_verdict)
    ⊎ Recorded own_identity digests (a_question []) a_verdict "key-9" a_store [] a_verdict recorded
append_evaluation_record-persisted_example =
    append_evaluation_record-persisted own_identity digests (a_question []) a_verdict a_verdict
      "key-9" a_store [] recorded append_runs
