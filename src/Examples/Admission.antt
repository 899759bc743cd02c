-- ===== src/Examples/Admission.antt =====
-- The admission theorems at the examples.
use orbit_mind_living_q_core.Common.{
  ◌++◌, ◌≡◌, ◌↔◌, ◌⊎◌, refl, false, some, List, [], ◌∷◌, ok, err, arith, String-discrete, string_eq,
  ◌==◌, if◌then◌else◌,
}
use orbit_mind_living_q_core.Authority.Contracts.{
  revocations_sorted_unique, SubjectType-discrete, SubjectReference-discrete,
  AuthorityScope-discrete, ValidityWindow-discrete, ApprovalDecisionOutcome-discrete,
  AuthorityReasonCode-discrete,
}
use native.Mathlib.Decide.{ℕ_discrete}
use orbit_mind_living_q_core.Authority.Evaluation.{evaluate_authority}
use orbit_mind_living_q_core.Authority.Evaluation.{
  links_are_malformed, owners_differ, is_operator, is_foreign, echo_differs, chain_is_malformed,
  grant_matches_decision, decide_with, is_revoked,
}
use orbit_mind_living_q_core.Authority.Repository.{
  empty_store, get_capability_grant, get_approval_request, get_approval_decision,
  list_revocations_for_grant,
}
use orbit_mind_living_q_core.Persistence.Table
use orbit_mind_living_q_core.Persistence.Table.{Row, created, replayed, idempotency_conflict}
use orbit_mind_living_q_core.Admission.Contracts.{
  OperationProposal, AdmissionOperationKind, kind_value, propose_file_change, admitted,
  outcome_for_reason, operation_profiles,
}
use orbit_mind_living_q_core.Admission.Policy.{
  admission_precedence, find_kind, resolve_operation_kind, operation_profile, decision,
  evaluate_approval, evaluate_profile, evaluate_admission,
}
use orbit_mind_living_q_core.Admission.Safety.{
  IsAdmissible, resolve_operation_kind_iff, evaluate_admission-admitted_iff, Echoes,
}
use orbit_mind_living_q_core.Admission.Precedence.{
  fails, first_failing, resolved_profile, evaluate_admission-first_failing,
}
use orbit_mind_living_q_core.Admission.Bridge.{
  repository, bridge_request, finding_of, chain_of_grant, finding_of_grant, authority_finding,
  finding_for, subject_type_of,
}
use orbit_mind_living_q_core.Admission.Lifecycle.{
  AdmissionRecord, admission_schema, admission_record, resolve_historical_replay, admit_new,
  admit_operation,
}
use orbit_mind_living_q_core.Admission.Evidence.{Evidence, authority_finding-Evidence}
use orbit_mind_living_q_core.Admission.Replay.{
  called, unchanged, admit_operation-replay, admit_operation-admitted,
}
use orbit_mind_living_q_core.Examples.Data.{
  an_approval, a_decision, a_grant, a_change, a_context, a_finding, a_store, digests, functions,
}

is_admitted : (evaluate_admission a_change a_context a_finding).outcome ≡ admitted
unfolding evaluate_admission evaluate_profile evaluate_approval decision resolve_operation_kind
    find_kind kind_value operation_profile operation_profiles outcome_for_reason String-discrete
is_admitted = ground arith

evaluate_admission-admitted_iff_example :
    ((evaluate_admission a_change a_context a_finding).outcome ≡ admitted) ↔ (
      (a_change.owner_id ≡ a_context.authoritative_owner_id)
      × (a_change.actor_id ≡ a_context.authoritative_actor_id)
      × ((k : AdmissionOperationKind) × (kind_value k ≡ a_change.operation_kind)
          × IsAdmissible a_change a_finding (operation_profile k)))
evaluate_admission-admitted_iff_example =
    evaluate_admission-admitted_iff a_change a_context a_finding

evaluate_admission-first_failing_example :
    first_failing
      (fails a_change a_context a_finding (resolved_profile a_change))
      admission_precedence
    ≡ some (evaluate_admission a_change a_context a_finding).primary_reason_code
evaluate_admission-first_failing_example =
    evaluate_admission-first_failing a_change a_context a_finding

the_grant : get_capability_grant digests "owner-1" "grant-1" a_store ≡ ok (some a_grant)
unfolding get_capability_grant Table.get_by_id Table.by_id Table.new_row Table.to_domain
    String-discrete
the_grant = ground arith

the_chain : chain_of_grant digests a_store "owner-1" a_grant ≡ ok (some (an_approval, a_decision))
unfolding chain_of_grant get_approval_request get_approval_decision Table.get_by_id Table.by_id
    Table.new_row Table.to_domain String-discrete
the_chain = ground arith

no_revocations : list_revocations_for_grant digests "owner-1" "grant-1" a_store ≡ ok []
unfolding list_revocations_for_grant Table.list_linked Table.all_to_domain
no_revocations = ground arith

sorted_none : revocations_sorted_unique [] ≡ some []
unfolding revocations_sorted_unique
sorted_none = ground arith

evaluated :
    finding_of "grant-1" (
      bridge_request a_context a_change
        (operation_profile propose_file_change)
        an_approval
        a_decision
        a_grant
        [])
    ≡ a_finding
unfolding finding_of operation_profile operation_profiles evaluate_authority chain_is_malformed
    links_are_malformed owners_differ is_operator is_foreign echo_differs grant_matches_decision
    decide_with is_revoked String-discrete ℕ_discrete SubjectType-discrete SubjectReference-discrete
    AuthorityScope-discrete ValidityWindow-discrete ApprovalDecisionOutcome-discrete
    AuthorityReasonCode-discrete subject_type_of
evaluated = refl

kind_value_of_change : kind_value propose_file_change ≡ "propose_file_change"
unfolding kind_value
kind_value_of_change = refl

resolved : resolve_operation_kind "propose_file_change" ≡ some propose_file_change
resolved =
    (resolve_operation_kind_iff "propose_file_change" propose_file_change).1 kind_value_of_change

found_for_profile :
    authority_finding digests a_store a_context a_change (operation_profile propose_file_change)
    ≡ ok a_finding
unfolding authority_finding finding_of_grant operation_profile operation_profiles
found_for_profile = ground (arith, the_grant, the_chain, no_revocations, sorted_none, evaluated)

found : finding_for digests a_store a_context a_change ≡ ok a_finding
unfolding finding_for
found = ground (arith, resolved, found_for_profile)

authority_finding-Evidence_example :
    Evidence digests a_store a_context a_change (operation_profile propose_file_change)
authority_finding-Evidence_example =
    authority_finding-Evidence digests a_store a_context a_change
      (operation_profile propose_file_change) a_finding found_for_profile refl

-- The record of the change.
abbrev the_record : AdmissionRecord
the_record =
    admission_record functions a_change a_context (evaluate_admission a_change a_context a_finding)

abbrev the_rows : List (Row AdmissionRecord)
the_rows = Table.new_row (admission_schema functions) the_record "admission-1" ∷ []

made :
    admit_operation functions digests false a_store a_change a_context []
    ≡ ok (the_record, created, the_rows)
unfolding admit_operation resolve_historical_replay admit_new Table.append Table.by_key Table.by_id
    Table.resolve_replay Table.new_row Table.to_domain
made = ground (arith, found)

-- An admission under another key comes in between.
abbrev other_change : OperationProposal
other_change = record a_change { idempotency_key = "admission-2" }

abbrev other_record : AdmissionRecord
other_record =
    admission_record functions other_change a_context
      (evaluate_admission other_change a_context a_finding)

abbrev both_rows : List (Row AdmissionRecord)
both_rows = the_rows ++ Table.new_row (admission_schema functions) other_record "admission-2" ∷ []

other_found : finding_for digests a_store a_context other_change ≡ ok a_finding
unfolding finding_for authority_finding finding_of_grant operation_profile operation_profiles
other_found = ground (arith, resolved, the_grant, the_chain, no_revocations, sorted_none, evaluated)

other_made :
    admit_operation functions digests false a_store other_change a_context the_rows
    ≡ ok (other_record, created, both_rows)
unfolding admit_operation resolve_historical_replay admit_new Table.append Table.by_key Table.by_id
    Table.resolve_replay Table.new_row Table.to_domain String-discrete
other_made = ground (arith, other_found)

-- Later, with an empty authority store, for another purpose: the fingerprints differ.
admit_operation-replay_example :
    admit_operation functions digests false empty_store
      (record a_change { purpose = "other" })
      (record a_context { evaluated_at = 500 })
      both_rows
    ≡ (if a_change.purpose == "other"
        then ok (the_record, replayed, both_rows)
        else err (repository idempotency_conflict))
admit_operation-replay_example =
    admit_operation-replay functions digests a_store empty_store a_change
      (record a_change { purpose = "other" }) a_context (record a_context { evaluated_at = 500 }) []
      made refl refl
      (called unchanged false a_store other_change a_context other_record created both_rows
        other_made)

admit_operation-admitted_example :
    (a_change.owner_id ≡ a_context.authoritative_owner_id)
    × (a_change.actor_id ≡ a_context.authoritative_actor_id)
    × ((k : AdmissionOperationKind) × (kind_value k ≡ a_change.operation_kind)
        × Echoes a_change (operation_profile k)
        × ((operation_profile k).forbidden_in_v0 ≡ false)
        × ((operation_profile k).approval_required ≡ false)
        × (((operation_profile k).authority_required ≡ false)
            ⊎ Evidence digests a_store a_context a_change (operation_profile k)))
admit_operation-admitted_example =
    admit_operation-admitted functions digests a_store a_change a_context [] made is_admitted
