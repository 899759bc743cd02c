-- ===== src/Examples/Gateway.antt =====
-- The gateway theorems at the examples.
use orbit_mind_living_q_core.Common.{
  ◌≡◌, ◌↔◌, true, false, some, List, [], ◌∷◌, ok, arith, String-discrete,
}
use orbit_mind_living_q_core.Persistence.Table
use orbit_mind_living_q_core.Persistence.Table.{Row, created}
use orbit_mind_living_q_core.Admission.Contracts.{
  operation_profiles, kind_value, outcome_for_reason,
}
use orbit_mind_living_q_core.Admission.Policy.{
  find_kind, resolve_operation_kind, operation_profile, decision, evaluate_approval,
  evaluate_profile, evaluate_admission,
}
use orbit_mind_living_q_core.Admission.Bridge.{unauthorized}
use orbit_mind_living_q_core.Admission.Lifecycle.{
  AdmissionRecord, admission_schema, admission_record,
}
use orbit_mind_living_q_core.Gateway.Contracts
use orbit_mind_living_q_core.Gateway.Contracts.{
  eligible, ToolDescriptor, find_descriptor, descriptors, resolve_descriptor, finding_consistent,
  decision_consistent,
}
use orbit_mind_living_q_core.Gateway.Policy.{
  kind_of_class, is_kind_known, descriptor_reason, gateway_reason, evaluate_gateway_proposal,
}
use orbit_mind_living_q_core.Gateway.Lifecycle.{
  VerifiedAdmissionRecord, get_verified_admission_record, finding_of, GatewayDecisionRecord,
  decision_schema, decision_record, resolve_historical_replay, evaluate_new,
  evaluate_tool_invocation,
}
use orbit_mind_living_q_core.Gateway.Safety.{
  IsEligible, Covered, evaluate_gateway_proposal-eligible_iff, evaluate_tool_invocation-eligible,
}
use orbit_mind_living_q_core.Examples.Data.{
  a_read, a_context, a_tool_call, a_gateway_context, functions, gateway_functions,
}

-- The admission of a repository read, stored.
abbrev the_admission : AdmissionRecord
the_admission =
    admission_record functions a_read a_context
      (evaluate_admission a_read a_context (unauthorized false false))

abbrev the_admissions : List (Row AdmissionRecord)
the_admissions = Table.new_row (admission_schema functions) the_admission "admission-1" ∷ []

abbrev verified : VerifiedAdmissionRecord
verified = record { admission = the_admission; record_identity = "admission-1" }

read_admission :
    get_verified_admission_record functions "owner-1" "admission-1" the_admissions
    ≡ ok (some verified)
unfolding get_verified_admission_record Table.by_id Table.new_row Table.to_domain String-discrete
read_admission = ground arith

abbrev the_decision : GatewayDecisionRecord
the_decision =
    decision_record functions gateway_functions a_tool_call a_gateway_context (some verified)

abbrev the_decisions : List (Row GatewayDecisionRecord)
the_decisions =
    Table.new_row (decision_schema functions gateway_functions) the_decision "call-1" ∷ []

made :
    evaluate_tool_invocation functions gateway_functions false the_admissions a_tool_call
      a_gateway_context []
    ≡ ok (the_decision, created, the_decisions)
unfolding evaluate_tool_invocation resolve_historical_replay evaluate_new Table.append Table.by_key
    Table.by_id Table.resolve_replay Table.new_row Table.to_domain
made = ground (arith, read_admission)

is_eligible : the_decision.outcome ≡ eligible
unfolding evaluate_gateway_proposal gateway_reason descriptor_reason resolve_descriptor
    find_descriptor descriptors kind_of_class is_kind_known finding_of Contracts.outcome_for_reason
    evaluate_admission evaluate_profile evaluate_approval decision resolve_operation_kind find_kind
    kind_value operation_profile operation_profiles outcome_for_reason String-discrete
is_eligible = ground arith

evaluate_gateway_proposal-eligible_iff_example :
    ((evaluate_gateway_proposal a_tool_call a_gateway_context
        (finding_of (some verified))
        (resolve_descriptor "repository_file_reader" "1.0.0")).outcome
      ≡ eligible)
    ↔ ((a_tool_call.owner_id ≡ a_gateway_context.authoritative_owner_id)
        × (a_tool_call.actor_id ≡ a_gateway_context.authoritative_actor_id)
        × ((resolve_descriptor "repository_file_reader" "1.0.0").tool_registered ≡ true)
        × ((d : ToolDescriptor) × ((resolve_descriptor "repository_file_reader"
                "1.0.0").found_descriptor
              ≡ some d)
            × IsEligible a_tool_call a_gateway_context (finding_of (some verified)) d))
evaluate_gateway_proposal-eligible_iff_example =
    evaluate_gateway_proposal-eligible_iff a_tool_call a_gateway_context
      (finding_of (some verified)) (resolve_descriptor "repository_file_reader" "1.0.0")

evaluate_tool_invocation-eligible_example :
    (a_tool_call.owner_id ≡ a_gateway_context.authoritative_owner_id)
    × (a_tool_call.actor_id ≡ a_gateway_context.authoritative_actor_id)
    × (a_tool_call.tool_id ≡ "repository_file_reader")
    × (a_tool_call.tool_version ≡ "1.0.0")
    × Covered functions gateway_functions the_admissions a_tool_call a_gateway_context
evaluate_tool_invocation-eligible_example =
    evaluate_tool_invocation-eligible functions gateway_functions the_admissions a_tool_call
      a_gateway_context [] made is_eligible
