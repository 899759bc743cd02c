-- ===== src/Gateway/Safety.antt =====
-- Which tool proposals are eligible, and what an eligible decision on record rests on.
use orbit_mind_living_q_core.Common.{
  ◌≡◌, ◌↔◌, inl, inr, refl, String, true, false, Option, none, some, List, [], ◌∷◌, string_eq, ok,
  >>=-eq-ok, arith, Option-cases, sym, ap, ◌∙◌, eq_self,
}
use orbit_mind_living_q_core.Persistence.Table.{created, replayed, Row}
use orbit_mind_living_q_core.Persistence.TableLaws.{append-created}
use orbit_mind_living_q_core.Admission.Contracts.{admitted, admission_outcome_eq}
use orbit_mind_living_q_core.Admission.Evidence.{from_repository-eq-ok}
use orbit_mind_living_q_core.Admission.Bridge.{from_repository}
use orbit_mind_living_q_core.Admission.Lifecycle.{AdmissionRecord, Functions}
use orbit_mind_living_q_core.Gateway.Contracts.{
  ToolClass, repository_read, local_validation, available, eligible, GatewayReasonCode,
  ToolDescriptor, ToolInvocationProposal, GatewayEvaluationContext, AdmissionFinding,
  DescriptorResolution, resolve_descriptor, descriptors, find_descriptor, outcome_for_reason,
  details, decision_consistent, finding_consistent, availability_eq, gateway_outcome_eq,
  gateway_reason_eq,
}
use orbit_mind_living_q_core.Gateway.Policy.{
  kind_of_class, is_kind_known, descriptor_reason, gateway_reason, evaluate_gateway_proposal,
}
use orbit_mind_living_q_core.Gateway.Lifecycle.{
  VerifiedAdmissionRecord, get_verified_admission_record, finding_of, GatewayDecisionRecord,
  GatewayFunctions, fingerprint_source, decision_schema, decision_record, resolve_historical_replay,
  evaluate_new, evaluate_tool_invocation,
}

-- What the policy asks of a proposal whose tool has the descriptor.
pub record IsEligible (p : ToolInvocationProposal) (c : GatewayEvaluationContext)
    (f : AdmissionFinding) (d : ToolDescriptor) : Type 0 where
  pub schema : p.input_schema_reference ≡ d.input_schema_identifier
  pub is_available : d.availability ≡ available
  pub found : f.found ≡ true
  pub is_admitted : f.is_admitted ≡ true
  pub actor : f.actor_id ≡ some c.authoritative_actor_id
  pub kind : f.operation_kind ≡ some (kind_of_class d.tool_class)
  pub no_approval : d.human_approval_requirement ≡ false

all_kinds_known : (t : ToolClass) → is_kind_known t ≡ true
unfolding is_kind_known
all_kinds_known repository_read = refl
all_kinds_known local_validation = refl

descriptor_reason-eligible_iff :
    (p : ToolInvocationProposal) (c : GatewayEvaluationContext) (f : AdmissionFinding)
    (d : ToolDescriptor)
    → (outcome_for_reason (descriptor_reason p c f d) ≡ eligible) ↔ IsEligible p c f d
unfolding descriptor_reason outcome_for_reason
descriptor_reason-eligible_iff p c f d =
    let known = all_kinds_known d.tool_class in (λ h. ground arith, λ h. ground arith)

-- A proposal is eligible exactly when its owner and actor are those of the trusted context, its
-- tool is registered in its version, and the descriptor and the finding agree with it: the input
-- schema, the availability, a found and admitted admission of the trusted actor for the tool
-- class, and no human approval required.
pub evaluate_gateway_proposal-eligible_iff :
    (p : ToolInvocationProposal) (c : GatewayEvaluationContext) (f : AdmissionFinding)
    (r : DescriptorResolution)
    → ((evaluate_gateway_proposal p c f r).outcome ≡ eligible) ↔ (
        (p.owner_id ≡ c.authoritative_owner_id)
        × (p.actor_id ≡ c.authoritative_actor_id)
        × (r.tool_registered ≡ true)
        × ((d : ToolDescriptor) × (r.found_descriptor ≡ some d) × IsEligible p c f d))
unfolding evaluate_gateway_proposal gateway_reason outcome_for_reason
evaluate_gateway_proposal-eligible_iff p c f r = (only, λ h. if_all h.0 h.1 h.2 h.3.0 h.3.1 h.3.2)
  where
    only :
        outcome_for_reason (gateway_reason p c f r) ≡ eligible
        → (p.owner_id ≡ c.authoritative_owner_id)
          × (p.actor_id ≡ c.authoritative_actor_id)
          × (r.tool_registered ≡ true)
          × ((d : ToolDescriptor) × (r.found_descriptor ≡ some d) × IsEligible p c f d)
    only h = elim (Option-cases r.found_descriptor) [
      | inl e ↦ absurd (ground arith)
      | inr (d, e) ↦ (
        ground arith,
        ground arith,
        ground arith,
        (d, e, (descriptor_reason-eligible_iff p c f d).0 (ground arith)),
      )
    ]

    if_all :
        p.owner_id ≡ c.authoritative_owner_id
        → p.actor_id ≡ c.authoritative_actor_id
        → r.tool_registered ≡ true
        → (d : ToolDescriptor) → r.found_descriptor ≡ some d
        → IsEligible p c f d
        → outcome_for_reason (gateway_reason p c f r) ≡ eligible
    if_all owner actor registered d e h =
        let kept = (descriptor_reason-eligible_iff p c f d).1 h in ground arith

decision_with_consistent :
    (reason : GatewayReasonCode) (c : GatewayEvaluationContext)
    → decision_consistent (record {
      outcome = outcome_for_reason reason;
      primary_reason_code = reason;
      reason_codes = reason ∷ [];
      evaluated_at = c.evaluated_at;
      detail = details reason;
    })
      ≡ true
unfolding decision_consistent
decision_with_consistent reason c =
    ground (arith, eq_self reason, eq_self (outcome_for_reason reason), eq_self (details reason))

-- Every decision of the policy, and every finding that the bridge makes, satisfies the validator
-- of its own model.
pub evaluate_gateway_proposal-consistent :
    (p : ToolInvocationProposal) (c : GatewayEvaluationContext) (v : Option VerifiedAdmissionRecord)
    (r : DescriptorResolution)
    → (decision_consistent (evaluate_gateway_proposal p c (finding_of v) r) ≡ true)
      × (finding_consistent (finding_of v) ≡ true)
unfolding evaluate_gateway_proposal finding_of finding_consistent
evaluate_gateway_proposal-consistent p c none r =
    (decision_with_consistent (gateway_reason p c (finding_of none) r) c, refl)
evaluate_gateway_proposal-consistent p c (some v) r =
    (decision_with_consistent (gateway_reason p c (finding_of (some v)) r) c, ground arith)

eligible_tool :
    (tool version : String) (d : ToolDescriptor)
    → find_descriptor tool version descriptors ≡ some d
    → d.availability ≡ available
    → d.human_approval_requirement ≡ false
    → (tool ≡ "repository_file_reader")
      × (version ≡ "1.0.0")
      × (kind_of_class d.tool_class ≡ "read_repository")
unfolding find_descriptor descriptors kind_of_class
eligible_tool tool version d found is_available no_approval = ground arith

module _ (functions : Functions) (gateway_functions : GatewayFunctions) where
  open gateway_functions use {fingerprint_of}

  -- A verified admission that covers the invocation.
  pub record Covered (admissions : List (Row AdmissionRecord)) (p : ToolInvocationProposal)
      (c : GatewayEvaluationContext) : Type 0 where
    pub verified : VerifiedAdmissionRecord
    pub stored :
        get_verified_admission_record functions c.authoritative_owner_id p.admission_id admissions
        ≡ ok (some verified)
    pub outcome : verified.admission.outcome ≡ admitted
    pub actor : verified.admission.actor_id ≡ c.authoritative_actor_id
    pub kind : verified.admission.operation_kind ≡ "read_repository"

  created_record :
      (admissions : List (Row AdmissionRecord)) (p : ToolInvocationProposal)
      (c : GatewayEvaluationContext) (rows : List (Row GatewayDecisionRecord))
      {r : GatewayDecisionRecord} {rows' : List (Row GatewayDecisionRecord)}
      → evaluate_tool_invocation functions gateway_functions false admissions p c rows
        ≡ ok (r, created, rows')
      → (v : Option VerifiedAdmissionRecord) × (get_verified_admission_record functions
            c.authoritative_owner_id p.admission_id admissions
          ≡ ok v)
        × (r ≡ decision_record functions gateway_functions p c v)
  unfolding evaluate_tool_invocation evaluate_new
  created_record admissions p c rows {r} {rows'} h =
      let (historical, _, h') =
        >>=-eq-ok
          (from_repository (
            resolve_historical_replay functions gateway_functions c.authoritative_owner_id
              p.idempotency_key (fingerprint_of (fingerprint_source p c)) rows))
          _ h in
      missed historical h'
    where
      missed :
          (historical : Option GatewayDecisionRecord)
          → elim historical [
            | some stored ↦ ok (stored, replayed, rows)
            | none ↦ evaluate_new functions gateway_functions admissions p c rows
          ]
            ≡ ok (r, created, rows')
          → (v : Option VerifiedAdmissionRecord) × (get_verified_admission_record functions
                c.authoritative_owner_id p.admission_id admissions
              ≡ ok v)
            × (r ≡ decision_record functions gateway_functions p c v)
      missed (some stored) e = absurd (ground arith)
      missed none e =
          let (v, read, e') =
            >>=-eq-ok
              (from_repository (
                get_verified_admission_record functions c.authoritative_owner_id p.admission_id
                  admissions))
              _ e in
          (
            v,
            from_repository-eq-ok _ read,
            (append-created (decision_schema functions gateway_functions) (ok tt)
                (decision_record functions gateway_functions p c v) r p.idempotency_key rows rows'
                (from_repository-eq-ok _ e')).1,
          )

  -- A tool invocation that is recorded as eligible: the proposal's owner and actor are the trusted
  -- ones, the tool is the repository file reader in version 1.0.0, and the admission table holds,
  -- in the owner's scope and with a verified identity, the admission that the proposal names,
  -- which was admitted, for this actor, as a repository read.
  pub evaluate_tool_invocation-eligible :
      (admissions : List (Row AdmissionRecord)) (p : ToolInvocationProposal)
      (c : GatewayEvaluationContext) (rows : List (Row GatewayDecisionRecord))
      {r : GatewayDecisionRecord} {rows' : List (Row GatewayDecisionRecord)}
      → evaluate_tool_invocation functions gateway_functions false admissions p c rows
        ≡ ok (r, created, rows')
      → r.outcome ≡ eligible
      → (p.owner_id ≡ c.authoritative_owner_id)
        × (p.actor_id ≡ c.authoritative_actor_id)
        × (p.tool_id ≡ "repository_file_reader")
        × (p.tool_version ≡ "1.0.0")
        × Covered admissions p c
  unfolding resolve_descriptor finding_of
  evaluate_tool_invocation-eligible admissions p c rows {r} {rows'} h outcome =
      let (v, read, recorded) = created_record admissions p c rows h in
      let decided = sym (ap (λ a. a.outcome) recorded) ∙ outcome in
      let (owner, actor, _, (d, found, ok_)) =
        (evaluate_gateway_proposal-eligible_iff p c (finding_of v)
            (resolve_descriptor p.tool_id p.tool_version)).0
          decided in
      let (tool, version, kind) =
        eligible_tool p.tool_id p.tool_version d found ok_.is_available ok_.no_approval in
      (owner, actor, tool, version, covered v d read ok_ kind)
    where
      covered :
          (v : Option VerifiedAdmissionRecord) (d : ToolDescriptor)
          → get_verified_admission_record functions c.authoritative_owner_id p.admission_id
              admissions
            ≡ ok v
          → IsEligible p c (finding_of v) d
          → kind_of_class d.tool_class ≡ "read_repository"
          → Covered admissions p c
      covered none d read h' kind = absurd (ground arith)
      covered (some v) d read h' kind =
          let is_admitted = h'.is_admitted in
          let of_actor = h'.actor in
          let of_kind = h'.kind in
          record {
            verified = v;
            stored = read;
            outcome = ground arith;
            actor = ground arith;
            kind = ground arith;
          }
