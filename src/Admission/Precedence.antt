-- ===== src/Admission/Precedence.antt =====
-- The order in which the admission policy refuses.
use orbit_mind_living_q_core.Common.{
  ◌≡◌, inl, inr, Bool, true, false, not, ◌&&◌, ◌||◌, Option, none, some, List, [], ◌∷◌,
  if◌then◌else◌, string_eq, ◌==◌, ◌!=◌, arith, Option-cases,
}
use orbit_mind_living_q_core.Admission.Contracts.{
  AdmissionReasonCode, owner_mismatch, actor_mismatch, unsupported_operation_kind,
  forbidden_operation_kind, operation_profile_mismatch, authority_required, authority_not_found,
  explicit_human_approval_required, admitted_by_policy, side_effect_eq, risk_eq,
  admission_reason_eq, OperationProfile, OperationProposal, AdmissionEvaluationContext,
  AuthorityFinding,
}
use orbit_mind_living_q_core.Admission.Policy.{
  admission_precedence, resolve_operation_kind, operation_profile, decision, failure_reason,
  evaluate_approval, evaluate_profile, evaluate_admission,
}

-- The check that each reason code stands for, of a proposal whose kind has the profile, if any.
unfoldable pub fails :
    OperationProposal
    → AdmissionEvaluationContext
    → AuthorityFinding
    → Option OperationProfile
    → AdmissionReasonCode
    → Bool
fails p c f o owner_mismatch = p.owner_id != c.authoritative_owner_id
fails p c f o actor_mismatch = p.actor_id != c.authoritative_actor_id
fails p c f none unsupported_operation_kind = true
fails p c f none _ = false
fails p c f (some profile) unsupported_operation_kind = false
fails p c f (some profile) operation_profile_mismatch =
    (p.requested_capability != profile.required_capability)
    || (p.side_effect_class != profile.side_effect_class)
    || (p.risk_class != profile.risk_class)
fails p c f (some profile) forbidden_operation_kind = profile.forbidden_in_v0
fails p c f (some profile) authority_required = profile.authority_required && not f.referenced
fails p c f (some profile) authority_not_found =
    profile.authority_required
    && (not f.resolved || (not f.is_authorized && (failure_reason f.reason == authority_not_found)))
fails p c f (some profile) explicit_human_approval_required = profile.approval_required
fails p c f (some profile) admitted_by_policy = true
fails p c f (some profile) authority_failure =
    profile.authority_required
    && not f.is_authorized
    && (failure_reason f.reason == authority_failure)

unfoldable pub first_failing :
    (AdmissionReasonCode → Bool) → List AdmissionReasonCode → Option AdmissionReasonCode
first_failing p [] = none
first_failing p (c ∷ cs) = if p c then some c else first_failing p cs

-- The profile of the proposal's kind, if its token is known.
unfoldable pub resolved_profile : OperationProposal → Option OperationProfile
resolved_profile p = elim (resolve_operation_kind p.operation_kind) [
  | none ↦ none
  | some k ↦ some (operation_profile k)
]

-- The policy reports the first failing check of `ADMISSION_PRECEDENCE`, in that order: ownership
-- before the profile, the profile before the prohibition, both before any authority, and human
-- approval after it.
pub evaluate_admission-first_failing :
    (p : OperationProposal) (c : AdmissionEvaluationContext) (f : AuthorityFinding)
    → first_failing (fails p c f (resolved_profile p)) admission_precedence
      ≡ some (evaluate_admission p c f).primary_reason_code
unfolding evaluate_admission evaluate_profile evaluate_approval decision first_failing fails
    admission_precedence failure_reason resolved_profile
evaluate_admission-first_failing p c f =
    elim (Option-cases (resolve_operation_kind p.operation_kind)) [
      | inl e ↦ ground arith
      | inr (k, e) ↦ ground arith
    ]
