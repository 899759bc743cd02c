-- ===== src/Admission/Safety.antt =====
-- What the admission policy admits, in which order it refuses, and that its decisions are valid.
use orbit_mind_living_q_core.Common.{
  ◌≡◌, ◌↔◌, ◌⊎◌, inl, inr, refl, String, true, false, Option, none, some, List, [], ◌∷◌, string_eq,
  contains, arith, Option-cases, String-discrete,
}
use orbit_mind_living_q_core.Admission.Contracts.{
  AdmissionOperationKind, admitted, denied, AdmissionReasonCode, read_repository,
  run_local_validation, propose_file_change, create_isolated_worktree, side_effect_eq, risk_eq,
  admission_reason_eq, admission_outcome_eq, kind_value, all_kinds, outcome_for_reason,
  OperationProfile, operation_profiles, OperationProposal, AdmissionEvaluationContext,
  AuthorityFinding,
}
use orbit_mind_living_q_core.Admission.Policy.{
  find_kind, resolve_operation_kind, operation_profile, decision, failure_reason, evaluate_approval,
  evaluate_profile, evaluate_admission,
}

-- Every kind is resolved from its own value.
pub resolve_operation_kind-kind_value :
    (k : AdmissionOperationKind) → resolve_operation_kind (kind_value k) ≡ some k
unfolding resolve_operation_kind find_kind kind_value String-discrete
resolve_operation_kind-kind_value read_repository = refl
resolve_operation_kind-kind_value k = refl

find_kind_sound :
    (t : String) (ks : List AdmissionOperationKind) {k : AdmissionOperationKind}
    → find_kind t ks ≡ some k
    → kind_value k ≡ t
unfolding find_kind
find_kind_sound t [] h = cc
find_kind_sound t (j ∷ ks) {k} h = ground (arith, find_kind_sound t ks {k = k})

resolve_sound :
    (t : String) {k : AdmissionOperationKind} → resolve_operation_kind t ≡ some k → kind_value k ≡ t
unfolding resolve_operation_kind
resolve_sound t h = find_kind_sound t all_kinds h

-- A token resolves to a kind exactly when it is that kind's value.
pub resolve_operation_kind_iff :
    (t : String) (k : AdmissionOperationKind)
    → (resolve_operation_kind t ≡ some k) ↔ (kind_value k ≡ t)
resolve_operation_kind_iff t k =
    (resolve_sound t, λ e. rw (← e) (resolve_operation_kind-kind_value k))

-- The proposal echoes the profile of its kind.
pub record Echoes (p : OperationProposal) (profile : OperationProfile) : Type 0 where
  pub capability : p.requested_capability ≡ profile.required_capability
  pub side_effect : p.side_effect_class ≡ profile.side_effect_class
  pub risk : p.risk_class ≡ profile.risk_class

-- What the policy asks of a proposal of a known kind.
pub record IsAdmissible (p : OperationProposal) (f : AuthorityFinding) (profile : OperationProfile)
    : Type 0 where
  pub echoes : Echoes p profile
  pub not_forbidden : profile.forbidden_in_v0 ≡ false
  pub no_approval : profile.approval_required ≡ false
  pub authority :
      (profile.authority_required ≡ false)
      ⊎ ((f.referenced ≡ true) × (f.resolved ≡ true) × (f.is_authorized ≡ true))

-- No reported failure is itself an admission.
failure_reason-denied :
    (o : Option AdmissionReasonCode) → outcome_for_reason (failure_reason o) ≡ denied
unfolding failure_reason outcome_for_reason
failure_reason-denied none = refl
failure_reason-denied (some reason) = ground arith

evaluate_profile-admitted_iff :
    (p : OperationProposal) (c : AdmissionEvaluationContext) (f : AuthorityFinding)
    (profile : OperationProfile)
    → ((evaluate_profile p c f profile).outcome ≡ admitted) ↔ IsAdmissible p f profile
unfolding evaluate_profile evaluate_approval decision outcome_for_reason
evaluate_profile-admitted_iff p c f profile =
    let refused = failure_reason-denied f.reason in (λ h. ground arith, λ h. ground arith)

admitted_only :
    (p : OperationProposal) (c : AdmissionEvaluationContext) (f : AuthorityFinding)
    → (evaluate_admission p c f).outcome ≡ admitted
    → (p.owner_id ≡ c.authoritative_owner_id)
      × (p.actor_id ≡ c.authoritative_actor_id)
      × ((k : AdmissionOperationKind) × (kind_value k ≡ p.operation_kind)
          × IsAdmissible p f (operation_profile k))
unfolding evaluate_admission decision outcome_for_reason
admitted_only p c f h = elim (Option-cases (resolve_operation_kind p.operation_kind)) [
  | inl e ↦ absurd (ground arith)
  | inr (k, e) ↦ (
    ground arith,
    ground arith,
    (
      k,
      resolve_sound p.operation_kind e,
      (evaluate_profile-admitted_iff p c f (operation_profile k)).0 (ground arith),
    ),
  )
]

admitted_if :
    (p : OperationProposal) (c : AdmissionEvaluationContext) (f : AuthorityFinding)
    → p.owner_id ≡ c.authoritative_owner_id
    → p.actor_id ≡ c.authoritative_actor_id
    → (k : AdmissionOperationKind) → kind_value k ≡ p.operation_kind
    → IsAdmissible p f (operation_profile k)
    → (evaluate_admission p c f).outcome ≡ admitted
unfolding evaluate_admission
admitted_if p c f owner actor k token ok =
    let found = (resolve_operation_kind_iff p.operation_kind k).1 token in
    let kept = (evaluate_profile-admitted_iff p c f (operation_profile k)).1 ok in ground arith

-- The policy admits a proposal exactly when its owner and actor are those of the trusted context,
-- its token is the value of a kind, and the proposal and the finding meet the profile of that
-- kind: echoed exactly, not forbidden, needing no human approval, and with a referenced, resolved
-- and authorized grant where the profile requires authority.
pub evaluate_admission-admitted_iff :
    (p : OperationProposal) (c : AdmissionEvaluationContext) (f : AuthorityFinding)
    → ((evaluate_admission p c f).outcome ≡ admitted) ↔ (
        (p.owner_id ≡ c.authoritative_owner_id)
        × (p.actor_id ≡ c.authoritative_actor_id)
        × ((k : AdmissionOperationKind) × (kind_value k ≡ p.operation_kind)
            × IsAdmissible p f (operation_profile k)))
evaluate_admission-admitted_iff p c f =
    (admitted_only p c f, λ h. admitted_if p c f h.0 h.1 h.2.0 h.2.1 h.2.2)

admissible_kinds :
    (p : OperationProposal) (f : AuthorityFinding) (k : AdmissionOperationKind)
    → IsAdmissible p f (operation_profile k)
    → contains (kind_value k) (
        "read_repository" ∷ "run_local_validation" ∷ "propose_file_change"
        ∷ "create_isolated_worktree" ∷ [])
      ≡ true
unfolding operation_profile operation_profiles kind_value String-discrete
admissible_kinds p f read_repository ok = refl
admissible_kinds p f run_local_validation ok = refl
admissible_kinds p f propose_file_change ok = refl
admissible_kinds p f create_isolated_worktree ok = refl
admissible_kinds p f k ok = absurd (ground (arith, ok.not_forbidden, ok.no_approval))

-- Whatever the authority finding says, an admitted proposal is of one of four kinds: a repository
-- read, a local validation, a proposed file change or an isolated worktree.
pub evaluate_admission-kinds :
    (p : OperationProposal) (c : AdmissionEvaluationContext) (f : AuthorityFinding)
    → (evaluate_admission p c f).outcome ≡ admitted
    → contains p.operation_kind (
        "read_repository" ∷ "run_local_validation" ∷ "propose_file_change"
        ∷ "create_isolated_worktree" ∷ [])
      ≡ true
evaluate_admission-kinds p c f h =
    let (_, _, (k, token, ok)) = (evaluate_admission-admitted_iff p c f).0 h in
    rw (← token) (admissible_kinds p f k ok)
