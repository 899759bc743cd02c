-- ===== src/Authority/Contracts.antt =====
-- src/orbitmind/authority/contracts.py: the frozen models of an authority chain.
-- An instant is the number of microseconds since 0001-01-01 UTC: every datetime field is
-- normalized to UTC when the model is built, so instants are all that is compared.
use orbit_mind_living_q_core.Common.{
  ℕ, ◌*◌, String, Bool, true, false, not, ◌&&◌, Option, none, some, List, ltb, leb, length,
  is_unique, str_leb, sorted_by, if◌then◌else◌, HasEq, bool_eq, string_eq, String-discrete, ◌==◌,
  ◌!=◌, map,
}
use native.Mathlib.Decide.{ℕ_discrete}
use Prim.Native.Nat.{◌-◌}

abbrev pub Instant : Type 0
Instant = ℕ

-- MAX_GRANT_VALIDITY: 366 days.
abbrev pub max_grant_validity : ℕ
max_grant_validity = 366 * 86_400 * 1_000_000

pub data SubjectType : Type 0 where
  operator agent laboratory tool adapter : SubjectType

pub data ApprovalDecisionOutcome : Type 0 where
  approved rejected : ApprovalDecisionOutcome

pub data AuthorityReasonCode : Type 0 where
  authorized approval_not_approved approval_grant_mismatch subject_mismatch : AuthorityReasonCode
  capability_mismatch scope_mismatch purpose_mismatch not_yet_valid : AuthorityReasonCode
  expired revoked policy_version_mismatch delegation_prohibited : AuthorityReasonCode
  malformed_authority_chain : AuthorityReasonCode

unfoldable pub SubjectType-discrete : Discrete SubjectType
SubjectType-discrete = hlevel

unfoldable pub ApprovalDecisionOutcome-discrete : Discrete ApprovalDecisionOutcome
ApprovalDecisionOutcome-discrete = hlevel

unfoldable pub AuthorityReasonCode-discrete : Discrete AuthorityReasonCode
AuthorityReasonCode-discrete = hlevel

pub record SubjectReference : Type 0 where
  pub subject_type : SubjectType
  pub subject_id : String

pub record ScopeConstraint : Type 0 where
  pub name : String
  pub value : String

pub record AuthorityScope : Type 0 where
  pub resource_type : String
  pub resource_id : String
  pub constraints : List ScopeConstraint

pub record ValidityWindow : Type 0 where
  pub valid_from : Instant
  pub expires_at : Instant

unfoldable pub SubjectReference-discrete : Discrete SubjectReference
SubjectReference-discrete = hlevel (String-discrete, SubjectType-discrete)

unfoldable pub ScopeConstraint-discrete : Discrete ScopeConstraint
ScopeConstraint-discrete = hlevel String-discrete

unfoldable pub AuthorityScope-discrete : Discrete AuthorityScope
AuthorityScope-discrete = hlevel (String-discrete, ScopeConstraint-discrete)

unfoldable pub ValidityWindow-discrete : Discrete ValidityWindow
ValidityWindow-discrete = hlevel ℕ_discrete

instance abbrev pub subject_type_eq : HasEq SubjectType
subject_type_eq = record { discrete = SubjectType-discrete }

instance abbrev pub outcome_eq : HasEq ApprovalDecisionOutcome
outcome_eq = record { discrete = ApprovalDecisionOutcome-discrete }

instance abbrev pub reason_code_eq : HasEq AuthorityReasonCode
reason_code_eq = record { discrete = AuthorityReasonCode-discrete }

instance abbrev pub subject_eq : HasEq SubjectReference
subject_eq = record { discrete = SubjectReference-discrete }

instance abbrev pub scope_eq : HasEq AuthorityScope
scope_eq = record { discrete = AuthorityScope-discrete }

instance abbrev pub validity_eq : HasEq ValidityWindow
validity_eq = record { discrete = ValidityWindow-discrete }

-- `ValidityWindow._ordered_and_bounded`: what the constructor accepts.
unfoldable pub validity_window : Instant → Instant → Option ValidityWindow
validity_window valid_from expires_at =
    if leb expires_at valid_from
    then none
    else if ltb max_grant_validity (expires_at - valid_from)
    then none
    else some (record { valid_from = valid_from; expires_at = expires_at })

-- `ValidityWindow.contains`.
unfoldable pub window_contains : ValidityWindow → Instant → Bool
window_contains w moment = leb w.valid_from moment && ltb moment w.expires_at

pub record OperatorReference : Type 0 where
  pub subject_type : SubjectType
  pub subject_id : String

-- The value of `decided_by` and `issued_by`. `model_copy` bypasses validation, so the evaluation
-- reads it as an opaque object: an `OperatorReference`, whose type may have been tampered with,
-- or an object of another class.
pub data Actor : Type 0 where
  operator_reference : OperatorReference → Actor
  other_object : Actor

pub record ApprovalRequest : Type 0 where
  pub request_id : String
  pub owner_id : String
  pub requested_by : String
  pub subject : SubjectReference
  pub capability : String
  pub scope : AuthorityScope
  pub purpose : String
  pub policy_version : String
  pub requested_at : Instant
  pub validity : ValidityWindow

pub record ApprovalDecision : Type 0 where
  pub decision_id : String
  pub request_id : String
  pub owner_id : String
  pub decided_by : Actor
  pub outcome : ApprovalDecisionOutcome
  pub decided_at : Instant
  pub reason : String
  pub subject : SubjectReference
  pub capability : String
  pub scope : AuthorityScope
  pub purpose : String
  pub policy_version : String
  pub validity : ValidityWindow

-- `delegation` has one value, prohibition, and is left out.
pub record CapabilityGrant : Type 0 where
  pub grant_id : String
  pub owner_id : String
  pub request_id : String
  pub decision_id : String
  pub issued_by : Actor
  pub issued_at : Instant
  pub subject : SubjectReference
  pub capability : String
  pub scope : AuthorityScope
  pub purpose : String
  pub policy_version : String
  pub validity : ValidityWindow

pub record RevocationRecord : Type 0 where
  pub revocation_id : String
  pub grant_id : String
  pub owner_id : String
  pub revoked_by : String
  pub effective_at : Instant
  pub recorded_at : Instant
  pub reason : String

-- The key of `sorted(value, key=lambda record: (record.effective_at, record.revocation_id))`.
abbrev pub revocation_leb : RevocationRecord → RevocationRecord → Bool
revocation_leb v w =
    if ltb v.effective_at w.effective_at
    then true
    else if ltb w.effective_at v.effective_at
    then false
    else str_leb v.revocation_id w.revocation_id

-- `_revocations_sorted_unique`, under the field's `max_length=32`.
unfoldable pub revocations_sorted_unique : List RevocationRecord → Option (List RevocationRecord)
revocations_sorted_unique vs =
    if ltb 32 (length vs)
    then none
    else if not (is_unique (map (λ v. v.revocation_id) vs))
    then none
    else some (sorted_by revocation_leb vs)

pub record AuthorityEvaluationRequest : Type 0 where
  pub evaluation_id : String
  pub owner_id : String
  pub evaluation_time : Instant
  pub subject : SubjectReference
  pub capability : String
  pub scope : AuthorityScope
  pub purpose : String
  pub policy_version : String
  pub delegation_requested : Bool
  pub approval_request : ApprovalRequest
  pub approval_decision : ApprovalDecision
  pub grant : CapabilityGrant
  pub revocations : List RevocationRecord

pub record AuthorityEvaluationDecision : Type 0 where
  pub evaluation_id : String
  pub evaluation_time : Instant
  pub is_authorized : Bool
  pub reason_code : AuthorityReasonCode
  pub grant_id : Option String
  pub detail : String

-- `_EVALUATION_DETAILS`.
unfoldable pub evaluation_details : AuthorityReasonCode → String
evaluation_details authorized =
    "Authority chain is exact, approved, within validity, and unrevoked."
evaluation_details approval_not_approved =
    "The approval decision is not an approval; no authority exists."
evaluation_details approval_grant_mismatch =
    "The grant does not exactly match the approved decision."
evaluation_details subject_mismatch = "The evaluated subject does not match the grant."
evaluation_details capability_mismatch = "The evaluated capability does not match the grant."
evaluation_details scope_mismatch = "The evaluated scope does not match the grant."
evaluation_details purpose_mismatch = "The evaluated purpose does not match the grant."
evaluation_details not_yet_valid = "The grant is not yet valid at the evaluation time."
evaluation_details expired = "The grant is expired at the evaluation time."
evaluation_details revoked = "The grant is revoked at the evaluation time."
evaluation_details policy_version_mismatch =
    "The evaluated policy version does not match the grant."
evaluation_details delegation_prohibited = "Delegation is prohibited in v1."
evaluation_details malformed_authority_chain =
    "The supplied authority chain is not internally consistent."

is_none : Option String → Bool
is_none none = true
is_none (some _) = false

is_truthy : Option String → Bool
is_truthy none = false
is_truthy (some s) = s != ""

-- `AuthorityEvaluationDecision._authorized_consistency`: does the constructor accept the value?
-- (`and self.grant_id` is the truth of a string, false of the empty one.)
unfoldable pub authorized_consistency : AuthorityEvaluationDecision → Bool
unfolding is_none is_truthy
authorized_consistency d =
    (d.is_authorized == (d.reason_code == authorized))
    && not (d.is_authorized && is_none d.grant_id)
    && not ((d.reason_code == malformed_authority_chain) && is_truthy d.grant_id)
    && (d.detail == evaluation_details d.reason_code)
