-- ===== src/Authority/Commands.antt =====
-- src/orbitmind/orchestration/authority_lifecycle.py: what a command that succeeds has established.
use orbit_mind_living_q_core.Common.{
  ◌<◌, ap, ◌∙◌, ◌≡◌, refl, subst, ◌⊎◌, ◌≤◌, String, Bool, ◌||◌, Option, none, some, List, ltb, ◌==◌,
  ◌!=◌, false, true, ◌>>=◌, string_eq, nat_eq, Result, ok, err, raise_if, >>=-eq-ok, arith,
}
use orbit_mind_living_q_core.Authority.Contracts.{
  Instant, subject_eq, scope_eq, validity_eq, ApprovalRequest, ApprovalDecision, CapabilityGrant,
  RevocationRecord, AuthorityEvaluationRequest, AuthorityEvaluationDecision,
  ApprovalDecisionOutcome, approved, rejected, outcome_eq, ApprovalDecisionOutcome-discrete,
}
use orbit_mind_living_q_core.Authority.Evaluation.{evaluate_authority}
use orbit_mind_living_q_core.Authority.Evaluations.{EvaluationRow}
use orbit_mind_living_q_core.Authority.Repository.{
  Digests, Store, get_approval_request, get_approval_decision, get_capability_grant,
  append_capability_grant,
}
use orbit_mind_living_q_core.Authority.Soundness.{IsOperator, evaluate_authority-IsAuthorized_iff}
use orbit_mind_living_q_core.Authority.Persisted.{
  Replayed, Recorded, append_evaluation_record-persisted,
}
use orbit_mind_living_q_core.Authority.Issue.{
  exact_question, Decides, decision_is_foreign-Decides, grant_of-IsAuthorized,
}
use orbit_mind_living_q_core.Authority.Lifecycle.{
  AuthorityLifecycleError, decision_not_found, request_not_found, grant_not_found,
  decision_rejected, policy_mismatch, chain_mismatch, IssueCapabilityGrantCommand,
  EvaluateAuthorityCommand, lift_repository, require_found, decision_is_foreign, grant_is_foreign,
  grant_of, question_of, accepted_revocations, all_revocations_for_grant, issue_capability_grant,
  stored_question, evaluate_authority_command,
}
use orbit_mind_living_q_core.Persistence.Table.{RepositoryError}

pub lift_repository-eq-ok :
    {A : Type 0} (call : Result RepositoryError A) (a : A)
    → lift_repository call ≡ ok a
    → call ≡ ok a
unfolding lift_repository
lift_repository-eq-ok (ok b) a h = ground arith
lift_repository-eq-ok (err e) a h = cc

pub require_found-eq-ok :
    {A : Type 0} (e : AuthorityLifecycleError) (call : Result RepositoryError (Option A)) (a : A)
    → require_found e call ≡ ok a
    → call ≡ ok (some a)
unfolding require_found
require_found-eq-ok e (ok (some b)) a h = ground arith
require_found-eq-ok e (ok none) a h = cc
require_found-eq-ok e (err c) a h = cc

-- A guard of a command that succeeded, and what came after it.
pub passed :
    {A : Type 0} (test : Bool) (e : AuthorityLifecycleError)
    (rest : Unit {0} → Result AuthorityLifecycleError A) {a : A}
    → (raise_if test e >>= rest) ≡ ok a
    → (test ≡ false) × (rest tt ≡ ok a)
passed false e rest h = (refl, h)
passed true e rest h = cc

approved_of_not_rejected : (o : ApprovalDecisionOutcome) → (o == rejected) ≡ false → o ≡ approved
unfolding ApprovalDecisionOutcome-discrete
approved_of_not_rejected approved h = refl
approved_of_not_rejected rejected h = cc

-- What the issue of a grant rests on.
pub record IsApproved (digests : Digests) (s : Store) (c : IssueCapabilityGrantCommand)
    (request : ApprovalRequest) (decision : ApprovalDecision) : Type 0 where
  pub request_stored : get_approval_request digests c.owner_id c.request_id s ≡ ok (some request)
  pub decision_stored :
      get_approval_decision digests c.owner_id c.decision_id s ≡ ok (some decision)
  pub is_approved : decision.outcome ≡ approved
  pub request_policy : c.policy_version ≡ request.policy_version
  pub starts : c.valid_from ≡ request.validity.valid_from
  pub ends : c.expires_at ≡ request.validity.expires_at

module _ (digests : Digests) where
  -- A grant is issued only on a stored request and a stored, approving decision of the owner, under
  -- the request's policy and for exactly its window, by the repository's append; and if operators
  -- decided and issued it, the authority evaluation authorizes what it names, from its issue on, at
  -- every time in the window of the command, as long as nothing revokes it.
  pub issue_capability_grant-IsApproved :
      (c : IssueCapabilityGrantCommand) (s t : Store) (g : CapabilityGrant)
      → issue_capability_grant digests c s ≡ ok (g, t)
      → (request : ApprovalRequest) × (decision : ApprovalDecision) × IsApproved digests s c request
          decision
        × (append_capability_grant digests (grant_of c request decision) c.idempotency_key s
            ≡ ok (g, t))
        × ((evaluation_id : String) (moment : Instant)
            → IsOperator decision.decided_by
            → IsOperator c.issued_by
            → c.issued_at ≤ moment
            → c.valid_from ≤ moment
            → moment < c.expires_at
            → (evaluate_authority (
                exact_question evaluation_id moment request decision
                  (grant_of c request decision))).is_authorized
              ≡ true)
  unfolding issue_capability_grant
  issue_capability_grant-IsApproved c s t g h =
      let (request, asked, h1) = >>=-eq-ok (require_found request_not_found _) _ h in
      let (decision, answered, h2) = >>=-eq-ok (require_found decision_not_found _) _ h1 in
      let (decides, h3) = passed (decision_is_foreign decision request) chain_mismatch _ h2 in
      let (policy, h4) = passed (c.policy_version != request.policy_version) policy_mismatch _ h3 in
      let (also, h5) = passed (c.policy_version != decision.policy_version) policy_mismatch _ h4 in
      let (accepted, h6) = passed (decision.outcome == rejected) decision_rejected _ h5 in
      let (later, h7) = passed (ltb c.issued_at decision.decided_at) chain_mismatch _ h6 in
      let (window, h8) =
        passed
          ((c.valid_from != decision.validity.valid_from)
            || (c.expires_at != decision.validity.expires_at))
          chain_mismatch _ h7 in
      let d = decision_is_foreign-Decides decision request decides in
      let agreed = approved_of_not_rejected decision.outcome accepted in
      let order : decision.decided_at ≤ c.issued_at = ground arith in
      let starts : c.valid_from ≡ decision.validity.valid_from = ground arith in
      let ends : c.expires_at ≡ decision.validity.expires_at = ground arith in
      let request_starts = starts ∙ ap (λ w. w.valid_from) d.validity in
      let request_ends = ends ∙ ap (λ w. w.expires_at) d.validity in
      (
        request,
        decision,
        record {
          request_stored = require_found-eq-ok request_not_found _ request asked;
          decision_stored = require_found-eq-ok decision_not_found _ decision answered;
          is_approved = agreed;
          request_policy = ground arith;
          starts = request_starts;
          ends = request_ends;
        },
        lift_repository-eq-ok _ (g, t) h8,
        λ evaluation_id moment by issuer issued from_ to.
            (evaluate_authority-IsAuthorized_iff _).1 (
              grant_of-IsAuthorized c request decision evaluation_id moment d agreed order by issuer
                issued (subst (λ x. x ≤ moment) request_starts from_)
                (subst (λ x. moment < x) request_ends to)),
      )

  -- What the question of an evaluation rests on.
  pub record IsAsked (s : Store) (c : EvaluateAuthorityCommand) (r : AuthorityEvaluationRequest)
      : Type 0 where
    pub revocations : List RevocationRecord
    pub same : r ≡ question_of c r.approval_request r.approval_decision r.grant revocations
    pub request_stored :
        get_approval_request digests c.owner_id c.request_id s ≡ ok (some r.approval_request)
    pub decision_stored :
        get_approval_decision digests c.owner_id c.decision_id s ≡ ok (some r.approval_decision)
    pub grant_stored : get_capability_grant digests c.owner_id c.grant_id s ≡ ok (some r.grant)
    pub decides : Decides r.approval_decision r.approval_request
    pub is_approved : r.approval_decision.outcome ≡ approved
    pub issued : grant_is_foreign r.grant r.approval_request r.approval_decision ≡ false

  stored_question-IsAsked :
      (c : EvaluateAuthorityCommand) (s : Store) (r : AuthorityEvaluationRequest)
      → stored_question digests c s ≡ ok r
      → IsAsked s c r
  unfolding stored_question
  stored_question-IsAsked c s r h =
      let (request, asked, h1) = >>=-eq-ok (require_found request_not_found _) _ h in
      let (decision, answered, h2) = >>=-eq-ok (require_found decision_not_found _) _ h1 in
      let (decides, h3) = passed (decision_is_foreign decision request) chain_mismatch _ h2 in
      let (accepted, h4) = passed (decision.outcome == rejected) decision_rejected _ h3 in
      let (grant, granted, h5) = >>=-eq-ok (require_found grant_not_found _) _ h4 in
      let (issued, h6) = passed (grant_is_foreign grant request decision) chain_mismatch _ h5 in
      let (rows, listed, h7) =
        >>=-eq-ok (all_revocations_for_grant digests c.owner_id grant.grant_id s) _ h6 in
      let (revocations, valid, h8) = >>=-eq-ok (accepted_revocations rows) _ h7 in
      let last : question_of c request decision grant revocations ≡ r = ground arith in
      subst (IsAsked s c) last (record {
        revocations = revocations;
        same = refl;
        request_stored = require_found-eq-ok request_not_found _ request asked;
        decision_stored = require_found-eq-ok decision_not_found _ decision answered;
        grant_stored = require_found-eq-ok grant_not_found _ grant granted;
        decides = decision_is_foreign-Decides decision request decides;
        is_approved = approved_of_not_rejected decision.outcome accepted;
        issued = issued;
      })

  module _ (identity : AuthorityEvaluationRequest → AuthorityEvaluationDecision → String) where
    -- A successful evaluation command either changes nothing and returns the decision of a recorded
    -- row with its key or its id, which has the identity of the evaluation asked for and holds an
    -- evaluation that recomputes, or it adds one row: that of the evaluation of the question that the
    -- command asks of the stored request, its stored approved decision and a stored grant issued from
    -- it, with all revocations that the store holds of the grant.
    pub evaluate_authority_command-Recorded :
        (c : EvaluateAuthorityCommand) (s : Store) (rows last : List EvaluationRow)
        (stored : AuthorityEvaluationDecision)
        → evaluate_authority_command digests identity c s rows ≡ ok (stored, last)
        → (r : AuthorityEvaluationRequest) × IsAsked s c r
          × (((last ≡ rows)
                × Replayed identity r (evaluate_authority r) c.idempotency_key rows stored)
              ⊎ Recorded identity digests r
                  (evaluate_authority r)
                  c.idempotency_key
                  s
                  rows
                  stored
                  last)
    unfolding evaluate_authority_command
    evaluate_authority_command-Recorded c s rows last stored h =
        let (r, asked, h1) = >>=-eq-ok (stored_question digests c s) _ h in
        (
          r,
          stored_question-IsAsked c s r asked,
          append_evaluation_record-persisted identity digests r (evaluate_authority r) stored
              c.idempotency_key s rows last (lift_repository-eq-ok _ (stored, last) h1),
        )
