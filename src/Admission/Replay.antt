-- ===== src/Admission/Replay.antt =====
-- What one admission leaves in the table, and what every later one with its key returns.
use orbit_mind_living_q_core.Common.{
  ◌≡◌, ◌⊎◌, inl, inr, refl, subst, Option-cases, raise_if, Result, String, Bool, true, false,
  Option, none, some, List, [], ◌∷◌, ◌++◌, ◌==◌, string_eq, ok, err, >>=-eq-ok, arith,
  if◌then◌else◌, sym, ap, ◌∙◌,
}
use orbit_mind_living_q_core.Authority.Repository.{Digests, Store}
use orbit_mind_living_q_core.Persistence.Table
use orbit_mind_living_q_core.Persistence.Table.{
  RepositoryError, idempotency_conflict, Disposition, created, Row, Schema,
}
use orbit_mind_living_q_core.Persistence.TableLaws.{
  append-created, by_key-append_new, by_key-append_found, to_domain-new_row, append-Appended,
  replayed, inserted,
}
use orbit_mind_living_q_core.Admission.Contracts.{
  AdmissionOperationKind, admitted, kind_value, OperationProposal, AdmissionEvaluationContext,
  AuthorityFinding,
}
use orbit_mind_living_q_core.Admission.Policy.{
  resolve_operation_kind, operation_profile, evaluate_admission,
}
use orbit_mind_living_q_core.Admission.Safety.{
  Echoes, evaluate_admission-admitted_iff, resolve_operation_kind_iff,
}
use orbit_mind_living_q_core.Admission.Evidence.{
  Evidence, authority_finding-Evidence, from_repository-eq-ok,
}
use orbit_mind_living_q_core.Admission.Bridge.{
  LifecycleError, repository, transaction_error, from_repository, finding_for,
}
use orbit_mind_living_q_core.Admission.Lifecycle.{
  AdmissionRecord, Functions, fingerprint_source, admission_schema, resolve_historical_replay,
  admission_record, admit_new, admit_operation,
}

module _ (functions : Functions) (digests : Digests) where
  open functions use {fingerprint_of}

  -- A created admission: no row had its key, the finding was made, and the record of the policy's
  -- decision on it is the new last row.
  pub record Created (store : Store) (proposal : OperationProposal)
      (context : AdmissionEvaluationContext) (rows : List (Row AdmissionRecord))
      (r : AdmissionRecord) (rows' : List (Row AdmissionRecord)) : Type 0 where
    pub finding : AuthorityFinding
    pub found : finding_for digests store context proposal ≡ ok finding
    pub is_new : Table.by_key context.authoritative_owner_id proposal.idempotency_key rows ≡ none
    pub recorded :
        r
        ≡ admission_record functions proposal context (evaluate_admission proposal context finding)
    pub appended :
        rows' ≡ rows ++ Table.new_row (admission_schema functions) r proposal.idempotency_key ∷ []

  admit_new-Created :
      (store : Store) (proposal : OperationProposal) (context : AdmissionEvaluationContext)
      (rows : List (Row AdmissionRecord)) {r : AdmissionRecord} {rows' : List (Row AdmissionRecord)}
      → admit_new functions digests store proposal context rows ≡ ok (r, created, rows')
      → Created store proposal context rows r rows'
  unfolding admit_new
  admit_new-Created store proposal context rows {r} {rows'} h =
      let (f, found, h') = >>=-eq-ok (finding_for digests store context proposal) _ h in
      let a = admission_record functions proposal context (evaluate_admission proposal context f) in
      let (is_new, same, grown) =
        append-created (admission_schema functions) (ok tt) a r proposal.idempotency_key rows rows'
          (from_repository-eq-ok _ h') in
      record {
        finding = f;
        found = found;
        is_new = is_new;
        recorded = same;
        appended = rw same grown;
      }

  admit_operation-Created :
      (store : Store) (proposal : OperationProposal) (context : AdmissionEvaluationContext)
      (rows : List (Row AdmissionRecord)) {r : AdmissionRecord} {rows' : List (Row AdmissionRecord)}
      → admit_operation functions digests false store proposal context rows ≡ ok (r, created, rows')
      → Created store proposal context rows r rows'
  unfolding admit_operation
  admit_operation-Created store proposal context rows {r} {rows'} h =
      let (historical, _, h') =
        >>=-eq-ok
          (from_repository (
            resolve_historical_replay functions context.authoritative_owner_id
              proposal.idempotency_key (fingerprint_of (fingerprint_source proposal context)) rows))
          _ h in
      missed historical h'
    where
      missed :
          (historical : Option AdmissionRecord)
          → elim historical [
            | some stored ↦ ok (stored, Disposition.replayed, rows)
            | none ↦ admit_new functions digests store proposal context rows
          ]
            ≡ ok (r, created, rows')
          → Created store proposal context rows r rows'
      missed none e = admit_new-Created store proposal context rows e
      missed (some stored) e = absurd (ground arith)

  Created-by_key :
      (store : Store) (p : OperationProposal) (c : AdmissionEvaluationContext)
      (rows : List (Row AdmissionRecord)) {r : AdmissionRecord} {rows' : List (Row AdmissionRecord)}
      → Created store p c rows r rows'
      → Table.by_key c.authoritative_owner_id p.idempotency_key rows'
        ≡ some (Table.new_row (admission_schema functions) r p.idempotency_key)
  unfolding Table.new_row
  Created-by_key store p c rows {r} made = rw made.appended (
      by_key-append_new c.authoritative_owner_id p.idempotency_key rows
        (Table.new_row (admission_schema functions) r p.idempotency_key) made.is_new
        (ap (λ a. a.owner_id) made.recorded) refl)

  -- The tables that further calls leave. A call that fails leaves its table.
  pub data Later (rows : List (Row AdmissionRecord)) : List (Row AdmissionRecord) → Type 0 where
    unchanged : Later rows rows
    called :
        {before : List (Row AdmissionRecord)}
        → Later rows before
        → (in_transaction : Bool) (store : Store) (p : OperationProposal)
          (c : AdmissionEvaluationContext) (r : AdmissionRecord) (d : Disposition)
          (after : List (Row AdmissionRecord))
        → admit_operation functions digests in_transaction store p c before ≡ ok (r, d, after)
        → Later rows after

  append-by_key :
      (a b : AdmissionRecord) (d : Disposition) (key o k : String)
      (rows rows' : List (Row AdmissionRecord)) (row : Row AdmissionRecord)
      → Table.append (admission_schema functions) (ok tt) a key rows ≡ ok (b, d, rows')
      → Table.by_key o k rows ≡ some row
      → Table.by_key o k rows' ≡ some row
  append-by_key a b d key o k rows rows' row h found =
      elim (append-Appended (admission_schema functions) (ok tt) a b d key rows rows' h) [
        | replayed r _ _ same ↦ rw same found
        | inserted _ _ _ _ same ↦ rw same (
            by_key-append_found o k rows (Table.new_row (admission_schema functions) a key ∷ []) row
              found)
      ]

  abbrev the_result :
      AdmissionRecord × Disposition × List (Row AdmissionRecord)
      → Result LifecycleError (AdmissionRecord × Disposition × List (Row AdmissionRecord))
  the_result x = ok x

  replay_rows :
      (x y : AdmissionRecord × Disposition × List (Row AdmissionRecord))
      → (the_result x ≡ ok y)
      → x.2 ≡ y.2
  replay_rows x y h = cc

  admit_operation-by_key :
      (in_transaction : Bool) (store : Store) (p : OperationProposal)
      (c : AdmissionEvaluationContext) (rows after : List (Row AdmissionRecord))
      (r : AdmissionRecord) (d : Disposition) (o k : String) (row : Row AdmissionRecord)
      → admit_operation functions digests in_transaction store p c rows ≡ ok (r, d, after)
      → Table.by_key o k rows ≡ some row
      → Table.by_key o k after ≡ some row
  unfolding admit_operation admit_new
  admit_operation-by_key in_transaction store p c rows after r d o k row h found =
      let (u, free, h1) = >>=-eq-ok (raise_if in_transaction transaction_error) _ h in
      let (historical, _, h2) =
        >>=-eq-ok
          (from_repository (
            resolve_historical_replay functions c.authoritative_owner_id p.idempotency_key
              (fingerprint_of (fingerprint_source p c)) rows))
          _ h1 in
      elim (Option-cases historical) [
        | inr (stored, e) ↦
            let same : rows ≡ after =
              replay_rows (stored, Disposition.replayed, rows) (r, d, after) (rw e at h2) in
            subst (λ t. Table.by_key o k t ≡ some row) same found
        | inl e ↦
            let new : admit_new functions digests store p c rows ≡ ok (r, d, after) = rw e at h2 in
            let (f, _, h3) = >>=-eq-ok (finding_for digests store c p) _ new in
            append-by_key _ r d p.idempotency_key o k rows after row (from_repository-eq-ok _ h3)
              found
      ]

  Later-by_key :
      (o k : String) (row : Row AdmissionRecord) {rows later : List (Row AdmissionRecord)}
      → Later rows later
      → Table.by_key o k rows ≡ some row
      → Table.by_key o k later ≡ some row
  Later-by_key o k row unchanged found = found
  Later-by_key o k row (called {before} past b store p c r d after h) found =
      admit_operation-by_key b store p c before after r d o k row h
        (Later-by_key o k row past found)

  -- An admission that was created answers every later call with its owner and key, from whatever
  -- authority store, at whatever time and for whatever actor: the same fingerprint gets the stored
  -- record back, any other is a conflict, and the table stays as it is. Any calls of `admit_operation`
  -- may have come in between.
  pub admit_operation-replay :
      (store later : Store) (p q : OperationProposal) (c d : AdmissionEvaluationContext)
      (rows : List (Row AdmissionRecord)) {r : AdmissionRecord} {rows' : List (Row AdmissionRecord)}
      → admit_operation functions digests false store p c rows ≡ ok (r, created, rows')
      → d.authoritative_owner_id ≡ c.authoritative_owner_id
      → q.idempotency_key ≡ p.idempotency_key
      → {now : List (Row AdmissionRecord)} → Later rows' now
      → admit_operation functions digests false later q d now ≡ (
          if fingerprint_of (fingerprint_source p c) == fingerprint_of (fingerprint_source q d)
          then ok (r, Disposition.replayed, now)
          else err (repository idempotency_conflict))
  unfolding admit_operation resolve_historical_replay Table.new_row
  admit_operation-replay store later p q c d rows {r} {rows'} h owner key {now} past =
      let made = admit_operation-Created store p c rows h in
      let same = ap (λ a. a.proposal_fingerprint) made.recorded in
      let read = to_domain-new_row (admission_schema functions) r p.idempotency_key in
      let found =
        Later-by_key c.authoritative_owner_id p.idempotency_key _ past
          (Created-by_key store p c rows made) in
      rw (owner, key, found, resolve_historical_replay) (ground arith)

  -- An admission that was created with the outcome `admitted`: the proposal's owner and actor are
  -- the trusted ones, its token is the value of a kind whose profile it echoes and which neither
  -- is forbidden nor needs human approval, and if the profile requires authority, the store holds
  -- the evidence: the named grant with its request, decision and revocations, which authorize this
  -- actor for the capability and scope at the trusted time.
  pub admit_operation-admitted :
      (store : Store) (p : OperationProposal) (c : AdmissionEvaluationContext)
      (rows : List (Row AdmissionRecord)) {r : AdmissionRecord} {rows' : List (Row AdmissionRecord)}
      → admit_operation functions digests false store p c rows ≡ ok (r, created, rows')
      → r.outcome ≡ admitted
      → (p.owner_id ≡ c.authoritative_owner_id)
        × (p.actor_id ≡ c.authoritative_actor_id)
        × ((k : AdmissionOperationKind) × (kind_value k ≡ p.operation_kind)
            × Echoes p (operation_profile k)
            × ((operation_profile k).forbidden_in_v0 ≡ false)
            × ((operation_profile k).approval_required ≡ false)
            × (((operation_profile k).authority_required ≡ false)
                ⊎ Evidence digests store c p (operation_profile k)))
  unfolding finding_for
  admit_operation-admitted store p c rows {r} {rows'} h outcome =
      let made = admit_operation-Created store p c rows h in
      let f = made.finding in
      let decided : (evaluate_admission p c f).outcome ≡ admitted =
        sym (ap (λ a. a.outcome) made.recorded) ∙ outcome in
      let (owner, actor, (k, token, ok_)) = (evaluate_admission-admitted_iff p c f).0 decided in
      let kind = (resolve_operation_kind_iff p.operation_kind k).1 token in
      (
        owner,
        actor,
        (
          k,
          token,
          ok_.echoes,
          ok_.not_forbidden,
          ok_.no_approval,
          evidence k f kind made.found ok_.authority,
        ),
      )
    where
      evidence :
          (k : AdmissionOperationKind) (f : AuthorityFinding)
          → resolve_operation_kind p.operation_kind ≡ some k
          → finding_for digests store c p ≡ ok f
          → ((operation_profile k).authority_required ≡ false)
            ⊎ ((f.referenced ≡ true) × (f.resolved ≡ true) × (f.is_authorized ≡ true))
          → ((operation_profile k).authority_required ≡ false)
            ⊎ Evidence digests store c p (operation_profile k)
      evidence k f kind found (inl free) = inl free
      evidence k f kind found (inr (_, _, authorized)) = inr (
          authority_finding-Evidence digests store c p (operation_profile k) f
            (rw (kind, finding_for) at found) authorized)
