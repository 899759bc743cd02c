-- ===== src/Lib.antt =====
-- Verification of the backend of OrbitMind Living Q-Core (src/orbitmind).
--
-- The decision core of the program says what an owner's actors may do, in three layers that each
-- leave evidence in a table. The authority kernel keeps chains of approval request, approval
-- decision, capability grant and revocation, and evaluates one exact question against a chain.
-- Operation admission resolves a proposal's kind to a fixed profile, asks the authority store for a
-- finding where the profile needs one, and records the policy's decision. The tool gateway reads the
-- admission record that an invocation names and records whether the invocation is eligible. Beside
-- them stand two stores in memory: the transient hand-off store of the local API, with its own
-- sessions, and the registry of CSRF tokens of the local pages. The scheduler of observations stands
-- on its own: it normalizes a problem, evaluates schedules, encodes the problem as a QUBO with a
-- penalty, and solves it by exhaustive search or greedily.
--
-- Files and sources:
--   Common: Boolean tests, lists, dicts, results and sorting that the components share.
--   Persistence/Table, TableLaws: the evidence table that the repositories have in common
--     (src/orbitmind/persistence/authority_repository.py, admission_repository.py and
--     tool_gateway_repository.py): a list of rows in insertion order. `by_key` and `by_id` are the
--     owner-scoped queries, `resolve_replay` and `append` the idempotent append, `to_domain` the read
--     that checks the stored identity.
--   Authority/Contracts, Evaluation: src/orbitmind/authority/contracts.py and evaluation.py.
--     Soundness and Precedence hold the theorems on the evaluation.
--   Authority/Repository, Causality: the appends of authority_repository.py with their causality
--     checks, and the invariant of their histories, on Causality/Bases. Evaluations and Recording: the
--     evaluation records (`resolve_chain` is `_resolve_persisted_evaluation_chain`), with StoredChain
--     and Persisted on them.
--   Authority/Lifecycle: the commands of src/orbitmind/orchestration/authority_lifecycle.py, each a
--     composition of reads and one append, with their values in Lifecycle/Messages; Issue,
--     Commands and Terminal hold the theorems. ChainReads: `read_authority_chain`, with ChainLinks on it.
--   Admission/Contracts, Policy: src/orbitmind/admission/contracts.py and policy.py. Safety and
--     Precedence hold the theorems on the policy.
--   Admission/Bridge, Lifecycle, Evidence, Replay:
--     src/orbitmind/orchestration/admission_lifecycle.py with the admission table:
--     `authority_finding` is `_authority_finding`.
--   Gateway/Contracts, Policy, Lifecycle, Safety: src/orbitmind/toolgateway and
--     src/orbitmind/orchestration/tool_gateway_lifecycle.py.
--   Handoff: src/orbitmind/api/transient_handoff.py, the store that hands a custom-TLE replay from one
--     request of the browser to the next. Contracts holds its values and their validation, Sessions the
--     state `HandoffStore` with its events, expiry and sessions, Store the calls `create`, `consume`
--     and `clear`. An outcome is a result together with the state that the call leaves, since an
--     exception does not undo the events and the expiry. Bounds, Atomic, Consume, Once and RoundTrip
--     hold the theorems.
--   Csrf: src/orbitmind/core/page_csrf.py, the registry of page sessions and their rotating tokens, with
--     the camera's policy of src/orbitmind/camera/csrf.py. Contracts holds the values, Registry the
--     calls (`validate_and_rotate` is `validate_and_rotate_after_preflight`), Rotation, Spent,
--     Once, Sessions and Bounds the theorems.
--   Optimization: src/orbitmind/optimization. Models and Problem: models.py and problem.py, with
--     Problem/Normal on what `normalize_problem` leaves and Problem/Conflicts on the endpoints of
--     conflicts. Evaluation: evaluation.py (`make_evaluator` is `Evaluator.__init__`), with
--     Evaluation/Usage, Feasible and Exclusive on the constraints, Values on the bound, and Selections
--     on what an evaluation reads. Qubo: qubo.py, with Qubo/Terms, Chosen and Energy. Penalties: penalties.py, with
--     Penalties/Search, Counts and Sound. Solvers: the folder solvers, base.py in Solvers itself,
--     exact.py in Exact with Optimum and Answers, greedy.py in Greedy with Heuristic.
--   Examples: one chain of evidence, from an approval to a tool invocation, one hand-off, one
--     page session and one scheduling problem, to which the theorems are applied.
--
-- An instant is a number of microseconds, and a reading of the clocks of the two stores a number of
-- ticks. The canonical JSON, SHA-256 and HMAC of the identities, fingerprints, checksums and digests
-- are parameters (`Digests`, `GatewayFunctions`, and one `Functions` for each component), and no law
-- of theirs is assumed; the random values of the two stores are arguments of their calls. An exception
-- is an `err` of a result; a transaction that raises leaves the tables as they were, and a call of a
-- store in memory that raises returns the state that it leaves. The limits of the hand-off store are
-- arguments of its theorems; those of the registry are the program's. All functions are structural
-- recursions, so that no fuel is needed: the exhaustive solver recurses on the 2 ^ n masks that are left.
--
-- The scheduler computes with floats. Its model takes quantities that are whole numbers, on which
-- the source's sums and products are exact: values, weights, costs, capacities and penalties are
-- natural numbers, energies integers. The source agrees with it where every sum and product stays
-- below 2 ^ 53; on other floats its sums are rounded, and its energies equal the objectives within
-- the rounding only. A test for a finite number always passes on whole numbers, and the tolerance
-- of 1e-9 on a capacity does nothing, while it accepts a float sum that rounding has lifted above
-- the capacity. Sets are lists read by membership. The clock of the exhaustive solver and the
-- checksum of a problem are parameters.
--
-- Not modelled: the recovery from concurrent inserts and the row locks of the repositories (one
-- writer at a time), the grammars and safe-text checks of single fields, the normalization of an
-- `AuthorityScope` (sorting, uniqueness and the limit of 8 constraints), the other reads of
-- authority_lifecycle.py for display, the quantum runs, receipts and benchmarks of the scheduler,
-- and the other domains of the backend (the HTTP routes, camera media, astronomy, memory, research,
-- runtime).
pub mod Admission
pub mod Authority
pub mod Common
pub mod Csrf
pub mod Examples
pub mod Gateway
pub mod Handoff
pub mod Optimization
pub mod Persistence
