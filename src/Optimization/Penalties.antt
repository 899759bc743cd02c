-- ===== src/Optimization/Penalties.antt =====
-- src/orbitmind/optimization/penalties.py: the policy that says whether a penalty is known to be large
-- enough. An energy that is infinite in the source is `none` here.
pub mod Search
pub mod Counts
pub mod Sound
use orbit_mind_living_q_core.Common.{
  ℕ, zero, suc, ◌+◌, ◌*◌, String, Bool, true, false, not, ◌&&◌, ◌||◌, Option, none, some, List, [],
  ◌∷◌, ◌++◌, map, ltb, leb, if◌then◌else◌, ◌==◌, ◌!=◌, nat_eq, string_eq, length, any, contains,
  to_set, count, Result, err, ok, ◌>>=◌, Dict, get, ℤ, ltb_ℤ,
}
use orbit_mind_living_q_core.Optimization.Models.{
  SchedulingConflict, SchedulingProblem, QuboModel, PenaltyProofStatus, proof_status_eq,
}
use orbit_mind_living_q_core.Optimization.Models.PenaltyProofStatus.{
  proven_sufficient, proven_unsafe, contradictory, unproven, not_applicable,
}
use orbit_mind_living_q_core.Optimization.Problem.{
  variable_order, generate_conflicts, resolved_penalty, total_weighted_value_bound,
}
use orbit_mind_living_q_core.Optimization.Evaluation.{
  BitChar, zero_bit, one_bit, is_one, BitstringError,
}
use orbit_mind_living_q_core.Optimization.Qubo.{
  QuboError, key_error, enumerate_from, build_qubo, qubo_energy, bit_at,
}

abbrev pub exhaustive_max_vars : ℕ
exhaustive_max_vars = 16

pub data PenaltySource : Type 0 where
  explicit auto_weighted_bound : PenaltySource

pub data ProofMethod : Type 0 where
  exhaustive analytical_bound analytic_satisfiability : ProofMethod

-- A penalty that is not a number is `none`.
pub record PenaltyPolicy : Type 0 where
  pub penalty : Option ℕ
  pub source : PenaltySource
  pub total_weighted_value_bound : ℕ
  pub satisfying_encoded_assignment_exists : Bool
  pub sufficient : Bool
  pub method : ProofMethod
  pub proof_status : PenaltyProofStatus

unfoldable pub encoded_constraints_satisfiable : SchedulingProblem → Bool
encoded_constraints_satisfiable p =
    let mandatory = to_set p.constraints.mandatory in
    not (
      any (λ c. contains c.opportunity_a mandatory && contains c.opportunity_b mandatory)
        (generate_conflicts p))

-- `_EXECUTABLE_PROOF`.
unfoldable pub proof_allows_execution : PenaltyProofStatus → Bool
proof_allows_execution status = status == proven_sufficient || status == not_applicable

-- `x[index[id]]`, for an id of the index.
unfoldable pub bit_of : List Bool → Dict ℕ → String → Bool
bit_of x index id = elim (get id index) [ some i ↦ bit_at x i | none ↦ false ]

unfoldable pub encoded_violation_count :
    List BitChar → Dict ℕ → List SchedulingConflict → List String → ℕ
encoded_violation_count bits index conflicts mandatory =
    let x = map is_one bits in
    count (λ c. bit_of x index c.opportunity_a && bit_of x index c.opportunity_b) conflicts
    + count (λ m. not (bit_of x index m)) mandatory

-- `product("01", repeat=n)`.
unfoldable pub all_bits : ℕ → List (List BitChar)
all_bits zero = [] ∷ []
all_bits (suc n) =
    let rest = all_bits n in map (λ bits. zero_bit ∷ bits) rest ++ map (λ bits. one_bit ∷ bits) rest

pub record Bests : Type 0 where
  pub best_feasible : Option ℤ
  pub best_infeasible : Option ℤ

-- `min(best, energy)`.
abbrev pub lower : Option ℤ → ℤ → Option ℤ
lower none energy = some energy
lower (some best) energy = some (if ltb_ℤ energy best then energy else best)

abbrev pub update : Bool → ℤ → Bests → Bests
update true energy b = record b { best_feasible = lower b.best_feasible energy }
update false energy b = record b { best_infeasible = lower b.best_infeasible energy }

-- The loop over the assignments.
unfoldable pub search_energies :
    QuboModel → (List BitChar → ℕ) → List (List BitChar) → Bests → Result BitstringError Bests
search_energies q violations [] bests = ok bests
search_energies q violations (bits ∷ rest) bests = qubo_energy q bits >>= λ energy.
    search_energies q violations rest (update (violations bits == 0) energy bests)

abbrev pub is_some : {A : Type 0} → Option A → Bool
is_some none = false
is_some (some a) = true

-- A missing best on the second side is infinite.
abbrev pub strictly_below : Option ℤ → Option ℤ → Bool
strictly_below none _ = false
strictly_below (some a) none = true
strictly_below (some a) (some b) = ltb_ℤ a b

-- `exists and (not isfinite(best_infeasible) or best_feasible < best_infeasible)`.
unfoldable pub proves_sufficient : Bests → Bool
proves_sufficient b = strictly_below b.best_feasible b.best_infeasible

pub data PolicyError : Type 0 where
  qubo_failed : QuboError → PolicyError
  bits_failed : BitstringError → PolicyError

abbrev pub lift_qubo : {A : Type 0} → Result QuboError A → Result PolicyError A
lift_qubo (ok a) = ok a
lift_qubo (err e) = err (qubo_failed e)

abbrev pub lift_bits : {A : Type 0} → Result BitstringError A → Result PolicyError A
lift_bits (ok a) = ok a
lift_bits (err e) = err (bits_failed e)

-- The violations of the encoded constraints.
abbrev pub violations_of : SchedulingProblem → List BitChar → ℕ
violations_of p bits =
    encoded_violation_count bits (enumerate_from 0 (variable_order p)) (generate_conflicts p)
      (to_set p.constraints.mandatory)

-- The exhaustive search over a problem's assignments.
unfoldable pub exhaustive_bests : SchedulingProblem → Result PolicyError Bests
exhaustive_bests p = lift_qubo (build_qubo p) >>= λ q. lift_bits (
    search_energies q (violations_of p) (all_bits (length (variable_order p)))
      (record { best_feasible = none; best_infeasible = none }))

pub record Verdict : Type 0 where
  pub status : PenaltyProofStatus
  pub exists : Bool
  pub sufficient : Bool
  pub method : ProofMethod

abbrev pub exhaustive_verdict : Bests → Verdict
exhaustive_verdict b = record {
  status = if proves_sufficient b then proven_sufficient else proven_unsafe;
  exists = is_some b.best_feasible;
  sufficient = proves_sufficient b;
  method = exhaustive;
}

abbrev pub has_encoded : SchedulingProblem → Bool
has_encoded p = length (generate_conflicts p) != 0 || length (to_set p.constraints.mandatory) != 0

abbrev pub verdict : PenaltyProofStatus → Bool → Bool → ProofMethod → Verdict
verdict status exists sufficient method = record {
  status = status;
  exists = exists;
  sufficient = sufficient;
  method = method;
}

-- The penalty when it is valid.
abbrev pub valid_penalty : {E : Type 0} → Result E ℕ → Option ℕ
valid_penalty (ok penalty) = if ltb 0 penalty then some penalty else none
valid_penalty (err e) = none

-- The last decisions, for a valid penalty.
unfoldable pub sized_verdict : SchedulingProblem → ℕ → Result PolicyError Verdict
sized_verdict p penalty =
    if leb (length (variable_order p)) exhaustive_max_vars
    then exhaustive_bests p >>= (λ b. ok (exhaustive_verdict b))
    else ok (
        if ltb (total_weighted_value_bound p) penalty
        then verdict proven_sufficient true true analytical_bound
        else verdict unproven true false analytical_bound)

-- The order of decisions.
unfoldable pub decide_policy : SchedulingProblem → Option ℕ → Result PolicyError Verdict
decide_policy p penalty =
    if not (has_encoded p)
    then ok (verdict not_applicable true true analytic_satisfiability)
    else if not (encoded_constraints_satisfiable p)
    then ok (verdict contradictory false false analytic_satisfiability)
    else elim penalty [
      | none ↦ ok (verdict proven_unsafe true false analytic_satisfiability)
      | some c ↦ sized_verdict p c
    ]

abbrev pub penalty_source : Option ℕ → PenaltySource
penalty_source (some c) = explicit
penalty_source none = auto_weighted_bound

unfoldable pub penalty_policy : SchedulingProblem → Result PolicyError PenaltyPolicy
penalty_policy p =
    let penalty = valid_penalty (resolved_penalty p) in
    decide_policy p penalty >>= λ v. ok (record {
      penalty = penalty;
      source = penalty_source p.objective.penalty_coefficient;
      total_weighted_value_bound = total_weighted_value_bound p;
      satisfying_encoded_assignment_exists = v.exists;
      sufficient = v.sufficient;
      method = v.method;
      proof_status = v.status;
    })
