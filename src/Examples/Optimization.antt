-- ===== src/Examples/Optimization.antt =====
-- Concrete scheduling problems: two overlapping observations of one satellite, the first mandatory, and
-- one whose least value no single observation reaches.
use Prim.Native.Nat.{◌^◌}
use orbit_mind_living_q_core.Common.{
  ◌↔◌, ◌⊎◌, ◌==◌, nat_eq, ℕ, ◌≤◌, ◌≡◌, refl, String, true, false, Option, none, some, List, [], ◌∷◌,
  length, ok, pos, String-discrete, get, ◌+ℤ◌, ◌-ℤ◌, arith,
}
use native.Mathlib.Decide.{ℕ_discrete}
use orbit_mind_living_q_core.Optimization.Models.{
  ObservationOpportunity, ConstraintSet, SchedulingProblem, OptimalityStatus, ExperimentStatus,
  ScheduleEvaluation, QuboModel, PenaltyProofStatus,
}
use orbit_mind_living_q_core.Optimization.Problem.{
  variable_order, canonical_opportunities, canonical_mutex, check_registries, normalize_problem,
  overlaps_with, overlap_conflicts, exclusion_conflicts, generate_conflicts,
  total_weighted_value_bound, resolved_penalty,
}
use orbit_mind_living_q_core.Optimization.Evaluation.{
  Evaluator, evaluator_at, make_evaluator, opportunity_of, field_of, chosen, accumulate, totals,
  capacity_of, above_limit, capacity_violations, both_selected, penalized_count,
  max_observation_violations, per_target_violations, min_value_violations, raw_value,
  find_violations, evaluate, BitChar, one_bit, decode, evaluate_bitstring, bitstring,
}
use orbit_mind_living_q_core.Optimization.Evaluation.Selections.{chosen-bitstring}
use orbit_mind_living_q_core.Optimization.Evaluation.Exclusive.{
  MeetsConstraints, evaluate-MeetsConstraints_iff,
}
use orbit_mind_living_q_core.Optimization.Qubo.{
  enumerate_from, linear_terms, add_coefficient, index_at, quadratic_terms, weighted_value_of,
  qubo_at, build_qubo, bit_at, add_linear, add_quadratic, qubo_energy,
}
use orbit_mind_living_q_core.Optimization.Qubo.Energy.{qubo_energy-objective}
use orbit_mind_living_q_core.Optimization.Penalties.{
  auto_weighted_bound, exhaustive, PenaltyPolicy, encoded_constraints_satisfiable, bit_of,
  encoded_violation_count, violations_of, all_bits, search_energies, proves_sufficient,
  exhaustive_bests, sized_verdict, decide_policy, penalty_policy,
}
use orbit_mind_living_q_core.Optimization.Penalties.Counts.{encoded_constraints_satisfiable_iff}
use orbit_mind_living_q_core.Optimization.Penalties.Sound.{IsUndercut, penalty_policy-separates}
use orbit_mind_living_q_core.Optimization.Solvers.{build_result}
use orbit_mind_living_q_core.Optimization.Solvers.Exact.{
  selected_by, improve, search_masks, conclude, solve_exact,
}
use orbit_mind_living_q_core.Optimization.Solvers.Answers.{
  IsAnswer, solve_exact-IsAnswer, solve_exact-decides,
}
use orbit_mind_living_q_core.Optimization.Solvers.Greedy.{
  comes_first, extend, others, finish, solve_greedy,
}
use orbit_mind_living_q_core.Optimization.Solvers.Heuristic.{
  IsGreedy, solve_greedy-IsGreedy, solve_greedy-solve_exact,
}
use orbit_mind_living_q_core.Optimization.Problem.Normal.{IsNormal, normalize_problem-IsNormal}

abbrev digest : SchedulingProblem → String
digest p = "9f2c"

abbrev observation : String → ℕ → ℕ → ℕ → ℕ → ObservationOpportunity
observation id from until value duration = record {
  id = id;
  satellite_id = "sat-1";
  target_id = "port";
  window = record { start = from; end = until };
  mission_value = value;
  duration_seconds = duration;
  energy_cost = 2;
  storage_cost = 1;
  pointing_cost = 0;
  priority = 1;
}

abbrev rules : Option ℕ → List String → ConstraintSet
rules least mandatory = record {
  max_observations = none;
  mutually_exclusive = [];
  mandatory = mandatory;
  per_target_limit = none;
  min_mission_value = least;
  enforce_no_overlap = true;
  enforce_energy_capacity = true;
  enforce_storage_capacity = false;
}

abbrev problem : List ObservationOpportunity → ConstraintSet → String → SchedulingProblem
problem os constraints checksum = record {
  name = "harbour";
  opportunities = os;
  satellites = record { id = "sat-1"; energy_capacity = 5; storage_capacity = 5 } ∷ [];
  targets = record { id = "port"; priority = 1 } ∷ [];
  constraints = constraints;
  objective = record { mission_value_weight = 2; penalty_coefficient = none };
  limits = record { max_variables = 20; exact_max_variables = 20 };
  checksum = checksum;
}

-- As it is submitted, and normalized.
abbrev submitted : SchedulingProblem
submitted =
    problem (observation "b" 5 15 4 0 ∷ observation "a" 0 10 3 0 ∷ []) (rules none ("a" ∷ [])) ""

abbrev harbour : SchedulingProblem
harbour =
    problem (observation "b" 5 15 4 10 ∷ observation "a" 0 10 3 10 ∷ []) (rules none ("a" ∷ []))
      "9f2c"

normalize_runs : normalize_problem digest submitted ≡ ok harbour
unfolding normalize_problem check_registries canonical_opportunities canonical_mutex String-discrete
    ℕ_discrete
normalize_runs = refl

harbour-IsNormal : IsNormal harbour
harbour-IsNormal = (normalize_problem-IsNormal digest submitted harbour normalize_runs).0

-- The automatic penalty is 15, one more than twice the sum of the values.
abbrev evaluator : Evaluator
evaluator = evaluator_at harbour 15

exact_runs : (solve_exact evaluator (λ _. false)).objective_value ≡ some 6
unfolding variable_order generate_conflicts overlap_conflicts overlaps_with exclusion_conflicts
    evaluate chosen find_violations raw_value field_of opportunity_of penalized_count both_selected
    capacity_violations totals accumulate above_limit capacity_of max_observation_violations
    per_target_violations min_value_violations String-discrete ℕ_discrete solve_exact search_masks
    selected_by improve conclude build_result
exact_runs = refl

exact_optimal : (solve_exact evaluator (λ _. false)).optimality_status ≡ OptimalityStatus.optimal
unfolding variable_order generate_conflicts overlap_conflicts overlaps_with exclusion_conflicts
    evaluate chosen find_violations raw_value field_of opportunity_of penalized_count both_selected
    capacity_violations totals accumulate above_limit capacity_of max_observation_violations
    per_target_violations min_value_violations String-discrete ℕ_discrete solve_exact search_masks
    selected_by improve conclude build_result
exact_optimal = refl

solve_exact-IsAnswer_example : IsAnswer evaluator (solve_exact evaluator (λ _. false))
solve_exact-IsAnswer_example = solve_exact-IsAnswer evaluator (λ _. false)

two_variables : length evaluator.order ≤ evaluator.problem.limits.exact_max_variables
unfolding variable_order
two_variables = omega arith

solve_exact-decides_example :
    ((solve_exact evaluator (λ _. false)).status ≡ ExperimentStatus.completed)
    × ((solve_exact evaluator (λ _. false)).evaluated_candidates ≡ 2 ^ length evaluator.order)
    × (((solve_exact evaluator (λ _. false)).optimality_status ≡ OptimalityStatus.optimal)
        ⊎ ((solve_exact evaluator (λ _. false)).optimality_status ≡ OptimalityStatus.infeasible))
solve_exact-decides_example = solve_exact-decides evaluator (λ _. false) two_variables (λ m. refl)

greedy_feasible : (solve_greedy evaluator).feasible ≡ true
unfolding variable_order generate_conflicts overlap_conflicts overlaps_with exclusion_conflicts
    evaluate chosen find_violations raw_value field_of opportunity_of penalized_count both_selected
    capacity_violations totals accumulate above_limit capacity_of max_observation_violations
    per_target_violations min_value_violations String-discrete ℕ_discrete solve_greedy extend others
    comes_first finish build_result
greedy_feasible = refl

solve_greedy-IsGreedy_example :
    IsGreedy evaluator (solve_greedy evaluator)
    × ((evaluate evaluator evaluator.mandatory).feasible ≡ true
        → (solve_greedy evaluator).feasible ≡ true)
    × ((solve_greedy evaluator).evaluated_candidates ≤ 3)
solve_greedy-IsGreedy_example = solve_greedy-IsGreedy evaluator

-- Both solvers end with the mandatory observation alone.
exact_best : (solve_exact evaluator (λ _. false)).evaluation ≡ some (evaluate evaluator ("a" ∷ []))
unfolding variable_order generate_conflicts overlap_conflicts overlaps_with exclusion_conflicts
    evaluate chosen find_violations raw_value field_of opportunity_of penalized_count both_selected
    capacity_violations totals accumulate above_limit capacity_of max_observation_violations
    per_target_violations min_value_violations String-discrete ℕ_discrete solve_exact search_masks
    selected_by improve conclude build_result
exact_best = refl

greedy_best : (solve_greedy evaluator).evaluation ≡ some (evaluate evaluator ("a" ∷ []))
unfolding variable_order generate_conflicts overlap_conflicts overlaps_with exclusion_conflicts
    evaluate chosen find_violations raw_value field_of opportunity_of penalized_count both_selected
    capacity_violations totals accumulate above_limit capacity_of max_observation_violations
    per_target_violations min_value_violations String-discrete ℕ_discrete solve_greedy extend others
    comes_first finish build_result
greedy_best = refl

solve_greedy-solve_exact_example :
    (evaluate evaluator ("a" ∷ [])).objective_value
    ≤ (evaluate evaluator ("a" ∷ [])).objective_value
solve_greedy-solve_exact_example =
    solve_greedy-solve_exact evaluator (λ _. false) exact_optimal greedy_feasible
      (evaluate evaluator ("a" ∷ [])) (evaluate evaluator ("a" ∷ [])) exact_best greedy_best

evaluate-MeetsConstraints_iff_example :
    ((evaluate evaluator ("b" ∷ "a" ∷ [])).feasible ≡ true)
    ↔ MeetsConstraints harbour (chosen evaluator ("b" ∷ "a" ∷ []))
evaluate-MeetsConstraints_iff_example = evaluate-MeetsConstraints_iff harbour 15 ("b" ∷ "a" ∷ [])

chosen-bitstring_example :
    chosen evaluator (decode evaluator.order (bitstring ("b" ∷ []) evaluator.order))
    ≡ chosen evaluator ("b" ∷ [])
chosen-bitstring_example = chosen-bitstring evaluator ("b" ∷ [])

encoded_constraints_satisfiable_iff_example :
    (encoded_constraints_satisfiable harbour ≡ true)
    ↔ ((selected : List String) × (penalized_count evaluator (chosen evaluator selected) ≡ 0))
encoded_constraints_satisfiable_iff_example =
    encoded_constraints_satisfiable_iff harbour 15 harbour-IsNormal

-- Both bits set: the two observations overlap.
abbrev both : List BitChar
both = one_bit ∷ one_bit ∷ []

two_bits : length both ≡ length (variable_order harbour)
unfolding variable_order
two_bits = refl

qubo_energy-objective_example :
    (q : QuboModel) × (ev : Evaluator) × (s : ScheduleEvaluation) × (build_qubo harbour ≡ ok q)
    × (make_evaluator harbour ≡ ok ev)
    × (evaluate_bitstring ev both ≡ ok s)
    × (qubo_energy q both ≡ ok (pos 0 -ℤ s.penalized_objective))
qubo_energy-objective_example = qubo_energy-objective harbour both harbour-IsNormal two_bits refl

-- The quadratic term of the overlap, at the penalty.
abbrev harbour_qubo : QuboModel
harbour_qubo = qubo_at harbour 15 (((0, 1), pos 15) ∷ [])

qubo_runs : build_qubo harbour ≡ ok harbour_qubo
unfolding variable_order generate_conflicts overlap_conflicts overlaps_with exclusion_conflicts
    evaluate chosen find_violations raw_value field_of opportunity_of penalized_count both_selected
    capacity_violations totals accumulate above_limit capacity_of max_observation_violations
    per_target_violations min_value_violations String-discrete ℕ_discrete resolved_penalty
    total_weighted_value_bound build_qubo quadratic_terms index_at get add_coefficient
    enumerate_from linear_terms weighted_value_of qubo_energy add_linear add_quadratic bit_at ◌+ℤ◌
qubo_runs = refl

energy_runs : qubo_energy harbour_qubo both ≡ ok (pos 1)
unfolding variable_order generate_conflicts overlap_conflicts overlaps_with exclusion_conflicts
    evaluate chosen find_violations raw_value field_of opportunity_of penalized_count both_selected
    capacity_violations totals accumulate above_limit capacity_of max_observation_violations
    per_target_violations min_value_violations String-discrete ℕ_discrete resolved_penalty
    total_weighted_value_bound build_qubo quadratic_terms index_at get add_coefficient
    enumerate_from linear_terms weighted_value_of qubo_energy add_linear add_quadratic bit_at ◌+ℤ◌
energy_runs = refl

abbrev harbour_policy : PenaltyPolicy
harbour_policy = record {
  penalty = some 15;
  source = auto_weighted_bound;
  total_weighted_value_bound = 14;
  satisfying_encoded_assignment_exists = true;
  sufficient = true;
  method = exhaustive;
  proof_status = PenaltyProofStatus.proven_sufficient;
}

policy_runs : penalty_policy harbour ≡ ok harbour_policy
unfolding variable_order generate_conflicts overlap_conflicts overlaps_with exclusion_conflicts
    evaluate chosen find_violations raw_value field_of opportunity_of penalized_count both_selected
    capacity_violations totals accumulate above_limit capacity_of max_observation_violations
    per_target_violations min_value_violations String-discrete ℕ_discrete resolved_penalty
    total_weighted_value_bound build_qubo quadratic_terms index_at get add_coefficient
    enumerate_from linear_terms weighted_value_of qubo_energy add_linear add_quadratic bit_at ◌+ℤ◌
    penalty_policy decide_policy sized_verdict exhaustive_bests search_energies all_bits
    encoded_violation_count bit_of proves_sufficient encoded_constraints_satisfiable
policy_runs = refl

both_violate : (violations_of harbour both == 0) ≡ false
unfolding variable_order generate_conflicts overlap_conflicts overlaps_with exclusion_conflicts
    evaluate chosen find_violations raw_value field_of opportunity_of penalized_count both_selected
    capacity_violations totals accumulate above_limit capacity_of max_observation_violations
    per_target_violations min_value_violations String-discrete ℕ_discrete resolved_penalty
    total_weighted_value_bound build_qubo quadratic_terms index_at get add_coefficient
    enumerate_from linear_terms weighted_value_of qubo_energy add_linear add_quadratic bit_at ◌+ℤ◌
    penalty_policy decide_policy sized_verdict exhaustive_bests search_energies all_bits
    encoded_violation_count bit_of proves_sufficient encoded_constraints_satisfiable
both_violate = refl

penalty_policy-separates_example : IsUndercut harbour harbour_qubo (pos 1)
penalty_policy-separates_example =
    penalty_policy-separates harbour harbour_policy harbour_qubo both (pos 1) harbour-IsNormal
      policy_runs refl (two_bits, refl) both_violate qubo_runs energy_runs

-- A least value that only both observations together reach, with no overlap: the greedy solver adds
-- one at a time and reports the problem infeasible, the exhaustive one solves it.
abbrev quota : SchedulingProblem
quota =
    problem (observation "a" 0 10 3 10 ∷ observation "b" 20 30 4 10 ∷ []) (rules (some 10) [])
      "9f2c"

greedy_gives_up :
    (solve_greedy (evaluator_at quota 15)).optimality_status ≡ OptimalityStatus.infeasible
unfolding variable_order generate_conflicts overlap_conflicts overlaps_with exclusion_conflicts
    evaluate chosen find_violations raw_value field_of opportunity_of penalized_count both_selected
    capacity_violations totals accumulate above_limit capacity_of max_observation_violations
    per_target_violations min_value_violations String-discrete ℕ_discrete solve_greedy extend others
    comes_first finish build_result
greedy_gives_up = refl

exact_solves : (solve_exact (evaluator_at quota 15) (λ _. false)).objective_value ≡ some 14
unfolding variable_order generate_conflicts overlap_conflicts overlaps_with exclusion_conflicts
    evaluate chosen find_violations raw_value field_of opportunity_of penalized_count both_selected
    capacity_violations totals accumulate above_limit capacity_of max_observation_violations
    per_target_violations min_value_violations String-discrete ℕ_discrete solve_exact search_masks
    selected_by improve conclude build_result
exact_solves = refl
