-- ===== src/Optimization/Solvers.antt =====
-- src/orbitmind/optimization/solvers/base.py: the result of a solver. The seed, the times, the
-- versions and the texts of a result are left out.
pub mod Exact
pub mod Optimum
pub mod Answers
pub mod Greedy
pub mod Heuristic
use orbit_mind_living_q_core.Common.{
  ℕ, String, Bool, true, false, Option, none, some, List, ℤ, sub_ℕ,
}
use orbit_mind_living_q_core.Optimization.Models.{
  ExperimentStatus, OptimalityStatus, ScheduleEvaluation,
}

pub record SolverResult : Type 0 where
  pub problem_checksum : String
  pub status : ExperimentStatus
  pub schedule : Option (List String)
  pub evaluation : Option ScheduleEvaluation
  pub optimality_status : OptimalityStatus
  pub objective_value : Option ℕ
  pub known_optimum : Option ℕ
  pub objective_gap : Option ℤ
  pub feasible : Bool
  pub evaluated_candidates : ℕ

abbrev pub gap_of : Option ℕ → ScheduleEvaluation → Option ℤ
gap_of none e = none
gap_of (some known) e = elim e.feasible [
  | true ↦ some (sub_ℕ known e.objective_value)
  | false ↦ none
]

-- `build_result`, by whether there is an evaluation.
unfoldable pub build_result :
    String
    → Option ScheduleEvaluation
    → ExperimentStatus
    → OptimalityStatus
    → Option ℕ
    → ℕ
    → SolverResult
build_result checksum none status optimality known_optimum evaluated = record {
  problem_checksum = checksum;
  status = status;
  schedule = none;
  evaluation = none;
  optimality_status = optimality;
  objective_value = none;
  known_optimum = known_optimum;
  objective_gap = none;
  feasible = false;
  evaluated_candidates = evaluated;
}
build_result checksum (some e) status optimality known_optimum evaluated = record {
  problem_checksum = checksum;
  status = status;
  schedule = some e.selected_opportunity_ids;
  evaluation = some e;
  optimality_status = optimality;
  objective_value = some e.objective_value;
  known_optimum = known_optimum;
  objective_gap = gap_of known_optimum e;
  feasible = e.feasible;
  evaluated_candidates = evaluated;
}
