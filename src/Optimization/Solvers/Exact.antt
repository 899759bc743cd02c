-- ===== src/Optimization/Solvers/Exact.antt =====
-- src/orbitmind/optimization/solvers/exact.py: the exhaustive solver. The clock is a parameter: whether
-- its reading at a mask is past the deadline.
use Prim.Native.Nat.{◌/◌, ◌%◌, ◌^◌}
use orbit_mind_living_q_core.Common.{
  ℕ, zero, suc, String, Bool, true, false, ◌&&◌, Option, none, some, List, [], ◌∷◌, ltb,
  if◌then◌else◌, ◌==◌, nat_eq, length,
}
use orbit_mind_living_q_core.Optimization.Models.{
  ExperimentStatus, OptimalityStatus, ScheduleEvaluation,
}
use orbit_mind_living_q_core.Optimization.Evaluation.{Evaluator, evaluate}
use orbit_mind_living_q_core.Optimization.Solvers.{SolverResult, build_result}

-- `{order[i] for i in range(n) if (mask >> i) & 1}`.
unfoldable pub selected_by : List String → ℕ → List String
selected_by [] mask = []
selected_by (id ∷ ids) mask =
    let rest = selected_by ids (mask / 2) in if mask % 2 == 1 then id ∷ rest else rest

pub record SearchState : Type 0 where
  pub best_eval : Option ScheduleEvaluation
  pub evaluated : ℕ
  pub timed_out : Bool

-- `ev.feasible and ev.objective_value > best_obj`.
unfoldable pub improve : Option ScheduleEvaluation → ScheduleEvaluation → Option ScheduleEvaluation
improve none e = if e.feasible then some e else none
improve (some best) e =
    if e.feasible && ltb best.objective_value e.objective_value then some e else some best

abbrev pub visit : Evaluator → ℕ → SearchState → SearchState
visit ev mask st = record {
  best_eval = improve st.best_eval (evaluate ev (selected_by ev.order mask));
  evaluated = suc st.evaluated;
  timed_out = st.timed_out;
}

-- The deadline is read at every 1024th mask.
abbrev pub stops : (ℕ → Bool) → ℕ → Bool
stops expired mask = mask % 1024 == 0 && expired mask

-- The loop, by the number of masks left.
unfoldable pub search_masks : Evaluator → (ℕ → Bool) → ℕ → ℕ → SearchState → SearchState
search_masks ev expired zero mask st = st
search_masks ev expired (suc left) mask st =
    let rest = search_masks ev expired left (suc mask) (visit ev mask st) in
    if stops expired mask then record st { timed_out = true } else rest

abbrev pub start : SearchState
start = record { best_eval = none; evaluated = 0; timed_out = false }

-- The result of a loop, by its best evaluation, whether it timed out, and its count.
unfoldable pub conclude : String → Option ScheduleEvaluation → Bool → ℕ → SolverResult
conclude checksum none timed_out evaluated =
    build_result checksum none
      (if timed_out then ExperimentStatus.timed_out else ExperimentStatus.completed)
      (if timed_out then OptimalityStatus.unknown else OptimalityStatus.infeasible) none evaluated
conclude checksum (some best) timed_out evaluated =
    build_result checksum (some best)
      (if timed_out then ExperimentStatus.timed_out else ExperimentStatus.completed)
      (if timed_out then OptimalityStatus.feasible else OptimalityStatus.optimal)
      (if timed_out then none else some best.objective_value) evaluated

unfoldable pub solve_exact : Evaluator → (ℕ → Bool) → SolverResult
solve_exact ev expired =
    let n = length ev.order in
    let checksum = ev.problem.checksum in
    let st = search_masks ev expired (2 ^ n) 0 start in
    if ltb ev.problem.limits.exact_max_variables n
    then build_result checksum none ExperimentStatus.unsupported OptimalityStatus.unknown none 0
    else conclude checksum st.best_eval st.timed_out st.evaluated
