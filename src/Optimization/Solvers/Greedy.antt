-- ===== src/Optimization/Solvers/Greedy.antt =====
-- src/orbitmind/optimization/solvers/greedy.py: the greedy solver. A density is the fraction of a value
-- by a duration, and fractions are compared across.
use orbit_mind_living_q_core.Common.{
  ℕ, suc, ◌*◌, String, Bool, true, false, not, ◌&&◌, none, some, List, [], ◌∷◌, ltb, if◌then◌else◌,
  ◌==◌, nat_eq, string_eq, length, keep, contains, str_leb, sorted_by,
}
use orbit_mind_living_q_core.Optimization.Models.{
  ObservationOpportunity, ExperimentStatus, OptimalityStatus, ScheduleEvaluation,
}
use orbit_mind_living_q_core.Optimization.Evaluation.{Evaluator, evaluate}
use orbit_mind_living_q_core.Optimization.Solvers.{SolverResult, build_result}

-- The density's numerator and denominator; 0.0 for no duration.
abbrev pub density : ObservationOpportunity → ℕ × ℕ
density o = if o.duration_seconds == 0 then (0, 1) else (o.mission_value, o.duration_seconds)

abbrev pub denser : ℕ × ℕ → ℕ × ℕ → Bool
denser d e = ltb (e.0 * d.1) (d.0 * e.1)

-- The order of `_ordering_key`: density descending, value descending, id ascending.
unfoldable pub comes_first : ObservationOpportunity → ObservationOpportunity → Bool
comes_first a b =
    if denser (density a) (density b)
    then true
    else if denser (density b) (density a)
    then false
    else if ltb b.mission_value a.mission_value
    then true
    else if ltb a.mission_value b.mission_value
    then false
    else str_leb a.id b.id

-- The loop over the other opportunities, with the counter of the evaluations.
unfoldable pub extend : Evaluator → List ObservationOpportunity → List String → ℕ → List String × ℕ
extend ev [] selected evaluated = (selected, evaluated)
extend ev (o ∷ rest) selected evaluated =
    extend ev rest (if (evaluate ev (o.id ∷ selected)).feasible then o.id ∷ selected else selected)
      (suc evaluated)

unfoldable pub others : Evaluator → List ObservationOpportunity
others ev =
    sorted_by comes_first (keep (λ o. not (contains o.id ev.mandatory)) ev.problem.opportunities)

-- The result of the last selection.
unfoldable pub finish : String → ScheduleEvaluation → ℕ → SolverResult
finish checksum e evaluated =
    build_result checksum (some e) ExperimentStatus.completed
      (if e.feasible then OptimalityStatus.feasible else OptimalityStatus.infeasible) none evaluated

unfoldable pub solve_greedy : Evaluator → SolverResult
solve_greedy ev =
    let checksum = ev.problem.checksum in
    let seed_eval = evaluate ev ev.mandatory in
    let evaluated = if length ev.mandatory == 0 then 0 else 1 in
    let last = extend ev (others ev) ev.mandatory evaluated in
    if not (length ev.mandatory == 0) && not seed_eval.feasible
    then build_result checksum (some seed_eval) ExperimentStatus.completed
        OptimalityStatus.infeasible none evaluated
    else finish checksum (evaluate ev last.0) last.1
