-- ===== src/Optimization/Solvers/Answers.antt =====
-- src/orbitmind/optimization/solvers/exact.py: what the answers of the exhaustive solver say.
use Prim.Native.Nat.{◌^◌}
use orbit_mind_living_q_core.Common.{
  ℕ, ◌≤◌, ◌≡◌, refl, ◌∙◌, subst, inl, inr, ◌⊎◌, String, Bool, true, false, Option, none, some, List,
  ltb, length, Bool-cases, arith,
}
use orbit_mind_living_q_core.Optimization.Models.{ExperimentStatus, ScheduleEvaluation}
use orbit_mind_living_q_core.Optimization.Models.OptimalityStatus.{optimal, infeasible}
use orbit_mind_living_q_core.Optimization.Evaluation.{Evaluator, evaluate}
use orbit_mind_living_q_core.Optimization.Solvers.{SolverResult, build_result}
use orbit_mind_living_q_core.Optimization.Solvers.Exact.{search_masks, start, conclude, solve_exact}
use orbit_mind_living_q_core.Optimization.Solvers.Optimum.{
  IsCovered, IsFound, search_masks-IsSearched, search_masks-finishes, start-IsSearched,
  all_selections,
}

-- The specification of an optimum: a feasible schedule that no feasible schedule beats.
pub record IsOptimum (ev : Evaluator) (best : ScheduleEvaluation) : Type 0 where
  pub is_feasible : best.feasible ≡ true
  pub is_schedule : (selected : List String) × (best ≡ evaluate ev selected)
  pub is_best :
      (selected : List String)
      → (evaluate ev selected).feasible ≡ true
      → (evaluate ev selected).objective_value ≤ best.objective_value

abbrev pub NoneFeasible : Evaluator → Type 0
NoneFeasible ev = (selected : List String) → (evaluate ev selected).feasible ≡ false

abbrev pub IsAnswer : Evaluator → SolverResult → Type 0
IsAnswer ev r =
    (r.optimality_status ≡ optimal
      → (best : ScheduleEvaluation) × (r.evaluation ≡ some best)
        × IsOptimum ev best
        × (r.known_optimum ≡ some best.objective_value))
    × (r.optimality_status ≡ infeasible → NoneFeasible ev)
    × ((e : ScheduleEvaluation) → r.evaluation ≡ some e → e.feasible ≡ true)

module _ (ev : Evaluator) (best : Option ScheduleEvaluation) (found : IsFound ev best)
    (covered : (selected : List String) → IsCovered best (evaluate ev selected)) where
  none_feasible : best ≡ none → NoneFeasible ev
  none_feasible e selected = elim (Bool-cases (evaluate ev selected).feasible) [
    | inr bad ↦ bad
    | inl good ↦ let (b, there, le) = covered selected good in absurd (ground arith)
  ]

  best-IsOptimum : (b : ScheduleEvaluation) → best ≡ some b → IsOptimum ev b
  best-IsOptimum b e =
      let (good, schedule) = found b e in
      record {
        is_feasible = good;
        is_schedule = schedule;
        is_best = λ selected good.
            let (c, there, le) = covered selected good in
            let same : c ≡ b = ground arith in
            subst (λ b. (evaluate ev selected).objective_value ≤ b.objective_value) same le;
      }

conclude-IsAnswer :
    (ev : Evaluator) (checksum : String) (best : Option ScheduleEvaluation) (timed_out : Bool)
    (evaluated : ℕ)
    → IsFound ev best
    → (timed_out ≡ false → (selected : List String) → IsCovered best (evaluate ev selected))
    → IsAnswer ev (conclude checksum best timed_out evaluated)
unfolding conclude build_result
conclude-IsAnswer ev checksum none true evaluated found covered =
    (λ e. absurd (ground arith), λ e. absurd (ground arith), λ b e. absurd (ground arith))
conclude-IsAnswer ev checksum none false evaluated found covered = (
  λ e. absurd (ground arith),
  λ _. none_feasible ev none found (covered refl) refl,
  λ b e. absurd (ground arith),
)
conclude-IsAnswer ev checksum (some b) true evaluated found covered =
    (λ e. absurd (ground arith), λ e. absurd (ground arith), λ c e. (found c e).0)
conclude-IsAnswer ev checksum (some b) false evaluated found covered = (
  λ _. (b, refl, best-IsOptimum ev (some b) found (covered refl) b refl, refl),
  λ e. absurd (ground arith),
  λ c e. (found c e).0,
)

-- Whatever the clock says, the solver calls a schedule optimal only when it is feasible and no
-- selection has a feasible evaluation of a higher value, it calls the problem infeasible only when no
-- selection is feasible, and a schedule that it returns is feasible.
pub solve_exact-IsAnswer :
    (ev : Evaluator) (expired : ℕ → Bool) → IsAnswer ev (solve_exact ev expired)
unfolding solve_exact build_result
solve_exact-IsAnswer ev expired =
    let n = length ev.order in
    let st = search_masks ev expired (2 ^ n) 0 start in
    let (found, all) =
      search_masks-IsSearched ev expired (2 ^ n) 0 start (start-IsSearched ev) refl in
    let answer =
      conclude-IsAnswer ev ev.problem.checksum st.best_eval st.timed_out st.evaluated found
        (λ e selected. all_selections ev st selected (all e)) in
    elim (Bool-cases (ltb ev.problem.limits.exact_max_variables n)) [
      | inl large ↦
          rw large
            (λ e. absurd (ground arith), λ e. absurd (ground arith), λ b e. absurd (ground arith))
      | inr small ↦ rw small answer
    ]

decided :
    (checksum : String) (best : Option ScheduleEvaluation) (evaluated total : ℕ)
    → evaluated ≡ total
    → let r = conclude checksum best false evaluated in
      (r.status ≡ ExperimentStatus.completed)
      × (r.evaluated_candidates ≡ total)
      × ((r.optimality_status ≡ optimal) ⊎ (r.optimality_status ≡ infeasible))
unfolding conclude build_result
decided checksum none evaluated total e = (refl, e, inr refl)
decided checksum (some b) evaluated total e = (refl, e, inl refl)

-- Within the size limit and with a clock that never passes the deadline, the solver visits all 2 ^ n
-- selections, completes, and calls its answer optimal or the problem infeasible.
pub solve_exact-decides :
    (ev : Evaluator) (expired : ℕ → Bool)
    → length ev.order ≤ ev.problem.limits.exact_max_variables
    → ((m : ℕ) → expired m ≡ false)
    → let r = solve_exact ev expired in
      (r.status ≡ ExperimentStatus.completed)
      × (r.evaluated_candidates ≡ 2 ^ length ev.order)
      × ((r.optimality_status ≡ optimal) ⊎ (r.optimality_status ≡ infeasible))
unfolding solve_exact
solve_exact-decides ev expired small never =
    let n = length ev.order in
    let st = search_masks ev expired (2 ^ n) 0 start in
    let done = search_masks-finishes ev expired (2 ^ n) 0 start never refl in
    let (found, all) =
      search_masks-IsSearched ev expired (2 ^ n) 0 start (start-IsSearched ev) refl in
    let fits : ltb ev.problem.limits.exact_max_variables n ≡ false = ground arith in
    let counted : st.evaluated ≡ 2 ^ n = (all done).counted ∙ omega arith in
    rw (fits, done) (decided ev.problem.checksum st.best_eval st.evaluated (2 ^ n) counted)
