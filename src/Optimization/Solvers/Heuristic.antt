-- ===== src/Optimization/Solvers/Heuristic.antt =====
-- src/orbitmind/optimization/solvers/greedy.py: what the greedy answers promise, and how they compare
-- with the exhaustive ones.
use orbit_mind_living_q_core.Common.{
  ℕ, suc, ◌+◌, ◌≤◌, false, ◌&&◌, ◌≡◌, refl, ◌∙◌, sym, subst, inl, inr, String, Bool, true, not,
  some, List, [], ◌∷◌, if◌then◌else◌, ◌==◌, nat_eq, string_eq, length, contains, keep, Bool-cases,
  length-sorted, length-keep, arith,
}
use orbit_mind_living_q_core.Optimization.Models.{
  ObservationOpportunity, OptimalityStatus, ScheduleEvaluation,
}
use orbit_mind_living_q_core.Optimization.Evaluation.{Evaluator, evaluate}
use orbit_mind_living_q_core.Optimization.Solvers.{SolverResult, build_result}
use orbit_mind_living_q_core.Optimization.Solvers.Exact.{solve_exact}
use orbit_mind_living_q_core.Optimization.Solvers.Answers.{solve_exact-IsAnswer}
use orbit_mind_living_q_core.Optimization.Solvers.Greedy.{
  comes_first, extend, others, finish, solve_greedy,
}

-- The selection keeps what it has.
extend-contains :
    (ev : Evaluator) (rest : List ObservationOpportunity) (selected : List String) (n : ℕ)
    (id : String)
    → contains id selected ≡ true
    → contains id (extend ev rest selected n).0 ≡ true
unfolding extend
extend-contains ev [] selected n id h = h
extend-contains ev (o ∷ rest) selected n id h =
    let next = if (evaluate ev (o.id ∷ selected)).feasible then o.id ∷ selected else selected in
    extend-contains ev rest next (suc n) id (ground arith)

-- A feasible selection stays feasible.
extend-feasible :
    (ev : Evaluator) (rest : List ObservationOpportunity) (selected : List String) (n : ℕ)
    → (evaluate ev selected).feasible ≡ true
    → (evaluate ev (extend ev rest selected n).0).feasible ≡ true
unfolding extend
extend-feasible ev [] selected n h = h
extend-feasible ev (o ∷ rest) selected n h =
    elim (Bool-cases (evaluate ev (o.id ∷ selected)).feasible) [
      | inl good ↦ rw (extend, good) (extend-feasible ev rest (o.id ∷ selected) (suc n) good)
      | inr bad ↦ rw (extend, bad) (extend-feasible ev rest selected (suc n) h)
    ]

-- The counter goes up by one for each opportunity of the loop.
extend-evaluated :
    (ev : Evaluator) (rest : List ObservationOpportunity) (selected : List String) (n : ℕ)
    → (extend ev rest selected n).1 ≡ n + length rest
unfolding extend
extend-evaluated ev [] selected n = omega arith
extend-evaluated ev (o ∷ rest) selected n =
    let next = if (evaluate ev (o.id ∷ selected)).feasible then o.id ∷ selected else selected in
    let more = extend-evaluated ev rest next (suc n) in omega arith

-- The greedy promise: the schedule holds every mandatory opportunity, and the two labels say whether
-- it is feasible.
abbrev pub IsGreedy : Evaluator → SolverResult → Type 0
IsGreedy ev r =
    (selected : List String) × (r.evaluation ≡ some (evaluate ev selected))
    × ((id : String) → contains id ev.mandatory ≡ true → contains id selected ≡ true)
    × (r.feasible ≡ (evaluate ev selected).feasible)
    × (r.optimality_status ≡ (
        if (evaluate ev selected).feasible
        then OptimalityStatus.feasible
        else OptimalityStatus.infeasible))

-- The greedy solver returns a schedule with all mandatory opportunities, labels it by whether the
-- evaluator finds it feasible, and finds a feasible one whenever the mandatory set alone is feasible;
-- the count of evaluated candidates that it reports is at most one more than the number of
-- opportunities.
pub solve_greedy-IsGreedy :
    (ev : Evaluator)
    → IsGreedy ev (solve_greedy ev)
      × ((evaluate ev ev.mandatory).feasible ≡ true → (solve_greedy ev).feasible ≡ true)
      × ((solve_greedy ev).evaluated_candidates ≤ suc (length ev.problem.opportunities))
unfolding solve_greedy finish build_result others
solve_greedy-IsGreedy ev =
    let evaluated : ℕ = if length ev.mandatory == 0 then 0 else 1 in
    let last = extend ev (others ev) ev.mandatory evaluated in
    let kept = λ (id : String) (h : contains id ev.mandatory ≡ true).
      extend-contains ev (others ev) ev.mandatory evaluated id h in
    let counted = extend-evaluated ev (others ev) ev.mandatory evaluated in
    let first : evaluated ≤ 1 = ground arith in
    let few : length (others ev) ≤ length ev.problem.opportunities = ground (
      arith,
      length-sorted comes_first
          (keep (λ o. not (contains o.id ev.mandatory)) ev.problem.opportunities),
      length-keep (λ (o : ObservationOpportunity). not (contains o.id ev.mandatory))
          ev.problem.opportunities,
    ) in
    let many : last.1 ≤ suc (length ev.problem.opportunities) = omega arith in
    elim (Bool-cases (not (length ev.mandatory == 0) && not (evaluate ev ev.mandatory).feasible)) [
      | inl stuck ↦
          let bad : (evaluate ev ev.mandatory).feasible ≡ false = ground arith in
          simp stuck (
            (ev.mandatory, refl, λ id h. h, refl, rw bad refl),
            λ h. absurd (ground arith),
            omega arith,
          )
      | inr free ↦ simp free (
        (last.0, refl, kept, refl, refl),
        λ h. extend-feasible ev (others ev) ev.mandatory evaluated h,
        many,
      )
    ]

-- A greedy schedule that is feasible is worth at most what the exhaustive solver calls optimal.
pub solve_greedy-solve_exact :
    (ev : Evaluator) (expired : ℕ → Bool)
    → (solve_exact ev expired).optimality_status ≡ OptimalityStatus.optimal
    → (solve_greedy ev).feasible ≡ true
    → (best e : ScheduleEvaluation) → (solve_exact ev expired).evaluation ≡ some best
    → (solve_greedy ev).evaluation ≡ some e
    → e.objective_value ≤ best.objective_value
solve_greedy-solve_exact ev expired proved good best e exact greedy =
    let (b, there, optimum, known) = (solve_exact-IsAnswer ev expired).0 proved in
    let (selected, mine, kept, label, status) = (solve_greedy-IsGreedy ev).0 in
    let same : b ≡ best = ground arith in
    let own : evaluate ev selected ≡ e = ground arith in
    let le = optimum.is_best selected (sym label ∙ good) in
    subst (λ e. e.objective_value ≤ best.objective_value) own
      (subst (λ b. (evaluate ev selected).objective_value ≤ b.objective_value) same le)
