-- ===== src/Optimization/Solvers/Optimum.antt =====
-- src/orbitmind/optimization/solvers/exact.py: the exhaustive search visits every selection.
use Prim.Native.Nat.{◌/◌, ◌%◌, ◌^◌}
use native.Mathlib.Decide.{ℕ_discrete}
use orbit_mind_living_q_core.Common.{
  ℕ, zero, suc, ◌+◌, ◌*◌, ◌≤◌, ◌<◌, ◌≡◌, refl, ap, ◌∙◌, sym, subst, inl, inr, String, Bool, true,
  false, ◌&&◌, Option, none, some, List, [], ◌∷◌, ltb, if◌then◌else◌, nat_eq, string_eq, length,
  contains, keep, Bool-cases, arith,
}
use orbit_mind_living_q_core.Optimization.Models.{ScheduleEvaluation}
use orbit_mind_living_q_core.Optimization.Evaluation.{Evaluator, evaluate}
use orbit_mind_living_q_core.Optimization.Evaluation.Selections.{contains-keep, evaluate-cong}
use orbit_mind_living_q_core.Optimization.Solvers.Exact.{
  selected_by, SearchState, improve, visit, stops, search_masks, start,
}

-- The mask of a selection.
abbrev pub mask_of : List String → List String → ℕ
mask_of [] selected = 0
mask_of (id ∷ ids) selected = (if contains id selected then 1 else 0) + 2 * mask_of ids selected

mask_of-bound : (ids selected : List String) → mask_of ids selected < 2 ^ length ids
mask_of-bound [] selected = omega arith
mask_of-bound (id ∷ ids) selected = let rest = mask_of-bound ids selected in ground arith

selected_by-mask :
    (ids selected : List String)
    → selected_by ids (mask_of ids selected) ≡ keep (λ id. contains id selected) ids
unfolding selected_by ℕ_discrete
selected_by-mask [] selected = refl
selected_by-mask (id ∷ ids) selected =
    let rest = mask_of ids selected in
    let half : mask_of (id ∷ ids) selected / 2 ≡ rest = ground arith in
    let bit : mask_of (id ∷ ids) selected % 2 ≡ (if contains id selected then 1 else 0) =
      ground arith in
    let tail = selected_by-mask ids selected in
    elim (Bool-cases (contains id selected)) [
      | inl e ↦
          let odd : mask_of (id ∷ ids) selected % 2 ≡ 1 = ground arith in
          rw (half, odd, e) (ap (λ js. id ∷ js) tail)
      | inr e ↦
          let even : mask_of (id ∷ ids) selected % 2 ≡ 0 = ground arith in rw (half, even, e) tail
    ]

-- The best answer so far is at least as good as an evaluation.
abbrev pub IsCovered : Option ScheduleEvaluation → ScheduleEvaluation → Type 0
IsCovered best e =
    e.feasible ≡ true
    → (b : ScheduleEvaluation) × (best ≡ some b) × (e.objective_value ≤ b.objective_value)

-- The best answer is a feasible schedule of the evaluator.
abbrev pub IsFound : Evaluator → Option ScheduleEvaluation → Type 0
IsFound ev best =
    (b : ScheduleEvaluation)
    → best ≡ some b
    → (b.feasible ≡ true) × ((selected : List String) × (b ≡ evaluate ev selected))

improve-covers :
    (best : Option ScheduleEvaluation) (e : ScheduleEvaluation) → IsCovered (improve best e) e
unfolding improve
improve-covers none e good = (e, rw good refl, omega arith)
improve-covers (some b) e good = elim (Bool-cases (ltb b.objective_value e.objective_value)) [
  | inl less ↦ (e, rw (good, less) refl, omega arith)
  | inr more ↦ (b, rw (good, more) refl, ground arith)
]

improve-keeps :
    (best : Option ScheduleEvaluation) (new old : ScheduleEvaluation)
    → IsCovered best old
    → IsCovered (improve best new) old
unfolding improve
improve-keeps none new old h good = let (b, e, le) = h good in cc
improve-keeps (some c) new old h good =
    let (b, e, le) = h good in
    let same : c ≡ b = ground arith in
    let less : old.objective_value ≤ c.objective_value = rw same le in
    elim (Bool-cases (new.feasible && ltb c.objective_value new.objective_value)) [
      | inl better ↦ (new, rw better refl, ground arith)
      | inr other ↦ (c, rw other refl, less)
    ]

improve-found :
    (ev : Evaluator) (best : Option ScheduleEvaluation) (selected : List String)
    → IsFound ev best
    → IsFound ev (improve best (evaluate ev selected))
unfolding improve
improve-found ev none selected h b e = elim (Bool-cases (evaluate ev selected).feasible) [
  | inl good ↦
      let same : evaluate ev selected ≡ b = ground arith in
      (sym (ap (λ e. e.feasible) same) ∙ good, (selected, sym same))
  | inr bad ↦ absurd (ground arith)
]
improve-found ev (some c) selected h b e =
    let new = evaluate ev selected in
    elim (Bool-cases (new.feasible && ltb c.objective_value new.objective_value)) [
      | inl better ↦
          let same : new ≡ b = ground arith in
          let good : new.feasible ≡ true = ground arith in
          (sym (ap (λ e. e.feasible) same) ∙ good, (selected, sym same))
      | inr other ↦ let same : c ≡ b = ground arith in h b (ap some same)
    ]

-- The loop has visited the masks below `mask` and found the best of them.
pub record IsSearched (ev : Evaluator) (mask : ℕ) (st : SearchState) : Type 0 where
  pub covered : (m : ℕ) → m < mask → IsCovered st.best_eval (evaluate ev (selected_by ev.order m))
  pub found : IsFound ev st.best_eval
  pub counted : st.evaluated ≡ mask

visit-IsSearched :
    (ev : Evaluator) (mask : ℕ) (st : SearchState)
    → IsSearched ev mask st
    → IsSearched ev (suc mask) (visit ev mask st)
visit-IsSearched ev mask st s =
    let new = evaluate ev (selected_by ev.order mask) in
    record {
      covered = λ m less. elim (Bool-cases (ltb m mask)) [
        | inl before ↦
            improve-keeps st.best_eval new (evaluate ev (selected_by ev.order m))
              (s.covered m (ground arith))
        | inr now ↦
            let here : mask ≡ m = ground arith in
            subst (λ m. IsCovered (improve st.best_eval new) (evaluate ev (selected_by ev.order m)))
              here (improve-covers st.best_eval new)
      ];
      found = improve-found ev st.best_eval (selected_by ev.order mask) s.found;
      counted = ap suc s.counted;
    }

-- What the loop leaves: all masks visited unless it timed out, and a best answer that was found.
pub search_masks-IsSearched :
    (ev : Evaluator) (expired : ℕ → Bool) (left mask : ℕ) (st : SearchState)
    → IsSearched ev mask st
    → st.timed_out ≡ false
    → let last = search_masks ev expired left mask st in
      IsFound ev last.best_eval × (last.timed_out ≡ false → IsSearched ev (mask + left) last)
unfolding search_masks
search_masks-IsSearched ev expired zero mask st s running =
    (s.found, λ _. subst (λ n. IsSearched ev n st) (omega arith) s)
search_masks-IsSearched ev expired (suc left) mask st s running =
    elim (Bool-cases (stops expired mask)) [
      | inl stopped ↦ rw stopped (s.found, λ e. absurd (ground arith))
      | inr on ↦
          let (found, all) =
            search_masks-IsSearched ev expired left (suc mask) (visit ev mask st)
              (visit-IsSearched ev mask st s) running in
          let last = search_masks ev expired left (suc mask) (visit ev mask st) in
          rw on (found, λ e. subst (λ n. IsSearched ev n last) (omega arith) (all e))
    ]

-- A clock that never passes the deadline lets the loop finish.
pub search_masks-finishes :
    (ev : Evaluator) (expired : ℕ → Bool) (left mask : ℕ) (st : SearchState)
    → ((m : ℕ) → expired m ≡ false)
    → st.timed_out ≡ false
    → (search_masks ev expired left mask st).timed_out ≡ false
unfolding search_masks
search_masks-finishes ev expired zero mask st never running = running
search_masks-finishes ev expired (suc left) mask st never running =
    ground
      (arith, never mask, search_masks-finishes ev expired left (suc mask) (visit ev mask st) never)

pub start-IsSearched : (ev : Evaluator) → IsSearched ev 0 start
start-IsSearched ev = record {
  covered = λ m less. absurd (omega arith);
  found = λ b e. absurd (ground arith);
  counted = refl;
}

-- A search of all masks covers every selection.
pub all_selections :
    (ev : Evaluator) (st : SearchState) (selected : List String)
    → IsSearched ev (0 + 2 ^ length ev.order) st
    → IsCovered st.best_eval (evaluate ev selected)
all_selections ev st selected s =
    let mask = mask_of ev.order selected in
    let bound = mask_of-bound ev.order selected in
    let same : evaluate ev (selected_by ev.order mask) ≡ evaluate ev selected =
      rw (selected_by-mask ev.order selected) (
        evaluate-cong ev (keep (λ id. contains id selected) ev.order) selected
          (λ id k. ground (arith, contains-keep (λ id. contains id selected) id ev.order))) in
    subst (IsCovered st.best_eval) same (s.covered mask (omega arith))
