-- ===== src/Optimization/Qubo/Chosen.antt =====
-- src/orbitmind/optimization/evaluation.py: the sums of an evaluation, over the variables of a
-- normal problem.
use orbit_mind_living_q_core.Common.{
  ℕ, ◌+◌, ◌*◌, ◌≡◌, refl, inl, inr, String, true, not, ◌&&◌, List, [], ◌∷◌, if◌then◌else◌,
  string_eq, nat_eq, length, All, keep, contains, to_set, is_unique, Option-cases, str_leb, sum_of,
  count, count-not, count-cong, count-swap, count-sorted, contains-sorted, contains-to_set,
  to_set_unique, to_set-eq, sorted_by_unique, arith,
}
use orbit_mind_living_q_core.Optimization.Models.{
  ObservationOpportunity, SchedulingConflict, SchedulingProblem,
}
use orbit_mind_living_q_core.Optimization.Problem.{
  opportunity_ids, variable_order, generate_conflicts,
}
use orbit_mind_living_q_core.Optimization.Problem.Normal.{IsNormal}
use orbit_mind_living_q_core.Optimization.Problem.Conflicts.{IsWithin, generate_conflicts-IsWithin}
use orbit_mind_living_q_core.Optimization.Evaluation.{
  evaluator_at, opportunity_of, field_of, chosen, both_selected, penalized_count, raw_value,
}
use orbit_mind_living_q_core.Optimization.Evaluation.Selections.{contains-keep}
use orbit_mind_living_q_core.Optimization.Qubo.{weighted_value_of}
use orbit_mind_living_q_core.Optimization.Qubo.Terms.{hits}

-- A normal problem's variables are its opportunities, each once.
pub variable_order_unique :
    (p : SchedulingProblem) → IsNormal p → is_unique (variable_order p) ≡ true
unfolding variable_order
variable_order_unique p n = sorted_by_unique str_leb (opportunity_ids p) n.ids_unique

pub variable_order-contains :
    (p : SchedulingProblem) (id : String)
    → contains id (variable_order p) ≡ contains id (opportunity_ids p)
unfolding variable_order
variable_order-contains p id = contains-sorted str_leb id (opportunity_ids p)

pub field_of-scale :
    (f : ObservationOpportunity → ℕ) (w : ℕ) (os : List ObservationOpportunity) (id : String)
    → field_of 0 (λ o. f o * w) os id ≡ field_of 0 f os id * w
unfolding field_of
field_of-scale f w os id = elim (Option-cases (opportunity_of id os)) [
  | inl e ↦ rw (e, field_of) (omega arith)
  | inr (o, e) ↦ rw (e, field_of) refl
]

pub plus_times : (a b w : ℕ) → (a + b) * w ≡ a * w + b * w
plus_times a b w = omega arith

-- What an evaluation of a selection reads, for the evaluator of a normal problem.
module _ (p : SchedulingProblem) (normal : IsNormal p) (penalty : ℕ) (selected : List String) where
  abbrev chosen_ids : List String
  chosen_ids = chosen (evaluator_at p penalty) selected

  -- On the variables, the chosen chosen_ids are those of the selection.
  pub chosen-contains :
      (id : String)
      → contains id (opportunity_ids p) ≡ true
      → contains id chosen_ids ≡ contains id selected
  unfolding chosen
  chosen-contains id known =
      let kept = contains-keep (λ id. contains id selected) id (to_set (variable_order p)) in
      let set = contains-to_set id (variable_order p) in
      ground (arith, variable_order-contains p id)

  pub hits-chosen :
      (cs : List SchedulingConflict)
      → All (IsWithin (opportunity_ids p)) cs
      → count (both_selected chosen_ids) cs ≡ count (hits (λ id. contains id selected)) cs
  unfolding both_selected
  hits-chosen [] h = refl
  hits-chosen (c ∷ cs) ((a, b), h) =
      let rest = hits-chosen cs h in
      let first = chosen-contains c.opportunity_a a in
      let second = chosen-contains c.opportunity_b b in ground arith

  pub missing-chosen :
      (ms : List String)
      → All (λ m. contains m (opportunity_ids p) ≡ true) ms
      → count (λ m. not (contains m chosen_ids)) ms ≡ count (λ m. not (contains m selected)) ms
  missing-chosen [] h = refl
  missing-chosen (m ∷ ms) (k, h) =
      let rest = missing-chosen ms h in let first = chosen-contains m k in ground arith

  present-chosen :
      (ms : List String)
      → All (λ m. contains m (opportunity_ids p) ≡ true) ms
      → All (λ m. (contains m selected && contains m (variable_order p)) ≡ contains m selected) ms
  present-chosen [] h = tt
  present-chosen (m ∷ ms) (k, h) =
      (ground (arith, variable_order-contains p m), present-chosen ms h)

  weighted-keep :
      (js : List String)
      → sum_of
            (field_of 0 (λ o. o.mission_value) p.opportunities)
            (keep (λ id. contains id selected) js)
          * p.objective.mission_value_weight
        ≡ sum_of (λ id. if contains id selected then weighted_value_of p id else 0) js
  unfolding weighted_value_of
  weighted-keep [] = omega arith
  weighted-keep (j ∷ js) =
      let rest = weighted-keep js in
      let first =
        field_of-scale (λ o. o.mission_value) p.objective.mission_value_weight p.opportunities j in
      let both =
        plus_times (field_of 0 (λ o. o.mission_value) p.opportunities j)
          (sum_of (field_of 0 (λ o. o.mission_value) p.opportunities)
            (keep (λ id. contains id selected) js))
          p.objective.mission_value_weight in
      ground arith

  -- The raw value by the weight is the sum of the weighted values.
  pub weighted-chosen :
      raw_value (evaluator_at p penalty) chosen_ids * p.objective.mission_value_weight
      ≡ sum_of (λ id. if contains id selected then weighted_value_of p id else 0) (variable_order p)
  unfolding raw_value chosen
  weighted-chosen =
      rw (to_set-eq (variable_order p) (variable_order_unique p normal))
        (weighted-keep (variable_order p))

  -- The mandatory opportunities are missing or selected.
  pub mandatory-split :
      count
          (λ id. contains id selected && contains id (to_set p.constraints.mandatory))
          (variable_order p)
        + count (λ m. not (contains m chosen_ids)) (to_set p.constraints.mandatory)
      ≡ length (to_set p.constraints.mandatory)
  mandatory-split =
      let ms = to_set p.constraints.mandatory in
      let same = to_set-eq p.constraints.mandatory normal.mandatory_unique in
      let known : All (λ m. contains m (opportunity_ids p) ≡ true) ms =
        rw same normal.mandatory_known in
      let swap =
        count-swap (λ id. contains id selected) (variable_order p) ms
          (variable_order_unique p normal) (to_set_unique p.constraints.mandatory) in
      let there = count-cong _ _ ms (present-chosen ms known) in
      let missing = missing-chosen ms known in
      let all = count-not (λ m. contains m selected) ms in ground arith

  pub penalized-chosen :
      penalized_count (evaluator_at p penalty) chosen_ids
      ≡ count (hits (λ id. contains id selected)) (generate_conflicts p)
        + count (λ m. not (contains m chosen_ids)) (to_set p.constraints.mandatory)
  unfolding penalized_count
  penalized-chosen =
      let found = hits-chosen (generate_conflicts p) (generate_conflicts-IsWithin p normal) in
      let order =
        count-sorted str_leb (λ m. not (contains m chosen_ids)) (to_set p.constraints.mandatory) in
      ground arith
