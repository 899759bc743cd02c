-- ===== src/Optimization/Evaluation/Values.antt =====
-- src/orbitmind/optimization/evaluation.py and problem.py: the value of a schedule is at most the bound
-- that sizes the penalty.
use orbit_mind_living_q_core.Common.{
  ℕ, ◌*◌, ◌≤◌, ◌≡◌, refl, ap, inl, inr, String, true, false, none, some, List, [], ◌∷◌, map, ◌==◌,
  string_eq, eq_self, contains, is_unique, to_set, Bool-cases, Option-cases, str_leb, sorted_by,
  sum_of, sum_of-keep-le, sum_of-sorted, to_set-eq, sorted_by_unique, sum_of-scale, arith,
}
use native.Mathlib.Nat.{mul-le-mul_right}
use orbit_mind_living_q_core.Optimization.Models.{ObservationOpportunity, SchedulingProblem}
use orbit_mind_living_q_core.Optimization.Problem.{
  opportunity_ids, variable_order, total_weighted_value_bound,
}
use orbit_mind_living_q_core.Optimization.Evaluation.{
  evaluator_at, opportunity_of, field_of, chosen, raw_value,
}

unknown_id :
    (id : String) (os : List ObservationOpportunity)
    → contains id (map (λ o. o.id) os) ≡ false
    → opportunity_of id os ≡ none
unfolding opportunity_of
unknown_id id [] h = refl
unknown_id id (o ∷ os) h = rw (unknown_id id os (ground arith)) (ground arith)

-- An id of the tail is found in the tail.
known_id :
    (id : String) (os : List ObservationOpportunity)
    → contains id (map (λ o. o.id) os) ≡ true
    → (o : ObservationOpportunity) × (opportunity_of id os ≡ some o)
unfolding opportunity_of
known_id id [] h = absurd (ground arith)
known_id id (o ∷ os) h = elim (Option-cases (opportunity_of id os)) [
  | inr (later, e) ↦ (later, rw e refl)
  | inl e ↦ elim (Bool-cases (o.id == id)) [
    | inl same ↦ (o, rw (e, same) refl)
    | inr other ↦ let (later, found) = known_id id os (ground arith) in absurd (ground arith)
  ]
]

found_first :
    (o : ObservationOpportunity) (os : List ObservationOpportunity)
    → opportunity_of o.id os ≡ none
    → opportunity_of o.id (o ∷ os) ≡ some o
unfolding opportunity_of
found_first o os e = rw (e, eq_self o.id) refl

module _ (f : ObservationOpportunity → ℕ) where
  field_of-tail :
      (id : String) (o : ObservationOpportunity) (os : List ObservationOpportunity)
      → contains id (map (λ o. o.id) os) ≡ true
      → field_of 0 f (o ∷ os) id ≡ field_of 0 f os id
  unfolding field_of opportunity_of
  field_of-tail id o os h = let (later, e) = known_id id os h in rw (e, field_of) refl

  field_of-head :
      (o : ObservationOpportunity) (os : List ObservationOpportunity)
      → contains o.id (map (λ o. o.id) os) ≡ false
      → field_of 0 f (o ∷ os) o.id ≡ f o
  unfolding field_of
  field_of-head o os h = rw (found_first o os (unknown_id o.id os h), field_of) refl

  tail-sum :
      (o : ObservationOpportunity) (os : List ObservationOpportunity) (ids : List String)
      → ((id : String) → contains id ids ≡ true → contains id (map (λ o. o.id) os) ≡ true)
      → sum_of (field_of 0 f (o ∷ os)) ids ≡ sum_of (field_of 0 f os) ids
  tail-sum o os [] h = refl
  tail-sum o os (id ∷ ids) h =
      let first = field_of-tail id o os (h id (ground arith)) in
      let rest = tail-sum o os ids (λ j k. h j (ground arith)) in ground arith

  -- The sum over the ids is the sum over the opportunities, when no id repeats.
  sum_of-ids :
      (os : List ObservationOpportunity)
      → is_unique (map (λ o. o.id) os) ≡ true
      → sum_of (field_of 0 f os) (map (λ o. o.id) os) ≡ sum_of f os
  sum_of-ids [] u = refl
  sum_of-ids (o ∷ os) u =
      let first = field_of-head o os (ground arith) in
      let rest = tail-sum o os (map (λ o. o.id) os) (λ id k. k) in
      let all = sum_of-ids os (ground arith) in ground arith

mul_le : {a b total : ℕ} (w : ℕ) → a ≤ b → total ≡ b * w → a * w ≤ total
mul_le w h e = let more = mul-le-mul_right w h in omega arith

-- No schedule is worth more than the bound.
pub weighted-bound :
    (p : SchedulingProblem) (penalty : ℕ) (selected : List String)
    → is_unique (opportunity_ids p) ≡ true
    → raw_value (evaluator_at p penalty) (chosen (evaluator_at p penalty) selected)
        * p.objective.mission_value_weight
      ≤ total_weighted_value_bound p
unfolding raw_value chosen variable_order total_weighted_value_bound
weighted-bound p penalty selected u =
    let value = field_of 0 (λ o. o.mission_value) p.opportunities in
    let order = to_set (sorted_by str_leb (opportunity_ids p)) in
    let w = p.objective.mission_value_weight in
    let kept = sum_of-keep-le value (λ id. contains id selected) order in
    let same = ap (sum_of value) (
      to_set-eq (sorted_by str_leb (opportunity_ids p))
        (sorted_by_unique str_leb (opportunity_ids p) u)) in
    let sorted = sum_of-sorted str_leb value (opportunity_ids p) in
    let all = sum_of-ids (λ o. o.mission_value) p.opportunities u in
    let scaled = sum_of-scale (λ (o : ObservationOpportunity). o.mission_value) w p.opportunities in
    mul_le w (omega arith) scaled
