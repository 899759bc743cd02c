-- ===== src/Optimization/Evaluation/Feasible.antt =====
-- src/orbitmind/optimization/evaluation.py: the violations that the evaluator lists, against the
-- constraints stated on their own.
use orbit_mind_living_q_core.Common.{
  ℕ, suc, ◌+◌, ◌*◌, ◌≤◌, ◌≡◌, refl, ap, ◌∙◌, ◌↔◌, String, Bool, true, false, not, Option, none,
  some, List, [], ◌∷◌, map, if◌then◌else◌, nat_eq, string_eq, length, length-append, keep, contains,
  str_leb, sorted_by, count, count-sorted, pos, arith,
}
use orbit_mind_living_q_core.Optimization.Models.{
  ConstraintKind, SatelliteResource, ObservationOpportunity,
}
use orbit_mind_living_q_core.Optimization.Evaluation.{
  Evaluator, chosen, field_of, capacity_of, capacity_violations, both_selected, penalized_count,
  conflict_violation, mandatory_violation, max_observation_violations, per_target_violations,
  min_value_violations, raw_value, find_violations, evaluate,
}
use orbit_mind_living_q_core.Optimization.Evaluation.Usage.{usage, IsWithinLimits, above_limit_iff}

abbrev satellite_of : Evaluator → String → String
satellite_of ev = field_of "" (λ o. o.satellite_id) ev.problem.opportunities

abbrev pub target_of : Evaluator → String → String
target_of ev = field_of "" (λ o. o.target_id) ev.problem.opportunities

-- What a satellite spends on the chosen ids, against its capacity.
abbrev pub IsWithinCapacity :
    Evaluator → (ObservationOpportunity → ℕ) → (SatelliteResource → ℕ) → List String → Type 0
IsWithinCapacity ev cost capacity ids =
    IsWithinLimits (λ s. capacity_of capacity s ev.problem.satellites)
      (usage (satellite_of ev) (field_of 0 cost ev.problem.opportunities) ids)

-- The constraints of a problem on its chosen ids.
pub record IsFeasible (ev : Evaluator) (ids : List String) : Type 0 where
  pub conflict_free : count (both_selected ids) ev.conflicts ≡ 0
  pub mandatory_met : count (λ m. not (contains m ids)) ev.mandatory ≡ 0
  pub few_enough :
      (most : ℕ) → ev.problem.constraints.max_observations ≡ some most → length ids ≤ most
  pub energy_within :
      ev.problem.constraints.enforce_energy_capacity ≡ true
      → IsWithinCapacity ev (λ o. o.energy_cost) (λ s. s.energy_capacity) ids
  pub storage_within :
      ev.problem.constraints.enforce_storage_capacity ≡ true
      → IsWithinCapacity ev (λ o. o.storage_cost) (λ s. s.storage_capacity) ids
  pub targets_within :
      (most : ℕ)
      → ev.problem.constraints.per_target_limit ≡ some most
      → (target : String) → usage (target_of ev) (λ _. 1) ids target ≤ most
  pub worth_enough :
      (least : ℕ)
      → ev.problem.constraints.min_mission_value ≡ some least
      → least ≤ raw_value ev ids * ev.weight

length-map : {A B : Type 0} (f : A → B) (xs : List A) → length (map f xs) ≡ length xs
length-map f [] = refl
length-map f (x ∷ xs) = ap suc (length-map f xs)

length-keep-count : {A : Type 0} (p : A → Bool) (xs : List A) → length (keep p xs) ≡ count p xs
length-keep-count p [] = refl
length-keep-count p (x ∷ xs) = ground (arith, length-keep-count p xs)

max_observation-none :
    (limit : Option ℕ) (ids : List String)
    → (length (max_observation_violations limit ids) ≡ 0)
      ↔ ((most : ℕ) → limit ≡ some most → length ids ≤ most)
unfolding max_observation_violations
max_observation-none none ids = (λ h most e. cc, λ h. refl)
max_observation-none (some limit) ids = (
  λ h most e. let same : limit ≡ most = ground arith in ground arith,
  λ h. let le = h limit refl in ground arith,
)

min_value-none :
    (limit : Option ℕ) (value : ℕ)
    → (length (min_value_violations limit value) ≡ 0)
      ↔ ((least : ℕ) → limit ≡ some least → least ≤ value)
unfolding min_value_violations
min_value-none none value = (λ h least e. cc, λ h. refl)
min_value-none (some limit) value = (
  λ h least e. let same : limit ≡ least = ground arith in ground arith,
  λ h. let le = h limit refl in ground arith,
)

per_target-none :
    (ev : Evaluator) (limit : Option ℕ) (ids : List String)
    → (length (per_target_violations ev limit ids) ≡ 0) ↔ (
        (most : ℕ)
        → limit ≡ some most
        → (target : String) → usage (target_of ev) (λ _. 1) ids target ≤ most)
unfolding per_target_violations
per_target-none ev none ids = (λ h most e. cc, λ h. refl)
per_target-none ev (some limit) ids =
    let (to, from) =
      above_limit_iff ConstraintKind.per_target_limit (λ _. some limit) (target_of ev) (λ _. 1)
        ids in
    (
      λ h most e target.
          let same : limit ≡ most = ground arith in let le = to h target limit refl in omega arith,
      λ h. from (λ target most e. h most e target),
    )

capacity-none :
    (ev : Evaluator) (kind : ConstraintKind) (cost : ObservationOpportunity → ℕ)
    (capacity : SatelliteResource → ℕ) (enforced : Bool) (ids : List String)
    → (length (if enforced then capacity_violations ev kind cost capacity ids else []) ≡ 0)
      ↔ (enforced ≡ true → IsWithinCapacity ev cost capacity ids)
unfolding capacity_violations
capacity-none ev kind cost capacity false ids = (λ h e. cc, λ h. refl)
capacity-none ev kind cost capacity true ids =
    let (to, from) =
      above_limit_iff kind (λ s. capacity_of capacity s ev.problem.satellites) (satellite_of ev)
        (field_of 0 cost ev.problem.opportunities) ids in
    (λ h e. to h, λ h. from (h refl))

-- The number of violations is the sum over the kinds.
violations-length :
    (ev : Evaluator) (ids : List String)
    → let c = ev.problem.constraints in
      length (find_violations ev ids)
      ≡ count (both_selected ids) ev.conflicts
        + count (λ m. not (contains m ids)) ev.mandatory
        + length (max_observation_violations c.max_observations ids)
        + length (
            if c.enforce_energy_capacity
            then capacity_violations ev ConstraintKind.energy_capacity
                (λ o. o.energy_cost)
                (λ s. s.energy_capacity)
                ids
            else [])
        + length (
            if c.enforce_storage_capacity
            then capacity_violations ev ConstraintKind.storage_capacity
                (λ o. o.storage_cost)
                (λ s. s.storage_capacity)
                ids
            else [])
        + length (per_target_violations ev c.per_target_limit ids)
        + length (min_value_violations c.min_mission_value (raw_value ev ids * ev.weight))
unfolding find_violations
violations-length ev ids =
    let missing = λ (m : String). not (contains m ids) in
    let conflicts =
      length-map conflict_violation (keep (both_selected ids) ev.conflicts)
      ∙ length-keep-count (both_selected ids) ev.conflicts in
    let mandatory =
      length-map mandatory_violation (keep missing (sorted_by str_leb ev.mandatory))
      ∙ length-keep-count missing (sorted_by str_leb ev.mandatory)
      ∙ count-sorted str_leb missing ev.mandatory in
    simp (length-append, conflicts, mandatory) refl

-- The evaluator finds a selection feasible just when the chosen variables meet every constraint of the
-- problem: no conflict, nothing mandatory missing, and every count, capacity and value within its
-- limit.
pub evaluate-feasible_iff :
    (ev : Evaluator) (selected : List String)
    → ((evaluate ev selected).feasible ≡ true) ↔ IsFeasible ev (chosen ev selected)
unfolding evaluate
evaluate-feasible_iff ev selected =
    let ids = chosen ev selected in
    let c = ev.problem.constraints in
    let total = violations-length ev ids in
    let most = max_observation-none c.max_observations ids in
    let energy =
      capacity-none ev ConstraintKind.energy_capacity (λ o. o.energy_cost) (λ s. s.energy_capacity)
        c.enforce_energy_capacity ids in
    let storage =
      capacity-none ev ConstraintKind.storage_capacity (λ o. o.storage_cost)
        (λ s. s.storage_capacity) c.enforce_storage_capacity ids in
    let target = per_target-none ev c.per_target_limit ids in
    let worth = min_value-none c.min_mission_value (raw_value ev ids * ev.weight) in
    (
      λ h.
          let none_there : length (find_violations ev ids) ≡ 0 = ground arith in
          record {
            conflict_free = omega arith;
            mandatory_met = omega arith;
            few_enough = most.0 (omega arith);
            energy_within = energy.0 (omega arith);
            storage_within = storage.0 (omega arith);
            targets_within = target.0 (omega arith);
            worth_enough = worth.0 (omega arith);
          },
      λ f.
          let first = most.1 f.few_enough in
          let second = energy.1 f.energy_within in
          let third = storage.1 f.storage_within in
          let fourth = target.1 f.targets_within in
          let fifth = worth.1 f.worth_enough in
          let conflict_free = f.conflict_free in
          let mandatory_met = f.mandatory_met in
          let none_there : length (find_violations ev ids) ≡ 0 = omega arith in ground arith,
    )

-- A feasible schedule pays no penalty.
pub evaluate-feasible-penalty :
    (ev : Evaluator) (selected : List String)
    → (evaluate ev selected).feasible ≡ true
    → (evaluate ev selected).penalized_objective ≡ pos (evaluate ev selected).objective_value
unfolding evaluate penalized_count
evaluate-feasible-penalty ev selected h =
    let f = (evaluate-feasible_iff ev selected).0 h in
    let order = count-sorted str_leb (λ m. not (contains m (chosen ev selected))) ev.mandatory in
    let conflict_free = f.conflict_free in
    let mandatory_met = f.mandatory_met in
    let free : penalized_count ev (chosen ev selected) ≡ 0 = omega arith in
    let nothing = ap (λ n. ev.penalty * n) free in ground arith
