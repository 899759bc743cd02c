-- ===== src/Optimization/Evaluation.antt =====
-- src/orbitmind/optimization/evaluation.py: the shared evaluator of schedules. A selection is the list
-- of its ids; the evaluator reads it only by membership. The source's tolerance of 1e-9 on a capacity
-- does nothing on whole numbers.
pub mod Values
pub mod Selections
pub mod Usage
pub mod Feasible
pub mod Exclusive
use orbit_mind_living_q_core.Common.{
  ℕ, ◌+◌, ◌-◌, ◌*◌, String, Bool, true, false, not, Option, none, some, List, [], ◌∷◌, ◌++◌, map,
  ltb, leb, if◌then◌else◌, ◌==◌, ◌!=◌, string_eq, nat_eq, length, any, contains, to_set, keep,
  Result, err, ok, ◌>>=◌, ◌>>◌, raise_if, str_leb, sorted_by, sum_of, count, Dict, get, ℤ, pos,
  sub_ℕ, ◌&&◌,
}
use orbit_mind_living_q_core.Optimization.Models.{
  ConstraintKind, SatelliteResource, ObservationOpportunity, SchedulingConflict, ConstraintSet,
  SchedulingProblem, ConstraintViolation, ScheduleEvaluation,
}
use orbit_mind_living_q_core.Optimization.Problem.{
  ProblemError, variable_order, generate_conflicts, resolved_penalty,
}

-- What the constructor computes once.
pub record Evaluator : Type 0 where
  pub problem : SchedulingProblem
  pub order : List String
  pub penalty : ℕ
  pub weight : ℕ
  pub conflicts : List SchedulingConflict
  pub mandatory : List String

-- `Evaluator.__init__`, at the penalty of the problem.
abbrev pub evaluator_at : SchedulingProblem → ℕ → Evaluator
evaluator_at p penalty = record {
  problem = p;
  order = variable_order p;
  penalty = penalty;
  weight = p.objective.mission_value_weight;
  conflicts = generate_conflicts p;
  mandatory = to_set p.constraints.mandatory;
}

unfoldable pub make_evaluator : SchedulingProblem → Result ProblemError Evaluator
make_evaluator p = resolved_penalty p >>= λ penalty. ok (evaluator_at p penalty)

-- `_opp`: the last opportunity of an id.
unfoldable pub opportunity_of : String → List ObservationOpportunity → Option ObservationOpportunity
opportunity_of id [] = none
opportunity_of id (o ∷ os) = elim (opportunity_of id os) [
  | some later ↦ some later
  | none ↦ if o.id == id then some o else none
]

-- `_opp[id].field`; every id that the evaluator looks up is one of the problem's, so the first
-- argument is never the answer.
unfoldable pub field_of :
    {A : Type 0} → A → (ObservationOpportunity → A) → List ObservationOpportunity → String → A
field_of unused f os id = elim (opportunity_of id os) [ some o ↦ f o | none ↦ unused ]

-- `frozenset(selected) & set(self.order)`, in the order of the variables.
unfoldable pub chosen : Evaluator → List String → List String
chosen ev selected = keep (λ id. contains id selected) (to_set ev.order)

-- `per[key] = per.get(key, 0) + amount`.
unfoldable pub accumulate : String → ℕ → Dict ℕ → Dict ℕ
accumulate key amount [] = (key, amount) ∷ []
accumulate key amount ((k, n) ∷ d) =
    let rest = accumulate key amount d in if k == key then (k, n + amount) ∷ d else (k, n) ∷ rest

unfoldable pub totals : (String → String) → (String → ℕ) → List String → Dict ℕ → Dict ℕ
totals key amount [] d = d
totals key amount (id ∷ ids) d = totals key amount ids (accumulate (key id) (amount id) d)

abbrev pub entry_leb : (String × ℕ) → (String × ℕ) → Bool
entry_leb a b = str_leb a.0 b.0

-- `{s.id: getattr(s, cap_attr) for s in self.problem.satellites}.get(sat_id)`.
unfoldable pub capacity_of : (SatelliteResource → ℕ) → String → List SatelliteResource → Option ℕ
capacity_of f id [] = none
capacity_of f id (s ∷ ss) = elim (capacity_of f id ss) [
  | some later ↦ some later
  | none ↦ if s.id == id then some (f s) else none
]

-- A use above its limit; one without a limit passes.
abbrev pub excess :
    ConstraintKind → Option ℕ → ℕ → List ConstraintViolation → List ConstraintViolation
excess kind none used rest = rest
excess kind (some cap) used rest =
    if ltb cap used then record { kind = kind; magnitude = used - cap } ∷ rest else rest

-- The entries above a limit.
unfoldable pub above_limit :
    ConstraintKind → (String → Option ℕ) → Dict ℕ → List ConstraintViolation
above_limit kind limit [] = []
above_limit kind limit ((k, used) ∷ d) = excess kind (limit k) used (above_limit kind limit d)

-- `_capacity_violations`, by the kind's two attributes.
unfoldable pub capacity_violations :
    Evaluator
    → ConstraintKind
    → (ObservationOpportunity → ℕ)
    → (SatelliteResource → ℕ)
    → List String
    → List ConstraintViolation
capacity_violations ev kind cost capacity ids =
    let os = ev.problem.opportunities in
    let per_sat = totals (field_of "" (λ o. o.satellite_id) os) (field_of 0 cost os) ids [] in
    above_limit kind (λ s. capacity_of capacity s ev.problem.satellites)
      (sorted_by entry_leb per_sat)

-- The conflict pairs that are both selected.
unfoldable pub both_selected : List String → SchedulingConflict → Bool
both_selected ids c = contains c.opportunity_a ids && contains c.opportunity_b ids

unfoldable pub penalized_count : Evaluator → List String → ℕ
penalized_count ev ids =
    count (both_selected ids) ev.conflicts
    + count (λ m. not (contains m ids)) (sorted_by str_leb ev.mandatory)

abbrev pub conflict_violation : SchedulingConflict → ConstraintViolation
conflict_violation c = record { kind = c.kind; magnitude = 1 }

abbrev pub mandatory_violation : String → ConstraintViolation
mandatory_violation m = record { kind = ConstraintKind.mandatory; magnitude = 1 }

unfoldable pub max_observation_violations : Option ℕ → List String → List ConstraintViolation
max_observation_violations none ids = []
max_observation_violations (some limit) ids =
    if ltb limit (length ids)
    then record { kind = ConstraintKind.max_observations; magnitude = length ids - limit } ∷ []
    else []

unfoldable pub per_target_violations : Evaluator → Option ℕ → List String → List ConstraintViolation
per_target_violations ev none ids = []
per_target_violations ev (some limit) ids =
    let target = field_of "" (λ o. o.target_id) ev.problem.opportunities in
    above_limit ConstraintKind.per_target_limit (λ _. some limit)
      (sorted_by entry_leb (totals target (λ _. 1) ids []))

unfoldable pub min_value_violations : Option ℕ → ℕ → List ConstraintViolation
min_value_violations none weighted_value = []
min_value_violations (some least) weighted_value =
    if ltb weighted_value least
    then record { kind = ConstraintKind.min_mission_value; magnitude = least - weighted_value } ∷ []
    else []

unfoldable pub raw_value : Evaluator → List String → ℕ
raw_value ev ids = sum_of (field_of 0 (λ o. o.mission_value) ev.problem.opportunities) ids

-- All violations of the chosen ids, in the source's order.
unfoldable pub find_violations : Evaluator → List String → List ConstraintViolation
find_violations ev ids =
    let c = ev.problem.constraints in
    map conflict_violation (keep (both_selected ids) ev.conflicts)
    ++ map mandatory_violation (keep (λ m. not (contains m ids)) (sorted_by str_leb ev.mandatory))
    ++ max_observation_violations c.max_observations ids
    ++ (if c.enforce_energy_capacity
        then capacity_violations ev ConstraintKind.energy_capacity (λ o. o.energy_cost)
            (λ s. s.energy_capacity) ids
        else [])
    ++ (if c.enforce_storage_capacity
        then capacity_violations ev ConstraintKind.storage_capacity (λ o. o.storage_cost)
            (λ s. s.storage_capacity) ids
        else [])
    ++ per_target_violations ev c.per_target_limit ids
    ++ min_value_violations c.min_mission_value (raw_value ev ids * ev.weight)

unfoldable pub evaluate : Evaluator → List String → ScheduleEvaluation
evaluate ev selected =
    let ids = chosen ev selected in
    let os = ev.problem.opportunities in
    let weighted_value = raw_value ev ids * ev.weight in
    let violations = find_violations ev ids in
    let constraint_penalty = ev.penalty * penalized_count ev ids in
    record {
      problem_checksum = ev.problem.checksum;
      selected_opportunity_ids = sorted_by str_leb ids;
      feasible = length violations == 0;
      raw_mission_value = raw_value ev ids;
      weighted_mission_value = weighted_value;
      constraint_penalty = constraint_penalty;
      penalized_objective = sub_ℕ weighted_value constraint_penalty;
      objective_value = weighted_value;
      total_energy = sum_of (field_of 0 (λ o. o.energy_cost) os) ids;
      total_storage = sum_of (field_of 0 (λ o. o.storage_cost) os) ids;
      violations = violations;
    }

-- A character of a bit string: '0', '1', or another one.
pub data BitChar : Type 0 where
  zero_bit one_bit other_char : BitChar

abbrev pub is_one : BitChar → Bool
is_one one_bit = true
is_one _ = false

abbrev pub is_other : BitChar → Bool
is_other other_char = true
is_other _ = false

pub data BitstringError : Type 0 where
  wrong_length not_binary : BitstringError

-- `{self.order[i] for i, b in enumerate(bits) if b == "1"}`.
unfoldable pub decode : List String → List BitChar → List String
decode [] bits = []
decode (id ∷ ids) [] = []
decode (id ∷ ids) (b ∷ bits) = let rest = decode ids bits in if is_one b then id ∷ rest else rest

unfoldable pub evaluate_bitstring :
    Evaluator → List BitChar → Result BitstringError ScheduleEvaluation
evaluate_bitstring ev bits =
    raise_if (length bits != length ev.order) wrong_length
    >> raise_if (any is_other bits) not_binary
    >> ok (evaluate ev (decode ev.order bits))

-- `CandidateSchedule.bitstring`, src/orbitmind/optimization/models.py.
unfoldable pub bitstring : List String → List String → List BitChar
bitstring selected order = map (λ id. if contains id selected then one_bit else zero_bit) order
