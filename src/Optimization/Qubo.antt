-- ===== src/Optimization/Qubo.antt =====
-- src/orbitmind/optimization/qubo.py: the QUBO of a problem and the energy of an assignment.
pub mod Terms
pub mod Energy
pub mod Chosen
use orbit_mind_living_q_core.Common.{
  ℕ, zero, suc, ◌+◌, ◌*◌, String, Bool, true, false, Option, none, some, List, [], ◌∷◌, map, ltb,
  if◌then◌else◌, ◌==◌, ◌!=◌, string_eq, nat_eq, length, contains, to_set, Result, err, ok, ◌>>=◌,
  ◌>>◌, raise_if, Dict, get, ℤ, pos, sub_ℕ, ◌+ℤ◌, times_bit, ◌&&◌,
}
use orbit_mind_living_q_core.Optimization.Models.{SchedulingConflict, SchedulingProblem, QuboModel}
use orbit_mind_living_q_core.Optimization.Problem.{
  ProblemError, variable_order, generate_conflicts, resolved_penalty,
}
use orbit_mind_living_q_core.Optimization.Evaluation.{field_of, BitChar, is_one, BitstringError}

pub data QuboError : Type 0 where
  invalid : ProblemError → QuboError
  key_error : QuboError

-- `{opp_id: i for i, opp_id in enumerate(order)}`, for an order without repeats.
unfoldable pub enumerate_from : ℕ → List String → Dict ℕ
enumerate_from i [] = []
enumerate_from i (id ∷ ids) = (id, i) ∷ enumerate_from (suc i) ids

-- -(value), less the penalty for a mandatory opportunity.
abbrev pub linear_coefficient : ℕ → ℕ → Bool → ℤ
linear_coefficient value penalty is_mandatory =
    sub_ℕ 0 (value + (if is_mandatory then penalty else 0))

abbrev pub is_zero : ℤ → Bool
is_zero (pos n) = n == 0
is_zero _ = false

-- The non-zero linear coefficients.
unfoldable pub linear_terms : (String → ℕ) → ℕ → List String → Dict ℕ → List (ℕ × ℤ)
linear_terms value penalty mandatory [] = []
linear_terms value penalty mandatory ((id, i) ∷ index) =
    let rest = linear_terms value penalty mandatory index in
    let coeff = linear_coefficient (value id) penalty (contains id mandatory) in
    if is_zero coeff then rest else (i, coeff) ∷ rest

-- `quadratic[key] = quadratic.get(key, 0.0) + penalty`.
unfoldable pub add_coefficient : ℕ × ℕ → ℕ → List ((ℕ × ℕ) × ℤ) → List ((ℕ × ℕ) × ℤ)
add_coefficient key penalty [] = (key, pos penalty) ∷ []
add_coefficient key penalty ((k, c) ∷ terms) =
    let rest = add_coefficient key penalty terms in
    if k.0 == key.0 && k.1 == key.1 then (k, c +ℤ pos penalty) ∷ terms else (k, c) ∷ rest

-- `index[id]`.
unfoldable pub index_at : String → Dict ℕ → Result QuboError ℕ
index_at id index = elim (get id index) [ some i ↦ ok i | none ↦ err key_error ]

unfoldable pub quadratic_terms :
    Dict ℕ
    → ℕ
    → List SchedulingConflict
    → List ((ℕ × ℕ) × ℤ)
    → Result QuboError (List ((ℕ × ℕ) × ℤ))
quadratic_terms index penalty [] terms = ok terms
quadratic_terms index penalty (c ∷ cs) terms = index_at c.opportunity_a index >>= λ i.
    (index_at c.opportunity_b index >>= λ j.
    quadratic_terms index penalty cs
      (add_coefficient (if ltb i j then (i, j) else (j, i)) penalty terms))

abbrev pub with_problem_error : {A : Type 0} → Result ProblemError A → Result QuboError A
with_problem_error (ok a) = ok a
with_problem_error (err e) = err (invalid e)

-- `value[opp_id]`: the weighted value of an opportunity.
unfoldable pub weighted_value_of : SchedulingProblem → String → ℕ
weighted_value_of p id =
    field_of 0 (λ o. o.mission_value * p.objective.mission_value_weight) p.opportunities id

-- The model of a problem at its penalty, with the quadratic terms.
abbrev pub qubo_at : SchedulingProblem → ℕ → List ((ℕ × ℕ) × ℤ) → QuboModel
qubo_at p penalty quadratic =
    let order = variable_order p in
    let mandatory = to_set p.constraints.mandatory in
    record {
      num_vars = length order;
      variable_opportunities = order;
      linear = linear_terms (weighted_value_of p) penalty mandatory (enumerate_from 0 order);
      quadratic = quadratic;
      offset = pos (penalty * length mandatory);
      penalty_coefficient = penalty;
    }

unfoldable pub build_qubo : SchedulingProblem → Result QuboError QuboModel
build_qubo p = with_problem_error (resolved_penalty p) >>= λ penalty.
    (quadratic_terms (enumerate_from 0 (variable_order p)) penalty (generate_conflicts p) []
      >>= λ quadratic. ok (qubo_at p penalty quadratic))

-- `x[i]`; an index is below the number of bits.
unfoldable pub bit_at : List Bool → ℕ → Bool
bit_at [] i = false
bit_at (b ∷ bits) zero = b
bit_at (b ∷ bits) (suc i) = bit_at bits i

unfoldable pub add_linear : List Bool → ℤ → List (ℕ × ℤ) → ℤ
add_linear x energy [] = energy
add_linear x energy ((i, coeff) ∷ terms) =
    add_linear x (energy +ℤ times_bit coeff (bit_at x i)) terms

unfoldable pub add_quadratic : List Bool → ℤ → List ((ℕ × ℕ) × ℤ) → ℤ
add_quadratic x energy [] = energy
add_quadratic x energy ((k, coeff) ∷ terms) =
    add_quadratic x (energy +ℤ times_bit (times_bit coeff (bit_at x k.0)) (bit_at x k.1)) terms

unfoldable pub qubo_energy : QuboModel → List BitChar → Result BitstringError ℤ
qubo_energy q bits =
    raise_if (length bits != q.num_vars) BitstringError.wrong_length
    >> (let x = map is_one bits in
        ok (add_quadratic x (add_linear x q.offset q.linear) q.quadratic))
