-- ===== src/Optimization/Qubo/Energy.antt =====
-- src/orbitmind/optimization/qubo.py and evaluation.py: the energy of an assignment is its penalized
-- objective, negated.
use orbit_mind_living_q_core.Common.{
  ℕ, suc, ◌+◌, ◌*◌, ◌≡◌, refl, ap, ◌∙◌, inl, inr, String, true, false, Option, none, some, List, [],
  ◌∷◌, map, ltb, if◌then◌else◌, ◌==◌, ◌!=◌, string_eq, nat_eq, length, any, All, contains, to_set,
  ok, Bool-cases, ℤ, pos, pos_part, neg_part, ◌-ℤ◌, -ℤ_parts, eq_of_parts, count, get, arith,
}
use orbit_mind_living_q_core.Optimization.Models.{
  SchedulingConflict, SchedulingProblem, ScheduleEvaluation, QuboModel,
}
use orbit_mind_living_q_core.Optimization.Problem.{
  opportunity_ids, variable_order, generate_conflicts, total_weighted_value_bound, resolved_penalty,
  penalty_from, penalty_rejected,
}
use orbit_mind_living_q_core.Optimization.Problem.Normal.{IsNormal}
use orbit_mind_living_q_core.Optimization.Problem.Conflicts.{IsWithin, generate_conflicts-IsWithin}
use orbit_mind_living_q_core.Optimization.Evaluation.{
  Evaluator, evaluator_at, make_evaluator, chosen, penalized_count, raw_value, evaluate, BitChar,
  is_one, is_other, decode, evaluate_bitstring,
}
use orbit_mind_living_q_core.Optimization.Qubo.{
  enumerate_from, linear_terms, add_coefficient, quadratic_terms, weighted_value_of, build_qubo,
  bit_at, add_linear, add_quadratic, qubo_at, qubo_energy, index_at,
}
use orbit_mind_living_q_core.Optimization.Qubo.Terms.{
  enumerate_from-IsRead, add_linear-parts, quadratic_terms-parts,
}
use orbit_mind_living_q_core.Optimization.Qubo.Chosen.{
  variable_order_unique, variable_order-contains, weighted-chosen, mandatory-split,
  penalized-chosen,
}

-- The sums of the two loops, put together.
join_parts :
    (pos_e neg_e pos_l neg_l value penalty present missing all hit counted : ℕ)
    → pos_l + 0 + (value + penalty * present) ≡ neg_l + penalty * all
    → pos_e + neg_l ≡ neg_e + pos_l + penalty * hit
    → present + missing ≡ all
    → counted ≡ hit + missing
    → pos_e + value ≡ neg_e + penalty * counted
join_parts pos_e neg_e pos_l neg_l value penalty present missing all hit counted lin quad split
      count =
    let whole = ap (λ n. penalty * n) split in
    let total = ap (λ n. penalty * n) count in omega arith

-- The energy of the bits of a selection, at any penalty, in its two parts.
energy-parts :
    (p : SchedulingProblem) (penalty : ℕ) (bits : List BitChar) (quadratic : List ((ℕ × ℕ) × ℤ))
    → IsNormal p
    → length bits ≡ length (variable_order p)
    → quadratic_terms (enumerate_from 0 (variable_order p)) penalty (generate_conflicts p) []
      ≡ ok quadratic
    → let ev = evaluator_at p penalty in
      let ids = chosen ev (decode (variable_order p) bits) in
      let mandatory = to_set p.constraints.mandatory in
      let x = map is_one bits in
      let energy =
        add_quadratic x
          (add_linear x (pos (penalty * length mandatory)) (
            linear_terms
              (weighted_value_of p)
              penalty
              mandatory
              (enumerate_from 0 (variable_order p))))
          quadratic in
      pos_part energy + raw_value ev ids * p.objective.mission_value_weight
      ≡ neg_part energy + penalty * penalized_count ev ids
unfolding add_quadratic
energy-parts p penalty bits quadratic normal len built =
    let order = variable_order p in
    let selected = decode order bits in
    let ids = chosen (evaluator_at p penalty) selected in
    let x = map is_one bits in
    let mandatory = to_set p.constraints.mandatory in
    let read =
      enumerate_from-IsRead (λ id. contains id selected) x 0 order bits
        (λ i j h. ap (bit_at x) (omega arith)) len (variable_order_unique p normal)
        (λ id m. refl) in
    let lin =
      add_linear-parts (weighted_value_of p) penalty mandatory (λ id. contains id selected) x 0
        order (pos (penalty * length mandatory)) read in
    let quad =
      quadratic_terms-parts (λ id. contains id selected) x (enumerate_from 0 order) penalty
        (generate_conflicts p)
        (add_linear x (pos (penalty * length mandatory))
          (linear_terms (weighted_value_of p) penalty mandatory (enumerate_from 0 order)))
        [] quadratic read built in
    let value = weighted-chosen p normal penalty selected in
    let split = mandatory-split p normal penalty selected in
    let counted = penalized-chosen p normal penalty selected in
    join_parts _ _ _ _ _ penalty _ _ _ _ _ (rw value lin) quad split counted

-- Every variable of a conflict has an index.
pub get-enumerate :
    (k : ℕ) (id : String) (js : List String)
    → contains id js ≡ true
    → (i : ℕ) × (get id (enumerate_from k js) ≡ some i)
unfolding enumerate_from get
get-enumerate k id [] h = absurd (ground arith)
get-enumerate k id (j ∷ js) h = elim (Bool-cases (j == id)) [
  | inl same ↦ (k, ground arith)
  | inr other ↦ let (i, e) = get-enumerate (suc k) id js (ground arith) in (i, ground arith)
]

index_at-enumerate :
    (k : ℕ) (id : String) (js : List String)
    → contains id js ≡ true
    → (i : ℕ) × (index_at id (enumerate_from k js) ≡ ok i)
unfolding index_at
index_at-enumerate k id js h = let (i, e) = get-enumerate k id js h in (i, rw (e, index_at) refl)

pub quadratic_terms-total :
    (k penalty : ℕ) (js : List String) (cs : List SchedulingConflict) (terms : List ((ℕ × ℕ) × ℤ))
    → All (IsWithin js) cs
    → (last : List ((ℕ × ℕ) × ℤ)) × (quadratic_terms (enumerate_from k js) penalty cs terms
        ≡ ok last)
unfolding quadratic_terms
quadratic_terms-total k penalty js [] terms h = (terms, refl)
quadratic_terms-total k penalty js (c ∷ cs) terms ((a, b), h) =
    let (i, at_a) = index_at-enumerate k c.opportunity_a js a in
    let (j, at_b) = index_at-enumerate k c.opportunity_b js b in
    let key : ℕ × ℕ = if ltb i j then (i, j) else (j, i) in
    let (last, e) = quadratic_terms-total k penalty js cs (add_coefficient key penalty terms) h in
    (last, rw (at_a, at_b) e)

pub IsWithin-order :
    (p : SchedulingProblem) (cs : List SchedulingConflict)
    → All (IsWithin (opportunity_ids p)) cs
    → All (IsWithin (variable_order p)) cs
IsWithin-order p [] h = tt
IsWithin-order p (c ∷ cs) ((a, b), h) = (
  (variable_order-contains p c.opportunity_a ∙ a, variable_order-contains p c.opportunity_b ∙ b),
  IsWithin-order p cs h,
)

penalty_from-total :
    (explicit : Option ℕ) (automatic : ℕ)
    → penalty_rejected explicit ≡ false
    → (penalty : ℕ) × (penalty_from explicit automatic ≡ ok penalty)
penalty_from-total none automatic h = (automatic, refl)
penalty_from-total (some c) automatic h = (c, rw h refl)

-- A normal problem has a penalty.
pub resolved_penalty-total :
    (p : SchedulingProblem) → IsNormal p → (penalty : ℕ) × (resolved_penalty p ≡ ok penalty)
unfolding resolved_penalty
resolved_penalty-total p n =
    penalty_from-total p.objective.penalty_coefficient (total_weighted_value_bound p + 1)
      n.penalty_positive

pub qubo_energy-sum :
    (p : SchedulingProblem) (penalty : ℕ) (quadratic : List ((ℕ × ℕ) × ℤ)) (bits : List BitChar)
    → IsNormal p
    → length bits ≡ length (variable_order p)
    → quadratic_terms (enumerate_from 0 (variable_order p)) penalty (generate_conflicts p) []
      ≡ ok quadratic
    → qubo_energy (qubo_at p penalty quadratic) bits
      ≡ ok (
          pos 0
          -ℤ (evaluate
              (evaluator_at p penalty)
              (decode (variable_order p) bits)).penalized_objective)
unfolding qubo_energy evaluate
qubo_energy-sum p penalty quadratic bits normal len built =
    let fits : (length bits != length (variable_order p)) ≡ false = ground arith in
    let parts = energy-parts p penalty bits quadratic normal len built in
    let objective =
      (evaluate (evaluator_at p penalty) (decode (variable_order p) bits)).penalized_objective in
    let negated = -ℤ_parts (pos 0) objective in rw fits (ap ok (eq_of_parts _ _ (ground arith)))

-- On quantities that are whole numbers, on which the source's float arithmetic is exact up to 2 ^ 53:
-- for a normal problem the encoding, the evaluator and both readings of a bit string of its length
-- succeed, and the energy of the bits is their penalized objective, negated.
pub qubo_energy-objective :
    (p : SchedulingProblem) (bits : List BitChar)
    → IsNormal p
    → length bits ≡ length (variable_order p)
    → any is_other bits ≡ false
    → (q : QuboModel) × (ev : Evaluator) × (s : ScheduleEvaluation) × (build_qubo p ≡ ok q)
      × (make_evaluator p ≡ ok ev)
      × (evaluate_bitstring ev bits ≡ ok s)
      × (qubo_energy q bits ≡ ok (pos 0 -ℤ s.penalized_objective))
unfolding build_qubo make_evaluator evaluate_bitstring
qubo_energy-objective p bits normal len binary =
    let (penalty, found) = resolved_penalty-total p normal in
    let order = variable_order p in
    let (quadratic, built) =
      quadratic_terms-total 0 penalty order (generate_conflicts p) []
        (IsWithin-order p (generate_conflicts p) (generate_conflicts-IsWithin p normal)) in
    let ev = evaluator_at p penalty in
    let fits : (length bits != length order) ≡ false = ground arith in
    (
      qubo_at p penalty quadratic,
      ev,
      evaluate ev (decode order bits),
      rw (found, built) refl,
      rw found refl,
      rw (fits, binary) refl,
      qubo_energy-sum p penalty quadratic bits normal len built,
    )
