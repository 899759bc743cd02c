-- ===== src/Optimization/Penalties/Sound.antt =====
-- src/orbitmind/optimization/penalties.py: a penalty that the policy calls sufficient never lets an
-- assignment with a violation be optimal.
use orbit_mind_living_q_core.Common.{
  ℕ, zero, suc, ◌+◌, ◌*◌, ◌≤◌, ◌<◌, ◌≡◌, refl, ap, ◌∙◌, subst, inl, inr, Bool, true, false, not,
  ◌&&◌, Option, none, some, List, [], ◌∷◌, map, ltb, leb, ◌==◌, nat_eq, string_eq, length, to_set,
  count, Result, err, ok, ◌>>=◌, >>=-eq-ok, Bool-cases, Option-cases, ℤ, pos, sub_ℕ, ◌-ℤ◌, -ℤ_parts,
  ltb_ℤ, arith,
}
use orbit_mind_living_q_core.Optimization.Models.{SchedulingProblem, QuboModel, SchedulingConflict}
use orbit_mind_living_q_core.Optimization.Problem.{
  variable_order, generate_conflicts, resolved_penalty, total_weighted_value_bound,
}
use orbit_mind_living_q_core.Optimization.Problem.Normal.{IsNormal}
use orbit_mind_living_q_core.Optimization.Problem.Conflicts.{generate_conflicts-IsWithin}
use orbit_mind_living_q_core.Optimization.Evaluation.{
  evaluator_at, chosen, penalized_count, evaluate, BitChar, is_one, BitstringError, decode,
  bitstring,
}
use orbit_mind_living_q_core.Optimization.Evaluation.Values.{weighted-bound}
use orbit_mind_living_q_core.Optimization.Evaluation.Selections.{chosen-bitstring}
use orbit_mind_living_q_core.Optimization.Qubo.{enumerate_from, qubo_at, build_qubo, qubo_energy}
use orbit_mind_living_q_core.Optimization.Qubo.Energy.{
  IsWithin-order, quadratic_terms-total, qubo_energy-sum,
}
use orbit_mind_living_q_core.Optimization.Penalties.{
  bit_of, encoded_constraints_satisfiable, encoded_violation_count, violations_of, all_bits, Bests,
  search_energies, strictly_below, proves_sufficient, lift_bits, exhaustive_max_vars,
  exhaustive_verdict, Verdict, exhaustive_bests, sized_verdict, has_encoded, valid_penalty,
  decide_policy, PenaltyPolicy, penalty_policy,
}
use orbit_mind_living_q_core.Optimization.Penalties.Search.{
  IsAssignment, all_bits-complete, all_bits-IsAssignment, IsReached, search-infeasible,
  search-IsAttained,
}
use orbit_mind_living_q_core.Optimization.Penalties.Counts.{
  violations_of-penalized, bitstring-IsAssignment, encoded_constraints_satisfiable_iff,
}

-- Some assignment without a violation has a lower energy.
abbrev pub IsUndercut : SchedulingProblem → QuboModel → ℤ → Type 0
IsUndercut p q energy =
    (good : List BitChar) × IsAssignment (length (variable_order p)) good
    × ((violations_of p good == 0) ≡ true)
    × (lower : ℤ) × (qubo_energy q good ≡ ok lower)
    × (ltb_ℤ lower energy ≡ true)

below_reached :
    (a energy : ℤ) (best : Option ℤ)
    → strictly_below (some a) best ≡ true
    → IsReached energy best
    → ltb_ℤ a energy ≡ true
below_reached a energy none h (m, e, le) = cc
below_reached a energy (some b) h (m, e, le) = let same : b ≡ m = ground arith in ground arith

feasible_there :
    (best worst : Option ℤ) → strictly_below best worst ≡ true → (m : ℤ) × (best ≡ some m)
feasible_there none worst h = cc
feasible_there (some m) worst h = (m, refl)

-- The result of the exhaustive search.
search-separates :
    (p : SchedulingProblem) (q : QuboModel) (bests : Bests) (bits : List BitChar) (energy : ℤ)
    → search_energies q
        (violations_of p)
        (all_bits (length (variable_order p)))
        (record { best_feasible = none; best_infeasible = none })
      ≡ ok bests
    → proves_sufficient bests ≡ true
    → IsAssignment (length (variable_order p)) bits
    → (violations_of p bits == 0) ≡ false
    → qubo_energy q bits ≡ ok energy
    → IsUndercut p q energy
unfolding proves_sufficient
search-separates p q bests bits energy found enough there bad is_energy =
    let n = length (variable_order p) in
    let start : Bests = record { best_feasible = none; best_infeasible = none } in
    let (m, best) = feasible_there bests.best_feasible bests.best_infeasible enough in
    let (good, good_there, clean, good_energy) =
      search-IsAttained q (violations_of p) (IsAssignment n) (all_bits n) start bests found
        (all_bits-IsAssignment n) (λ m e. absurd (ground arith)) m best in
    let reached =
      all_bits-complete
        (λ bits.
          (violations_of p bits == 0) ≡ false
          → (energy : ℤ) → qubo_energy q bits ≡ ok energy
          → IsReached energy bests.best_infeasible)
        n bits (search-infeasible q (violations_of p) (all_bits n) start bests found) there bad
        energy is_energy in
    let enough_m : strictly_below (some m) bests.best_infeasible ≡ true = rw best at enough in
    (
      good,
      good_there,
      clean,
      m,
      good_energy,
      below_reached m energy bests.best_infeasible enough_m reached,
    )

-- The energies of two counts of violations.
apart :
    (penalty bound value other count other_count : ℕ)
    → value ≤ bound
    → bound < penalty
    → ¬ (count ≡ 0)
    → other_count ≡ 0
    → ltb_ℤ (pos 0 -ℤ sub_ℕ other (penalty * other_count)) (pos 0 -ℤ sub_ℕ value (penalty * count))
      ≡ true
apart penalty bound value other zero other_count h k some_there e = absurd (some_there refl)
apart penalty bound value other (suc n) other_count h k some_there e =
    let free = ap (λ c. penalty * c) e in
    let first = -ℤ_parts (pos 0) (sub_ℕ other (penalty * other_count)) in
    let second = -ℤ_parts (pos 0) (sub_ℕ value (penalty * suc n)) in
    let whole : penalty * suc n ≡ penalty + penalty * n = omega arith in ground arith

-- A penalty above the bound, with encoded constraints that some assignment meets.
bound-separates :
    (p : SchedulingProblem) (penalty : ℕ) (q : QuboModel) (bits : List BitChar) (energy : ℤ)
    → IsNormal p
    → resolved_penalty p ≡ ok penalty
    → total_weighted_value_bound p < penalty
    → encoded_constraints_satisfiable p ≡ true
    → IsAssignment (length (variable_order p)) bits
    → (violations_of p bits == 0) ≡ false
    → build_qubo p ≡ ok q
    → qubo_energy q bits ≡ ok energy
    → IsUndercut p q energy
unfolding build_qubo evaluate
bound-separates p penalty q bits energy normal found above satisfiable there bad built is_energy =
    let order = variable_order p in
    let (quadratic, terms) =
      quadratic_terms-total 0 penalty order (generate_conflicts p) []
        (IsWithin-order p (generate_conflicts p) (generate_conflicts-IsWithin p normal)) in
    let made : build_qubo p ≡ ok (qubo_at p penalty quadratic) = rw (found, terms) refl in
    let same : qubo_at p penalty quadratic ≡ q = ground arith in
    let (selected, clean) = (encoded_constraints_satisfiable_iff p penalty normal).0 satisfiable in
    let good = bitstring selected order in
    let good_there = bitstring-IsAssignment selected order in
    let ev = evaluator_at p penalty in
    let good_count =
      violations_of-penalized p normal good good_there.0 penalty
      ∙ ap (penalized_count ev) (chosen-bitstring ev selected)
      ∙ clean in
    let bad_count = violations_of-penalized p normal bits there.0 penalty in
    let good_energy = qubo_energy-sum p penalty quadratic good normal good_there.0 terms in
    let bad_energy = qubo_energy-sum p penalty quadratic bits normal there.0 terms in
    let value = weighted-bound p penalty (decode order bits) normal.ids_unique in
    let low = pos 0 -ℤ (evaluate ev (decode order good)).penalized_objective in
    let high = pos 0 -ℤ (evaluate ev (decode order bits)).penalized_objective in
    let q_good : qubo_energy q good ≡ ok low =
      subst (λ q. qubo_energy q good ≡ ok low) same good_energy in
    let q_bits : qubo_energy q bits ≡ ok high =
      subst (λ q. qubo_energy q bits ≡ ok high) same bad_energy in
    let mine : high ≡ energy = ground arith in
    let lower =
      apart penalty (total_weighted_value_bound p) _ _
        (penalized_count ev (chosen ev (decode order bits)))
        (penalized_count ev (chosen ev (decode order good))) value above (λ e. ground arith)
        (ap (penalized_count ev) (chosen-bitstring ev selected) ∙ clean) in
    (good, good_there, ground arith, low, q_good, subst (λ e. ltb_ℤ low e ≡ true) mine lower)

valid_penalty-lem :
    {E : Type 0} (found : Result E ℕ) (penalty : ℕ)
    → valid_penalty found ≡ some penalty
    → found ≡ ok penalty
valid_penalty-lem (err e) penalty h = cc
valid_penalty-lem (ok c) penalty h = ground arith

count_of_none : {A : Type 0} (f : A → Bool) (xs : List A) → length xs ≡ 0 → count f xs ≡ 0
count_of_none f [] h = refl
count_of_none f (x ∷ xs) h = absurd (omega arith)

lift_bits-eq-ok :
    {A : Type 0} (call : Result BitstringError A) {a : A} → lift_bits call ≡ ok a → call ≡ ok a
lift_bits-eq-ok (ok b) h = ground arith
lift_bits-eq-ok (err e) h = cc

-- Without encoded constraints nothing is violated.
nothing_encoded :
    (p : SchedulingProblem) (bits : List BitChar)
    → has_encoded p ≡ false
    → (violations_of p bits == 0) ≡ true
unfolding encoded_violation_count
nothing_encoded p bits h =
    let x = map is_one bits in
    let index = enumerate_from 0 (variable_order p) in
    let conflicts =
      count_of_none
        (λ (c : SchedulingConflict).
          bit_of x index c.opportunity_a && bit_of x index c.opportunity_b)
        (generate_conflicts p) (ground arith) in
    let missing =
      count_of_none (λ m. not (bit_of x index m)) (to_set p.constraints.mandatory) (ground arith) in
    ground arith

sized-separates :
    (p : SchedulingProblem) (penalty : ℕ) (v : Verdict) (q : QuboModel) (bits : List BitChar)
    (energy : ℤ)
    → IsNormal p
    → resolved_penalty p ≡ ok penalty
    → encoded_constraints_satisfiable p ≡ true
    → sized_verdict p penalty ≡ ok v
    → v.sufficient ≡ true
    → IsAssignment (length (variable_order p)) bits
    → (violations_of p bits == 0) ≡ false
    → build_qubo p ≡ ok q
    → qubo_energy q bits ≡ ok energy
    → IsUndercut p q energy
unfolding sized_verdict exhaustive_bests
sized-separates p penalty v q bits energy normal found satisfiable decided enough there bad built
      is_energy =
    elim (Bool-cases (leb (length (variable_order p)) exhaustive_max_vars)) [
      | inl small ↦
          let searched : (exhaustive_bests p >>= (λ b. ok (exhaustive_verdict b))) ≡ ok v =
            rw (sized_verdict, small) at decided in
          let (bests, call, last) = >>=-eq-ok (exhaustive_bests p) _ searched in
          let enough_bests : proves_sufficient bests ≡ true = ground arith in
          let loop = rw (exhaustive_bests, built) at call in
          search-separates p q bests bits energy (lift_bits-eq-ok _ loop) enough_bests there bad
            is_energy
      | inr large ↦ elim (Bool-cases (ltb (total_weighted_value_bound p) penalty)) [
        | inl above ↦
            bound-separates p penalty q bits energy normal found (ground arith) satisfiable there
              bad built is_energy
        | inr below ↦ absurd (ground arith)
      ]
    ]

-- When the policy calls a normal problem's penalty sufficient, every bit string that violates an
-- encoded constraint has a higher energy than some bit string that violates none.
pub penalty_policy-separates :
    (p : SchedulingProblem) (policy : PenaltyPolicy) (q : QuboModel) (bits : List BitChar)
    (energy : ℤ)
    → IsNormal p
    → penalty_policy p ≡ ok policy
    → policy.sufficient ≡ true
    → IsAssignment (length (variable_order p)) bits
    → (violations_of p bits == 0) ≡ false
    → build_qubo p ≡ ok q
    → qubo_energy q bits ≡ ok energy
    → IsUndercut p q energy
unfolding penalty_policy decide_policy
penalty_policy-separates p policy q bits energy normal decided enough there bad built is_energy =
    let penalty = valid_penalty (resolved_penalty p) in
    let (v, call, last) = >>=-eq-ok (decide_policy p penalty) _ decided in
    let mine : v.sufficient ≡ true = ground arith in
    elim (Bool-cases (has_encoded p)) [
      | inr free ↦ absurd (ground (arith, nothing_encoded p bits free))
      | inl encoded ↦ elim (Bool-cases (encoded_constraints_satisfiable p)) [
        | inr never ↦ absurd (ground arith)
        | inl satisfiable ↦ elim (Option-cases penalty) [
          | inl e ↦ absurd (ground arith)
          | inr (c, e) ↦
              sized-separates p c v q bits energy normal
                (valid_penalty-lem (resolved_penalty p) c e) satisfiable (ground arith) mine there
                bad built is_energy
        ]
      ]
    ]
