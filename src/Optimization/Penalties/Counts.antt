-- ===== src/Optimization/Penalties/Counts.antt =====
-- src/orbitmind/optimization/penalties.py: the encoded violations of a bit string are those that the
-- evaluator penalizes, and what decides whether some selection has none.
use orbit_mind_living_q_core.Common.{
  ℕ, ◌+◌, ◌≡◌, refl, ap, ◌∙◌, ◌↔◌, inl, inr, String, Bool, true, false, not, ◌&&◌, List, [], ◌∷◌,
  map, ◌==◌, string_eq, length, any, All, suc, contains, to_set, Bool-cases, count, to_set-eq,
  arith,
}
use orbit_mind_living_q_core.Optimization.Models.{SchedulingConflict, SchedulingProblem}
use orbit_mind_living_q_core.Optimization.Problem.{
  opportunity_ids, variable_order, generate_conflicts,
}
use orbit_mind_living_q_core.Optimization.Problem.Normal.{IsNormal}
use orbit_mind_living_q_core.Optimization.Problem.Conflicts.{IsWithin, generate_conflicts-IsWithin}
use orbit_mind_living_q_core.Optimization.Evaluation.{
  evaluator_at, chosen, penalized_count, BitChar, is_one, is_other, decode, bitstring,
}
use orbit_mind_living_q_core.Optimization.Qubo.{enumerate_from, bit_at}
use orbit_mind_living_q_core.Optimization.Qubo.Terms.{
  IsRead, enumerate_from-IsRead, IsRead-get, hits,
}
use orbit_mind_living_q_core.Optimization.Qubo.Energy.{get-enumerate}
use orbit_mind_living_q_core.Optimization.Qubo.Chosen.{
  variable_order_unique, variable_order-contains, missing-chosen, penalized-chosen,
}
use orbit_mind_living_q_core.Optimization.Penalties.{
  encoded_constraints_satisfiable, bit_of, encoded_violation_count, violations_of,
}

bit_of-read :
    (X : String → Bool) (x : List Bool) (ids : List String) (id : String)
    → IsRead X x (enumerate_from 0 ids)
    → contains id ids ≡ true
    → bit_of x (enumerate_from 0 ids) id ≡ X id
unfolding bit_of
bit_of-read X x ids id read known =
    let (i, e) = get-enumerate 0 id ids known in
    rw (e, bit_of) (IsRead-get X x id i (enumerate_from 0 ids) read e)

module _ (p : SchedulingProblem) (normal : IsNormal p) (bits : List BitChar)
    (fits : length bits ≡ length (variable_order p)) where
  abbrev selected : List String
  selected = decode (variable_order p) bits

  read_id :
      (id : String)
      → contains id (opportunity_ids p) ≡ true
      → bit_of (map is_one bits) (enumerate_from 0 (variable_order p)) id ≡ contains id selected
  read_id id known =
      bit_of-read (λ id. contains id selected) (map is_one bits) (variable_order p) id
        (enumerate_from-IsRead (λ id. contains id selected) (map is_one bits) 0 (variable_order p)
          bits (λ i j h. ap (bit_at (map is_one bits)) (omega arith)) fits
          (variable_order_unique p normal) (λ id m. refl))
        (variable_order-contains p id ∙ known)

  count-hits :
      (cs : List SchedulingConflict)
      → All (IsWithin (opportunity_ids p)) cs
      → count
          (λ c.
            bit_of (map is_one bits) (enumerate_from 0 (variable_order p)) c.opportunity_a
            && bit_of (map is_one bits) (enumerate_from 0 (variable_order p)) c.opportunity_b)
          cs
        ≡ count (hits (λ id. contains id selected)) cs
  count-hits [] h = refl
  count-hits (c ∷ cs) ((a, b), h) =
      ground (arith, read_id c.opportunity_a a, read_id c.opportunity_b b, count-hits cs h)

  count-missing :
      (ms : List String)
      → All (λ m. contains m (opportunity_ids p) ≡ true) ms
      → count (λ m. not (bit_of (map is_one bits) (enumerate_from 0 (variable_order p)) m)) ms
        ≡ count (λ m. not (contains m selected)) ms
  count-missing [] h = refl
  count-missing (m ∷ ms) (k, h) = ground (arith, read_id m k, count-missing ms h)

  -- The count of the policy is the count of the evaluator.
  pub violations_of-penalized :
      (penalty : ℕ)
      → violations_of p bits
        ≡ penalized_count (evaluator_at p penalty) (chosen (evaluator_at p penalty) selected)
  unfolding encoded_violation_count
  violations_of-penalized penalty =
      let ms = to_set p.constraints.mandatory in
      let same = to_set-eq p.constraints.mandatory normal.mandatory_unique in
      let known : All (λ m. contains m (opportunity_ids p) ≡ true) ms =
        rw same normal.mandatory_known in
      let hit = count-hits (generate_conflicts p) (generate_conflicts-IsWithin p normal) in
      let missing = count-missing ms known in
      let there = missing-chosen p normal penalty selected ms known in
      let all = penalized-chosen p normal penalty selected in ground arith

pub bitstring-IsAssignment :
    (selected order : List String)
    → (length (bitstring selected order) ≡ length order)
      × (any is_other (bitstring selected order) ≡ false)
unfolding bitstring
bitstring-IsAssignment selected [] = (refl, refl)
bitstring-IsAssignment selected (id ∷ ids) =
    let rest = bitstring-IsAssignment selected ids in
    elim (Bool-cases (contains id selected)) [
      | inl e ↦ rw e (ap suc rest.0, rest.1)
      | inr e ↦ rw e (ap suc rest.0, rest.1)
    ]

none-missing :
    (f : String → Bool) (id : String) (ms : List String)
    → count (λ m. not (f m)) ms ≡ 0
    → contains id ms ≡ true
    → f id ≡ true
none-missing f id [] e k = cc
none-missing f id (m ∷ ms) e k = elim (Bool-cases (m == id)) [
  | inl same ↦ let here : m ≡ id = ground arith in ground (arith, ap f here)
  | inr other ↦ ground (arith, none-missing f id ms)
]

itself :
    (ms js : List String)
    → ((m : String) → contains m ms ≡ true → contains m js ≡ true)
    → count (λ m. not (contains m js)) ms ≡ 0
itself [] js h = refl
itself (m ∷ ms) js h =
    let first = h m (ground arith) in
    let rest = itself ms js (λ k e. h k (ground arith)) in ground arith

no-hit :
    (X : String → Bool) (cs : List SchedulingConflict)
    → (any (hits X) cs ≡ false) ↔ (count (hits X) cs ≡ 0)
no-hit X [] = (λ e. refl, λ e. refl)
no-hit X (c ∷ cs) = let (to, from) = no-hit X cs in (λ e. ground arith, λ e. ground arith)

fewer-hits :
    (X Y : String → Bool) (cs : List SchedulingConflict)
    → ((id : String) → X id ≡ true → Y id ≡ true)
    → any (hits Y) cs ≡ false
    → any (hits X) cs ≡ false
fewer-hits X Y [] h e = refl
fewer-hits X Y (c ∷ cs) h e =
    ground (arith, h c.opportunity_a, h c.opportunity_b, fewer-hits X Y cs h)

-- What the evaluator penalizes, for any selection.
pub penalized-selected :
    (p : SchedulingProblem) (penalty : ℕ) (selected : List String)
    → IsNormal p
    → penalized_count (evaluator_at p penalty) (chosen (evaluator_at p penalty) selected)
      ≡ count (hits (λ id. contains id selected)) (generate_conflicts p)
        + count (λ m. not (contains m selected)) (to_set p.constraints.mandatory)
penalized-selected p penalty selected normal =
    let ms = to_set p.constraints.mandatory in
    let same = to_set-eq p.constraints.mandatory normal.mandatory_unique in
    let known : All (λ m. contains m (opportunity_ids p) ≡ true) ms =
      rw same normal.mandatory_known in
    let there = missing-chosen p normal penalty selected ms known in
    let all = penalized-chosen p normal penalty selected in ground arith

-- For a normal problem the analytic test on the mandatory set is exact: it passes just when some
-- selection breaks none of the encoded constraints.
pub encoded_constraints_satisfiable_iff :
    (p : SchedulingProblem) (penalty : ℕ)
    → IsNormal p
    → (encoded_constraints_satisfiable p ≡ true) ↔ (
        (selected : List String) × (penalized_count
            (evaluator_at p penalty)
            (chosen (evaluator_at p penalty) selected)
          ≡ 0))
unfolding encoded_constraints_satisfiable
encoded_constraints_satisfiable_iff p penalty normal =
    let ms = to_set p.constraints.mandatory in
    let cs = generate_conflicts p in
    (
      λ e.
          let counted = penalized-selected p penalty ms normal in
          let apart = (no-hit (λ id. contains id ms) cs).0 (ground arith) in
          let inside = itself ms ms (λ m k. k) in (ms, ground arith),
      λ (selected, e).
          let counted = penalized-selected p penalty selected normal in
          let apart = (no-hit (λ id. contains id selected) cs).1 (omega arith) in
          let inside : count (λ m. not (contains m selected)) ms ≡ 0 = omega arith in
          let smaller =
            fewer-hits (λ id. contains id ms) (λ id. contains id selected) cs
              (λ id k. none-missing (λ m. contains m selected) id ms inside k) apart in
          ground arith,
    )
