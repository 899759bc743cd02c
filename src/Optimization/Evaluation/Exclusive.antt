-- ===== src/Optimization/Evaluation/Exclusive.antt =====
-- src/orbitmind/optimization/problem.py and evaluation.py: the conflicts of a problem, against overlaps
-- and exclusions stated on its opportunities and its pairs.
use orbit_mind_living_q_core.Common.{
  ℕ, ◌*◌, ◌≤◌, ◌≡◌, ◌↔◌, refl, inl, inr, String, Bool, true, false, not, ◌&&◌, some, List, [], ◌∷◌,
  ◌++◌, map, if◌then◌else◌, string_eq, contains, count, to_set, length, All, Bool-cases, str_leb,
  sorted_by, arith,
}
use orbit_mind_living_q_core.Optimization.Models.{
  overlaps, ObservationOpportunity, SchedulingConflict, SchedulingProblem,
}
use orbit_mind_living_q_core.Optimization.Problem.{
  same_pair, has_pair, ordered_pair, overlaps_with, overlap_conflicts, exclusion_conflicts,
  generate_conflicts,
}
use orbit_mind_living_q_core.Optimization.Evaluation.{
  evaluator_at, chosen, both_selected, raw_value, evaluate,
}
use orbit_mind_living_q_core.Optimization.Evaluation.Usage.{usage}
use orbit_mind_living_q_core.Optimization.Evaluation.Feasible.{
  IsWithinCapacity, target_of, evaluate-feasible_iff,
}

-- If both opportunities are chosen and of one satellite, then their windows do not overlap.
abbrev pub IsApart : List String → ObservationOpportunity → ObservationOpportunity → Type 0
IsApart ids a b =
    contains a.id ids ≡ true
    → contains b.id ids ≡ true
    → a.satellite_id ≡ b.satellite_id
    → overlaps a.window b.window ≡ false

-- Every opportunity is apart from all that follow.
abbrev pub AllApart : List String → List ObservationOpportunity → Type 0
AllApart ids [] = Unit
AllApart ids (a ∷ rest) = All (IsApart ids a) rest × AllApart ids rest

-- Not both of a pair are chosen.
abbrev pub NotBoth : List String → String × String → Type 0
NotBoth ids pair = (contains pair.0 ids && contains pair.1 ids) ≡ false

count-append_zero :
    {A : Type 0} (p : A → Bool) (xs ys : List A)
    → (count p (xs ++ ys) ≡ 0) ↔ ((count p xs ≡ 0) × (count p ys ≡ 0))
count-append_zero p [] ys = (λ h. (refl, h), λ h. h.1)
count-append_zero p (x ∷ xs) ys =
    let (to, from) = count-append_zero p xs ys in
    (λ h. ground (arith, to), λ h. ground (arith, from))

overlaps_with-zero :
    (ids : List String) (a : ObservationOpportunity) (bs : List ObservationOpportunity)
    → (count (both_selected ids) (overlaps_with a bs) ≡ 0) ↔ All (IsApart ids a) bs
unfolding overlaps_with both_selected
overlaps_with-zero ids a [] = (λ h. tt, λ h. refl)
overlaps_with-zero ids a (b ∷ bs) =
    let (to, from) = overlaps_with-zero ids a bs in
    (
      λ h. (λ m n same. ground arith, to (ground arith)),
      λ h. let first = h.0 in let rest = from h.1 in ground arith,
    )

overlap_conflicts-zero :
    (ids : List String) (os : List ObservationOpportunity)
    → (count (both_selected ids) (overlap_conflicts os) ≡ 0) ↔ AllApart ids os
unfolding overlap_conflicts
overlap_conflicts-zero ids [] = (λ h. tt, λ h. refl)
overlap_conflicts-zero ids (o ∷ os) =
    let (to, from) =
      count-append_zero (both_selected ids) (overlaps_with o os) (overlap_conflicts os) in
    let (first_to, first_from) = overlaps_with-zero ids o os in
    let (rest_to, rest_from) = overlap_conflicts-zero ids os in
    (
      λ h. let (first, rest) = to h in (first_to first, rest_to rest),
      λ (first, rest). from (first_from first, rest_from rest),
    )

ordered_pair-NotBoth :
    (ids : List String) (p : String × String) → NotBoth ids (ordered_pair p) ↔ NotBoth ids p
ordered_pair-NotBoth ids (a, b) = elim (Bool-cases (str_leb a b)) [
  | inl e ↦ rw e (λ h. h, λ h. h)
  | inr e ↦ rw e (λ h. ground arith, λ h. ground arith)
]

has_pair-NotBoth :
    (ids : List String) (q : String × String) (seen : List (String × String))
    → All (NotBoth ids) seen
    → has_pair q seen ≡ true
    → NotBoth ids q
has_pair-NotBoth ids q [] h e = cc
has_pair-NotBoth ids q (x ∷ seen) (h, hs) e = elim (Bool-cases (same_pair q x)) [
  | inl same ↦
      let first : q.0 ≡ x.0 = ground arith in
      let second : q.1 ≡ x.1 = ground arith in rw (first, second) h
  | inr other ↦ has_pair-NotBoth ids q seen hs (ground arith)
]

exclusions-from :
    (ids : List String) (seen ps : List (String × String))
    → All (NotBoth ids) ps
    → count (both_selected ids) (exclusion_conflicts seen ps) ≡ 0
unfolding exclusion_conflicts both_selected
exclusions-from ids seen [] h = refl
exclusions-from ids seen (p ∷ ps) (h, hs) =
    let first = (ordered_pair-NotBoth ids p).1 h in
    let rest =
      exclusions-from ids (if has_pair (ordered_pair p) seen then seen else ordered_pair p ∷ seen)
        ps hs in
    elim (Bool-cases (has_pair (ordered_pair p) seen)) [
      | inl known ↦ ground arith
      | inr new ↦ ground arith
    ]

exclusions-to :
    (ids : List String) (seen ps : List (String × String))
    → All (NotBoth ids) seen
    → count (both_selected ids) (exclusion_conflicts seen ps) ≡ 0
    → All (NotBoth ids) ps
unfolding exclusion_conflicts both_selected
exclusions-to ids seen [] before h = tt
exclusions-to ids seen (p ∷ ps) before h = elim (Bool-cases (has_pair (ordered_pair p) seen)) [
  | inl known ↦ (
    (ordered_pair-NotBoth ids p).0 (has_pair-NotBoth ids (ordered_pair p) seen before known),
    exclusions-to ids seen ps before (rw known at h),
  )
  | inr new ↦
      let free : NotBoth ids (ordered_pair p) = ground arith in
      (
        (ordered_pair-NotBoth ids p).0 free,
        exclusions-to ids (ordered_pair p ∷ seen) ps (free, before) (ground arith),
      )
]

seen-NotBoth :
    (ids : List String) (cs : List SchedulingConflict)
    → count (both_selected ids) cs ≡ 0
    → All (NotBoth ids) (map (λ c. (c.opportunity_a, c.opportunity_b)) cs)
unfolding both_selected
seen-NotBoth ids [] h = tt
seen-NotBoth ids (c ∷ cs) h = (ground arith, seen-NotBoth ids cs (ground arith))

enforced-zero :
    (ids : List String) (enforced : Bool) (os : List ObservationOpportunity)
    → (count (both_selected ids) (if enforced then overlap_conflicts os else []) ≡ 0)
      ↔ (enforced ≡ true → AllApart ids os)
enforced-zero ids true os =
    let (to, from) = overlap_conflicts-zero ids os in (λ h e. to h, λ h. from (h refl))
enforced-zero ids false os = (λ h e. cc, λ h. refl)

-- The opportunities of a problem in the order of their ids.
abbrev pub opportunities_by_id : SchedulingProblem → List ObservationOpportunity
opportunities_by_id p = sorted_by (λ a b. str_leb a.id b.id) p.opportunities

generate_conflicts-zero :
    (p : SchedulingProblem) (ids : List String)
    → (count (both_selected ids) (generate_conflicts p) ≡ 0) ↔ (
        (p.constraints.enforce_no_overlap ≡ true → AllApart ids (opportunities_by_id p))
        × All (NotBoth ids) p.constraints.mutually_exclusive)
unfolding generate_conflicts
generate_conflicts-zero p ids =
    let conflicts =
      if p.constraints.enforce_no_overlap then overlap_conflicts (opportunities_by_id p) else [] in
    let seen = map (λ c. (c.opportunity_a, c.opportunity_b)) conflicts in
    let pairs = p.constraints.mutually_exclusive in
    let (to, from) =
      count-append_zero (both_selected ids) conflicts (exclusion_conflicts seen pairs) in
    let (apart, together) =
      enforced-zero ids p.constraints.enforce_no_overlap (opportunities_by_id p) in
    (
      λ h.
          let (first, second) = to h in
          (apart first, exclusions-to ids seen pairs (seen-NotBoth ids conflicts first) second),
      λ (first, second). from (together first, exclusions-from ids seen pairs second),
    )

-- The constraints of a problem on the chosen ids of a selection.
pub record MeetsConstraints (p : SchedulingProblem) (ids : List String) : Type 0 where
  pub apart : p.constraints.enforce_no_overlap ≡ true → AllApart ids (opportunities_by_id p)
  pub exclusive : All (NotBoth ids) p.constraints.mutually_exclusive
  pub mandatory_met : count (λ m. not (contains m ids)) (to_set p.constraints.mandatory) ≡ 0
  pub few_enough : (most : ℕ) → p.constraints.max_observations ≡ some most → length ids ≤ most
  pub energy_within :
      p.constraints.enforce_energy_capacity ≡ true
      → IsWithinCapacity (evaluator_at p 0) (λ o. o.energy_cost) (λ s. s.energy_capacity) ids
  pub storage_within :
      p.constraints.enforce_storage_capacity ≡ true
      → IsWithinCapacity (evaluator_at p 0) (λ o. o.storage_cost) (λ s. s.storage_capacity) ids
  pub targets_within :
      (most : ℕ)
      → p.constraints.per_target_limit ≡ some most
      → (target : String) → usage (target_of (evaluator_at p 0)) (λ _. 1) ids target ≤ most
  pub worth_enough :
      (least : ℕ)
      → p.constraints.min_mission_value ≡ some least
      → least ≤ raw_value (evaluator_at p 0) ids * p.objective.mission_value_weight

-- On quantities that are whole numbers, the evaluator of a problem finds a selection feasible just
-- when its chosen variables meet every constraint of the problem: if overlaps are forbidden, no two
-- of one satellite overlap, no exclusive pair is chosen, nothing mandatory is missing, and every
-- count, capacity and value is within its limit.
pub evaluate-MeetsConstraints_iff :
    (p : SchedulingProblem) (penalty : ℕ) (selected : List String)
    → ((evaluate (evaluator_at p penalty) selected).feasible ≡ true)
      ↔ MeetsConstraints p (chosen (evaluator_at p penalty) selected)
unfolding raw_value
evaluate-MeetsConstraints_iff p penalty selected =
    let ids = chosen (evaluator_at p penalty) selected in
    let (to, from) = evaluate-feasible_iff (evaluator_at p penalty) selected in
    let (opened, closed) = generate_conflicts-zero p ids in
    (
      λ h.
          let f = to h in
          let (apart, exclusive) = opened f.conflict_free in
          record {
            apart = apart;
            exclusive = exclusive;
            mandatory_met = f.mandatory_met;
            few_enough = f.few_enough;
            energy_within = f.energy_within;
            storage_within = f.storage_within;
            targets_within = f.targets_within;
            worth_enough = f.worth_enough;
          },
      λ m. from (record {
        conflict_free = closed (m.apart, m.exclusive);
        mandatory_met = m.mandatory_met;
        few_enough = m.few_enough;
        energy_within = m.energy_within;
        storage_within = m.storage_within;
        targets_within = m.targets_within;
        worth_enough = m.worth_enough;
      }),
    )
