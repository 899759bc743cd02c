-- ===== src/Optimization/Problem/Normal.antt =====
-- src/orbitmind/optimization/problem.py: what `normalize_problem` leaves, and the endpoints of the
-- conflicts.
use orbit_mind_living_q_core.Common.{
  ℕ, ◌≤◌, ◌<◌, ◌≡◌, refl, ap, ◌∙◌, subst, inl, inr, String, Bool, true, false, not, ◌&&◌, ◌||◌,
  List, [], ◌∷◌, map, ltb, leb, ◌==◌, string_eq, nat_eq, length, any, All, contains, is_unique,
  Result, ok, ◌>>◌, raise_if, >>=-eq-ok, Bool-cases, str_leb, lex_leb, insert_sorted, sorted_by,
  unique_of_length, arith, codes,
}
use orbit_mind_living_q_core.Optimization.Models.{
  window_seconds, ObservationOpportunity, SchedulingProblem,
}
use orbit_mind_living_q_core.Optimization.Problem.{
  undeclared_satellite, undeclared_target, unknown_exclusion, exclusion_of_itself,
  unknown_mandatory, mandatory_repeats, opportunity_ids, repeats, max_weight, canonical_opportunity,
  canonical_opportunities, has_pair, ordered_pair, pair_leb, canonical_mutex, penalty_rejected,
  check_registries, stamped, normalize_problem,
}

-- Two guards that let a call go on.
guards-eq-ok :
    {E A : Type 0} (t u : Bool) (d e : E) (rest : Result E A) {a : A}
    → (raise_if t d >> raise_if u e >> rest) ≡ ok a
    → (t ≡ false) × (u ≡ false) × (rest ≡ ok a)
guards-eq-ok false false d e rest h = (refl, refl, h)
guards-eq-ok false true d e rest h = cc
guards-eq-ok true u d e rest h = cc

-- An opportunity of a normalized problem: its registries declare what it names, and its duration is
-- the length of its window.
abbrev pub IsCanonical : List String → List String → ObservationOpportunity → Type 0
IsCanonical sat_ids target_ids o =
    (contains o.satellite_id sat_ids ≡ true)
    × (contains o.target_id target_ids ≡ true)
    × (o.duration_seconds ≡ window_seconds o.window)

-- A pair of two known opportunities, the smaller first.
abbrev pub IsExclusion : List String → String × String → Type 0
IsExclusion ids pair =
    (contains pair.0 ids ≡ true)
    × (contains pair.1 ids ≡ true)
    × (str_leb pair.0 pair.1 ≡ true)
    × ((pair.0 == pair.1) ≡ false)

-- What a solver may take for granted.
pub record IsNormal (p : SchedulingProblem) : Type 0 where
  pub some_opportunity : 0 < length (opportunity_ids p)
  pub ids_unique : is_unique (opportunity_ids p) ≡ true
  pub within_limit : length (opportunity_ids p) ≤ p.limits.max_variables
  pub opportunities_canonical :
      All (IsCanonical (map (λ s. s.id) p.satellites) (map (λ t. t.id) p.targets)) p.opportunities
  pub weight_positive : 0 < p.objective.mission_value_weight
  pub weight_bounded : p.objective.mission_value_weight ≤ max_weight
  pub penalty_positive : penalty_rejected p.objective.penalty_coefficient ≡ false
  pub mandatory_known : All (λ m. contains m (opportunity_ids p) ≡ true) p.constraints.mandatory
  pub mandatory_unique : is_unique p.constraints.mandatory ≡ true
  pub exclusions_known : All (IsExclusion (opportunity_ids p)) p.constraints.mutually_exclusive

-- The opportunity with the length of its window as duration, and everything else as given.
abbrev pub with_window_length : ObservationOpportunity → ObservationOpportunity
with_window_length o = record {
  id = o.id;
  satellite_id = o.satellite_id;
  target_id = o.target_id;
  window = o.window;
  mission_value = o.mission_value;
  energy_cost = o.energy_cost;
  storage_cost = o.storage_cost;
  pointing_cost = o.pointing_cost;
  priority = o.priority;
  duration_seconds = window_seconds o.window;
}

ids-kept :
    (os : List ObservationOpportunity)
    → map (λ o. o.id) (map with_window_length os) ≡ map (λ o. o.id) os
ids-kept [] = refl
ids-kept (o ∷ os) = ap (λ is. o.id ∷ is) (ids-kept os)

-- What normalization leaves as it was given: the opportunities but for their durations, the
-- registries, the objective, the limits, and the constraints but for the exclusions.
pub record Kept (p normalized : SchedulingProblem) : Type 0 where
  pub opportunities : normalized.opportunities ≡ map with_window_length p.opportunities
  pub satellites : normalized.satellites ≡ p.satellites
  pub targets : normalized.targets ≡ p.targets
  pub objective : normalized.objective ≡ p.objective
  pub limits : normalized.limits ≡ p.limits
  pub constraints :
      record normalized.constraints { mutually_exclusive = [] }
      ≡ record p.constraints { mutually_exclusive = [] }

canonical_opportunities-lem :
    (sat_ids target_ids : List String) (os cs : List ObservationOpportunity)
    → canonical_opportunities sat_ids target_ids os ≡ ok cs
    → All (IsCanonical sat_ids target_ids) cs × (cs ≡ map with_window_length os)
unfolding canonical_opportunities
canonical_opportunities-lem sat_ids target_ids [] [] h = (tt, refl)
canonical_opportunities-lem sat_ids target_ids [] (c ∷ cs) h = cc
canonical_opportunities-lem sat_ids target_ids (o ∷ os) cs h =
    let (sat, target, h2) =
      guards-eq-ok (not (contains o.satellite_id sat_ids)) (not (contains o.target_id target_ids))
        undeclared_satellite undeclared_target _ h in
    let (rest, call, last) = >>=-eq-ok (canonical_opportunities sat_ids target_ids os) _ h2 in
    let (all_rest, same) = canonical_opportunities-lem sat_ids target_ids os rest call in
    let shape : canonical_opportunity o ∷ rest ≡ cs = ground arith in
    subst (λ cs. All (IsCanonical sat_ids target_ids) cs × (cs ≡ map with_window_length (o ∷ os)))
      shape
      (((ground arith, ground arith, refl), all_rest), ap (λ cs. canonical_opportunity o ∷ cs) same)

lex_leb-total : (xs ys : List ℕ) → lex_leb xs ys ≡ false → lex_leb ys xs ≡ true
lex_leb-total [] ys h = ground arith
lex_leb-total (x ∷ xs) [] h = refl
lex_leb-total (x ∷ xs) (y ∷ ys) h = ground (arith, lex_leb-total xs ys)

ordered_pair-IsExclusion :
    (ids : List String) (a b : String)
    → contains a ids ≡ true
    → contains b ids ≡ true
    → (a == b) ≡ false
    → IsExclusion ids (ordered_pair (a, b))
ordered_pair-IsExclusion ids a b known_a known_b differ = elim (Bool-cases (str_leb a b)) [
  | inl less ↦ rw less (known_a, known_b, less, differ)
  | inr more ↦ rw more (known_b, known_a, lex_leb-total (codes a) (codes b) more, ground arith)
]

canonical_mutex-lem :
    (ids : List String) (ps seen qs : List (String × String))
    → canonical_mutex ids seen ps ≡ ok qs
    → All (IsExclusion ids) qs
unfolding canonical_mutex
canonical_mutex-lem ids [] seen [] h = tt
canonical_mutex-lem ids [] seen (q ∷ qs) h = cc
canonical_mutex-lem ids ((a, b) ∷ ps) seen qs h =
    let pair = ordered_pair (a, b) in
    let (known, differ, h2) =
      guards-eq-ok (not (contains a ids) || not (contains b ids)) (a == b) unknown_exclusion
        exclusion_of_itself _ h in
    let (rest, call, last) = >>=-eq-ok (canonical_mutex ids _ ps) _ h2 in
    let all_rest = canonical_mutex-lem ids ps _ rest call in
    let first = ordered_pair-IsExclusion ids a b (ground arith) (ground arith) differ in
    elim (Bool-cases (has_pair pair seen)) [
      | inl old ↦
          let shape : rest ≡ qs = ground arith in subst (All (IsExclusion ids)) shape all_rest
      | inr new ↦
          let shape : pair ∷ rest ≡ qs = ground arith in
          subst (All (IsExclusion ids)) shape (first, all_rest)
    ]

All-insert_sorted :
    {A : Type 0} (P : A → Type 0) (le : A → A → Bool) (x : A) (ys : List A)
    → P x
    → All P ys
    → All P (insert_sorted le x ys)
All-insert_sorted P le x [] h hs = (h, tt)
All-insert_sorted P le x (y ∷ ys) h (hy, hs) = elim (Bool-cases (le x y)) [
  | inl e ↦ rw e (h, (hy, hs))
  | inr e ↦ rw e (hy, All-insert_sorted P le x ys h hs)
]

pub All-sorted :
    {A : Type 0} (P : A → Type 0) (le : A → A → Bool) (xs : List A)
    → All P xs
    → All P (sorted_by le xs)
All-sorted P le [] h = tt
All-sorted P le (x ∷ xs) (h, hs) =
    All-insert_sorted P le x (sorted_by le xs) h (All-sorted P le xs hs)

all_of_any :
    (ids ms : List String)
    → any (λ m. not (contains m ids)) ms ≡ false
    → All (λ m. contains m ids ≡ true) ms
all_of_any ids [] h = tt
all_of_any ids (m ∷ ms) h = (ground arith, all_of_any ids ms (ground arith))

not_repeated : (xs : List String) → repeats xs ≡ false → is_unique xs ≡ true
not_repeated xs h = unique_of_length xs (ground arith)

-- The tests on the registries, read off their success.
check_registries-lem :
    (p : SchedulingProblem)
    → check_registries p ≡ ok tt
    → ((length (opportunity_ids p) == 0) ≡ false)
      × (repeats (opportunity_ids p) ≡ false)
      × (ltb p.limits.max_variables (length (opportunity_ids p)) ≡ false)
      × ((ltb 0 p.objective.mission_value_weight && leb p.objective.mission_value_weight max_weight)
          ≡ true)
      × (penalty_rejected p.objective.penalty_coefficient ≡ false)
unfolding check_registries
check_registries-lem p h = ground arith

-- The problem that the passed tests leave.
stamped-IsNormal :
    (problem_checksum : SchedulingProblem → String) (p : SchedulingProblem)
    (cs : List ObservationOpportunity) (pairs : List (String × String))
    → check_registries p ≡ ok tt
    → All (IsCanonical (map (λ s. s.id) p.satellites) (map (λ t. t.id) p.targets)) cs
    → map (λ o. o.id) cs ≡ opportunity_ids p
    → any (λ m. not (contains m (opportunity_ids p))) p.constraints.mandatory ≡ false
    → repeats p.constraints.mandatory ≡ false
    → All (IsExclusion (opportunity_ids p)) pairs
    → IsNormal (stamped problem_checksum p cs pairs)
stamped-IsNormal problem_checksum p cs pairs checks canonical same known unique exclusions =
    let (some_there, distinct, few, weight, penalty) = check_registries-lem p checks in
    record {
      some_opportunity = rw same (ground arith);
      ids_unique = rw same (not_repeated (opportunity_ids p) distinct);
      within_limit = rw same (ground arith);
      opportunities_canonical = canonical;
      weight_positive = ground arith;
      weight_bounded = ground arith;
      penalty_positive = penalty;
      mandatory_known = rw same (all_of_any (opportunity_ids p) p.constraints.mandatory known);
      mandatory_unique = not_repeated p.constraints.mandatory unique;
      exclusions_known =
          rw same (All-sorted (IsExclusion (opportunity_ids p)) pair_leb pairs exclusions);
    }

pub normalize_problem-IsNormal :
    (problem_checksum : SchedulingProblem → String) (p normalized : SchedulingProblem)
    → normalize_problem problem_checksum p ≡ ok normalized
    → IsNormal normalized × Kept p normalized
unfolding normalize_problem
normalize_problem-IsNormal problem_checksum p normalized h =
    let ids = opportunity_ids p in
    let (u, checks, h1) = >>=-eq-ok (check_registries p) _ h in
    let (canonical_opps, call, h2) = >>=-eq-ok (canonical_opportunities _ _ p.opportunities) _ h1 in
    let (known, unique, h4) =
      guards-eq-ok (any (λ m. not (contains m ids)) p.constraints.mandatory)
        (repeats p.constraints.mandatory) unknown_mandatory mandatory_repeats _ h2 in
    let (pairs, mutex, h5) =
      >>=-eq-ok (canonical_mutex ids [] p.constraints.mutually_exclusive) _ h4 in
    let (canonical, kept) = canonical_opportunities-lem _ _ p.opportunities canonical_opps call in
    let normal =
      stamped-IsNormal problem_checksum p canonical_opps pairs checks canonical
        (ap (λ os. map (λ o. o.id) os) kept ∙ ids-kept p.opportunities) known unique
        (canonical_mutex-lem ids p.constraints.mutually_exclusive [] pairs mutex) in
    let shape : stamped problem_checksum p canonical_opps pairs ≡ normalized = ground arith in
    subst (λ n. IsNormal n × Kept p n) shape
      (
        normal,
        record {
          opportunities = kept;
          satellites = refl;
          targets = refl;
          objective = refl;
          limits = refl;
          constraints = refl;
        },
      )
