-- ===== src/Optimization/Problem.antt =====
-- src/orbitmind/optimization/problem.py: the variable order, normalization, the conflicts and the size
-- of the penalty. A whole number is finite, so the finiteness tests are not there; the checksum is a
-- parameter, a function of the normalized problem.
pub mod Normal
pub mod Conflicts
use orbit_mind_living_q_core.Common.{
  ℕ, ◌+◌, ◌*◌, String, Bool, true, false, not, ◌&&◌, ◌||◌, Option, none, some, List, [], ◌∷◌, ◌++◌,
  map, ltb, leb, if◌then◌else◌, ◌==◌, ◌!=◌, string_eq, nat_eq, length, any, contains, to_set,
  Result, err, ok, ◌>>=◌, ◌>>◌, raise_if, str_leb, sorted_by, sum_of,
}
use orbit_mind_living_q_core.Optimization.Models.{
  ConstraintKind, window_seconds, overlaps, ObservationTarget, SatelliteResource,
  ObservationOpportunity, SchedulingConflict, ConstraintSet, SchedulingObjective, SchedulingProblem,
}

-- The messages of the source's `ValidationError`.
pub data ProblemError : Type 0 where
  no_opportunity opportunity_ids_repeat too_many_variables : ProblemError
  satellite_ids_repeat target_ids_repeat no_satellite no_target : ProblemError
  weight_out_of_range penalty_not_positive : ProblemError
  undeclared_satellite undeclared_target : ProblemError
  unknown_mandatory mandatory_repeats unknown_exclusion exclusion_of_itself : ProblemError

abbrev pub opportunity_ids : SchedulingProblem → List String
opportunity_ids p = map (λ o. o.id) p.opportunities

-- Opportunity ids sorted lexicographically.
unfoldable pub variable_order : SchedulingProblem → List String
variable_order p = sorted_by str_leb (opportunity_ids p)

-- `len(xs) != len(set(xs))`.
abbrev pub repeats : List String → Bool
repeats xs = length xs != length (to_set xs)

abbrev pub max_weight : ℕ
max_weight = 1_000_000

-- The duration is the length of the window.
abbrev pub canonical_opportunity : ObservationOpportunity → ObservationOpportunity
canonical_opportunity o = record o { duration_seconds = window_seconds o.window }

unfoldable pub canonical_opportunities :
    List String
    → List String
    → List ObservationOpportunity
    → Result ProblemError (List ObservationOpportunity)
canonical_opportunities sat_set target_set [] = ok []
canonical_opportunities sat_set target_set (o ∷ os) =
    raise_if (not (contains o.satellite_id sat_set)) undeclared_satellite
    >> raise_if (not (contains o.target_id target_set)) undeclared_target
    >> (canonical_opportunities sat_set target_set os >>= λ rest.
        ok (canonical_opportunity o ∷ rest))

abbrev pub same_pair : String × String → String × String → Bool
same_pair p q = p.0 == q.0 && p.1 == q.1

abbrev pub has_pair : String × String → List (String × String) → Bool
has_pair p = any (same_pair p)

-- The smaller id first.
abbrev pub ordered_pair : String × String → String × String
ordered_pair p = if str_leb p.0 p.1 then p else (p.1, p.0)

abbrev pub pair_leb : String × String → String × String → Bool
pair_leb p q = if p.0 == q.0 then str_leb p.1 q.1 else str_leb p.0 q.0

unfoldable pub canonical_mutex :
    List String
    → List (String × String)
    → List (String × String)
    → Result ProblemError (List (String × String))
canonical_mutex id_set seen [] = ok []
canonical_mutex id_set seen (p ∷ ps) =
    let pair = ordered_pair p in
    let known = has_pair pair seen in
    raise_if (not (contains p.0 id_set) || not (contains p.1 id_set)) unknown_exclusion
    >> raise_if (p.0 == p.1) exclusion_of_itself
    >> (canonical_mutex id_set (if known then seen else pair ∷ seen) ps >>= λ rest.
        ok (if known then rest else pair ∷ rest))

-- An explicit penalty must be positive.
abbrev pub penalty_rejected : Option ℕ → Bool
penalty_rejected none = false
penalty_rejected (some c) = leb c 0

-- The tests on the registries and the objective, in the source's order.
unfoldable pub check_registries : SchedulingProblem → Result ProblemError (Unit {0})
check_registries p =
    let sat_ids = map (λ s. s.id) p.satellites in
    let target_ids = map (λ t. t.id) p.targets in
    raise_if (length (opportunity_ids p) == 0) no_opportunity
    >> raise_if (repeats (opportunity_ids p)) opportunity_ids_repeat
    >> raise_if (ltb p.limits.max_variables (length (opportunity_ids p))) too_many_variables
    >> raise_if (repeats sat_ids) satellite_ids_repeat
    >> raise_if (repeats target_ids) target_ids_repeat
    >> raise_if (length sat_ids == 0) no_satellite
    >> raise_if (length target_ids == 0) no_target
    >> raise_if
        (not (
          ltb 0 p.objective.mission_value_weight
          && leb p.objective.mission_value_weight max_weight))
        weight_out_of_range
    >> raise_if (penalty_rejected p.objective.penalty_coefficient) penalty_not_positive

-- The normalized problem, with its checksum.
abbrev pub stamped :
    (SchedulingProblem → String)
    → SchedulingProblem
    → List ObservationOpportunity
    → List (String × String)
    → SchedulingProblem
stamped problem_checksum p canonical_opps pairs =
    let normalized = record p {
      opportunities = canonical_opps;
      constraints = record p.constraints { mutually_exclusive = sorted_by pair_leb pairs };
    } in
    record normalized { checksum = problem_checksum normalized }

unfoldable pub normalize_problem :
    (SchedulingProblem → String) → SchedulingProblem → Result ProblemError SchedulingProblem
normalize_problem problem_checksum p =
    let c = p.constraints in
    check_registries p
    >> (canonical_opportunities (map (λ s. s.id) p.satellites) (map (λ t. t.id) p.targets)
          p.opportunities
        >>= λ canonical_opps.
            raise_if (any (λ m. not (contains m (opportunity_ids p))) c.mandatory) unknown_mandatory
            >> raise_if (repeats c.mandatory) mandatory_repeats
            >> (canonical_mutex (opportunity_ids p) [] c.mutually_exclusive >>= λ pairs.
                ok (stamped problem_checksum p canonical_opps pairs)))

-- The overlaps of one opportunity with those after it.
unfoldable pub overlaps_with :
    ObservationOpportunity → List ObservationOpportunity → List SchedulingConflict
overlaps_with a [] = []
overlaps_with a (b ∷ bs) =
    let rest = overlaps_with a bs in
    if a.satellite_id == b.satellite_id && overlaps a.window b.window
    then record { opportunity_a = a.id; opportunity_b = b.id; kind = ConstraintKind.no_overlap }
      ∷ rest
    else rest

unfoldable pub overlap_conflicts : List ObservationOpportunity → List SchedulingConflict
overlap_conflicts [] = []
overlap_conflicts (a ∷ rest) = overlaps_with a rest ++ overlap_conflicts rest

unfoldable pub exclusion_conflicts :
    List (String × String) → List (String × String) → List SchedulingConflict
exclusion_conflicts seen [] = []
exclusion_conflicts seen (p ∷ ps) =
    let pair = ordered_pair p in
    let known = has_pair pair seen in
    let rest = exclusion_conflicts (if known then seen else pair ∷ seen) ps in
    if known
    then rest
    else record {
      opportunity_a = pair.0;
      opportunity_b = pair.1;
      kind = ConstraintKind.mutual_exclusion;
    }
      ∷ rest

-- Same-satellite overlaps, then the configured exclusions that are not among them.
unfoldable pub generate_conflicts : SchedulingProblem → List SchedulingConflict
generate_conflicts p =
    let opps = sorted_by (λ a b. str_leb a.id b.id) p.opportunities in
    let conflicts = if p.constraints.enforce_no_overlap then overlap_conflicts opps else [] in
    let seen = map (λ c. (c.opportunity_a, c.opportunity_b)) conflicts in
    conflicts ++ exclusion_conflicts seen p.constraints.mutually_exclusive

unfoldable pub total_weighted_value_bound : SchedulingProblem → ℕ
total_weighted_value_bound p =
    sum_of (λ o. o.mission_value * p.objective.mission_value_weight) p.opportunities

-- An explicit penalty, which must be positive, or the automatic one.
abbrev pub penalty_from : Option ℕ → ℕ → Result ProblemError ℕ
penalty_from (some c) automatic = raise_if (leb c 0) penalty_not_positive >> ok c
penalty_from none automatic = ok automatic

unfoldable pub resolved_penalty : SchedulingProblem → Result ProblemError ℕ
resolved_penalty p = penalty_from p.objective.penalty_coefficient (total_weighted_value_bound p + 1)
