-- ===== src/Optimization/Problem/Conflicts.antt =====
-- src/orbitmind/optimization/problem.py: the endpoints of the conflicts of a normal problem.
use orbit_mind_living_q_core.Common.{
  ◌≡◌, inl, inr, String, Bool, true, false, ◌&&◌, List, [], ◌∷◌, ◌++◌, map, if◌then◌else◌, ◌==◌,
  string_eq, All, contains, Bool-cases, str_leb, sorted_by, arith,
}
use orbit_mind_living_q_core.Optimization.Models.{
  overlaps, ObservationOpportunity, SchedulingConflict, SchedulingProblem,
}
use orbit_mind_living_q_core.Optimization.Problem.{
  opportunity_ids, has_pair, ordered_pair, overlaps_with, overlap_conflicts, exclusion_conflicts,
  generate_conflicts,
}
use orbit_mind_living_q_core.Optimization.Problem.Normal.{IsExclusion, IsNormal, All-sorted}

-- Both opportunities are among the ids.
abbrev pub IsWithin : List String → SchedulingConflict → Type 0
IsWithin ids c = (contains c.opportunity_a ids ≡ true) × (contains c.opportunity_b ids ≡ true)

abbrev IsListed : List String → ObservationOpportunity → Type 0
IsListed ids o = contains o.id ids ≡ true

All-append : {A : Type 0} (P : A → Type 0) (xs ys : List A) → All P xs → All P ys → All P (xs ++ ys)
All-append P [] ys h k = k
All-append P (x ∷ xs) ys (h, hs) k = (h, All-append P xs ys hs k)

overlaps_with-IsWithin :
    (ids : List String) (a : ObservationOpportunity) (bs : List ObservationOpportunity)
    → IsListed ids a
    → All (IsListed ids) bs
    → All (IsWithin ids) (overlaps_with a bs)
unfolding overlaps_with
overlaps_with-IsWithin ids a [] h hs = tt
overlaps_with-IsWithin ids a (b ∷ bs) h (hb, hs) =
    let rest = overlaps_with-IsWithin ids a bs h hs in
    elim (Bool-cases (a.satellite_id == b.satellite_id && overlaps a.window b.window)) [
      | inl e ↦ rw e ((h, hb), rest)
      | inr e ↦ rw e rest
    ]

overlap_conflicts-IsWithin :
    (ids : List String) (os : List ObservationOpportunity)
    → All (IsListed ids) os
    → All (IsWithin ids) (overlap_conflicts os)
unfolding overlap_conflicts
overlap_conflicts-IsWithin ids [] h = tt
overlap_conflicts-IsWithin ids (o ∷ os) (h, hs) =
    All-append (IsWithin ids) (overlaps_with o os) (overlap_conflicts os)
      (overlaps_with-IsWithin ids o os h hs) (overlap_conflicts-IsWithin ids os hs)

ordered_pair-within :
    (ids : List String) (p : String × String)
    → IsExclusion ids p
    → (contains (ordered_pair p).0 ids ≡ true) × (contains (ordered_pair p).1 ids ≡ true)
ordered_pair-within ids p h = rw (h.2) (h.0, h.1)

exclusion_conflicts-IsWithin :
    (ids : List String) (ps seen : List (String × String))
    → All (IsExclusion ids) ps
    → All (IsWithin ids) (exclusion_conflicts seen ps)
unfolding exclusion_conflicts
exclusion_conflicts-IsWithin ids [] seen h = tt
exclusion_conflicts-IsWithin ids (p ∷ ps) seen (h, hs) =
    let rest =
      exclusion_conflicts-IsWithin ids ps
        (if has_pair (ordered_pair p) seen then seen else ordered_pair p ∷ seen) hs in
    let first = ordered_pair-within ids p h in
    if-within (has_pair (ordered_pair p) seen) _ _ first rest
  where
    if-within :
        (b : Bool) (c : SchedulingConflict) (cs : List SchedulingConflict)
        → IsWithin ids c
        → All (IsWithin ids) cs
        → All (IsWithin ids) (if b then cs else c ∷ cs)
    if-within true c cs h hs = hs
    if-within false c cs h hs = (h, hs)

listed :
    (ids : List String) (os : List ObservationOpportunity)
    → ((id : String) → contains id (map (λ o. o.id) os) ≡ true → contains id ids ≡ true)
    → All (IsListed ids) os
listed ids [] h = tt
listed ids (o ∷ os) h = (h o.id (ground arith), listed ids os (λ id m. h id (ground arith)))

-- Every conflict of a normal problem joins two of its opportunities.
pub generate_conflicts-IsWithin :
    (p : SchedulingProblem) → IsNormal p → All (IsWithin (opportunity_ids p)) (generate_conflicts p)
unfolding generate_conflicts
generate_conflicts-IsWithin p n =
    let ids = opportunity_ids p in
    let opps = sorted_by (λ a b. str_leb a.id b.id) p.opportunities in
    let here =
      All-sorted (IsListed ids) (λ a b. str_leb a.id b.id) p.opportunities
        (listed ids p.opportunities (λ id m. m)) in
    All-append (IsWithin ids)
      (if p.constraints.enforce_no_overlap then overlap_conflicts opps else []) _
      (if-all p.constraints.enforce_no_overlap _ (overlap_conflicts-IsWithin ids opps here))
      (exclusion_conflicts-IsWithin ids p.constraints.mutually_exclusive _ n.exclusions_known)
  where
    if-all :
        (b : Bool) (cs : List SchedulingConflict)
        → All (IsWithin (opportunity_ids p)) cs
        → All (IsWithin (opportunity_ids p)) (if b then cs else [])
    if-all true cs h = h
    if-all false cs h = tt
