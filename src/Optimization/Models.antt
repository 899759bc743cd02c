-- ===== src/Optimization/Models.antt =====
-- src/orbitmind/optimization/models.py: the scheduling problem and the evaluation of a schedule. The
-- quantities that the source keeps as floats are whole numbers here (values, weights, costs and
-- capacities are never negative there), a datetime is its instant in seconds, and descriptive texts
-- (provenance, limitations, details of a violation) are left out.
use orbit_mind_living_q_core.Common.{ℕ, ◌-◌, String, Bool, ◌&&◌, Option, List, ltb, HasEq, ℤ}

pub data ConstraintKind : Type 0 where
  no_overlap max_observations energy_capacity storage_capacity mutual_exclusion : ConstraintKind
  mandatory per_target_limit min_mission_value : ConstraintKind

pub data OptimalityStatus : Type 0 where
  optimal feasible infeasible unknown : OptimalityStatus

pub data ExperimentStatus : Type 0 where
  pending running completed failed timed_out cancelled unsupported inconclusive : ExperimentStatus

pub data PenaltyProofStatus : Type 0 where
  proven_sufficient proven_unsafe contradictory unproven not_applicable : PenaltyProofStatus

unfoldable pub PenaltyProofStatus-discrete : Discrete PenaltyProofStatus
PenaltyProofStatus-discrete = hlevel

instance abbrev pub proof_status_eq : HasEq PenaltyProofStatus
proof_status_eq = record { discrete = PenaltyProofStatus-discrete }

pub record TimeWindow : Type 0 where
  pub start : ℕ
  pub end : ℕ

-- `TimeWindow.overlaps`.
abbrev pub overlaps : TimeWindow → TimeWindow → Bool
overlaps w v = ltb w.start v.end && ltb v.start w.end

-- `(window.end - window.start).total_seconds()`; a window's end is after its start.
abbrev pub window_seconds : TimeWindow → ℕ
window_seconds w = w.end - w.start

pub record ObservationTarget : Type 0 where
  pub id : String
  pub priority : ℕ

pub record SatelliteResource : Type 0 where
  pub id : String
  pub energy_capacity : ℕ
  pub storage_capacity : ℕ

pub record ObservationOpportunity : Type 0 where
  pub id : String
  pub satellite_id : String
  pub target_id : String
  pub window : TimeWindow
  pub mission_value : ℕ
  pub duration_seconds : ℕ
  pub energy_cost : ℕ
  pub storage_cost : ℕ
  pub pointing_cost : ℕ
  pub priority : ℕ

pub record SchedulingConflict : Type 0 where
  pub opportunity_a : String
  pub opportunity_b : String
  pub kind : ConstraintKind

pub record SchedulingObjective : Type 0 where
  pub mission_value_weight : ℕ
  pub penalty_coefficient : Option ℕ

pub record ConstraintSet : Type 0 where
  pub max_observations : Option ℕ
  pub mutually_exclusive : List (String × String)
  pub mandatory : List String
  pub per_target_limit : Option ℕ
  pub min_mission_value : Option ℕ
  pub enforce_no_overlap : Bool
  pub enforce_energy_capacity : Bool
  pub enforce_storage_capacity : Bool

-- The limits that the classical part reads.
pub record SchedulingProblemLimits : Type 0 where
  pub max_variables : ℕ
  pub exact_max_variables : ℕ

pub record SchedulingProblem : Type 0 where
  pub name : String
  pub opportunities : List ObservationOpportunity
  pub satellites : List SatelliteResource
  pub targets : List ObservationTarget
  pub constraints : ConstraintSet
  pub objective : SchedulingObjective
  pub limits : SchedulingProblemLimits
  pub checksum : String

pub record ConstraintViolation : Type 0 where
  pub kind : ConstraintKind
  pub magnitude : ℕ

pub record ScheduleEvaluation : Type 0 where
  pub problem_checksum : String
  pub selected_opportunity_ids : List String
  pub feasible : Bool
  pub raw_mission_value : ℕ
  pub weighted_mission_value : ℕ
  pub constraint_penalty : ℕ
  pub penalized_objective : ℤ
  pub objective_value : ℕ
  pub total_energy : ℕ
  pub total_storage : ℕ
  pub violations : List ConstraintViolation

-- A pair of indices "i,j" is the pair of the numbers it spells.
pub record QuboModel : Type 0 where
  pub num_vars : ℕ
  pub variable_opportunities : List String
  pub linear : List (ℕ × ℤ)
  pub quadratic : List ((ℕ × ℕ) × ℤ)
  pub offset : ℤ
  pub penalty_coefficient : ℕ
