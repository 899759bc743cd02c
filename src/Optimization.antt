-- ===== src/Optimization.antt =====
-- The observation scheduler, src/orbitmind/optimization: problems, the shared evaluator, the QUBO
-- encoding with its penalties, and the classical solvers.
pub mod Models
pub mod Problem
pub mod Evaluation
pub mod Qubo
pub mod Penalties
pub mod Solvers
