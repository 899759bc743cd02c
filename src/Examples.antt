-- ===== src/Examples.antt =====
-- One chain of evidence, from an approval to a tool invocation, one hand-off and one page session,
-- with the theorems applied to them.
mod Data
mod Authority
mod Admission
mod Gateway
mod Handoff
mod Csrf
mod Optimization
mod Lifecycle
