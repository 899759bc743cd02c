-- ===== src/Authority.antt =====
-- The authority kernel, src/orbitmind/authority, its repository and its commands.
pub mod Contracts
pub mod Evaluation
pub mod Soundness
pub mod Precedence
pub mod Repository
pub mod Causality
pub mod Evaluations
pub mod Recording
pub mod StoredChain
pub mod Persisted
pub mod Lifecycle
pub mod Issue
pub mod Commands
pub mod Terminal
pub mod ChainReads
pub mod ChainLinks
