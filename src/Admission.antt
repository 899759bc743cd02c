-- ===== src/Admission.antt =====
-- Operation admission, src/orbitmind/admission, with the bridge from the authority kernel,
-- src/orbitmind/orchestration/admission_lifecycle.py.
pub mod Contracts
pub mod Policy
pub mod Safety
pub mod Precedence
pub mod Bridge
pub mod Lifecycle
pub mod Evidence
pub mod Replay
