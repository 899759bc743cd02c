-- ===== src/Handoff.antt =====
-- The transient hand-off store of the custom-TLE replay, src/orbitmind/api/transient_handoff.py.
pub mod Contracts
pub mod Sessions
pub mod Store
pub mod Bounds
pub mod Atomic
pub mod Consume
pub mod Once
pub mod RoundTrip
