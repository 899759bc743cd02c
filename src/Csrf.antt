-- ===== src/Csrf.antt =====
-- The page CSRF registry of the local pages, src/orbitmind/core/page_csrf.py.
pub mod Contracts
pub mod Registry
pub mod Rotation
pub mod Spent
pub mod Once
pub mod Sessions
pub mod Bounds
