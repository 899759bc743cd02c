-- ===== src/Persistence.antt =====
-- The append-only, owner-scoped evidence tables of src/orbitmind/persistence.
pub mod Table
pub mod TableLaws
