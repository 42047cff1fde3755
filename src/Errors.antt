-- ===== src/Errors.antt =====
-- The classification of upstream errors (internal/errors).
pub mod Classify
