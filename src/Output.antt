-- ===== src/Output.antt =====
-- internal/output/output.go: what is printed of a result.
pub mod Names
pub mod Display
pub mod Writer
