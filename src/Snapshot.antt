-- ===== src/Snapshot.antt =====
-- internal/snapshot/diff.go: reading recorded results, and what changed between two of them.
pub mod Changes
pub mod Reading
