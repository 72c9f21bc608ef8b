-- ===== src/Cli.antt =====
-- internal/cli/cli.go: from raw targets to waves of scans and an exit code.
pub mod Targets
pub mod Endpoints
pub mod Pivot
pub mod Options
pub mod Ct
pub mod Diff
