-- ===== src/Input.antt =====
-- internal/input/input.go: ports, names, scopes, address ranges and targets.
pub mod Ports
pub mod Names
pub mod Ranges
pub mod Targets
pub mod Resolving
