-- ===== src/Scanner.antt =====
-- pkg/ctscan: findings and compliance, errors, the retry loop, STARTTLS.
pub mod Findings
pub mod Errors
pub mod Retry
pub mod Setup
pub mod Certificates
pub mod Handshake
pub mod Audit
pub mod StartTls
