-- ===== src/Audit.antt =====
-- internal/audit/audit.go: the bound on an audit's result, the request and the detectors.
pub mod Omission
pub mod Bound
pub mod Request
pub mod References
pub mod Snapshot
pub mod Engine
pub mod Facts
