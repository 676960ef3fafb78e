-- ===== src/Evidence.antt =====
-- internal/evidence/evidence.go: what may be kept of a source's record.
pub mod Tables
pub mod Sensitive
pub mod Record
pub mod Sanitize
pub mod Laws
pub mod Worth
