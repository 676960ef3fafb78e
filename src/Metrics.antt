-- ===== src/Metrics.antt =====
-- internal/metrics/metrics.go: the metrics of an audit, from its counts.
pub mod Table
pub mod Compute
pub mod Laws
