-- ===== src/Collector.antt =====
-- internal/collector/collector.go: one run of a collector over one source.
pub mod Run
pub mod Laws
