-- ===== src/Replay.antt =====
-- internal/replay/replay.go: the comparison of two audit revisions; internal/eval/eval.go: the
-- decision that is taken on it.
pub mod Metric
pub mod Compare
pub mod Outcomes
pub mod Gates
pub mod Decision
