-- ===== src/Boundary/Cycle.antt =====
-- internal/boundary/resolve.go: `firstCycle`, the search for a cycle of conflicts.
pub mod Search
pub mod Cases
pub mod Ends
pub mod Sound
pub mod Complete
