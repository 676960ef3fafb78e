-- ===== src/Boundary.antt =====
-- internal/boundary: the decision for one action, the resolution of candidates, and the engine.
pub mod Decision
pub mod Selection
pub mod Cycle
pub mod Resolution
pub mod Engine
pub mod Paths
pub mod Discovery
