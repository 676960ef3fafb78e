-- ===== src/Tests.antt =====
-- Runs of the modelled code on concrete inputs, one module for each part.
mod Recovery
mod Replay
mod Boundary
mod Events
mod Normalize
mod Policypack
mod Recommendation
mod Selection
mod Status
mod Collector
mod Engine
mod Evidence
mod Adapters
mod Audit
mod Attribution
mod FixedPoint
mod Governance
mod Prompt
mod Discovery
