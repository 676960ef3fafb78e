-- ===== src/Policypack.antt =====
-- internal/policypack/policypack.go: packs of rules, their validation, and the rules that match facts.
-- Parsing, which decodes JSON and then validates, is left out.
pub mod Identifier
pub mod Tables
pub mod Packs
pub mod Validity
pub mod Matching
