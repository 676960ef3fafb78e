-- ===== src/Prompt.antt =====
-- The prompt's text and its diagnostics: internal/textutil/normalize.go and internal/lint/lint.go,
-- and internal/compiler/compiler.go, which makes a prompt.
pub mod Lines
pub mod Rules
pub mod Lint
pub mod Plan
pub mod Compiler
pub mod Laws
