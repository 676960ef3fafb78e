-- ===== src/Adapters.antt =====
-- internal/adapters: sources that are files of lines.
pub mod Jsonl
pub mod Collect
pub mod Slices
pub mod Resumption
pub mod Progress
pub mod Sources
