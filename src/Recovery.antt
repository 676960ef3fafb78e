-- ===== src/Recovery.antt =====
-- internal/recovery/recovery.go: the encrypted archive, as a stream of authenticated chunks.
-- AES-GCM and SHA-256 are parameters; streams are lists of bytes, a reader is the list of its reads.
pub mod Bytes
pub mod Encrypt
pub mod Decrypt
pub mod Archive
pub mod Roundtrip
